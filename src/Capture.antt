-- ===== src/Capture.antt =====
-- common/capture/include/capture.hpp: what is written to a stream is captured through a pipe and a thread
-- that reads it. The results of the system's calls are arguments, a call that fails being `some` of
-- its `errno`; the calls themselves are kept as a history. A descriptor of -1 is `none`.
pub mod Descriptors
pub mod Lifetime
pub mod Instance
mod Tests
use cplus_plus_developer_pro.Prelude.{
  ℕ, zero, suc, ◌+◌, Bool, true, false, Option, none, some, List, [], ◌∷◌, ◌++◌, ◌==◌,
  if◌then◌else◌, snoc, not, ◌⊎◌, inl, inr,
}
use cplus_plus_developer_pro.Prelude.Text.{Text}

abbrev pub ErrorCode : Type 0
ErrorCode = Option ℕ

-- The system's calls: `pipe2` and `fcntl` with the descriptors they gave, `dup2` to the stream's
-- descriptor with whether it was done, `close`, and the start and the join of the thread.
pub data Call : Type 0 where
  pipes : (read_end write_end : ℕ) → Call
  duplicates : ℕ → Call
  redirects : ℕ → Bool → Call
  closes : ℕ → Call
  starts : Call
  joins : Call

-- A result of `read`: some bytes, their end, EINTR, or another error.
pub data Read : Type 0 where
  bytes_read : Text → Read
  end_of_file : Read
  interrupted : Read
  read_error : Read

-- The loop of `reader_worker`, or `none` while it goes on reading.
unfoldable pub reader_worker : List Read → Text → Option Text
reader_worker [] captured_data = none
reader_worker (bytes_read chunk ∷ reads) captured_data =
    reader_worker reads (captured_data ++ chunk)
reader_worker (end_of_file ∷ reads) captured_data = some captured_data
reader_worker (interrupted ∷ reads) captured_data = reader_worker reads captured_data
reader_worker (read_error ∷ reads) captured_data = some captured_data

pub record StreamCapture : Type 0 where
  pub fd_old : Option ℕ
  pub pipe_r : Option ℕ
  pub pipe_w : Option ℕ
  pub reader_thread : Bool
  pub captured_data : Text
  pub calls : List Call

-- The results of the calls in `cleanup`, and what the thread reads before it can be joined.
pub record Closing : Type 0 where
  pub restore : ErrorCode
  pub close_old : ErrorCode
  pub close_w : ErrorCode
  pub close_r : ErrorCode
  pub reads : List Read

-- An assignment to `er_code` after a call that failed.
abbrev pub after : ErrorCode → ErrorCode → ErrorCode
after none er_code = er_code
after (some e) er_code = some e

abbrev pub is_done : ErrorCode → Bool
is_done none = true
is_done (some e) = false

-- The parts of `cleanup`, each with the error so far.
unfoldable pub restore_old : Closing → ErrorCode × StreamCapture → ErrorCode × StreamCapture
restore_old o (er_code, s) = elim s.fd_old [
  | none ↦ (er_code, s)
  | some fd ↦ (
    after o.close_old (after o.restore er_code),
    record s {
      fd_old = none;
      calls = s.calls ++ redirects fd (is_done o.restore) ∷ closes fd ∷ [];
    },
  )
]

unfoldable pub close_write : Closing → ErrorCode × StreamCapture → ErrorCode × StreamCapture
close_write o (er_code, s) = elim s.pipe_w [
  | none ↦ (er_code, s)
  | some fd ↦
      (after o.close_w er_code, record s { pipe_w = none; calls = snoc s.calls (closes fd) })
]

-- `none` while the thread cannot be joined.
unfoldable pub join_reader :
    Closing → ErrorCode × StreamCapture → Option (ErrorCode × StreamCapture)
join_reader o (er_code, s) =
    let joined : Option (ErrorCode × StreamCapture) = elim (reader_worker o.reads s.captured_data) [
      | none ↦ none
      | some data' ↦ some (
        er_code,
        record s { reader_thread = false; captured_data = data'; calls = snoc s.calls joins },
      )
    ] in
    if s.reader_thread then joined else some (er_code, s)

unfoldable pub close_read : Closing → ErrorCode × StreamCapture → ErrorCode × StreamCapture
close_read o (er_code, s) = elim s.pipe_r [
  | none ↦ (er_code, s)
  | some fd ↦
      (after o.close_r er_code, record s { pipe_r = none; calls = snoc s.calls (closes fd) })
]

unfoldable pub cleanup : Closing → StreamCapture → Option (ErrorCode × StreamCapture)
unfolding restore_old close_write join_reader close_read
cleanup o s = elim (join_reader o (close_write o (restore_old o (none, s)))) [
  | none ↦ none
  | some r ↦ some (close_read o r)
]

-- The results of the calls in the constructor; `thread` is whether the thread could be started.
pub record Opening : Type 0 where
  pub pipe : Option (ℕ × ℕ)
  pub pipe_errno : ℕ
  pub flush : ErrorCode
  pub dup : Option ℕ
  pub dup_errno : ℕ
  pub redirect : ErrorCode
  pub thread : Bool

-- How the constructor ends: with an object, or with a `system_error` of a code. The code of its
-- cleanup stands in the message. What was called is kept in both cases.
pub data Built : Type 0 where
  built : StreamCapture → Built
  throws : (code cleanup_code : ErrorCode) → List Call → Built

-- A failed call: its errno is thrown after the cleanup.
abbrev pub fail_with : ErrorCode → Option (ErrorCode × StreamCapture) → Option Built
fail_with code none = none
fail_with code (some (err_cleanup, s)) = some (throws code err_cleanup s.calls)

-- The exception when the thread cannot be started: the code is that of the cleanup.
abbrev pub fail_thread : Option (ErrorCode × StreamCapture) → Option Built
fail_thread none = none
fail_thread (some (err_cleanup, s)) = some (throws err_cleanup err_cleanup s.calls)

unfoldable pub start_thread : Opening → Closing → StreamCapture → Option Built
unfolding cleanup
start_thread o c s =
    let failed = fail_thread (cleanup c s) in
    if o.thread
    then some (built (record s { reader_thread = true; calls = snoc s.calls starts }))
    else failed

unfoldable pub redirect_stream : Opening → Closing → ℕ → StreamCapture → Option Built
unfolding start_thread cleanup
redirect_stream o c write_end s =
    let tried = record s { calls = snoc s.calls (redirects write_end (is_done o.redirect)) } in
    elim o.redirect [
      | some e ↦ fail_with (some e) (cleanup c tried)
      | none ↦ start_thread o c tried
    ]

unfoldable pub duplicate_stream : Opening → Closing → ℕ → StreamCapture → Option Built
unfolding redirect_stream cleanup
duplicate_stream o c write_end s = elim o.dup [
  | none ↦ fail_with (some o.dup_errno) (cleanup c s)
  | some fd ↦
      redirect_stream o c write_end
        (record s { fd_old = some fd; calls = snoc s.calls (duplicates fd) })
]

-- The constructor. A failing `pipe2` leaves nothing to clean up.
unfoldable pub construct : Opening → Closing → Option Built
unfolding duplicate_stream cleanup
construct o c = elim o.pipe [
  | none ↦ some (throws (some o.pipe_errno) none [])
  | some (read_end, write_end) ↦
      let s : StreamCapture = record {
        fd_old = none;
        pipe_r = some read_end;
        pipe_w = some write_end;
        reader_thread = false;
        captured_data = [];
        calls = pipes read_end write_end ∷ [];
      } in
      elim o.flush [
        | some e ↦ fail_with (some e) (cleanup c s)
        | none ↦ duplicate_stream o c write_end s
      ]
]

-- How `End` ends.
pub data Ended : Type 0 where
  returns : Text → StreamCapture → Ended
  throws_error : ErrorCode → StreamCapture → Ended

-- `End` after its cleanup; what stays in a string that was moved from is a parameter.
abbrev pub after_cleanup : (moved_from : Text) → ErrorCode → ErrorCode × StreamCapture → Ended
after_cleanup moved_from ec_fflush (some e, s) = throws_error (some e) s
after_cleanup moved_from (some e) (none, s) = throws_error (some e) s
after_cleanup moved_from none (none, s) =
    returns s.captured_data (record s { captured_data = moved_from })

unfoldable pub end_capture :
    (moved_from : Text) → ErrorCode → Closing → StreamCapture → Option Ended
unfolding cleanup
end_capture moved_from ec_fflush o s = elim s.fd_old [
  | none ↦ some (returns s.captured_data s)
  | some fd ↦ elim (cleanup o s) [
    | none ↦ none
    | some r ↦ some (after_cleanup moved_from ec_fflush r)
  ]
]

-- The object after `End`.
abbrev pub left : Ended → StreamCapture
left (returns t s) = s
left (throws_error e s) = s

-- The destructor, whose exceptions are dropped.
unfoldable pub destruct :
    (moved_from : Text) → ErrorCode → Closing → StreamCapture → Option StreamCapture
unfolding end_capture
destruct moved_from ec_fflush o s = elim s.fd_old [
  | none ↦ some s
  | some fd ↦ elim (end_capture moved_from ec_fflush o s) [ none ↦ none | some e ↦ some (left e) ]
]

-- `begin` on the one instance: whether it throws, and the instance. `exits` is whether
-- `std::atexit` took the function.
unfoldable pub begin :
    Opening → Closing → (exits : Bool) → Option StreamCapture → Option (Bool × Option StreamCapture)
unfolding construct
begin opening closing exits (some s) = some (false, some s)
begin opening closing exits none = elim (construct opening closing) [
  | none ↦ none
  | some (throws code cleanup_code calls) ↦ some (true, none)
  | some (built s) ↦ some (not exits, some s)
]

-- `BaseCapture::Destroy`
unfoldable pub destroy_instance :
    (moved_from : Text) → ErrorCode → Closing → Option StreamCapture → Option (Option StreamCapture)
unfolding destruct
destroy_instance moved_from ec_fflush o none = some none
destroy_instance moved_from ec_fflush o (some s) = elim (destruct moved_from ec_fflush o s) [
  | none ↦ none
  | some t ↦ some none
]

-- `BaseCapture::End` after the call of `End` on the instance.
unfoldable pub after_end :
    (moved_from : Text)
    → ErrorCode
    → Closing
    → Ended
    → Option ((Text ⊎ ErrorCode) × Option StreamCapture)
unfolding destroy_instance
after_end moved_from ec_fflush o (throws_error e s) = some (inr e, some s)
after_end moved_from ec_fflush o (returns t s) =
    elim (destroy_instance moved_from ec_fflush o (some s)) [
      | none ↦ none
      | some instance' ↦ some (inl t, instance')
    ]

-- `end`: the text or the error, and the instance.
unfoldable pub finish :
    (moved_from : Text)
    → ErrorCode
    → Closing
    → Option StreamCapture
    → Option ((Text ⊎ ErrorCode) × Option StreamCapture)
unfolding after_end end_capture
finish moved_from ec_fflush o none = some (inl [], none)
finish moved_from ec_fflush o (some s) = elim (end_capture moved_from ec_fflush o s) [
  | none ↦ none
  | some e ↦ after_end moved_from ec_fflush o e
]
