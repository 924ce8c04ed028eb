-- ===== src/Capture/Descriptors.antt =====
-- What the calls made in common/capture/include/capture.hpp do to the descriptors of the process, by
-- what POSIX says of them: `close` frees a descriptor also when it reports an error.
use cplus_plus_developer_pro.Prelude.{
  ℕ, ◌≡◌, refl, Bool, true, false, not, ◌&&◌, Option, none, some, List, [], ◌∷◌, ◌==◌,
  if◌then◌else◌, arith,
}
use cplus_plus_developer_pro.Capture.{
  ErrorCode, Call, pipes, duplicates, redirects, closes, starts, joins, StreamCapture, Closing,
  Opening, Built, built, throws, is_done, restore_old, close_write, join_reader, close_read,
  cleanup, start_thread, redirect_stream, duplicate_stream, construct,
}

-- The open descriptors, the write end of the pipe, whether the stream goes into the pipe, and
-- whether the thread runs.
pub record Process : Type 0 where
  pub opened : List ℕ
  pub write_end : ℕ
  pub is_redirected : Bool
  pub is_reading : Bool

abbrev pub remove : ℕ → List ℕ → List ℕ
remove fd [] = []
remove fd (g ∷ fds) = if g == fd then fds else g ∷ remove fd fds

abbrev pub effect : Call → Process → Process
effect (pipes r w) p = record p { opened = w ∷ r ∷ p.opened; write_end = w }
effect (duplicates fd) p = record p { opened = fd ∷ p.opened }
effect (redirects fd done) p = record p {
  is_redirected = if done then fd == p.write_end else p.is_redirected;
}
effect (closes fd) p = record p { opened = remove fd p.opened }
effect starts p = record p { is_reading = true }
effect joins p = record p { is_reading = false }

abbrev pub effects : List Call → Process → Process
effects [] p = p
effects (call ∷ calls) p = effects calls (effect call p)

-- Before the constructor; other descriptors are left out.
abbrev pub untouched : Process
untouched = record { opened = []; write_end = 0; is_redirected = false; is_reading = false }

-- The descriptors that the calls of the constructor give are distinct.
abbrev pub distinct : Option (ℕ × ℕ) → Option ℕ → Bool
distinct none dup = true
distinct (some (r, w)) none = not (r == w)
distinct (some (r, w)) (some fd) = not (r == w) && not (fd == r) && not (fd == w)

-- An object that captures: its three descriptors are open, the stream goes into the pipe and the
-- thread reads.
pub record IsCapturing (s : StreamCapture) : Type 0 where
  pub old : ℕ
  pub read_end : ℕ
  pub write_end : ℕ
  pub made : List Call
  pub form : s ≡ record {
    fd_old = some old;
    pipe_r = some read_end;
    pipe_w = some write_end;
    reader_thread = true;
    captured_data = [];
    calls = made;
  }
  pub apart : distinct (some (read_end, write_end)) (some old) ≡ true
  pub process : effects made untouched ≡ record {
    opened = old ∷ write_end ∷ read_end ∷ [];
    write_end = write_end;
    is_redirected = true;
    is_reading = true;
  }

-- What has to be left when the object is gone.
abbrev pub IsReleased : Closing → List Call → Type 0
IsReleased c calls =
    let p = effects calls untouched in
    (p.opened ≡ []) × (p.is_reading ≡ false) × (c.restore ≡ none → p.is_redirected ≡ false)

abbrev pub IsSafe : Closing → Built → Type 0
IsSafe c (built s) = IsCapturing s
IsSafe c (throws code cleanup_code calls) = IsReleased c calls

closed_two : (r w : ℕ) → not (r == w) ≡ true → remove r (remove w (w ∷ r ∷ [])) ≡ []
closed_two r w e = ground arith

pub closed_three :
    (r w fd : ℕ)
    → distinct (some (r, w)) (some fd) ≡ true
    → remove r (remove w (remove fd (fd ∷ w ∷ r ∷ []))) ≡ []
closed_three r w fd e = ground arith

pub restored :
    (r w fd : ℕ) (before : Bool) (restore : ErrorCode)
    → distinct (some (r, w)) (some fd) ≡ true
    → restore ≡ none
    → (if is_done restore then fd == w else before) ≡ false
restored r w fd before restore e h = rw h (ground arith)

module _ (c : Closing) (pipe_errno dup_errno : ℕ) where
  abbrev opening : Option (ℕ × ℕ) → ErrorCode → Option ℕ → ErrorCode → Bool → Opening
  opening pipe flush dup redirect thread = record {
    pipe = pipe;
    pipe_errno = pipe_errno;
    flush = flush;
    dup = dup;
    dup_errno = dup_errno;
    redirect = redirect;
    thread = thread;
  }

  by_results :
      (pipe : Option (ℕ × ℕ)) (flush : ErrorCode) (dup : Option ℕ) (redirect : ErrorCode)
      (thread : Bool)
      → distinct pipe dup ≡ true
      → (b : Built) × (construct (opening pipe flush dup redirect thread) c ≡ some b) × IsSafe c b
  unfolding construct duplicate_stream redirect_stream start_thread cleanup restore_old close_write
      join_reader close_read
  by_results none flush dup redirect thread e =
      (throws (some pipe_errno) none [], refl, (refl, refl, λ h. refl))
  by_results (some (r, w)) (some x) none redirect thread e =
      (_, refl, (closed_two r w e, refl, λ h. refl))
  by_results (some (r, w)) (some x) (some fd) redirect thread e =
      (_, refl, (closed_two r w (ground arith), refl, λ h. refl))
  by_results (some (r, w)) none none redirect thread e =
      (_, refl, (closed_two r w e, refl, λ h. refl))
  by_results (some (r, w)) none (some fd) (some x) thread e =
      (_, refl, (closed_three r w fd e, refl, restored r w fd false c.restore e))
  by_results (some (r, w)) none (some fd) none false e =
      (_, refl, (closed_three r w fd e, refl, restored r w fd (w == w) c.restore e))
  by_results (some (r, w)) none (some fd) none true e =
      let same : (w == w) ≡ true = ground arith in
      (
        _,
        refl,
        record {
          old = fd;
          read_end = r;
          write_end = w;
          made = pipes r w ∷ duplicates fd ∷ redirects w true ∷ starts ∷ [];
          form = refl;
          apart = e;
          process = rw same;
        },
      )

-- When the system gives distinct descriptors, the constructor ends whatever calls fail. If it
-- succeeds, the stream goes into the pipe and the thread reads it. If it throws, no descriptor
-- stays open and no thread runs; the stream is as before, unless restoring it failed.
pub construct-IsSafe :
    (o : Opening) (c : Closing)
    → distinct o.pipe o.dup ≡ true
    → (b : Built) × (construct o c ≡ some b) × IsSafe c b
construct-IsSafe o c e =
    by_results c o.pipe_errno o.dup_errno o.pipe o.flush o.dup o.redirect o.thread e
