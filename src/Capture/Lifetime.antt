-- ===== src/Capture/Lifetime.antt =====
-- The end of a capture of common/capture/include/capture.hpp.
use cplus_plus_developer_pro.Prelude.{
  ℕ, ◌≡◌, refl, sym, ap, ◌∙◌, ◌⊎◌, inl, inr, Bool, true, false, none, some, List, [], ◌∷◌, ◌++◌,
  snoc, append_assoc, append-nil,
}
use cplus_plus_developer_pro.Prelude.Text.{Text}
use cplus_plus_developer_pro.Capture.{
  ErrorCode, Call, redirects, closes, joins, StreamCapture, Closing, is_done, after, reader_worker,
  restore_old, close_write, join_reader, close_read, cleanup, Ended, returns, throws_error,
  after_cleanup, left, end_capture, Read, bytes_read, end_of_file, interrupted, read_error,
}
use cplus_plus_developer_pro.Capture.Descriptors.{
  Process, effect, effects, untouched, distinct, IsCapturing, IsReleased, closed_three, restored,
}

effects-append :
    (cs ds : List Call) (p : Process) → effects (cs ++ ds) p ≡ effects ds (effects cs p)
effects-append [] ds p = refl
effects-append (c ∷ cs) ds p = effects-append cs ds (effect c p)

-- The bytes before the end of the file or an error.
abbrev pub bytes_until_end : List Read → Text
bytes_until_end [] = []
bytes_until_end (bytes_read chunk ∷ reads) = chunk ++ bytes_until_end reads
bytes_until_end (end_of_file ∷ reads) = []
bytes_until_end (interrupted ∷ reads) = bytes_until_end reads
bytes_until_end (read_error ∷ reads) = []

abbrev pub has_end : List Read → Bool
has_end [] = false
has_end (bytes_read chunk ∷ reads) = has_end reads
has_end (end_of_file ∷ reads) = true
has_end (interrupted ∷ reads) = has_end reads
has_end (read_error ∷ reads) = true

pub reader_worker_lem :
    (reads : List Read) (front : Text)
    → has_end reads ≡ true
    → reader_worker reads front ≡ some (front ++ bytes_until_end reads)
unfolding reader_worker
reader_worker_lem [] front e = cc
reader_worker_lem (bytes_read chunk ∷ reads) front e =
    reader_worker_lem reads (front ++ chunk) e
    ∙ ap some (append_assoc front chunk (bytes_until_end reads))
reader_worker_lem (end_of_file ∷ reads) front e = ap some (sym (append-nil front))
reader_worker_lem (interrupted ∷ reads) front e = reader_worker_lem reads front e
reader_worker_lem (read_error ∷ reads) front e = ap some (sym (append-nil front))

reader_worker-none :
    (reads : List Read) (front : Text) → has_end reads ≡ false → reader_worker reads front ≡ none
unfolding reader_worker
reader_worker-none [] front e = refl
reader_worker-none (bytes_read chunk ∷ reads) front e = reader_worker-none reads (front ++ chunk) e
reader_worker-none (end_of_file ∷ reads) front e = cc
reader_worker-none (interrupted ∷ reads) front e = reader_worker-none reads front e
reader_worker-none (read_error ∷ reads) front e = cc

-- What `End` gave.
abbrev pub outcome : Ended → Text ⊎ ErrorCode
outcome (returns t s) = inl t
outcome (throws_error e s) = inr e

-- What `End` has to give: the last error of the cleanup, else that of `fflush`, else the text.
abbrev pub expected : ErrorCode → Closing → Text → Text ⊎ ErrorCode
expected ec_fflush o t =
    elim (after o.close_r (after o.close_w (after o.close_old (after o.restore none)))) [
      | some e ↦ inr (some e)
      | none ↦ elim ec_fflush [ some e ↦ inr (some e) | none ↦ inl t ]
    ]

module _ (moved_from : Text) (ec_fflush : ErrorCode) (o : Closing) (old r w : ℕ)
    (made : List Call) where
  abbrev pub capturing : StreamCapture
  capturing = record {
    fd_old = some old;
    pipe_r = some r;
    pipe_w = some w;
    reader_thread = true;
    captured_data = [];
    calls = made;
  }

  abbrev all_calls : List Call
  all_calls =
      snoc
        (snoc (snoc (made ++ redirects old (is_done o.restore) ∷ closes old ∷ []) (closes w)) joins)
        (closes r)

  abbrev pub ended : Text → StreamCapture
  ended t = record {
    fd_old = none;
    pipe_r = none;
    pipe_w = none;
    reader_thread = false;
    captured_data = t;
    calls = all_calls;
  }

  cleanup_lem :
      (t : Text)
      → reader_worker o.reads [] ≡ some t
      → cleanup o capturing
        ≡ some
            (after o.close_r (after o.close_w (after o.close_old (after o.restore none))), ended t)
  unfolding cleanup restore_old close_write join_reader close_read
  cleanup_lem t e = rw (cleanup, e)

  abbrev last_calls : List Call
  last_calls = redirects old (is_done o.restore) ∷ closes old ∷ closes w ∷ joins ∷ closes r ∷ []

  all_calls_split : all_calls ≡ made ++ last_calls
  all_calls_split = simp append_assoc

  all_calls-IsReleased :
      distinct (some (r, w)) (some old) ≡ true
      → effects made untouched ≡ record {
        opened = old ∷ w ∷ r ∷ [];
        write_end = w;
        is_redirected = true;
        is_reading = true;
      }
      → IsReleased o all_calls
  all_calls-IsReleased apart process =
      rw (all_calls_split, effects-append made last_calls untouched, process)
        (closed_three r w old apart, refl, restored r w old true o.restore apart)

  abbrev pub code : ErrorCode
  code = after o.close_r (after o.close_w (after o.close_old (after o.restore none)))

  pub end_capture-after_cleanup :
      (t : Text)
      → reader_worker o.reads [] ≡ some t
      → end_capture moved_from ec_fflush o capturing
        ≡ some (after_cleanup moved_from ec_fflush (code, ended t))
  unfolding end_capture
  end_capture-after_cleanup t e = rw (end_capture, cleanup_lem t e)

  after_cleanup_lem :
      (c f : ErrorCode) (t : Text)
      → ((left (after_cleanup moved_from f (c, ended t))).calls ≡ all_calls)
        × ((left (after_cleanup moved_from f (c, ended t))).fd_old ≡ none)
        × (outcome (after_cleanup moved_from f (c, ended t)) ≡ elim c as (λ x. Text ⊎ ErrorCode) [
          | some x ↦ inr (some x)
          | none ↦ elim f as (λ x. Text ⊎ ErrorCode) [ some x ↦ inr (some x) | none ↦ inl t ]
        ])
  after_cleanup_lem (some x) f t = (refl, refl, refl)
  after_cleanup_lem none (some x) t = (refl, refl, refl)
  after_cleanup_lem none none t = (refl, refl, refl)

-- When an object captures and the reads of its thread come to an end, `End` returns whatever calls
-- fail, and then no descriptor is open, the thread was joined, and the stream is as before the
-- capture, unless restoring it failed. `End` gives all bytes that were read, or throws the last
-- error of the cleanup, or else that of `fflush`. A second `End` makes no call.
pub end_capture-IsReleased :
    (moved_from : Text) (ec_fflush : ErrorCode) (o : Closing) (s : StreamCapture)
    → IsCapturing s
    → has_end o.reads ≡ true
    → (e : Ended) × (end_capture moved_from ec_fflush o s ≡ some e)
      × IsReleased o (left e).calls
      × (outcome e ≡ expected ec_fflush o (bytes_until_end o.reads))
      × (end_capture moved_from ec_fflush o (left e)
          ≡ some (returns (left e).captured_data (left e)))
unfolding end_capture
end_capture-IsReleased moved_from ec_fflush o s k finishes =
    let t = bytes_until_end o.reads in
    let read = reader_worker_lem o.reads [] finishes in
    let c = code moved_from ec_fflush o k.old k.read_end k.write_end k.made in
    let after_all = ended moved_from ec_fflush o k.old k.read_end k.write_end k.made t in
    let e = after_cleanup moved_from ec_fflush (c, after_all) in
    let (same, gone, gives) =
      after_cleanup_lem moved_from ec_fflush o k.old k.read_end k.write_end k.made c ec_fflush t in
    (
      e,
      ap (end_capture moved_from ec_fflush o) k.form
          ∙ end_capture-after_cleanup moved_from ec_fflush o k.old k.read_end k.write_end k.made t
              read,
      rw same (
          all_calls-IsReleased moved_from ec_fflush o k.old k.read_end k.write_end k.made k.apart
            k.process),
      gives,
      rw (end_capture, gone) refl,
    )
