-- ===== src/Capture/Instance.antt =====
-- The one capture of a stream in common/capture/include/capture.hpp: `Begin` and `End`, which are `begin` and `finish`.
use cplus_plus_developer_pro.Prelude.{
  ◌≡◌, refl, ap, ◌∙◌, ◌⊎◌, inl, inr, Bool, true, false, not, Option, none, some, [],
}
use cplus_plus_developer_pro.Prelude.Text.{Text}
use cplus_plus_developer_pro.Capture.{
  ErrorCode, StreamCapture, Closing, Opening, after_cleanup, end_capture, destruct, begin,
  destroy_instance, after_end, finish, Built, built, throws, construct,
}
use cplus_plus_developer_pro.Capture.Descriptors.{IsCapturing, distinct, construct-IsSafe, IsSafe}
use cplus_plus_developer_pro.Capture.Lifetime.{
  has_end, bytes_until_end, expected, reader_worker_lem, end_capture-after_cleanup, ended, code,
}

-- What a second `End` gives.
abbrev pub second : Text ⊎ ErrorCode → Text → Text
second (inl t) captured = []
second (inr e) captured = captured

module _ (moved_from : Text) (ec_fflush : ErrorCode) (o : Closing) where
  abbrev ending : Option StreamCapture → Option ((Text ⊎ ErrorCode) × Option StreamCapture)
  ending = finish moved_from ec_fflush o

  -- An object without descriptors, which holds a text.
  done_with :
      (s : StreamCapture) → s.fd_old ≡ none → ending (some s) ≡ some (inl s.captured_data, none)
  unfolding finish end_capture after_end destroy_instance destruct
  done_with s e = rw (finish, end_capture, e, destruct, e)

  after_lem :
      (c f : ErrorCode) (s : StreamCapture)
      → s.fd_old ≡ none
      → let gives : Text ⊎ ErrorCode = elim c [
        | some x ↦ inr (some x)
        | none ↦ elim f [ some x ↦ inr (some x) | none ↦ inl s.captured_data ]
      ] in
        (i : Option StreamCapture) × (after_end moved_from ec_fflush o
            (after_cleanup moved_from f (c, s))
          ≡ some (gives, i))
        × (ending i ≡ some (inl (second gives s.captured_data), none))
  unfolding after_end destroy_instance destruct finish
  after_lem (some x) f s e = (some s, refl, done_with s e)
  after_lem none (some x) s e = (some s, refl, done_with s e)
  after_lem none none s e = (none, rw (after_end, e), refl)

-- When an object captures and the reads of its thread come to an end, `End` gives all bytes that
-- were read, or the error of the calls that failed. Another `End` gives nothing when the first one
-- gave the bytes, and otherwise the bytes that the error held back; then there is no instance.
pub finish_lem :
    (moved_from : Text) (ec_fflush : ErrorCode) (o : Closing) (s : StreamCapture)
    → IsCapturing s
    → has_end o.reads ≡ true
    → let t = bytes_until_end o.reads in
      let gives = expected ec_fflush o t in
      (instance' : Option StreamCapture) × (finish moved_from ec_fflush o (some s)
        ≡ some (gives, instance'))
      × (finish moved_from ec_fflush o instance' ≡ some (inl (second gives t), none))
unfolding finish
finish_lem moved_from ec_fflush o s k finishes =
    let t = bytes_until_end o.reads in
    let c = code moved_from ec_fflush o k.old k.read_end k.write_end k.made in
    let last = ended moved_from ec_fflush o k.old k.read_end k.write_end k.made t in
    let ends =
      ap (end_capture moved_from ec_fflush o) k.form
      ∙ end_capture-after_cleanup moved_from ec_fflush o k.old k.read_end k.write_end k.made t
          (reader_worker_lem o.reads [] finishes) in
    let (i, first, then_none) = after_lem moved_from ec_fflush o c ec_fflush last refl in
    (i, rw (finish, ends) first, then_none)

-- When the system gives distinct descriptors, `Begin` without an instance makes one that captures,
-- which a further `Begin` keeps, or throws; when it throws because the constructor did, there is no
-- instance, and otherwise `std::atexit` has failed.
begin_lem :
    (opening : Opening) (closing : Closing) (exits : Bool)
    → distinct opening.pipe opening.dup ≡ true
    → (fails : Bool) × (i : Option StreamCapture) × (begin opening closing exits none
        ≡ some (fails, i))
      × (((i ≡ none) × (fails ≡ true))
          ⊎ ((s : StreamCapture) × (i ≡ some s)
              × IsCapturing s
              × (fails ≡ not exits)
              × (begin opening closing exits i ≡ some (false, i))))
unfolding begin
begin_lem opening closing exits e =
    let (b, made, safe) = construct-IsSafe opening closing e in by_built b made safe
  where
    by_built :
        (b : Built)
        → construct opening closing ≡ some b
        → IsSafe closing b
        → (fails : Bool) × (i : Option StreamCapture) × (begin opening closing exits none
            ≡ some (fails, i))
          × (((i ≡ none) × (fails ≡ true))
              ⊎ ((s : StreamCapture) × (i ≡ some s)
                  × IsCapturing s
                  × (fails ≡ not exits)
                  × (begin opening closing exits i ≡ some (false, i))))
    by_built (built s) made safe =
        (not exits, some s, rw (begin, made), inr (s, refl, safe, refl, refl))
    by_built (throws c cc' calls) made safe = (true, none, rw (begin, made), inl (refl, refl))
