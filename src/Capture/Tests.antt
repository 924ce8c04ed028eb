-- ===== src/Capture/Tests.antt =====
-- A capture with the pipe 3 and 4 and the old stream at 5.
use cplus_plus_developer_pro.Prelude.{◌≡◌, refl, inl, inr, true, false, Option, none, some, [], ◌∷◌}
use cplus_plus_developer_pro.Prelude.Text.{bytes}
use cplus_plus_developer_pro.Capture.{
  pipes, duplicates, redirects, closes, starts, StreamCapture, Closing, Opening, Built, throws,
  Ended, returns, left, end_capture, construct, finish, bytes_read, end_of_file, interrupted,
  duplicate_stream, redirect_stream, start_thread, cleanup, restore_old, close_write, join_reader,
  close_read,
}
use cplus_plus_developer_pro.Capture.Descriptors.{IsCapturing, IsSafe, IsReleased, construct-IsSafe}
use cplus_plus_developer_pro.Capture.Lifetime.{
  bytes_until_end, expected, outcome, end_capture-IsReleased,
}
use cplus_plus_developer_pro.Capture.Instance.{finish_lem}

abbrev opening : Opening
opening = record {
  pipe = some (3, 4);
  pipe_errno = 0;
  flush = none;
  dup = some 5;
  dup_errno = 0;
  redirect = none;
  thread = true;
}

abbrev closing : Closing
closing = record {
  restore = none;
  close_old = none;
  close_w = some 5;
  close_r = none;
  reads = bytes_read (bytes "ab") ∷ interrupted ∷ bytes_read (bytes "c") ∷ end_of_file ∷ [];
}

abbrev capture : StreamCapture
capture = record {
  fd_old = some 5;
  pipe_r = some 3;
  pipe_w = some 4;
  reader_thread = true;
  captured_data = [];
  calls = pipes 3 4 ∷ duplicates 5 ∷ redirects 4 true ∷ starts ∷ [];
}

capture-IsCapturing : IsCapturing capture
capture-IsCapturing = record {
  old = 5;
  read_end = 3;
  write_end = 4;
  made = pipes 3 4 ∷ duplicates 5 ∷ redirects 4 true ∷ starts ∷ [];
  form = refl;
  apart = refl;
  process = refl;
}

construct-IsSafe_example : (b : Built) × (construct opening closing ≡ some b) × IsSafe closing b
construct-IsSafe_example = construct-IsSafe opening closing refl

end_capture-IsReleased_example :
    (e : Ended) × (end_capture [] none closing capture ≡ some e)
    × IsReleased closing (left e).calls
    × (outcome e ≡ expected none closing (bytes_until_end closing.reads))
    × (end_capture [] none closing (left e) ≡ some (returns (left e).captured_data (left e)))
end_capture-IsReleased_example =
    end_capture-IsReleased [] none closing capture capture-IsCapturing refl

finish_lem_example :
    (instance' : Option StreamCapture) × (finish [] none closing (some capture)
      ≡ some (inr (some 5), instance'))
    × (finish [] none closing instance' ≡ some (inl (bytes "abc"), none))
finish_lem_example = finish_lem [] none closing capture capture-IsCapturing refl

-- A thread that does not start: the descriptors are closed and the code is that of success.
no_thread :
    construct (record opening { thread = false }) (record closing { close_w = none })
    ≡ some (
        throws none none (
          pipes 3 4
          ∷ duplicates 5
          ∷ redirects 4 true
          ∷ redirects 5 true
          ∷ closes 5
          ∷ closes 4
          ∷ closes 3
          ∷ []))
unfolding construct duplicate_stream redirect_stream start_thread cleanup restore_old close_write
    join_reader close_read
no_thread = refl
