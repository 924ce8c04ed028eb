-- ===== src/JoinServer/Streams.antt =====
-- Words, numbers and lines read from the stream of HW_11/lib/server.cpp.
use cplus_plus_developer_pro.Prelude.{
  ℕ, ◌≡◌, ◌<◌, ◌≤◌, ◌-◌, ◌^◌, refl, Bool, true, false, not, ◌||◌, [], ◌∷◌, ◌++◌, ◌==◌, is_empty,
  arith,
}
use cplus_plus_developer_pro.Prelude.Int.{ℤ, pos}
use cplus_plus_developer_pro.Prelude.Text.{Text}
use cplus_plus_developer_pro.JoinServer.{
  Stream, is_space, is_digit, skip_ws, span, read_word, read_int, read_line, number, sign, clamp,
}

-- A text of bytes that pass a test, with one at least.
abbrev pub AllOf : (ℕ → Bool) → Text → Type 0
AllOf test [] = Unit
AllOf test (c ∷ s) = (test c ≡ true) × AllOf test s

abbrev pub Filled : (ℕ → Bool) → Text → Type 0
Filled test s = (is_empty s ≡ false) × AllOf test s

abbrev pub no_space : ℕ → Bool
no_space c = not (is_space c)

abbrev pub no_newline : ℕ → Bool
no_newline c = not (c == 10)

abbrev pub at : Text → Stream
at s = record { rest = s; failed = false }

skip_ws-space : (s : Text) → skip_ws (32 ∷ s) ≡ skip_ws s
unfolding skip_ws
skip_ws-space s = refl

skip_ws_here : (c : ℕ) (s : Text) → no_space c ≡ true → skip_ws (c ∷ s) ≡ c ∷ s
unfolding skip_ws
skip_ws_here c s h = ground arith

span-append :
    (test : ℕ → Bool) (w : Text) (c : ℕ) (s : Text)
    → AllOf test w
    → test c ≡ false
    → span test (w ++ c ∷ s) ≡ (w, c ∷ s)
unfolding span
span-append test [] c s all stop = rw stop
span-append test (b ∷ w) c s all stop = rw (all.0, span-append test w c s all.1 stop)

pub read_word_lem :
    (old w : Text) (c : ℕ) (s : Text)
    → Filled no_space w
    → no_space c ≡ false
    → read_word old (at (32 ∷ w ++ c ∷ s)) ≡ (w, at (c ∷ s))
unfolding read_word
read_word_lem old [] c s (filled, all) stop = ground arith
read_word_lem old (b ∷ w) c s (filled, all) stop = rw (
  skip_ws-space (b ∷ w ++ c ∷ s),
  skip_ws_here b (w ++ c ∷ s) all.0,
  span-append no_space (b ∷ w) c s all stop,
)

digit_sign : (b : ℕ) (s : Text) → is_digit b ≡ true → sign (b ∷ s) ≡ (false, b ∷ s)
digit_sign b s h = ground arith

digit_no_space : (b : ℕ) → is_digit b ≡ true → no_space b ≡ true
digit_no_space b h = ground arith

pub read_int_lem :
    (old : ℤ) (w : Text) (c : ℕ) (s : Text)
    → Filled is_digit w
    → is_digit c ≡ false
    → number 0 w < 2 ^ 31
    → read_int old (at (32 ∷ w ++ c ∷ s)) ≡ (pos (number 0 w), at (c ∷ s))
unfolding read_int
read_int_lem old [] c s (filled, all) stop small = ground arith
read_int_lem old (b ∷ w) c s (filled, all) stop small =
    let within : clamp false (number 0 (b ∷ w)) ≡ (pos (number 0 (b ∷ w)), false) = ground arith in
    rw (
      skip_ws-space (b ∷ w ++ c ∷ s),
      skip_ws_here b (w ++ c ∷ s) (digit_no_space b all.0),
      digit_sign b (w ++ c ∷ s) all.0,
      span-append is_digit (b ∷ w) c s all stop,
      within,
    )

pub read_line_lem :
    (old : Text) (b : ℕ) (w s : Text)
    → no_space b ≡ true
    → AllOf no_newline (b ∷ w)
    → read_line old (at (32 ∷ (b ∷ w) ++ 10 ∷ s)) ≡ b ∷ w
unfolding read_line
read_line_lem old b w s start all = rw (
  skip_ws-space (b ∷ w ++ 10 ∷ s),
  skip_ws_here b (w ++ 10 ∷ s) start,
  span-append no_newline (b ∷ w) 10 s all refl,
)

-- An id without digits leaves 0 and a stream that has failed, so that the name stays empty.
pub unreadable :
    (c : ℕ) (s : Text)
    → no_space c ≡ true
    → is_digit c ≡ false
    → (c == 45 || c == 43) ≡ false
    → (after : Stream) × (read_int (pos 0) (at (32 ∷ c ∷ s)) ≡ (pos 0, after))
      × (after.failed ≡ true)
unfolding read_int span
unreadable c s word other no_sign =
    let unsigned : sign (c ∷ s) ≡ (false, c ∷ s) = ground arith in
    (
      record { rest = c ∷ s; failed = true },
      rw (skip_ws-space (c ∷ s), skip_ws_here c s word, unsigned, other),
      refl,
    )

pub out_of_range :
    (digits : Text) (c : ℕ) (s : Text)
    → Filled is_digit digits
    → is_digit c ≡ false
    → 2 ^ 31 ≤ number 0 digits
    → (after : Stream) × (read_int (pos 0) (at (32 ∷ digits ++ c ∷ s)) ≡ (pos (2 ^ 31 - 1), after))
      × (after.failed ≡ true)
unfolding read_int
out_of_range [] c s (filled, all) stop large = ground arith
out_of_range (b ∷ w) c s (filled, all) stop large =
    let over : clamp false (number 0 (b ∷ w)) ≡ (pos (2 ^ 31 - 1), true) = ground arith in
    (
      record { rest = c ∷ s; failed = true },
      rw (
        skip_ws-space (b ∷ w ++ c ∷ s),
        skip_ws_here b (w ++ c ∷ s) (digit_no_space b all.0),
        digit_sign b (w ++ c ∷ s) all.0,
        span-append is_digit (b ∷ w) c s all stop,
        over,
      ),
      refl,
    )

pub failed_line : (s : Stream) → s.failed ≡ true → read_line [] s ≡ []
unfolding read_line
failed_line s e = rw e
