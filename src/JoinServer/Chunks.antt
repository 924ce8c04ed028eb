-- ===== src/JoinServer/Chunks.antt =====
-- The reads of a session of HW_11/lib/server.cpp, whatever pieces the bytes arrive in.
use cplus_plus_developer_pro.Prelude.{
  ℕ, suc, zero, ◌≡◌, ◌<◌, ◌≤◌, refl, sym, ap, ◌∙◌, ◌⊎◌, inl, inr, Option, none, some, [], ◌∷◌, ◌++◌,
  arith, length, append_assoc,
}
use cplus_plus_developer_pro.Prelude.Text.{Text}
use cplus_plus_developer_pro.Database.{Decimal}
use cplus_plus_developer_pro.JoinServer.{Session, first_line, handle, do_read, receive}

abbrev Cut : Text → Text → Text → Type 0
Cut s l r = first_line s ≡ some (l, r)

first_line_cases : (s : Text) → (first_line s ≡ none) ⊎ ((l : Text) × (r : Text) × Cut s l r)
first_line_cases s = of_option (first_line s)
  where
    of_option :
        (o : Option (Text × Text)) → (o ≡ none) ⊎ ((l : Text) × (r : Text) × (o ≡ some (l, r)))
    of_option none = inl refl
    of_option (some (l, r)) = inr (l, r, refl)

first_line-append : (s t l r : Text) → Cut s l r → Cut (s ++ t) l (r ++ t)
unfolding first_line
first_line-append [] t l r e = cc
first_line-append (c ∷ s) t l r e = elim (first_line_cases s) [
  | inl nothing ↦ ground arith
  | inr (l', r', e') ↦ ground (arith, first_line-append s t l' r' e')
]

first_line_shorter : (s l r : Text) → Cut s l r → length r < length s
unfolding first_line
first_line_shorter [] l r e = cc
first_line_shorter (c ∷ s) l r e = elim (first_line_cases s) [
  | inl nothing ↦ ground arith
  | inr (l', r', e') ↦ ground (arith, first_line_shorter s l' r' e')
]

module _ (d : Decimal) where
  abbrev with_buffer : Session → Text → Session
  with_buffer s t = record s { buffer = s.buffer ++ t }

  do_read-none : (fuel : ℕ) (s : Session) → first_line s.buffer ≡ none → do_read d fuel s ≡ s
  unfolding do_read
  do_read-none zero s e = refl
  do_read-none (suc fuel) s e = rw (do_read, e)

  do_read_some :
      (fuel : ℕ) (s : Session) (l r : Text)
      → Cut s.buffer l r
      → do_read d (suc fuel) s ≡ do_read d fuel (handle d l r s)
  unfolding do_read
  do_read_some fuel s l r e = rw (do_read, e)

  -- A line that the buffer has is handled first, given a round for each byte.
  do_read_line :
      (fuel : ℕ) (s : Session) (l r : Text)
      → Cut s.buffer l r
      → length s.buffer ≤ fuel
      → (g : ℕ) × (length r ≤ g) × (do_read d fuel s ≡ do_read d g (handle d l r s))
  do_read_line zero s l r e enough = let shorter = first_line_shorter s.buffer l r e in ground arith
  do_read_line (suc g) s l r e enough =
      let shorter = first_line_shorter s.buffer l r e in (g, omega arith, do_read_some g s l r e)

  length-handle : (l r : Text) (s : Session) → length (handle d l r s).buffer ≡ length r
  unfolding handle
  length-handle l r s = refl

  handle-with_buffer :
      (l r t : Text) (s : Session)
      → handle d l (r ++ t) (with_buffer s t) ≡ with_buffer (handle d l r s) t
  unfolding handle
  handle-with_buffer l r t s = refl

  handled :
      (l r : Text) (s : Session) (t : Text) (g : ℕ)
      → length (r ++ t) ≤ g
      → length ((handle d l r s).buffer ++ t) ≤ g
  unfolding handle
  handled l r s t g h = h

  fuel_irrelevant :
      (f g : ℕ) (s : Session)
      → length s.buffer ≤ f
      → length s.buffer ≤ g
      → do_read d f s ≡ do_read d g s
  fuel_irrelevant zero g s hf hg = elim (first_line_cases s.buffer) [
    | inl nothing ↦ do_read-none zero s nothing ∙ sym (do_read-none g s nothing)
    | inr (l, r, e) ↦ let shorter = first_line_shorter s.buffer l r e in ground arith
  ]
  fuel_irrelevant (suc f) g s hf hg = elim (first_line_cases s.buffer) [
    | inl nothing ↦ do_read-none (suc f) s nothing ∙ sym (do_read-none g s nothing)
    | inr (l, r, e) ↦
        let (g', enough, step) = do_read_line g s l r e hg in
        let shorter = first_line_shorter s.buffer l r e in
        do_read_some f s l r e
        ∙ fuel_irrelevant f g' (handle d l r s) (omega (arith, length-handle l r s))
            (omega (arith, length-handle l r s))
        ∙ sym step
  ]

  do_read-zero : (s : Session) → do_read d zero s ≡ s
  unfolding do_read
  do_read-zero s = refl

  settled :
      (x s : Session) (t : Text) (g h : ℕ)
      → x ≡ s
      → length (s.buffer ++ t) ≤ g
      → length (x.buffer ++ t) ≤ h
      → do_read d h (with_buffer x t) ≡ do_read d g (with_buffer s t)
  settled x s t g h same hg hh =
      let even = ap (λ y. length (y.buffer ++ t)) same in
      ap (λ y. do_read d h (with_buffer y t)) same
      ∙ fuel_irrelevant h g (with_buffer s t) (omega arith) hg

  do_read-with_buffer :
      (f : ℕ) (s : Session) (t : Text) (g h : ℕ)
      → length s.buffer ≤ f
      → length (s.buffer ++ t) ≤ g
      → length ((do_read d f s).buffer ++ t) ≤ h
      → do_read d h (with_buffer (do_read d f s) t) ≡ do_read d g (with_buffer s t)
  do_read-with_buffer zero s t g h hf hg hh =
      settled (do_read d zero s) s t g h (do_read-zero s) hg hh
  do_read-with_buffer (suc f) s t g h hf hg hh = elim (first_line_cases s.buffer) [
    | inl nothing ↦ settled (do_read d (suc f) s) s t g h (do_read-none (suc f) s nothing) hg hh
    | inr (l, r, e) ↦
        let shorter = first_line_shorter s.buffer l r e in
        let e' = first_line-append s.buffer t l r e in
        let (g', enough, step) = do_read_line g (with_buffer s t) l (r ++ t) e' hg in
        let first = do_read_some f s l r e in
        let left = ap (λ x. length (x.buffer ++ t)) first in
        ap (λ x. do_read d h (with_buffer x t)) first
        ∙ do_read-with_buffer f (handle d l r s) t g' h (omega (arith, length-handle l r s))
            (handled l r s t g' enough) (omega arith)
        ∙ ap (do_read d g') (sym (handle-with_buffer l r t s))
        ∙ sym step
  ]

-- Whatever pieces the bytes of a session arrive in, the database, all that is sent and what stays in
-- the buffer are the same: two pieces one after the other do what they do as one.
pub receive-append :
    (d : Decimal) (a b : Text) (s : Session) → receive d b (receive d a s) ≡ receive d (a ++ b) s
unfolding receive
receive-append d a b s =
    let joined : (s.buffer ++ a) ++ b ≡ s.buffer ++ (a ++ b) = append_assoc s.buffer a b in
    let x = do_read d (length (s.buffer ++ a)) (with_buffer d s a) in
    do_read-with_buffer d (length (s.buffer ++ a)) (with_buffer d s a) b
      (length ((s.buffer ++ a) ++ b)) (length (x.buffer ++ b)) (omega arith) (omega arith)
      (omega arith)
    ∙ ap (λ t. do_read d (length t) (record s { buffer = t })) joined
