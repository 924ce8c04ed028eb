-- ===== src/BulkServer/Workers/Names.antt =====
-- The names of the files of HW_10/lib/async.cpp: each has the number of its file.
use cplus_plus_developer_pro.Prelude.{
  ℕ, ◌≡◌, ◌<◌, ◌+◌, refl, ap, ◌∙◌, inl, inr, Bool, true, false, ◌||◌, List, [], ◌∷◌, ◌++◌, ◌==◌,
  if◌then◌else◌, append_assoc, arith, All, Bool-cases,
}
use cplus_plus_developer_pro.Prelude.Text.{Text, bytes, text_eq, text_eq→eq}
use cplus_plus_developer_pro.BulkServer.{OutputTask}
use cplus_plus_developer_pro.BulkServer.Workers.{Disk, file_name, write_file}

-- `std::format` of a number gives digits, from which the number is read back.
pub record IsDecimal (d : Disk) : Type 0 where
  pub number_of : Text → ℕ
  pub reads : (n : ℕ) → number_of (d.to_string n) ≡ n
  pub digits : (n : ℕ) → All (λ c. (c == 95 || c == 46) ≡ false) (d.to_string n)

abbrev has_underscore : Text → Bool
has_underscore [] = false
has_underscore (c ∷ s) = c == 95 || has_underscore s

abbrev after_last : Text → Text
after_last [] = []
after_last (c ∷ s) =
    let rest = after_last s in if has_underscore s then rest else if c == 95 then s else c ∷ s

abbrev before_dot : Text → Text
before_dot [] = []
before_dot (c ∷ s) = let rest = before_dot s in if c == 46 then [] else c ∷ rest

has_underscore-append : (s t : Text) → has_underscore (s ++ (95 ∷ t)) ≡ true
has_underscore-append [] t = refl
has_underscore-append (c ∷ s) t = ground (arith, has_underscore-append s t)

after_last-append : (s t : Text) → has_underscore t ≡ false → after_last (s ++ (95 ∷ t)) ≡ t
after_last-append [] t e = rw e
after_last-append (c ∷ s) t e = rw (has_underscore-append s t) (after_last-append s t e)

no_underscore :
    (s : Text)
    → All (λ c. (c == 95 || c == 46) ≡ false) s
    → has_underscore (s ++ bytes ".log") ≡ false
no_underscore [] h = refl
no_underscore (c ∷ s) h = ground (arith, no_underscore s h.1, h.0)

before_dot-append :
    (s : Text) → All (λ c. (c == 95 || c == 46) ≡ false) s → before_dot (s ++ bytes ".log") ≡ s
before_dot-append [] h = refl
before_dot-append (c ∷ s) h =
    let plain : (c == 46) ≡ false = ground (arith, h.0) in
    rw plain (ap (λ t. c ∷ t) (before_dot-append s h.1))

module _ (d : Disk) (dec : IsDecimal d) where
  -- The number in the name of a file.
  abbrev pub number_in : Text → ℕ
  number_in path = dec.number_of (before_dot (after_last path))

  pub number_in-file_name :
      (thread_id n : ℕ) (t : OutputTask) → number_in (file_name d thread_id n t) ≡ n
  unfolding file_name
  number_in-file_name thread_id n t =
      let front =
        d.name
        ++ d.seconds t.timestamp
        ++ bytes "_"
        ++ d.to_string t.context_id
        ++ bytes "_"
        ++ d.to_string thread_id in
      let digits = d.to_string n in
      let whole =
        append_assoc (front ++ bytes "_") digits (bytes ".log")
        ∙ append_assoc front (bytes "_") (digits ++ bytes ".log") in
      ap number_in whole
      ∙ ap (λ s. dec.number_of (before_dot s))
          (after_last-append front (digits ++ bytes ".log") (no_underscore digits (dec.digits n)))
      ∙ ap dec.number_of (before_dot-append digits (dec.digits n))
      ∙ dec.reads n

  -- Every name has a number below the given one.
  abbrev pub IsBelow : ℕ → List (Text × Text) → Type 0
  IsBelow n fs = All (λ f. number_in f.0 < n) fs

  IsBelow-suc : (n : ℕ) (fs : List (Text × Text)) → IsBelow n fs → IsBelow (n + 1) fs
  IsBelow-suc n [] h = tt
  IsBelow-suc n ((q, old) ∷ fs) h = (omega (arith, h.0), IsBelow-suc n fs h.1)

  -- A file whose number is new comes after the others.
  pub write_file_new :
      (path text : Text) (n : ℕ) (fs : List (Text × Text))
      → number_in path ≡ n
      → IsBelow n fs
      → write_file path text fs ≡ fs ++ (path, text) ∷ []
  write_file_new path text n [] e h = refl
  write_file_new path text n ((q, old) ∷ fs) e h = elim (Bool-cases (text_eq q path)) [
    | inl same ↦ absurd (omega (arith, h.0, e, ap number_in (text_eq→eq q path same)))
    | inr other ↦ rw other (ap (λ gs. (q, old) ∷ gs) (write_file_new path text n fs e h.1))
  ]

  pub write_file-IsBelow :
      (path text : Text) (n : ℕ) (fs : List (Text × Text))
      → number_in path ≡ n
      → IsBelow n fs
      → IsBelow (n + 1) (write_file path text fs)
  write_file-IsBelow path text n [] e h = (omega (arith, e), tt)
  write_file-IsBelow path text n ((q, old) ∷ fs) e h = elim (Bool-cases (text_eq q path)) [
    | inl same ↦ rw same (omega (arith, h.0), IsBelow-suc n fs h.1)
    | inr other ↦ rw other (omega (arith, h.0), write_file-IsBelow path text n fs e h.1)
  ]
