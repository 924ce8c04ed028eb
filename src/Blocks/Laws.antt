-- ===== src/Blocks/Laws.antt =====
-- Laws of the promised blocks, without the bookkeeping: what a plain input is cut into, what a
-- dynamic block puts out, and what is dropped at the end of the input.
use cplus_plus_developer_pro.Prelude.{
  ℕ, ◌+◌, ◌≤◌, ◌<◌, ◌≡◌, refl, sym, ap, ◌∙◌, inl, inr, false, List, [], ◌∷◌, ◌++◌, append-nil,
  append_assoc, arith, leb, leb→le, not-leb→lt, if◌then◌else◌, Bool-cases, length, snoc,
  length-snoc, All,
}
use cplus_plus_developer_pro.Prelude.Text.{Text}
use cplus_plus_developer_pro.Blocks.{
  Pending, nothing_pending, is_open, is_close, emit, collect, collect_all, leftover, blocks,
}

-- A line that is no bracket.
abbrev pub IsPlain : Text → Type 0
IsPlain t = (is_open t ≡ false) × (is_close t ≡ false)

-- The commands of some blocks, in order.
abbrev pub concat : List (List Text) → List Text
concat [] = []
concat (b ∷ bs) = b ++ concat bs

-- Blocks of `size` commands each, but the last, which has from 1 to `size`.
abbrev pub IsChunked : ℕ → List (List Text) → Type 0
IsChunked size [] = Unit
IsChunked size (b ∷ []) = (0 < length b) × (length b ≤ size)
IsChunked size (b ∷ c ∷ bs) = (length b ≡ size) × IsChunked size (c ∷ bs)

emit-IsChunked : (size : ℕ) (cmds : List Text) → length cmds < size → IsChunked size (emit cmds)
emit-IsChunked size [] h = tt
emit-IsChunked size (x ∷ xs) h = omega arith

concat-emit : (cmds : List Text) → concat (emit cmds) ≡ cmds
concat-emit [] = refl
concat-emit (x ∷ xs) = append-nil (x ∷ xs)

IsChunked-cons :
    (size : ℕ) (b : List Text) (bs : List (List Text))
    → 0 < size
    → length b ≡ size
    → IsChunked size bs
    → IsChunked size (b ∷ bs)
IsChunked-cons size b [] p h k = omega arith
IsChunked-cons size b (c ∷ bs) p h k = (h, k)

collect-plain :
    (size : ℕ) (t : Text) (cmds : List Text)
    → IsPlain t
    → collect size t (record { depth = 0; commands = cmds }) ≡ (
        if leb size (length cmds + 1)
        then (nothing_pending, snoc cmds t ∷ [])
        else (record { depth = 0; commands = snoc cmds t }, []))
unfolding collect
collect-plain size t cmds h = ground arith

module _ (size : ℕ) (positive : 0 < size) where
  abbrev Cut : List Text → Pending × List (List Text) → Type 0
  Cut ts (c, out) = IsChunked size (out ++ leftover c) × (concat (out ++ leftover c) ≡ ts)

  collect_all-Cut :
      (ts cmds : List Text)
      → length cmds < size
      → All IsPlain ts
      → Cut (cmds ++ ts) (collect_all size ts (record { depth = 0; commands = cmds }))
  unfolding collect_all
  collect_all-Cut [] cmds room h =
      (emit-IsChunked size cmds room, concat-emit cmds ∙ sym (append-nil cmds))
  collect_all-Cut (t ∷ ts) cmds room h = elim (Bool-cases (leb size (length cmds + 1))) [
    | inl full ↦
        let ih = collect_all-Cut ts [] positive h.1 in
        rw (collect-plain size t cmds h.0, full)
          (
            IsChunked-cons size (snoc cmds t) _ positive
                (omega (arith, length-snoc cmds t, leb→le size (length cmds + 1) full)) ih.0,
            ap (λ r. snoc cmds t ++ r) ih.1 ∙ append_assoc cmds (t ∷ []) ts,
          )
    | inr more ↦
        let ih =
          collect_all-Cut ts (snoc cmds t)
            (omega (arith, length-snoc cmds t, not-leb→lt size (length cmds + 1) more)) h.1 in
        rw (collect-plain size t cmds h.0, more) (ih.0, ih.1 ∙ append_assoc cmds (t ∷ []) ts)
  ]

-- An input without brackets is cut into consecutive blocks: each has `size` commands, the last
-- may have fewer but is not empty, and together they hold every command once, in order.
pub blocks-plain :
    (size : ℕ) (ts : List Text)
    → 0 < size
    → All IsPlain ts
    → IsChunked size (blocks size ts) × (concat (blocks size ts) ≡ ts)
unfolding blocks
blocks-plain size ts positive h = collect_all-Cut size positive ts [] positive h
