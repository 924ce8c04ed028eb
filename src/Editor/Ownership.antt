-- ===== src/Editor/Ownership.antt =====
-- HW_5: the objects that a document controller owns are alive while it points to them.
use cplus_plus_developer_pro.Prelude.{
  ℕ, zero, suc, ◌≡◌, ◌≤◌, ◌<◌, ◌+◌, refl, ap, ◌∙◌, true, false, Option, none, some, List, [], ◌∷◌,
  ◌==◌, snoc, get_elem?, arith, ◌⊎◌, inl, inr,
}
use cplus_plus_developer_pro.Editor.{
  Line, Heap, update_at, DocumentController, controller_of, erase_at,
}
use cplus_plus_developer_pro.Editor.Actions.{Drawing}

-- The lines at ascending addresses from `lo` and below `hi`.
abbrev pub Alive : (ℕ → Option Line) → (lo hi : ℕ) → List (ℕ × Line) → Type 0
Alive at lo hi [] = lo ≤ hi
Alive at lo hi ((p, l) ∷ cells) = (lo ≤ p) × (at p ≡ some l) × Alive at (p + 1) hi cells

abbrev pub addresses : List (ℕ × Line) → List ℕ
addresses [] = []
addresses ((p, l) ∷ cells) = p ∷ addresses cells

abbrev pub lines_of : List (ℕ × Line) → List Line
lines_of [] = []
lines_of ((p, l) ∷ cells) = l ∷ lines_of cells

pub update_at-same {ℓ} :
    {A : Type ℓ} (a : ℕ) (v : Option A) (at : ℕ → Option A) → update_at a v at a ≡ v
update_at-same a v at = let same : (a == a) ≡ true = ground arith in rw same

pub update_at-other {ℓ} :
    {A : Type ℓ} (a b : ℕ) (v : Option A) (at : ℕ → Option A)
    → (a == b) ≡ false
    → update_at a v at b ≡ at b
update_at-other a b v at e = rw e

Alive-le :
    (at : ℕ → Option Line) (lo hi : ℕ) (cells : List (ℕ × Line)) → Alive at lo hi cells → lo ≤ hi
Alive-le at lo hi [] le = le
Alive-le at lo hi ((p, l) ∷ cells) (le, e, rest) =
    let le' = Alive-le at (p + 1) hi cells rest in omega (arith, le, le')

-- A write at an address below or beyond them.
pub Alive-update_at :
    (at : ℕ → Option Line) (lo hi q : ℕ) (v : Option Line) (cells : List (ℕ × Line))
    → (q < lo) ⊎ (hi ≤ q)
    → Alive at lo hi cells
    → Alive (update_at q v at) lo hi cells
Alive-update_at at lo hi q v [] out le = le
Alive-update_at at lo hi q v ((p, l) ∷ cells) out (le, e, rest) =
    let le' = Alive-le at (p + 1) hi cells rest in
    let other : (q == p) ≡ false = elim out [
      | inl b ↦ ground (arith, le', b)
      | inr b ↦ ground (arith, le', b)
    ] in
    let out' : (q < p + 1) ⊎ (hi ≤ q) = elim out [
      | inl b ↦ inl (omega (arith, le, b))
      | inr b ↦ inr b
    ] in
    (le, update_at-other q p v at other ∙ e, Alive-update_at at (p + 1) hi q v cells out' rest)

pub Alive-snoc :
    (at : ℕ → Option Line) (lo hi : ℕ) (l : Line) (cells : List (ℕ × Line))
    → Alive at lo hi cells
    → Alive (update_at hi (some l) at) lo (hi + 1) (snoc cells (hi, l))
Alive-snoc at lo hi l [] le = (le, update_at-same hi (some l) at, omega arith)
Alive-snoc at lo hi l ((p, k) ∷ cells) (le, e, rest) =
    let le' = Alive-le at (p + 1) hi cells rest in
    let other : (hi == p) ≡ false = ground (arith, le') in
    (le, update_at-other hi p (some l) at other ∙ e, Alive-snoc at (p + 1) hi l cells rest)

Alive-from :
    (at : ℕ → Option Line) (lo lo' hi : ℕ) (cells : List (ℕ × Line))
    → lo' ≤ lo
    → Alive at lo hi cells
    → Alive at lo' hi cells
Alive-from at lo lo' hi [] le le' = omega (arith, le, le')
Alive-from at lo lo' hi ((p, l) ∷ cells) le (le', e, rest) = (omega (arith, le, le'), e, rest)

-- An erasure at an index frees the address of that index, if there is one.
pub Alive-erase_at :
    (at : ℕ → Option Line) (lo hi i : ℕ) (cells : List (ℕ × Line))
    → Alive at lo hi cells
    → ((get_elem? (addresses cells) i ≡ none) × (erase_at cells i ≡ cells))
      ⊎ ((q : ℕ) × (get_elem? (addresses cells) i ≡ some q)
          × (lo ≤ q)
          × Alive (update_at q none at) lo hi (erase_at cells i))
Alive-erase_at at lo hi i [] alive = inl (refl, refl)
Alive-erase_at at lo hi zero ((p, l) ∷ cells) (le, e, rest) = inr (
  p,
  refl,
  le,
  Alive-from (update_at p none at) (p + 1) lo hi cells (omega arith)
      (Alive-update_at at (p + 1) hi p none cells (inl (omega arith)) rest),
)
Alive-erase_at at lo hi (suc i) ((p, l) ∷ cells) (le, e, rest) =
    elim (Alive-erase_at at (p + 1) hi i cells rest) [
      | inl (e', e'') ↦ inl (e', ap (λ cs. (p, l) ∷ cs) e'')
      | inr (q, e', le', alive) ↦
          let other : (q == p) ≡ false = ground (arith, le') in
          inr (q, e', omega (arith, le, le'), (le, update_at-other q p none at other ∙ e, alive))
    ]

pub addresses-erase_at :
    (cells : List (ℕ × Line)) (i : ℕ) → erase_at (addresses cells) i ≡ addresses (erase_at cells i)
addresses-erase_at [] i = refl
addresses-erase_at ((p, l) ∷ cells) zero = refl
addresses-erase_at ((p, l) ∷ cells) (suc i) = ap (λ ps. p ∷ ps) (addresses-erase_at cells i)

pub lines_of-erase_at :
    (cells : List (ℕ × Line)) (i : ℕ) → erase_at (lines_of cells) i ≡ lines_of (erase_at cells i)
lines_of-erase_at [] i = refl
lines_of-erase_at ((p, l) ∷ cells) zero = refl
lines_of-erase_at ((p, l) ∷ cells) (suc i) = ap (λ ls. l ∷ ls) (lines_of-erase_at cells i)

pub addresses-snoc :
    (cells : List (ℕ × Line)) (p : ℕ) (l : Line)
    → snoc (addresses cells) p ≡ addresses (snoc cells (p, l))
addresses-snoc [] p l = refl
addresses-snoc ((q, k) ∷ cells) p l = ap (λ ps. q ∷ ps) (addresses-snoc cells p l)

pub lines_of-snoc :
    (cells : List (ℕ × Line)) (p : ℕ) (l : Line)
    → snoc (lines_of cells) l ≡ lines_of (snoc cells (p, l))
lines_of-snoc [] p l = refl
lines_of-snoc ((q, k) ∷ cells) p l = ap (λ ls. k ∷ ls) (lines_of-snoc cells p l)

-- A document is alive and has the name of a drawing, and its primitives are alive and have the
-- drawing's lines.
pub record Holds (a : ℕ) (h : Heap) (d : Drawing) : Type 0 where
  pub cells : List (ℕ × Line)
  pub below : a < h.next
  pub alive : h.document_at a ≡ some (record { name = d.name; primitives = addresses cells })
  pub lines_alive : Alive h.line_at 0 h.next cells
  pub same : d.lines ≡ lines_of cells

-- The controller owns such a document, and its primitive controller points to the document.
abbrev pub Shows : DocumentController → Heap → Drawing → Type 0
Shows c h d = (a : ℕ) × (c ≡ controller_of a) × Holds a h d
