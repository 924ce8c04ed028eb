-- ===== src/Editor.antt =====
-- HW_5: the graphics editor. A pointer is an address, and the objects that are alive are in a store;
-- an address is never given out twice, so that an access to an object that was destroyed is seen:
-- it is undefined behaviour, and `none`. The texts of numbers are a parameter.
pub mod Rendering
pub mod Actions
pub mod Ownership
pub mod Refinement
pub mod Views
mod Tests
use cplus_plus_developer_pro.Prelude.{
  ℕ, zero, suc, ◌+◌, Bool, true, false, Option, none, some, List, [], ◌∷◌, ◌++◌, ltb, ◌==◌,
  if◌then◌else◌, snoc, map, get_elem?, length,
}
use cplus_plus_developer_pro.Prelude.Int.{ℤ, pos}
use cplus_plus_developer_pro.Prelude.Text.{Text, bytes, text_eq}

pub record Point : Type 0 where
  pub x : ℤ
  pub y : ℤ

-- The one class of primitives.
pub record Line : Type 0 where
  pub x1 : ℤ
  pub y1 : ℤ
  pub x2 : ℤ
  pub y2 : ℤ
  pub thickness : ℤ

-- The constructor of `Line`.
abbrev pub new_line : (start end : Point) → ℤ → Line
new_line start end thickness = record {
  x1 = start.x;
  y1 = start.y;
  x2 = end.x;
  y2 = end.y;
  thickness = thickness;
}

abbrev pub get_type : Line → Text
get_type l = bytes "Line"

-- The primitives are the addresses that the vector owns.
pub record Document : Type 0 where
  pub name : Text
  pub primitives : List ℕ

pub record Heap : Type 0 where
  pub next : ℕ
  pub document_at : ℕ → Option Document
  pub line_at : ℕ → Option Line

abbrev pub update_at {ℓ} : {A : Type ℓ} → ℕ → Option A → (ℕ → Option A) → ℕ → Option A
update_at a v at b = if a == b then v else at b

-- `std::make_unique`
unfoldable pub make_document : Text → Heap → ℕ × Heap
make_document name h = (
  h.next,
  record h {
    next = h.next + 1;
    document_at = update_at h.next (some (record { name = name; primitives = [] })) h.document_at;
  },
)

unfoldable pub make_line : Line → Heap → ℕ × Heap
make_line l h =
    (h.next, record h { next = h.next + 1; line_at = update_at h.next (some l) h.line_at })

abbrev pub free_lines : List ℕ → (ℕ → Option Line) → ℕ → Option Line
free_lines [] at = at
free_lines (p ∷ ps) at = free_lines ps (update_at p none at)

-- The destruction of a document, with what it owns.
unfoldable pub destroy_document : ℕ → Document → Heap → Heap
destroy_document a d h = record h {
  document_at = update_at a none h.document_at;
  line_at = free_lines d.primitives h.line_at;
}

abbrev pub add_primitive : ℕ → Document → ℕ → Heap → Heap
add_primitive a d p h = record h {
  document_at = update_at a (some (record d { primitives = snoc d.primitives p })) h.document_at;
}

-- `erase` of the element at an index.
abbrev pub erase_at {ℓ} : {A : Type ℓ} → List A → ℕ → List A
erase_at [] i = []
erase_at (x ∷ xs) zero = xs
erase_at (x ∷ xs) (suc i) = x ∷ erase_at xs i

abbrev pub get_primitive_count : Document → ℕ
get_primitive_count d = length d.primitives

abbrev pub get_primitive : Document → ℕ → Option ℕ
get_primitive d index =
    if ltb index (length d.primitives) then get_elem? d.primitives index else none

unfoldable pub document_remove_primitive : ℕ → Document → ℕ → Heap → Heap
document_remove_primitive a d index h = elim (get_primitive d index) [
  | none ↦ h
  | some p ↦ record h {
    document_at =
        update_at a (some (record d { primitives = erase_at d.primitives index })) h.document_at;
    line_at = update_at p none h.line_at;
  }
]

pub record PrimitiveController : Type 0 where
  pub document : Option ℕ

pub record DocumentController : Type 0 where
  pub document : Option ℕ
  pub primitive_controller : Option PrimitiveController

-- `none` where a document that was destroyed is used.
unfoldable pub create_line : PrimitiveController → (start end : Point) → ℤ → Heap → Option Heap
unfolding make_line
create_line c start end thickness h = elim c.document [
  | none ↦ some h
  | some a ↦
      let (p, h') = make_line (new_line start end thickness) h in
      elim (h'.document_at a) [ none ↦ none | some d ↦ some (add_primitive a d p h') ]
]

unfoldable pub remove_primitive : PrimitiveController → ℕ → Heap → Option Heap
unfolding document_remove_primitive
remove_primitive c index h = elim c.document [
  | none ↦ some h
  | some a ↦ elim (h.document_at a) [
    | none ↦ none
    | some d ↦ some (document_remove_primitive a d index h)
  ]
]

-- A controller with a document, and with a new controller of its primitives.
abbrev pub controller_of : ℕ → DocumentController
controller_of a = record {
  document = some a;
  primitive_controller = some (record { document = some a });
}

-- The assignment of a document, which destroys the one before it, and of a new controller.
unfoldable pub assign_document : DocumentController → ℕ → Heap → Option (DocumentController × Heap)
unfolding destroy_document
assign_document c a h = elim c.document [
  | none ↦ some (controller_of a, h)
  | some old ↦ elim (h.document_at old) [
    | none ↦ none
    | some d ↦ some (controller_of a, destroy_document old d h)
  ]
]

unfoldable pub create_new_document :
    Text → DocumentController → Heap → Option (DocumentController × Heap)
unfolding make_document assign_document
create_new_document name c h = let (a, h') = make_document name h in assign_document c a h'

-- The constructor.
abbrev pub new_controller : Heap → Option (DocumentController × Heap)
new_controller h =
    create_new_document (bytes "Untitled") (record { document = none; primitive_controller = none })
      h

abbrev pub save_to_file : Document → Text → Bool
save_to_file d filename = true

abbrev pub load_from_file : Text → Heap → ℕ × Heap
load_from_file filename h = make_document (bytes "Loaded Document") h

unfoldable pub save_document : Text → DocumentController → Heap → Option Bool
save_document filename c h = elim c.document [
  | none ↦ some false
  | some a ↦ elim (h.document_at a) [ none ↦ none | some d ↦ some (save_to_file d filename) ]
]

unfoldable pub load_document :
    Text → DocumentController → Heap → Option (Bool × DocumentController × Heap)
unfolding make_document assign_document
load_document filename c h =
    let (a, h') = load_from_file filename h in
    elim (assign_document c a h') [ none ↦ none | some (c', h'') ↦ some (true, c', h'') ]
