-- ===== src/Editor/Actions.antt =====
-- HW_5: the calls that a program makes of its document controller, in any order.
use cplus_plus_developer_pro.Prelude.{ℕ, Option, none, some, List, [], ◌∷◌, snoc}
use cplus_plus_developer_pro.Prelude.Int.{ℤ}
use cplus_plus_developer_pro.Prelude.Text.{Text, bytes}
use cplus_plus_developer_pro.Editor.{
  Point, Line, new_line, Heap, DocumentController, create_line, remove_primitive,
  create_new_document, save_document, load_document, erase_at,
}

pub data Action : Type 0 where
  creates : (name : Text) → Action
  draws : (start end : Point) (thickness : ℤ) → Action
  removes : (index : ℕ) → Action
  saves : (filename : Text) → Action
  loads : (filename : Text) → Action

-- A call through the primitive controller, which is `nullptr` before there is a document.
abbrev with_heap : DocumentController → Option Heap → Option (DocumentController × Heap)
with_heap c none = none
with_heap c (some h) = some (c, h)

unfoldable pub act : Action → DocumentController → Heap → Option (DocumentController × Heap)
unfolding create_line remove_primitive create_new_document save_document load_document
act (creates name) c h = create_new_document name c h
act (draws start end thickness) c h = elim c.primitive_controller [
  | none ↦ none
  | some pc ↦ with_heap c (create_line pc start end thickness h)
]
act (removes index) c h = elim c.primitive_controller [
  | none ↦ none
  | some pc ↦ with_heap c (remove_primitive pc index h)
]
act (saves filename) c h = elim (save_document filename c h) [ none ↦ none | some b ↦ some (c, h) ]
act (loads filename) c h = elim (load_document filename c h) [
  | none ↦ none
  | some (b, c', h') ↦ some (c', h')
]

unfoldable pub act_all :
    List Action → DocumentController → Heap → Option (DocumentController × Heap)
unfolding act
act_all [] c h = some (c, h)
act_all (a ∷ rest) c h = elim (act a c h) [ none ↦ none | some (c', h') ↦ act_all rest c' h' ]

-- What a program sees of a document: its name and its lines.
pub record Drawing : Type 0 where
  pub name : Text
  pub lines : List Line

abbrev pub draw : Action → Drawing → Drawing
draw (creates name) d = record { name = name; lines = [] }
draw (draws start end thickness) d = record d {
  lines = snoc d.lines (new_line start end thickness);
}
draw (removes index) d = record d { lines = erase_at d.lines index }
draw (saves filename) d = d
draw (loads filename) d = record { name = bytes "Loaded Document"; lines = [] }

abbrev pub draw_all : List Action → Drawing → Drawing
draw_all [] d = d
draw_all (a ∷ rest) d = draw_all rest (draw a d)
