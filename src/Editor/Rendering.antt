-- ===== src/Editor/Rendering.antt =====
-- HW_5/src/view: the views of a document and of its primitives, and what they print.
use cplus_plus_developer_pro.Prelude.{
  ℕ, zero, suc, ◌+◌, Option, none, some, List, [], ◌∷◌, ◌++◌, if◌then◌else◌, snoc, length,
}
use cplus_plus_developer_pro.Prelude.Int.{ℤ, pos}
use cplus_plus_developer_pro.Prelude.Text.{Text, bytes, text_eq}
use cplus_plus_developer_pro.Editor.{
  Line, Document, Heap, get_type, get_primitive, get_primitive_count,
}

-- A view of a line is the address of its primitive.
pub record DocumentView : Type 0 where
  pub document : Option ℕ
  pub primitive_views : List ℕ

-- No view where the primitive is `nullptr` or of no known type; `none` where it was destroyed.
unfoldable pub create_view : Heap → Option ℕ → Option (Option ℕ)
create_view h none = some none
create_view h (some p) = elim (h.line_at p) [
  | none ↦ none
  | some l ↦ some (if text_eq (get_type l) (bytes "Line") then some p else none)
]

abbrev pub emplaced : Option ℕ → List ℕ → List ℕ
emplaced none views = views
emplaced (some v) views = snoc views v

-- The loop from `i` over the `n` primitives that are left.
unfoldable pub views_from : Heap → Document → (n i : ℕ) → List ℕ → Option (List ℕ)
unfolding create_view
views_from h d zero i views = some views
views_from h d (suc n) i views = elim (create_view h (get_primitive d i)) [
  | none ↦ none
  | some view ↦ views_from h d n (i + 1) (emplaced view views)
]

unfoldable pub create_primitive_views : Heap → DocumentView → Option DocumentView
unfolding views_from
create_primitive_views h v = elim v.document [
  | none ↦ some (record v { primitive_views = [] })
  | some a ↦ elim (h.document_at a) [
    | none ↦ none
    | some d ↦ elim (views_from h d (get_primitive_count d) 0 []) [
      | none ↦ none
      | some views ↦ some (record v { primitive_views = views })
    ]
  ]
]

-- The constructor.
unfoldable pub new_view : Heap → Option ℕ → Option DocumentView
unfolding create_primitive_views
new_view h document =
    create_primitive_views h (record { document = document; primitive_views = [] })

unfoldable pub update : Heap → DocumentView → Option DocumentView
unfolding create_primitive_views
update h v = create_primitive_views h v

module _ (number : ℤ → Text) where
  -- `LineView::render`
  unfoldable pub line_text : Line → Text
  line_text l =
      bytes "Rendering Line from ("
      ++ number l.x1
      ++ bytes ","
      ++ number l.y1
      ++ bytes ") to ("
      ++ number l.x2
      ++ bytes ","
      ++ number l.y2
      ++ bytes ") with thickness "
      ++ number l.thickness

  unfoldable pub render_views : Heap → List ℕ → Option (List Text)
  unfolding line_text
  render_views h [] = some []
  render_views h (p ∷ views) = elim (h.line_at p) [
    | none ↦ none
    | some l ↦ elim (render_views h views) [ none ↦ none | some texts ↦ some (line_text l ∷ texts) ]
  ]

  unfoldable pub render : Heap → DocumentView → Option (List Text)
  unfolding render_views
  render h v = elim v.document [
    | none ↦ some (bytes "No document to render" ∷ [])
    | some a ↦ elim (h.document_at a) [
      | none ↦ none
      | some d ↦ elim (render_views h v.primitive_views) [
        | none ↦ none
        | some texts ↦ some (
            (bytes "Rendering document: " ++ d.name)
            ∷ (bytes "Number of primitives: " ++ number (pos (length v.primitive_views)))
            ∷ texts)
      ]
    ]
  ]
