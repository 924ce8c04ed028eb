-- ===== src/Editor/Tests.antt =====
-- A document with a line, as the program of HW_5 makes it.
use cplus_plus_developer_pro.Prelude.{◌≡◌, refl, arith, Option, none, some, List, [], ◌∷◌}
use cplus_plus_developer_pro.Prelude.Int.{ℤ, pos}
use cplus_plus_developer_pro.Prelude.Text.{Text, bytes, text_eq}
use cplus_plus_developer_pro.Editor.{
  Point, Line, Heap, update_at, new_controller, create_new_document, assign_document, make_document,
  make_line, destroy_document, create_line, remove_primitive, document_remove_primitive,
  save_document, load_document,
}
use cplus_plus_developer_pro.Editor.Actions.{
  Action, draws, removes, saves, loads, act, act_all, Drawing, draw_all,
}
use cplus_plus_developer_pro.Editor.Ownership.{Holds}
use cplus_plus_developer_pro.Editor.Refinement.{Gives, act_all-Shows, new_controller-Gives}
use cplus_plus_developer_pro.Editor.Rendering.{
  DocumentView, create_view, views_from, create_primitive_views, new_view, update, render,
  render_views,
}
use cplus_plus_developer_pro.Editor.Views.{printed, update-render}

abbrev nothing : Heap
nothing = record { next = 0; document_at = λ a. none; line_at = λ a. none }

abbrev untitled : Drawing
untitled = record { name = bytes "Untitled"; lines = [] }

abbrev start : Point
start = record { x = pos 10; y = pos 10 }

abbrev end : Point
end = record { x = pos 100; y = pos 100 }

abbrev letter : ℤ → Text
letter z = bytes "n"

act_all-Shows_example :
    let (c, h, run, shows) = new_controller-Gives nothing in
    Gives
      (act_all (draws start end (pos 1) ∷ removes 0 ∷ draws start start (pos 2) ∷ []) c h)
      (draw_all (draws start end (pos 1) ∷ removes 0 ∷ draws start start (pos 2) ∷ []) untitled)
act_all-Shows_example =
    let (c, h, run, shows) = new_controller-Gives nothing in
    act_all-Shows (draws start end (pos 1) ∷ removes 0 ∷ draws start start (pos 2) ∷ []) c h
      untitled shows

abbrev long_line : Line
long_line = record { x1 = pos 10; y1 = pos 10; x2 = pos 100; y2 = pos 100; thickness = pos 1 }

abbrev with_a_line : Drawing
with_a_line = record { name = bytes "a"; lines = long_line ∷ [] }

abbrev one_document : Heap
one_document = record {
  next = 2;
  document_at = update_at 0 (some (record { name = bytes "a"; primitives = 1 ∷ [] })) (λ a. none);
  line_at = update_at 1 (some long_line) (λ a. none);
}

one_document-Holds : Holds 0 one_document with_a_line
one_document-Holds = record {
  cells = (1, long_line) ∷ [];
  below = omega arith;
  alive = refl;
  lines_alive = (omega arith, refl, omega arith);
  same = refl;
}

abbrev old_view : DocumentView
old_view = record { document = some 0; primitive_views = 7 ∷ [] }

update-render_example :
    (v : DocumentView) × (update one_document old_view ≡ some v)
    × (v.document ≡ some 0)
    × (render letter one_document v ≡ some (printed letter with_a_line))
update-render_example =
    update-render letter 0 one_document with_a_line old_view one_document-Holds refl

abbrev and_then {ℓ κ} : {A : Type ℓ} {B : Type κ} → Option A → (A → Option B) → Option B
and_then none f = none
and_then (some a) f = f a

-- What a view prints that was built after one action and not updated after another.
abbrev not_updated : (before after : Action) → Option (Option (List Text))
not_updated before after = and_then (new_controller nothing) (λ s.
    and_then (act before s.0 s.1) (λ s'.
      and_then (new_view s'.1 s'.0.document)
        (λ v. and_then (act after s'.0 s'.1) (λ s''. some (render letter s''.1 v)))))

-- A view that is not updated uses the line that was removed.
removed_line : not_updated (draws start end (pos 1)) (removes 0) ≡ some none
unfolding create_new_document assign_document make_document act create_line make_line
    remove_primitive document_remove_primitive new_view create_primitive_views views_from
    create_view text_eq render render_views
removed_line = refl

-- A view uses the document that another one has replaced.
replaced_document : not_updated (saves []) (loads []) ≡ some none
unfolding create_new_document assign_document make_document act save_document load_document
    destroy_document new_view create_primitive_views views_from render render_views
replaced_document = refl

-- What is saved is not what is loaded.
loads_nothing :
    and_then (new_controller nothing) (λ s.
      and_then
        (act_all (draws start end (pos 1) ∷ saves (bytes "f") ∷ loads (bytes "f") ∷ []) s.0 s.1)
        (λ s'. and_then (new_view s'.1 s'.0.document) (λ v. render letter s'.1 v)))
    ≡ some (bytes "Rendering document: Loaded Document" ∷ bytes "Number of primitives: n" ∷ [])
unfolding create_new_document assign_document make_document act act_all create_line make_line
    save_document load_document destroy_document new_view create_primitive_views views_from render
    render_views
loads_nothing = refl
