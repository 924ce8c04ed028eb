-- ===== src/Editor/Refinement.antt =====
-- HW_5: the calls of a document controller against a drawing, a name with lines.
use cplus_plus_developer_pro.Prelude.{
  ℕ, zero, suc, ◌≡◌, ◌<◌, refl, ap, ◌∙◌, Bool, true, false, Option, none, some, List, [], ◌∷◌, ltb,
  ◌==◌, if◌then◌else◌, snoc, get_elem?, length, arith, inl, inr,
}
use cplus_plus_developer_pro.Prelude.Int.{ℤ}
use cplus_plus_developer_pro.Prelude.Text.{Text, bytes}
use cplus_plus_developer_pro.Editor.{
  Point, new_line, Document, Heap, update_at, DocumentController, controller_of, make_document,
  make_line, destroy_document, add_primitive, document_remove_primitive, create_line,
  remove_primitive, assign_document, create_new_document, new_controller, save_document,
  load_document, erase_at, get_primitive,
}
use cplus_plus_developer_pro.Editor.Actions.{
  Action, creates, draws, removes, saves, loads, act, act_all, Drawing, draw, draw_all,
}
use cplus_plus_developer_pro.Editor.Ownership.{
  addresses, lines_of, Holds, Shows, update_at-same, update_at-other, Alive-snoc, Alive-erase_at,
  addresses-erase_at, lines_of-erase_at, addresses-snoc, lines_of-snoc,
}

-- A result that shows a drawing.
abbrev pub Gives : Option (DocumentController × Heap) → Drawing → Type 0
Gives r d = (c : DocumentController) × (h : Heap) × (r ≡ some (c, h)) × Shows c h d

empty : Text → Drawing
empty name = record { name = name; lines = [] }

create_new_document-Gives :
    (name : Text) (a : ℕ) (old : Document) (h : Heap)
    → a < h.next
    → h.document_at a ≡ some old
    → Gives (create_new_document name (controller_of a) h) (record { name = name; lines = [] })
unfolding create_new_document assign_document make_document destroy_document
create_new_document-Gives name a old h below alive =
    let new : Document = record { name = name; primitives = [] } in
    let apart : (h.next == a) ≡ false = ground arith in
    let apart' : (a == h.next) ≡ false = ground arith in
    let kept = update_at-other h.next a (some new) h.document_at apart ∙ alive in
    let (b, h') = make_document name h in
    (
      controller_of h.next,
      destroy_document a old h',
      rw (create_new_document, assign_document, make_document, kept),
      (
        h.next,
        refl,
        record {
          cells = [];
          below = omega arith;
          alive = rw apart' (update_at-same h.next (some new) h.document_at);
          lines_alive = omega arith;
          same = refl;
        },
      ),
    )

pub get_primitive_lem : (d : Document) (i : ℕ) → get_primitive d i ≡ get_elem? d.primitives i
get_primitive_lem d i = go d.primitives i
  where
    go :
        (xs : List ℕ) (i : ℕ)
        → (if ltb i (length xs) then get_elem? xs i else none) ≡ get_elem? xs i
    go [] i = let beyond : ltb i 0 ≡ false = ground arith in rw beyond
    go (x ∷ xs) zero = let within : ltb 0 (suc (length xs)) ≡ true = ground arith in rw within
    go (x ∷ xs) (suc i) =
        let shorter : ltb (suc i) (suc (length xs)) ≡ ltb i (length xs) = ground arith in
        rw shorter (go xs i)

create_line-Gives :
    (start end : Point) (thickness : ℤ) (h : Heap) (d : Drawing) (a : ℕ)
    → Holds a h d
    → Gives
        (act (draws start end thickness) (controller_of a) h)
        (draw (draws start end thickness) d)
unfolding act create_line make_line
create_line-Gives start end thickness h d a s =
    let l = new_line start end thickness in
    let doc : Document = record { name = d.name; primitives = addresses s.cells } in
    let (p, h') = make_line l h in
    (
      controller_of a,
      add_primitive a doc p h',
      rw (act, create_line, make_line, s.alive),
      (
        a,
        refl,
        record {
          cells = snoc s.cells (h.next, l);
          below = omega (arith, s.below);
          alive =
              update_at-same a (some (record doc { primitives = snoc (addresses s.cells) h.next }))
                h.document_at
              ∙ ap (λ ps. some (record doc { primitives = ps })) (addresses-snoc s.cells h.next l);
          lines_alive = Alive-snoc h.line_at 0 h.next l s.cells s.lines_alive;
          same = ap (λ ls. snoc ls l) s.same ∙ lines_of-snoc s.cells h.next l;
        },
      ),
    )

remove_primitive-Gives :
    (index : ℕ) (h : Heap) (d : Drawing) (a : ℕ)
    → Holds a h d
    → Gives (act (removes index) (controller_of a) h) (draw (removes index) d)
unfolding act remove_primitive document_remove_primitive
remove_primitive-Gives index h d a s =
    let doc : Document = record { name = d.name; primitives = addresses s.cells } in
    let erased = ap (λ ls. erase_at ls index) s.same ∙ lines_of-erase_at s.cells index in
    elim (Alive-erase_at h.line_at 0 h.next index s.cells s.lines_alive) [
      | inl (e, e') ↦ (
        controller_of a,
        h,
        rw (
          act,
          remove_primitive,
          document_remove_primitive,
          s.alive,
          get_primitive_lem doc index,
          e,
        ),
        (
          a,
          refl,
          record {
            cells = s.cells;
            below = s.below;
            alive = s.alive;
            lines_alive = s.lines_alive;
            same = erased ∙ ap lines_of e';
          },
        ),
      )
      | inr (q, e, le, alive) ↦ (
        controller_of a,
        record h {
          document_at =
              update_at a (some (record doc { primitives = erase_at doc.primitives index }))
                h.document_at;
          line_at = update_at q none h.line_at;
        },
        rw (
          act,
          remove_primitive,
          document_remove_primitive,
          s.alive,
          get_primitive_lem doc index,
          e,
        ),
        (
          a,
          refl,
          record {
            cells = erase_at s.cells index;
            below = s.below;
            alive =
                update_at-same a (some (record doc { primitives = erase_at doc.primitives index }))
                  h.document_at
                ∙ ap (λ ps. some (record doc { primitives = ps }))
                    (addresses-erase_at s.cells index);
            lines_alive = alive;
            same = erased;
          },
        ),
      )
    ]

abbrev loaded : Option (DocumentController × Heap) → Option (DocumentController × Heap)
loaded r =
    elim (elim r as (λ x. Option (Bool × DocumentController × Heap)) [
      | none ↦ none
      | some (c, h) ↦ some (true, c, h)
    ]) [ none ↦ none | some (b, c, h) ↦ some (c, h) ]

act-Gives :
    (action : Action) (h : Heap) (d : Drawing) (a : ℕ)
    → Holds a h d
    → Gives (act action (controller_of a) h) (draw action d)
unfolding act save_document load_document create_new_document make_document
act-Gives (creates name) h d a s =
    create_new_document-Gives name a (record { name = d.name; primitives = addresses s.cells }) h
      s.below s.alive
act-Gives (draws start end thickness) h d a s = create_line-Gives start end thickness h d a s
act-Gives (removes index) h d a s = remove_primitive-Gives index h d a s
act-Gives (saves filename) h d a s =
    (controller_of a, h, rw (act, save_document, s.alive), (a, refl, s))
act-Gives (loads filename) h d a s =
    let (c, h', run, shows) =
      create_new_document-Gives (bytes "Loaded Document") a
        (record { name = d.name; primitives = addresses s.cells }) h s.below s.alive in
    (c, h', ap loaded run, shows)

-- The calls of a document controller, in any order, never use an object that was destroyed, and the
-- document that the controller then points to has the name and the lines of the drawing that the
-- same calls make: the controller of the primitives points to the document, and each line that it
-- owns is alive.
pub act_all-Shows :
    (actions : List Action) (c : DocumentController) (h : Heap) (d : Drawing)
    → Shows c h d
    → Gives (act_all actions c h) (draw_all actions d)
unfolding act_all
act_all-Shows [] c h d shows = (c, h, refl, shows)
act_all-Shows (action ∷ rest) c h d (a, e, s) =
    let (c', h', run, shows) = act-Gives action h d a s in
    let (c'', h'', run', shows') = act_all-Shows rest c' h' (draw action d) shows in
    (c'', h'', rw (act_all, e, run) run', shows')

-- The constructor of a document controller gives it a document without lines.
pub new_controller-Gives :
    (h : Heap) → Gives (new_controller h) (record { name = bytes "Untitled"; lines = [] })
unfolding create_new_document assign_document make_document
new_controller-Gives h = (
  controller_of h.next,
  (make_document (bytes "Untitled") h).1,
  refl,
  (
    h.next,
    refl,
    record {
      cells = [];
      below = omega arith;
      alive =
          update_at-same h.next (some (record { name = bytes "Untitled"; primitives = [] }))
            h.document_at;
      lines_alive = omega arith;
      same = refl;
    },
  ),
)
