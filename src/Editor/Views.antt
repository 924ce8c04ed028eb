-- ===== src/Editor/Views.antt =====
-- HW_5/src/view: what is printed once a view is built for a document or updated.
use cplus_plus_developer_pro.Prelude.{
  ℕ, suc, ◌≡◌, ◌+◌, refl, sym, ap, ◌∙◌, some, List, [], ◌∷◌, ◌++◌, snoc, map, get_elem?, length,
  append_assoc, append-nil, length-snoc,
}
use cplus_plus_developer_pro.Prelude.Int.{ℤ, pos}
use cplus_plus_developer_pro.Prelude.Text.{Text, bytes, text_eq}
use cplus_plus_developer_pro.Editor.{Line, Document, Heap, get_primitive}
use cplus_plus_developer_pro.Editor.Actions.{Drawing}
use cplus_plus_developer_pro.Editor.Ownership.{Alive, addresses, lines_of, Holds}
use cplus_plus_developer_pro.Editor.Refinement.{get_primitive_lem}
use cplus_plus_developer_pro.Editor.Rendering.{
  DocumentView, create_view, views_from, create_primitive_views, update, line_text, render_views,
  render,
}

get_elem?-append {ℓ} :
    {A : Type ℓ} (xs : List A) (y : A) (ys : List A)
    → get_elem? (xs ++ (y ∷ ys)) (length xs) ≡ some y
get_elem?-append [] y ys = refl
get_elem?-append (x ∷ xs) y ys = get_elem?-append xs y ys

length-addresses : (cells : List (ℕ × Line)) → length (addresses cells) ≡ length (lines_of cells)
length-addresses [] = refl
length-addresses ((p, l) ∷ cells) = ap suc (length-addresses cells)

-- The views of the primitives that are left, after those before them.
views_from-Alive :
    (h : Heap) (d : Document) (lo hi : ℕ) (cells : List (ℕ × Line)) (done : List ℕ)
    → d.primitives ≡ done ++ addresses cells
    → Alive h.line_at lo hi cells
    → views_from h d (length (addresses cells)) (length done) done ≡ some (done ++ addresses cells)
unfolding views_from create_view text_eq
views_from-Alive h d lo hi [] done e alive = ap some (sym (append-nil done))
views_from-Alive h d lo hi ((p, l) ∷ cells) done e (le, e', rest) =
    let found : get_primitive d (length done) ≡ some p =
      get_primitive_lem d (length done)
      ∙ ap (λ ps. get_elem? ps (length done)) e
      ∙ get_elem?-append done p (addresses cells) in
    let shift : snoc done p ++ addresses cells ≡ done ++ (p ∷ addresses cells) =
      append_assoc done (p ∷ []) (addresses cells) in
    let further = views_from-Alive h d (p + 1) hi cells (snoc done p) (e ∙ sym shift) rest in
    rw (views_from, create_view, found, e', sym (length-snoc done p)) (further ∙ ap some shift)

module _ (number : ℤ → Text) where
  -- What is to be printed of a drawing.
  abbrev pub printed : Drawing → List Text
  printed d =
      (bytes "Rendering document: " ++ d.name)
      ∷ (bytes "Number of primitives: " ++ number (pos (length d.lines)))
      ∷ map (line_text number) d.lines

  render_views-Alive :
      (h : Heap) (lo hi : ℕ) (cells : List (ℕ × Line))
      → Alive h.line_at lo hi cells
      → render_views number h (addresses cells) ≡ some (map (line_text number) (lines_of cells))
  unfolding render_views
  render_views-Alive h lo hi [] alive = refl
  render_views-Alive h lo hi ((p, l) ∷ cells) (le, e, rest) =
      rw (render_views, e, render_views-Alive h (p + 1) hi cells rest)

  -- Once a view of a document that is alive is updated, it prints the document's name, the number of
  -- its lines and each line in order, whatever views it had before.
  pub update-render :
      (a : ℕ) (h : Heap) (d : Drawing) (v : DocumentView)
      → Holds a h d
      → v.document ≡ some a
      → (v' : DocumentView) × (update h v ≡ some v')
        × (v'.document ≡ some a)
        × (render number h v' ≡ some (printed d))
  unfolding update create_primitive_views render
  update-render a h d v s e =
      let doc : Document = record { name = d.name; primitives = addresses s.cells } in
      let views = views_from-Alive h doc 0 h.next s.cells [] refl s.lines_alive in
      let texts = render_views-Alive h 0 h.next s.cells s.lines_alive in
      (
        record { document = some a; primitive_views = addresses s.cells },
        rw (update, create_primitive_views, e, s.alive, views)
            (ap (λ b. some (record { document = b; primitive_views = addresses s.cells })) e),
        refl,
        rw (render, s.alive, texts, length-addresses s.cells, sym s.same),
      )
