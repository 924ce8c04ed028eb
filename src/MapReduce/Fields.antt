-- ===== src/MapReduce/Fields.antt =====
-- The field that `extract_price_field` of HW_12/mapper.cpp gives for a line of comma separated values.
use cplus_plus_developer_pro.Prelude.{
  ℕ, zero, suc, ◌≡◌, ◌+◌, refl, sym, ap, ◌∙◌, Bool, true, false, not, ◌&&◌, none, some, List, [],
  ◌∷◌, ◌++◌, ◌==◌, if◌then◌else◌, snoc, arith, append-nil, append_assoc, All, All-map,
}
use cplus_plus_developer_pro.Prelude.Text.{Text, join}
use cplus_plus_developer_pro.MapReduce.{Scan, scan, extract_price_field}

-- A stretch of a field, in quotation marks or not.
pub data Piece : Type 0 where
  plain : Text → Piece
  quoted : Text → Piece

abbrev pub written : Piece → Text
written (plain t) = t
written (quoted t) = 34 ∷ t ++ 34 ∷ []

abbrev pub content : Piece → Text
content (plain t) = t
content (quoted t) = t

-- No quotation mark, and no delimiter but in quotation marks.
abbrev pub IsWritable : ℕ → Piece → Type 0
IsWritable d (plain t) = All (λ c. ((c == 34) ≡ false) × ((c == d) ≡ false)) t
IsWritable d (quoted t) = All (λ c. (c == 34) ≡ false) t

abbrev pub field_text : List Piece → Text
field_text [] = []
field_text (p ∷ ps) = written p ++ field_text ps

abbrev pub field_content : List Piece → Text
field_content [] = []
field_content (p ∷ ps) = content p ++ field_content ps

abbrev pub texts : List (List Piece) → List Text
texts [] = []
texts (f ∷ fs) = field_text f ∷ texts fs

-- The content of the field with an index, and nothing when there are not so many.
abbrev pub content_at : List (List Piece) → ℕ → Text
content_at [] i = []
content_at (f ∷ fs) zero = field_content f
content_at (f ∷ fs) (suc i) = content_at fs i

abbrev scan_at : Bool → ℕ → Text → Scan
scan_at q k f = record { in_quotes = q; current_index = k; current_field = f }

-- What is kept of a text that belongs to one field, whether or not it is the one that is wanted.
abbrev kept : Bool → Text → Text
kept true t = t
kept false t = []

kept-append : (b : Bool) (s t : Text) → kept b (s ++ t) ≡ kept b s ++ kept b t
kept-append true s t = refl
kept-append false s t = refl

append-kept : (b : Bool) (f t u : Text) → (f ++ kept b t) ++ kept b u ≡ f ++ kept b (t ++ u)
append-kept b f t u =
    append_assoc f (kept b t) (kept b u) ∙ ap (λ x. f ++ x) (sym (kept-append b t u))

append-kept_nil : (b : Bool) (f : Text) → f ++ kept b [] ≡ f
append-kept_nil true f = append-nil f
append-kept_nil false f = append-nil f

-- Neither a quotation mark nor a delimiter that counts.
abbrev Inside : ℕ → Bool → ℕ → Type 0
Inside d q c = ((c == 34) ≡ false) × ((c == d && not q) ≡ false)

module _ (d i : ℕ) where
  scan-Inside :
      (q : Bool) (c : ℕ) (str : Text) (k : ℕ) (f : Text)
      → Inside d q c
      → scan d i (c ∷ str) (scan_at q k f)
        ≡ scan d i str (scan_at q k (f ++ kept (k == i) (c ∷ [])))
  unfolding scan
  scan-Inside q c str k f ok = rw (scan, ok.0, ok.1) (wanted (k == i))
    where
      wanted :
          (b : Bool)
          → (elim (if b then some (scan_at q k (snoc f c)) else some (scan_at q k f))
              as (λ x. Text) [ none ↦ f | some s ↦ scan d i str s ])
            ≡ scan d i str (scan_at q k (f ++ kept b (c ∷ [])))
      wanted true = refl
      wanted false = ap (λ x. scan d i str (scan_at q k x)) (sym (append-nil f))

  scan_stretch :
      (q : Bool) (t str : Text) (k : ℕ) (f : Text)
      → All (Inside d q) t
      → scan d i (t ++ str) (scan_at q k f) ≡ scan d i str (scan_at q k (f ++ kept (k == i) t))
  scan_stretch q [] str k f ok =
      ap (λ x. scan d i str (scan_at q k x)) (sym (append-kept_nil (k == i) f))
  scan_stretch q (c ∷ t) str k f ok =
      scan-Inside q c (t ++ str) k f ok.0
      ∙ scan_stretch q t str k (f ++ kept (k == i) (c ∷ [])) ok.1
      ∙ ap (λ x. scan d i str (scan_at q k x)) (append-kept (k == i) f (c ∷ []) t)

  scan_mark :
      (q : Bool) (str : Text) (k : ℕ) (f : Text)
      → scan d i (34 ∷ str) (scan_at q k f) ≡ scan d i str (scan_at (not q) k f)
  unfolding scan
  scan_mark q str k f = refl

  scan_piece :
      (p : Piece) (str : Text) (k : ℕ) (f : Text)
      → IsWritable d p
      → scan d i (written p ++ str) (scan_at false k f)
        ≡ scan d i str (scan_at false k (f ++ kept (k == i) (content p)))
  scan_piece (plain t) str k f ok =
      scan_stretch false t str k f (All-map t (λ c h. ground arith) ok)
  scan_piece (quoted t) str k f ok =
      ap (λ x. scan d i (34 ∷ x) (scan_at false k f)) (append_assoc t (34 ∷ []) str)
      ∙ scan_mark false (t ++ 34 ∷ str) k f
      ∙ scan_stretch true t (34 ∷ str) k f (All-map t (λ c h. ground arith) ok)
      ∙ scan_mark true str k (f ++ kept (k == i) t)

  scan_field :
      (ps : List Piece) (str : Text) (k : ℕ) (f : Text)
      → All (IsWritable d) ps
      → scan d i (field_text ps ++ str) (scan_at false k f)
        ≡ scan d i str (scan_at false k (f ++ kept (k == i) (field_content ps)))
  scan_field [] str k f ok =
      ap (λ x. scan d i str (scan_at false k x)) (sym (append-kept_nil (k == i) f))
  scan_field (p ∷ ps) str k f ok =
      ap (λ x. scan d i x (scan_at false k f)) (append_assoc (written p) (field_text ps) str)
      ∙ scan_piece p (field_text ps ++ str) k f ok.0
      ∙ scan_field ps str k (f ++ kept (k == i) (content p)) ok.1
      ∙ ap (λ x. scan d i str (scan_at false k x))
          (append-kept (k == i) f (content p) (field_content ps))

  scan_delimiter :
      (str : Text) (k : ℕ) (f : Text)
      → (d == 34) ≡ false
      → scan d i (d ∷ str) (scan_at false k f)
        ≡ (if k == i then f else scan d i str (scan_at false (k + 1) []))
  unfolding scan
  scan_delimiter str k f other =
      let same : (d == d) ≡ true = ground arith in rw (scan, other, same) (at_index (k == i))
    where
      at_index :
          (b : Bool)
          → (elim (if b then none else some (scan_at false (k + 1) [])) as (λ x. Text) [
            | none ↦ f
            | some s ↦ scan d i str s
          ])
            ≡ (if b then f else scan d i str (scan_at false (k + 1) []))
      at_index true = refl
      at_index false = refl

  scan_end : (k : ℕ) (f : Text) → scan d i [] (scan_at false k f) ≡ f
  unfolding scan
  scan_end k f = refl

  scan_last :
      (ps : List Piece) (k : ℕ)
      → All (IsWritable d) ps
      → scan d i (field_text ps ++ []) (scan_at false k []) ≡ kept (k == i) (field_content ps)
  scan_last ps k ok = scan_field ps [] k [] ok ∙ scan_end k (kept (k == i) (field_content ps))

  scan_fields :
      (fs : List (List Piece)) (k j : ℕ)
      → (d == 34) ≡ false
      → All (All (IsWritable d)) fs
      → i ≡ k + j
      → scan d i (join (d ∷ []) (texts fs)) (scan_at false k []) ≡ content_at fs j
  unfolding join
  scan_fields [] k j other ok e = scan_end k []
  scan_fields (f ∷ []) k zero other ok e =
      let here : (k == i) ≡ true = ground arith in
      scan_last f k ok.0 ∙ ap (λ b. kept b (field_content f)) here
  scan_fields (f ∷ []) k (suc j) other ok e =
      let past : (k == i) ≡ false = ground arith in
      scan_last f k ok.0 ∙ ap (λ b. kept b (field_content f)) past
  scan_fields (f ∷ g ∷ fs) k zero other ok e =
      let here : (k == i) ≡ true = ground arith in
      let rest = join (d ∷ []) (texts (g ∷ fs)) in
      scan_field f (d ∷ rest) k [] ok.0
      ∙ scan_delimiter rest k (kept (k == i) (field_content f)) other
      ∙ rw here
  scan_fields (f ∷ g ∷ fs) k (suc j) other ok e =
      let past : (k == i) ≡ false = ground arith in
      let rest = join (d ∷ []) (texts (g ∷ fs)) in
      scan_field f (d ∷ rest) k [] ok.0
      ∙ scan_delimiter rest k (kept (k == i) (field_content f)) other
      ∙ rw past (scan_fields (g ∷ fs) (k + 1) j other ok.1 (omega arith))

-- In a line of fields with a delimiter between each two, where a field is made of stretches
-- without quotation marks and a delimiter stands in quotation marks only, the function gives
-- the content of the field with the index, without its quotation marks, and nothing when the line has
-- fewer fields.
pub extract_price_field_lem :
    (d i : ℕ) (fs : List (List Piece))
    → (d == 34) ≡ false
    → All (All (IsWritable d)) fs
    → extract_price_field (join (d ∷ []) (texts fs)) d i ≡ content_at fs i
unfolding extract_price_field
extract_price_field_lem d i fs other ok = scan_fields d i fs 0 i other ok (omega arith)
