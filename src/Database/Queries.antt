-- ===== src/Database/Queries.antt =====
-- `intersection` and `symmetric_difference` of HW_11/lib/database.cpp: which rows they give, and in
-- which order.
use cplus_plus_developer_pro.Prelude.{
  ◌≡◌, refl, ap, ◌∙◌, inl, inr, true, false, not, ◌&&◌, ◌||◌, some, List, [], ◌∷◌, ◌++◌, ◌==◌, map,
  if◌then◌else◌, arith, Bool-cases, All,
}
use cplus_plus_developer_pro.Prelude.Int.{ℤ, ltb_ℤ, eq_ℤ, eq_ℤ→eq}
use cplus_plus_developer_pro.Prelude.Text.{Text, bytes}
use cplus_plus_developer_pro.Database.{
  Database, Decimal, RoundTrips, contains, member, name_of, add_common, add_all, before_comma,
  insert_by, sort, by_id, row, common_row, common_rows, intersection, other_rows,
  symmetric_difference,
}
use cplus_plus_developer_pro.Database.Ids.{
  Above, Ascending, Above-trans, ltb_ℤ_asymm, common-Ascending, all-Ascending, member-common,
  member-all,
}

common_rows-map :
    (d : Decimal) (ids : List ℤ) (db : Database)
    → common_rows d ids db ≡ map (λ i. common_row d i db) ids
unfolding common_rows
common_rows-map d [] db = refl
common_rows-map d (i ∷ ids) db = ap (λ r. common_row d i db ∷ r) (common_rows-map d ids db)

-- The intersection has one row for each id that both tables have and no other, in ascending order of
-- the ids: the id, the name from table A and the name from table B, with commas between them.
pub intersection-rows :
    (d : Decimal) (db : Database)
    → (ids : List ℤ) × (intersection d db
        ≡ map
            (λ i.
              d.to_string i
              ++ bytes ","
              ++ name_of i db.table_a
              ++ bytes ","
              ++ name_of i db.table_b)
            ids)
      × Ascending ids
      × ((k : ℤ) → member k ids ≡ (contains k db.table_a && contains k db.table_b))
unfolding intersection common_row
intersection-rows d db = (
  add_common db.table_a db.table_b [],
  common_rows-map d (add_common db.table_a db.table_b []) db,
  common-Ascending db.table_a db.table_b,
  λ k. member-common k db.table_a db.table_b,
)

-- The ids that are not common.
abbrev without : List ℤ → List ℤ → List ℤ
without common [] = []
without common (i ∷ ids) =
    let rest = without common ids in if not (member i common) then i ∷ rest else rest

without-Above :
    (i : ℤ) (common ids : List ℤ) → Above i ids → Ascending ids → Above i (without common ids)
without-Above i common [] h a = tt
without-Above i common (j ∷ ids) h a = elim (Bool-cases (member j common)) [
  | inl e ↦ rw e (without-Above i common ids (Above-trans i j ids h a.0) a.1)
  | inr e ↦ rw e h
]

without-Ascending : (common ids : List ℤ) → Ascending ids → Ascending (without common ids)
without-Ascending common [] a = tt
without-Ascending common (i ∷ ids) a = elim (Bool-cases (member i common)) [
  | inl e ↦ rw e (without-Ascending common ids a.1)
  | inr e ↦ rw e (without-Above i common ids a.0 a.1, without-Ascending common ids a.1)
]

member-same : (k i : ℤ) (s : List ℤ) → eq_ℤ i k ≡ true → member i s ≡ member k s
member-same k i s e = ap (λ j. member j s) (eq_ℤ→eq i k e)

member-without :
    (k : ℤ) (common ids : List ℤ)
    → member k (without common ids) ≡ (member k ids && not (member k common))
member-without k common [] = refl
member-without k common (i ∷ ids) =
    ground (arith, member-without k common ids, member-same k i common)

other_rows-map :
    (d : Decimal) (common ids : List ℤ) (db : Database)
    → other_rows d common ids db ≡ map (λ i. row d i db) (without common ids)
unfolding other_rows
other_rows-map d common [] db = refl
other_rows-map d common (i ∷ ids) db = ground (arith, other_rows-map d common ids db)

before_comma-row :
    (s rest : Text) → All (λ c. (c == 44) ≡ false) s → before_comma (s ++ (bytes "," ++ rest)) ≡ s
before_comma-row [] rest h = refl
before_comma-row (c ∷ s) rest h = rw h.0 (ap (λ t. c ∷ t) (before_comma-row s rest h.1))

module _ (d : Decimal) (trips : RoundTrips d) (db : Database) where
  before_comma-id : (i : ℤ) → d.from_chars (before_comma (row d i db)) ≡ some i
  unfolding row
  before_comma-id i =
      ap d.from_chars (before_comma-row (d.to_string i) _ (trips.no_comma i)) ∙ trips.reads i

  by_id-row : (i j : ℤ) → by_id d (row d i db) (row d j db) ≡ ltb_ℤ i j
  unfolding by_id
  by_id-row i j = rw (before_comma-id i, before_comma-id j) refl

  -- Rows in ascending order of their ids are left in place.
  sort-rows :
      (ids : List ℤ)
      → Ascending ids
      → sort (by_id d) (map (λ i. row d i db) ids) ≡ map (λ i. row d i db) ids
  sort-rows [] a = refl
  sort-rows (i ∷ ids) a = rw (sort-rows ids a.1) (placed ids a.0)
    where
      placed :
          (js : List ℤ)
          → Above i js
          → insert_by (by_id d) (row d i db) (map (λ j. row d j db) js)
            ≡ row d i db ∷ map (λ j. row d j db) js
      placed [] h = refl
      placed (j ∷ js) h = rw (by_id-row j i, ltb_ℤ_asymm i j h) refl

  -- When ids are read back from their texts, which have no commas, the symmetric difference has one
  -- row for each id that exactly one table has and no other, in ascending order of the ids.
  pub symmetric_difference-rows :
      (ids : List ℤ) × (symmetric_difference d db ≡ map (λ i. row d i db) ids)
      × Ascending ids
      × ((k : ℤ)
          → member k ids ≡ (
              contains k db.table_a && not (contains k db.table_b)
              || contains k db.table_b && not (contains k db.table_a)))
  unfolding symmetric_difference
  symmetric_difference-rows =
      let common = add_common db.table_a db.table_b [] in
      let all = add_all db.table_b (add_all db.table_a []) in
      let ascends = without-Ascending common all (all-Ascending db.table_a db.table_b) in
      (
        without common all,
        rw (other_rows-map d common all db) (sort-rows (without common all) ascends),
        ascends,
        λ k. ground (
          arith,
          member-without k common all,
          member-all k db.table_a db.table_b,
          member-common k db.table_a db.table_b,
        ),
      )
