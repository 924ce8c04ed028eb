-- ===== src/Database.antt =====
-- HW_11/lib/database.cpp: two tables of names by record id. A `std::unordered_map` is an association
-- list and a `std::set<int>` an ascending list. The decimal text of an id and `std::from_chars` are
-- parameters.
pub mod Ids
pub mod Tables
pub mod Queries
mod Tests
use cplus_plus_developer_pro.Prelude.{
  ℕ, ◌≡◌, Bool, true, false, not, ◌&&◌, ◌||◌, Option, none, some, List, [], ◌∷◌, ◌++◌, ◌==◌,
  if◌then◌else◌, All,
}
use cplus_plus_developer_pro.Prelude.Int.{ℤ, ltb_ℤ, eq_ℤ}
use cplus_plus_developer_pro.Prelude.Text.{Text, bytes, text_eq}

abbrev pub Table : Type 0
Table = List (ℤ × Text)

pub record Database : Type 0 where
  pub table_a : Table
  pub table_b : Table

abbrev pub contains : ℤ → Table → Bool
contains i [] = false
contains i ((j, name) ∷ t) = eq_ℤ j i || contains i t

-- `table[record_id]` of an id that the table has.
abbrev pub name_of : ℤ → Table → Text
name_of i [] = []
name_of i ((j, name) ∷ t) = if eq_ℤ j i then name else name_of i t

-- The part of `insert` that is the same for both tables.
pub insert_in : ℤ → Text → Table → Bool × Table
insert_in i name t = if contains i t then (false, t) else (true, (i, name) ∷ t)

pub insert : Text → ℤ → Text → Database → Bool × Database
unfolding insert_in
insert table i name db =
    let (a, table_a') = insert_in i name db.table_a in
    let (b, table_b') = insert_in i name db.table_b in
    if text_eq table (bytes "A")
    then (a, record db { table_a = table_a' })
    else if text_eq table (bytes "B")
    then (b, record db { table_b = table_b' })
    else (false, db)

pub truncate : Text → Database → Database
truncate table db =
    if text_eq table (bytes "A")
    then record db { table_a = [] }
    else if text_eq table (bytes "B")
    then record db { table_b = [] }
    else db

-- `std::set<int>`: `insert` and `contains`.
abbrev pub set_insert : ℤ → List ℤ → List ℤ
set_insert i [] = i ∷ []
set_insert i (j ∷ s) =
    if ltb_ℤ i j then i ∷ j ∷ s else if eq_ℤ i j then j ∷ s else j ∷ set_insert i s

abbrev pub member : ℤ → List ℤ → Bool
member i [] = false
member i (j ∷ s) = eq_ℤ j i || member i s

-- The loops that fill `common_ids` and `all_ids`.
abbrev pub add_common : Table → Table → List ℤ → List ℤ
add_common [] b s = s
add_common ((i, name) ∷ a) b s = add_common a b (if contains i b then set_insert i s else s)

abbrev pub add_all : Table → List ℤ → List ℤ
add_all [] s = s
add_all ((i, name) ∷ t) s = add_all t (set_insert i s)

-- Decimal texts of ids, and what reads them back.
pub record Decimal : Type 0 where
  pub to_string : ℤ → Text
  pub from_chars : Text → Option ℤ

-- A number is read back from its text, and its text has no comma.
pub record RoundTrips (d : Decimal) : Type 0 where
  pub reads : (i : ℤ) → d.from_chars (d.to_string i) ≡ some i
  pub no_comma : (i : ℤ) → All (λ c. (c == 44) ≡ false) (d.to_string i)

-- `string.substr(0, string.find(','))`
abbrev pub before_comma : Text → Text
before_comma [] = []
before_comma (c ∷ s) = if c == 44 then [] else c ∷ before_comma s

abbrev pub less_in : Option ℤ → Option ℤ → Bool
less_in (some i) (some j) = ltb_ℤ i j
less_in (some i) none = false
less_in none j = false

-- `std::ranges::sort` by a comparison.
abbrev pub insert_by : (Text → Text → Bool) → Text → List Text → List Text
insert_by lt x [] = x ∷ []
insert_by lt x (y ∷ ys) = if lt y x then y ∷ insert_by lt x ys else x ∷ y ∷ ys

abbrev pub sort : (Text → Text → Bool) → List Text → List Text
sort lt [] = []
sort lt (x ∷ xs) = insert_by lt x (sort lt xs)

module _ (d : Decimal) where
  -- The comparison of `symmetric_difference`.
  pub by_id : Text → Text → Bool
  by_id s t = less_in (d.from_chars (before_comma s)) (d.from_chars (before_comma t))

  -- A line of a result: the id and the names, an absent one left empty.
  pub row : ℤ → Database → Text
  row i db =
      let a = if contains i db.table_a then name_of i db.table_a else [] in
      let b = if contains i db.table_b then name_of i db.table_b else [] in
      d.to_string i ++ (bytes "," ++ (a ++ (bytes "," ++ b)))

  pub common_row : ℤ → Database → Text
  common_row i db =
      d.to_string i ++ bytes "," ++ name_of i db.table_a ++ bytes "," ++ name_of i db.table_b

  pub common_rows : List ℤ → Database → List Text
  common_rows [] db = []
  common_rows (i ∷ ids) db = common_row i db ∷ common_rows ids db

  pub intersection : Database → List Text
  intersection db = common_rows (add_common db.table_a db.table_b []) db

  pub other_rows : List ℤ → List ℤ → Database → List Text
  other_rows common [] db = []
  other_rows common (i ∷ ids) db =
      let rest = other_rows common ids db in if not (member i common) then row i db ∷ rest else rest

  pub symmetric_difference : Database → List Text
  symmetric_difference db =
      let common = add_common db.table_a db.table_b [] in
      let all = add_all db.table_b (add_all db.table_a []) in sort by_id (other_rows common all db)
