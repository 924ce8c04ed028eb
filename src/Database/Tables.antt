-- ===== src/Database/Tables.antt =====
-- `insert` of HW_11/lib/database.cpp: what it answers and what it changes.
use cplus_plus_developer_pro.Prelude.{
  ◌≡◌, refl, Bool, true, false, not, ◌&&◌, ◌||◌, [], ◌∷◌, if◌then◌else◌, arith,
}
use cplus_plus_developer_pro.Prelude.Int.{ℤ, eq_ℤ, eq_ℤ_refl}
use cplus_plus_developer_pro.Prelude.Text.{Text, bytes, text_eq}
use cplus_plus_developer_pro.Database.{Database, Table, contains, name_of, insert, insert_in}

-- The names of two tables: which ids there are, and under which names.
abbrev pub SameNames : Table → Table → Type 0
SameNames t t' = (k : ℤ) → (contains k t' ≡ contains k t) × (name_of k t' ≡ name_of k t)

-- The table has the new name as well.
abbrev pub Adds : ℤ → Text → Table → Table → Type 0
Adds i name t t' =
    (k : ℤ)
    → (contains k t' ≡ (eq_ℤ i k || contains k t))
      × (name_of k t' ≡ (if eq_ℤ i k then name else name_of k t))

abbrev pub is_a : Text → Bool
is_a table = text_eq table (bytes "A")

abbrev pub is_b : Text → Bool
is_b table = text_eq table (bytes "B")

a-not-b : (table : Text) → is_a table ≡ true → is_b table ≡ false
unfolding text_eq
a-not-b [] e = refl
a-not-b (c ∷ s) e = ground arith

-- `insert` answers true exactly when it is given the name of a table that does not have the id. Then
-- that table has the id under the given name, and every other entry as before; the other table, and
-- both when the answer is false, stay as they are.
pub insert-Adds :
    (table : Text) (i : ℤ) (name : Text) (db : Database)
    → let (done, db') = insert table i name db in
      (done
        ≡ (is_a table && not (contains i db.table_a) || is_b table && not (contains i db.table_b)))
      × (done ≡ false → db' ≡ db)
      × (done ≡ true
          → is_a table ≡ true
          → Adds i name db.table_a db'.table_a × (db'.table_b ≡ db.table_b))
      × (done ≡ true
          → is_b table ≡ true
          → Adds i name db.table_b db'.table_b × (db'.table_a ≡ db.table_a))
unfolding insert insert_in
insert-Adds table i name db = (
  ground (arith, a-not-b table),
  λ h. ground arith,
  λ h e. (λ k. ground arith, ground arith),
  λ h e. (λ k. ground (arith, a-not-b table), ground (arith, a-not-b table)),
)

-- A second `insert` of an id into the same table fails and leaves the first name, whatever the first
-- one answered.
insert_twice :
    (table : Text) (i : ℤ) (name other : Text) (db : Database)
    → let db' = (insert table i name db).1 in insert table i other db' ≡ (false, db')
unfolding insert insert_in
insert_twice table i name other db = ground (arith, eq_ℤ_refl i)
