-- ===== src/JoinServer/Commands.antt =====
-- What the commands of HW_11/lib/server.cpp do to the database, and how they are answered.
use cplus_plus_developer_pro.Prelude.{
  ℕ, ◌≡◌, ◌<◌, ◌≤◌, ◌^◌, refl, sym, ap, ◌⊎◌, inl, inr, Bool, true, false, ◌||◌, List, [], ◌∷◌, ◌++◌,
  ◌==◌, if◌then◌else◌, ◌-◌, snoc,
}
use mathlib.Core.Path.{subst}
use cplus_plus_developer_pro.Prelude.Int.{ℤ, pos}
use cplus_plus_developer_pro.Prelude.Text.{Text, bytes, text_eq}
use cplus_plus_developer_pro.Database.{
  Database, Decimal, insert, truncate, intersection, symmetric_difference,
}
use cplus_plus_developer_pro.Database.Tables.{insert-Adds}
use cplus_plus_developer_pro.JoinServer.{
  Stream, is_digit, skip_ws, span, read_word, read_int, read_line, number, line, do_write,
  insert_command, process_command,
}
use cplus_plus_developer_pro.JoinServer.Streams.{
  AllOf, Filled, no_space, no_newline, at, read_word_lem, read_int_lem, read_line_lem, unreadable,
  out_of_range, failed_line,
}

-- The answer to an `insert` of an id.
abbrev pub answer : Decimal → ℤ → Bool × Database → Database × List Text
answer d i (done, db) =
    (db, line (if done then bytes "OK" else bytes "ERR duplicate " ++ d.to_string i) ∷ [])

-- The words of an `INSERT` up to the text of the id.
abbrev pub insert_text : Text → Text → Text
insert_text table s = bytes "INSERT" ++ 32 ∷ table ++ 32 ∷ s

module _ (d : Decimal) (db : Database) where
  insert_command_lem :
      (table : Text) (s s' : Stream) (i : ℤ) (name : Text) (t : Stream)
      → read_word [] t ≡ (table, s)
      → read_int (pos 0) s ≡ (i, s')
      → read_line [] s' ≡ name
      → insert_command d t db ≡ answer d i (insert table i name db)
  unfolding insert_command
  insert_command_lem table s s' i name t e₀ e₁ e₂ =
      rw (insert_command, e₀, e₁, e₂) (branch (insert table i name db) i)
    where
      branch :
          (r : Bool × Database) (i : ℤ)
          → (if r.0
              then (r.1, line (bytes "OK") ∷ [])
              else (r.1, line (bytes "ERR duplicate " ++ d.to_string i) ∷ []))
            ≡ answer d i r
      branch (true, db') i = refl
      branch (false, db') i = refl

  insert_word :
      (table s : Text) (i : ℤ) (name : Text) (after : Stream)
      → Filled no_space table
      → read_int (pos 0) (at (32 ∷ s)) ≡ (i, after)
      → read_line [] after ≡ name
      → process_command d (insert_text table s) db ≡ answer d i (insert table i name db)
  unfolding process_command read_word text_eq skip_ws span insert_command
  insert_word table s i name after word e₁ e₂ =
      insert_command_lem table (at (32 ∷ s)) after i name (at (32 ∷ table ++ 32 ∷ s))
        (read_word_lem [] table 32 s word refl) e₁ e₂

-- An `INSERT` whose table is a word, whose id is written in digits and is less than 2^31, and whose
-- name starts with a byte that is not white space and runs to the end of the line, does and
-- answers what `insert` of that table, that number and that name does.
pub process_command-insert :
    (d : Decimal) (db : Database) (table digits : Text) (b : ℕ) (name : Text)
    → Filled no_space table
    → Filled is_digit digits
    → number 0 digits < 2 ^ 31
    → no_space b ≡ true
    → AllOf no_newline (b ∷ name)
    → let i = pos (number 0 digits) in
      process_command d (insert_text table (digits ++ (32 ∷ (b ∷ name) ++ 10 ∷ []))) db
      ≡ answer d i (insert table i (b ∷ name) db)
process_command-insert d db table digits b name word id small start all =
    insert_word d db table (digits ++ (32 ∷ (b ∷ name) ++ 10 ∷ [])) (pos (number 0 digits))
      (b ∷ name) (at (32 ∷ (b ∷ name) ++ 10 ∷ [])) word
      (read_int_lem (pos 0) digits 32 ((b ∷ name) ++ 10 ∷ []) id refl small)
      (read_line_lem [] b name [] start all)

-- An `INSERT` whose table is a word and whose id starts neither with a digit nor with a sign is not
-- refused: it inserts the id 0 with an empty name, whatever follows on the line.
process_command_unreadable :
    (d : Decimal) (db : Database) (table : Text) (c : ℕ) (s : Text)
    → Filled no_space table
    → no_space c ≡ true
    → is_digit c ≡ false
    → (c == 45 || c == 43) ≡ false
    → process_command d (insert_text table (c ∷ s)) db
      ≡ answer d (pos 0) (insert table (pos 0) [] db)
process_command_unreadable d db table c s word start other no_sign =
    let (after, e, failed) = unreadable c s start other no_sign in
    insert_word d db table (c ∷ s) (pos 0) [] after word e (failed_line after failed)

-- An `INSERT` whose table is a word and whose id is written in digits and is 2^31 or more is not
-- refused either: it inserts the greatest `int` with an empty name.
process_command_out_of_range :
    (d : Decimal) (db : Database) (table digits : Text) (c : ℕ) (s : Text)
    → Filled no_space table
    → Filled is_digit digits
    → is_digit c ≡ false
    → 2 ^ 31 ≤ number 0 digits
    → let i = pos (2 ^ 31 - 1) in
      process_command d (insert_text table (digits ++ c ∷ s)) db ≡ answer d i (insert table i [] db)
process_command_out_of_range d db table digits c s word id stop large =
    let (after, e, failed) = out_of_range digits c s id stop large in
    insert_word d db table (digits ++ c ∷ s) (pos (2 ^ 31 - 1)) [] after word e
      (failed_line after failed)

abbrev pub all_lines : List Text → List Text
all_lines [] = []
all_lines (r ∷ rows) = line r ∷ all_lines rows

-- A command is answered with some rows and a last line that says OK, or else is refused: with one
-- line that begins with ERR, and the database is left as it was.
abbrev pub Answered : Database → Database × List Text → Type 0
Answered db (db', messages) =
    ((rows : List Text) × (messages ≡ snoc (all_lines rows) (line (bytes "OK"))))
    ⊎ (((reason : Text) × (messages ≡ line (bytes "ERR " ++ reason) ∷ [])) × (db' ≡ db))

Answered-if :
    (db : Database) (c : Bool) (r r' : Database × List Text)
    → Answered db r
    → Answered db r'
    → Answered db (if c then r else r')
Answered-if db true r r' a a' = a
Answered-if db false r r' a a' = a'

do_write_rows : (rows : List Text) → do_write rows ≡ snoc (all_lines rows) (line (bytes "OK"))
unfolding do_write
do_write_rows [] = refl
do_write_rows (r ∷ rows) = ap (λ t. line r ∷ t) (do_write_rows rows)

insert-Answered :
    (d : Decimal) (table : Text) (i : ℤ) (name : Text) (db : Database)
    → Answered db (answer d i (insert table i name db))
insert-Answered d table i name db =
    by_result (insert table i name db) (insert-Adds table i name db).1
  where
    by_result : (r : Bool × Database) → (r.0 ≡ false → r.1 ≡ db) → Answered db (answer d i r)
    by_result (true, db') same = inl ([], refl)
    by_result (false, db') same = inr ((bytes "duplicate " ++ d.to_string i, refl), same refl)

insert_command-Answered :
    (d : Decimal) (s : Stream) (db : Database) → Answered db (insert_command d s db)
insert_command-Answered d s db =
    let (table, s') = read_word [] s in
    let (i, s'') = read_int (pos 0) s' in
    let name = read_line [] s'' in
    subst (λ r. Answered db r) (sym (insert_command_lem d db table s' s'' i name s refl refl refl))
      (insert-Answered d table i name db)

-- Whatever a command says, it is answered with some rows and then a line OK, or it is refused: with
-- one line that begins with ERR, and then the database is as it was.
process_command-Answered :
    (d : Decimal) (command : Text) (db : Database) → Answered db (process_command d command db)
unfolding process_command
process_command-Answered d command db =
    let (cmd, s) = read_word [] (at command) in
    let cleared = truncate (read_word [] s).0 db in
    let common = do_write (intersection d db) in
    let others = do_write (symmetric_difference d db) in
    let unknown = line (bytes "ERR unknown command") ∷ [] in
    let ok_only = line (bytes "OK") ∷ [] in
    let if₃ = if text_eq cmd (bytes "SYMMETRIC_DIFFERENCE") then (db, others) else (db, unknown) in
    let if₂ = if text_eq cmd (bytes "INTERSECTION") then (db, common) else if₃ in
    let if₁ = if text_eq cmd (bytes "TRUNCATE") then (cleared, ok_only) else if₂ in
    Answered-if db (text_eq cmd (bytes "INSERT")) (insert_command d s db) if₁
      (insert_command-Answered d s db)
      (Answered-if db (text_eq cmd (bytes "TRUNCATE")) (cleared, ok_only) if₂ (inl ([], refl))
        (Answered-if db (text_eq cmd (bytes "INTERSECTION")) (db, common) if₃
          (inl (intersection d db, do_write_rows (intersection d db)))
          (Answered-if db (text_eq cmd (bytes "SYMMETRIC_DIFFERENCE")) (db, others) (db, unknown)
            (inl (symmetric_difference d db, do_write_rows (symmetric_difference d db)))
            (inr ((bytes "unknown command", refl), refl)))))
