-- ===== src/JoinServer.antt =====
-- HW_11/lib/server.cpp: the commands of a session. A `std::istringstream` is the text that is left
-- and whether it has failed, in the classic locale. What `async_read_until` promises is taken over:
-- it completes with the bytes up to the first newline as soon as the buffer has one.
pub mod Streams
pub mod Commands
pub mod Chunks
mod Tests
use cplus_plus_developer_pro.Prelude.{
  ℕ, zero, suc, ◌+◌, ◌-◌, ◌*◌, ◌^◌, Bool, true, false, not, ◌&&◌, ◌||◌, Option, none, some, List,
  [], ◌∷◌, ◌++◌, ltb, leb, ◌==◌, if◌then◌else◌, is_empty, snoc, length,
}
use cplus_plus_developer_pro.Prelude.Int.{ℤ, pos, negsuc}
use cplus_plus_developer_pro.Prelude.Text.{Text, bytes, text_eq}
use cplus_plus_developer_pro.Database.{
  Database, Decimal, insert, truncate, intersection, symmetric_difference,
}

pub record Stream : Type 0 where
  pub rest : Text
  pub failed : Bool

abbrev pub is_space : ℕ → Bool
is_space c = c == 32 || leb 9 c && leb c 13

abbrev pub is_digit : ℕ → Bool
is_digit c = leb 48 c && leb c 57

-- `std::ws`
unfoldable pub skip_ws : Text → Text
skip_ws [] = []
skip_ws (c ∷ s) = let rest = skip_ws s in if is_space c then rest else c ∷ s

-- The longest beginning that passes a test, and what follows it.
unfoldable pub span : (ℕ → Bool) → Text → Text × Text
span test [] = ([], [])
span test (c ∷ s) =
    let (front, rest) = span test s in if test c then (c ∷ front, rest) else ([], c ∷ s)

-- `>>` into a string, and the string as it was when there is no word.
unfoldable pub read_word : Text → Stream → Text × Stream
read_word old s =
    let r = skip_ws s.rest in
    let (word, rest) = span (λ c. not (is_space c)) r in
    if s.failed || is_empty r
    then (old, record { rest = r; failed = true })
    else (word, record { rest = rest; failed = false })

unfoldable pub number : ℕ → Text → ℕ
number n [] = n
number n (c ∷ s) = number (n * 10 + (c - 48)) s

abbrev pub sign : Text → Bool × Text
sign [] = (false, [])
sign (c ∷ s) = if c == 45 then (true, s) else if c == 43 then (false, s) else (false, c ∷ s)

-- The number that is stored, and whether it was out of the range of `int`.
abbrev pub clamp : Bool → ℕ → ℤ × Bool
clamp true zero = (pos 0, false)
clamp true (suc n) = if leb (suc n) (2 ^ 31) then (negsuc n, false) else (negsuc (2 ^ 31 - 1), true)
clamp false n = if ltb n (2 ^ 31) then (pos n, false) else (pos (2 ^ 31 - 1), true)

-- `>>` into an `int`.
unfoldable pub read_int : ℤ → Stream → ℤ × Stream
read_int old s =
    let r = skip_ws s.rest in
    let (minus, r') = sign r in
    let (digits, rest) = span is_digit r' in
    let (value, over) = clamp minus (number 0 digits) in
    if s.failed || is_empty r
    then (old, record { rest = r; failed = true })
    else if is_empty digits
    then (pos 0, record { rest = rest; failed = true })
    else (value, record { rest = rest; failed = over })

-- `std::getline` after `std::ws`.
unfoldable pub read_line : Text → Stream → Text
read_line old s =
    let r = skip_ws s.rest in
    if s.failed || is_empty r then old else (span (λ c. not (c == 10)) r).0

abbrev pub line : Text → Text
line message = snoc message 10

-- `do_write` of several messages, as what is sent: each message is taken as it was handed over, although
-- the library is given a view of a temporary, which is gone when it sends.
unfoldable pub do_write : List Text → List Text
do_write [] = line (bytes "OK") ∷ []
do_write (message ∷ messages) = line message ∷ do_write messages

module _ (d : Decimal) where
  -- The branch of `INSERT`.
  unfoldable pub insert_command : Stream → Database → Database × List Text
  insert_command s db =
      let (table, s') = read_word [] s in
      let (record_id, s'') = read_int (pos 0) s' in
      let name = read_line [] s'' in
      let (done, db') = insert table record_id name db in
      if done
      then (db', line (bytes "OK") ∷ [])
      else (db', line (bytes "ERR duplicate " ++ d.to_string record_id) ∷ [])

  -- The new database, and what is sent.
  unfoldable pub process_command : Text → Database → Database × List Text
  process_command command db =
      let (cmd, s) = read_word [] (record { rest = command; failed = false }) in
      if text_eq cmd (bytes "INSERT")
      then insert_command s db
      else if text_eq cmd (bytes "TRUNCATE")
      then (truncate (read_word [] s).0 db, line (bytes "OK") ∷ [])
      else if text_eq cmd (bytes "INTERSECTION")
      then (db, do_write (intersection d db))
      else if text_eq cmd (bytes "SYMMETRIC_DIFFERENCE")
      then (db, do_write (symmetric_difference d db))
      else (db, line (bytes "ERR unknown command") ∷ [])

-- The bytes up to the first newline with it, and those that follow.
unfoldable pub first_line : Text → Option (Text × Text)
first_line [] = none
first_line (c ∷ s) =
    let rest : Option (Text × Text) = elim (first_line s) [
      | none ↦ none
      | some (l, r) ↦ some (c ∷ l, r)
    ] in
    if c == 10 then some (c ∷ [], s) else rest

-- A session with its socket: the buffer, the database, and what was sent so far.
pub record Session : Type 0 where
  pub buffer : Text
  pub database : Database
  pub sent : List Text

module _ (d : Decimal) where
  -- The handler of `do_read` for a line.
  unfoldable pub handle : Text → Text → Session → Session
  handle command rest s =
      let (db, messages) = process_command d command s.database in
      record { buffer = rest; database = db; sent = s.sent ++ messages }

  -- `do_read` again and again while the buffer has a line, on fuel.
  unfoldable pub do_read : ℕ → Session → Session
  do_read zero s = s
  do_read (suc fuel) s = elim (first_line s.buffer) [
    | none ↦ s
    | some (command, rest) ↦ do_read fuel (handle command rest s)
  ]

  -- Bytes arrive at the socket.
  unfoldable pub receive : Text → Session → Session
  receive chunk s =
      let s' = record s { buffer = s.buffer ++ chunk } in do_read (length s'.buffer) s'
