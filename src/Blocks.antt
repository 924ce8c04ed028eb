-- ===== src/Blocks.antt =====
-- What a batch processor promises (HW_7/README.md): one list of pending commands and the depth of
-- the open brackets, instead of the two vectors, two times and counters of the programs.
pub mod Laws
pub mod Nesting
use cplus_plus_developer_pro.Prelude.{
  ℕ, ◌+◌, ◌-◌, Bool, ◌&&◌, List, [], ◌∷◌, ◌++◌, ltb, leb, ◌==◌, if◌then◌else◌, length, snoc,
}
use cplus_plus_developer_pro.Prelude.Text.{Text, bytes, text_eq}

pub record Pending : Type 0 where
  pub depth : ℕ
  pub commands : List Text

abbrev pub nothing_pending : Pending
nothing_pending = record { depth = 0; commands = [] }

abbrev pub is_open : Text → Bool
is_open task = text_eq task (bytes "{")

abbrev pub is_close : Text → Bool
is_close task = text_eq task (bytes "}")

-- A block is put out unless it is empty.
abbrev pub emit : List Text → List (List Text)
emit [] = []
emit (x ∷ xs) = (x ∷ xs) ∷ []

unfoldable pub collect : ℕ → Text → Pending → Pending × List (List Text)
collect size task c =
    if is_open task
    then if c.depth == 0
      then (record { depth = 1; commands = [] }, emit c.commands)
      else (record c { depth = c.depth + 1 }, [])
    else if is_close task && ltb 0 c.depth
    then if c.depth == 1
      then (nothing_pending, emit c.commands)
      else (record c { depth = c.depth - 1 }, [])
    else if c.depth == 0 && leb size (length c.commands + 1)
    then (nothing_pending, snoc c.commands task ∷ [])
    else (record c { commands = snoc c.commands task }, [])

unfoldable pub collect_all : ℕ → List Text → Pending → Pending × List (List Text)
collect_all size [] c = (c, [])
collect_all size (task ∷ tasks) c =
    let (c', out) = collect size task c in
    let (c'', rest) = collect_all size tasks c' in (c'', out ++ rest)

-- At the end of the input a static block is put out, and a dynamic one that is open is dropped.
abbrev pub leftover : Pending → List (List Text)
leftover c = if c.depth == 0 then emit c.commands else []

-- All the blocks of an input.
unfoldable pub blocks : ℕ → List Text → List (List Text)
unfolding collect_all
blocks size tasks = let (c, out) = collect_all size tasks nothing_pending in out ++ leftover c
