-- ===== src/Bulk/Refinement.antt =====
-- The processor of HW_7/lib/taskmanager.cpp against what Blocks promises.
use native.Mathlib.Decide.{dec_lt}
use mathlib.Core.Path.{subst}
use cplus_plus_developer_pro.Prelude.{
  ℕ, zero, suc, ◌+◌, ◌-◌, ◌%◌, ◌<◌, ◌≡◌, refl, ◌∙◌, inl, inr, Bool, true, false, ◌&&◌, List, [],
  ◌∷◌, ◌++◌, append-nil, append_assoc, arith, ltb, leb, ◌==◌, if◌then◌else◌, Bool-cases, length,
  snoc, length-snoc, is_empty-snoc,
}
use cplus_plus_developer_pro.Prelude.Int.{ℤ, pos, pos-add-one, pos-sub-one, zero-sub-one}
use cplus_plus_developer_pro.Prelude.Text.{Text}
use cplus_plus_developer_pro.Blocks.{
  Pending, nothing_pending, collect, collect_all, leftover, blocks, emit, is_open, is_close,
}
use cplus_plus_developer_pro.Bulk.{
  Platform, TaskManager, dynamic_block, render, process_tasks, open_block, add_command, close_block,
  add_task, Line, run, finish, task_manager,
}

-- Every log file can be opened.
abbrev pub always : Text → Bool
always path = true

-- What `std::cout` shows of some blocks.
abbrev pub printed : Text → List (List Text) → Text
printed name [] = []
printed name (b ∷ bs) = render name b ++ printed name bs

pub printed-append :
    (name : Text) (bs cs : List (List Text))
    → printed name (bs ++ cs) ≡ printed name bs ++ printed name cs
printed-append name [] cs = refl
printed-append name (b ∷ bs) cs = simp (printed-append name bs cs, append_assoc)

-- The state that stands for a depth and a list of pending commands.
pub record Represents (m : TaskManager) (c : Pending) : Type 0 where
  pub level : m.dynamic_block_nesting_level ≡ pos c.depth
  pub statics : m.static_block_task ≡ (if c.depth == 0 then c.commands else [])
  pub dynamics : m.dynamic_block_task ≡ (if c.depth == 0 then [] else c.commands)
  pub counted : m.task_count ≡ length m.static_block_task
  pub room : length m.static_block_task < m.max_static_task_count

-- `m'` follows `m` by putting out `bs`, and stands for `c`.
pub record Follows (p : Platform) (m m' : TaskManager) (c : Pending) (bs : List (List Text))
    : Type 0 where
  pub stands : Represents m' c
  pub shown : m'.console ≡ m.console ++ printed (p.filename m.task_manager_name) bs
  pub same_name : m'.task_manager_name ≡ m.task_manager_name
  pub same_size : m'.max_static_task_count ≡ m.max_static_task_count
  pub same_flag : m'.stop_flag ≡ m.stop_flag

mod-suc : (n k : ℕ) → n < k → ((n + 1) % k == 0) ≡ leb k (n + 1)
mod-suc n k h = grind arith

module _ (p : Platform) (now : ℕ) where
  open_block-Follows :
      (m : TaskManager) (c : Pending) (task : Text)
      → Represents m c
      → is_open task ≡ true
      → Follows p m
          (open_block p now always m).0
          (collect m.max_static_task_count task c).0
          (collect m.max_static_task_count task c).1
  unfolding open_block collect
  open_block-Follows m c task r e = ground (
    arith,
    append-nil m.console,
    append-nil (render (p.filename m.task_manager_name) c.commands),
    pos-add-one c.depth,
  )

  add_command-Follows :
      (m : TaskManager) (c : Pending) (task : Text) (ret : ℤ)
      → Represents m c
      → is_open task ≡ false
      → (is_close task && ltb 0 c.depth) ≡ false
      → Follows p m
          (add_command p now always task (m, ret)).0
          (collect m.max_static_task_count task c).0
          (collect m.max_static_task_count task c).1
  unfolding add_command collect
  add_command-Follows m c task ret r e f = ground (
    arith,
    append-nil m.console,
    append-nil (render (p.filename m.task_manager_name) (snoc c.commands task)),
    mod-suc (length c.commands) m.max_static_task_count,
    length-snoc c.commands task,
    is_empty-snoc c.commands task,
  )

  -- With no block open a `}` is a command.
  close_block-stray :
      (m : TaskManager) (task : Text)
      → m.dynamic_block_nesting_level ≡ pos 0
      → m.dynamic_block_task ≡ []
      → close_block p now always task m
        ≡ add_command p now always task (record m { dynamic_block_nesting_level = pos 0 }, pos 0)
  unfolding close_block
  close_block-stray m task e f = ground (arith, zero-sub-one)

  close_block-inner :
      (m : TaskManager) (task : Text) (d : ℕ)
      → m.dynamic_block_nesting_level ≡ pos (suc (suc d))
      → close_block p now always task m
        ≡ (record m { dynamic_block_nesting_level = pos (suc d) }, pos 0)
  unfolding close_block
  close_block-inner m task d e = ground (arith, pos-sub-one (suc (suc d)))

  -- The end of the outermost block hands the vector to `process_tasks`.
  close_block-last :
      (m : TaskManager) (task : Text)
      → m.dynamic_block_nesting_level ≡ pos 1
      → (close_block p now always task m).0
        ≡ (process_tasks p always dynamic_block
            (record m { dynamic_block_nesting_level = pos 0 })).0
  unfolding close_block process_tasks
  close_block-last m task e = ground (arith, pos-sub-one 1)

  process_tasks-dynamic :
      (m : TaskManager) (c : Pending) (task : Text)
      → Represents m c
      → c.depth ≡ 1
      → Follows p m
          (process_tasks p always dynamic_block
            (record m { dynamic_block_nesting_level = pos 0 })).0
          nothing_pending
          (emit c.commands)
  unfolding process_tasks
  process_tasks-dynamic m c task r e =
      ground (
        arith,
        append-nil m.console,
        append-nil (render (p.filename m.task_manager_name) c.commands),
      )

  close_block-nested :
      (m : TaskManager) (c : Pending) (task : Text) (n : ℕ)
      → Represents m c
      → is_open task ≡ false
      → is_close task ≡ true
      → c.depth ≡ suc n
      → Follows p m
          (close_block p now always task m).0
          (collect m.max_static_task_count task c).0
          (collect m.max_static_task_count task c).1
  unfolding collect
  close_block-nested m c task zero r e f h =
      rw (close_block-last m task (ground (arith, r.level)), e, f, h)
        (process_tasks-dynamic m c task r h)
  close_block-nested m c task (suc d) r e f h =
      rw (close_block-inner m task d (ground (arith, r.level)), e, f, h)
        (ground (arith, append-nil m.console))

  close_block-Follows :
      (m : TaskManager) (c : Pending) (task : Text)
      → Represents m c
      → is_open task ≡ false
      → is_close task ≡ true
      → Follows p m
          (close_block p now always task m).0
          (collect m.max_static_task_count task c).0
          (collect m.max_static_task_count task c).1
  close_block-Follows m c task r e f = elim (dec_lt 0 c.depth) [
    | yes nested ↦ close_block-nested m c task (c.depth - 1) r e f (omega arith)
    | no outer ↦
        rw (close_block-stray m task (ground (arith, r.level)) (ground (arith, r.dynamics))) (
          let f' =
            add_command-Follows (record m { dynamic_block_nesting_level = pos 0 }) c task (pos 0)
              (record {
                level = ground arith;
                statics = r.statics;
                dynamics = r.dynamics;
                counted = r.counted;
                room = r.room;
              })
              e (ground arith) in
          record {
            stands = f'.stands;
            shown = f'.shown;
            same_name = f'.same_name;
            same_size = f'.same_size;
            same_flag = f'.same_flag;
          })
  ]

  -- One line, whatever it is.
  add_task-Follows :
      (m : TaskManager) (c : Pending) (task : Text)
      → Represents m c
      → Follows p m
          (add_task p now always task m).0
          (collect m.max_static_task_count task c).0
          (collect m.max_static_task_count task c).1
  unfolding add_task
  add_task-Follows m c task r = elim (Bool-cases (is_open task)) [
    | inl e ↦ rw e (open_block-Follows m c task r e)
    | inr e ↦ elim (Bool-cases (is_close task)) [
      | inl f ↦ rw (e, f) (close_block-Follows m c task r e f)
      | inr f ↦ rw (e, f) (add_command-Follows m c task (pos 0) r e (ground arith))
    ]
  ]

-- Lines, each with the clock as it is handled, while no signal arrives.
abbrev pub undisturbed : List (Text × ℕ) → List Line
undisturbed [] = []
undisturbed ((t, now) ∷ ls) =
    record { text = t; now = now; opens = always; stops = false } ∷ undisturbed ls

abbrev pub texts : List (Text × ℕ) → List Text
texts [] = []
texts ((t, now) ∷ ls) = t ∷ texts ls

Follows-trans :
    (p : Platform) (m m' m'' : TaskManager) (c' c'' : Pending) (bs cs : List (List Text))
    → Follows p m m' c' bs
    → Follows p m' m'' c'' cs
    → Follows p m m'' c'' (bs ++ cs)
Follows-trans p m m' m'' c' c'' bs cs f g = record {
  stands = g.stands;
  shown = rw (g.shown, f.shown, f.same_name, printed-append, append_assoc);
  same_name = g.same_name ∙ f.same_name;
  same_size = g.same_size ∙ f.same_size;
  same_flag = g.same_flag ∙ f.same_flag;
}

pub run-cons :
    (p : Platform) (t : Text) (now : ℕ) (ls : List (Text × ℕ)) (m : TaskManager)
    → m.stop_flag ≡ false
    → run p (undisturbed ((t, now) ∷ ls)) m ≡ run p (undisturbed ls) (add_task p now always t m).0
unfolding run
run-cons p t now ls m e = ground arith

run-Follows :
    (p : Platform) (size : ℕ) (ls : List (Text × ℕ)) (m : TaskManager) (c : Pending)
    → m.max_static_task_count ≡ size
    → Represents m c
    → m.stop_flag ≡ false
    → Follows p m
        (run p (undisturbed ls) m)
        (collect_all size (texts ls) c).0
        (collect_all size (texts ls) c).1
unfolding run collect_all
run-Follows p size [] m c s r e = record {
  stands = r;
  shown = rw (append-nil m.console);
  same_name = refl;
  same_size = refl;
  same_flag = refl;
}
run-Follows p size ((t, now) ∷ ls) m c s r e = rw (run-cons p t now ls m e) (
    Follows-trans p m _ _ _ _ _ _ first (
      run-Follows p size ls (add_task p now always t m).0 (collect size t c).0 (first.same_size ∙ s)
        first.stands (first.same_flag ∙ e)))
  where
    first : Follows p m (add_task p now always t m).0 (collect size t c).0 (collect size t c).1
    first =
        subst (λ k. Follows p m (add_task p now always t m).0 (collect k t c).0 (collect k t c).1) s
          (add_task-Follows p now m c t r)

finish-shown :
    (p : Platform) (m : TaskManager) (c : Pending)
    → Represents m c
    → (finish p always m).console
      ≡ m.console ++ printed (p.filename m.task_manager_name) (leftover c)
unfolding finish
finish-shown p m c r =
    ground
      (arith, append-nil m.console, append-nil (render (p.filename m.task_manager_name) c.commands))

-- With a positive size, while every log file can be opened and no signal arrives, a session from
-- construction to destruction prints exactly the blocks that are promised for its lines, in order,
-- whatever the clock shows.
pub session-blocks :
    (p : Platform) (size : ℕ) (name : Text) (ls : List (Text × ℕ))
    → 0 < size
    → (finish p always (run p (undisturbed ls) (task_manager size name))).console
      ≡ printed (p.filename name) (blocks size (texts ls))
unfolding task_manager blocks
session-blocks p size name ls h =
    let m = task_manager size name in
    let f =
      run-Follows p size ls m nothing_pending refl
        (record { level = refl; statics = refl; dynamics = refl; counted = refl; room = h }) refl in
    finish-shown p (run p (undisturbed ls) m) _ f.stands ∙ rw (f.shown, f.same_name, printed-append)
