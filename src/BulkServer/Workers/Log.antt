-- ===== src/BulkServer/Workers/Log.antt =====
-- What `log_worker` of HW_10/lib/async.cpp has printed.
use cplus_plus_developer_pro.Prelude.{
  ℕ, ◌≡◌, refl, sym, ◌∙◌, Bool, true, false, some, List, [], ◌∷◌, ◌++◌, if◌then◌else◌, is_empty,
  snoc, arith, append-nil, append_assoc,
}
use cplus_plus_developer_pro.Prelude.Text.{Text}
use cplus_plus_developer_pro.BulkServer.{OutputTask}
use cplus_plus_developer_pro.BulkServer.Workers.{
  Worker, idle, holds, ended, Disk, Workers, take, print_task, log_task, file_task, Step, pushes,
  terminates, log_takes, log_prints, file1_takes, file1_writes, file2_takes, file2_writes, Reach,
  Reach-keeps, started,
}

-- The lines for some tasks, those without commands left out.
abbrev pub shown : Text → List OutputTask → Text
shown name [] = []
shown name (t ∷ ts) = (if is_empty t.commands then [] else print_task name t) ++ shown name ts

shown-append :
    (name : Text) (ts us : List OutputTask) → shown name (ts ++ us) ≡ shown name ts ++ shown name us
shown-append name [] us = refl
shown-append name (t ∷ ts) us = simp (shown-append name ts us, append_assoc)

-- What a thread still has to put out.
abbrev pub in_hand : Worker → List OutputTask
in_hand idle = []
in_hand (holds t) = t ∷ []
in_hand ended = []

abbrev pub has_ended : Worker → Bool
has_ended idle = false
has_ended (holds t) = false
has_ended ended = true

record IsLogged (d : Disk) (s : Workers) : Type 0 where
  all_there :
      s.console ++ shown d.name (in_hand s.log_thread ++ s.log_queue) ≡ shown d.name s.pushed
  stopped : has_ended s.log_thread ≡ true → s.should_terminate ≡ true
  drained : has_ended s.log_thread ≡ true → s.log_queue ≡ []

pub take-in_hand :
    (stop : Bool) (q r : List OutputTask) (w : Worker)
    → take stop q ≡ some (w, r)
    → (in_hand w ++ r ≡ q) × (has_ended w ≡ true → stop ≡ true) × (has_ended w ≡ true → r ≡ [])
unfolding take
take-in_hand stop [] r w e = ground arith
take-in_hand stop (t ∷ q) r w e = ground arith

module _ (d : Disk) where
  pushes-IsLogged :
      (task : OutputTask) (s : Workers)
      → s.should_terminate ≡ false
      → IsLogged d s
      → IsLogged d (record s {
        log_queue = snoc s.log_queue task;
        file_queue = snoc s.file_queue task;
        pushed = snoc s.pushed task;
      })
  pushes-IsLogged task s e h = record {
    all_there =
        rw
          (
            ← append_assoc (in_hand s.log_thread) s.log_queue (task ∷ []),
            shown-append d.name (in_hand s.log_thread ++ s.log_queue) (task ∷ []),
            ← append_assoc s.console (shown d.name (in_hand s.log_thread ++ s.log_queue))
                (shown d.name (task ∷ [])),
            h.all_there,
            shown-append d.name s.pushed (task ∷ []),
          )
          refl;
    stopped = h.stopped;
    drained = λ g. cc (e, h.stopped g);
  }

  takes-IsLogged :
      (w : Worker) (q : List OutputTask) (s : Workers)
      → s.log_thread ≡ idle
      → take s.should_terminate s.log_queue ≡ some (w, q)
      → IsLogged d s
      → IsLogged d (record s { log_queue = q; log_thread = w })
  takes-IsLogged w q s i e h =
      let taken = take-in_hand s.should_terminate s.log_queue q w e in
      record { all_there = rw taken.0 (rw i at h.all_there); stopped = taken.1; drained = taken.2 }

  prints-IsLogged :
      (task : OutputTask) (s : Workers)
      → s.log_thread ≡ holds task
      → IsLogged d s
      → IsLogged d (record s { console = log_task d.name task s.console; log_thread = idle })
  unfolding log_task
  prints-IsLogged task s i h = record {
    all_there = printed (is_empty task.commands) refl;
    stopped = λ g. cc;
    drained = λ g. cc;
  }
    where
      before : s.console ++ shown d.name (task ∷ s.log_queue) ≡ shown d.name s.pushed
      before = rw i at h.all_there

      printed :
          (b : Bool)
          → is_empty task.commands ≡ b
          → log_task d.name task s.console ++ shown d.name s.log_queue ≡ shown d.name s.pushed
      printed true e = rw e (rw e at before)
      printed false e =
          rw (e, append_assoc s.console (print_task d.name task) (shown d.name s.log_queue))
            (rw e at before)

  -- The file workers leave all of this as it is.
  other-IsLogged :
      (s s' : Workers)
      → s'.console ≡ s.console
      → s'.log_thread ≡ s.log_thread
      → s'.log_queue ≡ s.log_queue
      → s'.pushed ≡ s.pushed
      → s'.should_terminate ≡ s.should_terminate
      → IsLogged d s
      → IsLogged d s'
  other-IsLogged s s' a b c e f h = record {
    all_there = rw (a, b, c, e) h.all_there;
    stopped = rw (b, f) h.stopped;
    drained = rw (b, c) h.drained;
  }

  file_task-quiet :
      (k : ℕ) (task : OutputTask) (s : Workers)
      → let s' = file_task d k task s in
        (s'.console ≡ s.console)
        × (s'.log_thread ≡ s.log_thread)
        × (s'.log_queue ≡ s.log_queue)
        × (s'.pushed ≡ s.pushed)
        × (s'.should_terminate ≡ s.should_terminate)
  unfolding file_task
  file_task-quiet k task s = ground arith

  file_task-IsLogged :
      (k : ℕ) (task : OutputTask) (s : Workers) → IsLogged d s → IsLogged d (file_task d k task s)
  file_task-IsLogged k task s h =
      let (a, b, c, e, f) = file_task-quiet k task s in
      other-IsLogged s (file_task d k task s) a b c e f h

  Step-IsLogged : (s t : Workers) → Step d s t → IsLogged d s → IsLogged d t
  Step-IsLogged s t (pushes task e r) h = rw r (pushes-IsLogged task s e h)
  Step-IsLogged s t (terminates r) h =
      rw r (record { all_there = h.all_there; stopped = λ g. refl; drained = h.drained })
  Step-IsLogged s t (log_takes w q i e r) h = rw r (takes-IsLogged w q s i e h)
  Step-IsLogged s t (log_prints task i r) h = rw r (prints-IsLogged task s i h)
  Step-IsLogged s t (file1_takes w q i e r) h = rw r (other-IsLogged s _ refl refl refl refl refl h)
  Step-IsLogged s t (file1_writes task i r) h = rw r (
      other-IsLogged (file_task d 1 task s) _ refl refl refl refl refl
        (file_task-IsLogged 1 task s h))
  Step-IsLogged s t (file2_takes w q i e r) h = rw r (other-IsLogged s _ refl refl refl refl refl h)
  Step-IsLogged s t (file2_writes task i r) h = rw r (
      other-IsLogged (file_task d 2 task s) _ refl refl refl refl refl
        (file_task-IsLogged 2 task s h))

  -- However the threads and the program take turns, from the start of the threads: once the log
  -- worker has ended, the console shows every task that was pushed, each once and in the order in
  -- which they were pushed, those without commands left out.
  pub Reach-printed :
      {s : Workers}
      → Reach d started s
      → has_ended s.log_thread ≡ true
      → s.console ≡ shown d.name s.pushed
  Reach-printed {s} r e = finished s.log_thread refl e
    where
      held : IsLogged d s
      held =
          Reach-keeps d (IsLogged d) Step-IsLogged r
            (record { all_there = refl; stopped = λ g. cc; drained = λ g. cc })

      finished :
          (w : Worker) → s.log_thread ≡ w → has_ended w ≡ true → s.console ≡ shown d.name s.pushed
      finished idle i g = cc
      finished (holds t) i g = cc
      finished ended i g = sym (append-nil s.console) ∙ (rw (i, held.drained e) at held.all_there)
