-- ===== src/Async/Workers/Stopping.antt =====
-- HW_9/lib/async.cpp: a worker ends only when `stop_threads` has set the flag and its queue is empty.
use cplus_plus_developer_pro.Prelude.{
  ◌≡◌, refl, ap, ◌∙◌, Bool, true, false, Option, none, some, List, [], ◌∷◌, is_empty, inl, inr,
  Option-cases, Bool-cases,
}
use cplus_plus_developer_pro.Prelude.{ℕ, length, arith}
use cplus_plus_developer_pro.Async.{OutputTask, push_task}
use cplus_plus_developer_pro.Async.Workers.{
  Worker, waiting, holds, ended, LogFile, Pool, take_task, with_log_task, with_file_task, first_of,
  second_of, log_worker, write_file, file_worker, Event, logs, files_first, files_second, pushes,
  terminates, step, steps,
}
use cplus_plus_developer_pro.Async.Workers.Conservation.{
  Then, Then-some, Then-map, IsFramed, file_worker-IsFramed,
}

-- No task is pushed once the flag is set.
abbrev pub stops_last : Bool → List Event → Bool
stops_last flag [] = true
stops_last flag (logs ∷ es) = stops_last flag es
stops_last flag (files_first ∷ es) = stops_last flag es
stops_last flag (files_second ∷ es) = stops_last flag es
stops_last true (pushes task ∷ es) = false
stops_last false (pushes task ∷ es) = stops_last false es
stops_last flag (terminates ∷ es) = stops_last true es

abbrev pub IsDone : Bool → Worker → List OutputTask → Type 0
IsDone flag waiting queue = Unit
IsDone flag (holds task) queue = Unit
IsDone flag ended queue = (flag ≡ true) × (queue ≡ [])

-- The workers that have ended saw the flag and left no task.
pub record IsEnding (p : Pool) : Type 0 where
  pub log : IsDone p.should_terminate p.log_thread p.queues.log_queue
  pub file1 : IsDone p.should_terminate p.file_thread1 p.queues.file_queue
  pub file2 : IsDone p.should_terminate p.file_thread2 p.queues.file_queue

IsDone-tail :
    (b : Bool) (w : Worker) (t : OutputTask) (queue : List OutputTask)
    → IsDone b w (t ∷ queue)
    → IsDone b w queue
IsDone-tail b waiting t queue e = tt
IsDone-tail b (holds u) t queue e = tt
IsDone-tail b ended t queue e = absurd (omega (arith, ap length e.1))

IsDone-true :
    (b : Bool) (w : Worker) (queue : List OutputTask) → IsDone b w queue → IsDone true w queue
IsDone-true b waiting queue e = tt
IsDone-true b (holds u) queue e = tt
IsDone-true b ended queue e = (refl, e.1)

IsDone-push :
    (b : Bool) (w : Worker) (queue queue' : List OutputTask)
    → b ≡ false
    → IsDone b w queue
    → IsDone b w queue'
IsDone-push b waiting queue queue' f e = tt
IsDone-push b (holds u) queue queue' f e = tt
IsDone-push b ended queue queue' f e = cc (f, e.0)

-- A worker takes from the queue, beside the other one.
abbrev Takes :
    (b : Bool) (other : Worker) (queue : List OutputTask)
    → Option (Worker × List OutputTask)
    → Type 0
Takes b other queue none = Unit
Takes b other queue (some (w, queue')) = IsDone b w queue' × IsDone b other queue'

take_task-Takes :
    (other : Worker) (queue : List OutputTask) (b : Bool)
    → IsDone b other queue
    → Takes b other queue (take_task queue b)
take_task-Takes other [] true d = ((refl, refl), d)
take_task-Takes other [] false d = tt
take_task-Takes other (t ∷ queue) b d = (tt, IsDone-tail b other t queue d)

module _ (seconds : ℕ → ℕ) (opens : LogFile → Bool) where
  abbrev FileTakes : Pool → (other : Worker) → Option (Worker × Pool) → Type 0
  FileTakes p other none = Unit
  FileTakes p other (some (w', p')) =
      IsDone p.should_terminate w' p'.queues.file_queue
      × IsDone p.should_terminate other p'.queues.file_queue

  with_file_task-Takes :
      (p : Pool) (other : Worker) (o : Option (Worker × List OutputTask))
      → Takes p.should_terminate other p.queues.file_queue o
      → FileTakes p other (with_file_task p o)
  with_file_task-Takes p other none h = tt
  with_file_task-Takes p other (some (w, queue)) h = h

  file_worker-Takes :
      (id : ℕ) (p : Pool) (w other : Worker)
      → IsDone p.should_terminate other p.queues.file_queue
      → FileTakes p other (file_worker seconds opens id p w)
  unfolding file_worker write_file
  file_worker-Takes id p waiting other d =
      with_file_task-Takes p other (take_task p.queues.file_queue p.should_terminate)
        (take_task-Takes other p.queues.file_queue p.should_terminate d)
  file_worker-Takes id p (holds t) other d = elim (Bool-cases (is_empty t.commands)) [
    | inl e ↦ rw e (tt, d)
    | inr e ↦ rw e (tt, d)
  ]
  file_worker-Takes id p ended other d = tt

  -- A step of a worker leaves the flag.
  abbrev Keeps : Pool → Option Pool → Type 0
  Keeps p o = Then (λ p'. IsEnding p' × (p'.should_terminate ≡ p.should_terminate)) o

  first_of-Keeps :
      (p : Pool) (o : Option (Worker × Pool))
      → IsEnding p
      → IsFramed p o
      → FileTakes p p.file_thread2 o
      → Keeps p (first_of o)
  first_of-Keeps p none s f l = tt
  first_of-Keeps p (some (w, p')) s (a, b, c, d, d', e) (l, l') =
      (record { log = rw (b, c, e) s.log; file1 = rw e l; file2 = rw (d', e) l' }, e)

  second_of-Keeps :
      (p : Pool) (o : Option (Worker × Pool))
      → IsEnding p
      → IsFramed p o
      → FileTakes p p.file_thread1 o
      → Keeps p (second_of o)
  second_of-Keeps p none s f l = tt
  second_of-Keeps p (some (w, p')) s (a, b, c, d, d', e) (l, l') =
      (record { log = rw (b, c, e) s.log; file1 = rw (d, e) l'; file2 = rw e l }, e)

  with_log_task-Keeps :
      (p : Pool) (o : Option (Worker × List OutputTask))
      → IsEnding p
      → Takes p.should_terminate waiting p.queues.log_queue o
      → Keeps p (with_log_task p o)
  with_log_task-Keeps p none s h = tt
  with_log_task-Keeps p (some (w, queue)) s (l, l') =
      (record { log = l; file1 = s.file1; file2 = s.file2 }, refl)

  log_worker-Keeps : (p : Pool) (w : Worker) → IsEnding p → Keeps p (log_worker p w)
  unfolding log_worker
  log_worker-Keeps p waiting s =
      with_log_task-Keeps p (take_task p.queues.log_queue p.should_terminate) s
        (take_task-Takes waiting p.queues.log_queue p.should_terminate tt)
  log_worker-Keeps p (holds t) s = (record { log = tt; file1 = s.file1; file2 = s.file2 }, refl)
  log_worker-Keeps p ended s = tt

  -- What is known after an event.
  abbrev Goes : List Event → Option Pool → Type 0
  Goes es o = Then (λ p'. IsEnding p' × (stops_last p'.should_terminate es ≡ true)) o

  Keeps-Goes :
      (es : List Event) (p : Pool) (o : Option Pool)
      → stops_last p.should_terminate es ≡ true
      → Keeps p o
      → Goes es o
  Keeps-Goes es p o h k = Then-map (λ p' s. (s.0, ap (λ b. stops_last b es) (s.1) ∙ h)) o k

  step-Goes :
      (e : Event) (es : List Event) (p : Pool)
      → stops_last p.should_terminate (e ∷ es) ≡ true
      → IsEnding p
      → Goes es (step seconds opens e p)
  unfolding step push_task
  step-Goes logs es p h s =
      Keeps-Goes es p (log_worker p p.log_thread) h (log_worker-Keeps p p.log_thread s)
  step-Goes files_first es p h s =
      let o = file_worker seconds opens 1 p p.file_thread1 in
      Keeps-Goes es p (first_of o) h (
        first_of-Keeps p o s (file_worker-IsFramed seconds opens 1 p p.file_thread1)
          (file_worker-Takes 1 p p.file_thread1 p.file_thread2 s.file2))
  step-Goes files_second es p h s =
      let o = file_worker seconds opens 2 p p.file_thread2 in
      Keeps-Goes es p (second_of o) h (
        second_of-Keeps p o s (file_worker-IsFramed seconds opens 2 p p.file_thread2)
          (file_worker-Takes 2 p p.file_thread2 p.file_thread1 s.file1))
  step-Goes (pushes t) es p h s = elim (Bool-cases p.should_terminate) [
    | inl flag ↦ cc (ap (λ b. stops_last b (pushes t ∷ es)) flag, h)
    | inr flag ↦
        let q = p.queues in
        (
          record {
            log = IsDone-push p.should_terminate p.log_thread q.log_queue _ flag s.log;
            file1 = IsDone-push p.should_terminate p.file_thread1 q.file_queue _ flag s.file1;
            file2 = IsDone-push p.should_terminate p.file_thread2 q.file_queue _ flag s.file2;
          },
          rw flag (rw flag at h),
        )
  ]
  step-Goes terminates es p h s = (
    record {
      log = IsDone-true p.should_terminate p.log_thread p.queues.log_queue s.log;
      file1 = IsDone-true p.should_terminate p.file_thread1 p.queues.file_queue s.file1;
      file2 = IsDone-true p.should_terminate p.file_thread2 p.queues.file_queue s.file2;
    },
    h,
  )

  -- At every moment of a run in which no task is pushed once the flag is set, the workers that have
  -- ended saw the flag and left no task.
  pub steps-IsEnding :
      (es : List Event) (p : Pool)
      → stops_last p.should_terminate es ≡ true
      → IsEnding p
      → Then IsEnding (steps seconds opens es p)
  unfolding steps
  steps-IsEnding [] p h s = s
  steps-IsEnding (e ∷ es) p h s = elim (Option-cases (step seconds opens e p)) [
    | inl n ↦ rw (steps, n) tt
    | inr (p', run) ↦
        let (s', h') = Then-some _ p' (step-Goes e es p h s) run in
        rw (steps, run) (steps-IsEnding es p' h' s')
  ]
