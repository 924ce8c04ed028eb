-- ===== src/Async/Workers/Conservation.antt =====
-- HW_9/lib/async.cpp: no task is lost or put out twice, in whatever order the workers run.
use cplus_plus_developer_pro.Prelude.{
  ℕ, ◌≡◌, refl, sym, ap, ◌∙◌, Bool, true, false, Option, none, some, List, [], ◌∷◌, ◌++◌,
  if◌then◌else◌, is_empty, append-nil, append_assoc, inl, inr, Bool-cases, Option-cases,
}
use cplus_plus_developer_pro.Prelude.Text.{Text}
use cplus_plus_developer_pro.Async.{OutputTask, push_task}
use cplus_plus_developer_pro.Async.Workers.{
  Worker, waiting, holds, ended, LogFile, Pool, take_task, commands_line, with_log_task,
  with_file_task, first_of, second_of, log_worker, write_file, file_worker, Event, logs,
  files_first, files_second, pushes, terminates, step, steps,
}

abbrev pub in_hand : Worker → List OutputTask
in_hand waiting = []
in_hand (holds task) = task ∷ []
in_hand ended = []

-- The tasks that the log worker still has to print.
abbrev pub log_left : Pool → List OutputTask
log_left p = in_hand p.log_thread ++ p.queues.log_queue

abbrev pub pushed : List Event → List OutputTask
pushed [] = []
pushed (logs ∷ es) = pushed es
pushed (files_first ∷ es) = pushed es
pushed (files_second ∷ es) = pushed es
pushed (pushes task ∷ es) = task ∷ pushed es
pushed (terminates ∷ es) = pushed es

-- The lines of tasks; a task without commands has none.
abbrev pub shown : List OutputTask → List Text
shown [] = []
shown (task ∷ ts) = if is_empty task.commands then shown ts else commands_line task ∷ shown ts

shown-append : (ts us : List OutputTask) → shown (ts ++ us) ≡ shown ts ++ shown us
shown-append [] us = refl
shown-append (t ∷ ts) us = elim (Bool-cases (is_empty t.commands)) [
  | inl e ↦ rw e (shown-append ts us)
  | inr e ↦ rw e (ap (λ ls. commands_line t ∷ ls) (shown-append ts us))
]

-- What holds of the pool after a step, if the step can be taken.
abbrev pub Then {ℓ} : (Pool → Type ℓ) → Option Pool → Type ℓ
Then P none = Unit
Then P (some p) = P p

pub Then-some {ℓ} : (P : Pool → Type ℓ) {o : Option Pool} (p : Pool) → Then P o → o ≡ some p → P p
Then-some P p h e = rw e at h

pub Then-map {ℓ κ} :
    {P : Pool → Type ℓ} {Q : Pool → Type κ}
    → ((p : Pool) → P p → Q p)
    → (o : Option Pool) → Then P o
    → Then Q o
Then-map f none h = tt
Then-map f (some p) h = f p h

-- A worker that takes the first task has it in hand.
abbrev pub Fits : List OutputTask → Option (Worker × List OutputTask) → Type 0
Fits queue none = Unit
Fits queue (some (w, queue')) = in_hand w ++ queue' ≡ queue

pub take_task-Fits : (queue : List OutputTask) (b : Bool) → Fits queue (take_task queue b)
take_task-Fits [] true = refl
take_task-Fits [] false = tt
take_task-Fits (t ∷ queue) b = refl

-- What is printed, and is to be printed by a worker in a state.
abbrev printing : Pool → Worker → List Text
printing p w = p.output ++ shown (in_hand w ++ p.queues.log_queue)

with_log_task-printing :
    (p : Pool) (o : Option (Worker × List OutputTask))
    → Fits p.queues.log_queue o
    → Then (λ p'. printing p' p'.log_thread ≡ printing p waiting) (with_log_task p o)
with_log_task-printing p none e = tt
with_log_task-printing p (some (w, queue)) e = ap (λ ts. p.output ++ shown ts) e

log_worker-printing :
    (p : Pool) (w : Worker) → Then (λ p'. printing p' p'.log_thread ≡ printing p w) (log_worker p w)
unfolding log_worker
log_worker-printing p waiting =
    with_log_task-printing p (take_task p.queues.log_queue p.should_terminate)
      (take_task-Fits p.queues.log_queue p.should_terminate)
log_worker-printing p (holds t) = elim (Bool-cases (is_empty t.commands)) [
  | inl e ↦ rw e
  | inr e ↦ rw e (append_assoc p.output (commands_line t ∷ []) (shown p.queues.log_queue))
]
log_worker-printing p ended = tt

-- What a step of a file worker leaves as it was.
abbrev pub IsFramed : Pool → Option (Worker × Pool) → Type 0
IsFramed p none = Unit
IsFramed p (some (w, p')) =
    (p'.output ≡ p.output)
    × (p'.log_thread ≡ p.log_thread)
    × (p'.queues.log_queue ≡ p.queues.log_queue)
    × (p'.file_thread1 ≡ p.file_thread1)
    × (p'.file_thread2 ≡ p.file_thread2)
    × (p'.should_terminate ≡ p.should_terminate)

with_file_task-IsFramed :
    (p : Pool) (o : Option (Worker × List OutputTask)) → IsFramed p (with_file_task p o)
with_file_task-IsFramed p none = tt
with_file_task-IsFramed p (some (w, queue)) = (refl, refl, refl, refl, refl, refl)

module _ (seconds : ℕ → ℕ) (opens : LogFile → Bool) where
  pub file_worker-IsFramed :
      (id : ℕ) (p : Pool) (w : Worker) → IsFramed p (file_worker seconds opens id p w)
  unfolding file_worker write_file
  file_worker-IsFramed id p waiting =
      with_file_task-IsFramed p (take_task p.queues.file_queue p.should_terminate)
  file_worker-IsFramed id p (holds t) = elim (Bool-cases (is_empty t.commands)) [
    | inl e ↦ rw e (refl, refl, refl, refl, refl, refl)
    | inr e ↦ rw e (refl, refl, refl, refl, refl, refl)
  ]
  file_worker-IsFramed id p ended = tt

  -- What is printed and to be printed, after one step.
  abbrev Prints : Event → Pool → Option Pool → Type 0
  Prints e p o =
      Then (λ p'. printing p' p'.log_thread ≡ printing p p.log_thread ++ shown (pushed (e ∷ []))) o

  first_of-Prints :
      (p : Pool) (o : Option (Worker × Pool)) → IsFramed p o → Prints files_first p (first_of o)
  first_of-Prints p none f = tt
  first_of-Prints p (some (w, p')) (a, b, c, d, d', e) =
      rw (a, b, c) (sym (append-nil (printing p p.log_thread)))

  second_of-Prints :
      (p : Pool) (o : Option (Worker × Pool)) → IsFramed p o → Prints files_second p (second_of o)
  second_of-Prints p none f = tt
  second_of-Prints p (some (w, p')) (a, b, c, d, d', e) =
      rw (a, b, c) (sym (append-nil (printing p p.log_thread)))

  logs-Prints :
      (p : Pool) (o : Option Pool)
      → Then (λ p'. printing p' p'.log_thread ≡ printing p p.log_thread) o
      → Prints logs p o
  logs-Prints p none e = tt
  logs-Prints p (some p') e = e ∙ sym (append-nil (printing p p.log_thread))

  step-Prints : (e : Event) (p : Pool) → Prints e p (step seconds opens e p)
  unfolding step push_task
  step-Prints logs p =
      logs-Prints p (log_worker p p.log_thread) (log_worker-printing p p.log_thread)
  step-Prints files_first p =
      first_of-Prints p (file_worker seconds opens 1 p p.file_thread1)
        (file_worker-IsFramed 1 p p.file_thread1)
  step-Prints files_second p =
      second_of-Prints p (file_worker seconds opens 2 p p.file_thread2)
        (file_worker-IsFramed 2 p p.file_thread2)
  step-Prints (pushes t) p =
      let hand = in_hand p.log_thread in
      ap (λ ts. p.output ++ shown ts) (sym (append_assoc hand p.queues.log_queue (t ∷ [])))
      ∙ ap (λ ls. p.output ++ ls) (shown-append (hand ++ p.queues.log_queue) (t ∷ []))
      ∙ sym (append_assoc p.output (shown (hand ++ p.queues.log_queue)) (shown (t ∷ [])))
  step-Prints terminates p = sym (append-nil (printing p p.log_thread))

  shown-pushed :
      (e : Event) (es : List Event)
      → shown (pushed (e ∷ es)) ≡ shown (pushed (e ∷ [])) ++ shown (pushed es)
  shown-pushed logs es = refl
  shown-pushed files_first es = refl
  shown-pushed files_second es = refl
  shown-pushed (pushes t) es = shown-append (t ∷ []) (pushed es)
  shown-pushed terminates es = refl

  -- The lines of a first event and of those after it.
  printing-then :
      (e : Event) (es : List Event) (p p' : Pool)
      → printing p' p'.log_thread ≡ printing p p.log_thread ++ shown (pushed (e ∷ []))
      → printing p' p'.log_thread ++ shown (pushed es)
        ≡ printing p p.log_thread ++ shown (pushed (e ∷ es))
  printing-then e es p p' now =
      ap (λ ls. ls ++ shown (pushed es)) now
      ∙ append_assoc (printing p p.log_thread) (shown (pushed (e ∷ []))) (shown (pushed es))
      ∙ ap (λ ls. printing p p.log_thread ++ ls) (sym (shown-pushed e es))

  steps-printing :
      (es : List Event) (p : Pool)
      → Then
          (λ p'. printing p' p'.log_thread ≡ printing p p.log_thread ++ shown (pushed es))
          (steps seconds opens es p)
  unfolding steps
  steps-printing [] p = sym (append-nil (printing p p.log_thread))
  steps-printing (e ∷ es) p = elim (Option-cases (step seconds opens e p)) [
    | inl n ↦ rw (steps, n) tt
    | inr (p', s) ↦
        let all = printing-then e es p p' (Then-some _ p' (step-Prints e p) s) in
        rw (steps, s)
          (Then-map (λ p'' h. h ∙ all) (steps seconds opens es p') (steps-printing es p'))
  ]

  -- In every order of the steps of the workers and of the tasks that are pushed, what the log worker
  -- has printed and the lines of what it has in hand and of its queue are, in order and each once, what
  -- they were at first and then the lines of the tasks that were pushed.
  pub log_in_order :
      (es : List Event) (p p' : Pool)
      → steps seconds opens es p ≡ some p'
      → p'.output ++ shown (log_left p') ≡ (p.output ++ shown (log_left p)) ++ shown (pushed es)
  log_in_order es p p' run = Then-some _ p' (steps-printing es p) run
