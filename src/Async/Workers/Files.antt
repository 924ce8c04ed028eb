-- ===== src/Async/Workers/Files.antt =====
-- HW_9/lib/async.cpp: each task with commands gives one file, whichever file worker takes it.
use cplus_plus_developer_pro.Prelude.{
  ℕ, ◌≡◌, ◌+◌, refl, sym, ap, ◌∙◌, Bool, true, false, Option, none, some, List, [], ◌∷◌, ◌++◌,
  if◌then◌else◌, snoc, is_empty, arith, ◌<◌, All, inl, inr, Bool-cases, Option-cases,
}
use cplus_plus_developer_pro.Prelude.Text.{Text}
use cplus_plus_developer_pro.Async.{OutputTask, push_task}
use cplus_plus_developer_pro.Async.Workers.{
  Worker, waiting, holds, ended, LogFile, Pool, take_task, commands_line, with_log_task,
  with_file_task, first_of, second_of, log_worker, file_of, write_file, file_worker, Event, logs,
  files_first, files_second, pushes, terminates, step, steps, write_to, same_name,
}
use cplus_plus_developer_pro.Async.Workers.Conservation.{
  in_hand, pushed, Then, Then-some, Then-map, Fits, take_task-Fits, IsFramed, file_worker-IsFramed,
}

-- Every file has a number below the given one.
abbrev pub IsBelow : ℕ → List LogFile → Type 0
IsBelow n fs = All (λ f. f.file_counter < n) fs

abbrev IsNumbered : Pool → Type 0
IsNumbered p = IsBelow p.file_counter p.files

IsBelow-suc : (n : ℕ) (fs : List LogFile) → IsBelow n fs → IsBelow (n + 1) fs
IsBelow-suc n [] h = tt
IsBelow-suc n (f ∷ fs) h = (omega (arith, h.0), IsBelow-suc n fs h.1)

other_number : (f g : LogFile) → f.file_counter < g.file_counter → same_name f g ≡ false
other_number f g h = ground (arith, h)

write_to_new :
    (f : LogFile) (fs : List LogFile) → IsBelow f.file_counter fs → write_to f fs ≡ snoc fs f
unfolding write_to
write_to_new f [] h = refl
write_to_new f (g ∷ fs) h = rw (other_number g f h.0) (ap (λ gs. g ∷ gs) (write_to_new f fs h.1))

snoc-IsBelow :
    (f : LogFile) (fs : List LogFile)
    → IsBelow f.file_counter fs
    → IsBelow (f.file_counter + 1) (snoc fs f)
snoc-IsBelow f [] h = (omega arith, tt)
snoc-IsBelow f (g ∷ fs) h = (omega (arith, h.0), snoc-IsBelow f fs h.1)

abbrev one_if : Bool → ℕ
one_if true = 1
one_if false = 0

-- The files of a kind, and the tasks that are to give such a file.
module _ (seconds : ℕ → ℕ) (opens : LogFile → Bool)
    (kind : (timestamp_seconds context_id : ℕ) → Text → Bool) where
  abbrev pub count_files : List LogFile → ℕ
  count_files [] = 0
  count_files (f ∷ fs) = one_if (kind f.timestamp_seconds f.context_id f.text) + count_files fs

  abbrev weight : OutputTask → ℕ
  weight t =
      if is_empty t.commands
      then 0
      else one_if (kind (seconds t.timestamp) t.context_id (snoc (commands_line t) 10))

  abbrev pub count_tasks : List OutputTask → ℕ
  count_tasks [] = 0
  count_tasks (t ∷ ts) = weight t + count_tasks ts

  -- What the file workers have in hand, and their queue.
  abbrev pub count_left : Pool → ℕ
  count_left p =
      count_tasks (in_hand p.file_thread1)
      + (count_tasks (in_hand p.file_thread2) + count_tasks p.queues.file_queue)

  count_files-snoc :
      (fs : List LogFile) (f : LogFile)
      → count_files (snoc fs f)
        ≡ count_files fs + one_if (kind f.timestamp_seconds f.context_id f.text)
  count_files-snoc [] f = omega arith
  count_files-snoc (g ∷ fs) f = omega (arith, count_files-snoc fs f)

  count_tasks-append :
      (ts us : List OutputTask) → count_tasks (ts ++ us) ≡ count_tasks ts + count_tasks us
  count_tasks-append [] us = omega arith
  count_tasks-append (t ∷ ts) us = omega (arith, count_tasks-append ts us)

  -- A step of a file worker moves a task from the queue to its hand, or into a file.
  abbrev IsBalanced : Pool → Worker → Option (Worker × Pool) → Type 0
  IsBalanced p w none = Unit
  IsBalanced p w (some (w', p')) =
      (count_files p'.files + (count_tasks (in_hand w') + count_tasks p'.queues.file_queue)
        ≡ count_files p.files + (count_tasks (in_hand w) + count_tasks p.queues.file_queue))
      × IsNumbered p'

  with_file_task-IsBalanced :
      (p : Pool) (o : Option (Worker × List OutputTask))
      → IsNumbered p
      → Fits p.queues.file_queue o
      → IsBalanced p waiting (with_file_task p o)
  with_file_task-IsBalanced p none num e = tt
  with_file_task-IsBalanced p (some (w, queue)) num e =
      let all = sym (count_tasks-append (in_hand w) queue) ∙ ap count_tasks e in
      (omega (arith, all), num)

  file_worker-IsBalanced :
      ((f : LogFile) → opens f ≡ true)
      → (id : ℕ) (p : Pool) (w : Worker) → IsNumbered p
      → IsBalanced p w (file_worker seconds opens id p w)
  unfolding file_worker write_file
  file_worker-IsBalanced all id p waiting num =
      with_file_task-IsBalanced p (take_task p.queues.file_queue p.should_terminate) num
        (take_task-Fits p.queues.file_queue p.should_terminate)
  file_worker-IsBalanced all id p (holds t) num =
      let file = file_of seconds opens id p.file_counter t in
      elim (Bool-cases (is_empty t.commands)) [
        | inl e ↦ rw e (omega arith, num)
        | inr e ↦
            rw (e, all file, write_to_new file p.files num)
              (omega (arith, count_files-snoc p.files file), snoc-IsBelow file p.files num)
      ]
  file_worker-IsBalanced all id p ended num = tt

  abbrev total : Pool → ℕ
  total p = count_files p.files + count_left p

  abbrev Counts : Event → Pool → Option Pool → Type 0
  Counts e p o = Then (λ p'. (total p' ≡ total p + count_tasks (pushed (e ∷ []))) × IsNumbered p') o

  first_of-Counts :
      (p : Pool) (o : Option (Worker × Pool))
      → IsFramed p o
      → IsBalanced p p.file_thread1 o
      → Counts files_first p (first_of o)
  first_of-Counts p none f b = tt
  first_of-Counts p (some (w, p')) (a, a', a'', c, d, d') (b, num) = (rw d (omega (arith, b)), num)

  second_of-Counts :
      (p : Pool) (o : Option (Worker × Pool))
      → IsFramed p o
      → IsBalanced p p.file_thread2 o
      → Counts files_second p (second_of o)
  second_of-Counts p none f b = tt
  second_of-Counts p (some (w, p')) (a, a', a'', c, d, d') (b, num) = (rw c (omega (arith, b)), num)

  with_log_task-Counts :
      (p : Pool) (o : Option (Worker × List OutputTask))
      → IsNumbered p
      → Counts logs p (with_log_task p o)
  with_log_task-Counts p none num = tt
  with_log_task-Counts p (some (w, queue)) num = (omega arith, num)

  log_worker-Counts : (p : Pool) (w : Worker) → IsNumbered p → Counts logs p (log_worker p w)
  unfolding log_worker
  log_worker-Counts p waiting num =
      with_log_task-Counts p (take_task p.queues.log_queue p.should_terminate) num
  log_worker-Counts p (holds t) num = (omega arith, num)
  log_worker-Counts p ended num = tt

  step-Counts :
      ((f : LogFile) → opens f ≡ true)
      → (e : Event) (p : Pool) → IsNumbered p
      → Counts e p (step seconds opens e p)
  unfolding step push_task
  step-Counts all logs p num = log_worker-Counts p p.log_thread num
  step-Counts all files_first p num =
      first_of-Counts p (file_worker seconds opens 1 p p.file_thread1)
        (file_worker-IsFramed seconds opens 1 p p.file_thread1)
        (file_worker-IsBalanced all 1 p p.file_thread1 num)
  step-Counts all files_second p num =
      second_of-Counts p (file_worker seconds opens 2 p p.file_thread2)
        (file_worker-IsFramed seconds opens 2 p p.file_thread2)
        (file_worker-IsBalanced all 2 p p.file_thread2 num)
  step-Counts all (pushes t) p num =
      (omega (arith, count_tasks-append p.queues.file_queue (t ∷ [])), num)
  step-Counts all terminates p num = (omega arith, num)

  count_tasks-pushed :
      (e : Event) (es : List Event)
      → count_tasks (pushed (e ∷ es)) ≡ count_tasks (pushed (e ∷ [])) + count_tasks (pushed es)
  count_tasks-pushed logs es = omega arith
  count_tasks-pushed files_first es = omega arith
  count_tasks-pushed files_second es = omega arith
  count_tasks-pushed (pushes t) es = omega arith
  count_tasks-pushed terminates es = omega arith

  steps-total :
      ((f : LogFile) → opens f ≡ true)
      → (es : List Event) (p : Pool) → IsNumbered p
      → Then (λ p'. total p' ≡ total p + count_tasks (pushed es)) (steps seconds opens es p)
  unfolding steps
  steps-total all [] p num = omega arith
  steps-total all (e ∷ es) p num = elim (Option-cases (step seconds opens e p)) [
    | inl n ↦ rw (steps, n) tt
    | inr (p', s) ↦
        let (now, num') = Then-some _ p' (step-Counts all e p num) s in
        let cut = count_tasks-pushed e es in
        rw (steps, s)
          (Then-map (λ p'' h. omega (arith, h, now, cut)) (steps seconds opens es p')
            (steps-total all es p' num'))
  ]

  -- Where every file can be opened and the counter is above the numbers of the files, in every order of the steps of the workers and of the tasks that
  -- are pushed, the files of a kind (by the second, the context and the text) that are written and the
  -- tasks with commands that are left for the file workers and are to give such a file are as many as
  -- at first and those that were pushed: no task is lost and none is written twice.
  pub files_written_once :
      ((f : LogFile) → opens f ≡ true)
      → (es : List Event) (p p' : Pool) → IsBelow p.file_counter p.files
      → steps seconds opens es p ≡ some p'
      → count_files p'.files + count_left p'
        ≡ (count_files p.files + count_left p) + count_tasks (pushed es)
  files_written_once all es p p' num run = Then-some _ p' (steps-total all es p num) run
