-- ===== src/BulkServer/Workers/Files.antt =====
-- What the threads of `file_worker` of HW_10/lib/async.cpp have written.
use cplus_plus_developer_pro.Prelude.{
  ℕ, ◌+◌, ◌≡◌, refl, sym, ap, ◌∙◌, Bool, true, false, some, List, [], ◌∷◌, ◌++◌, if◌then◌else◌,
  is_empty, snoc, arith, inl, inr, Bool-cases,
}
use cplus_plus_developer_pro.Prelude.Text.{Text}
use cplus_plus_developer_pro.BulkServer.{OutputTask}
use cplus_plus_developer_pro.BulkServer.Workers.{
  Worker, idle, holds, ended, Disk, Workers, take, print_task, file_name, file_task, Step, pushes,
  terminates, log_takes, log_prints, file1_takes, file1_writes, file2_takes, file2_writes, Reach,
  Reach-keeps, started,
}
use cplus_plus_developer_pro.BulkServer.Workers.Names.{
  IsDecimal, IsBelow, number_in-file_name, write_file_new, write_file-IsBelow,
}
use cplus_plus_developer_pro.BulkServer.Workers.Log.{in_hand, has_ended, take-in_hand}

-- How many tasks have commands and give a line that passes a test.
abbrev pub count_tasks : (Text → Bool) → Text → List OutputTask → ℕ
count_tasks p name [] = 0
count_tasks p name (t ∷ ts) =
    (if is_empty t.commands then 0 else if p (print_task name t) then 1 else 0)
    + count_tasks p name ts

-- How many files have contents that pass a test.
abbrev pub count_files : (Text → Bool) → List (Text × Text) → ℕ
count_files p [] = 0
count_files p ((path, text) ∷ fs) = (if p text then 1 else 0) + count_files p fs

count_tasks-append :
    (p : Text → Bool) (name : Text) (ts us : List OutputTask)
    → count_tasks p name (ts ++ us) ≡ count_tasks p name ts + count_tasks p name us
count_tasks-append p name [] us = omega arith
count_tasks-append p name (t ∷ ts) us = omega (arith, count_tasks-append p name ts us)

count_files-snoc :
    (p : Text → Bool) (fs : List (Text × Text)) (path text : Text)
    → count_files p (fs ++ (path, text) ∷ []) ≡ count_files p fs + (if p text then 1 else 0)
count_files-snoc p [] path text = omega arith
count_files-snoc p ((q, old) ∷ fs) path text = omega (arith, count_files-snoc p fs path text)

module _ (d : Disk) (dec : IsDecimal d) (opening : (path : Text) → d.opens path ≡ true)
    (p : Text → Bool) where
  -- Tasks of the queue, tasks in hand and files are together the tasks that were pushed.
  record IsFiled (s : Workers) : Type 0 where
    all_there :
        count_files p s.files
          + count_tasks p d.name (in_hand s.file_thread1)
          + count_tasks p d.name (in_hand s.file_thread2)
          + count_tasks p d.name s.file_queue
        ≡ count_tasks p d.name s.pushed
    named : IsBelow d dec s.file_counter s.files
    stopped1 : has_ended s.file_thread1 ≡ true → s.should_terminate ≡ true
    stopped2 : has_ended s.file_thread2 ≡ true → s.should_terminate ≡ true
    drained1 : has_ended s.file_thread1 ≡ true → s.file_queue ≡ []
    drained2 : has_ended s.file_thread2 ≡ true → s.file_queue ≡ []

  pushes-IsFiled :
      (task : OutputTask) (s : Workers)
      → s.should_terminate ≡ false
      → IsFiled s
      → IsFiled (record s {
        log_queue = snoc s.log_queue task;
        file_queue = snoc s.file_queue task;
        pushed = snoc s.pushed task;
      })
  pushes-IsFiled task s e h = record {
    all_there = omega (
      arith,
      h.all_there,
      count_tasks-append p d.name s.file_queue (task ∷ []),
      count_tasks-append p d.name s.pushed (task ∷ []),
    );
    named = h.named;
    stopped1 = h.stopped1;
    stopped2 = h.stopped2;
    drained1 = λ g. cc (e, h.stopped1 g);
    drained2 = λ g. cc (e, h.stopped2 g);
  }

  take-count :
      (stop : Bool) (q r : List OutputTask) (w : Worker)
      → take stop q ≡ some (w, r)
      → count_tasks p d.name (in_hand w) + count_tasks p d.name r ≡ count_tasks p d.name q
  take-count stop q r w e =
      sym (count_tasks-append p d.name (in_hand w) r)
      ∙ ap (count_tasks p d.name) (take-in_hand stop q r w e).0

  take-empty :
      (stop : Bool) (q r : List OutputTask) (w : Worker)
      → take stop q ≡ some (w, r)
      → q ≡ []
      → r ≡ []
  unfolding take
  take-empty stop q r w e f = ground arith

  takes1-IsFiled :
      (w : Worker) (q : List OutputTask) (s : Workers)
      → s.file_thread1 ≡ idle
      → take s.should_terminate s.file_queue ≡ some (w, q)
      → IsFiled s
      → IsFiled (record s { file_queue = q; file_thread1 = w })
  takes1-IsFiled w q s i e h =
      let (kept, stop, drain) = take-in_hand s.should_terminate s.file_queue q w e in
      let before = rw i at h.all_there in
      record {
        all_there = omega (arith, before, take-count s.should_terminate s.file_queue q w e);
        named = h.named;
        stopped1 = stop;
        stopped2 = h.stopped2;
        drained1 = drain;
        drained2 = λ g. take-empty s.should_terminate s.file_queue q w e (h.drained2 g);
      }

  takes2-IsFiled :
      (w : Worker) (q : List OutputTask) (s : Workers)
      → s.file_thread2 ≡ idle
      → take s.should_terminate s.file_queue ≡ some (w, q)
      → IsFiled s
      → IsFiled (record s { file_queue = q; file_thread2 = w })
  takes2-IsFiled w q s i e h =
      let (kept, stop, drain) = take-in_hand s.should_terminate s.file_queue q w e in
      let before = rw i at h.all_there in
      record {
        all_there = omega (arith, before, take-count s.should_terminate s.file_queue q w e);
        named = h.named;
        stopped1 = h.stopped1;
        stopped2 = stop;
        drained1 = λ g. take-empty s.should_terminate s.file_queue q w e (h.drained1 g);
        drained2 = drain;
      }

  -- A file worker puts its task into a file of its own and leaves the rest.
  file_task-counts :
      (k : ℕ) (t : OutputTask) (s : Workers)
      → IsBelow d dec s.file_counter s.files
      → let s' = file_task d k t s in
        (count_files p s'.files ≡ count_files p s.files + count_tasks p d.name (t ∷ []))
        × (s'.file_thread1 ≡ s.file_thread1)
        × (s'.file_thread2 ≡ s.file_thread2)
        × (s'.file_queue ≡ s.file_queue)
        × (s'.pushed ≡ s.pushed)
        × (s'.should_terminate ≡ s.should_terminate)
        × IsBelow d dec s'.file_counter s'.files
  unfolding file_task
  file_task-counts k t s below =
      let path = file_name d k s.file_counter t in
      let text = print_task d.name t in
      let number = number_in-file_name d dec k s.file_counter t in
      let new = write_file_new d dec path text s.file_counter s.files number below in
      elim (Bool-cases (is_empty t.commands)) [
        | inl e ↦ rw e (omega arith, refl, refl, refl, refl, refl, below)
        | inr e ↦
            rw (e, opening path)
              (
                omega (arith, ap (count_files p) new ∙ count_files-snoc p s.files path text),
                refl,
                refl,
                refl,
                refl,
                refl,
                write_file-IsBelow d dec path text s.file_counter s.files number below,
              )
      ]

  writes1-IsFiled :
      (t : OutputTask) (s : Workers)
      → s.file_thread1 ≡ holds t
      → IsFiled s
      → IsFiled (record (file_task d 1 t s) { file_thread1 = idle })
  writes1-IsFiled t s i h =
      let (a, b, c, e, f, g, named) = file_task-counts 1 t s h.named in
      let before = rw i at h.all_there in
      record {
        all_there = rw (a, c, e, f) (omega (arith, before));
        named = named;
        stopped1 = λ n. cc;
        stopped2 = rw (c, g) h.stopped2;
        drained1 = λ n. cc;
        drained2 = rw (c, e) h.drained2;
      }

  writes2-IsFiled :
      (t : OutputTask) (s : Workers)
      → s.file_thread2 ≡ holds t
      → IsFiled s
      → IsFiled (record (file_task d 2 t s) { file_thread2 = idle })
  writes2-IsFiled t s i h =
      let (a, b, c, e, f, g, named) = file_task-counts 2 t s h.named in
      let before = rw i at h.all_there in
      record {
        all_there = rw (a, b, e, f) (omega (arith, before));
        named = named;
        stopped1 = rw (b, g) h.stopped1;
        stopped2 = λ n. cc;
        drained1 = rw (b, e) h.drained1;
        drained2 = λ n. cc;
      }

  Step-IsFiled : (s t : Workers) → Step d s t → IsFiled s → IsFiled t
  Step-IsFiled s t (pushes task e r) h = rw r (pushes-IsFiled task s e h)
  Step-IsFiled s t (terminates r) h = rw r (record {
    all_there = h.all_there;
    named = h.named;
    stopped1 = λ g. refl;
    stopped2 = λ g. refl;
    drained1 = h.drained1;
    drained2 = h.drained2;
  })
  Step-IsFiled s t (log_takes w q i e r) h = rw r (same h)
    where
      same : IsFiled s → IsFiled (record s { log_queue = q; log_thread = w })
      same h = record {
        all_there = h.all_there;
        named = h.named;
        stopped1 = h.stopped1;
        stopped2 = h.stopped2;
        drained1 = h.drained1;
        drained2 = h.drained2;
      }
  Step-IsFiled s t (log_prints task i r) h = rw r (record {
    all_there = h.all_there;
    named = h.named;
    stopped1 = h.stopped1;
    stopped2 = h.stopped2;
    drained1 = h.drained1;
    drained2 = h.drained2;
  })
  Step-IsFiled s t (file1_takes w q i e r) h = rw r (takes1-IsFiled w q s i e h)
  Step-IsFiled s t (file1_writes task i r) h = rw r (writes1-IsFiled task s i h)
  Step-IsFiled s t (file2_takes w q i e r) h = rw r (takes2-IsFiled w q s i e h)
  Step-IsFiled s t (file2_writes task i r) h = rw r (writes2-IsFiled task s i h)

  -- While every file can be opened and the texts of numbers are digits from which the number is read
  -- back, and however the threads and the program take turns from the
  -- start of the threads: once both file workers have ended, there are as many files whose
  -- contents pass a test as there are pushed tasks with commands whose line passes it, whatever
  -- the test is. So no task is lost, no file overwrites another, and no task is written twice.
  pub Reach-written :
      {s : Workers}
      → Reach d started s
      → has_ended s.file_thread1 ≡ true
      → has_ended s.file_thread2 ≡ true
      → count_files p s.files ≡ count_tasks p d.name s.pushed
  Reach-written {s} r e f = finished s.file_thread1 s.file_thread2 refl refl e f
    where
      held : IsFiled s
      held = Reach-keeps d IsFiled Step-IsFiled r (record {
        all_there = omega arith;
        named = tt;
        stopped1 = λ g. cc;
        stopped2 = λ g. cc;
        drained1 = λ g. cc;
        drained2 = λ g. cc;
      })

      finished :
          (v w : Worker)
          → s.file_thread1 ≡ v
          → s.file_thread2 ≡ w
          → has_ended v ≡ true
          → has_ended w ≡ true
          → count_files p s.files ≡ count_tasks p d.name s.pushed
      finished idle w i j g h = cc
      finished (holds t) w i j g h = cc
      finished ended idle i j g h = cc
      finished ended (holds t) i j g h = cc
      finished ended ended i j g h =
          let last = rw (i, j, held.drained1 e) at held.all_there in omega (arith, last)
