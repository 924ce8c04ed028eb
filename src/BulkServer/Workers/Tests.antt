-- ===== src/BulkServer/Workers/Tests.antt =====
-- The threads of HW_10/lib/async.cpp with one task.
use cplus_plus_developer_pro.Prelude.{
  ℕ, zero, suc, ap, All, length, replicate, ◌==◌, ◌||◌, ◌≡◌, refl, Bool, true, false, [], ◌∷◌,
}
use cplus_plus_developer_pro.Prelude.Text.{Text, bytes}
use cplus_plus_developer_pro.BulkServer.{OutputTask}
use cplus_plus_developer_pro.BulkServer.Workers.{
  holds, ended, Disk, Workers, take, print_task, log_task, file_task, file_name, pushes, terminates,
  log_takes, log_prints, file1_takes, file2_takes, file2_writes, Reach, here, next, started,
}
use cplus_plus_developer_pro.BulkServer.Workers.Log.{shown, Reach-printed}
use cplus_plus_developer_pro.BulkServer.Workers.Files.{count_files, count_tasks, Reach-written}
use cplus_plus_developer_pro.BulkServer.Workers.Names.{IsDecimal}

abbrev disk : Disk
disk = record {
  name = bytes "bulk";
  seconds = λ n. replicate n 49;
  to_string = λ n. replicate n 49;
  opens = λ path. true;
}

digits : (n : ℕ) → All (λ c. (c == 95 || c == 46) ≡ false) (replicate n 49)
digits zero = tt
digits (suc n) = (refl, digits n)

length-unary : (n : ℕ) → length {A = ℕ} (replicate n 49) ≡ n
length-unary zero = refl
length-unary (suc n) = ap suc (length-unary n)

disk-IsDecimal : IsDecimal disk
disk-IsDecimal = record { number_of = λ s. length s; reads = length-unary; digits = digits }

abbrev task : OutputTask
task = record { timestamp = 7; context_id = 0; commands = bytes "a" ∷ bytes "b" ∷ [] }

abbrev told : Workers
told = record started {
  log_queue = task ∷ [];
  file_queue = task ∷ [];
  should_terminate = true;
  pushed = task ∷ [];
}

told-Reach : Reach disk started told
told-Reach = next (next here (pushes task refl refl)) (terminates refl)

-- The log worker prints the task and ends; the second file worker writes it, and both end.
abbrev all_ended : Workers
all_ended = record told {
  log_queue = [];
  file_queue = [];
  log_thread = ended;
  file_thread1 = ended;
  file_thread2 = ended;
  file_counter = 1;
  console = print_task disk.name task;
  files = (file_name disk 2 0 task, print_task disk.name task) ∷ [];
}

all_ended-Reach : Reach disk started all_ended
unfolding take log_task file_task
all_ended-Reach =
    next
      (next
        (next
          (next
            (next
              (next (next told-Reach (log_takes (holds task) [] refl refl refl))
                (file2_takes (holds task) [] refl refl refl))
              (log_prints task refl refl))
            (log_takes ended [] refl refl refl))
          (file1_takes ended [] refl refl refl))
        (file2_writes task refl refl))
      (file2_takes ended [] refl refl refl)

Reach-printed_example : all_ended.console ≡ shown disk.name all_ended.pushed
Reach-printed_example = Reach-printed disk all_ended-Reach refl

abbrev nonempty : Text → Bool
nonempty [] = false
nonempty (c ∷ s) = true

Reach-written_example :
    count_files nonempty all_ended.files ≡ count_tasks nonempty disk.name all_ended.pushed
Reach-written_example =
    Reach-written disk disk-IsDecimal (λ path. refl) nonempty all_ended-Reach refl refl

printed_line : print_task disk.name task ≡ bytes "bulk: a, b\n"
unfolding print_task
printed_line = refl
