-- ===== src/BulkServer/Lifecycle.antt =====
-- Connections of HW_10/lib/async.cpp from first to last, with the shared manager and the flags of the
-- workers.
use cplus_plus_developer_pro.Prelude.{
  ℕ, ◌+◌, ◌≡◌, refl, sym, ap, ◌∙◌, Bool, true, false, Option, none, some, List, [], ◌∷◌, ◌++◌, ◌==◌,
  is_empty, arith, Option-cases, Bool-cases, inl, inr,
}
use cplus_plus_developer_pro.Prelude.Int.{pos, ◌-ℤ◌}
use cplus_plus_developer_pro.Prelude.Text.{Text}
use cplus_plus_developer_pro.BulkServer.Dynamic.{tasks_of, manager_finish-queues}
use cplus_plus_developer_pro.BulkServer.{
  Manager, Context, Server, initial, manager_finish, finish_shared, add_shared, flush_dynamic,
  process_open, process_close, process_plain, process_command, process_commands, find, store, erase,
  init_threads, stop_threads, connect, receive_in, receive, disconnect, lines,
}

abbrev is_some {ℓ} : {A : Type ℓ} → Option A → Bool
is_some none = false
is_some (some a) = true

-- What no command changes.
record Same (s s' : Server) : Type 0 where
  manager : is_some s'.shared_task_manager ≡ is_some s.shared_task_manager
  connections : s'.contexts ≡ s.contexts
  workers : s'.threads_initialized ≡ s.threads_initialized
  ending : s'.should_terminate ≡ s.should_terminate

finish_shared-Same :
    (o : Option Manager) (s : Server) → s.shared_task_manager ≡ o → Same s (finish_shared o s)
unfolding finish_shared
finish_shared-Same none s e = ground arith
finish_shared-Same (some m) s e = ground arith

add_shared-Same :
    (now : ℕ) (t : Text) (o : Option Manager) (s : Server)
    → s.shared_task_manager ≡ o
    → Same s (add_shared now t o s)
unfolding add_shared
add_shared-Same now t none s e = ground arith
add_shared-Same now t (some m) s e = ground arith

flush_dynamic-Same :
    (o : Option Manager) (c : Context) (s : Server) → Same s (flush_dynamic o (c, s)).1
unfolding flush_dynamic
flush_dynamic-Same none c s = ground arith
flush_dynamic-Same (some m) c s = ground arith

process_open-Same : (now : ℕ) (c : Context) (s : Server) → Same s (process_open now (c, s)).1
unfolding process_open
process_open-Same now c s = ground (arith, finish_shared-Same s.shared_task_manager s refl)

process_close-Same : (c : Context) (s : Server) → Same s (process_close (c, s)).1
unfolding process_close
process_close-Same c s = ground (
  arith,
  flush_dynamic-Same s.shared_task_manager
      (record c { dynamic_block_nesting_level = c.dynamic_block_nesting_level -ℤ pos 1 }) s,
)

process_plain-Same :
    (now : ℕ) (t : Text) (c : Context) (s : Server) → Same s (process_plain now t (c, s)).1
unfolding process_plain
process_plain-Same now t c s = ground (arith, add_shared-Same now t s.shared_task_manager s refl)

process_command-Same :
    (now : ℕ) (t : Text) (c : Context) (s : Server) → Same s (process_command now t (c, s)).1
unfolding process_command
process_command-Same now t c s =
    ground (arith, process_open-Same now c s, process_close-Same c s, process_plain-Same now t c s)

process_commands-Same :
    (clock : ℕ → ℕ) (n : ℕ) (ls : List Text) (c : Context) (s : Server)
    → Same s (process_commands clock n ls (c, s)).1
unfolding process_commands
process_commands-Same clock n [] c s = record {
  manager = refl;
  connections = refl;
  workers = refl;
  ending = refl;
}
process_commands-Same clock n (l ∷ ls) c s =
    let first = process_command-Same (clock n) l c s in
    let (c', s') = process_command (clock n) l (c, s) in
    let rest = process_commands-Same clock (n + 1) ls c' s' in
    record {
      manager = rest.manager ∙ first.manager;
      connections = rest.connections ∙ first.connections;
      workers = rest.workers ∙ first.workers;
      ending = rest.ending ∙ first.ending;
    }

-- While a connection is open there are a shared manager and running workers; without a manager the
-- workers are stopped, and while they run they have not been told to end.
pub record IsServing (s : Server) : Type 0 where
  serving : is_empty s.contexts ≡ false → s.threads_initialized ≡ true
  managed : is_some s.shared_task_manager ≡ s.threads_initialized
  running : s.threads_initialized ≡ true → s.should_terminate ≡ false

-- The calls of the three functions of async.h.
pub data Call : Type 0 where
  connects : ℕ → ℕ → Call
  receives : (ℕ → ℕ) → ℕ → Text → Call
  disconnects : ℕ → Call

pub call : Call → Server → Server
call (connects bulk address) s = (connect bulk address s).1
call (receives clock handle input) s = receive clock handle input s
call (disconnects handle) s = disconnect handle s

pub calls : List Call → Server → Server
calls [] s = s
calls (c ∷ cs) s = calls cs (call c s)

store-nonempty : (h : ℕ) (c : Context) (m : List (ℕ × Context)) → is_empty (store h c m) ≡ false
store-nonempty h c [] = refl
store-nonempty h c ((k, d) ∷ m) = ground arith

connect-IsServing :
    (bulk address : ℕ) (s : Server) → IsServing s → IsServing (connect bulk address s).1
unfolding connect init_threads
connect-IsServing bulk address s h = connected s.shared_task_manager refl
  where
    connected :
        (o : Option Manager) → s.shared_task_manager ≡ o → IsServing (connect bulk address s).1
    connected none e = ground arith
    connected (some m) e = ground arith

stop_threads-IsServing :
    (s : Server)
    → s.contexts ≡ []
    → is_some s.shared_task_manager ≡ s.threads_initialized
    → IsServing (stop_threads s)
unfolding stop_threads
stop_threads-IsServing s e m = ground (
  arith,
  finish_shared-Same s.shared_task_manager (record s { threads_initialized = false }) refl,
)

find-nonempty :
    (h : ℕ) (c : Context) (m : List (ℕ × Context)) → find h m ≡ some c → is_empty m ≡ false
find-nonempty h c [] e = cc
find-nonempty h c (x ∷ m) e = refl

erase-nonempty :
    (h : ℕ) (m : List (ℕ × Context)) → is_empty (erase h m) ≡ false → is_empty m ≡ false
erase-nonempty h [] e = e
erase-nonempty h (x ∷ m) e = refl

erase-empty : (m : List (ℕ × Context)) → is_empty m ≡ true → m ≡ []
erase-empty [] e = refl
erase-empty (x ∷ m) e = cc

receive_in-IsServing :
    (clock : ℕ → ℕ) (h : ℕ) (input : Text) (o : Option Context) (s : Server)
    → (is_some o ≡ true → is_empty s.contexts ≡ false)
    → IsServing s
    → IsServing (receive_in clock h input o s)
unfolding receive_in
receive_in-IsServing clock h input none s f v = v
receive_in-IsServing clock h input (some c) s f v =
    let same = process_commands-Same clock 0 (lines input) c s in
    record {
      serving = λ _. same.workers ∙ v.serving (f refl);
      managed = same.manager ∙ v.managed ∙ sym same.workers;
      running = λ e. same.ending ∙ v.running (sym same.workers ∙ e);
    }

receive-IsServing :
    (clock : ℕ → ℕ) (h : ℕ) (input : Text) (s : Server)
    → IsServing s
    → IsServing (receive clock h input s)
unfolding receive
receive-IsServing clock h input s v = elim (Bool-cases (h == 0)) [
  | inl e ↦ rw e v
  | inr e ↦ rw e (receive_in-IsServing clock h input (find h s.contexts) s found v)
]
  where
    found : is_some (find h s.contexts) ≡ true → is_empty s.contexts ≡ false
    found e = elim (Option-cases (find h s.contexts)) [
      | inl n ↦ absurd_some (rw n at e)
      | inr (c, f) ↦ find-nonempty h c s.contexts f
    ]
      where
        absurd_some : false ≡ true → is_empty s.contexts ≡ false
        absurd_some f = cc

disconnect-IsServing : (h : ℕ) (s : Server) → IsServing s → IsServing (disconnect h s)
unfolding disconnect
disconnect-IsServing h s v = elim (Bool-cases (h == 0)) [
  | inl e ↦ rw e v
  | inr e ↦ elim (Bool-cases (is_empty (erase h s.contexts))) [
    | inl f ↦
        rw (e, f)
          (stop_threads-IsServing (record s { contexts = erase h s.contexts })
            (erase-empty (erase h s.contexts) f) v.managed)
    | inr f ↦
        rw (e, f)
          (record {
            serving = λ g. v.serving (erase-nonempty h s.contexts f);
            managed = v.managed;
            running = v.running;
          })
  ]
]

call-IsServing : (c : Call) (s : Server) → IsServing s → IsServing (call c s)
unfolding call
call-IsServing (connects bulk address) s v = connect-IsServing bulk address s v
call-IsServing (receives clock h input) s v = receive-IsServing clock h input s v
call-IsServing (disconnects h) s v = disconnect-IsServing h s v

calls_from-IsServing : (cs : List Call) (s : Server) → IsServing s → IsServing (calls cs s)
unfolding calls
calls_from-IsServing [] s v = v
calls_from-IsServing (c ∷ cs) s v = calls_from-IsServing cs (call c s) (call-IsServing c s v)

-- After any sequence of `connect`, `receive` and `disconnect` calls, those with unknown and null
-- handles included: while a connection is open the workers run and there is a shared manager;
-- there is a shared manager exactly while they run; and while they run they have not been told to
-- end, also after the program has stopped and started again.
pub calls-IsServing : (cs : List Call) → IsServing (calls cs initial)
calls-IsServing cs =
    calls_from-IsServing cs initial
      (record { serving = λ e. cc; managed = refl; running = λ e. cc })

erase-only : (h : ℕ) (c : Context) → erase h ((h, c) ∷ []) ≡ []
erase-only h c = ground arith

disconnect-only :
    (h : ℕ) (c : Context) (s : Server)
    → (h == 0) ≡ false
    → s.contexts ≡ (h, c) ∷ []
    → disconnect h s ≡ stop_threads (record s { contexts = [] })
unfolding disconnect
disconnect-only h c s n e =
    let gone : erase h s.contexts ≡ [] = ap (erase h) e ∙ erase-only h c in rw (n, gone)

stop_threads-some :
    (m : Manager) (s : Server)
    → s.threads_initialized ≡ true
    → s.shared_task_manager ≡ some m
    → stop_threads s ≡ record (manager_finish m (record s { threads_initialized = false })) {
      should_terminate = true;
      shared_task_manager = none;
    }
unfolding stop_threads finish_shared
stop_threads-some m s on e = ground arith

-- While the workers run and there is a shared manager, the `disconnect` of the only connection puts
-- the commands pending in that manager into both queues as one task, if there are any, tells the
-- workers to end, and drops the manager and the connection.
disconnect_last :
    (h : ℕ) (c : Context) (m : Manager) (s : Server)
    → (h == 0) ≡ false
    → s.contexts ≡ (h, c) ∷ []
    → s.shared_task_manager ≡ some m
    → s.threads_initialized ≡ true
    → let s' = disconnect h s in
      let out = tasks_of m.static_block_task m.static_block_timestamp 0 in
      (s'.log_queue ≡ s.log_queue ++ out)
      × (s'.file_queue ≡ s.file_queue ++ out)
      × (s'.should_terminate ≡ true)
      × (s'.threads_initialized ≡ false)
      × (s'.shared_task_manager ≡ none)
      × (s'.contexts ≡ [])
unfolding finish_shared
disconnect_last h c m s n only shared on =
    let quiet : Server = record s { contexts = []; threads_initialized = false } in
    let same = finish_shared-Same (some m) quiet shared in
    let queues = manager_finish-queues m quiet shared in
    rw (disconnect-only h c s n only, stop_threads-some m (record s { contexts = [] }) on shared)
      (queues.0, queues.1, refl, same.workers, refl, same.connections)
