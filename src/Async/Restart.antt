-- ===== src/Async/Restart.antt =====
-- Calls of HW_9/lib/async.cpp after its workers were stopped: `init_threads` leaves the flag that
-- tells them to end as it is.
use cplus_plus_developer_pro.Prelude.{ℕ, ◌≡◌, true, Option, none, some, List, [], ◌∷◌, arith}
use cplus_plus_developer_pro.Prelude.Text.{Text}
use cplus_plus_developer_pro.Async.{
  TaskManager, Library, init_threads, stop_threads, connect, receive_in, receive, finish_in,
  disconnect, find,
}

-- The calls of the three functions of async.h.
pub data Call : Type 0 where
  connects : ℕ → ℕ → Call
  receives : (ℕ → ℕ) → ℕ → Text → Call
  disconnects : ℕ → Call

unfoldable pub call : Call → Library → Library
call (connects bulk address) s = (connect bulk address s).1
call (receives clock handle input) s = receive clock handle input s
call (disconnects handle) s = disconnect handle s

unfoldable pub calls : List Call → Library → Library
calls [] s = s
calls (c ∷ cs) s = calls cs (call c s)

connect-terminated :
    (bulk address : ℕ) (s : Library)
    → s.should_terminate ≡ true
    → (connect bulk address s).1.should_terminate ≡ true
unfolding connect init_threads
connect-terminated bulk address s e = ground arith

receive_in-terminated :
    (clock : ℕ → ℕ) (handle : ℕ) (input : Text) (o : Option TaskManager) (s : Library)
    → s.should_terminate ≡ true
    → (receive_in clock handle input o s).should_terminate ≡ true
unfolding receive_in
receive_in-terminated clock handle input none s e = e
receive_in-terminated clock handle input (some m) s e = e

receive-terminated :
    (clock : ℕ → ℕ) (handle : ℕ) (input : Text) (s : Library)
    → s.should_terminate ≡ true
    → (receive clock handle input s).should_terminate ≡ true
unfolding receive
receive-terminated clock handle input s e =
    ground (arith, receive_in-terminated clock handle input (find handle s.contexts) s e)

finish_in-terminated :
    (handle : ℕ) (o : Option TaskManager) (s : Library)
    → s.should_terminate ≡ true
    → (finish_in handle o s).should_terminate ≡ true
unfolding finish_in
finish_in-terminated handle none s e = e
finish_in-terminated handle (some m) s e = e

disconnect-terminated :
    (handle : ℕ) (s : Library)
    → s.should_terminate ≡ true
    → (disconnect handle s).should_terminate ≡ true
unfolding disconnect stop_threads
disconnect-terminated handle s e =
    ground (arith, finish_in-terminated handle (find handle s.contexts) s e)

call-terminated :
    (c : Call) (s : Library) → s.should_terminate ≡ true → (call c s).should_terminate ≡ true
unfolding call
call-terminated (connects bulk address) s e = connect-terminated bulk address s e
call-terminated (receives clock handle input) s e = receive-terminated clock handle input s e
call-terminated (disconnects handle) s e = disconnect-terminated handle s e

-- Once the workers were told to end, every sequence of `connect`, `receive` and `disconnect` calls
-- leaves the flag that tells them so set, also where a `connect` starts new workers.
terminated_for_good :
    (cs : List Call) (s : Library)
    → s.should_terminate ≡ true
    → (calls cs s).should_terminate ≡ true
unfolding calls
terminated_for_good [] s e = e
terminated_for_good (c ∷ cs) s e = terminated_for_good cs (call c s) (call-terminated c s e)
