-- ===== src/Session/Threads/Invariant.antt =====
-- What holds of a session whose methods run on any number of threads, in every state and under every
-- interleaving (ServerCore/Session.cpp, NetService.cpp).
use simple_server.Prelude.{true, false, arith}
use mathlib.Core.Path.{subst}
use simple_server.Session.Threads.{
  recv_worker, send_worker, System, new_system, Step, goes_on, sends, closes, recv_completes,
  send_completes, Reach, started, next,
}
use simple_server.Session.Threads.Sums.{total, others, before_action, after_action}
use simple_server.Session.Threads.Kept.{IsShared, Good, perform-Kept}

Step-IsShared :
    {from to : System}
    → Step from to
    → IsShared from.shared (total from.threads)
    → IsShared to.shared (total to.threads)
unfolding recv_worker send_worker
Step-IsShared {from} (goes_on before after holds x todo a new s e p) v =
    let rest = others before todo after in
    let v2 = before_action (IsShared from.shared) from.threads before holds x todo after e v in
    after_action (IsShared s) before holds new todo after
      (subst (Good rest) p (perform-Kept x a from.shared rest v2))
Step-IsShared {from} (sends b) v = ground arith
Step-IsShared {from} closes v = ground arith
Step-IsShared {from} (recv_completes true h) v = ground arith
Step-IsShared {from} (recv_completes false h) v = ground arith
Step-IsShared {from} (send_completes true h) v = ground arith
Step-IsShared {from} (send_completes false h) v = ground arith

new_system-IsShared : IsShared new_system.shared (total new_system.threads)
unfolding new_system
new_system-IsShared = ground arith

-- Under every interleaving, whether or not a thread runs on after the deletion: the count of the
-- references is one for the connection until it closes, one for each receive and send that the system
-- holds, and one for each reference that a thread has still to drop or hand over; the object is deleted
-- when the count has come to nothing, and never before it is closed; the service is told once; the lock
-- is held by one thread at most; at most one receive is on its way, and at most one send, which always
-- has a buffer at the front of the queue; and the queue is within its bound.
pub Reach-IsShared : {t : System} → Reach t → IsShared t.shared (total t.threads)
Reach-IsShared started = new_system-IsShared
Reach-IsShared (next r st) = Step-IsShared st (Reach-IsShared r)
