-- ===== src/Session/Threads.antt =====
-- The methods of ServerCore/Session.cpp as several threads run them at once. A thread is a list of
-- the actions that it has still to do, and between two actions any other thread may run: an action
-- reads or changes `_closing` or `_refCount`, calls WinSock or the service, or enters `_sendLock`.
-- `_sendQ` and `_sending` are touched only under the lock, so what is done with them in between needs
-- no action of its own. The bytes of the receive stream are left to the model of the methods.
pub mod Kept
pub mod Methods
pub mod Alone
pub mod Done
pub mod Ends
pub mod Finish
pub mod Held
pub mod Invariant
pub mod Order
pub mod Once
pub mod Ordered
pub mod Progress
pub mod Sent
pub mod Sums
use simple_server.Prelude.{
  ℕ, zero, suc, ◌+◌, ◌-◌, ◌*◌, ◌/◌, ◌%◌, ◌^◌, ◌≤◌, ◌<◌, ◌≡◌, refl, sym, ap, ap₂, ◌∙◌, ◌≢◌, ◌↔◌, ◌⊎◌,
  inl, inr, Bool, true, false, not, ◌&&◌, ◌||◌, Option, none, some, List, [], ◌∷◌, ◌++◌, map, arith,
  ltb, leb, ◌==◌, if◌then◌else◌, ltb→lt, lt→ltb, le→ltb, ltb-false→le, leb→le, le→leb, ==_iff,
  Bool-cases, Option-cases, ◌>>=◌, length, is_empty, get_or, take, drop, tail_of, replicate,
  length-append, length-drop, length-take, length-replicate, take-append, drop-append, take_all,
  drop_all, take-append_le, drop-append_le, along_some, if-cases, if_both, drop-drop, bind-some,
}
use simple_server.SendBuffer.{SendBuffer}
use simple_server.Session.{max_send_queue_size}

-- The last five fields only watch: the buffers given to `WSASend`, all those put into the queue, and
-- whether the one at the front has been given to `WSASend` already; how often `delete this` has run, and
-- how often `NotifyDisconnected`.
pub record Shared : Type 0 where
  pub ref_count : ℕ
  pub closing : Bool
  pub locked : Bool
  pub send_q : List SendBuffer
  pub sending : Bool
  pub pending_recv : ℕ
  pub pending_send : ℕ
  pub sent : List SendBuffer
  pub accepted : List SendBuffer
  pub front_sent : Bool
  pub deletions : ℕ
  pub notices : ℕ

-- How a round of the loop of `OnRecvComplete` goes: the packet is not whole, or it is malformed, or
-- the handler is called, sends some buffers and answers.
pub data Round : Type 0 where
  break_off malformed : Round
  handled : List SendBuffer → Bool → Round

pub data Action : Type 0 where
  -- `PostRecv`: the test of `_closing`, `AddRef`, and `WSARecv`.
  try_recv retain_recv call_recv : Action
  -- `EnqueueSend`: the test of `_closing`, and the block under the lock.
  try_send lock_send : SendBuffer → Action
  -- `PostSendFront_NoLock`: its test, `AddRef`, `WSASend`, and what follows a failure.
  try_front retain_front call_send give_up : Action
  -- The block of `OnSendComplete`.
  lock_complete : Action
  -- `OnRecvComplete`: its first test of `_closing`, a round of the loop, and the test that ends it.
  enter_recv read_packet after_handler : Action
  -- `Close`: the exchange of `_closing`, the block under the lock, and the call of the service.
  try_close clear_queue notify : Action
  -- `Release`
  drop_ref : Action

-- What the outside answers to an action: whether a WinSock call is started, and the round.
pub record Reply : Type 0 where
  pub up : Bool
  pub round : Round

unfoldable pub release_shared : Shared → Shared
release_shared s = record s {
  ref_count = s.ref_count - 1;
  deletions = if s.ref_count == 1 then s.deletions + 1 else s.deletions;
}

-- `_sendQ.push_back`, and `_sendQ.pop_front` where there is something to pop.
unfoldable pub push : SendBuffer → Shared → Shared
push b s = record s { send_q = s.send_q ++ (b ∷ []); accepted = s.accepted ++ (b ∷ []) }

unfoldable pub pop : Shared → Shared
pop s = record s { send_q = tail_of s.send_q; front_sent = false }

-- What the handler has sent and answered, then the rest of the round.
unfoldable pub after_round : List SendBuffer → Bool → List Action
after_round [] ok = if ok then after_handler ∷ [] else try_close ∷ []
after_round (b ∷ bs) ok = try_send b ∷ after_round bs ok

abbrev pub finish : Shared → List Action → Option (List Action × Shared)
finish s todo = some (todo, s)

-- One action: what the thread has to do in its place, and the new state. `none` is a thread that waits
-- for the lock.
unfoldable pub perform : Action → Reply → Shared → Option (List Action × Shared)
unfolding release_shared push pop
perform try_recv a s = finish s (if s.closing then [] else retain_recv ∷ [])
perform retain_recv a s = finish (record s { ref_count = s.ref_count + 1 }) (call_recv ∷ [])
perform call_recv a s =
    if a.up
    then finish (record s { pending_recv = s.pending_recv + 1 }) []
    else finish s (drop_ref ∷ try_close ∷ [])
perform (try_send b) a s =
    finish s (if leb b.write_size 0 || s.closing then [] else lock_send b ∷ [])
perform (lock_send b) a s =
    if s.locked
    then none
    else if leb max_send_queue_size (length s.send_q)
    then finish s (try_close ∷ [])
    else if s.sending
    then finish (push b s) []
    else finish (record (push b s) { sending = true; locked = true }) (try_front ∷ [])
perform try_front a s =
    if is_empty s.send_q || s.closing
    then finish (record s { sending = false; locked = false }) []
    else finish s (retain_front ∷ [])
perform retain_front a s = finish (record s { ref_count = s.ref_count + 1 }) (call_send ∷ [])
perform call_send a s =
    if a.up
    then finish
        (record s {
          pending_send = s.pending_send + 1;
          sent = s.sent ++ take 1 s.send_q;
          front_sent = true;
          locked = false;
        })
        []
    else finish s (drop_ref ∷ give_up ∷ [])
perform give_up a s = finish (record s { sending = false; locked = false }) (try_close ∷ [])
perform lock_complete a s =
    if s.locked
    then none
    else if is_empty (tail_of s.send_q) || s.closing
    then finish (record (pop s) { sending = false }) []
    else finish (record (pop s) { locked = true }) (try_front ∷ [])
perform enter_recv a s = finish s (if s.closing then [] else read_packet ∷ [])
perform read_packet a s = finish s (elim a.round [
  | break_off ↦ try_recv ∷ []
  | malformed ↦ try_close ∷ []
  | handled sends ok ↦ after_round sends ok
])
perform after_handler a s = finish s (if s.closing then [] else read_packet ∷ [])
perform try_close a s =
    if s.closing
    then finish s []
    else finish (record s { closing = true }) (clear_queue ∷ notify ∷ drop_ref ∷ [])
perform clear_queue a s =
    if s.locked
    then none
    else finish (record s { send_q = []; sending = false; front_sent = false }) []
perform notify a s = finish (record s { notices = s.notices + 1 }) []
perform drop_ref a s = finish (release_shared s) []

-- A round of `NetService::WorkerLoop` for a completed receive or send: the reference of the
-- `IoContext` is dropped last.
unfoldable pub recv_worker : Bool → List Action
recv_worker ok = (if ok then enter_recv else try_close) ∷ drop_ref ∷ []

unfoldable pub send_worker : Bool → List Action
send_worker ok = (if ok then lock_complete else try_close) ∷ drop_ref ∷ []

-- What a thread has still to do. A worker `holds` the reference of the completion that it handles; a
-- caller from outside holds none.
pub record Thread : Type 0 where
  pub holds : Bool
  pub todo : List Action

abbrev pub thread : Bool → List Action → Thread
thread holds todo = record { holds = holds; todo = todo }

pub record System : Type 0 where
  pub shared : Shared
  pub threads : List Thread

-- The session that the constructor makes, and the thread that runs the rest of `Start`.
unfoldable pub new_system : System
new_system = record {
  shared = record {
    ref_count = 1;
    closing = false;
    locked = false;
    send_q = [];
    sending = false;
    pending_recv = 0;
    pending_send = 0;
    sent = [];
    accepted = [];
    front_sent = false;
    deletions = 0;
    notices = 0;
  };
  threads = thread false (try_recv ∷ []) ∷ [];
}

-- A thread goes on, another thread calls `EnqueueSend` or `Close`, or an operation completes and a
-- worker takes it up. Nothing stops a thread where the object has been deleted: the fields stay as they
-- were then, and `deletions` counts on.
pub data Step (from : System) : System → Type 0 where
  goes_on :
      (before after : List Thread) (holds : Bool) (x : Action) (todo : List Action) (a : Reply)
      (new : List Action) (s : Shared)
      → from.threads ≡ before ++ (thread holds (x ∷ todo) ∷ after)
      → perform x a from.shared ≡ some (new, s)
      → Step from (record { shared = s; threads = before ++ (thread holds (new ++ todo) ∷ after) })
  sends :
      (b : SendBuffer)
      → Step from (record from { threads = thread false (try_send b ∷ []) ∷ from.threads })
  closes : Step from (record from { threads = thread false (try_close ∷ []) ∷ from.threads })
  recv_completes :
      (ok : Bool)
      → 0 < from.shared.pending_recv
      → Step from (record {
        shared = record from.shared { pending_recv = from.shared.pending_recv - 1 };
        threads = thread true (recv_worker ok) ∷ from.threads;
      })
  send_completes :
      (ok : Bool)
      → 0 < from.shared.pending_send
      → Step from (record {
        shared = record from.shared { pending_send = from.shared.pending_send - 1 };
        threads = thread true (send_worker ok) ∷ from.threads;
      })

pub data Reach : System → Type 0 where
  started : Reach new_system
  next : {from to : System} → Reach from → Step from to → Reach to

-- No thread from outside runs on after the object has been deleted. The code does nothing to see to it:
-- `Start` and the callers of `EnqueueSend` and `Close` hold no reference. Of a worker nothing is asked.
unfoldable pub IsTimelyStep : {from to : System} → Step from to → Type 0
IsTimelyStep {from} (goes_on before after holds x todo a new s e p) =
    (holds ≡ true) ⊎ (from.shared.deletions ≡ 0)
IsTimelyStep _ = Unit

unfoldable pub IsTimely : {t : System} → Reach t → Type 0
IsTimely started = Unit
IsTimely (next r st) = IsTimely r × IsTimelyStep st
