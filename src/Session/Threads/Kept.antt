-- ===== src/Session/Threads/Kept.antt =====
-- What every action keeps, whichever threads run in between (ServerCore/Session.cpp).
use simple_server.Prelude.{
  ℕ, ◌+◌, ◌≤◌, ◌<◌, ◌≡◌, refl, Bool, true, false, not, ◌||◌, Option, none, some, List, [], ◌∷◌,
  arith, leb, if◌then◌else◌, length, is_empty, tail_of, length-append,
}
use simple_server.SendBuffer.{SendBuffer}
use simple_server.Session.{max_send_queue_size}
use simple_server.Session.Lifetime.{count, length-tail_of}
use simple_server.Session.Threads.{
  Shared, Action, Reply, Round, break_off, malformed, handled, try_recv, retain_recv, call_recv,
  try_send, lock_send, try_front, retain_front, call_send, give_up, lock_complete, enter_recv,
  read_packet, after_handler, try_close, clear_queue, notify, drop_ref, perform, after_round,
}
use simple_server.Session.Threads.Sums.{
  owed, armed, unsure, completing, clearing, telling, receiving, sum,
}

-- `todo` adds up what the threads have still to do.
pub record IsShared (s : Shared) (todo : (Action → ℕ) → ℕ) : Type 0 where
  pub counted : s.ref_count ≡ count (not s.closing) + s.pending_recv + s.pending_send + todo owed
  pub freed : s.ref_count ≡ 0 → 0 < s.deletions
  pub alive : s.closing ≡ false → s.deletions ≡ 0
  pub lock_held : count s.locked ≡ todo armed + todo unsure
  pub one_send : s.pending_send + todo completing + todo armed ≤ 1
  pub its_turn :
      s.closing ≡ false
      → s.pending_send + todo completing + todo armed + todo unsure ≤ count s.sending
  pub told : s.notices + todo telling ≡ count s.closing
  pub cleared : s.closing ≡ false → todo clearing ≡ 0
  pub bounded : length s.send_q ≤ max_send_queue_size
  pub one_recv : s.pending_recv + todo receiving ≤ 1
  pub front : 0 < todo armed → 0 < length s.send_q

-- The actions of a thread, and what the others have to do.
abbrev pub with_rest : List Action → ((Action → ℕ) → ℕ) → (Action → ℕ) → ℕ
with_rest p rest w = sum w p + rest w

-- The invariant after an action, if the thread does not wait.
abbrev pub Good : ((Action → ℕ) → ℕ) → Option (List Action × Shared) → Type 0
Good rest none = Unit {0}
Good rest (some (new, s)) = IsShared s (with_rest new rest)

abbrev pub Kept : Action → Type 0
Kept x =
    (a : Reply) (s : Shared) (rest : (Action → ℕ) → ℕ)
    → IsShared s (λ w. w x + rest w)
    → Good rest (perform x a s)

-- Both branches, each with its condition.
pub either {ℓ κ} :
    {A : Type ℓ} (P : A → Type κ) (c : Bool) (x y : A)
    → (c ≡ true → P x)
    → (c ≡ false → P y)
    → P (if c then x else y)
either P true x y h k = h refl
either P false x y h k = k refl

call_recv-Kept : Kept call_recv
unfolding perform
call_recv-Kept a s rest v = either (Good rest) a.up _ _ (λ up. ground arith) (λ down. ground arith)

try_front-Kept : Kept try_front
unfolding perform
try_front-Kept a s rest v =
    either (Good rest) (is_empty s.send_q || s.closing) _ _ (λ c. ground arith) (λ c. ground arith)

try_recv-Kept : Kept try_recv
unfolding perform
try_recv-Kept a s rest v = ground arith

retain_recv-Kept : Kept retain_recv
unfolding perform
retain_recv-Kept a s rest v = ground arith

retain_front-Kept : Kept retain_front
unfolding perform
retain_front-Kept a s rest v = ground arith

try_send-Kept : (b : SendBuffer) → Kept (try_send b)
unfolding perform
try_send-Kept b a s rest v = ground arith

lock_send-Kept : (b : SendBuffer) → Kept (lock_send b)
unfolding perform
lock_send-Kept b a s rest v =
    let push = length-append s.send_q (b ∷ []) in
    either (Good rest) s.locked _ _ (λ c. tt)
      (λ o.
        either (Good rest) (leb max_send_queue_size (length s.send_q)) _ _ (λ c. ground arith)
          (λ room.
            either (Good rest) s.sending _ _ (λ c. ground (arith, push))
              (λ c. ground (arith, push))))

call_send-Kept : Kept call_send
unfolding perform
call_send-Kept a s rest v = either (Good rest) a.up _ _ (λ up. ground arith) (λ down. ground arith)

give_up-Kept : Kept give_up
unfolding perform
give_up-Kept a s rest v = ground arith

lock_complete-Kept : Kept lock_complete
unfolding perform
lock_complete-Kept a s rest v =
    either (Good rest) s.locked _ _ (λ c. tt)
      (λ o.
        either (Good rest) (is_empty (tail_of s.send_q) || s.closing) _ _
          (λ c. ground (arith, length-tail_of s.send_q))
          (λ c. ground (arith, length-tail_of s.send_q)))

enter_recv-Kept : Kept enter_recv
unfolding perform
enter_recv-Kept a s rest v = ground arith

after_handler-Kept : Kept after_handler
unfolding perform
after_handler-Kept a s rest v = ground arith

try_close-Kept : Kept try_close
unfolding perform
try_close-Kept a s rest v = either (Good rest) s.closing _ _ (λ c. ground arith) (λ c. ground arith)

clear_queue-Kept : Kept clear_queue
unfolding perform
clear_queue-Kept a s rest v = either (Good rest) s.locked _ _ (λ c. tt) (λ c. ground arith)

notify-Kept : Kept notify
unfolding perform
notify-Kept a s rest v = ground arith

drop_ref-Kept : Kept drop_ref
unfolding perform
drop_ref-Kept a s rest v = ground arith

-- What the handler leaves to do is a mere list of sends, and then a test or a `Close`.
pub after_round-sum :
    (w : Action → ℕ) (bs : List SendBuffer) (ok : Bool)
    → ((b : SendBuffer) → w (try_send b) ≡ 0)
    → w after_handler ≡ 0
    → w try_close ≡ 0
    → sum w (after_round bs ok) ≡ 0
unfolding after_round
after_round-sum w [] true s h c = omega arith
after_round-sum w [] false s h c = omega arith
after_round-sum w (b ∷ bs) ok s h c = omega (arith, s b, after_round-sum w bs ok s h c)

after_round-receiving : (bs : List SendBuffer) (ok : Bool) → sum receiving (after_round bs ok) ≤ 1
unfolding after_round
after_round-receiving [] true = omega arith
after_round-receiving [] false = omega arith
after_round-receiving (b ∷ bs) ok = omega (arith, after_round-receiving bs ok)

round-Good :
    (r : Round) (s : Shared) (rest : (Action → ℕ) → ℕ)
    → IsShared s (λ w. w read_packet + rest w)
    → Good rest (perform read_packet (record { up = true; round = r }) s)
unfolding perform
round-Good break_off s rest v = ground arith
round-Good malformed s rest v = ground arith
round-Good (handled bs ok) s rest v =
    let none_of = λ (w : Action → ℕ). after_round-sum w bs ok in
    ground (
      arith,
      none_of owed (λ b. refl) refl refl,
      none_of armed (λ b. refl) refl refl,
      none_of unsure (λ b. refl) refl refl,
      none_of completing (λ b. refl) refl refl,
      none_of clearing (λ b. refl) refl refl,
      none_of telling (λ b. refl) refl refl,
      after_round-receiving bs ok,
    )

read_packet-Kept : Kept read_packet
unfolding perform
read_packet-Kept a s rest v = round-Good a.round s rest v

-- Whatever the thread does next, the invariant is kept.
pub perform-Kept : (x : Action) → Kept x
perform-Kept x = elim x as Kept [
  | try_recv ↦ try_recv-Kept
  | retain_recv ↦ retain_recv-Kept
  | call_recv ↦ call_recv-Kept
  | try_send b ↦ try_send-Kept b
  | lock_send b ↦ lock_send-Kept b
  | try_front ↦ try_front-Kept
  | retain_front ↦ retain_front-Kept
  | call_send ↦ call_send-Kept
  | give_up ↦ give_up-Kept
  | lock_complete ↦ lock_complete-Kept
  | enter_recv ↦ enter_recv-Kept
  | read_packet ↦ read_packet-Kept
  | after_handler ↦ after_handler-Kept
  | try_close ↦ try_close-Kept
  | clear_queue ↦ clear_queue-Kept
  | notify ↦ notify-Kept
  | drop_ref ↦ drop_ref-Kept
]
