-- ===== src/Session/Threads/Order.antt =====
-- The order in which buffers go from `EnqueueSend` to `WSASend` while any number of threads send, and
-- the queue is popped and cleared by others (ServerCore/Session.cpp).
use simple_server.Prelude.{
  ℕ, ◌+◌, ◌≤◌, ◌<◌, ◌≡◌, refl, sym, ap, ◌∙◌, inl, inr, true, false, ◌||◌, Option, none, some, List,
  [], ◌∷◌, ◌++◌, arith, leb, if◌then◌else◌, Bool-cases, length, is_empty, take, tail_of,
  length-append,
}
use mathlib.Core.List.{append_assoc}
use simple_server.SendBuffer.{SendBuffer}
use simple_server.Session.{max_send_queue_size}
use simple_server.Session.Lifetime.{count}
use simple_server.Session.Threads.{
  Shared, Action, Reply, lock_send, try_front, retain_front, call_send, give_up, lock_complete,
  try_close, clear_queue, perform, push,
}
use simple_server.Session.Threads.Sums.{armed, unsure, completing, clearing}
use simple_server.Session.Threads.Kept.{IsShared, with_rest, either}

-- `Close` has not cleared the queue.
abbrev pub Uncleared : Shared → ((Action → ℕ) → ℕ) → Type 0
Uncleared s todo = (s.closing ≡ true → 0 < todo clearing)

-- The buffers that have still to be given to `WSASend`.
abbrev pub behind : Shared → List SendBuffer
behind s = if s.front_sent then tail_of s.send_q else s.send_q

pub record IsInOrder (s : Shared) (todo : (Action → ℕ) → ℕ) : Type 0 where
  pub exact : Uncleared s todo → s.sent ++ behind s ≡ s.accepted
  pub rest : List SendBuffer
  pub beginning : s.sent ++ rest ≡ s.accepted
  pub armed_first : 0 < todo armed → (s.front_sent ≡ false) × Uncleared s todo
  pub unsure_first : s.closing ≡ false → 0 < todo unsure → s.front_sent ≡ false
  pub idle_first : s.closing ≡ false → s.sending ≡ false → s.front_sent ≡ false
  pub at_front : Uncleared s todo → s.front_sent ≡ true → 0 < length s.send_q
  pub in_flight : Uncleared s todo → 0 < s.pending_send + todo completing → s.front_sent ≡ true
  pub one_clear : todo clearing ≤ count s.closing

abbrev pub InOrder : ((Action → ℕ) → ℕ) → Option (List Action × Shared) → Type 0
InOrder rest none = Unit {0}
InOrder rest (some (new, s)) = IsInOrder s (with_rest new rest)

abbrev pub Orders : Action → Type 0
Orders x =
    (a : Reply) (s : Shared) (rest : (Action → ℕ) → ℕ)
    → IsShared s (λ w. w x + rest w)
    → IsInOrder s (λ w. w x + rest w)
    → InOrder rest (perform x a s)

front_back : (q : List SendBuffer) → take 1 q ++ tail_of q ≡ q
front_back [] = refl
front_back (b ∷ q) = refl

-- Giving the front to `WSASend` moves it from the one list to the other.
front_given : (sent q : List SendBuffer) → (sent ++ take 1 q) ++ tail_of q ≡ sent ++ q
front_given sent q = append_assoc sent (take 1 q) (tail_of q) ∙ ap (λ k. sent ++ k) (front_back q)

pub call_send-Orders : Orders call_send
unfolding perform
call_send-Orders a s rest v o =
    let (unsent, uncleared) = o.armed_first (omega arith) in
    let whole : s.sent ++ s.send_q ≡ s.accepted = rw unsent at (o.exact uncleared) in
    let given = front_given s.sent s.send_q ∙ whole in
    let waits = v.front (omega arith) in
    either (InOrder rest) a.up _ _
      (λ up. record {
        exact = λ u. given;
        rest = tail_of s.send_q;
        beginning = given;
        armed_first = λ h. absurd (omega (arith, v.one_send));
        unsure_first = λ c h. absurd (let t = v.its_turn c in ground arith);
        idle_first = λ c h. absurd (let t = v.its_turn c in ground arith);
        at_front = λ u h. waits;
        in_flight = λ u h. refl;
        one_clear = o.one_clear;
      })
      (λ down. ground arith)

pub try_front-Orders : Orders try_front
unfolding perform
try_front-Orders a s rest v o =
    either (InOrder rest) (is_empty s.send_q || s.closing) _ _ (λ up. ground arith)
      (λ down. ground arith)

pub lock_complete-Orders : Orders lock_complete
unfolding perform
lock_complete-Orders a s rest v o =
    either (InOrder rest) s.locked _ _ (λ c. tt)
      (λ l.
        either (InOrder rest) (is_empty (tail_of s.send_q) || s.closing) _ _ (λ c. ground arith)
          (λ c. ground arith))

pub clear_queue-Orders : Orders clear_queue
unfolding perform
clear_queue-Orders a s rest v o = either (InOrder rest) s.locked _ _ (λ c. tt) (λ l. ground arith)

pub try_close-Orders : Orders try_close
unfolding perform
try_close-Orders a s rest v o = ground arith

pub retain_front-Orders : Orders retain_front
unfolding perform
retain_front-Orders a s rest v o = ground arith

pub give_up-Orders : Orders give_up
unfolding perform
give_up-Orders a s rest v o = ground arith

tail_of-push :
    (q : List SendBuffer) (b : SendBuffer)
    → 0 < length q
    → tail_of (q ++ (b ∷ [])) ≡ tail_of q ++ (b ∷ [])
tail_of-push [] b h = absurd (omega arith)
tail_of-push (x ∷ q) b h = refl

behind-push :
    (b : SendBuffer) (s : Shared)
    → (s.front_sent ≡ true → 0 < length s.send_q)
    → behind (push b s) ≡ behind s ++ (b ∷ [])
unfolding push
behind-push b s h = elim (Bool-cases s.front_sent) [
  | inl given ↦ rw given (tail_of-push s.send_q b (h given))
  | inr not_given ↦ rw not_given refl
]

push-InOrder :
    (b : SendBuffer) (s : Shared) (todo : (Action → ℕ) → ℕ)
    → IsInOrder s todo
    → IsInOrder (push b s) todo
unfolding push
push-InOrder b s todo o = record {
  exact = λ u.
      ap (λ k. s.sent ++ k) (behind-push b s (o.at_front u))
      ∙ (sym (append_assoc s.sent (behind s) (b ∷ [])) ∙ ap (λ k. k ++ (b ∷ [])) (o.exact u));
  rest = o.rest ++ (b ∷ []);
  beginning = sym (append_assoc s.sent o.rest (b ∷ [])) ∙ ap (λ k. k ++ (b ∷ [])) o.beginning;
  armed_first = o.armed_first;
  unsure_first = o.unsure_first;
  idle_first = o.idle_first;
  at_front = λ u h. omega (arith, length-append s.send_q (b ∷ []));
  in_flight = o.in_flight;
  one_clear = o.one_clear;
}

pub lock_send-Orders : (b : SendBuffer) → Orders (lock_send b)
unfolding perform
lock_send-Orders b a s rest v o =
    let p = push-InOrder b s (λ w. w (lock_send b) + rest w) o in
    either (InOrder rest) s.locked _ _ (λ c. tt)
      (λ c.
        either (InOrder rest) (leb max_send_queue_size (length s.send_q)) _ _ (λ full. ground arith)
          (λ room. either (InOrder rest) s.sending _ _ (λ d. ground arith) (λ d. ground arith)))
