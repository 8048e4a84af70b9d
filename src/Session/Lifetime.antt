-- ===== src/Session/Lifetime.antt =====
-- The life of a session object: the reference count, and what is in flight. The count is one for the
-- connection until it closes, one for each `IoContext` that the system holds, and one for each
-- completion that is being handled (`held` below).
use simple_server.Prelude.{
  ℕ, ◌+◌, ◌≤◌, ◌<◌, ◌≡◌, refl, ◌∙◌, Bool, true, false, not, Option, none, some, List, [], ◌∷◌, ◌++◌,
  arith, ◌==◌, length, tail_of, length-append,
}
use simple_server.SendBuffer.{SendBuffer}
use simple_server.Session.{
  Session, Env, close_with_log, close, post_recv, close_if, post_front, enqueue_locked,
  enqueue_send, send_complete_locked, on_send_complete, max_send_queue_size,
}

abbrev pub count : Bool → ℕ
count true = 1
count false = 0

pub record IsCounted (held : ℕ) (s : Session) : Type 0 where
  pub counted : s.ref_count + count s.closing ≡ 1 + held + s.pending_recv + s.pending_send
  pub alive : s.deleted ≡ (s.ref_count == 0)

-- `done` is one while a completed send is being handled.
pub record IsQueued (done : ℕ) (s : Session) : Type 0 where
  pub bounded : length s.send_q ≤ max_send_queue_size
  pub one_in_flight : s.closing ≡ false → s.pending_send + done ≡ count s.sending
  pub idle : s.closing ≡ false → s.sending ≡ false → s.send_q ≡ []
  pub front : s.closing ≡ false → s.sending ≡ true → 0 < length s.send_q

-- A session whose last reference is gone has nothing in flight and is closed.
pub deleted_idle :
    {held : ℕ} {s : Session}
    → IsCounted held s
    → s.deleted ≡ true
    → (held ≡ 0) × (s.pending_recv ≡ 0) × (s.pending_send ≡ 0) × (s.closing ≡ true)
deleted_idle {held} {s} v h = ground arith

pub length-tail_of : (q : List SendBuffer) → length (tail_of q) ≤ length q
length-tail_of [] = omega arith
length-tail_of (b ∷ q) = omega arith

-- Conversely, a closed session with nothing in flight is deleted.
pub deleted_of_idle :
    {s : Session}
    → IsCounted 0 s
    → s.closing ≡ true
    → s.pending_recv ≡ 0
    → s.pending_send ≡ 0
    → s.deleted ≡ true
deleted_of_idle {s} v c r p = ground arith

module _ {W : Type 0} (env : Env W) where
  pub close-IsCounted :
      (held : ℕ) (w : W) (s : Session) → IsCounted held s → IsCounted held (close env w s).1
  unfolding close
  close-IsCounted held w s v = ground arith

  pub post_recv-IsCounted :
      (held : ℕ) (w : W) (s : Session) → IsCounted held s → IsCounted held (post_recv env w s).1
  unfolding post_recv
  post_recv-IsCounted held w s v = ground arith

  post_front-IsCounted :
      (held : ℕ) (q : List SendBuffer) (w : W) (s : Session)
      → IsCounted held s
      → IsCounted held (post_front env q w s).2
  unfolding post_front
  post_front-IsCounted held [] w s v = ground arith
  post_front-IsCounted held (b ∷ q) w s v = ground arith

  pub enqueue_locked-IsCounted :
      (held : ℕ) (b : SendBuffer) (w : W) (s : Session)
      → IsCounted held s
      → IsCounted held (enqueue_locked env b w s).2
  unfolding enqueue_locked
  enqueue_locked-IsCounted held b w s v = ground (
    arith,
    post_front-IsCounted held (s.send_q ++ b ∷ []) w
        (record s { send_q = s.send_q ++ b ∷ []; sending = true }),
  )

  pub close_if-IsCounted :
      (held : ℕ) (need : Bool) (w : W) (s : Session)
      → IsCounted held s
      → IsCounted held (close_if env (need, w, s)).1
  unfolding close_if close_with_log
  close_if-IsCounted held true w s v = close-IsCounted held w s v
  close_if-IsCounted held false w s v = v

  -- `EnqueueSend` keeps the count, whatever WinSock answers.
  pub enqueue_send-IsCounted :
      (held : ℕ) (b : Option SendBuffer) (w : W) (s : Session)
      → IsCounted held s
      → IsCounted held (enqueue_send env b w s).1
  unfolding enqueue_send
  enqueue_send-IsCounted held none w s v = v
  enqueue_send-IsCounted held (some b) w s v = ground (
    arith,
    close_if-IsCounted held (enqueue_locked env b w s).0 (enqueue_locked env b w s).1
        (enqueue_locked env b w s).2 (enqueue_locked-IsCounted held b w s v),
  )

  send_complete_locked-IsCounted :
      (held : ℕ) (w : W) (s : Session)
      → IsCounted held s
      → IsCounted held (send_complete_locked env w s).2
  unfolding send_complete_locked
  send_complete_locked-IsCounted held w s v = ground (
    arith,
    post_front-IsCounted held (tail_of s.send_q) w (record s { send_q = tail_of s.send_q }),
  )

  -- So does `OnSendComplete`.
  pub on_send_complete-IsCounted :
      (held : ℕ) (w : W) (s : Session)
      → IsCounted held s
      → IsCounted held (on_send_complete env w s).1
  unfolding on_send_complete
  on_send_complete-IsCounted held w s v = ground (
    arith,
    close_if-IsCounted held (send_complete_locked env w s).0 (send_complete_locked env w s).1
        (send_complete_locked env w s).2 (send_complete_locked-IsCounted held w s v),
  )

  pub close-IsQueued :
      (w : W) (s : Session) → length s.send_q ≤ max_send_queue_size → IsQueued 0 (close env w s).1
  unfolding close
  close-IsQueued w s v = ground arith

  pub post_recv-IsQueued : (w : W) (s : Session) → IsQueued 0 s → IsQueued 0 (post_recv env w s).1
  unfolding post_recv
  post_recv-IsQueued w s v = ground arith

  -- What is left behind under the lock is in order unless the session is to be closed.
  abbrev pub IsSettled : Bool × W × Session → Type 0
  IsSettled (need, w, s) = (length s.send_q ≤ max_send_queue_size) × (need ≡ false → IsQueued 0 s)

  post_front-IsSettled :
      (q : List SendBuffer) (w : W) (s : Session)
      → s.send_q ≡ q
      → length q ≤ max_send_queue_size
      → (s.closing ≡ false → s.pending_send ≡ 0)
      → (s.closing ≡ false → s.sending ≡ true)
      → let (posted, w', s') = post_front env q w s in IsSettled (not posted, w', s')
  unfolding post_front
  post_front-IsSettled [] w s e l p t = ground arith
  post_front-IsSettled (b ∷ q) w s e l p t = ground arith

  pub enqueue_locked-IsSettled :
      (b : SendBuffer) (w : W) (s : Session) → IsQueued 0 s → IsSettled (enqueue_locked env b w s)
  unfolding enqueue_locked
  enqueue_locked-IsSettled b w s v = ground (
    arith,
    length-append s.send_q (b ∷ []),
    post_front-IsSettled (s.send_q ++ b ∷ []) w
        (record s { send_q = s.send_q ++ b ∷ []; sending = true }) refl,
  )

  pub close_if-IsQueued : (r : Bool × W × Session) → IsSettled r → IsQueued 0 (close_if env r).1
  unfolding close_if close_with_log
  close_if-IsQueued (true, w, s) v = close-IsQueued w s v.0
  close_if-IsQueued (false, w, s) v = v.1 refl

  -- `EnqueueSend` keeps the queue in order: at most 64 buffers, one send in flight exactly while
  -- `_sending`, and no buffer left waiting without one.
  pub enqueue_send-IsQueued :
      (b : Option SendBuffer) (w : W) (s : Session)
      → IsQueued 0 s
      → IsQueued 0 (enqueue_send env b w s).1
  unfolding enqueue_send
  enqueue_send-IsQueued none w s v = v
  enqueue_send-IsQueued (some b) w s v =
      ground
        (arith, close_if-IsQueued (enqueue_locked env b w s) (enqueue_locked-IsSettled b w s v))

  send_complete_locked-IsSettled :
      (w : W) (s : Session) → IsQueued 1 s → IsSettled (send_complete_locked env w s)
  unfolding send_complete_locked
  send_complete_locked-IsSettled w s v = ground (
    arith,
    length-tail_of s.send_q,
    post_front-IsSettled (tail_of s.send_q) w (record s { send_q = tail_of s.send_q }) refl,
  )

  pub on_send_complete-IsQueued :
      (w : W) (s : Session) → IsQueued 1 s → IsQueued 0 (on_send_complete env w s).1
  unfolding on_send_complete
  on_send_complete-IsQueued w s v =
      close_if-IsQueued (send_complete_locked env w s) (send_complete_locked-IsSettled w s v)

  -- Sending leaves the posted receives alone.
  pub close-pending : (w : W) (s : Session) → (close env w s).1.pending_recv ≡ s.pending_recv
  unfolding close
  close-pending w s = ground arith

  post_front-pending :
      (q : List SendBuffer) (w : W) (s : Session)
      → (post_front env q w s).2.pending_recv ≡ s.pending_recv
  unfolding post_front
  post_front-pending [] w s = refl
  post_front-pending (b ∷ q) w s = ground arith

  close_if-pending : (r : Bool × W × Session) → (close_if env r).1.pending_recv ≡ r.2.pending_recv
  unfolding close_if close_with_log
  close_if-pending (true, w, s) = close-pending w s
  close_if-pending (false, w, s) = refl

  pub enqueue_locked-pending :
      (b : SendBuffer) (w : W) (s : Session)
      → (enqueue_locked env b w s).2.pending_recv ≡ s.pending_recv
  unfolding enqueue_locked
  enqueue_locked-pending b w s = ground (
    arith,
    post_front-pending (s.send_q ++ b ∷ []) w
        (record s { send_q = s.send_q ++ b ∷ []; sending = true }),
  )

  pub close_if-enqueue_locked-pending :
      (b : SendBuffer) (w : W) (s : Session)
      → (close_if env (enqueue_locked env b w s)).1.pending_recv ≡ s.pending_recv
  close_if-enqueue_locked-pending b w s =
      close_if-pending (enqueue_locked env b w s) ∙ enqueue_locked-pending b w s

  pub enqueue_send-pending :
      (b : Option SendBuffer) (w : W) (s : Session)
      → (enqueue_send env b w s).1.pending_recv ≡ s.pending_recv
  unfolding enqueue_send
  enqueue_send-pending none w s = refl
  enqueue_send-pending (some b) w s = ground (arith, close_if-enqueue_locked-pending b w s)

  send_complete_locked-pending :
      (w : W) (s : Session) → (send_complete_locked env w s).2.pending_recv ≡ s.pending_recv
  unfolding send_complete_locked
  send_complete_locked-pending w s =
      ground
        (arith, post_front-pending (tail_of s.send_q) w (record s { send_q = tail_of s.send_q }))

  pub on_send_complete-pending :
      (w : W) (s : Session) → (on_send_complete env w s).1.pending_recv ≡ s.pending_recv
  unfolding on_send_complete
  on_send_complete-pending w s =
      close_if-pending (send_complete_locked env w s) ∙ send_complete_locked-pending w s
