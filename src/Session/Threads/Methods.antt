-- ===== src/Session/Threads/Methods.antt =====
-- The two models of a session agree (ServerCore/Session.cpp): a method run as one step does what its
-- actions do, one after the other, while no other thread runs. `OnRecvComplete` and `Start`, which call
-- the packet handler and the service, are left out.
use simple_server.Prelude.{
  ℕ, ◌-◌, ◌≡◌, refl, inl, inr, Bool, true, false, not, ◌&&◌, ◌||◌, some, List, [], ◌∷◌, ◌++◌, arith,
  leb, ◌==◌, Bool-cases, length, is_empty, tail_of,
}
use simple_server.SendBuffer.{SendBuffer}
use simple_server.Session.{
  Session, Env, close, close_with_log, close_if, release, add_ref, post_recv, post_front,
  post_send_front_no_lock, enqueue_locked, enqueue_send, send_complete_locked, on_send_complete,
  complete_send, max_send_queue_size,
}
use simple_server.Session.Threads.{
  Shared, try_recv, try_send, try_front, lock_complete, try_close, perform, release_shared, push,
  pop, send_worker,
}
use simple_server.Session.Threads.Alone.{Agrees, replies, alone, Matches, released-alone}

module _ {W : Type 0} (env : Env W) where
  close-alone :
      (w : W) (s : Session) (t : Shared)
      → Agrees s t
      → Matches env (alone env 10 (try_close ∷ []) w t) (close env w s)
  unfolding alone replies perform release_shared close release
  close-alone w s t a = elim (Bool-cases s.closing) [ inl c ↦ ground arith | inr o ↦ ground arith ]

  post_recv-alone :
      (w : W) (s : Session) (t : Shared)
      → Agrees s t
      → Matches env (alone env 8 (try_recv ∷ []) w t) (post_recv env w s)
  unfolding alone replies perform release_shared post_recv add_ref close release
  post_recv-alone w s t a = elim (Bool-cases s.closing) [
    | inl c ↦ ground arith
    | inr o ↦ elim (Bool-cases (env.wsa_recv w).0) [
      | inl up ↦ ground arith
      | inr down ↦ ground arith
    ]
  ]

  post_front-alone :
      (q : List SendBuffer) (w : W) (s : Session) (t : Shared)
      → s.send_q ≡ q
      → Agrees s (record t { locked = false })
      → Matches env (alone env 9 (try_front ∷ []) w t) (
          close_if env
            (not (post_front env q w s).0, (post_front env q w s).1, (post_front env q w s).2))
  unfolding alone replies perform release_shared post_front add_ref close_if close_with_log close
      release
  post_front-alone [] w s t e a = ground arith
  post_front-alone (b ∷ q) w s t e a = elim (Bool-cases s.closing) [
    | inl c ↦ ground arith
    | inr o ↦ elim (Bool-cases (env.wsa_send b w).0) [
      | inl up ↦ ground arith
      | inr down ↦ ground arith
    ]
  ]

  enqueue_send-alone :
      (b : SendBuffer) (w : W) (s : Session) (t : Shared)
      → Agrees s t
      → Matches env (alone env 11 (try_send b ∷ []) w t) (enqueue_send env (some b) w s)
  unfolding alone replies perform push enqueue_send enqueue_locked post_send_front_no_lock close_if
      close_with_log close release release_shared
  enqueue_send-alone b w s t a =
      let s1 = record s { send_q = s.send_q ++ (b ∷ []); sending = true } in
      let t1 = record (push b t) { sending = true; locked = true } in
      let a1 : Agrees s1 (record t1 { locked = false }) = ground arith in
      let f = post_front-alone s1.send_q w s1 t1 refl a1 in
      elim (Bool-cases (leb b.write_size 0 || s.closing)) [
        | inl c ↦ ground arith
        | inr o ↦ elim (Bool-cases (leb max_send_queue_size (length s.send_q))) [
          | inl full ↦ ground arith
          | inr room ↦ elim (Bool-cases s.sending) [
            | inl busy ↦ ground arith
            | inr idle ↦ ground arith
          ]
        ]
      ]

  on_send_complete-alone :
      (w : W) (s : Session) (t : Shared)
      → Agrees s t
      → Matches env (alone env 10 (lock_complete ∷ []) w t) (on_send_complete env w s)
  unfolding alone replies perform pop on_send_complete send_complete_locked post_send_front_no_lock
      close_if close_with_log close release release_shared
  on_send_complete-alone w s t a =
      let s1 = record s { send_q = tail_of s.send_q } in
      let t1 = record (pop t) { locked = true } in
      let a1 : Agrees s1 (record t1 { locked = false }) = ground arith in
      let f = post_front-alone s1.send_q w s1 t1 refl a1 in
      elim (Bool-cases (is_empty s1.send_q || s.closing)) [
        | inl c ↦ ground arith
        | inr o ↦ ground arith
      ]

  -- A completed send, as `WorkerLoop` takes it up.
  complete_send-alone :
      (ok : Bool) (bytes : ℕ) (w : W) (s : Session) (t : Shared)
      → Agrees s t
      → Matches env
          (alone env 11
            (send_worker (ok && not (bytes == 0)))
            w
            (record t { pending_send = t.pending_send - 1 }))
          (complete_send env ok bytes w s)
  unfolding send_worker complete_send
  complete_send-alone ok bytes w s t a =
      let s1 = record s { pending_send = s.pending_send - 1 } in
      let t1 = record t { pending_send = t.pending_send - 1 } in
      let a1 : Agrees s1 t1 = ground arith in
      let closed = released-alone env 10 try_close w t1 (close env w s1) (close-alone w s1 t1 a1) in
      let sent =
        released-alone env 10 lock_complete w t1 (on_send_complete env w s1)
          (on_send_complete-alone w s1 t1 a1) in
      elim (Bool-cases (not ok || bytes == 0)) [
        | inl failed ↦ ground arith
        | inr fine ↦ ground arith
      ]

  -- Both models do the same with `Close`, `PostRecv`, `EnqueueSend`, `OnSendComplete` and a worker's
  -- round for a completed send: run without another thread between, the actions of the method come to
  -- their end, with the world and the session that the method gives as one step.
  methods-alone :
      (w : W) (s : Session) (t : Shared)
      → Agrees s t
      → Matches env (alone env 10 (try_close ∷ []) w t) (close env w s)
        × Matches env (alone env 8 (try_recv ∷ []) w t) (post_recv env w s)
        × ((b : SendBuffer)
            → Matches env (alone env 11 (try_send b ∷ []) w t) (enqueue_send env (some b) w s))
        × Matches env (alone env 10 (lock_complete ∷ []) w t) (on_send_complete env w s)
        × ((ok : Bool) (bytes : ℕ)
            → Matches env
                (alone env 11
                  (send_worker (ok && not (bytes == 0)))
                  w
                  (record t { pending_send = t.pending_send - 1 }))
                (complete_send env ok bytes w s))
  methods-alone w s t a = (
    close-alone w s t a,
    post_recv-alone w s t a,
    (λ b. enqueue_send-alone b w s t a),
    on_send_complete-alone w s t a,
    λ ok bytes. complete_send-alone ok bytes w s t a,
  )
