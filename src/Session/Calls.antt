-- ===== src/Session/Calls.antt =====
-- The calls of a session other than a completed receive keep it in order: a completed send,
-- `EnqueueSend`, `Close` and `Start` (ServerCore/Session.cpp, NetService.cpp).
use simple_server.Prelude.{ℕ, ◌-◌, ◌<◌, refl, ◌∙◌, Bool, not, ◌||◌, Option, arith, ◌==◌, if_both}
use simple_server.SendBuffer.{SendBuffer}
use simple_server.Session.{
  Session, Env, new_session, close, start, close_if, enqueue_locked, enqueue_send, on_send_complete,
  complete_send,
}
use simple_server.Session.Lifetime.{
  IsCounted, IsQueued, close-IsCounted, close-IsQueued, enqueue_send-IsCounted,
  enqueue_send-IsQueued, on_send_complete-IsCounted, on_send_complete-IsQueued,
  enqueue_locked-IsCounted, enqueue_locked-IsSettled, close_if-IsQueued, close_if-IsCounted,
  close-pending, enqueue_send-pending, on_send_complete-pending, close_if-enqueue_locked-pending,
}
use simple_server.Session.Handling.{IsOrderly, IsHandled, release-IsHandled, post_recv-IsHandled}

new_session-IsCounted : IsCounted 0 new_session
unfolding new_session
new_session-IsCounted = ground arith

new_session-IsQueued : IsQueued 0 new_session
unfolding new_session
new_session-IsQueued = ground arith

pub new_session-IsHandled : IsHandled 0 new_session
unfolding new_session
new_session-IsHandled = record {
  counted = new_session-IsCounted;
  queued = new_session-IsQueued;
  serial = omega arith;
}

module _ {W : Type 0} (env : Env W) (orderly : IsOrderly env) where
  pub complete_send-IsHandled :
      (ok : Bool) (bytes : ℕ) (w : W) (s : Session)
      → IsHandled 0 s
      → 0 < s.pending_send
      → IsHandled 0 (complete_send env ok bytes w s).1
  unfolding complete_send
  complete_send-IsHandled ok bytes w s v p =
      let s1 = record s { pending_send = s.pending_send - 1 } in
      let c1 : IsCounted 1 s1 = record {
        counted = omega (arith, v.counted.counted);
        alive = v.counted.alive;
      } in
      release-IsHandled env orderly _ (
        if_both (λ (r : W × Session). IsHandled 1 r.1) (not ok || bytes == 0) (close env w s1)
          (on_send_complete env w s1)
          (record {
            counted = close-IsCounted env 1 w s1 c1;
            queued = close-IsQueued env w s1 v.queued.bounded;
            serial = rw (close-pending env w s1) v.serial;
          })
          (record {
            counted = on_send_complete-IsCounted env 1 w s1 c1;
            queued = on_send_complete-IsQueued env w s1 (record {
              bounded = v.queued.bounded;
              one_in_flight = λ o. (let q = v.queued.one_in_flight o in omega arith);
              idle = v.queued.idle;
              front = v.queued.front;
            });
            serial = rw (on_send_complete-pending env w s1) v.serial;
          }))

  pub enqueue_send-IsHandled :
      (b : Option SendBuffer) (w : W) (s : Session)
      → IsHandled 0 s
      → IsHandled 0 (enqueue_send env b w s).1
  enqueue_send-IsHandled b w s v = record {
    counted = enqueue_send-IsCounted env 0 b w s v.counted;
    queued = enqueue_send-IsQueued env b w s v.queued;
    serial = rw (enqueue_send-pending env b w s) v.serial;
  }

  pub late_enqueue-IsHandled :
      (b : SendBuffer) (w : W) (s : Session)
      → IsHandled 0 s
      → IsHandled 0 (close_if env (enqueue_locked env b w s)).1
  late_enqueue-IsHandled b w s v = record {
    counted = close_if-IsCounted env 0 _ _ _ (enqueue_locked-IsCounted env 0 b w s v.counted);
    queued = close_if-IsQueued env _ (enqueue_locked-IsSettled env b w s v.queued);
    serial = rw (close_if-enqueue_locked-pending env b w s) v.serial;
  }

  pub close-IsHandled : (w : W) (s : Session) → IsHandled 0 s → IsHandled 0 (close env w s).1
  close-IsHandled w s v = record {
    counted = close-IsCounted env 0 w s v.counted;
    queued = close-IsQueued env w s v.queued.bounded;
    serial = rw (close-pending env w s) v.serial;
  }

  pub start-IsHandled : (w : W) → IsHandled 0 (start env w new_session).1
  unfolding start
  start-IsHandled w =
      let r = env.notify_connected w new_session in
      post_recv-IsHandled env orderly 0 r.0 r.1
        (orderly.connect_counted 0 w new_session new_session-IsCounted)
        (orderly.connect_queued w new_session new_session-IsQueued)
        (orderly.connect_pending w new_session ∙ unfold new_session in refl)
