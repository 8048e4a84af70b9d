-- ===== src/Session/Handling.antt =====
-- What handling one completion does to the life and the queue of a session: ServerCore/Session.cpp
-- and a round of the worker loop of ServerCore/NetService.cpp.
use simple_server.Prelude.{
  ℕ, ◌-◌, ◌≤◌, ◌<◌, ◌≡◌, refl, ◌∙◌, inl, inr, Bool, not, ◌||◌, Option, none, some, List, arith,
  if◌then◌else◌, ◌>>=◌, is_empty, along_some, if-cases,
}
use simple_server.Packet.{Packet}
use simple_server.Session.{Session, Env, release, close, post_recv, on_recv_complete, complete_recv}
use simple_server.Session.Loop.{Keeps, on_recv_complete-keeps}
use simple_server.Session.Lifetime.{
  IsCounted, IsQueued, close-IsCounted, close-IsQueued, post_recv-IsCounted, post_recv-IsQueued,
  close-pending,
}

-- What the invariants ask of the handler and of the callback: to leave the session in order.
pub record IsOrderly {W : Type 0} (env : Env W) : Type 0 where
  pub handle_counted :
      (held : ℕ) (p : Packet) (w : W) (s : Session)
      → IsCounted held s
      → IsCounted held (env.handle_packet p w s).2
  pub handle_queued :
      (p : Packet) (w : W) (s : Session) → IsQueued 0 s → IsQueued 0 (env.handle_packet p w s).2
  pub handle_pending :
      (p : Packet) (w : W) (s : Session) → (env.handle_packet p w s).2.pending_recv ≡ s.pending_recv
  pub connect_counted :
      (held : ℕ) (w : W) (s : Session)
      → IsCounted held s
      → IsCounted held (env.notify_connected w s).1
  pub connect_queued :
      (w : W) (s : Session) → IsQueued 0 s → IsQueued 0 (env.notify_connected w s).1
  pub connect_pending :
      (w : W) (s : Session) → (env.notify_connected w s).1.pending_recv ≡ s.pending_recv

-- The session while one completion is being handled, and no receive is posted.
pub record IsHandling (s : Session) : Type 0 where
  pub counted : IsCounted 1 s
  pub queued : IsQueued 0 s
  pub quiet : s.pending_recv ≡ 0

-- The same once the handling is over, when a receive may have been posted again.
pub record IsHandled (held : ℕ) (s : Session) : Type 0 where
  pub counted : IsCounted held s
  pub queued : IsQueued 0 s
  pub serial : s.pending_recv ≤ 1

module _ {W : Type 0} (env : Env W) (orderly : IsOrderly env) where
  -- What is in the stream does not matter.
  with_stream :
      (s : Session) (x : List ℕ) → IsHandling s → IsHandling (record s { recv_stream = x })
  with_stream s x v = record {
    counted = record { counted = v.counted.counted; alive = v.counted.alive };
    queued = record {
      bounded = v.queued.bounded;
      one_in_flight = v.queued.one_in_flight;
      idle = v.queued.idle;
      front = v.queued.front;
    };
    quiet = v.quiet;
  }

  close-IsHandling : (w : W) (s : Session) → IsHandling s → IsHandling (close env w s).1
  close-IsHandling w s v = record {
    counted = close-IsCounted env 1 w s v.counted;
    queued = close-IsQueued env w s v.queued.bounded;
    quiet = close-pending env w s ∙ v.quiet;
  }

  handle-IsHandling :
      (p : Packet) (w : W) (s : Session) → IsHandling s → IsHandling (env.handle_packet p w s).2
  handle-IsHandling p w s v = record {
    counted = orderly.handle_counted 1 p w s v.counted;
    queued = orderly.handle_queued p w s v.queued;
    quiet = orderly.handle_pending p w s ∙ v.quiet;
  }

  post_recv-serial :
      (w : W) (s : Session) → s.pending_recv ≡ 0 → (post_recv env w s).1.pending_recv ≤ 1
  unfolding post_recv
  post_recv-serial w s q = ground arith

  pub post_recv-IsHandled :
      (held : ℕ) (w : W) (s : Session)
      → IsCounted held s
      → IsQueued 0 s
      → s.pending_recv ≡ 0
      → IsHandled held (post_recv env w s).1
  post_recv-IsHandled held w s c q e = record {
    counted = post_recv-IsCounted env held w s c;
    queued = post_recv-IsQueued env w s q;
    serial = post_recv-serial w s e;
  }

  handled : (s : Session) → IsHandling s → IsHandled 1 s
  handled s v = record { counted = v.counted; queued = v.queued; serial = omega (arith, v.quiet) }

  IsHandling-Keeps : Keeps env (λ w s. IsHandling s) (λ w s. IsHandled 1 s)
  IsHandling-Keeps = record {
    with_stream = λ w s x v. with_stream s x v;
    with_packet = λ p w s v. handle-IsHandling p w s v;
    with_close = λ w s v. close-IsHandling w s v;
    ends = λ w s v. handled s v;
    posts = λ w s v. post_recv-IsHandled 1 w s v.counted v.queued v.quiet;
  }

  pub release-IsHandled : (s : Session) → IsHandled 1 s → IsHandled 0 (release s)
  unfolding release
  release-IsHandled s v = ground arith

  released :
      (m : Option (W × Session)) (t : W × Session)
      → ((r : W × Session) → m ≡ some r → IsHandled 1 r.1)
      → (m >>= λ r. some (r.0, release r.1)) ≡ some t
      → IsHandled 0 t.1
  released none t h e = absurd (cc)
  released (some r) t h e = along_some (λ u. IsHandled 0 u.1) e (release-IsHandled r.1 (h r refl))

  pub complete_recv-IsHandled :
      (ok : Bool) (bytes : List ℕ) (w : W) (s : Session) (t : W × Session)
      → IsHandled 0 s
      → 0 < s.pending_recv
      → complete_recv env ok bytes w s ≡ some t
      → IsHandled 0 t.1
  unfolding complete_recv
  complete_recv-IsHandled ok bytes w s t v p e =
      let s1 = record s { pending_recv = s.pending_recv - 1 } in
      let v1 : IsHandling s1 = record {
        counted = record { counted = omega (arith, v.counted.counted); alive = v.counted.alive };
        queued = record {
          bounded = v.queued.bounded;
          one_in_flight = v.queued.one_in_flight;
          idle = v.queued.idle;
          front = v.queued.front;
        };
        quiet = omega (arith, v.serial);
      } in
      released
        (if not ok || is_empty bytes
          then some (close env w s1)
          else on_recv_complete env bytes w s1)
        t
        (λ r h. elim (if-cases (not ok || is_empty bytes) _ _ _ h) [
          | inl (c, k) ↦
              along_some (λ u. IsHandled 1 u.1) k
                (handled (close env w s1).1 (close-IsHandling w s1 v1))
          | inr (c, k) ↦ on_recv_complete-keeps env _ _ IsHandling-Keeps bytes w s1 r v1 k
        ])
        e
