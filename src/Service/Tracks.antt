-- ===== src/Service/Tracks.antt =====
-- What the methods of a session do to the set of sessions of its service (ServerCore/Session.cpp and
-- NetService.cpp): a session leaves the set when it closes, and not otherwise.
use simple_server.Prelude.{
  ℕ, ◌-◌, ◌≡◌, refl, inl, inr, Bool, true, false, not, ◌&&◌, ◌||◌, Option, none, some, List, [],
  ◌∷◌, ◌++◌, arith, leb, ◌==◌, if◌then◌else◌, ◌>>=◌, is_empty, tail_of, along_some, if-cases,
  if_both,
}
use simple_server.SendBuffer.{SendBuffer}
use simple_server.Packet.{Packet}
use simple_server.Keys.{erase_key}
use simple_server.Session.{
  Session, release, close, close_with_log, close_if, post_recv, start, post_front, enqueue_locked,
  enqueue_send, send_complete_locked, on_send_complete, complete_recv, on_recv_complete,
  complete_send,
}
use simple_server.Session.Loop.{Keeps, on_recv_complete-keeps}
use simple_server.Service.{
  Net, Os, Callbacks, notify_connected, notify_disconnected, call_disconnected, remove_session,
  session_env,
}

-- From `n` and `s` to `n'` and `s'` session `id` may have closed, and it left the set if it did.
pub record Tracks {W : Type 0} (id : ℕ) (n : Net W) (s : Session) (n' : Net W) (s' : Session)
    : Type 0 where
  pub stays : s.closing ≡ true → s'.closing ≡ true
  pub erased :
      n'.sessions ≡ (if not s.closing && s'.closing then erase_key id n.sessions else n.sessions)

module _ {W : Type 0} where
  pub Tracks-refl : (id : ℕ) (n : Net W) (s : Session) → Tracks id n s n s
  Tracks-refl id n s = ground arith

  pub Tracks-trans :
      (id : ℕ) (n n' n'' : Net W) (s s' s'' : Session)
      → Tracks id n s n' s'
      → Tracks id n' s' n'' s''
      → Tracks id n s n'' s''
  Tracks-trans id n n' n'' s s' s'' a b = ground arith

  -- What the callbacks and the handler are trusted with: they act on the set only through the session.
  pub record IsTame (os : Os W) (cb : Callbacks W) : Type 0 where
    pub packet_tracks :
        (id : ℕ) (p : Packet) (n : Net W) (s : Session)
        → let r = cb.packet_handler id p n s in Tracks id n s r.1 r.2
    pub connected_tracks :
        (id : ℕ) (n : Net W) (s : Session)
        → let r = notify_connected os cb id n s in Tracks id n s r.0 r.1
    pub disconnected_keeps :
        (id : ℕ) (n : Net W)
        → (call_disconnected os cb cb.on_disconnected id n).sessions ≡ n.sessions

  module _ (os : Os W) (cb : Callbacks W) (tame : IsTame os cb) (id : ℕ) where
    -- The notification itself takes the session out of the set.
    notify_disconnected-erase_key :
        (n : Net W) → (notify_disconnected os cb id n).sessions ≡ erase_key id n.sessions
    unfolding notify_disconnected remove_session
    notify_disconnected-erase_key n = tame.disconnected_keeps id (remove_session id n)

    -- A method's result tracks its session.
    abbrev pub Tracked : Net W → Session → Net W × Session → Type 0
    Tracked n s (n', s') = Tracks id n s n' s'

    abbrev FlagTracked : Net W → Session → Bool × Net W × Session → Type 0
    FlagTracked n s (flag, n', s') = Tracks id n s n' s'

    pub close-Tracks : (n : Net W) (s : Session) → Tracked n s (close (session_env os cb id) n s)
    unfolding close
    close-Tracks n s = ground (arith, notify_disconnected-erase_key n)

    pub post_recv-Tracks :
        (n : Net W) (s : Session) → Tracked n s (post_recv (session_env os cb id) n s)
    unfolding post_recv close
    post_recv-Tracks n s =
        ground (arith, notify_disconnected-erase_key (record n { world = (os.recv id n.world).1 }))

    post_front-Tracks :
        (q : List SendBuffer) (n : Net W) (s : Session)
        → FlagTracked n s (post_front (session_env os cb id) q n s)
    unfolding post_front
    post_front-Tracks [] n s = ground arith
    post_front-Tracks (b ∷ q) n s = ground arith

    pub enqueue_locked-Tracks :
        (b : SendBuffer) (n : Net W) (s : Session)
        → FlagTracked n s (enqueue_locked (session_env os cb id) b n s)
    unfolding enqueue_locked
    enqueue_locked-Tracks b n s = ground (
      arith,
      post_front-Tracks (s.send_q ++ (b ∷ [])) n
          (record s { send_q = s.send_q ++ (b ∷ []); sending = true }),
    )

    pub close_if-Tracks :
        (n : Net W) (s : Session) (r : Bool × Net W × Session)
        → FlagTracked n s r
        → Tracked n s (close_if (session_env os cb id) r)
    unfolding close_if close_with_log
    close_if-Tracks n s (true, n', s') t = Tracks-trans id n n' _ s s' _ t (close-Tracks n' s')
    close_if-Tracks n s (false, n', s') t = t

    pub enqueue_send-Tracks :
        (b : Option SendBuffer) (n : Net W) (s : Session)
        → Tracked n s (enqueue_send (session_env os cb id) b n s)
    unfolding enqueue_send
    enqueue_send-Tracks none n s = Tracks-refl id n s
    enqueue_send-Tracks (some b) n s =
        if_both (Tracked n s) (leb b.write_size 0 || s.closing) _ _ (Tracks-refl id n s)
          (close_if-Tracks n s _ (enqueue_locked-Tracks b n s))

    send_complete_locked-Tracks :
        (n : Net W) (s : Session)
        → FlagTracked n s (send_complete_locked (session_env os cb id) n s)
    unfolding send_complete_locked
    send_complete_locked-Tracks n s =
        ground
          (arith, post_front-Tracks (tail_of s.send_q) n (record s { send_q = tail_of s.send_q }))

    on_send_complete-Tracks :
        (n : Net W) (s : Session) → Tracked n s (on_send_complete (session_env os cb id) n s)
    unfolding on_send_complete
    on_send_complete-Tracks n s = close_if-Tracks n s _ (send_complete_locked-Tracks n s)

    -- The loop of `OnRecvComplete` tracks from where it began.
    tracking :
        (n : Net W) (s : Session) → Keeps (session_env os cb id) (Tracks id n s) (Tracks id n s)
    tracking n s = record {
      with_stream = λ n' s' x t. record { stays = t.stays; erased = t.erased };
      with_packet = λ p n' s' t. Tracks-trans id n n' _ s s' _ t (tame.packet_tracks id p n' s');
      with_close = λ n' s' t. Tracks-trans id n n' _ s s' _ t (close-Tracks n' s');
      ends = λ n' s' t. t;
      posts = λ n' s' t. Tracks-trans id n n' _ s s' _ t (post_recv-Tracks n' s');
    }

    -- Neither the count nor what is pending matters.
    released-Tracks :
        (n : Net W) (s s1 : Session) (r : Net W × Session)
        → s1.closing ≡ s.closing
        → Tracked n s1 r
        → Tracked n s (r.0, release r.1)
    unfolding release
    released-Tracks n s s1 r e t = ground arith

    pub complete_send-Tracks :
        (ok : Bool) (bytes : ℕ) (n : Net W) (s : Session)
        → Tracked n s (complete_send (session_env os cb id) ok bytes n s)
    unfolding complete_send
    complete_send-Tracks ok bytes n s =
        let s1 = record s { pending_send = s.pending_send - 1 } in
        released-Tracks n s s1 _ refl (
          if_both (Tracked n s1) (not ok || bytes == 0) _ _ (close-Tracks n s1)
            (on_send_complete-Tracks n s1))

    released_all-Tracks :
        (n : Net W) (s s1 : Session) (m : Option (Net W × Session)) (t : Net W × Session)
        → s1.closing ≡ s.closing
        → ((r : Net W × Session) → m ≡ some r → Tracked n s1 r)
        → (m >>= λ r. some (r.0, release r.1)) ≡ some t
        → Tracked n s t
    released_all-Tracks n s s1 none t c h e = absurd (cc)
    released_all-Tracks n s s1 (some r) t c h e =
        along_some (Tracked n s) e (released-Tracks n s s1 r c (h r refl))

    pub complete_recv-Tracks :
        (ok : Bool) (bytes : List ℕ) (n : Net W) (s : Session) (t : Net W × Session)
        → complete_recv (session_env os cb id) ok bytes n s ≡ some t
        → Tracked n s t
    unfolding complete_recv
    complete_recv-Tracks ok bytes n s t e =
        let s1 = record s { pending_recv = s.pending_recv - 1 } in
        released_all-Tracks n s s1 _ t refl
          (λ r h.
            elim (if-cases (not ok || is_empty bytes) (some (close (session_env os cb id) n s1))
              (on_recv_complete (session_env os cb id) bytes n s1) (some r) h) [
                | inl (c, k) ↦ along_some (Tracked n s1) k (close-Tracks n s1)
                | inr (c, k) ↦
                    on_recv_complete-keeps (session_env os cb id) _ _ (tracking n s1) bytes n s1 r
                      (Tracks-refl id n s1) k
              ])
          e

    pub start-Tracks : (n : Net W) (s : Session) → Tracked n s (start (session_env os cb id) n s)
    unfolding start
    start-Tracks n s =
        let r = notify_connected os cb id n s in
        Tracks-trans id n r.0 _ s r.1 _ (tame.connected_tracks id n s) (post_recv-Tracks r.0 r.1)
