-- ===== src/Session/Aside.antt =====
-- The calls of a session other than `OnRecvComplete` (ServerCore/Session.cpp) neither hand a packet
-- over nor take a byte off the stream. `recording` keeps the packets that the handler was given beside
-- the outside world.
use simple_server.Prelude.{
  ℕ, ◌-◌, ◌≡◌, Bool, true, false, Option, none, some, List, [], ◌∷◌, ◌++◌, arith, tail_of,
}
use simple_server.Packet.{Packet}
use simple_server.SendBuffer.{SendBuffer}
use simple_server.Session.{
  Session, Env, close, close_with_log, close_if, release, post_recv, post_front, enqueue_locked,
  enqueue_send, send_complete_locked, on_send_complete, complete_send,
}

-- The same outside world, with the packets that the handler was given, in order.
unfoldable pub recording : {W : Type 0} → Env W → Env (W × List Packet)
recording env = record {
  wsa_recv = λ v. (let r = env.wsa_recv v.0 in (r.0, (r.1, v.1)));
  wsa_send = λ b v. (let r = env.wsa_send b v.0 in (r.0, (r.1, v.1)));
  handle_packet =
      λ p v s. (let r = env.handle_packet p v.0 s in (r.0, (r.1, v.1 ++ (p ∷ [])), r.2));
  notify_connected = λ v s. (let r = env.notify_connected v.0 s in ((r.0, v.1), r.1));
  notify_disconnected = λ v. (env.notify_disconnected v.0, v.1);
}

abbrev pub Log : Type 0 → Type 0
Log W = W × List Packet

-- From the first state to the second no packet was handed over, and the stream is the same while the
-- session is open.
pub record IsAside {W : Type 0} (v : Log W) (s : Session) (v' : Log W) (s' : Session) : Type 0 where
  pub same_log : v'.1 ≡ v.1
  pub was_open : s'.closing ≡ false → s.closing ≡ false
  pub same_stream : s'.closing ≡ false → s'.recv_stream ≡ s.recv_stream

module _ {W : Type 0} (env : Env W) where
  abbrev rec : Env (Log W)
  rec = recording env

  -- A method's result.
  abbrev Untouched : Log W → Session → Log W × Session → Type 0
  Untouched v s r = IsAside v s r.0 r.1

  Aside-trans :
      (v v' v'' : Log W) (s s' s'' : Session)
      → IsAside v s v' s'
      → IsAside v' s' v'' s''
      → IsAside v s v'' s''
  Aside-trans v v' v'' s s' s'' a b = ground arith

  pub close-Untouched : (v : Log W) (s : Session) → Untouched v s (close rec v s)
  unfolding close recording
  close-Untouched v s = ground arith

  pub post_recv-Untouched : (v : Log W) (s : Session) → Untouched v s (post_recv rec v s)
  unfolding post_recv close recording
  post_recv-Untouched v s = ground arith

  post_front-Untouched :
      (q : List SendBuffer) (v : Log W) (s : Session)
      → let r = post_front rec q v s in IsAside v s r.1 r.2
  unfolding post_front recording
  post_front-Untouched [] v s = ground arith
  post_front-Untouched (b ∷ q) v s = ground arith

  close_if-Untouched :
      (v : Log W) (s : Session) (r : Bool × Log W × Session)
      → IsAside v s r.1 r.2
      → Untouched v s (close_if rec r)
  unfolding close_if close_with_log
  close_if-Untouched v s (false, v', s') a = a
  close_if-Untouched v s (true, v', s') a =
      let r = close rec v' s' in Aside-trans v v' r.0 s s' r.1 a (close-Untouched v' s')

  enqueue_locked-Untouched :
      (b : SendBuffer) (v : Log W) (s : Session)
      → let r = enqueue_locked rec b v s in IsAside v s r.1 r.2
  unfolding enqueue_locked
  enqueue_locked-Untouched b v s =
      let s1 = record s { send_q = s.send_q ++ (b ∷ []); sending = true } in
      let a = post_front-Untouched s1.send_q v s1 in ground arith

  send_complete_locked-Untouched :
      (v : Log W) (s : Session) → let r = send_complete_locked rec v s in IsAside v s r.1 r.2
  unfolding send_complete_locked
  send_complete_locked-Untouched v s =
      let s1 = record s { send_q = tail_of s.send_q } in
      let a = post_front-Untouched s1.send_q v s1 in ground arith

  pub late_enqueue-Untouched :
      (b : SendBuffer) (v : Log W) (s : Session)
      → Untouched v s (close_if rec (enqueue_locked rec b v s))
  late_enqueue-Untouched b v s =
      close_if-Untouched v s (enqueue_locked rec b v s) (enqueue_locked-Untouched b v s)

  pub enqueue_send-Untouched :
      (b : Option SendBuffer) (v : Log W) (s : Session) → Untouched v s (enqueue_send rec b v s)
  unfolding enqueue_send
  enqueue_send-Untouched none v s = ground arith
  enqueue_send-Untouched (some b) v s = let a = late_enqueue-Untouched b v s in ground arith

  pub complete_send-Untouched :
      (ok : Bool) (bytes : ℕ) (v : Log W) (s : Session)
      → Untouched v s (complete_send rec ok bytes v s)
  unfolding complete_send release on_send_complete
  complete_send-Untouched ok bytes v s =
      let s1 = record s { pending_send = s.pending_send - 1 } in
      let a = close-Untouched v s1 in
      let b =
        close_if-Untouched v s1 (send_complete_locked rec v s1)
          (send_complete_locked-Untouched v s1) in
      ground arith
