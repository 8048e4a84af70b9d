-- ===== src/Session/Delivery.antt =====
-- Which packets `Session::OnRecvComplete` (ServerCore/Session.cpp) gives to the handler, in the whole
-- life of a session: `recording` keeps a list of them beside the outside world.
use simple_server.Prelude.{
  ℕ, zero, suc, ◌≤◌, ◌≡◌, refl, ap, inl, inr, Bool, true, false, Option, some, List, [], ◌∷◌, arith,
  Bool-cases, length, along_some,
}
use simple_server.Packet.{
  Packet, empty_packet, PacketReadResult, success, incomplete, try_get_packet,
}
use simple_server.Packet.Decode.{try_get_packet-keeps}
use simple_server.Packet.Reads.{Reads, Reads-one, Reads-trans}
use simple_server.Session.{
  Session, Env, close, close_with_log, LoopEnd, after_packet, unless_closing, on_read, recv_loop,
}
use simple_server.Session.Aside.{Log, recording}
use simple_server.Session.Drain.{with_later, IsFraming}

-- Of the bytes `b` that have arrived, the packets handed over are those at the front, in order. While
-- the session is open the stream is exactly what is left.
pub record IsFollowing (b : List ℕ) (log : List Packet) (s : Session) : Type 0 where
  pub left : List ℕ
  pub handed : Reads b log left
  pub kept : s.closing ≡ false → s.recv_stream ≡ left

-- The same between two receives, when nothing more can be read.
pub record IsCaughtUp (b : List ℕ) (log : List Packet) (s : Session) : Type 0 where
  pub left : List ℕ
  pub handed : Reads b log left
  pub kept : s.closing ≡ false → s.recv_stream ≡ left
  pub partial : s.closing ≡ false → (try_get_packet left empty_packet).0 ≡ incomplete

module _ {W : Type 0} (env : Env W) where
  pub close-log :
      (v : Log W) (s : Session)
      → ((close (recording env) v s).0.1 ≡ v.1) × ((close (recording env) v s).1.closing ≡ true)
  unfolding close recording
  close-log v s = ground arith

  -- A closed session may be anything else.
  pub IsCaughtUp-closed :
      (b : List ℕ) (log : List Packet) (x : List ℕ) (s : Session)
      → Reads b log x
      → s.closing ≡ true
      → IsCaughtUp b log s
  IsCaughtUp-closed b log x s r c = record {
    left = x;
    handed = r;
    kept = λ o. absurd (cc);
    partial = λ o. absurd (cc);
  }

  pub close-IsCaughtUp :
      (b x : List ℕ) (v : Log W) (s : Session)
      → Reads b v.1 x
      → IsCaughtUp b (close (recording env) v s).0.1 (close (recording env) v s).1
  close-IsCaughtUp b x v s r =
      let (e, c) = close-log v s in
      rw e (IsCaughtUp-closed b v.1 x (close (recording env) v s).1 r c)

  nothing : (x : List ℕ) → length x ≤ 0 → x ≡ []
  nothing [] h = refl
  nothing (a ∷ x) h = absurd (omega arith)

  later-stream :
      (t : Bool × W × Session) (b : List ℕ)
      → length t.2.recv_stream ≤ 0
      → (with_later b t).2.closing ≡ false
      → (with_later b t).2.recv_stream ≡ b
  later-stream (ok, w, s) b l c = elim (Bool-cases s.closing) [
    | inl closed ↦ ground arith
    | inr o ↦ rw (o, nothing s.recv_stream l) refl
  ]

  -- A handler that leaves the session open leaves the stream alone.
  handle-stream :
      IsFraming env
      → (p : Packet) (w : W) (s : Session) → s.closing ≡ false
      → (env.handle_packet p w s).2.closing ≡ false
      → (env.handle_packet p w s).2.recv_stream ≡ s.recv_stream
  handle-stream framing p w s o c =
      let s0 = record s { recv_stream = [] } in
      let b = s.recv_stream in
      let t = env.handle_packet p w s0 in
      let e : env.handle_packet p w s ≡ with_later b t = framing.handle_append p w s0 b o in
      rw e (later-stream t b (framing.handle_length p w s0) (rw e at c))

module _ {W : Type 0} (env : Env W) (framing : IsFraming env) where
  -- Where the loop stands after a round that `again` goes on from.
  abbrev Delivers : (Log W → Session → Option (LoopEnd × Log W × Session)) → List ℕ → Type 0
  Delivers again b =
      (v : Log W) (s : Session) (r : LoopEnd × Log W × Session)
      → s.closing ≡ false
      → Reads b v.1 s.recv_stream
      → again v s ≡ some r
      → IsCaughtUp b r.1.1 r.2

  abbrev CaughtUp : List ℕ → LoopEnd × Log W × Session → Type 0
  CaughtUp b r = IsCaughtUp b r.1.1 r.2

  unless_closing-CaughtUp :
      (again : Log W → Session → Option (LoopEnd × Log W × Session)) (b x : List ℕ)
      → Delivers again b
      → (c : Bool) (v : Log W) (s : Session) (r : LoopEnd × Log W × Session) → s.closing ≡ c
      → (s.closing ≡ false → s.recv_stream ≡ x)
      → Reads b v.1 x
      → unless_closing (recording env) again c v s ≡ some r
      → CaughtUp b r
  unless_closing-CaughtUp again b x ih true v s r c k h e =
      along_some (CaughtUp b) e (IsCaughtUp-closed env b v.1 x s h c)
  unless_closing-CaughtUp again b x ih false v s r c k h e = ih v s r c (rw (k c) h) e

  after_packet-CaughtUp :
      (again : Log W → Session → Option (LoopEnd × Log W × Session)) (b x : List ℕ)
      → Delivers again b
      → (h : Bool × Log W × Session) (r : LoopEnd × Log W × Session)
      → (h.2.closing ≡ false → h.2.recv_stream ≡ x)
      → Reads b h.1.1 x
      → after_packet (recording env) again h ≡ some r
      → CaughtUp b r
  unfolding close_with_log
  after_packet-CaughtUp again b x ih (false, v, s) r k h e =
      along_some (CaughtUp b) e (close-IsCaughtUp env b x v s h)
  after_packet-CaughtUp again b x ih (true, v, s) r k h e =
      unless_closing-CaughtUp again b x ih s.closing v s r refl k h e

  on_read-CaughtUp :
      (again : Log W → Session → Option (LoopEnd × Log W × Session)) (b : List ℕ)
      → Delivers again b
      → (c : PacketReadResult) (v : Log W) (s : Session) (r : LoopEnd × Log W × Session)
      → (try_get_packet s.recv_stream empty_packet).0 ≡ c
      → s.closing ≡ false
      → Reads b v.1 s.recv_stream
      → let read = try_get_packet s.recv_stream empty_packet in
        on_read (recording env) again c read.2 v (record s { recv_stream = read.1 }) ≡ some r
        → CaughtUp b r
  unfolding close_with_log recording
  on_read-CaughtUp again b ih success v s r c o h e =
      let read = try_get_packet s.recv_stream empty_packet in
      let s1 = record s { recv_stream = read.1 } in
      let t = env.handle_packet read.2 v.0 s1 in
      let one : try_get_packet s.recv_stream empty_packet ≡ (success, read.1, read.2) =
        ap (λ k. (k, read.1, read.2)) c in
      after_packet-CaughtUp again b read.1 ih ((recording env).handle_packet read.2 v s1) r
        (λ k. handle-stream env framing read.2 v.0 s1 o k)
        (Reads-trans b s.recv_stream read.1 v.1 (read.2 ∷ []) h
          (Reads-one s.recv_stream read.1 read.2 one))
        e
  on_read-CaughtUp again b ih incomplete v s r c o h e =
      let kept : (try_get_packet s.recv_stream empty_packet).1 ≡ s.recv_stream =
        ap (λ k. k.1) (try_get_packet-keeps s.recv_stream empty_packet (λ q. absurd (cc))) in
      along_some (CaughtUp b) e
        (record { left = s.recv_stream; handed = h; kept = λ k. kept; partial = λ k. c })
  on_read-CaughtUp again b ih _ v s r c o h e =
      along_some (CaughtUp b) e (close-IsCaughtUp env b s.recv_stream v _ h)

  pub recv_loop-CaughtUp : (fuel : ℕ) (b : List ℕ) → Delivers (recv_loop (recording env) fuel) b
  unfolding recv_loop
  recv_loop-CaughtUp zero b v s r o h e = absurd (cc)
  recv_loop-CaughtUp (suc fuel) b v s r o h e =
      on_read-CaughtUp (recv_loop (recording env) fuel) b (recv_loop-CaughtUp fuel b)
        (try_get_packet s.recv_stream empty_packet).0 v s r refl o h e
