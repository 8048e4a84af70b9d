-- ===== src/Session/Partial.antt =====
-- What the receive loop of `Session::OnRecvComplete` (ServerCore/Session.cpp) leaves in the stream.
use simple_server.Prelude.{
  ℕ, zero, suc, ◌<◌, ◌≡◌, refl, ap, Bool, true, false, Option, some, List, length, along_some,
}
use simple_server.Packet.{
  Packet, empty_packet, PacketReadResult, success, incomplete, try_get_packet, max_packet_size,
}
use simple_server.Packet.Decode.{try_get_packet-keeps, incomplete-length-lt}
use simple_server.Session.{
  Session, Env, close_with_log, LoopEnd, drained, returning, after_packet, unless_closing, on_read,
  recv_loop, drain,
}

incomplete_again :
    (s : List ℕ)
    → (try_get_packet s empty_packet).0 ≡ incomplete
    → (try_get_packet (try_get_packet s empty_packet).1 empty_packet).0 ≡ incomplete
incomplete_again s e = rw (ap (λ t. t.1) (try_get_packet-keeps s empty_packet (λ d. absurd (cc)))) e

module _ {W : Type 0} (env : Env W) where
  -- A loop that ends by `break` leaves a packet that is not whole.
  abbrev IsPartial : LoopEnd × W × Session → Type 0
  IsPartial r = r.0 ≡ drained → (try_get_packet r.2.recv_stream empty_packet).0 ≡ incomplete

  returning-IsPartial : (t : W × Session) → IsPartial (returning t)
  returning-IsPartial t d = absurd (cc)

  unless_closing-IsPartial :
      (again : W → Session → Option (LoopEnd × W × Session)) (r : LoopEnd × W × Session)
      → ((w : W) (s : Session) → again w s ≡ some r → IsPartial r)
      → (c : Bool) (w : W) (s : Session) → unless_closing env again c w s ≡ some r
      → IsPartial r
  unless_closing-IsPartial again r ih true w s e =
      along_some IsPartial e (returning-IsPartial (w, s))
  unless_closing-IsPartial again r ih false w s e = ih w s e

  after_packet-IsPartial :
      (again : W → Session → Option (LoopEnd × W × Session)) (r : LoopEnd × W × Session)
      → ((w : W) (s : Session) → again w s ≡ some r → IsPartial r)
      → (h : Bool × W × Session) → after_packet env again h ≡ some r
      → IsPartial r
  after_packet-IsPartial again r ih (false, w, s) e =
      along_some IsPartial e (returning-IsPartial (close_with_log env w s))
  after_packet-IsPartial again r ih (true, w, s) e =
      unless_closing-IsPartial again r ih s.closing w s e

  on_read-IsPartial :
      (again : W → Session → Option (LoopEnd × W × Session)) (r : LoopEnd × W × Session)
      → ((w : W) (s : Session) → again w s ≡ some r → IsPartial r)
      → (c : PacketReadResult) (p : Packet) (w : W) (s : Session)
      → (c ≡ incomplete → (try_get_packet s.recv_stream empty_packet).0 ≡ incomplete)
      → on_read env again c p w s ≡ some r
      → IsPartial r
  on_read-IsPartial again r ih success p w s h e =
      after_packet-IsPartial again r ih (env.handle_packet p w s) e
  on_read-IsPartial again r ih incomplete p w s h e = along_some IsPartial e (λ d. h refl)
  on_read-IsPartial again r ih _ p w s h e =
      along_some IsPartial e (returning-IsPartial (close_with_log env w s))

  recv_loop-IsPartial :
      (fuel : ℕ) (w : W) (s : Session) (r : LoopEnd × W × Session)
      → recv_loop env fuel w s ≡ some r
      → IsPartial r
  unfolding recv_loop
  recv_loop-IsPartial zero w s r e = absurd (cc)
  recv_loop-IsPartial (suc fuel) w s r e =
      let read = try_get_packet s.recv_stream empty_packet in
      on_read-IsPartial (recv_loop env fuel) r (λ w' s'. recv_loop-IsPartial fuel w' s' r) read.0
        read.2 w (record s { recv_stream = read.1 }) (incomplete_again s.recv_stream) e

  -- When the loop ends by `break`, the bytes that stay in the stream are the beginning of a packet
  -- that is not whole, fewer than 65531 of them.
  pub drain-leaves_partial :
      (w : W) (s s' : Session) (w' : W)
      → drain env w s ≡ some (drained, w', s')
      → ((try_get_packet s'.recv_stream empty_packet).0 ≡ incomplete)
        × (length s'.recv_stream < max_packet_size)
  unfolding drain
  drain-leaves_partial w s s' w' e =
      let p = recv_loop-IsPartial (suc (length s.recv_stream)) w s (drained, w', s') e refl in
      (p, incomplete-length-lt s'.recv_stream empty_packet p)
