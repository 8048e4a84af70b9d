-- ===== src/Session/Drain.antt =====
-- The receive loop of `Session::OnRecvComplete` (ServerCore/Session.cpp) ends, with the fuel that
-- `drain` gives it.
use simple_server.Prelude.{
  ℕ, zero, suc, ◌+◌, ◌≤◌, ◌<◌, ◌≡◌, refl, sym, ◌∙◌, Bool, true, false, Option, some, List, ◌++◌,
  arith, if◌then◌else◌, length,
}
use simple_server.Packet.{
  Packet, empty_packet, PacketReadResult, success, incomplete, try_get_packet,
}
use simple_server.Packet.Decode.{success-length}
use simple_server.Session.{
  Session, Env, close_with_log, LoopEnd, drained, returned, returning, after_packet, unless_closing,
  on_read, recv_loop, drain,
}

abbrev pub append_stream : Session → List ℕ → Session
append_stream s b = record s { recv_stream = s.recv_stream ++ b }

-- The result of a handler that was called with `b` more bytes in the stream.
abbrev pub with_later : {W : Type 0} → List ℕ → Bool × W × Session → Bool × W × Session
with_later b (ok, w, s) = (ok, w, if s.closing then s else append_stream s b)

-- What framing asks of the handler: not to add to the stream, and not to look at it.
pub record IsFraming {W : Type 0} (env : Env W) : Type 0 where
  pub handle_length :
      (p : Packet) (w : W) (s : Session)
      → length (env.handle_packet p w s).2.recv_stream ≤ length s.recv_stream
  pub handle_append :
      (p : Packet) (w : W) (s : Session) (b : List ℕ)
      → s.closing ≡ false
      → env.handle_packet p w (append_stream s b) ≡ with_later b (env.handle_packet p w s)

module _ {W : Type 0} (env : Env W) (framing : IsFraming env) where
  unless_closing_total :
      (again : W → Session → Option (LoopEnd × W × Session)) (c : Bool) (w : W) (s : Session)
      → ((r : LoopEnd × W × Session) × (again w s ≡ some r))
      → (r : LoopEnd × W × Session) × (unless_closing env again c w s ≡ some r)
  unless_closing_total again true w s a = ((returned, w, s), refl)
  unless_closing_total again false w s a = a

  after_packet_total :
      (again : W → Session → Option (LoopEnd × W × Session)) (h : Bool × W × Session)
      → ((r : LoopEnd × W × Session) × (again h.1 h.2 ≡ some r))
      → (r : LoopEnd × W × Session) × (after_packet env again h ≡ some r)
  after_packet_total again (false, w, s) a = (returning (close_with_log env w s), refl)
  after_packet_total again (true, w, s) a = unless_closing_total again s.closing w s a

  on_read_total :
      (again : W → Session → Option (LoopEnd × W × Session)) (c : PacketReadResult) (p : Packet)
      (w : W) (s : Session)
      → (c ≡ success
          → (w' : W) (s' : Session) → length s'.recv_stream ≤ length s.recv_stream
          → (r : LoopEnd × W × Session) × (again w' s' ≡ some r))
      → (r : LoopEnd × W × Session) × (on_read env again c p w s ≡ some r)
  on_read_total again success p w s h =
      let t = env.handle_packet p w s in
      after_packet_total again t (h refl t.1 t.2 (framing.handle_length p w s))
  on_read_total again incomplete p w s h = ((drained, w, s), refl)
  on_read_total again _ p w s h = (returning (close_with_log env w s), refl)

  pub recv_loop_total :
      (fuel : ℕ) (w : W) (s : Session)
      → length s.recv_stream < fuel
      → (r : LoopEnd × W × Session) × (recv_loop env fuel w s ≡ some r)
  unfolding recv_loop
  recv_loop_total zero w s h = absurd (omega arith)
  recv_loop_total (suc fuel) w s h =
      let read = try_get_packet s.recv_stream empty_packet in
      on_read_total (recv_loop env fuel) read.0 read.2 w (record s { recv_stream = read.1 })
        (λ e w' s' l.
          recv_loop_total fuel w' s' (omega (arith, success-length s.recv_stream empty_packet e)))

  -- The loop ends, whatever the bytes and whatever the handler answers, if the handler neither adds
  -- to the stream nor looks at it.
  pub drain_total : (w : W) (s : Session) → (r : LoopEnd × W × Session) × (drain env w s ≡ some r)
  unfolding drain
  drain_total w s = recv_loop_total (suc (length s.recv_stream)) w s (omega arith)

  unless_closing_more :
      (again more : W → Session → Option (LoopEnd × W × Session)) (r : LoopEnd × W × Session)
      → ((w : W) (s : Session) → again w s ≡ some r → more w s ≡ some r)
      → (c : Bool) (w : W) (s : Session) → unless_closing env again c w s ≡ some r
      → unless_closing env more c w s ≡ some r
  unless_closing_more again more r ih true w s e = e
  unless_closing_more again more r ih false w s e = ih w s e

  after_packet_more :
      (again more : W → Session → Option (LoopEnd × W × Session)) (r : LoopEnd × W × Session)
      → ((w : W) (s : Session) → again w s ≡ some r → more w s ≡ some r)
      → (h : Bool × W × Session) → after_packet env again h ≡ some r
      → after_packet env more h ≡ some r
  after_packet_more again more r ih (false, w, s) e = e
  after_packet_more again more r ih (true, w, s) e =
      unless_closing_more again more r ih s.closing w s e

  on_read_more :
      (again more : W → Session → Option (LoopEnd × W × Session)) (r : LoopEnd × W × Session)
      → ((w : W) (s : Session) → again w s ≡ some r → more w s ≡ some r)
      → (c : PacketReadResult) (p : Packet) (w : W) (s : Session)
      → on_read env again c p w s ≡ some r
      → on_read env more c p w s ≡ some r
  on_read_more again more r ih success p w s e =
      after_packet_more again more r ih (env.handle_packet p w s) e
  on_read_more again more r ih _ p w s e = e

  -- More fuel changes nothing.
  pub recv_loop_more :
      (fuel more : ℕ) (w : W) (s : Session) (r : LoopEnd × W × Session)
      → fuel ≤ more
      → recv_loop env fuel w s ≡ some r
      → recv_loop env more w s ≡ some r
  unfolding recv_loop
  recv_loop_more zero more w s r l e = absurd (cc)
  recv_loop_more (suc fuel) zero w s r l e = absurd (omega arith)
  recv_loop_more (suc fuel) (suc more) w s r l e =
      let read = try_get_packet s.recv_stream empty_packet in
      on_read_more (recv_loop env fuel) (recv_loop env more) r
        (λ w' s'. recv_loop_more fuel more w' s' r (omega arith)) read.0 read.2 w
        (record s { recv_stream = read.1 }) e

  -- Enough fuel gives what `drain` gives.
  pub drain_fuel :
      (fuel : ℕ) (w : W) (s : Session) (r : LoopEnd × W × Session)
      → recv_loop env fuel w s ≡ some r
      → drain env w s ≡ some r
  unfolding drain
  drain_fuel fuel w s r e =
      let n = suc (length s.recv_stream) in
      let (r', e') = recv_loop_total n w s (omega arith) in
      let big = recv_loop_more n (fuel + n) w s r' (omega arith) e' in
      let same = recv_loop_more fuel (fuel + n) w s r (omega arith) e in e' ∙ (sym big ∙ same)

  -- One round of `drain`.
  pub drain_step :
      (w : W) (s : Session)
      → let read = try_get_packet s.recv_stream empty_packet in
        drain env w s ≡ on_read env (drain env) read.0 read.2 w (record s { recv_stream = read.1 })
  drain_step w s =
      let read = try_get_packet s.recv_stream empty_packet in
      let n = length s.recv_stream in
      let (r, e) = recv_loop_total (suc n) w s (omega arith) in
      drain_fuel (suc n) w s r e
      ∙ sym (
          on_read_more (recv_loop env n) (drain env) r (λ w' s'. drain_fuel n w' s' r) read.0 read.2
            w (record s { recv_stream = read.1 }) (unfold recv_loop in e))
