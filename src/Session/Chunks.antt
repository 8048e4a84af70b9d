-- ===== src/Session/Chunks.antt =====
-- The way in which TCP cuts the bytes into pieces does not matter to `Session::OnRecvComplete`
-- (ServerCore/Session.cpp).
use simple_server.Prelude.{
  ℕ, zero, suc, ◌≡◌, refl, sym, ap, ◌∙◌, ◌≢◌, Bool, true, false, Option, some, List, ◌++◌, arith,
  if◌then◌else◌, ◌>>=◌, length, along_some,
}
use simple_server.Packet.{
  Packet, empty_packet, PacketReadResult, success, incomplete, invalid_header, invalid_opcode,
  packet_too_large, try_get_packet,
}
use simple_server.Session.{
  close, close_with_log, Session, Env, close_with_log, LoopEnd, drained, returned, returning,
  after_packet, unless_closing, on_read, recv_loop, drain,
}
use simple_server.Packet.Decode.{success-append, error-append, try_get_packet-keeps}
use mathlib.Core.Path.{subst}
use simple_server.Session.Drain.{append_stream, with_later, IsFraming, drain_total, drain_step}

module _ {W : Type 0} (env : Env W) where
  close-stream :
      (w : W) (s : Session) (x : List ℕ)
      → s.closing ≡ false
      → close env w (record s { recv_stream = x }) ≡ close env w s
  unfolding close
  close-stream w s x o = ground arith

  close-append :
      (w : W) (s : Session) (b : List ℕ)
      → close env w (if s.closing then s else append_stream s b) ≡ close env w s
  unfolding close
  close-append w s b = ground arith

  -- How the loop goes on when `b` arrives after it has ended in `r`.
  pub resume : List ℕ → LoopEnd × W × Session → Option (LoopEnd × W × Session)
  resume b (drained, w, s) = drain env w (append_stream s b)
  resume b (returned, w, s) = some (returned, w, s)

  -- `more` does with `b` in the stream what `again` does without, and then goes on.
  abbrev Extends :
      List ℕ
      → LoopEnd × W × Session
      → LoopEnd × W × Session
      → (again more : W → Session → Option (LoopEnd × W × Session)) → Type 0
  Extends b r t again more =
      (w : W) (s : Session)
      → s.closing ≡ false
      → again w s ≡ some r
      → more w (append_stream s b) ≡ some t

  resume-returning :
      (b : List ℕ) (u : W × Session) (r t : LoopEnd × W × Session)
      → some (returning u) ≡ some r
      → resume b r ≡ some t
      → some (returning u) ≡ some t
  unfolding resume
  resume-returning b u r t e h = rw (along_some (λ k. k ≡ returning u) e refl) at h

  unless_closing-append :
      (b : List ℕ) (r t : LoopEnd × W × Session)
      (again more : W → Session → Option (LoopEnd × W × Session))
      → Extends b r t again more
      → resume b r ≡ some t
      → (c : Bool) (w : W) (s : Session) → s.closing ≡ c
      → unless_closing env again c w s ≡ some r
      → unless_closing env more c w (if c then s else append_stream s b) ≡ some t
  unless_closing-append b r t again more x h true w s o e = resume-returning b (w, s) r t e h
  unless_closing-append b r t again more x h false w s o e = x w s o e

  closing-later :
      (c : Bool) (s : Session) (b : List ℕ)
      → (if c then s else append_stream s b).closing ≡ s.closing
  closing-later true s b = refl
  closing-later false s b = refl

  after_packet-append :
      (b : List ℕ) (r t : LoopEnd × W × Session)
      (again more : W → Session → Option (LoopEnd × W × Session))
      → Extends b r t again more
      → resume b r ≡ some t
      → (h : Bool × W × Session) → after_packet env again h ≡ some r
      → after_packet env more (with_later b h) ≡ some t
  unfolding close_with_log
  after_packet-append b r t again more x h (false, w, s) e =
      ap (λ k. some (returning k)) (close-append w s b) ∙ resume-returning b (close env w s) r t e h
  after_packet-append b r t again more x h (true, w, s) e =
      rw (closing-later s.closing s b)
        (unless_closing-append b r t again more x h s.closing w s refl e)

module _ {W : Type 0} (env : Env W) (framing : IsFraming env) where
  -- The three results that close the session.
  abbrev IsError : PacketReadResult → Type 0
  IsError success = ⊥
  IsError incomplete = ⊥
  IsError _ = Unit {0}

  on_read-error :
      (again more : W → Session → Option (LoopEnd × W × Session)) (c : PacketReadResult)
      (p q : Packet) (w : W) (s : Session) (x y : List ℕ)
      → IsError c
      → s.closing ≡ false
      → on_read env again c p w (record s { recv_stream = x })
        ≡ on_read env more c q w (record s { recv_stream = y })
  unfolding close_with_log
  on_read-error again more success p q w s x y i o = absurd i
  on_read-error again more incomplete p q w s x y i o = absurd i
  on_read-error again more _ p q w s x y i o =
      ap (λ k. some (returning k)) (close-stream env w s x o ∙ sym (close-stream env w s y o))

  on_read-resume :
      (again : W → Session → Option (LoopEnd × W × Session)) (b : List ℕ)
      (r t : LoopEnd × W × Session) (c : PacketReadResult) (p : Packet) (w : W) (s : Session)
      → IsError c
      → on_read env again c p w s ≡ some r
      → resume env b r ≡ some t
      → on_read env again c p w s ≡ some t
  on_read-resume again b r t success p w s i e h = absurd i
  on_read-resume again b r t incomplete p w s i e h = absurd i
  on_read-resume again b r t _ p w s i e h = resume-returning env b (close_with_log env w s) r t e h

  error-distinct : (c : PacketReadResult) → IsError c → (c ≢ success) × (c ≢ incomplete)
  error-distinct success i = absurd i
  error-distinct incomplete i = absurd i
  error-distinct _ i = ((λ e. cc), λ e. cc)

  error_round-append :
      (fuel : ℕ) (w : W) (s : Session) (b : List ℕ) (r t : LoopEnd × W × Session)
      → s.closing ≡ false
      → (c : PacketReadResult) → IsError c
      → (try_get_packet s.recv_stream empty_packet).0 ≡ c
      → let read = try_get_packet s.recv_stream empty_packet in
        on_read env (recv_loop env fuel) c read.2 w (record s { recv_stream = read.1 }) ≡ some r
        → resume env b r ≡ some t
        → drain env w (append_stream s b) ≡ some t
  error_round-append fuel w s b r t o c i c_eq e h =
      let read = try_get_packet s.recv_stream empty_packet in
      let s1 = record s { recv_stream = read.1 } in
      let later = try_get_packet (s.recv_stream ++ b) empty_packet in
      let (a, z) = error-distinct c i in
      let same : later.0 ≡ c =
        error-append s.recv_stream b empty_packet (λ q. a (sym c_eq ∙ q)) (λ q. z (sym c_eq ∙ q))
        ∙ c_eq in
      drain_step env framing w (append_stream s b)
      ∙ rw same (
          on_read-error (drain env) (recv_loop env fuel) c later.2 read.2 w s later.1 read.1 i o
          ∙ on_read-resume (recv_loop env fuel) b r t c read.2 w s1 i e h)

  round-append :
      (fuel : ℕ) (w : W) (s : Session) (b : List ℕ) (r t : LoopEnd × W × Session)
      → s.closing ≡ false
      → Extends env b r t (recv_loop env fuel) (drain env)
      → (c : PacketReadResult) → (try_get_packet s.recv_stream empty_packet).0 ≡ c
      → let read = try_get_packet s.recv_stream empty_packet in
        on_read env (recv_loop env fuel) c read.2 w (record s { recv_stream = read.1 }) ≡ some r
        → resume env b r ≡ some t
        → drain env w (append_stream s b) ≡ some t
  round-append fuel w s b r t o ih success c e h =
      let read = try_get_packet s.recv_stream empty_packet in
      let s1 = record s { recv_stream = read.1 } in
      drain_step env framing w (append_stream s b)
      ∙ rw (success-append s.recv_stream b empty_packet c, framing.handle_append read.2 w s1 b o)
          (after_packet-append env b r t (recv_loop env fuel) (drain env) ih h
            (env.handle_packet read.2 w s1) e)
  round-append fuel w s b r t o ih incomplete c e h =
      let read = try_get_packet s.recv_stream empty_packet in
      let kept : read.1 ≡ s.recv_stream =
        ap (λ k. k.1) (try_get_packet-keeps s.recv_stream empty_packet (λ q. absurd (cc))) in
      subst (λ x. drain env w (append_stream (record s { recv_stream = x }) b) ≡ some t) kept
        (sym (
            along_some
              (λ k.
                resume env b k ≡ drain env w (append_stream (record s { recv_stream = read.1 }) b))
              e (unfold resume in refl))
          ∙ h)
  round-append fuel w s b r t o ih invalid_header c e h =
      error_round-append fuel w s b r t o invalid_header tt c e h
  round-append fuel w s b r t o ih invalid_opcode c e h =
      error_round-append fuel w s b r t o invalid_opcode tt c e h
  round-append fuel w s b r t o ih packet_too_large c e h =
      error_round-append fuel w s b r t o packet_too_large tt c e h

  recv_loop-append :
      (fuel : ℕ) (b : List ℕ) (r t : LoopEnd × W × Session)
      → resume env b r ≡ some t
      → Extends env b r t (recv_loop env fuel) (drain env)
  unfolding recv_loop
  recv_loop-append zero b r t h w s o e = absurd (cc)
  recv_loop-append (suc fuel) b r t h w s o e =
      round-append fuel w s b r t o (recv_loop-append fuel b r t h)
        (try_get_packet s.recv_stream empty_packet).0 refl e h

  resume_total :
      (b : List ℕ) (r : LoopEnd × W × Session)
      → (t : LoopEnd × W × Session) × (resume env b r ≡ some t)
  unfolding resume
  resume_total b (drained, w, s) = drain_total env framing w (append_stream s b)
  resume_total b (returned, w, s) = ((returned, w, s), refl)

  -- Bytes that arrive in two pieces are handled as if they had come at once: running the loop on the
  -- stream with `b` behind it is running it on the stream, and again with `b` if it ended by `break`.
  -- The session is open, and the handler neither adds to the stream nor looks at it.
  pub drain-append :
      (w : W) (s : Session) (b : List ℕ)
      → s.closing ≡ false
      → drain env w (append_stream s b) ≡ (drain env w s >>= resume env b)
  drain-append w s b o =
      let (r, e) = drain_total env framing w s in
      let (t, h) = resume_total b r in
      recv_loop-append (suc (length s.recv_stream)) b r t h w s o (unfold drain in e) ∙ sym (rw e h)
