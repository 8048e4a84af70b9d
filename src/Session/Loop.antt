-- ===== src/Session/Loop.antt =====
-- An induction principle for `Session::OnRecvComplete` (ServerCore/Session.cpp): what the parts of its
-- loop keep, the whole keeps.
use simple_server.Prelude.{
  ℕ, zero, suc, ◌≡◌, refl, inl, inr, Bool, true, false, Option, none, some, List, ◌++◌, ◌>>=◌,
  length, along_some, if-cases,
}
use simple_server.Packet.{
  Packet, empty_packet, PacketReadResult, success, incomplete, try_get_packet,
}
use simple_server.Session.{
  Session, Env, close, close_with_log, post_recv, LoopEnd, drained, returned, after_packet,
  unless_closing, on_read, recv_loop, drain, after_loop, on_recv_complete,
}

-- `P` holds while the loop runs, and `Q` after it.
pub record Keeps {W : Type 0} (env : Env W) (P Q : W → Session → Type 0) : Type 0 where
  pub with_stream : (w : W) (s : Session) (x : List ℕ) → P w s → P w (record s { recv_stream = x })
  pub with_packet :
      (p : Packet) (w : W) (s : Session)
      → P w s
      → P (env.handle_packet p w s).1 (env.handle_packet p w s).2
  pub with_close : (w : W) (s : Session) → P w s → P (close env w s).0 (close env w s).1
  pub ends : (w : W) (s : Session) → P w s → Q w s
  pub posts : (w : W) (s : Session) → P w s → Q (post_recv env w s).0 (post_recv env w s).1

module _ {W : Type 0} (env : Env W) (P Q : W → Session → Type 0) (k : Keeps env P Q) where
  abbrev Holds : LoopEnd × W × Session → Type 0
  Holds r = P r.1 r.2

  -- `again` keeps `P` where it gives a result.
  abbrev Holding : (W → Session → Option (LoopEnd × W × Session)) → Type 0
  Holding again =
      (w : W) (s : Session) (r : LoopEnd × W × Session) → P w s → again w s ≡ some r → Holds r

  unless_closing-keeps :
      (again : W → Session → Option (LoopEnd × W × Session))
      → Holding again
      → (c : Bool) (w : W) (s : Session) (r : LoopEnd × W × Session) → P w s
      → unless_closing env again c w s ≡ some r
      → Holds r
  unless_closing-keeps again ih true w s r v e = along_some Holds e v
  unless_closing-keeps again ih false w s r v e = ih w s r v e

  after_packet-keeps :
      (again : W → Session → Option (LoopEnd × W × Session))
      → Holding again
      → (h : Bool × W × Session) (r : LoopEnd × W × Session) → P h.1 h.2
      → after_packet env again h ≡ some r
      → Holds r
  unfolding close_with_log
  after_packet-keeps again ih (false, w, s) r v e = along_some Holds e (k.with_close w s v)
  after_packet-keeps again ih (true, w, s) r v e = unless_closing-keeps again ih s.closing w s r v e

  on_read-keeps :
      (again : W → Session → Option (LoopEnd × W × Session))
      → Holding again
      → (c : PacketReadResult) (p : Packet) (w : W) (s : Session) (r : LoopEnd × W × Session)
      → P w s
      → on_read env again c p w s ≡ some r
      → Holds r
  unfolding close_with_log
  on_read-keeps again ih success p w s r v e =
      after_packet-keeps again ih (env.handle_packet p w s) r (k.with_packet p w s v) e
  on_read-keeps again ih incomplete p w s r v e = along_some Holds e v
  on_read-keeps again ih _ p w s r v e = along_some Holds e (k.with_close w s v)

  -- The loop keeps `P`, on each of its ways out.
  pub recv_loop-keeps :
      (fuel : ℕ) (w : W) (s : Session) (r : LoopEnd × W × Session)
      → P w s
      → recv_loop env fuel w s ≡ some r
      → P r.1 r.2
  unfolding recv_loop
  recv_loop-keeps zero w s r v e = absurd (cc)
  recv_loop-keeps (suc fuel) w s r v e =
      let read = try_get_packet s.recv_stream empty_packet in
      on_read-keeps (recv_loop env fuel) (recv_loop-keeps fuel) read.0 read.2 w
        (record s { recv_stream = read.1 }) r (k.with_stream w s read.1 v) e

  after_loop-keeps :
      (r : LoopEnd × W × Session) → P r.1 r.2 → Q (after_loop env r).0 (after_loop env r).1
  unfolding after_loop
  after_loop-keeps (drained, w, s) v = k.posts w s v
  after_loop-keeps (returned, w, s) v = k.ends w s v

  bound_loop-keeps :
      (m : Option (LoopEnd × W × Session)) (t : W × Session)
      → ((r : LoopEnd × W × Session) → m ≡ some r → P r.1 r.2)
      → (m >>= λ r. some (after_loop env r)) ≡ some t
      → Q t.0 t.1
  bound_loop-keeps none t h e = absurd (cc)
  bound_loop-keeps (some r) t h e =
      along_some (λ (u : W × Session). Q u.0 u.1) e (after_loop-keeps r (h r refl))

  pub on_recv_complete-keeps :
      (bytes : List ℕ) (w : W) (s : Session) (t : W × Session)
      → P w s
      → on_recv_complete env bytes w s ≡ some t
      → Q t.0 t.1
  unfolding on_recv_complete
  on_recv_complete-keeps bytes w s t v e = elim (if-cases s.closing _ _ _ e) [
    | inl (c, h) ↦ along_some (λ (u : W × Session). Q u.0 u.1) h (k.ends w s v)
    | inr (o, h) ↦
        let s1 = record s { recv_stream = s.recv_stream ++ bytes } in
        bound_loop-keeps (drain env w s1) t
          (λ r d.
            recv_loop-keeps (suc (length s1.recv_stream)) w s1 r
              (k.with_stream w s (s.recv_stream ++ bytes) v) (unfold drain in d))
          h
  ]
