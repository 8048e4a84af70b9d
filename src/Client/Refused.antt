-- ===== src/Client/Refused.antt =====
-- A packet that a bot of DummyClient has no case for ends its connection: `default: return false` of
-- DummyClient/ClientPacketHandler.cpp, and `OnRecvComplete` of ServerCore/Session.cpp.
use simple_server.Prelude.{
  ℕ, ◌≡◌, refl, sym, ap, ◌∙◌, inl, inr, true, false, Option, none, some, List, [], ◌∷◌, ◌++◌, arith,
  if◌then◌else◌, ◌>>=◌, length, along_some,
}
use simple_server.Opcodes.{is_valid_opcode}
use simple_server.SendBuffer.{SendBuffer, make_send_buffer, make_send_buffer_lem}
use simple_server.Packet.{Packet, empty_packet, success, try_get_packet, make_packet_from_proto}
use simple_server.Packet.Framing.{ReadsBack, header_of, make_packet_from_proto_lem}
use simple_server.World.{Outside, Msg, packet_buffer, buffer_of}
use simple_server.Session.{
  Session, Env, close, close_with_log, recv_loop, drain, after_loop, returning, after_packet,
  on_recv_complete,
}
use simple_server.Service.{Net, Os}
use simple_server.Client.{Protobuf, has_case, handle_packet, bot_env}

no_buffer : {A : Type 0} {b : SendBuffer} → make_send_buffer [] ≡ some b → A
unfolding make_send_buffer
no_buffer {A} {b} e = absurd (cc)

-- The bytes of a packet are what its buffer holds.
send_buffer-bytes :
    (packet : List ℕ) (b : SendBuffer) → make_send_buffer packet ≡ some b → b.buffer ≡ packet
send_buffer-bytes [] b e = no_buffer e
send_buffer-bytes (x ∷ xs) b e =
    along_some (λ (c : SendBuffer). c.buffer ≡ x ∷ xs) (sym (make_send_buffer_lem x xs) ∙ e) refl

module _ {F : Type 0} (out : Outside F) where
  ReadsBack-buffer :
      (op : ℕ) (sm : Option (List ℕ)) (b : SendBuffer)
      → is_valid_opcode op ≡ true
      → packet_buffer out (make_packet_from_proto op sm) ≡ some b
      → (m : List ℕ) × ReadsBack op m b.buffer
  unfolding packet_buffer make_packet_from_proto
  ReadsBack-buffer op none b v e = no_buffer e
  ReadsBack-buffer op (some m) b v e = elim (make_packet_from_proto_lem op m v) [
    | inl (h, l) ↦ no_buffer (rw h at e)
    | inr (packet, h, l, r) ↦ (m, rw (send_buffer-bytes packet b (rw h at e)) r)
  ]

  -- Every buffer that the room sends reads back as one packet of its opcode.
  buffer_of-ReadsBack :
      (op : ℕ) (msg : Msg F) (b : SendBuffer)
      → is_valid_opcode op ≡ true
      → buffer_of out op msg ≡ some b
      → (m : List ℕ) × ReadsBack op m b.buffer
  unfolding buffer_of
  buffer_of-ReadsBack op msg b v e = ReadsBack-buffer op (out.serialize msg) b v e

-- A packet that its handler refuses closes the session, and nothing after it is read.
drain_refused :
    {W : Type 0} (env : Env W) (rest : List ℕ) (p : Packet) (w : W) (s : Session)
    → try_get_packet s.recv_stream empty_packet ≡ (success, rest, p)
    → env.handle_packet p w (record s { recv_stream = rest })
      ≡ (false, w, record s { recv_stream = rest })
    → drain env w s ≡ some (returning (close env w (record s { recv_stream = rest })))
unfolding drain recv_loop close_with_log
drain_refused {W} env rest p w s e h =
    let again = recv_loop env (length s.recv_stream) in rw e (ap (after_packet env again) h)

on_recv_complete_refused :
    {W : Type 0} (env : Env W) (bytes rest : List ℕ) (p : Packet) (w : W) (s : Session)
    → s.closing ≡ false
    → try_get_packet (s.recv_stream ++ bytes) empty_packet ≡ (success, rest, p)
    → env.handle_packet p w (record s { recv_stream = rest })
      ≡ (false, w, record s { recv_stream = rest })
    → on_recv_complete env bytes w s ≡ some (close env w (record s { recv_stream = rest }))
unfolding on_recv_complete after_loop
on_recv_complete_refused {W} env bytes rest p w s o e h =
    let s1 = record s { recv_stream = s.recv_stream ++ bytes } in
    ap (λ c. if c then some (w, s) else (drain env w s1 >>= λ r. some (after_loop env r))) o
    ∙ ap (λ m. m >>= λ r. some (after_loop env r)) (drain_refused env rest p w s1 e h)

module _ (pb : Protobuf) {W : Type 0} (os : Os W) (bot id : ℕ) where
  handle_packet_no_case :
      (p : Packet) → has_case p.header.opcode ≡ false → handle_packet pb p ≡ false
  unfolding handle_packet has_case
  handle_packet_no_case p h = ground arith

  -- When the server sends an open bot a message of an opcode that its handler has no case for, however
  -- the bytes arrive, the bot closes the connection at that packet and reads nothing after it.
  pub no_case-close :
      {F : Type 0} (out : Outside F) (op : ℕ) (msg : Msg F) (b : SendBuffer) (bytes rest : List ℕ)
      (n : Net W) (s : Session)
      → is_valid_opcode op ≡ true
      → has_case op ≡ false
      → buffer_of out op msg ≡ some b
      → s.closing ≡ false
      → s.recv_stream ++ bytes ≡ b.buffer ++ rest
      → on_recv_complete (bot_env pb os bot id) bytes n s
        ≡ some (close (bot_env pb os bot id) n (record s { recv_stream = rest }))
  no_case-close {F} out op msg b bytes rest n s v c e o k =
      let (m, r) = buffer_of-ReadsBack out op msg b v e in
      let p : Packet = record { header = header_of op (length m); payload = m } in
      on_recv_complete_refused (bot_env pb os bot id) bytes rest p n s o
        (ap (λ x. try_get_packet x empty_packet) k ∙ r rest empty_packet)
        (rw (handle_packet_no_case p c) refl)
