-- ===== src/Tests/Delivery.antt =====
-- A packet that arrives in two pieces.
use simple_server.Prelude.{
  ℕ, ◌<◌, ◌≡◌, refl, true, false, Option, none, some, List, [], ◌∷◌, ◌++◌, arith,
}
use simple_server.Opcodes.{op_c_chat, is_valid_opcode}
use simple_server.Packet.{
  Packet, try_get_packet, read_header, make_packet_from_proto, make_packet, copy_payload,
  header_bytes,
}
use simple_server.SendBuffer.{memcpy, make_send_buffer}
use simple_server.IoContext.{wsa_bytes, send_context}
use simple_server.Session.{
  Session, new_session, start, complete_recv, on_recv_complete, drain, recv_loop, post_recv,
  after_loop,
}
use simple_server.Session.Aside.{Log, recording}
use simple_server.Session.Heard.{LeavesEmpty, received_bytes}
use simple_server.Session.Reach.{Reach, recv_completes, started, next}
use simple_server.Session.Wire.{Message, packed, wire, parcels, HaveOpcodes, received-wire}
use simple_server.Tests.Network.{env, env-IsFraming}

env-LeavesEmpty : LeavesEmpty env
unfolding new_session
env-LeavesEmpty w = refl

-- A chat message of three bytes, and one that is empty.
abbrev messages : List Message
messages = (op_c_chat, 7 ∷ 8 ∷ 9 ∷ []) ∷ (op_c_chat, []) ∷ []

messages-HaveOpcodes : HaveOpcodes messages
unfolding HaveOpcodes is_valid_opcode
messages-HaveOpcodes = (refl, (refl, tt))

abbrev opened : Log ℕ × Session
opened = start (recording env) (0, []) new_session

abbrev or_opened : Option (Log ℕ × Session) → Log ℕ × Session
or_opened none = opened
or_opened (some t) = t

abbrev half : Log ℕ × Session
half = or_opened (complete_recv (recording env) true (7 ∷ 0 ∷ 235 ∷ []) opened.0 opened.1)

abbrev full : Log ℕ × Session
full = or_opened (complete_recv (recording env) true (3 ∷ 7 ∷ 8 ∷ 9 ∷ []) half.0 half.1)

runs_half : complete_recv (recording env) true (7 ∷ 0 ∷ 235 ∷ []) opened.0 opened.1 ≡ some half
unfolding complete_recv on_recv_complete drain recv_loop try_get_packet read_header start post_recv
    recording new_session
runs_half = refl

runs_full : complete_recv (recording env) true (3 ∷ 7 ∷ 8 ∷ 9 ∷ []) half.0 half.1 ≡ some full
unfolding complete_recv on_recv_complete drain recv_loop try_get_packet read_header start post_recv
    recording new_session is_valid_opcode after_loop
runs_full = refl

posted : (0 < opened.1.pending_recv) × (0 < half.1.pending_recv)
unfolding complete_recv on_recv_complete drain recv_loop try_get_packet read_header start post_recv
    recording new_session is_valid_opcode after_loop
posted = (omega arith, omega arith)

abbrev two_pieces : Reach (recording env) (0, []) full
two_pieces =
    next (next started (recv_completes true (7 ∷ 0 ∷ 235 ∷ []) posted.0 runs_half))
      (recv_completes true (3 ∷ 7 ∷ 8 ∷ 9 ∷ []) posted.1 runs_full)

abbrev nothing_more : List ℕ
nothing_more = []

whole_wire : received_bytes two_pieces ++ nothing_more ≡ wire messages
unfolding received_bytes wire packed make_packet_from_proto make_packet copy_payload header_bytes
    memcpy make_send_buffer wsa_bytes send_context
whole_wire = refl

received-wire_example :
    ((ts : List Packet) × (parcels messages ≡ full.0.1 ++ ts))
    × (nothing_more ≡ [] → full.1.closing ≡ false → full.0.1 ≡ parcels messages)
received-wire_example =
    received-wire env env-IsFraming env-LeavesEmpty 0 two_pieces messages nothing_more
      messages-HaveOpcodes whole_wire
