-- ===== src/Tests/Network.antt =====
-- Concrete runs of ServerCore: packets and sessions.
use simple_server.Prelude.{
  ℕ, ◌+◌, ◌<◌, ◌≡◌, refl, ◌↔◌, ◌⊎◌, true, not, none, some, List, [], ◌∷◌, arith, ◌==◌, ◌>>=◌,
  length,
}
use simple_server.SendBuffer.{SendBuffer}
use simple_server.Opcodes.{op_s_chat, is_valid_opcode}
use simple_server.Packet.{
  empty_packet, success, invalid_header, try_get_packet, make_packet, make_packet_from_proto,
}
use simple_server.Packet.Framing.{make_packet_wraps, ReadsBack, make_packet_from_proto_lem}
use simple_server.Session.{
  Session, Env, LoopEnd, drained, new_session, start, enqueue_send, drain, recv_loop,
}
use simple_server.Session.Handling.{IsOrderly, IsHandled}
use simple_server.Session.Reach.{Reach, started, next, sends, Reach-IsHandled, Reach-deleted}
use simple_server.Session.Drain.{append_stream, IsFraming, drain_total}
use simple_server.Session.Chunks.{resume, drain-append}

-- Every call succeeds, and the handler takes every packet but those with opcode 1002.
abbrev pub env : Env ℕ
env = record {
  wsa_recv = λ w. (true, w + 1);
  wsa_send = λ b w. (true, w + 1);
  handle_packet = λ p w s. (not (p.header.opcode == 1002), w + 1, s);
  notify_connected = λ w s. (w + 1, s);
  notify_disconnected = λ w. w + 1;
}

env-IsOrderly : IsOrderly env
env-IsOrderly = record {
  handle_counted = λ held p w s v. v;
  handle_queued = λ p w s v. v;
  handle_pending = λ p w s. refl;
  connect_counted = λ held w s v. v;
  connect_queued = λ w s v. v;
  connect_pending = λ w s. refl;
}

pub env-IsFraming : IsFraming env
env-IsFraming = record {
  handle_length = λ p w s. omega arith;
  handle_append = λ p w s b o. ground arith;
}

abbrev pub hello : SendBuffer
hello = record { buffer = 104 ∷ 105 ∷ []; write_size = 2 }

-- A session just started, and the same one with a buffer in flight.
abbrev running : ℕ × Session
running = start env 0 new_session

abbrev sending_one : ℕ × Session
sending_one = enqueue_send env (some hello) running.0 running.1

abbrev sending_two : ℕ × Session
sending_two = enqueue_send env (some hello) sending_one.0 sending_one.1

two_sent : Reach env 0 sending_two
two_sent = next (next started (sends (some hello) refl)) (sends (some hello) refl)

Reach-IsHandled_example : IsHandled 0 sending_two.1
Reach-IsHandled_example = Reach-IsHandled env env-IsOrderly 0 two_sent

Reach-deleted_example : (sending_two.1.deleted ≡ true) ↔ (
    (sending_two.1.closing ≡ true)
    × (sending_two.1.pending_recv ≡ 0)
    × (sending_two.1.pending_send ≡ 0))
Reach-deleted_example = Reach-deleted env env-IsOrderly 0 two_sent

-- Part of a chat packet (opcode 1003).
abbrev partial : List ℕ
partial = 6 ∷ 0 ∷ 235 ∷ []

abbrev receiving : Session
receiving = record new_session { recv_stream = partial }

drain-append_example :
    drain env 0 (append_stream receiving (3 ∷ 1 ∷ 2 ∷ []))
    ≡ (drain env 0 receiving >>= resume env (3 ∷ 1 ∷ 2 ∷ []))
unfolding new_session
drain-append_example = drain-append env env-IsFraming 0 receiving (3 ∷ 1 ∷ 2 ∷ []) refl

drain_total_example : (r : LoopEnd × ℕ × Session) × (drain env 0 receiving ≡ some r)
drain_total_example = drain_total env env-IsFraming 0 receiving

stays : drain env 0 receiving ≡ some (drained, 0, receiving)
unfolding drain try_get_packet recv_loop
stays = refl

-- ── Packets ──

abbrev bytes : List ℕ
bytes = 7 ∷ 8 ∷ 9 ∷ []

chat_valid : is_valid_opcode op_s_chat ≡ true
unfolding is_valid_opcode
chat_valid = refl

make_packet_from_proto_lem_example :
    ((make_packet_from_proto op_s_chat (some bytes) ≡ some [])
      × ((length bytes ≡ 0) ⊎ (65527 < length bytes)))
    ⊎ ((pkt : List ℕ) × (make_packet_from_proto op_s_chat (some bytes) ≡ some pkt)
        × (length pkt ≡ length bytes + 4)
        × ReadsBack op_s_chat bytes pkt)
make_packet_from_proto_lem_example = make_packet_from_proto_lem op_s_chat bytes chat_valid

make_packet_wraps_example : make_packet op_s_chat none 65532 ≡ none
make_packet_wraps_example = make_packet_wraps op_s_chat none 65532 (omega arith) (omega arith)

-- A header whose size is below 4.
abbrev broken : List ℕ
broken = 3 ∷ 0 ∷ 235 ∷ 3 ∷ []

broken_result : (try_get_packet broken empty_packet).0 ≡ invalid_header
unfolding try_get_packet
broken_result = refl

-- A whole packet, with one byte behind it.
abbrev whole : List ℕ
whole = 5 ∷ 0 ∷ 235 ∷ 3 ∷ 42 ∷ 6 ∷ []

whole_result : (try_get_packet whole empty_packet).0 ≡ success
unfolding try_get_packet is_valid_opcode
whole_result = refl
