-- ===== src/Handler/Server.antt =====
-- The server as `main` of SimpleServer/ServerMain.cpp puts it together: ServerCore/NetService.cpp and
-- Session.cpp with the handler of SimpleServer/ServerPacketHandler.cpp and the callbacks of `main`.
use simple_server.Prelude.{
  ℕ, ◌≤◌, ◌≡◌, refl, sym, ap, Bool, true, false, Option, none, some, List, arith, ◌==◌,
  if◌then◌else◌, length, if_both,
}
use simple_server.SendBuffer.{SendBuffer}
use simple_server.Packet.{Packet}
use simple_server.Opcodes.{op_c_ping, op_s_pong}
use simple_server.Player.{Player}
use simple_server.World.{Site, Outside, on_connected, on_disconnected, buffer_of, s_pong}
use simple_server.Session.{Session, Env, enqueue_send}
use simple_server.Session.Lifetime.{
  IsCounted, IsQueued, enqueue_send-IsCounted, enqueue_send-IsQueued, enqueue_send-pending,
}
use simple_server.Session.Stream.{enqueue_send-append, enqueue_send-length}
use simple_server.Session.Handling.{IsOrderly, IsHandled}
use simple_server.Session.Reach.{Reach as SessionReach, Reach-IsHandled}
use simple_server.Session.Drain.{append_stream, with_later, IsFraming}
use simple_server.Service.{
  Net, Service, Os, Callbacks, session_env, call_connected, notify_connected, call_disconnected,
  notify_disconnected, remove_session,
}
use simple_server.Service.Tracks.{Tracks, Tracks-refl, IsTame, enqueue_send-Tracks}
use simple_server.Service.Registered.{IsRegistered}
use simple_server.Service.Reach.{Reach, Reach-IsRegistered}
use simple_server.Handler.{Parsers, dispatch, answer_ping, handle_ping, handle_packet}

if_apply :
    {A B : Type 0} (g : A → B) (c : Bool) (x y : A) (u v : B)
    → u ≡ g x
    → v ≡ g y
    → (if c then u else v) ≡ g (if c then x else y)
if_apply g true x y u v p q = p
if_apply g false x y u v p q = q

module _ {F : Type 0} (ps : Parsers F) (zero_f : F) (out : Outside F) where
  module _ {E : Type 0} (env : Env (Net (Site F E))) where
    answer_ping-cases :
        (P : Session → Type 0) (now : ℕ) (m : Option ℕ) (n : Net (Site F E)) (s : Session)
        → P s
        → ((b : Option SendBuffer) → P (enqueue_send env b n s).1)
        → P (answer_ping ps zero_f out env now m n s).2
    unfolding answer_ping
    answer_ping-cases P now none n s h k = h
    answer_ping-cases P now (some t) n s h k = k (buffer_of out op_s_pong (s_pong t now))

    -- What a packet does to the session: nothing, or one `EnqueueSend`.
    handle_packet-cases :
        (P : Session → Type 0) (room : Bool) (now sid : ℕ) (p : Packet) (n : Net (Site F E))
        (s : Session)
        → P s
        → ((b : Option SendBuffer) → P (enqueue_send env b n s).1)
        → P (handle_packet ps zero_f out env room now sid p n s).2
    unfolding handle_packet handle_ping
    handle_packet-cases P room now sid p n s h k =
        if_both (λ (r : Bool × Net (Site F E) × Session). P r.2) (p.header.opcode == op_c_ping) _ _
          (answer_ping-cases P now (ps.client_time p.payload) n s h k) h

    answer_ping-append :
        (now : ℕ) (m : Option ℕ) (n : Net (Site F E)) (s : Session) (x : List ℕ)
        → s.closing ≡ false
        → answer_ping ps zero_f out env now m n (append_stream s x)
          ≡ with_later x (answer_ping ps zero_f out env now m n s)
    unfolding answer_ping
    answer_ping-append now none n s x o = ground arith
    answer_ping-append now (some t) n s x o =
        ap (λ (r : Net (Site F E) × Session). (true, r.0, r.1))
          (enqueue_send-append env (buffer_of out op_s_pong (s_pong t now)) n s x o).0

    handle_packet-append :
        (room : Bool) (now sid : ℕ) (p : Packet) (n : Net (Site F E)) (s : Session) (x : List ℕ)
        → s.closing ≡ false
        → handle_packet ps zero_f out env room now sid p n (append_stream s x)
          ≡ with_later x (handle_packet ps zero_f out env room now sid p n s)
    unfolding handle_packet handle_ping
    handle_packet-append room now sid p n s x o =
        if_apply (with_later x) (p.header.opcode == op_c_ping) _ _ _ _
          (answer_ping-append now (ps.client_time p.payload) n s x o)
          (ap
            (λ c. (
              (dispatch ps zero_f out room sid p n.world.game).0,
              record n {
                world = record n.world {
                  game = (dispatch ps zero_f out room sid p n.world.game).1;
                };
              },
              if c then s else append_stream s x,
            ))
            (sym o))

  -- What `main` sets, with the handler left out: a handler does not call another.
  module _ {E : Type 0} (os : Os (Site F E)) (clock : E → ℕ) (new_player : ℕ → Player F)
      (room : Bool) where
    abbrev pub sending_callbacks : Callbacks (Site F E)
    sending_callbacks = record {
      packet_handler = λ id p n s. (false, n, s);
      on_connected = some (λ id n s. (
        record n { world = record n.world { game = on_connected new_player id n.world.game } },
        s,
      ));
      on_disconnected =
          some (λ id n. record n {
            world = record n.world { game = on_disconnected id n.world.game };
          });
    }

    -- What the handler calls of session `id`.
    abbrev pub sending_env : ℕ → Env (Net (Site F E))
    sending_env id = session_env os sending_callbacks id

    abbrev pub server_callbacks : Callbacks (Site F E)
    server_callbacks = record {
      packet_handler = λ id p n s.
          handle_packet ps zero_f out (sending_env id) room (clock n.world.system) id p n s;
      on_connected = some (λ id n s. (
        record n { world = record n.world { game = on_connected new_player id n.world.game } },
        s,
      ));
      on_disconnected =
          some (λ id n. record n {
            world = record n.world { game = on_disconnected id n.world.game };
          });
    }

    -- Session `id` of the server.
    abbrev pub server : ℕ → Env (Net (Site F E))
    server id = session_env os server_callbacks id

    -- The server's handler and callback leave every session in order: they keep the count of the
    -- references, the queue and the posted receive.
    pub server-IsOrderly : (id : ℕ) → IsOrderly (server id)
    unfolding notify_connected call_connected
    server-IsOrderly id =
        let env = sending_env id in
        record {
          handle_counted = λ held p n s v.
              handle_packet-cases env (IsCounted held) room (clock n.world.system) id p n s v
                (λ b. enqueue_send-IsCounted env held b n s v);
          handle_queued = λ p n s v.
              handle_packet-cases env (IsQueued 0) room (clock n.world.system) id p n s v
                (λ b. enqueue_send-IsQueued env b n s v);
          handle_pending = λ p n s.
              handle_packet-cases env (λ t. t.pending_recv ≡ s.pending_recv) room
                (clock n.world.system) id p n s refl (λ b. enqueue_send-pending env b n s);
          connect_counted = λ held n s v. v;
          connect_queued = λ n s v. v;
          connect_pending = λ n s. refl;
        }

    -- The server's handler neither adds to the receive stream of its session nor looks at it.
    pub server-IsFraming : (id : ℕ) → IsFraming (server id)
    server-IsFraming id =
        let env = sending_env id in
        record {
          handle_length = λ p n s.
              handle_packet-cases env (λ t. length t.recv_stream ≤ length s.recv_stream) room
                (clock n.world.system) id p n s (omega arith) (λ b. enqueue_send-length env b n s);
          handle_append =
              λ p n s x o. handle_packet-append env room (clock n.world.system) id p n s x o;
        }

    sending-IsTame : IsTame os sending_callbacks
    unfolding notify_connected call_connected notify_disconnected call_disconnected remove_session
    sending-IsTame = record {
      packet_tracks = λ id p n s. Tracks-refl id n s;
      connected_tracks = λ id n s. record { stays = λ c. c; erased = ground arith };
      disconnected_keeps = λ id n. refl;
    }

    answer_ping-Tracks :
        (id now : ℕ) (m : Option ℕ) (n : Net (Site F E)) (s : Session)
        → let r = answer_ping ps zero_f out (sending_env id) now m n s in Tracks id n s r.1 r.2
    unfolding answer_ping
    answer_ping-Tracks id now none n s = Tracks-refl id n s
    answer_ping-Tracks id now (some t) n s =
        enqueue_send-Tracks os sending_callbacks sending-IsTame id
          (buffer_of out op_s_pong (s_pong t now)) n s

    handle_packet-Tracks :
        (id now : ℕ) (p : Packet) (n : Net (Site F E)) (s : Session)
        → let r = handle_packet ps zero_f out (sending_env id) room now id p n s in
          Tracks id n s r.1 r.2
    unfolding handle_packet handle_ping
    handle_packet-Tracks id now p n s =
        if_both (λ (r : Bool × Net (Site F E) × Session). Tracks id n s r.1 r.2)
          (p.header.opcode == op_c_ping) _ _
          (answer_ping-Tracks id now (ps.client_time p.payload) n s)
          (record { stays = λ c. c; erased = ground arith })

    -- They touch the set of sessions only by closing the session itself.
    pub server-IsTame : IsTame os server_callbacks
    unfolding notify_connected call_connected notify_disconnected call_disconnected remove_session
    server-IsTame = record {
      packet_tracks = λ id p n s. handle_packet-Tracks id (clock n.world.system) p n s;
      connected_tracks = λ id n s. record { stays = λ c. c; erased = ground arith };
      disconnected_keeps = λ id n. refl;
    }

    -- So every state that a session of the server can reach has an exact count, a queue that agrees
    -- with the send in flight and is within its bound, and at most one receive posted.
    pub server-IsHandled :
        (id : ℕ) (n : Net (Site F E)) {t : Net (Site F E) × Session}
        → SessionReach (server id) n t
        → IsHandled 0 t.1
    server-IsHandled id n r = Reach-IsHandled (server id) (server-IsOrderly id) n r

    -- In every state that the server can reach, whatever its clients send and the system answers, the
    -- set of sessions holds exactly those made and not closed, each once; and every session has an
    -- exact reference count, a queue within its bound that agrees with the one send in flight, and at
    -- most one receive posted.
    pub server-IsRegistered :
        (w : Site F E) {v : Service (Site F E)} → Reach os server_callbacks w v → IsRegistered v
    server-IsRegistered w r =
        Reach-IsRegistered os server_callbacks server-IsTame server-IsOrderly w r
