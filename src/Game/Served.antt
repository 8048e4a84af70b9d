-- ===== src/Game/Served.antt =====
-- The whole server: ServerCore/NetService.cpp and Session.cpp with the handler and the callbacks of
-- SimpleServer, beside the thread of SimpleServer/GameRoom.cpp. What that thread sends through a session
-- is a step of its own (`sends` of `Service.Reach`).
use simple_server.Prelude.{
  ℕ, ◌+◌, ◌≤◌, ◌≡◌, refl, Bool, true, Option, none, some, arith, ◌==◌, if_both,
}
use simple_server.SendBuffer.{SendBuffer}
use simple_server.Float.{FloatOps}
use simple_server.Packet.{Packet}
use simple_server.Map.{Map}
use simple_server.Opcodes.{op_c_ping, op_s_pong}
use simple_server.Physics.{zero_f}
use simple_server.World.{World, Site, Outside, on_connected, on_disconnected, buffer_of, s_pong}
use simple_server.Session.{Session}
use simple_server.Session.Preserves.{Preserves, enqueue_send-Preserves}
use simple_server.Service.{
  Service, new_service, Net, Os, Callbacks, session_env, notify_connected, call_connected,
  notify_disconnected, call_disconnected, remove_session, add_session,
}
use simple_server.Service.Registered.{IsRegistered, new_service-IsRegistered}
use simple_server.Service.Reach.{Step, Step-IsRegistered}
use simple_server.Service.Preserves.{IsKept, Step-Holds}
use simple_server.Room.{game_round}
use simple_server.Room.Quiet.{on_disconnected-IsQuiet}
use simple_server.Room.Owners.{game_round-owners}
use simple_server.Room.Invariant.{IsRoom, IsQuiet-IsRoom}
use simple_server.Room.Kept.{game_round-IsRoom}
use simple_server.Handler.{Parsers, dispatch, answer_ping, handle_ping, handle_packet}
use simple_server.Handler.Posting.{dispatch-IsPosting}
use simple_server.Handler.Server.{
  sending_callbacks, server_callbacks, server-IsTame, server-IsOrderly,
}
use simple_server.Game.{
  make_player, empty_room, empty_room-IsRoom, on_connected-IsRoom, dispatch-IsRoom,
}

module _ (fl : FloatOps) (out : Outside (FloatOps.F fl)) (ps : Parsers (FloatOps.F fl)) where
  open fl use {F}

  -- The room is in order, and sessions from `b` on have no player yet.
  pub record InPlay (b : ℕ) (w : World F) : Type 0 where
    pub room : IsRoom fl out w
    pub fresh : (k : ℕ) → b ≤ k → w.session_player k ≡ none

  disconnected-InPlay : (b s : ℕ) (w : World F) → InPlay b w → InPlay b (on_disconnected s w)
  disconnected-InPlay b s w q =
      let h = on_disconnected-IsQuiet s w in
      record {
        room = IsQuiet-IsRoom fl out w _ h q.room;
        fresh = λ k l. rw h.same_owners (q.fresh k l);
      }

  dispatch-InPlay :
      (b s : ℕ) (p : Packet) (w : World F)
      → InPlay b w
      → InPlay b (dispatch ps (zero_f fl) out true s p w).1
  dispatch-InPlay b s p w q =
      let h = dispatch-IsPosting ps (zero_f fl) out true s p w in
      record {
        room = dispatch-IsRoom fl out ps w _ h q.room;
        fresh = λ k l. rw h.same_sessions (q.fresh k l);
      }

  connected-fresh :
      (id k : ℕ) (w : World F)
      → id + 1 ≤ k
      → ((j : ℕ) → id ≤ j → w.session_player j ≡ none)
      → (on_connected (make_player fl out ps) id w).session_player k ≡ none
  unfolding on_connected
  connected-fresh id k w l h = ground (arith, h k)

  connected-InPlay :
      (id : ℕ) (w : World F)
      → InPlay id w
      → InPlay (id + 1) (on_connected (make_player fl out ps) id w)
  connected-InPlay id w q = record {
    room = on_connected-IsRoom fl out ps id w (q.fresh id (omega arith)) q.room;
    fresh = λ k l. connected-fresh id k w l q.fresh;
  }

  round-InPlay : (b : ℕ) (w v : World F) → game_round fl out w ≡ some v → InPlay b w → InPlay b v
  round-InPlay b w v e q = record {
    room = game_round-IsRoom fl out w v q.room e;
    fresh = λ k l. rw (game_round-owners fl out w v e) (q.fresh k l);
  }

  -- WinSock and the other calls of the system do not touch the game.
  pub record IsApart {E : Type 0} (os : Os (Site F E)) : Type 0 where
    pub open_socket : (w : Site F E) → (os.open_socket w).1.game ≡ w.game
    pub bind_socket : (w : Site F E) → (os.bind_socket w).1.game ≡ w.game
    pub listen_socket : (w : Site F E) → (os.listen_socket w).1.game ≡ w.game
    pub connect_socket : (w : Site F E) → (os.connect_socket w).1.game ≡ w.game
    pub accept_socket : (w : Site F E) → (os.accept_socket w).1.game ≡ w.game
    pub create_port : (w : Site F E) → (os.create_port w).1.game ≡ w.game
    pub create_thread : (w : Site F E) → (os.create_thread w).1.game ≡ w.game
    pub register_socket : (id : ℕ) (w : Site F E) → (os.register_socket id w).1.game ≡ w.game
    pub recv : (id : ℕ) (w : Site F E) → (os.recv id w).1.game ≡ w.game
    pub send_bytes :
        (id : ℕ) (b : SendBuffer) (w : Site F E) → (os.send_bytes id b w).1.game ≡ w.game

  module _ {E : Type 0} (os : Os (Site F E)) (clock : E → ℕ) (apart : IsApart os) where
    abbrev sending : Callbacks (Site F E)
    sending = sending_callbacks ps (zero_f fl) out os clock (make_player fl out ps) true

    -- The callbacks of the server.
    abbrev pub serving : Callbacks (Site F E)
    serving = server_callbacks ps (zero_f fl) out os clock (make_player fl out ps) true

    abbrev Q : ℕ → Net (Site F E) → Type 0
    Q b n = InPlay b n.world.game

    sending-Preserves : (b id : ℕ) → Preserves (session_env os sending id) (Q b)
    unfolding notify_disconnected call_disconnected remove_session
    sending-Preserves b id = record {
      recv = λ n q. rw (apart.recv id n.world) q;
      send = λ c n q. rw (apart.send_bytes id c n.world) q;
      packet = λ p n s q. q;
      disconnected = λ n q. disconnected-InPlay b id n.world.game q;
    }

    answer_ping-Q :
        (b id now : ℕ) (m : Option ℕ) (n : Net (Site F E)) (s : Session)
        → Q b n
        → Q b (answer_ping ps (zero_f fl) out (session_env os sending id) now m n s).1
    unfolding answer_ping
    answer_ping-Q b id now none n s q = q
    answer_ping-Q b id now (some t) n s q =
        enqueue_send-Preserves (session_env os sending id) (Q b) (sending-Preserves b id)
          (buffer_of out op_s_pong (s_pong t now)) n s q

    handle_packet-Q :
        (b id : ℕ) (p : Packet) (n : Net (Site F E)) (s : Session)
        → Q b n
        → Q b (serving.packet_handler id p n s).1
    unfolding handle_packet handle_ping
    handle_packet-Q b id p n s q =
        if_both (λ (r : Bool × Net (Site F E) × Session). Q b r.1) (p.header.opcode == op_c_ping) _
          _ (answer_ping-Q b id (clock n.world.system) (ps.client_time p.payload) n s q)
          (dispatch-InPlay b id p n.world.game q)

    serving-Preserves : (b id : ℕ) → Preserves (session_env os serving id) (Q b)
    unfolding notify_disconnected call_disconnected remove_session
    serving-Preserves b id = record {
      recv = λ n q. rw (apart.recv id n.world) q;
      send = λ c n q. rw (apart.send_bytes id c n.world) q;
      packet = λ p n s q. handle_packet-Q b id p n s q;
      disconnected = λ n q. disconnected-InPlay b id n.world.game q;
    }

    serving-IsKept : IsKept os serving Q
    unfolding notify_connected call_connected add_session
    serving-IsKept = record {
      opening = λ b n q. rw (apart.open_socket n.world) q;
      binding = λ b n q. rw (apart.bind_socket n.world) q;
      listening = λ b n q. rw (apart.listen_socket n.world) q;
      connecting = λ b n q. rw (apart.connect_socket n.world) q;
      accepting = λ b n q. rw (apart.accept_socket n.world) q;
      port = λ b n q. rw (apart.create_port n.world) q;
      thread = λ b n q. rw (apart.create_thread n.world) q;
      registering = λ b id n q. rw (apart.register_socket id n.world) q;
      session = serving-Preserves;
      connected = λ id n s q. connected-InPlay id n.world.game q;
    }

    -- A step of the service, or a round of the game loop.
    pub data Play (v v' : Service (Site F E)) : Type 0 where
      serves : Step os serving v v' → Play v v'
      ticks :
          (w : World F)
          → game_round fl out v.net.world.game ≡ some w
          → v' ≡ record v { net = record v.net { world = record v.net.world { game = w } } }
          → Play v v'

    abbrev pub first_site : Map F → E → Site F E
    first_site m e = record { game = empty_room fl out ps m; system = e }

    -- From the construction of the room, with its map, and of the service.
    pub data Plays (m : Map F) (e : E) : Service (Site F E) → Type 0 where
      set_up : Plays m e (new_service (first_site m e))
      plays : {v v' : Service (Site F E)} → Plays m e v → Play v v' → Plays m e v'

    -- The service and the room in order.
    abbrev pub InOrder : Service (Site F E) → Type 0
    InOrder v = IsRegistered v × InPlay v.next_session v.net.world.game

    Play-InOrder : {v v' : Service (Site F E)} → Play v v' → InOrder v → InOrder v'
    Play-InOrder {v} {v'} (serves s) (g, q) = (
      Step-IsRegistered os serving
          (server-IsTame ps (zero_f fl) out os clock (make_player fl out ps) true)
          (server-IsOrderly ps (zero_f fl) out os clock (make_player fl out ps) true) s g,
      Step-Holds os serving Q serving-IsKept s q,
    )
    Play-InOrder {v} {v'} (ticks w e h) (g, q) = rw h (
      record { unique = g.unique; in_set = g.in_set; handled = g.handled },
      round-InPlay v.next_session v.net.world.game w e q,
    )

    new_service-InPlay :
        (m : Map F) (e : E)
        → let v = new_service (first_site m e) in InPlay v.next_session v.net.world.game
    unfolding new_service empty_room
    new_service-InPlay m e = record { room = empty_room-IsRoom fl out ps m; fresh = λ k l. refl }

    -- If the calls of the system do not touch the game, then whatever the clients send, the system
    -- answers and the room ticks and sends, in any order: the set of sessions holds exactly those made
    -- and not closed, each once, and every session has an exact reference count and an orderly queue;
    -- nobody is in the room twice, the tick is a 32-bit word, no player has more than 32 commands
    -- buffered or a horizontal velocity, the session of a player is one whose player it is, and a
    -- session that is not made yet has no player.
    pub Plays-InOrder :
        (m : Map F) (e : E) {v : Service (Site F E)}
        → Plays m e v
        → IsRegistered v × InPlay v.next_session v.net.world.game
    Plays-InOrder m e set_up = (new_service-IsRegistered (first_site m e), new_service-InPlay m e)
    Plays-InOrder m e (plays r s) = Play-InOrder s (Plays-InOrder m e r)
