-- ===== src/Handler/Delivered.antt =====
-- What reaches the handler of SimpleServer/ServerPacketHandler.cpp from a client: the server of
-- SimpleServer/ServerMain.cpp on the sessions of ServerCore/Session.cpp.
use simple_server.Prelude.{ℕ, ◌≡◌, refl, Bool, false, List, [], ◌++◌}
use simple_server.Packet.{Packet}
use simple_server.Player.{Player}
use simple_server.World.{Site, Outside}
use simple_server.Session.{Session, Env, new_session}
use simple_server.Session.Aside.{Log, recording}
use simple_server.Session.Heard.{LeavesEmpty, received_bytes}
use simple_server.Session.Reach.{Reach}
use simple_server.Session.Wire.{Message, wire, parcels, HaveOpcodes, received-wire}
use simple_server.Service.{Net, Os, notify_connected, call_connected}
use simple_server.Handler.{Parsers}
use simple_server.Handler.Server.{server, server-IsFraming}

module _ {F E : Type 0} (ps : Parsers F) (zero_f : F) (out : Outside F) (os : Os (Site F E))
    (clock : E → ℕ) (new_player : ℕ → Player F) (room : Bool) where
  abbrev session_of : ℕ → Env (Net (Site F E))
  session_of id = server ps zero_f out os clock new_player room id

  -- The callback that makes the player does not touch the stream of the session.
  server-LeavesEmpty : (id : ℕ) → LeavesEmpty (session_of id)
  unfolding notify_connected call_connected new_session
  server-LeavesEmpty id n = refl

  -- The server's handler is given the messages of its client: if the bytes received are the beginning
  -- of what the client put on the wire, its packets are the beginning of the client's, in order; and
  -- all of them once all the bytes are there and the session is still open.
  pub server-received :
      (id : ℕ) (n : Net (Site F E)) {t : Log (Net (Site F E)) × Session}
      (r : Reach (recording (session_of id)) (n, []) t) (ms : List Message) (later : List ℕ)
      → HaveOpcodes ms
      → received_bytes r ++ later ≡ wire ms
      → ((ts : List Packet) × (parcels ms ≡ t.0.1 ++ ts))
        × (later ≡ [] → t.1.closing ≡ false → t.0.1 ≡ parcels ms)
  server-received id n r ms later h e =
      received-wire (session_of id) (server-IsFraming ps zero_f out os clock new_player room id)
        (server-LeavesEmpty id) n r ms later h e
