-- ===== src/Tests/Served.antt =====
-- A concrete run of the whole server: it starts, accepts a client, and the room makes a round.
use simple_server.Prelude.{ℕ, ◌+◌, refl, Bool, true}
use simple_server.Prelude.Int.{ℤ}
use simple_server.World.{World, Site}
use simple_server.Service.{Service, Os, accept_round, new_service}
use simple_server.Service.Start.{start_server}
use simple_server.Service.Registered.{IsRegistered}
use simple_server.Service.Reach.{starts_server, accepts}
use simple_server.Room.Rounds.{game_round_total}
use simple_server.Game.Served.{
  IsApart, InPlay, set_up, plays, serves, ticks, serving, first_site, Plays-InOrder,
}
use simple_server.Tests.Fixed.{fixed, room_map, parsers, out}

-- The system counts its calls.
abbrev counted : Site ℤ ℕ → Bool × Site ℤ ℕ
counted w = (true, record w { system = w.system + 1 })

abbrev os : Os (Site ℤ ℕ)
os = record {
  open_socket = counted;
  bind_socket = counted;
  listen_socket = counted;
  connect_socket = counted;
  accept_socket = counted;
  create_port = counted;
  create_thread = counted;
  register_socket = λ id w. counted w;
  recv = λ id w. counted w;
  send_bytes = λ id b w. counted w;
}

apart : IsApart fixed out parsers os
apart = record {
  open_socket = λ w. refl;
  bind_socket = λ w. refl;
  listen_socket = λ w. refl;
  connect_socket = λ w. refl;
  accept_socket = λ w. refl;
  create_port = λ w. refl;
  create_thread = λ w. refl;
  register_socket = λ id w. refl;
  recv = λ id w. refl;
  send_bytes = λ id b w. refl;
}

abbrev clock : ℕ → ℕ
clock calls = calls

abbrev accepted : Service (Site ℤ ℕ)
accepted =
    let cb = serving fixed out parsers os clock apart in
    accept_round os cb
      (start_server os cb 4
        (new_service (first_site fixed out parsers os clock apart room_map 0))).1

-- The world after the round.
abbrev ticked : World ℤ
ticked = (game_round_total fixed out accepted.net.world.game).0

abbrev played : Service (Site ℤ ℕ)
played = record accepted {
  net = record accepted.net { world = record accepted.net.world { game = ticked } };
}

Plays-InOrder_example :
    IsRegistered played × InPlay fixed out parsers played.next_session played.net.world.game
Plays-InOrder_example = Plays-InOrder fixed out parsers os clock apart room_map 0 (
    plays (plays (plays set_up (serves (starts_server 4 refl))) (serves (accepts refl)))
      (ticks ticked (game_round_total fixed out accepted.net.world.game).1 refl))
