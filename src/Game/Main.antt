-- ===== src/Game/Main.antt =====
-- `main` of SimpleServer/ServerMain.cpp on the thread that runs it: `WSAStartup`, the start of the
-- service, the map, the game loop, the accept loop, and the end. What the workers and the thread of the
-- game loop do meanwhile is in `Game.Served`; the log files are in `Logs`.
use simple_server.Prelude.{ℕ, ◌≡◌, Bool, true, false, not, Option, none, some, if◌then◌else◌}
use Prim.Native.String.{String}
use simple_server.Float.{FloatOps}
use simple_server.Map.Load.{JsonOps}
use simple_server.Physics.{zero_f}
use simple_server.World.{World, Site, Outside}
use simple_server.Service.{Service, Os, Callbacks, new_service, run_accept_loop, stop}
use simple_server.Service.Start.{start_server}
use simple_server.Service.Stop.{IsStopped}
use simple_server.Handler.{Parsers}
use simple_server.Handler.Server.{server_callbacks}
use simple_server.Game.{make_player, load_map}

-- `looping` is the flag `_running` of the `GameRoom`, which its thread tests.
pub record Process (F E : Type 0) : Type 0 where
  pub service : Service (Site F E)
  pub looping : Bool

-- How far `main` gets: it returns a number, or `LoadMap` throws, which nothing catches, or it is still
-- in `RunAcceptLoop`.
pub data Progress (F E : Type 0) : Type 0 where
  returned : ℕ → Process F E → Progress F E
  thrown : Process F E → Progress F E
  accepting : Process F E → Progress F E

module _ (fl : FloatOps) (js : JsonOps (FloatOps.F fl)) (out : Outside (FloatOps.F fl))
    (ps : Parsers (FloatOps.F fl)) {E : Type 0} (os : Os (Site (FloatOps.F fl) E))
    (clock : E → ℕ) where
  open fl use {F}

  -- `handler.SetRoom(&room)` comes before the start.
  abbrev callbacks : Callbacks (Site F E)
  callbacks = server_callbacks ps (zero_f fl) out os clock (make_player fl out ps) true

  unfoldable pub start_looping : Process F E → Process F E
  start_looping p = record p { looping = true }

  unfoldable pub stop_looping : Process F E → Process F E
  stop_looping p = record p { looping = false }

  unfoldable pub stop_service : Process F E → Process F E
  stop_service p = record p { service = stop os callbacks p.service }

  -- The game loop starts, and then come at most `n` rounds of the accept loop. The destructor of the
  -- service stops it a second time.
  unfoldable pub serve : ℕ → Process F E → Progress F E
  unfolding start_looping stop_looping stop_service
  serve n p =
      let (ended, v) = run_accept_loop os callbacks n p.service in
      let p1 = record (start_looping p) { service = v } in
      if ended then returned 0 (stop_service (stop_service (stop_looping p1))) else accepting p1

  -- What `LoadMap` returns is not looked at.
  unfoldable pub with_map : ℕ → Process F E → Option (Bool × World F) → Progress F E
  unfolding serve
  with_map n p none = thrown p
  with_map n p (some (loaded, w)) = serve n (record p {
    service = record p.service {
      net = record p.service.net { world = record p.service.net.world { game = w } };
    };
  })

  -- From the construction of the service on.
  unfoldable pub open_server : String → ℕ → Site F E → Progress F E
  unfolding stop_service with_map
  open_server json_path n w =
      let (started, v) = start_server os callbacks 4 (new_service w) in
      let p : Process F E = record { service = v; looping = false } in
      if not started
      then returned 1 (stop_service p)
      else with_map n p (load_map fl out ps js json_path p.service.net.world.game)

  -- `wsa_startup` is the call of `WSAStartup`. Without it no service is made.
  unfoldable pub main : (Site F E → Bool × Site F E) → String → ℕ → Site F E → Progress F E
  main wsa_startup json_path n w =
      let (ok, w1) = wsa_startup w in
      if not ok
      then returned 1 (record { service = new_service w1; looping = false })
      else open_server json_path n w1

  -- Where `main` can be: it has returned 1, with everything stopped; or the JSON library threw; or it
  -- is in the accept loop of a service that runs as a server, beside the game loop.
  abbrev pub Outcome : String → Progress F E → Type 0
  Outcome json_path (returned code p) = (code ≡ 1) × IsStopped p.service × (p.looping ≡ false)
  Outcome json_path (thrown p) = load_map fl out ps js json_path p.service.net.world.game ≡ none
  Outcome json_path (accepting p) = (p.service.running ≡ true) × (p.looping ≡ true)
