-- ===== src/Game.antt =====
-- The game as its threads drive it: rounds of the loop of SimpleServer/GameRoom.cpp, packets that
-- SimpleServer/ServerPacketHandler.cpp handles, and the callbacks of SimpleServer/ServerMain.cpp, in
-- any order, each of them whole.
pub mod Main
pub mod Served
use simple_server.Prelude.{
  ℕ, ◌≡◌, refl, sym, ap, ◌∙◌, Bool, Option, none, some, [], map, arith, ◌==◌, ◌>>=◌, if_both,
}
use simple_server.Float.{FloatOps}
use simple_server.Packet.{Packet}
use Prim.Native.String.{String}
use simple_server.Map.{Map}
use simple_server.Map.Load.{JsonOps, load}
use simple_server.Player.{Player, new_player, set_session}
use simple_server.Physics.{zero_f}
use simple_server.World.{World, Outside, on_connected, on_disconnected}
use simple_server.Room.{game_round}
use simple_server.Room.Quiet.{on_disconnected-IsQuiet}
use simple_server.Room.Invariant.{IsPlayer, IsRoom, IsQuiet-IsRoom}
use simple_server.Room.Kept.{game_round-IsRoom}
use simple_server.Handler.{Parsers, dispatch}
use simple_server.Handler.Posting.{IsPosting, dispatch-IsPosting}

module _ (fl : FloatOps) (out : Outside (FloatOps.F fl)) (ps : Parsers (FloatOps.F fl)) where
  open fl use {F}

  -- `std::make_shared<Player>(id, "")`
  unfoldable pub make_player : ℕ → Player F
  make_player id = new_player (zero_f fl) id []

  -- The room with its map, before the first client.
  unfoldable pub empty_room : Map F → World F
  empty_room m = record {
    objects = make_player;
    players = [];
    map = m;
    server_tick = 0;
    task_queue = [];
    session_player = λ s. none;
    next_player_id = 1;
    calls = [];
  }

  -- `GameRoom::LoadMap`; `none` is an exception of the JSON library.
  unfoldable pub load_map : JsonOps F → String → World F → Option (Bool × World F)
  load_map js json_path w = load fl js json_path w.map >>= λ r. some (r.0, record w { map = r.1 })

  -- A session is connected only once.
  pub data Step (w v : World F) : Type 0 where
    connects : (s : ℕ) → w.session_player s ≡ none → v ≡ on_connected make_player s w → Step w v
    disconnects : (s : ℕ) → v ≡ on_disconnected s w → Step w v
    handles :
        (room : Bool) (s : ℕ) (p : Packet)
        → v ≡ (dispatch ps (zero_f fl) out room s p w).1
        → Step w v
    ticks : game_round fl out w ≡ some v → Step w v

  pub data Reach (m : Map F) : World F → Type 0 where
    opened : Reach m (empty_room m)
    next : {w v : World F} → Reach m w → Step w v → Reach m v

  make_player-IsPlayer : (id : ℕ) → IsPlayer fl out (make_player id)
  unfolding make_player new_player
  make_player-IsPlayer id = record { bounded = omega arith; still = refl }

  pub empty_room-IsRoom : (m : Map F) → IsRoom fl out (empty_room m)
  unfolding empty_room make_player new_player
  empty_room-IsRoom m = record {
    unique = tt;
    tick = omega arith;
    player = make_player-IsPlayer;
    owned = λ k s e. absurd (cc);
  }

  connected-owned :
      (s : ℕ) (w : World F)
      → w.session_player s ≡ none
      → IsRoom fl out w
      → (k t : ℕ) → ((on_connected make_player s w).objects k).session ≡ some t
      → (on_connected make_player s w).session_player t ≡ some k
  unfolding on_connected set_session
  connected-owned s w h g k t e = ground (arith, g.owned k t)

  pub on_connected-IsRoom :
      (s : ℕ) (w : World F)
      → w.session_player s ≡ none
      → IsRoom fl out w
      → IsRoom fl out (on_connected make_player s w)
  unfolding on_connected set_session
  on_connected-IsRoom s w h g = record {
    unique = g.unique;
    tick = g.tick;
    player = λ k.
        if_both (IsPlayer fl out) (k == w.next_player_id) _ _
          (let p = make_player-IsPlayer w.next_player_id in
            record { bounded = p.bounded; still = p.still })
          (g.player k);
    owned = connected-owned s w h g;
  }

  pub dispatch-IsRoom : (w v : World F) → IsPosting w v → IsRoom fl out w → IsRoom fl out v
  dispatch-IsRoom w v q g = record {
    unique = rw q.same_players g.unique;
    tick = rw q.same_tick g.tick;
    player = λ k. record {
      bounded = q.bounded k (g.player k).bounded;
      still = ap (λ (p : Player F). p.phys_state.vel.x) (q.buffered k) ∙ (g.player k).still;
    };
    owned = λ k s e.
        rw q.same_sessions
          (g.owned k s (sym (ap (λ (p : Player F). p.session) (q.buffered k)) ∙ e));
  }

  Step-IsRoom : {w v : World F} → Step w v → IsRoom fl out w → IsRoom fl out v
  Step-IsRoom {w} {v} (connects s h e) g = rw e (on_connected-IsRoom s w h g)
  Step-IsRoom {w} {v} (disconnects s e) g =
      rw e (IsQuiet-IsRoom fl out w _ (on_disconnected-IsQuiet s w) g)
  Step-IsRoom {w} {v} (handles room s p e) g =
      rw e (dispatch-IsRoom w _ (dispatch-IsPosting ps (zero_f fl) out room s p w) g)
  Step-IsRoom {w} {v} (ticks e) g = game_round-IsRoom fl out w v g e

  -- Whatever clients connect, send and leave, and whenever the room ticks: nobody is in the room
  -- twice, the tick is a 32-bit word, no player has more than 32 commands buffered or a horizontal
  -- velocity, and the session of a player is one whose player it is.
  pub Reach-IsRoom : (m : Map F) {w : World F} → Reach m w → IsRoom fl out w
  Reach-IsRoom m opened = empty_room-IsRoom m
  Reach-IsRoom m (next r s) = Step-IsRoom s (Reach-IsRoom m r)
