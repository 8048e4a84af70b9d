-- ===== src/Service.antt =====
-- ServerCore/NetService.h and NetService.cpp: the sessions of a server or a client, and how they begin
-- and end. A `Session*` is a number, which is not used again once the object is deleted; `objects` is
-- the heap of sessions. Each operation runs to its end before another starts. Windows, WinSock, the
-- packet handler and the two callbacks are arguments; handles are closed without a trace.

pub mod Preserves
pub mod Reach
pub mod Registered
pub mod Running
pub mod Start
pub mod Stop
pub mod Tracks
use simple_server.Prelude.{
  ℕ, zero, suc, ◌+◌, ◌-◌, ◌*◌, ◌/◌, ◌%◌, ◌^◌, ◌≤◌, ◌<◌, ◌≡◌, refl, sym, ap, ap₂, ◌∙◌, ◌≢◌, ◌↔◌, ◌⊎◌,
  inl, inr, Bool, true, false, not, ◌&&◌, ◌||◌, Option, none, some, List, [], ◌∷◌, ◌++◌, map, arith,
  ltb, leb, ◌==◌, if◌then◌else◌, ltb→lt, lt→ltb, le→ltb, ltb-false→le, leb→le, le→leb, ==_iff,
  Bool-cases, Option-cases, ◌>>=◌, length, is_empty, get_or, take, drop, tail_of, replicate,
  length-append, length-drop, length-take, length-replicate, take-append, drop-append, take_all,
  drop_all, take-append_le, drop-append_le, along_some, if-cases, if_both, drop-drop, bind-some,
}
use simple_server.SendBuffer.{SendBuffer, make_send_buffer}
use simple_server.Packet.{Packet}
use simple_server.Keys.{insert_key, erase_key}
use simple_server.Session.{
  Session, Env, new_session, start, close, enqueue_send, complete_recv, complete_send,
}

pub data Mode : Type 0 where
  no_mode server_mode client_mode : Mode

-- What the sessions share: `_sessions`, and the rest of the world.
pub record Net (W : Type 0) : Type 0 where
  pub sessions : List ℕ
  pub world : W

-- `listen`, `iocp` and `workers` are the handles that are open.
pub record Service (W : Type 0) : Type 0 where
  pub mode : Mode
  pub running : Bool
  pub listen : Bool
  pub iocp : Bool
  pub workers : ℕ
  pub net : Net W
  pub objects : ℕ → Session
  pub next_session : ℕ

-- Calls of the system; `true` is success (for `recv` and `send` WSA_IO_PENDING too).
pub record Os (W : Type 0) : Type 0 where
  pub open_socket : W → Bool × W
  pub bind_socket : W → Bool × W
  pub listen_socket : W → Bool × W
  pub connect_socket : W → Bool × W
  pub accept_socket : W → Bool × W
  pub create_port : W → Bool × W
  pub create_thread : W → Bool × W
  pub register_socket : ℕ → W → Bool × W
  pub recv : ℕ → W → Bool × W
  pub send_bytes : ℕ → SendBuffer → W → Bool × W

-- `_packetHandler`, `_onConnected` and `_onDisconnected`; an empty `std::function` is `none`.
pub record Callbacks (W : Type 0) : Type 0 where
  pub packet_handler : ℕ → Packet → Net W → Session → Bool × Net W × Session
  pub on_connected : Option (ℕ → Net W → Session → Net W × Session)
  pub on_disconnected : Option (ℕ → Net W → Net W)

-- What `GetQueuedCompletionStatus` hands a worker: the wake-up of `Stop`, or the end of an operation
-- of a session with the result of the call.
pub data Completion : Type 0 where
  wake_up : Completion
  received : ℕ → Bool → List ℕ → Completion
  transmitted : ℕ → Bool → ℕ → Completion

unfoldable pub is_server : Mode → Bool
is_server server_mode = true
is_server client_mode = false
is_server no_mode = false

unfoldable pub is_client : Mode → Bool
is_client client_mode = true
is_client server_mode = false
is_client no_mode = false

module _ {W : Type 0} where
  unfoldable pub add_session : ℕ → Net W → Net W
  add_session id n = record n { sessions = insert_key id n.sessions }

  unfoldable pub remove_session : ℕ → Net W → Net W
  remove_session id n = record n { sessions = erase_key id n.sessions }

  unfoldable pub new_service : W → Service W
  new_service w = record {
    mode = no_mode;
    running = false;
    listen = false;
    iocp = false;
    workers = 0;
    net = record { sessions = []; world = w };
    objects = λ id. new_session;
    next_session = 0;
  }

  -- A call of the system.
  abbrev pub on_net : (W → Bool × W) → Net W → Bool × Net W
  on_net f n = let (ok, w) = f n.world in (ok, record n { world = w })

  abbrev pub calling : (W → Bool × W) → Service W → Bool × Service W
  calling f v = let (ok, n) = on_net f v.net in (ok, record v { net = n })

  -- The session `id` after something has run on it.
  unfoldable pub update_session : ℕ → Net W × Session → Service W → Service W
  update_session id (n, s) v = record v {
    net = n;
    objects = λ k. if k == id then s else v.objects k;
  }

  -- The end of `Stop`: the workers return when they take the wake-ups, which it waits for.
  unfoldable pub close_workers : Service W → Service W
  close_workers v = if v.iocp then record v { workers = 0; iocp = false } else v

  module _ (os : Os W) (cb : Callbacks W) where
    unfoldable pub call_connected :
        Option (ℕ → Net W → Session → Net W × Session) → ℕ → Net W → Session → Net W × Session
    call_connected none id n s = (n, s)
    call_connected (some fn) id n s = fn id n s

    unfoldable pub notify_connected : ℕ → Net W → Session → Net W × Session
    unfolding call_connected
    notify_connected id n s = call_connected cb.on_connected id n s

    unfoldable pub call_disconnected : Option (ℕ → Net W → Net W) → ℕ → Net W → Net W
    call_disconnected none id n = n
    call_disconnected (some fn) id n = fn id n

    unfoldable pub notify_disconnected : ℕ → Net W → Net W
    unfolding call_disconnected remove_session
    notify_disconnected id n = call_disconnected cb.on_disconnected id (remove_session id n)

    -- What session `id` calls.
    abbrev pub session_env : ℕ → Env (Net W)
    session_env id = record {
      wsa_recv = λ n. on_net (os.recv id) n;
      wsa_send = λ b n. on_net (os.send_bytes id b) n;
      handle_packet = λ p n s. cb.packet_handler id p n s;
      notify_connected = λ n s. notify_connected id n s;
      notify_disconnected = λ n. notify_disconnected id n;
    }

    -- The factory only makes the object. One that cannot be registered is deleted before anybody has
    -- a pointer to it.
    unfoldable pub create_and_register_session : Service W → Bool × Service W
    create_and_register_session v =
        let id = v.next_session in
        let (h, n) = on_net (os.register_socket id) v.net in
        if not h then (false, record v { net = n }) else (
          true,
          update_session id (start (session_env id) (add_session id n) new_session)
              (record v { next_session = id + 1 }),
        )

    unfoldable pub connect_to : Service W → Bool × Service W
    connect_to v =
        if not (is_client v.mode) || not v.running
        then (false, v)
        else (let (opened, v1) = calling os.open_socket v in
            if not opened
            then (false, v1)
            else (let (connected, v2) = calling os.connect_socket v1 in
                if not connected then (false, v2) else create_and_register_session v2))

    -- The body of the loop of `RunAcceptLoop`.
    unfoldable pub accept_round : Service W → Service W
    accept_round v =
        let (accepted, v1) = calling os.accept_socket v in
        if not accepted then v1 else (create_and_register_session v1).1

    -- The loop with its test of `_running`, for `n` rounds at most. The flag says that it has ended.
    unfoldable pub accept_loop : ℕ → Service W → Bool × Service W
    accept_loop zero v = (not v.running, v)
    accept_loop (suc n) v = elim v.running [
      | true ↦ accept_loop n (accept_round v)
      | false ↦ (true, v)
    ]

    unfoldable pub run_accept_loop : ℕ → Service W → Bool × Service W
    run_accept_loop n v = if not (is_server v.mode) then (true, v) else accept_loop n v

    unfoldable pub close_session : ℕ → Service W → Service W
    close_session id v = update_session id (close (session_env id) v.net (v.objects id)) v

    unfoldable pub close_all : List ℕ → Service W → Service W
    close_all [] v = v
    close_all (id ∷ ids) v = close_all ids (close_session id v)

    unfoldable pub stop : Service W → Service W
    stop v =
        if not v.running
        then v
        else close_workers (close_all v.net.sessions (record v { running = false; listen = false }))

    unfoldable pub send_to : SendBuffer → ℕ → Service W → Service W
    send_to b id v =
        if (v.objects id).closing
        then v
        else update_session id (enqueue_send (session_env id) (some b) v.net (v.objects id)) v

    unfoldable pub send_to_all : SendBuffer → List ℕ → Service W → Service W
    send_to_all b [] v = v
    send_to_all b (id ∷ ids) v = send_to_all b ids (send_to b id v)

    unfoldable pub broadcast_buffer : Option SendBuffer → Service W → Service W
    broadcast_buffer none v = v
    broadcast_buffer (some b) v = send_to_all b v.net.sessions v

    unfoldable pub broadcast_packet : List ℕ → Service W → Service W
    broadcast_packet packet v = broadcast_buffer (make_send_buffer packet) v

    unfoldable pub visit_each :
        (ℕ → Net W → Session → Net W × Session) → List ℕ → Service W → Service W
    visit_each fn [] v = v
    visit_each fn (id ∷ ids) v =
        visit_each fn ids
          (if (v.objects id).closing then v else update_session id (fn id v.net (v.objects id)) v)

    unfoldable pub for_each_session :
        (ℕ → Net W → Session → Net W × Session) → Service W → Service W
    for_each_session fn v = visit_each fn v.net.sessions v

    -- One round of `WorkerLoop`; the flag says that the loop goes on. `none` never comes
    -- (`Session.Drain`).
    unfoldable pub worker_round : Completion → Service W → Option (Bool × Service W)
    worker_round wake_up v = some (false, v)
    worker_round (received id ok bytes) v =
        complete_recv (session_env id) ok bytes v.net (v.objects id) >>= λ r.
        some (true, update_session id r v)
    worker_round (transmitted id ok bytes) v =
        some
          (true, update_session id (complete_send (session_env id) ok bytes v.net (v.objects id)) v)
