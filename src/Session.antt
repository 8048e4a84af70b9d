-- ===== src/Session.antt =====
-- A connection: ServerCore/Session.h and Session.cpp. A method takes the outside world
-- and the session, and returns both. The world answers for WinSock (does a call fail at once?), for
-- the packet handler, and for the two notifications of the service; `Env` names these calls.
-- `std::cout` is left out. Each method runs to its end before another starts, but `EnqueueSend` is
-- also given in the two parts that other threads can come between, and `Threads` has them all in parts.
pub mod Aside
pub mod Calls
pub mod Chunks
pub mod Delivery
pub mod Drain
pub mod Ends
pub mod Handling
pub mod Heard
pub mod Lifetime
pub mod Loop
pub mod Partial
pub mod Preserves
pub mod Reach
pub mod Send
pub mod Stream
pub mod Threads
pub mod Wire
use simple_server.Prelude.{
  ℕ, zero, suc, ◌+◌, ◌-◌, Bool, true, false, not, ◌||◌, Option, none, some, List, [], ◌∷◌, ◌++◌,
  leb, ◌==◌, if◌then◌else◌, ◌>>=◌, length, is_empty, tail_of,
}
use simple_server.SendBuffer.{SendBuffer, make_send_buffer}
use simple_server.Packet.{
  Packet, empty_packet, PacketReadResult, success, incomplete, invalid_header, invalid_opcode,
  packet_too_large, try_get_packet,
}

-- `sock` says that the handle is not INVALID_SOCKET. Three fields are the operating system's side:
-- the receives and sends whose `IoContext` it holds, and the buffers given to `WSASend`, in order.
-- `deleted` is set by `delete this`.
pub record Session : Type 0 where
  pub sock : Bool
  pub ref_count : ℕ
  pub closing : Bool
  pub recv_stream : List ℕ
  pub send_q : List SendBuffer
  pub sending : Bool
  pub pending_recv : ℕ
  pub pending_send : ℕ
  pub sent : List SendBuffer
  pub deleted : Bool

-- What a session calls. `wsa_recv` and `wsa_send` give `true` for success or WSA_IO_PENDING.
pub record Env (W : Type 0) : Type 0 where
  pub wsa_recv : W → Bool × W
  pub wsa_send : SendBuffer → W → Bool × W
  pub handle_packet : Packet → W → Session → Bool × W × Session
  pub notify_connected : W → Session → W × Session
  pub notify_disconnected : W → W

abbrev pub max_send_queue_size : ℕ
max_send_queue_size = 64

-- `Session::Session`
unfoldable pub new_session : Session
new_session = record {
  sock = true;
  ref_count = 1;
  closing = false;
  recv_stream = [];
  send_q = [];
  sending = false;
  pending_recv = 0;
  pending_send = 0;
  sent = [];
  deleted = false;
}

unfoldable pub add_ref : Session → Session
add_ref s = record s { ref_count = s.ref_count + 1 }

-- The count is positive whenever this runs (`Lifetime`).
unfoldable pub release : Session → Session
release s = record s { ref_count = s.ref_count - 1; deleted = s.deleted || s.ref_count == 1 }

-- How the loop of `OnRecvComplete` ends: by `break`, or by a `return`.
pub data LoopEnd : Type 0 where
  drained returned : LoopEnd

-- A `return` out of the loop.
abbrev pub returning : {W : Type 0} → W × Session → LoopEnd × W × Session
returning (w, s) = (returned, w, s)

module _ {W : Type 0} (env : Env W) where
  unfoldable pub close : W → Session → W × Session
  unfolding release
  close w s = if s.closing then (w, s) else (
    env.notify_disconnected w,
    release
        (record s { closing = true; sock = false; send_q = []; sending = false; recv_stream = [] }),
  )

  unfoldable pub close_with_log : W → Session → W × Session
  close_with_log w s = close w s

  unfoldable pub post_recv : W → Session → W × Session
  unfolding add_ref release close
  post_recv w s =
      if s.closing
      then (w, s)
      else (let s1 = add_ref s in
          let (started, w1) = env.wsa_recv w in
          if started
          then (w1, record s1 { pending_recv = s1.pending_recv + 1 })
          else close w1 (release s1))

  unfoldable pub start : W → Session → W × Session
  start w s = let (w1, s1) = env.notify_connected w s in post_recv w1 s1

  unfoldable pub post_front : List SendBuffer → W → Session → Bool × W × Session
  unfolding add_ref release
  post_front [] w s = (true, w, record s { sending = false })
  post_front (b ∷ bs) w s =
      if s.closing
      then (true, w, record s { sending = false })
      else (let s1 = add_ref s in
          let (started, w1) = env.wsa_send b w in
          if started
          then (
            true,
            w1,
            record s1 { pending_send = s1.pending_send + 1; sent = s1.sent ++ (b ∷ []) },
          )
          else (false, w1, record (release s1) { sending = false }))

  unfoldable pub post_send_front_no_lock : W → Session → Bool × W × Session
  unfolding post_front
  post_send_front_no_lock w s = post_front s.send_q w s

  -- The part of `EnqueueSend` under `_sendLock`; the flag is `needClose`.
  unfoldable pub enqueue_locked : SendBuffer → W → Session → Bool × W × Session
  unfolding post_send_front_no_lock
  enqueue_locked b w s =
      if leb max_send_queue_size (length s.send_q)
      then (true, w, s)
      else if s.sending
      then (false, w, record s { send_q = s.send_q ++ (b ∷ []) })
      else (let (posted, w1, s1) =
            post_send_front_no_lock w
              (record s { send_q = s.send_q ++ (b ∷ []); sending = true }) in
          (not posted, w1, s1))

  unfoldable pub close_if : Bool × W × Session → W × Session
  close_if (need_close, w, s) = if need_close then close_with_log w s else (w, s)

  unfoldable pub enqueue_send : Option SendBuffer → W → Session → W × Session
  enqueue_send none w s = (w, s)
  enqueue_send (some b) w s =
      if leb b.write_size 0 || s.closing then (w, s) else close_if (enqueue_locked b w s)

  -- The other `EnqueueSend`, for the bytes of a packet.
  unfoldable pub enqueue_packet : List ℕ → W → Session → W × Session
  enqueue_packet packet w s = enqueue_send (make_send_buffer packet) w s

  -- The part of `OnSendComplete` under `_sendLock`.
  unfoldable pub send_complete_locked : W → Session → Bool × W × Session
  unfolding post_send_front_no_lock
  send_complete_locked w s =
      let s1 = record s { send_q = tail_of s.send_q } in
      if is_empty s1.send_q || s1.closing
      then (false, w, record s1 { sending = false })
      else (let (posted, w1, s2) = post_send_front_no_lock w s1 in (not posted, w1, s2))

  unfoldable pub on_send_complete : W → Session → W × Session
  on_send_complete w s = close_if (send_complete_locked w s)

  -- `if (_closing) return;`, else the next round.
  abbrev pub unless_closing :
      (W → Session → Option (LoopEnd × W × Session))
      → Bool
      → W
      → Session
      → Option (LoopEnd × W × Session)
  unless_closing again true w s = some (returned, w, s)
  unless_closing again false w s = again w s

  -- What the loop does once `HandlePacket` has returned; `again` is the next round.
  abbrev pub after_packet :
      (W → Session → Option (LoopEnd × W × Session))
      → Bool × W × Session
      → Option (LoopEnd × W × Session)
  after_packet again (false, w, s) = some (returning (close_with_log w s))
  after_packet again (true, w, s) = unless_closing again s.closing w s

  -- One round of the loop, for each result of `TryGetPacket`.
  abbrev pub on_read :
      (W → Session → Option (LoopEnd × W × Session))
      → PacketReadResult
      → Packet
      → W
      → Session
      → Option (LoopEnd × W × Session)
  on_read again success pkt w s = after_packet again (env.handle_packet pkt w s)
  on_read again incomplete pkt w s = some (drained, w, s)
  on_read again invalid_header pkt w s = some (returning (close_with_log w s))
  on_read again invalid_opcode pkt w s = some (returning (close_with_log w s))
  on_read again packet_too_large pkt w s = some (returning (close_with_log w s))

  -- The `while (true)` of `OnRecvComplete`. `none` means that the fuel ran out.
  unfoldable pub recv_loop : ℕ → W → Session → Option (LoopEnd × W × Session)
  recv_loop zero w s = none
  recv_loop (suc fuel) w s =
      let read = try_get_packet s.recv_stream empty_packet in
      on_read (recv_loop fuel) read.0 read.2 w (record s { recv_stream = read.1 })

  -- Every round takes a packet of at least four bytes off the stream.
  unfoldable pub drain : W → Session → Option (LoopEnd × W × Session)
  drain w s = recv_loop (suc (length s.recv_stream)) w s

  unfoldable pub after_loop : LoopEnd × W × Session → W × Session
  after_loop (drained, w, s) = post_recv w s
  after_loop (returned, w, s) = (w, s)

  -- `bytes` are the `len` bytes of `data`, at most RECV_POST_SIZE of them.
  unfoldable pub on_recv_complete : List ℕ → W → Session → Option (W × Session)
  on_recv_complete bytes w s =
      if s.closing
      then some (w, s)
      else (drain w (record s { recv_stream = s.recv_stream ++ bytes }) >>= λ r.
          some (after_loop r))

  -- One round of `NetService::WorkerLoop` for a session whose receive or send has completed: the
  -- `IoContext` comes back from the system, and its reference is dropped last. `ok` is what
  -- `GetQueuedCompletionStatus` returned, and `bytes` what was transferred.
  unfoldable pub complete_recv : Bool → List ℕ → W → Session → Option (W × Session)
  complete_recv ok bytes w s =
      let s1 = record s { pending_recv = s.pending_recv - 1 } in
      (if not ok || is_empty bytes then some (close w s1) else on_recv_complete bytes w s1) >>= λ r.
      some (r.0, release r.1)

  unfoldable pub complete_send : Bool → ℕ → W → Session → W × Session
  complete_send ok bytes w s =
      let s1 = record s { pending_send = s.pending_send - 1 } in
      let r = if not ok || bytes == 0 then close w s1 else on_send_complete w s1 in
      (r.0, release r.1)
