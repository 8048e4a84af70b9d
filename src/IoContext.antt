-- ===== src/IoContext.antt =====
-- ServerCore/IoContext.h: what one overlapped receive or send carries. A pointer is given by the bytes
-- that it points to, and the null pointer is `none`; `overlapped` is the system's.
use simple_server.Prelude.{
  ℕ, ◌≡◌, refl, Option, none, some, List, [], ◌∷◌, arith, leb, ◌==◌, if◌then◌else◌, le→leb, length,
  take, replicate, length-replicate, take_all,
}
use simple_server.SendBuffer.{SendBuffer, make_send_buffer, make_send_buffer_lem}

abbrev pub recv_post_size : ℕ
recv_post_size = 4096

pub data IoType : Type 0 where
  recv send : IoType

-- `WSABUF`
pub record WsaBuf : Type 0 where
  pub buf : Option (List ℕ)
  pub len : ℕ

pub record IoContext : Type 0 where
  pub wsa_buf : WsaBuf
  pub io_type : IoType
  pub recv_buffer : List ℕ
  pub send_buffer : Option SendBuffer

unfoldable pub new_io_context : IoType → IoContext
new_io_context recv = record {
  wsa_buf = record { buf = some (replicate recv_post_size 0); len = recv_post_size };
  io_type = recv;
  recv_buffer = replicate recv_post_size 0;
  send_buffer = none;
}
new_io_context send = record {
  wsa_buf = record { buf = none; len = 0 };
  io_type = send;
  recv_buffer = replicate recv_post_size 0;
  send_buffer = none;
}

unfoldable pub bind_send_buffer : Option SendBuffer → IoContext → IoContext
bind_send_buffer none ctx = record ctx {
  send_buffer = none;
  wsa_buf = record { buf = none; len = 0 };
}
bind_send_buffer (some b) ctx = record ctx {
  send_buffer = some b;
  wsa_buf = record { buf = some b.buffer; len = b.write_size };
}

-- The bytes that WinSock reads from such a buffer; `none` is a read out of bounds.
unfoldable pub wsa_bytes : WsaBuf → Option (List ℕ)
wsa_bytes w = elim w.buf [
  | none ↦ if w.len == 0 then some [] else none
  | some bytes ↦ if leb w.len (length bytes) then some (take w.len bytes) else none
]

-- The `IoContext` that `PostSendFront_NoLock` makes for a buffer.
unfoldable pub send_context : SendBuffer → IoContext
unfolding bind_send_buffer new_io_context
send_context b = bind_send_buffer (some b) (new_io_context send)

whole_buffer :
    (bytes : List ℕ) (n : ℕ)
    → length bytes ≡ n
    → wsa_bytes (record { buf = some bytes; len = n }) ≡ some bytes
unfolding wsa_bytes
whole_buffer bytes n e =
    rw (le→leb n (length bytes) (omega arith), take_all n bytes (omega arith)) refl

-- What is sent for a packet is the packet, whole, and nothing is read beyond it.
pub send_context_lem :
    (x : ℕ) (xs : List ℕ)
    → (b : SendBuffer) × (make_send_buffer (x ∷ xs) ≡ some b)
      × (wsa_bytes (send_context b).wsa_buf ≡ some (x ∷ xs))
unfolding send_context bind_send_buffer
send_context_lem x xs = (
  record { buffer = x ∷ xs; write_size = length (x ∷ xs) },
  make_send_buffer_lem x xs,
  whole_buffer (x ∷ xs) (length (x ∷ xs)) refl,
)

-- A receive is given the whole of its own buffer.
new_io_context-recv :
    wsa_bytes (new_io_context recv).wsa_buf ≡ some (new_io_context recv).recv_buffer
unfolding new_io_context
new_io_context-recv =
    whole_buffer (replicate recv_post_size 0) recv_post_size
      (length-replicate {A = ℕ} recv_post_size 0)
