-- ===== src/SendBuffer.antt =====
-- ServerCore/SendBuffer.h and `MakeSendBuffer` of ServerCore/Packet.cpp. Sizes stay below 2^31
-- (a packet is at most 65535 bytes), so the casts between `size_t` and `int32_t` are exact.
use simple_server.Prelude.{
  ℕ, ◌+◌, ◌≤◌, ◌≡◌, ap, ◌∙◌, ◌&&◌, Option, none, some, List, ◌∷◌, ◌++◌, arith, ltb, leb,
  if◌then◌else◌, lt→ltb, le→ltb, le→leb, ◌>>=◌, length, is_empty, take, drop, replicate,
  length-replicate, take_all, drop_all,
}
use mathlib.Core.List.{append-nil}

pub record SendBuffer : Type 0 where
  pub buffer : List ℕ
  pub write_size : ℕ

-- `memcpy(dst + off, src, n)`. `none` is a read or a write out of bounds.
unfoldable pub memcpy : List ℕ → ℕ → List ℕ → ℕ → Option (List ℕ)
memcpy dst off src n =
    if leb n (length src) && leb (off + n) (length dst)
    then some (take off dst ++ (take n src ++ drop (off + n) dst))
    else none

unfoldable pub new_send_buffer : ℕ → SendBuffer
new_send_buffer size = record { buffer = replicate size 0; write_size = 0 }

unfoldable pub capacity : SendBuffer → ℕ
capacity b = length b.buffer

-- `none` is the exception "SendBuffer overflow", or a fault of `memcpy`.
unfoldable pub copy_from : List ℕ → ℕ → SendBuffer → Option SendBuffer
unfolding capacity
copy_from src len b = if ltb (capacity b) len then none else do
  bytes ← if ltb 0 len then memcpy b.buffer 0 src len else some b.buffer
  some (record { buffer = bytes; write_size = len })

-- The null pointer is `none`; so is an exception, which `make_send_buffer_lem` rules out.
unfoldable pub make_send_buffer : List ℕ → Option SendBuffer
unfolding copy_from new_send_buffer
make_send_buffer packet =
    if is_empty packet
    then none
    else copy_from packet (length packet) (new_send_buffer (length packet))

-- Within both bounds the copy replaces `n` bytes and keeps the rest.
pub memcpy_lem :
    (dst : List ℕ) (off : ℕ) (src : List ℕ) (n : ℕ)
    → n ≤ length src
    → off + n ≤ length dst
    → memcpy dst off src n ≡ some (take off dst ++ (take n src ++ drop (off + n) dst))
unfolding memcpy
memcpy_lem dst off src n h k = rw (le→leb n (length src) h, le→leb (off + n) (length dst) k)

-- A copy that fills the destination.
pub memcpy_whole :
    (dst src : List ℕ) → length dst ≡ length src → memcpy dst 0 src (length src) ≡ some src
memcpy_whole dst src h =
    memcpy_lem dst 0 src (length src) (omega arith) (omega arith)
    ∙ rw (take_all (length src) src (omega arith), drop_all (0 + length src) dst (omega arith))
        (ap some (append-nil src))

-- A packet that is not empty is copied whole, and no exception is thrown.
pub make_send_buffer_lem :
    (x : ℕ) (xs : List ℕ)
    → make_send_buffer (x ∷ xs) ≡ some (record { buffer = x ∷ xs; write_size = length (x ∷ xs) })
unfolding make_send_buffer
make_send_buffer_lem x xs =
    let n = length (x ∷ xs) in
    let zeros : List ℕ = replicate n 0 in
    rw (
      le→ltb (length zeros) n (omega (arith, length-replicate {A = ℕ} n 0)),
      lt→ltb 0 n (omega arith),
      memcpy_whole zeros (x ∷ xs) (length-replicate n 0),
    )
