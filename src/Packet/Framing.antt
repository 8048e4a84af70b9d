-- ===== src/Packet/Framing.antt =====
-- `MakePacket` and `TryGetPacket` of ServerCore/Packet.cpp undo one another, and
-- `MakePacketFromProto` of ServerCore/ProtoUtil.cpp keeps `MakePacket` inside its bounds.
use simple_server.Prelude.{
  ℕ, zero, suc, ◌+◌, ◌-◌, ◌≤◌, ◌<◌, ◌≡◌, refl, ap, ◌∙◌, ◌⊎◌, inl, inr, true, false, Option, none,
  some, List, [], ◌∷◌, ◌++◌, arith, ltb, leb, ltb→lt, lt→ltb, ltb-false→le, Bool-cases, length,
  take, drop, replicate, length-append, length-drop, length-replicate, take-append, drop-append,
  take_all, drop_all,
}
use mathlib.Core.List.{append-nil}
use simple_server.Opcodes.{is_valid_opcode}
use simple_server.SendBuffer.{memcpy, memcpy_lem}
use simple_server.Packet.{
  PacketHeader, Packet, header_size, max_packet_size, u16, header_bytes, read_header, success,
  make_packet, try_get_packet, copy_payload, make_packet_from_proto,
}
use simple_server.Packet.Decode.{IsFrame, try_get_packet-frame}

-- The header of a packet with `n` bytes of payload.
abbrev pub header_of : ℕ → ℕ → PacketHeader
header_of op n = record { size = header_size + n; opcode = op }

copy_payload_lem :
    (h : PacketHeader) (rest payload : List ℕ) (n : ℕ)
    → length rest ≡ n
    → n ≤ length payload
    → copy_payload (header_bytes h ++ rest) (some payload) n
      ≡ some (header_bytes h ++ take n payload)
unfolding copy_payload header_bytes
copy_payload_lem h [] payload zero e l = refl
copy_payload_lem h (x ∷ xs) payload zero e l = absurd (omega arith)
copy_payload_lem h rest payload (suc n) e l =
    let pkt = header_bytes h ++ rest in
    rw
      (
        lt→ltb 0 (suc n) (omega arith),
        memcpy_lem pkt 4 payload (suc n) l (omega arith),
        drop_all (4 + suc n) pkt (omega arith),
      )
      (ap (λ r. some (header_bytes h ++ r)) (append-nil (take (suc n) payload)))

-- A payload that leaves the size within 16 bits is packed behind its header.
pub make_packet_lem :
    (op : ℕ) (payload : List ℕ) (n : ℕ)
    → n ≤ length payload
    → n ≤ 65531
    → make_packet op (some payload) n ≡ some (header_bytes (header_of op n) ++ take n payload)
unfolding make_packet
make_packet_lem op payload n l b =
    let h = header_of op n in
    let zeros : List ℕ = replicate (4 + n) 0 in
    let size : u16 (4 + n) ≡ 4 + n = omega arith in
    let room : length zeros ≡ 4 + n = length-replicate (4 + n) 0 in
    rw (size, memcpy_lem zeros 0 (header_bytes h) 4 (omega arith) (omega arith))
      (copy_payload_lem h (drop 4 zeros) payload n (omega (arith, length-drop 4 zeros)) l)

-- For a payload length of 65532 to 65535 the 16-bit size wraps, and the copy of the header is out of
-- bounds.
pub make_packet_wraps :
    (op : ℕ) (payload : Option (List ℕ)) (n : ℕ)
    → 65532 ≤ n
    → n ≤ 65535
    → make_packet op payload n ≡ none
unfolding make_packet memcpy
make_packet_wraps op payload n h k =
    let zeros : List ℕ = replicate (u16 (4 + n)) 0 in
    let room : length zeros ≡ u16 (4 + n) = length-replicate (u16 (4 + n)) 0 in
    let short : leb (0 + 4) (length zeros) ≡ false = ground arith in rw short

read_header_bytes : (h : PacketHeader) (rest : List ℕ) → read_header (header_bytes h ++ rest) ≡ h
unfolding read_header header_bytes
read_header_bytes h rest = ground arith

-- What follows a packed payload is left in the stream.
header_bytes-IsFrame :
    (op n : ℕ) (rest : List ℕ)
    → n ≤ length rest
    → n ≤ max_packet_size - header_size
    → is_valid_opcode op ≡ true
    → IsFrame (header_bytes (header_of op n) ++ rest)
unfolding header_bytes
header_bytes-IsFrame op n rest l b v =
    let e = read_header_bytes (header_of op n) rest in
    record {
      long_enough = omega arith;
      at_least = rw e (omega arith);
      at_most = rw e (omega arith);
      opcode_valid = rw e v;
      whole = rw e (omega arith);
    }

drop_header :
    (n : ℕ) (h : PacketHeader) (xs : List ℕ)
    → drop (header_size + n) (header_bytes h ++ xs) ≡ drop n xs
unfolding header_bytes
drop_header n h xs =
    let e : header_size + n ≡ suc (suc (suc (suc n))) = omega arith in
    ap (λ k. drop k (header_bytes h ++ xs)) e

-- The stream that begins with a packed payload, read back.
read_packed :
    (op : ℕ) (payload rest : List ℕ) (out : Packet)
    → length payload ≤ 65527
    → is_valid_opcode op ≡ true
    → let s = header_bytes (header_of op (length payload)) ++ (payload ++ rest) in
      try_get_packet s out
      ≡ (success, rest, record { header = header_of op (length payload); payload = payload })
unfolding header_bytes
read_packed op payload rest out b v =
    let n = length payload in
    let h = header_of op n in
    let s = header_bytes h ++ (payload ++ rest) in
    let e = read_header_bytes h (payload ++ rest) in
    let back : header_size + n - header_size ≡ n = omega arith in
    try_get_packet-frame s out
      (header_bytes-IsFrame op n (payload ++ rest) (omega (arith, length-append payload rest)) b v)
    ∙ rw (
      e,
      drop_header n h (payload ++ rest),
      drop-append payload rest,
      back,
      take-append payload rest,
    )

-- Packing a payload of at most 65527 bytes under a valid opcode succeeds, and reading a stream
-- that begins with the packet gives the payload back and leaves what follows.
pub try_get_packet-make_packet :
    (op : ℕ) (payload rest : List ℕ) (out : Packet)
    → length payload ≤ 65527
    → is_valid_opcode op ≡ true
    → (pkt : List ℕ) × (make_packet op (some payload) (length payload) ≡ some pkt)
      × (try_get_packet (pkt ++ rest) out
          ≡ (success, rest, record { header = header_of op (length payload); payload = payload }))
unfolding header_bytes
try_get_packet-make_packet op payload rest out b v =
    let n = length payload in
    (
      header_bytes (header_of op n) ++ payload,
      make_packet_lem op payload n (omega arith) (omega arith)
          ∙ rw (take_all n payload (omega arith)),
      read_packed op payload rest out b v,
    )

-- What a packet built from the message `m` promises: it reads back as `m`, whatever follows it.
abbrev pub ReadsBack : ℕ → List ℕ → List ℕ → Type 0
ReadsBack op m pkt =
    (rest : List ℕ) (out : Packet)
    → try_get_packet (pkt ++ rest) out
      ≡ (success, rest, record { header = header_of op (length m); payload = m })

-- For a message that serialises to `m`, and a valid opcode, `MakePacketFromProto` never runs out of
-- bounds. It returns the empty vector when `m` is empty or longer than 65527 bytes, and otherwise a
-- packet of `length m + 4` bytes that reads back as `m`.
pub make_packet_from_proto_lem :
    (op : ℕ) (m : List ℕ)
    → is_valid_opcode op ≡ true
    → ((make_packet_from_proto op (some m) ≡ some []) × ((length m ≡ 0) ⊎ (65527 < length m)))
      ⊎ ((pkt : List ℕ) × (make_packet_from_proto op (some m) ≡ some pkt)
          × (length pkt ≡ length m + 4)
          × ReadsBack op m pkt)
unfolding make_packet_from_proto header_bytes
make_packet_from_proto_lem op [] v = inl (refl, inl refl)
make_packet_from_proto_lem op (x ∷ xs) v = elim (Bool-cases (ltb 65527 (length (x ∷ xs)))) [
  | inl long ↦ inl (rw long, inr (ltb→lt 65527 (length (x ∷ xs)) long))
  | inr fits ↦
      let m = x ∷ xs in
      let b = ltb-false→le 65527 (length m) fits in
      let small : u16 (length m) ≡ length m = omega arith in
      inr (
        header_bytes (header_of op (length m)) ++ m,
        rw (fits, small)
            (make_packet_lem op m (length m) (omega arith) (omega arith)
              ∙ rw (take_all (length m) m (omega arith))),
        omega arith,
        λ rest out. read_packed op m rest out b v,
      )
]
