-- ===== src/Packet/Decode.antt =====
-- What `TryGetPacket` of ServerCore/Packet.cpp does with a stream, one lemma for each way through it.
use simple_server.Prelude.{
  ℕ, ◌+◌, ◌-◌, ◌≤◌, ◌<◌, ◌≡◌, refl, ◌≢◌, inl, inr, true, List, [], ◌∷◌, ◌++◌, arith, ltb,
  if◌then◌else◌, ltb→lt, lt→ltb, le→ltb, ltb-false→le, Bool-cases, length, take, drop,
  length-append, length-drop, take-append_le, drop-append_le,
}
use simple_server.Opcodes.{is_valid_opcode}
use simple_server.Packet.{
  Packet, header_size, max_packet_size, u16, read_header, success, incomplete, try_get_packet,
}

-- The first `header.size` bytes of `s` are a packet that the server accepts.
pub record IsFrame (s : List ℕ) : Type 0 where
  pub long_enough : header_size ≤ length s
  pub at_least : header_size ≤ (read_header s).size
  pub at_most : (read_header s).size ≤ max_packet_size
  pub opcode_valid : is_valid_opcode (read_header s).opcode ≡ true
  pub whole : (read_header s).size ≤ length s

-- The packet at the front of a stream.
abbrev pub frame_packet : List ℕ → Packet
frame_packet s = record {
  header = read_header s;
  payload = take ((read_header s).size - header_size) (drop header_size s);
}

payload_guard :
    (n : ℕ) (xs : List ℕ)
    → n ≤ max_packet_size
    → (if ltb 0 (u16 (n - header_size)) then take (n - header_size) xs else [])
      ≡ take (n - header_size) xs
payload_guard n xs h = elim (Bool-cases (ltb 0 (n - 4))) [
  | inl p ↦ rw (lt→ltb 0 (u16 (n - 4)) (let q = ltb→lt 0 (n - 4) p in omega arith))
  | inr z ↦ let q : n - 4 ≡ 0 = (let r = ltb-false→le 0 (n - 4) z in omega arith) in rw q
]

-- A frame at the front is taken off the stream.
pub try_get_packet-frame :
    (s : List ℕ) (out : Packet)
    → IsFrame s
    → try_get_packet s out ≡ (success, drop (read_header s).size s, frame_packet s)
unfolding try_get_packet
try_get_packet-frame s out v = rw (
  le→ltb (length s) 4 v.long_enough,
  le→ltb (read_header s).size 4 v.at_least,
  le→ltb 65531 (read_header s).size v.at_most,
  v.opcode_valid,
  le→ltb (length s) (read_header s).size v.whole,
  payload_guard (read_header s).size (drop 4 s) v.at_most,
)

-- `success` means that there was a frame.
pub IsFrame-of_success :
    (s : List ℕ) (out : Packet) → (try_get_packet s out).0 ≡ success → IsFrame s
unfolding try_get_packet
IsFrame-of_success s out h = ground arith

-- A result other than `success` changes neither the stream nor the packet.
pub try_get_packet-keeps :
    (s : List ℕ) (out : Packet)
    → (try_get_packet s out).0 ≢ success
    → try_get_packet s out ≡ ((try_get_packet s out).0, s, out)
unfolding try_get_packet
try_get_packet-keeps s out h = ground arith

-- `incomplete` is returned only while fewer bytes are there than the largest packet has.
pub incomplete-length-lt :
    (s : List ℕ) (out : Packet) → (try_get_packet s out).0 ≡ incomplete → length s < max_packet_size
unfolding try_get_packet
incomplete-length-lt s out h = ground arith

read_header-append : (s t : List ℕ) → header_size ≤ length s → read_header (s ++ t) ≡ read_header s
unfolding read_header
read_header-append [] t h = absurd (omega arith)
read_header-append (a ∷ []) t h = absurd (omega arith)
read_header-append (a ∷ b ∷ []) t h = absurd (omega arith)
read_header-append (a ∷ b ∷ c ∷ []) t h = absurd (omega arith)
read_header-append (a ∷ b ∷ c ∷ d ∷ s) t h = refl

-- Bytes that arrive later do not change a frame.
pub IsFrame-append : (s t : List ℕ) → IsFrame s → IsFrame (s ++ t)
IsFrame-append s t v =
    let e = read_header-append s t v.long_enough in
    let l = length-append s t in
    record {
      long_enough = omega (arith, v.long_enough);
      at_least = rw e v.at_least;
      at_most = rw e v.at_most;
      opcode_valid = rw e v.opcode_valid;
      whole = rw e (omega (arith, v.whole));
    }

-- Nor the packet read, nor the rest but by standing behind it.
pub frame-append :
    (s t : List ℕ)
    → IsFrame s
    → (frame_packet (s ++ t) ≡ frame_packet s)
      × (drop (read_header (s ++ t)).size (s ++ t) ≡ drop (read_header s).size s ++ t)
frame-append s t v =
    let e = read_header-append s t v.long_enough in
    (
      rw (
        e,
        drop-append_le 4 s t v.long_enough,
        take-append_le ((read_header s).size - 4) (drop 4 s) t
            (omega (arith, length-drop 4 s, v.whole)),
      ),
      rw e (drop-append_le (read_header s).size s t v.whole),
    )

-- A stream whose result is neither `success` nor `incomplete` has the same result when more bytes
-- follow.
pub error-append :
    (s t : List ℕ) (out : Packet)
    → (try_get_packet s out).0 ≢ success
    → (try_get_packet s out).0 ≢ incomplete
    → (try_get_packet (s ++ t) out).0 ≡ (try_get_packet s out).0
unfolding try_get_packet
error-append s t out h k = elim (Bool-cases (ltb (length s) 4)) [
  | inl short ↦ absurd (k (rw short))
  | inr long ↦
      ground (arith, length-append s t, read_header-append s t (ltb-false→le (length s) 4 long))
]

-- A packet takes at least its header off the stream.
pub success-length :
    (s : List ℕ) (out : Packet)
    → (try_get_packet s out).0 ≡ success
    → length (try_get_packet s out).1 + 4 ≤ length s
success-length s out h =
    let v = IsFrame-of_success s out h in
    rw (try_get_packet-frame s out v)
      (omega (arith, length-drop (read_header s).size s, v.at_least, v.whole))

-- A packet that can be read is read alike when more bytes follow, which then stay behind the rest.
pub success-append :
    (s t : List ℕ) (out : Packet)
    → (try_get_packet s out).0 ≡ success
    → try_get_packet (s ++ t) out
      ≡ (success, (try_get_packet s out).1 ++ t, (try_get_packet s out).2)
success-append s t out h =
    let v = IsFrame-of_success s out h in
    let (p, q) = frame-append s t v in
    rw
      (try_get_packet-frame s out v, try_get_packet-frame (s ++ t) out (IsFrame-append s t v), p, q)
