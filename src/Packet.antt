-- ===== src/Packet.antt =====
-- Wire packets: ServerCore/Packet.h, Packet.cpp and ProtoUtil.cpp. A byte is a number, and a
-- `std::vector<char>` is a list of them. The header is two little-endian 16-bit words, as the x86
-- target lays out the packed struct. The protobuf serialiser is an argument.
pub mod Decode
pub mod Framing
pub mod Reads
use simple_server.Prelude.{
  ℕ, ◌+◌, ◌-◌, ◌*◌, ◌/◌, ◌%◌, not, Option, none, some, List, [], ◌∷◌, ltb, if◌then◌else◌, ◌>>=◌,
  length, is_empty, get_or, take, drop, replicate,
}
use simple_server.Opcodes.{is_valid_opcode}
use simple_server.SendBuffer.{memcpy}

abbrev pub u16 : ℕ → ℕ
u16 n = n % 65536

abbrev pub max_packet_size : ℕ
max_packet_size = 65531

-- `sizeof(PacketHeader)`
abbrev pub header_size : ℕ
header_size = 4

pub record PacketHeader : Type 0 where
  pub size : ℕ
  pub opcode : ℕ

pub record Packet : Type 0 where
  pub header : PacketHeader
  pub payload : List ℕ

-- `Packet pkt{}`
abbrev pub empty_packet : Packet
empty_packet = record { header = record { size = 0; opcode = 0 }; payload = [] }

pub data PacketReadResult : Type 0 where
  success incomplete invalid_header invalid_opcode packet_too_large : PacketReadResult

-- The bytes of a `PacketHeader` in memory.
unfoldable pub header_bytes : PacketHeader → List ℕ
header_bytes h = h.size % 256 ∷ h.size / 256 ∷ h.opcode % 256 ∷ h.opcode / 256 ∷ []

-- `memcpy(&header, stream.data(), sizeof(PacketHeader))`
unfoldable pub read_header : List ℕ → PacketHeader
read_header s = record {
  size = get_or s 0 0 + get_or s 1 0 * 256;
  opcode = get_or s 2 0 + get_or s 3 0 * 256;
}

unfoldable pub copy_payload : List ℕ → Option (List ℕ) → ℕ → Option (List ℕ)
copy_payload pkt none payload_len = some pkt
copy_payload pkt (some payload) payload_len =
    if ltb 0 payload_len then memcpy pkt header_size payload payload_len else some pkt

-- `payload` is `none` for the null pointer. A result of `none` is a `memcpy` out of bounds.
unfoldable pub make_packet : ℕ → Option (List ℕ) → ℕ → Option (List ℕ)
unfolding header_bytes copy_payload
make_packet opcode payload payload_len =
    let size = u16 (header_size + payload_len) in
    do
      pkt ←
          memcpy (replicate size 0) 0 (header_bytes (record { size = size; opcode = opcode }))
            header_size
      copy_payload pkt payload payload_len

-- The inline overload with an opcode only.
unfoldable pub make_empty_packet : ℕ → Option (List ℕ)
unfolding make_packet
make_empty_packet opcode = make_packet opcode none 0

-- `stream` is changed only by `success`, and so is `out`.
unfoldable pub try_get_packet : List ℕ → Packet → PacketReadResult × List ℕ × Packet
unfolding read_header
try_get_packet stream out =
    let header = read_header stream in
    if ltb (length stream) header_size
    then (incomplete, stream, out)
    else if ltb header.size header_size
    then (invalid_header, stream, out)
    else if ltb max_packet_size header.size
    then (packet_too_large, stream, out)
    else if not (is_valid_opcode header.opcode)
    then (invalid_opcode, stream, out)
    else if ltb (length stream) header.size
    then (incomplete, stream, out)
    else (
      success,
      drop header.size stream,
      record {
        header = header;
        payload =
            if ltb 0 (u16 (header.size - header_size))
            then take (header.size - header_size) (drop header_size stream)
            else [];
      },
    )

-- `serialized` is what `SerializeToString` gives, `none` for its failure. The outer `none` is a
-- fault of `make_packet`; the empty list is the `{}` that the function returns when it gives up.
unfoldable pub make_packet_from_proto : ℕ → Option (List ℕ) → Option (List ℕ)
unfolding make_packet
make_packet_from_proto opcode none = some []
make_packet_from_proto opcode (some serialized) =
    if ltb (max_packet_size - header_size) (length serialized)
    then some []
    else if is_empty serialized
    then some []
    else make_packet opcode (some serialized) (u16 (length serialized))
