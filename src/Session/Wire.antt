-- ===== src/Session/Wire.antt =====
-- From `MakePacketFromProto` (ServerCore/ProtoUtil.cpp) at one end of a connection to the handler at
-- the other (ServerCore/Session.cpp), whatever TCP does with the bytes between: it may cut them
-- anywhere, and may not have brought all of them yet.
use simple_server.Prelude.{
  ℕ, ◌≡◌, refl, sym, ◌∙◌, inl, inr, true, false, ◌||◌, Option, none, some, List, [], ◌∷◌, ◌++◌,
  arith, ltb, if◌then◌else◌, Bool-cases, ◌>>=◌, length, is_empty,
}
use simple_server.IoContext.{wsa_bytes, send_context, send_context_lem}
use simple_server.SendBuffer.{SendBuffer, make_send_buffer}
use mathlib.Core.List.{append-nil}
use simple_server.Opcodes.{is_valid_opcode}
use simple_server.Packet.{Packet, empty_packet, incomplete, try_get_packet, make_packet_from_proto}
use simple_server.Packet.Framing.{header_of, ReadsBack, make_packet_from_proto_lem}
use simple_server.Packet.Reads.{
  Reads, Reads-refl, Reads-one, Reads-trans, Reads-append, Reads-prefix, incomplete-Stuck,
}
use simple_server.Session.{Session, Env}
use simple_server.Session.Drain.{IsFraming}
use simple_server.Session.Aside.{Log, recording}
use simple_server.Session.Heard.{LeavesEmpty, received_bytes, Reach-IsCaughtUp}
use simple_server.Session.Reach.{Reach}

-- A message as a sender has it: its opcode, and the bytes that it serialises to.
abbrev pub Message : Type 0
Message = ℕ × List ℕ

abbrev or_nothing : Option (List ℕ) → List ℕ
or_nothing none = []
or_nothing (some bytes) = bytes

-- The bytes that `EnqueueSend` has WinSock send for a packet, as a vector: none for the empty one.
abbrev pub sent_bytes : Option SendBuffer → List ℕ
sent_bytes none = []
sent_bytes (some b) = or_nothing (wsa_bytes (send_context b).wsa_buf)

-- The bytes that the sender puts on the wire for a message.
unfoldable pub packed : Message → List ℕ
packed (op, m) = sent_bytes (make_packet_from_proto op (some m) >>= make_send_buffer)

unfoldable pub wire : List Message → List ℕ
wire [] = []
wire (m ∷ ms) = packed m ++ wire ms

-- The packet that the message is at the other end, if it can be packed.
unfoldable pub parcel : Message → List Packet
parcel (op, m) =
    if is_empty m || ltb 65527 (length m)
    then []
    else (record { header = header_of op (length m); payload = m } ∷ [])

unfoldable pub parcels : List Message → List Packet
parcels [] = []
parcels (m ∷ ms) = parcel m ++ parcels ms

-- Every opcode is one that the protocol has.
unfoldable pub HaveOpcodes : List Message → Type 0
HaveOpcodes [] = Unit
HaveOpcodes ((op, m) ∷ ms) = (is_valid_opcode op ≡ true) × HaveOpcodes ms

no_packet :
    (op : ℕ) (m : List ℕ)
    → is_empty m || ltb 65527 (length m) ≡ true
    → make_packet_from_proto op (some m) ≡ some []
unfolding make_packet_from_proto
no_packet op m h = ground arith

fits :
    (op : ℕ) (m : List ℕ)
    → is_valid_opcode op ≡ true
    → is_empty m || ltb 65527 (length m) ≡ false
    → (pkt : List ℕ) × (make_packet_from_proto op (some m) ≡ some pkt) × ReadsBack op m pkt
fits op [] v h = absurd (cc)
fits op (x ∷ xs) v h = elim (make_packet_from_proto_lem op (x ∷ xs) v) [
  | inl (e, inl z) ↦ absurd (omega arith)
  | inl (e, inr l) ↦ ground arith
  | inr (pkt, e, l, back) ↦ (pkt, e, back)
]

packed_lem :
    (op : ℕ) (m pkt : List ℕ) → make_packet_from_proto op (some m) ≡ some pkt → packed (op, m) ≡ pkt
unfolding packed
packed_lem op m [] e = rw e (unfold make_send_buffer in refl)
packed_lem op m (x ∷ xs) e = let (b, made, sent) = send_context_lem x xs in rw (e, made, sent) refl

packed-Reads :
    (op : ℕ) (m rest : List ℕ)
    → is_valid_opcode op ≡ true
    → Reads (packed (op, m) ++ rest) (parcel (op, m)) rest
unfolding parcel
packed-Reads op m rest v = elim (Bool-cases (is_empty m || ltb 65527 (length m))) [
  | inl none_sent ↦ rw (none_sent, packed_lem op m [] (no_packet op m none_sent)) (Reads-refl rest)
  | inr sent ↦
      let (pkt, e, back) = fits op m v sent in
      rw (sent, packed_lem op m pkt e)
        (Reads-one (pkt ++ rest) rest (record { header = header_of op (length m); payload = m })
          (back rest empty_packet))
]

wire-Reads : (ms : List Message) → HaveOpcodes ms → Reads (wire ms) (parcels ms) []
unfolding wire parcels HaveOpcodes
wire-Reads [] h = Reads-refl []
wire-Reads ((op, m) ∷ ms) (v, h) =
    Reads-trans (packed (op, m) ++ wire ms) (wire ms) [] (parcel (op, m)) (parcels ms)
      (packed-Reads op m (wire ms) v) (wire-Reads ms h)

nothing_left : (try_get_packet [] empty_packet).0 ≡ incomplete
unfolding try_get_packet
nothing_left = refl

module _ {W : Type 0} (env : Env W) (framing : IsFraming env) (empty : LeavesEmpty env) where
  -- If the bytes received are the beginning of what a sender put on the wire for its messages, with
  -- opcodes of the protocol, the packets that the handler was given are the beginning of the packets of
  -- these messages, in order, none lost, repeated or changed; messages that cannot be packed have none.
  -- Once all the bytes are there and the session is still open, they are all of them.
  pub received-wire :
      (w : W) {t : Log W × Session} (r : Reach (recording env) (w, []) t) (ms : List Message)
      (later : List ℕ)
      → HaveOpcodes ms
      → received_bytes r ++ later ≡ wire ms
      → ((ts : List Packet) × (parcels ms ≡ t.0.1 ++ ts))
        × (later ≡ [] → t.1.closing ≡ false → t.0.1 ≡ parcels ms)
  received-wire w {t} r ms later h e =
      let u = Reach-IsCaughtUp env framing empty w r in
      let whole = wire-Reads ms h in
      let (ts, p, q) =
        Reads-prefix (wire ms) (u.left ++ later) [] t.0.1 (parcels ms)
          (rw (sym e) (Reads-append (received_bytes r) u.left later t.0.1 u.handed)) whole
          nothing_left in
      (
        (ts, p),
        λ z o.
            (let stuck =
                incomplete-Stuck (u.left ++ later) ts [] (rw (z, append-nil u.left) (u.partial o))
                  q in
              sym (p ∙ rw stuck (append-nil t.0.1))),
      )
