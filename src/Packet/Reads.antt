-- ===== src/Packet/Reads.antt =====
-- What `TryGetPacket` (ServerCore/Packet.cpp) makes of a whole stream of bytes when it is called again
-- and again: a description that knows nothing of sessions, handlers or pieces.
use simple_server.Prelude.{ℕ, ◌≡◌, refl, sym, ap, ◌∙◌, List, [], ◌∷◌, ◌++◌}
use simple_server.Packet.{Packet, empty_packet, success, incomplete, try_get_packet}
use simple_server.Packet.Decode.{success-append}

-- Reading from the front of `b` gives the packets `ps`, and leaves `x`.
unfoldable pub Reads : List ℕ → List Packet → List ℕ → Type 0
Reads b [] x = b ≡ x
Reads b (p ∷ ps) x =
    (rest : List ℕ) × (try_get_packet b empty_packet ≡ (success, rest, p)) × Reads rest ps x

pub Reads-refl : (b : List ℕ) → Reads b [] b
unfolding Reads
Reads-refl b = refl

pub Reads-one :
    (b x : List ℕ) (p : Packet)
    → try_get_packet b empty_packet ≡ (success, x, p)
    → Reads b (p ∷ []) x
unfolding Reads
Reads-one b x p e = (x, e, refl)

pub Reads-trans :
    (b x y : List ℕ) (ps qs : List Packet) → Reads b ps x → Reads x qs y → Reads b (ps ++ qs) y
unfolding Reads
Reads-trans b x y [] qs r t = rw r t
Reads-trans b x y (p ∷ ps) qs (rest, e, r) t = (rest, e, Reads-trans rest x y ps qs r t)

-- Bytes that come later stay behind the rest.
pub Reads-append : (b x c : List ℕ) (ps : List Packet) → Reads b ps x → Reads (b ++ c) ps (x ++ c)
unfolding Reads
Reads-append b x c [] r = ap (λ k. k ++ c) r
Reads-append b x c (p ∷ ps) (rest, e, r) = (
  rest ++ c,
  success-append b c empty_packet (ap (λ k. k.0) e) ∙ rw e refl,
  Reads-append rest x c ps r,
)

-- Nothing can be read from a stream whose first packet is not whole.
pub incomplete-Stuck :
    (b : List ℕ) (ps : List Packet) (x : List ℕ)
    → (try_get_packet b empty_packet).0 ≡ incomplete
    → Reads b ps x
    → ps ≡ []
unfolding Reads
incomplete-Stuck b [] x h r = refl
incomplete-Stuck b (p ∷ ps) x h (rest, e, r) = absurd (cc)

-- There is one way to read a stream: a shorter reading is the beginning of a longer one.
pub Reads-prefix :
    (b x y : List ℕ) (ps qs : List Packet)
    → Reads b ps x
    → Reads b qs y
    → (try_get_packet y empty_packet).0 ≡ incomplete
    → (ts : List Packet) × (qs ≡ ps ++ ts) × Reads x ts y
unfolding Reads
Reads-prefix b x y [] qs r t i = (qs, refl, rw (sym r) t)
Reads-prefix b x y (p ∷ ps) [] (rest, e, r) t i =
    let j : (try_get_packet b empty_packet).0 ≡ incomplete = rw t i in absurd (cc)
Reads-prefix b x y (p ∷ ps) (q ∷ qs) (rest, e, r) (rest', e', t) i =
    let same_rest : rest' ≡ rest = ap (λ k. k.1) (sym e' ∙ e) in
    let same_packet : q ≡ p = ap (λ k. k.2) (sym e' ∙ e) in
    let (ts, h, k) = Reads-prefix rest x y ps qs r (rw (sym same_rest) t) i in
    (ts, rw same_packet (ap (λ l. p ∷ l) h), k)
