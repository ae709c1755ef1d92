-- ===== src/Wire/Artnet/Accept.antt =====
-- dmx_packet_artnet.hpp: what `deserialize` accepts.
use lxmax.Common.{
  ℕ, suc, ◌+◌, ◌*◌, ◌/◌, ◌%◌, ◌^◌, ◌≤◌, ◌<◌, ◌≡◌, ◌↔◌, refl, ap, sym, true, List, [], ◌∷◌, ◌++◌,
  length, length-take, Bool, take, drop, arith,
}
use lxmax.Wire.Bytes.{
  u16, str_eq, byte_at, byte_at_lt, IsBytes-drop, take-drop, length-drop, drop-drop, drop_step,
  IsBytes, str_eq_sound,
}
use lxmax.Wire.Artnet.{k_artnet_id, header_bytes, header_of, DmxPacketArtnet, artnet_deserialize}
use lxmax.Wire.Artnet.RoundTrip.{IsSound, artnet_deserialize-bytes}

ten_bytes :
    (t : List ℕ)
    → 10 ≤ length t
    → byte_at t 0
        ∷ byte_at t 1
        ∷ byte_at t 2
        ∷ byte_at t 3
        ∷ byte_at t 4
        ∷ byte_at t 5
        ∷ byte_at t 6
        ∷ byte_at t 7
        ∷ byte_at t 8
        ∷ byte_at t 9
        ∷ drop 10 t
      ≡ t
ten_bytes t h =
    let step : (n : ℕ) → n < 10 → byte_at t n ∷ drop (suc n) t ≡ drop n t =
      λ n k. sym (drop_step n t (omega (arith, h, k))) in
    rw
      (
        step 9 (omega arith),
        step 8 (omega arith),
        step 7 (omega arith),
        step 6 (omega arith),
        step 5 (omega arith),
        step 4 (omega arith),
        step 3 (omega arith),
        step 2 (omega arith),
        step 1 (omega arith),
        step 0 (omega arith),
      )
      refl

-- The first 18 bytes are those of the header that is copied from them.
header_bytes-of :
    (s : List ℕ) → IsBytes s → 18 ≤ length s → header_bytes (header_of s) (drop 18 s) ≡ s
unfolding header_bytes header_of
header_bytes-of s b h =
    let t : List ℕ = drop 8 s in
    let lo : byte_at t 0 < 2 ^ 8 = byte_at_lt 0 t (IsBytes-drop 8 s b) in
    let enough : 10 ≤ length t = omega (arith, h, length-drop 8 s) in
    let m : (byte_at t 0 + byte_at t 1 * 256) % 256 ≡ byte_at t 0 = omega (arith, lo) in
    let d : (byte_at t 0 + byte_at t 1 * 256) / 256 ≡ byte_at t 1 = omega (arith, lo) in
    rw (sym (drop-drop 10 8 s), m, d, ten_bytes t enough) (take-drop 8 s)

-- What the tests of `deserialize` show of the bytes that pass them, and the packet that they give.
tests_passed :
    (s : List ℕ) (q : DmxPacketArtnet)
    → (artnet_deserialize s q).0 ≡ true
    → (str_eq (take 8 s) k_artnet_id ≡ true)
      × 14 ≤ u16 ((header_of s).prot_ver)
      × 2 ≤ u16 ((header_of s).length)
      × u16 ((header_of s).length) ≤ 512
      × 18 + u16 ((header_of s).length) ≤ length s
      × (artnet_deserialize s q ≡ (
        true,
        record {
          header = header_of s;
          dmx_channels = take (u16 ((header_of s).length)) (drop 18 s);
        },
      ))
unfolding artnet_deserialize header_of
tests_passed s q h = ground arith

opcode_of_lt : (s : List ℕ) → IsBytes s → (header_of s).opcode < 2 ^ 16
unfolding header_of
opcode_of_lt s b =
    let t : List ℕ = drop 8 s in
    omega (arith, byte_at_lt 0 t (IsBytes-drop 8 s b), byte_at_lt 1 t (IsBytes-drop 8 s b))

-- What `deserialize` accepts is a sound packet, and its bytes are those that were received.
accepted-IsSound :
    (s : List ℕ) (q : DmxPacketArtnet)
    → IsBytes s
    → (artnet_deserialize s q).0 ≡ true
    → let p = (artnet_deserialize s q).1 in
      IsSound p
      × (header_bytes p.header (p.dmx_channels ++ drop (18 + length p.dmx_channels) s) ≡ s)
unfolding header_of
accepted-IsSound s q b h =
    let a = tests_passed s q h in
    let n : ℕ = u16 ((header_of s).length) in
    let t : List ℕ = drop 18 s in
    let m : length (take n t) ≡ n = omega (arith, length-take n t, length-drop 18 s, a.2, a.4) in
    let id : take 8 s ≡ k_artnet_id =
      str_eq_sound (take 8 s) (b'A' ∷ b'r' ∷ b't' ∷ b'-' ∷ b'N' ∷ b'e' ∷ b't' ∷ []) (omega arith)
        (omega (arith, length-take 8 s, a.2, a.4)) a.0 in
    let all : header_bytes (header_of s) (take n t ++ drop (18 + n) s) ≡ s =
      rw (sym (drop-drop n 18 s), take-drop n t) (header_bytes-of s b (omega (arith, a.4))) in
    rw a.5 (
      record {
        id_eq = id;
        opcode_lt = opcode_of_lt s b;
        version = a.1;
        counted = sym m;
        at_least = omega (arith, m, a.2);
        at_most = omega (arith, m, a.3);
      },
      rw m all,
    )

-- On bytes, `deserialize` accepts exactly what starts with the bytes of a sound packet: the
-- identifier, the version, a count of channels from 2 to 512 and as many channels; it then fills in
-- that packet.
pub artnet_deserialize_iff :
    (s : List ℕ) (q p : DmxPacketArtnet)
    → IsBytes s
    → (artnet_deserialize s q ≡ (true, p))
      ↔ IsSound p × (rest : List ℕ) × (s ≡ header_bytes p.header (p.dmx_channels ++ rest))
artnet_deserialize_iff s q p b = (
  λ h.
      let a = accepted-IsSound s q b (ap (λ (r : Bool × DmxPacketArtnet). r.0) h) in
      let e : (artnet_deserialize s q).1 ≡ p = ap (λ (r : Bool × DmxPacketArtnet). r.1) h in
      let c = rw e at a in (c.0, drop (18 + length p.dmx_channels) s, sym c.1),
  λ h. rw h.2 (artnet_deserialize-bytes p q h.1 h.0),
)
