-- ===== src/Wire/Sacn/RoundTrip.antt =====
-- packets/dmx_packet_sacn.hpp: layers that are written, then read.
use lxmax.Common.{
  ℕ, ◌+◌, ◌*◌, ◌/◌, ◌%◌, ◌^◌, ◌≤◌, ◌<◌, ◌≡◌, refl, ap, sym, ◌∙◌, ltb, not, ◌||◌, if◌then◌else◌,
  true, false, List, [], ◌∷◌, ◌++◌, length, length-append, drop, take, arith, bit_and,
}
use lxmax.Common.Bits.{bit_and_mask, bit_and_shifted}
use lxmax.Wire.Bytes.{u16, take_exact, drop_exact, drop_past, drop-drop, overwrite}
use lxmax.Wire.Sacn.Layers.{
  k_sacn_id, SacnRootLayer, root_bytes, root_of, SacnDmpLayer, dmp_bytes, dmp_of,
}
use lxmax.Wire.Sacn.Framing.{SacnFramingLayerData, framing_bytes, framing_of}
use lxmax.Wire.Sacn.{
  DmxPacketSacn, id_matches, sacn_dmx_length, sacn_deserialize, sacn_bytes, sacn_serialize,
}

pub root_of-bytes :
    (l : SacnRootLayer) (rest : List ℕ)
    → length l.id ≡ 12
    → length l.cid ≡ 16
    → root_of (root_bytes l rest) ≡ l
unfolding root_of root_bytes
root_of-bytes l rest h k =
    let tail : List ℕ =
      l.root_flags_length.hi
      ∷ l.root_flags_length.lo
      ∷ l.root_vector.b0
      ∷ l.root_vector.b1
      ∷ l.root_vector.b2
      ∷ l.root_vector.b3
      ∷ (l.cid ++ rest) in
    rw (take_exact 12 l.id tail h, drop_exact 12 l.id tail h, take_exact 16 l.cid rest k) refl

pub drop-root_bytes :
    (l : SacnRootLayer) (rest : List ℕ)
    → length l.id ≡ 12
    → length l.cid ≡ 16
    → (drop 38 (root_bytes l rest) ≡ rest) × (length (root_bytes l rest) ≡ 38 + length rest)
unfolding root_bytes
drop-root_bytes l rest h k =
    let tail : List ℕ =
      l.root_flags_length.hi
      ∷ l.root_flags_length.lo
      ∷ l.root_vector.b0
      ∷ l.root_vector.b1
      ∷ l.root_vector.b2
      ∷ l.root_vector.b3
      ∷ (l.cid ++ rest) in
    (
      drop_past 12 22 l.id tail h ∙ drop_exact 16 l.cid rest k,
      omega (arith, length-append l.id tail, length-append l.cid rest, h, k),
    )

pub framing_of-bytes :
    (l : SacnFramingLayerData) (rest : List ℕ)
    → length l.source_name ≡ 64
    → framing_of (framing_bytes l rest) ≡ l
unfolding framing_of framing_bytes
framing_of-bytes l rest h =
    let tail : List ℕ =
      l.priority ∷ l.sync_address.hi ∷ l.sync_address.lo ∷ l.sequence ∷ l.options ∷ l.universe.hi
      ∷ l.universe.lo ∷ rest in
    rw (take_exact 64 l.source_name tail h, drop_exact 64 l.source_name tail h) refl

pub drop-framing_bytes :
    (l : SacnFramingLayerData) (rest : List ℕ)
    → length l.source_name ≡ 64
    → (drop 77 (framing_bytes l rest) ≡ rest) × (length (framing_bytes l rest) ≡ 77 + length rest)
unfolding framing_bytes
drop-framing_bytes l rest h =
    let tail : List ℕ =
      l.priority ∷ l.sync_address.hi ∷ l.sync_address.lo ∷ l.sequence ∷ l.options ∷ l.universe.hi
      ∷ l.universe.lo ∷ rest in
    (drop_past 64 7 l.source_name tail h, omega (arith, length-append l.source_name tail, h))

pub dmp_of-bytes :
    (l : SacnDmpLayer) (rest : List ℕ)
    → (dmp_of (dmp_bytes l rest) ≡ l) × (length (dmp_bytes l rest) ≡ 11 + length rest)
unfolding dmp_of dmp_bytes
dmp_of-bytes l rest = (refl, omega arith)

pub drop-dmp_bytes : (l : SacnDmpLayer) (rest : List ℕ) → drop 11 (dmp_bytes l rest) ≡ rest
unfolding dmp_bytes
drop-dmp_bytes l rest = refl

-- The length that `deserialize` reads is one of two, and neither is in its range.
dmx_length_cases : (l : SacnDmpLayer) → 513 < sacn_dmx_length l
unfolding sacn_dmx_length
dmx_length_cases l =
    let f : ℕ = u16 l.dmp_flags_length in
    let e : bit_and f 0x1000 ≡ bit_and (f / 2 ^ 12) 1 * 2 ^ 12 = bit_and_shifted 12 f 1 in
    let b : bit_and (f / 2 ^ 12) 1 ≡ f / 2 ^ 12 % 2 = bit_and_mask 1 (f / 2 ^ 12) in
    omega (arith, e, b)

range_refused :
    (l : SacnDmpLayer) → (ltb (sacn_dmx_length l) 1 || ltb 513 (sacn_dmx_length l)) ≡ true
range_refused l = ground (arith, dmx_length_cases l)

-- The branches that are left of `deserialize`.
sacn_deserialize-branches :
    (s : List ℕ) (p : DmxPacketSacn)
    → sacn_deserialize s p ≡ (
        if ltb (length s) 126
        then (false, p)
        else if not (id_matches ((root_of s).id) k_sacn_id)
        then (false, record p { root_layer = root_of s })
        else (
          false,
          record p {
            root_layer = root_of s;
            framing_layer = framing_of (drop 38 s);
            dmp_layer = dmp_of (drop 115 s);
          },
        ))
unfolding sacn_deserialize
sacn_deserialize-branches s p = rw (range_refused (dmp_of (drop 115 s))) refl

-- No bytes are accepted as a DMX packet, and the channels of the packet that is passed stay.
pub sacn_deserialize-refuses :
    (s : List ℕ) (p : DmxPacketSacn)
    → let r = sacn_deserialize s p in (r.0 ≡ false) × (r.1.dmx_channels ≡ p.dmx_channels)
sacn_deserialize-refuses s p = rw (sacn_deserialize-branches s p) (ground arith)

-- A packet as a sender makes it: the identifier, and arrays of the declared lengths.
pub record IsSoundSacn (p : DmxPacketSacn) : Type 0 where
  pub id_eq : p.root_layer.id ≡ k_sacn_id
  pub cid_length : length p.root_layer.cid ≡ 16
  pub name_length : length p.framing_layer.source_name ≡ 64

pub sacn_bytes-layers :
    (p : DmxPacketSacn)
    → IsSoundSacn p
    → (length (sacn_bytes p) ≡ 126 + length p.dmx_channels)
      × (root_of (sacn_bytes p) ≡ p.root_layer)
      × (framing_of (drop 38 (sacn_bytes p)) ≡ p.framing_layer)
      × (dmp_of (drop 115 (sacn_bytes p)) ≡ p.dmp_layer)
      × (drop 126 (sacn_bytes p) ≡ p.dmx_channels)
sacn_bytes-layers p v =
    let i : length p.root_layer.id ≡ 12 = ap length v.id_eq in
    let dmp = dmp_bytes p.dmp_layer p.dmx_channels in
    let framing = framing_bytes p.framing_layer dmp in
    let r = drop-root_bytes p.root_layer framing i v.cid_length in
    let f = drop-framing_bytes p.framing_layer dmp v.name_length in
    let d = dmp_of-bytes p.dmp_layer p.dmx_channels in
    let at_dmp : drop 115 (sacn_bytes p) ≡ dmp =
      sym (drop-drop 77 38 (sacn_bytes p)) ∙ ap (drop 77) r.0 ∙ f.0 in
    (
      omega (arith, r.1, f.1, d.1),
      root_of-bytes p.root_layer framing i v.cid_length,
      rw r.0 (framing_of-bytes p.framing_layer dmp v.name_length),
      rw at_dmp d.0,
      sym (drop-drop 11 115 (sacn_bytes p))
          ∙ ap (drop 11) at_dmp
          ∙ drop-dmp_bytes p.dmp_layer p.dmx_channels,
    )

pub id_matches_self : (s : List ℕ) → id_matches s s ≡ true
unfolding id_matches
id_matches_self [] = refl
id_matches_self (c ∷ s) = ground (arith, id_matches_self s)

not_short : (n : ℕ) → ltb (126 + n) 126 ≡ false
not_short n = ground arith

sacn_deserialize-bytes :
    (p q : DmxPacketSacn)
    → IsSoundSacn p
    → sacn_deserialize (sacn_bytes p) q ≡ (false, record p { dmx_channels = q.dmx_channels })
sacn_deserialize-bytes p q v =
    let l = sacn_bytes-layers p v in
    let m : id_matches p.root_layer.id k_sacn_id ≡ true =
      rw (sym v.id_eq) (id_matches_self p.root_layer.id) in
    let n : ltb (126 + length p.dmx_channels) 126 ≡ false = not_short (length p.dmx_channels) in
    simp (sacn_deserialize-branches, l.1, l.2, l.3, l.0, m, n) refl

sacn_serialize-fits :
    (p : DmxPacketSacn) (buffer : List ℕ)
    → 126 + length p.dmx_channels ≤ length buffer
    → sacn_serialize p buffer ≡ (126 + length p.dmx_channels, overwrite buffer (sacn_bytes p))
unfolding sacn_serialize
sacn_serialize-fits p buffer h = ground arith

-- A packet that is written into a buffer with room for it: `serialize` counts 126 bytes and the
-- channels, and reading those bytes gives back the packet's three layers. The channels that follow
-- them are not read: the packet is refused, and the one that is filled keeps its own.
pub sacn_deserialize-serialize :
    (p q : DmxPacketSacn) (buffer : List ℕ)
    → IsSoundSacn p
    → 126 + length p.dmx_channels ≤ length buffer
    → let r = sacn_serialize p buffer in
      (r.0 ≡ 126 + length p.dmx_channels)
      × (drop 126 (take r.0 r.1) ≡ p.dmx_channels)
      × (sacn_deserialize (take r.0 r.1) q ≡ (false, record p { dmx_channels = q.dmx_channels }))
sacn_deserialize-serialize p q buffer v h =
    let bytes = sacn_bytes p in
    let l = sacn_bytes-layers p v in
    let f = sacn_serialize-fits p buffer h in
    let t = take_exact (126 + length p.dmx_channels) bytes (drop (length bytes) buffer) l.0 in
    (ap (λ (r : ℕ × List ℕ). r.0) f, rw (f, t) l.4, rw (f, t) (sacn_deserialize-bytes p q v))
