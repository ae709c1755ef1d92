-- ===== src/Wire/Sacn/Sync.antt =====
-- packets/dmx_packet_sacn.hpp: the sync packet, written and read.
use lxmax.Common.{
  ℕ, ◌+◌, ◌-◌, ◌≤◌, ◌≡◌, ◌↔◌, refl, sym, ap, ap₂, length-take, ◌∙◌, ltb, true, false, List, [], ◌∷◌,
  length, drop, take, arith, ℤ,
}
use lxmax.Wire.Bytes.{u16, take_exact, overwrite, length-drop}
use lxmax.Wire.Sacn.Layers.{k_sacn_id, root_size, sacn_root_layer, root_set_length, root_of}
use lxmax.Wire.Sacn.Framing.{
  framing_sync_size, sacn_framing_layer_sync, framing_sync_bytes, framing_sync_of,
}
use lxmax.Wire.Sacn.{
  id_matches, SyncPacketSacn, sync_packet_sacn, sacn_sync_bytes, sacn_sync_deserialize,
  sacn_sync_serialize,
}
use lxmax.Wire.Sacn.RoundTrip.{root_of-bytes, drop-root_bytes, id_matches_self}
use lxmax.Wire.Sacn.Lengths.{flags_length}

-- A sync packet as a sender makes it: the identifier, and a `cid` of 16 bytes.
pub record IsSoundSync (p : SyncPacketSacn) : Type 0 where
  pub id_eq : p.root_layer.id ≡ k_sacn_id
  pub cid_length : length p.root_layer.cid ≡ 16

framing_sync_of-bytes :
    (p : SyncPacketSacn)
    → (framing_sync_of (framing_sync_bytes p.framing_layer) ≡ p.framing_layer)
      × (length (framing_sync_bytes p.framing_layer) ≡ 11)
unfolding framing_sync_of framing_sync_bytes
framing_sync_of-bytes p = (refl, refl)

sync_bytes-layers :
    (p : SyncPacketSacn)
    → IsSoundSync p
    → (length (sacn_sync_bytes p) ≡ 49)
      × (root_of (sacn_sync_bytes p) ≡ p.root_layer)
      × (framing_sync_of (drop 38 (sacn_sync_bytes p)) ≡ p.framing_layer)
sync_bytes-layers p v =
    let i : length p.root_layer.id ≡ 12 = ap length v.id_eq in
    let framing = framing_sync_bytes p.framing_layer in
    let f = framing_sync_of-bytes p in
    let r = drop-root_bytes p.root_layer framing i v.cid_length in
    (omega (arith, r.1, f.1), root_of-bytes p.root_layer framing i v.cid_length, rw r.0 f.0)

sacn_sync_deserialize-bytes :
    (p q : SyncPacketSacn) → IsSoundSync p → sacn_sync_deserialize (sacn_sync_bytes p) q ≡ (true, p)
unfolding sacn_sync_deserialize
sacn_sync_deserialize-bytes p q v =
    let l = sync_bytes-layers p v in
    let m : id_matches p.root_layer.id k_sacn_id ≡ true =
      rw (sym v.id_eq) (id_matches_self p.root_layer.id) in
    simp (l.1, l.2, l.0, m) refl

sacn_sync_serialize-fits :
    (p : SyncPacketSacn) (buffer : List ℕ)
    → 49 ≤ length buffer
    → sacn_sync_serialize p buffer ≡ (49, overwrite buffer (sacn_sync_bytes p))
unfolding sacn_sync_serialize
sacn_sync_serialize-fits p buffer h = ground arith

-- A sync packet that is written into a buffer with room for it, then read from the 49 bytes that
-- `serialize` counts, is the packet, whatever the buffer held and the packet that is filled was.
pub sacn_sync_deserialize-serialize :
    (p q : SyncPacketSacn) (buffer : List ℕ)
    → IsSoundSync p
    → 49 ≤ length buffer
    → let r = sacn_sync_serialize p buffer in
      (r.0 ≡ 49) × (sacn_sync_deserialize (take r.0 r.1) q ≡ (true, p))
sacn_sync_deserialize-serialize p q buffer v h =
    let f = sacn_sync_serialize-fits p buffer h in
    let bytes = sacn_sync_bytes p in
    (
      ap (λ (r : ℕ × List ℕ). r.0) f,
      rw (f, take_exact 49 bytes (drop (length bytes) buffer) ((sync_bytes-layers p v).0))
          (sacn_sync_deserialize-bytes p q v),
    )

-- The constructed sync packet has the identifier and a `cid` of 16 bytes, and each of its two layers
-- states the flags 7 and the number of bytes from its own length to the end of the packet.
pub sync_packet_sacn-lengths :
    (system_id : List ℕ) (sequence : ℕ) (sync : ℤ)
    → length system_id ≡ 16
    → let p = sync_packet_sacn system_id sequence sync in
      IsSoundSync p
      × (u16 p.root_layer.root_flags_length ≡ 0x7000 + length (drop 16 (sacn_sync_bytes p)))
      × (u16 p.framing_layer.framing_flags_length ≡ 0x7000 + length (drop 38 (sacn_sync_bytes p)))
unfolding sync_packet_sacn sacn_root_layer root_set_length sacn_framing_layer_sync
sync_packet_sacn-lengths system_id sequence sync h =
    let p = sync_packet_sacn system_id sequence sync in
    let v : IsSoundSync p = record { id_eq = refl; cid_length = h } in
    let bytes : List ℕ = sacn_sync_bytes p in
    let l : length bytes ≡ 49 = (sync_bytes-layers p v).0 in
    (
      v,
      flags_length (framing_sync_size + (root_size - 16)) (length (drop 16 bytes))
          (omega (arith, l, length-drop 16 bytes)) (omega arith),
      flags_length framing_sync_size (length (drop 38 bytes))
          (omega (arith, l, length-drop 38 bytes)) (omega arith),
    )

id_matches_sound : (id k : List ℕ) → length id ≡ length k → id_matches id k ≡ true → id ≡ k
unfolding id_matches
id_matches_sound [] [] h m = refl
id_matches_sound [] (k ∷ ks) h m = absurd (omega (arith, h))
id_matches_sound (c ∷ id) [] h m = absurd (omega (arith, h))
id_matches_sound (c ∷ id) (k ∷ ks) h m =
    let rest : id_matches id ks ≡ true = ground (arith, m) in
    let e : c ≡ k = ground (arith, m) in ap₂ ◌∷◌ e (id_matches_sound id ks (omega (arith, h)) rest)

root_of-id : (s : List ℕ) → (root_of s).id ≡ take 12 (drop 4 s)
unfolding root_of
root_of-id s = refl

-- Bytes are accepted as a sync packet exactly when there are 49 of them and the identifier stands at
-- the fifth: neither the vectors nor the lengths of the layers are looked at.
pub sacn_sync_deserialize_iff :
    (s : List ℕ) (q : SyncPacketSacn)
    → ((sacn_sync_deserialize s q).0 ≡ true) ↔ (49 ≤ length s) × (take 12 (drop 4 s) ≡ k_sacn_id)
unfolding sacn_sync_deserialize
sacn_sync_deserialize_iff s q = (
  λ h.
      let m : (49 ≤ length s) × (id_matches ((root_of s).id) k_sacn_id ≡ true) =
        ground (arith, h) in
      (
        m.0,
        id_matches_sound (take 12 (drop 4 s)) k_sacn_id
            (omega (arith, m.0, length-take 12 (drop 4 s), length-drop 4 s))
            (rw (root_of-id s) at m.1),
      ),
  λ h.
      let e : (root_of s).id ≡ k_sacn_id = root_of-id s ∙ h.1 in
      let m : id_matches ((root_of s).id) k_sacn_id ≡ true = rw e (id_matches_self k_sacn_id) in
      let n : ltb (length s) 49 ≡ false = ground (arith, h.0) in simp (n, m) refl,
)
