-- ===== src/Gro/Udp/Merge.antt =====
-- What coalesceUDPPackets does to the buffers.
use mathlib.Core.Path.{subst}
use sing_tun.Base.{
  ℕ, ◌+◌, ◌-◌, ◌%◌, ◌^◌, ◌≤◌, ◌≡◌, ◌≢◌, refl, sym, ap, ◌∙◌, Bool, some, List, ◌++◌, length, drop,
  take_all, length-drop, get_elem?, ltb, arith, Bool-cases, inl, inr,
}
use sing_tun.Base.Bytes.{slice, slice-some, bind_some, some_same, window}
use sing_tun.Gro.{Buf, set_at}
use sing_tun.Gro.Udp.{
  UdpItem, CoalesceResult, insufficient_cap, item_invalid_csum, pkt_invalid_csum, success,
  csum_unusable, item_unusable, extend, append_packet, coalesce_udp_packets,
}

-- The bytes of a packet from `n` on.
pub window_rest : (b : List ℕ) (n : ℕ) → window b n (length b - n) ≡ drop n b
window_rest b n = take_all (length b - n) (drop n b) (omega (arith, length-drop n b))

-- What a result says of the item and the buffers afterwards.
abbrev pub Appended : List ℕ → UdpItem → List Buf → CoalesceResult × UdpItem × List Buf → Type 0
Appended pkt item bufs (success, item', bufs') =
    (b : Buf) × (get_elem? bufs item.bufs_index ≡ some b)
    × (bufs'
        ≡ set_at item.bufs_index
            (record b { bytes = b.bytes ++ drop ((item.iph_len + 8) % 256) pkt }) bufs)
    × (length b.bytes + length (drop ((item.iph_len + 8) % 256) pkt) ≤ b.cap)
    × (item' ≡ record item { num_merged = (item.num_merged + 1) % 2 ^ 16 })
Appended pkt item bufs (_, item', bufs') = (item' ≡ item) × (bufs' ≡ bufs)

extend-some :
    (bufs : List Buf) (i : ℕ) (b : Buf) (more : List ℕ) {r : List Buf}
    → extend bufs i b more ≡ some r
    → (r ≡ set_at i (record b { bytes = b.bytes ++ more }) bufs)
      × (length b.bytes + length more ≤ b.cap)
unfolding extend
extend-some bufs i b more h = ground arith

append_packet-Appended :
    (pkt : List ℕ) (item : UdpItem) (b : Buf) (bufs : List Buf)
    {r : CoalesceResult × UdpItem × List Buf}
    → get_elem? bufs item.bufs_index ≡ some b
    → append_packet pkt item b bufs ≡ some r
    → Appended pkt item bufs r
unfolding append_packet
append_packet-Appended pkt item b bufs e h =
    let n = (item.iph_len + 8) % 256 in
    let s1 = bind_some (slice pkt n (length pkt)) _ h in
    let more_is : s1.0 ≡ drop n pkt = (slice-some pkt n (length pkt) s1.1).0 ∙ window_rest pkt n in
    let s2 = bind_some (extend bufs item.bufs_index b s1.0) _ s1.2 in
    let x = extend-some bufs item.bufs_index b s1.0 s2.1 in
    subst (Appended pkt item bufs) (some_same _ _ s2.2) (
      b,
      e,
      x.0
          ∙ ap (λ (m : List ℕ). set_at item.bufs_index (record b { bytes = b.bytes ++ m }) bufs)
              more_is,
      rw (sym more_is) x.1,
      refl,
    )

kept :
    (pkt : List ℕ) (item : UdpItem) (bufs : List Buf) (c : CoalesceResult)
    {r : CoalesceResult × UdpItem × List Buf}
    → c ≢ success
    → some (c, item, bufs) ≡ some r
    → Appended pkt item bufs r
kept pkt item bufs insufficient_cap n h =
    subst (Appended pkt item bufs) (some_same _ _ h) (refl, refl)
kept pkt item bufs item_invalid_csum n h =
    subst (Appended pkt item bufs) (some_same _ _ h) (refl, refl)
kept pkt item bufs pkt_invalid_csum n h =
    subst (Appended pkt item bufs) (some_same _ _ h) (refl, refl)
kept pkt item bufs success n h = absurd (n refl)

-- When coalesceUDPPackets succeeds, the item's buffer has the data of the packet behind its own,
-- within its capacity, all other buffers are as before, and the item counts one merge more. On
-- every other result the item and all buffers are as before.
pub coalesce_udp_packets_lem :
    (pkt : List ℕ) (item : UdpItem) (bufs : List Buf) (offset : ℕ) (v6 skip : Bool)
    (r : CoalesceResult × UdpItem × List Buf)
    → coalesce_udp_packets pkt item bufs offset v6 skip ≡ some r
    → Appended pkt item bufs r
unfolding coalesce_udp_packets
coalesce_udp_packets_lem pkt item bufs offset v6 skip r h =
    let s1 = bind_some (get_elem? bufs item.bufs_index) _ h in
    let b = s1.0 in
    let s2 = bind_some (slice b.bytes offset (length b.bytes)) _ s1.2 in
    let head = s2.0 in
    elim (Bool-cases
      (ltb (b.cap + (item.iph_len + 8) % 256) (offset + offset + length head + length pkt))) [
        | inl e ↦ kept pkt item bufs insufficient_cap (λ n. cc) (rw e at s2.2)
        | inr e ↦
            let s3 = bind_some (item_unusable head item v6 skip) _ (rw e at s2.2) in
            elim (Bool-cases s3.0) [
              | inl e ↦ kept pkt item bufs item_invalid_csum (λ n. cc) (rw e at s3.2)
              | inr e ↦
                  let s4 = bind_some (csum_unusable pkt item.iph_len v6 skip) _ (rw e at s3.2) in
                  elim (Bool-cases s4.0) [
                    | inl e ↦ kept pkt item bufs pkt_invalid_csum (λ n. cc) (rw e at s4.2)
                    | inr e ↦ append_packet-Appended pkt item b bufs s1.1 (rw e at s4.2)
                  ]
            ]
      ]
