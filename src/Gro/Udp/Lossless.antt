-- ===== src/Gro/Udp/Lossless.antt =====
-- udpGRO on one packet, and the data of the flows.
use mathlib.Core.Path.{subst}
use sing_tun.Base.{
  ℕ, ◌+◌, ◌*◌, ◌%◌, ◌^◌, ◌≤◌, ◌<◌, ◌≡◌, refl, sym, ap, ◌∙◌, Bool, true, false, some, List, [], ◌∷◌,
  length, ltb, ◌==◌, if◌then◌else◌, arith, Bool-cases, Option-cases, inl, inr,
}
use sing_tun.Base.Bytes.{bind_some, some_same, get8, get16}
use sing_tun.Gro.{Buf, packet, byte_at}
use sing_tun.Gro.Udp.{UdpTable, new_udp_flow_key, new_udp_table}
use sing_tun.Gro.Udp.Run.{GroResult, udp_lengths, udp_header, evaluate, udp_gro}
use sing_tun.Gro.Udp.Tracking.{Below, All-map2}
use sing_tun.Gro.Udp.Order.{ip_len, Tracked}
use sing_tun.Gro.Udp.Attempt.{Kept, Follows, retried, merge-Follows}

Below-next : (i : ℕ) (t : UdpTable) → Below i t → Below (i + 1) t
Below-next i t low k xs h = All-map2 _ _ _ xs (λ y p r. omega (arith, p)) (low k xs h) (low k xs h)

evaluate-Follows :
    (t : UdpTable) (bufs : List Buf) (offset i iph_len gso_size : ℕ) (v6 skip : Bool) (pkt : List ℕ)
    {r : GroResult × List Buf × UdpTable}
    → Tracked t bufs offset
    → Below i t
    → i < 2 ^ 16
    → iph_len + 8 ≤ length pkt
    → iph_len ≡ ip_len v6
    → packet bufs i offset ≡ some pkt
    → evaluate bufs offset i t pkt iph_len gso_size v6 skip ≡ some r
    → Follows t bufs offset i pkt v6 iph_len r
unfolding evaluate
evaluate-Follows t bufs offset i iph_len gso_size v6 skip pkt v low hi long hl hp h =
    elim (Bool-cases (length bufs == 1)) [
      | inl e ↦
          subst (Follows t bufs offset i pkt v6 iph_len) (some_same _ _ (rw e at h))
            ((refl, refl), (v, Below-next i t low))
      | inr e ↦
          let s =
            bind_some (new_udp_flow_key pkt (if v6 then 8 else 12) (if v6 then 16 else 4) iph_len) _
              (rw e at h) in
          elim (Option-cases (t.items_by_flow s.0)) [
            | inl n ↦
                retried t bufs offset i iph_len v6 skip s.0 pkt v low hi long hl hp s.1 bufs false
                  refl (rw n at s.2)
            | inr (items, n) ↦
                merge-Follows t bufs offset i iph_len v6 skip s.0 pkt v low hi long hl hp s.1
                  gso_size items n (rw n at s.2)
          ]
    ]

udp_lengths-some :
    (pkt : List ℕ) (v6 : Bool) (iph_len claimed : ℕ) {h : ℕ × ℕ}
    → udp_lengths pkt v6 iph_len claimed ≡ some h
    → (h.0 ≡ iph_len) × (iph_len + 8 ≤ length pkt)
unfolding udp_lengths
udp_lengths-some pkt v6 iph_len claimed e = (ground arith, ground arith)

header_len :
    (pkt : List ℕ) (v6 : Bool) (first : ℕ)
    → get8 pkt 0 ≡ some first
    → (v6 ≡ false → byte_at pkt 0 % 16 ≡ 5)
    → (if v6 then 40 else first % 16 * 4) ≡ ip_len v6
unfolding get8
header_len pkt true first h e = refl
header_len [] false first h e = cc
header_len (x ∷ pkt) false first h e = ground (arith, some_same x first h)

udp_header-some :
    (pkt : List ℕ) (v6 : Bool) (h : ℕ × ℕ)
    → (v6 ≡ false → byte_at pkt 0 % 16 ≡ 5)
    → udp_header pkt v6 ≡ some (some h)
    → (h.0 ≡ ip_len v6) × (h.0 + 8 ≤ length pkt)
unfolding udp_header
udp_header-some pkt v6 h e u = elim (Bool-cases (ltb 65535 (length pkt))) [
  | inl long ↦ cc (some_same _ _ (rw long at u))
  | inr fits ↦
      let s1 = bind_some (get8 pkt 0) _ (rw fits at u) in
      let s2 = bind_some (get16 pkt (if v6 then 4 else 2)) _ s1.2 in
      let l = udp_lengths-some pkt v6 _ s2.0 (some_same _ _ s2.2) in
      (l.0 ∙ header_len pkt v6 s1.0 s1.1 e, omega (arith, l.0, l.1))
]

module _ (t : UdpTable) (bufs : List Buf) (offset i : ℕ) (v6 skip : Bool) (pkt : List ℕ)
    (r : GroResult × List Buf × UdpTable) (v : Tracked t bufs offset) (low : Below i t)
    (hi : i < 2 ^ 16) (hp : packet bufs i offset ≡ some pkt)
    (plain : v6 ≡ false → byte_at pkt 0 % 16 ≡ 5)
    (h : udp_gro bufs offset i t v6 skip ≡ some r) where
  udp_gro-Follows : Follows t bufs offset i pkt v6 (ip_len v6) r
  unfolding udp_gro
  udp_gro-Follows =
      let s1 = bind_some (packet bufs i offset) _ h in
      let same : s1.0 ≡ pkt = some_same _ _ (sym s1.1 ∙ hp) in
      let s2 = bind_some (udp_header s1.0 v6) _ s1.2 in
      let header : udp_header pkt v6 ≡ some s2.0 = rw same at s2.1 in
      elim (Option-cases s2.0) [
        | inl n ↦
            subst (Follows t bufs offset i pkt v6 (ip_len v6)) (some_same _ _ (rw n at s2.2))
              ((refl, refl), (v, Below-next i t low))
        | inr (l, n) ↦
            let e = udp_header-some pkt v6 l plain (header ∙ ap some n) in
            subst (λ (x : ℕ). Follows t bufs offset i pkt v6 x r) e.0
              (evaluate-Follows t bufs offset i l.0 l.1 v6 skip pkt v low hi e.1 e.0 hp
                (rw (n, same) at s2.2))
      ]

  -- udpGRO on packet `i`, while the table has items of earlier buffers only, each for a packet with
  -- both headers and in a buffer of its own, and the packet, if it is IPv4, has no options: either
  -- nothing changes, or the data of the packet's flow, its items one behind the other, grow by the
  -- data of the packet at the end, and the data of every other flow stay as they are.
  pub udp_gro_lem : Kept t bufs offset pkt v6 (ip_len v6) r
  udp_gro_lem = udp_gro-Follows.0

  -- Under the same conditions the table afterwards has items of the first `i + 1` buffers only,
  -- each for a packet with both headers and in a buffer of its own.
  pub udp_gro-Tracked : Tracked r.2 r.1 offset × Below (i + 1) r.2
  udp_gro-Tracked = udp_gro-Follows.1

pub new-Tracked :
    (bufs : List Buf) (offset : ℕ) → Tracked new_udp_table bufs offset × Below 0 new_udp_table
new-Tracked bufs offset =
    (record { sound = λ k xs h. cc; apart = λ k k' xs ys e h g. cc }, λ k xs h. cc)
