-- ===== src/Gro/Udp/Attempt.antt =====
-- A UDP datagram that is added to the table or to the last item of its flow.
use mathlib.Core.Path.{subst}
use sing_tun.Base.{
  ℕ, ◌+◌, ◌-◌, ◌%◌, ◌^◌, ◌≤◌, ◌<◌, ◌≡◌, refl, sym, ap, ◌∙◌, Bool, true, false, some, List, ◌++◌,
  length, drop, ◌==◌, if◌then◌else◌, arith,
}
use sing_tun.Base.Bytes.{◌>>=◌, bind_some, some_same, get16, slice}
use sing_tun.Gro.{Buf, set_at, packet}
use sing_tun.Gro.Udp.{
  UdpFlowKey, UdpItem, UdpTable, flow_eq, new_udp_flow_key, insert, update_at,
  udp_packets_can_coalesce, CoalesceResult, insufficient_cap, item_invalid_csum, pkt_invalid_csum,
  success, coalesce_udp_packets,
}
use sing_tun.Gro.Udp.Run.{GroResult, noop, table_insert, last_item, finish, merge}
use sing_tun.Gro.Udp.Merge.{Appended, coalesce_udp_packets_lem}
use sing_tun.Gro.Udp.Table.{new_item, insert-some, update_at-some}
use sing_tun.Gro.Udp.Tracking.{Below, insert-Tracked}
use sing_tun.Gro.Udp.Growing.{merge-Tracked}
use sing_tun.Gro.Udp.Order.{
  last-IsItem, ip_len, IsItem, Tracked, data_of, added, insert-data, merged-data,
}

-- What udpGRO may do to the data of the flows: leave a packet alone, or put its data behind the
-- data of its flow.
abbrev pub Kept :
    UdpTable → List Buf → ℕ → List ℕ → Bool → ℕ → GroResult × List Buf × UdpTable → Type 0
Kept t bufs offset pkt v6 iph_len (noop, bufs', t') = (bufs' ≡ bufs) × (t' ≡ t)
Kept t bufs offset pkt v6 iph_len (_, bufs', t') =
    (key : UdpFlowKey) × (new_udp_flow_key pkt (if v6 then 8 else 12) (if v6 then 16 else 4) iph_len
      ≡ some key)
    × ((k : UdpFlowKey)
        → data_of t' bufs' offset k
          ≡ data_of t bufs offset k ++ added key k (drop (iph_len + 8) pkt))

-- With that, every item stays in a buffer of its own.
abbrev pub Follows :
    UdpTable → List Buf → ℕ → ℕ → List ℕ → Bool → ℕ → GroResult × List Buf × UdpTable → Type 0
Follows t bufs offset i pkt v6 iph_len r =
    Kept t bufs offset pkt v6 iph_len r × (Tracked r.2 r.1 offset × Below (i + 1) r.2)

is_long : (v6 : Bool) → ((if v6 then 16 else 4) == 16) ≡ v6
is_long true = refl
is_long false = refl

key-is_v6 :
    (pkt : List ℕ) (v6 : Bool) (at : ℕ) (key : UdpFlowKey)
    → new_udp_flow_key pkt (if v6 then 8 else 12) (if v6 then 16 else 4) at ≡ some key
    → key.is_v6 ≡ v6
unfolding new_udp_flow_key
key-is_v6 pkt v6 at key h =
    let s1 = bind_some (slice pkt _ _) _ h in
    let s2 = bind_some (slice pkt _ _) _ s1.2 in
    let s3 = bind_some (get16 pkt at) _ s2.2 in
    let s4 = bind_some (get16 pkt (at + 2)) _ s3.2 in
    let same = ap (λ (x : UdpFlowKey). x.is_v6) (some_same _ _ s4.2) in sym same ∙ is_long v6

module _ (t : UdpTable) (bufs : List Buf) (offset i iph_len : ℕ) (v6 skip : Bool) (key : UdpFlowKey)
    (pkt : List ℕ) (v : Tracked t bufs offset) (low : Below i t) (hi : i < 2 ^ 16)
    (long : iph_len + 8 ≤ length pkt) (hl : iph_len ≡ ip_len v6)
    (hp : packet bufs i offset ≡ some pkt)
    (hk : new_udp_flow_key pkt (if v6 then 8 else 12) (if v6 then 16 else 4) iph_len
      ≡ some key) where
  short : iph_len < 256
  short = ground (arith, hl)

  six : ip_len key.is_v6 ≡ iph_len
  six = ap ip_len (key-is_v6 pkt v6 iph_len key hk) ∙ sym hl

  new-IsItem : (known : Bool) → IsItem bufs offset key (new_item key pkt iph_len i known)
  new-IsItem known =
      let index : i % 2 ^ 16 ≡ i = omega arith in
      let header : iph_len % 256 ≡ iph_len = omega (arith, short) in
      (refl, header ∙ sym six, (pkt, rw index hp, omega (arith, long, header)))

  -- An item of its own, after an attempt that changed no buffer.
  pub retried :
      (bufs' : List Buf) (known : Bool) {r : GroResult × List Buf × UdpTable}
      → bufs' ≡ bufs
      → (insert t key pkt iph_len i known >>= λ t'. some (table_insert, bufs', t')) ≡ some r
      → Follows t bufs offset i pkt v6 iph_len r
  retried bufs' known e h =
      let s = bind_some (insert t key pkt iph_len i known) _ (rw e at h) in
      subst (Follows t bufs offset i pkt v6 iph_len) (some_same _ _ s.2) (
        (key, hk, insert-data t s.0 bufs offset i iph_len key pkt known hi short hp s.1),
        insert-Tracked t s.0 bufs offset i v low key (new_item key pkt iph_len i known)
            (new-IsItem known) (omega arith) (insert-some t key pkt iph_len i known s.1),
      )

  module _ (items : List UdpItem) (found : t.items_by_flow key ≡ some items) (l : UdpItem)
      (last : last_item items ≡ some l) where
    finish-Follows :
        (a : CoalesceResult × UdpItem × List Buf) {r : GroResult × List Buf × UdpTable}
        → Appended pkt l bufs a
        → finish t key pkt iph_len i (length items - 1) a ≡ some r
        → Follows t bufs offset i pkt v6 iph_len r
    unfolding finish
    finish-Follows (success, item', bufs') a h =
        let s = bind_some (update_at t item' (length items - 1)) _ h in
        let grown = merged-data t bufs offset v key items found l last pkt item' bufs' s.0 a s.1 in
        let keyed = ap (λ (x : UdpItem). x.key) a.4 in
        let own = keyed ∙ (last-IsItem t bufs offset v key items found l last).0 in
        let now = update_at-some t item' (length items - 1) items (rw own found) s.1 in
        let tracked =
          merge-Tracked t s.0 bufs offset i v low key items found l item' last a.0
            (drop ((l.iph_len + 8) % 256) pkt) a.1 (ap (λ (x : UdpItem). x.bufs_index) a.4)
            (ap (λ (x : UdpItem). x.iph_len) a.4) keyed
            (λ k.
              subst
                (λ (z : UdpFlowKey). s.0.items_by_flow k ≡ (
                  if flow_eq z k
                  then some (set_at (length items - 1) item' items)
                  else t.items_by_flow k))
                own (now k)) in
        subst (Follows t bufs offset i pkt v6 iph_len) (some_same _ _ s.2)
          ((key, hk, rw six at grown), (rw (a.2) tracked.0, tracked.1))
    finish-Follows (insufficient_cap, item', bufs') a h = retried bufs' false a.1 h
    finish-Follows (item_invalid_csum, item', bufs') a h = retried bufs' false a.1 h
    finish-Follows (pkt_invalid_csum, item', bufs') a h = retried bufs' true a.1 h

  -- What the attempt did, if there was one.
  attempt :
      (can : Bool) (l : UdpItem) {a : CoalesceResult × UdpItem × List Buf}
      → (if can
          then coalesce_udp_packets pkt l bufs offset v6 skip
          else some (insufficient_cap, l, bufs))
        ≡ some a
      → Appended pkt l bufs a
  attempt true l h = coalesce_udp_packets_lem pkt l bufs offset v6 skip _ h
  attempt false l h = subst (Appended pkt l bufs) (some_same _ _ h) (refl, refl)

  pub merge-Follows :
      (gso_size : ℕ) (items : List UdpItem) {r : GroResult × List Buf × UdpTable}
      → t.items_by_flow key ≡ some items
      → merge bufs offset i t key items pkt iph_len gso_size v6 skip ≡ some r
      → Follows t bufs offset i pkt v6 iph_len r
  unfolding merge
  merge-Follows gso_size items found h =
      let s1 = bind_some (last_item items) _ h in
      let s2 =
        bind_some (udp_packets_can_coalesce pkt (iph_len % 256) gso_size s1.0 bufs offset) _ s1.2 in
      let s3 =
        bind_some
          (if s2.0
            then coalesce_udp_packets pkt s1.0 bufs offset v6 skip
            else some (insufficient_cap, s1.0, bufs))
          _ s2.2 in
      finish-Follows items found s1.0 s1.1 s3.0 (attempt s2.0 s1.0 s3.1) s3.2
