-- ===== src/Gro/Udp/Order.antt =====
-- The data of a flow after a datagram was added to the table, or to the last item of its flow.
use mathlib.Core.Path.{subst}
use mathlib.Core.List.{append-nil}
use sing_tun.Base.{
  ℕ, ◌+◌, ◌-◌, ◌%◌, ◌^◌, ◌≤◌, ◌<◌, ◌≡◌, ◌≢◌, refl, sym, ap, ◌∙◌, Bool, true, false, some, List, [],
  ◌∷◌, ◌++◌, length, drop, if◌then◌else◌, arith, Bool-cases, Option-cases, inl, inr, All,
}
use sing_tun.Base.Bytes.{some_same}
use sing_tun.Gro.{Buf, set_at, packet}
use sing_tun.Gro.Udp.{UdpFlowKey, UdpItem, UdpTable, flow_eq, insert, update_at, success}
use sing_tun.Gro.Udp.Run.{last_item}
use sing_tun.Gro.Udp.Merge.{Appended}
use sing_tun.Gro.Udp.Data.{
  payload_of, payload_of-some, flow_data, flow_data-append, Separate, flow_data-extended,
  flow_data-other,
}
use sing_tun.Gro.Udp.Table.{flow_eq→≡, items_in, new_item, insert-some, update_at-some}

abbrev pub ip_len : Bool → ℕ
ip_len v6 = if v6 then 40 else 20

-- An item stands for a packet that has both headers, under the flow's key.
abbrev pub IsItem : List Buf → ℕ → UdpFlowKey → UdpItem → Type 0
IsItem bufs offset k x =
    (x.key ≡ k)
    × (x.iph_len ≡ ip_len k.is_v6)
    × ((p : List ℕ) × (packet bufs x.bufs_index offset ≡ some p) × (x.iph_len + 8 ≤ length p))

-- Every item is in a buffer of its own.
pub record Tracked (t : UdpTable) (bufs : List Buf) (offset : ℕ) : Type 0 where
  pub sound :
      (k : UdpFlowKey) (xs : List UdpItem)
      → t.items_by_flow k ≡ some xs
      → All (IsItem bufs offset k) xs × Separate xs
  pub apart :
      (k k' : UdpFlowKey) (xs ys : List UdpItem)
      → flow_eq k k' ≡ false
      → t.items_by_flow k ≡ some xs
      → t.items_by_flow k' ≡ some ys
      → All (λ (x : UdpItem). All (λ (y : UdpItem). x.bufs_index ≢ y.bufs_index) ys) xs

-- The data of a flow, in the order of its items.
pub data_of : UdpTable → List Buf → ℕ → UdpFlowKey → List ℕ
data_of t bufs offset k = flow_data bufs offset (items_in (t.items_by_flow k))

abbrev pub added : UdpFlowKey → UdpFlowKey → List ℕ → List ℕ
added key k more = if flow_eq key k then more else []

-- A packet that becomes an item of its own.
pub insert-data :
    (t t' : UdpTable) (bufs : List Buf) (offset i iph_len : ℕ) (key : UdpFlowKey) (pkt : List ℕ)
    (known : Bool)
    → i < 2 ^ 16
    → iph_len < 256
    → packet bufs i offset ≡ some pkt
    → insert t key pkt iph_len i known ≡ some t'
    → (k : UdpFlowKey)
    → data_of t' bufs offset k ≡ data_of t bufs offset k ++ added key k (drop (iph_len + 8) pkt)
unfolding data_of
insert-data t t' bufs offset i iph_len key pkt known hi hl hp h k =
    let now = insert-some t key pkt iph_len i known h k in
    let x = new_item key pkt iph_len i known in
    let index : i % 2 ^ 16 ≡ i = omega arith in
    let short : iph_len % 256 ≡ iph_len = omega arith in
    let payload : payload_of bufs offset x ≡ drop (iph_len + 8) pkt =
      payload_of-some bufs offset x pkt (rw index hp) ∙ ap (λ (n : ℕ). drop (n + 8) pkt) short in
    elim (Bool-cases (flow_eq key k)) [
      | inl e ↦
          rw (now, e)
            (flow_data-append bufs offset (items_in (t.items_by_flow key)) x
              ∙ rw (payload, flow_eq→≡ key k e) refl)
      | inr e ↦
          rw (now, e) (sym (append-nil (flow_data bufs offset (items_in (t.items_by_flow k)))))
    ]

pub last-All :
    (P : UdpItem → Type 0) (items : List UdpItem) (l : UdpItem)
    → All P items
    → last_item items ≡ some l
    → P l
last-All P [] l h e = cc
last-All P (x ∷ []) l h e = subst P (some_same x l e) h.0
last-All P (x ∷ y ∷ items) l h e = last-All P (y ∷ items) l h.1 e

module _ (t : UdpTable) (bufs : List Buf) (offset : ℕ) (v : Tracked t bufs offset)
    (key : UdpFlowKey) (items : List UdpItem) (found : t.items_by_flow key ≡ some items)
    (l : UdpItem) (last : last_item items ≡ some l) where
  pub last-IsItem : IsItem bufs offset key l
  last-IsItem = last-All _ items l (v.sound key items found).0 last

  -- Another flow's items do not use the buffer that grew.
  other-data :
      (k : UdpFlowKey) (b : Buf)
      → flow_eq key k ≡ false
      → flow_data (set_at l.bufs_index b bufs) offset (items_in (t.items_by_flow k))
        ≡ flow_data bufs offset (items_in (t.items_by_flow k))
  other-data k b e = elim (Option-cases (t.items_by_flow k)) [
    | inl n ↦ rw n (flow_data-other [] bufs l.bufs_index offset b tt)
    | inr (ys, n) ↦ rw n (
        flow_data-other ys bufs l.bufs_index offset b
          (last-All _ items l (v.apart key k items ys e found n) last))
  ]

  pub merged-data :
      (pkt : List ℕ) (item' : UdpItem) (bufs' : List Buf) (t' : UdpTable)
      → Appended pkt l bufs (success, item', bufs')
      → update_at t item' (length items - 1) ≡ some t'
      → (k : UdpFlowKey)
      → data_of t' bufs' offset k
        ≡ data_of t bufs offset k ++ added key k (drop (ip_len key.is_v6 + 8) pkt)
  unfolding data_of
  merged-data pkt item' bufs' t' a h k =
      let is = last-IsItem in
      let n : (l.iph_len + 8) % 256 ≡ ip_len key.is_v6 + 8 = ground (arith, is.1) in
      let keyed : item'.key ≡ key = ap (λ (x : UdpItem). x.key) a.4 ∙ is.0 in
      let more = drop ((l.iph_len + 8) % 256) pkt in
      let b' = record a.0 { bytes = a.0.bytes ++ more } in
      let now = update_at-some t item' (length items - 1) items (rw keyed found) h k in
      elim (Bool-cases (flow_eq key k)) [
        | inl e ↦
            let there : t.items_by_flow k ≡ some items =
              ap t.items_by_flow (sym (flow_eq→≡ key k e)) ∙ found in
            let q = is.2 in
            let same : flow_eq item'.key k ≡ true = rw keyed e in
            rw (now, same, e, a.2, there)
              (flow_data-extended items bufs offset l item' a.0 more q.0 (v.sound key items found).1
                  last (ap (λ (x : UdpItem). x.bufs_index) a.4)
                  (ap (λ (x : UdpItem). x.iph_len) a.4) a.1 q.1 q.2
                ∙ ap (λ (m : ℕ). flow_data bufs offset items ++ drop m pkt) n)
        | inr e ↦
            rw (now, keyed, e, a.2)
              (other-data k b' e
                ∙ sym (append-nil (flow_data bufs offset (items_in (t.items_by_flow k)))))
      ]
