-- ===== src/Gro/Udp/Growing.antt =====
-- The table and the buffers after a merge.
use mathlib.Core.Path.{subst}
use sing_tun.Base.{
  ℕ, ◌+◌, ◌-◌, ◌<◌, ◌≡◌, ◌≢◌, ◌⊎◌, sym, ◌∙◌, true, false, some, List, ◌++◌, length, length-append,
  get_elem?, ◌==◌, ==_iff, if◌then◌else◌, arith, Bool-cases, inl, inr, All,
}
use sing_tun.Base.Bytes.{some_same}
use sing_tun.Gro.{Buf, set_at, packet}
use sing_tun.Gro.Udp.{UdpFlowKey, UdpItem, UdpTable, flow_eq}
use sing_tun.Gro.Udp.Run.{last_item}
use sing_tun.Gro.Udp.Data.{Separate, packet-extended, packet-other}
use sing_tun.Gro.Udp.Table.{flow_eq→≡, flow_eq_self}
use sing_tun.Gro.Udp.Order.{IsItem, Tracked, last-All}
use sing_tun.Gro.Udp.Tracking.{Below, All-map2, All-set_at, Separate-set_last}

module _ (bufs : List Buf) (offset j : ℕ) (b : Buf) (more : List ℕ)
    (eb : get_elem? bufs j ≡ some b) where
  abbrev pub grown : List Buf
  grown = set_at j (record b { bytes = b.bytes ++ more }) bufs

  pub IsItem-grown :
      (k : UdpFlowKey) (x : UdpItem) → IsItem bufs offset k x → IsItem grown offset k x
  IsItem-grown k x (ek, el, (p, ep, long)) = elim (Bool-cases (j == x.bufs_index)) [
    | inl e ↦
        let at : j ≡ x.bufs_index = (==_iff j x.bufs_index).0 e in
        let here : packet bufs j offset ≡ some p = rw at ep in
        (
          ek,
          el,
          (
            p ++ more,
            rw (sym at) (packet-extended bufs j offset b more p eb here),
            omega (arith, long, length-append p more),
          ),
        )
    | inr e ↦
        let away : j ≢ x.bufs_index = λ q. ground (arith, (==_iff j x.bufs_index).1 q) in
        (ek, el, (p, packet-other bufs j x.bufs_index offset _ away ∙ ep, long))
  ]

module _ (t t' : UdpTable) (bufs : List Buf) (offset i : ℕ) (v : Tracked t bufs offset)
    (low : Below i t) (key : UdpFlowKey) (items : List UdpItem)
    (found : t.items_by_flow key ≡ some items) (l l' : UdpItem) (last : last_item items ≡ some l)
    (b : Buf) (more : List ℕ) (eb : get_elem? bufs l.bufs_index ≡ some b)
    (index : l'.bufs_index ≡ l.bufs_index) (header : l'.iph_len ≡ l.iph_len)
    (keyed : l'.key ≡ l.key)
    (now : (k : UdpFlowKey)
      → t'.items_by_flow k ≡ (
          if flow_eq key k
          then some (set_at (length items - 1) l' items)
          else t.items_by_flow k)) where
  abbrev bufs' : List Buf
  bufs' = grown bufs offset l.bufs_index b more eb

  abbrev items' : List UdpItem
  items' = set_at (length items - 1) l' items

  -- What held of the items by their key, header and buffer holds after the merge.
  All-merged : (P : UdpItem → Type 0) → (P l → P l') → All P items → All P items'
  All-merged P f h = All-set_at P (length items - 1) l' items (f (last-All P items l h last)) h

  All-grown :
      (k : UdpFlowKey) (xs : List UdpItem)
      → All (IsItem bufs offset k) xs
      → All (IsItem bufs' offset k) xs
  All-grown k xs h =
      All-map2 _ _ _ xs (λ x p q. IsItem-grown bufs offset l.bufs_index b more eb k x p) h h

  like-l : (k : UdpFlowKey) → IsItem bufs' offset k l → IsItem bufs' offset k l'
  like-l k (ek, el, (p, ep, long)) = (keyed ∙ ek, header ∙ el, (p, rw index ep, rw header long))

  flow_merged :
      (k : UdpFlowKey) (xs : List UdpItem)
      → t'.items_by_flow k ≡ some xs
      → ((key ≡ k) × (items' ≡ xs)) ⊎ ((flow_eq key k ≡ false) × (t.items_by_flow k ≡ some xs))
  flow_merged k xs h = elim (Bool-cases (flow_eq key k)) [
    | inl e ↦ inl (flow_eq→≡ key k e, some_same _ _ (rw e at (sym (now k) ∙ h)))
    | inr e ↦ inr (e, rw e at (sym (now k) ∙ h))
  ]

  merged_sound :
      (k : UdpFlowKey) (xs : List UdpItem)
      → t'.items_by_flow k ≡ some xs
      → All (IsItem bufs' offset k) xs × Separate xs
  merged_sound k xs h = elim (flow_merged k xs h) [
    | inl (e, q) ↦
        let s = v.sound key items found in
        subst (λ (z : UdpFlowKey). All (IsItem bufs' offset z) xs × Separate xs) e
          (subst (λ (zs : List UdpItem). All (IsItem bufs' offset key) zs × Separate zs) q
            (
              All-merged (IsItem bufs' offset key) (like-l key) (All-grown key items s.0),
              Separate-set_last items l l' index last s.1,
            ))
    | inr (ne, h') ↦ let s = v.sound k xs h' in (All-grown k xs s.0, s.1)
  ]

  abbrev Apart : List UdpItem → List UdpItem → Type 0
  Apart xs ys = All (λ (z : UdpItem). All (λ (y : UdpItem). z.bufs_index ≢ y.bufs_index) ys) xs

  merged-Apart :
      (k k' : UdpFlowKey) (xs ys : List UdpItem)
      → flow_eq k k' ≡ false
      → t'.items_by_flow k ≡ some xs
      → t'.items_by_flow k' ≡ some ys
      → Apart xs ys
  merged-Apart k k' xs ys ne hx hy = elim (flow_merged k xs hx) [
    | inl (e, q) ↦ elim (flow_merged k' ys hy) [
      | inl (e', q') ↦ let same : flow_eq k k' ≡ true = rw (sym e, sym e') (flow_eq_self key) in cc
      | inr (ne', hy') ↦
          subst (λ (zs : List UdpItem). Apart zs ys) q
            (All-merged _ (λ p. rw index p) (v.apart key k' items ys ne' found hy'))
    ]
    | inr (ne', hx') ↦ elim (flow_merged k' ys hy) [
      | inl (e', q') ↦
          let before = v.apart k key xs items (rw (sym e') at ne) hx' found in
          subst (λ (zs : List UdpItem). Apart xs zs) q'
            (All-map2 _ _ _ xs (λ z p r. All-merged _ (λ a c. a (c ∙ index)) p) before before)
      | inr (ne2, hy') ↦ v.apart k k' xs ys ne hx' hy'
    ]
  ]

  merged-low :
      (k : UdpFlowKey) (xs : List UdpItem)
      → t'.items_by_flow k ≡ some xs
      → All (λ (y : UdpItem). y.bufs_index < i + 1) xs
  merged-low k xs h = elim (flow_merged k xs h) [
    | inl (e, q) ↦
        let before = low key items found in
        let P : UdpItem → Type 0 = λ y. y.bufs_index < i + 1 in
        subst (All P) q (
          All-merged P (λ p. omega (arith, p, index))
            (All-map2 _ P P items (λ y p r. r) before
              (All-map2 _ _ P items (λ y p r. omega (arith, p)) before before)))
    | inr (ne, h') ↦ All-map2 _ _ _ xs (λ y p r. omega (arith, p)) (low k xs h') (low k xs h')
  ]

  pub merge-Tracked : Tracked t' bufs' offset × Below (i + 1) t'
  merge-Tracked = (record { sound = merged_sound; apart = merged-Apart }, merged-low)
