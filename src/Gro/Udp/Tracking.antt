-- ===== src/Gro/Udp/Tracking.antt =====
-- The table after a new item.
use mathlib.Core.Path.{subst}
use sing_tun.Base.{
  ℕ, zero, suc, ◌+◌, ◌-◌, ◌<◌, ◌≡◌, ◌≢◌, ◌⊎◌, sym, ◌∙◌, true, false, some, List, [], ◌∷◌, ◌++◌,
  length, if◌then◌else◌, arith, Bool-cases, Option-cases, inl, inr, All, All-append,
}
use sing_tun.Base.Bytes.{some_same}
use sing_tun.Gro.{Buf, set_at}
use sing_tun.Gro.Udp.{UdpFlowKey, UdpItem, UdpTable, flow_eq}
use sing_tun.Gro.Udp.Run.{last_item}
use sing_tun.Gro.Udp.Data.{Separate}
use sing_tun.Gro.Udp.Table.{flow_eq→≡, flow_eq_self, items_in}
use sing_tun.Gro.Udp.Order.{IsItem, Tracked, last-All}

-- No item is in buffer `n` or one behind it.
abbrev pub Below : ℕ → UdpTable → Type 0
Below n t =
    (k : UdpFlowKey) (xs : List UdpItem)
    → t.items_by_flow k ≡ some xs
    → All (λ (x : UdpItem). x.bufs_index < n) xs

pub All-map2 :
    (P Q R : UdpItem → Type 0) (xs : List UdpItem)
    → ((x : UdpItem) → P x → Q x → R x)
    → All P xs
    → All Q xs
    → All R xs
All-map2 P Q R [] f g h = tt
All-map2 P Q R (x ∷ xs) f g h = (f x g.0 h.0, All-map2 P Q R xs f g.1 h.1)

pub All-set_at :
    (P : UdpItem → Type 0) (n : ℕ) (v : UdpItem) (xs : List UdpItem)
    → P v
    → All P xs
    → All P (set_at n v xs)
All-set_at P n v [] p h = tt
All-set_at P zero v (x ∷ xs) p h = (p, h.1)
All-set_at P (suc n) v (x ∷ xs) p h = (h.0, All-set_at P n v xs p h.1)

Separate-append :
    (xs : List UdpItem) (x : UdpItem)
    → Separate xs
    → All (λ (y : UdpItem). y.bufs_index ≢ x.bufs_index) xs
    → Separate (xs ++ (x ∷ []))
Separate-append [] x s h = (tt, tt)
Separate-append (y ∷ xs) x s h = (
  All-append (λ (z : UdpItem). y.bufs_index ≢ z.bufs_index) xs (x ∷ []) s.0 (h.0, tt),
  Separate-append xs x s.1 h.1,
)

pub Separate-set_last :
    (xs : List UdpItem) (l l' : UdpItem)
    → l'.bufs_index ≡ l.bufs_index
    → last_item xs ≡ some l
    → Separate xs
    → Separate (set_at (length xs - 1) l' xs)
Separate-set_last [] l l' e h s = tt
Separate-set_last (x ∷ []) l l' e h s = (tt, tt)
Separate-set_last (x ∷ y ∷ xs) l l' e h s =
    let place : length (x ∷ y ∷ xs) - 1 ≡ suc (length (y ∷ xs) - 1) = omega arith in
    let P : UdpItem → Type 0 = λ z. x.bufs_index ≢ z.bufs_index in
    let apart : P l' = λ q. last-All P (y ∷ xs) l s.0 h (q ∙ e) in
    rw place (
      All-set_at P (length (y ∷ xs) - 1) l' (y ∷ xs) apart s.0,
      Separate-set_last (y ∷ xs) l l' e h s.1,
    )

-- A new item in buffer `i`.
module _ (t t' : UdpTable) (bufs : List Buf) (offset i : ℕ) (v : Tracked t bufs offset)
    (low : Below i t) (key : UdpFlowKey) (x : UdpItem) (is : IsItem bufs offset key x)
    (at : x.bufs_index ≡ i)
    (now : (k : UdpFlowKey)
      → t'.items_by_flow k ≡ (
          if flow_eq key k
          then some (items_in (t.items_by_flow key) ++ (x ∷ []))
          else t.items_by_flow k)) where
  abbrev old : List UdpItem
  old = items_in (t.items_by_flow key)

  old_sound : All (IsItem bufs offset key) old × Separate old
  old_sound = elim (Option-cases (t.items_by_flow key)) [
    | inl n ↦ rw n (tt, tt)
    | inr (xs, n) ↦ rw n (v.sound key xs n)
  ]

  old-low : All (λ (y : UdpItem). y.bufs_index < i) old
  old-low = elim (Option-cases (t.items_by_flow key)) [
    | inl n ↦ rw n tt
    | inr (xs, n) ↦ rw n (low key xs n)
  ]

  -- What a flow has afterwards.
  flow_after :
      (k : UdpFlowKey) (xs : List UdpItem)
      → t'.items_by_flow k ≡ some xs
      → ((key ≡ k) × (old ++ (x ∷ []) ≡ xs))
        ⊎ ((flow_eq key k ≡ false) × (t.items_by_flow k ≡ some xs))
  flow_after k xs h = elim (Bool-cases (flow_eq key k)) [
    | inl e ↦ inl (flow_eq→≡ key k e, some_same _ _ (rw e at (sym (now k) ∙ h)))
    | inr e ↦ inr (e, rw e at (sym (now k) ∙ h))
  ]

  old-apart :
      (k : UdpFlowKey) (ys : List UdpItem)
      → flow_eq key k ≡ false
      → t.items_by_flow k ≡ some ys
      → All (λ (z : UdpItem). All (λ (y : UdpItem). z.bufs_index ≢ y.bufs_index) ys) old
  old-apart k ys e h = elim (Option-cases (t.items_by_flow key)) [
    | inl n ↦ rw n tt
    | inr (zs, n) ↦ rw n (v.apart key k zs ys e n h)
  ]

  apart-old :
      (k : UdpFlowKey) (ys : List UdpItem)
      → flow_eq k key ≡ false
      → t.items_by_flow k ≡ some ys
      → All (λ (y : UdpItem). All (λ (z : UdpItem). y.bufs_index ≢ z.bufs_index) old) ys
  apart-old k ys e h = elim (Option-cases (t.items_by_flow key)) [
    | inl n ↦ rw n (All-map2 _ _ _ ys (λ y p q. tt) (low k ys h) (low k ys h))
    | inr (zs, n) ↦ rw n (v.apart k key ys zs e h n)
  ]

  new-apart :
      (ys : List UdpItem)
      → All (λ (y : UdpItem). y.bufs_index < i) ys
      → All (λ (y : UdpItem). x.bufs_index ≢ y.bufs_index) ys
  new-apart ys h = All-map2 _ _ _ ys (λ y p q r. absurd (omega (arith, p, r, at))) h h

  -- The lists of two flows afterwards.
  after-apart :
      (k k' : UdpFlowKey) (xs ys : List UdpItem)
      → flow_eq k k' ≡ false
      → t'.items_by_flow k ≡ some xs
      → t'.items_by_flow k' ≡ some ys
      → All (λ (z : UdpItem). All (λ (y : UdpItem). z.bufs_index ≢ y.bufs_index) ys) xs
  after-apart k k' xs ys ne hx hy = elim (flow_after k xs hx) [
    | inl (e, q) ↦ elim (flow_after k' ys hy) [
      | inl (e', q') ↦ let same : flow_eq k k' ≡ true = rw (sym e, sym e') (flow_eq_self key) in cc
      | inr (ne', hy') ↦
          subst
            (λ (zs : List UdpItem).
              All (λ (z : UdpItem). All (λ (y : UdpItem). z.bufs_index ≢ y.bufs_index) ys) zs)
            q
            (All-append _ old (x ∷ []) (old-apart k' ys ne' hy') (new-apart ys (low k' ys hy'), tt))
    ]
    | inr (ne', hx') ↦ elim (flow_after k' ys hy) [
      | inl (e', q') ↦
          subst
            (λ (zs : List UdpItem).
              All (λ (z : UdpItem). All (λ (y : UdpItem). z.bufs_index ≢ y.bufs_index) zs) xs)
            q'
            (All-map2 _ _ _ xs
              (λ z p lt. All-append _ old (x ∷ []) p ((λ r. absurd (omega (arith, lt, r, at))), tt))
              (apart-old k xs (rw (sym e') at ne) hx') (low k xs hx'))
      | inr (ne2, hy') ↦ v.apart k k' xs ys ne hx' hy'
    ]
  ]

  after_sound :
      (k : UdpFlowKey) (xs : List UdpItem)
      → t'.items_by_flow k ≡ some xs
      → All (IsItem bufs offset k) xs × Separate xs
  after_sound k xs h = elim (flow_after k xs h) [
    | inl (e, q) ↦
        subst (λ (z : UdpFlowKey). All (IsItem bufs offset z) xs × Separate xs) e
          (subst (λ (zs : List UdpItem). All (IsItem bufs offset key) zs × Separate zs) q
            (
              All-append _ old (x ∷ []) old_sound.0 (is, tt),
              Separate-append old x old_sound.1 (
                  All-map2 _ _ _ old (λ y p r z. absurd (omega (arith, p, z, at))) old-low old-low),
            ))
    | inr (ne, h') ↦ v.sound k xs h'
  ]

  after-low :
      (k : UdpFlowKey) (xs : List UdpItem)
      → t'.items_by_flow k ≡ some xs
      → All (λ (y : UdpItem). y.bufs_index < i + 1) xs
  after-low k xs h = elim (flow_after k xs h) [
    | inl (e, q) ↦ subst (All (λ (y : UdpItem). y.bufs_index < i + 1)) q (
        All-append _ old (x ∷ []) (All-map2 _ _ _ old (λ y p r. omega (arith, p)) old-low old-low)
          (omega (arith, at), tt))
    | inr (ne, h') ↦ All-map2 _ _ _ xs (λ y p r. omega (arith, p)) (low k xs h') (low k xs h')
  ]

  pub insert-Tracked : Tracked t' bufs offset × Below (i + 1) t'
  insert-Tracked = (record { sound = after_sound; apart = after-apart }, after-low)
