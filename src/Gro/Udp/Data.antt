-- ===== src/Gro/Udp/Data.antt =====
-- The data that the packets of a list of items hold, and how a merge extends it.
use mathlib.Core.Path.{subst}
use mathlib.Core.List.{append-nil, append_assoc}
use sing_tun.Base.{
  ℕ, zero, suc, ◌+◌, ◌-◌, ◌≤◌, ◌≡◌, ◌≢◌, refl, sym, ap, Option, none, some, List, [], ◌∷◌, ◌++◌,
  length, length-append, drop, get_elem?, arith, All,
}
use sing_tun.Base.Bytes.{slice, slice_total, slice-some, some_same}
use sing_tun.Gro.{Buf, set_at, packet}
use sing_tun.Gro.Udp.{UdpItem}
use sing_tun.Gro.Udp.Merge.{window_rest}
use sing_tun.Gro.Udp.Run.{last_item}

pub behind : ℕ → Option (List ℕ) → List ℕ
behind n none = []
behind n (some p) = drop n p

-- The data behind the headers of an item's packet.
pub payload_of : List Buf → ℕ → UdpItem → List ℕ
payload_of bufs offset item = behind (item.iph_len + 8) (packet bufs item.bufs_index offset)

pub flow_data : List Buf → ℕ → List UdpItem → List ℕ
flow_data bufs offset [] = []
flow_data bufs offset (x ∷ items) = payload_of bufs offset x ++ flow_data bufs offset items

pub drop-append_le : (n : ℕ) (xs ys : List ℕ) → n ≤ length xs → drop n (xs ++ ys) ≡ drop n xs ++ ys
drop-append_le zero xs ys h = refl
drop-append_le (suc n) [] ys h = absurd (omega arith)
drop-append_le (suc n) (x ∷ xs) ys h = drop-append_le n xs ys (omega arith)

pub get-set_at_same :
    {A : Type 0} (xs : List A) (i : ℕ) (v x : A)
    → get_elem? xs i ≡ some x
    → get_elem? (set_at i v xs) i ≡ some v
get-set_at_same [] i v x h = cc
get-set_at_same (y ∷ xs) zero v x h = refl
get-set_at_same (y ∷ xs) (suc i) v x h = get-set_at_same xs i v x h

pub get-set_at_other :
    {A : Type 0} (xs : List A) (i j : ℕ) (v : A)
    → i ≢ j
    → get_elem? (set_at i v xs) j ≡ get_elem? xs j
get-set_at_other [] i j v h = refl
get-set_at_other (y ∷ xs) zero zero v h = absurd (h refl)
get-set_at_other (y ∷ xs) zero (suc j) v h = refl
get-set_at_other (y ∷ xs) (suc i) zero v h = refl
get-set_at_other (y ∷ xs) (suc i) (suc j) v h = get-set_at_other xs i j v (λ e. h (ap suc e))

-- The packet of a buffer that was extended.
pub packet-extended :
    (bufs : List Buf) (i offset : ℕ) (b : Buf) (more p : List ℕ)
    → get_elem? bufs i ≡ some b
    → packet bufs i offset ≡ some p
    → packet (set_at i (record b { bytes = b.bytes ++ more }) bufs) i offset ≡ some (p ++ more)
unfolding packet
packet-extended bufs i offset b more p e h =
    let new = b.bytes ++ more in
    let len = length-append b.bytes more in
    let h' : slice b.bytes offset (length b.bytes) ≡ some p = rw e at h in
    let s = slice-some b.bytes offset (length b.bytes) h' in
    rw
      (
        get-set_at_same bufs i (record b { bytes = new }) b e,
        slice_total new offset (length new) (omega (arith, s.1, len)) (omega arith),
        window_rest new offset,
        drop-append_le offset b.bytes more (omega (arith, s.1)),
        s.0,
        window_rest b.bytes offset,
      )
      refl

pub packet-other :
    (bufs : List Buf) (i j offset : ℕ) (v : Buf)
    → i ≢ j
    → packet (set_at i v bufs) j offset ≡ packet bufs j offset
unfolding packet
packet-other bufs i j offset v h = rw (get-set_at_other bufs i j v h) refl

payload_of-other :
    (x : UdpItem) (bufs : List Buf) (i offset : ℕ) (v : Buf)
    → i ≢ x.bufs_index
    → payload_of (set_at i v bufs) offset x ≡ payload_of bufs offset x
unfolding payload_of
payload_of-other x bufs i offset v h =
    ap (behind (x.iph_len + 8)) (packet-other bufs i x.bufs_index offset v h)

-- Items of other buffers keep their data.
pub flow_data-other :
    (items : List UdpItem) (bufs : List Buf) (i offset : ℕ) (v : Buf)
    → All (λ (x : UdpItem). i ≢ x.bufs_index) items
    → flow_data (set_at i v bufs) offset items ≡ flow_data bufs offset items
unfolding flow_data
flow_data-other [] bufs i offset v h = refl
flow_data-other (x ∷ items) bufs i offset v h =
    rw (payload_of-other x bufs i offset v h.0, flow_data-other items bufs i offset v h.1) refl

-- Every item before the last is in a buffer of its own.
abbrev pub Separate : List UdpItem → Type 0
Separate [] = Unit {0}
Separate (x ∷ items) = All (λ (y : UdpItem). x.bufs_index ≢ y.bufs_index) items × Separate items

last_apart :
    (x : UdpItem) (items : List UdpItem) (l : UdpItem)
    → All (λ (y : UdpItem). x.bufs_index ≢ y.bufs_index) items
    → last_item items ≡ some l
    → x.bufs_index ≢ l.bufs_index
last_apart x [] l h e = cc
last_apart x (y ∷ []) l h e =
    subst (λ (z : UdpItem). x.bufs_index ≢ z.bufs_index) (some_same y l e) h.0
last_apart x (y ∷ z ∷ items) l h e = last_apart x (z ∷ items) l h.1 e

payload_of-extended :
    (bufs : List Buf) (offset : ℕ) (l l' : UdpItem) (b : Buf) (more p : List ℕ)
    → l'.bufs_index ≡ l.bufs_index
    → l'.iph_len ≡ l.iph_len
    → get_elem? bufs l.bufs_index ≡ some b
    → packet bufs l.bufs_index offset ≡ some p
    → l.iph_len + 8 ≤ length p
    → payload_of (set_at l.bufs_index (record b { bytes = b.bytes ++ more }) bufs) offset l'
      ≡ payload_of bufs offset l ++ more
unfolding payload_of behind
payload_of-extended bufs offset l l' b more p ei eh eb ep long =
    rw (ei, eh, packet-extended bufs l.bufs_index offset b more p eb ep, ep)
      (drop-append_le (l.iph_len + 8) p more long)

-- Extending the last item's buffer by `more` puts `more` at the end of the data.
pub flow_data-extended :
    (items : List UdpItem) (bufs : List Buf) (offset : ℕ) (l l' : UdpItem) (b : Buf)
    (more p : List ℕ)
    → Separate items
    → last_item items ≡ some l
    → l'.bufs_index ≡ l.bufs_index
    → l'.iph_len ≡ l.iph_len
    → get_elem? bufs l.bufs_index ≡ some b
    → packet bufs l.bufs_index offset ≡ some p
    → l.iph_len + 8 ≤ length p
    → flow_data
        (set_at l.bufs_index (record b { bytes = b.bytes ++ more }) bufs)
        offset
        (set_at (length items - 1) l' items)
      ≡ flow_data bufs offset items ++ more
unfolding flow_data
flow_data-extended [] bufs offset l l' b more p s e ei eh eb ep long = cc
flow_data-extended (x ∷ []) bufs offset l l' b more p s e ei eh eb ep long =
    let bufs' = set_at l.bufs_index (record b { bytes = b.bytes ++ more }) bufs in
    rw
      (
        append-nil (payload_of bufs' offset l'),
        append-nil (payload_of bufs offset x),
        some_same x l e,
      )
      (payload_of-extended bufs offset l l' b more p ei eh eb ep long)
flow_data-extended (x ∷ y ∷ items) bufs offset l l' b more p s e ei eh eb ep long =
    let v = record b { bytes = b.bytes ++ more } in
    let apart = last_apart x (y ∷ items) l s.0 e in
    let place : length (x ∷ y ∷ items) - 1 ≡ suc (length (y ∷ items) - 1) = omega arith in
    rw
      (
        place,
        payload_of-other x bufs l.bufs_index offset v (λ q. apart (sym q)),
        flow_data-extended (y ∷ items) bufs offset l l' b more p s.1 e ei eh eb ep long,
      )
      (sym (append_assoc (payload_of bufs offset x) (flow_data bufs offset (y ∷ items)) more))

pub flow_data-append :
    (bufs : List Buf) (offset : ℕ) (xs : List UdpItem) (x : UdpItem)
    → flow_data bufs offset (xs ++ (x ∷ [])) ≡ flow_data bufs offset xs ++ payload_of bufs offset x
unfolding flow_data
flow_data-append bufs offset [] x = append-nil (payload_of bufs offset x)
flow_data-append bufs offset (y ∷ xs) x = rw (flow_data-append bufs offset xs x) (
    sym (
      append_assoc (payload_of bufs offset y) (flow_data bufs offset xs)
        (payload_of bufs offset x)))

pub payload_of-some :
    (bufs : List Buf) (offset : ℕ) (x : UdpItem) (p : List ℕ)
    → packet bufs x.bufs_index offset ≡ some p
    → payload_of bufs offset x ≡ drop (x.iph_len + 8) p
unfolding payload_of behind
payload_of-some bufs offset x p h = rw h refl
