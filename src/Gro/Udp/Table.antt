-- ===== src/Gro/Udp/Table.antt =====
-- The flow table of the UDP receive offload: what insert and updateAt leave in it.
use sing_tun.Base.{
  ℕ, ◌+◌, ◌%◌, ◌^◌, ◌≡◌, refl, sym, ap, ◌∙◌, Bool, true, Option, none, some, List, [], ◌∷◌, ◌++◌,
  length, drop, get_elem?, if◌then◌else◌, arith,
}
use sing_tun.Base.Bytes.{slice, slice-some, bind_some, some_same}
use sing_tun.Gro.{set_at}
use sing_tun.Gro.Udp.{
  UdpFlowKey, UdpItem, UdpTable, bytes_eq, flow_eq, flow_items, insert, update_at,
}
use sing_tun.Gro.Udp.Merge.{window_rest}

bytes_eq→≡ : (a b : List ℕ) → bytes_eq a b ≡ true → a ≡ b
bytes_eq→≡ [] [] h = refl
bytes_eq→≡ [] (y ∷ b) h = cc
bytes_eq→≡ (x ∷ a) [] h = cc
bytes_eq→≡ (x ∷ a) (y ∷ b) h = ground (arith, bytes_eq→≡ a b)

pub flow_eq→≡ : (a b : UdpFlowKey) → flow_eq a b ≡ true → a ≡ b
flow_eq→≡ a b h = ground (arith, bytes_eq→≡ a.src_addr b.src_addr, bytes_eq→≡ a.dst_addr b.dst_addr)

bytes_eq_self : (a : List ℕ) → bytes_eq a a ≡ true
bytes_eq_self [] = refl
bytes_eq_self (x ∷ a) = ground (arith, bytes_eq_self a)

pub flow_eq_self : (a : UdpFlowKey) → flow_eq a a ≡ true
flow_eq_self a = ground (arith, bytes_eq_self a.src_addr, bytes_eq_self a.dst_addr)

-- The items of a flow; none if it is new.
abbrev pub items_in : Option (List UdpItem) → List UdpItem
items_in none = []
items_in (some items) = items

-- The item that insert makes.
abbrev pub new_item : UdpFlowKey → List ℕ → ℕ → ℕ → Bool → UdpItem
new_item key pkt udph_at i known_invalid = record {
  key = key;
  bufs_index = i % 2 ^ 16;
  num_merged = 0;
  gso_size = length (drop (udph_at + 8) pkt) % 2 ^ 16;
  iph_len = udph_at % 256;
  csum_known_invalid = known_invalid;
}

flow_items-some :
    (t : UdpTable) (key : UdpFlowKey) {r : List UdpItem × ℕ}
    → flow_items t key ≡ some r
    → r.0 ≡ items_in (t.items_by_flow key)
unfolding flow_items
flow_items-some t key h = ground arith

pub insert-some :
    (t : UdpTable) (key : UdpFlowKey) (pkt : List ℕ) (udph_at i : ℕ) (known_invalid : Bool)
    {t' : UdpTable}
    → insert t key pkt udph_at i known_invalid ≡ some t'
    → (k : UdpFlowKey)
    → t'.items_by_flow k ≡ (
        if flow_eq key k
        then some
            (items_in (t.items_by_flow key) ++ (new_item key pkt udph_at i known_invalid ∷ []))
        else t.items_by_flow k)
unfolding insert
insert-some t key pkt udph_at i known_invalid h k =
    let s1 = bind_some (slice pkt (udph_at + 8) (length pkt)) _ h in
    let s2 = bind_some (flow_items t key) _ s1.2 in
    let part = (slice-some pkt (udph_at + 8) (length pkt) s1.1).0 ∙ window_rest pkt (udph_at + 8) in
    let found = flow_items-some t key s2.1 in
    ap (λ (x : UdpTable). x.items_by_flow k) (sym (some_same _ _ s2.2)) ∙ rw (found, part) refl

pub update_at-some :
    (t : UdpTable) (item : UdpItem) (n : ℕ) (items : List UdpItem) {t' : UdpTable}
    → t.items_by_flow item.key ≡ some items
    → update_at t item n ≡ some t'
    → (k : UdpFlowKey)
    → t'.items_by_flow k
      ≡ (if flow_eq item.key k then some (set_at n item items) else t.items_by_flow k)
unfolding update_at
update_at-some t item n items e h k =
    let s1 = bind_some (t.items_by_flow item.key) _ h in
    let s2 = bind_some (get_elem? s1.0 n) _ s1.2 in
    let same = some_same _ _ (sym s1.1 ∙ e) in
    ap (λ (x : UdpTable). x.items_by_flow k) (sym (some_same _ _ s2.2)) ∙ rw same refl
