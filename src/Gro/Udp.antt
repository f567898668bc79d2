-- ===== src/Gro/Udp.antt =====
-- UDP in the receive offload: the flow table and udpGRO of tun_offload_linux.go.
pub mod Run
pub mod Merge
pub mod Data
pub mod Table
pub mod Order
pub mod Attempt
pub mod Lossless
pub mod Tracking
pub mod Growing
use sing_tun.Base.{
  ℕ, zero, suc, ◌+◌, ◌-◌, ◌*◌, ◌/◌, ◌%◌, ◌^◌, Bool, true, false, not, ◌||◌, ◌&&◌, Option, none,
  some, List, [], ◌∷◌, ◌++◌, length, get_elem?, ltb, leb, ◌==◌, if◌then◌else◌,
}
use sing_tun.Base.Net.{update}
use sing_tun.Base.Bytes.{◌>>=◌, slice, get8, get16, overlay}
use sing_tun.Gro.{Buf, set_at, packet, byte_at, ip_headers_can_coalesce, checksum_valid}

pub record UdpFlowKey : Type 0 where
  pub src_addr : List ℕ
  pub dst_addr : List ℕ
  pub src_port : ℕ
  pub dst_port : ℕ
  pub is_v6 : Bool

pub record UdpItem : Type 0 where
  pub key : UdpFlowKey
  pub bufs_index : ℕ
  pub num_merged : ℕ
  pub gso_size : ℕ
  pub iph_len : ℕ
  pub csum_known_invalid : Bool

-- The pool stands as the number of slices in it.
pub record UdpTable : Type 0 where
  pub items_by_flow : UdpFlowKey → Option (List UdpItem)
  pub pool : ℕ

abbrev pub bytes_eq : List ℕ → List ℕ → Bool
bytes_eq [] [] = true
bytes_eq (x ∷ a) (y ∷ b) = x == y && bytes_eq a b
bytes_eq _ _ = false

abbrev bool_eq : Bool → Bool → Bool
bool_eq true b = b
bool_eq false b = not b

abbrev pub flow_eq : UdpFlowKey → UdpFlowKey → Bool
flow_eq a b =
    bytes_eq a.src_addr b.src_addr
    && bytes_eq a.dst_addr b.dst_addr
    && a.src_port == b.src_port
    && a.dst_port == b.dst_port
    && bool_eq a.is_v6 b.is_v6

-- A [16]byte of zeros.
abbrev zeros : List ℕ
zeros = 0 ∷ 0 ∷ 0 ∷ 0 ∷ 0 ∷ 0 ∷ 0 ∷ 0 ∷ 0 ∷ 0 ∷ 0 ∷ 0 ∷ 0 ∷ 0 ∷ 0 ∷ 0 ∷ []

-- newUDPGROTable, whose pool has idealBatchSize slices.
abbrev pub new_udp_table : UdpTable
new_udp_table = record { items_by_flow = λ k. none; pool = 128 }

-- newUDPFlowKey, with srcAddrOffset and the length of an address.
unfoldable pub new_udp_flow_key : List ℕ → ℕ → ℕ → ℕ → Option UdpFlowKey
new_udp_flow_key pkt src_at addr_size udph_at = do
  src ← slice pkt src_at (src_at + addr_size)
  dst ← slice pkt (src_at + addr_size) (src_at + addr_size + addr_size)
  src_port ← get16 pkt udph_at
  dst_port ← get16 pkt (udph_at + 2)
  some (record {
    src_addr = overlay src zeros;
    dst_addr = overlay dst zeros;
    src_port = src_port;
    dst_port = dst_port;
    is_v6 = addr_size == 16;
  })

-- What insert appends to: the flow's items, or a new slice of the pool, which must not be empty.
unfoldable pub flow_items : UdpTable → UdpFlowKey → Option (List UdpItem × ℕ)
flow_items t key = elim (t.items_by_flow key) [
  | some items ↦ some (items, t.pool)
  | none ↦ if t.pool == 0 then none else some ([], t.pool - 1)
]

unfoldable pub insert : UdpTable → UdpFlowKey → List ℕ → ℕ → ℕ → Bool → Option UdpTable
insert t key pkt udph_at bufs_index known_invalid = do
  data_part ← slice pkt (udph_at + 8) (length pkt)
  found ← flow_items t key
  some (record {
    items_by_flow = update flow_eq t.items_by_flow key (
        some (
          found.0
          ++ (record {
            key = key;
            bufs_index = bufs_index % 2 ^ 16;
            num_merged = 0;
            gso_size = length data_part % 2 ^ 16;
            iph_len = udph_at % 256;
            csum_known_invalid = known_invalid;
          }
              ∷ [])));
    pool = found.1;
  })

-- updateAt writes into the slice that the table holds.
unfoldable pub update_at : UdpTable → UdpItem → ℕ → Option UdpTable
update_at t item i = do
  items ← t.items_by_flow item.key
  old ← get_elem? items i
  some (record t {
    items_by_flow = update flow_eq t.items_by_flow item.key (some (set_at i item items));
  })

-- Whether the packet may be appended, which is all that UDP has; the remainder panics on zero.
unfoldable pub udp_packets_can_coalesce : List ℕ → ℕ → ℕ → UdpItem → List Buf → ℕ → Option Bool
udp_packets_can_coalesce pkt iph_len gso_size item bufs offset = do
  target ← packet bufs item.bufs_index offset
  if not (ip_headers_can_coalesce pkt target) then some false else (do
    rest ← slice target ((iph_len + 8) % 256) (length target)
    if item.gso_size == 0
        then none
        else some (length rest % item.gso_size == 0 && leb gso_size item.gso_size))

pub data CoalesceResult : Type 0 where
  insufficient_cap item_invalid_csum pkt_invalid_csum success : CoalesceResult

-- A zero checksum, or, if they are checked, a wrong one.
unfoldable pub csum_unusable : List ℕ → ℕ → Bool → Bool → Option Bool
csum_unusable pkt iph_len v6 skip = do
  csum ← get16 pkt ((iph_len + 6) % 256)
  if csum == 0
      then some true
      else if skip
      then some false
      else (do valid ← checksum_valid pkt iph_len 17 v6; some (not valid))

-- Whether the item's packet is refused; it is looked at before the first merge only.
unfoldable pub item_unusable : List ℕ → UdpItem → Bool → Bool → Option Bool
item_unusable head item v6 skip =
    if not (item.num_merged == 0)
    then some false
    else if item.csum_known_invalid
    then some true
    else csum_unusable head item.iph_len v6 skip

-- bufs[i] = b[:len(b)+extendBy] with `more` copied behind: beyond the capacity it panics.
unfoldable pub extend : List Buf → ℕ → Buf → List ℕ → Option (List Buf)
extend bufs i b more =
    if ltb b.cap (length b.bytes + length more)
    then none
    else some (set_at i (record b { bytes = b.bytes ++ more }) bufs)

unfoldable pub append_packet :
    List ℕ → UdpItem → Buf → List Buf → Option (CoalesceResult × UdpItem × List Buf)
append_packet pkt item b bufs = do
  more ← slice pkt ((item.iph_len + 8) % 256) (length pkt)
  bufs' ← extend bufs item.bufs_index b more
  some (success, record item { num_merged = (item.num_merged + 1) % 2 ^ 16 }, bufs')

-- The capacity that remains behind the head is counted from 2 * bufsOffset, as the source does.
unfoldable pub coalesce_udp_packets :
    List ℕ → UdpItem → List Buf → ℕ → Bool → Bool → Option (CoalesceResult × UdpItem × List Buf)
coalesce_udp_packets pkt item bufs offset v6 skip = do
  b ← get_elem? bufs item.bufs_index
  head ← slice b.bytes offset (length b.bytes)
  if ltb (b.cap + (item.iph_len + 8) % 256) (offset + offset + length head + length pkt)
      then some (insufficient_cap, item, bufs)
      else (do
        item_bad ← item_unusable head item v6 skip
        if item_bad then some (item_invalid_csum, item, bufs) else (do
          pkt_bad ← csum_unusable pkt item.iph_len v6 skip
          if pkt_bad then some (pkt_invalid_csum, item, bufs) else append_packet pkt item b bufs))
