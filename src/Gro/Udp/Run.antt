-- ===== src/Gro/Udp/Run.antt =====
-- udpGRO of tun_offload_linux.go, on one packet.
use sing_tun.Base.{
  ℕ, ◌+◌, ◌-◌, ◌*◌, ◌/◌, ◌%◌, ◌^◌, Bool, true, false, not, ◌||◌, ◌&&◌, Option, none, some, List, [],
  ◌∷◌, length, ltb, ◌==◌, if◌then◌else◌,
}
use sing_tun.Base.Bytes.{◌>>=◌, get8, get16}
use sing_tun.Gro.{Buf, packet, byte_at}
use sing_tun.Gro.Udp.{
  UdpFlowKey, UdpItem, UdpTable, new_udp_flow_key, insert, update_at, udp_packets_can_coalesce,
  CoalesceResult, insufficient_cap, pkt_invalid_csum, success, coalesce_udp_packets,
}

pub data GroResult : Type 0 where
  noop table_insert coalesced : GroResult

-- A fragment, or reserved bits; both bytes are there.
abbrev pub is_fragment : List ℕ → Bool
is_fragment pkt =
    not (byte_at pkt 6 / 32 % 2 == 0) || not (byte_at pkt 6 % 32 == 0) || not (byte_at pkt 7 == 0)

-- The checks on the headers: the length of the IP header with that of the data, or `none` inside
-- for a packet that is left alone. `claimed` is the length that the IP header has.
unfoldable pub udp_lengths : List ℕ → Bool → ℕ → ℕ → Option (ℕ × ℕ)
udp_lengths pkt v6 iph_len claimed =
    if not (claimed + (if v6 then 40 else 0) == length pkt)
    then none
    else if ltb (length pkt) (iph_len + 8)
    then none
    else if not v6 && is_fragment pkt
    then none
    else if (length pkt - 8 - iph_len) % 2 ^ 16 == 0
    then none
    else some (iph_len, (length pkt - 8 - iph_len) % 2 ^ 16)

unfoldable pub udp_header : List ℕ → Bool → Option (Option (ℕ × ℕ))
udp_header pkt v6 = if ltb 65535 (length pkt) then some none else (do
  first ← get8 pkt 0
  claimed ← get16 pkt (if v6 then 4 else 2)
  some (udp_lengths pkt v6 (if v6 then 40 else first % 16 * 4) claimed))

abbrev pub last_item : List UdpItem → Option UdpItem
last_item [] = none
last_item (x ∷ []) = some x
last_item (x ∷ y ∷ items) = last_item (y ∷ items)

-- The end of udpGRO, after an attempt that gave `r`.
unfoldable pub finish :
    UdpTable
    → UdpFlowKey
    → List ℕ
    → ℕ
    → ℕ
    → ℕ
    → CoalesceResult × UdpItem × List Buf
    → Option (GroResult × List Buf × UdpTable)
finish table key pkt iph_len i last (success, item, bufs) = do
  table' ← update_at table item last
  some (coalesced, bufs, table')
finish table key pkt iph_len i last (pkt_invalid_csum, item, bufs) = do
  table' ← insert table key pkt iph_len i true
  some (table_insert, bufs, table')
finish table key pkt iph_len i last (_, item, bufs) = do
  table' ← insert table key pkt iph_len i false
  some (table_insert, bufs, table')

-- A packet of a flow that the table has: only the last item is tried.
unfoldable pub merge :
    List Buf
    → ℕ
    → ℕ
    → UdpTable
    → UdpFlowKey
    → List UdpItem
    → List ℕ
    → ℕ
    → ℕ
    → Bool
    → Bool
    → Option (GroResult × List Buf × UdpTable)
merge bufs offset i table key items pkt iph_len gso_size v6 skip = do
  item ← last_item items
  can ← udp_packets_can_coalesce pkt (iph_len % 256) gso_size item bufs offset
  r ←
      if can
      then coalesce_udp_packets pkt item bufs offset v6 skip
      else some (insufficient_cap, item, bufs)
  finish table key pkt iph_len i (length items - 1) r

unfoldable pub evaluate :
    List Buf
    → ℕ
    → ℕ
    → UdpTable
    → List ℕ
    → ℕ
    → ℕ
    → Bool
    → Bool
    → Option (GroResult × List Buf × UdpTable)
evaluate bufs offset i table pkt iph_len gso_size v6 skip =
    if length bufs == 1 then some (noop, bufs, table) else (do
      key ← new_udp_flow_key pkt (if v6 then 8 else 12) (if v6 then 16 else 4) iph_len
      elim (table.items_by_flow key) [
        | none ↦ do table' ← insert table key pkt iph_len i false; some (table_insert, bufs, table')
        | some items ↦ merge bufs offset i table key items pkt iph_len gso_size v6 skip
      ])

unfoldable pub udp_gro :
    List Buf → ℕ → ℕ → UdpTable → Bool → Bool → Option (GroResult × List Buf × UdpTable)
udp_gro bufs offset i table v6 skip = do
  pkt ← packet bufs i offset
  header ← udp_header pkt v6
  elim header [
    | none ↦ some (noop, bufs, table)
    | some h ↦ evaluate bufs offset i table pkt h.0 h.1 v6 skip
  ]
