-- ===== src/Gro/Examples.antt =====
-- The receive offload for two datagrams of one flow.
use sing_tun.Base.{ℕ, ◌+◌, ◌≡◌, refl, true, false, Option, none, some, List, [], ◌∷◌, ◌++◌, arith}
use sing_tun.Base.Bytes.{slice, get8, get16}
use sing_tun.Gro.{VirtioNetHdr, Buf, packet, ip_headers_can_coalesce}
use sing_tun.Gro.Udp.{
  UdpItem, UdpTable, new_udp_table, new_udp_flow_key, flow_items, insert, update_at,
  udp_packets_can_coalesce, CoalesceResult, success, csum_unusable, item_unusable, extend,
  append_packet, coalesce_udp_packets,
}
use sing_tun.Gro.Udp.Run.{
  GroResult, noop, coalesced, udp_lengths, udp_header, finish, merge, evaluate, udp_gro,
}
use sing_tun.Gro.Udp.Merge.{Appended, coalesce_udp_packets_lem}
use sing_tun.Gro.Udp.Order.{Tracked}
use sing_tun.Gro.Udp.Tracking.{Below}
use sing_tun.Gro.Udp.Attempt.{Kept}
use sing_tun.Gro.Udp.Lossless.{new-Tracked, udp_gro_lem, udp_gro-Tracked}

abbrev header : VirtioNetHdr
header = record {
  flags = 1;
  gso_type = 5;
  hdr_len = 28;
  gso_size = 1400;
  csum_start = 20;
  csum_offset = 6;
}

-- A datagram of two bytes over IPv4.
abbrev datagram : ℕ → List ℕ
datagram x =
    (69 ∷ 0 ∷ 0 ∷ 30 ∷ 0 ∷ 7 ∷ 0 ∷ 0 ∷ 64 ∷ 17 ∷ 0 ∷ 0 ∷ 10 ∷ 0 ∷ 0 ∷ 1 ∷ 10 ∷ 0 ∷ 0 ∷ 2 ∷ [])
    ++ (156 ∷ 64 ∷ 0 ∷ 53 ∷ 0 ∷ 10 ∷ 9 ∷ 9 ∷ x ∷ 5 ∷ [])

abbrev bufs : List Buf
bufs =
    record { bytes = 0 ∷ 0 ∷ datagram 3; cap = 2000 }
    ∷ record { bytes = 0 ∷ 0 ∷ datagram 4; cap = 2000 }
    ∷ []

abbrev or_unchanged :
    List Buf → UdpTable → Option (GroResult × List Buf × UdpTable) → GroResult × List Buf × UdpTable
or_unchanged b t none = (noop, b, t)
or_unchanged b t (some r) = r

abbrev first_run : GroResult × List Buf × UdpTable
first_run = or_unchanged bufs new_udp_table (udp_gro bufs 2 0 new_udp_table false true)

first_run_eq : udp_gro bufs 2 0 new_udp_table false true ≡ some first_run
unfolding udp_gro packet slice get8 get16 udp_header udp_lengths evaluate new_udp_flow_key insert
    flow_items
first_run_eq = refl

first_packet : packet bufs 0 2 ≡ some (datagram 3)
unfolding packet slice
first_packet = refl

udp_gro-Tracked_example : Tracked first_run.2 first_run.1 2 × Below (0 + 1) first_run.2
udp_gro-Tracked_example =
    udp_gro-Tracked new_udp_table bufs 2 0 false true (datagram 3) first_run (new-Tracked bufs 2).0
      (new-Tracked bufs 2).1 (omega arith) first_packet (λ e. refl) first_run_eq

-- The second datagram is appended to the first.
abbrev second_run : GroResult × List Buf × UdpTable
second_run = or_unchanged first_run.1 first_run.2 (udp_gro first_run.1 2 1 first_run.2 false true)

second_run_eq : udp_gro first_run.1 2 1 first_run.2 false true ≡ some second_run
unfolding udp_gro packet slice get8 get16 udp_header udp_lengths evaluate new_udp_flow_key insert
    flow_items merge finish update_at udp_packets_can_coalesce ip_headers_can_coalesce csum_unusable
    item_unusable extend append_packet coalesce_udp_packets
second_run_eq = refl

second_coalesced : second_run.0 ≡ coalesced
unfolding udp_gro packet slice get8 get16 udp_header udp_lengths evaluate new_udp_flow_key insert
    flow_items merge finish update_at udp_packets_can_coalesce ip_headers_can_coalesce csum_unusable
    item_unusable extend append_packet coalesce_udp_packets
second_coalesced = refl

second_packet : packet first_run.1 1 2 ≡ some (datagram 4)
unfolding udp_gro packet slice get8 get16 udp_header udp_lengths evaluate new_udp_flow_key insert
    flow_items
second_packet = refl

first_Tracked : Tracked first_run.2 first_run.1 2 × Below 1 first_run.2
first_Tracked =
    udp_gro-Tracked new_udp_table bufs 2 0 false true (datagram 3) first_run (new-Tracked bufs 2).0
      (new-Tracked bufs 2).1 (omega arith) first_packet (λ e. refl) first_run_eq

udp_gro_lem_example : Kept first_run.2 first_run.1 2 (datagram 4) false 20 second_run
udp_gro_lem_example =
    udp_gro_lem first_run.2 first_run.1 2 1 false true (datagram 4) second_run first_Tracked.0
      first_Tracked.1 (omega arith) second_packet (λ e. refl) second_run_eq

-- The item of the first datagram.
abbrev item : UdpItem
item = record {
  key = record { src_addr = []; dst_addr = []; src_port = 40000; dst_port = 53; is_v6 = false };
  bufs_index = 0;
  num_merged = 0;
  gso_size = 2;
  iph_len = 20;
  csum_known_invalid = false;
}

abbrev merged : CoalesceResult × UdpItem × List Buf
merged = (
  success,
  record item { num_merged = 1 },
  record { bytes = (0 ∷ 0 ∷ datagram 3) ++ (4 ∷ 5 ∷ []); cap = 2000 }
      ∷ record { bytes = 0 ∷ 0 ∷ datagram 4; cap = 2000 }
      ∷ [],
)

merged_eq : coalesce_udp_packets (datagram 4) item bufs 2 false true ≡ some merged
unfolding slice get16 csum_unusable item_unusable extend append_packet coalesce_udp_packets
merged_eq = refl

coalesce_udp_packets_lem_example : Appended (datagram 4) item bufs merged
coalesce_udp_packets_lem_example =
    coalesce_udp_packets_lem (datagram 4) item bufs 2 false true merged merged_eq
