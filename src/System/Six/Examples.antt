-- ===== src/System/Six/Examples.antt =====
-- The theorems about IPv6 at packets between fd00::1 and 2001:db8::1.
use sing_tun.Base.{ℕ, ◌+◌, ◌≡◌, refl, false, none, some, [], ◌∷◌, arith, All}
use sing_tun.Base.Bytes.{get16, slice}
use sing_tun.Base.Net.{AddrPort}
use sing_tun.Checksum.Words.{IsByte}
use sing_tun.Header.{source_port, destination_port}
use sing_tun.Header.Ipv6.{get128, source_addr6, destination_addr6}
use sing_tun.Nat.{TcpNat, new_nat, lookup, lookup_back}
use sing_tun.Nat.Allocate.{lookup-new_nat}
use sing_tun.Nat.Refresh.{new_nat-Inv}
use sing_tun.System.{System, Packet, bytes}
use sing_tun.System.Route.{flow}
use sing_tun.System.Six.{rewrite_ipv6_tcp}
use sing_tun.System.Six.Tcp.{process_ipv6_tcp}
use sing_tun.System.Six.Icmp.{reject_ipv6, echo_reply6}
use sing_tun.System.Six.Sealed.{IsTcpPacket6, Readdressed6, rewrite_ipv6_tcp_lem}
use sing_tun.System.Six.Route.{HasFlow6, IsRunning6, with_nat6, Sent6, process_ipv6_tcp_restores}
use sing_tun.System.Six.Reject.{Rejects, reject_ipv6_lem}
use sing_tun.System.Six.Echo.{IsIcmpPacket6, IsEcho6, echo_reply6_lem}

abbrev own : ℕ
own = 336294682933583715844663186250927177729

abbrev remote : ℕ
remote = 42540766411282592856903984951653826561

abbrev nat : TcpNat
nat = new_nat 3000000000

abbrev stack : System
stack = record {
  mtu = 1500;
  inet4_address = 0;
  inet4_next_address = 0;
  broadcast_addr = none;
  inet4_loopback_address = [];
  tcp_port = 0;
  tcp_nat4 = none;
  inet6_address = own;
  inet6_next_address = own + 1;
  inet6_loopback_address = [];
  tcp_port6 = 5000;
  tcp_nat6 = some nat;
  tx_checksum_offload = false;
}

-- A SYN segment from port 40000 to port 443, and the listener's answer to port 10000.
abbrev syn : Packet
syn = record {
  header =
      96 ∷ 0 ∷ 0 ∷ 0 ∷ 0 ∷ 20 ∷ 6 ∷ 64 ∷ 253 ∷ 0 ∷ 0 ∷ 0 ∷ 0 ∷ 0 ∷ 0 ∷ 0 ∷ 0 ∷ 0 ∷ 0 ∷ 0 ∷ 0 ∷ 0 ∷ 0
      ∷ 1 ∷ 32 ∷ 1 ∷ 13 ∷ 184 ∷ 0 ∷ 0 ∷ 0 ∷ 0 ∷ 0 ∷ 0 ∷ 0 ∷ 0 ∷ 0 ∷ 0 ∷ 0 ∷ 1 ∷ [];
  payload =
      156 ∷ 64 ∷ 1 ∷ 187 ∷ 0 ∷ 0 ∷ 1 ∷ 0 ∷ 0 ∷ 0 ∷ 0 ∷ 0 ∷ 80 ∷ 2 ∷ 4 ∷ 0 ∷ 0 ∷ 0 ∷ 0 ∷ 0 ∷ [];
  trailer = [];
}

abbrev answer : Packet
answer = record {
  header =
      96 ∷ 0 ∷ 0 ∷ 0 ∷ 0 ∷ 20 ∷ 6 ∷ 64 ∷ 253 ∷ 0 ∷ 0 ∷ 0 ∷ 0 ∷ 0 ∷ 0 ∷ 0 ∷ 0 ∷ 0 ∷ 0 ∷ 0 ∷ 0 ∷ 0 ∷ 0
      ∷ 1 ∷ 253 ∷ 0 ∷ 0 ∷ 0 ∷ 0 ∷ 0 ∷ 0 ∷ 0 ∷ 0 ∷ 0 ∷ 0 ∷ 0 ∷ 0 ∷ 0 ∷ 0 ∷ 2 ∷ [];
  payload =
      19 ∷ 136 ∷ 39 ∷ 16 ∷ 0 ∷ 0 ∷ 9 ∷ 0 ∷ 0 ∷ 0 ∷ 1 ∷ 1 ∷ 80 ∷ 18 ∷ 4 ∷ 0 ∷ 0 ∷ 0 ∷ 0 ∷ 0 ∷ [];
  trailer = [];
}

abbrev client_end : AddrPort
client_end = record { addr = own; port = 40000 }

abbrev server_end : AddrPort
server_end = record { addr = remote; port = 443 }

syn-IsTcpPacket6 : IsTcpPacket6 syn
syn-IsTcpPacket6 = record {
  whole = record {
    header_bytes = grind arith;
    payload_bytes = grind arith;
    header_room = omega arith;
    payload_room = omega arith;
  };
  small = omega arith;
}

answer-IsTcpPacket6 : IsTcpPacket6 answer
answer-IsTcpPacket6 = record {
  whole = record {
    header_bytes = grind arith;
    payload_bytes = grind arith;
    header_room = omega arith;
    payload_room = omega arith;
  };
  small = omega arith;
}

syn-HasFlow6 : HasFlow6 syn client_end server_end
unfolding source_addr6 destination_addr6 source_port destination_port get128 get16 slice
syn-HasFlow6 = record { src_addr = refl; src_port = refl; dst_addr = refl; dst_port = refl }

answer-HasFlow6 :
    HasFlow6 answer (record { addr = own; port = 5000 }) (record { addr = own + 1; port = 10000 })
unfolding source_addr6 destination_addr6 source_port destination_port get128 get16 slice
answer-HasFlow6 = record { src_addr = refl; src_port = refl; dst_addr = refl; dst_port = refl }

rewrite_ipv6_tcp_lem_example :
    (q : Packet) × (rewrite_ipv6_tcp syn false (own + 1) (some 10000) own (some 5000) ≡ some q)
    × Readdressed6 syn false (own + 1) own (some 10000) (some 5000) q
rewrite_ipv6_tcp_lem_example =
    rewrite_ipv6_tcp_lem syn false (own + 1) (some 10000) own (some 5000) syn-IsTcpPacket6
      (omega arith) (omega arith) (omega arith) (omega arith)

stack-IsRunning6 : IsRunning6 stack nat
stack-IsRunning6 = record {
  has_nat = refl;
  linked = new_nat-Inv 3000000000;
  address = omega arith;
  next_address = omega arith;
  port = omega arith;
}

syn_port : (lookup nat (flow client_end server_end) 5).1 ≡ some 10000
syn_port = lookup-new_nat 3000000000 5 (flow client_end server_end)

abbrev nat_after : TcpNat
nat_after = (lookup nat (flow client_end server_end) 5).0

process_ipv6_tcp_restores_example :
    Sent6 (process_ipv6_tcp stack 5 syn) stack nat_after syn (own + 1) own (some 10000) (some 5000)
    × Sent6
        (process_ipv6_tcp (with_nat6 stack nat_after) 9 answer)
        (with_nat6 stack nat_after)
        (lookup_back nat_after 10000 9).0
        answer
        remote
        own
        (some 443)
        (some 40000)
process_ipv6_tcp_restores_example =
    process_ipv6_tcp_restores stack nat 5 9 syn answer client_end server_end 10000 stack-IsRunning6
      refl
      (record {
        is_tcp = syn-IsTcpPacket6;
        has_flow = syn-HasFlow6;
        global = refl;
        elsewhere = refl;
        not_loopback = refl;
      })
      syn_port (record { is_tcp = answer-IsTcpPacket6; has_flow = answer-HasFlow6 })

abbrev echo_request : Packet
echo_request = record {
  header =
      96 ∷ 0 ∷ 0 ∷ 0 ∷ 0 ∷ 9 ∷ 58 ∷ 64 ∷ 253 ∷ 0 ∷ 0 ∷ 0 ∷ 0 ∷ 0 ∷ 0 ∷ 0 ∷ 0 ∷ 0 ∷ 0 ∷ 0 ∷ 0 ∷ 0 ∷ 0
      ∷ 1 ∷ 32 ∷ 1 ∷ 13 ∷ 184 ∷ 0 ∷ 0 ∷ 0 ∷ 0 ∷ 0 ∷ 0 ∷ 0 ∷ 0 ∷ 0 ∷ 0 ∷ 0 ∷ 1 ∷ [];
  payload = 128 ∷ 0 ∷ 0 ∷ 0 ∷ 0 ∷ 1 ∷ 0 ∷ 1 ∷ 104 ∷ [];
  trailer = [];
}

echo_request-IsIcmpPacket6 : IsIcmpPacket6 echo_request
echo_request-IsIcmpPacket6 = record {
  header_bytes = grind arith;
  payload_bytes = grind arith;
  header_room = omega arith;
  payload_room = omega arith;
  small = omega arith;
}

echo_reply6_lem_example :
    (q : Packet) × (echo_reply6 echo_request ≡ some q) × IsEcho6 echo_request q
echo_reply6_lem_example = echo_reply6_lem echo_request echo_request-IsIcmpPacket6

request_bytes : All IsByte (bytes echo_request)
request_bytes = grind arith

request_source : source_addr6 echo_request.header ≡ some own
unfolding source_addr6 get128 slice
request_source = refl

request_destination : destination_addr6 echo_request.header ≡ some remote
unfolding destination_addr6 get128 slice
request_destination = refl

reject_ipv6_lem_example :
    Rejects 1500
      (bytes echo_request)
      3
      own
      remote
      (reject_ipv6 stack echo_request 3 (1 ∷ 2 ∷ 3 ∷ 4 ∷ []))
reject_ipv6_lem_example =
    reject_ipv6_lem stack echo_request 3 1 2 3 4 own remote (omega arith)
      (omega arith, omega arith, omega arith, omega arith) (omega arith) request_bytes
      request_source request_destination
