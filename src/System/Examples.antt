-- ===== src/System/Examples.antt =====
-- The theorems about the system stack at packets between 172.18.0.1 and 1.2.3.4.
use sing_tun.Base.{ℕ, ap, ◌+◌, ◌≡◌, refl, false, Option, none, some, List, [], ◌∷◌, arith, All}
use sing_tun.Base.Bytes.{◌>>=◌, get8, get16, get32, slice}
use sing_tun.Base.Net.{AddrPort}
use sing_tun.Checksum.Words.{IsByte}
use sing_tun.Header.{
  ip_version, ip_flags, fragment_offset, header_length, total_length, payload_length, ipv4_is_valid,
  transport_protocol, source_addr, destination_addr, source_port, destination_port,
}
use sing_tun.Nat.{TcpNat, new_nat, lookup, lookup_back}
use sing_tun.Nat.Allocate.{lookup-new_nat}
use sing_tun.Nat.Refresh.{new_nat-Inv}
use sing_tun.System.{
  System, Packet, Step, new_packet, settle, bytes, ipv4_packet, UdpWriter, rewrite_ipv4_tcp,
}
use sing_tun.System.Tcp.{process_ipv4_tcp, reset_packet}
use sing_tun.System.Udp.{process_ipv4_udp, deliver, udp_write_packet}
use sing_tun.System.Icmp.{Direct, direct_none, echo_reply}
use sing_tun.System.Process.{finished, process_ipv4, process_transport, process_packet}
use sing_tun.System.Sealed.{IsTcpPacket, Readdressed, rewrite_ipv4_tcp_lem}
use sing_tun.System.Route.{HasFlow, flow, IsRunning, with_nat, Sent, process_ipv4_tcp_restores}
use sing_tun.System.Reset.{HasSegment, reset_for, IsReset, reset_packet_lem}
use sing_tun.System.Echo.{IsIcmpPacket, IsEcho, echo_reply_lem}
use sing_tun.System.Turned.{HasHeaders}
use sing_tun.System.Reply.{IsReply, udp_write_packet_lem}
use sing_tun.System.Keeping.{Keeps}
use sing_tun.System.Kept.{process_packet-Keeps}
use sing_tun.System.Short.{TcpBound, process_packet_short}
use sing_tun.System.Loops.{
  Event, call, write, batch_write, Loop, Arrival, tun_step, tun_loop, batch, batch_step, batch_loop,
}

-- 172.18.0.1 and the addresses around it, and 1.2.3.4.
abbrev own : ℕ
own = 2886860801

abbrev remote : ℕ
remote = 16909060

abbrev nat : TcpNat
nat = new_nat 3000000000

abbrev stack : System
stack = record {
  mtu = 1500;
  inet4_address = own;
  inet4_next_address = own + 1;
  broadcast_addr = some (own + 2);
  inet4_loopback_address = [];
  tcp_port = 5000;
  tcp_nat4 = some nat;
  inet6_address = 0;
  inet6_next_address = 0;
  inet6_loopback_address = [];
  tcp_port6 = 0;
  tcp_nat6 = none;
  tx_checksum_offload = false;
}

-- A SYN segment from port 40000 to port 443.
abbrev syn : Packet
syn = record {
  header = 69 ∷ 0 ∷ 0 ∷ 40 ∷ 0 ∷ 7 ∷ 0 ∷ 0 ∷ 64 ∷ 6 ∷ 0 ∷ 0 ∷ 172 ∷ 18 ∷ 0 ∷ 1 ∷ 1 ∷ 2 ∷ 3 ∷ 4 ∷ [];
  payload =
      156 ∷ 64 ∷ 1 ∷ 187 ∷ 0 ∷ 0 ∷ 1 ∷ 0 ∷ 0 ∷ 0 ∷ 0 ∷ 0 ∷ 80 ∷ 2 ∷ 4 ∷ 0 ∷ 0 ∷ 0 ∷ 0 ∷ 0 ∷ [];
  trailer = [];
}

-- The listener's answer to port 10000 of the next address.
abbrev answer : Packet
answer = record {
  header =
      69 ∷ 0 ∷ 0 ∷ 40 ∷ 0 ∷ 0 ∷ 0 ∷ 0 ∷ 64 ∷ 6 ∷ 0 ∷ 0 ∷ 172 ∷ 18 ∷ 0 ∷ 1 ∷ 172 ∷ 18 ∷ 0 ∷ 2 ∷ [];
  payload =
      19 ∷ 136 ∷ 39 ∷ 16 ∷ 0 ∷ 0 ∷ 9 ∷ 0 ∷ 0 ∷ 0 ∷ 1 ∷ 1 ∷ 80 ∷ 18 ∷ 4 ∷ 0 ∷ 0 ∷ 0 ∷ 0 ∷ 0 ∷ [];
  trailer = [];
}

abbrev client_end : AddrPort
client_end = record { addr = own; port = 40000 }

abbrev server_end : AddrPort
server_end = record { addr = remote; port = 443 }

syn-IsTcpPacket : IsTcpPacket syn
unfolding ip_version
syn-IsTcpPacket = record {
  whole = record {
    header_bytes = grind arith;
    payload_bytes = grind arith;
    header_room = omega arith;
    payload_room = omega arith;
  };
  version = refl;
  small = omega arith;
}

answer-IsTcpPacket : IsTcpPacket answer
unfolding ip_version
answer-IsTcpPacket = record {
  whole = record {
    header_bytes = grind arith;
    payload_bytes = grind arith;
    header_room = omega arith;
    payload_room = omega arith;
  };
  version = refl;
  small = omega arith;
}

syn-HasFlow : HasFlow syn client_end server_end
unfolding source_addr destination_addr source_port destination_port get32 get16
syn-HasFlow = record { src_addr = refl; src_port = refl; dst_addr = refl; dst_port = refl }

answer-HasFlow :
    HasFlow answer (record { addr = own; port = 5000 }) (record { addr = own + 1; port = 10000 })
unfolding source_addr destination_addr source_port destination_port get32 get16
answer-HasFlow = record { src_addr = refl; src_port = refl; dst_addr = refl; dst_port = refl }

rewrite_ipv4_tcp_lem_example :
    (q : Packet) × (rewrite_ipv4_tcp syn false (own + 1) (some 10000) own (some 5000) ≡ some q)
    × Readdressed syn false (own + 1) own (some 10000) (some 5000) q
rewrite_ipv4_tcp_lem_example =
    rewrite_ipv4_tcp_lem syn false (own + 1) (some 10000) own (some 5000) syn-IsTcpPacket
      (omega arith) (omega arith) (omega arith) (omega arith)

stack-IsRunning : IsRunning stack nat
stack-IsRunning = record {
  has_nat = refl;
  linked = new_nat-Inv 3000000000;
  address = omega arith;
  next_address = omega arith;
  port = omega arith;
}

syn_port : (lookup nat (flow client_end server_end) 5).1 ≡ some 10000
syn_port = lookup-new_nat 3000000000 5 (flow client_end server_end)

abbrev nat_after : TcpNat
nat_after = (lookup nat (flow client_end server_end) 5).0

process_ipv4_tcp_restores_example :
    Sent (process_ipv4_tcp stack 5 syn) stack nat_after syn (own + 1) own (some 10000) (some 5000)
    × Sent
        (process_ipv4_tcp (with_nat stack nat_after) 9 answer)
        (with_nat stack nat_after)
        (lookup_back nat_after 10000 9).0
        answer
        remote
        own
        (some 443)
        (some 40000)
process_ipv4_tcp_restores_example =
    process_ipv4_tcp_restores stack nat 5 9 syn answer client_end server_end 10000 stack-IsRunning
      refl
      (record {
        is_tcp = syn-IsTcpPacket;
        has_flow = syn-HasFlow;
        global = refl;
        elsewhere = refl;
        not_loopback = refl;
      })
      syn_port (record { is_tcp = answer-IsTcpPacket; has_flow = answer-HasFlow })

syn-HasSegment : HasSegment syn.payload 256 0 2 0
unfolding get32 get8
syn-HasSegment = record {
  seq_num = refl;
  ack_num = refl;
  flags_eq = refl;
  offset = 80;
  offset_eq = refl;
  ends = refl;
}

reset_packet_lem_example :
    IsReset syn false
      (reset_for client_end server_end 256 0 2 0)
      client_end
      server_end
      (reset_packet syn false)
reset_packet_lem_example =
    reset_packet_lem syn false client_end server_end 256 0 2 0 syn-IsTcpPacket syn-HasFlow
      syn-HasSegment (omega arith)

abbrev echo_request : Packet
echo_request = record syn { payload = 8 ∷ 0 ∷ 0 ∷ 0 ∷ 0 ∷ 1 ∷ 0 ∷ 1 ∷ 104 ∷ [] }

echo_request-IsIcmpPacket : IsIcmpPacket echo_request
unfolding header_length get8
echo_request-IsIcmpPacket = record {
  header_bytes = grind arith;
  payload_bytes = grind arith;
  header_room = omega arith;
  header_eq = refl;
  payload_room = omega arith;
}

echo_reply_lem_example : (q : Packet) × (echo_reply echo_request ≡ some q) × IsEcho echo_request q
echo_reply_lem_example = echo_reply_lem echo_request echo_request-IsIcmpPacket

-- The headers of a datagram from port 40000 to port 53.
abbrev writer : UdpWriter
writer = record {
  header =
      69 ∷ 0 ∷ 0 ∷ 40 ∷ 0 ∷ 7 ∷ 0 ∷ 0 ∷ 64 ∷ 17 ∷ 0 ∷ 0 ∷ 172 ∷ 18 ∷ 0 ∷ 1 ∷ 1 ∷ 2 ∷ 3 ∷ 4 ∷ 156
      ∷ 64 ∷ 0 ∷ 53 ∷ 0 ∷ 9 ∷ 0 ∷ 0 ∷ [];
  source = client_end;
  tx_checksum_offload = false;
}

writer-HasHeaders : HasHeaders writer.header 20
unfolding header_length get8
writer-HasHeaders = record {
  all_bytes = grind arith;
  header_eq = refl;
  header_room = omega arith;
  even = refl;
  length_eq = refl;
}

abbrev dns_answer : List ℕ
dns_answer = 1 ∷ 2 ∷ 3 ∷ []

dns_answer_bytes : All IsByte dns_answer
dns_answer_bytes = grind arith

udp_write_packet_lem_example :
    IsReply writer 20 dns_answer server_end (udp_write_packet writer dns_answer server_end)
udp_write_packet_lem_example =
    udp_write_packet_lem writer 20 dns_answer server_end writer-HasHeaders dns_answer_bytes
      (record { addr_fits = omega arith; port_fits = omega arith }) (omega arith)

-- No route is direct.
abbrev no_direct : ℕ → ℕ → Direct
no_direct src dst = direct_none

-- A packet of another protocol is written back.
abbrev gre_packet : List ℕ
gre_packet =
    69 ∷ 0 ∷ 0 ∷ 22 ∷ 0 ∷ 7 ∷ 0 ∷ 0 ∷ 64 ∷ 47 ∷ 0 ∷ 0 ∷ 172 ∷ 18 ∷ 0 ∷ 1 ∷ 1 ∷ 2 ∷ 3 ∷ 4 ∷ 156 ∷ 64
    ∷ []

abbrev syn_done : Step
syn_done = process_ipv4_tcp_restores_example.0.0

-- The SYN goes to the listener through the NAT.
syn_way :
    process_packet stack 5 no_direct no_direct [] (bytes syn) ≡ some (finished (settle syn_done))
unfolding process_packet process_ipv4 process_transport ip_version ipv4_is_valid ipv4_packet
    transport_protocol destination_addr header_length total_length payload_length get8 get16 get32
    slice
syn_way =
    ap (λ (m : Option Step). (m >>= λ st. some (settle st)) >>= λ st. some (finished st))
      process_ipv4_tcp_restores_example.0.1

process_packet-Keeps_example : Keeps stack (settle syn_done).system
process_packet-Keeps_example =
    process_packet-Keeps stack 5 no_direct no_direct [] (bytes syn) (finished (settle syn_done))
      syn_way

-- A TCP packet with two bytes of payload.
abbrev short_packet : List ℕ
short_packet =
    69 ∷ 0 ∷ 0 ∷ 22 ∷ 0 ∷ 7 ∷ 0 ∷ 0 ∷ 64 ∷ 6 ∷ 0 ∷ 0 ∷ 172 ∷ 18 ∷ 0 ∷ 1 ∷ 1 ∷ 2 ∷ 3 ∷ 4 ∷ 156 ∷ 64
    ∷ []

abbrev short_parts : Packet
short_parts = record {
  header = 69 ∷ 0 ∷ 0 ∷ 22 ∷ 0 ∷ 7 ∷ 0 ∷ 0 ∷ 64 ∷ 6 ∷ 0 ∷ 0 ∷ 172 ∷ 18 ∷ 0 ∷ 1 ∷ 1 ∷ 2 ∷ 3 ∷ 4 ∷ [];
  payload = 156 ∷ 64 ∷ [];
  trailer = [];
}

short-TcpBound : TcpBound stack short_packet short_parts nat remote
unfolding ip_version ipv4_is_valid ipv4_packet transport_protocol destination_addr header_length
    total_length payload_length get8 get16 get32 slice
short-TcpBound = record {
  version = refl;
  valid = refl;
  split = refl;
  protocol = refl;
  destination = refl;
  not_broadcast = refl;
  global = refl;
  has_nat = refl;
}

process_packet_short_example : process_packet stack 5 no_direct no_direct [] short_packet ≡ none
process_packet_short_example =
    process_packet_short stack 5 no_direct no_direct [] short_packet short_parts nat remote
      short-TcpBound (omega arith)

abbrev start : Loop
start = record { system = stack; events = [] }

abbrev arrive : ℕ → List ℕ → Arrival
arrive now b = record {
  now = now;
  direct4 = no_direct;
  direct6 = no_direct;
  stale = [];
  packet = b;
}

-- A datagram of one byte for the handler.
abbrev datagram : List ℕ
datagram =
    69 ∷ 0 ∷ 0 ∷ 29 ∷ 0 ∷ 7 ∷ 0 ∷ 0 ∷ 64 ∷ 17 ∷ 0 ∷ 0 ∷ 172 ∷ 18 ∷ 0 ∷ 1 ∷ 1 ∷ 2 ∷ 3 ∷ 4 ∷ 156 ∷ 64
    ∷ 0 ∷ 53 ∷ 0 ∷ 9 ∷ 0 ∷ 0 ∷ 7 ∷ []

abbrev handed : Event
handed = call (
    new_packet client_end (record { addr = remote; port = 53 }) (7 ∷ [])
      (record {
        header =
            69 ∷ 0 ∷ 0 ∷ 29 ∷ 0 ∷ 7 ∷ 0 ∷ 0 ∷ 64 ∷ 17 ∷ 0 ∷ 0 ∷ 172 ∷ 18 ∷ 0 ∷ 1 ∷ 1 ∷ 2 ∷ 3 ∷ 4
            ∷ 156 ∷ 64 ∷ 0 ∷ 53 ∷ 0 ∷ 9 ∷ 0 ∷ 0 ∷ [];
        source = client_end;
        tx_checksum_offload = false;
      }))

abbrev batches : List (List Arrival)
batches = (arrive 5 gre_packet ∷ arrive 5 (96 ∷ []) ∷ arrive 6 datagram ∷ []) ∷ []

batch_runs :
    batch_loop start batches
    ≡ some (record { system = stack; events = handed ∷ batch_write (gre_packet ∷ []) ∷ [] })
unfolding batch_loop batch_step batch process_packet process_ipv4 process_transport ip_version
    ipv4_is_valid ipv4_packet transport_protocol destination_addr header_length total_length
    payload_length get8 get16 get32 slice process_ipv4_udp deliver source_addr source_port
    destination_port ip_flags fragment_offset
batch_runs = refl

tun_runs :
    tun_loop start (arrive 5 gre_packet ∷ arrive 5 (96 ∷ []) ∷ arrive 6 datagram ∷ [])
    ≡ some (record { system = stack; events = write gre_packet ∷ handed ∷ [] })
unfolding tun_loop tun_step process_packet process_ipv4 process_transport ip_version ipv4_is_valid
    ipv4_packet transport_protocol destination_addr header_length total_length payload_length get8
    get16 get32 slice process_ipv4_udp deliver source_addr source_port destination_port ip_flags
    fragment_offset
tun_runs = refl
