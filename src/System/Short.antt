-- ===== src/System/Short.antt =====
-- processPacket of stack_system.go on segments that end before their TCP header does.
use sing_tun.Base.{
  ℕ, ◌+◌, ◌<◌, ◌≡◌, refl, ap, ◌∙◌, true, false, Option, none, some, List, length, arith,
}
use sing_tun.Base.Bytes.{◌>>=◌, get16}
use sing_tun.Header.{
  ip_version, ipv4_is_valid, transport_protocol, source_addr, destination_addr, source_port,
  destination_port,
}
use sing_tun.Nat.{TcpNat}
use sing_tun.System.{System, Packet, ipv4_packet, is_global_unicast, stay}
use sing_tun.System.Tcp.{route_tcp, process_ipv4_tcp}
use sing_tun.System.Icmp.{Direct}
use sing_tun.System.Process.{is_broadcast, process_transport, process_ipv4, process_packet}

-- A valid IPv4 packet that processIPv4 hands to its TCP branch.
pub record TcpBound (s : System) (b : List ℕ) (p : Packet) (nat : TcpNat) (dst : ℕ) : Type 0 where
  pub version : ip_version b ≡ some 4
  pub valid : ipv4_is_valid b (length b) ≡ some true
  pub split : ipv4_packet b ≡ some p
  pub protocol : transport_protocol p.header ≡ some 6
  pub destination : destination_addr p.header ≡ some dst
  pub not_broadcast : is_broadcast s.broadcast_addr dst ≡ false
  pub global : is_global_unicast dst ≡ true
  pub has_nat : s.tcp_nat4 ≡ some nat

bind_none :
    {A B : Type 0} (m : Option A) (f : A → Option B) → ((a : A) → f a ≡ none) → (m >>= f) ≡ none
bind_none none f h = refl
bind_none (some a) f h = h a

get16-none : (b : List ℕ) (off : ℕ) → length b < off + 2 → get16 b off ≡ none
unfolding get16
get16-none b off h = ground arith

route_short :
    (s : System) (now : ℕ) (p : Packet) (nat : TcpNat)
    → length p.payload < 4
    → route_tcp s now p nat ≡ none
unfolding route_tcp destination_port
route_short s now p nat h = bind_none (source_addr p.header) _ λ src.
    bind_none (source_port p.payload) _
      λ sport. bind_none (destination_addr p.header) _ λ dst. rw (get16-none p.payload 2 h) refl

tcp_short :
    (s : System) (now : ℕ) (p : Packet) (nat : TcpNat)
    → s.tcp_nat4 ≡ some nat
    → length p.payload < 4
    → process_ipv4_tcp s now p ≡ none
unfolding process_ipv4_tcp
tcp_short s now p nat e h =
    ap (λ (o : Option TcpNat). elim o [ none ↦ some (stay s p) | some nat ↦ route_tcp s now p nat ])
      e
    ∙ route_short s now p nat h

ipv4_short :
    (s : System) (now : ℕ) (direct : ℕ → ℕ → Direct) (stale b : List ℕ) (p : Packet) (nat : TcpNat)
    (dst : ℕ)
    → TcpBound s b p nat dst
    → length p.payload < 4
    → process_ipv4 s now direct stale p ≡ none
unfolding process_ipv4 process_transport
ipv4_short s now direct stale b p nat dst t h =
    rw (t.destination, t.not_broadcast, t.global, t.protocol, tcp_short s now p nat t.has_nat h)
      refl

-- processPacket panics on every valid IPv4 packet for TCP whose payload has less than four bytes, if
-- its destination is a global unicast address other than the broadcast address and the stack has an
-- IPv4 address.
pub process_packet_short :
    (s : System) (now : ℕ) (direct direct6 : ℕ → ℕ → Direct) (stale b : List ℕ) (p : Packet)
    (nat : TcpNat) (dst : ℕ)
    → TcpBound s b p nat dst
    → length p.payload < 4
    → process_packet s now direct direct6 stale b ≡ none
unfolding process_packet
process_packet_short s now direct direct6 stale b p nat dst t h =
    rw (t.version, process_packet)
      (rw (t.valid, t.split, ipv4_short s now direct stale b p nat dst t h) refl)
