-- ===== src/System.antt =====
-- The system stack of stack_system.go: TCP is rewritten towards the local listener and
-- back, UDP is handed to the handler. The listener's sockets, the device and the handler are outside:
-- what is sent to them is a list of effects. The errors of tun.Write are only logged, and left out.
pub mod Tcp
pub mod Udp
pub mod Icmp
pub mod Six
pub mod Process
pub mod Rewrite
pub mod Ports
pub mod Sealed
pub mod Route
pub mod Reset
pub mod Echo
pub mod Turned
pub mod Datagram
pub mod Reply
pub mod Keeping
pub mod Kept4
pub mod Kept
pub mod Short
pub mod Loops
pub mod Gathered
pub mod Batches
mod Examples
use sing_tun.Base.{
  ℕ, ◌+◌, ◌-◌, ◌*◌, ◌/◌, ◌%◌, ◌^◌, Bool, true, false, not, ◌||◌, ◌&&◌, Option, none, some, List, [],
  ◌∷◌, ◌++◌, length, ltb, leb, ◌==◌, if◌then◌else◌,
}
use sing_tun.Base.Bytes.{◌>>=◌, slice, bytes16, bytes32, get8, get32}
use sing_tun.Base.Net.{AddrPort}
use sing_tun.Header.{
  header_length, payload_length, source_addr, destination_addr,
  set_source_address_with_checksum_update, set_destination_address_with_checksum_update,
  source_port, destination_port, set_source_port, set_destination_port, set_tcp_checksum,
  update_checksum_pseudo_header_address, set_source_port_with_checksum_update,
  set_destination_port_with_checksum_update,
}
use sing_tun.Nat.{TcpNat}

-- The state that the packets depend on. `none` in broadcast_addr is the zero netip.Addr, in tcp_nat4
-- and tcp_nat6 a nil pointer; an address that is not configured is 0. directNat is a cache of a library
-- and stands outside: a Lookup, which may change it, is an effect, and its answer is an argument.
pub record System : Type 0 where
  pub mtu : ℕ
  pub inet4_address : ℕ
  pub inet4_next_address : ℕ
  pub broadcast_addr : Option ℕ
  pub inet4_loopback_address : List ℕ
  pub tcp_port : ℕ
  pub tcp_nat4 : Option TcpNat
  pub inet6_address : ℕ
  pub inet6_next_address : ℕ
  pub inet6_loopback_address : List ℕ
  pub tcp_port6 : ℕ
  pub tcp_nat6 : Option TcpNat
  pub tx_checksum_offload : Bool

-- The packet in its buffer: the IP header with its options, the IP payload, and what follows the
-- total length. The three do not overlap, since a valid header has 20 bytes and ends before the
-- payload; a write beyond the end of a part is a panic, as it is in a slice.
pub record Packet : Type 0 where
  pub header : List ℕ
  pub payload : List ℕ
  pub trailer : List ℕ

-- What ipHdr and ipHdr.Payload() are slices of.
unfoldable pub ipv4_packet : List ℕ → Option Packet
ipv4_packet b = do
  hlen ← header_length b
  len ← payload_length b
  header ← slice b 0 hlen
  payload ← slice b hlen (hlen + len)
  trailer ← slice b (hlen + len) (length b)
  some (record { header = header; payload = payload; trailer = trailer })

abbrev pub bytes : Packet → List ℕ
bytes p = p.header ++ (p.payload ++ p.trailer)

-- netip.Addr.IsGlobalUnicast for IPv4: not 0.0.0.0, the broadcast, loopback, multicast or
-- link-local address.
abbrev pub is_global_unicast : ℕ → Bool
is_global_unicast a =
    not (a == 0)
    && not (a == 2 ^ 32 - 1)
    && not (a / 2 ^ 24 == 127)
    && not (a / 2 ^ 28 == 14)
    && not (a / 2 ^ 16 == 43518)

-- The two halves of rewriteIPv4TCP that change an address: the header's checksum is updated, and,
-- unless the device does it, that of the segment.
unfoldable pub rewrite_source : Packet → Bool → ℕ → ℕ → Option Packet
rewrite_source p offload old new = if new == old then some p else (do
  header ← set_source_address_with_checksum_update p.header new
  payload ←
      if offload then some p.payload else update_checksum_pseudo_header_address p.payload old new
  some (record p { header = header; payload = payload }))

unfoldable pub rewrite_destination : Packet → Bool → ℕ → ℕ → Option Packet
rewrite_destination p offload old new = if new == old then some p else (do
  header ← set_destination_address_with_checksum_update p.header new
  payload ←
      if offload then some p.payload else update_checksum_pseudo_header_address p.payload old new
  some (record p { header = header; payload = payload }))

-- The ports; `none` is a port that is not rewritten.
unfoldable pub rewrite_ports : List ℕ → Bool → Option ℕ → Option ℕ → Option (List ℕ)
rewrite_ports tcp true new_source new_destination = do
  b1 ← elim new_source [ none ↦ some tcp | some port ↦ set_source_port tcp port ]
  b2 ← elim new_destination [ none ↦ some b1 | some port ↦ set_destination_port b1 port ]
  set_tcp_checksum b2 0
rewrite_ports tcp false new_source new_destination = do
  b1 ← elim new_source [
    | none ↦ some tcp
    | some port ↦ set_source_port_with_checksum_update tcp port
  ]
  elim new_destination [
    | none ↦ some b1
    | some port ↦ set_destination_port_with_checksum_update b1 port
  ]

-- rewriteIPv4TCP; a port that comes with a false flag in the source is `none`.
unfoldable pub rewrite_ipv4_tcp : Packet → Bool → ℕ → Option ℕ → ℕ → Option ℕ → Option Packet
rewrite_ipv4_tcp p offload new_source source_port new_destination destination_port = do
  old_source ← source_addr p.header
  old_destination ← destination_addr p.header
  p1 ← rewrite_source p offload old_source new_source
  p2 ← rewrite_destination p1 offload old_destination new_destination
  tcp ← rewrite_ports p2.payload offload source_port destination_port
  some (record p2 { payload = tcp })

-- systemUDPPacketWriter4 and systemUDPPacketWriter6, without the device.
pub record UdpWriter : Type 0 where
  pub header : List ℕ
  pub source : AddrPort
  pub tx_checksum_offload : Bool

-- A call out of the stack: tun.Write (of the packet behind the head room), handler.NewPacket (its key
-- and the metadata's source are one address), WritePacket of a direct route, and
-- Lookup in the mapping of direct routes, by source and destination.
pub data Effect : Type 0 where
  tun_write : List ℕ → Effect
  new_packet : AddrPort → AddrPort → List ℕ → UdpWriter → Effect
  route_packet : List ℕ → Effect
  direct_lookup : ℕ → ℕ → Effect

pub data SystemError : Type 0 where
  session_not_found fragment_dropped : SystemError

-- What a handler leaves: the state, the packet, and what it returns.
pub record Step : Type 0 where
  pub system : System
  pub packet : Packet
  pub write_back : Bool
  pub error : Option SystemError
  pub effects : List Effect

abbrev pub stay : System → Packet → Step
stay s p = record { system = s; packet = p; write_back = false; error = none; effects = [] }

-- What a handler leaves that first looked a direct route up.
abbrev pub looked_up : ℕ → ℕ → Step → Step
looked_up src dst st = record st { effects = direct_lookup src dst ∷ st.effects }

-- An error takes back the writing.
abbrev pub settle : Step → Step
settle st = elim st.error [ none ↦ st | some e ↦ record st { write_back = false } ]
