-- ===== src/System/Six.antt =====
-- The IPv6 side of stack_system.go: packets, their addresses, and rewriteIPv6TCP.
pub mod Tcp
pub mod Udp
pub mod Icmp
pub mod Process
pub mod Kept
pub mod Rewrite
pub mod Sealed
pub mod Route
pub mod Echo
pub mod Reject
mod Examples
use sing_tun.Base.{
  ℕ, ◌+◌, ◌-◌, ◌*◌, ◌/◌, ◌%◌, ◌^◌, Bool, true, false, not, ◌||◌, ◌&&◌, Option, none, some, List,
  length, ◌==◌, if◌then◌else◌,
}
use sing_tun.Base.Bytes.{◌>>=◌, slice}
use sing_tun.Checksum.Header.{complement, update_address}
use sing_tun.Header.{tcp_checksum, set_tcp_checksum}
use sing_tun.Header.Ipv6.{
  bytes128, payload_length6, source_addr6, destination_addr6, set_source_addr6,
  set_destination_addr6,
}
use sing_tun.System.{Packet, rewrite_ports}

-- The header has 40 bytes; what follows it is the payload, with its extension headers.
unfoldable pub ipv6_packet : List ℕ → Option Packet
ipv6_packet b = do
  len ← payload_length6 b
  header ← slice b 0 40
  payload ← slice b 40 (40 + len)
  trailer ← slice b (40 + len) (length b)
  some (record { header = header; payload = payload; trailer = trailer })

-- Of an IPv4-mapped address, netip.Addr.Unmap; `none` for other addresses.
abbrev unmap : ℕ → Option ℕ
unmap a = if a / 2 ^ 32 == 2 ^ 16 - 1 then some (a % 2 ^ 32) else none

-- netip.Addr.IsGlobalUnicast for IPv6: not unspecified, loopback, multicast or link-local, where
-- IPv4-mapped addresses are taken as IPv4, as they are from Go 1.22.4 on.
abbrev pub is_global_unicast6 : ℕ → Bool
is_global_unicast6 a = elim (unmap a) [
  | none ↦ not (a == 0) && not (a == 1) && not (a / 2 ^ 120 == 255) && not (a / 2 ^ 118 == 1018)
  | some v4 ↦ not (v4 / 2 ^ 24 == 127) && not (v4 / 2 ^ 28 == 14) && not (v4 / 2 ^ 16 == 43518)
]

-- (TCP).UpdateChecksumPseudoHeaderAddress with fullChecksum set.
unfoldable pub update_checksum_pseudo_header_address6 : List ℕ → ℕ → ℕ → Option (List ℕ)
update_checksum_pseudo_header_address6 b old new = do
  old_sum ← tcp_checksum b
  xsum ← update_address (complement old_sum) (bytes128 old) (bytes128 new)
  set_tcp_checksum b (complement xsum)

unfoldable pub rewrite_source6 : Packet → Bool → ℕ → ℕ → Option Packet
rewrite_source6 p offload old new = if new == old then some p else (do
  header ← set_source_addr6 p.header new
  payload ←
      if offload then some p.payload else update_checksum_pseudo_header_address6 p.payload old new
  some (record p { header = header; payload = payload }))

unfoldable pub rewrite_destination6 : Packet → Bool → ℕ → ℕ → Option Packet
rewrite_destination6 p offload old new = if new == old then some p else (do
  header ← set_destination_addr6 p.header new
  payload ←
      if offload then some p.payload else update_checksum_pseudo_header_address6 p.payload old new
  some (record p { header = header; payload = payload }))

-- rewriteIPv6TCP
unfoldable pub rewrite_ipv6_tcp : Packet → Bool → ℕ → Option ℕ → ℕ → Option ℕ → Option Packet
rewrite_ipv6_tcp p offload new_source source_port new_destination destination_port = do
  old_source ← source_addr6 p.header
  old_destination ← destination_addr6 p.header
  p1 ← rewrite_source6 p offload old_source new_source
  p2 ← rewrite_destination6 p1 offload old_destination new_destination
  tcp ← rewrite_ports p2.payload offload source_port destination_port
  some (record p2 { payload = tcp })
