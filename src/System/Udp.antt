-- ===== src/System/Udp.antt =====
-- processIPv4UDP and systemUDPPacketWriter4 of stack_system.go.
use sing_tun.Base.{
  ℕ, ◌+◌, ◌%◌, Bool, true, false, not, Option, some, List, [], ◌∷◌, ◌++◌, length, ◌==◌,
  if◌then◌else◌,
}
use sing_tun.Base.Bytes.{◌>>=◌, slice, bytes32}
use sing_tun.Base.Net.{AddrPort}
use sing_tun.Checksum.Header.{checksum, complement, pseudo_header_checksum, normalize_udp_checksum}
use sing_tun.Header.{
  header_length, payload_length, ip_flags, fragment_offset, source_addr, destination_addr,
  set_source_addr, set_destination_addr, set_total_length, calculate_ip_checksum, set_ip_checksum,
  source_port, destination_port, set_source_port, set_destination_port, calculate_udp_checksum,
  set_udp_length, set_udp_checksum,
}
use sing_tun.System.{
  System, Packet, ipv4_packet, bytes, is_global_unicast, UdpWriter, new_packet, Step, stay,
  fragment_dropped,
}

-- The end of processIPv4UDP: data goes to the handler with a writer for its replies, which has a copy
-- of the headers.
unfoldable pub deliver : System → Packet → AddrPort → AddrPort → Option Step
deliver s p source destination = do
  data_part ← slice p.payload 8 (length p.payload)
  if length data_part == 0 then some (stay s p) else (do
    hlen ← header_length p.header
    headers ← slice (bytes p) 0 (hlen + 8)
    some (record (stay s p) {
      effects =
          new_packet source destination data_part (record {
            header = headers;
            source = source;
            tx_checksum_offload = s.tx_checksum_offload;
          })
          ∷ [];
    }))

-- The flag for more fragments is the lowest of the three.
unfoldable pub process_ipv4_udp : System → Packet → Option Step
process_ipv4_udp s p = do
  flags ← ip_flags p.header
  if not (flags % 2 == 0) then some (record (stay s p) { error = some fragment_dropped }) else (do
    offset ← fragment_offset p.header
    if not (offset == 0) then some (record (stay s p) { error = some fragment_dropped }) else (do
      src ← source_addr p.header
      src_port ← source_port p.payload
      dst ← destination_addr p.header
      dst_port ← destination_port p.payload
      if not (is_global_unicast dst)
          then some (stay s p)
          else deliver s p (record { addr = src; port = src_port })
              (record { addr = dst; port = dst_port })))

-- The UDP checksum that WritePacket fills in. `b` is the whole packet, `udp` its payload.
unfoldable pub seal_udp : List ℕ → List ℕ → Bool → Option (List ℕ)
seal_udp b udp true = set_udp_checksum udp 0
seal_udp b udp false = do
  src ← source_addr b
  dst ← destination_addr b
  len ← payload_length b
  header_sum ←
      calculate_udp_checksum udp (pseudo_header_checksum 17 (bytes32 src) (bytes32 dst) len)
  data_part ← slice udp 8 (length udp)
  set_udp_checksum udp (normalize_udp_checksum (complement (checksum false 0 data_part header_sum)))

-- The addresses and the length that WritePacket sets, in the copy of the headers with the data.
unfoldable pub turn_around : UdpWriter → List ℕ → AddrPort → Option (List ℕ)
turn_around w data_part destination = do
  let b = w.header ++ data_part
  b1 ← set_total_length b (length b)
  src ← source_addr b1
  b2 ← set_destination_addr b1 src
  set_source_addr b2 destination.addr

unfoldable pub turn_ports : List ℕ → ℕ → ℕ → Option (List ℕ)
turn_ports udp data_len new_source = do
  port ← source_port udp
  udp1 ← set_destination_port udp port
  udp2 ← set_source_port udp1 new_source
  set_udp_length udp2 (data_len + 8)

-- (*systemUDPPacketWriter4).WritePacket: the packet that is written to the device.
unfoldable pub udp_write_packet : UdpWriter → List ℕ → AddrPort → Option (List ℕ)
udp_write_packet w data_part destination = do
  b ← turn_around w data_part destination
  p ← ipv4_packet b
  udp ← turn_ports p.payload (length data_part) destination.port
  udp' ← seal_udp b udp w.tx_checksum_offload
  sum ← calculate_ip_checksum p.header
  header ← set_ip_checksum p.header (complement sum)
  some (header ++ (udp' ++ p.trailer))
