-- ===== src/System/Six/Udp.antt =====
-- processIPv6UDP and systemUDPPacketWriter6 of stack_system.go.
use sing_tun.Base.{
  ℕ, ◌+◌, ◌-◌, ◌%◌, ◌^◌, Bool, true, false, not, Option, some, List, [], ◌∷◌, ◌++◌, length, ◌==◌,
  if◌then◌else◌,
}
use sing_tun.Base.Bytes.{◌>>=◌, slice}
use sing_tun.Base.Net.{AddrPort}
use sing_tun.Checksum.Header.{checksum, complement, pseudo_header_checksum, normalize_udp_checksum}
use sing_tun.Header.{source_port, destination_port, calculate_udp_checksum, set_udp_checksum}
use sing_tun.Header.Ipv6.{
  bytes128, payload_length6, source_addr6, destination_addr6, set_source_addr6,
  set_destination_addr6, set_payload_length6,
}
use sing_tun.System.{System, Packet, bytes, UdpWriter, new_packet, Step, stay}
use sing_tun.System.Udp.{turn_ports}
use sing_tun.System.Six.{ipv6_packet, is_global_unicast6}

-- The copy of the headers is as long as the packet without its payload, and 8 bytes.
unfoldable pub deliver6 : System → Packet → AddrPort → AddrPort → Option Step
deliver6 s p source destination = do
  data_part ← slice p.payload 8 (length p.payload)
  if length data_part == 0 then some (stay s p) else (do
    payload_len ← payload_length6 p.header
    headers ← slice (bytes p) 0 (length (bytes p) - payload_len + 8)
    some (record (stay s p) {
      effects =
          new_packet source destination data_part (record {
            header = headers;
            source = source;
            tx_checksum_offload = s.tx_checksum_offload;
          })
          ∷ [];
    }))

-- Fragments are not looked at.
unfoldable pub process_ipv6_udp : System → Packet → Option Step
process_ipv6_udp s p = do
  src ← source_addr6 p.header
  src_port ← source_port p.payload
  dst ← destination_addr6 p.header
  dst_port ← destination_port p.payload
  if not (is_global_unicast6 dst)
      then some (stay s p)
      else deliver6 s p (record { addr = src; port = src_port })
          (record { addr = dst; port = dst_port })

-- The UDP checksum that WritePacket fills in. `b` is the whole packet, `udp` its payload.
unfoldable pub seal_udp6 : List ℕ → List ℕ → Bool → Option (List ℕ)
seal_udp6 b udp true = set_udp_checksum udp 0
seal_udp6 b udp false = do
  src ← source_addr6 b
  dst ← destination_addr6 b
  len ← payload_length6 b
  header_sum ←
      calculate_udp_checksum udp (pseudo_header_checksum 17 (bytes128 src) (bytes128 dst) len)
  data_part ← slice udp 8 (length udp)
  set_udp_checksum udp (normalize_udp_checksum (complement (checksum false 0 data_part header_sum)))

-- The addresses and the length that WritePacket sets, in the copy of the headers with the data.
unfoldable pub turn_around6 : UdpWriter → List ℕ → AddrPort → Option (List ℕ)
turn_around6 w data_part destination = do
  b1 ← set_payload_length6 (w.header ++ data_part) ((8 + length data_part) % 2 ^ 16)
  src ← source_addr6 b1
  b2 ← set_destination_addr6 b1 src
  set_source_addr6 b2 destination.addr

-- (*systemUDPPacketWriter6).WritePacket: the packet that is written to the device.
unfoldable pub udp_write_packet6 : UdpWriter → List ℕ → AddrPort → Option (List ℕ)
udp_write_packet6 w data_part destination = do
  b ← turn_around6 w data_part destination
  p ← ipv6_packet b
  udp ← turn_ports p.payload (length data_part) destination.port
  udp' ← seal_udp6 b udp w.tx_checksum_offload
  some (p.header ++ (udp' ++ p.trailer))
