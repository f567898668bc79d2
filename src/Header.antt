-- ===== src/Header.antt =====
-- The fields of IPv4, TCP, UDP and ICMPv4 headers (internal/gtcpip/header) that the system stack and
-- the ping rewriters read and write. A header is the bytes of its slice; `none` is a panic.
pub mod Fields
pub mod Update
pub mod Seal
pub mod Parts
pub mod Ipv6
pub mod Address6
use sing_tun.Base.{
  ℕ, ◌+◌, ◌-◌, ◌*◌, ◌/◌, ◌%◌, ◌^◌, Bool, true, false, not, ◌||◌, Option, none, some, List, [], ◌∷◌,
  ◌++◌, length, ltb, ◌==◌, if◌then◌else◌,
}
use sing_tun.Base.Bytes.{◌>>=◌, put, slice, bytes16, bytes32, get8, get16, get32}
use sing_tun.Checksum.Header.{checksum, complement, update_uint16, update_address}

-- IPVersion; `none` stands for -1.
unfoldable pub ip_version : List ℕ → Option ℕ
ip_version [] = none
ip_version (x ∷ b) = some (x / 16)

unfoldable pub header_length : List ℕ → Option ℕ
header_length b = do first ← get8 b 0; some (first % 16 * 4)

unfoldable pub total_length : List ℕ → Option ℕ
total_length b = get16 b 2

-- A difference of two uint16.
unfoldable pub payload_length : List ℕ → Option ℕ
payload_length b = do
  total ← total_length b
  header ← header_length b
  some ((total + 2 ^ 16 - header) % 2 ^ 16)

-- (IPv4).IsValid
unfoldable pub ipv4_is_valid : List ℕ → ℕ → Option Bool
ipv4_is_valid b size = if ltb (length b) 20 then some false else (do
  hlen ← header_length b
  tlen ← total_length b
  if ltb hlen 20 || ltb tlen hlen || ltb size tlen
      then some false
      else (do first ← get8 b 0; some (first / 16 == 4)))

unfoldable pub transport_protocol : List ℕ → Option ℕ
transport_protocol b = get8 b 9

unfoldable pub ip_flags : List ℕ → Option ℕ
ip_flags b = do v ← get16 b 6; some (v / 2 ^ 13 % 256)

unfoldable pub fragment_offset : List ℕ → Option ℕ
fragment_offset b = do v ← get16 b 6; some (v * 8 % 2 ^ 16)

-- An IPv4 address is its 32 bits.
unfoldable pub source_addr : List ℕ → Option ℕ
source_addr b = get32 b 12

unfoldable pub destination_addr : List ℕ → Option ℕ
destination_addr b = get32 b 16

unfoldable pub set_source_addr : List ℕ → ℕ → Option (List ℕ)
set_source_addr b addr = put b 12 (bytes32 addr)

unfoldable pub set_destination_addr : List ℕ → ℕ → Option (List ℕ)
set_destination_addr b addr = put b 16 (bytes32 addr)

unfoldable pub set_ip_checksum : List ℕ → ℕ → Option (List ℕ)
set_ip_checksum b v = put b 10 (bytes16 v)

unfoldable pub set_total_length : List ℕ → ℕ → Option (List ℕ)
set_total_length b v = put b 2 (bytes16 v)

-- The checksum of the header, its own checksum field left out.
unfoldable pub calculate_ip_checksum : List ℕ → Option ℕ
calculate_ip_checksum b = do
  front ← slice b 0 10
  header ← header_length b
  back ← slice b 12 header
  some (checksum false 0 back (checksum false 0 front 0))

unfoldable pub set_source_address_with_checksum_update : List ℕ → ℕ → Option (List ℕ)
set_source_address_with_checksum_update b new = do
  old_sum ← get16 b 10
  old ← source_addr b
  xsum ← update_address (complement old_sum) (bytes32 old) (bytes32 new)
  b1 ← set_ip_checksum b (complement xsum)
  set_source_addr b1 new

unfoldable pub set_destination_address_with_checksum_update : List ℕ → ℕ → Option (List ℕ)
set_destination_address_with_checksum_update b new = do
  old_sum ← get16 b 10
  old ← destination_addr b
  xsum ← update_address (complement old_sum) (bytes32 old) (bytes32 new)
  b1 ← set_ip_checksum b (complement xsum)
  set_destination_addr b1 new

-- Source and destination port of TCP and of UDP.
unfoldable pub source_port : List ℕ → Option ℕ
source_port b = get16 b 0

unfoldable pub destination_port : List ℕ → Option ℕ
destination_port b = get16 b 2

unfoldable pub set_source_port : List ℕ → ℕ → Option (List ℕ)
set_source_port b port = put b 0 (bytes16 port)

unfoldable pub set_destination_port : List ℕ → ℕ → Option (List ℕ)
set_destination_port b port = put b 2 (bytes16 port)

unfoldable pub tcp_checksum : List ℕ → Option ℕ
tcp_checksum b = get16 b 16

unfoldable pub set_tcp_checksum : List ℕ → ℕ → Option (List ℕ)
set_tcp_checksum b v = put b 16 (bytes16 v)

-- (TCP).UpdateChecksumPseudoHeaderAddress with fullChecksum set.
unfoldable pub update_checksum_pseudo_header_address : List ℕ → ℕ → ℕ → Option (List ℕ)
update_checksum_pseudo_header_address b old new = do
  old_sum ← tcp_checksum b
  xsum ← update_address (complement old_sum) (bytes32 old) (bytes32 new)
  set_tcp_checksum b (complement xsum)

unfoldable pub set_source_port_with_checksum_update : List ℕ → ℕ → Option (List ℕ)
set_source_port_with_checksum_update b new = do
  old ← source_port b
  b1 ← set_source_port b new
  old_sum ← tcp_checksum b1
  set_tcp_checksum b1 (complement (update_uint16 (complement old_sum) old new))

unfoldable pub set_destination_port_with_checksum_update : List ℕ → ℕ → Option (List ℕ)
set_destination_port_with_checksum_update b new = do
  old ← destination_port b
  b1 ← set_destination_port b new
  old_sum ← tcp_checksum b1
  set_tcp_checksum b1 (complement (update_uint16 (complement old_sum) old new))

-- (TCP).CalculateChecksum: the header without its checksum field.
unfoldable pub calculate_tcp_checksum : List ℕ → ℕ → Option ℕ
calculate_tcp_checksum b partial = do
  front ← slice b 0 16
  offset ← get8 b 12
  back ← slice b 18 (offset / 16 * 4)
  some (checksum false 0 back (checksum false 0 front partial))

-- (IPv4).Encode: without options it writes all of the 20 bytes.
abbrev pub encode_ipv4 : ℕ → ℕ → ℕ → ℕ → List ℕ
encode_ipv4 total protocol src dst =
    69 ∷ 0 ∷ total / 256 % 256 ∷ total % 256 ∷ 0 ∷ 0 ∷ 0 ∷ 0 ∷ 0 ∷ protocol ∷ 0 ∷ 0 ∷ bytes32 src
    ++ bytes32 dst

pub record TcpFields : Type 0 where
  pub src_port : ℕ
  pub dst_port : ℕ
  pub seq_num : ℕ
  pub ack_num : ℕ
  pub flags : ℕ

-- (TCP).Encode with a data offset of 20 bytes and without window, checksum and urgent pointer.
abbrev pub encode_tcp : TcpFields → List ℕ
encode_tcp f =
    bytes16 f.src_port
    ++ (bytes16 f.dst_port
        ++ (bytes32 f.seq_num
            ++ (bytes32 f.ack_num ++ (80 ∷ f.flags ∷ 0 ∷ 0 ∷ 0 ∷ 0 ∷ 0 ∷ 0 ∷ []))))

-- (UDP).CalculateChecksum: the header without its checksum field.
unfoldable pub calculate_udp_checksum : List ℕ → ℕ → Option ℕ
calculate_udp_checksum b partial = do
  front ← slice b 0 6
  back ← slice b 8 8
  some (checksum false 0 back (checksum false 0 front partial))

-- (UDP).SetLength and (UDP).SetChecksum
unfoldable pub set_udp_length : List ℕ → ℕ → Option (List ℕ)
set_udp_length b v = put b 4 (bytes16 v)

unfoldable pub set_udp_checksum : List ℕ → ℕ → Option (List ℕ)
set_udp_checksum b v = put b 6 (bytes16 v)

-- ICMPv4Checksum of a message, with the checksum of a payload that is not part of `h`.
unfoldable pub icmpv4_checksum : List ℕ → ℕ → Option ℕ
icmpv4_checksum h payload_sum = do
  front ← slice h 0 2
  back ← slice h 4 (length h)
  some (complement (checksum false 0 back (checksum false 0 front payload_sum)))

unfoldable pub set_icmp_checksum : List ℕ → ℕ → Option (List ℕ)
set_icmp_checksum b v = put b 2 (bytes16 v)
