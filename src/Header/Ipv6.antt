-- ===== src/Header/Ipv6.antt =====
-- The fields of IPv6 headers (ipv6.go and netip.go of internal/gtcpip/header), and the checksum of
-- ICMPv6 (icmpv6.go). An address is its 128 bits.
use sing_tun.Base.{
  ℕ, ◌+◌, ◌/◌, ◌%◌, ◌^◌, Bool, false, Option, none, some, List, ◌∷◌, ◌++◌, length, ltb, ◌==◌,
  if◌then◌else◌,
}
use sing_tun.Base.Bytes.{◌>>=◌, put, slice, bytes16, bytes32, number, get8, get16}
use sing_tun.Checksum.Header.{checksum, combine, complement, pseudo_header_checksum}
use sing_tun.Header.{ip_version}

abbrev pub bytes128 : ℕ → List ℕ
bytes128 a = bytes32 (a / 2 ^ 96) ++ (bytes32 (a / 2 ^ 64) ++ (bytes32 (a / 2 ^ 32) ++ bytes32 a))

unfoldable pub get128 : List ℕ → ℕ → Option ℕ
get128 b off = do part ← slice b off (off + 16); some (number 0 part)

unfoldable pub payload_length6 : List ℕ → Option ℕ
payload_length6 b = get16 b 4

-- (IPv6).IsValid
unfoldable pub ipv6_is_valid : List ℕ → ℕ → Option Bool
ipv6_is_valid b size = if ltb (length b) 40 then some false else (do
  dlen ← payload_length6 b
  if ltb size (dlen + 40)
      then some false
      else some (elim (ip_version b) [ none ↦ false | some version ↦ version == 6 ]))

unfoldable pub transport_protocol6 : List ℕ → Option ℕ
transport_protocol6 b = get8 b 6

unfoldable pub source_addr6 : List ℕ → Option ℕ
source_addr6 b = get128 b 8

unfoldable pub destination_addr6 : List ℕ → Option ℕ
destination_addr6 b = get128 b 24

unfoldable pub set_source_addr6 : List ℕ → ℕ → Option (List ℕ)
set_source_addr6 b addr = put b 8 (bytes128 addr)

unfoldable pub set_destination_addr6 : List ℕ → ℕ → Option (List ℕ)
set_destination_addr6 b addr = put b 24 (bytes128 addr)

unfoldable pub set_payload_length6 : List ℕ → ℕ → Option (List ℕ)
set_payload_length6 b v = put b 4 (bytes16 v)

-- (IPv6).Encode without extension headers, traffic class, flow label and hop limit.
abbrev pub encode_ipv6 : ℕ → ℕ → ℕ → ℕ → List ℕ
encode_ipv6 payload_len protocol src dst =
    96 ∷ 0 ∷ 0 ∷ 0 ∷ payload_len / 256 % 256 ∷ payload_len % 256 ∷ protocol ∷ 0 ∷ bytes128 src
    ++ bytes128 dst

-- ICMPv6Checksum of `h` with a payload behind it, of which the checksum and the length are given.
unfoldable pub icmpv6_checksum : List ℕ → List ℕ → List ℕ → ℕ → ℕ → Option ℕ
icmpv6_checksum h src dst payload_csum payload_len = do
  let pseudo = pseudo_header_checksum 58 src dst ((length h + payload_len) % 2 ^ 16)
  let sum = combine pseudo payload_csum
  front ← slice h 0 2
  back ← slice h 4 (length h)
  some (complement (checksum false 0 back (checksum false 0 front sum)))
