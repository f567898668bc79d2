-- ===== src/System/Six/Icmp.antt =====
-- processIPv6ICMP and rejectIPv6WithICMP of stack_system.go.
use sing_tun.Base.{
  ℕ, ◌+◌, ◌-◌, true, false, not, Option, none, some, List, [], ◌∷◌, ◌++◌, length, take, ltb, ◌==◌,
  if◌then◌else◌,
}
use sing_tun.Base.Bytes.{◌>>=◌, put, get8}
use sing_tun.Checksum.Header.{checksum}
use sing_tun.Header.{set_icmp_checksum}
use sing_tun.Header.Ipv6.{
  bytes128, source_addr6, destination_addr6, set_source_addr6, set_destination_addr6, encode_ipv6,
  icmpv6_checksum,
}
use sing_tun.System.{System, Packet, bytes, Step, stay, looked_up, tun_write, route_packet}
use sing_tun.System.Icmp.{Direct, direct_reset, direct_drop, direct_route, direct_none}

-- The ICMPv6 message of rejectIPv6WithICMP; `stale` is what the pool's buffer holds at the four bytes
-- that the code does not write.
unfoldable pub unreachable6 : ℕ → ℕ → ℕ → List ℕ → List ℕ → Option (List ℕ)
unreachable6 src dst code stale quoted = do
  let head = 1 ∷ code ∷ 0 ∷ 0 ∷ stale
  csum ←
      icmpv6_checksum head (bytes128 src) (bytes128 dst) (checksum false 0 quoted 0) (length quoted)
  head' ← set_icmp_checksum head csum
  some (head' ++ quoted)

-- rejectIPv6WithICMP: `none` inside when there is no room to quote the packet's header. The source's
-- `available` is a signed number, mtu - 8.
unfoldable pub reject_ipv6 : System → Packet → ℕ → List ℕ → Option (Option (List ℕ))
reject_ipv6 s p code stale =
    let mtu = if ltb 1240 s.mtu then 1240 else s.mtu in
    if ltb mtu (40 + 8) then some none else (do
      let quoted = if ltb (mtu - 8) (length (bytes p)) then take (mtu - 8) (bytes p) else bytes p
      dst ← source_addr6 p.header
      src ← destination_addr6 p.header
      icmp ← unreachable6 src dst code stale quoted
      some (some (encode_ipv6 (8 + length quoted) 58 src dst ++ icmp)))

-- The reply to an echo request: in place, with the addresses swapped.
unfoldable pub echo_reply6 : Packet → Option Packet
echo_reply6 p = do
  icmp ← put p.payload 0 (129 ∷ [])
  src ← source_addr6 p.header
  dst ← destination_addr6 p.header
  h1 ← set_source_addr6 p.header dst
  h2 ← set_destination_addr6 h1 src
  csum ← icmpv6_checksum icmp (bytes128 dst) (bytes128 src) 0 0
  icmp' ← set_icmp_checksum icmp csum
  some (record p { header = h2; payload = icmp' })

-- The code is ICMPv6AddressUnreachable.
unfoldable pub rejected6 : System → Packet → List ℕ → Option Step
rejected6 s p stale = do
  message ← reject_ipv6 s p 3 stale
  some (record (stay s p) { effects = elim message [ none ↦ [] | some b ↦ tun_write b ∷ [] ] })

unfoldable pub replied6 : System → Packet → Option Step
replied6 s p = do p' ← echo_reply6 p; some (record (stay s p') { write_back = true })

unfoldable pub directed6 : System → Packet → List ℕ → Direct → Option Step
directed6 s p stale direct_reset = rejected6 s p stale
directed6 s p stale direct_drop = some (stay s p)
directed6 s p stale direct_route =
    some (record (stay s p) { effects = route_packet (bytes p) ∷ [] })
directed6 s p stale direct_none = replied6 s p

-- Only echo requests are answered; `direct` is what directNat.Lookup answers, its call an effect.
unfoldable pub process_ipv6_icmp : System → (ℕ → ℕ → Direct) → List ℕ → Packet → Option Step
process_ipv6_icmp s direct stale p = do
  kind ← get8 p.payload 0
  if not (kind == 128) then some (stay s p) else (do
    code ← get8 p.payload 1
    if not (code == 0) then some (stay s p) else (do
      src ← source_addr6 p.header
      dst ← destination_addr6 p.header
      if dst == s.inet6_address
          then replied6 s p
          else (do st ← directed6 s p stale (direct src dst); some (looked_up src dst st))))
