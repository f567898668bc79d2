-- ===== src/System/Icmp.antt =====
-- processIPv4ICMP and rejectIPv4WithICMP of stack_system.go.
use sing_tun.Base.{
  ℕ, ◌+◌, ◌-◌, true, false, not, Option, none, some, List, [], ◌∷◌, ◌++◌, length, take, ltb, ◌==◌,
  if◌then◌else◌,
}
use sing_tun.Base.Bytes.{◌>>=◌, put, get8}
use sing_tun.Checksum.Header.{checksum, complement}
use sing_tun.Header.{
  source_addr, destination_addr, set_source_addr, set_destination_addr, encode_ipv4,
  calculate_ip_checksum, set_ip_checksum, icmpv4_checksum, set_icmp_checksum,
}
use sing_tun.System.{System, Packet, bytes, Step, stay, looked_up, tun_write, route_packet}

-- What the mapping of direct routes has for a source and a destination: ErrReset, ErrDrop, a route,
-- or none of them.
pub data Direct : Type 0 where
  direct_reset direct_drop direct_route direct_none : Direct

-- The ICMP message of rejectIPv4WithICMP: the data of the packet behind 8 bytes. `stale` is what the
-- pool's buffer holds at the four bytes that the code does not write.
unfoldable pub unreachable : List ℕ → ℕ → List ℕ → List ℕ → Option (List ℕ)
unreachable ip_payload code stale quoted = do
  let head = 3 ∷ code ∷ 0 ∷ 0 ∷ stale
  csum ← icmpv4_checksum head (checksum false 0 ip_payload 0)
  head' ← set_icmp_checksum head csum
  some (head' ++ quoted)

-- rejectIPv4WithICMP: `none` inside when the packet is too long to be quoted. The source's
-- `available` is a signed number, mtu - 8.
unfoldable pub reject_ipv4 : System → Packet → ℕ → List ℕ → Option (Option (List ℕ))
reject_ipv4 s p code stale =
    let mtu = if ltb 556 s.mtu then 556 else s.mtu in
    if ltb mtu (length (bytes p) + 8 + 8) then some none else (do
      let quoted = if ltb (mtu - 8) (length (bytes p)) then take (mtu - 8) (bytes p) else bytes p
      dst ← source_addr p.header
      src ← destination_addr p.header
      let ip = encode_ipv4 (28 + length quoted) 1 src dst
      sum ← calculate_ip_checksum ip
      ip' ← set_ip_checksum ip (complement sum)
      icmp ← unreachable p.payload code stale quoted
      some (some (ip' ++ icmp)))

-- The reply to an echo request: in place, with the addresses swapped.
unfoldable pub echo_reply : Packet → Option Packet
echo_reply p = do
  icmp ← put p.payload 0 (0 ∷ [])
  src ← source_addr p.header
  dst ← destination_addr p.header
  h1 ← set_source_addr p.header dst
  h2 ← set_destination_addr h1 src
  csum ← icmpv4_checksum icmp 0
  icmp' ← set_icmp_checksum icmp csum
  sum ← calculate_ip_checksum h2
  h3 ← set_ip_checksum h2 (complement sum)
  some (record p { header = h3; payload = icmp' })

-- The code is ICMPv4HostUnreachable.
unfoldable pub rejected : System → Packet → List ℕ → Option Step
rejected s p stale = do
  message ← reject_ipv4 s p 1 stale
  some (record (stay s p) { effects = elim message [ none ↦ [] | some b ↦ tun_write b ∷ [] ] })

unfoldable pub replied : System → Packet → Option Step
replied s p = do p' ← echo_reply p; some (record (stay s p') { write_back = true })

unfoldable pub directed : System → Packet → List ℕ → Direct → Option Step
directed s p stale direct_reset = rejected s p stale
directed s p stale direct_drop = some (stay s p)
directed s p stale direct_route = some (record (stay s p) { effects = route_packet (bytes p) ∷ [] })
directed s p stale direct_none = replied s p

-- Only echo requests are answered; `direct` is what directNat.Lookup answers, its call an effect.
unfoldable pub process_ipv4_icmp : System → (ℕ → ℕ → Direct) → List ℕ → Packet → Option Step
process_ipv4_icmp s direct stale p = do
  kind ← get8 p.payload 0
  if not (kind == 8) then some (stay s p) else (do
    code ← get8 p.payload 1
    if not (code == 0) then some (stay s p) else (do
      src ← source_addr p.header
      dst ← destination_addr p.header
      if dst == s.inet4_address
          then replied s p
          else (do st ← directed s p stale (direct src dst); some (looked_up src dst st))))
