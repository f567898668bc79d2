-- ===== src/System/Six/Tcp.antt =====
-- processIPv6TCP and resetIPv6TCP of stack_system.go.
use sing_tun.Base.{
  ℕ, Bool, true, not, ◌&&◌, Option, none, some, List, [], ◌∷◌, ◌++◌, ◌==◌, if◌then◌else◌,
}
use sing_tun.Base.Bytes.{◌>>=◌}
use sing_tun.Base.Net.{AddrPort}
use sing_tun.Checksum.Header.{complement, pseudo_header_checksum}
use sing_tun.Header.{
  source_port, destination_port, TcpFields, encode_tcp, calculate_tcp_checksum, set_tcp_checksum,
}
use sing_tun.Header.Ipv6.{bytes128, source_addr6, destination_addr6, encode_ipv6}
use sing_tun.Nat.{TcpNat, lookup, lookup_back}
use sing_tun.System.{System, Packet, Step, stay, session_not_found, tun_write}
use sing_tun.System.Tcp.{reset_fields, is_loopback}
use sing_tun.System.Six.{is_global_unicast6, rewrite_ipv6_tcp}

-- The segment that resetIPv6TCP builds.
unfoldable pub reset_segment6 : Bool → TcpFields → ℕ → ℕ → Option (List ℕ)
reset_segment6 offload fields src dst = do
  let tcp = encode_tcp fields
  sum ← calculate_tcp_checksum tcp (pseudo_header_checksum 6 (bytes128 src) (bytes128 dst) 20)
  if offload then some tcp else set_tcp_checksum tcp (complement sum)

-- The packet that resetIPv6TCP writes to the device.
unfoldable pub reset_packet6 : Packet → Bool → Option (List ℕ)
reset_packet6 p offload = do
  dst ← source_addr6 p.header
  src ← destination_addr6 p.header
  fields ← reset_fields p.payload
  tcp ← reset_segment6 offload fields src dst
  some (encode_ipv6 20 6 src dst ++ tcp)

-- The three ways of processIPv6TCP: from the listener, to a loopback address, and from a client.
unfoldable pub reply6 : System → TcpNat → ℕ → Packet → ℕ → Option Step
reply6 s nat now p port = elim (lookup_back nat port now).1 [
  | none ↦ some (record (stay (record s { tcp_nat6 = some (lookup_back nat port now).0 }) p) {
    error = some session_not_found;
  })
  | some session ↦ do
    p' ←
        rewrite_ipv6_tcp p s.tx_checksum_offload session.destination.addr
          (some session.destination.port) session.source.addr (some session.source.port)
    some (record (stay (record s { tcp_nat6 = some (lookup_back nat port now).0 }) p') {
      write_back = true;
    })
]

unfoldable pub loop_back6 : System → Packet → ℕ → ℕ → Option Step
loop_back6 s p src dst = do
  p' ← rewrite_ipv6_tcp p s.tx_checksum_offload dst none src none
  some (record (stay s p') { write_back = true })

unfoldable pub forward6 : System → TcpNat → ℕ → Packet → AddrPort → AddrPort → Option Step
forward6 s nat now p source destination =
    let found = lookup nat (record { source = source; destination = destination }) now in
    let s' = record s { tcp_nat6 = some found.0 } in
    elim found.1 [
      | none ↦ do
        reset ← reset_packet6 p s.tx_checksum_offload
        some (record (stay s' p) { effects = tun_write reset ∷ [] })
      | some port ↦ do
        p' ←
            rewrite_ipv6_tcp p s.tx_checksum_offload s.inet6_next_address (some port)
              s.inet6_address (some s.tcp_port6)
        some (record (stay s' p') { write_back = true })
    ]

-- processIPv6TCP behind its first test.
unfoldable pub route_tcp6 : System → ℕ → Packet → TcpNat → Option Step
route_tcp6 s now p nat = do
  src ← source_addr6 p.header
  src_port ← source_port p.payload
  dst ← destination_addr6 p.header
  dst_port ← destination_port p.payload
  if not (is_global_unicast6 dst)
      then some (stay s p)
      else if src == s.inet6_address && src_port == s.tcp_port6
      then reply6 s nat now p dst_port
      else if is_loopback s.inet6_loopback_address dst
      then loop_back6 s p src dst
      else forward6 s nat now p (record { addr = src; port = src_port })
          (record { addr = dst; port = dst_port })

unfoldable pub process_ipv6_tcp : System → ℕ → Packet → Option Step
process_ipv6_tcp s now p = elim s.tcp_nat6 [
  | none ↦ some (stay s p)
  | some nat ↦ route_tcp6 s now p nat
]
