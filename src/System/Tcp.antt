-- ===== src/System/Tcp.antt =====
-- processIPv4TCP and resetIPv4TCP of stack_system.go.
use sing_tun.Base.{
  ℕ, ◌+◌, ◌*◌, ◌/◌, ◌%◌, ◌^◌, Bool, true, false, not, ◌||◌, ◌&&◌, Option, none, some, List, [], ◌∷◌,
  ◌++◌, length, ◌==◌, if◌then◌else◌,
}
use sing_tun.Base.Bytes.{◌>>=◌, slice, bytes32, get8, get32}
use sing_tun.Base.Net.{AddrPort}
use sing_tun.Checksum.Header.{complement, pseudo_header_checksum}
use sing_tun.Header.{
  source_addr, destination_addr, source_port, destination_port, TcpFields, encode_tcp, encode_ipv4,
  calculate_tcp_checksum, calculate_ip_checksum, set_tcp_checksum, set_ip_checksum,
}
use sing_tun.Nat.{TcpNat, lookup, lookup_back}
use sing_tun.System.{
  System, Packet, is_global_unicast, rewrite_ipv4_tcp, Step, stay, session_not_found, tun_write,
}

abbrev pub bit : ℕ → ℕ → ℕ
bit flags weight = flags / weight % 2

-- The fields of the reset (RFC 9293, 3.5.2).
unfoldable pub reset_fields : List ℕ → Option TcpFields
reset_fields tcp = do
  src_port ← source_port tcp
  dst_port ← destination_port tcp
  flags ← get8 tcp 13
  if bit flags 16 == 1
      then (do
        ack ← get32 tcp 8
        some (record {
          src_port = dst_port;
          dst_port = src_port;
          seq_num = ack;
          ack_num = 0;
          flags = 4;
        }))
      else (do
        seq ← get32 tcp 4
        offset ← get8 tcp 12
        data_part ← slice tcp (offset / 16 * 4) (length tcp)
        let ack = seq + length data_part + bit flags 2 + bit flags 1
        some (record {
          src_port = dst_port;
          dst_port = src_port;
          seq_num = 0;
          ack_num = ack % 2 ^ 32;
          flags = 20;
        }))

-- The segment that resetIPv4TCP builds.
unfoldable pub reset_segment : Bool → TcpFields → ℕ → ℕ → Option (List ℕ)
reset_segment offload fields src dst = do
  let tcp = encode_tcp fields
  sum ← calculate_tcp_checksum tcp (pseudo_header_checksum 6 (bytes32 src) (bytes32 dst) 20)
  if offload then some tcp else set_tcp_checksum tcp (complement sum)

-- The packet that resetIPv4TCP writes to the device.
unfoldable pub reset_packet : Packet → Bool → Option (List ℕ)
reset_packet p offload = do
  dst ← source_addr p.header
  src ← destination_addr p.header
  fields ← reset_fields p.payload
  tcp ← reset_segment offload fields src dst
  let ip = encode_ipv4 40 6 src dst
  ip_sum ← calculate_ip_checksum ip
  ip' ← set_ip_checksum ip (complement ip_sum)
  some (ip' ++ tcp)

-- The loop over inet4LoopbackAddress finds the address or not.
abbrev pub is_loopback : List ℕ → ℕ → Bool
is_loopback [] a = false
is_loopback (x ∷ xs) a = a == x || is_loopback xs a

-- A packet from the listener: back to the flow of its port.
unfoldable pub reply : System → TcpNat → ℕ → Packet → ℕ → Option Step
reply s nat now p port = elim (lookup_back nat port now).1 [
  | none ↦ some (record (stay (record s { tcp_nat4 = some (lookup_back nat port now).0 }) p) {
    error = some session_not_found;
  })
  | some session ↦ do
    p' ←
        rewrite_ipv4_tcp p s.tx_checksum_offload session.destination.addr
          (some session.destination.port) session.source.addr (some session.source.port)
    some (record (stay (record s { tcp_nat4 = some (lookup_back nat port now).0 }) p') {
      write_back = true;
    })
]

-- A packet to a loopback address: it goes back to its source.
unfoldable pub loop_back : System → Packet → ℕ → ℕ → Option Step
loop_back s p src dst = do
  p' ← rewrite_ipv4_tcp p s.tx_checksum_offload dst none src none
  some (record (stay s p') { write_back = true })

-- A packet of a client: to the listener, from the port that stands for its flow.
unfoldable pub forward : System → TcpNat → ℕ → Packet → AddrPort → AddrPort → Option Step
forward s nat now p source destination =
    let found = lookup nat (record { source = source; destination = destination }) now in
    let s' = record s { tcp_nat4 = some found.0 } in
    elim found.1 [
      | none ↦ do
        reset ← reset_packet p s.tx_checksum_offload
        some (record (stay s' p) { effects = tun_write reset ∷ [] })
      | some port ↦ do
        p' ←
            rewrite_ipv4_tcp p s.tx_checksum_offload s.inet4_next_address (some port)
              s.inet4_address (some s.tcp_port)
        some (record (stay s' p') { write_back = true })
    ]

-- processIPv4TCP behind its first test.
unfoldable pub route_tcp : System → ℕ → Packet → TcpNat → Option Step
route_tcp s now p nat = do
  src ← source_addr p.header
  src_port ← source_port p.payload
  dst ← destination_addr p.header
  dst_port ← destination_port p.payload
  if not (is_global_unicast dst)
      then some (stay s p)
      else if src == s.inet4_address && src_port == s.tcp_port
      then reply s nat now p dst_port
      else if is_loopback s.inet4_loopback_address dst
      then loop_back s p src dst
      else forward s nat now p (record { addr = src; port = src_port })
          (record { addr = dst; port = dst_port })

unfoldable pub process_ipv4_tcp : System → ℕ → Packet → Option Step
process_ipv4_tcp s now p = elim s.tcp_nat4 [
  | none ↦ some (stay s p)
  | some nat ↦ route_tcp s now p nat
]
