-- ===== src/System/Process.antt =====
-- processIPv4 and processPacket of stack_system.go.
use sing_tun.Base.{
  ℕ, Bool, true, false, not, ◌||◌, Option, none, some, List, [], length, ◌==◌, if◌then◌else◌,
}
use sing_tun.Base.Bytes.{◌>>=◌}
use sing_tun.Header.{ip_version, ipv4_is_valid, transport_protocol, destination_addr}
use sing_tun.System.{
  System, Packet, ipv4_packet, bytes, is_global_unicast, Effect, Step, stay, settle,
}
use sing_tun.Header.Ipv6.{ipv6_is_valid}
use sing_tun.System.Six.{ipv6_packet}
use sing_tun.System.Six.Process.{process_ipv6}
use sing_tun.System.Tcp.{process_ipv4_tcp}
use sing_tun.System.Udp.{process_ipv4_udp}
use sing_tun.System.Icmp.{Direct, process_ipv4_icmp}

-- The zero netip.Addr is no address.
abbrev pub is_broadcast : Option ℕ → ℕ → Bool
is_broadcast none a = false
is_broadcast (some b) a = a == b

-- The switch over the transport protocol; what is not TCP, UDP or ICMP is written back as it is.
unfoldable pub process_transport : System → ℕ → (ℕ → ℕ → Direct) → List ℕ → Packet → ℕ → Option Step
process_transport s now direct stale p protocol =
    if protocol == 6
    then process_ipv4_tcp s now p
    else if protocol == 17
    then process_ipv4_udp s p
    else if protocol == 1
    then process_ipv4_icmp s direct stale p
    else some (record (stay s p) { write_back = true })

unfoldable pub process_ipv4 : System → ℕ → (ℕ → ℕ → Direct) → List ℕ → Packet → Option Step
process_ipv4 s now direct stale p = do
  destination ← destination_addr p.header
  if is_broadcast s.broadcast_addr destination || not (is_global_unicast destination)
      then some (stay s p)
      else (do
        protocol ← transport_protocol p.header
        st ← process_transport s now direct stale p protocol
        some (settle st))

-- What processPacket leaves: the stack, the buffer, whether it is written back, and the calls.
pub record Processed : Type 0 where
  pub system : System
  pub buffer : List ℕ
  pub write_back : Bool
  pub effects : List Effect

abbrev pub ignored : System → List ℕ → Processed
ignored s b = record { system = s; buffer = b; write_back = false; effects = [] }

-- What a handler of one version leaves, as processPacket returns it.
abbrev pub finished : Step → Processed
finished st = record {
  system = st.system;
  buffer = bytes st.packet;
  write_back = st.write_back;
  effects = st.effects;
}

-- A packet of a version other than 4 and 6 is an error, and so is one that is not valid. `direct4` and
-- `direct6` are directNat.Lookup.
unfoldable pub process_packet :
    System → ℕ → (ℕ → ℕ → Direct) → (ℕ → ℕ → Direct) → List ℕ → List ℕ → Option Processed
process_packet s now direct4 direct6 stale b = elim (ip_version b) [
  | none ↦ some (ignored s b)
  | some version ↦
      if version == 4
      then (do
        valid ← ipv4_is_valid b (length b)
        if not valid then some (ignored s b) else (do
          p ← ipv4_packet b
          st ← process_ipv4 s now direct4 stale p
          some (finished st)))
      else if version == 6
      then (do
        valid ← ipv6_is_valid b (length b)
        if not valid then some (ignored s b) else (do
          p ← ipv6_packet b
          st ← process_ipv6 s now direct6 stale p
          some (finished st)))
      else some (ignored s b)
]
