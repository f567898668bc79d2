-- ===== src/System/Six/Process.antt =====
-- processIPv6 of stack_system.go.
use sing_tun.Base.{ℕ, not, true, Option, some, List, ◌==◌, if◌then◌else◌}
use sing_tun.Base.Bytes.{◌>>=◌}
use sing_tun.Header.Ipv6.{transport_protocol6, destination_addr6}
use sing_tun.System.{System, Packet, Step, stay, settle}
use sing_tun.System.Icmp.{Direct}
use sing_tun.System.Six.{is_global_unicast6}
use sing_tun.System.Six.Tcp.{process_ipv6_tcp}
use sing_tun.System.Six.Udp.{process_ipv6_udp}
use sing_tun.System.Six.Icmp.{process_ipv6_icmp}

-- The switch over the next header; what is not TCP, UDP or ICMPv6 is written back as it is.
unfoldable pub process_transport6 :
    System → ℕ → (ℕ → ℕ → Direct) → List ℕ → Packet → ℕ → Option Step
process_transport6 s now direct stale p protocol =
    if protocol == 6
    then process_ipv6_tcp s now p
    else if protocol == 17
    then process_ipv6_udp s p
    else if protocol == 58
    then process_ipv6_icmp s direct stale p
    else some (record (stay s p) { write_back = true })

unfoldable pub process_ipv6 : System → ℕ → (ℕ → ℕ → Direct) → List ℕ → Packet → Option Step
process_ipv6 s now direct stale p = do
  destination ← destination_addr6 p.header
  if not (is_global_unicast6 destination) then some (stay s p) else (do
    protocol ← transport_protocol6 p.header
    st ← process_transport6 s now direct stale p protocol
    some (settle st))
