-- ===== src/System/Kept4.antt =====
-- What IPv4 packets leave of the stack's state (stack_system.go).
use sing_tun.Base.{ℕ, ◌+◌, length, ◌≡◌, refl, Option, none, some, List}
use sing_tun.Base.Net.{AddrPort}
use sing_tun.Base.Bytes.{bind_some, slice, get8}
use sing_tun.Base.Ends.{Ends, some-Ends, bind-Ends, if_Ends, option-Ends}
use sing_tun.Header.{
  header_length, ip_flags, fragment_offset, source_addr, destination_addr, source_port,
  destination_port, transport_protocol,
}
use sing_tun.Nat.{TcpNat, Key, lookup, lookup_back}
use sing_tun.Nat.Refresh.{SameMaps-Inv}
use sing_tun.Nat.Lookup.{lookup-Inv, lookup_back-SameMaps}
use sing_tun.System.{System, Packet, stay, bytes, rewrite_ipv4_tcp, settle}
use sing_tun.System.Tcp.{reply, loop_back, forward, route_tcp, process_ipv4_tcp}
use sing_tun.System.Udp.{deliver, process_ipv4_udp}
use sing_tun.System.Icmp.{
  echo_reply, reject_ipv4, Direct, direct_reset, direct_drop, direct_route, direct_none, rejected,
  replied, directed, process_ipv4_icmp,
}
use sing_tun.System.Process.{process_transport, process_ipv4}
use sing_tun.System.Keeping.{KeepsStep, Keeps-nat4, same_step, settle-Keeps, looked_up-Keeps}

module _ (s : System) where
  reply_keeps :
      (nat : TcpNat) (now : ℕ) (p : Packet) (port : ℕ)
      → s.tcp_nat4 ≡ some nat
      → Ends (KeepsStep s) (reply s nat now p port)
  unfolding reply
  reply_keeps nat now p port e =
      let keeps =
        Keeps-nat4 s nat (lookup_back nat port now).0 e
          (SameMaps-Inv (lookup_back-SameMaps nat port now)) in
      option-Ends (KeepsStep s) (lookup_back nat port now).1 _ _ (some-Ends (KeepsStep s) _ keeps)
        λ session. bind-Ends (KeepsStep s) _ _ λ q. some-Ends (KeepsStep s) _ keeps

  forward_keeps :
      (nat : TcpNat) (now : ℕ) (p : Packet) (source destination : AddrPort)
      → s.tcp_nat4 ≡ some nat
      → Ends (KeepsStep s) (forward s nat now p source destination)
  unfolding forward
  forward_keeps nat now p source destination e =
      let key : Key = record { source = source; destination = destination } in
      let keeps = Keeps-nat4 s nat (lookup nat key now).0 e (lookup-Inv nat key now) in
      option-Ends (KeepsStep s) (lookup nat key now).1 _ _
        (bind-Ends (KeepsStep s) _ _ λ reset. some-Ends (KeepsStep s) _ keeps)
        λ port. bind-Ends (KeepsStep s) _ _ λ q. some-Ends (KeepsStep s) _ keeps

  loop_back_keeps : (p : Packet) (src dst : ℕ) → Ends (KeepsStep s) (loop_back s p src dst)
  unfolding loop_back
  loop_back_keeps p src dst =
      bind-Ends (KeepsStep s) (rewrite_ipv4_tcp p s.tx_checksum_offload dst none src none) _
        λ q. same_step s _ refl

  route_keeps :
      (now : ℕ) (p : Packet) (nat : TcpNat)
      → s.tcp_nat4 ≡ some nat
      → Ends (KeepsStep s) (route_tcp s now p nat)
  unfolding route_tcp
  route_keeps now p nat e = bind-Ends (KeepsStep s) (source_addr p.header) _ λ src.
      bind-Ends (KeepsStep s) (source_port p.payload) _ λ sport.
        bind-Ends (KeepsStep s) (destination_addr p.header) _ λ dst.
          bind-Ends (KeepsStep s) (destination_port p.payload) _ λ dport.
            if_Ends (KeepsStep s) _ _ _ (same_step s _ refl) (
              if_Ends (KeepsStep s) _ _ _ (reply_keeps nat now p dport e) (
                if_Ends (KeepsStep s) _ _ _ (loop_back_keeps p src dst)
                  (forward_keeps nat now p _ _ e)))

  tcp_by_nat :
      (now : ℕ) (p : Packet) (o : Option TcpNat)
      → s.tcp_nat4 ≡ o
      → Ends (KeepsStep s) (elim o [ none ↦ some (stay s p) | some nat ↦ route_tcp s now p nat ])
  tcp_by_nat now p none e = same_step s _ refl
  tcp_by_nat now p (some nat) e = route_keeps now p nat e

  tcp_keeps : (now : ℕ) (p : Packet) → Ends (KeepsStep s) (process_ipv4_tcp s now p)
  unfolding process_ipv4_tcp
  tcp_keeps now p = tcp_by_nat now p s.tcp_nat4 refl

  udp_keeps : (p : Packet) → Ends (KeepsStep s) (process_ipv4_udp s p)
  unfolding process_ipv4_udp deliver
  udp_keeps p = bind-Ends (KeepsStep s) (ip_flags p.header) _ λ flags.
      if_Ends (KeepsStep s) _ _ _ (same_step s _ refl) (
        bind-Ends (KeepsStep s) (fragment_offset p.header) _ λ offset.
          if_Ends (KeepsStep s) _ _ _ (same_step s _ refl) (
            bind-Ends (KeepsStep s) (source_addr p.header) _ λ src.
              bind-Ends (KeepsStep s) (source_port p.payload) _ λ sport.
                bind-Ends (KeepsStep s) (destination_addr p.header) _ λ dst.
                  bind-Ends (KeepsStep s) (destination_port p.payload) _ λ dport.
                    if_Ends (KeepsStep s) _ _ _ (same_step s _ refl) (
                      bind-Ends (KeepsStep s) (slice p.payload 8 (length p.payload)) _ λ d.
                        if_Ends (KeepsStep s) _ _ _ (same_step s _ refl) (
                          bind-Ends (KeepsStep s) (header_length p.header) _ λ hlen.
                            bind-Ends (KeepsStep s) (slice (bytes p) 0 (hlen + 8)) _
                              λ headers. same_step s _ refl))))

  directed_keeps :
      (p : Packet) (stale : List ℕ) (d : Direct) → Ends (KeepsStep s) (directed s p stale d)
  unfolding directed rejected replied
  directed_keeps p stale direct_reset =
      bind-Ends (KeepsStep s) (reject_ipv4 s p 1 stale) _ λ message. same_step s _ refl
  directed_keeps p stale direct_drop = same_step s _ refl
  directed_keeps p stale direct_route = same_step s _ refl
  directed_keeps p stale direct_none =
      bind-Ends (KeepsStep s) (echo_reply p) _ λ q. same_step s _ refl

  icmp_keeps :
      (direct : ℕ → ℕ → Direct) (stale : List ℕ) (p : Packet)
      → Ends (KeepsStep s) (process_ipv4_icmp s direct stale p)
  unfolding process_ipv4_icmp replied
  icmp_keeps direct stale p = bind-Ends (KeepsStep s) (get8 p.payload 0) _ λ kind.
      if_Ends (KeepsStep s) _ _ _ (same_step s _ refl) (
        bind-Ends (KeepsStep s) (get8 p.payload 1) _ λ code.
          if_Ends (KeepsStep s) _ _ _ (same_step s _ refl) (
            bind-Ends (KeepsStep s) (source_addr p.header) _ λ src.
              bind-Ends (KeepsStep s) (destination_addr p.header) _ λ dst.
                if_Ends (KeepsStep s) _ _ _
                  (bind-Ends (KeepsStep s) (echo_reply p) _ λ q. same_step s _ refl)
                  (looked_up-Keeps s src dst _ (directed_keeps p stale (direct src dst)))))

  transport_keeps :
      (now : ℕ) (direct : ℕ → ℕ → Direct) (stale : List ℕ) (p : Packet) (protocol : ℕ)
      → Ends (KeepsStep s) (process_transport s now direct stale p protocol)
  unfolding process_transport
  transport_keeps now direct stale p protocol = if_Ends (KeepsStep s) _ _ _ (tcp_keeps now p) (
      if_Ends (KeepsStep s) _ _ _ (udp_keeps p)
        (if_Ends (KeepsStep s) _ _ _ (icmp_keeps direct stale p) (same_step s _ refl)))

  pub ipv4_keeps :
      (now : ℕ) (direct : ℕ → ℕ → Direct) (stale : List ℕ) (p : Packet)
      → Ends (KeepsStep s) (process_ipv4 s now direct stale p)
  unfolding process_ipv4
  ipv4_keeps now direct stale p = bind-Ends (KeepsStep s) (destination_addr p.header) _ λ dst.
      if_Ends (KeepsStep s) _ _ _ (same_step s _ refl) (
        bind-Ends (KeepsStep s) (transport_protocol p.header) _ λ protocol st' e.
          let (st, made, done) = bind_some (process_transport s now direct stale p protocol) _ e in
          some-Ends (KeepsStep s) (settle st)
            (settle-Keeps s st (transport_keeps now direct stale p protocol st made)) st' done)
