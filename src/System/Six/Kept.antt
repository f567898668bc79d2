-- ===== src/System/Six/Kept.antt =====
-- What IPv6 packets leave of the stack's state (stack_system.go).
use sing_tun.Base.{ℕ, ◌+◌, ◌-◌, length, ◌≡◌, refl, Option, none, some, List}
use sing_tun.Base.Net.{AddrPort}
use sing_tun.Base.Bytes.{bind_some, slice, get8}
use sing_tun.Base.Ends.{Ends, some-Ends, bind-Ends, if_Ends, option-Ends}
use sing_tun.Header.{source_port, destination_port}
use sing_tun.Header.Ipv6.{payload_length6, source_addr6, destination_addr6, transport_protocol6}
use sing_tun.Nat.{TcpNat, Key, lookup, lookup_back}
use sing_tun.Nat.Refresh.{SameMaps-Inv}
use sing_tun.Nat.Lookup.{lookup-Inv, lookup_back-SameMaps}
use sing_tun.System.{System, Packet, stay, bytes, settle}
use sing_tun.System.Icmp.{Direct, direct_reset, direct_drop, direct_route, direct_none}
use sing_tun.System.Six.{rewrite_ipv6_tcp}
use sing_tun.System.Six.Tcp.{reply6, loop_back6, forward6, route_tcp6, process_ipv6_tcp}
use sing_tun.System.Six.Udp.{deliver6, process_ipv6_udp}
use sing_tun.System.Six.Icmp.{
  echo_reply6, reject_ipv6, rejected6, replied6, directed6, process_ipv6_icmp,
}
use sing_tun.System.Six.Process.{process_transport6, process_ipv6}
use sing_tun.System.Keeping.{KeepsStep, Keeps-nat6, same_step, settle-Keeps, looked_up-Keeps}

module _ (s : System) where
  reply_keeps :
      (nat : TcpNat) (now : ℕ) (p : Packet) (port : ℕ)
      → s.tcp_nat6 ≡ some nat
      → Ends (KeepsStep s) (reply6 s nat now p port)
  unfolding reply6
  reply_keeps nat now p port e =
      let keeps =
        Keeps-nat6 s nat (lookup_back nat port now).0 e
          (SameMaps-Inv (lookup_back-SameMaps nat port now)) in
      option-Ends (KeepsStep s) (lookup_back nat port now).1 _ _ (some-Ends (KeepsStep s) _ keeps)
        λ session. bind-Ends (KeepsStep s) _ _ λ q. some-Ends (KeepsStep s) _ keeps

  forward_keeps :
      (nat : TcpNat) (now : ℕ) (p : Packet) (source destination : AddrPort)
      → s.tcp_nat6 ≡ some nat
      → Ends (KeepsStep s) (forward6 s nat now p source destination)
  unfolding forward6
  forward_keeps nat now p source destination e =
      let key : Key = record { source = source; destination = destination } in
      let keeps = Keeps-nat6 s nat (lookup nat key now).0 e (lookup-Inv nat key now) in
      option-Ends (KeepsStep s) (lookup nat key now).1 _ _
        (bind-Ends (KeepsStep s) _ _ λ reset. some-Ends (KeepsStep s) _ keeps)
        λ port. bind-Ends (KeepsStep s) _ _ λ q. some-Ends (KeepsStep s) _ keeps

  loop_back_keeps : (p : Packet) (src dst : ℕ) → Ends (KeepsStep s) (loop_back6 s p src dst)
  unfolding loop_back6
  loop_back_keeps p src dst =
      bind-Ends (KeepsStep s) (rewrite_ipv6_tcp p s.tx_checksum_offload dst none src none) _
        λ q. same_step s _ refl

  route_keeps :
      (now : ℕ) (p : Packet) (nat : TcpNat)
      → s.tcp_nat6 ≡ some nat
      → Ends (KeepsStep s) (route_tcp6 s now p nat)
  unfolding route_tcp6
  route_keeps now p nat e = bind-Ends (KeepsStep s) (source_addr6 p.header) _ λ src.
      bind-Ends (KeepsStep s) (source_port p.payload) _ λ sport.
        bind-Ends (KeepsStep s) (destination_addr6 p.header) _ λ dst.
          bind-Ends (KeepsStep s) (destination_port p.payload) _ λ dport.
            if_Ends (KeepsStep s) _ _ _ (same_step s _ refl) (
              if_Ends (KeepsStep s) _ _ _ (reply_keeps nat now p dport e) (
                if_Ends (KeepsStep s) _ _ _ (loop_back_keeps p src dst)
                  (forward_keeps nat now p _ _ e)))

  tcp_by_nat :
      (now : ℕ) (p : Packet) (o : Option TcpNat)
      → s.tcp_nat6 ≡ o
      → Ends (KeepsStep s) (elim o [ none ↦ some (stay s p) | some nat ↦ route_tcp6 s now p nat ])
  tcp_by_nat now p none e = same_step s _ refl
  tcp_by_nat now p (some nat) e = route_keeps now p nat e

  tcp_keeps : (now : ℕ) (p : Packet) → Ends (KeepsStep s) (process_ipv6_tcp s now p)
  unfolding process_ipv6_tcp
  tcp_keeps now p = tcp_by_nat now p s.tcp_nat6 refl

  udp_keeps : (p : Packet) → Ends (KeepsStep s) (process_ipv6_udp s p)
  unfolding process_ipv6_udp deliver6
  udp_keeps p = bind-Ends (KeepsStep s) (source_addr6 p.header) _ λ src.
      bind-Ends (KeepsStep s) (source_port p.payload) _ λ sport.
        bind-Ends (KeepsStep s) (destination_addr6 p.header) _ λ dst.
          bind-Ends (KeepsStep s) (destination_port p.payload) _ λ dport.
            if_Ends (KeepsStep s) _ _ _ (same_step s _ refl) (
              bind-Ends (KeepsStep s) (slice p.payload 8 (length p.payload)) _ λ d.
                if_Ends (KeepsStep s) _ _ _ (same_step s _ refl) (
                  bind-Ends (KeepsStep s) (payload_length6 p.header) _ λ len.
                    bind-Ends (KeepsStep s) (slice (bytes p) 0 (length (bytes p) - len + 8)) _
                      λ headers. same_step s _ refl))

  directed_keeps :
      (p : Packet) (stale : List ℕ) (d : Direct) → Ends (KeepsStep s) (directed6 s p stale d)
  unfolding directed6 rejected6 replied6
  directed_keeps p stale direct_reset =
      bind-Ends (KeepsStep s) (reject_ipv6 s p 3 stale) _ λ message. same_step s _ refl
  directed_keeps p stale direct_drop = same_step s _ refl
  directed_keeps p stale direct_route = same_step s _ refl
  directed_keeps p stale direct_none =
      bind-Ends (KeepsStep s) (echo_reply6 p) _ λ q. same_step s _ refl

  icmp_keeps :
      (direct : ℕ → ℕ → Direct) (stale : List ℕ) (p : Packet)
      → Ends (KeepsStep s) (process_ipv6_icmp s direct stale p)
  unfolding process_ipv6_icmp replied6
  icmp_keeps direct stale p = bind-Ends (KeepsStep s) (get8 p.payload 0) _ λ kind.
      if_Ends (KeepsStep s) _ _ _ (same_step s _ refl) (
        bind-Ends (KeepsStep s) (get8 p.payload 1) _ λ code.
          if_Ends (KeepsStep s) _ _ _ (same_step s _ refl) (
            bind-Ends (KeepsStep s) (source_addr6 p.header) _ λ src.
              bind-Ends (KeepsStep s) (destination_addr6 p.header) _ λ dst.
                if_Ends (KeepsStep s) _ _ _
                  (bind-Ends (KeepsStep s) (echo_reply6 p) _ λ q. same_step s _ refl)
                  (looked_up-Keeps s src dst _ (directed_keeps p stale (direct src dst)))))

  transport_keeps :
      (now : ℕ) (direct : ℕ → ℕ → Direct) (stale : List ℕ) (p : Packet) (protocol : ℕ)
      → Ends (KeepsStep s) (process_transport6 s now direct stale p protocol)
  unfolding process_transport6
  transport_keeps now direct stale p protocol = if_Ends (KeepsStep s) _ _ _ (tcp_keeps now p) (
      if_Ends (KeepsStep s) _ _ _ (udp_keeps p)
        (if_Ends (KeepsStep s) _ _ _ (icmp_keeps direct stale p) (same_step s _ refl)))

  pub ipv6_keeps :
      (now : ℕ) (direct : ℕ → ℕ → Direct) (stale : List ℕ) (p : Packet)
      → Ends (KeepsStep s) (process_ipv6 s now direct stale p)
  unfolding process_ipv6
  ipv6_keeps now direct stale p = bind-Ends (KeepsStep s) (destination_addr6 p.header) _ λ dst.
      if_Ends (KeepsStep s) _ _ _ (same_step s _ refl) (
        bind-Ends (KeepsStep s) (transport_protocol6 p.header) _ λ protocol st' e.
          let (st, made, done) = bind_some (process_transport6 s now direct stale p protocol) _ e in
          some-Ends (KeepsStep s) (settle st)
            (settle-Keeps s st (transport_keeps now direct stale p protocol st made)) st' done)
