-- ===== src/System/Six/Route.antt =====
-- processIPv6TCP of stack_system.go with its NAT: to the listener and back.
use mathlib.Core.Path.{subst}
use sing_tun.Base.{
  ℕ, ◌+◌, ◌^◌, ◌≤◌, ◌<◌, ◌≡◌, refl, ap, ◌∙◌, sym, true, false, Option, none, some, List, [], length,
  arith, All, ◌==◌, ◌&&◌, not, if◌then◌else◌,
}
use sing_tun.Base.Bytes.{◌>>=◌, window, some_same}
use sing_tun.Base.Net.{AddrPort}
use sing_tun.Checksum.Words.{IsByte}
use sing_tun.Header.{source_port, destination_port}
use sing_tun.Header.Ipv6.{get128, source_addr6, destination_addr6}
use sing_tun.Header.Address6.{get128_total, number_lt128}
use sing_tun.Header.Fields.{length-window}
use sing_tun.Header.Update.{window-IsByte}
use sing_tun.Nat.{TcpNat, Key, TcpSession, lookup, lookup_back}
use sing_tun.Nat.Linked.{Inv}
use sing_tun.Nat.Lookup.{lookup_back-lookup, lookup-port_fits}
use sing_tun.System.{System, Packet, Step, stay}
use sing_tun.System.Tcp.{is_loopback}
use sing_tun.System.Ports.{IsPort}
use sing_tun.System.Route.{flow, get16_fits, ==_same}
use sing_tun.System.Six.{is_global_unicast6, rewrite_ipv6_tcp}
use sing_tun.System.Six.Rewrite.{Whole6}
use sing_tun.System.Six.Sealed.{IsTcpPacket6, Readdressed6, rewrite_ipv6_tcp_lem}
use sing_tun.System.Six.Tcp.{reply6, loop_back6, forward6, route_tcp6, process_ipv6_tcp}

-- The addresses and ports of a packet.
pub record HasFlow6 (p : Packet) (source destination : AddrPort) : Type 0 where
  pub src_addr : source_addr6 p.header ≡ some source.addr
  pub src_port : source_port p.payload ≡ some source.port
  pub dst_addr : destination_addr6 p.header ≡ some destination.addr
  pub dst_port : destination_port p.payload ≡ some destination.port

pub record IsEndpoint6 (a : AddrPort) : Type 0 where
  pub addr_fits : a.addr < 2 ^ 128
  pub port_fits : a.port < 2 ^ 16

-- The addresses of the stack fit, and its NAT satisfies the invariant.
pub record IsRunning6 (s : System) (nat : TcpNat) : Type 0 where
  pub has_nat : s.tcp_nat6 ≡ some nat
  pub linked : Inv nat
  pub address : s.inet6_address < 2 ^ 128
  pub next_address : s.inet6_next_address < 2 ^ 128
  pub port : s.tcp_port6 < 2 ^ 16

pub get128_fits :
    (b : List ℕ) (off a : ℕ)
    → off + 16 ≤ length b
    → All IsByte b
    → get128 b off ≡ some a
    → a < 2 ^ 128
get128_fits b off a room hb e =
    subst (λ (n : ℕ). n < 2 ^ 128) (some_same _ _ (sym (get128_total b off room) ∙ e))
      (number_lt128 (window b off 16) (length-window b off 16 room) (window-IsByte b off 16 hb))

pub flow-IsEndpoint6 :
    (p : Packet) (source destination : AddrPort)
    → Whole6 p
    → HasFlow6 p source destination
    → IsEndpoint6 source × IsEndpoint6 destination
unfolding source_addr6 source_port destination_addr6 destination_port
flow-IsEndpoint6 p source destination v f = (
  record {
    addr_fits = get128_fits p.header 8 _ (omega (arith, v.header_room)) v.header_bytes f.src_addr;
    port_fits = get16_fits p.payload 0 _ (omega (arith, v.payload_room)) v.payload_bytes f.src_port;
  },
  record {
    addr_fits = get128_fits p.header 24 _ v.header_room v.header_bytes f.dst_addr;
    port_fits = get16_fits p.payload 2 _ (omega (arith, v.payload_room)) v.payload_bytes f.dst_port;
  },
)

-- Which way processIPv6TCP takes.
pub dispatch6 :
    (s : System) (now : ℕ) (p : Packet) (source destination : AddrPort) (nat : TcpNat)
    → s.tcp_nat6 ≡ some nat
    → HasFlow6 p source destination
    → process_ipv6_tcp s now p ≡ (
        if not (is_global_unicast6 destination.addr)
        then some (stay s p)
        else if source.addr == s.inet6_address && source.port == s.tcp_port6
        then reply6 s nat now p destination.port
        else if is_loopback s.inet6_loopback_address destination.addr
        then loop_back6 s p source.addr destination.addr
        else forward6 s nat now p source destination)
unfolding process_ipv6_tcp route_tcp6
dispatch6 s now p source destination nat e f =
    ap
      (λ (o : Option TcpNat). elim o [ none ↦ some (stay s p) | some nat ↦ route_tcp6 s now p nat ])
      e
    ∙ rw (f.src_addr, f.src_port, f.dst_addr, f.dst_port) refl

-- The stack with its NAT replaced.
abbrev pub with_nat6 : System → TcpNat → System
with_nat6 s nat = record s { tcp_nat6 = some nat }

-- What a handler that rewrites and writes back leaves.
abbrev pub Sent6 : Option Step → System → TcpNat → Packet → ℕ → ℕ → Option ℕ → Option ℕ → Type 0
Sent6 result s nat p src dst sport dport =
    (st : Step) × (result ≡ some st)
    × (st.write_back ≡ true)
    × (st.error ≡ none)
    × (st.effects ≡ [])
    × (st.system ≡ with_nat6 s nat)
    × Readdressed6 p s.tx_checksum_offload src dst sport dport st.packet

rewritten-Sent6 :
    (s : System) (nat : TcpNat) (p : Packet) (src dst : ℕ) (sport dport : Option ℕ)
    → IsTcpPacket6 p
    → (src < 2 ^ 128) × (dst < 2 ^ 128)
    → IsPort sport × IsPort dport
    → Sent6
        (rewrite_ipv6_tcp p s.tx_checksum_offload src sport dst dport >>= λ p'.
          some (record (stay (with_nat6 s nat) p') { write_back = true }))
        s
        nat
        p
        src
        dst
        sport
        dport
rewritten-Sent6 s nat p src dst sport dport t fits ports =
    let (q, made, is) =
      rewrite_ipv6_tcp_lem p s.tx_checksum_offload src sport dst dport t fits.0 fits.1 ports.0
        ports.1 in
    (
      record (stay (with_nat6 s nat) q) { write_back = true },
      rw made refl,
      refl,
      refl,
      refl,
      refl,
      is,
    )

-- A packet of a client that the NAT has a port for goes to the listener from that port of the next
-- address.
forward6_lem :
    (s : System) (nat : TcpNat) (now : ℕ) (p : Packet) (source destination : AddrPort) (port : ℕ)
    → IsRunning6 s nat
    → IsTcpPacket6 p
    → (lookup nat (flow source destination) now).1 ≡ some port
    → Sent6
        (forward6 s nat now p source destination)
        s
        (lookup nat (flow source destination) now).0
        p
        s.inet6_next_address
        s.inet6_address
        (some port)
        (some s.tcp_port6)
unfolding forward6
forward6_lem s nat now p source destination port r t e =
    rw (e, forward6)
      (rewritten-Sent6 s (lookup nat (flow source destination) now).0 p s.inet6_next_address
        s.inet6_address (some port) (some s.tcp_port6) t (r.next_address, r.address)
        (lookup-port_fits nat (flow source destination) now port r.linked e, r.port))

-- A packet from the listener whose port has a session goes to that session's source.
reply6_lem :
    (s : System) (nat : TcpNat) (now : ℕ) (p : Packet) (port : ℕ) (session : TcpSession)
    → IsTcpPacket6 p
    → IsEndpoint6 session.source
    → IsEndpoint6 session.destination
    → (lookup_back nat port now).1 ≡ some session
    → Sent6
        (reply6 s nat now p port)
        s
        (lookup_back nat port now).0
        p
        session.destination.addr
        session.source.addr
        (some session.destination.port)
        (some session.source.port)
unfolding reply6
reply6_lem s nat now p port session t is_src is_dst e =
    rw (e, reply6)
      (rewritten-Sent6 s (lookup_back nat port now).0 p session.destination.addr session.source.addr
        (some session.destination.port) (some session.source.port) t
        (is_dst.addr_fits, is_src.addr_fits) (is_dst.port_fits, is_src.port_fits))

-- A TCP packet of a client, to a destination that is not one of the loopback addresses.
pub record FromClient6 (s : System) (p : Packet) (source destination : AddrPort) : Type 0 where
  pub is_tcp : IsTcpPacket6 p
  pub has_flow : HasFlow6 p source destination
  pub global : is_global_unicast6 destination.addr ≡ true
  pub elsewhere : (source.addr == s.inet6_address && source.port == s.tcp_port6) ≡ false
  pub not_loopback : is_loopback s.inet6_loopback_address destination.addr ≡ false

-- A TCP packet that the listener sends to a port of the next address.
pub record FromListener6 (s : System) (r : Packet) (port : ℕ) : Type 0 where
  pub is_tcp : IsTcpPacket6 r
  pub has_flow :
      HasFlow6 r
        (record { addr = s.inet6_address; port = s.tcp_port6 })
        (record { addr = s.inet6_next_address; port = port })

client_way6 :
    (s : System) (nat : TcpNat) (now : ℕ) (p : Packet) (source destination : AddrPort)
    → s.tcp_nat6 ≡ some nat
    → FromClient6 s p source destination
    → process_ipv6_tcp s now p ≡ forward6 s nat now p source destination
client_way6 s nat now p source destination e c =
    dispatch6 s now p source destination nat e c.has_flow
    ∙ rw (c.global, c.elsewhere, c.not_loopback) refl

listener_way6 :
    (s : System) (nat : TcpNat) (now : ℕ) (r : Packet) (port : ℕ)
    → s.tcp_nat6 ≡ some nat
    → is_global_unicast6 s.inet6_next_address ≡ true
    → FromListener6 s r port
    → process_ipv6_tcp s now r ≡ reply6 s nat now r port
listener_way6 s nat now r port e global c =
    dispatch6 s now r _ _ nat e c.has_flow
    ∙ rw (global, ==_same s.inet6_address, ==_same s.tcp_port6) refl

-- A client's TCP packet of version 6, without extension headers, for which the NAT has a port is
-- written back as a packet from that port of the next address to the listener; whatever the listener
-- then sends to that port is written back, at any later time, as a packet from the destination of the
-- client's packet to its source. Both packets keep the rest of their bytes and valid checksums.
pub process_ipv6_tcp_restores :
    (s : System) (nat : TcpNat) (now later : ℕ) (p r : Packet) (source destination : AddrPort)
    (port : ℕ)
    → IsRunning6 s nat
    → is_global_unicast6 s.inet6_next_address ≡ true
    → FromClient6 s p source destination
    → (lookup nat (flow source destination) now).1 ≡ some port
    → FromListener6 s r port
    → let nat' = (lookup nat (flow source destination) now).0 in
      Sent6
        (process_ipv6_tcp s now p)
        s
        nat'
        p
        s.inet6_next_address
        s.inet6_address
        (some port)
        (some s.tcp_port6)
      × Sent6
          (process_ipv6_tcp (with_nat6 s nat') later r)
          (with_nat6 s nat')
          (lookup_back nat' port later).0
          r
          destination.addr
          source.addr
          (some destination.port)
          (some source.port)
process_ipv6_tcp_restores s nat now later p r source destination port run global c e l =
    let nat' = (lookup nat (flow source destination) now).0 in
    let s' = with_nat6 s nat' in
    let (session, back, key) =
      lookup_back-lookup nat (flow source destination) now later port run.linked e in
    let (fits, fits') = flow-IsEndpoint6 p source destination c.is_tcp.whole c.has_flow in
    let src : session.source ≡ source = ap (λ (k : Key). k.source) key in
    let dst : session.destination ≡ destination = ap (λ (k : Key). k.destination) key in
    let nat'' = (lookup_back nat' port later).0 in
    let there = forward6_lem s nat now p source destination port run c.is_tcp e in
    let here =
      reply6_lem s' nat' later r port session l.is_tcp (subst IsEndpoint6 (sym src) fits)
        (subst IsEndpoint6 (sym dst) fits') back in
    (
      subst
          (λ (x : Option Step).
            Sent6 x s nat' p s.inet6_next_address s.inet6_address (some port) (some s.tcp_port6))
          (sym (client_way6 s nat now p source destination run.has_nat c)) there,
      subst
          (λ (x : Option Step).
            Sent6 x s' nat'' r destination.addr source.addr (some destination.port)
              (some source.port))
          (sym (
            listener_way6 s' nat' later r port refl global
              (record { is_tcp = l.is_tcp; has_flow = l.has_flow })))
          (subst
            (λ (a : AddrPort).
              Sent6 (reply6 s' nat' later r port) s' nat'' r a.addr source.addr (some a.port)
                (some source.port))
            dst
            (subst
              (λ (a : AddrPort).
                Sent6 (reply6 s' nat' later r port) s' nat'' r session.destination.addr a.addr
                  (some session.destination.port) (some a.port))
              src here)),
    )
