-- ===== src/System/Route.antt =====
-- processIPv4TCP of stack_system.go with its NAT: to the listener and back.
use mathlib.Core.Path.{subst}
use sing_tun.Base.{
  ℕ, ◌+◌, ◌^◌, ◌≤◌, ◌<◌, ◌≡◌, refl, ap, ◌∙◌, sym, true, false, Option, none, some, List, [], length,
  arith, All, ◌==◌, ◌&&◌, not, if◌then◌else◌,
}
use sing_tun.Base.Bytes.{◌>>=◌, window, get16, get32, some_same}
use sing_tun.Base.Net.{AddrPort}
use sing_tun.Checksum.Words.{IsByte}
use sing_tun.Header.{source_addr, destination_addr, source_port, destination_port}
use sing_tun.Header.Fields.{get16_total, get32_total, length-window, number_lt16, number_lt32}
use sing_tun.Header.Update.{window-IsByte}
use sing_tun.Nat.{TcpNat, Key, TcpSession, lookup, lookup_back}
use sing_tun.Nat.Linked.{Inv}
use sing_tun.Nat.Lookup.{lookup_back-lookup, lookup-port_fits}
use sing_tun.System.{System, Packet, is_global_unicast, rewrite_ipv4_tcp, Step, stay}
use sing_tun.System.Rewrite.{Whole}
use sing_tun.System.Ports.{IsPort}
use sing_tun.System.Sealed.{IsTcpPacket, Readdressed, rewrite_ipv4_tcp_lem}
use sing_tun.System.Tcp.{is_loopback, reply, loop_back, forward, route_tcp, process_ipv4_tcp}

-- The addresses and ports of a packet.
pub record HasFlow (p : Packet) (source destination : AddrPort) : Type 0 where
  pub src_addr : source_addr p.header ≡ some source.addr
  pub src_port : source_port p.payload ≡ some source.port
  pub dst_addr : destination_addr p.header ≡ some destination.addr
  pub dst_port : destination_port p.payload ≡ some destination.port

pub record IsEndpoint (a : AddrPort) : Type 0 where
  pub addr_fits : a.addr < 2 ^ 32
  pub port_fits : a.port < 2 ^ 16

-- The key of a flow in the NAT.
abbrev pub flow : AddrPort → AddrPort → Key
flow source destination = record { source = source; destination = destination }

pub ==_same : (n : ℕ) → (n == n) ≡ true
==_same n = ground arith

-- The addresses of the stack fit, and its NAT satisfies the invariant.
pub record IsRunning (s : System) (nat : TcpNat) : Type 0 where
  pub has_nat : s.tcp_nat4 ≡ some nat
  pub linked : Inv nat
  pub address : s.inet4_address < 2 ^ 32
  pub next_address : s.inet4_next_address < 2 ^ 32
  pub port : s.tcp_port < 2 ^ 16

pub get32_fits :
    (b : List ℕ) (off a : ℕ) → off + 4 ≤ length b → All IsByte b → get32 b off ≡ some a → a < 2 ^ 32
get32_fits b off a room hb e =
    subst (λ (n : ℕ). n < 2 ^ 32) (some_same _ _ (sym (get32_total b off room) ∙ e))
      (number_lt32 (window b off 4) (length-window b off 4 room) (window-IsByte b off 4 hb))

pub get16_fits :
    (b : List ℕ) (off a : ℕ) → off + 2 ≤ length b → All IsByte b → get16 b off ≡ some a → a < 2 ^ 16
get16_fits b off a room hb e =
    subst (λ (n : ℕ). n < 2 ^ 16) (some_same _ _ (sym (get16_total b off room) ∙ e))
      (number_lt16 (window b off 2) (length-window b off 2 room) (window-IsByte b off 2 hb))

pub flow-IsEndpoint :
    (p : Packet) (source destination : AddrPort)
    → Whole p
    → HasFlow p source destination
    → IsEndpoint source × IsEndpoint destination
unfolding source_addr source_port destination_addr destination_port
flow-IsEndpoint p source destination v f = (
  record {
    addr_fits = get32_fits p.header 12 _ (omega (arith, v.header_room)) v.header_bytes f.src_addr;
    port_fits = get16_fits p.payload 0 _ (omega (arith, v.payload_room)) v.payload_bytes f.src_port;
  },
  record {
    addr_fits = get32_fits p.header 16 _ v.header_room v.header_bytes f.dst_addr;
    port_fits = get16_fits p.payload 2 _ (omega (arith, v.payload_room)) v.payload_bytes f.dst_port;
  },
)

-- Which way processIPv4TCP takes.
pub dispatch :
    (s : System) (now : ℕ) (p : Packet) (source destination : AddrPort) (nat : TcpNat)
    → s.tcp_nat4 ≡ some nat
    → HasFlow p source destination
    → process_ipv4_tcp s now p ≡ (
        if not (is_global_unicast destination.addr)
        then some (stay s p)
        else if source.addr == s.inet4_address && source.port == s.tcp_port
        then reply s nat now p destination.port
        else if is_loopback s.inet4_loopback_address destination.addr
        then loop_back s p source.addr destination.addr
        else forward s nat now p source destination)
unfolding process_ipv4_tcp route_tcp
dispatch s now p source destination nat e f =
    ap (λ (o : Option TcpNat). elim o [ none ↦ some (stay s p) | some nat ↦ route_tcp s now p nat ])
      e
    ∙ rw (f.src_addr, f.src_port, f.dst_addr, f.dst_port) refl

-- The stack with its NAT replaced.
abbrev pub with_nat : System → TcpNat → System
with_nat s nat = record s { tcp_nat4 = some nat }

-- What a handler that rewrites and writes back leaves.
abbrev pub Sent : Option Step → System → TcpNat → Packet → ℕ → ℕ → Option ℕ → Option ℕ → Type 0
Sent result s nat p src dst sport dport =
    (st : Step) × (result ≡ some st)
    × (st.write_back ≡ true)
    × (st.error ≡ none)
    × (st.effects ≡ [])
    × (st.system ≡ with_nat s nat)
    × Readdressed p s.tx_checksum_offload src dst sport dport st.packet

rewritten-Sent :
    (s : System) (nat : TcpNat) (p : Packet) (src dst : ℕ) (sport dport : Option ℕ)
    → IsTcpPacket p
    → (src < 2 ^ 32) × (dst < 2 ^ 32)
    → IsPort sport × IsPort dport
    → Sent
        (rewrite_ipv4_tcp p s.tx_checksum_offload src sport dst dport >>= λ p'.
          some (record (stay (with_nat s nat) p') { write_back = true }))
        s
        nat
        p
        src
        dst
        sport
        dport
rewritten-Sent s nat p src dst sport dport t fits ports =
    let (q, made, is) =
      rewrite_ipv4_tcp_lem p s.tx_checksum_offload src sport dst dport t fits.0 fits.1 ports.0
        ports.1 in
    (
      record (stay (with_nat s nat) q) { write_back = true },
      rw made refl,
      refl,
      refl,
      refl,
      refl,
      is,
    )

-- A packet of a client that the NAT has a port for goes to the listener from that port of the next
-- address.
forward_lem :
    (s : System) (nat : TcpNat) (now : ℕ) (p : Packet) (source destination : AddrPort) (port : ℕ)
    → IsRunning s nat
    → IsTcpPacket p
    → (lookup nat (flow source destination) now).1 ≡ some port
    → Sent
        (forward s nat now p source destination)
        s
        (lookup nat (flow source destination) now).0
        p
        s.inet4_next_address
        s.inet4_address
        (some port)
        (some s.tcp_port)
unfolding forward
forward_lem s nat now p source destination port r t e =
    rw (e, forward)
      (rewritten-Sent s (lookup nat (flow source destination) now).0 p s.inet4_next_address
        s.inet4_address (some port) (some s.tcp_port) t (r.next_address, r.address)
        (lookup-port_fits nat (flow source destination) now port r.linked e, r.port))

-- A packet from the listener whose port has a session goes to that session's source.
reply_lem :
    (s : System) (nat : TcpNat) (now : ℕ) (p : Packet) (port : ℕ) (session : TcpSession)
    → IsTcpPacket p
    → IsEndpoint session.source
    → IsEndpoint session.destination
    → (lookup_back nat port now).1 ≡ some session
    → Sent
        (reply s nat now p port)
        s
        (lookup_back nat port now).0
        p
        session.destination.addr
        session.source.addr
        (some session.destination.port)
        (some session.source.port)
unfolding reply
reply_lem s nat now p port session t is_src is_dst e =
    rw (e, reply)
      (rewritten-Sent s (lookup_back nat port now).0 p session.destination.addr session.source.addr
        (some session.destination.port) (some session.source.port) t
        (is_dst.addr_fits, is_src.addr_fits) (is_dst.port_fits, is_src.port_fits))

-- A TCP packet of a client, to a destination that is not one of the loopback addresses.
pub record FromClient (s : System) (p : Packet) (source destination : AddrPort) : Type 0 where
  pub is_tcp : IsTcpPacket p
  pub has_flow : HasFlow p source destination
  pub global : is_global_unicast destination.addr ≡ true
  pub elsewhere : (source.addr == s.inet4_address && source.port == s.tcp_port) ≡ false
  pub not_loopback : is_loopback s.inet4_loopback_address destination.addr ≡ false

-- A TCP packet that the listener sends to a port of the next address.
pub record FromListener (s : System) (r : Packet) (port : ℕ) : Type 0 where
  pub is_tcp : IsTcpPacket r
  pub has_flow :
      HasFlow r
        (record { addr = s.inet4_address; port = s.tcp_port })
        (record { addr = s.inet4_next_address; port = port })

client_way :
    (s : System) (nat : TcpNat) (now : ℕ) (p : Packet) (source destination : AddrPort)
    → s.tcp_nat4 ≡ some nat
    → FromClient s p source destination
    → process_ipv4_tcp s now p ≡ forward s nat now p source destination
client_way s nat now p source destination e c =
    dispatch s now p source destination nat e c.has_flow
    ∙ rw (c.global, c.elsewhere, c.not_loopback) refl

listener_way :
    (s : System) (nat : TcpNat) (now : ℕ) (r : Packet) (port : ℕ)
    → s.tcp_nat4 ≡ some nat
    → is_global_unicast s.inet4_next_address ≡ true
    → FromListener s r port
    → process_ipv4_tcp s now r ≡ reply s nat now r port
listener_way s nat now r port e global c =
    dispatch s now r _ _ nat e c.has_flow
    ∙ rw (global, ==_same s.inet4_address, ==_same s.tcp_port) refl

-- A client's TCP packet for which the NAT has a port is written back as a packet from that port of
-- the next address to the listener; whatever the listener then sends to that port is written back,
-- at any later time, as a packet from the destination of the client's packet to its source. Both
-- packets keep the rest of their bytes and valid checksums.
pub process_ipv4_tcp_restores :
    (s : System) (nat : TcpNat) (now later : ℕ) (p r : Packet) (source destination : AddrPort)
    (port : ℕ)
    → IsRunning s nat
    → is_global_unicast s.inet4_next_address ≡ true
    → FromClient s p source destination
    → (lookup nat (flow source destination) now).1 ≡ some port
    → FromListener s r port
    → let nat' = (lookup nat (flow source destination) now).0 in
      Sent
        (process_ipv4_tcp s now p)
        s
        nat'
        p
        s.inet4_next_address
        s.inet4_address
        (some port)
        (some s.tcp_port)
      × Sent
          (process_ipv4_tcp (with_nat s nat') later r)
          (with_nat s nat')
          (lookup_back nat' port later).0
          r
          destination.addr
          source.addr
          (some destination.port)
          (some source.port)
process_ipv4_tcp_restores s nat now later p r source destination port run global c e l =
    let nat' = (lookup nat (flow source destination) now).0 in
    let s' = with_nat s nat' in
    let (session, back, key) =
      lookup_back-lookup nat (flow source destination) now later port run.linked e in
    let (fits, fits') = flow-IsEndpoint p source destination c.is_tcp.whole c.has_flow in
    let src : session.source ≡ source = ap (λ (k : Key). k.source) key in
    let dst : session.destination ≡ destination = ap (λ (k : Key). k.destination) key in
    let nat'' = (lookup_back nat' port later).0 in
    let there = forward_lem s nat now p source destination port run c.is_tcp e in
    let here =
      reply_lem s' nat' later r port session l.is_tcp (subst IsEndpoint (sym src) fits)
        (subst IsEndpoint (sym dst) fits') back in
    (
      subst
          (λ (x : Option Step).
            Sent x s nat' p s.inet4_next_address s.inet4_address (some port) (some s.tcp_port))
          (sym (client_way s nat now p source destination run.has_nat c)) there,
      subst
          (λ (x : Option Step).
            Sent x s' nat'' r destination.addr source.addr (some destination.port)
              (some source.port))
          (sym (
            listener_way s' nat' later r port refl global
              (record { is_tcp = l.is_tcp; has_flow = l.has_flow })))
          (subst
            (λ (a : AddrPort).
              Sent (reply s' nat' later r port) s' nat'' r a.addr source.addr (some a.port)
                (some source.port))
            dst
            (subst
              (λ (a : AddrPort).
                Sent (reply s' nat' later r port) s' nat'' r session.destination.addr a.addr
                  (some session.destination.port) (some a.port))
              src here)),
    )
