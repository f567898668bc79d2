-- ===== src/Ping.antt =====
-- The rewriters of the ping package (ping/source_rewriter.go, ping/destination_rewriter.go): ICMP
-- packets of both IP versions, changed in their buffer. An address is its bytes, 4 or 16 of them; a
-- context or a route is a number. Arguments of log calls are evaluated, so they can panic.
pub mod Header
pub mod Reply
pub mod Restore
mod Examples
use sing_tun.Base.{
  ℕ, ◌+◌, ◌-◌, ◌*◌, ◌/◌, ◌%◌, ◌^◌, Bool, true, false, not, ◌||◌, ◌&&◌, Option, none, some, List, [],
  ◌∷◌, ◌++◌, length, take, leb, ◌==◌, if◌then◌else◌,
}
use sing_tun.Base.Bytes.{◌>>=◌, patch, put, slice, bytes16, get8, get16}
use sing_tun.Base.Net.{update}
use sing_tun.Checksum.Header.{checksum, combine, complement, pseudo_header_checksum}
use sing_tun.Header.Ipv6.{icmpv6_checksum}
use sing_tun.Header.{
  ip_version, payload_length, header_length, calculate_ip_checksum, set_ip_checksum,
}

-- The offsets and sizes of header.IPv4 and header.IPv6 (`v6`).
abbrev pub addr_size : Bool → ℕ
addr_size true = 16
addr_size false = 4

abbrev pub source_at : Bool → ℕ
source_at true = 8
source_at false = 12

abbrev pub destination_at : Bool → ℕ
destination_at true = 24
destination_at false = 16

-- SourceAddr, DestinationAddr, SetSourceAddr and SetDestinationAddr of a header.Network.
unfoldable pub net_source : Bool → List ℕ → Option (List ℕ)
net_source v6 b = slice b (source_at v6) (source_at v6 + addr_size v6)

unfoldable pub net_destination : Bool → List ℕ → Option (List ℕ)
net_destination v6 b = slice b (destination_at v6) (destination_at v6 + addr_size v6)

-- copy into the slice of the address
unfoldable pub set_addr : ℕ → ℕ → List ℕ → List ℕ → Option (List ℕ)
set_addr at size b addr =
    if leb (at + size) (length b) then some (patch b at (take size addr)) else none

abbrev pub set_net_source : Bool → List ℕ → List ℕ → Option (List ℕ)
set_net_source v6 b addr = set_addr (source_at v6) (addr_size v6) b addr

abbrev pub set_net_destination : Bool → List ℕ → List ℕ → Option (List ℕ)
set_net_destination v6 b addr = set_addr (destination_at v6) (addr_size v6) b addr

unfoldable pub net_transport : Bool → List ℕ → Option ℕ
net_transport v6 b = get8 b (if v6 then 6 else 9)

-- Where Payload begins, and how long it is.
unfoldable pub payload_range : Bool → List ℕ → Option (ℕ × ℕ)
payload_range true b = do n ← get16 b 4; some (40, n)
payload_range false b = do hlen ← header_length b; n ← payload_length b; some (hlen, n)

unfoldable pub net_payload : Bool → List ℕ → Option (List ℕ)
net_payload v6 b = do r ← payload_range v6 b; slice b r.0 (r.0 + r.1)

-- SetChecksum(^CalculateChecksum()) of an IPv4 header; IPv6 has none.
unfoldable pub reseal_header : Bool → List ℕ → Option (List ℕ)
reseal_header true b = some b
reseal_header false b = do sum ← calculate_ip_checksum b; set_ip_checksum b (complement sum)

-- The checksum of the ICMPv6 message in a packet is computed and set, in place.
unfoldable pub reseal_icmpv6 : Bool → List ℕ → Option (List ℕ)
reseal_icmpv6 v6 b = do
  range ← payload_range v6 b
  h ← net_payload v6 b
  src ← net_source v6 b
  dst ← net_destination v6 b
  csum ← icmpv6_checksum h src dst 0 0
  h' ← put h 2 (bytes16 csum)
  some (patch b range.0 h')

-- DirectRouteSession
pub record Session : Type 0 where
  pub source : List ℕ
  pub destination : List ℕ

abbrev bytes_eq : List ℕ → List ℕ → Bool
bytes_eq [] [] = true
bytes_eq (x ∷ a) (y ∷ b) = x == y && bytes_eq a b
bytes_eq _ _ = false

abbrev pub session_eq : Session → Session → Bool
session_eq a b = bytes_eq a.source b.source && bytes_eq a.destination b.destination

pub record SourceRewriter : Type 0 where
  pub sessions : Session → Option ℕ
  pub source_address : ℕ → Option (List ℕ)
  pub inet4_address : List ℕ
  pub inet6_address : List ℕ

abbrev pub new_source_rewriter : List ℕ → List ℕ → SourceRewriter
new_source_rewriter inet4 inet6 = record {
  sessions = λ s. none;
  source_address = λ i. none;
  inet4_address = inet4;
  inet6_address = inet6;
}

abbrev pub create_session : SourceRewriter → Session → ℕ → SourceRewriter
create_session m session context = record m {
  sessions = update session_eq m.sessions session (some context);
}

abbrev pub delete_session : SourceRewriter → Session → SourceRewriter
delete_session m session = record m { sessions = update session_eq m.sessions session none }

abbrev pub ident_eq : ℕ → ℕ → Bool
ident_eq a b = a == b

abbrev pub remember : SourceRewriter → ℕ → Option (List ℕ) → SourceRewriter
remember m ident source = record m {
  source_address = update ident_eq m.source_address ident source;
}

-- The identifier of the message in a packet; the sequence number is read for the log.
unfoldable pub logged_ident : Bool → List ℕ → Option ℕ
logged_ident v6 b = do h ← net_payload v6 b; ident ← get16 h 4; seq ← get16 h 6; some ident

-- The identifier that WriteBack looks up.
unfoldable pub ident_of : Bool → List ℕ → Option ℕ
ident_of v6 b = do h ← net_payload v6 b; get16 h 4

-- RewritePacket for one IP version.
unfoldable pub rewrite_network :
    SourceRewriter → Bool → List ℕ → List ℕ → Option (SourceRewriter × List ℕ)
rewrite_network m v6 bind_addr b = do
  source ← net_source v6 b
  b1 ← set_net_source v6 b bind_addr
  b2 ← reseal_header v6 b1
  protocol ← net_transport v6 b2
  if protocol == 1
      then (do ident ← logged_ident v6 b2; some (remember m ident (some source), b2))
      else if protocol == 58
      then (do
        b3 ← reseal_icmpv6 v6 b2
        ident ← logged_ident v6 b3
        some (remember m ident (some source), b3))
      else some (m, b2)

unfoldable pub rewrite_packet : SourceRewriter → List ℕ → Option (SourceRewriter × List ℕ)
rewrite_packet m b = elim (ip_version b) [
  | none ↦ some (m, b)
  | some version ↦
      if version == 4
      then rewrite_network m false m.inet4_address b
      else if version == 6
      then rewrite_network m true m.inet6_address b
      else some (m, b)
]

-- What WriteBack leaves, with the context that the packet was written to, if any.
pub record Answer : Type 0 where
  pub rewriter : SourceRewriter
  pub packet : List ℕ
  pub context : Option ℕ

abbrev pub unanswered : SourceRewriter → List ℕ → Answer
unanswered m b = record { rewriter = m; packet = b; context = none }

-- The end of WriteBack, for a session that is there.
unfoldable pub deliver : SourceRewriter → Bool → List ℕ → List ℕ → ℕ → Option Answer
deliver m v6 b source context = do
  b1 ← set_net_destination v6 b source
  b2 ← reseal_header v6 b1
  protocol ← net_transport v6 b2
  b3 ← if protocol == 58 then reseal_icmpv6 v6 b2 else some b2
  ident ← logged_ident v6 b3
  some (record { rewriter = m; packet = b3; context = some context })

-- WriteBack for one IP version.
unfoldable pub write_back_network : SourceRewriter → Bool → List ℕ → Option Answer
write_back_network m v6 b = do
  destination ← net_source v6 b
  protocol ← net_transport v6 b
  if not (protocol == 1 || protocol == 58) then some (unanswered m b) else (do
    ident ← ident_of v6 b
    elim (m.source_address ident) [
      | none ↦ some (unanswered m b)
      | some source ↦
          let m' = remember m ident none in
          elim (m'.sessions (record { source = source; destination = destination })) [
            | none ↦ some (unanswered m' b)
            | some context ↦ deliver m' v6 b source context
          ]
    ])

unfoldable pub write_back : SourceRewriter → List ℕ → Option Answer
write_back m b = elim (ip_version b) [
  | none ↦ some (unanswered m b)
  | some version ↦
      if version == 4
      then write_back_network m false b
      else if version == 6
      then write_back_network m true b
      else some (unanswered m b)
]

-- WritePacket of DestinationWriter and of ContextDestinationWriter: the address written is the
-- destination for the first and the source for the second. The result goes to the inner route.
unfoldable pub readdress_network : Bool → Bool → List ℕ → List ℕ → Option (List ℕ)
readdress_network to_source v6 addr b = do
  b1 ← if to_source then set_net_source v6 b addr else set_net_destination v6 b addr
  b2 ← reseal_header v6 b1
  protocol ← net_transport v6 b2
  if protocol == 58 then reseal_icmpv6 v6 b2 else some b2

unfoldable pub write_packet : Bool → List ℕ → List ℕ → Option (List ℕ)
write_packet to_source addr b = elim (ip_version b) [
  | none ↦ some b
  | some version ↦
      if version == 4
      then readdress_network to_source false addr b
      else if version == 6
      then readdress_network to_source true addr b
      else some b
]
