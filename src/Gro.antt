-- ===== src/Gro.antt =====
-- The receive offload of tun_offload_linux.go: the virtio header, the buffers, and what TCP and UDP
-- share. `none` is a panic. The buffers do not overlap.
pub mod Udp
pub mod Virtio
mod Examples
use sing_tun.Base.{
  ℕ, zero, suc, ◌+◌, ◌-◌, ◌*◌, ◌/◌, ◌%◌, ◌^◌, Bool, true, false, not, ◌||◌, ◌&&◌, Option, none,
  some, List, [], ◌∷◌, ◌++◌, length, get_elem?, ltb, leb, ◌==◌, if◌then◌else◌,
}
use sing_tun.Base.Bytes.{◌>>=◌, slice, get16}
use sing_tun.Checksum.Header.{checksum, complement, pseudo_header_checksum}
use sing_tun.Gso.{GsoType, gso_none, gso_tcp4, gso_tcp6, gso_udp_l4, GsoOptions}

pub record VirtioNetHdr : Type 0 where
  pub flags : ℕ
  pub gso_type : ℕ
  pub hdr_len : ℕ
  pub gso_size : ℕ
  pub csum_start : ℕ
  pub csum_offset : ℕ

-- The values of VIRTIO_NET_HDR_GSO_NONE, _TCPV4, _TCPV6 and _UDP_L4; `none` is an error.
pub virtio_gso_type : ℕ → Option GsoType
virtio_gso_type t =
    if t == 0
    then some gso_none
    else if t == 1
    then some gso_tcp4
    else if t == 4
    then some gso_tcp6
    else if t == 5
    then some gso_udp_l4
    else none

-- VIRTIO_NET_HDR_F_NEEDS_CSUM is the lowest bit.
pub to_gso_options : VirtioNetHdr → Option GsoOptions
to_gso_options v = do
  gso_type ← virtio_gso_type v.gso_type
  some (record {
    gso_type = gso_type;
    hdr_len = v.hdr_len;
    csum_start = v.csum_start;
    csum_offset = v.csum_offset;
    gso_size = v.gso_size;
    needs_csum = not (v.flags % 2 == 0);
  })

-- A uint16 in memory, and what two bytes of memory hold, on a host of the given byte order.
abbrev pub host16 : Bool → ℕ → List ℕ
host16 true v = v / 256 ∷ v % 256 ∷ []
host16 false v = v % 256 ∷ v / 256 ∷ []

abbrev pub from_host16 : Bool → ℕ → ℕ → ℕ
from_host16 true a b = a * 256 + b
from_host16 false a b = b * 256 + a

-- encode writes into the front of a buffer; `none` is io.ErrShortBuffer.
pub encode : Bool → VirtioNetHdr → List ℕ → Option (List ℕ)
encode big v (b0 ∷ b1 ∷ b2 ∷ b3 ∷ b4 ∷ b5 ∷ b6 ∷ b7 ∷ b8 ∷ b9 ∷ rest) = some (
    (v.flags ∷ v.gso_type ∷ host16 big v.hdr_len)
    ++ (host16 big v.gso_size ++ (host16 big v.csum_start ++ (host16 big v.csum_offset ++ rest))))
encode big v _ = none

pub decode : Bool → List ℕ → Option VirtioNetHdr
decode big (f ∷ t ∷ h0 ∷ h1 ∷ g0 ∷ g1 ∷ s0 ∷ s1 ∷ o0 ∷ o1 ∷ rest) = some (record {
  flags = f;
  gso_type = t;
  hdr_len = from_host16 big h0 h1;
  gso_size = from_host16 big g0 g1;
  csum_start = from_host16 big s0 s1;
  csum_offset = from_host16 big o0 o1;
})
decode big _ = none

-- A slice of bytes with its capacity.
pub record Buf : Type 0 where
  pub bytes : List ℕ
  pub cap : ℕ

abbrev pub set_at : {A : Type 0} → ℕ → A → List A → List A
set_at i v [] = []
set_at zero v (x ∷ xs) = v ∷ xs
set_at (suc i) v (x ∷ xs) = x ∷ set_at i v xs

-- bufs[i][offset:]
pub packet : List Buf → ℕ → ℕ → Option (List ℕ)
packet bufs i offset = do b ← get_elem? bufs i; slice b.bytes offset (length b.bytes)

-- A byte of a packet whose length the caller has checked.
abbrev pub byte_at : List ℕ → ℕ → ℕ
byte_at [] i = 0
byte_at (x ∷ b) zero = x
byte_at (x ∷ b) (suc i) = byte_at b i

unfoldable pub ip_headers_can_coalesce : List ℕ → List ℕ → Bool
ip_headers_can_coalesce a b =
    if ltb (length a) 9 || ltb (length b) 9
    then false
    else if byte_at a 0 / 16 == 6
    then byte_at a 0 == byte_at b 0
      && byte_at a 1 / 16 == byte_at b 1 / 16
      && byte_at a 7 == byte_at b 7
    else byte_at a 1 == byte_at b 1
      && byte_at a 6 / 32 == byte_at b 6 / 32
      && byte_at a 8 == byte_at b 8

-- checksumValid
pub checksum_valid : List ℕ → ℕ → ℕ → Bool → Option Bool
checksum_valid pkt iph_len proto v6 = do
  let at = if v6 then 8 else 12
  let len = if v6 then 16 else 4
  let total = (length pkt + 2 ^ 16 - iph_len) % 2 ^ 16
  src ← slice pkt at (at + len)
  dst ← slice pkt (at + len) (at + len * 2)
  segment ← slice pkt iph_len (length pkt)
  some (complement (checksum false 0 segment (pseudo_header_checksum proto src dst total)) == 0)

pub data Candidate : Type 0 where
  not_candidate tcp4 tcp6 udp4 udp6 : Candidate

-- packetIsGROCandidate; the flags say what is disabled.
pub packet_is_gro_candidate : List ℕ → Bool → Bool → Candidate
packet_is_gro_candidate b tcp_disabled udp_disabled =
    if ltb (length b) 28
    then not_candidate
    else if byte_at b 0 / 16 == 4
    then (if not (byte_at b 0 % 16 == 5)
        then not_candidate
        else if byte_at b 9 == 6 && leb 40 (length b) && not tcp_disabled
        then tcp4
        else if byte_at b 9 == 17 && not udp_disabled
        then udp4
        else not_candidate)
    else if byte_at b 0 / 16 == 6
    then (if byte_at b 6 == 6 && leb 60 (length b) && not tcp_disabled
        then tcp6
        else if byte_at b 6 == 17 && leb 48 (length b) && not udp_disabled
        then udp6
        else not_candidate)
    else not_candidate
