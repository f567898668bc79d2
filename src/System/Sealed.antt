-- ===== src/System/Sealed.antt =====
-- rewriteIPv4TCP as a whole: the packet that it leaves, and its checksums.
use mathlib.Core.Path.{subst}
use sing_tun.Base.{
  ℕ, ◌+◌, ◌/◌, ◌%◌, ◌^◌, ◌≤◌, ◌<◌, ◌≡◌, ◌↔◌, refl, ap, ◌∙◌, sym, Bool, true, false, Option, some,
  List, [], ◌∷◌, length, drop, arith, All,
}
use sing_tun.Base.Bytes.{window, number, bytes32, get32, some_same}
use sing_tun.Checksum.Ones.{canon, word_sum}
use sing_tun.Checksum.Words.{IsByte}
use sing_tun.Checksum.Header.{checksum, pseudo_header_checksum}
use sing_tun.Checksum.Header.Update.{fold_in, pseudo_header_checksum_lem}
use sing_tun.Header.{ip_version, source_addr, destination_addr, tcp_checksum}
use sing_tun.Header.Fields.{get16_total, get32_total, number-bytes32, bytes32-number, length-window}
use sing_tun.Header.Update.{window-IsByte}
use sing_tun.System.{Packet, rewrite_ipv4_tcp}
use sing_tun.System.Rewrite.{
  Whole, HeaderStep, SegmentStep, rewrite_source_lem, rewrite_destination_lem,
}
use sing_tun.System.Ports.{IsPort, port_bytes, SegmentStep-trans, Resealed, rewrite_ports_lem}

-- The header's checksum is right, and that of the segment with its pseudo header.
abbrev pub HeaderValid : Packet → Type 0
HeaderValid p = checksum false 0 p.header 0 ≡ 65535

abbrev pub SegmentValid : Packet → Type 0
SegmentValid p =
    checksum false 0 p.payload
      (pseudo_header_checksum 6 (window p.header 12 4) (window p.header 16 4) (length p.payload))
    ≡ 65535

-- A TCP packet in a valid IPv4 packet: its headers are there.
pub record IsTcpPacket (p : Packet) : Type 0 where
  pub whole : Whole p
  pub version : ip_version p.header ≡ some 4
  pub small : length p.payload < 2 ^ 16

-- `q` is `p` with other addresses and ports: all else is the same, and valid checksums stay valid.
pub record Readdressed (p : Packet) (offload : Bool) (src dst : ℕ) (sport dport : Option ℕ)
    (q : Packet) : Type 0 where
  pub is_tcp : IsTcpPacket q
  pub source : source_addr q.header ≡ some src
  pub destination : destination_addr q.header ≡ some dst
  pub source_port : window q.payload 0 2 ≡ port_bytes sport (window p.payload 0 2)
  pub destination_port : window q.payload 2 2 ≡ port_bytes dport (window p.payload 2 2)
  pub front : window q.header 0 10 ≡ window p.header 0 10
  pub options : drop 20 q.header ≡ drop 20 p.header
  pub middle : window q.payload 4 12 ≡ window p.payload 4 12
  pub behind : drop 18 q.payload ≡ drop 18 p.payload
  pub trailer : q.trailer ≡ p.trailer
  pub header_valid : HeaderValid p → HeaderValid q
  pub segment_valid : offload ≡ false → SegmentValid p → SegmentValid q
  pub cleared : offload ≡ true → tcp_checksum q.payload ≡ some 0

pub canon_valid : (n : ℕ) → (canon n ≡ 65535) ↔ ((0 < n) × (n % 65535 ≡ 0))
unfolding canon
canon_valid n = ground arith

canon_zero : 0 ≡ canon 0
unfolding canon
canon_zero = refl

pub header_sum :
    (p : Packet)
    → All IsByte p.header
    → checksum false 0 p.header 0 ≡ canon (0 + word_sum false p.header)
header_sum p hb = fold_in p.header 0 0 hb canon_zero

pub segment_total : Packet → ℕ
segment_total p =
    word_sum false (window p.header 12 4)
    + word_sum false (window p.header 16 4)
    + length p.payload
    + 6
    + word_sum false p.payload

segment_sum :
    (p : Packet)
    → Whole p
    → length p.payload < 2 ^ 16
    → checksum false 0 p.payload
        (pseudo_header_checksum 6 (window p.header 12 4) (window p.header 16 4) (length p.payload))
      ≡ canon (segment_total p)
unfolding segment_total
segment_sum p v small = fold_in p.payload _ _ v.payload_bytes (
    pseudo_header_checksum_lem 6 (window p.header 12 4) (window p.header 16 4) (length p.payload)
      (omega arith) (window-IsByte p.header 12 4 v.header_bytes)
      (window-IsByte p.header 16 4 v.header_bytes) small)

abbrev first : List ℕ → ℕ
first [] = 0
first (x ∷ b) = x

-- A header of version 4 has a nonzero first byte, and so has what shares its front.
front_positive :
    (h r : List ℕ)
    → ip_version h ≡ some 4
    → window r 0 10 ≡ window h 0 10
    → (0 < word_sum false r) × (ip_version r ≡ some 4)
unfolding word_sum ip_version
front_positive [] r v e = cc
front_positive (x ∷ h) [] v e = cc
front_positive (x ∷ h) (y ∷ r) v e =
    let same : y ≡ x = ap first e in
    let four : x / 16 ≡ 4 = some_same _ _ v in
    (omega (arith, same, four), ap some (omega (arith, same, four)))

pub address_eq :
    (h : List ℕ) (at a : ℕ)
    → at + 4 ≤ length h
    → a < 2 ^ 32
    → window h at 4 ≡ bytes32 a
    → get32 h at ≡ some a
address_eq h at a room ha e =
    get32_total h at room ∙ ap some (ap (number 0) e ∙ number-bytes32 a ha)

-- What the steps on header and segment give.
readdressed :
    (p : Packet) (offload : Bool) (src dst : ℕ) (sport dport : Option ℕ) (q : Packet)
    → IsTcpPacket p
    → src < 2 ^ 32
    → dst < 2 ^ 32
    → HeaderStep p.header (bytes32 src) (bytes32 dst) q.header
    → SegmentStep p.payload
        (port_bytes sport (window p.payload 0 2))
        (port_bytes dport (window p.payload 2 2))
        q.payload
    → q.trailer ≡ p.trailer
    → (offload ≡ false
        → (word_sum false q.payload + word_sum false (bytes32 src) + word_sum false (bytes32 dst))
            % 65535
          ≡ (word_sum false p.payload
              + word_sum false (window p.header 12 4)
              + word_sum false (window p.header 16 4))
            % 65535)
    → (offload ≡ true → window q.payload 16 2 ≡ 0 ∷ 0 ∷ [])
    → Readdressed p offload src dst sport dport q
unfolding source_addr destination_addr tcp_checksum segment_total
readdressed p offload src dst sport dport q t hs hd h s trailer sum clear =
    let v = t.whole in
    let len = h.same_length in
    let fp = front_positive p.header q.header t.version h.front in
    let vq : Whole q = record {
      header_bytes = h.all_bytes;
      payload_bytes = s.all_bytes;
      header_room = omega (arith, len, v.header_room);
      payload_room = omega (arith, s.same_length, v.payload_room);
    } in
    let small : length q.payload < 2 ^ 16 = omega (arith, s.same_length, t.small) in
    record {
      is_tcp = record { whole = vq; version = fp.1; small = small };
      source = address_eq q.header 12 src (omega (arith, vq.header_room)) hs h.src_eq;
      destination = address_eq q.header 16 dst vq.header_room hd h.dst_eq;
      source_port = s.sport_eq;
      destination_port = s.dport_eq;
      front = h.front;
      options = h.options;
      middle = s.middle;
      behind = s.behind;
      trailer = trailer;
      header_valid = λ valid.
          let was = (canon_valid _).0 (sym (header_sum p v.header_bytes) ∙ valid) in
          header_sum q vq.header_bytes
          ∙ (canon_valid _).1 (omega (arith, fp.0), omega (arith, was.1, h.sum));
      segment_valid = λ e valid.
          let was = (canon_valid _).0 (sym (segment_sum p v t.small) ∙ valid) in
          segment_sum q vq small
          ∙ (canon_valid _).1 (
            omega arith,
            omega (
              arith,
              was.1,
              sum e,
              s.same_length,
              ap (word_sum false) h.src_eq,
              ap (word_sum false) h.dst_eq,
            ),
          );
      cleared = λ e. get16_total q.payload 16 vq.payload_room ∙ ap some (ap (number 0) (clear e));
    }

-- rewriteIPv4TCP does not panic on a packet with its headers, and leaves the packet with the given
-- addresses and ports and everything else as it was, its checksums as valid as they were; with
-- checksum offload the segment's checksum is cleared for the device.
pub rewrite_ipv4_tcp_lem :
    (p : Packet) (offload : Bool) (src : ℕ) (sport : Option ℕ) (dst : ℕ) (dport : Option ℕ)
    → IsTcpPacket p
    → src < 2 ^ 32
    → dst < 2 ^ 32
    → IsPort sport
    → IsPort dport
    → (q : Packet) × (rewrite_ipv4_tcp p offload src sport dst dport ≡ some q)
      × Readdressed p offload src dst sport dport q
unfolding rewrite_ipv4_tcp source_addr destination_addr tcp_checksum
rewrite_ipv4_tcp_lem p offload src sport dst dport t hs hd ps pd =
    let v = t.whole in
    let old_source = number 0 (window p.header 12 4) in
    let old_destination = number 0 (window p.header 16 4) in
    let same_source =
      bytes32-number (window p.header 12 4)
        (length-window p.header 12 4 (omega (arith, v.header_room)))
        (window-IsByte p.header 12 4 v.header_bytes) in
    let same_destination =
      bytes32-number (window p.header 16 4) (length-window p.header 16 4 v.header_room)
        (window-IsByte p.header 16 4 v.header_bytes) in
    let (p1, e1, a1) = rewrite_source_lem p offload old_source src v same_source in
    let v1 : Whole p1 = record {
      header_bytes = a1.header.all_bytes;
      payload_bytes = a1.segment.all_bytes;
      header_room = omega (arith, a1.header.same_length, v.header_room);
      payload_room = omega (arith, a1.segment.same_length, v.payload_room);
    } in
    let (p2, e2, a2) =
      rewrite_destination_lem p1 offload old_destination dst v1
        (same_destination ∙ sym a1.header.dst_eq) in
    let header : HeaderStep p.header (bytes32 src) (bytes32 dst) p2.header = record {
      same_length = a2.header.same_length ∙ a1.header.same_length;
      all_bytes = a2.header.all_bytes;
      front = a2.header.front ∙ a1.header.front;
      options = a2.header.options ∙ a1.header.options;
      src_eq = a2.header.src_eq ∙ a1.header.src_eq;
      dst_eq = a2.header.dst_eq;
      sum = a2.header.sum ∙ a1.header.sum;
    } in
    let room2 : 18 ≤ length p2.payload = omega (arith, a2.segment.same_length, v1.payload_room) in
    let (tcp, e3, s, sealed) =
      rewrite_ports_lem p2.payload offload sport dport room2 ps pd a2.segment.all_bytes in
    let q = record p2 { payload = tcp } in
    let a12 = SegmentStep-trans a1.segment a2.segment a1.segment.sport_eq a1.segment.dport_eq in
    let kept =
      SegmentStep-trans a12 s (ap (port_bytes sport) a12.sport_eq)
        (ap (port_bytes dport) a12.dport_eq) in
    (
      q,
      rw
          (
            get32_total p.header 12 (omega (arith, v.header_room)),
            get32_total p.header 16 v.header_room,
            e1,
            e2,
            e3,
          )
          refl,
      readdressed p offload src dst sport dport q t hs hd header kept (a2.trailer ∙ a1.trailer)
          (λ e.
            let s3 = subst (λ (o : Bool). Resealed o p2.payload tcp) e sealed in
            omega (
              arith,
              a1.sum e,
              a2.sum e,
              s3,
              ap (word_sum false) same_source,
              ap (word_sum false) same_destination,
            ))
          (λ e. subst (λ (o : Bool). Resealed o p2.payload tcp) e sealed),
    )
