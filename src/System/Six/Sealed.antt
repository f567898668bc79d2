-- ===== src/System/Six/Sealed.antt =====
-- rewriteIPv6TCP as a whole: the packet that it leaves, and the checksum of its segment.
use mathlib.Core.Path.{subst}
use sing_tun.Base.{
  ℕ, ◌+◌, ◌%◌, ◌^◌, ◌≤◌, ◌<◌, ◌≡◌, refl, ap, ◌∙◌, sym, Bool, true, false, Option, some, List, [],
  ◌∷◌, length, drop, arith,
}
use sing_tun.Base.Bytes.{window, number}
use sing_tun.Checksum.Ones.{canon, word_sum}
use sing_tun.Checksum.Header.{checksum, pseudo_header_checksum}
use sing_tun.Checksum.Header.Update.{fold_in, pseudo_header_checksum_lem}
use sing_tun.Header.{tcp_checksum}
use sing_tun.Header.Fields.{get16_total, length-window}
use sing_tun.Header.Update.{window-IsByte}
use sing_tun.Header.Ipv6.{bytes128, get128, source_addr6, destination_addr6}
use sing_tun.Header.Address6.{number-bytes128, bytes128-number, get128_total}
use sing_tun.System.{Packet}
use sing_tun.System.Ports.{IsPort, port_bytes, SegmentStep-trans, Resealed, rewrite_ports_lem}
use sing_tun.System.Rewrite.{SegmentStep}
use sing_tun.System.Sealed.{canon_valid}
use sing_tun.System.Six.{rewrite_ipv6_tcp}
use sing_tun.System.Six.Rewrite.{Whole6, HeaderStep6, rewrite_source6_lem, rewrite_destination6_lem}

-- The checksum of the segment with its pseudo header is right.
abbrev pub SegmentValid6 : Packet → Type 0
SegmentValid6 p =
    checksum false 0 p.payload
      (pseudo_header_checksum 6 (window p.header 8 16) (window p.header 24 16) (length p.payload))
    ≡ 65535

-- A TCP packet without extension headers: its headers are there.
pub record IsTcpPacket6 (p : Packet) : Type 0 where
  pub whole : Whole6 p
  pub small : length p.payload < 2 ^ 16

-- `q` is `p` with other addresses and ports: all else is the same, and a valid checksum stays valid.
pub record Readdressed6 (p : Packet) (offload : Bool) (src dst : ℕ) (sport dport : Option ℕ)
    (q : Packet) : Type 0 where
  pub is_tcp : IsTcpPacket6 q
  pub source : source_addr6 q.header ≡ some src
  pub destination : destination_addr6 q.header ≡ some dst
  pub source_port : window q.payload 0 2 ≡ port_bytes sport (window p.payload 0 2)
  pub destination_port : window q.payload 2 2 ≡ port_bytes dport (window p.payload 2 2)
  pub front : window q.header 0 8 ≡ window p.header 0 8
  pub after : drop 40 q.header ≡ drop 40 p.header
  pub middle : window q.payload 4 12 ≡ window p.payload 4 12
  pub behind : drop 18 q.payload ≡ drop 18 p.payload
  pub trailer : q.trailer ≡ p.trailer
  pub segment_valid : offload ≡ false → SegmentValid6 p → SegmentValid6 q
  pub cleared : offload ≡ true → tcp_checksum q.payload ≡ some 0

unfoldable segment_total6 : Packet → ℕ
segment_total6 p =
    word_sum false (window p.header 8 16)
    + word_sum false (window p.header 24 16)
    + length p.payload
    + 6
    + word_sum false p.payload

segment_sum6 :
    (p : Packet)
    → Whole6 p
    → length p.payload < 2 ^ 16
    → checksum false 0 p.payload
        (pseudo_header_checksum 6 (window p.header 8 16) (window p.header 24 16) (length p.payload))
      ≡ canon (segment_total6 p)
unfolding segment_total6
segment_sum6 p v small = fold_in p.payload _ _ v.payload_bytes (
    pseudo_header_checksum_lem 6 (window p.header 8 16) (window p.header 24 16) (length p.payload)
      (omega arith) (window-IsByte p.header 8 16 v.header_bytes)
      (window-IsByte p.header 24 16 v.header_bytes) small)

pub address_eq6 :
    (h : List ℕ) (at a : ℕ)
    → at + 16 ≤ length h
    → a < 2 ^ 128
    → window h at 16 ≡ bytes128 a
    → get128 h at ≡ some a
address_eq6 h at a room ha e =
    get128_total h at room ∙ ap some (ap (number 0) e ∙ number-bytes128 a ha)

-- What the steps on header and segment give.
readdressed6 :
    (p : Packet) (offload : Bool) (src dst : ℕ) (sport dport : Option ℕ) (q : Packet)
    → IsTcpPacket6 p
    → src < 2 ^ 128
    → dst < 2 ^ 128
    → HeaderStep6 p.header (bytes128 src) (bytes128 dst) q.header
    → SegmentStep p.payload
        (port_bytes sport (window p.payload 0 2))
        (port_bytes dport (window p.payload 2 2))
        q.payload
    → q.trailer ≡ p.trailer
    → (offload ≡ false
        → (word_sum false q.payload + word_sum false (bytes128 src) + word_sum false (bytes128 dst))
            % 65535
          ≡ (word_sum false p.payload
              + word_sum false (window p.header 8 16)
              + word_sum false (window p.header 24 16))
            % 65535)
    → (offload ≡ true → window q.payload 16 2 ≡ 0 ∷ 0 ∷ [])
    → Readdressed6 p offload src dst sport dport q
unfolding source_addr6 destination_addr6 tcp_checksum segment_total6
readdressed6 p offload src dst sport dport q t hs hd h s trailer sum clear =
    let v = t.whole in
    let vq : Whole6 q = record {
      header_bytes = h.all_bytes;
      payload_bytes = s.all_bytes;
      header_room = omega (arith, h.same_length, v.header_room);
      payload_room = omega (arith, s.same_length, v.payload_room);
    } in
    let small : length q.payload < 2 ^ 16 = omega (arith, s.same_length, t.small) in
    record {
      is_tcp = record { whole = vq; small = small };
      source = address_eq6 q.header 8 src (omega (arith, vq.header_room)) hs h.src_eq;
      destination = address_eq6 q.header 24 dst vq.header_room hd h.dst_eq;
      source_port = s.sport_eq;
      destination_port = s.dport_eq;
      front = h.front;
      after = h.behind;
      middle = s.middle;
      behind = s.behind;
      trailer = trailer;
      segment_valid = λ e valid.
          let was = (canon_valid _).0 (sym (segment_sum6 p v t.small) ∙ valid) in
          segment_sum6 q vq small
          ∙ (canon_valid _).1 (
            omega arith,
            omega (
              arith,
              was.1,
              sum e,
              s.same_length,
              ap (word_sum false) h.src_eq,
              ap (word_sum false) h.dst_eq,
            ),
          );
      cleared = λ e. get16_total q.payload 16 vq.payload_room ∙ ap some (ap (number 0) (clear e));
    }

-- rewriteIPv6TCP does not panic on a packet with its headers, and leaves the packet with the given
-- addresses and ports and everything else as it was, the checksum of its segment as valid as it was;
-- with checksum offload it is cleared for the device.
pub rewrite_ipv6_tcp_lem :
    (p : Packet) (offload : Bool) (src : ℕ) (sport : Option ℕ) (dst : ℕ) (dport : Option ℕ)
    → IsTcpPacket6 p
    → src < 2 ^ 128
    → dst < 2 ^ 128
    → IsPort sport
    → IsPort dport
    → (q : Packet) × (rewrite_ipv6_tcp p offload src sport dst dport ≡ some q)
      × Readdressed6 p offload src dst sport dport q
unfolding rewrite_ipv6_tcp source_addr6 destination_addr6
rewrite_ipv6_tcp_lem p offload src sport dst dport t hs hd ps pd =
    let v = t.whole in
    let src_room : 8 + 16 ≤ length p.header = omega (arith, v.header_room) in
    let old_source = number 0 (window p.header 8 16) in
    let old_destination = number 0 (window p.header 24 16) in
    let same_source =
      bytes128-number (window p.header 8 16) (length-window p.header 8 16 src_room)
        (window-IsByte p.header 8 16 v.header_bytes) in
    let same_destination =
      bytes128-number (window p.header 24 16) (length-window p.header 24 16 v.header_room)
        (window-IsByte p.header 24 16 v.header_bytes) in
    let (p1, e1, a1) = rewrite_source6_lem p offload old_source src v same_source in
    let v1 : Whole6 p1 = record {
      header_bytes = a1.header.all_bytes;
      payload_bytes = a1.segment.all_bytes;
      header_room = omega (arith, a1.header.same_length, v.header_room);
      payload_room = omega (arith, a1.segment.same_length, v.payload_room);
    } in
    let (p2, e2, a2) =
      rewrite_destination6_lem p1 offload old_destination dst v1
        (same_destination ∙ sym a1.header.dst_eq) in
    let header : HeaderStep6 p.header (bytes128 src) (bytes128 dst) p2.header = record {
      same_length = a2.header.same_length ∙ a1.header.same_length;
      all_bytes = a2.header.all_bytes;
      front = a2.header.front ∙ a1.header.front;
      behind = a2.header.behind ∙ a1.header.behind;
      src_eq = a2.header.src_eq ∙ a1.header.src_eq;
      dst_eq = a2.header.dst_eq;
    } in
    let room2 : 18 ≤ length p2.payload = omega (arith, a2.segment.same_length, v1.payload_room) in
    let (tcp, e3, s, sealed) =
      rewrite_ports_lem p2.payload offload sport dport room2 ps pd a2.segment.all_bytes in
    let a12 = SegmentStep-trans a1.segment a2.segment a1.segment.sport_eq a1.segment.dport_eq in
    let kept =
      SegmentStep-trans a12 s (ap (port_bytes sport) a12.sport_eq)
        (ap (port_bytes dport) a12.dport_eq) in
    let got : (o : Bool) → offload ≡ o → Resealed o p2.payload tcp =
      λ o e. subst (λ (x : Bool). Resealed x p2.payload tcp) e sealed in
    (
      record p2 { payload = tcp },
      rw (get128_total p.header 8 src_room, get128_total p.header 24 v.header_room, e1, e2, e3)
          refl,
      readdressed6 p offload src dst sport dport (record p2 { payload = tcp }) t hs hd header kept
          (a2.trailer ∙ a1.trailer)
          (λ e. omega (
            arith,
            a1.sum e,
            a2.sum e,
            got false e,
            ap (word_sum false) same_source,
            ap (word_sum false) same_destination,
          ))
          (got true),
    )
