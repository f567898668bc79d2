-- ===== src/System/Six/Echo.antt =====
-- The echo reply of processIPv6ICMP in stack_system.go.
use sing_tun.Base.{
  ℕ, ◌+◌, ◌-◌, ◌%◌, ◌^◌, ◌≤◌, ◌<◌, ◌≡◌, refl, ap, ◌∙◌, sym, false, some, List, [], ◌∷◌, length,
  drop, arith, All, take_all, length-drop,
}
use sing_tun.Base.Bytes.{
  patch, window, number, bytes16, get8, slice_total, length-patch, drop-patch, window-patch_self,
  window-patch_before, All-patch,
}
use sing_tun.Checksum.Ones.{canon, word_sum}
use sing_tun.Checksum.Words.{IsByte}
use sing_tun.Checksum.Header.{checksum, combine, complement, pseudo_header_checksum}
use sing_tun.Checksum.Header.Update.{fold_in, pseudo_header_checksum_lem}
use sing_tun.Header.{set_icmp_checksum}
use sing_tun.Header.Fields.{put-some, length-window}
use sing_tun.Header.Update.{window-IsByte, bytes16-IsByte}
use sing_tun.Header.Seal.{sealed}
use sing_tun.Header.Ipv6.{
  bytes128, source_addr6, destination_addr6, set_source_addr6, set_destination_addr6,
  icmpv6_checksum,
}
use sing_tun.Header.Address6.{bytes128-IsByte, get128_total, number_lt128}
use sing_tun.System.{Packet}
use sing_tun.System.Echo.{echo_bytes}
use sing_tun.System.Six.Sealed.{address_eq6}
use sing_tun.System.Six.Icmp.{echo_reply6}

-- An ICMPv6 message in an IPv6 packet without extension headers.
pub record IsIcmpPacket6 (p : Packet) : Type 0 where
  pub header_bytes : All IsByte p.header
  pub payload_bytes : All IsByte p.payload
  pub header_room : 40 ≤ length p.header
  pub payload_room : 4 ≤ length p.payload
  pub small : length p.payload < 2 ^ 16

-- The checksum of a message with its pseudo header is right.
abbrev pub IcmpValid6 : List ℕ → List ℕ → List ℕ → Type 0
IcmpValid6 src dst b = checksum false 0 b (pseudo_header_checksum 58 src dst (length b)) ≡ 65535

-- `q` answers `p`.
pub record IsEcho6 (p q : Packet) : Type 0 where
  pub source : source_addr6 q.header ≡ destination_addr6 p.header
  pub destination : destination_addr6 q.header ≡ source_addr6 p.header
  pub kind : get8 q.payload 0 ≡ some 129
  pub code : get8 q.payload 1 ≡ get8 p.payload 1
  pub message : drop 4 q.payload ≡ drop 4 p.payload
  pub front : window q.header 0 8 ≡ window p.header 0 8
  pub after : drop 40 q.header ≡ drop 40 p.header
  pub trailer : q.trailer ≡ p.trailer
  pub icmp_valid : IcmpValid6 (window q.header 8 16) (window q.header 24 16) q.payload

combine_zero : (n : ℕ) → combine (canon n) 0 ≡ canon n
unfolding combine canon
combine_zero n = ground arith

icmp_sealed6 :
    (b src dst : List ℕ)
    → 4 ≤ length b
    → length b < 2 ^ 16
    → All IsByte b
    → All IsByte src
    → All IsByte dst
    → (c : ℕ) × (icmpv6_checksum b src dst 0 0 ≡ some (complement c))
      × (set_icmp_checksum b (complement c) ≡ some (patch b 2 (bytes16 (complement c))))
      × IcmpValid6 src dst (patch b 2 (bytes16 (complement c)))
unfolding icmpv6_checksum set_icmp_checksum
icmp_sealed6 b src dst h small hb hs hd =
    let front = window b 0 2 in
    let back = window b 4 (length b - 4) in
    let back_eq : back ≡ drop 4 b =
      take_all (length b - 4) (drop 4 b) (omega (arith, length-drop 4 b)) in
    let len : (length b + 0) % 2 ^ 16 ≡ length b = omega arith in
    let n = word_sum false src + word_sum false dst + length b + 58 in
    let pseudo = pseudo_header_checksum_lem 58 src dst (length b) (omega arith) hs hd small in
    let start : combine (pseudo_header_checksum 58 src dst ((length b + 0) % 2 ^ 16)) 0 ≡ canon n =
      ap (λ (l : ℕ). combine (pseudo_header_checksum 58 src dst l) 0) len
      ∙ ap (λ (x : ℕ). combine x 0) pseudo
      ∙ combine_zero n in
    let first = combine (pseudo_header_checksum 58 src dst ((length b + 0) % 2 ^ 16)) 0 in
    let c = checksum false 0 back (checksum false 0 front first) in
    let r = patch b 2 (bytes16 (complement c)) in
    (
      c,
      rw
          (
            slice_total b 0 2 (omega arith) (omega arith),
            slice_total b 4 (length b) (omega arith) (omega arith),
          )
          refl,
      put-some b 2 (bytes16 (complement c)) (omega arith),
      fold_in r _ n (All-patch IsByte b 2 _ hb (bytes16-IsByte (complement c)))
            (ap (pseudo_header_checksum 58 src dst) (length-patch b 2 _) ∙ pseudo)
          ∙ sealed 2 n b c refl (omega arith) (
              fold_in back _ _ (window-IsByte b 4 _ hb)
                (fold_in front _ n (window-IsByte b 0 2 hb) start)
              ∙ ap (λ (x : List ℕ). canon (n + word_sum false front + word_sum false x)) back_eq),
    )

-- The answer to an IPv6 echo request swaps its addresses, has type 129 and the request's message, and
-- a checksum that is right, whatever that of the request was.
pub echo_reply6_lem :
    (p : Packet) → IsIcmpPacket6 p → (q : Packet) × (echo_reply6 p ≡ some q) × IsEcho6 p q
unfolding echo_reply6 source_addr6 destination_addr6 set_source_addr6 set_destination_addr6
echo_reply6_lem p t =
    let h = p.header in
    let src = number 0 (window h 8 16) in
    let dst = number 0 (window h 24 16) in
    let src_room : 8 + 16 ≤ length h = omega (arith, t.header_room) in
    let src_fits =
      number_lt128 (window h 8 16) (length-window h 8 16 src_room)
        (window-IsByte h 8 16 t.header_bytes) in
    let dst_fits =
      number_lt128 (window h 24 16) (length-window h 24 16 t.header_room)
        (window-IsByte h 24 16 t.header_bytes) in
    let h1 = patch h 8 (bytes128 dst) in
    let h2 = patch h1 24 (bytes128 src) in
    let h1_length = length-patch h 8 (bytes128 dst) in
    let h2_length = length-patch h1 24 (bytes128 src) ∙ h1_length in
    let src_eq : window h2 8 16 ≡ bytes128 dst =
      window-patch_before h1 24 8 16 (bytes128 src) (omega arith)
      ∙ window-patch_self h 8 16 (bytes128 dst) src_room refl in
    let dst_eq : window h2 24 16 ≡ bytes128 src =
      window-patch_self h1 24 16 (bytes128 src) (omega (arith, h1_length, t.header_room)) refl in
    let icmp = patch p.payload 0 (129 ∷ []) in
    let icmp_length = length-patch p.payload 0 (129 ∷ []) in
    let (m, m_made, m_written, m_valid) =
      icmp_sealed6 icmp (bytes128 dst) (bytes128 src) (omega (arith, icmp_length, t.payload_room))
        (omega (arith, icmp_length, t.small))
        (All-patch IsByte p.payload 0 (129 ∷ []) t.payload_bytes (omega arith, tt))
        (bytes128-IsByte dst) (bytes128-IsByte src) in
    let icmp' = patch icmp 2 (bytes16 (complement m)) in
    let same = echo_bytes 129 p.payload (complement m) t.payload_room in
    (
      record p { header = h2; payload = icmp' },
      rw
          (
            put-some p.payload 0 (129 ∷ []) (omega (arith, t.payload_room)),
            get128_total h 8 src_room,
            get128_total h 24 t.header_room,
            put-some h 8 (bytes128 dst) src_room,
            put-some h1 24 (bytes128 src) (omega (arith, h1_length, t.header_room)),
            m_made,
            m_written,
          )
          refl,
      record {
        source =
            address_eq6 h2 8 dst (omega (arith, h2_length, t.header_room)) dst_fits src_eq
            ∙ sym (get128_total h 24 t.header_room);
        destination =
            address_eq6 h2 24 src (omega (arith, h2_length, t.header_room)) src_fits dst_eq
            ∙ sym (get128_total h 8 src_room);
        kind = same.0;
        code = same.1;
        message = same.2;
        front =
            window-patch_before h1 24 0 8 (bytes128 src) (omega arith)
            ∙ window-patch_before h 8 0 8 (bytes128 dst) (omega arith);
        after =
            drop-patch 40 h1 24 (bytes128 src) (omega arith)
            ∙ drop-patch 40 h 8 (bytes128 dst) (omega arith);
        trailer = refl;
        icmp_valid = rw (src_eq, dst_eq) m_valid;
      },
    )
