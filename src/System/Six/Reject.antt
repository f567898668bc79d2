-- ===== src/System/Six/Reject.antt =====
-- rejectIPv6WithICMP of stack_system.go: the ICMPv6 error that it writes.
use mathlib.Core.Path.{subst}
use sing_tun.Base.{
  ℕ, ◌+◌, ◌-◌, ◌%◌, ◌^◌, ◌≤◌, ◌<◌, ◌≡◌, refl, ap, ◌∙◌, sym, true, false, Option, none, some, List,
  [], ◌∷◌, ◌++◌, length, drop, take, take_all, take-append_exact, length-take, arith, All, All-take,
  ltb, if◌then◌else◌, Bool-cases, inl, inr,
}
use sing_tun.Base.Bytes.{patch, bytes16, get8, get16, slice_total}
use sing_tun.Checksum.Ones.{canon, word_sum, odd_after, word_sum-append}
use sing_tun.Checksum.Words.{IsByte}
use sing_tun.Checksum.Header.{checksum, combine, complement, pseudo_header_checksum}
use sing_tun.Checksum.Header.Update.{fold_in, pseudo_header_checksum_lem}
use sing_tun.Header.{ip_version, set_icmp_checksum}
use sing_tun.Header.Fields.{put-some, get16_total, number-bytes16}
use sing_tun.Header.Seal.{sealed}
use sing_tun.Header.Ipv6.{
  bytes128, source_addr6, destination_addr6, encode_ipv6, icmpv6_checksum, payload_length6,
  transport_protocol6,
}
use sing_tun.Header.Address6.{bytes128-IsByte, number-bytes128, get128_total}
use sing_tun.System.{System, Packet, bytes}
use sing_tun.System.Six.Route.{get128_fits}
use sing_tun.System.Six.Echo.{IcmpValid6}
use sing_tun.System.Six.Icmp.{unreachable6, reject_ipv6}

-- The part of the packet that the error quotes.
abbrev pub quoted_part : ℕ → List ℕ → List ℕ
quoted_part mtu b = take ((if ltb 1240 mtu then 1240 else mtu) - 8) b

-- The message that rejects a packet.
pub record IsRejection (code : ℕ) (src dst : ℕ) (quoted : List ℕ) (icmp : List ℕ) : Type 0 where
  pub kind : get8 icmp 0 ≡ some 1
  pub code_eq : get8 icmp 1 ≡ some code
  pub quotes : drop 8 icmp ≡ quoted
  pub length_eq : length icmp ≡ 8 + length quoted
  pub valid : IcmpValid6 (bytes128 src) (bytes128 dst) icmp

-- The IPv6 header in front of the message: version 6, no extension header, ICMPv6, and the addresses.
pub record IsCarrier (src dst size : ℕ) (ip : List ℕ) : Type 0 where
  pub ip_length : length ip ≡ 40
  pub version : ip_version ip ≡ some 6
  pub payload_size : payload_length6 ip ≡ some size
  pub protocol : transport_protocol6 ip ≡ some 58
  pub source : source_addr6 ip ≡ some src
  pub destination : destination_addr6 ip ≡ some dst

encode_ipv6-IsCarrier :
    (src dst size : ℕ)
    → src < 2 ^ 128
    → dst < 2 ^ 128
    → size < 2 ^ 16
    → IsCarrier src dst size (encode_ipv6 size 58 src dst)
unfolding ip_version payload_length6 transport_protocol6 source_addr6 destination_addr6 get8 get16
encode_ipv6-IsCarrier src dst size hs hd h =
    let ip = encode_ipv6 size 58 src dst in
    record {
      ip_length = refl;
      version = refl;
      payload_size = get16_total ip 4 (omega arith) ∙ ap some (number-bytes16 size h);
      protocol = refl;
      source = get128_total ip 8 (omega arith) ∙ ap some (number-bytes128 src hs);
      destination = get128_total ip 24 (omega arith) ∙ ap some (number-bytes128 dst hd);
    }

combine-canon : (a b : ℕ) → combine (canon a) (canon b) ≡ canon (a + b)
unfolding combine canon
combine-canon a b = ground arith

message :
    (src dst code a b c d : ℕ) (quoted : List ℕ)
    → code < 256
    → (a < 256) × (b < 256) × (c < 256) × (d < 256)
    → All IsByte quoted
    → length quoted < 2 ^ 15
    → (icmp : List ℕ) × (unreachable6 src dst code (a ∷ b ∷ c ∷ d ∷ []) quoted ≡ some icmp)
      × IsRejection code src dst quoted icmp
unfolding unreachable6 icmpv6_checksum set_icmp_checksum get8
message src dst code a b c d quoted hc hs hq small =
    let head = 1 ∷ code ∷ 0 ∷ 0 ∷ a ∷ b ∷ c ∷ d ∷ [] in
    let s = bytes128 src in
    let t = bytes128 dst in
    let len = length quoted in
    let total : (8 + len) % 2 ^ 16 ≡ 8 + len = omega arith in
    let m = word_sum false s + word_sum false t + (8 + len) + 58 in
    let pseudo =
      pseudo_header_checksum_lem 58 s t (8 + len) (omega arith) (bytes128-IsByte src)
        (bytes128-IsByte dst) (omega arith) in
    let start : combine (pseudo_header_checksum 58 s t ((8 + len) % 2 ^ 16))
          (checksum false 0 quoted 0)
        ≡ canon (m + word_sum false quoted) =
      ap (λ (l : ℕ). combine (pseudo_header_checksum 58 s t l) (checksum false 0 quoted 0)) total
      ∙ ap (λ (x : ℕ). combine x (checksum false 0 quoted 0)) pseudo
      ∙ ap (combine (canon m)) (fold_in quoted 0 0 hq (unfold canon in refl))
      ∙ combine-canon m (0 + word_sum false quoted)
      ∙ ap canon (omega arith) in
    let first =
      combine (pseudo_header_checksum 58 s t ((8 + len) % 2 ^ 16)) (checksum false 0 quoted 0) in
    let front = 1 ∷ code ∷ [] in
    let back = a ∷ b ∷ c ∷ d ∷ [] in
    let k = checksum false 0 back (checksum false 0 front first) in
    let v = complement k in
    let n = m + word_sum false quoted in
    let head' = patch head 2 (bytes16 v) in
    let right : canon (n + word_sum false head') ≡ 65535 = sealed 2 n head k refl (omega arith) (
      fold_in back _ _ (hs.0, (hs.1, (hs.2, (hs.3, tt))))
        (fold_in front _ n (omega arith, (hc, tt)) start)) in
    let whole : All IsByte (head' ++ quoted) =
      (omega arith, (hc, (omega arith, (omega arith, (hs.0, (hs.1, (hs.2, (hs.3, hq)))))))) in
    let size : length (head' ++ quoted) ≡ 8 + length quoted = omega arith in
    let split : word_sum false (head' ++ quoted) ≡ word_sum false head' + word_sum false quoted =
      word_sum-append false head' quoted ∙ unfold odd_after in refl in
    (
      head' ++ quoted,
      rw
          (
            slice_total head 0 2 (omega arith) (omega arith),
            slice_total head 4 8 (omega arith) (omega arith),
          )
          (rw (put-some head 2 (bytes16 v) (omega arith)) refl),
      record {
        kind = refl;
        code_eq = refl;
        quotes = refl;
        length_eq = size;
        valid =
            fold_in (head' ++ quoted) _ m whole (ap (pseudo_header_checksum 58 s t) size ∙ pseudo)
            ∙ ap canon (omega (arith, split))
            ∙ right;
      },
    )

limited : (n : ℕ) (b : List ℕ) → (if ltb n (length b) then take n b else b) ≡ take n b
limited n b = elim (Bool-cases (ltb n (length b))) [
  | inl e ↦ rw e refl
  | inr e ↦ rw e (sym (take_all n b (ground arith)))
]

abbrev limit : ℕ → ℕ
limit mtu = if ltb 1240 mtu then 1240 else mtu

-- What rejectIPv6WithICMP writes for a packet, if the MTU has room for the quoted header.
abbrev pub Rejects : ℕ → List ℕ → ℕ → ℕ → ℕ → Option (Option (List ℕ)) → Type 0
Rejects mtu b code src dst result =
    if ltb mtu 48
    then result ≡ some none
    else (ip : List ℕ) × (icmp : List ℕ) × (result ≡ some (some (ip ++ icmp)))
      × IsCarrier dst src (length icmp) ip
      × IsRejection code dst src (quoted_part mtu b) icmp
      × (40 + length icmp ≤ 1280)

limit_small : (mtu : ℕ) → ltb mtu 48 ≡ true → ltb (limit mtu) 48 ≡ true
limit_small mtu e = ground arith

limit_large :
    (mtu : ℕ)
    → ltb mtu 48 ≡ false
    → (ltb (limit mtu) 48 ≡ false) × (limit mtu ≤ 1240) × (48 ≤ limit mtu)
limit_large mtu e = ground arith

-- rejectIPv6WithICMP writes nothing if the MTU is below 48; otherwise it writes a packet of at most
-- 1280 bytes from the destination to the source of the rejected packet, in a header of version 6 that
-- gives the message's length and protocol 58 (ICMPv6), with a message of
-- type 1 and the given code that quotes as much of the rejected packet as fits, and its checksum is
-- right whatever the buffer's unwritten bytes were.
pub reject_ipv6_lem :
    (s : System) (p : Packet) (code a b c d src dst : ℕ)
    → code < 256
    → (a < 256) × (b < 256) × (c < 256) × (d < 256)
    → 40 ≤ length p.header
    → All IsByte (bytes p)
    → source_addr6 p.header ≡ some src
    → destination_addr6 p.header ≡ some dst
    → Rejects s.mtu (bytes p) code src dst (reject_ipv6 s p code (a ∷ b ∷ c ∷ d ∷ []))
unfolding reject_ipv6 source_addr6 destination_addr6
reject_ipv6_lem s p code a b c d src dst hc hs room hb es ed = elim (Bool-cases (ltb s.mtu 48)) [
  | inl e ↦ rw (e, limit_small s.mtu e) refl
  | inr e ↦
      let l = limit_large s.mtu e in
      let n = limit s.mtu - 8 in
      let quoted = take n (bytes p) in
      let short : length quoted ≤ 1232 = omega (arith, length-take n (bytes p), l.1) in
      let (icmp, made, is) =
        message dst src code a b c d quoted hc hs (All-take IsByte n (bytes p) hb) (omega arith) in
      let head =
        subst (All IsByte)
          (take-append_exact (length p.header) p.header (p.payload ++ p.trailer) refl)
          (All-take IsByte (length p.header) (bytes p) hb) in
      rw e (
        encode_ipv6 (length icmp) 58 dst src,
        icmp,
        rw (l.0, limited n (bytes p), es, ed, made, sym is.length_eq) refl,
        encode_ipv6-IsCarrier dst src (length icmp) (get128_fits p.header 24 dst room head ed)
            (get128_fits p.header 8 src (omega arith) head es) (omega (arith, is.length_eq)),
        is,
        omega (arith, is.length_eq),
      )
]
