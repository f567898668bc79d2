-- ===== src/Gso/Sums.antt =====
-- The transport checksum that GSOSplit writes into a segment.
use mathlib.Core.Path.{subst}
use sing_tun.Base.{
  ℕ, ◌+◌, ◌-◌, ◌*◌, ◌/◌, ◌%◌, ◌^◌, ◌<◌, ◌≡◌, ap, ◌∙◌, Bool, true, false, some, List, [], ◌∷◌, ◌==◌,
  if◌then◌else◌, arith, All, Bool-cases, inl, inr,
}
use sing_tun.Base.Bytes.{patch, window, bytes16, bytes32, put, get16, slice, some_same, All-patch}
use sing_tun.Checksum.Ones.{canon, word_sum, canon-le, canon-canon-add}
use sing_tun.Checksum.Words.{IsByte}
use sing_tun.Checksum.Header.{combine, complement, normalize_udp_checksum}
use sing_tun.Checksum.Header.Update.{checksum_lem, combine_lem}
use sing_tun.Gso.{
  GsoOptions, Plan, set_id, set_ip_header, set_transport_header, segment, segment_size, is_tcp, u16,
  segment_seq, clear_fin_psh,
}
use sing_tun.Gso.Segment.{Layout, data_end, Stages, segment-Stages, set_checksum-Summed}
use sing_tun.Gso.Seal.{sealed, bytes16-IsByte, window-IsByte, Bytewise, bind-Bytewise, put-Bytewise}

bytes32-IsByte : (v : ℕ) → All IsByte (bytes32 v)
bytes32-IsByte v = (omega arith, (omega arith, (omega arith, (omega arith, tt))))

pub set_id-Bytewise : (i : ℕ) (out : List ℕ) → All IsByte out → Bytewise (set_id i out)
unfolding set_id
set_id-Bytewise i out h = elim (Bool-cases (i == 0)) [
  | inl z ↦ rw z (λ r e. subst (All IsByte) (some_same out r e) h)
  | inr z ↦ rw z (
      bind-Bytewise (get16 out 4) _
        λ id _. put-Bytewise out 4 (bytes16 (id + i)) h (bytes16-IsByte _))
]

set_ip_header-Bytewise :
    (o : GsoOptions) (v6 : Bool) (i total : ℕ) (out : List ℕ)
    → All IsByte out
    → Bytewise (set_ip_header o v6 i total out)
unfolding set_ip_header
set_ip_header-Bytewise o true i total out h = put-Bytewise out 4 _ h (bytes16-IsByte _)
set_ip_header-Bytewise o false i total out h = bind-Bytewise (set_id i out) _ λ out1 e1.
    bind-Bytewise (put out1 10 (0 ∷ 0 ∷ [])) _ λ out2 e2.
      bind-Bytewise (put out2 2 (bytes16 total)) _ λ out3 e3.
        bind-Bytewise (slice out3 0 o.csum_start) _ λ header _.
          let h1 = set_id-Bytewise i out h out1 e1 in
          let h2 = put-Bytewise out1 10 (0 ∷ 0 ∷ []) h1 (bytes16-IsByte 0) out2 e2 in
          let h3 = put-Bytewise out2 2 (bytes16 total) h2 (bytes16-IsByte total) out3 e3 in
          put-Bytewise out3 10 _ h3 (bytes16-IsByte _)

set_transport_header-Bytewise :
    (o : GsoOptions) (p : Plan) (i : ℕ) (last : Bool) (data_len : ℕ) (out : List ℕ)
    → IsByte p.src_flags
    → All IsByte out
    → Bytewise (set_transport_header o p i last data_len out)
unfolding set_transport_header
set_transport_header-Bytewise o p i last data_len out f h = elim (Bool-cases (is_tcp o.gso_type)) [
  | inl z ↦
      let flag : IsByte (if last then p.src_flags else clear_fin_psh p.src_flags) = ground arith in
      rw z (
        bind-Bytewise (put out (u16 (o.csum_start + 4)) (bytes32 (segment_seq o p.first_seq i))) _
          λ out1 e1.
            put-Bytewise out1 _ _ (put-Bytewise out _ _ h (bytes32-IsByte _) out1 e1) (flag, tt))
  | inr z ↦ rw z (put-Bytewise out _ _ h (bytes16-IsByte _))
]

-- Normalising a UDP checksum leaves its ones' complement value as it is.
written_sum :
    (tcp : Bool) (x : ℕ)
    → (if tcp then 65535 - canon x else normalize_udp_checksum (65535 - canon x)) < 2 ^ 16
      × (canon (x + (if tcp then 65535 - canon x else normalize_udp_checksum (65535 - canon x)))
          ≡ 65535)
unfolding normalize_udp_checksum canon
written_sum tcp x = (ground arith, ground arith)

module _ (o : GsoOptions) (inp : List ℕ) (p : Plan) (i at : ℕ) (out seg : List ℕ)
    (st : Stages o inp p i at out seg) (inp_bytes : All IsByte inp) (out_bytes : All IsByte out)
    (flags : IsByte p.src_flags) where
  pub out1-IsByte : All IsByte st.out1
  out1-IsByte =
      rw st.copied
        (All-patch IsByte out 0 _ out_bytes (window-IsByte inp 0 (o.hdr_len - 0) inp_bytes))

  out2-IsByte : All IsByte st.out2
  out2-IsByte =
      set_ip_header-Bytewise o p.v6 i (segment_size o inp at) st.out1 out1-IsByte st.out2
        st.ip_header

  out3-IsByte : All IsByte st.out3
  out3-IsByte =
      set_transport_header-Bytewise o p i _ _ st.out2 flags out2-IsByte st.out3 st.transport_header

  pub out4-IsByte : All IsByte st.out4
  out4-IsByte =
      rw st.payload
        (All-patch IsByte st.out3 o.hdr_len _ out3-IsByte (window-IsByte inp at _ inp_bytes))

-- The transport checksum of a segment is valid: with the pseudo header and the length, the bytes
-- from the transport header on sum to zero in ones' complement.
pub segment_checksum :
    (o : GsoOptions) (inp : List ℕ) (p : Plan) (i at : ℕ) (out seg : List ℕ)
    → Layout o
    → o.csum_offset % 2 ≡ 0
    → All IsByte inp
    → All IsByte out
    → IsByte p.src_flags
    → p.pseudo < 2 ^ 16
    → segment_size o inp at < 2 ^ 16
    → segment o inp p i at out ≡ some seg
    → canon (
        p.pseudo
        + (segment_size o inp at - o.csum_start)
        + word_sum false (window seg o.csum_start (segment_size o inp at - o.csum_start)))
      ≡ 65535
unfolding segment_size
segment_checksum o inp p i at out seg l even hi ho hf hp hs h =
    let st = segment-Stages o inp p i at out h in
    let len = data_end o inp at - at in
    let s = set_checksum-Summed o p len (segment_size o inp at) st.out4 st.checksummed in
    let n = segment_size o inp at - o.csum_start in
    let k = o.csum_offset / 2 in
    let at_even : s.at ≡ o.csum_start + 2 * k = omega (arith, s.at_eq, l.field, l.small) in
    let cleared_even : s.cleared ≡ patch st.out4 (o.csum_start + 2 * k) (0 ∷ 0 ∷ []) =
      s.cleared_eq ∙ ap (λ (a : ℕ). patch st.out4 a (0 ∷ 0 ∷ [])) at_even in
    let cleared_bytes : All IsByte s.cleared = rw cleared_even (
      All-patch IsByte st.out4 _ _ (out4-IsByte o inp p i at out seg st hi ho hf)
        (bytes16-IsByte 0)) in
    let w = word_sum false (window s.cleared o.csum_start n) in
    let x = p.pseudo + n + w in
    let header_len : u16 (o.hdr_len - o.csum_start + len) ≡ n = omega (arith, l.field) in
    let initial : combine p.pseudo (u16 (o.hdr_len - o.csum_start + len)) ≡ canon (p.pseudo + n) =
      rw header_len (combine_lem p.pseudo n hp (omega arith)) in
    let csum : s.csum ≡ 65535 - canon x =
      s.csum_eq
      ∙ ap complement (
          checksum_lem false 0 (window s.cleared o.csum_start n) _
            (window-IsByte s.cleared o.csum_start n cleared_bytes)
            (rw initial (omega (arith, canon-le (p.pseudo + n))))
          ∙ ap (λ (v : ℕ). canon (v + w)) initial
          ∙ canon-canon-add (p.pseudo + n) w) in
    let written = written_sum (is_tcp o.gso_type) x in
    let c =
      if is_tcp o.gso_type then 65535 - canon x else normalize_udp_checksum (65535 - canon x) in
    let field : ℕ → List ℕ → ℕ → List ℕ =
      λ a b v. patch b a (bytes16 (if is_tcp o.gso_type then v else normalize_udp_checksum v)) in
    let sum : canon (
          p.pseudo
          + n
          + word_sum false
              (window (patch st.out4 (o.csum_start + 2 * k) (0 ∷ 0 ∷ [])) o.csum_start n)
          + c)
        ≡ 65535 =
      rw (← cleared_even) written.1 in
    let seg_is : seg
        ≡ patch (patch st.out4 (o.csum_start + 2 * k) (0 ∷ 0 ∷ [])) (o.csum_start + 2 * k)
            (bytes16 c) =
      s.seg_eq
      ∙ ap (λ (v : ℕ). field s.at s.cleared v) csum
      ∙ ap (λ (b : List ℕ). field s.at b (65535 - canon x)) cleared_even
      ∙ ap
          (λ (a : ℕ). field a (patch st.out4 (o.csum_start + 2 * k) (0 ∷ 0 ∷ [])) (65535 - canon x))
          at_even in
    rw seg_is (
      sealed st.out4 o.csum_start k n (p.pseudo + n) c (omega (arith, l.field))
        (omega (arith, s.room, s.order)) written.0 sum)
