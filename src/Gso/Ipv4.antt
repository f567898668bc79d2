-- ===== src/Gso/Ipv4.antt =====
-- The IPv4 header of a segment.
use mathlib.Core.Path.{subst}
use sing_tun.Base.{
  ℕ, ◌+◌, ◌-◌, ◌/◌, ◌%◌, ◌≤◌, ◌≡◌, refl, ap, ◌∙◌, Bool, false, some, List, [], ◌∷◌, length,
  if◌then◌else◌, arith, All, Bool-cases, inl, inr,
}
use sing_tun.Base.Bytes.{
  patch, window, bytes16, bytes32, put, slice, slice-some, bind_some, put-some, length-patch,
  window-patch_self, window-patch_before, All-patch, ◌>>=◌,
}
use sing_tun.Checksum.Ones.{canon, word_sum}
use sing_tun.Checksum.Words.{IsByte}
use sing_tun.Checksum.Header.{checksum, complement}
use sing_tun.Checksum.Header.Update.{checksum_lem}
use sing_tun.Gso.{
  GsoOptions, Plan, set_id, set_ip_header, set_transport_header, segment, segment_size, is_tcp, u16,
  segment_seq, clear_fin_psh,
}
use sing_tun.Gso.Segment.{Layout, segment-Stages}
use sing_tun.Gso.Seal.{sealed, canon_full, bytes16-IsByte, window-IsByte, patch_commute}
use sing_tun.Gso.Sums.{set_id-Bytewise, out1-IsByte}
use sing_tun.Gso.Fields.{kept_header}

-- What the header step did to the buffer that has the identification.
ipv4_steps :
    (o : GsoOptions) (i total : ℕ) (out r : List ℕ)
    → set_ip_header o false i total out ≡ some r
    → (out1 : List ℕ) × (set_id i out ≡ some out1)
      × (let out3 = patch (patch out1 10 (0 ∷ 0 ∷ [])) 2 (bytes16 total) in
          (r
            ≡ patch out3 10
                (bytes16 (complement (checksum false 0 (window out3 0 o.csum_start) 0))))
          × (o.csum_start ≤ length out1)
          × (length r ≡ length out1))
unfolding set_ip_header
ipv4_steps o i total out r h =
    let s1 = bind_some (set_id i out) _ h in
    let s2 = bind_some (put s1.0 10 (0 ∷ 0 ∷ [])) _ s1.2 in
    let s3 = bind_some (put s2.0 2 (bytes16 total)) _ s2.2 in
    let s4 = bind_some (slice s3.0 0 o.csum_start) _ s3.2 in
    let w1 = put-some s1.0 10 (0 ∷ 0 ∷ []) s2.1 in
    let w2 = put-some s2.0 2 (bytes16 total) s3.1 in
    let w3 = slice-some s3.0 0 o.csum_start s4.1 in
    let w4 = put-some s3.0 10 _ s4.2 in
    let whole : o.csum_start - 0 ≡ o.csum_start = omega arith in
    let is3 = w2.0 ∙ ap (λ (b : List ℕ). patch b 2 (bytes16 total)) w1.0 in
    let l2 = ap length w1.0 ∙ length-patch s1.0 10 (0 ∷ 0 ∷ []) in
    let l3 = ap length w2.0 ∙ length-patch s2.0 2 (bytes16 total) in
    let l4 = ap length w4.0 ∙ length-patch s3.0 10 _ in
    (
      s1.0,
      s1.1,
      (
        w4.0
            ∙ ap (λ (b : List ℕ). patch s3.0 10 (bytes16 (complement (checksum false 0 b 0))))
                (w3.0 ∙ ap (λ (n : ℕ). window s3.0 0 n) whole)
            ∙ ap
                (λ (b : List ℕ).
                  patch b 10 (bytes16 (complement (checksum false 0 (window b 0 o.csum_start) 0))))
                is3,
        omega (arith, w3.2, l2, l3),
        l4 ∙ l3 ∙ l2,
      ),
    )

-- The header that the step leaves sums to zero in ones' complement.
header_sum :
    (o : GsoOptions) (total : ℕ) (out1 r : List ℕ)
    → 20 ≤ o.csum_start
    → o.csum_start ≤ length out1
    → All IsByte out1
    → (let out3 = patch (patch out1 10 (0 ∷ 0 ∷ [])) 2 (bytes16 total) in
        r ≡ patch out3 10 (bytes16 (complement (checksum false 0 (window out3 0 o.csum_start) 0))))
    → canon (word_sum false (window r 0 o.csum_start)) ≡ 65535
header_sum o total out1 r ip room bytes e =
    let n = o.csum_start in
    let zeros : List ℕ = 0 ∷ 0 ∷ [] in
    let lead = patch out1 2 (bytes16 total) in
    let cleared = patch lead 10 zeros in
    let order : patch (patch out1 10 zeros) 2 (bytes16 total) ≡ cleared =
      patch_commute out1 2 6 (total / 256 % 256) (total % 256) zeros in
    let w = 0 + word_sum false (window cleared 0 n) in
    let cleared_bytes =
      All-patch IsByte lead 10 zeros (All-patch IsByte out1 2 _ bytes (bytes16-IsByte total))
        (bytes16-IsByte 0) in
    let sum : complement (checksum false 0 (window cleared 0 n) 0) ≡ 65535 - canon w =
      ap complement (
        checksum_lem false 0 (window cleared 0 n) 0 (window-IsByte cleared 0 n cleared_bytes)
          (omega arith)) in
    let final : r ≡ patch cleared 10 (bytes16 (65535 - canon w)) =
      e
      ∙ ap (λ (b : List ℕ). patch b 10 (bytes16 (complement (checksum false 0 (window b 0 n) 0))))
          order
      ∙ ap (λ (v : ℕ). patch cleared 10 (bytes16 v)) sum in
    rw final (
      ap canon (omega arith)
      ∙ sealed lead 0 5 n 0 (65535 - canon w) (omega arith)
          (omega (arith, length-patch out1 2 (bytes16 total))) (omega arith) (canon_full w))

-- The transport header step leaves the IP header.
kept_front :
    (o : GsoOptions) (p : Plan) (i data_len lo n : ℕ) (last : Bool) (out out3 : List ℕ)
    → Layout o
    → lo + n ≤ o.csum_start
    → set_transport_header o p i last data_len out ≡ some out3
    → window out3 lo n ≡ window out lo n
unfolding set_transport_header
kept_front o p i data_len lo n last out out3 l k h =
    let front : List ℕ → List ℕ = λ b. window b lo n in
    elim (Bool-cases (is_tcp o.gso_type)) [
      | inl z ↦
          let room : o.csum_start + 20 ≤ o.hdr_len = rw z at l.transport in
          let s4 : u16 (o.csum_start + 4) ≡ o.csum_start + 4 = omega (arith, l.small) in
          let s13 : u16 (o.csum_start + 13) ≡ o.csum_start + 13 = omega (arith, l.small) in
          let flag = (if last then p.src_flags else clear_fin_psh p.src_flags) ∷ [] in
          let seq = bytes32 (segment_seq o p.first_seq i) in
          let h' : (put out (o.csum_start + 4) seq >>= λ b. put b (o.csum_start + 13) flag)
              ≡ some out3 =
            rw (z, s4, s13) at h in
          let s1 = bind_some (put out (o.csum_start + 4) seq) _ h' in
          ap front (put-some s1.0 (o.csum_start + 13) flag s1.2).0
          ∙ window-patch_before s1.0 (o.csum_start + 13) lo n flag (omega arith)
          ∙ ap front (put-some out (o.csum_start + 4) seq s1.1).0
          ∙ window-patch_before out (o.csum_start + 4) lo n seq (omega arith)
      | inr z ↦
          let room : o.csum_start + 8 ≤ o.hdr_len = rw z at l.transport in
          let s4 : u16 (o.csum_start + 4) ≡ o.csum_start + 4 = omega (arith, l.small) in
          let len = bytes16 (data_len + (o.hdr_len - o.csum_start)) in
          let h' : put out (o.csum_start + 4) len ≡ some out3 = rw (z, s4) at h in
          ap front (put-some out (o.csum_start + 4) len h').0
          ∙ window-patch_before out (o.csum_start + 4) lo n len (omega arith)
    ]

-- The IPv4 header of a segment has the segment's size as its total length, and sums to zero in
-- ones' complement.
pub segment_ipv4 :
    (o : GsoOptions) (inp : List ℕ) (p : Plan) (i at : ℕ) (out seg : List ℕ)
    → Layout o
    → p.v6 ≡ false
    → All IsByte inp
    → All IsByte out
    → IsByte p.src_flags
    → segment o inp p i at out ≡ some seg
    → (canon (word_sum false (window seg 0 o.csum_start)) ≡ 65535)
      × (window seg 2 2 ≡ bytes16 (segment_size o inp at))
segment_ipv4 o inp p i at out seg l v4 hi ho hf h =
    let st = segment-Stages o inp p i at out h in
    let total = segment_size o inp at in
    let b1 = out1-IsByte o inp p i at out seg st hi ho hf in
    let h4 : set_ip_header o false i total st.out1 ≡ some st.out2 =
      subst (λ (v : Bool). set_ip_header o v i total st.out1 ≡ some st.out2) v4 st.ip_header in
    let t = ipv4_steps o i total st.out1 st.out2 h4 in
    let front =
      kept_header o inp p i at 0 o.csum_start out seg st l (omega arith)
      ∙ kept_front o p i _ 0 o.csum_start _ st.out2 st.out3 l (omega arith) st.transport_header in
    let out3 = patch (patch t.0 10 (0 ∷ 0 ∷ [])) 2 (bytes16 total) in
    let room : 4 ≤ length (patch t.0 10 (0 ∷ 0 ∷ [])) =
      omega (arith, t.2.1, l.ip, length-patch t.0 10 (0 ∷ 0 ∷ [])) in
    let bytes = set_id-Bytewise i st.out1 b1 t.0 t.1 in
    (
      rw front (header_sum o total t.0 st.out2 l.ip t.2.1 bytes t.2.0),
      kept_header o inp p i at 2 2 out seg st l (omega (arith, l.ip))
          ∙ kept_front o p i _ 2 2 _ st.out2 st.out3 l (omega (arith, l.ip)) st.transport_header
          ∙ ap (λ (b : List ℕ). window b 2 2) t.2.0
          ∙ window-patch_before out3 10 2 2 _ (omega arith)
          ∙ window-patch_self (patch t.0 10 (0 ∷ 0 ∷ [])) 2 2 (bytes16 total) room refl,
    )
