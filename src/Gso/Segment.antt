-- ===== src/Gso/Segment.antt =====
-- One segment of GSOSplit.
use sing_tun.Base.{
  ℕ, ◌+◌, ◌-◌, ◌^◌, ◌≤◌, ◌<◌, ◌≡◌, refl, ap, ◌∙◌, false, some, List, [], ◌∷◌, length, drop, ltb,
  ◌==◌, if◌then◌else◌, arith, length-take, length-drop,
}
use sing_tun.Base.Bytes.{
  put, copy_at, slice, bytes16, window, patch, bind_some, put-some, copy_at-some, slice-some,
  length-patch, window-patch_self, window-patch_after,
}
use sing_tun.Gso.{
  GsoOptions, Plan, set_ip_header, set_transport_header, set_checksum, segment, segment_size,
  is_tcp, u16,
}
use sing_tun.Checksum.Header.{checksum, combine, complement, normalize_udp_checksum}

-- Where the data of the segment that starts at `at` ends.
abbrev pub data_end : GsoOptions → List ℕ → ℕ → ℕ
data_end o inp at = if ltb (length inp) (at + o.gso_size) then length inp else at + o.gso_size

-- The headers and the checksum field lie before the payload, and nothing wraps around 2^16.
pub record Layout (o : GsoOptions) : Type 0 where
  pub ip : 20 ≤ o.csum_start
  pub transport : o.csum_start + (if is_tcp o.gso_type then 20 else 8) ≤ o.hdr_len
  pub field : o.csum_start + o.csum_offset + 2 ≤ o.hdr_len
  pub small : o.hdr_len < 2 ^ 16

-- The buffer after the header steps, after the payload and after the checksum.
pub record Stages (o : GsoOptions) (inp : List ℕ) (p : Plan) (i at : ℕ) (out seg : List ℕ)
    : Type 0 where
  pub out1 : List ℕ
  pub out2 : List ℕ
  pub out3 : List ℕ
  pub out4 : List ℕ
  pub copied : out1 ≡ patch out 0 (window inp 0 (o.hdr_len - 0))
  pub ip_header : set_ip_header o p.v6 i (segment_size o inp at) out1 ≡ some out2
  pub transport_header :
      set_transport_header o p i (data_end o inp at == length inp) (data_end o inp at - at) out2
      ≡ some out3
  pub payload : out4 ≡ patch out3 o.hdr_len (window inp at (data_end o inp at - at))
  pub checksummed :
      set_checksum o p (data_end o inp at - at) (segment_size o inp at) out4 ≡ some seg

pub segment-Stages :
    (o : GsoOptions) (inp : List ℕ) (p : Plan) (i at : ℕ) (out : List ℕ) {seg : List ℕ}
    → segment o inp p i at out ≡ some seg
    → Stages o inp p i at out seg
unfolding segment segment_size
segment-Stages o inp p i at out h =
    let s1 = bind_some (slice out 0 o.hdr_len) _ h in
    let s2 = bind_some (slice inp 0 o.hdr_len) _ s1.2 in
    let s3 = bind_some (copy_at out 0 s2.0) _ s2.2 in
    let s4 = bind_some (set_ip_header o p.v6 i _ s3.0) _ s3.2 in
    let s5 = bind_some (set_transport_header o p i _ _ s4.0) _ s4.2 in
    let s6 = bind_some (slice inp at _) _ s5.2 in
    let s7 = bind_some (copy_at s5.0 o.hdr_len s6.0) _ s6.2 in
    record {
      out1 = s3.0;
      out2 = s4.0;
      out3 = s5.0;
      out4 = s7.0;
      copied =
          (copy_at-some out 0 s2.0 s3.1).0 ∙ ap (patch out 0) (slice-some inp 0 o.hdr_len s2.1).0;
      ip_header = s4.1;
      transport_header = s5.1;
      payload =
          (copy_at-some s5.0 o.hdr_len s6.0 s7.1).0
          ∙ ap (patch s5.0 o.hdr_len) (slice-some inp at _ s6.1).0;
      checksummed = s7.2;
    }

-- What set_checksum does: clear the field, sum from the transport header on, write the sum.
pub record Summed (o : GsoOptions) (p : Plan) (data_len total : ℕ) (out seg : List ℕ) : Type 0 where
  pub at : ℕ
  pub at_eq : at ≡ u16 (o.csum_start + o.csum_offset)
  pub cleared : List ℕ
  pub cleared_eq : cleared ≡ patch out at (0 ∷ 0 ∷ [])
  pub csum : ℕ
  pub csum_eq :
      csum
      ≡ complement (
          checksum false 0
            (window cleared o.csum_start (total - o.csum_start))
            (combine p.pseudo (u16 (o.hdr_len - o.csum_start + data_len))))
  pub seg_eq :
      seg
      ≡ patch cleared at (bytes16 (if is_tcp o.gso_type then csum else normalize_udp_checksum csum))
  pub fits : at + 2 ≤ length out
  pub room : total ≤ length out
  pub order : o.csum_start ≤ total

pub set_checksum-Summed :
    (o : GsoOptions) (p : Plan) (data_len total : ℕ) (out : List ℕ) {seg : List ℕ}
    → set_checksum o p data_len total out ≡ some seg
    → Summed o p data_len total out seg
unfolding set_checksum
set_checksum-Summed o p data_len total out h =
    let at = u16 (o.csum_start + o.csum_offset) in
    let s1 = bind_some (put out at (0 ∷ 0 ∷ [])) _ h in
    let s2 = bind_some (slice s1.0 o.csum_start total) _ s1.2 in
    let c = put-some out at (0 ∷ 0 ∷ []) s1.1 in
    let w = slice-some s1.0 o.csum_start total s2.1 in
    let same : length s1.0 ≡ length out = ap length c.0 ∙ length-patch out at (0 ∷ 0 ∷ []) in
    record {
      at = at;
      at_eq = refl;
      cleared = s1.0;
      cleared_eq = c.0;
      csum =
          complement
            (checksum false 0 s2.0 (combine p.pseudo (u16 (o.hdr_len - o.csum_start + data_len))));
      csum_eq =
          ap
            (λ (b : List ℕ).
              complement
                (checksum false 0 b (combine p.pseudo (u16 (o.hdr_len - o.csum_start + data_len)))))
            w.0;
      seg_eq = (put-some s1.0 at _ s2.2).0;
      fits = c.1;
      room = omega (arith, w.2, same);
      order = w.1;
    }

pub data_end-le : (o : GsoOptions) (inp : List ℕ) (at : ℕ) → data_end o inp at ≤ length inp
data_end-le o inp at = ground arith

-- The payload of a segment is the input from `at` on, as much as a segment may hold.
pub segment_payload :
    (o : GsoOptions) (inp : List ℕ) (p : Plan) (i at : ℕ) (out : List ℕ) {seg : List ℕ}
    → Layout o
    → segment o inp p i at out ≡ some seg
    → window seg o.hdr_len (data_end o inp at - at) ≡ window inp at (data_end o inp at - at)
unfolding segment_size
segment_payload o inp p i at out l h =
    let st = segment-Stages o inp p i at out h in
    let n = data_end o inp at - at in
    let w = window inp at n in
    let s = set_checksum-Summed o p n (segment_size o inp at) st.out4 st.checksummed in
    let low : s.at + 2 ≤ o.hdr_len = omega (arith, s.at_eq, l.field) in
    let same : length st.out4 ≡ length st.out3 =
      ap length st.payload ∙ length-patch st.out3 o.hdr_len w in
    ap (λ (b : List ℕ). window b o.hdr_len n) s.seg_eq
    ∙ window-patch_after s.cleared s.at o.hdr_len n _ low
    ∙ ap (λ (b : List ℕ). window b o.hdr_len n) s.cleared_eq
    ∙ window-patch_after st.out4 s.at o.hdr_len n _ low
    ∙ ap (λ (b : List ℕ). window b o.hdr_len n) st.payload
    ∙ window-patch_self st.out3 o.hdr_len n w (omega (arith, s.room, same))
        (omega (arith, length-take n (drop at inp), length-drop at inp, data_end-le o inp at))
