-- ===== src/Gso/Fields.antt =====
-- The header fields of a segment: sequence number, flags, length and the IPv4 header checksum.
use native.Mathlib.Nat.{mul_comm}
use sing_tun.Base.{
  ℕ, ◌+◌, ◌-◌, ◌*◌, ◌/◌, ◌%◌, ◌^◌, ◌≤◌, ◌<◌, ◌≡◌, refl, ap, ◌∙◌, Bool, true, false, some, List, [],
  ◌∷◌, length, ◌==◌, if◌then◌else◌, arith,
}
use sing_tun.Base.Bytes.{
  window, bytes32, put, bind_some, put-some, length-patch, window-patch_self, window-patch_before,
  ◌>>=◌,
}
use sing_tun.Gso.{
  GsoOptions, Plan, set_transport_header, segment, segment_size, is_tcp, u16, segment_seq,
  clear_fin_psh,
}
use sing_tun.Gso.Segment.{Layout, data_end, Stages, segment-Stages, set_checksum-Summed}

-- Bytes that lie before the checksum field are those that the header steps left.
pub kept_header :
    (o : GsoOptions) (inp : List ℕ) (p : Plan) (i at lo n : ℕ) (out seg : List ℕ)
    (st : Stages o inp p i at out seg)
    → Layout o
    → lo + n ≤ o.csum_start + o.csum_offset
    → window seg lo n ≡ window st.out3 lo n
kept_header o inp p i at lo n out seg st l k =
    let s =
      set_checksum-Summed o p (data_end o inp at - at) (segment_size o inp at) st.out4
        st.checksummed in
    let field : lo + n ≤ s.at = omega (arith, s.at_eq, l.field, l.small) in
    let header : lo + n ≤ o.hdr_len = omega (arith, l.field) in
    let w : List ℕ → List ℕ = λ b. window b lo n in
    ap w s.seg_eq
    ∙ window-patch_before s.cleared s.at lo n _ field
    ∙ ap w s.cleared_eq
    ∙ window-patch_before st.out4 s.at lo n _ field
    ∙ ap w st.payload
    ∙ window-patch_before st.out3 o.hdr_len lo n _ header

-- The two writes to a TCP header.
tcp_header :
    (o : GsoOptions) (p : Plan) (i data_len : ℕ) (last : Bool) (out out3 : List ℕ)
    → Layout o
    → is_tcp o.gso_type ≡ true
    → set_transport_header o p i last data_len out ≡ some out3
    → (window out3 (o.csum_start + 4) 4 ≡ bytes32 (segment_seq o p.first_seq i))
      × (window out3 (o.csum_start + 13) 1
          ≡ (if last then p.src_flags else clear_fin_psh p.src_flags) ∷ [])
unfolding set_transport_header
tcp_header o p i data_len last out out3 l tcp h =
    let room : o.csum_start + 20 ≤ o.hdr_len = rw tcp at l.transport in
    let s4 : u16 (o.csum_start + 4) ≡ o.csum_start + 4 = omega (arith, l.small) in
    let s13 : u16 (o.csum_start + 13) ≡ o.csum_start + 13 = omega (arith, l.small) in
    let flag = (if last then p.src_flags else clear_fin_psh p.src_flags) ∷ [] in
    let seq = bytes32 (segment_seq o p.first_seq i) in
    let h' : (put out (o.csum_start + 4) seq >>= λ b. put b (o.csum_start + 13) flag) ≡ some out3 =
      rw (tcp, s4, s13) at h in
    let s1 = bind_some (put out (o.csum_start + 4) seq) _ h' in
    let w1 = put-some out (o.csum_start + 4) seq s1.1 in
    let w2 = put-some s1.0 (o.csum_start + 13) flag s1.2 in
    let same = ap length w1.0 ∙ length-patch out (o.csum_start + 4) seq in
    (
      ap (λ (b : List ℕ). window b (o.csum_start + 4) 4) w2.0
          ∙ window-patch_before s1.0 (o.csum_start + 13) (o.csum_start + 4) 4 flag (omega arith)
          ∙ ap (λ (b : List ℕ). window b (o.csum_start + 4) 4) w1.0
          ∙ window-patch_self out (o.csum_start + 4) 4 seq w1.1 refl,
      ap (λ (b : List ℕ). window b (o.csum_start + 13) 1) w2.0
          ∙ window-patch_self s1.0 (o.csum_start + 13) 1 flag w2.1 refl,
    )

sequence :
    (first size i : ℕ)
    → size * i < 2 ^ 16
    → i < 2 ^ 16
    → (first + u16 (size * u16 i)) % 2 ^ 32 ≡ (first + i * size) % 2 ^ 32
sequence first size i h k =
    let e : u16 i ≡ i = omega arith in
    rw (e, mul_comm i size) (ap (λ (v : ℕ). (first + v) % 2 ^ 32) (omega arith))

-- The flags `f` are those of `src`, but FIN (bit 0) and PSH (bit 3) are clear.
abbrev pub Cleared : ℕ → ℕ → Type 0
Cleared src f = (f % 2 ≡ 0) × (f / 8 % 2 ≡ 0) × (f / 2 % 4 ≡ src / 2 % 4) × (f / 16 ≡ src / 16)

-- The flags of a segment, by whether it is the last one.
abbrev pub FlagsFor : Bool → ℕ → ℕ → Type 0
FlagsFor true src f = f ≡ src
FlagsFor false src f = Cleared src f

clear_fin_psh-Cleared : (src : ℕ) → Cleared src (clear_fin_psh src)
clear_fin_psh-Cleared src = (omega arith, omega arith, omega arith, omega arith)

flags_for : (last : Bool) (src : ℕ) → FlagsFor last src (if last then src else clear_fin_psh src)
flags_for true src = refl
flags_for false src = clear_fin_psh-Cleared src

-- A segment of TCP, with its checksum behind the flags: its sequence number is that of its first
-- byte of data, as long as the data fit 2^16 bytes, and its flags are the packet's, but FIN and PSH are
-- cleared unless it is the last.
pub segment_tcp :
    (o : GsoOptions) (inp : List ℕ) (p : Plan) (i : ℕ) (out seg : List ℕ)
    → Layout o
    → is_tcp o.gso_type ≡ true
    → 14 ≤ o.csum_offset
    → o.gso_size * i < 2 ^ 16
    → i < 2 ^ 16
    → segment o inp p i (o.hdr_len + i * o.gso_size) out ≡ some seg
    → (window seg (o.csum_start + 4) 4 ≡ bytes32 ((p.first_seq + i * o.gso_size) % 2 ^ 32))
      × (flags : ℕ) × (window seg (o.csum_start + 13) 1 ≡ flags ∷ [])
      × FlagsFor (data_end o inp (o.hdr_len + i * o.gso_size) == length inp) p.src_flags flags
segment_tcp o inp p i out seg l tcp off small few h =
    let at = o.hdr_len + i * o.gso_size in
    let st = segment-Stages o inp p i at out h in
    let t = tcp_header o p i _ _ st.out2 st.out3 l tcp st.transport_header in
    let seq : segment_seq o p.first_seq i ≡ (p.first_seq + i * o.gso_size) % 2 ^ 32 =
      sequence p.first_seq o.gso_size i small few in
    (
      kept_header o inp p i at (o.csum_start + 4) 4 out seg st l (omega arith)
          ∙ t.0
          ∙ ap (λ (v : ℕ). bytes32 v) seq,
      _,
      kept_header o inp p i at (o.csum_start + 13) 1 out seg st l (omega arith) ∙ t.1,
      flags_for _ p.src_flags,
    )
