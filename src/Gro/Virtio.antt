-- ===== src/Gro/Virtio.antt =====
-- The virtio header's layout in memory.
use sing_tun.Base.{
  ℕ, ◌^◌, ◌<◌, ◌≤◌, ◌≡◌, refl, Bool, true, false, some, List, [], ◌∷◌, length, arith,
}
use sing_tun.Gro.{VirtioNetHdr, encode, decode}

-- The fields of the header have their widths.
pub record Fits16 (v : VirtioNetHdr) : Type 0 where
  pub hdr_len : v.hdr_len < 2 ^ 16
  pub gso_size : v.gso_size < 2 ^ 16
  pub csum_start : v.csum_start < 2 ^ 16
  pub csum_offset : v.csum_offset < 2 ^ 16

fields :
    (v : VirtioNetHdr) {h g s o : ℕ}
    → h ≡ v.hdr_len
    → g ≡ v.gso_size
    → s ≡ v.csum_start
    → o ≡ v.csum_offset
    → some (record {
      flags = v.flags;
      gso_type = v.gso_type;
      hdr_len = h;
      gso_size = g;
      csum_start = s;
      csum_offset = o;
    })
      ≡ some v
fields v eh eg es eo = rw (eh, eg, es, eo) refl

-- On a host of either byte order, a header whose fields fit 16 bits and that is written into a
-- buffer of at least ten bytes is read back.
pub decode-encode :
    (big : Bool) (v : VirtioNetHdr) (b : List ℕ)
    → Fits16 v
    → 10 ≤ length b
    → (r : List ℕ) × (encode big v b ≡ some r) × (decode big r ≡ some v)
unfolding encode decode
decode-encode true v (b0 ∷ b1 ∷ b2 ∷ b3 ∷ b4 ∷ b5 ∷ b6 ∷ b7 ∷ b8 ∷ b9 ∷ rest) f h = (
  _,
  refl,
  fields v (omega (arith, f.hdr_len)) (omega (arith, f.gso_size)) (omega (arith, f.csum_start))
      (omega (arith, f.csum_offset)),
)
decode-encode false v (b0 ∷ b1 ∷ b2 ∷ b3 ∷ b4 ∷ b5 ∷ b6 ∷ b7 ∷ b8 ∷ b9 ∷ rest) f h = (
  _,
  refl,
  fields v (omega (arith, f.hdr_len)) (omega (arith, f.gso_size)) (omega (arith, f.csum_start))
      (omega (arith, f.csum_offset)),
)
decode-encode big v ([]) f h = absurd (omega arith)
decode-encode big v (b0 ∷ []) f h = absurd (omega arith)
decode-encode big v (b0 ∷ b1 ∷ []) f h = absurd (omega arith)
decode-encode big v (b0 ∷ b1 ∷ b2 ∷ []) f h = absurd (omega arith)
decode-encode big v (b0 ∷ b1 ∷ b2 ∷ b3 ∷ []) f h = absurd (omega arith)
decode-encode big v (b0 ∷ b1 ∷ b2 ∷ b3 ∷ b4 ∷ []) f h = absurd (omega arith)
decode-encode big v (b0 ∷ b1 ∷ b2 ∷ b3 ∷ b4 ∷ b5 ∷ []) f h = absurd (omega arith)
decode-encode big v (b0 ∷ b1 ∷ b2 ∷ b3 ∷ b4 ∷ b5 ∷ b6 ∷ []) f h = absurd (omega arith)
decode-encode big v (b0 ∷ b1 ∷ b2 ∷ b3 ∷ b4 ∷ b5 ∷ b6 ∷ b7 ∷ []) f h = absurd (omega arith)
decode-encode big v (b0 ∷ b1 ∷ b2 ∷ b3 ∷ b4 ∷ b5 ∷ b6 ∷ b7 ∷ b8 ∷ []) f h = absurd (omega arith)
