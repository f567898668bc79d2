-- ===== src/Ping/Header.antt =====
-- Changing an address of a packet in its buffer, for the ping package: IPv4 with its header checksum.
use sing_tun.Base.{
  ℕ, zero, suc, ◌+◌, ◌-◌, ◌≤◌, ◌≡◌, refl, ap, ◌∙◌, sym, false, some, List, [], ◌∷◌, length, take,
  arith, All, All-take,
}
use sing_tun.Base.Bytes.{patch, overlay, bytes16, slice_total, All-patch}
use sing_tun.Checksum.Ones.{canon}
use sing_tun.Checksum.Words.{IsByte}
use sing_tun.Checksum.Header.{checksum, complement}
use sing_tun.Checksum.Header.Update.{fold_in}
use sing_tun.Header.{header_length, calculate_ip_checksum, set_ip_checksum}
use sing_tun.Header.Fields.{put-some, length-window}
use sing_tun.Header.Parts.{window-take, header_length_front}
use sing_tun.Header.Seal.{ip_sealed}
use sing_tun.Header.Update.{bytes16-IsByte}
use sing_tun.Ping.{reseal_header}

overlay-take :
    (n : ℕ) (bs b : List ℕ) → length bs ≤ n → take n (overlay bs b) ≡ overlay bs (take n b)
overlay-take n [] b h = refl
overlay-take zero (v ∷ bs) b h = absurd (omega arith)
overlay-take (suc n) (v ∷ bs) [] h = refl
overlay-take (suc n) (v ∷ bs) (x ∷ b) h = ap (◌∷◌ v) (overlay-take n bs b (omega arith))

-- A patch inside of a prefix.
pub take-patch_inside :
    (n off : ℕ) (bs b : List ℕ)
    → off + length bs ≤ n
    → take n (patch b off bs) ≡ patch (take n b) off bs
take-patch_inside n zero bs b h = overlay-take n bs b (omega arith)
take-patch_inside zero (suc off) bs b h = absurd (omega arith)
take-patch_inside (suc n) (suc off) bs [] h = refl
take-patch_inside (suc n) (suc off) bs (x ∷ b) h =
    ap (◌∷◌ x) (take-patch_inside n off bs b (omega arith))

-- An IPv4 header of `hlen` bytes at the front of a buffer.
pub record HasHeader (b : List ℕ) (hlen : ℕ) : Type 0 where
  pub all_bytes : All IsByte b
  pub header_eq : header_length b ≡ some hlen
  pub room : 20 ≤ hlen
  pub inside : hlen ≤ length b

-- The checksum of the header at the front of a buffer is right.
abbrev pub FrontValid : ℕ → List ℕ → Type 0
FrontValid hlen b = checksum false 0 (take hlen b) 0 ≡ 65535

calculate_front :
    (b : List ℕ) (hlen : ℕ)
    → HasHeader b hlen
    → calculate_ip_checksum b ≡ calculate_ip_checksum (take hlen b)
unfolding calculate_ip_checksum
calculate_front b hlen h =
    let len : length (take hlen b) ≡ hlen = length-window b 0 hlen (omega (arith, h.inside)) in
    let same =
      header_length_front 0 b (take hlen b) (omega (arith, h.room, h.inside))
        (window-take hlen 0 1 b (omega (arith, h.room)))
      ∙ h.header_eq in
    let diff : 12 + (hlen - 12) ≡ hlen = omega (arith, h.room) in
    rw
      (
        h.header_eq,
        same,
        slice_total b 0 10 (omega arith) (omega (arith, h.room, h.inside)),
        slice_total b 12 hlen (omega (arith, h.room)) h.inside,
        slice_total (take hlen b) 0 10 (omega arith) (omega (arith, h.room, len)),
        slice_total (take hlen b) 12 hlen (omega (arith, h.room)) (omega (arith, len)),
        window-take hlen 0 10 b (omega (arith, h.room)),
        window-take hlen 12 (hlen - 12) b (omega (arith, h.room)),
      )
      refl

-- Recomputing the header's checksum in place.
pub reseal_header_lem :
    (b : List ℕ) (hlen : ℕ)
    → HasHeader b hlen
    → (v : ℕ) × (reseal_header false b ≡ some (patch b 10 (bytes16 v)))
      × FrontValid hlen (patch b 10 (bytes16 v))
unfolding reseal_header set_ip_checksum
reseal_header_lem b hlen h =
    let front = take hlen b in
    let len : length front ≡ hlen = length-window b 0 hlen (omega (arith, h.inside)) in
    let (c, made, written, valid) =
      ip_sealed front (omega (arith, h.room, len)) (All-take IsByte hlen b h.all_bytes) (
        header_length_front 0 b front (omega (arith, h.room, h.inside))
          (window-take hlen 0 1 b (omega (arith, h.room)))
        ∙ h.header_eq
        ∙ ap some (sym len)) in
    let v = complement c in
    (
      v,
      rw (calculate_front b hlen h, made)
          (put-some b 10 (bytes16 v) (omega (arith, h.room, h.inside))),
      ap (λ (x : List ℕ). checksum false 0 x 0)
            (take-patch_inside hlen 10 (bytes16 v) b (omega (arith, h.room)))
          ∙ fold_in (patch front 10 (bytes16 v)) 0 0
              (All-patch IsByte front 10 (bytes16 v) (All-take IsByte hlen b h.all_bytes)
                (bytes16-IsByte v))
              (unfold canon in refl)
          ∙ valid,
    )
