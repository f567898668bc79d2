-- ===== src/Header/Seal.antt =====
-- Checksums that are computed around their own field and then written into it.
use mathlib.Core.Path.{subst}
use sing_tun.Base.{
  ℕ, zero, suc, ◌+◌, ◌-◌, ◌%◌, ◌^◌, ◌≤◌, ◌<◌, ◌≡◌, refl, ap, ◌∙◌, sym, false, some, List, [], ◌∷◌,
  length, drop, arith, All, take_all, length-drop,
}
use sing_tun.Base.Bytes.{patch, window, bytes16, slice_total}
use sing_tun.Checksum.Ones.{canon, word_sum}
use sing_tun.Checksum.Words.{IsByte}
use sing_tun.Checksum.Header.{checksum, complement, normalize_udp_checksum}
use sing_tun.Checksum.Header.Update.{fold_in}
use sing_tun.Header.{header_length, calculate_ip_checksum, set_ip_checksum}
use sing_tun.Header.Fields.{put-some, patch_sum, word_sum-bytes16}
use sing_tun.Header.Update.{window-IsByte}

-- The words before a field of two bytes, of the field, and behind it.
sum_around :
    (s : ℕ) (b : List ℕ)
    → s % 2 ≡ 0
    → s + 2 ≤ length b
    → word_sum false b
      ≡ word_sum false (window b 0 s)
        + word_sum false (window b s 2)
        + word_sum false (drop (suc (suc s)) b)
unfolding word_sum
sum_around zero [] even h = absurd (omega arith)
sum_around zero (x ∷ []) even h = absurd (omega arith)
sum_around zero (x ∷ y ∷ b) even h = omega arith
sum_around (suc zero) b even h = absurd (omega arith)
sum_around (suc (suc s)) [] even h = absurd (omega arith)
sum_around (suc (suc s)) (x ∷ []) even h = absurd (omega arith)
sum_around (suc (suc s)) (x ∷ y ∷ b) even h =
    omega (arith, sum_around s b (omega arith) (omega arith))

canon_sealed : (n : ℕ) → canon (n + (65535 - canon n)) ≡ 65535
unfolding canon
canon_sealed n = ground arith

canon_normalized : (n : ℕ) → canon (n + normalize_udp_checksum (65535 - canon n)) ≡ 65535
unfolding canon normalize_udp_checksum
canon_normalized n = ground arith

normalized_fits : (n : ℕ) → normalize_udp_checksum (65535 - canon n) < 2 ^ 16
unfolding canon normalize_udp_checksum
normalized_fits n = ground arith

sealed_by :
    (s x : ℕ) (b : List ℕ) (v : ℕ)
    → s % 2 ≡ 0
    → s + 2 ≤ length b
    → v < 2 ^ 16
    → canon (x + word_sum false (window b 0 s) + word_sum false (drop (suc (suc s)) b) + v) ≡ 65535
    → canon (x + word_sum false (patch b s (bytes16 v))) ≡ 65535
sealed_by s x b v even h fits e =
    ap canon (
      omega (
        arith,
        patch_sum s b (bytes16 v) even refl h,
        sum_around s b even h,
        word_sum-bytes16 v fits,
      ))
    ∙ e

-- The complement of the sum of all other words, with `x` words from elsewhere, makes the sum right.
pub sealed :
    (s x : ℕ) (b : List ℕ) (c : ℕ)
    → s % 2 ≡ 0
    → s + 2 ≤ length b
    → c ≡ canon (x + word_sum false (window b 0 s) + word_sum false (drop (suc (suc s)) b))
    → canon (x + word_sum false (patch b s (bytes16 (complement c)))) ≡ 65535
sealed s x b c even h e =
    let n = x + word_sum false (window b 0 s) + word_sum false (drop (suc (suc s)) b) in
    sealed_by s x b (complement c) even h (omega arith)
      (ap (λ (y : ℕ). canon (n + (65535 - y))) e ∙ canon_sealed n)

-- So does a complement that is written as 65535 where it is 0.
pub sealed_normalized :
    (s x : ℕ) (b : List ℕ) (c : ℕ)
    → s % 2 ≡ 0
    → s + 2 ≤ length b
    → c ≡ canon (x + word_sum false (window b 0 s) + word_sum false (drop (suc (suc s)) b))
    → canon (x + word_sum false (patch b s (bytes16 (normalize_udp_checksum (complement c)))))
      ≡ 65535
sealed_normalized s x b c even h e =
    let n = x + word_sum false (window b 0 s) + word_sum false (drop (suc (suc s)) b) in
    sealed_by s x b (normalize_udp_checksum (complement c)) even h
      (subst (λ (y : ℕ). normalize_udp_checksum (65535 - y) < 2 ^ 16) (sym e) (normalized_fits n))
      (ap (λ (y : ℕ). canon (n + normalize_udp_checksum (65535 - y))) e ∙ canon_normalized n)

-- What SetChecksum(^CalculateChecksum()) leaves of an IPv4 header of its own length.
pub ip_sealed :
    (b : List ℕ)
    → 20 ≤ length b
    → All IsByte b
    → header_length b ≡ some (length b)
    → (c : ℕ) × (calculate_ip_checksum b ≡ some c)
      × (set_ip_checksum b (complement c) ≡ some (patch b 10 (bytes16 (complement c))))
      × (canon (0 + word_sum false (patch b 10 (bytes16 (complement c)))) ≡ 65535)
unfolding calculate_ip_checksum set_ip_checksum
ip_sealed b h hb e =
    let front = window b 0 10 in
    let back = window b 12 (length b - 12) in
    let back_eq : back ≡ drop 12 b =
      take_all (length b - 12) (drop 12 b) (omega (arith, length-drop 12 b)) in
    let c = checksum false 0 back (checksum false 0 front 0) in
    (
      c,
      rw
          (
            slice_total b 0 10 (omega arith) (omega arith),
            e,
            slice_total b 12 (length b) (omega arith) (omega arith),
          )
          refl,
      put-some b 10 (bytes16 (complement c)) (omega arith),
      sealed 10 0 b c refl (omega arith) (
          fold_in back _ _ (window-IsByte b 12 _ hb)
            (fold_in front 0 0 (window-IsByte b 0 10 hb) (unfold canon in refl))
          ∙ ap (λ (x : List ℕ). canon (0 + word_sum false front + word_sum false x)) back_eq),
    )
