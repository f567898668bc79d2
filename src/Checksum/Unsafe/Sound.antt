-- ===== src/Checksum/Unsafe/Sound.antt =====
-- calculateChecksum, and the sum that it is for.
use sing_tun.Base.{
  ℕ, ◌+◌, ◌%◌, ◌^◌, ◌<◌, ◌≡◌, refl, ap, ◌∙◌, inl, inr, Bool, true, false, List, [], ◌∷◌, arith,
  length, ltb, All, Bool-cases, some, ◌≢◌,
}
use sing_tun.Checksum.Ones.{canon, word_sum, odd_after}
use sing_tun.Checksum.Words.{IsByte}
use sing_tun.Checksum.Unsafe.{plus64, is_odd, sum_even, calculate_checksum}
use native.Mathlib.Nat.{add_assoc}
use sing_tun.Checksum.Unsafe.Large.{sum_large_lem}
use sing_tun.Checksum.Unsafe.Small.{sum_small_lem}

is_odd-length : (b : List ℕ) → is_odd (length b) ≡ odd_after false b
unfolding is_odd odd_after
is_odd-length [] = refl
is_odd-length (x ∷ []) = refl
is_odd-length (x ∷ y ∷ b) = ground (arith, is_odd-length b)

sum_even_lem :
    (big : Bool) (addr acc : ℕ) (b : List ℕ)
    → acc < 2 ^ 24
    → All IsByte b
    → sum_even big addr b acc ≡ (canon (acc + word_sum false b), odd_after false b)
unfolding sum_even
sum_even_lem big addr acc b ha hb = elim (Bool-cases (ltb (length b) 8)) [
  | inl e ↦ rw (e, is_odd-length b, sum_small_lem acc b ha (ground arith) hb)
  | inr e ↦ rw (e, is_odd-length b, sum_large_lem big addr acc b ha (ground arith) hb)
]

-- On a host of either byte order and for a buffer at any address: the ones' complement sum of
-- `initial` and the words of the buffer, which begin with half a word if `odd` is set, and the
-- parity with the buffer's bytes counted in. The empty buffer with `odd` set is left out.
pub calculate_checksum_lem :
    (big : Bool) (addr : ℕ) (b : List ℕ) (odd : Bool) (initial : ℕ)
    → All IsByte b
    → initial < 2 ^ 16
    → (odd ≡ true → b ≢ [])
    → calculate_checksum big addr b odd initial
      ≡ some (canon (initial + word_sum odd b), odd_after odd b)
unfolding calculate_checksum
calculate_checksum_lem big addr b false initial hb hi ho =
    ap some (sum_even_lem big addr initial b (omega arith) hb)
calculate_checksum_lem big addr [] true initial hb hi ho = absurd (ho refl refl)
calculate_checksum_lem big addr (x ∷ b) true initial hb hi ho =
    unfold word_sum odd_after plus64 in
    let e : (initial + x) % 2 ^ 64 ≡ initial + x = omega (arith, hb.0) in
    ap some (
      sum_even_lem big (addr + 1) ((initial + x) % 2 ^ 64) b (omega (arith, hb.0)) hb.1
      ∙ rw (e, add_assoc))
