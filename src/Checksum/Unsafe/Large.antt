-- ===== src/Checksum/Unsafe/Large.antt =====
-- calculateChecksum on buffers of 8 bytes and more, with its byte swaps.
use sing_tun.Base.{
  ℕ, ◌+◌, ◌*◌, ◌%◌, ◌^◌, ◌≤◌, ◌<◌, ◌≡◌, ap, ◌∙◌, inl, inr, Bool, true, false, not, List, [], ◌∷◌,
  arith, length, ◌==◌, All, Bool-cases,
}
use sing_tun.Checksum.Ones.{canon, word_sum, canon-mul-canon, canon-le, canon_65536, word_sum_swap}
use sing_tun.Checksum.Words.{
  reverse_bytes16, reverse_bytes32, IsByte, reverse_bytes16-canon, reverse_bytes32-canon,
}
use sing_tun.Checksum.Unsafe.{
  plus64, reduce, bswap_if_little32, bswap_if_little16, sum_aligned, sum_large,
}
use sing_tun.Checksum.Unsafe.Rounds.{reduce_lem, sum_aligned_lem}

-- The sum of words with the bytes swapped, swapped back.
unswap : (r a v : ℕ) → r ≡ canon (256 * a + v) → reverse_bytes16 r ≡ canon (a + 256 * v)
unswap r a v e =
    reverse_bytes16-canon r (omega (arith, e, canon-le (256 * a + v)))
    ∙ ap (λ (n : ℕ). canon (256 * n)) e
    ∙ ap canon (omega arith)
    ∙ canon-mul-canon (256 * a + v) 0
    ∙ ap canon (omega arith)
    ∙ canon_65536 a (256 * v)

swap_sum :
    (odd : Bool) (b : List ℕ) (a : ℕ)
    → canon (a + 256 * word_sum odd b) ≡ canon (a + word_sum (not odd) b)
swap_sum odd b a = ap canon (omega arith) ∙ word_sum_swap odd b a ∙ ap canon (omega arith)

reverse32_lt : (v : ℕ) → v < 2 ^ 32 → reverse_bytes32 v < 2 ^ 32
unfolding reverse_bytes32
reverse32_lt v h = omega arith

reverse32_twice : (v : ℕ) → v < 2 ^ 32 → reverse_bytes32 (reverse_bytes32 v % 2 ^ 32) ≡ v
unfolding reverse_bytes32
reverse32_twice v h = omega arith

reverse16_twice : (v : ℕ) → v < 2 ^ 16 → reverse_bytes16 (reverse_bytes16 v) ≡ v
unfolding reverse_bytes16
reverse16_twice v h = omega arith

reduced :
    (big : Bool) (addr acc : ℕ) (b : List ℕ)
    → acc < 2 ^ 33
    → 7 ≤ length b
    → All IsByte b
    → reduce (sum_aligned big addr acc b) ≡ canon (acc + word_sum (not big) b)
reduced big addr acc b ha hl hb =
    let r = sum_aligned_lem big addr acc b ha hl hb in
    reduce_lem (sum_aligned big addr acc b) r.0 ∙ r.1

module _ (acc x : ℕ) (b : List ℕ) (ha : acc < 2 ^ 24) (hl : 7 ≤ length b) (hx : x < 256)
    (hb : All IsByte b) where
  big_even :
      (addr : ℕ)
      → bswap_if_little16 true
          (reduce (sum_aligned true addr (bswap_if_little32 true (acc % 2 ^ 32)) (x ∷ b)))
        ≡ canon (acc + word_sum false (x ∷ b))
  unfolding bswap_if_little16 bswap_if_little32
  big_even addr =
      reduced true addr (acc % 2 ^ 32) (x ∷ b) (omega arith) (omega arith) (hx, hb)
      ∙ ap canon (omega arith)

  little_even :
      (addr : ℕ)
      → bswap_if_little16 false
          (reduce (sum_aligned false addr (bswap_if_little32 false (acc % 2 ^ 32)) (x ∷ b)))
        ≡ canon (acc + word_sum false (x ∷ b))
  unfolding bswap_if_little16 bswap_if_little32
  little_even addr =
      let v = word_sum true (x ∷ b) in
      let e : acc % 2 ^ 32 ≡ acc = omega arith in
      let r = reduce (sum_aligned false addr (reverse_bytes32 (acc % 2 ^ 32)) (x ∷ b)) in
      let sum : r ≡ canon (256 * acc + v) =
        reduced false addr (reverse_bytes32 (acc % 2 ^ 32)) (x ∷ b)
          (omega (arith, reverse32_lt (acc % 2 ^ 32))) (omega arith) (hx, hb)
        ∙ reverse_bytes32-canon (acc % 2 ^ 32) v (omega arith)
        ∙ ap canon (omega arith) in
      unswap r acc v sum ∙ swap_sum true (x ∷ b) acc

  big_odd :
      (addr : ℕ)
      → reverse_bytes16 (
          bswap_if_little16 true (
            reduce (
              sum_aligned true addr
                (plus64
                  (reverse_bytes32 (bswap_if_little32 true (acc % 2 ^ 32) % 2 ^ 32))
                  (bswap_if_little16 true x))
                b)))
        ≡ canon (acc + word_sum false (x ∷ b))
  unfolding bswap_if_little16 bswap_if_little32 plus64 word_sum
  big_odd addr =
      let e : acc % 2 ^ 32 % 2 ^ 32 ≡ acc = omega arith in
      let w = reverse_bytes32 (acc % 2 ^ 32 % 2 ^ 32) in
      let small : w < 2 ^ 32 = reverse32_lt (acc % 2 ^ 32 % 2 ^ 32) (omega arith) in
      let a' = (w + x) % 2 ^ 64 in
      let v = x + word_sum false b in
      let sum : reduce (sum_aligned true addr a' b) ≡ canon (256 * acc + v) =
        reduced true addr a' b (omega arith) hl hb
        ∙ ap canon (omega arith)
        ∙ reverse_bytes32-canon (acc % 2 ^ 32 % 2 ^ 32) v (omega arith)
        ∙ ap canon (omega arith) in
      unswap (reduce (sum_aligned true addr a' b)) acc v sum ∙ swap_sum true (x ∷ b) acc

  little_odd :
      (addr : ℕ)
      → reverse_bytes16 (
          bswap_if_little16 false (
            reduce (
              sum_aligned false addr
                (plus64
                  (reverse_bytes32 (bswap_if_little32 false (acc % 2 ^ 32) % 2 ^ 32))
                  (bswap_if_little16 false x))
                b)))
        ≡ canon (acc + word_sum false (x ∷ b))
  unfolding bswap_if_little16 bswap_if_little32 plus64 word_sum
  little_odd addr =
      let w = reverse_bytes32 (reverse_bytes32 (acc % 2 ^ 32) % 2 ^ 32) in
      let same : w ≡ acc % 2 ^ 32 = reverse32_twice (acc % 2 ^ 32) (omega arith) in
      let shifted : reverse_bytes16 x ≡ x * 256 = unfold reverse_bytes16 in omega arith in
      let a' = (w + reverse_bytes16 x) % 2 ^ 64 in
      let sum : reduce (sum_aligned false addr a' b) ≡ canon (acc + (x * 256 + word_sum true b)) =
        reduced false addr a' b (omega arith) hl hb ∙ ap canon (omega arith) in
      reverse16_twice (reduce (sum_aligned false addr a' b))
        (omega (arith, sum, canon-le (acc + (x * 256 + word_sum true b))))
      ∙ sum

pub sum_large_lem :
    (big : Bool) (addr acc : ℕ) (b : List ℕ)
    → acc < 2 ^ 24
    → 8 ≤ length b
    → All IsByte b
    → sum_large big addr acc b ≡ canon (acc + word_sum false b)
unfolding sum_large
sum_large_lem big addr acc [] ha hl hb = absurd (omega arith)
sum_large_lem true addr acc (x ∷ b) ha hl hb = elim (Bool-cases (addr % 2 == 1)) [
  | inl e ↦ rw e (big_odd acc x b ha (omega arith) hb.0 hb.1 (addr + 1))
  | inr e ↦ rw e (big_even acc x b ha (omega arith) hb.0 hb.1 addr)
]
sum_large_lem false addr acc (x ∷ b) ha hl hb = elim (Bool-cases (addr % 2 == 1)) [
  | inl e ↦ rw e (little_odd acc x b ha (omega arith) hb.0 hb.1 (addr + 1))
  | inr e ↦ rw e (little_even acc x b ha (omega arith) hb.0 hb.1 addr)
]
