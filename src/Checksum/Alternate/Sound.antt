-- ===== src/Checksum/Alternate/Sound.antt =====
-- checksumGeneric64Alternate, and the sum that it is for.
use sing_tun.Base.{
  ℕ, zero, suc, ◌+◌, ◌*◌, ◌%◌, ◌^◌, ◌≤◌, ◌<◌, ◌≡◌, ap, ◌∙◌, refl, inl, inr, Bool, true, false, not,
  List, [], ◌∷◌, arith, length, drop, leb, All, length-drop, All-drop, drop-drop, Bool-cases,
}
use sing_tun.Checksum.Ones.{canon, word_sum, canon-le}
use sing_tun.Checksum.Words.{
  IsByte, load, load-lt, load-word_sum, double, reverse_bytes16, reverse_bytes16-canon,
}
use sing_tun.Checksum.Generic.Sound.{fold64_lem, unswapped}
use sing_tun.Checksum.Alternate.{
  add_words32, sum_blocks32, sum_tail32, sum_half, sum_last32, accumulate32,
  checksum_generic64_alternate,
}

-- Between two steps: fewer than `m` bytes are left, and the accumulator has room for them.
record Pending32 (big : Bool) (t m : ℕ) (p : ℕ × List ℕ) : Type 0 where
  room : p.0 + 2 ^ 32 * (length p.1 + 1) < 2 ^ 64
  bytes : All IsByte p.1
  short : length p.1 < m
  same : canon (p.0 + word_sum (not big) p.1) ≡ t

Pending32-mono :
    {big : Bool} {t m n : ℕ} {p : ℕ × List ℕ}
    → Pending32 big t m p
    → length p.1 < n
    → Pending32 big t n p
Pending32-mono h l = record { room = h.room; bytes = h.bytes; short = l; same = h.same }

add_load-Pending32 :
    (big : Bool) (j t m : ℕ) (ac : ℕ) (b : List ℕ)
    → 256 ^ double j ≤ 2 ^ 32
    → 0 < double j
    → double j ≤ length b
    → Pending32 big t m (ac, b)
    → Pending32 big t m ((ac + load big (double j) b) % 2 ^ 64, drop (double j) b)
add_load-Pending32 big j t m ac b k pos h p =
    let w = load big (double j) b in
    let w_small : w < 2 ^ 32 = omega (arith, load-lt big (double j) b p.bytes) in
    let len = length-drop (double j) b in
    let exact : (ac + w) % 2 ^ 64 ≡ ac + w = omega (arith, p.room) in
    rw exact (record {
      room = omega (arith, p.room, len);
      bytes = All-drop IsByte (double j) b p.bytes;
      short = omega (arith, p.short, len);
      same = ap canon (omega arith) ∙ load-word_sum big j b ac h ∙ ap canon (omega arith) ∙ p.same;
    })

add_words32-Pending32 :
    (n : ℕ) (big : Bool) (t m : ℕ) (ac : ℕ) (b : List ℕ)
    → 4 * n ≤ length b
    → Pending32 big t m (ac, b)
    → Pending32 big t m (add_words32 big n ac b, drop (4 * n) b)
unfolding add_words32
add_words32-Pending32 zero big t m ac b h p = p
add_words32-Pending32 (suc n) big t m ac b h p =
    let four : 4 * suc n ≡ 4 + 4 * n = omega arith in
    let step = add_load-Pending32 big 2 t m ac b (omega arith) (omega arith) (omega arith) p in
    let rest =
      add_words32-Pending32 n big t m ((ac + load big 4 b) % 2 ^ 64) (drop 4 b)
        (omega (arith, length-drop 4 b)) step in
    rw (four, ← drop-drop (4 * n) 4 b) rest

sum_tail32-Pending32 :
    (big : Bool) (n t : ℕ) (p : ℕ × List ℕ)
    → Pending32 big t (8 * n) p
    → Pending32 big t (4 * n) (sum_tail32 big n p)
unfolding sum_tail32
sum_tail32-Pending32 big n t (ac, b) p = elim (Bool-cases (leb (4 * n) (length b))) [
  | inl e ↦ rw e (
      Pending32-mono (add_words32-Pending32 n big t (8 * n) ac b (ground arith) p)
        (ground (arith, p.short, length-drop (4 * n) b)))
  | inr e ↦ rw e (Pending32-mono p (ground arith))
]

sum_blocks32-Pending32 :
    (fuel : ℕ) (big : Bool) (t : ℕ) (ac : ℕ) (b : List ℕ)
    → length b ≤ fuel
    → Pending32 big t (length b + 1) (ac, b)
    → Pending32 big t 64 (sum_blocks32 fuel big ac b)
unfolding sum_blocks32
sum_blocks32-Pending32 zero big t ac b h p = Pending32-mono p (omega arith)
sum_blocks32-Pending32 (suc fuel) big t ac b h p = elim (Bool-cases (leb 64 (length b))) [
  | inl e ↦ rw e (
      sum_blocks32-Pending32 fuel big t (add_words32 big 16 ac b) (drop 64 b)
        (ground (arith, length-drop 64 b))
        (Pending32-mono (add_words32-Pending32 16 big t (length b + 1) ac b (ground arith) p)
          (omega arith)))
  | inr e ↦ rw e (Pending32-mono p (ground arith))
]

sum_half-Pending32 :
    (big : Bool) (t : ℕ) (p : ℕ × List ℕ) → Pending32 big t 4 p → Pending32 big t 2 (sum_half big p)
unfolding sum_half
sum_half-Pending32 big t (ac, b) p = elim (Bool-cases (leb 2 (length b))) [
  | inl e ↦ rw e (
      Pending32-mono
        (add_load-Pending32 big 1 t 4 ac b (omega arith) (omega arith) (ground arith) p)
        (ground (arith, p.short, length-drop 2 b)))
  | inr e ↦ rw e (Pending32-mono p (ground arith))
]

sum_last32_lem :
    (big : Bool) (t : ℕ) (p : ℕ × List ℕ)
    → Pending32 big t 2 p
    → (sum_last32 big p < 2 ^ 64) × (canon (sum_last32 big p) ≡ t)
unfolding sum_last32 word_sum
sum_last32_lem big t (ac, []) p = (omega (arith, p.room), ap canon (omega arith) ∙ p.same)
sum_last32_lem true t (ac, x ∷ []) p =
    (omega arith, ap canon (omega (arith, p.room, p.bytes.0)) ∙ p.same)
sum_last32_lem false t (ac, x ∷ []) p =
    (omega arith, ap canon (omega (arith, p.room, p.bytes.0)) ∙ p.same)
sum_last32_lem big t (ac, x ∷ y ∷ b) p = absurd (omega (arith, p.short))

accumulate32_lem :
    (big : Bool) (b : List ℕ) (initial : ℕ)
    → All IsByte b
    → initial < 2 ^ 16
    → length b < 2 ^ 31
    → (accumulate32 big b initial < 2 ^ 64)
      × (canon (accumulate32 big b initial) ≡ canon (initial + word_sum (not big) b))
unfolding accumulate32
accumulate32_lem big b initial h hi hl =
    let t = canon (initial + word_sum (not big) b) in
    let start : Pending32 big t (length b + 1) (initial, b) = record {
      room = omega arith;
      bytes = h;
      short = omega arith;
      same = refl;
    } in
    let h1 = sum_blocks32-Pending32 (length b) big t initial b (omega arith) start in
    let h2 = sum_tail32-Pending32 big 8 t _ h1 in
    let h3 = sum_tail32-Pending32 big 4 t _ h2 in
    let h4 = sum_tail32-Pending32 big 2 t _ h3 in
    let h5 = sum_tail32-Pending32 big 1 t _ h4 in
    sum_last32_lem big t _ (sum_half-Pending32 big t _ h5)

-- On a host of either byte order, and for every buffer shorter than 2^31 bytes, the sum of 32-bit
-- words in a uint64 gives the ones' complement sum of `initial` and the 16-bit
-- big-endian words.
pub checksum_generic64_alternate_lem :
    (big : Bool) (b : List ℕ) (initial : ℕ)
    → All IsByte b
    → initial < 2 ^ 16
    → length b < 2 ^ 31
    → checksum_generic64_alternate big b initial ≡ canon (initial + word_sum false b)
unfolding checksum_generic64_alternate
checksum_generic64_alternate_lem true b initial h hi hl =
    let r = accumulate32_lem true b initial h hi hl in
    let n = accumulate32 true b initial in
    fold64_lem n 0 (omega (arith, r.0)) (omega arith) ∙ ap canon (omega arith) ∙ r.1
checksum_generic64_alternate_lem false b initial h hi hl =
    let v = reverse_bytes16 initial in
    let e = reverse_bytes16-canon initial (omega arith) in
    let r = accumulate32_lem false b v h (omega (arith, e, canon-le (256 * initial))) hl in
    let n = accumulate32 false b v in
    unswapped b initial _ hi
      (fold64_lem n 0 (omega (arith, r.0)) (omega arith) ∙ ap canon (omega arith) ∙ r.1)
