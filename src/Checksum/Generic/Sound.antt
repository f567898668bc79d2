-- ===== src/Checksum/Generic/Sound.antt =====
-- checksumGeneric64, and the sum that it is for.
use sing_tun.Base.{
  ℕ, zero, suc, ◌+◌, ◌*◌, ◌^◌, ◌≤◌, ◌<◌, ◌≡◌, ap, ◌∙◌, inl, inr, Bool, true, false, not, List, [],
  ◌∷◌, arith, length, drop, leb, All, length-drop, All-drop, Bool-cases,
}
use sing_tun.Checksum.Ones.{canon, word_sum, canon-mul-canon, canon-le, canon_65536, word_sum_swap}
use sing_tun.Checksum.Words.{
  Acc64, add_words, reverse_bytes16, IsByte, Fits, add64_lem, add64-load, reverse_bytes16-canon,
  double,
}
use sing_tun.Checksum.Pending.{Pending, add_words-Pending, Pending-mono}
use sing_tun.Checksum.Generic.{
  sum_blocks, sum_tail, sum_load, sum_last, ip_checksum_fold64, accumulate, checksum_generic64,
}

sum_tail-Pending :
    (big : Bool) (n t : ℕ) (s : Acc64) (b : List ℕ)
    → Pending big t (16 * n) (s, b)
    → Pending big t (8 * n) (sum_tail big n (s, b))
unfolding sum_tail
sum_tail-Pending big n t s b p = elim (Bool-cases (leb (8 * n) (length b))) [
  | inl e ↦ rw e (
      Pending-mono (add_words-Pending big n t s b (ground arith) (Pending-mono p (omega arith)))
        (ground (arith, p.short, length-drop (8 * n) b)))
  | inr e ↦ rw e (Pending-mono p (ground arith))
]

sum_blocks-Pending :
    (fuel : ℕ) (big : Bool) (t : ℕ) (s : Acc64) (b : List ℕ)
    → length b ≤ fuel
    → Pending big t (length b + 1) (s, b)
    → Pending big t 128 (sum_blocks fuel big s b)
unfolding sum_blocks
sum_blocks-Pending zero big t s b h p = Pending-mono p (omega arith)
sum_blocks-Pending (suc fuel) big t s b h p = elim (Bool-cases (leb 128 (length b))) [
  | inl e ↦ rw e (
      sum_blocks-Pending fuel big t (add_words big 16 s b) (drop 128 b)
        (ground (arith, length-drop 128 b))
        (Pending-mono (add_words-Pending big 16 t s b (ground arith) p) (omega arith)))
  | inr e ↦ rw e (Pending-mono p (ground arith))
]

sum_load-Pending :
    (big : Bool) (j t : ℕ) (s : Acc64) (b : List ℕ)
    → 256 ^ double j ≤ 2 ^ 64
    → Pending big t (2 * double j) (s, b)
    → Pending big t (double j) (sum_load big (double j) (s, b))
unfolding sum_load
sum_load-Pending big j t s b k p = elim (Bool-cases (leb (double j) (length b))) [
  | inl e ↦
      let r = add64-load big j s b k (ground arith) p.bytes p.fits in
      rw e (record {
        fits = r.0;
        bytes = All-drop IsByte (double j) b p.bytes;
        short = ground (arith, p.short, length-drop (double j) b);
        same = r.1 ∙ p.same;
      })
  | inr e ↦ rw e (Pending-mono p (ground arith))
]

sum_last_lem :
    (big : Bool) (t : ℕ) (s : Acc64) (b : List ℕ)
    → Pending big t 2 (s, b)
    → Fits (sum_last big (s, b))
      × (canon ((sum_last big (s, b)).sum + (sum_last big (s, b)).carry) ≡ t)
unfolding sum_last word_sum
sum_last_lem big t s [] p = (p.fits, ap canon (omega arith) ∙ p.same)
sum_last_lem true t s (x ∷ []) p =
    let r = add64_lem s (x * 256) 0 p.fits (omega (arith, p.bytes.0)) in
    (r.0, ap canon (omega arith) ∙ r.1 ∙ ap canon (omega arith) ∙ p.same)
sum_last_lem false t s (x ∷ []) p =
    let r = add64_lem s x 0 p.fits (omega (arith, p.bytes.0)) in
    (r.0, ap canon (omega arith) ∙ r.1 ∙ ap canon (omega arith) ∙ p.same)
sum_last_lem big t s (x ∷ y ∷ b) p = absurd (omega (arith, p.short))

pub fold64_lem :
    (sum carry : ℕ)
    → sum + carry < 2 ^ 64
    → carry ≤ 1
    → ip_checksum_fold64 sum carry ≡ canon (sum + carry)
unfolding ip_checksum_fold64 canon
fold64_lem sum carry h c = ground arith

accumulate_lem :
    (big : Bool) (b : List ℕ) (initial : ℕ)
    → All IsByte b
    → initial < 2 ^ 16
    → Fits (accumulate big b initial)
      × (canon ((accumulate big b initial).sum + (accumulate big b initial).carry)
          ≡ canon (initial + word_sum (not big) b))
unfolding accumulate
accumulate_lem big b initial h hi =
    let t = canon (initial + word_sum (not big) b) in
    let p0 : Acc64 × List ℕ = (record { sum = initial; carry = 0 }, b) in
    let p1 = sum_blocks (length b) big p0.0 b in
    let p2 = sum_tail big 8 p1 in
    let p3 = sum_tail big 4 p2 in
    let p4 = sum_tail big 2 p3 in
    let p5 = sum_tail big 1 p4 in
    let p6 = sum_load big 4 p5 in
    let start : Pending big t (length b + 1) p0 = record {
      fits = (omega arith, omega arith);
      bytes = h;
      short = omega arith;
      same = ap canon (omega arith);
    } in
    let h1 = sum_blocks-Pending (length b) big t p0.0 b (omega arith) start in
    let h2 = sum_tail-Pending big 8 t p1.0 p1.1 h1 in
    let h3 = sum_tail-Pending big 4 t p2.0 p2.1 h2 in
    let h4 = sum_tail-Pending big 2 t p3.0 p3.1 h3 in
    let h5 = sum_tail-Pending big 1 t p4.0 p4.1 h4 in
    let h6 = sum_load-Pending big 2 t p5.0 p5.1 (omega arith) h5 in
    let h7 = sum_load-Pending big 1 t p6.0 p6.1 (omega arith) h6 in
    sum_last_lem big t (sum_load big 2 p6).0 (sum_load big 2 p6).1 h7

-- On a little-endian host the sum of byte-swapped words is swapped back.
pub unswapped :
    (b : List ℕ) (initial x : ℕ)
    → initial < 2 ^ 16
    → x ≡ canon (reverse_bytes16 initial + word_sum true b)
    → reverse_bytes16 x ≡ canon (initial + word_sum false b)
unswapped b initial x hi h =
    let v = reverse_bytes16 initial in
    let e = reverse_bytes16-canon initial (omega arith) in
    let w = word_sum true b in
    ap reverse_bytes16 h
    ∙ reverse_bytes16-canon (canon (v + w)) (canon-le (v + w))
    ∙ ap canon (omega arith)
    ∙ canon-mul-canon (v + w) 0
    ∙ ap canon (omega (arith, e))
    ∙ canon-mul-canon (256 * initial) (256 * w)
    ∙ ap canon (omega arith)
    ∙ canon_65536 initial (256 * w)
    ∙ ap canon (omega arith)
    ∙ word_sum_swap true b initial
    ∙ ap canon (omega arith)

-- On a host of either byte order, and for every buffer, the optimised loop gives the ones'
-- complement sum of `initial` and the 16-bit big-endian words.
pub checksum_generic64_lem :
    (big : Bool) (b : List ℕ) (initial : ℕ)
    → All IsByte b
    → initial < 2 ^ 16
    → checksum_generic64 big b initial ≡ canon (initial + word_sum false b)
unfolding checksum_generic64
checksum_generic64_lem true b initial h hi =
    let r = accumulate_lem true b initial h hi in fold64_lem _ _ r.0.0 r.0.1 ∙ r.1
checksum_generic64_lem false b initial h hi =
    let v = reverse_bytes16 initial in
    let e = reverse_bytes16-canon initial (omega arith) in
    let r = accumulate_lem false b v h (omega (arith, e, canon-le (256 * initial))) in
    unswapped b initial _ hi (fold64_lem _ _ r.0.0 r.0.1 ∙ r.1)
