-- ===== src/Checksum/Unsafe/Rounds.antt =====
-- The carry chains of calculateChecksum, from the first aligned byte to the end.
use sing_tun.Base.{
  ℕ, zero, suc, ◌+◌, ◌-◌, ◌*◌, ◌/◌, ◌%◌, ◌^◌, ◌≤◌, ◌<◌, ◌≡◌, ap, ◌∙◌, inl, inr, Bool, true, false,
  not, List, [], ◌∷◌, arith, length, drop, leb, ◌==◌, if◌then◌else◌, All, length-drop, All-drop,
  Bool-cases,
}
use sing_tun.Checksum.Ones.{canon, word_sum}
use sing_tun.Checksum.Words.{
  Acc64, add64, load, reverse_bytes16, IsByte, Fits, add64-load, double, load-lt, load-word_sum,
}
use sing_tun.Checksum.Pending.{Pending, add_words-Pending, Pending-mono}
use sing_tun.Checksum.Unsafe.{
  plus64, reduce, bswap_if_big16, align, round, sum_rounds, sum_words, carry_in, sum_bytes,
  sum_byte, sum_aligned,
}

abbrev pub held : ℕ → Acc64
held acc = record { sum = acc; carry = 0 }

settle : (s : Acc64) → Fits s → (add64 s 0).sum ≡ s.sum + s.carry
unfolding add64
settle s h = ground arith

pub reduce_lem : (acc : ℕ) → acc < 2 ^ 64 → reduce acc ≡ canon acc
unfolding reduce canon
reduce_lem acc h = ground arith

-- Folding the carry into the sum keeps the invariant.
settle-Pending :
    (big : Bool) (t m : ℕ) (s : Acc64) (b : List ℕ)
    → Pending big t m (s, b)
    → Pending big t m (held (add64 s 0).sum, b)
settle-Pending big t m s b p =
    let e = settle s p.fits in
    record {
      fits = (omega (arith, e, p.fits.0), omega arith);
      bytes = p.bytes;
      short = p.short;
      same = ap canon (omega (arith, e)) ∙ p.same;
    }

round-Pending :
    (big : Bool) (n t acc : ℕ) (b : List ℕ)
    → 8 * n ≤ length b
    → Pending big t (length b + 1) (held acc, b)
    → Pending big t (length b - 8 * n + 1) (held (round big n acc b), drop (8 * n) b)
unfolding round
round-Pending big n t acc b h p =
    settle-Pending big t _ _ _ (add_words-Pending big n t (held acc) b h p)

sum_words-Pending :
    (big : Bool) (n t acc : ℕ) (b : List ℕ)
    → Pending big t (16 * n) (held acc, b)
    → Pending big t (8 * n) (held (sum_words big n (acc, b)).0, (sum_words big n (acc, b)).1)
unfolding sum_words
sum_words-Pending big n t acc b p = elim (Bool-cases (leb (8 * n) (length b))) [
  | inl e ↦ rw e (
      Pending-mono (round-Pending big n t acc b (ground arith) (Pending-mono p (omega arith)))
        (ground (arith, p.short, length-drop (8 * n) b)))
  | inr e ↦ rw e (Pending-mono p (ground arith))
]

sum_rounds-Pending :
    (fuel : ℕ) (big : Bool) (t acc : ℕ) (b : List ℕ)
    → length b ≤ fuel
    → Pending big t (length b + 1) (held acc, b)
    → Pending big t 64 (held (sum_rounds fuel big acc b).0, (sum_rounds fuel big acc b).1)
unfolding sum_rounds
sum_rounds-Pending zero big t acc b h p = Pending-mono p (omega arith)
sum_rounds-Pending (suc fuel) big t acc b h p = elim (Bool-cases (leb 64 (length b))) [
  | inl e ↦ rw e (
      sum_rounds-Pending fuel big t (round big 8 acc b) (drop 64 b)
        (ground (arith, length-drop 64 b))
        (Pending-mono (round-Pending big 8 t acc b (ground arith) p) (omega arith)))
  | inr e ↦ rw e (Pending-mono p (ground arith))
]

sum_bytes-Pending :
    (big : Bool) (j t acc : ℕ) (b : List ℕ)
    → 256 ^ double j ≤ 2 ^ 64
    → Pending big t (2 * double j) (held acc, b)
    → Pending big t
        (double j)
        (held (sum_bytes big (double j) (acc, b)).0, (sum_bytes big (double j) (acc, b)).1)
unfolding sum_bytes carry_in
sum_bytes-Pending big j t acc b k p = elim (Bool-cases (leb (double j) (length b))) [
  | inl e ↦
      let r = add64-load big j (held acc) b k (ground arith) p.bytes p.fits in
      rw e (
        settle-Pending big t _ _ _ (record {
          fits = r.0;
          bytes = All-drop IsByte (double j) b p.bytes;
          short = ground (arith, p.short, length-drop (double j) b);
          same = r.1 ∙ p.same;
        }))
  | inr e ↦ rw e (Pending-mono p (ground arith))
]

carry_in_lem :
    (acc x : ℕ)
    → acc < 2 ^ 64
    → x < 2 ^ 64
    → (carry_in acc x < 2 ^ 64) × (canon (carry_in acc x) ≡ canon (acc + x))
unfolding carry_in add64 canon
carry_in_lem acc x h k = (ground arith, ground arith)

sum_byte_lem :
    (big : Bool) (t acc : ℕ) (b : List ℕ)
    → Pending big t 2 (held acc, b)
    → (sum_byte big (acc, b) < 2 ^ 64) × (canon (sum_byte big (acc, b)) ≡ t)
unfolding sum_byte word_sum bswap_if_big16 reverse_bytes16
sum_byte_lem big t acc [] p = (omega (arith, p.fits.0), ap canon (omega arith) ∙ p.same)
sum_byte_lem true t acc (x ∷ []) p =
    let b : x < 256 = p.bytes.0 in
    let r = carry_in_lem acc (x % 256 * 256 + x / 256) (omega (arith, p.fits.0)) (omega arith) in
    (r.0, r.1 ∙ ap canon (omega arith) ∙ p.same)
sum_byte_lem false t acc (x ∷ []) p =
    let r = carry_in_lem acc x (omega (arith, p.fits.0)) (omega (arith, p.bytes.0)) in
    (r.0, r.1 ∙ ap canon (omega arith) ∙ p.same)
sum_byte_lem big t acc (x ∷ y ∷ b) p = absurd (omega (arith, p.short))

-- A plain addition of a load, where the accumulator is small enough.
pub plus_load-Pending :
    (big : Bool) (j t acc c : ℕ) (b : List ℕ)
    → acc < c
    → c + 256 ^ double j ≤ 2 ^ 64
    → double j ≤ length b
    → Pending big t (length b + 1) (held acc, b)
    → Pending big t
        (length b - double j + 1)
        (held (plus64 acc (load big (double j) b)), drop (double j) b)
      × (plus64 acc (load big (double j) b) < c + 256 ^ double j)
unfolding plus64
plus_load-Pending big j t acc c b ha hc hl p =
    let w = load big (double j) b in
    let small = load-lt big (double j) b p.bytes in
    let e : (acc + w) % 2 ^ 64 ≡ acc + w = omega arith in
    let rest = word_sum (not big) (drop (double j) b) in
    (
      record {
        fits = (omega arith, omega arith);
        bytes = All-drop IsByte (double j) b p.bytes;
        short = omega (arith, length-drop (double j) b);
        same =
            ap canon (omega arith) ∙ load-word_sum big j b acc hl ∙ ap canon (omega arith) ∙ p.same;
      },
      omega arith,
    )

align-Pending :
    (big wanted : Bool) (j t acc c : ℕ) (b : List ℕ)
    → acc < c
    → c + 256 ^ double j ≤ 2 ^ 64
    → double j ≤ length b
    → Pending big t (length b + 1) (held acc, b)
    → let r = align big wanted (double j) (acc, b) in
      Pending big t (length b + 1) (held r.0, r.1)
      × (r.0 < c + 256 ^ double j)
      × (length b - double j ≤ length r.1)
unfolding align
align-Pending big true j t acc c b ha hc hl p =
    let r = plus_load-Pending big j t acc c b ha hc hl p in
    (
      Pending-mono r.0 (omega (arith, length-drop (double j) b)),
      r.1,
      omega (arith, length-drop (double j) b),
    )
align-Pending big false j t acc c b ha hc hl p = (p, omega arith, omega arith)

pub sum_aligned_lem :
    (big : Bool) (addr acc : ℕ) (b : List ℕ)
    → acc < 2 ^ 33
    → 7 ≤ length b
    → All IsByte b
    → (sum_aligned big addr acc b < 2 ^ 64)
      × (canon (sum_aligned big addr acc b) ≡ canon (acc + word_sum (not big) b))
unfolding sum_aligned
sum_aligned_lem big addr acc b ha hl hb =
    let t = canon (acc + word_sum (not big) b) in
    let start : Pending big t (length b + 1) (held acc, b) = record {
      fits = (omega arith, omega arith);
      bytes = hb;
      short = omega arith;
      same = ap canon (omega arith);
    } in
    let p = align big (addr / 2 % 2 == 1) 2 (acc, b) in
    let h1 =
      align-Pending big (addr / 2 % 2 == 1) 1 t acc (2 ^ 33) b ha (omega arith) (omega arith)
        start in
    let addr' = if addr / 2 % 2 == 1 then addr + 2 else addr in
    let q = align big (addr' / 4 % 2 == 1) 4 p in
    let h2 =
      align-Pending big (addr' / 4 % 2 == 1) 2 t p.0 (2 ^ 33 + 256 ^ 2) p.1 h1.1 (omega arith)
        (omega arith) (again p.0 p.1 h1.0) in
    let r = sum_rounds (length q.1) big q.0 q.1 in
    let h3 = sum_rounds-Pending (length q.1) big t q.0 q.1 (omega arith) (again q.0 q.1 h2.0) in
    let w4 = sum_words big 4 r in
    let h4 = sum_words-Pending big 4 t r.0 r.1 h3 in
    let w2 = sum_words big 2 w4 in
    let h5 = sum_words-Pending big 2 t w4.0 w4.1 h4 in
    let w1 = sum_words big 1 w2 in
    let h6 = sum_words-Pending big 1 t w2.0 w2.1 h5 in
    let b4 = sum_bytes big 4 w1 in
    let h7 = sum_bytes-Pending big 2 t w1.0 w1.1 (omega arith) h6 in
    let b2 = sum_bytes big 2 b4 in
    let h8 = sum_bytes-Pending big 1 t b4.0 b4.1 (omega arith) h7 in sum_byte_lem big t b2.0 b2.1 h8
  where
    again :
        (x : ℕ) (ys : List ℕ) {n : ℕ}
        → Pending big (canon (acc + word_sum (not big) b)) n (held x, ys)
        → Pending big (canon (acc + word_sum (not big) b)) (length ys + 1) (held x, ys)
    again x ys h = Pending-mono h (omega arith)
