-- ===== src/Checksum/Unsafe/Small.antt =====
-- Buffers of fewer than 8 bytes.
use sing_tun.Base.{
  ℕ, ◌+◌, ◌-◌, ◌^◌, ◌≤◌, ◌<◌, ◌≡◌, ap, ◌∙◌, inl, inr, true, false, List, [], ◌∷◌, arith, length,
  drop, leb, All, length-drop, Bool-cases, drop-drop,
}
use sing_tun.Checksum.Ones.{canon, word_sum}
use sing_tun.Checksum.Words.{load, load_be, IsByte, double}
use sing_tun.Checksum.Pending.{Pending, Pending-mono}
use sing_tun.Checksum.Unsafe.{plus64, reduce, sum_small4, sum_small2, sum_small1}
use sing_tun.Checksum.Unsafe.Rounds.{held, reduce_lem, plus_load-Pending}

-- Fewer than eight bytes, read as big-endian words.
small_load :
    (j t acc c : ℕ) (b : List ℕ)
    → acc < c
    → c + 256 ^ double j ≤ 2 ^ 64
    → double j ≤ length b
    → Pending true t (length b + 1) (held acc, b)
    → Pending true t
        (length b - double j + 1)
        (held (plus64 acc (load_be (double j) b)), drop (double j) b)
      × (plus64 acc (load_be (double j) b) < c + 256 ^ double j)
unfolding load
small_load j t acc c b ha hc hl p = plus_load-Pending true j t acc c b ha hc hl p

sum_small4-Pending :
    (t acc : ℕ) (b : List ℕ)
    → acc < 2 ^ 24
    → Pending true t 8 (held acc, b)
    → Pending true t 4 (held (sum_small4 (acc, b)).0, (sum_small4 (acc, b)).1)
      × ((sum_small4 (acc, b)).0 < 2 ^ 25)
unfolding sum_small4
sum_small4-Pending t acc b ha p = elim (Bool-cases (leb 4 (length b))) [
  | inl e ↦
      let h1 =
        small_load 1 t acc (2 ^ 24) b ha (omega arith) (ground arith)
          (Pending-mono p (omega arith)) in
      let acc1 = plus64 acc (load_be 2 b) in
      let b1 = drop 2 b in
      let h2 =
        small_load 1 t acc1 (2 ^ 24 + 256 ^ 2) b1 h1.1 (omega arith)
          (ground (arith, length-drop 2 b)) (Pending-mono h1.0 (omega arith)) in
      rw e (
        Pending-mono (rw drop-drop at h2.0) (ground (arith, p.short, length-drop 4 b)),
        omega (arith, h2.1),
      )
  | inr e ↦ rw e (Pending-mono p (ground arith), omega arith)
]

sum_small2-Pending :
    (t acc : ℕ) (b : List ℕ)
    → acc < 2 ^ 25
    → Pending true t 4 (held acc, b)
    → Pending true t 2 (held (sum_small2 (acc, b)).0, (sum_small2 (acc, b)).1)
      × ((sum_small2 (acc, b)).0 < 2 ^ 26)
unfolding sum_small2
sum_small2-Pending t acc b ha p = elim (Bool-cases (leb 2 (length b))) [
  | inl e ↦
      let h1 =
        small_load 1 t acc (2 ^ 25) b ha (omega arith) (ground arith)
          (Pending-mono p (omega arith)) in
      rw e (Pending-mono h1.0 (ground (arith, p.short, length-drop 2 b)), omega (arith, h1.1))
  | inr e ↦ rw e (Pending-mono p (ground arith), omega arith)
]

sum_small1_lem :
    (t acc : ℕ) (b : List ℕ)
    → acc < 2 ^ 26
    → Pending true t 2 (held acc, b)
    → (sum_small1 (acc, b) < 2 ^ 64) × (canon (sum_small1 (acc, b)) ≡ t)
unfolding sum_small1 word_sum plus64
sum_small1_lem t acc [] ha p = (omega arith, ap canon (omega arith) ∙ p.same)
sum_small1_lem t acc (x ∷ []) ha p =
    let b : x < 256 = p.bytes.0 in (omega arith, ap canon (omega arith) ∙ p.same)
sum_small1_lem t acc (x ∷ y ∷ b) ha p = absurd (omega (arith, p.short))

pub sum_small_lem :
    (acc : ℕ) (b : List ℕ)
    → acc < 2 ^ 24
    → length b < 8
    → All IsByte b
    → reduce (sum_small1 (sum_small2 (sum_small4 (acc, b)))) ≡ canon (acc + word_sum false b)
sum_small_lem acc b ha hl hb =
    let t = canon (acc + word_sum false b) in
    let h4 = sum_small4-Pending t acc b ha (record {
      fits = (omega arith, omega arith);
      bytes = hb;
      short = hl;
      same = ap canon (omega arith);
    }) in
    let p4 = sum_small4 (acc, b) in
    let h2 = sum_small2-Pending t p4.0 p4.1 h4.1 h4.0 in
    let p2 = sum_small2 p4 in
    let h1 = sum_small1_lem t p2.0 p2.1 h2.1 h2.0 in reduce_lem (sum_small1 p2) h1.0 ∙ h1.1
