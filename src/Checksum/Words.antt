-- ===== src/Checksum/Words.antt =====
-- Machine words as the checksum routines load and add them: binary.LittleEndian, binary.BigEndian,
-- bits.Add64 and bits.ReverseBytes16. `big` is the host's byte order (cpu.IsBigEndian).
use native.Mathlib.Nat.{pow-suc}
use sing_tun.Base.{
  ℕ, zero, suc, ◌+◌, ◌*◌, ◌/◌, ◌%◌, ◌^◌, ◌≤◌, ◌<◌, ◌≡◌, refl, ap, ◌∙◌, Bool, true, false, not, List,
  [], ◌∷◌, arith, length, drop, All, length-drop, All-drop, drop-drop, if◌then◌else◌,
}
use sing_tun.Checksum.Ones.{canon, word_sum, canon_65536}

abbrev pub IsByte : ℕ → Type 0
IsByte b = b < 256

-- The first `k` bytes as a number, lowest byte first.
unfoldable pub load_le : ℕ → List ℕ → ℕ
load_le zero b = 0
load_le (suc k) [] = 0
load_le (suc k) (x ∷ b) = x + 256 * load_le k b

-- The first `k` bytes as a number, highest byte first.
unfoldable pub load_be : ℕ → List ℕ → ℕ
load_be zero b = 0
load_be (suc k) [] = 0
load_be (suc k) (x ∷ b) = x * 256 ^ k + load_be k b

unfoldable pub load : Bool → ℕ → List ℕ → ℕ
load big k b = if big then load_be k b else load_le k b

pub load_le-lt : (k : ℕ) (b : List ℕ) → All IsByte b → load_le k b < 256 ^ k
unfolding load_le
load_le-lt zero b h = omega arith
load_le-lt (suc k) [] h = omega (arith, pow-suc 256 k, load_le-lt k [] tt)
load_le-lt (suc k) (x ∷ b) h = omega (arith, pow-suc 256 k, load_le-lt k b h.1, h.0)

pub load_be-lt : (k : ℕ) (b : List ℕ) → All IsByte b → load_be k b < 256 ^ k
unfolding load_be
load_be-lt zero b h = omega arith
load_be-lt (suc k) [] h = omega (arith, pow-suc 256 k, load_be-lt k [] tt)
load_be-lt (suc k) (x ∷ b) h = grind (arith, pow-suc 256 k, load_be-lt k b h.1, h.0)

pub load-lt : (big : Bool) (k : ℕ) (b : List ℕ) → All IsByte b → load big k b < 256 ^ k
unfolding load
load-lt true k b h = load_be-lt k b h
load-lt false k b h = load_le-lt k b h

abbrev pub double : ℕ → ℕ
double zero = zero
double (suc j) = suc (suc (double j))

canon_pow : (j t s : ℕ) → canon (t * 256 ^ double j + s) ≡ canon (t + s)
canon_pow zero t s = ap canon (omega arith)
canon_pow (suc j) t s =
    ap canon (
      omega (
        arith,
        ap (λ (p : ℕ). t * p) (pow-suc 256 (suc (double j))),
        ap (λ (p : ℕ). t * p) (pow-suc 256 (double j)),
      ))
    ∙ canon_65536 (t * 256 ^ double j) s
    ∙ canon_pow j t s

load_le-word_sum :
    (j : ℕ) (b : List ℕ) (s : ℕ)
    → double j ≤ length b
    → canon (load_le (double j) b + word_sum true (drop (double j) b) + s)
      ≡ canon (word_sum true b + s)
unfolding load_le word_sum
load_le-word_sum zero b s h = ap canon (omega arith)
load_le-word_sum (suc j) [] s h = absurd (omega arith)
load_le-word_sum (suc j) (x ∷ []) s h = absurd (omega arith)
load_le-word_sum (suc j) (x ∷ y ∷ b) s h =
    ap canon (omega arith)
    ∙ canon_65536 (load_le (double j) b) (word_sum true (drop (double j) b) + (x + 256 * y + s))
    ∙ ap canon (omega arith)
    ∙ load_le-word_sum j b (x + 256 * y + s) (omega arith)
    ∙ ap canon (omega arith)

load_be-word_sum :
    (j : ℕ) (b : List ℕ) (s : ℕ)
    → double j ≤ length b
    → canon (load_be (double j) b + word_sum false (drop (double j) b) + s)
      ≡ canon (word_sum false b + s)
unfolding load_be word_sum
load_be-word_sum zero b s h = ap canon (omega arith)
load_be-word_sum (suc j) [] s h = absurd (omega arith)
load_be-word_sum (suc j) (x ∷ []) s h = absurd (omega arith)
load_be-word_sum (suc j) (x ∷ y ∷ b) s h =
    ap canon (omega (arith, ap (λ (p : ℕ). x * p) (pow-suc 256 (double j))))
    ∙ canon_pow j (256 * x + y) (load_be (double j) b + word_sum false (drop (double j) b) + s)
    ∙ ap canon (omega arith)
    ∙ load_be-word_sum j b (256 * x + y + s) (omega arith)
    ∙ ap canon (omega arith)

-- A load of an even number of bytes counts as the host's 16-bit words that it holds.
pub load-word_sum :
    (big : Bool) (j : ℕ) (b : List ℕ) (s : ℕ)
    → double j ≤ length b
    → canon (load big (double j) b + word_sum (not big) (drop (double j) b) + s)
      ≡ canon (word_sum (not big) b + s)
unfolding load
load-word_sum true j b s h = load_be-word_sum j b s h
load-word_sum false j b s h = load_le-word_sum j b s h

-- The accumulator of a sum: `sum` is a uint64, `carry` the carry out of the last addition.
pub record Acc64 : Type 0 where
  pub sum : ℕ
  pub carry : ℕ

-- bits.Add64(s.sum, x, s.carry)
unfoldable pub add64 : Acc64 → ℕ → Acc64
add64 s x = record { sum = (s.sum + x + s.carry) % 2 ^ 64; carry = (s.sum + x + s.carry) / 2 ^ 64 }

-- `n` calls of Add64 in a row, on consecutive 8-byte words.
unfoldable pub add_words : Bool → ℕ → Acc64 → List ℕ → Acc64
add_words big zero s b = s
add_words big (suc n) s b = add_words big n (add64 s (load big 8 b)) (drop 8 b)

-- bits.ReverseBytes16
unfoldable pub reverse_bytes16 : ℕ → ℕ
reverse_bytes16 v = v % 256 * 256 + v / 256

-- The carry is one at most, and where it is one there is room for it in the sum.
abbrev pub Fits : Acc64 → Type 0
Fits s = (s.sum + s.carry < 2 ^ 64) × (s.carry ≤ 1)

-- What the bytes still to be summed would make of the accumulator.
abbrev pub total : Bool → Acc64 → List ℕ → ℕ
total big s b = canon (s.sum + s.carry + word_sum (not big) b)

pub add64_lem :
    (s : Acc64) (x t : ℕ)
    → Fits s
    → x < 2 ^ 64
    → Fits (add64 s x)
      × (canon ((add64 s x).sum + (add64 s x).carry + t) ≡ canon (s.sum + s.carry + x + t))
unfolding add64 canon
add64_lem s x t h hx = (ground arith, ground arith)

pub add64-load :
    (big : Bool) (j : ℕ) (s : Acc64) (b : List ℕ)
    → 256 ^ double j ≤ 2 ^ 64
    → double j ≤ length b
    → All IsByte b
    → Fits s
    → Fits (add64 s (load big (double j) b))
      × (total big (add64 s (load big (double j) b)) (drop (double j) b) ≡ total big s b)
add64-load big j s b h8 hl hb h =
    let w = load big (double j) b in
    let rest = word_sum (not big) (drop (double j) b) in
    let added = add64_lem s w rest h (omega (arith, load-lt big (double j) b hb)) in
    (
      added.0,
      added.1
          ∙ ap canon (omega arith)
          ∙ load-word_sum big j b (s.sum + s.carry) hl
          ∙ ap canon (omega arith),
    )

pub add_words_lem :
    (big : Bool) (n : ℕ) (s : Acc64) (b : List ℕ)
    → 8 * n ≤ length b
    → All IsByte b
    → Fits s
    → Fits (add_words big n s b)
      × (total big (add_words big n s b) (drop (8 * n) b) ≡ total big s b)
unfolding add_words
add_words_lem big zero s b hl hb h = (h, refl)
add_words_lem big (suc n) s b hl hb h =
    let first = add64-load big 4 s b (omega arith) (omega arith) hb h in
    let rest =
      add_words_lem big n (add64 s (load big 8 b)) (drop 8 b) (omega (arith, length-drop 8 b))
        (All-drop IsByte 8 b hb) first.0 in
    (
      rest.0,
      (let e : 8 * suc n ≡ 8 + 8 * n = omega arith in rw e (rw drop-drop at rest.1)) ∙ first.1,
    )

pub reverse_bytes16-canon : (v : ℕ) → v ≤ 65535 → reverse_bytes16 v ≡ canon (256 * v)
unfolding reverse_bytes16 canon
reverse_bytes16-canon v h = ground arith

-- bits.ReverseBytes32
unfoldable pub reverse_bytes32 : ℕ → ℕ
reverse_bytes32 v =
    v % 256 * 2 ^ 24 + v / 256 % 256 * 2 ^ 16 + v / 2 ^ 16 % 256 * 2 ^ 8 + v / 2 ^ 24

pub reverse_bytes32-canon :
    (v s : ℕ) → v < 2 ^ 32 → canon (reverse_bytes32 v + s) ≡ canon (256 * v + s)
unfolding reverse_bytes32 canon
reverse_bytes32-canon v s h = ground arith
