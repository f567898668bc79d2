-- ===== src/Checksum/Ones.antt =====
-- Ones' complement arithmetic on 16 bits (RFC 1071), the specification of every checksum routine.
use sing_tun.Base.{
  ℕ, ◌+◌, ◌-◌, ◌*◌, ◌/◌, ◌%◌, ◌≤◌, ◌≡◌, refl, Bool, true, false, not, List, [], ◌∷◌, ◌++◌, arith,
  ap, ◌∙◌, ◌==◌, if◌then◌else◌,
}

-- The ones' complement sum that a plain sum stands for: 0 for 0, otherwise the representative
-- in 1 to 65535.
unfoldable pub canon : ℕ → ℕ
canon n = if n == 0 then 0 else (n + 65534) % 65535 + 1

-- The 16-bit big-endian words of a buffer, summed; a last odd byte is padded with zero.
-- `odd` says that an odd number of bytes came before.
unfoldable pub word_sum : Bool → List ℕ → ℕ
word_sum odd [] = 0
word_sum false (x ∷ xs) = x * 256 + word_sum true xs
word_sum true (x ∷ xs) = x + word_sum false xs

pub canon-le : (n : ℕ) → canon n ≤ 65535
unfolding canon
canon-le n = ground arith

pub canon_small : (n : ℕ) → n ≤ 65535 → canon n ≡ n
unfolding canon
canon_small n h = ground arith

pub canon-canon-add : (a b : ℕ) → canon (canon a + b) ≡ canon (a + b)
unfolding canon
canon-canon-add a b = ground arith

pub canon-add-canon : (a b : ℕ) → canon (a + canon b) ≡ canon (a + b)
unfolding canon
canon-add-canon a b = ground arith

pub canon_65536 : (a b : ℕ) → canon (65536 * a + b) ≡ canon (a + b)
unfolding canon
canon_65536 a b = ground arith

-- One fold of the high half into the low half.
pub canon_fold : (a : ℕ) → canon (a / 65536 + a % 65536) ≡ canon a
unfolding canon
canon_fold a = ground arith

pub canon-mul-canon : (a b : ℕ) → canon (256 * canon a + b) ≡ canon (256 * a + b)
unfolding canon
canon-mul-canon a b = ground arith

-- Adding 65535 to a sum that is not zero changes nothing.
pub canon_complement : (a b : ℕ) → canon (a + (65535 - canon a) + b) ≡ canon (65535 + b)
unfolding canon
canon_complement a b = ground arith

-- The parity of a length, beginning with `odd`.
unfoldable pub odd_after : Bool → List ℕ → Bool
odd_after odd [] = odd
odd_after odd (x ∷ xs) = odd_after (not odd) xs

pub word_sum-append :
    (odd : Bool) (xs ys : List ℕ)
    → word_sum odd (xs ++ ys) ≡ word_sum odd xs + word_sum (odd_after odd xs) ys
unfolding word_sum odd_after
word_sum-append odd [] ys = omega arith
word_sum-append false (x ∷ xs) ys = omega (arith, word_sum-append true xs ys)
word_sum-append true (x ∷ xs) ys = omega (arith, word_sum-append false xs ys)

-- Swapping the two bytes of every word multiplies the sum by 256.
pub word_sum_swap :
    (odd : Bool) (xs : List ℕ) (b : ℕ)
    → canon (256 * word_sum odd xs + b) ≡ canon (word_sum (not odd) xs + b)
unfolding word_sum
word_sum_swap odd [] b = refl
word_sum_swap false (x ∷ xs) b =
    ap canon (omega arith)
    ∙ canon_65536 x (256 * word_sum true xs + b)
    ∙ ap canon (omega arith)
    ∙ word_sum_swap true xs (x + b)
    ∙ ap canon (omega arith)
word_sum_swap true (x ∷ xs) b =
    ap canon (omega arith) ∙ word_sum_swap false xs (256 * x + b) ∙ ap canon (omega arith)
