-- ===== src/Checksum/Generic.antt =====
-- checksumGeneric64 and ipChecksumFold64 of internal/tschecksum/checksum.go.
pub mod Sound
use sing_tun.Base.{
  ℕ, zero, suc, ◌+◌, ◌*◌, ◌/◌, ◌%◌, ◌^◌, ◌≤◌, ◌<◌, ◌≡◌, refl, ap, ◌∙◌, Bool, true, false, not, List,
  [], ◌∷◌, arith, length, drop, leb, if◌then◌else◌,
}
use sing_tun.Checksum.Words.{Acc64, add64, add_words, load, reverse_bytes16}

-- The loop `for len(b) >= 128`: sixteen additions a round. The fuel is the length of the buffer.
sum_blocks : ℕ → Bool → Acc64 → List ℕ → Acc64 × List ℕ
sum_blocks zero big s b = (s, b)
sum_blocks (suc fuel) big s b =
    let rest = sum_blocks fuel big (add_words big 16 s b) (drop 128 b) in
    if leb 128 (length b) then rest else (s, b)

-- `if len(b) >= 8*n { n additions of 8 bytes; b = b[8*n:] }`
sum_tail : Bool → ℕ → Acc64 × List ℕ → Acc64 × List ℕ
sum_tail big n (s, b) =
    if leb (8 * n) (length b) then (add_words big n s b, drop (8 * n) b) else (s, b)

-- `if len(b) >= k { one addition of k bytes; b = b[k:] }`
sum_load : Bool → ℕ → Acc64 × List ℕ → Acc64 × List ℕ
sum_load big k (s, b) = if leb k (length b) then (add64 s (load big k b), drop k b) else (s, b)

-- `if len(b) >= 1`: the last byte, at its place in a 16-bit word.
sum_last : Bool → Acc64 × List ℕ → Acc64
sum_last big (s, []) = s
sum_last big (s, x ∷ b) = add64 s (if big then x * 256 else x)

-- The three folds; `sum` and `carry` are those of the 32-bit addition.
pub ip_checksum_fold64 : ℕ → ℕ → ℕ
ip_checksum_fold64 unfolded initial_carry =
    let added = unfolded / 2 ^ 32 + unfolded % 2 ^ 32 + initial_carry % 2 ^ 32 in
    let sum = added % 2 ^ 32 in
    let carry = added / 2 ^ 32 in
    let sum2 = (sum / 2 ^ 16 + sum % 2 ^ 16 + carry) % 2 ^ 32 in
    (sum2 / 2 ^ 16 + sum2 % 2 ^ 16) % 2 ^ 16

-- All additions, in the host's byte order.
accumulate : Bool → List ℕ → ℕ → Acc64
accumulate big b initial =
    let start : Acc64 = record { sum = initial; carry = 0 } in
    let blocks = sum_blocks (length b) big start b in
    let words = sum_tail big 1 (sum_tail big 2 (sum_tail big 4 (sum_tail big 8 blocks))) in
    sum_last big (sum_load big 2 (sum_load big 4 words))

pub checksum_generic64 : Bool → List ℕ → ℕ → ℕ
checksum_generic64 big b initial =
    let s = accumulate big b (if big then initial else reverse_bytes16 initial) in
    let folded = ip_checksum_fold64 s.sum s.carry in if big then folded else reverse_bytes16 folded
