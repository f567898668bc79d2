-- ===== src/Checksum/Alternate.antt =====
-- checksumGeneric64Alternate of internal/tschecksum/checksum.go: 32-bit words summed in a uint64.
pub mod Sound
use sing_tun.Base.{
  ℕ, zero, suc, ◌+◌, ◌*◌, ◌%◌, ◌^◌, Bool, true, false, List, [], ◌∷◌, length, drop, leb,
  if◌then◌else◌,
}
use sing_tun.Checksum.Words.{load, reverse_bytes16}
use sing_tun.Checksum.Generic.{ip_checksum_fold64}

-- `n` additions of 4 bytes each.
pub add_words32 : Bool → ℕ → ℕ → List ℕ → ℕ
add_words32 big zero ac b = ac
add_words32 big (suc n) ac b = add_words32 big n ((ac + load big 4 b) % 2 ^ 64) (drop 4 b)

-- The loop `for len(b) >= 64`. The fuel is the length of the buffer.
pub sum_blocks32 : ℕ → Bool → ℕ → List ℕ → ℕ × List ℕ
sum_blocks32 zero big ac b = (ac, b)
sum_blocks32 (suc fuel) big ac b =
    let rest = sum_blocks32 fuel big (add_words32 big 16 ac b) (drop 64 b) in
    if leb 64 (length b) then rest else (ac, b)

-- `if len(b) >= 4*n { n additions; b = b[4*n:] }`
pub sum_tail32 : Bool → ℕ → ℕ × List ℕ → ℕ × List ℕ
sum_tail32 big n (ac, b) =
    if leb (4 * n) (length b) then (add_words32 big n ac b, drop (4 * n) b) else (ac, b)

-- `if len(b) >= 2`
pub sum_half : Bool → ℕ × List ℕ → ℕ × List ℕ
sum_half big (ac, b) =
    if leb 2 (length b) then ((ac + load big 2 b) % 2 ^ 64, drop 2 b) else (ac, b)

-- `if len(b) >= 1`
pub sum_last32 : Bool → ℕ × List ℕ → ℕ
sum_last32 big (ac, []) = ac
sum_last32 big (ac, x ∷ b) = (ac + (if big then x * 256 else x)) % 2 ^ 64

pub accumulate32 : Bool → List ℕ → ℕ → ℕ
accumulate32 big b initial =
    let blocks = sum_blocks32 (length b) big initial b in
    let words = sum_tail32 big 1 (sum_tail32 big 2 (sum_tail32 big 4 (sum_tail32 big 8 blocks))) in
    sum_last32 big (sum_half big words)

pub checksum_generic64_alternate : Bool → List ℕ → ℕ → ℕ
checksum_generic64_alternate big b initial =
    let folded =
      ip_checksum_fold64 (accumulate32 big b (if big then initial else reverse_bytes16 initial))
        0 in
    if big then folded else reverse_bytes16 folded
