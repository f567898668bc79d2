-- ===== src/Checksum/Unsafe.antt =====
-- calculateChecksum and reduce of internal/gtcpip/checksum/checksum_unsafe.go, with Combine of
-- checksum.go. `big` is the host's byte order and `addr` the address of the buffer's first byte.
mod Rounds
mod Large
mod Small
pub mod Sound
use sing_tun.Base.{
  ℕ, zero, suc, ◌+◌, ◌*◌, ◌/◌, ◌%◌, ◌^◌, Bool, true, false, not, Option, none, some, List, [], ◌∷◌,
  length, drop, leb, ltb, ◌==◌, if◌then◌else◌,
}
use sing_tun.Checksum.Words.{
  Acc64, add64, add_words, load, load_be, reverse_bytes16, reverse_bytes32,
}

-- acc += x on a uint64
pub plus64 : ℕ → ℕ → ℕ
plus64 acc x = (acc + x) % 2 ^ 64

pub reduce : ℕ → ℕ
reduce acc =
    let folded = acc / 2 ^ 32 + acc % 2 ^ 32 in
    let acc32 = (folded / 2 ^ 32 + folded) % 2 ^ 32 in
    let acc32' = acc32 / 2 ^ 16 + acc32 % 2 ^ 16 in (acc32' / 2 ^ 16 + acc32') % 2 ^ 16

-- bswapIfLittleEndian32, bswapIfLittleEndian16 and bswapIfBigEndian16
bswap_if_little32 : Bool → ℕ → ℕ
bswap_if_little32 big v = if big then v else reverse_bytes32 v

bswap_if_little16 : Bool → ℕ → ℕ
bswap_if_little16 big v = if big then v else reverse_bytes16 v

bswap_if_big16 : Bool → ℕ → ℕ
bswap_if_big16 big v = if big then reverse_bytes16 v else v

-- Fewer than 8 bytes, summed as big-endian words.
pub sum_small4 : ℕ × List ℕ → ℕ × List ℕ
sum_small4 (acc, b) =
    if leb 4 (length b)
    then (plus64 (plus64 acc (load_be 2 b)) (load_be 2 (drop 2 b)), drop 4 b)
    else (acc, b)

pub sum_small2 : ℕ × List ℕ → ℕ × List ℕ
sum_small2 (acc, b) = if leb 2 (length b) then (plus64 acc (load_be 2 b), drop 2 b) else (acc, b)

pub sum_small1 : ℕ × List ℕ → ℕ
sum_small1 (acc, []) = acc
sum_small1 (acc, x ∷ b) = plus64 acc (x * 256)

-- A load of `k` bytes where the bit of the address asks for it.
align : Bool → Bool → ℕ → ℕ × List ℕ → ℕ × List ℕ
align big wanted k (acc, b) = if wanted then (plus64 acc (load big k b), drop k b) else (acc, b)

-- The carry chain over `n` words, with its last carry added in.
round : Bool → ℕ → ℕ → List ℕ → ℕ
round big n acc b = (add64 (add_words big n (record { sum = acc; carry = 0 }) b) 0).sum

-- `for len(buf) >= 64`; the fuel is the length of the buffer.
sum_rounds : ℕ → Bool → ℕ → List ℕ → ℕ × List ℕ
sum_rounds zero big acc b = (acc, b)
sum_rounds (suc fuel) big acc b =
    let rest = sum_rounds fuel big (round big 8 acc b) (drop 64 b) in
    if leb 64 (length b) then rest else (acc, b)

-- `if len(buf) >= 8*n`
sum_words : Bool → ℕ → ℕ × List ℕ → ℕ × List ℕ
sum_words big n (acc, b) =
    if leb (8 * n) (length b) then (round big n acc b, drop (8 * n) b) else (acc, b)

carry_in : ℕ → ℕ → ℕ
carry_in acc x = (add64 (add64 (record { sum = acc; carry = 0 }) x) 0).sum

-- `if len(buf) >= 4` and `if len(buf) >= 2`
sum_bytes : Bool → ℕ → ℕ × List ℕ → ℕ × List ℕ
sum_bytes big k (acc, b) =
    if leb k (length b) then (carry_in acc (load big k b), drop k b) else (acc, b)

sum_byte : Bool → ℕ × List ℕ → ℕ
sum_byte big (acc, []) = acc
sum_byte big (acc, x ∷ b) = carry_in acc (bswap_if_big16 big x)

-- From the first aligned byte to the end.
pub sum_aligned : Bool → ℕ → ℕ → List ℕ → ℕ
sum_aligned big addr acc b =
    let p = align big (addr / 2 % 2 == 1) 2 (acc, b) in
    let addr' = if addr / 2 % 2 == 1 then addr + 2 else addr in
    let q = align big (addr' / 4 % 2 == 1) 4 p in
    let r = sum_rounds (length q.1) big q.0 q.1 in
    let s = sum_words big 1 (sum_words big 2 (sum_words big 4 r)) in
    sum_byte big (sum_bytes big 2 (sum_bytes big 4 s))

pub sum_large : Bool → ℕ → ℕ → List ℕ → ℕ
sum_large big addr acc [] = 0
sum_large big addr acc (x ∷ b) =
    let acc' = bswap_if_little32 big (acc % 2 ^ 32) in
    let swapped = plus64 (reverse_bytes32 (acc' % 2 ^ 32)) (bswap_if_little16 big x) in
    if addr % 2 == 1
    then reverse_bytes16 (bswap_if_little16 big (reduce (sum_aligned big (addr + 1) swapped b)))
    else bswap_if_little16 big (reduce (sum_aligned big addr acc' (x ∷ b)))

is_odd : ℕ → Bool
is_odd n = n % 2 == 1

sum_even : Bool → ℕ → List ℕ → ℕ → ℕ × Bool
sum_even big addr b acc = (
  if ltb (length b) 8
      then reduce (sum_small1 (sum_small2 (sum_small4 (acc, b))))
      else sum_large big addr acc b,
  is_odd (length b),
)

-- `none` is the panic of `buf[0]` on an empty buffer.
pub calculate_checksum : Bool → ℕ → List ℕ → Bool → ℕ → Option (ℕ × Bool)
calculate_checksum big addr b false initial = some (sum_even big addr b initial)
calculate_checksum big addr [] true initial = none
calculate_checksum big addr (x ∷ b) true initial =
    some (sum_even big (addr + 1) b (plus64 initial x))
