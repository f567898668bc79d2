-- ===== src/Seqnum.antt =====
-- internal/gtcpip/seqnum/seqnum.go, and Acceptable of internal/gtcpip/header/tcp.go. A Value or a
-- Size is a uint32.
pub mod Windows
mod Examples
use sing_tun.Base.{ℕ, ◌+◌, ◌-◌, ◌%◌, ◌^◌, Bool, true, false, ◌&&◌, ◌==◌, ltb, leb, if◌then◌else◌}

-- v - w on uint32
unfoldable pub minus : ℕ → ℕ → ℕ
minus v w = (v + 2 ^ 32 - w) % 2 ^ 32

-- Value.Add; UpdateForward stores this in v.
unfoldable pub add : ℕ → ℕ → ℕ
add v s = (v + s) % 2 ^ 32

-- int32(v-w) < 0: the top bit of the difference
unfoldable pub less_than : ℕ → ℕ → Bool
less_than v w = leb (2 ^ 31) (minus v w)

unfoldable pub less_than_eq : ℕ → ℕ → Bool
less_than_eq v w = if v == w then true else less_than v w

unfoldable pub in_range : ℕ → ℕ → ℕ → Bool
in_range v a b = ltb (minus v a) (minus b a)

unfoldable pub in_window : ℕ → ℕ → ℕ → Bool
in_window v first size = in_range v first (add first size)

-- Value.Size
unfoldable pub size : ℕ → ℕ → ℕ
size v w = minus w v

-- Acceptable
unfoldable pub acceptable : ℕ → ℕ → ℕ → ℕ → Bool
acceptable seg_seq seg_len rcv_nxt rcv_acc =
    if rcv_nxt == rcv_acc
    then seg_len == 0 && seg_seq == rcv_nxt
    else if seg_len == 0
    then in_range seg_seq rcv_nxt (add rcv_acc 1)
    else less_than rcv_nxt (add seg_seq seg_len) && less_than_eq seg_seq rcv_acc
