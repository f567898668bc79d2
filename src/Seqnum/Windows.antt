-- ===== src/Seqnum/Windows.antt =====
-- Comparisons and windows of internal/gtcpip/seqnum, around the circle of 2^32 values.
use sing_tun.Base.{ℕ, ◌^◌, ◌≤◌, ◌<◌, ◌≡◌, ◌≢◌, ◌↔◌, true, not, ltb, leb, arith}
use sing_tun.Seqnum.{minus, add, less_than, less_than_eq, in_range, in_window, size, acceptable}

-- A number is in the window of `s` numbers from `first` exactly if it lies fewer than `s` steps
-- ahead of `first`, also where the window wraps around 2^32.
pub in_window_iff :
    (first s d : ℕ)
    → first < 2 ^ 32
    → s < 2 ^ 32
    → d < 2 ^ 32
    → (in_window (add first d) first s ≡ true) ↔ (d < s)
unfolding in_window in_range add minus
in_window_iff first s d hf hs hd = ground arith

-- Of two numbers exactly one is before the other, unless they are equal or half a circle apart.
pub less_than_total :
    (v w : ℕ)
    → v < 2 ^ 32
    → w < 2 ^ 32
    → v ≢ w
    → minus v w ≢ 2 ^ 31
    → less_than v w ≡ not (less_than w v)
unfolding less_than minus
less_than_total v w hv hw ne half = ground arith

-- Moving both numbers ahead by the same distance changes no comparison and no size.
pub add_shift :
    (v w k : ℕ)
    → v < 2 ^ 32
    → w < 2 ^ 32
    → k < 2 ^ 32
    → (less_than (add v k) (add w k) ≡ less_than v w) × (size (add v k) (add w k) ≡ size v w)
unfolding less_than size minus add
add_shift v w k hv hw hk = (ground arith, ground arith)

-- A segment of 1 to 2^30 bytes against a window of 1 to 2^30 numbers that begins at `nxt`: one that
-- starts `d` ahead of `nxt`, with `d` at most 2^30, is acceptable if it starts no later than the
-- right edge; one that starts `d` behind `nxt`, exactly if it reaches past `nxt`.
pub acceptable_ahead :
    (nxt wnd len d : ℕ)
    → nxt < 2 ^ 32
    → 0 < wnd
    → wnd ≤ 2 ^ 30
    → 0 < len
    → len ≤ 2 ^ 30
    → d ≤ 2 ^ 30
    → (acceptable (add nxt d) len nxt (add nxt wnd) ≡ leb d wnd)
      × (acceptable (minus nxt d) len nxt (add nxt wnd) ≡ ltb d len)
unfolding acceptable less_than_eq less_than in_range add minus
acceptable_ahead nxt wnd len d hn hw0 hw hl0 hl hd = (ground arith, ground arith)
