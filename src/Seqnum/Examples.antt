-- ===== src/Seqnum/Examples.antt =====
-- The theorems on sequence numbers where the numbers wrap around.
use sing_tun.Base.{◌<◌, ◌≡◌, ◌↔◌, true, arith}
use sing_tun.Seqnum.{add, in_window}
use sing_tun.Seqnum.Windows.{in_window_iff}

in_window_iff_example : (in_window (add 4294967290 7) 4294967290 10 ≡ true) ↔ (7 < 10)
in_window_iff_example = in_window_iff 4294967290 10 7 (omega arith) (omega arith) (omega arith)
