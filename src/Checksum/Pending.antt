-- ===== src/Checksum/Pending.antt =====
-- The invariant of the checksum loops, between two steps.
use sing_tun.Base.{
  ℕ, ◌+◌, ◌-◌, ◌*◌, ◌≤◌, ◌<◌, ◌≡◌, ◌∙◌, Bool, List, arith, length, drop, All, length-drop, All-drop,
}
use sing_tun.Checksum.Words.{Acc64, add_words, IsByte, Fits, total, add_words_lem}

-- Between two steps: fewer than `m` bytes are left, and with them the sum comes to `t`.
pub record Pending (big : Bool) (t m : ℕ) (p : Acc64 × List ℕ) : Type 0 where
  pub fits : Fits p.0
  pub bytes : All IsByte p.1
  pub short : length p.1 < m
  pub same : total big p.0 p.1 ≡ t

pub add_words-Pending :
    (big : Bool) (n t : ℕ) (s : Acc64) (b : List ℕ)
    → 8 * n ≤ length b
    → Pending big t (length b + 1) (s, b)
    → Pending big t (length b - 8 * n + 1) (add_words big n s b, drop (8 * n) b)
add_words-Pending big n t s b h p =
    let r = add_words_lem big n s b h p.bytes p.fits in
    record {
      fits = r.0;
      bytes = All-drop IsByte (8 * n) b p.bytes;
      short = omega (arith, length-drop (8 * n) b);
      same = r.1 ∙ p.same;
    }

pub Pending-mono :
    {big : Bool} {t m n : ℕ} {p : Acc64 × List ℕ}
    → Pending big t m p
    → length p.1 < n
    → Pending big t n p
Pending-mono h l = record { fits = h.fits; bytes = h.bytes; short = l; same = h.same }
