-- ===== src/Gso/Seal.antt =====
-- A 16-bit checksum field in a buffer, cleared, summed over and written.
use sing_tun.Base.{
  ℕ, zero, suc, ◌+◌, ◌-◌, ◌*◌, ◌/◌, ◌%◌, ◌^◌, ◌≤◌, ◌<◌, ◌≡◌, refl, ap, ◌∙◌, false, Option, some,
  List, [], ◌∷◌, length, take, drop, arith, All, All-take, All-drop,
}
use sing_tun.Base.Bytes.{
  patch, overlay, window, bytes16, All-patch, ◌>>=◌, put, bind_some, put-some, slice, slice-some,
  copy_at, copy_at-some,
}
use sing_tun.Checksum.Ones.{canon, word_sum}
use sing_tun.Checksum.Words.{IsByte}

word_sum-take :
    (k n : ℕ) (b : List ℕ) (h l : ℕ)
    → 2 * k + 2 ≤ n
    → n ≤ length b
    → word_sum false (take n (patch b (2 * k) (h ∷ l ∷ [])))
      ≡ h * 256 + l + word_sum false (take n (patch b (2 * k) (0 ∷ 0 ∷ [])))
unfolding word_sum
word_sum-take zero (suc (suc n)) (x ∷ y ∷ b) h l p q = ground arith
word_sum-take (suc k) (suc (suc n)) (x ∷ y ∷ b) h l p q =
    let two : 2 * suc k ≡ suc (suc (2 * k)) = omega arith in
    rw two (let ih = word_sum-take k n b h l (omega arith) (omega arith) in omega (arith, ih))
word_sum-take k zero b h l p q = absurd (omega arith)
word_sum-take k (suc zero) b h l p q = absurd (omega arith)
word_sum-take k (suc (suc n)) [] h l p q = absurd (omega arith)
word_sum-take k (suc (suc n)) (x ∷ []) h l p q = absurd (omega arith)

-- The field adds its value to the sum of the bytes around it.
pub word_sum-patch :
    (s k n : ℕ) (b : List ℕ) (h l : ℕ)
    → 2 * k + 2 ≤ n
    → s + n ≤ length b
    → word_sum false (window (patch b (s + 2 * k) (h ∷ l ∷ [])) s n)
      ≡ h * 256 + l + word_sum false (window (patch b (s + 2 * k) (0 ∷ 0 ∷ [])) s n)
word_sum-patch zero k n b h l p q =
    let e : 0 + 2 * k ≡ 2 * k = omega arith in rw e (word_sum-take k n b h l p (omega arith))
word_sum-patch (suc s) k n [] h l p q = absurd (omega arith)
word_sum-patch (suc s) k n (x ∷ b) h l p q =
    let e : suc s + 2 * k ≡ suc (s + 2 * k) = omega arith in
    rw e (word_sum-patch s k n b h l p (omega arith))

overlay_twice :
    (a b c d : ℕ) (buf : List ℕ)
    → overlay (c ∷ d ∷ []) (overlay (a ∷ b ∷ []) buf) ≡ overlay (c ∷ d ∷ []) buf
overlay_twice a b c d [] = refl
overlay_twice a b c d (x ∷ []) = refl
overlay_twice a b c d (x ∷ y ∷ buf) = refl

-- The second of two writes to a field is the one that counts.
pub patch_twice :
    (buf : List ℕ) (at a b c d : ℕ)
    → patch (patch buf at (a ∷ b ∷ [])) at (c ∷ d ∷ []) ≡ patch buf at (c ∷ d ∷ [])
patch_twice buf zero a b c d = overlay_twice a b c d buf
patch_twice [] (suc at) a b c d = refl
patch_twice (x ∷ buf) (suc at) a b c d = ap (◌∷◌ x) (patch_twice buf at a b c d)

-- With the field at an even offset `2 k` of the `n` bytes from `s` on cleared, and then set to a
-- value `c` that completes the sum, the bytes sum to zero in ones' complement.
pub sealed :
    (buf : List ℕ) (s k n initial c : ℕ)
    → 2 * k + 2 ≤ n
    → s + n ≤ length buf
    → c < 2 ^ 16
    → canon (initial + word_sum false (window (patch buf (s + 2 * k) (0 ∷ 0 ∷ [])) s n) + c) ≡ 65535
    → canon (
        initial
        + word_sum false
            (window (patch (patch buf (s + 2 * k) (0 ∷ 0 ∷ [])) (s + 2 * k) (bytes16 c)) s n))
      ≡ 65535
sealed buf s k n initial c p q small e =
    rw
      (
        patch_twice buf (s + 2 * k) 0 0 (c / 256 % 256) (c % 256),
        word_sum-patch s k n buf (c / 256 % 256) (c % 256) p q,
      )
      (ap canon (omega arith) ∙ e)

pub canon_full : (x : ℕ) → canon (x + (65535 - canon x)) ≡ 65535
unfolding canon
canon_full x = ground arith

pub bytes16-IsByte : (v : ℕ) → All IsByte (bytes16 v)
bytes16-IsByte v = (omega arith, (omega arith, tt))

pub window-IsByte : (b : List ℕ) (off n : ℕ) → All IsByte b → All IsByte (window b off n)
window-IsByte b off n h = All-take IsByte n (drop off b) (All-drop IsByte off b h)

-- What the step gives, if it gives a result, consists of bytes.
abbrev pub Bytewise : Option (List ℕ) → Type 0
Bytewise m = (r : List ℕ) → m ≡ some r → All IsByte r

pub bind-Bytewise :
    {A : Type 0} (m : Option A) (f : A → Option (List ℕ))
    → ((a : A) → m ≡ some a → Bytewise (f a))
    → Bytewise (m >>= f)
bind-Bytewise m f k r h = let s = bind_some m f h in k s.0 s.1 r s.2

pub put-Bytewise :
    (b : List ℕ) (off : ℕ) (bs : List ℕ) → All IsByte b → All IsByte bs → Bytewise (put b off bs)
put-Bytewise b off bs hb hs r h = rw (put-some b off bs h).0 (All-patch IsByte b off bs hb hs)

pub copy-Bytewise :
    (b : List ℕ) (off : ℕ) (bs : List ℕ)
    → All IsByte b
    → All IsByte bs
    → Bytewise (copy_at b off bs)
copy-Bytewise b off bs hb hs r h = rw (copy_at-some b off bs h).0 (All-patch IsByte b off bs hb hs)

pub slice-Bytewise : (b : List ℕ) (lo hi : ℕ) → All IsByte b → Bytewise (slice b lo hi)
slice-Bytewise b lo hi hb r h = rw (slice-some b lo hi h).0 (window-IsByte b lo (hi - lo) hb)

overlay_commute :
    (buf : List ℕ) (k a b : ℕ) (xs : List ℕ)
    → overlay (a ∷ b ∷ []) (patch buf (suc (suc k)) xs)
      ≡ patch (overlay (a ∷ b ∷ []) buf) (suc (suc k)) xs
overlay_commute [] k a b xs = refl
overlay_commute (x ∷ []) k a b xs = refl
overlay_commute (x ∷ y ∷ buf) k a b xs = refl

-- A field of two bytes and a write behind it are independent.
pub patch_commute :
    (buf : List ℕ) (at k a b : ℕ) (xs : List ℕ)
    → patch (patch buf (at + suc (suc k)) xs) at (a ∷ b ∷ [])
      ≡ patch (patch buf at (a ∷ b ∷ [])) (at + suc (suc k)) xs
patch_commute buf zero k a b xs =
    let e : 0 + suc (suc k) ≡ suc (suc k) = omega arith in rw e (overlay_commute buf k a b xs)
patch_commute [] (suc at) k a b xs =
    let e : suc at + suc (suc k) ≡ suc (at + suc (suc k)) = omega arith in rw e refl
patch_commute (x ∷ buf) (suc at) k a b xs =
    let e : suc at + suc (suc k) ≡ suc (at + suc (suc k)) = omega arith in
    rw e (ap (◌∷◌ x) (patch_commute buf at k a b xs))
