-- ===== src/Base/Bytes.antt =====
-- Byte buffers: Go's copy, and reads and writes at an offset, which panic (`none`) out of range.
-- The capacity of a slice is taken to be its length.
use sing_tun.Base.{
  ℕ, zero, suc, ◌+◌, ◌-◌, ◌*◌, ◌/◌, ◌%◌, ◌^◌, ◌≤◌, ◌≡◌, refl, ap, Option, none, some, List, [], ◌∷◌,
  length, take, drop, leb, if◌then◌else◌, arith, All, get_elem?,
}

-- copy(b, bs): as many bytes as both have.
abbrev pub overlay : List ℕ → List ℕ → List ℕ
overlay [] b = b
overlay (v ∷ bs) [] = []
overlay (v ∷ bs) (x ∷ b) = v ∷ overlay bs b

-- copy(b[off:], bs)
abbrev pub patch : List ℕ → ℕ → List ℕ → List ℕ
patch b zero bs = overlay bs b
patch [] (suc off) bs = []
patch (x ∷ b) (suc off) bs = x ∷ patch b off bs

-- The `n` bytes from `off` on.
abbrev pub window : List ℕ → ℕ → ℕ → List ℕ
window b off n = take n (drop off b)

length-overlay : (bs b : List ℕ) → length (overlay bs b) ≡ length b
length-overlay [] b = refl
length-overlay (v ∷ bs) [] = refl
length-overlay (v ∷ bs) (x ∷ b) = ap suc (length-overlay bs b)

pub length-patch : (b : List ℕ) (off : ℕ) (bs : List ℕ) → length (patch b off bs) ≡ length b
length-patch b zero bs = length-overlay bs b
length-patch [] (suc off) bs = refl
length-patch (x ∷ b) (suc off) bs = ap suc (length-patch b off bs)

drop-overlay : (n : ℕ) (bs b : List ℕ) → length bs ≤ n → drop n (overlay bs b) ≡ drop n b
drop-overlay n [] b h = refl
drop-overlay zero (v ∷ bs) b h = absurd (omega arith)
drop-overlay (suc n) (v ∷ bs) [] h = refl
drop-overlay (suc n) (v ∷ bs) (x ∷ b) h = drop-overlay n bs b (omega arith)

-- Behind the bytes that it writes a patch changes nothing.
pub drop-patch :
    (n : ℕ) (b : List ℕ) (off : ℕ) (bs : List ℕ)
    → off + length bs ≤ n
    → drop n (patch b off bs) ≡ drop n b
drop-patch n b zero bs h = drop-overlay n bs b (omega arith)
drop-patch n [] (suc off) bs h = refl
drop-patch zero (x ∷ b) (suc off) bs h = absurd (omega arith)
drop-patch (suc n) (x ∷ b) (suc off) bs h = drop-patch n b off bs (omega arith)

-- Nor before them.
pub take-patch :
    (n : ℕ) (b : List ℕ) (off : ℕ) (bs : List ℕ) → n ≤ off → take n (patch b off bs) ≡ take n b
take-patch zero b off bs h = refl
take-patch (suc n) b zero bs h = absurd (omega arith)
take-patch (suc n) [] (suc off) bs h = refl
take-patch (suc n) (x ∷ b) (suc off) bs h = ap (◌∷◌ x) (take-patch n b off bs (omega arith))

take-overlay : (bs b : List ℕ) → length bs ≤ length b → take (length bs) (overlay bs b) ≡ bs
take-overlay [] b h = refl
take-overlay (v ∷ bs) [] h = absurd (omega arith)
take-overlay (v ∷ bs) (x ∷ b) h = ap (◌∷◌ v) (take-overlay bs b (omega arith))

-- What was written is read back.
pub window-patch_self :
    (b : List ℕ) (off n : ℕ) (bs : List ℕ)
    → off + n ≤ length b
    → n ≡ length bs
    → window (patch b off bs) off n ≡ bs
window-patch_self b zero n bs h e = rw e (take-overlay bs b (omega arith))
window-patch_self [] (suc off) n bs h e = absurd (omega arith)
window-patch_self (x ∷ b) (suc off) n bs h e = window-patch_self b off n bs (omega arith) e

pub window-patch_before :
    (b : List ℕ) (off lo n : ℕ) (bs : List ℕ)
    → lo + n ≤ off
    → window (patch b off bs) lo n ≡ window b lo n
window-patch_before b off zero n bs h = take-patch n b off bs (omega arith)
window-patch_before b zero (suc lo) n bs h = absurd (omega arith)
window-patch_before [] (suc off) (suc lo) n bs h = refl
window-patch_before (x ∷ b) (suc off) (suc lo) n bs h =
    window-patch_before b off lo n bs (omega arith)

pub window-patch_after :
    (b : List ℕ) (off lo n : ℕ) (bs : List ℕ)
    → off + length bs ≤ lo
    → window (patch b off bs) lo n ≡ window b lo n
window-patch_after b off lo n bs h = ap (take n) (drop-patch lo b off bs h)

All-overlay : (P : ℕ → Type 0) (bs b : List ℕ) → All P bs → All P b → All P (overlay bs b)
All-overlay P [] b hs hb = hb
All-overlay P (v ∷ bs) [] hs hb = tt
All-overlay P (v ∷ bs) (x ∷ b) hs hb = (hs.0, All-overlay P bs b hs.1 hb.1)

pub All-patch :
    (P : ℕ → Type 0) (b : List ℕ) (off : ℕ) (bs : List ℕ)
    → All P b
    → All P bs
    → All P (patch b off bs)
All-patch P b zero bs hb hs = All-overlay P bs b hs hb
All-patch P [] (suc off) bs hb hs = tt
All-patch P (x ∷ b) (suc off) bs hb hs = (hb.0, All-patch P b off bs hb.1 hs)

infixl 5 ◌>>=◌
abbrev pub ◌>>=◌ {ℓ κ} : {A : Type ℓ} {B : Type κ} → Option A → (A → Option B) → Option B
none >>= f = none
some a >>= f = f a

-- b[off : off+len(bs)] = bs, by PutUint16, PutUint32 or assignments
unfoldable pub put : List ℕ → ℕ → List ℕ → Option (List ℕ)
put b off bs = if leb (off + length bs) (length b) then some (patch b off bs) else none

-- copy(b[off:], bs)
unfoldable pub copy_at : List ℕ → ℕ → List ℕ → Option (List ℕ)
copy_at b off bs = if leb off (length b) then some (patch b off bs) else none

-- b[lo:hi]
unfoldable pub slice : List ℕ → ℕ → ℕ → Option (List ℕ)
slice b lo hi =
    if leb lo hi then (if leb hi (length b) then some (window b lo (hi - lo)) else none) else none

abbrev pub bytes16 : ℕ → List ℕ
bytes16 v = v / 256 % 256 ∷ v % 256 ∷ []

abbrev pub bytes32 : ℕ → List ℕ
bytes32 v = v / 2 ^ 24 % 256 ∷ v / 2 ^ 16 % 256 ∷ v / 2 ^ 8 % 256 ∷ v % 256 ∷ []

abbrev pub number : ℕ → List ℕ → ℕ
number acc [] = acc
number acc (x ∷ b) = number (acc * 256 + x) b

-- binary.BigEndian.Uint16(b[off:]), Uint32(b[off:]) and b[off]
unfoldable pub get16 : List ℕ → ℕ → Option ℕ
get16 b off = if leb (off + 2) (length b) then some (number 0 (window b off 2)) else none

unfoldable pub get32 : List ℕ → ℕ → Option ℕ
get32 b off = if leb (off + 4) (length b) then some (number 0 (window b off 4)) else none

unfoldable pub get8 : List ℕ → ℕ → Option ℕ
get8 b off = get_elem? b off

pub some_same : {A : Type 0} (a b : A) → some a ≡ some b → a ≡ b
some_same {A = A} a b h = ap (λ (r : Option A). elim r [ none ↦ a | some x ↦ x ]) h

-- What a successful step was.
pub bind_some {ℓ κ} :
    {A : Type ℓ} {B : Type κ} (m : Option A) (f : A → Option B) {b : B}
    → (m >>= f) ≡ some b
    → (a : A) × (m ≡ some a) × (f a ≡ some b)
bind_some none f h = cc
bind_some (some a) f h = (a, refl, h)

pub put-some :
    (b : List ℕ) (off : ℕ) (bs : List ℕ) {r : List ℕ}
    → put b off bs ≡ some r
    → (r ≡ patch b off bs) × (off + length bs ≤ length b)
unfolding put
put-some b off bs h = ground arith

pub copy_at-some :
    (b : List ℕ) (off : ℕ) (bs : List ℕ) {r : List ℕ}
    → copy_at b off bs ≡ some r
    → (r ≡ patch b off bs) × (off ≤ length b)
unfolding copy_at
copy_at-some b off bs h = ground arith

pub slice-some :
    (b : List ℕ) (lo hi : ℕ) {r : List ℕ}
    → slice b lo hi ≡ some r
    → (r ≡ window b lo (hi - lo)) × (lo ≤ hi) × (hi ≤ length b)
unfolding slice
slice-some b lo hi h = ground arith

-- Steps that are in range do not panic.
pub put_total :
    (b : List ℕ) (off : ℕ) (bs : List ℕ)
    → off + length bs ≤ length b
    → (r : List ℕ) × (put b off bs ≡ some r) × (length r ≡ length b)
unfolding put
put_total b off bs h = (patch b off bs, ground arith, length-patch b off bs)

pub copy_at_total :
    (b : List ℕ) (off : ℕ) (bs : List ℕ)
    → off ≤ length b
    → (r : List ℕ) × (copy_at b off bs ≡ some r) × (length r ≡ length b)
unfolding copy_at
copy_at_total b off bs h = (patch b off bs, ground arith, length-patch b off bs)

pub slice_total :
    (b : List ℕ) (lo hi : ℕ)
    → lo ≤ hi
    → hi ≤ length b
    → slice b lo hi ≡ some (window b lo (hi - lo))
unfolding slice
slice_total b lo hi h k = ground arith
