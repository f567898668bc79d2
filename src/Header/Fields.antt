-- ===== src/Header/Fields.antt =====
-- Writing a field of a header: what it does to the bytes and to the sum of their words.
use sing_tun.Base.{
  ℕ, zero, suc, ◌+◌, ◌*◌, ◌/◌, ◌%◌, ◌^◌, ◌≤◌, ◌<◌, ◌≡◌, false, refl, some, List, [], ◌∷◌, length,
  length-take, length-drop, drop, arith, All,
}
use sing_tun.Base.Bytes.{patch, overlay, window, number, bytes16, bytes32, get16, get32, put}
use sing_tun.Checksum.Ones.{word_sum}
use sing_tun.Checksum.Words.{IsByte}
use sing_tun.Checksum.Header.{combine, update_uint16, update_words, update_address}

pub get16_total :
    (b : List ℕ) (off : ℕ) → off + 2 ≤ length b → get16 b off ≡ some (number 0 (window b off 2))
unfolding get16
get16_total b off h = ground arith

pub get32_total :
    (b : List ℕ) (off : ℕ) → off + 4 ≤ length b → get32 b off ≡ some (number 0 (window b off 4))
unfolding get32
get32_total b off h = ground arith

pub put-some :
    (b : List ℕ) (off : ℕ) (bs : List ℕ)
    → off + length bs ≤ length b
    → put b off bs ≡ some (patch b off bs)
unfolding put
put-some b off bs h = ground arith

overlay_sum :
    (bs b : List ℕ)
    → length bs % 2 ≡ 0
    → length bs ≤ length b
    → word_sum false (overlay bs b) + word_sum false (window b 0 (length bs))
      ≡ word_sum false b + word_sum false bs
unfolding word_sum
overlay_sum [] b e h = refl
overlay_sum (v ∷ []) b e h = absurd (omega arith)
overlay_sum (v ∷ w ∷ bs) [] e h = absurd (omega arith)
overlay_sum (v ∷ w ∷ bs) (x ∷ []) e h = absurd (omega arith)
overlay_sum (v ∷ w ∷ bs) (x ∷ y ∷ b) e h =
    omega (arith, overlay_sum bs b (omega arith) (omega arith))

-- Writing whole words at an even offset puts their sum in the place of that of the old words.
pub patch_sum :
    (off : ℕ) (b bs : List ℕ)
    → off % 2 ≡ 0
    → length bs % 2 ≡ 0
    → off + length bs ≤ length b
    → word_sum false (patch b off bs) + word_sum false (window b off (length bs))
      ≡ word_sum false b + word_sum false bs
unfolding word_sum
patch_sum zero b bs p e h = overlay_sum bs b e (omega arith)
patch_sum (suc zero) b bs p e h = absurd (omega arith)
patch_sum (suc (suc off)) [] bs p e h = absurd (omega arith)
patch_sum (suc (suc off)) (x ∷ []) bs p e h = absurd (omega arith)
patch_sum (suc (suc off)) (x ∷ y ∷ b) bs p e h =
    omega (arith, patch_sum off b bs (omega arith) e (omega arith))

pub length-window : (b : List ℕ) (off n : ℕ) → off + n ≤ length b → length (window b off n) ≡ n
length-window b off n h = omega (arith, length-take n (drop off b), length-drop off b)

pub number-bytes16 : (v : ℕ) → v < 2 ^ 16 → number 0 (bytes16 v) ≡ v
number-bytes16 v h = omega arith

pub number-bytes32 : (v : ℕ) → v < 2 ^ 32 → number 0 (bytes32 v) ≡ v
number-bytes32 v h = omega arith

pub word_sum-bytes16 : (v : ℕ) → v < 2 ^ 16 → word_sum false (bytes16 v) ≡ v
unfolding word_sum
word_sum-bytes16 v h = omega arith

pub bytes16-number : (w : List ℕ) → length w ≡ 2 → All IsByte w → bytes16 (number 0 w) ≡ w
bytes16-number (a ∷ b ∷ []) h bs =
    let high : number 0 (a ∷ b ∷ []) / 256 % 256 ≡ a = omega (arith, bs.0, bs.1.0) in
    let low : number 0 (a ∷ b ∷ []) % 256 ≡ b = omega (arith, bs.1.0) in cc
bytes16-number _ h bs = absurd (omega arith)

pub number_lt16 : (w : List ℕ) → length w ≡ 2 → All IsByte w → number 0 w < 2 ^ 16
number_lt16 (a ∷ b ∷ []) h bs = omega (arith, bs.0, bs.1.0)
number_lt16 _ h bs = absurd (omega arith)

pub word_sum-number : (w : List ℕ) → length w ≡ 2 → word_sum false w ≡ number 0 w
unfolding word_sum
word_sum-number (a ∷ b ∷ []) h = omega arith
word_sum-number _ h = absurd (omega arith)

pub number_lt32 : (w : List ℕ) → length w ≡ 4 → All IsByte w → number 0 w < 2 ^ 32
number_lt32 (a ∷ b ∷ c ∷ d ∷ []) h bs = omega (arith, bs.0, bs.1.0, bs.1.1.0, bs.1.1.1.0)
number_lt32 _ h bs = absurd (omega arith)

pub word_sum-number32 :
    (w : List ℕ)
    → length w ≡ 4
    → All IsByte w
    → word_sum false (bytes32 (number 0 w)) ≡ word_sum false w
unfolding word_sum
word_sum-number32 (a ∷ b ∷ c ∷ d ∷ []) h bs = omega (arith, bs.0, bs.1.0, bs.1.1.0, bs.1.1.1.0)
word_sum-number32 _ h bs = absurd (omega arith)

-- An incremental update is exact modulo 65535.
pub update_uint16_mod :
    (x old new : ℕ)
    → x < 2 ^ 16
    → old < 2 ^ 16
    → new < 2 ^ 16
    → (update_uint16 x old new < 2 ^ 16)
      × ((update_uint16 x old new + old) % 65535 ≡ (x + new) % 65535)
unfolding update_uint16 combine
update_uint16_mod x old new hx ho hn = (ground arith, ground arith)

pub update_address_mod :
    (x old new : ℕ)
    → x < 2 ^ 16
    → (u : ℕ) × (update_address x (bytes32 old) (bytes32 new) ≡ some u)
      × (u < 2 ^ 16)
      × ((u + word_sum false (bytes32 old)) % 65535 ≡ (x + word_sum false (bytes32 new)) % 65535)
unfolding update_address update_words word_sum
update_address_mod x old new hx =
    let oh = (old / 2 ^ 24 % 256 * 256 + old / 2 ^ 16 % 256) % 2 ^ 16 in
    let ol = (old / 2 ^ 8 % 256 * 256 + old % 256) % 2 ^ 16 in
    let nh = (new / 2 ^ 24 % 256 * 256 + new / 2 ^ 16 % 256) % 2 ^ 16 in
    let nl = (new / 2 ^ 8 % 256 * 256 + new % 256) % 2 ^ 16 in
    let first = update_uint16_mod x oh nh hx (omega arith) (omega arith) in
    let u = update_uint16 x oh nh in
    let second = update_uint16_mod u ol nl first.0 (omega arith) (omega arith) in
    (update_uint16 u ol nl, refl, second.0, omega (arith, first.1, second.1))

pub bytes32-number : (w : List ℕ) → length w ≡ 4 → All IsByte w → bytes32 (number 0 w) ≡ w
bytes32-number (a ∷ b ∷ c ∷ d ∷ []) h bs =
    let n = number 0 (a ∷ b ∷ c ∷ d ∷ []) in
    let b3 : n / 2 ^ 24 % 256 ≡ a = omega (arith, bs.0, bs.1.0, bs.1.1.0, bs.1.1.1.0) in
    let b2 : n / 2 ^ 16 % 256 ≡ b = omega (arith, bs.0, bs.1.0, bs.1.1.0, bs.1.1.1.0) in
    let b1 : n / 2 ^ 8 % 256 ≡ c = omega (arith, bs.0, bs.1.0, bs.1.1.0, bs.1.1.1.0) in
    let b0 : n % 256 ≡ d = omega (arith, bs.0, bs.1.0, bs.1.1.0, bs.1.1.1.0) in cc
bytes32-number _ h bs = absurd (omega arith)
