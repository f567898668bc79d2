-- ===== src/Header/Address6.antt =====
-- IPv6 addresses as 16 bytes and as 128 bits, and the checksum update for them.
use sing_tun.Base.{
  ℕ, ◌+◌, ◌-◌, ◌*◌, ◌/◌, ◌%◌, ◌^◌, ◌≤◌, ◌<◌, ◌≡◌, refl, ap, ◌∙◌, sym, false, Option, some, List, [],
  ◌∷◌, ◌++◌, length, arith, All,
}
use sing_tun.Base.Bytes.{◌>>=◌, window, number, bytes16, bytes32, patch, slice_total}
use sing_tun.Checksum.Ones.{word_sum}
use sing_tun.Checksum.Words.{IsByte}
use sing_tun.Checksum.Header.{complement, update_words, update_address, update_uint16}
use sing_tun.Header.{tcp_checksum, set_tcp_checksum}
use sing_tun.Header.Fields.{
  get16_total, put-some, length-window, number_lt16, number_lt32, bytes32-number, patch_sum,
  update_uint16_mod, word_sum-bytes16, word_sum-number,
}
use sing_tun.Header.Ipv6.{bytes128, get128}
use sing_tun.Header.Update.{window-IsByte}

update_words_mod :
    (x : ℕ) (old new : List ℕ)
    → x < 2 ^ 16
    → length old ≡ length new
    → length old % 2 ≡ 0
    → All IsByte old
    → All IsByte new
    → (update_words x old new < 2 ^ 16)
      × ((update_words x old new + word_sum false old) % 65535 ≡ (x + word_sum false new) % 65535)
unfolding update_words word_sum
update_words_mod x [] [] hx hl he ho hn = (hx, refl)
update_words_mod x (a ∷ []) (c ∷ []) hx hl he ho hn = absurd (omega arith)
update_words_mod x (a ∷ b ∷ old) (c ∷ d ∷ new) hx hl he ho hn =
    let o = (a * 256 + b) % 2 ^ 16 in
    let n = (c * 256 + d) % 2 ^ 16 in
    let first = update_uint16_mod x o n hx (omega arith) (omega arith) in
    let u = update_uint16 x o n in
    let rest = update_words_mod u old new first.0 (omega arith) (omega arith) ho.1.1 hn.1.1 in
    (rest.0, omega (arith, first.1, rest.1, ho.0, ho.1.0, hn.0, hn.1.0))
update_words_mod x _ _ hx hl he ho hn = absurd (omega arith)

pub bytes128-IsByte : (a : ℕ) → All IsByte (bytes128 a)
bytes128-IsByte a = grind arith

number-bytes32_from : (acc v : ℕ) → number acc (bytes32 v) ≡ acc * 2 ^ 32 + v % 2 ^ 32
number-bytes32_from acc v = omega arith

pub number-bytes128 : (a : ℕ) → a < 2 ^ 128 → number 0 (bytes128 a) ≡ a
number-bytes128 a h =
    let n1 = 0 * 2 ^ 32 + (a / 2 ^ 96) % 2 ^ 32 in
    let n2 = n1 * 2 ^ 32 + (a / 2 ^ 64) % 2 ^ 32 in
    let n3 = n2 * 2 ^ 32 + (a / 2 ^ 32) % 2 ^ 32 in
    let e1 : number 0 (bytes128 a)
        ≡ number n1 (bytes32 (a / 2 ^ 64) ++ (bytes32 (a / 2 ^ 32) ++ bytes32 a)) =
      ap (λ (n : ℕ). number n (bytes32 (a / 2 ^ 64) ++ (bytes32 (a / 2 ^ 32) ++ bytes32 a)))
        (number-bytes32_from 0 (a / 2 ^ 96)) in
    e1
    ∙ ap (λ (n : ℕ). number n (bytes32 (a / 2 ^ 32) ++ bytes32 a))
        (number-bytes32_from n1 (a / 2 ^ 64))
    ∙ ap (λ (n : ℕ). number n (bytes32 a)) (number-bytes32_from n2 (a / 2 ^ 32))
    ∙ number-bytes32_from n3 a
    ∙ omega arith

-- A number that begins with `hi` ends with the same four bytes.
bytes32-low : (hi v n : ℕ) → v < 2 ^ 32 → n ≡ hi * 2 ^ 32 + v → bytes32 n ≡ bytes32 v
bytes32-low hi v n h e =
    let b3 : n / 2 ^ 24 % 256 ≡ v / 2 ^ 24 % 256 = omega arith in
    let b2 : n / 2 ^ 16 % 256 ≡ v / 2 ^ 16 % 256 = omega arith in
    let b1 : n / 2 ^ 8 % 256 ≡ v / 2 ^ 8 % 256 = omega arith in
    let b0 : n % 256 ≡ v % 256 = omega arith in cc

number4 :
    (acc a b c d : ℕ)
    → number acc (a ∷ b ∷ c ∷ d ∷ []) ≡ acc * 2 ^ 32 + number 0 (a ∷ b ∷ c ∷ d ∷ [])
number4 acc a b c d = omega arith

-- Four words as one number, and back.
bytes128-join :
    (x y z w n : ℕ)
    → (x < 2 ^ 32) × (y < 2 ^ 32) × (z < 2 ^ 32) × (w < 2 ^ 32)
    → n ≡ ((x * 2 ^ 32 + y) * 2 ^ 32 + z) * 2 ^ 32 + w
    → bytes128 n ≡ bytes32 x ++ (bytes32 y ++ (bytes32 z ++ bytes32 w))
bytes128-join x y z w n h e =
    let hx = h.0 in
    let hy = h.1 in
    let hz = h.2 in
    let hw = h.3 in
    let q1 : n / 2 ^ 32 ≡ (x * 2 ^ 32 + y) * 2 ^ 32 + z = omega (arith, hw) in
    let q2 : n / 2 ^ 64 ≡ x * 2 ^ 32 + y = omega (arith, hz, hw) in
    let q3 : n / 2 ^ 96 ≡ x = omega (arith, hy, hz, hw) in
    let e1 = bytes32-low 0 x (n / 2 ^ 96) hx (q3 ∙ omega arith) in
    let e2 = bytes32-low x y (n / 2 ^ 64) hy q2 in
    let e3 = bytes32-low (x * 2 ^ 32 + y) z (n / 2 ^ 32) hz q1 in
    let e4 = bytes32-low ((x * 2 ^ 32 + y) * 2 ^ 32 + z) w n hw e in
    ap (λ (l : List ℕ). l ++ (bytes32 (n / 2 ^ 64) ++ (bytes32 (n / 2 ^ 32) ++ bytes32 n))) e1
    ∙ ap (λ (l : List ℕ). bytes32 x ++ (l ++ (bytes32 (n / 2 ^ 32) ++ bytes32 n))) e2
    ∙ ap (λ (l : List ℕ). bytes32 x ++ (bytes32 y ++ (l ++ bytes32 n))) e3
    ∙ ap (λ (l : List ℕ). bytes32 x ++ (bytes32 y ++ (bytes32 z ++ l))) e4

number16 :
    (x y z w : List ℕ)
    → (length x ≡ 4) × (length y ≡ 4) × (length z ≡ 4) × (length w ≡ 4)
    → number 0 (x ++ (y ++ (z ++ w)))
      ≡ ((number 0 x * 2 ^ 32 + number 0 y) * 2 ^ 32 + number 0 z) * 2 ^ 32 + number 0 w
number16 (a ∷ b ∷ c ∷ d ∷ []) (e ∷ f ∷ g ∷ h ∷ []) (i ∷ j ∷ k ∷ l ∷ []) (m ∷ n ∷ o ∷ p ∷ []) len =
    let n1 = number 0 (a ∷ b ∷ c ∷ d ∷ []) in
    let n2 = n1 * 2 ^ 32 + number 0 (e ∷ f ∷ g ∷ h ∷ []) in
    let n3 = n2 * 2 ^ 32 + number 0 (i ∷ j ∷ k ∷ l ∷ []) in
    ap (λ (q : ℕ). number q (i ∷ j ∷ k ∷ l ∷ m ∷ n ∷ o ∷ p ∷ [])) (number4 n1 e f g h)
    ∙ ap (λ (q : ℕ). number q (m ∷ n ∷ o ∷ p ∷ [])) (number4 n2 i j k l)
    ∙ number4 n3 m n o p
number16 _ _ _ _ len = absurd (omega arith)

-- Sixteen bytes in four words.
parts16 :
    (w : List ℕ)
    → length w ≡ 16
    → w ≡ window w 0 4 ++ (window w 4 4 ++ (window w 8 4 ++ window w 12 4))
parts16 (a ∷ b ∷ c ∷ d ∷ e ∷ f ∷ g ∷ h ∷ i ∷ j ∷ k ∷ l ∷ m ∷ n ∷ o ∷ p ∷ []) len = refl
parts16 _ len = absurd (omega arith)

joined :
    {x y z w x' y' z' w' : List ℕ}
    → x ≡ x'
    → y ≡ y'
    → z ≡ z'
    → w ≡ w'
    → x ++ (y ++ (z ++ w)) ≡ x' ++ (y' ++ (z' ++ w'))
joined a b c d = cc

pub bytes128-number : (w : List ℕ) → length w ≡ 16 → All IsByte w → bytes128 (number 0 w) ≡ w
bytes128-number w h hb =
    let lx = length-window w 0 4 (omega arith) in
    let ly = length-window w 4 4 (omega arith) in
    let lz = length-window w 8 4 (omega arith) in
    let lw = length-window w 12 4 (omega arith) in
    let bx = window-IsByte w 0 4 hb in
    let by = window-IsByte w 4 4 hb in
    let bz = window-IsByte w 8 4 hb in
    let bw = window-IsByte w 12 4 hb in
    let x = window w 0 4 in
    let y = window w 4 4 in
    let z = window w 8 4 in
    let v = window w 12 4 in
    bytes128-join (number 0 x) (number 0 y) (number 0 z) (number 0 v) (number 0 w)
      (number_lt32 x lx bx, number_lt32 y ly by, number_lt32 z lz bz, number_lt32 v lw bw)
      (ap (number 0) (parts16 w h) ∙ number16 x y z v (lx, ly, lz, lw))
    ∙ joined (bytes32-number x lx bx) (bytes32-number y ly by) (bytes32-number z lz bz)
        (bytes32-number v lw bw)
    ∙ sym (parts16 w h)

pub number_lt128 : (w : List ℕ) → length w ≡ 16 → All IsByte w → number 0 w < 2 ^ 128
number_lt128 w h hb =
    let lx = length-window w 0 4 (omega arith) in
    let ly = length-window w 4 4 (omega arith) in
    let lz = length-window w 8 4 (omega arith) in
    let lw = length-window w 12 4 (omega arith) in
    let e =
      ap (number 0) (parts16 w h)
      ∙ number16 (window w 0 4) (window w 4 4) (window w 8 4) (window w 12 4) (lx, ly, lz, lw) in
    omega (
      arith,
      e,
      number_lt32 (window w 0 4) lx (window-IsByte w 0 4 hb),
      number_lt32 (window w 4 4) ly (window-IsByte w 4 4 hb),
      number_lt32 (window w 8 4) lz (window-IsByte w 8 4 hb),
      number_lt32 (window w 12 4) lw (window-IsByte w 12 4 hb),
    )

pub get128_total :
    (b : List ℕ) (off : ℕ) → off + 16 ≤ length b → get128 b off ≡ some (number 0 (window b off 16))
unfolding get128
get128_total b off h = rw (slice_total b off (off + 16) (omega arith) h) (
    let wide : off + 16 - off ≡ 16 = omega arith in
    ap (λ (n : ℕ). some (number 0 (window b off n))) wide)

-- The checksum of a segment after an IPv6 address of its pseudo header changed.
abbrev pub update_segment6 : List ℕ → ℕ → ℕ → Option (List ℕ)
update_segment6 b old new = do
  old_sum ← tcp_checksum b
  xsum ← update_address (complement old_sum) (bytes128 old) (bytes128 new)
  set_tcp_checksum b (complement xsum)

update_address6_mod :
    (x old new : ℕ)
    → x < 2 ^ 16
    → (u : ℕ) × (update_address x (bytes128 old) (bytes128 new) ≡ some u)
      × (u < 2 ^ 16)
      × ((u + word_sum false (bytes128 old)) % 65535 ≡ (x + word_sum false (bytes128 new)) % 65535)
unfolding update_address
update_address6_mod x old new hx =
    let m =
      update_words_mod x (bytes128 old) (bytes128 new) hx refl refl (bytes128-IsByte old)
        (bytes128-IsByte new) in
    (update_words x (bytes128 old) (bytes128 new), refl, m.0, m.1)

pub update_segment6_lem :
    (b : List ℕ) (old new : ℕ)
    → 18 ≤ length b
    → All IsByte b
    → (c : ℕ) × (update_segment6 b old new ≡ some (patch b 16 (bytes16 c)))
      × ((word_sum false (patch b 16 (bytes16 c)) + word_sum false (bytes128 new)) % 65535
          ≡ (word_sum false b + word_sum false (bytes128 old)) % 65535)
unfolding tcp_checksum set_tcp_checksum
update_segment6_lem b old new room hb =
    let w = window b 16 2 in
    let lw = length-window b 16 2 room in
    let hw = number_lt16 w lw (window-IsByte b 16 2 hb) in
    let u = update_address6_mod (complement (number 0 w)) old new (omega arith) in
    let c = complement u.0 in
    (
      c,
      rw (get16_total b 16 room, u.1) (put-some b 16 (bytes16 c) room),
      omega (
        arith,
        patch_sum 16 b (bytes16 c) refl refl room,
        u.2,
        u.3,
        hw,
        word_sum-bytes16 c (omega arith),
        word_sum-number w lw,
      ),
    )
