-- ===== src/Checksum/Header/Update.antt =====
-- Checksums of pseudo headers, and incremental updates.
use sing_tun.Base.{
  ℕ, ◌+◌, ◌*◌, ◌%◌, ◌^◌, ◌<◌, ◌≡◌, ◌≢◌, refl, ap, ◌∙◌, Bool, false, some, none, List, [], ◌∷◌, ◌++◌,
  arith, length, ◌&&◌, ◌==◌, All, Bool-cases, inl, inr, sym, All-append, if◌then◌else◌,
}
use sing_tun.Checksum.Ones.{canon, word_sum, word_sum-append, odd_after, canon-le, canon-canon-add}
use sing_tun.Checksum.Words.{IsByte}
use sing_tun.Checksum.Unsafe.Sound.{calculate_checksum_lem}
use sing_tun.Checksum.Header.{
  checksum, combine, be16, pseudo_header_checksum, update_uint16, update_words, update_address,
}

-- The checksum of a buffer is the ones' complement sum of its words and the initial value.
pub checksum_lem :
    (big : Bool) (addr : ℕ) (b : List ℕ) (initial : ℕ)
    → All IsByte b
    → initial < 2 ^ 16
    → checksum big addr b initial ≡ canon (initial + word_sum false b)
unfolding checksum
checksum_lem big addr b initial hb hi =
    rw (calculate_checksum_lem big addr b false initial hb hi (λ e. cc))

pub combine_lem : (a b : ℕ) → a < 2 ^ 16 → b < 2 ^ 16 → combine a b ≡ canon (a + b)
unfolding combine canon
combine_lem a b ha hb = ground arith

-- The checksum of a buffer of even length followed by another is the checksum of the second that
-- starts with that of the first, wherever in memory they are.
pub checksum-append :
    (big : Bool) (addr addr' : ℕ) (xs ys : List ℕ) (initial : ℕ)
    → All IsByte xs
    → All IsByte ys
    → odd_after false xs ≡ false
    → initial < 2 ^ 16
    → checksum big addr (xs ++ ys) initial ≡ checksum big addr' ys (checksum big addr xs initial)
checksum-append big addr addr' xs ys initial hx hy e hi =
    let part = checksum_lem big addr xs initial hx hi in
    checksum_lem big addr (xs ++ ys) initial (All-append IsByte xs ys hx hy) hi
    ∙ ap canon (omega (arith, word_sum-append false xs ys, ap (λ (o : Bool). word_sum o ys) e))
    ∙ sym (canon-canon-add (initial + word_sum false xs) (word_sum false ys))
    ∙ ap (λ (n : ℕ). canon (n + word_sum false ys)) (sym part)
    ∙ sym (
        checksum_lem big addr' ys (checksum big addr xs initial) hy
          (omega (arith, part, canon-le (initial + word_sum false xs))))

-- One more buffer in a chain of checksums.
pub fold_in :
    (b : List ℕ) (xsum n : ℕ)
    → All IsByte b
    → xsum ≡ canon n
    → checksum false 0 b xsum ≡ canon (n + word_sum false b)
fold_in b xsum n hb e =
    checksum_lem false 0 b xsum hb (omega (arith, e, canon-le n))
    ∙ ap (λ (x : ℕ). canon (x + word_sum false b)) e
    ∙ canon-canon-add n (word_sum false b)

-- For addresses of bytes, the pseudo header's checksum is the ones' complement sum of the words of
-- the two addresses, the length and the protocol.
pub pseudo_header_checksum_lem :
    (protocol : ℕ) (src dst : List ℕ) (total_len : ℕ)
    → protocol < 256
    → All IsByte src
    → All IsByte dst
    → total_len < 2 ^ 16
    → pseudo_header_checksum protocol src dst total_len
      ≡ canon (word_sum false src + word_sum false dst + total_len + protocol)
unfolding pseudo_header_checksum
pseudo_header_checksum_lem protocol src dst total_len hp hs hd hl =
    fold_in (0 ∷ protocol ∷ []) _ _ (omega arith) (
      fold_in (be16 total_len) _ _ (omega arith)
        (fold_in dst _ _ hd (fold_in src 0 0 hs (unfold canon in refl))))
    ∙ ap canon (unfold word_sum in omega arith)

-- In a ones' complement sum of 16-bit words, replacing the word `old` by `new` gives the sum with
-- `new` in its place, if the plain sum is then not zero.
pub update_uint16_lem :
    (rest old new : ℕ)
    → old < 2 ^ 16
    → new < 2 ^ 16
    → rest + new ≢ 0
    → update_uint16 (canon (rest + old)) old new ≡ canon (rest + new)
unfolding update_uint16 combine canon
update_uint16_lem rest old new ho hn h = ground arith

-- Replacing an address.
update_words_lem :
    (rest : ℕ) (old new : List ℕ)
    → 0 < rest
    → length old ≡ length new
    → odd_after false old ≡ false
    → All IsByte old
    → All IsByte new
    → update_words (canon (rest + word_sum false old)) old new ≡ canon (rest + word_sum false new)
unfolding update_words word_sum odd_after
update_words_lem rest [] [] hr hl hp ho hn = refl
update_words_lem rest (a ∷ []) (c ∷ []) hr hl hp ho hn = cc
update_words_lem rest (a ∷ b ∷ old) (c ∷ d ∷ new) hr hl hp ho hn =
    let u = (a * 256 + b) % 2 ^ 16 in
    let v = (c * 256 + d) % 2 ^ 16 in
    ap (λ (x : ℕ). update_words x old new)
      (ap (λ (n : ℕ). update_uint16 (canon n) u v) (omega (arith, ho.0, ho.1.0))
        ∙ update_uint16_lem (rest + word_sum false old) u v (omega arith) (omega arith)
            (omega arith)
        ∙ ap canon {y = rest + v + word_sum false old} (omega arith))
    ∙ update_words_lem (rest + v) old new (omega arith) (omega arith) hp ho.1.1 hn.1.1
    ∙ ap canon (omega (arith, hn.0, hn.1.0))
update_words_lem rest _ _ hr hl hp ho hn = absurd (omega arith)

odd_after-even : (b : List ℕ) → length b % 2 ≡ 0 → odd_after false b ≡ false
unfolding odd_after
odd_after-even [] h = refl
odd_after-even (x ∷ []) h = absurd (omega arith)
odd_after-even (x ∷ y ∷ b) h = odd_after-even b (omega arith)

-- Replacing an address of even length in a sum that holds other nonzero words gives the sum with
-- the new address; addresses of different or odd length make the code panic.
pub update_address_lem :
    (rest : ℕ) (old new : List ℕ)
    → 0 < rest
    → All IsByte old
    → All IsByte new
    → update_address (canon (rest + word_sum false old)) old new ≡ (
        if length old == length new && length old % 2 == 0
        then some (canon (rest + word_sum false new))
        else none)
unfolding update_address
update_address_lem rest old new hr ho hn = elim (Bool-cases (length old == length new)) [
  | inl e ↦ elim (Bool-cases (length old % 2 == 0)) [
    | inl e' ↦
        let even = odd_after-even old (ground arith) in
        ground (arith, update_words_lem rest old new hr (ground arith) even ho hn)
    | inr e' ↦ ground arith
  ]
  | inr e ↦ ground arith
]
