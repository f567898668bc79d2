-- ===== src/Tcp/Sack.antt =====
-- ParseTCPOptions and EncodeSACKBlocks of internal/gtcpip/header/tcp.go.
use mathlib.Core.Path.{subst}
use mathlib.Core.List.{append-nil}
use sing_tun.Base.{
  ℕ, zero, suc, ◌+◌, ◌-◌, ◌*◌, ◌/◌, ◌^◌, ◌≤◌, ◌<◌, ◌≡◌, refl, ap, ◌∙◌, sym, ltb, take_all,
  take-take, if◌then◌else◌, ◌⊎◌, some, List, [], ◌∷◌, ◌++◌, length, take, drop, ◌==◌, arith,
  length-drop, length-take, All-take, take-append_exact, drop_all, ==_iff, Bool-cases, inl, inr,
  All,
}
use sing_tun.Tcp.{
  stop, more, skip_option, SackBlock, Options, opt_ts, read_blocks, opt_sack, tcp_option, parse_tcp,
  no_options, parse_tcp_options, write_blocks, fitting_blocks, encode_sack_blocks,
}
use sing_tun.Tcp.Syn.{Shrinks, Shrinks-if, skip_option-Shrinks, Next-cases, uint32-be32}

opt_ts-Shrinks : (o : Options) (b : List ℕ) → Shrinks (length b) (opt_ts o b)
unfolding opt_ts
opt_ts-Shrinks o (l ∷ a ∷ b ∷ c ∷ d ∷ e ∷ f ∷ g ∷ h ∷ rest) = ground arith
opt_ts-Shrinks o _ = tt

opt_sack-Shrinks :
    (o : Options) (kind : ℕ) (rest : List ℕ) → Shrinks (length rest) (opt_sack o (kind ∷ rest))
unfolding opt_sack
opt_sack-Shrinks o kind (l ∷ rest) = ground (arith, length-drop l (kind ∷ l ∷ rest))
opt_sack-Shrinks o kind [] = tt

tcp_option-Shrinks :
    (o : Options) (kind : ℕ) (rest : List ℕ) → Shrinks (length rest) (tcp_option o kind rest)
unfolding tcp_option
tcp_option-Shrinks o kind rest = Shrinks-if k (kind == 0) (stop o) _ tt (
    Shrinks-if k (kind == 1) (more rest o) _ (omega arith) (
      Shrinks-if k (kind == 8) (opt_ts o rest) _ (opt_ts-Shrinks o rest) (
        Shrinks-if k (kind == 5) (opt_sack o (kind ∷ rest)) (skip_option o (kind ∷ rest))
          (opt_sack-Shrinks o kind rest) (skip_option-Shrinks o kind rest))))
  where
    k : ℕ
    k = length rest

parse_tcp_total :
    (fuel : ℕ) (b : List ℕ) (o : Options)
    → length b < fuel
    → (r : Options) × (parse_tcp fuel b o ≡ some r)
unfolding parse_tcp
parse_tcp_total zero b o h = absurd (omega arith)
parse_tcp_total (suc fuel) [] o h = (o, refl)
parse_tcp_total (suc fuel) (kind ∷ rest) o h = elim (Next-cases (tcp_option o kind rest)) [
  | inl (o', e) ↦ (o', rw (e, parse_tcp))
  | inr (rest', o', e) ↦
      let short : length rest' ≤ length rest =
        subst (Shrinks (length rest)) e (tcp_option-Shrinks o kind rest) in
      let r = parse_tcp_total fuel rest' o' (omega arith) in (r.0, rw (e, parse_tcp) r.1)
]

-- ParseTCPOptions returns on every input, also on malformed ones, after at most one round more than
-- there are bytes.
pub parse_tcp_options_total : (b : List ℕ) → (r : Options) × (parse_tcp_options b ≡ some r)
unfolding parse_tcp_options
parse_tcp_options_total b = parse_tcp_total (length b + 1) b no_options (omega arith)

abbrev pub IsBlock : SackBlock → Type 0
IsBlock s = (s.start < 2 ^ 32) × (s.end < 2 ^ 32)

length-write_blocks : (blocks : List SackBlock) → length (write_blocks blocks) ≡ 8 * length blocks
unfolding write_blocks
length-write_blocks [] = omega arith
length-write_blocks (s ∷ blocks) = omega (arith, length-write_blocks blocks)

read_blocks-write_blocks :
    (blocks : List SackBlock) (rest : List ℕ)
    → All IsBlock blocks
    → read_blocks (length blocks) (write_blocks blocks ++ rest) ≡ blocks
unfolding read_blocks write_blocks
read_blocks-write_blocks [] rest h = refl
read_blocks-write_blocks (s ∷ blocks) rest h =
    rw
      (uint32-be32 s.start h.0.0, uint32-be32 s.end h.0.1, read_blocks-write_blocks blocks rest h.1)

-- A SACK option that holds all blocks and nothing behind them.
parse_blocks :
    (l : ℕ) (blocks : List SackBlock)
    → length blocks ≡ l
    → All IsBlock blocks
    → parse_tcp_options (5 ∷ (l * 8 + 2) ∷ write_blocks blocks)
      ≡ some (record no_options { sack_blocks = blocks })
unfolding parse_tcp_options parse_tcp tcp_option opt_sack
parse_blocks l blocks e h =
    let w = write_blocks blocks in
    let size : length w ≡ l * 8 = omega (arith, length-write_blocks blocks) in
    let none_left : drop (l * 8 + 2 - 2) w ≡ [] = drop_all (l * 8 + 2 - 2) w (omega arith) in
    let count : (l * 8 + 2 - 2) / 8 ≡ length blocks = omega arith in
    let read : read_blocks ((l * 8 + 2 - 2) / 8) w ≡ blocks =
      rw count (rw append-nil at (read_blocks-write_blocks blocks [] h)) in
    ground (arith, none_left, read, size)

fitting-le : (blocks : List SackBlock) (b : List ℕ) → fitting_blocks blocks b ≤ length blocks
unfolding fitting_blocks
fitting-le blocks b = ground arith

take_nothing : (l : ℕ) (blocks : List SackBlock) → l ≡ 0 → take l blocks ≡ []
take_nothing l blocks e = rw e

parse_nothing : parse_tcp_options [] ≡ some no_options
unfolding parse_tcp_options parse_tcp
parse_nothing = refl

whole :
    (n m : ℕ) (w front : List ℕ)
    → n ≡ suc (suc m)
    → take m w ≡ front
    → take n (5 ∷ n ∷ w) ≡ 5 ∷ n ∷ front
whole n m w front e h = rw e (ap (λ (r : List ℕ). 5 ∷ suc (suc m) ∷ r) h)

parse-encode_fitting :
    (blocks : List SackBlock) (b : List ℕ)
    → All IsBlock blocks
    → let r = encode_sack_blocks blocks b in
      parse_tcp_options (take r.0 r.1)
      ≡ some (record no_options { sack_blocks = take (fitting_blocks blocks b) blocks })
unfolding encode_sack_blocks
parse-encode_fitting [] b h =
    parse_nothing ∙ rw (take_nothing (fitting_blocks [] b) [] (omega (arith, fitting-le [] b)))
parse-encode_fitting (s ∷ blocks) b h =
    let l = fitting_blocks (s ∷ blocks) b in
    elim (Bool-cases (l == 0)) [
      | inl e ↦ rw e (parse_nothing ∙ rw (take_nothing l (s ∷ blocks) ((==_iff l 0).0 e)))
      | inr e ↦ rw e (
          let bs = take l (s ∷ blocks) in
          let count : length bs ≡ l =
            omega (arith, length-take l (s ∷ blocks), fitting-le (s ∷ blocks) b) in
          let n : l * 8 + 2 ≡ suc (suc (l * 8)) = omega arith in
          let front : take (l * 8) (write_blocks bs ++ drop (l * 8 + 2) b) ≡ write_blocks bs =
            take-append_exact (l * 8) (write_blocks bs) (drop (l * 8 + 2) b)
              (omega (arith, length-write_blocks bs)) in
          ap parse_tcp_options (whole (l * 8 + 2) (l * 8) _ _ n front)
          ∙ parse_blocks l bs count (All-take IsBlock l (s ∷ blocks) h))
    ]

take-take_min :
    {A : Type 0} (m n : ℕ) (xs : List A) → take m (take n xs) ≡ take (if ltb n m then n else m) xs
take-take_min m n xs = elim (Bool-cases (ltb n m)) [
  | inl e ↦
      let k : length (take n xs) ≤ m = ground (arith, length-take n xs) in
      rw e (take_all m (take n xs) k)
  | inr e ↦ rw e (take-take m n xs (ground arith))
]

-- Two bounds that are the same or both reach the end.
take_same :
    {A : Type 0} (m n : ℕ) (xs : List A)
    → (m ≡ n) ⊎ ((length xs ≤ m) × (length xs ≤ n))
    → take m xs ≡ take n xs
take_same m n xs (inl e) = ap (λ (k : ℕ). take k xs) e
take_same m n xs (inr h) = take_all m xs h.0 ∙ sym (take_all n xs h.1)

fitting_cases :
    (l n : ℕ)
    → let m = if ltb 4 l then 4 else l in
      let k = if ltb n m then n else m in
      (k ≡ (if ltb n 4 then n else 4)) ⊎ ((l ≤ k) × (l ≤ (if ltb n 4 then n else 4)))
fitting_cases l n = elim (Bool-cases (ltb 4 l)) [
  | inl e ↦ inl (ground arith)
  | inr e ↦ elim (Bool-cases (ltb n l)) [
    | inl e' ↦ inl (ground arith)
    | inr e' ↦ inr (ground arith)
  ]
]

fitting_first :
    (blocks : List SackBlock) (b : List ℕ)
    → take (fitting_blocks blocks b) blocks ≡ take 4 (take ((length b - 2) / 8) blocks)
unfolding fitting_blocks
fitting_first blocks b =
    let n = (length b - 2) / 8 in
    take_same (fitting_blocks blocks b) _ blocks (fitting_cases (length blocks) n)
    ∙ sym (take-take_min 4 n blocks)

-- What EncodeSACKBlocks wrote into a buffer, read back by ParseTCPOptions: the first blocks, as
-- many as 8 bytes each behind the option's first 2 fit the buffer, and of them four at most.
pub parse-encode_sack_blocks :
    (blocks : List SackBlock) (b : List ℕ)
    → All IsBlock blocks
    → let r = encode_sack_blocks blocks b in
      parse_tcp_options (take r.0 r.1)
      ≡ some (record no_options { sack_blocks = take 4 (take ((length b - 2) / 8) blocks) })
parse-encode_sack_blocks blocks b h =
    rw (sym (fitting_first blocks b)) (parse-encode_fitting blocks b h)
