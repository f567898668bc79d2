-- ===== src/Options/Last.antt =====
-- HasNextAddress of stack.go for one address: the address that has none is the last of its prefix.
use native.Mathlib.Nat.{
  one-le-pow, mod-lt, div-add-mod', mul-add-div_right, mul-div_cancel, div-eq_of_lt, pow-suc,
  mul_assoc,
}
use sing_tun.Base.{
  ℕ, zero, suc, ◌+◌, ◌-◌, ◌*◌, ◌/◌, ◌%◌, ◌^◌, ◌≤◌, ◌<◌, ◌≡◌, ◌≢◌, Bool, not, ◌==◌, arith,
  Bool-cases, inl, inr, ap, ◌∙◌, sym, ==_iff,
}
use sing_tun.Options.{Prefix, has_next_address}

-- The address has the host bits set: it is the last one of its prefix.
abbrev pub is_last : ℕ → Prefix → Bool
is_last w p = p.addr % 2 ^ (w - p.bits) + 1 == 2 ^ (w - p.bits)

-- The quotient of a number and of the one behind it.
next_quotient : (a size : ℕ) → 0 < size → (a + 1) / size ≡ a / size + (a % size + 1) / size
next_quotient a size big =
    let q = a / size in
    let r = a % size in
    let e : q * size + r ≡ a = div-add-mod' a size in
    let e1 : a + 1 ≡ q * size + (r + 1) = omega (arith, e) in
    ap (λ (x : ℕ). x / size) e1 ∙ mul-add-div_right big q (r + 1)

same_block : (a size : ℕ) → 0 < size → a % size + 1 < size → (a + 1) / size ≡ a / size
same_block a size big h =
    next_quotient a size big ∙ ap (λ (x : ℕ). a / size + x) (div-eq_of_lt h) ∙ omega arith

next_block : (a size : ℕ) → 0 < size → a % size + 1 ≡ size → (a + 1) / size ≡ a / size + 1
next_block a size big h =
    let one : size / size ≡ 1 = ap (λ (x : ℕ). x / size) (omega arith) ∙ mul-div_cancel 1 big in
    next_quotient a size big ∙ ap (λ (x : ℕ). a / size + x) (ap (λ (x : ℕ). x / size) h ∙ one)

-- In the middle of a block no number is before a multiple.
no_multiple : (a size k : ℕ) → 0 < size → a % size + 1 < size → a + 1 ≢ k * size
no_multiple a size k big h e =
    let q = a / size in
    let same : k ≡ q =
      sym (mul-div_cancel k big) ∙ ap (λ (x : ℕ). x / size) (sym e) ∙ same_block a size big h in
    omega (arith, div-add-mod' a size, ap (λ (x : ℕ). x * size) same)

two_pow_add : (a b : ℕ) → 2 ^ (a + b) ≡ 2 ^ a * 2 ^ b
two_pow_add a zero = let e : a + 0 ≡ a = omega arith in ap (λ (x : ℕ). 2 ^ x) e ∙ omega arith
two_pow_add a (suc b) =
    let e : a + suc b ≡ suc (a + b) = omega arith in
    ap (λ (x : ℕ). 2 ^ x) e
    ∙ pow-suc 2 (a + b)
    ∙ ap (λ (x : ℕ). x * 2) (two_pow_add a b)
    ∙ mul_assoc (2 ^ a) (2 ^ b) 2
    ∙ ap (λ (x : ℕ). 2 ^ a * x) (sym (pow-suc 2 b))

blocks : (w bits : ℕ) → bits ≤ w → 2 ^ w ≡ 2 ^ bits * 2 ^ (w - bits)
blocks w bits h =
    let e : w ≡ bits + (w - bits) = omega arith in
    ap (λ (x : ℕ). 2 ^ x) e ∙ two_pow_add bits (w - bits)

pub has_next_address-is_last :
    (w : ℕ) (p : Prefix) → p.bits ≤ w → has_next_address w p 1 ≡ not (is_last w p)
unfolding has_next_address
has_next_address-is_last w p h =
    let size = 2 ^ (w - p.bits) in
    let big : 0 < size = omega (arith, one-le-pow (w - p.bits) 2 (omega arith)) in
    let r : p.addr % size < size = mod-lt p.addr big in
    elim (Bool-cases (is_last w p)) [
      | inl e ↦
          let n = next_block p.addr size big ((==_iff (p.addr % size + 1) size).0 e) in
          ground (arith, n)
      | inr e ↦
          let inner : p.addr % size + 1 < size = ground arith in
          let n = same_block p.addr size big inner in
          let m : p.addr + 1 ≢ 2 ^ w =
            λ x. no_multiple p.addr size (2 ^ p.bits) big inner (x ∙ blocks w p.bits h) in
          ground (arith, n, m)
    ]

pub last_of :
    (w : ℕ) (p : Prefix) (b : Bool) → p.bits ≤ w → has_next_address w p 1 ≡ b → is_last w p ≡ not b
last_of w p b h e = elim (Bool-cases (is_last w p)) [
  | inl k ↦ rw k (ap not (sym (ap not k) ∙ sym (has_next_address-is_last w p h) ∙ e))
  | inr k ↦ rw k (ap not (sym (ap not k) ∙ sym (has_next_address-is_last w p h) ∙ e))
]
