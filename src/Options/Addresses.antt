-- ===== src/Options/Addresses.antt =====
-- What NewSystem, the DNS servers and the broadcast address make of the prefixes (stack_system.go,
-- tun.go, stack.go).
use native.Mathlib.Nat.{one-le-pow, div-lt_iff_lt-mul, mul-add-div_right, lt-div-mul-add}
use sing_tun.Base.Bytes.{some_same}
use sing_tun.Base.{
  ℕ, ◌+◌, ◌-◌, ◌*◌, ◌/◌, ◌^◌, ◌≤◌, ◌<◌, ◌≡◌, ◌↔◌, refl, Bool, true, false, not, ◌&&◌, ◌||◌, ◌++◌,
  Option, none, some, List, [], ◌∷◌, if◌then◌else◌, arith, Bool-cases, inl, inr, ap, ◌∙◌, sym,
  ==_iff,
}
use sing_tun.Options.Last.{is_last, has_next_address-is_last, last_of}
use sing_tun.Options.{
  Prefix, contains, has_next_address, broadcast_addr, Options, no_servers, usable, dns_address,
  dns_server_address, system_address, need_one_more_inet4, need_one_more_inet6,
  missing_interface_address, NewSystem, started, refused, system_addresses, new_system,
}

next_in_prefix :
    (w : ℕ) (p : Prefix)
    → has_next_address w p 1 ≡ true
    → p.addr < 2 ^ w
    → (p.addr + 1 < 2 ^ w) × (contains w p (some (p.addr + 1)) ≡ true)
unfolding has_next_address
next_in_prefix w p h fits = ground arith

-- The addresses that a family of the stack has: two neighbours in its first prefix.
abbrev pub Neighbours : ℕ → List Prefix → Option (ℕ × ℕ) → Type 0
Neighbours w prefixes none = prefixes ≡ []
Neighbours w [] (some a) = ⊥
Neighbours w (p ∷ prefixes) (some (addr, after)) =
    (addr ≡ p.addr)
    × (after ≡ p.addr + 1)
    × (p.addr + 1 < 2 ^ w)
    × (contains w p (some after) ≡ true)

-- Whether NewSystem refuses a family: its first prefix's address is the last one of that prefix.
abbrev pub refuses : ℕ → List Prefix → Bool
refuses w [] = false
refuses w (p ∷ prefixes) = is_last w p

-- The first prefix is one of netip: an address and a length of its family.
abbrev pub FirstFits : ℕ → List Prefix → Type 0
FirstFits w [] = Unit
FirstFits w (p ∷ prefixes) = (p.addr < 2 ^ w) × (p.bits ≤ w)

abbrev pub is_empty : List Prefix → Bool
is_empty [] = true
is_empty (p ∷ prefixes) = false

-- What NewSystem makes of the prefixes.
abbrev pub Starts : List Prefix → List Prefix → NewSystem → Type 0
Starts inet4 inet6 result =
    if refuses 32 inet4
    then result ≡ refused need_one_more_inet4
    else if refuses 128 inet6
    then result ≡ refused need_one_more_inet6
    else if is_empty inet4 && is_empty inet6
    then result ≡ refused missing_interface_address
    else (four : Option (ℕ × ℕ)) × (six : Option (ℕ × ℕ)) × (result ≡ started four six)
      × Neighbours 32 inet4 four
      × Neighbours 128 inet6 six

neighbours :
    (w : ℕ) (p : Prefix) (ps : List Prefix)
    → has_next_address w p 1 ≡ true
    → p.addr < 2 ^ w
    → (system_address w (p ∷ ps) ≡ some (some (p.addr, p.addr + 1)))
      × Neighbours w (p ∷ ps) (some (p.addr, p.addr + 1))
unfolding system_address
neighbours w p ps e fits =
    let n = next_in_prefix w p e fits in (rw (e, system_address) refl, (refl, refl, n.0, n.1))

system_address-none :
    (w : ℕ) (p : Prefix) (ps : List Prefix)
    → has_next_address w p 1 ≡ false
    → system_address w (p ∷ ps) ≡ none
unfolding system_address
system_address-none w p ps e = rw (e, system_address) refl

empty : (w : ℕ) → system_address w [] ≡ some none
unfolding system_address
empty w = refl

starts :
    (inet4 inet6 : List Prefix)
    → FirstFits 32 inet4
    → FirstFits 128 inet6
    → Starts inet4 inet6 (system_addresses inet4 inet6)
unfolding system_addresses
starts [] [] f4 f6 = rw (empty 32, empty 128, system_addresses) refl
starts [] (q ∷ qs) f4 f6 = elim (Bool-cases (has_next_address 128 q 1)) [
  | inl e ↦
      let n = neighbours 128 q qs e f6.0 in
      rw (last_of 128 q true f6.1 e)
        (none, some (q.addr, q.addr + 1), rw (empty 32, n.0, system_addresses) refl, refl, n.1)
  | inr e ↦
      rw (last_of 128 q false f6.1 e)
        (rw (empty 32, system_address-none 128 q qs e, system_addresses) refl)
]
starts (p ∷ ps) [] f4 f6 = elim (Bool-cases (has_next_address 32 p 1)) [
  | inl e ↦
      let n = neighbours 32 p ps e f4.0 in
      rw (last_of 32 p true f4.1 e)
        (some (p.addr, p.addr + 1), none, rw (n.0, empty 128, system_addresses) refl, n.1, refl)
  | inr e ↦
      rw (last_of 32 p false f4.1 e) (rw (system_address-none 32 p ps e, system_addresses) refl)
]
starts (p ∷ ps) (q ∷ qs) f4 f6 = elim (Bool-cases (has_next_address 32 p 1)) [
  | inr e ↦
      rw (last_of 32 p false f4.1 e) (rw (system_address-none 32 p ps e, system_addresses) refl)
  | inl e ↦
      let n = neighbours 32 p ps e f4.0 in
      elim (Bool-cases (has_next_address 128 q 1)) [
        | inr e' ↦
            rw (last_of 32 p true f4.1 e, last_of 128 q false f6.1 e')
              (rw (n.0, system_address-none 128 q qs e', system_addresses) refl)
        | inl e' ↦
            let n' = neighbours 128 q qs e' f6.0 in
            rw (last_of 32 p true f4.1 e, last_of 128 q true f6.1 e')
              (
                some (p.addr, p.addr + 1),
                some (q.addr, q.addr + 1),
                rw (n.0, n'.0, system_addresses) refl,
                n.1,
                n'.1,
              )
      ]
]

-- For prefixes of the right sizes, NewSystem fails exactly when the address of a configured family's
-- first prefix is the last one of that prefix (all host bits set) or no family is configured, with the
-- error of the first such family; otherwise the stack has, for each configured family, the first prefix's
-- address and the one behind it, which is in the same prefix and does not wrap around.
pub new_system_lem :
    (o : Options)
    → FirstFits 32 o.inet4_address
    → FirstFits 128 o.inet6_address
    → Starts o.inet4_address o.inet6_address (new_system o)
new_system_lem o f4 f6 = starts o.inet4_address o.inet6_address f4 f6

-- The same for the lists alone.
abbrev dns_both : List Prefix → List Prefix → List ℕ → List ℕ → Bool → Option (List ℕ × List ℕ)
dns_both inet4 inet6 four six given = elim (dns_address 32 inet4 four given 128 inet6) [
  | none ↦ none
  | some x ↦ elim (dns_address 128 inet6 six given 32 inet4) [ none ↦ none | some y ↦ some (x, y) ]
]

dns_cases :
    (inet4 inet6 : List Prefix) (four six : List ℕ) (given : Bool)
    → (dns_both inet4 inet6 four six given ≡ none) ↔ (
        (given ≡ false)
        × (usable 32 inet4 ≡ false)
        × (usable 128 inet6 ≡ false)
        × ((is_empty inet4 && is_empty inet6) ≡ false))
unfolding dns_address
dns_cases [] [] four six given = ground arith
dns_cases [] (q ∷ qs) four six true = ground arith
dns_cases [] (q ∷ qs) four six false = ground arith
dns_cases (p ∷ ps) [] four six true = ground arith
dns_cases (p ∷ ps) [] four six false = ground arith
dns_cases (p ∷ ps) (q ∷ qs) four six true = ground arith
dns_cases (p ∷ ps) (q ∷ qs) four six false = ground arith

no_elements : (xs : List ℕ) → (not (elim xs [ [] ↦ true | _ ∷ _ ↦ false ]) ≡ false) ↔ (xs ≡ [])
no_elements [] = (λ e. refl, λ e. refl)
no_elements (x ∷ xs) = (λ e. cc, λ e. cc)

usable-refuses :
    (w : ℕ) (prefixes : List Prefix)
    → FirstFits w prefixes
    → (usable w prefixes ≡ false) ↔ ((is_empty prefixes || refuses w prefixes) ≡ true)
usable-refuses w [] f = (λ e. refl, λ e. refl)
usable-refuses w (p ∷ prefixes) f =
    (λ e. last_of w p false f.1 e, λ k. has_next_address-is_last w p f.1 ∙ ap not k)

-- Each family is not configured or refused.
abbrev pub AllRefused : List Prefix → List Prefix → Type 0
AllRefused inet4 inet6 =
    ((is_empty inet4 || refuses 32 inet4) ≡ true) × ((is_empty inet6 || refuses 128 inet6) ≡ true)

-- For prefixes of the right sizes, DNSServerAddress fails exactly when there are no DNS servers, a
-- family is configured, and the address of each configured family's first prefix is the last one of
-- that prefix.
pub dns_server_address-none :
    (o : Options)
    → FirstFits 32 o.inet4_address
    → FirstFits 128 o.inet6_address
    → (dns_server_address o ≡ none) ↔ (
        (o.dns_servers4 ++ o.dns_servers6 ≡ [])
        × ((is_empty o.inet4_address && is_empty o.inet6_address) ≡ false)
        × AllRefused o.inet4_address o.inet6_address)
unfolding dns_server_address
dns_server_address-none o f4 f6 =
    let c =
      dns_cases o.inet4_address o.inet6_address o.dns_servers4 o.dns_servers6
        (not (no_servers o)) in
    let u4 = usable-refuses 32 o.inet4_address f4 in
    let u6 = usable-refuses 128 o.inet6_address f6 in
    let v = no_elements (o.dns_servers4 ++ o.dns_servers6) in
    (
      λ e. let k = c.0 e in (v.0 k.0, k.3, (u4.0 k.1, u6.0 k.2)),
      λ k. c.1 (v.1 k.0, u4.1 k.2.0, u6.1 k.2.1, k.1),
    )

-- The broadcast address is the last one of the first prefix.
pub broadcast_addr_lem :
    (p : Prefix) (prefixes : List Prefix) (b : ℕ)
    → broadcast_addr (p ∷ prefixes) ≡ some b
    → (contains 32 p (some b) ≡ true) × ((a : ℕ) → contains 32 p (some a) ≡ true → a ≤ b)
unfolding broadcast_addr
broadcast_addr_lem p prefixes b e =
    let size = 2 ^ (32 - p.bits) in
    let big : 0 < size = omega (arith, one-le-pow (32 - p.bits) 2 (omega arith)) in
    let net = p.addr / size in
    let b_eq : net * size + (size - 1) ≡ b = some_same _ _ e in
    let small : (size - 1) / size < 1 = (div-lt_iff_lt-mul big).1 (omega arith) in
    let quotient : b / size ≡ net =
      ap (λ (x : ℕ). x / size) (sym b_eq) ∙ mul-add-div_right big net (size - 1) ∙ omega arith in
    (
      (==_iff (b / size) net).1 quotient,
      λ a h.
          let same = (==_iff (a / size) net).0 h in
          omega (arith, lt-div-mul-add {a = a} {b = size} big, ap (λ (x : ℕ). x * size) same),
    )
