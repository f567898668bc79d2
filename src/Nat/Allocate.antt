-- ===== src/Nat/Allocate.antt =====
-- allocatePortLocked of stack_system_nat.go, and the ports that it looks at.
use sing_tun.Base.{
  ℕ, zero, suc, ◌+◌, ◌-◌, ◌≤◌, ◌<◌, ◌≡◌, ◌≢◌, ◌⊎◌, inl, inr, refl, true, Option, none, some, arith,
  ◌==◌, ltb, if◌then◌else◌, Bool-cases,
}
use sing_tun.Nat.{
  TcpNat, Key, new_nat, next_port, advance, is_free, allocate, allocate_port_locked,
  insert_allocated, lookup_locked, lookup,
}

-- The index is 0 after port 65535, otherwise a port of the range.
abbrev pub IndexInRange : TcpNat → Type 0
IndexInRange n = ((n.port_index ≡ 0) ⊎ (10000 ≤ n.port_index)) × (n.port_index < 65536)

advance-IndexInRange : (n : TcpNat) → IndexInRange n → IndexInRange (advance n)
advance-IndexInRange n h = grind arith

-- How many rounds it takes until the loop looks at `port`.
pub distance : TcpNat → ℕ → ℕ
distance n port = if ltb port (next_port n) then port + 55536 - next_port n else port - next_port n

distance-advance :
    (n : TcpNat) (port : ℕ)
    → IndexInRange n
    → 10000 ≤ port
    → port < 65536
    → next_port n ≢ port
    → suc (distance (advance n) port) ≡ distance n port
unfolding distance
distance-advance n port h lo hi ne = ground arith

-- The loop changes the index only, and keeps it in range.
pub allocate_state :
    (rounds : ℕ) (n : TcpNat)
    → IndexInRange n
    → IndexInRange (allocate rounds n).0
      × ((allocate rounds n).0 ≡ record n { port_index = (allocate rounds n).0.port_index })
unfolding allocate
allocate_state zero n h = (h, refl)
allocate_state (suc rounds) n h = elim (Bool-cases (is_free (n.port_map (next_port n)))) [
  | inl free ↦ rw free (advance-IndexInRange n h, refl)
  | inr taken ↦ rw taken (allocate_state rounds (advance n) (advance-IndexInRange n h))
]

is_free→none : (o : Option ℕ) → is_free o ≡ true → o ≡ none
unfolding is_free
is_free→none none h = refl
is_free→none (some id) h = cc

-- A port that it returns is free and in range.
pub allocate_found :
    (rounds : ℕ) (n : TcpNat) (port : ℕ)
    → IndexInRange n
    → (allocate rounds n).1 ≡ some port
    → (n.port_map port ≡ none) × (10000 ≤ port) × (port < 65536)
unfolding allocate
allocate_found zero n port h e = cc
allocate_found (suc rounds) n port h e = elim (Bool-cases (is_free (n.port_map (next_port n)))) [
  | inl free ↦ ground (arith, is_free→none (n.port_map (next_port n)) free)
  | inr taken ↦ ground (arith, allocate_found rounds (advance n) port (advance-IndexInRange n h))
]

-- Where it returns no port, every port within its rounds is taken.
pub allocate-none :
    (rounds : ℕ) (n : TcpNat) (port : ℕ)
    → IndexInRange n
    → 10000 ≤ port
    → port < 65536
    → distance n port < rounds
    → (allocate rounds n).1 ≡ none
    → n.port_map port ≢ none
unfolding allocate is_free
allocate-none zero n port h lo hi d e = absurd (omega arith)
allocate-none (suc rounds) n port h lo hi d e = elim (Bool-cases (next_port n == port)) [
  | inl here ↦ ground arith
  | inr away ↦ ground (
    arith,
    distance-advance n port h lo hi,
    allocate-none rounds (advance n) port (advance-IndexInRange n h) lo hi,
  )
]

distance-lt :
    (n : TcpNat) (port : ℕ) → IndexInRange n → 10000 ≤ port → port < 65536 → distance n port < 55536
unfolding distance
distance-lt n port h lo hi = ground arith

-- With the index in range, allocatePortLocked fails only if every port from 10000 to 65535 is taken.
pub allocate_port_locked-none :
    (n : TcpNat) (port : ℕ)
    → IndexInRange n
    → 10000 ≤ port
    → port < 65536
    → (allocate_port_locked n).1 ≡ none
    → n.port_map port ≢ none
unfolding allocate_port_locked
allocate_port_locked-none n port h lo hi e =
    allocate-none 55536 n port h lo hi (distance-lt n port h lo hi) e

-- The first port of a new TCPNat.
pub lookup-new_nat :
    (timeout now : ℕ) (key : Key) → (lookup (new_nat timeout) key now).1 ≡ some 10000
unfolding new_nat lookup lookup_locked allocate_port_locked allocate is_free insert_allocated
lookup-new_nat timeout now key = refl
