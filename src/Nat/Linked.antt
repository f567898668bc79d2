-- ===== src/Nat/Linked.antt =====
-- The invariant of TCPNat: its two maps are inverse to one another.
use sing_tun.Base.{ℕ, suc, ◌≤◌, ◌<◌, ◌≡◌, inl, inr, true, Option, none, some, arith, Bool-cases}
use sing_tun.Base.Net.{AddrPort, addr_port_eq, update}
use sing_tun.Nat.{TcpNat, Key, key_eq, key_of, nat_eq}
use sing_tun.Nat.Allocate.{IndexInRange}

addr_port_eq→≡ : (a b : AddrPort) → addr_port_eq a b ≡ true → a ≡ b
addr_port_eq→≡ a b h = ground arith

pub key_eq→≡ : (a b : Key) → key_eq a b ≡ true → a ≡ b
key_eq→≡ a b h =
    ground (arith, addr_port_eq→≡ a.source b.source, addr_port_eq→≡ a.destination b.destination)

pub key_eq_self : (k : Key) → key_eq k k ≡ true
key_eq_self k = ground arith

-- The keys of the sessions on the heap.
abbrev pub keys : TcpNat → ℕ → Option Key
keys n id = elim (n.heap id) [ none ↦ none | some s ↦ some (key_of s) ]

pub record Linked (addr : Key → Option ℕ) (port : ℕ → Option ℕ) (keyed : ℕ → Option Key) (next : ℕ)
    : Type 0 where
  pub forward :
      (k : Key) (p : ℕ) → addr k ≡ some p → (id : ℕ) × (port p ≡ some id) × (keyed id ≡ some k)
  pub backward :
      (p id : ℕ)
      → port p ≡ some id
      → (k : Key) × (keyed id ≡ some k) × (addr k ≡ some p) × (10000 ≤ p) × (p < 65536)
  pub fresh : (id : ℕ) → next ≤ id → keyed id ≡ none

pub record Inv (n : TcpNat) : Type 0 where
  pub index : IndexInRange n
  pub linked : Linked n.addr_map n.port_map (keys n) n.next_session

module _ {addr : Key → Option ℕ} {port : ℕ → Option ℕ} {keyed : ℕ → Option Key} {next : ℕ}
    (l : Linked addr port keyed next) where
  pub insert-Linked :
      (key : Key) (p : ℕ)
      → addr key ≡ none
      → port p ≡ none
      → 10000 ≤ p
      → p < 65536
      → Linked
          (update key_eq addr key (some p))
          (update nat_eq port p (some next))
          (update nat_eq keyed next (some key))
          (suc next)
  insert-Linked key p ha hp lo hi = record {
    forward = λ k q e. elim (Bool-cases (key_eq key k)) [
      | inl same ↦ (next, ground (arith, key_eq→≡ key k same), ground (arith, key_eq→≡ key k same))
      | inr other ↦
          let at = l.forward k q (ground arith) in
          (at.0, ground (arith, at.1), ground (arith, at.2, l.fresh next))
    ];
    backward = λ q id e. elim (Bool-cases (nat_eq p q)) [
      | inl same ↦ (key, ground arith, ground (arith, key_eq_self key), ground arith, ground arith)
      | inr other ↦
          let at = l.backward q id (ground arith) in
          (
            at.0,
            ground (arith, at.1, l.fresh next),
            ground (arith, at.2, key_eq→≡ key at.0),
            at.3,
            at.4,
          )
    ];
    fresh = λ id h. ground (arith, l.fresh id);
  }

  pub remove-Linked :
      (key : Key) (p id : ℕ)
      → port p ≡ some id
      → keyed id ≡ some key
      → Linked (update key_eq addr key none) (update nat_eq port p none) keyed next
  remove-Linked key p id hp hk = record {
    forward = λ k q e.
        let at = l.forward k q (ground arith) in
        (at.0, ground (arith, at.1, at.2, key_eq_self key), at.2);
    backward = λ q id' e.
        let at = l.backward q id' (ground arith) in
        let own = l.backward p id hp in
        (at.0, at.1, ground (arith, at.1, at.2, own.1, own.2, key_eq→≡ key at.0), at.3, at.4);
    fresh = λ i h. l.fresh i h;
  }
