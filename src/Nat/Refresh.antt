-- ===== src/Nat/Refresh.antt =====
-- Refreshes and new sessions of TCPNat.
use mathlib.Core.Path.{fun_ext, subst}
use sing_tun.Base.{ℕ, suc, ◌≤◌, ◌<◌, ◌≡◌, inl, inr, refl, none, some, arith, Option-cases}
use sing_tun.Base.Net.{update}
use sing_tun.Nat.{
  TcpNat, Key, TcpSession, key_eq, key_of, nat_eq, refresh, refresh_session, touch, insert_session,
  new_nat,
}
use sing_tun.Nat.Linked.{Linked, Inv, keys, insert-Linked}

key_of-touch : (now : ℕ) (s : TcpSession) → key_of (touch now s) ≡ key_of s
unfolding touch
key_of-touch now s = ground arith

pub keys-refresh_session :
    (n : TcpNat) (id now i : ℕ) → keys (refresh_session n id now) i ≡ keys n i
unfolding refresh_session
keys-refresh_session n id now i = elim (Option-cases (n.heap id)) [
  | inl e ↦ rw (e, refresh_session)
  | inr (s, e) ↦ ground (arith, key_of-touch now s)
]

-- A refresh writes no map, no index and no key.
pub record SameMaps (n m : TcpNat) : Type 0 where
  pub timeout : m.timeout ≡ n.timeout
  pub index : m.port_index ≡ n.port_index
  pub addr : m.addr_map ≡ n.addr_map
  pub port : m.port_map ≡ n.port_map
  pub next : m.next_session ≡ n.next_session
  pub keyed : (i : ℕ) → keys m i ≡ keys n i

pub refresh_session-SameMaps : (n : TcpNat) (id now : ℕ) → SameMaps n (refresh_session n id now)
refresh_session-SameMaps n id now = record {
  timeout = unfold refresh_session in ground arith;
  index = unfold refresh_session in ground arith;
  addr = unfold refresh_session in ground arith;
  port = unfold refresh_session in ground arith;
  next = unfold refresh_session in ground arith;
  keyed = keys-refresh_session n id now;
}

pub SameMaps-Inv : {n m : TcpNat} → SameMaps n m → Inv n → Inv m
SameMaps-Inv {n} {m} s v = record {
  index = rw s.index v.index;
  linked = rw (s.addr, s.port, s.next, fun_ext s.keyed) v.linked;
}

pub same : (n : TcpNat) → SameMaps n n
same n = record {
  timeout = refl;
  index = refl;
  addr = refl;
  port = refl;
  next = refl;
  keyed = λ i. refl;
}

pub refresh-SameMaps : (n : TcpNat) (port now : ℕ) → SameMaps n (refresh n port now)
unfolding refresh
refresh-SameMaps n port now = elim (Option-cases (n.port_map port)) [
  | inl e ↦ rw (e, refresh) (same n)
  | inr (id, e) ↦ rw (e, refresh) (refresh_session-SameMaps n id now)
]

pub new_nat-Inv : (timeout : ℕ) → Inv (new_nat timeout)
unfolding new_nat
new_nat-Inv timeout = record {
  index = (inr (omega arith), omega arith);
  linked = record { forward = λ k p e. cc; backward = λ p id e. cc; fresh = λ id h. refl };
}

pub insert_session-Inv :
    (n : TcpNat) (key : Key) (port now : ℕ)
    → Inv n
    → n.addr_map key ≡ none
    → n.port_map port ≡ none
    → 10000 ≤ port
    → port < 65536
    → Inv (insert_session n key port now)
unfolding insert_session
insert_session-Inv n key port now v ha hp lo hi = record {
  index = v.index;
  linked =
      subst
        (λ keyed.
          Linked (update key_eq n.addr_map key (some port))
            (update nat_eq n.port_map port (some n.next_session)) keyed (suc n.next_session))
        (fun_ext keyed) (insert-Linked v.linked key port ha hp lo hi);
}
  where
    keyed :
        (i : ℕ)
        → update nat_eq (keys n) n.next_session (some key) i
          ≡ keys (insert_session n key port now) i
    keyed i = ground arith
