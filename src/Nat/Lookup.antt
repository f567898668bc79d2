-- ===== src/Nat/Lookup.antt =====
-- Lookup and LookupBack of stack_system_nat.go.
use sing_tun.Base.{
  ℕ, ◌≤◌, ◌<◌, ◌≡◌, ◌≢◌, ◌↔◌, inl, inr, refl, ap, ◌∙◌, Option, none, some, arith, if◌then◌else◌,
  Option-cases,
}
use sing_tun.Nat.{
  TcpNat, Key, TcpSession, key_eq, key_of, refresh, refresh_session, insert_session,
  insert_allocated, lookup_locked, lookup, lookup_back, allocate_port_locked,
}
use sing_tun.Nat.Allocate.{allocate_state, allocate_found, allocate_port_locked-none}
use sing_tun.Nat.Linked.{Inv, keys, key_eq→≡, key_eq_self}
use sing_tun.Nat.Refresh.{
  SameMaps, refresh_session-SameMaps, SameMaps-Inv, same, refresh-SameMaps, insert_session-Inv,
  keys-refresh_session,
}

-- How a lookup can end. `i` is the port index after the search for a port.
data Outcome (n : TcpNat) (key : Key) (now : ℕ) (r : TcpNat × Option ℕ) : Type 0 where
  known :
      (port : ℕ)
      → n.addr_map key ≡ some port
      → r ≡ (refresh n port now, some port)
      → Outcome n key now r
  full :
      (i : ℕ)
      → n.addr_map key ≡ none
      → ((port : ℕ) → 10000 ≤ port → port < 65536 → n.port_map port ≢ none)
      → Inv (record n { port_index = i })
      → r ≡ (record n { port_index = i }, none)
      → Outcome n key now r
  created :
      (i port : ℕ)
      → n.addr_map key ≡ none
      → (n.port_map port ≡ none) × (10000 ≤ port) × (port < 65536)
      → Inv (record n { port_index = i })
      → r ≡ (insert_session (record n { port_index = i }) key port now, some port)
      → Outcome n key now r

insert_allocated-none :
    (key : Key) (now : ℕ) (r : TcpNat × Option ℕ)
    → r.1 ≡ none
    → insert_allocated key now r ≡ (r.0, none)
unfolding insert_allocated
insert_allocated-none key now (m, none) e = refl
insert_allocated-none key now (m, some port) e = cc

insert_allocated-some :
    (key : Key) (now : ℕ) (r : TcpNat × Option ℕ) (port : ℕ)
    → r.1 ≡ some port
    → insert_allocated key now r ≡ (insert_session r.0 key port now, some port)
unfolding insert_allocated
insert_allocated-some key now (m, none) port e = cc
insert_allocated-some key now (m, some p) port e = ground arith

lookup_absent :
    (n : TcpNat) (key : Key) (now : ℕ)
    → n.addr_map key ≡ none
    → lookup n key now ≡ insert_allocated key now (allocate_port_locked n)
unfolding lookup lookup_locked
lookup_absent n key now e = rw (e, lookup) (rw (e, lookup_locked))

lookup-Outcome : (n : TcpNat) (key : Key) (now : ℕ) → Inv n → Outcome n key now (lookup n key now)
unfolding lookup allocate_port_locked
lookup-Outcome n key now v = elim (Option-cases (n.addr_map key)) [
  | inr (port, e) ↦ known port e (rw (e, lookup))
  | inl e ↦
      let st = allocate_state 55536 n v.index in
      let m = (allocate_port_locked n).0 in
      let vm : Inv (record n { port_index = m.port_index }) = record {
        index = st.0;
        linked = v.linked;
      } in
      elim (Option-cases (allocate_port_locked n).1) [
        | inl out ↦
            full m.port_index e (λ port lo hi. allocate_port_locked-none n port v.index lo hi out)
              vm
              (lookup_absent n key now e
                ∙ insert_allocated-none key now (allocate_port_locked n) out
                ∙ ap (λ (x : TcpNat). (x, none)) st.1)
        | inr (port, found) ↦
            created m.port_index port e (allocate_found 55536 n port v.index found) vm (
              lookup_absent n key now e
              ∙ insert_allocated-some key now (allocate_port_locked n) port found
              ∙ ap (λ (x : TcpNat). (insert_session x key port now, some port)) st.1)
      ]
]

-- Lookup keeps the maps inverse to one another, also when it creates a session or fails.
pub lookup-Inv : (n : TcpNat) (key : Key) (now : ℕ) → Inv n → Inv (lookup n key now).0
lookup-Inv n key now v = elim (lookup-Outcome n key now v) [
  | known port e r ↦ rw r (SameMaps-Inv (refresh-SameMaps n port now) v)
  | full i e taken vi r ↦ rw r vi
  | created i port e free vi r ↦
      rw r (insert_session-Inv (record n { port_index = i }) key port now vi e free.0 free.1 free.2)
]

-- Lookup fails exactly if the flow has no port yet and all ports from 10000 to 65535 are taken.
pub lookup-none :
    (n : TcpNat) (key : Key) (now : ℕ)
    → Inv n
    → ((lookup n key now).1 ≡ none) ↔ (
        (n.addr_map key ≡ none)
        × ((port : ℕ) → 10000 ≤ port → port < 65536 → n.port_map port ≢ none))
lookup-none n key now v = elim (lookup-Outcome n key now v) [
  | known port e r ↦ (λ h. cc, λ h. cc (h.0))
  | full i e taken vi r ↦ (λ h. (e, taken), λ h. rw r refl)
  | created i port e free vi r ↦ (λ h. cc, λ h. absurd (h.1 port free.1 free.2 free.0))
]

-- After a lookup the flow has the port, and every other flow keeps the port it had or had not.
pub lookup_maps :
    (n : TcpNat) (key k : Key) (now port : ℕ)
    → Inv n
    → (lookup n key now).1 ≡ some port
    → (lookup n key now).0.addr_map k ≡ (if key_eq key k then some port else n.addr_map k)
unfolding insert_session
lookup_maps n key k now port v h = elim (lookup-Outcome n key now v) [
  | known p e r ↦ ground (
    arith,
    ap (λ (m : TcpNat). m.addr_map k) (ap (λ (x : TcpNat × Option ℕ). x.0) r),
    (refresh-SameMaps n p now).addr,
    key_eq→≡ key k,
  )
  | full i e taken vi r ↦ cc
  | created i p e free vi r ↦ ground (
    arith,
    ap (λ (x : TcpNat × Option ℕ). x.0.addr_map k) r,
    ap (λ (x : TcpNat × Option ℕ). x.1) r,
  )
]

pub session_of_key :
    (n : TcpNat) (id : ℕ) (key : Key)
    → keys n id ≡ some key
    → (s : TcpSession) × (n.heap id ≡ some s) × (key_of s ≡ key)
session_of_key n id key h = elim (Option-cases (n.heap id)) [
  | inl e ↦ ground arith
  | inr (s, e) ↦ (s, e, ground arith)
]

pub lookup_back-port :
    (n : TcpNat) (port id now : ℕ)
    → n.port_map port ≡ some id
    → (lookup_back n port now).1 ≡ (refresh_session n id now).heap id
unfolding lookup_back
lookup_back-port n port id now e = rw (e, lookup_back)

-- The port that a lookup gives leads back to a session with the flow's source and destination.
pub lookup_back-lookup :
    (n : TcpNat) (key : Key) (now later port : ℕ)
    → Inv n
    → (lookup n key now).1 ≡ some port
    → (s : TcpSession) × ((lookup_back (lookup n key now).0 port later).1 ≡ some s)
      × (key_of s ≡ key)
lookup_back-lookup n key now later port v h =
    let m = (lookup n key now).0 in
    let mapped : m.addr_map key ≡ some port =
      lookup_maps n key key now port v h ∙ rw (key_eq_self key) in
    let at = (lookup-Inv n key now v).linked.forward key port mapped in
    let found =
      session_of_key (refresh_session m at.0 later) at.0 key
        (keys-refresh_session m at.0 later at.0 ∙ at.2) in
    (found.0, lookup_back-port m port at.0 later at.1 ∙ found.1, found.2)

pub lookup-port_fits :
    (n : TcpNat) (key : Key) (now port : ℕ)
    → Inv n
    → (lookup n key now).1 ≡ some port
    → port < 65536
lookup-port_fits n key now port v h =
    let l = (lookup-Inv n key now v).linked in
    let at = l.forward key port (lookup_maps n key key now port v h ∙ rw (key_eq_self key)) in
    (l.backward port at.0 at.1).4

pub lookup_back-SameMaps : (n : TcpNat) (port now : ℕ) → SameMaps n (lookup_back n port now).0
unfolding lookup_back
lookup_back-SameMaps n port now = elim (Option-cases (n.port_map port)) [
  | inl e ↦ rw (e, lookup_back) (same n)
  | inr (id, e) ↦ rw (e, lookup_back) (refresh_session-SameMaps n id now)
]

-- A lookup takes no port away.
pub lookup-port_kept :
    (n : TcpNat) (key : Key) (now p id : ℕ)
    → Inv n
    → n.port_map p ≡ some id
    → (lookup n key now).0.port_map p ≡ some id
unfolding insert_session
lookup-port_kept n key now p id v h = elim (lookup-Outcome n key now v) [
  | known port e r ↦
      ap (λ (x : TcpNat × Option ℕ). x.0.port_map p) r
      ∙ ap (λ (m : ℕ → Option ℕ). m p) (refresh-SameMaps n port now).port
      ∙ h
  | full i e taken vi r ↦ ap (λ (x : TcpNat × Option ℕ). x.0.port_map p) r ∙ h
  | created i port e free vi r ↦ ap (λ (x : TcpNat × Option ℕ). x.0.port_map p) r ∙ ground arith
]

pub lookup_back_absent :
    (n : TcpNat) (port now later : ℕ)
    → n.port_map port ≡ none
    → (lookup_back (refresh n port now) port later).1 ≡ none
unfolding lookup_back
lookup_back_absent n port now later e =
    let gone : (refresh n port now).port_map port ≡ none =
      ap (λ (m : ℕ → Option ℕ). m port) (refresh-SameMaps n port now).port ∙ e in
    rw (gone, lookup_back)
