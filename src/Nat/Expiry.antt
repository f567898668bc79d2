-- ===== src/Nat/Expiry.antt =====
-- checkTimeout of stack_system_nat.go: what it collects, and what it removes.
use sing_tun.Base.{
  ℕ, ◌≡◌, inl, inr, refl, ap, Bool, true, false, Option, none, some, List, [], ◌∷◌, arith, ◌==◌,
  if◌then◌else◌, Bool-cases, Option-cases, ==_iff, ◌&&◌, ◌||◌,
}
use sing_tun.Nat.{TcpNat, key_of, timed_out, sweep_one, sweep, collect, check_timeout}
use sing_tun.Nat.Linked.{Inv, remove-Linked}

-- Whether a port stands in a list of ports, or in a list of ports with sessions.
abbrev pub listed : ℕ → List ℕ → Bool
listed p [] = false
listed p (q ∷ ports) = p == q || listed p ports

abbrev pub holds : ℕ → List (ℕ × ℕ) → Bool
holds p [] = false
holds p ((q, id) ∷ expired) = p == q || holds p expired

abbrev pub Distinct : List ℕ → Type 0
Distinct [] = Unit {0}
Distinct (p ∷ ports) = (listed p ports ≡ false) × Distinct ports

-- Every entry is a port with the session that it still leads to, and no port stands twice.
abbrev pub Held : (ℕ → Option ℕ) → List (ℕ × ℕ) → Type 0
Held port [] = Unit {0}
Held port ((p, id) ∷ expired) = (port p ≡ some id) × (holds p expired ≡ false) × Held port expired

-- Whether the session that a port leads to has been idle for longer than the timeout.
abbrev pub idle : TcpNat → ℕ → ℕ → Bool
idle n now port = elim (n.port_map port) [
  | none ↦ false
  | some id ↦ elim (n.heap id) [ none ↦ false | some s ↦ timed_out n now s ]
]

sweep_one-Inv :
    (n : TcpNat) (now p id : ℕ) → Inv n → n.port_map p ≡ some id → Inv (sweep_one n now (p, id))
unfolding sweep_one
sweep_one-Inv n now p id v h = elim (Option-cases (n.heap id)) [
  | inl e ↦ rw (e, sweep_one) v
  | inr (s, e) ↦ elim (Bool-cases (timed_out n now s)) [
    | inl t ↦
        rw (e, sweep_one)
          (rw t (record {
            index = v.index;
            linked = remove-Linked v.linked (key_of s) p id h (ground arith);
          }))
    | inr t ↦ rw (e, sweep_one) (rw t v)
  ]
]

sweep_one-port :
    (n : TcpNat) (now p id q : ℕ)
    → n.port_map p ≡ some id
    → (sweep_one n now (p, id)).port_map q ≡ (if q == p && idle n now p then none else n.port_map q)
unfolding sweep_one
sweep_one-port n now p id q h = ground arith

pub sweep_one-rest :
    (n : TcpNat) (now : ℕ) (e : ℕ × ℕ)
    → ((sweep_one n now e).heap ≡ n.heap) × ((sweep_one n now e).timeout ≡ n.timeout)
unfolding sweep_one
sweep_one-rest n now (p, id) = (ground arith, ground arith)

Held-sweep_one :
    (n : TcpNat) (now p id : ℕ) (expired : List (ℕ × ℕ))
    → n.port_map p ≡ some id
    → holds p expired ≡ false
    → Held n.port_map expired
    → Held (sweep_one n now (p, id)).port_map expired
Held-sweep_one n now p id [] e h r = tt
Held-sweep_one n now p id ((q, i) ∷ expired) e h r = (
  ground (arith, sweep_one-port n now p id q e),
  r.1,
  Held-sweep_one n now p id expired e (ground arith) r.2,
)

idle-sweep_one :
    (n : TcpNat) (now p id q : ℕ)
    → n.port_map p ≡ some id
    → (q == p) ≡ false
    → idle (sweep_one n now (p, id)) now q ≡ idle n now q
idle-sweep_one n now p id q h e =
    let r = sweep_one-rest n now (p, id) in
    let port = sweep_one-port n now p id q h in ground (arith, port, r.0, r.1)

pub sweep-Inv :
    (expired : List (ℕ × ℕ)) (n : TcpNat) (now : ℕ)
    → Inv n
    → Held n.port_map expired
    → Inv (sweep n now expired)
unfolding sweep
sweep-Inv [] n now v h = v
sweep-Inv ((p, id) ∷ expired) n now v h =
    sweep-Inv expired (sweep_one n now (p, id)) now (sweep_one-Inv n now p id v h.0)
      (Held-sweep_one n now p id expired h.0 h.1 h.2)

-- The second half of checkTimeout frees a port if and only if it was collected and its session is,
-- at the time of the first half, still idle; every other port keeps its session.
pub sweep_port :
    (expired : List (ℕ × ℕ)) (n : TcpNat) (now q : ℕ)
    → Held n.port_map expired
    → (sweep n now expired).port_map q
      ≡ (if holds q expired && idle n now q then none else n.port_map q)
unfolding sweep
sweep_port [] n now q h = refl
sweep_port ((p, id) ∷ expired) n now q h =
    let m = sweep_one n now (p, id) in
    let ih = sweep_port expired m now q (Held-sweep_one n now p id expired h.0 h.1 h.2) in
    let step = sweep_one-port n now p id q h.0 in
    elim (Bool-cases (q == p)) [
      | inl e ↦
          let qp = (==_iff q p).0 e in
          ground
            (arith, ih, step, ap (λ (x : ℕ). holds x expired) qp, ap (λ (x : ℕ). idle n now x) qp)
      | inr e ↦ ground (arith, ih, step, idle-sweep_one n now p id q h.0 e)
    ]

collect-holds :
    (order : List ℕ) (n : TcpNat) (now q : ℕ)
    → holds q (collect n now order) ≡ (listed q order && idle n now q)
unfolding collect
collect-holds [] n now q = refl
collect-holds (p ∷ order) n now q = ground (arith, collect-holds order n now q)

pub collect-Held :
    (order : List ℕ) (n : TcpNat) (now : ℕ) → Distinct order → Held n.port_map (collect n now order)
unfolding collect
collect-Held [] n now d = tt
collect-Held (p ∷ order) n now d =
    ground (arith, collect-holds order n now p, collect-Held order n now d.1)

-- Run without interruption over all ports in any order, checkTimeout frees exactly the ports whose
-- session has been idle for longer than the timeout.
pub check_timeout_port :
    (n : TcpNat) (now q : ℕ) (order : List ℕ)
    → Distinct order
    → listed q order ≡ true
    → (check_timeout n now order).port_map q ≡ (if idle n now q then none else n.port_map q)
unfolding check_timeout
check_timeout_port n now q order d h =
    let held = collect-Held order n now d in
    let swept = sweep_port (collect n now order) n now q held in
    ground (arith, swept, collect-holds order n now q)
