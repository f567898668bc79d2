-- ===== src/System/Keeping.antt =====
-- What a packet may change of the stack (stack_system.go).
use mathlib.Core.Path.{subst}
use sing_tun.Base.{ℕ, ◌≡◌, inl, inr, sym, Option-cases, refl, Option, none, some}
use sing_tun.Base.Bytes.{◌>>=◌, bind_some}
use sing_tun.Base.Ends.{Ends, some-Ends}
use sing_tun.Nat.{TcpNat}
use sing_tun.Nat.Linked.{Inv}
use sing_tun.System.{System, Step, settle, looked_up}

-- A nil NAT stays nil, and a NAT stays one and keeps its invariant.
abbrev pub NatKept : Option TcpNat → Option TcpNat → Type 0
NatKept none none = Unit
NatKept (some nat) (some nat') = Inv nat → Inv nat'
NatKept _ _ = ⊥

NatKept-self : (n : Option TcpNat) → NatKept n n
NatKept-self none = tt
NatKept-self (some nat) = λ v. v

-- A step changes nothing of the stack but the NATs that there are, and keeps their invariants.
pub record Keeps (s t : System) : Type 0 where
  pub others : t ≡ record s { tcp_nat4 = t.tcp_nat4; tcp_nat6 = t.tcp_nat6 }
  pub nat_kept4 : NatKept s.tcp_nat4 t.tcp_nat4
  pub nat_kept6 : NatKept s.tcp_nat6 t.tcp_nat6

abbrev pub KeepsStep : System → Step → Type 0
KeepsStep s st = Keeps s st.system

pub Keeps-self : (s : System) → Keeps s s
Keeps-self s = record {
  others = refl;
  nat_kept4 = NatKept-self s.tcp_nat4;
  nat_kept6 = NatKept-self s.tcp_nat6;
}

pub Keeps-nat4 :
    (s : System) (nat nat' : TcpNat)
    → s.tcp_nat4 ≡ some nat
    → (Inv nat → Inv nat')
    → Keeps s (record s { tcp_nat4 = some nat' })
Keeps-nat4 s nat nat' e k = record {
  others = refl;
  nat_kept4 = subst (λ (n : Option TcpNat). NatKept n (some nat')) (sym e) k;
  nat_kept6 = NatKept-self s.tcp_nat6;
}

pub Keeps-nat6 :
    (s : System) (nat nat' : TcpNat)
    → s.tcp_nat6 ≡ some nat
    → (Inv nat → Inv nat')
    → Keeps s (record s { tcp_nat6 = some nat' })
Keeps-nat6 s nat nat' e k = record {
  others = refl;
  nat_kept4 = NatKept-self s.tcp_nat4;
  nat_kept6 = subst (λ (n : Option TcpNat). NatKept n (some nat')) (sym e) k;
}

pub same_step : (s : System) (st : Step) → st.system ≡ s → Ends (KeepsStep s) (some st)
same_step s st e =
    some-Ends (KeepsStep s) st (subst (λ (t : System). Keeps s t) (sym e) (Keeps-self s))

pub looked_up-Keeps :
    (s : System) (src dst : ℕ) (made : Option Step)
    → Ends (KeepsStep s) made
    → Ends (KeepsStep s) (made >>= λ st. some (looked_up src dst st))
looked_up-Keeps s src dst made h st' e =
    let (st, same, done) = bind_some made _ e in
    some-Ends (KeepsStep s) (looked_up src dst st) (h st same) st' done

pub settle-Keeps : (s : System) (st : Step) → Keeps s st.system → Keeps s (settle st).system
settle-Keeps s st h = elim (Option-cases st.error) [ inl e ↦ rw e h | inr (x, e) ↦ rw e h ]
