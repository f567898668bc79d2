-- ===== src/Base/Ends.antt =====
-- What every result of a step that may panic satisfies, by the shape of the step.
use mathlib.Core.Path.{subst, ◌≡◌}
use mathlib.Core.Bool.{Bool, true, false}
use mathlib.Core.Option.{Option, none, some}
use sing_tun.Base.Tests.{if◌then◌else◌}
use sing_tun.Base.Bytes.{◌>>=◌, some_same}

module _ {B : Type 0} (P : B → Type 0) where
  abbrev pub Ends : Option B → Type 0
  Ends o = (b : B) → o ≡ some b → P b

  pub some-Ends : (b : B) → P b → Ends (some b)
  some-Ends b h b' e = subst P (some_same b b' e) h

  pub none-Ends : Ends none
  none-Ends b e = cc

  pub bind-Ends :
      {A : Type 0} (m : Option A) (f : A → Option B) → ((a : A) → Ends (f a)) → Ends (m >>= f)
  bind-Ends none f h = none-Ends
  bind-Ends (some a) f h = h a

  pub if_Ends : (t : Bool) (x y : Option B) → Ends x → Ends y → Ends (if t then x else y)
  if_Ends true x y hx hy = hx
  if_Ends false x y hx hy = hy

  pub option-Ends :
      {A : Type 0} (o : Option A) (x : Option B) (f : A → Option B)
      → Ends x
      → ((a : A) → Ends (f a))
      → Ends (elim o [ none ↦ x | some a ↦ f a ])
  option-Ends none x f hx hf = hx
  option-Ends (some a) x f hx hf = hf a
