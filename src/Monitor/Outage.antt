-- ===== src/Monitor/Outage.antt =====
-- The notifications of monitor_shared.go while no check succeeds.
use sing_tun.Base.{
  ℕ, ◌+◌, ◌≡◌, refl, ap, ◌==◌, Bool, true, false, none, some, List, [], ◌∷◌, ◌++◌, arith,
  if◌then◌else◌, map,
}
use sing_tun.Monitor.{
  Check, found, unchanged, no_route, check_failed, Action, notify, schedule,
  DefaultInterfaceMonitor, post_check_update, checks,
}

-- An event that is not a success of checkUpdate.
abbrev pub is_outage : Bool × Check → Bool
is_outage (false, c) = true
is_outage (true, no_route) = true
is_outage (true, check_failed) = true
is_outage (true, _) = false

abbrev pub all_outage : List (Bool × Check) → Bool
all_outage [] = true
all_outage (e ∷ events) = if is_outage e then all_outage events else false

abbrev one_if : Bool → ℕ
one_if b = if b then 1 else 0

-- How often a callback is told that there is no interface.
abbrev pub losses : ℕ → List Action → ℕ
losses c [] = 0
losses c (notify id none ∷ actions) = one_if (id == c) + losses c actions
losses c (_ ∷ actions) = losses c actions

-- How often a callback is registered.
abbrev pub count : ℕ → List ℕ → ℕ
count c [] = 0
count c (id ∷ ids) = one_if (id == c) + count c ids

losses-append : (c : ℕ) (xs ys : List Action) → losses c (xs ++ ys) ≡ losses c xs + losses c ys
losses-append c [] ys = omega arith
losses-append c (notify id none ∷ xs) ys = omega (arith, losses-append c xs ys)
losses-append c (notify id (some i) ∷ xs) ys = losses-append c xs ys
losses-append c (schedule ∷ xs) ys = losses-append c xs ys

losses-emit : (c : ℕ) (ids : List ℕ) → losses c (map (λ id. notify id none) ids) ≡ count c ids
losses-emit c [] = refl
losses-emit c (x ∷ ids) = ap (λ (n : ℕ). one_if (x == c) + n) (losses-emit c ids)

-- How often a callback is still to be told of the loss.
abbrev pub owed : ℕ → DefaultInterfaceMonitor → ℕ
owed c m = if m.no_route_seen then 0 else count c m.callbacks

outage_step :
    (c : ℕ) (m : DefaultInterfaceMonitor) (e : Bool × Check)
    → is_outage e ≡ true
    → let (m', actions) = post_check_update m e.0 e.1 in
      (losses c actions + owed c m' ≡ owed c m) × (m'.callbacks ≡ m.callbacks)
unfolding post_check_update
outage_step c m (false, check) h = (omega arith, refl)
outage_step c m (true, found i) h = cc
outage_step c m (true, unchanged) h = cc
outage_step c m (true, check_failed) h = (omega arith, refl)
outage_step c m (true, no_route) h = ground (arith, losses-emit c m.callbacks)

-- As long as no check succeeds, each callback is told at most once for each time that it is
-- registered that there is no route, however many checks fail and in whatever way: the notifications
-- of this callback and those that it is still owed are as many as its registrations, or none if the
-- loss was announced before. A callback that is not registered is never told.
pub one_loss_per_outage :
    (c : ℕ) (m : DefaultInterfaceMonitor) (events : List (Bool × Check))
    → all_outage events ≡ true
    → let (m', actions) = checks m events in losses c actions + owed c m' ≡ owed c m
unfolding checks
one_loss_per_outage c m [] h = omega arith
one_loss_per_outage c m (e ∷ events) h =
    let out : is_outage e ≡ true = ground arith in
    let rest : all_outage events ≡ true = ground arith in
    let (m', actions) = post_check_update m e.0 e.1 in
    let (m'', more) = checks m' events in
    omega (
      arith,
      losses-append c actions more,
      (outage_step c m e out).0,
      one_loss_per_outage c m' events rest,
    )
