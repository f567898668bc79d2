-- ===== src/Monitor.antt =====
-- The default interface monitor of monitor_shared.go. An interface is a number, a callback its place
-- in the order of registration. checkUpdate depends on the platform: what it returns, and the interface
-- that it stores and announces, if any, are arguments.
pub mod Outage
mod Examples
use sing_tun.Base.{
  ℕ, suc, ◌+◌, ◌*◌, ◌≤◌, ◌≡◌, refl, ap, ◌∙◌, Bool, true, false, not, Option, none, some, List, [],
  ◌∷◌, ◌++◌, length, arith, ◌==◌, if◌then◌else◌, map,
}

-- The result of checkUpdate. `found` announces the interface that it stores, `unchanged` nothing.
pub data Check : Type 0 where
  found : ℕ → Check
  unchanged no_route check_failed : Check

-- What the monitor does to the outside: a call of a callback, or the start of the timer.
pub data Action : Type 0 where
  notify : ℕ → Option ℕ → Action
  schedule : Action

pub record DefaultInterfaceMonitor : Type 0 where
  pub default_interface : Option ℕ
  pub no_route_seen : Bool
  pub callbacks : List ℕ
  pub next_callback : ℕ

abbrev pub new_monitor : DefaultInterfaceMonitor
new_monitor = record {
  default_interface = none;
  no_route_seen = false;
  callbacks = [];
  next_callback = 0;
}

-- PushBack returns the element, by which it is removed.
abbrev pub register_callback : DefaultInterfaceMonitor → DefaultInterfaceMonitor × ℕ
register_callback m = (
  record m {
    callbacks = m.callbacks ++ (m.next_callback ∷ []);
    next_callback = suc m.next_callback;
  },
  m.next_callback,
)

abbrev pub remove : ℕ → List ℕ → List ℕ
remove id [] = []
remove id (x ∷ xs) = if x == id then xs else x ∷ remove id xs

abbrev pub unregister_callback : DefaultInterfaceMonitor → ℕ → DefaultInterfaceMonitor
unregister_callback m id = record m { callbacks = remove id m.callbacks }

-- emit calls the callbacks that are registered when it takes the lock, in their order.
abbrev pub emit : DefaultInterfaceMonitor → Option ℕ → List Action
emit m interface = map (λ id. notify id interface) m.callbacks

-- postCheckUpdate: `updated` says whether interfaceFinder.Update succeeded.
unfoldable pub post_check_update :
    DefaultInterfaceMonitor → Bool → Check → DefaultInterfaceMonitor × List Action
post_check_update m false check = (m, schedule ∷ [])
post_check_update m true (found i) = (
  record m { default_interface = some i; no_route_seen = false },
  emit (record m { default_interface = some i }) (some i),
)
post_check_update m true unchanged = (record m { no_route_seen = false }, [])
post_check_update m true no_route = if m.no_route_seen then (m, []) else (
  record m { default_interface = none; no_route_seen = true },
  emit (record m { default_interface = none; no_route_seen = true }) none,
)
post_check_update m true check_failed = (m, schedule ∷ [])

-- The checks that the timer starts, one after another.
unfoldable pub checks :
    DefaultInterfaceMonitor → List (Bool × Check) → DefaultInterfaceMonitor × List Action
checks m [] = (m, [])
checks m ((updated, check) ∷ events) =
    let (m', actions) = post_check_update m updated check in
    let (m'', more) = checks m' events in (m'', actions ++ more)
