-- ===== src/Monitor/Examples.antt =====
-- The theorem about outages at a monitor with two callbacks and three checks that fail.
use sing_tun.Base.{◌+◌, ◌≡◌, refl, Bool, true, false, List, [], ◌∷◌}
use sing_tun.Monitor.{
  Check, no_route, check_failed, DefaultInterfaceMonitor, new_monitor, register_callback,
  post_check_update, checks,
}
use sing_tun.Monitor.Outage.{losses, owed, one_loss_per_outage}

abbrev monitor : DefaultInterfaceMonitor
monitor = (register_callback (register_callback new_monitor).0).0

abbrev events : List (Bool × Check)
events = (false, no_route) ∷ (true, no_route) ∷ (true, no_route) ∷ (true, check_failed) ∷ []

told : losses 1 (checks monitor events).1 ≡ 1
unfolding checks post_check_update
told = refl

one_loss_per_outage_example :
    losses 1 (checks monitor events).1 + owed 1 (checks monitor events).0 ≡ owed 1 monitor
one_loss_per_outage_example = one_loss_per_outage 1 monitor events refl
