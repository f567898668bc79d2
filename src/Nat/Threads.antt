-- ===== src/Nat/Threads.antt =====
-- TCPNat with its callers and its expiry loop running at the same time: each step is what one
-- thread does under the locks.
use sing_tun.Base.{
  ℕ, ◌≤◌, ◌≡◌, refl, ap, ◌∙◌, true, false, Option, none, some, List, [], ◌∷◌, arith,
}
use sing_tun.Nat.{
  TcpNat, Key, new_nat, second, TcpSession, key_of, lookup, lookup_resume, lookup_back, touch,
  refresh, refresh_session, collect, sweep, sweep_one,
}
use sing_tun.Nat.Linked.{Inv, keys}
use sing_tun.Nat.Refresh.{
  SameMaps, SameMaps-Inv, refresh-SameMaps, refresh_session-SameMaps, new_nat-Inv,
  keys-refresh_session,
}
use sing_tun.Nat.Lookup.{
  lookup_back-SameMaps, lookup-Inv, lookup-port_kept, lookup_back_absent, session_of_key,
  lookup_back-port,
}
use sing_tun.Nat.Expiry.{
  Distinct, Held, holds, idle, sweep-Inv, sweep_port, collect-Held, sweep_one-rest,
}

-- The maps, and what checkTimeout has collected between its two halves: the time it read and the
-- sessions that were idle then.
pub record World : Type 0 where
  pub nat : TcpNat
  pub scan : ℕ
  pub expired : List (ℕ × ℕ)

pub data Step (w : World) : World → Type 0 where
  -- Lookup, under the write locks or with both reads of the map at once.
  looks : (key : Key) (now : ℕ) → Step w (record w { nat = (lookup w.nat key now).0 })
  -- The refresh of a Lookup that read the port earlier, under the read lock.
  refreshes : (port now : ℕ) → Step w (record w { nat = refresh w.nat port now })
  -- The refresh of a session by a LookupBack that read the pointer earlier.
  touches : (id now : ℕ) → Step w (record w { nat = refresh_session w.nat id now })
  looks_back : (port now : ℕ) → Step w (record w { nat = (lookup_back w.nat port now).0 })
  -- The first half of checkTimeout, once the last one is over.
  collects :
      (order : List ℕ) (now : ℕ)
      → Distinct order
      → w.expired ≡ []
      → Step w (record w { scan = now; expired = collect w.nat now order })
  sweeps : Step w (record w { nat = sweep w.nat w.scan w.expired; expired = [] })

pub data Reach (w : World) : World → Type 0 where
  here : Reach w w
  next : {u v : World} → Reach w u → Step u v → Reach w v

pub record IsSound (w : World) : Type 0 where
  pub inv : Inv w.nat
  pub held : Held w.nat.port_map w.expired

Held-kept :
    (port port' : ℕ → Option ℕ) (expired : List (ℕ × ℕ))
    → ((p id : ℕ) → port p ≡ some id → port' p ≡ some id)
    → Held port expired
    → Held port' expired
Held-kept port port' [] k h = tt
Held-kept port port' ((p, id) ∷ expired) k h = (k p id h.0, h.1, Held-kept port port' expired k h.2)

SameMaps-IsSound :
    (w : World) (m : TcpNat) → SameMaps w.nat m → IsSound w → IsSound (record w { nat = m })
SameMaps-IsSound w m s v = record { inv = SameMaps-Inv s v.inv; held = rw s.port v.held }

Step-IsSound : {w u : World} → Step w u → IsSound w → IsSound u
Step-IsSound {w} (looks key now) v = record {
  inv = lookup-Inv w.nat key now v.inv;
  held = Held-kept _ _ w.expired (λ p id e. lookup-port_kept w.nat key now p id v.inv e) v.held;
}
Step-IsSound {w} (refreshes port now) v = SameMaps-IsSound w _ (refresh-SameMaps w.nat port now) v
Step-IsSound {w} (touches id now) v = SameMaps-IsSound w _ (refresh_session-SameMaps w.nat id now) v
Step-IsSound {w} (looks_back port now) v =
    SameMaps-IsSound w _ (lookup_back-SameMaps w.nat port now) v
Step-IsSound {w} (collects order now d e) v = record {
  inv = v.inv;
  held = collect-Held order w.nat now d;
}
Step-IsSound {w} sweeps v = record {
  inv = sweep-Inv w.expired w.nat w.scan v.inv v.held;
  held = tt;
}

abbrev pub start : ℕ → World
start timeout = record { nat = new_nat timeout; scan = 0; expired = [] }

Reach-IsSound : {w u : World} → Reach w u → IsSound w → IsSound u
Reach-IsSound here v = v
Reach-IsSound (next r s) v = Step-IsSound s (Reach-IsSound r v)

-- In every state that the threads can reach from a new TCPNat, in any order of their steps, the
-- maps are inverse to one another: two flows never share a port, every port in use lies in 10000
-- to 65535 and leads to the session of the flow that leads to it.
pub Reach-Inv : (timeout : ℕ) {w : World} → Reach (start timeout) w → Inv w.nat
Reach-Inv timeout r = (Reach-IsSound r (record { inv = new_nat-Inv timeout; held = tt })).inv

-- Lookup of a flow that has a port only refreshes.
lookup_hit :
    (n : TcpNat) (key : Key) (now port : ℕ)
    → n.addr_map key ≡ some port
    → lookup n key now ≡ (refresh n port now, some port)
unfolding lookup lookup_resume
lookup_hit n key now port e = rw (e, lookup) refl

-- A session that is refreshed after the time of the scan is not idle then.
refreshed_busy :
    (n : TcpNat) (port now scan : ℕ)
    → second ≤ n.timeout
    → scan ≤ now
    → idle (refresh n port now) scan port ≡ false
unfolding refresh refresh_session touch
refreshed_busy n port now scan h k = ground arith

sweep-heap : (expired : List (ℕ × ℕ)) (n : TcpNat) (now : ℕ) → (sweep n now expired).heap ≡ n.heap
unfolding sweep
sweep-heap [] n now = refl
sweep-heap (e ∷ expired) n now =
    sweep-heap expired (sweep_one n now e) now ∙ (sweep_one-rest n now e).0

-- If the timeout is at least a second, a Lookup that finds its flow's port between the halves of
-- checkTimeout, at the time that the first half read or later, keeps the session: after the second half
-- LookupBack gives a session of the flow for that port, however long the flow was idle before.
pub refreshed_survives :
    (timeout : ℕ) {w : World}
    → Reach (start timeout) w
    → (key : Key) (port now later : ℕ) → w.nat.addr_map key ≡ some port
    → second ≤ w.nat.timeout
    → w.scan ≤ now
    → let swept = sweep (lookup w.nat key now).0 w.scan w.expired in
      (s : TcpSession) × ((lookup_back swept port later).1 ≡ some s) × (key_of s ≡ key)
refreshed_survives timeout {w} r key port now later h long after =
    let v = Reach-IsSound r (record { inv = new_nat-Inv timeout; held = tt }) in
    let n = refresh w.nat port now in
    let same = refresh-SameMaps w.nat port now in
    let sound = SameMaps-IsSound w n same v in
    let at = sound.inv.linked.forward key port (ap (λ (f : Key → Option ℕ). f key) same.addr ∙ h) in
    let swept = sweep n w.scan w.expired in
    let kept : swept.port_map port ≡ some at.0 = ground (
      arith,
      sweep_port w.expired n w.scan port sound.held,
      refreshed_busy w.nat port now w.scan long after,
      at.1,
    ) in
    let keyed : keys swept at.0 ≡ some key = rw (sweep-heap w.expired n w.scan) at.2 in
    let found =
      session_of_key (refresh_session swept at.0 later) at.0 key
        (keys-refresh_session swept at.0 later at.0 ∙ keyed) in
    rw (lookup_hit w.nat key now port h)
      (found.0, lookup_back-port swept port at.0 later kept ∙ found.1, found.2)

-- A Lookup that read its flow's port under the read lock, where the second half of checkTimeout comes
-- before its refresh and frees that port (it was collected, and its session is still idle), returns
-- that port without an error, and LookupBack finds no session there.
pub late_hit_loses_session :
    (timeout : ℕ) {w : World}
    → Reach (start timeout) w
    → (key : Key) (port now later : ℕ) → w.nat.addr_map key ≡ some port
    → holds port w.expired ≡ true
    → idle w.nat w.scan port ≡ true
    → let r = lookup_resume (sweep w.nat w.scan w.expired) key (w.nat.addr_map key) now in
      (r.1 ≡ some port) × ((lookup_back r.0 port later).1 ≡ none)
unfolding lookup_resume
late_hit_loses_session timeout {w} r key port now later h e i =
    let v = Reach-IsSound r (record { inv = new_nat-Inv timeout; held = tt }) in
    let gone : (sweep w.nat w.scan w.expired).port_map port ≡ none =
      ground (arith, sweep_port w.expired w.nat w.scan port v.held) in
    rw h (refl, lookup_back_absent (sweep w.nat w.scan w.expired) port now later gone)
