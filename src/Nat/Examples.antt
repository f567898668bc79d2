-- ===== src/Nat/Examples.antt =====
-- Runs of TCPNat, and the theorems about it at concrete states.
use sing_tun.Base.{
  ℕ, ◌≡◌, ◌≢◌, ◌↔◌, ◌≤◌, ◌<◌, refl, true, Option, none, some, [], ◌∷◌, zero, suc, arith, ap, inr,
}
use sing_tun.Nat.{
  TcpNat, Key, TcpSession, new_nat, key_of, advance, next_port, lookup_back, is_free, allocate,
  allocate_port_locked, insert_session, insert_allocated, lookup_locked, lookup_resume, lookup,
  second, collect, sweep,
}
use sing_tun.Nat.Allocate.{allocate_port_locked-none}
use sing_tun.Nat.Linked.{Inv}
use sing_tun.Nat.Refresh.{new_nat-Inv}
use sing_tun.Nat.Lookup.{lookup-Inv, lookup-none, lookup_back-lookup}
use sing_tun.Nat.Expiry.{idle, holds}
use sing_tun.Nat.Threads.{
  World, Reach, here, next, looks, collects, start, Reach-Inv, refreshed_survives,
  late_hit_loses_session,
}

abbrev flow : Key
flow = record {
  source = record { addr = 1; port = 40000 };
  destination = record { addr = 2; port = 443 };
}

abbrev other_flow : Key
other_flow = record {
  source = record { addr = 1; port = 40001 };
  destination = record { addr = 2; port = 443 };
}

-- One flow, seen at time 5, with a timeout of three seconds.
abbrev empty : TcpNat
empty = new_nat 3000000000

abbrev one_flow : TcpNat
one_flow = (lookup empty flow 5).0

one_flow-Inv : Inv one_flow
one_flow-Inv = lookup-Inv empty flow 5 (new_nat-Inv 3000000000)

first_port : (lookup empty flow 5).1 ≡ some 10000
unfolding new_nat lookup lookup_locked allocate_port_locked allocate is_free insert_allocated
first_port = refl

second_port : (lookup one_flow other_flow 6).1 ≡ some 10001
unfolding new_nat lookup lookup_locked allocate_port_locked allocate is_free insert_allocated
    insert_session
second_port = refl

port_of_flow : one_flow.port_map 10000 ≡ some 0
unfolding new_nat lookup lookup_locked allocate_port_locked allocate is_free insert_allocated
    insert_session
port_of_flow = refl

flow_has_port : one_flow.addr_map flow ≡ some 10000
unfolding new_nat lookup lookup_locked allocate_port_locked allocate is_free insert_allocated
    insert_session
flow_has_port = refl

lookup-none_example : ((lookup one_flow other_flow 6).1 ≡ none) ↔ (
    (one_flow.addr_map other_flow ≡ none)
    × ((port : ℕ) → 10000 ≤ port → port < 65536 → one_flow.port_map port ≢ none))
lookup-none_example = lookup-none one_flow other_flow 6 one_flow-Inv

-- A world in which the expiry loop has collected the flow, and not freed its port yet.
abbrev scanned : World
scanned = record {
  nat = one_flow;
  scan = 4000000000;
  expired = collect one_flow 4000000000 (10000 ∷ []);
}

abbrev looked : World
looked = record (start 3000000000) { nat = one_flow }

scanned-Reach : Reach (start 3000000000) scanned
scanned-Reach =
    next {u = looked} (next here (looks flow 5)) (collects (10000 ∷ []) 4000000000 (refl, tt) refl)

Reach-Inv_example : Inv scanned.nat
Reach-Inv_example = Reach-Inv 3000000000 scanned-Reach

collected : scanned.expired ≡ (10000, 0) ∷ []
unfolding new_nat lookup lookup_locked allocate_port_locked allocate is_free insert_allocated
    insert_session collect
collected = refl

flow_idle : idle scanned.nat scanned.scan 10000 ≡ true
unfolding new_nat lookup lookup_locked allocate_port_locked allocate is_free insert_allocated
    insert_session
flow_idle = refl

flow_collected : holds 10000 scanned.expired ≡ true
unfolding new_nat lookup lookup_locked allocate_port_locked allocate is_free insert_allocated
    insert_session collect
flow_collected = refl

late_hit_loses_session_example :
    let r =
      lookup_resume
        (sweep scanned.nat scanned.scan scanned.expired)
        flow
        (scanned.nat.addr_map flow)
        4000000001 in
    (r.1 ≡ some 10000) × ((lookup_back r.0 10000 4000000002).1 ≡ none)
late_hit_loses_session_example =
    late_hit_loses_session 3000000000 scanned-Reach flow 10000 4000000001 4000000002 flow_has_port
      flow_collected flow_idle

long_timeout : second ≤ scanned.nat.timeout
unfolding new_nat lookup lookup_locked allocate_port_locked allocate is_free insert_allocated
    insert_session
long_timeout = omega arith

-- The same, with the Lookup as a whole before the second half.
refreshed_survives_example :
    (s : TcpSession) × ((lookup_back
        (sweep (lookup scanned.nat flow 4000000001).0 scanned.scan scanned.expired)
        10000
        4000000002).1
      ≡ some s)
    × (key_of s ≡ flow)
refreshed_survives_example =
    refreshed_survives 3000000000 scanned-Reach flow 10000 4000000001 4000000002 flow_has_port
      long_timeout (omega arith)

lookup_back-lookup_example :
    (s : TcpSession) × ((lookup_back (lookup one_flow other_flow 6).0 10001 9).1 ≡ some s)
    × (key_of s ≡ other_flow)
lookup_back-lookup_example =
    lookup_back-lookup one_flow other_flow 6 9 10001 one_flow-Inv second_port

-- A NAT whose ports are all taken.
abbrev crowded : TcpNat
crowded = record empty { port_map = λ p. some p }

crowded_full :
    (rounds : ℕ) (n : TcpNat) → n.port_map ≡ crowded.port_map → (allocate rounds n).1 ≡ none
unfolding allocate is_free
crowded_full zero n h = refl
crowded_full (suc rounds) n h =
    ground (arith, ap (λ (f : ℕ → Option ℕ). f (next_port n)) h, crowded_full rounds (advance n) h)

allocate_port_locked-none_example : crowded.port_map 10000 ≢ none
unfolding allocate_port_locked new_nat
allocate_port_locked-none_example =
    allocate_port_locked-none crowded 10000 (inr (omega arith), omega arith) (omega arith)
      (omega arith) (crowded_full 55536 crowded refl)
