-- ===== src/System/Batches.antt =====
-- tunLoop and batchLoopLinux of stack_system.go on the same packets.
use sing_tun.Base.{ℕ, Option, some, List, [], ◌∷◌, ◌++◌}
use sing_tun.Base.Bytes.{◌>>=◌}
use sing_tun.System.{System, Effect}
use sing_tun.System.Loops.{Event, Loop, Arrival, tun_loop}
use sing_tun.System.Gathered.{calls, packets, gathered}

-- tunLoop over one batch after the other, of which each batch's events are gathered.
pub gathered_loop : Loop → List (List Arrival) → Option Loop
gathered_loop l [] = some l
gathered_loop l (arrivals ∷ batches) =
    tun_loop (record { system = l.system; events = [] }) arrivals >>= λ r.
    gathered_loop (record { system = r.system; events = l.events ++ gathered r.events }) batches

-- The events of a batch, gathered, behind those that were there before.
abbrev pub after : List Event → Loop → Option Loop
after base r = some (record { system = r.system; events = base ++ gathered r.events })

abbrev pub concat : List (List Arrival) → List Arrival
concat [] = []
concat (xs ∷ xss) = xs ++ concat xss

-- The events before a loop stay in front.
abbrev behind : List Event → Loop → Option Loop
behind base r = some (record { system = r.system; events = base ++ r.events })

-- What is left when the order between calls and packets is forgotten.
abbrev pub Outcome : Type 0
Outcome = System × List Effect × List (List ℕ)

abbrev pub outcome : Loop → Option Outcome
outcome l = some (l.system, calls l.events, packets l.events)
