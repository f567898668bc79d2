-- ===== src/System/Loops.antt =====
-- tunLoop and batchLoopLinux of stack_system.go, between two reads of the device. What leaves the stack
-- is one list of events in their order: the calls that processPacket makes itself, tun.Write of a reset
-- or an ICMP error among them, tunLoop's write of a packet, and BatchWrite of all packets of a batch.
use sing_tun.Base.{
  ℕ, Bool, true, false, Option, some, List, [], ◌∷◌, ◌++◌, length, ltb, if◌then◌else◌, map,
}
use sing_tun.Base.Bytes.{◌>>=◌}
use sing_tun.System.{System, Effect}
use sing_tun.System.Icmp.{Direct}
use sing_tun.System.Process.{Processed, process_packet}

pub data Event : Type 0 where
  call : Effect → Event
  write : List ℕ → Event
  batch_write : List (List ℕ) → Event

-- What a loop has done: the stack, and what left it.
pub record Loop : Type 0 where
  pub system : System
  pub events : List Event

-- A packet that is read, with the time at which it is processed, the answers of directNat.Lookup, and
-- the bytes of a pooled buffer that an ICMP error does not write.
pub record Arrival : Type 0 where
  pub now : ℕ
  pub direct4 : ℕ → ℕ → Direct
  pub direct6 : ℕ → ℕ → Direct
  pub stale : List ℕ
  pub packet : List ℕ

abbrev pub process_arrival : System → Arrival → Option Processed
process_arrival s a = process_packet s a.now a.direct4 a.direct6 a.stale a.packet

abbrev pub written_back : Bool → List ℕ → List Event
written_back true b = write b ∷ []
written_back false b = []

-- One round of tunLoop after its read.
unfoldable pub tun_step : Loop → Arrival → Option Loop
tun_step l a = if ltb (length a.packet) 20 then some l else (do
  r ← process_arrival l.system a
  some (record {
    system = r.system;
    events = l.events ++ (map call r.effects ++ written_back r.write_back r.buffer);
  }))

unfoldable pub tun_loop : Loop → List Arrival → Option Loop
tun_loop l [] = some l
tun_loop l (a ∷ arrivals) = tun_step l a >>= λ l'. tun_loop l' arrivals

-- The inner loop of batchLoopLinux, with writeBuffers: the calls are made at once.
unfoldable pub batch :
    System
    → List Event
    → List (List ℕ)
    → List Arrival
    → Option (System × List Event × List (List ℕ))
batch s events buffers [] = some (s, events, buffers)
batch s events buffers (a ∷ arrivals) =
    if ltb (length a.packet) 20
    then batch s events buffers arrivals
    else process_arrival s a >>= λ r.
        batch r.system (events ++ map call r.effects)
          (if r.write_back then buffers ++ (r.buffer ∷ []) else buffers) arrivals

-- BatchWrite, if there is anything to write.
abbrev pub batch_written : List (List ℕ) → List Event
batch_written [] = []
batch_written (b ∷ buffers) = batch_write (b ∷ buffers) ∷ []

abbrev pub flush : System × List Event × List (List ℕ) → Option Loop
flush (s, events, buffers) = some (record { system = s; events = events ++ batch_written buffers })

unfoldable pub batch_step : Loop → List Arrival → Option Loop
batch_step l arrivals = batch l.system l.events [] arrivals >>= flush

unfoldable pub batch_loop : Loop → List (List Arrival) → Option Loop
batch_loop l [] = some l
batch_loop l (arrivals ∷ batches) = batch_step l arrivals >>= λ l'. batch_loop l' batches
