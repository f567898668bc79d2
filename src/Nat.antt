-- ===== src/Nat.antt =====
-- TCPNat of stack_system_nat.go: source and destination of a TCP flow to a local port and back.
-- Sessions are objects on a heap, since a caller and the expiry loop keep pointers to them.
-- Times are numbers; a difference of times that would be negative is 0, which no test tells apart.
pub mod Allocate
pub mod Linked
pub mod Refresh
pub mod Lookup
pub mod Expiry
pub mod Threads
mod Examples
use sing_tun.Base.{
  ℕ, zero, suc, ◌+◌, ◌-◌, ◌%◌, ◌≡◌, Bool, true, false, ◌&&◌, Option, none, some, List, [], ◌∷◌,
  ◌==◌, ltb, if◌then◌else◌,
}
use sing_tun.Base.Net.{AddrPort, addr_port_eq, update}

-- tcpNatKey
pub record Key : Type 0 where
  pub source : AddrPort
  pub destination : AddrPort

abbrev pub key_eq : Key → Key → Bool
key_eq a b = addr_port_eq a.source b.source && addr_port_eq a.destination b.destination

pub record TcpSession : Type 0 where
  pub source : AddrPort
  pub destination : AddrPort
  pub last_active : ℕ

-- The key that a session is stored under.
abbrev pub key_of : TcpSession → Key
key_of s = record { source = s.source; destination = s.destination }

pub record TcpNat : Type 0 where
  pub timeout : ℕ
  pub port_index : ℕ
  pub addr_map : Key → Option ℕ
  pub port_map : ℕ → Option ℕ
  pub heap : ℕ → Option TcpSession
  pub next_session : ℕ

abbrev pub nat_eq : ℕ → ℕ → Bool
nat_eq a b = a == b

-- time.Second, in the unit of the times (nanoseconds).
abbrev pub second : ℕ
second = 1000000000

unfoldable pub new_nat : ℕ → TcpNat
new_nat timeout = record {
  timeout = timeout;
  port_index = 10000;
  addr_map = λ k. none;
  port_map = λ p. none;
  heap = λ i. none;
  next_session = 0;
}

-- (*TCPSession).refresh
pub touch : ℕ → TcpSession → TcpSession
touch now s = if ltb second (now - s.last_active) then record s { last_active = now } else s

pub refresh_session : TcpNat → ℕ → ℕ → TcpNat
refresh_session n id now = elim (n.heap id) [
  | none ↦ n
  | some s ↦ record n { heap = update nat_eq n.heap id (some (touch now s)) }
]

-- (*TCPNat).refresh
unfoldable pub refresh : TcpNat → ℕ → ℕ → TcpNat
unfolding refresh_session touch
refresh n port now = elim (n.port_map port) [ none ↦ n | some id ↦ refresh_session n id now ]

-- LookupBack returns the pointer; the session is what it points to after the refresh.
unfoldable pub lookup_back : TcpNat → ℕ → ℕ → TcpNat × Option TcpSession
unfolding refresh_session touch
lookup_back n port now = elim (n.port_map port) [
  | none ↦ (n, none)
  | some id ↦ let n' = refresh_session n id now in (n', n'.heap id)
]

is_free : Option ℕ → Bool
is_free none = true
is_free (some id) = false

-- One round of allocatePortLocked: the port that it looks at, and the index after it.
abbrev pub next_port : TcpNat → ℕ
next_port n = if n.port_index == 0 then 10000 else n.port_index

abbrev pub advance : TcpNat → TcpNat
advance n = record n {
  port_index = if n.port_index == 0 then 10001 else (n.port_index + 1) % 65536;
}

-- The counted loop, by the rounds left.
unfoldable pub allocate : ℕ → TcpNat → TcpNat × Option ℕ
unfolding is_free
allocate zero n = (n, none)
allocate (suc rounds) n =
    let rest = allocate rounds (advance n) in
    if is_free (n.port_map (next_port n)) then (advance n, some (next_port n)) else rest

pub allocate_port_locked : TcpNat → TcpNat × Option ℕ
allocate_port_locked n = allocate (65535 - 10000 + 1) n

-- The end of Lookup: a new session at a free port.
pub insert_session : TcpNat → Key → ℕ → ℕ → TcpNat
insert_session n key port now = record n {
  port_map = update nat_eq n.port_map port (some n.next_session);
  addr_map = update key_eq n.addr_map key (some port);
  heap = update nat_eq n.heap n.next_session (some session);
  next_session = suc n.next_session;
}
  where
    session : TcpSession
    session = record { source = key.source; destination = key.destination; last_active = now }

-- `none` is the error "NAT port space exhausted".
pub insert_allocated : Key → ℕ → TcpNat × Option ℕ → TcpNat × Option ℕ
insert_allocated key now (n, none) = (n, none)
insert_allocated key now (n, some port) = (insert_session n key port now, some port)

-- The part of Lookup under the write locks.
pub lookup_locked : TcpNat → Key → ℕ → TcpNat × Option ℕ
lookup_locked n key now = elim (n.addr_map key) [
  | none ↦ insert_allocated key now (allocate_port_locked n)
  | some port ↦ (refresh n port now, some port)
]

-- What Lookup does with what it has read under the read lock, once it has released that lock.
pub lookup_resume : TcpNat → Key → Option ℕ → ℕ → TcpNat × Option ℕ
lookup_resume n key none now = lookup_locked n key now
lookup_resume n key (some port) now = (refresh n port now, some port)

-- Lookup with no other thread between its first read of the map and the rest.
pub lookup : TcpNat → Key → ℕ → TcpNat × Option ℕ
unfolding lookup_resume
lookup n key now = lookup_resume n key (n.addr_map key) now

-- Whether a session has been idle for longer than the timeout.
abbrev pub timed_out : TcpNat → ℕ → TcpSession → Bool
timed_out n now s = ltb n.timeout (now - s.last_active)

-- The first half of checkTimeout, under the read lock: what is idle at `now`. `order` is the order
-- in which `range` visits the ports.
pub collect : TcpNat → ℕ → List ℕ → List (ℕ × ℕ)
collect n now [] = []
collect n now (port ∷ order) =
    let rest = collect n now order in
    elim (n.port_map port) [
      | none ↦ rest
      | some id ↦ elim (n.heap id) [
        | none ↦ rest
        | some s ↦ if timed_out n now s then (port, id) ∷ rest else rest
      ]
    ]

-- One round of the second half, under the write locks.
pub sweep_one : TcpNat → ℕ → ℕ × ℕ → TcpNat
sweep_one n now (port, id) = elim (n.heap id) [
  | none ↦ n
  | some s ↦
      if timed_out n now s
      then record n {
        addr_map = update key_eq n.addr_map (key_of s) none;
        port_map = update nat_eq n.port_map port none;
      }
      else n
]

pub sweep : TcpNat → ℕ → List (ℕ × ℕ) → TcpNat
sweep n now [] = n
sweep n now (e ∷ expired) = sweep (sweep_one n now e) now expired

-- checkTimeout with no other thread between its halves.
pub check_timeout : TcpNat → ℕ → List ℕ → TcpNat
check_timeout n now order = sweep n now (collect n now order)
