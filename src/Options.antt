-- ===== src/Options.antt =====
-- Addresses and DNS servers from the options (tun.go), HasNextAddress and BroadcastAddr (stack.go),
-- and the checks of NewSystem (stack_system.go). An address is its bits; `w` is 32 or 128. The
-- operating system, runtime.GOOS, is an argument.
pub mod Addresses
pub mod Last
mod Examples
use native.Mathlib.Nat.{one-le-pow, div-lt_iff_lt-mul, mul-add-div_right, lt-div-mul-add}
use sing_tun.Base.Bytes.{some_same}
use sing_tun.Base.{
  ℕ, zero, suc, ◌+◌, ◌-◌, ◌*◌, ◌/◌, ◌%◌, ◌^◌, ◌≤◌, ◌<◌, ◌≡◌, ◌↔◌, refl, Bool, true, false, not,
  ◌||◌, ◌&&◌, Option, none, some, List, [], ◌∷◌, ◌++◌, ltb, leb, ◌==◌, if◌then◌else◌, arith,
  Bool-cases, inl, inr, ap, ◌∙◌, sym, ==_iff,
}

-- A valid netip.Prefix with its address.
pub record Prefix : Type 0 where
  pub addr : ℕ
  pub bits : ℕ

-- netip.Addr.Next: `none` is the zero Addr, after the last address.
abbrev pub next : ℕ → Option ℕ → Option ℕ
next w none = none
next w (some a) = if a + 1 == 2 ^ w then none else some (a + 1)

abbrev pub contains : ℕ → Prefix → Option ℕ → Bool
contains w p none = false
contains w p (some a) = a / 2 ^ (w - p.bits) == p.addr / 2 ^ (w - p.bits)

abbrev pub advance : ℕ → ℕ → Option ℕ → Option ℕ
advance w zero a = a
advance w (suc count) a = advance w count (next w a)

unfoldable pub has_next_address : ℕ → Prefix → ℕ → Bool
has_next_address w p count = contains w p (advance w count (some p.addr))

-- The bits of the mask's complement are those that Masked clears, so that "or" is a sum.
unfoldable pub broadcast_addr : List Prefix → Option ℕ
broadcast_addr [] = none
broadcast_addr (p ∷ prefixes) =
    let size = 2 ^ (32 - p.bits) in some (p.addr / size * size + (size - 1))

pub data Os : Type 0 where
  android linux darwin other_os : Os

-- The configured prefixes and gateways (`none` is no valid gateway), and the DNS servers of the two
-- versions as common.Filter takes them from DNSServers.
pub record Options : Type 0 where
  pub inet4_address : List Prefix
  pub inet6_address : List Prefix
  pub inet4_gateway : Option ℕ
  pub inet6_gateway : Option ℕ
  pub dns_servers4 : List ℕ
  pub dns_servers6 : List ℕ

abbrev pub no_servers : Options → Bool
no_servers o = elim (o.dns_servers4 ++ o.dns_servers6) [ [] ↦ true | _ ∷ _ ↦ false ]

-- Whether a family's first prefix has a next address.
abbrev pub usable : ℕ → List Prefix → Bool
usable w [] = false
usable w (p ∷ prefixes) = has_next_address w p 1

-- The address behind that of the first prefix, where there is one.
abbrev next_server : ℕ → Prefix → List ℕ
next_server w p = elim (next w (some p.addr)) [ none ↦ [] | some a ↦ a ∷ [] ]

-- Inet4DNSAddress and Inet6DNSAddress; `none` is the error.
unfoldable pub dns_address : ℕ → List Prefix → List ℕ → Bool → ℕ → List Prefix → Option (List ℕ)
dns_address w [] servers given w' other = some []
dns_address w (p ∷ prefixes) servers true w' other = some servers
dns_address w (p ∷ prefixes) servers false w' other =
    if has_next_address w p 1
    then some (next_server w p)
    else if usable w' other
    then some []
    else none

abbrev pub inet4_dns_address : Options → Option (List ℕ)
inet4_dns_address o =
    dns_address 32 o.inet4_address o.dns_servers4 (not (no_servers o)) 128 o.inet6_address

abbrev pub inet6_dns_address : Options → Option (List ℕ)
inet6_dns_address o =
    dns_address 128 o.inet6_address o.dns_servers6 (not (no_servers o)) 32 o.inet4_address

-- DNSServerAddress: the addresses of both versions.
unfoldable pub dns_server_address : Options → Option (List ℕ × List ℕ)
dns_server_address o = elim (inet4_dns_address o) [
  | none ↦ none
  | some four ↦ elim (inet6_dns_address o) [ none ↦ none | some six ↦ some (four, six) ]
]

-- Inet4GatewayAddr and Inet6GatewayAddr; 0 is the unspecified address.
unfoldable pub gateway_addr : Os → ℕ → Option ℕ → List Prefix → ℕ
gateway_addr os w (some gateway) prefixes = gateway
gateway_addr os w none [] = 0
gateway_addr android w none (p ∷ prefixes) = 0
gateway_addr linux w none (p ∷ prefixes) = if has_next_address w p 1 then p.addr + 1 else 0
gateway_addr darwin w none (p ∷ prefixes) = p.addr
gateway_addr other_os w none (p ∷ prefixes) = if has_next_address w p 1 then p.addr + 1 else p.addr

-- The address and the next address of a family in NewSystem: `none` is the error, `none` inside a
-- family that is not configured.
unfoldable pub system_address : ℕ → List Prefix → Option (Option (ℕ × ℕ))
system_address w [] = some none
system_address w (p ∷ prefixes) =
    if has_next_address w p 1 then some (some (p.addr, p.addr + 1)) else none

pub data NewSystemError : Type 0 where
  need_one_more_inet4 need_one_more_inet6 missing_interface_address : NewSystemError

pub data NewSystem : Type 0 where
  started : Option (ℕ × ℕ) → Option (ℕ × ℕ) → NewSystem
  refused : NewSystemError → NewSystem

abbrev start_system : Option (ℕ × ℕ) → Option (ℕ × ℕ) → NewSystem
start_system none none = refused missing_interface_address
start_system four six = started four six

unfoldable pub system_addresses : List Prefix → List Prefix → NewSystem
system_addresses inet4 inet6 = elim (system_address 32 inet4) [
  | none ↦ refused need_one_more_inet4
  | some four ↦ elim (system_address 128 inet6) [
    | none ↦ refused need_one_more_inet6
    | some six ↦ start_system four six
  ]
]

abbrev pub new_system : Options → NewSystem
new_system o = system_addresses o.inet4_address o.inet6_address
