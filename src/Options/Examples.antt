-- ===== src/Options/Examples.antt =====
-- The theorems about addresses and DNS servers at 172.18.0.1/30 and at 10.0.0.3/32.
use sing_tun.Base.{◌++◌, ◌≡◌, ◌↔◌, refl, false, ◌&&◌, none, some, [], ◌∷◌, arith}
use sing_tun.Options.{Prefix, broadcast_addr, Options, dns_server_address, new_system}
use sing_tun.Options.Addresses.{
  Starts, new_system_lem, AllRefused, dns_server_address-none, is_empty,
}

abbrev net : Prefix
net = record { addr = 2886860801; bits = 30 }

abbrev host : Prefix
host = record { addr = 167772163; bits = 32 }

abbrev options_of : Prefix → Options
options_of p = record {
  inet4_address = p ∷ [];
  inet6_address = [];
  inet4_gateway = none;
  inet6_gateway = none;
  dns_servers4 = [];
  dns_servers6 = [];
}

new_system_lem_example : Starts (net ∷ []) [] (new_system (options_of net))
new_system_lem_example = new_system_lem (options_of net) (omega arith, omega arith) tt

dns_server_address-none_example : (dns_server_address (options_of host) ≡ none) ↔ (
    ((options_of host).dns_servers4 ++ (options_of host).dns_servers6 ≡ [])
    × ((is_empty (host ∷ []) && is_empty []) ≡ false)
    × AllRefused (host ∷ []) [])
dns_server_address-none_example =
    dns_server_address-none (options_of host) (omega arith, omega arith) tt

net_broadcast : broadcast_addr (net ∷ []) ≡ some 2886860803
unfolding broadcast_addr
net_broadcast = refl
