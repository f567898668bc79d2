-- ===== src/Base/Net.antt =====
-- netip.AddrPort, and maps from comparable keys.
use sing_tun.Base.{ℕ, Bool, ◌&&◌, Option, ◌==◌, if◌then◌else◌}

-- A netip.Addr stands as a number that tells equal addresses from different ones.
pub record AddrPort : Type 0 where
  pub addr : ℕ
  pub port : ℕ

abbrev pub addr_port_eq : AddrPort → AddrPort → Bool
addr_port_eq a b = a.addr == b.addr && a.port == b.port

-- A Go map: absent keys give `none`.
abbrev pub update {ℓ κ} :
    {K : Type ℓ} {V : Type κ} → (K → K → Bool) → (K → Option V) → K → Option V → K → Option V
update eq m k v j = if eq k j then v else m j
