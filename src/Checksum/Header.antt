-- ===== src/Checksum/Header.antt =====
-- checksum.Checksum, checksum.Combine (internal/gtcpip/checksum) and internal/gtcpip/header/checksum.go.
pub mod Update
use sing_tun.Base.{
  ℕ, ◌+◌, ◌-◌, ◌*◌, ◌/◌, ◌%◌, ◌^◌, Bool, true, false, not, Option, none, some, List, [], ◌∷◌,
  length, ◌==◌, if◌then◌else◌,
}
use sing_tun.Checksum.Unsafe.{calculate_checksum}

value : Option (ℕ × Bool) → ℕ
value none = 0
value (some (s, odd)) = s

-- The build for hosts other than amd64; with `odd` clear, calculateChecksum does not panic.
pub checksum : Bool → ℕ → List ℕ → ℕ → ℕ
unfolding value
checksum big addr b initial = value (calculate_checksum big addr b false initial)

unfoldable pub combine : ℕ → ℕ → ℕ
combine a b = let v = (a + b) % 2 ^ 32 in (v + v / 2 ^ 16) % 2 ^ 16

-- ^x on a uint16
abbrev pub complement : ℕ → ℕ
complement x = 65535 - x

-- binary.BigEndian.PutUint16 into a buffer of two bytes
abbrev pub be16 : ℕ → List ℕ
be16 v = v / 256 ∷ v % 256 ∷ []

-- The buffers of the four calls; their addresses do not matter.
pub pseudo_header_checksum : ℕ → List ℕ → List ℕ → ℕ → ℕ
pseudo_header_checksum protocol src dst total_len =
    let xsum = checksum false 0 src 0 in
    let xsum2 = checksum false 0 dst xsum in
    let xsum3 = checksum false 0 (be16 total_len) xsum2 in
    checksum false 0 (0 ∷ protocol ∷ []) xsum3

unfoldable pub update_uint16 : ℕ → ℕ → ℕ → ℕ
update_uint16 xsum old new =
    if old == new then xsum else combine xsum (combine new (complement old))

-- The loop over 2-byte words. An odd byte at the end does not occur: the caller panics first.
unfoldable pub update_words : ℕ → List ℕ → List ℕ → ℕ
update_words xsum (a ∷ b ∷ old) (c ∷ d ∷ new) =
    update_words (update_uint16 xsum ((a * 256 + b) % 2 ^ 16) ((c * 256 + d) % 2 ^ 16)) old new
update_words xsum _ _ = xsum

-- `none` is a panic: the lengths differ, or are odd.
unfoldable pub update_address : ℕ → List ℕ → List ℕ → Option ℕ
update_address xsum old new =
    if not (length old * 8 == length new * 8)
    then none
    else if not (length old * 8 % 16 == 0)
    then none
    else some (update_words xsum old new)

-- NormalizeUDPChecksum of header/udp.go
unfoldable pub normalize_udp_checksum : ℕ → ℕ
normalize_udp_checksum xsum = if xsum == 0 then 65535 else xsum
