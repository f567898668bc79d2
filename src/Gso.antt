-- ===== src/Gso.antt =====
-- GSOSplit of tun_offload.go. An element of `outs` is outBufs[i][outOffset:], and does not overlap
-- the input; `none` is a panic. `sizes` is taken to be as long as `outs`.
pub mod Segment
pub mod Payload
pub mod Total
pub mod Whole
pub mod Seal
pub mod Sums
pub mod Fields
pub mod Ipv4
pub mod Each
mod Examples
use sing_tun.Base.{
  ℕ, zero, suc, ◌+◌, ◌-◌, ◌*◌, ◌/◌, ◌%◌, ◌^◌, Bool, true, false, not, ◌||◌, ◌&&◌, Option, none,
  some, List, [], ◌∷◌, length, take, ltb, leb, ◌==◌, if◌then◌else◌,
}
use sing_tun.Base.Bytes.{◌>>=◌, put, copy_at, slice, bytes16, bytes32, get16, get32, get8, window}
use sing_tun.Checksum.Header.{
  checksum, combine, complement, pseudo_header_checksum, normalize_udp_checksum,
}

pub data GsoType : Type 0 where
  gso_none gso_tcp4 gso_tcp6 gso_udp_l4 : GsoType

pub record GsoOptions : Type 0 where
  pub gso_type : GsoType
  pub hdr_len : ℕ
  pub csum_start : ℕ
  pub csum_offset : ℕ
  pub gso_size : ℕ
  pub needs_csum : Bool

pub data GsoError : Type 0 where
  csum_past_end short_packet out_too_small hdr_before_csum wrong_type short_ip bad_version
        short_tcp :
      GsoError

-- What GSOSplit returns: the sizes with the buffers as they are then, or an error. `too_many` is
-- ErrTooManySegments, which comes with a count of one less than the sizes listed.
pub data Split : Type 0 where
  done : List ℕ → List (List ℕ) → Split
  too_many : List ℕ → List (List ℕ) → Split
  failed : GsoError → Split

abbrev pub is_none : GsoType → Bool
is_none gso_none = true
is_none _ = false

abbrev pub is_tcp : GsoType → Bool
is_tcp gso_tcp4 = true
is_tcp gso_tcp6 = true
is_tcp _ = false

-- Whether the type is one that the IP version may have.
abbrev pub allows : Bool → GsoType → Bool
allows false gso_tcp4 = true
allows false gso_udp_l4 = true
allows true gso_tcp6 = true
allows true gso_udp_l4 = true
allows _ _ = false

-- The complete checksum of a packet that is not split.
pub fill_csum : GsoOptions → List ℕ → Option (List ℕ)
fill_csum o inp = do
  let at = o.csum_start + o.csum_offset
  initial ← get16 inp at
  cleared ← put inp at (0 ∷ 0 ∷ [])
  part ← slice cleared o.csum_start (length cleared)
  let csum = complement (checksum false 0 part initial)
  put cleared at (bytes16 (if o.csum_offset == 6 then normalize_udp_checksum csum else csum))

pub copy_one : GsoOptions → List ℕ → List (List ℕ) → Option Split
copy_one o inp [] = none
copy_one o inp (out ∷ outs) =
    if ltb (length out) (length inp) then some (failed out_too_small) else (do
      filled ← if o.needs_csum then fill_csum o inp else some inp
      out' ← copy_at out 0 filled
      some (done (length filled ∷ []) (out' ∷ outs)))

-- What the loop reads of the input before it starts.
pub record Plan : Type 0 where
  pub v6 : Bool
  pub first_seq : ℕ
  pub src_flags : ℕ
  pub pseudo : ℕ

-- The IPv4 identification, for all segments but the first.
pub set_id : ℕ → List ℕ → Option (List ℕ)
set_id i out = if i == 0 then some out else (do id ← get16 out 4; put out 4 (bytes16 (id + i)))

pub set_ip_header : GsoOptions → Bool → ℕ → ℕ → List ℕ → Option (List ℕ)
set_ip_header o true i total out = put out 4 (bytes16 (total - o.csum_start))
set_ip_header o false i total out = do
  out1 ← set_id i out
  out2 ← put out1 10 (0 ∷ 0 ∷ [])
  out3 ← put out2 2 (bytes16 total)
  header ← slice out3 0 o.csum_start
  put out3 10 (bytes16 (complement (checksum false 0 header 0)))

-- tcpFlags &^ (FIN|PSH) clears the bits 0x01 and 0x08.
abbrev pub clear_fin_psh : ℕ → ℕ
clear_fin_psh f = f / 16 * 16 + f / 2 % 4 * 2

abbrev pub u16 : ℕ → ℕ
u16 x = x % 2 ^ 16

-- tcpSeq: the product is taken on uint16
abbrev pub segment_seq : GsoOptions → ℕ → ℕ → ℕ
segment_seq o first i = (first + u16 (o.gso_size * u16 i)) % 2 ^ 32

pub set_transport_header : GsoOptions → Plan → ℕ → Bool → ℕ → List ℕ → Option (List ℕ)
set_transport_header o p i last data_len out =
    if is_tcp o.gso_type
    then (do
      out1 ← put out (u16 (o.csum_start + 4)) (bytes32 (segment_seq o p.first_seq i))
      put out1 (u16 (o.csum_start + 13))
          ((if last then p.src_flags else clear_fin_psh p.src_flags) ∷ []))
    else put out (u16 (o.csum_start + 4)) (bytes16 (data_len + (o.hdr_len - o.csum_start)))

pub set_checksum : GsoOptions → Plan → ℕ → ℕ → List ℕ → Option (List ℕ)
set_checksum o p data_len total out = do
  let at = u16 (o.csum_start + o.csum_offset)
  cleared ← put out at (0 ∷ 0 ∷ [])
  part ← slice cleared o.csum_start total
  let initial = combine p.pseudo (u16 (o.hdr_len - o.csum_start + data_len))
  let csum = complement (checksum false 0 part initial)
  put cleared at (bytes16 (if is_tcp o.gso_type then csum else normalize_udp_checksum csum))

-- One round of the loop: segment `i`, whose data starts at `at`.
pub segment : GsoOptions → List ℕ → Plan → ℕ → ℕ → List ℕ → Option (List ℕ)
segment o inp p i at out =
    let end = if ltb (length inp) (at + o.gso_size) then length inp else at + o.gso_size in
    let total = o.hdr_len + (end - at) in
    (do
      front ← slice out 0 o.hdr_len
      header ← slice inp 0 o.hdr_len
      out1 ← copy_at out 0 header
      out2 ← set_ip_header o p.v6 i total out1
      out3 ← set_transport_header o p i (end == length inp) (end - at) out2
      payload ← slice inp at end
      out4 ← copy_at out3 o.hdr_len payload
      set_checksum o p (end - at) total out4)

pub segment_size : GsoOptions → List ℕ → ℕ → ℕ
segment_size o inp at =
    o.hdr_len + ((if ltb (length inp) (at + o.gso_size) then length inp else at + o.gso_size) - at)

pub add_segment : ℕ → List ℕ → Split → Split
add_segment size out (done sizes outs) = done (size ∷ sizes) (out ∷ outs)
add_segment size out (too_many sizes outs) = too_many (size ∷ sizes) (out ∷ outs)
add_segment size out (failed e) = failed e

pub split_loop : GsoOptions → List ℕ → Plan → ℕ → ℕ → List (List ℕ) → Option Split
split_loop o inp p i at [] = some (if ltb at (length inp) then too_many [] [] else done [] [])
split_loop o inp p i at (out ∷ outs) = elim (ltb at (length inp)) [
  | false ↦ some (done [] (out ∷ outs))
  | true ↦ do
    seg ← segment o inp p i at out
    rest ← split_loop o inp p (i + 1) (at + o.gso_size) outs
    some (add_segment (segment_size o inp at) seg rest)
]

-- The pseudo header's sum, with no length yet.
pub pseudo_base : GsoOptions → Bool → List ℕ → Option ℕ
pseudo_base o v6 inp = do
  let at = if v6 then 8 else 12
  let len = if v6 then 16 else 4
  src ← slice inp at (at + len)
  dst ← slice inp (at + len) (at + len * 2)
  some (pseudo_header_checksum (if is_tcp o.gso_type then 6 else 17) src dst 0)

pub split_all : GsoOptions → Bool → List ℕ → List (List ℕ) → Option Split
split_all o v6 inp outs =
    if is_tcp o.gso_type
    then (if ltb (length inp) (o.csum_start + 20) then some (failed short_tcp) else (do
      seq ← get32 inp (u16 (o.csum_start + 4))
      flags ← get8 inp (u16 (o.csum_start + 13))
      pseudo ← pseudo_base o v6 inp
      split_loop o inp (record { v6 = v6; first_seq = seq; src_flags = flags; pseudo = pseudo }) 0
          o.hdr_len outs))
    else (do
      pseudo ← pseudo_base o v6 inp
      split_loop o inp (record { v6 = v6; first_seq = 0; src_flags = 0; pseudo = pseudo }) 0
          o.hdr_len outs)

pub split_version : GsoOptions → ℕ → List ℕ → List (List ℕ) → Option Split
split_version o version inp outs =
    if not (version == 4 || version == 6)
    then some (failed bad_version)
    else if not (allows (version == 6) o.gso_type)
    then some (failed wrong_type)
    else if ltb (length inp) (if version == 6 then 40 else 20)
    then some (failed short_ip)
    else split_all o (version == 6) inp outs

pub gso_split : GsoOptions → List ℕ → List (List ℕ) → Option Split
gso_split o inp outs =
    if leb (length inp) (o.csum_start + o.csum_offset + 1)
    then some (failed csum_past_end)
    else if ltb (length inp) o.hdr_len
    then some (failed short_packet)
    else if is_none o.gso_type || ltb (length inp - o.hdr_len) o.gso_size
    then copy_one o inp outs
    else if ltb o.hdr_len o.csum_start
    then some (failed hdr_before_csum)
    else (get8 inp 0 >>= λ b. split_version o (b / 16) inp outs)
