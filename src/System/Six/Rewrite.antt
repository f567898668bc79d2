-- ===== src/System/Six/Rewrite.antt =====
-- rewriteIPv6TCP of stack_system.go: the addresses, with the checksum of the segment.
use sing_tun.Base.{
  ℕ, ◌+◌, ◌%◌, ◌≤◌, ◌≡◌, inl, inr, refl, ap, ◌∙◌, sym, Bool, true, false, Option, some, List,
  length, drop, arith, All, ◌==◌, Bool-cases, if◌then◌else◌,
}
use sing_tun.Base.Bytes.{
  ◌>>=◌, patch, window, bytes16, length-patch, drop-patch, window-patch_before, window-patch_after,
  window-patch_self, All-patch,
}
use sing_tun.Checksum.Ones.{word_sum}
use sing_tun.Checksum.Words.{IsByte}
use sing_tun.Header.Fields.{put-some}
use sing_tun.Header.Ipv6.{bytes128, set_source_addr6, set_destination_addr6}
use sing_tun.Header.Address6.{bytes128-IsByte, update_segment6, update_segment6_lem}
use sing_tun.System.{Packet}
use sing_tun.System.Rewrite.{SegmentStep, segment_same, segment_sealed}
use sing_tun.System.Six.{
  update_checksum_pseudo_header_address6, rewrite_source6, rewrite_destination6,
}

-- A header of which only the addresses changed.
pub record HeaderStep6 (h : List ℕ) (src dst r : List ℕ) : Type 0 where
  pub same_length : length r ≡ length h
  pub all_bytes : All IsByte r
  pub front : window r 0 8 ≡ window h 0 8
  pub behind : drop 40 r ≡ drop 40 h
  pub src_eq : window r 8 16 ≡ src
  pub dst_eq : window r 24 16 ≡ dst

pub record Whole6 (p : Packet) : Type 0 where
  pub header_bytes : All IsByte p.header
  pub payload_bytes : All IsByte p.payload
  pub header_room : 40 ≤ length p.header
  pub payload_room : 18 ≤ length p.payload

-- One address rewritten: the rest of the packet, and the sum of the segment with its pseudo header.
pub record AddressStep6 (p : Packet) (offload : Bool) (src dst : List ℕ) (old new : ℕ) (q : Packet)
    : Type 0 where
  pub header : HeaderStep6 p.header src dst q.header
  pub segment : SegmentStep p.payload (window p.payload 0 2) (window p.payload 2 2) q.payload
  pub trailer : q.trailer ≡ p.trailer
  pub sum :
      offload ≡ false
      → (word_sum false q.payload + word_sum false (bytes128 new)) % 65535
        ≡ (word_sum false p.payload + word_sum false (bytes128 old)) % 65535

header_same6 :
    (h src dst : List ℕ)
    → All IsByte h
    → window h 8 16 ≡ src
    → window h 24 16 ≡ dst
    → HeaderStep6 h src dst h
header_same6 h src dst hb e e' = record {
  same_length = refl;
  all_bytes = hb;
  front = refl;
  behind = refl;
  src_eq = e;
  dst_eq = e';
}

source_step6 :
    (h : List ℕ) (new : ℕ)
    → 40 ≤ length h
    → All IsByte h
    → HeaderStep6 h (bytes128 new) (window h 24 16) (patch h 8 (bytes128 new))
source_step6 h new room hb = record {
  same_length = length-patch h 8 (bytes128 new);
  all_bytes = All-patch IsByte h 8 (bytes128 new) hb (bytes128-IsByte new);
  front = window-patch_before h 8 0 8 (bytes128 new) (omega arith);
  behind = drop-patch 40 h 8 (bytes128 new) (omega arith);
  src_eq = window-patch_self h 8 16 (bytes128 new) (omega arith) refl;
  dst_eq = window-patch_after h 8 24 16 (bytes128 new) (omega arith);
}

destination_step6 :
    (h : List ℕ) (new : ℕ)
    → 40 ≤ length h
    → All IsByte h
    → HeaderStep6 h (window h 8 16) (bytes128 new) (patch h 24 (bytes128 new))
destination_step6 h new room hb = record {
  same_length = length-patch h 24 (bytes128 new);
  all_bytes = All-patch IsByte h 24 (bytes128 new) hb (bytes128-IsByte new);
  front = window-patch_before h 24 0 8 (bytes128 new) (omega arith);
  behind = drop-patch 40 h 24 (bytes128 new) (omega arith);
  src_eq = window-patch_before h 24 8 16 (bytes128 new) (omega arith);
  dst_eq = window-patch_self h 24 16 (bytes128 new) (omega arith) refl;
}

-- How a rewritten address ends.
abbrev pub AddressSteps6 : Packet → Bool → List ℕ → List ℕ → ℕ → ℕ → Option Packet → Type 0
AddressSteps6 p offload src dst old new result =
    (q : Packet) × (result ≡ some q) × AddressStep6 p offload src dst old new q

address_kept6 :
    (p : Packet) (offload : Bool) (src dst : List ℕ) (old new : ℕ)
    → Whole6 p
    → new ≡ old
    → window p.header 8 16 ≡ src
    → window p.header 24 16 ≡ dst
    → AddressSteps6 p offload src dst old new (some p)
address_kept6 p offload src dst old new v eq e e' = (
  p,
  refl,
  record {
    header = header_same6 p.header src dst v.header_bytes e e';
    segment = segment_same p.payload v.payload_bytes;
    trailer = refl;
    sum = λ _. ap (λ (a : ℕ). (word_sum false p.payload + word_sum false (bytes128 a)) % 65535) eq;
  },
)

abbrev updated6 : Packet → Bool → ℕ → ℕ → List ℕ → Option Packet
updated6 p offload old new header = do
  payload ←
      if offload then some p.payload else update_checksum_pseudo_header_address6 p.payload old new
  some (record p { header = header; payload = payload })

update_same :
    (b : List ℕ) (old new : ℕ)
    → update_checksum_pseudo_header_address6 b old new ≡ update_segment6 b old new
unfolding update_checksum_pseudo_header_address6
update_same b old new = refl

address_written6 :
    (p : Packet) (offload : Bool) (src dst : List ℕ) (old new : ℕ) (r : List ℕ)
    → Whole6 p
    → HeaderStep6 p.header src dst r
    → AddressSteps6 p offload src dst old new (updated6 p offload old new r)
address_written6 p true src dst old new r v h = (
  record p { header = r },
  refl,
  record {
    header = h;
    segment = segment_same p.payload v.payload_bytes;
    trailer = refl;
    sum = λ e. cc;
  },
)
address_written6 p false src dst old new r v h =
    let u = update_segment6_lem p.payload old new v.payload_room v.payload_bytes in
    (
      record p { header = r; payload = patch p.payload 16 (bytes16 u.0) },
      rw (update_same p.payload old new ∙ u.1) refl,
      record {
        header = h;
        segment = segment_sealed p.payload u.0 v.payload_room v.payload_bytes;
        trailer = refl;
        sum = λ e. u.2;
      },
    )

pub rewrite_source6_lem :
    (p : Packet) (offload : Bool) (old new : ℕ)
    → Whole6 p
    → bytes128 old ≡ window p.header 8 16
    → AddressSteps6 p offload
        (bytes128 new)
        (window p.header 24 16)
        old
        new
        (rewrite_source6 p offload old new)
unfolding rewrite_source6 set_source_addr6
rewrite_source6_lem p offload old new v e = elim (Bool-cases (new == old)) [
  | inl same ↦
      let eq : new ≡ old = ground arith in
      rw same (
        address_kept6 p offload (bytes128 new) (window p.header 24 16) old new v eq
          (sym e ∙ ap bytes128 (sym eq)) refl)
  | inr other ↦
      rw (other, put-some p.header 8 (bytes128 new) (omega (arith, v.header_room)))
        (address_written6 p offload _ _ old new _ v
          (source_step6 p.header new v.header_room v.header_bytes))
]

pub rewrite_destination6_lem :
    (p : Packet) (offload : Bool) (old new : ℕ)
    → Whole6 p
    → bytes128 old ≡ window p.header 24 16
    → AddressSteps6 p offload
        (window p.header 8 16)
        (bytes128 new)
        old
        new
        (rewrite_destination6 p offload old new)
unfolding rewrite_destination6 set_destination_addr6
rewrite_destination6_lem p offload old new v e = elim (Bool-cases (new == old)) [
  | inl same ↦
      let eq : new ≡ old = ground arith in
      rw same (
        address_kept6 p offload (window p.header 8 16) (bytes128 new) old new v eq refl
          (sym e ∙ ap bytes128 (sym eq)))
  | inr other ↦
      rw (other, put-some p.header 24 (bytes128 new) (omega (arith, v.header_room)))
        (address_written6 p offload _ _ old new _ v
          (destination_step6 p.header new v.header_room v.header_bytes))
]
