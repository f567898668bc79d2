-- ===== src/System/Rewrite.antt =====
-- rewriteIPv4TCP of stack_system.go: the addresses, the ports and the two checksums.
use sing_tun.Base.{
  ℕ, ◌+◌, ◌%◌, ◌≤◌, ◌≡◌, inl, inr, refl, ap, ◌∙◌, sym, Bool, true, false, Option, some, List,
  length, drop, arith, All, ◌==◌, Bool-cases, if◌then◌else◌,
}
use sing_tun.Base.Bytes.{
  ◌>>=◌, patch, window, bytes16, bytes32, length-patch, drop-patch, window-patch_before, All-patch,
}
use sing_tun.Checksum.Ones.{word_sum}
use sing_tun.Checksum.Words.{IsByte}
use sing_tun.Header.{update_checksum_pseudo_header_address}
use sing_tun.Header.Update.{
  bytes16-IsByte, Rewritten, set_source_address_lem, set_destination_address_lem,
  update_checksum_pseudo_header_address_lem,
}
use sing_tun.System.{Packet, rewrite_source, rewrite_destination}

-- A header of which only the addresses and the checksum changed; a valid checksum is still valid.
pub record HeaderStep (h : List ℕ) (src dst r : List ℕ) : Type 0 where
  pub same_length : length r ≡ length h
  pub all_bytes : All IsByte r
  pub front : window r 0 10 ≡ window h 0 10
  pub options : drop 20 r ≡ drop 20 h
  pub src_eq : window r 12 4 ≡ src
  pub dst_eq : window r 16 4 ≡ dst
  pub sum : word_sum false r % 65535 ≡ word_sum false h % 65535

-- A segment of which only the ports and the checksum changed.
pub record SegmentStep (b : List ℕ) (sport dport r : List ℕ) : Type 0 where
  pub same_length : length r ≡ length b
  pub all_bytes : All IsByte r
  pub middle : window r 4 12 ≡ window b 4 12
  pub behind : drop 18 r ≡ drop 18 b
  pub sport_eq : window r 0 2 ≡ sport
  pub dport_eq : window r 2 2 ≡ dport

pub record Whole (p : Packet) : Type 0 where
  pub header_bytes : All IsByte p.header
  pub payload_bytes : All IsByte p.payload
  pub header_room : 20 ≤ length p.header
  pub payload_room : 18 ≤ length p.payload

-- One address rewritten: the rest of the packet, and the sum of the segment with its pseudo header.
pub record AddressStep (p : Packet) (offload : Bool) (src dst : List ℕ) (old new : ℕ) (q : Packet)
    : Type 0 where
  pub header : HeaderStep p.header src dst q.header
  pub segment : SegmentStep p.payload (window p.payload 0 2) (window p.payload 2 2) q.payload
  pub trailer : q.trailer ≡ p.trailer
  pub sum :
      offload ≡ false
      → (word_sum false q.payload + word_sum false (bytes32 new)) % 65535
        ≡ (word_sum false p.payload + word_sum false (bytes32 old)) % 65535

header_same :
    (h src dst : List ℕ)
    → All IsByte h
    → window h 12 4 ≡ src
    → window h 16 4 ≡ dst
    → HeaderStep h src dst h
header_same h src dst hb e e' = record {
  same_length = refl;
  all_bytes = hb;
  front = refl;
  options = refl;
  src_eq = e;
  dst_eq = e';
  sum = refl;
}

pub segment_same : (b : List ℕ) → All IsByte b → SegmentStep b (window b 0 2) (window b 2 2) b
segment_same b hb = record {
  same_length = refl;
  all_bytes = hb;
  middle = refl;
  behind = refl;
  sport_eq = refl;
  dport_eq = refl;
}

pub segment_sealed :
    (b : List ℕ) (c : ℕ)
    → 18 ≤ length b
    → All IsByte b
    → SegmentStep b (window b 0 2) (window b 2 2) (patch b 16 (bytes16 c))
segment_sealed b c h hb = record {
  same_length = length-patch b 16 _;
  all_bytes = All-patch IsByte b 16 _ hb (bytes16-IsByte c);
  middle = window-patch_before b 16 4 12 _ (omega arith);
  behind = drop-patch 18 b 16 _ (omega arith);
  sport_eq = window-patch_before b 16 0 2 _ (omega arith);
  dport_eq = window-patch_before b 16 2 2 _ (omega arith);
}

source_step :
    (h : List ℕ) (c new : ℕ) (r : List ℕ)
    → Rewritten h 10 (bytes16 c) 12 (bytes32 new) r
    → word_sum false r % 65535 ≡ word_sum false h % 65535
    → HeaderStep h (bytes32 new) (window h 16 4) r
source_step h c new r w s = record {
  same_length = w.same_length;
  all_bytes = w.all_bytes;
  front = w.elsewhere 0 10 (inr (omega arith)) (inr (omega arith));
  options = w.behind 20 (omega arith) (omega arith);
  src_eq = w.second;
  dst_eq = w.elsewhere 16 4 (inl (omega arith)) (inl (omega arith));
  sum = s;
}

destination_step :
    (h : List ℕ) (c new : ℕ) (r : List ℕ)
    → Rewritten h 10 (bytes16 c) 16 (bytes32 new) r
    → word_sum false r % 65535 ≡ word_sum false h % 65535
    → HeaderStep h (window h 12 4) (bytes32 new) r
destination_step h c new r w s = record {
  same_length = w.same_length;
  all_bytes = w.all_bytes;
  front = w.elsewhere 0 10 (inr (omega arith)) (inr (omega arith));
  options = w.behind 20 (omega arith) (omega arith);
  src_eq = w.elsewhere 12 4 (inl (omega arith)) (inr (omega arith));
  dst_eq = w.second;
  sum = s;
}

-- How a rewritten address ends.
abbrev pub AddressSteps : Packet → Bool → List ℕ → List ℕ → ℕ → ℕ → Option Packet → Type 0
AddressSteps p offload src dst old new result =
    (q : Packet) × (result ≡ some q) × AddressStep p offload src dst old new q

-- The address is the one that is there.
address_kept :
    (p : Packet) (offload : Bool) (src dst : List ℕ) (old new : ℕ)
    → Whole p
    → new ≡ old
    → window p.header 12 4 ≡ src
    → window p.header 16 4 ≡ dst
    → AddressSteps p offload src dst old new (some p)
address_kept p offload src dst old new v eq e e' = (
  p,
  refl,
  record {
    header = header_same p.header src dst v.header_bytes e e';
    segment = segment_same p.payload v.payload_bytes;
    trailer = refl;
    sum = λ _. ap (λ (a : ℕ). (word_sum false p.payload + word_sum false (bytes32 a)) % 65535) eq;
  },
)

abbrev pub update_segment : Packet → Bool → ℕ → ℕ → List ℕ → Option Packet
update_segment p offload old new header = do
  payload ←
      if offload then some p.payload else update_checksum_pseudo_header_address p.payload old new
  some (record p { header = header; payload = payload })

address_written :
    (p : Packet) (offload : Bool) (src dst : List ℕ) (old new : ℕ) (r : List ℕ)
    → Whole p
    → HeaderStep p.header src dst r
    → AddressSteps p offload src dst old new (update_segment p offload old new r)
address_written p true src dst old new r v h = (
  record p { header = r },
  refl,
  record {
    header = h;
    segment = segment_same p.payload v.payload_bytes;
    trailer = refl;
    sum = λ e. cc;
  },
)
address_written p false src dst old new r v h =
    let u =
      update_checksum_pseudo_header_address_lem p.payload old new v.payload_room v.payload_bytes in
    (
      record p { header = r; payload = patch p.payload 16 (bytes16 u.0) },
      rw (u.1) refl,
      record {
        header = h;
        segment = segment_sealed p.payload u.0 v.payload_room v.payload_bytes;
        trailer = refl;
        sum = λ e. u.2;
      },
    )

pub rewrite_source_lem :
    (p : Packet) (offload : Bool) (old new : ℕ)
    → Whole p
    → bytes32 old ≡ window p.header 12 4
    → AddressSteps p offload
        (bytes32 new)
        (window p.header 16 4)
        old
        new
        (rewrite_source p offload old new)
unfolding rewrite_source
rewrite_source_lem p offload old new v e = elim (Bool-cases (new == old)) [
  | inl same ↦
      let eq : new ≡ old = ground arith in
      rw same (
        address_kept p offload (bytes32 new) (window p.header 16 4) old new v eq
          (sym e ∙ ap bytes32 (sym eq)) refl)
  | inr other ↦
      let h = set_source_address_lem p.header new v.header_room v.header_bytes in
      rw (other, h.2)
        (address_written p offload _ _ old new h.1 v (source_step p.header h.0 new h.1 h.3 h.4))
]

pub rewrite_destination_lem :
    (p : Packet) (offload : Bool) (old new : ℕ)
    → Whole p
    → bytes32 old ≡ window p.header 16 4
    → AddressSteps p offload
        (window p.header 12 4)
        (bytes32 new)
        old
        new
        (rewrite_destination p offload old new)
unfolding rewrite_destination
rewrite_destination_lem p offload old new v e = elim (Bool-cases (new == old)) [
  | inl same ↦
      let eq : new ≡ old = ground arith in
      rw same (
        address_kept p offload (window p.header 12 4) (bytes32 new) old new v eq refl
          (sym e ∙ ap bytes32 (sym eq)))
  | inr other ↦
      let h = set_destination_address_lem p.header new v.header_room v.header_bytes in
      rw (other, h.2)
        (address_written p offload _ _ old new h.1 v
          (destination_step p.header h.0 new h.1 h.3 h.4))
]
