-- ===== src/Gso/Examples.antt =====
-- The theorems about GSOSplit for an IPv4 packet with five bytes of TCP data, in segments of two.
use sing_tun.Base.{
  ℕ, ◌+◌, ◌-◌, ◌*◌, ◌%◌, ◌^◌, ◌<◌, ◌≡◌, refl, false, some, List, [], ◌∷◌, ◌++◌, length, ap, ◌==◌,
  arith, All,
}
use sing_tun.Base.Bytes.{window, bytes16, bytes32, get8}
use sing_tun.Checksum.Ones.{canon, word_sum}
use sing_tun.Checksum.Words.{IsByte}
use sing_tun.Gso.{
  GsoOptions, gso_tcp4, Plan, Split, done, too_many, failed, segment, segment_size, split_loop,
  gso_split,
}
use sing_tun.Gso.Segment.{Layout, data_end}
use sing_tun.Gso.Payload.{Cut, split_loop-Cut}
use sing_tun.Gso.Total.{Runs, segment_runs}
use sing_tun.Gso.Whole.{Splittable, gso_split_lem, split_loop_runs}
use sing_tun.Gso.Sums.{segment_checksum}
use sing_tun.Gso.Fields.{FlagsFor, segment_tcp}
use sing_tun.Gso.Ipv4.{segment_ipv4}
use sing_tun.Gso.Each.{IsSegment, sizes_of, split_loop_each}

abbrev options : GsoOptions
options = record {
  gso_type = gso_tcp4;
  hdr_len = 40;
  csum_start = 20;
  csum_offset = 16;
  gso_size = 2;
  needs_csum = false;
}

abbrev packet : List ℕ
packet =
    (69 ∷ 0 ∷ 0 ∷ 45 ∷ 0 ∷ 7 ∷ 0 ∷ 0 ∷ 64 ∷ 6 ∷ 0 ∷ 0 ∷ 10 ∷ 0 ∷ 0 ∷ 1 ∷ 10 ∷ 0 ∷ 0 ∷ 2 ∷ [])
    ++ (156 ∷ 64 ∷ 1 ∷ 187 ∷ 0 ∷ 0 ∷ 1 ∷ 0 ∷ 0 ∷ 0 ∷ 0 ∷ 9 ∷ 80 ∷ 24 ∷ 4 ∷ 0 ∷ 0 ∷ 0 ∷ 0 ∷ 0 ∷ [])
    ++ (104 ∷ 101 ∷ 108 ∷ 108 ∷ 111 ∷ [])

-- Any buffer of 45 bytes serves as well.
abbrev buffer : List ℕ
buffer = packet

abbrev buffers : List (List ℕ)
buffers = buffer ∷ buffer ∷ buffer ∷ []

options-Layout : Layout options
options-Layout = record {
  ip = omega arith;
  transport = omega arith;
  field = omega arith;
  small = omega arith;
}

packet_bytes : All IsByte packet
packet_bytes = grind arith

packet-Splittable : Splittable options packet
packet-Splittable = record {
  layout = options-Layout;
  v6 = false;
  first = 69;
  starts = unfold get8 in refl;
  version = refl;
  allowed = refl;
  ip_fits = omega arith;
  positive = omega arith;
  enough = omega arith;
}

gso_split_lem_example :
    (r : Split) × (gso_split options packet buffers ≡ some r) × Cut options packet 40 3 r
gso_split_lem_example =
    gso_split_lem options packet buffers packet-Splittable
      (omega arith, (omega arith, (omega arith, tt)))

abbrev plan : Plan
plan = record { v6 = false; first_seq = 256; src_flags = 24; pseudo = 5200 }

-- The second segment.
second_segment : Runs (λ (r : List ℕ). length r ≡ 45) (segment options packet plan 1 42 buffer)
second_segment =
    segment_runs options packet plan 45 1 42 buffer refl options-Layout (omega arith) (omega arith)
      (omega arith)

segment_checksum_example :
    canon (
      5200
      + (segment_size options packet 42 - 20)
      + word_sum false (window second_segment.0 20 (segment_size options packet 42 - 20)))
    ≡ 65535
segment_checksum_example =
    segment_checksum options packet plan 1 42 buffer second_segment.0 options-Layout refl
      packet_bytes packet_bytes (omega arith) (omega arith) (unfold segment_size in omega arith)
      second_segment.1

segment_tcp_example :
    (window second_segment.0 24 4 ≡ bytes32 ((256 + 1 * 2) % 2 ^ 32))
    × (flags : ℕ) × (window second_segment.0 33 1 ≡ flags ∷ [])
    × FlagsFor (data_end options packet 42 == length packet) 24 flags
segment_tcp_example =
    segment_tcp options packet plan 1 buffer second_segment.0 options-Layout refl (omega arith)
      (omega arith) (omega arith) second_segment.1

segment_ipv4_example :
    (canon (word_sum false (window second_segment.0 0 20)) ≡ 65535)
    × (window second_segment.0 2 2 ≡ bytes16 (segment_size options packet 42))
segment_ipv4_example =
    segment_ipv4 options packet plan 1 42 buffer second_segment.0 options-Layout refl packet_bytes
      packet_bytes (omega arith) second_segment.1

all_segments : Runs (λ (r : Split). Unit {0}) (split_loop options packet plan 0 40 buffers)
all_segments =
    split_loop_runs buffers options packet plan 0 40 options-Layout (omega arith)
      (omega arith, (omega arith, (omega arith, tt)))

some_made : (r : Split) → Cut options packet 40 3 r → 0 < length (sizes_of r)
some_made (done [] outs) c = absurd (let e = ap length c.0 in omega arith)
some_made (done (s ∷ sizes) outs) c = omega arith
some_made (too_many [] outs) c = absurd (omega (arith, c.2))
some_made (too_many (s ∷ sizes) outs) c = omega arith
some_made (failed e) c = absurd c

first_made : 0 < length (sizes_of all_segments.0)
first_made = some_made all_segments.0 (
    split_loop-Cut buffers options packet plan 0 40 all_segments.0 options-Layout (omega arith)
      all_segments.1)

split_loop_each_example : IsSegment options packet plan 0 40 buffers all_segments.0 0
split_loop_each_example =
    split_loop_each buffers options packet plan 0 40 all_segments.0 0 all_segments.1 first_made
