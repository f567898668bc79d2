-- ===== src/System/Turned.antt =====
-- The UDP writer of stack_system.go: length and addresses of a reply.
use sing_tun.Base.{
  ℕ, ◌+◌, ◌-◌, ◌%◌, ◌^◌, ◌≤◌, ◌<◌, ◌≡◌, refl, ap, ◌∙◌, some, List, [], ◌++◌, length, drop, arith,
  All,
}
use sing_tun.Base.Bytes.{
  patch, window, number, bytes16, bytes32, slice_total, length-patch, drop-patch, window-patch_self,
  window-patch_before, window-patch_after, All-patch,
}
use sing_tun.Base.Net.{AddrPort}
use sing_tun.Checksum.Words.{IsByte}
use sing_tun.Header.{
  header_length, total_length, payload_length, source_addr, set_source_addr, set_destination_addr,
  set_total_length,
}
use sing_tun.Header.Fields.{get32_total, put-some}
use sing_tun.Header.Update.{bytes16-IsByte, bytes32-IsByte}
use sing_tun.System.{UdpWriter, ipv4_packet}
use sing_tun.System.Udp.{turn_around}

-- The headers of a UDP packet, as the writer has copied them.
pub record HasHeaders (b : List ℕ) (hlen : ℕ) : Type 0 where
  pub all_bytes : All IsByte b
  pub header_eq : header_length b ≡ some hlen
  pub header_room : 20 ≤ hlen
  pub even : hlen % 2 ≡ 0
  pub length_eq : length b ≡ hlen + 8

-- The packet with the new length and addresses.
pub record Turned (b : List ℕ) (n src dst : ℕ) (r : List ℕ) : Type 0 where
  pub same_length : length r ≡ length b
  pub all_bytes : All IsByte r
  pub total_eq : window r 2 2 ≡ bytes16 n
  pub src_eq : window r 12 4 ≡ bytes32 dst
  pub dst_eq : window r 16 4 ≡ bytes32 src
  pub behind : drop 20 r ≡ drop 20 b
  pub first_eq : window r 0 2 ≡ window b 0 2
  pub middle_eq : window r 4 6 ≡ window b 4 6

turned :
    (b : List ℕ) (n src dst : ℕ)
    → 20 ≤ length b
    → All IsByte b
    → Turned b n src dst (patch (patch (patch b 2 (bytes16 n)) 16 (bytes32 src)) 12 (bytes32 dst))
turned b n src dst room hb =
    let b1 = patch b 2 (bytes16 n) in
    let b2 = patch b1 16 (bytes32 src) in
    let same1 = length-patch b 2 (bytes16 n) in
    let same2 = length-patch b1 16 (bytes32 src) in
    record {
      same_length = length-patch b2 12 _ ∙ same2 ∙ same1;
      all_bytes =
          All-patch IsByte b2 12 _
            (All-patch IsByte b1 16 _ (All-patch IsByte b 2 _ hb (bytes16-IsByte n))
              (bytes32-IsByte src))
            (bytes32-IsByte dst);
      total_eq =
          window-patch_before b2 12 2 2 _ (omega arith)
          ∙ window-patch_before b1 16 2 2 _ (omega arith)
          ∙ window-patch_self b 2 2 (bytes16 n) (omega arith) refl;
      src_eq = window-patch_self b2 12 4 (bytes32 dst) (omega (arith, same1, same2)) refl;
      dst_eq =
          window-patch_after b2 12 16 4 _ (omega arith)
          ∙ window-patch_self b1 16 4 (bytes32 src) (omega (arith, same1)) refl;
      behind =
          drop-patch 20 b2 12 _ (omega arith)
          ∙ drop-patch 20 b1 16 _ (omega arith)
          ∙ drop-patch 20 b 2 _ (omega arith);
      first_eq =
          window-patch_before b2 12 0 2 _ (omega arith)
          ∙ window-patch_before b1 16 0 2 _ (omega arith)
          ∙ window-patch_before b 2 0 2 _ (omega arith);
      middle_eq =
          window-patch_before b2 12 4 6 _ (omega arith)
          ∙ window-patch_before b1 16 4 6 _ (omega arith)
          ∙ window-patch_after b 2 4 6 _ (omega arith);
    }

pub turn_around_lem :
    (w : UdpWriter) (d : List ℕ) (to : AddrPort)
    → 20 ≤ length (w.header ++ d)
    → All IsByte (w.header ++ d)
    → let b = w.header ++ d in
      let src = number 0 (window b 12 4) in
      (r : List ℕ) × (turn_around w d to ≡ some r) × Turned b (length b) src to.addr r
unfolding turn_around set_total_length source_addr set_destination_addr set_source_addr
turn_around_lem w d to room hb =
    let b = w.header ++ d in
    let src = number 0 (window b 12 4) in
    let b1 = patch b 2 (bytes16 (length b)) in
    let b2 = patch b1 16 (bytes32 src) in
    let same1 = length-patch b 2 (bytes16 (length b)) in
    let same2 = length-patch b1 16 (bytes32 src) in
    let kept = ap (number 0) (window-patch_after b 2 12 4 (bytes16 (length b)) (omega arith)) in
    (
      patch b2 12 (bytes32 to.addr),
      rw
          (
            put-some b 2 (bytes16 (length b)) (omega arith),
            get32_total b1 12 (omega (arith, same1)),
            kept,
            put-some b1 16 (bytes32 src) (omega (arith, same1)),
          )
          (put-some b2 12 (bytes32 to.addr) (omega (arith, same1, same2))),
      turned b (length b) src to.addr room hb,
    )

-- A packet that fills its buffer is cut into its header and its payload.
pub packet_split :
    (b : List ℕ) (hlen : ℕ)
    → header_length b ≡ some hlen
    → total_length b ≡ some (length b)
    → hlen ≤ length b
    → length b < 2 ^ 16
    → (payload_length b ≡ some (length b - hlen))
      × (ipv4_packet b
          ≡ some (record {
            header = window b 0 hlen;
            payload = window b hlen (length b - hlen);
            trailer = [];
          }))
unfolding payload_length ipv4_packet
packet_split b hlen e e' room small =
    let n = length b - hlen in
    let diff : (length b + 2 ^ 16 - hlen) % 2 ^ 16 ≡ n = omega arith in
    let end : hlen + n ≡ length b = omega arith in
    let none_left : length b - length b ≡ 0 = omega arith in
    let whole : hlen - 0 ≡ hlen = omega arith in
    (
      rw (e', e) (ap some diff),
      rw
          (
            e,
            e',
            diff,
            slice_total b 0 hlen (omega arith) room,
            end,
            slice_total b hlen (length b) room (omega arith),
            slice_total b (length b) (length b) (omega arith) (omega arith),
            none_left,
            whole,
          )
          refl,
    )
