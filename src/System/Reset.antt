-- ===== src/System/Reset.antt =====
-- resetIPv4TCP of stack_system.go: the packet that refuses a flow for which the NAT has no port.
use sing_tun.Base.{
  ℕ, ◌+◌, ◌-◌, ◌*◌, ◌/◌, ◌%◌, ◌^◌, ◌≤◌, ◌<◌, ◌≡◌, refl, ap, ◌∙◌, Bool, true, false, Option, some,
  List, [], ◌∷◌, ◌++◌, length, arith, All, ◌==◌, Bool-cases, inl, inr, if◌then◌else◌,
}
use sing_tun.Base.Net.{AddrPort}
use sing_tun.Base.Bytes.{
  patch, window, bytes16, bytes32, get8, get16, get32, slice, slice_total, All-patch,
}
use sing_tun.Checksum.Ones.{canon, word_sum}
use sing_tun.Checksum.Words.{IsByte}
use sing_tun.Checksum.Header.{checksum, complement, pseudo_header_checksum}
use sing_tun.Checksum.Header.Update.{fold_in, pseudo_header_checksum_lem}
use sing_tun.Header.{
  header_length, source_addr, destination_addr, source_port, destination_port, TcpFields,
  encode_tcp, encode_ipv4, calculate_tcp_checksum, set_tcp_checksum,
}
use sing_tun.Header.Fields.{length-window, put-some, number-bytes16, number-bytes32}
use sing_tun.Header.Update.{window-IsByte, bytes16-IsByte, bytes32-IsByte}
use sing_tun.Header.Seal.{sealed, ip_sealed}
use sing_tun.System.{Packet}
use sing_tun.System.Sealed.{HeaderValid, SegmentValid, IsTcpPacket, header_sum}
use sing_tun.System.Route.{HasFlow, flow-IsEndpoint, get32_fits}
use sing_tun.System.Tcp.{reset_fields, reset_segment, reset_packet, bit}

-- The fields of a TCP header with all of its bytes, and its data.
pub record HasSegment (b : List ℕ) (seq ack flags data_len : ℕ) : Type 0 where
  pub seq_num : get32 b 4 ≡ some seq
  pub ack_num : get32 b 8 ≡ some ack
  pub flags_eq : get8 b 13 ≡ some flags
  pub offset : ℕ
  pub offset_eq : get8 b 12 ≡ some offset
  pub ends : offset / 16 * 4 + data_len ≡ length b

-- The reset for a segment (RFC 9293, 3.5.2): at the sequence number that it acknowledges, or else
-- an acknowledgment of all that it takes up.
abbrev pub reset_for : AddrPort → AddrPort → ℕ → ℕ → ℕ → ℕ → TcpFields
reset_for source destination seq ack flags data_len = record {
  src_port = destination.port;
  dst_port = source.port;
  seq_num = if bit flags 16 == 1 then ack else 0;
  ack_num = if bit flags 16 == 1 then 0 else (seq + data_len + bit flags 2 + bit flags 1) % 2 ^ 32;
  flags = if bit flags 16 == 1 then 4 else 20;
}

reset_fields_lem :
    (p : Packet) (source destination : AddrPort) (seq ack flags data_len : ℕ)
    → HasFlow p source destination
    → HasSegment p.payload seq ack flags data_len
    → reset_fields p.payload ≡ some (reset_for source destination seq ack flags data_len)
unfolding reset_fields
reset_fields_lem p source destination seq ack flags data_len f h =
    elim (Bool-cases (bit flags 16 == 1)) [
      | inl e ↦ rw (f.src_port, f.dst_port, h.flags_eq, e, h.ack_num) refl
      | inr e ↦
          let at = h.offset / 16 * 4 in
          let data_eq : length (window p.payload at (length p.payload - at)) ≡ data_len =
            length-window p.payload at _ (omega (arith, h.ends)) ∙ omega (arith, h.ends) in
          rw
            (
              f.src_port,
              f.dst_port,
              h.flags_eq,
              e,
              h.seq_num,
              h.offset_eq,
              slice_total p.payload at (length p.payload) (omega (arith, h.ends)) (omega arith),
              data_eq,
            )
            refl
    ]

abbrev packet : List ℕ → List ℕ → Packet
packet ip tcp = record { header = ip; payload = tcp; trailer = [] }

abbrev FieldsFit : TcpFields → Type 0
FieldsFit f =
    (f.src_port < 2 ^ 16)
    × (f.dst_port < 2 ^ 16)
    × (f.seq_num < 2 ^ 32)
    × (f.ack_num < 2 ^ 32)
    × (f.flags < 256)

encode_tcp-IsByte : (f : TcpFields) → f.flags < 256 → All IsByte (encode_tcp f)
encode_tcp-IsByte f h = ground arith

encode_ipv4-IsByte :
    (total protocol src dst : ℕ) → protocol < 256 → All IsByte (encode_ipv4 total protocol src dst)
encode_ipv4-IsByte total protocol src dst h = ground arith

tcp_sealed :
    (f : TcpFields) (src dst : ℕ)
    → f.flags < 256
    → let pseudo = pseudo_header_checksum 6 (bytes32 src) (bytes32 dst) 20 in
      (c : ℕ) × (calculate_tcp_checksum (encode_tcp f) pseudo ≡ some c)
      × (set_tcp_checksum (encode_tcp f) (complement c)
          ≡ some (patch (encode_tcp f) 16 (bytes16 (complement c))))
      × (checksum false 0 (patch (encode_tcp f) 16 (bytes16 (complement c))) pseudo ≡ 65535)
unfolding calculate_tcp_checksum set_tcp_checksum get8 slice
tcp_sealed f src dst h =
    let pseudo = pseudo_header_checksum 6 (bytes32 src) (bytes32 dst) 20 in
    let x = word_sum false (bytes32 src) + word_sum false (bytes32 dst) + 20 + 6 in
    let pseudo_eq : pseudo ≡ canon x =
      pseudo_header_checksum_lem 6 (bytes32 src) (bytes32 dst) 20 (omega arith) (bytes32-IsByte src)
        (bytes32-IsByte dst) (omega arith) in
    let b = encode_tcp f in
    let hb = encode_tcp-IsByte f h in
    let front = window b 0 16 in
    let c = checksum false 0 (0 ∷ 0 ∷ []) (checksum false 0 front pseudo) in
    (
      c,
      refl,
      put-some b 16 (bytes16 (complement c)) (omega arith),
      fold_in (patch b 16 (bytes16 (complement c))) pseudo x
            (All-patch IsByte b 16 (bytes16 (complement c)) hb (bytes16-IsByte (complement c)))
            pseudo_eq
          ∙ sealed 16 x b c refl (omega arith) (
              fold_in (0 ∷ 0 ∷ []) _ _ (omega arith)
                (fold_in front _ _ (window-IsByte b 0 16 hb) pseudo_eq)),
    )

-- What resetIPv4TCP writes to the device.
pub record IsReset (p : Packet) (offload : Bool) (f : TcpFields) (source destination : AddrPort)
    (written : Option (List ℕ)) : Type 0 where
  pub ip : List ℕ
  pub tcp : List ℕ
  pub made : written ≡ some (ip ++ tcp)
  pub lengths : (length ip ≡ 20) × (length tcp ≡ 20)
  pub reversed : HasFlow (packet ip tcp) destination source
  pub seq_num : get32 tcp 4 ≡ some f.seq_num
  pub ack_num : get32 tcp 8 ≡ some f.ack_num
  pub flags_eq : get8 tcp 13 ≡ some f.flags
  pub header_valid : HeaderValid (packet ip tcp)
  pub segment_valid : offload ≡ false → SegmentValid (packet ip tcp)

ip_parts :
    (src dst : ℕ)
    → src < 2 ^ 32
    → dst < 2 ^ 32
    → (v : ℕ)
    → let ip = patch (encode_ipv4 40 6 src dst) 10 (bytes16 v) in
      (source_addr ip ≡ some src)
      × (destination_addr ip ≡ some dst)
      × (window ip 12 4 ≡ bytes32 src)
      × (window ip 16 4 ≡ bytes32 dst)
unfolding source_addr destination_addr get32
ip_parts src dst hs hd v =
    (ap some (number-bytes32 src hs), ap some (number-bytes32 dst hd), refl, refl)

-- A reset's segment, with any bytes in its checksum field.
record TcpParts (f : TcpFields) (tcp : List ℕ) : Type 0 where
  length_eq : length tcp ≡ 20
  src_port : source_port tcp ≡ some f.src_port
  dst_port : destination_port tcp ≡ some f.dst_port
  seq_num : get32 tcp 4 ≡ some f.seq_num
  ack_num : get32 tcp 8 ≡ some f.ack_num
  flags_eq : get8 tcp 13 ≡ some f.flags

tcp_parts :
    (f : TcpFields)
    → FieldsFit f
    → TcpParts f (encode_tcp f) × ((v : ℕ) → TcpParts f (patch (encode_tcp f) 16 (bytes16 v)))
unfolding source_port destination_port get16 get32 get8
tcp_parts f h =
    let sp = ap some (number-bytes16 f.src_port h.0) in
    let dp = ap some (number-bytes16 f.dst_port h.1) in
    let sn = ap some (number-bytes32 f.seq_num h.2) in
    let an = ap some (number-bytes32 f.ack_num h.3) in
    (
      record {
        length_eq = refl;
        src_port = sp;
        dst_port = dp;
        seq_num = sn;
        ack_num = an;
        flags_eq = refl;
      },
      λ v. record {
        length_eq = refl;
        src_port = sp;
        dst_port = dp;
        seq_num = sn;
        ack_num = an;
        flags_eq = refl;
      },
    )

reset_segment_lem :
    (offload : Bool) (f : TcpFields) (src dst : ℕ)
    → FieldsFit f
    → (tcp : List ℕ) × (reset_segment offload f src dst ≡ some tcp)
      × TcpParts f tcp
      × (offload ≡ false
          → checksum false 0 tcp (pseudo_header_checksum 6 (bytes32 src) (bytes32 dst) 20) ≡ 65535)
unfolding reset_segment
reset_segment_lem true f src dst h =
    let (c, made, written, valid) = tcp_sealed f src dst h.4 in
    (encode_tcp f, rw made refl, (tcp_parts f h).0, λ e. cc)
reset_segment_lem false f src dst h =
    let (c, made, written, valid) = tcp_sealed f src dst h.4 in
    (
      patch (encode_tcp f) 16 (bytes16 (complement c)),
      rw made written,
      (tcp_parts f h).1 (complement c),
      λ e. valid,
    )

-- For a segment with all of its header, resetIPv4TCP writes one packet of 40 bytes from its
-- destination to its source, with the flags, sequence and acknowledgment number of a reset for it
-- and valid checksums (the segment's is left to a device that has checksum offload).
pub reset_packet_lem :
    (p : Packet) (offload : Bool) (source destination : AddrPort) (seq ack flags data_len : ℕ)
    → IsTcpPacket p
    → HasFlow p source destination
    → HasSegment p.payload seq ack flags data_len
    → 20 ≤ length p.payload
    → IsReset p offload
        (reset_for source destination seq ack flags data_len)
        source
        destination
        (reset_packet p offload)
unfolding reset_packet
reset_packet_lem p offload source destination seq ack flags data_len t f g room =
    let ends = flow-IsEndpoint p source destination t.whole f in
    let fields = reset_for source destination seq ack flags data_len in
    let hs = get32_fits p.payload 4 seq (omega arith) t.whole.payload_bytes g.seq_num in
    let ha = get32_fits p.payload 8 ack (omega arith) t.whole.payload_bytes g.ack_num in
    let fit : FieldsFit fields =
      (ends.1.port_fits, ends.0.port_fits, ground arith, ground arith, ground arith) in
    let src = destination.addr in
    let dst = source.addr in
    let (tcp, made_tcp, parts, valid) = reset_segment_lem offload fields src dst fit in
    let ip0 = encode_ipv4 40 6 src dst in
    let (c, made, written, ip_valid) =
      ip_sealed ip0 (omega arith) (encode_ipv4-IsByte 40 6 src dst (omega arith))
        (unfold header_length get8 in refl) in
    let ip = patch ip0 10 (bytes16 (complement c)) in
    let (ip_src, ip_dst, w_src, w_dst) =
      ip_parts src dst ends.1.addr_fits ends.0.addr_fits (complement c) in
    record {
      ip = ip;
      tcp = tcp;
      made =
          rw
            (
              f.src_addr,
              f.dst_addr,
              reset_fields_lem p source destination seq ack flags data_len f g,
              made_tcp,
              made,
              written,
            )
            refl;
      lengths = (refl, parts.length_eq);
      reversed = record {
        src_addr = ip_src;
        src_port = parts.src_port;
        dst_addr = ip_dst;
        dst_port = parts.dst_port;
      };
      seq_num = parts.seq_num;
      ack_num = parts.ack_num;
      flags_eq = parts.flags_eq;
      header_valid =
          header_sum (packet ip tcp) (
            All-patch IsByte ip0 10 (bytes16 (complement c))
              (encode_ipv4-IsByte 40 6 src dst (omega arith)) (bytes16-IsByte (complement c)))
          ∙ ip_valid;
      segment_valid = λ e. rw parts.length_eq (valid e);
    }
