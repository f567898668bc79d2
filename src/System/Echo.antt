-- ===== src/System/Echo.antt =====
-- The echo reply of processIPv4ICMP in stack_system.go.
use sing_tun.Base.{
  ℕ, ◌+◌, ◌-◌, ◌≤◌, ◌≡◌, refl, ap, ◌∙◌, sym, false, some, List, [], ◌∷◌, length, drop, arith, All,
  take_all, length-drop,
}
use sing_tun.Base.Bytes.{
  patch, window, number, bytes16, bytes32, get8, slice_total, length-patch, drop-patch,
  window-patch_self, window-patch_before, window-patch_after, All-patch,
}
use sing_tun.Checksum.Ones.{canon, word_sum}
use sing_tun.Checksum.Words.{IsByte}
use sing_tun.Checksum.Header.{checksum, complement}
use sing_tun.Checksum.Header.Update.{fold_in}
use sing_tun.Header.{
  header_length, source_addr, destination_addr, set_source_addr, set_destination_addr,
  icmpv4_checksum, set_icmp_checksum,
}
use sing_tun.Header.Fields.{get32_total, put-some, length-window, number_lt32}
use sing_tun.Header.Update.{window-IsByte, bytes16-IsByte, bytes32-IsByte}
use sing_tun.Header.Parts.{header_length_front}
use sing_tun.Header.Seal.{sealed, ip_sealed}
use sing_tun.System.{Packet}
use sing_tun.System.Sealed.{HeaderValid, address_eq}
use sing_tun.System.Icmp.{echo_reply}

-- An ICMP message in an IPv4 packet, with the header's own length.
pub record IsIcmpPacket (p : Packet) : Type 0 where
  pub header_bytes : All IsByte p.header
  pub payload_bytes : All IsByte p.payload
  pub header_room : 20 ≤ length p.header
  pub header_eq : header_length p.header ≡ some (length p.header)
  pub payload_room : 4 ≤ length p.payload

-- An ICMP message whose checksum is right.
abbrev pub IcmpValid : List ℕ → Type 0
IcmpValid b = checksum false 0 b 0 ≡ 65535

-- `q` answers `p`.
pub record IsEcho (p q : Packet) : Type 0 where
  pub source : source_addr q.header ≡ destination_addr p.header
  pub destination : destination_addr q.header ≡ source_addr p.header
  pub kind : get8 q.payload 0 ≡ some 0
  pub code : get8 q.payload 1 ≡ get8 p.payload 1
  pub message : drop 4 q.payload ≡ drop 4 p.payload
  pub front : window q.header 0 10 ≡ window p.header 0 10
  pub options : drop 20 q.header ≡ drop 20 p.header
  pub trailer : q.trailer ≡ p.trailer
  pub header_valid : HeaderValid q
  pub icmp_valid : IcmpValid q.payload

icmp_sealed :
    (b : List ℕ)
    → 4 ≤ length b
    → All IsByte b
    → (c : ℕ) × (icmpv4_checksum b 0 ≡ some (complement c))
      × (set_icmp_checksum b (complement c) ≡ some (patch b 2 (bytes16 (complement c))))
      × IcmpValid (patch b 2 (bytes16 (complement c)))
unfolding icmpv4_checksum set_icmp_checksum
icmp_sealed b h hb =
    let front = window b 0 2 in
    let back = window b 4 (length b - 4) in
    let back_eq : back ≡ drop 4 b =
      take_all (length b - 4) (drop 4 b) (omega (arith, length-drop 4 b)) in
    let c = checksum false 0 back (checksum false 0 front 0) in
    (
      c,
      rw
          (
            slice_total b 0 2 (omega arith) (omega arith),
            slice_total b 4 (length b) (omega arith) (omega arith),
          )
          refl,
      put-some b 2 (bytes16 (complement c)) (omega arith),
      fold_in (patch b 2 (bytes16 (complement c))) 0 0
            (All-patch IsByte b 2 _ hb (bytes16-IsByte (complement c))) (unfold canon in refl)
          ∙ sealed 2 0 b c refl (omega arith) (
              fold_in back _ _ (window-IsByte b 4 _ hb)
                (fold_in front 0 0 (window-IsByte b 0 2 hb) (unfold canon in refl))
              ∙ ap (λ (x : List ℕ). canon (0 + word_sum false front + word_sum false x)) back_eq),
    )

-- The bytes of a request that its reply changes.
pub echo_bytes :
    (kind : ℕ) (b : List ℕ) (v : ℕ)
    → 4 ≤ length b
    → let r = patch (patch b 0 (kind ∷ [])) 2 (bytes16 v) in
      (get8 r 0 ≡ some kind) × (get8 r 1 ≡ get8 b 1) × (drop 4 r ≡ drop 4 b)
unfolding get8
echo_bytes kind (x ∷ y ∷ z ∷ w ∷ b) v h = (refl, refl, refl)
echo_bytes kind [] v h = absurd (omega arith)
echo_bytes kind (x ∷ []) v h = absurd (omega arith)
echo_bytes kind (x ∷ y ∷ []) v h = absurd (omega arith)
echo_bytes kind (x ∷ y ∷ z ∷ []) v h = absurd (omega arith)

-- The header of the reply before its checksum: the addresses `dst` and `src` swapped.
record Swapped (h : List ℕ) (src dst : ℕ) (r : List ℕ) : Type 0 where
  same_length : length r ≡ length h
  all_bytes : All IsByte r
  front : window r 0 10 ≡ window h 0 10
  options : drop 20 r ≡ drop 20 h
  src_eq : window r 12 4 ≡ bytes32 dst
  dst_eq : window r 16 4 ≡ bytes32 src

swapped :
    (h : List ℕ) (src dst : ℕ)
    → 20 ≤ length h
    → All IsByte h
    → Swapped h src dst (patch (patch h 12 (bytes32 dst)) 16 (bytes32 src))
swapped h src dst room hb =
    let h1 = patch h 12 (bytes32 dst) in
    let same = length-patch h 12 (bytes32 dst) in
    record {
      same_length = length-patch h1 16 _ ∙ same;
      all_bytes =
          All-patch IsByte h1 16 _ (All-patch IsByte h 12 _ hb (bytes32-IsByte dst))
            (bytes32-IsByte src);
      front =
          window-patch_before h1 16 0 10 _ (omega arith)
          ∙ window-patch_before h 12 0 10 _ (omega arith);
      options = drop-patch 20 h1 16 _ (omega arith) ∙ drop-patch 20 h 12 _ (omega arith);
      src_eq =
          window-patch_before h1 16 12 4 _ (omega arith)
          ∙ window-patch_self h 12 4 (bytes32 dst) (omega arith) refl;
      dst_eq = window-patch_self h1 16 4 (bytes32 src) (omega (arith, same)) refl;
    }

-- The answer to an echo request swaps its addresses, has type 0 and the request's message, and both
-- of its checksums are right, whatever those of the request were.
pub echo_reply_lem :
    (p : Packet) → IsIcmpPacket p → (q : Packet) × (echo_reply p ≡ some q) × IsEcho p q
unfolding echo_reply source_addr destination_addr set_source_addr set_destination_addr
echo_reply_lem p t =
    let h = p.header in
    let src = number 0 (window h 12 4) in
    let dst = number 0 (window h 16 4) in
    let src_room : 12 + 4 ≤ length h = omega (arith, t.header_room) in
    let src_fits =
      number_lt32 (window h 12 4) (length-window h 12 4 src_room)
        (window-IsByte h 12 4 t.header_bytes) in
    let dst_fits =
      number_lt32 (window h 16 4) (length-window h 16 4 t.header_room)
        (window-IsByte h 16 4 t.header_bytes) in
    let h1 = patch h 12 (bytes32 dst) in
    let h2 = patch h1 16 (bytes32 src) in
    let w = swapped h src dst t.header_room t.header_bytes in
    let icmp = patch p.payload 0 (0 ∷ []) in
    let icmp_length = length-patch p.payload 0 (0 ∷ []) in
    let (m, m_made, m_written, m_valid) =
      icmp_sealed icmp (omega (arith, icmp_length, t.payload_room))
        (All-patch IsByte p.payload 0 (0 ∷ []) t.payload_bytes (omega arith, tt)) in
    let (c, made, written, valid) =
      ip_sealed h2 (omega (arith, w.same_length, t.header_room)) w.all_bytes (
        header_length_front 9 h h2 (omega (arith, t.header_room)) w.front
        ∙ t.header_eq
        ∙ ap some (sym w.same_length)) in
    let h3 = patch h2 10 (bytes16 (complement c)) in
    let h3_length = length-patch h2 10 (bytes16 (complement c)) ∙ w.same_length in
    let icmp' = patch icmp 2 (bytes16 (complement m)) in
    let bytes_eq = echo_bytes 0 p.payload (complement m) t.payload_room in
    (
      record p { header = h3; payload = icmp' },
      rw
          (
            put-some p.payload 0 (0 ∷ []) (omega (arith, t.payload_room)),
            get32_total h 12 src_room,
            get32_total h 16 t.header_room,
            put-some h 12 (bytes32 dst) src_room,
            put-some h1 16 (bytes32 src)
                (omega (arith, length-patch h 12 (bytes32 dst), t.header_room)),
            m_made,
            m_written,
            made,
            written,
          )
          refl,
      record {
        source =
            address_eq h3 12 dst (omega (arith, h3_length, t.header_room)) dst_fits
              (window-patch_after h2 10 12 4 _ (omega arith) ∙ w.src_eq)
            ∙ sym (get32_total h 16 t.header_room);
        destination =
            address_eq h3 16 src (omega (arith, h3_length, t.header_room)) src_fits
              (window-patch_after h2 10 16 4 _ (omega arith) ∙ w.dst_eq)
            ∙ sym (get32_total h 12 src_room);
        kind = bytes_eq.0;
        code = bytes_eq.1;
        message = bytes_eq.2;
        front = window-patch_before h2 10 0 10 _ (omega arith) ∙ w.front;
        options = drop-patch 20 h2 10 _ (omega arith) ∙ w.options;
        trailer = refl;
        header_valid =
            fold_in h3 0 0 (All-patch IsByte h2 10 _ w.all_bytes (bytes16-IsByte _))
              (unfold canon in refl)
            ∙ valid;
        icmp_valid = m_valid;
      },
    )
