-- ===== src/System/Reply.antt =====
-- (*systemUDPPacketWriter4).WritePacket of stack_system.go: the handler's reply to a client.
use mathlib.Core.Path.{subst}
use sing_tun.Base.{
  ℕ, ◌+◌, ◌-◌, ◌^◌, ◌≤◌, ◌<◌, ◌≡◌, refl, ap, ◌∙◌, sym, true, false, Option, some, List, [], ◌∷◌,
  ◌++◌, length, drop, take, arith, All, All-append, take_all, length-append, length-drop, drop-drop,
  drop-append_exact,
}
use sing_tun.Base.Bytes.{
  patch, window, number, bytes16, bytes32, get8, get16, length-patch, drop-patch,
  window-patch_before, window-patch_self, window-patch_after, All-patch,
}
use sing_tun.Base.Net.{AddrPort}
use sing_tun.Checksum.Ones.{canon, word_sum}
use sing_tun.Checksum.Words.{IsByte}
use sing_tun.Checksum.Header.{complement}
use sing_tun.Checksum.Header.Update.{fold_in}
use sing_tun.Header.{calculate_ip_checksum, set_ip_checksum}
use sing_tun.Header.{
  header_length, total_length, payload_length, source_addr, destination_addr, source_port,
  destination_port,
}
use sing_tun.Header.Fields.{get16_total, get32_total, length-window, number-bytes16, number_lt32}
use sing_tun.Header.Parts.{header_length_front, drop-take, window-take, window-append, drop_later}
use sing_tun.Header.Update.{window-IsByte, bytes16-IsByte}
use sing_tun.Header.Seal.{ip_sealed}
use sing_tun.System.{UdpWriter, ipv4_packet}
use sing_tun.System.Sealed.{HeaderValid, address_eq}
use sing_tun.System.Route.{IsEndpoint}
use sing_tun.System.Udp.{seal_udp, turn_around, turn_ports, udp_write_packet}
use sing_tun.System.Turned.{HasHeaders, Turned, turn_around_lem, packet_split}
use sing_tun.System.Datagram.{DatagramValid, Replied, turn_ports_lem, Filled, seal_udp_lem}

-- The packet that carries a reply to the client whose headers `w` has: the writer's packet, from
-- `from` to where that client's packet came from.
pub record IsReply (w : UdpWriter) (hlen : ℕ) (d : List ℕ) (from : AddrPort)
    (written : Option (List ℕ)) : Type 0 where
  pub ip : List ℕ
  pub udp : List ℕ
  pub made : written ≡ some (ip ++ udp)
  pub lengths : (length ip ≡ hlen) × (length udp ≡ 8 + length d)
  pub total : total_length ip ≡ some (hlen + 8 + length d)
  -- Version, header length and type of service; identifier, fragment, time to live and protocol.
  pub first_kept : window ip 0 2 ≡ window w.header 0 2
  pub middle_kept : window ip 4 6 ≡ window w.header 4 6
  pub options_kept : drop 20 ip ≡ window w.header 20 (hlen - 20)
  pub source : source_addr ip ≡ some from.addr
  pub destination : destination_addr ip ≡ source_addr w.header
  pub sport : source_port udp ≡ some from.port
  pub dport : destination_port udp ≡ get16 w.header hlen
  pub udp_total : get16 udp 4 ≡ some (8 + length d)
  pub payload : drop 8 udp ≡ d
  pub left_out : w.tx_checksum_offload ≡ true → get16 udp 6 ≡ some 0
  pub header_valid : HeaderValid (record { header = ip; payload = udp; trailer = [] })
  pub datagram_valid :
      w.tx_checksum_offload ≡ false
      → DatagramValid (record { header = ip; payload = udp; trailer = [] })

header_length-append : (b d : List ℕ) → 1 ≤ length b → header_length (b ++ d) ≡ header_length b
unfolding header_length get8
header_length-append [] d h = absurd (omega arith)
header_length-append (x ∷ b) d h = refl

-- The turned packet `r`, cut into header and datagram.
record Cut (w : UdpWriter) (hlen : ℕ) (d : List ℕ) (from : AddrPort) (src : ℕ) (r ip udp : List ℕ)
    : Type 0 where
  split : ipv4_packet r ≡ some (record { header = ip; payload = udp; trailer = [] })
  src_addr : source_addr r ≡ some from.addr
  dst_addr : destination_addr r ≡ some src
  payload_eq : payload_length r ≡ some (8 + length d)
  header_eq : header_length ip ≡ some hlen
  ip_length : length ip ≡ hlen
  udp_length : length udp ≡ 8 + length d
  ip_bytes : All IsByte ip
  udp_bytes : All IsByte udp
  total_eq : window ip 2 2 ≡ bytes16 (hlen + 8 + length d)
  src_eq : window ip 12 4 ≡ bytes32 from.addr
  dst_eq : window ip 16 4 ≡ bytes32 src
  port_eq : window udp 0 2 ≡ window w.header hlen 2
  data_eq : drop 8 udp ≡ d
  first_eq : window ip 0 2 ≡ window w.header 0 2
  middle_eq : window ip 4 6 ≡ window w.header 4 6
  options_eq : drop 20 ip ≡ window w.header 20 (hlen - 20)

-- The number of the client's address.
abbrev client : UdpWriter → ℕ
client w = number 0 (window w.header 12 4)

module _ (w : UdpWriter) (hlen : ℕ) (d : List ℕ) (from : AddrPort) (h : HasHeaders w.header hlen)
    (d_bytes : All IsByte d) (fits : IsEndpoint from) (small : hlen + 8 + length d < 2 ^ 16) where
  client_fits : client w < 2 ^ 32
  client_fits =
      number_lt32 (window w.header 12 4)
        (length-window w.header 12 4 (omega (arith, h.length_eq, h.header_room)))
        (window-IsByte w.header 12 4 h.all_bytes)

  whole_length : length (w.header ++ d) ≡ hlen + 8 + length d
  whole_length = length-append w.header d ∙ omega (arith, h.length_eq)

  reply_header :
      (r : List ℕ)
      → Turned (w.header ++ d) (length (w.header ++ d)) (client w) from.addr r
      → (header_length r ≡ some hlen) × (total_length r ≡ some (length r))
  unfolding total_length
  reply_header r t = (
    header_length_front 1 (w.header ++ d) r (omega (arith, whole_length)) t.first_eq
        ∙ header_length-append w.header d (omega (arith, h.length_eq))
        ∙ h.header_eq,
    get16_total r 2 (omega (arith, whole_length, t.same_length, h.header_room))
        ∙ ap some (
            ap (number 0) t.total_eq
            ∙ number-bytes16 (length (w.header ++ d)) (omega (arith, whole_length))
            ∙ sym t.same_length),
  )

  cut :
      (r : List ℕ)
      → Turned (w.header ++ d) (length (w.header ++ d)) (client w) from.addr r
      → Cut w hlen d from (client w) r (window r 0 hlen) (window r hlen (length r - hlen))
  unfolding source_addr destination_addr
  cut r t =
      let len : length r ≡ hlen + 8 + length d = t.same_length ∙ whole_length in
      let parts = reply_header r t in
      let split = packet_split r hlen parts.0 parts.1 (omega (arith, len)) (omega (arith, len)) in
      let ip_len = length-window r 0 hlen (omega (arith, len)) in
      let udp_eq : window r hlen (length r - hlen) ≡ drop hlen (w.header ++ d) =
        take_all (length r - hlen) (drop hlen r) (omega (arith, length-drop hlen r))
        ∙ drop_later 20 hlen r (w.header ++ d) h.header_room t.behind in
      record {
        split = split.1;
        src_addr =
            address_eq r 12 from.addr (omega (arith, len, h.header_room)) fits.addr_fits t.src_eq;
        dst_addr =
            address_eq r 16 (client w) (omega (arith, len, h.header_room)) client_fits t.dst_eq;
        payload_eq = split.0 ∙ ap some (omega (arith, len));
        header_eq =
            header_length_front 1 r (window r 0 hlen) (omega (arith, len))
              (window-take hlen 0 2 r (omega (arith, h.header_room)))
            ∙ parts.0;
        ip_length = ip_len;
        udp_length =
            length-window r hlen (length r - hlen) (omega (arith, len)) ∙ omega (arith, len);
        ip_bytes = window-IsByte r 0 hlen t.all_bytes;
        udp_bytes = window-IsByte r hlen (length r - hlen) t.all_bytes;
        total_eq =
            window-take hlen 2 2 r (omega (arith, h.header_room))
            ∙ t.total_eq
            ∙ ap bytes16 whole_length;
        src_eq = window-take hlen 12 4 r (omega (arith, h.header_room)) ∙ t.src_eq;
        dst_eq = window-take hlen 16 4 r (omega (arith, h.header_room)) ∙ t.dst_eq;
        port_eq = ap (take 2) udp_eq ∙ window-append hlen 2 w.header d (omega (arith, h.length_eq));
        data_eq =
            ap (drop 8) udp_eq
            ∙ drop-drop 8 hlen (w.header ++ d)
            ∙ drop-append_exact (hlen + 8) w.header d h.length_eq;
        first_eq =
            window-take hlen 0 2 r (omega (arith, h.header_room))
            ∙ t.first_eq
            ∙ window-append 0 2 w.header d (omega (arith, h.length_eq));
        middle_eq =
            window-take hlen 4 6 r (omega (arith, h.header_room))
            ∙ t.middle_eq
            ∙ window-append 4 6 w.header d (omega (arith, h.length_eq, h.header_room));
        options_eq =
            drop-take 20 hlen r h.header_room
            ∙ ap (take (hlen - 20)) t.behind
            ∙ window-append 20 (hlen - 20) w.header d (omega (arith, h.length_eq, h.header_room));
      }

  -- The reply from the cut packet, with the checksums `c` and `v`.
  assembled :
      (r ip udp udp1 : List ℕ) (c v : ℕ)
      → Cut w hlen d from (client w) r ip udp
      → Replied udp from.port (length d + 8) udp1
      → Filled from.addr (client w) udp1 w.tx_checksum_offload v
      → canon (0 + word_sum false (patch ip 10 (bytes16 (complement c)))) ≡ 65535
      → IsReply w hlen d from
          (some (patch ip 10 (bytes16 (complement c)) ++ patch udp1 6 (bytes16 v)))
  unfolding total_length source_addr destination_addr source_port destination_port
  assembled r ip0 udp0 udp1 c v k u f valid =
      let ip = patch ip0 10 (bytes16 (complement c)) in
      let udp = patch udp1 6 (bytes16 v) in
      let ip_len : length ip ≡ hlen = length-patch ip0 10 (bytes16 (complement c)) ∙ k.ip_length in
      let len1 : length udp1 ≡ 8 + length d = u.same_length ∙ k.udp_length in
      let udp_len : length udp ≡ 8 + length d = length-patch udp1 6 (bytes16 v) ∙ len1 in
      let src_eq : window ip 12 4 ≡ bytes32 from.addr =
        window-patch_after ip0 10 12 4 (bytes16 (complement c)) (omega arith) ∙ k.src_eq in
      let dst_eq : window ip 16 4 ≡ bytes32 (client w) =
        window-patch_after ip0 10 16 4 (bytes16 (complement c)) (omega arith) ∙ k.dst_eq in
      record {
        ip = ip;
        udp = udp;
        made = refl;
        lengths = (ip_len, udp_len);
        total =
            get16_total ip 2 (omega (arith, ip_len, h.header_room))
            ∙ ap some (
                ap (number 0) (
                  window-patch_before ip0 10 2 2 (bytes16 (complement c)) (omega arith)
                  ∙ k.total_eq)
                ∙ number-bytes16 (hlen + 8 + length d) small);
        first_kept =
            window-patch_before ip0 10 0 2 (bytes16 (complement c)) (omega arith) ∙ k.first_eq;
        middle_kept =
            window-patch_before ip0 10 4 6 (bytes16 (complement c)) (omega arith) ∙ k.middle_eq;
        options_kept = drop-patch 20 ip0 10 (bytes16 (complement c)) (omega arith) ∙ k.options_eq;
        source =
            address_eq ip 12 from.addr (omega (arith, ip_len, h.header_room)) fits.addr_fits src_eq;
        destination =
            address_eq ip 16 (client w) (omega (arith, ip_len, h.header_room)) client_fits dst_eq
            ∙ sym (get32_total w.header 12 (omega (arith, h.length_eq, h.header_room)));
        sport =
            get16_total udp 0 (omega (arith, udp_len))
            ∙ ap some (
                ap (number 0)
                  (window-patch_before udp1 6 0 2 (bytes16 v) (omega arith) ∙ u.sport_eq)
                ∙ number-bytes16 from.port fits.port_fits);
        dport =
            get16_total udp 2 (omega (arith, udp_len))
            ∙ ap some (
                ap (number 0) (
                  window-patch_before udp1 6 2 2 (bytes16 v) (omega arith)
                  ∙ u.dport_eq
                  ∙ k.port_eq))
            ∙ sym (get16_total w.header hlen (omega (arith, h.length_eq)));
        udp_total =
            get16_total udp 4 (omega (arith, udp_len))
            ∙ ap some (
                ap (number 0)
                  (window-patch_before udp1 6 4 2 (bytes16 v) (omega arith) ∙ u.length_eq)
                ∙ number-bytes16 (length d + 8) (omega arith)
                ∙ omega arith);
        payload = drop-patch 8 udp1 6 (bytes16 v) (omega arith) ∙ u.behind ∙ k.data_eq;
        left_out = λ e.
            get16_total udp 6 (omega (arith, udp_len))
            ∙ ap some (
                ap (number 0) (window-patch_self udp1 6 2 (bytes16 v) (omega (arith, len1)) refl)
                ∙ number-bytes16 v (omega (arith, f.cleared e))
                ∙ f.cleared e);
        header_valid =
            fold_in ip 0 0
              (All-patch IsByte ip0 10 (bytes16 (complement c)) k.ip_bytes (bytes16-IsByte _))
              (unfold canon in refl)
            ∙ valid;
        datagram_valid = λ e. rw (src_eq, dst_eq, length-patch udp1 6 (bytes16 v)) (f.valid e);
      }

append_nil : (b : List ℕ) → b ++ [] ≡ b
append_nil [] = refl
append_nil (x ∷ b) = ap (◌∷◌ x) (append_nil b)

-- The steps of WritePacket in a row.
steps :
    (w : UdpWriter) (d : List ℕ) (from : AddrPort) (r ip udp udp1 udp' ip' : List ℕ) (c : ℕ)
    → turn_around w d from ≡ some r
    → ipv4_packet r ≡ some (record { header = ip; payload = udp; trailer = [] })
    → turn_ports udp (length d) from.port ≡ some udp1
    → seal_udp r udp1 w.tx_checksum_offload ≡ some udp'
    → calculate_ip_checksum ip ≡ some c
    → set_ip_checksum ip (complement c) ≡ some ip'
    → udp_write_packet w d from ≡ some (ip' ++ udp')
unfolding udp_write_packet
steps w d from r ip udp udp1 udp' ip' c e1 e2 e3 e4 e5 e6 =
    rw (e1, e2, e3, e4, e5, e6) (ap (λ (x : List ℕ). some (ip' ++ x)) (append_nil udp'))

-- What is left to do with the cut packet.
finish :
    (w : UdpWriter) (hlen : ℕ) (d : List ℕ) (from : AddrPort) (h : HasHeaders w.header hlen)
    (hd : All IsByte d) (fits : IsEndpoint from) (small : hlen + 8 + length d < 2 ^ 16)
    (r ip udp : List ℕ)
    → turn_around w d from ≡ some r
    → Cut w hlen d from (client w) r ip udp
    → IsReply w hlen d from (udp_write_packet w d from)
finish w hlen d from h hd fits small r ip udp made_r k =
    let (udp1, made_udp, u) =
      turn_ports_lem udp (length d) from.port (omega (arith, k.udp_length)) k.udp_bytes in
    let len1 : length udp1 ≡ 8 + length d = u.same_length ∙ k.udp_length in
    let (v, sealed, f) =
      seal_udp_lem r udp1 w.tx_checksum_offload from.addr (client w) (omega (arith, len1))
        (omega (arith, len1)) u.all_bytes k.src_addr k.dst_addr
        (k.payload_eq ∙ ap some (sym len1)) in
    let (c, made, written, valid) =
      ip_sealed ip (omega (arith, k.ip_length, h.header_room)) k.ip_bytes
        (k.header_eq ∙ ap some (sym k.ip_length)) in
    subst (IsReply w hlen d from)
      (sym (steps w d from r ip udp udp1 _ _ c made_r k.split made_udp sealed made written))
      (assembled w hlen d from h hd fits small r ip udp udp1 c v k u f valid)

-- (*systemUDPPacketWriter4).WritePacket writes one packet to the client: the headers of the client's
-- packet with the addresses and ports turned around and the lengths and checksums set, and the data,
-- if all of it fits in 65535 bytes. Of the IP header, the version, header length, type of service,
-- identifier, fragment, time to live, protocol and options stay as they are. The UDP checksum is 0 if
-- it is left to a device with checksum offload.
pub udp_write_packet_lem :
    (w : UdpWriter) (hlen : ℕ) (d : List ℕ) (from : AddrPort)
    → HasHeaders w.header hlen
    → All IsByte d
    → IsEndpoint from
    → hlen + 8 + length d < 2 ^ 16
    → IsReply w hlen d from (udp_write_packet w d from)
udp_write_packet_lem w hlen d from h hd fits small =
    let b = w.header ++ d in
    let len = whole_length w hlen d from h hd fits small in
    let (r, made_r, t) =
      turn_around_lem w d from (omega (arith, len, h.header_room))
        (All-append IsByte w.header d h.all_bytes hd) in
    let same =
      ap (number 0) (window-append 12 4 w.header d (omega (arith, h.length_eq, h.header_room))) in
    let t' = subst (λ (a : ℕ). Turned b (length b) a from.addr r) same t in
    let k = cut w hlen d from h hd fits small r t' in
    finish w hlen d from h hd fits small r (window r 0 hlen) (window r hlen (length r - hlen))
      made_r k
