-- ===== src/System/Datagram.antt =====
-- The UDP writer of stack_system.go: the datagram of a reply.
use sing_tun.Base.{
  ℕ, ◌+◌, ◌-◌, ◌^◌, ◌≤◌, ◌<◌, ◌≡◌, refl, ap, ◌∙◌, Bool, true, false, some, List, [], length, drop,
  arith, All, take_all, length-drop,
}
use sing_tun.Base.Bytes.{
  patch, window, number, bytes16, bytes32, slice_total, length-patch, drop-patch, window-patch_self,
  window-patch_before, window-patch_after, All-patch,
}
use sing_tun.Checksum.Ones.{canon, word_sum}
use sing_tun.Checksum.Words.{IsByte}
use sing_tun.Checksum.Header.{checksum, complement, pseudo_header_checksum, normalize_udp_checksum}
use sing_tun.Checksum.Header.Update.{fold_in, pseudo_header_checksum_lem}
use sing_tun.Header.{
  payload_length, source_addr, destination_addr, source_port, set_source_port, set_destination_port,
  set_udp_length, set_udp_checksum, calculate_udp_checksum,
}
use sing_tun.Header.Fields.{get16_total, put-some, length-window, bytes16-number}
use sing_tun.Header.Update.{window-IsByte, bytes16-IsByte, bytes32-IsByte}
use sing_tun.Header.Seal.{sealed_normalized}
use sing_tun.System.{Packet}
use sing_tun.System.Udp.{seal_udp, turn_ports}

-- The UDP header of the reply: ports, length, and the data behind it.
pub record Replied (udp : List ℕ) (sport n : ℕ) (r : List ℕ) : Type 0 where
  pub same_length : length r ≡ length udp
  pub all_bytes : All IsByte r
  pub sport_eq : window r 0 2 ≡ bytes16 sport
  pub dport_eq : window r 2 2 ≡ window udp 0 2
  pub length_eq : window r 4 2 ≡ bytes16 n
  pub behind : drop 8 r ≡ drop 8 udp

pub turn_ports_lem :
    (udp : List ℕ) (n sport : ℕ)
    → 8 ≤ length udp
    → All IsByte udp
    → (r : List ℕ) × (turn_ports udp n sport ≡ some r) × Replied udp sport (n + 8) r
unfolding turn_ports source_port set_destination_port set_source_port set_udp_length
turn_ports_lem udp n sport room hb =
    let port = number 0 (window udp 0 2) in
    let udp1 = patch udp 2 (bytes16 port) in
    let udp2 = patch udp1 0 (bytes16 sport) in
    let same1 = length-patch udp 2 (bytes16 port) in
    let same2 = length-patch udp1 0 (bytes16 sport) in
    (
      patch udp2 4 (bytes16 (n + 8)),
      rw
          (
            get16_total udp 0 (omega arith),
            put-some udp 2 (bytes16 port) (omega arith),
            put-some udp1 0 (bytes16 sport) (omega (arith, same1)),
          )
          (put-some udp2 4 (bytes16 (n + 8)) (omega (arith, same1, same2))),
      record {
        same_length = length-patch udp2 4 _ ∙ same2 ∙ same1;
        all_bytes =
            All-patch IsByte udp2 4 _
              (All-patch IsByte udp1 0 (bytes16 sport)
                (All-patch IsByte udp 2 _ hb (bytes16-IsByte port)) (bytes16-IsByte sport))
              (bytes16-IsByte (n + 8));
        sport_eq =
            window-patch_before udp2 4 0 2 _ (omega arith)
            ∙ window-patch_self udp1 0 2 (bytes16 sport) (omega (arith, same1)) refl;
        dport_eq =
            window-patch_before udp2 4 2 2 _ (omega arith)
            ∙ window-patch_after udp1 0 2 2 (bytes16 sport) (omega arith)
            ∙ window-patch_self udp 2 2 (bytes16 port) (omega arith) refl
            ∙ bytes16-number (window udp 0 2) (length-window udp 0 2 (omega arith))
                (window-IsByte udp 0 2 hb);
        length_eq = window-patch_self udp2 4 2 (bytes16 (n + 8)) (omega (arith, same1, same2)) refl;
        behind =
            drop-patch 8 udp2 4 _ (omega arith)
            ∙ drop-patch 8 udp1 0 (bytes16 sport) (omega arith)
            ∙ drop-patch 8 udp 2 _ (omega arith);
      },
    )

-- A UDP datagram with its pseudo header whose checksum is right, or that has none.
abbrev pub DatagramValid : Packet → Type 0
DatagramValid p =
    checksum false 0 p.payload
      (pseudo_header_checksum 17 (window p.header 12 4) (window p.header 16 4) (length p.payload))
    ≡ 65535

-- The datagram with its checksum `v` filled in.
pub record Filled (src dst : ℕ) (udp : List ℕ) (offload : Bool) (v : ℕ) : Type 0 where
  pub cleared : offload ≡ true → v ≡ 0
  pub valid :
      offload ≡ false
      → checksum false 0
          (patch udp 6 (bytes16 v))
          (pseudo_header_checksum 17 (bytes32 src) (bytes32 dst) (length udp))
        ≡ 65535

pub seal_udp_lem :
    (b udp : List ℕ) (offload : Bool) (src dst : ℕ)
    → 8 ≤ length udp
    → length udp < 2 ^ 16
    → All IsByte udp
    → source_addr b ≡ some src
    → destination_addr b ≡ some dst
    → payload_length b ≡ some (length udp)
    → (v : ℕ) × (seal_udp b udp offload ≡ some (patch udp 6 (bytes16 v)))
      × Filled src dst udp offload v
unfolding seal_udp set_udp_checksum calculate_udp_checksum
seal_udp_lem b udp true src dst room small hb es ed el =
    (0, put-some udp 6 (bytes16 0) (omega arith), record { cleared = λ e. refl; valid = λ e. cc })
seal_udp_lem b udp false src dst room small hb es ed el =
    let n = length udp in
    let pseudo = pseudo_header_checksum 17 (bytes32 src) (bytes32 dst) n in
    let x = word_sum false (bytes32 src) + word_sum false (bytes32 dst) + n + 17 in
    let pseudo_eq : pseudo ≡ canon x =
      pseudo_header_checksum_lem 17 (bytes32 src) (bytes32 dst) n (omega arith) (bytes32-IsByte src)
        (bytes32-IsByte dst) small in
    let front = window udp 0 6 in
    let rest = window udp 8 (n - 8) in
    let rest_eq : rest ≡ drop 8 udp =
      take_all (n - 8) (drop 8 udp) (omega (arith, length-drop 8 udp)) in
    let nil : word_sum false [] ≡ 0 = unfold word_sum in refl in
    let sum = checksum false 0 [] (checksum false 0 front pseudo) in
    let c = checksum false 0 rest sum in
    let v = normalize_udp_checksum (complement c) in
    (
      v,
      rw
          (
            es,
            ed,
            el,
            slice_total udp 0 6 (omega arith) (omega arith),
            slice_total udp 8 8 (omega arith) room,
            slice_total udp 8 n room (omega arith),
          )
          (put-some udp 6 (bytes16 v) (omega arith)),
      record {
        cleared = λ e. cc;
        valid = λ e.
            fold_in (patch udp 6 (bytes16 v)) pseudo x
              (All-patch IsByte udp 6 (bytes16 v) hb (bytes16-IsByte v)) pseudo_eq
            ∙ sealed_normalized 6 x udp c refl (omega arith) (
                fold_in rest _ _ (window-IsByte udp 8 _ hb)
                  (fold_in [] _ _ tt (fold_in front _ _ (window-IsByte udp 0 6 hb) pseudo_eq))
                ∙ ap canon (omega (arith, ap (word_sum false) rest_eq, nil)));
      },
    )
