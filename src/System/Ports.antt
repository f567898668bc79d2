-- ===== src/System/Ports.antt =====
-- The ports of rewriteIPv4TCP, with the checksum of the segment.
use sing_tun.Base.{
  ℕ, ◌%◌, ◌^◌, ◌≤◌, ◌<◌, ◌≡◌, ◌⊎◌, inl, inr, refl, ap, ◌∙◌, Bool, true, false, Option, none, some,
  List, [], ◌∷◌, length, arith, All,
}
use sing_tun.Base.Bytes.{
  patch, window, bytes16, length-patch, drop-patch, window-patch_before, window-patch_after,
  window-patch_self, All-patch,
}
use sing_tun.Checksum.Ones.{word_sum}
use sing_tun.Checksum.Words.{IsByte}
use sing_tun.Header.{
  set_source_port, set_destination_port, set_tcp_checksum, set_source_port_with_checksum_update,
  set_destination_port_with_checksum_update,
}
use sing_tun.Header.Fields.{put-some}
use sing_tun.Header.Update.{bytes16-IsByte, set_source_port_lem, set_destination_port_lem}
use sing_tun.System.{rewrite_ports}
use sing_tun.System.Rewrite.{SegmentStep}

-- The bytes of a port after it was rewritten or not.
abbrev pub port_bytes : Option ℕ → List ℕ → List ℕ
port_bytes none old = old
port_bytes (some port) old = bytes16 port

abbrev pub IsPort : Option ℕ → Type 0
IsPort none = Unit
IsPort (some port) = port < 2 ^ 16

-- Two steps, with the ports that the second leaves.
pub SegmentStep-trans :
    {b s d r s' d' q s'' d'' : List ℕ}
    → SegmentStep b s d r
    → SegmentStep r s' d' q
    → s' ≡ s''
    → d' ≡ d''
    → SegmentStep b s'' d'' q
SegmentStep-trans x y es ed = record {
  same_length = y.same_length ∙ x.same_length;
  all_bytes = y.all_bytes;
  middle = y.middle ∙ x.middle;
  behind = y.behind ∙ x.behind;
  sport_eq = y.sport_eq ∙ es;
  dport_eq = y.dport_eq ∙ ed;
}

segment_same :
    (b s d : List ℕ) → All IsByte b → window b 0 2 ≡ s → window b 2 2 ≡ d → SegmentStep b s d b
segment_same b s d hb e e' = record {
  same_length = refl;
  all_bytes = hb;
  middle = refl;
  behind = refl;
  sport_eq = e;
  dport_eq = e';
}

-- A port setter that leaves the checksum to the device, or clears it.
segment_patched :
    (b : List ℕ) (at v : ℕ) (s d : List ℕ)
    → All IsByte b
    → (at ≡ 0) ⊎ (at ≡ 2) ⊎ (at ≡ 16)
    → window (patch b at (bytes16 v)) 0 2 ≡ s
    → window (patch b at (bytes16 v)) 2 2 ≡ d
    → SegmentStep b s d (patch b at (bytes16 v))
segment_patched b at v s d hb where_at e e' = record {
  same_length = length-patch b at _;
  all_bytes = All-patch IsByte b at _ hb (bytes16-IsByte v);
  middle = elim where_at [
    | inl z ↦ window-patch_after b at 4 12 _ (omega (arith, z))
    | inr (inl z) ↦ window-patch_after b at 4 12 _ (omega (arith, z))
    | inr (inr z) ↦ window-patch_before b at 4 12 _ (omega (arith, z))
  ];
  behind = drop-patch 18 b at _ (ground arith);
  sport_eq = e;
  dport_eq = e';
}

-- A segment with its new ports; the sum of its words is the same modulo 65535.
abbrev pub PortStep : List ℕ → List ℕ → List ℕ → Option (List ℕ) → Type 0
PortStep b s d result =
    (r : List ℕ) × (result ≡ some r)
    × SegmentStep b s d r
    × (word_sum false r % 65535 ≡ word_sum false b % 65535)

updated_source :
    (b : List ℕ) (port : Option ℕ)
    → 18 ≤ length b
    → IsPort port
    → All IsByte b
    → PortStep b
        (port_bytes port (window b 0 2))
        (window b 2 2)
        (elim port [ none ↦ some b | some p ↦ set_source_port_with_checksum_update b p ])
updated_source b none h hp hb = (b, refl, segment_same b _ _ hb refl refl, refl)
updated_source b (some port) h hp hb =
    let (c, r, e, w, sum) = set_source_port_lem b port h hp hb in
    (
      r,
      e,
      record {
        same_length = w.same_length;
        all_bytes = w.all_bytes;
        middle = w.elsewhere 4 12 (inl (omega arith)) (inr (omega arith));
        behind = w.behind 18 (omega arith) (omega arith);
        sport_eq = w.first;
        dport_eq = w.elsewhere 2 2 (inl (omega arith)) (inr (omega arith));
      },
      sum,
    )

updated_destination :
    (b : List ℕ) (port : Option ℕ)
    → 18 ≤ length b
    → IsPort port
    → All IsByte b
    → PortStep b
        (window b 0 2)
        (port_bytes port (window b 2 2))
        (elim port [ none ↦ some b | some p ↦ set_destination_port_with_checksum_update b p ])
updated_destination b none h hp hb = (b, refl, segment_same b _ _ hb refl refl, refl)
updated_destination b (some port) h hp hb =
    let (c, r, e, w, sum) = set_destination_port_lem b port h hp hb in
    (
      r,
      e,
      record {
        same_length = w.same_length;
        all_bytes = w.all_bytes;
        middle = w.elsewhere 4 12 (inl (omega arith)) (inr (omega arith));
        behind = w.behind 18 (omega arith) (omega arith);
        sport_eq = w.elsewhere 0 2 (inr (omega arith)) (inr (omega arith));
        dport_eq = w.first;
      },
      sum,
    )

-- The device completes the checksum.
plain_source :
    (b : List ℕ) (port : Option ℕ)
    → 18 ≤ length b
    → All IsByte b
    → (r : List ℕ) × (elim port [ none ↦ some b | some p ↦ set_source_port b p ] ≡ some r)
      × SegmentStep b (port_bytes port (window b 0 2)) (window b 2 2) r
unfolding set_source_port
plain_source b none h hb = (b, refl, segment_same b _ _ hb refl refl)
plain_source b (some p) h hb = (
  patch b 0 (bytes16 p),
  put-some b 0 (bytes16 p) (omega arith),
  segment_patched b 0 p _ _ hb (inl refl) (window-patch_self b 0 2 (bytes16 p) (omega arith) refl)
      (window-patch_after b 0 2 2 (bytes16 p) (omega arith)),
)

plain_destination :
    (b : List ℕ) (port : Option ℕ)
    → 18 ≤ length b
    → All IsByte b
    → (r : List ℕ) × (elim port [ none ↦ some b | some p ↦ set_destination_port b p ] ≡ some r)
      × SegmentStep b (window b 0 2) (port_bytes port (window b 2 2)) r
unfolding set_destination_port
plain_destination b none h hb = (b, refl, segment_same b _ _ hb refl refl)
plain_destination b (some p) h hb = (
  patch b 2 (bytes16 p),
  put-some b 2 (bytes16 p) (omega arith),
  segment_patched b 2 p _ _ hb (inr (inl refl))
      (window-patch_before b 2 0 2 (bytes16 p) (omega arith))
      (window-patch_self b 2 2 (bytes16 p) (omega arith) refl),
)

-- What becomes of the checksum: cleared for the device, or kept up to date.
abbrev pub Resealed : Bool → List ℕ → List ℕ → Type 0
Resealed true b r = window r 16 2 ≡ 0 ∷ 0 ∷ []
Resealed false b r = word_sum false r % 65535 ≡ word_sum false b % 65535

pub rewrite_ports_lem :
    (b : List ℕ) (offload : Bool) (sport dport : Option ℕ)
    → 18 ≤ length b
    → IsPort sport
    → IsPort dport
    → All IsByte b
    → (r : List ℕ) × (rewrite_ports b offload sport dport ≡ some r)
      × SegmentStep b (port_bytes sport (window b 0 2)) (port_bytes dport (window b 2 2)) r
      × Resealed offload b r
unfolding rewrite_ports set_tcp_checksum
rewrite_ports_lem b true sport dport h hs hd hb =
    let (r1, e1, s1) = plain_source b sport h hb in
    let (r2, e2, s2) = plain_destination r1 dport (omega (arith, s1.same_length)) s1.all_bytes in
    let room : 18 ≤ length r2 = omega (arith, s1.same_length, s2.same_length) in
    let r = patch r2 16 (bytes16 0) in
    let s3 =
      segment_patched r2 16 0 (window r2 0 2) (window r2 2 2) s2.all_bytes (inr (inr refl))
        (window-patch_before r2 16 0 2 _ (omega arith))
        (window-patch_before r2 16 2 2 _ (omega arith)) in
    (
      r,
      rw (e1, e2) (put-some r2 16 (bytes16 0) room),
      SegmentStep-trans s1 (SegmentStep-trans s2 s3 s2.sport_eq s2.dport_eq) s1.sport_eq
          (ap (port_bytes dport) s1.dport_eq),
      window-patch_self r2 16 2 (bytes16 0) room refl,
    )
rewrite_ports_lem b false sport dport h hs hd hb =
    let (r1, e1, s1, k1) = updated_source b sport h hs hb in
    let (r, e2, s2, k2) =
      updated_destination r1 dport (omega (arith, s1.same_length)) hd s1.all_bytes in
    (r, rw e1 e2, SegmentStep-trans s1 s2 s1.sport_eq (ap (port_bytes dport) s1.dport_eq), k2 ∙ k1)
