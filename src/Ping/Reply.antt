-- ===== src/Ping/Reply.antt =====
-- WriteBack and RewritePacket of ping/source_rewriter.go on the packets themselves.
use sing_tun.Base.{
  ℕ, zero, suc, ◌⊎◌, inl, inr, ◌+◌, ◌-◌, ◌≤◌, ◌<◌, ◌≡◌, refl, ap, ◌∙◌, sym, false, some, List, [],
  ◌∷◌, length, drop, take, arith, All, take_all,
}
use sing_tun.Base.Bytes.{
  drop-patch, patch, window, number, bytes16, get8, get16, slice_total, some_same, length-patch,
  window-patch_self, window-patch_before, window-patch_after, All-patch,
}
use sing_tun.Checksum.Words.{IsByte}
use sing_tun.Header.{payload_length, total_length}
use sing_tun.Header.Fields.{get16_total, length-window}
use sing_tun.Header.Parts.{header_length_front, window-take, drop_later}
use sing_tun.Header.Seal.{sealed}
use sing_tun.Header.Update.{bytes16-IsByte}
use sing_tun.Ping.{
  SourceRewriter, remember, rewrite_network, deliver, set_addr, net_transport, net_payload,
  net_source, payload_range, reseal_header, logged_ident,
}
use sing_tun.Ping.Header.{HasHeader, FrontValid, reseal_header_lem}

-- An ICMP packet for IPv4 at the front of a buffer, with at least the 8 bytes of an echo message.
pub record IsPing4 (b : List ℕ) (hlen n : ℕ) : Type 0 where
  pub header : HasHeader b hlen
  pub range : payload_range false b ≡ some (hlen, n)
  pub inside : hlen + n ≤ length b
  pub message : 8 ≤ n
  pub protocol : net_transport false b ≡ some 1

-- A change of bytes 10 to 19, which the length fields and the message do not share.
record Inner (b r : List ℕ) : Type 0 where
  same_length : length r ≡ length b
  all_bytes : All IsByte r
  front : window r 0 10 ≡ window b 0 10
  behind : drop 20 r ≡ drop 20 b

get8-take : (n m : ℕ) (b : List ℕ) → n < m → get8 (take m b) n ≡ get8 b n
unfolding get8
get8-take n zero b h = absurd (omega arith)
get8-take n (suc m) [] h = refl
get8-take zero (suc m) (x ∷ b) h = refl
get8-take (suc n) (suc m) (x ∷ b) h = get8-take n m b (omega arith)

front_window :
    (b r : List ℕ) (lo m : ℕ)
    → window r 0 10 ≡ window b 0 10
    → lo + m ≤ 10
    → window r lo m ≡ window b lo m
front_window b r lo m e h =
    sym (window-take 10 lo m r h) ∙ ap (λ (x : List ℕ). window x lo m) e ∙ window-take 10 lo m b h

module _ (b r : List ℕ) (hlen n : ℕ) (k : Inner b r) (p : IsPing4 b hlen n) where
  inner_header : HasHeader r hlen
  inner_header = record {
    all_bytes = k.all_bytes;
    header_eq =
        header_length_front 9 b r (omega (arith, p.header.room, p.header.inside)) k.front
        ∙ p.header.header_eq;
    room = p.header.room;
    inside = omega (arith, k.same_length, p.header.inside);
  }

  inner_range : payload_range false r ≡ some (hlen, n)
  unfolding payload_range payload_length total_length
  inner_range =
      let room : 20 ≤ length b = omega (arith, p.header.room, p.header.inside) in
      let same : get16 r 2 ≡ get16 b 2 =
        get16_total r 2 (omega (arith, k.same_length))
        ∙ ap some (ap (number 0) (front_window b r 2 2 k.front (omega arith)))
        ∙ sym (get16_total b 2 (omega arith)) in
      rw (same, inner_header.header_eq ∙ sym p.header.header_eq) p.range

  inner_ping : IsPing4 r hlen n
  unfolding net_transport
  inner_ping = record {
    header = inner_header;
    range = inner_range;
    inside = omega (arith, k.same_length, p.inside);
    message = p.message;
    protocol =
        sym (get8-take 9 10 r (omega arith))
        ∙ ap (λ (x : List ℕ). get8 x 9) k.front
        ∙ get8-take 9 10 b (omega arith)
        ∙ p.protocol;
  }

  inner_payload : net_payload false r ≡ net_payload false b
  unfolding net_payload
  inner_payload =
      rw
        (
          inner_range,
          p.range,
          slice_total r hlen (hlen + n) (omega arith) (omega (arith, k.same_length, p.inside)),
          slice_total b hlen (hlen + n) (omega arith) p.inside,
        )
        (ap (λ (x : List ℕ). some (take (hlen + n - hlen) x))
          (drop_later 20 hlen r b p.header.room k.behind))

-- The message of an ICMP packet is there.
pub ping_payload :
    (b : List ℕ) (hlen n : ℕ) → IsPing4 b hlen n → net_payload false b ≡ some (window b hlen n)
unfolding net_payload
ping_payload b hlen n p =
    let diff : hlen + n - hlen ≡ n = omega arith in
    rw (p.range, slice_total b hlen (hlen + n) (omega arith) p.inside, diff) refl

logged4 :
    (b : List ℕ) (hlen n : ℕ)
    → IsPing4 b hlen n
    → logged_ident false b ≡ some (number 0 (window (window b hlen n) 4 2))
unfolding logged_ident
logged4 b hlen n p =
    let len : length (window b hlen n) ≡ n = length-window b hlen n p.inside in
    rw
      (
        ping_payload b hlen n p,
        get16_total (window b hlen n) 4 (omega (arith, len, p.message)),
        get16_total (window b hlen n) 6 (omega (arith, len, p.message)),
      )
      refl

-- An address of an IPv4 packet set, with the header's checksum: at 12 the source, at 16 the
-- destination.
pub record Set4 (b : List ℕ) (hlen n at : ℕ) (addr r : List ℕ) : Type 0 where
  pub ping : IsPing4 r hlen n
  pub payload : net_payload false r ≡ net_payload false b
  pub same_length : length r ≡ length b
  pub written : window r at 4 ≡ addr
  pub other : window r (28 - at) 4 ≡ window b (28 - at) 4
  pub valid : FrontValid hlen r

set_addr-some :
    (at size : ℕ) (b addr : List ℕ)
    → at + size ≤ length b
    → length addr ≡ size
    → set_addr at size b addr ≡ some (patch b at addr)
unfolding set_addr
set_addr-some at size b addr h e =
    let all : take size addr ≡ addr = take_all size addr (omega arith) in rw all (ground arith)

pub set4 :
    (b : List ℕ) (hlen n at : ℕ) (addr : List ℕ)
    → IsPing4 b hlen n
    → (at ≡ 12) ⊎ (at ≡ 16)
    → length addr ≡ 4
    → All IsByte addr
    → (b1 r : List ℕ) × (set_addr at 4 b addr ≡ some b1)
      × (reseal_header false b1 ≡ some r)
      × Set4 b hlen n at addr r
set4 b hlen n at addr p where_at len hb =
    let room : 20 ≤ length b = omega (arith, p.header.room, p.header.inside) in
    let fits : at + 4 ≤ length b = ground arith in
    let b1 = patch b at addr in
    let same1 = length-patch b at addr in
    let front1 : window b1 0 10 ≡ window b 0 10 =
      window-patch_before b at 0 10 addr (ground arith) in
    let k1 : Inner b b1 = record {
      same_length = same1;
      all_bytes = All-patch IsByte b at addr p.header.all_bytes hb;
      front = front1;
      behind = drop-patch 20 b at addr (ground arith);
    } in
    let p1 = inner_ping b b1 hlen n k1 p in
    let (v, sealed, valid) = reseal_header_lem b1 hlen p1.header in
    let r = patch b1 10 (bytes16 v) in
    let k2 : Inner b1 r = record {
      same_length = length-patch b1 10 (bytes16 v);
      all_bytes = All-patch IsByte b1 10 (bytes16 v) k1.all_bytes (bytes16-IsByte v);
      front = window-patch_before b1 10 0 10 (bytes16 v) (omega arith);
      behind = drop-patch 20 b1 10 (bytes16 v) (omega arith);
    } in
    (
      b1,
      r,
      set_addr-some at 4 b addr fits len,
      sealed,
      record {
        ping = inner_ping b1 r hlen n k2 p1;
        payload = inner_payload b1 r hlen n k2 p1 ∙ inner_payload b b1 hlen n k1 p;
        same_length = k2.same_length ∙ same1;
        written =
            window-patch_after b1 10 at 4 (bytes16 v) (ground arith)
            ∙ window-patch_self b at 4 addr fits (sym len);
        other = window-patch_after b1 10 (28 - at) 4 (bytes16 v) (ground arith) ∙ (elim where_at [
          | inl e ↦ window-patch_after b at (28 - at) 4 addr (omega arith)
          | inr e ↦ window-patch_before b at (28 - at) 4 addr (omega arith)
        ]);
        valid = valid;
      },
    )

-- RewritePacket and WriteBack of a complete ICMP packet for IPv4.
pub rewrite4 :
    (m : SourceRewriter) (b bind_addr : List ℕ) (hlen n : ℕ)
    → IsPing4 b hlen n
    → length bind_addr ≡ 4
    → All IsByte bind_addr
    → (r : List ℕ) × (rewrite_network m false bind_addr b
        ≡ some (remember m (number 0 (window (window b hlen n) 4 2)) (some (window b 12 4)), r))
      × Set4 b hlen n 12 bind_addr r
unfolding rewrite_network net_source
rewrite4 m b bind_addr hlen n p len hb =
    let (b1, r, e1, e2, k) = set4 b hlen n 12 bind_addr p (inl refl) len hb in
    let room : 20 ≤ length b = omega (arith, p.header.room, p.header.inside) in
    let message : window r hlen n ≡ window b hlen n =
      some_same _ _ (sym (ping_payload r hlen n k.ping) ∙ k.payload ∙ ping_payload b hlen n p) in
    (
      r,
      rw
          (
            slice_total b 12 16 (omega arith) (omega arith),
            e1,
            e2,
            k.ping.protocol,
            logged4 r hlen n k.ping,
            message,
          )
          refl,
      k,
    )

pub deliver4 :
    (m : SourceRewriter) (b source : List ℕ) (context hlen n : ℕ)
    → IsPing4 b hlen n
    → length source ≡ 4
    → All IsByte source
    → (r : List ℕ) × (deliver m false b source context
        ≡ some (record { rewriter = m; packet = r; context = some context }))
      × Set4 b hlen n 16 source r
unfolding deliver
deliver4 m b source context hlen n p len hb =
    let (b1, r, e1, e2, k) = set4 b hlen n 16 source p (inr refl) len hb in
    (r, rw (e1, e2, k.ping.protocol, logged4 r hlen n k.ping) refl, k)
