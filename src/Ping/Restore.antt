-- ===== src/Ping/Restore.antt =====
-- Echo requests and replies through the maps of ping/source_rewriter.go.
use sing_tun.Base.{ℕ, ◌≤◌, ◌≡◌, refl, ap, ◌∙◌, true, false, none, some, List, length, arith, All}
use sing_tun.Base.Bytes.{window, number, slice_total}
use sing_tun.Checksum.Words.{IsByte}
use sing_tun.Header.{ip_version}
use sing_tun.Header.Update.{window-IsByte}
use sing_tun.Header.Fields.{get16_total, length-window}
use sing_tun.Ping.{
  SourceRewriter, Session, remember, rewrite_packet, unanswered, deliver, write_back_network,
  write_back, ident_of, net_source, ident_eq,
}
use sing_tun.Ping.Reply.{IsPing4, Set4, ping_payload, rewrite4, deliver4}

-- The identifier of an ICMP message.
abbrev pub ident : List ℕ → ℕ → ℕ → ℕ
ident b hlen n = number 0 (window (window b hlen n) 4 2)

-- A complete ICMP packet of version 4, from `source`, with identifier `i`.
pub record IsEcho4 (b : List ℕ) (hlen n : ℕ) (source : List ℕ) (i : ℕ) : Type 0 where
  pub ping : IsPing4 b hlen n
  pub version : ip_version b ≡ some 4
  pub from : window b 12 4 ≡ source
  pub id_eq : ident b hlen n ≡ i

ident_total :
    (b : List ℕ) (hlen n : ℕ) → IsPing4 b hlen n → ident_of false b ≡ some (ident b hlen n)
unfolding ident_of
ident_total b hlen n p =
    rw (ping_payload b hlen n p)
      (get16_total (window b hlen n) 4 (omega (arith, length-window b hlen n p.inside, p.message)))

-- What WriteBack does with a complete packet, by its two maps.
write_back_way :
    (m : SourceRewriter) (b : List ℕ) (hlen n : ℕ) (from : List ℕ) (i : ℕ)
    → IsEcho4 b hlen n from i
    → write_back m b ≡ (elim (m.source_address i) [
      | none ↦ some (unanswered m b)
      | some source ↦ elim (m.sessions (record { source = source; destination = from })) [
        | none ↦ some (unanswered (remember m i none) b)
        | some context ↦ deliver (remember m i none) false b source context
      ]
    ])
unfolding net_source write_back write_back_network
write_back_way m b hlen n from i h =
    let room : 16 ≤ length b = omega (arith, h.ping.header.room, h.ping.header.inside) in
    let source : net_source false b ≡ some from =
      slice_total b 12 16 (omega arith) room ∙ ap some h.from in
    let id : ident_of false b ≡ some i = ident_total b hlen n h.ping ∙ ap some h.id_eq in
    rw (h.version, write_back) (rw (source, write_back_network) (rw (h.ping.protocol, id) refl))

-- The session of an echo request and its reply.
abbrev pub session_of : List ℕ → Session
session_of b = record { source = window b 12 4; destination = window b 16 4 }

ident_eq_same : (i : ℕ) → ident_eq i i ≡ true
ident_eq_same i = ground arith

-- An echo request that RewritePacket has sent on from the address of the interface comes back: when
-- its session exists, WriteBack of a packet from the request's destination with the request's
-- identifier goes to the session's context with the request's source as its destination, and the
-- identifier is free again. Both packets keep their message, and their header checksums are right.
pub write_back-rewrite_packet :
    (m : SourceRewriter) (p r : List ℕ) (hp np hr nr i context : ℕ)
    → IsEcho4 p hp np (window p 12 4) i
    → IsEcho4 r hr nr (window p 16 4) i
    → length m.inet4_address ≡ 4
    → All IsByte m.inet4_address
    → m.sessions (session_of p) ≡ some context
    → (m' : SourceRewriter) × (p' r' : List ℕ) × (rewrite_packet m p ≡ some (m', p'))
      × Set4 p hp np 12 m.inet4_address p'
      × (write_back m' r
          ≡ some (record { rewriter = remember m' i none; packet = r'; context = some context }))
      × Set4 r hr nr 16 (window p 12 4) r'
unfolding rewrite_packet
write_back-rewrite_packet m p r hp np hr nr i context hp4 hr4 len hb found =
    let source = window p 12 4 in
    let m' = remember m i (some source) in
    let room : 16 ≤ length p = omega (arith, hp4.ping.header.room, hp4.ping.header.inside) in
    let (p', e, k) = rewrite4 m p m.inet4_address hp np hp4.ping len hb in
    let (r', e', k') =
      deliver4 (remember m' i none) r source context hr nr hr4.ping (length-window p 12 4 room)
        (window-IsByte p 12 4 hp4.ping.header.all_bytes) in
    (
      m',
      p',
      r',
      rw (hp4.version, rewrite_packet)
          (e ∙ ap (λ (j : ℕ). some (remember m j (some source), p')) hp4.id_eq),
      k,
      write_back_way m' r hr nr (window p 16 4) i hr4 ∙ rw (ident_eq_same i, found) e',
      k',
    )

-- A packet from another address with the identifier of a waiting request, and of no session, is not
-- delivered, but WriteBack forgets the request: the reply that follows is not delivered either.
pub write_back_stray :
    (m : SourceRewriter) (stray r : List ℕ) (hs ns hr nr i : ℕ) (from stray_from source : List ℕ)
    → IsEcho4 stray hs ns stray_from i
    → IsEcho4 r hr nr from i
    → m.source_address i ≡ some source
    → m.sessions (record { source = source; destination = stray_from }) ≡ none
    → let m' = remember m i none in
      (write_back m stray ≡ some (unanswered m' stray)) × (write_back m' r ≡ some (unanswered m' r))
write_back_stray m stray r hs ns hr nr i from stray_from source h h' waiting unknown = (
  write_back_way m stray hs ns stray_from i h ∙ rw (waiting, unknown) refl,
  write_back_way (remember m i none) r hr nr from i h' ∙ rw (ident_eq_same i) refl,
)
