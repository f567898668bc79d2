-- ===== src/Header/Update.antt =====
-- The setters that update a checksum incrementally: what they leave of the header.
use sing_tun.Base.{
  ℕ, ◌+◌, ◌%◌, ◌^◌, ◌≤◌, ◌<◌, ◌≡◌, ◌⊎◌, inl, inr, refl, ap, ◌∙◌, false, Option, some, List, length,
  drop, arith, All, All-take, All-drop,
}
use sing_tun.Base.Bytes.{
  ◌>>=◌, patch, window, number, bytes16, bytes32, get16, get32, put, length-patch, drop-patch,
  window-patch_self, window-patch_before, window-patch_after, All-patch,
}
use sing_tun.Checksum.Ones.{word_sum}
use sing_tun.Checksum.Words.{IsByte}
use sing_tun.Checksum.Header.{complement, update_uint16, update_address}
use sing_tun.Header.{
  source_addr, destination_addr, set_source_addr, set_destination_addr, set_ip_checksum,
  set_source_address_with_checksum_update, set_destination_address_with_checksum_update,
  source_port, destination_port, set_source_port, set_destination_port, tcp_checksum,
  set_tcp_checksum, update_checksum_pseudo_header_address, set_source_port_with_checksum_update,
  set_destination_port_with_checksum_update,
}
use sing_tun.Header.Fields.{
  get16_total, get32_total, put-some, patch_sum, length-window, word_sum-bytes16, number_lt16,
  word_sum-number, word_sum-number32, update_uint16_mod, update_address_mod,
}

pub window-IsByte : (b : List ℕ) (off n : ℕ) → All IsByte b → All IsByte (window b off n)
window-IsByte b off n h = All-take IsByte n (drop off b) (All-drop IsByte off b h)

pub bytes16-IsByte : (v : ℕ) → All IsByte (bytes16 v)
bytes16-IsByte v = (omega arith, (omega arith, tt))

pub bytes32-IsByte : (v : ℕ) → All IsByte (bytes32 v)
bytes32-IsByte v = (omega arith, (omega arith, (omega arith, (omega arith, tt))))

-- Two fields in a buffer that do not overlap, the first by 2 bytes or more.
abbrev Apart : ℕ → ℕ → ℕ → ℕ → Type 0
Apart o m lo n = (o + m ≤ lo) ⊎ (lo + n ≤ o)

-- A buffer `b` in which the bytes at `o` became `xs`, then those at `o'` became `ys`.
pub record Rewritten (b : List ℕ) (o : ℕ) (xs : List ℕ) (o' : ℕ) (ys r : List ℕ) : Type 0 where
  pub same_length : length r ≡ length b
  pub all_bytes : All IsByte r
  pub first : window r o (length xs) ≡ xs
  pub second : window r o' (length ys) ≡ ys
  pub elsewhere :
      (lo n : ℕ)
      → Apart o (length xs) lo n
      → Apart o' (length ys) lo n
      → window r lo n ≡ window b lo n
  pub behind : (k : ℕ) → o + length xs ≤ k → o' + length ys ≤ k → drop k r ≡ drop k b
  pub sum :
      word_sum false r
        + word_sum false (window b o (length xs))
        + word_sum false (window b o' (length ys))
      ≡ word_sum false b + word_sum false xs + word_sum false ys

window-patch-Apart :
    (b : List ℕ) (o : ℕ) (xs : List ℕ) (lo n : ℕ)
    → Apart o (length xs) lo n
    → window (patch b o xs) lo n ≡ window b lo n
window-patch-Apart b o xs lo n (inl h) = window-patch_after b o lo n xs h
window-patch-Apart b o xs lo n (inr h) = window-patch_before b o lo n xs h

pub patch-patch-Rewritten :
    (b : List ℕ) (o : ℕ) (xs : List ℕ) (o' : ℕ) (ys : List ℕ)
    → (o % 2 ≡ 0) × (length xs % 2 ≡ 0) × (o' % 2 ≡ 0) × (length ys % 2 ≡ 0)
    → (o + length xs ≤ length b) × (o' + length ys ≤ length b)
    → Apart o (length xs) o' (length ys)
    → Apart o' (length ys) o (length xs)
    → All IsByte b × All IsByte xs × All IsByte ys
    → Rewritten b o xs o' ys (patch (patch b o xs) o' ys)
patch-patch-Rewritten b o xs o' ys even room apart apart' bs =
    let b1 = patch b o xs in
    let same = length-patch b o xs in
    record {
      same_length = length-patch b1 o' ys ∙ same;
      all_bytes = All-patch IsByte b1 o' ys (All-patch IsByte b o xs bs.0 bs.1) bs.2;
      first =
          window-patch-Apart b1 o' ys o (length xs) apart'
          ∙ window-patch_self b o (length xs) xs room.0 refl;
      second = window-patch_self b1 o' (length ys) ys (omega (arith, same)) refl;
      elsewhere =
          λ lo n h h'. window-patch-Apart b1 o' ys lo n h' ∙ window-patch-Apart b o xs lo n h;
      behind = λ k h h'. drop-patch k b1 o' ys h' ∙ drop-patch k b o xs h;
      sum =
          let s1 = patch_sum o b xs even.0 even.1 room.0 in
          let s2 = patch_sum o' b1 ys even.2 even.3 (omega (arith, same)) in
          let kept = ap (word_sum false) (window-patch-Apart b o xs o' (length ys) apart) in
          omega (arith, s1, s2, kept);
    }

-- Both address setters of an IPv4 header.
abbrev update_address_at : ℕ → List ℕ → ℕ → Option (List ℕ)
update_address_at at b new = do
  old_sum ← get16 b 10
  old ← get32 b at
  xsum ← update_address (complement old_sum) (bytes32 old) (bytes32 new)
  b1 ← put b 10 (bytes16 (complement xsum))
  put b1 at (bytes32 new)

-- What an address setter leaves, with the checksum `c` that it writes.
abbrev pub AddressSet : ℕ → List ℕ → ℕ → Option (List ℕ) → Type 0
AddressSet at b new result =
    (c : ℕ) × (r : List ℕ) × (result ≡ some r)
    × Rewritten b 10 (bytes16 c) at (bytes32 new) r
    × (word_sum false r % 65535 ≡ word_sum false b % 65535)

address_set :
    (at : ℕ) (b : List ℕ) (new : ℕ)
    → at % 2 ≡ 0
    → 12 ≤ at
    → at + 4 ≤ length b
    → All IsByte b
    → AddressSet at b new (update_address_at at b new)
address_set at b new even after room hb =
    let w = window b 10 2 in
    let v = window b at 4 in
    let lw = length-window b 10 2 (omega arith) in
    let lv = length-window b at 4 room in
    let hw = number_lt16 w lw (window-IsByte b 10 2 hb) in
    let u = update_address_mod (complement (number 0 w)) (number 0 v) new (omega arith) in
    let c = complement u.0 in
    let r = patch (patch b 10 (bytes16 c)) at (bytes32 new) in
    let done =
      patch-patch-Rewritten b 10 (bytes16 c) at (bytes32 new) (refl, refl, even, refl)
        (omega arith, room) (inl after) (inr after) (hb, bytes16-IsByte c, bytes32-IsByte new) in
    (
      c,
      r,
      rw
          (
            get16_total b 10 (omega arith),
            get32_total b at room,
            u.1,
            put-some b 10 (bytes16 c) (omega arith),
          )
          (put-some (patch b 10 (bytes16 c)) at (bytes32 new)
            (omega (arith, length-patch b 10 (bytes16 c)))),
      done,
      omega (
        arith,
        done.sum,
        u.2,
        u.3,
        hw,
        word_sum-bytes16 c (omega arith),
        word_sum-number w lw,
        word_sum-number32 v lv (window-IsByte b at 4 hb),
      ),
    )

pub set_source_address_lem :
    (b : List ℕ) (new : ℕ)
    → 20 ≤ length b
    → All IsByte b
    → AddressSet 12 b new (set_source_address_with_checksum_update b new)
unfolding set_source_address_with_checksum_update source_addr set_ip_checksum set_source_addr
set_source_address_lem b new h hb = address_set 12 b new refl (omega arith) (omega arith) hb

pub set_destination_address_lem :
    (b : List ℕ) (new : ℕ)
    → 20 ≤ length b
    → All IsByte b
    → AddressSet 16 b new (set_destination_address_with_checksum_update b new)
unfolding set_destination_address_with_checksum_update destination_addr set_ip_checksum
    set_destination_addr
set_destination_address_lem b new h hb = address_set 16 b new refl (omega arith) (omega arith) hb

-- Both port setters of a TCP header.
abbrev update_port_at : ℕ → List ℕ → ℕ → Option (List ℕ)
update_port_at at b new = do
  old ← get16 b at
  b1 ← put b at (bytes16 new)
  old_sum ← get16 b1 16
  put b1 16 (bytes16 (complement (update_uint16 (complement old_sum) old new)))

-- What a port setter leaves, with the checksum `c` that it writes.
abbrev pub PortSet : ℕ → List ℕ → ℕ → Option (List ℕ) → Type 0
PortSet at b new result =
    (c : ℕ) × (r : List ℕ) × (result ≡ some r)
    × Rewritten b at (bytes16 new) 16 (bytes16 c) r
    × (word_sum false r % 65535 ≡ word_sum false b % 65535)

port_set :
    (at : ℕ) (b : List ℕ) (new : ℕ)
    → at % 2 ≡ 0
    → at + 2 ≤ 16
    → 18 ≤ length b
    → new < 2 ^ 16
    → All IsByte b
    → PortSet at b new (update_port_at at b new)
port_set at b new even before room hn hb =
    let b1 = patch b at (bytes16 new) in
    let same = length-patch b at (bytes16 new) in
    let kept = window-patch_after b at 16 2 (bytes16 new) before in
    let w = window b at 2 in
    let v = window b1 16 2 in
    let lw = length-window b at 2 (omega arith) in
    let lv = length-window b1 16 2 (omega (arith, same)) in
    let hb1 = All-patch IsByte b at (bytes16 new) hb (bytes16-IsByte new) in
    let hw = number_lt16 w lw (window-IsByte b at 2 hb) in
    let hv = number_lt16 v lv (window-IsByte b1 16 2 hb1) in
    let u = update_uint16_mod (complement (number 0 v)) (number 0 w) new (omega arith) hw hn in
    let c = complement (update_uint16 (complement (number 0 v)) (number 0 w) new) in
    let r = patch b1 16 (bytes16 c) in
    let done =
      patch-patch-Rewritten b at (bytes16 new) 16 (bytes16 c) (even, refl, refl, refl)
        (omega arith, room) (inl before) (inr before) (hb, bytes16-IsByte new, bytes16-IsByte c) in
    (
      c,
      r,
      rw
          (
            get16_total b at (omega arith),
            put-some b at (bytes16 new) (omega arith),
            get16_total b1 16 (omega (arith, same)),
          )
          (put-some b1 16 (bytes16 c) (omega (arith, same))),
      done,
      omega (
        arith,
        done.sum,
        u,
        hv,
        ap (word_sum false) kept,
        word_sum-bytes16 c (omega arith),
        word_sum-bytes16 new hn,
        word_sum-number w lw,
        word_sum-number v lv,
      ),
    )

pub set_source_port_lem :
    (b : List ℕ) (new : ℕ)
    → 18 ≤ length b
    → new < 2 ^ 16
    → All IsByte b
    → PortSet 0 b new (set_source_port_with_checksum_update b new)
unfolding set_source_port_with_checksum_update source_port set_source_port tcp_checksum
    set_tcp_checksum
set_source_port_lem b new h hn hb = port_set 0 b new refl (omega arith) h hn hb

pub set_destination_port_lem :
    (b : List ℕ) (new : ℕ)
    → 18 ≤ length b
    → new < 2 ^ 16
    → All IsByte b
    → PortSet 2 b new (set_destination_port_with_checksum_update b new)
unfolding set_destination_port_with_checksum_update destination_port set_destination_port
    tcp_checksum set_tcp_checksum
set_destination_port_lem b new h hn hb = port_set 2 b new refl (omega arith) h hn hb

-- The checksum of a segment after an address of its pseudo header changed.
pub update_checksum_pseudo_header_address_lem :
    (b : List ℕ) (old new : ℕ)
    → 18 ≤ length b
    → All IsByte b
    → (c : ℕ) × (update_checksum_pseudo_header_address b old new ≡ some (patch b 16 (bytes16 c)))
      × ((word_sum false (patch b 16 (bytes16 c)) + word_sum false (bytes32 new)) % 65535
          ≡ (word_sum false b + word_sum false (bytes32 old)) % 65535)
unfolding update_checksum_pseudo_header_address tcp_checksum set_tcp_checksum
update_checksum_pseudo_header_address_lem b old new room hb =
    let w = window b 16 2 in
    let lw = length-window b 16 2 room in
    let hw = number_lt16 w lw (window-IsByte b 16 2 hb) in
    let u = update_address_mod (complement (number 0 w)) old new (omega arith) in
    let c = complement u.0 in
    (
      c,
      rw (get16_total b 16 room, u.1) (put-some b 16 (bytes16 c) room),
      omega (
        arith,
        patch_sum 16 b (bytes16 c) refl refl room,
        u.2,
        u.3,
        hw,
        word_sum-bytes16 c (omega arith),
        word_sum-number w lw,
      ),
    )
