-- ===== src/Gso/Payload.antt =====
-- The payloads of the segments of GSOSplit.
use mathlib.Core.List.{append-nil, append_assoc}
use mathlib.Core.Path.{subst}
use sing_tun.Base.{
  ℕ, suc, ◌+◌, ◌-◌, ◌*◌, ◌≤◌, ◌<◌, ◌≡◌, refl, sym, ap, ◌∙◌, true, false, some, List, [], ◌∷◌, ◌++◌,
  length, drop, ltb, arith, length-drop, Bool-cases, inl, inr, All, drop-drop, drop_all, take_all,
  take-append-drop,
}
use sing_tun.Base.Bytes.{◌>>=◌, window, bind_some, some_same}
use sing_tun.Gso.{
  GsoOptions, Plan, Split, done, too_many, failed, segment, segment_size, add_segment, split_loop,
}
use sing_tun.Gso.Segment.{Layout, data_end, segment_payload}

-- The payloads of the segments, one behind the other.
abbrev pub payloads : GsoOptions → List ℕ → List (List ℕ) → List ℕ
payloads o (size ∷ sizes) (out ∷ outs) =
    window out o.hdr_len (size - o.hdr_len) ++ payloads o sizes outs
payloads o _ _ = []

-- Every size is that of the headers with 1 to GSOSize bytes.
abbrev pub SizesFit : GsoOptions → List ℕ → Type 0
SizesFit o = All (λ size. (o.hdr_len < size) × (size ≤ o.hdr_len + o.gso_size))

take-drop_step :
    (o : GsoOptions) (inp : List ℕ) (at : ℕ)
    → at ≤ length inp
    → window inp at (data_end o inp at - at) ++ drop (at + o.gso_size) inp ≡ drop at inp
take-drop_step o inp at h = elim (Bool-cases (ltb (length inp) (at + o.gso_size))) [
  | inl e ↦
      let whole : length (drop at inp) ≤ length inp - at = omega (arith, length-drop at inp) in
      rw (e, drop_all (at + o.gso_size) inp (ground arith), append-nil) (take_all _ _ whole)
  | inr e ↦
      let n : at + o.gso_size - at ≡ o.gso_size = omega arith in
      rw (e, n, ← drop-drop) (take-append-drop o.gso_size (drop at inp))
]

-- What the segments from `at` on are, given `m` buffers to write them to.
abbrev pub Cut : GsoOptions → List ℕ → ℕ → ℕ → Split → Type 0
Cut o inp at m (done sizes outs) = (payloads o sizes outs ≡ drop at inp) × SizesFit o sizes
Cut o inp at m (too_many sizes outs) =
    (payloads o sizes outs ++ drop (at + m * o.gso_size) inp ≡ drop at inp)
    × SizesFit o sizes
    × (length sizes ≡ m)
    × (at + m * o.gso_size < length inp)
Cut o inp at m (failed e) = ⊥

segment_size-fits :
    (o : GsoOptions) (inp : List ℕ) (at : ℕ)
    → 0 < o.gso_size
    → at < length inp
    → (o.hdr_len < segment_size o inp at) × (segment_size o inp at ≤ o.hdr_len + o.gso_size)
unfolding segment_size
segment_size-fits o inp at g h = (ground arith, ground arith)

module _ (o : GsoOptions) (inp : List ℕ) (at m : ℕ) (seg : List ℕ) (g : 0 < o.gso_size)
    (h : at < length inp)
    (w : window seg o.hdr_len (data_end o inp at - at)
      ≡ window inp at (data_end o inp at - at)) where
  first_payload :
      window seg o.hdr_len (segment_size o inp at - o.hdr_len)
      ≡ window inp at (data_end o inp at - at)
  unfolding segment_size
  first_payload = ap (window seg o.hdr_len) (omega arith) ∙ w

  add_segment-Cut :
      (rest : Split)
      → Cut o inp (at + o.gso_size) m rest
      → Cut o inp at (suc m) (add_segment (segment_size o inp at) seg rest)
  unfolding add_segment
  add_segment-Cut (done sizes outs) c = (
    rw (first_payload, c.0) (take-drop_step o inp at (omega arith)),
    (segment_size-fits o inp at g h, c.1),
  )
  add_segment-Cut (too_many sizes outs) c =
      let e : at + suc m * o.gso_size ≡ at + o.gso_size + m * o.gso_size = omega arith in
      (
        rw (e, append_assoc, c.0, first_payload) (take-drop_step o inp at (omega arith)),
        (segment_size-fits o inp at g h, c.1),
        omega (arith, c.2),
        omega (arith, c.3),
      )
  add_segment-Cut (failed e) c = c

pub loop_step :
    (out : List ℕ) (outs : List (List ℕ)) (o : GsoOptions) (inp : List ℕ) (p : Plan) (i at : ℕ)
    → ltb at (length inp) ≡ true
    → split_loop o inp p i at (out ∷ outs) ≡ (
        segment o inp p i at out >>= λ seg.
        split_loop o inp p (i + 1) (at + o.gso_size) outs >>= λ rest.
        some (add_segment (segment_size o inp at) seg rest))
unfolding split_loop
loop_step out outs o inp p i at e = rw (e, split_loop) refl

pub loop_more :
    (out : List ℕ) (outs : List (List ℕ)) (o : GsoOptions) (inp : List ℕ) (p : Plan) (i at : ℕ)
    {r : Split}
    → ltb at (length inp) ≡ true
    → split_loop o inp p i at (out ∷ outs) ≡ some r
    → (seg : List ℕ) × (rest : Split) × (segment o inp p i at out ≡ some seg)
      × (split_loop o inp p (i + 1) (at + o.gso_size) outs ≡ some rest)
      × (add_segment (segment_size o inp at) seg rest ≡ r)
loop_more out outs o inp p i at {r} e h =
    let h' = sym (loop_step out outs o inp p i at e) ∙ h in
    let s1 = bind_some (segment o inp p i at out) _ h' in
    let s2 = bind_some (split_loop o inp p (i + 1) (at + o.gso_size) outs) _ s1.2 in
    (s1.0, s2.0, s1.1, s2.1, some_same _ _ s2.2)

pub loop_end :
    (outs : List (List ℕ)) (o : GsoOptions) (inp : List ℕ) (p : Plan) (i at : ℕ)
    → ltb at (length inp) ≡ false
    → split_loop o inp p i at outs ≡ some (done [] outs)
unfolding split_loop
loop_end [] o inp p i at e = rw e
loop_end (out ∷ outs) o inp p i at e = rw (e, split_loop)

pub loop_full :
    (o : GsoOptions) (inp : List ℕ) (p : Plan) (i at : ℕ)
    → ltb at (length inp) ≡ true
    → split_loop o inp p i at [] ≡ some (too_many [] [])
unfolding split_loop
loop_full o inp p i at e = rw e

nothing_left :
    (o : GsoOptions) (inp : List ℕ) (at m : ℕ) (outs : List (List ℕ))
    → ltb at (length inp) ≡ false
    → Cut o inp at m (done [] outs)
nothing_left o inp at m outs e = (sym (drop_all at inp (ground arith)), tt)

pub split_loop-Cut :
    (outs : List (List ℕ)) (o : GsoOptions) (inp : List ℕ) (p : Plan) (i at : ℕ) (r : Split)
    → Layout o
    → 0 < o.gso_size
    → split_loop o inp p i at outs ≡ some r
    → Cut o inp at (length outs) r
split_loop-Cut [] o inp p i at r l g h = elim (Bool-cases (ltb at (length inp))) [
  | inl e ↦
      let full : too_many [] [] ≡ r = some_same _ _ (sym (loop_full o inp p i at e) ∙ h) in
      let same : at + 0 * o.gso_size ≡ at = omega arith in
      subst (Cut o inp at 0) full (rw same refl, tt, refl, ground arith)
  | inr e ↦
      subst (Cut o inp at 0) (some_same _ _ (sym (loop_end [] o inp p i at e) ∙ h))
        (nothing_left o inp at 0 [] e)
]
split_loop-Cut (out ∷ outs) o inp p i at r l g h = elim (Bool-cases (ltb at (length inp))) [
  | inl e ↦
      let s = loop_more out outs o inp p i at e h in
      subst (Cut o inp at (suc (length outs))) s.4 (
        add_segment-Cut o inp at (length outs) s.0 g (ground arith)
          (segment_payload o inp p i at out l s.2) s.1
          (split_loop-Cut outs o inp p (i + 1) (at + o.gso_size) s.1 l g s.3))
  | inr e ↦
      subst (Cut o inp at (suc (length outs)))
        (some_same _ _ (sym (loop_end (out ∷ outs) o inp p i at e) ∙ h))
        (nothing_left o inp at (suc (length outs)) (out ∷ outs) e)
]
