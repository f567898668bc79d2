-- ===== src/Gso/Each.antt =====
-- The loop of GSOSplit, segment by segment.
use mathlib.Core.Path.{subst}
use sing_tun.Base.{
  ℕ, zero, suc, ◌+◌, ◌*◌, ◌<◌, ◌≡◌, refl, sym, ap, ◌∙◌, false, some, List, [], ◌∷◌, length,
  get_elem?, ltb, arith, Bool-cases, inl, inr,
}
use sing_tun.Base.Bytes.{some_same}
use sing_tun.Gso.{
  GsoOptions, Plan, Split, done, too_many, failed, segment, segment_size, add_segment, split_loop,
}
use sing_tun.Gso.Payload.{loop_more, loop_end, loop_full}

-- The sizes and the buffers of the segments that were made.
abbrev pub sizes_of : Split → List ℕ
sizes_of (done sizes outs) = sizes
sizes_of (too_many sizes outs) = sizes
sizes_of (failed e) = []

abbrev pub outs_of : Split → List (List ℕ)
outs_of (done sizes outs) = outs
outs_of (too_many sizes outs) = outs
outs_of (failed e) = []

-- Number `j` of the output is segment `i + j`, made in buffer `j`.
abbrev pub IsSegment : GsoOptions → List ℕ → Plan → ℕ → ℕ → List (List ℕ) → Split → ℕ → Type 0
IsSegment o inp p i at outs r j =
    (out : List ℕ) × (seg : List ℕ) × (get_elem? outs j ≡ some out)
    × (get_elem? (outs_of r) j ≡ some seg)
    × (get_elem? (sizes_of r) j ≡ some (segment_size o inp (at + j * o.gso_size)))
    × (segment o inp p (i + j) (at + j * o.gso_size) out ≡ some seg)

sizes_of-add_segment :
    (size : ℕ) (seg : List ℕ) (rest : Split) (j : ℕ)
    → suc j < length (sizes_of (add_segment size seg rest))
    → j < length (sizes_of rest)
unfolding add_segment
sizes_of-add_segment size seg (done sizes outs) j h = omega arith
sizes_of-add_segment size seg (too_many sizes outs) j h = omega arith
sizes_of-add_segment size seg (failed e) j h = absurd (omega arith)

IsSegment-zero :
    (o : GsoOptions) (inp : List ℕ) (p : Plan) (i at : ℕ) (out seg : List ℕ) (outs : List (List ℕ))
    (rest : Split)
    → segment o inp p i at out ≡ some seg
    → 0 < length (sizes_of (add_segment (segment_size o inp at) seg rest))
    → IsSegment o inp p i at (out ∷ outs) (add_segment (segment_size o inp at) seg rest) 0
unfolding add_segment
IsSegment-zero o inp p i at out seg outs (done sizes outs') s h =
    let e : at + 0 * o.gso_size ≡ at = omega arith in
    let e' : i + 0 ≡ i = omega arith in (out, seg, refl, refl, rw e refl, rw (e, e') s)
IsSegment-zero o inp p i at out seg outs (too_many sizes outs') s h =
    let e : at + 0 * o.gso_size ≡ at = omega arith in
    let e' : i + 0 ≡ i = omega arith in (out, seg, refl, refl, rw e refl, rw (e, e') s)
IsSegment-zero o inp p i at out seg outs (failed x) s h = absurd (omega arith)

IsSegment-suc :
    (o : GsoOptions) (inp : List ℕ) (p : Plan) (i at : ℕ) (out seg : List ℕ) (outs : List (List ℕ))
    (rest : Split) (j : ℕ)
    → j < length (sizes_of rest)
    → IsSegment o inp p (i + 1) (at + o.gso_size) outs rest j
    → IsSegment o inp p i at (out ∷ outs) (add_segment (segment_size o inp at) seg rest) (suc j)
unfolding add_segment
IsSegment-suc o inp p i at out seg outs (done sizes outs') j l (a, b, ea, eb, es, s) =
    let e : at + suc j * o.gso_size ≡ at + o.gso_size + j * o.gso_size = omega arith in
    let e' : i + suc j ≡ i + 1 + j = omega arith in (a, b, ea, eb, rw e es, rw (e, e') s)
IsSegment-suc o inp p i at out seg outs (too_many sizes outs') j l (a, b, ea, eb, es, s) =
    let e : at + suc j * o.gso_size ≡ at + o.gso_size + j * o.gso_size = omega arith in
    let e' : i + suc j ≡ i + 1 + j = omega arith in (a, b, ea, eb, rw e es, rw (e, e') s)
IsSegment-suc o inp p i at out seg outs (failed x) j l m = absurd (omega arith)

IsSegment-cons :
    (o : GsoOptions) (inp : List ℕ) (p : Plan) (i at : ℕ) (out seg : List ℕ) (outs : List (List ℕ))
    (rest : Split)
    → segment o inp p i at out ≡ some seg
    → ((k : ℕ)
        → k < length (sizes_of rest)
        → IsSegment o inp p (i + 1) (at + o.gso_size) outs rest k)
    → (j : ℕ) → j < length (sizes_of (add_segment (segment_size o inp at) seg rest))
    → IsSegment o inp p i at (out ∷ outs) (add_segment (segment_size o inp at) seg rest) j
IsSegment-cons o inp p i at out seg outs rest s ih zero l =
    IsSegment-zero o inp p i at out seg outs rest s l
IsSegment-cons o inp p i at out seg outs rest s ih (suc j) l =
    let l' = sizes_of-add_segment (segment_size o inp at) seg rest j l in
    IsSegment-suc o inp p i at out seg outs rest j l' (ih j l')

nothing :
    (outs : List (List ℕ)) (o : GsoOptions) (inp : List ℕ) (p : Plan) (i at : ℕ) (r : Split) (j : ℕ)
    → ltb at (length inp) ≡ false
    → split_loop o inp p i at outs ≡ some r
    → j < length (sizes_of r)
    → ⊥
nothing outs o inp p i at r j e h l =
    let x =
      ap (λ (v : Split). length (sizes_of v))
        (some_same _ _ (sym (loop_end outs o inp p i at e) ∙ h)) in
    omega arith

-- Whatever the loop returns, each segment that it lists is what one round makes of the buffer with
-- the same number, with data that start behind those of the segments before.
pub split_loop_each :
    (outs : List (List ℕ)) (o : GsoOptions) (inp : List ℕ) (p : Plan) (i at : ℕ) (r : Split) (j : ℕ)
    → split_loop o inp p i at outs ≡ some r
    → j < length (sizes_of r)
    → IsSegment o inp p i at outs r j
split_loop_each [] o inp p i at r j h l = elim (Bool-cases (ltb at (length inp))) [
  | inl e ↦
      let x =
        ap (λ (v : Split). length (sizes_of v))
          (some_same _ _ (sym (loop_full o inp p i at e) ∙ h)) in
      absurd (omega arith)
  | inr e ↦ absurd (nothing [] o inp p i at r j e h l)
]
split_loop_each (out ∷ outs) o inp p i at r j h l = elim (Bool-cases (ltb at (length inp))) [
  | inl e ↦
      let s = loop_more out outs o inp p i at e h in
      subst (λ (v : Split). IsSegment o inp p i at (out ∷ outs) v j) s.4
        (IsSegment-cons o inp p i at out s.0 outs s.1 s.2
          (λ k lk. split_loop_each outs o inp p (i + 1) (at + o.gso_size) s.1 k s.3 lk) j
          (rw (sym s.4) at l))
  | inr e ↦ absurd (nothing (out ∷ outs) o inp p i at r j e h l)
]
