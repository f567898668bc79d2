-- ===== src/Gso/Whole.antt =====
-- GSOSplit of tun_offload.go as a whole.
use sing_tun.Base.{
  ℕ, zero, suc, ◌+◌, ◌-◌, ◌/◌, ◌≤◌, ◌<◌, ◌≡◌, refl, Bool, true, false, some, List, [], ◌∷◌, length,
  ltb, leb, if◌then◌else◌, arith, Bool-cases, inl, inr, All,
}
use sing_tun.Base.Bytes.{slice, get32, get8, window, number}
use sing_tun.Gso.{
  GsoType, gso_none, gso_tcp4, gso_tcp6, gso_udp_l4, GsoOptions, Plan, Split, segment, allows,
  is_none, split_loop, is_tcp, pseudo_base, split_all, split_version, gso_split,
}
use sing_tun.Gso.Segment.{Layout}
use sing_tun.Gso.Payload.{Cut, split_loop-Cut, loop_step, loop_end}
use sing_tun.Gso.Total.{Runs, run_bind, slice_runs, segment_runs}

-- GSOSplit's documentation asks for this of every element of outBufs.
abbrev pub Roomy : List ℕ → List (List ℕ) → Type 0
Roomy inp = All (λ (out : List ℕ). length inp ≤ length out)

-- A packet with at least one full segment of data, and with headers that are as the options say.
pub record Splittable (o : GsoOptions) (inp : List ℕ) : Type 0 where
  pub layout : Layout o
  pub v6 : Bool
  pub first : ℕ
  pub starts : get8 inp 0 ≡ some first
  pub version : first / 16 ≡ (if v6 then 6 else 4)
  pub allowed : allows v6 o.gso_type ≡ true
  pub ip_fits : (if v6 then 40 else 20) ≤ o.csum_start
  pub positive : 0 < o.gso_size
  pub enough : o.hdr_len + o.gso_size ≤ length inp

pub split_loop_runs :
    (outs : List (List ℕ)) (o : GsoOptions) (inp : List ℕ) (p : Plan) (i at : ℕ)
    → Layout o
    → o.hdr_len ≤ at
    → Roomy inp outs
    → Runs (λ (r : Split). Unit {0}) (split_loop o inp p i at outs)
unfolding split_loop
split_loop_runs [] o inp p i at l k room = (_, refl, tt)
split_loop_runs (out ∷ outs) o inp p i at l k room = elim (Bool-cases (ltb at (length inp))) [
  | inl e ↦ rw (loop_step out outs o inp p i at e) (
      run_bind (segment o inp p i at out) _
        (segment_runs o inp p (length out) i at out refl l room.0 k (ground arith))
        λ seg _.
          run_bind (split_loop o inp p (i + 1) (at + o.gso_size) outs) _
            (split_loop_runs outs o inp p (i + 1) (at + o.gso_size) l (omega arith) room.1)
            λ rest _. (_, refl, tt))
  | inr e ↦ (_, loop_end (out ∷ outs) o inp p i at e, tt)
]

loop_lem :
    (o : GsoOptions) (inp : List ℕ) (outs : List (List ℕ)) (p : Plan)
    → Splittable o inp
    → Roomy inp outs
    → Runs (Cut o inp o.hdr_len (length outs)) (split_loop o inp p 0 o.hdr_len outs)
loop_lem o inp outs p s room =
    let r = split_loop_runs outs o inp p 0 o.hdr_len s.layout (omega arith) room in
    (r.0, r.1, split_loop-Cut outs o inp p 0 o.hdr_len r.0 s.layout s.positive r.1)

pseudo_base_runs :
    (o : GsoOptions) (v6 : Bool) (inp : List ℕ)
    → (if v6 then 40 else 20) ≤ length inp
    → Runs (λ (x : ℕ). Unit {0}) (pseudo_base o v6 inp)
unfolding pseudo_base
pseudo_base_runs o true inp h =
    run_bind (slice inp 8 24) _ (slice_runs (length inp) inp 8 24 refl (omega arith) (omega arith))
      λ src _.
        run_bind (slice inp 24 40) _ (slice_runs (length inp) inp 24 40 refl (omega arith) h)
          λ dst _. (_, refl, tt)
pseudo_base_runs o false inp h =
    run_bind (slice inp 12 16) _
      (slice_runs (length inp) inp 12 16 refl (omega arith) (omega arith))
      λ src _.
        run_bind (slice inp 16 20) _ (slice_runs (length inp) inp 16 20 refl (omega arith) h)
          λ dst _. (_, refl, tt)

get8_runs : (b : List ℕ) (i : ℕ) → i < length b → Runs (λ (x : ℕ). Unit {0}) (get8 b i)
unfolding get8
get8_runs [] i h = absurd (omega arith)
get8_runs (x ∷ b) zero h = (x, refl, tt)
get8_runs (x ∷ b) (suc i) h = get8_runs b i (omega arith)

get32_runs : (b : List ℕ) (i : ℕ) → i + 4 ≤ length b → Runs (λ (x : ℕ). Unit {0}) (get32 b i)
unfolding get32
get32_runs b i h = (number 0 (window b i 4), ground arith, tt)

split_all_lem :
    (o : GsoOptions) (inp : List ℕ) (outs : List (List ℕ)) (s : Splittable o inp)
    → Roomy inp outs
    → Runs (Cut o inp o.hdr_len (length outs)) (split_all o s.v6 inp outs)
unfolding split_all
split_all_lem o inp outs s room =
    let below = s.layout.field in
    let pseudo_runs = pseudo_base_runs o s.v6 inp (omega (arith, s.ip_fits, s.enough, below)) in
    elim (Bool-cases (is_tcp o.gso_type)) [
      | inl z ↦
          let tcp : o.csum_start + 20 ≤ o.hdr_len = rw z at s.layout.transport in
          let long : ltb (length inp) (o.csum_start + 20) ≡ false = ground (arith, s.enough) in
          rw (z, long)
            (run_bind (get32 inp _) _ (get32_runs inp _ (omega (arith, s.enough, s.layout.small)))
              λ seq _.
                run_bind (get8 inp _) _ (get8_runs inp _ (omega (arith, s.enough, s.layout.small)))
                  λ flags _.
                    run_bind (pseudo_base o s.v6 inp) _ pseudo_runs
                      λ pseudo _. loop_lem o inp outs _ s room)
      | inr z ↦
          rw z (
            run_bind (pseudo_base o s.v6 inp) _ pseudo_runs
              λ pseudo _. loop_lem o inp outs _ s room)
    ]

allows-is_none : (v6 : Bool) (t : GsoType) → allows v6 t ≡ true → is_none t ≡ false
allows-is_none true gso_none h = cc
allows-is_none false gso_none h = cc
allows-is_none v6 gso_tcp4 h = refl
allows-is_none v6 gso_tcp6 h = refl
allows-is_none v6 gso_udp_l4 h = refl

split_version_lem :
    (o : GsoOptions) (v6 : Bool) (version : ℕ) (inp : List ℕ) (outs : List (List ℕ))
    → version ≡ (if v6 then 6 else 4)
    → allows v6 o.gso_type ≡ true
    → (if v6 then 40 else 20) ≤ length inp
    → split_version o version inp outs ≡ split_all o v6 inp outs
unfolding split_version
split_version_lem o true version inp outs e a h =
    let long : ltb (length inp) 40 ≡ false = ground arith in rw (e, a, long) refl
split_version_lem o false version inp outs e a h =
    let long : ltb (length inp) 20 ≡ false = ground arith in rw (e, a, long) refl

-- GSOSplit on a packet that has at least one full segment of data and headers as the options say,
-- with buffers that are each as long as the packet, does not panic. If the buffers are enough, it
-- succeeds and the payloads of the segments, put together, are the data of the packet; if not, it
-- returns ErrTooManySegments, has filled all buffers, and their payloads are the beginning of the
-- data. Each segment has the length of the headers and 1 to GSOSize bytes.
pub gso_split_lem :
    (o : GsoOptions) (inp : List ℕ) (outs : List (List ℕ))
    → Splittable o inp
    → Roomy inp outs
    → (r : Split) × (gso_split o inp outs ≡ some r) × Cut o inp o.hdr_len (length outs) r
unfolding gso_split
gso_split_lem o inp outs s room =
    let fits = s.layout.field in
    let g1 : leb (length inp) (o.csum_start + o.csum_offset + 1) ≡ false =
      ground (arith, s.enough) in
    let g2 : ltb (length inp) o.hdr_len ≡ false = ground (arith, s.enough) in
    let g3 : ltb (length inp - o.hdr_len) o.gso_size ≡ false = ground (arith, s.enough) in
    let g4 : ltb o.hdr_len o.csum_start ≡ false = ground arith in
    let long : (if s.v6 then 40 else 20) ≤ length inp = omega (arith, s.ip_fits, s.enough) in
    rw
      (
        g1,
        g2,
        allows-is_none s.v6 o.gso_type s.allowed,
        g3,
        g4,
        s.starts,
        split_version_lem o s.v6 (s.first / 16) inp outs s.version s.allowed long,
      )
      (split_all_lem o inp outs s room)
