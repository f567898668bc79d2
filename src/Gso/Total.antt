-- ===== src/Gso/Total.antt =====
-- The steps of GSOSplit, where its slices are in range.
use sing_tun.Base.{
  ℕ, ◌+◌, ◌-◌, ◌≤◌, ◌≡◌, refl, ◌∙◌, Bool, true, false, Option, some, List, [], ◌∷◌, length, ◌==◌,
  arith, Bool-cases, inl, inr,
}
use sing_tun.Base.Bytes.{
  ◌>>=◌, number, put, copy_at, slice, bytes16, bytes32, get16, window, put_total, copy_at_total,
  slice_total,
}
use sing_tun.Gso.{
  GsoOptions, Plan, set_id, set_ip_header, set_transport_header, set_checksum, segment, is_tcp, u16,
  segment_seq,
}
use sing_tun.Gso.Segment.{Layout, data_end, data_end-le}

-- The step gives a result, of which `P` holds.
abbrev pub Runs : {A : Type 0} → (A → Type 0) → Option A → Type 0
Runs {A = A} P m = (r : A) × (m ≡ some r) × P r

pub run_bind :
    {A B : Type 0} {P : A → Type 0} {Q : B → Type 0} (m : Option A) (f : A → Option B)
    → Runs P m
    → ((r : A) → P r → Runs Q (f r))
    → Runs Q (m >>= f)
run_bind m f h k = let n = k h.0 h.2 in (n.0, rw (h.1, n.1) refl, n.2)

-- A buffer of the length n.
abbrev pub Sized : ℕ → List ℕ → Type 0
Sized n b = length b ≡ n

pub put_runs :
    (n : ℕ) (b : List ℕ) (off : ℕ) (bs : List ℕ)
    → Sized n b
    → off + length bs ≤ n
    → Runs (Sized n) (put b off bs)
put_runs n b off bs e h = let r = put_total b off bs (omega arith) in (r.0, r.1, r.2 ∙ e)

pub copy_runs :
    (n : ℕ) (b : List ℕ) (off : ℕ) (bs : List ℕ)
    → Sized n b
    → off ≤ n
    → Runs (Sized n) (copy_at b off bs)
copy_runs n b off bs e h = let r = copy_at_total b off bs (omega arith) in (r.0, r.1, r.2 ∙ e)

pub slice_runs :
    (n : ℕ) (b : List ℕ) (lo hi : ℕ)
    → Sized n b
    → lo ≤ hi
    → hi ≤ n
    → Runs (λ (r : List ℕ). r ≡ window b lo (hi - lo)) (slice b lo hi)
slice_runs n b lo hi e h k = (window b lo (hi - lo), slice_total b lo hi h (omega arith), refl)

pub get16_runs :
    (n : ℕ) (b : List ℕ) (off : ℕ)
    → Sized n b
    → off + 2 ≤ n
    → Runs (λ (v : ℕ). Unit {0}) (get16 b off)
unfolding get16
get16_runs n b off e h = (number 0 (window b off 2), ground arith, tt)

set_id_runs : (n i : ℕ) (out : List ℕ) → Sized n out → 6 ≤ n → Runs (Sized n) (set_id i out)
unfolding set_id
set_id_runs n i out e h = elim (Bool-cases (i == 0)) [
  | inl z ↦ (out, rw z refl, e)
  | inr z ↦ rw z (
      run_bind (get16 out 4) _ (get16_runs n out 4 e h)
        λ id _. put_runs n out 4 (bytes16 (id + i)) e h)
]

set_ip_header_runs :
    (o : GsoOptions) (v6 : Bool) (n i total : ℕ) (out : List ℕ)
    → Sized n out
    → 20 ≤ o.csum_start
    → o.csum_start ≤ n
    → Runs (Sized n) (set_ip_header o v6 i total out)
unfolding set_ip_header
set_ip_header_runs o true n i total out e h k = put_runs n out 4 _ e (omega arith)
set_ip_header_runs o false n i total out e h k =
    run_bind (set_id i out) _ (set_id_runs n i out e (omega arith)) λ out1 e1.
      run_bind (put out1 10 (0 ∷ 0 ∷ [])) _ (put_runs n out1 10 _ e1 (omega arith)) λ out2 e2.
        run_bind (put out2 2 (bytes16 total)) _ (put_runs n out2 2 _ e2 (omega arith)) λ out3 e3.
          run_bind (slice out3 0 o.csum_start) _
            (slice_runs n out3 0 o.csum_start e3 (omega arith) k)
            λ header _. put_runs n out3 10 _ e3 (omega arith)

set_transport_header_runs :
    (o : GsoOptions) (p : Plan) (n i : ℕ) (last : Bool) (data_len : ℕ) (out : List ℕ)
    → Sized n out
    → Layout o
    → o.hdr_len ≤ n
    → Runs (Sized n) (set_transport_header o p i last data_len out)
unfolding set_transport_header
set_transport_header_runs o p n i last data_len out e l k = elim (Bool-cases (is_tcp o.gso_type)) [
  | inl z ↦
      let room : o.csum_start + 20 ≤ o.hdr_len = rw z at l.transport in
      rw z (
        run_bind (put out (u16 (o.csum_start + 4)) (bytes32 (segment_seq o p.first_seq i))) _
          (put_runs n out _ _ e (omega (arith, l.small)))
          λ out1 e1. put_runs n out1 _ _ e1 (omega (arith, l.small)))
  | inr z ↦
      let room : o.csum_start + 8 ≤ o.hdr_len = rw z at l.transport in
      rw z (put_runs n out _ _ e (omega (arith, l.small)))
]

set_checksum_runs :
    (o : GsoOptions) (p : Plan) (n data_len total : ℕ) (out : List ℕ)
    → Sized n out
    → Layout o
    → o.hdr_len ≤ total
    → total ≤ n
    → Runs (Sized n) (set_checksum o p data_len total out)
unfolding set_checksum
set_checksum_runs o p n data_len total out e l h k =
    let at = u16 (o.csum_start + o.csum_offset) in
    let in_header : at + 2 ≤ n = omega (arith, l.field) in
    let start : o.csum_start ≤ total = omega (arith, l.field) in
    run_bind (put out at (0 ∷ 0 ∷ [])) _ (put_runs n out at _ e in_header) λ cleared e1.
      run_bind (slice cleared o.csum_start total) _
        (slice_runs n cleared o.csum_start total e1 start k)
        λ part _. put_runs n cleared at _ e1 in_header

pub segment_runs :
    (o : GsoOptions) (inp : List ℕ) (p : Plan) (n i at : ℕ) (out : List ℕ)
    → Sized n out
    → Layout o
    → length inp ≤ n
    → o.hdr_len ≤ at
    → at ≤ length inp
    → Runs (Sized n) (segment o inp p i at out)
unfolding segment
segment_runs o inp p n i at out e l room k m =
    let end_le = data_end-le o inp at in
    let start_le : at ≤ data_end o inp at = ground arith in
    let start : o.csum_start ≤ o.hdr_len = omega (arith, l.field) in
    run_bind (slice out 0 o.hdr_len) _ (slice_runs n out 0 o.hdr_len e (omega arith) (omega arith))
      λ front _.
        run_bind (slice inp 0 o.hdr_len) _
          (slice_runs (length inp) inp 0 o.hdr_len refl (omega arith) (omega arith))
          λ header _.
            run_bind (copy_at out 0 header) _ (copy_runs n out 0 header e (omega arith)) λ out1 e1.
              run_bind (set_ip_header o p.v6 i _ out1) _
                (set_ip_header_runs o p.v6 n i _ out1 e1 l.ip (omega arith))
                λ out2 e2.
                  run_bind (set_transport_header o p i _ _ out2) _
                    (set_transport_header_runs o p n i _ _ out2 e2 l (omega arith))
                    λ out3 e3.
                      run_bind (slice inp at _) _
                        (slice_runs (length inp) inp at _ refl start_le end_le)
                        λ payload _.
                          run_bind (copy_at out3 o.hdr_len payload) _
                            (copy_runs n out3 o.hdr_len payload e3 (omega arith))
                            λ out4 e4.
                              set_checksum_runs o p n _ _ out4 e4 l (omega arith) (omega arith)
