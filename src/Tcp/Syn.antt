-- ===== src/Tcp/Syn.antt =====
-- ParseSynOptions and the encoders of its options, in internal/gtcpip/header/tcp.go.
use mathlib.Core.Path.{subst}
use sing_tun.Base.{
  ℕ, zero, suc, ◌+◌, ◌/◌, ◌%◌, ◌^◌, ◌≤◌, ◌<◌, ◌≡◌, refl, Bool, true, false, some, List, [], ◌∷◌,
  length, drop, ltb, ◌==◌, if◌then◌else◌, arith, length-drop, inl, inr, ◌⊎◌,
}
use sing_tun.Tcp.{
  SynOptions, Next, stop, more, syn_option, syn_mss, syn_ws, syn_ts, syn_sack_permitted,
  skip_option, parse_syn, parse_syn_options, no_syn_options, uint32, encode_mss_option,
  encode_ws_option, encode_ts_option, encode_sack_permitted_option, minimum_send_mss, max_wnd_scale,
}

pub uint32-be32 :
    (v : ℕ)
    → v < 2 ^ 32
    → uint32 (v / 2 ^ 24 % 256) (v / 2 ^ 16 % 256) (v / 2 ^ 8 % 256) (v % 256) ≡ v
uint32-be32 v h = omega arith

-- A round that goes on leaves no more bytes than stood behind the option's kind.
abbrev pub Shrinks : {O : Type 0} → ℕ → Next O → Type 0
Shrinks k (stop o) = Unit {0}
Shrinks k (more rest o) = length rest ≤ k

syn_mss-Shrinks : (o : SynOptions) (b : List ℕ) → Shrinks (length b) (syn_mss o b)
unfolding syn_mss
syn_mss-Shrinks o (l ∷ a ∷ c ∷ rest) = ground arith
syn_mss-Shrinks o _ = tt

syn_ws-Shrinks : (o : SynOptions) (b : List ℕ) → Shrinks (length b) (syn_ws o b)
unfolding syn_ws
syn_ws-Shrinks o (l ∷ w ∷ rest) = ground arith
syn_ws-Shrinks o _ = tt

syn_ts-Shrinks :
    (is_ack : Bool) (o : SynOptions) (b : List ℕ) → Shrinks (length b) (syn_ts is_ack o b)
unfolding syn_ts
syn_ts-Shrinks is_ack o (l ∷ a ∷ b ∷ c ∷ d ∷ e ∷ f ∷ g ∷ h ∷ rest) = ground arith
syn_ts-Shrinks is_ack o _ = tt

syn_sack_permitted-Shrinks :
    (o : SynOptions) (b : List ℕ) → Shrinks (length b) (syn_sack_permitted o b)
unfolding syn_sack_permitted
syn_sack_permitted-Shrinks o (l ∷ rest) = ground arith
syn_sack_permitted-Shrinks o [] = tt

pub skip_option-Shrinks :
    {O : Type 0} (o : O) (kind : ℕ) (rest : List ℕ)
    → Shrinks (length rest) (skip_option o (kind ∷ rest))
unfolding skip_option
skip_option-Shrinks o kind (l ∷ rest) = ground (arith, length-drop l (kind ∷ l ∷ rest))
skip_option-Shrinks o kind [] = tt

pub Shrinks-if :
    {O : Type 0} (k : ℕ) (c : Bool) (x y : Next O)
    → Shrinks k x
    → Shrinks k y
    → Shrinks k (if c then x else y)
Shrinks-if k true x y hx hy = hx
Shrinks-if k false x y hx hy = hy

syn_option-Shrinks :
    (is_ack : Bool) (o : SynOptions) (kind : ℕ) (rest : List ℕ)
    → Shrinks (length rest) (syn_option is_ack o kind rest)
unfolding syn_option
syn_option-Shrinks is_ack o kind rest = Shrinks-if k (kind == 0) (stop o) _ tt (
    Shrinks-if k (kind == 1) (more rest o) _ (omega arith) (
      Shrinks-if k (kind == 2) (syn_mss o rest) _ (syn_mss-Shrinks o rest) (
        Shrinks-if k (kind == 3) (syn_ws o rest) _ (syn_ws-Shrinks o rest) (
          Shrinks-if k (kind == 8) (syn_ts is_ack o rest) _ (syn_ts-Shrinks is_ack o rest) (
            Shrinks-if k (kind == 4) (syn_sack_permitted o rest) (skip_option o (kind ∷ rest))
              (syn_sack_permitted-Shrinks o rest) (skip_option-Shrinks o kind rest))))))
  where
    k : ℕ
    k = length rest

pub Next-cases :
    {O : Type 0} (r : Next O)
    → ((o : O) × (r ≡ stop o)) ⊎ ((rest : List ℕ) × (o : O) × (r ≡ more rest o))
Next-cases (stop o) = inl (o, refl)
Next-cases (more rest o) = inr (rest, o, refl)

pub parse_syn_total :
    (fuel : ℕ) (is_ack : Bool) (opts : List ℕ) (o : SynOptions)
    → length opts < fuel
    → (r : SynOptions) × (parse_syn fuel is_ack opts o ≡ some r)
unfolding parse_syn
parse_syn_total zero is_ack opts o h = absurd (omega arith)
parse_syn_total (suc fuel) is_ack [] o h = (o, refl)
parse_syn_total (suc fuel) is_ack (kind ∷ rest) o h =
    elim (Next-cases (syn_option is_ack o kind rest)) [
      | inl (o', e) ↦ (o', rw (e, parse_syn))
      | inr (rest', o', e) ↦
          let short : length rest' ≤ length rest =
            subst (Shrinks (length rest)) e (syn_option-Shrinks is_ack o kind rest) in
          let r = parse_syn_total fuel is_ack rest' o' (omega arith) in (r.0, rw (e, parse_syn) r.1)
    ]

-- ParseSynOptions returns on every input, also on malformed ones, after at most one round more than
-- there are bytes.
pub parse_syn_options_total :
    (opts : List ℕ) (is_ack : Bool) → (r : SynOptions) × (parse_syn_options opts is_ack ≡ some r)
unfolding parse_syn_options
parse_syn_options_total opts is_ack =
    parse_syn_total (length opts + 1) is_ack opts no_syn_options (omega arith)

abbrev pub clamped_mss : ℕ → ℕ
clamped_mss mss = if ltb mss minimum_send_mss then minimum_send_mss else mss

abbrev pub clamped_ws : ℕ → ℕ
clamped_ws ws = if ltb max_wnd_scale ws then max_wnd_scale else ws

module _ (b : List ℕ) (o : SynOptions) (is_ack : Bool) (fuel : ℕ) where
  mss_step :
      (mss : ℕ)
      → 4 ≤ length b
      → 0 < mss
      → mss < 2 ^ 16
      → parse_syn (suc fuel) is_ack (encode_mss_option mss b).1 o
        ≡ parse_syn fuel is_ack (drop 4 b) (record o { mss = clamped_mss mss })
  unfolding parse_syn encode_mss_option syn_option syn_mss
  mss_step mss hb h0 h = ground arith

  ws_step :
      (ws : ℕ)
      → 3 ≤ length b
      → ws < 2 ^ 8
      → parse_syn (suc fuel) is_ack (encode_ws_option ws b).1 o
        ≡ parse_syn fuel is_ack (drop 3 b) (record o { ws = some (clamped_ws ws) })
  unfolding parse_syn encode_ws_option syn_option syn_ws
  ws_step ws hb h = ground arith

  ts_step :
      (val ecr : ℕ)
      → 10 ≤ length b
      → val < 2 ^ 32
      → ecr < 2 ^ 32
      → parse_syn (suc fuel) is_ack (encode_ts_option val ecr b).1 o
        ≡ parse_syn fuel is_ack
            (drop 10 b)
            (record o { ts = true; ts_val = val; ts_ecr = if is_ack then ecr else o.ts_ecr })
  unfolding parse_syn encode_ts_option syn_option syn_ts
  ts_step val ecr hb hv he = ground (arith, uint32-be32 val hv, uint32-be32 ecr he)

  sack_permitted_step :
      2 ≤ length b
      → parse_syn (suc fuel) is_ack (encode_sack_permitted_option b).1 o
        ≡ parse_syn fuel is_ack (drop 2 b) (record o { sack_permitted = true })
  unfolding parse_syn encode_sack_permitted_option syn_option syn_sack_permitted
  sack_permitted_step hb = ground arith

-- One round of ParseSynOptions on what each encoder writes into a long enough buffer reads the
-- value back and goes on with the bytes behind it: the segment size raised to 48, the window scale
-- lowered to 14, the time stamp, whose echo counts in a SYN-ACK only, and SACK-permitted.
pub parse_syn-encode :
    (b : List ℕ) (o : SynOptions) (is_ack : Bool) (fuel mss ws val ecr : ℕ)
    → 10 ≤ length b
    → 0 < mss
    → mss < 2 ^ 16
    → ws < 2 ^ 8
    → val < 2 ^ 32
    → ecr < 2 ^ 32
    → (parse_syn (suc fuel) is_ack (encode_mss_option mss b).1 o
        ≡ parse_syn fuel is_ack (drop 4 b) (record o { mss = clamped_mss mss }))
      × (parse_syn (suc fuel) is_ack (encode_ws_option ws b).1 o
          ≡ parse_syn fuel is_ack (drop 3 b) (record o { ws = some (clamped_ws ws) }))
      × (parse_syn (suc fuel) is_ack (encode_ts_option val ecr b).1 o
          ≡ parse_syn fuel is_ack
              (drop 10 b)
              (record o { ts = true; ts_val = val; ts_ecr = if is_ack then ecr else o.ts_ecr }))
      × (parse_syn (suc fuel) is_ack (encode_sack_permitted_option b).1 o
          ≡ parse_syn fuel is_ack (drop 2 b) (record o { sack_permitted = true }))
parse_syn-encode b o is_ack fuel mss ws val ecr hb h0 hm hw hv he = (
  mss_step b o is_ack fuel mss (omega arith) h0 hm,
  ws_step b o is_ack fuel ws (omega arith) hw,
  ts_step b o is_ack fuel val ecr hb hv he,
  sack_permitted_step b o is_ack fuel (omega arith),
)
