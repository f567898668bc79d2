-- ===== src/Tcp.antt =====
-- TCP options of internal/gtcpip/header/tcp.go. The list that a parser has left is `opts[i:]`, so
-- `i+k > limit` says that it has fewer than k bytes.
pub mod Syn
pub mod Sack
mod Examples
use sing_tun.Base.{
  ℕ, zero, suc, ◌+◌, ◌-◌, ◌*◌, ◌/◌, ◌%◌, ◌^◌, Bool, true, false, not, ◌||◌, ◌&&◌, Option, none,
  some, List, [], ◌∷◌, ◌++◌, length, take, drop, ltb, leb, ◌==◌, if◌then◌else◌,
}

-- binary.BigEndian.PutUint32 and Uint32
abbrev pub be32 : ℕ → List ℕ
be32 v = v / 2 ^ 24 % 256 ∷ v / 2 ^ 16 % 256 ∷ v / 2 ^ 8 % 256 ∷ v % 256 ∷ []

abbrev pub uint32 : ℕ → ℕ → ℕ → ℕ → ℕ
uint32 a b c d = ((a * 256 + b) * 256 + c) * 256 + d

-- TCPSynOptions; `ws` is `none` where the source has -1.
pub record SynOptions : Type 0 where
  pub mss : ℕ
  pub ws : Option ℕ
  pub ts : Bool
  pub ts_val : ℕ
  pub ts_ecr : ℕ
  pub sack_permitted : Bool
  pub flags : ℕ

-- A round of a parser: return, or go on with the rest.
pub data Next (O : Type 0) : Type 0 where
  stop : O → Next O
  more : List ℕ → O → Next O

abbrev pub default_mss : ℕ
default_mss = 536

abbrev pub minimum_send_mss : ℕ
minimum_send_mss = 48

abbrev pub max_wnd_scale : ℕ
max_wnd_scale = 14

pub syn_mss : SynOptions → List ℕ → Next SynOptions
syn_mss o (l ∷ a ∷ b ∷ rest) =
    let mss = a * 256 + b in
    if not (l == 4)
    then stop o
    else if mss == 0
    then stop o
    else more rest (record o { mss = if ltb mss minimum_send_mss then minimum_send_mss else mss })
syn_mss o _ = stop o

pub syn_ws : SynOptions → List ℕ → Next SynOptions
syn_ws o (l ∷ w ∷ rest) =
    if not (l == 3)
    then stop o
    else more rest (record o { ws = some (if ltb max_wnd_scale w then max_wnd_scale else w) })
syn_ws o _ = stop o

pub syn_ts : Bool → SynOptions → List ℕ → Next SynOptions
syn_ts is_ack o (l ∷ a ∷ b ∷ c ∷ d ∷ e ∷ f ∷ g ∷ h ∷ rest) =
    if not (l == 10)
    then stop o
    else more rest (record o {
      ts = true;
      ts_val = uint32 a b c d;
      ts_ecr = if is_ack then uint32 e f g h else o.ts_ecr;
    })
syn_ts is_ack o _ = stop o

pub syn_sack_permitted : SynOptions → List ℕ → Next SynOptions
syn_sack_permitted o (l ∷ rest) =
    if not (l == 2) then stop o else more rest (record o { sack_permitted = true })
syn_sack_permitted o [] = stop o

-- An option that the parser does not know is skipped by its length, which counts the option's kind
-- and length too: `i += l`.
pub skip_option : {O : Type 0} → O → List ℕ → Next O
skip_option o (kind ∷ l ∷ rest) =
    if ltb l 2 || ltb (length rest + 2) l then stop o else more (drop l (kind ∷ l ∷ rest)) o
skip_option o _ = stop o

-- The switch on the option's kind.
pub syn_option : Bool → SynOptions → ℕ → List ℕ → Next SynOptions
syn_option is_ack o kind rest =
    if kind == 0
    then stop o
    else if kind == 1
    then more rest o
    else if kind == 2
    then syn_mss o rest
    else if kind == 3
    then syn_ws o rest
    else if kind == 8
    then syn_ts is_ack o rest
    else if kind == 4
    then syn_sack_permitted o rest
    else skip_option o (kind ∷ rest)

-- `for i < limit`; `none` says that the fuel ran out.
pub parse_syn : ℕ → Bool → List ℕ → SynOptions → Option SynOptions
parse_syn zero is_ack opts o = none
parse_syn (suc fuel) is_ack [] o = some o
parse_syn (suc fuel) is_ack (kind ∷ rest) o = elim (syn_option is_ack o kind rest) [
  | stop o' ↦ some o'
  | more rest' o' ↦ parse_syn fuel is_ack rest' o'
]

abbrev pub no_syn_options : SynOptions
no_syn_options = record {
  mss = default_mss;
  ws = none;
  ts = false;
  ts_val = 0;
  ts_ecr = 0;
  sack_permitted = false;
  flags = 0;
}

-- ParseSynOptions, with one unit of fuel more than there are bytes.
pub parse_syn_options : List ℕ → Bool → Option SynOptions
parse_syn_options opts is_ack = parse_syn (length opts + 1) is_ack opts no_syn_options

-- The encoders write at the front of a buffer, and return how many bytes they wrote.
pub encode_mss_option : ℕ → List ℕ → ℕ × List ℕ
encode_mss_option mss b =
    if ltb (length b) 4 then (0, b) else (4, 2 ∷ 4 ∷ mss / 2 ^ 8 % 256 ∷ mss % 256 ∷ drop 4 b)

pub encode_ws_option : ℕ → List ℕ → ℕ × List ℕ
encode_ws_option ws b = if ltb (length b) 3 then (0, b) else (3, 3 ∷ 3 ∷ ws % 256 ∷ drop 3 b)

pub encode_ts_option : ℕ → ℕ → List ℕ → ℕ × List ℕ
encode_ts_option ts_val ts_ecr b =
    if ltb (length b) 10 then (0, b) else (10, 8 ∷ 10 ∷ (be32 ts_val ++ (be32 ts_ecr ++ drop 10 b)))

pub encode_sack_permitted_option : List ℕ → ℕ × List ℕ
encode_sack_permitted_option b = if ltb (length b) 2 then (0, b) else (2, 4 ∷ 2 ∷ drop 2 b)

pub encode_nop : List ℕ → ℕ × List ℕ
encode_nop [] = (0, [])
encode_nop (x ∷ b) = (1, 1 ∷ b)

-- SACKBlock and TCPOptions
pub record SackBlock : Type 0 where
  pub start : ℕ
  pub end : ℕ

pub record Options : Type 0 where
  pub ts : Bool
  pub ts_val : ℕ
  pub ts_ecr : ℕ
  pub sack_blocks : List SackBlock

pub opt_ts : Options → List ℕ → Next Options
opt_ts o (l ∷ a ∷ b ∷ c ∷ d ∷ e ∷ f ∷ g ∷ h ∷ rest) =
    if not (l == 10)
    then stop o
    else more rest (record o { ts = true; ts_val = uint32 a b c d; ts_ecr = uint32 e f g h })
opt_ts o _ = stop o

-- The loop over the blocks. A list that is too short does not occur: the length was checked.
pub read_blocks : ℕ → List ℕ → List SackBlock
read_blocks (suc n) (a ∷ b ∷ c ∷ d ∷ e ∷ f ∷ g ∷ h ∷ rest) =
    record { start = uint32 a b c d; end = uint32 e f g h } ∷ read_blocks n rest
read_blocks _ _ = []

-- `(l-2)%8 != 0` holds for the lengths 0 and 1 too, where l-2 is negative. The list is the whole
-- option, and the loop goes on with `i += l`.
pub opt_sack : Options → List ℕ → Next Options
opt_sack o (kind ∷ l ∷ rest) =
    if ltb (length rest + 2) l || (ltb l 2 || not ((l - 2) % 8 == 0))
    then stop o
    else more (drop l (kind ∷ l ∷ rest)) (record o { sack_blocks = read_blocks ((l - 2) / 8) rest })
opt_sack o _ = stop o

pub tcp_option : Options → ℕ → List ℕ → Next Options
tcp_option o kind rest =
    if kind == 0
    then stop o
    else if kind == 1
    then more rest o
    else if kind == 8
    then opt_ts o rest
    else if kind == 5
    then opt_sack o (kind ∷ rest)
    else skip_option o (kind ∷ rest)

pub parse_tcp : ℕ → List ℕ → Options → Option Options
parse_tcp zero b o = none
parse_tcp (suc fuel) [] o = some o
parse_tcp (suc fuel) (kind ∷ rest) o = elim (tcp_option o kind rest) [
  | stop o' ↦ some o'
  | more rest' o' ↦ parse_tcp fuel rest' o'
]

abbrev pub no_options : Options
no_options = record { ts = false; ts_val = 0; ts_ecr = 0; sack_blocks = [] }

-- ParseTCPOptions
pub parse_tcp_options : List ℕ → Option Options
parse_tcp_options b = parse_tcp (length b + 1) b no_options

-- The writes of the loop in EncodeSACKBlocks, block after block.
pub write_blocks : List SackBlock → List ℕ
write_blocks [] = []
write_blocks (s ∷ blocks) = be32 s.start ++ (be32 s.end ++ write_blocks blocks)

-- How many blocks fit: at most four, and at most what the buffer holds.
pub fitting_blocks : List SackBlock → List ℕ → ℕ
fitting_blocks blocks b =
    let l = if ltb 4 (length blocks) then 4 else length blocks in
    let ll = (length b - 2) / 8 in if ltb ll l then ll else l

-- EncodeSACKBlocks
pub encode_sack_blocks : List SackBlock → List ℕ → ℕ × List ℕ
encode_sack_blocks [] b = (0, b)
encode_sack_blocks (s ∷ blocks) b =
    let l = fitting_blocks (s ∷ blocks) b in
    if l == 0
    then (0, b)
    else (l * 8 + 2, 5 ∷ (l * 8 + 2) ∷ (write_blocks (take l (s ∷ blocks)) ++ drop (l * 8 + 2) b))
