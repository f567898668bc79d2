-- ===== src/Tcp/Examples.antt =====
-- The theorems about TCP options at concrete options.
use sing_tun.Base.{
  ℕ, ◌-◌, ◌/◌, length, ◌≡◌, true, some, List, [], ◌∷◌, drop, take, if◌then◌else◌, arith,
}
use sing_tun.Tcp.{
  SynOptions, no_syn_options, parse_syn, parse_syn_options, encode_mss_option, encode_ws_option,
  encode_ts_option, encode_sack_permitted_option, Options, SackBlock, no_options, parse_tcp_options,
  encode_sack_blocks,
}
use sing_tun.Tcp.Syn.{parse_syn_options_total, parse_syn-encode, clamped_mss, clamped_ws}
use sing_tun.Tcp.Sack.{parse_tcp_options_total, parse-encode_sack_blocks}

-- An MSS of 1460, padding, and an option whose length is wrong.
abbrev syn : List ℕ
syn = 2 ∷ 4 ∷ 5 ∷ 180 ∷ 1 ∷ 30 ∷ 1 ∷ []

abbrev zeros : List ℕ
zeros = 0 ∷ 0 ∷ 0 ∷ 0 ∷ 0 ∷ 0 ∷ 0 ∷ 0 ∷ 0 ∷ 0 ∷ 0 ∷ 0 ∷ []

parse_syn_options_total_example : (r : SynOptions) × (parse_syn_options syn true ≡ some r)
parse_syn_options_total_example = parse_syn_options_total syn true

parse_tcp_options_total_example : (r : Options) × (parse_tcp_options syn ≡ some r)
parse_tcp_options_total_example = parse_tcp_options_total syn

parse_syn-encode_example :
    (parse_syn 3 true (encode_mss_option 1460 zeros).1 no_syn_options
      ≡ parse_syn 2 true (drop 4 zeros) (record no_syn_options { mss = clamped_mss 1460 }))
    × (parse_syn 3 true (encode_ws_option 7 zeros).1 no_syn_options
        ≡ parse_syn 2 true (drop 3 zeros) (record no_syn_options { ws = some (clamped_ws 7) }))
    × (parse_syn 3 true (encode_ts_option 11 12 zeros).1 no_syn_options
        ≡ parse_syn 2 true (drop 10 zeros) (record no_syn_options {
          ts = true;
          ts_val = 11;
          ts_ecr = if true then 12 else no_syn_options.ts_ecr;
        }))
    × (parse_syn 3 true (encode_sack_permitted_option zeros).1 no_syn_options
        ≡ parse_syn 2 true (drop 2 zeros) (record no_syn_options { sack_permitted = true }))
parse_syn-encode_example =
    parse_syn-encode zeros no_syn_options true 2 1460 7 11 12 (omega arith) (omega arith)
      (omega arith) (omega arith) (omega arith) (omega arith)

abbrev blocks : List SackBlock
blocks = record { start = 100; end = 200 } ∷ record { start = 4294967290; end = 5 } ∷ []

parse-encode_sack_blocks_example :
    parse_tcp_options (take (encode_sack_blocks blocks zeros).0 (encode_sack_blocks blocks zeros).1)
    ≡ some (record no_options { sack_blocks = take 4 (take ((length zeros - 2) / 8) blocks) })
parse-encode_sack_blocks_example =
    parse-encode_sack_blocks blocks zeros
      ((omega arith, omega arith), ((omega arith, omega arith), tt))
