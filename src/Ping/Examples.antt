-- ===== src/Ping/Examples.antt =====
-- The theorems about the source rewriter at an echo request from 10.0.0.1 to 1.2.3.4.
use sing_tun.Base.{ℕ, ◌≡◌, refl, none, some, List, [], ◌∷◌, arith, All}
use sing_tun.Base.Bytes.{get8, get16}
use sing_tun.Checksum.Words.{IsByte}
use sing_tun.Header.{ip_version, header_length, total_length, payload_length}
use sing_tun.Ping.{
  SourceRewriter, new_source_rewriter, create_session, remember, rewrite_packet, unanswered,
  write_back, payload_range, net_transport,
}
use sing_tun.Ping.Reply.{Set4}
use sing_tun.Ping.Restore.{IsEcho4, session_of, write_back-rewrite_packet, write_back_stray}

abbrev interface_address : List ℕ
interface_address = 172 ∷ 18 ∷ 0 ∷ 1 ∷ []

abbrev client : List ℕ
client = 10 ∷ 0 ∷ 0 ∷ 1 ∷ []

abbrev request : List ℕ
request =
    69 ∷ 0 ∷ 0 ∷ 28 ∷ 0 ∷ 7 ∷ 0 ∷ 0 ∷ 64 ∷ 1 ∷ 0 ∷ 0 ∷ 10 ∷ 0 ∷ 0 ∷ 1 ∷ 1 ∷ 2 ∷ 3 ∷ 4 ∷ 8 ∷ 0 ∷ 0
    ∷ 0 ∷ 0 ∷ 5 ∷ 0 ∷ 1 ∷ []

-- The reply from 1.2.3.4, and a packet with the same identifier from 1.2.3.5.
abbrev echo : List ℕ
echo =
    69 ∷ 0 ∷ 0 ∷ 28 ∷ 0 ∷ 7 ∷ 0 ∷ 0 ∷ 64 ∷ 1 ∷ 0 ∷ 0 ∷ 1 ∷ 2 ∷ 3 ∷ 4 ∷ 172 ∷ 18 ∷ 0 ∷ 1 ∷ 0 ∷ 0 ∷ 0
    ∷ 0 ∷ 0 ∷ 5 ∷ 0 ∷ 1 ∷ []

abbrev stray : List ℕ
stray =
    69 ∷ 0 ∷ 0 ∷ 28 ∷ 0 ∷ 7 ∷ 0 ∷ 0 ∷ 64 ∷ 1 ∷ 0 ∷ 0 ∷ 1 ∷ 2 ∷ 3 ∷ 5 ∷ 172 ∷ 18 ∷ 0 ∷ 1 ∷ 0 ∷ 0 ∷ 0
    ∷ 0 ∷ 0 ∷ 5 ∷ 0 ∷ 1 ∷ []

abbrev rewriter : SourceRewriter
rewriter = create_session (new_source_rewriter interface_address []) (session_of request) 7

abbrev waiting : SourceRewriter
waiting = remember rewriter 5 (some client)

request-IsEcho4 : IsEcho4 request 20 8 client 5
unfolding payload_range net_transport ip_version header_length payload_length total_length get8
    get16
request-IsEcho4 = record {
  ping = record {
    header = record {
      all_bytes = grind arith;
      header_eq = refl;
      room = omega arith;
      inside = omega arith;
    };
    range = refl;
    inside = omega arith;
    message = omega arith;
    protocol = refl;
  };
  version = refl;
  from = refl;
  id_eq = refl;
}

echo-IsEcho4 : IsEcho4 echo 20 8 (1 ∷ 2 ∷ 3 ∷ 4 ∷ []) 5
unfolding payload_range net_transport ip_version header_length payload_length total_length get8
    get16
echo-IsEcho4 = record {
  ping = record {
    header = record {
      all_bytes = grind arith;
      header_eq = refl;
      room = omega arith;
      inside = omega arith;
    };
    range = refl;
    inside = omega arith;
    message = omega arith;
    protocol = refl;
  };
  version = refl;
  from = refl;
  id_eq = refl;
}

stray-IsEcho4 : IsEcho4 stray 20 8 (1 ∷ 2 ∷ 3 ∷ 5 ∷ []) 5
unfolding payload_range net_transport ip_version header_length payload_length total_length get8
    get16
stray-IsEcho4 = record {
  ping = record {
    header = record {
      all_bytes = grind arith;
      header_eq = refl;
      room = omega arith;
      inside = omega arith;
    };
    range = refl;
    inside = omega arith;
    message = omega arith;
    protocol = refl;
  };
  version = refl;
  from = refl;
  id_eq = refl;
}

interface_bytes : All IsByte interface_address
interface_bytes = grind arith

write_back-rewrite_packet_example :
    (m : SourceRewriter) × (p r : List ℕ) × (rewrite_packet rewriter request ≡ some (m, p))
    × Set4 request 20 8 12 interface_address p
    × (write_back m echo
        ≡ some (record { rewriter = remember m 5 none; packet = r; context = some 7 }))
    × Set4 echo 20 8 16 client r
write_back-rewrite_packet_example =
    write_back-rewrite_packet rewriter request echo 20 8 20 8 5 7 request-IsEcho4 echo-IsEcho4 refl
      interface_bytes refl

write_back_stray_example :
    (write_back waiting stray ≡ some (unanswered (remember waiting 5 none) stray))
    × (write_back (remember waiting 5 none) echo ≡ some (unanswered (remember waiting 5 none) echo))
write_back_stray_example =
    write_back_stray waiting stray echo 20 8 20 8 5 (1 ∷ 2 ∷ 3 ∷ 4 ∷ []) (1 ∷ 2 ∷ 3 ∷ 5 ∷ []) client
      stray-IsEcho4 echo-IsEcho4 refl refl
