-- ===== src/System/Kept.antt =====
-- What the packets leave of the stack's state (stack_system.go).
use sing_tun.Base.{ℕ, length, ◌≡◌, Option, some, List}
use sing_tun.Base.Bytes.{◌>>=◌, bind_some}
use sing_tun.Base.Ends.{Ends, some-Ends, bind-Ends, if_Ends, option-Ends}
use sing_tun.Header.{ip_version, ipv4_is_valid}
use sing_tun.System.{System, Step, ipv4_packet}
use sing_tun.System.Icmp.{Direct}
use sing_tun.System.Process.{Processed, process_packet, finished, ignored}
use sing_tun.System.Keeping.{Keeps, Keeps-self, KeepsStep}
use sing_tun.Header.Ipv6.{ipv6_is_valid}
use sing_tun.System.Six.{ipv6_packet}
use sing_tun.System.Kept4.{ipv4_keeps}
use sing_tun.System.Six.Kept.{ipv6_keeps}

module _ (s : System) where
  abbrev KeepsAll : Processed → Type 0
  KeepsAll r = Keeps s r.system

  kept_finish :
      (made : Option Step)
      → Ends (KeepsStep s) made
      → Ends KeepsAll (made >>= λ st. some (finished st))
  kept_finish made h r e =
      let (st, same, done) = bind_some made _ e in
      some-Ends KeepsAll (finished st) (h st same) r done

-- Whatever packet comes, if processPacket does not panic, it changes nothing of System but the NATs:
-- a nil NAT stays nil, and a NAT stays one and keeps its invariant.
pub process_packet-Keeps :
    (s : System) (now : ℕ) (direct4 direct6 : ℕ → ℕ → Direct) (stale b : List ℕ) (r : Processed)
    → process_packet s now direct4 direct6 stale b ≡ some r
    → Keeps s r.system
unfolding process_packet
process_packet-Keeps s now direct4 direct6 stale b r =
    let idle = some-Ends (KeepsAll s) (ignored s b) (Keeps-self s) in
    option-Ends (KeepsAll s) (ip_version b) _ _ idle
      (λ version.
        if_Ends (KeepsAll s) _ _ _
          (bind-Ends (KeepsAll s) (ipv4_is_valid b (length b)) _ λ valid.
            if_Ends (KeepsAll s) _ _ _ idle (
              bind-Ends (KeepsAll s) (ipv4_packet b) _
                λ p. kept_finish s _ (ipv4_keeps s now direct4 stale p)))
          (if_Ends (KeepsAll s) _ _ _
            (bind-Ends (KeepsAll s) (ipv6_is_valid b (length b)) _ λ valid.
              if_Ends (KeepsAll s) _ _ _ idle (
                bind-Ends (KeepsAll s) (ipv6_packet b) _
                  λ p. kept_finish s _ (ipv6_keeps s now direct6 stale p)))
            idle))
      r
