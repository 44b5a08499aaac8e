-- ===== src/Dhcp/Runs.antt =====
-- The theorems on tek/utils/dhcp.c at one exchange.
use tek.Base.{ℕ, ◌≡◌, refl, Option, none, List, [], ◌∷◌, ◌++◌, arith}
use tek.Dhcp.{
  Dhcp, bytes4, dhcp_output, fill_dhcp_discovery_options, fill_dhcp_request_options, layout, got,
  bound, discovery, request, dhcp_main,
}
use tek.Dhcp.Options.{options, options-fill_dhcp}
use tek.Dhcp.Handshake.{dhcp_main-offer}

abbrev host : List ℕ
host = 116 ∷ 101 ∷ 107 ∷ []

abbrev card : List ℕ
card = 8 ∷ 0 ∷ 17 ∷ 1 ∷ 2 ∷ 3 ∷ []

abbrev none_sent : ℕ → Option ℕ
none_sent n = none

-- A reply to the packet numbered 77 that offers 192.168.0.5.
abbrev reply : Dhcp
reply = record (dhcp_output card 0 77) { opcode = 2; yiaddr = 3232235525 }

options-fill_dhcp_example :
    (options 4 (fill_dhcp_discovery_options host)
      ≡ (53, 1 ∷ []) ∷ (55, 1 ∷ 3 ∷ 6 ∷ 15 ∷ []) ∷ (12, host) ∷ [])
    × (options 4 (fill_dhcp_request_options host 3232235525)
        ≡ (53, 3 ∷ []) ∷ (50, bytes4 3232235525) ∷ (12, host) ∷ [])
options-fill_dhcp_example = options-fill_dhcp 0 host 3232235525 (omega arith)

-- A packet of another kind comes first.
dhcp_main-offer_example :
    dhcp_main card host 0 77 78 none_sent (got (1 ∷ []) ∷ got (layout reply ++ []) ∷ [])
    ≡ (discovery card host 0 77 ∷ request card host 0 78 3232235525 ∷ [], bound 3232235525)
unfolding dhcp_output
dhcp_main-offer_example =
    dhcp_main-offer card host 0 77 78 none_sent (got (1 ∷ []) ∷ []) [] reply [] refl refl (refl, tt)
      refl refl (omega arith) (omega arith)
