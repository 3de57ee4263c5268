-- ===== src/Net/Examples.antt =====
-- 10.0.0.5, its range of 24 bits, and what is read as an address.
use evuproxy.Common.{◌-◌, ◌≡◌, ◌↔◌, refl, true, some, List, [], ◌∷◌, arith}
use evuproxy.Net.{
  Glyph, digit, dot, slash, ipv4_to_int, int_to_ipv4, range_of, ip_in_cidr, parse_ipv4_cidr,
  ipv4_covered_by_cidr_list,
}
use evuproxy.Net.Bits.{leading}
use evuproxy.Net.Dotted.{ipv4_to_int-int_to_ipv4}
use evuproxy.Net.Ranges.{ip_in_cidr-range_of}

abbrev host : List Glyph
host = digit 1 ∷ digit 0 ∷ dot ∷ digit 0 ∷ dot ∷ digit 0 ∷ dot ∷ digit 5 ∷ []

abbrev range_text : List Glyph
range_text =
    digit 1
    ∷ digit 0
    ∷ dot
    ∷ digit 0
    ∷ dot
    ∷ digit 0
    ∷ dot
    ∷ digit 9
    ∷ slash
    ∷ digit 2
    ∷ digit 4
    ∷ []

printed : int_to_ipv4 167772165 ≡ host
unfolding int_to_ipv4
printed = refl

parsed :
    parse_ipv4_cidr range_text
    ≡ some (record { network = 167772160; broadcast = 167772415; prefix = 24; mask = 0xffffff00 })
unfolding parse_ipv4_cidr
parsed = refl

covered : ipv4_covered_by_cidr_list host ([] ∷ (digit 1 ∷ []) ∷ range_text ∷ []) ≡ true
unfolding ipv4_covered_by_cidr_list
covered = refl

-- An empty part counts as 0.
empty_part : ipv4_to_int (digit 1 ∷ digit 0 ∷ dot ∷ dot ∷ dot ∷ digit 5 ∷ []) ≡ some 167772165
unfolding ipv4_to_int
empty_part = refl

ipv4_to_int-int_to_ipv4_example : ipv4_to_int (int_to_ipv4 167772165) ≡ some 167772165
ipv4_to_int-int_to_ipv4_example = ipv4_to_int-int_to_ipv4 167772165 (omega arith)

ip_in_cidr-range_of_example :
    (ip_in_cidr 167772200 (range_of 167772165 24) ≡ true)
    ↔ (leading (32 - 24) 167772200 ≡ leading (32 - 24) 167772165)
ip_in_cidr-range_of_example =
    ip_in_cidr-range_of 167772165 167772200 24 (omega arith) (omega arith) (omega arith)
