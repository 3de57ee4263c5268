-- ===== src/Net.antt =====
-- web/static/js/core/net.js: IPv4 addresses and ranges. A text is given by its digits, dots and
-- slashes; other characters, which no address has, and spaces around a text are left out. A 32-bit
-- number keeps its wrap-around written out.
pub mod Bits
pub mod Dotted
pub mod Ranges
mod Examples
use Prim.Native.Nat.{bit_and, bit_or, ◌^◌}
use evuproxy.Common.{
  ℕ, zero, suc, ◌+◌, ◌-◌, ◌*◌, ◌/◌, ◌%◌, Bool, true, false, not, ◌&&◌, Option, none, some, List, [],
  ◌∷◌, ◌++◌, ◌==◌, leb, ltb, if◌then◌else◌,
}

pub data Glyph : Type 0 where
  digit : ℕ → Glyph
  dot slash : Glyph

-- `split(".")` of what follows `part`.
abbrev pub split_dots : List Glyph → List Glyph → List (List Glyph)
split_dots part [] = part ∷ []
split_dots part (dot ∷ text) = part ∷ split_dots [] text
split_dots part (digit d ∷ text) = split_dots (part ++ digit d ∷ []) text
split_dots part (slash ∷ text) = split_dots (part ++ slash ∷ []) text

-- `+p`: the empty text counts as 0, and one with a dot or slash is no number.
abbrev pub number_from : ℕ → List Glyph → Option ℕ
number_from n [] = some n
number_from n (digit d ∷ text) = number_from (n * 10 + d) text
number_from n (dot ∷ text) = none
number_from n (slash ∷ text) = none

-- The loop over the four parts. A number beyond 2 ^ 31 fails `x !== (x | 0)`, and so does one that is
-- more than 255 fail the test behind it.
abbrev pub octet : Option ℕ → Option ℕ
octet none = none
octet (some x) = if ltb 255 x then none else some x

abbrev pub shift_in : ℕ → Option ℕ → Option ℕ
shift_in n none = none
shift_in n (some x) = some (bit_or (n * 256 % 2 ^ 32) x % 2 ^ 32)

abbrev pub fold_parts : Option ℕ → List (List Glyph) → Option ℕ
fold_parts none parts = none
fold_parts (some n) [] = some n
fold_parts (some n) (p ∷ parts) = fold_parts (shift_in n (octet (number_from 0 p))) parts

abbrev pub four_parts : List (List Glyph) → Option ℕ
four_parts (a ∷ b ∷ c ∷ d ∷ []) = fold_parts (some 0) (a ∷ b ∷ c ∷ d ∷ [])
four_parts _ = none

unfoldable pub ipv4_to_int : List Glyph → Option ℕ
ipv4_to_int text = four_parts (split_dots [] text)

-- A number below 1000, printed.
abbrev pub digits_of : ℕ → List Glyph
digits_of n =
    if ltb n 10
    then digit n ∷ []
    else if ltb n 100
    then digit (n / 10) ∷ digit (n % 10) ∷ []
    else digit (n / 100) ∷ digit (n / 10 % 10) ∷ digit (n % 10) ∷ []

abbrev pub join_dots : List (List Glyph) → List Glyph
join_dots [] = []
join_dots (p ∷ []) = p
join_dots (p ∷ q ∷ parts) = p ++ (dot ∷ join_dots (q ∷ parts))

abbrev pub dotted : ℕ → ℕ → ℕ → ℕ → List Glyph
dotted a b c d = join_dots (digits_of a ∷ digits_of b ∷ digits_of c ∷ digits_of d ∷ [])

unfoldable pub int_to_ipv4 : ℕ → List Glyph
int_to_ipv4 m =
    let n = m % 2 ^ 32 in
    dotted (bit_and (n / 2 ^ 24) 255) (bit_and (n / 2 ^ 16) 255) (bit_and (n / 2 ^ 8) 255)
      (bit_and n 255)

pub record Range : Type 0 where
  pub network : ℕ
  pub broadcast : ℕ
  pub prefix : ℕ
  pub mask : ℕ

-- `-1 << (32 - prefix)`, with `-1` as 32 ones. JavaScript shifts by the amount's five lowest bits.
unfoldable pub mask_of : ℕ → ℕ
mask_of prefix = 0xffffffff * 2 ^ ((32 - prefix) % 32) % 2 ^ 32

unfoldable pub range_of : ℕ → ℕ → Range
unfolding mask_of
range_of ip prefix =
    let mask = mask_of prefix in
    let network = bit_and ip mask in
    if prefix == 32
    then record { network = ip; broadcast = ip; prefix = prefix; mask = 0xffffffff }
    else if prefix == 0
    then record { network = 0; broadcast = 0xffffffff; prefix = prefix; mask = 0 }
    else record {
      network = network;
      broadcast = bit_or network (0xffffffff - mask);
      prefix = prefix;
      mask = mask;
    }

abbrev pub range_at : Option ℕ → Option ℕ → Option Range
range_at none prefix = none
range_at (some ip) none = none
range_at (some ip) (some prefix) = if ltb 32 prefix then none else some (range_of ip prefix)

-- What is before the first slash, and behind it.
abbrev pub cut_slash : List Glyph → List Glyph → Option (List Glyph × List Glyph)
cut_slash before [] = none
cut_slash before (slash ∷ text) = some (before, text)
cut_slash before (dot ∷ text) = cut_slash (before ++ dot ∷ []) text
cut_slash before (digit d ∷ text) = cut_slash (before ++ digit d ∷ []) text

abbrev pub is_empty_text : List Glyph → Bool
is_empty_text [] = true
is_empty_text (c ∷ text) = false

-- The expression wants a character before the slash and digits alone behind it.
abbrev pub parse_halves : Option (List Glyph × List Glyph) → Option Range
parse_halves none = none
parse_halves (some (address, prefix)) =
    let range = range_at (four_parts (split_dots [] address)) (number_from 0 prefix) in
    if not (is_empty_text address) && not (is_empty_text prefix) then range else none

unfoldable pub parse_ipv4_cidr : List Glyph → Option Range
unfolding range_of
parse_ipv4_cidr text = parse_halves (cut_slash [] text)

abbrev pub ip_in_cidr : ℕ → Range → Bool
ip_in_cidr ip range = leb range.network ip && leb ip range.broadcast

-- One entry of a list: a range where it has a slash, else an address.
abbrev has_slash : List Glyph → Bool
has_slash [] = false
has_slash (slash ∷ text) = true
has_slash (dot ∷ text) = has_slash text
has_slash (digit d ∷ text) = has_slash text

abbrev in_range : ℕ → Option Range → Bool
in_range ip none = false
in_range ip (some range) = ip_in_cidr ip range

abbrev is_address : ℕ → Option ℕ → Bool
is_address ip none = false
is_address ip (some other) = other == ip

unfoldable pub entry_covers : ℕ → List Glyph → Bool
unfolding parse_ipv4_cidr ipv4_to_int
entry_covers ip entry =
    if has_slash entry
    then in_range ip (parse_ipv4_cidr entry)
    else is_address ip (ipv4_to_int entry)

abbrev covers : ℕ → List (List Glyph) → Bool
covers ip [] = false
covers ip (entry ∷ entries) =
    let rest = covers ip entries in
    if is_empty_text entry then rest else if entry_covers ip entry then true else rest

abbrev covers_from : Option ℕ → List (List Glyph) → Bool
covers_from none entries = false
covers_from (some ip) entries = covers ip entries

unfoldable pub ipv4_covered_by_cidr_list : List Glyph → List (List Glyph) → Bool
unfolding entry_covers
ipv4_covered_by_cidr_list ip entries = covers_from (four_parts (split_dots [] ip)) entries
