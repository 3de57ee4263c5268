-- ===== src/Net/Dotted.antt =====
-- Printing an address and reading it back.
use Prim.Native.Nat.{bit_and, bit_or, ◌^◌}
use evuproxy.Common.{
  ℕ, ◌+◌, ◌*◌, ◌/◌, ◌%◌, ◌<◌, ◌≡◌, refl, ◌∙◌, ap, Option, some, List, [], ◌∷◌, ◌++◌, ltb, if-either,
  arith,
}
use evuproxy.Net.{
  Glyph, dot, split_dots, number_from, octet, shift_in, fold_parts, four_parts, ipv4_to_int,
  digits_of, dotted, join_dots, int_to_ipv4,
}
use evuproxy.Net.Bits.{bit_and-low, bit_or_byte}

-- A printed number has digits alone, and is read back.
number_from-digits_of : (n : ℕ) → n < 1000 → number_from 0 (digits_of n) ≡ some n
number_from-digits_of n h =
    if-either (λ (t : List Glyph). number_from 0 t ≡ some n) (ltb n 10)
      (λ e. ap (λ k. some k) (omega arith))
      (λ _.
        if-either (λ (t : List Glyph). number_from 0 t ≡ some n) (ltb n 100)
          (λ e. ap (λ k. some k) (omega arith)) (λ _. ap (λ k. some k) (omega arith)))

-- The text up to the next dot is one part.
split_dots-digits_of :
    (n : ℕ) (text : List Glyph)
    → split_dots [] (digits_of n ++ (dot ∷ text)) ≡ digits_of n ∷ split_dots [] text
split_dots-digits_of n text =
    if-either (λ (t : List Glyph). split_dots [] (t ++ (dot ∷ text)) ≡ t ∷ split_dots [] text)
      (ltb n 10) (λ _. refl)
      (λ _.
        if-either (λ (t : List Glyph). split_dots [] (t ++ (dot ∷ text)) ≡ t ∷ split_dots [] text)
          (ltb n 100) (λ _. refl) (λ _. refl))

split_dots-last : (n : ℕ) → split_dots [] (digits_of n) ≡ digits_of n ∷ []
split_dots-last n =
    if-either (λ (t : List Glyph). split_dots [] t ≡ t ∷ []) (ltb n 10) (λ _. refl)
      (λ _.
        if-either (λ (t : List Glyph). split_dots [] t ≡ t ∷ []) (ltb n 100) (λ _. refl)
          (λ _. refl))

octet_lem : (n : ℕ) → n < 256 → octet (number_from 0 (digits_of n)) ≡ some n
octet_lem n h =
    ap octet (number_from-digits_of n (omega arith))
    ∙ (if-either (λ (o : Option ℕ). o ≡ some n) (ltb 255 n) (λ e. absurd (ground arith))
        (λ _. refl))

-- The last byte, by its mask.
low_byte : (n : ℕ) → n < 2 ^ 32 → bit_and n 255 ≡ n % 256
low_byte n h = omega (arith, bit_and-low 8 24 n (omega arith))

-- One round of the loop.
fold_parts_lem :
    (m a : ℕ) (parts : List (List Glyph))
    → m < 2 ^ 24
    → a < 256
    → fold_parts (some m) (digits_of a ∷ parts) ≡ fold_parts (some (m * 256 + a)) parts
fold_parts_lem m a parts hm ha =
    let fits : m * 256 % 2 ^ 32 ≡ m * 256 = omega arith in
    let joined : bit_or (m * 256 % 2 ^ 32) a % 2 ^ 32 ≡ m * 256 + a =
      ap (λ k. bit_or k a % 2 ^ 32) fits ∙ omega (arith, bit_or_byte m a ha) in
    ap (λ o. fold_parts (shift_in m o) parts) (octet_lem a ha)
    ∙ ap (λ k. fold_parts (some k) parts) joined

split_dots-dotted :
    (a b c d : ℕ)
    → split_dots [] (dotted a b c d) ≡ digits_of a ∷ digits_of b ∷ digits_of c ∷ digits_of d ∷ []
split_dots-dotted a b c d =
    let last = split_dots-last d in
    let two = split_dots-digits_of c (digits_of d) ∙ ap (λ t. digits_of c ∷ t) last in
    let three =
      split_dots-digits_of b (join_dots (digits_of c ∷ digits_of d ∷ []))
      ∙ ap (λ t. digits_of b ∷ t) two in
    split_dots-digits_of a (join_dots (digits_of b ∷ digits_of c ∷ digits_of d ∷ []))
    ∙ ap (λ t. digits_of a ∷ t) three

ipv4_to_int-dotted :
    (a b c d : ℕ)
    → a < 256
    → b < 256
    → c < 256
    → d < 256
    → ipv4_to_int (dotted a b c d) ≡ some (((a * 256 + b) * 256 + c) * 256 + d)
unfolding ipv4_to_int
ipv4_to_int-dotted a b c d ha hb hc hd =
    let start : 0 * 256 + a ≡ a = omega arith in
    ap four_parts (split_dots-dotted a b c d)
    ∙ fold_parts_lem 0 a (digits_of b ∷ digits_of c ∷ digits_of d ∷ []) (omega arith) ha
    ∙ ap (λ k. fold_parts (some k) (digits_of b ∷ digits_of c ∷ digits_of d ∷ [])) start
    ∙ fold_parts_lem a b (digits_of c ∷ digits_of d ∷ []) (omega arith) hb
    ∙ fold_parts_lem (a * 256 + b) c (digits_of d ∷ []) (omega arith) hc
    ∙ fold_parts_lem ((a * 256 + b) * 256 + c) d [] (omega arith) hd

rewritten :
    {a b c d a' b' c' d' : ℕ}
    → a ≡ a'
    → b ≡ b'
    → c ≡ c'
    → d ≡ d'
    → ipv4_to_int (dotted a b c d) ≡ ipv4_to_int (dotted a' b' c' d')
rewritten e f g h = cc (e, f, g, h)

-- A 32-bit number that is printed as an address and read back is the same number.
pub ipv4_to_int-int_to_ipv4 : (n : ℕ) → n < 2 ^ 32 → ipv4_to_int (int_to_ipv4 n) ≡ some n
unfolding int_to_ipv4
ipv4_to_int-int_to_ipv4 n h =
    let whole : n % 2 ^ 32 ≡ n = omega arith in
    let a : bit_and (n % 2 ^ 32 / 2 ^ 24) 255 ≡ n / 2 ^ 24 =
      rw whole (omega (arith, low_byte (n / 2 ^ 24) (omega arith))) in
    let b : bit_and (n % 2 ^ 32 / 2 ^ 16) 255 ≡ n / 2 ^ 16 % 256 =
      rw whole (omega (arith, low_byte (n / 2 ^ 16) (omega arith))) in
    let c : bit_and (n % 2 ^ 32 / 2 ^ 8) 255 ≡ n / 2 ^ 8 % 256 =
      rw whole (omega (arith, low_byte (n / 2 ^ 8) (omega arith))) in
    let d : bit_and (n % 2 ^ 32) 255 ≡ n % 256 = rw whole (low_byte n h) in
    let whole_again : (((n / 2 ^ 24 * 256 + n / 2 ^ 16 % 256) * 256 + n / 2 ^ 8 % 256) * 256
          + n % 256)
        ≡ n =
      omega arith in
    rewritten a b c d
    ∙ ipv4_to_int-dotted (n / 2 ^ 24) (n / 2 ^ 16 % 256) (n / 2 ^ 8 % 256) (n % 256) (omega arith)
        (omega arith) (omega arith) (omega arith)
    ∙ ap (λ k. some k) whole_again
