-- ===== src/Net/Ranges.antt =====
-- A range holds the addresses whose first bits are those of its address.
use Prim.Native.Nat.{bit_and, bit_or}
use mathlib.Core.Path.{subst}
use evuproxy.Common.{
  ℕ, zero, suc, ◌+◌, ◌-◌, ◌/◌, ◌≤◌, ◌<◌, ◌≡◌, ◌↔◌, refl, sym, ◌∙◌, ap, ◌⊎◌, inl, inr, Bool-cases,
  Bool, true, false, ◌&&◌, ◌==◌, leb, arith,
}
use evuproxy.Net.{Range, mask_of, range_of, ip_in_cidr}
use evuproxy.Net.Bits.{ones, high, full, leading, top, bit_and-high, bit_or-top, same_leading}

abbrev agrees_below : ℕ → (ℕ → Bool) → Bool
agrees_below zero p = true
agrees_below (suc n) p = p n && agrees_below n p

agrees_below_sound : (n : ℕ) (p : ℕ → Bool) (k : ℕ) → agrees_below n p ≡ true → k < n → p k ≡ true
agrees_below_sound zero p k e h = absurd (omega arith)
agrees_below_sound (suc n) p k e h = ground (arith, agrees_below_sound n p k)

all_three :
    (a b c d e f : ℕ) → ((a == b) && (c == d) && (e == f)) ≡ true → (a ≡ b) × (c ≡ d) × (e ≡ f)
all_three a b c d e f h = (ground arith, ground arith, ground arith)

between : (n b x : ℕ) → ((leb n x && leb x b) ≡ true) ↔ ((n ≤ x) × (x ≤ b))
between n b x = (λ h. (ground arith, ground arith), λ h. ground arith)

leading_full : (n a : ℕ) → a ≤ ones n → leading n a ≡ 0
leading_full zero a h = omega arith
leading_full (suc n) a h = leading_full n (a / 2) (omega arith)

-- The mask, what it takes away, and the bits of an address, for each prefix but 0 and 32.
mask_lem :
    (k : ℕ)
    → k < 31
    → (mask_of (31 - k) ≡ high (suc k) (31 - k))
      × (0xffffffff - mask_of (31 - k) ≡ ones (suc k))
      × (full (suc k) (31 - k) ≡ 0xffffffff)
unfolding mask_of
mask_lem k h =
    let test : ℕ → Bool = λ k.
      (mask_of (31 - k) == high (suc k) (31 - k))
      && (0xffffffff - mask_of (31 - k) == ones (suc k))
      && (full (suc k) (31 - k) == 0xffffffff) in
    all_three _ _ _ _ _ _ (agrees_below_sound 31 test k refl h)

-- A prefix that is neither 0 nor 32.
abbrev range_with : ℕ → ℕ → ℕ → ℕ → Range
range_with network broadcast prefix mask = record {
  network = network;
  broadcast = broadcast;
  prefix = prefix;
  mask = mask;
}

inner_range :
    (ip k : ℕ)
    → ip ≤ 0xffffffff
    → k < 31
    → range_of ip (31 - k)
      ≡ range_with (top (suc k) ip) (top (suc k) ip + ones (suc k)) (31 - k) (mask_of (31 - k))
unfolding range_of
inner_range ip k h small =
    let (mask, rest, all) = mask_lem k small in
    let network : bit_and ip (mask_of (31 - k)) ≡ top (suc k) ip =
      ap (λ m. bit_and ip m) mask ∙ bit_and-high (suc k) (31 - k) ip (omega (arith, all)) in
    let broadcast : bit_or (bit_and ip (mask_of (31 - k))) (0xffffffff - mask_of (31 - k))
        ≡ top (suc k) ip + ones (suc k) =
      ap (λ n. bit_or n (0xffffffff - mask_of (31 - k))) network
      ∙ ap (λ m. bit_or (top (suc k) ip) m) rest
      ∙ bit_or-top (suc k) ip in
    let not_32 : (31 - k == 32) ≡ false = ground arith in
    let not_0 : (31 - k == 0) ≡ false = ground arith in
    rw not_32 rw not_0 (
      ap (λ n. range_with n (bit_or n (0xffffffff - mask_of (31 - k))) (31 - k) (mask_of (31 - k)))
        network
      ∙ ap (λ b. range_with (top (suc k) ip) b (31 - k) (mask_of (31 - k)))
          (ap (λ n. bit_or n (0xffffffff - mask_of (31 - k))) (sym network) ∙ broadcast))

inner :
    (ip x k : ℕ)
    → ip ≤ 0xffffffff
    → k < 31
    → (ip_in_cidr x (range_of ip (31 - k)) ≡ true) ↔ (leading (suc k) x ≡ leading (suc k) ip)
inner ip x k h small =
    let (into, back) = between (top (suc k) ip) (top (suc k) ip + ones (suc k)) x in
    let (same, apart) = same_leading (suc k) ip x in
    let range = ap (λ r. ip_in_cidr x r) (inner_range ip k h small) in
    (λ e. same (into (sym range ∙ e)), λ e. range ∙ back (apart e))

by_prefix :
    (ip x prefix : ℕ)
    → ip ≤ 0xffffffff
    → x ≤ 0xffffffff
    → (prefix ≡ 0) ⊎ ((prefix ≡ 32) ⊎ ((k : ℕ) × (k < 31) × (prefix ≡ 31 - k)))
    → (ip_in_cidr x (range_of ip prefix) ≡ true)
      ↔ (leading (32 - prefix) x ≡ leading (32 - prefix) ip)
unfolding range_of
by_prefix ip x prefix h l (inl e) =
    let same : leading 32 x ≡ leading 32 ip = leading_full 32 x l ∙ sym (leading_full 32 ip h) in
    rw e (λ _. same, λ _. (between 0 0xffffffff x).1 (omega arith, l))
by_prefix ip x prefix h l (inr (inl e)) =
    let (into, back) = between ip ip x in
    rw e
      (λ b. omega (arith, (into b).0, (into b).1), λ e. back (omega (arith, e), omega (arith, e)))
by_prefix ip x prefix h l (inr (inr (k, small, e))) =
    let bits : 32 - (31 - k) ≡ suc k = omega arith in
    subst (λ p. (ip_in_cidr x (range_of ip p) ≡ true) ↔ (leading (32 - p) x ≡ leading (32 - p) ip))
      (sym e)
      (subst (λ n. (ip_in_cidr x (range_of ip (31 - k)) ≡ true) ↔ (leading n x ≡ leading n ip))
        (sym bits) (inner ip x k h small))

prefix-cases :
    (prefix : ℕ)
    → prefix ≤ 32
    → (prefix ≡ 0) ⊎ ((prefix ≡ 32) ⊎ ((k : ℕ) × (k < 31) × (prefix ≡ 31 - k)))
prefix-cases prefix h = elim (Bool-cases (prefix == 0)) [
  | inl e ↦ inl (ground arith)
  | inr not_0 ↦ elim (Bool-cases (prefix == 32)) [
    | inl e ↦ inr (inl (ground arith))
    | inr not_32 ↦ inr (inr (31 - prefix, ground arith, ground arith))
  ]
]

-- An address is in the range of another one, for any prefix up to 32, exactly when the two agree on
-- all bits but the last `32 - prefix`.
pub ip_in_cidr-range_of :
    (ip x prefix : ℕ)
    → ip ≤ 0xffffffff
    → x ≤ 0xffffffff
    → prefix ≤ 32
    → (ip_in_cidr x (range_of ip prefix) ≡ true)
      ↔ (leading (32 - prefix) x ≡ leading (32 - prefix) ip)
ip_in_cidr-range_of ip x prefix h l m = by_prefix ip x prefix h l (prefix-cases prefix m)
