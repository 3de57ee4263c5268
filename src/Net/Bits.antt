-- ===== src/Net/Bits.antt =====
-- `&` and `|` on numbers of w bits, taken one bit at a time from the lowest.
use Prim.Native.Nat.{digits, bitwise, bit_and, bit_or, bit_and-bitwise, bit_or-bitwise, min, max}
use evuproxy.Common.{
  ℕ, zero, suc, ◌+◌, ◌*◌, ◌/◌, ◌%◌, ◌≤◌, ◌<◌, ◌≡◌, ◌↔◌, refl, sym, ◌∙◌, ap, arith,
}

-- `z` is what is left of the second number when the first has no more bits, and `f` the bit.
module _ (z : ℕ → ℕ) (f : ℕ → ℕ → ℕ) where
  more_fuel : (n m a b : ℕ) → a ≤ n → a ≤ m → digits z f n a b ≡ digits z f m a b
  more_fuel zero zero a b p q = refl
  more_fuel zero (suc m) zero b p q = refl
  more_fuel (suc n) zero zero b p q = refl
  more_fuel (suc n) (suc m) zero b p q = refl
  more_fuel (suc n) (suc m) (suc a) b p q =
      ap (λ k. k * 2 + f (suc a % 2) (b % 2))
        (more_fuel n m (suc a / 2) (b / 2) (omega arith) (omega arith))
  more_fuel zero (suc m) (suc a) b p q = absurd (omega arith)
  more_fuel (suc n) zero (suc a) b p q = absurd (omega arith)

  lowest_first :
      (a b : ℕ)
      → z b ≡ z (b / 2) * 2 + f 0 (b % 2)
      → bitwise z f a b ≡ bitwise z f (a / 2) (b / 2) * 2 + f (a % 2) (b % 2)
  lowest_first zero b last = last
  lowest_first (suc a) b last =
      ap (λ k. k * 2 + f (suc a % 2) (b % 2))
        (more_fuel a (suc a / 2) (suc a / 2) (b / 2) (omega arith) (omega arith))

pub bit_and_lowest : (a b : ℕ) → bit_and a b ≡ bit_and (a / 2) (b / 2) * 2 + min (a % 2) (b % 2)
bit_and_lowest a b =
    bit_and-bitwise a b
    ∙ lowest_first (λ b. 0) min a b (omega arith)
    ∙ ap (λ k. k * 2 + min (a % 2) (b % 2)) (sym (bit_and-bitwise (a / 2) (b / 2)))

pub bit_or_lowest : (a b : ℕ) → bit_or a b ≡ bit_or (a / 2) (b / 2) * 2 + max (a % 2) (b % 2)
bit_or_lowest a b =
    bit_or-bitwise a b
    ∙ lowest_first (λ b. b) max a b (omega arith)
    ∙ ap (λ k. k * 2 + max (a % 2) (b % 2)) (sym (bit_or-bitwise (a / 2) (b / 2)))

bit_and_double : (a b c : ℕ) → c < 2 → bit_and a (b * 2 + c) ≡ bit_and (a / 2) b * 2 + min (a % 2) c
bit_and_double a b c h =
    let half : (b * 2 + c) / 2 ≡ b = omega arith in
    let last : (b * 2 + c) % 2 ≡ c = omega arith in
    bit_and_lowest a (b * 2 + c)
    ∙ ap (λ k. bit_and (a / 2) k * 2 + min (a % 2) ((b * 2 + c) % 2)) half
    ∙ ap (λ k. bit_and (a / 2) b * 2 + min (a % 2) k) last

bit_or_double :
    (a b c d : ℕ) → c < 2 → d < 2 → bit_or (a * 2 + c) (b * 2 + d) ≡ bit_or a b * 2 + max c d
bit_or_double a b c d h l =
    let half : (b * 2 + d) / 2 ≡ b = omega arith in
    let last : (b * 2 + d) % 2 ≡ d = omega arith in
    let half' : (a * 2 + c) / 2 ≡ a = omega arith in
    let last' : (a * 2 + c) % 2 ≡ c = omega arith in
    bit_or_lowest (a * 2 + c) (b * 2 + d)
    ∙ ap (λ k. bit_or k ((b * 2 + d) / 2) * 2 + max ((a * 2 + c) % 2) ((b * 2 + d) % 2)) half'
    ∙ ap (λ k. bit_or a k * 2 + max ((a * 2 + c) % 2) ((b * 2 + d) % 2)) half
    ∙ ap (λ k. bit_or a b * 2 + max k ((b * 2 + d) % 2)) last'
    ∙ ap (λ k. bit_or a b * 2 + max c k) last

-- `n` ones, and those with `k` zeros behind them.
abbrev pub ones : ℕ → ℕ
ones zero = 0
ones (suc n) = ones n * 2 + 1

abbrev pub high : ℕ → ℕ → ℕ
high zero n = ones n
high (suc k) n = high k n * 2 + 0

-- The largest number of `n` bits with `k` more behind them.
abbrev pub full : ℕ → ℕ → ℕ
full zero n = ones n
full (suc k) n = full k n * 2 + 1

-- Without the last `k` bits, with them as zeros, and those bits alone.
abbrev pub leading : ℕ → ℕ → ℕ
leading zero a = a
leading (suc k) a = leading k (a / 2)

abbrev pub top : ℕ → ℕ → ℕ
top zero a = a
top (suc k) a = top k (a / 2) * 2 + 0

abbrev pub low : ℕ → ℕ → ℕ
low zero a = 0
low (suc k) a = low k (a / 2) * 2 + a % 2

pub bit_and-ones : (n a : ℕ) → a ≤ ones n → bit_and a (ones n) ≡ a
bit_and-ones zero a h = let e : a ≡ 0 = omega arith in rw e refl
bit_and-ones (suc n) a h =
    omega (arith, bit_and_double a (ones n) 1 (omega arith), bit_and-ones n (a / 2) (omega arith))

pub bit_and-high : (k n a : ℕ) → a ≤ full k n → bit_and a (high k n) ≡ top k a
bit_and-high zero n a h = bit_and-ones n a h
bit_and-high (suc k) n a h =
    omega
      (arith, bit_and_double a (high k n) 0 (omega arith), bit_and-high k n (a / 2) (omega arith))

bit_and_zero : (n a : ℕ) → a ≤ ones n → bit_and a 0 ≡ 0
bit_and_zero zero a h = let e : a ≡ 0 = omega arith in rw e refl
bit_and_zero (suc n) a h =
    omega (arith, bit_and_double a 0 0 (omega arith), bit_and_zero n (a / 2) (omega arith))

pub bit_and-low : (k n a : ℕ) → a ≤ full k n → bit_and a (ones k) ≡ low k a
bit_and-low zero n a h = bit_and_zero n a h
bit_and-low (suc k) n a h =
    omega (arith, bit_and_double a (ones k) 1 (omega arith), bit_and-low k n (a / 2) (omega arith))

bit_or_zero : (n a : ℕ) → a ≤ n → bit_or a 0 ≡ a
bit_or_zero n zero h = refl
bit_or_zero zero (suc a) h = absurd (omega arith)
bit_or_zero (suc n) (suc a) h =
    omega (arith, bit_or_lowest (suc a) 0, bit_or_zero n (suc a / 2) (omega arith))

pub bit_or-top : (k a : ℕ) → bit_or (top k a) (ones k) ≡ top k a + ones k
bit_or-top zero a = omega (arith, bit_or_zero a a (omega arith))
bit_or-top (suc k) a = omega (
  arith,
  bit_or_double (top k (a / 2)) (ones k) 0 1 (omega arith) (omega arith),
  bit_or-top k (a / 2),
)

-- A number moved to the left by `k` bits, and what then fits behind it.
abbrev shifted : ℕ → ℕ → ℕ
shifted zero a = a
shifted (suc k) a = shifted k a * 2 + 0

bit_or-shifted : (k a x : ℕ) → x ≤ ones k → bit_or (shifted k a) x ≡ shifted k a + x
bit_or-shifted zero a x h =
    let e : x ≡ 0 = omega arith in rw e (omega (arith, bit_or_zero a a (omega arith)))
bit_or-shifted (suc k) a x h =
    let halves : x / 2 * 2 + x % 2 ≡ x = omega arith in
    ap (λ y. bit_or (shifted (suc k) a) y) (sym halves)
    ∙ omega (
      arith,
      bit_or_double (shifted k a) (x / 2) 0 (x % 2) (omega arith) (omega arith),
      bit_or-shifted k a (x / 2) (omega arith),
    )

pub bit_or_byte : (a x : ℕ) → x < 256 → bit_or (a * 256) x ≡ a * 256 + x
bit_or_byte a x h =
    let moved : a * 256 ≡ shifted 8 a = omega arith in
    ap (λ b. bit_or b x) moved ∙ bit_or-shifted 8 a x (omega arith) ∙ ap (λ b. b + x) (sym moved)

-- Between the zeros and the ones behind `top k a` are the numbers with the same leading bits.
pub same_leading :
    (k a x : ℕ) → ((top k a ≤ x) × (x ≤ top k a + ones k)) ↔ (leading k x ≡ leading k a)
same_leading zero a x = (λ b. omega (arith, b.0, b.1), λ e. (omega (arith, e), omega (arith, e)))
same_leading (suc k) a x =
    let (into, back) = same_leading k (a / 2) (x / 2) in
    (
      λ b. into (omega (arith, b.0, b.1), omega (arith, b.0, b.1)),
      λ e.
          let (below, above) = back e in (omega (arith, below, above), omega (arith, below, above)),
    )
