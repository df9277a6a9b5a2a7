-- ===== src/Base/Bits.antt =====
-- The binary digits of a number, and what `&`, `|`, `^`, `~` and `1 << i` do to each of them.
use Prim.Native.Nat.{
  ℕ, zero, suc, ◌+◌, ◌-◌, ◌*◌, ◌/◌, ◌%◌, ◌^◌, ◌≤◌, ◌<◌, min, max, bit_and, bit_or, digits,
  bit_and-bitwise, bit_or-bitwise,
}
use mathlib.Core.Path.{◌≡◌, refl, ap, ◌∙◌, sym}
use native.Mathlib.Omega.{arith}
use native.Mathlib.Nat.{pow-suc, sub-zero, mul-add-mod_self_left, mod-eq_of_lt, mod-lt, mod-add-div}
use mos_moody_hunter.Base.Tests.{◌==◌, ltb, if◌then◌else◌}

-- The digit at place `k`, 0 or 1.
abbrev pub bit : ℕ → ℕ → ℕ
bit a zero = a % 2
bit a (suc k) = bit (a / 2) k

pub bit-lt : (a k : ℕ) → bit a k < 2
bit-lt a zero = omega arith
bit-lt a (suc k) = bit-lt (a / 2) k

pub zero-bit : (k : ℕ) → bit 0 k ≡ 0
zero-bit zero = refl
zero-bit (suc k) = zero-bit k

-- Numbers with the same digits are equal.
pub bit_ext_below : (n a b : ℕ) → a ≤ n → b ≤ n → ((k : ℕ) → bit a k ≡ bit b k) → a ≡ b
bit_ext_below zero a b p q h = omega arith
bit_ext_below (suc n) zero zero p q h = refl
bit_ext_below (suc n) (suc a) b p q h =
    omega
      (arith, h 0, bit_ext_below n (suc a / 2) (b / 2) (omega arith) (omega arith) (λ k. h (suc k)))
bit_ext_below (suc n) zero (suc b) p q h = omega (
  arith,
  h 0,
  bit_ext_below n (zero / 2) (suc b / 2) (omega arith) (omega arith) (λ k. h (suc k)),
)

pub bit_ext : (a b : ℕ) → ((k : ℕ) → bit a k ≡ bit b k) → a ≡ b
bit_ext a b h = bit_ext_below (a + b) a b (omega arith) (omega arith) h

module _ (z : ℕ → ℕ) (f : ℕ → ℕ → ℕ) (rest : (b k : ℕ) → bit (z b) k ≡ f 0 (bit b k))
    (is_digit : (a b : ℕ) → f (a % 2) (b % 2) < 2) where
  bit-digits : (n a b k : ℕ) → a ≤ n → bit (digits z f n a b) k ≡ f (bit a k) (bit b k)
  bit-digits zero a b k h = let e : a ≡ 0 = omega arith in rw (e, zero-bit k) (rest b k)
  bit-digits (suc n) zero b k h = rw (zero-bit k) (rest b k)
  bit-digits (suc n) (suc a) b zero h = omega (arith, is_digit (suc a) b)
  bit-digits (suc n) (suc a) b (suc k) h =
      let low : (digits z f n (suc a / 2) (b / 2) * 2 + f (suc a % 2) (b % 2)) / 2
          ≡ digits z f n (suc a / 2) (b / 2) =
        omega (arith, is_digit (suc a) b) in
      rw low (bit-digits n (suc a / 2) (b / 2) k (omega arith))

pub bit-bit_and : (a b k : ℕ) → bit (bit_and a b) k ≡ min (bit a k) (bit b k)
bit-bit_and a b k =
    ap (λ x. bit x k) (bit_and-bitwise a b)
    ∙ bit-digits (λ b. 0) min (λ b k. zero-bit k ∙ omega arith) (λ a b. omega arith) a a b k
        (omega arith)

pub bit-bit_or : (a b k : ℕ) → bit (bit_or a b) k ≡ max (bit a k) (bit b k)
bit-bit_or a b k =
    ap (λ x. bit x k) (bit_or-bitwise a b)
    ∙ bit-digits (λ b. b) max (λ b k. omega arith) (λ a b. omega arith) a a b k (omega arith)

-- `1 << i`
pub bit-pow : (i k : ℕ) → bit (2 ^ i) k ≡ (if i == k then 1 else 0)
bit-pow zero zero = refl
bit-pow zero (suc k) = zero-bit k ∙ ground arith
bit-pow (suc i) zero = rw (pow-suc 2 i) (ground arith)
bit-pow (suc i) (suc k) =
    let half : 2 ^ suc i / 2 ≡ 2 ^ i = rw (pow-suc 2 i) (omega arith) in
    rw half (bit-pow i k ∙ ground arith)

-- `~a` in `n` bits.
pub bit-complement :
    (n a k : ℕ) → a < 2 ^ n → bit (2 ^ n - 1 - a) k ≡ (if ltb k n then 1 - bit a k else 0)
bit-complement zero a k h =
    let e : 2 ^ 0 - 1 - a ≡ 0 = omega arith in rw e (zero-bit k ∙ ground arith)
bit-complement (suc n) a zero h = let e = pow-suc 2 n in ground (arith, e)
bit-complement (suc n) a (suc k) h =
    let e = pow-suc 2 n in
    let half : (2 ^ suc n - 1 - a) / 2 ≡ 2 ^ n - 1 - a / 2 = omega (arith, e) in
    rw half (bit-complement n (a / 2) k (omega (arith, e)) ∙ ground arith)

-- A number below `2 ^ n` has no digit from place `n` on.
pub bit_of_lt : (n a k : ℕ) → a < 2 ^ n → n ≤ k → bit a k ≡ 0
bit_of_lt zero a k h p = let e : a ≡ 0 = omega arith in rw e (zero-bit k)
bit_of_lt (suc n) a zero h p = absurd (omega arith)
bit_of_lt (suc n) a (suc k) h p = bit_of_lt n (a / 2) k (omega (arith, pow-suc 2 n)) (omega arith)

pub lt_of_bit : (n a : ℕ) → ((k : ℕ) → n ≤ k → bit a k ≡ 0) → a < 2 ^ n
lt_of_bit zero a h =
    let e : a ≡ 0 = bit_ext a 0 (λ k. h k (omega arith) ∙ sym (zero-bit k)) in omega arith
lt_of_bit (suc n) a h =
    omega (arith, pow-suc 2 n, lt_of_bit n (a / 2) (λ k p. h (suc k) (omega arith)))

pub pow-pos : (n : ℕ) → 0 < 2 ^ n
pow-pos zero = omega arith
pow-pos (suc n) = omega (arith, pow-suc 2 n, pow-pos n)

-- `(1 << n) - 1`
pub bit-ones : (n k : ℕ) → bit (2 ^ n - 1) k ≡ (if ltb k n then 1 else 0)
bit-ones n k =
    let e : 2 ^ n - 1 ≡ 2 ^ n - 1 - 0 = omega arith in
    rw e (bit-complement n 0 k (pow-pos n) ∙ rw (zero-bit k) refl)

-- `a << s`
pub bit-shl : (s a k : ℕ) → bit (a * 2 ^ s) k ≡ (if ltb k s then 0 else bit a (k - s))
bit-shl zero a k = let e : a * 2 ^ 0 ≡ a = omega arith in rw e (rw (sub-zero k) (ground arith))
bit-shl (suc s) a zero = let e = pow-suc 2 s in ground (arith, even)
  where
    even : (a * 2 ^ suc s) % 2 ≡ 0
    even = let e = double in rw e (omega arith)
      where
        double : a * 2 ^ suc s ≡ a * 2 ^ s * 2
        double = rw (pow-suc 2 s) (omega arith)
bit-shl (suc s) a (suc k) =
    let half : a * 2 ^ suc s / 2 ≡ a * 2 ^ s = rw (pow-suc 2 s) (omega arith) in
    rw half (bit-shl s a k ∙ ground arith)

mod-double : (m a : ℕ) → 0 < m → a % (m * 2) ≡ a / 2 % m * 2 + a % 2
mod-double m a h =
    ap (λ x. x % (m * 2)) whole
    ∙ mul-add-mod_self_left (m * 2) (a / 2 / m) (a / 2 % m * 2 + a % 2)
    ∙ mod-eq_of_lt (omega (arith, mod-lt (a / 2) h))
  where
    whole : a ≡ m * 2 * (a / 2 / m) + (a / 2 % m * 2 + a % 2)
    whole = omega (arith, mod-add-div (a / 2) m)

-- The low `n` bits.
pub bit-mod : (n a k : ℕ) → bit (a % 2 ^ n) k ≡ (if ltb k n then bit a k else 0)
bit-mod zero a k = let e : a % 2 ^ 0 ≡ 0 = omega arith in rw e (zero-bit k ∙ ground arith)
bit-mod (suc n) a zero = rw (pow-suc 2 n, mod-double (2 ^ n) a (pow-pos n)) (ground arith)
bit-mod (suc n) a (suc k) =
    let half : a % 2 ^ suc n / 2 ≡ a / 2 % 2 ^ n =
      rw (pow-suc 2 n, mod-double (2 ^ n) a (pow-pos n)) (omega arith) in
    rw half (bit-mod n (a / 2) k ∙ ground arith)
