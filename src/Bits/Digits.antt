-- ===== src/Bits/Digits.antt =====
-- A word by its binary digits: what each bit operation does to each digit.
use native.Mathlib.Nat.{pow-suc, one-le-pow, div-div-eq-div-mul}
use virt_usb.Prelude.{
  ℕ, zero, suc, ◌+◌, ◌-◌, ◌*◌, ◌/◌, ◌%◌, ◌^◌, ◌<◌, min, max, bit_and, bit_or, ◌≡◌, refl, sym, ap,
  ◌∙◌, arith, ◌==◌, if◌then◌else◌, ltb,
}
use virt_usb.Bits.Step.{bit_and_step, bit_or_step, bit_and-zero}

unfoldable pub digit : ℕ → ℕ → ℕ
digit x zero = x % 2
digit x (suc p) = digit (x / 2) p

pub digit-lt : (x p : ℕ) → digit x p < 2
unfolding digit
digit-lt x zero = omega arith
digit-lt x (suc p) = digit-lt (x / 2) p

pub digit-zero : (p : ℕ) → digit 0 p ≡ 0
unfolding digit
digit-zero zero = refl
digit-zero (suc p) = digit-zero p

half_of : (x y m : ℕ) → x ≡ y * 2 + m → m < 2 → x / 2 ≡ y
half_of x y m e h = omega arith

pub digit-bit_and : (a b p : ℕ) → digit (bit_and a b) p ≡ min (digit a p) (digit b p)
unfolding digit
digit-bit_and a b zero = omega (arith, bit_and_step a b)
digit-bit_and a b (suc p) =
    rw (half_of (bit_and a b) (bit_and (a / 2) (b / 2)) _ (bit_and_step a b) (omega arith))
      (digit-bit_and (a / 2) (b / 2) p)

pub digit-bit_or : (a b p : ℕ) → digit (bit_or a b) p ≡ max (digit a p) (digit b p)
unfolding digit
digit-bit_or a b zero = omega (arith, bit_or_step a b)
digit-bit_or a b (suc p) =
    rw (half_of (bit_or a b) (bit_or (a / 2) (b / 2)) _ (bit_or_step a b) (omega arith))
      (digit-bit_or (a / 2) (b / 2) p)

double : (v s : ℕ) → v * 2 ^ suc s ≡ v * 2 ^ s * 2 + 0
double v s = omega (arith, ap (λ (t : ℕ). v * t) (pow-suc 2 s))

shift_none : (v p : ℕ) → digit (v * 1) p ≡ digit v p
shift_none v p = let e : v * 1 ≡ v = omega arith in rw e

-- The digits of a shifted value.
pub digit_shifted : (v s p : ℕ) → digit (v * 2 ^ s) p ≡ (if ltb p s then 0 else digit v (p - s))
unfolding digit
digit_shifted v zero p = ground (arith, shift_none v p)
digit_shifted v (suc s) zero = ground (arith, double v s)
digit_shifted v (suc s) (suc p) =
    rw (half_of _ (v * 2 ^ s) 0 (double v s) (omega arith)) (ground (arith, digit_shifted v s p))

-- The digits of the complement at width `k`.
pub digit-not : (k x p : ℕ) → x < 2 ^ k → p < k → digit (2 ^ k - 1 - x) p ≡ 1 - digit x p
unfolding digit
digit-not zero x p h hp = absurd (omega arith)
digit-not (suc k) x zero h hp = omega (arith, pow-suc 2 k, one-le-pow k 2)
digit-not (suc k) x (suc p) h hp =
    rw
      (half_of (2 ^ suc k - 1 - x) (2 ^ k - 1 - x / 2) (1 - x % 2) (omega (arith, pow-suc 2 k))
        (omega arith))
      (digit-not k (x / 2) p (omega (arith, pow-suc 2 k)) (omega arith))

-- A single bit masked out.
pub bit_and_bit : (x p : ℕ) → bit_and x (2 ^ p) ≡ digit x p * 2 ^ p
unfolding digit
bit_and_bit x zero = omega (arith, bit_and_step x 1, bit_and-zero (x / 2))
bit_and_bit x (suc p) = omega (
  arith,
  bit_and_step x (2 ^ suc p),
  pow-suc 2 p,
  ap (λ (t : ℕ). bit_and (x / 2) t)
      (half_of (2 ^ suc p) (2 ^ p) 0 (omega (arith, pow-suc 2 p)) (omega arith)),
  bit_and_bit (x / 2) p,
  ap (λ (t : ℕ). digit (x / 2) p * t) (pow-suc 2 p),
)

digit-one : (p : ℕ) → digit 1 p ≡ (if p == 0 then 1 else 0)
unfolding digit
digit-one zero = refl
digit-one (suc p) = ground (arith, digit-zero p)

-- BIT(n) has one digit.
pub digit-bit : (n p : ℕ) → digit (2 ^ n) p ≡ (if n == p then 1 else 0)
digit-bit n p =
    let e : 1 * 2 ^ n ≡ 2 ^ n = omega arith in
    ground (arith, ap (λ (t : ℕ). digit t p) e, digit_shifted 1 n p, digit-one (p - n))

shr_suc : (x s : ℕ) → x / 2 ^ suc s ≡ x / 2 / 2 ^ s
shr_suc x s =
    sym (div-div-eq-div-mul x 2 (2 ^ s) ∙ ap (λ (t : ℕ). x / t) (omega (arith, pow-suc 2 s)))

-- The digits of a word shifted right.
pub digit-shr : (x s p : ℕ) → digit (x / 2 ^ s) p ≡ digit x (s + p)
unfolding digit
digit-shr x zero p = let e : x / 1 ≡ x = omega arith in let f : 0 + p ≡ p = omega arith in rw (e, f)
digit-shr x (suc s) p =
    let e : suc s + p ≡ suc (s + p) = omega arith in rw (shr_suc x s, e) (digit-shr (x / 2) s p)

pub bit_and_three : (x : ℕ) → bit_and x 3 ≡ digit x 0 + 2 * digit x 1
unfolding digit
bit_and_three x = omega (arith, bit_and_step x 3, bit_and_step (x / 2) 1, bit_and-zero (x / 2 / 2))
