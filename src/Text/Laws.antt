-- ===== src/Text/Laws.antt =====
-- Decimal numbers, printed and read.
use virt_usb.Prelude.{
  ℕ, zero, suc, ◌+◌, ◌*◌, ◌/◌, ◌%◌, ◌^◌, ◌<◌, ◌≤◌, false, some, [], ◌∷◌, ◌≡◌, ◌≢◌, refl, arith, ap,
  ◌∙◌, sym, subst, ℕ_discrete,
}
use native.Mathlib.Nat.{pow-suc}
use virt_usb.Text.{
  Bytes, digit_of, read_digits, read_prefixed, read_number, skip_space, read_sign, strtoul,
  digits_before, decimal,
}

digit_of-decimal : (d : ℕ) → d < 10 → digit_of (b'0' + d) ≡ d
unfolding digit_of
digit_of-decimal d h = ground arith

last_digit : (n : ℕ) → n / 10 ≡ 0 → n % 10 ≡ n
last_digit n e = omega arith

next_digit : (n : ℕ) → n / 10 * 10 + n % 10 ≡ n
next_digit n = omega arith

nothing_left : (n : ℕ) → read_digits 10 [] n ≡ (n, [])
unfolding read_digits
nothing_left n = refl

zero_read : read_number (decimal 0) ≡ some (0, [])
unfolding read_number decimal digits_before read_prefixed
zero_read = refl

zero_reads : (n : ℕ) → n ≡ 0 → read_number (decimal n) ≡ some (n, [])
zero_reads n e = subst (λ k. read_number (decimal k) ≡ some (k, [])) (sym e) zero_read

-- A byte between 1 and 9 begins a decimal number.
nonzero_reads :
    (c : ℕ) (cs : Bytes)
    → b'0' < c
    → c ≤ b'9'
    → read_number (c ∷ cs) ≡ some (read_digits 10 (c ∷ cs) 0)
unfolding read_number digit_of
nonzero_reads c cs h k = ground arith

-- Reading printed digits in front of others.
read_digits-digits_before :
    (fuel n : ℕ) (acc : Bytes)
    → n < 10 ^ fuel
    → read_digits 10 (digits_before fuel n acc) 0 ≡ read_digits 10 acc n
unfolding digits_before read_digits
read_digits-digits_before zero n acc h =
    let e : n ≡ 0 = omega arith in ap (read_digits 10 acc) (sym e)
read_digits-digits_before (suc fuel) n acc h =
    let d = digit_of-decimal (n % 10) (omega arith) in
    elim (ℕ_discrete (n / 10) 0) [
      | yes e ↦ ground (arith, e, d, ap (read_digits 10 acc) (last_digit n e))
      | no ne ↦ ground (
        arith,
        ne,
        d,
        read_digits-digits_before fuel (n / 10) ((b'0' + n % 10) ∷ acc)
            (omega (arith, pow-suc 10 fuel)),
        ap (read_digits 10 acc) (next_digit n),
      )
    ]

-- A printed number begins with a digit, which is 0 only for 0.
digits_before_head :
    (fuel n : ℕ) (acc : Bytes)
    → n < 10 ^ fuel
    → n ≢ 0
    → (c : ℕ) × (cs : Bytes) × (digits_before fuel n acc ≡ c ∷ cs) × ((b'0' < c) × (c ≤ b'9'))
unfolding digits_before
digits_before_head zero n acc h ne = absurd (omega arith)
digits_before_head (suc fuel) n acc h ne = elim (ℕ_discrete (n / 10) 0) [
  | yes e ↦ (b'0' + n % 10, acc, ground (arith, e), (omega arith, omega arith))
  | no more ↦
      let (c, cs, e, bounds) =
        digits_before_head fuel (n / 10) ((b'0' + n % 10) ∷ acc) (omega (arith, pow-suc 10 fuel))
          more in
      (c, cs, ground (arith, more, e), bounds)
]

pub read_number-decimal : (n : ℕ) → n < 2 ^ 32 → read_number (decimal n) ≡ some (n, [])
unfolding decimal
read_number-decimal n h = elim (ℕ_discrete n 0) [
  | yes e ↦ zero_reads n e
  | no ne ↦
      let (c, cs, e, bounds) = digits_before_head 10 n [] (omega arith) ne in
      let whole : read_digits 10 (c ∷ cs) 0 ≡ (n, []) =
        ap (λ t. read_digits 10 t 0) (sym e)
        ∙ read_digits-digits_before 10 n [] (omega arith)
        ∙ nothing_left n in
      ap read_number e ∙ nonzero_reads c cs bounds.0 bounds.1 ∙ ap some whole
]

plain :
    (c : ℕ) (cs : Bytes) → b'0' ≤ c → c ≤ b'9' → read_sign (skip_space (c ∷ cs)) ≡ (false, c ∷ cs)
unfolding read_sign skip_space
plain c cs h k = ground arith

zero_plain : read_sign (skip_space (digits_before 10 0 [])) ≡ (false, digits_before 10 0 [])
unfolding read_sign skip_space digits_before
zero_plain = refl

decimal_plain : (n : ℕ) → n < 2 ^ 32 → read_sign (skip_space (decimal n)) ≡ (false, decimal n)
unfolding decimal
decimal_plain n h = elim (ℕ_discrete n 0) [
  | yes e ↦
      subst (λ k. read_sign (skip_space (digits_before 10 k [])) ≡ (false, digits_before 10 k []))
        (sym e) zero_plain
  | no ne ↦
      let (c, cs, e, bounds) = digits_before_head 10 n [] (omega arith) ne in
      subst (λ t. read_sign (skip_space t) ≡ (false, t)) (sym e)
        (plain c cs (omega (arith, bounds)) bounds.1)
]

-- A number printed by the conversion %u is read back by strtoul, to the end and in range.
pub strtoul-decimal :
    (n : ℕ)
    → n < 2 ^ 32
    → strtoul (decimal n) ≡ record { value = n; out_of_range = false; rest = [] }
unfolding strtoul
strtoul-decimal n h = ground (arith, decimal_plain n h, read_number-decimal n h)
