-- ===== src/Ctl/Caps.antt =====
-- The speeds that tools/virtusbctl/main.c reads, against the check of
-- kernel/src/virtusb_control.c.
use virt_usb.Prelude.{
  ℕ, zero, suc, bit_or, ◌⊎◌, ◌≡◌, ◌<◌, ◌≤◌, arith, refl, true, inl, inr, some, List, [], ◌∷◌,
  Option-cases, ltb, ltb→lt,
}
use virt_usb.Text.{Bytes, tokens, tokens_from}
use virt_usb.Ctl.Words.{speeds}
use virt_usb.Control.Requests.{speed_caps_valid}
use virt_usb.Ctl.Parse.{speed_cap, add_caps, parse_speed_caps}

-- What holds of the eight sets of capabilities holds below 8.
below_8 {ℓ} :
    (P : ℕ → Type ℓ) → P 0 → P 1 → P 2 → P 3 → P 4 → P 5 → P 6 → P 7 → (c : ℕ) → c < 8 → P c
below_8 P p0 p1 p2 p3 p4 p5 p6 p7 zero h = p0
below_8 P p0 p1 p2 p3 p4 p5 p6 p7 (suc zero) h = p1
below_8 P p0 p1 p2 p3 p4 p5 p6 p7 (suc (suc zero)) h = p2
below_8 P p0 p1 p2 p3 p4 p5 p6 p7 (suc (suc (suc zero))) h = p3
below_8 P p0 p1 p2 p3 p4 p5 p6 p7 (suc (suc (suc (suc zero)))) h = p4
below_8 P p0 p1 p2 p3 p4 p5 p6 p7 (suc (suc (suc (suc (suc zero))))) h = p5
below_8 P p0 p1 p2 p3 p4 p5 p6 p7 (suc (suc (suc (suc (suc (suc zero)))))) h = p6
below_8 P p0 p1 p2 p3 p4 p5 p6 p7 (suc (suc (suc (suc (suc (suc (suc zero))))))) h = p7
below_8 P p0 p1 p2 p3 p4 p5 p6 p7 (suc (suc (suc (suc (suc (suc (suc (suc n)))))))) h =
    absurd (omega arith)

abbrev Small : ℕ → ℕ → Type 0
Small cap c = ltb (bit_or c cap) 8 ≡ true

or_low : (c : ℕ) → c < 8 → ltb (bit_or c 1) 8 ≡ true
or_low = below_8 (Small 1) refl refl refl refl refl refl refl refl

or_full : (c : ℕ) → c < 8 → ltb (bit_or c 2) 8 ≡ true
or_full = below_8 (Small 2) refl refl refl refl refl refl refl refl

or_high : (c : ℕ) → c < 8 → ltb (bit_or c 4) 8 ≡ true
or_high = below_8 (Small 4) refl refl refl refl refl refl refl refl

zero_or_valid : (c : ℕ) → c < 8 → (c ≡ 0) ⊎ (speed_caps_valid c ≡ true)
unfolding speed_caps_valid
zero_or_valid =
    below_8 (λ c. (c ≡ 0) ⊎ (speed_caps_valid c ≡ true)) (inl refl) (inr refl) (inr refl) (inr refl)
      (inr refl) (inr refl) (inr refl) (inr refl)

speed_cap_keeps :
    (token : Bytes) (cap c : ℕ) → speed_cap token ≡ some cap → c < 8 → bit_or c cap < 8
unfolding speed_cap
speed_cap_keeps token one c e h = ltb→lt _ _ (ground (arith, or_low c h, or_full c h, or_high c h))

add_caps_keeps : (ts : List Bytes) (c k : ℕ) → add_caps ts c ≡ some k → c < 8 → k < 8
unfolding add_caps
add_caps_keeps [] c k e h = ground (arith)
add_caps_keeps (t ∷ ts) c k e h = elim (Option-cases (speed_cap t)) [
  | inl missed ↦ ground (arith)
  | inr (one, is) ↦ add_caps_keeps ts (bit_or c one) k (ground arith) (speed_cap_keeps t one c is h)
]

-- If the command line tool reads a text as a set of speeds, then the kernel's check of the
-- capabilities of a new device accepts the set.
pub parse_speed_caps-speed_caps_valid :
    (text : Bytes) (caps : ℕ) → parse_speed_caps text ≡ some caps → speed_caps_valid caps ≡ true
unfolding parse_speed_caps
parse_speed_caps-speed_caps_valid text caps e =
    elim (Option-cases (add_caps (tokens b',' text) 0)) [
      | inl missed ↦ absurd (ground arith)
      | inr (k, is) ↦
          ground (arith, zero_or_valid k (add_caps_keeps (tokens b',' text) 0 k is (omega arith)))
    ]

-- The list of the speeds of a set of capabilities is read as the set.
pub parse_speed_caps-speeds :
    (caps : ℕ) → 1 ≤ caps → caps < 8 → parse_speed_caps (speeds caps) ≡ some caps
unfolding parse_speed_caps tokens tokens_from speed_cap add_caps
parse_speed_caps-speeds caps h k =
    below_8 (λ c. 1 ≤ c → parse_speed_caps (speeds c) ≡ some c) (λ p. absurd (omega arith))
      (λ p. refl) (λ p. refl) (λ p. refl) (λ p. refl) (λ p. refl) (λ p. refl) (λ p. refl) caps k h

-- The capabilities read are some of the three.
pub parse_speed_caps_bounds :
    (text : Bytes) (caps : ℕ) → parse_speed_caps text ≡ some caps → (1 ≤ caps) × (caps < 8)
unfolding parse_speed_caps
parse_speed_caps_bounds text caps e = elim (Option-cases (add_caps (tokens b',' text) 0)) [
  | inl missed ↦ absurd (ground arith)
  | inr (k, is) ↦
      let small = add_caps_keeps (tokens b',' text) 0 k is (omega arith) in
      (ground (arith, small), ground (arith, small))
]
