-- ===== src/Hcd/Status/Laws.antt =====
-- The bits of the root hub's words (kernel/src/virtusb_hcd.c).
use virt_usb.Prelude.{
  ℕ, zero, suc, ◌+◌, ◌*◌, ◌/◌, ◌≤◌, ◌<◌, Bool, true, false, ◌&&◌, ◌||◌, some, [], ◌≡◌, ◌∙◌, ap,
  get_or, length, ◌%◌, ◌^◌, ◌↔◌, refl, arith, ℕ_discrete, ◌==◌, if◌then◌else◌, bit_and, bit_or,
}
use virt_usb.Uapi.{PortSpeed, unknown, low, full, high}
use virt_usb.Topology.{Hub, Topology}
use virt_usb.Bits.{bit_test, bit_clear, bit}
use virt_usb.Bits.Laws.{bit_test-digit, bit_test-bit_set, bit_test-bit_clear}
use virt_usb.Bits.Digits.{
  digit-bit_or, digit-not, digit-shr, digit, digit-bit_and, digit-bit, digit-lt, digit-zero,
}
use virt_usb.Hub.Defs.{port_is_connected, get_port_speed}
use virt_usb.Hub.Power.{port_is_over_current, port_is_powered}
use virt_usb.Hcd.Status.{
  set_if, add_speed, build_port_flags, build_port_status, port_change_mask, change_bytes,
  hub_status_data,
}

bit_test-set_if :
    (b : Bool) (n w m : ℕ) → bit_test (set_if b n w) m ≡ ((b && n == m) || bit_test w m)
unfolding set_if
bit_test-set_if b n w m = ground (arith, bit_test-bit_set w n m)

bit_test-zero : (m : ℕ) → bit_test 0 m ≡ false
bit_test-zero m = ground (arith, bit_test-digit 0 m, digit-zero m)

abbrev pub is_low : PortSpeed → Bool
is_low low = true
is_low _ = false

abbrev pub is_high : PortSpeed → Bool
is_high high = true
is_high _ = false

-- The status word of a port.
pub record Reads (h n : ℕ) (t : Topology) (status : ℕ) : Type 0 where
  pub connection : bit_test status 0 ≡ port_is_connected (some h) n t
  pub enable : bit_test status 1 ≡ bit_test (t.hub h).usb.enabled n
  pub suspend : bit_test status 2 ≡ bit_test (t.hub h).usb.suspended n
  pub over_current : bit_test status 3 ≡ port_is_over_current (some h) n t
  pub reset : bit_test status 4 ≡ bit_test (t.hub h).usb.reset n
  pub power : bit_test status 8 ≡ port_is_powered (some h) n t
  pub low_speed : bit_test status 9 ≡ is_low (get_port_speed (some h) n t)
  pub high_speed : bit_test status 10 ≡ is_high (get_port_speed (some h) n t)

flags_bit :
    (h n m : ℕ) (t : Topology)
    → bit_test (build_port_flags h n t) m ≡ (
        (port_is_powered (some h) n t && 8 == m)
        || ((bit_test (t.hub h).usb.reset n && 4 == m)
            || ((port_is_over_current (some h) n t && 3 == m)
                || ((bit_test (t.hub h).usb.suspended n && 2 == m)
                    || ((bit_test (t.hub h).usb.enabled n && 1 == m)
                        || ((port_is_connected (some h) n t && 0 == m) || false))))))
unfolding build_port_flags
flags_bit h n m t = simp (bit_test-set_if, bit_test-zero)

add_speed_bit :
    (s : PortSpeed) (w m : ℕ)
    → bit_test (add_speed s w) m
      ≡ ((is_low s && 9 == m) || ((is_high s && 10 == m) || bit_test w m))
unfolding add_speed
add_speed_bit unknown w m = ground arith
add_speed_bit low w m = ground (arith, bit_test-bit_set w 9 m)
add_speed_bit full w m = ground arith
add_speed_bit high w m = ground (arith, bit_test-bit_set w 10 m)

-- The status word of a port has at bits 0, 1, 2, 3, 4 and 8 the port's connection, enable,
-- suspend, over-current, reset and power state, and at bits 9 and 10 whether its speed is low
-- and whether it is high.
pub build_port_status-Reads : (h n : ℕ) (t : Topology) → Reads h n t (build_port_status h n t)
unfolding build_port_status
build_port_status-Reads h n t =
    let s = get_port_speed (some h) n t in
    let w = build_port_flags h n t in
    record {
      connection = ground (arith, add_speed_bit s w 0, flags_bit h n 0 t);
      enable = ground (arith, add_speed_bit s w 1, flags_bit h n 1 t);
      suspend = ground (arith, add_speed_bit s w 2, flags_bit h n 2 t);
      over_current = ground (arith, add_speed_bit s w 3, flags_bit h n 3 t);
      reset = ground (arith, add_speed_bit s w 4, flags_bit h n 4 t);
      power = ground (arith, add_speed_bit s w 8, flags_bit h n 8 t);
      low_speed = ground (arith, add_speed_bit s w 9, flags_bit h n 9 t);
      high_speed = ground (arith, add_speed_bit s w 10, flags_bit h n 10 t);
    }

-- Whether one of a port's five change bits is set.
abbrev pub port_changed : Hub → ℕ → Bool
port_changed v n =
    bit_test v.usb_change.connected n
    || bit_test v.usb_change.enabled n
    || bit_test v.usb_change.suspended n
    || bit_test v.usb_change.reset n
    || bit_test v.usb_change.over_current n

bit_test-bit_or : (x y n : ℕ) → bit_test (bit_or x y) n ≡ (bit_test x n || bit_test y n)
bit_test-bit_or x y n = ground (
  arith,
  bit_test-digit (bit_or x y) n,
  bit_test-digit x n,
  bit_test-digit y n,
  digit-bit_or x y n,
  digit-lt x n,
  digit-lt y n,
)

bit_test-bit_and_one : (x n : ℕ) → bit_test (bit_and x (bit 0)) n ≡ (0 == n && bit_test x n)
bit_test-bit_and_one x n = ground (
  arith,
  bit_test-digit (bit_and x 1) n,
  bit_test-digit x n,
  digit-bit_and x 1 n,
  digit-bit 0 n,
  digit-lt x n,
)

-- For each bit up to 31, bit 0 of the change mask is the hub's over-current change, and bit n of
-- the mask for a port n is set exactly if one of the port's five change bits is.
pub port_change_mask_bit :
    (v : Hub) (n : ℕ)
    → n ≤ 31
    → bit_test (port_change_mask v) n
      ≡ (if n == 0 then bit_test v.usb_change.over_current 0 else port_changed v n)
unfolding port_change_mask
port_change_mask_bit v n h =
    let c = v.usb_change in
    let a = bit_or c.connected c.enabled in
    let b = bit_or a c.suspended in
    let d = bit_or b c.reset in
    let e = bit_or d c.over_current in
    ground (
      arith,
      bit_test-bit_or c.connected c.enabled n,
      bit_test-bit_or a c.suspended n,
      bit_test-bit_or b c.reset n,
      bit_test-bit_or d c.over_current n,
      bit_test-bit_clear e 0 n (omega arith) (omega arith),
      bit_test-bit_and_one c.over_current n,
      bit_test-bit_or (bit_clear e 0) (bit_and c.over_current (bit 0)) n,
    )

-- The digits of 0xff.
byte_digit : (j : ℕ) → j < 8 → digit 0xff j ≡ 1
byte_digit j p = ground (arith, digit-not 8 0 j (omega arith) p, digit-zero j)

byte_bit :
    (i j changes : ℕ)
    → j < 8
    → bit_test (bit_and (changes / 2 ^ (i * 8)) 0xff) j ≡ bit_test changes ((i + 0) * 8 + j)
byte_bit i j changes p =
    let e : (i + 0) * 8 + j ≡ i * 8 + j = omega arith in
    ground (
      arith,
      bit_test-digit (bit_and (changes / 2 ^ (i * 8)) 0xff) j,
      bit_test-digit changes ((i + 0) * 8 + j),
      ap (digit changes) e,
      digit-bit_and (changes / 2 ^ (i * 8)) 0xff j,
      byte_digit j p,
      digit-shr changes (i * 8) j,
      digit-lt changes (i * 8 + j),
    )

-- Byte i of the bitmap, bit j, is the bit 8 i + j of the mask.
change_bytes_bit :
    (rounds i k j changes : ℕ)
    → j < 8
    → k < rounds
    → bit_test (get_or (change_bytes rounds i changes) k 0) j ≡ bit_test changes ((i + k) * 8 + j)
unfolding change_bytes
change_bytes_bit zero i k j changes p q = absurd (omega arith)
change_bytes_bit (suc rounds) i zero j changes p q = byte_bit i j changes p
change_bytes_bit (suc rounds) i (suc k) j changes p q =
    let e : (i + 1 + k) * 8 + j ≡ (i + suc k) * 8 + j = omega arith in
    change_bytes_bit rounds (i + 1) k j changes p (omega arith) ∙ ap (bit_test changes) e

length-change_bytes : (rounds i changes : ℕ) → length (change_bytes rounds i changes) ≡ rounds
unfolding change_bytes
length-change_bytes zero i changes = refl
length-change_bytes (suc rounds) i changes = ap suc (length-change_bytes rounds (i + 1) changes)

no_bytes : (i : ℕ) → get_or {A = ℕ} [] i 0 ≡ 0
no_bytes i = refl

-- For each bit up to the port count, the bitmap of the root hub has as many bytes as the call
-- answers, the answer is 0 exactly if no change is pending, and bit n % 8 of byte n / 8, taken
-- as 0 where there is no such byte, is bit n of the change mask.
pub hub_status_data_bit :
    (v : Hub) (n : ℕ)
    → n ≤ v.port_count
    → ((hub_status_data v).0 ≡ length (hub_status_data v).1)
      × (((hub_status_data v).0 ≡ 0) ↔ (port_change_mask v ≡ 0))
      × (bit_test (get_or (hub_status_data v).1 (n / 8) 0) (n % 8)
          ≡ bit_test (port_change_mask v) n)
unfolding hub_status_data
hub_status_data_bit v n p =
    let mask = port_change_mask v in
    let count = (v.port_count + 8) / 8 in
    let e : (0 + n / 8) * 8 + n % 8 ≡ n = omega arith in
    (
      ground (arith, length-change_bytes count 0 mask),
      ground arith,
      elim (ℕ_discrete mask 0) [
        | yes z ↦ ground (arith, z, bit_test-zero n, bit_test-zero (n % 8), no_bytes (n / 8))
        | no ne ↦ ground (
          arith,
          ne,
          change_bytes_bit count 0 (n / 8) (n % 8) mask (omega arith) (omega arith)
              ∙ ap (bit_test mask) e,
        )
      ],
    )
