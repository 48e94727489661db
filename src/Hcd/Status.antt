-- ===== src/Hcd/Status.antt =====
-- The status and change words of kernel/src/virtusb_hcd.c.
pub mod Laws
use virt_usb.Prelude.{
  ℕ, zero, suc, ◌+◌, ◌*◌, ◌/◌, ◌%◌, ◌^◌, bit_and, bit_or, Bool, Option, some, List, [], ◌∷◌, ◌==◌,
  if◌then◌else◌,
}
use virt_usb.Uapi.{PortSpeed, unknown, low, full, high}
use virt_usb.Topology.{Hub, Topology}
use virt_usb.Bits.{bit, bit_test, bit_clear, bit_set}
use virt_usb.Hub.Defs.{port_is_connected, get_port_speed}
use virt_usb.Hub.Power.{port_is_over_current, port_is_powered}
use virt_usb.Hcd.Usb.{
  stat_connection, stat_enable, stat_suspend, stat_overcurrent, stat_reset, stat_power,
  stat_low_speed, stat_high_speed,
}

-- `if (test) word |= BIT(n);`
unfoldable pub set_if : Bool → ℕ → ℕ → ℕ
unfolding bit_set
set_if test n word = if test then bit_set word n else word

-- Bit 0 stands for the hub, and only its over-current change counts there.
unfoldable pub port_change_mask : Hub → ℕ
unfolding bit_clear
port_change_mask v =
    let changes =
      bit_or
        (bit_or (bit_or (bit_or v.usb_change.connected v.usb_change.enabled) v.usb_change.suspended)
          v.usb_change.reset)
        v.usb_change.over_current in
    bit_or (bit_clear changes 0) (bit_and v.usb_change.over_current (bit 0))

-- The speed bits of a port's status.
unfoldable pub add_speed : PortSpeed → ℕ → ℕ
unfolding bit_set
add_speed unknown status = status
add_speed low status = bit_set status stat_low_speed
add_speed full status = status
add_speed high status = bit_set status stat_high_speed

-- The status without the speed bits.
unfoldable pub build_port_flags : ℕ → ℕ → Topology → ℕ
unfolding bit_test
build_port_flags hub port_number t = set_if (port_is_powered (some hub) port_number t) stat_power (
    set_if (bit_test (t.hub hub).usb.reset port_number) stat_reset (
      set_if (port_is_over_current (some hub) port_number t) stat_overcurrent (
        set_if (bit_test (t.hub hub).usb.suspended port_number) stat_suspend (
          set_if (bit_test (t.hub hub).usb.enabled port_number) stat_enable
            (set_if (port_is_connected (some hub) port_number t) stat_connection 0)))))

unfoldable pub build_port_status : ℕ → ℕ → Topology → ℕ
build_port_status hub port_number t =
    add_speed (get_port_speed (some hub) port_number t) (build_port_flags hub port_number t)

unfoldable pub build_port_change : ℕ → ℕ → Topology → ℕ
unfolding bit_test
build_port_change hub port_number t =
    let change = (t.hub hub).usb_change in
    set_if (bit_test change.reset port_number) stat_reset (
      set_if (bit_test change.over_current port_number) stat_overcurrent (
        set_if (bit_test change.suspended port_number) stat_suspend (
          set_if (bit_test change.enabled port_number) stat_enable
            (set_if (bit_test change.connected port_number) stat_connection 0))))

-- The loop of `virtusb_hcd_hub_status_data` with `rounds` bytes left, from byte `i` on.
unfoldable pub change_bytes : ℕ → ℕ → ℕ → List ℕ
change_bytes zero i changes = []
change_bytes (suc rounds) i changes =
    bit_and (changes / 2 ^ (i * 8)) 0xff ∷ change_bytes rounds (i + 1) changes

-- The number of bytes and the bytes.
unfoldable pub hub_status_data : Hub → ℕ × List ℕ
hub_status_data v =
    let changes = port_change_mask v in
    let byte_count = (v.port_count + 8) / 8 in
    if changes == 0 then (0, []) else (byte_count, change_bytes byte_count 0 changes)
