-- ===== src/Control/Status.antt =====
-- The port status of kernel/src/virtusb_control.c.
pub mod Laws
use virt_usb.Prelude.{
  ℕ, zero, suc, ◌+◌, ◌-◌, Bool, true, false, not, ◌&&◌, ◌||◌, Option, none, some, List, [], ◌∷◌,
  ◌++◌, ◌==◌, ltb, if◌then◌else◌, replicate, ℤ, success, efault, enodev, einval,
}
use virt_usb.Uapi.{PortSpeed, unknown, speed_value, root_hub_id, max_hub_ports}
use virt_usb.Topology.{Hub, Topology}
use virt_usb.Bits.{bit_test}
use virt_usb.Hub.Defs.{port_is_connected, get_port_speed}
use virt_usb.Hub.Power.{port_is_over_current, port_is_powered, is_over_current}
use virt_usb.Hcd.Status.{set_if}

-- VIRTUSB_PORT_STATUS_* and VIRTUSB_PORT_CHANGE_*, as the positions of their bits
abbrev pub status_connected : ℕ
status_connected = 0

abbrev pub status_enabled : ℕ
status_enabled = 1

abbrev pub status_suspended : ℕ
status_suspended = 2

abbrev pub status_over_current : ℕ
status_over_current = 3

abbrev pub status_reset : ℕ
status_reset = 4

abbrev pub status_power : ℕ
status_power = 8

-- struct virtusb_port_state
pub record PortState : Type 0 where
  pub status : ℕ
  pub change : ℕ
  pub speed : ℕ

abbrev pub zero_port_state : PortState
zero_port_state = record { status = 0; change = 0; speed = 0 }

unfoldable pub build_status : ℕ → ℕ → Topology → ℕ
unfolding bit_test
build_status hub port t = set_if (ltb 0 port && port_is_powered (some hub) port t) status_power (
    set_if (bit_test (t.hub hub).usb.reset port) status_reset (
      set_if
        ((port == 0 && is_over_current (some hub) t)
          || (ltb 0 port && port_is_over_current (some hub) port t))
        status_over_current
        (set_if (bit_test (t.hub hub).usb.suspended port) status_suspended (
          set_if (bit_test (t.hub hub).usb.enabled port) status_enabled
            (set_if (ltb 0 port && port_is_connected (some hub) port t) status_connected 0)))))

unfoldable pub build_change : ℕ → ℕ → Topology → ℕ
unfolding bit_test
build_change hub port t =
    let change = (t.hub hub).usb_change in
    set_if (bit_test change.reset port) status_reset (
      set_if (bit_test change.over_current port) status_over_current (
        set_if (bit_test change.suspended port) status_suspended (
          set_if (bit_test change.enabled port) status_enabled
            (set_if (bit_test change.connected port) status_connected 0))))

unfoldable pub build_port_state : ℕ → ℕ → Topology → PortState
build_port_state hub port t = record {
  status = build_status hub port t;
  change = build_change hub port t;
  speed = if port == 0 then 0 else speed_value (get_port_speed (some hub) port t);
}

-- struct virtusb_port_status
pub record PortStatus : Type 0 where
  pub hub_id : ℕ
  pub port : ℕ
  pub port_count : ℕ
  pub state : PortState
  pub ports : List PortState

-- The loop over the ports with `rounds` left, from `port` on.
unfoldable pub build_ports : ℕ → ℕ → ℕ → Topology → List PortState
build_ports zero hub port t = []
build_ports (suc rounds) hub port t =
    build_port_state hub port t ∷ build_ports rounds hub (port + 1) t

-- The answer to a request; the entries of `ports` that the loop does not write are zero.
unfoldable pub answer : ℕ → PortStatus → Topology → PortStatus
answer hub request t =
    let count = (t.hub hub).port_count in
    record request {
      port_count = count;
      state = build_port_state hub request.port t;
      ports =
          if request.port == 0
          then build_ports count hub 1 t ++ replicate (max_hub_ports - count) zero_port_state
          else replicate max_hub_ports zero_port_state;
    }

-- The result, and what is written to user space.
unfoldable pub get_port_status : ℕ → Option PortStatus → Bool → Topology → ℤ × Option PortStatus
get_port_status hub none copied t = (efault, none)
get_port_status hub (some request) copied t =
    if not (request.hub_id == root_hub_id)
    then (enodev, none)
    else if ltb (t.hub hub).port_count request.port
    then (einval, none)
    else if not copied
    then (efault, none)
    else (success, some (answer hub request t))
