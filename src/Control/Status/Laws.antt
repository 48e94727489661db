-- ===== src/Control/Status/Laws.antt =====
-- The two reports of a port's state: the root hub's (kernel/src/virtusb_hcd.c) and the control
-- device's (kernel/src/virtusb_control.c).
use virt_usb.Prelude.{ℕ, ◌≤◌, ◌≡◌, arith, some, refl, Bool, ltb, ◌==◌, ◌&&◌, ◌||◌}
use virt_usb.Uapi.{speed_of_value, speed_value, PortSpeed}
use virt_usb.Topology.{Topology}
use virt_usb.Hub.Defs.{get_port_speed}
use virt_usb.Hub.Power.{port_is_powered, port_is_over_current, is_over_current}
use virt_usb.Hub.Defs.{port_is_connected}
use virt_usb.Hcd.Status.{build_port_flags, build_port_status, build_port_change, add_speed}
use virt_usb.Control.Status.{build_status, build_change, build_port_state}

positive_and : (n : ℕ) (b : Bool) → 1 ≤ n → (ltb 0 n && b) ≡ b
positive_and n b h = ground arith

positive_or : (n : ℕ) (a b : Bool) → 1 ≤ n → ((n == 0 && a) || (ltb 0 n && b)) ≡ b
positive_or n a b h = ground arith

build_status-build_port_flags :
    (h n : ℕ) (t : Topology) → 1 ≤ n → build_status h n t ≡ build_port_flags h n t
unfolding build_status build_port_flags
build_status-build_port_flags h n t p =
    rw
      (
        positive_and n (port_is_powered (some h) n t) p,
        positive_and n (port_is_connected (some h) n t) p,
        positive_or n (is_over_current (some h) t) (port_is_over_current (some h) n t) p,
      )
      refl

speed_of_value-speed_value : (s : PortSpeed) → speed_of_value (speed_value s) ≡ s
speed_of_value-speed_value s = ground arith

-- For a port number of at least 1, the root hub's status word is the control device's status
-- word with the bits of the speed that the control device reports, and the two change words are
-- equal.
pub port_state_agrees :
    (h n : ℕ) (t : Topology)
    → 1 ≤ n
    → (build_port_status h n t
        ≡ add_speed (speed_of_value (build_port_state h n t).speed) (build_port_state h n t).status)
      × (build_port_change h n t ≡ (build_port_state h n t).change)
unfolding build_port_status build_port_state build_port_change build_change
port_state_agrees h n t p = (
  ground (
    arith,
    build_status-build_port_flags h n t p,
    speed_of_value-speed_value (get_port_speed (some h) n t),
  ),
  refl,
)
