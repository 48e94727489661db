-- ===== src/Hcd/Urb/Routing.antt =====
-- The device that an URB is for (kernel/src/virtusb_hcd.c, `virtusb_hcd_get_urb_device`).
use virt_usb.Prelude.{ℕ, ◌-◌, ◌<◌, true, some, ◌≡◌, ◌↔◌, inl, inr, refl, arith, Option-cases}
use virt_usb.Topology.{PortRef, hub_port, device_port, device_owner, upstream, Topology}
use virt_usb.Channel.{Urb}
use virt_usb.Hub.Defs.{get_port, port_is_valid, upstream_peer}
use virt_usb.Hub.Change.{IsWellFormed}
use virt_usb.Hcd.Urb.{device_at, get_urb_device}

-- The far end of a hub's port is a device that owns it.
far_end :
    (h i : ℕ) (q : PortRef) (t : Topology)
    → IsWellFormed t
    → i < (t.hub h).port_count
    → (t.port (hub_port h i)).peer ≡ some q
    → (d : ℕ) × (q ≡ device_port d)
      × ((t.port q).role ≡ upstream)
      × ((t.port q).owner ≡ some (device_owner d))
far_end h i (device_port d) t w p e =
    let back = w.links.mutual_peers (hub_port h i) (device_port d) e in
    (d, refl, ground (arith, w.device_ports d, back), ground (arith, w.device_ports d, back))
far_end h i (hub_port g j) t w p e = absurd (
    ground (
      arith,
      w.hub_ports h i p,
      w.hub_ports g j,
      w.spare_ports g j,
      w.links.mutual_peers (hub_port h i) (hub_port g j) e,
      w.links.opposite_roles (hub_port h i) (hub_port g j) e,
    ))

-- On a well-formed port graph, an URB of a device below the root hub with a valid port number
-- reaches a device exactly if the device's port is the peer of that port of the root hub.
pub get_urb_device_link :
    (h d : ℕ) (u : Urb) (t : Topology)
    → IsWellFormed t
    → u.has_device ≡ true
    → u.at_root ≡ true
    → port_is_valid (some h) u.portnum t ≡ true
    → (get_urb_device h u t ≡ some d)
      ↔ ((t.port (hub_port h (u.portnum - 1))).peer ≡ some (device_port d))
unfolding get_urb_device device_at get_port upstream_peer port_is_valid
get_urb_device_link h d u t w a b v =
    elim (Option-cases (t.port (hub_port h (u.portnum - 1))).peer) [
      | inl e ↦ ground (arith, a, b, v, e)
      | inr (q, e) ↦
          let inside : u.portnum - 1 < (t.hub h).port_count = ground (arith, v) in
          ground (arith, a, b, v, e, far_end h (u.portnum - 1) q t w inside e)
    ]
