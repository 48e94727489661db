-- ===== src/Device/Link.antt =====
-- Attachment and connection signaling of a device (kernel/src/virtusb_device.c), on the port graph.
-- A device is the reference of its object.
use virt_usb.Prelude.{
  ℕ, Bool, false, not, Option, none, some, if◌then◌else◌, is_negative, differ, ℤ, success, einval,
}
use virt_usb.Topology.{PortRef, device_port, Owner, hub_owner, device_owner, Topology}
use virt_usb.Port
use virt_usb.Port.{is_downstream}
use virt_usb.Hub.Defs.{port_is_connected, find_port_number, mark_port_connection_change}

-- `hub = port->owner`, a hub where the port is downstream.
abbrev pub hub_of_owner : Option Owner → Option ℕ
hub_of_owner none = none
hub_of_owner (some (hub_owner hub)) = some hub
hub_of_owner (some (device_owner device)) = none

-- The hub of a downstream port, with the port's number there.
unfoldable pub locate : Option ℕ → PortRef → Topology → Option (ℕ × ℕ)
locate none port t = none
locate (some hub) port t = elim ((find_port_number (some hub) (some port) t).1) [
  | none ↦ none
  | some port_number ↦ some (hub, port_number)
]

unfoldable pub get_attached_hub : Option ℕ → Topology → Option (ℕ × ℕ)
get_attached_hub none t = none
get_attached_hub (some device) t = elim (t.port (device_port device)).peer [
  | none ↦ none
  | some down ↦
      if not (is_downstream (t.port down).role)
      then none
      else locate (hub_of_owner (t.port down).owner) down t
]

-- The end of `virtusb_device_attach`, `virtusb_device_detach` and
-- `virtusb_device_set_connection_signaling`: the change bit, if the connection changed.
unfoldable pub report_change : Bool → ℕ → ℕ → Topology → Topology
report_change was_connected hub port_number t =
    if differ was_connected (port_is_connected (some hub) port_number t)
    then mark_port_connection_change (some hub) port_number t
    else t

-- `virtusb_device_attach` from the lookup of the port's number on.
unfoldable pub attach_at : ℕ → ℕ → PortRef → ℕ → Topology → ℤ × Topology
attach_at device hub port port_number t =
    let was_connected = port_is_connected (some hub) port_number t in
    let (ret, t') = Port.attach (some port) (some (device_port device)) t in
    if is_negative ret then (ret, t') else (success, report_change was_connected hub port_number t')

unfoldable pub attach : Option ℕ → Option PortRef → Topology → ℤ × Topology
attach none port t = (einval, t)
attach (some device) none t = (einval, t)
attach (some device) (some port) t = elim (hub_of_owner (t.port port).owner) [
  | none ↦ (einval, t)
  | some hub ↦ elim ((find_port_number (some hub) (some port) t).1) [
    | none ↦ ((find_port_number (some hub) (some port) t).0, t)
    | some port_number ↦ attach_at device hub port port_number t
  ]
]

unfoldable pub detach : Option ℕ → Topology → Topology
detach none t = t
detach (some device) t = elim (get_attached_hub (some device) t) [
  | none ↦ Port.detach (some (device_port device)) t
  | some (hub, port_number) ↦
      let t' = Port.detach (some (device_port device)) t in
      if port_is_connected (some hub) port_number t
      then mark_port_connection_change (some hub) port_number t'
      else t'
]

unfoldable pub set_connection_signaling : Option ℕ → Bool → Topology → ℤ × Topology
set_connection_signaling none enabled t = (einval, t)
set_connection_signaling (some device) enabled t = elim (get_attached_hub (some device) t) [
  | none ↦ Port.set_connection_signaling (some (device_port device)) enabled t
  | some (hub, port_number) ↦
      let was_connected = port_is_connected (some hub) port_number t in
      let (ret, t') = Port.set_connection_signaling (some (device_port device)) enabled t in
      if is_negative ret
      then (ret, t')
      else (success, report_change was_connected hub port_number t')
]

unfoldable pub has_vbus : Option ℕ → Topology → Bool
has_vbus none t = false
has_vbus (some device) t = Port.has_vbus (some (device_port device)) t
