-- ===== src/Port.antt =====
-- kernel/src/virtusb_port.c: the port graph. A port function takes its pointers, which may be NULL,
-- and the store; it returns the C result and the new store.
pub mod Laws
use virt_usb.Prelude.{
  ℕ, ◌-◌, ◌+◌, ◌^◌, bit_and, bit_or, Bool, true, false, not, ◌&&◌, ◌||◌, Option, none, some, ◌==◌,
  if◌then◌else◌, is_some, ℤ, success, einval, ebusy, ite,
}
use virt_usb.Topology.{
  PortRef, Owner, Role, invalid, upstream, downstream, Port, zero_port, Topology, port_discrete,
  set_port,
}

-- VIRTUSB_PORT_SPEED_CAP_LOW, FULL, HIGH and ALL
abbrev pub speed_cap_low : ℕ
speed_cap_low = 2 ^ 0

abbrev pub speed_cap_full : ℕ
speed_cap_full = 2 ^ 1

abbrev pub speed_cap_high : ℕ
speed_cap_high = 2 ^ 2

abbrev pub speed_cap_all : ℕ
speed_cap_all = bit_or (bit_or speed_cap_low speed_cap_full) speed_cap_high

abbrev pub is_upstream : Role → Bool
is_upstream upstream = true
is_upstream _ = false

abbrev pub is_downstream : Role → Bool
is_downstream downstream = true
is_downstream _ = false

-- `(speed & (u8)~VIRTUSB_PORT_SPEED_CAP_ALL) == 0U`, for a u8.
unfoldable pub speed_is_valid : ℕ → Bool
speed_is_valid speed = if speed == 0 then false else bit_and speed (2 ^ 8 - 1 - speed_cap_all) == 0

unfoldable pub init : Option PortRef → Role → ℕ → Option Owner → Topology → ℤ × Topology
unfolding speed_is_valid set_port
init none role speed owner t = (einval, t)
init (some port) role speed none t = (einval, t)
init (some port) role speed (some owner) t =
    if not (is_upstream role) && not (is_downstream role)
    then (einval, t)
    else if not (speed_is_valid speed)
    then (einval, t)
    else (
      success,
      set_port port (record zero_port { role = role; owner = some owner; speed = speed }) t,
    )

-- `port->peer = peer`
unfoldable pub set_peer : PortRef → Option PortRef → Topology → Topology
unfolding set_port
set_peer port peer t = set_port port (record (t.port port) { peer = peer }) t

unfoldable pub attach : Option PortRef → Option PortRef → Topology → ℤ × Topology
unfolding set_peer
attach none upstream_port t = (einval, t)
attach (some down) none t = (einval, t)
attach (some down) (some up) t =
    if not (is_downstream (t.port down).role) || not (is_upstream (t.port up).role)
    then (einval, t)
    else if is_some (t.port down).peer || is_some (t.port up).peer
    then (ebusy, t)
    else (success, set_peer up (some down) (set_peer down (some up) t))

-- The peer is cleared only if it points back: the test reads the port after `port->peer = NULL`.
unfoldable pub unlink_peer : PortRef → Option PortRef → Topology → Topology
unfolding set_peer port_discrete
unlink_peer port none t = t
unlink_peer port (some peer) t =
    let t' = set_peer port none t in
    elim (t'.port peer).peer [
      | none ↦ t'
      | some back ↦ ite (port_discrete back port) (set_peer peer none t') t'
    ]

unfoldable pub detach : Option PortRef → Topology → Topology
unfolding unlink_peer
detach none t = t
detach (some port) t = unlink_peer port (t.port port).peer t

unfoldable pub is_attached : Option PortRef → Topology → Bool
is_attached none t = false
is_attached (some port) t = is_some (t.port port).peer

unfoldable pub peer_powered : Option PortRef → Topology → Bool
peer_powered none t = false
peer_powered (some peer) t =
    if not (is_downstream (t.port peer).role) then false else (t.port peer).state_first

unfoldable pub has_vbus : Option PortRef → Topology → Bool
unfolding peer_powered
has_vbus none t = false
has_vbus (some port) t =
    if not (is_upstream (t.port port).role) then false else peer_powered (t.port port).peer t

unfoldable pub set_connection_signaling : Option PortRef → Bool → Topology → ℤ × Topology
unfolding set_port
set_connection_signaling none enabled t = (einval, t)
set_connection_signaling (some port) enabled t =
    if not (is_upstream (t.port port).role)
    then (einval, t)
    else (success, set_port port (record (t.port port) { state_first = enabled }) t)

unfoldable pub set_powered : Option PortRef → Bool → Topology → ℤ × Topology
unfolding set_port
set_powered none powered t = (einval, t)
set_powered (some port) powered t =
    if not (is_downstream (t.port port).role)
    then (einval, t)
    else (success, set_port port (record (t.port port) { state_first = powered }) t)

unfoldable pub set_over_current : Option PortRef → Bool → Topology → ℤ × Topology
unfolding set_port
set_over_current none over_current t = (einval, t)
set_over_current (some port) over_current t =
    if not (is_downstream (t.port port).role)
    then (einval, t)
    else (success, set_port port (record (t.port port) { state_second = over_current }) t)
