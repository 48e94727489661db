-- ===== src/Hub/Defs.antt =====
-- The queries of kernel/src/virtusb_hub.c and its changes of the USB-visible port state.
use virt_usb.Prelude.{
  ℕ, zero, suc, ◌+◌, ◌-◌, bit_and, Bool, true, false, not, ◌&&◌, Option, none, some, ◌∷◌, ◌==◌, ltb,
  leb, if◌then◌else◌, ℤ, success, einval, enoent, enodev, eopnotsupp, ite,
}
use virt_usb.Bits.{bit_test, bit_set, bit_clear}
use virt_usb.Uapi.{PortSpeed, unknown, low, full, high}
use virt_usb.Topology.{PortRef, hub_port, Hub, Topology, port_discrete, set_hub}
use virt_usb.Port.{is_upstream, speed_cap_low, speed_cap_full, speed_cap_high}
use virt_usb.Hub.Speed.{put_speed, read_speed}

-- The call of the status-changed callback is recorded with its context.
unfoldable pub notify_status_changed : Option ℕ → Topology → Topology
notify_status_changed none t = t
notify_status_changed (some hub) t =
    if (t.hub hub).status_changed
    then record t { notified = (hub, (t.hub hub).status_changed_context) ∷ t.notified }
    else t

unfoldable pub port_is_valid : Option ℕ → ℕ → Topology → Bool
port_is_valid none port_number t = false
port_is_valid (some hub) port_number t = ltb 0 port_number && leb port_number (t.hub hub).port_count

-- `virtusb_hub_get_port` and `virtusb_hub_get_port_const`
unfoldable pub get_port : Option ℕ → ℕ → Topology → Option PortRef
get_port none port_number t = none
get_port (some hub) port_number t =
    if not (port_is_valid (some hub) port_number t)
    then none
    else some (hub_port hub (port_number - 1))

-- The loop of `virtusb_hub_find_port_number` with `rounds` indices left.
unfoldable pub find_port_loop : ℕ → ℕ → ℕ → PortRef → Option ℕ
unfolding port_discrete
find_port_loop zero index hub port = none
find_port_loop (suc rounds) index hub port =
    let rest = find_port_loop rounds (index + 1) hub port in
    ite (port_discrete (hub_port hub index) port) (some (index + 1)) rest

-- The result code, and the number that is written through `port_number` if there is one.
unfoldable pub find_port_number : Option ℕ → Option PortRef → Topology → ℤ × Option ℕ
find_port_number none port t = (einval, none)
find_port_number (some hub) none t = (einval, none)
find_port_number (some hub) (some port) t =
    elim (find_port_loop (t.hub hub).port_count 0 hub port) [
      | none ↦ (enoent, none)
      | some port_number ↦ (success, some port_number)
    ]

-- The peer of a downstream port, if it is an upstream port.
unfoldable pub upstream_peer : PortRef → Topology → Option PortRef
upstream_peer port t = elim (t.port port).peer [
  | none ↦ none
  | some peer ↦ if not (is_upstream (t.port peer).role) then none else some peer
]

unfoldable pub port_is_connected : Option ℕ → ℕ → Topology → Bool
port_is_connected hub port_number t = elim (get_port hub port_number t) [
  | none ↦ false
  | some down ↦ elim (upstream_peer down t) [
    | none ↦ false
    | some up ↦ if not (t.port down).state_first then false else (t.port up).state_first
  ]
]

-- The fastest speed that both ends can do.
unfoldable pub speed_of_capabilities : ℕ → PortSpeed
speed_of_capabilities capabilities =
    if not (bit_and capabilities speed_cap_high == 0)
    then high
    else if not (bit_and capabilities speed_cap_full == 0)
    then full
    else if not (bit_and capabilities speed_cap_low == 0)
    then low
    else unknown

unfoldable pub determine_port_speed : Option ℕ → ℕ → Topology → PortSpeed
determine_port_speed hub port_number t = elim (get_port hub port_number t) [
  | none ↦ unknown
  | some down ↦ elim (upstream_peer down t) [
    | none ↦ unknown
    | some up ↦ speed_of_capabilities (bit_and (t.port down).speed (t.port up).speed)
  ]
]

-- `virtusb_hub_set_port_speed`
unfoldable pub set_port_speed : ℕ → PortSpeed → Hub → Hub
set_port_speed port_number speed v = record v {
  usb = record v.usb { speed = put_speed v.usb.speed port_number speed };
}

unfoldable pub get_port_speed : Option ℕ → ℕ → Topology → PortSpeed
get_port_speed none port_number t = unknown
get_port_speed (some hub) port_number t =
    if not (port_is_valid (some hub) port_number t)
    then unknown
    else read_speed (t.hub hub).usb.speed port_number

-- The USB state of a port that is no longer connected.
unfoldable pub clear_port_state : ℕ → Hub → Hub
unfolding bit_clear
clear_port_state port_number v = set_port_speed port_number unknown (record v {
  usb = record v.usb {
    enabled = bit_clear v.usb.enabled port_number;
    suspended = bit_clear v.usb.suspended port_number;
    reset = bit_clear v.usb.reset port_number;
  };
})

-- `hub->usb_change.connected |= BIT(port_number)`
unfoldable pub set_connected_change : ℕ → Hub → Hub
unfolding bit_set
set_connected_change port_number v = record v {
  usb_change = record v.usb_change { connected = bit_set v.usb_change.connected port_number };
}

-- The tail of `virtusb_hub_mark_port_connection_change`: the change bit, and the notification if it
-- was not set before.
unfoldable pub raise_connected_change : ℕ → ℕ → Topology → Topology
unfolding bit_test set_hub
raise_connected_change hub port_number t =
    if bit_test (t.hub hub).usb_change.connected port_number
    then t
    else notify_status_changed (some hub)
        (set_hub hub (set_connected_change port_number (t.hub hub)) t)

unfoldable pub mark_port_connection_change : Option ℕ → ℕ → Topology → Topology
unfolding set_hub
mark_port_connection_change none port_number t = t
mark_port_connection_change (some hub) port_number t =
    if not (port_is_valid (some hub) port_number t)
    then t
    else raise_connected_change hub port_number (
        if not (port_is_connected (some hub) port_number t)
        then set_hub hub (clear_port_state port_number (t.hub hub)) t
        else t)

-- The USB state of a port after a reset, which sets and clears PORT_RESET on the way.
unfoldable pub complete_reset : ℕ → PortSpeed → Hub → Hub
unfolding bit_set bit_clear
complete_reset port_number speed v =
    let v' = set_port_speed port_number speed (record v {
      usb = record v.usb {
        enabled = bit_clear v.usb.enabled port_number;
        suspended = bit_clear v.usb.suspended port_number;
        reset = bit_set v.usb.reset port_number;
      };
    }) in
    record v' {
      usb = record v'.usb {
        reset = bit_clear v'.usb.reset port_number;
        enabled = bit_set v'.usb.enabled port_number;
      };
    }

-- The end of `virtusb_hub_reset_port`: C_PORT_RESET, and the notification if it was not set before.
unfoldable pub raise_reset_change : ℕ → ℕ → Topology → Topology
unfolding bit_test bit_set set_hub
raise_reset_change hub port_number t =
    let v = t.hub hub in
    if not (bit_test v.usb_change.reset port_number)
    then notify_status_changed (some hub) (
        set_hub hub
          (record v {
            usb_change = record v.usb_change { reset = bit_set v.usb_change.reset port_number };
          })
          t)
    else t

-- `speed == VIRTUSB_PORT_SPEED_NONE`
abbrev pub is_unknown : PortSpeed → Bool
is_unknown unknown = true
is_unknown _ = false

unfoldable pub reset_port : Option ℕ → ℕ → Topology → ℤ × Topology
unfolding set_hub
reset_port none port_number t = (einval, t)
reset_port (some hub) port_number t =
    if not (port_is_valid (some hub) port_number t)
    then (einval, t)
    else if not (port_is_connected (some hub) port_number t)
    then (enodev, t)
    else let speed = determine_port_speed (some hub) port_number t in
      if is_unknown speed then (eopnotsupp, t) else (
        success,
        raise_reset_change hub port_number
            (set_hub hub (complete_reset port_number speed (t.hub hub)) t),
      )
