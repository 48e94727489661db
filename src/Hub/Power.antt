-- ===== src/Hub/Power.antt =====
-- Port power and over-current in kernel/src/virtusb_hub.c.
use virt_usb.Prelude.{
  ℕ, zero, suc, ◌+◌, ◌-◌, Bool, true, false, not, Option, none, some, ◌==◌, differ, if◌then◌else◌,
  is_negative, ℤ, success, einval,
}
use virt_usb.Topology.{
  PortRef, hub_port, PowerSwitchingMode, ganged, individual, OverCurrentMode, global, per_port,
  no_detection, Topology, set_hub,
}
use virt_usb.Port
use virt_usb.Hub.Defs.{get_port, port_is_connected, mark_port_connection_change}

abbrev pub is_ganged : PowerSwitchingMode → Bool
is_ganged ganged = true
is_ganged individual = false

abbrev pub is_per_port : OverCurrentMode → Bool
is_per_port per_port = true
is_per_port _ = false

abbrev pub is_global : OverCurrentMode → Bool
is_global global = true
is_global _ = false

-- The mode is the C value of the enumerator, which need not be one of them.
unfoldable pub set_power_switching_mode : Option ℕ → ℕ → Topology → ℤ × Topology
unfolding set_hub
set_power_switching_mode none mode t = (einval, t)
set_power_switching_mode (some hub) mode t =
    if mode == 0
    then (success, set_hub hub (record (t.hub hub) { power_switching_mode = ganged }) t)
    else if mode == 1
    then (success, set_hub hub (record (t.hub hub) { power_switching_mode = individual }) t)
    else (einval, t)

unfoldable pub set_over_current_mode : Option ℕ → ℕ → Topology → ℤ × Topology
unfolding set_hub
set_over_current_mode none mode t = (einval, t)
set_over_current_mode (some hub) mode t =
    if mode == 0
    then (success, set_hub hub (record (t.hub hub) { over_current_mode = global }) t)
    else if mode == 1
    then (success, set_hub hub (record (t.hub hub) { over_current_mode = per_port }) t)
    else if mode == 2
    then (success, set_hub hub (record (t.hub hub) { over_current_mode = no_detection }) t)
    else (einval, t)

-- The part that `virtusb_hub_set_port_power` and the loop of `virtusb_hub_set_all_ports_power` share:
-- the power of one port, and the change of the connection that it makes.
unfoldable pub switch_port : ℕ → ℕ → PortRef → Bool → Topology → ℤ × Topology
switch_port hub port_number port powered t =
    let was_connected = port_is_connected (some hub) port_number t in
    let (ret, t') = Port.set_powered (some port) powered t in
    if is_negative ret then (ret, t') else (
      success,
      if differ was_connected (port_is_connected (some hub) port_number t')
          then mark_port_connection_change (some hub) port_number t'
          else t',
    )

-- `rounds` ports are left, from `port_number` on.
unfoldable pub switch_ports : ℕ → ℕ → ℕ → Bool → Topology → ℤ × Topology
switch_ports zero hub port_number powered t = (success, t)
switch_ports (suc rounds) hub port_number powered t =
    let (ret, t') = switch_port hub port_number (hub_port hub (port_number - 1)) powered t in
    let rest = switch_ports rounds hub (port_number + 1) powered t' in
    if is_negative ret then (ret, t') else rest

unfoldable pub set_all_ports_power : Option ℕ → Bool → Topology → ℤ × Topology
set_all_ports_power none powered t = (einval, t)
set_all_ports_power (some hub) powered t = switch_ports (t.hub hub).port_count hub 1 powered t

unfoldable pub set_port_power : Option ℕ → ℕ → Bool → Topology → ℤ × Topology
set_port_power none port_number powered t = (einval, t)
set_port_power (some hub) port_number powered t = elim (get_port (some hub) port_number t) [
  | none ↦ (einval, t)
  | some port ↦
      if is_ganged (t.hub hub).power_switching_mode
      then set_all_ports_power (some hub) powered t
      else switch_port hub port_number port powered t
]

unfoldable pub port_is_powered : Option ℕ → ℕ → Topology → Bool
port_is_powered hub port_number t = elim (get_port hub port_number t) [
  | none ↦ false
  | some port ↦ (t.port port).state_first
]

unfoldable pub set_port_over_current : Option ℕ → ℕ → Bool → Topology → ℤ × Topology
set_port_over_current none port_number over_current t = (einval, t)
set_port_over_current (some hub) port_number over_current t =
    if not (is_per_port (t.hub hub).over_current_mode)
    then (einval, t)
    else elim (get_port (some hub) port_number t) [
      | none ↦ (einval, t)
      | some port ↦ Port.set_over_current (some port) over_current t
    ]

unfoldable pub port_is_over_current : Option ℕ → ℕ → Topology → Bool
port_is_over_current none port_number t = false
port_is_over_current (some hub) port_number t =
    if not (is_per_port (t.hub hub).over_current_mode)
    then false
    else elim (get_port (some hub) port_number t) [
      | none ↦ false
      | some port ↦ (t.port port).state_second
    ]

unfoldable pub set_over_current : Option ℕ → Bool → Topology → Topology
unfolding set_hub
set_over_current none over_current t = t
set_over_current (some hub) over_current t =
    if not (is_global (t.hub hub).over_current_mode)
    then t
    else set_hub hub (record (t.hub hub) { over_current = over_current }) t

unfoldable pub is_over_current : Option ℕ → Topology → Bool
is_over_current none t = false
is_over_current (some hub) t =
    if not (is_global (t.hub hub).over_current_mode) then false else (t.hub hub).over_current
