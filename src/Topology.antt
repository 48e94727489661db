-- ===== src/Topology.antt =====
-- Ports and hubs (kernel/include/virtusb_port.h, kernel/include/virtusb_hub.h), and the store that
-- holds them. A pointer is `Option` of a reference, with `none` for NULL.
use virt_usb.Prelude.{ℕ, Bool, false, Option, none, List, ite, ℕ_discrete}

-- The address of a port: `&hub->ports[index]` or `&device->upstream_port`. The ports are members of
-- their structures, so ports of different structures or indices are different ports.
pub data PortRef : Type 0 where
  hub_port : ℕ → ℕ → PortRef
  device_port : ℕ → PortRef

-- The `void *owner` of a port: the hub or the device that embeds it.
pub data Owner : Type 0 where
  hub_owner : ℕ → Owner
  device_owner : ℕ → Owner

pub data Role : Type 0 where
  invalid upstream downstream : Role

-- The members of the `state` union that start at the same offset share a field:
-- `state.upstream.connection_signaling` and `state.downstream.powered` are `state_first`, and
-- `state.downstream.over_current` is `state_second`.
pub record Port : Type 0 where
  pub role : Role
  pub owner : Option Owner
  pub speed : ℕ
  pub peer : Option PortRef
  pub state_first : Bool
  pub state_second : Bool

-- `memset(port, 0, sizeof(*port))`
abbrev pub zero_port : Port
zero_port = record {
  role = invalid;
  owner = none;
  speed = 0;
  peer = none;
  state_first = false;
  state_second = false;
}

pub data PowerSwitchingMode : Type 0 where
  ganged individual : PowerSwitchingMode

pub data OverCurrentMode : Type 0 where
  global per_port no_detection : OverCurrentMode

-- The USB-controlled port state: bit n of a word is port n, and `speed` is the packed speed map of
-- two words.
pub record UsbState : Type 0 where
  pub enabled : ℕ
  pub suspended : ℕ
  pub reset : ℕ
  pub speed : ℕ → ℕ

abbrev pub zero_usb_state : UsbState
zero_usb_state = record { enabled = 0; suspended = 0; reset = 0; speed = λ _. 0 }

pub record UsbChange : Type 0 where
  pub connected : ℕ
  pub enabled : ℕ
  pub suspended : ℕ
  pub reset : ℕ
  pub over_current : ℕ

abbrev pub zero_usb_change : UsbChange
zero_usb_change = record { connected = 0; enabled = 0; suspended = 0; reset = 0; over_current = 0 }

-- `ports` stands in the store, at `hub_port`. `status_changed` says whether a callback is set, and
-- the context is the HCD it is called with.
pub record Hub : Type 0 where
  pub port_count : ℕ
  pub power_switching_mode : PowerSwitchingMode
  pub over_current_mode : OverCurrentMode
  pub over_current : Bool
  pub usb : UsbState
  pub usb_change : UsbChange
  pub status_changed : Bool
  pub status_changed_context : Option ℕ

-- `memset(hub, 0, sizeof(*hub))`, but for the ports.
abbrev pub zero_hub : Hub
zero_hub = record {
  port_count = 0;
  power_switching_mode = ganged;
  over_current_mode = global;
  over_current = false;
  usb = zero_usb_state;
  usb_change = zero_usb_change;
  status_changed = false;
  status_changed_context = none;
}

-- All ports and hubs, and the calls of status-changed callbacks made so far, the latest first: the
-- hub and the context of each.
pub record Topology : Type 0 where
  pub port : PortRef → Port
  pub hub : ℕ → Hub
  pub notified : List (ℕ × Option ℕ)

unfoldable pub port_discrete : Discrete PortRef
unfolding ℕ_discrete
port_discrete = hlevel ℕ_discrete

-- `*ref = p`
unfoldable pub set_port : PortRef → Port → Topology → Topology
unfolding port_discrete
set_port ref p t = record t { port = λ q. ite (port_discrete q ref) p (t.port q) }

-- `*hub = v`
unfoldable pub set_hub : ℕ → Hub → Topology → Topology
unfolding ℕ_discrete
set_hub h v t = record t { hub = λ g. ite (ℕ_discrete g h) v (t.hub g) }
