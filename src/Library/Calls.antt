-- ===== src/Library/Calls.antt =====
-- libvirtusb/src/virtusb.c: the calls for the hub, its ports and the devices.
use virt_usb.Prelude.{
  ℕ, Bool, not, Option, none, some, List, ◌++◌, map, ◌-◌, ◌==◌, if◌then◌else◌, min, take, replicate,
  length, ℤ, success, einval, negated,
}
use virt_usb.Control.Status.{PortState, zero_port_state, PortStatus}
use virt_usb.Library.System.{
  System, Process, failed, answered, DeviceCreate, Message, device_destroy, device_attach,
  device_detach, device_connection, set_port_power,
}
use virt_usb.Library.Handle.{Handle, bad, usable, descriptor}

-- enum virtusb_speed of libvirtusb/include/virtusb.h
pub data Speed : Type 0 where
  speed_none speed_low speed_full speed_high : Speed

-- VIRTUSB_MAX_PORTS
abbrev pub max_ports : ℕ
max_ports = 31

-- struct virtusb_state and struct virtusb_status
pub record State : Type 0 where
  pub status : ℕ
  pub change : ℕ
  pub speed : Speed

pub record Status : Type 0 where
  pub hub_id : ℕ
  pub port : ℕ
  pub port_count : ℕ
  pub state : State
  pub ports : List State

abbrev pub zero_state : State
zero_state = record { status = 0; change = 0; speed = speed_none }

unfoldable pub speed_from_uapi : ℕ → Speed
speed_from_uapi speed =
    if speed == 1
    then speed_low
    else if speed == 2
    then speed_full
    else if speed == 3
    then speed_high
    else speed_none

unfoldable pub state_from_uapi : PortState → State
state_from_uapi source = record {
  status = source.status;
  change = source.change;
  speed = speed_from_uapi source.speed;
}

-- The states of the ports that the loop of `virtusb_get_port_status` writes.
unfoldable pub states_from_uapi : PortStatus → List State
states_from_uapi request =
    map state_from_uapi (take (min request.port_count max_ports) request.ports)

-- `ports` of a status that was zeroed before the loop.
unfoldable pub ports_of : PortStatus → List State
ports_of request =
    let written = states_from_uapi request in
    if request.port == 0
    then written ++ replicate (max_ports - length written) zero_state
    else replicate max_ports zero_state

unfoldable pub status_of : PortStatus → Status
status_of request = record {
  hub_id = request.hub_id;
  port = request.port;
  port_count = request.port_count;
  state = state_from_uapi request.state;
  ports = ports_of request;
}

-- A request after `memset`, with the hub and the port.
abbrev pub status_request : ℕ → ℕ → PortStatus
status_request hub_id port = record {
  hub_id = hub_id;
  port = port;
  port_count = 0;
  state = zero_port_state;
  ports = replicate max_ports zero_port_state;
}

module _ {K : Type 0} (sys : System K) where
  unfoldable pub ask_port_status : ℕ → PortStatus → Process K → ℤ × Option Status × Process K
  ask_port_status fd request p =
      let (answer, k) = sys.ask_status fd request p.kernel in
      elim answer [
        | failed e ↦ (negated e, none, record p { kernel = k })
        | answered reply ↦ (success, some (status_of reply), record p { kernel = k })
      ]

  -- The result, what `*status` gets and the process; `wanted` is `status != NULL`.
  unfoldable pub get_port_status :
      Option Handle → ℕ → ℕ → Bool → Process K → ℤ × Option Status × Process K
  get_port_status handle hub_id port wanted p =
      if not wanted then (einval, none, p) else elim (descriptor handle) [
        | bad ret ↦ (ret, none, p)
        | usable fd ↦ ask_port_status fd (status_request hub_id port) p
      ]

  unfoldable pub ask_device_create : ℕ → DeviceCreate → Process K → ℤ × Option ℕ × Process K
  ask_device_create fd request p =
      let (answer, k) = sys.ask_device fd request p.kernel in
      elim answer [
        | failed e ↦ (negated e, none, record p { kernel = k })
        | answered reply ↦ (success, some reply.object_id, record p { kernel = k })
      ]

  -- `wanted` is `object_id != NULL`.
  unfoldable pub create : Option Handle → ℕ → Bool → Process K → ℤ × Option ℕ × Process K
  create handle speed_caps wanted p =
      if not wanted then (einval, none, p) else elim (descriptor handle) [
        | bad ret ↦ (ret, none, p)
        | usable fd ↦ ask_device_create fd (record { speed_caps = speed_caps; object_id = 0 }) p
      ]

  -- A command that answers nothing, on an open descriptor and on a handle.
  unfoldable pub send_to : ℕ → Message → Process K → ℤ × Process K
  send_to fd message p =
      let (refused, k) = sys.send fd message p.kernel in
      elim refused [
        | none ↦ (success, record p { kernel = k })
        | some e ↦ (negated e, record p { kernel = k })
      ]

  unfoldable pub send : Option Handle → Message → Process K → ℤ × Process K
  send handle message p = elim (descriptor handle) [
    | bad ret ↦ (ret, p)
    | usable fd ↦ send_to fd message p
  ]

  unfoldable pub destroy : Option Handle → ℕ → Bool → Process K → ℤ × Process K
  destroy handle object_id force p =
      send handle (device_destroy object_id (if force then 1 else 0)) p

  unfoldable pub attach : Option Handle → ℕ → ℕ → ℕ → Process K → ℤ × Process K
  attach handle object_id hub_id port p = send handle (device_attach object_id hub_id port) p

  unfoldable pub detach : Option Handle → ℕ → Process K → ℤ × Process K
  detach handle object_id p = send handle (device_detach object_id) p

  unfoldable pub set_connected : Option Handle → ℕ → Bool → Process K → ℤ × Process K
  set_connected handle object_id connected p =
      send handle (device_connection object_id (if connected then 1 else 0)) p

  unfoldable pub power_port : Option Handle → ℕ → ℕ → Bool → Process K → ℤ × Process K
  power_port handle hub_id port powered p =
      send handle (set_port_power hub_id port (if powered then 1 else 0)) p
