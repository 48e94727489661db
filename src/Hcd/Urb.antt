-- ===== src/Hcd/Urb.antt =====
-- The path of URBs through kernel/src/virtusb_hcd.c: from an URB to a device, a transfer and the
-- backend.
pub mod Routing
use virt_usb.Prelude.{
  ℕ, ◌%◌, ◌^◌, Bool, not, ◌&&◌, ◌||◌, Option, none, some, List, ◌==◌, ltb, if◌then◌else◌, is_some,
  ℤ, einval, enodev, enomem, emsgsize, eopnotsupp,
}
use virt_usb.Uapi.{transfer_data_max}
use virt_usb.Topology.{Owner, hub_owner, device_owner, Topology}
use virt_usb.Hub.Defs.{get_port, upstream_peer}
use virt_usb.Channel.{
  Urb, Channel, type_control, type_isochronous, type_bulk, type_interrupt, direction_out,
  direction_in,
}
use virt_usb.Transfer
use virt_usb.Backend.Submit.{submit, cancel}

-- `upstream->owner`, a device where the port is upstream.
abbrev pub device_of_owner : Option Owner → Option ℕ
device_of_owner none = none
device_of_owner (some (device_owner device)) = some device
device_of_owner (some (hub_owner hub)) = none

-- The device behind a port of the root hub `hub`.
unfoldable pub device_at : ℕ → ℕ → Topology → Option ℕ
device_at hub port_number t = elim (get_port (some hub) port_number t) [
  | none ↦ none
  | some down ↦ elim (upstream_peer down t) [
    | none ↦ none
    | some up ↦ device_of_owner (t.port up).owner
  ]
]

unfoldable pub get_urb_device : ℕ → Urb → Topology → Option ℕ
get_urb_device hub u t =
    if not u.has_device then none else if not u.at_root then none else device_at hub u.portnum t

-- PIPE_ISOCHRONOUS, PIPE_INTERRUPT, PIPE_CONTROL and PIPE_BULK are 0 to 3; none is -EINVAL.
unfoldable pub get_transfer_type : ℕ → Option ℕ
get_transfer_type pipe_type =
    if pipe_type == 2
    then some type_control
    else if pipe_type == 0
    then some type_isochronous
    else if pipe_type == 3
    then some type_bulk
    else if pipe_type == 1
    then some type_interrupt
    else none

-- `usb_pipein(urb->pipe) ? IN : OUT`
abbrev pub direction_of : Urb → ℕ
direction_of u = if u.pipe_in then direction_in else direction_out

-- The setup packet and the data that an URB hands to `virtusb_transfer_create`.
abbrev pub setup_of : ℕ → Urb → Option (List ℕ)
setup_of type u = if type == type_control then u.setup_packet else none

abbrev pub contents_of : Urb → Option (List ℕ)
contents_of u =
    if direction_of u == direction_out && ltb 0 u.transfer_buffer_length
    then u.transfer_buffer
    else none

-- The outcomes of what an enqueue calls: the allocations of the transfer, of its buffer and of the
-- request, and the answer of `usb_hcd_link_urb_to_ep`.
pub record Outcomes : Type 0 where
  pub transfer_memory : Bool
  pub buffer_memory : Option (List ℕ)
  pub request_memory : Bool
  pub link : ℤ

-- The end of `virtusb_hcd_urb_enqueue`, with a transfer.
unfoldable pub hand_over : ℕ → ℕ → Outcomes → Channel → ℤ × Channel
hand_over urb transfer o c =
    if ltb transfer_data_max (c.transfer transfer).requested_length
    then (emsgsize, Transfer.put (some transfer) c)
    else let (ret, c') = submit (some urb) (some transfer) o.request_memory o.link c in
      (ret, Transfer.put (some transfer) c')

-- The middle of `virtusb_hcd_urb_enqueue`: the checks of the URB, and the transfer.
unfoldable pub convert : ℕ → ℕ → ℕ → Outcomes → Channel → ℤ × Channel
convert urb device type o c =
    let u = c.urb urb in
    if not (u.num_sgs == 0) || not (u.number_of_packets == 0)
    then (eopnotsupp, c)
    else if type == type_control && not (is_some u.setup_packet)
    then (einval, c)
    else if direction_of u == direction_out
        && ltb 0 u.transfer_buffer_length
        && not (is_some u.transfer_buffer)
    then (einval, c)
    else let (transfer, c') =
        Transfer.create (some device) type (direction_of u) (u.pipe_endpoint % 2 ^ 8)
          (setup_of type u) (contents_of u) u.transfer_buffer_length o.transfer_memory
          o.buffer_memory c in
      elim transfer [ none ↦ (enomem, c') | some ref ↦ hand_over urb ref o c' ]

-- `hub` is the root hub of the controller.
unfoldable pub urb_enqueue : ℕ → Option ℕ → Outcomes → Channel → ℤ × Channel
urb_enqueue hub none o c = (einval, c)
urb_enqueue hub (some urb) o c = elim (get_urb_device hub (c.urb urb) c.objects.topology) [
  | none ↦ (enodev, c)
  | some device ↦ elim (get_transfer_type (c.urb urb).pipe_type) [
    | none ↦ (einval, c)
    | some type ↦ convert urb device type o c
  ]
]

-- `check` is the answer of `usb_hcd_check_unlink_urb`.
unfoldable pub urb_dequeue : Option ℕ → ℤ → ℤ → Channel → ℤ × Channel
urb_dequeue none status check c = (einval, c)
urb_dequeue (some urb) status check c = cancel (some urb) status check c
