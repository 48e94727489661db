-- ===== src/Channel.antt =====
-- The data of kernel/include/virtusb_transfer.h and kernel/include/virtusb_backend.h, and what the
-- code reads and writes of an URB.
use virt_usb.Prelude.{ℕ, Bool, Option, List, ◌∷◌, ◌++◌, ℤ, ite, ℕ_discrete, take, drop}
use virt_usb.Object.Store.{Objects}

-- enum virtusb_transfer_type
abbrev pub type_control : ℕ
type_control = 0

abbrev pub type_isochronous : ℕ
type_isochronous = 1

abbrev pub type_bulk : ℕ
type_bulk = 2

abbrev pub type_interrupt : ℕ
type_interrupt = 3

-- enum virtusb_transfer_direction
abbrev pub direction_out : ℕ
direction_out = 0

abbrev pub direction_in : ℕ
direction_in = 1

pub data TransferState : Type 0 where
  new queued completed cancelled : TransferState

-- struct virtusb_transfer; `buffer` is NULL or the bytes of the allocation.
pub record Transfer : Type 0 where
  pub refcount : ℕ
  pub id : ℕ
  pub device : ℕ
  pub type : ℕ
  pub direction : ℕ
  pub state : TransferState
  pub endpoint : ℕ
  pub has_setup : Bool
  pub setup : List ℕ
  pub buffer : Option (List ℕ)
  pub requested_length : ℕ
  pub actual_length : ℕ
  pub status : ℤ

-- What the code uses of a `struct urb`: `pipe_type`, `pipe_in` and `pipe_endpoint` are
-- `usb_pipetype`, `usb_pipein` and `usb_pipeendpoint` of its pipe; `has_device` is `dev != NULL`,
-- `at_root` is `dev->parent == hcd->self.root_hub` and `portnum` is `dev->portnum`.
pub record Urb : Type 0 where
  pub has_device : Bool
  pub at_root : Bool
  pub portnum : ℕ
  pub pipe_type : ℕ
  pub pipe_in : Bool
  pub pipe_endpoint : ℕ
  pub setup_packet : Option (List ℕ)
  pub transfer_buffer : Option (List ℕ)
  pub transfer_buffer_length : ℕ
  pub num_sgs : ℕ
  pub number_of_packets : ℕ
  pub actual_length : ℕ

-- struct virtusb_hcd_request and struct virtusb_backend_binding, less their list nodes
pub record Request : Type 0 where
  pub urb : ℕ
  pub transfer : ℕ
  pub owner : Option ℕ

pub record Binding : Type 0 where
  pub device : ℕ
  pub owner : ℕ

-- The calls of the USB core and of the wait queue, and the transfers freed.
pub data Call : Type 0 where
  linked : ℕ → Call
  unlinked : ℕ → Call
  given_back : ℕ → ℤ → Call
  woken : Call
  freed_transfer : ℕ → Call

-- struct virtusb_backend, with the transfers, the URBs and the objects that its requests point to.
-- `next_id` is the atomic counter of transfer IDs, `next_transfer` the next address that an
-- allocation returns, and `calls` has the latest call first.
pub record Channel : Type 0 where
  pub bindings : List Binding
  pub pending : List Request
  pub active : List Request
  pub stopping : Bool
  pub transfer : ℕ → Transfer
  pub next_id : ℕ
  pub next_transfer : ℕ
  pub urb : ℕ → Urb
  pub objects : Objects
  pub calls : List Call

-- `*ref = v`
unfoldable pub set_transfer : ℕ → Transfer → Channel → Channel
unfolding ℕ_discrete
set_transfer ref v c = record c { transfer = λ r. ite (ℕ_discrete r ref) v (c.transfer r) }

unfoldable pub set_urb : ℕ → Urb → Channel → Channel
unfolding ℕ_discrete
set_urb ref v c = record c { urb = λ r. ite (ℕ_discrete r ref) v (c.urb r) }

-- A call of the USB core, or `wake_up_interruptible_all`.
abbrev pub call : Call → Channel → Channel
call e c = record c { calls = e ∷ c.calls }

-- `memcpy(to, from, length)`, the bytes of `to` afterwards.
unfoldable pub memcpy : List ℕ → List ℕ → ℕ → List ℕ
memcpy to from length = take length from ++ drop length to
