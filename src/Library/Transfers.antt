-- ===== src/Library/Transfers.antt =====
-- libvirtusb/src/virtusb.c: the calls with which a program serves the transfers of a device.
use virt_usb.Prelude.{
  ℕ, Bool, not, ◌&&◌, ◌||◌, Option, none, some, List, is_some, ◌==◌, ltb, if◌then◌else◌, replicate,
  ℤ, success, einval, negated,
}
use virt_usb.Uapi.{transfer_data_max}
use virt_usb.Channel.{memcpy}
use virt_usb.Backend.Serve.{Fetch, zero_fetch, Completion, bytes_of}
use virt_usb.Library.System.{
  System, Process, failed, answered, backend_register, backend_unregister, transfer_complete,
}
use virt_usb.Library.Handle.{Handle, bad, usable, descriptor}
use virt_usb.Library.Calls.{send, send_to}

-- struct virtusb_transfer_request of libvirtusb/include/virtusb.h
pub record TransferRequest : Type 0 where
  pub id : ℕ
  pub object_id : ℕ
  pub type : ℕ
  pub direction : ℕ
  pub endpoint : ℕ
  pub has_setup : Bool
  pub requested_length : ℕ
  pub data_length : ℕ
  pub setup : List ℕ
  pub payload : List ℕ

unfoldable pub request_of : Fetch → TransferRequest
request_of fetch = record {
  id = fetch.transfer_id;
  object_id = fetch.object_id;
  type = fetch.type;
  direction = fetch.direction;
  endpoint = fetch.endpoint;
  has_setup = fetch.has_setup;
  requested_length = fetch.requested_length;
  data_length = fetch.data_length;
  setup = fetch.setup;
  payload = fetch.payload;
}

-- VIRTUSB_INVALID_OBJECT_ID
abbrev pub invalid_object_id : ℕ
invalid_object_id = 0

-- The completion that is sent, with the bytes of `data` copied to a zeroed buffer.
unfoldable pub completion_of : ℕ → ℤ → Option (List ℕ) → ℕ → Completion
unfolding memcpy
completion_of transfer_id status bytes actual_length = record {
  transfer_id = transfer_id;
  status = status;
  actual_length = actual_length;
  payload = memcpy (replicate transfer_data_max 0) (bytes_of bytes) actual_length;
}

module _ {K : Type 0} (sys : System K) where
  unfoldable pub register : Option Handle → ℕ → Process K → ℤ × Process K
  register handle object_id p =
      if object_id == invalid_object_id
      then (einval, p)
      else send sys handle (backend_register object_id) p

  unfoldable pub unregister : Option Handle → Process K → ℤ × Process K
  unregister handle p = send sys handle backend_unregister p

  unfoldable pub ask_fetch : ℕ → Process K → ℤ × Option TransferRequest × Process K
  ask_fetch fd p =
      let (answer, k) = sys.ask_transfer fd zero_fetch p.kernel in
      elim answer [
        | failed e ↦ (negated e, none, record p { kernel = k })
        | answered reply ↦ (success, some (request_of reply), record p { kernel = k })
      ]

  -- `wanted` is `request != NULL`.
  unfoldable pub fetch : Option Handle → Bool → Process K → ℤ × Option TransferRequest × Process K
  fetch handle wanted p =
      if not wanted
      then (einval, none, p)
      else elim (descriptor handle) [ bad ret ↦ (ret, none, p) | usable fd ↦ ask_fetch fd p ]

  -- `bytes`, the argument `data`, is NULL or the bytes that it points to.
  unfoldable pub complete : Option Handle → ℕ → ℤ → Option (List ℕ) → ℕ → Process K → ℤ × Process K
  complete handle transfer_id status bytes actual_length p = elim (descriptor handle) [
    | bad ret ↦ (ret, p)
    | usable fd ↦
        if ltb transfer_data_max actual_length || (ltb 0 actual_length && not (is_some bytes))
        then (einval, p)
        else send_to sys fd
            (transfer_complete (completion_of transfer_id status bytes actual_length)) p
  ]
