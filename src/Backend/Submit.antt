-- ===== src/Backend/Submit.antt =====
-- The HCD's side of kernel/src/virtusb_backend.c: binding a backend, submitting a transfer and
-- cancelling it.
use virt_usb.Prelude.{
  ℕ, Bool, not, ◌||◌, Option, none, some, [], ◌∷◌, ◌++◌, ◌==◌, ltb, if◌then◌else◌, is_some,
  is_negative, ℤ, pos, negsuc, success, einval, enomem, enodev, ebusy, eidrm, emsgsize, eshutdown,
}
use virt_usb.Uapi.{transfer_data_max}
use virt_usb.Channel.{Request, Channel, linked, unlinked, woken, call}
use virt_usb.Object.Refs
use virt_usb.Transfer
use virt_usb.Backend.Queue.{find_owner, find_device, take_first, is_urb, release_request, abort}

-- Why a backend cannot be registered now.
unfoldable pub register_error : ℕ → ℕ → Channel → Option ℤ
register_error owner device c =
    if c.stopping
    then some eshutdown
    else if is_some (find_owner owner c.bindings) || is_some (find_device device c.bindings)
    then some ebusy
    else none

-- `memory` is whether the binding is allocated.
unfoldable pub register : Option ℕ → Option ℕ → Bool → Channel → ℤ × Channel
register none device memory c = (einval, c)
register (some owner) none memory c = (einval, c)
register (some owner) (some device) memory c =
    if not memory
    then (enomem, c)
    else let held = record c { objects = Refs.get (some device) c.objects } in
      elim (register_error owner device c) [
        | some ret ↦ (ret, record held { objects = Refs.put (some device) held.objects })
        | none ↦ (
          success,
          call woken (record held {
            bindings = held.bindings ++ record { device = device; owner = owner } ∷ [];
          }),
        )
      ]

-- The locked part of `virtusb_backend_submit`: the result, and the queue that it leaves. `link` is
-- the answer of `usb_hcd_link_urb_to_ep`.
unfoldable pub enqueue : Request → ℤ → Channel → ℤ × Channel
enqueue r link c =
    if c.stopping
    then (eshutdown, c)
    else if not (is_some (find_device (c.transfer r.transfer).device c.bindings))
    then (enodev, c)
    else elim link [
      | pos n ↦
          if n == 0
          then (success, call (linked r.urb) (record c { pending = c.pending ++ r ∷ [] }))
          else (pos n, c)
      | negsuc n ↦ (negsuc n, c)
    ]

-- The end of `virtusb_backend_submit`.
unfoldable pub finish_submit : Request → ℤ × Channel → ℤ × Channel
finish_submit r (ret, c) =
    if is_negative ret
    then (ret, release_request r ((Transfer.cancel (some r.transfer) ret c).1))
    else (success, call woken c)

-- The request that is allocated for a transfer.
abbrev pub request : ℕ → ℕ → Request
request urb transfer = record { urb = urb; transfer = transfer; owner = none }

unfoldable pub submit : Option ℕ → Option ℕ → Bool → ℤ → Channel → ℤ × Channel
submit none transfer memory link c = (einval, c)
submit (some urb) none memory link c = (einval, c)
submit (some urb) (some transfer) memory link c =
    if ltb transfer_data_max (c.transfer transfer).requested_length
    then (emsgsize, c)
    else if not memory
    then (enomem, c)
    else let r = request urb transfer in
      let (ret, c') = Transfer.mark_queued (some transfer) (Transfer.get (some transfer) c) in
      if is_negative ret then (ret, release_request r c') else finish_submit r (enqueue r link c')

-- The request of an URB, pending or else active, taken out of its queue.
unfoldable pub take_urb : ℕ → Channel → Option (Request × Channel)
take_urb urb c = elim (take_first (is_urb urb) c.pending) [
  | some (r, rest) ↦ some (r, record c { pending = rest })
  | none ↦ elim (take_first (is_urb urb) c.active) [
    | some (r, rest) ↦ some (r, record c { active = rest })
    | none ↦ none
  ]
]

-- `check` is the answer of `usb_hcd_check_unlink_urb`.
unfoldable pub cancel : Option ℕ → ℤ → ℤ → Channel → ℤ × Channel
cancel none status check c = (einval, c)
cancel (some urb) status check c = if is_negative check then (check, c) else elim (take_urb urb c) [
  | none ↦ (eidrm, c)
  | some (r, c') ↦ (success, abort r status (call (unlinked urb) c'))
]
