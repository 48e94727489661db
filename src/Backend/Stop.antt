-- ===== src/Backend/Stop.antt =====
-- The teardown in kernel/src/virtusb_backend.c: of one backend's binding, and of the backend as a
-- whole. The loops run on fuel; `none` means that the fuel ran out.
use virt_usb.Prelude.{ℕ, zero, suc, true, Option, none, some, List, [], ◌∷◌, eshutdown}
use virt_usb.Channel.{Request, Binding, Channel, unlinked, woken, call}
use virt_usb.Object.Refs
use virt_usb.Backend.Queue.{take_owner, take_first, is_device, is_owned_device, abort}

-- One round of the search of `virtusb_backend_release_owner`.
unfoldable pub take_released : ℕ → ℕ → Channel → Option (Request × Channel)
take_released device owner c = elim (take_first (is_device c device) c.pending) [
  | some (r, rest) ↦ some (r, record c { pending = rest })
  | none ↦ elim (take_first (is_owned_device c device owner) c.active) [
    | some (r, rest) ↦ some (r, record c { active = rest })
    | none ↦ none
  ]
]

-- The unlinking of a request that was taken out of its queue, and its end.
unfoldable pub shut_down : Request → Channel → Channel
shut_down r c = abort r eshutdown (call (unlinked r.urb) c)

unfoldable pub release_requests : ℕ → ℕ → ℕ → Channel → Option Channel
release_requests zero device owner c = none
release_requests (suc fuel) device owner c = elim (take_released device owner c) [
  | none ↦ some c
  | some (r, c') ↦ release_requests fuel device owner (shut_down r c')
]

-- The device of the released binding loses the binding's reference, and all waiters wake up.
unfoldable pub release_owner : ℕ → Option ℕ → Channel → Option Channel
release_owner fuel none c = some c
release_owner fuel (some owner) c = elim (take_owner owner c.bindings) [
  | none ↦ some c
  | some (b, rest) ↦ elim (release_requests fuel b.device owner (record c { bindings = rest })) [
    | none ↦ none
    | some c' ↦ some (call woken (record c' { objects = Refs.put (some b.device) c'.objects }))
  ]
]

-- The first request of the pending queue, or else of the active one.
unfoldable pub take_any : Channel → Option (Request × Channel)
take_any c = elim c.pending [
  | r ∷ rest ↦ some (r, record c { pending = rest })
  | [] ↦ elim c.active [ r ∷ rest ↦ some (r, record c { active = rest }) | [] ↦ none ]
]

unfoldable pub stop_requests : ℕ → Channel → Option Channel
stop_requests zero c = none
stop_requests (suc fuel) c = elim (take_any c) [
  | none ↦ some c
  | some (r, c') ↦ stop_requests fuel (shut_down r c')
]

-- The loop over the bindings: the references of their devices are dropped in order.
unfoldable pub drop_bindings : List Binding → Channel → Channel
drop_bindings [] c = record c { bindings = [] }
drop_bindings (b ∷ rest) c =
    drop_bindings rest (record c { bindings = rest; objects = Refs.put (some b.device) c.objects })

unfoldable pub stop : ℕ → Channel → Option Channel
stop fuel c = elim (stop_requests fuel (call woken (record c { stopping = true }))) [
  | none ↦ none
  | some c' ↦ some (drop_bindings c'.bindings c')
]
