-- ===== src/Backend/Queue.antt =====
-- The searches of kernel/src/virtusb_backend.c. A search that a `list_del` of the found node follows
-- takes the first match out of the list.
use virt_usb.Prelude.{
  ℕ, Bool, true, false, ◌&&◌, Option, none, some, List, [], ◌∷◌, ◌==◌, if◌then◌else◌, ℤ,
}
use virt_usb.Channel.{Request, Binding, Channel, given_back, call}
use virt_usb.Transfer

-- `virtusb_backend_init`
unfoldable pub init : Channel → Channel
init c = record c { bindings = []; pending = []; active = []; stopping = false }

-- `pointer == owner`, for a pointer that may be NULL.
abbrev pub is_owner : ℕ → Option ℕ → Bool
is_owner owner none = false
is_owner owner (some o) = o == owner

unfoldable pub find_owner : ℕ → List Binding → Option Binding
find_owner owner [] = none
find_owner owner (b ∷ rest) = if b.owner == owner then some b else find_owner owner rest

unfoldable pub find_device : ℕ → List Binding → Option Binding
find_device device [] = none
find_device device (b ∷ rest) = if b.device == device then some b else find_device device rest

-- The first request that passes a test, and the list without it.
unfoldable pub take_first : (Request → Bool) → List Request → Option (Request × List Request)
take_first test [] = none
take_first test (r ∷ rest) = elim (test r) [
  | true ↦ some (r, rest)
  | false ↦ elim (take_first test rest) [
    | none ↦ none
    | some (found, others) ↦ some (found, r ∷ others)
  ]
]

-- The first binding of an owner, and the list without it.
unfoldable pub take_owner : ℕ → List Binding → Option (Binding × List Binding)
take_owner owner [] = none
take_owner owner (b ∷ rest) = elim (b.owner == owner) [
  | true ↦ some (b, rest)
  | false ↦ elim (take_owner owner rest) [
    | none ↦ none
    | some (found, others) ↦ some (found, b ∷ others)
  ]
]

-- `request->urb == urb`
abbrev pub is_urb : ℕ → Request → Bool
is_urb urb r = r.urb == urb

-- `request->transfer->device == device`
abbrev pub is_device : Channel → ℕ → Request → Bool
is_device c device r = (c.transfer r.transfer).device == device

-- `(request->owner == owner) && (request->transfer->id == transfer_id)`
abbrev pub is_owned_id : Channel → ℕ → ℕ → Request → Bool
is_owned_id c owner transfer_id r =
    is_owner owner r.owner && (c.transfer r.transfer).id == transfer_id

-- `(candidate->transfer->device == device) && (candidate->owner == owner)`
abbrev pub is_owned_device : Channel → ℕ → ℕ → Request → Bool
is_owned_device c device owner r = is_device c device r && is_owner owner r.owner

-- `virtusb_backend_release_request`
unfoldable pub release_request : Request → Channel → Channel
release_request r c = Transfer.put (some r.transfer) c

-- `usb_hcd_giveback_urb`, and the release of the request
unfoldable pub giveback : Request → ℤ → Channel → Channel
giveback r status c = release_request r (call (given_back r.urb status) c)

-- The end of a request that never completes: `virtusb_transfer_cancel` and the giveback.
unfoldable pub abort : Request → ℤ → Channel → Channel
abort r status c = giveback r status ((Transfer.cancel (some r.transfer) status c).1)
