-- ===== src/Backend/Serve.antt =====
-- The backend's side of kernel/src/virtusb_backend.c: fetching a transfer, rolling the fetch back and
-- completing it.
use virt_usb.Prelude.{
  ℕ, ◌%◌, ◌^◌, Bool, false, ◌&&◌, ◌||◌, Option, none, some, List, [], ◌∷◌, ◌++◌, ◌==◌, ltb,
  if◌then◌else◌, is_some, is_negative, ℤ, success, einval, eagain, enoent, enodev, emsgsize,
  eshutdown, replicate, length,
}
use virt_usb.Uapi.{transfer_data_max}
use virt_usb.Channel.{
  Transfer, Request, Channel, direction_out, direction_in, unlinked, woken, call, set_transfer,
  set_urb, memcpy,
}
use virt_usb.Transfer
use virt_usb.Backend.Queue.{find_owner, take_first, is_device, is_owned_id, giveback, abort}

-- `virtusb_backend_pending_for_owner_or_stopping`; it looks, and takes nothing.
unfoldable pub has_pending : Option ℕ → Channel → Bool
has_pending none c = false
has_pending (some owner) c = c.stopping || elim (find_owner owner c.bindings) [
  | none ↦ false
  | some b ↦ is_some (take_first (is_device c b.device) c.pending)
]

-- struct virtusb_transfer_fetch
pub record Fetch : Type 0 where
  pub transfer_id : ℕ
  pub object_id : ℕ
  pub type : ℕ
  pub direction : ℕ
  pub endpoint : ℕ
  pub has_setup : Bool
  pub requested_length : ℕ
  pub data_length : ℕ
  pub setup : List ℕ
  pub payload : List ℕ

abbrev pub zero_fetch : Fetch
zero_fetch = record {
  transfer_id = 0;
  object_id = 0;
  type = 0;
  direction = 0;
  endpoint = 0;
  has_setup = false;
  requested_length = 0;
  data_length = 0;
  setup = replicate 8 0;
  payload = replicate transfer_data_max 0;
}

-- The bytes of a buffer, none where the pointer is NULL.
abbrev pub bytes_of : Option (List ℕ) → List ℕ
bytes_of none = []
bytes_of (some bytes) = bytes

-- The report of a fetched transfer to user space; `blank` is the zeroed structure.
unfoldable pub report : Fetch → Transfer → ℕ → Fetch
unfolding memcpy
report blank v object_id =
    let sends = v.direction == direction_out && ltb 0 v.requested_length in
    record blank {
      transfer_id = v.id;
      object_id = object_id;
      type = v.type;
      direction = v.direction;
      endpoint = v.endpoint;
      has_setup = v.has_setup;
      setup = if v.has_setup then v.setup else blank.setup;
      requested_length = v.requested_length % 2 ^ 32;
      data_length = if sends then v.requested_length % 2 ^ 32 else blank.data_length;
      payload =
          if sends
          then memcpy blank.payload (bytes_of v.buffer) v.requested_length
          else blank.payload;
    }

-- One round of the loop of `virtusb_backend_fetch`: a request moved to the active queue, an error, or
-- nothing to do yet.
pub data Round : Type 0 where
  moved : Request → Channel → Round
  failed : ℤ → Round
  idle : Round

unfoldable pub fetch_round : ℕ → Channel → Round
fetch_round owner c = elim (find_owner owner c.bindings) [
  | none ↦ failed enodev
  | some b ↦ elim (take_first (is_device c b.device) c.pending) [
    | some (r, rest) ↦ moved r (
        Transfer.get (some r.transfer)
          (record c { pending = rest; active = c.active ++ record r { owner = some owner } ∷ [] }))
    | none ↦ if c.stopping then failed eshutdown else idle
  ]
]

-- The end of one `wait_event_interruptible`: its answer, and the channel as others left it meanwhile.
pub record Wait : Type 0 where
  pub ret : ℤ
  pub channel : Channel

-- The end of `virtusb_backend_fetch` with a request.
unfoldable pub fetched : Request → Channel → ℤ × Fetch × Channel
fetched r c = (
  success,
  report zero_fetch (c.transfer r.transfer) (c.objects.object (c.transfer r.transfer).device).id,
  Transfer.put (some r.transfer) c,
)

-- The loop of `virtusb_backend_fetch`: the result, the report and the channel, or none while the
-- caller still sleeps after all `waits`.
unfoldable pub fetch_loop : List Wait → ℕ → Fetch → Bool → Channel → Option (ℤ × Fetch × Channel)
fetch_loop [] owner fetch nonblock c = elim (fetch_round owner c) [
  | failed ret ↦ some (ret, fetch, c)
  | moved r c' ↦ some (fetched r c')
  | idle ↦ if nonblock then some (eagain, fetch, c) else none
]
fetch_loop (w ∷ waits) owner fetch nonblock c =
    let again = fetch_loop waits owner fetch nonblock w.channel in
    elim (fetch_round owner c) [
      | failed ret ↦ some (ret, fetch, c)
      | moved r c' ↦ some (fetched r c')
      | idle ↦
          if nonblock
          then some (eagain, fetch, c)
          else if is_negative w.ret
          then some (w.ret, fetch, w.channel)
          else again
    ]

unfoldable pub fetch :
    List Wait → Option ℕ → Option Fetch → Bool → Channel → Option (ℤ × Option Fetch × Channel)
fetch waits none out nonblock c = some (einval, out, c)
fetch waits (some owner) none nonblock c = some (einval, none, c)
fetch waits (some owner) (some out) nonblock c = elim (fetch_loop waits owner out nonblock c) [
  | none ↦ none
  | some (ret, out', c') ↦ some (ret, some out', c')
]

-- Completions of a transfer, as user space hands them over.
pub record Completion : Type 0 where
  pub transfer_id : ℕ
  pub status : ℤ
  pub actual_length : ℕ
  pub payload : List ℕ

unfoldable pub fetch_rollback : Option ℕ → ℕ → Channel → ℤ × Channel
fetch_rollback none transfer_id c = (einval, c)
fetch_rollback (some owner) transfer_id c =
    if transfer_id == 0
    then (einval, c)
    else elim (take_first (is_owned_id c owner transfer_id) c.active) [
      | none ↦ (enoent, c)
      | some (r, rest) ↦ (
        success,
        call woken (record c { active = rest; pending = record r { owner = none } ∷ c.pending }),
      )
    ]

-- `memcpy` into a buffer that may be NULL: none where the buffer or the data have too few bytes, since
-- the kernel then faults or writes past the buffer.
unfoldable pub copy_into : Option (List ℕ) → List ℕ → ℕ → Option (List ℕ)
copy_into none from n = none
copy_into (some to) from n =
    if ltb (length to) n || ltb (length from) n then none else some (memcpy to from n)

-- The copy of the data of an IN transfer, to the transfer and on to the URB.
unfoldable pub copy_bytes : Request → List ℕ → ℕ → Channel → Option Channel
unfolding set_transfer set_urb
copy_bytes r payload actual_length c =
    let v = c.transfer r.transfer in
    let u = c.urb r.urb in
    elim (copy_into v.buffer payload actual_length) [
      | none ↦ none
      | some bytes ↦ elim (copy_into u.transfer_buffer bytes actual_length) [
        | none ↦ none
        | some received ↦ some (
            set_urb r.urb (record u { transfer_buffer = some received })
              (set_transfer r.transfer (record v { buffer = some bytes }) c))
      ]
    ]

unfoldable pub copy_in : Request → List ℕ → ℕ → Channel → Option Channel
copy_in r payload actual_length c =
    if (c.transfer r.transfer).direction == direction_in && ltb 0 actual_length
    then copy_bytes r payload actual_length c
    else some c

-- The end of `virtusb_backend_complete`, after `virtusb_transfer_complete`.
unfoldable pub settle : Request → Completion → ℤ × Channel → ℤ × Channel
unfolding set_urb
settle r completion (ret, c) = if is_negative ret then (ret, abort r ret c) else (
  success,
  giveback r completion.status (
      set_urb r.urb (record (c.urb r.urb) { actual_length = completion.actual_length % 2 ^ 32 }) c),
)

-- `virtusb_backend_complete` for a request that is out of the queue; none where a copy faults.
unfoldable pub finish : Request → Completion → Channel → Option (ℤ × Channel)
finish r completion c =
    if ltb (c.transfer r.transfer).requested_length completion.actual_length
      || ltb transfer_data_max completion.actual_length
    then some (emsgsize, abort r emsgsize c)
    else elim (copy_in r completion.payload completion.actual_length c) [
      | none ↦ none
      | some c' ↦ some (
          settle r completion
            (Transfer.complete (some r.transfer) completion.status completion.actual_length c'))
    ]

unfoldable pub complete : Option ℕ → Option Completion → Channel → Option (ℤ × Channel)
complete none completion c = some (einval, c)
complete (some owner) none c = some (einval, c)
complete (some owner) (some completion) c =
    if completion.transfer_id == 0
    then some (einval, c)
    else elim (take_first (is_owned_id c owner completion.transfer_id) c.active) [
      | none ↦ some (enoent, c)
      | some (r, rest) ↦ finish r completion (call (unlinked r.urb) (record c { active = rest }))
    ]
