-- ===== src/Transfer.antt =====
-- kernel/src/virtusb_transfer.c: creation, reference counts and states of transfers.
pub mod Laws
use virt_usb.Prelude.{
  ℕ, ◌+◌, ◌-◌, ◌%◌, ◌^◌, Bool, true, false, not, ◌&&◌, ◌||◌, Option, none, some, List, [], ◌==◌,
  ltb, if◌then◌else◌, is_some, ℤ, success, einval, emsgsize, einprogress, take, replicate,
}
use virt_usb.Channel.{
  Transfer, TransferState, new, queued, completed, cancelled, type_control, type_interrupt,
  direction_out, direction_in, Channel, freed_transfer, call, set_transfer, memcpy,
}
use virt_usb.Object.Refs

-- `virtusb_transfer_release`
unfoldable pub release : ℕ → Channel → Channel
release transfer c =
    call (freed_transfer transfer)
      (record c { objects = Refs.put (some (c.transfer transfer).device) c.objects })

unfoldable pub get : Option ℕ → Channel → Channel
unfolding set_transfer
get none c = c
get (some transfer) c =
    set_transfer transfer
      (record (c.transfer transfer) { refcount = (c.transfer transfer).refcount + 1 }) c

unfoldable pub put : Option ℕ → Channel → Channel
unfolding set_transfer
put none c = c
put (some transfer) c =
    let dropped =
      set_transfer transfer
        (record (c.transfer transfer) { refcount = (c.transfer transfer).refcount - 1 }) c in
    if (c.transfer transfer).refcount == 1 then release transfer dropped else dropped

-- The arguments that `virtusb_transfer_create` refuses; the endpoint is a u8.
unfoldable pub arguments_are_valid :
    Option ℕ → ℕ → ℕ → ℕ → Option (List ℕ) → Option (List ℕ) → ℕ → Bool
arguments_are_valid device type direction endpoint setup contents length =
    is_some device
    && not (ltb type_interrupt type)
    && (direction == direction_out || direction == direction_in)
    && not (ltb 15 endpoint)
    && not (type == type_control && not (is_some setup))
    && not (direction == direction_out && ltb 0 length && not (is_some contents))

-- The buffer: `memory` is what the allocated bytes hold.
unfoldable pub fill_buffer : ℕ → Option (List ℕ) → ℕ → List ℕ → Option (List ℕ)
unfolding memcpy
fill_buffer direction none length memory = if ltb 0 length then some memory else none
fill_buffer direction (some contents) length memory =
    if ltb 0 length
    then some (if direction == direction_out then memcpy memory contents length else memory)
    else none

-- The setup packet of a new transfer, eight bytes.
abbrev pub setup_bytes : Option (List ℕ) → List ℕ
setup_bytes none = replicate 8 0
setup_bytes (some packet) = take 8 packet

-- The initialisation of the allocated transfer.
unfoldable pub start :
    ℕ → ℕ → ℕ → ℕ → Option (List ℕ) → Option (List ℕ) → ℕ → List ℕ → Channel → Channel
unfolding set_transfer
start device type direction endpoint setup contents length memory c =
    let id = (c.next_id + 1) % 2 ^ 64 in
    set_transfer c.next_transfer
      (record {
        refcount = 1;
        id = id;
        device = device;
        type = type;
        direction = direction;
        state = new;
        endpoint = endpoint;
        has_setup = is_some setup;
        setup = setup_bytes setup;
        buffer = fill_buffer direction contents length memory;
        requested_length = length;
        actual_length = 0;
        status = einprogress;
      })
      (record c {
        next_id = id;
        next_transfer = c.next_transfer + 1;
        objects = Refs.get (some device) c.objects;
      })

-- `memory` is whether the transfer is allocated, and `buffer_memory` what the allocation of the
-- buffer returns.
unfoldable pub create :
    Option ℕ
    → ℕ
    → ℕ
    → ℕ
    → Option (List ℕ)
    → Option (List ℕ)
    → ℕ
    → Bool
    → Option (List ℕ)
    → Channel
    → Option ℕ × Channel
create none type direction endpoint setup contents length memory buffer_memory c = (none, c)
create (some device) type direction endpoint setup contents length memory none c =
    if not (arguments_are_valid (some device) type direction endpoint setup contents length)
    then (none, c)
    else if not memory || ltb 0 length
    then (none, c)
    else (some c.next_transfer, start device type direction endpoint setup contents length [] c)
create (some device) type direction endpoint setup contents length memory (some bytes) c =
    if not (arguments_are_valid (some device) type direction endpoint setup contents length)
    then (none, c)
    else if not memory
    then (none, c)
    else (some c.next_transfer, start device type direction endpoint setup contents length bytes c)

abbrev pub is_new : TransferState → Bool
is_new new = true
is_new _ = false

abbrev pub is_open : TransferState → Bool
is_open new = true
is_open queued = true
is_open _ = false

unfoldable pub mark_queued : Option ℕ → Channel → ℤ × Channel
unfolding set_transfer
mark_queued none c = (einval, c)
mark_queued (some transfer) c =
    if not (is_new (c.transfer transfer).state)
    then (einval, c)
    else (success, set_transfer transfer (record (c.transfer transfer) { state = queued }) c)

unfoldable pub complete : Option ℕ → ℤ → ℕ → Channel → ℤ × Channel
unfolding set_transfer
complete none status actual_length c = (einval, c)
complete (some transfer) status actual_length c =
    if not (is_open (c.transfer transfer).state)
    then (einval, c)
    else if ltb (c.transfer transfer).requested_length actual_length
    then (emsgsize, c)
    else (
      success,
      set_transfer transfer
          (record (c.transfer transfer) {
            actual_length = actual_length;
            status = status;
            state = completed;
          })
          c,
    )

unfoldable pub cancel : Option ℕ → ℤ → Channel → ℤ × Channel
unfolding set_transfer
cancel none status c = (einval, c)
cancel (some transfer) status c =
    if not (is_open (c.transfer transfer).state) then (einval, c) else (
      success,
      set_transfer transfer
          (record (c.transfer transfer) { actual_length = 0; status = status; state = cancelled })
          c,
    )
