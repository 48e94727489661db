-- ===== src/Library/Delivery.antt =====
-- The data of a transfer from a program through libvirtusb/src/virtusb.c, kernel/src/virtusb_control.c and
-- kernel/src/virtusb_backend.c to the URB.
use virt_usb.Prelude.{
  ℕ, ◌≡◌, ◌≢◌, ◌≤◌, ◌⊎◌, arith, ◌∙◌, true, Option, none, some, List, length, replicate, ℤ, pos,
  success,
}
use virt_usb.Text.{Bytes}
use virt_usb.Uapi.{transfer_data_max}
use virt_usb.Channel.{Channel, Request, new, queued, direction_in, memcpy, call, unlinked}
use virt_usb.Backend.Queue.{take_first, is_owned_id}
use virt_usb.Backend.Serve
use virt_usb.Backend.Serve.{Wait, Completion, bytes_of, finish}
use virt_usb.Backend.Delivery.{IsDeliverable, finish_delivers, memcpy-memcpy, length-memcpy}
use virt_usb.Control.Ioctl.{dispatch, ioctl, transfer_complete}
use virt_usb.Library.System.{Process, Answer}
use virt_usb.Library.Handle.{Handle, descriptor}
use virt_usb.Library.Calls.{send_to}
use virt_usb.Library.Transfers.{completion_of, complete}
use virt_usb.Library.Kernel.{Conditions, control}

-- An open IN transfer of a request, and data that fit it and both buffers, where NULL has no bytes.
pub record IsReadable (r : Request) (bytes : List ℕ) (n : ℕ) (c : Channel) : Type 0 where
  pub goes_in : (c.transfer r.transfer).direction ≡ direction_in
  pub is_open : ((c.transfer r.transfer).state ≡ new) ⊎ ((c.transfer r.transfer).state ≡ queued)
  pub fits_transfer : n ≤ (c.transfer r.transfer).requested_length
  pub fits_message : n ≤ transfer_data_max
  pub fits_bytes : n ≤ length bytes
  pub fits_buffer : n ≤ length (bytes_of (c.transfer r.transfer).buffer)
  pub fits_urb : n ≤ length (bytes_of (c.urb r.urb).transfer_buffer)

-- What finishing the request does with the completion that the library makes.
delivered :
    (r : Request) (id : ℕ) (status : ℤ) (bytes : List ℕ) (n : ℕ) (c : Channel)
    → IsReadable r bytes n c
    → (d : Channel) × (finish r (completion_of id status (some bytes) n) c ≡ some (success, d))
      × (bytes_of (d.urb r.urb).transfer_buffer
          ≡ memcpy (bytes_of (c.urb r.urb).transfer_buffer) bytes n)
unfolding completion_of
delivered r id status bytes n c h =
    let message = completion_of id status (some bytes) n in
    let ok : IsDeliverable r message c = record {
      goes_in = h.goes_in;
      is_open = h.is_open;
      fits_transfer = h.fits_transfer;
      fits_message = h.fits_message;
      fits_payload = length-memcpy (replicate transfer_data_max 0) bytes n h.fits_bytes;
      fits_buffer = h.fits_buffer;
      fits_urb = h.fits_urb;
    } in
    let (d, done, received, counted) = finish_delivers r message c ok in
    (
      d,
      done,
      received
          ∙ memcpy-memcpy (bytes_of (c.urb r.urb).transfer_buffer) (replicate transfer_data_max 0)
              bytes n h.fits_bytes,
    )

module _ (k : Conditions) (hub : ℕ) (waits : List Wait)
    (opens : Bytes → Channel → Answer ℕ × Channel) (closes : ℕ → Channel → Channel)
    (allocates : Channel → Option ℕ × Channel) where
  -- The first request with the ID that the descriptor has fetched is taken and finished.
  complete-finish :
      (handle : Handle) (fd id : ℕ) (status : ℤ) (bytes : List ℕ) (n : ℕ) (r : Request)
      (rest : List Request) (p : Process Channel) (d : Channel)
      → handle.fd ≡ pos fd
      → k.is_active fd ≡ true
      → k.duplicate_error ≡ none
      → id ≢ 0
      → n ≤ transfer_data_max
      → take_first (is_owned_id p.kernel fd id) p.kernel.active ≡ some (r, rest)
      → finish r
          (completion_of id status (some bytes) n)
          (call (unlinked r.urb) (record p.kernel { active = rest }))
        ≡ some (success, d)
      → complete
          (control k hub waits opens closes allocates)
          (some handle)
          id
          status
          (some bytes)
          n
          p
        ≡ (success, record p { kernel = d })
  unfolding complete send_to descriptor ioctl dispatch transfer_complete Serve.complete
      completion_of
  complete-finish handle fd id status bytes n r rest p d e on copied ne h found ok =
      ground (arith, e, on, copied, ne, h, found, ok)

  -- If a handle has an open descriptor of the control device, whose control is active, memdup_user
  -- copies the argument, the first active request that this descriptor fetched with the given ID,
  -- which is not 0, has an open IN transfer, and the length is at most the requested one, 4096 and
  -- the lengths of the bytes given and of the buffers of the transfer and of the URB, where a NULL
  -- buffer has no bytes, then virtusb_transfer_complete returns 0 and the buffer of the request's
  -- URB is the former one with the first bytes given, as many as the length, in front.
  pub complete_delivers :
      (handle : Handle) (fd id : ℕ) (status : ℤ) (bytes : List ℕ) (n : ℕ) (r : Request)
      (rest : List Request) (p : Process Channel)
      → handle.fd ≡ pos fd
      → k.is_active fd ≡ true
      → k.duplicate_error ≡ none
      → id ≢ 0
      → take_first (is_owned_id p.kernel fd id) p.kernel.active ≡ some (r, rest)
      → IsReadable r bytes n p.kernel
      → (p' : Process Channel) × (complete
            (control k hub waits opens closes allocates)
            (some handle)
            id
            status
            (some bytes)
            n
            p
          ≡ (success, p'))
        × (bytes_of (p'.kernel.urb r.urb).transfer_buffer
            ≡ memcpy (bytes_of (p.kernel.urb r.urb).transfer_buffer) bytes n)
  complete_delivers handle fd id status bytes n r rest p e on copied ne found h =
      let taken = call (unlinked r.urb) (record p.kernel { active = rest }) in
      let open_there : IsReadable r bytes n taken = record {
        goes_in = h.goes_in;
        is_open = h.is_open;
        fits_transfer = h.fits_transfer;
        fits_message = h.fits_message;
        fits_bytes = h.fits_bytes;
        fits_buffer = h.fits_buffer;
        fits_urb = h.fits_urb;
      } in
      let (d, done, received) = delivered r id status bytes n taken open_there in
      (
        record p { kernel = d },
        complete-finish handle fd id status bytes n r rest p d e on copied ne h.fits_message found
            done,
        received,
      )
