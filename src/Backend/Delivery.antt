-- ===== src/Backend/Delivery.antt =====
-- The data of a completed IN transfer (kernel/src/virtusb_backend.c, `virtusb_backend_complete`).
use virt_usb.Prelude.{
  ℕ, zero, suc, ◌≤◌, ◌<◌, ◌%◌, ◌^◌, false, Option, none, some, List, [], ◌∷◌, ◌++◌, ◌≡◌, ◌⊎◌, ltb,
  ◌||◌, refl, sym, ◌∙◌, arith, ap, length, take, drop, length-append, length-take, ℤ, success,
  ℕ_discrete,
}
use virt_usb.Uapi.{transfer_data_max}
use virt_usb.Channel.{
  new, queued, Request, Channel, direction_in, memcpy, set_transfer, set_urb, call, given_back,
}
use virt_usb.Transfer
use virt_usb.Backend.Queue.{giveback, release_request}
use virt_usb.Backend.Serve.{bytes_of, Completion, copy_into, copy_bytes, copy_in, settle, finish}

take-append_left : (n : ℕ) (xs ys : List ℕ) → n ≤ length xs → take n (take n xs ++ ys) ≡ take n xs
take-append_left zero xs ys h = refl
take-append_left (suc n) [] ys h = absurd (omega arith)
take-append_left (suc n) (x ∷ xs) ys h = ap (λ zs. x ∷ zs) (take-append_left n xs ys (omega arith))

-- Two copies of the same length pass the bytes on.
pub memcpy-memcpy :
    (to via from : List ℕ) (n : ℕ)
    → n ≤ length from
    → memcpy to (memcpy via from n) n ≡ memcpy to from n
unfolding memcpy
memcpy-memcpy to via from n h = ap (λ bs. bs ++ drop n to) (take-append_left n from (drop n via) h)

memcpy-nothing : (to from : List ℕ) → memcpy to from 0 ≡ to
unfolding memcpy
memcpy-nothing to from = refl

put-urb : (r : Option ℕ) (c : Channel) (u : ℕ) → (Transfer.put r c).urb u ≡ c.urb u
unfolding Transfer.put Transfer.release set_transfer
put-urb none c u = refl
put-urb (some r) c u = ground arith

giveback-urb : (r : Request) (s : ℤ) (c : Channel) (u : ℕ) → (giveback r s c).urb u ≡ c.urb u
unfolding giveback release_request
giveback-urb r s c u = put-urb (some r.transfer) (call (given_back r.urb s) c) u

-- What a completion needs: an open IN transfer, and a length within the transfer, the payload and the
-- buffers of the transfer and of the URB, where NULL has no bytes.
pub record IsDeliverable (r : Request) (completion : Completion) (c : Channel) : Type 0 where
  pub goes_in : (c.transfer r.transfer).direction ≡ direction_in
  pub is_open : ((c.transfer r.transfer).state ≡ new) ⊎ ((c.transfer r.transfer).state ≡ queued)
  pub fits_transfer : completion.actual_length ≤ (c.transfer r.transfer).requested_length
  pub fits_message : completion.actual_length ≤ transfer_data_max
  pub fits_payload : completion.actual_length ≤ length completion.payload
  pub fits_buffer : completion.actual_length ≤ length (bytes_of (c.transfer r.transfer).buffer)
  pub fits_urb : completion.actual_length ≤ length (bytes_of (c.urb r.urb).transfer_buffer)

pub length-memcpy : (to from : List ℕ) (n : ℕ) → n ≤ length from → n ≤ length (memcpy to from n)
unfolding memcpy
length-memcpy to from n h =
    omega (arith, length-append (take n from) (drop n to), length-take n from)

-- A copy between buffers that are long enough.
copy_into-memcpy :
    (to : Option (List ℕ)) (from : List ℕ) (n : ℕ)
    → 0 < n
    → n ≤ length (bytes_of to)
    → n ≤ length from
    → copy_into to from n ≡ some (memcpy (bytes_of to) from n)
unfolding copy_into
copy_into-memcpy none from n p h k = absurd (omega arith)
copy_into-memcpy (some to) from n p h k = ground arith

-- The channel after the copy, through the transfer to the URB.
record Copies (r : Request) (completion : Completion) (c d : Channel) : Type 0 where
  pub copied : copy_in r completion.payload completion.actual_length c ≡ some d
  pub received :
      bytes_of (d.urb r.urb).transfer_buffer
      ≡ memcpy (bytes_of (c.urb r.urb).transfer_buffer) completion.payload completion.actual_length
  pub state : (d.transfer r.transfer).state ≡ (c.transfer r.transfer).state
  pub requested :
      (d.transfer r.transfer).requested_length ≡ (c.transfer r.transfer).requested_length

copy_in-nothing :
    (r : Request) (completion : Completion) (c : Channel)
    → completion.actual_length ≡ 0
    → Copies r completion c c
unfolding copy_in
copy_in-nothing r completion c e =
    let old = bytes_of (c.urb r.urb).transfer_buffer in
    record {
      copied = ground (arith, e);
      received = sym (ap (memcpy old completion.payload) e ∙ memcpy-nothing old completion.payload);
      state = refl;
      requested = refl;
    }

copy_in-something :
    (r : Request) (completion : Completion) (c : Channel)
    → IsDeliverable r completion c
    → 0 < completion.actual_length
    → (d : Channel) × Copies r completion c d
unfolding copy_in copy_bytes set_urb set_transfer
copy_in-something r completion c d p =
    let n = completion.actual_length in
    let v = c.transfer r.transfer in
    let u = c.urb r.urb in
    let via = memcpy (bytes_of v.buffer) completion.payload n in
    let received = memcpy (bytes_of u.transfer_buffer) via n in
    let long = length-memcpy (bytes_of v.buffer) completion.payload n d.fits_payload in
    (
      set_urb r.urb (record u { transfer_buffer = some received })
          (set_transfer r.transfer (record v { buffer = some via }) c),
      record {
        copied = ground (
          arith,
          d.goes_in,
          copy_into-memcpy v.buffer completion.payload n p d.fits_buffer d.fits_payload,
          copy_into-memcpy u.transfer_buffer via n p d.fits_urb long,
        );
        received = ground (
          arith,
          memcpy-memcpy (bytes_of u.transfer_buffer) (bytes_of v.buffer) completion.payload n
              d.fits_payload,
        );
        state = ground arith;
        requested = ground arith;
      },
    )

copy_in-Copies :
    (r : Request) (completion : Completion) (c : Channel)
    → IsDeliverable r completion c
    → (d : Channel) × Copies r completion c d
copy_in-Copies r completion c d = elim (ℕ_discrete completion.actual_length 0) [
  | yes e ↦ (c, copy_in-nothing r completion c e)
  | no ne ↦ copy_in-something r completion c d (ground (arith, ne))
]

complete-urb :
    (r : ℕ) (s : ℤ) (n : ℕ) (c : Channel) (u : ℕ)
    → (Transfer.complete (some r) s n c).1.urb u ≡ c.urb u
unfolding Transfer.complete set_transfer
complete-urb r s n c u = ground arith

complete_accepts :
    (r : Request) (completion : Completion) (c d : Channel)
    → IsDeliverable r completion c
    → Copies r completion c d
    → (Transfer.complete (some r.transfer) completion.status completion.actual_length d).0 ≡ success
unfolding Transfer.complete
complete_accepts r completion c d h k = ground (arith, h, k)

-- If a transfer is an open IN transfer and the completion's length is at most the requested
-- length, the largest message, the payload given and the buffers of the transfer and of the URB,
-- where a NULL buffer has no bytes, then finishing its request succeeds without a fault, the
-- URB's buffer afterwards is the former one with the payload's first bytes of that length in
-- front, and the URB's actual length is that length.
pub finish_delivers :
    (r : Request) (completion : Completion) (c : Channel)
    → IsDeliverable r completion c
    → (c' : Channel) × (finish r completion c ≡ some (success, c'))
      × (bytes_of (c'.urb r.urb).transfer_buffer
          ≡ memcpy
              (bytes_of (c.urb r.urb).transfer_buffer)
              completion.payload
              completion.actual_length)
      × ((c'.urb r.urb).actual_length ≡ completion.actual_length)
unfolding finish settle set_urb
finish_delivers r completion c h =
    let n = completion.actual_length in
    let small : n % 2 ^ 32 ≡ n = omega (arith, h.fits_message) in
    let (d, k) = copy_in-Copies r completion c h in
    let done = Transfer.complete (some r.transfer) completion.status n d in
    let accepted : done.0 ≡ success = complete_accepts r completion c d h k in
    let short : (ltb (c.transfer r.transfer).requested_length n || ltb transfer_data_max n)
        ≡ false =
      ground (arith, h) in
    let ended = set_urb r.urb (record (done.1.urb r.urb) { actual_length = n % 2 ^ 32 }) done.1 in
    let same = giveback-urb r completion.status ended r.urb in
    let kept = complete-urb r.transfer completion.status n d r.urb in
    (
      giveback r completion.status ended,
      ground (arith, short, k.copied, accepted),
      ground (arith, same, kept, k.received),
      ground (arith, same, small),
    )
