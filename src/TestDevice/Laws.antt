-- ===== src/TestDevice/Laws.antt =====
-- tools/virtusb-test-device/main.c: every answer fits the request.
use virt_usb.Prelude.{
  ℕ, ◌≡◌, ◌≤◌, arith, refl, Bool, true, not, ◌&&◌, ◌||◌, Option, List, [], ◌∷◌, if◌then◌else◌,
  if_holds, ◌==◌, is_some, ℤ, success, einval, enodev, epipe, bit_and, get_or,
}
use virt_usb.Library.System.{System, Process, transfer_complete}
use virt_usb.Library.Handle.{Handle, descriptor, usable}
use virt_usb.Library.Calls.{send_to}
use virt_usb.Library.Transfers.{TransferRequest, completion_of, complete}
use virt_usb.TestDevice.Answer.{
  Reply, refusal, data_reply, is_in, type_mask, device_descriptor, configuration_descriptor,
  descriptor_reply, standard_reply, control_reply, reply, get_le16,
}
use virt_usb.TestDevice.Serve.{answer}

-- At most as long as requested, and with the bytes that it announces.
record Fits (request : TransferRequest) (r : Reply) : Type 0 where
  asked_for : r.actual_length ≤ request.requested_length
  short : r.actual_length ≤ 18
  backed : (r.actual_length == 0 || is_some r.bytes) ≡ true

refusal-Fits : (request : TransferRequest) (status : ℤ) → Fits request (refusal status)
refusal-Fits request status = record { asked_for = omega arith; short = omega arith; backed = refl }

data-Fits :
    (request : TransferRequest) (bytes : List ℕ) (n : ℕ)
    → n ≤ 18
    → Fits request (data_reply request bytes n)
unfolding data_reply
data-Fits request bytes n h = record {
  asked_for = ground arith;
  short = ground arith;
  backed = ground arith;
}

module _ (request : TransferRequest) where
  either :
      (b : Bool) (x y : Reply) → Fits request x → Fits request y → Fits request (if b then x else y)
  either b x y f g = if_holds (λ r. Fits request r) b x y (λ e. f) (λ e. g)

  descriptor-Fits : (t v : ℕ) → Fits request (descriptor_reply request t v)
  unfolding descriptor_reply
  descriptor-Fits t v = either (not (is_in t)) _ _ (refusal-Fits request epipe) (
      either _ _ _ (data-Fits request device_descriptor 18 (omega arith)) (
        either _ _ _ (data-Fits request configuration_descriptor 18 (omega arith))
          (refusal-Fits request epipe)))

  standard-Fits : (t u v : ℕ) → Fits request (standard_reply request t u v)
  unfolding standard_reply
  standard-Fits t u v =
      let refused = refusal-Fits request epipe in
      either (u == 6) _ _ (descriptor-Fits t v) (
        either (u == 5 || u == 9) _ _ (either (is_in t) _ _ refused (refusal-Fits request success))
          (either (u == 8) _ _
            (either _ _ _ (data-Fits request (1 ∷ 0 ∷ []) 1 (omega arith)) refused)
            (either (u == 0) _ _
              (either (is_in t) _ _ (data-Fits request (0 ∷ 0 ∷ []) 2 (omega arith)) refused)
              refused)))

  reply-Fits : (object_id : ℕ) → Fits request (reply object_id request)
  unfolding reply control_reply
  reply-Fits object_id =
      either (not (request.object_id == object_id)) _ _ (refusal-Fits request enodev) (
        either (request.type == 0 && request.endpoint == 0) _ _
          (either (not request.has_setup) _ _ (refusal-Fits request einval) (
            either (not (bit_and (get_or request.setup 0 0) type_mask == 0)) _ _
              (refusal-Fits request epipe)
              (standard-Fits (get_or request.setup 0 0) (get_or request.setup 1 0)
                (get_le16 request.setup 2))))
          (refusal-Fits request epipe))

-- On an open descriptor, the test device answers every request with exactly the completion of
-- the request's ID that its reply describes, which the library passes on unrefused, and the
-- reply has at most as many bytes as requested.
pub answer-transfer_complete :
    {K : Type 0} (sys : System K) (handle : Option Handle) (fd object_id : ℕ)
    (request : TransferRequest) (p : Process K)
    → descriptor handle ≡ usable fd
    → (answer sys handle object_id request p
        ≡ send_to sys fd
            (transfer_complete (
              completion_of request.id
                (reply object_id request).status
                (reply object_id request).bytes
                (reply object_id request).actual_length))
            p)
      × ((reply object_id request).actual_length ≤ request.requested_length)
unfolding answer complete
answer-transfer_complete sys handle fd object_id request p e =
    let fits = reply-Fits request object_id in
    (ground (arith, e, fits.short, fits.backed), fits.asked_for)
