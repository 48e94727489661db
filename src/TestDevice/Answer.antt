-- ===== src/TestDevice/Answer.antt =====
-- tools/virtusb-test-device/main.c: the descriptors, and what completes a transfer. The log on stdout is
-- left out.
use virt_usb.Prelude.{
  ℕ, ◌+◌, ◌*◌, ◌/◌, ◌%◌, bit_and, bit_or, Bool, not, ◌&&◌, ◌||◌, Option, none, some, List, [], ◌∷◌,
  ◌==◌, ltb, if◌then◌else◌, get_or, ℤ, success, einval, enodev, epipe,
}
use virt_usb.Channel.{type_control}
use virt_usb.Library.Transfers.{TransferRequest}

abbrev pub dir_in : ℕ
dir_in = 0x80

abbrev pub type_mask : ℕ
type_mask = 0x60

abbrev pub recipient_mask : ℕ
recipient_mask = 0x1f

abbrev pub device_descriptor : List ℕ
device_descriptor =
    18 ∷ 1 ∷ 0 ∷ 2 ∷ 0 ∷ 0 ∷ 0 ∷ 64 ∷ 0xad ∷ 0xde ∷ 1 ∷ 0 ∷ 0 ∷ 1 ∷ 0 ∷ 0 ∷ 0 ∷ 1 ∷ []

abbrev pub configuration_descriptor : List ℕ
configuration_descriptor =
    9 ∷ 2 ∷ 18 ∷ 0 ∷ 1 ∷ 1 ∷ 0 ∷ 0x80 ∷ 50 ∷ 9 ∷ 4 ∷ 0 ∷ 0 ∷ 0 ∷ 0xff ∷ 0 ∷ 0 ∷ 0 ∷ []

-- `get_le16(&setup[i])`, for bytes
unfoldable pub get_le16 : List ℕ → ℕ → ℕ
get_le16 setup i = get_or setup i 0 + get_or setup (i + 1) 0 * 256

-- The arguments of `virtusb_transfer_complete` after the transfer's ID.
pub record Reply : Type 0 where
  pub status : ℤ
  pub bytes : Option (List ℕ)
  pub actual_length : ℕ

abbrev pub refusal : ℤ → Reply
refusal status = record { status = status; bytes = none; actual_length = 0 }

-- `complete_data`
unfoldable pub data_reply : TransferRequest → List ℕ → ℕ → Reply
data_reply request bytes size = record {
  status = success;
  bytes = some bytes;
  actual_length = if ltb request.requested_length size then request.requested_length else size;
}

-- `(request_type & USB_DIR_IN) != 0U`
abbrev pub is_in : ℕ → Bool
is_in request_type = not (bit_and request_type dir_in == 0)

-- USB_REQ_GET_DESCRIPTOR
unfoldable pub descriptor_reply : TransferRequest → ℕ → ℕ → Reply
descriptor_reply request request_type value =
    if not (is_in request_type)
    then refusal epipe
    else if value / 256 % 256 == 1
    then data_reply request device_descriptor 18
    else if value / 256 % 256 == 2
    then data_reply request configuration_descriptor 18
    else refusal epipe

-- The switch of `handle_control_transfer`.
unfoldable pub standard_reply : TransferRequest → ℕ → ℕ → ℕ → Reply
standard_reply request request_type usb_request value =
    if usb_request == 6
    then descriptor_reply request request_type value
    else if usb_request == 5 || usb_request == 9
    then if is_in request_type then refusal epipe else refusal success
    else if usb_request == 8
    then if bit_and request_type (bit_or dir_in recipient_mask) == dir_in
      then data_reply request (1 ∷ 0 ∷ []) 1
      else refusal epipe
    else if usb_request == 0
    then if is_in request_type then data_reply request (0 ∷ 0 ∷ []) 2 else refusal epipe
    else refusal epipe

unfoldable pub control_reply : TransferRequest → Reply
control_reply request =
    if not request.has_setup
    then refusal einval
    else if not (bit_and (get_or request.setup 0 0) type_mask == 0)
    then refusal epipe
    else standard_reply request (get_or request.setup 0 0) (get_or request.setup 1 0)
        (get_le16 request.setup 2)

-- The choice in the loop of `main`.
unfoldable pub reply : ℕ → TransferRequest → Reply
reply object_id request =
    if not (request.object_id == object_id)
    then refusal enodev
    else if request.type == type_control && request.endpoint == 0
    then control_reply request
    else refusal epipe
