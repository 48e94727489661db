-- ===== src/TestDevice/Serve.antt =====
-- tools/virtusb-test-device/main.c: the arguments, the loop that serves transfers, and `main`. What it
-- prints is left out.
use virt_usb.Prelude.{
  ℕ, ◌-◌, ◌^◌, Bool, true, false, not, ◌&&◌, ◌||◌, Option, none, some, List, [], ◌∷◌, ◌==◌, ltb,
  is_some, if◌then◌else◌, is_negative, length, ℤ, negsuc,
}
use virt_usb.Text.{Bytes, codes, same_text, strtoul, Number}
use virt_usb.Uapi.{root_hub_id}
use virt_usb.Library.System.{System, Process}
use virt_usb.Library.Handle.{Handle, open_instance, close}
use virt_usb.Library.Calls.{create, attach, detach, set_connected, destroy}
use virt_usb.Library.Transfers.{
  TransferRequest, invalid_object_id, register, unregister, fetch, complete,
}
use virt_usb.TestDevice.Answer.{reply}

-- The number, or none for -EINVAL and -ERANGE; `end == text` is that nothing was read.
abbrev pub number_in : Bytes → Number → Option ℕ
number_in text parsed =
    if parsed.out_of_range || ltb (2 ^ 32 - 1) parsed.value
    then none
    else if length parsed.rest == length text || ltb 0 (length parsed.rest)
    then none
    else some parsed.value

unfoldable pub parse_unsigned : Bytes → Option ℕ
parse_unsigned [] = none
parse_unsigned (c ∷ cs) = number_in (c ∷ cs) (strtoul (c ∷ cs))

-- What the arguments after argv[0] ask for: the usage, or to serve on an instance and a port.
pub data Asked : Type 0 where
  help : Asked
  wrong : Asked
  serve : ℕ → ℕ → Asked

-- The arguments after the instance.
abbrev pub read_port : ℕ → List Bytes → Asked
read_port number [] = serve number 1
read_port number (b ∷ []) = elim (parse_unsigned b) [
  | none ↦ wrong
  | some port ↦ if port == 0 then wrong else serve number port
]
read_port number (b ∷ c ∷ rest) = wrong

abbrev pub is_help : List Bytes → Bool
is_help [] = false
is_help (a ∷ []) = same_text a (codes "-h") || same_text a (codes "--help")
is_help (a ∷ b ∷ rest) = false

-- More than two arguments are refused before any of them is read, which refuses them as well.
abbrev pub read_instance : List Bytes → Asked
read_instance [] = serve 0 1
read_instance (a ∷ rest) = elim (parse_unsigned a) [
  | none ↦ wrong
  | some number ↦ read_port number rest
]

unfoldable pub read_arguments : List Bytes → Asked
read_arguments arguments = if is_help arguments then help else read_instance arguments

abbrev pub blank_request : TransferRequest
blank_request = record {
  id = 0;
  object_id = 0;
  type = 0;
  direction = 0;
  endpoint = 0;
  has_setup = false;
  requested_length = 0;
  data_length = 0;
  setup = [];
  payload = [];
}

abbrev pub or_blank : Option TransferRequest → TransferRequest
or_blank none = blank_request
or_blank (some request) = request

-- -EINTR
abbrev pub is_eintr : ℤ → Bool
is_eintr (negsuc n) = n == 3
is_eintr _ = false

abbrev pub id_or_invalid : Option ℕ → ℕ
id_or_invalid none = invalid_object_id
id_or_invalid (some object_id) = object_id

-- VIRTUSB_DEVICE_SPEED_FULL
abbrev pub speed_full : ℕ
speed_full = 2

module _ {K : Type 0} (sys : System K) where
  -- Completes a transfer by the reply of the device.
  unfoldable pub answer : Option Handle → ℕ → TransferRequest → Process K → ℤ × Process K
  answer handle object_id request p =
      let r = reply object_id request in
      complete sys handle request.id r.status r.bytes r.actual_length p

  -- The loop, with the values of `stop_requested` that it reads, which is set where they end: whether it
  -- ended without an error, and the process.
  unfoldable pub serve_loop : List Bool → Option Handle → ℕ → Process K → Bool × Process K
  serve_loop [] handle object_id p = (true, p)
  serve_loop (stop_requested ∷ stops) handle object_id p =
      let (ret, request, p1) = fetch sys handle true p in
      let (ret', p2) = answer handle object_id (or_blank request) p1 in
      let again = serve_loop stops handle object_id p1 in
      let next = serve_loop stops handle object_id p2 in
      if stop_requested
      then (true, p)
      else if is_eintr ret
      then again
      else if is_negative ret
      then (false, p1)
      else if is_negative ret'
      then (false, p2)
      else next

  -- `out:`, for the handle and the object ID that are there
  unfoldable pub clean_up : Option Handle → ℕ → Process K → Process K
  clean_up handle object_id p =
      if is_some handle && not (object_id == invalid_object_id)
      then (let p1 = (set_connected sys handle object_id false p).1 in
          let p2 = (detach sys handle object_id p1).1 in
          let p3 = (unregister sys handle p2).1 in
          close sys handle (destroy sys handle object_id true p3).1)
      else close sys handle p

  -- The device is attached, registered and connected, and served until the program is stopped; the
  -- answers are whether the exit code is EXIT_SUCCESS, and the process before `out:`.
  unfoldable pub set_up : List Bool → Option Handle → ℕ → ℕ → Process K → Bool × Process K
  set_up stops handle object_id port p =
      let (ret, p1) = attach sys handle object_id root_hub_id port p in
      if is_negative ret
      then (false, p1)
      else (let (ret', p2) = register sys handle object_id p1 in
          if is_negative ret'
          then (false, p2)
          else (let (ret'', p3) = set_connected sys handle object_id true p2 in
              if is_negative ret'' then (false, p3) else serve_loop stops handle object_id p3))

  -- `main` after its arguments and `sigaction`: the exit code and the process.
  unfoldable pub serve_device : List Bool → ℕ → ℕ → Process K → ℕ × Process K
  serve_device stops number port p =
      let (ret, handle, p1) = open_instance sys number true p in
      if is_negative ret
      then (1, clean_up handle invalid_object_id p1)
      else (let (ret', object_id, p2) = create sys handle speed_full true p1 in
          if is_negative ret'
          then (1, clean_up handle (id_or_invalid object_id) p2)
          else (let (good, p3) = set_up stops handle (id_or_invalid object_id) port p2 in
              (if good then 0 else 1, clean_up handle (id_or_invalid object_id) p3)))

  -- `signals` is whether both calls of `sigaction` succeed.
  unfoldable pub run_asked : Asked → Bool → List Bool → Process K → ℕ × Process K
  run_asked help signals stops p = (0, p)
  run_asked wrong signals stops p = (1, p)
  run_asked (serve number port) signals stops p =
      if not signals then (1, p) else serve_device stops number port p

  unfoldable pub main : List Bytes → Bool → List Bool → Process K → ℕ × Process K
  main arguments signals stops p = run_asked (read_arguments arguments) signals stops p
