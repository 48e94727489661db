-- ===== src/Tests/Tools.antt =====
-- The theorems of the library, the tools and the module at concrete inputs.
use virt_usb.Prelude.{
  ◌==◌, ℕ, ◌^◌, ◌+◌, ◌≡◌, ◌≢◌, ◌≤◌, ◌<◌, refl, arith, true, false, Option, none, some, [], ◌∷◌,
  ◌++◌, pos, success, enodev, length, get_elem?,
}
use virt_usb.Text.{
  Bytes, codes, strtoul, read_number, read_sign, skip_space, digit_of, read_digits, hexadecimal,
  hexadecimal_before,
}
use virt_usb.Channel.{Channel}
use virt_usb.Object.Store.{Objects, object_type_device, xa_load, xa_store}
use virt_usb.Object.Manager.{register, unregister}
use virt_usb.Object.Filing.{IsFiled, view}
use virt_usb.Object.Promise.{Inserts, Removes, register-Inserts, unregister-Removes}
use virt_usb.Hub.Change.{IsSound}
use virt_usb.Device.Life.{shutdown_all}
use virt_usb.Device.Shutdown.{shutdown_all_total}
use virt_usb.Control.Status.{build_port_state}
use virt_usb.Control.Requests.{speed_caps_valid}
use virt_usb.Library.System.{System, Process, Answer, failed, answered}
use virt_usb.Library.Handle.{Handle, descriptor, usable}
use virt_usb.Library.Calls
use virt_usb.Library.Calls.{Status, state_from_uapi}
use virt_usb.Control.Ioctl.{ioctl}
use virt_usb.Library.Kernel.{Conditions, control}
use virt_usb.Library.Laws.{get_port_status-build_port_state, commands_reach_ports}
use virt_usb.Ctl.Parse
use virt_usb.Ctl.Print.{state_line, newline, status_flags, change_flags, speed_name}
use virt_usb.Library.Calls.{speed_high}
use virt_usb.Ctl.Parse.{run, read_line, attach_device, show_status, parse_speed_caps}
use virt_usb.Ctl.Words.{arguments, IsValid}
use virt_usb.Ctl.Caps.{parse_speed_caps-speed_caps_valid, parse_speed_caps-speeds}
use virt_usb.Ctl.Laws.{read_line-arguments}
use virt_usb.Ctl.Sound.{read_line-IsValid}
use virt_usb.Ctl.Run
use virt_usb.Ctl.Safe.{main-Keeps}
use virt_usb.Library.System.{transfer_complete}
use virt_usb.Library.Calls.{send_to}
use virt_usb.Library.Transfers.{TransferRequest, completion_of}
use virt_usb.Library.Laws.{on_device, reply}
use virt_usb.Ctl.Words.{speeds}
use virt_usb.TestDevice.Answer
use virt_usb.TestDevice.Serve
use virt_usb.TestDevice.Laws.{answer-transfer_complete}
use virt_usb.TestDevice.Safe.{main_gives_back}
use virt_usb.Device.Link
use virt_usb.Hub.Power.{set_port_power}
use virt_usb.Tests.Serving.{quiet, reading}
use virt_usb.Library.Transfers
use virt_usb.Library.Delivery.{complete_delivers}
use virt_usb.Backend.Queue.{take_first, is_owned_id}
use virt_usb.Backend.Serve.{bytes_of}
use virt_usb.Channel.{Request, memcpy}
use virt_usb.Prelude.{inl}
use virt_usb.Tests.Words.{one_object}
use virt_usb.Tests.Bus.{connected, connected-Reach}
use virt_usb.Bus.Life.{Reach-IsSound}

abbrev pub idle_objects : Objects
idle_objects = record one_object { topology = connected }

abbrev quiet_bus : Channel
quiet_bus = record quiet { objects = idle_objects }

-- A system that opens descriptor 3 and takes every command.
abbrev opens : {K : Type 0} → Bytes → K → Answer ℕ × K
opens path k = (answered 3, k)

abbrev closes : {K : Type 0} → ℕ → K → K
closes fd k = k

abbrev allocates : {K : Type 0} → K → Option ℕ × K
allocates k = (none, k)

abbrev willing : System ℕ
willing = record {
  open_path = opens;
  close = closes;
  allocate = allocates;
  ask_status = λ fd request k. (answered request, k);
  ask_device = λ fd request k. (answered (record request { object_id = 5 }), k);
  ask_transfer = λ fd request k. (failed 5, k);
  send = λ fd message k. (none, k);
}

abbrev shell : Process ℕ
shell = record { kernel = 0; descriptors = 2 ∷ 1 ∷ 0 ∷ []; handles = 0 }

abbrev opened : Handle
opened = record { fd = pos 3; instance_number = 0; device_path = codes "/dev/virtusb0" }

-- Descriptor 3 is of an active control, and every copy and allocation succeeds.
abbrev usual : Conditions
usual = record {
  is_active = λ fd. fd == 3;
  readable = true;
  writable = true;
  memory = true;
  registry_memory = true;
  duplicate_error = none;
}

abbrev served : Process Channel
served = record { kernel = quiet_bus; descriptors = 3 ∷ []; handles = 1 }

small_hub : (connected.hub 0).port_count ≤ 31
small_hub = (Reach-IsSound connected-Reach).well_formed.bounded 0

get_port_status-build_port_state_example :
    (s : Status) × (Calls.get_port_status
        (control usual 0 [] opens closes allocates)
        (some opened)
        0
        0
        true
        served
      ≡ (success, some s, served))
    × (s.port_count ≡ (connected.hub 0).port_count)
    × ((i : ℕ)
        → i < s.port_count
        → get_elem? s.ports i ≡ some (state_from_uapi (build_port_state 0 (1 + i) connected)))
get_port_status-build_port_state_example =
    get_port_status-build_port_state usual 0 [] opens closes allocates opened 3 served refl refl
      refl refl small_hub

commands_reach_ports_example :
    (Calls.set_connected (control usual 0 [] opens closes allocates) (some opened) 1 true served
      ≡ on_device usual 0 [] opens closes allocates
          (λ ref t. Link.set_connection_signaling (some ref) true t)
          1
          served)
    × (Calls.detach (control usual 0 [] opens closes allocates) (some opened) 1 served
        ≡ on_device usual 0 [] opens closes allocates
            (λ ref t. (success, Link.detach (some ref) t))
            1
            served)
    × (Calls.power_port (control usual 0 [] opens closes allocates) (some opened) 0 2 true served
        ≡ (
          reply usual 0 [] opens closes allocates (set_port_power (some 0) 2 true connected).0,
          record served {
            kernel = record quiet_bus {
              objects = record idle_objects {
                topology = (set_port_power (some 0) 2 true connected).1;
              };
            };
          },
        ))
commands_reach_ports_example =
    commands_reach_ports usual 0 [] opens closes allocates opened 3 1 2 true served refl

-- Descriptor 4 is of a control that is not active.
abbrev unbound : Handle
unbound = record opened { fd = pos 4 }

unbound_refused :
    Calls.detach (control usual 0 [] opens closes allocates) (some unbound) 1 served
    ≡ (enodev, served)
unfolding Calls.detach Calls.send Calls.send_to descriptor ioctl
unbound_refused = refl

pub one_object_IsFiled : IsFiled idle_objects
unfolding xa_load
one_object_IsFiled = record {
  order = tt;
  filed = λ i o e. absurd (ground (arith, e));
  fresh = omega arith;
}

register-Inserts_example :
    Inserts 0 idle_objects (register (some 0) object_type_device true idle_objects)
register-Inserts_example =
    register-Inserts 0 object_type_device true idle_objects one_object_IsFiled

unregister-Removes_example :
    Removes 0
      (register (some 0) object_type_device true idle_objects).1
      (unregister (some 0) (register (some 0) object_type_device true idle_objects).1)
unregister-Removes_example =
    unregister-Removes 0 (register (some 0) object_type_device true idle_objects).1
      register-Inserts_example.0

one_registered-IsSound : IsSound (register (some 0) object_type_device true idle_objects).1.topology
unfolding register
one_registered-IsSound = Reach-IsSound connected-Reach

one_registered_length :
    length (register (some 0) object_type_device true idle_objects).1.registry < 2
unfolding register xa_store
one_registered_length = omega arith

shutdown_all_total_example :
    (s' : Objects) × (shutdown_all 2 (register (some 0) object_type_device true idle_objects).1
      ≡ some s')
    × IsSound s'.topology
    × ((i o : ℕ) → view s' i ≡ some o → (s'.object o).type ≢ object_type_device)
shutdown_all_total_example =
    shutdown_all_total 2 (register (some 0) object_type_device true idle_objects).1
      register-Inserts_example.0 one_registered-IsSound one_registered_length

read_line-arguments_example :
    read_line (codes "virtusbctl") (arguments 2 (attach_device 17 3)) ≡ run 2 (attach_device 17 3)
read_line-arguments_example =
    read_line-arguments (codes "virtusbctl") 2 (attach_device 17 3) (omega arith)
      (((λ e. ground (arith, e)), omega arith), (omega arith, omega arith))

read_line-IsValid_example : (2 < 2 ^ 32) × IsValid (attach_device 17 3)
read_line-IsValid_example =
    read_line-IsValid (codes "virtusbctl") (arguments 2 (attach_device 17 3)) 2 (attach_device 17 3)
      read_line-arguments_example

main-Keeps_example :
    ((Run.main willing
        (λ n. [])
        (codes "virtusbctl")
        (arguments 2 (attach_device 17 3))
        shell).process.descriptors
      ≡ 2 ∷ 1 ∷ 0 ∷ [])
    × ((Run.main willing
          (λ n. [])
          (codes "virtusbctl")
          (arguments 2 (attach_device 17 3))
          shell).process.handles
        ≡ 0)
main-Keeps_example =
    main-Keeps willing (λ n. []) (codes "virtusbctl") (arguments 2 (attach_device 17 3)) shell

parse_speed_caps-speed_caps_valid_example : speed_caps_valid 5 ≡ true
parse_speed_caps-speed_caps_valid_example =
    parse_speed_caps-speed_caps_valid (speeds 5) 5
      (parse_speed_caps-speeds 5 (omega arith) (omega arith))

-- A request for the device descriptor.
abbrev wants_descriptor : TransferRequest
wants_descriptor = record {
  id = 7;
  object_id = 5;
  type = 0;
  direction = 1;
  endpoint = 0;
  has_setup = true;
  requested_length = 8;
  data_length = 0;
  setup = 0x80 ∷ 6 ∷ 0 ∷ 1 ∷ 0 ∷ 0 ∷ 8 ∷ 0 ∷ [];
  payload = [];
}

opened_usable : descriptor (some opened) ≡ usable 3
unfolding descriptor
opened_usable = refl

answer-transfer_complete_example :
    (Serve.answer willing (some opened) 5 wants_descriptor shell
      ≡ send_to willing 3
          (transfer_complete (
            completion_of 7
              (Answer.reply 5 wants_descriptor).status
              (Answer.reply 5 wants_descriptor).bytes
              (Answer.reply 5 wants_descriptor).actual_length))
          shell)
    × ((Answer.reply 5 wants_descriptor).actual_length ≤ 8)
answer-transfer_complete_example =
    answer-transfer_complete willing (some opened) 3 5 wants_descriptor shell opened_usable

main_gives_back_example :
    ((Serve.main willing [] true (false ∷ true ∷ []) shell).1.descriptors ≡ 2 ∷ 1 ∷ 0 ∷ [])
    × ((Serve.main willing [] true (false ∷ true ∷ []) shell).1.handles ≡ 0)
main_gives_back_example = main_gives_back willing [] true (false ∷ true ∷ []) shell

-- A negative number is read as the number that it is modulo 2^64.
negative_reads : Parse.parse_unsigned (codes "-18446744073709551615") ≡ some 1
unfolding Parse.parse_unsigned strtoul read_number read_sign skip_space digit_of read_digits
negative_reads = refl

-- The state of a connected and powered port as it is printed.
printed_line :
    state_line (codes "port 1:") (record { status = 257; change = 1; speed = speed_high })
    ≡ codes "port 1:  status=0x00000101 [connected,power] change=0x00000001 [connected] speed=high"
      ++ newline
unfolding state_line hexadecimal hexadecimal_before status_flags change_flags speed_name
printed_line = refl

-- A program has fetched the one request, which reads two bytes, and answers one.
abbrev fetched_one : Request
fetched_one = record { urb = 3; transfer = 7; owner = some 3 }

abbrev serving : Process Channel
serving = record {
  kernel = record reading { active = fetched_one ∷ [] };
  descriptors = 3 ∷ [];
  handles = 1;
}

takes_fetched :
    take_first (is_owned_id serving.kernel 3 9) serving.kernel.active ≡ some (fetched_one, [])
unfolding take_first
takes_fetched = refl

complete_delivers_example :
    (p' : Process Channel) × (Transfers.complete
        (control usual 0 [] opens closes allocates)
        (some opened)
        9
        success
        (some (7 ∷ []))
        1
        serving
      ≡ (success, p'))
    × (bytes_of (p'.kernel.urb 3).transfer_buffer
        ≡ memcpy (bytes_of (reading.urb 3).transfer_buffer) (7 ∷ []) 1)
complete_delivers_example =
    complete_delivers usual 0 [] opens closes allocates opened 3 9 success (7 ∷ []) 1 fetched_one []
      serving refl refl refl (λ e. ground (arith, e)) takes_fetched
      (record {
        goes_in = refl;
        is_open = inl refl;
        fits_transfer = omega arith;
        fits_message = omega arith;
        fits_bytes = omega arith;
        fits_buffer = omega arith;
        fits_urb = omega arith;
      })
