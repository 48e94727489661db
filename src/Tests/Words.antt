-- ===== src/Tests/Words.antt =====
-- The theorems of the status words, of the transfers and of the objects at concrete inputs.
use virt_usb.Prelude.{
  ℕ, true, none, some, [], ◌≡◌, ◌↔◌, refl, arith, success, length, get_or, ◌==◌, if◌then◌else◌,
}
use virt_usb.Topology.{Hub, zero_hub}
use virt_usb.Bits.{bit_test}
use virt_usb.Uapi.{speed_of_value}
use virt_usb.Hcd.Status.{
  build_port_status, build_port_change, port_change_mask, hub_status_data, add_speed,
}
use virt_usb.Hcd.Status.Laws.{
  Reads, build_port_status-Reads, port_changed, port_change_mask_bit, hub_status_data_bit,
}
use virt_usb.Control.Status.{build_port_state}
use virt_usb.Control.Status.Laws.{port_state_agrees}
use virt_usb.Object.Store.{Objects, zero_object, object_type_device}
use virt_usb.Object.Manager.{register, lookup}
use virt_usb.Object.Laws.{register-lookup}
use virt_usb.Tests.Sample.{sample}

abbrev changed_hub : Hub
changed_hub = record zero_hub {
  port_count = 9;
  usb_change = record { connected = 512; enabled = 0; suspended = 0; reset = 4; over_current = 1 };
}

build_port_status-Reads_example : Reads 0 1 sample (build_port_status 0 1 sample)
build_port_status-Reads_example = build_port_status-Reads 0 1 sample

port_change_mask_bit_example :
    bit_test (port_change_mask changed_hub) 9 ≡ port_changed changed_hub 9
port_change_mask_bit_example = port_change_mask_bit changed_hub 9 (omega arith)

hub_status_data_bit_example :
    ((hub_status_data changed_hub).0 ≡ length (hub_status_data changed_hub).1)
    × (((hub_status_data changed_hub).0 ≡ 0) ↔ (port_change_mask changed_hub ≡ 0))
    × (bit_test (get_or (hub_status_data changed_hub).1 1 0) 1
        ≡ bit_test (port_change_mask changed_hub) 9)
hub_status_data_bit_example = hub_status_data_bit changed_hub 9 (omega arith)

port_state_agrees_example :
    (build_port_status 0 1 sample
      ≡ add_speed
          (speed_of_value (build_port_state 0 1 sample).speed)
          (build_port_state 0 1 sample).status)
    × (build_port_change 0 1 sample ≡ (build_port_state 0 1 sample).change)
port_state_agrees_example = port_state_agrees 0 1 sample (omega arith)

abbrev pub one_object : Objects
one_object = record {
  object = λ _. record zero_object { refcount = 1 };
  registry = [];
  next_object_id = 1;
  next_ref = 1;
  topology = sample;
  events = [];
}

one_object_registers : (register (some 0) object_type_device true one_object).0 ≡ success
unfolding register
one_object_registers = refl

register-lookup_example :
    ((lookup
        (((register (some 0) 4 true one_object).1.object 0).id)
        (register (some 0) 4 true one_object).1).0
      ≡ some 0)
    × ((lookup (((register (some 0) 4 true one_object).1.object 0).id) one_object).0 ≡ none)
    × ((i : ℕ)
        → (lookup i (register (some 0) 4 true one_object).1).0 ≡ (
            if i == ((register (some 0) 4 true one_object).1.object 0).id
            then some 0
            else (lookup i one_object).0))
register-lookup_example =
    register-lookup 0 object_type_device true one_object (λ e. ground (arith, e))
      one_object_registers
