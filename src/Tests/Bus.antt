-- ===== src/Tests/Bus.antt =====
-- The theorems of the port graph at concrete inputs, and runs of kernel/src/virtusb_hub.c and
-- kernel/src/virtusb_device.c.
use virt_usb.Prelude.{true, none, some, ◌≡◌, ◌≢◌, ◌↔◌, refl, arith, success}
use virt_usb.Uapi.{high, unknown}
use virt_usb.Topology.{
  hub_port, device_port, upstream, downstream, Topology, set_port, set_hub, port_discrete,
}
use virt_usb.Port
use virt_usb.Port.Laws.{IsLinked, attach-IsLinked, detach-IsLinked, attach_result, attach-detach}
use virt_usb.Hub.Speed.{put_speed, read_speed}
use virt_usb.Hub.Speed.Laws.{read_speed-put_speed}
use virt_usb.Hub.Power.{set_port_power}
use virt_usb.Hub.Setup
use virt_usb.Hub.Setup.{root_hub_init}
use virt_usb.Hub.Change.{IsSound}
use virt_usb.Hub.Reset.{IsReset, reset_port_effect}
use virt_usb.Device.Link
use virt_usb.Bus.{empty_topology, init_device}
use virt_usb.Bus.Life.{
  Reach, empty, after, starts, creates, powers, signals, attaches, Reach-IsSound,
}
use virt_usb.Hub.Defs.{
  determine_port_speed, reset_port, speed_of_capabilities, find_port_number, find_port_loop,
  mark_port_connection_change, raise_connected_change, set_connected_change, notify_status_changed,
  clear_port_state, set_port_speed, port_is_valid, port_is_connected, get_port, upstream_peer,
}
use virt_usb.Hub.Power.{switch_port}
use virt_usb.Bits.{bit_test, bit_set, bit_clear}
use virt_usb.Hcd.Urb.{get_urb_device}
use virt_usb.Hcd.Urb.Routing.{get_urb_device_link}
use virt_usb.Tests.Sample.{sample_urb, sample}

abbrev pub started : Topology
started = (root_hub_init (some 0) 2 empty_topology).1

abbrev pub two_devices : Topology
two_devices = init_device 6 7 (init_device 5 7 started)

abbrev pub connected : Topology
connected =
    (Link.set_connection_signaling (some 5) true
      (set_port_power (some 0) 1 true
        (Link.attach (some 5) (some (hub_port 0 0)) two_devices).1).1).1

first_device_free : (started.port (device_port 5)).peer ≡ none
unfolding root_hub_init Setup.init Setup.init_ports Setup.clear_hub Port.init Port.speed_is_valid
    set_port set_hub port_discrete
first_device_free = refl

second_device_free : ((init_device 5 7 started).port (device_port 6)).peer ≡ none
unfolding root_hub_init Setup.init Setup.init_ports Setup.clear_hub Port.init Port.speed_is_valid
    set_port set_hub port_discrete
second_device_free = refl

pub connected-Reach : Reach connected
connected-Reach =
    let devices =
      after (after (after empty (starts 0 2 (λ i. refl))) (creates 5 7 first_device_free))
        (creates 6 7 second_device_free) in
    after (after (after devices (attaches (some 5) (some (hub_port 0 0)))) (powers (some 0) 1 true))
      (signals (some 5) true)

Reach-IsSound_example : IsSound connected
Reach-IsSound_example = Reach-IsSound connected-Reach

connected-IsLinked : IsLinked connected
connected-IsLinked = (Reach-IsSound connected-Reach).well_formed.links

sample_valid : port_is_valid (some 0) 1 sample ≡ true
unfolding port_is_valid
sample_valid = refl

sample_connected : port_is_connected (some 0) 1 sample ≡ true
unfolding port_is_connected get_port port_is_valid upstream_peer
sample_connected = refl

sample_speed : determine_port_speed (some 0) 1 sample ≡ high
unfolding determine_port_speed get_port port_is_valid upstream_peer speed_of_capabilities
sample_speed = refl

sample_speed_known : determine_port_speed (some 0) 1 sample ≢ unknown
unfolding determine_port_speed get_port port_is_valid upstream_peer speed_of_capabilities
sample_speed_known e = ground (arith, e)

reset_port_effect_example :
    ((reset_port (some 0) 1 sample).0 ≡ success)
    × IsReset 0 1 (determine_port_speed (some 0) 1 sample) ((reset_port (some 0) 1 sample).1.hub 0)
reset_port_effect_example =
    reset_port_effect 0 1 sample (omega arith) sample_valid sample_connected sample_speed_known

attach-IsLinked_example :
    IsLinked (Port.attach (some (hub_port 0 1)) (some (device_port 6)) connected).1
attach-IsLinked_example =
    attach-IsLinked (some (hub_port 0 1)) (some (device_port 6)) connected connected-IsLinked

detach-IsLinked_example : IsLinked (Port.detach (some (device_port 5)) connected)
detach-IsLinked_example = detach-IsLinked (some (device_port 5)) connected connected-IsLinked

attach_result_example :
    ((Port.attach (some (hub_port 0 1)) (some (device_port 6)) sample).0 ≡ success) ↔ (
      ((sample.port (hub_port 0 1)).role ≡ downstream)
      × ((sample.port (device_port 6)).role ≡ upstream)
      × ((sample.port (hub_port 0 1)).peer ≡ none)
      × ((sample.port (device_port 6)).peer ≡ none))
attach_result_example = attach_result (hub_port 0 1) (device_port 6) sample

attach_works : (Port.attach (some (hub_port 0 1)) (some (device_port 6)) sample).0 ≡ success
unfolding Port.attach
attach_works = refl

attach-detach_example :
    (Port.detach
        (some (device_port 6))
        (Port.attach (some (hub_port 0 1)) (some (device_port 6)) sample).1).port
      (hub_port 0 1)
    ≡ sample.port (hub_port 0 1)
attach-detach_example =
    attach-detach (hub_port 0 1) (device_port 6) sample attach_works (hub_port 0 1)

read_speed-put_speed_example : read_speed (put_speed (λ _. 0) 17 high) 17 ≡ high
read_speed-put_speed_example = read_speed-put_speed (λ _. 0) 17 17 high (omega arith) (omega arith)

connected_valid : port_is_valid (some 0) sample_urb.portnum connected ≡ true
unfolding port_is_valid root_hub_init Setup.init Setup.init_ports Setup.clear_hub Port.init
    Port.speed_is_valid set_port set_hub port_discrete Link.set_connection_signaling
    Link.get_attached_hub Link.locate find_port_number find_port_loop Port.set_connection_signaling
    Link.report_change port_is_connected get_port upstream_peer set_port_power switch_port
    Port.set_powered mark_port_connection_change raise_connected_change set_connected_change
    notify_status_changed Link.attach Link.attach_at Port.attach Port.set_peer clear_port_state
    set_port_speed put_speed bit_test bit_set bit_clear
connected_valid = refl

get_urb_device_link_example :
    (get_urb_device 0 sample_urb connected ≡ some 5)
    ↔ ((connected.port (hub_port 0 0)).peer ≡ some (device_port 5))
get_urb_device_link_example =
    get_urb_device_link 0 5 sample_urb connected (Reach-IsSound connected-Reach).well_formed refl
      refl connected_valid
