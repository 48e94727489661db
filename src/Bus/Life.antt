-- ===== src/Bus/Life.antt =====
-- The steps of the port graph, and what holds after any number of them.
use virt_usb.Prelude.{ℕ, Bool, Option, none, some, ◌≡◌}
use virt_usb.Topology.{PortRef, device_port, Topology}
use virt_usb.Hub.Change.{IsSound}
use virt_usb.Hub.Sound.{set_port_power-IsSound}
use virt_usb.Hub.Power.{
  set_power_switching_mode, set_over_current_mode, set_port_power, set_port_over_current,
  set_over_current,
}
use virt_usb.Hub.Setup.{root_hub_init, root_hub_reset, set_status_changed_callback}
use virt_usb.Hub.Setup.Ports.{IsUnlinked}
use virt_usb.Hub.Setup.Sound.{root_hub_init-IsSound, root_hub_reset-IsSound}
use virt_usb.Device.Link
use virt_usb.Device.Detach.{detach-IsSound}
use virt_usb.Device.Signal.{set_connection_signaling-IsSound}
use virt_usb.Device.Attach.{attach-IsSound}
use virt_usb.Hcd.RootHub.{hub_control}
use virt_usb.Hcd.RootHub.Sound.{hub_control-IsSound}
use virt_usb.Bus.{
  empty_topology, empty-IsSound, init_device, init_device-IsSound, set_port_over_current-IsSound,
  set_power_switching_mode-IsSound, set_over_current_mode-IsSound, set_over_current-IsSound,
  set_status_changed_callback-IsSound,
}

-- A hub starts, and a device is created, in memory whose ports have no peer.
pub data Step (t : Topology) : Topology → Type 0 where
  starts : (h count : ℕ) → IsUnlinked h t → Step t (root_hub_init (some h) count t).1
  resets : (hub : Option ℕ) → Step t (root_hub_reset hub t)
  listens :
      (hub : Option ℕ) (callback : Bool) (context : Option ℕ)
      → Step t (set_status_changed_callback hub callback context t)
  creates : (d speed : ℕ) → (t.port (device_port d)).peer ≡ none → Step t (init_device d speed t)
  attaches : (device : Option ℕ) (port : Option PortRef) → Step t (Link.attach device port t).1
  detaches : (device : Option ℕ) → Step t (Link.detach device t)
  signals :
      (device : Option ℕ) (enabled : Bool)
      → Step t (Link.set_connection_signaling device enabled t).1
  powers : (hub : Option ℕ) (n : ℕ) (powered : Bool) → Step t (set_port_power hub n powered t).1
  sets_power_mode : (hub : Option ℕ) (mode : ℕ) → Step t (set_power_switching_mode hub mode t).1
  sets_current_mode : (hub : Option ℕ) (mode : ℕ) → Step t (set_over_current_mode hub mode t).1
  overloads_port : (hub : Option ℕ) (n : ℕ) (b : Bool) → Step t (set_port_over_current hub n b t).1
  overloads : (hub : Option ℕ) (b : Bool) → Step t (set_over_current hub b t)
  controls : (h type_req value index : ℕ) → Step t (hub_control h type_req value index t).2

pub data Reach : Topology → Type 0 where
  empty : Reach empty_topology
  after : {t u : Topology} → Reach t → Step t u → Reach u

Step-IsSound : {t u : Topology} → Step t u → IsSound t → IsSound u
Step-IsSound {t} (starts h count free) s = root_hub_init-IsSound h count t free s
Step-IsSound {t} (resets hub) s = root_hub_reset-IsSound hub t s
Step-IsSound {t} (listens hub callback context) s =
    set_status_changed_callback-IsSound hub callback context t s
Step-IsSound {t} (creates d speed free) s = init_device-IsSound d speed t free s
Step-IsSound {t} (attaches device port) s = attach-IsSound device port t s
Step-IsSound {t} (detaches device) s = detach-IsSound device t s
Step-IsSound {t} (signals device enabled) s = set_connection_signaling-IsSound device enabled t s
Step-IsSound {t} (powers hub n powered) s = set_port_power-IsSound hub n powered t s
Step-IsSound {t} (sets_power_mode hub mode) s = set_power_switching_mode-IsSound hub mode t s
Step-IsSound {t} (sets_current_mode hub mode) s = set_over_current_mode-IsSound hub mode t s
Step-IsSound {t} (overloads_port hub n b) s = set_port_over_current-IsSound hub n b t s
Step-IsSound {t} (overloads hub b) s = set_over_current-IsSound hub b t s
Step-IsSound {t} (controls h type_req value index) s =
    hub_control-IsSound h type_req value index t s

-- After any sequence of hub starts, hub resets, callback settings, device initialisations,
-- attachments, detachments, signaling changes, port power changes, power and over-current mode
-- changes, over-current reports and root hub requests, from an empty topology and in any order,
-- with each hub or device started in memory whose ports have no peer, the topology is sound:
-- every link is two-ended between a downstream and an upstream port, hub ports name their hub as
-- owner, and every port of every hub that carries no connection is not enabled, not in reset and
-- without a speed.
pub Reach-IsSound : {t : Topology} → Reach t → IsSound t
Reach-IsSound empty = empty-IsSound
Reach-IsSound (after r step) = Step-IsSound step (Reach-IsSound r)
