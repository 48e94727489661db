-- ===== src/Bus.antt =====
-- The port graph over its whole life: every function of kernel/src/virtusb_hub.c,
-- kernel/src/virtusb_root_hub.c, kernel/src/virtusb_device.c and kernel/src/virtusb_hcd.c that changes
-- it, in any order.
pub mod Life
use virt_usb.Prelude.{
  ℕ, ◌+◌, ◌-◌, ◌≤◌, ◌<◌, Bool, true, false, not, ◌&&◌, Option, none, some, List, [], ◌≡◌, ◌≢◌, ◌⊎◌,
  inl, inr, refl, sym, ap, ◌∙◌, arith, ◌==◌, if◌then◌else◌, ℤ, Bool-cases, Option-cases, ℕ_discrete,
}
use virt_usb.Hub.Power.{is_per_port}
use virt_usb.Topology.{
  ganged, individual, global, per_port, no_detection, PortRef, hub_port, device_port, Owner,
  hub_owner, device_owner, Role, invalid, upstream, downstream, Port, zero_port, Hub, zero_hub,
  Topology, set_hub, set_port,
}
use virt_usb.Port
use virt_usb.Port.Laws.{IsLinked}
use virt_usb.Hub.Settled.{link_connected, link_connected-eq, IsClear}
use virt_usb.Hub.Change.{IsWellFormed, IsSound, carried-IsSettled}
use virt_usb.Hub.Sound.{SameGraph, SameGraph-IsWellFormed, set_port_power-IsSound}
use virt_usb.Hub.Power.{
  set_power_switching_mode, set_over_current_mode, set_port_power, set_port_over_current,
  set_over_current,
}
use virt_usb.Hub.Defs.{get_port}
use virt_usb.Hub.Setup.{root_hub_init, root_hub_reset, set_status_changed_callback}
use virt_usb.Hub.Setup.Ports.{IsUnlinked}
use virt_usb.Hub.Setup.Sound.{root_hub_init-IsSound, root_hub_reset-IsSound}
use virt_usb.Device.Link
use virt_usb.Device.Detach.{detach-IsSound}
use virt_usb.Device.Signal.{set_connection_signaling-IsSound}
use virt_usb.Device.Attach.{attach-IsSound}
use virt_usb.Hcd.RootHub.{hub_control}
use virt_usb.Hcd.RootHub.Sound.{words-IsSound, hub_control-IsSound}

-- A topology with no hub and no device yet.
abbrev pub empty_topology : Topology
empty_topology = record { port = λ _. zero_port; hub = λ _. zero_hub; notified = [] }

pub empty-IsSound : IsSound empty_topology
empty-IsSound = record {
  well_formed = record {
    links = record {
      mutual_peers = λ p q e. ground (arith, e);
      opposite_roles = λ p q e. ground (arith, e);
    };
    bounded = λ h. omega arith;
    hub_ports = λ h i p. ground (arith, p);
    spare_ports = λ h i p. refl;
    device_ports = λ d. inr (refl, refl);
  };
  settled = λ h n p q c. ground (arith, p, q);
}

-- The port of a device in memory that was just allocated, initialised.
abbrev pub init_device : ℕ → ℕ → Topology → Topology
init_device d speed t =
    (Port.init (some (device_port d)) upstream speed (some (device_owner d)) t).1

pub init_device-IsSound :
    (d speed : ℕ) (t : Topology)
    → (t.port (device_port d)).peer ≡ none
    → IsSound t
    → IsSound (init_device d speed t)
unfolding Port.init
init_device-IsSound d speed t e s =
    let w = s.well_formed in
    record {
      well_formed = record {
        links = record {
          mutual_peers =
              λ p q f. ground (arith, f, w.links.mutual_peers p q, e, w.links.mutual_peers q p);
          opposite_roles =
              λ p q f. ground (arith, f, w.links.opposite_roles p q, e, w.links.mutual_peers p q);
        };
        bounded = λ h. ground (arith, w.bounded h);
        hub_ports = λ h i p. ground (arith, w.hub_ports h i, p);
        spare_ports = λ h i p. ground (arith, w.spare_ports h i, p);
        device_ports = λ d'. ground (arith, w.device_ports d');
      };
      settled = λ g m.
          carried-IsSettled g m t (init_device d speed t) (ground arith)
            (λ _ _.
              link_connected-eq t (init_device d speed t) (hub_port g (m - 1)) (ground arith)
                (ground arith)
                (λ q f. ground (arith, f, e, w.links.mutual_peers (hub_port g (m - 1)) q)))
            (s.settled g m);
    }

port_over_current-IsSound :
    (p : PortRef) (b : Bool) (t : Topology)
    → IsSound t
    → IsSound (Port.set_over_current (some p) b t).1
unfolding Port.set_over_current
port_over_current-IsSound p b t s = record {
  well_formed =
      SameGraph-IsWellFormed t (Port.set_over_current (some p) b t).1
        (record {
          same_role = λ q. ground arith;
          same_owner = λ q. ground arith;
          same_peer = λ q. ground arith;
          same_count = λ h. ground arith;
        })
        s.well_formed;
  settled = λ g m.
      carried-IsSettled g m t (Port.set_over_current (some p) b t).1 (ground arith)
        (λ _ _.
          link_connected-eq t (Port.set_over_current (some p) b t).1 (hub_port g (m - 1))
            (ground arith) (ground arith) (λ q f. (ground arith, λ _. ground arith)))
        (s.settled g m);
}

pub set_port_over_current-IsSound :
    (hub : Option ℕ) (n : ℕ) (b : Bool) (t : Topology)
    → IsSound t
    → IsSound (set_port_over_current hub n b t).1
unfolding set_port_over_current
set_port_over_current-IsSound none n b t s = s
set_port_over_current-IsSound (some h) n b t s =
    elim (Bool-cases (is_per_port (t.hub h).over_current_mode)) [
      | inr f ↦ rw f s
      | inl f ↦ elim (Option-cases (get_port (some h) n t)) [
        | inl e ↦ rw (f, e, set_port_over_current) s
        | inr (p, e) ↦ rw (f, e, set_port_over_current) (port_over_current-IsSound p b t s)
      ]
    ]

-- A write to a hub that keeps its size and its words.
settings-IsSound :
    (h : ℕ) (v : Hub) (t : Topology)
    → v.port_count ≡ (t.hub h).port_count
    → v.usb ≡ (t.hub h).usb
    → IsSound t
    → IsSound (set_hub h v t)
unfolding set_hub
settings-IsSound h v t e f =
    words-IsSound t (set_hub h v t) (λ p. refl) (λ g. ground (arith, e))
      (λ g n b c. ground (arith, f, c))

either-IsSound :
    (b : Bool) (x y : ℤ × Topology) → IsSound x.1 → IsSound y.1 → IsSound (if b then x else y).1
either-IsSound true x y p q = p
either-IsSound false x y p q = q

pub set_power_switching_mode-IsSound :
    (hub : Option ℕ) (mode : ℕ) (t : Topology)
    → IsSound t
    → IsSound (set_power_switching_mode hub mode t).1
unfolding set_power_switching_mode
set_power_switching_mode-IsSound none mode t s = s
set_power_switching_mode-IsSound (some h) mode t s =
    either-IsSound (mode == 0) _ _
      (settings-IsSound h (record (t.hub h) { power_switching_mode = ganged }) t refl refl s)
      (either-IsSound (mode == 1) _ _
        (settings-IsSound h (record (t.hub h) { power_switching_mode = individual }) t refl refl s)
        s)

pub set_over_current_mode-IsSound :
    (hub : Option ℕ) (mode : ℕ) (t : Topology)
    → IsSound t
    → IsSound (set_over_current_mode hub mode t).1
unfolding set_over_current_mode
set_over_current_mode-IsSound none mode t s = s
set_over_current_mode-IsSound (some h) mode t s =
    either-IsSound (mode == 0) _ _
      (settings-IsSound h (record (t.hub h) { over_current_mode = global }) t refl refl s)
      (either-IsSound (mode == 1) _ _
        (settings-IsSound h (record (t.hub h) { over_current_mode = per_port }) t refl refl s)
        (either-IsSound (mode == 2) _ _
          (settings-IsSound h (record (t.hub h) { over_current_mode = no_detection }) t refl refl s)
          s))

pub set_over_current-IsSound :
    (hub : Option ℕ) (b : Bool) (t : Topology) → IsSound t → IsSound (set_over_current hub b t)
unfolding set_over_current
set_over_current-IsSound none b t s = s
set_over_current-IsSound (some h) b t s =
    ground (arith, s, settings-IsSound h (record (t.hub h) { over_current = b }) t refl refl s)

pub set_status_changed_callback-IsSound :
    (hub : Option ℕ) (callback : Bool) (context : Option ℕ) (t : Topology)
    → IsSound t
    → IsSound (set_status_changed_callback hub callback context t)
unfolding set_status_changed_callback
set_status_changed_callback-IsSound none callback context t s = s
set_status_changed_callback-IsSound (some h) callback context t s =
    settings-IsSound h
      (record (t.hub h) { status_changed = callback; status_changed_context = context }) t refl refl
      s
