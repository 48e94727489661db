-- ===== src/Device/Signal.antt =====
-- The connection signaling of a device (kernel/src/virtusb_device.c) and the soundness of the topology.
use virt_usb.Prelude.{
  ℕ, ◌+◌, ◌-◌, ◌<◌, Bool, true, Option, none, some, differ, ◌≡◌, ◌≢◌, inl, inr, arith, is_negative,
  Bool-cases,
}
use virt_usb.Topology.{PortRef, hub_port, device_port, Topology}
use virt_usb.Port
use virt_usb.Port.{is_upstream, is_downstream}
use virt_usb.Port.Laws.{IsLinked}
use virt_usb.Hub.Defs.{port_is_connected}
use virt_usb.Hub.Settled.{link_connected, link_connected-eq}
use virt_usb.Hub.Change.{IsWellFormed, IsSound, report-IsSettled, carried-IsSettled}
use virt_usb.Hub.Sound.{report-IsWellFormed}
use virt_usb.Device.Link.{report_change, set_connection_signaling}
use virt_usb.Device.Graph.{
  attached_cases, attached_none, other_port, SameRoles, SameRoles-IsWellFormed,
}

signal-SameRoles :
    (p : PortRef) (b : Bool) (t : Topology)
    → SameRoles t (Port.set_connection_signaling (some p) b t).1
unfolding Port.set_connection_signaling
signal-SameRoles p b t = record {
  same_hub = λ h. ground arith;
  same_role = λ q. ground arith;
  same_owner = λ q. ground arith;
}

signal-peer :
    (p q : PortRef) (b : Bool) (t : Topology)
    → ((Port.set_connection_signaling (some p) b t).1.port q).peer ≡ (t.port q).peer
unfolding Port.set_connection_signaling
signal-peer p q b t = ground arith

signal-IsWellFormed :
    (p : PortRef) (b : Bool) (t : Topology)
    → IsWellFormed t
    → IsWellFormed (Port.set_connection_signaling (some p) b t).1
signal-IsWellFormed p b t w =
    let t' = (Port.set_connection_signaling (some p) b t).1 in
    let e = signal-SameRoles p b t in
    SameRoles-IsWellFormed t t' e
      (record {
        mutual_peers = λ q r f.
            ground (arith, signal-peer p q b t, signal-peer p r b t, w.links.mutual_peers q r);
        opposite_roles = λ q r f.
            ground (
              arith,
              signal-peer p q b t,
              e.same_role q,
              e.same_role r,
              w.links.opposite_roles q r,
            );
      })
      (λ h i f. ground (arith, signal-peer p (hub_port h i) b t, w.spare_ports h i f))
      (λ d f. ground (arith, signal-peer p (device_port d) b t, w.device_ports d, f)) w

-- A port that is not linked to the device keeps its connection.
signal-others :
    (d : ℕ) (b : Bool) (t : Topology)
    → IsLinked t
    → (p : PortRef) → p ≢ device_port d
    → (t.port p).peer ≢ some (device_port d)
    → link_connected p (Port.set_connection_signaling (some (device_port d)) b t).1
      ≡ link_connected p t
unfolding Port.set_connection_signaling
signal-others d b t l p ne far =
    link_connected-eq t (Port.set_connection_signaling (some (device_port d)) b t).1 p
      (ground (arith, ne)) (ground (arith, ne)) (λ q e. (ground arith, λ _. ground (arith, far, e)))

signal_refused :
    (p : PortRef) (b : Bool) (t : Topology)
    → is_negative (Port.set_connection_signaling (some p) b t).0 ≡ true
    → (Port.set_connection_signaling (some p) b t).1 ≡ t
unfolding Port.set_connection_signaling
signal_refused p b t e = ground arith

signal_linked-IsSound :
    (d g i : ℕ) (b : Bool) (t : Topology)
    → i < (t.hub g).port_count
    → (t.port (device_port d)).peer ≡ some (hub_port g i)
    → IsSound t
    → IsSound (
        report_change
          (port_is_connected (some g) (i + 1) t)
          g
          (i + 1)
          (Port.set_connection_signaling (some (device_port d)) b t).1)
unfolding report_change
signal_linked-IsSound d g i b t inside e s =
    let t' = (Port.set_connection_signaling (some (device_port d)) b t).1 in
    let w = s.well_formed in
    let same = (signal-SameRoles (device_port d) b t).same_hub in
    let changes =
      differ (port_is_connected (some g) (i + 1) t) (port_is_connected (some g) (i + 1) t') in
    record {
      well_formed =
          report-IsWellFormed changes g (i + 1) t' (omega arith) (ground (arith, same g, inside))
            (signal-IsWellFormed (device_port d) b t w);
      settled =
          report-IsSettled g (i + 1) t t' w.bounded (omega arith) (omega arith) same
            (λ k n ne p q.
              signal-others d b t w.links (hub_port k (n - 1)) (λ f. ground (arith, f))
                (λ f. ground (
                  arith,
                  e,
                  other_port k n g i ne p,
                  w.links.mutual_peers (hub_port k (n - 1)) (device_port d) f,
                )))
            s.settled;
    }

signal_alone-IsSound :
    (d : ℕ) (b : Bool) (t : Topology)
    → (t.port (device_port d)).peer ≡ none
    → IsSound t
    → IsSound (Port.set_connection_signaling (some (device_port d)) b t).1
signal_alone-IsSound d b t e s = record {
  well_formed = signal-IsWellFormed (device_port d) b t s.well_formed;
  settled = λ g m.
      carried-IsSettled g m t (Port.set_connection_signaling (some (device_port d)) b t).1
        ((signal-SameRoles (device_port d) b t).same_hub g)
        (λ p q.
          signal-others d b t s.well_formed.links (hub_port g (m - 1)) (λ f. ground (arith, f))
            (λ f.
              ground (
                arith,
                e,
                s.well_formed.links.mutual_peers (hub_port g (m - 1)) (device_port d) f,
              )))
        (s.settled g m);
}

-- `virtusb_device_set_connection_signaling` keeps a sound topology sound, for any arguments.
pub set_connection_signaling-IsSound :
    (device : Option ℕ) (enabled : Bool) (t : Topology)
    → IsSound t
    → IsSound (set_connection_signaling device enabled t).1
unfolding set_connection_signaling
set_connection_signaling-IsSound none b t s = s
set_connection_signaling-IsSound (some d) b t s = elim (attached_cases d t s.well_formed) [
  | inl e ↦
      let alone = attached_none d t e in
      rw (alone, set_connection_signaling) (signal_alone-IsSound d b t e s)
  | inr (g, i, inside, e, found) ↦
      elim (Bool-cases (is_negative (Port.set_connection_signaling (some (device_port d)) b t).0)) [
        | inl f ↦
            rw (found, f, set_connection_signaling) (rw (signal_refused (device_port d) b t f) s)
        | inr f ↦
            rw (found, f, set_connection_signaling) (signal_linked-IsSound d g i b t inside e s)
      ]
]
