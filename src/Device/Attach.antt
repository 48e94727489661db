-- ===== src/Device/Attach.antt =====
-- The attachment of a device (kernel/src/virtusb_device.c) and the soundness of the topology.
use virt_usb.Prelude.{
  ℕ, ◌+◌, ◌-◌, ◌<◌, true, Option, none, some, differ, ◌≡◌, ◌≢◌, inl, inr, sym, arith, is_negative,
  Bool-cases, Option-cases, subst,
}
use virt_usb.Topology.{PortRef, hub_port, device_port, upstream, Topology}
use virt_usb.Port
use virt_usb.Port.{is_upstream, is_downstream}
use virt_usb.Port.Laws.{attach-IsLinked}
use virt_usb.Hub.Defs.{port_is_connected, find_port_loop, find_port_number}
use virt_usb.Hub.Settled.{link_connected, link_connected-eq}
use virt_usb.Hub.Change.{IsWellFormed, IsSound, report-IsSettled}
use virt_usb.Hub.Sound.{report-IsWellFormed}
use virt_usb.Device.Link.{hub_of_owner, report_change, attach_at, attach}
use virt_usb.Device.Graph.{other_port, SameRoles, SameRoles-IsWellFormed, find_port_loop_found}

attach-SameRoles : (p q : PortRef) (t : Topology) → SameRoles t (Port.attach (some p) (some q) t).1
unfolding Port.attach
attach-SameRoles p q t = record {
  same_hub = λ h. ground arith;
  same_role = λ r. ground arith;
  same_owner = λ r. ground arith;
}

attach_refused :
    (p q : PortRef) (t : Topology)
    → is_negative (Port.attach (some p) (some q) t).0 ≡ true
    → (Port.attach (some p) (some q) t).1 ≡ t
unfolding Port.attach
attach_refused p q t e = ground arith

-- Only the two ports that are joined get a peer.
attach-peer :
    (p q r : PortRef) (t : Topology)
    → r ≢ p
    → r ≢ q
    → ((Port.attach (some p) (some q) t).1.port r).peer ≡ (t.port r).peer
unfolding Port.attach
attach-peer p q r t ne ne' = ground (arith, ne, ne')

attach_needs_upstream :
    (p q : PortRef) (t : Topology)
    → (t.port q).role ≢ upstream
    → (Port.attach (some p) (some q) t).1 ≡ t
unfolding Port.attach
attach_needs_upstream p q t e = ground (arith, e)

attach-IsWellFormed :
    (d g i : ℕ) (t : Topology)
    → i < (t.hub g).port_count
    → IsWellFormed t
    → IsWellFormed (Port.attach (some (hub_port g i)) (some (device_port d)) t).1
attach-IsWellFormed d g i t inside w =
    let t' = (Port.attach (some (hub_port g i)) (some (device_port d)) t).1 in
    SameRoles-IsWellFormed t t' (attach-SameRoles (hub_port g i) (device_port d) t)
      (attach-IsLinked (some (hub_port g i)) (some (device_port d)) t w.links)
      (λ h j f. ground (
        arith,
        attach-peer (hub_port g i) (device_port d) (hub_port h j) t,
        w.spare_ports h j f,
        f,
        inside,
      ))
      (λ d' f. ground (
        arith,
        attach-peer (hub_port g i) (device_port d) (device_port d') t,
        attach_needs_upstream (hub_port g i) (device_port d) t,
        w.device_ports d',
        f,
      ))
      w

attach-others :
    (d g i : ℕ) (t : Topology) (p : PortRef)
    → p ≢ hub_port g i
    → p ≢ device_port d
    → link_connected p (Port.attach (some (hub_port g i)) (some (device_port d)) t).1
      ≡ link_connected p t
unfolding Port.attach
attach-others d g i t p ne ne' =
    link_connected-eq t (Port.attach (some (hub_port g i)) (some (device_port d)) t).1 p
      (ground (arith, ne, ne')) (ground (arith, ne, ne')) (λ q e. (ground arith, λ _. ground arith))

attach_reported-IsSound :
    (d g i : ℕ) (t : Topology)
    → i < (t.hub g).port_count
    → IsSound t
    → IsSound (
        report_change
          (port_is_connected (some g) (i + 1) t)
          g
          (i + 1)
          (Port.attach (some (hub_port g i)) (some (device_port d)) t).1)
unfolding report_change
attach_reported-IsSound d g i t inside s =
    let t' = (Port.attach (some (hub_port g i)) (some (device_port d)) t).1 in
    let same = (attach-SameRoles (hub_port g i) (device_port d) t).same_hub in
    let changes =
      differ (port_is_connected (some g) (i + 1) t) (port_is_connected (some g) (i + 1) t') in
    record {
      well_formed =
          report-IsWellFormed changes g (i + 1) t' (omega arith) (ground (arith, same g, inside))
            (attach-IsWellFormed d g i t inside s.well_formed);
      settled =
          report-IsSettled g (i + 1) t t' s.well_formed.bounded (omega arith) (omega arith) same
            (λ k n ne p q.
              attach-others d g i t (hub_port k (n - 1)) (other_port k n g i ne p)
                (λ f. ground (arith, f)))
            s.settled;
    }

attach_at-IsSound :
    (d g i : ℕ) (t : Topology)
    → i < (t.hub g).port_count
    → IsSound t
    → IsSound (attach_at d g (hub_port g i) (i + 1) t).1
unfolding attach_at
attach_at-IsSound d g i t inside s =
    elim (Bool-cases (is_negative (Port.attach (some (hub_port g i)) (some (device_port d)) t).0)) [
      | inl f ↦ rw (f, attach_at) (rw (attach_refused (hub_port g i) (device_port d) t f) s)
      | inr f ↦ rw (f, attach_at) (attach_reported-IsSound d g i t inside s)
    ]

-- `virtusb_device_attach` keeps a sound topology sound, for any arguments.
pub attach-IsSound :
    (device : Option ℕ) (port : Option PortRef) (t : Topology)
    → IsSound t
    → IsSound (attach device port t).1
unfolding attach find_port_number
attach-IsSound none port t s = s
attach-IsSound (some d) none t s = s
attach-IsSound (some d) (some p) t s = elim (Option-cases (hub_of_owner (t.port p).owner)) [
  | inl e ↦ rw (e, attach) s
  | inr (g, e) ↦ elim (Option-cases (find_port_loop (t.hub g).port_count 0 g p)) [
    | inl f ↦ rw (e, f, attach, find_port_number) s
    | inr (n, f) ↦
        let (positive, inside, at) = find_port_loop_found (t.hub g).port_count 0 g p n f in
        let number : n - 1 + 1 ≡ n = omega arith in
        rw (e, f, attach, find_port_number)
          (subst (λ (q : PortRef). IsSound (attach_at d g q n t).1) (sym at)
            (subst (λ (k : ℕ). IsSound (attach_at d g (hub_port g (n - 1)) k t).1) number
              (attach_at-IsSound d g (n - 1) t (omega arith) s)))
  ]
]
