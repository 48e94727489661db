-- ===== src/Device/Detach.antt =====
-- The detachment of a device (kernel/src/virtusb_device.c) and the soundness of the topology.
use virt_usb.Prelude.{
  ℕ, ◌+◌, ◌-◌, ◌≤◌, ◌<◌, Bool, false, Option, none, some, differ, ◌≡◌, ◌≢◌, inl, inr, ap, ◌∙◌,
  arith, if◌then◌else◌, subst,
}
use virt_usb.Topology.{PortRef, hub_port, device_port, Topology}
use virt_usb.Port
use virt_usb.Port.{is_upstream, is_downstream}
use virt_usb.Port.Laws.{IsLinked, detach-IsLinked}
use virt_usb.Hub.Defs.{port_is_connected, mark_port_connection_change}
use virt_usb.Hub.Settled.{link_connected, connected-link, link_connected-eq, IsSettled}
use virt_usb.Hub.Change.{IsWellFormed, IsSound, report-IsSettled}
use virt_usb.Hub.Sound.{report-IsWellFormed}
use virt_usb.Device.Link.{get_attached_hub, detach}
use virt_usb.Device.Graph.{
  attached_cases, attached_none, other_port, SameRoles, SameRoles-IsWellFormed,
}

detach-SameRoles : (p : PortRef) (t : Topology) → SameRoles t (Port.detach (some p) t)
unfolding Port.detach Port.unlink_peer
detach-SameRoles p t = record {
  same_hub = λ h. ground arith;
  same_role = λ q. ground arith;
  same_owner = λ q. ground arith;
}

detach-peer :
    (p q : PortRef) (t : Topology)
    → (t.port q).peer ≡ none
    → ((Port.detach (some p) t).port q).peer ≡ none
unfolding Port.detach Port.unlink_peer
detach-peer p q t e = ground arith

detach-IsWellFormed :
    (d : ℕ) (t : Topology) → IsWellFormed t → IsWellFormed (Port.detach (some (device_port d)) t)
detach-IsWellFormed d t w =
    SameRoles-IsWellFormed t (Port.detach (some (device_port d)) t)
      (detach-SameRoles (device_port d) t) (detach-IsLinked (some (device_port d)) t w.links)
      (λ h i e. detach-peer (device_port d) (hub_port h i) t (w.spare_ports h i e))
      (λ d' e.
        detach-peer (device_port d) (device_port d') t (ground (arith, w.device_ports d', e)))
      w

-- Only the link of the device changes.
detach-others :
    (d g i : ℕ) (t : Topology)
    → IsLinked t
    → (t.port (device_port d)).peer ≡ some (hub_port g i)
    → (p : PortRef) → p ≢ hub_port g i
    → p ≢ device_port d
    → link_connected p (Port.detach (some (device_port d)) t) ≡ link_connected p t
unfolding Port.detach Port.unlink_peer
detach-others d g i t l e p ne ne' =
    link_connected-eq t (Port.detach (some (device_port d)) t) p
      (ground (arith, ne, ne', l.mutual_peers (device_port d) (hub_port g i) e))
      (ground (arith, ne, ne', l.mutual_peers (device_port d) (hub_port g i) e))
      (λ q f. (ground arith, λ _. ground arith))

detach_frees :
    (d g i : ℕ) (t : Topology)
    → IsLinked t
    → (t.port (device_port d)).peer ≡ some (hub_port g i)
    → link_connected (hub_port g i) (Port.detach (some (device_port d)) t) ≡ false
unfolding Port.detach Port.unlink_peer link_connected
detach_frees d g i t l e = ground (arith, l.mutual_peers (device_port d) (hub_port g i) e)

detach_nothing :
    (d : ℕ) (t : Topology)
    → (t.port (device_port d)).peer ≡ none
    → Port.detach (some (device_port d)) t ≡ t
unfolding Port.detach Port.unlink_peer
detach_nothing d t e = ground arith

detach_linked-IsSound :
    (d g i : ℕ) (t : Topology)
    → i < (t.hub g).port_count
    → (t.port (device_port d)).peer ≡ some (hub_port g i)
    → IsSound t
    → IsSound (
        if port_is_connected (some g) (i + 1) t
        then mark_port_connection_change (some g) (i + 1) (Port.detach (some (device_port d)) t)
        else Port.detach (some (device_port d)) t)
detach_linked-IsSound d g i t inside e s =
    let t' = Port.detach (some (device_port d)) t in
    let w = s.well_formed in
    let same = (detach-SameRoles (device_port d) t).same_hub in
    let index : i + 1 - 1 ≡ i = omega arith in
    let bound : i + 1 ≤ (t'.hub g).port_count = ground (arith, same g, inside) in
    let free : port_is_connected (some g) (i + 1) t' ≡ false =
      connected-link g (i + 1) t' (omega arith) bound
      ∙ (ap (λ (k : ℕ). link_connected (hub_port g k) t') index ∙ detach_frees d g i t w.links e) in
    let differs : differ (port_is_connected (some g) (i + 1) t)
          (port_is_connected (some g) (i + 1) t')
        ≡ port_is_connected (some g) (i + 1) t =
      ground (arith, free) in
    record {
      well_formed =
          report-IsWellFormed (port_is_connected (some g) (i + 1) t) g (i + 1) t' (omega arith)
            bound (detach-IsWellFormed d t w);
      settled = λ h m.
          subst
            (λ (b : Bool).
              IsSettled (if b then mark_port_connection_change (some g) (i + 1) t' else t') h m)
            differs
            (report-IsSettled g (i + 1) t t' w.bounded (omega arith) (omega arith) same
              (λ k n ne p q.
                detach-others d g i t w.links e (hub_port k (n - 1)) (other_port k n g i ne p)
                  (λ f. ground (arith, f)))
              s.settled h m);
    }

-- `virtusb_device_detach` keeps a sound topology sound, for any argument.
pub detach-IsSound : (device : Option ℕ) (t : Topology) → IsSound t → IsSound (detach device t)
unfolding detach
detach-IsSound none t s = s
detach-IsSound (some d) t s = elim (attached_cases d t s.well_formed) [
  | inr (g, i, inside, e, found) ↦ rw (found, detach) (detach_linked-IsSound d g i t inside e s)
  | inl e ↦
      let alone : get_attached_hub (some d) t ≡ none = attached_none d t e in
      rw (alone, detach) (rw (detach_nothing d t e) s)
]
