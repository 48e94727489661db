-- ===== src/Hub/Setup/Sound.antt =====
-- The initialisation and the reset of a hub (kernel/src/virtusb_hub.c) and the soundness of the
-- topology.
use virt_usb.Prelude.{
  ℕ, ◌-◌, ◌≤◌, ◌||◌, Option, none, some, ◌≡◌, ◌⊎◌, inl, inr, refl, sym, ap, arith, ℕ_discrete, ltb,
  ◌==◌, Bool-cases, subst,
}
use virt_usb.Uapi.{max_hub_ports}
use virt_usb.Topology.{PortRef, hub_port, device_port, Port, Topology, set_hub}
use virt_usb.Hub.Settled.{IsClear, link_connected_same}
use virt_usb.Hub.Sound.{SameGraph-IsWellFormed}
use virt_usb.Hub.Change.{IsWellFormed, IsSound}
use virt_usb.Hub.Setup.{init_ports, init, reset, root_hub_init, root_hub_reset}
use virt_usb.Hub.Setup.Ports.{
  zero-IsClear, init_ports-Ports, Started, started, init_ports-Started, IsUnlinked,
  Started-unlinked,
}
use virt_usb.Port.Laws.{IsLinked}
use virt_usb.Hub.Settled.{link_connected-eq}
use virt_usb.Hub.Change.{carried-IsSettled}

port_cases :
    (h count : ℕ) (t t' : Topology)
    → Started h count t t'
    → (p : PortRef) → ((i : ℕ) × (p ≡ hub_port h i)) ⊎ (t'.port p ≡ t.port p)
port_cases h count t t' s (device_port d) = inr (s.old_device_ports d)
port_cases h count t t' s (hub_port g i) = elim (ℕ_discrete g h) [
  | yes e ↦ inl (i, ap (λ (k : ℕ). hub_port k i) e)
  | no ne ↦ inr (s.old_hub_ports g i ne)
]

-- A port that is linked, before or after, is not one of the hub's.
linked_before :
    (h count : ℕ) (t t' : Topology) (p q : PortRef)
    → IsUnlinked h t
    → Started h count t t'
    → (t.port p).peer ≡ some q
    → t'.port p ≡ t.port p
linked_before h count t t' p q u s e = elim (port_cases h count t t' s p) [
  | inr f ↦ f
  | inl (i, f) ↦ ground (arith, u i, f, e)
]

linked_after :
    (h count : ℕ) (t t' : Topology) (p q : PortRef)
    → Started h count t t'
    → (t'.port p).peer ≡ some q
    → t'.port p ≡ t.port p
linked_after h count t t' p q s e = elim (port_cases h count t t' s p) [
  | inr f ↦ f
  | inl (i, f) ↦ ground (arith, Started-unlinked h count i t t' s, f, e)
]

Started-IsLinked :
    (h count : ℕ) (t t' : Topology)
    → IsUnlinked h t
    → Started h count t t'
    → IsLinked t
    → IsLinked t'
Started-IsLinked h count t t' u s l = record {
  mutual_peers = λ p q e.
      let before = linked_after h count t t' p q s e in
      let back = l.mutual_peers p q (ground (arith, before, e)) in
      ground (arith, linked_before h count t t' q p u s back, back);
  opposite_roles = λ p q e.
      let before = linked_after h count t t' p q s e in
      let e' : (t.port p).peer ≡ some q = ground (arith, before, e) in
      ground (
        arith,
        before,
        linked_before h count t t' q p u s (l.mutual_peers p q e'),
        l.opposite_roles p q e',
      );
}

Started-IsWellFormed :
    (h count : ℕ) (t t' : Topology)
    → count ≤ 31
    → IsUnlinked h t
    → Started h count t t'
    → IsWellFormed t
    → IsWellFormed t'
Started-IsWellFormed h count t t' c u s w = record {
  links = Started-IsLinked h count t t' u s w.links;
  bounded = λ g. elim (ℕ_discrete g h) [
    | yes e ↦ ground (arith, e, s.new_count, c)
    | no ne ↦ ground (arith, s.old_hubs g ne, w.bounded g)
  ];
  hub_ports = λ g i p. elim (ℕ_discrete g h) [
    | yes e ↦ ground (arith, e, s.new_count, s.new_ports i, p)
    | no ne ↦ ground (arith, s.old_hubs g ne, s.old_hub_ports g i ne, w.hub_ports g i, p)
  ];
  spare_ports = λ g i p. elim (ℕ_discrete g h) [
    | yes e ↦ ground (arith, e, s.new_count, s.spare i, p)
    | no ne ↦ ground (arith, s.old_hubs g ne, s.old_hub_ports g i ne, w.spare_ports g i, p)
  ];
  device_ports = λ d. ground (arith, s.old_device_ports d, w.device_ports d);
}

Started-IsSound :
    (h count : ℕ) (t t' : Topology)
    → count ≤ 31
    → IsUnlinked h t
    → Started h count t t'
    → IsSound t
    → IsSound t'
Started-IsSound h count t t' c u s sound = record {
  well_formed = Started-IsWellFormed h count t t' c u s sound.well_formed;
  settled = λ g m. elim (ℕ_discrete g h) [
    | yes e ↦ λ _ _ _.
        subst (λ (k : ℕ). IsClear (t'.hub k).usb m) (sym e)
          (subst (λ v. IsClear v m) (sym s.new_usb) (zero-IsClear m))
    | no ne ↦
        carried-IsSettled g m t t' (s.old_hubs g ne)
          (λ _ _.
            let same = s.old_hub_ports g (m - 1) ne in
            link_connected-eq t t' (hub_port g (m - 1)) (ap (λ (v : Port). v.peer) same)
              (ap (λ (v : Port). v.state_first) same)
              (λ q e.
                let there =
                  linked_before h count t t' q (hub_port g (m - 1)) u s
                    (sound.well_formed.links.mutual_peers (hub_port g (m - 1)) q e) in
                (ap (λ (v : Port). v.role) there, λ _. ap (λ (v : Port). v.state_first) there)))
          (sound.settled g m)
  ];
}

-- `virtusb_root_hub_init` in memory that no port is linked to keeps a sound topology sound.
pub root_hub_init-IsSound :
    (h count : ℕ) (t : Topology)
    → IsUnlinked h t
    → IsSound t
    → IsSound (root_hub_init (some h) count t).1
unfolding root_hub_init init set_hub
root_hub_init-IsSound h count t u s = elim (Bool-cases (count == 0 || ltb max_hub_ports count)) [
  | inl e ↦ rw (e, root_hub_init, init) s
  | inr e ↦
      let small : count ≤ 31 = ground (arith, e) in
      let done = (init_ports-Ports count h 0 (started h count t)).succeeds in
      rw (e, done, root_hub_init, init)
        (Started-IsSound h count t (init_ports count h 0 (started h count t)).1 small u
          (init_ports-Started h count t small) s)
]

-- `virtusb_root_hub_reset` keeps a sound topology sound.
pub root_hub_reset-IsSound :
    (hub : Option ℕ) (t : Topology) → IsSound t → IsSound (root_hub_reset hub t)
unfolding root_hub_reset reset set_hub
root_hub_reset-IsSound none t s = s
root_hub_reset-IsSound (some h) t s = record {
  well_formed =
      SameGraph-IsWellFormed t (root_hub_reset (some h) t)
        (record {
          same_role = λ p. refl;
          same_owner = λ p. refl;
          same_peer = λ p. refl;
          same_count = λ g. ground arith;
        })
        s.well_formed;
  settled = λ g m i j c. ground (
    arith,
    zero-IsClear m,
    s.settled g m i,
    link_connected_same t (root_hub_reset (some h) t) (hub_port g (m - 1)) (λ p. refl),
    j,
    c,
  );
}
