-- ===== src/Device/Graph.antt =====
-- The port graph as the device operations (kernel/src/virtusb_device.c) read and change it.
use virt_usb.Prelude.{
  ℕ, zero, suc, ◌+◌, ◌-◌, ◌≤◌, ◌<◌, none, some, ◌≡◌, ◌≢◌, ◌⊎◌, inl, inr, arith, Option-cases,
}
use virt_usb.Topology.{PortRef, hub_port, device_port, upstream, Topology}
use virt_usb.Port.Laws.{IsLinked}
use virt_usb.Hub.Defs.{find_port_loop, find_port_number}
use virt_usb.Hub.Change.{IsWellFormed}
use virt_usb.Device.Link.{locate, get_attached_hub}

-- The number that the search finds is the port's.
pub find_port_loop_found :
    (rounds i h : ℕ) (p : PortRef) (n : ℕ)
    → find_port_loop rounds i h p ≡ some n
    → (i < n) × (n ≤ i + rounds) × (p ≡ hub_port h (n - 1))
unfolding find_port_loop
find_port_loop_found zero i h p n e = ground arith
find_port_loop_found (suc rounds) i h p n e =
    ground (arith, find_port_loop_found rounds (i + 1) h p n)

-- Ports of a hub are found.
pub find_port_loop_finds :
    (rounds i h j : ℕ)
    → i ≤ j
    → j < i + rounds
    → find_port_loop rounds i h (hub_port h j) ≡ some (j + 1)
unfolding find_port_loop
find_port_loop_finds zero i h j p q = ground arith
find_port_loop_finds (suc rounds) i h j p q =
    ground (arith, find_port_loop_finds rounds (i + 1) h j)

-- Under a well-formed graph a device hangs on no port, or on the port of a hub that the code finds.
pub attached_cases :
    (d : ℕ) (t : Topology)
    → IsWellFormed t
    → ((t.port (device_port d)).peer ≡ none)
      ⊎ ((g : ℕ) × (i : ℕ) × (i < (t.hub g).port_count)
          × ((t.port (device_port d)).peer ≡ some (hub_port g i))
          × (get_attached_hub (some d) t ≡ some (g, i + 1)))
unfolding get_attached_hub locate find_port_number
attached_cases d t w = elim (Option-cases (t.port (device_port d)).peer) [
  | inl e ↦ inl e
  | inr (hub_port g i, e) ↦
      let inside : i < (t.hub g).port_count =
        ground (arith, w.spare_ports g i, w.links.mutual_peers (device_port d) (hub_port g i) e) in
      inr (
        g,
        i,
        inside,
        e,
        ground (
          arith,
          w.hub_ports g i inside,
          e,
          find_port_loop_finds (t.hub g).port_count 0 g i (omega arith) (omega (arith, inside)),
        ),
      )
  | inr (device_port d', e) ↦ inl (
      ground (
        arith,
        w.device_ports d,
        w.device_ports d',
        w.links.opposite_roles (device_port d) (device_port d') e,
        w.links.mutual_peers (device_port d) (device_port d') e,
      ))
]

-- What the port functions leave alone: the hubs, and the role and owner of every port.
pub record SameRoles (t t' : Topology) : Type 0 where
  pub same_hub : (h : ℕ) → t'.hub h ≡ t.hub h
  pub same_role : (p : PortRef) → (t'.port p).role ≡ (t.port p).role
  pub same_owner : (p : PortRef) → (t'.port p).owner ≡ (t.port p).owner

pub SameRoles-IsWellFormed :
    (t t' : Topology)
    → SameRoles t t'
    → IsLinked t'
    → ((h i : ℕ) → (t.hub h).port_count ≤ i → (t'.port (hub_port h i)).peer ≡ none)
    → ((d : ℕ) → (t.port (device_port d)).role ≢ upstream → (t'.port (device_port d)).peer ≡ none)
    → IsWellFormed t
    → IsWellFormed t'
SameRoles-IsWellFormed t t' e l spare single w = record {
  links = l;
  bounded = λ h. ground (arith, e.same_hub h, w.bounded h);
  hub_ports = λ h i f. ground (
    arith,
    e.same_hub h,
    e.same_role (hub_port h i),
    e.same_owner (hub_port h i),
    w.hub_ports h i,
  );
  spare_ports = λ h i f. spare h i (ground (arith, e.same_hub h, f));
  device_ports = λ d. ground (
    arith,
    e.same_role (device_port d),
    e.same_owner (device_port d),
    single d,
    w.device_ports d,
  );
}

pub attached_none :
    (d : ℕ) (t : Topology)
    → (t.port (device_port d)).peer ≡ none
    → get_attached_hub (some d) t ≡ none
unfolding get_attached_hub
attached_none d t e = ground (arith, e)

-- `hub_port g (m - 1)` is another port than `hub_port h i`.
pub other_port : (g m h i : ℕ) → (g ≡ h → m ≡ i + 1 → ⊥) → 1 ≤ m → hub_port g (m - 1) ≢ hub_port h i
other_port g m h i ne p e = ground (arith, ne)
