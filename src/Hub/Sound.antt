-- ===== src/Hub/Sound.antt =====
-- The power operations of kernel/src/virtusb_hub.c and the soundness of the topology.
use virt_usb.Prelude.{
  ℕ, zero, suc, ◌+◌, ◌-◌, ◌≤◌, Bool, true, false, Option, none, some, ◌≡◌, ◌≢◌, ◌⊎◌, inl, inr, ap,
  arith, if◌then◌else◌, success, Bool-cases,
}
use virt_usb.Uapi.{PortSpeed}
use virt_usb.Bits.{bit_set, bit_clear}
use virt_usb.Bits.Laws.{bit_test-bit_set, bit_test-bit_clear}
use virt_usb.Topology.{PortRef, hub_port, device_port, downstream, Port, Hub, Topology}
use virt_usb.Port
use virt_usb.Hub.Speed.Laws.{read_speed-put_speed}
use virt_usb.Hub.Defs.{
  get_port, mark_port_connection_change, port_is_valid, complete_reset, set_port_speed,
}
use virt_usb.Hub.Power.{is_ganged, switch_port, switch_ports, set_all_ports_power, set_port_power}
use virt_usb.Hub.Settled.{IsClear, mark-Marked}
use virt_usb.Hub.Change.{IsWellFormed, IsSound, report-IsSettled, set_powered-others}

-- Ports with the same roles, owners and peers, on hubs of the same sizes.
pub record SameGraph (t t' : Topology) : Type 0 where
  pub same_role : (p : PortRef) → (t'.port p).role ≡ (t.port p).role
  pub same_owner : (p : PortRef) → (t'.port p).owner ≡ (t.port p).owner
  pub same_peer : (p : PortRef) → (t'.port p).peer ≡ (t.port p).peer
  pub same_count : (h : ℕ) → (t'.hub h).port_count ≡ (t.hub h).port_count

pub SameGraph-IsWellFormed : (t t' : Topology) → SameGraph t t' → IsWellFormed t → IsWellFormed t'
SameGraph-IsWellFormed t t' e w = record {
  links = record {
    mutual_peers = λ p q f. ground (arith, e.same_peer p, e.same_peer q, w.links.mutual_peers p q);
    opposite_roles = λ p q f.
        ground (arith, e.same_peer p, e.same_role p, e.same_role q, w.links.opposite_roles p q);
  };
  bounded = λ h. ground (arith, e.same_count h, w.bounded h);
  hub_ports = λ h i f. ground (
    arith,
    e.same_count h,
    e.same_role (hub_port h i),
    e.same_owner (hub_port h i),
    w.hub_ports h i,
  );
  spare_ports =
      λ h i f. ground (arith, e.same_count h, e.same_peer (hub_port h i), w.spare_ports h i);
  device_ports = λ d. ground (
    arith,
    e.same_role (device_port d),
    e.same_owner (device_port d),
    e.same_peer (device_port d),
    w.device_ports d,
  );
}

mark-SameGraph :
    (h n : ℕ) (t : Topology)
    → 1 ≤ n
    → n ≤ (t.hub h).port_count
    → SameGraph t (mark_port_connection_change (some h) n t)
mark-SameGraph h n t p q =
    let marked = mark-Marked h n t p q in
    record {
      same_role = λ r. ap (λ (v : Port). v.role) (marked.same_port r);
      same_owner = λ r. ap (λ (v : Port). v.owner) (marked.same_port r);
      same_peer = λ r. ap (λ (v : Port). v.peer) (marked.same_port r);
      same_count = marked.same_count;
    }

set_powered-SameGraph :
    (port : PortRef) (powered : Bool) (t : Topology)
    → SameGraph t (Port.set_powered (some port) powered t).1
unfolding Port.set_powered
set_powered-SameGraph port powered t = record {
  same_role = λ p. ground arith;
  same_owner = λ p. ground arith;
  same_peer = λ p. ground arith;
  same_count = λ h. ground arith;
}

-- The report of a change keeps the graph well-formed.
pub report-IsWellFormed :
    (b : Bool) (h n : ℕ) (t : Topology)
    → 1 ≤ n
    → n ≤ (t.hub h).port_count
    → IsWellFormed t
    → IsWellFormed (if b then mark_port_connection_change (some h) n t else t)
report-IsWellFormed true h n t p q w = SameGraph-IsWellFormed t _ (mark-SameGraph h n t p q) w
report-IsWellFormed false h n t p q w = w

set_powered_hub :
    (port : PortRef) (powered : Bool) (t : Topology) (g : ℕ)
    → (Port.set_powered (some port) powered t).1.hub g ≡ t.hub g
unfolding Port.set_powered
set_powered_hub port powered t g = ground arith

set_powered_accepted :
    (port : PortRef) (powered : Bool) (t : Topology)
    → (t.port port).role ≡ downstream
    → (Port.set_powered (some port) powered t).0 ≡ success
unfolding Port.set_powered
set_powered_accepted port powered t e = ground arith

pub switch_port-IsSound :
    (h n : ℕ) (powered : Bool) (t : Topology)
    → 1 ≤ n
    → n ≤ (t.hub h).port_count
    → IsSound t
    → IsSound (switch_port h n (hub_port h (n - 1)) powered t).1
unfolding switch_port
switch_port-IsSound h n powered t p q s =
    let port = hub_port h (n - 1) in
    let t' = (Port.set_powered (some port) powered t).1 in
    let formed' =
      SameGraph-IsWellFormed t t' (set_powered-SameGraph port powered t) s.well_formed in
    let settled' =
      report-IsSettled h n t t' s.well_formed.bounded p q (set_powered_hub port powered t)
        (λ g m ne i j. set_powered-others h n powered t g m p i ne) s.settled in
    let down = (s.well_formed.hub_ports h (n - 1) (omega arith)).0 in
    rw (set_powered_accepted port powered t down, switch_port)
      (record {
        well_formed =
            report-IsWellFormed _ h n t' p (ground (arith, set_powered_hub port powered t h, q))
              formed';
        settled = settled';
      })

pub switch_port_succeeds :
    (h n : ℕ) (powered : Bool) (t : Topology)
    → 1 ≤ n
    → n ≤ (t.hub h).port_count
    → IsWellFormed t
    → ((switch_port h n (hub_port h (n - 1)) powered t).0 ≡ success)
      × ((g : ℕ)
          → ((switch_port h n (hub_port h (n - 1)) powered t).1.hub g).port_count
            ≡ (t.hub g).port_count)
unfolding switch_port
switch_port_succeeds h n powered t p q w =
    let port = hub_port h (n - 1) in
    let t' = (Port.set_powered (some port) powered t).1 in
    let ok = set_powered_accepted port powered t (w.hub_ports h (n - 1) (omega arith)).0 in
    let marked = mark-Marked h n t' p (ground (arith, set_powered_hub port powered t h, q)) in
    (
      ground (arith, ok),
      λ g. ground (arith, ok, marked.same_count g, set_powered_hub port powered t g),
    )

pub switch_ports-IsSound :
    (rounds h n : ℕ) (powered : Bool) (t : Topology)
    → 1 ≤ n
    → n + rounds ≤ (t.hub h).port_count + 1
    → IsSound t
    → IsSound (switch_ports rounds h n powered t).1
unfolding switch_ports
switch_ports-IsSound zero h n powered t p q s = s
switch_ports-IsSound (suc rounds) h n powered t p q s =
    let t' = (switch_port h n (hub_port h (n - 1)) powered t).1 in
    let (ok, counts) = switch_port_succeeds h n powered t p (omega arith) s.well_formed in
    rw (ok, switch_ports)
      (switch_ports-IsSound rounds h (n + 1) powered t' (omega arith) (omega (arith, counts h))
        (switch_port-IsSound h n powered t p (omega arith) s))

pub set_all_ports_power-IsSound :
    (hub : Option ℕ) (powered : Bool) (t : Topology)
    → IsSound t
    → IsSound (set_all_ports_power hub powered t).1
unfolding set_all_ports_power
set_all_ports_power-IsSound none powered t s = s
set_all_ports_power-IsSound (some h) powered t s =
    switch_ports-IsSound (t.hub h).port_count h 1 powered t (omega arith) (omega arith) s

get_port_cases :
    (h n : ℕ) (t : Topology)
    → (get_port (some h) n t ≡ none)
      ⊎ ((1 ≤ n) × (n ≤ (t.hub h).port_count) × (get_port (some h) n t ≡ some (hub_port h (n - 1))))
unfolding get_port port_is_valid
get_port_cases h n t = ground arith

-- setting a port's power keeps a sound topology sound, in both switching modes and for any port
-- number
pub set_port_power-IsSound :
    (hub : Option ℕ) (n : ℕ) (powered : Bool) (t : Topology)
    → IsSound t
    → IsSound (set_port_power hub n powered t).1
unfolding set_port_power
set_port_power-IsSound none n powered t s = s
set_port_power-IsSound (some h) n powered t s = elim (get_port_cases h n t) [
  | inl e ↦ rw (e, set_port_power) s
  | inr (p, q, e) ↦
      rw (e, set_port_power)
        (elim (Bool-cases (is_ganged (t.hub h).power_switching_mode)) [
          | inl g ↦ rw g (set_all_ports_power-IsSound (some h) powered t s)
          | inr g ↦ rw g (switch_port-IsSound h n powered t p q s)
        ])
]

pub complete_reset-IsClear_ne :
    (n m : ℕ) (speed : PortSpeed) (v : Hub)
    → n ≤ 31
    → m ≤ 31
    → n ≢ m
    → IsClear v.usb m
    → IsClear (complete_reset n speed v).usb m
unfolding complete_reset set_port_speed
complete_reset-IsClear_ne n m speed v h k ne c = ground (
  arith,
  bit_test-bit_clear v.usb.enabled n m (omega arith) (omega arith),
  bit_test-bit_set (bit_clear v.usb.enabled n) n m,
  bit_test-bit_set v.usb.reset n m,
  bit_test-bit_clear (bit_set v.usb.reset n) n m (omega arith) (omega arith),
  read_speed-put_speed v.usb.speed n m speed h k,
)
