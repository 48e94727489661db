-- ===== src/Hub/Reset.antt =====
-- The reset of a port (kernel/src/virtusb_hub.c, `virtusb_hub_reset_port`).
use virt_usb.Prelude.{
  ℕ, ◌-◌, ◌≤◌, true, false, Option, none, some, ◌≡◌, ◌≢◌, inl, inr, refl, sym, ap, ◌∙◌, arith,
  ℕ_discrete, success, Bool-cases, subst,
}
use virt_usb.Uapi.{PortSpeed, unknown}
use virt_usb.Bits.{bit_test, bit_set, bit_clear}
use virt_usb.Bits.Laws.{bit_test-bit_set, bit_test-bit_clear}
use virt_usb.Topology.{PortRef, hub_port, Port, Hub, Topology, set_hub}
use virt_usb.Hub.Speed.{read_speed}
use virt_usb.Hub.Speed.Laws.{read_speed-put_speed}
use virt_usb.Hub.Defs.{
  notify_status_changed, port_is_connected, port_is_valid, complete_reset, set_port_speed,
  raise_reset_change, reset_port, determine_port_speed, is_unknown,
}
use virt_usb.Hub.Settled.{
  link_connected, connected-link, IsClear, link_connected_same, raise_reset_change-SameUsb,
}
use virt_usb.Hub.Change.{IsSound}
use virt_usb.Hub.Sound.{SameGraph, SameGraph-IsWellFormed, complete_reset-IsClear_ne}

-- A reset of a connected port of known speed, as the code ends it.
after_reset : ℕ → ℕ → PortSpeed → Topology → Topology
after_reset h n speed t = raise_reset_change h n (set_hub h (complete_reset n speed (t.hub h)) t)

record Resets (h n : ℕ) (speed : PortSpeed) (t t' : Topology) : Type 0 where
  same_port : (p : PortRef) → t'.port p ≡ t.port p
  same_count : (g : ℕ) → (t'.hub g).port_count ≡ (t.hub g).port_count
  same_usb : (g : ℕ) → g ≢ h → (t'.hub g).usb ≡ (t.hub g).usb
  new_usb : (t'.hub h).usb ≡ (complete_reset n speed (t.hub h)).usb

after_reset-Resets :
    (h n : ℕ) (speed : PortSpeed) (t : Topology) → Resets h n speed t (after_reset h n speed t)
unfolding after_reset set_hub complete_reset set_port_speed
after_reset-Resets h n speed t =
    let a = raise_reset_change-SameUsb h n (set_hub h (complete_reset n speed (t.hub h)) t) in
    record {
      same_port = λ p. ground (arith, a.same_port p);
      same_count = λ g. ground (arith, a.same_count g);
      same_usb = λ g ne. ground (arith, a.same_usb g);
      new_usb = ground (arith, a.same_usb h);
    }

Resets-IsSound :
    (h n : ℕ) (speed : PortSpeed) (t t' : Topology)
    → 1 ≤ n
    → n ≤ (t.hub h).port_count
    → link_connected (hub_port h (n - 1)) t ≡ true
    → Resets h n speed t t'
    → IsSound t
    → IsSound t'
Resets-IsSound h n speed t t' p q linked r s = record {
  well_formed = SameGraph-IsWellFormed t t' graph s.well_formed;
  settled = λ g m i j c. settled_at g m i j c (ℕ_discrete g h);
}
  where
    graph : SameGraph t t'
    graph = record {
      same_role = λ k. ap (λ (v : Port). v.role) (r.same_port k);
      same_owner = λ k. ap (λ (v : Port). v.owner) (r.same_port k);
      same_peer = λ k. ap (λ (v : Port). v.peer) (r.same_port k);
      same_count = r.same_count;
    }

    settled_at :
        (g m : ℕ)
        → 1 ≤ m
        → m ≤ (t'.hub g).port_count
        → link_connected (hub_port g (m - 1)) t' ≡ false
        → Dec (g ≡ h)
        → IsClear (t'.hub g).usb m
    settled_at g m i j c (no ne) =
        let old =
          s.settled g m i (omega (arith, r.same_count g))
            (sym (link_connected_same t t' (hub_port g (m - 1)) r.same_port) ∙ c) in
        subst (λ v. IsClear v m) (sym (r.same_usb g ne)) old
    settled_at g m i j c (yes e) =
        let c' : link_connected (hub_port h (m - 1)) t ≡ false =
          ground (arith, e, c, link_connected_same t t' (hub_port h (m - 1)) r.same_port) in
        let j' : m ≤ (t.hub h).port_count = ground (arith, e, j, r.same_count h) in
        let ne : n ≢ m = λ e'. ground (arith, linked, c', e') in
        let bound = s.well_formed.bounded h in
        let cleared =
          complete_reset-IsClear_ne n m speed (t.hub h) (omega arith) (omega arith) ne
            (s.settled h m i j' c') in
        ground (arith, e, r.new_usb, cleared)

-- `virtusb_hub_reset_port` keeps a sound topology sound, for any arguments.
pub reset_port-IsSound :
    (hub : Option ℕ) (n : ℕ) (t : Topology) → IsSound t → IsSound (reset_port hub n t).1
unfolding reset_port port_is_valid raise_reset_change after_reset
reset_port-IsSound none n t s = s
reset_port-IsSound (some h) n t s = elim (Bool-cases (port_is_valid (some h) n t)) [
  | inr e ↦ rw (e, reset_port) s
  | inl e ↦ elim (Bool-cases (port_is_connected (some h) n t)) [
    | inr c ↦ rw (e, c, reset_port) s
    | inl c ↦ elim (Bool-cases (is_unknown (determine_port_speed (some h) n t))) [
      | inl k ↦ rw (e, c, k, reset_port) s
      | inr k ↦
          let speed = determine_port_speed (some h) n t in
          let p : 1 ≤ n = ground (arith, e) in
          let q : n ≤ (t.hub h).port_count = ground (arith, e) in
          rw (e, c, k, reset_port)
            (Resets-IsSound h n speed t (after_reset h n speed t) p q
              (sym (connected-link h n t p q) ∙ c) (after_reset-Resets h n speed t) s)
    ]
  ]
]

-- A port after its reset.
pub record IsReset (h n : ℕ) (speed : PortSpeed) (v : Hub) : Type 0 where
  pub is_enabled : bit_test v.usb.enabled n ≡ true
  pub is_awake : bit_test v.usb.suspended n ≡ false
  pub reset_done : bit_test v.usb.reset n ≡ false
  pub has_speed : read_speed v.usb.speed n ≡ speed
  pub changed : bit_test v.usb_change.reset n ≡ true

after_reset-IsReset :
    (h n : ℕ) (speed : PortSpeed) (t : Topology)
    → n ≤ 31
    → IsReset h n speed ((after_reset h n speed t).hub h)
unfolding after_reset raise_reset_change set_hub complete_reset set_port_speed notify_status_changed
after_reset-IsReset h n speed t p =
    let v = t.hub h in
    let set = bit_test-bit_set v.usb_change.reset n n in
    record {
      is_enabled = ground (arith, bit_test-bit_set (bit_clear v.usb.enabled n) n n);
      is_awake = ground (arith, bit_test-bit_clear v.usb.suspended n n (omega arith) (omega arith));
      reset_done =
          ground
            (arith, bit_test-bit_clear (bit_set v.usb.reset n) n n (omega arith) (omega arith));
      has_speed = ground (arith, read_speed-put_speed v.usb.speed n n speed p p);
      changed = ground (arith, set);
    }

-- For a valid port of number at most 31 that is connected, with a speed that both ends can do, a
-- reset of the port succeeds; after it the port is enabled, not suspended and not in reset, its
-- stored speed is the determined one, and its reset change bit is set.
pub reset_port_effect :
    (h n : ℕ) (t : Topology)
    → n ≤ 31
    → port_is_valid (some h) n t ≡ true
    → port_is_connected (some h) n t ≡ true
    → determine_port_speed (some h) n t ≢ unknown
    → ((reset_port (some h) n t).0 ≡ success)
      × IsReset h n (determine_port_speed (some h) n t) ((reset_port (some h) n t).1.hub h)
unfolding reset_port after_reset
reset_port_effect h n t p v c k =
    let known : is_unknown (determine_port_speed (some h) n t) ≡ false = ground (arith, k) in
    rw (v, c, known, reset_port)
      (refl, after_reset-IsReset h n (determine_port_speed (some h) n t) t p)
