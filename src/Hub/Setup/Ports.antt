-- ===== src/Hub/Setup/Ports.antt =====
-- What the initialisation of a hub (kernel/src/virtusb_hub.c, `virtusb_hub_init`) writes.
use virt_usb.Prelude.{
  ℕ, zero, suc, ◌+◌, ◌≤◌, ◌<◌, ◌%◌, ◌^◌, false, none, some, ◌≡◌, ◌≢◌, refl, ◌∙◌, arith, ℕ_discrete,
  ℤ, success,
}
use virt_usb.Bits.{bit_test}
use virt_usb.Bits.Laws.{bit_test-digit}
use virt_usb.Bits.Digits.{digit-zero}
use virt_usb.Topology.{
  PortRef, hub_port, device_port, hub_owner, downstream, Port, zero_port, zero_hub, zero_usb_state,
  individual, per_port, Topology, set_hub,
}
use virt_usb.Port
use virt_usb.Port.{speed_cap_all}
use virt_usb.Hub.Speed.{read_speed}
use virt_usb.Hub.Settled.{IsClear}
use virt_usb.Hub.Setup.{clear_hub, init_ports}

bit_test-zero : (m : ℕ) → bit_test 0 m ≡ false
bit_test-zero m = ground (arith, bit_test-digit 0 m, digit-zero m)

pub zero-IsClear : (n : ℕ) → IsClear zero_usb_state n
unfolding read_speed
zero-IsClear n = record {
  not_enabled = bit_test-zero n;
  not_reset = bit_test-zero n;
  no_speed = ground arith;
}

-- A new port of the hub.
abbrev pub new_port : ℕ → Port
new_port h = record zero_port { role = downstream; owner = some (hub_owner h); speed = 7 }

abbrev init_one : ℕ → ℕ → Topology → ℤ × Topology
init_one h i t =
    Port.init (some (hub_port h i)) downstream (speed_cap_all % 2 ^ 8) (some (hub_owner h)) t

-- What the loop over the ports has done.
pub record Ports (h first last : ℕ) (t : Topology) (r : ℤ × Topology) : Type 0 where
  pub succeeds : r.0 ≡ success
  pub same_hub : (g : ℕ) → r.1.hub g ≡ t.hub g
  pub new_ports : (j : ℕ) → first ≤ j → j < last → r.1.port (hub_port h j) ≡ new_port h
  pub old_ports :
      (q : PortRef) → ((j : ℕ) → first ≤ j → j < last → q ≢ hub_port h j) → r.1.port q ≡ t.port q

init_one-Ports : (h i : ℕ) (t : Topology) → Ports h i (i + 1) t (init_one h i t)
unfolding Port.init Port.speed_is_valid
init_one-Ports h i t = record {
  succeeds = ground arith;
  same_hub = λ g. ground arith;
  new_ports = λ j p q. let e : j ≡ i = omega arith in ground (arith, e);
  old_ports = λ q ne. let ne' = ne i (omega arith) (omega arith) in ground (arith, ne');
}

pub init_ports-Ports :
    (rounds h i : ℕ) (t : Topology) → Ports h i (i + rounds) t (init_ports rounds h i t)
unfolding init_ports
init_ports-Ports zero h i t = record {
  succeeds = refl;
  same_hub = λ g. refl;
  new_ports = λ j p q. ground (arith, p, q);
  old_ports = λ q ne. refl;
}
init_ports-Ports (suc rounds) h i t =
    let one = init_one-Ports h i t in
    let rest = init_ports-Ports rounds h (i + 1) (init_one h i t).1 in
    rw (one.succeeds, init_ports)
      (record {
        succeeds = rest.succeeds;
        same_hub = λ g. rest.same_hub g ∙ one.same_hub g;
        new_ports = λ j p q. elim (ℕ_discrete j i) [
          | yes e ↦
              rest.old_ports (hub_port h j) (λ k p' q' f. ground (arith, f, e, p'))
              ∙ one.new_ports j (omega arith) (omega arith)
          | no ne ↦ rest.new_ports j (omega arith) (omega arith)
        ];
        old_ports = λ q ne.
            rest.old_ports q (λ j p p'. ne j (omega arith) (omega arith))
            ∙ one.old_ports q (λ j p p'. ne j (omega arith) (omega arith));
      })

-- A started hub of `count` ports, in place of one that no port is linked to.
pub record Started (h count : ℕ) (t t' : Topology) : Type 0 where
  pub old_hubs : (g : ℕ) → g ≢ h → t'.hub g ≡ t.hub g
  pub new_count : (t'.hub h).port_count ≡ count
  pub new_usb : (t'.hub h).usb ≡ zero_usb_state
  pub new_ports : (j : ℕ) → j < count → t'.port (hub_port h j) ≡ new_port h
  pub spare : (j : ℕ) → count ≤ j → (t'.port (hub_port h j)).peer ≡ none
  pub old_hub_ports : (g j : ℕ) → g ≢ h → t'.port (hub_port g j) ≡ t.port (hub_port g j)
  pub old_device_ports : (d : ℕ) → t'.port (device_port d) ≡ t.port (device_port d)

abbrev pub started : ℕ → ℕ → Topology → Topology
started h count t =
    set_hub h
      (record zero_hub {
        port_count = count % 2 ^ 8;
        power_switching_mode = individual;
        over_current_mode = per_port;
      })
      (clear_hub h t)

pub init_ports-Started :
    (h count : ℕ) (t : Topology)
    → count ≤ 31
    → Started h count t (init_ports count h 0 (started h count t)).1
unfolding set_hub clear_hub
init_ports-Started h count t p =
    let r = init_ports-Ports count h 0 (started h count t) in
    let small : count % 256 ≡ count = omega arith in
    record {
      old_hubs = λ g ne. ground (arith, r.same_hub g);
      new_count = ground (arith, r.same_hub h, small);
      new_usb = ground (arith, r.same_hub h);
      new_ports = λ j q. r.new_ports j (omega arith) (omega arith);
      spare =
          λ j q. ground (arith, r.old_ports (hub_port h j) (λ k u v f. ground (arith, f, q, v)));
      old_hub_ports =
          λ g j ne. ground (arith, r.old_ports (hub_port g j) (λ k u v f. ground (arith, f, ne)));
      old_device_ports =
          λ d. ground (arith, r.old_ports (device_port d) (λ k u v f. ground (arith, f)));
    }

-- No port of the hub's memory is linked, as in memory that was just allocated.
abbrev pub IsUnlinked : ℕ → Topology → Type 0
IsUnlinked h t = (i : ℕ) → (t.port (hub_port h i)).peer ≡ none

pub Started-unlinked :
    (h count i : ℕ) (t t' : Topology) → Started h count t t' → (t'.port (hub_port h i)).peer ≡ none
Started-unlinked h count i t t' s = ground (arith, s.new_ports i, s.spare i)
