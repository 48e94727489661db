-- ===== src/Hcd/RootHub/Sound.antt =====
-- The root hub's requests (kernel/src/virtusb_hcd.c, `virtusb_hcd_hub_control`) and the soundness of
-- the topology.
use virt_usb.Prelude.{
  ℕ, ◌-◌, ◌≤◌, true, false, some, ◌≡◌, inl, inr, refl, sym, ap, ◌∙◌, arith, Bool-cases, bit_and,
}
use virt_usb.Bits.{bit_set, bit_clear}
use virt_usb.Bits.Laws.{bit_test-bit_clear}
use virt_usb.Topology.{PortRef, hub_port, Port, UsbState, UsbChange, Topology, set_hub}
use virt_usb.Hub.Settled.{IsClear, link_connected_same}
use virt_usb.Hub.Change.{IsSound}
use virt_usb.Hub.Sound.{SameGraph-IsWellFormed, set_port_power-IsSound}
use virt_usb.Hub.Defs.{port_is_valid}
use virt_usb.Hub.Reset.{reset_port-IsSound}
use virt_usb.Hcd.Usb.{
  Feature, enable, suspend, power, reset, c_connection, c_enable, c_suspend, c_over_current,
  c_reset, other_feature, feature_of_value, HubRequest, request_of_value, clear_hub_feature,
  clear_port_feature, get_hub_descriptor, get_hub_status, get_port_status, set_hub_feature,
  set_port_feature, other_request,
}
use virt_usb.Hcd.RootHub.{
  set_usb, set_usb_change, clear_feature, clear_port_feature_of, set_feature, set_port_feature_of,
  clear_hub_feature_of, respond, hub_control,
}

-- A change of the words of one hub that leaves clear ports clear.
pub words-IsSound :
    (t t' : Topology)
    → ((p : PortRef) → t'.port p ≡ t.port p)
    → ((h : ℕ) → (t'.hub h).port_count ≡ (t.hub h).port_count)
    → ((h n : ℕ) → n ≤ 31 → IsClear (t.hub h).usb n → IsClear (t'.hub h).usb n)
    → IsSound t
    → IsSound t'
words-IsSound t t' ports counts keeps s = record {
  well_formed =
      SameGraph-IsWellFormed t t'
        (record {
          same_role = λ p. ap (λ (v : Port). v.role) (ports p);
          same_owner = λ p. ap (λ (v : Port). v.owner) (ports p);
          same_peer = λ p. ap (λ (v : Port). v.peer) (ports p);
          same_count = counts;
        })
        s.well_formed;
  settled = λ h n i j c.
      let bound = s.well_formed.bounded h in
      keeps h n (omega (arith, counts h)) (
        s.settled h n i (omega (arith, counts h))
          (sym (link_connected_same t t' (hub_port h (n - 1)) ports) ∙ c));
}

set_usb_change-IsSound :
    (h : ℕ) (change : UsbChange) (t : Topology) → IsSound t → IsSound (set_usb_change h change t)
unfolding set_usb_change set_hub
set_usb_change-IsSound h change t =
    words-IsSound t (set_usb_change h change t) (λ p. refl) (λ g. ground arith)
      (λ g n b c. ground (arith, c))

set_usb-IsSound :
    (h : ℕ) (usb : UsbState) (t : Topology)
    → ((n : ℕ) → n ≤ 31 → IsClear (t.hub h).usb n → IsClear usb n)
    → IsSound t
    → IsSound (set_usb h usb t)
unfolding set_usb set_hub
set_usb-IsSound h usb t keeps =
    words-IsSound t (set_usb h usb t) (λ p. refl) (λ g. ground arith)
      (λ g n b c. ground (arith, keeps n b, c))

clear_enabled_lem :
    (v : UsbState) (m n : ℕ)
    → m ≤ 31
    → n ≤ 31
    → IsClear v n
    → IsClear (record v { enabled = bit_clear v.enabled m }) n
clear_enabled_lem v m n p q c =
    ground (arith, c, bit_test-bit_clear v.enabled m n (omega arith) (omega arith))

valid_bound : (h n : ℕ) (t : Topology) → IsSound t → port_is_valid (some h) n t ≡ true → n ≤ 31
unfolding port_is_valid
valid_bound h n t s e = ground (arith, s.well_formed.bounded h, e)

clear_feature-IsSound :
    (f : Feature) (h n : ℕ) (t : Topology) → n ≤ 31 → IsSound t → IsSound (clear_feature f h n t).1
unfolding clear_feature
clear_feature-IsSound enable h n t p s =
    let usb = (t.hub h).usb in
    set_usb-IsSound h (record usb { enabled = bit_clear usb.enabled n }) t
      (λ m q. clear_enabled_lem usb n m p q) s
clear_feature-IsSound suspend h n t p s =
    let usb = (t.hub h).usb in
    set_usb-IsSound h (record usb { suspended = bit_clear usb.suspended n }) t
      (λ m q c. ground (arith, c)) s
clear_feature-IsSound power h n t p s = set_port_power-IsSound (some h) n false t s
clear_feature-IsSound c_connection h n t p s = set_usb_change-IsSound h _ t s
clear_feature-IsSound c_enable h n t p s = set_usb_change-IsSound h _ t s
clear_feature-IsSound c_suspend h n t p s = set_usb_change-IsSound h _ t s
clear_feature-IsSound c_over_current h n t p s = set_usb_change-IsSound h _ t s
clear_feature-IsSound c_reset h n t p s = set_usb_change-IsSound h _ t s
clear_feature-IsSound reset h n t p s = s
clear_feature-IsSound other_feature h n t p s = s

set_feature-IsSound :
    (f : Feature) (h n : ℕ) (t : Topology) → IsSound t → IsSound (set_feature f h n t).1
unfolding set_feature
set_feature-IsSound suspend h n t s =
    let usb = (t.hub h).usb in
    set_usb-IsSound h (record usb { suspended = bit_set usb.suspended n }) t
      (λ m q c. ground (arith, c)) s
set_feature-IsSound power h n t s = set_port_power-IsSound (some h) n true t s
set_feature-IsSound reset h n t s = reset_port-IsSound (some h) n t s
set_feature-IsSound enable h n t s = s
set_feature-IsSound c_connection h n t s = s
set_feature-IsSound c_enable h n t s = s
set_feature-IsSound c_suspend h n t s = s
set_feature-IsSound c_over_current h n t s = s
set_feature-IsSound c_reset h n t s = s
set_feature-IsSound other_feature h n t s = s

clear_port_feature_of-IsSound :
    (h n feature : ℕ) (t : Topology) → IsSound t → IsSound (clear_port_feature_of h n feature t).1
unfolding clear_port_feature_of
clear_port_feature_of-IsSound h n feature t s = elim (Bool-cases (port_is_valid (some h) n t)) [
  | inl e ↦ rw e (clear_feature-IsSound (feature_of_value feature) h n t (valid_bound h n t s e) s)
  | inr e ↦ rw e s
]

set_port_feature_of-IsSound :
    (h n feature : ℕ) (t : Topology) → IsSound t → IsSound (set_port_feature_of h n feature t).1
unfolding set_port_feature_of
set_port_feature_of-IsSound h n feature t s = elim (Bool-cases (port_is_valid (some h) n t)) [
  | inl e ↦ rw e (set_feature-IsSound (feature_of_value feature) h n t s)
  | inr e ↦ rw e s
]

clear_hub_feature_of-IsSound :
    (h value : ℕ) (t : Topology) → IsSound t → IsSound (clear_hub_feature_of h value t).1
unfolding clear_hub_feature_of
clear_hub_feature_of-IsSound h value t s =
    let change = (t.hub h).usb_change in
    ground (
      arith,
      set_usb_change-IsSound h (record change { over_current = bit_clear change.over_current 0 }) t
          s,
    )

respond-IsSound :
    (r : HubRequest) (h value n : ℕ) (t : Topology) → IsSound t → IsSound (respond r h value n t).2
unfolding respond
respond-IsSound clear_hub_feature h value n t s = clear_hub_feature_of-IsSound h value t s
respond-IsSound clear_port_feature h value n t s = clear_port_feature_of-IsSound h n value t s
respond-IsSound get_hub_descriptor h value n t s = s
respond-IsSound get_hub_status h value n t s = s
respond-IsSound get_port_status h value n t s = s
respond-IsSound set_hub_feature h value n t s = s
respond-IsSound set_port_feature h value n t s = set_port_feature_of-IsSound h n value t s
respond-IsSound other_request h value n t s = s

-- `virtusb_hcd_hub_control` keeps a sound topology sound, for any request.
pub hub_control-IsSound :
    (h type_req value index : ℕ) (t : Topology)
    → IsSound t
    → IsSound (hub_control h type_req value index t).2
unfolding hub_control
hub_control-IsSound h type_req value index t s =
    respond-IsSound (request_of_value type_req) h value (bit_and index 0xff) t s
