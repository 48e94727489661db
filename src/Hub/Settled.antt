-- ===== src/Hub/Settled.antt =====
-- What the USB-visible state of a hub (kernel/src/virtusb_hub.c) says of a port without a connection:
-- it is not enabled, not in reset, and has no speed.
use virt_usb.Prelude.{
  ℕ, ◌-◌, ◌≤◌, Bool, false, not, none, some, ◌==◌, ◌≡◌, ◌≢◌, inl, inr, arith, ℕ_discrete,
  if◌then◌else◌, Option-cases, sym, ap, ◌∙◌, ◌&&◌,
}
use virt_usb.Uapi.{unknown, max_hub_ports}
use virt_usb.Bits.{bit_test}
use virt_usb.Bits.Laws.{bit_test-bit_clear}
use virt_usb.Topology.{upstream, PortRef, hub_port, Port, Hub, UsbState, Topology, set_hub}
use virt_usb.Port.{is_upstream}
use virt_usb.Hub.Speed.{read_speed}
use virt_usb.Hub.Speed.Laws.{read_speed-put_speed}
use virt_usb.Hub.Defs.{
  notify_status_changed, port_is_valid, get_port, upstream_peer, port_is_connected,
  clear_port_state, set_port_speed, set_connected_change, raise_connected_change,
  mark_port_connection_change, raise_reset_change,
}

-- The hubs have at most 31 ports.
abbrev pub IsBounded : Topology → Type 0
IsBounded t = (h : ℕ) → (t.hub h).port_count ≤ max_hub_ports

-- The state of one port in the words of a hub: not enabled, not in reset, no speed.
pub record IsClear (v : UsbState) (n : ℕ) : Type 0 where
  pub not_enabled : bit_test v.enabled n ≡ false
  pub not_reset : bit_test v.reset n ≡ false
  pub no_speed : read_speed v.speed n ≡ unknown

clear_port_state-IsClear : (n : ℕ) (v : Hub) → n ≤ 31 → IsClear (clear_port_state n v).usb n
unfolding clear_port_state set_port_speed
clear_port_state-IsClear n v h = ground (
  arith,
  bit_test-bit_clear v.usb.enabled n n (omega arith) (omega arith),
  bit_test-bit_clear v.usb.reset n n (omega arith) (omega arith),
  read_speed-put_speed v.usb.speed n n unknown h h,
)

clear_port_state-IsClear_ne :
    (n m : ℕ) (v : Hub)
    → n ≤ 31
    → m ≤ 31
    → n ≢ m
    → IsClear v.usb m
    → IsClear (clear_port_state n v).usb m
unfolding clear_port_state set_port_speed
clear_port_state-IsClear_ne n m v h k ne c = ground (
  arith,
  bit_test-bit_clear v.usb.enabled n m (omega arith) (omega arith),
  bit_test-bit_clear v.usb.reset n m (omega arith) (omega arith),
  read_speed-put_speed v.usb.speed n m unknown h k,
)

-- What the tail of a change leaves alone: the ports, the port counts and the USB state.
pub record SameUsb (t t' : Topology) : Type 0 where
  pub same_port : (p : PortRef) → t'.port p ≡ t.port p
  pub same_count : (h : ℕ) → (t'.hub h).port_count ≡ (t.hub h).port_count
  pub same_usb : (h : ℕ) → (t'.hub h).usb ≡ (t.hub h).usb

raise_connected_change-SameUsb : (h n : ℕ) (t : Topology) → SameUsb t (raise_connected_change h n t)
unfolding raise_connected_change set_hub set_connected_change notify_status_changed
raise_connected_change-SameUsb h n t = record {
  same_port = λ p. ground arith;
  same_count = λ g. ground arith;
  same_usb = λ g. ground arith;
}

pub raise_reset_change-SameUsb : (h n : ℕ) (t : Topology) → SameUsb t (raise_reset_change h n t)
unfolding raise_reset_change set_hub notify_status_changed
raise_reset_change-SameUsb h n t = record {
  same_port = λ p. ground arith;
  same_count = λ g. ground arith;
  same_usb = λ g. ground arith;
}

-- A link carries a connection: power from above, signaling from below.
unfoldable pub link_connected : PortRef → Topology → Bool
link_connected p t = elim (t.port p).peer [
  | none ↦ false
  | some q ↦ is_upstream (t.port q).role && (t.port p).state_first && (t.port q).state_first
]

pub connected-link :
    (h n : ℕ) (t : Topology)
    → 1 ≤ n
    → n ≤ (t.hub h).port_count
    → port_is_connected (some h) n t ≡ link_connected (hub_port h (n - 1)) t
unfolding port_is_connected get_port port_is_valid upstream_peer link_connected
connected-link h n t p q = ground arith

pub link_connected-eq :
    (t t' : Topology) (p : PortRef)
    → (t'.port p).peer ≡ (t.port p).peer
    → (t'.port p).state_first ≡ (t.port p).state_first
    → ((q : PortRef)
        → (t.port p).peer ≡ some q
        → ((t'.port q).role ≡ (t.port q).role)
          × ((t.port q).role ≡ upstream → (t'.port q).state_first ≡ (t.port q).state_first))
    → link_connected p t' ≡ link_connected p t
unfolding link_connected
link_connected-eq t t' p e f g = elim (Option-cases (t.port p).peer) [
  | inl none_there ↦ ground arith
  | inr (q, there) ↦ ground (arith, g q there)
]

-- A port that carries no connection is clear.
abbrev pub IsSettled : Topology → ℕ → ℕ → Type 0
IsSettled t h n =
    1 ≤ n
    → n ≤ (t.hub h).port_count
    → link_connected (hub_port h (n - 1)) t ≡ false
    → IsClear (t.hub h).usb n

-- Ports read alike in two topologies carry the same connections.
pub link_connected_same :
    (t t' : Topology) (p : PortRef)
    → ((q : PortRef) → t'.port q ≡ t.port q)
    → link_connected p t' ≡ link_connected p t
link_connected_same t t' p e =
    link_connected-eq t t' p (ap (λ (v : Port). v.peer) (e p))
      (ap (λ (v : Port). v.state_first) (e p))
      (λ r _. (ap (λ (v : Port). v.role) (e r), λ _. ap (λ (v : Port). v.state_first) (e r)))

-- What `virtusb_hub_mark_port_connection_change` does to the ports, the port counts and the USB state.
pub record Marked (h n : ℕ) (t t' : Topology) : Type 0 where
  pub same_port : (p : PortRef) → t'.port p ≡ t.port p
  pub same_count : (g : ℕ) → (t'.hub g).port_count ≡ (t.hub g).port_count
  pub new_usb :
      (g : ℕ)
      → (t'.hub g).usb ≡ (
          if g == h && not (link_connected (hub_port h (n - 1)) t)
          then (clear_port_state n (t.hub h)).usb
          else (t.hub g).usb)

pub mark-Marked :
    (h n : ℕ) (t : Topology)
    → 1 ≤ n
    → n ≤ (t.hub h).port_count
    → Marked h n t (mark_port_connection_change (some h) n t)
unfolding mark_port_connection_change port_is_valid set_hub clear_port_state set_port_speed
mark-Marked h n t p q =
    let cleared = set_hub h (clear_port_state n (t.hub h)) t in
    let link = connected-link h n t p q in
    let a = raise_connected_change-SameUsb h n t in
    let b = raise_connected_change-SameUsb h n cleared in
    record {
      same_port = λ r. ground (arith, link, a.same_port r, b.same_port r);
      same_count = λ g. ground (arith, link, a.same_count g, b.same_count g);
      new_usb = λ g. ground (arith, link, a.same_usb g, b.same_usb g);
    }

-- After it its port is settled, and so is each other port that was.
pub mark-IsSettled :
    (h n g m : ℕ) (t : Topology)
    → IsBounded t
    → 1 ≤ n
    → n ≤ (t.hub h).port_count
    → ((g ≡ h → m ≡ n → ⊥) → IsSettled t g m)
    → IsSettled (mark_port_connection_change (some h) n t) g m
mark-IsSettled h n g m t b p q s i j c =
    let marked = mark-Marked h n t p q in
    let count = marked.same_count g in
    let usb = marked.new_usb g in
    let link =
      link_connected_same t (mark_port_connection_change (some h) n t) (hub_port g (m - 1))
        marked.same_port in
    let bound = b h in
    elim (ℕ_discrete g h) [
      | no ne ↦ ground (arith, usb, s (λ e _. ne e) i (omega arith) (sym link ∙ c))
      | yes e ↦ elim (ℕ_discrete m n) [
        | yes e' ↦ ground (arith, usb, link, clear_port_state-IsClear n (t.hub h) (omega arith))
        | no ne ↦
            let old = s (λ _ e'. ne e') i (omega arith) (sym link ∙ c) in
            ground (
              arith,
              usb,
              clear_port_state-IsClear_ne n m (t.hub h) (omega arith) (omega arith)
                  (λ e'. ne (sym e')) (ground (arith, old)),
            )
      ]
    ]
