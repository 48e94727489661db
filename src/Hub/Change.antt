-- ===== src/Hub/Change.antt =====
-- Changes of ports under a hub (kernel/src/virtusb_hub.c, kernel/src/virtusb_device.c): what a
-- sound topology is, and the change of one port with its report.
use virt_usb.Prelude.{
  ℕ, ◌-◌, ◌≤◌, ◌<◌, Bool, false, none, some, differ, ◌≡◌, ◌≢◌, ◌⊎◌, inl, inr, sym, ◌∙◌, arith,
  ℕ_discrete, if◌then◌else◌, Bool-cases,
}
use virt_usb.Topology.{
  hub_port, device_port, hub_owner, device_owner, invalid, upstream, downstream, Topology,
}
use virt_usb.Port
use virt_usb.Port.{is_upstream, is_downstream}
use virt_usb.Port.Laws.{IsLinked}
use virt_usb.Hub.Defs.{port_is_connected, mark_port_connection_change}
use virt_usb.Hub.Settled.{
  IsBounded, link_connected, connected-link, link_connected-eq, IsSettled, mark-IsSettled,
}

-- The port graph as the code builds it.
pub record IsWellFormed (t : Topology) : Type 0 where
  pub links : IsLinked t
  pub bounded : (h : ℕ) → (t.hub h).port_count ≤ 31
  pub hub_ports :
      (h i : ℕ)
      → i < (t.hub h).port_count
      → ((t.port (hub_port h i)).role ≡ downstream)
        × ((t.port (hub_port h i)).owner ≡ some (hub_owner h))
  pub spare_ports : (h i : ℕ) → (t.hub h).port_count ≤ i → (t.port (hub_port h i)).peer ≡ none
  pub device_ports :
      (d : ℕ)
      → (((t.port (device_port d)).role ≡ upstream)
          × ((t.port (device_port d)).owner ≡ some (device_owner d)))
        ⊎ (((t.port (device_port d)).role ≡ invalid) × ((t.port (device_port d)).peer ≡ none))

-- Ports without a connection are clear, on every hub.
pub record IsSound (t : Topology) : Type 0 where
  pub well_formed : IsWellFormed t
  pub settled : (h n : ℕ) → IsSettled t h n

-- Two hubs alike in a port's link and in their words are settled alike there.
pub carried-IsSettled :
    (g m : ℕ) (t t' : Topology)
    → t'.hub g ≡ t.hub g
    → (1 ≤ m
        → m ≤ (t.hub g).port_count
        → link_connected (hub_port g (m - 1)) t' ≡ link_connected (hub_port g (m - 1)) t)
    → IsSettled t g m
    → IsSettled t' g m
carried-IsSettled g m t t' e f s i j c =
    let j' : m ≤ (t.hub g).port_count = ground (arith, e, j) in
    ground (arith, e, s i j' (sym (f i j') ∙ c))

-- The change of one port's connection, reported as the code does it.
pub report-IsSettled :
    (h n : ℕ) (t t' : Topology)
    → IsBounded t
    → 1 ≤ n
    → n ≤ (t.hub h).port_count
    → ((g : ℕ) → t'.hub g ≡ t.hub g)
    → ((g m : ℕ)
        → (g ≡ h → m ≡ n → ⊥)
        → 1 ≤ m
        → m ≤ (t.hub g).port_count
        → link_connected (hub_port g (m - 1)) t' ≡ link_connected (hub_port g (m - 1)) t)
    → ((g m : ℕ) → IsSettled t g m)
    → (g m : ℕ)
    → IsSettled
        (if differ (port_is_connected (some h) n t) (port_is_connected (some h) n t')
          then mark_port_connection_change (some h) n t'
          else t')
        g
        m
report-IsSettled h n t t' b p q same others s g m =
    elim (Bool-cases (differ (port_is_connected (some h) n t) (port_is_connected (some h) n t'))) [
      | inl e ↦ rw e (
          mark-IsSettled h n g m t' (λ k. ground (arith, same k, b k)) p (ground (arith, same h, q))
            (λ ne. carried-IsSettled g m t t' (same g) (others g m ne) (s g m)))
      | inr e ↦ rw e (carried-IsSettled g m t t' (same g) (same_links e) (s g m))
    ]
  where
    same_links :
        differ (port_is_connected (some h) n t) (port_is_connected (some h) n t') ≡ false
        → 1 ≤ m
        → m ≤ (t.hub g).port_count
        → link_connected (hub_port g (m - 1)) t' ≡ link_connected (hub_port g (m - 1)) t
    same_links e i j = elim (ℕ_discrete g h) [
      | no ne ↦ others g m (λ e' _. ne e') i j
      | yes eg ↦ elim (ℕ_discrete m n) [
        | no ne ↦ others g m (λ _ e'. ne e') i j
        | yes em ↦ ground (
          arith,
          e,
          eg,
          em,
          connected-link h n t p q,
          connected-link h n t' p (ground (arith, same h, q)),
        )
      ]
    ]

hub_port_injective : (g h i j : ℕ) → hub_port g i ≡ hub_port h j → (g ≡ h) × (i ≡ j)
hub_port_injective g h i j e = ground arith

-- What a change of one port's power leaves alone.
pub set_powered-others :
    (h n : ℕ) (powered : Bool) (t : Topology) (g m : ℕ)
    → 1 ≤ n
    → 1 ≤ m
    → (g ≡ h → m ≡ n → ⊥)
    → link_connected (hub_port g (m - 1)) (Port.set_powered (some (hub_port h (n - 1))) powered t).1
      ≡ link_connected (hub_port g (m - 1)) t
unfolding Port.set_powered
set_powered-others h n powered t g m i j ne =
    link_connected-eq t (Port.set_powered (some (hub_port h (n - 1))) powered t).1
      (hub_port g (m - 1)) (ground arith) (ground (arith, different))
      (λ q e. (ground arith, λ up. ground arith))
  where
    different : hub_port g (m - 1) ≢ hub_port h (n - 1)
    different e =
        let (hubs, indices) = hub_port_injective g h (m - 1) (n - 1) e in ne hubs (omega arith)
