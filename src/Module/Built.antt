-- ===== src/Module/Built.antt =====
-- What the steps of a controller's set-up make, on every path through them.
use virt_usb.Prelude.{
  ℕ, refl, Bool, true, false, not, ◌||◌, some, List, ◌∷◌, inl, inr, ◌⊎◌, if◌then◌else◌, ◌==◌, leb,
  ltb, ℤ, pos, negsuc, is_negative, success, enomem,
}
use virt_usb.Topology.{Topology}
use virt_usb.Hub.Setup.{root_hub_init}
use virt_usb.Module.Driver.{
  Resource, usb_hcd, added_hcd, control_cdev, control_device, Driver, release, set_controller,
}
use virt_usb.Module.Instance.{
  clear_control, start_control, activate, add_file, add_control, instance_create,
}
use virt_usb.Module.Platform.{
  new_controller, set_topology, set_bound, clear_drvdata, install_callback, add_instance, init_hcd,
  add_hcd, probe,
}
use virt_usb.Module.Frame.{Outcome, done, refused, and_then, acquired}
use virt_usb.Module.Made.{
  Made, made_acquired, made_missed, made_set, made_topology, made_polled, made_release,
}

-- A controller whose control device is up, and one that is down, after steps from `d`.
abbrev pub Up : ℕ → Bool → List Resource → Driver → Driver → Type 0
Up i b xs d = Made i (control_device i ∷ control_cdev i ∷ xs) b true d

pub if_outcome :
    {G B : Driver → Type 0} (c : Bool) (x y : ℤ × Driver)
    → Outcome G B x
    → Outcome G B y
    → Outcome G B (if c then x else y)
if_outcome true x y p q = p
if_outcome false x y p q = q

module _ (i : ℕ) (b : Bool) (d₀ : Driver) where
  cleared :
      {xs : List Resource} {d : Driver}
      → Made i xs b false d₀ d
      → Made i xs b false d₀ (clear_control i d)
  unfolding clear_control
  cleared m = made_set _ m m.is_bound m.is_active

  started :
      {xs : List Resource} {a : Bool} {d : Driver}
      → Made i xs b a d₀ d
      → Made i xs b false d₀ (start_control i d)
  unfolding start_control
  started m = made_set _ m m.is_bound refl

  activated :
      {xs : List Resource} {a : Bool} {d : Driver}
      → Made i xs b a d₀ d
      → Made i xs b true d₀ (activate i d)
  unfolding activate
  activated m = made_set _ m m.is_bound refl

  add_file_made :
      {xs : List Resource} {d : Driver}
      → Made i (control_cdev i ∷ xs) b false d₀ d
      → Outcome (Up i b xs d₀) (Made i xs b false d₀) (add_file i d)
  unfolding add_file
  add_file_made {xs = xs} {d = d} m =
      and_then (acquired (control_device i) i d) (Outcome (Up i b xs d₀) (Made i xs b false d₀))
        (λ ret e. (ret, clear_control i (release (control_cdev i) e)))
        (λ e. (success, activate i e))
        (λ n e l. refused n _ (cleared (made_release (control_cdev i) (made_missed m l))))
        (λ e l. done _ (activated (made_acquired m l)))

  add_control_made :
      {xs : List Resource} {a : Bool} {d : Driver}
      → Made i xs b a d₀ d
      → Outcome (Up i b xs d₀) (Made i xs b false d₀) (add_control i d)
  unfolding add_control
  add_control_made {xs = xs} {d = d} m =
      and_then (acquired (control_cdev i) i (start_control i d))
        (Outcome (Up i b xs d₀) (Made i xs b false d₀)) (λ ret e. (ret, clear_control i e))
        (λ e. add_file i e) (λ n e l. refused n _ (cleared (made_missed (started m) l)))
        (λ e l. add_file_made (made_acquired (started m) l))

  instance_create_made :
      {xs : List Resource} {d : Driver}
      → Made i xs b false d₀ d
      → Outcome (Up i b xs d₀) (Made i xs b false d₀) (instance_create true i d)
  unfolding instance_create
  instance_create_made {xs = xs} {d = d} m =
      if_outcome (not d.has_class) _ _ (refused 18 _ m)
        (if_outcome (leb d.instance_count i) _ _ (refused 21 _ m) (add_control_made m))

-- What a controller holds when it is up, and what it does not when it is down.
module _ (i : ℕ) (d₀ : Driver) where
  -- The controller's part, on top of `xs`.
  abbrev pub Bound : List Resource → Driver → Type 0
  Bound xs = Up i true (added_hcd i ∷ usb_hcd i ∷ xs) d₀

  abbrev pub Unbound : List Resource → Driver → Type 0
  Unbound xs = Made i xs false false d₀

  pub unbound :
      {xs : List Resource} {b : Bool} {d : Driver}
      → Made i (usb_hcd i ∷ xs) b false d₀ d
      → Unbound xs (clear_drvdata i d)
  unfolding clear_drvdata set_bound
  unbound m = made_release (usb_hcd i) (made_set _ m refl m.is_active)

  called_back :
      {xs : List Resource} {b a : Bool} {d : Driver}
      → Made i xs b a d₀ d
      → Made i xs b a d₀ (install_callback i d)
  unfolding install_callback
  called_back m = made_polled _ (made_topology _ m)

  add_instance_made :
      {xs : List Resource} {d : Driver}
      → Made i (added_hcd i ∷ usb_hcd i ∷ xs) true false d₀ d
      → Outcome (Bound xs) (Unbound xs) (add_instance i d)
  unfolding add_instance
  add_instance_made {xs = xs} {d = d} m =
      and_then (instance_create_made i true d₀ (called_back m)) (Outcome (Bound xs) (Unbound xs))
        (λ ret e. (ret, clear_drvdata i (release (added_hcd i) e))) (λ e. (success, e))
        (λ n e l. refused n _ (unbound (made_release (added_hcd i) l))) (λ e l. done _ l)

  add_hcd_made :
      {xs : List Resource} {d : Driver}
      → Made i (usb_hcd i ∷ xs) true false d₀ d
      → Outcome (Bound xs) (Unbound xs) (add_hcd i d)
  unfolding add_hcd
  add_hcd_made {xs = xs} {d = d} m =
      and_then (acquired (added_hcd i) i d) (Outcome (Bound xs) (Unbound xs))
        (λ ret e. (ret, clear_drvdata i e)) (λ e. add_instance i e)
        (λ n e l. refused n _ (unbound (made_missed m l)))
        (λ e l. add_instance_made (made_acquired m l))

  init_hcd_made :
      {xs : List Resource} {b a : Bool} {d : Driver} (count : ℕ)
      → Made i (usb_hcd i ∷ xs) b a d₀ d
      → Outcome (Bound xs) (Unbound xs) (init_hcd i count d)
  unfolding init_hcd set_bound
  init_hcd_made {xs = xs} {d = d} count m =
      by_result (root_hub_init (some i) count d.objects.topology)
    where
      by_result :
          (r : ℤ × Topology)
          → Outcome (Bound xs) (Unbound xs) (
              if is_negative r.0
              then (r.0, release (usb_hcd i) (set_topology r.1 (set_controller i new_controller d)))
              else add_hcd i
                  (set_bound i true (set_topology r.1 (set_controller i new_controller d))))
      by_result (pos n, t) =
          let fresh = made_topology t (made_set new_controller m refl refl) in
          add_hcd_made (made_set _ fresh refl fresh.is_active)
      by_result (negsuc n, t) =
          refused n _
            (made_release (usb_hcd i) (made_topology t (made_set new_controller m refl refl)))

  pub probe_made :
      {xs : List Resource} {d : Driver} (count : ℕ)
      → Unbound xs d
      → Outcome (Bound xs) (Unbound xs) (probe i (some count) d)
  unfolding probe
  probe_made {xs = xs} {d = d} count m =
      if_outcome (count == 0 || ltb 31 count) _ _ (refused 21 _ m) (
        and_then (acquired (usb_hcd i) i d) (Outcome (Bound xs) (Unbound xs)) (λ ret e. (enomem, e))
          (λ e. init_hcd i count e) (λ n e l. refused 11 _ (made_missed m l))
          (λ e l. init_hcd_made count (made_acquired m l)))

  -- What a probe leaves, whatever it returns.
  pub probed : {G B : Driver → Type 0} {x : ℤ × Driver} → Outcome G B x → G x.1 ⊎ B x.1
  probed (done e h) = inl h
  probed (refused n e h) = inr h
