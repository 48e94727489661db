-- ===== src/Module/Removal.antt =====
-- The removal of a controller, and its creation on every path.
use virt_usb.Prelude.{
  ℕ, ◌≡◌, refl, Bool, true, false, not, ◌||◌, List, ◌∷◌, inl, inr, ◌⊎◌, if◌then◌else◌, ◌==◌, ltb, ℤ,
  pos, negsuc, is_negative, enomem,
}
use virt_usb.Module.Driver.{
  Resource, platform_device, usb_hcd, added_hcd, control_cdev, control_device, Driver, next_answer,
  asked,
}
use virt_usb.Module.Instance.{instance_destroy}
use virt_usb.Module.Platform.{
  stop_backend, remove, unregister_device, check_bound, add_device, add_data, create,
}
use virt_usb.Module.Frame.{Outcome, done, refused, and_then, acquired}
use virt_usb.Module.Made.{
  Made, made_acquired, made_missed, made_set, made_topology, made_asked, made_release,
}
use virt_usb.Module.Built.{Bound, Unbound, unbound, probe_made, probed, if_outcome}

-- What a controller holds with its platform device, on top of `xs`.
abbrev pub parts : ℕ → List Resource → List Resource
parts i xs = control_device i ∷ control_cdev i ∷ added_hcd i ∷ usb_hcd i ∷ platform_device i ∷ xs

pub if_not :
    {A : Type 0} (P : A → Type 0) (c : Bool) (x y : A) → c ≡ true → P y → P (if not c then x else y)
if_not P c x y e h = rw e h

pub if_down :
    {A : Type 0} (P : A → Type 0) (c : Bool) (x y : A)
    → c ≡ false
    → P x
    → P (if not c then x else y)
if_down P c x y e h = rw e h

module _ (i : ℕ) (d₀ : Driver) where
  destroyed :
      {xs : List Resource} {b : Bool} {d : Driver}
      → Made i (control_device i ∷ control_cdev i ∷ xs) b true d₀ d
      → Made i xs b false d₀ (instance_destroy i d)
  unfolding instance_destroy
  destroyed {xs = xs} {b = b} {d = d} m =
      let freed = made_release (control_cdev i) (made_release (control_device i) m) in
      if_not (λ e. Made i xs b false d₀ e) (d.controllers i).active _ _ m.is_active
        (made_set _ freed m.is_bound refl)

  removed : {xs : List Resource} {d : Driver} → Bound i d₀ xs d → Unbound i d₀ xs (remove i d)
  unfolding remove stop_backend
  removed {xs = xs} {d = d} m =
      let down = made_topology _ (destroyed m) in
      if_not (λ e. Unbound i d₀ xs e) (d.controllers i).bound _ _ m.is_bound
        (unbound i d₀ (made_release (added_hcd i) (made_set _ down down.is_bound down.is_active)))

  not_bound : {xs : List Resource} {d : Driver} → Unbound i d₀ xs d → Unbound i d₀ xs (remove i d)
  unfolding remove
  not_bound {xs = xs} {d = d} m =
      if_down (λ e. Unbound i d₀ xs e) (d.controllers i).bound _ _ m.is_bound m

  -- Unregistering the platform device gives back what the controller holds.
  pub unregistered :
      {xs : List Resource} {d : Driver}
      → Bound i d₀ (platform_device i ∷ xs) d
      → Unbound i d₀ xs (unregister_device i d)
  unfolding unregister_device
  unregistered m = made_release (platform_device i) (removed m)

  checked :
      {xs : List Resource} {d : Driver}
      → Bound i d₀ (platform_device i ∷ xs) d ⊎ Unbound i d₀ (platform_device i ∷ xs) d
      → Outcome (Bound i d₀ (platform_device i ∷ xs)) (Unbound i d₀ xs) (check_bound i d)
  unfolding check_bound unregister_device
  checked {xs = xs} {d = d} (inl m) =
      if_not (λ x. Outcome (Bound i d₀ (platform_device i ∷ xs)) (Unbound i d₀ xs) x)
        (d.controllers i).bound _ _ m.is_bound (done _ m)
  checked {xs = xs} {d = d} (inr m) =
      if_down (λ x. Outcome (Bound i d₀ (platform_device i ∷ xs)) (Unbound i d₀ xs) x)
        (d.controllers i).bound _ _ m.is_bound
        (refused 18 _ (made_release (platform_device i) (not_bound m)))

  either_way :
      {xs : List Resource} (c : Bool) (x y : Driver)
      → Bound i d₀ xs x ⊎ Unbound i d₀ xs x
      → Bound i d₀ xs y ⊎ Unbound i d₀ xs y
      → Bound i d₀ xs (if c then x else y) ⊎ Unbound i d₀ xs (if c then x else y)
  either_way true x y p q = p
  either_way false x y p q = q

  -- A call that is asked for its result only.
  asked_outcome :
      {G B : Driver → Type 0} (ret : ℤ) (x : Driver) (y : ℤ × Driver)
      → B x
      → Outcome G B y
      → Outcome G B (if is_negative ret then (ret, x) else y)
  asked_outcome (pos n) x y p q = q
  asked_outcome (negsuc n) x y p q = refused n x p

  add_device_made :
      {xs : List Resource} {d : Driver} (count : ℕ)
      → Unbound i d₀ (platform_device i ∷ xs) d
      → Outcome (Bound i d₀ (platform_device i ∷ xs)) (Unbound i d₀ xs) (add_device i count d)
  unfolding add_device
  add_device_made {d = d} count m =
      let registered = made_asked m in
      asked_outcome (next_answer d.answers) _ _ (made_release (platform_device i) registered) (
        checked (
          either_way (is_negative (next_answer (asked d).answers)) _ _ (inr (made_asked registered))
            (probed i d₀ (probe_made i d₀ count (made_asked registered)))))

  add_data_made :
      {xs : List Resource} {d : Driver} (count : ℕ)
      → Unbound i d₀ (platform_device i ∷ xs) d
      → Outcome (Bound i d₀ (platform_device i ∷ xs)) (Unbound i d₀ xs) (add_data i count d)
  unfolding add_data
  add_data_made {d = d} count m =
      asked_outcome (next_answer d.answers) _ _ (made_release (platform_device i) (made_asked m))
        (add_device_made count (made_asked m))

  -- A controller is created whole, or nothing of it is left.
  pub created :
      {xs : List Resource} {d : Driver} (count : ℕ)
      → Unbound i d₀ xs d
      → Outcome (Bound i d₀ (platform_device i ∷ xs)) (Unbound i d₀ xs) (create i count d)
  unfolding create
  created {xs = xs} {d = d} count m = if_outcome (count == 0 || ltb 31 count) _ _ (refused 21 _ m) (
      and_then (acquired (platform_device i) i d)
        (Outcome (Bound i d₀ (platform_device i ∷ xs)) (Unbound i d₀ xs)) (λ ret e. (enomem, e))
        (λ e. add_data i count e) (λ n e l. refused 11 _ (made_missed m l))
        (λ e l. add_data_made count (made_acquired m l)))
