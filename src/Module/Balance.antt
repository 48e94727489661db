-- ===== src/Module/Balance.antt =====
-- Loading and unloading the module: whatever fails, what was taken is given back.
use virt_usb.Prelude.{
  ℕ, ◌≡◌, ◌<◌, arith, refl, sym, subst, Bool, true, false, ◌||◌, none, some, List, ◌∷◌, inl, inr,
  ◌⊎◌, ◌==◌, ltb, ℤ, is_negative, success, enomem, length, replicate, length-replicate,
}
use virt_usb.Object.Store.{Objects}
use virt_usb.Object.Manager
use virt_usb.Device.Shutdown.{shutdown_all_total}
use virt_usb.Object.Filing.{IsFiled}
use virt_usb.Hub.Change.{IsSound}
use virt_usb.Module.Driver.{
  Resource, hcd_array, chrdev_region, control_class, platform_driver, Driver,
}
use virt_usb.Module.Instance.{control_unregister}
use virt_usb.Module.Platform.{driver_register, driver_unregister}
use virt_usb.Module.Load.{
  destroy_hcds, exit_objects, free_hcds, start_hcds, start_driver, start_control, init, tear_down,
  exit,
}
use virt_usb.Module.Frame.{Outcome, done, refused, and_then, acquired}
use virt_usb.Module.Built.{if_outcome}
use virt_usb.Module.Fleet.{Fleet, fleet_left, fleet_missed, fleet_release}
use virt_usb.Module.Loops.{create_hcds_fleet, destroy_hcds_fleet}
use virt_usb.Module.Classes.{idle_objects, freed, unregistered, control_registered}

-- The module when it is not loaded, with `xs` held besides.
abbrev pub IsIdle : List Resource → Driver → Type 0
IsIdle xs d = (total : ℕ) × Fleet xs false 0 total d

-- What the module holds while it is loaded with `count` controllers.
abbrev base : List Resource → List Resource
base xs = platform_driver ∷ control_class ∷ chrdev_region ∷ hcd_array ∷ xs

abbrev pub IsLoaded : List Resource → ℕ → Driver → Type 0
IsLoaded xs count d = Fleet (base xs) true count count d

module _ (xs : List Resource) where
  torn_down :
      (total k : ℕ) (e : Driver) → Fleet (base xs) true k total e → Fleet xs false 0 0 (tear_down e)
  unfolding tear_down driver_unregister
  torn_down total k e f = freed xs (
      unregistered (hcd_array ∷ xs) (
        fleet_release (control_class ∷ chrdev_region ∷ hcd_array ∷ xs) true total platform_driver
          (destroy_hcds e.created_count e)
          (destroy_hcds_fleet (base xs) true total e.created_count e
            (subst (λ n. Fleet (base xs) true n total e) (sym f.count) f))))

  hcds_started :
      {d : Driver} (count : ℕ)
      → Fleet (base xs) true 0 count d
      → Outcome (IsLoaded xs count) (IsIdle xs) (start_hcds count d)
  unfolding start_hcds tear_down
  hcds_started {d = d} count f =
      and_then (create_hcds_fleet (base xs) true count count 0 d f (omega arith))
        (Outcome (IsLoaded xs count) (IsIdle xs)) (λ ret e. (ret, tear_down e)) (λ e. (success, e))
        (λ n e partly. refused n _ (0, torn_down count partly.0 e partly.1)) (λ e l. done _ l)

  driver_started :
      {d : Driver} (count : ℕ)
      → Fleet (control_class ∷ chrdev_region ∷ hcd_array ∷ xs) true 0 count d
      → Outcome (IsLoaded xs count) (IsIdle xs) (start_driver count d)
  unfolding start_driver driver_register
  driver_started {d = d} count f =
      let below = control_class ∷ chrdev_region ∷ hcd_array ∷ xs in
      and_then (acquired platform_driver 0 d) (Outcome (IsLoaded xs count) (IsIdle xs))
        (λ ret e. (ret, free_hcds (control_unregister e))) (λ e. start_hcds count e)
        (λ n e l.
          refused n _
            (0, freed xs (unregistered (hcd_array ∷ xs) (fleet_missed below true count d e f l))))
        (λ e l. hcds_started count (fleet_left below true count platform_driver d e f l))

  control_started :
      {d : Driver} (count : ℕ)
      → Fleet (hcd_array ∷ xs) false 0 count d
      → Outcome (IsLoaded xs count) (IsIdle xs) (start_control count d)
  unfolding start_control
  control_started {d = d} count f =
      and_then (control_registered (hcd_array ∷ xs) count f)
        (Outcome (IsLoaded xs count) (IsIdle xs)) (λ ret e. (ret, free_hcds e))
        (λ e. start_driver count e) (λ n e l. refused n _ (0, freed xs l))
        (λ e l. driver_started count l)

  -- A new array of the size of the parameter.
  arrayed :
      {c : Bool} {total : ℕ} {d : Driver} (count : ℕ)
      → Fleet xs c 0 total d
      → Fleet xs c 0 count (record d { hcds = replicate count none })
  arrayed count f = record {
    held = f.held;
    count = f.count;
    has_class = f.has_class;
    size = length-replicate count none;
    stored = λ i q. absurd (omega arith);
    up = f.up;
    down = f.down;
  }

  initialised :
      {total : ℕ} {d : Driver} (count : ℕ)
      → Fleet xs false 0 total d
      → Fleet xs false 0 total (record d { objects = Manager.init d.objects })
  initialised count f = record {
    held = f.held;
    count = f.count;
    has_class = f.has_class;
    size = f.size;
    stored = f.stored;
    up = f.up;
    down = f.down;
  }

-- From an unloaded module, for any parameter and any results of the calls of the kernel, the
-- initialisation returns 0 with all controllers bound and their control devices active, with the
-- class there and with each resource held once on top of the former ones; or it returns an error
-- with the module unloaded and the former resources held.
pub init-IsLoaded :
    (xs : List Resource) (count : ℕ) (d : Driver)
    → IsIdle xs d
    → Outcome (IsLoaded xs count) (IsIdle xs) (init count d)
unfolding init
init-IsLoaded xs count d (total, f) =
    if_outcome (count == 0 || ltb 31 count) _ _ (refused 21 _ (total, f)) (
      and_then (acquired hcd_array 0 (record d { objects = Manager.init d.objects }))
        (Outcome (IsLoaded xs count) (IsIdle xs)) (λ ret e. (enomem, exit_objects e))
        (λ e. start_control count (record e { hcds = replicate count none }))
        (λ n e l.
          refused 11 _
            (total, idle_objects xs (fleet_missed xs false total _ e (initialised xs count f) l)))
        (λ e l. control_started xs count (
          arrayed (hcd_array ∷ xs) count
            (fleet_left xs false total hcd_array _ e (initialised xs count f) l))))

-- From an unloaded module, for any parameter and any results of the calls of the kernel: the
-- initialisation returns an error and the module holds what it held before, or it returns 0, and
-- the part of the exit after the shutdown of the devices, with any objects, leaves the module
-- holding what it held before the initialisation.
pub tear_down-init :
    (count : ℕ) (d : Driver) (s : Objects)
    → IsIdle d.held d
    → ((is_negative (init count d).0 ≡ true) × ((init count d).1.held ≡ d.held))
      ⊎ (((init count d).0 ≡ success)
          × ((tear_down (record (init count d).1 { objects = s })).held ≡ d.held))
tear_down-init count d s idle = by_outcome (init-IsLoaded d.held count d idle)
  where
    by_outcome :
        {x : ℤ × Driver}
        → Outcome (IsLoaded d.held count) (IsIdle d.held) x
        → ((is_negative x.0 ≡ true) × (x.1.held ≡ d.held))
          ⊎ ((x.0 ≡ success) × ((tear_down (record x.1 { objects = s })).held ≡ d.held))
    by_outcome (refused n e (total, f)) = inl (refl, f.held)
    by_outcome (done e f) = inr (refl, (torn_down d.held count count _ (with_objects f)).held)
      where
        with_objects :
            Fleet (base d.held) true count count e
            → Fleet (base d.held) true count count (record e { objects = s })
        with_objects f = record {
          held = f.held;
          count = f.count;
          has_class = f.has_class;
          size = f.size;
          stored = f.stored;
          up = f.up;
          down = f.down;
        }

-- If the module is loaded, its registry is filed and its port graph is sound, then the exit
-- returns with any fuel above the number of registered objects, and after it the module holds
-- only what it held besides, and has no controller.
pub exit_total :
    (xs : List Resource) (count fuel : ℕ) (d : Driver)
    → IsLoaded xs count d
    → IsFiled d.objects
    → IsSound d.objects.topology
    → length d.objects.registry < fuel
    → (d' : Driver) × (exit fuel d ≡ some d') × ((d'.held ≡ xs) × (d'.created_count ≡ 0))
unfolding exit
exit_total xs count fuel d f filed sound h =
    let (s, ends, sound_after, none_left) = shutdown_all_total fuel d.objects filed sound h in
    let down = torn_down xs count count (record d { objects = s }) (with_objects s) in
    (tear_down (record d { objects = s }), ground (arith, ends), (down.held, down.count))
  where
    with_objects : (s : Objects) → Fleet (base xs) true count count (record d { objects = s })
    with_objects s = record {
      held = f.held;
      count = f.count;
      has_class = f.has_class;
      size = f.size;
      stored = f.stored;
      up = f.up;
      down = f.down;
    }
