-- ===== src/Tests/Loading.antt =====
-- Loading and unloading the module at concrete inputs.
use virt_usb.Prelude.{
  ℕ, zero, suc, ◌≡◌, ◌⊎◌, ◌<◌, refl, arith, true, false, none, some, [], ◌∷◌, negsuc, success,
  is_negative, get_or, if◌then◌else◌, ◌==◌,
}
use virt_usb.Module.Driver.{Driver, platform_driver, control_class, chrdev_region, hcd_array}
use virt_usb.Module.Platform.{new_controller}
use virt_usb.Module.Frame.{Outcome}
use virt_usb.Module.Fleet.{all_parts}
use virt_usb.Module.Load.{init, tear_down, exit}
use virt_usb.Module.Balance.{IsIdle, IsLoaded, init-IsLoaded, tear_down-init, exit_total}
use virt_usb.Tests.Words.{one_object}
use virt_usb.Tests.Tools.{idle_objects, one_object_IsFiled}
use virt_usb.Tests.Bus.{connected-Reach}
use virt_usb.Bus.Life.{Reach-IsSound}

-- A kernel in which the third call of the driver's fails.
abbrev unloaded : Driver
unloaded = record {
  objects = one_object;
  answers = success ∷ success ∷ negsuc 11 ∷ [];
  held = [];
  hcds = [];
  created_count = 0;
  has_class = false;
  base_devt = 0;
  instance_count = 0;
  controllers = λ _. new_controller;
  polled = [];
}

unloaded-IsIdle : IsIdle [] unloaded
unloaded-IsIdle = (
  0,
  record {
    held = refl;
    count = refl;
    has_class = refl;
    size = refl;
    stored = λ i h. absurd (omega arith);
    up = λ i h. absurd (omega arith);
    down = λ i h. (refl, refl);
  },
)

init-IsLoaded_example : Outcome (IsLoaded [] 2) (IsIdle []) (init 2 unloaded)
init-IsLoaded_example = init-IsLoaded [] 2 unloaded unloaded-IsIdle

tear_down-init_example :
    ((is_negative (init 2 unloaded).0 ≡ true) × ((init 2 unloaded).1.held ≡ []))
    ⊎ (((init 2 unloaded).0 ≡ success)
        × ((tear_down (record (init 2 unloaded).1 { objects = one_object })).held ≡ []))
tear_down-init_example = tear_down-init 2 unloaded one_object unloaded-IsIdle

-- The module with one controller that is up.
abbrev loaded : Driver
loaded = record unloaded {
  objects = idle_objects;
  answers = [];
  held = all_parts 1 (platform_driver ∷ control_class ∷ chrdev_region ∷ hcd_array ∷ []);
  hcds = some 0 ∷ [];
  created_count = 1;
  has_class = true;
  instance_count = 1;
  controllers = λ i.
      if i == 0
      then record new_controller { bound = true; active = true; has_hcd = true; has_device = true }
      else new_controller;
}

loaded-IsLoaded : IsLoaded [] 1 loaded
loaded-IsLoaded = record {
  held = refl;
  count = refl;
  has_class = refl;
  size = refl;
  stored = λ i h. ground (arith, first i h);
  up = λ i h. (ground (arith, h), ground (arith, h));
  down = λ i h. (ground (arith, h), ground (arith, h));
}
  where
    first : (i : ℕ) → i < 1 → get_or (some 0 ∷ []) i none ≡ some i
    first zero h = refl
    first (suc i) h = absurd (omega arith)

exit_total_example :
    (d' : Driver) × (exit 1 loaded ≡ some d') × ((d'.held ≡ []) × (d'.created_count ≡ 0))
exit_total_example =
    exit_total [] 1 1 loaded loaded-IsLoaded one_object_IsFiled (Reach-IsSound connected-Reach)
      (omega arith)
