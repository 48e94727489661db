-- ===== src/Module/Driver.antt =====
-- The state that kernel/src/virtusb_module.c, the driver of kernel/src/virtusb_hcd.c and the set-up of
-- kernel/src/virtusb_control.c keep, and what they hold of the kernel.
use virt_usb.Prelude.{
  ℕ, Bool, true, false, Option, List, [], ◌∷◌, ◌==◌, if◌then◌else◌, is_negative, ℤ, success,
}
use virt_usb.Object.Store.{Objects}

-- What the kernel gives and gets back: the array of the platform devices, the character devices'
-- numbers, the class, the driver, and for each controller its platform device, its `struct usb_hcd`, the
-- addition of that to the USB core, its cdev and its device file.
pub data Resource : Type 0 where
  hcd_array chrdev_region control_class platform_driver : Resource
  platform_device usb_hcd added_hcd control_cdev control_device : ℕ → Resource

abbrev pub same : Resource → Resource → Bool
same hcd_array hcd_array = true
same chrdev_region chrdev_region = true
same control_class control_class = true
same platform_driver platform_driver = true
same (platform_device i) (platform_device j) = i == j
same (usb_hcd i) (usb_hcd j) = i == j
same (added_hcd i) (added_hcd j) = i == j
same (control_cdev i) (control_cdev j) = i == j
same (control_device i) (control_device j) = i == j
same _ _ = false

-- What a controller has: `bound` is whether its platform device has driver data, `stopping` the member
-- of its backend, and the others are the members of its `struct virtusb_control`.
pub record Instance : Type 0 where
  pub bound : Bool
  pub stopping : Bool
  pub active : Bool
  pub has_hcd : Bool
  pub has_device : Bool
  pub devt : ℕ

-- `held` is what the module holds, the latest first. `answers` has the results of the kernel's calls to
-- come: a negative number is an error, or NULL where the call yields a pointer, and the calls after the
-- last of them succeed. `polled` are the calls of `usb_hcd_poll_rh_status`. The hub of a controller is
-- numbered as the controller.
pub record Driver : Type 0 where
  pub objects : Objects
  pub answers : List ℤ
  pub held : List Resource
  pub hcds : List (Option ℕ)
  pub created_count : ℕ
  pub has_class : Bool
  pub base_devt : ℕ
  pub instance_count : ℕ
  pub controllers : ℕ → Instance
  pub polled : List ℕ

abbrev pub next_answer : List ℤ → ℤ
next_answer [] = success
next_answer (ret ∷ rets) = ret

abbrev pub later : List ℤ → List ℤ
later [] = []
later (ret ∷ rets) = rets

-- A call that answers a number.
abbrev pub asked : Driver → Driver
asked d = record d { answers = later d.answers }

-- A call that gives `r` when it succeeds.
unfoldable pub acquire : Resource → Driver → ℤ × Driver
acquire r d =
    if is_negative (next_answer d.answers)
    then (next_answer d.answers, asked d)
    else (success, record (asked d) { held = r ∷ d.held })

-- The resources without the latest `r`.
abbrev pub given_back : Resource → List Resource → List Resource
given_back r [] = []
given_back r (x ∷ xs) = let rest = given_back r xs in if same x r then xs else x ∷ rest

unfoldable pub release : Resource → Driver → Driver
release r d = record d { held = given_back r d.held }

unfoldable pub set_controller : ℕ → Instance → Driver → Driver
set_controller i v d = record d { controllers = λ j. if j == i then v else d.controllers j }
