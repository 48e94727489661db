-- ===== src/Module/Classes.antt =====
-- The registration of the control devices' class and numbers, and what the module frees last.
use virt_usb.Prelude.{ℕ, arith, refl, Bool, true, false, List, ◌∷◌, ◌==◌, success}
use virt_usb.Module.Driver.{
  Resource, hcd_array, chrdev_region, control_class, Driver, next_answer, release,
}
use virt_usb.Module.Instance.{
  control_register, control_unregister, register_class, number_of, set_class,
}
use virt_usb.Module.Load.{exit_objects, free_hcds}
use virt_usb.Module.Frame.{Outcome, done, refused, and_then, acquired}
use virt_usb.Module.Built.{if_outcome}
use virt_usb.Module.Removal.{if_not}
use virt_usb.Module.Fleet.{Fleet, fleet_left, fleet_missed, fleet_release}

module _ (xs : List Resource) where
  pub idle_objects :
      {c : Bool} {total : ℕ} {d : Driver}
      → Fleet xs c 0 total d
      → Fleet xs c 0 total (exit_objects d)
  unfolding exit_objects
  idle_objects f = record {
    held = f.held;
    count = f.count;
    has_class = f.has_class;
    size = f.size;
    stored = f.stored;
    up = f.up;
    down = f.down;
  }

  pub freed :
      {c : Bool} {total : ℕ} {d : Driver}
      → Fleet (hcd_array ∷ xs) c 0 total d
      → Fleet xs c 0 0 (free_hcds d)
  unfolding free_hcds exit_objects
  freed {c = c} {total = total} {d = d} f =
      let g = fleet_release xs c total hcd_array d f in
      record {
        held = g.held;
        count = g.count;
        has_class = g.has_class;
        size = refl;
        stored = λ i q. absurd (omega arith);
        up = g.up;
        down = g.down;
      }

  pub unregistered :
      {total : ℕ} {d : Driver}
      → Fleet (control_class ∷ chrdev_region ∷ xs) true 0 total d
      → Fleet xs false 0 total (control_unregister d)
  unfolding control_unregister
  unregistered {total = total} {d = d} f =
      let g =
        fleet_release xs true total chrdev_region _
          (fleet_release (chrdev_region ∷ xs) true total control_class d f) in
      if_not (λ e. Fleet xs false 0 total e) d.has_class _ _ f.has_class
        (record {
          held = g.held;
          count = g.count;
          has_class = refl;
          size = g.size;
          stored = g.stored;
          up = g.up;
          down = g.down;
        })

  class_registered :
      {total : ℕ} {d : Driver} (devt count : ℕ)
      → Fleet (chrdev_region ∷ xs) false 0 total d
      → Outcome
          (Fleet (control_class ∷ chrdev_region ∷ xs) true 0 total)
          (Fleet xs false 0 total)
          (register_class devt count d)
  unfolding register_class set_class
  class_registered {total = total} {d = d} devt count f =
      and_then (acquired control_class 0 d)
        (Outcome (Fleet (control_class ∷ chrdev_region ∷ xs) true 0 total) (Fleet xs false 0 total))
        (λ ret e. (ret, record (release chrdev_region e) { base_devt = 0; has_class = false }))
        (λ e. (success, set_class devt count e))
        (λ n e l.
          let g =
            fleet_release xs false total chrdev_region e
              (fleet_missed (chrdev_region ∷ xs) false total d e f l) in
          refused n _ (record {
            held = g.held;
            count = g.count;
            has_class = refl;
            size = g.size;
            stored = g.stored;
            up = g.up;
            down = g.down;
          }))
        (λ e l.
          let g = fleet_left (chrdev_region ∷ xs) false total control_class d e f l in
          done _ (record {
            held = g.held;
            count = g.count;
            has_class = refl;
            size = g.size;
            stored = g.stored;
            up = g.up;
            down = g.down;
          }))

  pub control_registered :
      {total : ℕ} {d : Driver} (count : ℕ)
      → Fleet xs false 0 total d
      → Outcome
          (Fleet (control_class ∷ chrdev_region ∷ xs) true 0 total)
          (Fleet xs false 0 total)
          (control_register count d)
  unfolding control_register
  control_registered {total = total} {d = d} count f =
      if_outcome (count == 0) _ _ (refused 21 _ f) (
        if_outcome d.has_class _ _ (refused 15 _ f) (
          and_then (acquired chrdev_region 0 d)
            (Outcome (Fleet (control_class ∷ chrdev_region ∷ xs) true 0 total)
              (Fleet xs false 0 total))
            (λ ret e. (ret, e)) (λ e. register_class (number_of (next_answer d.answers)) count e)
            (λ n e l. refused n _ (fleet_missed xs false total d e f l))
            (λ e l. class_registered _ count (fleet_left xs false total chrdev_region d e f l))))
