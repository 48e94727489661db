-- ===== src/Module/Loops.antt =====
-- The loops over the controllers of the module.
use virt_usb.Prelude.{
  ℕ, zero, suc, ◌+◌, ◌≡◌, arith, refl, sym, subst, Bool, true, false, none, some, List, get_or, set,
}
use virt_usb.Module.Driver.{Resource, Driver}
use virt_usb.Module.Platform.{destroy}
use virt_usb.Module.Load.{create_hcds, destroy_hcds}
use virt_usb.Module.Frame.{Outcome, done, refused, and_then}
use virt_usb.Module.Made.{Made}
use virt_usb.Module.Removal.{parts, unregistered, created}
use virt_usb.Module.Fleet.{all_parts, Fleet, made_here, with_new, grown, kept, shrunk}

module _ (xs : List Resource) (c : Bool) (total : ℕ) where
  -- Some of the controllers are up.
  abbrev pub Partly : Driver → Type 0
  Partly e = (k : ℕ) × Fleet xs c k total e

  pub create_hcds_fleet :
      (rounds n : ℕ) (d : Driver)
      → Fleet xs c n total d
      → n + rounds ≡ total
      → Outcome (Fleet xs c total total) Partly (create_hcds rounds n d)
  unfolding create_hcds
  create_hcds_fleet zero n d f h = done d (subst (λ k. Fleet xs c k total d) (omega arith) f)
  create_hcds_fleet (suc rounds) n d f h =
      and_then
        (created n d 31 (
          made_here n (all_parts n xs) false false d f.held (f.down n (omega arith)).0
            (f.down n (omega arith)).1))
        (Outcome (Fleet xs c total total) Partly)
        (λ ret e. (ret, record e { hcds = set e.hcds n none }))
        (λ e.
          create_hcds rounds (n + 1)
            (record e { hcds = set e.hcds n (some n); created_count = e.created_count + 1 }))
        (λ k e m. refused k _ (n, kept xs c total n d e f (omega arith) m))
        (λ e m.
          create_hcds_fleet rounds (n + 1) (with_new e n)
            (subst (λ k. Fleet xs c k total (with_new e n)) (omega arith)
              (grown xs c total n d e f (omega arith) m))
            (omega arith))

  destroy_last :
      (n : ℕ) (d : Driver)
      → Fleet xs c (suc n) total d
      → Made n
          (all_parts n xs)
          false
          false
          (record d { created_count = n })
          (destroy (get_or d.hcds n none) (record d { created_count = n }))
  unfolding destroy
  destroy_last n d f =
      subst
        (λ o.
          Made n (all_parts n xs) false false (record d { created_count = n })
            (destroy o (record d { created_count = n })))
        (sym (f.stored n (omega arith)))
        (unregistered n (record d { created_count = n })
          (made_here n (parts n (all_parts n xs)) true true (record d { created_count = n }) f.held
            (f.up n (omega arith)).0 (f.up n (omega arith)).1))

  pub destroy_hcds_fleet :
      (n : ℕ) (d : Driver) → Fleet xs c n total d → Fleet xs c 0 total (destroy_hcds n d)
  unfolding destroy_hcds
  destroy_hcds_fleet zero d f = record {
    held = f.held;
    count = refl;
    has_class = f.has_class;
    size = f.size;
    stored = f.stored;
    up = f.up;
    down = f.down;
  }
  destroy_hcds_fleet (suc n) d f =
      destroy_hcds_fleet n _ (shrunk xs c total n d _ f (destroy_last n d f))
