-- ===== src/Object/Laws.antt =====
-- The registry of kernel/src/virtusb_object_manager.c under registration and
-- lookup.
use virt_usb.Prelude.{
  ℕ, ◌%◌, ◌^◌, Bool, Option, none, some, List, [], ◌∷◌, ◌==◌, ◌≡◌, ◌≢◌, refl, arith, if◌then◌else◌,
  success,
}
use virt_usb.Object.Store.{Objects, xa_load, xa_store, xa_erase, set_object}
use virt_usb.Object.Refs.{get}
use virt_usb.Object.Manager.{register, lookup, publish}

pub xa_load-xa_store :
    (r : List (ℕ × ℕ)) (i e j : ℕ)
    → xa_load (xa_store r i e) j ≡ (if i == j then some e else xa_load r j)
unfolding xa_load xa_store
xa_load-xa_store [] i e j = ground arith
xa_load-xa_store ((k, f) ∷ r) i e j = ground (arith, xa_load-xa_store r i e j)

xa_load-xa_erase : (r : List (ℕ × ℕ)) (i j : ℕ) → i ≢ j → xa_load (xa_erase r i) j ≡ xa_load r j
unfolding xa_load xa_erase
xa_load-xa_erase [] i j ne = refl
xa_load-xa_erase ((k, f) ∷ r) i j ne = ground (arith, xa_load-xa_erase r i j ne)

get-registry : (o : Option ℕ) (s : Objects) → (get o s).registry ≡ s.registry
unfolding get set_object
get-registry none s = refl
get-registry (some o) s = refl

-- If the next object ID is not 0 and the registration of an object succeeds, then a lookup of
-- the object's new ID finds the object, a lookup of that ID found nothing before, and a lookup
-- of any other ID answers as before.
pub register-lookup :
    (o type : ℕ) (memory : Bool) (s : Objects)
    → s.next_object_id ≢ 0
    → (register (some o) type memory s).0 ≡ success
    → ((lookup
          (((register (some o) type memory s).1.object o).id)
          (register (some o) type memory s).1).0
        ≡ some o)
      × ((lookup (((register (some o) type memory s).1.object o).id) s).0 ≡ none)
      × ((i : ℕ)
          → (lookup i (register (some o) type memory s).1).0 ≡ (
              if i == ((register (some o) type memory s).1.object o).id
              then some o
              else (lookup i s).0))
unfolding register lookup publish set_object
register-lookup o type memory s z h =
    let id = s.next_object_id % 2 ^ 32 in
    (
      ground (arith, xa_load-xa_store s.registry id o id, get-registry (some o) s),
      ground (arith),
      λ i. ground (arith, xa_load-xa_store s.registry id o i, get-registry (some o) s),
    )
