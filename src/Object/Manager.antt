-- ===== src/Object/Manager.antt =====
-- kernel/src/virtusb_object_manager.c. The mutex makes each operation one step, but for the `put` of
-- `virtusb_object_unregister`, which follows the unlock.
use virt_usb.Prelude.{
  ℕ, ◌+◌, ◌-◌, ◌%◌, ◌^◌, Bool, true, false, not, ◌||◌, Option, none, some, List, [], ◌∷◌, ◌==◌, ltb,
  leb, if◌then◌else◌, is_some, ℤ, success, einval, enoent, ealready, enospc, ebusy, enomem,
}
use virt_usb.Object.Store.{
  object_id_invalid, object_type_invalid, object_type_device, Objects, set_object, xa_load,
  xa_store, xa_erase,
}
use virt_usb.Object.Refs.{get, put}

unfoldable pub init : Objects → Objects
init s = record s { next_object_id = 1 }

-- `WARN_ON(!xa_empty(&virtusb_objects))`, as an answer, and `xa_destroy`.
unfoldable pub exit : Objects → Bool × Objects
exit s = elim s.registry [ [] ↦ (false, s) | e ∷ r ↦ (true, record s { registry = [] }) ]

-- The writes of `virtusb_object_register` after a successful `xa_insert`.
unfoldable pub publish : ℕ → ℕ → ℕ → Objects → Objects
unfolding set_object xa_store
publish object type id s =
    set_object object (record (s.object object) { id = id; type = type; registered = true })
      (record s {
        registry = xa_store s.registry id object;
        next_object_id = (s.next_object_id + 1) % 2 ^ 64;
      })

-- `memory` is whether `xa_insert` gets the memory that it needs.
unfoldable pub register : Option ℕ → ℕ → Bool → Objects → ℤ × Objects
unfolding get put xa_load publish
register none type memory s = (einval, s)
register (some object) type memory s =
    if leb type object_type_invalid || ltb object_type_device type
    then (einval, s)
    else if (s.object object).registered
    then (ealready, s)
    else if ltb (2 ^ 32 - 1) s.next_object_id
    then (enospc, s)
    else let id = s.next_object_id % 2 ^ 32 in
      let held = get (some object) s in
      if is_some (xa_load s.registry id)
      then (ebusy, put (some object) held)
      else if not memory
      then (enomem, put (some object) held)
      else (success, publish object type id held)

-- Whether the registry holds this very object at its ID.
unfoldable pub is_registered_at : ℕ → Option ℕ → Bool
is_registered_at object none = false
is_registered_at object (some entry) = entry == object

unfoldable pub unregister : Option ℕ → Objects → ℤ × Objects
unfolding set_object xa_load xa_erase is_registered_at put
unregister none s = (einval, s)
unregister (some object) s =
    let o = s.object object in
    if not o.registered || o.id == object_id_invalid
    then (enoent, s)
    else if not (is_registered_at object (xa_load s.registry o.id))
    then (enoent, s)
    else (
      success,
      put (some object) (
          set_object object (record o { registered = false })
            (record s { registry = xa_erase s.registry o.id })),
    )

-- The object with its new reference, or NULL.
unfoldable pub lookup : ℕ → Objects → Option ℕ × Objects
unfolding xa_load get
lookup id s =
    if id == object_id_invalid
    then (none, s)
    else (xa_load s.registry id, get (xa_load s.registry id) s)

-- The loop of `virtusb_object_lookup_first_by_type`.
unfoldable pub first_by_type : ℕ → List (ℕ × ℕ) → Objects → Option ℕ
first_by_type type [] s = none
first_by_type type ((i, object) ∷ rest) s =
    if (s.object object).type == type then some object else first_by_type type rest s

unfoldable pub lookup_first_by_type : ℕ → Objects → Option ℕ × Objects
unfolding first_by_type get
lookup_first_by_type type s =
    (first_by_type type s.registry s, get (first_by_type type s.registry s) s)
