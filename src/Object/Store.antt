-- ===== src/Object/Store.antt =====
-- Objects (kernel/include/virtusb_object.h) and the state of the object manager
-- (kernel/src/virtusb_object_manager.c). Every object is embedded in a `struct virtusb_device`, and
-- `container_of` is the identity on references.
use virt_usb.Prelude.{
  ℕ, Bool, false, Option, none, some, List, [], ◌∷◌, ite, ℕ_discrete, ◌==◌, ltb, if◌then◌else◌,
}
use virt_usb.Topology.{Topology}

-- enum virtusb_object_type
abbrev pub object_type_invalid : ℕ
object_type_invalid = 0

abbrev pub object_type_device : ℕ
object_type_device = 4

abbrev pub object_id_invalid : ℕ
object_id_invalid = 0

-- struct virtusb_object. `refcount` is the count of the kref.
pub record Object : Type 0 where
  pub id : ℕ
  pub type : ℕ
  pub refcount : ℕ
  pub registered : Bool

-- The memory of an object that is not allocated.
abbrev pub zero_object : Object
zero_object = record { id = 0; type = 0; refcount = 0; registered = false }

-- What a release callback does that others can see: the memory is freed, with a kernel warning
-- before if `WARN_ON` fires.
pub data Event : Type 0 where
  warned : ℕ → Event
  freed : ℕ → Event

-- `registry` is the XArray `virtusb_objects`, its entries in the order of the indices, and
-- `next_ref` is the next address that an allocation returns.
pub record Objects : Type 0 where
  pub object : ℕ → Object
  pub registry : List (ℕ × ℕ)
  pub next_object_id : ℕ
  pub next_ref : ℕ
  pub topology : Topology
  pub events : List Event

-- `*ref = o`
unfoldable pub set_object : ℕ → Object → Objects → Objects
unfolding ℕ_discrete
set_object ref o s = record s { object = λ r. ite (ℕ_discrete r ref) o (s.object r) }

-- The XArray: load, store and erase at an index.
unfoldable pub xa_load : List (ℕ × ℕ) → ℕ → Option ℕ
xa_load [] index = none
xa_load ((i, entry) ∷ rest) index = if i == index then some entry else xa_load rest index

unfoldable pub xa_store : List (ℕ × ℕ) → ℕ → ℕ → List (ℕ × ℕ)
xa_store [] index entry = (index, entry) ∷ []
xa_store ((i, e) ∷ rest) index entry =
    if ltb index i
    then (index, entry) ∷ (i, e) ∷ rest
    else if i == index
    then (i, entry) ∷ rest
    else (i, e) ∷ xa_store rest index entry

unfoldable pub xa_erase : List (ℕ × ℕ) → ℕ → List (ℕ × ℕ)
xa_erase [] index = []
xa_erase ((i, e) ∷ rest) index = if i == index then rest else (i, e) ∷ xa_erase rest index
