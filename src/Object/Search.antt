-- ===== src/Object/Search.antt =====
-- The search of the registry (kernel/src/virtusb_object_manager.c) for an object of a type, and its
-- removal.
use virt_usb.Prelude.{
  ℕ, suc, ◌≡◌, ◌≢◌, arith, refl, ap, ◌∙◌, true, false, not, ◌||◌, Option, none, some, List, [], ◌∷◌,
  ◌==◌, if◌then◌else◌, length, ℤ, Bool-cases, if_holds, inl, inr,
}
use virt_usb.Object.Store.{Objects, set_object, xa_load, xa_erase}
use virt_usb.Object.Refs.{get, put, device_release}
use virt_usb.Object.Manager.{unregister, is_registered_at, first_by_type}
use virt_usb.Object.Index.{Above, Above-load, length-xa_erase}
use virt_usb.Object.Filing.{IsFiled, put-Same}
use virt_usb.Object.Promise.{not_registered_at, filed_nonzero}

-- The removal of an object that is found at its ID makes the registry shorter, and does not touch the
-- ports.
pub unregister_shortens :
    (o : ℕ) (s : Objects)
    → IsFiled s
    → xa_load s.registry (s.object o).id ≡ some o
    → suc (length (unregister (some o) s).1.registry) ≡ length s.registry
unfolding unregister
unregister_shortens o s f at =
    let old = f.filed (s.object o).id o at in
    let nonzero = filed_nonzero s (s.object o).id o f at in
    let Shorter : ℤ × Objects → Type 0 = λ x. suc (length x.1.registry) ≡ length s.registry in
    if_holds Shorter (not (s.object o).registered || (s.object o).id == 0) _ _
      (λ e. absurd (ground (arith, e, old.0, nonzero)))
      (λ e.
        if_holds Shorter (not (is_registered_at o (xa_load s.registry (s.object o).id))) _ _
          (λ off. absurd (not_registered_at o _ (ground (arith, off)) at))
          (λ on.
            ap (λ r. suc (length r))
              (put-Same (some o) (
                set_object o (record (s.object o) { registered = false })
                  (record s { registry = xa_erase s.registry (s.object o).id }))).registry
            ∙ length-xa_erase (s.object o).id o s.registry at))

pub put-topology : (o : Option ℕ) (s : Objects) → (put o s).topology ≡ s.topology
unfolding put set_object device_release
put-topology none s = refl
put-topology (some o) s = ground arith

pub get-topology : (o : Option ℕ) (s : Objects) → (get o s).topology ≡ s.topology
unfolding get set_object
get-topology none s = refl
get-topology (some o) s = refl

pub unregister-topology : (o : ℕ) (s : Objects) → (unregister (some o) s).1.topology ≡ s.topology
unfolding unregister
unregister-topology o s =
    let Kept : ℤ × Objects → Type 0 = λ x. x.1.topology ≡ s.topology in
    if_holds Kept (not (s.object o).registered || (s.object o).id == 0) _ _ (λ e. refl)
      (λ e.
        if_holds Kept (not (is_registered_at o (xa_load s.registry (s.object o).id))) _ _
          (λ off. refl)
          (λ on. put-topology (some o) (
            set_object o (record (s.object o) { registered = false })
              (record s { registry = xa_erase s.registry (s.object o).id }))))

-- The first entry of a type is in the registry, and where there is none, no entry is of the type.
pub first_by_type_found :
    (type n o : ℕ) (r : List (ℕ × ℕ)) (s : Objects)
    → Above n r
    → first_by_type type r s ≡ some o
    → (i : ℕ) × (xa_load r i ≡ some o)
unfolding first_by_type xa_load
first_by_type_found type n o [] s a h = absurd (ground (arith, h))
first_by_type_found type n o ((k, e) ∷ rest) s a h = elim (Bool-cases ((s.object e).type == type)) [
  | inl is ↦ (k, ground (arith, is, h))
  | inr ne ↦
      let (i, found) = first_by_type_found type k o rest s a.1 (ground (arith, ne, h)) in
      (i, deeper i found)
]
  where
    deeper :
        (i : ℕ) → xa_load rest i ≡ some o → (if k == i then some e else xa_load rest i) ≡ some o
    deeper i found = elim (Bool-cases (k == i)) [
      | inl eq ↦ absurd (ground (arith, found, eq, Above-load k i rest a.1 (ground (arith, eq))))
      | inr ne ↦ ground (arith, ne, found)
    ]

pub first_by_type_missing :
    (type i o : ℕ) (r : List (ℕ × ℕ)) (s : Objects)
    → first_by_type type r s ≡ none
    → xa_load r i ≡ some o
    → (s.object o).type ≢ type
unfolding first_by_type xa_load
first_by_type_missing type i o [] s h e = absurd (ground (arith, e))
first_by_type_missing type i o ((k, f) ∷ rest) s h e =
    elim (Bool-cases ((s.object f).type == type)) [
      | inl is ↦ absurd (ground (arith, is, h))
      | inr ne ↦ elim (Bool-cases (k == i)) [
        | inl eq ↦ λ is. absurd (ground (arith, ap (λ q. (s.object q).type) (same eq), is, ne))
        | inr other ↦
            first_by_type_missing type i o rest s (ground (arith, ne, h)) (ground (arith, other, e))
      ]
    ]
  where
    same : (k == i) ≡ true → f ≡ o
    same eq = ground (arith, eq, e)
