-- ===== src/Object/Filing.antt =====
-- The registry of kernel/src/virtusb_object_manager.c as what it is for: a finite map from IDs to
-- objects.
use virt_usb.Prelude.{
  ℕ, ◌≡◌, ◌≤◌, arith, refl, ap, sym, subst, ◌∙◌, true, Option, none, some, ◌==◌, if◌then◌else◌,
}
use virt_usb.Object.Store.{Objects, set_object, xa_load}
use virt_usb.Object.Refs.{get, put, device_release}
use virt_usb.Object.Index.{Above}

-- What is filed: IDs from 1 on in increasing order, each of an object that says that it has this ID.
pub record IsFiled (s : Objects) : Type 0 where
  pub order : Above 0 s.registry
  pub filed :
      (i o : ℕ)
      → xa_load s.registry i ≡ some o
      → ((s.object o).registered ≡ true) × ((s.object o).id ≡ i)
  pub fresh : 1 ≤ s.next_object_id

-- The same registry, and the same of each object but for its reference count.
pub record Same (s s' : Objects) : Type 0 where
  pub registry : s'.registry ≡ s.registry
  pub next : s'.next_object_id ≡ s.next_object_id
  pub registered : (r : ℕ) → (s'.object r).registered ≡ (s.object r).registered
  pub id : (r : ℕ) → (s'.object r).id ≡ (s.object r).id
  pub type : (r : ℕ) → (s'.object r).type ≡ (s.object r).type

pub Same-IsFiled : {s s' : Objects} → Same s s' → IsFiled s → IsFiled s'
Same-IsFiled {s = s} {s' = s'} m f = record {
  order = subst (λ r. Above 0 r) (sym m.registry) f.order;
  filed = λ i o e.
      let old = f.filed i o (ap (λ r. xa_load r i) (sym m.registry) ∙ e) in
      (m.registered o ∙ old.0, m.id o ∙ old.1);
  fresh = omega (arith, m.next, f.fresh);
}

pub get-Same : (o : Option ℕ) (s : Objects) → Same s (get o s)
unfolding get set_object
get-Same none s = record {
  registry = refl;
  next = refl;
  registered = λ r. refl;
  id = λ r. refl;
  type = λ r. refl;
}
get-Same (some o) s = record {
  registry = refl;
  next = refl;
  registered = λ r. ground arith;
  id = λ r. ground arith;
  type = λ r. ground arith;
}

pub put-Same : (o : Option ℕ) (s : Objects) → Same s (put o s)
unfolding put set_object device_release
put-Same none s = record {
  registry = refl;
  next = refl;
  registered = λ r. refl;
  id = λ r. refl;
  type = λ r. refl;
}
put-Same (some o) s = record {
  registry = ground arith;
  next = ground arith;
  registered = λ r. ground arith;
  id = λ r. ground arith;
  type = λ r. ground arith;
}

-- The finite map that the registry stands for, and its two updates.
abbrev pub view : Objects → ℕ → Option ℕ
view s i = xa_load s.registry i

abbrev pub inserted : ℕ → ℕ → (ℕ → Option ℕ) → ℕ → Option ℕ
inserted id o f j = if j == id then some o else f j

abbrev pub removed : ℕ → (ℕ → Option ℕ) → ℕ → Option ℕ
removed id f j = if j == id then none else f j
