-- ===== src/Object/Promise.antt =====
-- What registration and removal (kernel/src/virtusb_object_manager.c) promise of the map.
use virt_usb.Prelude.{
  ℕ, ◌-◌, ◌%◌, ◌^◌, ◌≡◌, ◌≢◌, ◌<◌, arith, refl, ap, sym, ◌∙◌, Bool, true, false, not, ◌||◌, Option,
  none, some, List, ◌==◌, ltb, leb, if◌then◌else◌, is_negative, is_some, ℤ, success, enoent,
  if_holds, inl, inr, ℕ_discrete, ◌⊎◌, is_some,
}
use virt_usb.Object.Store.{Objects, set_object, xa_load, xa_store, xa_erase}
use virt_usb.Object.Refs.{get, put}
use virt_usb.Object.Manager.{register, unregister, publish, is_registered_at}
use virt_usb.Object.Laws.{xa_load-xa_store}
use virt_usb.Object.Index.{Above-load, Above-store, Above-erase, xa_load-xa_erase}
use virt_usb.Object.Filing.{
  IsFiled, Same, Same-IsFiled, get-Same, put-Same, view, inserted, removed,
}

pub unregister-IsFiled :
    (o : ℕ) (s : Objects)
    → IsFiled s
    → xa_load s.registry (s.object o).id ≡ some o
    → IsFiled (
        set_object o
          (record (s.object o) { registered = false })
          (record s { registry = xa_erase s.registry (s.object o).id }))
unfolding set_object
unregister-IsFiled o s f e = record {
  order = Above-erase 0 (s.object o).id s.registry f.order;
  filed = λ i r h.
      let before = xa_load-xa_erase 0 (s.object o).id i s.registry f.order in
      elim (ℕ_discrete i (s.object o).id) [
        | yes is ↦ absurd (ground (arith, before, h, is))
        | no ne ↦
            let old = f.filed i r (ground (arith, before, h, ne)) in
            elim (ℕ_discrete r o) [
              | yes same ↦ absurd (ne (sym old.1 ∙ ap (λ k. (s.object k).id) same))
              | no other ↦ (ground (arith, other, old.0), ground (arith, other, old.1))
            ]
      ];
  fresh = f.fresh;
}

publish-IsFiled :
    (o type : ℕ) (s : Objects)
    → IsFiled s
    → (s.object o).registered ≡ false
    → s.next_object_id < 2 ^ 32
    → IsFiled (publish o type s.next_object_id s)
unfolding publish set_object
publish-IsFiled o type s f new small = record {
  order = Above-store 0 s.next_object_id o s.registry f.fresh f.order;
  filed = λ i r h. elim (ℕ_discrete i s.next_object_id) [
    | yes is ↦
        let found : some o ≡ some r = sym (stored i is) ∙ h in
        let same : r ≡ o = ground (arith, found) in (ground (arith, same), ground (arith, same, is))
    | no ne ↦
        let old =
          f.filed i r (ground (arith, xa_load-xa_store s.registry s.next_object_id o i, h, ne)) in
        elim (ℕ_discrete r o) [
          | yes same ↦
              absurd (true_false (sym old.0 ∙ ap (λ k. (s.object k).registered) same ∙ new))
          | no other ↦ (ground (arith, other, old.0), ground (arith, other, old.1))
        ]
  ];
  fresh = ground arith;
}
  where
    stored :
        (i : ℕ) → i ≡ s.next_object_id → xa_load (xa_store s.registry s.next_object_id o) i ≡ some o
    stored i is = ground (arith, xa_load-xa_store s.registry s.next_object_id o i, is)

    true_false : true ≡ false → ⊥
    true_false h = ground (arith, h)

-- What the removal of an object promises of the map, for its result and the objects after it.
abbrev pub Removes : ℕ → Objects → ℤ × Objects → Type 0
Removes o s (ret, s') =
    IsFiled s'
    × (((ret ≡ success)
          × ((view s (s.object o).id ≡ some o)
              × ((j : ℕ) → view s' j ≡ removed (s.object o).id (view s) j)))
        ⊎ ((ret ≡ enoent) × ((view s (s.object o).id ≢ some o) × ((j : ℕ) → view s' j ≡ view s j))))

-- The promise of a registration, by the ID that is next.
abbrev pub Inserts : ℕ → Objects → ℤ × Objects → Type 0
Inserts o s (ret, s') =
    IsFiled s'
    × (((ret ≡ success)
          × ((view s s.next_object_id ≡ none)
              × ((j : ℕ) → view s' j ≡ inserted s.next_object_id o (view s) j)))
        ⊎ ((is_negative ret ≡ true) × ((j : ℕ) → view s' j ≡ view s j)))

pub registered_at : (o : ℕ) (e : Option ℕ) → is_registered_at o e ≡ true → e ≡ some o
unfolding is_registered_at
registered_at o none h = absurd (ground (arith, h))
registered_at o (some e) h = ground (arith, h)

pub not_registered_at : (o : ℕ) (e : Option ℕ) → is_registered_at o e ≡ false → e ≢ some o
unfolding is_registered_at
not_registered_at o none h = λ k. ground (arith, k)
not_registered_at o (some e) h = λ k. ground (arith, h, k)

pub filed_nonzero : (s : Objects) (i o : ℕ) → IsFiled s → xa_load s.registry i ≡ some o → i ≢ 0
filed_nonzero s i o f h = λ is.
    absurd (
      ground
        (arith, ap (xa_load s.registry) is, h, Above-load 0 0 s.registry f.order (omega arith)))

-- In a registry that is filed, the removal of any object refines the removal from a finite map:
-- it returns 0 and the map had the object at the object's ID and has nothing there and is the
-- same elsewhere, or it returns -ENOENT and the map did not have the object at the object's ID
-- and is the same. The registry is filed again.
pub unregister-Removes : (o : ℕ) (s : Objects) → IsFiled s → Removes o s (unregister (some o) s)
unfolding unregister
unregister-Removes o s f =
    if_holds (λ x. Removes o s x) (not (s.object o).registered || (s.object o).id == 0) _ _
      (λ e. (
        f,
        inr (
          refl,
          (
            λ h. absurd (
                ground (
                  arith,
                  e,
                  (f.filed (s.object o).id o h).0,
                  filed_nonzero s (s.object o).id o f h,
                )),
            λ j. refl,
          ),
        ),
      ))
      (λ e.
        if_holds (λ x. Removes o s x)
          (not (is_registered_at o (xa_load s.registry (s.object o).id))) _ _
          (λ off. (f, inr (refl, (not_registered_at o _ (ground (arith, off)), λ j. refl))))
          (λ on.
            let at : xa_load s.registry (s.object o).id ≡ some o =
              registered_at o _ (ground (arith, on)) in
            let kept = put-Same (some o) (
              set_object o (record (s.object o) { registered = false })
                (record s { registry = xa_erase s.registry (s.object o).id })) in
            (
              Same-IsFiled kept (unregister-IsFiled o s f at),
              inl (
                refl,
                (
                  at,
                  λ j.
                      ap (λ r. xa_load r j) kept.registry
                      ∙ xa_load-xa_erase 0 (s.object o).id j s.registry f.order,
                ),
              ),
            )))

inserted_view :
    (o id : ℕ) (r : List (ℕ × ℕ)) (j : ℕ)
    → xa_load (xa_store r id o) j ≡ (if j == id then some o else xa_load r j)
inserted_view o id r j = ground (arith, xa_load-xa_store r id o j)

empty_none : (e : Option ℕ) → is_some e ≡ false → e ≡ none
empty_none none h = refl
empty_none (some e) h = absurd (ground (arith, h))

published :
    (o type : ℕ) (s : Objects)
    → IsFiled s
    → IsFiled (get (some o) s)
    → Same s (get (some o) s)
    → (s.object o).registered ≡ false
    → ltb (2 ^ 32 - 1) s.next_object_id ≡ false
    → is_some (xa_load s.registry s.next_object_id) ≡ false
    → Inserts o s (success, publish o type s.next_object_id (get (some o) s))
unfolding publish set_object get
published o type s f held same new small empty = (
  publish-IsFiled o type (get (some o) s) held (same.registered o ∙ new) (ground (arith, small)),
  inl (refl, (empty_none _ empty, λ j. inserted_view o s.next_object_id s.registry j)),
)

-- In a registry that is filed (IDs from 1 on in order, each of an object that has this ID and is
-- marked as registered, and a next ID that is not 0), the registration of any object refines the
-- insertion into a finite map: either it returns 0, and the map had nothing at the next ID and
-- has the object there and is the same elsewhere, or it returns an error and the map is the
-- same. The registry is filed again.
pub register-Inserts :
    (o type : ℕ) (memory : Bool) (s : Objects)
    → IsFiled s
    → Inserts o s (register (some o) type memory s)
unfolding register
register-Inserts o type memory s f =
    if_holds (λ x. Inserts o s x) (leb type 0 || ltb 4 type) _ _ (λ e. (f, inr (refl, λ j. refl)))
      (λ e.
        if_holds (λ x. Inserts o s x) (s.object o).registered _ _ (λ h. (f, inr (refl, λ j. refl)))
          (λ h.
            if_holds (λ x. Inserts o s x) (ltb (2 ^ 32 - 1) s.next_object_id) _ _
              (λ h. (f, inr (refl, λ j. refl)))
              (λ small.
                let same = get-Same (some o) s in
                let back = put-Same (some o) (get (some o) s) in
                let held = Same-IsFiled same f in
                let exact : s.next_object_id % 2 ^ 32 ≡ s.next_object_id = ground (arith, small) in
                let unchanged : (j : ℕ) → view (put (some o) (get (some o) s)) j ≡ view s j =
                  λ j. ap (λ r. xa_load r j) (back.registry ∙ same.registry) in
                rw exact (
                  if_holds (λ x. Inserts o s x) (is_some (xa_load s.registry s.next_object_id)) _ _
                    (λ taken. (Same-IsFiled back held, inr (refl, unchanged)))
                    (λ empty.
                      if_holds (λ x. Inserts o s x) (not memory) _ _
                        (λ q. (Same-IsFiled back held, inr (refl, unchanged)))
                        (λ q. published o type s f held same h small empty))))))
