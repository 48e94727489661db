-- ===== src/Backend/Bindings.antt =====
-- The bindings of backends to devices (kernel/src/virtusb_backend.c) under registration.
use virt_usb.Prelude.{
  ℕ, Bool, none, some, List, [], ◌∷◌, ◌++◌, ◌==◌, ◌≡◌, ap, ◌∙◌, arith, if◌then◌else◌, success,
  is_some,
}
use virt_usb.Channel.{Binding, Channel}
use virt_usb.Backend.Queue.{find_owner, find_device}
use virt_usb.Backend.Submit.{register, register_error}

find_owner-append :
    (o : ℕ) (bs : List Binding) (b : Binding)
    → find_owner o (bs ++ b ∷ []) ≡ (
        if is_some (find_owner o bs)
        then find_owner o bs
        else if b.owner == o
        then some b
        else none)
unfolding find_owner
find_owner-append o [] b = ground arith
find_owner-append o (x ∷ bs) b = ground (arith, find_owner-append o bs b)

find_device-append :
    (d : ℕ) (bs : List Binding) (b : Binding)
    → find_device d (bs ++ b ∷ []) ≡ (
        if is_some (find_device d bs)
        then find_device d bs
        else if b.device == d
        then some b
        else none)
unfolding find_device
find_device-append d [] b = ground arith
find_device-append d (x ∷ bs) b = ground (arith, find_device-append d bs b)

-- A registration that succeeds appends one binding.
register_accepted :
    (owner device : ℕ) (memory : Bool) (c : Channel)
    → (register (some owner) (some device) memory c).0 ≡ success
    → (find_owner owner c.bindings ≡ none)
      × (find_device device c.bindings ≡ none)
      × ((register (some owner) (some device) memory c).1.bindings
          ≡ c.bindings ++ record { device = device; owner = owner } ∷ [])
unfolding register register_error
register_accepted owner device memory c e = ground (arith, e)

-- If the registration of an owner for a device succeeds, then neither was bound before; after it
-- both searches find the new binding, and the searches for any other owner or device answer as
-- before.
pub register-find_owner :
    (owner device : ℕ) (memory : Bool) (c : Channel)
    → (register (some owner) (some device) memory c).0 ≡ success
    → (find_owner owner c.bindings ≡ none)
      × (find_device device c.bindings ≡ none)
      × ((o : ℕ)
          → find_owner o (register (some owner) (some device) memory c).1.bindings ≡ (
              if owner == o
              then some (record { device = device; owner = owner })
              else find_owner o c.bindings))
      × ((d : ℕ)
          → find_device d (register (some owner) (some device) memory c).1.bindings ≡ (
              if device == d
              then some (record { device = device; owner = owner })
              else find_device d c.bindings))
register-find_owner owner device memory c e =
    let (no_owner, no_device, appended) = register_accepted owner device memory c e in
    (
      no_owner,
      no_device,
      λ o.
          ap (find_owner o) appended
          ∙ ground (
            arith,
            find_owner-append o c.bindings (record { device = device; owner = owner }),
            no_owner,
          ),
      λ d.
          ap (find_device d) appended
          ∙ ground (
            arith,
            find_device-append d c.bindings (record { device = device; owner = owner }),
            no_device,
          ),
    )
