-- ===== src/Library/Opening.antt =====
-- Opening and closing a handle of libvirtusb/src/virtusb.c: what the process holds.
use virt_usb.Prelude.{
  ℕ, suc, ◌-◌, ◌≡◌, arith, refl, ap, ◌∙◌, Bool, true, false, Option, some, none, ◌∷◌, Option-cases,
  inl, inr, ◌⊎◌, if◌then◌else◌, leb, length, ℤ, pos, success,
}
use virt_usb.Text.{Bytes}
use virt_usb.Library.System.{
  System, Process, Answer, failed, answered, without, open_descriptor, close_descriptor,
  allocate_handle,
}
use virt_usb.Library.Handle.{Handle, open_handle, open_instance, close, path_of}

-- A call of `open` that fails, and one that answers.
pub Answer-cases {ℓ} :
    {A : Type ℓ} (a : Answer A) → ((e : ℕ) × (a ≡ failed e)) ⊎ ((v : A) × (a ≡ answered v))
Answer-cases (failed e) = inl (e, refl)
Answer-cases (answered fd) = inr (fd, refl)

module _ {K : Type 0} where
  -- The same descriptors and as many handles.
  abbrev pub Keeps : Process K → Process K → Type 0
  Keeps p q = (q.descriptors ≡ p.descriptors) × (q.handles ≡ p.handles)

  -- One descriptor and one handle more, which the handle returned stands for.
  abbrev pub Holds : ℕ → Process K → Option Handle → Process K → Type 0
  Holds number p handle q =
      (fd : ℕ) × (handle
        ≡ some (record { fd = pos fd; instance_number = number; device_path = path_of number }))
      × ((q.descriptors ≡ fd ∷ p.descriptors) × (q.handles ≡ suc p.handles))

module _ {K : Type 0} (sys : System K) where
  close_descriptor_keeps :
      (fd : ℕ) (p q : Process K)
      → q.descriptors ≡ fd ∷ p.descriptors
      → (close_descriptor sys fd q).descriptors ≡ p.descriptors
  unfolding close_descriptor
  close_descriptor_keeps fd p q e = ap (without fd) e ∙ ground arith

  close_descriptor_handles :
      (fd : ℕ) (q : Process K) → (close_descriptor sys fd q).handles ≡ q.handles
  unfolding close_descriptor
  close_descriptor_handles fd q = refl

  -- What `virtusb_open` may do.
  abbrev Opens : ℕ → Process K → ℤ × Option Handle × Process K → Type 0
  Opens number p (ret, handle, q) =
      ((handle ≡ none) × Keeps p q) ⊎ ((ret ≡ success) × Holds number p handle q)

  if_Opens :
      (number : ℕ) (p : Process K) (b : Bool) (x y : ℤ × Option Handle × Process K)
      → Opens number p x
      → Opens number p y
      → Opens number p (if b then x else y)
  if_Opens number p true x y f g = f
  if_Opens number p false x y f g = g

  option-Opens :
      (number : ℕ) (p : Process K) (o : Option ℕ) (f : ℕ → ℤ × Option Handle × Process K)
      (x : ℤ × Option Handle × Process K)
      → ((e : ℕ) → o ≡ some e → Opens number p (f e))
      → (o ≡ none → Opens number p x)
      → Opens number p (elim o [ some e ↦ f e | none ↦ x ])
  option-Opens number p none f x g h = h refl
  option-Opens number p (some e) f x g h = g e refl

  answer-Opens :
      (number : ℕ) (p : Process K) (a : Answer ℕ) (f g : ℕ → ℤ × Option Handle × Process K)
      → ((e : ℕ) → a ≡ failed e → Opens number p (f e))
      → ((fd : ℕ) → a ≡ answered fd → Opens number p (g fd))
      → Opens number p (elim a [ failed e ↦ f e | answered fd ↦ g fd ])
  answer-Opens number p (failed e) f g h k = h e refl
  answer-Opens number p (answered fd) f g h k = k fd refl

  allocate_handle_descriptors :
      (p : Process K) → (allocate_handle sys p).1.descriptors ≡ p.descriptors
  unfolding allocate_handle
  allocate_handle_descriptors p = elim (Option-cases (sys.allocate p.kernel).0) [
    | inl e ↦ ground (arith, e)
    | inr (n, e) ↦ ground (arith, e)
  ]

  allocate_handle_handles :
      (p : Process K)
      → (((e : ℕ)
          → (allocate_handle sys p).0 ≡ some e
          → (allocate_handle sys p).1.handles ≡ p.handles))
        × ((allocate_handle sys p).0 ≡ none → (allocate_handle sys p).1.handles ≡ suc p.handles)
  unfolding allocate_handle
  allocate_handle_handles p = elim (Option-cases (sys.allocate p.kernel).0) [
    | inl e ↦ (λ n h. ground (arith, e), λ h. ground (arith, e))
    | inr (n, e) ↦ (λ m h. ground (arith, e), λ h. ground (arith, e))
  ]

  open_handle-Opens :
      (number fd : ℕ) (p q : Process K)
      → q.descriptors ≡ fd ∷ p.descriptors
      → q.handles ≡ p.handles
      → Opens number p (open_handle sys number fd q)
  unfolding open_handle
  open_handle-Opens number fd p q d h =
      let r = (allocate_handle sys q).1 in
      let d' : r.descriptors ≡ fd ∷ p.descriptors = allocate_handle_descriptors q ∙ d in
      let closed = close_descriptor_keeps fd p r d' in
      let kept = close_descriptor_handles fd r in
      let counts = allocate_handle_handles q in
      option-Opens number p (allocate_handle sys q).0 _ _
        (λ e is. inl (refl, (closed, kept ∙ counts.0 e is ∙ h)))
        (λ is.
          if_Opens number p _ _ _
            (inl (refl, (closed, ap (λ n. n - 1) (kept ∙ counts.1 is ∙ ap suc h) ∙ omega arith)))
            (inr (refl, (fd, refl, (d', counts.1 is ∙ ap suc h)))))

  open_descriptor_failed :
      (path : Bytes) (p : Process K) (e : ℕ)
      → (open_descriptor sys path p).0 ≡ failed e
      → Keeps p (open_descriptor sys path p).1
  unfolding open_descriptor
  open_descriptor_failed path p e h = elim (Answer-cases (sys.open_path path p.kernel).0) [
    | inl (n, is) ↦ (ground (arith, is), ground (arith, is))
    | inr (fd, is) ↦ absurd (ground (arith, is))
  ]

  open_descriptor_answered :
      (path : Bytes) (p : Process K) (fd : ℕ)
      → (open_descriptor sys path p).0 ≡ answered fd
      → ((open_descriptor sys path p).1.descriptors ≡ fd ∷ p.descriptors)
        × ((open_descriptor sys path p).1.handles ≡ p.handles)
  unfolding open_descriptor
  open_descriptor_answered path p fd h = elim (Answer-cases (sys.open_path path p.kernel).0) [
    | inl (n, is) ↦ absurd (ground (arith, is))
    | inr (other, is) ↦ (ground (arith, is, h), ground (arith, is))
  ]

  -- `virtusb_open` leaves no descriptor and no memory behind when it yields no handle.
  pub open_instance-Opens :
      (number : ℕ) (p : Process K) → Opens number p (open_instance sys number true p)
  unfolding open_instance
  open_instance-Opens number p =
      if_Opens number p (leb 64 (length (path_of number))) _ _ (inl (refl, (refl, refl))) (
        answer-Opens number p (open_descriptor sys (path_of number) p).0 _ _
          (λ e is. inl (refl, open_descriptor_failed (path_of number) p e is))
          (λ fd is.
            let both = open_descriptor_answered (path_of number) p fd is in
            open_handle-Opens number fd p _ both.0 both.1))

  -- Closing what was opened gives back the descriptor and the memory.
  pub close-Holds :
      (number : ℕ) (p q : Process K) (handle : Option Handle)
      → Holds number p handle q
      → Keeps p (close sys handle q)
  unfolding close
  close-Holds number p q handle (fd, is, (d, h)) =
      rw (is, close)
        (
          close_descriptor_keeps fd p q d,
          ap (λ n. n - 1) (close_descriptor_handles fd q ∙ h) ∙ omega arith,
        )
