-- ===== src/Library/Keeps.antt =====
-- What the calls of libvirtusb/src/virtusb.c leave alone: the descriptors and the handles of the
-- process.
use virt_usb.Prelude.{
  ℕ, ◌≡◌, arith, refl, true, Option, List, Option-cases, if_holds, inl, inr, ◌⊎◌, ◌==◌, ℤ,
}
use virt_usb.Library.System.{System, Process, Message}
use virt_usb.Library.Handle.{Handle, Descriptor, bad, usable, descriptor}
use virt_usb.Backend.Serve.{zero_fetch}
use virt_usb.Library.System.{transfer_complete, backend_register}
use virt_usb.Library.Transfers.{completion_of, ask_fetch, fetch, complete, register}
use virt_usb.Library.Calls.{
  status_request, ask_port_status, get_port_status, ask_device_create, create, send_to, send,
}
use virt_usb.Library.Opening.{Keeps, Answer-cases}

module _ {K : Type 0} (sys : System K) where
  pub Descriptor-cases :
      (d : Descriptor) → ((ret : ℤ) × (d ≡ bad ret)) ⊎ ((fd : ℕ) × (d ≡ usable fd))
  Descriptor-cases (bad ret) = inl (ret, refl)
  Descriptor-cases (usable fd) = inr (fd, refl)

  -- The calls with a handle.
  pub send-Keeps :
      (handle : Option Handle) (message : Message) (p : Process K)
      → Keeps p (send sys handle message p).1
  unfolding send send_to
  send-Keeps handle message p = elim (Descriptor-cases (descriptor handle)) [
    | inl (ret, is) ↦ (ground (arith, is), ground (arith, is))
    | inr (fd, is) ↦ elim (Option-cases (sys.send fd message p.kernel).0) [
      | inl e ↦ (ground (arith, is, e), ground (arith, is, e))
      | inr (n, e) ↦ (ground (arith, is, e), ground (arith, is, e))
    ]
  ]

  pub get_port_status-Keeps :
      (handle : Option Handle) (hub port : ℕ) (p : Process K)
      → Keeps p (get_port_status sys handle hub port true p).2
  unfolding get_port_status ask_port_status
  get_port_status-Keeps handle hub port p = elim (Descriptor-cases (descriptor handle)) [
    | inl (ret, is) ↦ (ground (arith, is), ground (arith, is))
    | inr (fd, is) ↦ elim (Answer-cases (sys.ask_status fd (status_request hub port) p.kernel).0) [
      | inl (n, e) ↦ (ground (arith, is, e), ground (arith, is, e))
      | inr (reply, e) ↦ (ground (arith, is, e), ground (arith, is, e))
    ]
  ]

  pub create-Keeps :
      (handle : Option Handle) (caps : ℕ) (p : Process K)
      → Keeps p (create sys handle caps true p).2
  unfolding create ask_device_create
  create-Keeps handle caps p = elim (Descriptor-cases (descriptor handle)) [
    | inl (ret, is) ↦ (ground (arith, is), ground (arith, is))
    | inr (fd, is) ↦
        elim (Answer-cases
          (sys.ask_device fd (record { speed_caps = caps; object_id = 0 }) p.kernel).0) [
            | inl (n, e) ↦ (ground (arith, is, e), ground (arith, is, e))
            | inr (reply, e) ↦ (ground (arith, is, e), ground (arith, is, e))
          ]
  ]

  pub send_to-Keeps :
      (fd : ℕ) (message : Message) (p : Process K) → Keeps p (send_to sys fd message p).1
  unfolding send_to
  send_to-Keeps fd message p = elim (Option-cases (sys.send fd message p.kernel).0) [
    | inl e ↦ (ground (arith, e), ground (arith, e))
    | inr (n, e) ↦ (ground (arith, e), ground (arith, e))
  ]

  pub fetch-Keeps : (handle : Option Handle) (p : Process K) → Keeps p (fetch sys handle true p).2
  unfolding fetch ask_fetch
  fetch-Keeps handle p = elim (Descriptor-cases (descriptor handle)) [
    | inl (ret, is) ↦ (ground (arith, is), ground (arith, is))
    | inr (fd, is) ↦ elim (Answer-cases (sys.ask_transfer fd zero_fetch p.kernel).0) [
      | inl (n, e) ↦ (ground (arith, is, e), ground (arith, is, e))
      | inr (reply, e) ↦ (ground (arith, is, e), ground (arith, is, e))
    ]
  ]

  pub complete-Keeps :
      (handle : Option Handle) (id : ℕ) (status : ℤ) (bytes : Option (List ℕ)) (n : ℕ)
      (p : Process K)
      → Keeps p (complete sys handle id status bytes n p).1
  unfolding complete
  complete-Keeps handle id status bytes n p = elim (Descriptor-cases (descriptor handle)) [
    | inl (ret, is) ↦ (ground (arith, is), ground (arith, is))
    | inr (fd, is) ↦
        let kept = send_to-Keeps fd (transfer_complete (completion_of id status bytes n)) p in
        (ground (arith, is, kept.0), ground (arith, is, kept.1))
  ]

  pub register-Keeps :
      (handle : Option Handle) (id : ℕ) (p : Process K) → Keeps p (register sys handle id p).1
  unfolding register
  register-Keeps handle id p =
      if_holds (λ (x : ℤ × Process K). Keeps p x.1) (id == 0) _ _ (λ e. (refl, refl))
        (λ e. send-Keeps handle (backend_register id) p)
