-- ===== src/Ctl/Safe.antt =====
-- tools/virtusbctl/main.c: every way through the tool gives back what it took from the system.
use virt_usb.Prelude.{
  ℕ, ◌≡◌, arith, refl, ◌∙◌, Bool, true, false, Option, none, List, inl, inr, if◌then◌else◌, ℤ,
  is_negative, Bool-cases,
}
use virt_usb.Text.{Bytes}
use virt_usb.Library.System.{System, Process}
use virt_usb.Library.Handle.{Handle, open_instance, close}
use virt_usb.Library.Calls
use virt_usb.Library.Opening.{Keeps, Holds, open_instance-Opens, close-Holds}
use virt_usb.Library.Keeps.{send-Keeps, get_port_status-Keeps, create-Keeps}
use virt_usb.Ctl.Parse.{
  Action, show_status, power_port, create_device, destroy_device, attach_device, detach_device,
  connect_device, Line, run, complain, read_line,
}
use virt_usb.Ctl.Run.{
  Exit, conclude, status_command, power_command, create_command, destroy_command, attach_command,
  detach_command, connection_command, perform, execute, run_line, main,
}

module _ {K : Type 0} (sys : System K) (strerror : ℕ → Bytes) where
  -- A call keeps what `virtusb_open` got.
  Holds-Keeps :
      (number : ℕ) (p q r : Process K) (handle : Option Handle)
      → Holds number p handle q
      → Keeps q r
      → Holds number p handle r
  Holds-Keeps number p q r handle (fd, is, (d, h)) (e, f) = (fd, is, (e ∙ d, f ∙ h))

  Keeps-trans : (p q r : Process K) → Keeps p q → Keeps q r → Keeps p r
  Keeps-trans p q r (a, b) (c, d) = (c ∙ a, d ∙ b)

  conclude_process :
      (handle : Option Handle) (failure text : Bytes) (ret : ℤ) (p : Process K)
      → (conclude sys strerror handle failure text (ret, p)).process ≡ close sys handle p
  unfolding conclude
  conclude_process handle failure text ret p = elim (Bool-cases (is_negative ret)) [
    | inl e ↦ ground (arith, e)
    | inr e ↦ ground (arith, e)
  ]

  -- What an action does before the handle is closed.
  called : Action → Option Handle → Process K → Process K
  called (show_status port) handle p = (Calls.get_port_status sys handle 0 port true p).2
  called (power_port port powered) handle p = (Calls.power_port sys handle 0 port powered p).1
  called (create_device caps) handle p = (Calls.create sys handle caps true p).2
  called (destroy_device value force) handle p = (Calls.destroy sys handle value force p).1
  called (attach_device value port) handle p = (Calls.attach sys handle value 0 port p).1
  called (detach_device value) handle p = (Calls.detach sys handle value p).1
  called (connect_device value connected) handle p =
      (Calls.set_connected sys handle value connected p).1

  called-Keeps :
      (action : Action) (handle : Option Handle) (p : Process K) → Keeps p (called action handle p)
  unfolding called Calls.power_port Calls.destroy Calls.attach Calls.detach Calls.set_connected
  called-Keeps (show_status port) handle p = get_port_status-Keeps sys handle 0 port p
  called-Keeps (power_port port powered) handle p = send-Keeps sys handle _ p
  called-Keeps (create_device caps) handle p = create-Keeps sys handle caps p
  called-Keeps (destroy_device value force) handle p = send-Keeps sys handle _ p
  called-Keeps (attach_device value port) handle p = send-Keeps sys handle _ p
  called-Keeps (detach_device value) handle p = send-Keeps sys handle _ p
  called-Keeps (connect_device value connected) handle p = send-Keeps sys handle _ p

  perform_process :
      (action : Action) (handle : Option Handle) (p : Process K)
      → (perform sys strerror action handle p).process ≡ close sys handle (called action handle p)
  unfolding perform called status_command power_command create_command destroy_command
      attach_command detach_command connection_command
  perform_process (show_status port) handle p = conclude_process handle _ _ _ _
  perform_process (power_port port powered) handle p = conclude_process handle _ _ _ _
  perform_process (create_device caps) handle p = conclude_process handle _ _ _ _
  perform_process (destroy_device value force) handle p = conclude_process handle _ _ _ _
  perform_process (attach_device value port) handle p = conclude_process handle _ _ _ _
  perform_process (detach_device value) handle p = conclude_process handle _ _ _ _
  perform_process (connect_device value connected) handle p = conclude_process handle _ _ _ _

  if_Keeps :
      (p : Process K) (b : Bool) (x y : Exit K)
      → (b ≡ true → Keeps p x.process)
      → (b ≡ false → Keeps p y.process)
      → Keeps p (if b then x else y).process
  if_Keeps p true x y f g = f refl
  if_Keeps p false x y f g = g refl

  close_none :
      (p : Process K) (handle : Option Handle) → handle ≡ none → Keeps p (close sys handle p)
  unfolding close
  close_none p handle is = rw (is, close) (refl, refl)

  perform_missing :
      (action : Action) (p q : Process K) (handle : Option Handle)
      → handle ≡ none
      → Keeps p q
      → Keeps p (perform sys strerror action handle q).process
  perform_missing action p q handle is h = rw (perform_process action handle q) (
      Keeps-trans p q (close sys handle (called action handle q)) h (
        Keeps-trans q (called action handle q) (close sys handle (called action handle q))
          (called-Keeps action handle q) (close_none (called action handle q) handle is)))

  perform_held :
      (number : ℕ) (action : Action) (p q : Process K) (handle : Option Handle)
      → Holds number p handle q
      → Keeps p (perform sys strerror action handle q).process
  perform_held number action p q handle h = rw (perform_process action handle q) (
      close-Holds sys number p (called action handle q) handle
        (Holds-Keeps number p q (called action handle q) handle h (called-Keeps action handle q)))

  execute-Keeps :
      (number : ℕ) (action : Action) (p : Process K)
      → Keeps p (execute sys strerror number action p).process
  unfolding execute
  execute-Keeps number action p = elim (open_instance-Opens sys number p) [
    | inl (is, kept) ↦
        if_Keeps p (is_negative (open_instance sys number true p).0) _ _ (λ q. kept)
          (λ q. perform_missing action p _ _ is kept)
    | inr (ret, held) ↦
        if_Keeps p (is_negative (open_instance sys number true p).0) _ _
          (λ q. absurd (ground (arith, q, ret))) (λ q. perform_held number action p _ _ held)
  ]

  run_line-Keeps : (line : Line) (p : Process K) → Keeps p (run_line sys strerror line p).process
  unfolding run_line
  run_line-Keeps (complain text) p = (refl, refl)
  run_line-Keeps (run number action) p = execute-Keeps number action p

  -- For any system, any texts of errors, any arguments and any process, the command line tool ends
  -- with the same open descriptors and as many allocated handles as before.
  pub main-Keeps :
      (program : Bytes) (arguments : List Bytes) (p : Process K)
      → ((main sys strerror program arguments p).process.descriptors ≡ p.descriptors)
        × ((main sys strerror program arguments p).process.handles ≡ p.handles)
  unfolding main
  main-Keeps program arguments p = run_line-Keeps (read_line program arguments) p
