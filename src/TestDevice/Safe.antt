-- ===== src/TestDevice/Safe.antt =====
-- tools/virtusb-test-device/main.c: every way through the program gives back what it took.
use virt_usb.Prelude.{
  ℕ, ◌≡◌, refl, ◌∙◌, ◌⊎◌, Bool, true, false, not, ◌&&◌, Option, none, List, [], ◌∷◌, inl, inr,
  if◌then◌else◌, if_holds, ◌==◌, is_some, is_negative,
}
use virt_usb.Text.{Bytes}
use virt_usb.Library.System.{System, Process}
use virt_usb.Library.Handle.{Handle, open_instance, close}
use virt_usb.Library.Calls.{create, attach, detach, set_connected, destroy}
use virt_usb.Library.Transfers.{TransferRequest, register, unregister, fetch}
use virt_usb.Library.Opening.{Keeps, Holds, open_instance-Opens, close-Holds}
use virt_usb.Library.Keeps.{send-Keeps, create-Keeps, fetch-Keeps, complete-Keeps, register-Keeps}
use virt_usb.TestDevice.Serve.{
  answer, is_eintr, or_blank, id_or_invalid, Asked, help, wrong, serve, read_arguments, serve_loop,
  clean_up, set_up, serve_device, run_asked, main,
}

-- The same descriptors and as many handles as before.
record Kept {K : Type 0} (p q : Process K) : Type 0 where
  descriptors : q.descriptors ≡ p.descriptors
  handles : q.handles ≡ p.handles

module _ {K : Type 0} (sys : System K) where
  -- A step from what was kept.
  after : {p q r : Process K} → Kept p q → Keeps q r → Kept p r
  after a (c, d) = record { descriptors = c ∙ a.descriptors; handles = d ∙ a.handles }

  then_after : {p q r : Process K} → Kept p q → Kept q r → Kept p r
  then_after a b = record {
    descriptors = b.descriptors ∙ a.descriptors;
    handles = b.handles ∙ a.handles;
  }

  same : (p : Process K) → Kept p p
  same p = record { descriptors = refl; handles = refl }

  -- Both branches keep what was there.
  both :
      {A : Type 0} (p : Process K) (b : Bool) (x y : A × Process K)
      → Kept p x.1
      → Kept p y.1
      → Kept p (if b then x else y).1
  both p b x y f g = if_holds (λ r. Kept p r.1) b x y (λ e. f) (λ e. g)

  answer-Keeps :
      (handle : Option Handle) (object_id : ℕ) (request : TransferRequest) (p : Process K)
      → Keeps p (answer sys handle object_id request p).1
  unfolding answer
  answer-Keeps handle object_id request p = complete-Keeps sys handle request.id _ _ _ p

  attach-Keeps :
      (handle : Option Handle) (object_id port : ℕ) (p : Process K)
      → Keeps p (attach sys handle object_id 0 port p).1
  unfolding attach
  attach-Keeps handle object_id port p = send-Keeps sys handle _ p

  set_connected-Keeps :
      (handle : Option Handle) (object_id : ℕ) (on : Bool) (p : Process K)
      → Keeps p (set_connected sys handle object_id on p).1
  unfolding set_connected
  set_connected-Keeps handle object_id on p = send-Keeps sys handle _ p

  serve_loop_kept :
      (stops : List Bool) (handle : Option Handle) (object_id : ℕ) (p : Process K)
      → Kept p (serve_loop sys stops handle object_id p).1
  unfolding serve_loop
  serve_loop_kept [] handle object_id p = same p
  serve_loop_kept (stop ∷ stops) handle object_id p =
      let one = fetch sys handle true p in
      let two = answer sys handle object_id (or_blank one.1) one.2 in
      let fetched : Kept p one.2 = after (same p) (fetch-Keeps sys handle p) in
      let answered : Kept p two.1 =
        after fetched (answer-Keeps handle object_id (or_blank one.1) one.2) in
      both p stop _ _ (same p) (
        both p (is_eintr one.0) _ _
          (then_after fetched (serve_loop_kept stops handle object_id one.2))
          (both p (is_negative one.0) (false, one.2) _ fetched
            (both p (is_negative two.0) (false, two.1) _ answered
              (then_after answered (serve_loop_kept stops handle object_id two.1)))))

  set_up_kept :
      (stops : List Bool) (handle : Option Handle) (object_id port : ℕ) (p : Process K)
      → Kept p (set_up sys stops handle object_id port p).1
  unfolding set_up
  set_up_kept stops handle object_id port p =
      let one = attach sys handle object_id 0 port p in
      let two = register sys handle object_id one.1 in
      let three = set_connected sys handle object_id true two.1 in
      let attached : Kept p one.1 = after (same p) (attach-Keeps handle object_id port p) in
      let registered : Kept p two.1 = after attached (register-Keeps sys handle object_id one.1) in
      let connected : Kept p three.1 =
        after registered (set_connected-Keeps handle object_id true two.1) in
      both p (is_negative one.0) (false, one.1) _ attached
        (both p (is_negative two.0) (false, two.1) _ registered
          (both p (is_negative three.0) (false, three.1) _ connected
            (then_after connected (serve_loop_kept stops handle object_id three.1))))

  detach-Keeps :
      (handle : Option Handle) (object_id : ℕ) (p : Process K)
      → Keeps p (detach sys handle object_id p).1
  unfolding detach
  detach-Keeps handle object_id p = send-Keeps sys handle _ p

  unregister-Keeps : (handle : Option Handle) (p : Process K) → Keeps p (unregister sys handle p).1
  unfolding unregister
  unregister-Keeps handle p = send-Keeps sys handle _ p

  destroy-Keeps :
      (handle : Option Handle) (object_id : ℕ) (force : Bool) (p : Process K)
      → Keeps p (destroy sys handle object_id force p).1
  unfolding destroy
  destroy-Keeps handle object_id force p = send-Keeps sys handle _ p

  -- The handle is closed on a process that still has what it stands for.
  closed :
      (number : ℕ) (p q r : Process K) (handle : Option Handle)
      → (((handle ≡ none) × Keeps p q) ⊎ Holds number p handle q)
      → Kept q r
      → Kept p (close sys handle r)
  unfolding close
  closed number p q r handle (inl (is, kept)) m =
      rw (is, close) (then_after (after (same p) kept) m)
  closed number p q r handle (inr (fd, is, (d, h))) m =
      after (same p)
        (close-Holds sys number p r handle (fd, is, (m.descriptors ∙ d, m.handles ∙ h)))

  cleaned_up :
      (number object_id : ℕ) (p q r : Process K) (handle : Option Handle)
      → (((handle ≡ none) × Keeps p q) ⊎ Holds number p handle q)
      → Kept q r
      → Kept p (clean_up sys handle object_id r)
  unfolding clean_up
  cleaned_up number object_id p q r handle held m =
      let p1 = (set_connected sys handle object_id false r).1 in
      let p2 = (detach sys handle object_id p1).1 in
      let p3 = (unregister sys handle p2).1 in
      let a : Kept q p1 = after m (set_connected-Keeps handle object_id false r) in
      let b : Kept q p2 = after a (detach-Keeps handle object_id p1) in
      let c : Kept q p3 = after b (unregister-Keeps handle p2) in
      let gone = (destroy sys handle object_id true p3).1 in
      let d : Kept q gone = after c (destroy-Keeps handle object_id true p3) in
      if_holds (λ x. Kept p x) (is_some handle && not (object_id == 0)) _ _
        (λ e. closed number p q gone handle held d) (λ e. closed number p q r handle held m)

  serve_device_kept :
      (stops : List Bool) (number port : ℕ) (p : Process K)
      → Kept p (serve_device sys stops number port p).1
  unfolding serve_device
  serve_device_kept stops number port p =
      let one = open_instance sys number true p in
      let two = create sys one.1 2 true one.2 in
      let three = set_up sys stops one.1 (id_or_invalid two.1) port two.2 in
      let held = opened number p in
      let made : Kept one.2 two.2 = after (same one.2) (create-Keeps sys one.1 2 one.2) in
      both p (is_negative one.0) (1, clean_up sys one.1 0 one.2) _
        (cleaned_up number 0 p one.2 one.2 one.1 held (same one.2))
        (both p (is_negative two.0) (1, clean_up sys one.1 (id_or_invalid two.1) two.2) _
          (cleaned_up number (id_or_invalid two.1) p one.2 two.2 one.1 held made)
          (cleaned_up number (id_or_invalid two.1) p one.2 three.1 one.1 held
            (then_after made (set_up_kept stops one.1 (id_or_invalid two.1) port two.2))))
    where
      opened :
          (number : ℕ) (p : Process K)
          → (((open_instance sys number true p).1 ≡ none)
              × Keeps p (open_instance sys number true p).2)
            ⊎ Holds number p (open_instance sys number true p).1 (open_instance sys number true p).2
      opened number p = elim (open_instance-Opens sys number p) [
        | inl kept ↦ inl kept
        | inr (ret, holds) ↦ inr holds
      ]

  run_asked_kept :
      (asked : Asked) (signals : Bool) (stops : List Bool) (p : Process K)
      → Kept p (run_asked sys asked signals stops p).1
  unfolding run_asked
  run_asked_kept help signals stops p = same p
  run_asked_kept wrong signals stops p = same p
  run_asked_kept (serve number port) signals stops p =
      both p (not signals) (1, p) _ (same p) (serve_device_kept stops number port p)

-- For any system, any arguments, any outcome of sigaction, any number of rounds and any process,
-- the test device ends with the same open descriptors and as many allocated handles as before.
pub main_gives_back :
    {K : Type 0} (sys : System K) (arguments : List Bytes) (signals : Bool) (stops : List Bool)
    (p : Process K)
    → ((main sys arguments signals stops p).1.descriptors ≡ p.descriptors)
      × ((main sys arguments signals stops p).1.handles ≡ p.handles)
unfolding main
main_gives_back sys arguments signals stops p =
    let kept = run_asked_kept sys (read_arguments arguments) signals stops p in
    (kept.descriptors, kept.handles)
