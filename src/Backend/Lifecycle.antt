-- ===== src/Backend/Lifecycle.antt =====
-- The operations of kernel/src/virtusb_backend.c in any order, as the HCD and the backends call them.
use virt_usb.Prelude.{ℕ, ◌+◌, Bool, Option, some, [], length, ℤ, ◌≡◌, arith}
use virt_usb.Channel.{Channel}
use virt_usb.Backend.Queue.{init}
use virt_usb.Backend.Submit.{register, submit, cancel}
use virt_usb.Backend.Serve.{Fetch, fetch_loop, fetch_rollback, Completion, complete}
use virt_usb.Backend.Stop.{release_owner, stop}
use virt_usb.Backend.Accounting.{count_linked, count_given_back, count_queued, IsBalanced}
use virt_usb.Backend.Balance.{
  register-IsBalanced, submit-IsBalanced, cancel-IsBalanced, fetch_loop-IsBalanced,
  fetch_rollback-IsBalanced, complete-IsBalanced,
}
use virt_usb.Backend.Teardown.{release_owner-IsBalanced, stop-IsBalanced, stop_total, IsStopped}

-- One operation. A fetch that sleeps is a step when it ends, after the steps of the others; a
-- completion whose copy faults is no step.
pub data Step (c : Channel) : Channel → Type 0 where
  registers : (owner device : Option ℕ) (memory : Bool) → Step c (register owner device memory c).1
  submits :
      (urb transfer : Option ℕ) (memory : Bool) (link : ℤ)
      → Step c (submit urb transfer memory link c).1
  cancels : (urb : Option ℕ) (status check : ℤ) → Step c (cancel urb status check c).1
  fetches :
      (owner : ℕ) (out out' : Fetch) (nonblock : Bool) (ret : ℤ) {d : Channel}
      → fetch_loop [] owner out nonblock c ≡ some (ret, out', d)
      → Step c d
  rolls_back : (owner : Option ℕ) (id : ℕ) → Step c (fetch_rollback owner id c).1
  completes :
      (owner : Option ℕ) (completion : Option Completion) (ret : ℤ) {d : Channel}
      → complete owner completion c ≡ some (ret, d)
      → Step c d
  releases :
      (fuel : ℕ) (owner : Option ℕ) {d : Channel} → release_owner fuel owner c ≡ some d → Step c d
  stops : (fuel : ℕ) {d : Channel} → stop fuel c ≡ some d → Step c d

pub data Reach (c : Channel) : Channel → Type 0 where
  here : Reach c c
  next : {d e : Channel} → Reach c d → Step d e → Reach c e

pub Step-IsBalanced : (u : ℕ) {c d : Channel} → Step c d → IsBalanced u c → IsBalanced u d
Step-IsBalanced u {c} (registers owner device memory) h =
    register-IsBalanced u owner device memory c h
Step-IsBalanced u {c} (submits urb transfer memory link) h =
    submit-IsBalanced u urb transfer memory link c h
Step-IsBalanced u {c} (cancels urb status check) h = cancel-IsBalanced u urb status check c h
Step-IsBalanced u {c} (fetches owner out out' nonblock ret {d = d} e) h =
    fetch_loop-IsBalanced u owner out out' nonblock ret c d e h
Step-IsBalanced u {c} (rolls_back owner id) h = fetch_rollback-IsBalanced u owner id c h
Step-IsBalanced u {c} (completes owner completion ret {d = d} e) h =
    complete-IsBalanced u owner completion ret c d e h
Step-IsBalanced u {c} (releases fuel owner {d = d} e) h =
    release_owner-IsBalanced u fuel owner c d e h
Step-IsBalanced u {c} (stops fuel {d = d} e) h = stop-IsBalanced u fuel c d e h

-- From a backend initialised with no calls made, after any steps, in none of which a copy faults,
-- and for every URB, the number of times the URB was linked is the number of times it was given
-- back plus the number of queued requests for it.
pub Reach-IsBalanced :
    (u : ℕ) (c : Channel) {d : Channel} → c.calls ≡ [] → Reach (init c) d → IsBalanced u d
unfolding init count_linked count_given_back count_queued
Reach-IsBalanced u c e here = ground arith
Reach-IsBalanced u c e (next r s) = Step-IsBalanced u s (Reach-IsBalanced u c e r)

-- From a backend initialised with no calls made, after any steps, in none of which a copy
-- faults, a stop with one more round than there are queued requests returns; it leaves no
-- binding and no queued request, the backend refuses work, and every URB was given back as often
-- as it was linked.
pub stop_gives_all_back :
    (c d : Channel)
    → c.calls ≡ []
    → Reach (init c) d
    → (e : Channel) × (stop (length d.pending + length d.active + 1) d ≡ some e)
      × IsStopped e
      × ((u : ℕ) → count_linked u e.calls ≡ count_given_back u e.calls)
unfolding count_queued
stop_gives_all_back c d h r =
    let fuel = length d.pending + length d.active + 1 in
    let (e, s, stopped) = stop_total fuel d (omega arith) in
    (
      e,
      s,
      stopped,
      λ u. ground (arith, stopped, stop-IsBalanced u fuel d e s (Reach-IsBalanced u c h r)),
    )
