-- ===== src/Backend/Balance.antt =====
-- The balance of linked, queued and given-back URBs under each operation of
-- kernel/src/virtusb_backend.c.
use virt_usb.Prelude.{
  ℕ, Bool, Option, none, some, [], ◌∷◌, ◌++◌, ℤ, pos, negsuc, ◌≡◌, refl, arith, Option-cases, inl,
  inr, ◌⊎◌, subst,
}
use virt_usb.Channel.{Request, Channel, unlinked, call}
use virt_usb.Transfer
use virt_usb.Backend.Queue.{find_owner, take_first, is_urb, is_device, is_owned_id, release_request}
use virt_usb.Backend.Submit.{register, enqueue, finish_submit, submit, request, take_urb, cancel}
use virt_usb.Backend.Serve.{
  fetch_round, fetched, fetch_loop, fetch_rollback, complete, moved, failed, idle, Fetch,
  Completion, Round,
}
use virt_usb.Backend.Accounting.{
  count_linked, count_given_back, count_queued, IsBalanced, count_queued-append, Taken,
  take_first-Taken, Given, put-Given, get-Given, cancel-Given, mark_queued-Given, abort-Given,
  finish-Given, Lacks,
}

-- Calls other than those counted, and writes to the URBs and objects, leave the balance alone.
pub complete-IsBalanced :
    (u : ℕ) (owner : Option ℕ) (completion : Option Completion) (ret : ℤ) (c d : Channel)
    → complete owner completion c ≡ some (ret, d)
    → IsBalanced u c
    → IsBalanced u d
unfolding complete count_linked count_given_back
complete-IsBalanced u none completion ret c d done h = ground arith
complete-IsBalanced u (some owner) none ret c d done h = ground arith
complete-IsBalanced u (some owner) (some completion) ret c d done h =
    let test = is_owned_id c owner completion.transfer_id in
    elim (Option-cases (take_first test c.active)) [
      | inl e ↦ ground (arith, e)
      | inr ((r, rest), e) ↦ ground (
        arith,
        e,
        done,
        subst (Taken u test c.active) e (take_first-Taken u test c.active),
        finish-Given u r completion (call (unlinked r.urb) (record c { active = rest })) ret
            {d = d},
      )
    ]

pub register-IsBalanced :
    (u : ℕ) (owner device : Option ℕ) (memory : Bool) (c : Channel)
    → IsBalanced u c
    → IsBalanced u (register owner device memory c).1
unfolding register count_linked count_given_back
register-IsBalanced u none device memory c h = h
register-IsBalanced u (some owner) none memory c h = h
register-IsBalanced u (some owner) (some device) memory c h = ground arith

pub release_request-Given : (u : ℕ) (r : Request) (c : Channel) → Given u 0 c (release_request r c)
unfolding release_request
release_request-Given u r c = put-Given u (some r.transfer) c

pub enqueue-IsBalanced :
    (u : ℕ) (r : Request) (link : ℤ) (c : Channel)
    → IsBalanced u c
    → IsBalanced u (enqueue r link c).1
unfolding enqueue count_linked count_given_back count_queued
enqueue-IsBalanced u r (pos n) c h = ground (arith, count_queued-append u c.pending (r ∷ []))
enqueue-IsBalanced u r (negsuc n) c h = ground arith

pub finish_submit-IsBalanced :
    (u : ℕ) (r : Request) (ret : ℤ) (c : Channel)
    → IsBalanced u c
    → IsBalanced u (finish_submit r (ret, c)).1
unfolding finish_submit count_linked count_given_back
finish_submit-IsBalanced u r ret c h = ground (
  arith,
  cancel-Given u (some r.transfer) ret c,
  release_request-Given u r (Transfer.cancel (some r.transfer) ret c).1,
)

pub submit-IsBalanced :
    (u : ℕ) (urb transfer : Option ℕ) (memory : Bool) (link : ℤ) (c : Channel)
    → IsBalanced u c
    → IsBalanced u (submit urb transfer memory link c).1
unfolding submit
submit-IsBalanced u none transfer memory link c h = h
submit-IsBalanced u (some urb) none memory link c h = h
submit-IsBalanced u (some urb) (some transfer) memory link c h =
    let r = request urb transfer in
    let held = Transfer.get (some transfer) c in
    let queued = (Transfer.mark_queued (some transfer) held).1 in
    ground (
      arith,
      get-Given u (some transfer) c,
      mark_queued-Given u (some transfer) held,
      release_request-Given u r queued,
      enqueue-IsBalanced u r link queued,
      finish_submit-IsBalanced u r (enqueue r link queued).0 (enqueue r link queued).1,
    )

pub take_urb-Lacks : (u urb : ℕ) (c : Channel) → Lacks u c (take_urb urb c)
unfolding take_urb
take_urb-Lacks u urb c =
    ground
      (arith, take_first-Taken u (is_urb urb) c.pending, take_first-Taken u (is_urb urb) c.active)

pub cancel-IsBalanced :
    (u : ℕ) (urb : Option ℕ) (status check : ℤ) (c : Channel)
    → IsBalanced u c
    → IsBalanced u (cancel urb status check c).1
unfolding cancel count_linked count_given_back
cancel-IsBalanced u none status check c h = h
cancel-IsBalanced u (some urb) status check c h = elim (Option-cases (take_urb urb c)) [
  | inl e ↦ ground (arith, e)
  | inr ((r, d), e) ↦ ground (
    arith,
    subst (Lacks u c) e (take_urb-Lacks u urb c),
    abort-Given u r status (call (unlinked urb) d),
  )
]

pub fetch_rollback-IsBalanced :
    (u : ℕ) (owner : Option ℕ) (id : ℕ) (c : Channel)
    → IsBalanced u c
    → IsBalanced u (fetch_rollback owner id c).1
unfolding fetch_rollback count_linked count_given_back count_queued
fetch_rollback-IsBalanced u none id c h = h
fetch_rollback-IsBalanced u (some owner) id c h =
    ground (arith, take_first-Taken u (is_owned_id c owner id) c.active)

abbrev RoundIsBalanced : ℕ → Round → Type 0
RoundIsBalanced u (moved r d) = IsBalanced u d
RoundIsBalanced u (failed ret) = Unit
RoundIsBalanced u idle = Unit

pub fetch_round-IsBalanced :
    (u owner : ℕ) (c : Channel) → IsBalanced u c → RoundIsBalanced u (fetch_round owner c)
unfolding fetch_round count_queued
fetch_round-IsBalanced u owner c h = elim (Option-cases (find_owner owner c.bindings)) [
  | inl e ↦ ground (arith, e)
  | inr (b, e) ↦ elim (Option-cases (take_first (is_device c b.device) c.pending)) [
    | inl f ↦ ground (arith, e, f)
    | inr ((r, rest), f) ↦
        let taken = record r { owner = some owner } in
        ground (
          arith,
          e,
          f,
          subst (Taken u (is_device c b.device) c.pending) f
              (take_first-Taken u (is_device c b.device) c.pending),
          count_queued-append u c.active (taken ∷ []),
          get-Given u (some r.transfer)
              (record c { pending = rest; active = c.active ++ taken ∷ [] }),
        )
  ]
]

Round-cases :
    (x : Round)
    → ((r : Request) × (c : Channel) × (x ≡ moved r c))
      ⊎ (((ret : ℤ) × (x ≡ failed ret)) ⊎ (x ≡ idle))
Round-cases (moved r c) = inl (r, c, refl)
Round-cases (failed ret) = inr (inl (ret, refl))
Round-cases idle = inr (inr refl)

-- A fetch that does not sleep.
pub fetch_loop-IsBalanced :
    (u owner : ℕ) (out out' : Fetch) (nonblock : Bool) (ret : ℤ) (c d : Channel)
    → fetch_loop [] owner out nonblock c ≡ some (ret, out', d)
    → IsBalanced u c
    → IsBalanced u d
unfolding fetch_loop fetched
fetch_loop-IsBalanced u owner out out' nonblock ret c d e h =
    elim (Round-cases (fetch_round owner c)) [
      | inl (r, c', f) ↦ ground (
        arith,
        f,
        subst (RoundIsBalanced u) f (fetch_round-IsBalanced u owner c h),
        put-Given u (some r.transfer) c',
      )
      | inr (inl (ret', f)) ↦ ground (arith, f)
      | inr (inr f) ↦ ground (arith, f)
    ]
