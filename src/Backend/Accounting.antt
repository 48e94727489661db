-- ===== src/Backend/Accounting.antt =====
-- Counts of the URBs in the queues of kernel/src/virtusb_backend.c and in its calls of the USB core,
-- and what each part of an operation adds to them.
use virt_usb.Prelude.{
  ℕ, suc, ◌+◌, Bool, true, Option, none, some, List, [], ◌∷◌, ◌++◌, ◌==◌, ℤ, ◌≡◌, arith,
  if◌then◌else◌, length, ◌%◌, ◌^◌, emsgsize, Option-cases, inl, inr, subst,
}
use virt_usb.Channel.{Request, Channel, Call, linked, given_back, call, set_urb}
use virt_usb.Transfer
use virt_usb.Backend.Queue.{take_first, release_request, giveback, abort}
use virt_usb.Backend.Serve.{copy_in, copy_bytes, settle, finish, Completion}

-- How often an URB was linked, was given back, and stands in a queue.
unfoldable pub count_linked : ℕ → List Call → ℕ
count_linked u [] = 0
count_linked u (linked v ∷ cs) = (if v == u then 1 else 0) + count_linked u cs
count_linked u (_ ∷ cs) = count_linked u cs

unfoldable pub count_given_back : ℕ → List Call → ℕ
count_given_back u [] = 0
count_given_back u (given_back v status ∷ cs) = (if v == u then 1 else 0) + count_given_back u cs
count_given_back u (_ ∷ cs) = count_given_back u cs

unfoldable pub count_queued : ℕ → List Request → ℕ
count_queued u [] = 0
count_queued u (r ∷ rs) = (if r.urb == u then 1 else 0) + count_queued u rs

-- The balance of one URB.
abbrev pub IsBalanced : ℕ → Channel → Type 0
IsBalanced u c =
    count_linked u c.calls
    ≡ count_given_back u c.calls + count_queued u c.pending + count_queued u c.active

pub count_queued-append :
    (u : ℕ) (rs qs : List Request)
    → count_queued u (rs ++ qs) ≡ count_queued u rs + count_queued u qs
unfolding count_queued
count_queued-append u [] qs = omega arith
count_queued-append u (r ∷ rs) qs = omega (arith, count_queued-append u rs qs)

-- A request that is taken out passes the test and is counted once less.
abbrev pub Taken : ℕ → (Request → Bool) → List Request → Option (Request × List Request) → Type 0
Taken u test rs none = Unit
Taken u test rs (some (r, rest)) =
    (test r ≡ true)
    × (count_queued u rs ≡ count_queued u (r ∷ []) + count_queued u rest)
    × (length rs ≡ suc (length rest))

pub take_first-Taken :
    (u : ℕ) (test : Request → Bool) (rs : List Request) → Taken u test rs (take_first test rs)
unfolding take_first count_queued
take_first-Taken u test [] = tt
take_first-Taken u test (q ∷ qs) = ground (arith, take_first-Taken u test qs)

-- The step from one channel to another that adds to the counts of one URB: `given` to those given
-- back, with the calls of the linking and the queues as they were.
pub record Given (u given : ℕ) (c d : Channel) : Type 0 where
  pub linked_calls : count_linked u d.calls ≡ count_linked u c.calls
  pub given_back_calls : count_given_back u d.calls ≡ given + count_given_back u c.calls
  pub pending : d.pending ≡ c.pending
  pub active : d.active ≡ c.active
  pub stopping : d.stopping ≡ c.stopping

pub put-Given : (u : ℕ) (t : Option ℕ) (c : Channel) → Given u 0 c (Transfer.put t c)
unfolding Transfer.put Transfer.release count_linked count_given_back
put-Given u none c = ground arith
put-Given u (some t) c = ground arith

pub get-Given : (u : ℕ) (t : Option ℕ) (c : Channel) → Given u 0 c (Transfer.get t c)
unfolding Transfer.get
get-Given u none c = ground arith
get-Given u (some t) c = ground arith

pub cancel-Given :
    (u : ℕ) (t : Option ℕ) (status : ℤ) (c : Channel) → Given u 0 c (Transfer.cancel t status c).1
unfolding Transfer.cancel
cancel-Given u none status c = ground arith
cancel-Given u (some t) status c = ground arith

pub complete-Given :
    (u : ℕ) (t : Option ℕ) (status : ℤ) (n : ℕ) (c : Channel)
    → Given u 0 c (Transfer.complete t status n c).1
unfolding Transfer.complete
complete-Given u none status n c = ground arith
complete-Given u (some t) status n c = ground arith

pub mark_queued-Given :
    (u : ℕ) (t : Option ℕ) (c : Channel) → Given u 0 c (Transfer.mark_queued t c).1
unfolding Transfer.mark_queued
mark_queued-Given u none c = ground arith
mark_queued-Given u (some t) c = ground arith

pub giveback-Given :
    (u : ℕ) (r : Request) (status : ℤ) (c : Channel)
    → Given u (count_queued u (r ∷ [])) c (giveback r status c)
unfolding giveback release_request count_linked count_given_back count_queued
giveback-Given u r status c =
    ground (arith, put-Given u (some r.transfer) (call (given_back r.urb status) c))

pub abort-Given :
    (u : ℕ) (r : Request) (status : ℤ) (c : Channel)
    → Given u (count_queued u (r ∷ [])) c (abort r status c)
unfolding abort
abort-Given u r status c = ground (
  arith,
  cancel-Given u (some r.transfer) status c,
  giveback-Given u r status ((Transfer.cancel (some r.transfer) status c).1),
)

-- A result that is there adds to the counts, and a fault has no later channel.
abbrev GivenAfter : ℕ → ℕ → Channel → Option Channel → Type 0
GivenAfter u n c none = Unit
GivenAfter u n c (some d) = Given u n c d

copy_in-GivenAfter :
    (u : ℕ) (r : Request) (bytes : List ℕ) (n : ℕ) (c : Channel)
    → GivenAfter u 0 c (copy_in r bytes n c)
unfolding copy_in copy_bytes
copy_in-GivenAfter u r bytes n c = ground arith

settle-Given :
    (u : ℕ) (r : Request) (completion : Completion) (ret : ℤ) (c : Channel)
    → Given u (count_queued u (r ∷ [])) c (settle r completion (ret, c)).1
unfolding settle
settle-Given u r completion ret c =
    let counted =
      set_urb r.urb (record (c.urb r.urb) { actual_length = completion.actual_length % 2 ^ 32 })
        c in
    ground (arith, abort-Given u r ret c, giveback-Given u r completion.status counted)

-- A completion gives back its request.
pub finish-Given :
    (u : ℕ) (r : Request) (completion : Completion) (c : Channel) (ret : ℤ) {d : Channel}
    → finish r completion c ≡ some (ret, d)
    → Given u (count_queued u (r ∷ [])) c d
unfolding finish
finish-Given u r completion c ret e =
    let n = completion.actual_length in
    elim (Option-cases (copy_in r completion.payload n c)) [
      | inl f ↦ ground (arith, e, f, abort-Given u r emsgsize c)
      | inr (copied, f) ↦
          let done = Transfer.complete (some r.transfer) completion.status n copied in
          ground (
            arith,
            e,
            f,
            abort-Given u r emsgsize c,
            subst (GivenAfter u 0 c) f (copy_in-GivenAfter u r completion.payload n c),
            complete-Given u (some r.transfer) completion.status n copied,
            settle-Given u r completion done.0 done.1,
          )
    ]

-- The balance after a request is taken out: it lacks that request.
abbrev pub Lacks : ℕ → Channel → Option (Request × Channel) → Type 0
Lacks u c none = Unit
Lacks u c (some (r, d)) =
    (count_linked u d.calls ≡ count_linked u c.calls)
    × (count_given_back u d.calls ≡ count_given_back u c.calls)
    × (count_queued u c.pending + count_queued u c.active
        ≡ count_queued u (r ∷ []) + count_queued u d.pending + count_queued u d.active)
    × (length c.pending + length c.active ≡ suc (length d.pending + length d.active))
    × (d.stopping ≡ c.stopping)
