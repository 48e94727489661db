-- ===== src/Transfer/Laws.antt =====
-- The states of a transfer (kernel/src/virtusb_transfer.c) and their lengths.
use virt_usb.Prelude.{ℕ, ◌≤◌, Option, none, some, ◌≡◌, ◌⊎◌, ◌↔◌, arith, ℤ, success, einval}
use virt_usb.Channel.{new, queued, completed, Channel}
use virt_usb.Transfer.{mark_queued, complete, cancel}

-- A completion succeeds exactly if the transfer is new or queued and the actual length is at
-- most the requested length.
pub complete_result :
    (r : ℕ) (status : ℤ) (actual : ℕ) (c : Channel)
    → ((complete (some r) status actual c).0 ≡ success) ↔ (
        ((c.transfer r).state ≡ new ⊎ (c.transfer r).state ≡ queued)
        × (actual ≤ (c.transfer r).requested_length))
unfolding complete
complete_result r status actual c = ground arith

-- After a completion that succeeds the transfer is completed with the given length and status,
-- and every cancellation of it is refused and changes nothing.
pub complete_state :
    (r : ℕ) (status : ℤ) (actual : ℕ) (c : Channel)
    → (complete (some r) status actual c).0 ≡ success
    → (((complete (some r) status actual c).1.transfer r).state ≡ completed)
      × (((complete (some r) status actual c).1.transfer r).actual_length ≡ actual)
      × (((complete (some r) status actual c).1.transfer r).status ≡ status)
      × (((s : ℤ)
          → (cancel (some r) s (complete (some r) status actual c).1)
            ≡ (einval, (complete (some r) status actual c).1)))
unfolding complete cancel
complete_state r status actual c h = ground arith

-- The length bound of all transfers.
abbrev pub IsWithin : Channel → Type 0
IsWithin c = (r : ℕ) → (c.transfer r).actual_length ≤ (c.transfer r).requested_length

-- If the actual length of every transfer is at most its requested length, then this still holds
-- after a completion with any arguments.
pub complete-IsWithin :
    (transfer : Option ℕ) (status : ℤ) (actual : ℕ) (c : Channel)
    → IsWithin c
    → IsWithin (complete transfer status actual c).1
unfolding complete
complete-IsWithin none status actual c h r = h r
complete-IsWithin (some x) status actual c h r = ground (arith, h r, h x)

pub cancel-IsWithin :
    (transfer : Option ℕ) (status : ℤ) (c : Channel)
    → IsWithin c
    → IsWithin (cancel transfer status c).1
unfolding cancel
cancel-IsWithin none status c h r = h r
cancel-IsWithin (some x) status c h r = ground (arith, h r, h x)

-- After a cancellation that succeeds, a completion, a second cancellation and a queueing of the
-- transfer are all refused and change nothing.
pub ended_once :
    (r : ℕ) (s s' : ℤ) (actual : ℕ) (c : Channel)
    → (cancel (some r) s c).0 ≡ success
    → (complete (some r) s' actual (cancel (some r) s c).1 ≡ (einval, (cancel (some r) s c).1))
      × (cancel (some r) s' (cancel (some r) s c).1 ≡ (einval, (cancel (some r) s c).1))
      × (mark_queued (some r) (cancel (some r) s c).1 ≡ (einval, (cancel (some r) s c).1))
unfolding cancel complete mark_queued
ended_once r s s' actual c h = ground arith
