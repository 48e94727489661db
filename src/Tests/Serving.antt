-- ===== src/Tests/Serving.antt =====
-- The theorems of the backend and of the transfers at concrete inputs.
use virt_usb.Prelude.{
  ℕ, ◌+◌, ◌≤◌, true, false, none, some, [], ◌∷◌, ◌++◌, ◌≡◌, ◌↔◌, ◌⊎◌, refl, arith, ℤ, success,
  einval, einprogress, length, replicate,
}
use virt_usb.Channel.{Transfer, new, queued, completed, Request, Binding, Channel}
use virt_usb.Transfer
use virt_usb.Transfer.Laws.{
  complete_result, complete_state, ended_once, IsWithin, complete-IsWithin,
}
use virt_usb.Backend.Queue.{init, find_owner, take_first, is_device, is_owned_id}
use virt_usb.Backend.Submit.{register, submit, cancel}
use virt_usb.Backend.Serve.{fetch_round, fetch_rollback, moved}
use virt_usb.Backend.Stop.{stop, release_requests, take_released}
use virt_usb.Backend.Accounting.{count_linked, count_given_back, IsBalanced}
use virt_usb.Backend.Teardown.{IsStopped, stop_total, release_requests_total}
use virt_usb.Backend.Lifecycle.{
  Reach, here, next, registers, submits, cancels, Reach-IsBalanced, stop_gives_all_back,
}
use virt_usb.Backend.Order.{Cut, fetch_round_oldest, rollback-fetch_round}
use virt_usb.Tests.Words.{one_object}
use virt_usb.Backend.Submit.{register_error}
use virt_usb.Backend.Queue.{find_device}
use virt_usb.Prelude.{inl, ◌==◌}
use virt_usb.Tests.Sample.{sample_urb}
use virt_usb.Backend.Bindings.{register-find_owner}
use virt_usb.Backend.Serve.{Completion, finish, copy_in, copy_bytes, copy_into, bytes_of}
use virt_usb.Backend.Delivery.{IsDeliverable, finish_delivers}
use virt_usb.Channel.{memcpy, direction_in}
use virt_usb.Prelude.{if◌then◌else◌}

abbrev pub sample_transfer : Transfer
sample_transfer = record {
  refcount = 1;
  id = 9;
  device = 5;
  type = 2;
  direction = 0;
  state = new;
  endpoint = 1;
  has_setup = false;
  setup = replicate 8 0;
  buffer = some (1 ∷ 2 ∷ []);
  requested_length = 2;
  actual_length = 0;
  status = einprogress;
}

abbrev pub quiet : Channel
quiet = record {
  bindings = [];
  pending = [];
  active = [];
  stopping = false;
  transfer = λ _. sample_transfer;
  next_id = 9;
  next_transfer = 20;
  urb = λ _. sample_urb;
  objects = one_object;
  calls = [];
}

-- A device is bound, two URBs are submitted and one is cancelled.
abbrev served : Channel
served =
    (cancel (some 4) einval success
      (submit (some 4) (some 8) true success
        (submit (some 3) (some 7) true success
          (register (some 1) (some 5) true (init quiet)).1).1).1).1

served-Reach : Reach (init quiet) served
served-Reach =
    next
      (next
        (next (next here (registers (some 1) (some 5) true))
          (submits (some 3) (some 7) true success))
        (submits (some 4) (some 8) true success))
      (cancels (some 4) einval success)

Reach-IsBalanced_example : IsBalanced 3 served
Reach-IsBalanced_example = Reach-IsBalanced 3 quiet refl served-Reach

stop_gives_all_back_example :
    (e : Channel) × (stop (length served.pending + length served.active + 1) served ≡ some e)
    × IsStopped e
    × ((u : ℕ) → count_linked u e.calls ≡ count_given_back u e.calls)
stop_gives_all_back_example = stop_gives_all_back quiet served refl served-Reach

-- One bound device with two requests waiting.
abbrev waiting : Channel
waiting = record quiet {
  bindings = record { device = 5; owner = 1 } ∷ [];
  pending =
      record { urb = 3; transfer = 7; owner = none }
      ∷ record { urb = 4; transfer = 8; owner = none }
      ∷ [];
}

stop_total_example : (d : Channel) × (stop 3 waiting ≡ some d) × IsStopped d
stop_total_example = stop_total 3 waiting (omega arith)

release_requests_total_example :
    (d : Channel) × (release_requests 3 5 1 waiting ≡ some d) × (take_released 5 1 d ≡ none)
release_requests_total_example = release_requests_total 3 5 1 waiting (omega arith)

-- The oldest of the waiting requests.
abbrev oldest : Request
oldest = record { urb = 3; transfer = 7; owner = none }

abbrev after_fetch : Channel
after_fetch = Transfer.get (some 7) (record waiting {
  pending = record { urb = 4; transfer = 8; owner = none } ∷ [];
  active = record { urb = 3; transfer = 7; owner = some 1 } ∷ [];
})

oldest_moves : fetch_round 1 waiting ≡ moved oldest after_fetch
unfolding fetch_round find_owner take_first
oldest_moves = refl

nothing_active : take_first (is_owned_id waiting 1 9) waiting.active ≡ none
unfolding take_first
nothing_active = refl

fetch_round_oldest_example :
    (b : Binding) × (find_owner 1 waiting.bindings ≡ some b)
    × Cut (is_device waiting b.device) waiting.pending oldest after_fetch.pending
    × (after_fetch.active ≡ waiting.active ++ record oldest { owner = some 1 } ∷ [])
    × ((after_fetch.transfer 7).refcount ≡ (waiting.transfer 7).refcount + 1)
fetch_round_oldest_example = fetch_round_oldest 1 waiting after_fetch oldest oldest_moves

rollback-fetch_round_example :
    (d : Channel) × (fetch_rollback (some 1) 9 after_fetch ≡ (success, d))
    × (d.active ≡ [])
    × (d.pending ≡ oldest ∷ after_fetch.pending)
    × ((e : Channel) × (fetch_round 1 d ≡ moved oldest e))
rollback-fetch_round_example =
    rollback-fetch_round 1 waiting after_fetch oldest oldest_moves (λ e. ground (arith, e))
      nothing_active

complete_result_example : ((Transfer.complete (some 7) success 2 quiet).0 ≡ success) ↔ (
    ((quiet.transfer 7).state ≡ new ⊎ (quiet.transfer 7).state ≡ queued)
    × (2 ≤ (quiet.transfer 7).requested_length))
complete_result_example = complete_result 7 success 2 quiet

completes : (Transfer.complete (some 7) success 2 quiet).0 ≡ success
unfolding Transfer.complete
completes = refl

complete_state_example :
    (((Transfer.complete (some 7) success 2 quiet).1.transfer 7).state ≡ completed)
    × (((Transfer.complete (some 7) success 2 quiet).1.transfer 7).actual_length ≡ 2)
    × (((Transfer.complete (some 7) success 2 quiet).1.transfer 7).status ≡ success)
    × ((s : ℤ)
        → Transfer.cancel (some 7) s (Transfer.complete (some 7) success 2 quiet).1
          ≡ (einval, (Transfer.complete (some 7) success 2 quiet).1))
complete_state_example = complete_state 7 success 2 quiet completes

cancels_open : (Transfer.cancel (some 7) einval quiet).0 ≡ success
unfolding Transfer.cancel
cancels_open = refl

ended_once_example :
    (Transfer.complete (some 7) success 1 (Transfer.cancel (some 7) einval quiet).1
      ≡ (einval, (Transfer.cancel (some 7) einval quiet).1))
    × (Transfer.cancel (some 7) success (Transfer.cancel (some 7) einval quiet).1
        ≡ (einval, (Transfer.cancel (some 7) einval quiet).1))
    × (Transfer.mark_queued (some 7) (Transfer.cancel (some 7) einval quiet).1
        ≡ (einval, (Transfer.cancel (some 7) einval quiet).1))
ended_once_example = ended_once 7 einval success 1 quiet cancels_open

complete-IsWithin_example : IsWithin (Transfer.complete (some 7) success 2 quiet).1
complete-IsWithin_example = complete-IsWithin (some 7) success 2 quiet (λ r. omega arith)

registers_first : (register (some 1) (some 5) true quiet).0 ≡ success
unfolding register register_error find_owner find_device
registers_first = refl

register-find_owner_example :
    (find_owner 1 quiet.bindings ≡ none)
    × (find_device 5 quiet.bindings ≡ none)
    × ((o : ℕ)
        → find_owner o (register (some 1) (some 5) true quiet).1.bindings ≡ (
            if 1 == o
            then some (record { device = 5; owner = 1 })
            else find_owner o quiet.bindings))
    × ((d : ℕ)
        → find_device d (register (some 1) (some 5) true quiet).1.bindings ≡ (
            if 5 == d
            then some (record { device = 5; owner = 1 })
            else find_device d quiet.bindings))
register-find_owner_example = register-find_owner 1 5 true quiet registers_first

-- An IN transfer of two bytes, and its completion with one.
abbrev pub reading : Channel
reading = record quiet { transfer = λ _. record sample_transfer { direction = direction_in } }

abbrev one_byte : Completion
one_byte = record { transfer_id = 9; status = success; actual_length = 1; payload = 7 ∷ 0 ∷ [] }

one_byte-IsDeliverable : IsDeliverable oldest one_byte reading
one_byte-IsDeliverable = record {
  goes_in = refl;
  is_open = inl refl;
  fits_transfer = omega arith;
  fits_message = omega arith;
  fits_payload = omega arith;
  fits_buffer = omega arith;
  fits_urb = omega arith;
}

finish_delivers_example :
    (c' : Channel) × (finish oldest one_byte reading ≡ some (success, c'))
    × (bytes_of (c'.urb 3).transfer_buffer ≡ memcpy (1 ∷ 2 ∷ []) (7 ∷ 0 ∷ []) 1)
    × ((c'.urb 3).actual_length ≡ 1)
finish_delivers_example = finish_delivers oldest one_byte reading one_byte-IsDeliverable

-- The same completion where the URB's buffer is NULL.
unbuffered : Channel
unbuffered = record reading { urb = λ u. record (reading.urb u) { transfer_buffer = none } }

null_faults : finish oldest one_byte unbuffered ≡ none
unfolding unbuffered finish copy_in copy_bytes copy_into
null_faults = refl
