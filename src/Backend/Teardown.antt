-- ===== src/Backend/Teardown.antt =====
-- The loops of kernel/src/virtusb_backend.c that empty the queues, on fuel.
use virt_usb.Prelude.{
  ℕ, zero, suc, ◌+◌, ◌<◌, true, Option, none, some, List, [], ◌∷◌, ◌≡◌, refl, arith, length,
  Option-cases, inl, inr, subst, eshutdown,
}
use virt_usb.Channel.{Request, Binding, Channel, unlinked, woken, call}
use virt_usb.Object.Refs
use virt_usb.Backend.Queue.{take_owner, is_device, is_owned_device}
use virt_usb.Backend.Stop.{
  take_released, shut_down, release_requests, release_owner, take_any, stop_requests, drop_bindings,
  stop,
}
use virt_usb.Backend.Accounting.{
  count_linked, count_given_back, count_queued, IsBalanced, take_first-Taken, Given, abort-Given,
  Lacks,
}

pub shut_down-Given :
    (u : ℕ) (r : Request) (c : Channel) → Given u (count_queued u (r ∷ [])) c (shut_down r c)
unfolding shut_down count_linked count_given_back
shut_down-Given u r c = ground (arith, abort-Given u r eshutdown (call (unlinked r.urb) c))

pub take_released-Lacks :
    (u device owner : ℕ) (c : Channel) → Lacks u c (take_released device owner c)
unfolding take_released
take_released-Lacks u device owner c = ground (
  arith,
  take_first-Taken u (is_device c device) c.pending,
  take_first-Taken u (is_owned_device c device owner) c.active,
)

pub take_any-Lacks : (u : ℕ) (c : Channel) → Lacks u c (take_any c)
unfolding take_any count_queued
take_any-Lacks u c = ground arith

pub take_one-IsBalanced :
    (u : ℕ) (c d : Channel) (r : Request)
    → Lacks u c (some (r, d))
    → IsBalanced u c
    → IsBalanced u (shut_down r d)
take_one-IsBalanced u c d r l h = ground (arith, shut_down-Given u r d)

pub release_requests-IsBalanced :
    (u fuel device owner : ℕ) (c d : Channel)
    → release_requests fuel device owner c ≡ some d
    → IsBalanced u c
    → IsBalanced u d
unfolding release_requests
release_requests-IsBalanced u zero device owner c d e h = cc
release_requests-IsBalanced u (suc fuel) device owner c d e h =
    elim (Option-cases (take_released device owner c)) [
      | inl f ↦ ground (arith, f)
      | inr ((r, c'), f) ↦
          release_requests-IsBalanced u fuel device owner (shut_down r c') d (ground (arith, f)) (
            take_one-IsBalanced u c c' r
              (subst (Lacks u c) f (take_released-Lacks u device owner c)) h)
    ]

pub stop_requests-IsBalanced :
    (u fuel : ℕ) (c d : Channel) → stop_requests fuel c ≡ some d → IsBalanced u c → IsBalanced u d
unfolding stop_requests
stop_requests-IsBalanced u zero c d e h = cc
stop_requests-IsBalanced u (suc fuel) c d e h = elim (Option-cases (take_any c)) [
  | inl f ↦ ground (arith, f)
  | inr ((r, c'), f) ↦
      stop_requests-IsBalanced u fuel (shut_down r c') d (ground (arith, f))
        (take_one-IsBalanced u c c' r (subst (Lacks u c) f (take_any-Lacks u c)) h)
]

pub drop_bindings-IsBalanced :
    (u : ℕ) (bs : List Binding) (c : Channel) → IsBalanced u c → IsBalanced u (drop_bindings bs c)
unfolding drop_bindings
drop_bindings-IsBalanced u [] c h = h
drop_bindings-IsBalanced u (b ∷ bs) c h =
    drop_bindings-IsBalanced u bs
      (record c { bindings = bs; objects = Refs.put (some b.device) c.objects }) h

pub release_owner-IsBalanced :
    (u fuel : ℕ) (owner : Option ℕ) (c d : Channel)
    → release_owner fuel owner c ≡ some d
    → IsBalanced u c
    → IsBalanced u d
unfolding release_owner count_linked count_given_back
release_owner-IsBalanced u fuel none c d e h = ground arith
release_owner-IsBalanced u fuel (some owner) c d e h =
    elim (Option-cases (take_owner owner c.bindings)) [
      | inl f ↦ ground (arith, f)
      | inr ((b, rest), f) ↦
          let unbound = record c { bindings = rest } in
          elim (Option-cases (release_requests fuel b.device owner unbound)) [
            | inl g ↦ ground (arith, f, g)
            | inr (c', g) ↦
                ground
                  (arith, f, g, release_requests-IsBalanced u fuel b.device owner unbound c' g h)
          ]
    ]

pub stop-IsBalanced :
    (u fuel : ℕ) (c d : Channel) → stop fuel c ≡ some d → IsBalanced u c → IsBalanced u d
unfolding stop count_linked count_given_back
stop-IsBalanced u fuel c d e h =
    let stopping = call woken (record c { stopping = true }) in
    elim (Option-cases (stop_requests fuel stopping)) [
      | inl g ↦ ground (arith, g)
      | inr (c', g) ↦ ground (
        arith,
        g,
        drop_bindings-IsBalanced u c'.bindings c' (stop_requests-IsBalanced u fuel stopping c' g h),
      )
    ]

-- A round takes one request, so there are as many rounds as requests.
abbrev pub size : Channel → ℕ
size c = length c.pending + length c.active

size-shut_down : (r : Request) (c : Channel) → size (shut_down r c) ≡ size c
size-shut_down r c = ground (arith, shut_down-Given 0 r c)

size-taken : (u : ℕ) (c d : Channel) (r : Request) → Lacks u c (some (r, d)) → size c ≡ suc (size d)
size-taken u c d r l = omega arith

take_any_lem : (c : Channel) → take_any c ≡ none → (c.pending ≡ []) × (c.active ≡ [])
unfolding take_any
take_any_lem c e = ground arith

pub stop_requests_total :
    (fuel : ℕ) (c : Channel)
    → size c < fuel
    → (d : Channel) × (stop_requests fuel c ≡ some d)
      × (d.pending ≡ [])
      × (d.active ≡ [])
      × (d.stopping ≡ c.stopping)
unfolding stop_requests
stop_requests_total zero c h = absurd (omega arith)
stop_requests_total (suc fuel) c h = elim (Option-cases (take_any c)) [
  | inl f ↦ (c, ground (arith, f), (take_any_lem c f).0, (take_any_lem c f).1, refl)
  | inr ((r, c'), f) ↦
      let taken = subst (Lacks 0 c) f (take_any-Lacks 0 c) in
      let less = size-taken 0 c c' r taken in
      let (d, e, p, a, s) =
        stop_requests_total fuel (shut_down r c') (omega (arith, size-shut_down r c')) in
      (d, ground (arith, f, e), p, a, ground (arith, s, taken, shut_down-Given 0 r c'))
]

-- With more rounds than there are queued requests, the loop that releases an owner's requests
-- returns, and no request that it would release is left.
pub release_requests_total :
    (fuel device owner : ℕ) (c : Channel)
    → size c < fuel
    → (d : Channel) × (release_requests fuel device owner c ≡ some d)
      × (take_released device owner d ≡ none)
unfolding release_requests
release_requests_total zero device owner c h = absurd (omega arith)
release_requests_total (suc fuel) device owner c h =
    elim (Option-cases (take_released device owner c)) [
      | inl f ↦ (c, ground (arith, f), f)
      | inr ((r, c'), f) ↦
          let less =
            size-taken 0 c c' r (subst (Lacks 0 c) f (take_released-Lacks 0 device owner c)) in
          let (d, e, p) =
            release_requests_total fuel device owner (shut_down r c')
              (omega (arith, size-shut_down r c')) in
          (d, ground (arith, f, e), p)
    ]

drop_bindings_empties :
    (bs : List Binding) (c : Channel)
    → ((drop_bindings bs c).bindings ≡ [])
      × ((drop_bindings bs c).pending ≡ c.pending)
      × ((drop_bindings bs c).active ≡ c.active)
      × ((drop_bindings bs c).stopping ≡ c.stopping)
unfolding drop_bindings
drop_bindings_empties [] c = ground arith
drop_bindings_empties (b ∷ bs) c =
    drop_bindings_empties bs
      (record c { bindings = bs; objects = Refs.put (some b.device) c.objects })

-- What is left after a stop.
pub record IsStopped (c : Channel) : Type 0 where
  pub no_bindings : c.bindings ≡ []
  pub no_pending : c.pending ≡ []
  pub no_active : c.active ≡ []
  pub refuses : c.stopping ≡ true

-- From any state of the backend, with more rounds than there are queued requests, a stop returns
-- and leaves no binding and no queued request, and the backend refuses work.
pub stop_total :
    (fuel : ℕ) (c : Channel)
    → length c.pending + length c.active < fuel
    → (d : Channel) × (stop fuel c ≡ some d) × IsStopped d
unfolding stop
stop_total fuel c h =
    let stopping = call woken (record c { stopping = true }) in
    let (c', e, p, a, s) = stop_requests_total fuel stopping h in
    let emptied = drop_bindings_empties c'.bindings c' in
    (drop_bindings c'.bindings c', ground (arith, e), ground (arith, emptied, p, a, s))
