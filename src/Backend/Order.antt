-- ===== src/Backend/Order.antt =====
-- The order in which kernel/src/virtusb_backend.c serves transfers.
use virt_usb.Prelude.{
  ℕ, Bool, true, none, some, List, [], ◌∷◌, ◌++◌, ◌+◌, ◌≡◌, ◌≢◌, inl, inr, refl, ap, ◌∙◌, arith,
  success, Bool-cases, Option-cases, fun_ext,
}
use virt_usb.Channel.{Request, Binding, Channel, set_transfer, call, woken}
use virt_usb.Transfer
use virt_usb.Backend.Queue.{find_owner, take_first, is_device, is_owned_id}
use virt_usb.Backend.Serve.{fetch_round, fetch_rollback, moved}

-- Where a list is cut at its first match.
pub record Cut (test : Request → Bool) (rs : List Request) (r : Request) (rest : List Request)
    : Type 0 where
  pub before : List Request
  pub behind : List Request
  pub whole : rs ≡ before ++ r ∷ behind
  pub others : rest ≡ before ++ behind
  pub first : take_first test before ≡ none
  pub match : test r ≡ true

take_first-Cut :
    (test : Request → Bool) (rs : List Request) (r : Request) (rest : List Request)
    → take_first test rs ≡ some (r, rest)
    → Cut test rs r rest
unfolding take_first
take_first-Cut test [] r rest e = absurd (ground (arith, e))
take_first-Cut test (x ∷ rs) r rest e = elim (Bool-cases (test x)) [
  | inl t ↦ record {
    before = [];
    behind = rs;
    whole = ground (arith, e, t);
    others = ground (arith, e, t);
    first = refl;
    match = ground (arith, e, t);
  }
  | inr f ↦ elim (Option-cases (take_first test rs)) [
    | inl n ↦ absurd (ground (arith, e, f, n))
    | inr ((r', rest'), s) ↦
        let cut = take_first-Cut test rs r' rest' s in
        let same : (r ≡ r') × (rest ≡ x ∷ rest') = ground (arith, e, f, s) in
        record {
          before = x ∷ cut.before;
          behind = cut.behind;
          whole = ground (arith, cut.whole, same);
          others = ground (arith, cut.others, same);
          first = ground (arith, cut.first, f);
          match = ground (arith, cut.match, same);
        }
  ]
]

-- A match behind a list without one is found.
take_first_last :
    (test : Request → Bool) (rs : List Request) (r : Request)
    → take_first test rs ≡ none
    → test r ≡ true
    → take_first test (rs ++ r ∷ []) ≡ some (r, rs)
unfolding take_first
take_first_last test [] r e t = ground (arith, t)
take_first_last test (x ∷ rs) r e t = elim (Bool-cases (test x)) [
  | inl f ↦ absurd (ground (arith, e, f))
  | inr f ↦ ground (arith, e, f, take_first_last test rs r, t, Option-cases (take_first test rs))
]

-- If a round of a fetch moves a request, then the owner has a binding, the request is the first
-- of the pending queue for the bound device, the pending queue keeps all others in their order,
-- the request is appended to the active queue with the caller as its owner, and its transfer has
-- one more reference.
pub fetch_round_oldest :
    (owner : ℕ) (c c' : Channel) (r : Request)
    → fetch_round owner c ≡ moved r c'
    → (b : Binding) × (find_owner owner c.bindings ≡ some b)
      × Cut (is_device c b.device) c.pending r c'.pending
      × (c'.active ≡ c.active ++ record r { owner = some owner } ∷ [])
      × ((c'.transfer r.transfer).refcount ≡ (c.transfer r.transfer).refcount + 1)
unfolding fetch_round Transfer.get set_transfer
fetch_round_oldest owner c c' r e = elim (Option-cases (find_owner owner c.bindings)) [
  | inl f ↦ absurd (ground (arith, e, f))
  | inr (b, f) ↦ elim (Option-cases (take_first (is_device c b.device) c.pending)) [
    | inl g ↦ absurd (ground (arith, e, f, g))
    | inr ((r', rest), g) ↦
        let found : take_first (is_device c b.device) c.pending ≡ some (r, c'.pending) =
          ground (arith, e, f, g) in
        (
          b,
          f,
          take_first-Cut (is_device c b.device) c.pending r c'.pending found,
          ground (arith, e, f, g),
          ground (arith, e, f, g),
        )
  ]
]

-- A fetch changes no ID, no device and no binding.
fetch_round_same :
    (owner : ℕ) (c c' : Channel) (r : Request)
    → fetch_round owner c ≡ moved r c'
    → ((k : ℕ)
        → ((c'.transfer k).id ≡ (c.transfer k).id)
          × ((c'.transfer k).device ≡ (c.transfer k).device))
      × (c'.bindings ≡ c.bindings)
unfolding fetch_round Transfer.get set_transfer
fetch_round_same owner c c' r e = elim (Option-cases (find_owner owner c.bindings)) [
  | inl f ↦ absurd (ground (arith, e, f))
  | inr (b, f) ↦ elim (Option-cases (take_first (is_device c b.device) c.pending)) [
    | inl g ↦ absurd (ground (arith, e, f, g))
    | inr ((r', rest), g) ↦ (λ k. ground (arith, e, f, g), ground (arith, e, f, g))
  ]
]

take_first_same :
    (f g : Request → Bool) (rs : List Request)
    → ((x : Request) → f x ≡ g x)
    → take_first f rs ≡ take_first g rs
take_first_same f g rs e = ap (λ t. take_first t rs) (fun_ext e)

-- A request put back in front is the next one to be fetched.
next_fetch :
    (owner : ℕ) (c c' : Channel) (r : Request) (b : Binding)
    → find_owner owner c.bindings ≡ some b
    → c'.bindings ≡ c.bindings
    → ((k : ℕ)
        → ((c'.transfer k).id ≡ (c.transfer k).id)
          × ((c'.transfer k).device ≡ (c.transfer k).device))
    → is_device c b.device r ≡ true
    → (e : Channel) × (fetch_round owner (
          call woken
            (record c' { active = c.active; pending = record r { owner = none } ∷ c'.pending }))
        ≡ moved (record r { owner = none }) e)
unfolding fetch_round take_first
next_fetch owner c c' r b f s t m =
    let f' : find_owner owner c'.bindings ≡ some b = ap (find_owner owner) s ∙ f in
    let m' : is_device c' b.device r ≡ true = ground (arith, m, t r.transfer) in
    let back =
      call woken
        (record c' { active = c.active; pending = record r { owner = none } ∷ c'.pending }) in
    (
      Transfer.get (some r.transfer) (record back {
        pending = c'.pending;
        active = c.active ++ record r { owner = some owner } ∷ [];
      }),
      rw (f', m', fetch_round, take_first) refl,
    )

-- If a round of a fetch moves a request whose transfer ID is not 0, and no request of this owner
-- with this ID was active before, then rolling the fetch back with that ID succeeds, the active
-- queue is as it was before, the request stands at the head of the pending queue without an
-- owner, and the next round moves this request again.
pub rollback-fetch_round :
    (owner : ℕ) (c c' : Channel) (r : Request)
    → fetch_round owner c ≡ moved r c'
    → (c.transfer r.transfer).id ≢ 0
    → take_first (is_owned_id c owner (c.transfer r.transfer).id) c.active ≡ none
    → (d : Channel) × (fetch_rollback (some owner) (c.transfer r.transfer).id c' ≡ (success, d))
      × (d.active ≡ c.active)
      × (d.pending ≡ record r { owner = none } ∷ c'.pending)
      × ((e : Channel) × (fetch_round owner d ≡ moved (record r { owner = none }) e))
unfolding fetch_rollback
rollback-fetch_round owner c c' r e z a =
    let id = (c.transfer r.transfer).id in
    let (b, bound, cut, active, count) = fetch_round_oldest owner c c' r e in
    let (same, bindings) = fetch_round_same owner c c' r e in
    let mine = record r { owner = some owner } in
    let d =
      call woken
        (record c' { active = c.active; pending = record r { owner = none } ∷ c'.pending }) in
    let unseen : take_first (is_owned_id c' owner id) c.active ≡ none =
      take_first_same (is_owned_id c' owner id) (is_owned_id c owner id) c.active
        (λ x. ground (arith, same x.transfer))
      ∙ a in
    let last =
      take_first_last (is_owned_id c' owner id) c.active mine unseen
        (ground (arith, same r.transfer)) in
    let found : take_first (is_owned_id c' owner id) c'.active ≡ some (mine, c.active) =
      ap (take_first (is_owned_id c' owner id)) active ∙ last in
    (
      d,
      ground (arith, found, z),
      refl,
      refl,
      next_fetch owner c c' r b bound bindings same cut.match,
    )
