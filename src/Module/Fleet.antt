-- ===== src/Module/Fleet.antt =====
-- The loops over the controllers of the module: what they hold, and which of them are up.
use virt_usb.Prelude.{
  ℕ, zero, suc, ◌+◌, ◌≡◌, ◌≢◌, ◌<◌, ◌≤◌, arith, refl, ap, sym, ◌∙◌, Bool, true, false, none, some,
  List, ◌∷◌, length, get_or, set, get_or-set_self, get_or-set_ne, length-set, ℕ_discrete,
}
use virt_usb.Module.Driver.{Resource, Driver, release}
use virt_usb.Module.Frame.{Left, release_held}
use virt_usb.Module.Made.{Made}
use virt_usb.Module.Removal.{parts}

-- What the first `n` controllers hold, on top of `xs`.
abbrev pub all_parts : ℕ → List Resource → List Resource
all_parts zero xs = xs
all_parts (suc n) xs = parts n (all_parts n xs)

-- The module with its first `n` controllers up, the others down, `xs` held besides, and an array of
-- `total` controllers; `class` is whether the class is there.
pub record Fleet (xs : List Resource) (class : Bool) (n total : ℕ) (d : Driver) : Type 0 where
  pub held : d.held ≡ all_parts n xs
  pub count : d.created_count ≡ n
  pub has_class : d.has_class ≡ class
  pub size : length d.hcds ≡ total
  pub stored : (i : ℕ) → i < n → get_or d.hcds i none ≡ some i
  pub up : (i : ℕ) → i < n → ((d.controllers i).bound ≡ true) × ((d.controllers i).active ≡ true)
  pub down :
      (i : ℕ) → n ≤ i → ((d.controllers i).bound ≡ false) × ((d.controllers i).active ≡ false)

pub made_here :
    (i : ℕ) (xs : List Resource) (b a : Bool) (d : Driver)
    → d.held ≡ xs
    → (d.controllers i).bound ≡ b
    → (d.controllers i).active ≡ a
    → Made i xs b a d d
made_here i xs b a d e h k = record {
  held = e;
  is_bound = h;
  is_active = k;
  frame = record {
    hcds = refl;
    created_count = refl;
    has_class = refl;
    instance_count = refl;
    others = λ j ne. refl;
  };
}

abbrev pub with_new : Driver → ℕ → Driver
with_new e n = record e { hcds = set e.hcds n (some n); created_count = e.created_count + 1 }

module _ (xs : List Resource) (c : Bool) (total : ℕ) where
  -- One controller more.
  pub grown :
      (n : ℕ) (d e : Driver)
      → Fleet xs c n total d
      → n < total
      → Made n (parts n (all_parts n xs)) true true d e
      → Fleet xs c
          (suc n)
          total
          (record e { hcds = set e.hcds n (some n); created_count = e.created_count + 1 })
  grown n d e f h m = record {
    held = m.held;
    count = omega (arith, m.frame.created_count, f.count);
    has_class = m.frame.has_class ∙ f.has_class;
    size = length-set e.hcds n (some n) ∙ ap length m.frame.hcds ∙ f.size;
    stored = λ i q. elim (ℕ_discrete n i) [
      | yes is ↦ stored_self i is
      | no ne ↦
          get_or-set_ne e.hcds n i (some n) none ne
          ∙ ap (λ l. get_or l i none) m.frame.hcds
          ∙ f.stored i (omega arith)
    ];
    up = λ i q. elim (ℕ_discrete n i) [
      | yes is ↦ up_self i is
      | no ne ↦ up_other i (λ is. ne (sym is)) (f.up i (omega arith))
    ];
    down = λ i q. down_other i (λ is. omega arith) (f.down i (omega arith));
  }
    where
      stored_self : (i : ℕ) → n ≡ i → get_or (set e.hcds n (some n)) i none ≡ some i
      stored_self i is =
          ap (λ k. get_or (set e.hcds n (some n)) k none) (sym is)
          ∙ get_or-set_self e.hcds n (some n) none (omega (arith, ap length m.frame.hcds, f.size))
          ∙ ap some is

      up_self :
          (i : ℕ) → n ≡ i → ((e.controllers i).bound ≡ true) × ((e.controllers i).active ≡ true)
      up_self i is = rw (sym is) (m.is_bound, m.is_active)

      up_other :
          (i : ℕ)
          → i ≢ n
          → ((d.controllers i).bound ≡ true) × ((d.controllers i).active ≡ true)
          → ((e.controllers i).bound ≡ true) × ((e.controllers i).active ≡ true)
      up_other i ne h = rw (m.frame.others i ne) h

      down_other :
          (i : ℕ)
          → i ≢ n
          → ((d.controllers i).bound ≡ false) × ((d.controllers i).active ≡ false)
          → ((e.controllers i).bound ≡ false) × ((e.controllers i).active ≡ false)
      down_other i ne h = rw (m.frame.others i ne) h

  -- A controller that could not be created leaves the others.
  pub kept :
      (n : ℕ) (d e : Driver)
      → Fleet xs c n total d
      → n < total
      → Made n (all_parts n xs) false false d e
      → Fleet xs c n total (record e { hcds = set e.hcds n none })
  kept n d e f h m = record {
    held = m.held;
    count = m.frame.created_count ∙ f.count;
    has_class = m.frame.has_class ∙ f.has_class;
    size = length-set e.hcds n none ∙ ap length m.frame.hcds ∙ f.size;
    stored = λ i q.
        get_or-set_ne e.hcds n i none none (λ is. omega arith)
        ∙ ap (λ l. get_or l i none) m.frame.hcds
        ∙ f.stored i q;
    up = λ i q. rw (m.frame.others i (λ is. omega arith)) (f.up i q);
    down = λ i q. elim (ℕ_discrete n i) [
      | yes is ↦ down_self i is
      | no ne ↦ down_other i (λ is. ne (sym is)) (f.down i q)
    ];
  }
    where
      down_self :
          (i : ℕ) → n ≡ i → ((e.controllers i).bound ≡ false) × ((e.controllers i).active ≡ false)
      down_self i is = rw (sym is) (m.is_bound, m.is_active)

      down_other :
          (i : ℕ)
          → i ≢ n
          → ((d.controllers i).bound ≡ false) × ((d.controllers i).active ≡ false)
          → ((e.controllers i).bound ≡ false) × ((e.controllers i).active ≡ false)
      down_other i ne h = rw (m.frame.others i ne) h

  -- The last controller is destroyed.
  pub shrunk :
      (n : ℕ) (d e : Driver)
      → Fleet xs c (suc n) total d
      → Made n (all_parts n xs) false false (record d { created_count = n }) e
      → Fleet xs c n total (record e { hcds = set e.hcds n none })
  shrunk n d e f m = record {
    held = m.held;
    count = m.frame.created_count;
    has_class = m.frame.has_class ∙ f.has_class;
    size = length-set e.hcds n none ∙ ap length m.frame.hcds ∙ f.size;
    stored = λ i q.
        get_or-set_ne e.hcds n i none none (λ is. omega arith)
        ∙ ap (λ l. get_or l i none) m.frame.hcds
        ∙ f.stored i (omega arith);
    up = λ i q. rw (m.frame.others i (λ is. omega arith)) (f.up i (omega arith));
    down = λ i q. elim (ℕ_discrete n i) [
      | yes is ↦ down_self i is
      | no ne ↦ down_other i (λ is. ne (sym is)) (f.down i (omega arith))
    ];
  }
    where
      down_self :
          (i : ℕ) → n ≡ i → ((e.controllers i).bound ≡ false) × ((e.controllers i).active ≡ false)
      down_self i is = rw (sym is) (m.is_bound, m.is_active)

      down_other :
          (i : ℕ)
          → i ≢ n
          → ((d.controllers i).bound ≡ false) × ((d.controllers i).active ≡ false)
          → ((e.controllers i).bound ≡ false) × ((e.controllers i).active ≡ false)
      down_other i ne h = rw (m.frame.others i ne) h

  pub fleet_left :
      (r : Resource) (d e : Driver)
      → Fleet xs c 0 total d
      → Left 0 (r ∷ d.held) d e
      → Fleet (r ∷ xs) c 0 total e
  fleet_left r d e f l = record {
    held = l.held ∙ ap (λ ys. r ∷ ys) f.held;
    count = l.frame.created_count ∙ f.count;
    has_class = l.frame.has_class ∙ f.has_class;
    size = ap length l.frame.hcds ∙ f.size;
    stored = λ i q. absurd (omega arith);
    up = λ i q. absurd (omega arith);
    down = λ i q. rw l.controllers (f.down i q);
  }

  pub fleet_missed :
      (d e : Driver) → Fleet xs c 0 total d → Left 0 d.held d e → Fleet xs c 0 total e
  fleet_missed d e f l = record {
    held = l.held ∙ f.held;
    count = l.frame.created_count ∙ f.count;
    has_class = l.frame.has_class ∙ f.has_class;
    size = ap length l.frame.hcds ∙ f.size;
    stored = λ i q. absurd (omega arith);
    up = λ i q. absurd (omega arith);
    down = λ i q. rw l.controllers (f.down i q);
  }

  pub fleet_release :
      (r : Resource) (d : Driver) → Fleet (r ∷ xs) c 0 total d → Fleet xs c 0 total (release r d)
  unfolding release
  fleet_release r d f = record {
    held = release_held r xs d f.held;
    count = f.count;
    has_class = f.has_class;
    size = f.size;
    stored = f.stored;
    up = f.up;
    down = f.down;
  }
