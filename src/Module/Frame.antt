-- ===== src/Module/Frame.antt =====
-- What each step of the module's set-up holds and leaves alone.
use virt_usb.Prelude.{
  ℕ, ◌≡◌, ◌≢◌, arith, refl, ap, ◌∙◌, true, List, ◌∷◌, if◌then◌else◌, ℤ, pos, negsuc, is_negative,
  success,
}
use virt_usb.Module.Driver.{
  Resource, same, Driver, Instance, next_answer, asked, acquire, given_back, release,
  set_controller,
}

-- The same array, class and numbers, and the same controllers but for `i`.
pub record Frame (i : ℕ) (d e : Driver) : Type 0 where
  pub hcds : e.hcds ≡ d.hcds
  pub created_count : e.created_count ≡ d.created_count
  pub has_class : e.has_class ≡ d.has_class
  pub instance_count : e.instance_count ≡ d.instance_count
  pub others : (j : ℕ) → j ≢ i → e.controllers j ≡ d.controllers j

pub Frame-trans : {i : ℕ} {d e f : Driver} → Frame i d e → Frame i e f → Frame i d f
Frame-trans a b = record {
  hcds = b.hcds ∙ a.hcds;
  created_count = b.created_count ∙ a.created_count;
  has_class = b.has_class ∙ a.has_class;
  instance_count = b.instance_count ∙ a.instance_count;
  others = λ j h. b.others j h ∙ a.others j h;
}

same_self : (r : Resource) → same r r ≡ true
same_self r = ground arith

pub given_back_self : (r : Resource) (xs : List Resource) → given_back r (r ∷ xs) ≡ xs
given_back_self r xs = ground (arith, same_self r)

-- A controller set.
pub set_controller_self :
    (i : ℕ) (v : Instance) (d : Driver) → (set_controller i v d).controllers i ≡ v
unfolding set_controller
set_controller_self i v d = ground arith

pub set_controller-Frame : (i : ℕ) (v : Instance) (d : Driver) → Frame i d (set_controller i v d)
unfolding set_controller
set_controller-Frame i v d = record {
  hcds = refl;
  created_count = refl;
  has_class = refl;
  instance_count = refl;
  others = λ j h. ground (arith, h);
}

pub asked-Frame : (i : ℕ) (d : Driver) → Frame i d (asked d)
asked-Frame i d = record {
  hcds = refl;
  created_count = refl;
  has_class = refl;
  instance_count = refl;
  others = λ j h. refl;
}

pub release-Frame : (i : ℕ) (r : Resource) (d : Driver) → Frame i d (release r d)
unfolding release
release-Frame i r d = record {
  hcds = refl;
  created_count = refl;
  has_class = refl;
  instance_count = refl;
  others = λ j h. refl;
}

pub release_held :
    (r : Resource) (xs : List Resource) (d : Driver) → d.held ≡ r ∷ xs → (release r d).held ≡ xs
unfolding release
release_held r xs d e = ap (given_back r) e ∙ given_back_self r xs

-- The outcomes of a step: 0 with a state of which `G` holds, or an error with one of which `B` holds.
pub data Outcome (G B : Driver → Type 0) : ℤ × Driver → Type 0 where
  done : (e : Driver) → G e → Outcome G B (success, e)
  refused : (n : ℕ) (e : Driver) → B e → Outcome G B (negsuc n, e)

-- A step, with what the code does with its error and after its success.
pub and_then {ℓ} :
    {G B : Driver → Type 0} {x : ℤ × Driver}
    → Outcome G B x
    → (P : ℤ × Driver → Type ℓ) → (f : ℤ → Driver → ℤ × Driver) (g : Driver → ℤ × Driver)
    → ((n : ℕ) (e : Driver) → B e → P (f (negsuc n) e))
    → ((e : Driver) → G e → P (g e))
    → P (if is_negative x.0 then f x.0 x.1 else g x.1)
and_then (done e h) P f g b a = a e h
and_then (refused n e h) P f g b a = b n e h

-- What a call leaves alone, with `xs` held after it.
pub record Left (i : ℕ) (xs : List Resource) (d e : Driver) : Type 0 where
  pub held : e.held ≡ xs
  pub controllers : e.controllers ≡ d.controllers
  pub frame : Frame i d e

pub acquired :
    (r : Resource) (i : ℕ) (d : Driver)
    → Outcome (Left i (r ∷ d.held) d) (Left i d.held d) (acquire r d)
unfolding acquire
acquired r i d = answered_by (next_answer d.answers)
  where
    answered_by :
        (ret : ℤ)
        → Outcome (Left i (r ∷ d.held) d) (Left i d.held d) (
            if is_negative ret
            then (ret, asked d)
            else (success, record (asked d) { held = r ∷ d.held }))
    answered_by (pos n) = done _ (record {
      held = refl;
      controllers = refl;
      frame = record {
        hcds = refl;
        created_count = refl;
        has_class = refl;
        instance_count = refl;
        others = λ j h. refl;
      };
    })
    answered_by (negsuc n) =
        refused n _ (record { held = refl; controllers = refl; frame = asked-Frame i d })
