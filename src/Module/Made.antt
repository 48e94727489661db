-- ===== src/Module/Made.antt =====
-- What a step of the module's set-up makes of a controller.
use virt_usb.Prelude.{ℕ, ◌≡◌, arith, refl, ap, ◌∙◌, Bool, List, ◌∷◌}
use virt_usb.Topology.{Topology}
use virt_usb.Module.Driver.{Resource, Driver, Instance, asked, release, set_controller}
use virt_usb.Module.Platform.{set_topology}
use virt_usb.Module.Frame.{
  Frame, Frame-trans, set_controller-Frame, release-Frame, release_held, Left,
}

-- What a step makes of the controller `i`, with `xs` held after it.
pub record Made (i : ℕ) (xs : List Resource) (bound active : Bool) (d e : Driver) : Type 0 where
  pub held : e.held ≡ xs
  pub is_bound : (e.controllers i).bound ≡ bound
  pub is_active : (e.controllers i).active ≡ active
  pub frame : Frame i d e

pub made_none :
    (i : ℕ) (b a : Bool) (d : Driver)
    → (d.controllers i).bound ≡ b
    → (d.controllers i).active ≡ a
    → Made i d.held b a d d
made_none i b a d h k = record {
  held = refl;
  is_bound = h;
  is_active = k;
  frame = record {
    hcds = refl;
    created_count = refl;
    has_class = refl;
    instance_count = refl;
    others = λ j ne. refl;
  };
}

module _ {i : ℕ} {xs : List Resource} {b a : Bool} {d e : Driver} where
  left_of :
      {ys : List Resource} {f : Driver} → Made i xs b a d e → Left i ys e f → Made i ys b a d f
  left_of m l = record {
    held = l.held;
    is_bound = ap (λ c. (c i).bound) l.controllers ∙ m.is_bound;
    is_active = ap (λ c. (c i).active) l.controllers ∙ m.is_active;
    frame = Frame-trans m.frame l.frame;
  }

  pub made_acquired :
      {r : Resource} {f : Driver}
      → Made i xs b a d e
      → Left i (r ∷ e.held) e f
      → Made i (r ∷ xs) b a d f
  made_acquired {r = r} m l = left_of m (record {
    held = l.held ∙ ap (λ ys. r ∷ ys) m.held;
    controllers = l.controllers;
    frame = l.frame;
  })

  pub made_missed : {f : Driver} → Made i xs b a d e → Left i e.held e f → Made i xs b a d f
  made_missed m l =
      left_of m (record { held = l.held ∙ m.held; controllers = l.controllers; frame = l.frame })

  pub made_set :
      (v : Instance) {b' a' : Bool}
      → Made i xs b a d e
      → v.bound ≡ b'
      → v.active ≡ a'
      → Made i xs b' a' d (set_controller i v e)
  unfolding set_controller
  made_set v m bound active = record {
    held = m.held;
    is_bound = ground (arith, bound);
    is_active = ground (arith, active);
    frame = Frame-trans m.frame (set_controller-Frame i v e);
  }

  pub made_topology : (t : Topology) → Made i xs b a d e → Made i xs b a d (set_topology t e)
  unfolding set_topology
  made_topology t m = record {
    held = m.held;
    is_bound = m.is_bound;
    is_active = m.is_active;
    frame = Frame-trans m.frame (record {
      hcds = refl;
      created_count = refl;
      has_class = refl;
      instance_count = refl;
      others = λ j h. refl;
    });
  }

-- The members that no step of a controller reads.
pub made_polled :
    {i : ℕ} {xs : List Resource} {b a : Bool} {d e : Driver} (calls : List ℕ)
    → Made i xs b a d e
    → Made i xs b a d (record e { polled = calls })
made_polled calls m = record {
  held = m.held;
  is_bound = m.is_bound;
  is_active = m.is_active;
  frame = record {
    hcds = m.frame.hcds;
    created_count = m.frame.created_count;
    has_class = m.frame.has_class;
    instance_count = m.frame.instance_count;
    others = m.frame.others;
  };
}

pub made_asked :
    {i : ℕ} {xs : List Resource} {b a : Bool} {d e : Driver}
    → Made i xs b a d e
    → Made i xs b a d (asked e)
made_asked m = record {
  held = m.held;
  is_bound = m.is_bound;
  is_active = m.is_active;
  frame = record {
    hcds = m.frame.hcds;
    created_count = m.frame.created_count;
    has_class = m.frame.has_class;
    instance_count = m.frame.instance_count;
    others = m.frame.others;
  };
}

pub made_release :
    {i : ℕ} {xs : List Resource} {b a : Bool} {d e : Driver} (r : Resource)
    → Made i (r ∷ xs) b a d e
    → Made i xs b a d (release r e)
unfolding release
made_release {i = i} {xs = xs} {e = e} r m = record {
  held = release_held r xs e m.held;
  is_bound = m.is_bound;
  is_active = m.is_active;
  frame = Frame-trans m.frame (release-Frame i r e);
}
