-- ===== src/Ctl/Sound.antt =====
-- What the command line of tools/virtusbctl/main.c lets through.
use virt_usb.Prelude.{
  ℕ, ◌^◌, ◌≡◌, ◌<◌, arith, refl, subst, Bool, true, false, Option, some, none, List, [], ◌∷◌, inl,
  inr, ◌⊎◌, if◌then◌else◌, ◌==◌, ltb, ◌||◌, not,
}
use virt_usb.Text.{Bytes, codes, strtoul, Number, same_text}
use virt_usb.Ctl.Caps.{parse_speed_caps_bounds}
use virt_usb.Ctl.Parse.{
  number_read, parse_unsigned, parse_speed_caps, Action, show_status, power_port, create_device,
  destroy_device, attach_device, detach_device, connect_device, Line, run, complain, invalid, ended,
  read_status, read_power, read_port, read_port_command, read_object, read_create, read_force,
  read_attach, read_device, read_command, read_instance, read_line,
}
use virt_usb.Ctl.Words.{IsPort, IsObject, IsValid}

List-cases {ℓ} :
    {A : Type ℓ} (xs : List A) → (xs ≡ []) ⊎ ((x : A) × (rest : List A) × (xs ≡ x ∷ rest))
List-cases [] = inl refl
List-cases (x ∷ rest) = inr (x, rest, refl)

number_read_bound : (m : Number) (n : ℕ) → number_read m ≡ some n → n < 2 ^ 32
number_read_bound m n e = elim (List-cases m.rest) [
  | inl none_left ↦ ground arith
  | inr (c, cs, left) ↦ absurd (ground arith)
]

parse_unsigned_bound : (t : Bytes) (n : ℕ) → parse_unsigned t ≡ some n → n < 2 ^ 32
unfolding parse_unsigned
parse_unsigned_bound [] n e = absurd (ground arith)
parse_unsigned_bound (c ∷ cs) n e = number_read_bound (strtoul (c ∷ cs)) n e

-- A line that runs a valid action on an instance of 32 bits, or none.
abbrev IsSoundLine : Line → Type 0
IsSoundLine (run number action) = (number < 2 ^ 32) × IsValid action
IsSoundLine (complain text) = Unit

if_sound :
    (b : Bool) (x y : Line)
    → (b ≡ true → IsSoundLine x)
    → (b ≡ false → IsSoundLine y)
    → IsSoundLine (if b then x else y)
if_sound true x y f g = f refl
if_sound false x y f g = g refl

option_sound {ℓ} :
    {A : Type ℓ} (o : Option A) (x : Line) (f : A → Line)
    → IsSoundLine x
    → ((v : A) → o ≡ some v → IsSoundLine (f v))
    → IsSoundLine (elim o [ none ↦ x | some v ↦ f v ])
option_sound none x f g h = g
option_sound (some v) x f g h = h v refl

ended_sound :
    (program : Bytes) (line : Line) (rest : List Bytes)
    → IsSoundLine line
    → IsSoundLine (ended program line rest)
ended_sound program line [] h = h
ended_sound program line (a ∷ rest) h = tt

read_port_sound :
    (continue : ℕ → List Bytes → Line)
    → ((port : ℕ) (rest : List Bytes) → IsPort port → IsSoundLine (continue port rest))
    → (args : List Bytes) → IsSoundLine (read_port continue args)
unfolding read_port
read_port_sound continue f [] = tt
read_port_sound continue f (a ∷ rest) = option_sound (parse_unsigned a) _ _ tt (λ port e.
    if_sound (port == 0 || ltb 31 port) (invalid (codes "port")) (continue port rest) (λ q. tt)
      (λ q. f port rest (ground arith, ground arith)))

read_object_sound :
    (continue : ℕ → List Bytes → Line)
    → ((value : ℕ) (rest : List Bytes) → IsObject value → IsSoundLine (continue value rest))
    → (args : List Bytes) → IsSoundLine (read_object continue args)
unfolding read_object
read_object_sound continue f [] = tt
read_object_sound continue f (a ∷ rest) = option_sound (parse_unsigned a) _ _ tt (λ value e.
    if_sound (value == 0) (invalid (codes "object ID")) (continue value rest) (λ q. tt)
      (λ q. f value rest (ground arith, parse_unsigned_bound a value e)))

module _ (program : Bytes) (number : ℕ) (h : number < 2 ^ 32) where
  read_status_sound : (args : List Bytes) → IsSoundLine (read_status program number args)
  unfolding read_status
  read_status_sound [] = (h, omega arith)
  read_status_sound (a ∷ rest) = option_sound (parse_unsigned a) _ _ tt (λ port e.
      if_sound (ltb 31 port) _ _ (λ q. tt)
        (λ q. ended_sound program (run number (show_status port)) rest (h, ground arith)))

  read_power_sound :
      (port : ℕ) (args : List Bytes)
      → IsPort port
      → IsSoundLine (read_power program number port args)
  unfolding read_power
  read_power_sound port [] p = tt
  read_power_sound port (a ∷ rest) p =
      if_sound (same_text a (codes "on")) _ _
        (λ q. ended_sound program (run number (power_port port true)) rest (h, p))
        (λ q.
          if_sound (same_text a (codes "off")) _ _
            (λ r. ended_sound program (run number (power_port port false)) rest (h, p)) (λ r. tt))

  read_create_sound : (args : List Bytes) → IsSoundLine (read_create program number args)
  unfolding read_create
  read_create_sound [] = tt
  read_create_sound (a ∷ rest) = option_sound (parse_speed_caps a) _ _ tt (λ caps e.
      ended_sound program (run number (create_device caps)) rest
        (h, parse_speed_caps_bounds a caps e))

  read_force_sound :
      (value : ℕ) (args : List Bytes)
      → IsObject value
      → IsSoundLine (read_force program number value args)
  unfolding read_force
  read_force_sound value [] p = (h, p)
  read_force_sound value (a ∷ rest) p =
      if_sound (same_text a (codes "--force")) _ _
        (λ q. ended_sound program (run number (destroy_device value true)) rest (h, p)) (λ q. tt)

  read_device_sound : (args : List Bytes) → IsSoundLine (read_device program number args)
  unfolding read_device read_attach
  read_device_sound [] = tt
  read_device_sound (a ∷ rest) =
      if_sound (same_text a (codes "create")) _ _ (λ q. read_create_sound rest)
        (λ q.
          if_sound (same_text a (codes "destroy")) _ _
            (λ r. read_object_sound _ (λ value others p. read_force_sound value others p) rest)
            (λ r.
              if_sound (same_text a (codes "attach")) _ _
                (λ s.
                  read_object_sound _
                    (λ value others p.
                      read_port_sound _
                        (λ port end o.
                          ended_sound program (run number (attach_device value port)) end
                            (h, (p, o)))
                        others)
                    rest)
                (λ s.
                  if_sound (same_text a (codes "detach")) _ _
                    (λ t.
                      read_object_sound _
                        (λ value others p.
                          ended_sound program (run number (detach_device value)) others (h, p))
                        rest)
                    (λ t.
                      if_sound (same_text a (codes "connect") || same_text a (codes "disconnect")) _
                        _
                        (λ u.
                          read_object_sound _
                            (λ value others p.
                              ended_sound program
                                (run number (connect_device value (same_text a (codes "connect"))))
                                others (h, p))
                            rest)
                        (λ u. tt)))))

  read_port_command_sound :
      (args : List Bytes) → IsSoundLine (read_port_command program number args)
  unfolding read_port_command
  read_port_command_sound [] = tt
  read_port_command_sound (b ∷ others) =
      if_sound (not (same_text b (codes "power"))) _ _ (λ q. tt)
        (λ q. read_port_sound _ (λ port end p. read_power_sound port end p) others)

  read_command_sound : (args : List Bytes) → IsSoundLine (read_command program number args)
  unfolding read_command
  read_command_sound [] = tt
  read_command_sound (a ∷ rest) =
      if_sound (same_text a (codes "status")) _ _ (λ q. read_status_sound rest)
        (λ q.
          if_sound (same_text a (codes "port")) _ _ (λ r. read_port_command_sound rest)
            (λ r.
              if_sound (not (same_text a (codes "device"))) _ _ (λ s. tt)
                (λ s. read_device_sound rest)))

read_instance_sound :
    (program : Bytes) (args : List Bytes) → IsSoundLine (read_instance program args)
unfolding read_instance
read_instance_sound program [] = tt
read_instance_sound program (a ∷ rest) =
    option_sound (parse_unsigned a) _ _ tt
      (λ number e. read_command_sound program number (parse_unsigned_bound a number e) rest)

read_line_sound : (program : Bytes) (args : List Bytes) → IsSoundLine (read_line program args)
unfolding read_line
read_line_sound program [] = tt
read_line_sound program (a ∷ rest) =
    if_sound (same_text a (codes "-d")) _ _ (λ q. read_instance_sound program rest)
      (λ q. read_command_sound program 0 (omega arith) (a ∷ rest))

-- If the command line tool reads its arguments as an action on an instance, then the instance
-- number is below 2^32 and the action is valid: ports are at most 31, and at least 1 where one
-- is attached to or powered, object IDs are below 2^32 and not 0, and the speeds are a set of
-- the three that is not empty.
pub read_line-IsValid :
    (program : Bytes) (args : List Bytes) (number : ℕ) (action : Action)
    → read_line program args ≡ run number action
    → (number < 2 ^ 32) × IsValid action
read_line-IsValid program args number action e = subst IsSoundLine e (read_line_sound program args)
