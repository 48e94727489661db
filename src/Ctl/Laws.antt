-- ===== src/Ctl/Laws.antt =====
-- The command line of tools/virtusbctl/main.c: what is read back from a line printed for an action, and
-- what can be read at all.
use virt_usb.Prelude.{
  ℕ, ◌^◌, ◌≡◌, ◌<◌, ◌≤◌, arith, refl, ap, ◌∙◌, Bool, true, false, some, List, [], ◌∷◌,
  if◌then◌else◌,
}
use virt_usb.Text.{Bytes, codes, decimal, read_number, strtoul}
use virt_usb.Text.Laws.{strtoul-decimal, read_number-decimal}
use virt_usb.Ctl.Caps.{parse_speed_caps-speeds}
use virt_usb.Ctl.Parse.{
  number_read, parse_unsigned, Action, show_status, power_port, create_device, destroy_device,
  attach_device, detach_device, connect_device, Line, run, read_status, read_power, read_port,
  read_port_command, read_object, read_create, read_force, read_attach, read_device, read_command,
  read_instance, read_line,
}
use virt_usb.Ctl.Words.{speeds, words, arguments, IsPort, IsObject, IsValid}

starts_number :
    (t : Bytes) (m : ℕ × Bytes)
    → read_number t ≡ some m
    → parse_unsigned t ≡ number_read (strtoul t)
unfolding parse_unsigned read_number
starts_number [] m e = absurd (ground arith)
starts_number (c ∷ cs) m e = refl

-- A number of 32 bits, printed in decimal, is read back.
pub parse_unsigned-decimal : (n : ℕ) → n < 2 ^ 32 → parse_unsigned (decimal n) ≡ some n
parse_unsigned-decimal n h =
    starts_number (decimal n) (n, []) (read_number-decimal n h)
    ∙ ap number_read (strtoul-decimal n h)
    ∙ ground arith

module _ (program : Bytes) (number : ℕ) where
  read_status-words :
      (port : ℕ)
      → port ≤ 31
      → read_status program number (decimal port ∷ []) ≡ run number (show_status port)
  unfolding read_status
  read_status-words port h = ground (arith, parse_unsigned-decimal port (omega arith))

  read_port-decimal :
      (continue : ℕ → List Bytes → Line) (port : ℕ) (rest : List Bytes)
      → IsPort port
      → read_port continue (decimal port ∷ rest) ≡ continue port rest
  unfolding read_port
  read_port-decimal continue port rest h =
      ground (arith, h.0, h.1, parse_unsigned-decimal port (omega (arith, h.1)))

  read_object-decimal :
      (continue : ℕ → List Bytes → Line) (value : ℕ) (rest : List Bytes)
      → IsObject value
      → read_object continue (decimal value ∷ rest) ≡ continue value rest
  unfolding read_object
  read_object-decimal continue value rest h = ground (arith, h.0, parse_unsigned-decimal value h.1)

  read_power-on_off :
      (port : ℕ) (powered : Bool)
      → read_power program number port (codes (if powered then "on" else "off") ∷ [])
        ≡ run number (power_port port powered)
  unfolding read_power
  read_power-on_off port true = refl
  read_power-on_off port false = refl

  read_force-words :
      (value : ℕ) (force : Bool)
      → read_force program number value (if force then codes "--force" ∷ [] else [])
        ≡ run number (destroy_device value force)
  unfolding read_force
  read_force-words value true = refl
  read_force-words value false = refl

  read_create-speeds :
      (caps : ℕ)
      → 1 ≤ caps
      → caps < 8
      → read_create program number (speeds caps ∷ []) ≡ run number (create_device caps)
  unfolding read_create
  read_create-speeds caps h k = ground (arith, parse_speed_caps-speeds caps h k)

  -- The command of an action is read as the action.
  read_command-words :
      (action : Action)
      → IsValid action
      → read_command program number (words action) ≡ run number action
  unfolding read_command read_device read_port_command read_attach
  read_command-words (show_status port) h = read_status-words port h
  read_command-words (power_port port powered) h =
      read_port-decimal _ port _ h ∙ read_power-on_off port powered
  read_command-words (create_device caps) h = read_create-speeds caps h.0 h.1
  read_command-words (destroy_device value force) h =
      read_object-decimal _ value _ h ∙ read_force-words value force
  read_command-words (attach_device value port) h =
      read_object-decimal _ value _ h.0 ∙ read_port-decimal _ port _ h.1
  read_command-words (detach_device value) h = read_object-decimal _ value _ h
  read_command-words (connect_device value true) h = read_object-decimal _ value _ h
  read_command-words (connect_device value false) h = read_object-decimal _ value _ h

-- For an instance number below 2^32 and a valid action, the arguments written for them, with
-- numbers in decimal, are read by the command line tool as this action on this instance.
pub read_line-arguments :
    (program : Bytes) (number : ℕ) (action : Action)
    → number < 2 ^ 32
    → IsValid action
    → read_line program (arguments number action) ≡ run number action
unfolding read_line read_instance
read_line-arguments program number action h valid =
    ground (arith, parse_unsigned-decimal number h, read_command-words program number action valid)
