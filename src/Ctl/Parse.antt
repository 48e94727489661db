-- ===== src/Ctl/Parse.antt =====
-- tools/virtusbctl/main.c: the numbers, the speeds and the command line.
use virt_usb.Prelude.{
  ℕ, ◌-◌, ◌^◌, bit_or, Bool, true, false, not, ◌||◌, Option, none, some, List, [], ◌∷◌, ◌++◌, ◌==◌,
  ltb, leb, if◌then◌else◌, length,
}
use virt_usb.Text.{Bytes, codes, same_text, strtoul, Number, tokens}
use virt_usb.Library.Calls.{max_ports}
use virt_usb.Library.Transfers.{invalid_object_id}
use virt_usb.Ctl.Print.{usage, newline}

-- The number, or none for -EINVAL.
abbrev pub number_read : Number → Option ℕ
number_read parsed = elim parsed.rest [
  | c ∷ cs ↦ none
  | [] ↦ if parsed.out_of_range || ltb (2 ^ 32 - 1) parsed.value then none else some parsed.value
]

unfoldable pub parse_unsigned : Bytes → Option ℕ
parse_unsigned [] = none
parse_unsigned (c ∷ cs) = number_read (strtoul (c ∷ cs))

-- The capability that a token names.
unfoldable pub speed_cap : Bytes → Option ℕ
speed_cap token =
    if same_text token (codes "low")
    then some 1
    else if same_text token (codes "full")
    then some 2
    else if same_text token (codes "high")
    then some 4
    else none

-- The loop over the tokens, with the capabilities so far.
unfoldable pub add_caps : List Bytes → ℕ → Option ℕ
add_caps [] caps = some caps
add_caps (token ∷ rest) caps = elim (speed_cap token) [
  | none ↦ none
  | some cap ↦ add_caps rest (bit_or caps cap)
]

-- The size of `buffer`
abbrev pub buffer_size : ℕ
buffer_size = 64

abbrev pub nonzero : ℕ → Option ℕ
nonzero caps = if caps == 0 then none else some caps

-- The capabilities, or none for -EINVAL.
unfoldable pub parse_speed_caps : Bytes → Option ℕ
parse_speed_caps text =
    if length text == 0 || leb buffer_size (length text)
    then none
    else elim (add_caps (tokens b',' text) 0) [ none ↦ none | some caps ↦ nonzero caps ]

-- What the tool is asked to do.
pub data Action : Type 0 where
  show_status : ℕ → Action
  power_port : ℕ → Bool → Action
  create_device : ℕ → Action
  destroy_device : ℕ → Bool → Action
  attach_device : ℕ → ℕ → Action
  detach_device : ℕ → Action
  connect_device : ℕ → Bool → Action

-- A command line: the instance and the action, or what is written to stderr.
pub data Line : Type 0 where
  run : ℕ → Action → Line
  complain : Bytes → Line

-- "Invalid port\n" and the like
abbrev pub invalid : Bytes → Line
invalid what = complain (codes "Invalid " ++ what ++ newline)

-- The end of the command line, where no argument may be left.
abbrev pub ended : Bytes → Line → List Bytes → Line
ended program line [] = line
ended program line (a ∷ rest) = complain (usage program)

unfoldable pub read_status : Bytes → ℕ → List Bytes → Line
read_status program number [] = run number (show_status 0)
read_status program number (a ∷ rest) =
    let wrong = invalid (codes "port: " ++ a) in
    elim (parse_unsigned a) [
      | none ↦ wrong
      | some port ↦
          if ltb max_ports port then wrong else ended program (run number (show_status port)) rest
    ]

unfoldable pub read_power : Bytes → ℕ → ℕ → List Bytes → Line
read_power program number port [] = complain (usage program)
read_power program number port (a ∷ rest) =
    if same_text a (codes "on")
    then ended program (run number (power_port port true)) rest
    else if same_text a (codes "off")
    then ended program (run number (power_port port false)) rest
    else complain (codes "Power state must be 'on' or 'off'" ++ newline)

-- A port that an action needs, and what follows it.
unfoldable pub read_port : (ℕ → List Bytes → Line) → List Bytes → Line
read_port continue [] = invalid (codes "port")
read_port continue (a ∷ rest) = elim (parse_unsigned a) [
  | none ↦ invalid (codes "port")
  | some port ↦
      if port == 0 || ltb max_ports port then invalid (codes "port") else continue port rest
]

unfoldable pub read_port_command : Bytes → ℕ → List Bytes → Line
read_port_command program number [] = complain (usage program)
read_port_command program number (a ∷ rest) =
    if not (same_text a (codes "power"))
    then complain (usage program)
    else read_port (read_power program number) rest

-- An object ID, and what follows it.
unfoldable pub read_object : (ℕ → List Bytes → Line) → List Bytes → Line
read_object continue [] = invalid (codes "object ID")
read_object continue (a ∷ rest) = elim (parse_unsigned a) [
  | none ↦ invalid (codes "object ID")
  | some value ↦
      if value == invalid_object_id then invalid (codes "object ID") else continue value rest
]

unfoldable pub read_create : Bytes → ℕ → List Bytes → Line
read_create program number [] = invalid (codes "device speed capability list")
read_create program number (a ∷ rest) = elim (parse_speed_caps a) [
  | none ↦ invalid (codes "device speed capability list")
  | some caps ↦ ended program (run number (create_device caps)) rest
]

unfoldable pub read_force : Bytes → ℕ → ℕ → List Bytes → Line
read_force program number value [] = run number (destroy_device value false)
read_force program number value (a ∷ rest) =
    if same_text a (codes "--force")
    then ended program (run number (destroy_device value true)) rest
    else complain (usage program)

unfoldable pub read_attach : Bytes → ℕ → ℕ → List Bytes → Line
read_attach program number value rest =
    read_port (λ port. ended program (run number (attach_device value port))) rest

unfoldable pub read_device : Bytes → ℕ → List Bytes → Line
read_device program number [] = complain (usage program)
read_device program number (a ∷ rest) =
    if same_text a (codes "create")
    then read_create program number rest
    else if same_text a (codes "destroy")
    then read_object (read_force program number) rest
    else if same_text a (codes "attach")
    then read_object (read_attach program number) rest
    else if same_text a (codes "detach")
    then read_object (λ value. ended program (run number (detach_device value))) rest
    else if same_text a (codes "connect") || same_text a (codes "disconnect")
    then read_object
        (λ value. ended program (run number (connect_device value (same_text a (codes "connect")))))
        rest
    else complain (usage program)

unfoldable pub read_command : Bytes → ℕ → List Bytes → Line
read_command program number [] = complain (usage program)
read_command program number (a ∷ rest) =
    if same_text a (codes "status")
    then read_status program number rest
    else if same_text a (codes "port")
    then read_port_command program number rest
    else if not (same_text a (codes "device"))
    then complain (usage program)
    else read_device program number rest

unfoldable pub read_instance : Bytes → List Bytes → Line
read_instance program [] = complain (usage program)
read_instance program (a ∷ rest) = elim (parse_unsigned a) [
  | none ↦ invalid (codes "instance: " ++ a)
  | some number ↦ read_command program number rest
]

-- The command line after the name of the program.
unfoldable pub read_line : Bytes → List Bytes → Line
read_line program [] = complain (usage program)
read_line program (a ∷ rest) =
    if same_text a (codes "-d")
    then read_instance program rest
    else read_command program 0 (a ∷ rest)
