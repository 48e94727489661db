-- ===== src/Ctl/Words.antt =====
-- The command lines of the usage in tools/virtusbctl/main.c: the words that ask for an action, and the
-- actions that the tool accepts.
use virt_usb.Prelude.{ℕ, ◌^◌, ◌==◌, ◌≢◌, ◌<◌, ◌≤◌, List, [], ◌∷◌, if◌then◌else◌}
use virt_usb.Text.{Bytes, codes, decimal}
use virt_usb.Library.Calls.{max_ports}
use virt_usb.Ctl.Parse.{
  Action, show_status, power_port, create_device, destroy_device, attach_device, detach_device,
  connect_device,
}

-- The speeds of a set of capabilities.
abbrev pub speeds : ℕ → Bytes
speeds caps =
    if caps == 1
    then codes "low"
    else if caps == 2
    then codes "full"
    else if caps == 3
    then codes "low,full"
    else if caps == 4
    then codes "high"
    else if caps == 5
    then codes "low,high"
    else if caps == 6
    then codes "full,high"
    else codes "low,full,high"

-- The words of an action.
abbrev pub words : Action → List Bytes
words (show_status port) = codes "status" ∷ decimal port ∷ []
words (power_port port powered) =
    codes "port" ∷ codes "power" ∷ decimal port ∷ codes (if powered then "on" else "off") ∷ []
words (create_device caps) = codes "device" ∷ codes "create" ∷ speeds caps ∷ []
words (destroy_device value force) =
    codes "device" ∷ codes "destroy" ∷ decimal value ∷ (if force then codes "--force" ∷ [] else [])
words (attach_device value port) =
    codes "device" ∷ codes "attach" ∷ decimal value ∷ decimal port ∷ []
words (detach_device value) = codes "device" ∷ codes "detach" ∷ decimal value ∷ []
words (connect_device value connected) =
    codes "device" ∷ codes (if connected then "connect" else "disconnect") ∷ decimal value ∷ []

-- The arguments after argv[0].
abbrev pub arguments : ℕ → Action → List Bytes
arguments number action = codes "-d" ∷ decimal number ∷ words action

-- A port that can be addressed, and an object ID.
abbrev pub IsPort : ℕ → Type 0
IsPort port = (1 ≤ port) × (port ≤ max_ports)

abbrev pub IsObject : ℕ → Type 0
IsObject value = (value ≢ 0) × (value < 2 ^ 32)

-- The actions that make sense.
abbrev pub IsValid : Action → Type 0
IsValid (show_status port) = port ≤ max_ports
IsValid (power_port port powered) = IsPort port
IsValid (create_device caps) = (1 ≤ caps) × (caps < 8)
IsValid (destroy_device value force) = IsObject value
IsValid (attach_device value port) = IsObject value × IsPort port
IsValid (detach_device value) = IsObject value
IsValid (connect_device value connected) = IsObject value
