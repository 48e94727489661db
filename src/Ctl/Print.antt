-- ===== src/Ctl/Print.antt =====
-- tools/virtusbctl/main.c: what the tool writes, as the bytes of the stream.
use virt_usb.Prelude.{
  ℕ, zero, suc, ◌+◌, ◌-◌, ◌^◌, bit_and, Option, none, some, List, [], ◌∷◌, ◌++◌, ◌==◌,
  if◌then◌else◌, length, replicate, get_or,
}
use virt_usb.Text.{Bytes, codes, decimal, hexadecimal}
use virt_usb.Library.Calls.{
  Speed, speed_none, speed_low, speed_full, speed_high, State, zero_state, Status,
}

abbrev pub newline : Bytes
newline = 10 ∷ []

-- The lines of the usage after its first.
abbrev usages : List Bytes
usages =
    codes "status [PORT]"
    ∷ codes "device create SPEED[,SPEED...]"
    ∷ codes "device destroy OBJECT_ID [--force]"
    ∷ codes "device attach OBJECT_ID PORT"
    ∷ codes "device detach OBJECT_ID"
    ∷ codes "device connect OBJECT_ID"
    ∷ codes "device disconnect OBJECT_ID"
    ∷ codes "port power PORT on|off"
    ∷ []

abbrev usage_lines : Bytes → List Bytes → Bytes
usage_lines program [] = []
usage_lines program (u ∷ us) =
    codes "  " ++ program ++ codes " [-d INSTANCE] " ++ u ++ newline ++ usage_lines program us

unfoldable pub usage : Bytes → Bytes
usage program = codes "Usage:" ++ newline ++ usage_lines program usages

unfoldable pub speed_name : Speed → Bytes
speed_name speed_none = codes "none"
speed_name speed_low = codes "low"
speed_name speed_full = codes "full"
speed_name speed_high = codes "high"

-- PRINT_STATUS_FLAG and PRINT_CHANGE_FLAG: `printed` is what stands before, empty while `first` holds.
abbrev pub print_flag : ℕ → ℕ → Bytes → Bytes → Bytes
print_flag word flag name printed =
    if bit_and word flag == 0
    then printed
    else elim printed [ [] ↦ name | c ∷ cs ↦ (c ∷ cs) ++ codes "," ++ name ]

abbrev pub or_none : Bytes → Bytes
or_none [] = codes "none"
or_none (c ∷ cs) = c ∷ cs

unfoldable pub status_flags : ℕ → Bytes
status_flags status = or_none (
    print_flag status (2 ^ 8) (codes "power") (
      print_flag status (2 ^ 4) (codes "reset") (
        print_flag status (2 ^ 3) (codes "over-current") (
          print_flag status (2 ^ 2) (codes "suspended") (
            print_flag status (2 ^ 1) (codes "enabled")
              (print_flag status (2 ^ 0) (codes "connected") []))))))

unfoldable pub change_flags : ℕ → Bytes
change_flags change = or_none (
    print_flag change (2 ^ 4) (codes "reset") (
      print_flag change (2 ^ 3) (codes "over-current") (
        print_flag change (2 ^ 2) (codes "suspended") (
          print_flag change (2 ^ 1) (codes "enabled")
            (print_flag change (2 ^ 0) (codes "connected") [])))))

-- %-8s
abbrev pub padded : Bytes → Bytes
padded label = label ++ replicate (8 - length label) 32

unfoldable pub state_line : Bytes → State → Bytes
state_line label state =
    padded label
    ++ codes " status=0x"
    ++ hexadecimal state.status
    ++ codes " ["
    ++ status_flags state.status
    ++ codes "] change=0x"
    ++ hexadecimal state.change
    ++ codes " ["
    ++ change_flags state.change
    ++ codes "] speed="
    ++ speed_name state.speed
    ++ newline

-- "port %u:"
abbrev pub port_label : ℕ → Bytes
port_label port = codes "port " ++ decimal port ++ codes ":"

-- The lines of `rounds` ports from index `i` on. A count above 31 would read past the array, where this
-- has zeros.
unfoldable pub port_lines : ℕ → ℕ → List State → Bytes
port_lines zero i states = []
port_lines (suc rounds) i states =
    state_line (port_label (i + 1)) (get_or states i zero_state) ++ port_lines rounds (i + 1) states

abbrev pub or_unknown : Option Bytes → Bytes
or_unknown none = codes "<unknown>"
or_unknown (some path) = path

-- What `virtusbctl_status` prints for the port that was asked for.
unfoldable pub status_report : Option Bytes → ℕ → Status → Bytes
status_report path port status =
    codes "Device: "
    ++ or_unknown path
    ++ newline
    ++ codes "Hub:    "
    ++ decimal status.hub_id
    ++ newline
    ++ (if port == 0
        then codes "Ports:  "
          ++ decimal status.port_count
          ++ newline
          ++ newline
          ++ state_line (codes "hub:") status.state
          ++ port_lines status.port_count 0 status.ports
        else codes "Port:   "
          ++ decimal status.port
          ++ newline
          ++ newline
          ++ state_line (port_label status.port) status.state)
