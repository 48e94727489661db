-- ===== src/Ctl/Run.antt =====
-- tools/virtusbctl/main.c: the commands on a handle of the library, and `main`.
use virt_usb.Prelude.{
  ℕ, suc, Bool, true, Option, none, some, List, [], ◌++◌, is_negative, if◌then◌else◌, ℤ, pos,
  negsuc,
}
use virt_usb.Text.{Bytes, codes, decimal}
use virt_usb.Uapi.{root_hub_id}
use virt_usb.Library.System.{System, Process}
use virt_usb.Library.Handle.{Handle, open_instance, close, get_device_path}
use virt_usb.Library.Calls
use virt_usb.Library.Calls.{Status}
use virt_usb.Ctl.Print.{newline, status_report}
use virt_usb.Ctl.Parse.{
  Action, show_status, power_port, create_device, destroy_device, attach_device, detach_device,
  connect_device, Line, run, complain, read_line,
}

-- How the program ends: the exit code, the two streams and the process.
pub record Exit (K : Type 0) : Type 0 where
  pub code : ℕ
  pub out : Bytes
  pub err : Bytes
  pub process : Process K

abbrev pub exit_failure : ℕ
exit_failure = 1

-- `-ret` of an error
abbrev pub errno_of : ℤ → ℕ
errno_of (pos n) = n
errno_of (negsuc n) = suc n

abbrev pub on_off : Bool → Bytes
on_off powered = codes (if powered then "on" else "off")

abbrev pub or_zero : Option ℕ → ℕ
or_zero none = 0
or_zero (some n) = n

abbrev pub report_of : Option Bytes → ℕ → Option Status → Bytes
report_of path port none = []
report_of path port (some status) = status_report path port status

-- `strerror` has the texts of the errors.
module _ {K : Type 0} (sys : System K) (strerror : ℕ → Bytes) where
  -- The end of a command: an error is reported, and the handle is closed in any case.
  unfoldable pub conclude : Option Handle → Bytes → Bytes → ℤ × Process K → Exit K
  conclude handle failure success_text (ret, p) =
      if is_negative ret
      then record {
        code = exit_failure;
        out = [];
        err = failure ++ codes ": " ++ strerror (errno_of ret) ++ newline;
        process = close sys handle p;
      }
      else record { code = 0; out = success_text; err = []; process = close sys handle p }

  -- What each command does with the handle that it opened.
  unfoldable pub status_command : ℕ → Option Handle → Process K → Exit K
  status_command port handle p =
      let (ret, status, p') = Calls.get_port_status sys handle root_hub_id port true p in
      conclude handle (codes "Failed to query port " ++ decimal port)
        (report_of (get_device_path handle) port status) (ret, p')

  unfoldable pub power_command : ℕ → Bool → Option Handle → Process K → Exit K
  power_command port powered handle p =
      conclude handle
        (codes "Failed to set port " ++ decimal port ++ codes " power " ++ on_off powered)
        (codes "Port " ++ decimal port ++ codes " power: " ++ on_off powered ++ newline)
        (Calls.power_port sys handle root_hub_id port powered p)

  unfoldable pub create_command : ℕ → Option Handle → Process K → Exit K
  create_command caps handle p =
      let (ret, object_id, p') = Calls.create sys handle caps true p in
      conclude handle (codes "Failed to create device")
        (codes "Device created: " ++ decimal (or_zero object_id) ++ newline) (ret, p')

  unfoldable pub destroy_command : ℕ → Bool → Option Handle → Process K → Exit K
  destroy_command value force handle p =
      conclude handle (codes "Failed to destroy device " ++ decimal value)
        (codes "Device destroyed: "
          ++ decimal value
          ++ codes (if force then " (forced)" else "")
          ++ newline)
        (Calls.destroy sys handle value force p)

  unfoldable pub attach_command : ℕ → ℕ → Option Handle → Process K → Exit K
  attach_command value port handle p =
      conclude handle
        (codes "Failed to attach device " ++ decimal value ++ codes " to port " ++ decimal port)
        (codes "Device " ++ decimal value ++ codes " attached to port " ++ decimal port ++ newline)
        (Calls.attach sys handle value root_hub_id port p)

  unfoldable pub detach_command : ℕ → Option Handle → Process K → Exit K
  detach_command value handle p =
      conclude handle (codes "Failed to detach device " ++ decimal value)
        (codes "Device detached: " ++ decimal value ++ newline) (Calls.detach sys handle value p)

  unfoldable pub connection_command : ℕ → Bool → Option Handle → Process K → Exit K
  connection_command value connected handle p =
      conclude handle
        (codes "Failed to "
          ++ codes (if connected then "connect" else "disconnect")
          ++ codes " device "
          ++ decimal value)
        (codes "Device "
          ++ codes (if connected then "connected" else "disconnected")
          ++ codes ": "
          ++ decimal value
          ++ newline)
        (Calls.set_connected sys handle value connected p)

  unfoldable pub perform : Action → Option Handle → Process K → Exit K
  perform (show_status port) handle p = status_command port handle p
  perform (power_port port powered) handle p = power_command port powered handle p
  perform (create_device caps) handle p = create_command caps handle p
  perform (destroy_device value force) handle p = destroy_command value force handle p
  perform (attach_device value port) handle p = attach_command value port handle p
  perform (detach_device value) handle p = detach_command value handle p
  perform (connect_device value connected) handle p = connection_command value connected handle p

  -- A command, which opens the instance first.
  unfoldable pub execute : ℕ → Action → Process K → Exit K
  execute number action p =
      let (ret, handle, p') = open_instance sys number true p in
      if is_negative ret
      then record {
        code = exit_failure;
        out = [];
        err =
            codes "Failed to open /dev/virtusb"
            ++ decimal number
            ++ codes ": "
            ++ strerror (errno_of ret)
            ++ newline;
        process = p';
      }
      else perform action handle p'

  unfoldable pub run_line : Line → Process K → Exit K
  run_line (complain text) p = record { code = exit_failure; out = []; err = text; process = p }
  run_line (run number action) p = execute number action p

  -- `main`, for argv[0] and the arguments after it.
  unfoldable pub main : Bytes → List Bytes → Process K → Exit K
  main program arguments p = run_line (read_line program arguments) p
