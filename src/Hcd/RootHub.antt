-- ===== src/Hcd/RootHub.antt =====
-- The root hub requests of kernel/src/virtusb_hcd.c.
pub mod Sound
use virt_usb.Prelude.{
  ℕ, ◌+◌, ◌*◌, ◌/◌, ◌%◌, ◌^◌, bit_and, bit_or, Bool, true, false, not, Option, some, List, [], ◌∷◌,
  ◌++◌, ◌==◌, if◌then◌else◌, replicate, ℤ, pos, success, epipe,
}
use virt_usb.Topology.{
  PowerSwitchingMode, OverCurrentMode, global, per_port, no_detection, Hub, UsbState, UsbChange,
  Topology, set_hub,
}
use virt_usb.Bits.{bit_test, bit_set, bit_clear}
use virt_usb.Hub.Defs.{port_is_valid, reset_port}
use virt_usb.Hub.Power.{is_ganged, set_port_power, is_over_current}
use virt_usb.Hcd.Usb.{
  Feature, enable, suspend, reset, power, c_connection, c_enable, c_suspend, c_over_current,
  c_reset, other_feature, feature_of_value, HubRequest, clear_hub_feature, clear_port_feature,
  get_hub_descriptor, get_hub_status, get_port_status, set_hub_feature, set_port_feature,
  other_request, request_of_value, c_hub_local_power, c_hub_over_current, dt_hub,
  dt_hub_nonvar_size, char_individual_power, char_individual_over_current, char_no_over_current,
  hub_overcurrent,
}
use virt_usb.Hcd.Status.{build_port_status, build_port_change}

-- `put_unaligned_le16`
abbrev pub le16 : ℕ → List ℕ
le16 value = value % 256 ∷ (value / 256 % 256) ∷ []

-- The characteristics word of the hub descriptor.
unfoldable pub characteristics : Hub → ℕ
characteristics v =
    let switching =
      if is_ganged v.power_switching_mode then 0 else bit_or 0 char_individual_power in
    elim v.over_current_mode [
      | per_port ↦ bit_or switching char_individual_over_current
      | no_detection ↦ bit_or switching char_no_over_current
      | global ↦ switching
    ]

-- The length of the descriptor and its bytes: the fixed part, DeviceRemovable and PortPwrCtrlMask.
unfoldable pub hub_descriptor : Hub → ℕ × List ℕ
hub_descriptor v =
    let bitmap_bytes = (v.port_count + 8) / 8 in
    let descriptor_length = dt_hub_nonvar_size + 2 * bitmap_bytes in
    (
      descriptor_length,
      (descriptor_length % 256 ∷ dt_hub ∷ v.port_count ∷ [])
          ++ le16 (characteristics v)
          ++ (0 ∷ 0 ∷ [])
          ++ replicate bitmap_bytes 0
          ++ replicate bitmap_bytes 0xff,
    )

-- The four bytes of `virtusb_hcd_get_hub_status`: status and change.
unfoldable pub hub_status : ℕ → Topology → List ℕ
unfolding bit_test
hub_status hub t =
    le16 (if is_over_current (some hub) t then bit_or 0 hub_overcurrent else 0)
    ++ le16 (if bit_test (t.hub hub).usb_change.over_current 0 then bit_or 0 hub_overcurrent else 0)

-- The result and the bytes written.
unfoldable pub port_status : ℕ → ℕ → Topology → ℤ × List ℕ
port_status hub port_number t =
    if not (port_is_valid (some hub) port_number t) then (epipe, []) else (
      success,
      le16 (build_port_status hub port_number t) ++ le16 (build_port_change hub port_number t),
    )

-- `hub->usb = usb` and `hub->usb_change = usb_change`
unfoldable pub set_usb : ℕ → UsbState → Topology → Topology
unfolding set_hub
set_usb hub usb t = set_hub hub (record (t.hub hub) { usb = usb }) t

unfoldable pub set_usb_change : ℕ → UsbChange → Topology → Topology
unfolding set_hub
set_usb_change hub usb_change t = set_hub hub (record (t.hub hub) { usb_change = usb_change }) t

-- The switch of `virtusb_hcd_clear_port_feature`.
unfoldable pub clear_feature : Feature → ℕ → ℕ → Topology → ℤ × Topology
unfolding bit_clear
clear_feature enable hub port_number t =
    let usb = (t.hub hub).usb in
    (success, set_usb hub (record usb { enabled = bit_clear usb.enabled port_number }) t)
clear_feature suspend hub port_number t =
    let usb = (t.hub hub).usb in
    (success, set_usb hub (record usb { suspended = bit_clear usb.suspended port_number }) t)
clear_feature power hub port_number t = set_port_power (some hub) port_number false t
clear_feature c_connection hub port_number t =
    let change = (t.hub hub).usb_change in
    (
      success,
      set_usb_change hub (record change { connected = bit_clear change.connected port_number }) t,
    )
clear_feature c_enable hub port_number t =
    let change = (t.hub hub).usb_change in
    (
      success,
      set_usb_change hub (record change { enabled = bit_clear change.enabled port_number }) t,
    )
clear_feature c_suspend hub port_number t =
    let change = (t.hub hub).usb_change in
    (
      success,
      set_usb_change hub (record change { suspended = bit_clear change.suspended port_number }) t,
    )
clear_feature c_over_current hub port_number t =
    let change = (t.hub hub).usb_change in
    (
      success,
      set_usb_change hub
          (record change { over_current = bit_clear change.over_current port_number }) t,
    )
clear_feature c_reset hub port_number t =
    let change = (t.hub hub).usb_change in
    (success, set_usb_change hub (record change { reset = bit_clear change.reset port_number }) t)
clear_feature reset hub port_number t = (epipe, t)
clear_feature other_feature hub port_number t = (epipe, t)

unfoldable pub clear_port_feature_of : ℕ → ℕ → ℕ → Topology → ℤ × Topology
clear_port_feature_of hub port_number feature t =
    if not (port_is_valid (some hub) port_number t)
    then (epipe, t)
    else clear_feature (feature_of_value feature) hub port_number t

-- The switch of `virtusb_hcd_set_port_feature`.
unfoldable pub set_feature : Feature → ℕ → ℕ → Topology → ℤ × Topology
unfolding bit_set
set_feature suspend hub port_number t =
    let usb = (t.hub hub).usb in
    (success, set_usb hub (record usb { suspended = bit_set usb.suspended port_number }) t)
set_feature power hub port_number t = set_port_power (some hub) port_number true t
set_feature reset hub port_number t = reset_port (some hub) port_number t
set_feature _ hub port_number t = (epipe, t)

unfoldable pub set_port_feature_of : ℕ → ℕ → ℕ → Topology → ℤ × Topology
set_port_feature_of hub port_number feature t =
    if not (port_is_valid (some hub) port_number t)
    then (epipe, t)
    else set_feature (feature_of_value feature) hub port_number t

-- ClearHubFeature
unfoldable pub clear_hub_feature_of : ℕ → ℕ → Topology → ℤ × Topology
unfolding bit_clear
clear_hub_feature_of hub value t =
    let change = (t.hub hub).usb_change in
    if value == c_hub_local_power
    then (success, t)
    else if value == c_hub_over_current
    then (
      success,
      set_usb_change hub (record change { over_current = bit_clear change.over_current 0 }) t,
    )
    else (epipe, t)

-- The result, the bytes written to `buf`, and the topology.
unfoldable pub respond : HubRequest → ℕ → ℕ → ℕ → Topology → ℤ × List ℕ × Topology
respond clear_hub_feature hub value port_number t =
    let (ret, t') = clear_hub_feature_of hub value t in (ret, [], t')
respond clear_port_feature hub value port_number t =
    let (ret, t') = clear_port_feature_of hub port_number value t in (ret, [], t')
respond get_hub_descriptor hub value port_number t =
    let (length, bytes) = hub_descriptor (t.hub hub) in (pos length, bytes, t)
respond get_hub_status hub value port_number t = (success, hub_status hub t, t)
respond get_port_status hub value port_number t =
    let (ret, bytes) = port_status hub port_number t in (ret, bytes, t)
respond set_hub_feature hub value port_number t = (epipe, [], t)
respond set_port_feature hub value port_number t =
    let (ret, t') = set_port_feature_of hub port_number value t in (ret, [], t')
respond other_request hub value port_number t = (epipe, [], t)

-- `virtusb_hcd_hub_control`, for the root hub `hub`.
unfoldable pub hub_control : ℕ → ℕ → ℕ → ℕ → Topology → ℤ × List ℕ × Topology
hub_control hub type_req value index t =
    respond (request_of_value type_req) hub value (bit_and index 0xff) t
