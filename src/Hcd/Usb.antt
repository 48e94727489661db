-- ===== src/Hcd/Usb.antt =====
-- The numbers of the USB 2.0 hub class (chapter 11 of the specification) that
-- kernel/src/virtusb_hcd.c takes from the Linux headers.
use virt_usb.Prelude.{ℕ, ◌==◌, if◌then◌else◌}

-- USB_PORT_STAT_*, as the positions of their bits
abbrev pub stat_connection : ℕ
stat_connection = 0

abbrev pub stat_enable : ℕ
stat_enable = 1

abbrev pub stat_suspend : ℕ
stat_suspend = 2

abbrev pub stat_overcurrent : ℕ
stat_overcurrent = 3

abbrev pub stat_reset : ℕ
stat_reset = 4

abbrev pub stat_power : ℕ
stat_power = 8

abbrev pub stat_low_speed : ℕ
stat_low_speed = 9

abbrev pub stat_high_speed : ℕ
stat_high_speed = 10

-- Port features, USB_PORT_FEAT_*
pub data Feature : Type 0 where
  enable suspend reset power : Feature
  c_connection c_enable c_suspend c_over_current c_reset : Feature
  other_feature : Feature

abbrev pub feature_of_value : ℕ → Feature
feature_of_value value =
    if value == 1
    then enable
    else if value == 2
    then suspend
    else if value == 4
    then reset
    else if value == 8
    then power
    else if value == 16
    then c_connection
    else if value == 17
    then c_enable
    else if value == 18
    then c_suspend
    else if value == 19
    then c_over_current
    else if value == 20
    then c_reset
    else other_feature

-- Hub class requests, with the request type in the high byte
pub data HubRequest : Type 0 where
  clear_hub_feature clear_port_feature get_hub_descriptor get_hub_status : HubRequest
  get_port_status set_hub_feature set_port_feature other_request : HubRequest

abbrev pub request_of_value : ℕ → HubRequest
request_of_value value =
    if value == 0x2001
    then clear_hub_feature
    else if value == 0x2301
    then clear_port_feature
    else if value == 0xa006
    then get_hub_descriptor
    else if value == 0xa000
    then get_hub_status
    else if value == 0xa300
    then get_port_status
    else if value == 0x2003
    then set_hub_feature
    else if value == 0x2303
    then set_port_feature
    else other_request

-- C_HUB_LOCAL_POWER and C_HUB_OVER_CURRENT
abbrev pub c_hub_local_power : ℕ
c_hub_local_power = 0

abbrev pub c_hub_over_current : ℕ
c_hub_over_current = 1

-- USB_DT_HUB and USB_DT_HUB_NONVAR_SIZE
abbrev pub dt_hub : ℕ
dt_hub = 0x29

abbrev pub dt_hub_nonvar_size : ℕ
dt_hub_nonvar_size = 7

-- HUB_CHAR_INDV_PORT_LPSM, HUB_CHAR_INDV_PORT_OCPM and HUB_CHAR_NO_OCPM
abbrev pub char_individual_power : ℕ
char_individual_power = 0x0001

abbrev pub char_individual_over_current : ℕ
char_individual_over_current = 0x0008

abbrev pub char_no_over_current : ℕ
char_no_over_current = 0x0010

-- HUB_STATUS_OVERCURRENT and HUB_CHANGE_OVERCURRENT
abbrev pub hub_overcurrent : ℕ
hub_overcurrent = 0x0002
