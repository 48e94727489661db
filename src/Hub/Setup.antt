-- ===== src/Hub/Setup.antt =====
-- Initialisation, reset and callback of a hub: kernel/src/virtusb_hub.c and the root hub's wrapper
-- kernel/src/virtusb_root_hub.c.
pub mod Ports
pub mod Sound
use virt_usb.Prelude.{
  ℕ, zero, suc, ◌+◌, ◌%◌, ◌^◌, Bool, true, false, ◌||◌, Option, none, some, ◌==◌, ltb,
  if◌then◌else◌, is_negative, ℤ, success, einval,
}
use virt_usb.Uapi.{max_hub_ports}
use virt_usb.Topology.{
  PortRef, hub_port, device_port, hub_owner, downstream, Port, zero_port, individual, per_port,
  zero_usb_state, zero_usb_change, Hub, zero_hub, Topology, set_hub,
}
use virt_usb.Port
use virt_usb.Port.{speed_cap_all}

-- `&hub->ports[..]`
abbrev pub in_hub : ℕ → PortRef → Bool
in_hub hub (hub_port h index) = h == hub
in_hub hub (device_port d) = false

-- `memset(hub, 0, sizeof(*hub))`, which clears the ports too.
unfoldable pub clear_hub : ℕ → Topology → Topology
unfolding set_hub
clear_hub hub t =
    set_hub hub zero_hub (record t { port = λ q. if in_hub hub q then zero_port else t.port q })

-- The loop of `virtusb_hub_init` with `rounds` ports left, from index `port` on.
unfoldable pub init_ports : ℕ → ℕ → ℕ → Topology → ℤ × Topology
init_ports zero hub port t = (success, t)
init_ports (suc rounds) hub port t =
    let (ret, t') =
      Port.init (some (hub_port hub port)) downstream (speed_cap_all % 2 ^ 8) (some (hub_owner hub))
        t in
    let rest = init_ports rounds hub (port + 1) t' in if is_negative ret then (ret, t') else rest

unfoldable pub init : Option ℕ → ℕ → Topology → ℤ × Topology
unfolding set_hub
init none port_count t = (einval, t)
init (some hub) port_count t =
    if port_count == 0 || ltb max_hub_ports port_count
    then (einval, t)
    else let started =
        set_hub hub
          (record zero_hub {
            port_count = port_count % 2 ^ 8;
            power_switching_mode = individual;
            over_current_mode = per_port;
          })
          (clear_hub hub t) in
      let (ret, t') = init_ports port_count hub 0 started in
      if is_negative ret then (ret, clear_hub hub t') else (success, t')

-- Only the USB protocol state is cleared.
unfoldable pub reset : Option ℕ → Topology → Topology
unfolding set_hub
reset none t = t
reset (some hub) t =
    set_hub hub (record (t.hub hub) { usb = zero_usb_state; usb_change = zero_usb_change }) t

unfoldable pub set_status_changed_callback : Option ℕ → Bool → Option ℕ → Topology → Topology
unfolding set_hub
set_status_changed_callback none callback context t = t
set_status_changed_callback (some hub) callback context t =
    set_hub hub (record (t.hub hub) { status_changed = callback; status_changed_context = context })
      t

-- `virtusb_root_hub_init`: the root hub of an HCD is one hub.
unfoldable pub root_hub_init : Option ℕ → ℕ → Topology → ℤ × Topology
root_hub_init none port_count t = (einval, t)
root_hub_init (some root_hub) port_count t = init (some root_hub) port_count t

-- `virtusb_root_hub_reset`
unfoldable pub root_hub_reset : Option ℕ → Topology → Topology
root_hub_reset none t = t
root_hub_reset (some root_hub) t = reset (some root_hub) t
