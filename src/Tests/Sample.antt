-- ===== src/Tests/Sample.antt =====
-- An URB for the first port of a root hub, and a topology as it stands after a device was attached
-- and connected: hub 0 has two ports, and device 5 hangs on the first.
use virt_usb.Prelude.{zero, suc, true, false, none, some, [], ◌∷◌, ◌==◌, if◌then◌else◌}
use virt_usb.Channel.{Urb}
use virt_usb.Topology.{
  PortRef, hub_port, device_port, hub_owner, device_owner, downstream, upstream, Port, zero_port,
  Hub, zero_hub, individual, per_port, Topology,
}

abbrev pub sample_hub : Hub
sample_hub = record zero_hub {
  port_count = 2;
  power_switching_mode = individual;
  over_current_mode = per_port;
}

abbrev pub free_port : Port
free_port = record zero_port { role = downstream; owner = some (hub_owner 0); speed = 7 }

abbrev pub linked_port : Port
linked_port = record free_port { peer = some (device_port 5); state_first = true }

abbrev pub device_end : Port
device_end = record {
  role = upstream;
  owner = some (device_owner 5);
  speed = 6;
  peer = some (hub_port 0 0);
  state_first = true;
  state_second = false;
}

abbrev pub free_device : Port
free_device = record {
  role = upstream;
  owner = some (device_owner 6);
  speed = 7;
  peer = none;
  state_first = false;
  state_second = false;
}

abbrev pub sample_port : PortRef → Port
sample_port (hub_port zero zero) = linked_port
sample_port (hub_port zero (suc zero)) = free_port
sample_port (device_port (suc (suc (suc (suc (suc zero)))))) = device_end
sample_port (device_port (suc (suc (suc (suc (suc (suc zero))))))) = free_device
sample_port _ = zero_port

abbrev pub sample : Topology
sample = record {
  port = sample_port;
  hub = λ h. if h == 0 then sample_hub else zero_hub;
  notified = [];
}

abbrev pub sample_urb : Urb
sample_urb = record {
  has_device = true;
  at_root = true;
  portnum = 1;
  pipe_type = 3;
  pipe_in = false;
  pipe_endpoint = 1;
  setup_packet = none;
  transfer_buffer = some (1 ∷ 2 ∷ []);
  transfer_buffer_length = 2;
  num_sgs = 0;
  number_of_packets = 0;
  actual_length = 0;
}
