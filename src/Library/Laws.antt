-- ===== src/Library/Laws.antt =====
-- libvirtusb/src/virtusb.c over kernel/src/virtusb_control.c: what a program reads is the state of the
-- port graph, and what it asks for is done.
use virt_usb.Prelude.{
  ℕ, zero, suc, ◌+◌, ◌-◌, ◌≡◌, ◌≤◌, ◌<◌, min, arith, refl, ap, ◌∙◌, Bool, true, Option, some, List,
  [], ◌∷◌, ◌++◌, map, if◌then◌else◌, ℤ, pos, negsuc, success, enodev, efault, not, get_elem?, take,
  replicate,
}
use virt_usb.Text.{Bytes}
use virt_usb.Topology.{Topology}
use virt_usb.Channel.{Channel}
use virt_usb.Backend.Serve.{Wait}
use virt_usb.Control.Status.{
  PortState, answer, build_port_state, build_ports, get_port_status, zero_port_state,
}
use virt_usb.Control.Ioctl.{dispatch, ioctl}
use virt_usb.Library.System.{System, Process, Answer}
use virt_usb.Library.Handle.{Handle, descriptor}
use virt_usb.Library.Calls
use virt_usb.Library.Calls.{
  Status, status_of, state_from_uapi, states_from_uapi, status_request, ports_of, ask_port_status,
}
use virt_usb.Library.Kernel.{Conditions, control, command_of}
use virt_usb.Library.System.{Message}
use virt_usb.Control.Ioctl.{on_objects}
use virt_usb.Control.Requests.{
  with_device, lookup_device, device_connection, device_detach, port_power, get_hub,
}
use virt_usb.Device.Link
use virt_usb.Object.Store.{Objects}
use virt_usb.Hub.Power.{set_port_power}

build_ports_elem :
    (rounds hub first i : ℕ) (t : Topology) (more : List PortState)
    → i < rounds
    → get_elem? (build_ports rounds hub first t ++ more) i
      ≡ some (build_port_state hub (first + i) t)
unfolding build_ports
build_ports_elem zero hub first i t more h = absurd (omega arith)
build_ports_elem (suc rounds) hub first zero t more h =
    ap (λ n. some (build_port_state hub n t)) (omega arith)
build_ports_elem (suc rounds) hub first (suc i) t more h =
    build_ports_elem rounds hub (first + 1) i t more (omega arith)
    ∙ ap (λ n. some (build_port_state hub n t)) (omega arith)

-- The `i`-th state that is converted, where the list has it and the loop gets to it.
converted_elem :
    (n i : ℕ) (xs : List PortState) (x : PortState) (more : List Calls.State)
    → get_elem? xs i ≡ some x
    → i < n
    → get_elem? (map state_from_uapi (take n xs) ++ more) i ≡ some (state_from_uapi x)
converted_elem zero i xs x more e h = absurd (omega arith)
converted_elem (suc n) i [] x more e h = absurd (ground arith)
converted_elem (suc n) zero (y ∷ ys) x more e h = ground arith
converted_elem (suc n) (suc i) (y ∷ ys) x more e h = converted_elem n i ys x more e (omega arith)

-- What a program gets from the control device.
unfoldable pub status_over : ℕ → ℕ → Topology → Status
status_over hub port t = status_of (answer hub (status_request 0 port) t)

module _ (k : Conditions) (hub : ℕ) (waits : List Wait)
    (opens : Bytes → Channel → Answer ℕ × Channel) (closes : ℕ → Channel → Channel)
    (allocates : Channel → Option ℕ × Channel) where
  abbrev sys : System Channel
  sys = control k hub waits opens closes allocates

  get_port_status-control :
      (handle : Handle) (fd port : ℕ) (p : Process Channel)
      → handle.fd ≡ pos fd
      → k.is_active fd ≡ true
      → k.readable ≡ true
      → k.writable ≡ true
      → port ≤ (p.kernel.objects.topology.hub hub).port_count
      → Calls.get_port_status sys (some handle) 0 port true p
        ≡ (success, some (status_over hub port p.kernel.objects.topology), p)
  unfolding Calls.get_port_status ask_port_status descriptor ioctl dispatch get_port_status
      status_over
  get_port_status-control handle fd port p e on reads writes h =
      ground (arith, e, on, reads, writes, h)

  -- If a handle has an open descriptor of the control device, whose control is active, the kernel
  -- can read and write the argument and the hub has at most 31 ports, then virtusb_get_port_status
  -- for port 0 returns 0, changes nothing, and yields the number of ports of the hub and, for each
  -- port, the state that the kernel builds for it, with its speed converted.
  pub get_port_status-build_port_state :
      (handle : Handle) (fd : ℕ) (p : Process Channel)
      → handle.fd ≡ pos fd
      → k.is_active fd ≡ true
      → k.readable ≡ true
      → k.writable ≡ true
      → (p.kernel.objects.topology.hub hub).port_count ≤ 31
      → (s : Status) × (Calls.get_port_status sys (some handle) 0 0 true p ≡ (success, some s, p))
        × (s.port_count ≡ (p.kernel.objects.topology.hub hub).port_count)
        × ((i : ℕ)
            → i < s.port_count
            → get_elem? s.ports i
              ≡ some (state_from_uapi (build_port_state hub (1 + i) p.kernel.objects.topology)))
  unfolding status_over answer status_of ports_of states_from_uapi
  get_port_status-build_port_state handle fd p e on reads writes h =
      let t = p.kernel.objects.topology in
      let count = (t.hub hub).port_count in
      (
        status_over hub 0 t,
        get_port_status-control handle fd 0 p e on reads writes (omega arith),
        refl,
        λ i q.
            converted_elem (min count 31) i
              (build_ports count hub 1 t ++ replicate (31 - count) zero_port_state)
              (build_port_state hub (1 + i) t) _ (build_ports_elem count hub 1 i t _ q)
              (omega arith),
      )

  -- What the library returns for a result of the kernel.
  abbrev pub reply : ℤ → ℤ
  reply (pos n) = success
  reply (negsuc n) = negsuc n

  -- The control of an inactive descriptor answers -ENODEV, and an argument that cannot be read
  -- -EFAULT, both with nothing changed.
  abbrev pub guarded : ℕ → Process Channel → ℤ × Process Channel → ℤ × Process Channel
  guarded fd p result =
      if not (k.is_active fd) then (enodev, p) else if not k.readable then (efault, p) else result

  send-guarded :
      (handle : Handle) (fd : ℕ) (m : Message) (p : Process Channel) (r : ℤ × Objects)
      → handle.fd ≡ pos fd
      → dispatch hub fd (command_of k m) p.kernel
        ≡ on_objects p.kernel (if k.readable then r else (efault, p.kernel.objects))
      → Calls.send sys (some handle) m p
        ≡ guarded fd p (reply r.0, record p { kernel = record p.kernel { objects = r.1 } })
  unfolding Calls.send Calls.send_to descriptor ioctl
  send-guarded handle fd m p (pos n, s) e d = ground (arith, e, d)
  send-guarded handle fd m p (negsuc n, s) e d = ground (arith, e, d)

  abbrev on_topology : Objects → ℤ × Topology → ℤ × Objects
  on_topology s (ret, t) = (ret, record s { topology = t })

  -- A command for a device.
  abbrev pub on_device : (ℕ → Topology → ℤ × Topology) → ℕ → Process Channel → ℤ × Process Channel
  on_device f object_id p =
      let (ret, s) = with_device f (lookup_device object_id p.kernel.objects) in
      (reply ret, record p { kernel = record p.kernel { objects = s } })

  connect-dispatch :
      (fd object_id : ℕ) (on : Bool) (c : Channel)
      → dispatch hub fd (command_of k (Message.device_connection object_id (if on then 1 else 0))) c
        ≡ on_objects c (
            if k.readable
            then with_device
                (λ ref t. Link.set_connection_signaling (some ref) on t)
                (lookup_device object_id c.objects)
            else (efault, c.objects))
  unfolding dispatch device_connection
  connect-dispatch fd object_id on c = ground arith

  detach-dispatch :
      (fd object_id : ℕ) (c : Channel)
      → dispatch hub fd (command_of k (Message.device_detach object_id)) c
        ≡ on_objects c (
            if k.readable
            then with_device
                (λ ref t. (success, Link.detach (some ref) t))
                (lookup_device object_id c.objects)
            else (efault, c.objects))
  unfolding dispatch device_detach
  detach-dispatch fd object_id c = ground arith

  power-dispatch :
      (fd port : ℕ) (on : Bool) (c : Channel)
      → dispatch hub fd (command_of k (Message.set_port_power 0 port (if on then 1 else 0))) c
        ≡ on_objects c (
            if k.readable
            then on_topology c.objects (set_port_power (some hub) port on c.objects.topology)
            else (efault, c.objects))
  unfolding dispatch port_power get_hub
  power-dispatch fd port on c = ground arith

  -- If a handle has an open descriptor of the control device, then virtusb_device_set_connected,
  -- virtusb_device_detach and virtusb_set_port_power on hub 0 return -ENODEV and change nothing
  -- where the descriptor's control is not active, else return -EFAULT and change nothing where the
  -- kernel cannot read the argument, and else return and change what the kernel's functions on
  -- devices and hubs do for the same Boolean, with 0 for a result that is not negative.
  pub commands_reach_ports :
      (handle : Handle) (fd : ℕ) (object_id port : ℕ) (on : Bool) (p : Process Channel)
      → handle.fd ≡ pos fd
      → (Calls.set_connected sys (some handle) object_id on p
          ≡ guarded fd p
              (on_device (λ ref t. Link.set_connection_signaling (some ref) on t) object_id p))
        × (Calls.detach sys (some handle) object_id p
            ≡ guarded fd p (on_device (λ ref t. (success, Link.detach (some ref) t)) object_id p))
        × (Calls.power_port sys (some handle) 0 port on p
            ≡ guarded fd p (
              reply (set_port_power (some hub) port on p.kernel.objects.topology).0,
              record p {
                kernel = record p.kernel {
                  objects = record p.kernel.objects {
                    topology = (set_port_power (some hub) port on p.kernel.objects.topology).1;
                  };
                };
              },
            ))
  unfolding Calls.set_connected Calls.detach Calls.power_port
  commands_reach_ports handle fd object_id port on p e = (
    send-guarded handle fd (Message.device_connection object_id (if on then 1 else 0)) p
        (with_device (λ ref t. Link.set_connection_signaling (some ref) on t)
          (lookup_device object_id p.kernel.objects))
        e (connect-dispatch fd object_id on p.kernel),
    send-guarded handle fd (Message.device_detach object_id) p
        (with_device (λ ref t. (success, Link.detach (some ref) t))
          (lookup_device object_id p.kernel.objects))
        e (detach-dispatch fd object_id p.kernel),
    send-guarded handle fd (Message.set_port_power 0 port (if on then 1 else 0)) p
        (on_topology p.kernel.objects (set_port_power (some hub) port on p.kernel.objects.topology))
        e (power-dispatch fd port on p.kernel),
  )
