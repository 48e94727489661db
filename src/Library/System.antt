-- ===== src/Library/System.antt =====
-- What libvirtusb/src/virtusb.c and the programs in tools take from the operating system.
use virt_usb.Prelude.{ℕ, suc, ◌-◌, Option, none, some, List, [], ◌∷◌, ◌==◌, if◌then◌else◌}
use virt_usb.Text.{Bytes}
use virt_usb.Control.Status.{PortStatus}
use virt_usb.Backend.Serve.{Fetch, Completion}

-- What a call answers, or the errno of its failure.
pub data Answer {ℓ} (A : Type ℓ) : Type ℓ where
  failed : ℕ → Answer A
  answered : A → Answer A

-- struct virtusb_device_create
pub record DeviceCreate : Type 0 where
  pub speed_caps : ℕ
  pub object_id : ℕ

-- The commands that only write their argument, with the members of the argument in their order, and
-- the one without an argument.
pub data Message : Type 0 where
  device_destroy : ℕ → ℕ → Message
  device_attach : ℕ → ℕ → ℕ → Message
  device_detach : ℕ → Message
  device_connection : ℕ → ℕ → Message
  set_port_power : ℕ → ℕ → ℕ → Message
  backend_register : ℕ → Message
  backend_unregister : Message
  transfer_complete : Completion → Message

-- The calls of the operating system and of the allocator, on a state `K` of their own. An `ioctl`
-- that reads and writes answers the argument as it is afterwards; `send` answers the errno, if any,
-- and `allocate` the errno of a `calloc` that returned NULL.
pub record System (K : Type 0) : Type 0 where
  pub open_path : Bytes → K → Answer ℕ × K
  pub close : ℕ → K → K
  pub allocate : K → Option ℕ × K
  pub ask_status : ℕ → PortStatus → K → Answer PortStatus × K
  pub ask_device : ℕ → DeviceCreate → K → Answer DeviceCreate × K
  pub ask_transfer : ℕ → Fetch → K → Answer Fetch × K
  pub send : ℕ → Message → K → Option ℕ × K

-- The process: the state of the system, the open descriptors that it got, the latest first, and the
-- number of handles on its heap.
pub record Process (K : Type 0) : Type 0 where
  pub kernel : K
  pub descriptors : List ℕ
  pub handles : ℕ

-- The descriptors without the latest `fd`.
abbrev pub without : ℕ → List ℕ → List ℕ
without fd [] = []
without fd (d ∷ ds) = let rest = without fd ds in if d == fd then ds else d ∷ rest

module _ {K : Type 0} (sys : System K) where
  unfoldable pub open_descriptor : Bytes → Process K → Answer ℕ × Process K
  open_descriptor path p =
      let (answer, k) = sys.open_path path p.kernel in
      elim answer [
        | failed e ↦ (failed e, record p { kernel = k })
        | answered fd ↦ (answered fd, record p { kernel = k; descriptors = fd ∷ p.descriptors })
      ]

  unfoldable pub close_descriptor : ℕ → Process K → Process K
  close_descriptor fd p = record p {
    kernel = sys.close fd p.kernel;
    descriptors = without fd p.descriptors;
  }

  -- `calloc(1U, sizeof(*new_handle))`
  unfoldable pub allocate_handle : Process K → Option ℕ × Process K
  allocate_handle p =
      let (refused, k) = sys.allocate p.kernel in
      elim refused [
        | none ↦ (none, record p { kernel = k; handles = suc p.handles })
        | some e ↦ (some e, record p { kernel = k })
      ]

-- `free(handle)`
abbrev pub free_handle : {K : Type 0} → Process K → Process K
free_handle p = record p { handles = p.handles - 1 }
