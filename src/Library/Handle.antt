-- ===== src/Library/Handle.antt =====
-- libvirtusb/src/virtusb.c: struct virtusb_handle, virtusb_open, virtusb_close and
-- virtusb_get_device_path.
use virt_usb.Prelude.{
  ℕ, Bool, not, Option, none, some, ◌++◌, ◌==◌, leb, if◌then◌else◌, length, ℤ, pos, negsuc, success,
  einval, ebadf, enametoolong, negated,
}
use virt_usb.Text.{Bytes, codes, decimal}
use virt_usb.Library.System.{
  System, Process, failed, answered, open_descriptor, close_descriptor, allocate_handle,
  free_handle,
}

-- VIRTUSB_DEVICE_PATH_MAX
abbrev pub device_path_max : ℕ
device_path_max = 64

-- struct virtusb_handle
pub record Handle : Type 0 where
  pub fd : ℤ
  pub instance_number : ℕ
  pub device_path : Bytes

-- "/dev/virtusb%u"
abbrev pub path_of : ℕ → Bytes
path_of number = codes "/dev/virtusb" ++ decimal number

-- The errno that `virtusb_open` reports for a `calloc` that failed.
abbrev pub saved_errno : ℕ → ℕ
saved_errno e = if e == 0 then 12 else e

module _ {K : Type 0} (sys : System K) where
  -- The part of `virtusb_open` with a descriptor.
  unfoldable pub open_handle : ℕ → ℕ → Process K → ℤ × Option Handle × Process K
  open_handle number fd p =
      let (refused, p') = allocate_handle sys p in
      elim refused [
        | some e ↦ (negated (saved_errno e), none, close_descriptor sys fd p')
        | none ↦
            if leb device_path_max (length (path_of number))
            then (enametoolong, none, free_handle (close_descriptor sys fd p'))
            else (
              success,
              some (record { fd = pos fd; instance_number = number; device_path = path_of number }),
              p',
            )
      ]

  -- The result, what `*handle` gets and the process; `wanted` is `handle != NULL`.
  unfoldable pub open_instance : ℕ → Bool → Process K → ℤ × Option Handle × Process K
  open_instance number wanted p =
      if not wanted
      then (einval, none, p)
      else if leb device_path_max (length (path_of number))
      then (enametoolong, none, p)
      else (let (answer, p') = open_descriptor sys (path_of number) p in
          elim answer [ failed e ↦ (negated e, none, p') | answered fd ↦ open_handle number fd p' ])

  unfoldable pub close : Option Handle → Process K → Process K
  close none p = p
  close (some handle) p = elim handle.fd [
    | pos fd ↦ free_handle (close_descriptor sys fd p)
    | negsuc n ↦ free_handle p
  ]

abbrev pub get_device_path : Option Handle → Option Bytes
get_device_path none = none
get_device_path (some handle) = some handle.device_path

-- What every call does with its handle first: the error it returns, or the descriptor.
pub data Descriptor : Type 0 where
  bad : ℤ → Descriptor
  usable : ℕ → Descriptor

unfoldable pub descriptor : Option Handle → Descriptor
descriptor none = bad einval
descriptor (some handle) = elim handle.fd [ pos fd ↦ usable fd | negsuc n ↦ bad ebadf ]
