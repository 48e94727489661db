-- ===== src/Prelude/Int.antt =====
-- The C `int` of a return code or of a transfer status, and the error numbers that the code returns.
use Prim.Native.Nat.{ℕ, zero, suc}
use mathlib.Core.Bool.{Bool, true, false}

-- `negsuc n` is -(n + 1).
pub data ℤ : Type 0 where
  pos : ℕ → ℤ
  negsuc : ℕ → ℤ

-- `ret < 0`
abbrev pub is_negative : ℤ → Bool
is_negative (pos n) = false
is_negative (negsuc n) = true

-- `return 0`
abbrev pub success : ℤ
success = pos 0

-- -ENOENT
abbrev pub enoent : ℤ
enoent = negsuc 1

-- -EAGAIN
abbrev pub eagain : ℤ
eagain = negsuc 10

-- -ENOMEM
abbrev pub enomem : ℤ
enomem = negsuc 11

-- -EFAULT
abbrev pub efault : ℤ
efault = negsuc 13

-- -EBUSY
abbrev pub ebusy : ℤ
ebusy = negsuc 15

-- -ENODEV
abbrev pub enodev : ℤ
enodev = negsuc 18

-- -EINVAL
abbrev pub einval : ℤ
einval = negsuc 21

-- -ENOTTY
abbrev pub enotty : ℤ
enotty = negsuc 24

-- -ENOSPC
abbrev pub enospc : ℤ
enospc = negsuc 27

-- -EPIPE
abbrev pub epipe : ℤ
epipe = negsuc 31

-- -EIDRM
abbrev pub eidrm : ℤ
eidrm = negsuc 42

-- -EMSGSIZE
abbrev pub emsgsize : ℤ
emsgsize = negsuc 89

-- -EOPNOTSUPP
abbrev pub eopnotsupp : ℤ
eopnotsupp = negsuc 94

-- -ESHUTDOWN
abbrev pub eshutdown : ℤ
eshutdown = negsuc 107

-- -EALREADY
abbrev pub ealready : ℤ
ealready = negsuc 113

-- -EINPROGRESS
abbrev pub einprogress : ℤ
einprogress = negsuc 114

-- -EBADF
abbrev pub ebadf : ℤ
ebadf = negsuc 8

-- -ENAMETOOLONG
abbrev pub enametoolong : ℤ
enametoolong = negsuc 35

-- `-errno`
abbrev pub negated : ℕ → ℤ
negated zero = pos 0
negated (suc n) = negsuc n
