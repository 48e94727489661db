-- ===== src/Text.antt =====
-- What the programs in libvirtusb/src and tools use of the C library's text functions, on the bytes of
-- a string without its terminator: strcmp, strtoul with base 0, strtok_r with one separator, and the
-- conversions %u and %08x of printf.
pub mod Laws
use Prim.Native.Char.{code}
use Prim.Native.String.{String}
use virt_usb.Prelude.{
  ℕ, zero, suc, ◌+◌, ◌-◌, ◌*◌, ◌/◌, ◌%◌, ◌^◌, Bool, true, false, not, ◌&&◌, ◌||◌, Option, none,
  some, List, [], ◌∷◌, ◌++◌, ◌==◌, ltb, leb, if◌then◌else◌,
}

abbrev pub Bytes : Type 0
Bytes = List ℕ

-- The bytes of an ASCII text.
abbrev pub codes : String → Bytes
codes String.[] = []
codes (String.◌∷◌ c s) = code c ∷ codes s

-- `strcmp(a, b) == 0`
abbrev pub same_text : Bytes → Bytes → Bool
same_text [] [] = true
same_text (a ∷ rest) (b ∷ others) = a == b && same_text rest others
same_text _ _ = false

-- The value of a digit, 36 where the byte is none.
unfoldable pub digit_of : ℕ → ℕ
digit_of c =
    if leb b'0' c && leb c b'9'
    then c - b'0'
    else if leb b'a' c && leb c b'z'
    then c - b'a' + 10
    else if leb b'A' c && leb c b'Z'
    then c - b'A' + 10
    else 36

abbrev pub is_digit : ℕ → ℕ → Bool
is_digit base c = ltb (digit_of c) base

-- The number that the digits in front spell, after `acc`, and what follows them.
unfoldable pub read_digits : ℕ → Bytes → ℕ → ℕ × Bytes
read_digits base [] acc = (acc, [])
read_digits base (c ∷ cs) acc =
    let rest = read_digits base cs (acc * base + digit_of c) in
    if is_digit base c then rest else (acc, c ∷ cs)

-- `0x` is a prefix only before a hexadecimal digit.
unfoldable pub read_hexadecimal : ℕ → Bytes → ℕ × Bytes
read_hexadecimal x [] = (0, x ∷ [])
read_hexadecimal x (c ∷ cs) = if is_digit 16 c then read_digits 16 (c ∷ cs) 0 else (0, x ∷ c ∷ cs)

-- What follows a leading 0.
unfoldable pub read_prefixed : Bytes → ℕ × Bytes
read_prefixed [] = (0, [])
read_prefixed (c ∷ cs) =
    if c == b'x' || c == b'X' then read_hexadecimal c cs else read_digits 8 (c ∷ cs) 0

-- The digits after the blanks and the sign; none where there are none.
unfoldable pub read_number : Bytes → Option (ℕ × Bytes)
read_number [] = none
read_number (c ∷ cs) =
    if c == b'0'
    then some (read_prefixed cs)
    else if is_digit 10 c
    then some (read_digits 10 (c ∷ cs) 0)
    else none

abbrev pub is_space : ℕ → Bool
is_space c = c == 32 || (leb 9 c && leb c 13)

unfoldable pub skip_space : Bytes → Bytes
skip_space [] = []
skip_space (c ∷ cs) = let rest = skip_space cs in if is_space c then rest else c ∷ cs

-- The sign in front, and what follows it.
unfoldable pub read_sign : Bytes → Bool × Bytes
read_sign [] = (false, [])
read_sign (c ∷ cs) =
    if c == b'-' then (true, cs) else if c == b'+' then (false, cs) else (false, c ∷ cs)

-- The result of strtoul, for a 64-bit `unsigned long`: the value, whether errno is ERANGE, and `end`.
pub record Number : Type 0 where
  pub value : ℕ
  pub out_of_range : Bool
  pub rest : Bytes

-- A number after a minus sign is negated modulo 2^64.
abbrev pub signed : Bool → ℕ → Bytes → Number
signed negative n rest =
    if ltb (2 ^ 64 - 1) n
    then record { value = 2 ^ 64 - 1; out_of_range = true; rest = rest }
    else record {
      value = if negative then (2 ^ 64 - n) % 2 ^ 64 else n;
      out_of_range = false;
      rest = rest;
    }

unfoldable pub strtoul : Bytes → Number
strtoul text =
    let (negative, unsigned) = read_sign (skip_space text) in
    elim (read_number unsigned) [
      | none ↦ record { value = 0; out_of_range = false; rest = text }
      | some (n, rest) ↦ signed negative n rest
    ]

-- The tokens of strtok_r, which are never empty; `current` is the token begun.
unfoldable pub tokens_from : ℕ → Bytes → Bytes → List Bytes
tokens_from separator [] [] = []
tokens_from separator [] (t ∷ ts) = (t ∷ ts) ∷ []
tokens_from separator (c ∷ cs) current =
    let fresh = tokens_from separator cs [] in
    let longer = tokens_from separator cs (current ++ c ∷ []) in
    if c == separator then elim current [ [] ↦ fresh | t ∷ ts ↦ (t ∷ ts) ∷ fresh ] else longer

unfoldable pub tokens : ℕ → Bytes → List Bytes
tokens separator text = tokens_from separator text []

-- The decimal digits of `n`, in front of `acc`, at most `fuel` of them.
unfoldable pub digits_before : ℕ → ℕ → Bytes → Bytes
digits_before zero n acc = acc
digits_before (suc fuel) n acc =
    let more = digits_before fuel (n / 10) ((b'0' + n % 10) ∷ acc) in
    if n / 10 == 0 then (b'0' + n % 10) ∷ acc else more

-- %u, for a number of 32 bits, which has at most 10 digits
unfoldable pub decimal : ℕ → Bytes
decimal n = digits_before 10 n []

abbrev pub hexadecimal_digit : ℕ → ℕ
hexadecimal_digit d = if ltb d 10 then b'0' + d else b'a' + (d - 10)

-- %08x, for a number of 32 bits
unfoldable pub hexadecimal_before : ℕ → ℕ → Bytes → Bytes
hexadecimal_before zero n acc = acc
hexadecimal_before (suc places) n acc =
    hexadecimal_before places (n / 16) (hexadecimal_digit (n % 16) ∷ acc)

unfoldable pub hexadecimal : ℕ → Bytes
hexadecimal n = hexadecimal_before 8 n []
