-- ===== src/Libc.antt =====
-- The C library as the driver uses it: character classes in the C locale.
pub mod Digits
use frostlake_pdo.Prelude.{
  Bool, Bytes, Option, [], arith, false, if◌then◌else◌, ltb, negsuc, none, pos, some, suc, true,
  within, zero, ℕ, ℤ, ◌%◌, ◌&&◌, ◌*◌, ◌+◌, ◌-◌, ◌/◌, ◌==◌, ◌^◌, ◌||◌, ◌↔◌, ◌∷◌, ◌≡◌,
}

abbrev pub isdigit : ℕ → Bool
isdigit c = within b'0' b'9' c

abbrev pub isalpha : ℕ → Bool
isalpha c = within b'a' b'z' c || within b'A' b'Z' c

abbrev pub isalnum : ℕ → Bool
isalnum c = isdigit c || isalpha c

-- space, \t, \n, \v, \f and \r
abbrev pub isspace : ℕ → Bool
isspace c = c == b' ' || within 9 13 c

abbrev pub toupper : ℕ → ℕ
toupper c = if within b'a' b'z' c then c - 32 else c

-- `strcmp(a, b) == 0`, on the bytes before the NUL.
unfoldable pub bytes_eq : Bytes → Bytes → Bool
bytes_eq [] [] = true
bytes_eq (x ∷ xs) (y ∷ ys) = x == y && bytes_eq xs ys
bytes_eq _ _ = false

pub bytes_eq_iff : (a b : Bytes) → (bytes_eq a b ≡ true) ↔ (a ≡ b)
unfolding bytes_eq
bytes_eq_iff (x ∷ a) (y ∷ b) = ground (arith, bytes_eq_iff a b)
bytes_eq_iff _ _ = ground arith

-- The digits of `%ld` for a number that is not negative, in front of `out`. A number has no more
-- digits than its value, so the fuel that `decimal` gives is enough.
unfoldable pub decimal_digits : ℕ → ℕ → Bytes → Bytes
decimal_digits zero n out = out
decimal_digits (suc f) n out =
    let more = decimal_digits f (n / 10) ((b'0' + n % 10) ∷ out) in
    if ltb n 10 then (b'0' + n) ∷ out else more

unfoldable pub decimal_nat : ℕ → Bytes
unfolding decimal_digits
decimal_nat n = decimal_digits (suc n) n []

-- `%ld`
unfoldable pub decimal : ℤ → Bytes
unfolding decimal_nat
decimal (pos n) = decimal_nat n
decimal (negsuc n) = b'-' ∷ decimal_nat (suc n)

-- LONG_MAX, of a `long` of 64 bits.
abbrev pub long_max : ℕ
long_max = 2 ^ 63 - 1

unfoldable pub digits_value : ℕ → Bytes → ℕ
digits_value n [] = n
digits_value n (c ∷ s) =
    let more = digits_value (n * 10 + (c - b'0')) s in if isdigit c then more else n

unfoldable pub skip_spaces : Bytes → Bytes
skip_spaces [] = []
skip_spaces (c ∷ s) = if isspace c then skip_spaces s else c ∷ s

-- A magnitude and its sign, held within LONG_MIN and LONG_MAX.
abbrev pub saturate : Bool → ℕ → ℤ
saturate negative n =
    if negative
    then (if n == 0 then pos 0 else if ltb long_max n then negsuc long_max else negsuc (n - 1))
    else pos (if ltb long_max n then long_max else n)

-- `strtol(s, NULL, 10)`
unfoldable pub strtol : Bytes → ℤ
unfolding skip_spaces digits_value
strtol s = elim (skip_spaces s) [
  | [] ↦ pos 0
  | c ∷ t ↦
      if c == b'-'
      then saturate true (digits_value 0 t)
      else if c == b'+'
      then saturate false (digits_value 0 t)
      else saturate false (digits_value 0 (c ∷ t))
]

unfoldable pub skip_digits : Bytes → Bytes
skip_digits [] = []
skip_digits (c ∷ s) = let rest = skip_digits s in if isdigit c then rest else c ∷ s

abbrev pub after_digits : Bytes → Option Bytes
after_digits [] = none
after_digits (c ∷ s) = if isdigit c then some (skip_digits s) else none

-- The end pointer of `strtol(s, &end, 10)`, or none where it is `s` itself.
unfoldable pub strtol_end : Bytes → Option Bytes
unfolding skip_spaces skip_digits
strtol_end s = elim (skip_spaces s) [
  | [] ↦ none
  | c ∷ t ↦ if c == b'-' || c == b'+' then after_digits t else after_digits (c ∷ t)
]

-- `(int) n`, of 32 bits.
unfoldable pub int_of_long : ℤ → ℤ
int_of_long (pos n) =
    let r = n % 2 ^ 32 in if ltb r (2 ^ 31) then pos r else negsuc (2 ^ 32 - 1 - r)
int_of_long (negsuc n) =
    let r = n % 2 ^ 32 in if ltb r (2 ^ 31) then negsuc r else pos (2 ^ 32 - 1 - r)

-- `atoi`
unfoldable pub atoi : Bytes → ℤ
unfolding strtol int_of_long
atoi s = int_of_long (strtol s)

abbrev pub tolower : ℕ → ℕ
tolower c = if within b'A' b'Z' c then c + 32 else c

abbrev pub is_hex_digit : ℕ → Bool
is_hex_digit c = isdigit c || within b'a' b'f' (tolower c)

abbrev pub hex_digit_value : ℕ → ℕ
hex_digit_value c = if isdigit c then c - b'0' else tolower c - b'a' + 10

unfoldable pub hex_number : ℕ → Bytes → ℕ
hex_number n [] = n
hex_number n (c ∷ s) =
    let more = hex_number (n * 16 + hex_digit_value c) s in if is_hex_digit c then more else n

-- The digits after a sign: "0x" in front of them is passed over.
abbrev pub hex_magnitude : Bytes → ℕ
hex_magnitude (a ∷ b ∷ s) =
    if a == b'0' && tolower b == b'x' then hex_number 0 s else hex_number 0 (a ∷ b ∷ s)
hex_magnitude s = hex_number 0 s

-- `strtol(s, NULL, 16)`
unfoldable pub strtol_hex : Bytes → ℤ
unfolding skip_spaces hex_number
strtol_hex s = elim (skip_spaces s) [
  | [] ↦ pos 0
  | c ∷ t ↦
      if c == b'-'
      then saturate true (hex_magnitude t)
      else if c == b'+'
      then saturate false (hex_magnitude t)
      else saturate false (hex_magnitude (c ∷ t))
]

-- `strncasecmp(a, b, |a|) == 0`, in the C locale.
unfoldable pub starts_with_caseless : Bytes → Bytes → Bool
starts_with_caseless [] s = true
starts_with_caseless (c ∷ name) [] = false
starts_with_caseless (c ∷ name) (d ∷ s) = tolower c == tolower d && starts_with_caseless name s
