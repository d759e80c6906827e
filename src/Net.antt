-- ===== src/Net.antt =====
-- What the program uses of packages net and strconv on addresses: net.SplitHostPort,
-- net.JoinHostPort, strconv.Itoa and strconv.Atoi, and hostOf of middleware.go.
-- A Go int is an integer in the range of int64.
pub mod Numbers
pub mod HostPort
pub mod Ip
use go_portless.Common.{
  ℕ, zero, suc, ◌+◌, ◌-◌, ◌*◌, ◌/◌, ◌%◌, Bool, false, not, ◌&&◌, ◌||◌, Option, none, some, [], ◌∷◌,
  ◌++◌, ltb, leb, ◌==◌, if◌then◌else◌, Text, contains, cut_at,
}

-- `negsuc n` is -(n + 1).
pub data ℤ : Type 0 where
  pos : ℕ → ℤ
  negsuc : ℕ → ℤ

unfoldable pub int_eq : ℤ → ℤ → Bool
int_eq (pos m) (pos n) = m == n
int_eq (negsuc m) (negsuc n) = m == n
int_eq _ _ = false

abbrev pub is_digit : ℕ → Bool
is_digit c = leb b'0' c && leb c b'9'

-- The decimal digits of n; the fuel n + 1 is more than the digits that are left.
unfoldable pub print_fuel : ℕ → ℕ → Text
print_fuel zero n = []
print_fuel (suc f) n =
    let more = print_fuel f (n / 10) ++ (b'0' + n % 10) ∷ [] in
    if ltb n 10 then (b'0' + n) ∷ [] else more

unfoldable pub print : ℕ → Text
unfolding print_fuel
print n = print_fuel (suc n) n

unfoldable pub itoa : ℤ → Text
unfolding print
itoa (pos n) = print n
itoa (negsuc n) = b'-' ∷ print (suc n)

unfoldable pub parse_digits : ℕ → Text → Option ℕ
parse_digits acc [] = some acc
parse_digits acc (c ∷ s) =
    let rest = parse_digits (acc * 10 + (c - b'0')) s in if is_digit c then rest else none

unfoldable pub parse_unsigned : Text → Option ℕ
unfolding parse_digits
parse_unsigned [] = none
parse_unsigned (c ∷ s) = parse_digits 0 (c ∷ s)

abbrev pub max_int : ℕ
max_int = 9223372036854775807

abbrev pub positive : Option ℕ → Option ℤ
positive none = none
positive (some n) = if leb n max_int then some (pos n) else none

abbrev pub negative : Option ℕ → Option ℤ
negative none = none
negative (some zero) = some (pos 0)
negative (some (suc n)) = if leb n max_int then some (negsuc n) else none

-- strconv.Atoi; `none` is its error.
unfoldable pub atoi : Text → Option ℤ
unfolding parse_unsigned
atoi [] = none
atoi (c ∷ s) =
    if c == b'-'
    then negative (parse_unsigned s)
    else if c == b'+'
    then positive (parse_unsigned s)
    else positive (parse_unsigned (c ∷ s))

-- The parts before and after the last byte c.
unfoldable pub cut_last : ℕ → Text → Option (Text × Text)
cut_last c [] = none
cut_last c (x ∷ xs) = elim (cut_last c xs) [
  | some (before, after) ↦ some (x ∷ before, after)
  | none ↦ if x == c then some ([], xs) else none
]

-- "[host]:port", given what follows the "["; `post` is what follows the first "]".
unfoldable pub split_closed : Text → Text → Text → Option (Text × Text)
split_closed rest host [] = none
split_closed rest host (c ∷ port) =
    if c == b':' && not (contains b':' port)
    then (if contains b'[' rest || contains b']' port then none else some (host, port))
    else none

unfoldable pub split_bracketed : Text → Option (Text × Text)
split_bracketed rest = elim (cut_at b']' rest) [
  | none ↦ none
  | some (host, post) ↦ split_closed rest host post
]

unfoldable pub split_plain : Text → Option (Text × Text)
split_plain hp = elim (cut_last b':' hp) [
  | none ↦ none
  | some (host, port) ↦
      if contains b':' host
      then none
      else if contains b'[' hp || contains b']' hp
      then none
      else some (host, port)
]

-- net.SplitHostPort; `none` is its error.
unfoldable pub split_host_port : Text → Option (Text × Text)
split_host_port [] = none
split_host_port (c ∷ rest) = if c == b'[' then split_bracketed rest else split_plain (c ∷ rest)

unfoldable pub join_host_port : Text → Text → Text
join_host_port host port =
    if contains b':' host then b'[' ∷ (host ++ (b']' ∷ (b':' ∷ port))) else host ++ (b':' ∷ port)

-- hostOf
unfoldable pub host_of : Text → Text
host_of address = elim (split_host_port address) [ none ↦ address | some (host, port) ↦ host ]
