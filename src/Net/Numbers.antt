-- ===== src/Net/Numbers.antt =====
-- Itoa and Atoi: the round trip, and which bytes Itoa writes.
use go_portless.Common.{
  ℕ, zero, suc, ◌+◌, ◌-◌, ◌*◌, ◌/◌, ◌%◌, ◌≤◌, ◌<◌, ◌≡◌, refl, ◌∙◌, subst, ◌≢◌, inl, inr, Bool, true,
  false, ◌&&◌, Option, none, some, [], ◌∷◌, ◌++◌, arith, ltb, Bool-cases, Text, contains,
}
use go_portless.Net.{
  ℤ, pos, negsuc, is_digit, print_fuel, print, itoa, parse_digits, parse_unsigned, max_int,
  positive, atoi,
}

abbrev then_parse : Option ℕ → Text → Option ℕ
then_parse none s = none
then_parse (some n) s = parse_digits n s

parse_digits-append :
    (acc : ℕ) (xs ys : Text) → parse_digits acc (xs ++ ys) ≡ then_parse (parse_digits acc xs) ys
unfolding parse_digits
parse_digits-append acc [] ys = refl
parse_digits-append acc (c ∷ xs) ys =
    ground (arith, parse_digits-append (acc * 10 + (c - b'0')) xs ys)

parse_digits-print_fuel : (f n : ℕ) → n < f → parse_digits 0 (print_fuel f n) ≡ some n
unfolding print_fuel parse_digits
parse_digits-print_fuel zero n h = elim h [ ]
parse_digits-print_fuel (suc f) n h = elim (Bool-cases (ltb n 10)) [
  | inl small ↦ rw small (ground arith)
  | inr large ↦
      rw
        (
          large,
          parse_digits-append 0 (print_fuel f (n / 10)) ((b'0' + n % 10) ∷ []),
          parse_digits-print_fuel f (n / 10) (ground arith),
        )
        (ground arith)
]

-- A test that holds for every byte of a text.
abbrev pub every : (ℕ → Bool) → Text → Bool
every p [] = true
every p (c ∷ s) = p c && every p s

every-append : (p : ℕ → Bool) (xs ys : Text) → every p (xs ++ ys) ≡ (every p xs && every p ys)
every-append p [] ys = refl
every-append p (c ∷ xs) ys = ground (arith, every-append p xs ys)

print_fuel-digits : (f n : ℕ) → every is_digit (print_fuel f n) ≡ true
unfolding print_fuel
print_fuel-digits zero n = refl
print_fuel-digits (suc f) n = elim (Bool-cases (ltb n 10)) [
  | inl small ↦ rw small (ground arith)
  | inr large ↦
      rw
        (
          large,
          every-append is_digit (print_fuel f (n / 10)) ((b'0' + n % 10) ∷ []),
          print_fuel-digits f (n / 10),
        )
        (ground arith)
]

Nonempty : Text → Type 0
Nonempty s = (c : ℕ) × (r : Text) × (s ≡ c ∷ r)

append-Nonempty : (xs : Text) (c : ℕ) → Nonempty (xs ++ c ∷ [])
unfolding Nonempty
append-Nonempty [] c = (c, [], refl)
append-Nonempty (x ∷ xs) c = (x, xs ++ c ∷ [], refl)

print-Nonempty : (n : ℕ) → Nonempty (print n)
unfolding print
print-Nonempty n = elim (Bool-cases (ltb n 10)) [
  | inl small ↦ rw small (append-Nonempty [] (b'0' + n))
  | inr large ↦ rw large (append-Nonempty (print_fuel n (n / 10)) (b'0' + n % 10))
]

pub print-digits : (n : ℕ) → every is_digit (print n) ≡ true
unfolding print
print-digits n = print_fuel-digits (suc n) n

parse_digits-print : (n : ℕ) → parse_digits 0 (print n) ≡ some n
unfolding print
parse_digits-print n = parse_digits-print_fuel (suc n) n (omega arith)

parse_unsigned-digits : (s : Text) → Nonempty s → parse_unsigned s ≡ parse_digits 0 s
unfolding parse_unsigned Nonempty
parse_unsigned-digits s (c, r, e) = rw e

parse_unsigned-print : (n : ℕ) → parse_unsigned (print n) ≡ some n
parse_unsigned-print n = parse_unsigned-digits (print n) (print-Nonempty n) ∙ parse_digits-print n

atoi-digits :
    (s : Text) → Nonempty s → every is_digit s ≡ true → atoi s ≡ positive (parse_unsigned s)
unfolding atoi Nonempty
atoi-digits s (c, r, e) h = rw e (ground (arith, subst (λ t. every is_digit t ≡ true) e h))

-- What Itoa writes, Atoi reads back, over the whole range of int64.
pub atoi-itoa_pos : (n : ℕ) → n ≤ max_int → atoi (itoa (pos n)) ≡ some (pos n)
unfolding itoa
atoi-itoa_pos n h =
    atoi-digits (print n) (print-Nonempty n) (print-digits n)
    ∙ rw (parse_unsigned-print n) (ground arith)

pub atoi-itoa_negsuc : (n : ℕ) → n ≤ max_int → atoi (itoa (negsuc n)) ≡ some (negsuc n)
unfolding itoa atoi
atoi-itoa_negsuc n h = rw (parse_unsigned-print (suc n)) (ground arith)

abbrev pub InRange : ℤ → Type 0
InRange (pos n) = n ≤ max_int
InRange (negsuc n) = n ≤ max_int

pub atoi-itoa : (z : ℤ) → InRange z → atoi (itoa z) ≡ some z
atoi-itoa (pos n) h = atoi-itoa_pos n h
atoi-itoa (negsuc n) h = atoi-itoa_negsuc n h

pub contains-digits :
    (c : ℕ) (s : Text) → is_digit c ≡ false → every is_digit s ≡ true → contains c s ≡ false
unfolding contains
contains-digits c [] h k = refl
contains-digits c (x ∷ s) h k = ground (arith, contains-digits c s)

-- Nothing but digits and a sign.
pub contains-itoa : (c : ℕ) (z : ℤ) → is_digit c ≡ false → c ≢ b'-' → contains c (itoa z) ≡ false
unfolding itoa contains
contains-itoa c (pos n) h k = contains-digits c (print n) h (print-digits n)
contains-itoa c (negsuc n) h k =
    ground (arith, contains-digits c (print (suc n)) h (print-digits (suc n)))
