-- ===== src/Common/Bytes.antt =====
-- Go strings as lists of bytes, with what the program uses of package strings on them:
-- equality, strings.Contains of one byte, strings.Cut at one byte, and strings.ToLower, which
-- on ASCII text maps 'A'..'Z' and leaves every other byte (texts are taken to be ASCII).
use Prim.Native.Nat.{ℕ, ◌+◌}
use Prim.Native.Char.{code}
use Prim.Native.String.{String}
use mathlib.Core.Path.{◌≡◌, refl}
use mathlib.Core.Logic.{◌≢◌, ◌↔◌}
use mathlib.Core.Bool.{Bool, true, false, ◌&&◌, ◌||◌}
use mathlib.Core.Option.{Option, none, some}
use mathlib.Core.List.{List, [], ◌∷◌, ◌++◌}
use native.Mathlib.Omega.{arith}
use go_portless.Common.Tests.{leb, ◌==◌, if◌then◌else◌}

abbrev pub Text : Type 0
Text = List ℕ

-- The bytes of an ASCII literal.
abbrev pub codes : String → Text
codes String.[] = []
codes (String.◌∷◌ c s) = code c ∷ codes s

unfoldable pub text_eq : Text → Text → Bool
text_eq [] [] = true
text_eq [] (y ∷ ys) = false
text_eq (x ∷ xs) [] = false
text_eq (x ∷ xs) (y ∷ ys) = x == y && text_eq xs ys

pub text_eq_iff : (a b : Text) → (text_eq a b ≡ true) ↔ (a ≡ b)
unfolding text_eq
text_eq_iff [] [] = ground arith
text_eq_iff [] (y ∷ ys) = ground arith
text_eq_iff (x ∷ xs) [] = ground arith
text_eq_iff (x ∷ xs) (y ∷ ys) = ground (arith, text_eq_iff xs ys)

pub text_eq_refl : (a : Text) → text_eq a a ≡ true
text_eq_refl a = (text_eq_iff a a).1 refl

pub text_eq_sym : (a b : Text) → text_eq a b ≡ text_eq b a
text_eq_sym a b = ground (arith, text_eq_iff a b, text_eq_iff b a)

unfoldable pub contains : ℕ → Text → Bool
contains c [] = false
contains c (x ∷ xs) = x == c || contains c xs

pub contains-append :
    (c : ℕ) (xs ys : Text) → contains c (xs ++ ys) ≡ (contains c xs || contains c ys)
unfolding contains
contains-append c [] ys = refl
contains-append c (x ∷ xs) ys = ground (arith, contains-append c xs ys)

-- strings.Cut at the first occurrence of the byte c.
unfoldable pub cut_at : ℕ → Text → Option (Text × Text)
cut_at c [] = none
cut_at c (x ∷ xs) =
    if x == c
    then some ([], xs)
    else elim (cut_at c xs) [ none ↦ none | some (before, after) ↦ some (x ∷ before, after) ]

pub cut_at-append :
    (c : ℕ) (xs ys : Text) → contains c xs ≡ false → cut_at c (xs ++ c ∷ ys) ≡ some (xs, ys)
unfolding cut_at contains
cut_at-append c [] ys h = ground arith
cut_at-append c (x ∷ xs) ys h = ground (arith, cut_at-append c xs ys)

unfoldable pub lower_byte : ℕ → ℕ
lower_byte c = if leb b'A' c && leb c b'Z' then c + 32 else c

unfoldable pub to_lower : Text → Text
to_lower [] = []
to_lower (c ∷ s) = lower_byte c ∷ to_lower s

pub to_lower_idempotent : (s : Text) → to_lower (to_lower s) ≡ to_lower s
unfolding to_lower lower_byte
to_lower_idempotent [] = refl
to_lower_idempotent (c ∷ s) = ground (arith, to_lower_idempotent s)

pub text_eq_no : (s t : Text) → s ≢ t → text_eq s t ≡ false
text_eq_no s t ne = ground (arith, text_eq_iff s t)

-- strings.TrimSpace of ASCII text.
abbrev pub is_space : ℕ → Bool
is_space c = c == 32 || (leb 9 c && leb c 13)

unfoldable pub trim_left : Text → Text
trim_left [] = []
trim_left (c ∷ s) = if is_space c then trim_left s else c ∷ s

abbrev pub unless_space : ℕ → Text → Text
unless_space c [] = if is_space c then [] else c ∷ []
unless_space c (d ∷ t) = c ∷ d ∷ t

unfoldable pub trim_right : Text → Text
trim_right [] = []
trim_right (c ∷ s) = unless_space c (trim_right s)

unfoldable pub trim_space : Text → Text
trim_space s = trim_left (trim_right s)

trim_left-none : (s : Text) (c : ℕ) → is_space c ≡ false → trim_left (c ∷ s) ≡ c ∷ s
unfolding trim_left
trim_left-none s c h = ground arith

unfoldable pub has_space : Text → Bool
has_space [] = false
has_space (c ∷ s) = is_space c || has_space s

trim_right-none : (s : Text) → has_space s ≡ false → trim_right s ≡ s
unfolding trim_right has_space
trim_right-none [] h = refl
trim_right-none (c ∷ []) h = ground arith
trim_right-none (c ∷ d ∷ s) h = rw (trim_right-none (d ∷ s) (ground arith)) refl

pub trim_space-none : (s : Text) → has_space s ≡ false → trim_space s ≡ s
unfolding trim_space has_space trim_left
trim_space-none [] h = unfold trim_right in refl
trim_space-none (c ∷ s) h = rw (trim_right-none (c ∷ s) h, trim_space) (ground arith)

pub has_space-append :
    (s t : Text) → has_space s ≡ false → has_space t ≡ false → has_space (s ++ t) ≡ false
unfolding has_space
has_space-append [] t h k = k
has_space-append (c ∷ s) t h k = ground (arith, has_space-append s t)
