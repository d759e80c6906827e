-- ===== src/Cli/Args.antt =====
-- The name of `route` may stand anywhere among the flags.
use go_portless.Common.{
  ◌≡◌, refl, ap, ◌∙◌, subst, ◌≢◌, true, false, not, ◌&&◌, some, List, [], ◌∷◌, ◌++◌, arith, All,
  Text, text_eq, if_true, if_false, text_eq_no,
}
use go_portless.Dial.{ok}
use go_portless.Cli.{
  starts_dash, last_of, takes_value, is_flag_value, is_bare, take_arg, split_loop, named,
  split_name,
}

-- A flag as it is written: alone, or with its value as the next argument.
pub data Flag : Type 0 where
  alone : Text → Flag
  valued : Text → Text → Flag

abbrev pub written : List Flag → List Text
written [] = []
written (alone t ∷ fs) = t ∷ written fs
written (valued k v ∷ fs) = k ∷ v ∷ written fs

-- A flag alone is --json or has its value after a sign of equality; a value has no dash in front.
abbrev pub IsFlag : Flag → Type 0
IsFlag (alone t) = (starts_dash t ≡ true) × (takes_value t ≡ false)
IsFlag (valued k v) = (takes_value k ≡ true) × (starts_dash v ≡ false)

last_of-append : (xs : List Text) (a : Text) → last_of (xs ++ a ∷ []) ≡ some a
unfolding last_of
last_of-append [] a = refl
last_of-append (x ∷ []) a = refl
last_of-append (x ∷ y ∷ xs) a = last_of-append (y ∷ xs) a

append-append : (xs : List Text) (a : Text) (ys : List Text) → (xs ++ a ∷ []) ++ ys ≡ xs ++ a ∷ ys
append-append [] a ys = refl
append-append (x ∷ xs) a ys = ap (λ zs. x ∷ zs) (append-append xs a ys)

append_nil : (xs : List Text) → xs ≡ xs ++ []
append_nil [] = refl
append_nil (x ∷ xs) = ap (λ zs. x ∷ zs) (append_nil xs)

takes_value-dash : (k : Text) → takes_value k ≡ true → starts_dash k ≡ true
unfolding takes_value
takes_value-dash k h = ground arith

no_dash-takes_value : (v : Text) → starts_dash v ≡ false → takes_value v ≡ false
unfolding takes_value
no_dash-takes_value v h = ground arith

-- The three rounds: of an argument with a dash, of the value of a flag, and after the name.
take_arg-dash :
    (name : Text) (flags : List Text) (a : Text)
    → starts_dash a ≡ true
    → take_arg name flags a ≡ (name, flags ++ a ∷ [])
unfolding take_arg
take_arg-dash name flags a h =
    if_false {b = is_bare a && text_eq name [] && not (is_flag_value flags)} _ (ground arith)

takes_last :
    (flags : List Text) (k : Text) → takes_value k ≡ true → is_flag_value (flags ++ k ∷ []) ≡ true
unfolding is_flag_value
takes_last flags k h = rw (last_of-append flags k) h

takes_none :
    (flags : List Text) (k : Text) → takes_value k ≡ false → is_flag_value (flags ++ k ∷ []) ≡ false
unfolding is_flag_value
takes_none flags k h = rw (last_of-append flags k) h

take_arg-value :
    (name : Text) (flags : List Text) (k a : Text)
    → takes_value k ≡ true
    → take_arg name (flags ++ k ∷ []) a ≡ (name, (flags ++ k ∷ []) ++ a ∷ [])
unfolding take_arg
take_arg-value name flags k a h =
    if_false {b = is_bare a && text_eq name [] && not (is_flag_value (flags ++ k ∷ []))} _
      (ground (arith, takes_last flags k h))

take_arg-named :
    (name : Text) (flags : List Text) (a : Text)
    → name ≢ []
    → take_arg name flags a ≡ (name, flags ++ a ∷ [])
unfolding take_arg
take_arg-named name flags a h =
    if_false {b = is_bare a && text_eq name [] && not (is_flag_value flags)} _
      (ground (arith, text_eq_no name [] h))

split_loop-named :
    (args : List Text) (name : Text) (flags : List Text)
    → name ≢ []
    → split_loop args (name, flags) ≡ (name, flags ++ args)
unfolding split_loop
split_loop-named [] name flags h = ap (λ zs. (name, zs)) (append_nil flags)
split_loop-named (a ∷ args) name flags h =
    ap (split_loop args) (take_arg-named name flags a h)
    ∙ (split_loop-named args name (flags ++ a ∷ []) h
        ∙ ap (λ zs. (name, zs)) (append-append flags a args))

take_arg-bare :
    (flags : List Text) (a : Text)
    → a ≢ []
    → starts_dash a ≡ false
    → is_flag_value flags ≡ false
    → take_arg [] flags a ≡ (a, flags)
unfolding take_arg text_eq
take_arg-bare flags a h d v =
    if_true {b = is_bare a && text_eq [] [] && not (is_flag_value flags)} _
      (ground (arith, text_eq_no a [] h))

split_loop-flags :
    (fs : List Flag) (rest : List Text) (flags : List Text)
    → All IsFlag fs
    → is_flag_value flags ≡ false
    → (split_loop (written fs ++ rest) ([], flags) ≡ split_loop rest ([], flags ++ written fs))
      × (is_flag_value (flags ++ written fs) ≡ false)
unfolding split_loop
split_loop-flags [] rest flags h v = (
  ap (λ zs. split_loop rest ([], zs)) (append_nil flags),
  subst (λ zs. is_flag_value zs ≡ false) (append_nil flags) v,
)
split_loop-flags (alone t ∷ fs) rest flags ((d, t_alone), h) v =
    let (e, v') = split_loop-flags fs rest (flags ++ t ∷ []) h (takes_none flags t t_alone) in
    let moved = append-append flags t (written fs) in
    (
      ap (split_loop (written fs ++ rest)) (take_arg-dash [] flags t d)
          ∙ (e ∙ ap (λ zs. split_loop rest ([], zs)) moved),
      subst (λ zs. is_flag_value zs ≡ false) moved v',
    )
split_loop-flags (valued k w ∷ fs) rest flags ((k_takes, w_bare), h) v =
    let (e, v') =
      split_loop-flags fs rest ((flags ++ k ∷ []) ++ w ∷ []) h
        (takes_none (flags ++ k ∷ []) w (no_dash-takes_value w w_bare)) in
    let moved =
      append-append (flags ++ k ∷ []) w (written fs) ∙ append-append flags k (w ∷ written fs) in
    (
      ap (split_loop (written fs ++ rest)) (
            ap (λ (s : Text × List Text). take_arg s.0 s.1 w)
              (take_arg-dash [] flags k (takes_value-dash k k_takes))
            ∙ take_arg-value [] flags k w k_takes)
          ∙ (e ∙ ap (λ zs. split_loop rest ([], zs)) moved),
      subst (λ zs. is_flag_value zs ≡ false) moved v',
    )

named-ok : (name : Text) (flags : List Text) → name ≢ [] → named (name, flags) ≡ ok (name, flags)
named-ok [] flags h = absurd (h refl)
named-ok (c ∷ name) flags h = refl

-- The name may stand before, between or after the flags: of flags, a name that is not empty and
-- has no dash in front, and any further arguments, split_name answers the name, and the other
-- arguments in their order. A flag before the name is --json, has its value after a sign of
-- equality, or is followed by a value that has no dash in front.
pub split_name-written :
    (fs : List Flag) (name : Text) (rest : List Text)
    → All IsFlag fs
    → name ≢ []
    → starts_dash name ≡ false
    → split_name (written fs ++ name ∷ rest) ≡ ok (name, written fs ++ rest)
unfolding split_name split_loop is_flag_value last_of
split_name-written fs name rest h some_name bare =
    let (e, v) = split_loop-flags fs (name ∷ rest) [] h refl in
    ap named (
      e
      ∙ (ap (split_loop rest) (take_arg-bare (written fs) name some_name bare v)
          ∙ split_loop-named rest name (written fs) some_name))
    ∙ named-ok name (written fs ++ rest) some_name
