-- ===== src/Ca/Serials.antt =====
-- The certificates that handshakes get from one loaded authority.
use go_portless.Common.{
  suc, ◌≤◌, ◌<◌, ◌≡◌, refl, sym, ap, ◌∙◌, ◌≢◌, ◌⊎◌, inl, inr, Option, none, some, List, [], ◌∷◌,
  arith, Bool-cases, Text, codes, text_eq, text_eq_iff, lookup, insert, lookup-insert,
  found_nothing, if_true, if_false,
}
use mathlib.Core.Option.{some-injective}
use go_portless.Errors.{Err}
use go_portless.Ca.{
  Leaf, Ca, loaded, Crypto, issue_with, issue, cache, leaf_cached, leaf_for, get_certificate,
}

-- Handshakes, one after the other.
abbrev pub handshakes : List (Crypto × Text) → Ca → Ca
handshakes [] c = c
handshakes ((x, name) ∷ hs) c = handshakes hs (get_certificate x c name).0

-- A cached certificate is for its name, and its number has been drawn.
abbrev pub IsIssued : Ca → Type 0
IsIssued c =
    (name : Text) (l : Leaf)
    → lookup name c.leaf ≡ some l
    → (l.name ≡ name) × (0 < l.serial) × (l.serial ≤ c.serial)

-- Of two names with one number.
abbrev IsSerial : Ca → Type 0
IsSerial c =
    (a b : Text) (k l : Leaf)
    → lookup a c.leaf ≡ some k
    → lookup b c.leaf ≡ some l
    → k.serial ≡ l.serial
    → a ≡ b

abbrev IsSound : Ca → Type 0
IsSound c = IsIssued c × IsSerial c

-- Drawing a number leaves the cache sound.
drawn-IsSound : (c : Ca) → IsSound c → IsSound (record c { serial = suc c.serial })
drawn-IsSound c (issued, distinct) =
    ((λ name l found. let (n, p, q) = issued name l found in (n, p, omega (arith, q))), distinct)

abbrev made : Ca → Text → Leaf
made c name = record { name = name; serial = suc c.serial }

cached-cases :
    (c : Ca) (name a : Text) (k : Leaf)
    → lookup a (insert name (made c name) c.leaf) ≡ some k
    → ((a ≡ name) × (k ≡ made c name)) ⊎ (lookup a c.leaf ≡ some k)
cached-cases c name a k found = elim (Bool-cases (text_eq name a)) [
  | inl hit ↦ inl (
    sym ((text_eq_iff name a).0 hit),
    some-injective _ _ (sym found ∙ (lookup-insert name a (made c name) c.leaf ∙ if_true _ hit)),
  )
  | inr miss ↦ inr (sym (lookup-insert name a (made c name) c.leaf ∙ if_false _ miss) ∙ found)
]

abbrev stored : Ca → Text → Ca
stored c name = record { leaf = insert name (made c name) c.leaf; serial = suc c.serial }

stored-IsIssued : (c : Ca) (name : Text) → IsIssued c → IsIssued (stored c name)
stored-IsIssued c name issued a k found = elim (cached-cases c name a k found) [
  | inl (same_name, new) ↦ (
    ap Leaf.name new ∙ sym same_name,
    omega (arith, ap Leaf.serial new),
    omega (arith, ap Leaf.serial new),
  )
  | inr old ↦ let (n, p, q) = issued a k old in (n, p, omega (arith, q))
]

stored-IsSerial : (c : Ca) (name : Text) → IsSound c → IsSerial (stored c name)
stored-IsSerial c name (issued, distinct) a b k l at_a at_b same_serial =
    elim (cached-cases c name a k at_a) [
      | inl (a_new, k_new) ↦ elim (cached-cases c name b l at_b) [
        | inl (b_new, l_new) ↦ a_new ∙ sym b_new
        | inr b_old ↦
            let (n, p, q) = issued b l b_old in
            absurd (omega (arith, ap Leaf.serial k_new, q, same_serial))
      ]
      | inr a_old ↦ elim (cached-cases c name b l at_b) [
        | inl (b_new, l_new) ↦
            let (n, p, q) = issued a k a_old in
            absurd (omega (arith, ap Leaf.serial l_new, q, same_serial))
        | inr b_old ↦ distinct a b k l a_old b_old same_serial
      ]
    ]

issued-IsSound :
    (k s : Option Err) (c : Ca) (name : Text)
    → IsSound c
    → IsSound (cache name (issue_with k s c name)).0
issued-IsSound (some e) s c name h = h
issued-IsSound none (some e) c name h = drawn-IsSound c h
issued-IsSound none none c name h = (stored-IsIssued c name h.0, stored-IsSerial c name h)

leaf_cached-IsSound :
    (o : Option Leaf) (x : Crypto) (c : Ca) (name : Text)
    → IsSound c
    → IsSound (leaf_cached o x c name).0
unfolding issue
leaf_cached-IsSound (some l) x c name h = h
leaf_cached-IsSound none x c name h = issued-IsSound x.key_error x.sign_error c name h

get_certificate-IsSound :
    (x : Crypto) (c : Ca) (name : Text) → IsSound c → IsSound (get_certificate x c name).0
unfolding get_certificate leaf_for
get_certificate-IsSound x c [] h = leaf_cached-IsSound _ x c (codes "localhost") h
get_certificate-IsSound x c (b ∷ name) h = leaf_cached-IsSound _ x c (b ∷ name) h

handshakes-IsSound : (hs : List (Crypto × Text)) (c : Ca) → IsSound c → IsSound (handshakes hs c)
handshakes-IsSound [] c h = h
handshakes-IsSound ((x, name) ∷ hs) c h =
    handshakes-IsSound hs (get_certificate x c name).0 (get_certificate-IsSound x c name h)

loaded-IsSound : IsSound loaded
unfolding lookup
loaded-IsSound =
    ((λ name l found. found_nothing refl found), (λ a b k l at_a at_b e. found_nothing refl at_a))

-- After any handshakes with an authority as it is loaded, whichever of its cryptographic calls
-- have failed: a cached certificate is for the name that it is cached under, with a positive
-- serial number, and another name's certificate has another serial number.
pub serials_distinct :
    (hs : List (Crypto × Text)) (a b : Text) (k l : Leaf)
    → lookup a (handshakes hs loaded).leaf ≡ some k
    → lookup b (handshakes hs loaded).leaf ≡ some l
    → a ≢ b
    → (k.name ≡ a) × (0 < k.serial) × (k.serial ≢ l.serial)
serials_distinct hs a b k l at_a at_b other =
    let (issued, distinct) = handshakes-IsSound hs loaded loaded-IsSound in
    let (n, p, q) = issued a k at_a in (n, p, (λ e. other (distinct a b k l at_a at_b e)))
