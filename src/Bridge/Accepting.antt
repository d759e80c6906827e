-- ===== src/Bridge/Accepting.antt =====
-- The accept loop of a local listener serves every connection, until the listener or the registry is
-- closed.
use mathlib.Core.List.{append-nil}
use go_portless.Common.{
  ◌≡◌, refl, sym, ◌∙◌, ◌↔◌, Bool, true, false, ◌||◌, Option, none, some, List, [], ◌∷◌, ◌++◌, arith,
  if◌then◌else◌,
}
use go_portless.Errors.{net_closed, is}
use go_portless.Dial.{Conn}
use go_portless.Backoff.{Backoff, new}
use go_portless.Bridge.{
  Accepted, accepted, refused, Deed, serves, waits, accept_step, then_on, accept_loop,
  bridge_accept,
}

-- The listener is closed, or the registry closes during the delay.
abbrev pub is_last : Accepted → Bool
is_last (accepted c) = false
is_last (refused e draw stopped) = is net_closed e || stopped

unfoldable pub any_last : List Accepted → Bool
any_last [] = false
any_last (a ∷ rest) = is_last a || any_last rest

-- The connections among the answers up to the last one.
abbrev pub conn_of : Accepted → List Conn
conn_of (accepted c) = c ∷ []
conn_of (refused e draw stopped) = []

unfoldable pub conns_until : List Accepted → List Conn
conns_until [] = []
conns_until (a ∷ rest) = conn_of a ++ (if is_last a then [] else conns_until rest)

unfoldable pub served : List Deed → List Conn
served [] = []
served (serves c ∷ ds) = c ∷ served ds
served (waits d ∷ ds) = served ds

served-append : (ds es : List Deed) → served (ds ++ es) ≡ served ds ++ served es
unfolding served
served-append [] es = refl
served-append (serves c ∷ ds) es = rw (served-append ds es) refl
served-append (waits d ∷ ds) es = served-append ds es

accept_step_last :
    (bo : Backoff) (a : Accepted)
    → (served (accept_step bo a).0 ≡ conn_of a)
      × ((is_last a ≡ true) ↔ ((accept_step bo a).1 ≡ none))
unfolding accept_step served
accept_step_last bo (accepted c) = (refl, ground arith)
accept_step_last bo (refused e draw stopped) = (ground arith, ground arith)

-- What is proved of the loop, from what it does first.
abbrev pub IsServed : List Accepted → List Deed × Option Backoff → Type 0
IsServed answers r = (served r.0 ≡ conns_until answers) × ((any_last answers ≡ true) ↔ (r.1 ≡ none))

then_on-IsServed :
    (a : Accepted) (rest : List Accepted) (r : List Deed × Option Backoff)
    (go_on : Backoff → List Deed × Option Backoff)
    → served r.0 ≡ conn_of a
    → (is_last a ≡ true) ↔ (r.1 ≡ none)
    → ((bo : Backoff) → IsServed rest (go_on bo))
    → IsServed (a ∷ rest) (then_on r go_on)
unfolding conns_until any_last
then_on-IsServed a rest (ds, none) go_on s l k =
    let last = l.1 refl in
    (s ∙ (rw last (sym (append-nil (conn_of a)))), ((λ h. refl), (λ h. rw last refl)))
then_on-IsServed a rest (ds, some bo) go_on s l k =
    let (more, ends) = k bo in
    let first : is_last a ≡ false = ground (arith, l.0) in
    (
      served-append ds (go_on bo).0 ∙ rw (first, s, more) refl,
      ((λ h. ends.0 (ground arith)), (λ h. rw (ends.1 h) (ground arith))),
    )

accept_loop-IsServed :
    (answers : List Accepted) (bo : Backoff) → IsServed answers (accept_loop answers bo)
unfolding accept_loop served conns_until any_last
accept_loop-IsServed [] bo = (refl, ground arith)
accept_loop-IsServed (a ∷ rest) bo =
    let (s, l) = accept_step_last bo a in
    then_on-IsServed a rest (accept_step bo a) (accept_loop rest) s l (accept_loop-IsServed rest)

-- The loop of a bridge hands every connection that Accept answers to bridgeConn, in order and once,
-- up to the first error that says that the listener is closed, or the first error during whose delay
-- the registry closes; no other error ends it, and each of these does.
pub bridge_accept-IsServed : (answers : List Accepted) → IsServed answers (bridge_accept answers)
unfolding bridge_accept
bridge_accept-IsServed answers = accept_loop-IsServed answers (new 5000000 1000000000)
