-- ===== src/Errors/Laws.antt =====
-- What IsRetryable answers, told from the list of an error's nodes.
use go_portless.Common.{
  ◌≡◌, refl, ◌↔◌, ◌⊎◌, Bool, true, false, ◌||◌, Option, none, some, List, [], ◌∷◌, ◌++◌, arith,
  Text,
}
use Prim.Native.String.{String}
use go_portless.Errors.{
  Sentinel, Err, sentinel, errorf, wrap, wrap_two, net_error, retryable, joined, same, is,
  as_retryable, as_net_error, sentinel_timeout, or_else, is_retryable, conn_refused, conn_reset,
  canceled, deadline_exceeded,
}

-- The nodes of an error's tree in pre-order, the order in which package errors walks it.
abbrev pub nodes : Err → List Err
nodes (sentinel t) = sentinel t ∷ []
nodes (errorf f ts) = errorf f ts ∷ []
nodes (wrap f ts e) = wrap f ts e ∷ nodes e
nodes (wrap_two f ts e d) = wrap_two f ts e d ∷ (nodes e ++ nodes d)
nodes (net_error t e) = net_error t e ∷ nodes e
nodes (retryable e) = retryable e ∷ nodes e
nodes (joined e d) = joined e d ∷ (nodes e ++ nodes d)

abbrev pub any : (Err → Bool) → List Err → Bool
any p [] = false
any p (e ∷ es) = p e || any p es

any-append : (p : Err → Bool) (xs ys : List Err) → any p (xs ++ ys) ≡ (any p xs || any p ys)
any-append p [] ys = refl
any-append p (x ∷ xs) ys = ground (arith, any-append p xs ys)

-- The answer for the first node that has one.
abbrev pub first : (Err → Option Bool) → List Err → Option Bool
first p [] = none
first p (e ∷ es) = or_else (p e) (first p es)

abbrev pub is_node : Sentinel → Err → Bool
is_node s (sentinel t) = same s t
is_node s _ = false

abbrev pub is_mark : Err → Bool
is_mark (retryable e) = true
is_mark _ = false

abbrev pub timeout_of : Err → Option Bool
timeout_of (sentinel t) = sentinel_timeout t
timeout_of (net_error t e) = some t
timeout_of _ = none

pub is-any : (s : Sentinel) (e : Err) → is s e ≡ any (is_node s) (nodes e)
unfolding is
is-any s (sentinel t) = ground arith
is-any s (errorf f ts) = refl
is-any s (wrap f ts e) = is-any s e
is-any s (wrap_two f ts e d) =
    rw (any-append (is_node s) (nodes e) (nodes d), is-any s e, is-any s d)
is-any s (net_error t e) = is-any s e
is-any s (retryable e) = is-any s e
is-any s (joined e d) = rw (any-append (is_node s) (nodes e) (nodes d), is-any s e, is-any s d)

as_retryable-any : (e : Err) → as_retryable e ≡ any is_mark (nodes e)
unfolding as_retryable
as_retryable-any (sentinel t) = refl
as_retryable-any (errorf f ts) = refl
as_retryable-any (wrap f ts e) = as_retryable-any e
as_retryable-any (wrap_two f ts e d) =
    rw (any-append is_mark (nodes e) (nodes d), as_retryable-any e, as_retryable-any d)
as_retryable-any (net_error t e) = as_retryable-any e
as_retryable-any (retryable e) = refl
as_retryable-any (joined e d) =
    rw (any-append is_mark (nodes e) (nodes d), as_retryable-any e, as_retryable-any d)

-- An error that holds the caller's context error is retried exactly when a Retryable mark, a
-- refused or a reset connection stands in its tree too: the check of the context comes last.
pub context_error_iff :
    (e : Err)
    → (is canceled e ≡ true) ⊎ (is deadline_exceeded e ≡ true)
    → (is_retryable (some e) ≡ true)
      ↔ ((any is_mark (nodes e) ≡ true) ⊎ (is conn_refused e ≡ true) ⊎ (is conn_reset e ≡ true))
unfolding is_retryable
context_error_iff e h = ground (arith, as_retryable-any e)

pub is_retryable-errorf : (f : String) (ts : List Text) → is_retryable (some (errorf f ts)) ≡ false
unfolding is_retryable as_retryable is as_net_error
is_retryable-errorf f ts = refl
