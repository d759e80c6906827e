-- ===== src/Errors.antt =====
-- errors.go: the sentinel errors, Retryable and IsRetryable, over a model of Go's error trees.
-- An error built by fmt.Errorf keeps its format, its text arguments and what its %w verbs wrap.
pub mod Laws
mod Tests
use go_portless.Common.{
  ℕ, Bool, true, false, ◌||◌, Option, none, some, List, ◌==◌, if◌then◌else◌, Text,
}
use Prim.Native.String.{String}

-- The errors that the program compares with errors.Is, those of the standard library included.
pub data Sentinel : Type 0 where
  route_not_found route_exists closed : Sentinel
  canceled deadline_exceeded conn_refused conn_reset net_closed target_not_found : Sentinel

unfoldable pub tag : Sentinel → ℕ
tag route_not_found = 0
tag route_exists = 1
tag closed = 2
tag canceled = 3
tag deadline_exceeded = 4
tag conn_refused = 5
tag conn_reset = 6
tag net_closed = 7
tag target_not_found = 8

unfoldable pub same : Sentinel → Sentinel → Bool
unfolding tag
same s t = tag s == tag t

-- `net_error t e` is an error that implements net.Error, whose Timeout is t, around e;
-- `retryable` is the type retryableError; `joined` is what errors.Join makes of two.
pub data Err : Type 0 where
  sentinel : Sentinel → Err
  errorf : String → List Text → Err
  wrap : String → List Text → Err → Err
  wrap_two : String → List Text → Err → Err → Err
  net_error : Bool → Err → Err
  retryable : Err → Err
  joined : Err → Err → Err

-- errors.Is(e, s)
unfoldable pub is : Sentinel → Err → Bool
is s (sentinel t) = same s t
is s (errorf f ts) = false
is s (wrap f ts e) = is s e
is s (wrap_two f ts e d) = is s e || is s d
is s (net_error t e) = is s e
is s (retryable e) = is s e
is s (joined e d) = is s e || is s d

-- errors.AsType[*retryableError](e)
unfoldable pub as_retryable : Err → Bool
as_retryable (sentinel t) = false
as_retryable (errorf f ts) = false
as_retryable (wrap f ts e) = as_retryable e
as_retryable (wrap_two f ts e d) = as_retryable e || as_retryable d
as_retryable (net_error t e) = as_retryable e
as_retryable (retryable e) = true
as_retryable (joined e d) = as_retryable e || as_retryable d

-- The sentinels that implement net.Error, with their Timeout: the context's deadline error and
-- the system's error numbers.
unfoldable pub sentinel_timeout : Sentinel → Option Bool
sentinel_timeout deadline_exceeded = some true
sentinel_timeout conn_refused = some false
sentinel_timeout conn_reset = some false
sentinel_timeout _ = none

abbrev pub or_else : Option Bool → Option Bool → Option Bool
or_else none b = b
or_else (some a) b = some a

-- errors.AsType[net.Error](e), then its Timeout: the first one in the order of the tree.
unfoldable pub as_net_error : Err → Option Bool
as_net_error (sentinel t) = sentinel_timeout t
as_net_error (errorf f ts) = none
as_net_error (wrap f ts e) = as_net_error e
as_net_error (wrap_two f ts e d) = or_else (as_net_error e) (as_net_error d)
as_net_error (net_error t e) = some t
as_net_error (retryable e) = as_net_error e
as_net_error (joined e d) = or_else (as_net_error e) (as_net_error d)

abbrev pub is_some_true : Option Bool → Bool
is_some_true (some true) = true
is_some_true _ = false

-- Retryable, where nil is `none`.
unfoldable pub mark_retryable : Option Err → Option Err
mark_retryable none = none
mark_retryable (some e) = some (retryable e)

-- IsRetryable of an error that is not nil.
unfoldable pub is_retryable_err : Err → Bool
is_retryable_err e =
    if as_retryable e
    then true
    else if is conn_refused e || is conn_reset e
    then true
    else if is canceled e || is deadline_exceeded e
    then false
    else is_some_true (as_net_error e)

unfoldable pub is_retryable : Option Err → Bool
unfolding is_retryable_err
is_retryable none = false
is_retryable (some e) = is_retryable_err e
