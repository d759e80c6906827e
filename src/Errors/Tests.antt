-- ===== src/Errors/Tests.antt =====
-- The error trees of the tests: a marked cancellation, and a plain deadline.
use go_portless.Common.{◌≡◌, refl, true, false, some, []}
use go_portless.Errors.{
  Err, sentinel, wrap, retryable, same, as_retryable, is, is_retryable, canceled, deadline_exceeded,
}

abbrev marked : Err
marked = wrap "dial: %w" [] (retryable (sentinel canceled))

-- A context error that a backend has marked is retried all the same.
marked_runs : is_retryable (some marked) ≡ true
unfolding is_retryable as_retryable
marked_runs = refl

deadline_runs : is_retryable (some (wrap "dial: %w" [] (sentinel deadline_exceeded))) ≡ false
unfolding is_retryable as_retryable is same
deadline_runs = refl
