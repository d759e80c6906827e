-- ===== src/K8s/Forward/Tests.antt =====
-- A port forward whose two first dials race, and which is then stopped.
use go_portless.Common.{
  remove_first, occurs, ◌≡◌, refl, true, List, [], ◌∷◌, arith, some, ◌⊎◌, false, ℕ,
}
use go_portless.K8s.Forward.{install, drop_conn, stop, Forward, cached, ensure_conn, dial_context}
use go_portless.Errors.{Err, errorf, wrap, retryable, is_retryable}
use go_portless.Dial.{Result, ok, failed}
use go_portless.K8s.Forward.Healing.{dial_context-HasHealed, IsUnreached, IsDropped}
use go_portless.K8s.Forward.Leaks.{stopped_closes_all}
use go_portless.K8s.Forward.Interleaved.{
  Act, act_open, act_install, act_drop, act_stop, run, step, initial,
}

abbrev race : List Act
race =
    act_open
    ∷ act_open
    ∷ act_install 1 (λ n. true)
    ∷ act_install 0 (λ n. true)
    ∷ act_drop 0
    ∷ act_stop
    ∷ []

stopped_closes_all_example : occurs 0 (run race initial).closed_conns ≡ 1
unfolding run step install drop_conn stop occurs remove_first
stopped_closes_all_example = stopped_closes_all race 0 refl refl (omega arith)

-- A cached connection that is alive and opens no stream.
abbrev stale : Forward
stale = record { conn = some 4; closed = false; started = true }

abbrev no_stream : ℕ → Result ℕ
no_stream c = failed (errorf "stream reset" [])

abbrev stale_error : Err
stale_error = retryable (wrap "k8s: open stream: %w" [] (errorf "stream reset" []))

dial_context-HasHealed_example :
    (is_retryable (some stale_error) ≡ true)
    × (IsUnreached (λ c. true) stale (ok 5) (dial_context (λ c. true) no_stream stale (ok 5)).0
        ⊎ IsDropped
            (λ c. true)
            no_stream
            stale
            (ok 5)
            (dial_context (λ c. true) no_stream stale (ok 5)).0)
unfolding dial_context ensure_conn cached drop_conn
dial_context-HasHealed_example =
    dial_context-HasHealed (λ c. true) no_stream stale (ok 5) stale_error refl refl
