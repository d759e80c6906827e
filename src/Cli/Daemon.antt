-- ===== src/Cli/Daemon.antt =====
-- cmd/portless/daemon.go: parseFlags, which lets flags and positional arguments stand in any order,
-- and ensureDaemon, which starts the daemon and waits for it. The flag library, the processes and the
-- answers of the control socket are arguments.
pub mod Returning
use go_portless.Common.{
  ℕ, zero, suc, ◌+◌, ◌-◌, ◌*◌, ◌≤◌, ◌<◌, ◌≡◌, refl, ◌∙◌, ap, inl, inr, Bool, true, false, Option,
  none, some, List, [], ◌∷◌, ◌++◌, arith, ltb, if◌then◌else◌, Text, length, Bool-cases, if_true,
  if_false, length-append,
}
use mathlib.Core.Option
use go_portless.Errors.{Err, errorf, wrap}
use go_portless.Dial.{Result, ok, failed}

abbrev pub flags_parsed :
    (List Text → List Text → Option (Result (List Text)))
    → List Text
    → Result (List Text)
    → Option (Result (List Text))
flags_parsed rest pos (failed e) = some (failed e)
flags_parsed rest pos (ok []) = some (ok pos)
flags_parsed rest pos (ok (a ∷ args)) = rest (pos ++ a ∷ []) args

-- The loop of parseFlags, on fuel: `parse` is fs.Parse followed by fs.Args.
unfoldable pub flags_loop :
    (List Text → Result (List Text)) → ℕ → List Text → List Text → Option (Result (List Text))
flags_loop parse zero pos args = none
flags_loop parse (suc fuel) pos args = flags_parsed (flags_loop parse fuel) pos (parse args)

-- parseFlags: one round for each argument, and one more.
unfoldable pub parse_flags :
    (List Text → Result (List Text)) → List Text → Option (Result (List Text))
parse_flags parse args = flags_loop parse (suc (length args)) [] args

-- The waiting for the control socket: what Status answers at a time, with the time at which it does,
-- and the deadline. Each round sleeps 50 milliseconds.
unfoldable pub await_socket : Text → (ℕ → Bool × ℕ) → ℕ → ℕ → ℕ → Option (Option Err × ℕ)
await_socket socket status deadline zero now = none
await_socket socket status deadline (suc fuel) now =
    let (up, later) = status now in
    let rest = await_socket socket status deadline fuel (later + 50000000) in
    if up
    then some (none, later)
    else if ltb deadline later
    then some (some (errorf "daemon did not become ready at %s" (socket ∷ [])), later)
    else rest

-- What the start of the daemon may answer.
pub record Spawn : Type 0 where
  pub executable : Option Err
  pub devnull : Option Err
  pub start : Option Err

abbrev pub started : Text → (ℕ → Bool × ℕ) → ℕ → ℕ → Option Err → Option (Option Err × ℕ)
started socket status fuel now (some e) = some (some (wrap "start daemon: %w" [] e), now)
started socket status fuel now none = await_socket socket status (now + 5000000000) fuel now

abbrev pub opened :
    Text → (ℕ → Bool × ℕ) → ℕ → ℕ → Option Err → Option Err → Option (Option Err × ℕ)
opened socket status fuel now start (some e) = some (some e, now)
opened socket status fuel now start none = started socket status fuel now start

abbrev pub located : Text → (ℕ → Bool × ℕ) → ℕ → ℕ → Spawn → Option Err → Option (Option Err × ℕ)
located socket status fuel now s (some e) =
    some (some (wrap "locate self to start daemon: %w" [] e), now)
located socket status fuel now s none = opened socket status fuel now s.start s.devnull

-- ensureDaemon at the time now, with the time at which it returns.
unfoldable pub ensure_daemon : Text → (ℕ → Bool × ℕ) → Spawn → ℕ → ℕ → Option (Option Err × ℕ)
ensure_daemon socket status s fuel now =
    let (up, later) = status now in
    if up then some (none, later) else located socket status fuel later s s.executable
