-- ===== src/Cli/Daemon/Returning.antt =====
-- The loops of daemon.go come to an end.
use go_portless.Common.{
  ℕ, zero, suc, ◌+◌, ◌*◌, ◌≤◌, ◌<◌, ◌≡◌, refl, inl, inr, Bool, true, false, Option, none, some,
  List, [], ◌∷◌, ◌++◌, arith, ltb, if◌then◌else◌, Text, length, Bool-cases,
}
use go_portless.Errors.{Err}
use go_portless.Dial.{Result, ok, failed}
use go_portless.Cli.Daemon.{
  flags_parsed, flags_loop, parse_flags, await_socket, Spawn, located, ensure_daemon,
}

-- fs.Args is what is left of the arguments.
abbrev pub IsShorter : (List Text → Result (List Text)) → Type 0
IsShorter parse = (args rest : List Text) → parse args ≡ ok rest → length rest ≤ length args

parsed_returns :
    (go_on : List Text → List Text → Option (Result (List Text))) (pos : List Text)
    (r : Result (List Text)) (n : ℕ)
    → ((rest : List Text) → r ≡ ok rest → length rest ≤ n)
    → ((pos' args : List Text)
        → length args < n
        → (q : Result (List Text)) × (go_on pos' args ≡ some q))
    → (q : Result (List Text)) × (flags_parsed go_on pos r ≡ some q)
parsed_returns go_on pos (failed e) n short ih = (failed e, refl)
parsed_returns go_on pos (ok []) n short ih = (ok pos, refl)
parsed_returns go_on pos (ok (a ∷ args)) n short ih =
    ih (pos ++ a ∷ []) args (omega (arith, short (a ∷ args) refl))

flags_loop_returns :
    (parse : List Text → Result (List Text))
    → IsShorter parse
    → (fuel : ℕ) (pos args : List Text) → length args < fuel
    → (r : Result (List Text)) × (flags_loop parse fuel pos args ≡ some r)
unfolding flags_loop
flags_loop_returns parse short zero pos args h = absurd (omega arith)
flags_loop_returns parse short (suc fuel) pos args h =
    parsed_returns (flags_loop parse fuel) pos (parse args) (length args) (short args)
      (λ pos' rest less. flags_loop_returns parse short fuel pos' rest (omega arith))

-- parseFlags ends, whatever the arguments, in one round for each and one more.
pub parse_flags_returns :
    (parse : List Text → Result (List Text)) (args : List Text)
    → IsShorter parse
    → (r : Result (List Text)) × (parse_flags parse args ≡ some r)
unfolding parse_flags
parse_flags_returns parse args short =
    flags_loop_returns parse short (suc (length args)) [] args (omega arith)

-- Status does not turn the clock back.
abbrev pub IsForwardStatus : (ℕ → Bool × ℕ) → Type 0
IsForwardStatus status = (t : ℕ) → t ≤ (status t).1

-- No error means that Status has answered, at the time of the return.
abbrev pub IsUp : (ℕ → Bool × ℕ) → Option Err × ℕ → Type 0
IsUp status (none, t) = (s : ℕ) × (status s ≡ (true, t))
IsUp status (some e, t) = Unit

abbrev Ends : (ℕ → Bool × ℕ) → Option (Option Err × ℕ) → Type 0
Ends status o = (r : Option Err × ℕ) × (o ≡ some r) × IsUp status r

answered :
    (status : ℕ → Bool × ℕ) (now : ℕ) (up : Bool) (t : ℕ) (rest : Option (Option Err × ℕ))
    → status now ≡ (up, t)
    → (up ≡ false → Ends status rest)
    → Ends status (if up then some (none, t) else rest)
answered status now true t rest e k = ((none, t), refl, (now, e))
answered status now false t rest e k = k refl

await_socket_returns :
    (socket : Text) (status : ℕ → Bool × ℕ) (deadline : ℕ)
    → IsForwardStatus status
    → (fuel now : ℕ) → now ≤ deadline + 50000000
    → deadline + 50000000 < now + fuel * 50000000
    → Ends status (await_socket socket status deadline fuel now)
unfolding await_socket
await_socket_returns socket status deadline forward zero now h k = absurd (omega arith)
await_socket_returns socket status deadline forward (suc fuel) now h k =
    let (up, later) = status now in
    answered status now up later _ refl (λ down. elim (Bool-cases (ltb deadline later)) [
      | inl late ↦ rw late ((_, refl, tt))
      | inr early ↦ rw early (
          await_socket_returns socket status deadline forward fuel (later + 50000000) (ground arith)
            (omega (arith, forward now)))
    ])

spawned :
    (socket : Text) (status : ℕ → Bool × ℕ) (now : ℕ)
    (located_error devnull_error start_error : Option Err)
    → IsForwardStatus status
    → Ends status (
        located socket status 102 now
          (record { executable = located_error; devnull = devnull_error; start = start_error })
          located_error)
spawned socket status now (some e) d s forward = (_, refl, tt)
spawned socket status now none (some e) s forward = (_, refl, tt)
spawned socket status now none none (some e) forward = (_, refl, tt)
spawned socket status now none none none forward =
    await_socket_returns socket status (now + 5000000000) forward 102 now (omega arith)
      (omega arith)

-- ensureDaemon ends, and does not answer a client of a daemon that is not there: 102 rounds of the
-- waiting are enough, whatever Status answers, and it returns without an error only after a call of
-- Status that succeeded. Each call of Status is taken to return, and not to turn the clock back.
pub ensure_daemon_returns :
    (socket : Text) (status : ℕ → Bool × ℕ) (s : Spawn) (now : ℕ)
    → IsForwardStatus status
    → (r : Option Err × ℕ) × (ensure_daemon socket status s 102 now ≡ some r) × IsUp status r
unfolding ensure_daemon
ensure_daemon_returns socket status s now forward =
    let (up, later) = status now in
    answered status now up later _ refl
      (λ down. spawned socket status later s.executable s.devnull s.start forward)
