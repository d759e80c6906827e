-- ===== src/K8s/Forward/Healing.antt =====
-- A dial of a port forward that fails leaves the forward ready for the next one.
use go_portless.Common.{
  ℕ, ◌≡◌, refl, sym, ap, ◌∙◌, subst, ◌⊎◌, inl, inr, Bool, true, false, Option, none, some, List,
  arith, ==_iff, if_true, if_false,
}
use go_portless.Errors.{Err, is_retryable, as_retryable}
use go_portless.Dial.{Result, ok, failed}
use go_portless.K8s.Forward.{
  Forward, Section, Dialed, if_alive, cached, install, is_conn, drop_conn, installed, ensured,
  ensure_conn, connected, dial_context,
}

-- The connection to use is the cached one, and was cached before or is the answer; on an error
-- nothing was cached, the answer is an error and nothing has changed.
abbrev IsCurrent : (ℕ → Bool) → Forward → Result ℕ → Section (Result ℕ × Bool) → Type 0
IsCurrent alive f answer (f', (ok c, b), cs) =
    (f'.conn ≡ some c) × ((cached alive f ≡ some c) ⊎ ((cached alive f ≡ none) × (answer ≡ ok c)))
IsCurrent alive f answer (f', (failed e, b), cs) =
    (cached alive f ≡ none) × ((d : Err) × (answer ≡ failed d)) × (f' ≡ f)

if_alive-conn : (alive : ℕ → Bool) (o : Option ℕ) (c : ℕ) → if_alive alive o ≡ some c → o ≡ some c
if_alive-conn alive none c e = e
if_alive-conn alive (some d) c e = ground arith

install-IsCurrent :
    (alive : ℕ → Bool) (f : Forward) (c : ℕ)
    → f.closed ≡ false
    → cached alive f ≡ none
    → IsCurrent alive f (ok c) (install alive f c)
unfolding install cached
install-IsCurrent alive f c up e = rw (up, e) (refl, inr (e, refl))

installed-IsCurrent :
    (alive : ℕ → Bool) (f : Forward) (answer : Result ℕ)
    → f.closed ≡ false
    → cached alive f ≡ none
    → IsCurrent alive f answer (installed alive f answer)
installed-IsCurrent alive f (failed d) up e = (e, (d, refl), refl)
installed-IsCurrent alive f (ok c) up e = install-IsCurrent alive f c up e

ensured-IsCurrent :
    (o : Option ℕ) (alive : ℕ → Bool) (f : Forward) (answer : Result ℕ)
    → f.closed ≡ false
    → cached alive f ≡ o
    → IsCurrent alive f answer (ensured o alive f answer)
ensured-IsCurrent none alive f answer up e = installed-IsCurrent alive f answer up e
ensured-IsCurrent (some c) alive f answer up e =
    (if_alive-conn alive f.conn c (unfold cached in e), inl e)

ensure_conn-IsCurrent :
    (alive : ℕ → Bool) (f : Forward) (answer : Result ℕ)
    → f.closed ≡ false
    → IsCurrent alive f answer (ensure_conn alive f answer)
unfolding ensure_conn
ensure_conn-IsCurrent alive f answer up = ensured-IsCurrent (cached alive f) alive f answer up refl

drop_conn-conn : (f : Forward) (c : ℕ) → f.conn ≡ some c → (drop_conn f c).0.conn ≡ none
unfolding drop_conn
drop_conn-conn f c e =
    subst (λ (r : Forward × List ℕ). r.0.conn ≡ none)
      (sym (if_true _ (ap (λ o. is_conn o c) e ∙ (==_iff c c).1 refl))) refl

-- No connection was to be had: none is cached that is alive, and looking for a pod failed too.
abbrev pub IsUnreached : (ℕ → Bool) → Forward → Result ℕ → Forward → Type 0
IsUnreached alive f answer f' =
    (cached alive f ≡ none) × ((d : Err) × (answer ≡ failed d)) × (f' ≡ f)

cached-none : (f : Forward) → f.conn ≡ none → (alive : ℕ → Bool) → cached alive f ≡ none
unfolding cached
cached-none f e alive = rw e refl

module _ {C : Type 0} where
  -- A connection, the cached one or a new one, opened no stream and is no longer cached: whatever
  -- is alive by then, the next dial finds no connection and looks for a pod.
  abbrev pub IsDropped : (ℕ → Bool) → (ℕ → Result C) → Forward → Result ℕ → Forward → Type 0
  IsDropped alive dial_stream f answer f' =
      (c : ℕ) × ((cached alive f ≡ some c) ⊎ ((cached alive f ≡ none) × (answer ≡ ok c)))
      × ((d : Err) × (dial_stream c ≡ failed d))
      × ((alive' : ℕ → Bool) → cached alive' f' ≡ none)

  abbrev HasHealed : (ℕ → Bool) → (ℕ → Result C) → Forward → Result ℕ → Dialed C → Type 0
  HasHealed alive dial_stream f answer (f', ok stream, cs, ss) = Unit
  HasHealed alive dial_stream f answer (f', failed e, cs, ss) =
      (is_retryable (some e) ≡ true)
      × (IsUnreached alive f answer f' ⊎ IsDropped alive dial_stream f answer f')

  streamed-HasHealed :
      (alive : ℕ → Bool) (dial_stream : ℕ → Result C) (f f' : Forward) (answer : Result ℕ) (c : ℕ)
      (b : Bool) (cs : List ℕ) (r : Result C)
      → f'.conn ≡ some c
      → (cached alive f ≡ some c) ⊎ ((cached alive f ≡ none) × (answer ≡ ok c))
      → dial_stream c ≡ r
      → HasHealed alive dial_stream f answer (connected dial_stream (f', (ok c, b), cs))
  unfolding is_retryable as_retryable
  streamed-HasHealed alive dial_stream f f' answer c b cs (ok stream) current from e = rw e tt
  streamed-HasHealed alive dial_stream f f' answer c b cs (failed d) current from e =
      rw e (refl, inr (c, from, (d, e), cached-none _ (drop_conn-conn f' c current)))

  connected-HasHealed :
      (alive : ℕ → Bool) (dial_stream : ℕ → Result C) (f : Forward) (answer : Result ℕ)
      (s : Section (Result ℕ × Bool))
      → IsCurrent alive f answer s
      → HasHealed alive dial_stream f answer (connected dial_stream s)
  unfolding is_retryable as_retryable
  connected-HasHealed alive dial_stream f answer (f', (ok c, b), cs) (current, from) =
      streamed-HasHealed alive dial_stream f f' answer c b cs (dial_stream c) current from refl
  connected-HasHealed alive dial_stream f answer (f', (failed e, b), cs) h = (refl, inl h)

  healed-error :
      (alive : ℕ → Bool) (dial_stream : ℕ → Result C) (f : Forward) (answer : Result ℕ)
      (d : Dialed C) (e : Err)
      → HasHealed alive dial_stream f answer d
      → d.1 ≡ failed e
      → (is_retryable (some e) ≡ true)
        × (IsUnreached alive f answer d.0 ⊎ IsDropped alive dial_stream f answer d.0)
  healed-error alive dial_stream f answer (f', ok stream, cs, ss) e h q = absurd (cc)
  healed-error alive dial_stream f answer (f', failed d, cs, ss) e (r, s) q =
      let same_error : d ≡ e = cc in (subst (λ x. is_retryable (some x) ≡ true) same_error r, s)

  -- Every error of a dial of a port forward that is not stopped is one that the readiness loop
  -- retries. Either no connection was cached that is alive, and looking for a pod failed, and
  -- nothing has changed; or the stream failed on the connection that was cached and alive or else
  -- was just made, and no connection is cached any more, so that the next dial looks for a pod
  -- again. For dials that run alone.
  pub dial_context-HasHealed :
      (alive : ℕ → Bool) (dial_stream : ℕ → Result C) (f : Forward) (answer : Result ℕ) (e : Err)
      → f.closed ≡ false
      → (dial_context alive dial_stream f answer).1 ≡ failed e
      → (is_retryable (some e) ≡ true)
        × (IsUnreached alive f answer (dial_context alive dial_stream f answer).0
            ⊎ IsDropped alive dial_stream f answer (dial_context alive dial_stream f answer).0)
  unfolding dial_context
  dial_context-HasHealed alive dial_stream f answer e up q =
      healed-error alive dial_stream f answer (dial_context alive dial_stream f answer) e
        (subst (HasHealed alive dial_stream f answer) (sym (if_false _ up)) (
          connected-HasHealed alive dial_stream f answer (ensure_conn alive f answer)
            (ensure_conn-IsCurrent alive f answer up)))
        q
