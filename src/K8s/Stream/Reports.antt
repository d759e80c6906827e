-- ===== src/K8s/Stream/Reports.antt =====
-- What a read of a stream reports, once drainError has had a message.
use go_portless.Common.{
  ℕ, ◌≡◌, refl, ◌∙◌, ◌≢◌, inl, inr, true, Option, none, some, [], ◌∷◌, arith, leb, Text, Bool-cases,
  subst, if_true, if_false,
}
use go_portless.Errors.{Err, errorf}
use go_portless.Dial.{Result, ok, failed}
use go_portless.K8s.Stream.{PfConn, StreamConn, Live, message_of, store, close, arm_deadline, read}
use go_portless.K8s.Stream.Closing.{close_elim}
use go_portless.K8s.Stream.Life.{
  Drain, draining, stored, drained, Sys, drain_on, fired, Step, passes, closes, arms, fires,
  drain_reads, drain_closes, others, Reach, here, later, opened,
}

-- The message is kept from the moment that drainError has it, and it is not empty.
abbrev Keeps : Live → Drain → Type 0
Keeps s draining = s.stream.err_msg ≡ none
Keeps s (stored msg) = (s.stream.err_msg ≡ some msg) × (msg ≢ [])
Keeps s (drained none) = s.stream.err_msg ≡ none
Keeps s (drained (some msg)) =
    (s.stream.err_msg ≡ some msg) × (msg ≢ []) × (s.stream.is_closed ≡ true)

close_kept :
    (s : Live) → ((close s).stream.err_msg ≡ s.stream.err_msg) × ((close s).stream.is_closed ≡ true)
close_kept s =
    close_elim (λ u. (u.stream.err_msg ≡ s.stream.err_msg) × (u.stream.is_closed ≡ true)) s
      (λ e. (refl, e)) (λ e. (refl, refl))

Keeps-same :
    (s t : Live) (d : Drain)
    → t.stream.err_msg ≡ s.stream.err_msg
    → (s.stream.is_closed ≡ true → t.stream.is_closed ≡ true)
    → Keeps s d
    → Keeps t d
Keeps-same s t draining e c h = ground arith
Keeps-same s t (stored msg) e c h = (ground arith, h.1)
Keeps-same s t (drained none) e c h = ground arith
Keeps-same s t (drained (some msg)) e c h = (ground arith, h.1, c h.2)

arm_deadline_kept :
    (now : ℕ) (t : Option ℕ) (s : Live)
    → ((arm_deadline now t s).stream.err_msg ≡ s.stream.err_msg)
      × (s.stream.is_closed ≡ true → (arm_deadline now t s).stream.is_closed ≡ true)
unfolding arm_deadline
arm_deadline_kept now none s = (refl, λ c. c)
arm_deadline_kept now (some t) s = elim (Bool-cases (leb t now)) [
  | inl e ↦ rw (if_true _ e) ((close_kept s).0, λ c. (close_kept s).1)
  | inr e ↦ rw (if_false _ e) (refl, λ c. c)
]

store-Keeps :
    (answer : Result Text) (s : Live)
    → s.stream.err_msg ≡ none
    → Keeps (store answer s) (drain_on (message_of answer))
unfolding store
store-Keeps (failed e) s h = h
store-Keeps (ok []) s h = h
store-Keeps (ok (c ∷ msg)) s h = (refl, λ e. absurd (ground arith))

Step-Keeps : {s t : Sys} → Step s t → Keeps s.live s.drain → Keeps t.live t.drain
Step-Keeps (passes n) h = h
Step-Keeps {s} closes h =
    Keeps-same s.live (close s.live) s.drain (close_kept s.live).0 (λ c. (close_kept s.live).1) h
Step-Keeps {s} (arms t) h =
    let k = arm_deadline_kept s.now t s.live in
    Keeps-same s.live (arm_deadline s.now t s.live) s.drain k.0 k.1 h
Step-Keeps {s} (fires t m l) h =
    Keeps-same s.live (fired t s.live) s.drain (close_kept s.live).0 (λ c. (close_kept s.live).1) h
Step-Keeps {s} (drain_reads answer d) h =
    store-Keeps answer s.live (subst (λ x. Keeps s.live x) d h)
Step-Keeps {s} (drain_closes msg d) h =
    let h' = subst (λ x. Keeps s.live x) d h in let k = close_kept s.live in (k.0 ∙ h'.0, h'.1, k.1)
Step-Keeps {s} (others c d e) h =
    Keeps-same s.live (record s.live { conn = c }) s.drain refl (λ x. x) h

Reach-Keeps : {s t : Sys} → Reach s t → Keeps s.live s.drain → Keeps t.live t.drain
Reach-Keeps here h = h
Reach-Keeps (later r m) h = Step-Keeps m (Reach-Keeps r h)

-- The message that drainError has had so far.
abbrev pub message : Drain → Option Text
message draining = none
message (stored msg) = some msg
message (drained o) = o

-- The error of a read that fails with e.
abbrev pub reported : Option Text → Err → Err
reported none e = e
reported (some msg) e = errorf "portforward: %s" (msg ∷ [])

reports :
    (s : Live) (d : Drain) (n : ℕ) (e : Err)
    → Keeps s d
    → read s.stream (n, some e) ≡ (n, some (reported (message d) e))
unfolding read
reports s draining n e h = rw h refl
reports s (stored []) n e h = absurd (h.1 refl)
reports s (stored (c ∷ msg)) n e h = rw h.0 refl
reports s (drained none) n e h = rw h refl
reports s (drained (some [])) n e h = absurd (h.1 refl)
reports s (drained (some (c ∷ msg))) n e h = rw h.0 refl

shut_after :
    (s : Live) (d : Drain) (msg : Text)
    → d ≡ drained (some msg)
    → Keeps s d
    → s.stream.is_closed ≡ true
shut_after s d msg e h = (subst (λ x. Keeps s x) e h).2

-- However a stream is used, from a dial on: a read that fails, with n bytes and the error e, passes
-- both on as long as the kubelet has sent no message, and answers the kubelet's message in place of e
-- from the moment that drainError has it, for good; and when drainError has returned with a message,
-- the stream is closed.
pub read-reported :
    (now : ℕ) (c : PfConn) (s : StreamConn) {t : Sys} (n : ℕ) (e : Err)
    → s.err_msg ≡ none
    → Reach (opened now c s) t
    → (read t.live.stream (n, some e) ≡ (n, some (reported (message t.drain) e)))
      × ((msg : Text) → t.drain ≡ drained (some msg) → t.live.stream.is_closed ≡ true)
read-reported now c s {t} n e h r =
    let k = Reach-Keeps r h in
    (reports t.live t.drain n e k, λ msg d. shut_after t.live t.drain msg d k)
