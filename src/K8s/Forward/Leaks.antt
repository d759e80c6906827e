-- ===== src/K8s/Forward/Leaks.antt =====
-- No connection leaks, however the dials, drops and stops of a port forward interleave.
use go_portless.Common.{
  occurs-remove_first, occurs, occurs-append, if_true, if_false, ℕ, suc, ◌+◌, ◌<◌, ◌≡◌, refl, sym,
  subst, ◌≢◌, inl, inr, Bool, true, false, Option, none, some, List, [], ◌∷◌, arith, ltb, ◌==◌,
  if◌then◌else◌, lt→ltb, ==_iff, Bool-cases,
}
use go_portless.Dial.{Result}
use go_portless.K8s.Forward.{
  Forward, Section, stop, held_conns, if_alive, install_over, install, is_conn, drop_conn,
}
use go_portless.K8s.Forward.Interleaved.{
  Sys, Act, act_open, act_install, act_drop, act_stop, after_install, after_section, step, run,
  initial,
}

abbrev pub is_cached : Option ℕ → ℕ → ℕ
is_cached none n = 0
is_cached (some c) n = if c == n then 1 else 0

-- Each connection that was opened is held, cached or closed, in one way and once.
abbrev pub IsAccounted : Sys → Type 0
IsAccounted s =
    (n : ℕ)
    → occurs n s.held + (is_cached s.forward.conn n + occurs n s.closed_conns)
      ≡ (if ltb n s.opened then 1 else 0)

abbrev pub IsShut : Forward → Type 0
IsShut f = f.closed ≡ true → f.conn ≡ none

occurs-held_conns : (o : Option ℕ) (n : ℕ) → occurs n (held_conns o) ≡ is_cached o n
unfolding occurs
occurs-held_conns none n = refl
occurs-held_conns (some c) n = refl

-- Of the connection that is brought, and the one that was cached, install keeps one or none and
-- closes the rest.
install_over-occurs :
    (o : Option ℕ) (f : Forward) (c n : ℕ)
    → let (f', answer, cs) = install_over o f c in
      is_cached f'.conn n + occurs n cs ≡ is_cached f.conn n + is_cached (some c) n
unfolding occurs
install_over-occurs (some d) f c n = refl
install_over-occurs none f c n = ground (arith, occurs-held_conns f.conn n)

install-occurs :
    (alive : ℕ → Bool) (f : Forward) (c n : ℕ)
    → let (f', answer, cs) = install alive f c in
      is_cached f'.conn n + occurs n cs ≡ is_cached f.conn n + is_cached (some c) n
unfolding install occurs
install-occurs alive f c n = elim (Bool-cases f.closed) [
  | inl e ↦ rw (if_true _ e) refl
  | inr e ↦ rw (if_false _ e) (install_over-occurs (if_alive alive f.conn) f c n)
]

-- drop_conn and stop, with what they read given.
abbrev drop_in : Bool → Forward → ℕ → Forward × List ℕ
drop_in b f c = if b then (record f { conn = none }, c ∷ []) else (f, [])

drop_in-occurs :
    (b : Bool) (o : Option ℕ) (f : Forward) (c n : ℕ)
    → f.conn ≡ o
    → is_conn o c ≡ b
    → is_cached (drop_in b f c).0.conn n + occurs n (drop_in b f c).1 ≡ is_cached o n
unfolding occurs
drop_in-occurs false o f c n e h = rw e (ground arith)
drop_in-occurs true none f c n e h = absurd (cc)
drop_in-occurs true (some d) f c n e h = ground arith

abbrev stop_in : Bool → Forward → Forward × List ℕ
stop_in b f = if b then (f, []) else (record f { conn = none; closed = true }, held_conns f.conn)

stop_in-occurs :
    (b : Bool) (f : Forward) (n : ℕ)
    → is_cached (stop_in b f).0.conn n + occurs n (stop_in b f).1 ≡ is_cached f.conn n
unfolding occurs
stop_in-occurs true f n = ground arith
stop_in-occurs false f n = ground (arith, occurs-held_conns f.conn n)

-- A lock section that moves the cached connection to those that it closes.
section-IsAccounted :
    (s : Sys) (r : Forward × List ℕ)
    → ((n : ℕ) → is_cached r.0.conn n + occurs n r.1 ≡ is_cached s.forward.conn n)
    → IsAccounted s
    → IsAccounted (after_section s r)
section-IsAccounted s (f, cs) moves h n =
    ground (arith, occurs-append n cs s.closed_conns, moves n, h n)

install-IsAccounted :
    (s : Sys) (c : ℕ) (r : Forward × List ℕ)
    → occurs c s.held ≢ 0
    → ((n : ℕ)
        → is_cached r.0.conn n + occurs n r.1 ≡ is_cached s.forward.conn n + is_cached (some c) n)
    → IsAccounted s
    → IsAccounted (after_install s c r)
install-IsAccounted s c (f, cs) some_held moves h n =
    ground (arith, occurs-append n cs s.closed_conns, moves n, h n, occurs-remove_first n c s.held)

open-IsAccounted :
    (s : Sys)
    → IsAccounted s
    → IsAccounted (record s { held = s.opened ∷ s.held; opened = suc s.opened })
unfolding occurs
open-IsAccounted s h n = ground (arith, h n)

step-IsAccounted : (a : Act) (s : Sys) → IsAccounted s → IsAccounted (step a s)
unfolding step drop_conn stop
step-IsAccounted act_open s h = open-IsAccounted s h
step-IsAccounted (act_install c alive) s h = elim (Bool-cases (occurs c s.held == 0)) [
  | inl e ↦ subst IsAccounted (sym (if_true _ e)) h
  | inr e ↦ subst IsAccounted (sym (if_false _ e)) (
      install-IsAccounted s c ((install alive s.forward c).0, (install alive s.forward c).2)
        (ground (arith, ==_iff (occurs c s.held) 0)) (λ n. install-occurs alive s.forward c n) h)
]
step-IsAccounted (act_drop c) s h =
    section-IsAccounted s (drop_in (is_conn s.forward.conn c) s.forward c)
      (λ n. drop_in-occurs (is_conn s.forward.conn c) s.forward.conn s.forward c n refl refl) h
step-IsAccounted act_stop s h =
    section-IsAccounted s (stop_in s.forward.closed s.forward)
      (λ n. stop_in-occurs s.forward.closed s.forward n) h

initial-IsAccounted : IsAccounted initial
unfolding occurs
initial-IsAccounted n = ground arith

run-IsAccounted : (acts : List Act) (s : Sys) → IsAccounted s → IsAccounted (run acts s)
unfolding run
run-IsAccounted [] s h = h
run-IsAccounted (a ∷ acts) s h = run-IsAccounted acts (step a s) (step-IsAccounted a s h)

drop_in-IsShut : (b : Bool) (f : Forward) (c : ℕ) → IsShut f → IsShut (drop_in b f c).0
drop_in-IsShut true f c h e = refl
drop_in-IsShut false f c h e = h e

stop_in-IsShut : (b : Bool) (f : Forward) → IsShut f → IsShut (stop_in b f).0
stop_in-IsShut true f h e = h e
stop_in-IsShut false f h e = refl

install_over-IsShut :
    (o : Option ℕ) (f : Forward) (c : ℕ) → f.closed ≡ false → IsShut (install_over o f c).0
install_over-IsShut (some d) f c up e = absurd (cc)
install_over-IsShut none f c up e = absurd (cc)

install-IsShut : (alive : ℕ → Bool) (f : Forward) (c : ℕ) → IsShut f → IsShut (install alive f c).0
unfolding install
install-IsShut alive f c h = elim (Bool-cases f.closed) [
  | inl e ↦ subst (λ (r : Section (Result ℕ × Bool)). IsShut r.0) (sym (if_true _ e)) h
  | inr e ↦
      subst (λ (r : Section (Result ℕ × Bool)). IsShut r.0) (sym (if_false _ e))
        (install_over-IsShut (if_alive alive f.conn) f c e)
]

step-IsShut : (a : Act) (s : Sys) → IsShut s.forward → IsShut (step a s).forward
unfolding step drop_conn stop
step-IsShut act_open s h = h
step-IsShut (act_install c alive) s h = elim (Bool-cases (occurs c s.held == 0)) [
  | inl e ↦ subst (λ (t : Sys). IsShut t.forward) (sym (if_true _ e)) h
  | inr e ↦
      subst (λ (t : Sys). IsShut t.forward) (sym (if_false _ e))
        (install-IsShut alive s.forward c h)
]
step-IsShut (act_drop c) s h = drop_in-IsShut (is_conn s.forward.conn c) s.forward c h
step-IsShut act_stop s h = stop_in-IsShut s.forward.closed s.forward h

run-IsShut : (acts : List Act) (s : Sys) → IsShut s.forward → IsShut (run acts s).forward
unfolding run
run-IsShut [] s h = h
run-IsShut (a ∷ acts) s h = run-IsShut acts (step a s) (step-IsShut a s h)

all_closed :
    (s : Sys) (n : ℕ)
    → s.forward.conn ≡ none
    → s.held ≡ []
    → n < s.opened
    → occurs n s.held + (is_cached s.forward.conn n + occurs n s.closed_conns)
      ≡ (if ltb n s.opened then 1 else 0)
    → occurs n s.closed_conns ≡ 1
unfolding occurs
all_closed s n none_cached none_held opened total =
    let counts : 0 + (0 + occurs n s.closed_conns) ≡ (if ltb n s.opened then 1 else 0) =
      subst (λ ms. occurs n ms + (0 + occurs n s.closed_conns) ≡ (if ltb n s.opened then 1 else 0))
        none_held
        (subst
          (λ o.
            occurs n s.held + (is_cached o n + occurs n s.closed_conns)
            ≡ (if ltb n s.opened then 1 else 0))
          none_cached total) in
    ground (arith, counts, lt→ltb n s.opened opened)

-- However dials, drops and stops interleave from a new port forward, each connection that a dial
-- has opened is in exactly one place: still held by its dial, cached, or closed once. None is
-- closed twice, and none is lost.
pub conns-IsAccounted : (acts : List Act) → IsAccounted (run acts initial)
conns-IsAccounted acts = run-IsAccounted acts initial initial-IsAccounted

-- Once the port forward is stopped and no dial holds a connection, every connection that was ever
-- opened has been closed, once, however the steps before interleaved.
pub stopped_closes_all :
    (acts : List Act) (n : ℕ)
    → (run acts initial).forward.closed ≡ true
    → (run acts initial).held ≡ []
    → n < (run acts initial).opened
    → occurs n (run acts initial).closed_conns ≡ 1
stopped_closes_all acts n closed idle opened =
    all_closed (run acts initial) n (run-IsShut acts initial (λ e. refl) closed) idle opened
      (conns-IsAccounted acts n)
