-- ===== src/Backends/Mem.antt =====
-- backend/mem.go: the in-memory backend and its listener, which meet over a channel. The calls of
-- DialContext, Accept and Close run concurrently: each way out of a select is a step. A pipe is a
-- number; its two halves are the client's and the server's connection.
pub mod Meeting
use go_portless.Common.{
  remove_first, ℕ, suc, ◌-◌, ◌≡◌, ◌≢◌, ◌<◌, Bool, true, false, List, [], ◌∷◌, occurs,
}
use go_portless.Errors.{Err, errorf}

abbrev pub mem_closed : Err
mem_closed = errorf "portless: mem listener closed" []

-- memListener, with the calls that wait in a select: the pipes of the dials, and the number of
-- Accepts. The pipes made so far are numbered below `opened`; those handed to a dial and an Accept
-- are `met`, and those of which a dial has closed both halves are `closed_pipes`.
pub record Mem : Type 0 where
  pub done : Bool
  pub dialing : List ℕ
  pub accepting : ℕ
  pub opened : ℕ
  pub met : List ℕ
  pub closed_pipes : List ℕ

-- Mem
abbrev pub mem : Mem
mem = record { done = false; dialing = []; accepting = 0; opened = 0; met = []; closed_pipes = [] }

-- The ways out of the selects: a dial and an Accept meet over its pipe; a dial finds the listener
-- closed, or its context done, and closes both halves; an Accept finds the listener closed.
pub data Own (s : Mem) : Mem → Type 0 where
  meet :
      (n : ℕ)
      → occurs n s.dialing ≢ 0
      → 0 < s.accepting
      → Own s (record s {
        dialing = remove_first n s.dialing;
        accepting = s.accepting - 1;
        met = n ∷ s.met;
      })
  refuse :
      (n : ℕ)
      → occurs n s.dialing ≢ 0
      → s.done ≡ true
      → Own s (record s { dialing = remove_first n s.dialing; closed_pipes = n ∷ s.closed_pipes })
  accept_fails : 0 < s.accepting → s.done ≡ true → Own s (record s { accepting = s.accepting - 1 })

-- With the calls themselves, and the contexts of dials.
pub data Step (s : Mem) : Mem → Type 0 where
  own : {t : Mem} → Own s t → Step s t
  dials : Step s (record s { dialing = s.opened ∷ s.dialing; opened = suc s.opened })
  accepts : Step s (record s { accepting = suc s.accepting })
  closes : Step s (record s { done = true })
  cancelled :
      (n : ℕ)
      → occurs n s.dialing ≢ 0
      → Step s (record s { dialing = remove_first n s.dialing; closed_pipes = n ∷ s.closed_pipes })

pub data Reach : Mem → Type 0 where
  start : Reach mem
  later : {s t : Mem} → Reach s → Step s t → Reach t
