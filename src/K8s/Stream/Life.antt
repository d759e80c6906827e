-- ===== src/K8s/Stream/Life.antt =====
-- k8s/stream.go under concurrency: Close, the deadlines, their timers and drainError as steps, with
-- what other dials do to the same connection.
use go_portless.Common.{remove_first, ℕ, ◌+◌, ◌≤◌, ◌≡◌, ◌≢◌, Option, none, some, [], Text, occurs}
use go_portless.Dial.{Result}
use go_portless.K8s.Stream.{PfConn, StreamConn, Live, message_of, store, close, arm_deadline}

-- drainError reads the error stream; it has kept a message and has yet to close the stream; it has
-- returned, with the message if there was one.
pub data Drain : Type 0 where
  draining : Drain
  stored : Text → Drain
  drained : Option Text → Drain

-- The stream, the time, and where drainError is.
pub record Sys : Type 0 where
  pub live : Live
  pub now : ℕ
  pub drain : Drain

abbrev pub drain_on : Option Text → Drain
drain_on none = drained none
drain_on (some msg) = stored msg

-- The timer that has run is gone.
abbrev pub fired : ℕ → Live → Live
fired t s =
    let s' = close s in
    record s' { stream = record s'.stream { timers = remove_first t s'.stream.timers } }

pub data Step (s : Sys) : Sys → Type 0 where
  passes : (n : ℕ) → Step s (record s { now = s.now + n })
  closes : Step s (record s { live = close s.live })
  arms : (t : Option ℕ) → Step s (record s { live = arm_deadline s.now t s.live })
  fires :
      (t : ℕ)
      → occurs t s.live.stream.timers ≢ 0
      → t ≤ s.now
      → Step s (record s { live = fired t s.live })
  drain_reads :
      (answer : Result Text)
      → s.drain ≡ draining
      → Step s (record s { live = store answer s.live; drain = drain_on (message_of answer) })
  drain_closes :
      (msg : Text)
      → s.drain ≡ stored msg
      → Step s (record s { live = close s.live; drain = drained (some msg) })
  others :
      (c : PfConn)
      → occurs s.live.stream.data_stream c.streams
        ≡ occurs s.live.stream.data_stream s.live.conn.streams
      → occurs s.live.stream.err_stream c.streams
        ≡ occurs s.live.stream.err_stream s.live.conn.streams
      → Step s (record s { live = record s.live { conn = c } })

pub data Reach (s : Sys) : Sys → Type 0 where
  here : Reach s s
  later : {t u : Sys} → Reach s t → Step t u → Reach s u

-- After dialStream, at the time now.
abbrev pub opened : ℕ → PfConn → StreamConn → Sys
opened now c s = record {
  live = record { conn = c; stream = s; closed_streams = [] };
  now = now;
  drain = draining;
}
