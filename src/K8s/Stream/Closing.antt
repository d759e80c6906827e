-- ===== src/K8s/Stream/Closing.antt =====
-- A stream is closed once, whoever closes it, and a message of the error stream is reported.
use go_portless.Common.{
  remove_first, occurs-remove_first, ℕ, ◌≡◌, refl, sym, subst, if_true, if_false, ◌≢◌, inl, inr,
  true, false, Option, none, some, [], ◌∷◌, arith, leb, if◌then◌else◌, Text, occurs, Bool-cases,
}
use go_portless.Dial.{Result, ok, failed}
use go_portless.K8s.Stream.{PfConn, StreamConn, Live, store, close, arm_deadline}
use go_portless.K8s.Stream.Life.{
  Sys, fired, Step, passes, closes, arms, fires, drain_reads, drain_closes, others, Reach, here,
  later, opened,
}

-- The state after a Close of a stream that is open.
abbrev pub closed_now : Live → Live
closed_now s = record {
  conn = record s.conn {
    streams = remove_first s.stream.err_stream (remove_first s.stream.data_stream s.conn.streams);
  };
  stream = record s.stream { is_closed = true };
  closed_streams = s.stream.data_stream ∷ s.stream.err_stream ∷ s.closed_streams;
}

-- What holds of a closed stream, and after the Close of an open one, holds after Close.
pub close_elim :
    (P : Live → Type 0) (s : Live)
    → (s.stream.is_closed ≡ true → P s)
    → (s.stream.is_closed ≡ false → P (closed_now s))
    → P (close s)
unfolding close
close_elim P s was_closed was_open = elim (Bool-cases s.stream.is_closed) [
  | inl e ↦ subst P (sym (if_true _ e)) (was_closed e)
  | inr e ↦ subst P (sym (if_false _ e)) (was_open e)
]

module _ (ds es : ℕ) where
  -- Open and registered, or closed and taken out, each once.
  pub record IsOnce (s : Live) : Type 0 where
    pub data_same : s.stream.data_stream ≡ ds
    pub err_same : s.stream.err_stream ≡ es
    pub data_registered : occurs ds s.conn.streams ≡ (if s.stream.is_closed then 0 else 1)
    pub err_registered : occurs es s.conn.streams ≡ (if s.stream.is_closed then 0 else 1)
    pub closings : s.closed_streams ≡ (if s.stream.is_closed then ds ∷ es ∷ [] else [])

  module _ (distinct : ds ≢ es) where
    close-IsOnce : (s : Live) → IsOnce s → IsOnce (close s)
    close-IsOnce s h =
        let d = s.stream.data_stream in
        let e = s.stream.err_stream in
        let ms = s.conn.streams in
        close_elim IsOnce s (λ was_closed. h)
          (λ was_open. record {
            data_same = h.data_same;
            err_same = h.err_same;
            data_registered = ground (
              arith,
              occurs-remove_first ds e (remove_first d ms),
              occurs-remove_first ds d ms,
              h.data_same,
              h.err_same,
              h.data_registered,
            );
            err_registered = ground (
              arith,
              occurs-remove_first es e (remove_first d ms),
              occurs-remove_first es d ms,
              h.data_same,
              h.err_same,
              h.err_registered,
            );
            closings = ground (arith, h.closings, h.data_same, h.err_same);
          })

    arm_deadline-IsOnce :
        (now : ℕ) (t : Option ℕ) (s : Live) → IsOnce s → IsOnce (arm_deadline now t s)
    unfolding arm_deadline
    arm_deadline-IsOnce now none s h = h
    arm_deadline-IsOnce now (some t) s h = elim (Bool-cases (leb t now)) [
      | inl e ↦ subst IsOnce (sym (if_true _ e)) (close-IsOnce s h)
      | inr e ↦ subst IsOnce (sym (if_false _ e)) (record {
        data_same = h.data_same;
        err_same = h.err_same;
        data_registered = h.data_registered;
        err_registered = h.err_registered;
        closings = h.closings;
      })
    ]

    fired-IsOnce : (t : ℕ) (s : Live) → IsOnce s → IsOnce (fired t s)
    fired-IsOnce t s h =
        let h' = close-IsOnce s h in
        record {
          data_same = h'.data_same;
          err_same = h'.err_same;
          data_registered = h'.data_registered;
          err_registered = h'.err_registered;
          closings = h'.closings;
        }

    store-IsOnce : (answer : Result Text) (s : Live) → IsOnce s → IsOnce (store answer s)
    unfolding store
    store-IsOnce (failed e) s h = h
    store-IsOnce (ok []) s h = h
    store-IsOnce (ok (c ∷ msg)) s h = record {
      data_same = h.data_same;
      err_same = h.err_same;
      data_registered = h.data_registered;
      err_registered = h.err_registered;
      closings = h.closings;
    }

    others-IsOnce :
        (c : PfConn) (s : Live)
        → occurs s.stream.data_stream c.streams ≡ occurs s.stream.data_stream s.conn.streams
        → occurs s.stream.err_stream c.streams ≡ occurs s.stream.err_stream s.conn.streams
        → IsOnce s
        → IsOnce (record s { conn = c })
    others-IsOnce c s d e h = record {
      data_same = h.data_same;
      err_same = h.err_same;
      data_registered = ground (arith, h.data_same, h.data_registered);
      err_registered = ground (arith, h.err_same, h.err_registered);
      closings = h.closings;
    }

    Step-IsOnce : {s t : Sys} → Step s t → IsOnce s.live → IsOnce t.live
    Step-IsOnce (passes n) h = h
    Step-IsOnce {s} closes h = close-IsOnce s.live h
    Step-IsOnce {s} (arms t) h = arm_deadline-IsOnce s.now t s.live h
    Step-IsOnce {s} (fires t m l) h = fired-IsOnce t s.live h
    Step-IsOnce {s} (drain_reads answer d) h = store-IsOnce answer s.live h
    Step-IsOnce {s} (drain_closes msg d) h = close-IsOnce s.live h
    Step-IsOnce {s} (others c d e) h = others-IsOnce c s.live d e h

    Reach-IsOnce : {s t : Sys} → Reach s t → IsOnce s.live → IsOnce t.live
    Reach-IsOnce here h = h
    Reach-IsOnce (later r m) h = Step-IsOnce m (Reach-IsOnce r h)

-- However the calls of Close, the timers of deadlines, and drainError interleave, and whatever other
-- dials do to other streams of the connection, the two streams of a dial are closed once: as long as
-- the stream is open they are registered at the connection and Close has not been called on either;
-- from then on they are taken out, and Close has been called once on each. The data and the error
-- stream differ, and are each registered once at the start.
pub opened-IsOnce :
    (now : ℕ) (c : PfConn) (s : StreamConn) {t : Sys}
    → s.is_closed ≡ false
    → s.data_stream ≢ s.err_stream
    → occurs s.data_stream c.streams ≡ 1
    → occurs s.err_stream c.streams ≡ 1
    → Reach (opened now c s) t
    → IsOnce s.data_stream s.err_stream t.live
opened-IsOnce now c s o ne d e r = Reach-IsOnce s.data_stream s.err_stream ne r (record {
  data_same = refl;
  err_same = refl;
  data_registered = ground arith;
  err_registered = ground arith;
  closings = ground arith;
})
