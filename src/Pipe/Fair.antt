-- ===== src/Pipe/Fair.antt =====
-- A single copy whose end closes no more than the writing side of its destination.
use mathlib.Core.List.{append-nil}
use go_portless.Common.{
  ◌≡◌, refl, sym, ap, ◌∙◌, ◌⊎◌, inl, inr, Bool, true, false, ◌||◌, [], ◌++◌, arith,
}
use go_portless.Pipe.{
  End, Copy, Closing, leave_open, close_write, ending, Pump, read, write, write_fails, read_fails,
  read_eof, Pair,
}
use go_portless.Pipe.Flow.{Flows}

-- A copy that has ended has delivered all, to the end of the stream, or something was cut.
abbrev pub IsDelivered : End → Copy → End → Bool → Type 0
IsDelivered src c dst cut =
    c.finished ≡ true → ((dst.received ≡ src.sent) × (src.ended ≡ true)) ⊎ (cut ≡ true)

-- A connection broke, or the registry was closed.
abbrev pub was_cut : Pair → Bool
was_cut s = s.left.broken || s.right.broken || s.was_shut

abbrev pub is_gentle : Closing → Bool
is_gentle leave_open = true
is_gentle close_write = true
is_gentle _ = false

-- What a copy meets: neither end is closed unless something was cut, and only the end of the copy
-- closes the writing side of the destination.
pub record Fair (src : End) (c : Copy) (dst : End) (cut : Bool) : Type 0 where
  pub flows : Flows src c dst
  pub src_closed : src.closed ≡ true → cut ≡ true
  pub src_broken : src.broken ≡ true → cut ≡ true
  pub dst_closed : dst.closed ≡ true → cut ≡ true
  pub dst_broken : dst.broken ≡ true → cut ≡ true
  pub half : dst.write_closed ≡ true → c.finished ≡ true

at_eof :
    (src : End) (c : Copy) (dst : End)
    → Flows src c dst
    → c.buf ≡ []
    → src.inbound ≡ []
    → dst.received ≡ src.sent
at_eof src c dst h b i =
    sym (append-nil dst.received)
    ∙ ap (λ x. dst.received ++ x) (sym (ap (λ x. x ++ src.inbound) b ∙ i))
    ∙ h

module _ {k : Closing} (g : is_gentle k ≡ true) where
  -- What a step of a copy leaves as it was, with the closing side of it.
  pub Pump-kept :
      {src dst : End} {c : Copy} {src' dst' : End} {c' : Copy}
      → Pump k src c dst src' c' dst'
      → (src'.closed ≡ src.closed)
        × (src'.broken ≡ src.broken)
        × (src'.sent ≡ src.sent)
        × (src'.ended ≡ src.ended)
        × (src'.received ≡ src.received)
        × (src'.write_closed ≡ src.write_closed)
        × (dst'.closed ≡ dst.closed)
        × (dst'.broken ≡ dst.broken)
        × (dst'.sent ≡ dst.sent)
        × (dst'.ended ≡ dst.ended)
  unfolding ending
  Pump-kept (read xs ys f b o i n) = ground arith
  Pump-kept (write f b w awake) = ground arith
  Pump-kept (write_fails f b w) = ground arith
  Pump-kept (read_fails f b o) = ground arith
  Pump-kept (read_eof f b i e) = ground arith

  pub Pump-half :
      {src dst : End} {c : Copy} {src' dst' : End} {c' : Copy}
      → Pump k src c dst src' c' dst'
      → (dst.write_closed ≡ true → c.finished ≡ true)
      → dst'.write_closed ≡ true
      → c'.finished ≡ true
  Pump-half (read xs ys f b o i n) h e = h e
  Pump-half (write f b w awake) h e = h e
  Pump-half (write_fails f b w) h e = refl
  Pump-half (read_fails f b o) h e = refl
  Pump-half (read_eof f b i e) h e' = refl

  pub Pump-IsDelivered :
      {src dst : End} {c : Copy} {src' dst' : End} {c' : Copy} {cut : Bool}
      → Fair src c dst cut
      → Pump k src c dst src' c' dst'
      → IsDelivered src' c' dst' cut
  unfolding ending
  Pump-IsDelivered fair (read xs ys f b o i n) h = absurd (ground arith)
  Pump-IsDelivered fair (write f b w awake) h = absurd (ground arith)
  Pump-IsDelivered fair (write_fails f b w) h = inr (ground arith)
  Pump-IsDelivered fair (read_fails f b o) h = inr (ground arith)
  Pump-IsDelivered {src} {dst} {c} fair (read_eof f b i e) h =
      let all = at_eof src c dst fair.flows b i in inl (ground arith)
