-- ===== src/Pipe/Waiting.antt =====
-- A bridge whose backend is silent: what the closing of the registry does not reach.
use go_portless.Common.{◌≡◌, refl, ◌≢◌, Bool, true, false, [], ◌∷◌, ◌++◌, Text, sym, ◌∙◌, arith}
use go_portless.Pipe.{
  End, Copy, Closing, leave_open, close_write, ending, Policy, bridge, Pump, read, write,
  write_fails, read_fails, read_eof, Pair, Own, pump_up, pump_down, leave, Shut, shut,
}

-- The program's own steps and the closing of the registry: the peers do not move.
pub data Runs (p : Policy) (s : Pair) : Pair → Type 0 where
  here : Runs p s s
  by_own : {t u : Pair} → Runs p s t → Own p t u → Runs p s u
  by_shut : {t u : Pair} → Runs p s t → Shut p t u → Runs p s u

-- The backend has nothing to say and does not end its stream, and the copy from it waits.
abbrev pub IsSilent : Pair → Type 0
IsSilent s =
    (s.right.inbound ≡ [])
    × (s.right.ended ≡ false)
    × (s.right.broken ≡ false)
    × (s.right.closed ≡ false)
    × (s.down.finished ≡ false)
    × (s.down.buf ≡ [])
    × (s.over ≡ false)

abbrev spares : Closing → Bool
spares leave_open = true
spares close_write = true
spares _ = false

Pump-right :
    {k : Closing} {src dst : End} {c : Copy} {src' dst' : End} {c' : Copy}
    → spares k ≡ true
    → Pump k src c dst src' c' dst'
    → (dst'.inbound ≡ dst.inbound)
      × (dst'.ended ≡ dst.ended)
      × (dst'.broken ≡ dst.broken)
      × (dst'.closed ≡ dst.closed)
unfolding ending
Pump-right g (read xs ys f b o i n) = ground arith
Pump-right g (write f b w awake) = ground arith
Pump-right g (write_fails f b w) = ground arith
Pump-right g (read_fails f b o) = ground arith
Pump-right g (read_eof f b i e) = ground arith

no_bytes : (xs ys : Text) → xs ≢ [] → xs ++ ys ≡ [] → ⊥
no_bytes [] ys n h = n refl
no_bytes (x ∷ xs) ys n h = absurd (ground arith)

Pump-blocked :
    {k : Closing} {src dst : End} {c : Copy} {src' dst' : End} {c' : Copy}
    → src.inbound ≡ []
    → src.ended ≡ false
    → src.broken ≡ false
    → src.closed ≡ false
    → c.buf ≡ []
    → Pump k src c dst src' c' dst'
    → ⊥
Pump-blocked i e b c w (read xs ys f h o j n) = no_bytes xs ys n (sym j ∙ i)
Pump-blocked i e b c w (write f h v awake) = h w
Pump-blocked i e b c w (write_fails f h v) = h w
Pump-blocked i e b c w (read_fails f h o) = ground arith
Pump-blocked i e b c w (read_eof f h j o) = ground arith

Own-IsSilent :
    {p : Policy} {s t : Pair} → spares p.up_closing ≡ true → Own p s t → IsSilent s → IsSilent t
Own-IsSilent g (pump_up m) h = let same = Pump-right g m in ground arith
Own-IsSilent g (pump_down m) (i, e, b, c, f, w, o) = absurd (Pump-blocked i e b c w m)
Own-IsSilent g (leave u d o) h = absurd (ground arith)

Runs-IsSilent :
    {p : Policy} {s t : Pair} → spares p.up_closing ≡ true → IsSilent s → Runs p s t → IsSilent t
Runs-IsSilent g h here = h
Runs-IsSilent g h (by_own r m) = Own-IsSilent g m (Runs-IsSilent g h r)
Runs-IsSilent g h (by_shut r (shut x)) = Runs-IsSilent g h r

-- Closing the registry does not end a bridge whose backend is silent. While the copy from the
-- backend waits for bytes, and the backend neither sends, ends its stream nor breaks: whatever the
-- program does, and whether or not the registry is closed, the bridge does not return, the backend's
-- connection stays open, and the copy from it keeps waiting.
pub bridge-IsSilent :
    (left_half right_half : Bool) {s t : Pair}
    → IsSilent s
    → Runs (bridge left_half right_half) s t
    → IsSilent t
unfolding bridge
bridge-IsSilent left_half true h r = Runs-IsSilent refl h r
bridge-IsSilent left_half false h r = Runs-IsSilent refl h r
