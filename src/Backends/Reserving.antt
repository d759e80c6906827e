-- ===== src/Backends/Reserving.antt =====
-- What ReservePorts leaves behind, and what it returns.
use go_portless.Common.{
  ℕ, zero, suc, ◌+◌, ◌≤◌, ◌<◌, ◌≡◌, refl, sym, ap, ◌∙◌, subst, List, [], ◌∷◌, ◌++◌, arith, length,
  length-append, occurs, occurs-append,
}
use go_portless.Net.{ℤ, pos, negsuc}
use go_portless.Dial.{Result, ok, failed}
use go_portless.Backends.{Os, or_tcp, reserve_next, reserve_loop, reserve_ports}

-- A port that is listened on is not given again.
abbrev pub GivesFree : (List ℕ → Result ℕ) → Type 0
GivesFree listen = (held : List ℕ) (p : ℕ) → listen held ≡ ok p → occurs p held ≡ 0

-- No port stands twice.
abbrev pub IsDistinct : List ℕ → Type 0
IsDistinct ports = (p : ℕ) → occurs p ports ≤ 1

from_either :
    {P : Type 0} (q r : Result ℕ) (p : ℕ) → (q ≡ ok p → P) → (r ≡ ok p → P) → or_tcp q r ≡ ok p → P
from_either (ok a) r p f g e = f e
from_either (failed d) r p f g e = g e

IsDistinct-append :
    (held : List ℕ) (p : ℕ) → IsDistinct held → occurs p held ≡ 0 → IsDistinct (held ++ p ∷ [])
unfolding occurs
IsDistinct-append held p h free q = ground (arith, occurs-append q held (p ∷ []), h q)

reserve_next-IsDistinct :
    (n : ℕ) (held : List ℕ) (r : Result ℕ) (rest : List ℕ → Result (List ℕ) × List ℕ)
    (ports closes : List ℕ)
    → ((p : ℕ) → r ≡ ok p → occurs p held ≡ 0)
    → IsDistinct held
    → ((more : List ℕ)
        → IsDistinct more
        → rest more ≡ (ok ports, closes)
        → (length ports ≡ length more + n) × (closes ≡ ports) × IsDistinct ports)
    → reserve_next held r rest ≡ (ok ports, closes)
    → (length ports ≡ length held + suc n) × (closes ≡ ports) × IsDistinct ports
reserve_next-IsDistinct n held (failed e) rest ports closes free h go done = absurd (cc)
reserve_next-IsDistinct n held (ok p) rest ports closes free h go done =
    let (len, closed, distinct) =
      go (held ++ p ∷ []) (IsDistinct-append held p h (free p refl)) done in
    (omega (arith, len, length-append held (p ∷ [])), closed, distinct)

reserve_loop-IsDistinct :
    (os : Os) (n : ℕ) (held ports closes : List ℕ)
    → GivesFree os.listen_tcp4
    → GivesFree os.listen_tcp
    → IsDistinct held
    → reserve_loop os n held ≡ (ok ports, closes)
    → (length ports ≡ length held + n) × (closes ≡ ports) × IsDistinct ports
unfolding reserve_loop
reserve_loop-IsDistinct os zero held ports closes f g h done =
    let same_ports : held ≡ ports = cc in
    let same_closes : held ≡ closes = cc in
    (
      omega (arith, ap length same_ports),
      sym same_closes ∙ same_ports,
      subst IsDistinct same_ports h,
    )
reserve_loop-IsDistinct os (suc n) held ports closes f g h done =
    reserve_next-IsDistinct n held (or_tcp (os.listen_tcp4 held) (os.listen_tcp held))
      (reserve_loop os n) ports closes
      (λ p e.
        from_either (os.listen_tcp4 held) (os.listen_tcp held) p (λ d. f held p d) (λ d. g held p d)
          e)
      h (λ more d e. reserve_loop-IsDistinct os n more ports closes f g d e) done

-- If the system never gives a port that is listened on, ReservePorts of n returns ports only if n
-- is positive, and then n of them, no two the same; the listeners that held them, and no others,
-- are closed when it returns.
pub reserve_ports-IsDistinct :
    (os : Os) (n : ℤ) (ports closes : List ℕ)
    → GivesFree os.listen_tcp4
    → GivesFree os.listen_tcp
    → reserve_ports os n ≡ (ok ports, closes)
    → (n ≡ pos (length ports)) × (0 < length ports) × (closes ≡ ports) × IsDistinct ports
unfolding reserve_ports occurs
reserve_ports-IsDistinct os (pos zero) ports closes f g e = absurd (cc)
reserve_ports-IsDistinct os (pos (suc n)) ports closes f g e =
    let (len, closed, distinct) =
      reserve_loop-IsDistinct os (suc n) [] ports closes f g (λ p. omega arith) e in
    (ap pos (omega (arith, len)), omega (arith, len), closed, distinct)
reserve_ports-IsDistinct os (negsuc n) ports closes f g e = absurd (cc)
