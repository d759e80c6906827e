-- ===== src/Dial/Chain.antt =====
-- Laws of middleware chains.
use go_portless.Common.{◌≡◌, refl, ap, List, [], ◌∷◌, ◌++◌}
use go_portless.Dial.{DialFunc, Middleware, chain}

module _ {E : Type 0} where
  -- A chain over two lists is a chain over the first around a chain over the second.
  pub chain-append :
      (base : DialFunc E) (ms ns : List (Middleware E))
      → chain base (ms ++ ns) ≡ chain (chain base ns) ms
  unfolding chain
  chain-append base [] ns = refl
  chain-append base (m ∷ ms) ns = ap m (chain-append base ms ns)
