-- ===== src/Options/Strict.antt =====
-- WithStrict and the fallback options in any order.
use go_portless.Common.{ℕ, ◌≡◌, refl, ◌∙◌, true, Option, none, some, List, [], ◌∷◌, ◌++◌, map}
use go_portless.Dial.{DialFunc, Middleware, Config}
use go_portless.Options.{
  apply, with_fallback, with_strict, with_ready_timeout, with_middleware, with_event_handler,
  default_config, configure,
}

-- What a caller can give to New: the fields of the configuration are private to the package, so
-- its own options are all that there are.
pub data Setting (E : Type 0) : Type 0 where
  fallback : Option (DialFunc E) → Setting E
  strict : Setting E
  ready_timeout : ℕ → Setting E
  middleware : List (Middleware E) → Setting E
  event_handler : ℕ → Setting E

module _ {E : Type 0} where
  -- The option of each; `plain` is the dialer that stands for nil.
  unfoldable pub option_of : DialFunc E → Setting E → Config E → Config E
  option_of plain (fallback d) = with_fallback plain d
  option_of plain strict = with_strict
  option_of plain (ready_timeout d) = with_ready_timeout d
  option_of plain (middleware ms) = with_middleware ms
  option_of plain (event_handler h) = with_event_handler h

  apply-append :
      (os ps : List (Config E → Config E)) (c : Config E)
      → apply (os ++ ps) c ≡ apply ps (apply os c)
  unfolding apply
  apply-append [] ps c = refl
  apply-append (o ∷ os) ps c = apply-append os ps (o c)

  with_fallback-strict :
      (plain : DialFunc E) (d : Option (DialFunc E)) (c : Config E)
      → (with_fallback plain d c).force_strict ≡ c.force_strict
  unfolding with_fallback
  with_fallback-strict plain none c = refl
  with_fallback-strict plain (some d) c = refl

  option_of-strict :
      (plain : DialFunc E) (o : Setting E) (c : Config E)
      → c.force_strict ≡ true
      → (option_of plain o c).force_strict ≡ true
  unfolding option_of with_strict with_ready_timeout with_middleware with_event_handler
  option_of-strict plain (fallback d) c h = with_fallback-strict plain d c ∙ h
  option_of-strict plain strict c h = refl
  option_of-strict plain (ready_timeout d) c h = h
  option_of-strict plain (middleware ms) c h = h
  option_of-strict plain (event_handler n) c h = h

  apply-strict :
      (plain : DialFunc E) (os : List (Setting E)) (c : Config E)
      → c.force_strict ≡ true
      → (apply (map (option_of plain) os) c).force_strict ≡ true
  unfolding apply
  apply-strict plain [] c h = h
  apply-strict plain (o ∷ os) c h =
      apply-strict plain os (option_of plain o c) (option_of-strict plain o c h)

  -- WithStrict makes the registry strict wherever it stands among the options, whatever fallback
  -- the others set before or after it.
  pub strict_wins :
      (plain : DialFunc E) (before after : List (Setting E))
      → (configure
          (map (option_of plain) before ++ (with_strict ∷ map (option_of plain) after))).fallback
        ≡ none
  unfolding configure
  strict_wins plain before after =
      let os = map (option_of plain) before in
      let ps = map (option_of plain) after in
      let c = apply os default_config in
      let marked : (apply (os ++ (with_strict ∷ ps)) default_config).force_strict ≡ true =
        rw (apply-append os (with_strict ∷ ps) default_config)
          (unfold apply in apply-strict plain after (with_strict c) (unfold with_strict in refl)) in
      rw marked
