-- ===== src/Http/FastPath.antt =====
-- The flag hasRewrites lets HostRewrite skip the lookup: it never skips one that would find a
-- rewrite.
use go_portless.Common.{
  if_true, if_false, ◌≡◌, refl, ◌⊎◌, inl, inr, Bool, true, false, Option, none, some, List, [], ◌∷◌,
  arith, Bool-cases, Option-cases, Text, text_eq, text_eq_iff, to_lower, Dict, lookup, delete,
  insert,
}
use go_portless.Errors.{Err}
use go_portless.Dial.{Backend, RouteConfig, Config, World, Context}
use go_portless.Route.{Route}
use go_portless.Registry.{
  Registry, new_registry, published, lookup_route, reserve_in, reserve, release_name, publish_in,
  publish, finish_add, started, reserved, add_route, mark_rewrites, checked, add_checked, add,
}
use go_portless.Registry.Ops.{bridge_close_all, take, remove, shut, close}
use go_portless.Http.{name_and_port, rewritten, rewrite_of, host_rewrite}
use go_portless.Route as RouteOf

-- The calls that change a registry's routes.
pub data Call (E : Type 0) : Type 0 where
  call_add : Context → Text → Option (Backend E) → List (RouteConfig E → RouteConfig E) → Call E
  call_remove : Context → Text → Call E
  call_close : Call E

module _ {E : Type 0} where
  abbrev NoRewrite : Option (Route E) → Type 0
  NoRewrite none = Unit
  NoRewrite (some rt) = rt.cfg.host_rewrite ≡ []

  abbrev NoRewrites : Dict (Option (Route E)) → Type 0
  NoRewrites [] = Unit
  NoRewrites ((k, v) ∷ m) = NoRewrite v × NoRewrites m

  abbrev IsFlagged : Registry E → Type 0
  IsFlagged r = (r.has_rewrites ≡ true) ⊎ NoRewrites r.routes

  published-NoRewrite : (v : Option (Route E)) → NoRewrite v → NoRewrite (published (some v))
  published-NoRewrite v p = p

  new-IsFlagged : (options : List (Config E → Config E)) → IsFlagged (new_registry options)
  unfolding new_registry
  new-IsFlagged options = inr tt

  delete-NoRewrites :
      (k : Text) (m : Dict (Option (Route E))) → NoRewrites m → NoRewrites (delete k m)
  unfolding delete
  delete-NoRewrites k [] h = tt
  delete-NoRewrites k ((j, v) ∷ m) (p, h) = elim (Bool-cases (text_eq j k)) [
    | inl hit ↦ rw hit (delete-NoRewrites k m h)
    | inr miss ↦ rw miss (p, delete-NoRewrites k m h)
  ]

  insert-NoRewrites :
      (k : Text) (v : Option (Route E)) (m : Dict (Option (Route E)))
      → NoRewrite v
      → NoRewrites m
      → NoRewrites (insert k v m)
  unfolding insert
  insert-NoRewrites k v m p h = (p, delete-NoRewrites k m h)

  mark-IsFlagged :
      (r : Registry E) (rt : Route E)
      → IsFlagged r
      → IsFlagged (mark_rewrites r rt)
        × (((mark_rewrites r rt).has_rewrites ≡ true) ⊎ (rt.cfg.host_rewrite ≡ []))
  unfolding mark_rewrites
  mark-IsFlagged r rt f = ground (arith, text_eq_iff rt.cfg.host_rewrite [])

  published-IsFlagged :
      (b : Bool) (r : Registry E) (key name : Text) (rt : Route E) (w : World E)
      → IsFlagged r
      → (r.has_rewrites ≡ true) ⊎ (rt.cfg.host_rewrite ≡ [])
      → IsFlagged (finish_add (publish_in b r key rt) name rt w).0
  published-IsFlagged true r key name rt w (inl flag) c = inl flag
  published-IsFlagged true r key name rt w (inr h) c = inr (delete-NoRewrites key r.routes h)
  published-IsFlagged false r key name rt w (inl flag) c = inl flag
  published-IsFlagged false r key name rt w (inr h) (inl flag) = inl flag
  published-IsFlagged false r key name rt w (inr h) (inr e) =
      inr (insert-NoRewrites key (some rt) r.routes e h)

  started-IsFlagged :
      (r : Registry E) (key name : Text) (rt : Route E) (answer : Option Err × World E)
      → IsFlagged r
      → (r.has_rewrites ≡ true) ⊎ (rt.cfg.host_rewrite ≡ [])
      → IsFlagged (started r key name rt answer).0
  unfolding release_name publish
  started-IsFlagged r key name rt (some e, w) (inl flag) c = inl flag
  started-IsFlagged r key name rt (some e, w) (inr h) c = inr (delete-NoRewrites key r.routes h)
  started-IsFlagged r key name rt (none, w) f c = published-IsFlagged r.closed r key name rt w f c

  -- reserve, with the answers it reads given.
  reserved-IsFlagged :
      (b : Bool) (entry : Option (Option (Route E))) (r : Registry E) (ctx : Context)
      (key name : Text) (rt : Route E) (w : World E)
      → IsFlagged r
      → (r.has_rewrites ≡ true) ⊎ (rt.cfg.host_rewrite ≡ [])
      → IsFlagged (reserved r ctx key name rt w (reserve_in b entry r key name)).0
  reserved-IsFlagged true entry r ctx key name rt w f c = f
  reserved-IsFlagged false (some e) r ctx key name rt w f c = f
  reserved-IsFlagged false none r ctx key name rt w (inl flag) c =
      started-IsFlagged _ key name rt _ (inl flag) c
  reserved-IsFlagged false none r ctx key name rt w (inr h) c =
      started-IsFlagged _ key name rt _ (inr (insert-NoRewrites key none r.routes tt h)) c

  add_route-IsFlagged :
      (r : Registry E) (ctx : Context) (name : Text) (rt : Route E) (w : World E)
      → IsFlagged r
      → IsFlagged (add_route r ctx name rt w).0
  unfolding add_route reserve
  add_route-IsFlagged r ctx name rt w f =
      let (f', c) = mark-IsFlagged r rt f in
      reserved-IsFlagged _ _ (mark_rewrites r rt) ctx (to_lower name) name rt w f' c

  checked-IsFlagged :
      (v : Option Err) (r : Registry E) (ctx : Context) (name : Text) (rt : Route E) (w : World E)
      → IsFlagged r
      → IsFlagged (checked v r ctx name rt w).0
  checked-IsFlagged (some e) r ctx name rt w f = f
  checked-IsFlagged none r ctx name rt w f = add_route-IsFlagged r ctx name rt w f

  add-IsFlagged :
      (r : Registry E) (ctx : Context) (name : Text) (b : Option (Backend E))
      (options : List (RouteConfig E → RouteConfig E)) (w : World E)
      → IsFlagged r
      → IsFlagged (add r ctx name b options w).0
  unfolding add add_checked
  add-IsFlagged r ctx [] b options w f = f
  add-IsFlagged r ctx (c ∷ name) none options w f = f
  add-IsFlagged r ctx (c ∷ name) (some b) options w f = checked-IsFlagged _ r ctx (c ∷ name) _ w f

  clear-IsFlagged :
      (r : Registry E) (key : Text)
      → IsFlagged r
      → (r.has_rewrites ≡ true) ⊎ NoRewrites (delete key r.routes)
  clear-IsFlagged r key (inl flag) = inl flag
  clear-IsFlagged r key (inr h) = inr (delete-NoRewrites key r.routes h)

  remove-IsFlagged :
      (r : Registry E) (ctx : Context) (name : Text) (w : World E)
      → IsFlagged r
      → IsFlagged (remove r ctx name w).0
  unfolding remove take
  remove-IsFlagged r ctx name w f =
      elim (Option-cases (published (lookup (to_lower name) r.routes))) [
        | inl e ↦ rw e f
        | inr (rt, e) ↦ rw e (clear-IsFlagged r (to_lower name) f)
      ]

  shut-IsFlagged : (r : Registry E) → IsFlagged r → ◌⊎◌ {0, 0} (r.has_rewrites ≡ true) Unit
  shut-IsFlagged r (inl flag) = inl flag
  shut-IsFlagged r (inr h) = inr tt

  close-IsFlagged : (r : Registry E) (w : World E) → IsFlagged r → IsFlagged (close r w).0
  unfolding close shut bridge_close_all
  close-IsFlagged r w f = elim (Bool-cases r.done) [
    | inl e ↦ rw (if_true _ e) f
    | inr e ↦ rw (if_false _ e) (shut-IsFlagged r f)
  ]

  lookup-NoRewrite :
      (k : Text) (m : Dict (Option (Route E))) → NoRewrites m → NoRewrite (published (lookup k m))
  unfolding lookup
  lookup-NoRewrite k [] h = tt
  lookup-NoRewrite k ((j, v) ∷ m) (p, h) = elim (Bool-cases (text_eq j k)) [
    | inl e ↦ rw e (published-NoRewrite v p)
    | inr e ↦ rw e (lookup-NoRewrite k m h)
  ]

  abbrev pub call : Call E → Registry E × World E → Registry E × World E
  call (call_add ctx name b options) (r, w) =
      let (r', x, w') = add r ctx name b options w in (r', w')
  call (call_remove ctx name) (r, w) = let (r', x, w') = remove r ctx name w in (r', w')
  call call_close (r, w) = let (r', x, ls, w') = close r w in (r', w')

  abbrev pub calls : List (Call E) → Registry E × World E → Registry E × World E
  calls [] s = s
  calls (c ∷ cs) s = calls cs (call c s)

  call-IsFlagged : (c : Call E) (s : Registry E × World E) → IsFlagged s.0 → IsFlagged (call c s).0
  call-IsFlagged (call_add ctx name b options) (r, w) f = add-IsFlagged r ctx name b options w f
  call-IsFlagged (call_remove ctx name) (r, w) f = remove-IsFlagged r ctx name w f
  call-IsFlagged call_close (r, w) f = close-IsFlagged r w f

  calls-IsFlagged :
      (cs : List (Call E)) (s : Registry E × World E) → IsFlagged s.0 → IsFlagged (calls cs s).0
  calls-IsFlagged [] s f = f
  calls-IsFlagged (c ∷ cs) s f = calls-IsFlagged cs (call c s) (call-IsFlagged c s f)

  rewritten-NoRewrite :
      (o : Option (Route E)) (port : Text) → NoRewrite o → none ≡ rewritten (rewrite_of o) port
  unfolding RouteOf.host_rewrite text_eq
  rewritten-NoRewrite none port h = refl
  rewritten-NoRewrite (some rt) port h = rw h refl

  host_rewrite-IsFlagged :
      (r : Registry E) (u : Text)
      → IsFlagged r
      → let (name, port) = name_and_port u in
        host_rewrite r u ≡ rewritten (rewrite_of (lookup_route r name)) port
  unfolding host_rewrite lookup_route
  host_rewrite-IsFlagged r u (inl flag) = rw (if_true _ flag) refl
  host_rewrite-IsFlagged r u (inr h) = elim (Bool-cases r.has_rewrites) [
    | inl flag ↦ rw (if_true _ flag) refl
    | inr e ↦ rw (if_false _ e) (
        rewritten-NoRewrite _ (name_and_port u).1
          (lookup-NoRewrite (to_lower (name_and_port u).0) r.routes h))
  ]

  -- After any calls of Add, Remove and Close on a new registry, for any URL host, HostRewrite
  -- answers what the lookup of its name answers: the flag with which it skips the lookup never
  -- skips one that finds a route with a rewrite.
  pub host_rewrite-calls :
      (options : List (Config E → Config E)) (w : World E) (cs : List (Call E)) (u : Text)
      → let r = (calls cs (new_registry options, w)).0 in
        let (name, port) = name_and_port u in
        host_rewrite r u ≡ rewritten (rewrite_of (lookup_route r name)) port
  host_rewrite-calls options w cs u =
      host_rewrite-IsFlagged _ u
        (calls-IsFlagged cs (new_registry options, w) (new-IsFlagged options))
