-- ===== src/Router/Laws.antt =====
-- The route table of src/router.rs as a partial function of the action and the URI.
use bxp_core.Base.{
  ◌≡◌, refl, ap, ◌∙◌, inl, inr, ◌&&◌, Option, some, none, List, [], ◌∷◌, Bool-cases, if◌then◌else◌,
  arith,
}
use bxp_core.Base.Str.{Str, str_eq}
use bxp_core.HashMap.{get, entry_or, get-insert, action_key, str_key}
use bxp_core.Protocol.{BxpAction, action_eq}
use bxp_core.Protocol.Conversions.{action_eq_iff}
use bxp_core.Quic.{Quic}
use bxp_core.Router.{BxpHandler, BxpRouter, new, route, find, in_table}

module _ {q : Quic} where
  get-entry_or :
      (r : BxpRouter q) (action : BxpAction) (w : Str)
      → get (entry_or r.routes action []) w ≡ in_table (get r.routes action) w
  unfolding entry_or get
  get-entry_or r action w = ground arith

  -- After a registration the table gives the new handler for that action and URI, also where one
  -- had been registered before, and for every other pair what it gave before.
  pub find-route :
      (r : BxpRouter q) (action b : BxpAction) (uri w : Str) (h : BxpHandler q)
      → find (route action uri h r) b w
        ≡ (if action_eq action b && str_eq uri w then some h else find r b w)
  unfolding find route
  find-route r action b uri w h = elim (Bool-cases (action_eq action b)) [
    | inl same ↦ rw (
      get-insert r.routes action b,
      same,
      get-insert (entry_or r.routes action []) uri w h,
      get-entry_or r action w,
      (action_eq_iff action b).0 same,
    )
    | inr other ↦ rw (get-insert r.routes action b, other)
  ]

  -- Routes that are registered one after the other on a new router.
  unfoldable pub build : List (BxpAction × Str × BxpHandler q) → BxpRouter q
  build [] = new
  build ((action, uri, h) ∷ earlier) = route action uri h (build earlier)

  -- The specification: the newest registration of exactly that action and URI.
  unfoldable pub newest :
      List (BxpAction × Str × BxpHandler q) → BxpAction → Str → Option (BxpHandler q)
  newest [] b w = none
  newest ((action, uri, h) ∷ earlier) b w =
      if action_eq action b && str_eq uri w then some h else newest earlier b w

  -- The nested tables refine the list of registrations, the newest first: whatever was registered
  -- on a new router, a look-up finds the handler that was registered last for exactly that action
  -- and URI, and none if there was no such registration.
  pub find-build :
      (regs : List (BxpAction × Str × BxpHandler q)) (b : BxpAction) (w : Str)
      → find (build regs) b w ≡ newest regs b w
  unfolding build newest find new get
  find-build [] b w = refl
  find-build ((action, uri, h) ∷ earlier) b w =
      find-route (build earlier) action b uri w h
      ∙ ap (λ o. if action_eq action b && str_eq uri w then some h else o) (find-build earlier b w)
