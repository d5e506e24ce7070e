-- ===== src/StateMachine/Engine.antt =====
-- What `fire` and `fire_async` of state_machine.py come to.
use flower_web_infrastructur.Prelude.{
  ◌≡◌, ◌≢◌, ◌⊎◌, refl, sym, ◌∙◌, ap, true, false, Option, none, some, Eq, Bool-cases, Option-cases,
  inl, inr,
}
use flower_web_infrastructur.Prelude.Dict
use flower_web_infrastructur.Prelude.Dict.{Dict}
use flower_web_infrastructur.StateMachine.{
  StateRouter, StateRouteParams, illegal_state_transition, event_router_error, type_error, Result,
  raise, ok, fire, fire_async, fire_with, fire_valid, is_legal, route, settle, settle_async,
  awaited, Called, raised, returned, coroutine,
}

settle-ok :
    {S W X : Type 0} (x : W × Called S W X) (w' : W) (target : S)
    → settle x ≡ (w', ok target)
    → x ≡ (w', returned (some target))
settle-ok (w, raised x) w' target h = absurd (cc)
settle-ok (w, returned none) w' target h = absurd (cc)
settle-ok (w, returned (some s)) w' target h = cc
settle-ok (w, coroutine run) w' target h = absurd (cc)

-- The two ends of a handler's call.
settle_cases :
    {S W X : Type 0} (x : W × Called S W X)
    → (settle x ≡ settle_async x)
      ⊎ ((u : W) × (run : W → W × Result X (Option S)) × (x ≡ (u, coroutine run)))
settle_cases (w, raised x) = inl refl
settle_cases (w, returned target) = inl refl
settle_cases (w, coroutine run) = inr (w, run, refl)

module _ {S E V W X : Type 0} ⦃es : Eq S⦄ ⦃ee : Eq E⦄ (r : StateRouter S E V W X) where
  module _ (finish : W × Called S W X → W × Result X S) (s : S) (event : E) (p : StateRouteParams V)
      (w : W) where
    fire-illegal :
        is_legal r s event ≡ false
        → fire_with r finish (some s) event (some p) w ≡ (w, raise illegal_state_transition)
    fire-illegal h = rw (h, fire_with) refl

    fire-unrouted :
        is_legal r s event ≡ true
        → route r event s p w ≡ none
        → fire_with r finish (some s) event (some p) w ≡ (w, raise event_router_error)
    fire-unrouted h g = rw (h, fire_with) (rw (g, fire_valid) refl)

    fire-routed :
        (x : W × Called S W X)
        → is_legal r s event ≡ true
        → route r event s p w ≡ some x
        → fire_with r finish (some s) event (some p) w ≡ finish x
    fire-routed x h g = rw (h, fire_with) (rw (g, fire_valid) refl)

  -- A target is reached only from a state with parameters, over an event that the table admits there, by the
  -- handler of the event.
  pub fire-Legal :
      (state : Option S) (event : E) (params : Option (StateRouteParams V)) (w w' : W) (target : S)
      → fire r state event params w ≡ (w', ok target)
      → (s : S) × (p : StateRouteParams V) × (state ≡ some s)
        × (params ≡ some p)
        × (is_legal r s event ≡ true)
        × (route r event s p w ≡ some (w', returned (some target)))
  unfolding fire
  fire-Legal none event params w w' target h = absurd (cc)
  fire-Legal (some s) event none w w' target h = absurd (cc)
  fire-Legal (some s) event (some p) w w' target h = elim (Bool-cases (is_legal r s event)) [
    | inr illegal ↦ absurd (cc (fire-illegal settle s event p w illegal, h))
    | inl legal ↦ elim (Option-cases (route r event s p w)) [
      | inl unrouted ↦ absurd (cc (fire-unrouted settle s event p w legal unrouted, h))
      | inr (x, routed) ↦
          let e = settle-ok x w' target (sym (fire-routed settle s event p w x legal routed) ∙ h) in
          (s, p, refl, refl, legal, routed ∙ ap some e)
    ]
  ]

  -- The synchronous and the asynchronous call agree, unless the handler gives a coroutine: then the first ends
  -- in a TypeError and does not run it, and the second goes on with what it comes to.
  pub fire-fire_async :
      (state : Option S) (event : E) (params : Option (StateRouteParams V)) (w : W)
      → (fire r state event params w ≡ fire_async r state event params w)
        ⊎ ((s : S) × (p : StateRouteParams V) × (u : W) × (run : W → W × Result X (Option S))
            × (state ≡ some s)
            × (params ≡ some p)
            × (route r event s p w ≡ some (u, coroutine run))
            × (fire r state event params w ≡ (u, raise type_error))
            × (fire_async r state event params w ≡ awaited (run u)))
  unfolding fire fire_async
  fire-fire_async none event params w = inl refl
  fire-fire_async (some s) event none w = inl refl
  fire-fire_async (some s) event (some p) w = elim (Bool-cases (is_legal r s event)) [
    | inr illegal ↦ inl (
        fire-illegal settle s event p w illegal
        ∙ sym (fire-illegal settle_async s event p w illegal))
    | inl legal ↦ elim (Option-cases (route r event s p w)) [
      | inl unrouted ↦ inl (
          fire-unrouted settle s event p w legal unrouted
          ∙ sym (fire-unrouted settle_async s event p w legal unrouted))
      | inr (x, routed) ↦
          let sync = fire-routed settle s event p w x legal routed in
          let awaiting = fire-routed settle_async s event p w x legal routed in
          elim (settle_cases x) [
            | inl same ↦ inl (sync ∙ same ∙ sym awaiting)
            | inr (u, run, e) ↦ inr (
              s,
              p,
              u,
              run,
              refl,
              refl,
              routed ∙ ap some e,
              sync ∙ ap settle e,
              awaiting ∙ ap settle_async e,
            )
          ]
    ]
  ]

  -- Where every event that the table admits has a handler, no call ends in EVENT_ROUTER_ERROR.
  pub handled-routed :
      ((s : S) (event : E)
        → is_legal r s event ≡ true
        → Dict.contains event r.event_dispatcher ≡ true)
      → (state : Option S) (event : E) (params : Option (StateRouteParams V)) (w : W)
      → (fire r state event params w).1 ≢ raise event_router_error
  unfolding fire
  handled-routed all none event params w h = cc
  handled-routed all (some s) event none w h = cc
  handled-routed all (some s) event (some p) w h = elim (Bool-cases (is_legal r s event)) [
    | inr illegal ↦
        wrong (ap (λ (x : W × Result X S). x.1) (sym (fire-illegal settle s event p w illegal)) ∙ h)
    | inl legal ↦ elim (Option-cases (Dict.get event r.event_dispatcher)) [
      | inl absent ↦ cc (Dict.get-contains event r.event_dispatcher absent, all s event legal)
      | inr (handler, found) ↦ routed (handler s p w) (
          ap (λ (x : W × Result X S). x.1)
            (sym (fire-routed settle s event p w (handler s p w) legal (rw (found, route) refl)))
          ∙ h)
    ]
  ]
    where
      wrong : ◌≢◌ {A = Result X S} (raise illegal_state_transition) (raise event_router_error)
      wrong q = cc

      routed : (x : W × Called S W X) → (settle x).1 ≢ raise event_router_error
      routed (u, raised x) q = cc
      routed (u, returned none) q = cc
      routed (u, returned (some t)) q = cc
      routed (u, coroutine run) q = cc
