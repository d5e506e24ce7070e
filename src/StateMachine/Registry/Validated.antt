-- ===== src/StateMachine/Registry/Validated.antt =====
-- The engines that state_machine_registry.py gives out: built once, and never without a handler for an event
-- that their tables admit.
use flower_web_infrastructur.Prelude.{
  ◌≡◌, ◌≢◌, refl, sym, ◌∙◌, ap, subst, ◌||◌, Option, none, some, List, [], ◌∷◌, if◌then◌else◌, Eq,
  ◌==◌, Bool-cases, Option-cases, inl, inr,
}
use flower_web_infrastructur.Prelude.Dict
use flower_web_infrastructur.Prelude.Dict.{Dict}
use flower_web_infrastructur.StateMachine.{
  StateRouter, StateRouteParams, event_router_error, raise, fire,
}
use flower_web_infrastructur.StateMachine.Engine.{handled-routed}
use flower_web_infrastructur.StateMachine.Registry.Handled.{complete-handled}
use flower_web_infrastructur.StateMachine.Registry.{
  Engine, machine, custom, Registry, Reply, no_generics, already_registered, not_registered,
  construction_failed, misconfigured, done, missing_events, validate_router, put_engine,
  build_engine, construct_engine, register, register_instance, register_engine_factory, get,
}

-- A default engine whose table has a handler for each of its events; of another engine nothing is said.
abbrev IsComplete : {S E V W X G : Type 0} ⦃ee : Eq E⦄ → Engine S E V W X G → Type 0
IsComplete (machine r) = missing_events r ≡ []
IsComplete (custom g) = Unit

IsCompleteReply : {S E V W X G : Type 0} ⦃ee : Eq E⦄ → Reply E (Engine S E V W X G) → Type 0
IsCompleteReply {S} {E} {V} {W} {X} {G} r = (e : Engine S E V W X G) → r ≡ done e → IsComplete e

validate_router-IsComplete :
    {S E V W X : Type 0} (G : Type 0) ⦃ee : Eq E⦄ (r : StateRouter S E V W X)
    → IsCompleteReply {G = G} (validate_router r)
unfolding IsCompleteReply
validate_router-IsComplete {S} {E} {V} {W} {X} G r e h = go (missing_events r) refl
  where
    go : (ys : List E) → missing_events r ≡ ys → IsComplete e
    go [] none_missing =
        let q : ◌≡◌ {A = Reply E (Engine S E V W X G)} (done (machine r)) (done e) =
          sym (rw (none_missing, validate_router) refl) ∙ h in
        let q' : machine r ≡ e = cc in subst IsComplete q' none_missing
    go (y ∷ ys) some_missing =
        let q : ◌≡◌ {A = Reply E (Engine S E V W X G)} (misconfigured (y ∷ ys)) (done e) =
          sym (rw (some_missing, validate_router) refl) ∙ h in
        cc

construct_engine-IsComplete :
    {C S E V W X : Type 0} (G : Type 0) ⦃ee : Eq E⦄ (construct : C → Option (StateRouter S E V W X))
    (c : C)
    → IsCompleteReply {G = G} (construct_engine construct c)
unfolding IsCompleteReply
construct_engine-IsComplete {S = S} {E = E} {V = V} {W = W} {X = X} G construct c e h =
    elim (Option-cases (construct c)) [
      | inl failing ↦
          let q : ◌≡◌ {A = Reply E (Engine S E V W X G)} construction_failed (done e) =
            sym (rw (failing, construct_engine) refl) ∙ h in
          cc
      | inr (r, made) ↦
          unfold IsCompleteReply in
          validate_router-IsComplete G r e (sym (rw (made, construct_engine) refl) ∙ h)
    ]

build_engine-IsComplete :
    {F G : Type 0} (S E V W X : Type 0) ⦃ee : Eq E⦄ (build : F → Option G) (f : F)
    → IsCompleteReply {S = S} {E = E} {V = V} {W = W} {X = X} (build_engine build f)
unfolding IsCompleteReply
build_engine-IsComplete {G = G} S E V W X build f e h = elim (Option-cases (build f)) [
  | inl failing ↦
      let q : ◌≡◌ {A = Reply E (Engine S E V W X G)} construction_failed (done e) =
        sym (rw (failing, build_engine) refl) ∙ h in
      cc
  | inr (g, made) ↦
      let q : ◌≡◌ {A = Reply E (Engine S E V W X G)} (done (custom g)) (done e) =
        sym (rw (made, build_engine) refl) ∙ h in
      let q' : custom g ≡ e = cc in subst IsComplete q' tt
]

module _ {K C F S E V W X G : Type 0} ⦃ek : Eq K⦄ ⦃ee : Eq E⦄ where
  -- The registries that the methods make, from an empty one.
  pub data Reachable (generics : C → Option K) (construct : C → Option (StateRouter S E V W X))
      (build : F → Option G) : Registry K C F S E V W X G → Type 0 where
    fresh :
        Reachable generics construct build
          (record { engines = []; router_classes = []; engine_factories = [] })
    registered :
        (c : C) (reg : Registry K C F S E V W X G)
        → Reachable generics construct build reg
        → Reachable generics construct build (register generics c reg).0
    instance_registered :
        (c : C) (r : StateRouter S E V W X) (reg : Registry K C F S E V W X G)
        → Reachable generics construct build reg
        → Reachable generics construct build (register_instance generics c r reg).0
    factory_registered :
        (k : K) (f : F) (reg : Registry K C F S E V W X G)
        → Reachable generics construct build reg
        → Reachable generics construct build (register_engine_factory k f reg).0
    got :
        (k : K) (reg : Registry K C F S E V W X G)
        → Reachable generics construct build reg
        → Reachable generics construct build (get construct build k reg).0

  AllComplete : Registry K C F S E V W X G → Type 0
  AllComplete reg =
      (k : K) (e : Engine S E V W X G) → Dict.get k reg.engines ≡ some e → IsComplete e

  put_engine-AllComplete :
      (k : K) (reg : Registry K C F S E V W X G) (r : Reply E (Engine S E V W X G))
      → AllComplete reg
      → IsCompleteReply r
      → AllComplete (put_engine k reg r).0 × IsCompleteReply (put_engine k reg r).1
  unfolding AllComplete IsCompleteReply
  put_engine-AllComplete k reg (done engine) all ok =
      (λ j e h. written j e (sym (Dict.get-put k j engine reg.engines) ∙ h), ok)
    where
      named :
          (a b : Engine S E V W X G)
          → some a ≡ some b
          → ◌≡◌ {A = Reply E (Engine S E V W X G)} (done a) (done b)
      named a b q = let q' : a ≡ b = cc in ap done q'

      written :
          (j : K) (e : Engine S E V W X G)
          → (if k == j then some engine else Dict.get j reg.engines) ≡ some e
          → IsComplete e
      written j e h = elim (Bool-cases (k == j)) [
        | inl same ↦ ok e (named engine e (sym (rw same refl) ∙ h))
        | inr other ↦ all j e (sym (rw other refl) ∙ h)
      ]
  put_engine-AllComplete k reg no_generics all ok = (all, ok)
  put_engine-AllComplete k reg already_registered all ok = (all, ok)
  put_engine-AllComplete k reg not_registered all ok = (all, ok)
  put_engine-AllComplete k reg construction_failed all ok = (all, ok)
  put_engine-AllComplete k reg (misconfigured es) all ok = (all, ok)

  module _ (generics : C → Option K) (construct : C → Option (StateRouter S E V W X))
      (build : F → Option G) where
    get-AllComplete :
        (k : K) (reg : Registry K C F S E V W X G)
        → AllComplete reg
        → AllComplete (get construct build k reg).0 × IsCompleteReply (get construct build k reg).1
    unfolding get AllComplete IsCompleteReply
    get-AllComplete k reg all = elim (Option-cases (Dict.get k reg.engines)) [
      | inr (engine, found) ↦
          rw (found, get) (all, λ e h. all k e (found ∙ (let q : engine ≡ e = cc in ap some q)))
      | inl absent ↦ elim (Option-cases (Dict.get k reg.engine_factories)) [
        | inr (f, found) ↦
            rw (absent, get)
              (rw (found, get)
                (put_engine-AllComplete k reg (build_engine build f) all
                  (build_engine-IsComplete S E V W X build f)))
        | inl no_factory ↦ elim (Option-cases (Dict.get k reg.router_classes)) [
          | inr (c, found) ↦
              rw (absent, get)
                (rw (no_factory, get)
                  (rw (found, get)
                    (put_engine-AllComplete k reg (construct_engine construct c) all
                      (construct_engine-IsComplete G construct c))))
          | inl no_class ↦
              rw (absent, get)
                (rw (no_factory, get) (rw (no_class, get) (all, λ e h. absurd (unregistered e h))))
        ]
      ]
    ]
      where
        unregistered :
            (e : Engine S E V W X G)
            → ◌≡◌ {A = Reply E (Engine S E V W X G)} not_registered (done e)
            → ⊥
        unregistered e q = cc

    register_instance-AllComplete :
        (c : C) (r : StateRouter S E V W X) (reg : Registry K C F S E V W X G)
        → AllComplete reg
        → AllComplete (register_instance generics c r reg).0
    unfolding register_instance AllComplete
    register_instance-AllComplete c r reg all = elim (Option-cases (generics c)) [
      | inl absent ↦ rw (absent, register_instance) all
      | inr (k, found) ↦
          elim (Bool-cases (Dict.contains k reg.engines || Dict.contains k reg.router_classes)) [
            | inl taken ↦ rw (found, register_instance) (rw taken all)
            | inr free ↦
                rw (found, register_instance)
                  (rw free
                    (put_engine-AllComplete k reg (validate_router r) all
                      (validate_router-IsComplete G r)).0)
          ]
    ]

    register-AllComplete :
        (c : C) (reg : Registry K C F S E V W X G)
        → AllComplete reg
        → AllComplete (register generics c reg).0
    unfolding register AllComplete
    register-AllComplete c reg all = elim (Option-cases (generics c)) [
      | inl absent ↦ rw (absent, register) all
      | inr (k, found) ↦
          elim (Bool-cases (Dict.contains k reg.router_classes || Dict.contains k reg.engines)) [
            | inl taken ↦ rw (found, register) (rw taken all)
            | inr free ↦ rw (found, register) (rw free all)
          ]
    ]

    register_engine_factory-AllComplete :
        (k : K) (f : F) (reg : Registry K C F S E V W X G)
        → AllComplete reg
        → AllComplete (register_engine_factory k f reg).0
    unfolding register_engine_factory AllComplete
    register_engine_factory-AllComplete k f reg all =
        elim (Bool-cases (Dict.contains k reg.engines)) [
          | inl taken ↦ rw taken all
          | inr free ↦ rw free all
        ]

    Reachable-AllComplete :
        (reg : Registry K C F S E V W X G)
        → Reachable generics construct build reg
        → AllComplete reg
    Reachable-AllComplete reg fresh = unfold AllComplete in λ k e h. absurd (nothing e h)
      where
        nothing : (e : Engine S E V W X G) → none ≡ some e → ⊥
        nothing e h = cc
    Reachable-AllComplete reg (registered c reg' m) =
        register-AllComplete c reg' (Reachable-AllComplete reg' m)
    Reachable-AllComplete reg (instance_registered c r reg' m) =
        register_instance-AllComplete c r reg' (Reachable-AllComplete reg' m)
    Reachable-AllComplete reg (factory_registered k f reg' m) =
        register_engine_factory-AllComplete k f reg' (Reachable-AllComplete reg' m)
    Reachable-AllComplete reg (got k reg' m) =
        (get-AllComplete k reg' (Reachable-AllComplete reg' m)).0

    -- A default engine that a registry gives out, after any calls of its methods, never ends in
    -- EVENT_ROUTER_ERROR: every event that its table admits has a handler.
    pub get-routed :
        ⦃es : Eq S⦄ (k : K) (reg reg' : Registry K C F S E V W X G) (r : StateRouter S E V W X)
        → Reachable generics construct build reg
        → get construct build k reg ≡ (reg', done (machine r))
        → (s : Option S) (event : E) (params : Option (StateRouteParams V)) (w : W)
        → (fire r s event params w).1 ≢ raise event_router_error
    get-routed k reg reg' r m h =
        unfold IsCompleteReply in
        handled-routed r (
          complete-handled r (
            (get-AllComplete k reg (Reachable-AllComplete reg m)).1 (machine r)
              (ap (λ (x : Registry K C F S E V W X G × Reply E (Engine S E V W X G)). x.1) h)))
