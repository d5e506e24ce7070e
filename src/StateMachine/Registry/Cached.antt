-- ===== src/StateMachine/Registry/Cached.antt =====
-- An engine that state_machine_registry.py has given out is kept.
use flower_web_infrastructur.Prelude.{
  ◌≡◌, refl, sym, ◌∙◌, ap, Bool, true, false, ◌||◌, Option, some, if◌then◌else◌, Eq, Option-cases,
  inl, inr,
}
use flower_web_infrastructur.Prelude.Dict
use flower_web_infrastructur.Prelude.Dict.{Dict}
use flower_web_infrastructur.StateMachine.{StateRouter}
use flower_web_infrastructur.StateMachine.Registry.{
  Engine, Registry, Reply, no_generics, already_registered, not_registered, construction_failed,
  misconfigured, done, put_engine, build_engine, construct_engine, register,
  register_engine_factory, get,
}

module _ {K C F S E V W X G : Type 0} ⦃ek : Eq K⦄ ⦃ee : Eq E⦄ where
  put_engine-kept :
      (k : K) (reg reg' : Registry K C F S E V W X G) (r : Reply E (Engine S E V W X G))
      (engine : Engine S E V W X G)
      → put_engine k reg r ≡ (reg', done engine)
      → Dict.get k reg'.engines ≡ some engine
  put_engine-kept k reg reg' (done e) engine h =
      let q : e ≡ engine = cc in
      ap (λ (x : Registry K C F S E V W X G × Reply E (Engine S E V W X G)). Dict.get k x.0.engines)
        (sym h)
      ∙ Dict.get-put_self k e reg.engines
      ∙ ap some q
  put_engine-kept k reg reg' no_generics engine h = absurd (cc)
  put_engine-kept k reg reg' already_registered engine h = absurd (cc)
  put_engine-kept k reg reg' not_registered engine h = absurd (cc)
  put_engine-kept k reg reg' construction_failed engine h = absurd (cc)
  put_engine-kept k reg reg' (misconfigured es) engine h = absurd (cc)

  module _ (construct : C → Option (StateRouter S E V W X)) (build : F → Option G) where
    get-kept :
        (k : K) (reg reg' : Registry K C F S E V W X G) (engine : Engine S E V W X G)
        → get construct build k reg ≡ (reg', done engine)
        → Dict.get k reg'.engines ≡ some engine
    unfolding get
    get-kept k reg reg' engine h = elim (Option-cases (Dict.get k reg.engines)) [
      | inr (e, found) ↦ same e found (sym (rw (found, get) refl) ∙ h)
      | inl absent ↦ elim (Option-cases (Dict.get k reg.engine_factories)) [
        | inr (f, found) ↦
            put_engine-kept k reg reg' (build_engine build f) engine
              (sym (rw (absent, get) (rw (found, get) refl)) ∙ h)
        | inl no_factory ↦ elim (Option-cases (Dict.get k reg.router_classes)) [
          | inr (c, found) ↦
              put_engine-kept k reg reg' (construct_engine construct c) engine
                (sym (rw (absent, get) (rw (no_factory, get) (rw (found, get) refl))) ∙ h)
          | inl no_class ↦ absurd (
              refused (sym (rw (absent, get) (rw (no_factory, get) (rw (no_class, get) refl))) ∙ h))
        ]
      ]
    ]
      where
        same :
            (e : Engine S E V W X G)
            → Dict.get k reg.engines ≡ some e
            → ◌≡◌ {A = Registry K C F S E V W X G × Reply E (Engine S E V W X G)}
                (reg, done e)
                (reg', done engine)
            → Dict.get k reg'.engines ≡ some engine
        same e found q =
            let q' : e ≡ engine = cc in
            ap
              (λ (x : Registry K C F S E V W X G × Reply E (Engine S E V W X G)).
                Dict.get k x.0.engines)
              (sym q)
            ∙ found
            ∙ ap some q'

        refused :
            ◌≡◌ {A = Registry K C F S E V W X G × Reply E (Engine S E V W X G)}
              (reg, not_registered)
              (reg', done engine)
            → ⊥
        refused q = cc

    -- The engine that is given out for a key is given out again, unchanged and with no change to the registry,
    -- and no class or factory can be registered for the key any more.
    pub get-again :
        (generics : C → Option K) (k : K) (reg reg' : Registry K C F S E V W X G)
        (engine : Engine S E V W X G)
        → get construct build k reg ≡ (reg', done engine)
        → (get construct build k reg' ≡ (reg', done engine))
          × ((f : F) → register_engine_factory k f reg' ≡ (reg', already_registered))
          × ((c : C) → generics c ≡ some k → register generics c reg' ≡ (reg', already_registered))
    unfolding get register_engine_factory register
    get-again generics k reg reg' engine h =
        let kept = get-kept k reg reg' engine h in
        let taken = Dict.contains-get-some k engine reg'.engines kept in
        (
          rw (kept, get) refl,
          λ f. rw taken refl,
          λ c g. rw (g, register) (rw taken (either (Dict.contains k reg'.router_classes) _ _)),
        )
      where
        either : {A : Type 0} (b : Bool) (x y : A) → (if b || true then x else y) ≡ x
        either true x y = refl
        either false x y = refl
