-- ===== src/StateMachine/Registry.antt =====
-- capabilities/state_machine/state_machine_registry.py. A class is a value of `C`: its generic parameters, which
-- `_resolve_generics` reads, and its constructor are parameters, and so are factories of other engines. The
-- class-level lock makes each method one step.
pub mod Handled
pub mod Validated
pub mod Cached
use flower_web_infrastructur.Prelude.{
  Bool, true, false, ◌||◌, Option, none, some, List, [], ◌∷◌, ◌++◌, if◌then◌else◌, Eq, keep, not,
}
use flower_web_infrastructur.Prelude.Dict
use flower_web_infrastructur.Prelude.Dict.{Dict}
use flower_web_infrastructur.StateMachine.{StateRouter}

-- StateMachine(router), or an engine of another library.
pub data Engine (S E V W X G : Type 0) : Type 0 where
  machine : StateRouter S E V W X → Engine S E V W X G
  custom : G → Engine S E V W X G

pub record Registry (K C F S E V W X G : Type 0) : Type 0 where
  pub engines : Dict K (Engine S E V W X G)
  pub router_classes : Dict K C
  pub engine_factories : Dict K F

-- How a call ends: TypeError, the ValueErrors, KeyError, what a constructor or factory raises, or a value.
pub data Reply (E T : Type 0) : Type 0 where
  no_generics already_registered not_registered construction_failed : Reply E T
  misconfigured : List E → Reply E T
  done : T → Reply E T

module _ {S E : Type 0} where
  abbrev pub keys : Dict E S → List E
  keys [] = []
  keys ((e, s) ∷ d) = e ∷ keys d

  abbrev pub declared_events : Dict S (Dict E S) → List E
  declared_events [] = []
  declared_events ((s, event2target) ∷ config) = keys event2target ++ declared_events config

module _ {S E V W X : Type 0} ⦃ee : Eq E⦄ where
  -- The events that the table declares and that have no handler.
  abbrev pub missing_events : StateRouter S E V W X → List E
  missing_events r =
      keep (λ e. not (Dict.contains e r.event_dispatcher))
        (declared_events r.state_event_target_config)

module _ {S E V W X G : Type 0} ⦃ee : Eq E⦄ where
  abbrev pub validate_router : StateRouter S E V W X → Reply E (Engine S E V W X G)
  validate_router r = elim (missing_events r) [
    | [] ↦ done (machine r)
    | e ∷ es ↦ misconfigured (e ∷ es)
  ]

module _ {F S E V W X G : Type 0} where
  abbrev pub build_engine : (F → Option G) → F → Reply E (Engine S E V W X G)
  build_engine build f = elim (build f) [ none ↦ construction_failed | some g ↦ done (custom g) ]

module _ {C S E V W X G : Type 0} ⦃ee : Eq E⦄ where
  abbrev pub construct_engine :
      (C → Option (StateRouter S E V W X)) → C → Reply E (Engine S E V W X G)
  construct_engine construct c = elim (construct c) [
    | none ↦ construction_failed
    | some r ↦ validate_router r
  ]

module _ {K C F S E V W X G : Type 0} ⦃ek : Eq K⦄ ⦃ee : Eq E⦄ where
  abbrev pub put_engine :
      K
      → Registry K C F S E V W X G
      → Reply E (Engine S E V W X G)
      → Registry K C F S E V W X G × Reply E (Engine S E V W X G)
  put_engine k reg (done engine) =
      (record reg { engines = Dict.put k engine reg.engines }, done engine)
  put_engine k reg other = (reg, other)

  unfoldable pub register_engine_factory :
      K → F → Registry K C F S E V W X G → Registry K C F S E V W X G × Reply E (Unit {0})
  register_engine_factory k factory reg =
      if Dict.contains k reg.engines
      then (reg, already_registered)
      else (record reg { engine_factories = Dict.put k factory reg.engine_factories }, done tt)

  module _ (generics : C → Option K) where
    unfoldable pub register :
        C → Registry K C F S E V W X G → Registry K C F S E V W X G × Reply E (Unit {0})
    register c reg = elim (generics c) [
      | none ↦ (reg, no_generics)
      | some k ↦
          if Dict.contains k reg.router_classes || Dict.contains k reg.engines
          then (reg, already_registered)
          else (record reg { router_classes = Dict.put k c reg.router_classes }, done tt)
    ]

    -- `c` is the class of the router.
    unfoldable pub register_instance :
        C
        → StateRouter S E V W X
        → Registry K C F S E V W X G
        → Registry K C F S E V W X G × Reply E (Engine S E V W X G)
    register_instance c r reg = elim (generics c) [
      | none ↦ (reg, no_generics)
      | some k ↦
          if Dict.contains k reg.engines || Dict.contains k reg.router_classes
          then (reg, already_registered)
          else put_engine k reg (validate_router r)
    ]

  module _ (construct : C → Option (StateRouter S E V W X)) (build : F → Option G) where
    unfoldable pub get :
        K → Registry K C F S E V W X G → Registry K C F S E V W X G × Reply E (Engine S E V W X G)
    get k reg = elim (Dict.get k reg.engines) [
      | some engine ↦ (reg, done engine)
      | none ↦ elim (Dict.get k reg.engine_factories) [
        | some factory ↦ put_engine k reg (build_engine build factory)
        | none ↦ elim (Dict.get k reg.router_classes) [
          | none ↦ (reg, not_registered)
          | some c ↦ put_engine k reg (construct_engine construct c)
        ]
      ]
    ]
