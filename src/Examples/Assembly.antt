-- ===== src/Examples/Assembly.antt =====
-- The registries of an application and the state machine engine at concrete inputs.
use flower_web_infrastructur.Prelude.{
  ℕ, suc, ◌≡◌, ◌≢◌, ◌↔◌, refl, true, false, Option, none, some, List, [], ◌∷◌, ◌++◌, String, map,
  string_eq, nat_eq,
}
use flower_web_infrastructur.Prelude.Dict
use flower_web_infrastructur.Core.Closure.{Walk, has, topological_closure, dfs, each}
use flower_web_infrastructur.Core.Closure.Total.{topological_closure-total}
use flower_web_infrastructur.Core.Closure.Order.{IsOrdered}
use flower_web_infrastructur.Core.Capability
use flower_web_infrastructur.Core.Capability.Resolution
use flower_web_infrastructur.Core.Capability.Resolution.{resolve-IsOrdered, validate-resolve}
use flower_web_infrastructur.Core.Capability.Builtin.{
  register_builtin_capabilities, register_builtin-again,
}
use flower_web_infrastructur.Core.Extension
use flower_web_infrastructur.Core.Extension.Registrations
use flower_web_infrastructur.Core.Extension.Registrations.{register-keeps, validate-IsOrdered}
use flower_web_infrastructur.StateMachine
use flower_web_infrastructur.StateMachine.{
  StateRouter, StateRouteParams, returned, route, fire, fire_async,
}
use flower_web_infrastructur.StateMachine.Registry
use flower_web_infrastructur.StateMachine.Registry.Validated
use flower_web_infrastructur.StateMachine.Registry.Validated.{get-routed}

abbrev user : Capability.Capability
user = record { name = "user"; modules = []; requires = [] }

abbrev pay : Capability.Capability
pay = record { name = "pay"; modules = "web.pay" ∷ []; requires = "user" ∷ [] }

abbrev just_user : Capability.Registry
just_user = ("user", user) ∷ []

abbrev capabilities : Capability.Registry
capabilities = ("user", user) ∷ ("pay", pay) ∷ []

just_user-Registered : Resolution.Registered just_user
unfolding Capability.register
just_user-Registered = Resolution.after user [] just_user Resolution.fresh refl

capabilities-Registered : Resolution.Registered capabilities
unfolding Capability.register
capabilities-Registered = Resolution.after pay just_user capabilities just_user-Registered refl

abbrev resolved : Capability.CapabilityResolution
resolved = record { name = "pay"; chain = user ∷ pay ∷ []; modules = "web.pay" ∷ [] }

topological_closure-total_example :
    (w : Walk Capability.Capability) × (topological_closure Capability.requires_of capabilities
        ("pay" ∷ "ghost" ∷ [])
      ≡ some w)
topological_closure-total_example =
    topological_closure-total Capability.requires_of capabilities ("pay" ∷ "ghost" ∷ [])

pay_resolved : Capability.resolve "pay" capabilities ≡ some (Capability.ok resolved)
unfolding Capability.resolve topological_closure dfs each
pay_resolved = refl

resolve-IsOrdered_example :
    IsOrdered Capability.name_of Capability.requires_of capabilities [] (user ∷ pay ∷ [])
    × ((before : List Capability.Capability) × (c : Capability.Capability) × (user ∷ pay ∷ []
          ≡ before ++ c ∷ [])
        × (Dict.get "pay" capabilities ≡ some c))
resolve-IsOrdered_example =
    resolve-IsOrdered "pay" capabilities resolved capabilities-Registered pay_resolved

validate-resolve_example :
    (v : Capability.CapabilityValidation) × (Capability.validate ("pay" ∷ []) capabilities ≡ some v)
    × ((v.ok ≡ true) ↔ (
        (r : Capability.CapabilityResolution) × (Capability.resolve "pay" capabilities
          ≡ some (Capability.ok r))))
validate-resolve_example = validate-resolve "pay" capabilities

register_builtin-again_example :
    (reg : Capability.Registry) × (register_builtin_capabilities just_user ≡ Capability.ok reg)
    × (register_builtin_capabilities reg ≡ Capability.ok reg)
register_builtin-again_example = register_builtin-again just_user

abbrev tracer : Extension.ExtensionPoint String
tracer = record {
  name = "trace";
  description = "";
  requires = [];
  build = none;
  startup = some "start";
  shutdown = none;
}

abbrev audit : Extension.ExtensionPoint String
audit = record {
  name = "audit";
  description = "";
  requires = "trace" ∷ [];
  build = none;
  startup = none;
  shutdown = none;
}

abbrev just_tracer : Dict.Dict String (Extension.ExtensionPoint String)
just_tracer = ("trace", tracer) ∷ []

abbrev extensions : Dict.Dict String (Extension.ExtensionPoint String)
extensions = ("trace", tracer) ∷ ("audit", audit) ∷ []

audit_added : Extension.register audit false just_tracer ≡ Extension.ok extensions
unfolding Extension.register
audit_added = refl

just_tracer-Registered : Registrations.Registered just_tracer
unfolding Extension.register
just_tracer-Registered = Registrations.after tracer false [] just_tracer Registrations.fresh refl

abbrev valid : Extension.ExtensionValidation
valid = record {
  ok = true;
  unknown = [];
  circular = [];
  closure = "trace" ∷ "audit" ∷ [];
  chain = "trace" ∷ "audit" ∷ [];
}

audit_valid : Extension.validate ("audit" ∷ []) extensions ≡ some valid
unfolding Extension.validate topological_closure dfs each
audit_valid = refl

validate-IsOrdered_example :
    ((es : List (Extension.ExtensionPoint String)) × ("trace" ∷ "audit" ∷ []
        ≡ map Extension.name_of es)
      × IsOrdered Extension.name_of Extension.requires_of extensions [] es)
    × ((x : String) → has x ("audit" ∷ []) ≡ true → has x ("trace" ∷ "audit" ∷ []) ≡ true)
validate-IsOrdered_example =
    validate-IsOrdered ("audit" ∷ []) extensions valid
      (Registrations.after audit false just_tracer extensions just_tracer-Registered audit_added)
      audit_valid refl

abbrev OrderRouter : Type 0
OrderRouter = StateRouter String String String ℕ String

abbrev to_paid : String → StateRouteParams String → ℕ → ℕ × StateMachine.Called String ℕ String
to_paid s p w = (suc w, returned (some "paid"))

abbrev order_router : OrderRouter
order_router = record {
  state_event_target_config = ("new", ("pay", "paid") ∷ []) ∷ [];
  event_dispatcher = ("pay", to_paid) ∷ ("ship", to_paid) ∷ [];
}

-- Keys and classes are numbers, and class 7 is that of the router.
abbrev Machines : Type 0
Machines = Registry.Registry ℕ ℕ ℕ String String String ℕ String ℕ

abbrev generics : ℕ → Option ℕ
generics c = some 1

abbrev construct : ℕ → Option OrderRouter
construct c = some order_router

abbrev build : ℕ → Option ℕ
build f = none

abbrev no_machines : Machines
no_machines = record { engines = []; router_classes = []; engine_factories = [] }

abbrev one_class : Machines
one_class = record { engines = []; router_classes = (1, 7) ∷ []; engine_factories = [] }

abbrev one_engine : Machines
one_engine = record {
  engines = (1, Registry.machine order_router) ∷ [];
  router_classes = (1, 7) ∷ [];
  engine_factories = [];
}

first_get :
    Registry.get construct build 1 one_class
    ≡ (one_engine, Registry.done (Registry.machine order_router))
unfolding Registry.get
first_get = refl

one_class-Reachable : Validated.Reachable generics construct build one_class
unfolding Registry.register
one_class-Reachable = Validated.registered 7 no_machines Validated.fresh

get-routed_example :
    (fire order_router (some "new") "ship" (some []) 3).1
    ≢ StateMachine.raise StateMachine.event_router_error
get-routed_example =
    get-routed generics construct build 1 one_class one_engine order_router one_class-Reachable
      first_get (some "new") "ship" (some []) 3
