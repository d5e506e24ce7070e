-- ===== src/Core/Capability.antt =====
-- core/capability/capability_registry.py, capability.py, capability_resolution.py and
-- capability_validation.py. The import of a module is a parameter; the texts of a capability that are there
-- for people, the text of the errors and the lock are left out.
pub mod Resolution
pub mod Builtin
use flower_web_infrastructur.Prelude.{
  ℕ, Bool, true, false, not, ◌&&◌, Option, none, some, List, [], ◌∷◌, ◌++◌, String, map,
  if◌then◌else◌, Eq, ◌==◌, string_eq,
}
use flower_web_infrastructur.Prelude.Dict
use flower_web_infrastructur.Prelude.Dict.{Dict}
use flower_web_infrastructur.Core.Closure.{has, add, Walk, topological_closure}

pub record Capability : Type 0 where
  pub name : String
  pub modules : List String
  pub requires : List String

abbrev pub Registry : Type 0
Registry = Dict String Capability

-- What a call answers: a value, or the CapabilityError that it raises.
pub data Result (A : Type 0) : Type 0 where
  ok : A → Result A
  empty_name : Result A
  requires_itself : String → Result A
  unregistered : List String → Result A
  circular : List (List String) → Result A

pub record CapabilityResolution : Type 0 where
  pub name : String
  pub chain : List Capability
  pub modules : List String

pub record CapabilityValidation : Type 0 where
  pub ok : Bool
  pub unknown : List String
  pub circular : List (List String)
  pub closure : List String
  pub chain : List String

abbrev pub name_of : Capability → String
name_of c = c.name

abbrev pub requires_of : Capability → List String
requires_of c = c.requires

abbrev pub is_empty : {A : Type 0} → List A → Bool
is_empty [] = true
is_empty (x ∷ xs) = false

unfoldable pub register : Capability → Registry → Result Registry
register c reg =
    if c.name == ""
    then empty_name
    else if has c.name c.requires
    then requires_itself c.name
    else ok (Dict.put c.name c reg)

abbrev pub get : String → Registry → Option Capability
get name reg = Dict.get name reg

abbrev pub names : Registry → List String
names reg = map (λ (p : String × Capability). p.0) reg

-- The modules of a chain, each where it comes first.
abbrev pub add_modules : List String → List String → List String
add_modules [] found = found
add_modules (m ∷ ms) found = add_modules ms (add m found)

abbrev pub modules_of : List Capability → List String → List String
modules_of [] found = found
modules_of (c ∷ cs) found = modules_of cs (add_modules c.modules found)

abbrev pub resolution : String → Walk Capability → Result CapabilityResolution
resolution name w =
    if not (is_empty w.unknown)
    then unregistered w.unknown
    else if not (is_empty w.circular)
    then circular w.circular
    else ok (record { name = name; chain = w.chain; modules = modules_of w.chain [] })

unfoldable pub resolve : String → Registry → Option (Result CapabilityResolution)
unfolding topological_closure
resolve name reg = elim (topological_closure requires_of reg (name ∷ [])) [
  | none ↦ none
  | some w ↦ some (resolution name w)
]

-- `set(xs)`
abbrev pub distinct : List String → List String → List String
distinct [] seen = seen
distinct (x ∷ xs) seen = distinct xs (add x seen)

abbrev pub validation : Walk Capability → CapabilityValidation
validation w = record {
  ok = is_empty w.unknown && is_empty w.circular;
  unknown = w.unknown;
  circular = w.circular;
  closure = distinct (map name_of w.chain) [];
  chain = map name_of w.chain;
}

unfoldable pub validate : List String → Registry → Option CapabilityValidation
unfolding topological_closure
validate enabled reg = elim (topological_closure requires_of reg (distinct enabled [])) [
  | none ↦ none
  | some w ↦ some (validation w)
]

-- `importlib.import_module` for each module, on a state of the interpreter.
module _ {M : Type 0} (import_module : String → M → M) where
  abbrev pub import_all : List String → M → M
  import_all [] m = m
  import_all (x ∷ xs) m = import_all xs (import_module x m)

  unfoldable pub enable : String → Registry → M → M × Option (Result CapabilityResolution)
  unfolding resolve topological_closure
  enable name reg m = elim (resolve name reg) [
    | some (ok r) ↦ (import_all r.modules m, some (ok r))
    | other ↦ (m, other)
  ]
