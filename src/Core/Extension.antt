-- ===== src/Core/Extension.antt =====
-- core/extension/extension_registry.py, extension.py, extension_resolution.py and
-- extension_validation.py. The hooks of an extension point (build, startup, shutdown) are values of a
-- parameter, and the lock and the text of the errors are left out.
pub mod Registrations
use flower_web_infrastructur.Prelude.{
  Bool, true, false, not, ◌&&◌, Option, none, some, List, [], ◌∷◌, String, map, if◌then◌else◌, Eq,
  ◌==◌, string_eq,
}
use flower_web_infrastructur.Prelude.Dict
use flower_web_infrastructur.Prelude.Dict.{Dict}
use flower_web_infrastructur.Core.Closure.{has, add, Walk, topological_closure}

-- `H` is what a hook is.
pub record ExtensionPoint (H : Type 0) : Type 0 where
  pub name : String
  pub description : String
  pub requires : List String
  pub build : Option H
  pub startup : Option H
  pub shutdown : Option H

-- What a call answers: a value, or the ExtensionError that it raises.
pub data Result (A : Type 0) : Type 0 where
  ok : A → Result A
  empty_name : Result A
  requires_itself : String → Result A
  already_registered : String → Result A
  unregistered : List String → Result A
  circular : List (List String) → Result A

pub record ExtensionResolution (H : Type 0) : Type 0 where
  pub name : String
  pub chain : List (ExtensionPoint H)

pub record ExtensionValidation : Type 0 where
  pub ok : Bool
  pub unknown : List String
  pub circular : List (List String)
  pub closure : List String
  pub chain : List String

abbrev pub is_empty : {A : Type 0} → List A → Bool
is_empty [] = true
is_empty (x ∷ xs) = false

-- `set(xs)`
abbrev pub distinct : List String → List String → List String
distinct [] seen = seen
distinct (x ∷ xs) seen = distinct xs (add x seen)

module _ {H : Type 0} where
  abbrev pub name_of : ExtensionPoint H → String
  name_of e = e.name

  abbrev pub requires_of : ExtensionPoint H → List String
  requires_of e = e.requires

  unfoldable pub register :
      ExtensionPoint H
      → Bool
      → Dict String (ExtensionPoint H)
      → Result (Dict String (ExtensionPoint H))
  register e overwrite reg =
      if e.name == ""
      then empty_name
      else if has e.name e.requires
      then requires_itself e.name
      else if Dict.contains e.name reg && not overwrite
      then already_registered e.name
      else ok (Dict.put e.name e reg)

  abbrev pub get : String → Dict String (ExtensionPoint H) → Option (ExtensionPoint H)
  get name reg = Dict.get name reg

  abbrev pub names : Dict String (ExtensionPoint H) → List String
  names reg = map (λ (p : String × ExtensionPoint H). p.0) reg

  abbrev pub unregister : String → Dict String (ExtensionPoint H) → Dict String (ExtensionPoint H)
  unregister name reg = Dict.pop name reg

  abbrev pub resolution : String → Walk (ExtensionPoint H) → Result (ExtensionResolution H)
  resolution name w =
      if not (is_empty w.unknown)
      then unregistered w.unknown
      else if not (is_empty w.circular)
      then circular w.circular
      else ok (record { name = name; chain = w.chain })

  unfoldable pub resolve :
      String → Dict String (ExtensionPoint H) → Option (Result (ExtensionResolution H))
  unfolding topological_closure
  resolve name reg = elim (topological_closure requires_of reg (name ∷ [])) [
    | none ↦ none
    | some w ↦ some (resolution name w)
  ]

  abbrev pub validation : Walk (ExtensionPoint H) → ExtensionValidation
  validation w = record {
    ok = is_empty w.unknown && is_empty w.circular;
    unknown = w.unknown;
    circular = w.circular;
    closure = distinct (map name_of w.chain) [];
    chain = map name_of w.chain;
  }

  unfoldable pub validate :
      List String → Dict String (ExtensionPoint H) → Option ExtensionValidation
  unfolding topological_closure
  validate enabled reg = elim (topological_closure requires_of reg (distinct enabled [])) [
    | none ↦ none
    | some w ↦ some (validation w)
  ]
