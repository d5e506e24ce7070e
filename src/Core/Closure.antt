-- ===== src/Core/Closure.antt =====
-- `_topological_closure`, which core/capability/capability_registry.py and
-- core/extension/extension_registry.py write alike: a depth-first walk over the requirements of the
-- entries of a table. The walk recurs on fuel; `none` means that the fuel ran out. A set is a list, and
-- the order in which a set is gone through is that of the list.
pub mod Total
pub mod Clean
pub mod Order
use flower_web_infrastructur.Prelude.{
  ℕ, zero, suc, Bool, true, false, not, ◌&&◌, Option, none, some, List, [], ◌∷◌, ◌++◌, String,
  length, if◌then◌else◌, Eq, ◌==◌, string_eq,
}
use flower_web_infrastructur.Prelude.Dict
use flower_web_infrastructur.Prelude.Dict.{Dict}

-- `x in xs`
abbrev pub has : String → List String → Bool
has x [] = false
has x (y ∷ ys) = if y == x then true else has x ys

abbrev pub add : String → List String → List String
add x xs = if has x xs then xs else xs ++ x ∷ []

abbrev pub list_beq : List String → List String → Bool
list_beq [] [] = true
list_beq [] (y ∷ ys) = false
list_beq (x ∷ xs) [] = false
list_beq (x ∷ xs) (y ∷ ys) = x == y && list_beq xs ys

abbrev pub has_list : List String → List (List String) → Bool
has_list c [] = false
has_list c (d ∷ ds) = if list_beq d c then true else has_list c ds

-- `visiting[visiting.index(name):]`
abbrev pub from_first : String → List String → List String
from_first x [] = []
from_first x (y ∷ ys) = if y == x then y ∷ ys else from_first x ys

-- What the walk has gathered: the chain, the names of what is done, the cycles met and the names that
-- the table does not have.
pub record Walk (E : Type 0) : Type 0 where
  pub chain : List E
  pub seen : List String
  pub circular : List (List String)
  pub unknown : List String

abbrev pub start : {E : Type 0} → Walk E
start = record { chain = []; seen = []; circular = []; unknown = [] }

module _ {E : Type 0} where
  abbrev pub meet_unknown : String → Walk E → Walk E
  meet_unknown name w = record w { unknown = add name w.unknown }

  abbrev pub meet_cycle : List String → String → Walk E → Walk E
  meet_cycle visiting name w =
      let cycle = from_first name visiting ++ name ∷ [] in
      if has_list cycle w.circular then w else record w { circular = w.circular ++ cycle ∷ [] }

  abbrev pub finish : String → E → Walk E → Walk E
  finish name e w = record w { seen = name ∷ w.seen; chain = w.chain ++ e ∷ [] }

  -- The walk over each of some names.
  unfoldable pub each : (String → Walk E → Option (Walk E)) → List String → Walk E → Option (Walk E)
  each step [] w = some w
  each step (n ∷ ns) w = elim (step n w) [ none ↦ none | some w' ↦ each step ns w' ]

  abbrev pub finish_after : String → E → Option (Walk E) → Option (Walk E)
  finish_after name e none = none
  finish_after name e (some w) = some (finish name e w)

module _ {E : Type 0} (requires : E → List String) (table : Dict String E) where
  unfoldable pub dfs : ℕ → List String → String → Walk E → Option (Walk E)
  unfolding each
  dfs zero visiting name w = none
  dfs (suc fuel) visiting name w = elim (has name w.seen) [
    | true ↦ some w
    | false ↦ elim (Dict.get name table) [
      | none ↦ some (meet_unknown name w)
      | some e ↦ elim (has name visiting) [
        | true ↦ some (meet_cycle visiting name w)
        | false ↦ finish_after name e (each (dfs fuel (visiting ++ name ∷ [])) (requires e) w)
      ]
    ]
  ]

  -- The walk enters each entry of the table at most once on a path.
  unfoldable pub topological_closure : List String → Option (Walk E)
  unfolding dfs each
  topological_closure names = each (dfs (suc (length table)) []) names start
