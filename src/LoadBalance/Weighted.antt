-- ===== src/LoadBalance/Weighted.antt =====
-- capabilities/loadbalance/weighted_round_robin_balancer.py. Weights are whole numbers, where the source has
-- floats; an instance is known by its host. A `none` is the ValueError or KeyError that the source raises.
pub mod Sums
pub mod Greatest
pub mod Balance
use flower_web_infrastructur.Prelude.{
  ℕ, Bool, true, false, not, ◌&&◌, Option, none, some, List, [], ◌∷◌, String, if◌then◌else◌, ◌==◌,
  string_eq, any, keep, map,
}
use flower_web_infrastructur.Prelude.Int.{ℤ, pos, negsuc, ◌+ℤ◌, ◌-ℤ◌, ltb_ℤ, pos_part, neg_part}
use flower_web_infrastructur.Prelude.Dict
use flower_web_infrastructur.Prelude.Dict.{Dict}

pub record ServiceInstance : Type 0 where
  pub host : String
  pub weight : ℤ

abbrev pub Signature : Type 0
Signature = List (String × ℤ)

pub record Balancer : Type 0 where
  pub current_weight : Dict String ℤ
  pub signature : Signature

abbrev pub is_active : ServiceInstance → Bool
is_active i = ltb_ℤ (pos 0) i.weight

abbrev pub signature_of : List ServiceInstance → Signature
signature_of xs = map (λ (i : ServiceInstance). (i.host, i.weight)) xs

abbrev pub same_weight : ℤ → ℤ → Bool
same_weight a b = not (ltb_ℤ a b) && not (ltb_ℤ b a)

abbrev pub has_pair : String × ℤ → Signature → Bool
has_pair (h, w) s = any (λ (p : String × ℤ). p.0 == h && same_weight p.1 w) s

abbrev pub all_in : Signature → Signature → Bool
all_in [] s = true
all_in (p ∷ ps) s = if has_pair p s then all_in ps s else false

-- Two frozensets are equal.
abbrev pub same_signature : Signature → Signature → Bool
same_signature a b = all_in a b && all_in b a

abbrev pub zeros : List ServiceInstance → Dict String ℤ → Dict String ℤ
zeros [] d = d
zeros (i ∷ is) d = zeros is (Dict.put i.host (pos 0) d)

abbrev pub reset_if_changed : List ServiceInstance → Balancer → Balancer
reset_if_changed actives b =
    if same_signature (signature_of actives) b.signature
    then b
    else record { current_weight = zeros actives []; signature = signature_of actives }

abbrev pub total : List ServiceInstance → ℤ
total [] = pos 0
total (i ∷ is) = i.weight +ℤ total is

-- `self._current_weight[key] += weight` for each instance.
unfoldable pub add_weights : List ServiceInstance → Dict String ℤ → Option (Dict String ℤ)
add_weights [] d = some d
add_weights (i ∷ is) d = elim (Dict.get i.host d) [
  | none ↦ none
  | some w ↦ add_weights is (Dict.put i.host (w +ℤ i.weight) d)
]

abbrev pub weight_of : Dict String ℤ → ServiceInstance → ℤ
weight_of d i = elim (Dict.get i.host d) [ none ↦ pos 0 | some w ↦ w ]

-- `max`: the first of the instances of the greatest weight.
abbrev pub best_of : Dict String ℤ → ServiceInstance → List ServiceInstance → ServiceInstance
best_of d best [] = best
best_of d best (i ∷ is) =
    best_of d (if ltb_ℤ (weight_of d best) (weight_of d i) then i else best) is

abbrev pub chosen :
    Balancer → ℤ → ServiceInstance → Dict String ℤ → Option (Balancer × ServiceInstance)
chosen b sum best d = elim (Dict.get best.host d) [
  | none ↦ none
  | some w ↦ some (record b { current_weight = Dict.put best.host (w -ℤ sum) d }, best)
]

abbrev pub select : Balancer → List ServiceInstance → Option (Balancer × ServiceInstance)
select b [] = none
select b (i ∷ is) =
    let b' = reset_if_changed (i ∷ is) b in
    elim (add_weights (i ∷ is) b'.current_weight) [
      | none ↦ none
      | some d ↦ chosen b' (total (i ∷ is)) (best_of d i is) d
    ]

unfoldable pub choose : List ServiceInstance → Balancer → Option (Balancer × ServiceInstance)
unfolding add_weights
choose instances b = select b (keep is_active instances)
