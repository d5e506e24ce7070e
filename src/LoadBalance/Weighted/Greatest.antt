-- ===== src/LoadBalance/Weighted/Greatest.antt =====
-- Which instance weighted_round_robin_balancer.py chooses among those that are active.
use flower_web_infrastructur.Prelude.{
  ◌≡◌, refl, sym, subst, true, false, some, List, [], ◌∷◌, String, string_eq, keep, All, Bool-cases,
  ◌⊎◌, inl, inr, arith,
}
use flower_web_infrastructur.Prelude.Int.{ℤ, ◌-ℤ◌, ltb_ℤ}
use flower_web_infrastructur.Prelude.Dict
use flower_web_infrastructur.Prelude.Dict.{Dict}
use flower_web_infrastructur.LoadBalance.Weighted.{
  ServiceInstance, Signature, Balancer, is_active, reset_if_changed, total, add_weights, weight_of,
  best_of,
}
use flower_web_infrastructur.LoadBalance.Weighted.Sums.{HaveWeights}

pub best_of-All :
    (P : ServiceInstance → Type 0) (d : Dict String ℤ) (best : ServiceInstance)
    (is : List ServiceInstance)
    → P best
    → All P is
    → P (best_of d best is)
best_of-All P d best [] p h = p
best_of-All P d best (i ∷ is) p (q, h) =
    elim (Bool-cases (ltb_ℤ (weight_of d best) (weight_of d i))) [
      | inl more ↦ rw more (best_of-All P d i is q h)
      | inr not_more ↦ rw not_more (best_of-All P d best is p h)
    ]

pub keep-All :
    (is : List ServiceInstance)
    → All (λ (i : ServiceInstance). is_active i ≡ true) (keep is_active is)
keep-All [] = tt
keep-All (i ∷ is) = elim (Bool-cases (is_active i)) [
  | inl on ↦ rw on (on, keep-All is)
  | inr off ↦ rw off (keep-All is)
]

pub All-grow :
    (d d' : Dict String ℤ) (s : Signature)
    → ((k : String) → Dict.contains k d ≡ true → Dict.contains k d' ≡ true)
    → All (λ (p : String × ℤ). Dict.contains p.0 d ≡ true) s
    → All (λ (p : String × ℤ). Dict.contains p.0 d' ≡ true) s
All-grow d d' [] g h = tt
All-grow d d' ((j, x) ∷ s) g (a, h) = (g j a, All-grow d d' s g h)

pub HaveWeights-grow :
    (d d' : Dict String ℤ) (is : List ServiceInstance)
    → ((k : String) → Dict.contains k d ≡ true → Dict.contains k d' ≡ true)
    → HaveWeights is d
    → HaveWeights is d'
HaveWeights-grow d d' [] g h = tt
HaveWeights-grow d d' (i ∷ is) g (a, h) = (g i.host a, HaveWeights-grow d d' is g h)

-- An instance is one of a list.
abbrev pub Among : ServiceInstance → List ServiceInstance → Type 0
Among best [] = ⊥
Among best (i ∷ is) = (i ≡ best) ⊎ Among best is

pub best_of-Among :
    (d : Dict String ℤ) (best : ServiceInstance) (is js : List ServiceInstance)
    → Among best js
    → ((k : ServiceInstance) → Among k is → Among k js)
    → Among (best_of d best is) js
best_of-Among d best [] js here sub = here
best_of-Among d best (i ∷ is) js here sub =
    elim (Bool-cases (ltb_ℤ (weight_of d best) (weight_of d i))) [
      | inl more ↦ rw more (best_of-Among d i is js (sub i (inl refl)) (λ k a. sub k (inr a)))
      | inr not_more ↦ rw not_more (best_of-Among d best is js here (λ k a. sub k (inr a)))
    ]

pub keep-Among :
    (k : ServiceInstance) (is : List ServiceInstance) → Among k (keep is_active is) → Among k is
keep-Among k [] a = a
keep-Among k (i ∷ is) a = elim (Bool-cases (is_active i)) [
  | inl on ↦
      let e : keep is_active (i ∷ is) ≡ i ∷ keep is_active is = rw on refl in
      elim (subst (λ (xs : List ServiceInstance). Among k xs) e a) [
        | inl this ↦ inl this
        | inr later ↦ inr (keep-Among k is later)
      ]
  | inr off ↦
      let e : keep is_active (i ∷ is) ≡ keep is_active is = rw off refl in
      inr (keep-Among k is (subst (λ (xs : List ServiceInstance). Among k xs) e a))
]

-- None of a list has a greater current weight.
abbrev IsGreatest : Dict String ℤ → ServiceInstance → List ServiceInstance → Type 0
IsGreatest d best is =
    All (λ (i : ServiceInstance). ltb_ℤ (weight_of d best) (weight_of d i) ≡ false) is

pub best_of-IsGreatest :
    (d : Dict String ℤ) (best : ServiceInstance) (is : List ServiceInstance)
    → IsGreatest d (best_of d best is) (best ∷ is)
best_of-IsGreatest d best [] = (ground arith, tt)
best_of-IsGreatest d best (i ∷ is) = elim (Bool-cases (ltb_ℤ (weight_of d best) (weight_of d i))) [
  | inl more ↦
      let e : best_of d best (i ∷ is) ≡ best_of d i is = rw more refl in
      let (a, h) = best_of-IsGreatest d i is in
      subst (λ (k : ServiceInstance). IsGreatest d k (best ∷ i ∷ is)) (sym e)
        (ground (arith, a, more), (a, h))
  | inr not_more ↦
      let e : best_of d best (i ∷ is) ≡ best_of d best is = rw not_more refl in
      let (a, h) = best_of-IsGreatest d best is in
      subst (λ (k : ServiceInstance). IsGreatest d k (best ∷ i ∷ is)) (sym e)
        (a, (ground (arith, a, not_more), h))
]

pub put-weight_of :
    (i : ServiceInstance) (w sum : ℤ) (d : Dict String ℤ)
    → Dict.get i.host d ≡ some w
    → Dict.put i.host (w -ℤ sum) d ≡ Dict.put i.host (weight_of d i -ℤ sum) d
put-weight_of i w sum d found = rw (found, weight_of) refl

-- What a call with the active instances `is` does to a balancer, and what it chooses: each weight is
-- added to the current weight of its instance, one of greatest current weight is chosen, and the sum of
-- the weights is taken from it.
abbrev pub Chosen : List ServiceInstance → Balancer → Balancer → ServiceInstance → Type 0
Chosen is b b' best =
    (d : Dict String ℤ) × (add_weights is (reset_if_changed is b).current_weight ≡ some d)
    × IsGreatest d best is
    × Among best is
    × (is_active best ≡ true)
    × (b'.current_weight ≡ Dict.put best.host (weight_of d best -ℤ total is) d)
