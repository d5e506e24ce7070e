-- ===== src/LoadBalance/Weighted/Balance.antt =====
-- What weighted_round_robin_balancer.py chooses, and what its current weights sum to.
use flower_web_infrastructur.Prelude.{
  ◌≡◌, ◌≢◌, refl, sym, ◌∙◌, true, some, List, [], ◌∷◌, string_eq, any, keep, All, Bool-cases, inl,
  inr, arith,
}
use flower_web_infrastructur.Prelude.Int.{◌-ℤ◌, -ℤ_parts}
use flower_web_infrastructur.Prelude.Dict
use flower_web_infrastructur.Prelude.Dict.{Dict}
use flower_web_infrastructur.LoadBalance.Weighted.{
  ServiceInstance, Balancer, is_active, reset_if_changed, total, best_of, chosen, select, choose,
}
use flower_web_infrastructur.LoadBalance.Weighted.Sums.{
  IsValid, put-ups, put-downs, put-keeps, contains-found, add_weights-total, reset-IsValid,
}
use flower_web_infrastructur.LoadBalance.Weighted.Greatest.{
  best_of-All, keep-All, All-grow, HaveWeights-grow, Among, best_of-Among, keep-Among,
  best_of-IsGreatest, put-weight_of, Chosen,
}

select-IsValid :
    (b : Balancer) (i : ServiceInstance) (is : List ServiceInstance)
    → IsValid b
    → All (λ (j : ServiceInstance). is_active j ≡ true) (i ∷ is)
    → (b' : Balancer) × (best : ServiceInstance) × (select b (i ∷ is) ≡ some (b', best))
      × IsValid b'
      × Chosen (i ∷ is) b b' best
select-IsValid b i is v (on, active) =
    let (v0, have) = reset-IsValid (i ∷ is) b v in
    let b0 = reset_if_changed (i ∷ is) b in
    let (d, added, grows, sum) =
      add_weights-total (i ∷ is) b0.current_weight 0 0 have (omega (arith, v0.balanced)) in
    let best = best_of d i is in
    let there = HaveWeights-grow b0.current_weight d (i ∷ is) grows have in
    let (w, found) = contains-found best.host d (
      best_of-All (λ (j : ServiceInstance). Dict.contains j.host d ≡ true) d i is there.0
        there.1) in
    let sums = total (i ∷ is) in
    let d' = Dict.put best.host (w -ℤ sums) d in
    let valid : IsValid (record { current_weight = d'; signature = b0.signature }) = record {
      balanced = omega (
        arith,
        sum,
        -ℤ_parts w sums,
        put-ups best.host (w -ℤ sums) w d found,
        put-downs best.host (w -ℤ sums) w d found,
      );
      weighted =
          All-grow b0.current_weight d' b0.signature
            (λ k c. put-keeps best.host k (w -ℤ sums) d (grows k c)) v0.weighted;
    } in
    (
      record { current_weight = d'; signature = b0.signature },
      best,
      rw (added, select) (rw (found, chosen) refl),
      valid,
      (
        d,
        added,
        best_of-IsGreatest d i is,
        best_of-Among d i is (i ∷ is) (inl refl) (λ k a. inr a),
        best_of-All (λ (j : ServiceInstance). is_active j ≡ true) d i is on active,
        put-weight_of best w sums d found,
      ),
    )

kept : (is : List ServiceInstance) → any is_active is ≡ true → keep is_active is ≢ []
kept [] h e = cc
kept (i ∷ is) h e = elim (Bool-cases (is_active i)) [
  | inl on ↦ nonempty (sym (rw on refl) ∙ e)
  | inr off ↦ kept is (sym (rw off refl) ∙ h) (sym (rw off refl) ∙ e)
]
  where
    nonempty : ◌≢◌ {A = List ServiceInstance} (i ∷ keep is_active is) []
    nonempty q = cc

-- From a state in which the current weights sum to zero, as they do at the start, a call with an
-- instance of positive weight chooses one of the instances of positive weight: each weight is added to
-- the current weight of its instance, one whose current weight is then greatest is chosen, and the sum
-- of the weights is taken from it, so that the current weights sum to zero again.
pub choose-IsValid :
    (instances : List ServiceInstance) (b : Balancer)
    → IsValid b
    → any is_active instances ≡ true
    → (b' : Balancer) × (best : ServiceInstance) × (choose instances b ≡ some (b', best))
      × IsValid b'
      × Among best instances
      × Chosen (keep is_active instances) b b' best
unfolding choose
choose-IsValid instances b v some_active =
    let (b', best, e, v', c) =
      go (keep is_active instances) (keep-All instances) (kept instances some_active) in
    (b', best, e, v', keep-Among best instances c.3, c)
  where
    go :
        (is : List ServiceInstance)
        → All (λ (j : ServiceInstance). is_active j ≡ true) is
        → is ≢ []
        → (b' : Balancer) × (best : ServiceInstance) × (select b is ≡ some (b', best))
          × IsValid b'
          × Chosen is b b' best
    go [] a ne = absurd (ne refl)
    go (i ∷ is) a ne = select-IsValid b i is v a
