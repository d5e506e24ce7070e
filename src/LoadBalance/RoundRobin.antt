-- ===== src/LoadBalance/RoundRobin.antt =====
-- capabilities/loadbalance/round_robin_balancer.py. The instances are any list; `none` is the
-- ValueError of an empty one. The counter of `itertools.count` is passed on.
use flower_web_infrastructur.Prelude.{
  ℕ, zero, suc, ◌+◌, ◌*◌, ◌%◌, ◌<◌, ◌≡◌, refl, ◌∙◌, ap, Option, none, some, List, [], ◌∷◌, length,
  get_elem?, arith,
}
use native.Mathlib.Nat.{mul-add-mod_self_right, mod-eq_of_lt}

unfoldable pub choose {ℓ} : {A : Type ℓ} → List A → ℕ → ℕ × Option A
choose [] counter = (counter, none)
choose (x ∷ xs) counter = (suc counter, get_elem? (x ∷ xs) (counter % length (x ∷ xs)))

abbrev collect {ℓ} : {A : Type ℓ} → Option A → List A → List A
collect none xs = xs
collect (some x) xs = x ∷ xs

-- The instances that a number of calls choose, from a counter on.
unfoldable pub choices {ℓ} : {A : Type ℓ} → List A → ℕ → ℕ → List A
choices xs zero counter = []
choices xs (suc n) counter =
    let (counter', x) = choose xs counter in collect x (choices xs n counter')

choose-some {ℓ} :
    {A : Type ℓ}
    → (xs : List A) (counter : ℕ) → 0 < length xs
    → choose xs counter ≡ (suc counter, get_elem? xs (counter % length xs))
unfolding choose
choose-some [] counter h = absurd (omega arith)
choose-some (x ∷ xs) counter h = refl

-- From the index `i` of a round on, the rest of the list is chosen.
choices-rest {ℓ} :
    {A : Type ℓ}
    → (xs rest : List A) (q i : ℕ) → i + length rest ≡ length xs
    → ((j : ℕ) → get_elem? xs (i + j) ≡ get_elem? rest j)
    → choices xs (length rest) (q * length xs + i) ≡ rest
unfolding choices
choices-rest xs [] q i e h = refl
choices-rest {A = A} xs (x ∷ rest) q i e h =
    let some_left : 0 < length xs = omega (arith, e) in
    let index : (q * length xs + i) % length xs ≡ i =
      mul-add-mod_self_right q (length xs) i ∙ mod-eq_of_lt (omega (arith, e)) in
    let found : get_elem? xs i ≡ some x = ap (get_elem? xs) (omega arith) ∙ h 0 in
    let next : suc (q * length xs + i) ≡ q * length xs + suc i = omega arith in
    rw (choose-some xs (q * length xs + i) some_left, index, found, next)
      (ap (λ (l : List A). x ∷ l)
        (choices-rest xs rest q (suc i) (omega (arith, e))
          (λ j. ap (get_elem? xs) (omega arith) ∙ h (suc j))))

-- In each round the balancer chooses every instance once, in the order of the list: from a counter
-- that is a multiple of their number, as many calls as there are instances choose the list itself.
pub choices-round {ℓ} :
    {A : Type ℓ} → (xs : List A) (q : ℕ) → choices xs (length xs) (q * length xs) ≡ xs
choices-round xs q =
    let e : q * length xs ≡ q * length xs + 0 = omega arith in
    rw e (choices-rest xs xs q 0 (omega arith) (λ j. ap (get_elem? xs) (omega arith)))
