-- ===== src/LoadBalance/Weighted/Sums.antt =====
-- What weighted_round_robin_balancer.py adds to its current weights, and what they sum to.
use flower_web_infrastructur.Prelude.{
  ℕ, ◌+◌, ◌≡◌, refl, sym, ◌∙◌, subst, Bool, true, false, ◌&&◌, some, List, [], ◌∷◌, String,
  if◌then◌else◌, ◌==◌, string_eq, ==_refl, All, Bool-cases, Option-cases, inl, inr, arith,
}
use text.Mathlib.TextEquality.{eq_iff}
use flower_web_infrastructur.Prelude.Int.{ℤ, pos, ◌+ℤ◌, pos_part, neg_part, +ℤ_parts}
use flower_web_infrastructur.Prelude.Dict
use flower_web_infrastructur.Prelude.Dict.{Dict}
use flower_web_infrastructur.LoadBalance.Weighted.{
  ServiceInstance, Signature, Balancer, signature_of, has_pair, all_in, same_signature, zeros,
  reset_if_changed, total, add_weights,
}

-- The sums of the positive and of the negative values.
abbrev ups : Dict String ℤ → ℕ
ups [] = 0
ups ((k, w) ∷ d) = pos_part w + ups d

abbrev downs : Dict String ℤ → ℕ
downs [] = 0
downs ((k, w) ∷ d) = neg_part w + downs d

-- The current weights sum to zero, and each instance of the signature has one.
pub record IsValid (b : Balancer) : Type 0 where
  pub balanced : ups b.current_weight ≡ downs b.current_weight
  pub weighted : All (λ (p : String × ℤ). Dict.contains p.0 b.current_weight ≡ true) b.signature

pub put-ups :
    (k : String) (v w : ℤ) (d : Dict String ℤ)
    → Dict.get k d ≡ some w
    → ups (Dict.put k v d) + pos_part w ≡ ups d + pos_part v
put-ups k v w [] h = absurd (cc)
put-ups k v w ((j, x) ∷ d) h = elim (Bool-cases (j == k)) [
  | inl same ↦
      let e : some x ≡ some w = sym (rw same refl) ∙ h in
      let e' : x ≡ w = cc in rw same (rw e' (omega arith))
  | inr other ↦ let ih = put-ups k v w d (sym (rw other refl) ∙ h) in rw other (omega (arith, ih))
]

pub put-downs :
    (k : String) (v w : ℤ) (d : Dict String ℤ)
    → Dict.get k d ≡ some w
    → downs (Dict.put k v d) + neg_part w ≡ downs d + neg_part v
put-downs k v w [] h = absurd (cc)
put-downs k v w ((j, x) ∷ d) h = elim (Bool-cases (j == k)) [
  | inl same ↦
      let e : some x ≡ some w = sym (rw same refl) ∙ h in
      let e' : x ≡ w = cc in rw same (rw e' (omega arith))
  | inr other ↦ let ih = put-downs k v w d (sym (rw other refl) ∙ h) in rw other (omega (arith, ih))
]

-- Every instance has a current weight.
abbrev pub HaveWeights : List ServiceInstance → Dict String ℤ → Type 0
HaveWeights is d = All (λ (i : ServiceInstance). Dict.contains i.host d ≡ true) is

pub put-keeps :
    (k j : String) (v : ℤ) (d : Dict String ℤ)
    → Dict.contains j d ≡ true
    → Dict.contains j (Dict.put k v d) ≡ true
put-keeps k j v d h = Dict.contains-put k j v d ∙ either (k == j) h
  where
    either : (b : Bool) {a : Bool} → a ≡ true → (if b then true else a) ≡ true
    either true h = refl
    either false h = h

put-HaveWeights :
    (k : String) (v : ℤ) (is : List ServiceInstance) (d : Dict String ℤ)
    → HaveWeights is d
    → HaveWeights is (Dict.put k v d)
put-HaveWeights k v [] d h = tt
put-HaveWeights k v (i ∷ is) d (a, h) = (put-keeps k i.host v d a, put-HaveWeights k v is d h)

pub contains-found :
    (k : String) (d : Dict String ℤ) → Dict.contains k d ≡ true → (w : ℤ) × (Dict.get k d ≡ some w)
contains-found k d h = elim (Option-cases (Dict.get k d)) [
  | inl absent ↦ absurd (cc (Dict.get-contains k d absent, h))
  | inr found ↦ found
]

-- The weights are added, each once, and no key is lost.
pub add_weights-total :
    (is : List ServiceInstance) (d : Dict String ℤ) (a b : ℕ)
    → HaveWeights is d
    → ups d + b ≡ downs d + a
    → (d' : Dict String ℤ) × (add_weights is d ≡ some d')
      × ((k : String) → Dict.contains k d ≡ true → Dict.contains k d' ≡ true)
      × (ups d' + b + neg_part (total is) ≡ downs d' + a + pos_part (total is))
unfolding add_weights
add_weights-total [] d a b h e = (d, refl, λ k c. c, omega (arith, e))
add_weights-total (i ∷ is) d a b (here, h) e =
    let (w, found) = contains-found i.host d here in
    let v = w +ℤ i.weight in
    let d1 = Dict.put i.host v d in
    let e1 : ups d1 + (b + neg_part i.weight) ≡ downs d1 + (a + pos_part i.weight) =
      omega
        (arith, e, +ℤ_parts w i.weight, put-ups i.host v w d found, put-downs i.host v w d found) in
    let (d', added, kept, sum) =
      add_weights-total is d1 (a + pos_part i.weight) (b + neg_part i.weight)
        (put-HaveWeights i.host v is d h) e1 in
    (
      d',
      rw (found, add_weights) added,
      λ k c. kept k (put-keeps i.host k v d c),
      omega (arith, sum, +ℤ_parts i.weight (total is)),
    )

put-zero :
    (k : String) (d : Dict String ℤ)
    → ups d ≡ 0
    → downs d ≡ 0
    → (ups (Dict.put k (pos 0) d) ≡ 0) × (downs (Dict.put k (pos 0) d) ≡ 0)
put-zero k [] u v = (refl, refl)
put-zero k ((j, x) ∷ d) u v = elim (Bool-cases (j == k)) [
  | inl same ↦ rw same (omega (arith, u), omega (arith, v))
  | inr other ↦
      let (a, b) = put-zero k d (omega (arith, u)) (omega (arith, v)) in
      rw other (omega (arith, u, a), omega (arith, v, b))
]

zeros-sum :
    (is : List ServiceInstance) (d : Dict String ℤ)
    → ups d ≡ 0
    → downs d ≡ 0
    → (ups (zeros is d) ≡ 0) × (downs (zeros is d) ≡ 0)
zeros-sum [] d u v = (u, v)
zeros-sum (i ∷ is) d u v =
    let (a, b) = put-zero i.host d u v in zeros-sum is (Dict.put i.host (pos 0) d) a b

zeros-keeps :
    (k : String) (is : List ServiceInstance) (d : Dict String ℤ)
    → Dict.contains k d ≡ true
    → Dict.contains k (zeros is d) ≡ true
zeros-keeps k [] d h = h
zeros-keeps k (i ∷ is) d h =
    zeros-keeps k is (Dict.put i.host (pos 0) d) (put-keeps i.host k (pos 0) d h)

put_self : (k : String) (v : ℤ) (d : Dict String ℤ) → Dict.contains k (Dict.put k v d) ≡ true
put_self k v d = Dict.contains-put k k v d ∙ rw (==_refl k) refl

zeros-HaveWeights : (is : List ServiceInstance) (d : Dict String ℤ) → HaveWeights is (zeros is d)
zeros-HaveWeights [] d = tt
zeros-HaveWeights (i ∷ is) d = (
  zeros-keeps i.host is (Dict.put i.host (pos 0) d) (put_self i.host (pos 0) d),
  zeros-HaveWeights is (Dict.put i.host (pos 0) d),
)

HaveWeights-signature :
    (is : List ServiceInstance) (d : Dict String ℤ)
    → HaveWeights is d
    → All (λ (p : String × ℤ). Dict.contains p.0 d ≡ true) (signature_of is)
HaveWeights-signature [] d h = tt
HaveWeights-signature (i ∷ is) d (a, h) = (a, HaveWeights-signature is d h)

has_pair-contains :
    (h : String) (w : ℤ) (s : Signature) (d : Dict String ℤ)
    → has_pair (h, w) s ≡ true
    → All (λ (p : String × ℤ). Dict.contains p.0 d ≡ true) s
    → Dict.contains h d ≡ true
has_pair-contains h w [] d e a = absurd (cc)
has_pair-contains h w ((k, x) ∷ s) d e (a, rest) = elim (Bool-cases (k == h)) [
  | inl same ↦ subst (λ n. Dict.contains n d ≡ true) ((eq_iff k h).0 same) a
  | inr other ↦ has_pair-contains h w s d (sym (rw other refl) ∙ e) rest
]

all_in-HaveWeights :
    (is : List ServiceInstance) (s : Signature) (d : Dict String ℤ)
    → all_in (signature_of is) s ≡ true
    → All (λ (p : String × ℤ). Dict.contains p.0 d ≡ true) s
    → HaveWeights is d
all_in-HaveWeights [] s d h a = tt
all_in-HaveWeights (i ∷ is) s d h a = elim (Bool-cases (has_pair (i.host, i.weight) s)) [
  | inl here ↦ (
    has_pair-contains i.host i.weight s d here a,
    all_in-HaveWeights is s d (sym (rw here refl) ∙ h) a,
  )
  | inr missing ↦ absurd (wrong (sym (rw missing refl) ∙ h))
]
  where
    wrong : false ≡ true → ⊥
    wrong e = cc

pub reset-IsValid :
    (is : List ServiceInstance) (b : Balancer)
    → IsValid b
    → IsValid (reset_if_changed is b) × HaveWeights is (reset_if_changed is b).current_weight
reset-IsValid is b v = elim (Bool-cases (same_signature (signature_of is) b.signature)) [
  | inl same ↦ rw same (
    v,
    all_in-HaveWeights is b.signature b.current_weight
        (first (all_in (signature_of is) b.signature) _ same) v.weighted,
  )
  | inr changed ↦
      let (a, c) = zeros-sum is [] refl refl in
      let h = zeros-HaveWeights is [] in
      rw changed
        (record { balanced = a ∙ sym c; weighted = HaveWeights-signature is (zeros is []) h }, h)
]
  where
    first : (x y : Bool) → (x && y) ≡ true → x ≡ true
    first true y h = refl
    first false y h = absurd (cc)
