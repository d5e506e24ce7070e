-- ===== src/Prelude/Dict.antt =====
-- Python's dictionaries: association lists in the order of insertion. A write to a key that is
-- there keeps its place, and a new key goes to the end.
use Prim.Native.Nat.{◌≤◌}
use mathlib.Core.Path.{◌≡◌, refl, sym, subst, ◌∙◌}
use mathlib.Core.Logic.{inl, inr}
use mathlib.Core.Bool.{Bool, true, false}
use mathlib.Core.Option.{Option, none, some}
use mathlib.Core.List.{List, [], ◌∷◌}
use native.Mathlib.Omega.{arith}
use flower_web_infrastructur.Prelude.Tests.{if◌then◌else◌, Bool-cases}
use flower_web_infrastructur.Prelude.Lists.{length}
use flower_web_infrastructur.Prelude.Equality.{Eq, ◌==◌, ==_refl}

abbrev pub Dict {ℓ κ} : Type ℓ → Type κ → Type (ℓ ⊔ κ)
Dict K V = List (K × V)

module _ {ℓ κ} {K : Type ℓ} {V : Type κ} ⦃e : Eq K⦄ where
  -- d.get(k)
  abbrev pub get : K → Dict K V → Option V
  get k [] = none
  get k ((j, v) ∷ d) = if j == k then some v else get k d

  -- k in d
  abbrev pub contains : K → Dict K V → Bool
  contains k [] = false
  contains k ((j, v) ∷ d) = if j == k then true else contains k d

  -- d[k] = v
  abbrev pub put : K → V → Dict K V → Dict K V
  put k v [] = (k, v) ∷ []
  put k v ((j, w) ∷ d) = if j == k then (j, v) ∷ d else (j, w) ∷ put k v d

  -- d.pop(k, None)
  abbrev pub pop : K → Dict K V → Dict K V
  pop k [] = []
  pop k ((j, v) ∷ d) = if j == k then pop k d else (j, v) ∷ pop k d

  pub get-put :
      (k j : K) (v : V) (d : Dict K V) → get j (put k v d) ≡ (if k == j then some v else get j d)
  get-put k j v [] = refl
  get-put k j v ((i, w) ∷ d) =
      ground (arith, e.beq_iff k j, e.beq_iff i k, e.beq_iff i j, get-put k j v d)

  pub get-pop : (k j : K) (d : Dict K V) → get j (pop k d) ≡ (if k == j then none else get j d)
  get-pop k j [] = ground arith
  get-pop k j ((i, w) ∷ d) =
      ground (arith, e.beq_iff k j, e.beq_iff i k, e.beq_iff i j, get-pop k j d)

  pub get-put_self : (k : K) (v : V) (d : Dict K V) → get k (put k v d) ≡ some v
  get-put_self k v d = ground (arith, get-put k k v d, ==_refl k)

  pub contains-get : (k : K) (d : Dict K V) → contains k d ≡ false → get k d ≡ none
  contains-get k [] h = refl
  contains-get k ((j, v) ∷ d) h = ground (arith, contains-get k d)

  pub contains-get-some : (k : K) (v : V) (d : Dict K V) → get k d ≡ some v → contains k d ≡ true
  contains-get-some k v [] h = cc
  contains-get-some k v ((j, w) ∷ d) h = ground (arith, contains-get-some k v d)

  pub get-contains : (k : K) (d : Dict K V) → get k d ≡ none → contains k d ≡ false
  get-contains k [] h = refl
  get-contains k ((j, v) ∷ d) h = ground (arith, get-contains k d)

  pub length-pop-le : (k : K) (d : Dict K V) → length (pop k d) ≤ length d
  length-pop-le k [] = omega arith
  length-pop-le k ((j, v) ∷ d) = ground (arith, length-pop-le k d)

  pub contains-put :
      (k j : K) (v : V) (d : Dict K V)
      → contains j (put k v d) ≡ (if k == j then true else contains j d)
  contains-put k j v [] = refl
  contains-put k j v ((i, w) ∷ d) =
      ground (arith, e.beq_iff k j, e.beq_iff i k, e.beq_iff i j, contains-put k j v d)

  -- A dictionary of values, each once and under its own key.
  abbrev pub IsIndex : (V → K) → Dict K V → Type ℓ
  IsIndex key [] = Unit
  IsIndex key ((k, v) ∷ d) = (contains k d ≡ false) × (key v ≡ k) × IsIndex key d

  pub put-IsIndex :
      (key : V → K) (v : V) (d : Dict K V) → IsIndex key d → IsIndex key (put (key v) v d)
  put-IsIndex key v [] h = (refl, refl, tt)
  put-IsIndex key v ((i, w) ∷ d) (a, b, c) = elim (Bool-cases (i == key v)) [
    | inl same ↦ rw same (a, sym ((e.beq_iff i (key v)).0 same), c)
    | inr other ↦ rw other (
      ground
          (arith, contains-put (key v) i v d, other, a, e.beq_iff i (key v), e.beq_iff (key v) i),
      b,
      put-IsIndex key v d c,
    )
  ]

  pub IsIndex-get :
      (key : V → K) (k : K) (v : V) (d : Dict K V) → IsIndex key d → get k d ≡ some v → key v ≡ k
  IsIndex-get key k v [] h g = absurd (cc)
  IsIndex-get key k v ((i, w) ∷ d) (a, b, c) g = elim (Bool-cases (i == k)) [
    | inl same ↦ unchanged w (sym (rw same refl) ∙ g) (b ∙ (e.beq_iff i k).0 same)
    | inr other ↦ IsIndex-get key k v d c (sym (rw other refl) ∙ g)
  ]
    where
      unchanged : (w : V) → some w ≡ some v → key w ≡ k → key v ≡ k
      unchanged w p h = let q : w ≡ v = cc in subst (λ x. key x ≡ k) q h
