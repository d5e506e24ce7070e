-- ===== src/Core/Closure/Clean.antt =====
-- When the walk of Core/Closure.antt has met neither a cycle nor an unknown name: never after it has.
use flower_web_infrastructur.Prelude.{
  ◌≡◌, refl, sym, Option, some, List, [], ◌∷◌, ◌++◌, String, if◌then◌else◌, arith, Bool-cases,
  Option-cases, inl, inr, string_eq, ◌∙◌, subst,
}
use flower_web_infrastructur.Core.Closure.{has_list, add, from_first, Walk, each, meet_cycle}

pub never_added : (name : String) (xs : List String) → add name xs ≡ [] → ⊥
never_added name [] h = cc
never_added name (x ∷ xs) h = ground (arith, h)

pub never_met :
    (c : List String) (cs : List (List String))
    → (if has_list c cs then cs else cs ++ c ∷ []) ≡ []
    → ⊥
never_met c [] h = cc
never_met c (d ∷ cs) h = ground (arith, h)

module _ {E : Type 0} where
  -- The walk has met no cycle and no unknown name.
  abbrev pub IsClean : Walk E → Type 0
  IsClean w = (w.circular ≡ []) × (w.unknown ≡ [])

  pub meet_cycle-IsClean :
      (visiting : List String) (name : String) (w : Walk E)
      → IsClean (meet_cycle visiting name w)
      → ⊥
  meet_cycle-IsClean visiting name w (c, u) =
      elim (Bool-cases (has_list (from_first name visiting ++ name ∷ []) w.circular)) [
        | inl old ↦
            never_met (from_first name visiting ++ name ∷ []) w.circular (ground (arith, old, c))
        | inr new ↦
            never_met (from_first name visiting ++ name ∷ []) w.circular (ground (arith, new, c))
      ]

  pub each-IsClean :
      (step : String → Walk E → Option (Walk E))
      → ((n : String) (w w' : Walk E) → step n w ≡ some w' → IsClean w' → IsClean w)
      → (ns : List String) (w w' : Walk E) → each step ns w ≡ some w'
      → IsClean w'
      → IsClean w
  unfolding each
  each-IsClean step back [] w w' h c = let e : w' ≡ w = cc in subst IsClean e c
  each-IsClean step back (n ∷ ns) w w' h c = elim (Option-cases (step n w)) [
    | inl stop ↦ absurd (ground (arith, stop, h))
    | inr (v, e) ↦
        let f : each step ns v ≡ some w' = sym (rw (e, each) refl) ∙ h in
        back n w v e (each-IsClean step back ns v w' f c)
  ]

pub moved : {E : Type 0} (P : Walk E → Type 0) (v w : Walk E) → some v ≡ some w → P v → P w
moved P v w h p = let e : v ≡ w = cc in subst P e p

pub each-single :
    {E : Type 0} (step : String → Walk E → Option (Walk E)) (n : String) (w : Walk E)
    → each step (n ∷ []) w ≡ step n w
unfolding each
each-single step n w = elim (Option-cases (step n w)) [
  | inl e ↦ rw (e, each) refl
  | inr (v, e) ↦ rw (e, each) refl
]
