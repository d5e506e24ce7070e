-- ===== src/Core/Closure/Total.antt =====
-- The walk of Core/Closure.antt ends: the fuel that `topological_closure` gives is enough.
use flower_web_infrastructur.Prelude.{
  ℕ, zero, suc, ◌≤◌, ◌<◌, ◌≡◌, refl, true, false, not, Option, some, List, [], ◌∷◌, ◌++◌, String,
  length, if◌then◌else◌, arith, Bool-cases, Option-cases, inl, inr, ◌==◌, string_eq, count_if,
  count_if-le, ==_refl,
}
use text.Mathlib.TextEquality.{eq_iff}
use flower_web_infrastructur.Prelude.Dict
use flower_web_infrastructur.Prelude.Dict.{Dict}
use flower_web_infrastructur.Core.Closure.{
  has, Walk, start, each, dfs, topological_closure, meet_unknown, meet_cycle, finish, finish_after,
}

pub has-append :
    (x y : String) (ys : List String) → has x (ys ++ y ∷ []) ≡ (if has x ys then true else y == x)
has-append x y [] = ground arith
has-append x y (z ∷ ys) = ground (arith, has-append x y ys)

each-total :
    {E : Type 0} (step : String → Walk E → Option (Walk E))
    → ((n : String) (w : Walk E) → (w' : Walk E) × (step n w ≡ some w'))
    → (ns : List String) (w : Walk E) → (w' : Walk E) × (each step ns w ≡ some w')
unfolding each
each-total step total [] w = (w, refl)
each-total step total (n ∷ ns) w =
    let (w', e) = total n w in let (w'', f) = each-total step total ns w' in (w'', rw (e, each) f)

module _ {E : Type 0} where
  -- How many entries of a part of the table are not being visited.
  free : List String → Dict String E → ℕ
  free visiting part = count_if (λ (p : String × E). not (has p.0 visiting)) part

  free-le :
      (visiting : List String) (name : String) (part : Dict String E)
      → free (visiting ++ name ∷ []) part ≤ free visiting part
  unfolding free
  free-le visiting name [] = omega arith
  free-le visiting name ((k, e) ∷ part) =
      ground (arith, has-append k name visiting, free-le visiting name part)

  free-lt :
      (visiting : List String) (name : String) (part : Dict String E) (e : E)
      → Dict.get name part ≡ some e
      → has name visiting ≡ false
      → free (visiting ++ name ∷ []) part < free visiting part
  unfolding free
  free-lt visiting name [] e h new = absurd (cc)
  free-lt visiting name ((k, x) ∷ part) e h new = elim (Bool-cases (k == name)) [
    | inl same ↦
        let at : k ≡ name = (eq_iff k name).0 same in
        rw at
          (ground (arith, has-append name name visiting, free-le visiting name part, ==_refl name))
    | inr other ↦
        let h' : Dict.get name part ≡ some e = rw other at h in
        ground (arith, has-append k name visiting, free-lt visiting name part e h' new)
  ]

module _ {E : Type 0} (requires : E → List String) (table : Dict String E) where
  finish_after-total :
      (name : String) (e : E) (o : Option (Walk E))
      → (w : Walk E) × (o ≡ some w)
      → (w' : Walk E) × (finish_after name e o ≡ some w')
  finish_after-total name e o (w, h) = (finish name e w, rw h refl)

  dfs-total :
      (fuel : ℕ) (visiting : List String) (name : String) (w : Walk E)
      → free visiting table < fuel
      → (w' : Walk E) × (dfs requires table fuel visiting name w ≡ some w')
  unfolding dfs
  dfs-total zero visiting name w h = absurd (omega arith)
  dfs-total (suc fuel) visiting name w h = elim (Bool-cases (has name w.seen)) [
    | inl done ↦ (w, rw (done, dfs) refl)
    | inr new ↦ (elim (Option-cases (Dict.get name table)) [
      | inl missing ↦ (meet_unknown name w, rw (new, missing, dfs) refl)
      | inr (e, found) ↦ (elim (Bool-cases (has name visiting)) [
        | inl cyclic ↦ (meet_cycle visiting name w, rw (new, found, cyclic, dfs) refl)
        | inr fresh ↦
            let less = free-lt visiting name table e found fresh in
            rw (new, found, fresh, dfs)
              (finish_after-total name e _ (
                each-total (dfs requires table fuel (visiting ++ name ∷ []))
                  (λ n w. dfs-total fuel (visiting ++ name ∷ []) n w (omega (arith, less)))
                  (requires e) w))
      ])
    ])
  ]

  -- The walk over any names and any table, with cycles and unknown names or without, ends and gives a
  -- result: a path is never longer than the table.
  pub topological_closure-total :
      (names : List String) → (w : Walk E) × (topological_closure requires table names ≡ some w)
  unfolding topological_closure free
  topological_closure-total names =
      each-total (dfs requires table (suc (length table)) [])
        (λ n w. dfs-total (suc (length table)) [] n w (free-bound table)) names start
    where
      free-bound : (part : Dict String E) → free [] part < suc (length part)
      free-bound part = omega (arith, count_if-le (λ (p : String × E). not (has p.0 [])) part)
