-- ===== src/Mq/Outbox/Batch.antt =====
-- What `next_pending` of in_memory_outbox_store.py selects.
use flower_web_infrastructur.Prelude.{
  ℕ, zero, suc, ◌≤◌, ◌≡◌, refl, ◌∙◌, ap, Bool, true, false, List, [], ◌∷◌, ◌++◌, ltb, take, keep,
  length, length-take-le, ◌==◌, string_eq, All, All-imp, All-both, All-keep, some, All-take, arith,
  Bool-cases, inl, inr, count_if, ◌⊎◌,
}
use text.Mathlib.TextEquality.{eq_iff}
use flower_web_infrastructur.Prelude.Dict
use flower_web_infrastructur.Mq.Outbox.{
  OutboxRecord, OutboxStore, values, is_due, time_or, insert_by_age, sort_by_age, next_pending,
}
use flower_web_infrastructur.Mq.Outbox.Store.{Keyed, Distinct, values-found, values-Distinct}

-- No record is younger than one that stands behind it.
abbrev pub ByAge : ℕ → List OutboxRecord → Type 0
ByAge now [] = Unit
ByAge now (r ∷ rs) =
    All (λ x. time_or r.created_at now ≤ time_or x.created_at now) rs × ByAge now rs

module _ (now : ℕ) where
  insert-All :
      (P : OutboxRecord → Type 0) (r : OutboxRecord) (rs : List OutboxRecord)
      → P r
      → All P rs
      → All P (insert_by_age now r rs)
  unfolding insert_by_age
  insert-All P r [] p ps = (p, tt)
  insert-All P r (x ∷ xs) p ps =
      elim (Bool-cases (ltb (time_or x.created_at now) (time_or r.created_at now))) [
        | inl older ↦ rw older (ps.0, insert-All P r xs p ps.1)
        | inr not_older ↦ rw not_older (p, ps)
      ]

  sort-All :
      (P : OutboxRecord → Type 0) (rs : List OutboxRecord) → All P rs → All P (sort_by_age now rs)
  unfolding sort_by_age
  sort-All P [] ps = tt
  sort-All P (r ∷ rs) ps = insert-All P r (sort_by_age now rs) ps.0 (sort-All P rs ps.1)

  insert-ByAge :
      (r : OutboxRecord) (rs : List OutboxRecord)
      → ByAge now rs
      → ByAge now (insert_by_age now r rs)
  unfolding insert_by_age
  insert-ByAge r [] s = (tt, tt)
  insert-ByAge r (x ∷ xs) s =
      elim (Bool-cases (ltb (time_or x.created_at now) (time_or r.created_at now))) [
        | inl older ↦ rw older (
          insert-All (λ y. time_or x.created_at now ≤ time_or y.created_at now) r xs (ground arith)
              s.0,
          insert-ByAge r xs s.1,
        )
        | inr not_older ↦
            let le : time_or r.created_at now ≤ time_or x.created_at now = ground arith in
            rw not_older (
              (
                le,
                All-imp (λ y. time_or x.created_at now ≤ time_or y.created_at now)
                    (λ y. time_or r.created_at now ≤ time_or y.created_at now) (λ y h. omega arith)
                    xs s.0,
              ),
              s,
            )
      ]

  sort-ByAge : (rs : List OutboxRecord) → ByAge now (sort_by_age now rs)
  unfolding sort_by_age
  sort-ByAge [] = tt
  sort-ByAge (r ∷ rs) = insert-ByAge r (sort_by_age now rs) (sort-ByAge rs)

  insert-count :
      (p : OutboxRecord → Bool) (r : OutboxRecord) (rs : List OutboxRecord)
      → count_if p (insert_by_age now r rs) ≡ count_if p (r ∷ rs)
  unfolding insert_by_age
  insert-count p r [] = refl
  insert-count p r (x ∷ xs) = ground (arith, insert-count p r xs)

  sort-count :
      (p : OutboxRecord → Bool) (rs : List OutboxRecord)
      → count_if p (sort_by_age now rs) ≡ count_if p rs
  unfolding sort_by_age
  sort-count p [] = refl
  sort-count p (r ∷ rs) = insert-count p r (sort_by_age now rs) ∙ ground (arith, sort-count p rs)

  insert-Distinct :
      (r : OutboxRecord) (rs : List OutboxRecord)
      → All (λ x. (r.msg_id == x.msg_id) ≡ false) rs
      → Distinct rs
      → Distinct (insert_by_age now r rs)
  unfolding insert_by_age
  insert-Distinct r [] d ds = (tt, tt)
  insert-Distinct r (x ∷ xs) d ds =
      elim (Bool-cases (ltb (time_or x.created_at now) (time_or r.created_at now))) [
        | inl older ↦
            let flip : (x.msg_id == r.msg_id) ≡ false =
              ground (arith, eq_iff x.msg_id r.msg_id, eq_iff r.msg_id x.msg_id, d.0) in
            rw older (
              insert-All (λ y. (x.msg_id == y.msg_id) ≡ false) r xs flip ds.0,
              insert-Distinct r xs d.1 ds.1,
            )
        | inr not_older ↦ rw not_older (d, ds)
      ]

  sort-Distinct : (rs : List OutboxRecord) → Distinct rs → Distinct (sort_by_age now rs)
  unfolding sort_by_age
  sort-Distinct [] d = tt
  sort-Distinct (r ∷ rs) d =
      insert-Distinct r (sort_by_age now rs) (sort-All (λ x. (r.msg_id == x.msg_id) ≡ false) rs d.0)
        (sort-Distinct rs d.1)

keep-Distinct :
    (p : OutboxRecord → Bool) (rs : List OutboxRecord) → Distinct rs → Distinct (keep p rs)
keep-Distinct p [] d = tt
keep-Distinct p (r ∷ rs) d = elim (Bool-cases (p r)) [
  | inl kept ↦
      rw kept (All-keep (λ x. (r.msg_id == x.msg_id) ≡ false) p rs d.0, keep-Distinct p rs d.1)
  | inr left ↦ rw left (keep-Distinct p rs d.1)
]

take-Distinct : (n : ℕ) (rs : List OutboxRecord) → Distinct rs → Distinct (take n rs)
take-Distinct zero rs d = tt
take-Distinct (suc n) [] d = tt
take-Distinct (suc n) (r ∷ rs) d =
    (All-take (λ x. (r.msg_id == x.msg_id) ≡ false) n rs d.0, take-Distinct n rs d.1)

keep-passes : (p : OutboxRecord → Bool) (rs : List OutboxRecord) → All (λ r. p r ≡ true) (keep p rs)
keep-passes p [] = tt
keep-passes p (r ∷ rs) = elim (Bool-cases (p r)) [
  | inl kept ↦ rw kept (kept, keep-passes p rs)
  | inr left ↦ rw left (keep-passes p rs)
]

-- The first `n`, and what is left.
take-rest :
    (n : ℕ) (rs : List OutboxRecord)
    → (rest : List OutboxRecord) × (take n rs ++ rest ≡ rs)
      × ((rest ≡ []) ⊎ (length (take n rs) ≡ n))
take-rest zero rs = (rs, refl, inr (omega arith))
take-rest (suc n) [] = ([], refl, inl refl)
take-rest (suc n) (r ∷ rs) =
    let (rest, split, full) = take-rest n rs in
    (rest, ap (◌∷◌ r) split, elim full [ inl e ↦ inl e | inr e ↦ inr (omega (arith, e)) ])

-- A batch of `next_pending` has at most `limit` records. With the records that are left for later it
-- is, count by count, the due pending records of the store, oldest first, so that none in the batch
-- is younger than one that is left; and where it has fewer than `limit`, none is left.
pub next_pending-batch :
    (now limit : ℕ) (s : OutboxStore)
    → let batch = next_pending now limit s in
      (rest : List OutboxRecord) × (length batch ≤ limit)
      × ByAge now (batch ++ rest)
      × ((p : OutboxRecord → Bool)
          → count_if p (batch ++ rest) ≡ count_if p (keep (is_due now) (values s)))
      × ((rest ≡ []) ⊎ (length batch ≡ limit))
unfolding next_pending
next_pending-batch now limit s =
    let due : List OutboxRecord = keep (is_due now) (values s) in
    let (rest, split, full) = take-rest limit (sort_by_age now due) in
    (
      rest,
      length-take-le limit (sort_by_age now due),
      rw split (sort-ByAge now due),
      (λ p. rw split (sort-count now p due)),
      full,
    )

-- In a store with each record under its own number the records of a batch are those of the store,
-- all of them pending and due, and no number comes twice.
pub next_pending-found :
    (now limit : ℕ) (s : OutboxStore)
    → Keyed s
    → All (λ r. (Dict.get r.msg_id s ≡ some r) × (is_due now r ≡ true)) (next_pending now limit s)
      × Distinct (next_pending now limit s)
unfolding next_pending
next_pending-found now limit s v =
    let P : OutboxRecord → Type 0 = λ r. (Dict.get r.msg_id s ≡ some r) × (is_due now r ≡ true) in
    let due : List OutboxRecord = keep (is_due now) (values s) in
    (
      All-take P limit (sort_by_age now due) (
          sort-All now P due (
            All-both (λ r. Dict.get r.msg_id s ≡ some r) (λ r. is_due now r ≡ true) due
              (All-keep (λ r. Dict.get r.msg_id s ≡ some r) (is_due now) (values s)
                (values-found s v))
              (keep-passes (is_due now) (values s)))),
      take-Distinct limit (sort_by_age now due)
          (sort-Distinct now due (keep-Distinct (is_due now) (values s) (values-Distinct s v))),
    )
