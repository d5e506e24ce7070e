-- ===== src/Utils/Snowflake/Order.antt =====
-- The order of the numbers of Utils/Snowflake.antt, and that workers do not share any.
use flower_web_infrastructur.Prelude.{
  ℕ, suc, subst, sym, ◌+◌, ◌%◌, ◌≤◌, ◌<◌, ◌≡◌, ◌⊎◌, inl, inr, refl, true, false, Option, none, some,
  List, [], ◌∷◌, leb, ltb, nat_beq, All, ◌≢◌, arith, Bool-cases,
}
use flower_web_infrastructur.Utils.Snowflake.{
  epoch, max_sequence, Generator, wait_next_millis, Reply, compose, issue, next_id, IsValid,
  next_free, id, clock_error, waiting,
}

-- A call that issues a number, of a time from `epoch` on and a sequence, or leaves the generator.
abbrev pub Issues : Generator → Generator → Reply → Type 0
Issues g g' r =
    ((timestamp : ℕ) × (sequence : ℕ) × (epoch ≤ timestamp)
      × (sequence ≤ max_sequence)
      × (next_free g ≤ compose timestamp g.worker_id sequence)
      × ((g', r) ≡ issue g timestamp sequence))
    ⊎ ((g' ≡ g) × ((r ≡ waiting) ⊎ (r ≡ clock_error)))

wait_next_millis-later :
    (last : ℕ) (ts : List ℕ)
    → All (λ (t : ℕ). epoch ≤ t) ts
    → (wait_next_millis last ts ≡ none)
      ⊎ ((t : ℕ) × (wait_next_millis last ts ≡ some t) × (last < t) × (epoch ≤ t))
unfolding wait_next_millis
wait_next_millis-later last [] h = inl refl
wait_next_millis-later last (t ∷ ts) h = elim (Bool-cases (leb t last)) [
  | inl e ↦ rw e (wait_next_millis-later last ts h.1)
  | inr e ↦ rw e (inr (t, refl, ground arith, h.0))
]

issue-next :
    (g : Generator) (t s : ℕ)
    → IsValid g
    → epoch ≤ t
    → s ≤ max_sequence
    → next_free g ≤ compose t g.worker_id s
    → Issues g (issue g t s).0 (issue g t s).1
issue-next g t s v e m h = inl (t, s, e, m, h, refl)

abbrev generator : ℕ → ℕ → Option ℕ → Generator
generator w s last = record { worker_id = w; sequence = s; last_timestamp = last }

-- What is behind the generator is below a number of a later time, or of the same time and a later
-- sequence.
next_free-later :
    (w k last t s : ℕ)
    → IsValid (generator w k (some last))
    → last < t
    → next_free (generator w k (some last)) ≤ compose t w s
unfolding next_free
next_free-later w k last t s v m =
    let from : epoch ≤ last = v.2 last refl in omega (arith, v.0, v.1, from, m)

next_free-beside :
    (w k last s : ℕ) → k < s → next_free (generator w k (some last)) ≤ compose last w s
unfolding next_free
next_free-beside w k last s n = omega arith

next_free-first : (w k t : ℕ) → next_free (generator w k none) ≤ compose t w 0
unfolding next_free
next_free-first w k t = omega arith

full_or_next :
    (k : ℕ)
    → k ≤ max_sequence
    → (((k + 1) % 4096) ≡ 0) ⊎ ((k < (k + 1) % 4096) × ((k + 1) % 4096 ≤ max_sequence))
full_or_next k h = ground arith

next_id-Issues_from :
    (w k : ℕ) (l : Option ℕ) (readings : List ℕ)
    → IsValid (generator w k l)
    → All (λ (t : ℕ). epoch ≤ t) readings
    → Issues
        (generator w k l)
        (next_id (generator w k l) readings).0
        (next_id (generator w k l) readings).1
unfolding next_id
next_id-Issues_from w k l [] v h = inr (refl, inl refl)
next_id-Issues_from w k none (now ∷ later) v h =
    issue-next (generator w k none) now 0 v h.0 (omega arith) (next_free-first w k now)
next_id-Issues_from w k (some last) (now ∷ later) v h = elim (Bool-cases (ltb now last)) [
  | inl back ↦ rw back (inr (refl, inr refl))
  | inr forth ↦ rw forth (elim (Bool-cases (nat_beq now last)) [
    | inr fresh ↦ rw fresh (
        issue-next (generator w k (some last)) now 0 v h.0 (omega arith)
          (next_free-later w k last now 0 v (ground arith)))
    | inl same ↦ rw same (elim (full_or_next k v.1) [
      | inr (more, fits) ↦
          let e : nat_beq ((k + 1) % 4096) 0 ≡ false = ground arith in
          let at_last : now ≡ last = ground arith in
          rw e (
            rw at_last (
              issue-next (generator w k (some last)) last ((k + 1) % 4096) v (v.2 last refl) fits
                (next_free-beside w k last ((k + 1) % 4096) more)))
      | inl full ↦
          let e : nat_beq ((k + 1) % 4096) 0 ≡ true = ground arith in
          rw e (elim (wait_next_millis-later now later h.1) [
            | inl none_yet ↦ rw none_yet (inr (refl, inl refl))
            | inr (t, found, m, from) ↦ rw found (
                issue-next (generator w k (some last)) t 0 v from (omega arith)
                  (next_free-later w k last t 0 v (ground arith)))
          ])
    ])
  ])
]

-- A call either issues a number of its own worker, of a time from `epoch` on and a sequence of 12
-- bits, that is above every number issued before, and the generator records that time and sequence;
-- or it leaves the generator as it was, and it waits for the clock or reports that the clock went back.
pub next_id-Issues :
    (g : Generator) (readings : List ℕ)
    → IsValid g
    → All (λ (t : ℕ). epoch ≤ t) readings
    → Issues g (next_id g readings).0 (next_id g readings).1
next_id-Issues g readings v h =
    next_id-Issues_from g.worker_id g.sequence g.last_timestamp readings v h

abbrev pub collect : Reply → List ℕ → List ℕ
collect (id i) is = i ∷ is
collect clock_error is = is
collect waiting is = is

-- The numbers that a sequence of calls issues.
unfoldable pub ids : Generator → List (List ℕ) → List ℕ
ids g [] = []
ids g (readings ∷ calls) = let (g', r) = next_id g readings in collect r (ids g' calls)

-- Each number is at least the bound, and above the one before.
pub data Ascending : ℕ → List ℕ → Type 0 where
  ascending_nil : {b : ℕ} → Ascending b []
  ascending_cons : {b i : ℕ} → {is : List ℕ} → b ≤ i → Ascending (suc i) is → Ascending b (i ∷ is)

IsValid-issue :
    (g : Generator) (t s : ℕ) → IsValid g → epoch ≤ t → s ≤ max_sequence → IsValid (issue g t s).0
unfolding issue
IsValid-issue g t s v from h =
    (v.0, h, λ last e. subst (λ (x : ℕ). epoch ≤ x) (some_eq t last e) from)
  where
    some_eq : (a b : ℕ) → some a ≡ some b → a ≡ b
    some_eq a b e = cc

next_free-issue :
    (g : Generator) (t s : ℕ) → next_free (issue g t s).0 ≡ suc (compose t g.worker_id s)
unfolding issue next_free
next_free-issue g t s = omega arith

-- Whatever the clock reads from `epoch` on, also when it goes back, the numbers that a valid generator
-- issues over any sequence of calls ascend strictly, from above all that it issued before.
pub ids-Ascending :
    (g : Generator) (calls : List (List ℕ))
    → IsValid g
    → All (λ (readings : List ℕ). All (λ (t : ℕ). epoch ≤ t) readings) calls
    → Ascending (next_free g) (ids g calls)
unfolding ids issue
ids-Ascending g [] v h = ascending_nil
ids-Ascending g (readings ∷ calls) v h = elim (next_id-Issues g readings v h.0) [
  | inr (same, inl w) ↦ rw (same, w) (ids-Ascending g calls v h.1)
  | inr (same, inr w) ↦ rw (same, w) (ids-Ascending g calls v h.1)
  | inl (t, s, from, m, above, e) ↦
      subst (λ (p : Generator × Reply). Ascending (next_free g) (collect p.1 (ids p.0 calls)))
        (sym e)
        (ascending_cons above (
          subst (λ (b : ℕ). Ascending b (ids (issue g t s).0 calls)) (next_free-issue g t s)
            (ids-Ascending (issue g t s).0 calls (IsValid-issue g t s v from m) h.1)))
]

-- What a number that a valid generator issues is made of.
id-made :
    (g : Generator) (readings : List ℕ) (i : ℕ)
    → IsValid g
    → All (λ (t : ℕ). epoch ≤ t) readings
    → (next_id g readings).1 ≡ id i
    → (t : ℕ) × (s : ℕ) × (s ≤ max_sequence) × (i ≡ compose t g.worker_id s)
unfolding issue
id-made g readings i v h e = elim (next_id-Issues g readings v h) [
  | inr (same, inl w) ↦ absurd cc
  | inr (same, inr w) ↦ absurd cc
  | inl (t, s, from, m, above, f) ↦ (t, s, m, cc)
]

-- Two valid generators of different workers never issue the same number.
pub workers_apart :
    (g h : Generator) (now later : List ℕ) (i j : ℕ)
    → IsValid g
    → IsValid h
    → All (λ (t : ℕ). epoch ≤ t) now
    → All (λ (t : ℕ). epoch ≤ t) later
    → g.worker_id ≢ h.worker_id
    → (next_id g now).1 ≡ id i
    → (next_id h later).1 ≡ id j
    → i ≢ j
workers_apart g h now later i j v w from from' apart e f same =
    let (t, s, m, p) = id-made g now i v from e in
    let (t', s', m', p') = id-made h later j w from' f in
    apart (omega (arith, p, p', same, m, m', v.0, w.0))
