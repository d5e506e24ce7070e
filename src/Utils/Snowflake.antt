-- ===== src/Utils/Snowflake.antt =====
-- infra/utils/snowflake_util.py: the generator `SnowflakeUtil`. What the clock reads, in
-- milliseconds, is given as the list of readings that a call makes, from the first on; a call whose
-- readings run out is one that still waits. The lock makes each call atomic. The three fields of a
-- number stand in separate bits, so the bitwise "or" of the source is written as a sum.
pub mod Order
use flower_web_infrastructur.Prelude.{
  ℕ, suc, subst, sym, ◌+◌, ◌-◌, ◌*◌, ◌%◌, ◌/◌, ◌≤◌, ◌<◌, ◌≡◌, ◌⊎◌, inl, inr, refl, Bool, true,
  false, Option, none, some, List, [], ◌∷◌, leb, ltb, nat_beq, All, All-imp, Option-cases, ◌≢◌,
  arith, if◌then◌else◌, Bool-cases,
}

-- `EPOCH`, and the limits of the fields of 10 and of 12 bits
abbrev pub epoch : ℕ
epoch = 1704067200000

abbrev pub max_worker_id : ℕ
max_worker_id = 1023

abbrev pub max_sequence : ℕ
max_sequence = 4095

-- `last_timestamp` is none where the source has -1.
pub record Generator : Type 0 where
  pub worker_id : ℕ
  pub sequence : ℕ
  pub last_timestamp : Option ℕ

unfoldable pub init : ℕ → Option Generator
init worker_id =
    if ltb max_worker_id worker_id
    then none
    else some (record { worker_id = worker_id; sequence = 0; last_timestamp = none })

unfoldable pub wait_next_millis : ℕ → List ℕ → Option ℕ
wait_next_millis last [] = none
wait_next_millis last (t ∷ ts) = if leb t last then wait_next_millis last ts else some t

pub data Reply : Type 0 where
  id : ℕ → Reply
  clock_error : Reply
  waiting : Reply

abbrev pub compose : ℕ → ℕ → ℕ → ℕ
compose timestamp worker_id sequence = (timestamp - epoch) * 4194304 + worker_id * 4096 + sequence

unfoldable pub issue : Generator → ℕ → ℕ → Generator × Reply
issue g timestamp sequence = (
  record g { sequence = sequence; last_timestamp = some timestamp },
  id (compose timestamp g.worker_id sequence),
)

unfoldable pub next_id : Generator → List ℕ → Generator × Reply
unfolding issue wait_next_millis
next_id g [] = (g, waiting)
next_id g (timestamp ∷ later) = elim g.last_timestamp [
  | none ↦ issue g timestamp 0
  | some last ↦
      if ltb timestamp last
      then (g, clock_error)
      else if nat_beq timestamp last
      then (if nat_beq ((g.sequence + 1) % 4096) 0
          then elim (wait_next_millis timestamp later) [
            | none ↦ (g, waiting)
            | some t ↦ issue g t 0
          ]
          else issue g timestamp ((g.sequence + 1) % 4096))
      else issue g timestamp 0
]

abbrev pub IsValid : Generator → Type 0
IsValid g =
    (g.worker_id ≤ max_worker_id)
    × (g.sequence ≤ max_sequence)
    × ((last : ℕ) → g.last_timestamp ≡ some last → epoch ≤ last)

-- The numbers below this one are behind the generator.
unfoldable pub next_free : Generator → ℕ
next_free g = elim g.last_timestamp [
  | none ↦ 0
  | some last ↦ compose last g.worker_id g.sequence + 1
]
