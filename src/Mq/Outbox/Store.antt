-- ===== src/Mq/Outbox/Store.antt =====
-- What the outbox store of in_memory_outbox_store.py keeps.
use flower_web_infrastructur.Prelude.{
  ℕ, ◌≡◌, refl, ◌∙◌, sym, subst, false, none, some, List, [], ◌∷◌, String, if◌then◌else◌, ◌==◌,
  string_eq, All, All-imp, arith, Bool-cases, Option-cases, inl, inr, ==_ne, ==_refl,
}
use text.Mathlib.TextEquality.{eq_iff}
use flower_web_infrastructur.Prelude.Dict
use flower_web_infrastructur.Prelude.Dict.{Dict, get-put, get-put_self}
use flower_web_infrastructur.Mq.Outbox.{OutboxRecord, OutboxStore, values, modify, append, appended}

-- Every record stands once, under its own number.
abbrev pub Keyed : OutboxStore → Type 0
Keyed [] = Unit
Keyed ((k, r) ∷ s) = (r.msg_id ≡ k) × (Dict.get k s ≡ none) × Keyed s

put-Keyed :
    (k : String) (r : OutboxRecord) (s : OutboxStore)
    → r.msg_id ≡ k
    → Keyed s
    → Keyed (Dict.put k r s)
put-Keyed k r [] e v = (e, refl, tt)
put-Keyed k r ((j, x) ∷ s) e v = elim (Bool-cases (j == k)) [
  | inl same ↦ rw same (e ∙ sym ((eq_iff j k).0 same), v.1, v.2)
  | inr other ↦
      rw other (v.0, rw get-put (ground (arith, eq_iff k j, eq_iff j k)), put-Keyed k r s e v.2)
]

pub append-Keyed :
    (uuid : String) (now : ℕ) (r : OutboxRecord) (s : OutboxStore)
    → Keyed s
    → Keyed (append uuid now r s).0
unfolding append
append-Keyed uuid now r s v = put-Keyed (appended uuid now r).msg_id (appended uuid now r) s refl v

get-msg_id :
    (k : String) (r : OutboxRecord) (s : OutboxStore)
    → Keyed s
    → Dict.get k s ≡ some r
    → r.msg_id ≡ k
get-msg_id k r [] v h = cc
get-msg_id k r ((j, x) ∷ s) v h = elim (Bool-cases (j == k)) [
  | inl same ↦
      let h' : some x ≡ some r = rw same at h in
      let e : x ≡ r = cc in rw (← e) (v.0 ∙ (eq_iff j k).0 same)
  | inr other ↦ get-msg_id k r s v.2 (rw other at h)
]

pub modify_found :
    (k : String) (f : OutboxRecord → OutboxRecord) (s : OutboxStore) (r : OutboxRecord)
    → Dict.get k s ≡ some r
    → modify k f s ≡ Dict.put k (f r) s
modify_found k f s r h = rw (h, modify) refl

pub modify_missing :
    (k : String) (f : OutboxRecord → OutboxRecord) (s : OutboxStore)
    → Dict.get k s ≡ none
    → modify k f s ≡ s
modify_missing k f s h = rw (h, modify) refl

pub modify-Keyed :
    (k : String) (f : OutboxRecord → OutboxRecord) (s : OutboxStore)
    → ((r : OutboxRecord) → (f r).msg_id ≡ r.msg_id)
    → Keyed s
    → Keyed (modify k f s)
modify-Keyed k f s same v = elim (Option-cases (Dict.get k s)) [
  | inl missing ↦ subst Keyed (sym (modify_missing k f s missing)) v
  | inr (r, found) ↦
      subst Keyed (sym (modify_found k f s r found))
        (put-Keyed k (f r) s (same r ∙ get-msg_id k r s v found) v)
]

-- A record that is found is not under a key that is missing.
differs :
    (k j : String) (s : OutboxStore) (x : OutboxRecord)
    → Dict.get k s ≡ none
    → Dict.get j s ≡ some x
    → (k == j) ≡ false
differs k j s x missing found =
    ==_ne k j (λ e. let m : Dict.get j s ≡ none = rw e at missing in let w = sym found ∙ m in cc)

-- In such a store each record is found under its number,
pub values-found : (s : OutboxStore) → Keyed s → All (λ r. Dict.get r.msg_id s ≡ some r) (values s)
values-found [] v = tt
values-found ((k, r) ∷ s) v = (
  rw (v.0, ==_refl k) refl,
  All-imp (λ x. Dict.get x.msg_id s ≡ some x) (λ x. Dict.get x.msg_id ((k, r) ∷ s) ≡ some x)
      (λ x h. rw (differs k x.msg_id s x v.1 h) h) (values s) (values-found s v.2),
)

-- and no two have the same number.
abbrev pub Distinct : List OutboxRecord → Type 0
Distinct [] = Unit
Distinct (r ∷ rs) = All (λ x. (r.msg_id == x.msg_id) ≡ false) rs × Distinct rs

pub values-Distinct : (s : OutboxStore) → Keyed s → Distinct (values s)
values-Distinct [] v = tt
values-Distinct ((k, r) ∷ s) v = (
  All-imp (λ x. Dict.get x.msg_id s ≡ some x) (λ x. (r.msg_id == x.msg_id) ≡ false)
      (λ x h. rw v.0 (differs k x.msg_id s x v.1 h)) (values s) (values-found s v.2),
  values-Distinct s v.2,
)

-- What a lookup finds after a change in place.
pub get-modify :
    (k j : String) (f : OutboxRecord → OutboxRecord) (s : OutboxStore)
    → Dict.get j (modify k f s)
      ≡ (if k == j then elim (Dict.get j s) [ none ↦ none | some r ↦ some (f r) ] else Dict.get j s)
get-modify k j f s = elim (Option-cases (Dict.get k s)) [
  | inl missing ↦ rw (modify_missing k f s missing) (ground (arith, eq_iff k j))
  | inr (r, found) ↦ rw (modify_found k f s r found, get-put) (ground (arith, eq_iff k j))
]
