-- ===== src/StateMachine/Registry/Handled.antt =====
-- What the validation of state_machine_registry.py gives: a handler for each event of the table.
use flower_web_infrastructur.Prelude.{
  ◌≡◌, refl, sym, ◌∙◌, subst, Bool, true, false, some, List, [], ◌∷◌, ◌++◌, if◌then◌else◌, Eq, ◌==◌,
  keep, not, Bool-cases, Option-cases, inl, inr, arith,
}
use flower_web_infrastructur.Prelude.Dict
use flower_web_infrastructur.Prelude.Dict.{Dict}
use flower_web_infrastructur.StateMachine.{StateRouter, is_legal}
use flower_web_infrastructur.StateMachine.Registry.{keys, declared_events, missing_events}

-- `event in events`
abbrev is_in : {E : Type 0} ⦃ee : Eq E⦄ → E → List E → Bool
is_in e [] = false
is_in e (x ∷ xs) = if x == e then true else is_in e xs

is_in-append :
    {E : Type 0} ⦃ee : Eq E⦄ (e : E) (xs ys : List E)
    → is_in e (xs ++ ys) ≡ (if is_in e xs then true else is_in e ys)
is_in-append e [] ys = refl
is_in-append e (x ∷ xs) ys = ground (arith, is_in-append e xs ys)

is_in-keys :
    {S E : Type 0} ⦃ee : Eq E⦄ (e : E) (d : Dict E S)
    → Dict.contains e d ≡ true
    → is_in e (keys d) ≡ true
is_in-keys e [] h = h
is_in-keys e ((x, s) ∷ d) h = ground (arith, is_in-keys e d, h)

declared :
    {S E : Type 0} ⦃es : Eq S⦄ ⦃ee : Eq E⦄ (s : S) (e : E) (t : Dict E S)
    (config : Dict S (Dict E S))
    → Dict.get s config ≡ some t
    → Dict.contains e t ≡ true
    → is_in e (declared_events config) ≡ true
declared s e t [] g c = absurd (cc)
declared s e t ((x, u) ∷ config) g c = elim (Bool-cases (x == s)) [
  | inl same ↦
      let q : some u ≡ some t = sym (rw same refl) ∙ g in
      let q' : u ≡ t = cc in
      is_in-append e (keys u) (declared_events config)
      ∙ rw (is_in-keys e u (subst (λ d. Dict.contains e d ≡ true) (sym q') c)) refl
  | inr other ↦
      is_in-append e (keys u) (declared_events config)
      ∙ either (is_in e (keys u)) (declared s e t config (sym (rw other refl) ∙ g) c)
]
  where
    either : (b : Bool) {a : Bool} → a ≡ true → (if b then true else a) ≡ true
    either true h = refl
    either false h = h

none_kept :
    {E : Type 0} ⦃ee : Eq E⦄ (p : E → Bool) (e : E) (xs : List E)
    → keep p xs ≡ []
    → is_in e xs ≡ true
    → p e ≡ false
none_kept p e [] h m = absurd (cc)
none_kept ⦃ee⦄ p e (x ∷ xs) h m = ground (arith, ee.beq_iff x e, h, m, none_kept p e xs)

-- A router that passes the validation has a handler for each event that its table admits.
pub complete-handled :
    {S E V W X : Type 0} ⦃es : Eq S⦄ ⦃ee : Eq E⦄ (r : StateRouter S E V W X)
    → missing_events r ≡ []
    → (s : S) (event : E) → is_legal r s event ≡ true
    → Dict.contains event r.event_dispatcher ≡ true
complete-handled r h s event legal = elim (Option-cases (Dict.get s r.state_event_target_config)) [
  | inl absent ↦ absurd (ground (arith, absent, legal))
  | inr (t, found) ↦ not_false (Dict.contains event r.event_dispatcher) (
      none_kept (λ e. not (Dict.contains e r.event_dispatcher)) event
        (declared_events r.state_event_target_config) h
        (declared s event t r.state_event_target_config found
          (sym (rw (found, is_legal) refl) ∙ legal)))
]
  where
    not_false : (b : Bool) → not b ≡ false → b ≡ true
    not_false true q = refl
    not_false false q = absurd (cc)
