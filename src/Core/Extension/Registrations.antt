-- ===== src/Core/Extension/Registrations.antt =====
-- The registry of core/extension/extension_registry.py over any registrations and removals: what is
-- registered is not replaced unless the caller asks, and what is enabled is in order.
use flower_web_infrastructur.Prelude.{
  ◌≡◌, refl, sym, ◌∙◌, subst, ap, Bool, true, false, not, ◌&&◌, none, some, List, [], ◌∷◌, String,
  map, arith, Bool-cases, inl, inr, if◌then◌else◌, ◌==◌, string_eq, ==_refl,
}
use text.Mathlib.TextEquality.{eq_iff}
use flower_web_infrastructur.Prelude.Dict
use flower_web_infrastructur.Prelude.Dict.{Dict}
use flower_web_infrastructur.Core.Closure.{has, add}
use flower_web_infrastructur.Core.Closure.Total.{topological_closure-total, has-append}
use flower_web_infrastructur.Core.Closure.Order.{
  IsOrdered, names_onto, topological_closure-IsOrdered,
}
use flower_web_infrastructur.Core.Extension.{
  ExtensionPoint, ok, ExtensionValidation, name_of, requires_of, is_empty, distinct, register,
  unregister, validation, validate,
}

both_empty :
    {A B : Type 0} (xs : List A) (ys : List B)
    → (is_empty xs && is_empty ys) ≡ true
    → (ys ≡ []) × (xs ≡ [])
both_empty [] [] h = (refl, refl)
both_empty [] (y ∷ ys) h = absurd (cc)
both_empty (x ∷ xs) ys h = absurd (cc)

has-add : (x y : String) (ys : List String) → has x ys ≡ true → has x (add y ys) ≡ true
has-add x y ys h = ground (arith, h, has-append x y ys)

add_self : (x : String) (ys : List String) → has x (add x ys) ≡ true
add_self x ys = ground (arith, has-append x x ys, ==_refl x)

distinct-keeps :
    (x : String) (xs ys : List String) → has x ys ≡ true → has x (distinct xs ys) ≡ true
distinct-keeps x [] ys h = h
distinct-keeps x (y ∷ xs) ys h = distinct-keeps x xs (add y ys) (has-add x y ys h)

-- A set has each name that it is made from.
has-distinct : (x : String) (xs ys : List String) → has x xs ≡ true → has x (distinct xs ys) ≡ true
has-distinct x [] ys h = absurd (cc)
has-distinct x (y ∷ xs) ys h = elim (Bool-cases (y == x)) [
  | inl same ↦
      let at : y ≡ x = (eq_iff y x).0 same in
      distinct-keeps x xs (add y ys) (subst (λ z. has z (add y ys) ≡ true) at (add_self y ys))
  | inr other ↦ has-distinct x xs (add y ys) (sym (rw other refl) ∙ h)
]

module _ {H : Type 0} where
  -- The registries that registrations and removals make.
  pub data Registered : Dict String (ExtensionPoint H) → Type 0 where
    fresh : Registered []
    after :
        (e : ExtensionPoint H) (overwrite : Bool) (reg reg' : Dict String (ExtensionPoint H))
        → Registered reg
        → register e overwrite reg ≡ ok reg'
        → Registered reg'
    without :
        (name : String) (reg : Dict String (ExtensionPoint H))
        → Registered reg
        → Registered (unregister name reg)

  register-ok :
      (e : ExtensionPoint H) (overwrite : Bool) (reg reg' : Dict String (ExtensionPoint H))
      → register e overwrite reg ≡ ok reg'
      → (has e.name e.requires ≡ false)
        × ((Dict.contains e.name reg && not overwrite) ≡ false)
        × (Dict.put e.name e reg ≡ reg')
  unfolding register
  register-ok e overwrite reg reg' h = ground (arith, h)

  -- A registration that does not ask to overwrite, and passes, leaves what is registered and adds the new
  -- extension point, which no name had.
  pub register-keeps :
      (e : ExtensionPoint H) (reg reg' : Dict String (ExtensionPoint H))
      → register e false reg ≡ ok reg'
      → (Dict.get e.name reg ≡ none)
        × (Dict.get e.name reg' ≡ some e)
        × ((k : String) (x : ExtensionPoint H) → Dict.get k reg ≡ some x → Dict.get k reg' ≡ some x)
  register-keeps e reg reg' h =
      let (_, new, put) = register-ok e false reg reg' h in
      let absent = Dict.contains-get e.name reg (sym (plain (Dict.contains e.name reg)) ∙ new) in
      (
        absent,
        subst (λ r. Dict.get e.name r ≡ some e) put (Dict.get-put_self e.name e reg),
        λ k x g. subst (λ r. Dict.get k r ≡ some x) put (kept k x g absent),
      )
    where
      plain : (b : Bool) → (b && not false) ≡ b
      plain true = refl
      plain false = refl

      kept :
          (k : String) (x : ExtensionPoint H)
          → Dict.get k reg ≡ some x
          → Dict.get e.name reg ≡ none
          → Dict.get k (Dict.put e.name e reg) ≡ some x
      kept k x g absent = elim (Bool-cases (e.name == k)) [
        | inl same ↦ absurd (
            ground (arith, subst (λ n. Dict.get n reg ≡ none) ((eq_iff e.name k).0 same) absent, g))
        | inr other ↦ Dict.get-put e.name k e reg ∙ ground (arith, other, g)
      ]

  Registered-get :
      (reg : Dict String (ExtensionPoint H)) (k : String) (x : ExtensionPoint H)
      → Registered reg
      → Dict.get k reg ≡ some x
      → x.name ≡ k
  Registered-get reg k x fresh h = absurd (cc)
  Registered-get reg k x (after e overwrite old reg' made h') h =
      let (_, _, put) = register-ok e overwrite old reg' h' in
      let found : (if e.name == k then some e else Dict.get k old) ≡ some x =
        sym (Dict.get-put e.name k e old) ∙ subst (λ r. Dict.get k r ≡ some x) (sym put) h in
      elim (Bool-cases (e.name == k)) [
        | inl same ↦
            let eq : some e ≡ some x = sym (rw same refl) ∙ found in
            under k e x eq ((eq_iff e.name k).0 same)
        | inr other ↦ Registered-get old k x made (sym (rw other refl) ∙ found)
      ]
    where
      under : (k : String) (d c : ExtensionPoint H) → some d ≡ some c → d.name ≡ k → c.name ≡ k
      under k d c e n = let same : d ≡ c = cc in subst (λ (y : ExtensionPoint H). y.name ≡ k) same n
  Registered-get reg k x (without name old made) h = elim (Bool-cases (name == k)) [
    | inl same ↦ absurd (ground (arith, Dict.get-pop name k old, same, h))
    | inr other ↦ Registered-get old k x made (ground (arith, Dict.get-pop name k old, other, h))
  ]

  has-names_onto :
      (reg : Dict String (ExtensionPoint H)) (x : String) (known : List String)
      (es : List (ExtensionPoint H))
      → has x (names_onto name_of requires_of reg known es)
        ≡ (if has x (map name_of es) then true else has x known)
  has-names_onto reg x known [] = refl
  has-names_onto reg x known (e ∷ es) = ground (arith, has-names_onto reg x (e.name ∷ known) es)

  -- Where the validation of the enabled names passes, its chain names extension points of the registry,
  -- each once and after all that it requires, and every enabled name is in the chain.
  pub validate-IsOrdered :
      (enabled : List String) (reg : Dict String (ExtensionPoint H)) (v : ExtensionValidation)
      → Registered reg
      → validate enabled reg ≡ some v
      → v.ok ≡ true
      → ((es : List (ExtensionPoint H)) × (v.chain ≡ map name_of es)
          × IsOrdered name_of requires_of reg [] es)
        × ((x : String) → has x enabled ≡ true → has x v.chain ≡ true)
  unfolding validate
  validate-IsOrdered enabled reg v made h good =
      let (w, e) = topological_closure-total requires_of reg (distinct enabled []) in
      let same : validation w ≡ v = some-inj (sym (rw (e, validate) refl) ∙ h) in
      let clean =
        both_empty w.unknown w.circular (ap (λ (u : ExtensionValidation). u.ok) same ∙ good) in
      let (ordered, all) =
        topological_closure-IsOrdered name_of requires_of reg (distinct enabled []) w
          (λ k x. Registered-get reg k x made) e clean in
      let chain = ap (λ (u : ExtensionValidation). u.chain) same in
      (
        (w.chain, sym chain, ordered),
        λ x on.
            subst (λ c. has x c ≡ true) chain
              (in_chain x w.chain (all x (has-distinct x enabled [] on))),
      )
    where
      some-inj : {a b : ExtensionValidation} → some a ≡ some b → a ≡ b
      some-inj g = cc

      in_chain :
          (x : String) (es : List (ExtensionPoint H))
          → has x (names_onto name_of requires_of reg [] es) ≡ true
          → has x (map name_of es) ≡ true
      in_chain x es p = ground (arith, has-names_onto reg x [] es, p)
