-- ===== src/Core/Capability/Resolution.antt =====
-- What a resolution of core/capability/capability_registry.py promises: each capability after all
-- that it requires, the target last, and a result exactly where the validation passes.
use flower_web_infrastructur.Prelude.{
  ◌≡◌, refl, sym, ◌∙◌, subst, true, false, ◌&&◌, some, List, [], ◌∷◌, ◌++◌, String, arith,
  Bool-cases, inl, inr, if◌then◌else◌, ◌==◌, string_eq, ◌↔◌,
}
use text.Mathlib.TextEquality.{eq_iff}
use flower_web_infrastructur.Prelude.Dict
use flower_web_infrastructur.Core.Closure.{has, Walk, topological_closure}
use flower_web_infrastructur.Core.Closure.Total.{topological_closure-total}
use flower_web_infrastructur.Core.Closure.Clean.{IsClean}
use flower_web_infrastructur.Core.Closure.Order.{
  IsOrdered, topological_closure-IsOrdered, topological_closure-last,
}
use flower_web_infrastructur.Core.Capability.{
  Capability, Registry, Result, ok, CapabilityResolution, CapabilityValidation, name_of,
  requires_of, is_empty, modules_of, register, resolution, resolve, validation, validate,
}

-- The registries that registrations make.
pub data Registered : Registry → Type 0 where
  fresh : Registered []
  after :
      (c : Capability) (reg reg' : Registry)
      → Registered reg
      → register c reg ≡ ok reg'
      → Registered reg'

-- What a registration that passes makes of the registry.
register-ok :
    (c : Capability) (reg reg' : Registry)
    → register c reg ≡ ok reg'
    → (has c.name c.requires ≡ false) × (Dict.put c.name c reg ≡ reg')
unfolding register
register-ok c reg reg' h = ground (arith, h)

under :
    (k : String) (d c : Capability)
    → some d ≡ some c
    → d.name ≡ k
    → has d.name d.requires ≡ false
    → (c.name ≡ k) × (has c.name c.requires ≡ false)
under k d c e n free =
    let same : d ≡ c = cc in
    subst (λ (x : Capability). (x.name ≡ k) × (has x.name x.requires ≡ false)) same (n, free)

-- In a registry that registrations make, each capability stands under its own name and does not
-- require itself.
pub Registered-get :
    (reg : Registry) (k : String) (c : Capability)
    → Registered reg
    → Dict.get k reg ≡ some c
    → (c.name ≡ k) × (has c.name c.requires ≡ false)
Registered-get reg k c fresh h = absurd (cc)
Registered-get reg k c (after d old reg' made h') h =
    let (free, put) = register-ok d old reg' h' in
    let found : (if d.name == k then some d else Dict.get k old) ≡ some c =
      sym (Dict.get-put d.name k d old) ∙ subst (λ r. Dict.get k r ≡ some c) (sym put) h in
    elim (Bool-cases (d.name == k)) [
      | inl same ↦
          let e : some d ≡ some c = sym (rw same refl) ∙ found in
          under k d c e ((eq_iff d.name k).0 same) free
      | inr other ↦ Registered-get old k c made (sym (rw other refl) ∙ found)
    ]

is_empty-nil : {A : Type 0} (xs : List A) → is_empty xs ≡ true → xs ≡ []
is_empty-nil [] h = refl
is_empty-nil (x ∷ xs) h = absurd (cc)

-- A walk gives a resolution exactly where it is clean.
resolution-ok :
    (name : String) (w : Walk Capability) (r : CapabilityResolution)
    → resolution name w ≡ ok r
    → IsClean w × (w.chain ≡ r.chain)
resolution-ok name w r h = elim (Bool-cases (is_empty w.unknown)) [
  | inr u ↦ absurd (ground (arith, u, h))
  | inl u ↦ elim (Bool-cases (is_empty w.circular)) [
    | inr c ↦ absurd (ground (arith, u, c, h))
    | inl c ↦ ((is_empty-nil w.circular c, is_empty-nil w.unknown u), ground (arith, u, c, h))
  ]
]

resolve-ok :
    (name : String) (reg : Registry) (r : CapabilityResolution)
    → resolve name reg ≡ some (ok r)
    → (w : Walk Capability) × (topological_closure requires_of reg (name ∷ []) ≡ some w)
      × IsClean w
      × (w.chain ≡ r.chain)
unfolding resolve
resolve-ok name reg r h =
    let (w, e) = topological_closure-total requires_of reg (name ∷ []) in
    let f : resolution name w ≡ ok r = some-inj (sym (rw (e, resolve) refl) ∙ h) in
    let (clean, same) = resolution-ok name w r f in (w, e, clean, same)
  where
    some-inj : {a b : Result CapabilityResolution} → some a ≡ some b → a ≡ b
    some-inj g = cc

-- A resolution over a registry that registrations made lists capabilities of the registry, each once
-- and after all that it requires, and ends with the one that was asked for.
pub resolve-IsOrdered :
    (name : String) (reg : Registry) (r : CapabilityResolution)
    → Registered reg
    → resolve name reg ≡ some (ok r)
    → IsOrdered name_of requires_of reg [] r.chain
      × ((before : List Capability) × (c : Capability) × (r.chain ≡ before ++ c ∷ [])
          × (Dict.get name reg ≡ some c))
resolve-IsOrdered name reg r made h =
    let (w, e, clean, same) = resolve-ok name reg r h in
    let named = λ (k : String) (c : Capability) (g : Dict.get k reg ≡ some c).
      (Registered-get reg k c made g).0 in
    let (before, c, at_end, found) =
      topological_closure-last name_of requires_of reg name w e clean in
    (
      subst (IsOrdered name_of requires_of reg []) same
          (topological_closure-IsOrdered name_of requires_of reg (name ∷ []) w named e clean).0,
      (before, c, sym same ∙ at_end, found),
    )

-- `validate` of one name ends, and passes exactly where `resolve` gives a result.
pub validate-resolve :
    (name : String) (reg : Registry)
    → (v : CapabilityValidation) × (validate (name ∷ []) reg ≡ some v)
      × ((v.ok ≡ true) ↔ ((r : CapabilityResolution) × (resolve name reg ≡ some (ok r))))
unfolding validate resolve
validate-resolve name reg =
    let (w, e) = topological_closure-total requires_of reg (name ∷ []) in
    (validation w, rw (e, validate) refl, (passes w e, λ (r, h). refused w e r h))
  where
    passes :
        (w : Walk Capability)
        → topological_closure requires_of reg (name ∷ []) ≡ some w
        → (is_empty w.unknown && is_empty w.circular) ≡ true
        → (r : CapabilityResolution) × (resolve name reg ≡ some (ok r))
    passes w e good = (
      record { name = name; chain = w.chain; modules = modules_of w.chain [] },
      ground (arith, e, good),
    )

    refused :
        (w : Walk Capability)
        → topological_closure requires_of reg (name ∷ []) ≡ some w
        → (r : CapabilityResolution) → resolve name reg ≡ some (ok r)
        → (is_empty w.unknown && is_empty w.circular) ≡ true
    refused w e r h = ground (arith, e, h)
