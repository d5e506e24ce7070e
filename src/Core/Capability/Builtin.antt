-- ===== src/Core/Capability/Builtin.antt =====
-- core/capability/builtin_capabilities.py: the capabilities of the framework, and that it can register them
-- again.
use flower_web_infrastructur.Prelude.{
  ◌≡◌, refl, sym, ◌∙◌, ap, false, some, List, [], ◌∷◌, String, ◌==◌, string_eq, Bool-cases, inl,
  inr, arith, map, All,
}
use flower_web_infrastructur.Prelude.Dict
use flower_web_infrastructur.Prelude.Dict.{Dict}
use flower_web_infrastructur.Core.Closure.{has}
use flower_web_infrastructur.Core.Capability.{Capability, Registry, Result, ok, register, name_of}

abbrev pub built_in : String → List String → List String → Capability
built_in name modules requires = record { name = name; modules = modules; requires = requires }

abbrev pub builtin_capabilities : List Capability
builtin_capabilities =
    built_in "user" ([]) ([])
    ∷ built_in "authn" ("web_infra.capabilities.security" ∷ []) ("user" ∷ [])
    ∷ built_in "authz" ("web_infra.capabilities.security" ∷ []) ("authn" ∷ [])
    ∷ built_in "pay" ("web_infra.capabilities.payment" ∷ []) ("authz" ∷ [])
    ∷ built_in "ai" ("web_infra.capabilities.ai" ∷ []) ([])
    ∷ built_in "mq" ("web_infra.capabilities.mq" ∷ []) ([])
    ∷ built_in "storage" ("web_infra.capabilities.storage" ∷ []) ([])
    ∷ built_in "registry" ("web_infra.capabilities.registry" ∷ []) ([])
    ∷ built_in "config" ("web_infra.infra.config" ∷ []) ([])
    ∷ built_in "db" ("web_infra.capabilities.db" ∷ []) ([])
    ∷ built_in "cache" ("web_infra.capabilities.cache" ∷ []) ([])
    ∷ built_in "search" ("web_infra.capabilities.search" ∷ []) ([])
    ∷ []

-- An error of one registration ends the loop.
abbrev pub register_all : List Capability → Registry → Result Registry
register_all [] reg = ok reg
register_all (c ∷ cs) reg = elim (register c reg) [ ok reg' ↦ register_all cs reg' | other ↦ other ]

unfoldable pub register_builtin_capabilities : Registry → Result Registry
register_builtin_capabilities reg = register_all builtin_capabilities reg

-- Capabilities that can be registered, under names of their own.
abbrev IsDistinct : List Capability → Type 0
IsDistinct [] = Unit
IsDistinct (c ∷ cs) =
    (has c.name (map name_of cs) ≡ false)
    × ((c.name == "") ≡ false)
    × (has c.name c.requires ≡ false)
    × IsDistinct cs

abbrev put_all : List Capability → Registry → Registry
put_all [] reg = reg
put_all (c ∷ cs) reg = put_all cs (Dict.put c.name c reg)

register_all-put_all :
    (cs : List Capability) (reg : Registry)
    → IsDistinct cs
    → register_all cs reg ≡ ok (put_all cs reg)
register_all-put_all [] reg d = refl
register_all-put_all (c ∷ cs) reg (a, b, e, d) =
    let one : register c reg ≡ ok (Dict.put c.name c reg) = unfold register in rw b (rw e refl) in
    rw (one, register_all) (register_all-put_all cs (Dict.put c.name c reg) d)

get-put_all :
    (k : String) (cs : List Capability) (reg : Registry)
    → has k (map name_of cs) ≡ false
    → Dict.get k (put_all cs reg) ≡ Dict.get k reg
get-put_all k [] reg h = refl
get-put_all k (c ∷ cs) reg h = elim (Bool-cases (c.name == k)) [
  | inl same ↦ absurd (ground (arith, same, h))
  | inr other ↦
      get-put_all k cs (Dict.put c.name c reg) (sym (rw other refl) ∙ h)
      ∙ Dict.get-put c.name k c reg
      ∙ rw other refl
]

-- What is there under its key is not written.
put-get :
    (k : String) (c : Capability) (reg : Registry)
    → Dict.get k reg ≡ some c
    → Dict.put k c reg ≡ reg
put-get k c [] h = absurd (cc)
put-get k c ((j, d) ∷ reg) h = elim (Bool-cases (j == k)) [
  | inl same ↦
      let q : some d ≡ some c = sym (rw same refl) ∙ h in
      let q' : d ≡ c = cc in rw same (ap (λ x. (j, x) ∷ reg) (sym q'))
  | inr other ↦ rw other (ap (λ r. (j, d) ∷ r) (put-get k c reg (sym (rw other refl) ∙ h)))
]

put_all-same :
    (cs : List Capability) (reg : Registry)
    → All (λ (c : Capability). Dict.get c.name reg ≡ some c) cs
    → put_all cs reg ≡ reg
put_all-same [] reg h = refl
put_all-same (c ∷ cs) reg (a, h) = ap (put_all cs) (put-get c.name c reg a) ∙ put_all-same cs reg h

put_all-there :
    (cs : List Capability) (reg : Registry)
    → IsDistinct cs
    → All (λ (c : Capability). Dict.get c.name (put_all cs reg) ≡ some c) cs
put_all-there [] reg d = tt
put_all-there (c ∷ cs) reg (a, b, e, d) = (
  get-put_all c.name cs (Dict.put c.name c reg) a ∙ Dict.get-put_self c.name c reg,
  put_all-there cs (Dict.put c.name c reg) d,
)

-- The built-in capabilities can be registered in any registry, and a second registration changes nothing.
pub register_builtin-again :
    (reg : Registry)
    → (reg' : Registry) × (register_builtin_capabilities reg ≡ ok reg')
      × (register_builtin_capabilities reg' ≡ ok reg')
unfolding register_builtin_capabilities
register_builtin-again reg =
    let cs = builtin_capabilities in
    let reg' = put_all cs reg in
    (
      reg',
      register_all-put_all cs reg builtin-IsDistinct,
      register_all-put_all cs reg' builtin-IsDistinct
          ∙ ap ok (put_all-same cs reg' (put_all-there cs reg builtin-IsDistinct)),
    )
  where
    builtin-IsDistinct : IsDistinct builtin_capabilities
    builtin-IsDistinct = (
      refl,
      refl,
      refl,
      (
        refl,
        refl,
        refl,
        (
          refl,
          refl,
          refl,
          (
            refl,
            refl,
            refl,
            (
              refl,
              refl,
              refl,
              (
                refl,
                refl,
                refl,
                (
                  refl,
                  refl,
                  refl,
                  (
                    refl,
                    refl,
                    refl,
                    (
                      refl,
                      refl,
                      refl,
                      (refl, refl, refl, (refl, refl, refl, (refl, refl, refl, tt))),
                    ),
                  ),
                ),
              ),
            ),
          ),
        ),
      ),
    )
