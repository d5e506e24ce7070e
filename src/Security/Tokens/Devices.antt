-- ===== src/Security/Tokens/Devices.antt =====
-- capabilities/security/in_memory_jwt_token_store.py: what a saved and a revoked token leave behind.
use text.Mathlib.TextLemmas.{append_cancel_left}
use flower_web_infrastructur.Prelude.{
  ℕ, ◌+◌, ◌≡◌, ◌≢◌, ◌||◌, ◌⊎◌, inl, inr, refl, sym, ap, subst, ◌∙◌, true, false, Option, none, some,
  List, [], ◌∷◌, String, leb, ltb, string_eq, pair_eq, ◌==◌, ==_refl, ==_ne, Bool-cases, arith,
}
use flower_web_infrastructur.Prelude.Dict
use flower_web_infrastructur.Prelude.Dict.{Dict, get-put, get-put_self, get-pop}
use flower_web_infrastructur.Security.Tokens.{
  TokenStore, Device, device_eq, key, composite, holds, add, ids_of, drop_expired, drop_stale,
  after_prune, prune_user, replace_old, save, exists, revoke, current_jti, with_ids, discard_in,
  expiry, prune_in, or_nothing,
}

key-inj : (u i j : String) → key u i ≡ key u j → i ≡ j
key-inj u i j h = append_cancel_left ":" i j (append_cancel_left u _ _ h)

exists-found :
    (later : ℕ) (u j m : String) (t : ℕ) (s : TokenStore)
    → Dict.get (key u j) s.states ≡ some (m, t)
    → (exists later u j s).1 ≡ ltb later t
unfolding exists
exists-found later u j m t s g = elim (Bool-cases (ltb later t)) [
  | inl live ↦ rw (g, exists, live) refl
  | inr late ↦ rw (g, exists, late) refl
]

exists-absent :
    (later : ℕ) (u j : String) (s : TokenStore)
    → Dict.get (key u j) s.states ≡ none
    → (exists later u j s).1 ≡ false
unfolding exists
exists-absent later u j s g = rw (g, exists) refl

save-exists :
    (now later : ℕ) (u j : String) (ttl : ℕ) (client device : Option String) (s : TokenStore)
    → (exists later u j (save now u j ttl client device s).0).1 ≡ ltb later (now + ttl)
unfolding save
save-exists now later u j ttl client device s =
    exists-found later u j j (now + ttl) _ (get-put_self (key u j) (j, now + ttl) _)

with_ids-kept :
    (u : String) (js : List String) (s : TokenStore)
    → ((with_ids u js s).states ≡ s.states) × ((with_ids u js s).device_map ≡ s.device_map)
with_ids-kept u [] s = (refl, refl)
with_ids-kept u (j ∷ js) s = (refl, refl)

discard_in-kept :
    (u j : String) (found : Option (List String)) (s : TokenStore)
    → ((discard_in u j found s).states ≡ s.states)
      × ((discard_in u j found s).device_map ≡ s.device_map)
discard_in-kept u j none s = (refl, refl)
discard_in-kept u j (some []) s = (refl, refl)
discard_in-kept u j (some (i ∷ js)) s = with_ids-kept u _ s

drop-absent :
    (k u : String) (now : ℕ) (js : List String) (d : Dict String (String × ℕ))
    → Dict.get k d ≡ none
    → Dict.get k (drop_expired u now js d).0 ≡ none
drop-absent k u now [] d h = h
drop-absent k u now (j ∷ js) d h = ground (
  arith,
  drop-absent k u now js d,
  drop-absent k u now js (Dict.pop (key u j) d),
  get-pop (key u j) k d,
)

drop-stale-get :
    (u j : String) (kept : List String) (c : Device) (d : Dict Device String)
    → holds j kept ≡ true
    → Dict.get c d ≡ some j
    → Dict.get c (drop_stale u kept d) ≡ some j
drop-stale-get u j kept c [] h g = g
drop-stale-get u j kept c ((c', i) ∷ d) h g =
    ground (arith, drop-stale-get u j kept c d, device_eq.beq_iff c' c)

drop-out :
    (u j : String) (now : ℕ) (js : List String) (d : Dict String (String × ℕ))
    → holds j js ≡ true
    → (Dict.get (key u j) (drop_expired u now js d).0 ≡ none)
      ⊎ (holds j (drop_expired u now js d).1 ≡ true)
drop-out u j now [] d h = absurd (cc)
drop-out u j now (i ∷ js) d h = elim (Bool-cases (i == j)) [
  | inl same ↦ elim (Bool-cases (leb (expiry (key u i) d) now)) [
    | inl late ↦ rw late (inl (drop-absent (key u j) u now js _ (popped same)))
    | inr fresh ↦ rw fresh (inr (rw same refl))
  ]
  | inr other ↦ elim (Bool-cases (leb (expiry (key u i) d) now)) [
    | inl late ↦ rw late (drop-out u j now js _ (sym (rw other refl) ∙ h))
    | inr fresh ↦ rw fresh (elim (drop-out u j now js d (sym (rw other refl) ∙ h)) [
      | inl gone ↦ inl gone
      | inr kept ↦ inr (rw other kept)
    ])
  ]
]
  where
    popped : (i == j) ≡ true → Dict.get (key u j) (Dict.pop (key u i) d) ≡ none
    popped same =
        let same_key : (key u i == key u j) ≡ true =
          (string_eq.beq_iff _ _).1 (ap (key u) ((string_eq.beq_iff i j).0 same)) in
        get-pop (key u i) (key u j) d ∙ rw same_key refl

-- A device's token that is not empty, kept in the user's set.
abbrev IsCurrent : String → Option String → Option String → String → TokenStore → Type 0
IsCurrent u client device j s =
    (Dict.get (composite u client device) s.device_map ≡ some j) × (holds j (ids_of u s) ≡ true)

holds-add : (j : String) (js : List String) → holds j (add j js) ≡ true
holds-add j js = ground (arith, ==_refl j)

save-IsCurrent :
    (now : ℕ) (u j : String) (ttl : ℕ) (client device : Option String) (s : TokenStore)
    → IsCurrent u client device j (save now u j ttl client device s).0
unfolding save
save-IsCurrent now u j ttl client device s =
    (get-put_self (composite u client device) j _, rw (get-put_self u (add j _) _) (holds-add j _))

after_prune-IsCurrent :
    (u j : String) (c : Device) (s : TokenStore) (p : Dict String (String × ℕ) × List String)
    → Dict.get c s.device_map ≡ some j
    → (Dict.get (key u j) p.0 ≡ none) ⊎ (holds j p.1 ≡ true)
    → (Dict.get (key u j) (after_prune u s p).states ≡ none)
      ⊎ (Dict.get c (after_prune u s p).device_map ≡ some j)
after_prune-IsCurrent u j c s (d, []) g (inl gone) = inl gone
after_prune-IsCurrent u j c s (d, []) g (inr kept) = absurd (cc)
after_prune-IsCurrent u j c s (d, k ∷ ks) g (inl gone) = inl gone
after_prune-IsCurrent u j c s (d, k ∷ ks) g (inr kept) =
    inr (drop-stale-get u j (k ∷ ks) c s.device_map kept g)

prune_in-IsCurrent :
    (now : ℕ) (u j : String) (c : Device) (found : Option (List String)) (s : TokenStore)
    → Dict.get c s.device_map ≡ some j
    → holds j (or_nothing found) ≡ true
    → (Dict.get (key u j) (prune_in u now found s).states ≡ none)
      ⊎ (Dict.get c (prune_in u now found s).device_map ≡ some j)
prune_in-IsCurrent now u j c none s g h = absurd (cc)
prune_in-IsCurrent now u j c (some []) s g h = absurd (cc)
prune_in-IsCurrent now u j c (some (i ∷ js)) s g h =
    after_prune-IsCurrent u j c s _ g (drop-out u j now (i ∷ js) s.states h)

replace_self :
    (u j new : String) (s : TokenStore)
    → j ≢ ""
    → j ≢ new
    → Dict.get (key u j) (replace_old u new (some j) s).states ≡ none
replace_self u j new s e n =
    rw (==_ne j "" e, ==_ne j new n)
      (get-pop (key u j) (key u j) s.states ∙ rw (==_refl (key u j)) refl)

replace-absent :
    (u j new : String) (old : Option String) (s : TokenStore)
    → (Dict.get (key u j) s.states ≡ none) ⊎ (old ≡ some j)
    → j ≢ ""
    → j ≢ new
    → Dict.get (key u j) (replace_old u new old s).states ≡ none
replace-absent u j new none s (inl gone) e n = gone
replace-absent u j new (some old) s (inl gone) e n =
    elim (Bool-cases ((old == "") || (old == new))) [
      | inl same ↦ rw same gone
      | inr other ↦ rw other (ground (arith, get-pop (key u old) (key u j) s.states, gone))
    ]
replace-absent u j new old s (inr q) e n =
    subst (λ o. Dict.get (key u j) (replace_old u new o s).states ≡ none) (sym q)
      (replace_self u j new s e n)

save-replaces :
    (now later : ℕ) (u j new : String) (ttl : ℕ) (client device : Option String) (s : TokenStore)
    → IsCurrent u client device j s
    → j ≢ ""
    → j ≢ new
    → (exists later u j (save now u new ttl client device s).0).1 ≡ false
unfolding save
save-replaces now later u j new ttl client device s (c, h) e n = exists-absent later u j _ (
    get-put (key u new) (key u j) _ _
    ∙ rw (==_ne (key u new) (key u j) (λ q. n (sym (key-inj u new j q)))) (
        replace-absent u j new _ (prune_user u now s)
          (prune_in-IsCurrent now u j (composite u client device) (Dict.get u s.user_jtis) s c h) e
          n))

-- Two tokens saved one after the other for one device of a user, the first not empty and not the
-- second: the first is not valid afterwards, at any time, and the second is valid exactly until its
-- time to live is over.
pub save-twice :
    (now now' later : ℕ) (u j new : String) (ttl ttl' : ℕ) (client device : Option String)
    (s : TokenStore)
    → j ≢ ""
    → j ≢ new
    → let s' = (save now' u new ttl' client device (save now u j ttl client device s).0).0 in
      ((exists later u j s').1 ≡ false) × ((exists later u new s').1 ≡ ltb later (now' + ttl'))
save-twice now now' later u j new ttl ttl' client device s e n = (
  save-replaces now' later u j new ttl' client device (save now u j ttl client device s).0
      (save-IsCurrent now u j ttl client device s) e n,
  save-exists now' later u new ttl' client device _,
)

revoke-states : (u j : String) (s : TokenStore) → Dict.get (key u j) (revoke u j s).0.states ≡ none
unfolding revoke
revoke-states u j s = at (Dict.get (key u j) s.states) refl
  where
    at :
        (found : Option (String × ℕ))
        → Dict.get (key u j) s.states ≡ found
        → Dict.get (key u j) (revoke u j s).0.states ≡ none
    at none g = rw (g, revoke) g
    at (some x) g =
        rw (g, revoke)
          (ap (Dict.get (key u j)) (discard_in-kept u j (Dict.get u s.user_jtis) _).0
            ∙ (get-pop (key u j) (key u j) s.states ∙ rw (==_refl (key u j)) refl))

revoke-device_map : (u j : String) (s : TokenStore) → (revoke u j s).0.device_map ≡ s.device_map
unfolding revoke
revoke-device_map u j s = at (Dict.get (key u j) s.states) refl
  where
    at :
        (found : Option (String × ℕ))
        → Dict.get (key u j) s.states ≡ found
        → (revoke u j s).0.device_map ≡ s.device_map
    at none g = rw (g, revoke) refl
    at (some x) g = rw (g, revoke) (discard_in-kept u j (Dict.get u s.user_jtis) _).1

-- A token that is revoked is not valid afterwards, and each device still has the token it had.
revoke-current_jti :
    (later : ℕ) (u j : String) (client device : Option String) (s : TokenStore)
    → ((exists later u j (revoke u j s).0).1 ≡ false)
      × (current_jti u client device (revoke u j s).0 ≡ current_jti u client device s)
unfolding current_jti
revoke-current_jti later u j client device s = (
  exists-absent later u j _ (revoke-states u j s),
  ap (Dict.get (composite u client device)) (revoke-device_map u j s),
)
