-- ===== src/Security/Captcha.antt =====
-- capabilities/security/captcha_service.py over in_memory_captcha_store.py. Times are whole seconds. The
-- number and the code of a captcha are drawn outside, and `str.upper` is a parameter.
use flower_web_infrastructur.Prelude.{
  ℕ, ◌+◌, ◌≤◌, ◌<◌, ◌≡◌, ◌≢◌, refl, ap, ◌∙◌, Bool, false, ◌||◌, Option, none, some, [], ◌∷◌, String,
  leb, string_eq, ◌==◌, ==_refl, ==_ne, Bool-cases, inl, inr, arith, if◌then◌else◌,
}
use flower_web_infrastructur.Prelude.Dict
use flower_web_infrastructur.Prelude.Dict.{Dict, get-put_self, get-pop}

-- `_store`, each code with its `expire_at`.
abbrev CaptchaStore : Type 0
CaptchaStore = Dict String (String × ℕ)

-- `_purge_expired_locked`
abbrev purge_expired : ℕ → CaptchaStore → CaptchaStore
purge_expired now [] = []
purge_expired now ((k, (code, t)) ∷ d) =
    if leb t now then purge_expired now d else (k, (code, t)) ∷ purge_expired now d

-- The clock is read for the entry and again for the purge.
abbrev save : ℕ → ℕ → String → String → ℕ → CaptchaStore → CaptchaStore
save now purged_at captcha_id code ttl_seconds s =
    purge_expired purged_at (Dict.put captcha_id (code, now + ttl_seconds) s)

abbrev take_found : ℕ → String → Option (String × ℕ) → CaptchaStore → CaptchaStore × Option String
take_found now captcha_id none s = (s, none)
take_found now captcha_id (some (code, expire_at)) s =
    (Dict.pop captcha_id s, if leb expire_at now then none else some code)

abbrev take : ℕ → String → CaptchaStore → CaptchaStore × Option String
take now captcha_id s = take_found now captcha_id (Dict.get captcha_id s) s

-- What is drawn is given back beside the store.
abbrev generate : ℕ → ℕ → String → String → ℕ → CaptchaStore → CaptchaStore × (String × String)
generate now purged_at captcha_id code ttl_seconds s =
    (save now purged_at captcha_id code ttl_seconds s, (captcha_id, code))

module _ (upper : String → String) where
  abbrev compare_with : String → CaptchaStore × Option String → CaptchaStore × Bool
  compare_with code (s, none) = (s, false)
  compare_with code (s, some stored) = (s, upper stored == upper code)

  unfoldable verify : ℕ → String → String → CaptchaStore → CaptchaStore × Bool
  verify now captcha_id code s =
      if (captcha_id == "") || (code == "")
      then (s, false)
      else compare_with code (take now captcha_id s)

  compare_with-store :
      (code : String) (p : CaptchaStore × Option String) → (compare_with code p).0 ≡ p.0
  compare_with-store code (s, none) = refl
  compare_with-store code (s, some stored) = refl

  take_found-absent :
      (now : ℕ) (id code : String) (found : Option (String × ℕ)) (s : CaptchaStore)
      → Dict.get id s ≡ found
      → Dict.get id (compare_with code (take_found now id found s)).0 ≡ none
  take_found-absent now id code none s g = g
  take_found-absent now id code (some (c, t)) s g =
      ap (Dict.get id) (compare_with-store code (take_found now id (some (c, t)) s))
      ∙ (get-pop id id s ∙ rw (==_refl id) refl)

  verify-absent :
      (now : ℕ) (id code : String) (s : CaptchaStore)
      → Dict.get id s ≡ none
      → (verify now id code s).1 ≡ false
  unfolding verify
  verify-absent now id code s g = elim (Bool-cases ((id == "") || (code == ""))) [
    | inl empty ↦ rw (verify, empty) refl
    | inr full ↦ rw (verify, full, g) refl
  ]

  -- A captcha is checked once: after a check with a code that is not empty, right or wrong, no check of
  -- the same captcha succeeds.
  verify_once :
      (now later : ℕ) (id first second : String) (s : CaptchaStore)
      → first ≢ ""
      → (verify later id second (verify now id first s).0).1 ≡ false
  unfolding verify
  verify_once now later id first second s e = elim (Bool-cases (id == "")) [
    | inl empty ↦ rw (verify, empty) refl
    | inr full ↦ verify-absent later id second _ (
        rw (verify, full, ==_ne first "" e) (take_found-absent now id first (Dict.get id s) s refl))
  ]

  get-purge_expired :
      (now : ℕ) (id code : String) (t : ℕ) (d : CaptchaStore)
      → now < t
      → Dict.get id d ≡ some (code, t)
      → Dict.get id (purge_expired now d) ≡ some (code, t)
  get-purge_expired now id code t [] h g = cc
  get-purge_expired now id code t ((k, (c, u)) ∷ d) h g =
      ground (arith, get-purge_expired now id code t d)

  -- Within its time a captcha that was generated is accepted exactly for its code, whatever the case of the letters.
  generate-verify :
      (now purged_at later : ℕ) (id code given : String) (ttl : ℕ) (s : CaptchaStore)
      → id ≢ ""
      → given ≢ ""
      → purged_at ≤ later
      → later < now + ttl
      → (verify later id given (generate now purged_at id code ttl s).0).1
        ≡ (upper code == upper given)
  unfolding verify
  generate-verify now purged_at later id code given ttl s e f h l =
      let kept : Dict.get id (save now purged_at id code ttl s) ≡ some (code, now + ttl) =
        get-purge_expired purged_at id code (now + ttl) _ (omega arith)
          (get-put_self id (code, now + ttl) s) in
      let live : leb (now + ttl) later ≡ false = ground arith in
      rw (verify, ==_ne id "" e, ==_ne given "" f, kept, live) refl
