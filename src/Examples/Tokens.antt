-- ===== src/Examples/Tokens.antt =====
-- Two tokens of one device at concrete inputs.
use flower_web_infrastructur.Prelude.{
  ◌+◌, ◌≡◌, ◌≢◌, ap, true, false, ◌==◌, none, some, [], String, ltb, string_eq,
}
use flower_web_infrastructur.Security.Tokens.{TokenStore, save, exists}
use flower_web_infrastructur.Security.Tokens.Devices.{save-twice}

abbrev no_tokens : TokenStore
no_tokens = record { states = []; device_map = []; user_jtis = [] }

differ : ◌≢◌ {A = String} "t1" "t2"
differ = λ h. let q : true ≡ false = ap (λ x. x == "t1") h in absurd (cc)

nonempty : ◌≢◌ {A = String} "t1" ""
nonempty = λ h. absurd (cc)

save-twice_example :
    let s' =
      (save 5 "u" "t2" 60 (some "web") none (save 0 "u" "t1" 60 (some "web") none no_tokens).0).0 in
    ((exists 10 "u" "t1" s').1 ≡ false) × ((exists 10 "u" "t2" s').1 ≡ ltb 10 (5 + 60))
save-twice_example =
    save-twice 0 5 10 "u" "t1" "t2" 60 60 (some "web") none no_tokens nonempty differ
