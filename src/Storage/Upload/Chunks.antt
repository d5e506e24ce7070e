-- ===== src/Storage/Upload/Chunks.antt =====
-- The parts into which multipart_upload_service.py splits a file.
use flower_web_infrastructur.Prelude.Int.{ℤ, pos, negsuc, ltb_ℤ}
use flower_web_infrastructur.Prelude.{
  ◌⊎◌, true, ltb, length, ◌||◌, string_eq, ℕ, zero, suc, ◌+◌, ◌-◌, ◌*◌, ◌/◌, ◌%◌, max, ◌≤◌, ◌<◌,
  ◌≡◌, refl, sym, ◌∙◌, ap, subst, Bool, Option, none, some, String, nat_beq, Bool-cases,
  Option-cases, inl, inr, arith,
}
use native.Mathlib.Nat.{div-add-mod', mod-lt}
use flower_web_infrastructur.Prelude.Dict
use flower_web_infrastructur.Storage.Upload.{UploadTask, Bytes, UploadStore}
use flower_web_infrastructur.Storage.Upload.Store
use flower_web_infrastructur.Storage.Upload.Service.{
  Config, Result, value_error, ok, State, exceeds, chunk_of, chunks_of, task_of, created,
  or_default, initialize, upload_part, is_completed, large_file_threshold,
}

ceil-bounds :
    (size chunk q r : ℕ)
    → 0 < size
    → 0 < chunk
    → q * chunk + r ≡ size + chunk - 1
    → r < chunk
    → (size ≤ max 1 q * chunk) × ((max 1 q - 1) * chunk < size)
ceil-bounds size chunk zero r hs hc e h = absurd (omega (arith, hs, hc, e, h))
ceil-bounds size chunk (suc p) r hs hc e h =
    let m : max 1 (suc p) ≡ suc p = ground arith in
    let s : suc p * chunk ≡ p * chunk + chunk = omega arith in
    let t : (suc p - 1) * chunk ≡ p * chunk = ap (λ (k : ℕ). k * chunk) (omega arith) in
    rw m (omega (arith, s, e, h, hs, hc), omega (arith, s, t, e, h, hs, hc))

chunks_of-bounds :
    (size chunk : ℕ)
    → 0 < size
    → 0 < chunk
    → (size ≤ chunks_of size (pos chunk) * chunk)
      × ((chunks_of size (pos chunk) - 1) * chunk < size)
chunks_of-bounds size chunk hs hc =
    ceil-bounds size chunk ((size + chunk - 1) / chunk) ((size + chunk - 1) % chunk) hs hc
      (div-add-mod' (size + chunk - 1) chunk) (mod-lt (size + chunk - 1) hc)

-- The size of a part is positive, or it was negative where it was given: for the file, or as the default.
abbrev pub IsGiven : Config → Option ℤ → ℕ → Type 0
IsGiven c chunk n = (chunk ≡ some (negsuc n)) ⊎ ((chunk ≡ none) × (c.chunk_size ≡ some (negsuc n)))

abbrev pub Sign : Config → Option ℤ → ℤ → Type 0
Sign c chunk (pos n) = 0 < n
Sign c chunk (negsuc n) = IsGiven c chunk n

or_default-Sign : (c : Config) (o : Option ℤ) → c.chunk_size ≡ o → Sign c none (or_default o)
or_default-Sign c none e = omega arith
or_default-Sign c (some (pos zero)) e = omega arith
or_default-Sign c (some (pos (suc n))) e = omega arith
or_default-Sign c (some (negsuc n)) e = inr (refl, e)

chunk_of-Sign :
    (c : Config) (chunk : Option ℤ) (size : ℕ) (z : ℤ)
    → 0 < size
    → chunk_of c chunk size ≡ some z
    → Sign c chunk z
chunk_of-Sign c none size z hs h = elim (Bool-cases (ltb large_file_threshold size)) [
  | inl big ↦
      let e : some (or_default c.chunk_size) ≡ some z = sym (rw big refl) ∙ h in
      let e' : or_default c.chunk_size ≡ z = cc in
      subst (Sign c none) e' (or_default-Sign c c.chunk_size refl)
  | inr small ↦
      let e : some (pos size) ≡ some z = sym (rw small refl) ∙ h in
      let e' : pos size ≡ z = cc in subst (Sign c none) e' hs
]
chunk_of-Sign c (some (pos zero)) size z hs h = elim (Bool-cases (ltb large_file_threshold size)) [
  | inl big ↦ let e : ◌≡◌ {A = Option ℤ} none (some z) = sym (rw big refl) ∙ h in absurd (cc)
  | inr small ↦
      let e : some (pos size) ≡ some z = sym (rw small refl) ∙ h in
      let e' : pos size ≡ z = cc in subst (Sign c (some (pos 0))) e' hs
]
chunk_of-Sign c (some (pos (suc k))) size z hs h =
    let e : pos (suc k) ≡ z = cc in subst (Sign c (some (pos (suc k)))) e (omega arith)
chunk_of-Sign c (some (negsuc k)) size z hs h =
    let e : negsuc k ≡ z = cc in subst (Sign c (some (negsuc k))) e (inl refl)

-- Whether a task fits its file: the parts have a positive size and cover the file, and none is more than is wanted.
abbrev pub IsFitting : UploadTask → Type 0
IsFitting t =
    (n : ℕ) × (t.chunk_size ≡ pos n)
    × (0 < n)
    × (t.file_size ≤ t.total_chunks * n)
    × ((t.total_chunks - 1) * n < t.file_size)

-- The size of the parts is negative, as it was given.
abbrev pub IsNegative : Config → Option ℤ → UploadTask → Type 0
IsNegative c chunk t =
    (n : ℕ) × (t.chunk_size ≡ negsuc n) × IsGiven c chunk n × (t.total_chunks ≡ 1)

task_of-fits :
    (c : Config) (chunk : Option ℤ) (size : ℕ) (z : ℤ) (t : UploadTask)
    → 0 < size
    → Sign c chunk z
    → t.chunk_size ≡ z
    → t.file_size ≡ size
    → t.total_chunks ≡ chunks_of size z
    → IsFitting t ⊎ IsNegative c chunk t
task_of-fits c chunk size (pos n) t hs sign e f g =
    let (a, b) = chunks_of-bounds size n hs sign in inl (n, e, sign, rw (f, g) a, rw (f, g) b)
task_of-fits c chunk size (negsuc n) t hs sign e f g = inr (n, e, sign, g)

created-task :
    (uuid file_name : String) (now size : ℕ) (chunk : ℤ) (s st' : State) (task : UploadTask)
    → created (Store.create uuid now (task_of file_name size chunk) s.store) s.storage
      ≡ (st', ok task)
    → (Dict.get task.upload_id st'.store ≡ some task)
      × (task.chunk_size ≡ chunk)
      × (task.file_size ≡ size)
      × (task.total_chunks ≡ chunks_of size chunk)
unfolding Store.create
created-task uuid file_name now size chunk s st' task h =
    let made = (Store.create uuid now (task_of file_name size chunk) s.store).1 in
    let e : ◌≡◌ {A = Result UploadTask} (ok made) (ok task) =
      ap (λ (x : State × Result UploadTask). x.1) h in
    let e' : made ≡ task = cc in
    let kept : (Store.create uuid now (task_of file_name size chunk) s.store).0 ≡ st'.store =
      ap (λ (x : State × Result UploadTask). x.0.store) h in
    let there : Dict.get uuid st'.store ≡ some made =
      subst (λ (u : UploadStore). Dict.get uuid u ≡ some made) kept
        (Dict.get-put_self uuid made s.store) in
    subst
      (λ (t : UploadTask).
        (Dict.get t.upload_id st'.store ≡ some t)
        × (t.chunk_size ≡ chunk)
        × (t.file_size ≡ size)
        × (t.total_chunks ≡ chunks_of size chunk))
      e' (there, refl, refl, refl)

module _ (validate_extension : String → Bool) (validate_magic : Bytes → Bool) where
  upload_part-negative :
      (now part n : ℕ) (id : String) (content : Bytes) (st : State) (task : UploadTask)
      → Dict.get id st.store ≡ some task
      → task.chunk_size ≡ negsuc n
      → upload_part validate_extension validate_magic now id part content st ≡ (st, value_error)
  unfolding upload_part
  upload_part-negative now part n id content st task found e =
      rw (found, upload_part)
        (elim (Bool-cases (is_completed task.status)) [
          | inl done ↦ rw done refl
          | inr open' ↦ elim (Bool-cases (ltb part 1 || ltb task.total_chunks part)) [
            | inl outside ↦ rw (open', outside) refl
            | inr inside ↦
                let big : ltb_ℤ task.chunk_size (pos (length content)) ≡ true =
                  rw e (ground arith) in
                rw (open', inside, big) refl
          ]
        ])

  -- A task that is made has the size of its file, and either parts of a positive size that cover the
  -- file, and no part too many; or a negative size of the parts, where that was asked for or is the
  -- default: then it has one part, and every upload to it is refused, whatever part and content come.
  pub initialize-IsFitting :
      (c : Config) (uuid : String) (now : ℕ) (file_name : String) (size : ℕ) (chunk : Option ℤ)
      (st st' : State) (task : UploadTask) (later part : ℕ) (content : Bytes)
      → initialize validate_extension validate_magic c uuid now file_name size chunk st
        ≡ (st', ok task)
      → (0 < size)
        × (task.file_size ≡ size)
        × (IsFitting task
            ⊎ (IsNegative c chunk task
                × (upload_part validate_extension validate_magic later task.upload_id part content
                      st'
                    ≡ (st', value_error))))
  unfolding initialize
  initialize-IsFitting c uuid now file_name size chunk st st' task later part content h =
      elim (Bool-cases (nat_beq size 0)) [
        | inl z ↦ absurd (refused (sym (rw z refl) ∙ h))
        | inr positive ↦ elim (Bool-cases (exceeds c.max_upload_size size)) [
          | inl big ↦ absurd (refused (sym (rw positive (rw big refl)) ∙ h))
          | inr small ↦ elim (Bool-cases (validate_extension file_name)) [
            | inr wrong ↦ absurd (refused (sym (rw positive (rw small (rw wrong refl))) ∙ h))
            | inl right ↦ elim (Option-cases (chunk_of c chunk size)) [
              | inl whole ↦ absurd (
                  refused
                    (sym (rw positive (rw small (rw right (rw (whole, initialize) refl)))) ∙ h))
              | inr (z, size_of) ↦
                  let hs : 0 < size = ground (arith, positive) in
                  made z hs (chunk_of-Sign c chunk size z hs size_of) (
                    created-task uuid file_name now size z st st' task
                      (sym (rw positive (rw small (rw right (rw (size_of, initialize) refl)))) ∙ h))
            ]
          ]
        ]
      ]
    where
      refused : ◌≡◌ {A = State × Result UploadTask} (st, value_error) (st', ok task) → ⊥
      refused q = cc

      made :
          (z : ℤ)
          → 0 < size
          → Sign c chunk z
          → ((Dict.get task.upload_id st'.store ≡ some task)
              × (task.chunk_size ≡ z)
              × (task.file_size ≡ size)
              × (task.total_chunks ≡ chunks_of size z))
          → (0 < size)
            × (task.file_size ≡ size)
            × (IsFitting task
                ⊎ (IsNegative c chunk task
                    × (upload_part validate_extension validate_magic later task.upload_id part
                          content st'
                        ≡ (st', value_error))))
      made z hs sign (there, e, f, g) = (
        hs,
        f,
        (elim (task_of-fits c chunk size z task hs sign e f g) [
          | inl fits ↦ inl fits
          | inr (n, neg, given, one) ↦ inr (
            (n, neg, given, one),
            upload_part-negative later part n task.upload_id content st' task there neg,
          )
        ]),
      )
