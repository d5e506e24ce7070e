-- ===== src/Storage/Upload/Merged.antt =====
-- What `complete` of multipart_upload_service.py leaves in the store and on disk.
use flower_web_infrastructur.Prelude.{
  ◌≡◌, ◌≢◌, ◌⊎◌, [], ◌==◌, not, refl, ◌∙◌, ap, subst, true, false, Option, none, some, String,
  length, string_eq, ==_refl, nat_beq, nat_beq_iff, Bool-cases, Option-cases, inl, inr,
}
use text.Mathlib.TextEquality.{eq_iff}
use flower_web_infrastructur.Prelude.Dict
use flower_web_infrastructur.Storage.Upload.{Bytes, UploadTask, completed, UploadStore}
use flower_web_infrastructur.Storage.Upload.Store
use flower_web_infrastructur.Storage.Upload.Local
use flower_web_infrastructur.Storage.Upload.Local.{LocalPartStorage, Directory}
use flower_web_infrastructur.Storage.Upload.Service.{
  Result, value_error, file_not_found, ok, State, is_completed, has_all, md5_differs, close,
  object_key_of, complete,
}

-- What there is on disk of a task: its parts and its merged file.
abbrev pub IsGone : String → LocalPartStorage → Type 0
IsGone id l = (Dict.get id l.directories ≡ none) × (Dict.get id l.merged ≡ none)

remove_task-IsGone : (id : String) (l : LocalPartStorage) → IsGone id (Local.remove_task id l)
unfolding Local.remove_task
remove_task-IsGone id l = (
  Dict.get-pop id id l.directories ∙ rw (==_refl id) refl,
  Dict.get-pop id id l.merged ∙ rw (==_refl id) refl,
)

-- How a call of `complete` ends, for a task that is not completed yet.
data Completion (id : String) (st : State) (task : UploadTask)
    : State × Result String → Type 0 where
  incomplete :
      has_all task.total_chunks (Store.list_uploaded_parts id st.store) ≡ false
      → Completion id st task (st, value_error)
  no_parts :
      has_all task.total_chunks (Store.list_uploaded_parts id st.store) ≡ true
      → Completion id st task (st, file_not_found)
  thrown_away :
      (l : LocalPartStorage)
      → has_all task.total_chunks (Store.list_uploaded_parts id st.store) ≡ true
      → IsGone id l
      → Completion id st task (record { store = st.store; storage = l }, value_error)
  finished :
      (key : String) (l : LocalPartStorage) (d : Directory)
      → has_all task.total_chunks (Store.list_uploaded_parts id st.store) ≡ true
      → Dict.get id st.storage.directories ≡ some d
      → length (Local.joined (Local.sort_parts d.parts)) ≡ task.file_size
      → IsGone id l
      → Completion id st task
          (record { store = Store.complete id key st.store; storage = l }, ok key)

module _ (md5 : Bytes → String) where
  close-Completion :
      (id : String) (st : State) (task : UploadTask) (key : String)
      → has_all task.total_chunks (Store.list_uploaded_parts id st.store) ≡ true
      → Completion id st task (close id task key st.store (Local.merge id st.storage))
  unfolding Local.merge
  close-Completion id st task key all = elim (Option-cases (Dict.get id st.storage.directories)) [
    | inl absent ↦ rw (absent, Local.merge) (no_parts all)
    | inr (d, there) ↦
        let l : LocalPartStorage = record {
          directories = Dict.pop id st.storage.directories;
          merged = Dict.put id (Local.joined (Local.sort_parts d.parts)) st.storage.merged;
        } in
        elim (Bool-cases
          (nat_beq (length (Local.joined (Local.sort_parts d.parts))) task.file_size)) [
            | inl same ↦
                rw (there, Local.merge)
                  (rw same (
                    finished key (Local.remove_task id l) d all there ((nat_beq_iff _ _).0 same)
                      (remove_task-IsGone id l)))
            | inr differs ↦
                rw (there, Local.merge)
                  (rw differs (thrown_away (Local.remove_task id l) all (remove_task-IsGone id l)))
          ]
  ]

  complete-Completion :
      (id : String) (expected : Option String) (st : State) (task : UploadTask)
      → Dict.get id st.store ≡ some task
      → is_completed task.status ≡ false
      → Completion id st task (complete md5 id expected st)
  unfolding complete
  complete-Completion id expected st task found fresh =
      rw (found, complete)
        (rw fresh
          (elim (Bool-cases (has_all task.total_chunks (Store.list_uploaded_parts id st.store))) [
            | inr some_missing ↦ rw some_missing (incomplete some_missing)
            | inl all ↦ rw all (elim (Bool-cases (md5_differs md5 expected id st)) [
              | inl differs ↦ rw differs (
                  thrown_away (Local.remove_task id st.storage) all
                    (remove_task-IsGone id st.storage))
              | inr same ↦ rw same (close-Completion id st task (object_key_of id task) all)
            ])
          ]))

  task_completed :
      (id key : String) (s : UploadStore) (task : UploadTask)
      → Dict.get id s ≡ some task
      → Dict.get id (Store.complete id key s)
        ≡ some (record task { status = completed; object_key = key })
  unfolding Store.complete
  task_completed id key s task found =
      rw (found, Store.complete)
        (Dict.get-put_self id (record task { status = completed; object_key = key }) s)

  ok_end :
      (id : String) (st st' : State) (task : UploadTask) (key : String) (x : State × Result String)
      → Dict.get id st.store ≡ some task
      → Completion id st task x
      → x ≡ (st', ok key)
      → (has_all task.total_chunks (Store.list_uploaded_parts id st.store) ≡ true)
        × ((d : Directory) × (Dict.get id st.storage.directories ≡ some d)
            × (length (Local.joined (Local.sort_parts d.parts)) ≡ task.file_size))
        × (Dict.get id st'.store ≡ some (record task { status = completed; object_key = key }))
        × IsGone id st'.storage
  ok_end id st st' task key x found (incomplete _) h = absurd (cc)
  ok_end id st st' task key x found (no_parts all) h = absurd (cc)
  ok_end id st st' task key x found (thrown_away l all gone) h = absurd (cc)
  ok_end id st st' task key x found (finished k l d all there size gone) h =
      let e : k ≡ key = cc in
      let f : ◌≡◌ {A = State} (record { store = Store.complete id k st.store; storage = l }) st' =
        ap (λ (y : State × Result String). y.0) h in
      (
        all,
        (d, there, size),
        subst
            (λ (u : State).
              Dict.get id u.store ≡ some (record task { status = completed; object_key = key }))
            f
            (subst
              (λ q.
                Dict.get id (Store.complete id k st.store)
                ≡ some (record task { status = completed; object_key = q }))
              e (task_completed id k st.store task found)),
        subst (λ (u : State). IsGone id u.storage) f gone,
      )

  -- A task completes only where all its parts are marked and the parts on disk have the file's size together. It
  -- is then marked as completed under the key that is given back, but neither the parts nor the merged file are on
  -- disk any more.
  pub complete-IsGone :
      (id : String) (expected : Option String) (st st' : State) (task : UploadTask) (key : String)
      → Dict.get id st.store ≡ some task
      → is_completed task.status ≡ false
      → complete md5 id expected st ≡ (st', ok key)
      → (has_all task.total_chunks (Store.list_uploaded_parts id st.store) ≡ true)
        × ((d : Directory) × (Dict.get id st.storage.directories ≡ some d)
            × (length (Local.joined (Local.sort_parts d.parts)) ≡ task.file_size))
        × (Dict.get id st'.store ≡ some (record task { status = completed; object_key = key }))
        × IsGone id st'.storage
  complete-IsGone id expected st st' task key found fresh h =
      ok_end id st st' task key (complete md5 id expected st) found
        (complete-Completion id expected st task found fresh) h

  -- How a call of `complete` ends that finds no parts on disk: without an MD5, or with the MD5 of no
  -- bytes, by a FileNotFoundError, and with any other MD5 by a ValueError.
  abbrev pub IsStuck : String → State → Option String → Type 0
  IsStuck id st none = (complete md5 id none st).1 ≡ file_not_found
  IsStuck id st (some expected) =
      ((md5 [] ≡ expected) × ((complete md5 id (some expected) st).1 ≡ file_not_found))
      ⊎ ((md5 [] ≢ expected) × ((complete md5 id (some expected) st).1 ≡ value_error))

  gone-md5_differs :
      (id expected : String) (st : State)
      → Dict.get id st.storage.directories ≡ none
      → md5_differs md5 (some expected) id st ≡ not (md5 [] == expected)
  unfolding Local.list_parts
  gone-md5_differs id expected st gone = rw (gone, Local.list_parts) refl

  gone-IsStuck :
      (id : String) (next : Option String) (st : State) (task : UploadTask)
      → Dict.get id st.store ≡ some task
      → is_completed task.status ≡ false
      → has_all task.total_chunks (Store.list_uploaded_parts id st.store) ≡ true
      → Dict.get id st.storage.directories ≡ none
      → IsStuck id st next
  unfolding complete Local.merge
  gone-IsStuck id none st task found fresh all gone =
      rw (found, complete) (rw fresh (rw all (rw (gone, Local.merge) refl)))
  gone-IsStuck id (some expected) st task found fresh all gone =
      let hit : (md5 [] == expected) ≡ true → md5_differs md5 (some expected) id st ≡ false =
        λ e. gone-md5_differs id expected st gone ∙ ap not e in
      let miss : (md5 [] == expected) ≡ false → md5_differs md5 (some expected) id st ≡ true =
        λ e. gone-md5_differs id expected st gone ∙ ap not e in
      elim (Bool-cases (md5 [] == expected)) [
        | inl same ↦ inl (
          (eq_iff (md5 []) expected).0 same,
          rw (found, complete) (rw fresh (rw all (rw (hit same) (rw (gone, Local.merge) refl)))),
        )
        | inr differs ↦ inr (
          (λ e. absurd (cc ((eq_iff (md5 []) expected).1 e, differs))),
          rw (found, complete) (rw fresh (rw all (rw (miss differs) refl))),
        )
      ]

  stuck_end :
      (id : String) (st : State) (task : UploadTask) (x : State × Result String)
      → Dict.get id st.store ≡ some task
      → is_completed task.status ≡ false
      → has_all task.total_chunks (Store.list_uploaded_parts id st.store) ≡ true
      → Completion id st task x
      → x.1 ≡ value_error
      → (x.0.store ≡ st.store) × IsGone id x.0.storage
  stuck_end id st task x found fresh all (incomplete some_missing) h = absurd (cc)
  stuck_end id st task x found fresh all (no_parts _) h = absurd (cc)
  stuck_end id st task x found fresh all (finished k l d _ there size gone) h = absurd (cc)
  stuck_end id st task x found fresh all (thrown_away l here gone) h = (refl, gone)

  -- A completion that fails although all parts are marked, by the size or the MD5 of the file, removes
  -- the parts and the merged file from the disk and leaves all parts marked, so the task still lists
  -- them all. Whatever MD5 the next call of `complete` gives, it fails too: without one, or with that
  -- of no bytes, by a FileNotFoundError, and otherwise by a ValueError.
  pub complete-IsStuck :
      (id : String) (expected next : Option String) (st st' : State) (task : UploadTask)
      → Dict.get id st.store ≡ some task
      → is_completed task.status ≡ false
      → has_all task.total_chunks (Store.list_uploaded_parts id st.store) ≡ true
      → complete md5 id expected st ≡ (st', value_error)
      → IsGone id st'.storage
        × (Store.list_uploaded_parts id st'.store ≡ Store.list_uploaded_parts id st.store)
        × IsStuck id st' next
  complete-IsStuck id expected next st st' task found fresh all h =
      let x = complete md5 id expected st in
      let e : ◌≡◌ {A = State} x.0 st' = ap (λ (y : State × Result String). y.0) h in
      let (same, gone) =
        stuck_end id st task x found fresh all (complete-Completion id expected st task found fresh)
          (ap (λ (y : State × Result String). y.1) h) in
      let same' : st'.store ≡ st.store = subst (λ (u : State). u.store ≡ st.store) e same in
      let gone' : IsGone id st'.storage = subst (λ (u : State). IsGone id u.storage) e gone in
      (
        gone',
        ap (Store.list_uploaded_parts id) same',
        gone-IsStuck id next st' task (rw same' found) fresh (rw same' all) gone'.0,
      )
