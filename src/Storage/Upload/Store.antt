-- ===== src/Storage/Upload/Store.antt =====
-- capabilities/storage/upload/in_memory_upload_store.py. The lock makes each method one step.
use flower_web_infrastructur.Prelude.{
  ℕ, Bool, not, none, some, List, [], ◌∷◌, String, length, if◌then◌else◌, leb, nat_beq, ◌==◌,
  string_eq, nat_eq, any, keep,
}
use flower_web_infrastructur.Prelude.Dict
use flower_web_infrastructur.Prelude.Dict.{Dict}
use flower_web_infrastructur.Storage.Upload.{UploadTask, completed, UploadStore, time_or}

-- `uuid` is the number that is drawn for a task that has none.
unfoldable pub create : String → ℕ → UploadTask → UploadStore → UploadStore × UploadTask
create uuid now task s =
    let id = if task.upload_id == "" then uuid else task.upload_id in
    let task' = record task { upload_id = id; created_at = some (time_or now task.created_at) } in
    (Dict.put id task' s, task')

abbrev pub has_part : ℕ → List ℕ → Bool
has_part n ns = any (λ (m : ℕ). nat_beq m n) ns

abbrev pub marked : ℕ → UploadTask → UploadTask
marked n task = record task {
  uploaded_parts =
      if has_part n task.uploaded_parts then task.uploaded_parts else n ∷ task.uploaded_parts;
}

unfoldable pub mark_part_uploaded : String → ℕ → UploadStore → UploadStore
mark_part_uploaded id n s = elim (Dict.get id s) [
  | none ↦ s
  | some task ↦ Dict.put id (marked n task) s
]

abbrev pub insert_part : ℕ → List ℕ → List ℕ
insert_part n [] = n ∷ []
insert_part n (m ∷ ms) = if leb n m then n ∷ m ∷ ms else m ∷ insert_part n ms

abbrev pub sort_numbers : List ℕ → List ℕ
sort_numbers [] = []
sort_numbers (n ∷ ns) = insert_part n (sort_numbers ns)

unfoldable pub list_uploaded_parts : String → UploadStore → List ℕ
list_uploaded_parts id s = elim (Dict.get id s) [
  | none ↦ []
  | some task ↦ sort_numbers task.uploaded_parts
]

unfoldable pub complete : String → String → UploadStore → UploadStore
complete id object_key s = elim (Dict.get id s) [
  | none ↦ s
  | some task ↦ Dict.put id (record task { status = completed; object_key = object_key }) s
]

unfoldable pub remove : String → UploadStore → UploadStore
remove id s = Dict.pop id s

abbrev pub is_recent : ℕ → ℕ → String × UploadTask → Bool
is_recent now before (id, task) = leb before (time_or now task.created_at)

-- The tasks that are left, and how many are not.
unfoldable pub cleanup : ℕ → ℕ → UploadStore → UploadStore × ℕ
cleanup now before s =
    let left = keep (is_recent now before) s in
    let gone = keep (λ (e : String × UploadTask). not (is_recent now before e)) s in
    (left, length gone)
