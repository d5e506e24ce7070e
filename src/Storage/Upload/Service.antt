-- ===== src/Storage/Upload/Service.antt =====
-- capabilities/storage/upload/multipart_upload_service.py over the in-memory store and the local part storage. The
-- validator, which the service is given, and the MD5 of the standard library are parameters; each call is one
-- step. A file size or limit under zero is taken as zero, which refuses the same files; the size of a part may be
-- negative, as the source does not check it.
use flower_web_infrastructur.Prelude.{
  ℕ, zero, suc, ◌+◌, ◌-◌, ◌/◌, max, Bool, true, false, not, ◌&&◌, ◌||◌, Option, none, some, List,
  [], String, length, if◌then◌else◌, ltb, nat_beq, ◌==◌, string_eq,
}
use Prim.Native.String.{◌++◌ as join}
use flower_web_infrastructur.Prelude.Int.{ℤ, pos, negsuc, ltb_ℤ}
use flower_web_infrastructur.Prelude.Dict
use flower_web_infrastructur.Storage.Upload.{
  Bytes, UploadTask, UploadStatus, initialized, completed, UploadStore,
}
use flower_web_infrastructur.Storage.Upload.Store
use flower_web_infrastructur.Storage.Upload.Local
use flower_web_infrastructur.Storage.Upload.Local.{LocalPartStorage}

pub data Result (T : Type 0) : Type 0 where
  value_error : Result T
  file_not_found : Result T
  ok : T → Result T

pub record State : Type 0 where
  pub store : UploadStore
  pub storage : LocalPartStorage

-- LARGE_FILE_THRESHOLD and DEFAULT_CHUNK_SIZE
abbrev pub large_file_threshold : ℕ
large_file_threshold = 52428800

abbrev pub default_chunk_size : ℕ
default_chunk_size = 5242880

-- `default_chunk_size or DEFAULT_CHUNK_SIZE`
abbrev pub or_default : Option ℤ → ℤ
or_default none = pos default_chunk_size
or_default (some (pos zero)) = pos default_chunk_size
or_default (some (pos (suc n))) = pos (suc n)
or_default (some (negsuc n)) = negsuc n

-- The settings of the service; `none` is no upper limit.
pub record Config : Type 0 where
  pub chunk_size : Option ℤ
  pub max_upload_size : Option ℕ

abbrev pub exceeds : Option ℕ → ℕ → Bool
exceeds none size = false
exceeds (some limit) size = ltb limit size

-- The size of a part, or `none` where a large file is not to be split.
abbrev pub chunk_of : Config → Option ℤ → ℕ → Option ℤ
chunk_of c none size =
    some (if ltb large_file_threshold size then or_default c.chunk_size else pos size)
chunk_of c (some (pos zero)) size = if ltb large_file_threshold size then none else some (pos size)
chunk_of c (some (pos (suc n))) size = some (pos (suc n))
chunk_of c (some (negsuc n)) size = some (negsuc n)

-- `max(1, math.ceil(file_size / chunk_size))`; the division of floats rounds nothing away for sizes under 2^52.
-- For a negative size of the parts the quotient is not positive, so one part is left.
abbrev pub chunks_of : ℕ → ℤ → ℕ
chunks_of size (pos chunk) = max 1 ((size + chunk - 1) / chunk)
chunks_of size (negsuc n) = 1

abbrev pub task_of : String → ℕ → ℤ → UploadTask
task_of file_name size chunk = record {
  upload_id = "";
  file_name = file_name;
  file_size = size;
  chunk_size = chunk;
  total_chunks = chunks_of size chunk;
  uploaded_parts = [];
  status = initialized;
  object_key = "";
  created_at = none;
}

abbrev pub is_completed : UploadStatus → Bool
is_completed completed = true
is_completed _ = false

-- `set(range(1, n + 1)) <= uploaded`
abbrev pub has_all : ℕ → List ℕ → Bool
has_all zero uploaded = true
has_all (suc n) uploaded = if Store.has_part (suc n) uploaded then has_all n uploaded else false

abbrev pub created : UploadStore × UploadTask → LocalPartStorage → State × Result UploadTask
created (s, task) l = (record { store = s; storage = l }, ok task)

module _ (validate_extension : String → Bool) (validate_magic : Bytes → Bool) where
  unfoldable pub initialize :
      Config → String → ℕ → String → ℕ → Option ℤ → State → State × Result UploadTask
  initialize c uuid now file_name size chunk st =
      if nat_beq size 0
      then (st, value_error)
      else if exceeds c.max_upload_size size
      then (st, value_error)
      else if not (validate_extension file_name)
      then (st, value_error)
      else elim (chunk_of c chunk size) [
        | none ↦ (st, value_error)
        | some n ↦ created (Store.create uuid now (task_of file_name size n) st.store) st.storage
      ]

  unfoldable pub upload_part : ℕ → String → ℕ → Bytes → State → State × Result (Unit {0})
  upload_part now id n content st = elim (Dict.get id st.store) [
    | none ↦ (st, value_error)
    | some task ↦
        if is_completed task.status
        then (st, value_error)
        else if ltb n 1 || ltb task.total_chunks n
        then (st, value_error)
        else if ltb_ℤ task.chunk_size (pos (length content))
        then (st, value_error)
        else if nat_beq n 1 && not (validate_magic content)
        then (st, value_error)
        else (
          record {
            store = Store.mark_part_uploaded id n st.store;
            storage = Local.save_part now id n content st.storage;
          },
          ok tt,
        )
  ]

unfoldable pub list_uploaded_parts : String → State → Result (List ℕ)
list_uploaded_parts id st = elim (Dict.get id st.store) [
  | none ↦ value_error
  | some task ↦ ok (Store.list_uploaded_parts id st.store)
]

-- The end of `complete`, once the parts are merged.
abbrev pub close :
    String → UploadTask → String → UploadStore → LocalPartStorage × Option ℕ → State × Result String
close id task object_key s (l, none) = (record { store = s; storage = l }, file_not_found)
close id task object_key s (l, some size) =
    if nat_beq size task.file_size
    then (
      record { store = Store.complete id object_key s; storage = Local.remove_task id l },
      ok object_key,
    )
    else (record { store = s; storage = Local.remove_task id l }, value_error)

abbrev pub object_key_of : String → UploadTask → String
object_key_of id task = join "uploads/" (join id (join "/" task.file_name))

module _ (md5 : Bytes → String) where
  abbrev pub merged_md5 : String → State → String
  merged_md5 id st = md5 (Local.joined (Local.list_parts id st.storage))

  abbrev pub md5_differs : Option String → String → State → Bool
  md5_differs none id st = false
  md5_differs (some expected) id st = not (merged_md5 id st == expected)

  unfoldable pub complete : String → Option String → State → State × Result String
  complete id expected_md5 st = elim (Dict.get id st.store) [
    | none ↦ (st, value_error)
    | some task ↦
        if is_completed task.status
        then (st, ok task.object_key)
        else if not (has_all task.total_chunks (Store.list_uploaded_parts id st.store))
        then (st, value_error)
        else if md5_differs expected_md5 id st
        then (record st { storage = Local.remove_task id st.storage }, value_error)
        else close id task (object_key_of id task) st.store (Local.merge id st.storage)
  ]

unfoldable pub cancel : String → State → State × Result (Unit {0})
cancel id st = elim (Dict.get id st.store) [
  | none ↦ (st, value_error)
  | some task ↦ (
    record { store = Store.remove id st.store; storage = Local.remove_task id st.storage },
    ok tt,
  )
]

-- `before` is ttl_hours before `now`.
unfoldable pub cleanup_stale : ℕ → ℕ → State → State × ℕ
cleanup_stale now before st =
    let (s, n) = Store.cleanup now before st.store in
    let (l, k) = Local.cleanup_expired before st.storage in
    (record { store = s; storage = l }, n + k)
