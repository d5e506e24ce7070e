-- ===== src/Storage/Upload.antt =====
-- capabilities/storage/upload: the task of upload_task.py. Store has the tasks, Local the parts on disk, Service the
-- service over both. A file is a list of bytes and a time is a number; the size of a
-- part may be negative.
pub mod Store
pub mod Local
pub mod Service
pub mod Merged
pub mod Chunks
use flower_web_infrastructur.Prelude.{
  ℕ, zero, suc, ◌+◌, Bool, true, false, not, Option, none, some, List, [], ◌∷◌, ◌++◌, String,
  length, if◌then◌else◌, ltb, leb, nat_beq, ◌==◌, string_eq, nat_eq, any, keep, map,
}
use flower_web_infrastructur.Prelude.Int.{ℤ}
use flower_web_infrastructur.Prelude.Dict
use flower_web_infrastructur.Prelude.Dict.{Dict}

abbrev pub Bytes : Type 0
Bytes = List ℕ

pub data UploadStatus : Type 0 where
  initialized completed failed : UploadStatus

pub record UploadTask : Type 0 where
  pub upload_id : String
  pub file_name : String
  pub file_size : ℕ
  pub chunk_size : ℤ
  pub total_chunks : ℕ
  pub uploaded_parts : List ℕ
  pub status : UploadStatus
  pub object_key : String
  pub created_at : Option ℕ

abbrev pub UploadStore : Type 0
UploadStore = Dict String UploadTask

abbrev pub time_or : ℕ → Option ℕ → ℕ
time_or now none = now
time_or now (some t) = t
