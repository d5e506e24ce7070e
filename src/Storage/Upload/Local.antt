-- ===== src/Storage/Upload/Local.antt =====
-- capabilities/storage/upload/local_part_storage.py: a directory for each task, with the time at which an entry
-- was last made in it, and a merged file for each task.
use flower_web_infrastructur.Prelude.{
  ℕ, Bool, not, Option, none, some, [], ◌∷◌, ◌++◌, String, length, if◌then◌else◌, leb, string_eq,
  nat_eq, keep,
}
use flower_web_infrastructur.Prelude.Dict
use flower_web_infrastructur.Prelude.Dict.{Dict}
use flower_web_infrastructur.Storage.Upload.{Bytes}

pub record Directory : Type 0 where
  pub parts : Dict ℕ Bytes
  pub mtime : ℕ

-- The directories of the tasks, and the files `{upload_id}.merged`.
pub record LocalPartStorage : Type 0 where
  pub directories : Dict String Directory
  pub merged : Dict String Bytes

abbrev pub new_directory : ℕ → Option Directory → Directory
new_directory now none = record { parts = []; mtime = now }
new_directory now (some d) = d

abbrev pub written : ℕ → ℕ → Bytes → Directory → Directory
written now n content d = record {
  parts = Dict.put n content d.parts;
  mtime = if Dict.contains n d.parts then d.mtime else now;
}

unfoldable pub save_part : ℕ → String → ℕ → Bytes → LocalPartStorage → LocalPartStorage
save_part now id n content l = record l {
  directories =
      Dict.put id (written now n content (new_directory now (Dict.get id l.directories)))
        l.directories;
}

abbrev pub insert_sorted : ℕ × Bytes → Dict ℕ Bytes → Dict ℕ Bytes
insert_sorted (n, b) [] = (n, b) ∷ []
insert_sorted (n, b) ((m, c) ∷ d) =
    if leb n m then (n, b) ∷ (m, c) ∷ d else (m, c) ∷ insert_sorted (n, b) d

abbrev pub sort_parts : Dict ℕ Bytes → Dict ℕ Bytes
sort_parts [] = []
sort_parts (p ∷ d) = insert_sorted p (sort_parts d)

abbrev pub joined : Dict ℕ Bytes → Bytes
joined [] = []
joined ((n, b) ∷ d) = b ++ joined d

-- The parts that are there, in order: `list_parts` and `read_part`.
unfoldable pub list_parts : String → LocalPartStorage → Dict ℕ Bytes
list_parts id l = elim (Dict.get id l.directories) [ none ↦ [] | some d ↦ sort_parts d.parts ]

-- `none` is the FileNotFoundError of a directory that is not there.
unfoldable pub merge : String → LocalPartStorage → LocalPartStorage × Option ℕ
merge id l = elim (Dict.get id l.directories) [
  | none ↦ (l, none)
  | some d ↦
      let content = joined (sort_parts d.parts) in
      (
        record { directories = Dict.pop id l.directories; merged = Dict.put id content l.merged },
        some (length content),
      )
]

unfoldable pub remove_task : String → LocalPartStorage → LocalPartStorage
remove_task id l = record { directories = Dict.pop id l.directories; merged = Dict.pop id l.merged }

abbrev pub is_fresh : ℕ → String × Directory → Bool
is_fresh before (id, d) = leb before d.mtime

unfoldable pub cleanup_expired : ℕ → LocalPartStorage → LocalPartStorage × ℕ
cleanup_expired before l = (
  record l { directories = keep (is_fresh before) l.directories },
  length (keep (λ (e : String × Directory). not (is_fresh before e)) l.directories),
)
