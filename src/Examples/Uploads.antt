-- ===== src/Examples/Uploads.antt =====
-- Uploads in parts and the weighted balancer at concrete inputs.
use flower_web_infrastructur.Prelude.{
  ℕ, ◌<◌, ◌⊎◌, keep, ◌≡◌, refl, Bool, true, none, some, List, [], ◌∷◌, String, length, string_eq,
  nat_eq,
}
use flower_web_infrastructur.Prelude.Int.{pos}
use flower_web_infrastructur.Prelude.Dict
use flower_web_infrastructur.Storage.Upload.{UploadTask, initialized, completed, Bytes}
use flower_web_infrastructur.Storage.Upload.Store
use flower_web_infrastructur.Storage.Upload.Local
use flower_web_infrastructur.Storage.Upload.Local.{Directory, LocalPartStorage}
use flower_web_infrastructur.Storage.Upload.Service.{
  Config, value_error, ok, State, complete, initialize, upload_part, has_all,
}
use flower_web_infrastructur.Storage.Upload.Merged.{
  IsGone, IsStuck, complete-IsGone, complete-IsStuck,
}
use flower_web_infrastructur.Storage.Upload.Chunks.{IsFitting, IsNegative, initialize-IsFitting}
use flower_web_infrastructur.LoadBalance.Weighted.{ServiceInstance, Balancer, is_active, choose}
use flower_web_infrastructur.LoadBalance.Weighted.Sums.{IsValid}
use flower_web_infrastructur.LoadBalance.Weighted.Greatest.{Among, Chosen}
use flower_web_infrastructur.LoadBalance.Weighted.Balance.{choose-IsValid}

abbrev task_of_size : ℕ → UploadTask
task_of_size size = record {
  upload_id = "u1";
  file_name = "a.png";
  file_size = size;
  chunk_size = pos 2;
  total_chunks = 2;
  uploaded_parts = 2 ∷ 1 ∷ [];
  status = initialized;
  object_key = "";
  created_at = some 0;
}

abbrev both_parts : Directory
both_parts = record { parts = (2, 9 ∷ []) ∷ (1, 7 ∷ 8 ∷ []) ∷ []; mtime = 1 }

abbrev uploaded : ℕ → State
uploaded size = record {
  store = ("u1", task_of_size size) ∷ [];
  storage = record { directories = ("u1", both_parts) ∷ []; merged = [] };
}

abbrev digest : Bytes → String
digest b = "d41d"

abbrev finished_task : UploadTask
finished_task = record (task_of_size 3) { status = completed; object_key = "uploads/u1/a.png" }

abbrev finished : State
finished = record {
  store = ("u1", finished_task) ∷ [];
  storage = record { directories = []; merged = [] };
}

upload_completed : complete digest "u1" none (uploaded 3) ≡ (finished, ok "uploads/u1/a.png")
unfolding complete Store.list_uploaded_parts Store.complete Local.merge Local.remove_task
upload_completed = refl

complete-IsGone_example :
    (has_all 2 (Store.list_uploaded_parts "u1" (uploaded 3).store) ≡ true)
    × ((d : Directory) × (Dict.get "u1" (uploaded 3).storage.directories ≡ some d)
        × (length (Local.joined (Local.sort_parts d.parts)) ≡ 3))
    × (Dict.get "u1" finished.store ≡ some finished_task)
    × IsGone "u1" finished.storage
complete-IsGone_example =
    complete-IsGone digest "u1" none (uploaded 3) finished (task_of_size 3) "uploads/u1/a.png" refl
      refl upload_completed

abbrev left_over : State
left_over = record {
  store = ("u1", task_of_size 5) ∷ [];
  storage = record { directories = []; merged = [] };
}

size_wrong : complete digest "u1" none (uploaded 5) ≡ (left_over, value_error)
unfolding complete Store.list_uploaded_parts Store.complete Local.merge Local.remove_task
size_wrong = refl

all_marked : has_all 2 (Store.list_uploaded_parts "u1" (uploaded 5).store) ≡ true
unfolding Store.list_uploaded_parts
all_marked = refl

complete-IsStuck_example :
    IsGone "u1" left_over.storage
    × (Store.list_uploaded_parts "u1" left_over.store
        ≡ Store.list_uploaded_parts "u1" (uploaded 5).store)
    × IsStuck digest "u1" left_over (some "other")
complete-IsStuck_example =
    complete-IsStuck digest "u1" none (some "other") (uploaded 5) left_over (task_of_size 5) refl
      refl all_marked size_wrong

abbrev no_uploads : State
no_uploads = record { store = []; storage = record { directories = []; merged = [] } }

abbrev new_task : UploadTask
new_task = record {
  upload_id = "u2";
  file_name = "b.png";
  file_size = 5;
  chunk_size = pos 2;
  total_chunks = 3;
  uploaded_parts = [];
  status = initialized;
  object_key = "";
  created_at = some 4;
}

abbrev unlimited : Config
unlimited = record { chunk_size = none; max_upload_size = none }

abbrev any_name : String → Bool
any_name n = true

abbrev any_content : Bytes → Bool
any_content b = true

abbrev new_state : State
new_state = record { store = ("u2", new_task) ∷ []; storage = no_uploads.storage }

task_made :
    initialize any_name any_content unlimited "u2" 4 "b.png" 5 (some (pos 2)) no_uploads
    ≡ (new_state, ok new_task)
unfolding initialize Store.create
task_made = refl

initialize-IsFitting_example :
    (0 < 5)
    × (new_task.file_size ≡ 5)
    × (IsFitting new_task
        ⊎ (IsNegative unlimited (some (pos 2)) new_task
            × (upload_part any_name any_content 6 "u2" 1 (1 ∷ 2 ∷ []) new_state
                ≡ (new_state, value_error))))
initialize-IsFitting_example =
    initialize-IsFitting any_name any_content unlimited "u2" 4 "b.png" 5 (some (pos 2)) no_uploads
      new_state new_task 6 1 (1 ∷ 2 ∷ []) task_made

abbrev hosts : List ServiceInstance
hosts =
    record { host = "a"; weight = pos 5 }
    ∷ record { host = "b"; weight = pos 1 }
    ∷ record { host = "c"; weight = pos 0 }
    ∷ []

abbrev unused : Balancer
unused = record { current_weight = []; signature = [] }

choose-IsValid_example :
    (b' : Balancer) × (best : ServiceInstance) × (choose hosts unused ≡ some (b', best))
    × IsValid b'
    × Among best hosts
    × Chosen (keep is_active hosts) unused b' best
choose-IsValid_example =
    choose-IsValid hosts unused (record { balanced = refl; weighted = tt }) refl
