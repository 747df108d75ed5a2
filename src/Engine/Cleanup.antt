-- ===== src/Engine/Cleanup.antt =====
-- `TrainingEngine` of core/engine.py: the table of jobs and the directories of their workspaces.
use neuralese.Prelude.{
  ℕ, ◌+◌, Bool, true, false, ◌||◌, ◌&&◌, not, Option, none, some, List, [], ◌∷◌, String, string_eq,
  if◌then◌else◌, ltb, Dict, lookup, insert, erase, elem,
}
use neuralese.Engine.Jobs.{TrainingJob, is_terminal_state, request_stop}

-- `workspaces` holds the modification time of each directory under `jobs`, in the order of the names.
pub record TrainingEngine : Type 0 where
  pub jobs : Dict String TrainingJob
  pub workspaces : Dict String ℕ

-- `stop`
unfoldable pub stop : String → TrainingEngine → Bool × TrainingEngine
stop id engine = found (lookup id engine.jobs)
  where
    found : Option TrainingJob → Bool × TrainingEngine
    found none = (false, engine)
    found (some job) = (true, record engine { jobs = insert id (request_stop job) engine.jobs })

-- `value - since >= retention`, the two guards of `cleanup_jobs`; `max_age_seconds` is not negative.
unfoldable pub is_old : ℕ → ℕ → ℕ → Bool
is_old now retention since = not (ltb now (since + retention))

unfoldable pub is_stale : ℕ → ℕ → TrainingJob → Bool
is_stale now retention job = is_terminal_state job.state && is_old now retention job.updated_at

-- What the first loop leaves: the ids removed, the jobs kept, and the directories kept.
pub record Swept : Type 0 where
  pub removed : List String
  pub kept : Dict String TrainingJob
  pub dirs : Dict String ℕ

-- The first loop's body.
unfoldable pub sweep : Bool → String → TrainingJob → Swept → Swept
sweep true id job rest = record rest {
  removed = id ∷ rest.removed;
  dirs = erase job.workspace rest.dirs;
}
sweep false id job rest = record rest { kept = (id, job) ∷ rest.kept }

unfoldable pub remove_jobs : ℕ → ℕ → Dict String TrainingJob → Dict String ℕ → Swept
remove_jobs now retention [] dirs = record { removed = []; kept = []; dirs = dirs }
remove_jobs now retention ((id, job) ∷ jobs) dirs =
    sweep (is_stale now retention job) id job (remove_jobs now retention jobs dirs)

unfoldable pub tracked : Dict String TrainingJob → List String
tracked [] = []
tracked ((id, job) ∷ jobs) = job.workspace ∷ tracked jobs

-- The second loop: the directories removed, and those left.
unfoldable pub remove_orphans : ℕ → ℕ → List String → Dict String ℕ → List String × Dict String ℕ
remove_orphans now retention kept [] = ([], [])
remove_orphans now retention kept ((dir, mtime) ∷ dirs) =
    let (removed, left) = remove_orphans now retention kept dirs in
    if elem dir kept || not (is_old now retention mtime)
    then (removed, (dir, mtime) ∷ left)
    else (dir ∷ removed, left)

unfoldable pub cleanup_jobs : ℕ → ℕ → TrainingEngine → List String × List String × TrainingEngine
cleanup_jobs now retention engine =
    let swept = remove_jobs now retention engine.jobs engine.workspaces in
    let (orphans, dirs) = remove_orphans now retention (tracked swept.kept) swept.dirs in
    (swept.removed, orphans, record { jobs = swept.kept; workspaces = dirs })
