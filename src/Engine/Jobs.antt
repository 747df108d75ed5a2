-- ===== src/Engine/Jobs.antt =====
-- core/engine.py, core/jobs.py and core/events.py of runtime/onnx-training/code-snapshot/onprem_runtime.
-- The trainer, the file system's `is_file` and the clock are parameters or arguments. The extracted
-- bundle, which the engine only hands to the trainer, is left out.
use neuralese.Prelude.{
  ℕ, Bool, true, false, ◌||◌, not, Option, none, some, List, [], ◌∷◌, ◌++◌, String, string_eq,
  bytes_eq, ◌==◌, if◌then◌else◌, Result, ok, err,
}
use mathlib.Core.Option
use neuralese.Python.Values.{Value, Fields, field, end, text, get?, truthy}

pub data JobState : Type 0 where
  queued running stopped completed failed : JobState

-- `TrainingEvent.phase`: the engine's own phases, and the trainer's.
pub data Phase : Type 0 where
  queued stopped completed failed : Phase
  training : String → Phase

-- `phase in {"completed", "failed", "stopped"}`
unfoldable pub is_terminal : Phase → Bool
is_terminal stopped = true
is_terminal completed = true
is_terminal failed = true
is_terminal _ = false

-- `state in terminal_states`
unfoldable pub is_terminal_state : JobState → Bool
is_terminal_state stopped = true
is_terminal_state completed = true
is_terminal_state failed = true
is_terminal_state _ = false

pub record TrainingEvent : Type 0 where
  pub job_id : String
  pub phase : Phase
  pub event_data : Fields

pub record TrainingJob : Type 0 where
  pub job_id : String
  pub name : List ℕ
  pub workspace : String
  pub state : JobState
  pub created_at : ℕ
  pub updated_at : ℕ
  pub latest : Fields
  pub snapshot_path : Option (List ℕ)
  pub stop_event : Bool
  pub queue : List TrainingEvent

-- `TrainingJob.emit`
unfoldable pub emit : ℕ → TrainingEvent → TrainingJob → TrainingJob
emit now event job = record job {
  updated_at = now;
  latest = event.event_data;
  queue = job.queue ++ event ∷ [];
}

-- `create_job`, with the id that `uuid4` draws and its directory
unfoldable pub create_job : String → List ℕ → String → ℕ → ℕ → TrainingJob
create_job id name workspace created updated = record {
  job_id = id;
  name = name;
  workspace = workspace;
  state = queued;
  created_at = created;
  updated_at = updated;
  latest = end;
  snapshot_path = none;
  stop_event = false;
  queue = [];
}

-- Why a run fails: what the trainer or `Path` raises, and the two errors of `_run_job`.
pub data RunError : Type 0 where
  raised : List ℕ → RunError
  no_snapshot : RunError
  missing_snapshot : List ℕ → RunError

-- `value == word`, for a word
unfoldable pub is_word : List ℕ → Option Value → Bool
is_word word (some (text s)) = s == word
is_word word _ = false

abbrev pub stopped_word : List ℕ
stopped_word = b's' ∷ b't' ∷ b'o' ∷ b'p' ∷ b'p' ∷ b'e' ∷ b'd' ∷ []

-- `str(exc)` for the errors of the engine, and what `Path` says of a value that is no path
module _ (describe : RunError → List ℕ) (no_path : Value → List ℕ) (is_file : List ℕ → Bool) where
  -- The snapshot of a finished training, or the error that `_run_job` then raises.
  unfoldable pub snapshot_of : Option Value → Result RunError (List ℕ)
  snapshot_of none = err no_snapshot
  snapshot_of (some (text s)) =
      if not (truthy (text s))
      then err no_snapshot
      else if is_file s
      then ok s
      else err (missing_snapshot s)
  snapshot_of (some v) = if not (truthy v) then err no_snapshot else err (raised (no_path v))

  unfoldable pub fail : ℕ → RunError → TrainingJob → TrainingJob
  fail now e job =
      emit now
        (record {
          job_id = job.job_id;
          phase = failed;
          event_data = field "error" (text (describe e)) end;
        })
        (record job { state = failed })

  unfoldable pub completing : ℕ → Fields → Result RunError (List ℕ) → TrainingJob → TrainingJob
  completing now result (err e) job = fail now e job
  completing now result (ok path) job =
      emit now (record { job_id = job.job_id; phase = completed; event_data = result })
        (record job { state = completed; snapshot_path = some path })

  -- `_run_job` from where `train` returns or raises.
  unfoldable pub finish : ℕ → Result RunError Fields → TrainingJob → TrainingJob
  finish now (err e) job = fail now e job
  finish now (ok result) job =
      if job.stop_event || is_word stopped_word (get? result "status")
      then emit now (record { job_id = job.job_id; phase = stopped; event_data = result })
          (record job { state = stopped })
      else completing now result (snapshot_of (get? result "snapshot_path")) job

-- `_run_job` up to the call of the trainer.
unfoldable pub start : TrainingJob → TrainingJob
start job = record job { state = running }

-- `stop`, on the job
unfoldable pub request_stop : TrainingJob → TrainingJob
request_stop job = record job { stop_event = true }

-- `submit_extracted`, up to `create_task`: the job and its first event
unfoldable pub submitted : String → List ℕ → String → ℕ → ℕ → ℕ → TrainingJob
submitted id name workspace created updated now =
    emit now (record { job_id = id; phase = queued; event_data = field "name" (text name) end })
      (create_job id name workspace created updated)

-- `subscribe` on a queue that gets no more events: what it yields, and what is left of the queue.
-- `none` is a subscriber that waits for ever.
unfoldable pub subscribe : List TrainingEvent → Option (List TrainingEvent × List TrainingEvent)
subscribe [] = none
subscribe (e ∷ queue) =
    let rest = subscribe queue in
    if is_terminal e.phase then some (e ∷ [], queue) else Option.map (λ r. (e ∷ r.0, r.1)) rest
