-- ===== src/Tests/Engine.antt =====
-- Jobs of core/engine.py.
use neuralese.Prelude.{
  ℕ, ◌≡◌, ◌≢◌, refl, ◌⊎◌, inl, inr, Bool, true, none, some, List, [], ◌∷◌, ◌++◌, String, string_eq,
  lookup, All, ok, err, arith,
}
use package.text.Mathlib.TextEquality.{eq_iff}
use neuralese.Python.Values.{Value, Fields, field, end, text, get?, truthy}
use neuralese.Engine.Jobs.{
  Phase, TrainingEvent, TrainingJob, RunError, emit, create_job, submitted, start, finish, fail,
  completing, subscribe, is_terminal, is_terminal_state, snapshot_of, is_word,
}
use neuralese.Engine.History.{
  Step, Reachable, Told, Reachable-Told, subscribe-Reachable, subscribe-again,
}
use neuralese.Engine.Cleanup.{TrainingEngine, cleanup_jobs}
use neuralese.Engine.Kept.{Stays, cleanup_jobs-keeps}

abbrev describe : RunError → List ℕ
describe e = []

abbrev no_path : Value → List ℕ
no_path v = []

abbrev is_file : List ℕ → Bool
is_file path = true

abbrev result : Fields
result = field "snapshot_path" (text (b'z' ∷ [])) end

abbrev first : TrainingJob
first = submitted "job_1" (b'j' ∷ []) "jobs/job_1" 10 10 11

abbrev last : TrainingJob
last = finish describe no_path is_file 20 (ok result) (start first)

last-Reachable : Reachable describe no_path is_file last []
unfolding submitted create_job emit start
last-Reachable =
    Reachable.steps
      (Reachable.steps (Reachable.submits "job_1" (b'j' ∷ []) "jobs/job_1" 10 10 11)
        (Step.starts refl))
      (Step.finishes 20 (ok result) refl)

Reachable-Told_example : Told last.state ([] ++ last.queue)
Reachable-Told_example = Reachable-Told describe no_path is_file last-Reachable

last_state : is_terminal_state last.state ≡ true
unfolding finish completing snapshot_of emit submitted create_job start is_terminal_state is_word
    get? truthy
last_state = refl

subscribe-Reachable_example : subscribe last.queue ≡ some (last.queue, [])
subscribe-Reachable_example = subscribe-Reachable describe no_path is_file last-Reachable last_state

abbrev broken : TrainingJob
broken = finish describe no_path is_file 20 (err (RunError.raised [])) (start first)

abbrev queued_event : TrainingEvent
queued_event = record {
  job_id = "job_1";
  phase = Phase.queued;
  event_data = field "name" (text (b'j' ∷ [])) end;
}

abbrev failed_event : TrainingEvent
failed_event = record {
  job_id = "job_1";
  phase = Phase.failed;
  event_data = field "error" (text []) end;
}

broken-Reachable :
    Reachable describe no_path is_file
      (record broken { queue = [] })
      ((queued_event ∷ []) ++ failed_event ∷ [])
unfolding submitted create_job emit start finish fail
broken-Reachable =
    Reachable.steps
      (Reachable.steps
        (Reachable.steps
          (Reachable.steps (Reachable.submits "job_1" (b'j' ∷ []) "jobs/job_1" 10 10 11)
            (Step.starts refl))
          (Step.finishes 20 (err (RunError.raised [])) refl))
        (Step.takes queued_event (failed_event ∷ []) refl))
      (Step.takes failed_event [] refl)

subscribe-again_example : subscribe (record broken { queue = [] }).queue ≡ none
subscribe-again_example =
    subscribe-again describe no_path is_file (queued_event ∷ []) failed_event broken-Reachable
      (unfold is_terminal in refl)

abbrev engine : TrainingEngine
engine = record {
  jobs = ("job_0", record broken { workspace = "jobs/job_0" }) ∷ ("job_1", start first) ∷ [];
  workspaces = ("jobs/job_0", 5) ∷ ("jobs/job_1", 5) ∷ [];
}

job_1-Stays : Stays 1000 60 (start first)
unfolding start submitted emit create_job
job_1-Stays = inl (inr refl)

job_1_listed : lookup "job_1" engine.jobs ≡ some (start first)
job_1_listed = refl

apart :
    All
      (λ (p : String × TrainingJob).
        Stays 1000 60 (p.1) ⊎ (p.1.workspace ≢ (start first).workspace))
      engine.jobs
unfolding start submitted emit create_job finish fail
apart = (inr (λ e. ground (arith, (eq_iff "jobs/job_0" "jobs/job_1").1 e)), (inl job_1-Stays, tt))

cleanup_jobs-keeps_example :
    (lookup "job_1" ((cleanup_jobs 1000 60 engine).2.jobs) ≡ some (start first))
    × (lookup (start first).workspace ((cleanup_jobs 1000 60 engine).2.workspaces)
        ≡ lookup (start first).workspace engine.workspaces)
    × All (λ (p : String × TrainingJob). Stays 1000 60 (p.1)) ((cleanup_jobs 1000 60 engine).2.jobs)
cleanup_jobs-keeps_example =
    cleanup_jobs-keeps 1000 60 engine "job_1" (start first) job_1_listed job_1-Stays apart
