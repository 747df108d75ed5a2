-- ===== src/Engine/Kept.antt =====
-- What `cleanup_jobs` of core/engine.py removes and what it leaves.
use neuralese.Prelude.{
  ℕ, ◌+◌, ◌≡◌, ◌≢◌, refl, ap, ◌∙◌, Bool, true, false, ◌||◌, ◌&&◌, some, List, [], ◌∷◌, String,
  string_eq, ◌==◌, if◌then◌else◌, ◌<◌, ◌⊎◌, inl, inr, Dict, lookup, lookup-erase, elem, All,
  beq_self, arith,
}
use text.Mathlib.TextEquality.{eq_iff}
use neuralese.Engine.Jobs.{JobState, TrainingJob, is_terminal_state}
use neuralese.Engine.Cleanup.{
  TrainingEngine, is_old, is_stale, sweep, remove_jobs, tracked, remove_orphans, cleanup_jobs,
}

-- Queued or running.
abbrev pub IsUnderWay : JobState → Type 0
IsUnderWay state = (state ≡ JobState.queued) ⊎ (state ≡ JobState.running)

-- A job to keep: under way, or changed less than the retention time ago.
abbrev pub Stays : ℕ → ℕ → TrainingJob → Type 0
Stays now retention job = IsUnderWay job.state ⊎ (now < job.updated_at + retention)

some_inj : {A : Type 0} {a b : A} → some a ≡ some b → a ≡ b
some_inj h = cc

module _ (now retention : ℕ) where
  is_stale-Stays :
      (job : TrainingJob) → Stays now retention job → is_stale now retention job ≡ false
  unfolding is_stale is_old is_terminal_state
  is_stale-Stays job (inl (inl e)) = rw e refl
  is_stale-Stays job (inl (inr e)) = rw e refl
  is_stale-Stays job (inr young) = ground (arith, young)

  young :
      (job : TrainingJob) → (is_old now retention job.updated_at) ≡ false → Stays now retention job
  unfolding is_old
  young job h = inr (ground (arith, h))

  Stays-is_stale :
      (job : TrainingJob) → is_stale now retention job ≡ false → Stays now retention job
  unfolding is_stale is_terminal_state
  Stays-is_stale job h = go job.state refl h
    where
      go :
          (state : JobState)
          → job.state ≡ state
          → (is_terminal_state state && is_old now retention job.updated_at) ≡ false
          → Stays now retention job
      go JobState.queued e f = inl (inl e)
      go JobState.running e f = inl (inr e)
      go JobState.stopped e f = young job f
      go JobState.completed e f = young job f
      go JobState.failed e f = young job f

  all_stay :
      (jobs : Dict String TrainingJob)
      → All (λ (p : String × TrainingJob). is_stale now retention (p.1) ≡ false) jobs
      → All (λ (p : String × TrainingJob). Stays now retention (p.1)) jobs
  all_stay [] a = tt
  all_stay ((id, job) ∷ jobs) a = (Stays-is_stale job a.0, all_stay jobs a.1)

  apart_if_stale :
      (workspace : String) (jobs : Dict String TrainingJob)
      → All
          (λ (p : String × TrainingJob). Stays now retention (p.1) ⊎ (p.1.workspace ≢ workspace))
          jobs
      → All
          (λ (p : String × TrainingJob).
            is_stale now retention (p.1) ≡ true → p.1.workspace ≢ workspace)
          jobs
  apart_if_stale workspace [] a = tt
  apart_if_stale workspace ((id, job) ∷ jobs) a = (go a.0, apart_if_stale workspace jobs a.1)
    where
      go :
          Stays now retention job ⊎ (job.workspace ≢ workspace)
          → is_stale now retention job ≡ true
          → job.workspace ≢ workspace
      go (inl stays) stale = absurd (ground (arith, is_stale-Stays job stays, stale))
      go (inr apart) stale = apart

module _ (now retention : ℕ) where
  -- Nothing stale is left.
  remove_jobs-fresh :
      (jobs : Dict String TrainingJob) (dirs : Dict String ℕ)
      → All
          (λ (p : String × TrainingJob). is_stale now retention (p.1) ≡ false)
          (remove_jobs now retention jobs dirs).kept
  unfolding remove_jobs sweep
  remove_jobs-fresh [] dirs = tt
  remove_jobs-fresh ((j, c) ∷ jobs) dirs =
      go (remove_jobs-fresh jobs dirs) (is_stale now retention c) refl
    where
      go :
          All
            (λ (p : String × TrainingJob). is_stale now retention (p.1) ≡ false)
            (remove_jobs now retention jobs dirs).kept
          → (t : Bool) → is_stale now retention c ≡ t
          → All
              (λ (p : String × TrainingJob). is_stale now retention (p.1) ≡ false)
              (sweep t j c (remove_jobs now retention jobs dirs)).kept
      go rest true e = rest
      go rest false e = (e, rest)

module _ (now retention : ℕ) (id : String) (job : TrainingJob)
    (fresh : is_stale now retention job ≡ false) where
  -- A job that is under way or young stays in the table.
  remove_jobs-lookup :
      (jobs : Dict String TrainingJob) (dirs : Dict String ℕ)
      → lookup id jobs ≡ some job
      → lookup id (remove_jobs now retention jobs dirs).kept ≡ some job
  unfolding remove_jobs sweep
  remove_jobs-lookup [] dirs h = absurd (ground (arith, h))
  remove_jobs-lookup ((j, c) ∷ jobs) dirs h =
      go (remove_jobs-lookup jobs dirs) (j == id) refl h (is_stale now retention c) refl
    where
      go :
          (lookup id jobs ≡ some job
            → lookup id (remove_jobs now retention jobs dirs).kept ≡ some job)
          → (b : Bool) → (j == id) ≡ b
          → (if b then some c else lookup id jobs) ≡ some job
          → (t : Bool) → is_stale now retention c ≡ t
          → lookup id (sweep t j c (remove_jobs now retention jobs dirs)).kept ≡ some job
      go rest true d h true e = absurd (
          ground (arith, fresh, e, ap (λ (x : TrainingJob). is_stale now retention x) (some_inj h)))
      go rest true d h false e = rw d h
      go rest false d h true e = rest h
      go rest false d h false e = rw d (rest h)

  -- ... and so does its directory, when no job that goes has the same one.
  remove_jobs-dir :
      (jobs : Dict String TrainingJob) (dirs : Dict String ℕ)
      → All
          (λ (p : String × TrainingJob).
            is_stale now retention (p.1) ≡ true → p.1.workspace ≢ job.workspace)
          jobs
      → lookup job.workspace (remove_jobs now retention jobs dirs).dirs ≡ lookup job.workspace dirs
  unfolding remove_jobs sweep
  remove_jobs-dir [] dirs a = refl
  remove_jobs-dir ((j, c) ∷ jobs) dirs a =
      go (remove_jobs-dir jobs dirs (a.1)) (is_stale now retention c) (a.0)
    where
      go :
          lookup job.workspace (remove_jobs now retention jobs dirs).dirs
            ≡ lookup job.workspace dirs
          → (t : Bool) → (t ≡ true → c.workspace ≢ job.workspace)
          → lookup job.workspace (sweep t j c (remove_jobs now retention jobs dirs)).dirs
            ≡ lookup job.workspace dirs
      go rest false n = rest
      go rest true n = ground (
        arith,
        lookup-erase c.workspace job.workspace (remove_jobs now retention jobs dirs).dirs,
        rest,
        n refl,
        eq_iff c.workspace job.workspace,
      )

  elem-tracked :
      (jobs : Dict String TrainingJob)
      → lookup id jobs ≡ some job
      → elem job.workspace (tracked jobs) ≡ true
  unfolding tracked
  elem-tracked [] h = absurd (ground (arith, h))
  elem-tracked ((j, c) ∷ jobs) h = go (elem-tracked jobs) (j == id) h
    where
      go :
          (lookup id jobs ≡ some job → elem job.workspace (tracked jobs) ≡ true)
          → (b : Bool) → (if b then some c else lookup id jobs) ≡ some job
          → (c.workspace == job.workspace || elem job.workspace (tracked jobs)) ≡ true
      go rest true h = rw (some_inj h, beq_self job.workspace) refl
      go rest false h = ground (arith, rest h)

remove_orphans-lookup :
    (now retention : ℕ) (kept : List String) (dir : String) (dirs : Dict String ℕ)
    → elem dir kept ≡ true
    → lookup dir ((remove_orphans now retention kept dirs).1) ≡ lookup dir dirs
unfolding remove_orphans
remove_orphans-lookup now retention kept dir [] h = refl
remove_orphans-lookup now retention kept dir ((d, mtime) ∷ dirs) h =
    ground (arith, h, eq_iff d dir, remove_orphans-lookup now retention kept dir dirs h)

-- Cleaning up leaves every job that is queued or running, or changed less than the retention time ago,
-- as it is, with its directory, if no job with the same directory goes: each of those in the table is
-- itself queued, running or young, or has another directory. And every job that is left is queued or
-- running or changed less than the retention time ago.
pub cleanup_jobs-keeps :
    (now retention : ℕ) (engine : TrainingEngine) (id : String) (job : TrainingJob)
    → lookup id engine.jobs ≡ some job
    → Stays now retention job
    → All
        (λ (p : String × TrainingJob). Stays now retention (p.1) ⊎ (p.1.workspace ≢ job.workspace))
        engine.jobs
    → (lookup id ((cleanup_jobs now retention engine).2.jobs) ≡ some job)
      × (lookup job.workspace ((cleanup_jobs now retention engine).2.workspaces)
          ≡ lookup job.workspace engine.workspaces)
      × All
          (λ (p : String × TrainingJob). Stays now retention (p.1))
          ((cleanup_jobs now retention engine).2.jobs)
unfolding cleanup_jobs
cleanup_jobs-keeps now retention engine id job h n a =
    let swept = remove_jobs now retention engine.jobs engine.workspaces in
    let fresh = is_stale-Stays now retention job n in
    let stays = remove_jobs-lookup now retention id job fresh engine.jobs engine.workspaces h in
    (
      stays,
      remove_orphans-lookup now retention (tracked swept.kept) job.workspace swept.dirs
            (elem-tracked now retention id job fresh swept.kept stays)
          ∙ remove_jobs-dir now retention id job fresh engine.jobs engine.workspaces
              (apart_if_stale now retention job.workspace engine.jobs a),
      all_stay now retention swept.kept
          (remove_jobs-fresh now retention engine.jobs engine.workspaces),
    )
