-- ===== src/Engine/History.antt =====
-- What a subscriber of a job of core/engine.py sees, however the run, the stop requests and the
-- subscriber's readings interleave.
use neuralese.Prelude.{
  ℕ, ◌≡◌, refl, sym, ap, ◌∙◌, Bool, true, false, ◌||◌, none, some, List, [], ◌∷◌, ◌++◌, String,
  string_eq, bytes_eq, Result, ok, err, All, All-append, either_branch, arith,
}
use mathlib.Core.Path.{subst}
use mathlib.Core.List.{append_assoc, head-eq_of_cons-eq, tail-eq_of_cons-eq, nil≢cons}
use neuralese.Python.Values.{Value, Fields, get?}
use neuralese.Engine.Jobs.{
  JobState, Phase, is_terminal, is_terminal_state, TrainingEvent, TrainingJob, RunError, emit,
  create_job, fail, completing, finish, start, request_stop, submitted, subscribe, snapshot_of,
  is_word, stopped_word,
}

-- The phase of the event that tells of a final state.
unfoldable pub phase_of : JobState → Phase
phase_of JobState.stopped = Phase.stopped
phase_of JobState.completed = Phase.completed
phase_of JobState.failed = Phase.failed
phase_of _ = Phase.queued

pub IsProgress : TrainingEvent → Type 0
IsProgress e = is_terminal e.phase ≡ false

-- The events put so far, against the state: one event ends them, once the state is final, and it
-- tells of that state.
pub data Told (s : JobState) (events : List TrainingEvent) : Type 0 where
  under_way : is_terminal_state s ≡ false → All IsProgress events → Told s events
  ended :
      (earlier : List TrainingEvent) (e : TrainingEvent)
      → events ≡ earlier ++ (e ∷ [])
      → All IsProgress earlier
      → e.phase ≡ phase_of s
      → is_terminal_state s ≡ true
      → is_terminal e.phase ≡ true
      → Told s events

-- A run's end puts one event, about the state it leaves.
record Ends (before after : TrainingJob) : Type 0 where
  last_event : TrainingEvent
  put : after.queue ≡ before.queue ++ (last_event ∷ [])
  tells : last_event.phase ≡ phase_of after.state
  is_final : is_terminal_state after.state ≡ true
  is_last : is_terminal last_event.phase ≡ true

-- A final event stands last.
last_only :
    (xs queue earlier : List TrainingEvent) (e d : TrainingEvent)
    → (xs ++ e ∷ queue) ≡ earlier ++ (d ∷ [])
    → All IsProgress earlier
    → is_terminal e.phase ≡ true
    → queue ≡ []
unfolding IsProgress
last_only [] queue [] e d h a t = tail-eq_of_cons-eq h
last_only [] queue (c ∷ earlier) e d h a t =
    absurd (
      ground
        (arith, a.0, t, ap (λ (x : TrainingEvent). is_terminal x.phase) (head-eq_of_cons-eq h)))
last_only (x ∷ []) queue [] e d h a t = absurd (nil≢cons (sym (tail-eq_of_cons-eq h)))
last_only (x ∷ y ∷ xs) queue [] e d h a t = absurd (nil≢cons (sym (tail-eq_of_cons-eq h)))
last_only (x ∷ xs) queue (c ∷ earlier) e d h a t =
    last_only xs queue earlier e d (tail-eq_of_cons-eq h) (a.1) t

All-progress :
    (xs queue : List TrainingEvent) (e : TrainingEvent)
    → All IsProgress (xs ++ e ∷ queue)
    → is_terminal e.phase ≡ false
unfolding IsProgress
All-progress [] queue e a = a.0
All-progress (x ∷ xs) queue e a = All-progress xs queue e (a.1)

module _ (describe : RunError → List ℕ) (no_path : Value → List ℕ) (is_file : List ℕ → Bool) where
  fail-Ends :
      (now : ℕ) (e : RunError) (job : TrainingJob)
      → Ends job (fail describe no_path is_file now e job)
  unfolding fail emit is_terminal is_terminal_state phase_of
  fail-Ends now e job = record {
    last_event = _;
    put = refl;
    tells = refl;
    is_final = refl;
    is_last = refl;
  }

  completing-Ends :
      (now : ℕ) (result : Fields) (r : Result RunError (List ℕ)) (job : TrainingJob)
      → Ends job (completing describe no_path is_file now result r job)
  unfolding completing emit is_terminal is_terminal_state phase_of
  completing-Ends now result (err e) job = fail-Ends now e job
  completing-Ends now result (ok path) job = record {
    last_event = _;
    put = refl;
    tells = refl;
    is_final = refl;
    is_last = refl;
  }

  finish-Ends :
      (now : ℕ) (outcome : Result RunError Fields) (job : TrainingJob)
      → Ends job (finish describe no_path is_file now outcome job)
  unfolding finish emit is_terminal is_terminal_state phase_of
  finish-Ends now (err e) job = fail-Ends now e job
  finish-Ends now (ok result) job =
      either_branch (Ends job) (job.stop_event || is_word stopped_word (get? result "status"))
        (record { last_event = _; put = refl; tells = refl; is_final = refl; is_last = refl })
        (completing-Ends now result
          (snapshot_of describe no_path is_file (get? result "snapshot_path")) job)

  -- One step of a job, with the events that its subscriber has taken: the run's, a stop request, or
  -- the subscriber's `queue.get`. The trainer's own events are of no final phase.
  pub data Step : TrainingJob → List TrainingEvent → TrainingJob → List TrainingEvent → Type 0 where
    starts :
        {job : TrainingJob} {taken : List TrainingEvent}
        → job.state ≡ JobState.queued
        → Step job taken (start job) taken
    trains :
        {job : TrainingJob} {taken : List TrainingEvent} (now : ℕ) (e : TrainingEvent)
        → job.state ≡ JobState.running
        → is_terminal e.phase ≡ false
        → Step job taken (emit now e job) taken
    finishes :
        {job : TrainingJob} {taken : List TrainingEvent} (now : ℕ)
        (outcome : Result RunError Fields)
        → job.state ≡ JobState.running
        → Step job taken (finish describe no_path is_file now outcome job) taken
    stops :
        {job : TrainingJob} {taken : List TrainingEvent} → Step job taken (request_stop job) taken
    takes :
        {job : TrainingJob} {taken : List TrainingEvent} (e : TrainingEvent)
        (queue : List TrainingEvent)
        → job.queue ≡ e ∷ queue
        → Step job taken (record job { queue = queue }) (taken ++ e ∷ [])

  -- The jobs that steps lead to from their submission.
  pub data Reachable : TrainingJob → List TrainingEvent → Type 0 where
    submits :
        (id : String) (name : List ℕ) (workspace : String) (created updated now : ℕ)
        → Reachable (submitted id name workspace created updated now) []
    steps :
        {job next : TrainingJob} {taken taken_next : List TrainingEvent}
        → Reachable job taken
        → Step job taken next taken_next
        → Reachable next taken_next

  Told-more :
      (s : JobState) (events : List TrainingEvent) (e : TrainingEvent)
      → is_terminal_state s ≡ false
      → is_terminal e.phase ≡ false
      → Told s events
      → Told s (events ++ e ∷ [])
  unfolding IsProgress
  Told-more s events e n p (under_way f a) =
      under_way n (All-append IsProgress events (e ∷ []) a (p, tt))
  Told-more s events e n p (ended earlier d q a t f g) = absurd (ground (arith, n, f))

  Told-start :
      (s : JobState) (events : List TrainingEvent)
      → s ≡ JobState.queued
      → Told s events
      → Told JobState.running events
  unfolding is_terminal_state
  Told-start s events h (under_way f a) = under_way refl a
  Told-start s events h (ended earlier e q a t f g) = absurd (ground (arith, h, f))

  Told-end :
      (job after : TrainingJob) (taken : List TrainingEvent)
      → job.state ≡ JobState.running
      → Ends job after
      → Told job.state (taken ++ job.queue)
      → Told after.state (taken ++ after.queue)
  unfolding is_terminal_state
  Told-end job after taken r x (under_way f a) =
      ended (taken ++ job.queue) x.last_event
        (ap (λ (q : List TrainingEvent). taken ++ q) x.put
          ∙ sym (append_assoc taken job.queue (x.last_event ∷ [])))
        a x.tells x.is_final x.is_last
  Told-end job after taken r x (ended earlier d q a t f g) = absurd (ground (arith, r, f))

  pub Step-Told :
      {job next : TrainingJob} {taken taken_next : List TrainingEvent}
      → Step job taken next taken_next
      → Told job.state (taken ++ job.queue)
      → Told next.state (taken_next ++ next.queue)
  unfolding start emit request_stop is_terminal_state IsProgress
  Step-Told {job} {next} {taken} (starts h) t = Told-start job.state (taken ++ job.queue) h t
  Step-Told {job} {next} {taken} (trains now e h p) t =
      subst (Told job.state) (append_assoc taken job.queue (e ∷ []))
        (Told-more job.state (taken ++ job.queue) e (rw h refl) p t)
  Step-Told {job} {next} {taken} (finishes now outcome h) t =
      Told-end job next taken h (finish-Ends now outcome job) t
  Step-Told stops t = t
  Step-Told {job} {next} {taken} (takes e queue h) t =
      subst (Told job.state)
        (ap (λ (q : List TrainingEvent). taken ++ q) h ∙ sym (append_assoc taken (e ∷ []) queue)) t

  -- Every event that a job has put, taken or not: none tells of its end until its state is final, and
  -- then just the last one does, and tells of that state.
  pub Reachable-Told :
      {job : TrainingJob} {taken : List TrainingEvent}
      → Reachable job taken
      → Told job.state (taken ++ job.queue)
  unfolding submitted create_job emit is_terminal_state is_terminal IsProgress
  Reachable-Told (submits id name workspace created updated now) = under_way refl (refl, tt)
  Reachable-Told (steps r s) = Step-Told s (Reachable-Told r)

  subscribe-All :
      (earlier : List TrainingEvent) (e : TrainingEvent)
      → All IsProgress earlier
      → is_terminal e.phase ≡ true
      → subscribe (earlier ++ e ∷ []) ≡ some (earlier ++ e ∷ [], [])
  unfolding subscribe IsProgress
  subscribe-All [] e a t = rw t refl
  subscribe-All (d ∷ earlier) e a t = rw (a.0, subscribe-All earlier e (a.1) t) refl

  -- The events of a job whose state is final, read from the first on: the subscriber gets all of them
  -- and returns.
  pub subscribe-Reachable :
      {job : TrainingJob}
      → Reachable job []
      → is_terminal_state job.state ≡ true
      → subscribe job.queue ≡ some (job.queue, [])
  subscribe-Reachable {job} r f = go (Reachable-Told r)
    where
      go : Told job.state job.queue → subscribe job.queue ≡ some (job.queue, [])
      go (under_way n a) = absurd (ground (arith, n, f))
      go (ended earlier e q a t g l) =
          subst (λ (events : List TrainingEvent). subscribe events ≡ some (events, [])) (sym q)
            (subscribe-All earlier e a l)

  -- Once a subscriber has taken the event that ends a job, the queue is empty for good: another
  -- subscriber of that job waits for ever.
  pub subscribe-again :
      {job : TrainingJob} (taken : List TrainingEvent) (e : TrainingEvent)
      → Reachable job (taken ++ e ∷ [])
      → is_terminal e.phase ≡ true
      → subscribe job.queue ≡ none
  unfolding subscribe
  subscribe-again {job} taken e r t = rw (go (Reachable-Told r)) refl
    where
      regroup : ((taken ++ e ∷ []) ++ job.queue) ≡ taken ++ (e ∷ job.queue)
      regroup = append_assoc taken (e ∷ []) job.queue

      go : Told job.state ((taken ++ e ∷ []) ++ job.queue) → job.queue ≡ []
      go (under_way n a) =
          absurd
            (ground (arith, t, All-progress taken job.queue e (subst (All IsProgress) regroup a)))
      go (ended earlier d q a s g l) = last_only taken job.queue earlier e d (sym regroup ∙ q) a t
