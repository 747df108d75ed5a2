-- ===== src/Tests/Axon.antt =====
-- Requests against the limiter of services/backend/axon/limits.py.
use neuralese.Prelude.{ℕ, ◌≡◌, true, List, [], ◌∷◌, String, arith}
use neuralese.Axon.Limits.{Config, prune_deque, count_since}
use neuralese.Axon.Windows.{
  WithinLimits, Arrival, run, new_limiter, run-WithinLimits, count_since-prune_deque,
}

abbrev two_per_5_minutes : Config
two_per_5_minutes = record {
  enabled = true;
  hard_global_tokens_per_day = 0;
  soft_global_tokens_per_day = 0;
  global_requests_per_day = 100;
  per_user_requests_per_day = 10;
  per_user_requests_per_hour = 5;
  per_user_requests_per_5_minutes = 2;
  global_graph_builds_per_day = 10;
  graph_builds_per_user_per_day = 5;
  graph_builds_per_user_per_hour = 2;
  graph_build_min_interval_seconds = 60;
}

abbrev arrival : String → ℕ → Arrival
arrival account since = record { account = account; since_last = since; to_record = 1 }

abbrev burst : List Arrival
burst = arrival "ada" 10 ∷ arrival "ada" 20 ∷ arrival "ada" 30 ∷ arrival "eve" 5 ∷ []

run-WithinLimits_example :
    WithinLimits two_per_5_minutes
      ((run two_per_5_minutes 1_000_000 new_limiter burst).0)
      ((run two_per_5_minutes 1_000_000 new_limiter burst).1)
run-WithinLimits_example = run-WithinLimits two_per_5_minutes 1_000_000 burst

count_since-prune_deque_example :
    count_since (prune_deque (10 ∷ 20 ∷ 30 ∷ []) 15) 25 ≡ count_since (10 ∷ 20 ∷ 30 ∷ []) 25
count_since-prune_deque_example = count_since-prune_deque (10 ∷ 20 ∷ 30 ∷ []) 15 25 (omega arith)
