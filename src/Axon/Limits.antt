-- ===== src/Axon/Limits.antt =====
-- `AxonLimiter` of services/backend/axon/limits.py. Times are whole ticks since the epoch, a second
-- each, and `now` is an argument. Each method holds the limiter's lock, so it is one step. A
-- `defaultdict` entry that only a read has made holds the empty deque, and is left out.
use neuralese.Prelude.{
  ℕ, ◌+◌, ◌-◌, Bool, ◌&&◌, not, Option, none, some, List, [], ◌∷◌, ◌++◌, String, string_eq, ltb,
  leb, if◌then◌else◌, length, Dict, lookup, insert,
}
use mathlib.Core.Option

abbrev pub day : ℕ
day = 86_400

abbrev pub hour : ℕ
hour = 3_600

abbrev pub five_minutes : ℕ
five_minutes = 300

pub data Reason : Type 0 where
  global_token_hard_cap global_token_soft_cap_builds_paused : Reason
  global_requests_per_day per_user_requests_per_day per_user_requests_per_hour
        per_user_requests_per_5_minutes :
      Reason
  global_graph_builds_per_day graph_build_min_interval_seconds graph_builds_per_user_per_day
        graph_builds_per_user_per_hour :
      Reason

pub data LimitDecision : Type 0 where
  allowed : LimitDecision
  -- the reason, and the seconds to wait
  denied : Reason → ℕ → LimitDecision

pub record Config : Type 0 where
  pub enabled : Bool
  pub hard_global_tokens_per_day : ℕ
  pub soft_global_tokens_per_day : ℕ
  pub global_requests_per_day : ℕ
  pub per_user_requests_per_day : ℕ
  pub per_user_requests_per_hour : ℕ
  pub per_user_requests_per_5_minutes : ℕ
  pub global_graph_builds_per_day : ℕ
  pub graph_builds_per_user_per_day : ℕ
  pub graph_builds_per_user_per_hour : ℕ
  pub graph_build_min_interval_seconds : ℕ

pub record Limiter : Type 0 where
  pub user_requests : Dict String (List ℕ)
  pub global_requests : List ℕ
  pub user_builds : Dict String (List ℕ)
  pub global_builds : List ℕ
  pub token_estimates : List (ℕ × ℕ)

-- `_prune_deque`
unfoldable pub prune_deque : List ℕ → ℕ → List ℕ
prune_deque [] cutoff = []
prune_deque (t ∷ ts) cutoff =
    let rest = prune_deque ts cutoff in if ltb t cutoff then rest else t ∷ ts

unfoldable pub prune_token_deque : List (ℕ × ℕ) → ℕ → List (ℕ × ℕ)
prune_token_deque [] cutoff = []
prune_token_deque ((t, n) ∷ ts) cutoff =
    let rest = prune_token_deque ts cutoff in if ltb t cutoff then rest else (t, n) ∷ ts

unfoldable pub prune_users : Dict String (List ℕ) → ℕ → Dict String (List ℕ)
prune_users [] cutoff = []
prune_users ((user, ts) ∷ users) cutoff = (user, prune_deque ts cutoff) ∷ prune_users users cutoff

-- `_count_since`
unfoldable pub count_since : List ℕ → ℕ → ℕ
count_since [] cutoff = 0
count_since (t ∷ ts) cutoff = (if leb cutoff t then 1 else 0) + count_since ts cutoff

-- `_tokens_today_locked`
unfoldable pub tokens_today : List (ℕ × ℕ) → ℕ
tokens_today [] = 0
tokens_today ((t, n) ∷ ts) = n + tokens_today ts

-- `self._user_requests[account_id]`
unfoldable pub of_user : String → Dict String (List ℕ) → List ℕ
of_user user users = Option.get_or (lookup user users) []

-- `_deny`: the wait is until the oldest entry is a day old.
unfoldable pub retry_after : ℕ → List ℕ → ℕ
retry_after now [] = 0
retry_after now (t ∷ ts) = (day + t) - now

unfoldable pub deny : Reason → ℕ → List ℕ → LimitDecision
deny reason now values = denied reason (retry_after now values)

unfoldable pub prune : ℕ → Limiter → Limiter
prune now l =
    let cutoff = now - day in
    record {
      user_requests = prune_users l.user_requests cutoff;
      global_requests = prune_deque l.global_requests cutoff;
      user_builds = prune_users l.user_builds cutoff;
      global_builds = prune_deque l.global_builds cutoff;
      token_estimates = prune_token_deque l.token_estimates cutoff;
    }

-- The tests of `check_request`, on the pruned state.
unfoldable pub request_decision : Config → String → ℕ → Limiter → LimitDecision
request_decision config account now l =
    let mine = of_user account l.user_requests in
    if ltb 0 config.hard_global_tokens_per_day
      && leb config.hard_global_tokens_per_day (tokens_today l.token_estimates)
    then deny global_token_hard_cap now []
    else if leb config.global_requests_per_day (length l.global_requests)
    then deny global_requests_per_day now l.global_requests
    else if leb config.per_user_requests_per_day (count_since mine (now - day))
    then deny per_user_requests_per_day now mine
    else if leb config.per_user_requests_per_hour (count_since mine (now - hour))
    then deny per_user_requests_per_hour now mine
    else if leb config.per_user_requests_per_5_minutes (count_since mine (now - five_minutes))
    then deny per_user_requests_per_5_minutes now mine
    else allowed

unfoldable pub check_request : Config → String → ℕ → Limiter → LimitDecision × Limiter
check_request config account now l =
    if not config.enabled
    then (allowed, l)
    else let pruned = prune now l in (request_decision config account now pruned, pruned)

unfoldable pub add_request : String → ℕ → Limiter → Limiter
add_request account now l = record l {
  global_requests = l.global_requests ++ now ∷ [];
  user_requests = insert account (of_user account l.user_requests ++ now ∷ []) l.user_requests;
}

unfoldable pub record_request : Config → String → ℕ → Limiter → Limiter
record_request config account now l =
    if not config.enabled then l else add_request account now (prune now l)

-- `user_builds[-1]`
unfoldable pub last : List ℕ → Option ℕ
last [] = none
last (t ∷ []) = some t
last (t ∷ u ∷ ts) = last (u ∷ ts)

-- The deny of a build that comes too soon after the last one.
unfoldable pub too_soon : Config → ℕ → Option ℕ → Option LimitDecision
too_soon config now none = none
too_soon config now (some t) =
    if ltb now (config.graph_build_min_interval_seconds + t)
    then some (
        denied graph_build_min_interval_seconds
          ((config.graph_build_min_interval_seconds + t) - now))
    else none

unfoldable pub build_counts : Config → ℕ → List ℕ → LimitDecision
build_counts config now mine =
    if leb config.graph_builds_per_user_per_day (count_since mine (now - day))
    then deny graph_builds_per_user_per_day now mine
    else if leb config.graph_builds_per_user_per_hour (count_since mine (now - hour))
    then deny graph_builds_per_user_per_hour now mine
    else allowed

unfoldable pub build_decision : Config → String → ℕ → Limiter → LimitDecision
build_decision config account now l =
    let tokens = tokens_today l.token_estimates in
    let mine = of_user account l.user_builds in
    if ltb 0 config.hard_global_tokens_per_day && leb config.hard_global_tokens_per_day tokens
    then deny global_token_hard_cap now []
    else if ltb 0 config.soft_global_tokens_per_day && leb config.soft_global_tokens_per_day tokens
    then deny global_token_soft_cap_builds_paused now []
    else if leb config.global_graph_builds_per_day (length l.global_builds)
    then deny global_graph_builds_per_day now l.global_builds
    else Option.get_or (too_soon config now (last mine)) (build_counts config now mine)

unfoldable pub check_graph_build : Config → String → ℕ → Limiter → LimitDecision × Limiter
check_graph_build config account now l =
    if not config.enabled
    then (allowed, l)
    else let pruned = prune now l in (build_decision config account now pruned, pruned)

unfoldable pub add_build : String → ℕ → Limiter → Limiter
add_build account now l = record l {
  global_builds = l.global_builds ++ now ∷ [];
  user_builds = insert account (of_user account l.user_builds ++ now ∷ []) l.user_builds;
}

unfoldable pub record_graph_build : Config → String → ℕ → Limiter → Limiter
record_graph_build config account now l =
    if not config.enabled then l else add_build account now (prune now l)

-- What axon/routes.py does per request, with no `await` between the two calls: the check at `now`,
-- and, when it allows the request, the record at `next`.
unfoldable pub record_if : LimitDecision → Config → String → ℕ → Limiter → Limiter
record_if allowed config account next l = record_request config account next l
record_if (denied reason wait) config account next l = l

unfoldable pub admit : Config → String → ℕ → ℕ → Limiter → Limiter
admit config account now next l =
    let checked = check_request config account now l in
    record_if (checked.0) config account next (checked.1)

unfoldable pub record_build_if : LimitDecision → Config → String → ℕ → Limiter → Limiter
record_build_if allowed config account next l = record_graph_build config account next l
record_build_if (denied reason wait) config account next l = l

unfoldable pub admit_build : Config → String → ℕ → ℕ → Limiter → Limiter
admit_build config account now next l =
    let checked = check_graph_build config account now l in
    record_build_if (checked.0) config account next (checked.1)

-- `snapshot`: the four counts of requests
unfoldable pub request_counts : String → ℕ → Limiter → ℕ × ℕ × ℕ × ℕ
request_counts account now l =
    let mine = of_user account l.user_requests in
    (
      count_since mine (now - day),
      count_since mine (now - hour),
      count_since mine (now - five_minutes),
      length l.global_requests,
    )

-- `record_estimated_tokens`, with `max(0, int(tokens))` given
unfoldable pub record_estimated_tokens : Config → ℕ → ℕ → Limiter → ℕ × Limiter
record_estimated_tokens config tokens now l =
    if not config.enabled
    then (0, l)
    else let pruned = prune now l in
      let estimates = pruned.token_estimates ++ (now, tokens) ∷ [] in
      (tokens_today estimates, record pruned { token_estimates = estimates })
