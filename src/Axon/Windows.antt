-- ===== src/Axon/Windows.antt =====
-- What the limiter of services/backend/axon/limits.py promises of any window of time.
use neuralese.Prelude.{
  ℕ, ◌+◌, ◌-◌, ◌≤◌, ◌<◌, ◌≡◌, refl, not, List, [], ◌∷◌, ◌++◌, String, string_eq, ◌==◌, arith,
  if◌then◌else◌, length, Dict, insert, lookup-insert, Bool-cases, either_branch, inl, inr,
}
use neuralese.Axon.Limits.{
  Config, Limiter, LimitDecision, allowed, denied, day, hour, five_minutes, prune_deque,
  prune_users, count_since, of_user, prune, request_decision, check_request, admit, record_if,
  add_request, record_request, deny,
}

count_since_mono : (ts : List ℕ) (c d : ℕ) → c ≤ d → count_since ts d ≤ count_since ts c
unfolding count_since
count_since_mono [] c d h = omega arith
count_since_mono (t ∷ ts) c d h = ground (arith, count_since_mono ts c d h)

count_since-le-length : (ts : List ℕ) (c : ℕ) → count_since ts c ≤ length ts
unfolding count_since
count_since-le-length [] c = omega arith
count_since-le-length (t ∷ ts) c = ground (arith, count_since-le-length ts c)

count_since-append : (ts : List ℕ) (t c : ℕ) → count_since (ts ++ t ∷ []) c ≤ count_since ts c + 1
unfolding count_since
count_since-append [] t c = ground arith
count_since-append (u ∷ ts) t c = ground (arith, count_since-append ts t c)

-- Pruning drops only what lies before the cutoff, so it changes no count of a later window.
pub count_since-prune_deque :
    (ts : List ℕ) (cutoff c : ℕ)
    → cutoff ≤ c
    → count_since (prune_deque ts cutoff) c ≡ count_since ts c
unfolding count_since prune_deque
count_since-prune_deque [] cutoff c h = refl
count_since-prune_deque (t ∷ ts) cutoff c h = ground (arith, count_since-prune_deque ts cutoff c h)

count_since-prune-le :
    (ts : List ℕ) (cutoff c : ℕ) → count_since (prune_deque ts cutoff) c ≤ count_since ts c
unfolding count_since prune_deque
count_since-prune-le [] cutoff c = omega arith
count_since-prune-le (t ∷ ts) cutoff c = ground (arith, count_since-prune-le ts cutoff c)

prune_deque_idem : (ts : List ℕ) (c : ℕ) → prune_deque (prune_deque ts c) c ≡ prune_deque ts c
unfolding prune_deque
prune_deque_idem [] c = refl
prune_deque_idem (t ∷ ts) c = ground (arith, prune_deque_idem ts c)

of_user-prune_users :
    (user : String) (users : Dict String (List ℕ)) (c : ℕ)
    → of_user user (prune_users users c) ≡ prune_deque (of_user user users) c
unfolding of_user prune_users prune_deque
of_user-prune_users user [] c = refl
of_user-prune_users user ((u, ts) ∷ users) c = ground (arith, of_user-prune_users user users c)

of_user-insert :
    (user other : String) (ts : List ℕ) (users : Dict String (List ℕ))
    → of_user other (insert user ts users) ≡ (if user == other then ts else of_user other users)
unfolding of_user
of_user-insert user other ts users = ground (arith, lookup-insert user other ts users)

-- At time `now` no account, nor all of them together, has more requests in a window than allowed.
pub record WithinLimits (config : Config) (now : ℕ) (l : Limiter) : Type 0 where
  pub per_day :
      (user : String)
      → count_since (of_user user l.user_requests) (now - day) ≤ config.per_user_requests_per_day
  pub per_hour :
      (user : String)
      → count_since (of_user user l.user_requests) (now - hour) ≤ config.per_user_requests_per_hour
  pub per_5_minutes :
      (user : String)
      → count_since (of_user user l.user_requests) (now - five_minutes)
        ≤ config.per_user_requests_per_5_minutes
  pub all_users : count_since l.global_requests (now - day) ≤ config.global_requests_per_day

module _ (config : Config) where
  -- Counts only fall as time goes by.
  later :
      (now next : ℕ) (l : Limiter)
      → now ≤ next
      → WithinLimits config now l
      → WithinLimits config next l
  later now next l h w = record {
    per_day = λ user. omega (
      arith,
      w.per_day user,
      count_since_mono (of_user user l.user_requests) (now - day) (next - day),
    );
    per_hour = λ user. omega (
      arith,
      w.per_hour user,
      count_since_mono (of_user user l.user_requests) (now - hour) (next - hour),
    );
    per_5_minutes = λ user. omega (
      arith,
      w.per_5_minutes user,
      count_since_mono (of_user user l.user_requests) (now - five_minutes) (next - five_minutes),
    );
    all_users =
        omega (arith, w.all_users, count_since_mono l.global_requests (now - day) (next - day));
  }

  pruned :
      (now at : ℕ) (l : Limiter) → WithinLimits config now l → WithinLimits config now (prune at l)
  unfolding prune
  pruned now at l w = record {
    per_day = λ user. rw (of_user-prune_users user l.user_requests (at - day)) (
        omega (
          arith,
          w.per_day user,
          count_since-prune-le (of_user user l.user_requests) (at - day) (now - day),
        ));
    per_hour = λ user. rw (of_user-prune_users user l.user_requests (at - day)) (
        omega (
          arith,
          w.per_hour user,
          count_since-prune-le (of_user user l.user_requests) (at - day) (now - hour),
        ));
    per_5_minutes = λ user. rw (of_user-prune_users user l.user_requests (at - day)) (
        omega (
          arith,
          w.per_5_minutes user,
          count_since-prune-le (of_user user l.user_requests) (at - day) (now - five_minutes),
        ));
    all_users =
        omega (arith, w.all_users, count_since-prune-le l.global_requests (at - day) (now - day));
  }

  allowed-counts :
      (account : String) (now : ℕ) (l : Limiter)
      → request_decision config account now l ≡ allowed
      → (length l.global_requests < config.global_requests_per_day)
        × (count_since (of_user account l.user_requests) (now - day)
            < config.per_user_requests_per_day)
        × (count_since (of_user account l.user_requests) (now - hour)
            < config.per_user_requests_per_hour)
        × (count_since (of_user account l.user_requests) (now - five_minutes)
            < config.per_user_requests_per_5_minutes)
  unfolding request_decision deny
  allowed-counts account now l h = ground (arith, h)

  -- One more entry at `next`, in any window that reaches back from it.
  one_more :
      (account user : String) (now next span bound : ℕ) (users : Dict String (List ℕ))
      → now ≤ next
      → span ≤ day
      → count_since (of_user account users) (now - span) < bound
      → count_since (of_user user users) (now - span) ≤ bound
      → count_since
          (of_user user (
            insert account
              (of_user account (prune_users users (next - day)) ++ next ∷ [])
              (prune_users users (next - day))))
          (next - span)
        ≤ bound
  one_more account user now next span bound users h s a b =
      rw
        (
          of_user-insert account user
              (of_user account (prune_users users (next - day)) ++ next ∷ [])
              (prune_users users (next - day)),
          of_user-prune_users account users (next - day),
          of_user-prune_users user users (next - day),
        )
        (elim (Bool-cases (account == user)) [
          | inl e ↦ rw e (
              omega (
                arith,
                a,
                count_since_mono (of_user account users) (now - span) (next - span),
                count_since-append (prune_deque (of_user account users) (next - day)) next
                    (next - span),
                count_since-prune-le (of_user account users) (next - day) (next - span),
              ))
          | inr e ↦ rw e (
              omega (
                arith,
                b,
                count_since_mono (of_user user users) (now - span) (next - span),
                count_since-prune-le (of_user user users) (next - day) (next - span),
              ))
        ])

  added :
      (account : String) (now next : ℕ) (l : Limiter)
      → now ≤ next
      → WithinLimits config now l
      → request_decision config account now l ≡ allowed
      → WithinLimits config next (add_request account next (prune next l))
  unfolding add_request prune
  added account now next l h w e =
      let (g, d, u, f) = allowed-counts account now l e in
      record {
        per_day = λ user.
            one_more account user now next day config.per_user_requests_per_day l.user_requests h
              (omega arith) d (w.per_day user);
        per_hour = λ user.
            one_more account user now next hour config.per_user_requests_per_hour l.user_requests h
              (omega arith) u (w.per_hour user);
        per_5_minutes = λ user.
            one_more account user now next five_minutes config.per_user_requests_per_5_minutes
              l.user_requests h (omega arith) f (w.per_5_minutes user);
        all_users = omega (
          arith,
          g,
          count_since-append (prune_deque l.global_requests (next - day)) next (next - day),
          count_since-prune-le l.global_requests (next - day) (next - day),
          count_since-le-length l.global_requests (next - day),
        );
      }

  -- A request that is checked and, if allowed, recorded keeps every window within its limit.
  pub admit-WithinLimits :
      (account : String) (now next : ℕ) (l : Limiter)
      → now ≤ next
      → WithinLimits config now l
      → WithinLimits config next (admit config account now next l)
  unfolding admit check_request record_request record_if
  admit-WithinLimits account now next l h w = elim (Bool-cases config.enabled) [
    | inl e ↦ simp e (recorded (request_decision config account now (prune now l)) refl)
    | inr e ↦ simp e (later now next l h w)
  ]
    where
      recorded :
          (d : LimitDecision)
          → request_decision config account now (prune now l) ≡ d
          → WithinLimits config next (record_if d config account next (prune now l))
      recorded allowed d =
          either_branch (WithinLimits config next) (not config.enabled)
            (later now next (prune now l) h (pruned now now l w))
            (added account now next (prune now l) h (pruned now now l w) d)
      recorded (denied reason wait) d = later now next (prune now l) h (pruned now now l w)

-- The requests that arrive: who, when it is checked and how much later it is recorded, with the
-- time since the one before.
pub record Arrival : Type 0 where
  pub account : String
  pub since_last : ℕ
  pub to_record : ℕ

pub run : Config → ℕ → Limiter → List Arrival → ℕ × Limiter
run config now l [] = (now, l)
run config now l (a ∷ rest) =
    let at = now + a.since_last in
    run config (at + a.to_record) (admit config a.account at (at + a.to_record) l) rest

pub new_limiter : Limiter
new_limiter = record {
  user_requests = [];
  global_requests = [];
  user_builds = [];
  global_builds = [];
  token_estimates = [];
}

run-keeps :
    (config : Config) (now : ℕ) (l : Limiter) (arrivals : List Arrival)
    → WithinLimits config now l
    → WithinLimits config ((run config now l arrivals).0) ((run config now l arrivals).1)
unfolding run
run-keeps config now l [] w = w
run-keeps config now l (a ∷ rest) w =
    let at = now + a.since_last in
    run-keeps config (at + a.to_record) (admit config a.account at (at + a.to_record) l) rest (
      admit-WithinLimits config a.account at (at + a.to_record) l (omega arith)
        (later config now at l (omega arith) w))

-- However many requests arrive, whatever their accounts and times, the limiter that starts empty is
-- within all four limits of requests after the last one.
pub run-WithinLimits :
    (config : Config) (start : ℕ) (arrivals : List Arrival)
    → WithinLimits config
        ((run config start new_limiter arrivals).0)
        ((run config start new_limiter arrivals).1)
unfolding new_limiter of_user count_since
run-WithinLimits config start arrivals = run-keeps config start new_limiter arrivals (record {
  per_day = λ user. omega arith;
  per_hour = λ user. omega arith;
  per_5_minutes = λ user. omega arith;
  all_users = omega arith;
})
