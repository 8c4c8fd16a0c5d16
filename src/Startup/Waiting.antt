-- ===== src/Startup/Waiting.antt =====
-- waitForReady of backend/internal/db/postgres.go and backend/internal/queue/redis.go, which are the
-- same loop. When each ping ends and what it says is an argument, and so is when the caller gives up.
-- Times are whole nanoseconds from the start of the loop.
use native.Mathlib.Decide.{ℕ_discrete}
use flow_cast.Base.{
  subst, ◌⊎◌, ◌&&◌, ℕ, zero, suc, ◌+◌, ◌*◌, ◌≤◌, ◌<◌, ltb, leb, Bool, true, false, ◌||◌,
  if◌then◌else◌, Option, none, some, ◌≡◌, refl, arith, Bool-cases, inl, inr,
}

abbrev pub ready_retry_interval : ℕ
ready_retry_interval = 500000000

-- For each attempt: whether the ping is answered and how long it takes, whether the context is
-- cancelled from outside, and which of the deadline and the timer is seen first where both are due.
pub record Pings : Type 0 where
  pub answers : ℕ → Bool
  pub takes : ℕ → ℕ
  pub cancelled : ℕ → Bool
  pub deadline_first : ℕ → Bool

-- The number of the attempt that was answered, or of the last one.
pub data Waited : Type 0 where
  reached unreachable : ℕ → Waited

module _ (p : Pings) (timeout : ℕ) where
  -- case <-ctx.Done()
  abbrev pub gives_up : ℕ → ℕ → Bool
  gives_up attempt now =
      p.cancelled attempt
      || (ltb timeout (now + ready_retry_interval)
          || (leb timeout (now + ready_retry_interval) && p.deadline_first attempt))

  -- The loop, with the number of the attempt and the time at which it starts.
  unfoldable pub wait_for_ready : ℕ → ℕ → ℕ → Option Waited
  wait_for_ready zero attempt now = none
  wait_for_ready (suc fuel) attempt now =
      let after = now + p.takes attempt in
      let again = wait_for_ready fuel (suc attempt) (after + ready_retry_interval) in
      if p.answers attempt
      then some (reached attempt)
      else if gives_up attempt after
      then some (unreachable attempt)
      else again

  -- The time from the start of the loop to the start of an attempt, of which some were made before: each
  -- of them took its time, and a pause followed it.
  abbrev pub elapsed : ℕ → ℕ
  elapsed zero = 0
  elapsed (suc k) = elapsed k + p.takes (suc k) + ready_retry_interval

  -- An attempt that was not answered, after which the loop went on in time.
  abbrev pub WentOn : ℕ → Type 0
  WentOn k =
      (p.answers (suc k) ≡ false) × (p.cancelled (suc k) ≡ false) × (elapsed (suc k) ≤ timeout)

  abbrev pub AllWentOn : ℕ → Type 0
  AllWentOn k = (j : ℕ) → j < k → WentOn j

  -- After some attempts that were not answered, and after which it went on in time, the loop ended at the
  -- next one: because it was answered, or because it was not and the caller gave up or the next one could
  -- not start before the timeout. That attempt itself did not start after the timeout.
  abbrev pub WaitEnds : Waited → Type 0
  WaitEnds (reached n) =
      (k : ℕ) × (n ≡ suc k) × AllWentOn k × (elapsed k ≤ timeout) × (p.answers n ≡ true)
  WaitEnds (unreachable n) =
      (k : ℕ) × (n ≡ suc k)
      × AllWentOn k
      × (elapsed k ≤ timeout)
      × (p.answers n ≡ false)
      × ((p.cancelled n ≡ true) ⊎ (timeout ≤ elapsed (suc k)))

  AllWentOn-suc : (k : ℕ) → AllWentOn k → WentOn k → AllWentOn (suc k)
  AllWentOn-suc k all last j lt = elim (ℕ_discrete k j) [
    | yes e ↦ subst WentOn e last
    | no ne ↦ all j (omega arith)
  ]

  gives_up-true :
      (attempt now : ℕ)
      → gives_up attempt now ≡ true
      → (p.cancelled attempt ≡ true) ⊎ (timeout ≤ now + ready_retry_interval)
  gives_up-true attempt now h = ground arith

  gives_up-false :
      (attempt now : ℕ)
      → gives_up attempt now ≡ false
      → (p.cancelled attempt ≡ false) × (now + ready_retry_interval ≤ timeout)
  gives_up-false attempt now h = ground arith

  -- From an attempt that is in time, enough fuel ends the loop.
  wait_for_ready-ends :
      (fuel k : ℕ)
      → AllWentOn k
      → elapsed k ≤ timeout
      → timeout < elapsed k + fuel * ready_retry_interval
      → (w : Waited) × (wait_for_ready fuel (suc k) (elapsed k) ≡ some w) × WaitEnds w
  unfolding wait_for_ready
  wait_for_ready-ends zero k all t f = absurd (omega arith)
  wait_for_ready-ends (suc fuel) k all t f = elim (Bool-cases (p.answers (suc k))) [
    | inl good ↦ (reached (suc k), rw good refl, (k, refl, all, t, good))
    | inr bad ↦ elim (Bool-cases (gives_up (suc k) (elapsed k + p.takes (suc k)))) [
      | inl stop ↦ (
        unreachable (suc k),
        rw (bad, stop) refl,
        (k, refl, all, t, bad, gives_up-true (suc k) (elapsed k + p.takes (suc k)) stop),
      )
      | inr more ↦
          let (kept_on, in_time) = gives_up-false (suc k) (elapsed k + p.takes (suc k)) more in
          let (w, e, ends) =
            wait_for_ready-ends fuel (suc k) (AllWentOn-suc k all (bad, kept_on, in_time)) in_time
              (omega arith) in
          (w, rw (bad, more) e, ends)
    ]
  ]

  -- The wait for a server ends, however the pings go, with fuel for more retry intervals than the timeout
  -- has. It ends at the first ping that is answered; or without one, but then only where the caller gave up
  -- or the next ping could not start before the timeout. Each ping starts when the earlier ones have taken
  -- their times, with a pause after each, and none starts after the timeout.
  pub wait_for_ready-terminates :
      (fuel : ℕ)
      → timeout < fuel * ready_retry_interval
      → (w : Waited) × (wait_for_ready fuel 1 0 ≡ some w) × WaitEnds w
  wait_for_ready-terminates fuel h =
      wait_for_ready-ends fuel 0 (λ j lt. absurd (omega arith)) (omega arith) (omega arith)
