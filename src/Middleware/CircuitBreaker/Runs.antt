-- ===== src/Middleware/CircuitBreaker/Runs.antt =====
-- middleware/enterprise.go: sequences of calls of a circuit breaker.
use purp_tape.Base.{
  ℕ, ◌+◌, ◌≤◌, ◌<◌, ◌≡◌, refl, ◌≢◌, sym, ◌↔◌, ◌∙◌, ◌⊎◌, inl, inr, ◌++◌, String, Option, none, some,
  List, [], ◌∷◌, arith, length, All,
}
use purp_tape.Base.Int.{pos, max_int}
use purp_tape.Middleware.CircuitBreaker.{CircuitBreaker, closed, open_, half, call}

-- A call: what the function returns, and when the call begins and the function ends.
pub record Call : Type 0 where
  pub result : Option String
  pub now : ℕ
  pub ended : ℕ

abbrev after : CircuitBreaker → Call → CircuitBreaker
after cb c = (call cb c.result c.now c.ended).0

pub run : CircuitBreaker → List Call → CircuitBreaker
run cb [] = cb
run cb (c ∷ cs) = run (after cb c) cs

abbrev pub Fails : Call → Type 0
Fails c = c.result ≢ none

abbrev pub Succeeds : Call → Type 0
Succeeds c = c.result ≡ none

closed_failure :
    (cb : CircuitBreaker) (result : Option String) (now ended n threshold : ℕ)
    → cb.state ≡ closed
    → cb.failure_count ≡ pos n
    → cb.failure_threshold ≡ pos threshold
    → n < max_int
    → result ≢ none
    → let cb' = (call cb result now ended).0 in
      (cb'.failure_count ≡ pos (n + 1))
      × (cb'.failure_threshold ≡ pos threshold)
      × (n + 1 < threshold → cb'.state ≡ closed)
      × (threshold ≤ n + 1 → cb'.state ≡ open_)
unfolding call
closed_failure cb none now ended n threshold s c t m f = absurd (f refl)
closed_failure cb (some err) now ended n threshold s c t m f =
    (ground arith, ground arith, λ h. ground arith, λ h. ground arith)

-- The failures in a row after one more call, by what its function returned.
unfoldable pub counted : Option String → ℕ → ℕ
counted none n = 0
counted (some err) n = n + 1

-- The failures in a row at the end of calls, after `n` before them.
pub streak : ℕ → List Call → ℕ
streak n [] = n
streak n (c ∷ cs) = streak (counted c.result n) cs

-- Calls without as many failures in a row as the threshold, with `n` failures before them.
unfoldable pub IsCalm : (threshold n : ℕ) → List Call → Type 0
IsCalm threshold n [] = n < threshold
IsCalm threshold n (c ∷ cs) = (n < threshold) × IsCalm threshold (counted c.result n) cs

closed_success :
    (cb : CircuitBreaker) (now ended : ℕ)
    → cb.state ≡ closed
    → let cb' = (call cb none now ended).0 in
      (cb'.failure_count ≡ pos 0)
      × (cb'.failure_threshold ≡ cb.failure_threshold)
      × (cb'.state ≡ closed)
unfolding call
closed_success cb now ended s = (ground arith, ground arith, ground arith)

failed_ne : (err : String) → ◌≢◌ {A = Option String} (some err) none
failed_ne err e = ground arith

module _ (threshold : ℕ) (fits : threshold ≤ max_int) where
  calm_below : (n : ℕ) (cs : List Call) → IsCalm threshold n cs → n < threshold
  unfolding IsCalm
  calm_below n [] h = h
  calm_below n (c ∷ cs) h = h.0

  calm_step :
      (cb : CircuitBreaker) (n : ℕ) (result : Option String) (now ended : ℕ)
      → cb.state ≡ closed
      → cb.failure_count ≡ pos n
      → cb.failure_threshold ≡ pos threshold
      → n < threshold
      → counted result n < threshold
      → let cb' = (call cb result now ended).0 in
        (cb'.failure_count ≡ pos (counted result n))
        × (cb'.failure_threshold ≡ pos threshold)
        × (cb'.state ≡ closed)
  unfolding counted
  calm_step cb n none now ended s f t h l =
      let step = closed_success cb now ended s in (step.0, step.1 ∙ t, step.2)
  calm_step cb n (some err) now ended s f t h l =
      let step =
        closed_failure cb (some err) now ended n threshold s f t (omega arith) (failed_ne err) in
      (step.0, step.1, step.2 l)

  last_call :
      (cb : CircuitBreaker) (n : ℕ) (result : Option String) (now ended : ℕ)
      → cb.state ≡ closed
      → cb.failure_count ≡ pos n
      → cb.failure_threshold ≡ pos threshold
      → n < threshold
      → ((call cb result now ended).0.state ≡ open_) ↔ ((result ≢ none) × (threshold ≤ n + 1))
  last_call cb n none now ended s f t h =
      let step = closed_success cb now ended s in
      (λ e. absurd (distinct (sym step.2 ∙ e)), λ p. absurd (p.0 refl))
    where
      distinct : ¬ (closed ≡ open_)
      distinct e = ground arith
  last_call cb n (some err) now ended s f t h =
      let step =
        closed_failure cb (some err) now ended n threshold s f t (omega arith) (failed_ne err) in
      (
        λ e. (
          failed_ne err,
          elim (below_or n) [ inl l ↦ absurd (distinct (sym (step.2 l) ∙ e)) | inr g ↦ g ],
        ),
        λ p. step.3 p.1,
      )
    where
      distinct : ¬ (closed ≡ open_)
      distinct e = ground arith

      below_or : (n : ℕ) → (n + 1 < threshold) ⊎ (threshold ≤ n + 1)
      below_or n = omega arith

  -- A closed breaker with `n` failures counted stays closed during calls without as many failures in a
  -- row as its threshold, and the next call trips it if and only if that fails and completes so many.
  pub trips_at_threshold :
      (cb : CircuitBreaker) (n : ℕ) (cs : List Call) (c : Call)
      → cb.state ≡ closed
      → cb.failure_count ≡ pos n
      → cb.failure_threshold ≡ pos threshold
      → IsCalm threshold n cs
      → ((run cb cs).state ≡ closed)
        × (((run cb (cs ++ (c ∷ []))).state ≡ open_) ↔ (Fails c × (threshold ≤ streak n cs + 1)))
  unfolding run IsCalm streak
  trips_at_threshold cb n [] c s f t calm = (s, last_call cb n c.result c.now c.ended s f t calm)
  trips_at_threshold cb n (k ∷ cs) c s f t (h, calm) =
      let step =
        calm_step cb n k.result k.now k.ended s f t h (calm_below (counted k.result n) cs calm) in
      trips_at_threshold (after cb k) (counted k.result n) cs c step.2 step.0 step.1 calm

open_keeps :
    (cb : CircuitBreaker) (c : Call)
    → cb.state ≡ open_
    → c.now ≤ cb.last_failure_time + cb.timeout
    → after cb c ≡ cb
unfolding call
open_keeps cb c s w = ground arith

-- Calls that all begin before the timeout of an open breaker has passed change nothing.
pub open_fails_fast :
    (cb : CircuitBreaker) (cs : List Call)
    → cb.state ≡ open_
    → All (λ (c : Call). c.now ≤ cb.last_failure_time + cb.timeout) cs
    → run cb cs ≡ cb
unfolding run
open_fails_fast cb [] s w = refl
open_fails_fast cb (c ∷ cs) s (w, ws) = rw (open_keeps cb c s w) (open_fails_fast cb cs s ws)

half_success :
    (cb : CircuitBreaker) (now ended n threshold : ℕ)
    → cb.state ≡ half
    → cb.success_count ≡ pos n
    → cb.success_threshold ≡ pos threshold
    → n < max_int
    → let cb' = (call cb none now ended).0 in
      (cb'.success_count ≡ pos (n + 1))
      × (cb'.success_threshold ≡ pos threshold)
      × (n + 1 < threshold → cb'.state ≡ half)
      × (threshold ≤ n + 1 → (cb'.state ≡ closed) × (cb'.failure_count ≡ pos 0))
unfolding call
half_success cb now ended n threshold s c t m =
    (ground arith, ground arith, λ h. ground arith, λ h. (ground arith, ground arith))

open_success :
    (cb : CircuitBreaker) (now ended threshold : ℕ)
    → cb.state ≡ open_
    → cb.last_failure_time + cb.timeout < now
    → cb.success_threshold ≡ pos threshold
    → let cb' = (call cb none now ended).0 in
      (cb'.success_count ≡ pos 1)
      × (cb'.success_threshold ≡ pos threshold)
      × (1 < threshold → cb'.state ≡ half)
      × (threshold ≤ 1 → (cb'.state ≡ closed) × (cb'.failure_count ≡ pos 0))
unfolding call
open_success cb now ended threshold s w t =
    (ground arith, ground arith, λ h. ground arith, λ h. (ground arith, ground arith))

module _ (threshold : ℕ) (fits : threshold ≤ max_int) where
  -- What a breaker is after successes in a row, with `n` before them.
  abbrev Heals : ℕ → List Call → CircuitBreaker → Type 0
  Heals n cs cb =
      (n + length cs < threshold → cb.state ≡ half)
      × (n + length cs ≡ threshold → (cb.state ≡ closed) × (cb.failure_count ≡ pos 0))

  run-Heals :
      (cb : CircuitBreaker) (n : ℕ) (cs : List Call)
      → cb.state ≡ half
      → cb.success_count ≡ pos n
      → cb.success_threshold ≡ pos threshold
      → All Succeeds cs
      → n < threshold
      → Heals n cs (run cb cs)
  unfolding run
  run-Heals cb n [] s c t f h = (λ _. s, λ e. absurd (omega arith))
  run-Heals cb n (k ∷ []) s c t (f, fs) h =
      let step = half_success cb k.now k.ended n threshold s c t (omega arith) in
      (λ l. rw f (step.2 (omega arith)), λ e. rw f (step.3 (omega arith)))
  run-Heals cb n (k ∷ k' ∷ cs) s c t (f, fs) h =
      let step = half_success cb k.now k.ended n threshold s c t (omega arith) in
      let rest = λ (below : n + 1 < threshold).
        run-Heals (call cb none k.now k.ended).0 (n + 1) (k' ∷ cs) (step.2 below) step.0 step.1 fs
          below in
      (
        λ l. rw f ((rest (omega arith)).0 (omega arith)),
        λ e. rw f ((rest (omega arith)).1 (omega arith)),
      )

  -- An open breaker whose timeout has passed stays half-open during fewer successful calls in a row than
  -- its success threshold, and is closed, with no failure counted, after that many.
  pub heals_after_successes :
      (cb : CircuitBreaker) (c : Call) (cs : List Call)
      → cb.state ≡ open_
      → cb.last_failure_time + cb.timeout < c.now
      → cb.success_threshold ≡ pos threshold
      → All Succeeds (c ∷ cs)
      → (length (c ∷ cs) < threshold → (run cb (c ∷ cs)).state ≡ half)
        × (length (c ∷ cs) ≡ threshold
            → ((run cb (c ∷ cs)).state ≡ closed) × ((run cb (c ∷ cs)).failure_count ≡ pos 0))
  unfolding run
  heals_after_successes cb c [] s w t (f, fs) =
      let step = open_success cb c.now c.ended threshold s w t in
      (λ l. rw f (step.2 (omega arith)), λ e. rw f (step.3 (omega arith)))
  heals_after_successes cb c (k ∷ cs) s w t (f, fs) =
      let step = open_success cb c.now c.ended threshold s w t in
      let rest = λ (below : 1 < threshold).
        run-Heals (call cb none c.now c.ended).0 1 (k ∷ cs) (step.2 below) step.0 step.1 fs below in
      (
        λ l. rw f ((rest (omega arith)).0 (omega arith)),
        λ e. rw f ((rest (omega arith)).1 (omega arith)),
      )
