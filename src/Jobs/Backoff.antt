-- ===== src/Jobs/Backoff.antt =====
-- backend/internal/jobs/processor.go: how long the processor sleeps between batches, in seconds.
use native.Mathlib.Nat.{mul-le-mul_right, pow-succ', mul_assoc}
use purp_tape.Base.{
  ℕ, zero, suc, ◌*◌, ◌^◌, ◌≤◌, ◌≡◌, refl, sym, ap, ◌∙◌, inl, inr, ◌⊎◌, Bool-cases, leb, min, List,
  [], ◌∷◌, arith, ltb, if◌then◌else◌, replicate, All,
}

-- What a batch came to: an error, no job, or some jobs.
pub data Batch : Type 0 where
  batch_error : Batch
  idle : Batch
  busy : Batch

-- The sleep after the batch, if there is one, and the new `idleSleep`.
pub slept : ℕ → Batch → ℕ × ℕ
slept idle_sleep batch_error = (idle_sleep, idle_sleep)
slept idle_sleep idle = (
  idle_sleep,
  let doubled = idle_sleep * 2 in
      if ltb idle_sleep 60 then (if ltb 60 doubled then 60 else doubled) else idle_sleep,
)
slept idle_sleep busy = (0, 5)

pub sleeps : ℕ → List Batch → List ℕ
unfolding slept
sleeps idle_sleep [] = []
sleeps idle_sleep (b ∷ batches) = (slept idle_sleep b).0 ∷ sleeps (slept idle_sleep b).1 batches

pub idle_after : ℕ → List Batch → ℕ
unfolding slept
idle_after idle_sleep [] = idle_sleep
idle_after idle_sleep (b ∷ batches) = idle_after (slept idle_sleep b).1 batches

capped : ℕ → ℕ
capped s = min 60 (s * 2)

slept-capped : (s : ℕ) → s ≤ 60 → (slept s idle).1 ≡ capped s
unfolding slept capped
slept-capped s h = ground arith

grows : (s p : ℕ) → 30 ≤ s → 1 ≤ p → min 60 (60 * p) ≡ min 60 (s * (2 * p))
grows s p h one = omega (arith, long)
  where
    long : 30 * (2 * p) ≤ s * (2 * p)
    long = mul-le-mul_right (2 * p) h

one_le_pow : (n : ℕ) → 1 ≤ 2 ^ n
one_le_pow zero = omega arith
one_le_pow (suc n) = rw (pow-succ' 2 n) (omega (arith, one_le_pow n))

-- The doublings of a sleep and of the sleep after it.
capped_pow : (s n : ℕ) → min 60 (capped s * 2 ^ n) ≡ min 60 (s * 2 ^ suc n)
unfolding capped
capped_pow s n = elim (Bool-cases (leb (s * 2) 60)) [
  | inl h ↦ ap (min 60) (
      ap (λ c. c * 2 ^ n) (ground arith)
      ∙ mul_assoc s 2 (2 ^ n)
      ∙ ap (λ p. s * p) (sym (pow-succ' 2 n)))
  | inr h ↦
      ap (λ c. min 60 (c * 2 ^ n)) (ground arith)
      ∙ grows s (2 ^ n) (ground arith) (one_le_pow n)
      ∙ ap (λ p. min 60 (s * p)) (sym (pow-succ' 2 n))
]

idle_after-idle : (n s : ℕ) → s ≤ 60 → idle_after s (replicate n idle) ≡ min 60 (s * 2 ^ n)
unfolding idle_after capped
idle_after-idle zero s le = omega arith
idle_after-idle (suc n) s le =
    ap (λ t. idle_after t (replicate n idle)) (slept-capped s le)
    ∙ idle_after-idle n (capped s) (omega arith)
    ∙ capped_pow s n

-- The sleep before the batch that follows `n` batches without a job, after one that found jobs, is
-- the smaller of 60 seconds and 5 seconds doubled `n` times.
pub idle_after-busy : (n s : ℕ) → idle_after s (busy ∷ replicate n idle) ≡ min 60 (5 * 2 ^ n)
unfolding idle_after slept
idle_after-busy n s = idle_after-idle n 5 (omega arith)

slept_bounds : (s : ℕ) (b : Batch) → 5 ≤ s → s ≤ 60 → (5 ≤ (slept s b).1) × ((slept s b).1 ≤ 60)
unfolding slept
slept_bounds s batch_error ge le = (ge, le)
slept_bounds s idle ge le = (ground arith, ground arith)
slept_bounds s busy ge le = (omega arith, omega arith)

slept_now :
    (s : ℕ) (b : Batch)
    → 5 ≤ s
    → s ≤ 60
    → ((slept s b).0 ≡ 0) ⊎ ((5 ≤ (slept s b).0) × ((slept s b).0 ≤ 60))
unfolding slept
slept_now s batch_error ge le = inr (ge, le)
slept_now s idle ge le = inr (ge, le)
slept_now s busy ge le = inl refl

-- Whatever the batches come to, the processor goes on at once or sleeps between five seconds and a
-- minute, as long as it starts with such a sleep.
pub sleeps-bounds :
    (batches : List Batch) (s : ℕ)
    → 5 ≤ s
    → s ≤ 60
    → All (λ t. (t ≡ 0) ⊎ ((5 ≤ t) × (t ≤ 60))) (sleeps s batches)
unfolding sleeps
sleeps-bounds [] s ge le = tt
sleeps-bounds (b ∷ batches) s ge le =
    let next = slept_bounds s b ge le in
    (slept_now s b ge le, sleeps-bounds batches (slept s b).1 next.0 next.1)
