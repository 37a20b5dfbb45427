-- ===== src/Db/Jobs/Claims.antt =====
-- Which jobs a claim hands out.
use purp_tape.Base.{
  ℕ, zero, suc, ◌<◌, ◌≡◌, refl, sym, subst, ◌≢◌, ◌⊎◌, All, arith, true, false, inl, inr, String,
  List, [], ◌∷◌, Bool-cases,
}
use purp_tape.Base.Int.{ℤ, pos, negsuc, le_int}
use purp_tape.Db.Jobs.Laws.{IsRunning}
use purp_tape.Db.Jobs.{JobData, pending, processing, claimable, claim, limit_of, claim_pending_jobs}

abbrev pub started : JobData → JobData
started job = record job { status = processing }

abbrev pub IsWaiting : JobData → Type 0
IsWaiting job = (job.status ≡ pending) × (job.attempts < job.max_attempts)

-- A claim of at most so many jobs: the table before and after it, and the jobs that it hands out. The
-- waiting ones are taken as they come, marked as processing, until so many are; no other row changes.
pub data IsClaim : ℕ → List JobData → List JobData → List JobData → Type 0 where
  stopped : (table : List JobData) → IsClaim 0 table table []
  ended : (n : ℕ) → IsClaim n [] [] []
  passed :
      (n : ℕ) (job : JobData) (table after claimed : List JobData)
      → ¬ IsWaiting job
      → IsClaim n table after claimed
      → IsClaim n (job ∷ table) (job ∷ after) claimed
  taken :
      (n : ℕ) (job : JobData) (table after claimed : List JobData)
      → IsWaiting job
      → IsClaim n table after claimed
      → IsClaim (suc n) (job ∷ table) (started job ∷ after) (started job ∷ claimed)

claimable-IsWaiting : (job : JobData) → claimable job ≡ true → IsWaiting job
unfolding claimable
claimable-IsWaiting job h = (ground arith, ground arith)

not-IsWaiting : (job : JobData) → claimable job ≡ false → ¬ IsWaiting job
unfolding claimable
not-IsWaiting job h (status, attempts) = ground (arith, h, status, attempts)

claim-IsClaim :
    (limit : ℕ) (table : List JobData)
    → IsClaim limit table (claim limit table).0 (claim limit table).1
unfolding claim
claim-IsClaim limit [] = ended limit
claim-IsClaim zero (job ∷ table) = stopped (job ∷ table)
claim-IsClaim (suc limit) (job ∷ table) = elim (Bool-cases (claimable job)) [
  | inl h ↦ rw h (taken limit job table _ _ (claimable-IsWaiting job h) (claim-IsClaim limit table))
  | inr h ↦
      rw h
        (passed (suc limit) job table _ _ (not-IsWaiting job h) (claim-IsClaim (suc limit) table))
]

-- A limit that is not positive counts as 10.
abbrev pub IsLimit : ℤ → ℕ → Type 0
IsLimit limit n = ((limit ≡ pos n) × (0 < n)) ⊎ ((le_int limit (pos 0) ≡ true) × (n ≡ 10))

limit_lem : (limit : ℤ) (n : ℕ) → IsLimit limit n → limit_of limit ≡ n
unfolding limit_of
limit_lem (pos zero) n (inl (e, h)) = ground (arith, e, h)
limit_lem (pos zero) n (inr (h, e)) = sym e
limit_lem (pos (suc m)) n (inl (e, h)) = ground (arith, e)
limit_lem (pos (suc m)) n (inr (h, e)) = absurd (ground (arith, h))
limit_lem (negsuc m) n (inl (e, h)) = absurd (ground (arith, e))
limit_lem (negsuc m) n (inr (h, e)) = sym e

-- A claim goes through the table in its order, takes the jobs that are pending with attempts left until
-- it has as many as the limit says, hands them out marked as processing, and changes no other row.
pub claim_pending_jobs-IsClaim :
    (table : List JobData) (limit : ℤ) (n : ℕ)
    → IsLimit limit n
    → IsClaim n table (claim_pending_jobs table limit).0 (claim_pending_jobs table limit).1
unfolding claim_pending_jobs
claim_pending_jobs-IsClaim table limit n h =
    subst (λ m. IsClaim m table (claim (limit_of limit) table).0 (claim (limit_of limit) table).1)
      (limit_lem limit n h) (claim-IsClaim (limit_of limit) table)

-- No two rows have the same key.
abbrev pub Distinct : List JobData → Type 0
Distinct [] = Unit
Distinct (job ∷ table) = All (λ row. row.id ≢ job.id) table × Distinct table

claim-All :
    (P : String → Type 0) (table : List JobData) (limit : ℕ)
    → All (λ row. P row.id) table
    → All (λ row. P row.id) (claim limit table).0 × All (λ row. P row.id) (claim limit table).1
unfolding claim
claim-All P [] zero all = (tt, tt)
claim-All P [] (suc limit) all = (tt, tt)
claim-All P (job ∷ table) zero all = (all, tt)
claim-All P (job ∷ table) (suc limit) (here, all) = elim (Bool-cases (claimable job)) [
  | inl h ↦ let rest = claim-All P table limit all in rw h ((here, rest.0), (here, rest.1))
  | inr h ↦ let rest = claim-All P table (suc limit) all in rw h ((here, rest.0), rest.1)
]

-- Rows of other keys say nothing about a key.
other_keys :
    (id : String) (table : List JobData) → All (λ row. row.id ≢ id) table → IsRunning id table
other_keys id [] others = tt
other_keys id (row ∷ table) (here, others) = (λ e. absurd (here e), other_keys id table others)

add-IsRunning :
    (job : JobData) (rows claimed : List JobData)
    → All (λ c. c.id ≢ job.id) claimed
    → All (λ c. IsRunning c.id rows) claimed
    → All (λ c. IsRunning c.id (job ∷ rows)) claimed
add-IsRunning job rows [] apart running = tt
add-IsRunning job rows (c ∷ claimed) (here, apart) (runs, running) =
    ((λ e. absurd (here (sym e)), runs), add-IsRunning job rows claimed apart running)

claim-IsRunning :
    (table : List JobData) (limit : ℕ)
    → Distinct table
    → All (λ c. IsRunning c.id (claim limit table).0) (claim limit table).1
      × Distinct (claim limit table).1
unfolding claim
claim-IsRunning [] zero distinct = (tt, tt)
claim-IsRunning [] (suc limit) distinct = (tt, tt)
claim-IsRunning (job ∷ table) zero distinct = (tt, tt)
claim-IsRunning (job ∷ table) (suc limit) (apart, distinct) = elim (Bool-cases (claimable job)) [
  | inl h ↦
      let rest = claim-IsRunning table limit distinct in
      let others = claim-All (λ id. id ≢ job.id) table limit apart in
      rw h (
        (
          (λ e. refl, other_keys job.id _ others.0),
          add-IsRunning (started job) _ _ others.1 rest.0,
        ),
        (others.1, rest.1),
      )
  | inr h ↦
      let rest = claim-IsRunning table (suc limit) distinct in
      let others = claim-All (λ id. id ≢ job.id) table (suc limit) apart in
      rw h (add-IsRunning job _ _ others.1 rest.0, rest.1)
]

-- The jobs that a claim returns are all being processed, and no two of them have the same key.
pub claimed-IsRunning :
    (table : List JobData) (limit : ℤ)
    → Distinct table
    → All
        (λ c. IsRunning c.id (claim_pending_jobs table limit).0)
        (claim_pending_jobs table limit).1
      × Distinct (claim_pending_jobs table limit).1
unfolding claim_pending_jobs
claimed-IsRunning table limit distinct = claim-IsRunning table (limit_of limit) distinct
