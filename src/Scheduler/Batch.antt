-- ===== src/Scheduler/Batch.antt =====
-- The batches that app/asr_gateway_scheduler.py dispatches.
use model_test.Prelude.{
  ℕ, ◌+◌, ◌≤◌, ◌<◌, ◌≡◌, refl, ap, ◌⊎◌, inl, inr, List, [], ◌∷◌, Bool, true, false, ◌||◌, ◌&&◌,
  if◌then◌else◌, ltb, leb, arith, length, select, sum_of, All, select-All, Bool-cases, Text,
}
use model_test.Backends.Defs.{BackendCapabilities}
use model_test.Scheduler.{
  BatchKey, InferenceJob, job_samples, same_key, is_member, fill_batch, batch_for, select_from,
  select_batch, batch_limit, sort_jobs, first_of, is_due, sessions_of,
}

-- No job is of a session that is in the list or that an earlier job is of.
abbrev pub Separate : List Text → List InferenceJob → Type 0
Separate sessions [] = Unit
Separate sessions (j ∷ js) =
    (is_member j.session_id sessions ≡ false) × Separate (j.session_id ∷ sessions) js

-- What a dispatched batch is, beside what was in it before
pub record IsFilled (limit samples : ℕ) (sessions : List Text) (cost : ℕ)
    (batch : List InferenceJob) : Type 0 where
  pub items : (batch ≡ []) ⊎ (length sessions + length batch ≤ limit)
  pub audio : (batch ≡ []) ⊎ (cost + sum_of job_samples batch ≤ samples)
  pub separate : Separate sessions batch

fill_batch-IsFilled :
    (limit samples : ℕ) (sessions : List Text) (cost : ℕ) (jobs : List InferenceJob)
    → IsFilled limit samples sessions cost (fill_batch limit samples sessions cost jobs)
unfolding fill_batch
fill_batch-IsFilled limit samples sessions cost [] = record {
  items = inl refl;
  audio = inl refl;
  separate = tt;
}
fill_batch-IsFilled limit samples sessions cost (j ∷ js) =
    let skip = fill_batch-IsFilled limit samples sessions cost js in
    let go =
      fill_batch-IsFilled limit samples (j.session_id ∷ sessions) (cost + job_samples j) js in
    elim (Bool-cases (is_member j.session_id sessions)) [
      | inl e ↦ rw e skip
      | inr e ↦
          elim (Bool-cases (leb limit (length sessions) || ltb samples (cost + job_samples j))) [
            | inl f ↦ rw (e, f) (record { items = inl refl; audio = inl refl; separate = tt })
            | inr f ↦
                let room : length sessions < limit = ground arith in
                let fits : cost + job_samples j ≤ samples = ground arith in
                rw (e, f)
                  (record {
                    items = inr (elim go.items [
                      | inl z ↦ omega (arith, ap length z)
                      | inr le ↦ omega arith
                    ]);
                    audio = inr (elim go.audio [
                      | inl z ↦ omega (arith, ap (sum_of job_samples) z)
                      | inr le ↦ omega arith
                    ]);
                    separate = (e, go.separate);
                  })
          ]
    ]

fill_batch-All :
    (P : InferenceJob → Type 0) (limit samples : ℕ) (sessions : List Text) (cost : ℕ)
    (jobs : List InferenceJob)
    → All P jobs
    → All P (fill_batch limit samples sessions cost jobs)
unfolding fill_batch
fill_batch-All P limit samples sessions cost [] h = tt
fill_batch-All P limit samples sessions cost (j ∷ js) h =
    let skip = fill_batch-All P limit samples sessions cost js h.1 in
    let go =
      fill_batch-All P limit samples (j.session_id ∷ sessions) (cost + job_samples j) js h.1 in
    ground (arith, h)

-- The jobs all have a batch key equal to one.
abbrev pub OneKey : List InferenceJob → Type 0
OneKey jobs = (key : BatchKey) × All (λ j. same_key j.batch_key key ≡ true) jobs

-- A batch is within the limits of the worker, has no two jobs of a session, and has one batch key.
pub record IsBatch (caps : BackendCapabilities) (batch : List InferenceJob) : Type 0 where
  pub filled : IsFilled (batch_limit caps) caps.max_batch_samples [] 0 batch
  pub one_key : (batch ≡ []) ⊎ OneKey batch

nothing-IsBatch : (caps : BackendCapabilities) → IsBatch caps []
nothing-IsBatch caps = record {
  filled = record { items = inl refl; audio = inl refl; separate = tt };
  one_key = inl refl;
}

if-IsBatch :
    (caps : BackendCapabilities) (go : Bool) (batch : List InferenceJob)
    → IsBatch caps batch
    → IsBatch caps (if go then batch else [])
if-IsBatch caps true batch h = h
if-IsBatch caps false batch h = nothing-IsBatch caps

batch_for-IsBatch :
    (caps : BackendCapabilities) (wait now : ℕ) (force : Bool) (first : InferenceJob)
    (queue : List InferenceJob)
    → IsBatch caps (batch_for caps wait now force first queue)
unfolding batch_for
batch_for-IsBatch caps wait now force first queue =
    let keyed = λ (j : InferenceJob). same_key j.batch_key first.batch_key in
    let jobs = select keyed queue in
    let limit = batch_limit caps in
    let a = fill_batch-IsFilled limit caps.max_batch_samples [] 0 jobs in
    let k =
      fill_batch-All (λ j. keyed j ≡ true) limit caps.max_batch_samples [] 0 jobs
        (select-All keyed queue) in
    if-IsBatch caps (force || (is_due wait now first || leb limit (length (sessions_of jobs)))) _
      (record { filled = a; one_key = inr (first.batch_key, k) })

select_from-IsBatch :
    (caps : BackendCapabilities) (wait now : ℕ) (force : Bool) (queue : List InferenceJob)
    → IsBatch caps (select_from caps wait now force queue)
unfolding select_from
select_from-IsBatch caps wait now force [] = nothing-IsBatch caps
select_from-IsBatch caps wait now force (j ∷ js) =
    let finals = select (λ i. i.final && is_due wait now i) (j ∷ js) in
    batch_for-IsBatch caps wait now force (first_of finals j) (j ∷ js)

-- Whatever is queued, due or forced: the batch that is dispatched has at most the worker's number
-- of jobs and of samples, no two jobs of one session, and one batch key.
pub select_batch-IsBatch :
    (caps : BackendCapabilities) (wait now : ℕ) (force : Bool) (queue : List InferenceJob)
    → IsBatch caps (select_batch caps wait now force queue)
unfolding select_batch
select_batch-IsBatch caps wait now force queue =
    select_from-IsBatch caps wait now force (sort_jobs queue)
