-- ===== src/Scheduler/Removal.antt =====
-- The jobs that `queue.remove` takes out of a queue of app/asr_gateway_scheduler.py.
use model_test.Prelude.{
  ℕ, ◌+◌, ◌≡◌, refl, List, [], ◌∷◌, Option, Bool, true, false, ◌&&◌, ◌||◌, if◌then◌else◌, length,
  select, sum_of, Text, arith, sym, subst, leb, ltb, text_eq_sound, text_eq_refl,
}
use model_test.Backends.Defs.{BackendCapabilities}
use model_test.Scheduler.{
  BatchKey, insert_job, fill_batch, batch_for, select_from, first_of, batch_limit, sessions_of,
  is_due, is_member, InferenceJob, job_samples, sort_jobs, select_batch, same_key, same_flag,
}
use model_test.Scheduler.Run.{same_deadline, same_job, remove_job, remove_jobs, until_raise}

same_flag_sound : (a b : Bool) → same_flag a b ≡ true → a ≡ b
same_flag_sound a b h = ground (arith, h)

same_key_sound : (a b : BatchKey) → same_key a b ≡ true → a ≡ b
unfolding same_key
same_key_sound a b h = ground (
  arith,
  h,
  text_eq_sound a.worker_id b.worker_id,
  text_eq_sound a.model_revision b.model_revision,
  text_eq_sound a.language b.language,
  text_eq_sound a.task b.task,
  text_eq_sound a.prompt_identity b.prompt_identity,
  text_eq_sound a.decoding_identity b.decoding_identity,
  text_eq_sound a.sample_format b.sample_format,
  same_flag_sound a.timestamps b.timestamps,
)

same_deadline_sound : (a b : Option ℕ) → same_deadline a b ≡ true → a ≡ b
same_deadline_sound a b h = ground (arith, h)

pub same_job_sound : (a b : InferenceJob) → same_job a b ≡ true → a ≡ b
unfolding same_job
same_job_sound a b h = ground (
  arith,
  h,
  text_eq_sound a.job_id b.job_id,
  text_eq_sound a.session_id b.session_id,
  text_eq_sound a.worker_id b.worker_id,
  text_eq_sound a.backend_session_id b.backend_session_id,
  text_eq_sound a.pcm b.pcm,
  same_key_sound a.batch_key b.batch_key,
  same_flag_sound a.final b.final,
  same_deadline_sound a.queue_deadline b.queue_deadline,
)

same_flag_refl : (a : Bool) → same_flag a a ≡ true
same_flag_refl a = ground arith

same_deadline_refl : (a : Option ℕ) → same_deadline a a ≡ true
same_deadline_refl a = ground arith

pub same_job_refl : (a : InferenceJob) → same_job a a ≡ true
unfolding same_job same_key
same_job_refl a =
    let k = a.batch_key in
    ground (
      arith,
      text_eq_refl a.job_id,
      text_eq_refl a.session_id,
      text_eq_refl a.worker_id,
      text_eq_refl a.backend_session_id,
      text_eq_refl a.pcm,
      same_flag_refl a.final,
      same_deadline_refl a.queue_deadline,
      text_eq_refl k.worker_id,
      text_eq_refl k.model_revision,
      text_eq_refl k.language,
      text_eq_refl k.task,
      same_flag_refl k.timestamps,
      text_eq_refl k.prompt_identity,
      text_eq_refl k.decoding_identity,
      text_eq_refl k.sample_format,
    )

-- The jobs stand in the queue, in its order.
pub data Sub : List InferenceJob → List InferenceJob → Type 0 where
  none_of : {js : List InferenceJob} → Sub [] js
  keep : {j : InferenceJob} {is js : List InferenceJob} → Sub is js → Sub (j ∷ is) (j ∷ js)
  skip : {j : InferenceJob} {is js : List InferenceJob} → Sub is js → Sub is (j ∷ js)

pub Sub-trans : {is js ks : List InferenceJob} → Sub is js → Sub js ks → Sub is ks
Sub-trans none_of y = none_of
Sub-trans x (skip y) = skip (Sub-trans x y)
Sub-trans (keep x) (keep y) = keep (Sub-trans x y)
Sub-trans (skip x) (keep y) = skip (Sub-trans x y)

pub select-Sub :
    (keep_it : InferenceJob → Bool) (js : List InferenceJob) → Sub (select keep_it js) js
select-Sub keep_it [] = none_of
select-Sub keep_it (j ∷ js) =
    elim (keep_it j)
      as (λ b. Sub (if b then j ∷ select keep_it js else select keep_it js) (j ∷ js)) [
        | true ↦ keep (select-Sub keep_it js)
        | false ↦ skip (select-Sub keep_it js)
      ]

-- A loop that may end early comes to some of the jobs.
pub until_raise-Sub :
    (rejects : InferenceJob → Bool) (js : List InferenceJob) → Sub (until_raise rejects js) js
unfolding until_raise
until_raise-Sub rejects [] = none_of
until_raise-Sub rejects (j ∷ js) =
    elim (rejects j) as (λ b. Sub (if b then j ∷ until_raise rejects js else j ∷ []) (j ∷ js)) [
      | true ↦ keep (until_raise-Sub rejects js)
      | false ↦ keep none_of
    ]

Sub-tail : {j : InferenceJob} {is js : List InferenceJob} → Sub (j ∷ is) js → Sub is js
Sub-tail (keep x) = skip x
Sub-tail (skip x) = skip (Sub-tail x)

-- Where the head of the queue is the job itself, it is the one that goes.
remove_job-first : (j : InferenceJob) (js : List InferenceJob) → remove_job j (j ∷ js) ≡ js
unfolding remove_job
remove_job-first j js = let h = same_job_refl j in ground (arith, h)

remove_job-Sub :
    (j : InferenceJob) (is js : List InferenceJob) → Sub (j ∷ is) js → Sub is (remove_job j js)
unfolding remove_job
remove_job-Sub j is [] x = elim x [ ]
remove_job-Sub j is (_ ∷ js) (keep x) = subst (λ k. Sub is k) (sym (remove_job-first j js)) x
remove_job-Sub j is (k ∷ js) (skip x) =
    elim (same_job k j) as (λ b. Sub is (if b then js else k ∷ remove_job j js)) [
      | true ↦ Sub-tail x
      | false ↦ skip (remove_job-Sub j is js x)
    ]

sum_of-remove_job :
    (f : InferenceJob → ℕ) (j : InferenceJob) (is js : List InferenceJob)
    → Sub (j ∷ is) js
    → sum_of f (remove_job j js) + f j ≡ sum_of f js
unfolding remove_job
sum_of-remove_job f j is [] x = elim x [ ]
sum_of-remove_job f j is (_ ∷ js) (keep x) = let h = same_job_refl j in ground (arith, h)
sum_of-remove_job f j is (k ∷ js) (skip x) =
    let rest = sum_of-remove_job f j is js x in
    let same = same_job_sound k j in ground (arith, rest, same)

-- The jobs that are removed and those that stay are the queue's, each as often as it stood there.
pub sum_of-remove_jobs :
    (f : InferenceJob → ℕ) (is js : List InferenceJob)
    → Sub is js
    → sum_of f (remove_jobs is js) + sum_of f is ≡ sum_of f js
unfolding remove_jobs
sum_of-remove_jobs f [] js x = omega arith
sum_of-remove_jobs f (i ∷ is) js x =
    let first = sum_of-remove_job f i is js x in
    let rest = sum_of-remove_jobs f is (remove_job i js) (remove_job-Sub i is js x) in
    omega (arith, first, rest)

sum_of-insert_job :
    (f : InferenceJob → ℕ) (j : InferenceJob) (js : List InferenceJob)
    → sum_of f (insert_job j js) ≡ f j + sum_of f js
unfolding insert_job
sum_of-insert_job f j [] = omega arith
sum_of-insert_job f j (k ∷ js) = let h = sum_of-insert_job f j js in ground (arith, h)

pub sum_of-sort_jobs :
    (f : InferenceJob → ℕ) (js : List InferenceJob) → sum_of f (sort_jobs js) ≡ sum_of f js
unfolding sort_jobs
sum_of-sort_jobs f [] = refl
sum_of-sort_jobs f (j ∷ js) =
    let h = sum_of-sort_jobs f js in
    let i = sum_of-insert_job f j (sort_jobs js) in omega (arith, h, i)

pub if-Sub :
    (test : Bool) (is ks js : List InferenceJob)
    → Sub is js
    → Sub ks js
    → Sub (if test then is else ks) js
if-Sub true is ks js x y = x
if-Sub false is ks js x y = y

fill_batch-Sub :
    (limit samples : ℕ) (sessions : List Text) (cost : ℕ) (js : List InferenceJob)
    → Sub (fill_batch limit samples sessions cost js) js
unfolding fill_batch
fill_batch-Sub limit samples sessions cost [] = none_of
fill_batch-Sub limit samples sessions cost (j ∷ js) =
    if-Sub (is_member j.session_id sessions) _ _ _
      (skip (fill_batch-Sub limit samples sessions cost js))
      (if-Sub (leb limit (length sessions) || ltb samples (cost + job_samples j)) [] _ _ none_of
        (keep (fill_batch-Sub limit samples (j.session_id ∷ sessions) (cost + job_samples j) js)))

batch_for-Sub :
    (caps : BackendCapabilities) (wait now : ℕ) (force : Bool) (first : InferenceJob)
    (js : List InferenceJob)
    → Sub (batch_for caps wait now force first js) js
unfolding batch_for
batch_for-Sub caps wait now force first js =
    let compatible = select (λ j. same_key j.batch_key first.batch_key) js in
    if-Sub
      (force || (is_due wait now first || leb (batch_limit caps) (length (sessions_of compatible))))
      _ [] js
      (Sub-trans (fill_batch-Sub (batch_limit caps) caps.max_batch_samples [] 0 compatible)
        (select-Sub (λ j. same_key j.batch_key first.batch_key) js))
      none_of

select_from-Sub :
    (caps : BackendCapabilities) (wait now : ℕ) (force : Bool) (js : List InferenceJob)
    → Sub (select_from caps wait now force js) js
unfolding select_from
select_from-Sub caps wait now force [] = none_of
select_from-Sub caps wait now force (j ∷ js) =
    batch_for-Sub caps wait now force
      (first_of (select (λ i. i.final && is_due wait now i) (j ∷ js)) j) (j ∷ js)

-- A batch is made of jobs of the sorted queue.
pub select_batch-Sub :
    (caps : BackendCapabilities) (wait now : ℕ) (force : Bool) (js : List InferenceJob)
    → Sub (select_batch caps wait now force js) (sort_jobs js)
unfolding select_batch
select_batch-Sub caps wait now force js = select_from-Sub caps wait now force (sort_jobs js)
