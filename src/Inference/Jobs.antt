-- ===== src/Inference/Jobs.antt =====
-- Sums over the jobs of the coordinator of app/asr_inference.py: those queued and the worker's.
use model_test.Prelude.{
  ℕ, ◌+◌, ◌≡◌, refl, List, Option, none, some, Text, ◌≤◌, [], ◌∷◌, if◌then◌else◌, arith, length,
  map, sum_of,
}
use model_test.Inference.State.{
  include, discard, discard_some, is_shutdown, Job, Worker, idle, took, tested, warmed, claimed,
  running, executed,
}
use model_test.Inference.Worker.{pick, precedes}
use model_test.Inference.Machine.{cancel, cancel_taken}

-- What the worker's job counts for
abbrev pub of_worker : (Job → ℕ) → Worker → ℕ
of_worker f idle = 0
of_worker f (took job) = f job
of_worker f (tested job) = f job
of_worker f (warmed job) = f job
of_worker f (claimed job) = f job
of_worker f (running job) = f job
of_worker f (executed job) = f job

abbrev pub is_business : Job → ℕ
is_business job = if is_shutdown job.action then 0 else 1

abbrev pub is_control : Job → ℕ
is_control job = if is_shutdown job.action then 1 else 0

pub length_split :
    (jobs : List Job) → length jobs ≡ sum_of is_business jobs + sum_of is_control jobs
length_split [] = omega arith
length_split (j ∷ js) = ground (arith, length_split js)

pub sum_of-pick :
    (f : Job → ℕ) (best : Job) (js : List Job)
    → f (pick best js).0 + sum_of f (pick best js).1 ≡ f best + sum_of f js
unfolding pick
sum_of-pick f best [] = refl
sum_of-pick f best (j ∷ js) = ground (arith, sum_of-pick f (if precedes j best then j else best) js)

-- A measure that does not look at what a caller cancels
abbrev pub IgnoresCancel : (Job → ℕ) → Type 0
IgnoresCancel f = (n : ℕ) (job : Job) → f (cancel n job) ≡ f job

pub sum_of-cancel :
    (f : Job → ℕ) (n : ℕ) (js : List Job)
    → IgnoresCancel f
    → sum_of f (map (cancel n) js) ≡ sum_of f js
sum_of-cancel f n [] h = refl
sum_of-cancel f n (j ∷ js) h = omega (arith, h n j, sum_of-cancel f n js h)

pub of_worker-cancel :
    (f : Job → ℕ) (n : ℕ) (w : Worker)
    → IgnoresCancel f
    → of_worker f (cancel_taken n w) ≡ of_worker f w
unfolding cancel_taken
of_worker-cancel f n idle h = refl
of_worker-cancel f n (took job) h = h n job
of_worker-cancel f n (tested job) h = h n job
of_worker-cancel f n (warmed job) h = h n job
of_worker-cancel f n (claimed job) h = refl
of_worker-cancel f n (running job) h = refl
of_worker-cancel f n (executed job) h = refl

pub length-include : (t : Text) (us : List Text) → length (include t us) ≤ length us + 1
unfolding include
length-include t us = ground arith

pub length-discard : (t : Text) (us : List Text) → length (discard t us) ≤ length us
unfolding discard
length-discard t [] = ground arith
length-discard t (u ∷ us) = let h = length-discard t us in ground (arith, h)

pub length-discard_some :
    (o : Option Text) (us : List Text) → length (discard_some o us) ≤ length us
length-discard_some none us = ground arith
length-discard_some (some t) us = length-discard t us
