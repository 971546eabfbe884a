-- ===== src/Inference/Ownership.antt =====
-- Who holds a session of the coordinator of app/asr_inference.py.
use model_test.Prelude.{
  ℕ, ◌+◌, ◌≤◌, ◌<◌, ◌≡◌, List, [], ◌∷◌, Option, none, some, Bool, true, false, ◌&&◌, ◌||◌, not,
  if◌then◌else◌, arith, Option-cases, inl, inr, sum_of, sum_of-append, Text, text_eq, text_eq_refl,
  text_eq_sound,
}
use model_test.Inference.State.{
  Settings, Action, create_stream, create_chunked_stream, Job, Worker, idle, took, tested, warmed,
  claimed, running, executed, Coordinator, is_in, include, discard, require_accepting,
  require_session_admissible, release_stream_reservation, release_session_reservation,
  release_audio,
}
use model_test.Inference.Admission.{
  submit, submit_accepted, reserve_stream, reserve_operation, enqueue, enqueued, put_nowait,
  give_up, new_job, operation_request, stream_request, file_request,
}
use model_test.Inference.Worker.{settle, cleanup_poisoned_session}
use model_test.Inference.Jobs.{of_worker}

pub is_in-include :
    (id t : Text) (us : List Text) → is_in id (include t us) ≡ (text_eq t id || is_in id us)
unfolding include is_in
is_in-include id t us = ground (arith, text_eq_sound t id)

pub is_in-discard :
    (id t : Text) (us : List Text) → is_in id (discard t us) ≡ (not (text_eq t id) && is_in id us)
unfolding is_in discard
is_in-discard id t [] = ground arith
is_in-discard id t (u ∷ us) = ground (
  arith,
  is_in-discard id t us,
  text_eq_sound u t,
  text_eq_sound u id,
  text_eq_sound t id,
  text_eq_refl t,
)

-- A job of the session
abbrev pub is_of : Text → Option Text → Bool
is_of id none = false
is_of id (some t) = text_eq t id

-- The jobs of a session: those that hold its operation, those that hold its reservation as a
-- stream, and others
abbrev pub holding : Text → Job → ℕ
holding id job = if is_of id job.session_id && job.holds_session then 1 else 0

abbrev pub reserving : Text → Job → ℕ
reserving id job = if is_of id job.session_id && job.holds_stream then 1 else 0

abbrev pub plain : Text → Job → ℕ
plain id job =
    if is_of id job.session_id && (not job.holds_session && not job.holds_stream) then 1 else 0

-- A job that would open a session holds its reservation, and no other job holds one.
abbrev pub is_creation : Action → Bool
is_creation (create_stream language) = true
is_creation (create_chunked_stream language) = true
is_creation _ = false

abbrev pub mismatch : Job → ℕ
mismatch job =
    if is_creation job.action
    then (if job.holds_stream then 0 else 1)
    else (if job.holds_stream then 1 else 0)

-- What the worker's job counts for until it is run
abbrev pub of_unrun : (Job → ℕ) → Worker → ℕ
of_unrun f (executed job) = 0
of_unrun f idle = 0
of_unrun f (took job) = f job
of_unrun f (tested job) = f job
of_unrun f (warmed job) = f job
of_unrun f (claimed job) = f job
of_unrun f (running job) = f job

abbrev pub count_in : (Job → ℕ) → Worker → List Job → ℕ
count_in f w jobs = of_worker f w + sum_of f jobs

abbrev pub count : (Job → ℕ) → Coordinator → ℕ
count f s = count_in f s.worker s.jobs

-- A session is busy while one job holds it; at most one job of it is unfinished; an active session
-- has its reservation, and so has one that is being created, which is not active yet.
pub record Owned (id : Text) (w : Worker) (jobs : List Job)
    (busy_ones active reservations : List Text) : Type 0 where
  pub busy : count_in (holding id) w jobs ≡ (if is_in id busy_ones then 1 else 0)
  pub single :
      count_in (holding id) w jobs + (count_in (reserving id) w jobs + count_in (plain id) w jobs)
      ≤ 1
  pub reserved : is_in id active ≡ true → is_in id reservations ≡ true
  pub creation :
      0 < count_in (reserving id) w jobs
      → (is_in id reservations ≡ true) × (is_in id active ≡ false)
  pub matched : of_unrun mismatch w + sum_of mismatch jobs ≡ 0

abbrev pub SessionIsValid : Text → Coordinator → Type 0
SessionIsValid id s =
    Owned id s.worker s.jobs s.busy_sessions s.active_sessions s.stream_reservations

pub if-SessionIsValid :
    (id : Text) (test : Bool) (s t : Coordinator)
    → SessionIsValid id s
    → SessionIsValid id t
    → SessionIsValid id (if test then s else t)
if-SessionIsValid id true s t v w = v
if-SessionIsValid id false s t v w = w

pub operation-SessionIsValid :
    (id t : Text) (c : Settings) (now : ℕ) (action : Action) (audio timeout : ℕ) (s : Coordinator)
    → SessionIsValid id s
    → is_creation action ≡ false
    → (text_eq t id ≡ true → count (reserving id) s + count (plain id) s ≡ 0)
    → SessionIsValid id (submit c now (operation_request action t audio timeout) s).1
unfolding submit submit_accepted reserve_stream reserve_operation enqueue enqueued put_nowait
    give_up new_job require_accepting require_session_admissible release_stream_reservation
operation-SessionIsValid id t c now action audio timeout s v a k =
    let job = new_job now s.next_sequence (operation_request action t audio timeout) in
    ground (
      arith,
      v,
      k,
      is_in-include id t s.busy_sessions,
      is_in-discard id t (include t s.busy_sessions),
      text_eq_sound t id,
      sum_of-append (holding id) s.jobs (job ∷ []),
      sum_of-append (reserving id) s.jobs (job ∷ []),
      sum_of-append (plain id) s.jobs (job ∷ []),
      sum_of-append mismatch s.jobs (job ∷ []),
    )

pub creation-SessionIsValid :
    (id t : Text) (c : Settings) (now : ℕ) (action : Action) (timeout : ℕ) (s : Coordinator)
    → SessionIsValid id s
    → is_creation action ≡ true
    → (text_eq t id ≡ true
        → (count (holding id) s + (count (reserving id) s + count (plain id) s) ≡ 0)
          × (is_in id s.active_sessions ≡ false))
    → SessionIsValid id (submit c now (stream_request action t timeout) s).1
unfolding submit submit_accepted reserve_stream reserve_operation enqueue enqueued put_nowait
    give_up new_job require_accepting release_stream_reservation
creation-SessionIsValid id t c now action timeout s v a k =
    let job = new_job now s.next_sequence (stream_request action t timeout) in
    ground (
      arith,
      v,
      k,
      is_in-include id t s.stream_reservations,
      is_in-discard id t s.busy_sessions,
      is_in-discard id t (include t s.stream_reservations),
      sum_of-append (holding id) s.jobs (job ∷ []),
      sum_of-append (reserving id) s.jobs (job ∷ []),
      sum_of-append (plain id) s.jobs (job ∷ []),
      sum_of-append mismatch s.jobs (job ∷ []),
    )

pub file-SessionIsValid :
    (id : Text) (c : Settings) (now timeout : ℕ) (path : Text) (language : Option Text)
    (s : Coordinator)
    → SessionIsValid id s
    → SessionIsValid id (submit c now (file_request path language timeout) s).1
unfolding submit submit_accepted reserve_stream reserve_operation enqueue enqueued put_nowait
    give_up new_job require_accepting release_stream_reservation
file-SessionIsValid id c now timeout path language s v =
    let job = new_job now s.next_sequence (file_request path language timeout) in
    ground (
      arith,
      v,
      sum_of-append (holding id) s.jobs (job ∷ []),
      sum_of-append (reserving id) s.jobs (job ∷ []),
      sum_of-append (plain id) s.jobs (job ∷ []),
      sum_of-append mismatch s.jobs (job ∷ []),
    )

-- The worker's job as a job of the session
abbrev pub counts_of : Text → Job → ℕ
counts_of id job = holding id job + (reserving id job + plain id job)

pub settle-SessionIsValid :
    (id : Text) (job : Job) (s : Coordinator)
    → SessionIsValid id s
    → ((f : Job → ℕ) → of_worker f s.worker ≡ f job)
    → SessionIsValid id (settle job s)
unfolding settle cleanup_poisoned_session release_audio release_session_reservation
    release_stream_reservation
settle-SessionIsValid id job s v h = elim (Option-cases job.session_id) [
  | inl e ↦ ground (arith, v, h (holding id), h (reserving id), h (plain id))
  | inr (t, e) ↦ ground (
    arith,
    v,
    h (holding id),
    h (reserving id),
    h (plain id),
    text_eq_sound t id,
    is_in-discard id t s.busy_sessions,
    is_in-discard id t (discard t s.busy_sessions),
    is_in-discard id t s.active_sessions,
    is_in-discard id t s.stream_reservations,
    is_in-discard id t (discard t s.stream_reservations),
  )
]
