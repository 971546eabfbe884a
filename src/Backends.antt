-- ===== src/Backends.antt =====
-- app/asr_gateway_backends.py: `BackendRegistry` and `BackendLease`. The registry's lock makes each
-- method one step. The children hold the data, the choice of a worker and the registry's laws.
pub mod Defs
pub mod Choice
pub mod Ownership
pub mod Leases
pub mod Examples
use model_test.Prelude.{
  ℕ, ◌+◌, ◌-◌, List, [], ◌∷◌, Option, none, some, Bool, true, false, ◌&&◌, ◌||◌, not, any, ltb,
  ◌==◌, if◌then◌else◌, select, Text, text_eq, text_ltb, codes, Result, ok, err, Error, value_error,
  runtime_error, key_error, ◌>>=◌, ◌>>◌, raise_if,
}
use model_test.Prelude.Dict.{Dict, lookup, put, delete}
use Defs.{
  StreamingMode, stateful, chunked, rolling, offline, ResultMode, cumulative_snapshot,
  replaceable_segment, confirmed_plus_tail, WorkerLifecycle, starting, ready, draining, failed,
  BackendCapabilities, BackendSnapshot, accepting, is_nil,
}

abbrev pub Workers : Type 0
Workers = Dict BackendSnapshot

-- `immutable_identity`, compared
pub same_identity : BackendCapabilities → BackendCapabilities → Bool
same_identity a b =
    text_eq a.worker_id b.worker_id
    && (text_eq a.model_id b.model_id
        && (text_eq a.model_revision b.model_revision && text_eq a.gpu_id b.gpu_id))

-- The model owner of a GPU
abbrev pub owns : Text → Text × BackendSnapshot → Bool
owns gpu (key, w) = text_eq w.capabilities.gpu_id gpu

abbrev fresh_snapshot : BackendCapabilities → BackendSnapshot
fresh_snapshot c = record {
  capabilities = c;
  lifecycle = starting;
  active_leases = 0;
  queued_jobs = 0;
  in_flight = 0;
  load_error = none;
}

-- `register`, on the worker that has the identifier
unfoldable pub register_at :
    BackendCapabilities → Option BackendSnapshot → Workers → Result (BackendSnapshot × Workers)
register_at c (some current) ws =
    if same_identity current.capabilities c
    then ok (
      record current { capabilities = c },
      put c.worker_id (record current { capabilities = c }) ws,
    )
    else err (value_error "immutable model identity changed on re-registration")
register_at c none ws =
    if any (owns c.gpu_id) ws
    then err (value_error "gpu_id already has model owner")
    else ok (fresh_snapshot c, put c.worker_id (fresh_snapshot c) ws)

-- `register`
unfoldable pub register : BackendCapabilities → Workers → Result (BackendSnapshot × Workers)
unfolding register_at
register c ws = register_at c (lookup c.worker_id ws) ws

-- `_worker`, and then a write to what it returned
unfoldable pub update_at :
    Text
    → (BackendSnapshot → Result BackendSnapshot)
    → Option BackendSnapshot
    → Workers
    → Result Workers
update_at id change none ws = err (key_error "unknown worker_id")
update_at id change (some w) ws = do changed ← change w; ok (put id changed ws)

abbrev pub update_worker :
    Text → (BackendSnapshot → Result BackendSnapshot) → Workers → Result Workers
update_worker id change ws = update_at id change (lookup id ws) ws

abbrev pub set_ready : Bool → Option Text → BackendSnapshot → Result BackendSnapshot
set_ready is_up error w =
    ok (record w { lifecycle = if is_up then ready else failed; load_error = error })

-- `mark_ready`
unfoldable pub mark_ready : Text → Bool → Option Text → Workers → Result Workers
mark_ready id is_up error ws = update_worker id (set_ready is_up error) ws

-- What a client asks of a worker; `none` asks nothing.
pub record Route : Type 0 where
  pub preferred_worker_id : Option Text
  pub backend_id : Option Text
  pub language : Option Text
  pub task : Option Text
  pub streaming_mode : Option StreamingMode
  pub result_modes : Option (List ResultMode)
  pub model_id : Option Text
  pub model_revision : Option Text

abbrev pub asks {ℓ} : {A : Type ℓ} → Option A → (A → Bool) → Bool
asks none test = true
asks (some a) test = test a

abbrev pub member : Text → List Text → Bool
member t ts = any (text_eq t) ts

abbrev pub same_streaming : StreamingMode → StreamingMode → Bool
same_streaming stateful stateful = true
same_streaming chunked chunked = true
same_streaming rolling rolling = true
same_streaming offline offline = true
same_streaming _ _ = false

abbrev pub same_result : ResultMode → ResultMode → Bool
same_result cumulative_snapshot cumulative_snapshot = true
same_result replaceable_segment replaceable_segment = true
same_result confirmed_plus_tail confirmed_plus_tail = true
same_result _ _ = false

-- The filters of `acquire`, all together
pub fits : Route → BackendCapabilities → Bool
fits r c =
    asks r.preferred_worker_id (text_eq c.worker_id)
    && (asks r.backend_id (text_eq (if is_nil c.backend_id then c.worker_id else c.backend_id))
        && (asks r.language (λ l.
              text_eq l (codes "auto")
              || (member l c.languages || member (codes "auto") c.languages))
            && (asks r.task (λ t. member t c.tasks)
                && (asks r.streaming_mode (same_streaming c.streaming_mode)
                    && (asks r.result_modes (any (same_result c.result_mode))
                        && (asks r.model_id (text_eq c.model_id)
                            && asks r.model_revision (text_eq c.model_revision)))))))

abbrev pub is_candidate : Route → Text × BackendSnapshot → Bool
is_candidate r (key, w) = accepting w && fits r w.capabilities

-- `(active_leases, in_flight, worker_id)`, compared
pub less_loaded : BackendSnapshot → BackendSnapshot → Bool
less_loaded a b =
    ltb a.active_leases b.active_leases
    || ((a.active_leases == b.active_leases)
        && (ltb a.in_flight b.in_flight
            || ((a.in_flight == b.in_flight)
                && text_ltb a.capabilities.worker_id b.capabilities.worker_id)))

-- `min(candidates, key=...)`: the first of the least
unfoldable pub least : Text × BackendSnapshot → Workers → Text × BackendSnapshot
least best [] = best
least best (w ∷ ws) = least (if less_loaded w.1 best.1 then w else best) ws

pub record BackendLease : Type 0 where
  pub worker_id : Text
  pub is_released : Bool

-- `acquire`, on the candidates
unfoldable pub acquire_from : Workers → Workers → Result (BackendLease × Workers)
acquire_from [] ws = err (runtime_error "unsupported backend route or no ready capacity")
acquire_from (c ∷ cs) ws =
    let (key, w) = least c cs in
    ok (
      record { worker_id = w.capabilities.worker_id; is_released = false },
      put key (record w { active_leases = w.active_leases + 1 }) ws,
    )

-- `acquire`
unfoldable pub acquire : Route → Workers → Result (BackendLease × Workers)
unfolding acquire_from
acquire r ws = acquire_from (select (is_candidate r) ws) ws

abbrev pub drop_lease : BackendSnapshot → Result BackendSnapshot
drop_lease w =
    if w.active_leases == 0
    then err (runtime_error "active lease accounting underflow")
    else ok (record w { active_leases = w.active_leases - 1 })

-- `release`
unfoldable pub release : Text → Workers → Result Workers
release id ws = update_worker id drop_lease ws

-- `BackendLease.release`; the flag is set before the registry is asked
unfoldable pub release_lease : BackendLease → Workers → Result Workers × BackendLease
release_lease lease ws =
    if lease.is_released
    then (ok ws, lease)
    else (release lease.worker_id ws, record lease { is_released = true })

abbrev pub set_draining : BackendSnapshot → Result BackendSnapshot
set_draining w = ok (record w { lifecycle = draining })

-- `begin_drain`
unfoldable pub begin_drain : Text → Workers → Result Workers
begin_drain id ws = update_worker id set_draining ws

-- `remove`
unfoldable pub remove : Text → Workers → Result Workers
remove id ws = elim (lookup id ws) [
  | none ↦ err (key_error "unknown worker_id")
  | some w ↦ do
    raise_if (not (w.active_leases == 0)) (runtime_error "cannot remove worker with active leases")
    ok (delete id ws)
]

-- `snapshot["ready"]`
unfoldable pub is_any_accepting : Workers → Bool
is_any_accepting ws = any (λ kw. accepting kw.1) ws
