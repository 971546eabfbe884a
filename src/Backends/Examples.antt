-- ===== src/Backends/Examples.antt =====
-- The properties of app/asr_gateway_backends.py on a registry of two workers.
use model_test.Prelude.{
  ◌≡◌, refl, List, [], ◌∷◌, none, some, true, false, Text, text_eq, codes, ok, get_elem?,
}
use model_test.Prelude.Dict.{lookup}
use model_test.Backends.{Workers, Route, BackendLease, acquire, release_lease}
use model_test.Backends.Defs.{
  BackendCapabilities, BackendSnapshot, chunked, single, gateway, cumulative_snapshot, ready,
}
use model_test.Backends.Choice.{Acquired, acquire-Acquired}
use model_test.Backends.Ownership.{
  Call, registers, marks, acquires, drains, removes, run, RegistryIsValid, registry_one_owner,
}
use model_test.Backends.Leases.{
  LeaseCall, admits, marks_worker, takes, gives_back, lease_run, empty_pool, active_of, held,
  leases_balanced,
}

abbrev pub first_worker : BackendCapabilities
first_worker = record {
  protocol_version = 1;
  worker_id = 97 ∷ [];
  model_id = 109 ∷ [];
  model_revision = 49 ∷ [];
  gpu_id = 48 ∷ [];
  languages = codes "auto" ∷ [];
  tasks = codes "transcribe" ∷ [];
  streaming_mode = chunked;
  dispatch_mode = single;
  vad_mode = gateway;
  result_mode = cumulative_snapshot;
  preferred_chunk_samples = 10;
  max_input_samples = 20;
  max_segment_samples = 30;
  max_batch_items = 1;
  max_batch_samples = 20;
  max_in_flight = 2;
  session_capacity = 2;
  retry_safe = true;
  warmed = true;
  sample_rate = 16000;
  sample_format = codes "pcm_s16le";
  backend_id = [];
}

abbrev second_worker : BackendCapabilities
second_worker = record first_worker { worker_id = 98 ∷ []; gpu_id = 49 ∷ [] }

abbrev any_route : Route
any_route = record {
  preferred_worker_id = none;
  backend_id = none;
  language = some (codes "en");
  task = none;
  streaming_mode = some chunked;
  result_modes = none;
  model_id = none;
  model_revision = none;
}

abbrev ready_worker : BackendCapabilities → BackendSnapshot
ready_worker c = record {
  capabilities = c;
  lifecycle = ready;
  active_leases = 0;
  queued_jobs = 0;
  in_flight = 0;
  load_error = none;
}

abbrev two_workers : Workers
two_workers =
    (97 ∷ [], record (ready_worker first_worker) { active_leases = 1 })
    ∷ (98 ∷ [], ready_worker second_worker)
    ∷ []

acquire-Acquired_example : Acquired any_route two_workers (acquire any_route two_workers)
unfolding text_eq
acquire-Acquired_example = acquire-Acquired any_route two_workers ((refl, tt), (tt, tt))

abbrev registry_calls : List Call
registry_calls =
    registers first_worker
    ∷ registers (record second_worker { gpu_id = 48 ∷ [] })
    ∷ registers second_worker
    ∷ marks (98 ∷ []) true none
    ∷ acquires any_route
    ∷ drains (98 ∷ [])
    ∷ removes (97 ∷ [])
    ∷ []

registry_one_owner_example : RegistryIsValid (run [] registry_calls)
registry_one_owner_example = registry_one_owner registry_calls

abbrev lease_calls : List LeaseCall
lease_calls =
    admits first_worker
    ∷ marks_worker (97 ∷ []) true none
    ∷ takes any_route
    ∷ takes any_route
    ∷ gives_back 0
    ∷ gives_back 0
    ∷ []

leases_balanced_example :
    let p = lease_run empty_pool lease_calls in
    let l : BackendLease = record { worker_id = 97 ∷ []; is_released = false } in
    ((id : Text) → active_of (lookup id p.workers) ≡ held id p.leases)
    × (get_elem? p.leases 1 ≡ some l → (ws : Workers) × ((release_lease l p.workers).0 ≡ ok ws))
leases_balanced_example =
    leases_balanced lease_calls 1 (record { worker_id = 97 ∷ []; is_released = false })
