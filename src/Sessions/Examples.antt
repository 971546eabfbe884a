-- ===== src/Sessions/Examples.antt =====
-- The properties of app/asr_gateway_sessions.py on a small session.
use model_test.Prelude.{
  take, drop, ◌*◌, ◌&&◌, ◌==◌, err, runtime_error, ℕ, ◌+◌, ◌≤◌, ◌<◌, ◌≡◌, refl, ◌⊎◌, List, [], ◌∷◌,
  none, some, true, false, ok, err, runtime_error, if◌then◌else◌, pos, arith, Text, text_eq, codes,
  length, Option,
}
use model_test.Prelude.Dict.{Unique, lookup}
use model_test.Chunking.{buffered_samples, sample_count}
use model_test.Chunking
use model_test.Sessions.{
  SessionReservation, GatewaySession, Call, accept_vad_input, appends, accepts_vad,
  records_discarded, reserves, acknowledges, requests_finish, succeeds, init, run, step, reserve,
  abort, acknowledge, rollback, matches_reservation, in_flight, sample_accounting, open_,
}
use model_test.Sessions.Accounting.{IsValid, IsLinked, Aborted, session_accounting}
use model_test.Sessions.Lifecycle.{abort_settles, abort_makes_stale, reserve_roundtrip}
use model_test.Sessions.Manager
use model_test.Sessions.Manager.{
  SessionManager, ManagerIsValid, create, close, retire, manager_init, manager_capacity,
  create-close,
}

abbrev new_session : GatewaySession
new_session = record {
  session_id = 97 ∷ [];
  selected_worker_id = 119 ∷ [];
  backend_session_id = 98 ∷ [];
  sample_rate = 16000;
  generation = 1;
  terminal_state = open_;
  buffer = record {
    max_samples = 4;
    bytes = [];
    base_sample = 0;
    accepted_samples = 0;
    acknowledged_samples = 0;
    discarded_samples = 0;
    reservation = none;
  };
  next_job_sequence = 1;
  reservation = none;
  reservation_released = true;
  finish_requested = false;
  accepted_samples = 0;
  external_discarded_samples = 0;
}

abbrev session_calls : List Call
session_calls =
    accepts_vad (1 ∷ 2 ∷ 3 ∷ 4 ∷ [])
    ∷ appends (1 ∷ 2 ∷ []) false
    ∷ records_discarded (pos 1)
    ∷ reserves (pos 1) false
    ∷ acknowledges 1 1
    ∷ requests_finish
    ∷ succeeds
    ∷ []

session_accounting_example :
    let t = run new_session session_calls in
    let a = sample_accounting t in
    (a.accepted ≡ a.buffered + a.reserved + a.acknowledged + a.discarded + a.pending)
    × IsLinked t t.reservation
unfolding init step Chunking.init accept_vad_input
session_accounting_example =
    session_accounting (97 ∷ []) (119 ∷ []) (98 ∷ []) 16000 (pos 4) new_session session_calls refl
      (ground arith)

abbrev fed_session : GatewaySession
fed_session = record new_session {
  buffer = record new_session.buffer { bytes = 1 ∷ 2 ∷ 3 ∷ 4 ∷ []; accepted_samples = 2 };
  accepted_samples = 2;
}

fed_session-IsValid : IsValid fed_session
fed_session-IsValid = ground arith

abort_settles_example :
    let t = (abort fed_session).1 in
    ((abort fed_session).0 ≡ ok tt) × Aborted fed_session t × (abort t ≡ (ok tt, t))
abort_settles_example = abort_settles fed_session fed_session-IsValid refl

abbrev first_job : SessionReservation
first_job = record {
  job_sequence = 1;
  generation = 1;
  chunk = record { start_sample = 0; end_sample = 1; pcm = 1 ∷ 2 ∷ []; final = false };
}

abbrev busy_session : GatewaySession
busy_session = record fed_session {
  buffer = record fed_session.buffer { reservation = some first_job.chunk };
  next_job_sequence = 2;
  reservation = some first_job;
  reservation_released = false;
}

busy_session-IsValid : IsValid busy_session
busy_session-IsValid = ground arith

abort_makes_stale_example :
    let t = (abort busy_session).1 in
    (acknowledge 1 1 t ≡ err (runtime_error "stale generation result"))
    × (matches_reservation 1 0 1 t ≡ false)
    × (rollback 1 t ≡ ok (false, t))
abort_makes_stale_example = abort_makes_stale busy_session 1 0 1 busy_session-IsValid refl

reserve_roundtrip_example :
    let first = fed_session.buffer.base_sample in
    (first_job.job_sequence ≡ 1)
    × (first_job.generation ≡ 1)
    × (busy_session.next_job_sequence ≡ 1 + 1)
    × (first_job.chunk.start_sample ≡ first)
    × (first_job.chunk.end_sample ≡ first + 1)
    × (first_job.chunk.pcm ≡ take (1 * 2) fed_session.buffer.bytes)
    × (matches_reservation 2 0 1 busy_session ≡ ((2 == 1) && ((0 == first) && (1 == first + 1))))
    × ((u : GatewaySession) × (acknowledge 1 1 busy_session ≡ ok (first_job.chunk, u))
        × (in_flight u ≡ false)
        × (u.buffer.bytes ≡ drop (1 * 2) fed_session.buffer.bytes)
        × (u.buffer.base_sample ≡ first + 1))
    × (rollback 1 busy_session ≡ ok (true, record fed_session { next_job_sequence = 2 }))
    × ((2 == 1) ≡ false → rollback 2 busy_session ≡ ok (false, busy_session))
unfolding reserve Chunking.reserve_range
reserve_roundtrip_example =
    reserve_roundtrip fed_session busy_session 1 false first_job 2 0 1 fed_session-IsValid refl

abbrev empty_manager : SessionManager
empty_manager = record { max_sessions = 1; sessions = [] }

abbrev manager_calls : List Manager.Call
manager_calls =
    Manager.creates (97 ∷ []) (119 ∷ []) (98 ∷ []) 16000 (pos 4)
    ∷ Manager.creates (98 ∷ []) (119 ∷ []) (98 ∷ []) 16000 (pos 4)
    ∷ Manager.closes (97 ∷ [])
    ∷ []

manager_capacity_example :
    let m = Manager.run empty_manager manager_calls in
    (length m.sessions ≤ m.max_sessions) × Unique m.sessions
unfolding manager_init
manager_capacity_example = manager_capacity (pos 1) empty_manager manager_calls refl

abbrev one_session : SessionManager
one_session = record { max_sessions = 1; sessions = (97 ∷ [], new_session) ∷ [] }

-- A session of another name is refused while the first is there.
abbrev other_calls : List Manager.Call
other_calls =
    Manager.creates (98 ∷ []) (119 ∷ []) (98 ∷ []) 16000 (pos 4) ∷ Manager.closes (98 ∷ []) ∷ []

create-close_example :
    let busy = Manager.run one_session other_calls in
    let t : GatewaySession = record new_session { generation = 2 } in
    let closed = (close (97 ∷ []) busy).1 in
    (new_session.generation ≡ 1)
    × (lookup (97 ∷ []) busy.sessions ≡ some new_session)
    × ((close (97 ∷ []) busy).0 ≡ some t)
    × (acknowledge 1 1 t ≡ err (runtime_error "stale generation result"))
    × ((close (97 ∷ []) closed).0 ≡ none)
    × (lookup (98 ∷ []) closed.sessions
        ≡ (if text_eq (97 ∷ []) (98 ∷ []) then none else lookup (98 ∷ []) busy.sessions))
unfolding create init Chunking.init lookup Manager.add_created model_test.Prelude.Dict.put text_eq
create-close_example =
    create-close (97 ∷ []) (119 ∷ []) (98 ∷ []) (98 ∷ []) 16000 (pos 4) empty_manager one_session
      new_session other_calls 1 (record { unique = tt; bounded = omega arith }) refl
      (refl, (refl, tt))
