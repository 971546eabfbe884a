-- ===== src/Metrics.antt =====
-- app/asr_gateway_metrics.py and the values that it keeps from app/asr_observability.py. Measured
-- times and values are natural numbers on one scale; the ratios of the snapshots are not modelled.
pub mod Laws
pub mod Ranks
pub mod Examples
use model_test.Prelude.{
  ℕ, zero, suc, ◌+◌, ◌-◌, ◌*◌, ◌/◌, List, [], ◌∷◌, ◌++◌, map, Option, none, some, Bool, true, false,
  ◌&&◌, ◌||◌, not, any, all, ltb, leb, ◌==◌, if◌then◌else◌, max, length, drop, select, get_elem?,
  Text, text_eq, codes, Result, ok, err, value_error, ◌>>=◌, ◌>>◌, raise_if, ℤ, pos, negsuc,
  CapacityReason,
}
use model_test.Prelude.Dict.{Dict, lookup, put}
use model_test.Chunking.{is_some}

-- The loop of `maximum_character_run`
unfoldable pub character_run : Option ℕ → ℕ → ℕ → Text → ℕ
character_run previous current maximum [] = maximum
character_run none current maximum (c ∷ t) = character_run (some c) 1 (max maximum 1) t
character_run (some p) current maximum (c ∷ t) =
    let longer = character_run (some p) (current + 1) (max maximum (current + 1)) t in
    let fresh = character_run (some c) 1 (max maximum 1) t in if c == p then longer else fresh

-- `maximum_character_run`
unfoldable pub maximum_character_run : Text → ℕ
unfolding character_run
maximum_character_run value = character_run none 0 0 value

pub record BoundedValues : Type 0 where
  pub maxlen : ℕ
  pub values : List ℕ

-- `BoundedValues.__init__`
unfoldable pub new_values : ℕ → Result BoundedValues
new_values n = do
  raise_if (n == 0) (value_error "maxlen must be positive")
  ok (record { maxlen = n; values = [] })

-- A number that is put in: a finite value on the scale of the collection, or an infinity or `nan`
pub data Numeric : Type 0 where
  finite : ℤ → Numeric
  not_finite : Numeric

abbrev not_counted : {A : Type 0} → Result A
not_counted = err (value_error "observability values must be finite and nonnegative")

-- `BoundedValues.add`, where the deque drops its oldest value
unfoldable pub add : Numeric → BoundedValues → Result BoundedValues
add (finite (pos value)) b =
    let all_values = b.values ++ value ∷ [] in
    ok (record b { values = drop (length all_values - b.maxlen) all_values })
add (finite (negsuc k)) b = not_counted
add not_finite b = not_counted

-- `sorted`
unfoldable pub insert_value : ℕ → List ℕ → List ℕ
insert_value v [] = v ∷ []
insert_value v (w ∷ ws) = let rest = insert_value v ws in if ltb w v then w ∷ rest else v ∷ w ∷ ws

unfoldable pub sorted_values : List ℕ → List ℕ
sorted_values [] = []
sorted_values (v ∷ vs) = insert_value v (sorted_values vs)

-- `nearest_rank`, by the hundred; no value is an index out of range
unfoldable pub nearest_rank : ℕ → List ℕ → Option ℕ
nearest_rank percent ordered = get_elem? ordered ((percent * length ordered + 99) / 100 - 1)

pub record Summary : Type 0 where
  pub count : ℕ
  pub least : Option ℕ
  pub p50 : Option ℕ
  pub p95 : Option ℕ
  pub p99 : Option ℕ
  pub greatest : Option ℕ

unfoldable pub summary_of : List ℕ → Summary
summary_of ordered = record {
  count = length ordered;
  least = get_elem? ordered 0;
  p50 = nearest_rank 50 ordered;
  p95 = nearest_rank 95 ordered;
  p99 = nearest_rank 99 ordered;
  greatest = get_elem? ordered (length ordered - 1);
}

-- `BoundedValues.summary`; without values it has only the count
unfoldable pub summary : BoundedValues → Summary
unfolding summary_of
summary b = summary_of (sorted_values b.values)

abbrev pub stage_names : List Text
stage_names =
    codes "audio_received"
    ∷ codes "chunk_ready"
    ∷ codes "scheduler_enqueued"
    ∷ codes "scheduler_dispatched"
    ∷ codes "worker_accepted"
    ∷ codes "inference_started"
    ∷ codes "inference_completed"
    ∷ codes "result_applied"
    ∷ codes "event_sent"
    ∷ []

pub record JobTimeline : Type 0 where
  pub job_id : Text
  pub worker_id : Text
  pub decoded_samples : ℕ
  pub sample_rate : ℕ
  pub stages : Dict ℕ

-- `timestamp < max(self.stages.values())`
abbrev pub is_before : ℕ → Dict ℕ → Bool
is_before timestamp stages = any (λ s. ltb timestamp s.1) stages

-- `JobTimeline.mark`
unfoldable pub mark : Text → ℕ → JobTimeline → Result JobTimeline
mark stage timestamp t = do
  raise_if (not (any (text_eq stage) stage_names)) (value_error "unknown metric stage")
  raise_if (is_before timestamp t.stages) (value_error "metric timestamps must be monotonic")
  ok (record t { stages = put stage timestamp t.stages })

abbrev pub is_complete : JobTimeline → Bool
is_complete t = all (λ name. is_some (lookup name t.stages)) stage_names

-- `JobTimeline.require_complete`
unfoldable pub require_complete : JobTimeline → Result (Unit {0})
require_complete t = raise_if (not (is_complete t)) (value_error "missing metric stages")

-- `a - b`
abbrev pub difference : ℕ → ℕ → ℤ
difference a b = if leb b a then pos (a - b) else negsuc (b - a - 1)

abbrev pub span : Text → Text → JobTimeline → Option ℤ
span later earlier t = elim (lookup later t.stages) [
  | none ↦ none
  | some a ↦ elim (lookup earlier t.stages) [ none ↦ none | some b ↦ some (difference a b) ]
]

pub record Durations : Type 0 where
  pub chunk_wait : Option ℤ
  pub batch_wait : Option ℤ
  pub worker_wait : Option ℤ
  pub inference : Option ℤ
  pub egress : Option ℤ

-- `JobTimeline.durations`; each is there once the timeline is complete
unfoldable pub durations : JobTimeline → Result Durations
unfolding require_complete
durations t = do
  require_complete t
  ok (record {
    chunk_wait = span (codes "chunk_ready") (codes "audio_received") t;
    batch_wait = span (codes "scheduler_dispatched") (codes "scheduler_enqueued") t;
    worker_wait = span (codes "inference_started") (codes "worker_accepted") t;
    inference = span (codes "inference_completed") (codes "inference_started") t;
    egress = span (codes "event_sent") (codes "result_applied") t;
  })

-- The gauges that are sample counts are kept before their division by the sample rate.
pub record Gauges : Type 0 where
  pub active_sessions : ℕ
  pub ready_depth : ℕ
  pub queued_audio : ℕ
  pub session_buffered_audio : ℕ
  pub session_reserved_audio : ℕ
  pub max_session_held_audio : ℕ
  pub session_buffer_high_water : ℕ

pub record GatewayMetrics : Type 0 where
  pub max_completed : ℕ
  pub completed : List (JobTimeline × ℕ × ℕ)
  pub completed_total : ℕ
  pub session_buffer_high_water_samples : ℕ
  pub scheduler_batch_sizes : BoundedValues
  pub engine_group_sizes : BoundedValues
  pub engine_groups_per_batch : BoundedValues
  pub engine_partial_seconds : BoundedValues
  pub engine_final_seconds : BoundedValues
  pub engine_accumulated_audio_seconds : BoundedValues
  pub engine_output_characters : BoundedValues
  pub engine_maximum_character_run : BoundedValues
  pub engine_calls : ℕ
  pub gauges : Gauges

-- `GatewayMetrics.__init__`
unfoldable pub new_metrics : ℕ → Result GatewayMetrics
new_metrics n = do
  raise_if (n == 0) (value_error "max_completed must be positive")
  let none_yet : BoundedValues = record { maxlen = n; values = [] }
  ok (record {
    max_completed = n;
    completed = [];
    completed_total = 0;
    session_buffer_high_water_samples = 0;
    scheduler_batch_sizes = none_yet;
    engine_group_sizes = none_yet;
    engine_groups_per_batch = none_yet;
    engine_partial_seconds = none_yet;
    engine_final_seconds = none_yet;
    engine_accumulated_audio_seconds = none_yet;
    engine_output_characters = none_yet;
    engine_maximum_character_run = none_yet;
    engine_calls = 0;
    gauges = record {
      active_sessions = 0;
      ready_depth = 0;
      queued_audio = 0;
      session_buffered_audio = 0;
      session_reserved_audio = 0;
      max_session_held_audio = 0;
      session_buffer_high_water = 0;
    };
  })

-- What a call that writes returns or raises, and the metrics as it leaves them.
abbrev pub Recorded : Type 0
Recorded = Result (Unit {0}) × GatewayMetrics

-- Writing to a collection and then going on, unless the value is refused.
abbrev add_to :
    Numeric
    → BoundedValues
    → (BoundedValues → GatewayMetrics)
    → (GatewayMetrics → Recorded)
    → GatewayMetrics
    → Recorded
add_to value b write go_on m = elim (add value b) [ ok c ↦ go_on (write c) | err e ↦ (err e, m) ]

abbrev done : GatewayMetrics → Recorded
done m = (ok tt, m)

-- `record_scheduler_batch`
unfoldable pub record_scheduler_batch : Numeric → GatewayMetrics → Recorded
unfolding add
record_scheduler_batch size m =
    add_to size m.scheduler_batch_sizes (λ b. record m { scheduler_batch_sizes = b }) done m

pub record EngineCall : Type 0 where
  pub group_size : Numeric
  pub group_ordinal : ℤ
  pub group_count : Numeric
  pub elapsed_seconds : Numeric
  pub final : Bool
  pub accumulated_audio_seconds : Numeric
  pub output_characters : Numeric
  pub character_run_length : Numeric

abbrev is_one : ℤ → Bool
is_one (pos n) = n == 1
is_one (negsuc n) = false

-- The lines of `record_engine_call` that write to a collection, each with those after it
abbrev record_run : EngineCall → GatewayMetrics → Recorded
record_run c m =
    add_to c.character_run_length m.engine_maximum_character_run
      (λ b. record m { engine_maximum_character_run = b }) done m

abbrev record_output : EngineCall → GatewayMetrics → Recorded
record_output c m =
    add_to c.output_characters m.engine_output_characters
      (λ b. record m { engine_output_characters = b }) (record_run c) m

abbrev record_audio : EngineCall → GatewayMetrics → Recorded
record_audio c m =
    add_to c.accumulated_audio_seconds m.engine_accumulated_audio_seconds
      (λ b. record m { engine_accumulated_audio_seconds = b }) (record_output c) m

abbrev record_elapsed : EngineCall → GatewayMetrics → Recorded
record_elapsed c m =
    if c.final
    then add_to c.elapsed_seconds m.engine_final_seconds
        (λ b. record m { engine_final_seconds = b }) (record_audio c) m
    else add_to c.elapsed_seconds m.engine_partial_seconds
        (λ b. record m { engine_partial_seconds = b }) (record_audio c) m

abbrev record_groups : EngineCall → GatewayMetrics → Recorded
record_groups c m =
    if is_one c.group_ordinal
    then add_to c.group_count m.engine_groups_per_batch
        (λ b. record m { engine_groups_per_batch = b }) (record_elapsed c) m
    else record_elapsed c m

-- `record_engine_call`
unfoldable pub record_engine_call : EngineCall → GatewayMetrics → Recorded
unfolding add
record_engine_call c m =
    let called = record m { engine_calls = m.engine_calls + 1 } in
    add_to c.group_size called.engine_group_sizes (λ b. record called { engine_group_sizes = b })
      (record_groups c) called

-- `complete`, which ignores a timeline that lacks a stage
unfoldable pub complete : JobTimeline → ℕ → ℕ → GatewayMetrics → Result GatewayMetrics
complete t size capacity m =
    let all_jobs = m.completed ++ (t, size, capacity) ∷ [] in
    if not (is_complete t)
    then ok m
    else if (size == 0) || ltb capacity size
    then err (value_error "batch accounting is invalid")
    else ok (record m {
      completed = drop (length all_jobs - m.max_completed) all_jobs;
      completed_total = m.completed_total + 1;
    })

-- `set_gauges`
unfoldable pub set_gauges : ℕ → ℕ → ℕ → ℕ → ℕ → ℕ → GatewayMetrics → GatewayMetrics
set_gauges active ready queued buffered reserved held m =
    let high = max m.session_buffer_high_water_samples held in
    record m {
      session_buffer_high_water_samples = high;
      gauges = record {
        active_sessions = active;
        ready_depth = ready;
        queued_audio = queued;
        session_buffered_audio = buffered;
        session_reserved_audio = reserved;
        max_session_held_audio = held;
        session_buffer_high_water = high;
      };
    }
