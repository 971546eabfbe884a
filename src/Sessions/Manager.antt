-- ===== src/Sessions/Manager.antt =====
-- `SessionManager` of app/asr_gateway_sessions.py. Its dictionary holds the sessions by value.
use model_test.Prelude.{
  ℕ, ◌+◌, ◌≤◌, ◌<◌, ◌≡◌, refl, ◌∙◌, false, List, [], ◌∷◌, Option, none, some, arith, leb, ◌==◌,
  if◌then◌else◌, length, Result, ok, err, value_error, runtime_error, key_error, ◌>>=◌, ◌>>◌,
  raise_if, ℤ, pos, negsuc, Text, text_eq, text_eq_refl, text_ltb,
}
use model_test.Prelude.Dict.{
  Dict, lookup, put, delete, Unique, Unique-put, Unique-delete, lookup-put, lookup-delete,
  length-put-le, length-delete-le,
}
use model_test.Chunking.{is_some}
use model_test.Sessions.{GatewaySession, init, is_dead, open_, acknowledge}

pub record SessionManager : Type 0 where
  pub max_sessions : ℕ
  pub sessions : Dict GatewaySession

-- `__init__`
unfoldable pub manager_init : ℤ → Result SessionManager
manager_init (negsuc n) = err (value_error "max_sessions must be positive")
manager_init (pos n) = do
  raise_if (n == 0) (value_error "max_sessions must be positive")
  ok (record { max_sessions = n; sessions = [] })

-- `create`, given what the constructor of the session returns
unfoldable pub add_created :
    Text → Result GatewaySession → SessionManager → Result (GatewaySession × SessionManager)
add_created id created m = do
  raise_if (is_some (lookup id m.sessions)) (value_error "duplicate session_id")
  raise_if (leb m.max_sessions (length m.sessions)) (runtime_error "session capacity exceeded")
  session ← created
  ok (session, record m { sessions = put id session m.sessions })

-- `create`
unfoldable pub create :
    Text → Text → Text → ℕ → ℤ → SessionManager → Result (GatewaySession × SessionManager)
create id worker backend rate max_buffer m =
    add_created id (init id worker backend rate max_buffer) m

-- `get`
pub get : Text → SessionManager → Result GatewaySession
get id m = elim (lookup id m.sessions) [ none ↦ err (key_error "session_id") | some s ↦ ok s ]

-- The generation that `close` leaves: results of a session that was not yet aborted turn stale.
unfoldable pub retire : Option GatewaySession → Option GatewaySession
retire none = none
retire (some s) =
    if is_dead s.terminal_state then some s else some (record s { generation = s.generation + 1 })

-- `close`
unfoldable pub close : Text → SessionManager → Option GatewaySession × SessionManager
unfolding retire
close id m = (retire (lookup id m.sessions), record m { sessions = delete id m.sessions })

insert_text : Text → List Text → List Text
insert_text t [] = t ∷ []
insert_text t (s ∷ ts) =
    let rest = insert_text t ts in if text_ltb s t then s ∷ rest else t ∷ s ∷ ts

abbrev sorted_keys : Dict GatewaySession → List Text
sorted_keys [] = []
sorted_keys ((id, s) ∷ d) = insert_text id (sorted_keys d)

-- `snapshot`
pub snapshot : SessionManager → ℕ × List Text
unfolding insert_text
snapshot m = (length m.sessions, sorted_keys m.sessions)

pub record ManagerIsValid (m : SessionManager) : Type 0 where
  pub unique : Unique m.sessions
  pub bounded : length m.sessions ≤ m.max_sessions

pub data Call : Type 0 where
  creates : Text → Text → Text → ℕ → ℤ → Call
  closes : Text → Call

abbrev after : SessionManager → Result (GatewaySession × SessionManager) → SessionManager
after m (ok (s, m')) = m'
after m (err e) = m

pub step : SessionManager → Call → SessionManager
step m (creates id worker backend rate n) = after m (create id worker backend rate n m)
step m (closes id) = (close id m).1

pub run : SessionManager → List Call → SessionManager
run m [] = m
run m (c ∷ cs) = run (step m c) cs

add_created-IsValid :
    (id : Text) (r : Result GatewaySession) (m : SessionManager)
    → ManagerIsValid m
    → ManagerIsValid (after m (add_created id r m))
unfolding add_created
add_created-IsValid id (err e) m v = ground arith
add_created-IsValid id (ok s) m v =
    ground (arith, Unique-put id s m.sessions v.unique, length-put-le id s m.sessions)

-- Creating and closing keep the identifiers unique and the sessions within the capacity.
pub step-ManagerIsValid :
    (m : SessionManager) (c : Call) → ManagerIsValid m → ManagerIsValid (step m c)
unfolding step create close
step-ManagerIsValid m (creates id worker backend rate n) v =
    add_created-IsValid id (init id worker backend rate n) m v
step-ManagerIsValid m (closes id) v =
    ground (arith, Unique-delete id m.sessions v.unique, length-delete-le id m.sessions)

run-ManagerIsValid :
    (m : SessionManager) (cs : List Call) → ManagerIsValid m → ManagerIsValid (run m cs)
unfolding run
run-ManagerIsValid m [] v = v
run-ManagerIsValid m (c ∷ cs) v = run-ManagerIsValid (step m c) cs (step-ManagerIsValid m c v)

-- A manager that the constructor accepts never holds more sessions than its capacity, nor two under
-- one identifier, whatever is created and closed.
pub manager_capacity :
    (n : ℤ) (m : SessionManager) (cs : List Call)
    → manager_init n ≡ ok m
    → let m' = run m cs in (length m'.sessions ≤ m'.max_sessions) × Unique m'.sessions
unfolding manager_init
manager_capacity (negsuc n) m cs h = cc
manager_capacity (pos n) m cs h =
    let v = run-ManagerIsValid m cs (ground arith) in (v.bounded, v.unique)

added_lookup :
    (id : Text) (r : Result GatewaySession) (m m' : SessionManager) (s : GatewaySession)
    → add_created id r m ≡ ok (s, m')
    → (lookup id m.sessions ≡ none)
      × (m' ≡ record m { sessions = put id s m.sessions })
      × (length m.sessions < m.max_sessions)
unfolding add_created
added_lookup id (err e) m m' s h = ground arith
added_lookup id (ok t) m m' s h = ground arith

-- A call for another identifier
abbrev pub Avoids : Text → Call → Type 0
Avoids id (creates t worker backend rate n) = text_eq t id ≡ false
Avoids id (closes t) = text_eq t id ≡ false

abbrev pub AllAvoid : Text → List Call → Type 0
AllAvoid id [] = Unit
AllAvoid id (c ∷ cs) = Avoids id c × AllAvoid id cs

added_elsewhere :
    (id t : Text) (r : Result GatewaySession) (m : SessionManager)
    → text_eq t id ≡ false
    → lookup id (after m (add_created t r m)).sessions ≡ lookup id m.sessions
unfolding add_created
added_elsewhere id t (err e) m h = ground arith
added_elsewhere id t (ok s) m h = let x = lookup-put t id s m.sessions in ground (arith, x, h)

step_elsewhere :
    (id : Text) (m : SessionManager) (c : Call)
    → ManagerIsValid m
    → Avoids id c
    → lookup id (step m c).sessions ≡ lookup id m.sessions
unfolding step create close
step_elsewhere id m (creates t worker backend rate n) v h =
    added_elsewhere id t (init t worker backend rate n) m h
step_elsewhere id m (closes t) v h =
    let x = lookup-delete t id m.sessions v.unique in ground (arith, x, h)

run_elsewhere :
    (id : Text) (m : SessionManager) (cs : List Call)
    → ManagerIsValid m
    → AllAvoid id cs
    → lookup id (run m cs).sessions ≡ lookup id m.sessions
unfolding run
run_elsewhere id m [] v h = refl
run_elsewhere id m (c ∷ cs) v (h, hs) =
    run_elsewhere id (step m c) cs (step-ManagerIsValid m c v) hs ∙ step_elsewhere id m c v h

init_open :
    (id worker backend : Text) (rate : ℕ) (n : ℤ) (s : GatewaySession)
    → init id worker backend rate n ≡ ok s
    → (s.terminal_state ≡ open_) × (s.generation ≡ 1)
unfolding init
init_open id worker backend rate n s h = ground (arith, h)

added_session :
    (id : Text) (r : Result GatewaySession) (m m' : SessionManager) (s : GatewaySession)
    → add_created id r m ≡ ok (s, m')
    → r ≡ ok s
unfolding add_created
added_session id (err e) m m' s h = ground arith
added_session id (ok t) m m' s h = ground arith

-- In a valid manager: a session that is created, of generation 1, is still there after any calls for
-- other identifiers; `close` hands it out with generation 2, so that no result of a job of before is
-- acknowledged; afterwards there is no session under the identifier, closing it again hands out
-- nothing, and every other identifier has the session that it had.
pub create-close :
    (id worker backend other : Text) (rate : ℕ) (n : ℤ) (m m' : SessionManager) (s : GatewaySession)
    (cs : List Call) (job : ℕ)
    → ManagerIsValid m
    → create id worker backend rate n m ≡ ok (s, m')
    → AllAvoid id cs
    → let busy = run m' cs in
      let t : GatewaySession = record s { generation = 2 } in
      let closed = (close id busy).1 in
      (s.generation ≡ 1)
      × (lookup id busy.sessions ≡ some s)
      × ((close id busy).0 ≡ some t)
      × (acknowledge job 1 t ≡ err (runtime_error "stale generation result"))
      × ((close id closed).0 ≡ none)
      × (lookup other closed.sessions
          ≡ (if text_eq id other then none else lookup other busy.sessions))
unfolding create close retire acknowledge
create-close id worker backend other rate n m m' s cs job v h a =
    let (free, e, room) = added_lookup id _ m m' s h in
    let (alive, first) = init_open id worker backend rate n s (added_session id _ m m' s h) in
    let w : ManagerIsValid m' = rw e (record {
      unique = Unique-put id s m.sessions v.unique;
      bounded = omega (arith, room, length-put-le id s m.sessions);
    }) in
    let busy = run m' cs in
    let x = run-ManagerIsValid m' cs w in
    let there : lookup id m'.sessions ≡ some s =
      rw e (ground (arith, lookup-put id id s m.sessions, text_eq_refl id)) in
    let found : lookup id busy.sessions ≡ some s = run_elsewhere id m' cs w a ∙ there in
    let gone = lookup-delete id id busy.sessions x.unique in
    (
      first,
      found,
      ground (arith, found, alive, first),
      ground arith,
      ground (arith, gone, text_eq_refl id),
      lookup-delete id other busy.sessions x.unique,
    )
