-- ===== src/Backends/Leases.antt =====
-- Leases against the registry's counts (app/asr_gateway_backends.py, `BackendLease`): the gateway
-- takes leases by `acquire` and gives them back by `BackendLease.release` only.
use model_test.Prelude.{
  ℕ, ◌+◌, ◌-◌, ◌≡◌, refl, sym, ap, subst, ◌>>=◌, ◌∙◌, ◌≢◌, List, [], ◌∷◌, Bool, true, false, ◌&&◌,
  not, some, none, Option, arith, if◌then◌else◌, Bool-cases, inl, inr, Text, text_eq, text_eq_sound,
  text_eq_refl, Result, ok, err, sum_of, sum_of-set, le-sum_of, set, get_elem?,
}
use model_test.Prelude.Dict.{lookup, put, lookup-put, lookup-delete}
use model_test.Backends.{
  Workers, Route, BackendLease, register, register_at, mark_ready, acquire, release, release_lease,
  begin_drain, remove, update_at, set_ready, set_draining, fresh_snapshot,
}
use model_test.Backends.Defs.{BackendSnapshot, BackendCapabilities}
use model_test.Backends.Choice.{Acquired, acquire-Acquired}
use model_test.Backends.Ownership.{
  RegistryIsValid, step-RegistryIsValid, after, drop_value, step, registers, marks, acquires,
  releases, drains, removes, lookup-Keyed,
}

-- The registry with all the leases that were ever taken.
pub record Pool : Type 0 where
  pub workers : Workers
  pub leases : List BackendLease

-- One, if the lease is held on the worker.
abbrev pub holds : Text → BackendLease → ℕ
holds id l = if not l.is_released && text_eq l.worker_id id then 1 else 0

abbrev pub held : Text → List BackendLease → ℕ
held id ls = sum_of (holds id) ls

abbrev pub active_of : Option BackendSnapshot → ℕ
active_of none = 0
active_of (some w) = w.active_leases

-- Each worker counts the leases that are held on it.
pub record Balanced (p : Pool) : Type 0 where
  pub valid : RegistryIsValid p.workers
  pub counts : (id : Text) → active_of (lookup id p.workers) ≡ held id p.leases

pub data LeaseCall : Type 0 where
  admits : BackendCapabilities → LeaseCall
  marks_worker : Text → Bool → Option Text → LeaseCall
  takes : Route → LeaseCall
  gives_back : ℕ → LeaseCall
  drains_worker removes_worker : Text → LeaseCall

abbrev taken : Pool → Result (BackendLease × Workers) → Pool
taken p (ok (lease, ws)) = record { workers = ws; leases = lease ∷ p.leases }
taken p (err e) = p

abbrev returned : Pool → ℕ → Option BackendLease → Pool
returned p i none = p
returned p i (some l) =
    let (r, l') = release_lease l p.workers in
    record { workers = after p.workers r; leases = set p.leases i l' }

pub lease_step : Pool → LeaseCall → Pool
lease_step p (admits c) = record p { workers = step p.workers (registers c) }
lease_step p (marks_worker id is_up error) = record p {
  workers = step p.workers (marks id is_up error);
}
lease_step p (takes r) = taken p (acquire r p.workers)
lease_step p (gives_back i) = returned p i (get_elem? p.leases i)
lease_step p (drains_worker id) = record p { workers = step p.workers (drains id) }
lease_step p (removes_worker id) = record p { workers = step p.workers (removes id) }

pub lease_run : Pool → List LeaseCall → Pool
lease_run p [] = p
lease_run p (c ∷ cs) = lease_run (lease_step p c) cs

-- A write that keeps the count of leases
put-counts :
    (id k : Text) (w w' : BackendSnapshot) (ws : Workers)
    → lookup id ws ≡ some w
    → w'.active_leases ≡ w.active_leases
    → active_of (lookup k (put id w' ws)) ≡ active_of (lookup k ws)
put-counts id k w w' ws e h = ground (arith, lookup-put id k w' ws, text_eq_sound id k)

register-counts :
    (c : BackendCapabilities) (o : Option BackendSnapshot) (ws : Workers) (k : Text)
    → lookup c.worker_id ws ≡ o
    → active_of (lookup k (after ws (drop_value (register_at c o ws)))) ≡ active_of (lookup k ws)
unfolding register_at
register-counts c none ws k e =
    ground (arith, lookup-put c.worker_id k (fresh_snapshot c) ws, text_eq_sound c.worker_id k)
register-counts c (some w) ws k e =
    ground (arith, put-counts c.worker_id k w (record w { capabilities = c }) ws e)

taken-Balanced :
    (r : Route) (p : Pool) (o : Result (BackendLease × Workers))
    → Balanced p
    → RegistryIsValid (after p.workers (drop_value o))
    → Acquired r p.workers o
    → Balanced (taken p o)
taken-Balanced r p _ b v (Acquired.refused e) = b
taken-Balanced r p _ b v (Acquired.taken key w e a f l) = record { valid = v; counts = counted }
  where
    named : key ≡ w.capabilities.worker_id
    named = lookup-Keyed key w p.workers b.valid.keyed e

    counted :
        (k : Text)
        → active_of
            (lookup k (put key (record w { active_leases = w.active_leases + 1 }) p.workers))
          ≡ held k (record { worker_id = w.capabilities.worker_id; is_released = false } ∷ p.leases)
    counted k = ground (
      arith,
      named,
      b.counts k,
      text_eq_sound key k,
      lookup-put key k (record w { active_leases = w.active_leases + 1 }) p.workers,
    )

-- A held lease is counted, so giving it back is no underflow.
release_held :
    (p : Pool) (i : ℕ) (l : BackendLease) (o : Option BackendSnapshot)
    → Balanced p
    → get_elem? p.leases i ≡ some l
    → l.is_released ≡ false
    → lookup l.worker_id p.workers ≡ o
    → (w : BackendSnapshot) × (lookup l.worker_id p.workers ≡ some w)
      × (release l.worker_id p.workers
          ≡ ok (put l.worker_id (record w { active_leases = w.active_leases - 1 }) p.workers))
      × (w.active_leases ≡ w.active_leases - 1 + 1)
unfolding release update_at
release_held p i l none b e h k = absurd (
    ground (
      arith,
      b.counts l.worker_id,
      le-sum_of (holds l.worker_id) p.leases i l e,
      text_eq_refl l.worker_id,
    ))
release_held p i l (some w) b e h k =
    let positive : w.active_leases ≢ 0 = ground (
      arith,
      b.counts l.worker_id,
      le-sum_of (holds l.worker_id) p.leases i l e,
      text_eq_refl l.worker_id,
    ) in
    (w, k, ground arith, omega arith)

released_again :
    (l : BackendLease) (ws : Workers) → l.is_released ≡ true → release_lease l ws ≡ (ok ws, l)
unfolding release_lease
released_again l ws h = rw h

released_first :
    (l : BackendLease) (ws : Workers)
    → l.is_released ≡ false
    → release_lease l ws ≡ (release l.worker_id ws, record l { is_released = true })
unfolding release_lease
released_first l ws h = rw h

abbrev with_result : Pool → ℕ → Result Workers × BackendLease → Pool
with_result p i (r, l) = record { workers = after p.workers r; leases = set p.leases i l }

gone-Balanced :
    (p : Pool) (i : ℕ) (l : BackendLease)
    → Balanced p
    → get_elem? p.leases i ≡ some l
    → Balanced (with_result p i (ok p.workers, l))
gone-Balanced p i l b e = record {
  valid = b.valid;
  counts = λ k. omega (arith, b.counts k, sum_of-set (holds k) p.leases i l l e);
}

given_back-Balanced :
    (p : Pool) (i : ℕ) (l : BackendLease)
    → Balanced p
    → get_elem? p.leases i ≡ some l
    → l.is_released ≡ false
    → Balanced (with_result p i (release l.worker_id p.workers, record l { is_released = true }))
unfolding step
given_back-Balanced p i l b e h =
    let (w, k, r, one) = release_held p i l (lookup l.worker_id p.workers) b e h refl in
    let l' : BackendLease = record l { is_released = true } in
    let w' : BackendSnapshot = record w { active_leases = w.active_leases - 1 } in
    record {
      valid = step-RegistryIsValid p.workers (releases l.worker_id) b.valid;
      counts = λ id. rw r (
          ground (
            arith,
            one,
            k,
            b.counts id,
            sum_of-set (holds id) p.leases i l l' e,
            lookup-put l.worker_id id w' p.workers,
            text_eq_sound l.worker_id id,
          ));
    }

returned-Balanced :
    (p : Pool) (i : ℕ) (o : Option BackendLease)
    → Balanced p
    → get_elem? p.leases i ≡ o
    → Balanced (returned p i o)
returned-Balanced p i none b e = b
returned-Balanced p i (some l) b e = elim (Bool-cases l.is_released) [
  | inl gone ↦
      subst (λ x. Balanced (with_result p i x)) (sym (released_again l p.workers gone))
        (gone-Balanced p i l b e)
  | inr holding ↦
      subst (λ x. Balanced (with_result p i x)) (sym (released_first l p.workers holding))
        (given_back-Balanced p i l b e holding)
]

update-counts :
    (id k : Text) (change : BackendSnapshot → Result BackendSnapshot) (o : Option BackendSnapshot)
    (ws : Workers)
    → ((w w' : BackendSnapshot) → change w ≡ ok w' → w'.active_leases ≡ w.active_leases)
    → lookup id ws ≡ o
    → active_of (lookup k (after ws (update_at id change o ws))) ≡ active_of (lookup k ws)
unfolding update_at
update-counts id k change none ws keep e = refl
update-counts id k change (some w) ws keep e = changed (change w) (keep w)
  where
    changed :
        (r : Result BackendSnapshot)
        → ((w' : BackendSnapshot) → r ≡ ok w' → w'.active_leases ≡ w.active_leases)
        → active_of (lookup k (after ws (r >>= λ w'. ok (put id w' ws)))) ≡ active_of (lookup k ws)
    changed (err x) h = refl
    changed (ok w') h = put-counts id k w w' ws e (h w' refl)

remove-counts :
    (id k : Text) (ws : Workers)
    → RegistryIsValid ws
    → active_of (lookup k (after ws (remove id ws))) ≡ active_of (lookup k ws)
unfolding remove
remove-counts id k ws v = ground (arith, lookup-delete id k ws v.unique, text_eq_sound id k)

ready_keeps :
    (is_up : Bool) (error : Option Text) (w w' : BackendSnapshot)
    → set_ready is_up error w ≡ ok w'
    → w'.active_leases ≡ w.active_leases
ready_keeps is_up error w w' e = ground arith

draining_keeps :
    (w w' : BackendSnapshot) → set_draining w ≡ ok w' → w'.active_leases ≡ w.active_leases
draining_keeps w w' e = ground arith

lease_step-Balanced : (p : Pool) (c : LeaseCall) → Balanced p → Balanced (lease_step p c)
unfolding lease_step step register mark_ready begin_drain
lease_step-Balanced p (admits c) b = record {
  valid = step-RegistryIsValid p.workers (registers c) b.valid;
  counts = λ k. register-counts c (lookup c.worker_id p.workers) p.workers k refl ∙ b.counts k;
}
lease_step-Balanced p (marks_worker id is_up error) b = record {
  valid = step-RegistryIsValid p.workers (marks id is_up error) b.valid;
  counts = λ k.
      update-counts id k (set_ready is_up error) (lookup id p.workers) p.workers
        (λ w w' e. ready_keeps is_up error w w' e) refl
      ∙ b.counts k;
}
lease_step-Balanced p (takes r) b =
    taken-Balanced r p (acquire r p.workers) b (step-RegistryIsValid p.workers (acquires r) b.valid)
      (acquire-Acquired r p.workers b.valid.unique)
lease_step-Balanced p (gives_back i) b = returned-Balanced p i (get_elem? p.leases i) b refl
lease_step-Balanced p (drains_worker id) b = record {
  valid = step-RegistryIsValid p.workers (drains id) b.valid;
  counts = λ k.
      update-counts id k set_draining (lookup id p.workers) p.workers draining_keeps refl
      ∙ b.counts k;
}
lease_step-Balanced p (removes_worker id) b = record {
  valid = step-RegistryIsValid p.workers (removes id) b.valid;
  counts = λ k. remove-counts id k p.workers b.valid ∙ b.counts k;
}

lease_run-Balanced : (p : Pool) (cs : List LeaseCall) → Balanced p → Balanced (lease_run p cs)
unfolding lease_run
lease_run-Balanced p [] b = b
lease_run-Balanced p (c ∷ cs) b = lease_run-Balanced (lease_step p c) cs (lease_step-Balanced p c b)

abbrev pub empty_pool : Pool
empty_pool = record { workers = []; leases = [] }

empty_pool-Balanced : Balanced empty_pool
unfolding lookup
empty_pool-Balanced = record {
  valid = record { unique = tt; keyed = tt; one_owner = tt };
  counts = λ id. refl;
}

-- Whatever workers are registered, drained and removed and leases are taken and given back, from an
-- empty registry on: each worker counts exactly the leases that are held on it, and giving back a
-- lease, for the first time or again, never raises.
pub leases_balanced :
    (cs : List LeaseCall) (i : ℕ) (l : BackendLease)
    → let p = lease_run empty_pool cs in
      ((id : Text) → active_of (lookup id p.workers) ≡ held id p.leases)
      × (get_elem? p.leases i ≡ some l → (ws : Workers) × ((release_lease l p.workers).0 ≡ ok ws))
leases_balanced cs i l =
    let p = lease_run empty_pool cs in
    let b = lease_run-Balanced empty_pool cs empty_pool-Balanced in
    (
      b.counts,
      λ e. elim (Bool-cases l.is_released) [
        | inl gone ↦ (p.workers, ap (λ x. x.0) (released_again l p.workers gone))
        | inr holding ↦
            let (w, k, r, one) =
              release_held p i l (lookup l.worker_id p.workers) b e holding refl in
            (_, ap (λ x. x.0) (released_first l p.workers holding) ∙ r)
      ],
    )
