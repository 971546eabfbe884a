-- ===== src/Backends/Ownership.antt =====
-- The registry's invariant (app/asr_gateway_backends.py): each worker stands under its identifier,
-- once, and no two workers own one GPU.
use model_test.Prelude.{
  ◌+◌, ◌≡◌, refl, sym, ap, ◌∙◌, List, [], ◌∷◌, Bool, true, false, some, none, Option, arith, All,
  any, any-All, Bool-cases, inl, inr, Text, text_eq, text_eq_sound, text_eq_comm, Result, ok, err,
  ◌>>=◌,
}
use model_test.Prelude.Dict.{
  lookup, put, delete, Unique, Fresh, Unique-put, Unique-delete, lookup-Fresh,
}
use model_test.Backends.{
  Workers, Route, BackendLease, register, register_at, mark_ready, acquire, release, begin_drain,
  remove, update_at, drop_lease, set_ready, set_draining, owns, same_identity, fresh_snapshot,
}
use model_test.Backends.Defs.{BackendSnapshot, BackendCapabilities}
use model_test.Backends.Choice.{Acquired, acquire-Acquired}

abbrev pub gpus : Workers → List Text
gpus [] = []
gpus ((key, w) ∷ ws) = w.capabilities.gpu_id ∷ gpus ws

abbrev pub Differs : Text → List Text → Type 0
Differs t [] = Unit
Differs t (s ∷ ts) = (text_eq s t ≡ false) × Differs t ts

abbrev pub Distinct : List Text → Type 0
Distinct [] = Unit
Distinct (t ∷ ts) = Differs t ts × Distinct ts

abbrev pub Keyed : Workers → Type 0
Keyed [] = Unit
Keyed ((key, w) ∷ ws) = (key ≡ w.capabilities.worker_id) × Keyed ws

pub record RegistryIsValid (ws : Workers) : Type 0 where
  pub unique : Unique ws
  pub keyed : Keyed ws
  pub one_owner : Distinct (gpus ws)

pub lookup-Keyed :
    (k : Text) (w : BackendSnapshot) (ws : Workers)
    → Keyed ws
    → lookup k ws ≡ some w
    → k ≡ w.capabilities.worker_id
unfolding lookup
lookup-Keyed k w [] h e = cc
lookup-Keyed k w ((j, v) ∷ ws) h e = ground (arith, text_eq_sound j k, lookup-Keyed k w ws h.1)

Keyed-put :
    (k : Text) (w : BackendSnapshot) (ws : Workers)
    → Keyed ws
    → k ≡ w.capabilities.worker_id
    → Keyed (put k w ws)
unfolding put
Keyed-put k w [] h e = (e, tt)
Keyed-put k w ((j, v) ∷ ws) h e = ground (arith, text_eq_sound j k, Keyed-put k w ws h.1)

Keyed-delete : (k : Text) (ws : Workers) → Keyed ws → Keyed (delete k ws)
unfolding delete
Keyed-delete k [] h = tt
Keyed-delete k ((j, v) ∷ ws) h = ground (arith, Keyed-delete k ws h.1)

-- A worker that keeps its GPU leaves the owners as they are.
gpus-put_same :
    (k : Text) (w w' : BackendSnapshot) (ws : Workers)
    → lookup k ws ≡ some w
    → w'.capabilities.gpu_id ≡ w.capabilities.gpu_id
    → gpus (put k w' ws) ≡ gpus ws
unfolding lookup put
gpus-put_same k w w' [] e h = cc
gpus-put_same k w w' ((j, v) ∷ ws) e h = ground (arith, gpus-put_same k w w' ws)

Differs-put :
    (t k : Text) (w : BackendSnapshot) (ws : Workers)
    → Differs t (gpus ws)
    → text_eq w.capabilities.gpu_id t ≡ false
    → Differs t (gpus (put k w ws))
unfolding put
Differs-put t k w [] d h = (h, tt)
Differs-put t k w ((j, v) ∷ ws) d h = ground (arith, Differs-put t k w ws d.1)

Distinct-put_new :
    (k : Text) (w : BackendSnapshot) (ws : Workers)
    → Fresh k ws
    → Distinct (gpus ws)
    → All (λ kv. owns w.capabilities.gpu_id kv ≡ false) ws
    → Distinct (gpus (put k w ws))
unfolding put
Distinct-put_new k w [] f d h = (tt, tt)
Distinct-put_new k w ((j, v) ∷ ws) f d h = ground (
  arith,
  Distinct-put_new k w ws f.1 d.1 h.1,
  Differs-put v.capabilities.gpu_id k w ws d.0,
  h.0,
  text_eq_comm w.capabilities.gpu_id v.capabilities.gpu_id,
)

Differs-delete : (t k : Text) (ws : Workers) → Differs t (gpus ws) → Differs t (gpus (delete k ws))
unfolding delete
Differs-delete t k [] d = tt
Differs-delete t k ((j, v) ∷ ws) d = ground (arith, Differs-delete t k ws d.1)

Distinct-delete : (k : Text) (ws : Workers) → Distinct (gpus ws) → Distinct (gpus (delete k ws))
unfolding delete
Distinct-delete k [] d = tt
Distinct-delete k ((j, v) ∷ ws) d =
    ground (arith, Distinct-delete k ws d.1, Differs-delete v.capabilities.gpu_id k ws d.0)

-- A write to a worker that keeps its identifier and its GPU
put-RegistryIsValid :
    (k : Text) (w w' : BackendSnapshot) (ws : Workers)
    → RegistryIsValid ws
    → lookup k ws ≡ some w
    → w'.capabilities.worker_id ≡ w.capabilities.worker_id
    → w'.capabilities.gpu_id ≡ w.capabilities.gpu_id
    → RegistryIsValid (put k w' ws)
put-RegistryIsValid k w w' ws v e id gpu = record {
  unique = Unique-put k w' ws v.unique;
  keyed = Keyed-put k w' ws v.keyed (lookup-Keyed k w ws v.keyed e ∙ sym id);
  one_owner = rw (gpus-put_same k w w' ws e gpu) v.one_owner;
}

abbrev pub after : Workers → Result Workers → Workers
after ws (ok ws') = ws'
after ws (err e) = ws

abbrev pub drop_value : {A : Type 0} → Result (A × Workers) → Result Workers
drop_value (ok (a, ws)) = ok ws
drop_value (err e) = err e

same_identity_sound :
    (a b : BackendCapabilities)
    → same_identity a b ≡ true
    → (a.worker_id ≡ b.worker_id) × (a.gpu_id ≡ b.gpu_id)
unfolding same_identity
same_identity_sound a b h =
    ground (arith, text_eq_sound a.worker_id b.worker_id, text_eq_sound a.gpu_id b.gpu_id)

register_at-RegistryIsValid :
    (c : BackendCapabilities) (o : Option BackendSnapshot) (ws : Workers)
    → RegistryIsValid ws
    → lookup c.worker_id ws ≡ o
    → RegistryIsValid (after ws (drop_value (register_at c o ws)))
unfolding register_at
register_at-RegistryIsValid c none ws v e = elim (Bool-cases (any (owns c.gpu_id) ws)) [
  | inl h ↦ rw h v
  | inr h ↦ rw h (record {
    unique = Unique-put c.worker_id (fresh_snapshot c) ws v.unique;
    keyed = Keyed-put c.worker_id (fresh_snapshot c) ws v.keyed refl;
    one_owner =
        Distinct-put_new c.worker_id (fresh_snapshot c) ws (lookup-Fresh c.worker_id ws e)
          v.one_owner (any-All (owns c.gpu_id) ws h);
  })
]
register_at-RegistryIsValid c (some w) ws v e = elim (Bool-cases (same_identity w.capabilities c)) [
  | inl h ↦
      let (id, gpu) = same_identity_sound w.capabilities c h in
      rw h (
        put-RegistryIsValid c.worker_id w (record w { capabilities = c }) ws v e (sym id) (sym gpu))
  | inr h ↦ rw h v
]

changed_at :
    (id : Text) (ws : Workers) (w : BackendSnapshot) (r : Result BackendSnapshot)
    → ((w' : BackendSnapshot) → r ≡ ok w' → w'.capabilities ≡ w.capabilities)
    → RegistryIsValid ws
    → lookup id ws ≡ some w
    → RegistryIsValid (after ws (r >>= λ w'. ok (put id w' ws)))
changed_at id ws w (err x) keep v e = v
changed_at id ws w (ok w') keep v e =
    put-RegistryIsValid id w w' ws v e (ap (λ c. c.worker_id) (keep w' refl))
      (ap (λ c. c.gpu_id) (keep w' refl))

-- A change that keeps the capabilities
update-RegistryIsValid :
    (id : Text) (change : BackendSnapshot → Result BackendSnapshot) (o : Option BackendSnapshot)
    (ws : Workers)
    → ((w w' : BackendSnapshot) → change w ≡ ok w' → w'.capabilities ≡ w.capabilities)
    → RegistryIsValid ws
    → lookup id ws ≡ o
    → RegistryIsValid (after ws (update_at id change o ws))
unfolding update_at
update-RegistryIsValid id change none ws keep v e = v
update-RegistryIsValid id change (some w) ws keep v e = changed_at id ws w (change w) (keep w) v e

drop_lease-keeps :
    (w w' : BackendSnapshot) → drop_lease w ≡ ok w' → w'.capabilities ≡ w.capabilities
drop_lease-keeps w w' e = ground arith

set_ready-keeps :
    (is_up : Bool) (error : Option Text) (w w' : BackendSnapshot)
    → set_ready is_up error w ≡ ok w'
    → w'.capabilities ≡ w.capabilities
set_ready-keeps is_up error w w' e = ground arith

set_draining-keeps :
    (w w' : BackendSnapshot) → set_draining w ≡ ok w' → w'.capabilities ≡ w.capabilities
set_draining-keeps w w' e = ground arith

acquire-RegistryIsValid :
    (r : Route) (ws : Workers) (o : Result (BackendLease × Workers))
    → RegistryIsValid ws
    → Acquired r ws o
    → RegistryIsValid (after ws (drop_value o))
acquire-RegistryIsValid r ws _ v (Acquired.refused e) = v
acquire-RegistryIsValid r ws _ v (Acquired.taken key w e a f l) =
    put-RegistryIsValid key w (record w { active_leases = w.active_leases + 1 }) ws v e refl refl

remove-RegistryIsValid :
    (id : Text) (ws : Workers) → RegistryIsValid ws → RegistryIsValid (after ws (remove id ws))
unfolding remove
remove-RegistryIsValid id ws v = ground (
  arith,
  Unique-delete id ws v.unique,
  Keyed-delete id ws v.keyed,
  Distinct-delete id ws v.one_owner,
)

-- The methods that change the registry, as calls.
pub data Call : Type 0 where
  registers : BackendCapabilities → Call
  marks : Text → Bool → Option Text → Call
  acquires : Route → Call
  releases drains removes : Text → Call

unfoldable pub step : Workers → Call → Workers
step ws (registers c) = after ws (drop_value (register c ws))
step ws (marks id is_up error) = after ws (mark_ready id is_up error ws)
step ws (acquires r) = after ws (drop_value (acquire r ws))
step ws (releases id) = after ws (release id ws)
step ws (drains id) = after ws (begin_drain id ws)
step ws (removes id) = after ws (remove id ws)

pub run : Workers → List Call → Workers
run ws [] = ws
run ws (c ∷ cs) = run (step ws c) cs

pub step-RegistryIsValid :
    (ws : Workers) (c : Call) → RegistryIsValid ws → RegistryIsValid (step ws c)
unfolding step register mark_ready release begin_drain
step-RegistryIsValid ws (registers c) v =
    register_at-RegistryIsValid c (lookup c.worker_id ws) ws v refl
step-RegistryIsValid ws (marks id is_up error) v =
    update-RegistryIsValid id (set_ready is_up error) (lookup id ws) ws
      (set_ready-keeps is_up error) v refl
step-RegistryIsValid ws (acquires r) v =
    acquire-RegistryIsValid r ws (acquire r ws) v (acquire-Acquired r ws v.unique)
step-RegistryIsValid ws (releases id) v =
    update-RegistryIsValid id drop_lease (lookup id ws) ws drop_lease-keeps v refl
step-RegistryIsValid ws (drains id) v =
    update-RegistryIsValid id set_draining (lookup id ws) ws set_draining-keeps v refl
step-RegistryIsValid ws (removes id) v = remove-RegistryIsValid id ws v

run-RegistryIsValid :
    (ws : Workers) (cs : List Call) → RegistryIsValid ws → RegistryIsValid (run ws cs)
unfolding run
run-RegistryIsValid ws [] v = v
run-RegistryIsValid ws (c ∷ cs) v = run-RegistryIsValid (step ws c) cs (step-RegistryIsValid ws c v)

-- Whatever is called on a registry that begins empty, each worker stands once, under its own
-- identifier, and no two workers own the same GPU.
pub registry_one_owner : (cs : List Call) → RegistryIsValid (run [] cs)
registry_one_owner cs =
    run-RegistryIsValid [] cs (record { unique = tt; keyed = tt; one_owner = tt })
