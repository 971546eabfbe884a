-- ===== src/Backends/Choice.antt =====
-- Which worker `acquire` (app/asr_gateway_backends.py) takes.
use model_test.Prelude.{
  ◌+◌, ◌≡◌, refl, sym, ap, subst, ◌∙◌, [], ◌∷◌, true, false, some, arith, All, All-select,
  select-All, select, if◌then◌else◌, Bool-cases, ◌⊎◌, inl, inr, Text, text_eq_refl, text_eq_comm,
  text_ltb_trans, text_ltb_irrefl, Result, ok, err, runtime_error,
}
use model_test.Prelude.Dict.{lookup, put, Unique, Fresh}
use model_test.Backends.{
  Workers, Route, BackendLease, least, less_loaded, acquire, acquire_from, is_candidate, fits,
}
use model_test.Backends.Defs.{BackendSnapshot, accepting}

less_loaded_irrefl : (a : BackendSnapshot) → less_loaded a a ≡ false
unfolding less_loaded
less_loaded_irrefl a = ground (arith, text_ltb_irrefl a.capabilities.worker_id)

less_loaded_trans :
    (a b c : BackendSnapshot)
    → less_loaded a b ≡ true
    → less_loaded b c ≡ true
    → less_loaded a c ≡ true
unfolding less_loaded
less_loaded_trans a b c h k = ground (
  arith,
  text_ltb_trans a.capabilities.worker_id b.capabilities.worker_id c.capabilities.worker_id,
)

-- No worker of the list is less loaded than this one.
abbrev pub IsLeast : Workers → BackendSnapshot → Type 0
IsLeast ws b = All (λ w. less_loaded w.1 b ≡ false) ws

least-cons :
    (best w : Text × BackendSnapshot) (ws : Workers)
    → least best (w ∷ ws) ≡ least (if less_loaded w.1 best.1 then w else best) ws
unfolding least
least-cons best w ws = refl

least-nil : (best : Text × BackendSnapshot) → least best [] ≡ best
unfolding least
least-nil best = refl

least-le :
    (best : Text × BackendSnapshot) (ws : Workers)
    → (least best ws ≡ best) ⊎ (less_loaded (least best ws).1 best.1 ≡ true)
least-le best [] = inl (least-nil best)
least-le best (w ∷ ws) = elim (Bool-cases (less_loaded w.1 best.1)) [
  | inl e ↦
      rw (least-cons best w ws, e)
        (elim (least-le w ws) [
          | inl p ↦ inr (ap (λ kw. less_loaded kw.1 best.1) p ∙ e)
          | inr p ↦ inr (less_loaded_trans (least w ws).1 w.1 best.1 p e)
        ])
  | inr e ↦ rw (least-cons best w ws, e) (least-le best ws)
]

no_better :
    (w best : BackendSnapshot) (r : BackendSnapshot)
    → less_loaded w best ≡ false
    → (r ≡ best) ⊎ (less_loaded r best ≡ true)
    → less_loaded w r ≡ false
no_better w best r e (inl p) = ap (less_loaded w) p ∙ e
no_better w best r e (inr p) = ground (arith, less_loaded_trans w r best)

least-IsLeast :
    (best : Text × BackendSnapshot) (ws : Workers) → IsLeast (best ∷ ws) (least best ws).1
least-IsLeast best [] = rw (least-nil best) (less_loaded_irrefl best.1, tt)
least-IsLeast best (w ∷ ws) = elim (Bool-cases (less_loaded w.1 best.1)) [
  | inl e ↦
      let ih = least-IsLeast w ws in
      subst at_least (sym (least-cons best w ws ∙ ap (λ b. least (if b then w else best) ws) e))
        (ground (arith, ih.0, less_loaded_trans w.1 best.1 (least w ws).1), (ih.0, ih.1))
  | inr e ↦
      let ih = least-IsLeast best ws in
      subst at_least (sym (least-cons best w ws ∙ ap (λ b. least (if b then w else best) ws) e))
        (ih.0, (no_better w.1 best.1 (least best ws).1 e (of_pair (least-le best ws)), ih.1))
]
  where
    at_least : Text × BackendSnapshot → Type 0
    at_least r = IsLeast (best ∷ w ∷ ws) r.1

    of_pair :
        (least best ws ≡ best) ⊎ (less_loaded (least best ws).1 best.1 ≡ true)
        → ((least best ws).1 ≡ best.1) ⊎ (less_loaded (least best ws).1 best.1 ≡ true)
    of_pair (inl p) = inl (ap (λ kw. kw.1) p)
    of_pair (inr p) = inr p

-- What holds of each worker of a list holds of the one that is taken.
least-All {ℓ} :
    (P : Text × BackendSnapshot → Type ℓ) (best : Text × BackendSnapshot) (ws : Workers)
    → P best
    → All P ws
    → P (least best ws)
unfolding least
least-All P best [] b h = b
least-All P best (w ∷ ws) b h = elim (Bool-cases (less_loaded w.1 best.1)) [
  | inl e ↦ rw e (least-All P w ws h.0 h.1)
  | inr e ↦ rw e (least-All P best ws b h.1)
]

abbrev pub Listed : Workers → Text × BackendSnapshot → Type 0
Listed ws kw = lookup kw.0 ws ≡ some kw.1

Listed-cons :
    (k : Text) (w : BackendSnapshot) (ws rest : Workers)
    → Fresh k rest
    → All (Listed ws) rest
    → All (Listed ((k, w) ∷ ws)) rest
unfolding lookup
Listed-cons k w ws [] f h = tt
Listed-cons k w ws ((j, v) ∷ rest) f h =
    (ground (arith, text_eq_comm j k, f.0), Listed-cons k w ws rest f.1 h.1)

All-Listed : (ws : Workers) → Unique ws → All (Listed ws) ws
unfolding lookup
All-Listed [] u = tt
All-Listed ((k, w) ∷ ws) u =
    (ground (arith, text_eq_refl k), Listed-cons k w ws ws u.0 (All-Listed ws u.1))

-- The outcome of `acquire` on a registry.
pub data Acquired (r : Route) (ws : Workers) : Result (BackendLease × Workers) → Type 0 where
  refused :
      select (is_candidate r) ws ≡ []
      → Acquired r ws (err (runtime_error "unsupported backend route or no ready capacity"))
  taken :
      (key : Text) (w : BackendSnapshot)
      → lookup key ws ≡ some w
      → accepting w ≡ true
      → fits r w.capabilities ≡ true
      → IsLeast (select (is_candidate r) ws) w
      → Acquired r ws (
          ok (
            record { worker_id = w.capabilities.worker_id; is_released = false },
            put key (record w { active_leases = w.active_leases + 1 }) ws,
          ))

acquire_from-Acquired :
    (r : Route) (ws cs : Workers)
    → select (is_candidate r) ws ≡ cs
    → All (Listed ws) cs
    → All (λ kw. is_candidate r kw ≡ true) cs
    → Acquired r ws (acquire_from cs ws)
unfolding acquire_from
acquire_from-Acquired r ws [] e l h = refused e
acquire_from-Acquired r ws (c ∷ cs) e l h =
    let kw = least c cs in
    let t : is_candidate r kw ≡ true = least-All (λ x. is_candidate r x ≡ true) c cs h.0 h.1 in
    taken kw.0 kw.1 (least-All (Listed ws) c cs l.0 l.1) (ground (arith, t)) (ground (arith, t))
      (rw e (least-IsLeast c cs))

-- In a registry whose keys are unique: `acquire` refuses only if no worker is accepting and fits
-- the route; otherwise it takes a worker of the registry that is accepting, fits the route and is
-- no more loaded than any other such worker, leases it, and counts one more lease on it alone.
pub acquire-Acquired : (r : Route) (ws : Workers) → Unique ws → Acquired r ws (acquire r ws)
unfolding acquire
acquire-Acquired r ws u =
    acquire_from-Acquired r ws (select (is_candidate r) ws) refl
      (All-select (Listed ws) (is_candidate r) ws (All-Listed ws u))
      (select-All (is_candidate r) ws)
