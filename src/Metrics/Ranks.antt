-- ===== src/Metrics/Ranks.antt =====
-- The summary of the bounded values of app/asr_observability.py, where the values are counted that
-- are below a value or up to it.
use model_test.Prelude.{
  ℕ, zero, suc, ◌+◌, ◌-◌, ◌*◌, ◌/◌, ◌≤◌, ◌<◌, ◌≡◌, refl, ap, ◌∙◌, List, [], ◌∷◌, Bool, Option, some,
  ltb, leb, arith, length, select, get_elem?, All, All-map,
}
use model_test.Metrics.{
  insert_value, sorted_values, nearest_rank, summary, summary_of, BoundedValues,
}

-- How many of the values are below `v`, and how many are at most `v`
abbrev pub below : ℕ → List ℕ → ℕ
below v xs = length (select (λ w. ltb w v) xs)

abbrev pub up_to : ℕ → List ℕ → ℕ
up_to v xs = length (select (λ w. leb w v) xs)

select-insert_value :
    (test : ℕ → Bool) (v : ℕ) (ws : List ℕ)
    → length (select test (insert_value v ws)) ≡ length (select test (v ∷ ws))
unfolding insert_value
select-insert_value test v [] = refl
select-insert_value test v (w ∷ ws) = ground (arith, select-insert_value test v ws)

select-sorted_values :
    (test : ℕ → Bool) (vs : List ℕ)
    → length (select test (sorted_values vs)) ≡ length (select test vs)
unfolding sorted_values
select-sorted_values test [] = refl
select-sorted_values test (v ∷ vs) =
    ground (arith, select-insert_value test v (sorted_values vs), select-sorted_values test vs)

length-insert_value : (v : ℕ) (ws : List ℕ) → length (insert_value v ws) ≡ length ws + 1
unfolding insert_value
length-insert_value v [] = omega arith
length-insert_value v (w ∷ ws) = ground (arith, length-insert_value v ws)

length-sorted_values : (vs : List ℕ) → length (sorted_values vs) ≡ length vs
unfolding sorted_values
length-sorted_values [] = refl
length-sorted_values (v ∷ vs) =
    omega (arith, length-insert_value v (sorted_values vs), length-sorted_values vs)

abbrev Ascends : List ℕ → Type 0
Ascends [] = Unit
Ascends (x ∷ xs) = All (λ w. x ≤ w) xs × Ascends xs

All-insert_value :
    (u v : ℕ) (ws : List ℕ) → u ≤ v → All (λ w. u ≤ w) ws → All (λ w. u ≤ w) (insert_value v ws)
unfolding insert_value
All-insert_value u v [] h a = (h, tt)
All-insert_value u v (w ∷ ws) h a = ground (arith, All-insert_value u v ws h a.1)

insert_value-Ascends : (v : ℕ) (ws : List ℕ) → Ascends ws → Ascends (insert_value v ws)
unfolding insert_value
insert_value-Ascends v [] a = (tt, tt)
insert_value-Ascends v (w ∷ ws) a =
    let later : v ≤ w → All (λ x. v ≤ x) ws =
      λ h. All-map (λ x. w ≤ x) (λ x. v ≤ x) (λ x e. omega arith) ws a.0 in
    let earlier : w ≤ v → All (λ x. w ≤ x) (insert_value v ws) =
      λ h. All-insert_value w v ws h a.0 in
    ground (arith, later, earlier, insert_value-Ascends v ws a.1)

sorted_values-Ascends : (vs : List ℕ) → Ascends (sorted_values vs)
unfolding sorted_values
sorted_values-Ascends [] = tt
sorted_values-Ascends (v ∷ vs) =
    insert_value-Ascends v (sorted_values vs) (sorted_values-Ascends vs)

below-least : (v : ℕ) (ws : List ℕ) → All (λ w. v ≤ w) ws → below v ws ≡ 0
below-least v [] a = refl
below-least v (w ∷ ws) a = ground (arith, below-least v ws a.1)

-- The value at an index of ascending values
at_index :
    (xs : List ℕ) (i : ℕ)
    → Ascends xs
    → i < length xs
    → (v : ℕ) × (get_elem? xs i ≡ some v)
      × (below v xs ≤ i)
      × (i < up_to v xs)
      × ((u : ℕ) → All (λ w. u ≤ w) xs → u ≤ v)
at_index [] i a h = elim h [ ]
at_index (x ∷ xs) zero a h =
    (x, refl, ground (arith, below-least x xs a.0), ground arith, λ u b. b.0)
at_index (x ∷ xs) (suc i) a h =
    let (v, e, l, g, least) = at_index xs i a.1 (omega arith) in
    let x_le : x ≤ v = least x a.0 in
    (v, e, ground (arith, l, x_le), ground (arith, g, x_le), λ u b. least u b.1)

-- The value of which fewer than `percent` per cent of the values are below, and of which at least
-- as many are at most it: there is exactly one.
abbrev pub IsRank : ℕ → Option ℕ → List ℕ → Type 0
IsRank percent result xs =
    (v : ℕ) × (result ≡ some v)
    × (100 * below v xs < percent * length xs)
    × (percent * length xs ≤ 100 * up_to v xs)

abbrev pub IsLeast : Option ℕ → List ℕ → Type 0
IsLeast result xs = (v : ℕ) × (result ≡ some v) × (below v xs ≡ 0) × (0 < up_to v xs)

abbrev pub IsGreatest : Option ℕ → List ℕ → Type 0
IsGreatest result xs =
    (v : ℕ) × (result ≡ some v) × (below v xs < length xs) × (up_to v xs ≡ length xs)

-- The sorted values at an index, counted among the values
in_order :
    (vs : List ℕ) (i : ℕ)
    → i < length vs
    → (v : ℕ) × (get_elem? (sorted_values vs) i ≡ some v) × (below v vs ≤ i) × (i < up_to v vs)
in_order vs i h =
    let size = length-sorted_values vs in
    let (v, e, l, g, least) =
      at_index (sorted_values vs) i (sorted_values-Ascends vs) (omega arith) in
    let below_sorted = select-sorted_values (λ w. ltb w v) vs in
    let up_to_sorted = select-sorted_values (λ w. leb w v) vs in (v, e, omega arith, omega arith)

up_to-le : (v : ℕ) (vs : List ℕ) → up_to v vs ≤ length vs
up_to-le v [] = omega arith
up_to-le v (w ∷ ws) = ground (arith, up_to-le v ws)

nearest_rank-IsRank :
    (percent : ℕ) (vs : List ℕ)
    → 0 < percent * length vs
    → percent * length vs ≤ 100 * length vs
    → IsRank percent (nearest_rank percent (sorted_values vs)) vs
unfolding nearest_rank
nearest_rank-IsRank percent vs h k =
    let index = (percent * length vs + 99) / 100 - 1 in
    let (v, e, l, g) = in_order vs index (omega arith) in
    rw (length-sorted_values vs) (v, e, omega arith, omega arith)

-- The summary of a nonempty collection counts all its values. Its least value is one of them and
-- none is below it, its greatest is one of them and none is above it, and p50, p95 and p99 are the
-- nearest ranks: fewer than 50, 95 or 99 per cent of the values are below it, and at least as many
-- are at most it.
pub summary-ranks :
    (b : BoundedValues)
    → 0 < length b.values
    → let s = summary b in
      (s.count ≡ length b.values)
      × IsLeast s.least b.values
      × IsRank 50 s.p50 b.values
      × IsRank 95 s.p95 b.values
      × IsRank 99 s.p99 b.values
      × IsGreatest s.greatest b.values
unfolding summary summary_of
summary-ranks b h =
    let xs = b.values in
    let n = length-sorted_values xs in
    let (least, e, l, g) = in_order xs 0 h in
    let (greatest, e', l', g') = in_order xs (length xs - 1) (omega arith) in
    (
      n,
      (least, e, omega arith, g),
      nearest_rank-IsRank 50 xs (omega arith) (omega arith),
      nearest_rank-IsRank 95 xs (omega arith) (omega arith),
      nearest_rank-IsRank 99 xs (omega arith) (omega arith),
      (
        greatest,
        ap (λ k. get_elem? (sorted_values xs) (k - 1)) n ∙ e',
        omega arith,
        omega (arith, up_to-le greatest xs),
      ),
    )
