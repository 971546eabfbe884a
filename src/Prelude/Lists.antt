-- ===== src/Prelude/Lists.antt =====
-- Lists measured and cut by native numbers, under the library's names, and the Boolean scans that
-- Python's comprehensions come to.
use Prim.Native.Nat.{ℕ, zero, suc, ◌+◌, ◌-◌, ◌≤◌, ◌<◌, min}
use mathlib.Core.Path.{◌≡◌, refl, sym, ap, ◌∙◌}
use mathlib.Core.Bool.{Bool, true, false, ◌&&◌, ◌||◌}
use mathlib.Core.List.{List, [], ◌∷◌, ◌++◌, reverse, reverse-cons, append-nil}
use mathlib.Core.Option.{Option, none, some}
use native.Mathlib.Omega.{arith}
use native.Mathlib.Nat.{sub_self}
use mathlib.Core.Logic.{inl, inr}
use model_test.Prelude.Tests.{if◌then◌else◌, Bool-cases}

module _ {ℓ} {A : Type ℓ} where
  abbrev pub length : List A → ℕ
  length [] = 0
  length (x ∷ xs) = suc (length xs)

  abbrev pub get_elem? : List A → ℕ → Option A
  get_elem? [] i = none
  get_elem? (x ∷ xs) zero = some x
  get_elem? (x ∷ xs) (suc i) = get_elem? xs i

  abbrev pub take : ℕ → List A → List A
  take zero xs = []
  take (suc n) [] = []
  take (suc n) (x ∷ xs) = x ∷ take n xs

  abbrev pub drop : ℕ → List A → List A
  drop zero xs = xs
  drop (suc n) [] = []
  drop (suc n) (x ∷ xs) = drop n xs

  -- A write out of bounds changes nothing.
  abbrev pub set : List A → ℕ → A → List A
  set [] i v = []
  set (x ∷ xs) zero v = v ∷ xs
  set (x ∷ xs) (suc i) v = x ∷ set xs i v

  -- `[x for x in xs if keep(x)]`
  abbrev pub select : (A → Bool) → List A → List A
  select keep [] = []
  select keep (x ∷ xs) = let rest = select keep xs in if keep x then x ∷ rest else rest

  abbrev pub any : (A → Bool) → List A → Bool
  any test [] = false
  any test (x ∷ xs) = test x || any test xs

  abbrev pub all : (A → Bool) → List A → Bool
  all test [] = true
  all test (x ∷ xs) = test x && all test xs

  abbrev pub sum_of : (A → ℕ) → List A → ℕ
  sum_of f [] = 0
  sum_of f (x ∷ xs) = f x + sum_of f xs

  abbrev pub concat : List (List A) → List A
  concat [] = []
  concat (xs ∷ xss) = xs ++ concat xss

  -- A predicate by recursion computes to tuples, which the tactics read and build.
  abbrev pub All {κ} : (A → Type κ) → List A → Type κ
  All P [] = Unit
  All P (x ∷ xs) = P x × All P xs

module _ {ℓ} {A : Type ℓ} where
  pub length-append : (xs ys : List A) → length (xs ++ ys) ≡ length xs + length ys
  length-append [] ys = omega arith
  length-append (x ∷ xs) ys = omega (arith, length-append xs ys)

  pub length-take : (n : ℕ) (xs : List A) → length (take n xs) ≡ min n (length xs)
  length-take zero xs = omega arith
  length-take (suc n) [] = omega arith
  length-take (suc n) (x ∷ xs) = omega (arith, length-take n xs)

  pub length-drop : (n : ℕ) (xs : List A) → length (drop n xs) ≡ length xs - n
  length-drop zero xs = omega arith
  length-drop (suc n) [] = omega arith
  length-drop (suc n) (x ∷ xs) = omega (arith, length-drop n xs)

  pub take-append-drop : (n : ℕ) (xs : List A) → take n xs ++ drop n xs ≡ xs
  take-append-drop zero xs = refl
  take-append-drop (suc n) [] = refl
  take-append-drop (suc n) (x ∷ xs) = ap (◌∷◌ x) (take-append-drop n xs)

  pub drop-append : (n : ℕ) (xs ys : List A) → n ≤ length xs → drop n (xs ++ ys) ≡ drop n xs ++ ys
  drop-append zero xs ys h = refl
  drop-append (suc n) [] ys h = elim h [ ]
  drop-append (suc n) (x ∷ xs) ys h = drop-append n xs ys (omega arith)

  pub take-append : (n : ℕ) (xs ys : List A) → n ≤ length xs → take n (xs ++ ys) ≡ take n xs
  take-append zero xs ys h = refl
  take-append (suc n) [] ys h = elim h [ ]
  take-append (suc n) (x ∷ xs) ys h = ap (◌∷◌ x) (take-append n xs ys (omega arith))

  pub drop-nil : (n : ℕ) → drop {A = A} n [] ≡ []
  drop-nil zero = refl
  drop-nil (suc n) = refl

  pub drop-drop : (m n : ℕ) (xs : List A) → drop m (drop n xs) ≡ drop (n + m) xs
  drop-drop m zero xs = ap (λ k. drop k xs) (omega arith)
  drop-drop m (suc n) [] = drop-nil m ∙ sym (drop-nil (suc n + m))
  drop-drop m (suc n) (x ∷ xs) =
      drop-drop m n xs
      ∙ ap (λ k. drop k (x ∷ xs)) (let e : suc (n + m) ≡ suc n + m = omega arith in e)

  pub drop_all : (xs : List A) → drop (length xs) xs ≡ []
  drop_all [] = refl
  drop_all (x ∷ xs) = drop_all xs

  pub take_all : (xs : List A) → take (length xs) xs ≡ xs
  take_all [] = refl
  take_all (x ∷ xs) = ap (◌∷◌ x) (take_all xs)

  pub length-select : (keep : A → Bool) (xs : List A) → length (select keep xs) ≤ length xs
  length-select keep [] = omega arith
  length-select keep (x ∷ xs) = ground (arith, length-select keep xs)

  pub All-append {κ} : (P : A → Type κ) (xs ys : List A) → All P xs → All P ys → All P (xs ++ ys)
  All-append P [] ys hx hy = hy
  All-append P (x ∷ xs) ys hx hy = (hx.0, All-append P xs ys hx.1 hy)

  pub sum_of-append : (f : A → ℕ) (xs ys : List A) → sum_of f (xs ++ ys) ≡ sum_of f xs + sum_of f ys
  sum_of-append f [] ys = omega arith
  sum_of-append f (x ∷ xs) ys = omega (arith, sum_of-append f xs ys)

  pub get_elem?-lt : (xs : List A) (i : ℕ) (a : A) → get_elem? xs i ≡ some a → i < length xs
  get_elem?-lt [] i a h = cc
  get_elem?-lt (x ∷ xs) zero a h = omega arith
  get_elem?-lt (x ∷ xs) (suc i) a h = omega (arith, get_elem?-lt xs i a h)

  pub get_elem?-none : (xs : List A) (i : ℕ) → length xs ≤ i → get_elem? xs i ≡ none
  get_elem?-none [] i h = refl
  get_elem?-none (x ∷ xs) zero h = absurd (omega arith)
  get_elem?-none (x ∷ xs) (suc i) h = get_elem?-none xs i (omega arith)

  -- A slice and what follows it
  pub slice-append-drop :
      (xs : List A) (i j : ℕ) → i ≤ j → drop i (take j xs) ++ drop j xs ≡ drop i xs
  slice-append-drop xs zero j h = take-append-drop j xs
  slice-append-drop xs (suc i) zero h = absurd (omega arith)
  slice-append-drop [] (suc i) (suc j) h = refl
  slice-append-drop (x ∷ xs) (suc i) (suc j) h = slice-append-drop xs i j (omega arith)

  pub select-append :
      (keep : A → Bool) (xs ys : List A) → select keep (xs ++ ys) ≡ select keep xs ++ select keep ys
  select-append keep [] ys = refl
  select-append keep (x ∷ xs) ys = ground (arith, select-append keep xs ys)

  pub reverse-select :
      (keep : A → Bool) (xs : List A) → select keep (reverse xs) ≡ reverse (select keep xs)
  reverse-select keep [] = refl
  reverse-select keep (x ∷ xs) =
      rw (reverse-cons x xs, select-append keep (reverse xs) (x ∷ []), reverse-select keep xs)
        (ground (arith, reverse-cons x (select keep xs), append-nil (reverse (select keep xs))))

  -- A prefix and what follows it
  pub take-append-drop-length :
      (n : ℕ) (xs : List A) → take n xs ++ drop (length (take n xs)) xs ≡ xs
  take-append-drop-length zero xs = refl
  take-append-drop-length (suc n) [] = refl
  take-append-drop-length (suc n) (x ∷ xs) = ap (◌∷◌ x) (take-append-drop-length n xs)

  pub take-append-suffix :
      (n : ℕ) (xs : List A) → take (length xs - length (drop n xs)) xs ++ drop n xs ≡ xs
  take-append-suffix zero xs = rw (sub_self (length xs))
  take-append-suffix (suc n) [] = refl
  take-append-suffix (suc n) (x ∷ xs) =
      let e : suc (length xs) - length (drop n xs) ≡ suc (length xs - length (drop n xs)) =
        omega (arith, length-drop n xs) in
      rw e (ap (◌∷◌ x) (take-append-suffix n xs))

  pub All-select {κ} :
      (P : A → Type κ) (keep : A → Bool) (xs : List A) → All P xs → All P (select keep xs)
  All-select P keep [] h = tt
  All-select P keep (x ∷ xs) h = elim (Bool-cases (keep x)) [
    | inl e ↦ rw e (h.0, All-select P keep xs h.1)
    | inr e ↦ rw e (All-select P keep xs h.1)
  ]

  pub select-All : (keep : A → Bool) (xs : List A) → All (λ x. keep x ≡ true) (select keep xs)
  select-All keep [] = tt
  select-All keep (x ∷ xs) = elim (Bool-cases (keep x)) [
    | inl e ↦ rw e (e, select-All keep xs)
    | inr e ↦ rw e (select-All keep xs)
  ]

  pub All-map {κ ν} :
      (P : A → Type κ) (Q : A → Type ν) (f : (a : A) → P a → Q a) (xs : List A)
      → All P xs
      → All Q xs
  All-map P Q f [] h = tt
  All-map P Q f (x ∷ xs) h = (f x h.0, All-map P Q f xs h.1)

  pub any-All : (test : A → Bool) (xs : List A) → any test xs ≡ false → All (λ x. test x ≡ false) xs
  any-All test [] h = tt
  any-All test (x ∷ xs) h = (ground arith, any-All test xs (ground arith))

  pub sum_of-set :
      (f : A → ℕ) (xs : List A) (i : ℕ) (a b : A)
      → get_elem? xs i ≡ some a
      → sum_of f (set xs i b) + f a ≡ sum_of f xs + f b
  sum_of-set f [] i a b h = cc
  sum_of-set f (x ∷ xs) zero a b h = ground arith
  sum_of-set f (x ∷ xs) (suc i) a b h = omega (arith, sum_of-set f xs i a b h)

  -- A part of a sum is at most the sum.
  pub le-sum_of :
      (f : A → ℕ) (xs : List A) (i : ℕ) (a : A) → get_elem? xs i ≡ some a → f a ≤ sum_of f xs
  le-sum_of f [] i a h = cc
  le-sum_of f (x ∷ xs) zero a h = ground arith
  le-sum_of f (x ∷ xs) (suc i) a h = omega (arith, le-sum_of f xs i a h)
