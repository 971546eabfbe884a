-- ===== src/Prelude/Dict.antt =====
-- Python's `dict` with string keys, in insertion order: an assignment to a key that is there keeps
-- its place.
use Prim.Native.Nat.{◌+◌, ◌≤◌}
use mathlib.Core.Path.{◌≡◌, refl}
use mathlib.Core.Bool.{false}
use mathlib.Core.List.{List, [], ◌∷◌}
use mathlib.Core.Option.{Option, none, some}
use native.Mathlib.Omega.{arith}
use model_test.Prelude.Tests.{if◌then◌else◌}
use model_test.Prelude.Lists.{length}
use model_test.Prelude.Texts.{Text, text_eq, text_eq_sound, text_eq_refl}

abbrev pub Dict {ℓ} : Type ℓ → Type ℓ
Dict V = List (Text × V)

module _ {ℓ} {V : Type ℓ} where
  -- `d.get(k)`
  unfoldable pub lookup : Text → Dict V → Option V
  lookup k [] = none
  lookup k ((j, v) ∷ d) = if text_eq j k then some v else lookup k d

  -- `d[k] = v`
  unfoldable pub put : Text → V → Dict V → Dict V
  put k v [] = (k, v) ∷ []
  put k v ((j, w) ∷ d) = if text_eq j k then (j, v) ∷ d else (j, w) ∷ put k v d

  -- `del d[k]`, `d.pop(k, None)`; a key stands once
  unfoldable pub delete : Text → Dict V → Dict V
  delete k [] = []
  delete k ((j, w) ∷ d) = if text_eq j k then d else (j, w) ∷ delete k d

  -- A key stands once.
  abbrev pub Fresh : Text → Dict V → Type 0
  Fresh k [] = Unit
  Fresh k ((j, v) ∷ d) = (text_eq j k ≡ false) × Fresh k d

  abbrev pub Unique : Dict V → Type 0
  Unique [] = Unit
  Unique ((j, v) ∷ d) = Fresh j d × Unique d

module _ {ℓ} {V : Type ℓ} where
  pub lookup-put :
      (k j : Text) (v : V) (d : Dict V)
      → lookup j (put k v d) ≡ (if text_eq k j then some v else lookup j d)
  unfolding lookup put
  lookup-put k j v [] = refl
  lookup-put k j v ((i, w) ∷ d) = ground (
    arith,
    lookup-put k j v d,
    text_eq_sound k j,
    text_eq_sound i k,
    text_eq_sound i j,
    text_eq_refl k,
    text_eq_refl j,
  )

  pub Fresh-lookup : (k : Text) (d : Dict V) → Fresh k d → lookup k d ≡ none
  unfolding lookup
  Fresh-lookup k [] h = refl
  Fresh-lookup k ((j, v) ∷ d) h = ground (arith, Fresh-lookup k d)

  pub lookup-Fresh : (k : Text) (d : Dict V) → lookup k d ≡ none → Fresh k d
  unfolding lookup
  lookup-Fresh k [] h = tt
  lookup-Fresh k ((j, v) ∷ d) h = ground (arith, lookup-Fresh k d)

  pub Fresh-put :
      (k j : Text) (v : V) (d : Dict V) → text_eq j k ≡ false → Fresh k d → Fresh k (put j v d)
  unfolding put
  Fresh-put k j v [] h f = (h, tt)
  Fresh-put k j v ((i, w) ∷ d) h f = ground (arith, Fresh-put k j v d)

  pub Unique-put : (k : Text) (v : V) (d : Dict V) → Unique d → Unique (put k v d)
  unfolding put
  Unique-put k v [] u = (tt, tt)
  Unique-put k v ((j, w) ∷ d) u =
      ground (arith, Unique-put k v d, Fresh-put j k v d, text_eq_sound k j, text_eq_refl k)

  pub Fresh-delete : (k j : Text) (d : Dict V) → Fresh k d → Fresh k (delete j d)
  unfolding delete
  Fresh-delete k j [] f = tt
  Fresh-delete k j ((i, w) ∷ d) f = ground (arith, Fresh-delete k j d)

  pub Unique-delete : (k : Text) (d : Dict V) → Unique d → Unique (delete k d)
  unfolding delete
  Unique-delete k [] u = tt
  Unique-delete k ((j, w) ∷ d) u = ground (arith, Unique-delete k d, Fresh-delete j k d)

  pub lookup-delete :
      (k j : Text) (d : Dict V)
      → Unique d
      → lookup j (delete k d) ≡ (if text_eq k j then none else lookup j d)
  unfolding lookup delete
  lookup-delete k j [] u = ground arith
  lookup-delete k j ((i, w) ∷ d) u = ground (
    arith,
    lookup-delete k j d,
    Fresh-lookup i d,
    text_eq_sound k j,
    text_eq_sound i k,
    text_eq_sound i j,
    text_eq_refl k,
    text_eq_refl j,
  )

  pub length-put : (k : Text) (v : V) (d : Dict V) → Fresh k d → length (put k v d) ≡ length d + 1
  unfolding put
  length-put k v [] f = omega arith
  length-put k v ((j, w) ∷ d) f = ground (arith, length-put k v d)

  pub length-put-le : (k : Text) (v : V) (d : Dict V) → length (put k v d) ≤ length d + 1
  unfolding put
  length-put-le k v [] = omega arith
  length-put-le k v ((j, w) ∷ d) = ground (arith, length-put-le k v d)

  pub length-delete-le : (k : Text) (d : Dict V) → length (delete k d) ≤ length d
  unfolding delete
  length-delete-le k [] = omega arith
  length-delete-le k ((j, w) ∷ d) = ground (arith, length-delete-le k d)
