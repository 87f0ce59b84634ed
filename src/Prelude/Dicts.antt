-- ===== src/Prelude/Dicts.antt =====
-- Python's `dict` with texts for keys: an association list in the order of insertion. A write to a
-- key that is there keeps its place; `pop(k, None)` drops the key.
use Prim.Native.String.{String}
use text.Mathlib.Text.{◌==◌}
use text.Mathlib.TextEquality.{eq_iff}
use text.Mathlib.TextPositions.{eq_refl}
use mathlib.Core.Path.{◌≡◌, refl}
use mathlib.Core.Logic.{◌≢◌}
use mathlib.Core.Bool.{Bool, true, false}
use mathlib.Core.List.{List, [], ◌∷◌, map}
use mathlib.Core.Option.{Option, none, some}
use native.Mathlib.Omega.{arith}
use home_ailab.Prelude.Tests.{if◌then◌else◌, is_some}
use home_ailab.Prelude.Texts.{contains, IsUnique}

abbrev pub Dict {ℓ} : Type ℓ → Type ℓ
Dict V = List (String × V)

module _ {ℓ} {V : Type ℓ} where
  -- d.get(k)
  unfoldable pub lookup : String → Dict V → Option V
  lookup k [] = none
  lookup k ((j, v) ∷ d) = if j == k then some v else lookup k d

  -- k in d
  abbrev pub has : String → Dict V → Bool
  has k d = is_some (lookup k d)

  -- d[k] = v
  unfoldable pub insert : String → V → Dict V → Dict V
  insert k v [] = (k, v) ∷ []
  insert k v ((j, w) ∷ d) = if j == k then (k, v) ∷ d else (j, w) ∷ insert k v d

  -- d.pop(k, None)
  unfoldable pub erase : String → Dict V → Dict V
  erase k [] = []
  erase k ((j, v) ∷ d) = let rest = erase k d in if j == k then rest else (j, v) ∷ rest

  -- list(d)
  unfoldable pub keys : Dict V → List String
  keys d = map (λ e. e.0) d

  -- list(d.values())
  unfoldable pub values : Dict V → List V
  values d = map (λ e. e.1) d

  pub lookup-insert :
      (k j : String) (v : V) (d : Dict V)
      → lookup j (insert k v d) ≡ (if k == j then some v else lookup j d)
  unfolding lookup insert
  lookup-insert k j v [] = refl
  lookup-insert k j v ((i, w) ∷ d) =
      ground (arith, eq_iff k j, eq_iff i k, eq_iff i j, lookup-insert k j v d)

  pub lookup-erase :
      (k j : String) (d : Dict V) → lookup j (erase k d) ≡ (if k == j then none else lookup j d)
  unfolding lookup erase
  lookup-erase k j [] = ground arith
  lookup-erase k j ((i, w) ∷ d) =
      ground (arith, eq_iff k j, eq_iff i k, eq_iff i j, lookup-erase k j d)

  pub lookup-insert_self : (k : String) (v : V) (d : Dict V) → lookup k (insert k v d) ≡ some v
  lookup-insert_self k v d = simp (lookup-insert, eq_refl)

  pub lookup-erase_self : (k : String) (d : Dict V) → lookup k (erase k d) ≡ none
  lookup-erase_self k d = simp (lookup-erase, eq_refl)

  pub lookup-insert_ne :
      (k j : String) (v : V) (d : Dict V) → k ≢ j → lookup j (insert k v d) ≡ lookup j d
  lookup-insert_ne k j v d h = ground (arith, lookup-insert k j v d, eq_iff k j)

  pub lookup-erase_ne : (k j : String) (d : Dict V) → k ≢ j → lookup j (erase k d) ≡ lookup j d
  lookup-erase_ne k j d h = ground (arith, lookup-erase k j d, eq_iff k j)

  pub has-insert :
      (k j : String) (v : V) (d : Dict V)
      → has j (insert k v d) ≡ (if k == j then true else has j d)
  has-insert k j v d = rw lookup-insert (ground arith)

  pub has-erase :
      (k j : String) (d : Dict V) → has j (erase k d) ≡ (if k == j then false else has j d)
  has-erase k j d = rw lookup-erase (ground arith)

  pub has-erase_self : (k : String) (d : Dict V) → has k (erase k d) ≡ false
  has-erase_self k d = simp (lookup-erase, eq_refl)

module _ {ℓ} {V : Type ℓ} where
  pub contains-keys : (k : String) (d : Dict V) → contains k (keys d) ≡ has k d
  unfolding contains keys lookup
  contains-keys k [] = refl
  contains-keys k ((j, v) ∷ d) = ground (arith, contains-keys k d)

  pub erase-IsUnique : (k : String) (d : Dict V) → IsUnique (keys d) → IsUnique (keys (erase k d))
  unfolding keys erase
  erase-IsUnique k [] u = tt
  erase-IsUnique k ((j, v) ∷ d) u = ground (
    arith,
    erase-IsUnique k d u.1,
    contains-keys j (erase k d),
    contains-keys j d,
    has-erase k j d,
    u.0,
  )

  pub insert-IsUnique :
      (k : String) (v : V) (d : Dict V) → IsUnique (keys d) → IsUnique (keys (insert k v d))
  unfolding keys insert contains
  insert-IsUnique k v [] u = (refl, tt)
  insert-IsUnique k v ((j, w) ∷ d) u = ground (
    arith,
    insert-IsUnique k v d u.1,
    contains-keys j (insert k v d),
    contains-keys j d,
    has-insert k j v d,
    eq_iff j k,
    eq_iff k j,
    u.0,
  )
