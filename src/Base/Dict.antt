-- ===== src/Base/Dict.antt =====
-- A Go map as an association list in iteration order. Go leaves that order open; statements range
-- over every list. A Go map holds each key once, which `KeysUnique` says.
use terminal_todo.Base.Tests.{Eq, ◌==◌, if◌then◌else◌}
use terminal_todo.Base.Lists.{has}
use mathlib.Core.Path.{◌≡◌, refl, ap}
use mathlib.Core.Bool.{true, false, not, ◌&&◌, ◌||◌}
use mathlib.Core.List.{List, [], ◌∷◌}
use mathlib.Core.Option.{Option, none, some}
use mathlib.Core.Option
use native.Mathlib.Omega.{arith}

abbrev pub Dict {ℓ κ} : Type ℓ → Type κ → Type (ℓ ⊔ κ)
Dict K V = List (K × V)

module _ {ℓ κ} {K : Type ℓ} {V : Type κ} where
  unfoldable pub keys : Dict K V → List K
  keys [] = []
  keys ((k, v) ∷ m) = k ∷ keys m

  unfoldable pub values : Dict K V → List V
  values [] = []
  values ((k, v) ∷ m) = v ∷ values m

module _ {ℓ κ} {K : Type ℓ} {V : Type κ} ⦃e : Eq K⦄ where
  unfoldable pub lookup : K → Dict K V → Option V
  lookup k [] = none
  lookup k ((key, value) ∷ rest) = if key == k then some value else lookup k rest

  -- `m[k] = v`
  unfoldable pub insert : K → V → Dict K V → Dict K V
  insert k v [] = (k, v) ∷ []
  insert k v ((key, old) ∷ rest) = if key == k then (k, v) ∷ rest else (key, old) ∷ insert k v rest

  -- `delete(m, k)`
  unfoldable pub delete : K → Dict K V → Dict K V
  delete k [] = []
  delete k ((j, w) ∷ m) = if j == k then delete k m else (j, w) ∷ delete k m

  -- A write through the pointer that `m` holds at `k`.
  unfoldable pub modify : K → (V → V) → Dict K V → Dict K V
  modify k f [] = []
  modify k f ((j, w) ∷ m) = (j, if j == k then f w else w) ∷ modify k f m

  abbrev pub KeysUnique : Dict K V → Type 0
  KeysUnique [] = Unit {0}
  KeysUnique ((k, v) ∷ m) = (has k (keys m) ≡ false) × KeysUnique m

  pub lookup-insert :
      (k other : K) (v : V) (m : Dict K V)
      → lookup other (insert k v m) ≡ (if k == other then some v else lookup other m)
  unfolding lookup insert
  lookup-insert k other v [] = refl
  lookup-insert k other v ((key, old) ∷ rest) =
      ground (
        arith,
        lookup-insert k other v rest,
        e.beq_iff key other,
        e.beq_iff key k,
        e.beq_iff k other,
      )

  pub lookup-delete :
      (k j : K) (m : Dict K V) → lookup j (delete k m) ≡ (if k == j then none else lookup j m)
  unfolding lookup delete
  lookup-delete k j [] = ground arith
  lookup-delete k j ((i, w) ∷ m) =
      ground (arith, e.beq_iff k j, e.beq_iff i k, e.beq_iff i j, lookup-delete k j m)

  pub lookup-modify :
      (k j : K) (f : V → V) (m : Dict K V)
      → lookup j (modify k f m) ≡ (if k == j then Option.map f (lookup j m) else lookup j m)
  unfolding lookup modify
  lookup-modify k j f [] = ground arith
  lookup-modify k j f ((i, w) ∷ m) =
      ground (arith, e.beq_iff k j, e.beq_iff i k, e.beq_iff i j, lookup-modify k j f m)

  pub keys-modify : (k : K) (f : V → V) (m : Dict K V) → keys (modify k f m) ≡ keys m
  unfolding keys modify
  keys-modify k f [] = refl
  keys-modify k f ((i, w) ∷ m) = ap (◌∷◌ i) (keys-modify k f m)

  pub has-keys-insert :
      (j k : K) (v : V) (m : Dict K V) → has j (keys (insert k v m)) ≡ (k == j || has j (keys m))
  unfolding keys insert has
  has-keys-insert j k v [] = refl
  has-keys-insert j k v ((i, w) ∷ m) =
      ground (arith, has-keys-insert j k v m, e.beq_iff i k, e.beq_iff i j, e.beq_iff k j)

  pub has-keys-delete :
      (j k : K) (m : Dict K V) → has j (keys (delete k m)) ≡ (not (k == j) && has j (keys m))
  unfolding keys delete has
  has-keys-delete j k [] = ground arith
  has-keys-delete j k ((i, w) ∷ m) =
      ground (arith, has-keys-delete j k m, e.beq_iff i k, e.beq_iff i j, e.beq_iff k j)

  pub KeysUnique-modify :
      (k : K) (f : V → V) (m : Dict K V) → KeysUnique m → KeysUnique (modify k f m)
  unfolding modify keys
  KeysUnique-modify k f [] u = tt
  KeysUnique-modify k f ((i, w) ∷ m) u =
      ground (arith, keys-modify k f m, KeysUnique-modify k f m u.1)

  pub KeysUnique-insert : (k : K) (v : V) (m : Dict K V) → KeysUnique m → KeysUnique (insert k v m)
  unfolding insert keys has
  KeysUnique-insert k v [] u = ground arith
  KeysUnique-insert k v ((i, w) ∷ m) u =
      ground
        (arith, has-keys-insert i k v m, KeysUnique-insert k v m u.1, e.beq_iff i k, e.beq_iff k i)

  pub KeysUnique-delete : (k : K) (m : Dict K V) → KeysUnique m → KeysUnique (delete k m)
  unfolding delete keys
  KeysUnique-delete k [] u = tt
  KeysUnique-delete k ((i, w) ∷ m) u =
      ground (arith, has-keys-delete i k m, KeysUnique-delete k m u.1)

  pub lookup-keys : (k : K) (m : Dict K V) {v : V} → lookup k m ≡ some v → has k (keys m) ≡ true
  unfolding lookup keys has
  lookup-keys k [] h = absurd (cc)
  lookup-keys k ((i, w) ∷ m) {v} h = ground (arith, lookup-keys k m {v = v})

  pub lookup-not_key : (k : K) (m : Dict K V) → has k (keys m) ≡ false → lookup k m ≡ none
  unfolding lookup keys has
  lookup-not_key k [] h = refl
  lookup-not_key k ((i, w) ∷ m) h = ground (arith, lookup-not_key k m)
