-- ===== src/Base/Lists.antt =====
-- Lists over the native numbers, and lists as Go's sets.
use Prim.Native.Nat.{ℕ, zero, suc, ◌+◌, ◌-◌}
use mathlib.Core.Path.{◌≡◌, refl}
use mathlib.Core.Logic.{inl, inr}
use mathlib.Core.Bool.{Bool, true, false, not, ◌&&◌, ◌||◌}
use mathlib.Core.List.{List, [], ◌∷◌, ◌++◌}
use native.Mathlib.Omega.{arith}
use terminal_todo.Base.Tests.{Eq, ◌==◌, if◌then◌else◌, Bool-cases}

module _ {ℓ} {A : Type ℓ} where
  abbrev pub length : List A → ℕ
  length [] = 0
  length (x ∷ xs) = suc (length xs)

  abbrev pub take : ℕ → List A → List A
  take zero xs = []
  take (suc n) [] = []
  take (suc n) (x ∷ xs) = x ∷ take n xs

  abbrev pub drop : ℕ → List A → List A
  drop zero xs = xs
  drop (suc n) [] = []
  drop (suc n) (x ∷ xs) = drop n xs

  pub length-append : (xs ys : List A) → length (xs ++ ys) ≡ length xs + length ys
  length-append [] ys = omega arith
  length-append (x ∷ xs) ys = omega (arith, length-append xs ys)

  pub length-drop : (n : ℕ) (xs : List A) → length (drop n xs) ≡ length xs - n
  length-drop zero xs = omega arith
  length-drop (suc n) [] = omega arith
  length-drop (suc n) (x ∷ xs) = omega (arith, length-drop n xs)

  -- The entries that pass a test, in order.
  abbrev pub select : (A → Bool) → List A → List A
  select p [] = []
  select p (x ∷ xs) = if p x then x ∷ select p xs else select p xs

  abbrev pub any : (A → Bool) → List A → Bool
  any p [] = false
  any p (x ∷ xs) = p x || any p xs

  abbrev pub all : (A → Bool) → List A → Bool
  all p [] = true
  all p (x ∷ xs) = p x && all p xs

  -- How many entries pass a test.
  abbrev pub tally : (A → Bool) → List A → ℕ
  tally p [] = 0
  tally p (x ∷ xs) = if p x then suc (tally p xs) else tally p xs

  abbrev pub All {κ} : (A → Type κ) → List A → Type κ
  All P [] = Unit
  All P (x ∷ xs) = P x × All P xs

  pub All-mono {κ μ} :
      (P : A → Type κ) (Q : A → Type μ) (xs : List A) → ((x : A) → P x → Q x) → All P xs → All Q xs
  All-mono P Q [] f h = tt
  All-mono P Q (x ∷ xs) f h = (f x h.0, All-mono P Q xs f h.1)

  pub All-append {κ} : (P : A → Type κ) (xs ys : List A) → All P xs → All P ys → All P (xs ++ ys)
  All-append P [] ys h k = k
  All-append P (x ∷ xs) ys h k = (h.0, All-append P xs ys h.1 k)

module _ {ℓ} {A : Type ℓ} ⦃e : Eq A⦄ where
  -- Membership, as a lookup in a Go set decides it.
  unfoldable pub has : A → List A → Bool
  has a [] = false
  has a (x ∷ xs) = x == a || has a xs

  pub has-cons : (a x : A) (xs : List A) → has a (x ∷ xs) ≡ (x == a || has a xs)
  unfolding has
  has-cons a x xs = refl

  pub has-nil : (a : A) → has a [] ≡ false
  unfolding has
  has-nil a = refl

  pub has-append : (a : A) (xs ys : List A) → has a (xs ++ ys) ≡ (has a xs || has a ys)
  unfolding has
  has-append a [] ys = refl
  has-append a (x ∷ xs) ys = ground (arith, has-append a xs ys)

  pub eq_self : (a : A) → (a == a) ≡ true
  eq_self a = (e.beq_iff a a).1 refl

  -- A set without one element.
  unfoldable pub remove : A → List A → List A
  remove a [] = []
  remove a (x ∷ xs) = if x == a then remove a xs else x ∷ remove a xs

  pub has-remove : (a b : A) (xs : List A) → has b (remove a xs) ≡ (not (a == b) && has b xs)
  unfolding has remove
  has-remove a b [] = ground arith
  has-remove a b (x ∷ xs) =
      ground (arith, has-remove a b xs, e.beq_iff a b, e.beq_iff x a, e.beq_iff x b)

  pub All-has {κ} : (P : A → Type κ) (xs : List A) → ((a : A) → has a xs ≡ true → P a) → All P xs
  unfolding has
  All-has P [] f = tt
  All-has P (x ∷ xs) f = (f x (ground (arith, eq_self x)), All-has P xs (λ a h. f a (ground arith)))

  pub has-All {κ} : (P : A → Type κ) (a : A) (xs : List A) → All P xs → has a xs ≡ true → P a
  unfolding has
  has-All P a [] h m = absurd (cc)
  has-All P a (x ∷ xs) h m = elim (Bool-cases (x == a)) [
    | inl q ↦ go ((e.beq_iff x a).0 q)
    | inr q ↦ has-All P a xs h.1 (ground arith)
  ]
    where
      go : x ≡ a → P a
      go q = rw q at (h.0)
