-- ===== src/Common/Lists.antt =====
-- Arrays and slices as lists, measured and indexed by native numbers.
use Prim.Native.Nat.{ℕ, zero, suc, ◌+◌, ◌-◌, ◌≤◌, ◌<◌, min}
use mathlib.Core.Path.{◌≡◌, refl, ap}
use mathlib.Core.Logic.{◌≢◌, ◌⊎◌, inl, inr}
use mathlib.Core.Bool.{Bool, false, ◌||◌}
use mathlib.Core.List.{List, [], ◌∷◌, ◌++◌}
use mathlib.Core.Option.{Option, none, some, some-injective}
use native.Mathlib.Omega.{arith}
use native.Mathlib.Numerals.{unary_clauses}

module _ {ℓ} {A : Type ℓ} where
  abbrev pub length : List A → ℕ
  length [] = 0
  length (x ∷ xs) = suc (length xs)

  abbrev pub get_elem? : List A → ℕ → Option A
  get_elem? [] i = none
  get_elem? (x ∷ xs) zero = some x
  get_elem? (x ∷ xs) (suc i) = get_elem? xs i

  abbrev pub get_or : List A → ℕ → A → A
  get_or [] i d = d
  get_or (x ∷ xs) zero d = x
  get_or (x ∷ xs) (suc i) d = get_or xs i d

  -- A write out of bounds changes nothing.
  abbrev pub set : List A → ℕ → A → List A
  set [] i v = []
  set (x ∷ xs) zero v = v ∷ xs
  set (x ∷ xs) (suc i) v = x ∷ set xs i v

  abbrev pub take : ℕ → List A → List A
  take zero xs = []
  take (suc n) [] = []
  take (suc n) (x ∷ xs) = x ∷ take n xs

  abbrev pub drop : ℕ → List A → List A
  drop zero xs = xs
  drop (suc n) [] = []
  drop (suc n) (x ∷ xs) = drop n xs

  abbrev pub replicate : ℕ → A → List A
  replicate zero a = []
  replicate (suc n) a = a ∷ replicate n a

  -- A predicate of every element.
  abbrev pub All {κ} : (A → Type κ) → List A → Type κ
  All P [] = Unit
  All P (x ∷ xs) = P x × All P xs

  abbrev pub any : (A → Bool) → List A → Bool
  any p [] = false
  any p (x ∷ xs) = p x || any p xs

module _ {ℓ} {A : Type ℓ} where
  pub length-append : (xs ys : List A) → length (xs ++ ys) ≡ length xs + length ys
  length-append [] ys = omega arith
  length-append (x ∷ xs) ys = omega (arith, length-append xs ys)

  pub length-set : (xs : List A) (i : ℕ) (v : A) → length (set xs i v) ≡ length xs
  length-set [] i v = refl
  length-set (x ∷ xs) zero v = refl
  length-set (x ∷ xs) (suc i) v = ap suc (length-set xs i v)

  pub length-take : (n : ℕ) (xs : List A) → length (take n xs) ≡ min n (length xs)
  length-take zero xs = omega arith
  length-take (suc n) [] = omega arith
  length-take (suc n) (x ∷ xs) = omega (arith, length-take n xs)

  pub length-replicate : (n : ℕ) (a : A) → length (replicate n a) ≡ n
  length-replicate zero a = refl
  length-replicate (suc n) a = ap suc (length-replicate n a)

  pub get_or-set_self :
      (xs : List A) (i : ℕ) (v d : A) → i < length xs → get_or (set xs i v) i d ≡ v
  get_or-set_self [] i v d h = absurd (omega arith)
  get_or-set_self (x ∷ xs) zero v d h = refl
  get_or-set_self (x ∷ xs) (suc i) v d h = get_or-set_self xs i v d (omega arith)

  pub get_or-set_ne :
      (xs : List A) {i j : ℕ} (v d : A) → i ≢ j → get_or (set xs i v) j d ≡ get_or xs j d
  get_or-set_ne [] v d h = refl
  get_or-set_ne (x ∷ xs) {i = zero} {j = zero} v d h = absurd (h refl)
  get_or-set_ne (x ∷ xs) {i = zero} {j = suc j} v d h = refl
  get_or-set_ne (x ∷ xs) {i = suc i} {j = zero} v d h = refl
  get_or-set_ne (x ∷ xs) {i = suc i} {j = suc j} v d h = get_or-set_ne xs v d (λ e. h (ap suc e))

module _ {ℓ κ} {A : Type ℓ} (P : A → Type κ) where
  pub All-append : (xs ys : List A) → All P xs → All P ys → All P (xs ++ ys)
  All-append [] ys h k = k
  All-append (x ∷ xs) ys h k = (h.0, All-append xs ys h.1 k)

module _ {ℓ} {A : Type ℓ} where
  pub drop-get_elem? :
      (n : ℕ) (xs : List A) (x : A) → get_elem? xs n ≡ some x → drop n xs ≡ x ∷ drop (suc n) xs
  drop-get_elem? zero [] x e = cc
  drop-get_elem? zero (y ∷ xs) x e = ap (λ t. t ∷ xs) (some-injective y x e)
  drop-get_elem? (suc n) [] x e = cc
  drop-get_elem? (suc n) (y ∷ xs) x e = drop-get_elem? n xs x e

  pub drop-set :
      (n : ℕ) (xs : List A) (x v : A)
      → get_elem? xs n ≡ some x
      → drop n (set xs n v) ≡ v ∷ drop (suc n) xs
  drop-set zero [] x v e = cc
  drop-set zero (y ∷ xs) x v e = refl
  drop-set (suc n) [] x v e = cc
  drop-set (suc n) (y ∷ xs) x v e = drop-set n xs x v e

  pub get_elem?-none_le : (n : ℕ) (xs : List A) → get_elem? xs n ≡ none → length xs ≤ n
  get_elem?-none_le n [] e = omega arith
  get_elem?-none_le zero (y ∷ xs) e = cc
  get_elem?-none_le (suc n) (y ∷ xs) e = omega (arith, get_elem?-none_le n xs e)

  pub get_elem?-none : (n : ℕ) (xs : List A) → length xs ≤ n → get_elem? xs n ≡ none
  get_elem?-none n [] h = refl
  get_elem?-none zero (y ∷ xs) h = absurd (omega arith)
  get_elem?-none (suc n) (y ∷ xs) h = get_elem?-none n xs (omega arith)

  pub drop-all : (n : ℕ) (xs : List A) → length xs ≤ n → drop n xs ≡ []
  drop-all zero [] h = refl
  drop-all (suc n) [] h = refl
  drop-all zero (y ∷ xs) h = absurd (omega arith)
  drop-all (suc n) (y ∷ xs) h = drop-all n xs (omega arith)

  pub drop-set_before : (n : ℕ) (xs : List A) (v : A) → drop (suc n) (set xs n v) ≡ drop (suc n) xs
  drop-set_before n [] v = refl
  drop-set_before zero (y ∷ xs) v = refl
  drop-set_before (suc n) (y ∷ xs) v = drop-set_before n xs v

  pub set-out_of_range : (xs : List A) (i : ℕ) (v : A) → length xs ≤ i → set xs i v ≡ xs
  set-out_of_range [] i v h = refl
  set-out_of_range (y ∷ xs) zero v h = absurd (omega arith)
  set-out_of_range (y ∷ xs) (suc i) v h = ap (λ t. y ∷ t) (set-out_of_range xs i v (omega arith))

  pub take-take : (m n : ℕ) (xs : List A) → take (min m n) xs ≡ take n (take m xs)
  take-take zero zero xs = refl
  take-take zero (suc n) xs = simp unary_clauses
  take-take (suc m) zero xs = simp unary_clauses
  take-take (suc m) (suc n) [] = simp unary_clauses
  take-take (suc m) (suc n) (y ∷ xs) = simp unary_clauses (ap (λ t. y ∷ t) (take-take m n xs))

  pub take-append-take :
      (n : ℕ) (xs ys : List A)
      → take (min (length xs) n) (take (min (length xs) n) xs ++ ys) ≡ take n xs
  take-append-take zero [] ys = refl
  take-append-take (suc n) [] ys = simp unary_clauses
  take-append-take zero (y ∷ xs) ys = simp unary_clauses
  take-append-take (suc n) (y ∷ xs) ys =
      simp unary_clauses (ap (λ t. y ∷ t) (take-append-take n xs ys))

  pub length-drop : (n : ℕ) (xs : List A) → length (drop n xs) ≡ length xs - n
  length-drop zero xs = omega arith
  length-drop (suc n) [] = omega arith
  length-drop (suc n) (y ∷ xs) = omega (arith, length-drop n xs)

  pub get_or-set_cases :
      (xs : List A) (i j : ℕ) (v d : A)
      → (get_or (set xs i v) j d ≡ v) ⊎ (get_or (set xs i v) j d ≡ get_or xs j d)
  get_or-set_cases [] i j v d = inr refl
  get_or-set_cases (y ∷ xs) zero zero v d = inl refl
  get_or-set_cases (y ∷ xs) zero (suc j) v d = inr refl
  get_or-set_cases (y ∷ xs) (suc i) zero v d = inr refl
  get_or-set_cases (y ∷ xs) (suc i) (suc j) v d = get_or-set_cases xs i j v d
