-- ===== src/Session/Benchmark/Library.antt =====
-- What examples/benchmark.rs calls of the standard library, as a parameter `Std`, and what the
-- documentation promises of it, `IsStd`. A duration is a number of nanoseconds.
use bxp_core.Base.{ℕ, zero, suc, ◌≤◌, ◌≡◌, some, List, [], ◌∷◌, length, get_elem?, arith}

pub record Std : Type 1 where
  pub Clock : Type 0
  -- `Instant::now`
  pub now : Clock → ℕ × Clock
  -- `Vec::sort`, on durations.
  pub sort : List ℕ → List ℕ

abbrev pub IsSorted : List ℕ → Type 0
IsSorted [] = Unit
IsSorted (x ∷ []) = Unit
IsSorted (x ∷ (y ∷ xs)) = (x ≤ y) × IsSorted (y ∷ xs)

pub record IsStd (std : Std) : Type 0 where
  pub length-sort : (xs : List ℕ) → length (std.sort xs) ≡ length xs
  pub sort-IsSorted : (xs : List ℕ) → IsSorted (std.sort xs)

head_least :
    (x : ℕ) (xs : List ℕ) (i : ℕ) {a : ℕ} → IsSorted (x ∷ xs) → get_elem? xs i ≡ some a → x ≤ a
head_least x [] i h e = cc e
head_least x (y ∷ xs) zero {a} (first, h) e = let same : y ≡ a = cc e in rw (← same) first
head_least x (y ∷ xs) (suc i) (first, h) e = omega (arith, first, head_least y xs i h e)

tail-IsSorted : (x : ℕ) (xs : List ℕ) → IsSorted (x ∷ xs) → IsSorted xs
tail-IsSorted x [] h = tt
tail-IsSorted x (y ∷ xs) h = h.1

-- Of a sorted list, a later element is not smaller.
pub get_elem?_monotone :
    (xs : List ℕ) (i j : ℕ) {a b : ℕ}
    → IsSorted xs
    → get_elem? xs i ≡ some a
    → get_elem? xs j ≡ some b
    → i ≤ j
    → a ≤ b
get_elem?_monotone [] i j h e f less = cc e
get_elem?_monotone (x ∷ xs) zero zero {a} {b} h e f less =
    let same : a ≡ b = cc (e, f) in omega (arith, same)
get_elem?_monotone (x ∷ xs) zero (suc j) {a} h e f less =
    let same : x ≡ a = cc e in rw (← same) (head_least x xs j h f)
get_elem?_monotone (x ∷ xs) (suc i) zero h e f less = absurd (omega (arith, less))
get_elem?_monotone (x ∷ xs) (suc i) (suc j) h e f less =
    get_elem?_monotone xs i j (tail-IsSorted x xs h) e f (omega (arith, less))
