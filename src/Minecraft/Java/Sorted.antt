-- ===== src/Minecraft/Java/Sorted.antt =====
-- The sorted majors of backend/minecraft/java.go and the searches in them.
use realmrunner.Common.{ℕ, ◌≤◌, ◌<◌, ◌≡◌, ◌≢◌, inl, inr, sym, none, some, List, [], ◌∷◌, All, arith}
use realmrunner.Common.{leb, ◌==◌, Bool-cases}
use native.Mathlib.Nat.{le_refl, le_trans}
use realmrunner.Minecraft.Java.{
  Runtimes, path_of, insert_sorted, sort_ints, majors_of, first_at_least, last_of,
}

abbrev pub IsSorted : List ℕ → Type 0
IsSorted [] = Unit
IsSorted (x ∷ xs) = All (λ y. x ≤ y) xs × IsSorted xs

module _ (P : ℕ → Type 0) where
  All-insert_sorted : (m : ℕ) (xs : List ℕ) → P m → All P xs → All P (insert_sorted m xs)
  unfolding insert_sorted
  All-insert_sorted m [] p h = (p, tt)
  All-insert_sorted m (x ∷ xs) p (hx, hs) = elim (Bool-cases (leb m x)) [
    | inl e ↦ rw e (p, (hx, hs))
    | inr e ↦ rw e (hx, All-insert_sorted m xs p hs)
  ]

  pub All-sort_ints : (xs : List ℕ) → All P xs → All P (sort_ints xs)
  unfolding sort_ints
  All-sort_ints [] h = tt
  All-sort_ints (x ∷ xs) (p, ps) = All-insert_sorted x (sort_ints xs) p (All-sort_ints xs ps)

  All-of-insert_sorted : (m : ℕ) (xs : List ℕ) → All P (insert_sorted m xs) → P m × All P xs
  unfolding insert_sorted
  All-of-insert_sorted m [] h = h
  All-of-insert_sorted m (x ∷ xs) h = elim (Bool-cases (leb m x)) [
    | inl e ↦ rw e at h
    | inr e ↦
        let h' : P x × All P (insert_sorted m xs) = rw e at h in
        let (p, ps) = All-of-insert_sorted m xs h'.1 in (p, (h'.0, ps))
  ]

  pub All-of-sort_ints : (xs : List ℕ) → All P (sort_ints xs) → All P xs
  unfolding sort_ints
  All-of-sort_ints [] h = tt
  All-of-sort_ints (x ∷ xs) h =
      let (p, ps) = All-of-insert_sorted x (sort_ints xs) h in (p, All-of-sort_ints xs ps)

pub All-weaken : {P Q : ℕ → Type 0} (xs : List ℕ) → ((x : ℕ) → P x → Q x) → All P xs → All Q xs
All-weaken [] f h = tt
All-weaken (x ∷ xs) f (p, ps) = (f x p, All-weaken xs f ps)

pub insert_sorted-IsSorted : (m : ℕ) (xs : List ℕ) → IsSorted xs → IsSorted (insert_sorted m xs)
unfolding insert_sorted
insert_sorted-IsSorted m [] h = (tt, tt)
insert_sorted-IsSorted m (x ∷ xs) (lo, h) = elim (Bool-cases (leb m x)) [
  | inl e ↦
      let m≤x : m ≤ x = ground arith in
      rw e ((m≤x, All-weaken xs (λ y k. le_trans m≤x k) lo), (lo, h))
  | inr e ↦
      rw e (All-insert_sorted (λ y. x ≤ y) m xs (ground arith) lo, insert_sorted-IsSorted m xs h)
]

pub sort_ints-IsSorted : (xs : List ℕ) → IsSorted (sort_ints xs)
unfolding sort_ints
sort_ints-IsSorted [] = tt
sort_ints-IsSorted (x ∷ xs) = insert_sorted-IsSorted x (sort_ints xs) (sort_ints-IsSorted xs)

-- On a sorted list the loop finds the least sufficient major, or there is none.
pub first_at_least-some :
    (required m : ℕ) (ms : List ℕ)
    → IsSorted ms
    → first_at_least required ms ≡ some m
    → (required ≤ m) × All (λ k. required ≤ k → m ≤ k) ms
unfolding first_at_least
first_at_least-some required m [] s e = cc
first_at_least-some required m (x ∷ xs) (lo, s) e = elim (Bool-cases (leb required x)) [
  | inl t ↦
      let x≡m : x ≡ m = ground arith in
      (ground arith, (ground arith, All-weaken xs (λ y k r. omega (arith, sym x≡m)) lo))
  | inr t ↦
      let (a, b) = first_at_least-some required m xs s (ground arith) in (a, (ground arith, b))
]

pub first_at_least-none :
    (required : ℕ) (ms : List ℕ) → first_at_least required ms ≡ none → All (λ k. k < required) ms
unfolding first_at_least
first_at_least-none required [] e = tt
first_at_least-none required (x ∷ xs) e = elim (Bool-cases (leb required x)) [
  | inl t ↦ ground arith
  | inr t ↦ (ground arith, first_at_least-none required xs (ground arith))
]

pub last_of-top : (m : ℕ) (ms : List ℕ) → IsSorted (m ∷ ms) → All (λ k. k ≤ last_of m ms) (m ∷ ms)
last_of-top m [] s = (le_refl m, tt)
last_of-top m (x ∷ xs) ((a, lo), s) =
    let (b, rest) = last_of-top x xs s in (le_trans a b, (b, rest))

pub path_of-none : (rs : Runtimes) (m : ℕ) → path_of m rs ≡ none → All (λ k. k ≢ m) (majors_of rs)
unfolding path_of
path_of-none [] m e = tt
path_of-none ((k, p) ∷ rs) m e = elim (Bool-cases (k == m)) [
  | inl t ↦ ground arith
  | inr t ↦ (ground arith, path_of-none rs m (ground arith))
]

pub first_at_least-ne :
    (required m : ℕ) (ms : List ℕ) → All (λ k. k ≢ m) ms → first_at_least required ms ≢ some m
unfolding first_at_least
first_at_least-ne required m [] h e = cc
first_at_least-ne required m (x ∷ xs) (ne, h) e = ground (arith, first_at_least-ne required m xs h)

pub last_of-ne : (t m : ℕ) (ms : List ℕ) → All (λ k. k ≢ t) (m ∷ ms) → last_of m ms ≢ t
last_of-ne t m [] (ne, h) e = ne e
last_of-ne t m (x ∷ xs) (ne, h) e = last_of-ne t x xs h e

pub All-always : {P : ℕ → Type 0} (xs : List ℕ) → ((x : ℕ) → P x) → All P xs
All-always [] f = tt
All-always (x ∷ xs) f = (f x, All-always xs f)
