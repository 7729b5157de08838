-- ===== src/Minecraft/Java/Choice.antt =====
-- Which runtime ResolveJava of backend/minecraft/java.go chooses.
use realmrunner.Common.{
  ℕ, ◌≤◌, ◌<◌, ◌≡◌, ◌≢◌, ◌⊎◌, inl, inr, refl, String, true, false, Option, none, some, List, [],
  ◌∷◌, All, arith,
}
use realmrunner.Common.{Option-cases}
use native.Mathlib.Nat.{le_refl}
use realmrunner.Minecraft.Java.{
  Runtimes, Resolved, path_of, path_or_empty, insert_sorted, sort_ints, majors_of, first_at_least,
  last_of, resolve_java, newer, exact,
}
use realmrunner.Minecraft.Java.Sorted.{
  All-sort_ints, All-of-sort_ints, All-weaken, All-always, sort_ints-IsSorted, first_at_least-some,
  first_at_least-none, first_at_least-ne, last_of-top, last_of-ne, path_of-none,
}

-- The least installed major that is at least what is required.
pub record IsLeast (rs : Runtimes) (required : ℕ) (r : Resolved) : Type 0 where
  pub installed : path_of r.major rs ≡ some r.path
  pub enough : required ≤ r.major
  pub least : All (λ k. (k < required) ⊎ (r.major ≤ k)) (majors_of rs)

-- The greatest installed major, where none is enough.
pub record IsNewestTooOld (rs : Runtimes) (required : ℕ) (r : Resolved) : Type 0 where
  pub installed : path_of r.major rs ≡ some r.path
  pub too_old : All (λ k. k < required) (majors_of rs)
  pub newest : All (λ k. k ≤ r.major) (majors_of rs)

-- A runtime that ResolveJava would find is in the map, under the path that it returns.
installed_path :
    (rs : Runtimes) (m : ℕ)
    → ¬ (path_of m rs ≡ none)
    → path_of m rs ≡ some (path_or_empty (path_of m rs))
installed_path rs m h = elim (Option-cases (path_of m rs)) [
  | inl e ↦ absurd (h e)
  | inr (p, e) ↦ rw e
]

first_at_least_choice :
    (rs : Runtimes) (required m : ℕ)
    → first_at_least required (sort_ints (majors_of rs)) ≡ some m
    → IsLeast rs required (newer rs (sort_ints (majors_of rs)) (some m))
first_at_least_choice rs required m e =
    let majors = majors_of rs in
    let (enough, least) =
      first_at_least-some required m (sort_ints majors) (sort_ints-IsSorted majors) e in
    record {
      installed = installed_path rs m (λ no.
          first_at_least-ne required m (sort_ints majors)
            (All-sort_ints (λ k. k ≢ m) majors (path_of-none rs m no)) e);
      enough = enough;
      least =
          All-weaken majors (λ k h. split k h)
            (All-of-sort_ints (λ k. required ≤ k → m ≤ k) majors least);
    }
  where
    split : (k : ℕ) → (required ≤ k → m ≤ k) → (k < required) ⊎ (m ≤ k)
    split k h = omega arith

fall_back_choice :
    (rs : Runtimes) (required x : ℕ) (xs : List ℕ)
    → sort_ints (majors_of rs) ≡ x ∷ xs
    → first_at_least required (sort_ints (majors_of rs)) ≡ none
    → IsNewestTooOld rs required (newer rs (x ∷ xs) none)
fall_back_choice rs required x xs s e =
    let majors = majors_of rs in
    record {
      installed = installed_path rs (last_of x xs) (λ no.
          last_of-ne (last_of x xs) x xs
            (rw s at
              (All-sort_ints (λ k. k ≢ last_of x xs) majors (path_of-none rs (last_of x xs) no)))
            refl);
      too_old =
          All-of-sort_ints (λ k. k < required) majors
            (first_at_least-none required (sort_ints majors) e);
      newest =
          All-of-sort_ints (λ k. k ≤ last_of x xs) majors
            (rw s (last_of-top x xs (rw s at (sort_ints-IsSorted majors))));
    }

insert_sorted-ne-nil : (m : ℕ) (xs : List ℕ) → insert_sorted m xs ≢ []
unfolding insert_sorted
insert_sorted-ne-nil m [] e = ground arith
insert_sorted-ne-nil m (x ∷ xs) e = ground arith

sort_ints-ne-nil : (rs : Runtimes) → rs ≢ [] → sort_ints (majors_of rs) ≢ []
unfolding sort_ints
sort_ints-ne-nil [] h e = h refl
sort_ints-ne-nil ((k, p) ∷ rs) h e = insert_sorted-ne-nil k (sort_ints (majors_of rs)) e

-- The three ways in which a choice among installed runtimes ends.
data Choice (rs : Runtimes) (required : ℕ) : Resolved → Type 0 where
  least : (r : Resolved) → r.satisfied ≡ true → IsLeast rs required r → Choice rs required r
  too_old :
      (r : Resolved) → r.satisfied ≡ false → IsNewestTooOld rs required r → Choice rs required r

newer-Choice :
    (rs : Runtimes) (required : ℕ) (majors : List ℕ) (found : Option ℕ)
    → rs ≢ []
    → sort_ints (majors_of rs) ≡ majors
    → first_at_least required (sort_ints (majors_of rs)) ≡ found
    → Choice rs required (newer rs majors found)
newer-Choice rs required majors (some m) h s e =
    least _ refl (first_at_least_choice rs required m e)
newer-Choice rs required [] none h s e = absurd (sort_ints-ne-nil rs h s)
newer-Choice rs required (x ∷ xs) none h s e =
    too_old _ refl (fall_back_choice rs required x xs s e)

exact-Choice :
    (rs : Runtimes) (required : ℕ) (found : Option String)
    → rs ≢ []
    → path_of required rs ≡ found
    → Choice rs required (exact required rs found)
exact-Choice rs required (some p) h e = least _ refl (record {
  installed = e;
  enough = le_refl required;
  least = All-always (majors_of rs) (λ k. omega arith);
})
exact-Choice rs required none h e =
    newer-Choice rs required (sort_ints (majors_of rs))
      (first_at_least required (sort_ints (majors_of rs))) h refl refl

resolve_java-Choice :
    (rs : Runtimes) (required : ℕ) → rs ≢ [] → Choice rs required (resolve_java "" rs required)
unfolding resolve_java
resolve_java-Choice rs required h = exact-Choice rs required (path_of required rs) h refl

-- With no override and some runtime installed, a satisfied ResolveJava returns the least installed
-- major that is at least the required one, with its path.
pub resolve_java_satisfied :
    (rs : Runtimes) (required : ℕ)
    → rs ≢ []
    → (resolve_java "" rs required).satisfied ≡ true
    → IsLeast rs required (resolve_java "" rs required)
resolve_java_satisfied rs required h e = go (resolve_java-Choice rs required h) e
  where
    go : {r : Resolved} → Choice rs required r → r.satisfied ≡ true → IsLeast rs required r
    go (least r t c) e = c
    go (too_old r t c) e = cc

-- With no override and some runtime installed, an unsatisfied ResolveJava means that every installed
-- major is below the required one, and it returns the greatest with its path.
pub resolve_java_too_old :
    (rs : Runtimes) (required : ℕ)
    → rs ≢ []
    → (resolve_java "" rs required).satisfied ≡ false
    → IsNewestTooOld rs required (resolve_java "" rs required)
resolve_java_too_old rs required h e = go (resolve_java-Choice rs required h) e
  where
    go : {r : Resolved} → Choice rs required r → r.satisfied ≡ false → IsNewestTooOld rs required r
    go (least r t c) e = cc
    go (too_old r t c) e = c
