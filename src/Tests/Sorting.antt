-- ===== src/Tests/Sorting.antt =====
-- A sorting function for stores, as the theorems on the cycle model ask for one.
use open_gpu.Prelude.{
  ◌≡◌, refl, ◌∙◌, true, false, List, [], ◌∷◌, arith, Bool-cases, inl, inr, if◌then◌else◌, All,
}
use open_gpu.Cycle.State.{Store}
use open_gpu.Cycle.Transfer.{store_less}
use open_gpu.Cycle.Step.Ascending.{occurrences, SameStores, IsAscending, IsSort}

abbrev insert : Store → List Store → List Store
insert s [] = s ∷ []
insert s (t ∷ ts) = if store_less t s then t ∷ insert s ts else s ∷ t ∷ ts

abbrev pub insertion_sort : List Store → List Store
insertion_sort [] = []
insertion_sort (s ∷ ss) = insert s (insertion_sort ss)

occurrences-insert :
    (u s : Store) (ts : List Store) → occurrences u (insert s ts) ≡ occurrences u (s ∷ ts)
occurrences-insert u s [] = refl
occurrences-insert u s (t ∷ ts) = elim (Bool-cases (store_less t s)) [
  | inl below ↦ rw below (omega (arith, occurrences-insert u s ts))
  | inr here ↦ rw here refl
]

insertion_sort-SameStores : (ss : List Store) → SameStores (insertion_sort ss) ss
insertion_sort-SameStores [] u = refl
insertion_sort-SameStores (s ∷ ss) u =
    occurrences-insert u s (insertion_sort ss) ∙ omega (arith, insertion_sort-SameStores ss u)

store_less_asym : (s t : Store) → store_less s t ≡ true → store_less t s ≡ false
unfolding store_less
store_less_asym s t h = ground (arith, h)

store_less_trans :
    (s t u : Store) → store_less t s ≡ false → store_less u t ≡ false → store_less u s ≡ false
unfolding store_less
store_less_trans s t u p q = ground (arith, p, q)

All-insert :
    (P : Store → Type 0) (s : Store) (ts : List Store) → P s → All P ts → All P (insert s ts)
All-insert P s [] p h = (p, tt)
All-insert P s (t ∷ ts) p h = elim (Bool-cases (store_less t s)) [
  | inl below ↦ rw below (h.0, All-insert P s ts p h.1)
  | inr here ↦ rw here (p, h)
]

lower_bound :
    (s t : Store) (ts : List Store)
    → store_less t s ≡ false
    → All (λ u. store_less u t ≡ false) ts
    → All (λ u. store_less u s ≡ false) ts
lower_bound s t [] h up = tt
lower_bound s t (u ∷ us) h up = (store_less_trans s t u h up.0, lower_bound s t us h up.1)

insert-IsAscending : (s : Store) (ts : List Store) → IsAscending ts → IsAscending (insert s ts)
insert-IsAscending s [] up = (tt, tt)
insert-IsAscending s (t ∷ ts) up = elim (Bool-cases (store_less t s)) [
  | inl below ↦ rw below (
    All-insert (λ u. store_less u t ≡ false) s ts (store_less_asym t s below) up.0,
    insert-IsAscending s ts up.1,
  )
  | inr here ↦ rw here ((here, lower_bound s t ts here up.0), up)
]

insertion_sort-IsAscending : (ss : List Store) → IsAscending (insertion_sort ss)
insertion_sort-IsAscending [] = tt
insertion_sort-IsAscending (s ∷ ss) =
    insert-IsAscending s (insertion_sort ss) (insertion_sort-IsAscending ss)

pub insertion_sort-IsSort : IsSort insertion_sort
insertion_sort-IsSort = record {
  keeps = insertion_sort-SameStores;
  ascending = insertion_sort-IsAscending;
}
