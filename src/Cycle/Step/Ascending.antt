-- ===== src/Cycle/Step/Ascending.antt =====
-- Ascending lists of stores, and how often a store is in a list.
use open_gpu.Prelude.{
  ℕ, ◌+◌, ◌<◌, ◌≡◌, ◌≢◌, refl, sym, ap, inl, inr, true, false, List, [], ◌∷◌, arith, Bool-cases,
  if◌then◌else◌, All,
}
use open_gpu.Cycle.State.{Store}
use open_gpu.Cycle.Transfer.{store_less, store_equal}
use open_gpu.Cycle.Step.{same_stores}

-- How often a store occurs.
abbrev pub occurrences : Store → List Store → ℕ
occurrences s [] = 0
occurrences s (t ∷ ts) = (if store_equal s t then 1 else 0) + occurrences s ts

-- Every store occurs as often in the one list as in the other.
abbrev pub SameStores : List Store → List Store → Type 0
SameStores ss ts = (s : Store) → occurrences s ss ≡ occurrences s ts

-- Ascending by `operator<`.
abbrev pub IsAscending : List Store → Type 0
IsAscending [] = Unit
IsAscending (s ∷ ss) = All (λ t. store_less t s ≡ false) ss × IsAscending ss

-- What `std::sort` promises.
pub record IsSort (sort : List Store → List Store) : Type 0 where
  pub keeps : (ss : List Store) → SameStores (sort ss) ss
  pub ascending : (ss : List Store) → IsAscending (sort ss)

pub store_equal_sound : (s t : Store) → store_equal s t ≡ true → s ≡ t
unfolding store_equal
store_equal_sound s t e =
    let a : s.addr ≡ t.addr = ground (arith, e) in
    let d : s.data_word ≡ t.data_word = ground (arith, e) in
    let k : s.mask ≡ t.mask = ground (arith, e) in
    λ i. record { addr = a i; data_word = d i; mask = k i }

pub store_equal_refl : (s : Store) → store_equal s s ≡ true
unfolding store_equal
store_equal_refl s = ground arith

-- `operator<` is total up to `operator==`.
store_less_total : (s t : Store) → store_less s t ≡ false → store_less t s ≡ false → s ≡ t
unfolding store_less
store_less_total s t p q =
    let a : s.addr ≡ t.addr = ground (arith, p, q) in
    let k : s.mask ≡ t.mask = ground (arith, p, q, a) in
    let d : s.data_word ≡ t.data_word = ground (arith, p, q, a, k) in
    λ i. record { addr = a i; data_word = d i; mask = k i }

store_less_irrefl : (s : Store) → store_less s s ≡ false
unfolding store_less
store_less_irrefl s = ground arith

none_has_some : (t : Store) (ts : List Store) → 0 ≢ occurrences t (t ∷ ts)
none_has_some t ts e = absurd (ground (arith, store_equal_refl t, e))

own_count : (t : Store) (ts : List Store) → 0 < occurrences t (t ∷ ts)
own_count t ts = ground (arith, store_equal_refl t)

-- What holds of all items holds of a store that occurs.
All-occurrences :
    (P : Store → Type 0) (ss : List Store) (s : Store) → All P ss → 0 < occurrences s ss → P s
All-occurrences P [] s h pos = absurd (omega arith)
All-occurrences P (t ∷ ts) s h pos = elim (Bool-cases (store_equal s t)) [
  | inl here ↦ rw (store_equal_sound s t here) h.0
  | inr away ↦ All-occurrences P ts s h.1 (ground (arith, away, pos))
]

-- The head of an ascending list is not above what occurs in it.
head_least :
    (s t : Store) (ts : List Store)
    → IsAscending (t ∷ ts)
    → 0 < occurrences s (t ∷ ts)
    → store_less s t ≡ false
head_least s t ts up pos = elim (Bool-cases (store_equal s t)) [
  | inl here ↦ rw (store_equal_sound s t here) (store_less_irrefl t)
  | inr away ↦ All-occurrences (λ u. store_less u t ≡ false) ts s up.0 (ground (arith, away, pos))
]

-- Two ascending lists of the same stores are one list, and the comparison finds that.
pub ascending_same :
    (ss ts : List Store)
    → IsAscending ss
    → IsAscending ts
    → SameStores ss ts
    → same_stores ss ts ≡ true
unfolding same_stores
ascending_same [] [] p q h = refl
ascending_same [] (t ∷ ts) p q h = absurd (none_has_some t ts (h t))
ascending_same (s ∷ ss) [] p q h = absurd (none_has_some s ss (sym (h s)))
ascending_same (s ∷ ss) (t ∷ ts) p q h =
    let s_in : 0 < occurrences s (t ∷ ts) = omega (arith, h s, own_count s ss) in
    let t_in : 0 < occurrences t (s ∷ ss) = omega (arith, h t, own_count t ts) in
    let same : s ≡ t = store_less_total s t (head_least s t ts q s_in) (head_least t s ss p t_in) in
    let tails : SameStores ss ts =
      λ u. let here = ap (λ (x : Store). occurrences u (x ∷ ts)) same in omega (arith, h u, here) in
    let rest = ascending_same ss ts p.1 q.1 tails in
    let heads : store_equal s t ≡ true = rw same (store_equal_refl t) in rw (heads, rest) refl

pub same_stores_sound : (ss ts : List Store) → same_stores ss ts ≡ true → ss ≡ ts
unfolding same_stores
same_stores_sound [] [] e = refl
same_stores_sound [] (t ∷ ts) e = cc
same_stores_sound (s ∷ ss) [] e = cc
same_stores_sound (s ∷ ss) (t ∷ ts) e =
    let head : s ≡ t = store_equal_sound s t (ground (arith, e)) in
    let tail : ss ≡ ts = same_stores_sound ss ts (ground (arith, e)) in λ i. head i ∷ tail i
