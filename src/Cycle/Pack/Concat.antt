-- ===== src/Cycle/Pack/Concat.antt =====
-- Words put one after the other: where each block of them stands.
use open_gpu.Prelude.{
  ℕ, zero, suc, ◌+◌, ◌*◌, ◌<◌, ◌≡◌, refl, ap, ◌∙◌, List, [], ◌∷◌, ◌++◌, length, get_elem?, arith,
}
use open_gpu.Cycle.Pack.{gather}

module _ {ℓ} {A : Type ℓ} where
  pub length-append : (xs ys : List A) → length (xs ++ ys) ≡ length xs + length ys
  length-append [] ys = omega arith
  length-append (x ∷ xs) ys = omega (arith, length-append xs ys)

  -- What stands in the first part, and in the second.
  get_elem?-append_left :
      (xs ys : List A) (i : ℕ) → i < length xs → get_elem? (xs ++ ys) i ≡ get_elem? xs i
  get_elem?-append_left [] ys i h = absurd (omega arith)
  get_elem?-append_left (x ∷ xs) ys zero h = refl
  get_elem?-append_left (x ∷ xs) ys (suc i) h = get_elem?-append_left xs ys i (omega arith)

  pub get_elem?-append_right :
      (xs ys : List A) (n i : ℕ) → length xs ≡ n → get_elem? (xs ++ ys) (n + i) ≡ get_elem? ys i
  get_elem?-append_right [] ys n i e = let at : n + i ≡ i = omega (arith, e) in ap (get_elem? ys) at
  get_elem?-append_right (x ∷ xs) ys zero i e = absurd (omega (arith, e))
  get_elem?-append_right (x ∷ xs) ys (suc n) i e =
      let next : suc n + i ≡ suc (n + i) = omega arith in
      ap (get_elem? (x ∷ xs ++ ys)) next ∙ get_elem?-append_right xs ys n i (omega (arith, e))

module _ (f : ℕ → List ℕ) (n : ℕ) (each : (i : ℕ) → length (f i) ≡ n) where
  pub length-gather : (left i : ℕ) → length (gather f left i) ≡ left * n
  unfolding gather
  length-gather zero i = omega arith
  length-gather (suc left) i =
      length-append (f i) (gather f left (i + 1))
      ∙ omega (arith, each i, length-gather left (i + 1))

  -- Item `j` of block `k`.
  get_elem?-gather :
      (left i k j : ℕ)
      → k < left
      → j < n
      → get_elem? (gather f left i) (k * n + j) ≡ get_elem? (f (i + k)) j
  unfolding gather
  get_elem?-gather zero i k j hk hj = absurd (omega arith)
  get_elem?-gather (suc left) i zero j hk hj =
      let at : 0 * n + j ≡ j = omega arith in
      let block : i ≡ i + 0 = omega arith in
      ap (get_elem? (f i ++ gather f left (i + 1))) at
      ∙ get_elem?-append_left (f i) (gather f left (i + 1)) j (omega (arith, each i))
      ∙ ap (λ (t : ℕ). get_elem? (f t) j) block
  get_elem?-gather (suc left) i (suc k) j hk hj =
      let at : suc k * n + j ≡ n + (k * n + j) = omega arith in
      let block : i + 1 + k ≡ i + suc k = omega arith in
      ap (get_elem? (f i ++ gather f left (i + 1))) at
      ∙ get_elem?-append_right (f i) (gather f left (i + 1)) n (k * n + j) (each i)
      ∙ get_elem?-gather left (i + 1) k j (omega arith) hj
      ∙ ap (λ (t : ℕ). get_elem? (f t) j) block

  pub get_elem?-gather_start :
      (left k j : ℕ)
      → k < left
      → j < n
      → get_elem? (gather f left 0) (k * n + j) ≡ get_elem? (f k) j
  get_elem?-gather_start left k j hk hj =
      let block : 0 + k ≡ k = omega arith in
      get_elem?-gather left 0 k j hk hj ∙ ap (λ (t : ℕ). get_elem? (f t) j) block
