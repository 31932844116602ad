-- ===== src/Cycle/Step/Dirty.antt =====
-- The comparison of the memories after a cycle: of all bytes, and of the bytes written.
use open_gpu.Prelude.{
  ℕ, zero, suc, ◌+◌, ◌≤◌, ◌<◌, ◌≡◌, ◌↔◌, refl, sym, ◌∙◌, inl, inr, true, false, some, List, [], ◌∷◌,
  ◌==◌, arith, Bool-cases,
}
use open_gpu.Prelude.Chain.{After-some}
use open_gpu.Config.{Config}
use open_gpu.Memory.{Bytes}
use open_gpu.Cycle.State.{CycleModel, Store}
use open_gpu.Cycle.Step.{diff_cycle, diff_step, same_bytes, same_at, check_memory}
use open_gpu.Cycle.Step.Writes.{occurs, IsTidy, Writes, diff_cycle-Writes}

pub same_at_iff :
    (a b : Bytes) (is : List ℕ)
    → (same_at a b is ≡ true) ↔ ((i : ℕ) → occurs i is ≡ true → a i ≡ b i)
unfolding same_at
same_at_iff a b [] = (λ e i hit. cc, λ h. refl)
same_at_iff a b (j ∷ js) = (
  λ e i hit. elim (Bool-cases (i == j)) [
    | inl here ↦ let at : i ≡ j = ground (arith, here) in rw at (ground (arith, e))
    | inr away ↦ (same_at_iff a b js).0 (ground (arith, e)) i (ground (arith, away, hit))
  ],
  λ h.
      let head = h j (ground arith) in
      let tail = (same_at_iff a b js).1 (λ i hit. h i (ground (arith, hit))) in
      ground (arith, head, tail),
)

pub same_bytes_iff :
    (a b : Bytes) (left i : ℕ)
    → (same_bytes a b left i ≡ true) ↔ ((j : ℕ) → i ≤ j → j < i + left → a j ≡ b j)
unfolding same_bytes
same_bytes_iff a b zero i = (λ e j low high. absurd (omega arith), λ h. refl)
same_bytes_iff a b (suc left) i = (
  λ e j low high. elim (Bool-cases (j == i)) [
    | inl here ↦ let at : j ≡ i = ground (arith, here) in rw at (ground (arith, e))
    | inr away ↦
        (same_bytes_iff a b left (i + 1)).0 (ground (arith, e)) j (ground (arith, away, low))
          (omega arith)
  ],
  λ h.
      let head = h i (omega arith) (omega arith) in
      let tail =
        (same_bytes_iff a b left (i + 1)).1 (λ j low high. h j (omega arith) (omega arith)) in
      ground (arith, head, tail),
)

pub check_dirty :
    (tidy : List ℕ → List ℕ) (m : CycleModel) (a : Bytes) (z : ℕ)
    → m.active ≡ true
    → m.mem_size ≡ z
    → (check_memory tidy a z false m).1 ≡ same_at a m.mem (tidy m.dirty)
unfolding check_memory
check_dirty tidy m a z active size =
    let known : (z == m.mem_size) ≡ true = ground (arith, size) in
    elim (Bool-cases (same_at a m.mem (tidy m.dirty))) [
      | inl same ↦ rw (active, known, same) refl
      | inr differ ↦ rw (active, known, differ) refl
    ]

pub check_whole :
    (tidy : List ℕ → List ℕ) (m : CycleModel) (a : Bytes) (z : ℕ)
    → m.active ≡ true
    → m.mem_size ≡ z
    → (check_memory tidy a z true m).1 ≡ same_bytes a m.mem z 0
unfolding check_memory
check_whole tidy m a z active size =
    let known : (z == m.mem_size) ≡ true = ground (arith, size) in
    elim (Bool-cases (same_bytes a m.mem z 0)) [
      | inl same ↦ rw (active, known, same) refl
      | inr differ ↦ rw (active, known, differ) refl
    ]

-- A cycle without reset, on a model in lockstep with a memory `a`, and the memory `a'` after it,
-- which differs from `a` only at bytes that the model has written: the check of the written bytes
-- passes exactly if the check of the whole memory does.
pub check_memory_dirty :
    (sort : List Store → List Store) (tidy : List ℕ → List ℕ) (c : Config) (m m' : CycleModel)
    (a a' : Bytes)
    → IsTidy tidy
    → m.active ≡ true
    → m.reset ≡ false
    → diff_step sort c m ≡ some m'
    → ((i : ℕ) → i < m.mem_size → a i ≡ m.mem i)
    → ((i : ℕ) → occurs i m'.dirty ≡ false → a' i ≡ a i)
    → ((check_memory tidy a' m.mem_size false m').1 ≡ true)
      ↔ ((check_memory tidy a' m.mem_size true m').1 ≡ true)
unfolding diff_step check_memory
check_memory_dirty sort tidy c m m' a a' tidies active runs e before only =
    let step : diff_cycle sort c m ≡ some m' = ground (arith, runs, e) in
    let w =
      After-some (Writes (record m { dirty = [] })) (diff_cycle sort c m) m'
        (diff_cycle-Writes sort c m) step in
    let active' : m'.active ≡ true = w.active ∙ active in
    let partial = check_dirty tidy m' a' m.mem_size active' w.size in
    let total = check_whole tidy m' a' m.mem_size active' w.size in
    (
      λ ok.
          let at_dirty = (same_at_iff a' m'.mem (tidy m'.dirty)).0 (sym partial ∙ ok) in
          total
          ∙ (same_bytes_iff a' m'.mem m.mem_size 0).1 (λ i low high.
              elim (Bool-cases (occurs i m'.dirty)) [
                | inl hit ↦ at_dirty i (tidies.keeps m'.dirty i ∙ hit)
                | inr clean ↦ only i clean ∙ before i (omega arith) ∙ sym (w.frame i clean).1
              ]),
      λ ok.
          let everywhere = (same_bytes_iff a' m'.mem m.mem_size 0).0 (sym total ∙ ok) in
          partial
          ∙ (same_at_iff a' m'.mem (tidy m'.dirty)).1 (λ i hit.
              let near =
                w.inside (λ j none_hit. absurd (cc)) i (sym (tidies.keeps m'.dirty i) ∙ hit) in
              everywhere i (omega arith) (omega (arith, near, w.size))),
    )
