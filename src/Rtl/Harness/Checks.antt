-- ===== src/Rtl/Harness/Checks.antt =====
-- The checks after the rising edge: what it takes to pass them all.
use open_gpu.Prelude.{
  ℕ, zero, suc, ◌+◌, ◌≤◌, ◌<◌, ◌≡◌, refl, sym, ap, ◌∙◌, inl, inr, Bool, true, false, ◌||◌, none,
  some, List, [], ◌==◌, arith, Bool-cases, Option-cases, if◌then◌else◌, get_or,
}
use mathlib.Core.Path.{fun_ext, subst}
use open_gpu.Prelude.Chain.{After, After-map}
use open_gpu.Config.{Config, IsSupported}
use open_gpu.Memory.{Bytes, guest_to_host, in_pmem}
use open_gpu.Cycle.State.{Store, CycleModel, Array, state_words}
use open_gpu.Cycle.Step.{same_stores, same_at, check_stores, check_memory, apply_stores}
use open_gpu.Cycle.Step.Writes.{occurs, IsTidy}
use open_gpu.Cycle.Step.Dirty.{same_at_iff}
use open_gpu.Rtl.Top.{Top}
use open_gpu.Rtl.Harness.{Bench, same_words, check_pmem, compare_state, compare_written, check_edge}

-- The start of the memory is its first byte.
pub guest_base : (c : Config) → IsSupported c → guest_to_host c c.mbase ≡ some 0
unfolding guest_to_host in_pmem
guest_base c s = ground (arith, s.heap_in, s.end_in, s.kernel_in)

pub same_words_sound :
    (packed : List ℕ) (state : Array) (left word k : ℕ)
    → same_words packed state left word ≡ true
    → word ≤ k
    → k < word + left
    → get_or packed k 0 ≡ state k
unfolding same_words
same_words_sound packed state zero word k e low high = absurd (omega arith)
same_words_sound packed state (suc left) word k e low high = elim (Bool-cases (k == word)) [
  | inl here ↦ let at : k ≡ word = ground (arith, here) in rw at (ground (arith, e))
  | inr away ↦
      same_words_sound packed state left (word + 1) k (ground (arith, e))
        (ground (arith, away, low)) (omega arith)
]

module _ (T : Top) (sort : List Store → List Store) (tidy : List ℕ → List ℕ) (c : Config) where
  -- What passing all the checks says of the state before them, `b`, and leaves of it in `b'`.
  pub record Passes (b b' : Bench T) : Type 0 where
    pub unfailed : b.diff_failed ≡ false
    pub bridge : b.dpi.failed ≡ false
    pub stores : same_stores (sort b.ref.actual) b.ref.expected ≡ true
    pub words : same_words b.ref.packed b.dpi.state (state_words c) 0 ≡ true
    pub bytes :
        (p : Bytes) → b.pmem ≡ some p → (i : ℕ) → occurs i b.ref.dirty ≡ true → p i ≡ b.ref.mem i
    pub same_design : b'.design ≡ b.design
    pub same_pins : b'.pins ≡ b.pins
    pub same_dpi : b'.dpi ≡ b.dpi
    pub same_pmem : b'.pmem ≡ b.pmem
    pub same_packed : b'.ref.packed ≡ b.ref.packed
    pub same_mem : b'.ref.mem ≡ b.ref.mem
    pub same_size : b'.ref.mem_size ≡ b.ref.mem_size
    pub same_active : b'.ref.active ≡ b.ref.active
    pub cleared : b'.ref.actual ≡ []

  -- The comparisons that pass.
  record Same (b : Bench T) : Type 0 where
    unfailed : b.diff_failed ≡ false
    bridge : b.dpi.failed ≡ false
    stores : same_stores (sort b.ref.actual) b.ref.expected ≡ true
    words : same_words b.ref.packed b.dpi.state (state_words c) 0 ≡ true

  -- What the comparisons leave of the state if they pass.
  abbrev settled : Bench T → Bench T
  settled b = record b { ref = record b.ref { actual = sort b.ref.actual }; diff_failed = false }

  compare_state-Same :
      (b : Bench T)
      → (compare_state T sort tidy c b).diff_failed ≡ false
      → Same b × (compare_state T sort tidy c b ≡ settled b)
  unfolding compare_state check_stores
  compare_state-Same b = elim (Bool-cases (b.diff_failed || b.dpi.failed)) [
    | inl failed ↦ rw failed (λ e. absurd (cc))
    | inr fine ↦ elim (Bool-cases (same_stores (sort b.ref.actual) b.ref.expected)) [
      | inr differ ↦ rw (fine, differ) (λ e. absurd (cc))
      | inl same ↦ elim (Bool-cases (same_words b.ref.packed b.dpi.state (state_words c) 0)) [
        | inr differ ↦ rw (fine, same, differ) (λ e. absurd (cc))
        | inl words ↦
            rw (fine, same, words)
              (λ e. (
                record {
                  unfailed = ground (arith, fine);
                  bridge = ground (arith, fine);
                  stores = same;
                  words = words;
                },
                refl,
              ))
      ]
    ]
  ]

  -- The comparison of the memories in a run.
  pub check_pmem-running :
      (full : Bool) (b : Bench T) (p : Bytes)
      → IsSupported c
      → b.pmem ≡ some p
      → check_pmem T sort tidy c full b ≡ some (check_memory tidy p c.msize full b.ref)
  unfolding check_pmem
  check_pmem-running full b p s mapped =
      rw (guest_base c s, mapped)
        (ap (λ (a : Bytes). some (check_memory tidy a c.msize full b.ref))
          (fun_ext (λ i. ap p (omega arith))))

  pub check_pmem-unmapped :
      (full : Bool) (b : Bench T)
      → IsSupported c
      → b.pmem ≡ none
      → b.ref.active ≡ true
      → check_pmem T sort tidy c full b ≡ none
  unfolding check_pmem
  check_pmem-unmapped full b s absent active = rw (guest_base c s, absent, active) refl

  -- What the comparison of the written bytes comes to.
  check_memory_cases :
      (m : CycleModel) (p : Bytes)
      → m.active ≡ true
      → m.mem_size ≡ c.msize
      → check_memory tidy p c.msize false m ≡ (
          if same_at p m.mem (tidy m.dirty)
          then (record m { dirty = tidy m.dirty }, true)
          else (record m { dirty = tidy m.dirty; failed = true }, false))
  unfolding check_memory
  check_memory_cases m p active size =
      let known : (c.msize == m.mem_size) ≡ true = ground (arith, size) in rw (active, known) refl

  -- What the comparison of the written bytes leaves of a state, if it passes.
  record Matches (b b' : Bench T) : Type 0 where
    unfailed : b.diff_failed ≡ false
    now : b' ≡ record b { ref = record b.ref { actual = []; dirty = tidy b.ref.dirty } }
    bytes : (p : Bytes) → b.pmem ≡ some p → same_at p b.ref.mem (tidy b.ref.dirty) ≡ true

  compare_written-Matches :
      (b : Bench T)
      → IsSupported c
      → b.ref.active ≡ true
      → b.ref.mem_size ≡ c.msize
      → After (λ b'. b'.diff_failed ≡ false → Matches b b') (compare_written T sort tidy c b)
  unfolding compare_written apply_stores
  compare_written-Matches b s active size = elim (Bool-cases b.diff_failed) [
    | inl failed ↦ rw failed (λ e. absurd (cc))
    | inr fine ↦ elim (Option-cases b.pmem) [
      | inl absent ↦ rw (fine, check_pmem-unmapped false b s absent active) tt
      | inr (p, mapped) ↦
          let checked =
            check_pmem-running false b p s mapped
            ∙ ap (λ (x : CycleModel × Bool). some x) (check_memory_cases b.ref p active size) in
          elim (Bool-cases (same_at p b.ref.mem (tidy b.ref.dirty))) [
            | inr differ ↦ rw (fine, checked, differ) (λ e. absurd (cc))
            | inl equal ↦
                rw (fine, checked, equal)
                  (λ e. record {
                    unfailed = refl;
                    now = refl;
                    bytes = λ q there. let same : q ≡ p = cc in rw same equal;
                  })
          ]
    ]
  ]

  pub compare_written-failed :
      (b : Bench T)
      → b.diff_failed ≡ true
      → After (λ b'. b'.diff_failed ≡ true) (compare_written T sort tidy c b)
  unfolding compare_written
  compare_written-failed b failed = rw failed refl

  Matches-Passes : (b b' : Bench T) → IsTidy tidy → Same b → Matches (settled b) b' → Passes b b'
  Matches-Passes b b' t same m = record {
    unfailed = same.unfailed;
    bridge = same.bridge;
    stores = same.stores;
    words = same.words;
    bytes = λ p there i dirty.
        (same_at_iff p b.ref.mem (tidy b.ref.dirty)).0 (m.bytes p there) i
          (t.keeps b.ref.dirty i ∙ dirty);
    same_design = ap (λ (x : Bench T). x.design) m.now;
    same_pins = ap (λ (x : Bench T). x.pins) m.now;
    same_dpi = ap (λ (x : Bench T). x.dpi) m.now;
    same_pmem = ap (λ (x : Bench T). x.pmem) m.now;
    same_packed = ap (λ (x : Bench T). x.ref.packed) m.now;
    same_mem = ap (λ (x : Bench T). x.ref.mem) m.now;
    same_size = ap (λ (x : Bench T). x.ref.mem_size) m.now;
    same_active = ap (λ (x : Bench T). x.ref.active) m.now;
    cleared = ap (λ (x : Bench T). x.ref.actual) m.now;
  }

  -- If nothing has failed after the checks, everything has passed.
  pub check_edge-Passes :
      (b : Bench T)
      → IsSupported c
      → IsTidy tidy
      → b.ref.active ≡ true
      → b.ref.mem_size ≡ c.msize
      → After (λ b'. b'.diff_failed ≡ false → Passes b b') (check_edge T sort tidy c b)
  unfolding check_edge
  check_edge-Passes b s t active size =
      let mid = compare_state T sort tidy c b in
      let Goal = λ (b' : Bench T). b'.diff_failed ≡ false → Passes b b' in
      elim (Bool-cases mid.diff_failed) [
        | inl failed ↦
            After-map (λ b'. b'.diff_failed ≡ true) Goal (compare_written T sort tidy c mid)
              (λ b' stays e. absurd (cc (sym stays ∙ e))) (compare_written-failed mid failed)
        | inr fine ↦
            let (same, now) = compare_state-Same b fine in
            let written : After Goal (compare_written T sort tidy c (settled b)) =
              After-map (λ b'. b'.diff_failed ≡ false → Matches (settled b) b') Goal
                (compare_written T sort tidy c (settled b))
                (λ b' m e. Matches-Passes b b' t same (m e))
                (compare_written-Matches (settled b) s active size) in
            subst (λ (x : Bench T). After Goal (compare_written T sort tidy c x)) (sym now) written
      ]
