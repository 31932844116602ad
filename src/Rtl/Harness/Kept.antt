-- ===== src/Rtl/Harness/Kept.antt =====
-- What no cycle undoes: a predicate that the parts of `tick` keep.
use open_gpu.Prelude.{
  ℕ, zero, suc, ◌+◌, ◌*◌, ◌%◌, ◌≡◌, inl, inr, Bool, true, false, Option, some, List, ◌==◌, arith,
  Bool-cases, if◌then◌else◌,
}
use open_gpu.Prelude.Chain.{After, After-bind, After-then}
use open_gpu.Config.{Config}
use open_gpu.Iss.Decode.{shr}
use open_gpu.Cycle.State.{Store, CycleModel}
use open_gpu.Cycle.Step.{diff_step, observe_store}
use open_gpu.Memory.{Pmem}
use open_gpu.Trace.{Trace}
use open_gpu.Rtl.Dpi.{Dpi, perform, write_masked}
use open_gpu.Rtl.Top.{Top}
use open_gpu.Rtl.Harness.{
  Bench, port, eval_top, sample_pins, observe_write, observe_core, observe_cores, between_edges,
  when_difftest, settle, check_edge, compare_state, compare_written, tick, check_pmem,
}

module _ (T : Top) where
  -- A predicate that is kept by whatever the parts of `tick` change.
  pub record Stable {ℓ} (P : Bench T → Type ℓ) : Type ℓ where
    pub eval :
        (b : Bench T) (d : T.Design) (s : Dpi) (p : Pmem) (t : Trace)
        → P b
        → P (record b { design = d; dpi = s; pmem = p; trace = t })
    pub observe :
        (b : Bench T) (m : CycleModel) (p : Pmem) → P b → P (record b { ref = m; pmem = p })
    pub step : (b : Bench T) (m : CycleModel) → P b → P (record b { ref = m })
    pub clock :
        (b : Bench T) (level : Bool) → P b → P (record b { pins = record b.pins { clock = level } })
    pub compare :
        (b : Bench T) (m : CycleModel) (failed : Bool)
        → (b.diff_failed ≡ true → failed ≡ true)
        → P b
        → P (record b { ref = m; diff_failed = failed })
    pub count : (b : Bench T) (n : ℕ) → P b → P (record b { cycles = n })

module _ {ℓ} (T : Top) (sort : List Store → List Store) (tidy : List ℕ → List ℕ) (c : Config)
    (P : Bench T → Type ℓ) (k : Stable T P) where
  eval_top-kept : (b : Bench T) → P b → After P (eval_top T sort tidy c b)
  unfolding eval_top
  eval_top-kept b h =
      After-bind P (perform c (T.eval b.pins b.design) _) _
        λ (d, bus) e. k.eval b d bus.dpi bus.pmem bus.trace h

  observe_write-kept :
      (addr mask word : ℕ) (b : Bench T)
      → P b
      → After P (observe_write T sort tidy c addr mask word b)
  unfolding observe_write
  observe_write-kept addr mask word b h =
      After-bind P (write_masked c addr mask (λ j. shr word (8 * j)) 4 0 b.pmem) _
        λ p e. k.observe b (observe_store addr mask word b.ref) p h

  observe_core-kept : (i : ℕ) (b : Bench T) → P b → After P (observe_core T sort tidy c i b)
  unfolding observe_core
  observe_core-kept i b h = elim (Bool-cases (port c b.dpi.state i 23 == 0)) [
    | inl idle ↦ rw idle h
    | inr stores ↦ rw stores (
        observe_write-kept (port c b.dpi.state i 25) (port c b.dpi.state i 24 % 256)
          (port c b.dpi.state i 26) b h)
  ]

  observe_cores-kept :
      (left i : ℕ) (b : Bench T) → P b → After P (observe_cores T sort tidy c left i b)
  unfolding observe_cores
  observe_cores-kept zero i b h = h
  observe_cores-kept (suc left) i b h =
      After-then P P (observe_core T sort tidy c i b) _ (observe_core-kept i b h)
        (observe_cores-kept left (i + 1))

  between_edges-kept : (b : Bench T) → P b → After P (between_edges T sort tidy c b)
  unfolding between_edges
  between_edges-kept b h =
      After-then P P (observe_cores T sort tidy c c.num_cores 0 b) _
        (observe_cores-kept c.num_cores 0 b h)
        λ low h'.
          After-bind P (diff_step sort c (sample_pins low.pins low.ref)) _ λ m e. k.step low m h'

  compare_state-kept : (b : Bench T) → P b → P (compare_state T sort tidy c b)
  unfolding compare_state
  compare_state-kept b h = k.compare b _ _ (λ failed. ground (arith, failed)) h

  compare_written-kept : (b : Bench T) → P b → After P (compare_written T sort tidy c b)
  unfolding compare_written
  compare_written-kept b h =
      After-bind P (if b.diff_failed then some (b.ref, true) else check_pmem T sort tidy c false b)
        _ λ (m, same) e. k.compare b _ _ (λ failed. ground (arith, failed)) h

  settle-kept : (b : Bench T) → P b → After P (settle T sort tidy c b)
  unfolding settle check_edge
  settle-kept b h =
      After-then P P (eval_top T sort tidy c b) _ (eval_top-kept b h)
        λ u h'. compare_written-kept (compare_state T sort tidy c u) (compare_state-kept u h')

  when_difftest-kept :
      (part : Bench T → Option (Bench T)) (b : Bench T)
      → P b
      → After P (part b)
      → After P (when_difftest T sort tidy c part b)
  unfolding when_difftest
  when_difftest-kept part b h h' = elim (Bool-cases c.difftest) [
    | inl on ↦ rw on h'
    | inr off ↦ rw off h
  ]

  pub tick-kept : (b : Bench T) → P b → After P (tick T sort tidy c b)
  unfolding tick
  tick-kept b h =
      let clock =
        λ (level : Bool) (u : Bench T). record u { pins = record u.pins { clock = level } } in
      let eval = λ (level : Bool) (u : Bench T). eval_top T sort tidy c (clock level u) in
      let between = λ (u : Bench T). when_difftest T sort tidy c (between_edges T sort tidy c) u in
      let settling = λ (u : Bench T). when_difftest T sort tidy c (settle T sort tidy c) u in
      After-then P P (eval false b) _ (eval_top-kept (clock false b) (k.clock b false h)) λ low h1.
        After-then P P (between low) _
          (when_difftest-kept (between_edges T sort tidy c) low h1 (between_edges-kept low h1))
          λ before h2.
            After-then P P (eval true before) _
              (eval_top-kept (clock true before) (k.clock before true h2))
              λ high h3.
                After-then P P (settling high) _
                  (when_difftest-kept (settle T sort tidy c) high h3 (settle-kept high h3))
                  λ after h4. k.count after _ h4
