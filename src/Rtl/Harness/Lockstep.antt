-- ===== src/Rtl/Harness/Lockstep.antt =====
-- The lockstep of the design and the cycle model: what holds from cycle to cycle.
use open_gpu.Prelude.{
  ℕ, ◌<◌, ◌≡◌, refl, sym, ap, ◌∙◌, inl, inr, Bool, true, false, Option, some, List, arith,
  Bool-cases, get_or,
}
use mathlib.Core.Path.{subst}
use open_gpu.Prelude.Chain.{After, After-bind, After-map, After-some}
use open_gpu.Config.{Config, IsSupported}
use open_gpu.Memory.{Bytes, Pmem}
use open_gpu.Cycle.State.{Store, CycleModel, state_words}
use open_gpu.Cycle.Step.Ascending.{IsSort}
use open_gpu.Cycle.Step.Writes.{occurs, IsTidy}
use open_gpu.Rtl.Dpi.{Dpi}
use open_gpu.Rtl.Top.{Top, Pins}
use open_gpu.Rtl.Harness.{Bench, eval_top, between_edges, check_edge, when_difftest, settle, tick}
use open_gpu.Rtl.Harness.Checks.{Passes, same_words_sound, check_edge-Passes}
use open_gpu.Rtl.Harness.Observe.{Evaluates, eval_top-Evaluates}
use open_gpu.Rtl.Harness.Advance.{InStep, InStep-pins, Advanced, Advances, between_edges-Advances}

module _ (T : Top) (sort : List Store → List Store) (tidy : List ℕ → List ℕ) (c : Config) where
  -- The snapshot of the design is the packed state of the model.
  abbrev pub SameState : Bench T → Type 0
  SameState b = (k : ℕ) → k < state_words c → b.dpi.state k ≡ get_or b.ref.packed k 0

  -- What holds after a cycle that does not fail.
  pub record Matched (b : Bench T) : Type 0 where
    pub steady : InStep c b.pins b.ref b.pmem
    pub state : SameState b
    pub bridge : b.dpi.failed ≡ false

  Advances-Evaluates :
      (b b' : Bench T)
      → Evaluates T sort tidy c b b'
      → Advances T sort tidy c b
      → Advances T sort tidy c b'
  Advances-Evaluates b b' e h =
      subst (λ (x : Pins × CycleModel × Pmem). Advanced T sort tidy c x.0 x.1 x.2)
        (sym (λ i. (e.pins i, e.ref i, e.pmem i))) h

  InStep-Evaluates :
      (b b' : Bench T)
      → Evaluates T sort tidy c b b'
      → InStep c b.pins b.ref b.pmem
      → InStep c b'.pins b'.ref b'.pmem
  InStep-Evaluates b b' e h =
      subst (λ (x : Pins × CycleModel × Pmem). InStep c x.0 x.1 x.2)
        (sym (λ i. (e.pins i, e.ref i, e.pmem i))) h

  Passes-Matched :
      (b b' : Bench T) → Advances T sort tidy c b → Passes T sort tidy c b b' → Matched b'
  Passes-Matched b b' h k =
      let (p, mapped, clean) = h.mem k.stores in
      record {
        steady = record {
          running = ap (λ (x : Pins). x.reset) k.same_pins ∙ h.running;
          active = k.same_active ∙ h.active;
          size = k.same_size ∙ h.size;
          mem = (
            p,
            k.same_pmem ∙ mapped,
            λ i small any. elim (Bool-cases (occurs i b.ref.dirty)) [
              | inl dirty ↦ k.bytes p mapped i dirty ∙ sym (ap (λ (a : Bytes). a i) k.same_mem)
              | inr kept ↦
                  clean i small (ground (arith, kept)) ∙ sym (ap (λ (a : Bytes). a i) k.same_mem)
            ],
          );
        };
        state = λ j small.
            ap (λ (d : Dpi). d.state j) k.same_dpi
            ∙ sym (
                same_words_sound b.ref.packed b.dpi.state (state_words c) 0 j k.words (omega arith)
                  (omega (arith, small)))
            ∙ ap (λ (words : List ℕ). get_or words j 0) (sym k.same_packed);
        bridge = ap (λ (d : Dpi). d.failed) k.same_dpi ∙ k.bridge;
      }

  when_difftest-on :
      (P : Bench T → Type 0) (part : Bench T → Option (Bench T)) (b : Bench T)
      → c.difftest ≡ true
      → After P (part b)
      → After P (when_difftest T sort tidy c part b)
  unfolding when_difftest
  when_difftest-on P part b diff h = rw diff h

  settle-Matched :
      (b : Bench T)
      → IsSupported c
      → c.difftest ≡ true
      → IsTidy tidy
      → Advances T sort tidy c b
      → After (λ b'. b'.diff_failed ≡ false → Matched b') (settle T sort tidy c b)
  unfolding settle
  settle-Matched b s diff tidies h =
      let Goal = λ (b' : Bench T). b'.diff_failed ≡ false → Matched b' in
      let eval = eval_top T sort tidy c b in
      After-bind Goal eval _ λ u e.
        let now =
          Advances-Evaluates b u
            (After-some (Evaluates T sort tidy c b) eval u (eval_top-Evaluates T sort tidy c b diff)
              e)
            h in
        After-map (λ b'. b'.diff_failed ≡ false → Passes T sort tidy c u b') Goal
          (check_edge T sort tidy c u) (λ b' k fine. Passes-Matched u b' now (k fine))
          (check_edge-Passes T sort tidy c u s tidies now.active now.size)

  tick-Matched :
      (b : Bench T)
      → IsSupported c
      → c.difftest ≡ true
      → IsSort sort
      → IsTidy tidy
      → InStep c b.pins b.ref b.pmem
      → After (λ b'. b'.diff_failed ≡ false → Matched b') (tick T sort tidy c b)
  unfolding tick
  tick-Matched b s diff sorts tidies h =
      let Goal = λ (b' : Bench T). b'.diff_failed ≡ false → Matched b' in
      let clock =
        λ (level : Bool) (u : Bench T). record u { pins = record u.pins { clock = level } } in
      let eval = λ (level : Bool) (u : Bench T). eval_top T sort tidy c (clock level u) in
      let evaluates = λ (level : Bool) (u v : Bench T) (e : eval level u ≡ some v).
        After-some (Evaluates T sort tidy c (clock level u)) (eval level u) v
          (eval_top-Evaluates T sort tidy c (clock level u) diff) e in
      After-bind Goal (eval false b) _ λ low e.
        let start =
          InStep-Evaluates (clock false b) low (evaluates false b low e)
            (InStep-pins (clock false b).pins refl h) in
        let between = when_difftest T sort tidy c (between_edges T sort tidy c) low in
        After-bind Goal between _ λ before e'.
          let mid =
            After-some (Advances T sort tidy c) between before
              (when_difftest-on (Advances T sort tidy c) (between_edges T sort tidy c) low diff
                (between_edges-Advances T sort tidy c low s sorts start))
              e' in
          After-bind Goal (eval true before) _ λ high e3.
            let top =
              Advances-Evaluates (clock true before) high (evaluates true before high e3) (record {
                running = mid.running;
                active = mid.active;
                size = mid.size;
                mem = mid.mem;
              }) in
            After-bind Goal (when_difftest T sort tidy c (settle T sort tidy c) high) _
              λ after e4 fine.
                let k =
                  After-some Goal (when_difftest T sort tidy c (settle T sort tidy c) high) after
                    (when_difftest-on Goal (settle T sort tidy c) high diff
                      (settle-Matched high s diff tidies top))
                    e4 fine in
                record { steady = k.steady; state = k.state; bridge = k.bridge }

  -- A cycle of a differential build, for any design, from a state in which every byte of the memory
  -- is as in the model: if the cycle ends and no comparison has failed then, every byte of the
  -- memory is as in the model again, and the snapshot of the design is the packed state of the
  -- model. It holds for every sorting function that keeps the stores, and for every function on the
  -- dirty offsets that keeps which of them occur.
  pub tick_lockstep :
      (b b' : Bench T)
      → IsSupported c
      → c.difftest ≡ true
      → IsSort sort
      → IsTidy tidy
      → InStep c b.pins b.ref b.pmem
      → tick T sort tidy c b ≡ some b'
      → b'.diff_failed ≡ false
      → Matched b'
  tick_lockstep b b' s diff sorts tidies h e fine =
      After-some (λ (x : Bench T). x.diff_failed ≡ false → Matched x) (tick T sort tidy c b) b'
        (tick-Matched b s diff sorts tidies h) e fine
