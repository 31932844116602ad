-- ===== src/Rtl/Harness/Failed.antt =====
-- A comparison that has failed: `diff_failed` in rtl.cpp is not reset in a run.
use open_gpu.Prelude.{ℕ, suc, ◌≡◌, refl, Bool, true, false, some, List, arith}
use open_gpu.Prelude.Chain.{After, After-bind, After-some, After-cases}
use open_gpu.Config.{Config}
use open_gpu.Cycle.State.{Store}
use open_gpu.Rtl.Top.{Top}
use open_gpu.Rtl.Harness.{Bench, tick, rtl_fault, rtl_wait}
use open_gpu.Rtl.Harness.Kept.{Stable, tick-kept}

module _ (T : Top) (sort : List Store → List Store) (tidy : List ℕ → List ℕ) (c : Config) where
  abbrev pub HasFailed : Bench T → Type 0
  HasFailed b = b.diff_failed ≡ true

  failed-Stable : Stable T HasFailed
  failed-Stable = record {
    eval = λ b d s p t h. h;
    observe = λ b m p h. h;
    step = λ b m h. h;
    clock = λ b level h. h;
    compare = λ b m failed stays h. stays h;
    count = λ b n h. h;
  }

  -- After a comparison has failed, no cycle undoes that.
  pub tick-HasFailed : (b : Bench T) → HasFailed b → After HasFailed (tick T sort tidy c b)
  tick-HasFailed = tick-kept T sort tidy c HasFailed failed-Stable

  -- The pin `reset` is as it was.
  reset-Stable : (level : Bool) → Stable T (λ b. b.pins.reset ≡ level)
  reset-Stable level = record {
    eval = λ b d s p t h. h;
    observe = λ b m p h. h;
    step = λ b m h. h;
    clock = λ b level h. h;
    compare = λ b m failed stays h. h;
    count = λ b n h. h;
  }

  pub tick-reset :
      (b : Bench T) (level : Bool)
      → b.pins.reset ≡ level
      → After (λ b'. b'.pins.reset ≡ level) (tick T sort tidy c b)
  tick-reset b level = tick-kept T sort tidy c (λ b. b.pins.reset ≡ level) (reset-Stable level) b

  -- What a wait after a failure says.
  abbrev Refuses : Bench T × Bool → Type 0
  Refuses (b, ok) = HasFailed b × (ok ≡ false)

  rtl_wait-Refuses :
      (left : ℕ) (b : Bench T) → HasFailed b → After Refuses (rtl_wait T sort tidy c (suc left) b)
  unfolding rtl_wait rtl_fault
  rtl_wait-Refuses left b h = After-bind Refuses (tick T sort tidy c b) _ λ b' e.
      let k = After-some HasFailed (tick T sort tidy c b) b' (tick-HasFailed b h) e in
      After-cases Refuses (rtl_fault T sort tidy c b') (some (b', false)) _ (λ fault. (k, refl))
        λ fine. absurd (ground (arith, k, fine))

  -- Once a comparison has failed, every wait for at least one cycle that ends returns false, and
  -- the failure stays.
  pub rtl_wait-HasFailed :
      (left : ℕ) (b b' : Bench T) (ok : Bool)
      → HasFailed b
      → rtl_wait T sort tidy c (suc left) b ≡ some (b', ok)
      → HasFailed b' × (ok ≡ false)
  rtl_wait-HasFailed left b b' ok h e =
      After-some Refuses (rtl_wait T sort tidy c (suc left) b) (b', ok) (rtl_wait-Refuses left b h)
        e
