-- ===== src/Rtl/Harness/Observe.antt =====
-- The stores that the harness takes from the snapshot: what they change.
use open_gpu.Prelude.{
  ℕ, zero, suc, ◌+◌, ◌*◌, ◌%◌, ◌<◌, ◌≡◌, refl, sym, ap, ◌∙◌, inl, inr, Bool, true, false, ◌||◌,
  some, List, [], ◌∷◌, ◌++◌, ◌==◌, arith, Bool-cases,
}
use open_gpu.Prelude.Word.{u32_mod}
use open_gpu.Prelude.Chain.{After, After-bind, After-map, After-some}
use open_gpu.Config.{Config, IsSupported}
use open_gpu.Memory.{Bytes, Pmem}
use open_gpu.Iss.Decode.{shr}
use open_gpu.Cycle.State.{Store, CycleModel}
use open_gpu.Cycle.Step.{observe_store}
use open_gpu.Rtl.Top.{Top}
use open_gpu.Trace.{trace_commit, trace_store}
use open_gpu.Rtl.Dpi.{
  Calls, Bus, done, read_word, write_word, publish, trace_instruction, trace_write, perform,
  dpi_paddr_read, dpi_paddr_write, gpu_diff_state, write_masked,
}
use open_gpu.Rtl.Harness.{Bench, port, bus_of, eval_top, observe_write, observe_core, observe_cores}
use open_gpu.Rtl.Harness.Touched.{covers, touches, Spares, write_masked-Spares}

-- In a differential build the design never writes the memory.
perform_quiet :
    {D : Type 0} (c : Config) (calls : Calls D) (bus : Bus)
    → c.difftest ≡ true
    → After (λ (x : D × Bus). x.1.pmem ≡ bus.pmem) (perform c calls bus)
unfolding perform dpi_paddr_write
perform_quiet c (done d) bus diff = refl
perform_quiet {D} c (read_word addr next) bus diff =
    After-bind (λ (x : D × Bus). x.1.pmem ≡ bus.pmem) (dpi_paddr_read c bus.pmem addr) _
      λ word e. perform_quiet c (next word) bus diff
perform_quiet c (write_word addr mask word next) bus diff = rw diff (perform_quiet c next bus diff)
perform_quiet c (trace_instruction hartid pc inst next) bus diff =
    perform_quiet c next (record bus { trace = trace_commit hartid pc inst bus.trace }) diff
perform_quiet c (trace_write hartid addr mask word next) bus diff =
    perform_quiet c next (record bus { trace = trace_store hartid addr mask word bus.trace }) diff
perform_quiet c (publish base a next) bus diff =
    perform_quiet c next (record bus { dpi = gpu_diff_state c base a bus.dpi }) diff

touches-append :
    (c : Config) (j : ℕ) (ss : List Store) (s : Store)
    → touches c j (ss ++ s ∷ []) ≡ (touches c j ss || covers c j s.addr s.mask 4 0)
touches-append c j [] s = ground arith
touches-append c j (t ∷ ts) s = ground (arith, touches-append c j ts s)

or_false : (a b : Bool) → (a || b) ≡ false → (a ≡ false) × (b ≡ false)
or_false a b h = (ground (arith, h), ground (arith, h))

module _ (T : Top) (sort : List Store → List Store) (tidy : List ℕ → List ℕ) (c : Config) where
  -- What a call of `eval` leaves alone.
  pub record Evaluates (b b' : Bench T) : Type 0 where
    pub pmem : b'.pmem ≡ b.pmem
    pub ref : b'.ref ≡ b.ref
    pub failed : b'.diff_failed ≡ b.diff_failed
    pub pins : b'.pins ≡ b.pins

  pub eval_top-Evaluates :
      (b : Bench T) → c.difftest ≡ true → After (Evaluates b) (eval_top T sort tidy c b)
  unfolding eval_top
  eval_top-Evaluates b diff =
      After-bind (Evaluates b) (perform c (T.eval b.pins b.design) _) _ λ (design, bus) e. record {
        pmem =
            After-some (λ (x : T.Design × Bus). x.1.pmem ≡ b.pmem)
              (perform c (T.eval b.pins b.design) (bus_of T sort tidy c b)) (design, bus)
              (perform_quiet c (T.eval b.pins b.design) _ diff) e;
        ref = refl;
        failed = refl;
        pins = refl;
      }

  -- What the loop over the cores changes: stores are noted, and no byte is written but by them.
  pub record Watches (p : Bytes) (b b' : Bench T) : Type 0 where
    pub ref : b'.ref ≡ record b.ref { actual = b'.ref.actual }
    pub failed : b'.diff_failed ≡ b.diff_failed
    pub pins : b'.pins ≡ b.pins
    pub noted : (j : ℕ) → touches c j b'.ref.actual ≡ false → touches c j b.ref.actual ≡ false
    pub mem : Spares (λ j. touches c j b'.ref.actual) p b'.pmem

  observe_store-active :
      (addr mask word : ℕ) (m : CycleModel)
      → m.active ≡ true
      → (s : Store) × (s.addr ≡ addr)
        × (s.mask ≡ mask)
        × (observe_store addr mask word m ≡ record m { actual = m.actual ++ s ∷ [] })
  unfolding observe_store
  observe_store-active addr mask word m active = rw active (_, refl, refl, refl)

  observe_write-Watches :
      (addr mask word : ℕ) (b : Bench T) (p : Bytes)
      → IsSupported c
      → addr < u32_mod
      → b.ref.active ≡ true
      → b.pmem ≡ some p
      → After (Watches p b) (observe_write T sort tidy c addr mask word b)
  unfolding observe_write
  observe_write-Watches addr mask word b p s small active mapped =
      let value = λ (k : ℕ). shr word (8 * k) in
      let write = λ (q : Pmem). write_masked c addr mask value 4 0 q in
      let (store, at, under, noted) = observe_store-active addr mask word b.ref active in
      After-bind (Watches p b) (write b.pmem) _ λ q e.
        let (p', now, same) =
          After-some (Spares (λ j. covers c j addr mask 4 0) p) (write (some p)) q
            (write_masked-Spares c s addr mask value 4 0 p small (omega arith))
            (ap write (sym mapped) ∙ e) in
        let after = observe_store addr mask word b.ref in
        let list : after.actual ≡ (b.ref.actual ++ store ∷ []) =
          ap (λ (m : CycleModel). m.actual) noted in
        let split : (j : ℕ)
            → touches c j after.actual ≡ (touches c j b.ref.actual || covers c j addr mask 4 0) =
          λ j.
            ap (touches c j) list
            ∙ touches-append c j b.ref.actual store
            ∙ ap (λ (a : ℕ). touches c j b.ref.actual || covers c j a store.mask 4 0) at
            ∙ ap (λ (k : ℕ). touches c j b.ref.actual || covers c j addr k 4 0) under in
        record {
          ref = noted ∙ ap (λ (ss : List Store). record b.ref { actual = ss }) (sym list);
          failed = refl;
          pins = refl;
          noted = λ j miss.
              (or_false (touches c j b.ref.actual) (covers c j addr mask 4 0)
                (sym (split j) ∙ miss)).0;
          mem = (
            p',
            now,
            λ j miss.
                same j
                  (or_false (touches c j b.ref.actual) (covers c j addr mask 4 0)
                    (sym (split j) ∙ miss)).1,
          );
        }

  observe_core-Watches :
      (i : ℕ) (b : Bench T) (p : Bytes)
      → IsSupported c
      → b.ref.active ≡ true
      → b.pmem ≡ some p
      → After (Watches p b) (observe_core T sort tidy c i b)
  unfolding observe_core
  observe_core-Watches i b p s active mapped = elim (Bool-cases (port c b.dpi.state i 23 == 0)) [
    | inl idle ↦ rw idle (record {
      ref = refl;
      failed = refl;
      pins = refl;
      noted = λ j h. h;
      mem = (p, mapped, λ j h. refl);
    })
    | inr stores ↦ rw stores (
        observe_write-Watches (port c b.dpi.state i 25) (port c b.dpi.state i 24 % 256)
          (port c b.dpi.state i 26) b p s (omega arith) active mapped)
  ]

  Watches-trans :
      (p p' : Bytes) (b b' b'' : Bench T)
      → b'.pmem ≡ some p'
      → Watches p b b'
      → Watches p' b' b''
      → Watches p b b''
  Watches-trans p p' b b' b'' mapped w v =
      let (q, now, same) = w.mem in
      let (r, now', same') = v.mem in
      let one : q ≡ p' = cc in
      record {
        ref = v.ref ∙ ap (λ (m : CycleModel). record m { actual = b''.ref.actual }) w.ref;
        failed = v.failed ∙ w.failed;
        pins = v.pins ∙ w.pins;
        noted = λ j miss. w.noted j (v.noted j miss);
        mem = (
          r,
          now',
          λ j miss. same' j miss ∙ ap (λ (a : Bytes). a j) (sym one) ∙ same j (v.noted j miss),
        );
      }

  -- The loop over the cores, in a run.
  pub observe_cores-Watches :
      (left i : ℕ) (b : Bench T) (p : Bytes)
      → IsSupported c
      → b.ref.active ≡ true
      → b.pmem ≡ some p
      → After (Watches p b) (observe_cores T sort tidy c left i b)
  unfolding observe_cores
  observe_cores-Watches zero i b p s active mapped = record {
    ref = refl;
    failed = refl;
    pins = refl;
    noted = λ j h. h;
    mem = (p, mapped, λ j h. refl);
  }
  observe_cores-Watches (suc left) i b p s active mapped =
      After-bind (Watches p b) (observe_core T sort tidy c i b) _ λ b' e.
        let w =
          After-some (Watches p b) (observe_core T sort tidy c i b) b'
            (observe_core-Watches i b p s active mapped) e in
        let (p', now, same) = w.mem in
        After-map (Watches p' b') (Watches p b) (observe_cores T sort tidy c left (i + 1) b')
          (λ b'' v. Watches-trans p p' b b' b'' now w v)
          (observe_cores-Watches left (i + 1) b' p' s
            (ap (λ (m : CycleModel). m.active) w.ref ∙ active) now)
