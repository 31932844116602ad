-- ===== src/Trace/Limit.antt =====
-- The trace prints at most `trace_limit` lines for a launch, and none while it is suppressed.
use open_gpu.Prelude.{
  ℕ, ◌+◌, ◌-◌, ◌≤◌, ◌≡◌, refl, true, false, not, ◌&&◌, List, [], ◌∷◌, arith, if◌then◌else◌, ltb,
}
use mathlib.Core.Path.{ap₂, ◌∙◌}
use open_gpu.Prelude.Word.{IsU64}
use open_gpu.Trace.{Trace, Line, instruction, store, trace_commit, trace_store}

-- A call of the trace, as the simulators make them.
pub data Call : Type 0 where
  commit : ℕ → ℕ → ℕ → Call
  stored : ℕ → ℕ → ℕ → ℕ → Call

abbrev pub make : Call → Trace → Trace
make (commit hart pc inst) t = trace_commit hart pc inst t
make (stored hart addr mask word) t = trace_store hart addr mask word t

abbrev pub line_of : Call → Line
line_of (commit hart pc inst) = instruction hart pc inst
line_of (stored hart addr mask word) = store hart addr mask word

abbrev pub make_all : List Call → Trace → Trace
make_all [] t = t
make_all (k ∷ ks) t = make_all ks (make k t)

-- The lines that are printed of a run of calls: the first ones, as many as are left.
abbrev pub push_lines : ℕ → List Call → List Line → List Line
push_lines left [] out = out
push_lines left (k ∷ ks) out =
    push_lines (left - 1) ks (if ltb 0 left then line_of k ∷ out else out)

make_fields :
    (k : Call) (t : Trace)
    → IsU64 t.limit
    → t.events ≤ t.limit
    → t.requested ≡ true
    → t.suppressed ≡ false
    → ((make k t).limit ≡ t.limit)
      × ((make k t).requested ≡ true)
      × ((make k t).suppressed ≡ false)
      × ((make k t).events ≡ (if ltb 0 (t.limit - t.events) then t.events + 1 else t.events))
      × ((make k t).printed
          ≡ (if ltb 0 (t.limit - t.events) then line_of k ∷ t.printed else t.printed))
unfolding trace_commit trace_store
make_fields (commit hart pc inst) t hl he hr hs = ground arith
make_fields (stored hart addr mask word) t hl he hr hs = ground arith

-- While the trace is requested and not suppressed, a run of calls prints the lines of its first
-- calls, in order, until `trace_limit` lines have been counted, and none after that.
pub make_all-printed :
    (ks : List Call) (t : Trace)
    → IsU64 t.limit
    → t.events ≤ t.limit
    → t.requested ≡ true
    → t.suppressed ≡ false
    → (make_all ks t).printed ≡ push_lines (t.limit - t.events) ks t.printed
make_all-printed [] t hl he hr hs = refl
make_all-printed (k ∷ ks) t hl he hr hs =
    let (limit, requested, suppressed, events, printed) = make_fields k t hl he hr hs in
    let low : (make k t).events ≤ (make k t).limit = ground (arith, limit, events) in
    let left : (make k t).limit - (make k t).events ≡ t.limit - t.events - 1 =
      ground (arith, limit, events) in
    make_all-printed ks (make k t) (rw limit hl) low requested suppressed
    ∙ ap₂ (λ (n : ℕ) (out : List Line). push_lines n ks out) left printed

-- While the trace is suppressed or not requested a call changes nothing.
pub make_silent : (k : Call) (t : Trace) → t.requested && not t.suppressed ≡ false → make k t ≡ t
unfolding trace_commit trace_store
make_silent (commit hart pc inst) t h = ground arith
make_silent (stored hart addr mask word) t h = ground arith
