-- ===== src/Trace.antt =====
-- The instruction and store trace of sw/runtime/gpu/gpu.c (`gpu_trace_*`).
pub mod Limit
use open_gpu.Prelude.{ℕ, ◌+◌, ◌%◌, Bool, true, false, not, ◌&&◌, List, [], ◌∷◌, ltb, if◌then◌else◌}
use open_gpu.Prelude.Word.{u64_mod}

-- A line that the trace prints: `[GI]` for an instruction, `[GM]` for a store.
pub data Line : Type 0 where
  instruction : ℕ → ℕ → ℕ → Line
  store : ℕ → ℕ → ℕ → ℕ → Line

-- `trace_requested`, `trace_suppressed`, `trace_limit`, `trace_events`, and what has been printed,
-- the latest line first.
pub record Trace : Type 0 where
  pub requested : Bool
  pub suppressed : Bool
  pub limit : ℕ
  pub events : ℕ
  pub printed : List Line

-- The initial values of the globals.
abbrev pub initial_trace : Trace
initial_trace = record {
  requested = false;
  suppressed = false;
  limit = 10000;
  events = 0;
  printed = [];
}

unfoldable pub trace_enabled : Trace → Bool
trace_enabled t = t.requested && not t.suppressed && ltb t.events t.limit

unfoldable pub trace_suppress : Bool → Trace → Trace
trace_suppress suppress t = record t { suppressed = suppress }

-- The part that `gpu_trace_commit` and `gpu_trace_store` share.
unfoldable pub trace_line : Line → Trace → Trace
unfolding trace_enabled
trace_line line t =
    if not (trace_enabled t)
    then t
    else record t { printed = line ∷ t.printed; events = (t.events + 1) % u64_mod }

unfoldable pub trace_commit : ℕ → ℕ → ℕ → Trace → Trace
unfolding trace_line
trace_commit hartid pc inst t = trace_line (instruction hartid pc inst) t

unfoldable pub trace_store : ℕ → ℕ → ℕ → ℕ → Trace → Trace
unfolding trace_line
trace_store hartid addr mask word t = trace_line (store hartid addr mask word) t
