-- ===== src/Cycle/Core/Inside.antt =====
-- The bounds that a core keeps to, and the changes of a core that stay within them.
use open_gpu.Prelude.{
  ℕ, ◌+◌, ◌-◌, ◌≤◌, ◌<◌, ◌≡◌, refl, sym, ap, ◌∙◌, ◌⊎◌, inl, inr, Bool, true, false, not, ◌&&◌, some,
  ltb, ◌==◌, arith, Bool-cases, if◌then◌else◌,
}
use open_gpu.Prelude.Chain.{After}
use open_gpu.Config.{Config}
use open_gpu.Iss.Decode.{opcode, rd_of, uses_rd}
use open_gpu.Cycle.State.{
  CycleCore, CoreState, sched, fetch, exec, mem_req, mem_resp, put, put_register, stack_depth,
  Array,
}
use open_gpu.Cycle.Core.{bad_fields}

-- The core is in the middle of a load or a store.
abbrev pub is_access : CoreState → Bool
is_access sched = false
is_access fetch = false
is_access exec = false
is_access mem_req = true
is_access mem_resp = true

-- The parts of a core that the bounds speak of.
pub record InBounds (c : Config) (sp : Array) (iw rr mt : ℕ) (gpr : ℕ → Array) (state : CoreState)
    (inst : ℕ) : Type 0 where
  pub stack : (w : ℕ) → sp w ≤ stack_depth
  pub warp : iw < c.num_warps
  pub turn : rr < c.num_warps
  pub thread : mt < c.num_threads
  pub x0 : (x : ℕ) → gpr x 0 ≡ 0
  pub fields : is_access state ≡ true → bad_fields inst ≡ false

-- No warp has more than eight entries on its stack, the warp and the lane in work and the warp
-- whose turn it is exist, every register x0 is zero, and a load or store that the core carries out
-- names the registers x0 to x15.
abbrev pub IsCore : Config → CycleCore → Type 0
IsCore c core = InBounds c core.sp core.iw core.rr core.mt core.gpr core.state core.inst

-- What is written, or what stood there.
pub put-cases {ℓ} :
    {A : Type ℓ} (a : ℕ → A) (i j : ℕ) (v : A) → ((i ≡ j) × (put a i v j ≡ v)) ⊎ (put a i v j ≡ a j)
put-cases a i j v = elim (Bool-cases (j == i)) [
  | inl here ↦ inl (ground (arith, here), rw here refl)
  | inr away ↦ inr (rw away refl)
]

put_stack :
    (sp : ℕ → ℕ) (w n : ℕ)
    → n ≤ stack_depth
    → ((v : ℕ) → sp v ≤ stack_depth)
    → (v : ℕ) → put sp w n v ≤ stack_depth
put_stack sp w n h k v = elim (put-cases sp w v n) [ inl (_, e) ↦ rw e h | inr e ↦ rw e (k v) ]

-- A result goes to a register of the file, if its field is in order.
pub written_field :
    (inst : ℕ)
    → bad_fields inst ≡ false
    → (uses_rd (opcode inst) && not (rd_of inst == 0)) ≡ true
    → rd_of inst < 16
unfolding bad_fields
written_field inst good writes = ground (arith, good, writes)

pub loaded_field :
    (inst : ℕ)
    → bad_fields inst ≡ false
    → (opcode inst == 3 && not (rd_of inst == 0)) ≡ true
    → rd_of inst < 16
unfolding bad_fields uses_rd
loaded_field inst good loads = ground (arith, good, loads)

-- A write to register `r` of file `x`, if there is one, leaves the other files alone.
register_away :
    (gpr : ℕ → Array) (x r v y : ℕ) (b : Bool)
    → (b ≡ true → r < 16)
    → (y == x) ≡ false
    → (if b then put_register gpr x r v else gpr) y ≡ gpr y
register_away gpr x r v y false low away = refl
register_away gpr x r v y true low away =
    let inside : ltb r 16 ≡ true = ground (arith, low refl) in rw (inside, away) refl

-- A file written at its own x0 last.
put_zero :
    (gpr : ℕ → Array) (x : ℕ)
    → ((y : ℕ) → (y == x) ≡ false → gpr y 0 ≡ 0)
    → (y : ℕ) → put gpr x (put (gpr x) 0 0) y 0 ≡ 0
put_zero gpr x h y = elim (Bool-cases (y == x)) [
  | inl here ↦ rw here refl
  | inr away ↦ rw away (h y away)
]

module _ {c : Config} {sp : Array} {iw rr mt : ℕ} {gpr : ℕ → Array} {state : CoreState} {inst : ℕ}
    (h : InBounds c sp iw rr mt gpr state inst) where
  -- The core goes on to the warp after `iw`.
  pub next_turn : InBounds c sp iw (if iw == c.num_warps - 1 then 0 else iw + 1) mt gpr sched inst
  next_turn = record {
    stack = h.stack;
    warp = h.warp;
    turn = ground (arith, h.warp);
    thread = h.thread;
    x0 = h.x0;
    fields = λ e. absurd (cc e);
  }

  pub with_stack : (w n : ℕ) → n ≤ stack_depth → InBounds c (put sp w n) iw rr mt gpr state inst
  with_stack w n small = record {
    stack = put_stack sp w n small h.stack;
    warp = h.warp;
    turn = h.turn;
    thread = h.thread;
    x0 = h.x0;
    fields = h.fields;
  }

  pub with_register :
      (x r v : ℕ) (b : Bool)
      → (b ≡ true → r < 16)
      → let written = if b then put_register gpr x r v else gpr in
        InBounds c sp iw rr mt (put written x (put (written x) 0 0)) state inst
  with_register x r v b low = record {
    stack = h.stack;
    warp = h.warp;
    turn = h.turn;
    thread = h.thread;
    x0 =
        put_zero (if b then put_register gpr x r v else gpr) x
          λ y away. ap (λ (a : Array). a 0) (register_away gpr x r v y b low away) ∙ h.x0 y;
    fields = h.fields;
  }

  -- A state in which no load or store goes on.
  pub with_state :
      (state' : CoreState) (inst' : ℕ)
      → is_access state' ≡ false
      → InBounds c sp iw rr mt gpr state' inst'
  with_state state' inst' outside = record {
    stack = h.stack;
    warp = h.warp;
    turn = h.turn;
    thread = h.thread;
    x0 = h.x0;
    fields = λ e. absurd (cc (sym e ∙ outside));
  }

  pub with_warp : (w : ℕ) → w < c.num_warps → InBounds c sp w rr mt gpr state inst
  with_warp w inside = record {
    stack = h.stack;
    warp = inside;
    turn = h.turn;
    thread = h.thread;
    x0 = h.x0;
    fields = h.fields;
  }

  -- Lane `t` of a load or store whose register fields are in order.
  pub with_thread :
      (t : ℕ) (state' : CoreState)
      → bad_fields inst ≡ false
      → t < c.num_threads
      → InBounds c sp iw rr t gpr state' inst
  with_thread t state' good inside = record {
    stack = h.stack;
    warp = h.warp;
    turn = h.turn;
    thread = inside;
    x0 = h.x0;
    fields = λ _. good;
  }

pub either_way :
    (P : CycleCore × Bool → Type 0) (b : Bool) (x y : CycleCore × Bool)
    → P x
    → P y
    → After P (if not b then some x else some y)
either_way P true x y p q = q
either_way P false x y p q = p
