-- ===== src/Cycle/State.antt =====
-- The state of sw/sim/hm/difftest.cpp: `struct Core`, `struct Store` and `struct Model`. A fixed
-- array of the source is a function from its indices, and a 0/1 word that is only tested a Bool.
use open_gpu.Prelude.{ℕ, ◌*◌, ◌+◌, ◌-◌, Bool, false, List, [], ltb, ◌==◌, if◌then◌else◌}
use open_gpu.Config.{Config, kernel_base}
use open_gpu.Memory.{Bytes}
use open_gpu.Iss.State.{Triple, ones_triple}

abbrev pub Array : Type 0
Array = ℕ → ℕ

-- `a[i] = v`
abbrev pub put {ℓ} : {A : Type ℓ} → (ℕ → A) → ℕ → A → ℕ → A
put a i v j = if j == i then v else a j

-- `gpr[x][r] = v` in a table of 16 words a row: an index of 16 or more runs into the next row. The
-- field of an instruction is below 32. The row after the last stands for what follows the table.
abbrev pub put_register : (ℕ → Array) → ℕ → ℕ → ℕ → ℕ → Array
put_register gpr x r v =
    if ltb r 16 then put gpr x (put (gpr x) r v) else put gpr (x + 1) (put (gpr (x + 1)) (r - 16) v)

-- `Contexts`, `StackDepth`
abbrev pub contexts : Config → ℕ
contexts c = c.num_warps * c.num_threads

abbrev pub stack_depth : ℕ
stack_depth = 8

-- `CoreWords`, `Words`
abbrev pub core_words : Config → ℕ
core_words c = 28 + 20 * c.num_warps + 20 * contexts c

abbrev pub state_words : Config → ℕ
state_words c = 23 + c.num_cores * core_words c

-- `enum State`
pub data CoreState : Type 0 where
  sched fetch exec mem_req mem_resp : CoreState

pub record Store : Type 0 where
  pub addr : ℕ
  pub data_word : ℕ
  pub mask : ℕ

pub record CycleCore : Type 0 where
  pub state : CoreState
  pub cta_active : Bool
  pub fault : Bool
  pub rr : ℕ
  pub iw : ℕ
  pub im : ℕ
  pub ip : ℕ
  pub inst : ℕ
  pub mt : ℕ
  pub block : Triple
  pub dim : Triple
  pub grid : Triple
  pub args : ℕ
  pub pc : Array
  pub mask : Array
  pub valid : ℕ → Bool
  pub sp : Array
  pub stack_pc : ℕ → Array
  pub stack_mask : ℕ → Array
  pub gpr : ℕ → Array
  pub tx : Array
  pub ty : Array
  pub tz : Array
  pub gid : Array

abbrev pub zero_triple : Triple
zero_triple = record { x = 0; y = 0; z = 0 }

-- `Core{}`
abbrev pub new_core : CycleCore
new_core = record {
  state = sched;
  cta_active = false;
  fault = false;
  rr = 0;
  iw = 0;
  im = 0;
  ip = 0;
  inst = 0;
  mt = 0;
  block = zero_triple;
  dim = ones_triple;
  grid = ones_triple;
  args = 0;
  pc = λ _. 0;
  mask = λ _. 0;
  valid = λ _. false;
  sp = λ _. 0;
  stack_pc = λ _ _. 0;
  stack_mask = λ _ _. 0;
  gpr = λ _ _. 0;
  tx = λ _. 0;
  ty = λ _. 0;
  tz = λ _. 0;
  gid = λ _. 0;
}

-- `struct Model`; `mem` is a vector of `mem_size` bytes.
pub record CycleModel : Type 0 where
  pub startup : ℕ
  pub args : ℕ
  pub args_size : ℕ
  pub dim : Triple
  pub grid : Triple
  pub block_size : ℕ
  pub block : Triple
  pub running : Bool
  pub rr : ℕ
  pub reset : Bool
  pub dcr_valid : Bool
  pub launch : Bool
  pub active : Bool
  pub failed : Bool
  pub dcr_addr : ℕ
  pub dcr_data : ℕ
  pub cycle : ℕ
  pub cores : ℕ → CycleCore
  pub mem : Bytes
  pub mem_size : ℕ
  pub packed : List ℕ
  pub expected : List Store
  pub actual : List Store
  pub dirty : List ℕ

-- `Model{}`
abbrev pub new_model : CycleModel
new_model = record {
  startup = kernel_base;
  args = 0;
  args_size = 0;
  dim = ones_triple;
  grid = ones_triple;
  block_size = 1;
  block = zero_triple;
  running = false;
  rr = 0;
  reset = false;
  dcr_valid = false;
  launch = false;
  active = false;
  failed = false;
  dcr_addr = 0;
  dcr_data = 0;
  cycle = 0;
  cores = λ _. new_core;
  mem = λ _. 0;
  mem_size = 0;
  packed = [];
  expected = [];
  actual = [];
  dirty = [];
}
