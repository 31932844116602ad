-- ===== src/Cycle/Names.antt =====
-- `cycle_diff_field_name` of sw/sim/hm/difftest.cpp: what a word of the packed state holds. The
-- text that `snprintf` builds is the constructor with its numbers and its last part.
use Prim.Native.String.{String}
use open_gpu.Prelude.{ℕ, ◌+◌, ◌-◌, ◌*◌, ◌/◌, ◌%◌, List, [], ◌∷◌, ltb, ◌==◌, get_or, if◌then◌else◌}
use open_gpu.Config.{Config}
use open_gpu.Cycle.State.{core_words}

pub data FieldName : Type 0 where
  -- `top[word]` and "kmu.%s"
  top kmu : String → FieldName
  -- "core[%zu].%s"
  core_field : ℕ → String → FieldName
  -- "core[%zu].warp[%zu].%s"
  warp_field : ℕ → ℕ → String → FieldName
  -- "core[%zu].warp[%zu].stack[%zu].%s"
  stack_field : ℕ → ℕ → ℕ → String → FieldName
  -- "core[%zu].lane[%zu].%s"
  lane_field : ℕ → ℕ → String → FieldName
  -- "core[%zu].lane[%zu].gpr[%zu]"
  gpr_field : ℕ → ℕ → ℕ → FieldName

abbrev pub top_names : List String
top_names = "top.busy" ∷ "top.fault" ∷ "top.done" ∷ []

abbrev pub kmu_names : List String
kmu_names =
    "startup_pc" ∷ "args_addr" ∷ "args_size" ∷ "block_dim.x" ∷ "block_dim.y" ∷ "block_dim.z"
    ∷ "grid_dim.x" ∷ "grid_dim.y" ∷ "grid_dim.z" ∷ "block_size" ∷ "block_idx.x" ∷ "block_idx.y"
    ∷ "block_idx.z" ∷ "running" ∷ "rr_core" ∷ "cta_valid" ∷ "core_ready" ∷ "core_busy" ∷ "busy"
    ∷ "selected" ∷ []

abbrev pub core_names : List String
core_names =
    "state" ∷ "cta_active" ∷ "fault" ∷ "rr_warp" ∷ "issue_warp" ∷ "issue_mask" ∷ "issue_pc"
    ∷ "issue_inst" ∷ "mem_thread" ∷ "block_idx.x" ∷ "block_idx.y" ∷ "block_idx.z" ∷ "block_dim.x"
    ∷ "block_dim.y" ∷ "block_dim.z" ∷ "grid_dim.x" ∷ "grid_dim.y" ∷ "grid_dim.z" ∷ "args_addr"
    ∷ "active_warps" ∷ "imem.ren" ∷ "imem.addr" ∷ "dmem.ren" ∷ "dmem.wen" ∷ "dmem.mask"
    ∷ "dmem.addr" ∷ "dmem.wdata" ∷ "dmem.rdata" ∷ []

abbrev pub warp_names : List String
warp_names = "valid" ∷ "pc" ∷ "mask" ∷ "stack_sp" ∷ []

abbrev pub lane_names : List String
lane_names = "thread_idx.x" ∷ "thread_idx.y" ∷ "thread_idx.z" ∷ "global_id" ∷ []

-- Word `x` of warp `w`, and word `f` of lane `l`.
unfoldable pub warp_name : ℕ → ℕ → ℕ → FieldName
warp_name ci w x =
    if ltb x 4
    then warp_field ci w (get_or warp_names x "")
    else stack_field ci w ((x - 4) / 2) (if x % 2 == 1 then "mask" else "pc")

unfoldable pub lane_name : ℕ → ℕ → ℕ → FieldName
lane_name ci l f =
    if ltb f 4 then lane_field ci l (get_or lane_names f "") else gpr_field ci l (f - 4)

-- Word `o` of core `ci`.
unfoldable pub core_name : Config → ℕ → ℕ → FieldName
unfolding warp_name lane_name
core_name c ci o =
    let x = o - 28 - 20 * c.num_warps in
    if ltb o 28
    then core_field ci (get_or core_names o "")
    else if ltb o (28 + 20 * c.num_warps)
    then warp_name ci ((o - 28) / 20) ((o - 28) % 20)
    else lane_name ci (x / 20) (x % 20)

unfoldable pub field_name : Config → ℕ → FieldName
unfolding core_name
field_name c word =
    let q = word - 23 in
    if ltb word 3
    then top (get_or top_names word "")
    else if ltb word 23
    then kmu (get_or kmu_names (word - 3) "")
    else core_name c (q / core_words c) (q % core_words c)
