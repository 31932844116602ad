-- ===== src/Iss/Step/Zero.antt =====
-- What a step of the simulator keeps: register x0 is zero, the register files keep their size, and
-- a lane's identity never changes.
use open_gpu.Prelude.{
  ℕ, zero, suc, ◌+◌, ◌%◌, ◌≡◌, refl, sym, ap, ◌∙◌, inl, inr, Bool, true, false, not, ◌&&◌, some,
  List, [], ◌∷◌, length, get_elem?, get_or, set, length-set, ltb, arith, Bool-cases, Option-cases,
  if◌then◌else◌, ◌==◌,
}
use mathlib.Core.Path.{subst}
use open_gpu.Prelude.Chain.{After, After-bind}
use open_gpu.Prelude.Word.{u32_mod}
use open_gpu.Config.{Config}
use open_gpu.Memory.{paddr_read}
use open_gpu.Backend.{World}
use open_gpu.Iss.State.{Lane, Iss, reg, set_reg}
use open_gpu.Iss.Decode.{opcode, rd_of, uses_rd}
use open_gpu.Iss.Step.{
  Outcome, trap, halt, retire, execute, write_back, finish, fault_core, bad_registers, step_core,
  scan,
}

-- A register file of 16 registers, whose first is zero.
pub record IsFile (l : Lane) : Type 0 where
  pub size : length l.gpr ≡ 16
  pub x0 : reg l 0 ≡ 0

-- The lanes have the same identity and place in the grid.
pub record SameIdentity (l l' : Lane) : Type 0 where
  pub hart : l'.hartid ≡ l.hartid
  pub physical : l'.physical_id ≡ l.physical_id
  pub args : l'.args_addr ≡ l.args_addr
  pub thread : l'.thread_idx ≡ l.thread_idx
  pub block : l'.block_idx ≡ l.block_idx
  pub block_size : l'.block_dim ≡ l.block_dim
  pub grid_size : l'.grid_dim ≡ l.grid_dim
  pub warp : l'.warp_id ≡ l.warp_id
  pub lane : l'.lane_id ≡ l.lane_id

-- The step replaces lane `i`, which is `l`, by a lane with a good file and the same identity.
abbrev pub Replaces : Iss → ℕ → Lane → Iss → Type 0
Replaces s i l s' = (l' : Lane) × IsFile l' × SameIdentity l l' × (s'.cores ≡ set s.cores i l')

-- A step writes the registers, the pc and the halt flag.
pub same_identity :
    (l : Lane) (g : List ℕ) (p : ℕ) (b : Bool)
    → SameIdentity l (record l { gpr = g; pc = p; halted = b })
same_identity l g p b = record {
  hart = refl;
  physical = refl;
  args = refl;
  thread = refl;
  block = refl;
  block_size = refl;
  grid_size = refl;
  warp = refl;
  lane = refl;
}

first_set : (xs : List ℕ) → get_or (set xs 0 0) 0 0 ≡ 0
first_set [] = refl
first_set (x ∷ xs) = refl

-- The registers after an instruction whose register fields are in order.
abbrev pub written_file : ℕ → ℕ → Lane → List ℕ
written_file inst result l =
    if uses_rd (opcode inst) && not (rd_of inst == 0) then set l.gpr (rd_of inst) result else l.gpr

-- Such an instruction writes registers and the pc, and nothing beside.
pub write_back_good :
    (inst result next : ℕ) (l : Lane)
    → bad_registers inst ≡ false
    → write_back inst result next l
      ≡ record l { gpr = set (written_file inst result l) 0 0; pc = next }
unfolding write_back bad_registers set_reg
write_back_good inst result next l good =
    elim (Bool-cases (uses_rd (opcode inst) && not (rd_of inst == 0))) [
      | inr stays ↦ rw stays refl
      | inl writes ↦
          let low : ltb (rd_of inst) 16 ≡ true = ground (arith, writes, good) in
          rw (writes, low) refl
    ]

pub length-written_file :
    (inst result : ℕ) (l : Lane)
    → length l.gpr ≡ 16
    → length (set (written_file inst result l) 0 0) ≡ 16
length-written_file inst result l size =
    elim (Bool-cases (uses_rd (opcode inst) && not (rd_of inst == 0))) [
      | inl writes ↦ rw writes (
          omega (
            arith,
            length-set (set l.gpr (rd_of inst) result) 0 0,
            length-set l.gpr (rd_of inst) result,
            size,
          ))
      | inr stays ↦ rw stays (omega (arith, length-set l.gpr 0 0, size))
    ]

written-IsFile :
    (inst result next : ℕ) (h : Bool) (l : Lane)
    → IsFile l
    → IsFile (record l { gpr = set (written_file inst result l) 0 0; pc = next; halted = h })
written-IsFile inst result next h l f = record {
  size = length-written_file inst result l f.size;
  x0 = first_set (written_file inst result l);
}

finish-Replaces :
    (s : Iss) (i : ℕ) (l : Lane) (inst : ℕ) (o : Outcome)
    → IsFile l
    → bad_registers inst ≡ false
    → Replaces s i l (finish s i l inst o)
unfolding finish
finish-Replaces s i l inst trap f good =
    (_, record { size = f.size; x0 = f.x0 }, same_identity l _ _ true, refl)
finish-Replaces s i l inst halt f good =
    (_, record { size = f.size; x0 = f.x0 }, same_identity l _ _ true, refl)
finish-Replaces s i l inst (retire true result next) f good =
    subst (λ (x : Lane). Replaces s i l (fault_core s i x))
      (sym (write_back_good inst result next l good))
      (_, written-IsFile inst result next true l f, same_identity l _ _ true, refl)
finish-Replaces s i l inst (retire false result next) f good =
    subst (λ (x : Lane). Replaces s i l (record s { cores = set s.cores i x }))
      (sym (write_back_good inst result next l good))
      (_, written-IsFile inst result next l.halted l f, same_identity l _ _ _, refl)

-- The step of lane `i` changes no other lane, and keeps that lane's identity and register x0.
pub step_core-Replaces :
    (c : Config) (s : Iss) (w : World) (i : ℕ) (l : Lane)
    → IsFile l
    → After (λ (x : Iss × World). Replaces s i l x.0) (step_core c s w i l)
unfolding step_core
step_core-Replaces c s w i l f = After-bind P (paddr_read c w.pmem l.pc 4) _ λ inst e.
    elim (Bool-cases (bad_registers inst)) [
      | inl bad ↦ rw bad (_, record { size = f.size; x0 = f.x0 }, same_identity l _ _ true, refl)
      | inr fine ↦ rw fine (
          After-bind P (execute c s.cores i l _ inst _ _) _
            λ (o, w'') e'. finish-Replaces s i l inst o f fine)
    ]
  where
    P : Iss × World → Type 0
    P x = Replaces s i l x.0

-- The scan finds a lane that runs, at the index that it returns.
pub scan-found :
    (left : ℕ) (cores : List Lane) (rr i : ℕ) (l : Lane)
    → (scan left cores rr).0 ≡ some (i, l)
    → (get_elem? cores i ≡ some l) × (l.halted ≡ false)
unfolding scan
scan-found zero cores rr i l e = cc
scan-found (suc left) cores rr i l e = elim (Option-cases (get_elem? cores rr)) [
  | inl missing ↦ absurd (ground (arith, missing, e))
  | inr (m, there) ↦ elim (Bool-cases m.halted) [
    | inl halted ↦
        scan-found left cores ((rr + 1) % u32_mod % length cores) i l
          (ground (arith, there, halted, e))
    | inr runs ↦
        let at : rr ≡ i = ground (arith, there, runs, e) in
        let same : m ≡ l = ground (arith, there, runs, e) in
        (rw (← at) (there ∙ ap (λ (x : Lane). some x) same), rw (← same) runs)
  ]
]
