-- ===== src/Cycle/Agree/Registers.antt =====
-- The registers of a lane: the list of the simulator and the array of the cycle model.
use open_gpu.Prelude.{
  ℕ, zero, suc, ◌<◌, ◌≡◌, refl, sym, ap, ◌∙◌, inl, inr, Bool, true, false, not, ◌&&◌, List, [], ◌∷◌,
  length, get_or, set, length-set, ltb, leb, arith, ◌==◌, Bool-cases, if◌then◌else◌,
}
use Prim.Native.Nat.{bit_and}
use open_gpu.Prelude.Bits.{bit_and-mask}
use open_gpu.Iss.State.{Lane, reg}
use open_gpu.Iss.Decode.{opcode, rd_of, uses_rd}
use open_gpu.Iss.Step.{bad_registers}
use open_gpu.Iss.Step.Zero.{written_file}
use open_gpu.Cycle.State.{Array, put, put_register}

ne : (j : ℕ) → (suc j == 0) ≡ false
ne j = ground arith

ne_zero : (i : ℕ) → (0 == suc i) ≡ false
ne_zero i = ground arith

suc_test : (j i : ℕ) → (suc j == suc i) ≡ (j == i)
suc_test j i = ground arith

-- A write into a list is a write into the array that it stands for.
pub get_or-set :
    (xs : List ℕ) (a : Array) (i v j : ℕ)
    → i < length xs
    → get_or xs j 0 ≡ a j
    → get_or (set xs i v) j 0 ≡ put a i v j
get_or-set [] a i v j h e = elim h [ ]
get_or-set (x ∷ xs) a zero v zero h e = refl
get_or-set (x ∷ xs) a zero v (suc j) h e = rw (ne j) e
get_or-set (x ∷ xs) a (suc i) v zero h e = rw (ne_zero i) e
get_or-set (x ∷ xs) a (suc i) v (suc j) h e =
    rw (suc_test j i) (get_or-set xs (λ k. a (suc k)) i v j (omega arith) e)

pub same_test : (i : ℕ) → (i == i) ≡ true
same_test i = ground arith

-- The row of the cycle model after a write to one of its own registers.
put_row :
    (gpr : ℕ → Array) (x r v : ℕ) (b : Bool)
    → (b && leb 16 r) ≡ false
    → (if b then put_register gpr x r v else gpr) x ≡ (if b then put (gpr x) r v else gpr x)
put_row gpr x r v false good = refl
put_row gpr x r v true good =
    let low : ltb r 16 ≡ true = ground (arith, good) in rw (low, same_test x) refl

written_file-put :
    (inst res : ℕ) (l : Lane) (a : Array) (i : ℕ)
    → length l.gpr ≡ 16
    → ((i : ℕ) → i < 16 → reg l i ≡ a i)
    → (uses_rd (opcode inst) && leb 16 (rd_of inst)) ≡ false
    → i < 16
    → get_or (set (written_file inst res l) 0 0) i 0
      ≡ put
          (if uses_rd (opcode inst) && not (rd_of inst == 0) then put a (rd_of inst) res else a)
          0
          0
          i
written_file-put inst res l a i size file good h =
    elim (Bool-cases (uses_rd (opcode inst) && not (rd_of inst == 0))) [
      | inr stays ↦ rw stays (get_or-set l.gpr a 0 0 i (omega (arith, size)) (file i h))
      | inl writes ↦ rw writes (
          get_or-set (set l.gpr (rd_of inst) res) (put a (rd_of inst) res) 0 0 i
            (omega (arith, length-set l.gpr (rd_of inst) res, size))
            (get_or-set l.gpr a (rd_of inst) res i (ground (arith, writes, good, size)) (file i h)))
    ]

-- The two ends of an instruction write the same registers.
pub written_file-put_register :
    (inst res : ℕ) (l : Lane) (gpr : ℕ → Array) (x : ℕ)
    → length l.gpr ≡ 16
    → ((i : ℕ) → i < 16 → reg l i ≡ gpr x i)
    → bad_registers inst ≡ false
    → (i : ℕ) → i < 16
    → let rd = rd_of inst in
      let written =
        if uses_rd (opcode inst) && not (rd == 0) then put_register gpr x rd res else gpr in
      get_or (set (written_file inst res l) 0 0) i 0 ≡ put (written x) 0 0 i
unfolding bad_registers
written_file-put_register inst res l gpr x size file good i h =
    let field : (uses_rd (opcode inst) && leb 16 (rd_of inst)) ≡ false = ground (arith, good) in
    let row =
      put_row gpr x (rd_of inst) res (uses_rd (opcode inst) && not (rd_of inst == 0))
        (ground (arith, field)) in
    written_file-put inst res l (gpr x) i size file field h
    ∙ ap (λ (a : Array). put a 0 0 i) (sym row)

-- A register number below 16 is its own low four bits.
pub low_register : (i : ℕ) → i < 16 → bit_and i 15 ≡ i
low_register i h = bit_and-mask 0 4 i h
