-- ===== src/Runtime/Transfer/Loading.antt =====
-- The loading of kernels, from memory and from a file.
use open_gpu.Prelude.{
  ℕ, ◌+◌, ◌-◌, ◌≤◌, ◌<◌, ◌≡◌, ◌≢◌, refl, sym, ◌∙◌, ◌⊎◌, inl, inr, Bool, true, false, not, Option,
  none, some, ◌∷◌, arith, ltb, leb, Bool-cases, Option-cases, if◌then◌else◌, ◌&&◌, ◌==◌,
}
use open_gpu.Prelude.Word.{add32}
use open_gpu.Config.{Config, IsSupported, kernel_base, kernel_end}
use open_gpu.Memory.{Bytes, copy_into, guest_to_host, put_bytes}
use open_gpu.Runtime.Types.{
  Result, success, invalid_argument, out_of_memory, io, Handle, Kernel, Core, valid_device,
}
use open_gpu.Runtime.Transfer.{raw_write, install, kernel_load_memory, File, kernel_load_file}

-- The size of the kernel area.
abbrev pub kernel_room : ℕ
kernel_room = kernel_end - kernel_base

-- The byte at an offset after an image of `size` bytes is loaded: the image, zeros up to the end of
-- the kernel area, and what stood there outside the area.
abbrev pub loaded_byte : Config → Bytes → Bytes → ℕ → ℕ → ℕ
loaded_byte c m image size a =
    let base = kernel_base - c.mbase in
    if leb base a && ltb a (base + size)
    then image (a - base)
    else if leb base a && ltb a (base + kernel_room)
    then 0
    else m a

-- The globals after the load of `k`.
abbrev pub with_kernel : Core → Kernel → Bytes → Core
with_kernel s k m = record s {
  device = record s.device { kernel_generation = k.generation; kernels = k ∷ s.device.kernels };
  pmem = some m;
}

module _ (c : Config) (sup : IsSupported c) where
  put_bytes_kernel :
      (m src : Bytes) (n : ℕ)
      → n ≤ kernel_room
      → (guest_to_host c kernel_base ≡ some (kernel_base - c.mbase))
        × (put_bytes c (some m) (kernel_base - c.mbase) n src
            ≡ some (some (copy_into m (kernel_base - c.mbase) n src)))
  unfolding guest_to_host put_bytes
  put_bytes_kernel m src n h = ground (arith, sup)

  -- On a valid handle, with the out pointer given and host memory for the kernel object, and with
  -- the device memory allocated, `gpu_kernel_load_memory` of an image of 1 to 65536 bytes succeeds.
  -- The kernel returned starts at the kernel area, carries the next generation, which becomes the device's, and heads the
  -- device's list. The area holds the image and then zeros, and no other byte changes.
  pub kernel_load_memory_lem :
      (s : Core) (h : Handle) (m image : Bytes) (size : ℕ)
      → s.pmem ≡ some m
      → valid_device s h ≡ true
      → 0 < size
      → size ≤ kernel_room
      → let k : Kernel = record {
        device = h;
        entry = kernel_base;
        generation = add32 s.device.kernel_generation 1;
      } in
        (m' : Bytes) × (kernel_load_memory c s h (some image) size true true
          ≡ some (with_kernel s k m', success, some k))
        × ((a : ℕ) → m' a ≡ loaded_byte c m image size a)
  unfolding kernel_load_memory install raw_write
  kernel_load_memory_lem s h m image size mapped valid pos fits =
      let base = kernel_base - c.mbase in
      let zeros : Bytes = copy_into m base kernel_room (λ _. 0) in
      let (there, cleared) = put_bytes_kernel m (λ _. 0) kernel_room (omega arith) in
      let (_, filled) = put_bytes_kernel zeros image size fits in
      (
        copy_into zeros base size image,
        ground (arith, mapped, valid, pos, fits, there, cleared, filled),
        λ a. ground arith,
      )

-- A load from memory with an invalid handle, a NULL pointer, an empty or too large image, or no host
-- memory for the kernel returns an error and changes nothing.
pub kernel_load_memory_refused :
    (c : Config) (s : Core) (h : Handle) (image : Option Bytes) (size : ℕ) (given allocated : Bool)
    → (valid_device s h ≡ false)
      ⊎ (image ≡ none)
      ⊎ (given ≡ false)
      ⊎ (size ≡ 0)
      ⊎ (kernel_room < size)
      ⊎ (allocated ≡ false)
    → (e : Result) × (e ≢ success)
      × (kernel_load_memory c s h image size given allocated ≡ some (s, e, none))
unfolding kernel_load_memory
kernel_load_memory_refused c s h none size given allocated bad = (invalid_argument, (λ e. cc), refl)
kernel_load_memory_refused c s h (some image) size given allocated bad =
    elim (Bool-cases (valid_device s h && given && not (size == 0) && leb size kernel_room)) [
      | inl passes ↦ (out_of_memory, (λ e. cc), ground (arith, passes))
      | inr fails ↦ (invalid_argument, (λ e. cc), ground (arith, fails))
    ]

-- Each call of the C library on the file goes well, and the file has `n` bytes.
pub record IsReadable (file : File) (n : ℕ) : Type 0 where
  pub opens : file.opens ≡ true
  pub seeks_end : file.seeks_end ≡ true
  pub length : file.length ≡ some n
  pub pos : 0 < n
  pub seeks_start : file.seeks_start ≡ true
  pub allocates : file.allocates ≡ true
  pub reads : file.reads ≡ true

-- A file that cannot be opened, or whose size cannot be found, or is 0.
unreadable :
    (file : File) (n k : ℕ)
    → file.length ≡ some n
    → (file.opens && file.seeks_end && ltb 0 n && file.seeks_start) ≡ false
    → ¬ IsReadable file k
unreadable file n k long bad r =
    let same : n ≡ k = cc (sym long ∙ r.length) in
    let some_bytes : ltb 0 n ≡ true = ground (arith, same, r.pos) in
    ground (arith, bad, r.opens, r.seeks_end, some_bytes, r.seeks_start)

-- `gpu_kernel_load_file` on a valid handle with both pointers given: if every call of the C library
-- goes well on a file of at least one byte, it does what `gpu_kernel_load_memory` does with the
-- whole content; and if not every call goes well on a file of at least one byte, it returns an error
-- and changes nothing.
pub kernel_load_file_cases :
    (c : Config) (s : Core) (h : Handle) (file : File) (allocated : Bool)
    → valid_device s h ≡ true
    → ((n : ℕ) × IsReadable file n
        × (kernel_load_file c s h true file true allocated
            ≡ kernel_load_memory c s h (some file.content) n true allocated))
      ⊎ (((n : ℕ) → ¬ IsReadable file n)
          × ((e : Result) × (e ≢ success)
              × (kernel_load_file c s h true file true allocated ≡ some (s, e, none))))
unfolding kernel_load_file
kernel_load_file_cases c s h file allocated valid = elim (Option-cases file.length) [
  | inl negative ↦
      inr ((λ n r. cc (sym negative ∙ r.length)), (io, (λ e. cc), ground (arith, valid, negative)))
  | inr (n, long) ↦
      elim (Bool-cases (file.opens && file.seeks_end && ltb 0 n && file.seeks_start)) [
        | inl sought ↦ elim (Bool-cases file.allocates) [
          | inl allocates ↦ elim (Bool-cases file.reads) [
            | inl reads ↦ inl (
              n,
              record {
                opens = ground (arith, sought);
                seeks_end = ground (arith, sought);
                length = long;
                pos = ground (arith, sought);
                seeks_start = ground (arith, sought);
                allocates = allocates;
                reads = reads;
              },
              ground (arith, valid, long, sought, allocates, reads),
            )
            | inr short ↦ inr (
              (λ n r. cc (sym short ∙ r.reads)),
              (io, (λ e. cc), ground (arith, valid, long, sought, allocates, short)),
            )
          ]
          | inr fails ↦ inr (
            (λ n r. cc (sym fails ∙ r.allocates)),
            (out_of_memory, (λ e. cc), ground (arith, valid, long, sought, fails)),
          )
        ]
        | inr unsought ↦ inr (
          (λ k r. unreadable file n k long unsought r),
          (io, (λ e. cc), ground (arith, valid, long, unsought)),
        )
      ]
]
