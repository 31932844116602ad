-- ===== src/Runtime/Alloc/Release.antt =====
-- `gpu_mem_free`: which block it releases, and that it undoes an allocation.
use open_gpu.Prelude.{
  ℕ, zero, suc, ◌<◌, ◌≡◌, ◌≢◌, ◌↔◌, refl, ◌⊎◌, inl, inr, true, false, none, some, List, [], ◌∷◌,
  get_elem?, set, length-set, All, All-set, All-map, All-get_elem?, arith, Option-cases, Bool-cases,
  ◌==◌, ◌&&◌,
}
use open_gpu.Config.{Config}
use open_gpu.Runtime.Types.{success, invalid_argument, Handle, Allocation, Core, valid_device}
use open_gpu.Runtime.Alloc.{heap_end, release, released, mem_free}
use open_gpu.Runtime.Alloc.Blocks.{WellPlaced, IsFree, Apart, Disjoint, IsTable}
use open_gpu.Runtime.Alloc.Slots.{IsUnused}
use open_gpu.Runtime.Alloc.Correct.{IsReady, Allocated}

-- The block in slot `i` is in use and starts at the address.
abbrev pub StartsAt : List Allocation → ℕ → ℕ → Allocation → Type 0
StartsAt bs address i a = (get_elem? bs i ≡ some a) × (a.used ≡ true) × (a.address ≡ address)

-- No block in use starts at the address.
abbrev pub NoneAt : List Allocation → ℕ → Type 0
NoneAt bs address = All (λ a. a.used ≡ true → a.address ≢ address) bs

abbrev pub retired : Allocation → Allocation
retired a = record a { used = false }

pub release-none :
    (address : ℕ) (bs : List Allocation) → release address bs ≡ none → NoneAt bs address
unfolding release
release-none address [] e = tt
release-none address (a ∷ bs) e = ground (arith, release-none address bs)

pub release-NoneAt :
    (address : ℕ) (bs : List Allocation) → NoneAt bs address → release address bs ≡ none
unfolding release
release-NoneAt address [] h = refl
release-NoneAt address (a ∷ bs) h = ground (arith, h.0, release-NoneAt address bs h.1)

pub release-some :
    (address : ℕ) (bs bs' : List Allocation)
    → release address bs ≡ some bs'
    → (i : ℕ) × (a : Allocation) × StartsAt bs address i a × (bs' ≡ set bs i (retired a))
unfolding release
release-some address [] bs' e = cc
release-some address (a ∷ bs) bs' e = elim (Bool-cases (a.used && a.address == address)) [
  | inl here ↦ (0, a, (refl, ground arith, ground arith), ground (arith, here))
  | inr past ↦ elim (Option-cases (release address bs)) [
    | inl stop ↦ absurd (ground (arith, past, stop))
    | inr (rest, e') ↦
        let (i, b, starts, same) = release-some address bs rest e' in
        (suc i, b, starts, ground (arith, past, e', same))
  ]
]

-- A block that is not in use is no obstacle, and every other block stays.
retire-IsTable :
    (end : ℕ) (bs : List Allocation) (i : ℕ) (a : Allocation)
    → IsTable end bs
    → IsTable end (set bs i (retired a))
retire-IsTable end bs i a t = record {
  slots = omega (arith, length-set bs i (retired a), t.slots);
  placed = All-set (WellPlaced end) bs i (retired a) t.placed (λ e. cc);
  disjoint = retire-Disjoint bs i t.disjoint;
}
  where
    retire-Disjoint : (cs : List Allocation) (j : ℕ) → Disjoint cs → Disjoint (set cs j (retired a))
    retire-Disjoint [] j d = tt
    retire-Disjoint (b ∷ cs) zero d =
        (All-map (Apart b) (Apart (retired a)) (λ x _. λ _ e. cc) cs d.0, d.1)
    retire-Disjoint (b ∷ cs) (suc j) d =
        (All-set (Apart b) cs j (retired a) d.0 (λ e. cc), retire-Disjoint cs j d.1)

-- Two blocks in use do not start at one address: with one released, none is left there.
retire-NoneAt :
    (end : ℕ) (bs : List Allocation) (address i : ℕ) (a : Allocation)
    → All (WellPlaced end) bs
    → Disjoint bs
    → StartsAt bs address i a
    → NoneAt (set bs i (retired a)) address
retire-NoneAt end [] address i a p d starts = tt
retire-NoneAt end (b ∷ bs) address zero a p d starts =
    let same : b ≡ a = cc in (λ e. cc, others bs p.1 (rw same at d.0))
  where
    others : (cs : List Allocation) → All (WellPlaced end) cs → All (Apart a) cs → NoneAt cs address
    others [] q apart = tt
    others (x ∷ cs) q apart =
        (λ used eq. ground (arith, apart.0, q.0, starts), others cs q.1 apart.1)
retire-NoneAt end (b ∷ bs) address (suc i) a p d starts = (
  λ used eq.
      let apart = All-get_elem? (Apart b) bs i d.0 starts.0 in
      let inside = All-get_elem? (WellPlaced end) bs i p.1 starts.0 starts.1 in
      ground (arith, apart starts.1 used, p.0 used, inside, starts.2),
  retire-NoneAt end bs address i a p.1 d.1 starts,
)

-- `gpu_mem_free` on a valid handle does one of two things. Either a block in use starts at the
-- address: exactly its slot is marked unused and nothing else changes, the table is again in order,
-- and a second release of the address is refused as invalid. Or no block in use starts there, the
-- call is refused as invalid, and nothing changes.
pub mem_free_cases :
    (c : Config) (s : Core) (h : Handle) (address : ℕ)
    → IsReady c s
    → valid_device s h ≡ true
    → ((s' : Core) × (i : ℕ) × (a : Allocation) × (mem_free s h address ≡ (s', success))
        × StartsAt s.device.allocations address i a
        × (s' ≡ record s {
          device = record s.device { allocations = set s.device.allocations i (retired a) };
        })
        × IsReady c s'
        × (mem_free s' h address ≡ (s', invalid_argument)))
      ⊎ ((mem_free s h address ≡ (s, invalid_argument)) × NoneAt s.device.allocations address)
unfolding mem_free released valid_device
mem_free_cases c s h address r valid =
    let bs : List Allocation = s.device.allocations in
    elim (Option-cases (release address bs)) [
      | inl stop ↦ inr (ground (arith, valid, stop), release-none address bs stop)
      | inr (bs', e) ↦
          let (i, a, starts, same) = release-some address bs bs' e in
          let again =
            release-NoneAt address (set bs i (retired a))
              (retire-NoneAt (heap_end c) bs address i a r.table.placed r.table.disjoint starts) in
          let s' : Core = record s {
            device = record s.device { allocations = set bs i (retired a) };
          } in
          inl (
            s',
            i,
            a,
            ground (arith, valid, e, same),
            starts,
            refl,
            record { mapped = r.mapped; table = retire-IsTable (heap_end c) bs i a r.table },
            ground (arith, valid, again),
          )
    ]

-- The release of a block just put into an unused slot finds that slot.
release-set :
    (end : ℕ) (bs : List Allocation) (i n address : ℕ)
    → All (WellPlaced end) bs
    → 0 < n
    → IsFree bs address n
    → IsUnused bs i
    → let block : Allocation = record { address = address; size = n; used = true } in
      release address (set bs i block) ≡ some (set bs i (retired block))
unfolding release
release-set end [] i n address p pos free unused = cc (unused.1)
release-set end (b ∷ bs) zero n address p pos free unused = ground arith
release-set end (b ∷ bs) (suc i) n address p pos free unused =
    ground (arith, p.0, free.0, release-set end bs i n address p.1 pos free.1 unused)

-- An unused slot is no obstacle before an allocation, and none after the release.
IsFree-retire :
    (bs : List Allocation) (i : ℕ) (a : Allocation) (z k : ℕ)
    → IsUnused bs i
    → IsFree (set bs i (retired a)) z k ↔ IsFree bs z k
IsFree-retire [] i a z k unused = ((λ h. h), (λ h. h))
IsFree-retire (b ∷ bs) zero a z k unused =
    let same : b ≡ unused.0 = cc (unused.1) in
    ((λ h. ((λ used. cc (same, unused.2)), h.1)), (λ h. ((λ e. cc), h.1)))
IsFree-retire (b ∷ bs) (suc i) a z k unused =
    let rest = IsFree-retire bs i a z k unused in
    ((λ h. (h.0, rest.0 h.1)), (λ h. (h.0, rest.1 h.1)))

-- A block that has just been allocated can be released, and after that exactly the same ranges are
-- free as before the allocation.
pub mem_free-mem_alloc :
    (c : Config) (s s' : Core) (h : Handle) (n address : ℕ)
    → IsReady c s
    → valid_device s h ≡ true
    → 0 < n
    → Allocated c s s' n address
    → (s'' : Core) × (mem_free s' h address ≡ (s'', success))
      × ((z k : ℕ) → IsFree s''.device.allocations z k ↔ IsFree s.device.allocations z k)
unfolding mem_free released valid_device
mem_free-mem_alloc c s s' h n address r valid pos done =
    let bs : List Allocation = s.device.allocations in
    let block : Allocation = record { address = address; size = n; used = true } in
    let found =
      release-set (heap_end c) bs done.slot n address r.table.placed pos done.free done.unused in
    let s'' : Core = record s' {
      device = record s'.device { allocations = set bs done.slot (retired block) };
    } in
    (
      s'',
      rw done.after (ground (arith, valid, found)),
      λ z k. IsFree-retire bs done.slot block z k done.unused,
    )
