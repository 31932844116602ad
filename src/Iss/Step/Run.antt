-- ===== src/Iss/Step/Run.antt =====
-- Runs of the simulator: the lanes keep their places, their register files and their identity.
use open_gpu.Prelude.{
  ℕ, zero, suc, ◌≡◌, refl, ap, ◌∙◌, ◌⊎◌, inl, inr, Bool, Option, none, some, List, [], ◌∷◌, length,
  get_elem?, set, length-set, All, All-set, All-get_elem?, arith, Bool-cases, Option-cases,
}
use open_gpu.Prelude.Chain.{After, After-bind, After-map, After-some}
use open_gpu.Config.{Config}
use open_gpu.Backend.{World}
use open_gpu.Iss.State.{Lane, Iss, ncores}
use open_gpu.Iss.Step.{step_core, iss_done, scan, step_found, iss_step, iss_run}
use open_gpu.Iss.Step.Zero.{
  IsFile, SameIdentity, Replaces, same_identity, step_core-Replaces, scan-found,
}

-- Every lane of `s'` stands where a lane of `s` of the same identity stands.
pub record Keeps (s s' : Iss) : Type 0 where
  pub count : ncores s' ≡ ncores s
  pub files : All IsFile s'.cores
  pub identity :
      (j : ℕ) (l l' : Lane)
      → get_elem? s.cores j ≡ some l
      → get_elem? s'.cores j ≡ some l'
      → SameIdentity l l'

-- What stands in a list after one write is what was written there, or what stood there.
written_or_old :
    (xs : List Lane) (i j : ℕ) (v x y : Lane)
    → get_elem? xs j ≡ some x
    → get_elem? (set xs i v) j ≡ some y
    → ((i ≡ j) × (y ≡ v)) ⊎ (y ≡ x)
written_or_old [] i j v x y e e' = cc
written_or_old (z ∷ xs) zero zero v x y e e' = inl (refl, cc)
written_or_old (z ∷ xs) zero (suc j) v x y e e' = inr (cc)
written_or_old (z ∷ xs) (suc i) zero v x y e e' = inr (cc)
written_or_old (z ∷ xs) (suc i) (suc j) v x y e e' = elim (written_or_old xs i j v x y e e') [
  | inl (at, same) ↦ inl (ap suc at, same)
  | inr same ↦ inr same
]

Replaces-Keeps :
    (s s' : Iss) (i : ℕ) (l : Lane)
    → All IsFile s.cores
    → get_elem? s.cores i ≡ some l
    → Replaces s i l s'
    → Keeps s s'
Replaces-Keeps s s' i l files there (l', f, same, e) = record {
  count = rw e (length-set s.cores i l');
  files = rw e (All-set IsFile s.cores i l' files f);
  identity = λ j m m' em em'. elim (written_or_old s.cores i j l' m m' em (rw e at em')) [
    | inl (here, written) ↦ let old : l ≡ m = cc (there, here) in rw (written, ← old) same
    | inr stays ↦ rw stays (same_identity m m.gpr m.pc m.halted)
  ];
}

Keeps-refl : (s : Iss) → All IsFile s.cores → Keeps s s
Keeps-refl s files = record {
  count = refl;
  files = files;
  identity =
      λ j l l' e e'. let same : l ≡ l' = cc in rw (← same) (same_identity l l.gpr l.pc l.halted);
}

step_found-Keeps :
    (c : Config) (s : Iss) (w : World) (o : Option (ℕ × Lane))
    → All IsFile s.cores
    → ((i : ℕ) (l : Lane) → o ≡ some (i, l) → get_elem? s.cores i ≡ some l)
    → After (λ (x : Iss × World × Bool). Keeps s x.0) (step_found c s w o)
unfolding step_found
step_found-Keeps c s w none files at = Keeps-refl s files
step_found-Keeps c s w (some (i, l)) files at =
    let there = at i l refl in
    After-bind (λ (x : Iss × World × Bool). Keeps s x.0) (step_core c s w i l) _
      λ (s', w') e.
        let f = All-get_elem? IsFile s.cores i files there in
        let replaces =
          After-some (λ (x : Iss × World). Replaces s i l x.0) (step_core c s w i l) (s', w')
            (step_core-Replaces c s w i l f) e in
        Replaces-Keeps s s' i l files there replaces

iss_step-Keeps :
    (c : Config) (s : Iss) (w : World)
    → All IsFile s.cores
    → After (λ (x : Iss × World × Bool). Keeps s x.0) (iss_step c s w)
unfolding iss_step
iss_step-Keeps c s w files = elim (Bool-cases (iss_done s)) [
  | inl done ↦ rw done (Keeps-refl s files)
  | inr going ↦
      let (found, rr) = scan (ncores s) s.cores s.rr in
      rw going (
        weaken _ (
          step_found-Keeps c (record s { rr = rr }) w found files
            (λ i l e. (scan-found (ncores s) s.cores s.rr i l e).0)))
]
  where
    weaken :
        (o : Option (Iss × World × Bool))
        → After
            (λ (x : Iss × World × Bool).
              Keeps (record s { rr = (scan (ncores s) s.cores s.rr).1 }) x.0)
            o
        → After (λ (x : Iss × World × Bool). Keeps s x.0) o
    weaken o =
        After-map
          (λ (x : Iss × World × Bool).
            Keeps (record s { rr = (scan (ncores s) s.cores s.rr).1 }) x.0)
          (λ (x : Iss × World × Bool). Keeps s x.0) o
          (λ x k. record { count = k.count; files = k.files; identity = k.identity })

-- Lists of one length have their places in common.
same_places :
    (xs ys : List Lane) (j : ℕ) (x : Lane)
    → length ys ≡ length xs
    → get_elem? xs j ≡ some x
    → (y : Lane) × (get_elem? ys j ≡ some y)
same_places [] ys j x n e = cc
same_places (z ∷ xs) [] j x n e = absurd (omega arith)
same_places (z ∷ xs) (y ∷ ys) zero x n e = (y, refl)
same_places (z ∷ xs) (y ∷ ys) (suc j) x n e = same_places xs ys j x (omega arith) e

SameIdentity-trans : {a b d : Lane} → SameIdentity a b → SameIdentity b d → SameIdentity a d
SameIdentity-trans p q = record {
  hart = q.hart ∙ p.hart;
  physical = q.physical ∙ p.physical;
  args = q.args ∙ p.args;
  thread = q.thread ∙ p.thread;
  block = q.block ∙ p.block;
  block_size = q.block_size ∙ p.block_size;
  grid_size = q.grid_size ∙ p.grid_size;
  warp = q.warp ∙ p.warp;
  lane = q.lane ∙ p.lane;
}

Keeps-trans : (s s' s'' : Iss) → Keeps s s' → Keeps s' s'' → Keeps s s''
Keeps-trans s s' s'' p q = record {
  count = q.count ∙ p.count;
  files = q.files;
  identity = λ j l l'' e e''.
      let (l', e') = same_places s.cores s'.cores j l p.count e in
      SameIdentity-trans (p.identity j l l' e e') (q.identity j l' l'' e' e'');
}

-- A run of the simulator, of any number of steps and whatever the kernel does: the number of lanes
-- stays, every lane has 16 registers of which x0 is zero, and every lane keeps its hart number, its
-- coordinates, its dimensions, and its core, warp and lane numbers.
pub iss_run-Keeps :
    (steps : ℕ) (c : Config) (s s' : Iss) (w w' : World)
    → All IsFile s.cores
    → iss_run steps c s w ≡ some (s', w')
    → Keeps s s'
unfolding iss_run
iss_run-Keeps zero c s s' w w' files e = let same : s ≡ s' = cc in rw (← same) (Keeps-refl s files)
iss_run-Keeps (suc steps) c s s' w w' files e = elim (Bool-cases (iss_done s)) [
  | inl done ↦ let same : s ≡ s' = ground (arith, done, e) in rw (← same) (Keeps-refl s files)
  | inr going ↦ elim (Option-cases (iss_step c s w)) [
    | inl stuck ↦ absurd (ground (arith, going, stuck, e))
    | inr ((t, v, moved), stepped) ↦
        let first =
          After-some (λ (x : Iss × World × Bool). Keeps s x.0) (iss_step c s w) (t, v, moved)
            (iss_step-Keeps c s w files) stepped in
        let rest : iss_run steps c t v ≡ some (s', w') = ground (arith, going, stepped, e) in
        Keeps-trans s t s' first (iss_run-Keeps steps c t s' v w' first.files rest)
  ]
]
