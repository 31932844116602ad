-- ===== src/Rtl/Dpi/Bounds.antt =====
-- When a call of `gpu_diff_state` is accepted, and that no call touches a place outside the arrays.
use open_gpu.Prelude.{
  ℕ, zero, suc, ◌+◌, ◌-◌, ◌^◌, ◌≤◌, ◌<◌, ◌≡◌, ◌↔◌, refl, sym, ap, ◌∙◌, inl, inr, Bool, true, false,
  not, ◌&&◌, ◌||◌, Option, ltb, leb, ◌==◌, arith, Bool-cases, Option-cases, if◌then◌else◌,
}
use mathlib.Core.Path.{subst}
use open_gpu.Config.{Config}
use open_gpu.Cycle.State.{Array, put, state_words}
use open_gpu.Rtl.Dpi.{
  Dpi, OpenArray, copy_words, copy_elements, mark_valid, deliver, gpu_diff_state,
}
use open_gpu.Rtl.Dpi.Copies.{copy_elements-some, copy_elements-none}
use open_gpu.Rtl.Dpi.Snapshot.{word_of, is_given, if_cases}

-- What the loop over the elements does, whether it comes to its end or not.
record Walks (element : ℕ → Option ℕ) (base left word : ℕ) (dst : Array) (x : Array × Bool)
    : Type 0 where
  outside : (k : ℕ) → base + word + left ≤ k → x.0 k ≡ dst k
  whole : (x.1 ≡ true) ↔ ((j : ℕ) → word ≤ j → j < word + left → is_given (element j) ≡ true)

copy_elements-Walks :
    (element : ℕ → Option ℕ) (base left word : ℕ) (dst : Array)
    → Walks element base left word dst (copy_elements element base left word dst)
unfolding copy_elements
copy_elements-Walks element base zero word dst = record {
  outside = λ k h. refl;
  whole = (λ e j low high. absurd (omega arith), λ h. refl);
}
copy_elements-Walks element base (suc left) word dst = elim (Option-cases (element word)) [
  | inl absent ↦
      subst (Walks element base (suc left) word dst)
        (sym (copy_elements-none element base left word dst absent))
        (record {
          outside = λ k h. refl;
          whole = (
            λ e. absurd (cc e),
            λ h. absurd (cc (sym (h word (omega arith) (omega arith)) ∙ ap is_given absent)),
          );
        })
  | inr (v, there) ↦
      let rest = copy_elements-Walks element base left (word + 1) (put dst (base + word) v) in
      subst (Walks element base (suc left) word dst)
        (sym (copy_elements-some element base left word v dst there))
        (record {
          outside = λ k h.
              let away : (k == base + word) ≡ false = ground (arith, h) in
              rest.outside k (omega (arith, h)) ∙ rw away refl;
          whole = (
            λ e j low high. elim (Bool-cases (j == word)) [
              | inl here ↦
                  let at : j ≡ word = ground (arith, here) in
                  ap (λ (i : ℕ). is_given (element i)) at ∙ ap is_given there
              | inr away ↦ rest.whole.0 e j (ground (arith, away, low)) (omega (arith, high))
            ],
            λ h. rest.whole.1 (λ j low high. h j (omega arith) (omega arith)),
          );
        })
]

-- The array delivers every word.
abbrev IsWhole : OpenArray → Type 0
IsWhole a = (j : ℕ) → j < a.size → is_given (word_of a j) ≡ true

-- What a call leaves.
record Touches (c : Config) (base : ℕ) (a : OpenArray) (d d' : Dpi) : Type 0 where
  failed : (d'.failed ≡ false) ↔ ((d.failed ≡ false) × IsWhole a)
  state : (k : ℕ) → base + a.size ≤ k → d'.state k ≡ d.state k
  valid : (k : ℕ) → base + a.size ≤ k → d'.valid k ≡ d.valid k

outside_valid :
    (base size k : ℕ) (t : Bool) → base + size ≤ k → ((leb base k && ltb k (base + size)) || t) ≡ t
outside_valid base size k t h =
    let out : (leb base k && ltb k (base + size)) ≡ false = ground (arith, h) in rw out refl

outside_state :
    (base size k v w : ℕ)
    → base + size ≤ k
    → (if leb base k && ltb k (base + size) then v else w) ≡ w
outside_state base size k v w h =
    let out : (leb base k && ltb k (base + size)) ≡ false = ground (arith, h) in rw out refl

deliver-Touches :
    (c : Config) (base : ℕ) (a : OpenArray) (d : Dpi) → Touches c base a d (deliver c base a d)
unfolding deliver copy_words mark_valid
deliver-Touches c base a d = elim (Option-cases a.contiguous) [
  | inr (src, there) ↦ rw there (record {
    failed = (λ e. (e, λ j h. refl), λ h. h.0);
    state = λ k h. outside_state base a.size k _ _ h;
    valid = λ k h. outside_valid base a.size k (d.valid k) h;
  })
  | inl absent ↦
      let walks = copy_elements-Walks a.element base a.size 0 d.state in
      elim (Bool-cases (copy_elements a.element base a.size 0 d.state).1) [
        | inl ends ↦
            let all : (j : ℕ) → j < a.size → is_given (a.element j) ≡ true =
              λ j h. walks.whole.0 ends j (omega arith) (omega (arith, h)) in
            rw (absent, ends)
              (record {
                failed = (λ e. (e, all), λ h. h.0);
                state = λ k h. walks.outside k (omega (arith, h));
                valid = λ k h. outside_valid base a.size k (d.valid k) h;
              })
        | inr stops ↦
            let short : ((j : ℕ) → j < a.size → is_given (a.element j) ≡ true)
                → (copy_elements a.element base a.size 0 d.state).1 ≡ true =
              λ h. walks.whole.1 (λ j low high. h j (omega (arith, high))) in
            rw (absent, stops)
              (record {
                failed = (λ e. absurd (cc e), λ h. absurd (cc (sym stops ∙ short h.1)));
                state = λ k h. walks.outside k (omega (arith, h));
                valid = λ k h. refl;
              })
      ]
]

-- A call is accepted if it stays inside the arrays and its own array delivers every word.
pub record IsAccepted (c : Config) (base : ℕ) (a : OpenArray) : Type 0 where
  pub positive : base < 2 ^ 31
  pub inside : base + a.size ≤ state_words c
  pub whole : IsWhole a

-- What a call does, as the two parts of a claim.
abbrev IsBounded : Config → ℕ → OpenArray → Dpi → Dpi → Type 0
IsBounded c base a d d' =
    ((d'.failed ≡ false) ↔ ((d.failed ≡ false) × IsAccepted c base a))
    × ((k : ℕ) → state_words c ≤ k → (d'.state k ≡ d.state k) × (d'.valid k ≡ d.valid k))

refused-IsBounded :
    (c : Config) (base : ℕ) (a : OpenArray) (d : Dpi)
    → (IsAccepted c base a → ⊥)
    → IsBounded c base a d (record d { failed = true })
refused-IsBounded c base a d out =
    ((λ e. absurd (cc e), λ h. absurd (out h.1)), λ k h. (refl, refl))

deliver-IsBounded :
    (c : Config) (base : ℕ) (a : OpenArray) (d : Dpi)
    → base < 2 ^ 31
    → base + a.size ≤ state_words c
    → IsBounded c base a d (deliver c base a d)
deliver-IsBounded c base a d small inside =
    let t = deliver-Touches c base a d in
    (
      (
        λ e.
            let (sound, whole) = t.failed.0 e in
            (sound, record { positive = small; inside = inside; whole = whole }),
        λ h. t.failed.1 (h.0, h.1.whole),
      ),
      λ k h. (t.state k (omega (arith, h, inside)), t.valid k (omega (arith, h, inside))),
    )

-- Any call of `gpu_diff_state` in a differential build, on any state and with any array: the bridge
-- has not failed after it exactly if it had not failed before, the base is not negative, the words
-- fit into the snapshot, and the array delivers each of them; and in every case nothing outside
-- the two arrays of `DIFF_STATE_WORDS` entries changes.
pub gpu_diff_state-IsAccepted :
    (c : Config) (base : ℕ) (a : OpenArray) (d : Dpi)
    → c.difftest ≡ true
    → (((gpu_diff_state c base a d).failed ≡ false) ↔ ((d.failed ≡ false) × IsAccepted c base a))
      × ((k : ℕ)
          → state_words c ≤ k
          → ((gpu_diff_state c base a d).state k ≡ d.state k)
            × ((gpu_diff_state c base a d).valid k ≡ d.valid k))
unfolding gpu_diff_state
gpu_diff_state-IsAccepted c base a d diff =
    let P = IsBounded c base a d in
    let failed = record d { failed = true } in
    let sized = if ltb (state_words c - base) a.size then failed else deliver c base a d in
    if_cases P (not c.difftest) d
      (if leb (2 ^ 31) base || ltb (state_words c) base then failed else sized)
      (λ off. absurd (ground (arith, off, diff)))
      λ on.
        if_cases P (leb (2 ^ 31) base || ltb (state_words c) base) failed sized
          (λ out. refused-IsBounded c base a d (λ h. ground (arith, out, h.positive, h.inside)))
          λ fits.
            if_cases P (ltb (state_words c - base) a.size) failed (deliver c base a d)
              (λ out. refused-IsBounded c base a d (λ h. ground (arith, out, h.inside)))
              λ room.
                deliver-IsBounded c base a d (ground (arith, fits)) (ground (arith, fits, room))
