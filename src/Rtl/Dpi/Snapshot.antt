-- ===== src/Rtl/Dpi/Snapshot.antt =====
-- The snapshot that the calls of `gpu_diff_state` add up to.
use open_gpu.Prelude.{
  ℕ, zero, suc, ◌+◌, ◌-◌, ◌^◌, ◌≤◌, ◌<◌, ◌≡◌, ◌⊎◌, ◌↔◌, refl, sym, ap, ◌∙◌, inl, inr, Bool, true,
  false, not, ◌&&◌, ◌||◌, Option, none, some, List, [], ◌∷◌, ltb, leb, ◌==◌, arith, Bool-cases,
  Option-cases, if◌then◌else◌,
}
use open_gpu.Config.{Config}
use open_gpu.Cycle.State.{state_words}
use open_gpu.Rtl.Dpi.{
  Dpi, OpenArray, diff_clear, copy_words, copy_elements, all_valid, mark_valid, deliver,
  gpu_diff_state,
}
use open_gpu.Rtl.Dpi.Copies.{copy_elements-Copies}

-- The word that an array delivers at an index, if it delivers one.
abbrev pub word_of : OpenArray → ℕ → Option ℕ
word_of a j = elim a.contiguous [ some src ↦ some (src j) | none ↦ a.element j ]

abbrev pub covered : ℕ → ℕ → ℕ → Bool
covered base size k = leb base k && ltb k (base + size)

-- The last word given for each place, by calls in their order, after the words given before.
abbrev pub latest : List (ℕ × OpenArray) → (ℕ → Option ℕ) → ℕ → Option ℕ
latest [] given k = given k
latest ((base, a) ∷ calls) given k =
    latest calls (λ j. if covered base a.size j then word_of a (j - base) else given j) k

abbrev pub publish_all : Config → List (ℕ × OpenArray) → Dpi → Dpi
publish_all c [] d = d
publish_all c ((base, a) ∷ calls) d = publish_all c calls (gpu_diff_state c base a d)

abbrev pub is_given : Option ℕ → Bool
is_given none = false
is_given (some v) = true

-- The statics hold exactly the words given.
pub record Shows (given : ℕ → Option ℕ) (d : Dpi) : Type 0 where
  pub valid : (k : ℕ) → d.valid k ≡ is_given (given k)
  pub word : (k v : ℕ) → given k ≡ some v → d.state k ≡ v

-- A call that is accepted.
record Gives (c : Config) (base : ℕ) (a : OpenArray) (d d' : Dpi) : Type 0 where
  unfailed : d'.failed ≡ d.failed
  word : (k : ℕ) → covered base a.size k ≡ true → word_of a (k - base) ≡ some (d'.state k)
  other : (k : ℕ) → covered base a.size k ≡ false → d'.state k ≡ d.state k
  valid : (k : ℕ) → d'.valid k ≡ (covered base a.size k || d.valid k)
  seen : d'.seen ≡ all_valid d'.valid (state_words c) 0

-- A call fails, or is accepted.
abbrev Outcome : Config → ℕ → OpenArray → Dpi → Dpi → Type 0
Outcome c base a d d' = (d'.failed ≡ true) ⊎ Gives c base a d d'

deliver-Outcome :
    (c : Config) (base : ℕ) (a : OpenArray) (d : Dpi) → Outcome c base a d (deliver c base a d)
unfolding deliver copy_words mark_valid
deliver-Outcome c base a d = elim (Option-cases a.contiguous) [
  | inr (src, there) ↦ rw there (
      inr (record {
        unfailed = refl;
        word = λ k hit. rw hit refl;
        other = λ k miss. rw miss refl;
        valid = λ k. refl;
        seen = refl;
      }))
  | inl absent ↦ elim (Bool-cases (copy_elements a.element base a.size 0 d.state).1) [
    | inr stops ↦ rw (absent, stops) (inl refl)
    | inl ends ↦
        let copies = copy_elements-Copies a.element base a.size 0 d.state ends in
        rw (absent, ends)
          (inr (record {
            unfailed = refl;
            word = λ k hit. (copies k).0 (ground (arith, hit)) (ground (arith, hit));
            other = λ k miss. (copies k).1 (ground (arith, miss));
            valid = λ k. refl;
            seen = refl;
          }))
  ]
]

pub if_cases {ℓ κ} :
    {A : Type ℓ} (P : A → Type κ) (t : Bool) (x y : A)
    → (t ≡ true → P x)
    → (t ≡ false → P y)
    → P (if t then x else y)
if_cases P true x y f g = f refl
if_cases P false x y f g = g refl

gpu_diff_state-Outcome :
    (c : Config) (base : ℕ) (a : OpenArray) (d : Dpi)
    → c.difftest ≡ true
    → Outcome c base a d (gpu_diff_state c base a d)
unfolding gpu_diff_state
gpu_diff_state-Outcome c base a d diff =
    let P = Outcome c base a d in
    let failed = record d { failed = true } in
    let sized = if ltb (state_words c - base) a.size then failed else deliver c base a d in
    if_cases P (not c.difftest) d
      (if leb (2 ^ 31) base || ltb (state_words c) base then failed else sized)
      (λ off. absurd (ground (arith, off, diff)))
      λ on.
        if_cases P (leb (2 ^ 31) base || ltb (state_words c) base) failed sized (λ _. inl refl)
          λ _.
            if_cases P (ltb (state_words c - base) a.size) failed (deliver c base a d)
              (λ _. inl refl) λ _. deliver-Outcome c base a d

abbrev next_given : ℕ → OpenArray → (ℕ → Option ℕ) → ℕ → Option ℕ
next_given base a given k = if covered base a.size k then word_of a (k - base) else given k

Gives-Shows :
    (c : Config) (base : ℕ) (a : OpenArray) (d d' : Dpi) (given : ℕ → Option ℕ)
    → Gives c base a d d'
    → Shows given d
    → Shows (next_given base a given) d'
Gives-Shows c base a d d' given g h = record {
  valid = λ k. elim (Bool-cases (covered base a.size k)) [
    | inl hit ↦
        let there : next_given base a given k ≡ some (d'.state k) = rw hit (g.word k hit) in
        let now : d'.valid k ≡ true = g.valid k ∙ ap (λ (t : Bool). t || d.valid k) hit in
        now ∙ ap is_given (sym there)
    | inr miss ↦
        let same : next_given base a given k ≡ given k = rw miss refl in
        g.valid k ∙ ap (λ (t : Bool). t || d.valid k) miss ∙ h.valid k ∙ ap is_given (sym same)
  ];
  word = λ k v. elim (Bool-cases (covered base a.size k)) [
    | inl hit ↦ rw hit (λ e. cc (sym (g.word k hit) ∙ e))
    | inr miss ↦ rw miss (λ e. g.other k miss ∙ h.word k v e)
  ];
}

-- What a run of calls leaves, if none fails.
record Snapshot (c : Config) (given : ℕ → Option ℕ) (d : Dpi) : Type 0 where
  shows : Shows given d
  seen : d.seen ≡ all_valid d.valid (state_words c) 0

publish_all-failed :
    (c : Config) (calls : List (ℕ × OpenArray)) (d : Dpi)
    → c.difftest ≡ true
    → d.failed ≡ true
    → (publish_all c calls d).failed ≡ true
publish_all-failed c [] d diff h = h
publish_all-failed c ((base, a) ∷ calls) d diff h =
    publish_all-failed c calls (gpu_diff_state c base a d) diff
      (elim (gpu_diff_state-Outcome c base a d diff) [
        | inl failed ↦ failed
        | inr g ↦ g.unfailed ∙ h
      ])

publish_all-Snapshot :
    (c : Config) (calls : List (ℕ × OpenArray)) (d : Dpi) (given : ℕ → Option ℕ)
    → c.difftest ≡ true
    → Snapshot c given d
    → (publish_all c calls d).failed ≡ false
    → Snapshot c (latest calls given) (publish_all c calls d)
publish_all-Snapshot c [] d given diff h fine = h
publish_all-Snapshot c ((base, a) ∷ calls) d given diff h fine =
    let d' = gpu_diff_state c base a d in
    elim (gpu_diff_state-Outcome c base a d diff) [
      | inl failed ↦ absurd (cc (sym fine ∙ publish_all-failed c calls d' diff failed))
      | inr g ↦
          publish_all-Snapshot c calls d' (next_given base a given) diff
            (record { shows = Gives-Shows c base a d d' given g h.shows; seen = g.seen }) fine
    ]

all_valid_iff :
    (valid : ℕ → Bool) (left word : ℕ)
    → (all_valid valid left word ≡ true) ↔ ((k : ℕ) → word ≤ k → k < word + left → valid k ≡ true)
unfolding all_valid
all_valid_iff valid zero word = (λ e k low high. absurd (omega arith), λ h. refl)
all_valid_iff valid (suc left) word = (
  λ e k low high. elim (Bool-cases (k == word)) [
    | inl here ↦ let at : k ≡ word = ground (arith, here) in rw at (ground (arith, e))
    | inr away ↦
        (all_valid_iff valid left (word + 1)).0 (ground (arith, e)) k (ground (arith, away, low))
          (omega arith)
  ],
  λ h.
      let head = h word (omega arith) (omega arith) in
      let tail =
        (all_valid_iff valid left (word + 1)).1 (λ k low high. h k (omega arith) (omega arith)) in
      ground (arith, head, tail),
)

all_valid-none : (n : ℕ) → 0 < n → all_valid (λ _. false) n 0 ≡ false
unfolding all_valid
all_valid-none zero h = absurd (omega arith)
all_valid-none (suc n) h = refl

clear-Snapshot : (c : Config) → Snapshot c (λ _. none) diff_clear
unfolding diff_clear
clear-Snapshot c = record {
  shows = record { valid = λ k. refl; word = λ k v e. absurd (cc e) };
  seen = sym (all_valid-none (state_words c) (omega arith));
}

-- From `dpi_diff_reset` on, and for any calls of `gpu_diff_state` of a differential build, in any
-- order and of which none fails: a place is marked valid exactly if a call has given it a word,
-- and holds the last word given for it; and the snapshot counts as seen exactly if every place
-- has been given a word.
pub gpu_diff_state_latest :
    (c : Config) (calls : List (ℕ × OpenArray))
    → c.difftest ≡ true
    → (publish_all c calls diff_clear).failed ≡ false
    → Shows (latest calls (λ _. none)) (publish_all c calls diff_clear)
      × (((publish_all c calls diff_clear).seen ≡ true)
          ↔ ((k : ℕ) → k < state_words c → is_given (latest calls (λ _. none) k) ≡ true))
gpu_diff_state_latest c calls diff fine =
    let d = publish_all c calls diff_clear in
    let h = publish_all-Snapshot c calls diff_clear (λ _. none) diff (clear-Snapshot c) fine in
    let (sound, whole) = all_valid_iff d.valid (state_words c) 0 in
    (
      h.shows,
      (
        λ e k small.
            sym (h.shows.valid k) ∙ sound (sym h.seen ∙ e) k (omega arith) (omega (arith, small)),
        λ every. h.seen ∙ whole (λ k low high. h.shows.valid k ∙ every k (omega (arith, high))),
      ),
    )
