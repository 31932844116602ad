-- ===== src/Prelude/Chain.antt =====
-- Postconditions of chains of optional results: what holds of the value, if there is one.
use open_gpu.Prelude.{◌≡◌, refl, Bool, true, false, Option, none, some, ◌>>=◌, if◌then◌else◌}

-- What holds of the value, if there is one.
abbrev pub After {ℓ κ} : {A : Type ℓ} → (A → Type κ) → Option A → Type κ
After P none = Unit
After P (some a) = P a

pub After-bind {ℓ κ μ} :
    {A : Type ℓ} {B : Type κ} (P : B → Type μ) (m : Option A) (f : A → Option B)
    → ((a : A) → m ≡ some a → After P (f a))
    → After P (m >>= f)
After-bind P none f h = tt
After-bind P (some a) f h = h a refl

pub After-map {ℓ κ μ} :
    {A : Type ℓ} (P : A → Type κ) (Q : A → Type μ) (m : Option A)
    → ((a : A) → P a → Q a)
    → After P m
    → After Q m
After-map P Q none f p = tt
After-map P Q (some a) f p = f a p

pub After-some {ℓ κ} :
    {A : Type ℓ} (P : A → Type κ) (m : Option A) (a : A) → After P m → m ≡ some a → P a
After-some P none a p e = cc
After-some P (some b) a p e = let same : b ≡ a = cc in rw (← same) p

pub After-else {ℓ κ} :
    {A : Type ℓ} (P : A → Type κ) (t : Bool) (m m' : Option A)
    → t ≡ false
    → After P m'
    → After P (if t then m else m')
After-else P true m m' e h = cc
After-else P false m m' e h = h

pub After-cases {ℓ κ} :
    {A : Type ℓ} (P : A → Type κ) (t : Bool) (m m' : Option A)
    → (t ≡ true → After P m)
    → (t ≡ false → After P m')
    → After P (elim t [ true ↦ m | false ↦ m' ])
After-cases P true m m' f g = f refl
After-cases P false m m' f g = g refl

pub After-each {ℓ κ} :
    {A : Type ℓ} (P : A → Type κ) (m : Option A) → ((a : A) → m ≡ some a → P a) → After P m
After-each P none h = tt
After-each P (some a) h = h a refl

-- A chain whose first part is known.
pub After-then {ℓ κ μ ν} :
    {A : Type ℓ} {B : Type κ} (P : A → Type μ) (Q : B → Type ν) (m : Option A) (f : A → Option B)
    → After P m
    → ((a : A) → P a → After Q (f a))
    → After Q (m >>= f)
After-then P Q none f p h = tt
After-then P Q (some a) f p h = h a p
