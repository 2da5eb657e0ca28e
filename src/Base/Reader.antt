-- ===== src/Base/Reader.antt =====
-- Reading from the front of a byte sequence: a fallible step that returns what is left.
-- `none` stands for an early `return None` and for an `IndexError` that the caller catches.
use Prim.Native.Nat.{ℕ, zero, suc, ◌≤◌}
use mathlib.Core.Path.{◌≡◌, refl, ◌∙◌}
use mathlib.Core.Bool.{Bool, true, false}
use mathlib.Core.List.{List, [], ◌∷◌}
use mathlib.Core.Option.{Option, none, some}
use native.Mathlib.Omega.{arith}
use zzt_self.Base.Lists.{Bytes, length}

abbrev pub Reader : Type 0 → Type 0
Reader A = Bytes → Option (A × Bytes)

infixl 5 ◌>>=◌ ◌>>◌
abbrev pub ◌>>=◌ : {A B : Type 0} → Reader A → (A → Reader B) → Reader B
◌>>=◌ m f s = elim (m s) [ none ↦ none | some (a, r) ↦ f a r ]

abbrev pub ◌>>◌ : {A B : Type 0} → Reader A → Reader B → Reader B
m >> k = m >>= λ _. k

abbrev pub pure : {A : Type 0} → A → Reader A
pure a s = some (a, s)

abbrev pub require : Bool → Reader (Unit {0})
require true s = some (tt, s)
require false s = none

-- `[step() for _ in range(n)]`
unfoldable pub repeat : {A : Type 0} → Reader A → ℕ → Reader (List A)
repeat step zero = pure []
repeat step (suc n) = do a ← step; rest ← repeat step n; pure (a ∷ rest)

-- A reader never lengthens what is left.
abbrev pub Keeps : {A : Type 0} → Reader A → Type 0
Keeps {A} m = (s r : Bytes) (a : A) → m s ≡ some (a, r) → length r ≤ length s

module _ {A B : Type 0} where
  -- Inversion of a bind that succeeds.
  pub >>=-eq-some :
      (m : Reader A) (f : A → Reader B) (s t : Bytes) (b : B)
      → (m >>= f) s ≡ some (b, t)
      → (a : A) × (r : Bytes) × (m s ≡ some (a, r)) × (f a r ≡ some (b, t))
  >>=-eq-some m f s t b h = split (m s) refl h
    where
      split :
          (o : Option (A × Bytes))
          → m s ≡ o
          → elim o [ none ↦ none | some (a, r) ↦ f a r ] ≡ some (b, t)
          → (a : A) × (r : Bytes) × (m s ≡ some (a, r)) × (f a r ≡ some (b, t))
      split none e k = cc
      split (some (a, r)) e k = (a, r, e, k)

  pub Keeps-bind :
      (m : Reader A) (f : A → Reader B) → Keeps m → ((a : A) → Keeps (f a)) → Keeps (m >>= f)
  Keeps-bind m f km kf s t b h =
      let (a, r, first, later) = >>=-eq-some m f s t b h in
      omega (arith, km s r a first, kf a r t b later)

pub Keeps-pure : {A : Type 0} (a : A) → Keeps (pure a)
Keeps-pure a s r b h = ground arith

pub Keeps-require : (c : Bool) → Keeps (require c)
Keeps-require true s r a h = ground arith
Keeps-require false s r a h = cc

pub Keeps-repeat : {A : Type 0} (m : Reader A) (n : ℕ) → Keeps m → Keeps (repeat m n)
unfolding repeat
Keeps-repeat m zero k = Keeps-pure []
Keeps-repeat m (suc n) k =
    Keeps-bind m _ k
      (λ a. Keeps-bind (repeat m n) _ (Keeps-repeat m n k) (λ rest. Keeps-pure (a ∷ rest)))

-- A bind whose first step succeeds.
pub >>=-some :
    {A B : Type 0} (m : Reader A) (f : A → Reader B) {s r : Bytes} {a : A}
    → m s ≡ some (a, r)
    → (m >>= f) s ≡ f a r
>>=-some m f e = rw (e, ◌>>=◌)

pub repeat-suc :
    {A : Type 0} (m : Reader A) (n : ℕ) {s r t : Bytes} {a : A} {rest : List A}
    → m s ≡ some (a, r)
    → repeat m n r ≡ some (rest, t)
    → repeat m (suc n) s ≡ some (a ∷ rest, t)
unfolding repeat
repeat-suc m n e k = >>=-some m _ e ∙ >>=-some (repeat m n) _ k

pub require-true : (c : Bool) (s : Bytes) → c ≡ true → require c s ≡ some (tt, s)
require-true true s h = refl
require-true false s h = cc
