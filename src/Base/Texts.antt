-- ===== src/Base/Texts.antt =====
-- Tests on texts, and the decimal form of a number as `str` and f-strings write it.
use Prim.Native.Nat.{ℕ, zero, suc, ◌/◌, ◌%◌}
use Prim.Native.String.{String, slice, ◌++◌}
use text.Mathlib.Text
use text.Mathlib.TextEquality.{eq_iff}
use mathlib.Core.Path.{◌≡◌, refl}
use mathlib.Core.Logic.{◌↔◌}
use mathlib.Core.Bool.{Bool, true, false, ◌||◌}
use mathlib.Core.List.{List, [], ◌∷◌}
use mathlib.Core.Option.{Option, none, some}
use zzt_self.Base.Tests.{ltb, if◌then◌else◌}

abbrev pub same_text : String → String → Bool
same_text s t = Text.◌==◌ s t

pub same_text_iff : (s t : String) → (same_text s t ≡ true) ↔ (s ≡ t)
same_text_iff s t = eq_iff s t

-- `a or b` on texts.
abbrev pub text_or : String → String → String
text_or s t = if same_text s "" then t else s

-- `d.get(key) == text`, where the key may be missing.
abbrev pub is_text : Option String → String → Bool
is_text none t = false
is_text (some s) t = same_text s t

abbrev pub digit : ℕ → String
digit d = slice "0123456789" d (suc d)

-- The digits on fuel, one for each division by ten.
unfoldable pub digits : ℕ → ℕ → String
digits zero n = digit (n % 10)
digits (suc fuel) n =
    let rest = digits fuel (n / 10) in if ltb n 10 then digit n else rest ++ digit (n % 10)

abbrev pub decimal : ℕ → String
decimal n = digits n n

-- `s in ts`
abbrev pub has_text : String → List String → Bool
has_text s [] = false
has_text s (t ∷ ts) = same_text t s || has_text s ts

abbrev pub join : String → String → String
join s t = s ++ t

-- f"{s}{n}"
abbrev pub numbered : String → ℕ → String
numbered s n = s ++ decimal n

thirty_seven : decimal 37 ≡ "37"
unfolding digits
thirty_seven = refl
