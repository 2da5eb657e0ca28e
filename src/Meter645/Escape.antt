-- ===== src/Meter645/Escape.antt =====
-- `_ESCAPE_SET`, `_unescape`, and the byte that `build_frame_escaped` writes.
use zzt_self.Base.{
  ℕ, true, false, [], ◌∷◌, ◌++◌, ◌≡◌, ◌≢◌, refl, arith, ◌==◌, if◌then◌else◌, mem, Bytes, All,
}

abbrev pub escape_set : Bytes
escape_set = 0x68 ∷ 0x1B ∷ 0x16 ∷ []

unfoldable pub unescape : Bytes → Bytes
unescape [] = []
unescape (b ∷ []) = b ∷ []
unescape (b ∷ c ∷ r) = elim (b == 0x1B) [ true ↦ c ∷ unescape r | false ↦ b ∷ unescape (c ∷ r) ]

-- One byte of the loop of `build_frame_escaped`.
unfoldable pub escape_byte : ℕ → Bytes
escape_byte b = if mem b escape_set then 0x1B ∷ b ∷ [] else b ∷ []

unfoldable pub escape : Bytes → Bytes
unfolding escape_byte
escape [] = []
escape (b ∷ bs) = escape_byte b ++ escape bs

-- No byte of a run is the escape mark.
abbrev pub NoMark : Bytes → Type 0
NoMark = All (λ b. b ≢ 0x1B)

pub unescape-cons : (b : ℕ) (r : Bytes) → b ≢ 0x1B → unescape (b ∷ r) ≡ b ∷ unescape r
unfolding unescape
unescape-cons b [] h = refl
unescape-cons b (c ∷ r) h = ground arith
