-- ===== src/Meter645/Build.antt =====
-- `build_frame` and `build_frame_escaped`.
use zzt_self.Base.{
  ℕ, ◌-◌, ◌%◌, ◌≤◌, ◌≡◌, ◌&&◌, Option, none, some, [], ◌∷◌, ◌++◌, ltb, leb, if◌then◌else◌, le→leb,
  Bytes, length, take, drop, sum,
}
use zzt_self.Meter645.Escape.{escape}

-- `build_frame`: the logical frame, up to the checksum.
abbrev pub body : Bytes → ℕ → Bytes → Bytes
body addr control domain = 0x68 ∷ (addr ++ (0x68 ∷ control ∷ length domain ∷ domain))

abbrev pub frame : Bytes → ℕ → Bytes → Bytes
frame addr control domain =
    body addr control domain ++ (sum (body addr control domain) % 256 ∷ 0x16 ∷ [])

unfoldable pub build_frame : Bytes → ℕ → Bytes → Option Bytes
build_frame addr control domain =
    if leb control 255 && leb (length domain) 255 then some (frame addr control domain) else none

-- The slices and indices of `build_frame_escaped`: `logical[0]`, `logical[1:7]`, `logical[7]`,
-- `logical[8:-1]` and `logical[-1]`. `none` is the `IndexError` of a frame with no byte 7.
unfoldable pub escape_frame : Bytes → Option Bytes
unfolding escape
escape_frame logical =
    let n = length logical in
    if ltb 7 n
    then some (take 8 logical ++ (escape (drop 8 (take (n - 1) logical)) ++ drop (n - 1) logical))
    else none

unfoldable pub build_frame_escaped : Bytes → ℕ → Bytes → Option Bytes
build_frame_escaped addr control domain = elim (build_frame addr control domain) [
  | none ↦ none
  | some logical ↦ escape_frame logical
]

pub build_frame-eq :
    (addr : Bytes) (control : ℕ) (domain : Bytes)
    → control ≤ 255
    → length domain ≤ 255
    → build_frame addr control domain ≡ some (frame addr control domain)
unfolding build_frame
build_frame-eq addr control domain small fits =
    rw (le→leb control 255 small, le→leb (length domain) 255 fits)
