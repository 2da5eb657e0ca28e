-- ===== src/Meter645/Extract/Wire.antt =====
-- Wire forms: which bytes on the line `rb` reads as which logical bytes.
use zzt_self.Base.{
  ℕ, ◌≡◌, refl, ap, ◌∙◌, ◌≢◌, inl, inr, some, [], ◌∷◌, ◌++◌, append_assoc, arith, Bool-cases, Bytes,
  length, mem,
}
use mathlib.Core.Path.{subst}
use zzt_self.Base.Reader.{repeat, repeat-suc}
use zzt_self.Meter645.Escape.{NoMark, escape_set, escape_byte, escape, unescape, unescape-cons}
use zzt_self.Meter645.Extract.{read_byte}

-- `Wire w bs`: the bytes `w` stand for `bs`. A byte other than the mark may stand bare, and any
-- byte may stand behind a mark.
pub data Wire : Bytes → Bytes → Type 0 where
  nil : Wire [] []
  bare : {b : ℕ} {w bs : Bytes} → b ≢ 0x1B → Wire w bs → Wire (b ∷ w) (b ∷ bs)
  pair : {m b : ℕ} {w bs : Bytes} → m ≡ 0x1B → Wire w bs → Wire (m ∷ b ∷ w) (b ∷ bs)

pub NoMark-Wire : (bs : Bytes) → NoMark bs → Wire bs bs
NoMark-Wire [] h = nil
NoMark-Wire (b ∷ bs) h = bare h.0 (NoMark-Wire bs h.1)

escape_byte-Wire : (b : ℕ) {w bs : Bytes} → Wire w bs → Wire (escape_byte b ++ w) (b ∷ bs)
unfolding escape_byte
escape_byte-Wire b {w} {bs} h = elim (Bool-cases (mem b escape_set)) [
  | inl e ↦ rw e (pair refl h)
  | inr e ↦ rw e (bare (ground arith) h)
]

pub escape-Wire : (xs : Bytes) {w bs : Bytes} → Wire w bs → Wire (escape xs ++ w) (xs ++ bs)
unfolding escape
escape-Wire [] h = h
escape-Wire (x ∷ xs) {w} h =
    rw (append_assoc (escape_byte x) (escape xs) w) (escape_byte-Wire x (escape-Wire xs h))

pub NoMark-append-Wire :
    (xs : Bytes) {w bs : Bytes} → NoMark xs → Wire w bs → Wire (xs ++ w) (xs ++ bs)
NoMark-append-Wire [] n h = h
NoMark-append-Wire (x ∷ xs) n h = bare n.0 (NoMark-append-Wire xs n.1 h)

unescape-pair : (m b : ℕ) (w : Bytes) → m ≡ 0x1B → unescape (m ∷ b ∷ w) ≡ b ∷ unescape w
unfolding unescape
unescape-pair m b w h = ground arith

-- `_unescape` inverts every wire form.
pub unescape-Wire : {w bs : Bytes} → Wire w bs → unescape w ≡ bs
unescape-Wire nil = unfold unescape in refl
unescape-Wire (bare {b = b} {w = w} n h) = unescape-cons b w n ∙ ap (◌∷◌ b) (unescape-Wire h)
unescape-Wire (pair {m = m} {b = b} {w = w} n h) =
    unescape-pair m b w n ∙ ap (◌∷◌ b) (unescape-Wire h)

-- Reading one logical byte, whatever follows the wire form.
abbrev pub ReadsTo : Bytes → ℕ → Bytes → Type 0
ReadsTo w b w' = (r : Bytes) → read_byte (w ++ r) ≡ some (b, w' ++ r)

pub read_byte-bare : (b : ℕ) (r : Bytes) → b ≢ 0x1B → read_byte (b ∷ r) ≡ some (b, r)
unfolding read_byte
read_byte-bare b [] h = ground arith
read_byte-bare b (c ∷ r) h = ground arith

read_byte-pair : (m b : ℕ) (r : Bytes) → m ≡ 0x1B → read_byte (m ∷ b ∷ r) ≡ some (b, r)
unfolding read_byte
read_byte-pair m b r h = ground arith

Wire-cons :
    {w all : Bytes} (b : ℕ) (bs : Bytes)
    → Wire w all
    → all ≡ b ∷ bs
    → (w' : Bytes) × ReadsTo w b w' × Wire w' bs
Wire-cons b bs nil e = cc
Wire-cons b bs (bare {b = c} {w = w} n h) e =
    (w, λ r. read_byte-bare c (w ++ r) n ∙ cc, subst (Wire w) (cc) h)
Wire-cons b bs (pair {m = m} {b = c} {w = w} n h) e =
    (w, λ r. read_byte-pair m c (w ++ r) n ∙ cc, subst (Wire w) (cc) h)

-- The first logical byte of a wire form is read, and a wire form of the others is left.
pub Wire-read_byte :
    {w : Bytes} (b : ℕ) (bs : Bytes) → Wire w (b ∷ bs) → (w' : Bytes) × ReadsTo w b w' × Wire w' bs
Wire-read_byte b bs h = Wire-cons b bs h refl

-- So for a run of bytes, read by a comprehension.
pub Wire-repeat :
    (xs ys : Bytes) {w : Bytes}
    → Wire w (xs ++ ys)
    → (w' : Bytes) × ((r : Bytes) → repeat read_byte (length xs) (w ++ r) ≡ some (xs, w' ++ r))
      × Wire w' ys
unfolding repeat
Wire-repeat [] ys {w} h = (w, λ r. refl, h)
Wire-repeat (x ∷ xs) ys h =
    let (w1, first, h1) = Wire-read_byte x (xs ++ ys) h in
    let (w2, later, h2) = Wire-repeat xs ys h1 in
    (w2, λ r. repeat-suc read_byte (length xs) (first r) (later r), h2)
