-- ===== src/ModuleLog/Utf8.antt =====
-- `bytes.decode("utf-8", errors="replace")`, by which apps/module_log/module_serial_service.py makes a
-- log line of the bytes of a line. A text is the list of its code points.
use zzt_self.Base.{
  ℕ, zero, suc, ◌+◌, ◌*◌, ◌%◌, ◌<◌, ◌≡◌, refl, sym, ap, ◌∙◌, Bool, true, ◌&&◌, List, [], ◌∷◌, ◌++◌,
  append-nil, append_assoc, arith, ltb, leb, ◌==◌, if◌then◌else◌, Bytes, All,
}

abbrev pub CodePoints : Type 0
CodePoints = List ℕ

-- The bytes that may follow next: all continuation bytes, or those that keep out overlong forms,
-- surrogates and code points past the last.
pub data Range : Type 0 where
  continuation from_a0 from_90 upto_9f upto_8f : Range

abbrev pub in_range : Range → ℕ → Bool
in_range continuation b = leb 0x80 b && leb b 0xBF
in_range from_a0 b = leb 0xA0 b && leb b 0xBF
in_range from_90 b = leb 0x90 b && leb b 0xBF
in_range upto_9f b = leb 0x80 b && leb b 0x9F
in_range upto_8f b = leb 0x80 b && leb b 0x8F

-- What is read of the current character: its bits so far, the range of the next byte and the number
-- of bytes after that one.
pub data Partial : Type 0 where
  between : Partial
  inside : ℕ → Range → ℕ → Partial

abbrev pub replacement : ℕ
replacement = 0xFFFD

-- A first byte.
abbrev pub lead : ℕ → CodePoints × Partial
lead b =
    if ltb b 0x80
    then (b ∷ [], between)
    else if ltb b 0xC2
    then (replacement ∷ [], between)
    else if ltb b 0xE0
    then ([], inside (b % 32) continuation 0)
    else if b == 0xE0
    then ([], inside 0 from_a0 1)
    else if b == 0xED
    then ([], inside 13 upto_9f 1)
    else if ltb b 0xF0
    then ([], inside (b % 16) continuation 1)
    else if b == 0xF0
    then ([], inside 0 from_90 2)
    else if ltb b 0xF4
    then ([], inside (b % 8) continuation 2)
    else if b == 0xF4
    then ([], inside 4 upto_8f 2)
    else (replacement ∷ [], between)

-- A byte that may follow ends the character or goes on with it; any other one replaces what was
-- read, and is read again as a first byte.
abbrev pub decode_step : Partial → ℕ → CodePoints × Partial
decode_step between b = lead b
decode_step (inside v range zero) b =
    if in_range range b
    then ((v * 64 + b % 64) ∷ [], between)
    else (replacement ∷ (lead b).0, (lead b).1)
decode_step (inside v range (suc left)) b =
    if in_range range b
    then ([], inside (v * 64 + b % 64) continuation left)
    else (replacement ∷ (lead b).0, (lead b).1)

abbrev pub at_end : Partial → CodePoints
at_end between = []
at_end (inside v range left) = replacement ∷ []

unfoldable pub decode_from : Partial → Bytes → CodePoints
decode_from s [] = at_end s
decode_from s (b ∷ bs) = (decode_step s b).0 ++ decode_from (decode_step s b).1 bs

abbrev pub decode_utf8 : Bytes → CodePoints
decode_utf8 bs = decode_from between bs

-- A line feed is no part of a longer character.
step-newline : (s : Partial) → (decode_step s 10).1 ≡ between
step-newline between = refl
step-newline (inside v continuation zero) = refl
step-newline (inside v from_a0 zero) = refl
step-newline (inside v from_90 zero) = refl
step-newline (inside v upto_9f zero) = refl
step-newline (inside v upto_8f zero) = refl
step-newline (inside v continuation (suc left)) = refl
step-newline (inside v from_a0 (suc left)) = refl
step-newline (inside v from_90 (suc left)) = refl
step-newline (inside v upto_9f (suc left)) = refl
step-newline (inside v upto_8f (suc left)) = refl

-- What follows a line feed is decoded as if it stood alone.
pub decode_from-newline :
    (s : Partial) (xs ys : Bytes)
    → decode_from s ((xs ++ (10 ∷ [])) ++ ys) ≡ decode_from s (xs ++ (10 ∷ [])) ++ decode_utf8 ys
unfolding decode_from
decode_from-newline s [] ys =
    rw (step-newline s)
      (ap (λ (o : CodePoints). o ++ decode_utf8 ys) (sym (append-nil (decode_step s 10).0)))
decode_from-newline s (x ∷ xs) ys =
    ap (◌++◌ (decode_step s x).0) (decode_from-newline (decode_step s x).1 xs ys)
    ∙ sym (
        append_assoc (decode_step s x).0 (decode_from (decode_step s x).1 (xs ++ (10 ∷ [])))
          (decode_utf8 ys))

-- The bytes of ASCII are their own text.
pub decode_utf8-ascii : (bs : Bytes) → All (λ b. b < 0x80) bs → decode_utf8 bs ≡ bs
unfolding decode_from
decode_utf8-ascii [] h = refl
decode_utf8-ascii (b ∷ bs) (low, rest) =
    let ascii : ltb b 0x80 ≡ true = ground (arith, low) in
    rw ascii (ap (λ xs. b ∷ xs) (decode_utf8-ascii bs rest))
