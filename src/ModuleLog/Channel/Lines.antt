-- ===== src/ModuleLog/Channel/Lines.antt =====
-- How the bytes of a stream become lines, whatever the chunks that it arrives in.
use zzt_self.Base.{
  ◌≡◌, refl, sym, ap, ◌∙◌, ◌≢◌, inl, inr, false, List, [], ◌∷◌, ◌++◌, append-nil, append_assoc,
  arith, ◌==◌, ==_iff, Bool-cases, Bytes, All, All-append, if-holds,
}
use zzt_self.ModuleLog.Utf8.{CodePoints, between, decode_utf8, decode_from-newline}
use zzt_self.ModuleLog.Channel.{
  LogLine, rx, tx, event, Entry, Channel, append_line, append_lines, split_lines, ingest_rx,
}

-- No line feed.
abbrev pub Quiet : Bytes → Type 0
Quiet bs = All (λ b. b ≢ 10) bs

split_lines-append :
    (acc xs ys : Bytes)
    → split_lines acc (xs ++ ys) ≡ (
      (split_lines acc xs).0 ++ (split_lines (split_lines acc xs).1 ys).0,
      (split_lines (split_lines acc xs).1 ys).1,
    )
unfolding split_lines
split_lines-append acc [] ys = refl
split_lines-append acc (b ∷ xs) ys = elim (Bool-cases (b == 10)) [
  | inl h ↦ rw h (ap (λ r. ((acc ++ (b ∷ [])) ∷ r.0, r.1)) (split_lines-append [] xs ys))
  | inr h ↦ rw h (split_lines-append (acc ++ (b ∷ [])) xs ys)
]

pub split_lines-Quiet :
    (acc q ys : Bytes) → Quiet q → split_lines acc (q ++ ys) ≡ split_lines (acc ++ q) ys
unfolding split_lines
split_lines-Quiet acc [] ys h = ap (λ a. split_lines a ys) (sym (append-nil acc))
split_lines-Quiet acc (b ∷ q) ys (other, rest) =
    let not_end : (b == 10) ≡ false = ground arith in
    rw not_end (
      split_lines-Quiet (acc ++ (b ∷ [])) q ys rest
      ∙ ap (λ a. split_lines a ys) (append_assoc acc (b ∷ []) q))

pub split_lines-rest : (acc bs : Bytes) → Quiet acc → Quiet (split_lines acc bs).1
unfolding split_lines
split_lines-rest acc [] h = h
split_lines-rest acc (b ∷ bs) h =
    if-holds (λ (r : List Bytes × Bytes). Quiet r.1) (b == 10) _ _ (λ _. split_lines-rest [] bs tt)
      (λ other.
        split_lines-rest (acc ++ (b ∷ [])) bs (All-append _ acc (b ∷ []) h (ground arith, tt)))

-- The texts of the lines, one after the other.
abbrev pub decoded_lines : List Bytes → CodePoints
decoded_lines [] = []
decoded_lines (l ∷ ls) = decode_utf8 l ++ decoded_lines ls

-- Lines are decoded one by one as the whole stream would be.
pub decoded_lines-split_lines :
    (acc bs : Bytes)
    → decoded_lines (split_lines acc bs).0 ++ decode_utf8 (split_lines acc bs).1
      ≡ decode_utf8 (acc ++ bs)
unfolding split_lines
decoded_lines-split_lines acc [] = ap decode_utf8 (sym (append-nil acc))
decoded_lines-split_lines acc (b ∷ bs) = elim (Bool-cases (b == 10)) [
  | inl h ↦
      let e = (==_iff b 10).0 h in
      let first = decode_utf8 (acc ++ (b ∷ [])) in
      rw h (
        append_assoc first (decoded_lines (split_lines [] bs).0) (decode_utf8 (split_lines [] bs).1)
        ∙ ap (◌++◌ first) (decoded_lines-split_lines [] bs)
        ∙ ap (λ n. decode_utf8 (acc ++ (n ∷ [])) ++ decode_utf8 bs) e
        ∙ sym (decode_from-newline between acc bs)
        ∙ ap (λ n. decode_utf8 ((acc ++ (n ∷ [])) ++ bs)) (sym e)
        ∙ ap decode_utf8 (append_assoc acc (b ∷ []) bs))
  | inr h ↦ rw h (
      decoded_lines-split_lines (acc ++ (b ∷ [])) bs
      ∙ ap decode_utf8 (append_assoc acc (b ∷ []) bs))
]

-- The received text in the lines of a log.
abbrev pub received_line : LogLine → CodePoints
received_line (rx text) = text
received_line (tx text) = []
received_line (event n) = []

abbrev pub received : List Entry → CodePoints
received [] = []
received (e ∷ es) = received_line e.line ++ received es

received-append : (xs ys : List Entry) → received (xs ++ ys) ≡ received xs ++ received ys
received-append [] ys = refl
received-append (e ∷ xs) ys =
    ap (◌++◌ (received_line e.line)) (received-append xs ys)
    ∙ sym (append_assoc (received_line e.line) (received xs) (received ys))

received-append_lines :
    (ls : List Bytes) (c : Channel)
    → received (append_lines rx ls c).history ≡ received c.history ++ decoded_lines ls
unfolding append_lines append_line
received-append_lines [] c = sym (append-nil (received c.history))
received-append_lines (l ∷ ls) c =
    let text = decode_utf8 l in
    received-append_lines ls (append_line (rx text) c)
    ∙ ap (λ bs. bs ++ decoded_lines ls) (received-append c.history _)
    ∙ ap (λ bs. (received c.history ++ bs) ++ decoded_lines ls) (append-nil text)
    ∙ append_assoc (received c.history) text (decoded_lines ls)

pub rx_line_buf-append_lines :
    (dir : CodePoints → LogLine) (ls : List Bytes) (c : Channel)
    → (append_lines dir ls c).rx_line_buf ≡ c.rx_line_buf
unfolding append_lines append_line
rx_line_buf-append_lines dir [] c = refl
rx_line_buf-append_lines dir (l ∷ ls) c =
    rx_line_buf-append_lines dir ls (append_line (dir (decode_utf8 l)) c)

-- Nothing of the stream is lost or moved: the text of the log, followed by what is in the buffer, is
-- what it was, followed by the buffer and the new bytes decoded in one piece. Only bytes that are no
-- UTF-8 are replaced.
pub received-ingest_rx :
    (bs : Bytes) (c : Channel)
    → received (ingest_rx bs c).history ++ decode_utf8 (ingest_rx bs c).rx_line_buf
      ≡ received c.history ++ decode_utf8 (c.rx_line_buf ++ bs)
received-ingest_rx bs c =
    let found = split_lines [] (c.rx_line_buf ++ bs) in
    let start = record c { rx_line_buf = found.1 } in
    ap (λ buf. received (ingest_rx bs c).history ++ decode_utf8 buf)
      (rx_line_buf-append_lines rx found.0 start)
    ∙ ap (λ h. h ++ decode_utf8 found.1) (received-append_lines found.0 start)
    ∙ append_assoc (received c.history) (decoded_lines found.0) (decode_utf8 found.1)
    ∙ ap (◌++◌ (received c.history)) (decoded_lines-split_lines [] (c.rx_line_buf ++ bs))

append_lines-append :
    (dir : CodePoints → LogLine) (ls ms : List Bytes) (c : Channel)
    → append_lines dir (ls ++ ms) c ≡ append_lines dir ms (append_lines dir ls c)
unfolding append_lines
append_lines-append dir [] ms c = refl
append_lines-append dir (l ∷ ls) ms c =
    append_lines-append dir ls ms (append_line (dir (decode_utf8 l)) c)

buffer_later :
    (dir : CodePoints → LogLine) (ls : List Bytes) (s : Bytes) (c : Channel)
    → record (append_lines dir ls c) { rx_line_buf = s }
      ≡ append_lines dir ls (record c { rx_line_buf = s })
unfolding append_lines append_line
buffer_later dir [] s c = refl
buffer_later dir (l ∷ ls) s c = buffer_later dir ls s (append_line (dir (decode_utf8 l)) c)

abbrev taken : List Bytes × Bytes → Channel → Channel
taken found c = append_lines rx found.0 (record c { rx_line_buf = found.1 })

-- Received bytes give the same channel in two chunks as in one, wherever they are cut.
pub ingest_rx-append :
    (xs ys : Bytes) (c : Channel) → ingest_rx (xs ++ ys) c ≡ ingest_rx ys (ingest_rx xs c)
ingest_rx-append xs ys c =
    let found = split_lines [] (c.rx_line_buf ++ xs) in
    let later = split_lines found.1 ys in
    let between = ingest_rx xs c in
    let rest = rx_line_buf-append_lines rx found.0 (record c { rx_line_buf = found.1 }) in
    ap (λ bs. taken (split_lines [] bs) c) (sym (append_assoc c.rx_line_buf xs ys))
    ∙ ap (λ r. taken r c) (split_lines-append [] (c.rx_line_buf ++ xs) ys)
    ∙ append_lines-append rx found.0 later.0 (record c { rx_line_buf = later.1 })
    ∙ ap (append_lines rx later.0)
        (sym (buffer_later rx found.0 later.1 (record c { rx_line_buf = found.1 })))
    ∙ ap (λ r. taken r between)
        (sym (
          ap (λ buf. split_lines [] (buf ++ ys)) rest
          ∙ split_lines-Quiet [] found.1 ys (split_lines-rest [] (c.rx_line_buf ++ xs) tt)))
