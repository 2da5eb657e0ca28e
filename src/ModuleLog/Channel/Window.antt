-- ===== src/ModuleLog/Channel/Window.antt =====
-- The lines in memory are the newest of the log, numbered without a gap.
use mathlib.Core.Path.{subst}
use zzt_self.Base.{
  ℕ, zero, suc, ◌+◌, ◌-◌, ◌≤◌, ◌≡◌, refl, sym, ap, ◌∙◌, Bool, true, false, not, ◌&&◌, ◌||◌, Option,
  none, some, List, [], ◌∷◌, ◌++◌, arith, if◌then◌else◌, Bytes, length, take, drop, length-append,
  length-drop, if-holds, drop-drop,
}
use zzt_self.ModuleLog.Utf8.{CodePoints, decode_utf8}
use zzt_self.ModuleLog.Channel.{
  LogLine, rx, tx, event, Entry, Channel, idle, error, closed, read_failed, flash_started,
  flash_done, flash_failed, new_channel, max_memory_lines, newest, append_line, append_lines,
  ingest_rx, ingest_tx, flush_rx, flush_tx, start, stop, Input, rx_turn, leave_loop, write,
  set_baudrate, flash_begin, flash_end, Op, run_op, or_same, is_running, silence, chunk, broken,
  starts, stops, receives, writes, rates, flash_begins, flash_ends, reads,
}

-- Sequence numbers from `n` on.
abbrev pub Numbered : ℕ → List Entry → Type 0
Numbered n [] = Unit
Numbered n (e ∷ es) = (e.seq ≡ n) × Numbered (suc n) es

pub record Logged (c : Channel) : Type 0 where
  pub counted : c.next_seq ≡ length c.history
  pub numbered : Numbered 0 c.history
  pub window : c.lines ≡ newest c.history

Numbered-append :
    (n : ℕ) (es : List Entry) (l : LogLine)
    → Numbered n es
    → Numbered n (es ++ (record { seq = n + length es; line = l } ∷ []))
Numbered-append n [] l h = (omega arith, tt)
Numbered-append n (e ∷ es) l (first, rest) =
    let at : n + length (e ∷ es) ≡ suc n + length es = omega arith in
    (
      first,
      subst (λ k. Numbered (suc n) (es ++ (record { seq = k; line = l } ∷ []))) (sym at)
          (Numbered-append (suc n) es l rest),
    )

drop-append :
    {A : Type 0} (k : ℕ) (xs ys : List A) → k ≤ length xs → drop k (xs ++ ys) ≡ drop k xs ++ ys
drop-append zero xs ys h = refl
drop-append (suc k) [] ys h = absurd (omega arith)
drop-append (suc k) (x ∷ xs) ys h = drop-append k xs ys (omega arith)

-- Cutting to the newest before adding one more changes nothing.
newest-newest :
    {A : Type 0} (xs : List A) (y : A) → newest (newest xs ++ (y ∷ [])) ≡ newest (xs ++ (y ∷ []))
newest-newest xs y =
    let k = length xs - max_memory_lines in
    let one = y ∷ [] in
    let j = length (drop k xs ++ one) - max_memory_lines in
    let sum_is : k + j ≡ length (xs ++ one) - max_memory_lines =
      omega (arith, length-append xs one, length-append (drop k xs) one, length-drop k xs) in
    ap (drop j) (sym (drop-append k xs one (omega arith)))
    ∙ sym (drop-drop k j (xs ++ one))
    ∙ ap (λ m. drop m (xs ++ one)) sum_is

append_line-Logged : (l : LogLine) (c : Channel) → Logged c → Logged (append_line l c)
unfolding append_line
append_line-Logged l c g =
    let entry : Entry = record { seq = c.next_seq; line = l } in
    record {
      counted = omega (arith, g.counted, length-append c.history (entry ∷ []));
      numbered =
          subst (λ k. Numbered 0 (c.history ++ (record { seq = k; line = l } ∷ [])))
            (omega (arith, g.counted)) (Numbered-append 0 c.history l g.numbered);
      window = ap (λ ls. newest (ls ++ (entry ∷ []))) g.window ∙ newest-newest c.history entry;
    }

append_lines-Logged :
    (dir : CodePoints → LogLine) (ls : List Bytes) (c : Channel)
    → Logged c
    → Logged (append_lines dir ls c)
unfolding append_lines
append_lines-Logged dir [] c g = g
append_lines-Logged dir (l ∷ ls) c g =
    append_lines-Logged dir ls (append_line (dir (decode_utf8 l)) c)
      (append_line-Logged (dir (decode_utf8 l)) c g)

-- The other fields do not matter.
Logged-moved :
    (c d : Channel)
    → c.next_seq ≡ d.next_seq
    → c.history ≡ d.history
    → c.lines ≡ d.lines
    → Logged c
    → Logged d
Logged-moved c d e f h g = record {
  counted = sym e ∙ g.counted ∙ ap length f;
  numbered = subst (Numbered 0) f g.numbered;
  window = sym h ∙ g.window ∙ ap newest f;
}

ingest_rx-Logged : (bs : Bytes) (c : Channel) → Logged c → Logged (ingest_rx bs c)
ingest_rx-Logged bs c g = append_lines-Logged rx _ _ (Logged-moved c _ refl refl refl g)

ingest_tx-Logged : (bs : Bytes) (c : Channel) → Logged c → Logged (ingest_tx bs c)
ingest_tx-Logged bs c g = append_lines-Logged tx _ _ (Logged-moved c _ refl refl refl g)

flush_rx-Logged : (c : Channel) → Logged c → Logged (flush_rx c)
flush_rx-Logged c g = by_buffer c.rx_line_buf
  where
    by_buffer :
        (buf : Bytes)
        → Logged (elim buf [
          | [] ↦ c
          | b ∷ bs ↦ append_line (rx (decode_utf8 (b ∷ bs))) (record c { rx_line_buf = [] })
        ])
    by_buffer [] = g
    by_buffer (b ∷ bs) = append_line-Logged _ _ (Logged-moved c _ refl refl refl g)

flush_tx-Logged : (c : Channel) → Logged c → Logged (flush_tx c)
flush_tx-Logged c g = by_buffer c.tx_line_buf
  where
    by_buffer :
        (buf : Bytes)
        → Logged (elim buf [
          | [] ↦ c
          | b ∷ bs ↦ append_line (tx (decode_utf8 (b ∷ bs))) (record c { tx_line_buf = [] })
        ])
    by_buffer [] = g
    by_buffer (b ∷ bs) = append_line-Logged _ _ (Logged-moved c _ refl refl refl g)

-- What an operation returns, or the channel itself where it raises.
start-Logged :
    (opens : Bool) (r : ℕ) (c : Channel) → Logged c → Logged (or_same (start opens r c) c)
unfolding start
start-Logged opens r c g =
    if-holds (λ o. Logged (or_same o c)) (is_running c.state) _ _ (λ _. g)
      (λ _.
        if-holds (λ o. Logged (or_same o c)) opens _ _
          (λ _. append_line-Logged _ _ (Logged-moved c _ refl refl refl g)) (λ _. g))

stop-Logged : (is_open : Bool) (c : Channel) → Logged c → Logged (or_same (stop is_open c) c)
unfolding stop
stop-Logged is_open c g =
    let halted = flush_tx (record c { state = idle; stopping = true; connected = false }) in
    let quiet = flush_tx-Logged _ (
      Logged-moved c (record c { state = idle; stopping = true; connected = false }) refl refl refl
        g) in
    if-holds (λ o. Logged (or_same o c)) c.flashing _ _ (λ _. g)
      (λ _.
        Logged-moved (if c.connected && is_open then append_line (event closed) halted else halted)
          _ refl refl refl
          (if-holds Logged (c.connected && is_open) _ _
            (λ _. append_line-Logged (event closed) halted quiet) (λ _. quiet)))

leave_loop-Logged : (c : Channel) → Logged c → Logged (leave_loop c)
leave_loop-Logged c g =
    let left = record c { receiving = false } in
    flush_rx-Logged left (Logged-moved c left refl refl refl g)

rx_turn-Logged : (i : Input) (c : Channel) → Logged c → Logged (rx_turn i c)
unfolding rx_turn
rx_turn-Logged i c g =
    if-holds Logged (not c.receiving) _ _ (λ _. g)
      (λ _.
        if-holds Logged (c.stopping || not c.connected) _ _ (λ _. leave_loop-Logged c g)
          (λ _. by_input i))
  where
    by_input :
        (i : Input)
        → Logged (elim i [
          | silence ↦ c
          | chunk bs ↦ elim c.answers [
            | some q ↦ record c { answers = some (q ++ bs) }
            | none ↦ ingest_rx bs c
          ]
          | broken ↦ leave_loop (append_line (event read_failed) (record c { state = error }))
        ])
    by_input silence = g
    by_input (chunk bs) = by_answers c.answers
      where
        by_answers :
            (o : Option Bytes)
            → Logged
                (elim o [ some q ↦ record c { answers = some (q ++ bs) } | none ↦ ingest_rx bs c ])
        by_answers none = ingest_rx-Logged bs c g
        by_answers (some q) = Logged-moved c _ refl refl refl g
    by_input broken =
        leave_loop-Logged _ (append_line-Logged _ _ (Logged-moved c _ refl refl refl g))

run_op-Logged : (o : Op) (c : Channel) → Logged c → Logged (run_op o c)
unfolding run_op write set_baudrate flash_begin flash_end
run_op-Logged (starts opens r) c g = start-Logged opens r c g
run_op-Logged (stops is_open) c g = stop-Logged is_open c g
run_op-Logged (receives i) c g = rx_turn-Logged i c g
run_op-Logged (writes bs) c g =
    if-holds (λ o. Logged (or_same o c)) (not (is_running c.state) || c.flashing) _ _ (λ _. g)
      (λ _. ingest_tx-Logged bs c g)
run_op-Logged (rates r) c g =
    if-holds (λ o. Logged (or_same o c)) (not (is_running c.state) || c.flashing) _ _ (λ _. g)
      (λ _. append_line-Logged _ _ (Logged-moved c _ refl refl refl g))
run_op-Logged flash_begins c g =
    if-holds (λ o. Logged (or_same o c)) (not (is_running c.state) || c.flashing) _ _ (λ _. g)
      (λ _.
        Logged-moved (append_line (event flash_started) (record c { flashing = true })) _ refl refl
          refl (append_line-Logged _ _ (Logged-moved c _ refl refl refl g)))
run_op-Logged (flash_ends ok) c g =
    if-holds Logged c.flashing _ _
      (λ _.
        Logged-moved
          (append_line (event (if ok then flash_done else flash_failed))
            (record c { flashing = false }))
          _ refl refl refl (append_line-Logged _ _ (Logged-moved c _ refl refl refl g)))
      (λ _. g)
run_op-Logged (reads n) c g = by_answers c.answers
  where
    by_answers :
        (o : Option Bytes)
        → Logged
            (elim o as (λ x. Bytes × Channel) [
              | none ↦ ([], c)
              | some q ↦ (take n q, record c { answers = some (drop n q) })
            ]).1
    by_answers none = g
    by_answers (some q) = Logged-moved c _ refl refl refl g

pub data Reachable : Channel → Type 0 where
  made : Reachable new_channel
  ran : (o : Op) (c : Channel) → Reachable c → Reachable (run_op o c)

-- After any operations, whether they raised or not, the lines in memory are the newest 5000 of all
-- that were ever appended, and these are numbered from 0 on without a gap.
pub Reachable-Logged : (c : Channel) → Reachable c → Logged c
Reachable-Logged _ made = record { counted = refl; numbered = tt; window = refl }
Reachable-Logged _ (ran o c r) = run_op-Logged o c (Reachable-Logged c r)
