-- ===== src/ModuleLog/Channel/Polls.antt =====
-- What a client that polls the log by sequence numbers gets.
use zzt_self.Base.{
  ℕ, zero, suc, ◌+◌, ◌-◌, ◌≤◌, ◌≡◌, refl, sym, ap, ◌∙◌, inl, inr, some, List, [], ◌∷◌, arith, ltb,
  ltb→lt, Bool-cases, length, drop, drop-drop,
}
use mathlib.Core.Path.{subst}
use zzt_self.ModuleLog.Channel.{Entry, Channel, max_memory_lines, newer, logs}
use zzt_self.ModuleLog.Channel.Window.{Numbered, Reachable, Reachable-Logged}

newer-Numbered :
    (after n : ℕ) (es : List Entry) → Numbered n es → newer after es ≡ drop (suc after - n) es
newer-Numbered after n [] h = sym (drop-none (suc after - n))
  where
    drop-none : (k : ℕ) → drop {A = Entry} k [] ≡ []
    drop-none zero = refl
    drop-none (suc k) = refl
newer-Numbered after n (e ∷ es) (first, rest) = elim (Bool-cases (ltb after e.seq)) [
  | inl h ↦
      let lt = ltb→lt after e.seq h in
      let none_here : suc after - n ≡ 0 = omega (arith, first, lt) in
      let none_later : suc after - suc n ≡ 0 = omega (arith, first, lt) in
      rw (h, none_here)
        (ap (◌∷◌ e) (newer-Numbered after (suc n) es rest ∙ ap (λ k. drop k es) none_later))
  | inr h ↦
      let le : n ≤ after = ground (arith, first, h) in
      let one_more : suc after - n ≡ suc (suc after - suc n) = omega (arith, le) in
      rw (h, one_more) (newer-Numbered after (suc n) es rest)
]

Numbered-drop : (k n : ℕ) (es : List Entry) → Numbered n es → Numbered (n + k) (drop k es)
Numbered-drop zero n es h = subst (λ m. Numbered m es) (omega arith) h
Numbered-drop (suc k) n [] h = tt
Numbered-drop (suc k) n (e ∷ es) h =
    subst (λ m. Numbered m (drop k es)) (omega arith) (Numbered-drop k (suc n) es h.1)

-- A client that has the entries up to number `after` gets every later one, each once and in order,
-- as long as no more than 5000 came after the ones it has.
pub newer-Reachable :
    (c : Channel) (after : ℕ)
    → Reachable c
    → c.next_seq ≤ suc after + max_memory_lines
    → logs (some after) c ≡ drop (suc after) c.history
newer-Reachable c after r few =
    let g = Reachable-Logged c r in
    let k = length c.history - max_memory_lines in
    let start : 0 + k ≡ k = omega arith in
    let at : k + (suc after - k) ≡ suc after = omega (arith, few, g.counted) in
    ap (newer after) g.window
    ∙ newer-Numbered after k (drop k c.history)
        (subst (λ m. Numbered m (drop k c.history)) start (Numbered-drop k 0 c.history g.numbered))
    ∙ sym (drop-drop k (suc after - k) c.history)
    ∙ ap (λ m. drop m c.history) at
