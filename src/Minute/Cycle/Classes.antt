-- ===== src/Minute/Cycle/Classes.antt =====
-- Which addresses a cycle counts as answered, as without data and as without an answer.
use zzt_self.Base.{
  ℕ, ◌≡◌, refl, sym, ap, ◌∙◌, inl, inr, Bool, true, false, not, ◌&&◌, ◌||◌, Option, List, [], ◌∷◌,
  ◌++◌, arith, ◌==◌, ==_iff, Bool-cases, &&_true, Bytes, if-holds, same,
}
use zzt_self.Minute.Parsers.{Scene, active_report, passive_report, passive_collect}
use zzt_self.Minute.Cycle.{
  Addresses, contains, add, intersection, difference, Report, Read, Bucket, empty_bucket,
  add_report, add_request, add_reply, add_read, add_reports, add_reads, bucket_at, scope,
  counted_passive, no_reply, reply_no_data,
}
use zzt_self.Minute.Time.{cycle_window_key}

same→eq : (xs ys : Bytes) → same xs ys ≡ true → xs ≡ ys
same→eq [] [] h = refl
same→eq [] (y ∷ ys) h = cc
same→eq (x ∷ xs) [] h = cc
same→eq (x ∷ xs) (y ∷ ys) h =
    let (one, rest) = &&_true (x == y) (same xs ys) h in
    ap (λ z. z ∷ xs) ((==_iff x y).0 one) ∙ ap (◌∷◌ y) (same→eq xs ys rest)

contains-append :
    (a : Bytes) (xs ys : Addresses) → contains a (xs ++ ys) ≡ (contains a xs || contains a ys)
contains-append a [] ys = refl
contains-append a (x ∷ xs) ys = ground (arith, contains-append a xs ys)

pub contains-add :
    (a b : Bytes) (xs : Addresses) → contains a (add b xs) ≡ (same b a || contains a xs)
contains-add a b xs = elim (Bool-cases (contains b xs)) [
  | inl h ↦ elim (Bool-cases (same b a)) [
    | inl e ↦ rw (h, e) (sym (ap (λ c. contains c xs) (same→eq b a e)) ∙ h)
    | inr e ↦ rw (h, e) refl
  ]
  | inr h ↦ rw (h, contains-append a xs (b ∷ [])) (ground arith)
]

pub contains-intersection :
    (a : Bytes) (xs ys : Addresses)
    → contains a (intersection xs ys) ≡ (contains a xs && contains a ys)
contains-intersection a [] ys = refl
contains-intersection a (x ∷ xs) ys = elim (Bool-cases (same x a)) [
  | inl e ↦ elim (Bool-cases (contains x ys)) [
    | inl h ↦ rw (h, e) (sym (sym (ap (λ c. contains c ys) (same→eq x a e)) ∙ h))
    | inr h ↦
        let out : contains a ys ≡ false = sym (ap (λ c. contains c ys) (same→eq x a e)) ∙ h in
        rw (h, e) (contains-intersection a xs ys ∙ ground (arith, out))
  ]
  | inr e ↦ elim (Bool-cases (contains x ys)) [
    | inl h ↦ rw (h, e) (contains-intersection a xs ys)
    | inr h ↦ rw (h, e) (contains-intersection a xs ys)
  ]
]

pub contains-difference :
    (a : Bytes) (xs ys : Addresses)
    → contains a (difference xs ys) ≡ (contains a xs && not (contains a ys))
contains-difference a [] ys = refl
contains-difference a (x ∷ xs) ys = elim (Bool-cases (same x a)) [
  | inl e ↦
      let moved : contains a ys ≡ contains x ys = sym (ap (λ c. contains c ys) (same→eq x a e)) in
      elim (Bool-cases (contains x ys)) [
        | inl h ↦ rw (h, e) (contains-difference a xs ys ∙ ground (arith, moved, h))
        | inr h ↦ rw (h, e) (ground (arith, moved, h))
      ]
  | inr e ↦ elim (Bool-cases (contains x ys)) [
    | inl h ↦ rw (h, e) (contains-difference a xs ys)
    | inr h ↦ rw (h, e) (contains-difference a xs ys)
  ]
]

-- Who replied did so with data or without.
abbrev Replied : Bucket → Type 0
Replied b =
    (a : Bytes) → contains a b.reply_any ≡ (contains a b.reply_ok || contains a b.reply_empty)

add_reply-Replied : (r : Read) (b : Bucket) → Replied b → Replied (add_reply r b)
add_reply-Replied r b h a = elim (Bool-cases r.has_data) [
  | inl e ↦ rw e (
      ground
        (arith, h a, contains-add a r.address b.reply_any, contains-add a r.address b.reply_ok))
  | inr e ↦ rw e (
      ground
        (arith, h a, contains-add a r.address b.reply_any, contains-add a r.address b.reply_empty))
]

add_reports-Replied :
    (period key : ℕ) (rs : List Report) (b : Bucket)
    → Replied b
    → Replied (add_reports period key rs b)
unfolding add_reports
add_reports-Replied period key [] b h = h
add_reports-Replied period key (r ∷ rs) b h =
    add_reports-Replied period key rs _
      (if-holds Replied (cycle_window_key r.fz period == key) (add_report r b) b (λ _. h) (λ _. h))

add_reads-Replied :
    (period key : ℕ) (rs : List Read) (b : Bucket) → Replied b → Replied (add_reads period key rs b)
unfolding add_reads
add_reads-Replied period key [] b h = h
add_reads-Replied period key (r ∷ rs) b h = add_reads-Replied period key rs _ (
    if-holds Replied (cycle_window_key r.fz period == key) (add_read r b) b (λ _. by_scene r.scene)
      (λ _. h))
  where
    by_scene :
        (s : Scene)
        → Replied (elim s [
          | active_report ↦ add_reply r b
          | passive_report ↦ add_reply r b
          | passive_collect ↦ add_request r b
        ])
    by_scene active_report = add_reply-Replied r b h
    by_scene passive_report = add_reply-Replied r b h
    by_scene passive_collect = h

-- In every cycle, an address in the scope of the task that has replied is counted either as a
-- passive success or as a reply without data, never as both; one that was asked is listed as
-- without an answer exactly when it has not replied; and an address out of scope is in none of the
-- three.
pub cycle_classes :
    (configured : Option Addresses) (period key : ℕ) (reports : List Report) (reads : List Read)
    (a : Bytes)
    → (let b = bucket_at period reports reads key in
        let counted = contains a (counted_passive configured b) in
        let without_data = contains a (reply_no_data configured b) in
        let silent = contains a (no_reply configured b) in
        let in_scope = contains a (scope configured b) in
        ((counted || without_data) ≡ (in_scope && contains a b.reply_any))
        × ((counted && without_data) ≡ false)
        × (silent ≡ (in_scope && (contains a b.requested && not (contains a b.reply_any)))))
cycle_classes configured period key reports reads a =
    let b = bucket_at period reports reads key in
    let s = scope configured b in
    let replied =
      add_reads-Replied period key reads (add_reports period key reports empty_bucket)
        (add_reports-Replied period key reports empty_bucket (λ c. refl)) a in
    let counted = contains-intersection a s b.reply_ok in
    let without_data =
      contains-difference a (intersection s b.reply_empty) (intersection s b.reply_ok) in
    let empties = contains-intersection a s b.reply_empty in
    let silent = contains-intersection a s (difference b.requested (intersection s b.reply_any)) in
    let asked = contains-difference a b.requested (intersection s b.reply_any) in
    let answered = contains-intersection a s b.reply_any in
    boolean _ _ _ _ _ _ _ _ _ _ _ replied counted without_data empties silent asked answered
  where
    boolean :
        (in_scope any ok none_in asked c d e m n k : Bool)
        → any ≡ (ok || none_in)
        → c ≡ (in_scope && ok)
        → d ≡ (e && not c)
        → e ≡ (in_scope && none_in)
        → m ≡ (in_scope && n)
        → n ≡ (asked && not k)
        → k ≡ (in_scope && any)
        → ((c || d) ≡ (in_scope && any))
          × ((c && d) ≡ false)
          × (m ≡ (in_scope && (asked && not any)))
    boolean in_scope any ok none_in asked c d e m n k p q r s t u v = ground arith
