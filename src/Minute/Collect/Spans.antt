-- ===== src/Minute/Collect/Spans.antt =====
-- Every event of the logs lies between the first and the last minute kept for its task.
use zzt_self.Base.{
  ℕ, ◌≤◌, ◌≡◌, refl, sym, ap, ◌∙◌, inl, inr, Bool, false, ◌&&◌, Option, none, some, List, [], ◌∷◌,
  ◌++◌, arith, ◌==◌, if◌then◌else◌, ==_iff, ==_refl, Bool-cases, All, All-append, if-holds,
}
use mathlib.Core.Path.{subst}
use zzt_self.Base.Dict.{lookup, insert, lookup-insert, number_key}
use zzt_self.Minute.Time.{Freeze, fz_minutes}
use zzt_self.Minute.Parsers.{TaskConfig, ActiveReport, ReadFrame, classify_11e3_scene}
use zzt_self.Minute.Cycle.{Report, Read}
use zzt_self.Minute.Collect.{
  Collected, get_or, earliest, latest, record_event, apply_config, apply_report, apply_read,
}

-- A minute between the two kept for a task.
pub record InSpan (task : ℕ) (c : Collected) (m : ℕ) : Type 0 where
  pub first : ℕ
  pub last : ℕ
  pub first_is : lookup task c.first_event_minutes ≡ some first
  pub last_is : lookup task c.last_event_minutes ≡ some last
  pub from : first ≤ m
  pub upto : m ≤ last

pub record Spanned (c : Collected) : Type 0 where
  pub reports :
      (task : ℕ) → All (λ r. InSpan task c (fz_minutes r.fz)) (get_or [] task c.active_reports)
  pub reads : (task : ℕ) → All (λ r. InSpan task c (fz_minutes r.fz)) (get_or [] task c.read_events)

lookup-insert_same :
    {V : Type 0} (k : ℕ) (v : V) (d : List (ℕ × V)) → lookup k (insert k v d) ≡ some v
unfolding number_key
lookup-insert_same k v d =
    lookup-insert k k v d ∙ ap (λ c. if c then some v else lookup k d) (==_refl k)

lookup-insert_other :
    {V : Type 0} (k j : ℕ) (v : V) (d : List (ℕ × V))
    → (k == j) ≡ false
    → lookup j (insert k v d) ≡ lookup j d
unfolding number_key
lookup-insert_other k j v d h = lookup-insert k j v d ∙ ap (λ c. if c then some v else lookup j d) h

earliest-le : (m : ℕ) (o : Option ℕ) → earliest m o ≤ m
earliest-le m none = omega arith
earliest-le m (some old) = ground arith

earliest-le_old : (m old : ℕ) → earliest m (some old) ≤ old
earliest-le_old m old = ground arith

le-latest : (m : ℕ) (o : Option ℕ) → m ≤ latest m o
le-latest m none = omega arith
le-latest m (some old) = ground arith

le_old-latest : (m old : ℕ) → old ≤ latest m (some old)
le_old-latest m old = ground arith

-- The event itself is in the span afterwards.
pub record_event-InSpan :
    (task : ℕ) (fz : Freeze) (c : Collected) → InSpan task (record_event task fz c) (fz_minutes fz)
record_event-InSpan task fz c = record {
  first = earliest (fz_minutes fz) (lookup task c.first_event_minutes);
  last = latest (fz_minutes fz) (lookup task c.last_event_minutes);
  first_is = lookup-insert_same task _ c.first_event_minutes;
  last_is = lookup-insert_same task _ c.last_event_minutes;
  from = earliest-le (fz_minutes fz) (lookup task c.first_event_minutes);
  upto = le-latest (fz_minutes fz) (lookup task c.last_event_minutes);
}

-- No minute drops out of a span.
record_event-keeps :
    (t m task : ℕ) (fz : Freeze) (c : Collected)
    → InSpan t c m
    → InSpan t (record_event task fz c) m
record_event-keeps t m task fz c s = elim (Bool-cases (task == t)) [
  | inr other ↦ record {
    first = s.first;
    last = s.last;
    first_is = lookup-insert_other task t _ c.first_event_minutes other ∙ s.first_is;
    last_is = lookup-insert_other task t _ c.last_event_minutes other ∙ s.last_is;
    from = s.from;
    upto = s.upto;
  }
  | inl same_task ↦
      let e : task ≡ t = (==_iff task t).0 same_task in
      let first_here : lookup task c.first_event_minutes ≡ some s.first =
        ap (λ k. lookup k c.first_event_minutes) e ∙ s.first_is in
      let last_here : lookup task c.last_event_minutes ≡ some s.last =
        ap (λ k. lookup k c.last_event_minutes) e ∙ s.last_is in
      subst (λ k. InSpan k (record_event task fz c) m) e
        (record {
          first = earliest (fz_minutes fz) (some s.first);
          last = latest (fz_minutes fz) (some s.last);
          first_is =
              lookup-insert_same task _ c.first_event_minutes
              ∙ ap (λ o. some (earliest (fz_minutes fz) o)) first_here;
          last_is =
              lookup-insert_same task _ c.last_event_minutes
              ∙ ap (λ o. some (latest (fz_minutes fz) o)) last_here;
          from = omega (arith, earliest-le_old (fz_minutes fz) s.first, s.from);
          upto = omega (arith, le_old-latest (fz_minutes fz) s.last, s.upto);
        })
]

pub All-map :
    {A : Type 0} (P Q : A → Type 0) (xs : List A) → ((x : A) → P x → Q x) → All P xs → All Q xs
All-map P Q [] f h = tt
All-map P Q (x ∷ xs) f h = (f x h.0, All-map P Q xs f h.1)

InSpan-moved :
    (c c' : Collected) (t m : ℕ)
    → c.first_event_minutes ≡ c'.first_event_minutes
    → c.last_event_minutes ≡ c'.last_event_minutes
    → InSpan t c m
    → InSpan t c' m
InSpan-moved c c' t m e f s = record {
  first = s.first;
  last = s.last;
  first_is = sym (ap (lookup t) e) ∙ s.first_is;
  last_is = sym (ap (lookup t) f) ∙ s.last_is;
  from = s.from;
  upto = s.upto;
}

-- Events of any kind, with a new one for a task at the end of its list.
module _ {E : Type 0} (time : E → Freeze) where
  abbrev AllIn : Collected → List (ℕ × List E) → Type 0
  AllIn c d = (t : ℕ) → All (λ r. InSpan t c (fz_minutes (time r))) (get_or [] t d)

  AllIn-record_event :
      (task : ℕ) (fz : Freeze) (c : Collected) (d : List (ℕ × List E))
      → AllIn c d
      → AllIn (record_event task fz c) d
  AllIn-record_event task fz c d h t =
      All-map _ _ (get_or [] t d) (λ r s. record_event-keeps t (fz_minutes (time r)) task fz c s)
        (h t)

  AllIn-insert :
      (task : ℕ) (e : E) (c : Collected) (d : List (ℕ × List E))
      → AllIn c d
      → InSpan task c (fz_minutes (time e))
      → AllIn c (insert task (get_or [] task d ++ (e ∷ [])) d)
  AllIn-insert task e c d h s t = elim (Bool-cases (task == t)) [
    | inr other ↦
        subst (λ o. All (λ r. InSpan t c (fz_minutes (time r))) (elim o [ none ↦ [] | some v ↦ v ]))
          (sym (lookup-insert_other task t _ d other)) (h t)
    | inl same_task ↦
        subst
          (λ k.
            All (λ r. InSpan k c (fz_minutes (time r)))
              (get_or [] k (insert task (get_or [] task d ++ (e ∷ [])) d)))
          ((==_iff task t).0 same_task)
          (subst
            (λ o.
              All (λ r. InSpan task c (fz_minutes (time r))) (elim o [ none ↦ [] | some v ↦ v ]))
            (sym (lookup-insert_same task _ d))
            (All-append _ (get_or [] task d) (e ∷ []) (h task) (s, tt)))
  ]

  AllIn-moved :
      (c c' : Collected) (d : List (ℕ × List E))
      → c.first_event_minutes ≡ c'.first_event_minutes
      → c.last_event_minutes ≡ c'.last_event_minutes
      → AllIn c d
      → AllIn c' d
  AllIn-moved c c' d e f h t =
      All-map _ _ (get_or [] t d) (λ r s. InSpan-moved c c' t _ e f s) (h t)

pub Spanned-moved :
    (c c' : Collected)
    → c.first_event_minutes ≡ c'.first_event_minutes
    → c.last_event_minutes ≡ c'.last_event_minutes
    → c.active_reports ≡ c'.active_reports
    → c.read_events ≡ c'.read_events
    → Spanned c
    → Spanned c'
Spanned-moved c c' e f g k s = record {
  reports =
      AllIn-moved (λ r. r.fz) c c' c'.active_reports e f (subst (AllIn (λ r. r.fz) c) g s.reports);
  reads = AllIn-moved (λ r. r.fz) c c' c'.read_events e f (subst (AllIn (λ r. r.fz) c) k s.reads);
}

pub apply_config-Spanned : (t : TaskConfig) (c : Collected) → Spanned c → Spanned (apply_config t c)
apply_config-Spanned t c s =
    if-holds Spanned (t.task_id == 0xFF && t.switch_flag == 0) _ _
      (λ _. Spanned-moved c _ refl refl refl refl s)
      (λ _.
        if-holds Spanned (t.switch_flag == 0) _ _ (λ _. Spanned-moved c _ refl refl refl refl s)
          (λ _. Spanned-moved c _ refl refl refl refl s))

pub apply_report-Spanned :
    (has_data : Bool) (r : ActiveReport) (c : Collected)
    → Spanned c
    → Spanned (apply_report has_data r c)
apply_report-Spanned has_data r c s =
    let after = record_event r.task_id r.fz c in
    let one : Report = record { address = r.address; fz = r.fz; has_data = has_data } in
    record {
      reports =
          AllIn-moved (λ x. x.fz) after (apply_report has_data r c) _ refl refl
            (AllIn-insert (λ x. x.fz) r.task_id one after c.active_reports
              (AllIn-record_event (λ x. x.fz) r.task_id r.fz c c.active_reports s.reports)
              (record_event-InSpan r.task_id r.fz c));
      reads =
          AllIn-moved (λ x. x.fz) after (apply_report has_data r c) _ refl refl
            (AllIn-record_event (λ x. x.fz) r.task_id r.fz c c.read_events s.reads);
    }

pub apply_read-Spanned :
    (has_data : Bool) (r : ReadFrame) (c : Collected)
    → Spanned c
    → Spanned (apply_read has_data r c)
apply_read-Spanned has_data r c s =
    let after = record_event r.task_id r.fz c in
    let one : Read = record {
      scene = classify_11e3_scene r;
      address = r.address;
      fz = r.fz;
      has_data = has_data;
    } in
    record {
      reports =
          AllIn-moved (λ x. x.fz) after (apply_read has_data r c) _ refl refl
            (AllIn-record_event (λ x. x.fz) r.task_id r.fz c c.active_reports s.reports);
      reads =
          AllIn-moved (λ x. x.fz) after (apply_read has_data r c) _ refl refl
            (AllIn-insert (λ x. x.fz) r.task_id one after c.read_events
              (AllIn-record_event (λ x. x.fz) r.task_id r.fz c c.read_events s.reads)
              (record_event-InSpan r.task_id r.fz c));
    }
