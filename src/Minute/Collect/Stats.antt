-- ===== src/Minute/Collect/Stats.antt =====
-- The statistics of the tasks, from what the lines gave.
use zzt_self.Base.{
  ℕ, zero, suc, ◌-◌, min, ◌&&◌, Option, none, some, List, [], ◌∷◌, ◌++◌, map, ltb, leb,
  if◌then◌else◌, mem, and_then,
}
use zzt_self.Base.Dict.{lookup, number_key}
use zzt_self.Minute.Time.{fz_minutes, period_range}
use zzt_self.Minute.Cycle.{
  Addresses, Report, Read, TaskCycleStats, cycle_stats, bucket_at, is_empty,
}
use zzt_self.Minute.Collect.{Collected, get_or}

-- `sorted` on numbers.
abbrev pub place_number : ℕ → List ℕ → List ℕ
place_number n [] = n ∷ []
place_number n (x ∷ xs) = if leb n x then n ∷ x ∷ xs else x ∷ place_number n xs

abbrev pub sorted_numbers : List ℕ → List ℕ
sorted_numbers [] = []
sorted_numbers (x ∷ xs) = place_number x (sorted_numbers xs)

-- The differences of neighbours from 1 to 60.
abbrev pub gaps : List ℕ → List ℕ
gaps [] = []
gaps (a ∷ []) = []
gaps (a ∷ b ∷ rest) =
    let later = gaps (b ∷ rest) in
    if ltb 0 (b - a) && leb (b - a) 60 then (b - a) ∷ later else later

-- `min(gaps) if gaps else 1`
abbrev pub least : List ℕ → ℕ
least [] = 1
least (g ∷ []) = g
least (g ∷ h ∷ rest) = min g (least (h ∷ rest))

abbrev pub event_minutes : List Report → List Read → List ℕ
event_minutes reports reads = map (λ r. fz_minutes r.fz) reports ++ map (λ r. fz_minutes r.fz) reads

-- The configured period, or one guessed from the events where it is missing or 0.
abbrev pub period_of : Option ℕ → List Report → List Read → ℕ
period_of configured reports reads = elim configured [
  | none ↦ least (gaps (sorted_numbers (event_minutes reports reads)))
  | some zero ↦ least (gaps (sorted_numbers (event_minutes reports reads)))
  | some (suc p) ↦ suc p
]

pub record TaskStats : Type 0 where
  pub task_id : ℕ
  pub period : ℕ
  pub configured_addresses : Addresses
  pub cycles : List TaskCycleStats
  pub delete_count : ℕ

-- The loop over the cycles, from an index on.
abbrev pub cycles_from :
    Option Addresses → ℕ → List Report → List Read → ℕ → List ℕ → List TaskCycleStats
cycles_from configured period reports reads index [] = []
cycles_from configured period reports reads index (start ∷ rest) =
    cycle_stats configured index start (bucket_at period reports reads start)
    ∷ cycles_from configured period reports reads (suc index) rest

-- An empty archive counts as none.
abbrev pub archive_of : ℕ → Collected → Option Addresses
archive_of task c = elim (lookup task c.task_configured) [
  | none ↦ none
  | some archive ↦ if is_empty archive then none else some archive
]

-- The statistics of a task that has an event.
abbrev pub stats_between : ℕ → Collected → ℕ → ℕ → TaskStats
stats_between task c first last =
    let reports = get_or [] task c.active_reports in
    let reads = get_or [] task c.read_events in
    let period = period_of (lookup task c.task_period_map) reports reads in
    record {
      task_id = task;
      period = period;
      configured_addresses = get_or [] task c.task_configured;
      cycles =
          cycles_from (archive_of task c) period reports reads 1 (period_range first last period);
      delete_count = get_or 0 task c.task_delete_count;
    }

abbrev pub task_stats : ℕ → Collected → Option TaskStats
task_stats task c = and_then (lookup task c.first_event_minutes) (λ first.
    and_then (lookup task c.last_event_minutes) (λ last. some (stats_between task c first last)))

-- `sorted(set(active_reports) | set(read_events))`
abbrev pub add_number : ℕ → List ℕ → List ℕ
add_number n xs = if mem n xs then xs else place_number n xs

abbrev pub tasks_of : Collected → List ℕ
tasks_of c = add_keys c.read_events (add_keys c.active_reports [])
  where
    add_keys : {V : Type 0} → List (ℕ × V) → List ℕ → List ℕ
    add_keys [] ks = ks
    add_keys ((k, v) ∷ rest) ks = add_keys rest (add_number k ks)

abbrev pub all_stats : List ℕ → Collected → List TaskStats
all_stats [] c = []
all_stats (t ∷ ts) c = elim (task_stats t c) [ none ↦ all_stats ts c | some s ↦ s ∷ all_stats ts c ]
