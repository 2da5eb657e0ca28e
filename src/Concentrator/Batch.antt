-- ===== src/Concentrator/Batch.antt =====
-- The sliding window of concurrent meter reads: `BatchReadJob` of libs/sim_concentrator/batch.py.
-- The main loop and the workers are threads; each step below is what one of them does between two
-- points where another may run.
pub mod Counts
pub mod Window
pub mod Progress
use zzt_self.Base.{
  ℕ, zero, suc, ◌+◌, ◌-◌, ◌*◌, ◌/◌, ◌%◌, ◌^◌, ◌≤◌, ◌<◌, min, max, ◌≡◌, refl, sym, ap, ◌∙◌, ◌≢◌, ◌↔◌,
  ◌⊎◌, inl, inr, Bool, true, false, not, ◌&&◌, ◌||◌, Option, none, some, List, [], ◌∷◌, ◌++◌, map,
  append-nil, append_assoc, arith, ltb, leb, ◌==◌, if◌then◌else◌, ltb→lt, lt→ltb, leb→le, le→leb,
  ==_iff, ==_refl, Bool-cases, Option-cases, take_front, drop_front, &&_true, not-eq-true, Bytes,
  length, get_elem?, take, drop, replicate, All, length-append, take-append-drop,
  take-length-append, drop-length-append, length-take, length-drop, length-replicate, All-append,
  sum, mem, sum-append, when, and_then, when-eq-some, and_then-eq-some, holds_under, holds_under_at,
  if-holds, elim-holds, get_elem?-lt, take-length, get_elem?-append, drop-length, same, same_refl,
  drop-drop, take_all, same_text, same_text_iff, text_or, is_text, digit, digits, decimal, has_text,
  join, numbered,
}
use Prim.Native.String.{String, slice, len}

pub data Mode : Type 0 where
  single batch : Mode

pub data RowStatus : Type 0 where
  success deny timeout error : RowStatus

-- The texts that are keys of `deny_breakdown`.
abbrev pub status_text : RowStatus → String
status_text success = "success"
status_text deny = "deny"
status_text timeout = "timeout"
status_text error = "error"

-- The parts of a row that are not times or notes.
pub record Row : Type 0 where
  pub meter : String
  pub status : RowStatus
  pub deny_code : Option String
  pub reply_hex : String

-- `self` with its `state`, and the main loop's queue and free slots. `active` are the meters whose
-- worker still runs. `abandoned` are those whose worker returned without a row, after a stop: a
-- count of what happened, no variable of the source.
pub record BatchReadJob : Type 0 where
  pub max_concurrent : ℕ
  pub mode : Mode
  pub meters : List String
  pub queue : List String
  pub slots : ℕ
  pub active : List String
  pub abandoned : List String
  pub stopped : Bool
  pub finished : Bool
  pub in_flight : ℕ
  pub queued : ℕ
  pub done : ℕ
  pub succeeded : ℕ
  pub failed : ℕ
  pub deny_breakdown : List (String × ℕ)
  pub claimed : List String
  pub rows : List Row

-- `__init__`; the meters are without blank names.
abbrev pub new_job : ℕ → Mode → List String → BatchReadJob
new_job max_concurrent mode meters = record {
  max_concurrent = max 1 max_concurrent;
  mode = mode;
  meters = meters;
  queue = meters;
  slots = 0;
  active = [];
  abandoned = [];
  stopped = false;
  finished = false;
  in_flight = 0;
  queued = length meters;
  done = 0;
  succeeded = 0;
  failed = 0;
  deny_breakdown = [];
  claimed = [];
  rows = [];
}

-- `d[key] = d.get(key, 0) + 1`
abbrev pub bump : String → List (String × ℕ) → List (String × ℕ)
bump key [] = (key, 1) ∷ []
bump key ((k, n) ∷ rest) = if same_text k key then (k, suc n) ∷ rest else (k, n) ∷ bump key rest

-- `deny["code_hex"] if deny else status`
abbrev pub breakdown_key : Row → String
breakdown_key r = elim r.deny_code [ none ↦ status_text r.status | some code ↦ code ]

abbrev pub is_success : RowStatus → Bool
is_success success = true
is_success deny = false
is_success timeout = false
is_success error = false

-- `_row`
abbrev pub add_row : Row → BatchReadJob → BatchReadJob
add_row r job =
    let good = is_success r.status in
    record job {
      rows = job.rows ++ (r ∷ []);
      done = suc job.done;
      in_flight = job.in_flight - 1;
      succeeded = if good then suc job.succeeded else job.succeeded;
      failed = if good then job.failed else suc job.failed;
      deny_breakdown =
          if good then job.deny_breakdown else bump (breakdown_key r) job.deny_breakdown;
    }

-- A frame of the history as `_read_one` reads it: `deny_code` is what `deny_info` finds, and
-- `names` is `_decoded_match_addr`.
pub record Reply : Type 0 where
  pub uplink : Bool
  pub afn : ℕ
  pub fn : ℕ
  pub deny_code : Option String
  pub names : String → Bool
  pub hexs : String

abbrev pub mode_afn : Mode → ℕ
mode_afn single = 0x02
mode_afn batch = 0xF1

-- `any(_decoded_match_addr(decoded, m) for m in self.meters if m != meter)`
abbrev pub names_other : Reply → String → List String → Bool
names_other r meter [] = false
names_other r meter (m ∷ ms) = not (same_text m meter) && r.names m || names_other r meter ms

-- `reply_hex[-96:]`
abbrev pub last_96 : String → String
last_96 s = slice s (len s - 96) (len s)

abbrev pub row_of : String → RowStatus → Option String → Reply → Row
row_of meter status code r = record {
  meter = meter;
  status = status;
  deny_code = code;
  reply_hex = last_96 r.hexs;
}

-- The row for a meter from the first of the new frames that decides about it, with the denials
-- claimed. A frame that cannot be decoded is `none`.
unfoldable pub first_answer :
    Mode → List String → String → List (Option Reply) → List String → Option Row × List String
first_answer mode meters meter [] claimed = (none, claimed)
first_answer mode meters meter (none ∷ rest) claimed = first_answer mode meters meter rest claimed
first_answer mode meters meter (some r ∷ rest) claimed =
    let skip = first_answer mode meters meter rest claimed in
    if not r.uplink
    then skip
    else if r.afn == 0 && r.fn == 2
    then elim r.deny_code [
      | none ↦ skip
      | some code ↦
          if r.names meter
          then (some (row_of meter deny (some code) r), claimed)
          else if names_other r meter meters
          then skip
          else if has_text r.hexs claimed
          then skip
          else (some (row_of meter deny (some code) r), r.hexs ∷ claimed)
    ]
    else if r.afn == mode_afn mode && r.fn == 1 && r.names meter
    then (some (row_of meter success none r), claimed)
    else skip

-- The worker at an index of `active` returns.
abbrev pub without {ℓ} : {A : Type ℓ} → ℕ → List A → List A
without k [] = []
without zero (x ∷ xs) = xs
without (suc k) (x ∷ xs) = x ∷ without k xs

abbrev pub leave : ℕ → BatchReadJob → BatchReadJob
leave k job = record job { active = without k job.active }

-- One poll of the history by a worker.
unfoldable pub poll : ℕ → List (Option Reply) → BatchReadJob → BatchReadJob
poll k frames job = elim (get_elem? job.active k) [
  | none ↦ job
  | some meter ↦
      let (row, claimed) = first_answer job.mode job.meters meter frames job.claimed in
      let seen = record job { claimed = claimed } in
      elim row [ none ↦ seen | some r ↦ leave k (add_row r seen) ]
]

-- A worker that cannot build or send its frame, or whose wait raises.
unfoldable pub fail : ℕ → BatchReadJob → BatchReadJob
fail k job = elim (get_elem? job.active k) [
  | none ↦ job
  | some meter ↦
      leave k
        (add_row (record { meter = meter; status = error; deny_code = none; reply_hex = "" }) job)
]

-- A worker past its deadline writes a row, unless the job is stopped: then it just returns.
unfoldable pub expire_worker : ℕ → BatchReadJob → BatchReadJob
expire_worker k job = elim (get_elem? job.active k) [
  | none ↦ job
  | some meter ↦
      if job.stopped
      then leave k (record job { abandoned = meter ∷ job.abandoned })
      else leave k (
          add_row (record { meter = meter; status = timeout; deny_code = none; reply_hex = "" })
            job)
]

-- `slots = self.max_concurrent - self.state["in_flight"]`, at the head of a round.
unfoldable pub measure : BatchReadJob → BatchReadJob
measure job = record job { slots = job.max_concurrent - job.in_flight }

-- One pass of `for _ in range(max(0, slots))`, with a free slot and the queue.
abbrev pub launch_one : ℕ → List String → BatchReadJob → BatchReadJob
launch_one left [] job = record job { slots = 0 }
launch_one left (m ∷ ms) job = if job.stopped then record job { slots = 0 } else record job {
  slots = left;
  queue = ms;
  queued = length ms;
  in_flight = suc job.in_flight;
  active = job.active ++ (m ∷ []);
}

unfoldable pub launch : BatchReadJob → BatchReadJob
launch job = elim job.slots [ zero ↦ job | suc left ↦ launch_one left job.queue job ]

abbrev pub is_nil {ℓ} : {A : Type ℓ} → List A → Bool
is_nil [] = true
is_nil (x ∷ xs) = false

-- The loop is over and every worker joined.
unfoldable pub finish : BatchReadJob → BatchReadJob
finish job =
    if (is_nil job.queue || job.stopped) && is_nil job.active
    then record job { finished = true; queued = 0 }
    else job

abbrev pub stop : BatchReadJob → BatchReadJob
stop job = record job { stopped = true }

pub data JobEvent : Type 0 where
  measures launches finishes stops : JobEvent
  polls : ℕ → List (Option Reply) → JobEvent
  fails expires : ℕ → JobEvent

unfoldable pub run_event : JobEvent → BatchReadJob → BatchReadJob
unfolding measure launch finish poll fail expire_worker
run_event measures job = measure job
run_event launches job = launch job
run_event finishes job = finish job
run_event stops job = stop job
run_event (polls k frames) job = poll k frames job
run_event (fails k) job = fail k job
run_event (expires k) job = expire_worker k job
