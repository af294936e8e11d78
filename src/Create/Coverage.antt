-- ===== src/Create/Coverage.antt =====
-- The intervals of src/rrd_create.c (`coverage_t`) and `add_coverage`, which counts the seconds that a
-- new interval covers first. Times are natural numbers, and start and end are inclusive. A comparison
-- of two differences is written as one of sums.
pub mod Visits
pub mod Cover
pub mod Loop
pub mod Add
pub mod Recount
use rrdtool_1_x.Prelude.{
  ◌>>=◌, ℕ, zero, suc, ◌+◌, ◌*◌, ◌-◌, Bool, true, false, ◌&&◌, ◌||◌, not, Option, none, some, List,
  [], ◌∷◌, ◌++◌, ltb, leb, ◌==◌, if◌then◌else◌, length,
}
use rrdtool_1_x.Prelude.Int.{ℤ, pos}
use rrdtool_1_x.Update.Pdp.{as_int}

pub record Interval : Type 0 where
  pub covered : Bool
  pub start : ℕ
  pub end : ℕ

abbrev pub min_time : ℕ → ℕ → ℕ
min_time a b = if ltb a b then a else b

abbrev pub max_time : ℕ → ℕ → ℕ
max_time a b = if ltb b a then a else b

-- Here the smaller end is not before the greater start.
unfoldable pub overlap : ℕ → ℕ → ℕ → ℕ → ℕ
overlap start1 end1 start2 end2 =
    if leb end1 start1
    then 0
    else if leb end2 start2
    then 0
    else if ltb end2 start1
    then 0
    else if ltb end1 start2
    then 0
    else min_time end1 end2 - max_time start1 start2

unfoldable pub is_interval_within_interval : ℕ → ℕ → ℕ → ℕ → Bool
unfolding overlap
is_interval_within_interval start1 end1 start2 end2 =
    if ltb (end2 + start1) (end1 + start2)
    then false
    else overlap start1 end1 start2 end2 + start1 == end1

unfoldable pub is_time_within_interval : ℕ → ℕ → ℕ → Bool
is_time_within_interval t start end = leb start t && leb t end

-- What the loop does at one interval.
pub data Visit : Type 0 where
  -- `break`: the interval is replaced, and so many seconds are newly covered
  leave : List Interval → ℕ → Visit
  -- to the next interval, with a new start
  go_on : Interval → ℕ → ℕ → Visit
  -- the same, and the second one is put in before the next interval
  put_in : Interval → Interval → ℕ → ℕ → Visit

abbrev pub interval : Bool → ℕ → ℕ → Interval
interval covered start end = record { covered = covered; start = start; end = end }

-- Case (A): the new interval lies in this one.
unfoldable pub visit_inside : ℕ → ℕ → Interval → Visit
visit_inside start end cc =
    if cc.covered
    then leave (cc ∷ []) 0
    else if (start == cc.start) && (end == cc.end)
    then leave (interval true cc.start cc.end ∷ []) (end + 1 - start)
    else if cc.start == start
    then leave (interval true cc.start end ∷ interval false (end + 1) cc.end ∷ []) (end + 1 - start)
    else if cc.end == end
    then leave (interval false cc.start (start - 1) ∷ interval true start cc.end ∷ [])
        (end + 1 - start)
    else leave
        (interval false cc.start (start - 1)
          ∷ interval true start end
          ∷ interval false (end + 1) cc.end
          ∷ [])
        (end + 1 - start)

-- Case (C), after `newly` seconds of case (B): the new interval starts in this one.
unfoldable pub visit_start : ℕ → Interval → ℕ → Visit
unfolding is_time_within_interval
visit_start start cc newly =
    if is_time_within_interval start cc.start cc.end
    then if cc.covered
      then go_on cc newly (cc.end + 1)
      else if cc.start == start
      then go_on (interval true cc.start cc.end) newly (cc.end + 1)
      else put_in (interval false cc.start (start - 1)) (interval true start cc.end)
          (newly + (cc.end + 1 - start)) (cc.end + 1)
    else go_on cc newly start

-- Case (B): the new interval covers this one.
unfoldable pub visit_whole : ℕ → ℕ → Interval → Visit
unfolding is_interval_within_interval visit_start
visit_whole start end cc =
    if is_interval_within_interval cc.start cc.end start end && not cc.covered
    then visit_start start (interval true cc.start cc.end) (cc.end + 1 - cc.start)
    else visit_start start cc 0

unfoldable pub visit : ℕ → ℕ → Interval → Visit
unfolding is_interval_within_interval visit_inside visit_whole
visit start end cc =
    if is_interval_within_interval start end cc.start cc.end
    then visit_inside start end cc
    else visit_whole start end cc

-- The loop over the intervals, with the seconds that are newly covered. On fuel, since an interval
-- that is put in is visited as well.
unfoldable pub cover : ℕ → ℕ → ℕ → List Interval → Option (List Interval × ℕ)
cover zero start end cs = none
cover (suc fuel) start end [] = some ([], 0)
cover (suc fuel) start end (cc ∷ cs) = elim (visit start end cc) [
  | leave out newly ↦ some (out ++ cs, newly)
  | go_on c newly start' ↦ do (out, more) ← cover fuel start' end cs; some (c ∷ out, newly + more)
  | put_in c next newly start' ↦ do
    (out, more) ← cover fuel start' end (next ∷ cs)
    some (c ∷ out, newly + more)
]

-- "collapse same type-intervals bordering each other", from the interval `cc` on
abbrev pub same_kind : Bool → Bool → Bool
same_kind true b = b
same_kind false b = not b

unfoldable pub collapse_from : Interval → List Interval → List Interval
collapse_from cc [] = cc ∷ []
collapse_from cc (next ∷ rest) =
    let joined = collapse_from (record cc { end = next.end }) rest in
    let apart = collapse_from next rest in
    if same_kind cc.covered next.covered then joined else cc ∷ apart

unfoldable pub collapse : List Interval → List Interval
collapse [] = []
collapse (cc ∷ cs) = collapse_from cc cs

-- the end of the last interval, `cc` being the first
abbrev pub last_end : Interval → List Interval → ℕ
last_end cc [] = cc.end
last_end cc (c ∷ cs) = last_end c cs

-- enough for the loop
abbrev pub visits : List Interval → ℕ
visits cs = suc (2 * length cs)

-- `current_coverage` is the interval `first` and those after it. `*newly_covered_interval` is an `int`:
-- cutting each sum to 32 bits comes to the same as cutting the last one.
unfoldable pub add_coverage : Interval → List Interval → ℕ → ℕ → Option (List Interval × ℤ)
add_coverage first rest start end =
    let start' = max_time first.start start in
    let end' = min_time (last_end first rest) end in
    if ltb end' first.start || ltb (last_end first rest) start'
    then some (first ∷ rest, pos 0)
    else do
      (out, newly) ← cover (visits (first ∷ rest)) start' end' (first ∷ rest)
      some (collapse out, as_int newly)
