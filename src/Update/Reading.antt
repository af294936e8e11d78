-- ===== src/Update/Reading.antt =====
-- The reading of an update's arguments: `parse_template`, `parse_ds` and `get_time_from_reading` of
-- src/rrd_update.c. A string is the list of its bytes, and the values are cut out of it.
pub mod Order
use rrdtool_1_x.Prelude.{
  ◌>>=◌, ℕ, suc, Bool, true, false, ◌&&◌, ◌||◌, not, Option, none, some, List, [], ◌∷◌, ltb, leb,
  ◌==◌, if◌then◌else◌, length, replicate, set, codes, str_eq,
}
use rrdtool_1_x.Prelude.Double.{Double}
use rrdtool_1_x.Format.{dst_conv, DataSource, Rrd, ds_match}
use rrdtool_1_x.Update.Pdp.{is_computed}

abbrev pub prepend : ℕ → List (List ℕ) → List (List ℕ)
prepend x [] = []
prepend x (p ∷ parts) = (x ∷ p) ∷ parts

-- the parts between the colons, at least one
unfoldable pub split_colons : List ℕ → List (List ℕ)
split_colons [] = [] ∷ []
split_colons (x ∷ xs) =
    let parts = split_colons xs in if x == b':' then [] ∷ parts else prepend x parts

-- what stands before and after the first `sep`
unfoldable pub cut_at : ℕ → List ℕ → Option (List ℕ × List ℕ)
cut_at sep [] = none
cut_at sep (x ∷ xs) =
    let rest = cut_at sep xs in
    if x == sep
    then some ([], xs)
    else elim rest [ none ↦ none | some (before, after) ↦ some (x ∷ before, after) ]

-- `tmpl_idx` from entry 1 on; `tmpl_cnt` is one more than its length. Without a template there is
-- an entry for every data source that is not computed.
unfoldable pub default_template : {D : Type 0} → List (DataSource D) → ℕ → List ℕ
default_template [] i = []
default_template (s ∷ sources) i =
    let rest = default_template sources (suc i) in
    if is_computed (dst_conv s.dst) then rest else i ∷ rest

-- the loop of `parse_template`, with `tmpl_cnt` entries found
unfoldable pub template_from : {D : Type 0} → Rrd D → ℕ → List (List ℕ) → Option (List ℕ)
template_from rrd tmpl_cnt [] = some []
template_from rrd tmpl_cnt (name ∷ names) = if ltb (length rrd.sources) tmpl_cnt then none else do
  k ← ds_match rrd name
  rest ← template_from rrd (suc tmpl_cnt) names
  some (suc k ∷ rest)

unfoldable pub parse_template : {D : Type 0} → Rrd D → List ℕ → Option (List ℕ)
parse_template rrd tmplt = template_from rrd 1 (split_colons tmplt)

-- The values in their places, `tmpl_idx` counting from 1: "found extra data" and "expected readings"
-- where their numbers differ.
unfoldable pub place : List ℕ → List (List ℕ) → List (List ℕ) → Option (List (List ℕ))
place [] [] updvals = some updvals
place (suc i ∷ tmpl_idx) (v ∷ values) updvals = place tmpl_idx values (set updvals i v)
place _ _ updvals = none

-- `get_time_from_reading`, on its three returns
pub data Time : Type 0 where
  bad_time : Time  -- -1
  illegal_time : Time  -- -2
  at_time : (sec usec : ℕ) → Time

-- What the program asks the system for and what the other parsers return: `gettimeofday` after
-- `normalize_time`, `rrd_parsetime` with `mktime` (`none` is its error or a relative time), and the
-- `float` constant 1e-6f.
pub record Outside (D : Type 0) : Type 0 where
  pub clock : ℕ × ℕ
  pub parse_time : List ℕ → Option ℕ
  pub strtodbl : List ℕ → Option D
  pub micro : D

-- the test at the end of `get_time_from_reading`
unfoldable pub is_later : ℕ → ℕ → ℕ → ℕ → Bool
is_later sec usec last_up last_up_usec =
    not (ltb sec last_up || ((sec == last_up) && leb usec last_up_usec))

module _ {D : Type 0} ⦃d : Double D⦄ (outside : Outside D) where
  open d use {of_nat, to_nat, floor, add, sub, mul, lt}

  -- a negative time counts back from now
  unfoldable pub from_now : D → D
  from_now tmp =
      if lt tmp (of_nat 0)
      then add (add (of_nat outside.clock.0) (mul (of_nat outside.clock.1) outside.micro)) tmp
      else tmp

  -- A time before 1970 is earlier than any last update.
  unfoldable pub number_time : D → Time
  number_time tmp =
      let sec = to_nat (floor tmp) in
      if lt tmp (of_nat 0)
      then illegal_time
      else at_time sec (to_nat (mul (sub tmp (of_nat sec)) (of_nat 1_000_000)))

  unfoldable pub read_time : Bool → List ℕ → Time
  read_time at_style text =
      if at_style
      then elim (outside.parse_time text) [ none ↦ bad_time | some sec ↦ at_time sec 0 ]
      else if str_eq text (codes "N")
      then at_time outside.clock.0 outside.clock.1
      else elim (outside.strtodbl text) [ none ↦ bad_time | some tmp ↦ number_time (from_now tmp) ]

  unfoldable pub check_time : Rrd D → ℕ → Time → Time
  check_time rrd version bad_time = bad_time
  check_time rrd version illegal_time = illegal_time
  check_time rrd version (at_time sec usec) =
      let kept = if ltb version 3 then 0 else usec in
      if is_later sec kept rrd.last_up rrd.last_up_usec then at_time sec kept else illegal_time

  unfoldable pub get_time_from_reading : Rrd D → Bool → List ℕ → ℕ → Time
  get_time_from_reading rrd at_style text version = check_time rrd version (read_time at_style text)

  -- the time's text, its syntax and what follows: the first '@', or else the first ':'
  unfoldable pub cut_time : List ℕ → Option (Bool × (List ℕ × List ℕ))
  cut_time input = elim (cut_at b'@' input) [
    | some parts ↦ some (true, parts)
    | none ↦ elim (cut_at b':' input) [ none ↦ none | some parts ↦ some (false, parts) ]
  ]

  -- The time and the values of the data sources, "U" where the argument has none.
  unfoldable pub parse_ds : Rrd D → List ℕ → List ℕ → ℕ → Option (Time × List (List ℕ))
  parse_ds rrd tmpl_idx input version = do
    (at_style, (text, values)) ← cut_time input
    updvals ← place tmpl_idx (split_colons values) (replicate (length rrd.sources) (codes "U"))
    some (get_time_from_reading rrd at_style text version, updvals)
