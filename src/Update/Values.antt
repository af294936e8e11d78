-- ===== src/Update/Values.antt =====
-- `update_pdp_prep` of src/rrd_update.c: what a reading means for each type of data source.
-- `strtodbl` is `rrd_strtodbl` on a whole string; `none` is any result but 2.
pub mod Counter
pub mod Kept
use rrdtool_1_x.Prelude.{
  ◌>>=◌, ℕ, Bool, true, false, ◌&&◌, ◌||◌, not, Option, none, some, List, [], ◌∷◌, ◌==◌,
  if◌then◌else◌, take, codes,
}
use rrdtool_1_x.Prelude.Double.{Double}
use rrdtool_1_x.Format.{
  Dst, counter, absolute, gauge, derive, computed, dcounter, dderive, dst_conv, DataSource,
}
use rrdtool_1_x.Diff.{is_digit, unknown, overrun, known, rrd_diff}
use rrdtool_1_x.Update.Pdp.{is_computed}

-- the first character is 'U'
abbrev pub is_unknown : List ℕ → Bool
is_unknown [] = false
is_unknown (x ∷ xs) = x == b'U'

abbrev pub all_digits : List ℕ → Bool
all_digits [] = true
all_digits (x ∷ xs) = is_digit x && all_digits xs

-- "not a simple integer" otherwise; a DERIVE value may start with '-'
unfoldable pub is_integer : Bool → List ℕ → Bool
is_integer signed [] = true
is_integer signed (x ∷ xs) = (is_digit x || (signed && (x == b'-'))) && all_digits xs

-- the copy by `strncpy` into `last_ds`, which the NUL at LAST_DS_LEN - 1 ends
abbrev pub copied : List ℕ → List ℕ
copied value = take 29 value

module _ {D : Type 0} ⦃d : Double D⦄ where
  open d use {nan, of_nat, neg, add, sub, mul, div, lt, is_nan}

  -- `a >= b`
  abbrev pub at_least : D → D → Bool
  at_least a b = not (lt a b) && not (is_nan a || is_nan b)

  -- the overflow catcher of a COUNTER
  unfoldable pub catch_overflow : D → D
  catch_overflow v =
      let once = if lt v (of_nat 0) then add v (of_nat 4294967295) else v in
      if lt once (of_nat 0) then add once (of_nat 18446744069414584320) else once

  module _ (strtodbl : List ℕ → Option D) where
    abbrev pub read_or_nan : List ℕ → D
    read_or_nan res = elim (strtodbl res) [ none ↦ nan | some v ↦ v ]

    -- The `double` that `rrd_diff` returns. Where it overruns its buffer, the update counts as failed.
    unfoldable pub difference : List ℕ → List ℕ → Option D
    difference a b = elim (rrd_diff a b) [
      | unknown ↦ some nan
      | overrun ↦ none
      | known false res ↦ some (read_or_nan res)
      | known true res ↦ some (neg (read_or_nan res))
    ]

    -- rate * time and the rate of a reading; both stay unknown where the C code sets neither
    unfoldable pub interpret : Dst → List ℕ → List ℕ → D → Option (D × D)
    interpret counter value last_ds interval =
        if not (is_integer false value)
        then none
        else if is_unknown last_ds
        then some (nan, nan)
        else (do
          diff ← difference value last_ds
          some (let v = catch_overflow diff in (v, div v interval)))
    interpret derive value last_ds interval =
        if not (is_integer true value)
        then none
        else if is_unknown last_ds
        then some (nan, nan)
        else (do v ← difference value last_ds; some (v, div v interval))
    interpret absolute value last_ds interval = do v ← strtodbl value; some (v, div v interval)
    interpret gauge value last_ds interval = do v ← strtodbl value; some (mul v interval, v)
    interpret dcounter value last_ds interval = if is_unknown last_ds then some (nan, nan) else do
      new ← strtodbl value
      old ← strtodbl last_ds
      some (
          if (lt (of_nat 0) new && lt new old) || (lt new (of_nat 0) && lt old new)
          then (nan, nan)
          else (sub new old, div (sub new old) interval))
    interpret dderive value last_ds interval = if is_unknown last_ds then some (nan, nan) else do
      new ← strtodbl value
      old ← strtodbl last_ds
      some (sub new old, div (sub new old) interval)
    interpret computed value last_ds interval = none

    -- a rate beyond the limits of its data source makes the reading unknown
    unfoldable pub limit : DataSource D → D → D → D
    limit s v rate =
        if not (is_nan rate)
          && ((not (is_nan s.max_val) && lt s.max_val rate)
              || (not (is_nan s.min_val) && lt rate s.min_val))
        then nan
        else v

    -- The body of the loop of `update_pdp_prep`. A data source of unknown type is an error.
    unfoldable pub prepare_pdp : DataSource D → List ℕ → D → Option (DataSource D × D)
    prepare_pdp s value interval =
        let last_ds = if lt (of_nat s.mrhb_cnt) interval then codes "U" else s.last_ds in
        let after : DataSource D = record s { last_ds = copied value } in
        if not (is_unknown value)
          && (not (is_computed (dst_conv s.dst)) && at_least (of_nat s.mrhb_cnt) interval)
        then (do
          dst ← dst_conv s.dst
          (v, rate) ← interpret dst value last_ds interval
          some (after, limit s v rate))
        else some (after, nan)

    unfoldable pub update_pdp_prep :
        List (DataSource D) → List (List ℕ) → D → Option (List (DataSource D) × List D)
    update_pdp_prep (s ∷ sources) (value ∷ updvals) interval = do
      (s', v) ← prepare_pdp s value interval
      (sources', pdp_new) ← update_pdp_prep sources updvals interval
      some (s' ∷ sources', v ∷ pdp_new)
    update_pdp_prep sources _ interval = some (sources, [])
