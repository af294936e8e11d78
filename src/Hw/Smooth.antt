-- ===== src/Hw/Smooth.antt =====
-- `apply_smoother` of src/rrd_hw.c and `smooth_all_rras` of src/rrd_update.c. The values of an archive
-- are one list, row after row. `none` is the -1 of an error or a short read. The consolidation functions
-- are taken to have valid names: the error that `rrd_cf_conv` leaves set for another is not kept.
pub mod Frame
use rrdtool_1_x.Prelude.{
  ◌>>=◌, ℕ, zero, suc, ◌+◌, ◌*◌, ◌%◌, Bool, true, false, Option, none, some, List, [], ◌∷◌, ltb,
  leb, ◌==◌, if◌then◌else◌, length, get_elem?, set, replicate, map,
}
use rrdtool_1_x.Prelude.Int.{sub_ℕ}
use rrdtool_1_x.Prelude.Double.{Double}
use rrdtool_1_x.Format.{Cf, hwpredict, mhwpredict, seasonal, devseasonal, rrd_cf_conv, Cdp, Rra}
use rrdtool_1_x.Store.{File, rrd_seek, rrd_read, rrd_write}
use rrdtool_1_x.Hw.{hw_multiplicative_init_seasonality}
use rrdtool_1_x.Hw.Queue.{my_mod, FifoQueue, queue_alloc, queue_push, queue_pop}

-- what is kept for a data source: `buffers[j]`, `working_average[j]` and `baseline[j]`
pub record Column (D : Type 0) : Type 0 where
  pub buffer : FifoQueue D
  pub working_average : D
  pub baseline_sum : D

-- the names of the consolidation functions have been read before
unfoldable pub is_smoothed : Option Cf → Bool
is_smoothed (some seasonal) = true
is_smoothed (some devseasonal) = true
is_smoothed _ = false

abbrev pub is_seasonal_cf : Option Cf → Bool
is_seasonal_cf (some seasonal) = true
is_seasonal_cf _ = false

module _ {D : Type 0} where
  -- a loop over the data sources, from `j` on, that also works on `values`
  unfoldable pub each_column :
      (ℕ → List D → Column D → Option (List D × Column D))
      → ℕ
      → List D
      → List (Column D)
      → Option (List D × List (Column D))
  each_column step j values [] = some (values, [])
  each_column step j values (c ∷ columns) = do
    (values', c') ← step j values c
    (values'', columns') ← each_column step (suc j) values' columns
    some (values'', c' ∷ columns')

  abbrev pub with_value : D → Option (List D) → Option (List D)
  with_value v none = none
  with_value v (some vs) = some (v ∷ vs)

  abbrev pub rra_at : List (Rra D) → ℕ → Option (Rra D)
  rra_at rras i = get_elem? rras i

  unfoldable pub write_values : List D → File D → Option (File D)
  write_values [] f = some f
  write_values (v ∷ vs) f = do f' ← rrd_write f v; write_values vs f'

module _ {D : Type 0} ⦃d : Double D⦄ where
  open d use {of_nat, to_nat, floor, add, sub, mul, div, is_nan}

  -- Half of the window. The version is that of the file.
  unfoldable pub smooth_offset : ℕ → Rra D → ℕ
  smooth_offset version rra =
      if leb 4 version
      then to_nat (floor (mul (div rra.hw_beta (of_nat 2)) (of_nat rra.row_cnt)))
      else to_nat (floor (mul (div (div (of_nat 5) (of_nat 100)) (of_nat 2)) (of_nat rra.row_cnt)))

  -- The values of the archive, unless one is NaN, where the reading stops.
  unfoldable pub read_known : ℕ → File D → Option (Option (List D) × File D)
  read_known zero f = some (some [], f)
  read_known (suc n) f = do
    (v, f') ← rrd_read f
    let rest = read_known n f' in
        if is_nan v then some (none, f') else (rest >>= λ (vs, f''). some (with_value v vs, f''))

  -- "compute sums of the first 2*offset terms"
  unfoldable pub first_term : ℕ → ℕ → ℕ → List D → Column D → Option (List D × Column D)
  first_term row_length k j values c = do
    v ← get_elem? values (k * row_length + j)
    b ← queue_push c.buffer v
    some (values, record c { buffer = b; working_average = add c.working_average v })

  unfoldable pub first_terms :
      ℕ → ℕ → ℕ → ℕ → ℕ → List D → List (Column D) → Option (List (Column D))
  first_terms row_length row_count offset zero i values columns = some columns
  first_terms row_length row_count offset (suc n) i values columns = do
    (values', columns') ←
        each_column (first_term row_length (my_mod (sub_ℕ i offset) row_count)) 0 values columns
    first_terms row_length row_count offset n (suc i) values columns'

  -- One data source of one row: the newest value of the window comes from the copy, and the mean goes
  -- to the middle of the window.
  unfoldable pub move_window :
      List D → ℕ → ℕ → ℕ → ℕ → ℕ → List D → Column D → Option (List D × Column D)
  move_window copy row_length row_count offset i j values c = do
    v ← get_elem? copy (my_mod (sub_ℕ i 0) row_count * row_length + j)
    b ← queue_push c.buffer v
    (oldest, b') ← queue_pop b
    some (
      set values (my_mod (sub_ℕ i offset) row_count * row_length + j)
          (div (add c.working_average v) (of_nat (2 * offset + 1))),
      record c {
        buffer = b';
        working_average = sub (add c.working_average v) oldest;
        baseline_sum = add c.baseline_sum (div (add c.working_average v) (of_nat (2 * offset + 1)));
      },
    )

  unfoldable pub move_windows :
      List D → ℕ → ℕ → ℕ → ℕ → ℕ → List D → List (Column D) → Option (List D × List (Column D))
  move_windows copy row_length row_count offset zero i values columns = some (values, columns)
  move_windows copy row_length row_count offset (suc n) i values columns = do
    (values', columns') ←
        each_column (move_window copy row_length row_count offset i) 0 values columns
    move_windows copy row_length row_count offset n (suc i) values' columns'

  -- the baselines, divided by the number of rows
  abbrev pub baselines : ℕ → List (Column D) → List D
  baselines row_count columns = map (λ c. div c.baseline_sum (of_nat row_count)) columns

  -- each value against the baseline of its data source, `p` being its place
  unfoldable pub against_baseline : (D → D → D) → List D → ℕ → ℕ → List D → Option (List D)
  against_baseline init_seasonality base row_length p [] = some []
  against_baseline init_seasonality base row_length p (v ∷ values) = do
    b ← get_elem? base (p % row_length)
    rest ← against_baseline init_seasonality base row_length (suc p) values
    some (init_seasonality v b ∷ rest)

  -- "update the baseline coefficient" of each data source
  unfoldable pub raise_intercepts : List D → List (Cdp D) → Option (List (Cdp D))
  raise_intercepts [] cdps = some cdps
  raise_intercepts (b ∷ base) [] = none
  raise_intercepts (b ∷ base) (c ∷ cdps) = do
    cdps' ← raise_intercepts base cdps
    some (record c { hw_intercept = add c.hw_intercept b } ∷ cdps')

  unfoldable pub init_seasonality_of : Option Cf → Option (D → D → D)
  init_seasonality_of (some hwpredict) = some sub
  init_seasonality_of (some mhwpredict) = some hw_multiplicative_init_seasonality
  init_seasonality_of _ = none

  -- what is done for a SEASONAL archive
  unfoldable pub smooth_seasonal :
      List (Rra D) → Rra D → ℕ → List D → List D → Option (List (Rra D) × List D)
  smooth_seasonal rras rra row_length base values = do
    dep ← rra_at rras rra.dependent_rra_idx
    init_seasonality ← init_seasonality_of (rrd_cf_conv dep.cf_nam)
    values' ← against_baseline init_seasonality base row_length 0 values
    cdps ← raise_intercepts base dep.cdps
    some (set rras rra.dependent_rra_idx (record dep { cdps = cdps }), values')

  -- a column before the sums; `memory` is what `malloc` returns for a queue
  abbrev pub fresh_column : (ℕ → List D) → ℕ → Column D
  fresh_column malloc capacity = record {
    buffer = queue_alloc (malloc capacity) capacity;
    working_average = of_nat 0;
    baseline_sum = of_nat 0;
  }

  -- what is done with the values of an archive of the consolidation function, by name
  unfoldable pub smooth_by_cf :
      List (Rra D) → Rra D → ℕ → List D → List D → Option (List (Rra D) × List D)
  smooth_by_cf rras rra row_length base values =
      if is_seasonal_cf (rrd_cf_conv rra.cf_nam)
      then smooth_seasonal rras rra row_length base values
      else some (rras, values)

  module _ (malloc : ℕ → List D) where
    -- from the values on
    unfoldable pub smooth_values :
        List (Rra D) → Rra D → ℕ → ℕ → ℕ → List D → File D → Option (List (Rra D) × File D)
    smooth_values rras rra row_length rra_start offset values f = do
      columns ←
          first_terms row_length rra.row_cnt offset (2 * offset) 0 values
            (replicate row_length (fresh_column malloc (2 * offset + 1)))
      (smoothed, columns') ←
          move_windows values row_length rra.row_cnt offset rra.row_cnt offset values columns
      (rras', values') ← smooth_by_cf rras rra row_length (baselines rra.row_cnt columns') smoothed
      f' ← write_values values' (rrd_seek f rra_start)
      some (rras', f')

    abbrev pub smooth_if_known :
        List (Rra D) → Rra D → ℕ → ℕ → ℕ → Option (List D) × File D → Option (List (Rra D) × File D)
    smooth_if_known rras rra row_length rra_start offset (none, f) = some (rras, f)
    smooth_if_known rras rra row_length rra_start offset (some values, f) =
        smooth_values rras rra row_length rra_start offset values f

    unfoldable pub apply_smoother :
        ℕ → List (Rra D) → ℕ → ℕ → ℕ → File D → Option (List (Rra D) × File D)
    apply_smoother version rras rra_idx row_length rra_start f = rra_at rras rra_idx >>= λ rra.
        if smooth_offset version rra == 0
        then some (rras, f)
        else (read_known (rra.row_cnt * row_length) (rrd_seek f rra_start)
            >>= smooth_if_known rras rra row_length rra_start (smooth_offset version rra))

    -- one archive of the loop, `q` its definition
    abbrev pub smooth_rra :
        ℕ → List (Rra D) → Rra D → ℕ → ℕ → ℕ → File D → Option (List (Rra D) × File D)
    smooth_rra version rras q rra_idx row_length rra_start f =
        if is_smoothed (rrd_cf_conv q.cf_nam)
        then apply_smoother version rras rra_idx row_length rra_start f
        else some (rras, f)

    -- The loop over the archives, of which `qs` are those that remain, as they were before: names and
    -- numbers of rows do not change.
    unfoldable pub smooth_rras :
        ℕ → List (Rra D) → List (Rra D) → ℕ → ℕ → ℕ → File D → Option (List (Rra D) × File D)
    smooth_rras version [] rras rra_idx row_length rra_start f = some (rras, f)
    smooth_rras version (q ∷ qs) rras rra_idx row_length rra_start f = do
      (rras', f') ← smooth_rra version rras q rra_idx row_length rra_start f
      smooth_rras version qs rras' (suc rra_idx) row_length (rra_start + q.row_cnt * row_length) f'

    unfoldable pub smooth_all_rras : ℕ → List (Rra D) → ℕ → File D → Option (List (Rra D) × File D)
    smooth_all_rras version rras row_length f = smooth_rras version rras rras 0 row_length 0 f
