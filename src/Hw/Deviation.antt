-- ===== src/Hw/Deviation.antt =====
-- `update_devseasonal` and `update_failures` of src/rrd_hw_update.c.
use rrdtool_1_x.Prelude.{
  ◌>>=◌, ℕ, zero, suc, ◌+◌, ◌-◌, ◌%◌, ◌^◌, Bool, true, false, ◌||◌, not, Option, none, some, List,
  [], ◌∷◌, ltb, if◌then◌else◌, length, get_elem?, set,
}
use rrdtool_1_x.Prelude.Double.{Double}
use rrdtool_1_x.Format.{Cdp, Rra}
use rrdtool_1_x.Update.Write.{ScratchIdx, scratch_val, Pending}
use rrdtool_1_x.Hw.{put_scratch, get_cdp, put_cdp, get_rra, HwFunctions}
use rrdtool_1_x.Hw.Predict.{current_seasonal, shift_seasonal}

-- `violation_cnt += violations_array[i - 1]`: a `char` that is added to an `unsigned short`
unfoldable pub count_violation : ℕ → ℕ → ℕ
count_violation cnt b = (cnt + (if ltb b 128 then b else b + 2 ^ 16 - 256)) % 2 ^ 16

-- The loop that shifts the violations, `i` counting down to 2. `none` is a place outside the array.
unfoldable pub shift_violations : ℕ → List ℕ → ℕ → Option (List ℕ × ℕ)
shift_violations zero vs cnt = some (vs, cnt)
shift_violations (suc zero) vs cnt = some (vs, cnt)
shift_violations (suc (suc i)) vs cnt =
    if ltb (suc i) (length vs)
    then (do
      b ← get_elem? vs i
      shift_violations (suc i) (set vs (suc i) b) (count_violation cnt b))
    else none

-- the shift, and the new violation in the first place
unfoldable pub record_violation : ℕ → List ℕ → ℕ → Option (List ℕ × ℕ)
record_violation window_len [] violation = none
record_violation window_len (v ∷ vs) violation = do
  (vs', cnt) ← shift_violations (window_len % 2 ^ 16) (v ∷ vs) violation
  some (set vs' 0 violation, cnt)

module _ {D : Type 0} ⦃d : Double D⦄ where
  open d use {nan, of_nat, add, sub, mul, lt, is_nan}

  -- the prediction from the coefficients of the current step, if they are known
  unfoldable pub known_prediction : HwFunctions D → Bool → Cdp D → D → Option D
  known_prediction functions true coefs seasonal_coef =
      if is_nan coefs.hw_last_intercept || is_nan coefs.hw_last_slope || is_nan seasonal_coef
      then none
      else some (
          functions.predict coefs.hw_last_intercept coefs.hw_last_slope coefs.last_null_count
            seasonal_coef)
  known_prediction functions false coefs seasonal_coef =
      if is_nan coefs.hw_intercept || is_nan coefs.hw_slope || is_nan seasonal_coef
      then none
      else some (functions.predict coefs.hw_intercept coefs.hw_slope coefs.null_count seasonal_coef)

  unfoldable pub deviation_value : HwFunctions D → Rra D → Option D → D → D → D
  deviation_value functions rra none deviation observed = nan
  deviation_value functions rra (some prediction) deviation observed =
      if is_nan observed
      then deviation
      else if is_nan deviation
      then functions.init_seasonal_deviation prediction observed
      else functions.seasonal_deviation rra.hw_alpha prediction observed deviation

  unfoldable pub update_devseasonal :
      HwFunctions D → List (Pending D) → ℕ → ℕ → ScratchIdx → List D → Option (List (Pending D))
  update_devseasonal functions ps rra_idx ds_idx k seasonal_dev = do
    rra ← get_rra ps rra_idx
    hw_rra ← get_rra ps rra.dependent_rra_idx
    c ← get_cdp ps rra_idx ds_idx
    next ← get_elem? seasonal_dev ds_idx
    coefs ← get_cdp (put_cdp ps rra_idx ds_idx (shift_seasonal c next)) rra.dependent_rra_idx ds_idx
    s ← get_cdp (put_cdp ps rra_idx ds_idx (shift_seasonal c next)) hw_rra.dependent_rra_idx ds_idx
    some (
        put_cdp (put_cdp ps rra_idx ds_idx (shift_seasonal c next)) rra_idx ds_idx (
          put_scratch k
            (deviation_value functions rra
              (known_prediction functions (ltb rra.dependent_rra_idx rra_idx) coefs
                (current_seasonal (ltb hw_rra.dependent_rra_idx rra_idx) s))
              c.hw_intercept (scratch_val k c))
            (shift_seasonal c next)))

  unfoldable pub hw_is_violation : D → D → D → D → D → Bool
  hw_is_violation observed prediction deviation delta_pos delta_neg =
      lt (add prediction (mul delta_pos deviation)) observed
      || lt observed (sub prediction (mul delta_neg deviation))

  -- The prediction from the coefficients of the current step, known or not.
  unfoldable pub any_prediction : HwFunctions D → Bool → Cdp D → D → D
  any_prediction functions updated coefs seasonal_coef =
      if updated
      then functions.predict coefs.hw_last_intercept coefs.hw_last_slope coefs.last_null_count
          seasonal_coef
      else functions.predict coefs.hw_intercept coefs.hw_slope coefs.null_count seasonal_coef

  -- whether the observed value is a violation, as 1 or 0
  unfoldable pub violation_of : Rra D → D → D → D → ℕ
  violation_of rra observed prediction deviation =
      if is_nan observed
      then 1
      else if hw_is_violation observed prediction deviation rra.hw_alpha rra.hw_beta
      then 1
      else 0

  abbrev pub failure_value : ℕ → ℕ → D
  failure_value violation_cnt threshold = if ltb violation_cnt threshold then of_nat 0 else of_nat 1

  -- Where the deviation is unknown, the coefficients are not looked at.
  unfoldable pub find_violation :
      HwFunctions D → List (Pending D) → Rra D → ℕ → ℕ → ℕ → ℕ → D → D → Option ℕ
  find_violation functions ps rra rra_idx hw_rra_idx seasonal_rra_idx ds_idx observed deviation =
      if is_nan deviation then some 0 else (do
        s ← get_cdp ps seasonal_rra_idx ds_idx
        coefs ← get_cdp ps hw_rra_idx ds_idx
        some (
            violation_of rra observed
              (any_prediction functions (not (ltb rra_idx hw_rra_idx)) coefs
                (current_seasonal (not (ltb rra_idx seasonal_rra_idx)) s))
              deviation))

  -- "Check for a failure based on a threshold # of violations within the specified window"
  unfoldable pub update_failures :
      HwFunctions D → List (Pending D) → ℕ → ℕ → ScratchIdx → Option (List (Pending D))
  update_failures functions ps rra_idx ds_idx k = do
    rra ← get_rra ps rra_idx
    dev_rra ← get_rra ps rra.dependent_rra_idx
    hw_rra ← get_rra ps dev_rra.dependent_rra_idx
    dev ← get_cdp ps rra.dependent_rra_idx ds_idx
    c ← get_cdp ps rra_idx ds_idx
    violation ←
        find_violation functions ps rra rra_idx dev_rra.dependent_rra_idx hw_rra.dependent_rra_idx
          ds_idx (scratch_val k c)
          (current_seasonal (not (ltb rra_idx hw_rra.dependent_rra_idx)) dev)
    (vs, cnt) ← record_violation rra.window_len c.violations violation
    some (
        put_cdp ps rra_idx ds_idx
          (put_scratch k (failure_value cnt rra.failure_threshold) (record c { violations = vs })))
