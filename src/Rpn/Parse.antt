-- ===== src/Rpn/Parse.antt =====
-- `rpn_parse`, `lookup_DS` and `parseCDEF_DS` of src/rrd_rpncalc.c. A string is the list of its bytes
-- before the NUL; `rrd_strtodbl` and the lookup of names are parameters.
pub mod Ends
use rrdtool_1_x.Prelude.{
  ℕ, zero, suc, ◌+◌, Bool, true, false, ◌&&◌, ◌||◌, not, Option, none, some, List, [], ◌∷◌, leb,
  ◌==◌, if◌then◌else◌, length, take, leb, ◌^◌, codes, str_eq,
}
use rrdtool_1_x.Prelude.Int.{pos}
use rrdtool_1_x.Prelude.Double.{Double}
use rrdtool_1_x.Format.{DataSource, ds_match_from}
use rrdtool_1_x.Rpn.{
  op_abs, op_add, op_addnan, op_atan, op_atan2, op_avg, op_ceil, op_copy, op_cos, op_count,
  op_deg2rad, op_depth, op_div, op_dup, op_end, op_eq, op_exc, op_exp, op_floor, op_ge, op_gt,
  op_if, op_index, op_inf, op_isinf, op_le, op_limit, op_log, op_lt, op_ltime, op_max, op_maxnan,
  op_median, op_min, op_minnan, op_mod, op_mul, op_ne, op_neginf, op_newday, op_newmonth,
  op_newweek, op_newyear, op_now, op_number, op_percent, op_pop, op_pow, op_predict, op_predictperc,
  op_predictsigma, op_prev, op_prev_other, op_rad2deg, op_rev, op_roll, op_round, op_sin, op_smax,
  op_smin, op_sort, op_sqrt, op_stdev, op_stepwidth, op_sub, op_time, op_trend, op_trendnan, op_un,
  op_unkn, op_variable, Op, Rpnp, RpnCdefds, Math,
}
use rrdtool_1_x.Rpn.Compact.{blank, rpn_compact}
use rrdtool_1_x.Rpn.Ranges.{
  Run, ran, failed, wild, left_out, empty_expression, not_understood, variable_not_found, garbage,
  not_supported, not_compact, ◌>>=◌, found,
}

-- what is left of a string after a prefix
unfoldable pub strip_prefix : List ℕ → List ℕ → Option (List ℕ)
strip_prefix [] text = some text
strip_prefix (c ∷ prefix) [] = none
strip_prefix (c ∷ prefix) (t ∷ text) =
    let rest = strip_prefix prefix text in if c == t then rest else none

-- whether a token ends here: at a comma or at the NUL
unfoldable pub at_end : List ℕ → Bool
at_end [] = true
at_end (c ∷ text) = c == 44

abbrev pub if_ended : Option (List ℕ) → Option (List ℕ)
if_ended none = none
if_ended (some rest) = if at_end rest then some rest else none

-- `match_op`
unfoldable pub match_op : List ℕ → List ℕ → Option (List ℕ)
match_op word expr = if_ended (strip_prefix word expr)

unfoldable pub match_ops : List (Op × List ℕ) → List ℕ → Option (Op × List ℕ)
match_ops [] expr = none
match_ops ((op, word) ∷ ops) expr =
    let later = match_ops ops expr in first_or (match_op word expr) op later
  where
    first_or : Option (List ℕ) → Op → Option (Op × List ℕ) → Option (Op × List ℕ)
    first_or (some rest) op later = some (op, rest)
    first_or none op later = later

-- the operators before `PREV(...)`, and those after it
abbrev pub first_ops : List (Op × List ℕ)
first_ops =
    (op_add, codes "+")
    ∷ (op_sub, codes "-")
    ∷ (op_mul, codes "*")
    ∷ (op_div, codes "/")
    ∷ (op_mod, codes "%")
    ∷ (op_sin, codes "SIN")
    ∷ (op_cos, codes "COS")
    ∷ (op_log, codes "LOG")
    ∷ (op_floor, codes "FLOOR")
    ∷ (op_ceil, codes "CEIL")
    ∷ (op_exp, codes "EXP")
    ∷ (op_dup, codes "DUP")
    ∷ (op_exc, codes "EXC")
    ∷ (op_pop, codes "POP")
    ∷ (op_ltime, codes "LTIME")
    ∷ (op_newday, codes "NEWDAY")
    ∷ (op_newweek, codes "NEWWEEK")
    ∷ (op_newmonth, codes "NEWMONTH")
    ∷ (op_newyear, codes "NEWYEAR")
    ∷ (op_stepwidth, codes "STEPWIDTH")
    ∷ (op_lt, codes "LT")
    ∷ (op_le, codes "LE")
    ∷ (op_gt, codes "GT")
    ∷ (op_ge, codes "GE")
    ∷ (op_eq, codes "EQ")
    ∷ (op_if, codes "IF")
    ∷ (op_min, codes "MIN")
    ∷ (op_max, codes "MAX")
    ∷ (op_limit, codes "LIMIT")
    ∷ (op_unkn, codes "UNKN")
    ∷ (op_un, codes "UN")
    ∷ (op_neginf, codes "NEGINF")
    ∷ (op_ne, codes "NE")
    ∷ (op_count, codes "COUNT")
    ∷ []

abbrev pub later_ops : List (Op × List ℕ)
later_ops =
    (op_prev, codes "PREV")
    ∷ (op_inf, codes "INF")
    ∷ (op_isinf, codes "ISINF")
    ∷ (op_now, codes "NOW")
    ∷ (op_time, codes "TIME")
    ∷ (op_atan2, codes "ATAN2")
    ∷ (op_atan, codes "ATAN")
    ∷ (op_sqrt, codes "SQRT")
    ∷ (op_sort, codes "SORT")
    ∷ (op_rev, codes "REV")
    ∷ (op_trend, codes "TREND")
    ∷ (op_trendnan, codes "TRENDNAN")
    ∷ (op_predict, codes "PREDICT")
    ∷ (op_predictsigma, codes "PREDICTSIGMA")
    ∷ (op_predictperc, codes "PREDICTPERC")
    ∷ (op_rad2deg, codes "RAD2DEG")
    ∷ (op_deg2rad, codes "DEG2RAD")
    ∷ (op_avg, codes "AVG")
    ∷ (op_abs, codes "ABS")
    ∷ (op_addnan, codes "ADDNAN")
    ∷ (op_minnan, codes "MINNAN")
    ∷ (op_maxnan, codes "MAXNAN")
    ∷ (op_median, codes "MEDIAN")
    ∷ (op_depth, codes "DEPTH")
    ∷ (op_copy, codes "COPY")
    ∷ (op_roll, codes "ROLL")
    ∷ (op_index, codes "INDEX")
    ∷ (op_smax, codes "SMAX")
    ∷ (op_smin, codes "SMIN")
    ∷ (op_stdev, codes "STDEV")
    ∷ (op_percent, codes "PERCENT")
    ∷ (op_pow, codes "POW")
    ∷ (op_round, codes "ROUND")
    ∷ []

-- the longest start of a string, of at most so many bytes, that passes a test
unfoldable pub span : ℕ → (ℕ → Bool) → List ℕ → List ℕ × List ℕ
span zero test text = ([], text)
span (suc n) test [] = ([], [])
span (suc n) test (c ∷ text) =
    let (taken, rest) = span n test text in if test c then (c ∷ taken, rest) else ([], c ∷ text)

abbrev pub between : ℕ → ℕ → ℕ → Bool
between low high c = leb low c && leb c high

-- `[0-9.e+-]`
unfoldable pub number_char : ℕ → Bool
number_char c = between 48 57 c || c == 46 || c == 101 || c == 43 || c == 45

-- `[_A-Za-z0-9-]`, DEF_NAM_FMT
unfoldable pub name_char : ℕ → Bool
name_char c = c == 95 || between 65 90 c || between 97 122 c || between 48 57 c || c == 45

-- the operators "not supported with DS COMPUTE"
unfoldable pub forbidden : Op → Bool
forbidden op_time = true
forbidden op_ltime = true
forbidden op_prev = true
forbidden op_count = true
forbidden op_trend = true
forbidden op_trendnan = true
forbidden op_predict = true
forbidden op_predictsigma = true
forbidden op_predictperc = true
forbidden op_stepwidth = true
forbidden op_newday = true
forbidden op_newweek = true
forbidden op_newmonth = true
forbidden op_newyear = true
forbidden _ = false

module _ {D : Type 0} ⦃d : Double D⦄ ⦃m : Math D⦄ where
  -- A node and the text after it, if the text is a number, which only a comma may follow.
  unfoldable pub number_ended : List ℕ → D → Option (Rpnp D × List ℕ)
  number_ended [] v = none
  number_ended (c ∷ rest) v =
      if c == 44 then some (record (blank op_number) { val = v }, c ∷ rest) else none

  unfoldable pub number_of : (List ℕ → Option D) → List ℕ → List ℕ → Option (Rpnp D × List ℕ)
  number_of strtodbl [] rest = none
  number_of strtodbl (c ∷ text) rest = elim (strtodbl (c ∷ text)) [
    | none ↦ none
    | some v ↦ number_ended rest v
  ]

  unfoldable pub number_token : (List ℕ → Option D) → List ℕ → Option (Rpnp D × List ℕ)
  number_token strtodbl expr =
      let (text, rest) = span 40 number_char expr in number_of strtodbl text rest

  unfoldable pub any_forbidden : List (Rpnp D) → Bool
  any_forbidden [] = false
  any_forbidden (r ∷ rpnp) = forbidden r.op || any_forbidden rpnp

  -- The index is a `short`: after 2 ^ 15 nodes, nodes before the first are read.
  unfoldable pub store_cdef : List (Rpnp D) → Run (List RpnCdefds)
  store_cdef rpnp =
      if any_forbidden (take (2 ^ 15) rpnp)
      then failed not_supported
      else if leb (2 ^ 15) (length rpnp)
      then wild
      else rpn_compact rpnp

  module _ (lookup : List ℕ → Option ℕ) where
    -- `PREV(name)`: the closing bracket may be any byte. Where the text stops at the name, the byte
    -- past the NUL is read. A token that goes on after the bracket is left, and found to be garbage.
    unfoldable pub prev_name : List ℕ × List ℕ → Run (Rpnp D × List ℕ)
    prev_name (name, []) = wild
    prev_name (name, c ∷ rest) =
        if at_end rest
        then elim (lookup name) [
          | none ↦ failed variable_not_found
          | some i ↦ ran (record (blank op_prev_other) { ptr = pos i }, rest)
        ]
        else failed garbage

    unfoldable pub name_token : List ℕ × List ℕ → Run (Rpnp D × List ℕ)
    name_token ([], rest) = failed not_understood
    name_token (c ∷ name, rest) =
        if at_end rest
        then elim (lookup (c ∷ name)) [
          | none ↦ failed not_understood
          | some i ↦ ran (record (blank op_variable) { ptr = pos i }, rest)
        ]
        else failed not_understood

    -- the operators after `PREV(...)`, and then a variable
    unfoldable pub later_token : List ℕ → Run (Rpnp D × List ℕ)
    later_token expr = or_name (match_ops later_ops expr)
      where
        or_name : Option (Op × List ℕ) → Run (Rpnp D × List ℕ)
        or_name (some (op, rest)) = ran (blank op, rest)
        or_name none = name_token (span 255 name_char expr)

    -- `PREV(...)`, if a name follows the bracket
    unfoldable pub prev_token : Option (List ℕ) → List ℕ → Run (Rpnp D × List ℕ)
    prev_token none expr = later_token expr
    prev_token (some text) expr = if_named (span 255 name_char text)
      where
        if_named : List ℕ × List ℕ → Run (Rpnp D × List ℕ)
        if_named ([], rest) = later_token expr
        if_named (c ∷ name, rest) = prev_name (c ∷ name, rest)

    unfoldable pub parse_token : (List ℕ → Option D) → List ℕ → Run (Rpnp D × List ℕ)
    parse_token strtodbl expr = or_op (number_token strtodbl expr)
      where
        or_prev : Option (Op × List ℕ) → Run (Rpnp D × List ℕ)
        or_prev (some (op, rest)) = ran (blank op, rest)
        or_prev none = prev_token (strip_prefix (codes "PREV(") expr) expr

        or_op : Option (Rpnp D × List ℕ) → Run (Rpnp D × List ℕ)
        or_op (some token) = ran token
        or_op none = or_prev (match_ops first_ops expr)

    -- the end, or a comma and the nodes after it
    unfoldable pub after_token :
        (List ℕ → Run (List (Rpnp D))) → Rpnp D → List ℕ → Run (List (Rpnp D))
    after_token others r [] = ran (r ∷ [])
    after_token others r (k ∷ rest) =
        if k == 44 then (others rest >>= λ rpnp. ran (r ∷ rpnp)) else failed garbage

    -- `while (*expr)`, on fuel: `left_out` is its end
    unfoldable pub parse_loop : ℕ → (List ℕ → Option D) → List ℕ → Run (List (Rpnp D))
    parse_loop fuel strtodbl [] = ran []
    parse_loop zero strtodbl (c ∷ expr) = left_out
    parse_loop (suc fuel) strtodbl (c ∷ expr) = parse_token strtodbl (c ∷ expr) >>= λ (r, rest).
        after_token (λ text. parse_loop fuel strtodbl text) r rest

    unfoldable pub rpn_parse : (List ℕ → Option D) → List ℕ → Run (List (Rpnp D))
    rpn_parse strtodbl [] = failed empty_expression
    rpn_parse strtodbl (c ∷ expr) = parse_loop (suc (length expr)) strtodbl (c ∷ expr)

    -- the nodes that are stored in `par`
    unfoldable pub parse_cdef_ds : (List ℕ → Option D) → List ℕ → Run (List RpnCdefds)
    parse_cdef_ds strtodbl def = rpn_parse strtodbl def >>= store_cdef

-- `none` is the -1, which is not an error here.
unfoldable pub lookup_ds : {D : Type 0} → List (DataSource D) → List ℕ → Option ℕ
lookup_ds sources ds_name = ds_match_from sources ds_name 0
