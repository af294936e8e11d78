-- ===== src/Update/Reading/Order.antt =====
-- Time moves on with each update: the check of `get_time_from_reading`.
use rrdtool_1_x.Prelude.{
  ℕ, ◌<◌, ◌≡◌, ◌⊎◌, inl, inr, Bool, true, List, arith, ltb, if◌then◌else◌, Bool-cases,
}
use rrdtool_1_x.Prelude.Double.{Double}
use rrdtool_1_x.Format.{Rrd}
use rrdtool_1_x.Update.Reading.{
  Time, bad_time, illegal_time, at_time, Outside, is_later, read_time, check_time,
  get_time_from_reading,
}

-- seconds first, then microseconds
abbrev pub IsLater : ℕ → ℕ → ℕ → ℕ → Type 0
IsLater sec usec last_up last_up_usec = (last_up < sec) ⊎ ((last_up ≡ sec) × (last_up_usec < usec))

is_later-IsLater :
    (sec usec last_up last_up_usec : ℕ)
    → is_later sec usec last_up last_up_usec ≡ true
    → IsLater sec usec last_up last_up_usec
unfolding is_later
is_later-IsLater sec usec last_up last_up_usec h = ground arith

module _ {D : Type 0} ⦃d : Double D⦄ (outside : Outside D) where
  check_time-IsLater :
      (rrd : Rrd D) (version : ℕ) (t : Time) {sec usec : ℕ}
      → check_time outside rrd version t ≡ at_time sec usec
      → IsLater sec usec rrd.last_up rrd.last_up_usec × (usec ≡ (if ltb version 3 then 0 else usec))
  unfolding check_time
  check_time-IsLater rrd version bad_time h = cc
  check_time-IsLater rrd version illegal_time h = cc
  check_time-IsLater rrd version (at_time s u) h =
      elim (Bool-cases (is_later s (if ltb version 3 then 0 else u) rrd.last_up rrd.last_up_usec)) [
        | inl e ↦
            let later =
              is_later-IsLater s (if ltb version 3 then 0 else u) rrd.last_up rrd.last_up_usec e in
            ground (arith, later)
        | inr e ↦ ground (arith, e)
      ]

  -- A time that `get_time_from_reading` accepts is later than that of the last update, and has no
  -- microseconds in a file of a version before 3.
  pub get_time_from_reading-IsLater :
      (rrd : Rrd D) (at_style : Bool) (text : List ℕ) (version : ℕ) {sec usec : ℕ}
      → get_time_from_reading outside rrd at_style text version ≡ at_time sec usec
      → IsLater sec usec rrd.last_up rrd.last_up_usec × (usec ≡ (if ltb version 3 then 0 else usec))
  unfolding get_time_from_reading
  get_time_from_reading-IsLater rrd at_style text version h =
      check_time-IsLater rrd version (read_time outside at_style text) h
