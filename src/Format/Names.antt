-- ===== src/Format/Names.antt =====
-- The names of src/rrd_format.c: conversions to and from the enumerations, and the lookup of a data
-- source by its name.
use rrdtool_1_x.Prelude.{
  ℕ, suc, ◌+◌, ◌≡◌, refl, sym, some, List, [], ◌∷◌, arith, str_eq, str_eq→eq, Bool-cases, get_elem?,
  codes,
}
use mathlib.Core.Logic.{inl, inr}
use rrdtool_1_x.Format.{
  Cf, average, rrd_cf_conv, cf_to_string, DataSource, ds_match_from, ds_match, Rrd,
}

-- Every consolidation function is read back from the name that `cf_to_string` prints for it.
pub cf_conv-to_string : (cf : Cf) → rrd_cf_conv (cf_to_string cf) ≡ some cf
unfolding rrd_cf_conv cf_to_string str_eq
cf_conv-to_string average = refl
cf_conv-to_string _ = refl

-- A name that `rrd_cf_conv` accepts as a function is the one that `cf_to_string` prints for it.
pub cf_to_string-conv : (s : List ℕ) (cf : Cf) → rrd_cf_conv s ≡ some cf → cf_to_string cf ≡ s
unfolding rrd_cf_conv cf_to_string
cf_to_string-conv s cf h = ground (
  arith,
  str_eq→eq (codes "AVERAGE") s,
  str_eq→eq (codes "MIN") s,
  str_eq→eq (codes "MAX") s,
  str_eq→eq (codes "LAST") s,
  str_eq→eq (codes "HWPREDICT") s,
  str_eq→eq (codes "MHWPREDICT") s,
  str_eq→eq (codes "DEVPREDICT") s,
  str_eq→eq (codes "SEASONAL") s,
  str_eq→eq (codes "DEVSEASONAL") s,
  str_eq→eq (codes "FAILURES") s,
)

-- What `ds_match_from` finds lies `j` entries from where it starts.
module _ {D : Type 0} where
  ds_match_from-found :
      (sources : List (DataSource D)) (name : List ℕ) (i : ℕ) {k : ℕ}
      → ds_match_from sources name i ≡ some k
      → (j : ℕ) × (k ≡ i + j)
        × (s : DataSource D) × (get_elem? sources j ≡ some s)
        × (s.ds_nam ≡ name)
  unfolding ds_match_from
  ds_match_from-found [] name i h = cc
  ds_match_from-found (s ∷ sources) name i {k} h = elim (Bool-cases (str_eq name s.ds_nam)) [
    | inl e ↦
        let h' : some i ≡ some k = rw e at h in
        (0, ground arith, s, refl, sym (str_eq→eq name s.ds_nam e))
    | inr e ↦
        let h' : ds_match_from sources name (suc i) ≡ some k = rw e at h in
        let (j, q, t, r, n) = ds_match_from-found sources name (suc i) h' in
        (suc j, omega arith, t, r, n)
  ]

  -- The index that `ds_match` returns is that of a data source with the wanted name.
  pub ds_match-found :
      (rrd : Rrd D) (name : List ℕ) {k : ℕ}
      → ds_match rrd name ≡ some k
      → (s : DataSource D) × (get_elem? rrd.sources k ≡ some s) × (s.ds_nam ≡ name)
  unfolding ds_match
  ds_match-found rrd name {k} h =
      let (j, q, s, r, n) = ds_match_from-found rrd.sources name 0 h in
      let e : k ≡ j = omega arith in (s, rw e r, n)
