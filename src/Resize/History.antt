-- ===== src/Resize/History.antt =====
-- What the resize of an archive does to its history, the values from the oldest row to the newest.
use rrdtool_1_x.Prelude.{
  ℕ, zero, suc, ◌+◌, ◌*◌, ◌≤◌, ◌<◌, ◌≡◌, sym, ap, ◌∙◌, List, [], ◌∷◌, ◌++◌, arith, length,
  length-append, take, drop, replicate, drop-drop, lt→ltb,
}
use mathlib.Core.List.{append_assoc, append-nil}
use rrdtool_1_x.Format.{Rra}
use rrdtool_1_x.Resize.{Copying, read_value, write_value, copy, fill, copy_rest, drop_rows}

module _ {D : Type 0} where
  abbrev pub copying : List D → List D → D → Copying D
  copying input output buffer = record { input = input; output = output; buffer = buffer }

  pub copy_lem :
      (n : ℕ) (xs out : List D) (b : D)
      → n ≤ length xs
      → (b' : D) × (copy n (copying xs out b) ≡ copying (drop n xs) (out ++ take n xs) b')
  unfolding copy read_value write_value
  copy_lem zero xs out b h = (b, ap (λ o. copying xs o b) (sym (append-nil out)))
  copy_lem (suc n) [] out b h = absurd (omega arith)
  copy_lem (suc n) (x ∷ xs) out b h =
      let (b', ran) = copy_lem n xs (out ++ (x ∷ [])) x (omega arith) in
      (b', ran ∙ ap (λ o. copying (drop n xs) o b') (append_assoc out (x ∷ []) (take n xs)))

  pub fill_lem :
      (n : ℕ) (xs out : List D) (b : D)
      → fill n (copying xs out b) ≡ copying xs (out ++ replicate n b) b
  unfolding fill write_value
  fill_lem zero xs out b = ap (λ o. copying xs o b) (sym (append-nil out))
  fill_lem (suc n) xs out b =
      fill_lem n xs (out ++ (b ∷ [])) b
      ∙ ap (λ o. copying xs o b) (append_assoc out (b ∷ []) (replicate n b))

  pub drop_rows_lem :
      (ds_cnt n : ℕ) (xs out : List D) (b : D)
      → drop_rows ds_cnt n (copying xs out b) ≡ copying (drop (n * ds_cnt) xs) out b
  unfolding drop_rows
  drop_rows_lem ds_cnt zero xs out b =
      let nothing : 0 ≡ 0 * ds_cnt = omega arith in ap (λ k. copying (drop k xs) out b) nothing
  drop_rows_lem ds_cnt (suc n) xs out b =
      let all : ds_cnt + n * ds_cnt ≡ suc n * ds_cnt = omega arith in
      drop_rows_lem ds_cnt n (drop ds_cnt xs) out b
      ∙ ap (λ ys. copying ys out b) (drop-drop (n * ds_cnt) ds_cnt xs ∙ ap (λ k. drop k xs) all)

  pub copy_rest_lem :
      (file_len : ℕ) (xs out : List D)
      → length out + length xs ≤ file_len
      → copy_rest file_len xs out ≡ out ++ xs
  unfolding copy_rest
  copy_rest_lem file_len [] out h = sym (append-nil out)
  copy_rest_lem file_len (x ∷ xs) out h = rw (lt→ltb (length out) file_len (omega arith)) (
      copy_rest_lem file_len xs (out ++ (x ∷ [])) (omega (arith, length-append out (x ∷ [])))
      ∙ append_assoc out (x ∷ []) xs)

  -- the values after the row pointer, and then those up to it
  abbrev pub history : ℕ → ℕ → List D → List D
  history ds_cnt cur_row cells =
      drop (ds_cnt * (cur_row + 1)) cells ++ take (ds_cnt * (cur_row + 1)) cells

  -- The archive of `rra` and what comes after it, half written: `written` is in the new file and
  -- `left` still in the old one.
  pub record Resized (ds_cnt : ℕ) (rra' : Rra D) (before after wanted : List D)
      (out : Rra D × Copying D) : Type 0 where
    pub written : List D
    pub left : List D
    pub buffer : D
    pub ran : out ≡ (rra', copying (left ++ after) (before ++ written) buffer)
    pub rows : length (written ++ left) ≡ ds_cnt * rra'.row_cnt
    pub inside : rra'.cur_row < rra'.row_cnt
    pub values : history ds_cnt rra'.cur_row (written ++ left) ≡ wanted
