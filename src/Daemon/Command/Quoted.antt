-- ===== src/Daemon/Command/Quoted.antt =====
-- What the client writes for a list of strings.
use rrdtool_1_x.Prelude.{
  ℕ, zero, suc, ◌+◌, ◌-◌, ◌≡◌, refl, sym, ap, ◌∙◌, inl, inr, true, false, ◌||◌, some, List, [], ◌∷◌,
  ◌++◌, map, arith, ◌==◌, if◌then◌else◌, length, length-append, All, Bool-cases,
}
use mathlib.Core.List.{append-nil, append_assoc}
use rrdtool_1_x.Daemon.Command.{
  is_special, buffer_add_string, stamped, add_values, end_line, cut_return, line_of, field_from,
  ends_with_nul,
}

-- no NUL, newline or carriage return
abbrev pub IsPlain : ℕ → Type 0
IsPlain c = ((c == 0) ≡ false) × ((c == 10) ≡ false) × ((c == 13) ≡ false)

-- the bytes of a string, with a backslash before each space and backslash
abbrev pub quoted : List ℕ → List ℕ
quoted [] = []
quoted (c ∷ str) = let rest = quoted str in if is_special c then 92 ∷ c ∷ rest else c ∷ rest

-- strings with a space between them
abbrev pub joined : List ℕ → List (List ℕ) → List ℕ
joined str [] = quoted str
joined str (s ∷ strs) = quoted str ++ (32 ∷ joined s strs)

-- and one after the last
abbrev pub spaced : List (List ℕ) → List ℕ
spaced [] = []
spaced (s ∷ strs) = (quoted s ++ (32 ∷ [])) ++ spaced strs

pub spaced-joined :
    (s : List ℕ) (strs : List (List ℕ)) → spaced (s ∷ strs) ≡ joined s strs ++ (32 ∷ [])
spaced-joined s [] = append-nil (quoted s ++ (32 ∷ []))
spaced-joined s (t ∷ strs) =
    append_assoc (quoted s) (32 ∷ []) (spaced (t ∷ strs))
    ∙ ap (λ line. quoted s ++ (32 ∷ line)) (spaced-joined t strs)
    ∙ sym (append_assoc (quoted s) (32 ∷ joined t strs) (32 ∷ []))

pub buffer_add_string_lem :
    (str : List ℕ) (room left : ℕ)
    → room ≡ length (quoted str ++ (32 ∷ [])) + left
    → buffer_add_string str room ≡ some (quoted str ++ (32 ∷ []), left)
unfolding buffer_add_string
buffer_add_string_lem [] zero left e = ground (arith, e)
buffer_add_string_lem [] (suc room) left e = ground (arith, e)
buffer_add_string_lem (c ∷ str) zero left e = ground (arith, e)
buffer_add_string_lem (c ∷ str) (suc room) left e = elim (Bool-cases (is_special c)) [
  | inl special ↦
      let next : room - 1 ≡ length (quoted str ++ (32 ∷ [])) + left = ground (arith, special, e) in
      let some_room : (room == 0) ≡ false = ground (arith, special, e) in
      rw (special, some_room, buffer_add_string_lem str (room - 1) left next) refl
  | inr ordinary ↦
      let next : room ≡ length (quoted str ++ (32 ∷ [])) + left = ground (arith, ordinary, e) in
      rw (ordinary, buffer_add_string_lem str room left next) refl
]

pub add_values_lem :
    (now : List ℕ) (values : List (List ℕ)) (room left : ℕ)
    → room ≡ length (spaced (map (stamped now) values)) + left
    → add_values now values room ≡ some (spaced (map (stamped now) values), left)
unfolding add_values
add_values_lem now [] room left e = ap (λ n. some ([], n)) (omega (arith, e))
add_values_lem now (value ∷ values) room left e =
    let here = quoted (stamped now value) ++ (32 ∷ []) in
    let others = spaced (map (stamped now) values) in
    let enough : room ≡ length here + (length others + left) =
      omega (arith, e, length-append here others) in
    rw
      (
        buffer_add_string_lem (stamped now value) room (length others + left) enough,
        add_values_lem now values (length others + left) left refl,
      )
      refl

pub end_line_lem : (line : List ℕ) → end_line (line ++ (32 ∷ [])) ≡ some (line ++ (10 ∷ []))
unfolding end_line
end_line_lem [] = refl
end_line_lem (c ∷ []) = refl
end_line_lem (c ∷ (e ∷ line)) = rw (end_line_lem (e ∷ line)) refl

pub line_of_lem :
    (line more : List ℕ) → All IsPlain line → line_of (line ++ (10 ∷ more)) ≡ some (line, more)
unfolding line_of
line_of_lem [] more h = refl
line_of_lem (c ∷ line) more h = rw (line_of_lem line more h.1, h.0.1) refl

pub cut_return_lem : (line : List ℕ) → All IsPlain line → cut_return line ≡ line
unfolding cut_return
cut_return_lem [] h = refl
cut_return_lem (c ∷ []) h = rw (h.0.2) refl
cut_return_lem (c ∷ (e ∷ line)) h = rw (cut_return_lem (e ∷ line) h.1) refl

pub quoted-IsPlain : (str : List ℕ) → All IsPlain str → All IsPlain (quoted str)
quoted-IsPlain [] h = tt
quoted-IsPlain (c ∷ str) h = elim (Bool-cases (is_special c)) [
  | inl special ↦ rw special ((refl, refl, refl), (h.0, quoted-IsPlain str h.1))
  | inr ordinary ↦ rw ordinary (h.0, quoted-IsPlain str h.1)
]

All-append : (xs ys : List ℕ) → All IsPlain xs → All IsPlain ys → All IsPlain (xs ++ ys)
All-append [] ys h k = k
All-append (x ∷ xs) ys h k = (h.0, All-append xs ys h.1 k)

pub joined-IsPlain :
    (s : List ℕ) (strs : List (List ℕ)) → All (All IsPlain) (s ∷ strs) → All IsPlain (joined s strs)
joined-IsPlain s [] h = quoted-IsPlain s h.0
joined-IsPlain s (t ∷ strs) h =
    All-append (quoted s) (32 ∷ joined t strs) (quoted-IsPlain s h.0)
      ((refl, refl, refl), joined-IsPlain t strs h.1)

-- a field that ends with `end`, a space or NUL
pub field_from_lem :
    (str rest : List ℕ) (end : ℕ)
    → All IsPlain str
    → ((end == 32) || (end == 0)) ≡ true
    → field_from false (quoted str ++ (end ∷ rest)) ≡ some (str, rest)
unfolding field_from
field_from_lem [] rest end h e = rw e refl
field_from_lem (c ∷ str) rest end h e = ground (arith, field_from_lem str rest end h.1 e, h)

pub ends_with_nul_lem : (buffer : List ℕ) → ends_with_nul (buffer ++ (0 ∷ [])) ≡ true
unfolding ends_with_nul
ends_with_nul_lem [] = refl
ends_with_nul_lem (c ∷ []) = refl
ends_with_nul_lem (c ∷ (e ∷ buffer)) = ends_with_nul_lem (e ∷ buffer)
