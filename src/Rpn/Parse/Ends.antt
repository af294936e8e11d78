-- ===== src/Rpn/Parse/Ends.antt =====
-- `rpn_parse` comes to an end: each token takes at least one byte of the text.
use rrdtool_1_x.Prelude.{
  ℕ, zero, suc, ◌+◌, ◌≤◌, ◌<◌, ◌≡◌, refl, ap, sym, ◌⊎◌, inl, inr, Bool, true, ◌&&◌, Option, none,
  some, List, [], ◌∷◌, arith, ltb, ltb→lt, ◌==◌, length, codes, Bool-cases, Option-cases, some_inj,
}
use mathlib.Core.Path.{subst}
use rrdtool_1_x.Prelude.Double.{Double}
use rrdtool_1_x.Rpn.{Op, Rpnp, Math}
use rrdtool_1_x.Rpn.Ranges.{Run, ran, failed, wild, left_out, ◌>>=◌}
use rrdtool_1_x.Rpn.Parse.{
  strip_prefix, at_end, match_op, match_ops, first_ops, later_ops, span, number_char, name_char,
  number_ended, number_of, number_token, prev_name, name_token, later_token, prev_token,
  parse_token, after_token, parse_loop, rpn_parse,
}

strip_prefix-length :
    (word text : List ℕ) {rest : List ℕ}
    → strip_prefix word text ≡ some rest
    → length text ≡ length word + length rest
unfolding strip_prefix
strip_prefix-length [] text h = omega (arith, ap length (some_inj h))
strip_prefix-length (c ∷ word) [] h = cc
strip_prefix-length (c ∷ word) (t ∷ text) h = elim (Bool-cases (c == t)) [
  | inl e ↦ omega (arith, strip_prefix-length word text (rw e at h))
  | inr e ↦ let h' = rw e at h in cc
]

match_op-length :
    (word text : List ℕ) {rest : List ℕ}
    → match_op word text ≡ some rest
    → length text ≡ length word + length rest
unfolding match_op
match_op-length word text h = elim (Option-cases (strip_prefix word text)) [
  | inl e ↦ let h' = rw e at h in cc
  | inr (rest, e) ↦
      let h' = rw e at h in
      elim (Bool-cases (at_end rest)) [
        | inl e2 ↦
            let h2 = rw e2 at h' in
            omega (arith, strip_prefix-length word text e, ap length (some_inj h2))
        | inr e2 ↦ let h2 = rw e2 at h' in cc
      ]
]

-- no operator of a table is the empty string
abbrev named : List (Op × List ℕ) → Bool
named [] = true
named ((op, word) ∷ ops) = ltb 0 (length word) && named ops

match_ops-length :
    (ops : List (Op × List ℕ)) (text : List ℕ) {op : Op} {rest : List ℕ}
    → named ops ≡ true
    → match_ops ops text ≡ some (op, rest)
    → length rest < length text
unfolding match_ops
match_ops-length [] text all h = cc
match_ops-length ((op, word) ∷ ops) text all h = elim (Option-cases (match_op word text)) [
  | inl e ↦ match_ops-length ops text (ground (arith, all)) (rw e at h)
  | inr (rest, e) ↦
      let h' = rw e at h in
      let named_word : ltb 0 (length word) ≡ true = ground (arith, all) in
      omega (
        arith,
        match_op-length word text e,
        ltb→lt 0 (length word) named_word,
        ap (λ t. length t.1) (some_inj h'),
      )
]

length-span :
    (n : ℕ) (test : ℕ → Bool) (text : List ℕ)
    → length text ≡ length (span n test text).0 + length (span n test text).1
unfolding span
length-span zero test text = omega arith
length-span (suc n) test [] = refl
length-span (suc n) test (c ∷ text) = elim (Bool-cases (test c)) [
  | inl e ↦ rw e (omega (arith, length-span n test text))
  | inr e ↦ rw e (omega arith)
]

-- what is asked of a token: the text after it is shorter than `n`
abbrev IsToken : {D : Type 0} → ℕ → Run (Rpnp D × List ℕ) → Type 0
IsToken n (ran (r, rest)) = length rest < n
IsToken n (failed e) = Unit
IsToken n wild = Unit
IsToken n left_out = ⊥

List-cases : {A : Type 0} (xs : List A) → (xs ≡ []) ⊎ ((x : A) × (ys : List A) × (xs ≡ x ∷ ys))
List-cases [] = inl refl
List-cases (x ∷ ys) = inr (x, ys, refl)

module _ {D : Type 0} ⦃d : Double D⦄ ⦃m : Math D⦄ (strtodbl : List ℕ → Option D)
    (lookup : List ℕ → Option ℕ) where
  name_token-IsToken :
      (name rest : List ℕ) (n : ℕ)
      → length name + length rest ≤ n
      → IsToken {D = D} n (name_token lookup (name, rest))
  unfolding name_token
  name_token-IsToken [] rest n h = tt
  name_token-IsToken (c ∷ name) rest n h = elim (Bool-cases (at_end rest)) [
    | inl e ↦ elim (Option-cases (lookup (c ∷ name))) [
      | inl e2 ↦ rw (e, e2) tt
      | inr (i, e2) ↦ rw (e, e2) (omega arith)
    ]
    | inr e ↦ rw e tt
  ]

  prev_name-IsToken :
      (c : ℕ) (name rest : List ℕ) (n : ℕ)
      → length name + length rest ≤ n
      → IsToken {D = D} n (prev_name lookup (c ∷ name, rest))
  unfolding prev_name
  prev_name-IsToken c name [] n h = tt
  prev_name-IsToken c name (k ∷ rest) n h = elim (Bool-cases (at_end rest)) [
    | inl e ↦ elim (Option-cases (lookup (c ∷ name))) [
      | inl e2 ↦ rw (e, e2) tt
      | inr (i, e2) ↦ rw (e, e2) (omega arith)
    ]
    | inr e ↦ rw e tt
  ]

  later_token-IsToken : (expr : List ℕ) → IsToken {D = D} (length expr) (later_token lookup expr)
  unfolding later_token
  later_token-IsToken expr = elim (Option-cases (match_ops later_ops expr)) [
    | inl e ↦ rw e (
        name_token-IsToken (span 255 name_char expr).0 (span 255 name_char expr).1 (length expr)
          (omega (arith, length-span 255 name_char expr)))
    | inr (token, e) ↦ rw e (match_ops-length later_ops expr {rest = token.1} refl e)
  ]

  prev_token-IsToken :
      (o : Option (List ℕ)) (expr : List ℕ)
      → strip_prefix (codes "PREV(") expr ≡ o
      → IsToken {D = D} (length expr) (prev_token lookup o expr)
  unfolding prev_token
  prev_token-IsToken none expr h = later_token-IsToken expr
  prev_token-IsToken (some text) expr h =
      let size = strip_prefix-length (codes "PREV(") expr h in
      let parts = length-span 255 name_char text in
      elim (List-cases (span 255 name_char text).0) [
        | inl e ↦ rw e (later_token-IsToken expr)
        | inr (c, name, e) ↦ rw e (
            prev_name-IsToken c name (span 255 name_char text).1 (length expr)
              (omega (arith, size, parts, ap length e)))
      ]

  number_ended-eq :
      (text : List ℕ) (v : D) {r : Rpnp D} {rest : List ℕ}
      → number_ended text v ≡ some (r, rest)
      → rest ≡ text
  unfolding number_ended
  number_ended-eq [] v h = cc
  number_ended-eq (c ∷ text) v h = elim (Bool-cases (c == 44)) [
    | inl e ↦ let h' = rw e at h in sym (ap (λ t. t.1) (some_inj h'))
    | inr e ↦ let h' = rw e at h in cc
  ]

  number_of-length :
      (text after : List ℕ) {r : Rpnp D} {rest : List ℕ}
      → number_of strtodbl text after ≡ some (r, rest)
      → length rest < length text + length after
  unfolding number_of
  number_of-length [] after h = cc
  number_of-length (c ∷ text) after h = elim (Option-cases (strtodbl (c ∷ text))) [
    | inl e ↦ let h' = rw (number_of, e) at h in cc
    | inr (v, e) ↦
        let h' = rw (number_of, e) at h in omega (arith, ap length (number_ended-eq after v h'))
  ]

  number_token-length :
      (expr : List ℕ) {r : Rpnp D} {rest : List ℕ}
      → number_token strtodbl expr ≡ some (r, rest)
      → length rest < length expr
  unfolding number_token
  number_token-length expr {rest = rest} h =
      let (text, after) = span 40 number_char expr in
      omega (arith, length-span 40 number_char expr, number_of-length text after {rest = rest} h)

  parse_token-IsToken :
      (expr : List ℕ) → IsToken {D = D} (length expr) (parse_token lookup strtodbl expr)
  unfolding parse_token
  parse_token-IsToken expr = elim (Option-cases (number_token strtodbl expr)) [
    | inl e ↦ elim (Option-cases (match_ops first_ops expr)) [
      | inl e2 ↦ rw (e, e2) (prev_token-IsToken (strip_prefix (codes "PREV(") expr) expr refl)
      | inr (token, e2) ↦ rw (e, e2) (match_ops-length first_ops expr {rest = token.1} refl e2)
    ]
    | inr (token, e) ↦ rw e (number_token-length expr {rest = token.1} e)
  ]

  -- what is asked of a loop: it does not run out of fuel
  abbrev IsEnded : {A : Type 0} → Run A → Type 0
  IsEnded left_out = ⊥
  IsEnded _ = Unit

  IsEnded-bind :
      {A B : Type 0} (m : Run A) (f : A → Run B)
      → IsEnded m
      → ((a : A) → m ≡ ran a → IsEnded (f a))
      → IsEnded (m >>= f)
  IsEnded-bind (ran a) f h k = k a refl
  IsEnded-bind (failed e) f h k = tt
  IsEnded-bind wild f h k = tt
  IsEnded-bind left_out f h k = h

  after_token-IsEnded :
      (others : List ℕ → Run (List (Rpnp D))) (r : Rpnp D) (rest : List ℕ)
      → ((text : List ℕ) → length text < length rest → IsEnded (others text))
      → IsEnded (after_token lookup others r rest)
  unfolding after_token
  after_token-IsEnded others r [] h = tt
  after_token-IsEnded others r (k ∷ rest) h = elim (Bool-cases (k == 44)) [
    | inl e ↦ rw e (IsEnded-bind (others rest) _ (h rest (omega arith)) (λ rpnp _. tt))
    | inr e ↦ rw e tt
  ]

  IsToken-IsEnded : (n : ℕ) (t : Run (Rpnp D × List ℕ)) → IsToken {D = D} n t → IsEnded t
  IsToken-IsEnded n (ran token) h = tt
  IsToken-IsEnded n (failed e) h = tt
  IsToken-IsEnded n wild h = tt
  IsToken-IsEnded n left_out h = h

  parse_loop-IsEnded :
      (fuel : ℕ) (expr : List ℕ)
      → length expr ≤ fuel
      → IsEnded (parse_loop lookup fuel strtodbl expr)
  unfolding parse_loop
  parse_loop-IsEnded fuel [] h = tt
  parse_loop-IsEnded zero (c ∷ expr) h = elim h [ ]
  parse_loop-IsEnded (suc fuel) (c ∷ expr) h =
      let token = parse_token-IsToken (c ∷ expr) in
      IsEnded-bind (parse_token lookup strtodbl (c ∷ expr)) _ (IsToken-IsEnded _ _ token)
        λ (r, rest) e.
          let short : length rest < length (c ∷ expr) =
            subst (IsToken {D = D} (length (c ∷ expr))) e token in
          after_token-IsEnded _ r rest
            (λ text l. parse_loop-IsEnded fuel text (omega (arith, l, short, h)))

  -- `rpn_parse` comes to an end on every text, with as many rounds as the text has bytes: each round
  -- takes one byte at least.
  pub rpn_parse-IsEnded : (expr : List ℕ) → ¬ (rpn_parse lookup strtodbl expr ≡ left_out)
  unfolding rpn_parse
  rpn_parse-IsEnded [] h = cc
  rpn_parse-IsEnded (c ∷ expr) h =
      subst IsEnded h (parse_loop-IsEnded (suc (length expr)) (c ∷ expr) (omega arith))
