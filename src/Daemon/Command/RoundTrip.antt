-- ===== src/Daemon/Command/RoundTrip.antt =====
-- What the client sends comes back.
use rrdtool_1_x.Prelude.{
  ◌>>=◌, ℕ, zero, suc, ◌+◌, ◌-◌, ◌≤◌, ◌≡◌, refl, ap, ◌∙◌, true, false, Option, none, some, List, [],
  ◌∷◌, ◌++◌, map, arith, if◌then◌else◌, length, length-append, codes, All, if_true,
}
use mathlib.Core.List.{append_assoc}
use rrdtool_1_x.Daemon.Command.{
  buffer_add_string, stamped, add_values, end_line, rrd_client_update, cut_return, line_of,
  next_cmd, field_from, buffer_get_field, Stamps, stamp_of, Cached, cache, cache_values,
  handle_update,
}
use rrdtool_1_x.Daemon.Command.Quoted.{
  IsPlain, quoted, joined, spaced, spaced-joined, buffer_add_string_lem, add_values_lem,
  end_line_lem, line_of_lem, cut_return_lem, joined-IsPlain, field_from_lem, ends_with_nul_lem,
}

-- the strings of an update
abbrev pub words : List ℕ → List ℕ → List (List ℕ) → List (List ℕ)
words now file_path values = codes "update" ∷ file_path ∷ map (stamped now) values

-- what the daemon caches of a list of values: those up to the first without a stamp, or whose stamp is
-- not later than the one before it
abbrev pub accept : {D : Type 0} → Stamps D → D → List (List ℕ) → Cached D
accept s last [] = record { last_update_stamp = last; values = []; accepted = true }
accept s last (value ∷ values) = elim (stamp_of s value) [
  | none ↦ record { last_update_stamp = last; values = []; accepted = false }
  | some stamp ↦
      if s.le stamp last
      then record { last_update_stamp = last; values = []; accepted = false }
      else cache value (accept s stamp values)
]

rrd_client_update_lem :
    (now file_path : List ℕ) (values : List (List ℕ))
    → length (spaced (words now file_path values)) ≤ 4096
    → rrd_client_update now file_path values
      ≡ some (joined (codes "update") (file_path ∷ map (stamped now) values) ++ (10 ∷ []))
unfolding rrd_client_update
rrd_client_update_lem now file_path values fits =
    let update_here = quoted (codes "update") ++ (32 ∷ []) in
    let file_here = quoted file_path ++ (32 ∷ []) in
    let others = spaced (map (stamped now) values) in
    let left = 4096 - length (spaced (words now file_path values)) in
    let whole : 4096 ≡ length update_here + (length file_here + (length others + left)) = omega (
      arith,
      fits,
      length-append update_here (file_here ++ others),
      length-append file_here others,
    ) in
    let rest = length others + left in
    let room = length file_here + rest in
    ap
      (λ o. o >>= λ c. buffer_add_string file_path c.1 >>= λ f.
        add_values now values f.1 >>= λ r. end_line (c.0 ++ (f.0 ++ r.0)))
      (buffer_add_string_lem (codes "update") 4096 room whole)
    ∙ ap (λ o. o >>= λ f. add_values now values f.1 >>= λ r. end_line (update_here ++ (f.0 ++ r.0)))
        (buffer_add_string_lem file_path room rest refl)
    ∙ ap (λ o. o >>= λ r. end_line (update_here ++ (file_here ++ r.0)))
        (add_values_lem now values rest left refl)
    ∙ ap end_line (spaced-joined (codes "update") (file_path ∷ map (stamped now) values))
    ∙ end_line_lem (joined (codes "update") (file_path ∷ map (stamped now) values))

-- the buffer with the fields `strs`
abbrev buffer_of : List (List ℕ) → List ℕ
buffer_of [] = []
buffer_of (str ∷ strs) = joined str strs ++ (0 ∷ [])

buffer_get_field_lem :
    (str : List ℕ) (strs : List (List ℕ))
    → All IsPlain str
    → buffer_get_field (buffer_of (str ∷ strs)) ≡ some (str, buffer_of strs)
unfolding buffer_get_field
buffer_get_field_lem str [] h =
    if_true (field_from false (quoted str ++ (0 ∷ []))) none (ends_with_nul_lem (quoted str))
    ∙ field_from_lem str [] 0 h refl
buffer_get_field_lem str (s ∷ strs) h =
    if_true (field_from false (joined str (s ∷ strs) ++ (0 ∷ []))) none
      (ends_with_nul_lem (joined str (s ∷ strs)))
    ∙ ap (field_from false) (append_assoc (quoted str) (32 ∷ joined s strs) (0 ∷ []))
    ∙ field_from_lem str (joined s strs ++ (0 ∷ [])) 32 h refl

length-buffer_of : (strs : List (List ℕ)) → length strs ≤ length (buffer_of strs)
length-buffer_of [] = omega arith
length-buffer_of (str ∷ []) = omega (arith, length-append (quoted str) (0 ∷ []))
length-buffer_of (str ∷ (s ∷ strs)) = omega (
  arith,
  length-buffer_of (s ∷ strs),
  length-append (quoted str ++ (32 ∷ joined s strs)) (0 ∷ []),
  length-append (quoted str) (32 ∷ joined s strs),
  length-append (joined s strs) (0 ∷ []),
)

cache_values-next :
    {D : Type 0} (s : Stamps D) (fuel : ℕ) (buffer value rest : List ℕ) (values : List (List ℕ))
    (last : D)
    → buffer_get_field buffer ≡ some (value, rest)
    → ((stamp : D) → cache_values s fuel rest stamp ≡ accept s stamp values)
    → cache_values s (suc fuel) buffer last ≡ accept s last (value ∷ values)
unfolding cache_values
cache_values-next {D = D} s fuel buffer value rest values last e later =
    ap
      (λ field. elim field [
        | none ↦ record { last_update_stamp = last; values = []; accepted = true }
        | some (v, b) ↦ elim (stamp_of s v) [
          | none ↦ record { last_update_stamp = last; values = []; accepted = false }
          | some stamp ↦
              if s.le stamp last
              then record { last_update_stamp = last; values = []; accepted = false }
              else cache v (cache_values s fuel b stamp)
        ]
      ])
      e
    ∙ stamped_value (stamp_of s value)
  where
    refused : Cached D
    refused = record { last_update_stamp = last; values = []; accepted = false }

    stamped_value :
        (o : Option D)
        → (elim o [
          | none ↦ refused
          | some stamp ↦
              if s.le stamp last then refused else cache value (cache_values s fuel rest stamp)
        ])
          ≡ (elim o [
            | none ↦ refused
            | some stamp ↦ if s.le stamp last then refused else cache value (accept s stamp values)
          ])
    stamped_value none = refl
    stamped_value (some stamp) =
        ap (λ c. if s.le stamp last then refused else cache value c) (later stamp)

cache_values_lem :
    {D : Type 0} (s : Stamps D) (fuel : ℕ) (last : D) (values : List (List ℕ))
    → All (All IsPlain) values
    → length values ≤ fuel
    → cache_values s fuel (buffer_of values) last ≡ accept s last values
unfolding cache_values
cache_values_lem s zero last [] h enough = refl
cache_values_lem s (suc fuel) last [] h enough = refl
cache_values_lem s zero last (value ∷ values) h enough = ground (arith, enough)
cache_values_lem s (suc fuel) last (value ∷ values) h enough =
    cache_values-next s fuel (buffer_of (value ∷ values)) value (buffer_of values) values last
      (buffer_get_field_lem value values h.0)
      (λ stamp. cache_values_lem s fuel stamp values h.1 (omega (arith, enough)))

handle_update_lem :
    {D : Type 0} (s : Stamps D) (command file_path : List ℕ) (values : List (List ℕ)) (last : D)
    → All (All IsPlain) (command ∷ file_path ∷ values)
    → handle_update s (joined command (file_path ∷ values)) last
      ≡ some (command, file_path, accept s last values)
unfolding handle_update
handle_update_lem s command file_path values last h =
    ap
      (λ o. o >>= λ c.
        buffer_get_field c.1 >>= λ f. some (c.0, f.0, cache_values s (length f.1) f.1 last))
      (buffer_get_field_lem command (file_path ∷ values) h.0)
    ∙ ap (λ o. o >>= λ f. some (command, f.0, cache_values s (length f.1) f.1 last))
        (buffer_get_field_lem file_path values h.1.0)
    ∙ ap (λ c. some (command, file_path, c))
        (cache_values_lem s (length (buffer_of values)) last values h.1.1 (length-buffer_of values))

-- Let the path and the values (with the time put in for `N`) be without NUL, newline and carriage
-- return, and let the command fit into 4,096 bytes. Then the client writes the command of an update;
-- the daemon cuts it off what it has read, whatever comes after it, and finds in it the command, the
-- path and the values, each as it was before spaces and backslashes were escaped. It caches the
-- values up to the first without a stamp, or whose stamp is not later than the one before.
pub rrd_client_update-handle_update :
    {D : Type 0} (s : Stamps D) (now file_path : List ℕ) (values : List (List ℕ)) (more : List ℕ)
    (last : D)
    → All (All IsPlain) (words now file_path values)
    → length (spaced (words now file_path values)) ≤ 4096
    → (line : List ℕ) × (cmd : List ℕ) × (rrd_client_update now file_path values ≡ some line)
      × (next_cmd (line ++ more) ≡ some (cmd, more))
      × (handle_update s cmd last
          ≡ some (codes "update", file_path, accept s last (map (stamped now) values)))
unfolding next_cmd
rrd_client_update-handle_update s now file_path values more last h fits =
    let cmd = joined (codes "update") (file_path ∷ map (stamped now) values) in
    let plain : All IsPlain cmd =
      joined-IsPlain (codes "update") (file_path ∷ map (stamped now) values) h in
    (
      cmd ++ (10 ∷ []),
      cmd,
      rrd_client_update_lem now file_path values fits,
      ap (λ rbuf. line_of rbuf >>= λ r. some (cut_return r.0, r.1))
            (append_assoc cmd (10 ∷ []) more)
          ∙ ap (λ o. o >>= λ r. some (cut_return r.0, r.1)) (line_of_lem cmd more plain)
          ∙ ap (λ c. some (c, more)) (cut_return_lem cmd plain),
      handle_update_lem s (codes "update") file_path (map (stamped now) values) last h,
    )
