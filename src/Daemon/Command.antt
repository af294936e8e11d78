-- ===== src/Daemon/Command.antt =====
-- An update as a command: `rrd_client_update` of src/rrd_client.c, which writes it, and `next_cmd`,
-- `buffer_get_field` and `handle_request_update` of src/rrd_daemon.c, which read it. A C string is
-- the list of its bytes, and a buffer is what has been written to it, with the room that is left.
pub mod Quoted
pub mod RoundTrip
use rrdtool_1_x.Prelude.{
  ◌>>=◌, ℕ, zero, suc, ◌-◌, Bool, true, false, ◌&&◌, ◌||◌, not, Option, none, some, List, [], ◌∷◌,
  ◌++◌, ◌==◌, if◌then◌else◌, length, take, drop, codes, str_eq,
}

-- a space or a backslash
abbrev pub is_special : ℕ → Bool
is_special c = (c == 32) || (c == 92)

-- what is written, and the room left
unfoldable pub buffer_add_string : List ℕ → ℕ → Option (List ℕ × ℕ)
buffer_add_string str zero = none
buffer_add_string [] (suc room) = some (32 ∷ [], room)
buffer_add_string (c ∷ str) (suc room) =
    let special = is_special c in
    let rest = buffer_add_string str (if special then room - 1 else room) in
    if special
    then if room == 0 then none else (rest >>= λ r. some (92 ∷ c ∷ r.0, r.1))
    else rest >>= λ r. some (c ∷ r.0, r.1)

-- `temp` of `buffer_add_value`, with `now` for the time as text
abbrev pub stamped : List ℕ → List ℕ → List ℕ
stamped now value =
    take 4095 (if str_eq (take 2 value) (codes "N:") then now ++ (b':' ∷ drop 2 value) else value)

abbrev pub buffer_add_value : List ℕ → List ℕ → ℕ → Option (List ℕ × ℕ)
buffer_add_value now value room = buffer_add_string (stamped now value) room

-- the loop of `rrd_client_update`
unfoldable pub add_values : List ℕ → List (List ℕ) → ℕ → Option (List ℕ × ℕ)
unfolding buffer_add_string
add_values now [] room = some ([], room)
add_values now (value ∷ values) room = buffer_add_value now value room >>= λ r.
    add_values now values r.1 >>= λ s. some (r.0 ++ s.0, s.1)

-- the last byte, which must be a space, becomes a newline
unfoldable pub end_line : List ℕ → Option (List ℕ)
end_line [] = none
end_line (c ∷ []) = if c == 32 then some (10 ∷ []) else none
end_line (c ∷ (e ∷ buffer)) = end_line (e ∷ buffer) >>= λ line. some (c ∷ line)

-- `rrd_client_update` up to `request`; `file_path` is what `get_path` returns
unfoldable pub rrd_client_update : List ℕ → List ℕ → List (List ℕ) → Option (List ℕ)
unfolding buffer_add_string add_values end_line
rrd_client_update now file_path values = do
  command ← buffer_add_string (codes "update") 4096
  file ← buffer_add_string file_path command.1
  rest ← add_values now values file.1
  end_line (command.0 ++ (file.0 ++ rest.0))

-- a carriage return at the end
unfoldable pub cut_return : List ℕ → List ℕ
cut_return [] = []
cut_return (c ∷ []) = if c == 13 then [] else c ∷ []
cut_return (c ∷ (e ∷ cmd)) = c ∷ cut_return (e ∷ cmd)

-- up to the newline, and what comes after it
unfoldable pub line_of : List ℕ → Option (List ℕ × List ℕ)
line_of [] = none
line_of (c ∷ rbuf) =
    let rest = line_of rbuf in
    if c == 10 then some ([], rbuf) else rest >>= λ r. some (c ∷ r.0, r.1)

-- the command, without its closing NUL, and what is left to be read
unfoldable pub next_cmd : List ℕ → Option (List ℕ × List ℕ)
unfolding cut_return line_of
next_cmd rbuf = line_of rbuf >>= λ r. some (cut_return r.0, r.1)

-- The loop of `buffer_get_field`: the field, and the buffer after it. `escaped`: the byte before was a
-- backslash that stands for this one.
unfoldable pub field_from : Bool → List ℕ → Option (List ℕ × List ℕ)
field_from escaped [] = none
field_from escaped (c ∷ buffer) =
    let rest = field_from (not escaped && (c == 92)) buffer in
    let kept = rest >>= λ r. some (c ∷ r.0, r.1) in
    if escaped
    then kept
    else if (c == 32) || (c == 0)
    then some ([], buffer)
    else if c == 92
    then rest
    else kept

unfoldable pub ends_with_nul : List ℕ → Bool
ends_with_nul [] = false
ends_with_nul (c ∷ []) = c == 0
ends_with_nul (c ∷ (e ∷ buffer)) = ends_with_nul (e ∷ buffer)

-- `none` is -1 or the failed `assert`
unfoldable pub buffer_get_field : List ℕ → Option (List ℕ × List ℕ)
unfolding field_from ends_with_nul
buffer_get_field buffer = if ends_with_nul buffer then field_from false buffer else none

-- `rrd_strtodbl`, with what it leaves of the string, and `<=` of doubles
pub record Stamps (D : Type 0) : Type 0 where
  pub strtodbl : List ℕ → Option (D × List ℕ)
  pub le : D → D → Bool

-- `stamp`, where a colon follows it
abbrev pub stamp_of : {D : Type 0} → Stamps D → List ℕ → Option D
stamp_of s value =
    s.strtodbl value >>= λ r. if str_eq (take 1 r.1) (b':' ∷ []) then some r.0 else none

-- what an update leaves: the last stamp, the values that it cached, and whether no value was refused
pub record Cached (D : Type 0) : Type 0 where
  pub last_update_stamp : D
  pub values : List (List ℕ)
  pub accepted : Bool

-- `rrd_add_strdup_chunk` of a value, before the ones that come after it
abbrev pub cache : {D : Type 0} → List ℕ → Cached D → Cached D
cache value c = record c { values = value ∷ c.values }

-- The loop of `handle_request_update`, with fuel. An error of `rrd_add_strdup_chunk` is left out.
unfoldable pub cache_values : {D : Type 0} → Stamps D → ℕ → List ℕ → D → Cached D
unfolding buffer_get_field
cache_values s zero buffer last = record { last_update_stamp = last; values = []; accepted = true }
cache_values s (suc fuel) buffer last = elim (buffer_get_field buffer) [
  | none ↦ record { last_update_stamp = last; values = []; accepted = true }
  | some (value, rest) ↦ elim (stamp_of s value) [
    | none ↦ record { last_update_stamp = last; values = []; accepted = false }
    | some stamp ↦
        if s.le stamp last
        then record { last_update_stamp = last; values = []; accepted = false }
        else cache value (cache_values s fuel rest stamp)
  ]
]

-- `handle_request` on an update, and `handle_request_update` on the item of the file, which is found
-- in the cache with `last`: the command, the file and what is cached. Each value takes a byte or more.
unfoldable pub handle_update :
    {D : Type 0} → Stamps D → List ℕ → D → Option (List ℕ × List ℕ × Cached D)
unfolding buffer_get_field cache_values
handle_update s cmd last = do
  command ← buffer_get_field (cmd ++ (0 ∷ []))
  file ← buffer_get_field command.1
  some (command.0, file.0, cache_values s (length file.1) file.1 last)
