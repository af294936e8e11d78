-- ===== src/Tests/Caching.antt =====
-- The theorems on the caching daemon at concrete inputs.
use rrdtool_1_x.Prelude.{
  ℕ, ◌+◌, ◌*◌, ◌-◌, ◌≡◌, refl, Bool, true, false, ◌&&◌, ◌||◌, none, some, List, [], ◌∷◌, ◌++◌,
  arith, leb, ◌==◌, if◌then◌else◌, All, codes, str_eq,
}
use rrdtool_1_x.Daemon.Command.{rrd_client_update, next_cmd, Stamps, handle_update}
use rrdtool_1_x.Daemon.Command.Quoted.{IsPlain}
use rrdtool_1_x.Daemon.Command.RoundTrip.{words, rrd_client_update-handle_update}
use rrdtool_1_x.Daemon.Queue.{CacheQueue, at_head, at_tail}
use rrdtool_1_x.Daemon.Queue.Run.{
  Written, CacheCall, update, enqueue, dequeue, wrote, write, run_calls, Waiting, list_calls,
}
use rrdtool_1_x.Daemon.Queue.Run.Step.{Waits, run_calls-Waits}
use rrdtool_1_x.Daemon.Queue.Run.Kept.{written_for, run_calls-kept}

-- a cache without values, and nothing in the queue
abbrev nothing : ℕ → List (List ℕ)
nothing i = []

abbrev idle : CacheQueue
idle = record {
  item = λ i. record { values = []; in_queue = false; prev = none; next = none };
  head = none;
  tail = none;
  stats_queue_length = 0;
}

abbrev no_one : Waiting
no_one = (nothing, [])

idle-Waits : Waits no_one idle
idle-Waits = (
  record {
    distinct = tt;
    from = refl;
    to = refl;
    nexts = λ i. refl;
    prevs = λ i. refl;
    flags = λ i. refl;
    holds = λ i. refl;
    size = refl;
  },
  λ i inside. cc,
)

-- Three items get values; item 3 is put before the others, and two items are written.
abbrev busy : List CacheCall
busy =
    update 1 (65 ∷ [])
    ∷ enqueue 1 at_tail
    ∷ update 2 (66 ∷ [])
    ∷ update 3 (67 ∷ [])
    ∷ update 1 (68 ∷ [])
    ∷ enqueue 2 at_tail
    ∷ enqueue 3 at_tail
    ∷ enqueue 3 at_head
    ∷ enqueue 4 at_head
    ∷ write
    ∷ write
    ∷ enqueue 2 at_head
    ∷ dequeue 2
    ∷ wrote 2
    ∷ []

run_calls_example :
    (q' : CacheQueue) × (run_calls busy idle
      ≡ some (q', (3, (67 ∷ []) ∷ []) ∷ (1, (65 ∷ []) ∷ (68 ∷ []) ∷ []) ∷ []))
    × Waits (list_calls busy no_one).0 q'
run_calls_example = run_calls-Waits busy no_one idle idle-Waits

run_calls-kept_example :
    (q' : CacheQueue) × (out : Written) × (run_calls busy idle ≡ some (q', out))
    × (written_for 1 out ++ (q'.item 1).values ≡ (65 ∷ []) ∷ (68 ∷ []) ∷ [])
run_calls-kept_example = run_calls-kept 1 busy no_one idle idle-Waits (refl, tt)

-- the bytes of a plain string
abbrev plain : List ℕ → Bool
plain [] = true
plain (c ∷ str) = let rest = plain str in if (c == 0) || (c == 10) || (c == 13) then false else rest

plain-IsPlain : (str : List ℕ) → plain str ≡ true → All IsPlain str
plain-IsPlain [] h = tt
plain-IsPlain (c ∷ str) h = (
  (ground (arith, h), ground (arith, h), ground (arith, h)),
  plain-IsPlain str (ground (arith, h)),
)

abbrev all_plain : List (List ℕ) → Bool
all_plain [] = true
all_plain (str ∷ strs) = let rest = all_plain strs in if plain str then rest else false

all_plain-IsPlain : (strs : List (List ℕ)) → all_plain strs ≡ true → All (All IsPlain) strs
all_plain-IsPlain [] h = tt
all_plain-IsPlain (str ∷ strs) h =
    (plain-IsPlain str (ground (arith, h)), all_plain-IsPlain strs (ground (arith, h)))

-- the digits at the start of a string, and what comes after them
abbrev digits_from : ℕ → List ℕ → ℕ × List ℕ
digits_from n [] = (n, [])
digits_from n (c ∷ str) =
    let rest = digits_from (10 * n + (c - 48)) str in
    if leb 48 c && leb c 57 then rest else (n, c ∷ str)

-- whole numbers as stamps
abbrev counting : Stamps ℕ
counting = record { strtodbl = λ str. some (digits_from 0 str); le = leb }

-- the file of a name with a space, at the time 40: the last value comes too late
abbrev readings : List (List ℕ)
readings = codes "20:1 5" ∷ codes "N:2" ∷ codes "30:3" ∷ []

rrd_client_update_example :
    (line : List ℕ) × (cmd : List ℕ) × (rrd_client_update (codes "40") (codes "a b") readings
      ≡ some line)
    × (next_cmd (line ++ codes "FLUSH") ≡ some (cmd, codes "FLUSH"))
    × (handle_update counting cmd 10
        ≡ some (
          codes "update",
          codes "a b",
          record {
            last_update_stamp = 40;
            values = codes "20:1 5" ∷ codes "40:2" ∷ [];
            accepted = false;
          },
        ))
unfolding str_eq
rrd_client_update_example =
    rrd_client_update-handle_update counting (codes "40") (codes "a b") readings (codes "FLUSH") 10
      (all_plain-IsPlain (words (codes "40") (codes "a b") readings) refl) (omega arith)
