-- ===== src/Transport/LogStream.antt =====
-- The captured log of pkg/ares/transport/log_stream.go: a ring of lines with its subscribers, and the
-- server-sent events that it writes. A channel is the list of the lines that wait in it.
use ares_energy_demo.Prelude.{
  ℕ, zero, suc, ◌+◌, ◌%◌, Bool, true, false, List, [], ◌∷◌, ◌++◌, ltb, nat_beq, if◌then◌else◌,
  nat_eq, delete, length,
}
use ares_energy_demo.Prelude.Recent.{take, drop, set}
use ares_energy_demo.Auction.State.{Bytes}
use ares_energy_demo.Runner.Types.{is_none}

abbrev pub log_ring_size : ℕ
log_ring_size = 4000

abbrev pub subscriber_size : ℕ
subscriber_size = 512

-- Without the last bytes that are `c`: strings.TrimRight by one character.
abbrev pub cons_unless : ℕ → ℕ → Bytes → Bytes
cons_unless c x [] = if nat_beq x c then [] else x ∷ []
cons_unless c x (y ∷ ys) = x ∷ y ∷ ys

unfoldable pub trim_right : ℕ → Bytes → Bytes
trim_right c [] = []
trim_right c (x ∷ xs) = cons_unless c x (trim_right c xs)

pub record LogStream : Type 0 where
  pub ring : List Bytes
  pub pos : ℕ
  pub full : Bool
  pub subs : List (ℕ × List Bytes)

abbrev pub blank_lines : ℕ → List Bytes
blank_lines zero = []
blank_lines (suc n) = [] ∷ blank_lines n

-- A channel that is full misses the line.
abbrev pub notify : Bytes → List (ℕ × List Bytes) → List (ℕ × List Bytes)
notify line [] = []
notify line ((ch, waiting) ∷ subs) =
    (ch, (if ltb (length waiting) subscriber_size then waiting ++ (line ∷ []) else waiting))
    ∷ notify line subs

abbrev pub nonempty : List Bytes → List Bytes
nonempty [] = []
nonempty (l ∷ ls) = if is_none l then nonempty ls else l ∷ nonempty ls

-- The ring of a given size; the code's is `log_ring_size`.
module _ (size : ℕ) where
  unfoldable pub new_log_stream : LogStream
  new_log_stream = record { ring = blank_lines size; pos = 0; full = false; subs = [] }

  unfoldable pub write_line : LogStream → Bytes → LogStream
  write_line ls line =
      let next = (ls.pos + 1) % size in
      record {
        ring = set ls.ring ls.pos line;
        pos = next;
        full = (if nat_beq next 0 then true else ls.full);
        subs = notify line ls.subs;
      }

  unfoldable pub write : LogStream → Bytes → LogStream
  unfolding write_line trim_right
  write ls p = write_line ls (trim_right 10 p)

unfoldable pub buffered : LogStream → List Bytes
buffered ls =
    (if ls.full then nonempty (drop ls.pos ls.ring) else []) ++ nonempty (take ls.pos ls.ring)

unfoldable pub subscribe : LogStream → ℕ → LogStream
subscribe ls ch = record ls { subs = ls.subs ++ ((ch, []) ∷ []) }

unfoldable pub unsubscribe : LogStream → ℕ → LogStream
unsubscribe ls ch = record ls { subs = delete ch ls.subs }

-- strings.Split by a character: the part before the first one, and the others.
abbrev pub glue : ℕ → List Bytes → List Bytes
glue x [] = (x ∷ []) ∷ []
glue x (p ∷ ps) = (x ∷ p) ∷ ps

unfoldable pub split : ℕ → Bytes → List Bytes
split c [] = [] ∷ []
split c (x ∷ xs) = if nat_beq x c then [] ∷ split c xs else glue x (split c xs)

-- "data: ", the part without its last carriage returns, and a newline
abbrev pub data_line : Bytes → Bytes
data_line part = 100 ∷ 97 ∷ 116 ∷ 97 ∷ 58 ∷ 32 ∷ (trim_right 13 part ++ (10 ∷ []))

abbrev pub data_lines : List Bytes → Bytes
data_lines [] = []
data_lines (p ∷ ps) = data_line p ++ data_lines ps

unfoldable pub write_sse : Bytes → Bytes
unfolding trim_right split
write_sse line = data_lines (split 10 line) ++ (10 ∷ [])
