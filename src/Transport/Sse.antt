-- ===== src/Transport/Sse.antt =====
-- What a reader makes of the server-sent events of pkg/ares/transport/log_stream.go.
use ares_energy_demo.Prelude.{
  ℕ, ◌≡◌, ◌≢◌, refl, sym, ◌∙◌, ap, Bool, true, false, List, [], ◌∷◌, ◌++◌, map, Option, none, some,
  nat_beq, if◌then◌else◌, All, arith, Bool-cases, inl, inr,
}
use mathlib.Core.List.{append-nil, append_assoc}
use ares_energy_demo.Auction.State.{Bytes}
use ares_energy_demo.Runner.Types.{is_none}
use ares_energy_demo.Transport.LogStream.{
  trim_right, cons_unless, glue, split, data_lines, write_sse,
}

-- The lines of a stream, which end in a newline, a carriage return or both; what is left after the
-- last of these is a line only if it is not empty. The flag says that a carriage return has just been
-- read.
abbrev pub sse_lines : Bool → Bytes → List Bytes
sse_lines cr [] = []
sse_lines cr (x ∷ xs) =
    let rest = sse_lines false xs in
    let after_return = sse_lines true xs in
    if nat_beq x 10
    then (if cr then rest else [] ∷ rest)
    else if nat_beq x 13
    then [] ∷ after_return
    else glue x rest

abbrev pub strip : Bytes → Bytes → Option Bytes
strip [] xs = some xs
strip (c ∷ cs) [] = none
strip (c ∷ cs) (x ∷ xs) = if nat_beq x c then strip cs xs else none

-- "data: "
abbrev pub data_field : Bytes
data_field = 100 ∷ 97 ∷ 116 ∷ 97 ∷ 58 ∷ 32 ∷ []

abbrev pub join : List Bytes → Bytes
join [] = []
join (p ∷ []) = p
join (p ∷ q ∷ ps) = p ++ (10 ∷ join (q ∷ ps))

abbrev pub dispatch_event : List Bytes → List Bytes → List Bytes
dispatch_event [] events = events
dispatch_event (p ∷ ps) events = join (p ∷ ps) ∷ events

abbrev pub with_data : Option Bytes → List Bytes → List Bytes
with_data none parts = parts
with_data (some p) parts = parts ++ (p ∷ [])

-- The events' data: the data fields up to an empty line. What no empty line ends is not an event.
abbrev pub read_events : List Bytes → List Bytes → List Bytes
read_events parts [] = []
read_events parts (l ∷ ls) =
    let ended = dispatch_event parts (read_events [] ls) in
    let more = read_events (with_data (strip data_field l) parts) ls in
    if is_none l then ended else more

abbrev pub sse_events : Bytes → List Bytes
sse_events bytes = read_events [] (sse_lines false bytes)

-- No line ends in it.
abbrev Plain : Bytes → Type 0
Plain = All (λ x. (x ≢ 10) × (x ≢ 13))

sse_lines-append :
    (xs ys : Bytes) → Plain xs → sse_lines false (xs ++ (10 ∷ ys)) ≡ xs ∷ sse_lines false ys
sse_lines-append [] ys h = refl
sse_lines-append (x ∷ xs) ys h = ground (arith, h.0.0, h.0.1, sse_lines-append xs ys h.1)

cons_unless_plain : (x : ℕ) (xs : Bytes) → x ≢ 13 → cons_unless 13 x xs ≡ x ∷ xs
cons_unless_plain x [] h = ground (arith, h)
cons_unless_plain x (y ∷ ys) h = refl

trim_right-Plain : (xs : Bytes) → Plain xs → trim_right 13 xs ≡ xs
unfolding trim_right
trim_right-Plain [] h = refl
trim_right-Plain (x ∷ xs) h =
    ap (cons_unless 13 x) (trim_right-Plain xs h.1) ∙ cons_unless_plain x xs h.0.1

data_of : Bytes → Bytes
data_of p = data_field ++ p

lines-data_lines :
    (ps : List Bytes)
    → All Plain ps
    → sse_lines false (data_lines ps ++ (10 ∷ [])) ≡ map data_of ps ++ ([] ∷ [])
unfolding data_of
lines-data_lines [] h = refl
lines-data_lines (p ∷ ps) h =
    let rest = data_lines ps in
    let labelled : List Bytes → List Bytes =
      λ t. glue 100 (glue 97 (glue 116 (glue 97 (glue 58 (glue 32 t))))) in
    let flat : ((trim_right 13 p ++ (10 ∷ [])) ++ rest) ++ (10 ∷ [])
        ≡ p ++ (10 ∷ (rest ++ (10 ∷ []))) =
      ap (λ t. ((t ++ (10 ∷ [])) ++ rest) ++ (10 ∷ [])) (trim_right-Plain p h.0)
      ∙ ap (λ t. t ++ (10 ∷ [])) (append_assoc p (10 ∷ []) rest)
      ∙ append_assoc p (10 ∷ rest) (10 ∷ []) in
    ap (λ t. labelled (sse_lines false t)) flat
    ∙ ap labelled
        (sse_lines-append p (rest ++ (10 ∷ [])) h.0 ∙ ap (λ t. p ∷ t) (lines-data_lines ps h.1))

read-data :
    (parts ps : List Bytes)
    → read_events parts (map data_of ps ++ ([] ∷ [])) ≡ dispatch_event (parts ++ ps) []
unfolding data_of
read-data parts [] = ap (λ t. dispatch_event t []) (sym (append-nil parts))
read-data parts (p ∷ ps) =
    read-data (parts ++ (p ∷ [])) ps
    ∙ ap (λ t. dispatch_event t []) (append_assoc parts (p ∷ []) ps)

join-glue : (x : ℕ) (ps : List Bytes) → join (glue x ps) ≡ x ∷ join ps
join-glue x [] = refl
join-glue x (p ∷ []) = refl
join-glue x (p ∷ q ∷ ps) = refl

-- A split has a first part.
split-cons : (line : Bytes) → (p : Bytes) × (ps : List Bytes) × (split 10 line ≡ p ∷ ps)
unfolding split
split-cons [] = ([], [], refl)
split-cons (x ∷ xs) = elim (Bool-cases (nat_beq x 10)) [
  | inl k ↦ ([], split 10 xs, simp k refl)
  | inr k ↦ let (p, ps, e) = split-cons xs in (x ∷ p, ps, simp (k, e) refl)
]

join-empty : (line : Bytes) → join ([] ∷ split 10 line) ≡ 10 ∷ join (split 10 line)
join-empty line =
    let (p, ps, e) = split-cons line in ap (λ t. join ([] ∷ t)) e ∙ ap (λ t. 10 ∷ join t) (sym e)

join-split : (line : Bytes) → join (split 10 line) ≡ line
unfolding split
join-split [] = refl
join-split (x ∷ xs) = elim (Bool-cases (nat_beq x 10)) [
  | inl k ↦ simp k (join-empty xs ∙ ground (arith, k, join-split xs))
  | inr k ↦ simp k (join-glue x (split 10 xs) ∙ ap (λ t. x ∷ t) (join-split xs))
]

glue-Plain : (x : ℕ) (ps : List Bytes) → x ≢ 10 → x ≢ 13 → All Plain ps → All Plain (glue x ps)
glue-Plain x [] ten thirteen h = (((ten, thirteen), tt), tt)
glue-Plain x (p ∷ ps) ten thirteen h = (((ten, thirteen), h.0), h.1)

split-Plain : (line : Bytes) → All (λ x. x ≢ 13) line → All Plain (split 10 line)
unfolding split
split-Plain [] h = (tt, tt)
split-Plain (x ∷ xs) h = elim (Bool-cases (nat_beq x 10)) [
  | inl k ↦ simp k (tt, split-Plain xs h.1)
  | inr k ↦ simp k (glue-Plain x (split 10 xs) (ground (arith, k)) h.0 (split-Plain xs h.1))
]

-- A line without carriage returns, written as an event, is read as exactly one event, whose data is
-- the line, whatever newlines and field names stand in it.
pub write_sse_event :
    (line : Bytes) → All (λ x. x ≢ 13) line → sse_events (write_sse line) ≡ line ∷ []
unfolding write_sse
write_sse_event line h =
    let (p, ps, e) = split-cons line in
    ap (read_events []) (lines-data_lines (split 10 line) (split-Plain line h))
    ∙ read-data [] (split 10 line)
    ∙ ap (λ t. dispatch_event t []) e
    ∙ ap (λ t. join t ∷ []) (sym e)
    ∙ ap (λ t. t ∷ []) (join-split line)
