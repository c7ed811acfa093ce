-- ===== src/Formatter/Read.antt =====
-- A reader of the lines that the formatter prints, and of a log of such lines. No code of the
-- repository reads them back: this is the description of the format that the lines are held to.
use low_latency_logger.Prelude.{
  ℕ, ◌+◌, ◌-◌, ◌*◌, Bool, true, false, ◌&&◌, Option, none, some, List, [], ◌∷◌, map, leb, ◌==◌,
  if◌then◌else◌,
}
use low_latency_logger.Prelude.Text.{Text, text}

infixl 5 ◌>>=◌
abbrev pub ◌>>=◌ {ℓ κ} : {A : Type ℓ} {B : Type κ} → Option A → (A → Option B) → Option B
none >>= f = none
some a >>= f = f a

-- A literal that the text has to start with.
abbrev pub skip : Text → Text → Option Text
skip [] ts = some ts
skip (c ∷ cs) [] = none
skip (c ∷ cs) (t ∷ ts) = if c == t then skip cs ts else none

abbrev pub is_digit : ℕ → Bool
is_digit c = leb b'0' c && leb c b'9'

-- The number that the digits ahead denote, and the text after them.
abbrev pub number_from : ℕ → Text → ℕ × Text
number_from acc [] = (acc, [])
number_from acc (c ∷ cs) =
    let more = number_from (acc * 10 + (c - b'0')) cs in if is_digit c then more else (acc, c ∷ cs)

-- The text up to the next `]`.
abbrev pub word : Text → Text × Text
word [] = ([], [])
word (c ∷ cs) = let (w, rest) = word cs in if c == b']' then ([], c ∷ cs) else (c ∷ w, rest)

-- What a line says; `rest` is the location, a space, the message and the newline.
pub record Heading : Type 0 where
  pub time : ℕ
  pub level : Text
  pub thread : Option ℕ
  pub rest : Text

abbrev pub read_thread : Bool → Text → Option (Option ℕ × Text)
read_thread false t = some (none, t)
read_thread true t = do
  t1 ← skip (text " [tid=") t
  let (n, t2) = number_from 0 t1
  t3 ← skip (text "]") t2
  some (some n, t3)

-- The argument says whether thread ids are compiled in.
unfoldable pub read_line : Bool → Text → Option Heading
read_line threaded t = do
  t1 ← skip (text "[") t
  let (time, t2) = number_from 0 t1
  t3 ← skip (text "] [") t2
  let (level, t4) = word t3
  t5 ← skip (text "]") t4
  (thread, rest) ← read_thread threaded t5
  some (record { time = time; level = level; thread = thread; rest = rest })

-- The lines of a log, each with its newline.
abbrev pub add_first : ℕ → List Text → List Text
add_first c [] = (c ∷ []) ∷ []
add_first c (l ∷ ls) = (c ∷ l) ∷ ls

unfoldable pub lines_of : Text → List Text
lines_of [] = []
lines_of (c ∷ cs) = let more = lines_of cs in if c == 10 then (c ∷ []) ∷ more else add_first c more

unfoldable pub read_log : Bool → Text → List (Option Heading)
unfolding lines_of read_line
read_log threaded log = map (read_line threaded) (lines_of log)
