-- ===== src/Desktop/Core/Stdout.antt =====
-- What the shell reads from the core's standard output: `spawn` of desktop/src/core-supervisor.ts.
-- A chunk is a list of bytes and a text a list of code units; `decode` is `toString("utf8")` of one
-- chunk. The marker is an argument, as in the source it is a constant that the core shares.
use pixiv_biu.Base.{
  ℕ, ◌==◌, Bool, true, false, ◌&&◌, ◌||◌, List, [], ◌∷◌, ◌++◌, take, if◌then◌else◌,
}

abbrev pub same_text : List ℕ → List ℕ → Bool
same_text [] [] = true
same_text (a ∷ cs) (b ∷ bs) = (a == b) && same_text cs bs
same_text _ _ = false

pub record Scan : Type 0 where
  pub handshake : Bool
  pub listening : Bool
  pub first_line : Bool
  pub line : List ℕ

abbrev pub new_scan : Scan
new_scan = record { handshake = false; listening = false; first_line = true; line = [] }

abbrev pub line_feed : ℕ
line_feed = 10

abbrev pub line_limit : ℕ
line_limit = 256

abbrev pub push : ℕ → List (List ℕ) → List (List ℕ)
push c [] = (c ∷ []) ∷ []
push c (p ∷ ps) = (c ∷ p) ∷ ps

-- `split("\n")`.
unfoldable pub split : List ℕ → List (List ℕ)
split [] = [] ∷ []
split (c ∷ cs) = let rest = split cs in if c == line_feed then [] ∷ rest else push c rest

unfoldable pub append_part : List ℕ → Scan → Scan
append_part p s = record s { line = take line_limit (s.line ++ p) }

module _ (marker ready : List ℕ) where
  -- A line is over, the first one or a later one. `ready` is the marker with " ready" after it.
  unfoldable pub ended : Bool → Scan → Scan
  ended true s = record s { handshake = same_text s.line marker; first_line = false; line = [] }
  ended false s = record s {
    listening = s.listening || (s.handshake && same_text s.line ready);
    line = [];
  }

  unfoldable pub end_line : Scan → Scan
  unfolding ended
  end_line s = ended s.first_line s

  -- The parts from the second on.
  unfoldable pub read_rest : List (List ℕ) → Scan → Scan
  read_rest [] s = s
  read_rest (p ∷ ps) s = read_rest ps (append_part p (end_line s))

  unfoldable pub read_parts : List (List ℕ) → Scan → Scan
  read_parts [] s = s
  read_parts (p ∷ ps) s = read_rest ps (append_part p s)

  -- The loop over the text of one chunk.
  unfoldable pub on_data : List ℕ → Scan → Scan
  unfolding split read_parts
  on_data text s = if s.listening then s else read_parts (split text) s

  unfoldable pub on_data_all : List (List ℕ) → Scan → Scan
  on_data_all [] s = s
  on_data_all (text ∷ texts) s = on_data_all texts (on_data text s)

  -- A chunk arrives; each is decoded by itself.
  module _ (decode : List ℕ → List ℕ) where
    unfoldable pub on_buffer : List ℕ → Scan → Scan
    unfolding on_data
    on_buffer chunk s = on_data (decode chunk) s

    unfoldable pub on_buffer_all : List (List ℕ) → Scan → Scan
    on_buffer_all [] s = s
    on_buffer_all (chunk ∷ chunks) s = on_buffer_all chunks (on_buffer chunk s)
