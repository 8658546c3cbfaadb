-- ===== src/Desktop/Core/Chunks.antt =====
-- How the core's output is cut into chunks does not matter (desktop/src/core-supervisor.ts).
use pixiv_biu.Base.{
  ℕ, zero, suc, ◌==◌, ◌<◌, All, ◌≡◌, ◌∙◌, inl, inr, Bool-cases, refl, subst, sym, ap, arith, Bool,
  true, false, List, [], ◌∷◌, ◌++◌, take, if◌then◌else◌,
}
use pixiv_biu.Desktop.Core.Stdout.{
  Scan, new_scan, line_feed, line_limit, push, split, append_part, ended, end_line, read_rest,
  read_parts, on_data, on_data_all, on_buffer, on_buffer_all,
}

take-take-append : (n : ℕ) (xs ys : List ℕ) → take n (take n xs ++ ys) ≡ take n (xs ++ ys)
take-take-append zero xs ys = refl
take-take-append (suc n) [] ys = refl
take-take-append (suc n) (x ∷ xs) ys = ap (λ zs. x ∷ zs) (take-take-append n xs ys)

append_assoc : (xs ys zs : List ℕ) → (xs ++ ys) ++ zs ≡ xs ++ (ys ++ zs)
append_assoc [] ys zs = refl
append_assoc (x ∷ xs) ys zs = ap (λ us. x ∷ us) (append_assoc xs ys zs)

append_part-append_part :
    (p q : List ℕ) (s : Scan) → append_part q (append_part p s) ≡ append_part (p ++ q) s
unfolding append_part
append_part-append_part p q s =
    ap (λ l. record s { line = l })
      (take-take-append line_limit (s.line ++ p) q ∙ ap (take line_limit) (append_assoc s.line p q))

abbrev is_cons : List (List ℕ) → Bool
is_cons [] = false
is_cons (p ∷ ps) = true

joined-is_cons :
    (b : Bool) (c : ℕ) (rest : List (List ℕ))
    → is_cons (if b then [] ∷ rest else push c rest) ≡ true
joined-is_cons true c rest = refl
joined-is_cons false c [] = refl
joined-is_cons false c (p ∷ ps) = refl

split-is_cons : (cs : List ℕ) → is_cons (split cs) ≡ true
unfolding split
split-is_cons [] = refl
split-is_cons (c ∷ cs) = joined-is_cons (c == line_feed) c (split cs)

abbrev pub concat_all : List (List ℕ) → List ℕ
concat_all [] = []
concat_all (chunk ∷ chunks) = chunk ++ concat_all chunks

not_listening : {A : Type 0} (b : Bool) (x y : A) → b ≡ false → (if b then x else y) ≡ y
not_listening true x y h = cc
not_listening false x y h = refl

-- A byte that UTF-8 gives one character for.
abbrev pub IsAscii : ℕ → Type 0
IsAscii c = c < 128

module _ (marker ready : List ℕ) where
  -- The output read a code unit at a time.
  unfoldable pub read_unit : ℕ → Scan → Scan
  read_unit c s = if c == line_feed then end_line marker ready s else append_part (c ∷ []) s

  unfoldable pub read_units : List ℕ → Scan → Scan
  read_units [] s = s
  read_units (c ∷ cs) s = read_units cs (read_unit c s)

  read_parts-push :
      (c : ℕ) (p : List ℕ) (ps : List (List ℕ)) (s : Scan)
      → read_parts marker ready (push c (p ∷ ps)) s
        ≡ read_parts marker ready (p ∷ ps) (append_part (c ∷ []) s)
  unfolding read_parts
  read_parts-push c p ps s =
      ap (read_rest marker ready ps) (sym (append_part-append_part (c ∷ []) p s))

  append_part-ended :
      (b : Bool) (s : Scan) → append_part [] (ended marker ready b s) ≡ ended marker ready b s
  unfolding append_part ended
  append_part-ended true s = refl
  append_part-ended false s = refl

  read_parts-joined :
      (b : Bool) (c : ℕ) (rest : List (List ℕ)) (cs : List ℕ) (s : Scan)
      → is_cons rest ≡ true
      → ((t : Scan) → read_parts marker ready rest t ≡ read_units cs (append_part [] t))
      → read_parts marker ready (if b then [] ∷ rest else push c rest) s
        ≡ read_units cs (
            if b
            then end_line marker ready (append_part [] s)
            else append_part (c ∷ []) (append_part [] s))
  unfolding read_parts read_rest end_line
  read_parts-joined b c [] cs s h ih = cc
  read_parts-joined true c (p ∷ ps) cs s h ih =
      let t = append_part [] s in
      ih (ended marker ready t.first_line t) ∙ ap (read_units cs) (append_part-ended t.first_line t)
  read_parts-joined false c (p ∷ ps) cs s h ih =
      read_parts-push c p ps s
      ∙ ih (append_part (c ∷ []) s)
      ∙ ap (read_units cs)
          (append_part-append_part (c ∷ []) [] s ∙ sym (append_part-append_part [] (c ∷ []) s))

  read_parts-split :
      (chunk : List ℕ) (s : Scan)
      → read_parts marker ready (split chunk) s ≡ read_units chunk (append_part [] s)
  unfolding read_parts read_rest split read_units read_unit
  read_parts-split [] s = refl
  read_parts-split (c ∷ cs) s =
      read_parts-joined (c == line_feed) c (split cs) cs s (split-is_cons cs) (read_parts-split cs)

  -- What a scan is between two chunks: its line is cut, and listening it is past the first line.
  pub record IsScan (s : Scan) : Type 0 where
    pub cut : append_part [] s ≡ s
    pub past_first : s.listening ≡ true → s.first_line ≡ false

  -- `s` has read no more since it listens, and `t` has.
  record Stopped (s t : Scan) : Type 0 where
    stopped : s.listening ≡ true
    listens : t.listening ≡ true
    past : t.first_line ≡ false
    same_handshake : s.handshake ≡ t.handshake

  ite_IsScan : (b : Bool) {s t : Scan} → IsScan s → IsScan t → IsScan (if b then s else t)
  ite_IsScan true v w = v
  ite_IsScan false v w = w

  ended-IsScan :
      (b : Bool) (s : Scan) → s.first_line ≡ b → IsScan s → IsScan (ended marker ready b s)
  unfolding ended
  ended-IsScan true s e v = record { cut = append_part-ended true s; past_first = λ l. refl }
  ended-IsScan false s e v = record { cut = append_part-ended false s; past_first = λ l. e }

  read_unit-IsScan : (c : ℕ) (s : Scan) → IsScan s → IsScan (read_unit c s)
  unfolding read_unit end_line
  read_unit-IsScan c s v =
      ite_IsScan (c == line_feed) (ended-IsScan s.first_line s refl v) (record {
        cut = append_part-append_part (c ∷ []) [] s;
        past_first = unfold append_part in v.past_first;
      })

  read_units-IsScan : (cs : List ℕ) (s : Scan) → IsScan s → IsScan (read_units cs s)
  unfolding read_units
  read_units-IsScan [] s v = v
  read_units-IsScan (c ∷ cs) s v = read_units-IsScan cs (read_unit c s) (read_unit-IsScan c s v)

  read_unit-Stopped : (c : ℕ) (s t : Scan) → Stopped s t → Stopped s (read_unit c t)
  unfolding read_unit end_line ended append_part
  read_unit-Stopped c s t p = ground arith

  read_units-Stopped : (cs : List ℕ) (s t : Scan) → Stopped s t → Stopped s (read_units cs t)
  unfolding read_units
  read_units-Stopped [] s t p = p
  read_units-Stopped (c ∷ cs) s t p =
      read_units-Stopped cs s (read_unit c t) (read_unit-Stopped c s t p)

  read_units-++ :
      (xs bs : List ℕ) (s : Scan) → read_units (xs ++ bs) s ≡ read_units bs (read_units xs s)
  unfolding read_units
  read_units-++ [] bs s = refl
  read_units-++ (a ∷ xs) bs s = read_units-++ xs bs (read_unit a s)

  pub on_data-stopped :
      (chunk : List ℕ) (s : Scan) → s.listening ≡ true → on_data marker ready chunk s ≡ s
  unfolding on_data
  on_data-stopped chunk s l = ground arith

  on_data_all-Stopped :
      (chunks : List (List ℕ)) (s t : Scan)
      → Stopped s t
      → Stopped (on_data_all marker ready chunks s) (read_units (concat_all chunks) t)
  unfolding on_data_all read_units
  on_data_all-Stopped [] s t p = p
  on_data_all-Stopped (chunk ∷ chunks) s t p =
      rw (on_data-stopped chunk s p.stopped, read_units-++ chunk (concat_all chunks) t)
        (on_data_all-Stopped chunks s (read_units chunk t) (read_units-Stopped chunk s t p))

  on_data-read_units :
      (chunk : List ℕ) (s : Scan)
      → s.listening ≡ false
      → IsScan s
      → on_data marker ready chunk s ≡ read_units chunk s
  unfolding on_data
  on_data-read_units chunk s l v =
      not_listening s.listening _ _ l ∙ read_parts-split chunk s ∙ ap (read_units chunk) v.cut

  on_data_all-read_units :
      (chunks : List (List ℕ)) (s : Scan)
      → IsScan s
      → ((on_data_all marker ready chunks s).handshake
          ≡ (read_units (concat_all chunks) s).handshake)
        × ((on_data_all marker ready chunks s).listening
            ≡ (read_units (concat_all chunks) s).listening)
  unfolding on_data_all read_units
  on_data_all-read_units [] s v = (refl, refl)
  on_data_all-read_units (chunk ∷ chunks) s v = elim (Bool-cases s.listening) [
    | inl l ↦
        let stopped =
          on_data_all-Stopped (chunk ∷ chunks) s s
            (record { stopped = l; listens = l; past = v.past_first l; same_handshake = refl }) in
        (stopped.same_handshake, stopped.stopped ∙ sym stopped.listens)
    | inr l ↦
        subst
          (λ t.
            ((on_data_all marker ready chunks t).handshake
              ≡ (read_units (chunk ++ concat_all chunks) s).handshake)
            × ((on_data_all marker ready chunks t).listening
                ≡ (read_units (chunk ++ concat_all chunks) s).listening))
          (sym (on_data-read_units chunk s l v))
          (rw (read_units-++ chunk (concat_all chunks) s)
            (on_data_all-read_units chunks (read_units chunk s) (read_units-IsScan chunk s v)))
  ]

  module _ (decode : List ℕ → List ℕ) where
    -- ASCII is decoded to itself (UTF-8).
    abbrev pub KeepsAscii : Type 0
    KeepsAscii = (bytes : List ℕ) → All IsAscii bytes → decode bytes ≡ bytes

    on_buffer_all-on_data_all :
        (chunks : List (List ℕ)) (s : Scan)
        → KeepsAscii
        → All (All IsAscii) chunks
        → on_buffer_all marker ready decode chunks s ≡ on_data_all marker ready chunks s
    unfolding on_buffer_all on_buffer on_data_all
    on_buffer_all-on_data_all [] s k a = refl
    on_buffer_all-on_data_all (chunk ∷ chunks) s k (e, a) =
        rw (k chunk e) (on_buffer_all-on_data_all chunks (on_data marker ready chunk s) k a)

    -- Where each chunk is decoded by itself, with ASCII as it is, the core's ASCII output gives the same
    -- handshake and the same readiness in whatever chunks it arrives: as if it were read a byte at a time.
    pub on_buffer_all-read_units :
        (chunks : List (List ℕ)) (s : Scan)
        → KeepsAscii
        → All (All IsAscii) chunks
        → IsScan s
        → ((on_buffer_all marker ready decode chunks s).handshake
            ≡ (read_units (concat_all chunks) s).handshake)
          × ((on_buffer_all marker ready decode chunks s).listening
              ≡ (read_units (concat_all chunks) s).listening)
    on_buffer_all-read_units chunks s k a v =
        rw (on_buffer_all-on_data_all chunks s k a) (on_data_all-read_units chunks s v)

  pub new_scan-IsScan : IsScan new_scan
  unfolding append_part
  new_scan-IsScan = record { cut = refl; past_first = λ l. cc }
