-- ===== src/Bookmarks/Settled.antt =====
-- Where a run of the tag writer comes to rest
-- (frontend/src/features/illusts/bookmark-tag-writer.ts).
use pixiv_biu.Base.{
  ℕ, ◌-◌, ◌≤◌, ◌<◌, ◌≡◌, refl, sym, subst, arith, Bool, true, false, none, List, [], ◌∷◌, length,
  if◌then◌else◌, is_some,
}
use pixiv_biu.Bookmarks.TagWriter.{
  Tags, same_tags, Running, stopped, starting, writing, finishing, Writer, start, flush, after_save,
  advance_at, finish, advance_run,
}
use pixiv_biu.Bookmarks.Invariant.{IsValid, advance_run-IsValid}

-- How many steps are left at most.
abbrev left : Writer → ℕ
left w = elim w.running [
  | stopped ↦ 0
  | finishing ↦ if is_some w.queued then 4 else 1
  | _ ↦ if is_some w.queued then 3 else 2
]

left-flush : (w : Writer) → left (flush w) < (if is_some w.queued then 3 else 2)
unfolding flush
left-flush w = ground arith

left-advance_at :
    (r : Running) (saved : Bool) (w : Writer)
    → w.running ≡ r
    → left (advance_at r saved w) ≤ left w - 1
unfolding advance_at after_save finish start
left-advance_at stopped saved w r = ground arith
left-advance_at starting saved w r = ground (arith, left-flush w)
left-advance_at (writing next) true w r = ground (arith, left-flush (record w { confirmed = next }))
left-advance_at (writing next) false w r = ground arith
left-advance_at finishing saved w r = ground arith

-- The steps of the run, whose saves give the answers in turn.
unfoldable pub settle : List Bool → Writer → Writer
settle [] w = w
settle (saved ∷ answers) w = settle answers (advance_run saved w)

left-settle :
    (answers : List Bool) (w : Writer) → left w ≤ length answers → left (settle answers w) ≡ 0
unfolding settle advance_run
left-settle [] w h = omega arith
left-settle (saved ∷ answers) w h =
    left-settle answers (advance_run saved w)
      (omega (arith, left-advance_at w.running saved w refl))

settle-IsValid : (answers : List Bool) (w : Writer) → IsValid w → IsValid (settle answers w)
unfolding settle
settle-IsValid [] w v = v
settle-IsValid (saved ∷ answers) w v =
    settle-IsValid answers (advance_run saved w) (advance_run-IsValid saved w v)

-- The writer is at rest, and shows what is confirmed, up to `sameTags`.
abbrev pub IsSettled : Writer → Type 0
IsSettled w =
    (w.running ≡ stopped)
    × (w.queued ≡ none)
    × (w.is_saving ≡ false)
    × (same_tags w.changed_to w.confirmed ≡ true)

at_rest : (w : Writer) → IsValid w → left w ≡ 0 → IsSettled w
at_rest w v z = let h = v.shown in let k = v.saving in let q = v.nothing_left in ground arith

left_bound : (w : Writer) → left w ≤ 4
left_bound w = ground arith

-- From any valid state, four steps of the run or more bring the writer to rest, whatever its saves give:
-- nothing is queued, the saving flag is down, and the tags shown are the confirmed ones up to
-- `sameTags`.
pub settle-IsSettled :
    (w : Writer) (answers : List Bool)
    → IsValid w
    → 4 ≤ length answers
    → IsSettled (settle answers w)
settle-IsSettled w answers v h =
    at_rest (settle answers w) (settle-IsValid answers w v)
      (left-settle answers w (omega (arith, left_bound w)))

-- The run goes on to its end without another save, and shows `tags`, which are confirmed.
abbrev EndsWith : Tags → List Tags → Writer → Type 0
EndsWith tags saves w =
    (w.queued ≡ none)
    × (w.confirmed ≡ tags)
    × (w.changed_to ≡ tags)
    × (w.saves ≡ saves)
    × (left w ≤ 1)

advance_at-EndsWith :
    (r : Running) (saved : Bool) (w : Writer) {tags : Tags} {saves : List Tags}
    → w.running ≡ r
    → EndsWith tags saves w
    → EndsWith tags saves (advance_at r saved w)
unfolding advance_at finish
advance_at-EndsWith stopped saved w r h = h
advance_at-EndsWith starting saved w r h = absurd (ground arith)
advance_at-EndsWith (writing next) saved w r h = absurd (ground arith)
advance_at-EndsWith finishing saved w r h = ground arith

settle-EndsWith :
    (answers : List Bool) (w : Writer) {tags : Tags} {saves : List Tags}
    → EndsWith tags saves w
    → EndsWith tags saves (settle answers w)
unfolding settle advance_run
settle-EndsWith [] w h = h
settle-EndsWith (saved ∷ answers) w h =
    settle-EndsWith answers (advance_run saved w) (advance_at-EndsWith w.running saved w refl h)

-- When a save fails, the tags confirmed before are shown again and stay confirmed, what was queued is
-- dropped, and no further save is made, however long the run goes on.
pub settle_failed :
    (w : Writer) (next : Tags) (answers : List Bool)
    → w.running ≡ writing next
    → ((settle (false ∷ answers) w).confirmed ≡ w.confirmed)
      × ((settle (false ∷ answers) w).changed_to ≡ w.confirmed)
      × ((settle (false ∷ answers) w).queued ≡ none)
      × ((settle (false ∷ answers) w).saves ≡ w.saves)
unfolding settle advance_run advance_at after_save
settle_failed w next answers r =
    let failed : EndsWith w.confirmed w.saves (advance_at w.running false w) =
      subst (λ place. EndsWith w.confirmed w.saves (advance_at place false w)) (sym r)
        (refl, refl, refl, refl, omega arith) in
    let (q, c, t, s, _) = settle-EndsWith answers (advance_at w.running false w) failed in
    (c, t, q, s)
