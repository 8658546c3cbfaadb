-- ===== src/Bookmarks/TagWriter.antt =====
-- The writer of a bookmark's tags: frontend/src/features/illusts/bookmark-tag-writer.ts.
-- The asynchronous run is cut where it waits: for its microtask (`starting`), for a save (`writing`), for
-- the `finally` (`finishing`). Each step below is what runs between two waits, and a call of the
-- object's methods may come before any of them. What `onChange`, `onSaving` and `save` are called with is
-- kept: the last tags and flag, and the list of all saves.
use pixiv_biu.Base.{
  ◌&&◌, ◌==◌, Bool, true, false, Option, none, some, List, [], ◌∷◌, ◌++◌, String, length, all,
  includes, text_discrete, if◌then◌else◌, is_some,
}

abbrev pub Tags : Type 0
Tags = List String

unfoldable pub same_tags : Tags → Tags → Bool
same_tags a b = (length a == length b) && all (λ tag. includes text_discrete tag b) a

pub data Running : Type 0 where
  stopped : Running
  starting : Running
  writing : Tags → Running
  finishing : Running

pub record Writer : Type 0 where
  pub confirmed : Tags
  pub queued : Option Tags
  pub running : Running
  pub changed_to : Tags
  pub is_saving : Bool
  pub saves : List Tags

unfoldable pub create_bookmark_tag_writer : Tags → Writer
create_bookmark_tag_writer initial = record {
  confirmed = initial;
  queued = none;
  running = stopped;
  changed_to = initial;
  is_saving = false;
  saves = [];
}

abbrev pub is_running : Running → Bool
is_running stopped = false
is_running _ = true

-- `pending`.
abbrev pub pending : Writer → Bool
pending w = if is_running w.running then true else is_some w.queued

unfoldable pub start : Writer → Writer
start w = if is_running w.running then w else record w { running = starting; is_saving = true }

unfoldable pub change : Tags → Writer → Writer
unfolding start
change tags w = start (record w { queued = some tags; changed_to = tags })

unfoldable pub synchronize : Tags → Writer → Writer × Bool
unfolding same_tags
synchronize tags w =
    if pending w
    then (w, false)
    else if same_tags w.confirmed tags
    then (record w { confirmed = tags }, true)
    else (record w { confirmed = tags; changed_to = tags }, true)

-- The `while` from its test on: a round that goes on leaves nothing queued, so the next test ends it.
unfoldable pub flush : Writer → Writer
unfolding same_tags
flush w = elim w.queued [
  | none ↦ record w { running = finishing }
  | some next ↦
      if same_tags next w.confirmed
      then record w { queued = none; running = finishing }
      else record w { queued = none; running = writing next; saves = w.saves ++ next ∷ [] }
]

-- The rest of the round after `save`, which gave `saved` (false where it threw).
unfoldable pub after_save : Bool → Tags → Writer → Writer
unfolding flush
after_save true next w = flush (record w { confirmed = next })
after_save false next w = record w { queued = none; running = finishing; changed_to = w.confirmed }

-- The `finally`.
unfoldable pub finish : Writer → Writer
unfolding start
finish w =
    let stopped_writer : Writer = record w { running = stopped } in
    if is_some w.queued then start stopped_writer else record stopped_writer { is_saving = false }

-- One step of the run, by where it waits; `saved` is what the save under way gives.
unfoldable pub advance_at : Running → Bool → Writer → Writer
advance_at stopped saved w = w
advance_at starting saved w = flush w
advance_at (writing next) saved w = after_save saved next w
advance_at finishing saved w = finish w

unfoldable pub advance_run : Bool → Writer → Writer
unfolding advance_at
advance_run saved w = advance_at w.running saved w
