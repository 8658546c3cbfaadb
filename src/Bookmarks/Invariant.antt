-- ===== src/Bookmarks/Invariant.antt =====
-- What the tag writer shows, in every run of its methods and steps
-- (frontend/src/features/illusts/bookmark-tag-writer.ts).
use pixiv_biu.Base.{
  ◌≡◌, refl, arith, Bool, true, false, none, some, List, [], ◌∷◌, String, all, includes,
  text_discrete, Distinct, length, includes-Distinct,
}
use pixiv_biu.Bookmarks.TagWriter.{
  Tags, same_tags, Running, stopped, starting, writing, finishing, Writer,
  create_bookmark_tag_writer, is_running, start, change, synchronize, flush, after_save, advance_at,
  finish, advance_run,
}

abbrev all_in : Tags → Tags → Bool
all_in b a = all (λ tag. includes text_discrete tag b) a

all_in-cons : (x : String) (b a : Tags) → all_in b a ≡ true → all_in (x ∷ b) a ≡ true
all_in-cons x b [] h = refl
all_in-cons x b (t ∷ a) h = ground (arith, all_in-cons x b a)

all_in_refl : (a : Tags) → all_in a a ≡ true
all_in_refl [] = refl
all_in_refl (t ∷ a) = ground (arith, all_in-cons t a a, all_in_refl a)

includes-all_in :
    (x : String) (c b : Tags)
    → all_in c b ≡ true
    → includes text_discrete x b ≡ true
    → includes text_discrete x c ≡ true
includes-all_in x c [] h i = cc
includes-all_in x c (t ∷ b) h i = ground (arith, includes-all_in x c b)

all_in_trans : (a b c : Tags) → all_in b a ≡ true → all_in c b ≡ true → all_in c a ≡ true
all_in_trans [] b c h k = refl
all_in_trans (t ∷ a) b c h k = ground (arith, all_in_trans a b c, includes-all_in t c b)

same_tags_refl : (a : Tags) → same_tags a a ≡ true
unfolding same_tags
same_tags_refl a = ground (arith, all_in_refl a)

-- Distinct tags are the same as others, for `sameTags`, only if there are as many and the same ones.
pub same_tags_lem :
    (a b : Tags)
    → Distinct text_discrete a
    → same_tags a b ≡ true
    → (length a ≡ length b)
      × ((tag : String) → includes text_discrete tag a ≡ includes text_discrete tag b)
unfolding same_tags
same_tags_lem a b d h =
    let e : length a ≡ length b = ground arith in
    (e, includes-Distinct text_discrete a b d e (λ tag. includes-all_in tag b a (ground arith)))

same_tags_trans :
    (a b c : Tags) → same_tags a b ≡ true → same_tags b c ≡ true → same_tags a c ≡ true
unfolding same_tags
same_tags_trans a b c h k = ground (arith, all_in_trans a b c)

-- What is shown is what is queued, or else what is being saved, or else what is confirmed.
abbrev IsShown : Writer → Type 0
IsShown w = elim w.queued [
  | some tags ↦ w.changed_to ≡ tags
  | none ↦ elim w.running [
    | writing next ↦ w.changed_to ≡ next
    | _ ↦ same_tags w.changed_to w.confirmed ≡ true
  ]
]

pub record IsValid (w : Writer) : Type 0 where
  pub shown : IsShown w
  pub saving : w.is_saving ≡ is_running w.running
  pub nothing_left : w.running ≡ stopped → w.queued ≡ none

pub create_bookmark_tag_writer-IsValid : (tags : Tags) → IsValid (create_bookmark_tag_writer tags)
unfolding create_bookmark_tag_writer
create_bookmark_tag_writer-IsValid tags = record {
  shown = same_tags_refl tags;
  saving = refl;
  nothing_left = λ h. refl;
}

change-IsValid : (tags : Tags) (w : Writer) → IsValid w → IsValid (change tags w)
unfolding change start
change-IsValid tags w v = record {
  shown = ground arith;
  saving = let h = v.saving in ground arith;
  nothing_left = λ e. ground arith;
}

synchronize-IsValid : (tags : Tags) (w : Writer) → IsValid w → IsValid (synchronize tags w).0
unfolding synchronize
synchronize-IsValid tags w v = record {
  shown =
      let h = v.shown in
      ground (arith, same_tags_refl tags, same_tags_trans w.changed_to w.confirmed tags);
  saving = let h = v.saving in ground arith;
  nothing_left = let h = v.nothing_left in ground arith;
}

flush-IsValid :
    (w : Writer)
    → IsShown w
    → w.is_saving ≡ true
    → (w.queued ≡ none → same_tags w.changed_to w.confirmed ≡ true)
    → IsValid (flush w)
unfolding flush
flush-IsValid w h s q = record {
  shown = ground arith;
  saving = ground arith;
  nothing_left = ground arith;
}

-- A save that is confirmed: what is shown is still right without anything queued.
saved_shown :
    (w : Writer) (next : Tags)
    → w.running ≡ writing next
    → IsShown w
    → w.queued ≡ none
    → same_tags w.changed_to next ≡ true
saved_shown w next r h q = let e : w.changed_to ≡ next = ground arith in rw e (same_tags_refl next)

after_save-IsValid :
    (saved : Bool) (next : Tags) (w : Writer)
    → w.running ≡ writing next
    → IsValid w
    → IsValid (after_save saved next w)
unfolding after_save
after_save-IsValid true next w r v =
    flush-IsValid (record w { confirmed = next })
      (let h = v.shown in let k = saved_shown w next r h in ground arith)
      (let h = v.saving in ground arith) (saved_shown w next r v.shown)
after_save-IsValid false next w r v = record {
  shown = same_tags_refl w.confirmed;
  saving = let h = v.saving in ground arith;
  nothing_left = λ e. refl;
}

finish-IsValid : (w : Writer) → w.running ≡ finishing → IsValid w → IsValid (finish w)
unfolding finish start
finish-IsValid w r v = record {
  shown = let h = v.shown in ground arith;
  saving = ground arith;
  nothing_left = ground arith;
}

advance_at-IsValid :
    (r : Running) (saved : Bool) (w : Writer)
    → w.running ≡ r
    → IsValid w
    → IsValid (advance_at r saved w)
unfolding advance_at
advance_at-IsValid stopped saved w r v = v
advance_at-IsValid starting saved w r v =
    flush-IsValid w v.shown (let h = v.saving in ground arith) (let h = v.shown in ground arith)
advance_at-IsValid (writing next) saved w r v = after_save-IsValid saved next w r v
advance_at-IsValid finishing saved w r v = finish-IsValid w r v

pub advance_run-IsValid : (saved : Bool) (w : Writer) → IsValid w → IsValid (advance_run saved w)
unfolding advance_run
advance_run-IsValid saved w v = advance_at-IsValid w.running saved w refl v

-- The methods of the writer, and the steps of its run.
pub data Call : Type 0 where
  change_call : Tags → Call
  synchronize_call : Tags → Call
  step : Bool → Call

unfoldable pub perform : Writer → Call → Writer
perform w (change_call tags) = change tags w
perform w (synchronize_call tags) = (synchronize tags w).0
perform w (step saved) = advance_run saved w

unfoldable pub perform_all : Writer → List Call → Writer
perform_all w [] = w
perform_all w (c ∷ cs) = perform_all (perform w c) cs

perform-IsValid : (w : Writer) (c : Call) → IsValid w → IsValid (perform w c)
unfolding perform
perform-IsValid w (change_call tags) v = change-IsValid tags w v
perform-IsValid w (synchronize_call tags) v = synchronize-IsValid tags w v
perform-IsValid w (step saved) v = advance_run-IsValid saved w v

-- However changes, synchronizations and the steps of the run follow one another, whether saves succeed
-- or not: the tags shown are the queued ones, else those being saved, else the confirmed ones up to
-- `sameTags`; the saving flag is up exactly while a run is under way; and nothing is left queued without one.
pub perform_all-IsValid : (w : Writer) (cs : List Call) → IsValid w → IsValid (perform_all w cs)
unfolding perform_all
perform_all-IsValid w [] v = v
perform_all-IsValid w (c ∷ cs) v = perform_all-IsValid (perform w c) cs (perform-IsValid w c v)
