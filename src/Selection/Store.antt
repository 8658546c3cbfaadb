-- ===== src/Selection/Store.antt =====
-- The selection of one list: the class `IllustSelectionStore` of
-- frontend/src/features/downloads/selection-state.ts. A batch is told apart by its number, `batches` is
-- how many began, and a listener is a number. `download` is cut where it waits for the workers:
-- `begin_download`, `on_progress` and `end_download`.
use pixiv_biu.Base.{
  ℕ, suc, ◌==◌, Bool, true, false, not, ◌&&◌, ◌||◌, Option, none, some, List, [], ◌∷◌, ◌++◌,
  if◌then◌else◌, is_some, unique, includes, add, delete, filter, ℕ_discrete, length, ite, String,
  text_discrete,
}
use pixiv_biu.Selection.Pool.{BatchResult}

pub data SelectionScope : Type 0 where
  page loaded : SelectionScope

pub record Progress : Type 0 where
  pub completed : ℕ
  pub total : ℕ

pub record Finished : Type 0 where
  pub batch_result : BatchResult
  pub finished_at : ℕ

pub record SelectionSnapshot : Type 0 where
  pub mode : Bool
  pub selected : List ℕ
  pub visible_ids : List ℕ
  pub enabled : Bool
  pub scope : SelectionScope
  pub pending : Option Progress
  pub result : Option Finished

pub record SelectionOptions : Type 0 where
  pub identity : String
  pub visible_ids : List ℕ
  pub enabled : Bool
  pub scope : Option SelectionScope

pub record Batch : Type 0 where
  pub number : ℕ
  pub revision : ℕ

pub record SelectionStore : Type 0 where
  pub identity : String
  pub revision : ℕ
  pub batch : Option Batch
  pub batches : ℕ
  pub listeners : List ℕ
  pub calls : List ℕ
  pub snapshot : SelectionSnapshot

abbrev pub scope_or_page : Option SelectionScope → SelectionScope
scope_or_page none = page
scope_or_page (some scope) = scope

unfoldable pub new_selection : SelectionOptions → SelectionStore
new_selection o = record {
  identity = o.identity;
  revision = 0;
  batch = none;
  batches = 0;
  listeners = [];
  calls = [];
  snapshot = record {
    mode = false;
    selected = [];
    visible_ids = if o.enabled then unique ℕ_discrete o.visible_ids else [];
    enabled = o.enabled;
    scope = scope_or_page o.scope;
    pending = none;
    result = none;
  };
}

unfoldable pub subscribe : ℕ → SelectionStore → SelectionStore
subscribe l s = record s { listeners = add ℕ_discrete l s.listeners }

unfoldable pub unsubscribe : ℕ → SelectionStore → SelectionStore
unsubscribe l s = record s { listeners = delete ℕ_discrete l s.listeners }

unfoldable pub update : SelectionSnapshot → SelectionStore → SelectionStore
update snapshot s = record s { snapshot = snapshot; calls = s.calls ++ s.listeners }

abbrev pub same_scope : SelectionScope → SelectionScope → Bool
same_scope page page = true
same_scope loaded loaded = true
same_scope _ _ = false

abbrev pub same_flag : Bool → Bool → Bool
same_flag true b = b
same_flag false b = not b

abbrev pub same_ids : List ℕ → List ℕ → Bool
same_ids [] [] = true
same_ids (a ∷ xs) (b ∷ ys) = (a == b) && same_ids xs ys
same_ids _ _ = false

abbrev pub allowed : List ℕ → List ℕ → List ℕ
allowed ids selected = filter (λ id. includes ℕ_discrete id ids) selected

-- The ids of the list: those of an authoritative result, and else those that were there.
abbrev pub ids_of : SelectionOptions → Bool → List ℕ → List ℕ
ids_of o is_changed ids =
    if o.enabled then unique ℕ_discrete o.visible_ids else if is_changed then [] else ids

abbrev pub is_empty : List ℕ → Bool
is_empty [] = true
is_empty (x ∷ xs) = false

-- The write of `configure`, given whether it resets, whether it drops selected ids, and what is left.
unfoldable pub reconfigured :
    Bool → Bool → List ℕ → List ℕ → SelectionOptions → SelectionStore → SelectionStore
unfolding update
reconfigured reset pruned ids selected o s =
    update
      (record {
        visible_ids = ids;
        enabled = o.enabled;
        scope = scope_or_page o.scope;
        selected = if reset then [] else selected;
        mode = if reset || (pruned && is_empty selected) then false else s.snapshot.mode;
        pending = if reset then none else s.snapshot.pending;
        result = if reset || pruned then none else s.snapshot.result;
      })
      (record s {
        identity = o.identity;
        revision = if reset || (pruned && is_empty selected) then suc s.revision else s.revision;
        batch = if reset then none else s.batch;
      })

unfoldable pub configure : SelectionOptions → SelectionStore → SelectionStore
unfolding reconfigured
configure o s =
    let is_changed = not (ite (text_discrete s.identity o.identity) true false) in
    let ids = ids_of o is_changed s.snapshot.visible_ids in
    let selected = allowed ids s.snapshot.selected in
    let pruned = not (length selected == length s.snapshot.selected) in
    let reset = is_changed || (o.enabled && is_empty ids) in
    if not is_changed
      && not pruned
      && not (reset && s.snapshot.mode)
      && same_ids ids s.snapshot.visible_ids
      && same_flag o.enabled s.snapshot.enabled
      && same_scope (scope_or_page o.scope) s.snapshot.scope
    then record s { identity = o.identity }
    else reconfigured reset pruned ids selected o s

unfoldable pub exit : SelectionStore → SelectionStore
unfolding update
exit s =
    update (record s.snapshot { mode = false; selected = []; result = none })
      (record s { revision = suc s.revision })

abbrev pub editable : SelectionSnapshot → Bool
editable n = n.enabled && (not (is_some n.pending) && not (is_empty n.visible_ids))

abbrev pub toggled : ℕ → List ℕ → List ℕ
toggled id selected =
    if includes ℕ_discrete id selected
    then delete ℕ_discrete id selected
    else add ℕ_discrete id selected

-- The write of `toggle`, `toggleAll` and the end of a batch.
abbrev pub selecting : List ℕ → Bool → SelectionSnapshot → SelectionSnapshot
selecting selected mode n = record n { selected = selected; mode = mode; result = none }

unfoldable pub toggle : ℕ → SelectionStore → SelectionStore
unfolding update
toggle id s =
    let selected = toggled id s.snapshot.selected in
    if not (editable s.snapshot) || not (includes ℕ_discrete id s.snapshot.visible_ids)
    then s
    else update (selecting selected (not (is_empty selected)) s.snapshot)
        (record s { revision = suc s.revision })

unfoldable pub toggle_all : SelectionStore → SelectionStore
unfolding update
toggle_all s =
    if not (editable s.snapshot)
    then s
    else update
        (selecting (if is_empty s.snapshot.selected then s.snapshot.visible_ids else []) true
          s.snapshot)
        (record s { revision = suc s.revision })

unfoldable pub dismiss_result : SelectionStore → SelectionStore
unfolding update
dismiss_result s =
    if is_some s.snapshot.result then update (record s.snapshot { result = none }) s else s

-- `download` up to the workers; its batch is the latest.
unfoldable pub begin_download : Bool → SelectionStore → SelectionStore
unfolding update
begin_download is_current s =
    if not (editable s.snapshot) || is_empty s.snapshot.selected || not is_current
    then s
    else update
        (record s.snapshot {
          pending = some (record { completed = 0; total = length s.snapshot.selected });
          result = none;
        })
        (record s {
          batch = some (record { number = s.batches; revision = s.revision });
          batches = suc s.batches;
        })

abbrev pub is_batch : Batch → Option Batch → Bool
is_batch b none = false
is_batch b (some c) = b.number == c.number

abbrev pub owns_selection : Batch → Bool → SelectionStore → Bool
owns_selection b is_current s = is_batch b s.batch && ((b.revision == s.revision) && is_current)

unfoldable pub on_progress : Batch → ℕ → ℕ → Bool → SelectionStore → SelectionStore
unfolding update
on_progress b completed total is_current s =
    if owns_selection b is_current s
    then update
        (record s.snapshot { pending = some (record { completed = completed; total = total }) }) s
    else s

-- What is still to be seen of the failed ones is selected again.
unfoldable pub adopt : Batch → BatchResult → ℕ → Bool → SelectionStore → SelectionStore
unfolding update
adopt b r now is_current s =
    let selected = unique ℕ_discrete (allowed s.snapshot.visible_ids r.failed) in
    if owns_selection b is_current s
    then update
        (record s.snapshot {
          selected = selected;
          mode = not (is_empty selected);
          result = some (record { batch_result = r; finished_at = now });
        })
        s
    else s

-- The `finally`.
unfoldable pub release : Batch → SelectionStore → SelectionStore
unfolding update
release b s =
    if is_batch b s.batch
    then update (record s.snapshot { pending = none }) (record s { batch = none })
    else s

unfoldable pub end_download : Batch → BatchResult → ℕ → Bool → SelectionStore → SelectionStore
unfolding adopt release
end_download b r now is_current s = release b (adopt b r now is_current s)
