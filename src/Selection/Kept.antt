-- ===== src/Selection/Kept.antt =====
-- What is selected is what the list shows, and one batch runs at most
-- (frontend/src/features/downloads/selection-state.ts).
use pixiv_biu.Base.{
  ℕ, ◌==◌, ◌≡◌, inl, inr, Bool-cases, refl, sym, subst, arith, Bool, true, false, not, ◌&&◌, ◌||◌,
  none, List, [], ◌∷◌, if◌then◌else◌, is_some, unique, includes, ℕ_discrete, length, ite,
  text_discrete, Distinct, includes-filter, filter-Distinct, delete-Distinct, includes-delete,
  includes-add, add-Distinct, unique-Distinct, includes-unique,
}
use pixiv_biu.Selection.Pool.{BatchResult}
use pixiv_biu.Selection.Store.{
  SelectionOptions, Batch, SelectionStore, new_selection, subscribe, unsubscribe, update, allowed,
  ids_of, reconfigured, configure, exit, editable, toggled, toggle, toggle_all, dismiss_result,
  begin_download, on_progress, adopt, release, end_download, is_empty, owns_selection, is_batch,
  same_ids, same_flag, same_scope, scope_or_page,
}

abbrev pub Subset : List ℕ → List ℕ → Type 0
Subset xs ys = (x : ℕ) → includes ℕ_discrete x xs ≡ true → includes ℕ_discrete x ys ≡ true

-- A selection of ids of a list, each once.
pub record Selects (ids selected : List ℕ) : Type 0 where
  pub ids_distinct : Distinct ℕ_discrete ids
  pub distinct : Distinct ℕ_discrete selected
  pub shown : Subset selected ids

pub record IsValid (s : SelectionStore) : Type 0 where
  pub selects : Selects s.snapshot.visible_ids s.snapshot.selected
  pub busy : is_some s.snapshot.pending ≡ is_some s.batch

nothing-Selects : (ids : List ℕ) → Distinct ℕ_discrete ids → Selects ids []
nothing-Selects ids d = record { ids_distinct = d; distinct = tt; shown = λ x h. cc }

all-Selects : (ids : List ℕ) → Distinct ℕ_discrete ids → Selects ids ids
all-Selects ids d = record { ids_distinct = d; distinct = d; shown = λ x h. h }

allowed-Selects :
    (ids selected : List ℕ)
    → Distinct ℕ_discrete ids
    → Distinct ℕ_discrete selected
    → Selects ids (allowed ids selected)
allowed-Selects ids selected d e = record {
  ids_distinct = d;
  distinct = filter-Distinct ℕ_discrete (λ id. includes ℕ_discrete id ids) selected e;
  shown = λ x h.
      ground (arith, includes-filter ℕ_discrete (λ id. includes ℕ_discrete id ids) x selected);
}

ite_Selects :
    (b : Bool) {ids xs ys : List ℕ}
    → Selects ids xs
    → Selects ids ys
    → Selects ids (if b then xs else ys)
ite_Selects true v w = v
ite_Selects false v w = w

toggled-Selects :
    (id : ℕ) (ids selected : List ℕ)
    → includes ℕ_discrete id ids ≡ true
    → Selects ids selected
    → Selects ids (toggled id selected)
toggled-Selects id ids selected i v =
    ite_Selects (includes ℕ_discrete id selected)
      (record {
        ids_distinct = v.ids_distinct;
        distinct = delete-Distinct ℕ_discrete id selected v.distinct;
        shown = λ x h. ground (arith, includes-delete ℕ_discrete x id selected, v.shown x);
      })
      (record {
        ids_distinct = v.ids_distinct;
        distinct = add-Distinct ℕ_discrete id selected v.distinct;
        shown = λ x h. ground (arith, includes-add ℕ_discrete x id selected, v.shown x);
      })

ids_of-Distinct :
    (o : SelectionOptions) (b : Bool) (ids : List ℕ)
    → Distinct ℕ_discrete ids
    → Distinct ℕ_discrete (ids_of o b ids)
ids_of-Distinct o b ids d = ground (arith, unique-Distinct ℕ_discrete o.visible_ids)

ite_IsValid :
    (b : Bool) {s t : SelectionStore} → IsValid s → IsValid t → IsValid (if b then s else t)
ite_IsValid true v w = v
ite_IsValid false v w = w

new_selection-IsValid : (o : SelectionOptions) → IsValid (new_selection o)
unfolding new_selection
new_selection-IsValid o = record {
  selects = nothing-Selects (ids_of o true []) (ids_of-Distinct o true [] tt);
  busy = refl;
}

pending_of :
    (reset : Bool) (s : SelectionStore)
    → is_some s.snapshot.pending ≡ is_some s.batch
    → is_some (if reset then none else s.snapshot.pending)
      ≡ is_some (if reset then none else s.batch)
pending_of true s p = refl
pending_of false s p = p

reconfigured-IsValid :
    (reset pruned : Bool) (ids selected : List ℕ) (o : SelectionOptions) (s : SelectionStore)
    → Selects ids selected
    → IsValid s
    → IsValid (reconfigured reset pruned ids selected o s)
unfolding reconfigured update
reconfigured-IsValid reset pruned ids selected o s w v = record {
  selects = ite_Selects reset (nothing-Selects ids w.ids_distinct) w;
  busy = pending_of reset s v.busy;
}

configure-IsValid :
    (o : SelectionOptions) (s : SelectionStore) → IsValid s → IsValid (configure o s)
unfolding configure
configure-IsValid o s v =
    let is_changed = not (ite (text_discrete s.identity o.identity) true false) in
    let ids = ids_of o is_changed s.snapshot.visible_ids in
    let selected = allowed ids s.snapshot.selected in
    let pruned = not (length selected == length s.snapshot.selected) in
    let reset = is_changed || (o.enabled && is_empty ids) in
    ite_IsValid
      (not is_changed
        && not pruned
        && not (reset && s.snapshot.mode)
        && same_ids ids s.snapshot.visible_ids
        && same_flag o.enabled s.snapshot.enabled
        && same_scope (scope_or_page o.scope) s.snapshot.scope)
      (record { selects = v.selects; busy = v.busy })
      (reconfigured-IsValid reset pruned ids selected o s
        (allowed-Selects ids s.snapshot.selected
          (ids_of-Distinct o is_changed s.snapshot.visible_ids v.selects.ids_distinct)
          v.selects.distinct)
        v)

exit-IsValid : (s : SelectionStore) → IsValid s → IsValid (exit s)
unfolding exit update
exit-IsValid s v = record {
  selects = nothing-Selects s.snapshot.visible_ids v.selects.ids_distinct;
  busy = v.busy;
}

not_shown :
    (id : ℕ) (s : SelectionStore)
    → includes ℕ_discrete id s.snapshot.visible_ids ≡ false
    → toggle id s ≡ s
unfolding toggle
not_shown id s n = ground arith

toggle-IsValid : (id : ℕ) (s : SelectionStore) → IsValid s → IsValid (toggle id s)
unfolding toggle update
toggle-IsValid id s v = elim (Bool-cases (includes ℕ_discrete id s.snapshot.visible_ids)) [
  | inl i ↦
      ite_IsValid (not (editable s.snapshot) || not (includes ℕ_discrete id s.snapshot.visible_ids))
        v
        (record {
          selects = toggled-Selects id s.snapshot.visible_ids s.snapshot.selected i v.selects;
          busy = v.busy;
        })
  | inr n ↦ subst IsValid (sym (not_shown id s n)) v
]

toggle_all-IsValid : (s : SelectionStore) → IsValid s → IsValid (toggle_all s)
unfolding toggle_all update
toggle_all-IsValid s v =
    let ids = s.snapshot.visible_ids in
    ite_IsValid (not (editable s.snapshot)) v (record {
      selects =
          ite_Selects (is_empty s.snapshot.selected) (all-Selects ids v.selects.ids_distinct)
            (nothing-Selects ids v.selects.ids_distinct);
      busy = v.busy;
    })

dismiss_result-IsValid : (s : SelectionStore) → IsValid s → IsValid (dismiss_result s)
unfolding dismiss_result update
dismiss_result-IsValid s v =
    ite_IsValid (is_some s.snapshot.result) (record { selects = v.selects; busy = v.busy }) v

begin_download-IsValid :
    (is_current : Bool) (s : SelectionStore) → IsValid s → IsValid (begin_download is_current s)
unfolding begin_download update
begin_download-IsValid is_current s v =
    ite_IsValid (not (editable s.snapshot) || is_empty s.snapshot.selected || not is_current) v
      (record { selects = v.selects; busy = refl })

owner :
    (b : Batch) (is_current : Bool) (s : SelectionStore)
    → owns_selection b is_current s ≡ true
    → is_some s.batch ≡ true
owner b is_current s o = ground arith

not_owner :
    (b : Batch) (completed total : ℕ) (is_current : Bool) (s : SelectionStore)
    → owns_selection b is_current s ≡ false
    → on_progress b completed total is_current s ≡ s
unfolding on_progress
not_owner b completed total is_current s n = ground arith

on_progress-IsValid :
    (b : Batch) (completed total : ℕ) (is_current : Bool) (s : SelectionStore)
    → IsValid s
    → IsValid (on_progress b completed total is_current s)
unfolding on_progress update
on_progress-IsValid b completed total is_current s v =
    elim (Bool-cases (owns_selection b is_current s)) [
      | inl o ↦
          ite_IsValid (owns_selection b is_current s)
            (record { selects = v.selects; busy = sym (owner b is_current s o) }) v
      | inr n ↦ subst IsValid (sym (not_owner b completed total is_current s n)) v
    ]

again-Selects :
    (ids failed : List ℕ)
    → Distinct ℕ_discrete ids
    → Selects ids (unique ℕ_discrete (allowed ids failed))
again-Selects ids failed d = record {
  ids_distinct = d;
  distinct = unique-Distinct ℕ_discrete (allowed ids failed);
  shown = λ x h. ground (
    arith,
    includes-unique ℕ_discrete x (allowed ids failed),
    includes-filter ℕ_discrete (λ id. includes ℕ_discrete id ids) x failed,
  );
}

adopt-IsValid :
    (b : Batch) (r : BatchResult) (now : ℕ) (is_current : Bool) (s : SelectionStore)
    → IsValid s
    → IsValid (adopt b r now is_current s)
unfolding adopt update
adopt-IsValid b r now is_current s v =
    let ids = s.snapshot.visible_ids in
    ite_IsValid (owns_selection b is_current s)
      (record { selects = again-Selects ids r.failed v.selects.ids_distinct; busy = v.busy }) v

release-IsValid : (b : Batch) (s : SelectionStore) → IsValid s → IsValid (release b s)
unfolding release update
release-IsValid b s v =
    ite_IsValid (is_batch b s.batch) (record { selects = v.selects; busy = refl }) v

-- The calls of the store and of the page that owns it.
pub data Operation : Type 0 where
  configured : SelectionOptions → Operation
  subscribed unsubscribed toggled_id : ℕ → Operation
  exited all_toggled dismissed : Operation
  download_begun : Bool → Operation
  progressed : Batch → ℕ → ℕ → Bool → Operation
  download_ended : Batch → BatchResult → ℕ → Bool → Operation

unfoldable pub operate : Operation → SelectionStore → SelectionStore
operate (configured o) s = configure o s
operate (subscribed l) s = subscribe l s
operate (unsubscribed l) s = unsubscribe l s
operate (toggled_id id) s = toggle id s
operate exited s = exit s
operate all_toggled s = toggle_all s
operate dismissed s = dismiss_result s
operate (download_begun is_current) s = begin_download is_current s
operate (progressed b completed total is_current) s = on_progress b completed total is_current s
operate (download_ended b r now is_current) s = end_download b r now is_current s

unfoldable pub operate_all : List Operation → SelectionStore → SelectionStore
operate_all [] s = s
operate_all (o ∷ os) s = operate_all os (operate o s)

operate-IsValid : (o : Operation) (s : SelectionStore) → IsValid s → IsValid (operate o s)
unfolding operate subscribe unsubscribe end_download
operate-IsValid (configured o) s v = configure-IsValid o s v
operate-IsValid (subscribed l) s v = record { selects = v.selects; busy = v.busy }
operate-IsValid (unsubscribed l) s v = record { selects = v.selects; busy = v.busy }
operate-IsValid (toggled_id id) s v = toggle-IsValid id s v
operate-IsValid exited s v = exit-IsValid s v
operate-IsValid all_toggled s v = toggle_all-IsValid s v
operate-IsValid dismissed s v = dismiss_result-IsValid s v
operate-IsValid (download_begun is_current) s v = begin_download-IsValid is_current s v
operate-IsValid (progressed b completed total is_current) s v =
    on_progress-IsValid b completed total is_current s v
operate-IsValid (download_ended b r now is_current) s v =
    release-IsValid b (adopt b r now is_current s) (adopt-IsValid b r now is_current s v)

performed-IsValid :
    (os : List Operation) (s : SelectionStore) → IsValid s → IsValid (operate_all os s)
unfolding operate_all
performed-IsValid [] s v = v
performed-IsValid (o ∷ os) s v = performed-IsValid os (operate o s) (operate-IsValid o s v)

-- After any calls on a new store, the selected illustrations are ones that the list shows, each once, and
-- a download counts as pending exactly while a batch holds the store.
pub operate_all-IsValid :
    (o : SelectionOptions) (os : List Operation) → IsValid (operate_all os (new_selection o))
operate_all-IsValid o os = performed-IsValid os (new_selection o) (new_selection-IsValid o)
