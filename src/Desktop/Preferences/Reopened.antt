-- ===== src/Desktop/Preferences/Reopened.antt =====
-- What the preferences keep, and what a restart finds of them (desktop/src/preferences.ts).
use mathlib.Core.List.{append_assoc}
use pixiv_biu.Base.{
  ◌≡◌, refl, sym, ap, ◌∙◌, arith, Bool, true, false, Option, none, some, List, [], ◌∷◌, ◌++◌, map,
  String, leb, if◌then◌else◌, text_discrete, lookup, insert, includes, All, keys, Distinct,
  insert-Distinct, insert-absent, includes_head, includes-keys-append, concat_nil,
}
use pixiv_biu.Desktop.Preferences.Store.{
  Unknown, text, other, Parsed, Platform, PreferenceError, PreferenceStore, is_valid_text,
  valid_entry, restore_value, restore_entries, restore_content, restore_parsed, is_version_1,
  restore, new_store, write_next, write_entry, valid_unknown, write, is_value, max_file_bytes,
}

-- A call of `write`, and whether the file system takes it.
pub record Write : Type 0 where
  pub key : Unknown
  pub value : Unknown
  pub is_written : Bool

module _ {D : Type 0} (p : Platform D) where
  abbrev pub IsPreference : String × String → Type 0
  IsPreference e = is_valid_text p e.0 e.1 ≡ true

  pub record IsValid (s : PreferenceStore D) : Type 0 where
    pub entries : All IsPreference s.values
    pub distinct : Distinct text_discrete (keys s.values)
    pub reopened : restore p s.file ≡ s.values

  insert-All :
      (k v : String) (m : List (String × String))
      → IsPreference (k, v)
      → All IsPreference m
      → All IsPreference (insert text_discrete k v m)
  unfolding insert
  insert-All k v [] h a = (h, tt)
  insert-All k v ((j, w) ∷ m) h a = ground (arith, insert-All k v m h a.1)

  valid_entry-IsPreference :
      (k : String) (u : Unknown) (v : String) → valid_entry p k u ≡ some v → IsPreference (k, v)
  unfolding valid_entry
  valid_entry-IsPreference k (text w) v h = ground arith
  valid_entry-IsPreference k other v h = cc

  restore_value-All :
      (k : String) (u : Unknown) (o : Option String) (m : List (String × String))
      → valid_entry p k u ≡ o
      → All IsPreference m
      → Distinct text_discrete (keys m)
      → All IsPreference (restore_value k o m) × Distinct text_discrete (keys (restore_value k o m))
  restore_value-All k u none m h a d = (a, d)
  restore_value-All k u (some v) m h a d =
      (insert-All k v m (valid_entry-IsPreference k u v h) a, insert-Distinct text_discrete k v m d)

  restore_entries-All :
      (es : List (String × Unknown)) (m : List (String × String))
      → All IsPreference m
      → Distinct text_discrete (keys m)
      → All IsPreference (restore_entries p es m)
        × Distinct text_discrete (keys (restore_entries p es m))
  unfolding restore_entries
  restore_entries-All [] m a d = (a, d)
  restore_entries-All ((k, v) ∷ es) m a d =
      let (b, e) = restore_value-All k v (valid_entry p k v) m refl a d in
      restore_entries-All es (restore_value k (valid_entry p k v) m) b e

  restore_value-text :
      (k v : String) (m : List (String × String))
      → IsPreference (k, v)
      → includes text_discrete k (keys m) ≡ false
      → restore_value k (valid_entry p k (text v)) m ≡ m ++ (k, v) ∷ []
  unfolding valid_entry
  restore_value-text k v m a h = ground (arith, insert-absent text_discrete k v m)

  -- The entries that a document of valid preferences gives.
  restore_entries-map :
      (es m : List (String × String))
      → All IsPreference es
      → Distinct text_discrete (keys es)
      → ((k : String)
          → includes text_discrete k (keys es) ≡ true
          → includes text_discrete k (keys m) ≡ false)
      → restore_entries p (map (λ e. (e.0, text e.1)) es) m ≡ m ++ es
  unfolding restore_entries valid_entry
  restore_entries-map [] m a d n = sym (concat_nil m)
  restore_entries-map ((k, v) ∷ es) m a d n =
      ap (restore_entries p (map (λ e. (e.0, text e.1)) es))
        (restore_value-text k v m a.0 (n k (includes_head text_discrete k (keys es))))
      ∙ restore_entries-map es (m ++ (k, v) ∷ []) a.1 d.1
          (λ j h. ground (arith, n j, includes-keys-append text_discrete j m ((k, v) ∷ [])))
      ∙ append_assoc m ((k, v) ∷ []) es

  -- A document of permitted preferences, each key once, is read back as it was written (JSON; no permitted
  -- key is a number, so that the entries keep their order).
  abbrev pub KeepsEntries : Type 0
  KeepsEntries =
      (es : List (String × String))
      → All IsPreference es
      → Distinct text_discrete (keys es)
      → p.parse (p.stringify es)
        ≡ some (record { version = some 1; values = some (map (λ e. (e.0, text e.1)) es) })

  -- A choice between values as they should be and none.
  ite-All :
      (b : Bool) (m : List (String × String))
      → All IsPreference m × Distinct text_discrete (keys m)
      → All IsPreference (if b then m else []) × Distinct text_discrete (keys (if b then m else []))
  ite-All true m h = h
  ite-All false m h = (tt, tt)

  content-All :
      (o : Option (List (String × Unknown))) (b : Bool)
      → All IsPreference (restore_content p o b)
        × Distinct text_discrete (keys (restore_content p o b))
  content-All none b = (tt, tt)
  content-All (some es) b = ite-All b (restore_entries p es []) (restore_entries-All es [] tt tt)

  restore_parsed-All :
      (o : Option Parsed)
      → All IsPreference (restore_parsed p o) × Distinct text_discrete (keys (restore_parsed p o))
  restore_parsed-All none = (tt, tt)
  restore_parsed-All (some content) = content-All content.values (is_version_1 content.version)

  restore-All :
      (file : Option D)
      → All IsPreference (restore p file) × Distinct text_discrete (keys (restore p file))
  unfolding restore
  restore-All none = (tt, tt)
  restore-All (some content) =
      ite-All (leb (p.size content) max_file_bytes) (restore_parsed p (p.parse content))
        (restore_parsed-All (p.parse content))

  new_store-IsValid : (file : Option D) → IsValid (new_store p file)
  unfolding new_store
  new_store-IsValid file = record {
    entries = (restore-All file).0;
    distinct = (restore-All file).1;
    reopened = refl;
  }

  module _ (json : KeepsEntries) where
    written-IsValid :
        (m : List (String × String))
        → All IsPreference m
        → Distinct text_discrete (keys m)
        → leb (p.size (p.stringify m)) max_file_bytes ≡ true
        → IsValid (record { file = some (p.stringify m); values = m })
    unfolding restore
    written-IsValid m a d l = record {
      entries = a;
      distinct = d;
      reopened = rw l (rw (json m a d) (restore_entries-map m [] a d (λ k h. refl)));
    }

    ite_IsValid :
        (b : Bool) (r q : Option PreferenceError × PreferenceStore D)
        → (b ≡ true → IsValid r.1)
        → IsValid q.1
        → IsValid (if b then r else q).1
    ite_IsValid true r q h v = h refl
    ite_IsValid false r q h v = v

    write_next-IsValid :
        (m : List (String × String)) (is_written : Bool) (s : PreferenceStore D)
        → All IsPreference m
        → Distinct text_discrete (keys m)
        → IsValid s
        → IsValid (write_next p m is_written s).1
    unfolding write_next
    write_next-IsValid m false s a d v = ground arith
    write_next-IsValid m true s a d v =
        ite_IsValid (leb (p.size (p.stringify m)) max_file_bytes) _ _ (λ l. written-IsValid m a d l)
          v

    write_entry-IsValid :
        (o : Option (String × String)) (is_written : Bool) (s : PreferenceStore D)
        → ((e : String × String) → o ≡ some e → IsPreference e)
        → IsValid s
        → IsValid (write_entry p o is_written s).1
    write_entry-IsValid none is_written s h v = v
    write_entry-IsValid (some (k, x)) is_written s h v =
        ite_IsValid (is_value x (lookup text_discrete k s.values)) (none, s) _ (λ e. v)
          (write_next-IsValid (insert text_discrete k x s.values) is_written s
            (insert-All k x s.values (h (k, x) refl) v.entries)
            (insert-Distinct text_discrete k x s.values v.distinct) v)

    valid_unknown-IsPreference :
        (key value : Unknown) (e : String × String)
        → valid_unknown p key value ≡ some e
        → IsPreference e
    valid_unknown-IsPreference (text k) u e h = ground (arith, valid_entry-IsPreference k u e.1)
    valid_unknown-IsPreference other u e h = cc

    write-IsValid :
        (key value : Unknown) (is_written : Bool) (s : PreferenceStore D)
        → IsValid s
        → IsValid (write p key value is_written s).1
    unfolding write
    write-IsValid key value is_written s v =
        write_entry-IsValid (valid_unknown p key value) is_written s
          (valid_unknown-IsPreference key value) v

    unfoldable pub write_all : List Write → PreferenceStore D → PreferenceStore D
    write_all [] s = s
    write_all (w ∷ ws) s = write_all ws (write p w.key w.value w.is_written s).1

    written_all-IsValid :
        (ws : List Write) (s : PreferenceStore D) → IsValid s → IsValid (write_all ws s)
    unfolding write_all
    written_all-IsValid [] s v = v
    written_all-IsValid (w ∷ ws) s v =
        written_all-IsValid ws (write p w.key w.value w.is_written s).1
          (write-IsValid w.key w.value w.is_written s v)

    -- After any writes on a store over any file, where JSON gives back permitted preferences with distinct keys
    -- as they were written: the preferences have permitted keys, each once, and values within the bound, and
    -- a store that is opened on the file reads the very same ones.
    pub write_all-IsValid :
        (file : Option D) (ws : List Write) → IsValid (write_all ws (new_store p file))
    write_all-IsValid file ws = written_all-IsValid ws (new_store p file) (new_store-IsValid file)
