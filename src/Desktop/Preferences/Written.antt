-- ===== src/Desktop/Preferences/Written.antt =====
-- What one write does to the preferences (desktop/src/preferences.ts).
use pixiv_biu.Base.{
  ◌≡◌, ◌⊎◌, inl, inr, refl, arith, Bool, true, false, Option, none, some, String, leb,
  if◌then◌else◌, ite, text_discrete, lookup, insert, lookup-insert,
}
use pixiv_biu.Desktop.Preferences.Store.{
  Unknown, text, other, Platform, PreferenceError, invalid_preference, preference_write_failed,
  PreferenceStore, is_valid_text, valid_entry, write_next, write_entry, entry_of, write, is_value,
  max_file_bytes,
}

module _ {D : Type 0} (p : Platform D) where
  -- Why a write may throw: the file system, an entry that is not permitted, or a document that is too large.
  abbrev pub MayThrow : PreferenceError → Unknown → Unknown → Bool → PreferenceStore D → Type 0
  MayThrow preference_write_failed key value is_written s = is_written ≡ false
  MayThrow invalid_preference (text k) (text v) is_written s =
      (is_valid_text p k v ≡ false)
      ⊎ (leb (p.size (p.stringify (insert text_discrete k v s.values))) max_file_bytes ≡ false)
  MayThrow invalid_preference _ _ is_written s = Unit

  abbrev pub Leaves :
      Option PreferenceError
      → Unknown
      → Unknown
      → Bool
      → PreferenceStore D
      → PreferenceStore D
      → Type 0
  Leaves none (text k) (text v) is_written s t =
      (j : String)
      → lookup text_discrete j t.values
        ≡ ite (text_discrete k j) (some v) (lookup text_discrete j s.values)
  Leaves none _ _ is_written s t = ⊥
  Leaves (some e) key value is_written s t = (t ≡ s) × MayThrow e key value is_written s

  same_value-Leaves :
      (k v : String) (o : Option String) (s : PreferenceStore D)
      → lookup text_discrete k s.values ≡ o
      → is_value v o ≡ true
      → (j : String)
      → lookup text_discrete j s.values
        ≡ ite (text_discrete k j) (some v) (lookup text_discrete j s.values)
  same_value-Leaves k v none s e h j = cc
  same_value-Leaves k v (some w) s e h j = ground arith

  abbrev After :
      Unknown
      → Unknown
      → Bool
      → PreferenceStore D
      → Option PreferenceError × PreferenceStore D
      → Type 0
  After key value is_written s r = Leaves r.0 key value is_written s r.1

  if-Leaves :
      (k v : String) (is_written : Bool) (s : PreferenceStore D) (b : Bool)
      (r q : Option PreferenceError × PreferenceStore D)
      → (b ≡ true → After (text k) (text v) is_written s r)
      → (b ≡ false → After (text k) (text v) is_written s q)
      → After (text k) (text v) is_written s (if b then r else q)
  if-Leaves k v is_written s true r q f g = f refl
  if-Leaves k v is_written s false r q f g = g refl

  write_next-Leaves :
      (k v : String) (is_written : Bool) (s : PreferenceStore D)
      → After
          (text k)
          (text v)
          is_written
          s
          (write_next p (insert text_discrete k v s.values) is_written s)
  unfolding write_next
  write_next-Leaves k v is_written s =
      if-Leaves k v is_written s
        (leb (p.size (p.stringify (insert text_discrete k v s.values))) max_file_bytes) _ _
        (λ l.
          if-Leaves k v is_written s is_written _ _
            (λ w j. lookup-insert text_discrete j k v s.values) (λ w. (refl, w)))
        (λ l. (refl, inr l))

  entry-Leaves :
      (k v : String) (is_written : Bool) (s : PreferenceStore D) (b : Bool)
      → is_valid_text p k v ≡ b
      → After
          (text k)
          (text v)
          is_written
          s
          (write_entry p (entry_of k (if b then some v else none)) is_written s)
  entry-Leaves k v is_written s false e = (refl, inl e)
  entry-Leaves k v is_written s true e =
      if-Leaves k v is_written s (is_value v (lookup text_discrete k s.values)) _ _
        (same_value-Leaves k v (lookup text_discrete k s.values) s refl)
        (λ n. write_next-Leaves k v is_written s)

  -- A write that returns has set its key to its value, and no other key has changed. One that throws has
  -- changed nothing, and throws because the file system refused, the entry is not permitted, or the
  -- document would be too large.
  pub write-Leaves :
      (key value : Unknown) (is_written : Bool) (s : PreferenceStore D)
      → Leaves
          (write p key value is_written s).0
          key
          value
          is_written
          s
          (write p key value is_written s).1
  unfolding write valid_entry
  write-Leaves other value is_written s = (refl, tt)
  write-Leaves (text k) other is_written s = (refl, tt)
  write-Leaves (text k) (text v) is_written s =
      entry-Leaves k v is_written s (is_valid_text p k v) refl
