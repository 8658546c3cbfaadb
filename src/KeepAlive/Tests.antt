-- ===== src/KeepAlive/Tests.antt =====
-- Runs of the kept-alive pages, and the theorems at them.
use pixiv_biu.Base.{ℕ, ◌≡◌, refl, some, [], ◌∷◌, map, text_discrete}
use pixiv_biu.KeepAlive.{
  State, Options, new_entry, is_fresh, reopen, place, evict, next_state, initial_state, oldest_from,
  remove_at, stamp,
}
use pixiv_biu.KeepAlive.Invariant.{IsValid, key_of, find_key}
use pixiv_biu.KeepAlive.Navigate.{
  opened, next_state-find, next_state-IsValid, initial_state-IsValid,
}

abbrev two_pages : Options
two_pages = record { max = 2; idle_ttl = 100 }

abbrev first : State ℕ
first = initial_state 7 (some "/")

abbrev second : State ℕ
second = next_state first 8 (some "/search") 10 two_pages

abbrev third : State ℕ
third = next_state second 9 (some "/ranking") 20 two_pages

-- The page left first is dropped.
third_keys : map key_of third.entries ≡ "/search" ∷ "/ranking" ∷ []
unfolding next_state initial_state new_entry place evict is_fresh reopen oldest_from remove_at stamp
    text_discrete
third_keys = refl

-- A page hidden for too long comes back with a new id.
stale_page :
    find_key "/" (next_state second 7 (some "/") 500 two_pages).entries ≡ some (new_entry "/" 2 7)
unfolding next_state initial_state new_entry place evict is_fresh reopen oldest_from remove_at stamp
    text_discrete
stale_page = refl

first-IsValid : IsValid first
first-IsValid = initial_state-IsValid 7 (some "/")

second-IsValid : IsValid second
second-IsValid = next_state-IsValid first 8 10 two_pages (some "/search") first-IsValid

next_state-find_example :
    find_key "/ranking" third.entries
    ≡ some (opened "/ranking" 9 second.next_seq 20 100 (find_key "/ranking" second.entries))
next_state-find_example = next_state-find second 9 20 two_pages "/ranking" second-IsValid
