-- ===== src/Base/Sets.antt =====
-- JavaScript's `Set`: the elements in order of insertion, each once.
use Prim.Native.Nat.{ℕ, zero, suc, ◌≤◌}
use mathlib.Core.Path.{◌≡◌, refl, sym, ◌∙◌, subst}
use mathlib.Core.Logic.{ite, inl, inr}
use mathlib.Core.Bool.{Bool, true, false, ◌||◌}
use mathlib.Core.List.{List, [], ◌∷◌, ◌++◌, map}
use native.Mathlib.Omega.{arith}
use pixiv_biu.Base.Tests.{if◌then◌else◌, Bool-cases}
use pixiv_biu.Base.Lists.{length, filter, take, length-filter-le}

module _ {ℓ} {A : Type ℓ} (dec : Discrete A) where
  -- `xs.includes(a)`, `set.has(a)`.
  abbrev pub includes : A → List A → Bool
  includes a [] = false
  includes a (x ∷ xs) = ite (dec x a) true (includes a xs)

  -- No element stands twice.
  abbrev pub Distinct : List A → Type 0
  Distinct [] = Unit
  Distinct (x ∷ xs) = (includes x xs ≡ false) × Distinct xs

  -- `set.add(a)`.
  unfoldable pub add : A → List A → List A
  add a s = if includes a s then s else s ++ a ∷ []

  -- `set.delete(a)`.
  unfoldable pub delete : A → List A → List A
  delete a s = filter (λ x. ite (dec x a) false true) s

  -- `[...new Set(xs)]`.
  unfoldable pub add_all : List A → List A → List A
  add_all s [] = s
  add_all s (x ∷ xs) = add_all (add x s) xs

  unfoldable pub unique : List A → List A
  unique xs = add_all [] xs

  pub includes-append :
      (a : A) (xs ys : List A) → includes a (xs ++ ys) ≡ (includes a xs || includes a ys)
  includes-append a [] ys = refl
  includes-append a (x ∷ xs) ys = ground (arith, includes-append a xs ys)

  pub Distinct-concat :
      (a : A) (s : List A) → includes a s ≡ false → Distinct s → Distinct (s ++ a ∷ [])
  Distinct-concat a [] h d = (refl, tt)
  Distinct-concat a (x ∷ s) h d =
      (ground (arith, includes-append x s (a ∷ [])), Distinct-concat a s (ground arith) d.1)

  pub add-Distinct : (a : A) (s : List A) → Distinct s → Distinct (add a s)
  unfolding add
  add-Distinct a s d = ground (arith, Distinct-concat a s)

  pub includes-add :
      (b a : A) (s : List A) → includes b (add a s) ≡ ite (dec a b) true (includes b s)
  unfolding add
  includes-add b a s = ground (arith, includes-append b s (a ∷ []))

  pub add_all-Distinct : (xs s : List A) → Distinct s → Distinct (add_all s xs)
  unfolding add_all
  add_all-Distinct [] s d = d
  add_all-Distinct (x ∷ xs) s d = add_all-Distinct xs (add x s) (add-Distinct x s d)

  pub unique-Distinct : (xs : List A) → Distinct (unique xs)
  unfolding unique
  unique-Distinct xs = add_all-Distinct xs [] tt

  includes-add_all :
      (b : A) (xs s : List A) → includes b (add_all s xs) ≡ (includes b s || includes b xs)
  unfolding add_all
  includes-add_all b [] s = ground arith
  includes-add_all b (x ∷ xs) s =
      ground (arith, includes-add_all b xs (add x s), includes-add b x s)

  pub includes-unique : (b : A) (xs : List A) → includes b (unique xs) ≡ includes b xs
  unfolding unique
  includes-unique b xs = includes-add_all b xs []

  pub includes-filter :
      (p : A → Bool) (a : A) (xs : List A)
      → includes a (filter p xs) ≡ (if p a then includes a xs else false)
  includes-filter p a [] = ground arith
  includes-filter p a (x ∷ xs) = ground (arith, includes-filter p a xs)

  pub filter-Distinct : (p : A → Bool) (xs : List A) → Distinct xs → Distinct (filter p xs)
  filter-Distinct p [] d = d
  filter-Distinct p (x ∷ xs) d = ground (arith, filter-Distinct p xs d.1, includes-filter p x xs)

  pub delete-Distinct : (a : A) (s : List A) → Distinct s → Distinct (delete a s)
  unfolding delete
  delete-Distinct a s d = filter-Distinct _ s d

  pub includes-delete :
      (b a : A) (s : List A) → includes b (delete a s) ≡ ite (dec a b) false (includes b s)
  unfolding delete
  includes-delete b a s = ground (arith, includes-filter (λ x. ite (dec x a) false true) b s)

  pub includes-take :
      (a : A) (n : ℕ) (xs : List A) → includes a xs ≡ false → includes a (take n xs) ≡ false
  includes-take a zero xs h = refl
  includes-take a (suc n) [] h = refl
  includes-take a (suc n) (x ∷ xs) h = ground (arith, includes-take a n xs)

  pub take-Distinct : (n : ℕ) (xs : List A) → Distinct xs → Distinct (take n xs)
  take-Distinct zero xs d = tt
  take-Distinct (suc n) [] d = tt
  take-Distinct (suc n) (x ∷ xs) d = (includes-take x n xs d.0, take-Distinct n xs d.1)

  length-delete : (a : A) (s : List A) → includes a s ≡ true → suc (length (delete a s)) ≤ length s
  unfolding delete
  length-delete a [] h = cc
  length-delete a (x ∷ s) h =
      ground (arith, length-delete a s, length-filter-le (λ y. ite (dec y a) false true) s)

  -- What a list without repetitions has in another list takes as much room there.
  pub length-le-Distinct :
      (xs ys : List A)
      → Distinct xs
      → ((a : A) → includes a xs ≡ true → includes a ys ≡ true)
      → length xs ≤ length ys
  length-le-Distinct [] ys d h = omega arith
  length-le-Distinct (x ∷ xs) ys d h =
      let n = length-delete x ys (h x (ground arith)) in
      let r =
        length-le-Distinct xs (delete x ys) d.1
          (λ a i. ground (arith, includes-delete a x ys, h a)) in
      omega arith

  includes_cons_lem :
      (a b : A) (xs ys : List A) (d : Dec (a ≡ b))
      → ite d true (includes b xs) ≡ true
      → includes a ys ≡ true
      → (includes b xs ≡ true → includes b ys ≡ true)
      → includes b ys ≡ true
  includes_cons_lem a b xs ys (yes e) k j h = subst (λ c. includes c ys ≡ true) e j
  includes_cons_lem a b xs ys (no n) k j h = h k

  -- A list without repetitions that lies in one of the same length has the same elements.
  pub includes-Distinct :
      (xs ys : List A)
      → Distinct xs
      → length xs ≡ length ys
      → ((a : A) → includes a xs ≡ true → includes a ys ≡ true)
      → (a : A) → includes a xs ≡ includes a ys
  includes-Distinct xs ys d e h a = elim (Bool-cases (includes a xs)) [
    | inl i ↦ i ∙ sym (h a i)
    | inr i ↦ elim (Bool-cases (includes a ys)) [
      | inl j ↦
          let l =
            length-le-Distinct (a ∷ xs) ys (i, d)
              (λ b k. includes_cons_lem a b xs ys (dec a b) k j (h b)) in
          absurd (omega arith)
      | inr j ↦ i ∙ sym j
    ]
  ]

module _ {ℓ κ} {A : Type ℓ} {B : Type κ} (dec : Discrete B) (f : A → B) where
  pub includes-map-filter :
      (b : B) (p : A → Bool) (xs : List A)
      → includes dec b (map f xs) ≡ false
      → includes dec b (map f (filter p xs)) ≡ false
  includes-map-filter b p [] h = refl
  includes-map-filter b p (x ∷ xs) h = ground (arith, includes-map-filter b p xs)

  pub Distinct-map-filter :
      (p : A → Bool) (xs : List A) → Distinct dec (map f xs) → Distinct dec (map f (filter p xs))
  Distinct-map-filter p [] h = tt
  Distinct-map-filter p (x ∷ xs) h =
      ground (arith, includes-map-filter (f x) p xs, Distinct-map-filter p xs h.1)
