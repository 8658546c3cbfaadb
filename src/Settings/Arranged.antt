-- ===== src/Settings/Arranged.antt =====
-- The fields of one section, and the two tiers (frontend/src/features/settings/compile-schema.ts).
use mathlib.Core.List.{Perm, perm_middle}
use mathlib.Core.List.Perm
use pixiv_biu.Base.{
  ℕ, ◌≡◌, inl, inr, Bool-cases, arith, Bool, true, false, not, List, [], ◌∷◌, ◌++◌, filter, All,
  All-map, All-append, All-both, sort, IsSorted, IsOrder, sort-IsSorted, sort-Perm, All-sort,
}
use pixiv_biu.Settings.Types.{FieldSpec}
use pixiv_biu.Settings.Values.{is_advanced}
use pixiv_biu.Settings.Schema.{by_order, arrange, tier_less}

-- Everyday fields before advanced ones, and each tier by the declaration order.
abbrev pub field_before : FieldSpec → FieldSpec → Bool
field_before a b = tier_less (is_advanced a) a.order (is_advanced b) b.order

by_order-IsOrder : IsOrder by_order
by_order-IsOrder = record { asym = λ a b h. ground arith; trans = λ a b c h k. ground arith }

pub tier_asym : (a b : Bool) (m n : ℕ) → tier_less a m b n ≡ true → tier_less b n a m ≡ false
tier_asym a b m n h = ground arith

pub tier_trans :
    (a b c : Bool) (k m n : ℕ)
    → tier_less b m a k ≡ false
    → tier_less c n b m ≡ false
    → tier_less c n a k ≡ false
tier_trans a b c k m n h l = ground arith

module _ {A : Type 0} (less : A → A → Bool) where
  pub IsSorted-append :
      (xs ys : List A)
      → IsSorted less xs
      → IsSorted less ys
      → All (λ x. All (λ y. less y x ≡ false) ys) xs
      → IsSorted less (xs ++ ys)
  IsSorted-append [] ys h k c = k
  IsSorted-append (x ∷ xs) ys h k c =
      (All-append (λ y. less y x ≡ false) xs ys h.0 c.0, IsSorted-append xs ys h.1 k c.1)

  -- A sorted list is so by a test that says as little of its elements.
  pub IsSorted-map :
      (other : A → A → Bool) (P : A → Type 0) (xs : List A)
      → ((a b : A) → P a → P b → less b a ≡ false → other b a ≡ false)
      → All P xs
      → IsSorted less xs
      → IsSorted other xs
  IsSorted-map other P [] f a h = tt
  IsSorted-map other P (x ∷ xs) f a h = (
    All-map (λ y. P y × (less y x ≡ false)) (λ y. other y x ≡ false) xs (λ y q. f x y a.0 q.0 q.1)
        (All-both P (λ y. less y x ≡ false) xs a.1 h.0),
    IsSorted-map other P xs f a.1 h.1,
  )

pub filter-split-Perm :
    {A : Type 0} (q : A → Bool) (xs : List A) → Perm (filter (λ x. not (q x)) xs ++ filter q xs) xs
filter-split-Perm q [] = Perm.refl []
filter-split-Perm q (x ∷ xs) = elim (Bool-cases (q x)) [
  | inl e ↦ rw e (
      Perm.trans (perm_middle (filter (λ y. not (q y)) xs) (filter q xs))
        (Perm.cons x (filter-split-Perm q xs)))
  | inr e ↦ rw e (Perm.cons x (filter-split-Perm q xs))
]

pub filter-holds : {A : Type 0} (q : A → Bool) (xs : List A) → All (λ x. q x ≡ true) (filter q xs)
filter-holds q [] = tt
filter-holds q (x ∷ xs) = elim (Bool-cases (q x)) [
  | inl e ↦ rw e (e, filter-holds q xs)
  | inr e ↦ rw e (filter-holds q xs)
]

pub arrange-Perm : (fs : List FieldSpec) → Perm (arrange fs) fs
unfolding arrange
arrange-Perm fs =
    Perm.trans
      (Perm.append (sort-Perm by_order (filter (λ f. not (is_advanced f)) fs))
        (sort-Perm by_order (filter is_advanced fs)))
      (filter-split-Perm is_advanced fs)

-- A sorted tier.
tier-IsSorted :
    (b : Bool) (fs : List FieldSpec)
    → All (λ f. is_advanced f ≡ b) fs
    → IsSorted field_before (sort by_order fs)
tier-IsSorted b fs h =
    IsSorted-map by_order field_before (λ f. is_advanced f ≡ b) (sort by_order fs)
      (λ x y e g l. ground arith) (All-sort by_order (λ f. is_advanced f ≡ b) fs h)
      (sort-IsSorted by_order by_order-IsOrder fs)

tier_below :
    (xs ys : List FieldSpec)
    → All (λ f. not (is_advanced f) ≡ true) xs
    → All (λ f. is_advanced f ≡ true) ys
    → All (λ x. All (λ y. field_before y x ≡ false) ys) xs
tier_below [] ys h k = tt
tier_below (x ∷ xs) ys h k = (
  All-map (λ f. is_advanced f ≡ true) (λ y. field_before y x ≡ false) ys (λ y e. ground arith) k,
  tier_below xs ys h.1 k,
)

pub arrange-IsSorted : (fs : List FieldSpec) → IsSorted field_before (arrange fs)
unfolding arrange
arrange-IsSorted fs =
    let basic = filter-holds (λ f. not (is_advanced f)) fs in
    let advanced = filter-holds is_advanced fs in
    IsSorted-append field_before _ _
      (tier-IsSorted false (filter (λ f. not (is_advanced f)) fs) (
        All-map (λ f. not (is_advanced f) ≡ true) (λ f. is_advanced f ≡ false) _
          (λ f e. ground arith) basic))
      (tier-IsSorted true (filter is_advanced fs) advanced)
      (tier_below _ _ (All-sort by_order _ _ basic) (All-sort by_order _ _ advanced))
