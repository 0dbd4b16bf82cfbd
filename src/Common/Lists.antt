-- ===== src/Common/Lists.antt =====
-- Lists of rows: counting, selecting and updating the rows that pass a test.
use Prim.Native.Nat.{ℕ, zero, suc, ◌+◌, ◌≤◌, ◌<◌}
use mathlib.Core.Path.{◌≡◌, refl, sym, ap, subst, ◌∙◌}
use mathlib.Core.Logic.{◌⊎◌, inl, inr}
use mathlib.Core.Bool.{Bool, true, false, ◌&&◌}
use mathlib.Core.Option.{Option, none, some}
use mathlib.Core.List.{List, [], ◌∷◌}
use native.Mathlib.Omega.{arith}
use easy_clip_be.Common.Tests.{if◌then◌else◌, Bool-cases}

abbrev pub All {ℓ κ} : {A : Type ℓ} → (A → Type κ) → List A → Type κ
All P [] = Unit
All P (x ∷ xs) = P x × All P xs

-- The row stands in the list.
abbrev pub Occurs : {A : Type 0} → A → List A → Type 0
Occurs a [] = ⊥
Occurs a (x ∷ xs) = (a ≡ x) ⊎ Occurs a xs

module _ {ℓ} {A : Type ℓ} where
  abbrev pub length : List A → ℕ
  length [] = 0
  length (x ∷ xs) = suc (length xs)

  -- The number of rows that pass the test.
  abbrev pub count : (A → Bool) → List A → ℕ
  count w [] = 0
  count w (x ∷ xs) = (if w x then 1 else 0) + count w xs

  -- The rows that pass the test are replaced, the others stay.
  abbrev pub update_where : (A → Bool) → (A → A) → List A → List A
  update_where w f [] = []
  update_where w f (x ∷ xs) = (if w x then f x else x) ∷ update_where w f xs

  abbrev pub find : (A → Bool) → List A → Option A
  find w [] = none
  find w (x ∷ xs) = if w x then some x else find w xs

  abbrev pub map_option : (A → A) → Option A → Option A
  map_option f none = none
  map_option f (some a) = some (f a)

  abbrev pub filter : (A → Bool) → List A → List A
  filter w [] = []
  filter w (x ∷ xs) = if w x then x ∷ filter w xs else filter w xs

  abbrev pub take : ℕ → List A → List A
  take zero xs = []
  take (suc n) [] = []
  take (suc n) (x ∷ xs) = x ∷ take n xs

  -- The rows behind the first one that passes.
  abbrev pub drop_through : (A → Bool) → List A → List A
  drop_through w [] = []
  drop_through w (x ∷ xs) = if w x then xs else drop_through w xs

  abbrev pub insert_sorted : (A → A → Bool) → A → List A → List A
  insert_sorted before a [] = a ∷ []
  insert_sorted before a (x ∷ xs) = if before x a then x ∷ insert_sorted before a xs else a ∷ x ∷ xs

  abbrev pub sort : (A → A → Bool) → List A → List A
  sort before [] = []
  sort before (x ∷ xs) = insert_sorted before x (sort before xs)

  abbrev pub elem : (A → A → Bool) → A → List A → Bool
  elem eq a [] = false
  elem eq a (x ∷ xs) = if eq a x then true else elem eq a xs

  -- An update that makes no row pass `q` anew raises no count.
  pub count-update_where-le :
      (q w : A → Bool) (f : A → A) (t : List A)
      → ((x : A) → w x ≡ true → q (f x) ≡ true → q x ≡ true)
      → count q (update_where w f t) ≤ count q t
  count-update_where-le q w f [] h = omega arith
  count-update_where-le q w f (x ∷ xs) h = ground (arith, h x, count-update_where-le q w f xs h)

  -- A search by a test that the update keeps finds the same row, updated.
  pub find-update_where :
      (q w : A → Bool) (f : A → A) (t : List A)
      → ((x : A) → q (f x) ≡ q x)
      → find q (update_where w f t) ≡ map_option (λ x. if w x then f x else x) (find q t)
  find-update_where q w f [] h = refl
  find-update_where q w f (x ∷ xs) h = ground (arith, h x, find-update_where q w f xs h)

  pub count-update_where-eq :
      (q w : A → Bool) (f : A → A) (t : List A)
      → ((x : A) → q (f x) ≡ q x)
      → count q (update_where w f t) ≡ count q t
  count-update_where-eq q w f [] h = refl
  count-update_where-eq q w f (x ∷ xs) h = ground (arith, h x, count-update_where-eq q w f xs h)

  -- An update that ends its own test leaves no row that passes it.
  pub count-update_where_self :
      (w : A → Bool) (f : A → A) (t : List A)
      → ((x : A) → w (f x) ≡ false)
      → count w (update_where w f t) ≡ 0
  count-update_where_self w f [] h = refl
  count-update_where_self w f (x ∷ xs) h = ground (arith, h x, count-update_where_self w f xs h)

  pub update_where-none :
      (w : A → Bool) (f : A → A) (t : List A) → count w t ≡ 0 → update_where w f t ≡ t
  update_where-none w f [] h = refl
  update_where-none w f (x ∷ xs) h = ground (arith, update_where-none w f xs)

  pub find_passes : (q : A → Bool) (t : List A) (x : A) → find q t ≡ some x → q x ≡ true
  find_passes q [] x e = cc
  find_passes q (y ∷ ys) x e = elim (Bool-cases (q y)) [
    | inl h ↦ ground (arith, h)
    | inr h ↦ ground (arith, h, find_passes q ys x)
  ]

  pub All-update_where {κ} :
      (P : A → Type κ) (w : A → Bool) (f : A → A) (t : List A)
      → ((x : A) → w x ≡ true → P x → P (f x))
      → All P t
      → All P (update_where w f t)
  All-update_where P w f [] h a = tt
  All-update_where P w f (x ∷ xs) h a = (head (w x) refl, All-update_where P w f xs h a.1)
    where
      head : (b : Bool) → w x ≡ b → P (if b then f x else x)
      head true e = h x e a.0
      head false e = a.0

module _ {A : Type 0} where
  pub All-Occurs {κ} : (P : A → Type κ) (a : A) (t : List A) → Occurs a t → All P t → P a
  All-Occurs P a [] o h = absurd o
  All-Occurs P a (x ∷ xs) (inl e) h = subst P (sym e) h.0
  All-Occurs P a (x ∷ xs) (inr o) h = All-Occurs P a xs o h.1

  pub count-Occurs : (q : A → Bool) (a : A) (t : List A) → Occurs a t → q a ≡ true → 0 < count q t
  count-Occurs q a [] o h = absurd o
  count-Occurs q a (x ∷ xs) (inl e) h = rw (ap q (sym e) ∙ h) (omega arith)
  count-Occurs q a (x ∷ xs) (inr o) h = omega (arith, count-Occurs q a xs o h)

  -- Where one row at most passes, any search that is documented finds what `find` does.
  pub find-none : (w : A → Bool) (t : List A) → count w t ≡ 0 → find w t ≡ none
  find-none w [] h = refl
  find-none w (x ∷ xs) h = ground (arith, find-none w xs)

  pub find-Occurs :
      (w : A → Bool) (a : A) (t : List A)
      → count w t ≤ 1
      → w a ≡ true
      → Occurs a t
      → find w t ≡ some a
  find-Occurs w a [] u h o = absurd o
  find-Occurs w a (x ∷ xs) u h (inl e) = rw (ap w (sym e) ∙ h) (ap some (sym e))
  find-Occurs w a (x ∷ xs) u h (inr o) = ground (arith, count-Occurs w a xs o h, find-Occurs w a xs)

  pub Occurs-filter :
      (w : A → Bool) (a : A) (t : List A) → Occurs a (filter w t) → (w a ≡ true) × Occurs a t
  Occurs-filter w a [] o = absurd o
  Occurs-filter w a (x ∷ xs) o = go (λ r. Occurs-filter w a xs r) (w x) refl o
    where
      go :
          (Occurs a (filter w xs) → (w a ≡ true) × Occurs a xs)
          → (b : Bool) → w x ≡ b
          → Occurs a (if b then x ∷ filter w xs else filter w xs)
          → (w a ≡ true) × Occurs a (x ∷ xs)
      go ih true e (inl p) = (ap w p ∙ e, inl p)
      go ih true e (inr r) = let (h, q) = ih r in (h, inr q)
      go ih false e r = let (h, q) = ih r in (h, inr q)

  pub Occurs-insert_sorted :
      (before : A → A → Bool) (a y : A) (t : List A)
      → Occurs a (insert_sorted before y t)
      → Occurs a (y ∷ t)
  Occurs-insert_sorted before a y [] o = o
  Occurs-insert_sorted before a y (x ∷ xs) o =
      go (λ r. Occurs-insert_sorted before a y xs r) (before x y) o
    where
      go :
          (Occurs a (insert_sorted before y xs) → Occurs a (y ∷ xs))
          → (b : Bool) → Occurs a (if b then x ∷ insert_sorted before y xs else y ∷ x ∷ xs)
          → Occurs a (y ∷ x ∷ xs)
      go ih true (inl p) = inr (inl p)
      go ih true (inr r) = elim (ih r) [ inl p ↦ inl p | inr q ↦ inr (inr q) ]
      go ih false r = r

  pub Occurs-sort :
      (before : A → A → Bool) (a : A) (t : List A) → Occurs a (sort before t) → Occurs a t
  Occurs-sort before a [] o = o
  Occurs-sort before a (x ∷ xs) o = elim (Occurs-insert_sorted before a x (sort before xs) o) [
    | inl p ↦ inl p
    | inr r ↦ inr (Occurs-sort before a xs r)
  ]

  pub Occurs-take : (n : ℕ) (a : A) (t : List A) → Occurs a (take n t) → Occurs a t
  Occurs-take zero a t o = absurd o
  Occurs-take (suc n) a [] o = o
  Occurs-take (suc n) a (x ∷ xs) (inl p) = inl p
  Occurs-take (suc n) a (x ∷ xs) (inr o) = inr (Occurs-take n a xs o)

  -- The rows that pass a stronger test are fewer, if one of the others fails it.
  pub count-le :
      (p q : A → Bool) (t : List A) → ((x : A) → p x ≡ true → q x ≡ true) → count p t ≤ count q t
  count-le p q [] h = omega arith
  count-le p q (x ∷ xs) h = ground (arith, h x, count-le p q xs h)

  pub count-lt :
      (p q : A → Bool) (a : A) (t : List A)
      → ((x : A) → p x ≡ true → q x ≡ true)
      → Occurs a t
      → q a ≡ true
      → p a ≡ false
      → count p t < count q t
  count-lt p q a [] h o e f = absurd o
  count-lt p q a (x ∷ xs) h (inl s) e f =
      ground (arith, ap q (sym s) ∙ e, ap p (sym s) ∙ f, count-le p q xs h)
  count-lt p q a (x ∷ xs) h (inr o) e f = ground (arith, h x, count-lt p q a xs h o e f)

  pub count-filter :
      (p w : A → Bool) (t : List A) → count p (filter w t) ≡ count (λ x. p x && w x) t
  count-filter p w [] = refl
  count-filter p w (x ∷ xs) = ground (arith, count-filter p w xs)

  pub insert_sorted-Occurs :
      (before : A → A → Bool) (a y : A) (t : List A)
      → Occurs a (y ∷ t)
      → Occurs a (insert_sorted before y t)
  insert_sorted-Occurs before a y [] o = o
  insert_sorted-Occurs before a y (x ∷ xs) o =
      go (λ r. insert_sorted-Occurs before a y xs r) (before x y) o
    where
      go :
          (Occurs a (y ∷ xs) → Occurs a (insert_sorted before y xs))
          → (b : Bool) → Occurs a (y ∷ x ∷ xs)
          → Occurs a (if b then x ∷ insert_sorted before y xs else y ∷ x ∷ xs)
      go ih false o = o
      go ih true (inl p) = inr (ih (inl p))
      go ih true (inr (inl p)) = inl p
      go ih true (inr (inr q)) = inr (ih (inr q))

  pub sort-Occurs :
      (before : A → A → Bool) (a : A) (t : List A) → Occurs a t → Occurs a (sort before t)
  sort-Occurs before a [] o = o
  sort-Occurs before a (x ∷ xs) (inl p) = insert_sorted-Occurs before a x (sort before xs) (inl p)
  sort-Occurs before a (x ∷ xs) (inr o) =
      insert_sorted-Occurs before a x (sort before xs) (inr (sort-Occurs before a xs o))
