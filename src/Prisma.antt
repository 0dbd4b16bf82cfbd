-- ===== src/Prisma.antt =====
-- What the code takes from the Prisma client: the queries of one table, as parameters of the
-- model, with the documented behaviour that the proofs rely on.
use easy_clip_be.Common.{
  ℕ, ◌≡◌, Bool, true, Option, none, some, List, ◌∷◌, ◌==◌, count, find, find-none, find-Occurs, ◌≤◌,
  sym, Occurs, take, sort, filter, update_where, drop_through, if◌then◌else◌, not,
}

-- A query reads the rows of its table; a write returns the new rows.
pub record Delegate (R : Type 0) : Type 0 where
  -- `findFirst`, and `findUnique` where the filter names a unique key.
  pub find_first : (R → Bool) → List R → Option R
  -- `findMany` with a filter, an order and a limit.
  pub find_many : (R → Bool) → (R → R → Bool) → ℕ → List R → List R
  -- `findMany` with a filter, an order, a cursor that is skipped, and a limit.
  pub find_after : (R → Bool) → (R → R → Bool) → (R → Bool) → ℕ → List R → List R
  -- `findMany` with a filter alone: the database chooses the order.
  pub find_all : (R → Bool) → List R → List R
  -- `count`
  pub count_rows : (R → Bool) → List R → ℕ
  -- `deleteMany`: the rows that are left, and its `count`.
  pub delete_many : (R → Bool) → List R → List R × ℕ
  -- `updateMany`: the rows after it, and its `count`.
  pub update_many : (R → Bool) → (R → R) → List R → List R × ℕ
  -- `create`: `none` is the error P2002, a row that breaks a unique constraint.
  pub create : (R → R → Bool) → R → List R → Option (List R)

-- What a search may return: a row that passes the filter, and none only if no row does.
abbrev pub Finds : {R : Type 0} → (R → Bool) → List R → Option R → Type 0
Finds w t none = count w t ≡ 0
Finds {R} w t (some r) = (w r ≡ true) × Occurs r t

pub record IsDocumented {R : Type 0} (d : Delegate R) : Type 0 where
  pub finds : (w : R → Bool) (t : List R) → Finds w t (d.find_first w t)
  pub sorts :
      (w : R → Bool) (before : R → R → Bool) (n : ℕ) (t : List R)
      → d.find_many w before n t ≡ take n (sort before (filter w t))
  pub pages :
      (w : R → Bool) (before : R → R → Bool) (cursor : R → Bool) (n : ℕ) (t : List R)
      → d.find_after w before cursor n t ≡ take n (drop_through cursor (sort before (filter w t)))
  pub finds_all : (w p : R → Bool) (t : List R) → count p (d.find_all w t) ≡ count p (filter w t)
  pub counts : (w : R → Bool) (t : List R) → d.count_rows w t ≡ count w t
  pub deletes :
      (w : R → Bool) (t : List R) → d.delete_many w t ≡ (filter (λ r. not (w r)) t, count w t)
  pub updates :
      (w : R → Bool) (f : R → R) (t : List R)
      → d.update_many w f t ≡ (update_where w f t, count w t)
  pub creates :
      (c : R → R → Bool) (r : R) (t : List R)
      → d.create c r t ≡ (if count (c r) t == 0 then some (r ∷ t) else none)

-- Where one row at most passes the filter, `findFirst` is determined.
pub find_first-find :
    {R : Type 0} {d : Delegate R} (docs : IsDocumented d) (w : R → Bool) (t : List R)
    → count w t ≤ 1
    → d.find_first w t ≡ find w t
find_first-find {R} {d} docs w t u = go (d.find_first w t) (docs.finds w t)
  where
    go : (o : Option R) → Finds w t o → o ≡ find w t
    go none h = sym (find-none w t h)
    go (some r) h = sym (find-Occurs w r t u h.0 h.1)
