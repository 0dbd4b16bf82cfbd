-- ===== src/Content/Clips/Pages.antt =====
-- Following the cursor of a page of clips.
use easy_clip_be.Common.{
  ℕ, zero, suc, ◌+◌, ◌<◌, String, ◌≡◌, refl, ap, sym, ◌∙◌, Bool, true, false, Option, none, some,
  List, [], ◌∷◌, ◌++◌, arith, count, take, drop_through, length, ltb, ◌===◌, eq_iff, if◌then◌else◌,
}
use easy_clip_be.Content.Trash.Pages.{last_of, cursor_at}
use easy_clip_be.Content.Clips.Lists.{ClipCursorPage, build_page}

module _ {T : Type 0} (id_of : T → String) where
  abbrev pub has_cursor : String → T → Bool
  has_cursor k x = id_of x === k

  -- Each key stands on one row at most.
  abbrev pub AreDistinct : List T → Type 0
  AreDistinct [] = Unit
  AreDistinct (x ∷ xs) = (count (has_cursor (id_of x)) xs ≡ 0) × AreDistinct xs

  key_occurs :
      (n : ℕ) (xs : List T) (k : String)
      → cursor_at id_of (last_of (take n xs)) ≡ some k
      → 0 < count (has_cursor k) xs
  key_occurs zero xs k e = cc
  key_occurs (suc n) [] k e = cc
  key_occurs (suc n) (x ∷ xs) k e = go (last_of (take n xs)) (key_occurs n xs k) e
    where
      go :
          (o : Option T)
          → (cursor_at id_of o ≡ some k → 0 < count (has_cursor k) xs)
          → cursor_at id_of (elim o [ none ↦ some x | some b ↦ some b ]) ≡ some k
          → 0 < count (has_cursor k) (x ∷ xs)
      go none ih e = ground (arith, eq_iff (id_of x) k)
      go (some b) ih e = omega (arith, ih e)

  last_behind :
      (x y : T) (l : List T)
      → elim (last_of (y ∷ l)) [ none ↦ some x | some b ↦ some b ] ≡ last_of (y ∷ l)
  last_behind x y l = ground arith

  take-take : (n : ℕ) (xs : List T) → take n (take (n + 1) xs) ≡ take n xs
  take-take n xs = ap (λ m. take n (take m xs)) one_more ∙ go n xs
    where
      one_more : n + 1 ≡ suc n
      one_more = omega arith

      go : (n : ℕ) (xs : List T) → take n (take (suc n) xs) ≡ take n xs
      go zero xs = refl
      go (suc n) [] = refl
      go (suc n) (x ∷ xs) = ap (λ l. x ∷ l) (go n xs)

  -- The first rows and those behind the last of them are all the rows.
  take-drop_through :
      (n : ℕ) (xs : List T) (k : String)
      → AreDistinct xs
      → cursor_at id_of (last_of (take n xs)) ≡ some k
      → take n xs ++ drop_through (has_cursor k) xs ≡ xs
  take-drop_through zero xs k d e = cc
  take-drop_through (suc n) [] k d e = cc
  take-drop_through (suc zero) (x ∷ xs) k d e = ground (arith, eq_iff (id_of x) k)
  take-drop_through (suc (suc n)) (x ∷ []) k d e = ground (arith, eq_iff (id_of x) k)
  take-drop_through (suc (suc n)) (x ∷ y ∷ ys) k d e =
      go (has_cursor k x) refl (take-drop_through (suc n) (y ∷ ys) k d.1 later)
    where
      later : cursor_at id_of (last_of (take (suc n) (y ∷ ys))) ≡ some k
      later = ap (cursor_at id_of) (sym (last_behind x y (take n ys))) ∙ e

      go :
          (b : Bool)
          → has_cursor k x ≡ b
          → take (suc n) (y ∷ ys) ++ drop_through (has_cursor k) (y ∷ ys) ≡ y ∷ ys
          → x
              ∷ (take (suc n) (y ∷ ys)
                  ++ (if b then y ∷ ys else drop_through (has_cursor k) (y ∷ ys)))
            ≡ x ∷ y ∷ ys
      go true h ih = absurd (
          omega (
            arith,
            key_occurs (suc n) (y ∷ ys) k later,
            d.0,
            ap (λ i. count (has_cursor i) (y ∷ ys)) ((eq_iff (id_of x) k).0 h),
          ))
      go false h ih = ap (λ l. x ∷ l) ih

  -- A page that names a next cursor, and the rows behind that cursor, are all the rows of the list,
  -- for a repository that gives one row more than the page holds and rows of distinct keys.
  pub page-then_rest :
      (n : ℕ) (xs : List T) (k : String)
      → AreDistinct xs
      → (build_page id_of (take (n + 1) xs) n).next_cursor ≡ some k
      → (build_page id_of (take (n + 1) xs) n).items ++ drop_through (has_cursor k) xs ≡ xs
  unfolding build_page
  page-then_rest n xs k d e = go (ltb n (length (take (n + 1) xs))) e
    where
      page : Bool → ClipCursorPage T
      page b =
          if b
          then record {
            items = take n (take (n + 1) xs);
            has_more = true;
            next_cursor = cursor_at id_of (last_of (take n (take (n + 1) xs)));
          }
          else record { items = take (n + 1) xs; has_more = false; next_cursor = none }

      go :
          (b : Bool)
          → (page b).next_cursor ≡ some k
          → (page b).items ++ drop_through (has_cursor k) xs ≡ xs
      go false e = cc
      go true e =
          ap (λ l. l ++ drop_through (has_cursor k) xs) (take-take n xs)
          ∙ take-drop_through n xs k d
              (ap (λ l. cursor_at id_of (last_of l)) (sym (take-take n xs)) ∙ e)
