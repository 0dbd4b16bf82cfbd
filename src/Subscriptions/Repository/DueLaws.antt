-- ===== src/Subscriptions/Repository/DueLaws.antt =====
-- The queue of due subscriptions: what it holds, and that its loop ends.
use easy_clip_be.Common.{
  ℕ, String, ◌≡◌, refl, Bool, true, false, ◌&&◌, ◌||◌, Option, some, List, [], ◌∷◌, length, All,
  Occurs, inl, inr, ◌==◌, leb, ltb, if◌then◌else◌,
}
use easy_clip_be.Subscriptions.Types.{Subscription}
use easy_clip_be.Subscriptions.Store.{Prisma, IsDocumentedPrisma, Db}
use easy_clip_be.Subscriptions.Repository.Due.{
  Cursor, is_due, is_after, is_ordered, push_new, page_size, due_page, due_loop, cursor_of,
}

All-of_Occurs {ℓ} :
    {A : Type 0} (P : A → Type ℓ) (t : List A) → ((a : A) → Occurs a t → P a) → All P t
All-of_Occurs P [] h = tt
All-of_Occurs P (x ∷ xs) h = (h x (inl refl), All-of_Occurs P xs (λ a o. h a (inr o)))

-- A subscription that may be charged now, under an order that is not on record.
abbrev pub IsChargeable : (String → ℕ → String) → Db → ℕ → Subscription → Type 0
IsChargeable order_id db now s =
    (is_due db.payments now s ≡ true)
    × (is_ordered order_id db.payments s ≡ false)
    × Occurs s db.subscriptions

-- The database's order of texts is a strict order.
pub record IsStrictOrder (collate : String → String → Bool) : Type 0 where
  pub irrefl : (a : String) → collate a a ≡ false
  pub trans : (a b c : String) → collate a b ≡ true → collate b c ≡ true → collate a c ≡ true

module _ ⦃prisma : Prisma⦄ (docs : IsDocumentedPrisma prisma) (order_id : String → ℕ → String)
    (db : Db) (now limit : ℕ) where
  -- The rows that a page may hold.
  abbrev pages_from : Option Cursor → Subscription → Bool
  pages_from cursor s = is_due db.payments now s && is_after prisma.collate cursor s

  abbrev page_of : Option Cursor → List Subscription
  page_of cursor = due_page order_id db now limit cursor

abbrev cursor_at : Subscription → Cursor
cursor_at s = record { next_billing_at = s.next_billing_at; id = s.id }

module _ ⦃prisma : Prisma⦄ (docs : IsDocumentedPrisma prisma)
    (strict : IsStrictOrder prisma.collate) (order_id : String → ℕ → String) (db : Db)
    (now limit : ℕ) where
  -- One round of the loop, before what the next ones give.
  abbrev round : Option Cursor → List Subscription → List Subscription → List Subscription
  round cursor acc rest =
      let page = due_page order_id db now limit cursor in
      let new = push_new (is_ordered order_id db.payments) limit page acc in
      if leb limit (length acc)
      then acc
      else if ltb (length page) (page_size limit) || length page == 0
      then new
      else rest

  abbrev next_rounds : ℕ → Option Cursor → List Subscription → List Subscription
  next_rounds fuel cursor acc =
      let page = due_page order_id db now limit cursor in
      due_loop order_id fuel db now limit (some (cursor_of page))
        (push_new (is_ordered order_id db.payments) limit page acc)
