-- ===== src/Subscriptions/Repository/Due.antt =====
-- The queues that the batches read: the subscriptions that are due, page by page, and the
-- payments whose results are unknown.
use easy_clip_be.Common.{
  ℕ, zero, suc, String, Bool, true, false, ◌&&◌, ◌||◌, not, Option, none, some, List, [], ◌∷◌, ◌++◌,
  ◌==◌, ltb, leb, length, is_missing, if◌then◌else◌, count,
}
use easy_clip_be.Subscriptions.Types.{
  Subscription, SubscriptionPayment, InitialPaymentAttempt, is_pro, is_active, is_pending, is_toss,
}
use easy_clip_be.Subscriptions.Store.{
  Prisma, Db, Tx, ok, subscription_payment, initial_subscription_payment, find_many,
}
use easy_clip_be.Subscriptions.Repository.Rows.{at_most, is_some, pending_payment_of, has_order}

-- `orderBy: [{ time: 'asc' }, { id: 'asc' }]` on the nullable time; the database puts null last.
abbrev pub earlier : (String → String → Bool) → Option ℕ → String → Option ℕ → String → Bool
earlier collate none a none b = collate a b
earlier collate none a (some t) b = false
earlier collate (some s) a none b = true
earlier collate (some s) a (some t) b = ltb s t || (s == t && collate a b)

-- The last row of a page.
pub record Cursor : Type 0 where
  pub next_billing_at : Option ℕ
  pub id : String

-- The filter of a page, without the cursor: due, renewing, payable, and with no pending payment.
abbrev pub is_due : List SubscriptionPayment → ℕ → Subscription → Bool
is_due payments now s =
    is_pro s.plan
    && is_active s.status
    && s.auto_renew
    && is_toss s.provider
    && count (pending_payment_of s.id) payments == 0
    && not (is_missing s.external_billing_key)
    && not (is_missing s.external_customer_key)
    && at_most s.next_billing_at now

abbrev pub is_after : (String → String → Bool) → Option Cursor → Subscription → Bool
is_after collate none s = true
is_after collate (some c) s = earlier collate c.next_billing_at c.id s.next_billing_at s.id

abbrev pub last_cursor : Subscription → List Subscription → Cursor
last_cursor s [] = record { next_billing_at = s.next_billing_at; id = s.id }
last_cursor s (x ∷ xs) = last_cursor x xs

abbrev pub cursor_of : List Subscription → Cursor
cursor_of [] = record { next_billing_at = none; id = "" }
cursor_of (x ∷ xs) = last_cursor x xs

abbrev pub time_or_zero : Option ℕ → ℕ
time_or_zero none = 0
time_or_zero (some t) = t

-- The order of a subscription's next renewal is on record already.
abbrev pub is_ordered : (String → ℕ → String) → List SubscriptionPayment → Subscription → Bool
is_ordered order_id payments s =
    not (count (has_order (order_id s.id (time_or_zero s.next_billing_at))) payments == 0)

-- The rows of a page whose order is new are added, up to the limit.
abbrev pub push_new :
    (Subscription → Bool) → ℕ → List Subscription → List Subscription → List Subscription
push_new ordered limit [] acc = acc
push_new ordered limit (s ∷ page) acc =
    if ordered s then push_new ordered limit page acc else elim (length (acc ++ s ∷ []) == limit) [
      | true ↦ acc ++ s ∷ []
      | false ↦ push_new ordered limit page (acc ++ s ∷ [])
    ]

-- `Math.min(limit, 100)`
abbrev pub page_size : ℕ → ℕ
page_size limit = if ltb limit 100 then limit else 100

module _ ⦃prisma : Prisma⦄ (order_id : String → ℕ → String) where
  abbrev pub due_page : Db → ℕ → ℕ → Option Cursor → List Subscription
  due_page db now limit cursor =
      prisma.subscription.find_many
        (λ s. is_due db.payments now s && is_after prisma.collate cursor s)
        (λ a b. earlier prisma.collate a.next_billing_at a.id b.next_billing_at b.id)
        (page_size limit) db.subscriptions

  -- The `while` loop: pages are read until the limit is met, or a page is not full.
  unfoldable pub due_loop : ℕ → Db → ℕ → ℕ → Option Cursor → List Subscription → List Subscription
  due_loop zero db now limit cursor acc = acc
  due_loop (suc fuel) db now limit cursor acc =
      let page = due_page db now limit cursor in
      let new = push_new (is_ordered order_id db.payments) limit page acc in
      let rest = due_loop fuel db now limit (some (cursor_of page)) new in
      if leb limit (length acc)
      then acc
      else if ltb (length page) (page_size limit) || length page == 0
      then new
      else rest

  -- A round ends the loop or passes a row for good, so there are no more rounds than rows, and one.
  -- The queries of the code are not one transaction; what others write between them is left out.
  unfoldable pub find_due_auto_renewal_subscriptions : ℕ → ℕ → Tx (List Subscription)
  unfolding due_loop
  find_due_auto_renewal_subscriptions now limit db =
      ok (due_loop (suc (length db.subscriptions)) db now limit none [], db)

module _ ⦃prisma : Prisma⦄ where
  unfoldable pub find_auto_renewal_payments_to_reconcile : ℕ → ℕ → Tx (List SubscriptionPayment)
  find_auto_renewal_payments_to_reconcile now limit =
      find_many subscription_payment
        (λ p.
          is_toss (some p.provider)
          && is_pending p.status
          && at_most p.reconciliation_next_at now
          && not (is_some p.manual_review_at))
        (λ a b. earlier prisma.collate a.reconciliation_next_at a.id b.reconciliation_next_at b.id)
        limit

  unfoldable pub find_pending_initial_payments : ℕ → ℕ → Tx (List InitialPaymentAttempt)
  find_pending_initial_payments before limit =
      find_many initial_subscription_payment
        (λ a. is_pending a.status && leb a.reconciliation_next_at before)
        (λ a b.
          earlier prisma.collate (some a.reconciliation_next_at) a.id
            (some b.reconciliation_next_at) b.id)
        limit
