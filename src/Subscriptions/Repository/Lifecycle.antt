-- ===== src/Subscriptions/Repository/Lifecycle.antt =====
-- A subscription between its payments: created free, updated, canceled, resumed, expired; and who
-- receives its mails.
use easy_clip_be.Common.{
  ℕ, String, Bool, true, false, ◌&&◌, ◌||◌, not, Option, none, some, List, [], ◌∷◌, ◌===◌, leb,
  is_missing, is_empty, if◌then◌else◌,
}
use easy_clip_be.Subscriptions.Types.{
  Subscription, Workspace, InitialPaymentAttempt, AuthAccount, UpdateSubscriptionParams,
  CancelAutoRenewalResult, is_pro, is_active, is_canceled, active, canceled, expired, free,
}
use easy_clip_be.Subscriptions.Store.{
  Prisma, Tx, pure, ◌>>=◌, ◌>>◌, subscription, subscription_payment, initial_subscription_payment,
  workspace, auth_account, find_first, find_many, find_or_throw, update_many, update, upsert,
}
use easy_clip_be.Subscriptions.Repository.Rows.{
  Defaults, to_subscription_update_data, free_subscription, same_time, is_some, has_id,
  pending_payment_of, pending_attempt_of,
}

-- `!periodEnd || periodEnd <= now`
abbrev pub is_over : Option ℕ → ℕ → Bool
is_over none now = true
is_over (some t) now = leb t now

-- `!subscription || …`: the tests of the two guards below, on a row that was found.
abbrev pub can_cancel : Subscription → Bool
can_cancel s = is_pro s.plan && (is_active s.status || is_canceled s.status)

abbrev pub can_resume : Subscription → ℕ → Bool
can_resume s now =
    is_pro s.plan
    && is_canceled s.status
    && not (is_missing s.external_billing_key)
    && not (is_missing s.external_customer_key)
    && not (is_over s.current_period_end now)

abbrev pub canceled_row : Subscription → Subscription
canceled_row s = record s { status = canceled; auto_renew = false; next_billing_at = none }

abbrev pub resumed_row : Option ℕ → Subscription → Subscription
resumed_row period_end s = record s {
  status = active;
  auto_renew = true;
  next_billing_at = period_end;
}

abbrev pub expired_row : Subscription → Subscription
expired_row s = record s { plan = free; status = expired; next_billing_at = none }

-- The subscription, if it is still a PRO one that ends at the expected time.
abbrev pub ended_at : String → ℕ → Subscription → Bool
ended_at subscription_id expected_period_end s =
    s.id === subscription_id
    && is_pro s.plan
    && not s.auto_renew
    && same_time s.current_period_end (some expected_period_end)

abbrev pub request_cancel : InitialPaymentAttempt → InitialPaymentAttempt
request_cancel a = record a { cancel_requested = true }

abbrev pub in_workspace : String → Subscription → Bool
in_workspace workspace_id s = s.workspace_id === workspace_id

abbrev pub owned_by : String → Workspace → Bool
owned_by user_id w = w.owner_user_id === user_id

abbrev pub personal_workspace : Defaults → String → Workspace
personal_workspace d user_id = record {
  id = d.id;
  name = "Personal Workspace";
  owner_user_id = user_id;
  free_accessible_folder_id = none;
  free_access_initialized = false;
  free_access_period_end = none;
}

abbrev first_email : List AuthAccount → Option String
first_email [] = none
first_email (a ∷ _) = some a.email

module _ ⦃prisma : Prisma⦄ where
  -- The subscription of a workspace, created free where there is none.
  unfoldable pub find_or_create_in : Defaults → String → Tx Subscription
  find_or_create_in ds workspace_id =
      upsert subscription (in_workspace workspace_id) (λ s. s) (free_subscription ds workspace_id)

  unfoldable pub get_or_create_personal_subscription :
      Defaults → Defaults → String → Tx Subscription
  unfolding find_or_create_in
  get_or_create_personal_subscription dw ds user_id = do
    w ← upsert workspace (owned_by user_id) (λ w. w) (personal_workspace dw user_id)
    find_or_create_in ds w.id

  unfoldable pub update_subscription : String → UpdateSubscriptionParams → Tx Subscription
  update_subscription subscription_id params =
      update subscription (has_id subscription_id) (to_subscription_update_data params)

  unfoldable pub cancel_auto_renewal : String → Tx (Option CancelAutoRenewalResult)
  cancel_auto_renewal subscription_id = do
    current ← find_first subscription (has_id subscription_id)
    elim current [
      | none ↦ pure none
      | some s ↦ if not (can_cancel s) then pure none else do
        pending ← find_first subscription_payment (pending_payment_of subscription_id)
        update_many initial_subscription_payment (pending_attempt_of subscription_id) request_cancel
        updated ← update subscription (has_id subscription_id) canceled_row
        pure (some (record { subscription = updated; pending_renewal_payment = is_some pending }))
    ]

  unfoldable pub resume_auto_renewal : String → ℕ → Tx (Option Subscription)
  resume_auto_renewal subscription_id now = do
    current ← find_first subscription (has_id subscription_id)
    elim current [
      | none ↦ pure none
      | some s ↦ if not (can_resume s now) then pure none else do
        updated ← update subscription (has_id subscription_id) (resumed_row s.current_period_end)
        pure (some updated)
    ]

  unfoldable pub has_pending_auto_renewal_payment : String → Tx Bool
  has_pending_auto_renewal_payment subscription_id = do
    pending ← find_first subscription_payment (pending_payment_of subscription_id)
    pure (is_some pending)

  unfoldable pub expire_subscription_if_unchanged : String → ℕ → Tx Subscription
  expire_subscription_if_unchanged subscription_id expected_period_end = do
    update_many subscription (ended_at subscription_id expected_period_end) expired_row
    find_or_throw subscription (has_id subscription_id)

  -- The account with the least id that has an email.
  unfoldable pub find_billing_mail_recipient_by_user_id : String → Tx (Option String)
  find_billing_mail_recipient_by_user_id user_id = do
    accounts ←
        find_many auth_account (λ a. a.user_id === user_id && not (is_empty a.email))
          (λ a b. prisma.collate a.id b.id) 1
    pure (first_email accounts)

  unfoldable pub find_billing_mail_recipient_by_subscription_id : String → Tx (Option String)
  unfolding find_billing_mail_recipient_by_user_id
  find_billing_mail_recipient_by_subscription_id subscription_id = do
    found ← find_first subscription (has_id subscription_id)
    elim found [
      | none ↦ pure none
      | some s ↦ do
        w ← find_or_throw workspace (λ w. w.id === s.workspace_id)
        find_billing_mail_recipient_by_user_id w.owner_user_id
    ]
