-- ===== src/Subscriptions/UseCases/Batch.antt =====
-- The scheduled run: `executeBatch` of reconcile-initial-payments.usecase.ts, and
-- process-subscription-payments.usecase.ts, which runs it after the renewals.
use easy_clip_be.Common.{ℕ, length}
use easy_clip_be.Subscriptions.Store.{Prisma}
use easy_clip_be.Subscriptions.Repository.Due.{find_pending_initial_payments}
use easy_clip_be.Subscriptions.App.{Env, App, pure, ◌>>=◌, now, query}
use easy_clip_be.Subscriptions.UseCases.Reconcile.{reconcile_all}
use easy_clip_be.Subscriptions.UseCases.Renew.{AccessPolicy, BatchOutput, process_due_auto_renewals}

pub record InitialBatch : Type 0 where
  pub processed : ℕ
  pub pending : ℕ

pub record PaymentsOutput : Type 0 where
  pub batch : BatchOutput
  pub initial_reconciliation : InitialBatch

module _ ⦃prisma : Prisma⦄ ⦃env : Env⦄ where
  unfoldable pub execute_batch : App InitialBatch
  execute_batch = do
    t ← now
    attempts ← query (find_pending_initial_payments t 50)
    n ← reconcile_all attempts 0
    pure (record { processed = length attempts; pending = n })

  -- The access policy is checked by the renewals before any first payment is looked up.
  unfoldable pub process_subscription_payments : ℕ → ℕ → AccessPolicy → App PaymentsOutput
  process_subscription_payments t limit policy = do
    result ← process_due_auto_renewals t limit policy
    initial ← execute_batch
    pure (record { batch = result; initial_reconciliation = initial })
