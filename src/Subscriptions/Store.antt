-- ===== src/Subscriptions/Store.antt =====
-- The tables that the repository works on, and the queries of one transaction over them.
-- A transaction is a function of the tables: an error rolls it back, so no tables come with it.
use easy_clip_be.Common.{ℕ, String, Bool, false, ◌||◌, ◌&&◌, Option, none, some, List, ◌===◌}
use easy_clip_be.Prisma.{Delegate, IsDocumented}
use easy_clip_be.Subscriptions.Types.{
  Subscription, SubscriptionPayment, InitialPaymentAttempt, Workspace, AuthAccount,
}

pub record Db : Type 0 where
  pub subscriptions : List Subscription
  pub payments : List SubscriptionPayment
  pub initial_payments : List InitialPaymentAttempt
  pub workspaces : List Workspace
  pub auth_accounts : List AuthAccount

-- P2002, a unique constraint; P2025, a row that is required and missing.
pub data Fault : Type 0 where
  unique_violation record_not_found : Fault

pub data Outcome (A : Type 0) : Type 0 where
  ok : A → Outcome A
  err : Fault → Outcome A

abbrev pub Tx : Type 0 → Type 0
Tx A = Db → Outcome (A × Db)

abbrev pub pure : {A : Type 0} → A → Tx A
pure a db = ok (a, db)

abbrev pub throw : {A : Type 0} → Fault → Tx A
throw e db = err e

infixl 5 ◌>>=◌ ◌>>◌
abbrev pub ◌>>=◌ : {A B : Type 0} → Tx A → (A → Tx B) → Tx B
◌>>=◌ m f db = elim (m db) [ ok r ↦ f r.0 r.1 | err e ↦ err e ]

abbrev pub ◌>>◌ : {A B : Type 0} → Tx A → Tx B → Tx B
m >> k = m >>= λ _. k

-- The client's handle for each table, and the database's order of texts.
pub record Prisma : Type 0 where
  pub subscription : Delegate Subscription
  pub subscription_payment : Delegate SubscriptionPayment
  pub initial_subscription_payment : Delegate InitialPaymentAttempt
  pub workspace : Delegate Workspace
  pub auth_account : Delegate AuthAccount
  pub collate : String → String → Bool

pub record IsDocumentedPrisma (p : Prisma) : Type 0 where
  pub subscription : IsDocumented p.subscription
  pub subscription_payment : IsDocumented p.subscription_payment
  pub initial_subscription_payment : IsDocumented p.initial_subscription_payment
  pub workspace : IsDocumented p.workspace
  pub auth_account : IsDocumented p.auth_account

-- One of the tables: its handle, its place in the state, its unique constraints.
pub record Table (R : Type 0) : Type 0 where
  pub delegate : Delegate R
  pub get : Db → List R
  pub put : List R → Db → Db
  pub clashes : R → R → Bool

abbrev same_some : Option String → Option String → Bool
same_some (some a) (some b) = a === b
same_some _ _ = false

-- The `@id` and `@unique` columns of prisma/schema.prisma.
abbrev pub subscription_clashes : Subscription → Subscription → Bool
subscription_clashes r s =
    r.id === s.id
    || r.workspace_id === s.workspace_id
    || same_some r.external_customer_key s.external_customer_key

abbrev pub payment_clashes : SubscriptionPayment → SubscriptionPayment → Bool
payment_clashes r s =
    r.id === s.id
    || r.external_order_id === s.external_order_id
    || same_some r.external_payment_key s.external_payment_key
    || same_some r.external_event_id s.external_event_id

abbrev pub initial_payment_clashes : InitialPaymentAttempt → InitialPaymentAttempt → Bool
initial_payment_clashes r s =
    r.id === s.id
    || r.external_order_id === s.external_order_id
    || (r.subscription_id === s.subscription_id && r.idempotency_key === s.idempotency_key)

abbrev pub workspace_clashes : Workspace → Workspace → Bool
workspace_clashes r s = r.id === s.id || r.owner_user_id === s.owner_user_id

module _ ⦃prisma : Prisma⦄ where
  abbrev pub subscription : Table Subscription
  subscription = record {
    delegate = prisma.subscription;
    get = λ db. db.subscriptions;
    put = λ t db. record db { subscriptions = t };
    clashes = subscription_clashes;
  }

  abbrev pub subscription_payment : Table SubscriptionPayment
  subscription_payment = record {
    delegate = prisma.subscription_payment;
    get = λ db. db.payments;
    put = λ t db. record db { payments = t };
    clashes = payment_clashes;
  }

  abbrev pub initial_subscription_payment : Table InitialPaymentAttempt
  initial_subscription_payment = record {
    delegate = prisma.initial_subscription_payment;
    get = λ db. db.initial_payments;
    put = λ t db. record db { initial_payments = t };
    clashes = initial_payment_clashes;
  }

  abbrev pub workspace : Table Workspace
  workspace = record {
    delegate = prisma.workspace;
    get = λ db. db.workspaces;
    put = λ t db. record db { workspaces = t };
    clashes = workspace_clashes;
  }

  abbrev pub auth_account : Table AuthAccount
  auth_account = record {
    delegate = prisma.auth_account;
    get = λ db. db.auth_accounts;
    put = λ t db. record db { auth_accounts = t };
    clashes = λ r s. r.id === s.id;
  }

module _ {R : Type 0} (table : Table R) where
  abbrev pub find_first : (R → Bool) → Tx (Option R)
  find_first w db = ok (table.delegate.find_first w (table.get db), db)

  abbrev pub find_many : (R → Bool) → (R → R → Bool) → ℕ → Tx (List R)
  find_many w before n db = ok (table.delegate.find_many w before n (table.get db), db)

  -- `findUniqueOrThrow`
  abbrev pub find_or_throw : (R → Bool) → Tx R
  find_or_throw w db = elim (table.delegate.find_first w (table.get db)) [
    | none ↦ err record_not_found
    | some r ↦ ok (r, db)
  ]

  abbrev pub update_many : (R → Bool) → (R → R) → Tx ℕ
  update_many w f db =
      let (t, n) = table.delegate.update_many w f (table.get db) in ok (n, table.put t db)

  -- `update`: the row has to be there, and comes back as it is written.
  abbrev pub update : (R → Bool) → (R → R) → Tx R
  update w f = do r ← find_or_throw w; update_many w f; pure (f r)

  abbrev pub create : R → Tx R
  create r db = elim (table.delegate.create table.clashes r (table.get db)) [
    | none ↦ err unique_violation
    | some t ↦ ok (r, table.put t db)
  ]

  abbrev pub upsert : (R → Bool) → (R → R) → R → Tx R
  upsert w f r = do found ← find_first w; elim found [ none ↦ create r | some _ ↦ update w f ]

-- The tables after a transaction: an error rolls it back.
abbrev pub commit : {A : Type 0} → Tx A → Db → Db
commit m db = elim (m db) [ ok r ↦ r.1 | err _ ↦ db ]
