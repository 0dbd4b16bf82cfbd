-- ===== src/Content/Store.antt =====
-- The tables of folders and clips, and the queries of one transaction over them. A transaction is
-- a function of the tables: an error rolls it back, so no tables come with it.
use easy_clip_be.Common.{
  ℕ, ◌≡◌, refl, ◌+◌, String, Bool, true, false, ◌||◌, ◌&&◌, not, Option, none, some, List, [], ◌∷◌,
  ◌===◌, ◌==◌, filter, count, if◌then◌else◌,
}
use easy_clip_be.Prisma.{Delegate, IsDocumented}
use easy_clip_be.Subscriptions.Types.{Subscription, Workspace}
use easy_clip_be.Subscriptions.App.{ErrorCode}
use easy_clip_be.Subscriptions.Repository.Rows.{Defaults}
use easy_clip_be.Content.Types.{Folder, Clip, Tag, ClipTag, ClipLike, ClipView}

-- `tick` counts the readings of the clock.
pub record ContentDb : Type 0 where
  pub workspaces : List Workspace
  pub subscriptions : List Subscription
  pub folders : List Folder
  pub clips : List Clip
  pub tags : List Tag
  pub clip_tags : List ClipTag
  pub likes : List ClipLike
  pub views : List ClipView
  pub tick : ℕ

-- `policyCode` of `FolderAccessError`
pub data PolicyCode : Type 0 where
  project_locked plan_limit_exceeded feature_not_available : PolicyCode

-- `details` of `ClipLimitError`
pub record ClipLimitDetails : Type 0 where
  pub folder_id : String
  pub limit : ℕ
  pub current_count : ℕ
  pub requested_increase : ℕ
  pub upgrade_can_resolve : Bool

-- `ApplicationError` with its two kinds, the client's P2002 and P2025, `ImageStorageError`, and
-- a lost connection.
pub data Fault : Type 0 where
  application : ErrorCode → Fault
  folder_access : PolicyCode → Fault
  clip_limit : ClipLimitDetails → Fault
  unique_violation record_not_found storage_failed disconnected : Fault

pub data Outcome (A : Type 0) : Type 0 where
  ok : A → Outcome A
  err : Fault → Outcome A

abbrev pub Tx : Type 0 → Type 0
Tx A = ContentDb → Outcome (A × ContentDb)

abbrev pub pure : {A : Type 0} → A → Tx A
pure a db = ok (a, db)

abbrev pub throw : {A : Type 0} → Fault → Tx A
throw e db = err e

infixl 5 ◌>>=◌ ◌>>◌
abbrev pub ◌>>=◌ : {A B : Type 0} → Tx A → (A → Tx B) → Tx B
◌>>=◌ m f db = elim (m db) [ ok r ↦ f r.0 r.1 | err e ↦ err e ]

abbrev pub ◌>>◌ : {A B : Type 0} → Tx A → Tx B → Tx B
m >> k = m >>= λ _. k

-- A transaction that succeeds gives an answer and tables of which `P` holds.
unfoldable pub Ensures : {A : Type 0} → (A → ContentDb → Type 0) → Outcome (A × ContentDb) → Type 0
Ensures P (ok r) = P r.0 r.1
Ensures P (err e) = Unit

pub returned :
    {A : Type 0} (P : A → ContentDb → Type 0) (a : A) (db : ContentDb)
    → P a db
    → Ensures P (ok (a, db))
unfolding Ensures
returned P a db h = h

pub thrown : {A : Type 0} (P : A → ContentDb → Type 0) (e : Fault) → Ensures P (err e)
unfolding Ensures
thrown P e = tt

pub weaken :
    {A : Type 0} (P Q : A → ContentDb → Type 0) (m : Outcome (A × ContentDb))
    → Ensures P m
    → ((a : A) (db : ContentDb) → P a db → Q a db)
    → Ensures Q m
unfolding Ensures
weaken P Q (ok r) h k = k r.0 r.1 h
weaken P Q (err e) h k = tt

pub then_ :
    {A B : Type 0} (P : A → ContentDb → Type 0) (Q : B → ContentDb → Type 0)
    (m : Outcome (A × ContentDb)) (f : A → Tx B)
    → Ensures P m
    → ((a : A) (db : ContentDb) → P a db → Ensures Q (f a db))
    → Ensures Q (elim m [ ok r ↦ f r.0 r.1 | err e ↦ err e ])
unfolding Ensures
then_ P Q (ok r) f h k = k r.0 r.1 h
then_ P Q (err e) f h k = tt

pub both :
    {A : Type 0} (P Q : A → ContentDb → Type 0) (m : Outcome (A × ContentDb))
    → Ensures P m
    → Ensures Q m
    → Ensures (λ a db. P a db × Q a db) m
unfolding Ensures
both P Q (ok r) h k = (h, k)
both P Q (err e) h k = tt

pub if_ :
    {A : Type 0} (Q : A → ContentDb → Type 0) (b : Bool) (m n : Tx A) (db : ContentDb)
    → (b ≡ true → Ensures Q (m db))
    → (b ≡ false → Ensures Q (n db))
    → Ensures Q ((if b then m else n) db)
unfolding Ensures
if_ Q true m n db h k = h refl
if_ Q false m n db h k = k refl

-- The tables after a transaction.
abbrev pub commit : {A : Type 0} → Tx A → ContentDb → ContentDb
commit m db = elim (m db) [ ok r ↦ r.1 | err _ ↦ db ]

-- `rows[0] ?? null`
abbrev pub first_of : {R : Type 0} → List R → Option R
first_of [] = none
first_of (r ∷ _) = some r

-- The tables as they stand, for filters on related rows.
abbrev pub tables : Tx ContentDb
tables db = ok (db, db)

-- The clock and the identifiers of the server and the database, at each reading.
pub record Host : Type 0 where
  pub clock : ℕ → ℕ
  pub new_id : ℕ → String

module _ ⦃host : Host⦄ where
  -- `new Date()`
  abbrev pub now : Tx ℕ
  now db = ok (host.clock db.tick, record db { tick = db.tick + 1 })

  -- What a create fills in: `cuid()` or `randomUUID()`, and `now()`.
  abbrev pub fresh : Tx Defaults
  fresh db = ok (
    record { id = host.new_id db.tick; now = host.clock db.tick },
    record db { tick = db.tick + 1 },
  )

pub record ContentPrisma : Type 0 where
  pub workspace : Delegate Workspace
  pub subscription : Delegate Subscription
  pub folder : Delegate Folder
  pub clip : Delegate Clip
  pub tag : Delegate Tag
  pub clip_tag : Delegate ClipTag
  pub clip_like : Delegate ClipLike
  pub clip_view : Delegate ClipView
  -- The database's order of texts, and `contains` with `mode: 'insensitive'`.
  pub collate : String → String → Bool
  pub contains : String → List ℕ → Bool

pub record IsDocumentedContent (p : ContentPrisma) : Type 0 where
  pub workspace : IsDocumented p.workspace
  pub subscription : IsDocumented p.subscription
  pub folder : IsDocumented p.folder
  pub clip : IsDocumented p.clip
  pub tag : IsDocumented p.tag
  pub clip_tag : IsDocumented p.clip_tag
  pub clip_like : IsDocumented p.clip_like
  pub clip_view : IsDocumented p.clip_view

-- One of the tables: its handle, its place in the state, its unique constraints.
pub record ContentTable (R : Type 0) : Type 0 where
  pub delegate : Delegate R
  pub get : ContentDb → List R
  pub put : List R → ContentDb → ContentDb
  pub clashes : R → R → Bool

module _ ⦃prisma : ContentPrisma⦄ where
  abbrev pub workspace : ContentTable Workspace
  workspace = record {
    delegate = prisma.workspace;
    get = λ db. db.workspaces;
    put = λ t db. record db { workspaces = t };
    clashes = λ r s. r.id === s.id || r.owner_user_id === s.owner_user_id;
  }

  abbrev pub subscription : ContentTable Subscription
  subscription = record {
    delegate = prisma.subscription;
    get = λ db. db.subscriptions;
    put = λ t db. record db { subscriptions = t };
    clashes = λ r s. r.id === s.id || r.workspace_id === s.workspace_id;
  }

  abbrev pub folder : ContentTable Folder
  folder = record {
    delegate = prisma.folder;
    get = λ db. db.folders;
    put = λ t db. record db { folders = t };
    clashes = λ r s. r.id === s.id;
  }

  abbrev pub clip : ContentTable Clip
  clip = record {
    delegate = prisma.clip;
    get = λ db. db.clips;
    put = λ t db. record db { clips = t };
    clashes = λ r s. r.id === s.id;
  }

  abbrev pub tag : ContentTable Tag
  tag = record {
    delegate = prisma.tag;
    get = λ db. db.tags;
    put = λ t db. record db { tags = t };
    clashes = λ r s. r.id === s.id || (r.folder_id === s.folder_id && r.name === s.name);
  }

  abbrev pub clip_tag : ContentTable ClipTag
  clip_tag = record {
    delegate = prisma.clip_tag;
    get = λ db. db.clip_tags;
    put = λ t db. record db { clip_tags = t };
    clashes = λ r s. r.clip_id === s.clip_id && r.tag_id === s.tag_id;
  }

  abbrev pub clip_like : ContentTable ClipLike
  clip_like = record {
    delegate = prisma.clip_like;
    get = λ db. db.likes;
    put = λ t db. record db { likes = t };
    clashes = λ r s. r.id === s.id || (r.user_id === s.user_id && r.clip_id === s.clip_id);
  }

  abbrev pub clip_view : ContentTable ClipView
  clip_view = record {
    delegate = prisma.clip_view;
    get = λ db. db.views;
    put = λ t db. record db { views = t };
    clashes = λ r s. r.id === s.id || (r.user_id === s.user_id && r.clip_id === s.clip_id);
  }

module _ {R : Type 0} (table : ContentTable R) where
  abbrev pub find_first : (R → Bool) → Tx (Option R)
  find_first w db = ok (table.delegate.find_first w (table.get db), db)

  abbrev pub find_many : (R → Bool) → (R → R → Bool) → ℕ → Tx (List R)
  find_many w before n db = ok (table.delegate.find_many w before n (table.get db), db)

  abbrev pub find_after : (R → Bool) → (R → R → Bool) → (R → Bool) → ℕ → Tx (List R)
  find_after w before cursor n db =
      ok (table.delegate.find_after w before cursor n (table.get db), db)

  abbrev pub find_all : (R → Bool) → Tx (List R)
  find_all w db = ok (table.delegate.find_all w (table.get db), db)

  abbrev pub count_rows : (R → Bool) → Tx ℕ
  count_rows w db = ok (table.delegate.count_rows w (table.get db), db)

  -- `findUniqueOrThrow`
  abbrev pub find_or_throw : (R → Bool) → Tx R
  find_or_throw w db = elim (table.delegate.find_first w (table.get db)) [
    | none ↦ err record_not_found
    | some r ↦ ok (r, db)
  ]

  abbrev pub update_many : (R → Bool) → (R → R) → Tx ℕ
  update_many w f db =
      let (t, n) = table.delegate.update_many w f (table.get db) in ok (n, table.put t db)

  -- `update`: the row has to be there, and comes back as it is written.
  abbrev pub update : (R → Bool) → (R → R) → Tx R
  update w f = do r ← find_or_throw w; update_many w f; pure (f r)

  abbrev pub delete_many : (R → Bool) → Tx ℕ
  delete_many w db =
      let (t, n) = table.delegate.delete_many w (table.get db) in ok (n, table.put t db)

  -- `update` of columns that a unique constraint names.
  abbrev pub update_unique : (R → Bool) → (R → R) → Tx R
  update_unique w f = do
    r ← find_or_throw w
    db ← tables
    if not (count (λ s. not (w s) && table.clashes (f r) s) (table.get db) == 0)
        then throw unique_violation
        else update w f

  -- `orderBy` with `findFirst`
  abbrev pub find_least : (R → Bool) → (R → R → Bool) → Tx (Option R)
  find_least w before = do found ← find_many w before 1; pure (first_of found)

  abbrev pub create : R → Tx R
  create r db = elim (table.delegate.create table.clashes r (table.get db)) [
    | none ↦ err unique_violation
    | some t ↦ ok (r, table.put t db)
  ]

  -- `createMany` of one row with `skipDuplicates`, and `ON CONFLICT DO NOTHING`.
  abbrev pub create_or_skip : R → Tx (Unit {0})
  create_or_skip r db = elim (table.delegate.create table.clashes r (table.get db)) [
    | none ↦ ok (tt, db)
    | some t ↦ ok (tt, table.put t db)
  ]

  abbrev pub upsert : (R → Bool) → (R → R) → R → Tx R
  upsert w f r = do found ← find_first w; elim found [ none ↦ create r | some _ ↦ update w f ]

-- Some row passes the test.
abbrev pub any : {R : Type 0} → (R → Bool) → List R → Bool
any w t = not (count w t == 0)

-- `onDelete: Cascade`: what hangs on the clips that are gone goes with them.
abbrev pub cascade_clips : List Clip → ContentDb → ContentDb
cascade_clips gone db = record db {
  clip_tags = filter (λ r. not (any (λ (c : Clip). c.id === r.clip_id) gone)) db.clip_tags;
  likes = filter (λ r. not (any (λ (c : Clip). c.id === r.clip_id) gone)) db.likes;
  views = filter (λ r. not (any (λ (c : Clip). c.id === r.clip_id) gone)) db.views;
}

abbrev pub in_folders : List Folder → Clip → Bool
in_folders gone c = any (λ (f : Folder). f.id === c.folder_id) gone

-- So do the clips and the tags of a folder.
abbrev pub cascade_folders : List Folder → ContentDb → ContentDb
cascade_folders gone db =
    let left = cascade_clips (filter (in_folders gone) db.clips) db in
    let tag_gone : Tag → Bool = λ t. any (λ (f : Folder). f.id === t.folder_id) gone in
    record left {
      clips = filter (λ c. not (in_folders gone c)) db.clips;
      tags = filter (λ t. not (tag_gone t)) db.tags;
      clip_tags =
          filter (λ r. not (any (λ t. tag_gone t && t.id === r.tag_id) db.tags)) left.clip_tags;
    }

-- So does what ties a tag to its clips.
abbrev pub cascade_tags : List Tag → ContentDb → ContentDb
cascade_tags gone db = record db {
  clip_tags = filter (λ r. not (any (λ (g : Tag). g.id === r.tag_id) gone)) db.clip_tags;
}

module _ ⦃prisma : ContentPrisma⦄ where
  -- `delete`: the row has to be there.
  abbrev pub delete_tag : (Tag → Bool) → Tx (Unit {0})
  delete_tag w = do
    find_or_throw tag w
    λ db.
        let (t, n) = prisma.tag.delete_many w db.tags in
        ok (tt, record (cascade_tags (filter w db.tags) db) { tags = t })

  abbrev pub delete_clips : (Clip → Bool) → Tx ℕ
  delete_clips w db =
      let (t, n) = prisma.clip.delete_many w db.clips in
      ok (n, record (cascade_clips (filter w db.clips) db) { clips = t })

  abbrev pub delete_folders : (Folder → Bool) → Tx ℕ
  delete_folders w db =
      let (t, n) = prisma.folder.delete_many w db.folders in
      ok (n, record (cascade_folders (filter w db.folders) db) { folders = t })
