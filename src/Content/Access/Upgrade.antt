-- ===== src/Content/Access/Upgrade.antt =====
-- What a refused clip tells its user: whether a paid plan would help.
use easy_clip_be.Common.{ℕ, ◌<◌, String, ◌≡◌, true, some, ◌↔◌, arith}
use easy_clip_be.Subscriptions.Types.{Subscription, free, pro, active}
use easy_clip_be.Content.Store.{ContentDb, ok, err, clip_limit, ClipLimitDetails}
use easy_clip_be.Content.Access.Defs.{resolve_clip_entitlements, assert_clip_increase}

-- An increase that is refused to a subscription of the free plan says that an upgrade resolves it
-- exactly when the same increase is accepted for any active subscription of the paid plan whose
-- period has not ended.
pub upgrade_iff_accepted :
    (s paid : Subscription) (period_end now : ℕ) (id : String) (current increase : ℕ)
    (db : ContentDb) (d : ClipLimitDetails)
    → s.plan ≡ free
    → paid.plan ≡ pro
    → paid.status ≡ active
    → paid.current_period_end ≡ some period_end
    → now < period_end
    → assert_clip_increase (resolve_clip_entitlements s now) id current increase db
      ≡ err (clip_limit d)
    → (d.upgrade_can_resolve ≡ true) ↔ (
        assert_clip_increase (resolve_clip_entitlements paid now) id current increase db
        ≡ ok (tt, db))
unfolding assert_clip_increase
upgrade_iff_accepted s paid period_end now id current increase db d f p a e l r = ground arith
