-- ===== src/Subscriptions/UseCases/Pricing.antt =====
-- The price that the configuration gives.
use easy_clip_be.Common.{
  ℕ, ◌+◌, ◌*◌, ◌-◌, ◌≤◌, ◌<◌, String, ◌≡◌, refl, true, some, List, [], ◌∷◌, arith, codes, ◌===◌,
  inl, inr, Option-cases, Bool-cases, eq_iff, subst, sym,
}
use easy_clip_be.Subscriptions.App.{Env, World, Result, done, raised, subscriptions_error, internal}
use easy_clip_be.Subscriptions.UseCases.Helpers.{
  parse_amount, number_from, is_amount_text, resolve_pro_monthly_price, ProMonthlyPrice, ◌<>◌,
  text_or,
}

number_from-le : (acc : ℕ) (cs : List ℕ) → acc ≤ number_from acc cs
number_from-le acc [] = omega arith
number_from-le acc (c ∷ cs) = omega (arith, number_from-le (acc * 10 + (c - 48)) cs)

number_from_positive : (cs : List ℕ) → is_amount_text cs ≡ true → 0 < number_from 0 cs
number_from_positive [] h = cc
number_from_positive (c ∷ cs) h = ground (arith, number_from-le (0 * 10 + (c - 48)) cs)

-- An amount that is read is positive and fits the database's `Int`.
parse_amount_bounds :
    (raw : String) (n : ℕ) → parse_amount raw ≡ some n → (1 ≤ n) × (n ≤ 2147483647)
unfolding parse_amount
parse_amount_bounds raw n h = ground (arith, number_from_positive (codes raw))

module _ ⦃env : Env⦄ where
  -- An internal error, or a positive amount in won that the configured text stands for and that
  -- fits the database's `Int`; with nothing changed in either case.
  abbrev pub IsPriced : World → Result ProMonthlyPrice × World → Type 0
  IsPriced w (done p, w') =
      (w' ≡ w)
      × (p.currency ≡ "KRW")
      × (1 ≤ p.amount)
      × (p.amount ≤ 2147483647)
      × (parse_amount (text_or (env.config "PRO_MONTHLY_AMOUNT") "") ≡ some p.amount)
  IsPriced w (raised e, w') = (w' ≡ w) × (e ≡ subscriptions_error internal)

  -- The price under any configuration is an internal error, or a positive amount in won that the
  -- configured text stands for and that fits the database's `Int`; nothing is changed.
  pub price-IsPriced : (w : World) → IsPriced w (resolve_pro_monthly_price w)
  unfolding resolve_pro_monthly_price
  price-IsPriced w = elim (Option-cases (env.config "PRO_MONTHLY_AMOUNT")) [
    | inl e ↦ subst (IsPriced w) (sym (failed (ground arith))) (refl, refl)
    | inr (raw, e) ↦ elim (Option-cases (parse_amount raw)) [
      | inl f ↦ subst (IsPriced w) (sym (failed (ground arith))) (refl, refl)
      | inr (n, f) ↦ elim (Bool-cases (currency === "KRW")) [
        | inl g ↦ subst (IsPriced w) (sym (priced n (ground arith))) (
          refl,
          (eq_iff currency "KRW").0 g,
          (parse_amount_bounds raw n f).0,
          (parse_amount_bounds raw n f).1,
          ground arith,
        )
        | inr g ↦ subst (IsPriced w) (sym (failed (ground arith))) (refl, refl)
      ]
    ]
  ]
    where
      currency : String
      currency = text_or (env.config "TOSS_PAYMENTS_CURRENCY") "KRW"

      failed :
          resolve_pro_monthly_price w ≡ (raised (subscriptions_error internal), w)
          → resolve_pro_monthly_price w ≡ (raised (subscriptions_error internal), w)
      failed h = h

      price : ℕ → ProMonthlyPrice
      price n = record {
        amount = n;
        currency = currency;
        price_version = env.sha256 (
            "PRO:"
            <> text_or (env.config "PRO_MONTHLY_AMOUNT") ""
            <> ":"
            <> currency
            <> ":MONTH:1");
      }

      priced :
          (n : ℕ)
          → resolve_pro_monthly_price w ≡ (done (price n), w)
          → resolve_pro_monthly_price w ≡ (done (price n), w)
      priced n h = h
