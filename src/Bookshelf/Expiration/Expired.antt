-- ===== src/Bookshelf/Expiration/Expired.antt =====
-- `ExpirationPolicy::expired` of bookshelf/src/expiration.rs.
use emporium.Prelude.{
  ◌≡◌, refl, true, false, not, some, List, [], ◌∷◌, arith, ◌↔◌, ◌∙◌, sym, All, ok, not_true,
  not-false, and_true, ℕ,
}
use mathlib.Core.Bool.{false≢true}
use emporium.Std.Ord.{Ord, ◌≼◌, pair_ord, nat_ord}
use emporium.Std.Int.{ℤ, int_ord}
use emporium.Std.BTreeMap.{BTreeSet, contains, contains_key}
use emporium.Chrono.{Calendar}
use emporium.Bookshelf.Expiration.{
  ExpirationBucket, ExpirationPolicy, Policy, policies, expired, daily, weekly, monthly, yearly,
  policy_expired, insert_all,
}
use emporium.Bookshelf.Expiration.Buckets.{IsRetained}
use emporium.Bookshelf.Expiration.Retention.{policy_expired_iff, IsFresh}
use emporium.Bookshelf.Expiration.Kept.{
  survivors, contains-survivors, KeepsOne, KeepsOne-of_spared, IsRetained-of_subset,
  daily-IsRetained, daily-fresh, weekly-fresh, monthly-fresh, yearly-fresh,
}

module _ {Epoch : Type 0} ⦃o : Ord Epoch⦄ (cal : Calendar Epoch) (p : ExpirationPolicy)
    (origin : Epoch) {by_day : ExpirationBucket Epoch Epoch}
    {by_week : ExpirationBucket Epoch (ℤ × ℤ)} {by_month : ExpirationBucket Epoch (ℤ × ℕ)}
    {by_year : ExpirationBucket Epoch ℤ} (hd : daily cal origin p.days ≡ ok by_day)
    (hw : weekly cal origin p.weeks ≡ ok by_week) (hm : monthly cal origin p.months ≡ ok by_month)
    (hy : yearly cal origin p.years ≡ ok by_year) where
  -- no bucket of the policy retains `e` out of `es`
  abbrev IsLetGo : List Epoch → Epoch → Type 0
  IsLetGo es e =
      (¬ IsRetained by_day es e)
      × (¬ IsRetained by_week es e)
      × (¬ IsRetained by_month es e)
      × (¬ IsRetained by_year es e)

  -- Where the four horizons exist, `expired` returns a set, and an epoch is in it exactly when it
  -- is in the list and none of the daily, weekly, monthly and yearly buckets retains it: each
  -- bucket retains the epochs that are not before its horizon and are the earliest of the list
  -- with their day, week, month or year.
  pub expired_iff :
      (es : List Epoch)
      → (s : BTreeSet Epoch) × (expired cal p origin es ≡ ok s)
        × ((e : Epoch) → (contains_key e s ≡ true) ↔ ((contains e es ≡ true) × IsLetGo es e))
  unfolding expired policies
  expired_iff es = (
    policy_expired (insert_all opened es),
    rw (hd, hw, hm, hy),
    λ e.
        let (forth, back) = policy_expired_iff opened es e refl fresh in
        (
          λ h. let (c, gone) = forth h in (c, (gone.0, gone.1.0, gone.1.1.0, gone.1.1.1.0)),
          λ h. back (h.0, (h.1.0, (h.1.1, (h.1.2, (h.1.3, tt))))),
        ),
  )
    where
      opened : Policy Epoch
      opened = record {
        policies =
            record { Key = Epoch; key_ord = o; bucket = by_day }
            ∷ record { Key = ℤ × ℤ; key_ord = pair_ord; bucket = by_week }
            ∷ record { Key = ℤ × ℕ; key_ord = pair_ord; bucket = by_month }
            ∷ record { Key = ℤ; key_ord = int_ord; bucket = by_year }
            ∷ [];
        epochs = [];
      }

      fresh : All IsFresh opened.policies
      fresh = (
        daily-fresh cal origin p.days hd,
        (
          weekly-fresh cal origin p.weeks hw,
          (monthly-fresh cal origin p.months hm, (yearly-fresh cal origin p.years hy, tt)),
        ),
      )

  -- what membership in a result of `expired` says
  pub expired_mem :
      {es : List Epoch} {s : BTreeSet Epoch}
      → expired cal p origin es ≡ ok s
      → (e : Epoch) → (contains_key e s ≡ true) ↔ ((contains e es ≡ true) × IsLetGo es e)
  expired_mem {es} {s} h e =
      let (t, computed, iff) = expired_iff es in
      let same : t ≡ s = ground (arith, computed, h) in rw (← same) (iff e)

  -- an epoch that a list of some of the epochs lets go is let go by the longer list
  IsLetGo-of_subset :
      (es fs : List Epoch) (e : Epoch)
      → ((x : Epoch) → contains x fs ≡ true → contains x es ≡ true)
      → IsLetGo fs e
      → IsLetGo es e
  IsLetGo-of_subset es fs e sub gone = (
    λ r. gone.0 (IsRetained-of_subset by_day es fs e sub r),
    λ r. gone.1 (IsRetained-of_subset by_week es fs e sub r),
    λ r. gone.2 (IsRetained-of_subset by_month es fs e sub r),
    λ r. gone.3 (IsRetained-of_subset by_year es fs e sub r),
  )

  -- A policy that is run again at the same origin over what it left lets nothing more go.
  pub expired-survivors :
      (es : List Epoch) {s t : BTreeSet Epoch}
      → expired cal p origin es ≡ ok s
      → expired cal p origin (survivors s es) ≡ ok t
      → (e : Epoch) → contains_key e t ≡ false
  expired-survivors es {s} {t} hs ht e = not_true _ λ h.
      let (left, gone) = (expired_mem ht e).0 h in
      let parts : (not (contains_key e s) ≡ true) × (contains e es ≡ true) =
        and_true _ _ (sym (contains-survivors s es e) ∙ left) in
      let still : contains_key e s ≡ true = (expired_mem hs e).1 (
        parts.1,
        IsLetGo-of_subset es (survivors s es) e
            (λ x k. (and_true _ _ (sym (contains-survivors s es x) ∙ k)).1) gone,
      ) in
      false≢true (sym (not-false _ parts.0) ∙ still)

  -- The result depends on which epochs are given, and not on their order or repetition.
  pub expired_same :
      (es fs : List Epoch) {s t : BTreeSet Epoch}
      → ((x : Epoch) → contains x es ≡ contains x fs)
      → expired cal p origin es ≡ ok s
      → expired cal p origin fs ≡ ok t
      → (e : Epoch) → (contains_key e s ≡ true) ↔ (contains_key e t ≡ true)
  expired_same es fs same hs ht e = (
    λ h.
        let (c, gone) = (expired_mem hs e).0 h in
        (expired_mem ht e).1
          (sym (same e) ∙ c, IsLetGo-of_subset fs es e (λ x k. sym (same x) ∙ k) gone),
    λ h.
        let (c, gone) = (expired_mem ht e).0 h in
        (expired_mem hs e).1 (same e ∙ c, IsLetGo-of_subset es fs e (λ x k. same x ∙ k) gone),
  )

  -- Where the four horizons exist, for each listed epoch that is not before the horizon of a bucket,
  -- a listed epoch of the same period that is no later is not let go.
  pub expired-KeepsOne :
      (es : List Epoch) {s : BTreeSet Epoch}
      → expired cal p origin es ≡ ok s
      → KeepsOne by_day es s
        × KeepsOne by_week es s
        × KeepsOne by_month es s
        × KeepsOne by_year es s
  expired-KeepsOne es {s} hs = (
    KeepsOne-of_spared by_day es s (λ m c r. keep m (λ gone. gone.0 r)),
    KeepsOne-of_spared by_week es s (λ m c r. keep m (λ gone. gone.1 r)),
    KeepsOne-of_spared by_month es s (λ m c r. keep m (λ gone. gone.2 r)),
    KeepsOne-of_spared by_year es s (λ m c r. keep m (λ gone. gone.3 r)),
  )
    where
      keep : (m : Epoch) → ¬ IsLetGo es m → contains_key m s ≡ false
      keep m h = not_true _ (λ k. h ((expired_mem hs m).0 k).1)

  -- Where the four horizons exist, an epoch that is not before the daily horizon is never let go.
  pub expired_recent :
      (es : List Epoch) {s : BTreeSet Epoch} (e h : Epoch)
      → expired cal p origin es ≡ ok s
      → cal.sub_days origin p.days ≡ some h
      → h ≼ e
      → contains_key e s ≡ false
  expired_recent es e h hs hh le =
      not_true _
        λ k. ((expired_mem hs e).0 k).1.0 (daily-IsRetained cal origin p.days hd es e h hh le)
