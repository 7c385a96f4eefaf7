-- ===== src/Assign/Revoke.antt =====
-- `CouponCodeRevokeSerializer` with `CouponCodeMixin` and `CouponCodeRevokeRemindBulkSerializer` of
-- ecommerce/extensions/api/serializers.py. The records of mails are left out.
use edx_ecommerce.Base.{
  ℕ, ◌+◌, ◌≡◌, refl, ap, ◌∙◌, Bool, true, false, ◌&&◌, ◌||◌, List, [], ◌∷◌, ◌==◌, any, length, keep,
  if◌then◌else◌, ⊤, Option, arith, Bool-cases, inl, inr,
}
use edx_ecommerce.Base.Action.{Result, ok, raised, returns}
use edx_ecommerce.Base.Int.{pos, ◌-ℤ◌, ◌+ℤ◌}
use edx_ecommerce.Voucher.{AssignmentStatus, OfferAssignment, Voucher, num_assignments, is_active}
use edx_ecommerce.Voucher.Slots.{calculate_available_slots, is_exclusive}
use edx_ecommerce.Assign.Validate.{member}

abbrev pub is_unredeemed_status : AssignmentStatus → Bool
is_unredeemed_status AssignmentStatus.assigned = true
is_unredeemed_status AssignmentStatus.email_pending = true
is_unredeemed_status AssignmentStatus.email_bounced = true
is_unredeemed_status _ = false

-- `get_unredeemed_offer_assignments`, by the row.
abbrev pub is_unredeemed : (code email : ℕ) → OfferAssignment → Bool
is_unredeemed code email a =
    (a.code == code) && ((a.user_email == email) && is_unredeemed_status a.status)

-- An item of the request.
pub record Item : Type 0 where
  pub code : ℕ
  pub user_email : ℕ
  pub do_not_email : Bool

-- The codes of the coupon, whether a row can be saved, and whether the mail to a user can be sent.
pub record Outside : Type 0 where
  pub coupon_codes : List ℕ
  pub save : OfferAssignment → Result ⊤
  pub send_mail : Item → Result ⊤

-- Whether the item passes the validation.
unfoldable pub validate : Outside → Item → List OfferAssignment → Bool
validate v i rows = member i.code v.coupon_codes && any (is_unredeemed i.code i.user_email) rows

abbrev pub revoked : OfferAssignment → OfferAssignment
revoked a = record a { status = AssignmentStatus.revoked }

-- One row is saved, and the loop goes on; or it ends with what is raised.
abbrev pub with_saved :
    Result ⊤
    → OfferAssignment
    → List OfferAssignment
    → Result ⊤ × List OfferAssignment
    → Result ⊤ × List OfferAssignment
with_saved (ok u) a others (r, rows) = (r, revoked a ∷ rows)
with_saved (raised e) a others rest = (raised e, a ∷ others)

unfoldable pub revoke_rows :
    Outside → (code email : ℕ) → List OfferAssignment → Result ⊤ × List OfferAssignment
revoke_rows v code email [] = (ok tt, [])
revoke_rows v code email (a ∷ others) =
    let (r, rows) = revoke_rows v code email others in
    if is_unredeemed code email a then with_saved (v.save a) a others (r, rows) else (r, a ∷ rows)

-- The mail follows when all rows are saved. `true` is the detail `success`, `false` the text of what
-- was raised.
abbrev pub with_mail :
    Outside → Item → Result ⊤ × List OfferAssignment → Bool × List OfferAssignment
with_mail v i (raised e, rows) = (false, rows)
with_mail v i (ok u, rows) = (i.do_not_email || returns (v.send_mail i), rows)

unfoldable pub create : Outside → Item → List OfferAssignment → Bool × List OfferAssignment
unfolding revoke_rows
create v i rows = with_mail v i (revoke_rows v i.code i.user_email rows)

-- The items that passed the validation are revoked one after the other. Each reads the rows anew.
unfoldable pub create_all :
    Outside → List (Item × Bool) → List OfferAssignment → List Bool × List OfferAssignment
unfolding create
create_all v [] rows = ([], rows)
create_all v ((i, false) ∷ items) rows =
    let (details, rows') = create_all v items rows in (false ∷ details, rows')
create_all v ((i, true) ∷ items) rows =
    let (detail, rows') = create v i rows in
    let (details, rows'') = create_all v items rows' in (detail ∷ details, rows'')

abbrev pub validated : Outside → List OfferAssignment → List Item → List (Item × Bool)
unfolding validate
validated v rows [] = []
validated v rows (i ∷ items) = (i, validate v i rows) ∷ validated v rows items

-- All items are validated before the first is revoked; one that fails does not stop the others.
unfoldable pub bulk_create :
    Outside → List Item → List OfferAssignment → List Bool × List OfferAssignment
unfolding create_all validated
bulk_create v items rows = create_all v (validated v rows items) rows

unredeemed_is_active : (t : AssignmentStatus) → is_active t ≡ is_unredeemed_status t
unredeemed_is_active AssignmentStatus.email_pending = refl
unredeemed_is_active AssignmentStatus.assigned = refl
unredeemed_is_active AssignmentStatus.redeemed = refl
unredeemed_is_active AssignmentStatus.email_bounced = refl
unredeemed_is_active AssignmentStatus.revoked = refl

more_slots :
    (u : Voucher) (max : Option ℕ) (m k n : ℕ)
    → is_exclusive u.usage ≡ false
    → m + k ≡ n
    → calculate_available_slots u max m ≡ calculate_available_slots u max n +ℤ pos k
unfolding calculate_available_slots ◌-ℤ◌ ◌+ℤ◌
more_slots u max m k n many h = ground (arith, many, h)

abbrev pub item : (code email : ℕ) → (do_not_email : Bool) → Item
item code email do_not_email = record {
  code = code;
  user_email = email;
  do_not_email = do_not_email;
}

module _ (v : Outside) (saves : (a : OfferAssignment) → v.save a ≡ ok tt) where
  Counts : (code email : ℕ) → List OfferAssignment → Result ⊤ × List OfferAssignment → Type 0
  Counts code email rows q =
      (q.0 ≡ ok tt)
      × (any (is_unredeemed code email) q.1 ≡ false)
      × (num_assignments code q.1 + length (keep (is_unredeemed code email) rows)
          ≡ num_assignments code rows)

  revoke_rows-Counts :
      (code email : ℕ) (rows : List OfferAssignment)
      → Counts code email rows (revoke_rows v code email rows)
  unfolding revoke_rows Counts
  revoke_rows-Counts code email [] = (refl, refl, omega arith)
  revoke_rows-Counts code email (a ∷ others) =
      let (r, none_left, counted) = revoke_rows-Counts code email others in
      elim (Bool-cases (is_unredeemed code email a)) [
        | inl e ↦
            rw (revoke_rows, e, saves a)
              (
                r,
                ground (arith, none_left),
                ground (arith, e, counted, unredeemed_is_active a.status),
              )
        | inr e ↦ rw (revoke_rows, e) (r, ground (arith, e, none_left), ground (arith, e, counted))
      ]

  -- If the rows can be saved and the voucher is neither for a single use nor for many uses by one
  -- customer: the revocation of its code for a user leaves the user no assignment of the code that
  -- could be redeemed, and the voucher has as many slots more as the user had such assignments; the
  -- detail is `success` exactly if no mail is wanted or the mail is sent.
  pub create-slots :
      (u : Voucher) (max : Option ℕ) (email : ℕ) (do_not_email : Bool) (rows : List OfferAssignment)
      → is_exclusive u.usage ≡ false
      → ((create v (item u.code email do_not_email) rows).0
          ≡ (do_not_email || returns (v.send_mail (item u.code email do_not_email))))
        × (any (is_unredeemed u.code email) (create v (item u.code email do_not_email) rows).1
            ≡ false)
        × (calculate_available_slots u max
              (num_assignments u.code (create v (item u.code email do_not_email) rows).1)
            ≡ calculate_available_slots u max (num_assignments u.code rows)
              +ℤ pos (length (keep (is_unredeemed u.code email) rows)))
  unfolding create Counts
  create-slots u max email do_not_email rows many =
      let i = item u.code email do_not_email in
      let q = revoke_rows v u.code email rows in
      let (r, none_left, counted) = revoke_rows-Counts u.code email rows in
      let step : create v i rows ≡ (do_not_email || returns (v.send_mail i), q.1) =
        ap (λ x. with_mail v i (x, q.1)) r in
      (
        ap (λ x. x.0) step,
        ap (λ x. any (is_unredeemed u.code email) x.1) step ∙ none_left,
        ap (λ x. calculate_available_slots u max (num_assignments u.code x.1)) step
            ∙ more_slots u max _ _ _ many counted,
      )
