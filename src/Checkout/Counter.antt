-- ===== src/Checkout/Counter.antt =====
-- The uses of a code that one customer may use many times: what the tables hold of them is a pair of
-- counters.
use edx_ecommerce.Base.{
  ℕ, zero, suc, ◌+◌, ◌-◌, ◌≡◌, refl, ap, ap₂, sym, ◌∙◌, Bool, true, false, Option, some, List, [],
  ◌∷◌, ◌++◌, ltb, length, keep, ⊤, Bool-cases, inl, inr, arith, keep-append, length-append,
}
use mathlib.Core.List.{append-nil}
use edx_ecommerce.Base.Action.{Result, ok, raised, pure, ◌>>◌}
use edx_ecommerce.Voucher.{AssignmentStatus, Voucher, VoucherOffer, enterprise_offer}
use edx_ecommerce.Checkout.Codes.{
  Assignment, Tables, is_for, is_open_for, copies, fresh, fill_up, with_copies,
  is_multi_use_per_customer, create_for, redeem_first, with_redeemed, redeem_for, is_found,
  create_assignments_for_multi_use_per_customer, update_assigned_voucher_offer_assignment,
  when_offer,
}

-- How many assignments were issued to the customer, and how many of them are not used.
pub record Uses : Type 0 where
  pub issued : ℕ
  pub left : ℕ

-- One order with the code: the uses are filled up to the limit, and one is taken.
abbrev pub use_code : (max : ℕ) → Uses → Uses
use_code max s = record {
  issued = s.issued + (max - s.issued);
  left = s.left + (max - s.issued) - 1;
}

abbrev pub uses_in : (offer code email : ℕ) → List Assignment → Uses
uses_in offer code email rows = record {
  issued = length (keep (is_for code email) rows);
  left = length (keep (is_open_for offer code email) rows);
}

-- The calls that `handle_successful_order` makes one after the other.
unfoldable pub redeem_code :
    Option Voucher → (email : ℕ) → (application : Option ℕ) → Tables → Result ⊤ × Tables
unfolding create_assignments_for_multi_use_per_customer update_assigned_voucher_offer_assignment
redeem_code u email application =
    create_assignments_for_multi_use_per_customer u email
    >> update_assigned_voucher_offer_assignment u email application

module _ (p : Assignment → Bool) (a : Assignment) (h : p a ≡ true) where
  length-copies : (n : ℕ) → length (keep p (copies n a)) ≡ n
  unfolding copies
  length-copies zero = refl
  length-copies (suc n) = ground (arith, length-copies n, h)

  length-keep-copies :
      (n : ℕ) (rows : List Assignment)
      → length (keep p (rows ++ copies n a)) ≡ length (keep p rows) + n
  length-keep-copies n rows =
      ap length (keep-append p rows (copies n a))
      ∙ length-append (keep p rows) (keep p (copies n a))
      ∙ ap (λ k. length (keep p rows) + k) (length-copies n)

-- A test that does not read the status, and one that the redeemed row no longer passes.
redeem_first-kept :
    (p q : Assignment → Bool) (application : Option ℕ) (rows : List Assignment)
    → ((a : Assignment)
        → q (record a { status = AssignmentStatus.redeemed; voucher_application = application })
          ≡ q a)
    → length (keep q (redeem_first p application rows)) ≡ length (keep q rows)
unfolding redeem_first
redeem_first-kept p q application [] h = refl
redeem_first-kept p q application (a ∷ rows) h =
    ground (arith, redeem_first-kept p q application rows h, h a)

redeem_first-fewer :
    (p : Assignment → Bool) (application : Option ℕ) (rows : List Assignment)
    → ((a : Assignment)
        → p (record a { status = AssignmentStatus.redeemed; voucher_application = application })
          ≡ false)
    → length (keep p (redeem_first p application rows)) ≡ length (keep p rows) - 1
unfolding redeem_first
redeem_first-fewer p application [] h = refl
redeem_first-fewer p application (a ∷ rows) h =
    ground (arith, redeem_first-fewer p application rows h, h a)

pub fill_up-some :
    (max existing : ℕ) (a : Assignment) (t : Tables)
    → fill_up (some max) existing a t ≡ (ok tt, with_copies (max - existing) a t)
unfolding fill_up copies
fill_up-some max existing a t = elim (Bool-cases (ltb existing max)) [
  | inl e ↦ rw (fill_up, e) refl
  | inr e ↦
      let none_left : max - existing ≡ 0 = ground (arith, e) in
      rw (fill_up, e, none_left)
        (ap (λ rows. (ok tt, record t { assignments = rows })) (sym (append-nil t.assignments)))
]

not_found : (rows : List Assignment) → is_found rows ≡ false → length rows ≡ 0
not_found [] h = refl
not_found (a ∷ rows) h = cc

module _ (offer code email : ℕ) where
  abbrev of_user : Assignment → Bool
  of_user = is_for code email

  abbrev usable : Assignment → Bool
  usable = is_open_for offer code email

  is_for_redeemed :
      (application : Option ℕ) (a : Assignment)
      → is_for code email
          (record a { status = AssignmentStatus.redeemed; voucher_application = application })
        ≡ is_for code email a
  is_for_redeemed application a = refl

  not_usable :
      (application : Option ℕ) (a : Assignment)
      → is_open_for offer code email
          (record a { status = AssignmentStatus.redeemed; voucher_application = application })
        ≡ false
  not_usable application a = ground arith

  with_redeemed-uses :
      (application : Option ℕ) (t : Tables)
      → uses_in offer code email (with_redeemed offer code email application t).assignments
        ≡ (record {
          issued = length (keep of_user t.assignments);
          left = length (keep usable t.assignments) - 1;
        })
  unfolding with_redeemed
  with_redeemed-uses application t = elim (Bool-cases (is_found (keep usable t.assignments))) [
    | inl e ↦
        rw (with_redeemed, e)
          (ap₂ (λ i l. record { issued = i; left = l })
            (redeem_first-kept usable of_user application t.assignments
              (is_for_redeemed application))
            (redeem_first-fewer usable application t.assignments (not_usable application)))
    | inr e ↦ rw (with_redeemed, e, not_found (keep usable t.assignments) e) refl
  ]

  filled-uses :
      (n : ℕ) (t : Tables)
      → uses_in offer code email (with_copies n (fresh offer code email) t).assignments ≡ (record {
        issued = length (keep of_user t.assignments) + n;
        left = length (keep usable t.assignments) + n;
      })
  filled-uses n t =
      ap₂ (λ i l. record { issued = i; left = l })
        (length-keep-copies of_user (fresh offer code email) (ground arith) n t.assignments)
        (length-keep-copies usable (fresh offer code email) (ground arith) n t.assignments)

-- What `n` orders with the code make of the counters.
abbrev pub use_codes : (max n : ℕ) → Uses → Uses
use_codes max zero s = s
use_codes max (suc n) s = use_codes max n (use_code max s)

-- The orders one after the other, each with its application of the voucher.
unfoldable pub redeem_codes :
    Option Voucher → (email : ℕ) → (applications : List (Option ℕ)) → Tables → Result ⊤ × Tables
unfolding redeem_code
redeem_codes u email [] = pure tt
redeem_codes u email (a ∷ others) = redeem_code u email a >> redeem_codes u email others

module _ (u : Voucher) (email max : ℕ) (o : VoucherOffer) where
  abbrev uses : Tables → Uses
  uses t = uses_in o.offer.id u.code email t.assignments

  abbrev filled : Tables → Tables
  filled t =
      with_copies (max - length (keep (is_for u.code email) t.assignments))
        (fresh o.offer.id u.code email) t

  abbrev after : Option ℕ → Tables → Tables
  after a t = with_redeemed o.offer.id u.code email a (filled t)

  after-uses : (a : Option ℕ) (t : Tables) → uses (after a t) ≡ use_code max (uses t)
  after-uses a t =
      let n = max - length (keep (is_for u.code email) t.assignments) in
      with_redeemed-uses o.offer.id u.code email a (filled t)
      ∙ ap (λ (s : Uses). record { issued = s.issued; left = s.left - 1 })
          (filled-uses o.offer.id u.code email n t)

  module _ (offered : enterprise_offer u.offers ≡ some o)
      (usage : is_multi_use_per_customer u.usage ≡ true)
      (limit : o.offer.max_global_applications ≡ some max) where
    create_lem :
        (t : Tables)
        → create_assignments_for_multi_use_per_customer (some u) email t ≡ (ok tt, filled t)
    unfolding create_assignments_for_multi_use_per_customer create_for
    create_lem t =
        ap (λ x. when_offer x (create_for u email) t) offered
        ∙ rw (create_for, usage, limit)
            (fill_up-some max (length (keep (is_for u.code email) t.assignments))
              (fresh o.offer.id u.code email) t)

    update_lem :
        (a : Option ℕ) (t : Tables)
        → update_assigned_voucher_offer_assignment (some u) email a t
          ≡ (ok tt, with_redeemed o.offer.id u.code email a t)
    unfolding update_assigned_voucher_offer_assignment
    update_lem a t = ap (λ x. when_offer x (redeem_for u email a) t) offered

    redeem_code_lem :
        (a : Option ℕ) (t : Tables) → redeem_code (some u) email a t ≡ (ok tt, after a t)
    unfolding redeem_code
    redeem_code_lem a t =
        ap
          (λ q. elim q.0 as (λ r. Result ⊤ × Tables) [
            | ok v ↦ update_assigned_voucher_offer_assignment (some u) email a q.1
            | raised e ↦ (raised e, q.1)
          ])
          (create_lem t)
        ∙ update_lem a (filled t)

    -- The tables refine the counters: if the voucher is for many uses by one customer, and its
    -- enterprise offer has a limit, then after any number of orders of one customer with the code all
    -- the calls have returned, and the assignments of the customer and those among them that can
    -- still be used are as many as the counters say, started at what the tables held.
    pub redeem_codes-use_codes :
        (applications : List (Option ℕ)) (t : Tables)
        → ((redeem_codes (some u) email applications t).0 ≡ ok tt)
          × (uses_in o.offer.id u.code email
                (redeem_codes (some u) email applications t).1.assignments
              ≡ use_codes max (length applications) (uses_in o.offer.id u.code email t.assignments))
    unfolding redeem_codes
    redeem_codes-use_codes [] t = (refl, refl)
    redeem_codes-use_codes (a ∷ others) t =
        let step =
          ap
            (λ q. elim q.0 as (λ r. Result ⊤ × Tables) [
              | ok v ↦ redeem_codes (some u) email others q.1
              | raised e ↦ (raised e, q.1)
            ])
            (redeem_code_lem a t) in
        let (done, counted) = redeem_codes-use_codes others (after a t) in
        (
          ap (λ q. q.0) step ∙ done,
          ap (λ q. uses q.1) step ∙ counted ∙ ap (use_codes max (length others)) (after-uses a t),
        )
