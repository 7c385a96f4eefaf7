-- ===== src/Order/Number.antt =====
-- `OrderNumberGenerator` of ecommerce/extensions/order/utils.py.
use edx_ecommerce.Base.{
  ℕ, ◌+◌, ◌-◌, ◌≡◌, refl, ap, ◌∙◌, true, ◌&&◌, Option, none, some, List, [], ◌∷◌, ◌++◌, leb,
  if◌then◌else◌, map, arith,
}
use mathlib.Core.List.{append_assoc}
use edx_ecommerce.Base.Action.{Result, ok, raised, index_error, value_error}
use edx_ecommerce.Base.Int.{ℤ, pos, ◌-ℤ◌}
use edx_ecommerce.Order.Text.{
  Text, dash, digits, parse_int, split, lacks_dash, parse_int-digits, split-append, split_lem,
  digits-lacks_dash,
}

-- `OFFSET`
abbrev pub offset : ℕ
offset = 100000

-- `upper` on the letters of ASCII, which short codes are made of.
abbrev pub to_upper : ℕ → ℕ
to_upper c = if leb b'a' c && leb c b'z' then c - 32 else c

-- `partner` is the partner's short code.
unfoldable pub order_number_from_basket_id : (partner : Text) → (basket_id : ℕ) → Text
unfolding digits
order_number_from_basket_id partner basket_id =
    map to_upper partner ++ dash ∷ digits (basket_id + offset)

-- A basket's site, or else that of the request, by its partner's short code.
unfoldable pub order_number : (site : Option Text) → (request_site : Text) → (basket_id : ℕ) → Text
unfolding order_number_from_basket_id
order_number none request_site basket_id = order_number_from_basket_id request_site basket_id
order_number (some site) request_site basket_id = order_number_from_basket_id site basket_id

abbrev pub minus_offset : Option ℕ → Result ℤ
minus_offset none = raised value_error
minus_offset (some order_id) = ok (pos order_id -ℤ pos offset)

abbrev pub by_part : List Text → Result ℤ
by_part [] = raised index_error
by_part (part ∷ parts) = minus_offset (parse_int part)

unfoldable pub basket_id : Text → Result ℤ
unfolding split parse_int ◌-ℤ◌
basket_id number = by_part (split number).1

to_upper-lacks_dash : (p : Text) → lacks_dash p ≡ true → lacks_dash (map to_upper p) ≡ true
to_upper-lacks_dash [] h = refl
to_upper-lacks_dash (c ∷ p) h = ground (arith, to_upper-lacks_dash p)

pos_offset : (n : ℕ) → pos (n + offset) -ℤ pos offset ≡ pos n
unfolding ◌-ℤ◌
pos_offset n = ground arith

second :
    (p : Text) (n : ℕ)
    → lacks_dash p ≡ true
    → basket_id (p ++ dash ∷ digits n) ≡ minus_offset (some n)
unfolding basket_id
second p n h =
    ap (λ q. by_part q.1) (split-append p (digits n) h)
    ∙ ap (λ q. minus_offset (parse_int q.0)) (split_lem (digits n) (digits-lacks_dash n))
    ∙ ap minus_offset (parse_int-digits n)

-- If the partner's short code has no dash, `basket_id` gives back the id of the basket that an order
-- number was made for.
pub basket_id-order_number :
    (partner : Text) (n : ℕ)
    → lacks_dash partner ≡ true
    → basket_id (order_number_from_basket_id partner n) ≡ ok (pos n)
unfolding order_number_from_basket_id
basket_id-order_number partner n h =
    second (map to_upper partner) (n + offset) (to_upper-lacks_dash partner h)
    ∙ ap ok (pos_offset n)

map-dashed : (p q : Text) → map to_upper (p ++ dash ∷ q) ≡ map to_upper p ++ dash ∷ map to_upper q
map-dashed [] q = refl
map-dashed (c ∷ p) q = ap (λ s. to_upper c ∷ s) (map-dashed p q)

split-first : (s r : Text) → (split (s ++ dash ∷ r)).0 ≡ (split s).0
unfolding split
split-first [] r = refl
split-first (c ∷ s) r = ground (arith, split-first s r)

-- If the partner's short code has a dash, `basket_id` reads the part of it between its first dash and
-- the next one or its end, so it gives the same answer for all baskets of that partner.
pub basket_id-dashed :
    (p q : Text) (n : ℕ)
    → lacks_dash p ≡ true
    → basket_id (order_number_from_basket_id (p ++ dash ∷ q) n)
      ≡ minus_offset (parse_int (split (map to_upper q)).0)
unfolding order_number_from_basket_id basket_id
basket_id-dashed p q n h =
    let rest = map to_upper q ++ dash ∷ digits (n + offset) in
    ap (λ s. by_part (split (s ++ dash ∷ digits (n + offset))).1) (map-dashed p q)
    ∙ ap (λ s. by_part (split s).1)
        (append_assoc (map to_upper p) (dash ∷ map to_upper q) (dash ∷ digits (n + offset)))
    ∙ ap (λ x. by_part x.1) (split-append (map to_upper p) rest (to_upper-lacks_dash p h))
    ∙ ap (λ s. minus_offset (parse_int s)) (split-first (map to_upper q) (digits (n + offset)))
