-- ===== src/Payment/Tests.antt =====
-- The truncation at concrete inputs, and the theorem about it applied there.
use edx_ecommerce.Base.{◌≡◌, refl, [], ◌∷◌, arith}
use edx_ecommerce.Base.Action.{ok, raised, value_error}
use edx_ecommerce.Payment.Truncate.{Text, middle_truncate, IsShort, middle_truncate-IsShort}

abbrev dots : Text
dots = b'.' ∷ b'.' ∷ b'.' ∷ []

abbrev title : Text
title = b'a' ∷ b'b' ∷ b'c' ∷ b'd' ∷ b'e' ∷ b'f' ∷ b'g' ∷ b'h' ∷ []

shortened : middle_truncate dots title 7 ≡ ok (b'a' ∷ b'b' ∷ b'.' ∷ b'.' ∷ b'.' ∷ b'g' ∷ b'h' ∷ [])
unfolding middle_truncate
shortened = refl

-- A limit of four characters gives eleven.
not_shortened :
    middle_truncate dots title 4
    ≡ ok (b'.' ∷ b'.' ∷ b'.' ∷ b'a' ∷ b'b' ∷ b'c' ∷ b'd' ∷ b'e' ∷ b'f' ∷ b'g' ∷ b'h' ∷ [])
unfolding middle_truncate
not_shortened = refl

no_room : middle_truncate dots title 2 ≡ raised value_error
unfolding middle_truncate
no_room = refl

middle_truncate-IsShort_example : IsShort 7 (middle_truncate dots title 7)
middle_truncate-IsShort_example = middle_truncate-IsShort dots title 7 (omega arith)
