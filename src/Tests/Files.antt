-- ===== src/Tests/Files.antt =====
-- Instances of the theorems on the text of NACHA files.
use achflow.Prelude.{◌≡◌, refl, some, [], ◌∷◌, List, length, arith, All}
use achflow.Prelude.Int.{pos}
use achflow.Schema.{Payment, PaymentDirection, PaymentStatus}
use achflow.Nacha.Text.{Units, utf16, big_int, cents}
use achflow.Nacha.Records.{nacha_lines}
use achflow.Nacha.Shape.{IsBlocked, IsNumeric, nacha_lines-IsBlocked}
use achflow.Nacha.Amounts.{cents_round_trip}
use achflow.Tests.Sample.{merchant, payment}

abbrev credit : Payment
credit = payment 15 PaymentDirection.credit PaymentStatus.validated 900

abbrev debit : Payment
debit = payment 14 PaymentDirection.debit PaymentStatus.validated 600

-- The routing number of both payments.
routing-IsNumeric : IsNumeric credit
unfolding utf16
routing-IsNumeric = (refl, (refl, (refl, (refl, (refl, (refl, (refl, (refl, (refl, tt)))))))))

pub both-IsNumeric : All IsNumeric (debit ∷ credit ∷ [])
both-IsNumeric = (routing-IsNumeric, (routing-IsNumeric, tt))

nacha_lines-IsBlocked_example :
    (lines : List Units) × (nacha_lines merchant (utf16 "261126") (debit ∷ credit ∷ [])
      ≡ some lines)
    × IsBlocked lines
nacha_lines-IsBlocked_example =
    nacha_lines-IsBlocked merchant (utf16 "261126") (debit ∷ credit ∷ []) both-IsNumeric

cents_round_trip_example :
    (big_int (cents (pos 4200)) ≡ some 4200) × (length (cents (pos 4200)) ≡ 10)
cents_round_trip_example = cents_round_trip 4200 (omega arith)
