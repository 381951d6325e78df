-- ===== src/Agreement/Requirements.antt =====
-- `validatePayment` of the worker against the condition in `validate` of the API.
use achflow.Prelude.{◌≡◌, not, some, arith}
use achflow.Schema.{Merchant}
use achflow.Lifecycle.Transition.{PaymentForValidation, is_validated}
use achflow.Validation.{validate_payment}
use achflow.Engine.Validating.{fails_requirements}

-- The worker and the API accept the same payments: the worker's basic validation passes exactly
-- where the API's condition for a refusal is false.
pub requirements_agree :
    (pv : PaymentForValidation) (m : Merchant)
    → pv.merchant ≡ some m
    → is_validated (validate_payment pv).status ≡ not (fails_requirements pv.payment m)
unfolding validate_payment fails_requirements
requirements_agree pv m e = ground arith
