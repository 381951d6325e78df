-- ===== src/Course/Histories.antt =====
-- Sequences of requests: what the machine promises of every history.
use achflow.Prelude.{ℕ, ◌≡◌, refl, sym, Bool, true, false, some, inl, inr, arith}
use achflow.Schema.{Db, Payment, PaymentStatus, find_payment}
use achflow.Course.Machine.{Route, start, along, Move, is_edge}
use achflow.Course.Requests.{Request, Sound, Request-Course, Request-WellFormed}

pub data Served (db : Db) : Db → Type 0 where
  none_yet : Served db db
  serve : {db1 db2 : Db} → Served db db1 → Request db1 db2 → Served db db2

-- Every request keeps the store sound.
Request-Sound : {db db' : Db} → Sound db → Request db db' → Sound db'
Request-Sound s q = record {
  ordered = Request-WellFormed s.ordered q;
  coherent = (Request-Course s q).1;
}

-- Over any sequence of whole creations, validations, reservations, settlements, returns and
-- releases of payments, generations of files, bank reports, claims, recoveries and marks of outbox
-- events, tests of endpoints, demo fundings, creations, key rotations and status changes of
-- merchants, and ticks of the clock, a sound store stays sound: its rows are in the order of their
-- ids, and no reservation is settled without its payment being settled.
pub Served-Sound : {db db' : Db} → Sound db → Served db db' → Sound db'
Served-Sound s none_yet = s
Served-Sound s (serve before q) = Request-Sound (Served-Sound s before) q

-- From a sound store, over any sequence of whole creations, validations, reservations, settlements,
-- returns and releases of payments, generations of files, bank reports, claims, recoveries and
-- marks of outbox events, tests of endpoints, demo fundings, creations, key rotations and status
-- changes of merchants, and ticks of the clock, every payment stays and goes along a path of the
-- machine RECEIVED to VALIDATED or VALIDATION_FAILED, VALIDATED to SUBMITTED to SETTLED to
-- RETURNED.
pub Served-Route :
    {db db' : Db} (j : ℕ) (p : Payment)
    → Sound db
    → Served db db'
    → find_payment j db ≡ some p
    → (p' : Payment) × (find_payment j db' ≡ some p') × Route p.status p'.status
Served-Route j p s none_yet e = (p, e, start)
Served-Route j p s (serve before q) e =
    let (p1, e1, path) = Served-Route j p s before e in
    let (p2, e2, move) = (Request-Course (Served-Sound s before) q).0 j p1 e1 in
    (p2, e2, along path move)

-- The statuses that no edge leaves.
unfoldable pub is_final : PaymentStatus → Bool
is_final PaymentStatus.received = false
is_final PaymentStatus.validated = false
is_final PaymentStatus.submitted = false
is_final PaymentStatus.settled = false
is_final _ = true

final-Move : (s t : PaymentStatus) → is_final s ≡ true → Move s t → t ≡ s
unfolding is_final is_edge
final-Move s t f (inl e) = e
final-Move s t f (inr e) = absurd (ground (arith, f, e))

final-Route : {s t : PaymentStatus} → is_final s ≡ true → Route s t → t ≡ s
final-Route f start = refl
final-Route {s} f (along {t} {u} path m) =
    let same_status = final-Route f path in
    rw (sym same_status) (final-Move t u (rw same_status f) m)

-- A payment that was returned, or that failed validation, has that status after any sequence of the
-- requests.
final_stays :
    {db db' : Db} (j : ℕ) (p : Payment)
    → Sound db
    → Served db db'
    → find_payment j db ≡ some p
    → is_final p.status ≡ true
    → (p' : Payment) × (find_payment j db' ≡ some p') × (p'.status ≡ p.status)
final_stays j p s served e f =
    let (p', e', path) = Served-Route j p s served e in (p', e', final-Route f path)
