-- ===== src/Payments/Sparing.antt =====
-- Transactions that change one payment at most, from the calls of the client upwards.
use achflow.Prelude.{
  ℕ, Bool, true, false, ◌≡◌, refl, Option, none, some, find, update, if◌then◌else◌, arith, ◌==◌,
  String, ◌&&◌,
}
use achflow.Prelude.Int.{ℤ}
use achflow.Schema.{
  Db, Payment, Reservation, EntryKey, LedgerEntryType, OutboxEventType, MerchantDailyUsage, Tx,
  Result, Error, ok, err, pure, throw, gets, or_throw, throw_if, ◌>>=◌, ◌>>◌, when◌then◌else◌,
  either_row, has_id, update_payments, update_payment, update_reservation, create_reservation,
  create_entry, create_event, save_usage,
}
use achflow.Schema.Ids.{find-holds, find-update_any}
use achflow.Events.{create_lifecycle_event}

-- Every payment but that of an id stays as it is.
abbrev pub Spared : ℕ → Db → Db → Type 0
Spared id db db' =
    (j : ℕ) (p : Payment)
    → find (has_id j) db.payments ≡ some p
    → (j == id) ≡ false
    → find (has_id j) db'.payments ≡ some p

pub record Spares {A : Type 0} (id : ℕ) (m : Tx A) : Type 0 where
  pub spare : (db db' : Db) (a : A) → m db ≡ ok (a, db') → Spared id db db'

module _ {A B : Type 0} (id : ℕ) where
  pub bind-Spares :
      (m : Tx A) (f : A → Tx B) → Spares id m → ((a : A) → Spares id (f a)) → Spares id (m >>= f)
  bind-Spares m f k l = record { spare = λ db db' b h. go db db' b (m db) refl h }
    where
      go :
          (db db' : Db) (b : B) (r : Result (A × Db))
          → m db ≡ r
          → (elim r [ ok (a, d) ↦ f a d | err e ↦ err e ]) ≡ ok (b, db')
          → Spared id db db'
      go db db' b (ok (a, d)) e h j p found other =
          (l a).spare d db' b h j p (k.spare db d a e j p found other) other
      go db db' b (err x) e h j p found other = absurd (ground (arith, h))

  pub then-Spares : (m : Tx A) (k : Tx B) → Spares id m → Spares id k → Spares id (m >> k)
  then-Spares m k hm hk = bind-Spares m (λ _. k) hm (λ _. hk)

  pub either-Spares :
      (o : Option A) (m : Tx B) (f : A → Tx B)
      → Spares id m
      → ((a : A) → Spares id (f a))
      → Spares id (either_row o m f)
  either-Spares none m f h k = record { spare = λ db db' b e. h.spare db db' b e }
  either-Spares (some a) m f h k = record { spare = λ db db' b e. (k a).spare db db' b e }

same_payments : (id : ℕ) (db db' : Db) → db'.payments ≡ db.payments → Spared id db db'
same_payments id db db' e j p found other = rw e found

module _ {A : Type 0} (id : ℕ) where
  pub pure-Spares : (a : A) → Spares id (pure a)
  pure-Spares a = record { spare = λ db db' b h. same_payments id db db' (ground arith) }

  pub throw-Spares : (e : Error) → Spares id (throw {A = A} e)
  throw-Spares e = record { spare = λ db db' b h. cc }

  pub gets-Spares : (f : Db → A) → Spares id (gets f)
  gets-Spares f = record { spare = λ db db' b h. same_payments id db db' (ground arith) }

  pub or_throw-Spares : (o : Option A) (e : Error) → Spares id (or_throw o e)
  or_throw-Spares none e = record { spare = λ db db' b h. cc }
  or_throw-Spares (some a) e = record {
    spare = λ db db' b h. same_payments id db db' (ground arith);
  }

  pub when-Spares :
      (c : Bool) (m k : Tx A) → Spares id m → Spares id k → Spares id (when c then m else k)
  when-Spares true m k hm hk = record { spare = λ db db' b e. hm.spare db db' b e }
  when-Spares false m k hm hk = record { spare = λ db db' b e. hk.spare db db' b e }

module _ (id : ℕ) where
  pub throw_if-Spares : (c : Bool) (e : Error) → Spares id (throw_if c e)
  throw_if-Spares true e = record { spare = λ db db' b h. cc }
  throw_if-Spares false e = record { spare = λ db db' b h. same_payments id db db' (ground arith) }

  changed :
      (db db' : Db) (q : Payment → Bool) (f : Payment → Payment)
      → ((x : Payment) → q x ≡ true → has_id id x ≡ true)
      → ((x : Payment) → Payment.id (f x) ≡ x.id)
      → db'.payments ≡ update q f db.payments
      → Spared id db db'
  changed db db' q f own k e j p found other =
      let after = find-update_any (has_id j) q f db.payments p (λ x. rw (k x) refl) found in
      ground (arith, e, after, own p, find-holds (has_id j) db.payments p found, other)

  pub guarded-Spares :
      (q : Payment → Bool) (f : Payment → Payment)
      → ((x : Payment) → Payment.id (f x) ≡ x.id)
      → Spares id (update_payments (λ x. has_id id x && q x) f)
  unfolding update_payments
  guarded-Spares q f k = record {
    spare = λ db db' b h.
        changed db db' (λ x. has_id id x && q x) (λ x. record (f x) { updated_at = db.clock })
          (λ x e. ground (arith, e)) k (ground arith);
  }

  pub update_payment-Spares :
      (f : Payment → Payment)
      → ((x : Payment) → Payment.id (f x) ≡ x.id)
      → Spares id (update_payment id f)
  unfolding update_payment
  update_payment-Spares f k = record {
    spare = λ db db' b h.
        changed db db' (has_id id) (λ x. record (f x) { updated_at = db.clock }) (λ x e. e) k
          (ground arith);
  }

  pub update_reservation-Spares :
      (i : ℕ) (f : Reservation → Reservation) → Spares id (update_reservation i f)
  unfolding update_reservation
  update_reservation-Spares i f = record {
    spare = λ db db' b h. same_payments id db db' (ground arith);
  }

  pub create_reservation-Spares :
      (payment account : ℕ) (amount : ℤ) → Spares id (create_reservation payment account amount)
  unfolding create_reservation
  create_reservation-Spares payment account amount = record {
    spare = λ db db' b h. same_payments id db db' (ground arith);
  }

  pub create_entry-Spares :
      (key : EntryKey) (account : ℕ) (payment : Option ℕ) (type : LedgerEntryType) (amount : ℤ)
      → Spares id (create_entry key account payment type amount)
  unfolding create_entry
  create_entry-Spares key account payment type amount = record {
    spare = λ db db' b h. same_payments id db db' (ground arith);
  }

  pub event-Spares :
      (p : Payment) (t : OutboxEventType) (now : ℕ) (code : Option String)
      → Spares id (create_lifecycle_event p t now code)
  unfolding create_lifecycle_event create_event
  event-Spares p t now code = record {
    spare = λ db db' b h. same_payments id db db' (ground arith);
  }

  pub save_usage-Spares :
      (usage : Option MerchantDailyUsage) (merchant date : ℕ) (amount : ℤ)
      → Spares id (save_usage usage merchant date amount)
  unfolding save_usage
  save_usage-Spares usage merchant date amount = record {
    spare = λ db db' b h. same_payments id db db' (ground arith);
  }

pub ruleset sparing = (
  bind-Spares, then-Spares, either-Spares, pure-Spares, throw-Spares, gets-Spares, or_throw-Spares,
  when-Spares, throw_if-Spares, update_payment-Spares, guarded-Spares, update_reservation-Spares,
  create_reservation-Spares, create_entry-Spares, event-Spares, save_usage-Spares,
)
