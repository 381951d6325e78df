-- ===== src/Schema/Actions.antt =====
-- Sequencing of what runs outside a transaction.
use achflow.Schema.Store.{ok, err, Action, Error}

module _ {A : Type 0} where
  abbrev pub return : A → Action A
  return a db = (ok a, db)

  abbrev pub fail : Error → Action A
  fail e db = (err e, db)

infixl 5 ◌>>=◌ ◌>>◌
abbrev pub ◌>>=◌ : {A B : Type 0} → Action A → (A → Action B) → Action B
◌>>=◌ m f db = let (r, db') = m db in elim r [ ok a ↦ f a db' | err e ↦ (err e, db') ]

abbrev pub ◌>>◌ : {A B : Type 0} → Action A → Action B → Action B
m >> k = m >>= λ _. k
