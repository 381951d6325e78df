-- ===== src/Simulator/Funding.antt =====
-- `provisionDemoFunding` of the API's admin/admin-simulator.service.ts.
use achflow.Prelude.{ℕ, suc, String, Bool, true, false, not, none, ◌∷◌, same}
use achflow.Prelude.Int.{ℤ, pos, leb_ℤ}
use achflow.Schema.{
  FundingAccount, FundingAccountStatus, account_status_discrete, LedgerEntryType, demo_funding_key,
  Tx, ok, pure, gets, or_throw, throw_if, ◌>>=◌, ◌>>◌, either_row, bad_request, not_found,
  find_merchant, find_account, find_entry, create_entry, demo_funding_not_positive,
  merchant_not_found, funding_account_not_active,
}

pub record Provisioned : Type 0 where
  pub funding_account_id : ℕ
  pub currency : String
  pub amount_cents : ℤ
  pub provisioned : Bool

-- The `create` of `fundingAccount.upsert`, whose `update` changes nothing.
unfoldable pub create_account : (merchant : ℕ) → (currency : String) → Tx FundingAccount
create_account merchant currency db =
    let a : FundingAccount = record {
      id = db.next_id;
      merchant_id = merchant;
      currency = currency;
      status = FundingAccountStatus.active;
    } in
    ok (a, record db { next_id = suc db.next_id; funding_accounts = a ∷ db.funding_accounts })

abbrev pub is_active_account : FundingAccount → Bool
is_active_account a = same (account_status_discrete a.status FundingAccountStatus.active)

-- The entry is created once for each merchant and currency.
unfoldable pub fund : (merchant : ℕ) → String → ℤ → FundingAccount → Tx Provisioned
fund merchant currency amount account = do
  existing ← gets (find_entry (demo_funding_key merchant currency))
  either_row existing
      (do
        create_entry (demo_funding_key merchant currency) account.id none
            LedgerEntryType.initial_credit amount
        pure (record {
          funding_account_id = account.id;
          currency = currency;
          amount_cents = amount;
          provisioned = true;
        }))
      λ e. pure (record {
        funding_account_id = account.id;
        currency = currency;
        amount_cents = e.amount;
        provisioned = false;
      })

-- `provisionDemoFunding`, with the currency in upper case.
unfoldable pub provision_demo_funding : (merchant : ℕ) → String → ℤ → Tx Provisioned
unfolding create_account fund
provision_demo_funding merchant currency amount = do
  throw_if (leb_ℤ amount (pos 0)) (bad_request demo_funding_not_positive)
  found ← gets (find_merchant merchant)
  m ← or_throw found (not_found merchant_not_found)
  row ← gets (find_account merchant currency)
  account ← either_row row (create_account merchant currency) λ a. pure a
  throw_if (not (is_active_account account)) (bad_request funding_account_not_active)
  fund merchant currency amount account
