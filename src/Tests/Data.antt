-- ===== src/Tests/Data.antt =====
-- A tenant with its lender, a borrower with a loan and a contract, plans, a subscription, wallets.
use coloanex_prod.Common.{Bool, Option, [], false, none, some, true, ℕ, ◌*◌, ◌+◌, ◌∷◌}
use coloanex_prod.Common.Text.{codes}
use coloanex_prod.Common.Int.{pos}
use coloanex_prod.Db.{
  User, Role, lender, platform_wallet, Wallet, WalletPurpose, primary, gas, WalletProvider, web,
  SubscriptionPlan, Subscription, SubscriptionScope, tenant_scope, user_scope, SubscriptionStatus,
  Loan, LoanStatus, Rule, Contract, ContractStatus, PaymentFrequency, TransactionType,
  TransactionStatus, pays_platform, Transaction, PaymentSchedule, InstallmentStatus, Db,
}
use coloanex_prod.Service.{Calendar, JwtPayload, Env}

abbrev pub lender_user : User
lender_user = record {
  id = 1;
  tenant_id = some 10;
  gas_payment_mode = platform_wallet;
  roles = lender ∷ [];
}

abbrev pub borrower_user : User
borrower_user = record {
  id = 2;
  tenant_id = none;
  gas_payment_mode = platform_wallet;
  roles = Role.borrower ∷ [];
}

abbrev pub wallet_of : ℕ → WalletPurpose → Bool → Wallet
wallet_of id purpose first = record {
  id = id;
  user_id = 1;
  provider = WalletProvider.metamask;
  purpose = purpose;
  address = id;
  label = none;
  is_primary = first;
  platform = web;
  is_active = true;
  created_at = 5;
  updated_at = 5;
}

abbrev pub plan_with : ℕ → SubscriptionScope → ℕ → SubscriptionPlan
plan_with code scope price = record {
  id = code;
  code = code;
  scope = scope;
  price = price;
  max_transactions = 10;
  billing_cycle = codes "MONTHLY";
  usage_window_days = 0;
  duration_days = 0;
  is_active = true;
}

abbrev pub subscription_of : ℕ → ℕ → Bool → Subscription
subscription_of id plan selected = record {
  id = id;
  scope = tenant_scope;
  plan = plan;
  status = SubscriptionStatus.active;
  user_id = none;
  tenant_id = some 10;
  starts_at = 10;
  ends_at = none;
  usage_count = 3;
  usage_window_start = some 500;
  selected = selected;
  payment_transaction_id = none;
  created_by = none;
  created_at = id;
}

abbrev pub rule : Rule
rule = record {
  id = 60;
  tenant_id = 10;
  interest_rate = 1200;
  allowed_frequencies = PaymentFrequency.monthly ∷ [];
  is_active = true;
  is_publicly_visible = true;
  blockchain_tx_hash = none;
  has_chain_data = false;
}

abbrev pub loan : Loan
loan = record {
  id = 30;
  tenant_id = 10;
  borrower_id = 20;
  rule_id = none;
  requested_amount = 100000;
  approved_amount = none;
  requested_term_months = 12;
  approved_term_months = none;
  purpose = 0;
  collateral_details = 0;
  status = LoanStatus.contract_generated;
  rejection_reason = none;
  blockchain_tx_hash = none;
  created_at = 7;
}

abbrev pub contract : Contract
contract = record {
  id = 40;
  tenant_id = 10;
  borrower_id = 20;
  loan_id = 30;
  rule_id = 60;
  status = ContractStatus.generated;
  start_date = 2000;
  loan_amount = 100000;
  interest_rate = 1200;
  term_months = 12;
  payment_frequency = PaymentFrequency.monthly;
  installment_amount = 9333;
  total_installments = 12;
  total_amount_due = 112000;
  total_amount_paid = pos 0;
  outstanding_balance = pos 112000;
  signatures = [];
  disbursement_info = none;
  contract_pdf_url = none;
  blockchain_tx_hash = none;
  sign_tx_hash = none;
  report_reason = none;
  signed_at = none;
}

abbrev pub payment_of : ℕ → TransactionType → ℕ → Option ℕ → Transaction
payment_of id type amount contract_id = record {
  id = id;
  sent_by = 1;
  received_by = 0;
  type = type;
  amount = amount;
  status = TransactionStatus.completed;
  contract_id = contract_id;
  payment_schedule_id = none;
  transaction_uuid = some id;
  gas_payment_mode = platform_wallet;
  gas_paid_by = pays_platform;
  wallet_id = none;
  platform = web;
  subscription_id = none;
  blockchain_tx_hash = none;
  completed_at = none;
  created_at = 8;
}

abbrev pub installment : PaymentSchedule
installment = record {
  id = 70;
  contract_id = 40;
  installment_number = 1;
  due_date = 3000;
  principal_amount = 8333;
  interest_amount = 1000;
  total_amount = 9333;
  amount_paid = 0;
  status = InstallmentStatus.pending;
  paid_at = none;
}

abbrev pub db : Db
db = record {
  users = lender_user ∷ borrower_user ∷ [];
  wallets = wallet_of 80 primary true ∷ wallet_of 81 gas false ∷ [];
  plans = plan_with 5 tenant_scope 0 ∷ plan_with 6 user_scope 500 ∷ [];
  subscriptions = subscription_of 90 5 true ∷ subscription_of 91 5 false ∷ [];
  borrowers = record { id = 20; user_id = 2; tenant_id = 10 } ∷ [];
  loans = loan ∷ [];
  rules = rule ∷ [];
  contracts = contract ∷ [];
  schedules = installment ∷ [];
  transactions =
      payment_of 50 TransactionType.disbursement 100000 (some 40)
      ∷ payment_of 51 TransactionType.fee 500 none
      ∷ [];
  logs = [];
}

abbrev pub lender_jwt : JwtPayload
lender_jwt = record { sub = 1; tenant_id = some 10; roles = lender ∷ [] }

abbrev pub borrower_jwt : JwtPayload
borrower_jwt = record { sub = 2; tenant_id = none; roles = Role.borrower ∷ [] }

abbrev pub calendar : Calendar
calendar = record { add_days = λ t n. t + n; add_months = λ t n. t + 30 * n }

abbrev pub env : Env
env = record {
  now = 1000;
  uuid = λ i. 900 + i;
  chain = record { enabled = false; ready = false; reply = none };
  calendar = calendar;
}
