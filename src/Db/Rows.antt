-- ===== src/Db/Rows.antt =====
-- The rows of coloanex-api/prisma/schema.prisma, with the columns that the modelled code uses.
-- Identifiers and texts that are only compared are numbers, instants are milliseconds, and amounts
-- are whole hundredths of the currency unit (the columns are Decimal(20, 2)).
use coloanex_prod.Common.{Bool, List, Option, ℕ}
use coloanex_prod.Common.Int.{ℤ}

-- A role's name; every name that no service tests for is `other`.
pub data Role : Type 0 where
  super_admin borrower lender : Role
  other : ℕ → Role

pub data GasPaymentMode : Type 0 where
  user_wallet platform_wallet auto : GasPaymentMode

pub data PlatformType : Type 0 where
  web app : PlatformType

pub record User : Type 0 where
  pub id : ℕ
  pub tenant_id : Option ℕ
  pub gas_payment_mode : GasPaymentMode
  pub roles : List Role

pub data WalletProvider : Type 0 where
  metamask expo_secure esewa khalti : WalletProvider

pub data WalletPurpose : Type 0 where
  primary gas receive_esewa receive_khalti general : WalletPurpose

pub record Wallet : Type 0 where
  pub id : ℕ
  pub user_id : ℕ
  pub provider : WalletProvider
  pub purpose : WalletPurpose
  pub address : ℕ
  pub label : Option ℕ
  pub is_primary : Bool
  pub platform : PlatformType
  pub is_active : Bool
  pub created_at : ℕ
  pub updated_at : ℕ

pub data SubscriptionScope : Type 0 where
  user_scope tenant_scope : SubscriptionScope

-- `features.usageWindowDays` and `features.durationDays` are 0 where they are missing or no number.
pub record SubscriptionPlan : Type 0 where
  pub id : ℕ
  pub code : ℕ
  pub scope : SubscriptionScope
  pub price : ℕ
  pub max_transactions : ℕ
  pub billing_cycle : List ℕ
  pub usage_window_days : ℕ
  pub duration_days : ℕ
  pub is_active : Bool

pub data SubscriptionStatus : Type 0 where
  active inactive expired cancelled : SubscriptionStatus

-- `selected` and `payment_transaction_id` are the two keys of `metadata`.
pub record Subscription : Type 0 where
  pub id : ℕ
  pub scope : SubscriptionScope
  pub plan : ℕ
  pub status : SubscriptionStatus
  pub user_id : Option ℕ
  pub tenant_id : Option ℕ
  pub starts_at : ℕ
  pub ends_at : Option ℕ
  pub usage_count : ℕ
  pub usage_window_start : Option ℕ
  pub selected : Bool
  pub payment_transaction_id : Option ℕ
  pub created_by : Option ℕ
  pub created_at : ℕ

pub record Borrower : Type 0 where
  pub id : ℕ
  pub user_id : ℕ
  pub tenant_id : ℕ

pub data LoanStatus : Type 0 where
  draft submitted under_review approved rejected : LoanStatus
  contract_generated contract_signed loan_provided : LoanStatus

pub record Loan : Type 0 where
  pub id : ℕ
  pub tenant_id : ℕ
  pub borrower_id : ℕ
  pub rule_id : Option ℕ
  pub requested_amount : ℕ
  pub approved_amount : Option ℕ
  pub requested_term_months : ℕ
  pub approved_term_months : Option ℕ
  pub purpose : ℕ
  pub collateral_details : ℕ
  pub status : LoanStatus
  pub rejection_reason : Option ℕ
  pub blockchain_tx_hash : Option ℕ
  pub created_at : ℕ

pub data PaymentFrequency : Type 0 where
  weekly monthly quarterly : PaymentFrequency

-- The interest rate is in hundredths of a percent; `allowed_frequencies` is `paymentConfig`'s list.
pub record Rule : Type 0 where
  pub id : ℕ
  pub tenant_id : ℕ
  pub interest_rate : ℕ
  pub allowed_frequencies : List PaymentFrequency
  pub is_active : Bool
  pub is_publicly_visible : Bool
  pub blockchain_tx_hash : Option ℕ
  pub has_chain_data : Bool

pub data ContractStatus : Type 0 where
  draft generated signed active completed defaulted cancelled reported : ContractStatus

pub data SignedBy : Type 0 where
  by_borrower by_tenant : SignedBy

pub record Signature : Type 0 where
  pub signed_by : SignedBy
  pub signature : ℕ
  pub signed_at : ℕ
  pub ip_address : Option ℕ

pub data DisbursementMethod : Type 0 where
  esewa fonepay khalti wallet bank_transfer : DisbursementMethod

pub record DisbursementInfo : Type 0 where
  pub method : DisbursementMethod
  pub account_number : Option ℕ
  pub account_name : Option ℕ
  pub disbursed_at : ℕ
  pub transaction_id : Option ℕ

-- `total_amount_paid` and `outstanding_balance` move by increments and may pass below zero.
pub record Contract : Type 0 where
  pub id : ℕ
  pub tenant_id : ℕ
  pub borrower_id : ℕ
  pub loan_id : ℕ
  pub rule_id : ℕ
  pub status : ContractStatus
  pub start_date : ℕ
  pub loan_amount : ℕ
  pub interest_rate : ℕ
  pub term_months : ℕ
  pub payment_frequency : PaymentFrequency
  pub installment_amount : ℕ
  pub total_installments : ℕ
  pub total_amount_due : ℕ
  pub total_amount_paid : ℤ
  pub outstanding_balance : ℤ
  pub signatures : List Signature
  pub disbursement_info : Option DisbursementInfo
  pub contract_pdf_url : Option ℕ
  pub blockchain_tx_hash : Option ℕ
  pub sign_tx_hash : Option ℕ
  pub report_reason : Option ℕ
  pub signed_at : Option ℕ

-- What the code writes into `status`. The column's enum has no PARTIALLY_PAID: see `is_stored`.
pub data InstallmentStatus : Type 0 where
  pending paid overdue partial partially_paid : InstallmentStatus

pub record PaymentSchedule : Type 0 where
  pub id : ℕ
  pub contract_id : ℕ
  pub installment_number : ℕ
  pub due_date : ℕ
  pub principal_amount : ℕ
  pub interest_amount : ℕ
  pub total_amount : ℕ
  pub amount_paid : ℕ
  pub status : InstallmentStatus
  pub paid_at : Option ℕ

pub data TransactionType : Type 0 where
  deposit withdraw disbursement installment_payment penalty_payment fee : TransactionType

pub data TransactionStatus : Type 0 where
  pending completed failed cancelled : TransactionStatus

pub data GasPayer : Type 0 where
  pays_user pays_platform : GasPayer

-- `transaction_uuid` is the key of that name in the JSON column `gatewayDetails`.
pub record Transaction : Type 0 where
  pub id : ℕ
  pub sent_by : ℕ
  pub received_by : ℕ
  pub type : TransactionType
  pub amount : ℕ
  pub status : TransactionStatus
  pub contract_id : Option ℕ
  pub payment_schedule_id : Option ℕ
  pub transaction_uuid : Option ℕ
  pub gas_payment_mode : GasPaymentMode
  pub gas_paid_by : GasPayer
  pub wallet_id : Option ℕ
  pub platform : PlatformType
  pub subscription_id : Option ℕ
  pub blockchain_tx_hash : Option ℕ
  pub completed_at : Option ℕ
  pub created_at : ℕ

pub data ActivityAction : Type 0 where
  create update delete loan_approve loan_reject contract_sign : ActivityAction

-- The entities that the modelled handlers name.
pub data ActivityEntityType : Type 0 where
  kyc_entity loan_entity contract_entity : ActivityEntityType

pub record ActivityLog : Type 0 where
  pub actor_user_id : ℕ
  pub entity_type : ActivityEntityType
  pub entity_id : ℕ
  pub action : ActivityAction

pub record Db : Type 0 where
  pub users : List User
  pub wallets : List Wallet
  pub plans : List SubscriptionPlan
  pub subscriptions : List Subscription
  pub borrowers : List Borrower
  pub loans : List Loan
  pub rules : List Rule
  pub contracts : List Contract
  pub schedules : List PaymentSchedule
  pub transactions : List Transaction
  pub logs : List ActivityLog
