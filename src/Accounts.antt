-- ===== src/Accounts.antt =====
-- The documents that the services read: users (src/modules/auth/model.py), user profiles
-- (src/modules/users/model.py), companies (src/modules/companies/model.py) and the platform settings
-- (src/modules/platform_settings/model.py). Identifiers are only compared, so they are numbers.
use econmesh_api.Prelude.{ℕ, Bool, false, Option, none, some, List, ◌==◌, findb}
use econmesh_api.Text.{Text, eq_text}

-- A postal address, of a user profile or of a company.
pub record Address : Type 0 where
  pub postal_code : Option Text
  pub street : Option Text
  pub number : Option Text
  pub complement : Option Text
  pub neighborhood : Option Text
  pub city : Option Text
  pub state : Option Text

pub data Role : Type 0 where
  admin operator analyst viewer service : Role

pub record UserDocument : Type 0 where
  pub id : ℕ
  pub firebase_uid : Text
  pub email : Option Text
  pub name : Option Text
  pub phone : Option Text
  pub role : Role
  pub email_verified : Bool
  pub is_verified : Bool
  pub is_active : Bool

pub record UserProfileDocument : Type 0 where
  pub user_id : ℕ
  pub cpf : Option Text
  pub job_title : Option Text
  pub address : Option Address

pub data ComplianceDocumentStatus : Type 0 where
  pending approved rejected : ComplianceDocumentStatus

pub record CompanyComplianceFile : Type 0 where
  pub storage_key : Text
  pub public_url : Text
  pub filename : Text
  pub content_type : Text
  pub status : ComplianceDocumentStatus
  pub rejection_reason : Option Text
  pub reviewed_at : Option ℕ
  pub reviewed_by : Option ℕ

pub record CompanyDocument : Type 0 where
  pub id : ℕ
  pub owner_user_id : ℕ
  pub legal_name : Text
  pub trade_name : Option Text
  pub tax_id : Text
  pub email : Option Text
  pub phone : Option Text
  pub legal_representative : Option Text
  pub address : Option Address
  pub operating_license : Option CompanyComplianceFile
  pub mtr_document : Option CompanyComplianceFile
  pub signature_authorization : Option CompanyComplianceFile
  pub is_active : Bool
  pub created_at : ℕ
  pub updated_at : ℕ

pub data ForoFillMode : Type 0 where
  admin company : ForoFillMode

pub record PlatformSettingsDocument : Type 0 where
  pub require_signature_authorization : Bool
  pub foro_fill_mode : ForoFillMode
  pub foro_city : Option Text
  pub foro_state : Option Text

-- A new settings document has the defaults of its model.
abbrev pub default_settings : PlatformSettingsDocument
default_settings = record {
  require_signature_authorization = false;
  foro_fill_mode = ForoFillMode.company;
  foro_city = none;
  foro_state = none;
}

-- `AuthRepository.get_by_firebase_uid`, `get_by_id` and `get_by_email`
abbrev pub user_by_firebase_uid : Text → List UserDocument → Option UserDocument
user_by_firebase_uid uid = findb (λ u. eq_text u.firebase_uid uid)

abbrev pub user_by_id : ℕ → List UserDocument → Option UserDocument
user_by_id id = findb (λ u. u.id == id)

abbrev pub has_email : Text → UserDocument → Bool
has_email email u = elim u.email [ none ↦ false | some e ↦ eq_text e email ]

abbrev pub user_by_email : Text → List UserDocument → Option UserDocument
user_by_email email = findb (has_email email)

-- `UsersRepository.get_by_user`
abbrev pub profile_by_user : ℕ → List UserProfileDocument → Option UserProfileDocument
profile_by_user id = findb (λ p. p.user_id == id)

-- `CompaniesRepository.get`
abbrev pub company_by_id : ℕ → List CompanyDocument → Option CompanyDocument
company_by_id id = findb (λ c. c.id == id)
