-- ===== src/Agreements/Eligibility.antt =====
-- src/modules/agreements/eligibility.py: which profile and company fields are still missing.
-- The keys of the missing fields are the texts that the API answers.
use econmesh_api.Prelude.{
  Bool, true, false, not, ◌&&◌, ◌||◌, Option, none, some, List, [], ◌∷◌, ◌++◌, String,
}
use econmesh_api.Text.{nonempty, truthy}
use econmesh_api.Accounts.{
  Address, UserDocument, UserProfileDocument, CompanyDocument, CompanyComplianceFile,
  ComplianceDocumentStatus, approved,
}

-- `if not value: missing.append(key)`
abbrev pub missing_if : Bool → String → List String
missing_if true key = key ∷ []
missing_if false key = []

abbrev pub is_approved : ComplianceDocumentStatus → Bool
is_approved approved = true
is_approved _ = false

-- the loop over the fields of the address
unfoldable pub address_missing : String → String → String → String → String → Address → List String
address_missing postal_code street number city state a =
    missing_if (not (truthy a.postal_code)) postal_code
    ++ missing_if (not (truthy a.street)) street
    ++ missing_if (not (truthy a.number)) number
    ++ missing_if (not (truthy a.city)) city
    ++ missing_if (not (truthy a.state)) state

user_missing : UserDocument → List String
user_missing user =
    missing_if (not (truthy user.name)) "name"
    ++ missing_if (not (truthy user.email)) "email"
    ++ missing_if (not (truthy user.phone)) "phone"
    ++ missing_if (not (user.is_verified || user.email_verified)) "email_verified"

unfoldable pub profile_address_missing : Option Address → List String
profile_address_missing none = "address" ∷ []
profile_address_missing (some a) =
    address_missing "address.postal_code" "address.street" "address.number" "address.city"
      "address.state" a

profile_missing : Option UserProfileDocument → List String
profile_missing none = "cpf" ∷ "address" ∷ []
profile_missing (some p) =
    missing_if (not (truthy p.cpf)) "cpf" ++ profile_address_missing p.address

unfoldable pub personal_missing_fields : UserDocument → Option UserProfileDocument → List String
unfolding user_missing profile_missing
personal_missing_fields user profile = user_missing user ++ profile_missing profile

company_data_missing : CompanyDocument → List String
company_data_missing company =
    missing_if (not (nonempty company.legal_name)) "company.legal_name"
    ++ missing_if (not (truthy company.trade_name)) "company.trade_name"
    ++ missing_if (not (nonempty company.tax_id)) "company.tax_id"
    ++ missing_if (not (truthy company.email)) "company.email"
    ++ missing_if (not (truthy company.phone)) "company.phone"
    ++ missing_if (not (truthy company.legal_representative)) "company.legal_representative"

unfoldable pub company_address_missing : Option Address → List String
company_address_missing none = "company.address" ∷ []
company_address_missing (some a) =
    address_missing "company.address.postal_code" "company.address.street" "company.address.number"
      "company.address.city" "company.address.state" a

-- `not f or not f.storage_key or f.status != APPROVED`
abbrev pub lacks_approval : Option CompanyComplianceFile → Bool
lacks_approval none = true
lacks_approval (some f) = not (nonempty f.storage_key) || not (is_approved f.status)

company_files_missing : CompanyDocument → Bool → List String
company_files_missing company require_signature_authorization =
    missing_if (lacks_approval company.operating_license) "company.operating_license"
    ++ missing_if (lacks_approval company.mtr_document) "company.mtr_document"
    ++ missing_if
        (require_signature_authorization && lacks_approval company.signature_authorization)
        "company.signature_authorization"

unfoldable pub company_missing_fields : CompanyDocument → Bool → List String
unfolding company_data_missing company_files_missing
company_missing_fields company require_signature_authorization =
    company_data_missing company
    ++ company_address_missing company.address
    ++ company_files_missing company require_signature_authorization
