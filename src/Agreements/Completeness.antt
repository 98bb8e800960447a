-- ===== src/Agreements/Completeness.antt =====
-- The missing fields of src/modules/agreements/eligibility.py against an account of a complete profile
-- and of a complete company.
use econmesh_api.Prelude.{
  ◌≡◌, refl, Bool, true, false, not, ◌&&◌, ◌||◌, Option, none, some, String, is_empty,
  is_empty-append,
}
use econmesh_api.Text.{nonempty, truthy}
use econmesh_api.Accounts.{
  Address, UserDocument, UserProfileDocument, CompanyDocument, CompanyComplianceFile,
}
use econmesh_api.Agreements.Eligibility.{
  missing_if, is_approved, personal_missing_fields, company_missing_fields, address_missing,
  profile_address_missing, company_address_missing, lacks_approval,
}

-- an address with everything but the complement and the neighbourhood
pub has_address : Option Address → Bool
has_address none = false
has_address (some a) =
    truthy a.postal_code && truthy a.street && truthy a.number && truthy a.city && truthy a.state

-- a user who may sign: named, reachable, with a verified address, a CPF and a postal address
pub is_complete_person : UserDocument → Option UserProfileDocument → Bool
is_complete_person u none = false
is_complete_person u (some p) =
    truthy u.name
    && truthy u.email
    && truthy u.phone
    && (u.is_verified || u.email_verified)
    && (truthy p.cpf && has_address p.address)

-- a compliance file that was stored and approved
pub has_approved : Option CompanyComplianceFile → Bool
has_approved none = false
has_approved (some f) = nonempty f.storage_key && is_approved f.status

-- a company that may sign
pub is_complete_company : CompanyDocument → Bool → Bool
is_complete_company c require_auth =
    nonempty c.legal_name
    && truthy c.trade_name
    && nonempty c.tax_id
    && truthy c.email
    && truthy c.phone
    && truthy c.legal_representative
    && has_address c.address
    && (has_approved c.operating_license
        && has_approved c.mtr_document
        && (not require_auth || has_approved c.signature_authorization))

is_empty-missing_if : (b : Bool) (k : String) → is_empty (missing_if (not b) k) ≡ b
is_empty-missing_if true k = refl
is_empty-missing_if false k = refl

and_false : (b : Bool) → (b && false) ≡ false
and_false true = refl
and_false false = refl

lacks_approval-has_approved :
    (f : Option CompanyComplianceFile) → lacks_approval f ≡ not (has_approved f)
unfolding has_approved
lacks_approval-has_approved none = refl
lacks_approval-has_approved (some f) = de_morgan (nonempty f.storage_key) (is_approved f.status)
  where
    de_morgan : (a b : Bool) → (not a || not b) ≡ not (a && b)
    de_morgan true b = refl
    de_morgan false b = refl

and-not : (a b : Bool) → (a && not b) ≡ not (not a || b)
and-not true b = refl
and-not false b = refl

profile_address : (a : Option Address) → is_empty (profile_address_missing a) ≡ has_address a
unfolding profile_address_missing address_missing has_address
profile_address none = refl
profile_address (some a) = simp (is_empty-append, is_empty-missing_if)

company_address : (a : Option Address) → is_empty (company_address_missing a) ≡ has_address a
unfolding company_address_missing address_missing has_address
company_address none = refl
company_address (some a) = simp (is_empty-append, is_empty-missing_if)

-- Nothing is missing from a profile exactly when it is complete.
pub personal_missing_fields-is_empty :
    (u : UserDocument) (p : Option UserProfileDocument)
    → is_empty (personal_missing_fields u p) ≡ is_complete_person u p
unfolding personal_missing_fields is_complete_person
personal_missing_fields-is_empty u none = simp (is_empty-append, is_empty-missing_if, and_false)
personal_missing_fields-is_empty u (some p) =
    simp (is_empty-append, is_empty-missing_if, profile_address)

-- Nothing is missing from a company exactly when its data and its address are complete and its
-- compliance files are approved, the signature authorization among them when the platform asks for it.
pub company_missing_fields-is_empty :
    (c : CompanyDocument) (require_auth : Bool)
    → is_empty (company_missing_fields c require_auth) ≡ is_complete_company c require_auth
unfolding company_missing_fields is_complete_company
company_missing_fields-is_empty c require_auth =
    simp
      (is_empty-append, is_empty-missing_if, company_address, lacks_approval-has_approved, and-not)
