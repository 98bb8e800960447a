-- ===== src/Agreements/Listing.antt =====
-- The list of agreements: `AgreementsService.list` (src/modules/agreements/service.py), with the filter,
-- the order and the page of src/modules/agreements/repository.py. Listing closes what is overdue.
use econmesh_api.Prelude.{
  ℕ, ◌-◌, ◌*◌, Bool, true, false, not, ◌&&◌, ◌||◌, Option, none, some, List, [], ◌∷◌, map, leb, ltb,
  ◌==◌, if◌then◌else◌, length, filterb, anyb, take, drop, is_some,
}
use econmesh_api.Text.{Text, eq_text, lower, strip, truthy, nonempty, or_text}
use econmesh_api.Service.{Action, pure, gets, ◌>>=◌, ◌>>◌}
use econmesh_api.Accounts.{Role, CompanyDocument}
use econmesh_api.Agreements.Model.{AgreementStatus, AgreementDocument, AgreementParticipant}
use econmesh_api.Agreements.World.{World}
use econmesh_api.Agreements.Access.{resolve_user, maybe_expire, progress_of, has_user}
use econmesh_api.Agreements.Queries.{is_admin}

pub data AgreementFilter : Type 0 where
  all signed pending mine organization company rejected expired : AgreementFilter

pub data AgreementSort : Type 0 where
  newest oldest updated title : AgreementSort

pub record AgreementListParams : Type 0 where
  pub q : Option Text
  pub filter : AgreementFilter
  pub sort : AgreementSort
  pub company_id : Option ℕ
  pub page : ℕ
  pub page_size : ℕ

abbrev pub starts_with : Text → Text → Bool
starts_with [] s = true
starts_with (a ∷ p) [] = false
starts_with (a ∷ p) (b ∷ s) = a == b && starts_with p s

-- a match of the escaped pattern, without regard to case
pub contains : Text → Text → Bool
contains p [] = starts_with p []
contains p (c ∷ s) = starts_with p (c ∷ s) || contains p s

abbrev pub found_in : Text → Text → Bool
found_in p s = contains (lower p) (lower s)

-- the search in `_SEARCH_FIELDS`
abbrev pub matches_text : Option Text → AgreementDocument → Bool
matches_text q d =
    if truthy q
    then (let p = strip (or_text q []) in
        found_in p d.title
        || (is_some d.description && found_in p (or_text d.description []))
        || found_in p d.company_name
        || found_in p d.verification_code)
    else true

-- `participants.email` equals the address without regard to case
abbrev pub has_email : Option Text → AgreementParticipant → Bool
has_email none p = false
has_email (some e) p = nonempty e && eq_text (lower p.email) (lower e)

-- `_visibility_clause`
abbrev pub is_visible : ℕ → Option Text → AgreementDocument → Bool
is_visible user_id email d =
    d.owner_user_id == user_id
    || anyb (has_user user_id) d.participants
    || anyb (has_email email) d.participants

abbrev has_signed_status : AgreementStatus → Bool
has_signed_status AgreementStatus.signed = true
has_signed_status _ = false

abbrev has_rejected_status : AgreementStatus → Bool
has_rejected_status AgreementStatus.rejected = true
has_rejected_status _ = false

abbrev has_expired_status : AgreementStatus → Bool
has_expired_status AgreementStatus.expired = true
has_expired_status _ = false

abbrev is_unfinished : AgreementStatus → Bool
is_unfinished AgreementStatus.awaiting_signatures = true
is_unfinished AgreementStatus.partially_signed = true
is_unfinished AgreementStatus.awaiting_send = true
is_unfinished _ = false

-- the `match` of `_build_filter`
abbrev pub passes_filter : AgreementFilter → ℕ → AgreementDocument → Bool
passes_filter AgreementFilter.signed user_id d = has_signed_status d.status
passes_filter AgreementFilter.pending user_id d = is_unfinished d.status
passes_filter AgreementFilter.mine user_id d = d.owner_user_id == user_id
passes_filter AgreementFilter.rejected user_id d = has_rejected_status d.status
passes_filter AgreementFilter.expired user_id d = has_expired_status d.status
passes_filter _ user_id d = true

-- `_build_filter`
pub is_selected :
    AgreementListParams
    → (user_id : ℕ) → (email : Option Text) → (is_admin : Bool) → AgreementDocument
    → Bool
unfolding contains
is_selected params user_id email is_admin d =
    d.is_active
    && (is_admin || is_visible user_id email d)
    && matches_text params.q d
    && elim params.company_id [ none ↦ true | some id ↦ d.company_id == id ]
    && passes_filter params.filter user_id d

-- the order of texts by their code points
abbrev pub text_leb : Text → Text → Bool
text_leb [] t = true
text_leb (a ∷ s) [] = false
text_leb (a ∷ s) (b ∷ t) = ltb a b || (a == b && text_leb s t)

-- `_build_sort`: whether the first document may stand before the second
abbrev pub in_order : AgreementSort → AgreementDocument → AgreementDocument → Bool
in_order AgreementSort.newest d e = leb e.created_at d.created_at
in_order AgreementSort.oldest d e = leb d.created_at e.created_at
in_order AgreementSort.updated d e = leb e.updated_at d.updated_at
in_order AgreementSort.title d e = text_leb d.title e.title

abbrev pub insert_in :
    AgreementSort → AgreementDocument → List AgreementDocument → List AgreementDocument
insert_in sort d [] = d ∷ []
insert_in sort d (e ∷ es) =
    let rest = insert_in sort d es in if in_order sort d e then d ∷ e ∷ es else e ∷ rest

abbrev pub sorted : AgreementSort → List AgreementDocument → List AgreementDocument
sorted sort [] = []
sorted sort (d ∷ ds) = insert_in sort d (sorted sort ds)

-- `list_filtered`
unfoldable pub list_filtered :
    AgreementListParams
    → (user_id : ℕ) → (email : Option Text) → (is_admin : Bool) → World
    → List AgreementDocument
unfolding is_selected
list_filtered params user_id email is_admin w = take params.page_size (
    drop ((params.page - 1) * params.page_size)
      (sorted params.sort (filterb (is_selected params user_id email is_admin) w.agreements)))

-- `count_filtered`
unfoldable pub count_filtered :
    AgreementListParams → (user_id : ℕ) → (email : Option Text) → (is_admin : Bool) → World → ℕ
unfolding is_selected
count_filtered params user_id email is_admin w =
    length (filterb (is_selected params user_id email is_admin) w.agreements)

-- the first company of `list_for_owner`: the oldest active one
abbrev pub older : CompanyDocument → Option CompanyDocument → CompanyDocument
older c none = c
older c (some d) = if ltb d.created_at c.created_at then d else c

pub first_owned : ℕ → List CompanyDocument → Option CompanyDocument
first_owned user_id [] = none
first_owned user_id (c ∷ cs) =
    let rest = first_owned user_id cs in
    if c.owner_user_id == user_id && c.is_active then some (older c rest) else rest

abbrev pub is_company_filter : AgreementFilter → Bool
is_company_filter AgreementFilter.organization = true
is_company_filter AgreementFilter.company = true
is_company_filter _ = false

-- the parameters with the caller's own company, where they ask for a company and name none
pub with_own_company : AgreementListParams → ℕ → List CompanyDocument → AgreementListParams
unfolding first_owned
with_own_company params user_id companies =
    if is_company_filter params.filter && not (is_some params.company_id)
    then (elim (first_owned user_id companies) as (λ _. AgreementListParams) [
      | none ↦ params
      | some c ↦ record params { company_id = some c.id }
    ])
    else params

-- `AgreementListItem`: the document with its numbers of steps
abbrev pub AgreementListItem : Type 0
AgreementListItem = AgreementDocument × (ℕ × ℕ × ℕ)

abbrev to_list_item : AgreementDocument → AgreementListItem
to_list_item d = (d, progress_of d)

pub record AgreementListResponse : Type 0 where
  pub items : List AgreementListItem
  pub total : ℕ
  pub page : ℕ
  pub page_size : ℕ
  pub has_more : Bool

-- the loop over the documents listed
unfoldable pub expire_listed : List AgreementDocument → Action World (Unit {0})
expire_listed [] = pure tt
expire_listed (doc ∷ docs) = do maybe_expire doc; expire_listed docs

unfoldable pub list : AgreementListParams → Text → Role → Action World AgreementListResponse
unfolding with_own_company
list asked firebase_uid role = do
  user ← resolve_user firebase_uid
  companies ← gets (λ w. w.companies)
  let params = with_own_company asked user.id companies
  docs ← gets (list_filtered params user.id user.email (is_admin role))
  total ← gets (count_filtered params user.id user.email (is_admin role))
  expire_listed docs
  listed ← gets (list_filtered params user.id user.email (is_admin role))
  pure (record {
    items = map to_list_item listed;
    total = total;
    page = params.page;
    page_size = params.page_size;
    has_more = ltb (params.page * params.page_size) total;
  })
