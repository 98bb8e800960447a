-- ===== src/Conversations/Life.antt =====
-- What the life of a contact is meant to be, without the texts, times and messages of a conversation:
-- the contract that src/modules/conversations/service.py implements. A contact is open or closed;
-- the side that did not close it may ask for it again; a contact is replaced for good.
pub mod Soundness
pub mod Keys
pub mod Paths
use econmesh_api.Prelude.{
  ℕ, zero, suc, ◌≡◌, ◌≢◌, ◌⊎◌, Bool, true, false, not, ◌&&◌, ◌||◌, Option, none, some, List, [],
  ◌∷◌, ◌++◌, ◌==◌, map, anyb, findb, update_first,
}
use econmesh_api.Accounts.{CompanyDocument, company_by_id}
use econmesh_api.Conversations.Model.{ConversationStatus, OpportunityConversationDocument}

pub record Contact : Type 0 where
  pub id : ℕ
  pub opportunity_id : ℕ
  pub company_id : ℕ
  pub offerer : ℕ
  pub interested : ℕ
  pub status : ConversationStatus
  pub is_active : Bool
  pub closer : Option ℕ
  pub reopen_requester : Option ℕ
  pub new_contact_requester : Option ℕ

-- the contact of a stored conversation
abbrev pub contact : OpportunityConversationDocument → Contact
contact c = record {
  id = c.id;
  opportunity_id = c.opportunity_id;
  company_id = c.interested_company_id;
  offerer = c.offerer_user_id;
  interested = c.interested_user_id;
  status = c.status;
  is_active = c.is_active;
  closer = c.closed_by_user_id;
  reopen_requester = c.reopen_requested_by_user_id;
  new_contact_requester = c.new_contact_requested_by_user_id;
}

abbrev pub IsSide : Contact → ℕ → Type 0
IsSide k u = (u ≡ k.offerer) ⊎ (u ≡ k.interested)

-- a closed contact that was not replaced
abbrev pub IsWaiting : Contact → Type 0
IsWaiting k = (k.status ≡ ConversationStatus.closed) × (k.is_active ≡ true)

-- what each move does to a contact
abbrev pub closed_contact : ℕ → Contact → Contact
closed_contact u k = record k {
  status = ConversationStatus.closed;
  closer = some u;
  reopen_requester = none;
  new_contact_requester = none;
}

abbrev pub opened_contact : Contact → Contact
opened_contact k = record k {
  status = ConversationStatus.«open»;
  closer = none;
  reopen_requester = none;
  new_contact_requester = none;
}

abbrev pub with_reopening : Option ℕ → Contact → Contact
with_reopening o k = record k { reopen_requester = o }

abbrev pub with_renewing : Option ℕ → Contact → Contact
with_renewing o k = record k { new_contact_requester = o }

abbrev pub renewed_contact : Contact → Contact
renewed_contact k = record k { is_active = false; new_contact_requester = none }

abbrev pub replaced_contact : Contact → Contact
replaced_contact k = record k { is_active = false }

-- the user owns the company, which is active
abbrev pub IsOwner : List CompanyDocument → ℕ → ℕ → Type 0
IsOwner cos u company_id =
    (c : CompanyDocument) × (company_by_id company_id cos ≡ some c)
    × (c.is_active ≡ true)
    × (c.owner_user_id ≡ u)

-- What the user `u` may do with a contact, where these companies are stored: the contact before and
-- after.
pub data Move (cos : List CompanyDocument) (u : ℕ) : Contact → Contact → Type 0 where
  close :
      {k : Contact}
      → IsSide k u
      → k.status ≡ ConversationStatus.«open»
      → k.is_active ≡ true
      → Move cos u k (closed_contact u k)
  reopen : {k : Contact} → IsWaiting k → k.closer ≡ some u → Move cos u k (opened_contact k)
  ask_reopen :
      {k : Contact}
      → IsSide k u
      → IsWaiting k
      → k.closer ≢ some u
      → k.reopen_requester ≡ none
      → Move cos u k (with_reopening (some u) k)
  refuse_reopen :
      {k : Contact}
      → IsWaiting k
      → k.closer ≡ some u
      → k.reopen_requester ≢ none
      → Move cos u k (with_reopening none k)
  ask_new_contact :
      {k : Contact}
      → IsSide k u
      → IsWaiting k
      → k.closer ≢ some u
      → k.new_contact_requester ≡ none
      → Move cos u k (with_renewing (some u) k)
  refuse_new_contact :
      {k : Contact}
      → IsWaiting k
      → k.closer ≡ some u
      → k.new_contact_requester ≢ none
      → Move cos u k (with_renewing none k)
  accept_new_contact :
      {k : Contact}
      → IsWaiting k
      → k.closer ≡ some u
      → k.new_contact_requester ≢ none
      → Move cos u k (renewed_contact k)
  -- an owner of the interested company starts again
  replace :
      {k : Contact} → IsWaiting k → IsOwner cos u k.company_id → Move cos u k (replaced_contact k)

abbrev pub named : ℕ → Contact → Bool
named id k = k.id == id

-- the same name, or the same opportunity and company where both are active
abbrev pub collides : Contact → Contact → Bool
collides k j =
    j.id == k.id
    || (k.is_active
        && (j.opportunity_id == k.opportunity_id && j.company_id == k.company_id && j.is_active))

-- a contact as it begins
pub record IsNew (k : Contact) : Type 0 where
  pub is_open : k.status ≡ ConversationStatus.«open»
  pub active : k.is_active ≡ true
  pub not_closed : k.closer ≡ none
  pub not_reopened : k.reopen_requester ≡ none
  pub not_renewed : k.new_contact_requester ≡ none

-- The contacts that a request of `u` leaves, with the count of the moves it made.
pub data Evolves (cos : List CompanyDocument) (u : ℕ) (ks : List Contact)
    : ℕ → List Contact → Type 0 where
  stays : Evolves cos u ks 0 ks
  moves :
      {n : ℕ} {js : List Contact}
      → Evolves cos u ks n js
      → (f : Contact → Contact) (k : Contact) → findb (named k.id) js ≡ some k
      → Move cos u k (f k)
      → Evolves cos u ks (suc n) (update_first (named k.id) f js)
  begins :
      {n : ℕ} {js : List Contact}
      → Evolves cos u ks n js
      → (k : Contact) → IsNew k
      → anyb (collides k) js ≡ false
      → Evolves cos u ks n (js ++ k ∷ [])
