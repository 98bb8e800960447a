-- ===== src/Conversations/Atomicity.antt =====
-- A request that raises while Redis is up has written nothing: the unique indexes never refuse a
-- conversation that the service makes, since the one found is set aside first.
use econmesh_api.Prelude.{
  ℕ, true, false, ◌≡◌, refl, sym, ap, ◌∙◌, Option, none, some, inl, inr, anyb, findb, findb-map,
  findb-none-anyb, update_first, Option-cases,
}
use mathlib.Core.Path.{subst}
use mathlib.Core.Option
use mathlib.Core.Option.{some-injective}
use econmesh_api.Text.{Text}
use econmesh_api.Service.{err, Ends, AppException}
use econmesh_api.Accounts.{UserDocument, user_by_firebase_uid}
use econmesh_api.Conversations.Model.{OpportunityConversationDocument}
use econmesh_api.Conversations.World.{
  ConversationWorld, Collaborators, IsUp, active_between, is_active_between,
}
use econmesh_api.Conversations.Contact.{Entry}
use econmesh_api.Conversations.Requests.{Request, perform}
use econmesh_api.Conversations.Life.{
  Contact, contact, named, collides, replaced_contact, renewed_contact,
}
use econmesh_api.Conversations.Life.Keys.{
  is_between, distinct-between, cleared, no_collision, unused-update_first,
}
use econmesh_api.Conversations.Life.Soundness.{IsSound}
use econmesh_api.Conversations.Guards.{IsEntry, IsCloser}
use econmesh_api.Conversations.Changes.{contacts, contact-found, stored-id}
use econmesh_api.Conversations.Refinement.{Follows}
use econmesh_api.Conversations.Renewal.{again}
use econmesh_api.Conversations.Starting.{begun, without, existing-found}
use econmesh_api.Conversations.Traffic.{Blocked, starting, renewing, perform-Runs}

true-false : true ≡ false → ⊥
true-false h = cc

none-some : {a : UserDocument} → none ≡ some a → ⊥
none-some h = cc

-- the next identifier is in no conversation
abbrev pub IsUnused : ConversationWorld → Type 0
IsUnused s = anyb (named s.fresh) (contacts s) ≡ false

module _ (s : ConversationWorld) (sound : IsSound (contacts s)) (unused : IsUnused s) where
  -- after the contact found was set aside, one between the same sides may begin
  aside_free :
      (opp company : ℕ) (found : Option OpportunityConversationDocument) (k : Contact)
      → active_between opp company s.conversations ≡ found
      → k.is_active ≡ true
      → k.id ≡ s.fresh
      → k.opportunity_id ≡ opp
      → k.company_id ≡ company
      → anyb (collides k) (without found (contacts s)) ≡ false
  aside_free opp company none k is_found active is_next same_opp same_company =
      no_collision k (contacts s) active (rw is_next unused) (
        rw (same_opp, same_company)
          (findb-none-anyb (is_between opp company) (contacts s) (
            findb-map contact (is_active_between opp company) (is_between opp company) (λ d. refl)
              s.conversations
            ∙ ap (Option.map contact) is_found)))
  aside_free opp company (some c) k is_found active is_next same_opp same_company =
      let found =
        findb-map contact (is_active_between opp company) (is_between opp company) (λ d. refl)
          s.conversations
        ∙ ap (Option.map contact) is_found in
      let (there, _) = existing-found s opp company c sound.distinct is_found in
      no_collision k (without (some c) (contacts s)) active
        (rw is_next (
          unused-update_first s.fresh c.id replaced_contact (contacts s) (contact c) (λ j. refl)
            there unused))
        (rw (same_opp, same_company)
          (cleared replaced_contact opp company (contacts s) (contact c) (λ j. refl) sound.distinct
            found))

  -- after the contact that was asked for again was set aside, it may begin again
  renewed_free :
      (id : ℕ) (uid : Text) (e : Entry)
      → IsEntry s id uid e
      → IsCloser e
      → anyb
          (collides (again e.1 s.fresh))
          (update_first (named e.1.id) renewed_contact (contacts s))
        ≡ false
  renewed_free id uid (user, c) entry closer =
      let there =
        ap (λ n. findb (named n) (contacts s)) (stored-id id s.conversations c entry.stored)
        ∙ contact-found id s.conversations c entry.stored in
      let found = distinct-between (contacts s) (contact c) sound.distinct closer.1 there in
      no_collision (again c s.fresh) (update_first (named c.id) renewed_contact (contacts s)) refl
        (unused-update_first s.fresh c.id renewed_contact (contacts s) (contact c) (λ j. refl) there
          unused)
        (cleared renewed_contact c.opportunity_id c.interested_company_id (contacts s) (contact c)
          (λ j. refl) sound.distinct found)

  -- so the unique indexes refuse nothing
  pub not_blocked : (uid : Text) (t : ConversationWorld) → Blocked s uid t → ⊥
  not_blocked uid t (starting opp company e h (_, left, clash)) = true-false (
      sym clash
      ∙ ap (anyb (collides (begun e s.fresh))) left
      ∙ aside_free e.1.id e.3 (active_between e.1.id e.3 s.conversations) (begun e s.fresh) refl
          refl refl refl refl)
  not_blocked uid t (renewing id e entry closer asked (left, clash)) = true-false (
      sym clash
      ∙ ap (anyb (collides (again e.1 s.fresh))) left
      ∙ renewed_free id uid e entry closer)

-- While Redis answers and takes what it is given, in a sound state whose next identifier is unused, a
-- request that raises leaves everything as it was: no document, message, event or delivery is written.
pub perform_atomic :
    (x : Collaborators) (r : Request) (uid : Text) (s t : ConversationWorld) (e : AppException)
    → IsUp x
    → IsSound (contacts s)
    → IsUnused s
    → perform x r uid s ≡ (err e, t)
    → t ≡ s
perform_atomic x r uid s t e up sound unused h =
    elim (Option-cases (user_by_firebase_uid uid s.users)) [
      | inl none_known ↦ from 0 (λ a known. absurd (none-some (sym none_known ∙ known)))
      | inr (user, known) ↦
          from user.id (λ a also. ap (λ v. v.id) (some-injective _ _ (sym also ∙ known)))
    ]
  where
    from :
        (u : ℕ)
        → ((a : UserDocument) → user_by_firebase_uid uid s.users ≡ some a → a.id ≡ u)
        → t ≡ s
    from u acts =
        let g =
          perform-Runs x r uid s u {E = λ v. v ≡ s} acts sound refl
            (λ v b. absurd (not_blocked s sound unused uid v b)) (inl up) in
        subst (Ends (λ _. Follows u s) (λ v. v ≡ s)) h (g.run s refl)
