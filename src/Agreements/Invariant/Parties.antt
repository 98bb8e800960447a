-- ===== src/Agreements/Invariant/Parties.antt =====
-- Setting the parties and the fields keeps the invariant, and so does making an agreement of an
-- approved minuta.
use econmesh_api.Prelude.{ℕ, ◌≡◌, true, Option, List, [], ◌∷◌, arith, not-false}
use econmesh_api.Text.{Text}
use econmesh_api.Service.{
  Guarantees, Any, bind-Guarantees, pure-Guarantees, gets-Guarantees, or_raise-Guarantees,
  raise_if-Guarantees, when-Guarantees, branch-Guarantees, match_some-Guarantees,
}
use econmesh_api.Agreements.Model.{
  SigningMode, AgreementDocument, AgreementEventDocument, AgreementParticipant, AgreementField,
  is_editable,
}
use econmesh_api.Agreements.World.{Deps}
use econmesh_api.Agreements.Notices.{notify_added, notify_minuta_approved}
use econmesh_api.Agreements.Handover.{MinutaHandover, create_from_contract_proposal}
use econmesh_api.Agreements.Parties.{
  ParticipantInput, make_participant, make_participants, set_participants, update_participants,
  FieldInput, make_fields, update_fields,
}
use econmesh_api.Agreements.Invariant.Base.{
  Inv, IsSound, replace-Inv, create-Inv, append_full-Inv, fresh-Inv, code-Inv,
}
use econmesh_api.Agreements.Invariant.Owner.{notify_ids-Inv, notify_emails-Inv, owned-keeps}

-- A draft that has its file and its parties waits to be sent; others are drafts still.
set_participants-IsSound :
    (mode : Option SigningMode) (ps : List AgreementParticipant) (d : AgreementDocument)
    → is_editable d.status ≡ true
    → IsSound d
    → IsSound (set_participants mode ps d)
unfolding set_participants
set_participants-IsSound mode ps d e h = ground arith

fields-IsSound :
    (fields : List AgreementField) (d : AgreementDocument)
    → is_editable d.status ≡ true
    → IsSound d
    → IsSound (record d { fields = fields })
fields-IsSound fields d e h = ground arith

module _ (log : List AgreementEventDocument) where
  notify_added-Inv :
      (id : ℕ) (ps : List AgreementParticipant)
      → Guarantees (Inv log) (Any {A = Unit {0}}) (notify_added id ps)
  unfolding notify_added
  notify_added-Inv id [] = pure-Guarantees _ tt
  notify_added-Inv id (p ∷ ps) =
      bind-Guarantees (notify_emails-Inv log _ _ _) λ _ _. notify_added-Inv id ps

  minuta-Inv :
      (d : AgreementDocument) (a b : ℕ)
      → Guarantees (Inv log) (Any {A = Unit {0}}) (notify_minuta_approved d a b)
  unfolding notify_minuta_approved
  minuta-Inv d a b = bind-Guarantees (notify_ids-Inv log _ _ _) λ _ _. notify_ids-Inv log _ _ _

  make_participant-Inv :
      (item : ParticipantInput)
      → Guarantees (Inv log) (Any {A = AgreementParticipant}) (make_participant item)
  unfolding make_participant
  make_participant-Inv item = bind-Guarantees (gets-Guarantees {Q = Any} _ (λ _ _. tt)) λ linked _.
      bind-Guarantees
        (branch-Guarantees {Q = Any} _
          (λ _. bind-Guarantees (gets-Guarantees {Q = Any} _ (λ _ _. tt)) λ found _.
            bind-Guarantees (or_raise-Guarantees {Q = Any} found _ (λ _ _. tt))
              λ company _. bind-Guarantees (raise_if-Guarantees _ _) λ _ _. pure-Guarantees _ tt)
          (λ _. pure-Guarantees _ tt))
        λ part _.
          bind-Guarantees (gets-Guarantees {Q = Any} _ (λ _ _. tt))
            λ profile _. bind-Guarantees (fresh-Inv log) λ id _. pure-Guarantees _ tt

  make_participants-Inv :
      (items : List ParticipantInput)
      → Guarantees (Inv log) (Any {A = List AgreementParticipant}) (make_participants items)
  unfolding make_participants
  make_participants-Inv [] = pure-Guarantees _ tt
  make_participants-Inv (item ∷ items) =
      bind-Guarantees (make_participant-Inv item)
        λ p _. bind-Guarantees (make_participants-Inv items) λ ps _. pure-Guarantees _ tt

  pub update_participants-keeps :
      (x : Deps) (id : ℕ) (mode : Option SigningMode) (items : List ParticipantInput) (uid : Text)
      → Guarantees (Inv log) IsSound (update_participants x id mode items uid)
  unfolding update_participants
  update_participants-keeps x id mode items uid = bind-Guarantees (owned-keeps log uid id _) λ r h.
      bind-Guarantees (raise_if-Guarantees _ _) λ _ e.
        bind-Guarantees (make_participants-Inv items) λ ps _.
          bind-Guarantees (replace-Inv log _ (set_participants-IsSound mode ps r.1 (not-false e) h))
            λ d h'. bind-Guarantees (append_full-Inv log _) λ _ _.
              bind-Guarantees (when-Guarantees _ (notify_added-Inv _ ps))
                λ _ _. pure-Guarantees _ h'

  make_fields-Inv :
      (ps : List AgreementParticipant) (items : List FieldInput)
      → Guarantees (Inv log) (Any {A = List AgreementField}) (make_fields ps items)
  unfolding make_fields
  make_fields-Inv ps [] = pure-Guarantees _ tt
  make_fields-Inv ps (item ∷ items) = bind-Guarantees (raise_if-Guarantees _ _) λ _ _.
      bind-Guarantees
        (match_some-Guarantees {Q = Any} item.id (λ id _. pure-Guarantees _ tt)
          (λ _. fresh-Inv log))
        λ id _. bind-Guarantees (make_fields-Inv ps items) λ fields _. pure-Guarantees _ tt

  pub update_fields-keeps :
      (x : Deps) (id : ℕ) (items : List FieldInput) (uid : Text)
      → Guarantees (Inv log) IsSound (update_fields x id items uid)
  unfolding update_fields
  update_fields-keeps x id items uid = bind-Guarantees (owned-keeps log uid id _) λ r h.
      bind-Guarantees (raise_if-Guarantees _ _) λ _ e.
        bind-Guarantees (make_fields-Inv r.1.participants items) λ fields _.
          bind-Guarantees (replace-Inv log _ (fields-IsSound fields r.1 (not-false e) h))
            λ d h'. bind-Guarantees (append_full-Inv log _) λ _ _. pure-Guarantees _ h'

  pub handover-keeps :
      (x : Deps) (m : MinutaHandover)
      → Guarantees (Inv log) IsSound (create_from_contract_proposal x m)
  unfolding create_from_contract_proposal
  handover-keeps x m = bind-Guarantees (gets-Guarantees {Q = Any} _ (λ _ _. tt)) λ c1 _.
      bind-Guarantees (gets-Guarantees {Q = Any} _ (λ _ _. tt)) λ c2 _.
        bind-Guarantees (or_raise-Guarantees {Q = Any} c1 _ (λ _ _. tt)) λ company1 _.
          bind-Guarantees (or_raise-Guarantees {Q = Any} c2 _ (λ _ _. tt)) λ company2 _.
            bind-Guarantees (gets-Guarantees {Q = Any} _ (λ _ _. tt)) λ u1 _.
              bind-Guarantees (gets-Guarantees {Q = Any} _ (λ _ _. tt)) λ u2 _.
                bind-Guarantees (or_raise-Guarantees {Q = Any} u1 _ (λ _ _. tt)) λ user1 _.
                  bind-Guarantees (or_raise-Guarantees {Q = Any} u2 _ (λ _ _. tt)) λ user2 _.
                    bind-Guarantees (raise_if-Guarantees _ _) λ _ _.
                      bind-Guarantees (fresh-Inv log) λ id1 _.
                        bind-Guarantees (fresh-Inv log) λ id2 _.
                          bind-Guarantees (code-Inv log x) λ code _.
                            bind-Guarantees (fresh-Inv log) λ id _.
                              bind-Guarantees (gets-Guarantees {Q = Any} _ (λ _ _. tt)) λ now _.
                                bind-Guarantees (create-Inv log _ (ground arith)) λ _ _.
                                  bind-Guarantees (append_full-Inv log _) λ _ _.
                                    bind-Guarantees (when-Guarantees _ (minuta-Inv _ _ _))
                                      λ _ _. pure-Guarantees _ (ground arith)
