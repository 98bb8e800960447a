-- ===== src/Agreements/Invariant/Listing.antt =====
-- Listing agreements keeps the invariant.
use econmesh_api.Prelude.{
  ℕ, zero, suc, List, [], ◌∷◌, take, drop, All, All-filterb, Bool-cases, inl, inr,
}
use econmesh_api.Text.{Text}
use econmesh_api.Service.{Guarantees, Any, bind-Guarantees, pure-Guarantees, gets-Guarantees}
use econmesh_api.Accounts.{Role}
use econmesh_api.Agreements.Model.{AgreementDocument, AgreementEventDocument}
use econmesh_api.Agreements.Listing.{
  AgreementSort, AgreementListParams, AgreementListResponse, in_order, insert_in, sorted,
  list_filtered, expire_listed, list,
}
use econmesh_api.Agreements.Invariant.Base.{Inv, IsSound, resolve-Inv, expire-Inv}

insert_in-All :
    (P : AgreementDocument → Type 0) (sort : AgreementSort) (d : AgreementDocument)
    (ds : List AgreementDocument)
    → P d
    → All P ds
    → All P (insert_in sort d ds)
insert_in-All P sort d [] own h = (own, tt)
insert_in-All P sort d (e ∷ es) own h = elim (Bool-cases (in_order sort d e)) [
  | inl m ↦ rw m (own, h)
  | inr m ↦ rw m (h.0, insert_in-All P sort d es own h.1)
]

sorted-All :
    (P : AgreementDocument → Type 0) (sort : AgreementSort) (ds : List AgreementDocument)
    → All P ds
    → All P (sorted sort ds)
sorted-All P sort [] h = tt
sorted-All P sort (d ∷ ds) h =
    insert_in-All P sort d (sorted sort ds) h.0 (sorted-All P sort ds h.1)

take-All :
    (P : AgreementDocument → Type 0) (n : ℕ) (ds : List AgreementDocument)
    → All P ds
    → All P (take n ds)
take-All P zero ds h = tt
take-All P (suc n) [] h = tt
take-All P (suc n) (d ∷ ds) h = (h.0, take-All P n ds h.1)

drop-All :
    (P : AgreementDocument → Type 0) (n : ℕ) (ds : List AgreementDocument)
    → All P ds
    → All P (drop n ds)
drop-All P zero ds h = h
drop-All P (suc n) [] h = tt
drop-All P (suc n) (d ∷ ds) h = drop-All P n ds h.1

module _ (log : List AgreementEventDocument) where
  expire_listed-keeps :
      (docs : List AgreementDocument)
      → All IsSound docs
      → Guarantees (Inv log) (Any {A = Unit {0}}) (expire_listed docs)
  unfolding expire_listed
  expire_listed-keeps [] h = pure-Guarantees _ tt
  expire_listed-keeps (doc ∷ docs) h =
      bind-Guarantees (expire-Inv log doc h.0) λ _ _. expire_listed-keeps docs h.1

  pub list-keeps :
      (asked : AgreementListParams) (uid : Text) (role : Role)
      → Guarantees (Inv log) (Any {A = AgreementListResponse}) (list asked uid role)
  unfolding list list_filtered
  list-keeps asked uid role = bind-Guarantees (resolve-Inv log uid) λ user _.
      bind-Guarantees (gets-Guarantees {Q = Any} _ (λ _ _. tt)) λ companies _.
        bind-Guarantees {Q = All IsSound}
          (gets-Guarantees _ (λ w v. take-All IsSound _ _ (
            drop-All IsSound _ _
              (sorted-All IsSound _ _ (All-filterb IsSound _ w.agreements v.sound)))))
          λ docs sound. bind-Guarantees (gets-Guarantees {Q = Any} _ (λ _ _. tt)) λ total _.
            bind-Guarantees (expire_listed-keeps docs sound) λ _ _.
              bind-Guarantees (gets-Guarantees {Q = Any} _ (λ _ _. tt))
                λ listed _. pure-Guarantees _ tt
