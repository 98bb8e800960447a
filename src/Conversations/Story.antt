-- ===== src/Conversations/Story.antt =====
-- The conversations over many requests, of any users and in any order.
use econmesh_api.Prelude.{
  ℕ, ◌≡◌, refl, sym, ap, ◌∙◌, none, List, [], ◌∷◌, ◌⊎◌, inl, inr, findb, Option-cases, some,
}
use mathlib.Core.Option.{some-injective}
use econmesh_api.Text.{Text}
use econmesh_api.Service.{Result, ok, err, Ends}
use econmesh_api.Accounts.{UserDocument, user_by_firebase_uid}
use econmesh_api.Conversations.World.{ConversationWorld, Collaborators}
use econmesh_api.Conversations.Requests.{Request, perform}
use econmesh_api.Conversations.Life.{Contact, named}
use econmesh_api.Conversations.Life.Soundness.{IsSound, Evolves-IsSound}
use econmesh_api.Conversations.Life.Paths.{Stayed, Moved, Evolves-Moved}
use econmesh_api.Conversations.Changes.{contacts}
use econmesh_api.Conversations.Refinement.{Follows}
use econmesh_api.Conversations.Traffic.{perform-Follows}

-- the state that a run leaves, whether it returned or raised
ends-Follows :
    (u : ℕ) (s : ConversationWorld) (r : Result (Unit {0}) × ConversationWorld)
    → Ends (λ _. Follows u s) (Follows u s) r
    → Follows u s r.1
ends-Follows u s (ok a, t) h = h
ends-Follows u s (err e, t) h = h

-- In a sound state a request of a known user, whether it returns or raises, leaves every stored contact
-- as it was or moves it once along the life of a contact, by a move that this user may make: a
-- contact is closed and asked for by its sides, opened, renewed and answered by its closer, and replaced
-- by an owner of its interested company.
pub perform-Moved :
    (x : Collaborators) (r : Request) (uid : Text) (s : ConversationWorld) (user : UserDocument)
    (id : ℕ) (k : Contact)
    → user_by_firebase_uid uid s.users ≡ some user
    → IsSound (contacts s)
    → findb (named id) (contacts s) ≡ some k
    → Stayed id k (contacts (perform x r uid s).1)
      ⊎ Moved s.companies user.id id k (contacts (perform x r uid s).1)
perform-Moved x r uid s user id k known sound there =
    let h = ends-Follows user.id s (perform x r uid s) (
      (perform-Follows x r uid s user.id
          (λ a e. ap (λ v. v.id) (some-injective _ _ (sym e ∙ known))) sound).run
        s refl) in
    Evolves-Moved id k h.path h.at_most_one there

-- the requests of many users, in any order
pub run_requests : Collaborators → List (Text × Request) → ConversationWorld → ConversationWorld
run_requests x [] s = s
run_requests x ((uid, r) ∷ rs) s = run_requests x rs (perform x r uid s).1

perform-IsSound :
    (x : Collaborators) (r : Request) (uid : Text) (s : ConversationWorld)
    → IsSound (contacts s)
    → IsSound (contacts (perform x r uid s).1)
perform-IsSound x r uid s sound = elim (Option-cases (user_by_firebase_uid uid s.users)) [
  | inl e ↦ after 0 (λ a known. none-known (sym e ∙ known))
  | inr (user, e) ↦ after user.id (λ a known. ap (λ v. v.id) (some-injective _ _ (sym known ∙ e)))
]
  where
    none-known : {a : UserDocument} {P : Type 0} → none ≡ some a → P
    none-known h = cc

    after :
        (u : ℕ)
        → ((a : UserDocument) → user_by_firebase_uid uid s.users ≡ some a → a.id ≡ u)
        → IsSound (contacts (perform x r uid s).1)
    after u acts =
        let h =
          ends-Follows u s (perform x r uid s)
            ((perform-Follows x r uid s u acts sound).run s refl) in
        Evolves-IsSound h.path sound

-- From a sound state any sequence of requests of any users leads to a sound state: open contacts are
-- active without closer or request, closed ones were closed by one side and asked for by the other, and
-- no two active contacts join one opportunity and one company.
pub run_requests-IsSound :
    (x : Collaborators) (rs : List (Text × Request)) (s : ConversationWorld)
    → IsSound (contacts s)
    → IsSound (contacts (run_requests x rs s))
unfolding run_requests
run_requests-IsSound x [] s h = h
run_requests-IsSound x ((uid, r) ∷ rs) s h =
    run_requests-IsSound x rs (perform x r uid s).1 (perform-IsSound x r uid s h)
