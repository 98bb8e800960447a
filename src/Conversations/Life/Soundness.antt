-- ===== src/Conversations/Life/Soundness.antt =====
-- What holds of every contact between two requests, by induction on how the contacts evolve.
use econmesh_api.Prelude.{
  ℕ, ◌≡◌, ◌≢◌, refl, sym, ◌∙◌, Bool, true, false, ◌||◌, none, some, List, [], ◌∷◌, ◌++◌, inl, inr,
  arith, anyb, anyb-false_mono, anyb-update_first, findb, update_first, All, All-append,
  All-update_first, findb-All, anyb-append, Bool-cases,
}
use mathlib.Core.Option.{some-injective}
use mathlib.Core.Path.{subst}
use econmesh_api.Accounts.{CompanyDocument}
use econmesh_api.Conversations.Model.{ConversationStatus}
use econmesh_api.Conversations.Life.{
  Contact, IsSide, Move, close, reopen, ask_reopen, refuse_reopen, ask_new_contact,
  refuse_new_contact, accept_new_contact, replace, named, collides, IsNew, Evolves, stays, moves,
  begins,
}

-- An open contact is active and has no closer and no request; a closed one was closed by one of its
-- two sides, and a request comes from the side that did not close it.
pub record IsCoherent (k : Contact) : Type 0 where
  pub open_active : k.status ≡ ConversationStatus.«open» → k.is_active ≡ true
  pub open_not_closed : k.status ≡ ConversationStatus.«open» → k.closer ≡ none
  pub open_not_reopened : k.status ≡ ConversationStatus.«open» → k.reopen_requester ≡ none
  pub open_not_renewed : k.status ≡ ConversationStatus.«open» → k.new_contact_requester ≡ none
  pub closed_by_side :
      k.status ≡ ConversationStatus.closed → (u : ℕ) × (k.closer ≡ some u) × IsSide k u
  pub reopen_by_other : (u : ℕ) → k.reopen_requester ≡ some u → IsSide k u × (k.closer ≢ some u)
  pub new_contact_by_other :
      (u : ℕ) → k.new_contact_requester ≡ some u → IsSide k u × (k.closer ≢ some u)

IsNew-IsCoherent : (k : Contact) → IsNew k → IsCoherent k
IsNew-IsCoherent k h = ground arith

pub Move-IsCoherent :
    {cos : List CompanyDocument} {u : ℕ} {k j : Contact}
    → Move cos u k j
    → IsCoherent k
    → IsCoherent j
Move-IsCoherent {u = u} (close side o a) h = ground arith
Move-IsCoherent (reopen (c, a) e) h = ground arith
Move-IsCoherent {u = u} (ask_reopen side (c, a) e r) h = ground arith
Move-IsCoherent (refuse_reopen (c, a) e r) h = ground arith
Move-IsCoherent {u = u} (ask_new_contact side (c, a) e r) h = ground arith
Move-IsCoherent (refuse_new_contact (c, a) e r) h = ground arith
Move-IsCoherent (accept_new_contact (c, a) e r) h = ground arith
Move-IsCoherent (replace (c, a) o) h = ground arith

-- no two contacts of one name, nor two active ones between one opportunity and one company
abbrev pub IsDistinct : List Contact → Type 0
IsDistinct [] = Unit
IsDistinct (k ∷ ks) = (anyb (collides k) ks ≡ false) × IsDistinct ks

collides_comm : (k j : Contact) → collides k j ≡ true → collides j k ≡ true
collides_comm k j h = ground arith

-- a move keeps the opportunity and the company, and makes no contact active
Move-collides :
    {cos : List CompanyDocument} {u : ℕ} {k j : Contact}
    → Move cos u k j
    → (i : Contact) → collides j i ≡ true
    → collides k i ≡ true
Move-collides (close side o a) i h = h
Move-collides (reopen w e) i h = h
Move-collides (ask_reopen side w e r) i h = h
Move-collides (refuse_reopen w e r) i h = h
Move-collides (ask_new_contact side w e r) i h = h
Move-collides (refuse_new_contact w e r) i h = h
Move-collides {k = k} (accept_new_contact w e r) i h = ground arith
Move-collides {k = k} (replace w o) i h = ground arith

collides-Move :
    {cos : List CompanyDocument} {u : ℕ} {k j : Contact}
    → Move cos u k j
    → (i : Contact) → collides i j ≡ true
    → collides i k ≡ true
collides-Move {k} {j} m i h = collides_comm k i (Move-collides m i (collides_comm i j h))

||-false : (a b : Bool) → (a || b) ≡ false → (a ≡ false) × (b ≡ false)
||-false a b h = ground arith

both-false : {a b : Bool} → a ≡ false → b ≡ false → (a || b) ≡ false
both-false h g = cc

comm-false : {a b : Bool} → (a ≡ true → b ≡ true) → b ≡ false → a ≡ false
comm-false {a} {b} h e = ground arith

append-IsDistinct :
    (ks : List Contact) (k : Contact)
    → IsDistinct ks
    → anyb (collides k) ks ≡ false
    → IsDistinct (ks ++ k ∷ [])
append-IsDistinct [] k h free = (refl, tt)
append-IsDistinct (j ∷ ks) k h free =
    let (before, apart) = ||-false (collides k j) (anyb (collides k) ks) free in
    (
      anyb-append (collides j) ks (k ∷ [])
          ∙ both-false h.0 (both-false (comm-false (collides_comm j k) before) refl),
      append-IsDistinct ks k h.1 apart,
    )

update-IsDistinct :
    {cos : List CompanyDocument} {u : ℕ} (p : Contact → Bool) (f : Contact → Contact)
    (ks : List Contact) (k : Contact)
    → findb p ks ≡ some k
    → Move cos u k (f k)
    → IsDistinct ks
    → IsDistinct (update_first p f ks)
update-IsDistinct {cos = cos} {u = u} p f [] k found m h = tt
update-IsDistinct {cos = cos} {u = u} p f (j ∷ ks) k found m h = elim (Bool-cases (p j)) [
  | inl e ↦
      let same : j ≡ k = some-injective _ _ (rw e at found) in
      rw e (
        anyb-false_mono (collides j) (collides (f j)) ks
            (Move-collides (subst (λ i. Move cos u i (f i)) (sym same) m)) h.0,
        h.1,
      )
  | inr e ↦
      let deeper = rw e at found in
      rw e (
        anyb-update_first p (collides j) f ks k deeper (collides-Move m j) h.0,
        update-IsDistinct p f ks k deeper m h.1,
      )
]

-- what holds of the contacts between two requests
pub record IsSound (ks : List Contact) : Type 0 where
  pub coherent : All IsCoherent ks
  pub distinct : IsDistinct ks

-- However the contacts evolve, they stay sound.
pub Evolves-IsSound :
    {cos : List CompanyDocument} {u : ℕ} {ks : List Contact} {n : ℕ} {js : List Contact}
    → Evolves cos u ks n js
    → IsSound ks
    → IsSound js
Evolves-IsSound stays h = h
Evolves-IsSound (moves e f k found m) h =
    let s = Evolves-IsSound e h in
    record {
      coherent =
          All-update_first IsCoherent (named k.id) f _ k found
            (Move-IsCoherent m (findb-All IsCoherent (named k.id) _ k s.coherent found)) s.coherent;
      distinct = update-IsDistinct (named k.id) f _ k found m s.distinct;
    }
Evolves-IsSound (begins e k fresh free) h =
    let s = Evolves-IsSound e h in
    record {
      coherent = All-append IsCoherent _ (k ∷ []) s.coherent (IsNew-IsCoherent k fresh, tt);
      distinct = append-IsDistinct _ k s.distinct free;
    }
