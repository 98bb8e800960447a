-- ===== src/Conversations/Life/Paths.antt =====
-- How one contact fares while the contacts evolve.
use econmesh_api.Prelude.{
  ℕ, ◌≤◌, ◌≡◌, refl, sym, some, List, [], ◌∷◌, ◌⊎◌, inl, inr, arith, findb, findb-append_left,
  findb-update_first_cases,
}
use mathlib.Core.Path.{subst}
use econmesh_api.Accounts.{CompanyDocument}
use econmesh_api.Conversations.Life.{
  Contact, Move, close, reopen, ask_reopen, refuse_reopen, ask_new_contact, refuse_new_contact,
  accept_new_contact, replace, named, Evolves, stays, moves, begins,
}

Move-id :
    {cos : List CompanyDocument} {u : ℕ} {k j : Contact}
    → Move cos u k j
    → (id : ℕ) → named id j ≡ named id k
Move-id (close side o a) id = refl
Move-id (reopen w e) id = refl
Move-id (ask_reopen side w e r) id = refl
Move-id (refuse_reopen w e r) id = refl
Move-id (ask_new_contact side w e r) id = refl
Move-id (refuse_new_contact w e r) id = refl
Move-id (accept_new_contact w e r) id = refl
Move-id (replace w o) id = refl

-- the contact that has this name now
pub record Stayed (id : ℕ) (k : Contact) (js : List Contact) : Type 0 where
  pub found : findb (named id) js ≡ some k

pub record Moved (cos : List CompanyDocument) (u id : ℕ) (k : Contact) (js : List Contact)
    : Type 0 where
  pub now : Contact
  pub found : findb (named id) js ≡ some now
  pub move : Move cos u k now

-- Without a move every contact stays as it is.
Evolves-Stayed :
    {cos : List CompanyDocument} {u : ℕ} {ks : List Contact} (id : ℕ) (k : Contact) {n : ℕ}
    {js : List Contact}
    → Evolves cos u ks n js
    → n ≡ 0
    → findb (named id) ks ≡ some k
    → findb (named id) js ≡ some k
Evolves-Stayed id k stays z h = h
Evolves-Stayed id k (moves e f i found m) z h = absurd (omega arith)
Evolves-Stayed id k (begins e i fresh free) z h =
    findb-append_left (named id) _ (i ∷ []) k (Evolves-Stayed id k e z h)

-- With one move at most, each contact stays or makes the move.
pub Evolves-Moved :
    {cos : List CompanyDocument} {u : ℕ} {ks : List Contact} (id : ℕ) (k : Contact) {n : ℕ}
    {js : List Contact}
    → Evolves cos u ks n js
    → n ≤ 1
    → findb (named id) ks ≡ some k
    → Stayed id k js ⊎ Moved cos u id k js
Evolves-Moved id k stays z h = inl (record { found = h })
Evolves-Moved {cos = cos} {u = u} id k (moves e f i found m) z h =
    let before = Evolves-Stayed id k e (omega arith) h in
    elim (findb-update_first_cases (named i.id) (named id) f _ i k found (Move-id m id) before) [
      | inl same ↦ inl (record { found = same })
      | inr (same, after) ↦
          inr (record {
            now = f i;
            found = after;
            move = subst (λ j. Move cos u j (f i)) (sym same) m;
          })
    ]
Evolves-Moved id k (begins e i fresh free) z h = elim (Evolves-Moved id k e z h) [
  | inl s ↦ inl (record { found = findb-append_left (named id) _ (i ∷ []) k s.found })
  | inr s ↦ inr (record {
    now = s.now;
    found = findb-append_left (named id) _ (i ∷ []) s.now s.found;
    move = s.move;
  })
]
