-- ===== src/Conversations/Life/Keys.antt =====
-- Contacts without collisions: the active contact between two sides is found by its name and by its
-- sides, and when it is set aside another may begin between them.
use econmesh_api.Prelude.{
  ℕ, Bool, true, false, ◌&&◌, ◌||◌, ◌≡◌, sym, ap, ◌∙◌, some, List, [], ◌∷◌, inl, inr, arith, findb,
  findb-anyb-false, anyb, anyb-||, anyb-false_mono, anyb-update_first, update_first, ◌==◌,
  Bool-cases,
}
use mathlib.Core.Path.{subst}
use mathlib.Core.Option.{some-injective}
use econmesh_api.Conversations.Life.{Contact, named, collides}
use econmesh_api.Conversations.Life.Soundness.{IsDistinct}

abbrev pub is_between : ℕ → ℕ → Contact → Bool
is_between opp company k = k.opportunity_id == opp && k.company_id == company && k.is_active

named_head : (j : Contact) (ks : List Contact) → findb (named j.id) (j ∷ ks) ≡ some j
named_head j ks = ground arith

past_head :
    (j : Contact) (ks : List Contact) (k : Contact)
    → collides j k ≡ false
    → findb (named k.id) ks ≡ some k
    → findb (named k.id) (j ∷ ks) ≡ some k
past_head j ks k h found = ground arith

-- an entry found by any test is found by its name
pub distinct-found :
    (p : Contact → Bool) (ks : List Contact) (k : Contact)
    → IsDistinct ks
    → findb p ks ≡ some k
    → findb (named k.id) ks ≡ some k
distinct-found p [] k h found = cc
distinct-found p (j ∷ ks) k h found = elim (Bool-cases (p j)) [
  | inl e ↦
      subst (λ i. findb (named i.id) (j ∷ ks) ≡ some i) (some-injective _ _ (rw e at found))
        (named_head j ks)
  | inr e ↦
      let deeper : findb p ks ≡ some k = rw e at found in
      past_head j ks k (findb-anyb-false p (collides j) ks k deeper h.0)
        (distinct-found p ks k h.1 deeper)
]

-- an active contact found by its name is found by its sides
pub distinct-between :
    (ks : List Contact) (k : Contact)
    → IsDistinct ks
    → k.is_active ≡ true
    → findb (named k.id) ks ≡ some k
    → findb (is_between k.opportunity_id k.company_id) ks ≡ some k
distinct-between [] k h active found = cc
distinct-between (j ∷ ks) k h active found = elim (Bool-cases (named k.id j)) [
  | inl e ↦
      subst (λ i. findb (is_between i.opportunity_id i.company_id) (j ∷ ks) ≡ some i)
        (some-injective _ _ (rw e at found))
        (between_head j ks (ap (λ i. i.is_active) (some-injective _ _ (rw e at found)) ∙ active))
  | inr e ↦
      let deeper : findb (named k.id) ks ≡ some k = rw e at found in
      past_between j ks k active (findb-anyb-false (named k.id) (collides j) ks k deeper h.0)
        (distinct-between ks k h.1 active deeper)
]
  where
    between_head :
        (j : Contact) (ks : List Contact)
        → j.is_active ≡ true
        → findb (is_between j.opportunity_id j.company_id) (j ∷ ks) ≡ some j
    between_head j ks h = ground arith

    past_between :
        (j : Contact) (ks : List Contact) (k : Contact)
        → k.is_active ≡ true
        → collides j k ≡ false
        → findb (is_between k.opportunity_id k.company_id) ks ≡ some k
        → findb (is_between k.opportunity_id k.company_id) (j ∷ ks) ≡ some k
    past_between j ks k active h found = ground arith

-- once it is set aside no active contact is left between the two sides
pub cleared :
    (g : Contact → Contact) (opp company : ℕ) (ks : List Contact) (k : Contact)
    → ((j : Contact) → (g j).is_active ≡ false)
    → IsDistinct ks
    → findb (is_between opp company) ks ≡ some k
    → anyb (is_between opp company) (update_first (named k.id) g ks) ≡ false
cleared g opp company [] k off h found = cc
cleared g opp company (j ∷ ks) k off h found = elim (Bool-cases (is_between opp company j)) [
  | inl e ↦
      subst (λ i. anyb (is_between opp company) (update_first (named i.id) g (j ∷ ks)) ≡ false)
        (some-injective _ _ (rw e at found))
        (head j e
          (anyb-false_mono (collides j) (is_between opp company) ks (λ i b. meet j i e b) h.0))
  | inr e ↦
      let deeper : findb (is_between opp company) ks ≡ some k = rw e at found in
      past j k e (findb-anyb-false (is_between opp company) (collides j) ks k deeper h.0)
        (cleared g opp company ks k off h.1 deeper)
]
  where
    meet :
        (j i : Contact)
        → is_between opp company j ≡ true
        → is_between opp company i ≡ true
        → collides j i ≡ true
    meet j i a b = ground arith

    head :
        (j : Contact)
        → is_between opp company j ≡ true
        → anyb (is_between opp company) ks ≡ false
        → anyb (is_between opp company) (update_first (named j.id) g (j ∷ ks)) ≡ false
    head j a b = let o = off j in ground arith

    past :
        (j k : Contact)
        → is_between opp company j ≡ false
        → collides j k ≡ false
        → anyb (is_between opp company) (update_first (named k.id) g ks) ≡ false
        → anyb (is_between opp company) (update_first (named k.id) g (j ∷ ks)) ≡ false
    past j k a b c = ground arith

-- then a contact with an unused name may begin there
pub no_collision :
    (k : Contact) (ks : List Contact)
    → k.is_active ≡ true
    → anyb (named k.id) ks ≡ false
    → anyb (is_between k.opportunity_id k.company_id) ks ≡ false
    → anyb (collides k) ks ≡ false
no_collision k ks active unused apart =
    anyb-false_mono (λ j. named k.id j || is_between k.opportunity_id k.company_id j) (collides k)
      ks (λ j h. ground arith) (anyb-|| (named k.id) _ ks unused apart)

-- the names stay
pub unused-update_first :
    (n id : ℕ) (g : Contact → Contact) (ks : List Contact) (k : Contact)
    → ((j : Contact) → (g j).id ≡ j.id)
    → findb (named id) ks ≡ some k
    → anyb (named n) ks ≡ false
    → anyb (named n) (update_first (named id) g ks) ≡ false
unused-update_first n id g ks k same found =
    anyb-update_first (named id) (named n) g ks k found (λ h. ap (λ m. m == n) (sym (same k)) ∙ h)
