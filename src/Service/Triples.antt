-- ===== src/Service/Triples.antt =====
-- Triples for service methods: from a state with `P` a method ends with `Q` of its value and state, or
-- raises in a state with `E`. Where `E` is empty the method returns. A method that only reads leaves
-- the state as it was, whether it returns or raises.
use econmesh_api.Prelude.{Bool, true, false, Option, none, some, ◌≡◌, refl, sym, ap}
use mathlib.Core.Path.{subst}
use mathlib.Core.Option.{some-injective}
use econmesh_api.Service.Defs.{
  AppException, Result, ok, err, Action, pure, raise, gets, or_raise, ◌>>=◌, resume, raise_if,
  modify, when, branch, match_some,
}

abbrev pub Ends : {S A : Type 0} → (A → S → Type 0) → (S → Type 0) → Result A × S → Type 0
Ends Q E (ok a, s) = Q a s
Ends Q E (err e, s) = E s

pub record Runs {S A : Type 0} (P : S → Type 0) (m : Action S A) (Q : A → S → Type 0)
    (E : S → Type 0) : Type 0 where
  pub run : (s : S) → P s → Ends Q E (m s)

-- nothing is raised
abbrev pub Returns : {S A : Type 0} → (S → Type 0) → Action S A → (A → S → Type 0) → Type 0
Returns P m Q = Runs P m Q (λ s. ⊥)

-- nothing is written, and the value has the property `F`
abbrev pub Reads : {S A : Type 0} → S → Action S A → (A → Type 0) → Type 0
Reads s0 m F = Runs (λ s. s ≡ s0) m (λ a s. (s ≡ s0) × F a) (λ s. s ≡ s0)

module _ {S A B : Type 0} {P : S → Type 0} {E : S → Type 0} {R : B → S → Type 0} where
  pub bind-Runs :
      {Q : A → S → Type 0} {m : Action S A} {f : A → Action S B}
      → Runs P m Q E
      → ((a : A) → Runs (Q a) (f a) R E)
      → Runs P (m >>= f) R E
  unfolding ◌>>=◌
  bind-Runs {Q} {m} {f} gm gf = record { run = λ s h. go (m s) (gm.run s h) }
    where
      go : (r : Result A × S) → Ends Q E r → Ends R E (resume f r)
      go (ok a, u) q = (gf a).run u q
      go (err e, u) q = q

module _ {S A B : Type 0} {E : S → Type 0} {R : B → S → Type 0} where
  -- a part that only reads comes first
  pub after-Reads :
      (s0 : S) {F : A → Type 0} {m : Action S A} {f : A → Action S B}
      → Reads s0 m F
      → ((e : AppException) (t : S) → m s0 ≡ (err e, t) → E s0)
      → ((a : A) → F a → Runs (λ s. s ≡ s0) (f a) R E)
      → Runs (λ s. s ≡ s0) (m >>= f) R E
  unfolding ◌>>=◌
  after-Reads s0 {F} {m} {f} gm raised gf = record {
    run = λ s h. subst (λ t. Ends R E (resume f (m t))) (sym h) (go (m s0) refl (gm.run s0 refl));
  }
    where
      go :
          (r : Result A × S)
          → m s0 ≡ r
          → Ends (λ a s. (s ≡ s0) × F a) (λ s. s ≡ s0) r
          → Ends R E (resume f r)
      go (ok a, u) came (same, q) = (gf a q).run u same
      go (err e, u) came same = rw same (raised e u came)

module _ {S A B : Type 0} (s0 : S) where
  pub bind-Reads :
      {F : A → Type 0} {G : B → Type 0} {m : Action S A} {f : A → Action S B}
      → Reads s0 m F
      → ((a : A) → F a → Reads s0 (f a) G)
      → Reads s0 (m >>= f) G
  bind-Reads gm gf = after-Reads s0 gm (λ e t h. refl) gf

module _ {S A : Type 0} (s0 : S) where
  pub pure-Reads : {F : A → Type 0} (a : A) → F a → Reads s0 (pure a) F
  unfolding pure
  pure-Reads a q = record { run = λ s h. (h, q) }

  pub gets-Reads : (f : S → A) → Reads s0 (gets f) (λ a. f s0 ≡ a)
  unfolding gets
  gets-Reads f = record { run = λ s h. (h, ap f (sym h)) }

  pub or_raise-Reads : (o : Option A) (e : AppException) → Reads s0 (or_raise o e) (λ a. o ≡ some a)
  unfolding or_raise raise pure
  or_raise-Reads none e = record { run = λ s h. h }
  or_raise-Reads (some a) e = record { run = λ s h. (h, refl) }

module _ {S A : Type 0} {s0 : S} {F G : A → Type 0} where
  pub Reads-mono : {m : Action S A} → Reads s0 m F → ((a : A) → F a → G a) → Reads s0 m G
  Reads-mono {m} g k = record { run = λ s h. go (m s) (g.run s h) }
    where
      go :
          (r : Result A × S)
          → Ends (λ a s. (s ≡ s0) × F a) (λ s. s ≡ s0) r
          → Ends (λ a s. (s ≡ s0) × G a) (λ s. s ≡ s0) r
      go (ok a, u) (same, q) = (same, k a q)
      go (err e, u) q = q

module _ {S : Type 0} (s0 : S) where
  pub raise_if-Reads : (b : Bool) (e : AppException) → Reads s0 (raise_if b e) (λ _. b ≡ false)
  unfolding raise_if
  raise_if-Reads true e = record { run = λ s h. h }
  raise_if-Reads false e = record { run = λ s h. (h, refl) }

module _ {S A : Type 0} {P : S → Type 0} {Q : A → S → Type 0} {E : S → Type 0} where
  pub pure-Runs : (a : A) → ((s : S) → P s → Q a s) → Runs P (pure a) Q E
  unfolding pure
  pure-Runs a k = record { run = λ s h. k s h }

  pub gets-Runs : (f : S → A) → ((s : S) → P s → Q (f s) s) → Runs P (gets f) Q E
  unfolding gets
  gets-Runs f k = record { run = λ s h. k s h }

  pub or_raise-Runs :
      (o : Option A) (e : AppException)
      → ((s : S) → P s → (a : A) × (o ≡ some a) × Q a s)
      → Runs P (or_raise o e) Q E
  unfolding or_raise pure
  or_raise-Runs none e k = record { run = λ s h. absurd (none-some (k s h).1) }
    where
      none-some : {a : A} → none ≡ some a → ⊥
      none-some h = cc
  or_raise-Runs (some b) e k = record {
    run = λ s h. let (a, same, q) = k s h in subst (λ c. Q c s) (sym (some-injective _ _ same)) q;
  }

  pub branch-Runs :
      (b : Bool) {m n : Action S A}
      → (b ≡ true → Runs P m Q E)
      → (b ≡ false → Runs P n Q E)
      → Runs P (branch b m n) Q E
  unfolding branch
  branch-Runs true gm gn = gm refl
  branch-Runs false gm gn = gn refl

  pub match_some-Runs :
      {B : Type 0} (o : Option B) {f : B → Action S A} {n : Action S A}
      → ((b : B) → o ≡ some b → Runs P (f b) Q E)
      → (o ≡ none → Runs P n Q E)
      → Runs P (match_some o f n) Q E
  unfolding match_some
  match_some-Runs none gf gn = gn refl
  match_some-Runs (some b) gf gn = gf b refl

  -- less is assumed, or more is concluded
  pub Runs-mono :
      {P2 : S → Type 0} {Q2 : A → S → Type 0} {E2 : S → Type 0} {m : Action S A}
      → Runs P2 m Q2 E2
      → ((s : S) → P s → P2 s)
      → ((a : A) (s : S) → Q2 a s → Q a s)
      → ((s : S) → E2 s → E s)
      → Runs P m Q E
  Runs-mono {P2} {Q2} {E2} {m} g before after raised = record {
    run = λ s h. go (m s) (g.run s (before s h));
  }
    where
      go : (r : Result A × S) → Ends Q2 E2 r → Ends Q E r
      go (ok a, u) q = after a u q
      go (err e, u) q = raised u q

  -- what is assumed may be used to choose the triple
  pub given-Runs : {m : Action S A} → ((s : S) → P s → Runs (λ t. t ≡ s) m Q E) → Runs P m Q E
  given-Runs k = record { run = λ s h. (k s h).run s refl }

  -- a run that returned has its property
  pub Runs-ok :
      {m : Action S A} (s : S) {a : A} {t : S} → Runs P m Q E → P s → m s ≡ (ok a, t) → Q a t
  Runs-ok {m} s {a} {t} g h e = go (m s) e (g.run s h)
    where
      go : (r : Result A × S) → r ≡ (ok a, t) → Ends Q E r → Q a t
      go r same q = rw same at q

module _ {S : Type 0} {P : S → Type 0} {Q : Unit {0} → S → Type 0} {E : S → Type 0} where
  pub modify-Runs : (f : S → S) → ((s : S) → P s → Q tt (f s)) → Runs P (modify f) Q E
  unfolding modify
  modify-Runs f k = record { run = λ s h. k s h }

  pub raise_if-Runs :
      (b : Bool) (e : AppException)
      → ((s : S) → P s → (b ≡ false) × Q tt s)
      → Runs P (raise_if b e) Q E
  unfolding raise_if
  raise_if-Runs true e k = record { run = λ s h. absurd (true-false (k s h).0) }
    where
      true-false : true ≡ false → ⊥
      true-false h = cc
  raise_if-Runs false e k = record { run = λ s h. (k s h).1 }

  pub when-Runs :
      {m : Action S (Unit {0})} (b : Bool)
      → (b ≡ true → Runs P m Q E)
      → ((s : S) → P s → Q tt s)
      → Runs P (when b m) Q E
  unfolding when pure
  when-Runs true g k = g refl
  when-Runs false g k = record { run = λ s h. k s h }

module _ {S A : Type 0} {P : S → Type 0} {Q : A → S → Type 0} where
  -- a method that cannot raise has a value
  pub Returns-eq :
      {m : Action S A} (s : S) → Returns P m Q → P s → (a : A) × (t : S) × (m s ≡ (ok a, t)) × Q a t
  Returns-eq {m} s g h = go (m s) (g.run s h)
    where
      go : (r : Result A × S) → Ends Q (λ u. ⊥) r → (a : A) × (t : S) × (r ≡ (ok a, t)) × Q a t
      go (ok a, t) q = (a, t, refl, q)
      go (err e, t) q = absurd q

-- A part that only reads keeps whatever holds of the state, and its value has what it read.
pub keeps-Reads :
    {S A : Type 0} {F : A → S → Type 0} {m : Action S A} (P : S → Type 0)
    → ((s0 : S) → Reads s0 m (λ a. F a s0))
    → Runs P m (λ a s. P s × F a s) P
keeps-Reads {S} {A} {F} {m} P g = record { run = λ s h. go s h (m s) ((g s).run s refl) }
  where
    go :
        (s : S)
        → P s
        → (r : Result A × S) → Ends (λ a t. (t ≡ s) × F a s) (λ t. t ≡ s) r
        → Ends (λ a t. P t × F a t) P r
    go s h (ok a, t) (same, q) = (subst P (sym same) h, subst (F a) (sym same) q)
    go s h (err e, t) same = subst P (sym same) h
