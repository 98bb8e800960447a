-- ===== src/Conversations/Reading.antt =====
-- What people read of a conversation, and what reading leaves.
use econmesh_api.Prelude.{
  ℕ, Bool, true, false, not, ◌&&◌, ◌||◌, ◌≡◌, refl, sym, ap, ◌∙◌, Option, some, List, [], ◌∷◌, ◌==◌,
  arith, map, filterb, anyb, All, inl, inr, Bool-cases,
}
use mathlib.Core.Path.{subst}
use econmesh_api.Text.{Text}
use econmesh_api.Service.{
  ok, Runs, Runs-ok, Reads, bind-Reads, gets-Reads, pure-Reads, after-Reads, bind-Runs, gets-Runs,
  branch-Runs, modify-Runs, pure-Runs, when-Runs, Runs-mono, keeps-Reads,
}
use econmesh_api.Accounts.{UserDocument, user_by_firebase_uid}
use econmesh_api.Conversations.Model.{
  OpportunityConversationMessageDocument, is_user_visible, is_participant_message,
}
use econmesh_api.Conversations.World.{
  ConversationWorld, Collaborators, MessageResponse, list_by_conversation, is_listed, is_unread_for,
  read_if, mark_read,
}
use econmesh_api.Conversations.Responses.{message_to_response, personalized_message}
use econmesh_api.Conversations.Quiet.{publish-Runs}
use econmesh_api.Conversations.Threads.{list_user_messages, mark_user_messages_read, author_name}
use econmesh_api.Conversations.Guards.{load-Reads}
use econmesh_api.Conversations.Changes.{stored-id}
use mathlib.Core.Option.{some-injective}

-- a message as its reader sees it
abbrev pub IsReadable : ℕ → MessageResponse → Type 0
IsReadable id m = (m.conversation_id ≡ id) × (is_user_visible m.message_type ≡ true)

personalized-IsReadable :
    (x : Collaborators) (m : OpportunityConversationMessageDocument) (viewer id : ℕ)
    (name : Option Text)
    → m.conversation_id ≡ id
    → is_user_visible m.message_type ≡ true
    → IsReadable id (personalized_message x m viewer name)
unfolding personalized_message message_to_response
personalized-IsReadable x m viewer id name same visible = ground arith

-- marking touches the messages that were unread
Marks : List ℕ → ℕ → ℕ → OpportunityConversationMessageDocument → Type 0
Marks ids id reader m = is_unread_for id reader m ≡ true → anyb (λ i. i == m.id) ids ≡ true

or_right : (a : Bool) {b : Bool} → b ≡ true → (a || b) ≡ true
or_right a h = ground arith

Marks-weaken :
    (n : ℕ) (ids : List ℕ) (id reader : ℕ) (ms : List OpportunityConversationMessageDocument)
    → All (Marks ids id reader) ms
    → All (Marks (n ∷ ids) id reader) ms
unfolding Marks
Marks-weaken n ids id reader [] h = tt
Marks-weaken n ids id reader (m ∷ ms) h =
    (λ e. or_right (n == m.id) (h.0 e), Marks-weaken n ids id reader ms h.1)

abbrev unread_ids : ℕ → ℕ → List OpportunityConversationMessageDocument → List ℕ
unread_ids id reader ms = map (λ m. m.id) (filterb (is_unread_for id reader) ms)

unread_ids-Marks :
    (id reader : ℕ) (ms : List OpportunityConversationMessageDocument)
    → All (Marks (unread_ids id reader ms) id reader) ms
unfolding Marks
unread_ids-Marks id reader [] = tt
unread_ids-Marks id reader (m ∷ ms) = elim (Bool-cases (is_unread_for id reader m)) [
  | inl e ↦
      subst (λ ids. All (Marks ids id reader) (m ∷ ms)) (sym (with_head m ms e))
        (
          λ _. own m (unread_ids id reader ms),
          Marks-weaken m.id (unread_ids id reader ms) id reader ms (unread_ids-Marks id reader ms),
        )
  | inr e ↦
      subst (λ ids. All (Marks ids id reader) (m ∷ ms)) (sym (without_head m ms e))
        (λ h. absurd (true-false (sym h ∙ e)), unread_ids-Marks id reader ms)
]
  where
    true-false : true ≡ false → ⊥
    true-false h = cc

    own :
        (m : OpportunityConversationMessageDocument) (ids : List ℕ)
        → anyb (λ i. i == m.id) (m.id ∷ ids) ≡ true
    own m ids = ground arith

    with_head :
        (m : OpportunityConversationMessageDocument)
        (ms : List OpportunityConversationMessageDocument)
        → is_unread_for id reader m ≡ true
        → unread_ids id reader (m ∷ ms) ≡ m.id ∷ unread_ids id reader ms
    with_head m ms e = rw e refl

    without_head :
        (m : OpportunityConversationMessageDocument)
        (ms : List OpportunityConversationMessageDocument)
        → is_unread_for id reader m ≡ false
        → unread_ids id reader (m ∷ ms) ≡ unread_ids id reader ms
    without_head m ms e = rw e refl

and_off : (a b c : Bool) → (a && b && c && false) ≡ false
and_off a b c = ground arith

read_if-read :
    (ids : List ℕ) (now id reader : ℕ) (m : OpportunityConversationMessageDocument)
    → Marks ids id reader m
    → is_unread_for id reader (read_if ids now m) ≡ false
unfolding Marks
read_if-read ids now id reader m h = elim (Bool-cases (anyb (λ i. i == m.id) ids)) [
  | inl e ↦ rw e (
      and_off (m.conversation_id == id) (not (m.author_id == reader))
        (is_participant_message m.message_type))
  | inr e ↦ rw e (elim (Bool-cases (is_unread_for id reader m)) [
    | inl u ↦ absurd (false-true (sym e ∙ h u))
    | inr u ↦ u
  ])
]
  where
    false-true : false ≡ true → ⊥
    false-true h = cc

marked_read :
    (ids : List ℕ) (now id reader : ℕ) (ms : List OpportunityConversationMessageDocument)
    → All (Marks ids id reader) ms
    → anyb (is_unread_for id reader) (map (read_if ids now) ms) ≡ false
marked_read ids now id reader [] h = refl
marked_read ids now id reader (m ∷ ms) h =
    both (read_if-read ids now id reader m h.0) (marked_read ids now id reader ms h.1)
  where
    both : {a b : Bool} → a ≡ false → b ≡ false → (a || b) ≡ false
    both e f = cc

-- where nothing was unread nothing is marked
none_marked :
    (id reader : ℕ) (ms : List OpportunityConversationMessageDocument)
    → All (Marks [] id reader) ms
    → anyb (is_unread_for id reader) ms ≡ false
unfolding Marks
none_marked id reader [] h = refl
none_marked id reader (m ∷ ms) h = ground (arith, h.0, none_marked id reader ms h.1)

none_unread :
    (id reader : ℕ) (ms : List OpportunityConversationMessageDocument)
    → unread_ids id reader ms ≡ []
    → anyb (is_unread_for id reader) ms ≡ false
none_unread id reader ms h =
    none_marked id reader ms
      (subst (λ ids. All (Marks ids id reader) ms) h (unread_ids-Marks id reader ms))

-- nothing is left unread
abbrev NoneUnread : ℕ → ℕ → ConversationWorld → Type 0
NoneUnread id reader s = anyb (is_unread_for id reader) s.messages ≡ false

abbrev no_ids : List ℕ → Bool
no_ids ids = elim ids as (λ _. Bool) [ [] ↦ true | i ∷ is ↦ false ]

no_ids-nil : (ids : List ℕ) → no_ids ids ≡ true → ids ≡ []
no_ids-nil [] h = refl
no_ids-nil (i ∷ is) h = cc

mark_read-NoneUnread :
    {E : ConversationWorld → Type 0} (s0 : ConversationWorld) (id reader : ℕ)
    → Runs (λ s. s ≡ s0) (mark_read id reader) (λ _. NoneUnread id reader) E
unfolding mark_read
mark_read-NoneUnread s0 id reader = bind-Runs {Q = λ w s. s ≡ w} (gets-Runs _ (λ s h. refl)) λ w.
    branch-Runs _
      (λ e. pure-Runs _ λ s h.
        subst (NoneUnread id reader) (sym h) (none_unread id reader w.messages (no_ids-nil _ e)))
      (λ _.
        bind-Runs {Q = λ p. NoneUnread id reader}
          (modify-Runs _ λ s h.
            subst
              (λ v.
                anyb (is_unread_for id reader)
                  (map (read_if (unread_ids id reader w.messages) w.now) v.messages)
                ≡ false)
              (sym h)
              (marked_read _ w.now id reader w.messages (unread_ids-Marks id reader w.messages)))
          λ p. pure-Runs _ (λ s h. h))

-- what a listing for a participant holds
list_user_messages-Reads :
    (x : Collaborators) (s : ConversationWorld) (id : ℕ) (uid : Text)
    → Reads s (list_user_messages x id uid) (All (IsReadable id))
unfolding list_user_messages
list_user_messages-Reads x s id uid =
    bind-Reads s (load-Reads s id uid)
      λ (user, c) entry. bind-Reads s (gets-Reads s _) λ w _. pure-Reads s _ (go user w w.messages)
  where
    go :
        (user : UserDocument) (w : ConversationWorld)
        (ms : List OpportunityConversationMessageDocument)
        → All (IsReadable id) (
            map
              (λ m. personalized_message x m user.id (author_name w.users m.author_id))
              (list_by_conversation id true ms))
    go user w [] = tt
    go user w (m ∷ ms) = elim (Bool-cases (is_listed id true m)) [
      | inl e ↦ rw e (
        personalized-IsReadable x m user.id id (author_name w.users m.author_id) (same_id m e)
            (seen m e),
        go user w ms,
      )
      | inr e ↦ rw e (go user w ms)
    ]
      where
        same_id :
            (m : OpportunityConversationMessageDocument)
            → is_listed id true m ≡ true
            → m.conversation_id ≡ id
        same_id m e = ground arith

        seen :
            (m : OpportunityConversationMessageDocument)
            → is_listed id true m ≡ true
            → is_user_visible m.message_type ≡ true
        seen m e = ground arith

-- When a participant marks a conversation as read, no message of another participant is left unread in
-- it for this user, and the answer has only messages of this conversation, internal notes left out.
pub mark_user_messages_read_lem :
    (x : Collaborators) (id : ℕ) (uid : Text) (s t : ConversationWorld) (user : UserDocument)
    (ms : List MessageResponse)
    → user_by_firebase_uid uid s.users ≡ some user
    → mark_user_messages_read x id uid s ≡ (ok ms, t)
    → (anyb (is_unread_for id user.id) t.messages ≡ false) × All (IsReadable id) ms
unfolding mark_user_messages_read
mark_user_messages_read_lem x id uid s t user ms known h = Runs-ok s marks refl h
  where
    marks :
        Runs
          (λ v. v ≡ s)
          (mark_user_messages_read x id uid)
          (λ a v. NoneUnread id user.id v × All (IsReadable id) a)
          (λ v. Unit {0})
    marks =
        after-Reads s (load-Reads s id uid) (λ _ _ _. tt)
          λ (actor, c) entry.
            let named_c : c.id ≡ id = stored-id id s.conversations c entry.stored in
            let same : actor.id ≡ user.id =
              ap (λ v. v.id) (some-injective _ _ (sym entry.known ∙ known)) in
            bind-Runs {Q = λ ids. NoneUnread id user.id}
              (Runs-mono (mark_read-NoneUnread {E = λ v. Unit {0}} s c.id actor.id) (λ v e. e)
                (λ ids v e.
                  subst (λ n. NoneUnread n user.id v) named_c
                    (subst (λ n. NoneUnread c.id n v) same e))
                (λ v e. tt))
              λ ids.
                bind-Runs {Q = λ p. NoneUnread id user.id}
                  (when-Runs _ (λ _. publish-Runs x (λ v l e. e) (inr (λ v e. tt)) _ _) (λ v e. e))
                  λ p.
                    Runs-mono
                      (keeps-Reads {F = λ a _. All (IsReadable c.id) a} (NoneUnread id user.id)
                        (λ v. list_user_messages-Reads x v c.id uid))
                      (λ v e. e) (λ a v e. (e.0, subst (λ n. All (IsReadable n) a) named_c e.1))
                      (λ v e. tt)
