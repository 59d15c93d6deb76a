-- ===== src/Chat/Reads.antt =====
-- backend/app/services/chat_service.py: what is read of conversations, and by whom.
use keel_be.Prelude.{
  ℕ, zero, suc, ◌≤◌, ◌≡◌, ◌≢◌, refl, ◌∙◌, Bool, true, some, List, [], ◌∷◌, ◌++◌, ◌==◌, arith, inl,
  inr, min, ap, length-append, length-take, max, take, select, length, All, Option-cases,
  Bool-cases,
}
use keel_be.Prelude.Rows.{get}
use keel_be.Models.Chat.{Conversation, conversation_key}
use keel_be.Core.Session.{ok, err}
use keel_be.Chat.{
  Env, Message, Tables, reversed, recent_messages, messages_of, get_messages, load_history,
  conversation_not_found,
}

-- Each row is at least as old as the rows before it.
abbrev pub NewestFirst : (env : Env) → List (Message env) → Type 0
NewestFirst env [] = Unit
NewestFirst env (m ∷ ms) =
    All (λ (n : Message env). n.created_at ≤ m.created_at) ms × NewestFirst env ms

-- Each row is at most as old as the rows after it.
abbrev pub OldestFirst : (env : Env) → List (Message env) → Type 0
OldestFirst env [] = Unit
OldestFirst env (m ∷ ms) =
    All (λ (n : Message env). m.created_at ≤ n.created_at) ms × OldestFirst env ms

-- `ORDER BY created_at DESC`: the rows that it is given, the newest first.
pub record OrderLaws (env : Env) : Type 1 where
  pub sorted : (ms : List (Message env)) → NewestFirst env (env.newest_first ms)
  pub newest_first-All :
      (P : Message env → Type 0) (ms : List (Message env)) → All P ms → All P (env.newest_first ms)
  pub length-newest_first : (ms : List (Message env)) → length (env.newest_first ms) ≡ length ms

module _ {A : Type 0} (P : A → Type 0) where
  All-append : (xs ys : List A) → All P xs → All P ys → All P (xs ++ ys)
  All-append [] ys h k = k
  All-append (x ∷ xs) ys h k = (h.0, All-append xs ys h.1 k)

  All-reversed : (xs : List A) → All P xs → All P (reversed xs)
  unfolding reversed
  All-reversed [] h = tt
  All-reversed (x ∷ xs) h = All-append (reversed xs) (x ∷ []) (All-reversed xs h.1) (h.0, tt)

  All-take : (n : ℕ) (xs : List A) → All P xs → All P (take n xs)
  All-take zero xs h = tt
  All-take (suc n) [] h = tt
  All-take (suc n) (x ∷ xs) h = (h.0, All-take n xs h.1)

All-select : {A : Type 0} (p : A → Bool) (xs : List A) → All (λ x. p x ≡ true) (select p xs)
All-select p [] = tt
All-select p (x ∷ xs) = elim (Bool-cases (p x)) [
  | inl passes ↦ rw passes (passes, All-select p xs)
  | inr fails ↦ rw fails (All-select p xs)
]

length-reversed : {A : Type 0} (xs : List A) → length (reversed xs) ≡ length xs
unfolding reversed
length-reversed [] = refl
length-reversed (x ∷ xs) = omega (arith, length-append (reversed xs) (x ∷ []), length-reversed xs)

module _ (env : Env) where
  NewestFirst-take :
      (n : ℕ) (ms : List (Message env)) → NewestFirst env ms → NewestFirst env (take n ms)
  NewestFirst-take zero ms h = tt
  NewestFirst-take (suc n) [] h = tt
  NewestFirst-take (suc n) (m ∷ ms) h = (
    All-take (λ (k : Message env). k.created_at ≤ m.created_at) n ms h.0,
    NewestFirst-take n ms h.1,
  )

  OldestFirst-snoc :
      (ms : List (Message env)) (m : Message env)
      → OldestFirst env ms
      → All (λ (n : Message env). n.created_at ≤ m.created_at) ms
      → OldestFirst env (ms ++ m ∷ [])
  OldestFirst-snoc [] m h k = (tt, tt)
  OldestFirst-snoc (n ∷ ms) m h k = (
    All-append (λ (x : Message env). n.created_at ≤ x.created_at) ms (m ∷ []) h.0 (k.0, tt),
    OldestFirst-snoc ms m h.1 k.1,
  )

  OldestFirst-reversed :
      (ms : List (Message env)) → NewestFirst env ms → OldestFirst env (reversed ms)
  unfolding reversed
  OldestFirst-reversed [] h = tt
  OldestFirst-reversed (m ∷ ms) h =
      OldestFirst-snoc (reversed ms) m (OldestFirst-reversed ms h.1)
        (All-reversed (λ (n : Message env). n.created_at ≤ m.created_at) ms h.0)

  module _ (laws : OrderLaws env) (db : Tables env) where
    -- The messages that a workspace reads of a conversation of its own are at most as many as it asks
    -- for, and at least one if there is one to show, are all of that conversation, and come the oldest
    -- first.
    pub get_messages_lem :
        (workspace_id conversation_id limit : ℕ) {conv : Conversation}
        → get conversation_id db.conversations ≡ some conv
        → conv.workspace_id ≡ workspace_id
        → (ms : List (Message env)) × (get_messages env workspace_id conversation_id limit db
            ≡ ok ms)
          × (length ms ≡ min (max 1 limit) (length (messages_of env conversation_id db)))
          × All (λ m. (m.conversation_id == conversation_id) ≡ true) ms
          × OldestFirst env ms
    unfolding get_messages recent_messages
    get_messages_lem workspace_id conversation_id limit {conv} found own =
        let rows = messages_of env conversation_id db in
        let sorted = env.newest_first rows in
        (
          recent_messages env conversation_id limit db,
          ground (arith, found, own),
          length-reversed (take (max 1 limit) sorted)
              ∙ length-take (max 1 limit) sorted
              ∙ ap (min (max 1 limit)) (laws.length-newest_first rows),
          All-reversed (λ (m : Message env). (m.conversation_id == conversation_id) ≡ true)
              (take (max 1 limit) sorted)
              (All-take (λ (m : Message env). (m.conversation_id == conversation_id) ≡ true)
                (max 1 limit) sorted
                (laws.newest_first-All
                  (λ (m : Message env). (m.conversation_id == conversation_id) ≡ true) rows
                  (All-select (λ (m : Message env). m.conversation_id == conversation_id)
                    db.messages))),
          OldestFirst-reversed (take (max 1 limit) sorted)
              (NewestFirst-take (max 1 limit) sorted (laws.sorted rows)),
        )

  -- A conversation of another workspace, like one that does not exist, is not shown, and gives a
  -- question no history.
  pub foreign_unread :
      (db : Tables env) (workspace_id conversation_id limit : ℕ)
      → ((conv : Conversation)
          → get conversation_id db.conversations ≡ some conv
          → conv.workspace_id ≢ workspace_id)
      → (get_messages env workspace_id conversation_id limit db ≡ err conversation_not_found)
        × (load_history env (some conversation_id) workspace_id db ≡ [])
  unfolding get_messages load_history
  foreign_unread db workspace_id conversation_id limit foreign =
      elim (Option-cases (get conversation_id db.conversations)) [
        | inl absent ↦ (ground arith, ground arith)
        | inr (conv, present) ↦
            (ground (arith, foreign conv present), ground (arith, foreign conv present))
      ]
