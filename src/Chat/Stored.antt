-- ===== src/Chat/Stored.antt =====
-- backend/app/services/chat_service.py: the two messages of a turn, and where `_persist` puts them.
use mathlib.Core.Option
use keel_be.Prelude.{
  ℕ, ◌≡◌, ◌⊎◌, inl, inr, refl, ap, ◌∙◌, Text, Option, none, some, List, [], ◌∷◌, ◌++◌, arith,
  Bool-cases, Option-cases, take, is_some, ◌==◌,
}
use keel_be.Prelude.Rows.{get, key-get, get-update_self}
use keel_be.Models.Identity.{workspace_key, user_key}
use keel_be.Models.Chat.{Conversation, EvidenceChunk, conversation_key}
use keel_be.Core.Errors.{Exc, other}
use keel_be.Core.Session.{ok, err}
use keel_be.Chat.{Env, Score, Message, Tables}
use keel_be.Chat.Answers.{
  Turn, question_row, answer_row, add_turn, new_conversation, persist, integrity_error, or_text,
}

-- A question and its answer, as two messages of one conversation.
pub record Exchange (env : Env) (ws conv_id : ℕ) (query answer : Text) (confidence : Score env)
    (evidence : List (EvidenceChunk (Score env))) (q a : Message env) : Type 0 where
  pub asked_by : q.role ≡ "user"
  pub asked : q.content ≡ query
  pub asked_in : q.conversation_id ≡ conv_id
  pub asked_for : q.workspace_id ≡ ws
  pub answered_by : a.role ≡ "assistant"
  pub answered : a.content ≡ answer
  pub answered_in : a.conversation_id ≡ conv_id
  pub answered_for : a.workspace_id ≡ ws
  pub rated : a.confidence ≡ some confidence
  pub cited : a.evidence ≡ evidence

-- The tables have one more question and its answer, in a conversation that exists, and that is the one
-- asked for if there was one.
pub record StoredIn (env : Env) (ws : ℕ) (conversation : Option ℕ) (query answer : Text)
    (confidence : Score env) (evidence : List (EvidenceChunk (Score env))) (conv_id : ℕ)
    (db db' : Tables env) : Type 0 where
  pub q : Message env
  pub a : Message env
  pub conv : Conversation
  pub messages : db'.messages ≡ db.messages ++ q ∷ a ∷ []
  pub exchange : Exchange env ws conv_id query answer confidence evidence q a
  pub kept : get conv_id db'.conversations ≡ some conv
  pub named : (i : ℕ) → conversation ≡ some i → conv_id ≡ i

module _ (env : Env) (ws : ℕ) where
  pub row-Exchange :
      (c : ℕ) (turn : Turn (Score env))
      → Exchange env ws c turn.query turn.answer turn.confidence turn.evidence
          (question_row env ws c turn)
          (answer_row env ws c turn)
  unfolding question_row answer_row
  row-Exchange c turn = record {
    asked_by = refl;
    asked = refl;
    asked_in = refl;
    asked_for = refl;
    answered_by = refl;
    answered = refl;
    answered_in = refl;
    answered_for = refl;
    rated = refl;
    cited = refl;
  }

  -- A stored turn leaves its conversation to the workspace that it belonged to.
  pub owner_kept :
      (c : ℕ) (turn : Turn (Score env)) (db : Tables env) {conv : Conversation}
      → get c db.conversations ≡ some conv
      → (conv' : Conversation) × (get c (add_turn env ws turn c db).conversations ≡ some conv')
        × (conv'.workspace_id ≡ conv.workspace_id)
  owner_kept c turn db {conv} found =
      let bump : Conversation → Conversation =
        λ x. record x { title = or_text x.title (take 48 turn.query); updated_at = env.now } in
      (
        bump conv,
        get-update_self c bump db.conversations (λ r. refl) ∙ ap (Option.map bump) found,
        refl,
      )

  -- A row added at the end is found, or one that was there before it.
  added_found :
      (rows : List Conversation) (r : Conversation)
      → (conv : Conversation) × (get r.id (rows ++ r ∷ []) ≡ some conv)
  added_found [] r = (r, ground arith)
  added_found (s ∷ rows) r =
      let (conv, e) = added_found rows r in
      elim (Bool-cases (s.id == r.id)) [
        | inl same ↦ (s, ground arith)
        | inr other' ↦ (conv, ground (arith, e))
      ]

  module _ (user conversation : Option ℕ) (turn : Turn (Score env)) (db : Tables env) where
    abbrev pub TurnStored : ℕ → Tables env → Type 0
    TurnStored conv_id db' =
        StoredIn env ws conversation turn.query turn.answer turn.confidence turn.evidence conv_id db
          db'

    add_turn-Stored :
        (c : ℕ) (db0 : Tables env) {conv : Conversation}
        → db0.messages ≡ db.messages
        → get c db0.conversations ≡ some conv
        → ((i : ℕ) → conversation ≡ some i → c ≡ i)
        → TurnStored c (add_turn env ws turn c db0)
    add_turn-Stored c db0 {conv} same found named =
        let (conv', e, o) = owner_kept c turn db0 {conv = conv} found in
        record {
          q = question_row env ws c turn;
          a = answer_row env ws c turn;
          conv = conv';
          messages =
              ap (λ ms. ms ++ question_row env ws c turn ∷ answer_row env ws c turn ∷ []) same;
          exchange = row-Exchange c turn;
          kept = e;
          named = named;
        }

    -- What `_persist` may do.
    abbrev pub Persisted : Type 0
    Persisted =
        ((e : Exc) × (persist env ws user conversation turn db ≡ (err e, db)))
        ⊎ ((c : ℕ) × (db' : Tables env) × (persist env ws user conversation turn db ≡ (ok c, db'))
            × TurnStored c db')

  -- The conversation that `_persist` finds.
  abbrev asked : Option ℕ → Tables env → Option Conversation
  asked conversation db = elim conversation [ none ↦ none | some i ↦ get i db.conversations ]

  asked-get :
      (conversation : Option ℕ) (db : Tables env) {conv : Conversation}
      → asked conversation db ≡ some conv
      → get conv.id db.conversations ≡ some conv
  asked-get none db h = cc
  asked-get (some i) db {conv} h =
      ap (λ j. get j db.conversations) (key-get i db.conversations {r = conv} h) ∙ h

  asked-named :
      (conversation : Option ℕ) (db : Tables env) {conv : Conversation}
      → asked conversation db ≡ some conv
      → (i : ℕ) → conversation ≡ some i
      → conv.id ≡ i
  asked-named none db h i e = cc
  asked-named (some j) db {conv} h i e = ground (arith, e, key-get j db.conversations {r = conv} h)

  abbrev fresh : Option ℕ → Option ℕ → Turn (Score env) → Conversation
  unfolding new_conversation
  fresh user conversation turn = new_conversation env ws user conversation turn.query

  fresh-named :
      (user conversation : Option ℕ) (turn : Turn (Score env)) (i : ℕ)
      → conversation ≡ some i
      → (fresh user conversation turn).id ≡ i
  unfolding fresh
  fresh-named user conversation turn i e = rw e refl

  pub persist-Persisted :
      (user conversation : Option ℕ) (turn : Turn (Score env)) (db : Tables env)
      → Persisted user conversation turn db
  unfolding persist new_conversation
  persist-Persisted user conversation turn db = elim (Bool-cases env.db_up) [
    | inr down ↦ inl (other "OperationalError" "connection", ground (arith, down))
    | inl up ↦ elim (Bool-cases (is_some (get ws db.workspaces))) [
      | inr gone ↦ inl (integrity_error env, ground (arith, up, gone))
      | inl here ↦ elim (Option-cases (asked conversation db)) [
        | inr (conv, e) ↦ inr (
          conv.id,
          add_turn env ws turn conv.id db,
          ground (arith, up, here, e),
          add_turn-Stored user conversation turn db conv.id db {conv = conv} refl
              (asked-get conversation db {conv = conv} e)
              (asked-named conversation db {conv = conv} e),
        )
        | inl e ↦
            let new = new_conversation env ws user conversation turn.query in
            elim (Bool-cases (is_some (get new.user_id db.users))) [
              | inr stranger ↦ inl (integrity_error env, ground (arith, up, here, e, stranger))
              | inl registered ↦
                  let db0 : Tables env = record db {
                    conversations = db.conversations ++ new ∷ [];
                  } in
                  let (conv, f) = added_found db.conversations new in
                  inr (
                    new.id,
                    add_turn env ws turn new.id db0,
                    ground (arith, up, here, e, registered),
                    add_turn-Stored user conversation turn db new.id db0 {conv = conv} refl f
                        (fresh-named user conversation turn),
                  )
            ]
      ]
    ]
  ]
