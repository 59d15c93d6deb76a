-- ===== src/Chat/Turns.antt =====
-- backend/app/services/chat_service.py: what an answer stores, and when it stores nothing.
use mathlib.Core.Logic.Or
use mathlib.Core.List.{
  Mem, Mem-prop, mem-cons, not-mem-nil, mem-cons_self, mem-cons_of_mem, mem-append_left,
  mem-append_right,
}
use keel_be.Prelude.{
  ℕ, ◌+◌, ◌≤◌, ◌≡◌, ◌≢◌, refl, sym, ap, subst, ◌∙◌, Text, true, Option, none, some, List, [], ◌∷◌,
  ◌++◌, map, ◌==◌, arith, inl, inr, Bool-cases, select, select-append, take, take_whole, max,
  length, length-append,
}
use keel_be.Prelude.Rows.{get, key-get}
use keel_be.Models.Identity.{Workspace, workspace_key, user_key}
use keel_be.Models.Chat.{Conversation, EvidenceChunk, conversation_key}
use keel_be.Core.Errors.{Exc, other}
use keel_be.Core.Session.{Result, ok, err}
use keel_be.Gateway.{TokenUsage, ChatResult}
use keel_be.Gateway.Stream.{stream_llm}
use keel_be.Chat.{
  get_messages, recent_messages, reversed, messages_of, Env, Score, Message, Tables,
  conversation_not_found,
}
use keel_be.Chat.Answers.{
  Frame, token, done, error, Turn, concat, question_row, answer_row, add_turn, persist,
  integrity_error, new_conversation, after_call, answer_gathered, gather, closing, stream_answer,
  answer_once, turn_of, Gathered, Streamed, after_stream, after_gather,
}
use keel_be.Chat.Reads.{OrderLaws}
use keel_be.Chat.Stored.{Exchange, StoredIn, row-Exchange, owner_kept, persist-Persisted}

-- Why a stream ends with an error: the chunks could not be gathered, the stream of the model failed, or
-- the turn could not be stored.
pub data Refused (env : Env) (ws : ℕ) (user conversation : Option ℕ) (query : Text)
    (db : Tables env) (rows : List TokenUsage) (parts : List Text) : Type 0 where
  no_context :
      (e : Exc)
      → gather env ws query conversation db ≡ err e
      → Refused env ws user conversation query db rows parts
  no_answer :
      (g : Gathered env) (e : Exc)
      → gather env ws query conversation db ≡ ok g
      → (stream_llm (env.stream g.chat_model g.messages) env.db_up g.chat_model ws rows).1 ≡ err e
      → Refused env ws user conversation query db rows parts
  no_turn :
      (g : Gathered env) (e : Exc)
      → gather env ws query conversation db ≡ ok g
      → persist env ws user conversation (turn_of env query (concat parts) g) db ≡ (err e, db)
      → Refused env ws user conversation query db rows parts

-- How a stream ended: with an error, for one of these reasons, and the tables as they were, or with the
-- conversation in which the question is stored with its answer, which is all that was streamed.
pub data Ended (env : Env) (ws : ℕ) (user conversation : Option ℕ) (query : Text) (db : Tables env)
    (rows : List TokenUsage) (parts : List Text) : Frame (Score env) → Tables env → Type 0 where
  broken :
      Refused env ws user conversation query db rows parts
      → Ended env ws user conversation query db rows parts error db
  stored :
      (confidence : Score env) (evidence : List (EvidenceChunk (Score env))) (conv_id : ℕ)
      (db' : Tables env)
      → StoredIn env ws conversation query (concat parts) confidence evidence conv_id db db'
      → Ended env ws user conversation query db rows parts (done confidence evidence conv_id) db'

module _ (env : Env) where
  closing_of :
      (ws : ℕ) (user conversation : Option ℕ) (turn : Turn (Score env)) (db : Tables env)
      {r : Result ℕ} {db' : Tables env}
      → persist env ws user conversation turn db ≡ (r, db')
      → closing env ws user conversation turn db
        ≡ (elim r [ err _ ↦ error | ok c ↦ done turn.confidence turn.evidence c ], db')
  unfolding closing
  closing_of ws user conversation turn db h =
      ap (λ p. (elim p.0 [ err _ ↦ error | ok c ↦ done turn.confidence turn.evidence c ], p.1)) h

  module _ (ws : ℕ) (user conversation : Option ℕ) (query : Text) (db : Tables env)
      (rows : List TokenUsage) where
    closing-Ended :
        (g : Gathered env) (parts : List Text)
        → gather env ws query conversation db ≡ ok g
        → let r = closing env ws user conversation (turn_of env query (concat parts) g) db in
          Ended env ws user conversation query db rows parts r.0 r.1
    closing-Ended g parts gathered =
        let turn = turn_of env query (concat parts) g in
        elim (persist-Persisted env ws user conversation turn db) [
          | inl (x, failed) ↦
              rw (closing_of ws user conversation turn db failed)
                (broken (no_turn g x gathered failed))
          | inr (c, db', done', kept) ↦
              rw (closing_of ws user conversation turn db done')
                (stored turn.confidence turn.evidence c db' kept)
        ]

    -- Some pieces and one last frame.
    abbrev Frames : Streamed env → Type 0
    Frames r =
        (parts : List Text) × (last : Frame (Score env)) × (r.0 ≡ map token parts ++ last ∷ [])
        × Ended env ws user conversation query db rows parts last r.1

    after_stream-Frames :
        (g : Gathered env) (parts : List Text) (rows' : List TokenUsage) (r : Result Unit)
        → gather env ws query conversation db ≡ ok g
        → (stream_llm (env.stream g.chat_model g.messages) env.db_up g.chat_model ws rows).1 ≡ r
        → Frames (after_stream env ws user query conversation db g parts rows' r)
    after_stream-Frames g parts rows' (err e) gathered failed =
        (parts, error, refl, broken (no_answer g e gathered failed))
    after_stream-Frames g parts rows' (ok tt) gathered done' =
        let last = closing env ws user conversation (turn_of env query (concat parts) g) db in
        (parts, last.0, refl, closing-Ended g parts gathered)

    after_gather-Frames :
        (r : Result (Gathered env))
        → gather env ws query conversation db ≡ r
        → Frames (after_gather env ws user query conversation db rows r)
    after_gather-Frames (err e) failed = ([], error, refl, broken (no_context e failed))
    after_gather-Frames (ok g) gathered =
        let s = stream_llm (env.stream g.chat_model g.messages) env.db_up g.chat_model ws rows in
        after_stream-Frames g s.0 s.2 s.1 gathered refl

    -- A streamed answer is some pieces of text followed by exactly one last frame. The last frame is an
    -- error only if the context could not be gathered, the model's stream failed or the turn could not be
    -- stored, and then nothing is stored; or it names a conversation that exists, the one asked for if
    -- one was: then the stored messages are those that there were and two more of that conversation and
    -- the asker's workspace, the question as the user's and all the pieces, joined, as the assistant's
    -- answer, with the confidence and the evidence that the frame has.
    pub stream_answer_lem :
        let r = stream_answer env ws user query conversation db rows in
        (parts : List Text) × (last : Frame (Score env)) × (r.0 ≡ map token parts ++ last ∷ [])
        × Ended env ws user conversation query db rows parts last r.1
    unfolding stream_answer
    stream_answer_lem = after_gather-Frames (gather env ws query conversation db) refl

  messages-add_turn :
      (ws c : ℕ) (turn : Turn (Score env)) (db : Tables env)
      → messages_of env c (add_turn env ws turn c db)
        ≡ messages_of env c db ++ (question_row env ws c turn ∷ answer_row env ws c turn ∷ [])
  unfolding question_row answer_row
  messages-add_turn ws c turn db =
      let rows = question_row env ws c turn ∷ answer_row env ws c turn ∷ [] in
      let own : select (λ (m : Message env). m.conversation_id == c) rows ≡ rows = ground arith in
      select-append (λ (m : Message env). m.conversation_id == c) db.messages rows
      ∙ ap (λ l. messages_of env c db ++ l) own

  -- A row is among the messages that are read of a conversation that has no more than are asked for.
  Mem-reversed : (m : Message env) (ms : List (Message env)) → Mem m ms → Mem m (reversed ms)
  unfolding reversed
  Mem-reversed m [] h = absurd (not-mem-nil h)
  Mem-reversed m (x ∷ ms) h =
      Or.elim Mem-prop (mem-cons.0 h)
        (λ e. mem-append_right (reversed ms) (subst (λ y. Mem m (y ∷ [])) e mem-cons_self))
        (λ k. mem-append_left (x ∷ []) (Mem-reversed m ms k))

  Mem-recent_messages :
      (c limit : ℕ) (db : Tables env) (m : Message env)
      → OrderLaws env
      → ((x : Message env) (ms : List (Message env)) → Mem x ms → Mem x (env.newest_first ms))
      → length (messages_of env c db) ≤ limit
      → Mem m (messages_of env c db)
      → Mem m (recent_messages env c limit db)
  unfolding recent_messages
  Mem-recent_messages c limit db m laws kept few h =
      let rows = messages_of env c db in
      let sorted = env.newest_first rows in
      Mem-reversed m (take (max 1 limit) sorted) (
        subst (λ ms. Mem m ms)
          (sym
            (take_whole (max 1 limit) sorted (omega (arith, few, laws.length-newest_first rows))))
          (kept m rows h))

  -- While the database answers, a question and its answer are stored in the conversation that the asker
  -- names though it be one of another workspace: its messages then end with two more, the question as
  -- the user's and the answer as the assistant's, written for the asker's workspace. The asker is
  -- answered 404 for the conversation, and the workspace that it belongs to reads both, if it has at
  -- most 500 messages then. (The asker's workspace exists, and `ORDER BY`
  -- sorts and keeps the rows.)
  pub persist_unscoped :
      (ws c : ℕ) (user : Option ℕ) (turn : Turn (Score env)) (db : Tables env) {conv : Conversation}
      {w : Workspace}
      → env.db_up ≡ true
      → get ws db.workspaces ≡ some w
      → get c db.conversations ≡ some conv
      → conv.workspace_id ≢ ws
      → OrderLaws env
      → ((x : Message env) (ms : List (Message env)) → Mem x ms → Mem x (env.newest_first ms))
      → length (messages_of env c db) + 2 ≤ 500
      → (db' : Tables env) × (q : Message env) × (a : Message env) × (ms : List (Message env))
        × (persist env ws user (some c) turn db ≡ (ok c, db'))
        × (messages_of env c db' ≡ messages_of env c db ++ (q ∷ a ∷ []))
        × Exchange env ws c turn.query turn.answer turn.confidence turn.evidence q a
        × (get_messages env ws c 500 db' ≡ err conversation_not_found)
        × (get_messages env conv.workspace_id c 500 db' ≡ ok ms)
        × Mem q ms
        × Mem a ms
  unfolding persist get_messages
  persist_unscoped ws c user turn db {conv} {w} up known found foreign laws kept few =
      let (conv', e, o) = owner_kept env ws c turn db {conv = conv} found in
      let db' = add_turn env ws turn c db in
      let q = question_row env ws c turn in
      let a = answer_row env ws c turn in
      let rows = messages-add_turn ws c turn db in
      let small : length (messages_of env c db') ≤ 500 =
        rw rows (omega (arith, length-append (messages_of env c db) (q ∷ a ∷ []))) in
      let read : (m : Message env) → Mem m (q ∷ a ∷ []) → Mem m (recent_messages env c 500 db') =
        λ m h.
          Mem-recent_messages c 500 db' m laws kept small
            (subst (λ ms. Mem m ms) (sym rows) (mem-append_right (messages_of env c db) h)) in
      (
        db',
        q,
        a,
        recent_messages env c 500 db',
        ground (arith, up, known, found, key-get c db.conversations {r = conv} found),
        rows,
        row-Exchange env ws c turn,
        ground (arith, e, o, foreign),
        ground (arith, e, o),
        read q mem-cons_self,
        read a (mem-cons_of_mem q mem-cons_self),
      )

  persist-stranger :
      (ws : ℕ) (turn : Turn (Score env)) (db : Tables env)
      → get env.new_user_id db.users ≡ none
      → (e : Exc) × (persist env ws none none turn db ≡ (err e, db))
  unfolding persist new_conversation
  persist-stranger ws turn db stranger = elim (Bool-cases env.db_up) [
    | inr down ↦ (other "OperationalError" "connection", ground (arith, down))
    | inl up ↦ (integrity_error env, ground (arith, up, stranger))
  ]

  -- A question asked with an API key and without a conversation is answered with an error, and nothing
  -- is stored, unless the identifier drawn at random for its user is that of a registered user.
  pub api_key_chat_lost :
      (ws : ℕ) (query : Text) (db : Tables env) (rows : List TokenUsage)
      → get env.new_user_id db.users ≡ none
      → (e : Exc) × ((answer_once env ws none query none db rows).0 ≡ err e)
        × ((answer_once env ws none query none db rows).1 ≡ db)
  unfolding answer_once
  api_key_chat_lost ws query db rows stranger = gathered (gather env ws query none db)
    where
      called :
          (g : Gathered env) (rows' : List TokenUsage) (r : Result ChatResult)
          → (e : Exc) × ((after_call env ws none query none db g rows' r).0 ≡ err e)
            × ((after_call env ws none query none db g rows' r).1 ≡ db)
      called g rows' (err e) = (e, refl, refl)
      called g rows' (ok chat) =
          let (e, h) = persist-stranger ws (turn_of env query chat.content g) db stranger in
          (e, rw h refl, rw h refl)

      gathered :
          (r : Result (Gathered env))
          → (e : Exc) × ((answer_gathered env ws none query none db rows r).0 ≡ err e)
            × ((answer_gathered env ws none query none db rows r).1 ≡ db)
      gathered (err e) = (e, refl, refl)
      gathered (ok g) = called g _ _
