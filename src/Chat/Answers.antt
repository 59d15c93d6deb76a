-- ===== src/Chat/Answers.antt =====
-- backend/app/services/chat_service.py: the turn that is stored, the streamed and the whole answer.
use keel_be.Prelude.{
  ℕ, String, Text, true, not, Option, none, some, List, [], ◌∷◌, ◌++◌, map, codes, is_nonempty,
  is_some, str_eq, take, decimal, or_else, if◌then◌else◌,
}
use keel_be.Prelude.Rows.{get, update}
use keel_be.Models.Identity.{workspace_key, user_key}
use keel_be.Models.Chat.{Conversation, EvidenceChunk, conversation_key}
use keel_be.Core.Errors.{Exc, other}
use keel_be.Core.Session.{Result, ok, err}
use keel_be.Retrieval.{RetrievedChunk, retrieve, assemble_context}
use keel_be.Gateway.{TokenUsage, ChatResult, call_llm}
use keel_be.Gateway.Stream.{stream_llm}
use keel_be.Chat.{
  Env, Score, Message, Tables, ChatSettings, evidence, confidence_score, load_history, ws_settings,
  prompt_messages,
}

-- `x or y`
abbrev pub or_text : Text → Text → Text
or_text x y = if is_nonempty x then x else y

-- A frame of the stream.
pub data Frame (S : Type 0) : Type 0 where
  token : Text → Frame S
  done : S → List (EvidenceChunk S) → ℕ → Frame S
  error : Frame S

-- `"".join(answer_parts)`
unfoldable pub concat : List Text → Text
concat [] = []
concat (t ∷ ts) = t ++ concat ts

-- What an answer keeps of a turn.
pub record Turn (S : Type 0) : Type 0 where
  pub query : Text
  pub answer : Text
  pub confidence : S
  pub evidence : List (EvidenceChunk S)
  pub chunk_ids : List Text

module _ (env : Env) where
  -- `[uuid.UUID(c) for c in chunk_ids if _is_uuid(c)]`
  unfoldable pub uuids : List Text → List ℕ
  uuids [] = []
  uuids (c ∷ cs) = let rest = uuids cs in elim (env.uuid c) [ ok i ↦ i ∷ rest | err _ ↦ rest ]

  abbrev none_if_empty : List ℕ → Option (List ℕ)
  none_if_empty [] = none
  none_if_empty (i ∷ is) = some (i ∷ is)

  unfoldable pub question_row : ℕ → ℕ → Turn (Score env) → Message env
  question_row workspace_id conversation_id turn = record {
    conversation_id = conversation_id;
    workspace_id = workspace_id;
    role = "user";
    content = turn.query;
    confidence = none;
    retrieved_chunk_ids = none;
    evidence = [];
    created_at = env.now;
  }

  unfoldable pub answer_row : ℕ → ℕ → Turn (Score env) → Message env
  unfolding uuids
  answer_row workspace_id conversation_id turn = record {
    conversation_id = conversation_id;
    workspace_id = workspace_id;
    role = "assistant";
    content = turn.answer;
    confidence = some turn.confidence;
    retrieved_chunk_ids = none_if_empty (uuids turn.chunk_ids);
    evidence = turn.evidence;
    created_at = env.now;
  }

  abbrev pub integrity_error : Exc
  integrity_error = other "IntegrityError" "foreign key"

  -- The two rows of a turn, and what is assigned to its conversation.
  abbrev pub add_turn : ℕ → Turn (Score env) → ℕ → Tables env → Tables env
  add_turn workspace_id turn conversation_id db = record db {
    conversations =
        update conversation_id
          (λ c. record c { title = or_text c.title (take 48 turn.query); updated_at = env.now })
          db.conversations;
    messages =
        db.messages
        ++ (question_row workspace_id conversation_id turn
            ∷ answer_row workspace_id conversation_id turn
            ∷ []);
  }

  unfoldable pub new_conversation : ℕ → Option ℕ → Option ℕ → Text → Conversation
  new_conversation workspace_id user_id conversation_id query = record {
    id = or_else conversation_id env.new_conversation_id;
    workspace_id = workspace_id;
    user_id = or_else user_id env.new_user_id;
    title = or_text (take 48 query) (codes "New conversation");
    updated_at = env.now;
  }

  -- `_persist`. The database refuses rows whose foreign keys name no row; nothing is kept of a session
  -- that raised.
  unfoldable pub persist :
      ℕ → Option ℕ → Option ℕ → Turn (Score env) → Tables env → Result ℕ × Tables env
  unfolding question_row answer_row new_conversation
  persist workspace_id user_id conversation_id turn db =
      let fresh = new_conversation workspace_id user_id conversation_id turn.query in
      let found : Option Conversation = elim conversation_id [
        | none ↦ none
        | some i ↦ get i db.conversations
      ] in
      if not env.db_up
      then (err (other "OperationalError" "connection"), db)
      else if is_some (get workspace_id db.workspaces)
      then (elim found [
        | some conv ↦ (ok conv.id, add_turn workspace_id turn conv.id db)
        | none ↦
            if is_some (get fresh.user_id db.users)
            then (
              ok fresh.id,
              add_turn workspace_id turn fresh.id
                  (record db { conversations = db.conversations ++ fresh ∷ [] }),
            )
            else (err integrity_error, db)
      ])
      else (err integrity_error, db)

  -- What both kinds of answer gather before the model is called: the messages, and the chunks used
  -- with their evidence.
  pub record Gathered : Type 0 where
    pub chat_model : String
    pub messages : List (String × Text)
    pub used : List (RetrievedChunk (Score env))
    pub evidence : List (EvidenceChunk (Score env))

  -- `model or settings.chat_model`
  abbrev model_of : ChatSettings → String
  model_of s = elim s.chat_model [
    | none ↦ env.settings.chat_model
    | some m ↦ if str_eq m "" then env.settings.chat_model else m
  ]

  unfoldable pub gather : ℕ → Text → Option ℕ → Tables env → Result Gathered
  gather workspace_id query conversation_id db =
      let s = ws_settings env workspace_id db in
      let history = load_history env conversation_id workspace_id db in
      elim (retrieve env.src env.settings (decimal workspace_id) query s.top_k
        (elim s.min_similarity [ none ↦ none | some t ↦ some (env.threshold t) ]) none true) [
          | err e ↦ err e
          | ok chunks ↦
              let (context, a) = assemble_context env.count_tokens env.settings none chunks in
              elim (evidence env a.used) [
                | err e ↦ err e
                | ok ev ↦ ok (record {
                  chat_model = model_of s;
                  messages = prompt_messages context query history;
                  used = a.used;
                  evidence = ev;
                })
              ]
        ]

  abbrev pub turn_of : Text → Text → Gathered → Turn (Score env)
  turn_of query answer g = record {
    query = query;
    answer = answer;
    confidence = confidence_score env g.used;
    evidence = g.evidence;
    chunk_ids = map (λ (c : RetrievedChunk (Score env)). c.chunk_id) g.used;
  }

  -- The last frame, after the model's stream has ended without an exception.
  unfoldable pub closing :
      ℕ → Option ℕ → Option ℕ → Turn (Score env) → Tables env → Frame (Score env) × Tables env
  closing workspace_id user_id conversation_id turn db =
      let (r, db') = persist workspace_id user_id conversation_id turn db in
      (elim r [ err _ ↦ error | ok conv_id ↦ done turn.confidence turn.evidence conv_id ], db')

  -- What a stream gives: its frames, the tables and the usage that it leaves.
  abbrev pub Streamed : Type 0
  Streamed = List (Frame (Score env)) × Tables env × List TokenUsage

  module _ (workspace_id : ℕ) (user_id : Option ℕ) (query : Text) (conversation_id : Option ℕ)
      (db : Tables env) where
    -- The pieces that were yielded, and what follows the end of the model's stream.
    abbrev pub after_stream : Gathered → List Text → List TokenUsage → Result Unit → Streamed
    after_stream g parts rows (err e) = (map token parts ++ error ∷ [], db, rows)
    after_stream g parts rows (ok tt) =
        let (last, db') =
          closing workspace_id user_id conversation_id (turn_of query (concat parts) g) db in
        (map token parts ++ last ∷ [], db', rows)

    abbrev pub after_gather : List TokenUsage → Result Gathered → Streamed
    after_gather rows (err e) = (error ∷ [], db, rows)
    after_gather rows (ok g) =
        let (parts, ended, rows') =
          stream_llm (env.stream g.chat_model g.messages) env.db_up g.chat_model workspace_id
            rows in
        after_stream g parts rows' ended

    unfoldable pub stream_answer : List TokenUsage → Streamed
    stream_answer rows = after_gather rows (gather workspace_id query conversation_id db)

  -- `ChatNonStreamResponse`
  pub record Answer : Type 0 where
    pub answer : Text
    pub confidence : Score env
    pub evidence : List (EvidenceChunk (Score env))
    pub conversation_id : ℕ

  abbrev pub Answered : Type 0
  Answered = Result Answer × Tables env × List TokenUsage

  module _ (workspace_id : ℕ) (user_id : Option ℕ) (query : Text) (conversation_id : Option ℕ)
      (db : Tables env) where
    -- The response, once the turn is stored.
    abbrev pub response : Turn (Score env) → Result ℕ → Result Answer
    response turn (err e) = err e
    response turn (ok conv_id) = ok (record {
      answer = turn.answer;
      confidence = turn.confidence;
      evidence = turn.evidence;
      conversation_id = conv_id;
    })

    abbrev pub after_call : Gathered → List TokenUsage → Result ChatResult → Answered
    after_call g rows (err e) = (err e, db, rows)
    after_call g rows (ok chat) =
        let turn = turn_of query chat.content g in
        let (stored, db') = persist workspace_id user_id conversation_id turn db in
        (response turn stored, db', rows)

    abbrev pub answer_gathered : List TokenUsage → Result Gathered → Answered
    answer_gathered rows (err e) = (err e, db, rows)
    answer_gathered rows (ok g) =
        let (r, rows') =
          call_llm (env.complete g.chat_model g.messages) env.db_up g.chat_model workspace_id "chat"
            rows in
        after_call g rows' r

    unfoldable pub answer_once : List TokenUsage → Answered
    answer_once rows = answer_gathered rows (gather workspace_id query conversation_id db)
