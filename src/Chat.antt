-- ===== src/Chat.antt =====
-- backend/app/services/chat_service.py: conversations, their messages, and the answers of the chat,
-- streamed or whole. The functions that open a session of their own read what is committed, and write
-- all or nothing.
pub mod Answers
mod Tests
pub mod Stored
pub mod Turns
pub mod Reads
use keel_be.Prelude.{
  ℕ, String, Text, Bool, true, false, ◌&&◌, Option, none, some, List, [], ◌∷◌, ◌++◌, map, ◌==◌,
  codes, is_nonempty, max, take, select, text_eq, decimal, or_else, if◌then◌else◌,
}
use keel_be.Prelude.Rows.{get, update}
use keel_be.Models.Enums.{SourceType}
use keel_be.Models.Identity.{Workspace, User, workspace_key, user_key}
use keel_be.Models.Chat.{Conversation, EvidenceChunk, ChatMessage, ChatDb, conversation_key}
use keel_be.Core.Errors.{Exc, Kind, app, app_error, other}
use keel_be.Core.Session.{Result, ok, err, Run, ◌>>=◌, is_ok}
use keel_be.Core.Settings.{Settings}
use keel_be.Documents.{source_value}
use keel_be.Retrieval.{Sources, RetrievedChunk, retrieve, assemble_context}
use keel_be.Gateway.{TokenUsage, ChatResult, call_llm}
use keel_be.Gateway.Stream.{ProviderStream, stream_llm}

-- What an answer takes from its surroundings: the sources of the retrieval, the settings, the
-- tokenizer, the order of rows by the database, whether the database answers, the clock, what `uuid4`
-- draws, the reading of an identifier, the arithmetic of scores, and the model.
pub record Env : Type 1 where
  pub src : Sources
  pub settings : Settings
  pub count_tokens : Text → ℕ
  pub db_up : Bool
  pub now : ℕ
  pub new_conversation_id : ℕ
  pub new_user_id : ℕ
  pub uuid : Text → Result ℕ
  pub threshold : ℕ → src.qdrant.Score
  pub round4 : src.qdrant.Score → src.qdrant.Score
  pub mean : List src.qdrant.Score → src.qdrant.Score
  pub zero_score : src.qdrant.Score
  pub newest_first : List (ChatMessage src.qdrant.Score) → List (ChatMessage src.qdrant.Score)
  pub updated_first : List Conversation → List Conversation
  pub stream : String → List (String × Text) → ProviderStream
  pub complete : String → List (String × Text) → ℕ → Result ChatResult

-- `list(reversed(rows))`
unfoldable pub reversed : {A : Type 0} → List A → List A
reversed [] = []
reversed (x ∷ xs) = reversed xs ++ x ∷ []

-- `SourceType(value)`
unfoldable pub read_source : Text → Option SourceType
read_source t =
    if text_eq t (source_value SourceType.manual_upload)
    then some SourceType.manual_upload
    else if text_eq t (source_value SourceType.google_drive)
    then some SourceType.google_drive
    else if text_eq t (source_value SourceType.onedrive)
    then some SourceType.onedrive
    else if text_eq t (source_value SourceType.api_push)
    then some SourceType.api_push
    else none

abbrev pub conversation_not_found : Exc
conversation_not_found = app (app_error Kind.not_found "Conversation not found")

abbrev pub history_turns : ℕ
history_turns = 10

abbrev system_prompt : Text
system_prompt =
    codes
      "You are Keel, an enterprise context retrieval assistant. Answer the user's question using ONLY the provided context from their workspace documents. Cite sources naturally. If the context does not contain the answer, say so plainly. Do not invent facts."

-- The message that carries the question.
abbrev user_message : Text → Text → Text
user_message context query =
    if is_nonempty context
    then codes "Context:\n" ++ (context ++ (codes "\n\nQuestion: " ++ query))
    else codes "Question: " ++ (query ++ codes "\n\n(No relevant context found.)")

-- `_messages`
pub prompt_messages : Text → Text → List (String × Text) → List (String × Text)
prompt_messages context query history =
    ("system", system_prompt) ∷ (history ++ ("user", user_message context query) ∷ [])

-- A row of the list of conversations.
pub record ConversationOut : Type 0 where
  pub id : ℕ
  pub title : Text
  pub updated_at : ℕ

-- The settings of a workspace that an answer uses.
pub record ChatSettings : Type 0 where
  pub chat_model : Option String
  pub top_k : Option ℕ
  pub min_similarity : Option ℕ

module _ (env : Env) where
  abbrev pub Score : Type 0
  Score = env.src.qdrant.Score

  abbrev pub Message : Type 0
  Message = ChatMessage Score

  abbrev pub Tables : Type 0
  Tables = ChatDb Score

  -- One chunk of `_evidence`: a source that is none of the enumeration fails the validation.
  unfoldable pub evidence_of : RetrievedChunk Score → Result (EvidenceChunk Score)
  unfolding read_source
  evidence_of c = elim (read_source c.source_type) [
    | none ↦ err (other "ValidationError" "source_type")
    | some source ↦ ok (record {
      chunk_id = c.chunk_id;
      document_id = c.document_id;
      document_name = c.document_name;
      source_type = source;
      section_ref = c.section_ref;
      excerpt = take 200 c.chunk_text;
      similarity_score = env.round4 c.score;
    })
  ]

  -- `_evidence`
  pub evidence : List (RetrievedChunk Score) → Result (List (EvidenceChunk Score))
  unfolding evidence_of
  evidence [] = ok []
  evidence (c ∷ cs) = elim (evidence_of c) [
    | err e ↦ err e
    | ok one ↦ elim (evidence cs) [ err e ↦ err e | ok rest ↦ ok (one ∷ rest) ]
  ]

  -- `retrieval_service.confidence_score`
  pub confidence_score : List (RetrievedChunk Score) → Score
  confidence_score chunks =
      let top = take 3 chunks in
      if is_nonempty top
      then env.mean (map (λ (c : RetrievedChunk Score). c.score) top)
      else env.zero_score

  -- The messages of a conversation.
  abbrev pub messages_of : ℕ → Tables → List Message
  messages_of conversation_id db = select (λ m. m.conversation_id == conversation_id) db.messages

  -- The most recent `limit` messages of a conversation, the oldest first.
  unfoldable pub recent_messages : ℕ → ℕ → Tables → List Message
  unfolding reversed
  recent_messages conversation_id limit db =
      reversed (take (max 1 limit) (env.newest_first (messages_of conversation_id db)))

  -- A conversation of the workspace.
  abbrev pub owned_conversation : ℕ → ℕ → Tables → Option Conversation
  owned_conversation workspace_id conversation_id db = elim (get conversation_id db.conversations) [
    | none ↦ none
    | some conv ↦ if conv.workspace_id == workspace_id then some conv else none
  ]

  -- `_load_history`
  unfoldable pub load_history : Option ℕ → ℕ → Tables → List (String × Text)
  unfolding recent_messages
  load_history none workspace_id db = []
  load_history (some conversation_id) workspace_id db =
      if env.db_up
      then (elim (owned_conversation workspace_id conversation_id db) [
        | none ↦ []
        | some conv ↦
            map (λ (m : Message). (m.role, m.content))
              (recent_messages conversation_id history_turns db)
      ])
      else []

  -- `_ws_settings`
  pub ws_settings : ℕ → Tables → ChatSettings
  ws_settings workspace_id db =
      let unset : ChatSettings = record {
        chat_model = none;
        top_k = none;
        min_similarity = none;
      } in
      if env.db_up
      then (elim (get workspace_id db.workspaces) [
        | none ↦ unset
        | some ws ↦ record {
          chat_model = some ws.chat_model;
          top_k = some ws.chat_top_k;
          min_similarity = some ws.min_similarity;
        }
      ])
      else unset

  pub list_conversations : ℕ → ℕ → ℕ → Tables → List ConversationOut
  list_conversations workspace_id user_id limit db =
      map (λ (c : Conversation). record { id = c.id; title = c.title; updated_at = c.updated_at })
        (take limit (
          env.updated_first (
            select (λ c. c.workspace_id == workspace_id && c.user_id == user_id) db.conversations)))

  -- `get_messages`; the rows stand for the messages that are shown.
  unfoldable pub get_messages : ℕ → ℕ → ℕ → Tables → Result (List Message)
  unfolding recent_messages
  get_messages workspace_id conversation_id limit db =
      elim (owned_conversation workspace_id conversation_id db) [
        | none ↦ err conversation_not_found
        | some conv ↦ ok (recent_messages conversation_id limit db)
      ]
