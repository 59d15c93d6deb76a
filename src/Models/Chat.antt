-- ===== src/Models/Chat.antt =====
-- backend/app/models/chat.py and the evidence of backend/app/schemas/chat.py: conversations and their
-- messages.
use keel_be.Prelude.{ℕ, String, Option, List, Text}
use keel_be.Prelude.Rows.{Keyed}
use keel_be.Models.Enums.{SourceType}
use keel_be.Models.Identity.{Workspace, User}

pub record Conversation : Type 0 where
  pub id : ℕ
  pub workspace_id : ℕ
  pub user_id : ℕ
  pub title : Text
  pub updated_at : ℕ

-- A chunk that an answer rests on, with its similarity.
pub record EvidenceChunk (Score : Type 0) : Type 0 where
  pub chunk_id : Text
  pub document_id : Text
  pub document_name : Text
  pub source_type : SourceType
  pub section_ref : Option Text
  pub excerpt : Text
  pub similarity_score : Score

pub record ChatMessage (Score : Type 0) : Type 0 where
  pub conversation_id : ℕ
  pub workspace_id : ℕ
  pub role : String
  pub content : Text
  pub confidence : Option Score
  pub retrieved_chunk_ids : Option (List ℕ)
  pub evidence : List (EvidenceChunk Score)
  pub created_at : ℕ

instance abbrev pub conversation_key : Keyed Conversation
conversation_key = record { key = λ r. r.id }

-- The tables that the chat reads and writes.
pub record ChatDb (Score : Type 0) : Type 0 where
  pub workspaces : List Workspace
  pub users : List User
  pub conversations : List Conversation
  pub messages : List (ChatMessage Score)
