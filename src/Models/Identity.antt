-- ===== src/Models/Identity.antt =====
-- backend/app/models/user.py and organization.py: accounts, organizations, workspaces, memberships
-- and refresh tokens. Identifiers are numbers, times are seconds.
use keel_be.Prelude.{ℕ, String, Bool, Option, List, Text}
use keel_be.Prelude.Rows.{Keyed}
use keel_be.Models.Enums.{Role}

pub record Organization : Type 0 where
  pub id : ℕ
  pub name : String
  pub slug : Text

-- `min_similarity` is in ten-thousandths.
pub record Workspace : Type 0 where
  pub id : ℕ
  pub organization_id : ℕ
  pub name : String
  pub embedding_model : String
  pub embedding_dims : ℕ
  pub chat_model : String
  pub chat_top_k : ℕ
  pub min_similarity : ℕ
  pub auto_start_ingestion : Bool
  pub rest_api_enabled : Bool
  pub default_rate_limit_per_minute : ℕ

pub record User : Type 0 where
  pub id : ℕ
  pub email : String
  pub full_name : String
  pub password_hash : String
  pub is_active : Bool
  pub is_verified : Bool
  pub mfa_enabled : Bool
  pub last_active_at : Option ℕ
  pub failed_login_count : ℕ
  pub lockout_until : Option ℕ

pub record OrganizationMember : Type 0 where
  pub id : ℕ
  pub organization_id : ℕ
  pub workspace_id : ℕ
  pub user_id : ℕ
  pub role : Role
  pub invited_email : Option String
  pub invite_accepted : Bool

pub record RefreshToken : Type 0 where
  pub id : ℕ
  pub user_id : ℕ
  pub workspace_id : ℕ
  pub token_hash : String
  pub expires_at : ℕ
  pub revoked_at : Option ℕ

-- The tables that authentication and user management share.
pub record Db : Type 0 where
  pub organizations : List Organization
  pub workspaces : List Workspace
  pub users : List User
  pub members : List OrganizationMember
  pub refresh_tokens : List RefreshToken

instance abbrev pub organization_key : Keyed Organization
organization_key = record { key = λ r. r.id }

instance abbrev pub workspace_key : Keyed Workspace
workspace_key = record { key = λ r. r.id }

instance abbrev pub user_key : Keyed User
user_key = record { key = λ r. r.id }

instance abbrev pub member_key : Keyed OrganizationMember
member_key = record { key = λ r. r.id }

instance abbrev pub refresh_token_key : Keyed RefreshToken
refresh_token_key = record { key = λ r. r.id }
