-- ===== src/Drive.antt =====
-- backend/app/connectors/google_drive.py: the adapter to Google's REST interface. HTTP, HMAC, Fernet
-- and `urlencode` are parameters.
pub mod State
use keel_be.Prelude.{
  ℕ, String, Text, ◌&&◌, Bool, true, Option, none, some, List, [], ◌∷◌, ◌++◌, take, codes,
  is_nonempty, leb, text_eq, join, if◌then◌else◌, ◌==◌,
}
use keel_be.Core.Errors.{Exc, other}
use keel_be.Core.Session.{Result, ok, err, then_result}

-- One of the `files` of a listing.
pub record DriveItem : Type 0 where
  pub id : Text
  pub name : Option Text
  pub mime_type : Option Text

-- What the code reads of a response: its status, the text fields and the `files` of its JSON, and
-- its content.
pub record Response : Type 0 where
  pub status : ℕ
  pub field : String → Option Text
  pub files : List DriveItem
  pub content : List ℕ

pub record GoogleSettings : Type 0 where
  pub google_client_id : Text
  pub google_client_secret : Text
  pub google_redirect_uri : Text
  pub secret_key : Text

-- The libraries: `hmac.new(key, message, sha256).hexdigest()`, `urlencode`, the requests that
-- `httpx` makes, and the encryption of Fernet under the key derived from a secret.
pub record Libraries : Type 0 where
  pub hexdigest : Text → Text → Text
  pub urlencode : List (Text × Text) → Text
  pub post : Text → List (Text × Text) → Result Response
  pub request : Text → List (Text × Text) → List (Text × Text) → Result Response
  pub encrypt : Text → Text → Text
  pub decrypt : Text → Text → Result Text

abbrev pub scopes : List Text
scopes = codes "https://www.googleapis.com/auth/drive.readonly" ∷ []

abbrev auth_endpoint : Text
auth_endpoint = codes "https://accounts.google.com/o/oauth2/v2/auth"

abbrev token_endpoint : Text
token_endpoint = codes "https://oauth2.googleapis.com/token"

abbrev drive_endpoint : Text
drive_endpoint = codes "https://www.googleapis.com/drive/v3"

abbrev pub folder_mime : Text
folder_mime = codes "application/vnd.google-apps.folder"

-- `resp.raise_for_status()`
abbrev raise_for_status : Response → Result Response
raise_for_status resp =
    if leb 200 resp.status && leb resp.status 299 then ok resp else err (other "HTTPStatusError" "")

-- `str.partition(".")`: what stands before the first full stop, and after it.
unfoldable pub partition_dot : Text → Text × Text
partition_dot [] = ([], [])
partition_dot (c ∷ s) =
    let rest = partition_dot s in if c == b'.' then ([], s) else (c ∷ rest.0, rest.1)

module _ (lib : Libraries) (settings : GoogleSettings) where
  unfoldable pub is_configured : Bool
  is_configured = is_nonempty settings.google_client_id && is_nonempty settings.google_redirect_uri

  -- The signature of a connector's identifier.
  unfoldable pub state_signature : Text → Text
  state_signature connector_id = take 16 (lib.hexdigest settings.secret_key connector_id)

  pub sign_state : Text → Text
  unfolding state_signature
  sign_state connector_id = connector_id ++ (b'.' ∷ state_signature connector_id)

  -- A signature with a character outside ASCII, for which `compare_digest` raises `TypeError`, is one
  -- that differs here.
  pub verify_state : Text → Option Text
  unfolding state_signature partition_dot
  verify_state state =
      let (connector_id, sig) = partition_dot state in
      if is_nonempty sig && text_eq sig (state_signature connector_id)
      then some connector_id
      else none

  pub build_auth_url : Text → Text
  unfolding sign_state join
  build_auth_url connector_id =
      auth_endpoint
      ++ (b'?'
          ∷ lib.urlencode (
              (codes "client_id", settings.google_client_id)
              ∷ (codes "redirect_uri", settings.google_redirect_uri)
              ∷ (codes "response_type", codes "code")
              ∷ (codes "scope", join (codes " ") scopes)
              ∷ (codes "access_type", codes "offline")
              ∷ (codes "prompt", codes "consent")
              ∷ (codes "state", sign_state connector_id)
              ∷ []))

  -- The JSON of Google's answer to the code.
  pub exchange_code : Text → Result Response
  exchange_code code =
      then_result
        (lib.post token_endpoint (
          (codes "code", code)
          ∷ (codes "client_id", settings.google_client_id)
          ∷ (codes "client_secret", settings.google_client_secret)
          ∷ (codes "redirect_uri", settings.google_redirect_uri)
          ∷ (codes "grant_type", codes "authorization_code")
          ∷ []))
        raise_for_status

  -- `resp.json()["access_token"]`
  abbrev access_token : Response → Result Text
  access_token resp = elim (resp.field "access_token") [
    | none ↦ err (other "KeyError" "access_token")
    | some token ↦ ok token
  ]

  unfoldable pub refresh_access_token : Text → Result Text
  refresh_access_token refresh_token =
      then_result
        (lib.post token_endpoint (
          (codes "refresh_token", refresh_token)
          ∷ (codes "client_id", settings.google_client_id)
          ∷ (codes "client_secret", settings.google_client_secret)
          ∷ (codes "grant_type", codes "refresh_token")
          ∷ []))
        (λ resp. then_result (raise_for_status resp) access_token)

  abbrev authorization : Text → List (Text × Text)
  authorization token = (codes "Authorization", codes "Bearer " ++ token) ∷ []

  -- The query of a listing.
  unfoldable pub list_query : Option Text → Text
  list_query none = codes "trashed = false and mimeType != 'application/vnd.google-apps.folder'"
  list_query (some folder_id) =
      if is_nonempty folder_id
      then b'\'' ∷ folder_id ++ codes "' in parents and trashed = false"
      else codes "trashed = false and mimeType != 'application/vnd.google-apps.folder'"

  pub list_files : Text → Option Text → Result (List DriveItem)
  unfolding list_query
  list_files token folder_id =
      then_result
        (lib.request (drive_endpoint ++ codes "/files")
          ((codes "q", list_query folder_id)
            ∷ (codes "fields", codes "files(id,name,mimeType)")
            ∷ (codes "pageSize", codes "200")
            ∷ (codes "orderBy", codes "modifiedTime desc")
            ∷ (codes "corpora", codes "allDrives")
            ∷ (codes "includeItemsFromAllDrives", codes "true")
            ∷ (codes "supportsAllDrives", codes "true")
            ∷ [])
          (authorization token))
        (λ resp. then_result (raise_for_status resp) (λ r. ok r.files))

  pub get_metadata : Text → Text → Result Response
  get_metadata token file_id =
      then_result
        (lib.request (drive_endpoint ++ (codes "/files/" ++ file_id))
          ((codes "fields", codes "id,name,mimeType,size,modifiedTime") ∷ []) (authorization token))
        raise_for_status

  pub download_file : Text → Text → Result (List ℕ)
  download_file token file_id =
      then_result
        (lib.request (drive_endpoint ++ (codes "/files/" ++ file_id))
          ((codes "alt", codes "media") ∷ []) (authorization token))
        (λ resp. then_result (raise_for_status resp) (λ r. ok r.content))

  -- Fernet under the secret.
  pub encrypt_token : Text → Text
  encrypt_token token = lib.encrypt settings.secret_key token

  unfoldable pub decrypt_token : Text → Result Text
  decrypt_token blob = lib.decrypt settings.secret_key blob
