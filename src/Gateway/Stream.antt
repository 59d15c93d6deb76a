-- ===== src/Gateway/Stream.antt =====
-- backend/app/services/llm_gateway.py: `stream_llm`, the streamed answer of a model.
use keel_be.Prelude.{
  ℕ, String, Text, Bool, Option, none, some, List, [], ◌∷◌, is_nonempty, if◌then◌else◌,
}
use keel_be.Core.Errors.{Exc, Kind, app, app_error}
use keel_be.Core.Session.{Result, ok, err}
use keel_be.Gateway.{TokenUsage, record_usage}

pub record Usage : Type 0 where
  pub prompt_tokens : ℕ
  pub completion_tokens : ℕ
  pub total_tokens : ℕ

-- One event of the provider's stream.
pub record StreamEvent : Type 0 where
  pub text : Text
  pub usage : Option Usage

-- What a provider streams: its events, and the exception that ends them, if one does.
pub record ProviderStream : Type 0 where
  pub events : List StreamEvent
  pub failure : Option Exc

-- `if event.text: yield event.text`
pub yielded : List StreamEvent → List Text
yielded [] = []
yielded (e ∷ es) = let rest = yielded es in if is_nonempty e.text then e.text ∷ rest else rest

-- `if event.usage: …`, over the events.
pub last_usage : Usage → List StreamEvent → Usage
last_usage u [] = u
last_usage u (e ∷ es) = last_usage (elim e.usage [ none ↦ u | some v ↦ v ]) es

-- The deltas that `stream_llm` yields, whether it then raises, and the rows of usage.
unfoldable pub stream_llm :
    ProviderStream → Bool → String → ℕ → List TokenUsage → List Text × Result Unit × List TokenUsage
unfolding yielded last_usage
stream_llm stream db_up model workspace_id rows =
    let zero_usage : Usage = record {
      prompt_tokens = 0;
      completion_tokens = 0;
      total_tokens = 0;
    } in
    let usage = last_usage zero_usage stream.events in
    let logged =
      record_usage db_up
        (record {
          workspace_id = workspace_id;
          operation = "chat";
          model = model;
          prompt_tokens = usage.prompt_tokens;
          completion_tokens = usage.completion_tokens;
          total_tokens = usage.total_tokens;
        })
        rows in
    (
      yielded stream.events,
      elim stream.failure [
        | none ↦ ok tt
        | some e ↦ err (app (app_error Kind.upstream_ai "AI provider error during chat stream"))
      ],
      logged.1,
    )
