-- ===== src/Llm.antt =====
-- backend/pkg/llm/client.go: the completion of a prompt. JSON and the transport are parameters. An
-- `int` is an integer; its size does not matter, since it is only compared.
pub mod Bounds
use ocis_workflows.Base.{
  ℕ, ◌≤◌, Text, text, is_empty, ltb, leb, not, ◌==◌, Bool, Bool-cases, true, false, List, [], ◌∷◌,
  ◌++◌, Result, ok, err, ◌≡◌, inl, inr, refl, arith, trim_right, slash, if◌then◌else◌,
}
use ocis_workflows.Base.Actions.{Act, pure, fail, given, require, wrap, ◌>>=◌, ◌>>◌}
use ocis_workflows.Http.{Http, HttpRequest, Reply, json_type, decode_body, returned}

pub record Message : Type 0 where
  pub role : Text
  pub content : Text

pub record ChatRequest : Type 0 where
  pub model : Text
  pub messages : List Message
  pub max_tokens : ℕ

-- A `maxTokens` as it is given: a negative number, or another one.
pub data Limit : Type 0 where
  below_zero : Limit
  tokens : ℕ → Limit

pub record Client : Type 0 where
  pub endpoint : Text
  pub api_key : Text
  pub model : Text
  pub max_tokens : ℕ

-- `chatResponse` is the contents of its choices.
pub record Provider (W : Type 0) : Type 0 where
  pub http : Http W
  pub encode_chat : ChatRequest → Result Text
  pub decode_chat : Text → Result (List Text)

abbrev or_default : ℕ → ℕ
or_default n = if n == 0 then 4096 else n

abbrev ceiling : Limit → ℕ
ceiling below_zero = 4096
ceiling (tokens n) = or_default n

-- `New`
unfoldable pub new : Text → Text → Text → Limit → Client
new endpoint api_key model max_tokens = record {
  endpoint = trim_right slash endpoint;
  api_key = api_key;
  model = model;
  max_tokens = ceiling max_tokens;
}

-- `Configured` of a client that is not nil
abbrev pub configured : Client → Bool
configured c = not (is_empty c.endpoint)

-- The two tests before the request is built.
unfoldable pub clamped : ℕ → Limit → ℕ
clamped most below_zero = most
clamped most (tokens n) = if n == 0 then most else if ltb most n then most else n

abbrev pub chosen_model : Client → Text → Text
chosen_model c model_override = if not (is_empty model_override) then model_override else c.model

abbrev key_header : Text → List (Text × Text)
key_header api_key =
    if not (is_empty api_key) then (text "Authorization", text "Bearer " ++ api_key) ∷ [] else []

abbrev first_choice : {S : Type 0} → List Text → Act S Text
first_choice [] = fail (text "llm response had no choices")
first_choice (content ∷ rest) = pure content

-- The message of a status that is not 200 quotes the body, as far as it can be read.
abbrev readable : Result Text → Text
readable (ok content) = content
readable (err e) = []

module _ {W : Type 0} (p : Provider W) (c : Client) where
  abbrev pub chat : Text → HttpRequest
  chat body = record {
    method = text "POST";
    url = c.endpoint ++ text "/chat/completions";
    headers = json_type ∷ key_header c.api_key;
    body = body;
  }

  unfoldable pub complete : List Message → Text → Limit → Act W Text
  unfolding clamped
  complete messages model_override limit = do
    require (configured c) (text "no LLM endpoint configured")
    body ← given (
        p.encode_chat (record {
          model = chosen_model c model_override;
          messages = messages;
          max_tokens = clamped c.max_tokens limit;
        }))
    reply ← p.http.send (chat body)
    require (reply.status == 200)
        (returned p.http (text "llm endpoint") reply ++ (text ": " ++ readable reply.body))
    choices ← wrap (text "decode llm response") (decode_body p.decode_chat reply)
    first_choice choices
