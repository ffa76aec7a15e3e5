-- ===== src/Http.antt =====
-- net/http, as the clients of the program use it: the transport is a parameter.
use ocis_workflows.Base.{ℕ, Text, text, List, ◌∷◌, ◌++◌, Result}
use ocis_workflows.Base.Actions.{Act, given, ◌>>=◌}

pub record HttpRequest : Type 0 where
  pub method : Text
  pub url : Text
  pub headers : List (Text × Text)
  pub body : Text

-- A response: its status and what reading its body to the end gives.
pub record Reply : Type 0 where
  pub status : ℕ
  pub body : Result Text

-- `send` is http.NewRequestWithContext and http.Client.Do; its error is that of either. `decimal`
-- and `quote` are `%d` and `%q`.
pub record Http (W : Type 0) : Type 0 where
  pub send : HttpRequest → W → Result Reply × W
  pub decimal : ℕ → Text
  pub quote : Text → Text

-- A request that carries the caller's credential.
abbrev pub authorized : Text → Text → Text → List (Text × Text) → Text → HttpRequest
authorized method url auth headers body = record {
  method = method;
  url = url;
  headers = (text "Authorization", auth) ∷ headers;
  body = body;
}

abbrev pub json_type : Text × Text
json_type = (text "Content-Type", text "application/json")

abbrev pub xml_type : Text × Text
xml_type = (text "Content-Type", text "application/xml")

module _ {W : Type 0} where
  -- io.ReadAll(res.Body)
  abbrev pub read_all : Reply → Act W Text
  read_all reply = given reply.body

  -- json.NewDecoder(res.Body).Decode
  abbrev pub decode_body : {A : Type 0} → (Text → Result A) → Reply → Act W A
  decode_body decode reply = do content ← read_all reply; given (decode content)

-- "… returned status n"
abbrev pub returned : {W : Type 0} → Http W → Text → Reply → Text
returned h what reply = what ++ (text " returned status " ++ h.decimal reply.status)
