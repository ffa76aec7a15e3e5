-- ===== src/Tests/Calls.antt =====
-- The clients and the guards on concrete inputs.
use ocis_workflows.Base.{
  ℕ, suc, ◌≤◌, text, teq, true, false, none, some, List, [], ◌∷◌, ◌++◌, trim_right, ok, err, ◌≡◌,
  refl, arith,
}
use ocis_workflows.Http.{Http}
use ocis_workflows.Llm.{Provider, tokens, new, complete}
use ocis_workflows.Llm.Bounds.{complete-Leaves}
use ocis_workflows.Notify.{Network, Target, Address}
use ocis_workflows.Notify
use ocis_workflows.Notify.Guard.{send-Leaves}
use ocis_workflows.TextExtract.{Readers, Part, Token, Format, extract, find_part, detect_format}
use ocis_workflows.TextExtract.Paragraphs.{Piece, run, aside, document_tokens, extract-lines}
use ocis_workflows.Config.{Platform}

-- A network that counts the calls.
abbrev http : Http ℕ
http = record {
  send = λ req w. (ok (record { status = 200; body = ok (text "ok") }), suc w);
  decimal = λ n. [];
  quote = λ t. t;
}

abbrev pub provider : Provider ℕ
provider = record {
  http = http;
  encode_chat = λ r. ok (text "chat");
  decode_chat = λ t. ok (text "answer" ∷ []);
}

-- The limit of 9,000 is above the ceiling.
complete-Leaves_example :
    1
    ≤ (complete provider
        (new (text "http://llm/") [] (text "m") (tokens 100))
        []
        []
        (tokens 9000)
        1).1
complete-Leaves_example =
    complete-Leaves provider (λ w. 1 ≤ w) (text "http://llm/") [] (text "m") (tokens 100) [] []
      (tokens 9000) (λ w n body e low high encoded h. omega (arith, h)) 1 (omega arith)

abbrev loopback : Address
loopback = record {
  is_loopback = true;
  is_private = false;
  is_link_local_unicast = false;
  is_link_local_multicast = false;
  is_unspecified = false;
}

abbrev pub network : Network ℕ
network = record {
  parse_url = λ t. ok (record { scheme = text "http"; hostname = text "localhost" });
  to_lower = λ t. t;
  lookup = λ host w. (ok (loopback ∷ []), w);
  add = λ t. ok tt;
  deliver = λ target title body w. (ok tt, suc w);
  quote = λ t. t;
}

-- Nothing is delivered to a loopback address.
send-Leaves_example : (Notify.send network (text "http://localhost") [] [] 0).1 ≡ 0
unfolding Notify.is_generic teq
send-Leaves_example =
    send-Leaves network (λ w. w ≡ 0) (text "http://localhost") [] [] 0 (λ host w h. h)
      (λ w permitted h. ground (arith, permitted refl refl)) refl

abbrev platform : Platform ℕ
platform = record {
  lookup_env = λ key. none;
  atoi = λ t. err [];
  parse_bool = λ t. err [];
  decode_base64 = λ t. err [];
  random = λ w. (ok (text "0123456789abcdef0123456789abcdef"), w);
  decimal = λ n. [];
}

abbrev document : Part
document = record { name = text "word/document.xml"; opened = ok (ok (text "<xml>")) }

abbrev paragraphs : List (List Piece)
paragraphs =
    (run (text "Dear" ∷ text " Ada" ∷ []) ∷ [])
    ∷ (aside (Token.start_element (text "b")) ∷ run (text "Hello" ∷ []) ∷ [])
    ∷ []
    ∷ []

abbrev pub readers : Readers
readers = record {
  lower_extension = λ t. text ".docx";
  zip = λ t. ok (document ∷ []);
  tokens = λ t. (document_tokens paragraphs, none);
  pdf_reader = λ t. err [];
  pdf_plain_text = λ t. err [];
}

is_document :
    (detect_format readers (text "a.docx") [] ≡ Format.docx)
    × (find_part (document ∷ []) ≡ some document)
unfolding detect_format find_part
is_document = (refl, refl)

extract-lines_example :
    extract readers (text "a.docx") []
    ≡ ok (trim_right b'\n' (text "Dear Ada" ++ b'\n' ∷ (text "Hello" ++ b'\n' ∷ b'\n' ∷ [])))
unfolding teq
extract-lines_example =
    extract-lines readers (text "a.docx") [] (text "<xml>") (document ∷ []) document [] []
      paragraphs is_document.0 refl is_document.1 refl refl tt
      ((tt, tt), ((refl, (tt, tt)), (tt, tt))) tt
