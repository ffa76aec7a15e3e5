-- ===== src/TextExtract.antt =====
-- backend/pkg/textextract: textextract.go is the choice of the format, docx.go the text of a document,
-- pdf.go a chain of calls. archive/zip, encoding/xml, filepath.Ext, strings.ToLower and the PDF
-- library are parameters.
pub mod Paragraphs
use ocis_workflows.Base.{
  Text, text, teq, has_prefix, trim_right, ◌||◌, Bool, true, false, Option, none, some, List, [],
  ◌∷◌, ◌++◌, Result, ok, err, if◌then◌else◌,
}
use ocis_workflows.Base.Actions.{prefixed}

pub data Format : Type 0 where
  plain_text : Format
  pdf : Format
  docx : Format

-- A `zip.File`: opening it, and reading what was opened.
pub record Part : Type 0 where
  pub name : Text
  pub opened : Result (Result Text)

-- The kinds of `xml.Token` by their local names.
pub data Token : Type 0 where
  start_element : Text → Token
  end_element : Text → Token
  char_data : Text → Token
  other_token : Token

-- `tokens` is what Token returns until an error, with that error unless it is io.EOF.
pub record Readers : Type 0 where
  pub lower_extension : Text → Text
  pub zip : Text → Result (List Part)
  pub tokens : Text → List Token × Option Text
  pub pdf_reader : Text → Result Text
  pub pdf_plain_text : Text → Result (Result Text)

abbrev document_part : Text
document_part = text "word/document.xml"

abbrev pub newline : Text
newline = b'\n' ∷ []

unfoldable pub find_part : List Part → Option Part
unfolding teq
find_part [] = none
find_part (f ∷ files) =
    let rest = find_part files in if teq f.name document_part then some f else rest

abbrev pub is_some : {A : Type 0} → Option A → Bool
is_some none = false
is_some (some a) = true

-- The switch on one token: whether text is inside a run after it, and what is written.
abbrev pub step : Token → Bool → Text → Bool × Text
step (start_element name) in_text sb = if teq name (text "t") then (true, sb) else (in_text, sb)
step (end_element name) in_text sb =
    if teq name (text "t")
    then (false, sb)
    else if teq name (text "p")
    then (in_text, sb ++ newline)
    else (in_text, sb)
step (char_data t) in_text sb = if in_text then (in_text, sb ++ t) else (in_text, sb)
step other_token in_text sb = (in_text, sb)

-- The loop over the tokens.
unfoldable pub walk : List Token → Bool → Text → Bool × Text
walk [] in_text sb = (in_text, sb)
walk (t ∷ ts) in_text sb = let (in_text', sb') = step t in_text sb in walk ts in_text' sb'

abbrev pub finished : Option Text → Text → Result Text
finished none sb = ok (trim_right b'\n' sb)
finished (some e) sb = err (text "textextract: parsing docx xml: " ++ e)

module _ (r : Readers) where
  unfoldable pub parse_wordprocessing_xml : Text → Result Text
  unfolding walk
  parse_wordprocessing_xml content =
      let (tokens, end) = r.tokens content in
      let (in_text, sb) = walk tokens false [] in finished end sb

  abbrev parse_read : Result Text → Result Text
  parse_read (ok content) = parse_wordprocessing_xml content
  parse_read (err e) = err (text "textextract: reading docx document part: " ++ e)

  abbrev read_part : Result (Result Text) → Result Text
  read_part (ok read) = parse_read read
  read_part (err e) = err (text "textextract: opening docx document part: " ++ e)

  abbrev extract_part : Option Part → Result Text
  extract_part none = err (text "textextract: docx has no word/document.xml part")
  extract_part (some part) = read_part part.opened

  abbrev extract_zip : Result (List Part) → Result Text
  extract_zip (ok files) = extract_part (find_part files)
  extract_zip (err e) = err (text "textextract: opening docx: " ++ e)

  unfoldable pub extract_docx : Text → Result Text
  extract_docx content = extract_zip (r.zip content)

  abbrev pdf_text : Result (Result Text) → Result Text
  pdf_text (ok read) = prefixed (text "textextract: reading pdf text") read
  pdf_text (err e) = err (text "textextract: reading pdf text: " ++ e)

  abbrev pdf_of : Result Text → Result Text
  pdf_of (ok reader) = pdf_text (r.pdf_plain_text reader)
  pdf_of (err e) = err (text "textextract: opening pdf: " ++ e)

  unfoldable pub extract_pdf : Text → Result Text
  extract_pdf content = pdf_of (r.pdf_reader content)

  abbrev has_document : Result (List Part) → Bool
  has_document (ok files) = is_some (find_part files)
  has_document (err e) = false

  unfoldable pub is_docx : Text → Bool
  unfolding has_prefix
  is_docx content =
      if has_prefix content (b'P' ∷ b'K' ∷ 3 ∷ 4 ∷ []) then has_document (r.zip content) else false

  unfoldable pub detect_format : Text → Text → Format
  unfolding has_prefix teq
  detect_format filename content =
      let ext = r.lower_extension filename in
      if teq ext (text ".pdf")
      then Format.pdf
      else if teq ext (text ".docx")
      then Format.docx
      else if has_prefix content (text "%PDF-")
      then Format.pdf
      else if is_docx content
      then Format.docx
      else Format.plain_text

  abbrev pub extract_as : Format → Text → Result Text
  extract_as Format.pdf content = extract_pdf content
  extract_as Format.docx content = extract_docx content
  extract_as Format.plain_text content = ok content

  unfoldable pub extract : Text → Text → Result Text
  unfolding detect_format
  extract filename content = extract_as (detect_format filename content) content
