-- ===== src/TextExtract/Paragraphs.antt =====
-- The text of a document as the lines of its paragraphs.
use ocis_workflows.Base.{
  Text, text, teq, trim_right, Bool, true, false, none, some, List, [], ◌∷◌, ◌++◌, map, append-nil,
  append_assoc, All, ok, ◌≡◌, refl,
}
use ocis_workflows.TextExtract.{
  extract_docx, Token, Part, Readers, Format, newline, step, walk, find_part,
  parse_wordprocessing_xml, detect_format, extract,
}

-- What a paragraph holds: runs of text in chunks, and tokens that are no part of a run.
pub data Piece : Type 0 where
  run : List Text → Piece
  aside : Token → Piece

-- A token that opens no run, and closes neither a run nor a paragraph.
abbrev pub IsAside : Token → Type 0
IsAside (Token.start_element name) = teq name (text "t") ≡ false
IsAside (Token.end_element name) = (teq name (text "t") ≡ false) × (teq name (text "p") ≡ false)
IsAside (Token.char_data t) = Unit
IsAside Token.other_token = Unit

abbrev pub IsPlain : Piece → Type 0
IsPlain (run chunks) = Unit
IsPlain (aside t) = IsAside t

abbrev pub joined : List Text → Text
joined [] = []
joined (t ∷ ts) = t ++ joined ts

-- Its markup
abbrev pub piece_tokens : Piece → List Token
piece_tokens (run chunks) =
    Token.start_element (text "t")
    ∷ (map Token.char_data chunks ++ (Token.end_element (text "t") ∷ []))
piece_tokens (aside t) = t ∷ []

abbrev pub pieces_tokens : List Piece → List Token
pieces_tokens [] = []
pieces_tokens (p ∷ ps) = piece_tokens p ++ pieces_tokens ps

abbrev pub document_tokens : List (List Piece) → List Token
document_tokens [] = []
document_tokens (p ∷ ps) =
    Token.start_element (text "p")
    ∷ (pieces_tokens p ++ (Token.end_element (text "p") ∷ document_tokens ps))

-- Its text
abbrev pub piece_text : Piece → Text
piece_text (run chunks) = joined chunks
piece_text (aside t) = []

abbrev pub line : List Piece → Text
line [] = []
line (p ∷ ps) = piece_text p ++ line ps

abbrev pub lines : List (List Piece) → Text
lines [] = []
lines (p ∷ ps) = line p ++ (newline ++ lines ps)

walk-append :
    (ts us : List Token) (in_text : Bool) (sb : Text)
    → walk (ts ++ us) in_text sb
      ≡ (let (in_text', sb') = walk ts in_text sb in walk us in_text' sb')
unfolding walk
walk-append [] us in_text sb = refl
walk-append (t ∷ ts) us in_text sb = walk-append ts us (step t in_text sb).0 (step t in_text sb).1

walk-chunks :
    (chunks : List Text) (sb : Text)
    → walk (map Token.char_data chunks) true sb ≡ (true, sb ++ joined chunks)
unfolding walk
walk-chunks [] sb = rw (append-nil sb) refl
walk-chunks (t ∷ ts) sb = rw (walk-chunks ts (sb ++ t), append_assoc sb t (joined ts)) refl

walk-piece :
    (p : Piece) (sb : Text)
    → IsPlain p
    → walk (piece_tokens p) false sb ≡ (false, sb ++ piece_text p)
unfolding walk teq
walk-piece (run chunks) sb h =
    rw
      (
        walk-append (map Token.char_data chunks) (Token.end_element (text "t") ∷ []) true sb,
        walk-chunks chunks sb,
      )
      refl
walk-piece (aside (Token.start_element name)) sb h = rw (h, append-nil sb) refl
walk-piece (aside (Token.end_element name)) sb h = rw (h.0, h.1, append-nil sb) refl
walk-piece (aside (Token.char_data t)) sb h = rw (append-nil sb) refl
walk-piece (aside Token.other_token) sb h = rw (append-nil sb) refl

walk-pieces :
    (ps : List Piece) (sb : Text)
    → All IsPlain ps
    → walk (pieces_tokens ps) false sb ≡ (false, sb ++ line ps)
unfolding walk
walk-pieces [] sb h = rw (append-nil sb) refl
walk-pieces (p ∷ ps) sb h =
    rw
      (
        walk-append (piece_tokens p) (pieces_tokens ps) false sb,
        walk-piece p sb h.0,
        walk-pieces ps (sb ++ piece_text p) h.1,
        append_assoc sb (piece_text p) (line ps),
      )
      refl

walk-asides : (ts : List Token) (sb : Text) → All IsAside ts → walk ts false sb ≡ (false, sb)
unfolding walk
walk-asides [] sb h = refl
walk-asides (t ∷ ts) sb h =
    rw
      (
        walk-append (t ∷ []) ts false sb,
        walk-piece (aside t) sb h.0,
        append-nil sb,
        walk-asides ts sb h.1,
      )
      refl

walk-document :
    (ps : List (List Piece)) (sb : Text)
    → All (All IsPlain) ps
    → walk (document_tokens ps) false sb ≡ (false, sb ++ lines ps)
unfolding walk teq
walk-document [] sb h = rw (append-nil sb) refl
walk-document (p ∷ ps) sb h =
    rw
      (
        walk-append (pieces_tokens p) (Token.end_element (text "p") ∷ document_tokens ps) false sb,
        walk-pieces p sb h.0,
        walk-document ps ((sb ++ line p) ++ newline) h.1,
        append_assoc (sb ++ line p) newline (lines ps),
        append_assoc sb (line p) (newline ++ lines ps),
      )
      refl

-- The text of a DOCX file, by its extension or by its content, whose document part reads as
-- paragraphs of runs, each between other markup, in a frame of other markup: the texts of the
-- paragraphs' runs, in order, a line for each paragraph, without the newlines at the end.
pub extract-lines :
    (r : Readers) (filename content xml : Text) (files : List Part) (part : Part)
    (head tail : List Token) (ps : List (List Piece))
    → detect_format r filename content ≡ Format.docx
    → r.zip content ≡ ok files
    → find_part files ≡ some part
    → part.opened ≡ ok (ok xml)
    → r.tokens xml ≡ (head ++ (document_tokens ps ++ tail), none)
    → All IsAside head
    → All (All IsPlain) ps
    → All IsAside tail
    → extract r filename content ≡ ok (trim_right b'\n' (lines ps))
unfolding extract extract_docx parse_wordprocessing_xml
extract-lines r filename content xml files part head tail ps detected unzipped there opened read
      before plain after =
    rw
      (
        detected,
        unzipped,
        there,
        opened,
        read,
        walk-append head (document_tokens ps ++ tail) false [],
        walk-asides head [] before,
        walk-append (document_tokens ps) tail false [],
        walk-document ps [] plain,
        walk-asides tail (lines ps) after,
      )
      refl
