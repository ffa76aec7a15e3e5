-- ===== src/Sse/Stream.antt =====
-- manager.go, `streamOnce`: the blocks of an event stream. `trim_space` is strings.TrimSpace.
use ocis_workflows.Base.{
  Text, text, is_empty, has_prefix, trim_prefix, false, Option, none, some, List, [], ◌∷◌, ◌++◌,
  ◌≡◌, refl, if◌then◌else◌, Bool-cases, inl, inr,
}

-- The variables `eventType` and `data`.
pub record Block : Type 0 where
  pub event_type : Text
  pub payload : Text

abbrev pub no_block : Block
no_block = record { event_type = []; payload = [] }

abbrev pub event_field : Text
event_field = text "event:"

abbrev pub data_field : Text
data_field = text "data:"

abbrev pub emit : Option Block → List Block → List Block
emit none bs = bs
emit (some b) bs = b ∷ bs

-- No line of the list is empty.
abbrev pub NoBlank : List Text → Type 0
NoBlank [] = Unit
NoBlank (line ∷ rest) = (is_empty line ≡ false) × NoBlank rest

module _ (trim_space : Text → Text) where
  -- One line: the variables after it, and the call of `handleEvent` that it makes.
  unfoldable pub scan_line : Text → Block → Option Block × Block
  scan_line line b =
      if has_prefix line event_field
      then (none, record b { event_type = trim_space (trim_prefix line event_field) })
      else if has_prefix line data_field
      then (none, record b { payload = trim_space (trim_prefix line data_field) })
      else if is_empty line
      then ((if is_empty b.payload then none else some b), no_block)
      else (none, b)

  -- The calls of `handleEvent` that the lines make, from the given values of the variables on.
  unfoldable pub scan : List Text → Block → List Block
  unfolding scan_line
  scan [] b = []
  scan (line ∷ rest) b = let (call, b') = scan_line line b in emit call (scan rest b')

  -- What the last event line and the last data line of a block say, from given values on.
  unfoldable pub last_event : List Text → Text → Text
  last_event [] v = v
  last_event (line ∷ rest) v =
      last_event rest
        (if has_prefix line event_field then trim_space (trim_prefix line event_field) else v)

  unfoldable pub last_data : List Text → Text → Text
  last_data [] v = v
  last_data (line ∷ rest) v = last_data rest (
      if has_prefix line event_field
      then v
      else if has_prefix line data_field
      then trim_space (trim_prefix line data_field)
      else v)

  abbrev pub block_of : List Text → Block → Block
  block_of lines b = record {
    event_type = last_event lines b.event_type;
    payload = last_data lines b.payload;
  }

  scan-block_from :
      (lines rest : List Text) (b : Block)
      → NoBlank lines
      → scan (lines ++ [] ∷ rest) b
        ≡ emit
            (if is_empty (block_of lines b).payload then none else some (block_of lines b))
            (scan rest no_block)
  unfolding scan last_event last_data has_prefix
  scan-block_from [] rest b h = refl
  scan-block_from (line ∷ lines) rest b h = elim (Bool-cases (has_prefix line event_field)) [
    | inl e ↦ rw e (
        scan-block_from lines rest
          (record b { event_type = trim_space (trim_prefix line event_field) }) h.1)
    | inr n ↦ elim (Bool-cases (has_prefix line data_field)) [
      | inl d ↦
          rw (n, d)
            (scan-block_from lines rest
              (record b { payload = trim_space (trim_prefix line data_field) }) h.1)
      | inr m ↦ rw (n, m, h.0) (scan-block_from lines rest b h.1)
    ]
  ]

  -- A block's lines, up to the first empty one, make one call of `handleEvent`, with what the last
  -- event line and the last data line say, wherever they stand in the block and in whatever order,
  -- or none if there is no data; and the next block starts afresh.
  pub scan-block :
      (lines rest : List Text)
      → NoBlank lines
      → scan (lines ++ [] ∷ rest) no_block
        ≡ emit
            (if is_empty (last_data lines []) then none else some (block_of lines no_block))
            (scan rest no_block)
  scan-block lines rest h = scan-block_from lines rest no_block h
