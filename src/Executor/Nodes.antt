-- ===== src/Executor/Nodes.antt =====
-- executor.go, `runLLM`, `runExtractText` and `runAction`. A step returns the `Output` of its
-- result, which the code sets just before it returns without an error.
pub mod Effects
use ocis_workflows.Base.{
  ℕ, Text, text, slash, teq, is_empty, Bool, true, false, ◌||◌, Option, none, some, ◌++◌, length,
  trim_right, if◌then◌else◌, ok,
}
use ocis_workflows.Model.{Value, Fields, WorkflowNode, get_field}
use ocis_workflows.Executor.Template.{Vars, get_var, render, base_name, dir_name}
use ocis_workflows.Base.Actions.{pure, fail, ◌>>=◌, ◌>>◌}
use ocis_workflows.Executor.Clients.{
  Clients, Frame, Exec, call, perform, remember, go_to, current_path, get_vars,
}

-- `v, _ := x.(string)`: the empty string if `x` is absent or of another type
abbrev pub as_string : Option Value → Text
as_string none = text ""
as_string (some (Value.string t)) = t
as_string (some _) = text ""

-- `v, _ := x.(map[string]any)`: nil if `x` is absent or of another type
abbrev pub as_fields : Option Value → Option Fields
as_fields none = none
as_fields (some (Value.object fs)) = some fs
as_fields (some _) = none

abbrev pub string_at : Text → Fields → Text
string_at key fs = as_string (get_field key fs)

module _ {W : Type 0} (c : Clients W) where
  -- `render(tmpl, vars)`
  pub rendered : Text → Exec W Text
  rendered tmpl f =
      let (ordered, w) = c.iterate f.vars f.world in
      (ok (render tmpl ordered), record f { world = w })

  pub run_llm : WorkflowNode → Exec W Text
  unfolding rendered
  run_llm node = do
    prompt ← rendered (string_at (text "prompt") node.fields)
    if is_empty prompt then fail (text "llm node has no prompt configured") else do
      output ← call (c.complete prompt (string_at (text "model") node.fields))
      remember (text "llm.output") output
      pure output

  abbrev output_var : Text → Text
  output_var v = if is_empty v then text "file.text" else v

  pub run_extract_text : WorkflowNode → Exec W Text
  run_extract_text node = do
    vars ← get_vars
    extracted ←
        call (λ w.
          (c.extract (get_var (text "file.name") vars) (get_var (text "file.content") vars), w))
    remember (output_var (string_at (text "outputVariable") node.fields)) extracted
    pure (c.decimal (length extracted) ++ text " characters extracted")

  -- The closure `param`.
  pub param : Option Fields → Text → Exec W Text
  unfolding rendered
  param none key = pure (text "")
  param (some params) key = rendered (string_at key params)

  module _ (auth : Text) where
    pub tag_action : Option Fields → Exec W Text
    unfolding param
    tag_action params = do
      tag ← param params (text "tag")
      path ← current_path
      if is_empty tag || is_empty path
          then fail (text "tag action needs both a target file and a tag value")
          else do
            item ← call (c.resolve_item_id auth path)
            perform (c.assign_tag auth item tag)
            remember (text "tag.output") tag
            pure tag

    pub comment_action : Option Fields → Exec W Text
    unfolding param
    comment_action params = do
      body ← param params (text "comment")
      path ← current_path
      if is_empty body || is_empty path
          then fail (text "comment action needs both a target file and comment text")
          else do
            perform (c.comment auth path body)
            remember (text "comment.output") body
            pure body

    -- The case of "move" and "copy": `moves` is `actionType == "move"`.
    pub relocate : Bool → Text → Option Fields → Exec W Text
    unfolding param
    relocate moves kind params = do
      dest ← param params (text "destination")
      path ← current_path
      if is_empty dest || is_empty path
          then fail (kind ++ text " action needs both a target file and a destination")
          else do
            let target = trim_right slash dest ++ (text "/" ++ base_name path)
            perform (if moves then c.move auth path target else c.copy auth path target)
            remember (kind ++ text ".output") target
            go_to (if moves then target else path)
            pure target

    pub rename_action : Option Fields → Exec W Text
    unfolding param
    rename_action params = do
      new_name ← param params (text "newName")
      path ← current_path
      if is_empty new_name || is_empty path
          then fail (text "rename action needs both a target file and a new name")
          else do
            let target = dir_name path ++ (text "/" ++ new_name)
            perform (c.move auth path target)
            remember (text "rename.output") target
            go_to target
            pure target

    pub notify_action : Option Fields → Exec W Text
    unfolding param
    notify_action params = do
      target ← param params (text "target")
      if is_empty target then fail (text "notify action needs a target") else do
        message ← param params (text "message")
        perform (c.notify target (text "Workflows") message)
        remember (text "notify.output") (text "sent")
        pure (text "sent")

    -- `switch actionType`
    pub dispatch_action : Text → Option Fields → Exec W Text
    dispatch_action kind params =
        if teq kind (text "tag")
        then tag_action params
        else if teq kind (text "comment")
        then comment_action params
        else if teq kind (text "move")
        then relocate true kind params
        else if teq kind (text "copy")
        then relocate false kind params
        else if teq kind (text "rename")
        then rename_action params
        else if teq kind (text "notify")
        then notify_action params
        else fail (text "unknown action type " ++ c.quote kind)

    unfoldable pub run_action : WorkflowNode → Exec W Text
    run_action node =
        dispatch_action (string_at (text "actionType") node.fields)
          (as_fields (get_field (text "actionParams") node.fields))
