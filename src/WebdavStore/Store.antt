-- ===== src/WebdavStore/Store.antt =====
-- store.go: the operations of `Store`. JSON, XML and sort.Slice are parameters. Where the code
-- returns `ErrNotFound`, the result is `ok none`.
use ocis_workflows.Base.{
  Text, text, ◌==◌, ◌||◌, Option, none, some, List, [], ◌∷◌, ◌++◌, map, select, has_suffix,
  trim_suffix, path_base, Result, ok, err, if◌then◌else◌,
}
use ocis_workflows.Base.Actions.{Act, pure, given, require, wrap, attempt, ◌>>=◌, ◌>>◌}
use ocis_workflows.Http.{Http, Reply, authorized, json_type, xml_type, read_all, returned}
use ocis_workflows.Ocis.{Ocis, me}
use ocis_workflows.Model.{WorkflowDefinition, ExecutionRecord}
use ocis_workflows.WebdavStore.Internal.{root_dir}

-- json.Marshal and json.Unmarshal for one type
pub record Codec (A : Type 0) : Type 0 where
  pub encode : A → Result Text
  pub decode : Text → Result A

-- `recent_first` is sort.Slice by `StartedDateTime`, the greater first.
pub record Store (W : Type 0) : Type 0 where
  pub ocis_url : Text
  pub ocis : Ocis W
  pub http : Http W
  pub definition_json : Codec WorkflowDefinition
  pub execution_json : Codec ExecutionRecord
  pub decode_hrefs : Text → Result (List Text)
  pub recent_first : List ExecutionRecord → List ExecutionRecord

abbrev pub definitions_dir : Text
definitions_dir = text "definitions"

abbrev pub executions_dir : Text
executions_dir = text "executions"

abbrev pub json_suffix : Text
json_suffix = text ".json"

abbrev pub skip_missing : {A : Type 0} → Option A → List A → List A
skip_missing none xs = xs
skip_missing (some x) xs = x ∷ xs

-- The names of the files that the answer lists.
abbrev pub json_names : List Text → List Text
json_names hrefs =
    select (λ name. has_suffix name json_suffix)
      (map (λ href. path_base (trim_suffix href (text "/"))) hrefs)

module _ {W A : Type 0} where
  -- The loop of `List` and of `ListExecutions` over the names.
  unfoldable pub read_each : (Text → Act W (Option A)) → List Text → Act W (List A)
  read_each read [] = pure []
  read_each read (name ∷ names) = do
    x ← read (trim_suffix name json_suffix)
    rest ← read_each read names
    pure (skip_missing x rest)

module _ {W : Type 0} (s : Store W) where
  unfoldable pub dav_base : Text → Text
  dav_base user_id = s.ocis_url ++ (text "/remote.php/dav/files/" ++ user_id)

  unfoldable pub definition_path : Text → Text → Text
  unfolding dav_base
  definition_path user_id id =
      dav_base user_id
      ++ (text "/"
          ++ (root_dir ++ (text "/" ++ (definitions_dir ++ (text "/" ++ (id ++ json_suffix))))))

  unfoldable pub executions_dir_url : Text → Text → Text
  unfolding dav_base
  executions_dir_url user_id workflow_id =
      dav_base user_id
      ++ (text "/" ++ (root_dir ++ (text "/" ++ (executions_dir ++ (text "/" ++ workflow_id)))))

  unfoldable pub execution_path : Text → Text → Text → Text
  unfolding executions_dir_url
  execution_path user_id workflow_id exec_id =
      executions_dir_url user_id workflow_id ++ (text "/" ++ (exec_id ++ json_suffix))

  unfoldable pub current_user : Text → Act W Text
  current_user auth = wrap (text "resolve current user") (me s.ocis auth)

  unfoldable pub mkcol : Text → Text → Act W (Unit {0})
  mkcol auth url = do
    reply ← s.http.send (authorized (text "MKCOL") url auth [] [])
    require (reply.status == 201 || (reply.status == 405 || reply.status == 409))
        (returned s.http (text "MKCOL " ++ url) reply)

  -- The loop over the segments.
  unfoldable pub make_all : Text → Text → List Text → Act W (Unit {0})
  unfolding mkcol
  make_all auth base [] = pure tt
  make_all auth base (segment ∷ segments) = do
    mkcol auth (base ++ (text "/" ++ segment))
    make_all auth base segments

  unfoldable pub ensure_dirs : Text → Text → Act W (Unit {0})
  unfolding make_all dav_base
  ensure_dirs auth user_id =
      make_all auth (dav_base user_id) (root_dir ∷ (root_dir ++ (text "/" ++ definitions_dir)) ∷ [])

  -- The end of `Put` and of `PutExecution`.
  unfoldable pub write_file : Text → Text → Text → Text → Act W (Unit {0})
  write_file auth what url body = do
    reply ← s.http.send (authorized (text "PUT") url auth (json_type ∷ []) body)
    require (reply.status == 201 || reply.status == 204) (returned s.http what reply)

  -- `getByPath`, and the end of `GetExecution`.
  abbrev pub read_reply : {A : Type 0} → (Text → Result A) → Text → Text → Reply → Act W (Option A)
  read_reply decode what stored reply = if reply.status == 404 then pure none else do
    require (reply.status == 200) (returned s.http what reply)
    content ← read_all reply
    found ← wrap (text "decode stored " ++ stored) (given (decode content))
    pure (some found)

  unfoldable pub read_file :
      {A : Type 0} → (Text → Result A) → Text → Text → Text → Text → Act W (Option A)
  read_file decode what stored auth url = do
    reply ← s.http.send (authorized (text "GET") url auth [] [])
    read_reply decode what stored reply

  unfoldable pub get_by_path : Text → Text → Act W (Option WorkflowDefinition)
  unfolding read_file
  get_by_path =
      read_file s.definition_json.decode (text "GET workflow definition")
        (text "workflow definition")

  unfoldable pub put_execution : Text → ExecutionRecord → Act W (Unit {0})
  unfolding make_all write_file dav_base execution_path
  put_execution auth rec = do
    user_id ← current_user auth
    wrap (text "ensure execution storage folders") (
        make_all auth (dav_base user_id) (
          root_dir
          ∷ (root_dir ++ (text "/" ++ executions_dir))
          ∷ (root_dir ++ (text "/" ++ (executions_dir ++ (text "/" ++ rec.workflow_id))))
          ∷ []))
    body ← given (s.execution_json.encode rec)
    write_file auth (text "PUT execution record") (execution_path user_id rec.workflow_id rec.id)
        body

  unfoldable pub get_execution : Text → Text → Text → Act W (Option ExecutionRecord)
  unfolding read_file execution_path
  get_execution auth workflow_id exec_id = do
    user_id ← current_user auth
    read_file s.execution_json.decode (text "GET execution record") (text "execution record") auth
        (execution_path user_id workflow_id exec_id)

  unfoldable pub propfind_json_names : Text → Text → Act W (List Text)
  propfind_json_names auth dir_url = do
    reply ← s.http.send (
        authorized (text "PROPFIND") dir_url auth (xml_type ∷ (text "Depth", text "1") ∷ []) (
          text
            "<?xml version=\"1.0\" encoding=\"utf-8\" ?><d:propfind xmlns:d=\"DAV:\"><d:prop><d:resourcetype/></d:prop></d:propfind>"))
    require (reply.status == 207) (returned s.http (text "PROPFIND " ++ dir_url) reply)
    content ← read_all reply
    hrefs ← wrap (text "decode PROPFIND response") (given (s.decode_hrefs content))
    pure (json_names hrefs)

  abbrev pub read_executions : Text → Text → Result (List Text) → Act W (List ExecutionRecord)
  read_executions auth workflow_id (err e) = pure []
  read_executions auth workflow_id (ok names) = do
    records ← read_each (get_execution auth workflow_id) names
    pure (s.recent_first records)

  unfoldable pub list_executions : Text → Text → Act W (List ExecutionRecord)
  unfolding propfind_json_names read_each get_execution executions_dir_url
  list_executions auth workflow_id = do
    user_id ← current_user auth
    names ← attempt (propfind_json_names auth (executions_dir_url user_id workflow_id))
    read_executions auth workflow_id names

  unfoldable pub list : Text → Act W (List WorkflowDefinition)
  unfolding ensure_dirs propfind_json_names read_each get_by_path dav_base definition_path
  list auth = do
    user_id ← current_user auth
    wrap (text "ensure storage folders") (ensure_dirs auth user_id)
    names ←
        propfind_json_names auth
          (dav_base user_id ++ (text "/" ++ (root_dir ++ (text "/" ++ definitions_dir))))
    read_each (λ id. get_by_path auth (definition_path user_id id)) names

  unfoldable pub get : Text → Text → Act W (Option WorkflowDefinition)
  unfolding get_by_path definition_path
  get auth id = do user_id ← current_user auth; get_by_path auth (definition_path user_id id)

  unfoldable pub put : Text → WorkflowDefinition → Act W (Unit {0})
  unfolding ensure_dirs write_file definition_path
  put auth wf = do
    user_id ← current_user auth
    wrap (text "ensure storage folders") (ensure_dirs auth user_id)
    body ← given (s.definition_json.encode wf)
    write_file auth (text "PUT workflow definition") (definition_path user_id wf.id) body

  abbrev pub after_delete : Reply → Act W (Option (Unit {0}))
  after_delete reply = if reply.status == 404 then pure none else do
    require (reply.status == 204 || reply.status == 200)
        (returned s.http (text "DELETE workflow definition") reply)
    pure (some tt)

  unfoldable pub delete : Text → Text → Act W (Option (Unit {0}))
  unfolding definition_path
  delete auth id = do
    user_id ← current_user auth
    reply ← s.http.send (authorized (text "DELETE") (definition_path user_id id) auth [] [])
    after_delete reply
