-- ===== src/Executor/Nodes/Effects.antt =====
-- What an action does to the path of the run's file, and to its variables.
use ocis_workflows.Base.{
  Text, text, teq, teq_iff, teq_refl, is_empty, Bool, true, false, ◌||◌, Option, none, some, ◌++◌,
  [], ◌∷◌, arith, Result, ok, err, ◌≡◌, ◌∙◌, refl, if◌then◌else◌, inl, inr, Bool-cases,
}
use ocis_workflows.Model.{Fields}
use ocis_workflows.Executor.Template.{Vars, get_var, set_var}
use ocis_workflows.Base.Actions.{pure, fail, ◌>>=◌, ◌>>◌, continue}
use ocis_workflows.Executor.Clients.{
  Clients, Frame, Exec, call, perform, remember, go_to, current_path,
}
use ocis_workflows.Executor.Nodes.{
  param, tag_action, comment_action, relocate, rename_action, notify_action, dispatch_action,
}

pub get_var-set_var :
    (key other value : Text) (vars : Vars)
    → get_var other (set_var key value vars) ≡ (if teq key other then value else get_var other vars)
unfolding get_var set_var
get_var-set_var key other value [] = refl
get_var-set_var key other value ((k, v) ∷ rest) =
    ground (
      arith,
      get_var-set_var key other value rest,
      teq_iff k key,
      teq_iff k other,
      teq_iff key other,
    )

pub get_var-set_self :
    (key value : Text) (vars : Vars) → get_var key (set_var key value vars) ≡ value
get_var-set_self key value vars = rw (get_var-set_var key key value vars, teq_refl key)

-- The actions after which the run goes on with another path.
abbrev pub moves_file : Text → Bool
moves_file kind = teq kind (text "move") || teq kind (text "rename")

-- After an action that returns `output` the file is there if the action moves it, and the variable
-- `<kind>.output` holds it; after an error the file is where it was.
abbrev pub Tracks : {W : Type 0} → Text → Text → Result Text × Frame W → Type 0
Tracks kind path (ok output, f') =
    (f'.path ≡ (if moves_file kind then output else path))
    × (get_var (kind ++ text ".output") f'.vars ≡ output)
Tracks kind path (err e, f') = f'.path ≡ path

module _ {W : Type 0} (kind path : Text) where
  Tracks-continue :
      {A : Type 0} (r : Result A) (k : A → Exec W Text) (f : Frame W)
      → f.path ≡ path
      → ((a : A) (f' : Frame W) → f'.path ≡ path → Tracks kind path (k a f'))
      → Tracks kind path (continue r k f)
  Tracks-continue (ok a) k f e h = h a f e
  Tracks-continue (err x) k f e h = e

  Tracks-bind :
      {A : Type 0} (m : Exec W A) (k : A → Exec W Text) (f : Frame W)
      → (m f).1.path ≡ path
      → ((a : A) (f' : Frame W) → f'.path ≡ path → Tracks kind path (k a f'))
      → Tracks kind path ((m >>= k) f)
  Tracks-bind m k f e h = Tracks-continue (m f).0 k (m f).1 e h

  Tracks-if :
      (b : Bool) (m n : Exec W Text) (f : Frame W)
      → Tracks kind path (m f)
      → Tracks kind path (n f)
      → Tracks kind path ((if b then m else n) f)
  Tracks-if true m n f hm hn = hm
  Tracks-if false m n f hm hn = hn

  -- The last steps of an action: keep the result in its variable, and go to `there`.
  Tracks-keep :
      (output there : Text) (f : Frame W)
      → there ≡ (if moves_file kind then output else path)
      → Tracks kind path ((do remember (kind ++ text ".output") output; go_to there; pure output) f)
  Tracks-keep output there f e = (e, get_var-set_self (kind ++ text ".output") output f.vars)

module _ {W : Type 0} (c : Clients W) where
  path-param :
      (params : Option Fields) (key : Text) (f : Frame W) → (param c params key f).1.path ≡ f.path
  unfolding param
  path-param none key f = refl
  path-param (some fs) key f = refl

  -- The shape that the actions on a file share: a parameter, a guard, and a body.
  Tracks-guarded :
      (kind key message : Text) (params : Option Fields) (body : Text → Text → Exec W Text)
      (f : Frame W)
      → ((value path : Text) (f' : Frame W)
          → f'.path ≡ f.path
          → path ≡ f.path
          → Tracks kind f.path (body value path f'))
      → Tracks kind f.path (
          (do
            value ← param c params key
            path ← current_path
            if is_empty value || is_empty path then fail message else body value path)
            f)
  Tracks-guarded kind key message params body f h =
      Tracks-bind kind f.path (param c params key) _ f (path-param params key f) λ value f' e.
        Tracks-if kind f.path (is_empty value || is_empty f'.path) _ _ f' e (h value f'.path f' e e)

  module _ (auth : Text) where
    tag_action-Tracks :
        (params : Option Fields) (f : Frame W)
        → Tracks (text "tag") f.path (tag_action c auth params f)
    unfolding tag_action teq
    tag_action-Tracks params f = Tracks-guarded (text "tag") _ _ params _ f λ tag path f1 e1 _.
        Tracks-bind (text "tag") f.path (call (c.resolve_item_id auth path)) _ f1 e1 λ item f2 e2.
          Tracks-bind (text "tag") f.path (perform (c.assign_tag auth item tag)) _ f2 e2
            λ _ f3 e3. Tracks-keep (text "tag") f.path tag f3.path f3 e3

    comment_action-Tracks :
        (params : Option Fields) (f : Frame W)
        → Tracks (text "comment") f.path (comment_action c auth params f)
    unfolding comment_action teq
    comment_action-Tracks params f =
        Tracks-guarded (text "comment") _ _ params _ f λ body path f1 e1 _.
          Tracks-bind (text "comment") f.path (perform (c.comment auth path body)) _ f1 e1
            λ _ f2 e2. Tracks-keep (text "comment") f.path body f2.path f2 e2

    move-Tracks :
        (params : Option Fields) (f : Frame W)
        → Tracks (text "move") f.path (relocate c auth true (text "move") params f)
    unfolding relocate teq
    move-Tracks params f = Tracks-guarded (text "move") _ _ params _ f λ dest path f1 e1 _.
        Tracks-bind (text "move") f.path (perform (c.move auth path _)) _ f1 e1
          λ _ f2 e2. Tracks-keep (text "move") f.path _ _ f2 refl

    copy-Tracks :
        (params : Option Fields) (f : Frame W)
        → Tracks (text "copy") f.path (relocate c auth false (text "copy") params f)
    unfolding relocate teq
    copy-Tracks params f = Tracks-guarded (text "copy") _ _ params _ f λ dest path f1 e1 same.
        Tracks-bind (text "copy") f.path (perform (c.copy auth path _)) _ f1 e1
          λ _ f2 e2. Tracks-keep (text "copy") f.path _ path f2 same

    rename_action-Tracks :
        (params : Option Fields) (f : Frame W)
        → Tracks (text "rename") f.path (rename_action c auth params f)
    unfolding rename_action teq
    rename_action-Tracks params f =
        Tracks-guarded (text "rename") _ _ params _ f λ name path f1 e1 _.
          Tracks-bind (text "rename") f.path (perform (c.move auth path _)) _ f1 e1
            λ _ f2 e2. Tracks-keep (text "rename") f.path _ _ f2 refl

    notify_action-Tracks :
        (params : Option Fields) (f : Frame W)
        → Tracks (text "notify") f.path (notify_action c auth params f)
    unfolding notify_action teq
    notify_action-Tracks params f =
        Tracks-bind (text "notify") f.path (param c params (text "target")) _ f
          (path-param params _ f)
          λ target f1 e1. Tracks-if (text "notify") f.path (is_empty target) _ _ f1 e1 (
            Tracks-bind (text "notify") f.path (param c params (text "message")) _ f1
              (path-param params _ f1 ∙ e1)
              λ message f2 e2.
                Tracks-bind (text "notify") f.path
                  (perform (c.notify target (text "Workflows") message)) _ f2 e2
                  λ _ f3 e3. Tracks-keep (text "notify") f.path (text "sent") f3.path f3 e3)

    -- For every kind of action, known or not: after an error the run's file is where it was; after a
    -- success it is at the action's output if the kind is "move" or "rename", and where it was
    -- otherwise, and the variable `<kind>.output` holds the output.
    pub dispatch_action-Tracks :
        (kind : Text) (params : Option Fields) (f : Frame W)
        → Tracks kind f.path (dispatch_action c auth kind params f)
    unfolding dispatch_action teq
    dispatch_action-Tracks kind params f = elim (Bool-cases (teq kind (text "tag"))) [
      | inl e ↦ rw ((teq_iff kind _).0 e) (tag_action-Tracks params f)
      | inr n1 ↦ elim (Bool-cases (teq kind (text "comment"))) [
        | inl e ↦ rw ((teq_iff kind _).0 e) (comment_action-Tracks params f)
        | inr n2 ↦ elim (Bool-cases (teq kind (text "move"))) [
          | inl e ↦ rw ((teq_iff kind _).0 e) (move-Tracks params f)
          | inr n3 ↦ elim (Bool-cases (teq kind (text "copy"))) [
            | inl e ↦ rw ((teq_iff kind _).0 e) (copy-Tracks params f)
            | inr n4 ↦ elim (Bool-cases (teq kind (text "rename"))) [
              | inl e ↦ rw ((teq_iff kind _).0 e) (rename_action-Tracks params f)
              | inr n5 ↦ elim (Bool-cases (teq kind (text "notify"))) [
                | inl e ↦ rw ((teq_iff kind _).0 e) (notify_action-Tracks params f)
                | inr n6 ↦ rw (n1, n2, n3, n4, n5, n6) refl
              ]
            ]
          ]
        ]
      ]
    ]
