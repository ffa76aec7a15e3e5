-- ===== src/WebdavStore/Refines/Ops.antt =====
-- Sequences of `Put`, `Get` and `Delete`, against a map from ids to definitions.
use ocis_workflows.Base.{
  subst, Text, teq, teq_iff, true, false, Bool, Bool-cases, Option, none, some, List, [], ◌∷◌, ◌++◌,
  Result, ok, err, ◌≡◌, ◌⊎◌, refl, inl, inr, sym, if◌then◌else◌, All,
}
use ocis_workflows.Model.{WorkflowDefinition}
use ocis_workflows.WebdavStore.Store.{Store, json_suffix, get, put, delete}
use ocis_workflows.Dav.{View, Same, IsSegment, IsServer, IsKnown}
use ocis_workflows.Dav.Folders.{IsReady, IsReady-Same, file_url}
use ocis_workflows.WebdavStore.Refines.Files.{
  definitions, get-found, get-missing, delete-found, delete-missing, put-stored,
}

pub data Call : Type 0 where
  putting : WorkflowDefinition → Call
  getting : Text → Call
  deleting : Text → Call

pub data Answer : Type 0 where
  done : Answer
  gotten : WorkflowDefinition → Answer
  not_found : Answer
  failed : Text → Answer

abbrev answer_put : Result (Unit {0}) → Answer
answer_put (ok tt) = done
answer_put (err e) = failed e

abbrev answer_get : Result (Option WorkflowDefinition) → Answer
answer_get (ok (some wf)) = gotten wf
answer_get (ok none) = not_found
answer_get (err e) = failed e

abbrev answer_delete : Result (Option (Unit {0})) → Answer
answer_delete (ok (some x)) = done
answer_delete (ok none) = not_found
answer_delete (err e) = failed e

-- A call of the store.
abbrev pub perform : {W : Type 0} → Store W → Text → Call → W → Answer × W
perform s auth (putting wf) w = let (r, w') = put s auth wf w in (answer_put r, w')
perform s auth (getting id) w = let (r, w') = get s auth id w in (answer_get r, w')
perform s auth (deleting id) w = let (r, w') = delete s auth id w in (answer_delete r, w')

-- The map, and what a call does to it.
abbrev pub Definitions : Type 0
Definitions = Text → Option WorkflowDefinition

abbrev pub update : Text → Option WorkflowDefinition → Definitions → Definitions
update id o m other = if teq id other then o else m other

abbrev pub found : Option WorkflowDefinition → Answer
found (some wf) = gotten wf
found none = not_found

abbrev pub removed : Option WorkflowDefinition → Answer
removed (some wf) = done
removed none = not_found

abbrev pub meaning : Call → Definitions → Answer × Definitions
meaning (putting wf) m = (done, update wf.id (some wf) m)
meaning (getting id) m = (found (m id), m)
meaning (deleting id) m = (removed (m id), update id none m)

-- The answers to calls that follow one another, and the last state.
abbrev pub run : {S : Type 0} → (Call → S → Answer × S) → List Call → S → List Answer × S
run f [] s = ([], s)
run f (c ∷ cs) s = let (a, s') = f c s in let (answers, last) = run f cs s' in (a ∷ answers, last)

-- The definition of a call to Put has an id that fits in a file's name and reads back as written.
abbrev pub Fits : {W : Type 0} → Store W → Call → Type 0
Fits s (putting wf) =
    IsSegment (wf.id ++ json_suffix)
    × ((content : Text) × (s.definition_json.encode wf ≡ ok content)
        × (s.definition_json.decode content ≡ ok wf))
Fits s (getting id) = Unit
Fits s (deleting id) = Unit

module _ {W : Type 0} (s : Store W) (v : View W) (auth user_id : Text) where
  -- A file that is one definition, or none where there is none.
  abbrev pub Holds : Option Text → Option WorkflowDefinition → Type 0
  Holds o d =
      ((o ≡ none) × (d ≡ none))
      ⊎ ((content : Text) × (wf : WorkflowDefinition) × (o ≡ some content)
          × (d ≡ some wf)
          × (s.definition_json.decode content ≡ ok wf))

  -- The user's folders are in order, and the files are those of the map.
  abbrev pub Represents : W → Definitions → Type 0
  Represents w m =
      IsReady (definitions s user_id) v w
      × ((id : Text) → Holds (v.file w (file_url (definitions s user_id) id)) (m id))

  Holds-if :
      (b : Bool) {o o' : Option Text} {d d' : Option WorkflowDefinition}
      → Holds o d
      → Holds o' d'
      → Holds (if b then o else o') (if b then d else d')
  Holds-if true h h' = h
  Holds-if false h h' = h'

  pub Represents-files :
      {w w' : W} (m : Definitions)
      → ((u : Text) → v.file w' u ≡ v.file w u)
      → IsReady (definitions s user_id) v w'
      → Represents w m
      → Represents w' m
  Represents-files m files ready' (ready, holds) = (
    ready',
    λ id.
        subst (λ o. Holds o (m id)) (sym (files (file_url (definitions s user_id) id))) (holds id),
  )

  pub Represents-Same :
      {w w' : W} (m : Definitions) → Same v w w' → Represents w m → Represents w' m
  Represents-Same m same (ready, holds) =
      Represents-files m same.0 (IsReady-Same (definitions s user_id) v same ready) (ready, holds)

  Represents-update :
      {w w' : W} (m : Definitions) (id : Text) (o : Option Text) (d : Option WorkflowDefinition)
      → ((other : Text)
          → v.file w' (file_url (definitions s user_id) other)
            ≡ (if teq id other then o else v.file w (file_url (definitions s user_id) other)))
      → IsReady (definitions s user_id) v w'
      → Holds o d
      → Represents w m
      → Represents w' (update id d m)
  Represents-update m id o d files ready' h (ready, holds) = (
    ready',
    λ other.
        subst (λ o. Holds o (update id d m other)) (sym (files other))
          (Holds-if (teq id other) h (holds other)),
  )

  -- What is not there is not changed by its removal.
  missing-update :
      (w : W) (id : Text)
      → v.file w (file_url (definitions s user_id) id) ≡ none
      → (other : Text)
      → v.file w (file_url (definitions s user_id) other)
        ≡ (if teq id other then none else v.file w (file_url (definitions s user_id) other))
  missing-update w id missing other = elim (Bool-cases (teq id other)) [
    | inr e ↦ rw e refl
    | inl e ↦ rw (e, sym ((teq_iff id other).0 e), missing) refl
  ]

  module _ (server : IsServer s.http v auth) (known : IsKnown s.ocis v auth user_id) where
    -- One call answers as the map does.
    perform-Refines :
        (c : Call) (w : W) (m : Definitions)
        → Fits s c
        → Represents w m
        → ((perform s auth c w).0 ≡ (meaning c m).0)
          × Represents (perform s auth c w).1 (meaning c m).1
    perform-Refines (putting wf) w m (segment, reads) (ready, holds) =
        let (content, encoded, decoded) = reads in
        let (w', e, files, ready') =
          put-stored s v auth user_id server known w wf content segment encoded ready in
        rw e (
          refl,
          Represents-update m wf.id (some content) (some wf) files ready'
              (inr (content, wf, refl, refl, decoded)) (ready, holds),
        )
    perform-Refines (getting id) w m fits (ready, holds) = elim (holds id) [
      | inl (missing, absent) ↦
          let (w', e, same) = get-missing s v auth user_id server known w id ready missing in
          rw (e, absent) (refl, Represents-Same m same (ready, holds))
      | inr (content, wf, there, present, decoded) ↦
          let (w', e, same) =
            get-found s v auth user_id server known w id content wf there decoded in
          rw (e, present) (refl, Represents-Same m same (ready, holds))
    ]
    perform-Refines (deleting id) w m fits (ready, holds) = elim (holds id) [
      | inl (missing, absent) ↦
          let (w', e, same) = delete-missing s v auth user_id server known w id ready missing in
          rw (e, absent)
            (
              refl,
              Represents-Same (update id none m) same (
                  Represents-update m id none none (missing-update w id missing) ready
                    (inl (refl, refl)) (ready, holds)),
            )
      | inr (content, wf, there, present, decoded) ↦
          let (w', e, files, ready') =
            delete-found s v auth user_id server known w id content there ready in
          rw (e, present)
            (refl, Represents-update m id none none files ready' (inl (refl, refl)) (ready, holds))
    ]

    -- For a WebDAV server and a Graph endpoint that keep their documented behaviour, from a
    -- user's home where no file or folder stands in the way and whose definitions are those of a map
    -- from ids: any calls of Put, Get and Delete, of which those of Put have
    -- ids that fit in a file's name and definitions that read back as they were encoded, answer one
    -- by one as the map does, with no error, and leave the home with the definitions of the map that
    -- results; Put makes the folders where they are missing.
    pub run-Refines :
        (cs : List Call) (w : W) (m : Definitions)
        → All (Fits s) cs
        → Represents w m
        → ((run (perform s auth) cs w).0 ≡ (run meaning cs m).0)
          × Represents (run (perform s auth) cs w).1 (run meaning cs m).1
    run-Refines [] w m fits represents = (refl, represents)
    run-Refines (c ∷ cs) w m (fit, fits) represents =
        let (answer, represents') = perform-Refines c w m fit represents in
        let (answers, represents'') =
          run-Refines cs (perform s auth c w).1 (meaning c m).1 fits represents' in
        (rw (answer, answers) refl, represents'')
