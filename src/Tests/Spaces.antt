-- ===== src/Tests/Spaces.antt =====
-- A user's space on a concrete server.
use ocis_workflows.Base.{
  ℕ, Text, text, slash, teq, teq_iff, Bool, Bool-cases, true, false, ◌||◌, Option, none, some, List,
  [], ◌∷◌, ◌++◌, length, last_index, take, take-append, sym, Result, ok, err, ◌≡◌, refl, inl, inr,
  if◌then◌else◌, ap,
}
use ocis_workflows.Http.{Http, HttpRequest, Reply}
use ocis_workflows.Ocis.{Ocis}
use ocis_workflows.WebdavStore.Store.{
  list, Store, dav_base, put_execution, get_execution, execution_path,
}
use ocis_workflows.WebdavStore.Executions.{IsOpen, put_execution-get_execution}
use ocis_workflows.Dav.{View, IsServer, IsKnown, IsSegment}
use ocis_workflows.WebdavStore.Refines.Ops.{
  Definitions, run-Refines, Represents, meaning, Call, run, perform,
}
use ocis_workflows.WebdavStore.Refines.Listing.{Lists, definitions_of, ids_of, list-definitions_of}
use ocis_workflows.Tests.Data.{workflow, alice, empty_record}

pub record Space : Type 0 where
  pub file : Text → Option Text
  pub folder : Text → Bool

abbrev pub view : View Space
view = record { file = λ w. w.file; folder = λ w. w.folder }

abbrev reply : ℕ → Result Reply
reply status = ok (record { status = status; body = ok [] })

-- The part of the URL before its last slash.
abbrev parent : Text → Text
parent url = elim (last_index slash url) [ none ↦ [] | some i ↦ take i url ]

abbrev put_file : Text → Text → Bool → Space → Result Reply × Space
put_file url body false w = (reply 409, w)
put_file url body true w =
    (reply 201, record { file = λ u. if teq url u then some body else w.file u; folder = w.folder })

abbrev make_folder : Text → Bool → Bool → Space → Result Reply × Space
make_folder url there false w = (reply 409, w)
make_folder url true true w = (reply 405, w)
make_folder url false true w =
    (reply 201, record { file = w.file; folder = λ u. teq url u || w.folder u })

abbrev get_file : Option Text → Space → Result Reply × Space
get_file (some content) w = (ok (record { status = 200; body = ok content }), w)
get_file none w = (reply 404, w)

abbrev delete_file : Text → Option Text → Space → Result Reply × Space
delete_file url (some content) w =
    (reply 204, record { file = λ u. if teq url u then none else w.file u; folder = w.folder })
delete_file url none w = (reply 404, w)

abbrev send : HttpRequest → Space → Result Reply × Space
send req w =
    if teq req.method (text "GET")
    then get_file (w.file req.url) w
    else if teq req.method (text "PUT")
    then put_file req.url req.body (w.folder (parent req.url)) w
    else if teq req.method (text "MKCOL")
    then make_folder req.url (w.folder req.url) (w.folder (parent req.url)) w
    else if teq req.method (text "DELETE")
    then delete_file req.url (w.file req.url) w
    else if teq req.method (text "PROPFIND")
    then (ok (record { status = 207; body = ok (text "entries") }), w)
    else (reply 405, w)

abbrev pub http : Http Space
http = record { send = send; decimal = λ n. []; quote = λ t. t }

last_index-segment :
    (dir name : Text) → IsSegment name → last_index slash (dir ++ slash ∷ name) ≡ some (length dir)
unfolding last_index
last_index-segment [] name segment = rw segment refl
last_index-segment (x ∷ xs) name segment = rw (last_index-segment xs name segment) refl

parent-segment : (dir name : Text) → IsSegment name → parent (dir ++ slash ∷ name) ≡ dir
parent-segment dir name segment =
    rw (parent, last_index-segment dir name segment) (take-append dir (slash ∷ name))

already : (f : Text → Bool) (t : Text) → f t ≡ true → (u : Text) → f u ≡ (teq t u || f u)
already f t e u = elim (Bool-cases (teq t u)) [
  | inl d ↦ rw (d, ap f (sym ((teq_iff t u).0 d)), e) refl
  | inr d ↦ rw d refl
]

pub space-IsServer : (auth : Text) → IsServer http view auth
unfolding teq
space-IsServer auth = record {
  get_found = λ w url content there. rw there (refl, ((λ u. refl), λ u. refl));
  get_missing = λ w url missing free. rw missing ((_, refl, refl), ((λ u. refl), λ u. refl));
  put = λ w dir name body segment there free.
      rw (parent-segment dir name segment, there) ((_, refl, inl refl), (λ u. refl), λ u. refl);
  mkcol = λ w dir name segment there free. elim (Bool-cases (w.folder (dir ++ slash ∷ name))) [
    | inl e ↦
        rw (parent-segment dir name segment, there, e)
          ((_, refl, inr refl), (λ u. refl), already w.folder (dir ++ slash ∷ name) e)
    | inr e ↦
        rw (parent-segment dir name segment, there, e) ((_, refl, inl refl), (λ u. refl), λ u. refl)
  ];
  delete_found = λ w url content there. rw there ((_, refl, refl), (λ u. refl), λ u. refl);
  delete_missing = λ w url missing free. rw missing ((_, refl, refl), ((λ u. refl), λ u. refl));
}

abbrev pub ocis : Ocis Space
ocis = record {
  http = record {
    send = λ req w. (ok (record { status = 200; body = ok (text "me") }), w);
    decimal = λ n. [];
    quote = λ t. t;
  };
  base_url = text "https://cloud";
  decode_me = λ t. ok (record { id = alice; username = alice });
  decode_token = λ t. err [];
  decode_item = λ t. err [];
  decode_drives = λ t. err [];
  decode_activities = λ t. err [];
  decode_file_ids = λ t. err [];
  encode_tag = λ item tag. err [];
  path_escape = λ t. t;
  escaped_path = λ t. t;
  query = λ q. [];
  duration = λ n. [];
  rfc3339 = λ n. [];
}

-- The codec knows one definition.
abbrev pub store : Store Space
store = record {
  ocis_url = text "https://cloud";
  ocis = ocis;
  http = http;
  definition_json = record {
    encode = λ wf. ok (text "one");
    decode = λ t. if teq t (text "one") then ok workflow else err [];
  };
  execution_json = record { encode = λ rec. err []; decode = λ t. err [] };
  decode_hrefs = λ t. ok (text "/files/w.json" ∷ text "/files/" ∷ []);
  recent_first = λ recs. recs;
}

abbrev pub home : Space
home = record {
  file = λ u. none;
  folder = λ u. teq u (text "https://cloud/remote.php/dav/files/" ++ alice);
}

pub alice-IsKnown : IsKnown ocis view (text "auth") alice
alice-IsKnown = record {
  named = refl;
  answer = λ w. (
    text "me",
    record { id = alice; username = alice },
    refl,
    refl,
    refl,
    ((λ u. refl), λ u. refl),
  );
}

abbrev calls : List Call
calls =
    Call.getting (text "w")
    ∷ Call.putting workflow
    ∷ Call.getting (text "w")
    ∷ Call.deleting (text "w")
    ∷ Call.deleting (text "w")
    ∷ []

pub home-Represents : Represents store view (text "auth") alice home (λ id. none)
unfolding dav_base teq
home-Represents = (
  record { home = refl; no_folder = λ id. refl; outer_free = refl; inner_free = refl },
  λ id. inl (refl, refl),
)

pub plain_name : last_index slash (text "w.json") ≡ none
unfolding last_index
plain_name = refl

run-Refines_example :
    ((run (perform store (text "auth")) calls home).0 ≡ (run meaning calls (λ id. none)).0)
    × Represents store view
        (text "auth")
        alice
        (run (perform store (text "auth")) calls home).1
        (run meaning calls (λ id. none)).1
unfolding teq
run-Refines_example =
    run-Refines store view (text "auth") alice (space-IsServer (text "auth")) alice-IsKnown calls
      home (λ id. none) (tt, ((plain_name, (text "one", refl, refl)), (tt, (tt, (tt, tt)))))
      home-Represents

space-Lists :
    (url : Text) → Lists store view (text "auth") url (text "/files/w.json" ∷ text "/files/" ∷ [])
unfolding teq
space-Lists url w there = (text "entries", refl, refl, ((λ u. refl), λ u. refl))

-- The space after the workflow is put, and the map that it represents.
abbrev kept : Space
kept = (run (perform store (text "auth")) (Call.putting workflow ∷ []) home).1

abbrev one : Definitions
one = (run meaning (Call.putting workflow ∷ []) (λ id. none)).1

kept-Represents : Represents store view (text "auth") alice kept one
unfolding teq
kept-Represents =
    (run-Refines store view (text "auth") alice (space-IsServer (text "auth")) alice-IsKnown
      (Call.putting workflow ∷ []) home (λ id. none) ((plain_name, (text "one", refl, refl)), tt)
      home-Represents).1

list-definitions_of_example :
    (w' : Space) × (list store (text "auth") kept
      ≡ (ok (definitions_of one (ids_of (text "/files/w.json" ∷ text "/files/" ∷ []))), w'))
    × Represents store view (text "auth") alice w' one
list-definitions_of_example =
    list-definitions_of store view (text "auth") alice one (space-IsServer (text "auth"))
      (text "/files/w.json" ∷ text "/files/" ∷ []) kept alice-IsKnown (space-Lists _)
      kept-Represents

-- The codec knows one record.
abbrev recording : Store Space
recording = record store {
  execution_json = record { encode = λ rec. ok (text "rec"); decode = λ t. ok empty_record };
}

home-IsOpen : IsOpen recording alice view (text "w") home
unfolding dav_base teq
home-IsOpen = record {
  home = refl;
  root_free = refl;
  outer_free = refl;
  inner_free = refl;
  no_folder = λ id. refl;
}

put_execution-get_execution_example :
    let (r, w') = put_execution recording (text "auth") empty_record home in
    (r ≡ ok tt)
    × ((u : Text)
        → w'.file u ≡ (
            if teq (execution_path recording alice (text "w") (text "x")) u
            then some (text "rec")
            else none))
    × ((get_execution recording (text "auth") (text "w") (text "x") w').0 ≡ ok (some empty_record))
unfolding last_index
put_execution-get_execution_example =
    put_execution-get_execution recording view (text "auth") alice (space-IsServer (text "auth"))
      alice-IsKnown empty_record (text "rec") home refl refl refl refl home-IsOpen
