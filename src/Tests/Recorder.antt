-- ===== src/Tests/Recorder.antt =====
-- A server that answers the account services and keeps a record of the requests that it was not
-- told to pass over.
use nocodb_middleware.Prelude.{
  ◌≡◌, Bool, true, none, some, List, [], ◌∷◌, Text, codes, same, if◌then◌else◌,
}
use nocodb_middleware.Js.{num, text}
use nocodb_middleware.Types.{V3Record, NocoTableMeta}
use nocodb_middleware.Outside.{Outside, App, Payload, received, Method, get}
use nocodb_middleware.Nocodb.Requests.{tables_path, table_path, record_path}
use nocodb_middleware.Nocodb.Reading.{KeptBy}
use nocodb_middleware.Auth.Users.{Crypto}
use nocodb_middleware.Tests.Fixtures.{one, stored_record, body_for, bodies}

abbrev linked_table : NocoTableMeta
linked_table = record {
  id = codes "user_roles";
  title = codes "p_user_roles";
  table_name = none;
  fields = some (record { title = codes "user"; kind = codes "Links" } ∷ []);
}

abbrev account : V3Record
account = record { id = num one; fields = some ((codes "username", text (codes "ann")) ∷ []) }

abbrev answers : List (Text × Payload)
answers =
    (table_path (codes "b") (codes "user_roles"), Payload.table_meta linked_table)
    ∷ (record_path (codes "b") (codes "users") one, Payload.one_record account)
    ∷ bodies

abbrev answer_to : Method → Text → Payload
answer_to get path =
    if same path (tables_path (codes "b"))
    then body_for path bodies
    else body_or_records path answers
  where
    body_or_records : Text → List (Text × Payload) → Payload
    body_or_records path [] = Payload.records (some (account ∷ []))
    body_or_records path ((p, b) ∷ rest) = if same path p then b else body_or_records path rest
answer_to _ path = Payload.records (some (stored_record ∷ []))

abbrev noted : (Method → Bool) → Method → List Method → List Method
noted allowed m w = if allowed m then w else m ∷ w

abbrev pub recorder : (Method → Bool) → Outside
recorder allowed = record {
  World = List Method;
  send = λ r w. (received (answer_to r.method r.path), noted allowed r.method w);
  now = λ w. (0, w);
  sleep = λ d w. w;
  parse_number = λ t. one;
  iso_date = λ n. codes "now";
  base_id = codes "b";
  table_prefix = codes "p_";
  max_pages = 2;
  is_letter_or_number = λ c. true;
}

abbrev pub Unnoted : List Method → Type 0
Unnoted w = w ≡ []

pub recorder-KeptBy : (allowed : Method → Bool) → KeptBy (recorder allowed) allowed Unnoted
recorder-KeptBy allowed = record { send = λ r w e h. rw e h; now = λ w h. h; sleep = λ d w h. h }

abbrev pub idle : App (List Method)
idle = record { world = []; next_allowed_time = 0; permissions_cache = []; tables_cache = [] }

abbrev pub crypto : Crypto (List Method)
crypto = record { random_salt = λ w. (codes "00", w); scrypt = λ password salt. password }
