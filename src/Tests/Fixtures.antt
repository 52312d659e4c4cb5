-- ===== src/Tests/Fixtures.antt =====
-- A server with a few tables, for the runs.
use nocodb_middleware.Prelude.{
  ℕ, ◌+◌, ◌&&◌, ◌||◌, none, some, List, [], ◌∷◌, ◌++◌, Text, codes, same, leb, if◌then◌else◌,
}
use nocodb_middleware.Js.{Num, nan, int, pos, num}
use nocodb_middleware.Types.{NocoTableMeta, V3Record}
use nocodb_middleware.Outside.{Outside, App, Payload, received, Method, get}
use nocodb_middleware.Nocodb.Requests.{tables_path}

abbrev pub table : Text → NocoTableMeta
table name = record { id = name; title = codes "p_" ++ name; table_name = none; fields = none }

abbrev pub one : Num
one = int (pos 1)

abbrev pub stored_record : V3Record
stored_record = record { id = num one; fields = none }

-- The bodies that the server answers a `GET` with, by path.
abbrev pub bodies : List (Text × Payload)
bodies =
    (
      tables_path (codes "b"),
      Payload.tables (
          some (
            table (codes "users")
            ∷ table (codes "roles")
            ∷ table (codes "user_roles")
            ∷ table (codes "table_permissions")
            ∷ table (codes "books")
            ∷ [])),
    )
    ∷ []

abbrev pub body_for : Text → List (Text × Payload) → Payload
body_for path [] = Payload.records (some [])
body_for path ((p, b) ∷ rest) = if same path p then b else body_for path rest

abbrev pub reply : Method → Text → Payload
reply get path = body_for path bodies
reply _ path = Payload.records (some (stored_record ∷ []))

-- Its world is the time.
abbrev pub server : Outside
server = record {
  World = ℕ;
  send = λ r w. (received (reply r.method r.path), w);
  now = λ w. (w, w);
  sleep = λ d w. w + d;
  parse_number = λ t. nan;
  iso_date = λ n. codes "now";
  base_id = codes "b";
  table_prefix = codes "p_";
  max_pages = 2;
  is_letter_or_number = λ c. leb b'a' c && leb c b'z' || leb b'0' c && leb c b'9';
}

abbrev pub start : App ℕ
start = record { world = 1000; next_allowed_time = 0; permissions_cache = []; tables_cache = [] }
