-- ===== src/Sanitize.antt =====
-- SanitizeMiddleware (src/common/middleware/sanitize.middleware.ts). The sanitizer of texts is the
-- library sanitize-html, a parameter with the type of its options.
pub mod Traversal
use nocodb_middleware.Prelude.{
  Bool, true, false, not, ◌||◌, Option, none, some, List, [], ◌∷◌, Text, codes, same, any,
  starts_with, if◌then◌else◌,
}
use nocodb_middleware.Js.{Num}

-- What a parser leaves in a request. Members of an object are its own ones.
mutual
  pub data Json : Type 0 where
    undefined null : Json
    bool : Bool → Json
    num : Num → Json
    text : Text → Json
    array : Items → Json
    object : Members → Json

  pub data Items : Type 0 where
    nil : Items
    cons : Json → Items → Items

  pub data Members : Type 0 where
    end : Members
    member : Text → Json → Members → Members

-- `result[key] = value` on a fresh object: `__proto__` becomes no own member.
unfoldable pub set_member : Text → Json → Members → Members
set_member key value rest = if same key (codes "__proto__") then rest else member key value rest

-- Options of one part of a request: `false`, or what the library is given.
pub data Setting (Config : Type 0) : Type 0 where
  off : Setting Config
  with : Config → Setting Config

-- `none` is a part for which nothing is configured.
pub record SanitizeOptions (Config : Type 0) : Type 0 where
  pub body : Option (Setting Config)
  pub query : Option (Setting Config)
  pub params : Option (Setting Config)
  pub headers : Option (Setting Config)

pub record HttpRequest : Type 0 where
  pub path : Text
  pub body : Json
  pub query : Json
  pub params : Json
  pub headers : Members

unfoldable pub should_skip_sanitization : Text → Bool
should_skip_sanitization path =
    any (λ p. starts_with p path)
      (codes "/health" ∷ codes "/api/health" ∷ codes "/metrics" ∷ codes "/api/metrics" ∷ [])

-- `value && typeof value === 'object'`
unfoldable pub is_object : Json → Bool
is_object (array xs) = true
is_object (object ms) = true
is_object _ = false

module _ (Config : Type 0) (sanitize_html : Config → Text → Text) (strip_all : Config) where
  unfoldable mutual
    unfolding set_member

    pub sanitize_with : Config → Json → Json
    sanitize_with c undefined = undefined
    sanitize_with c null = null
    sanitize_with c (bool b) = bool b
    sanitize_with c (num n) = num n
    sanitize_with c (text t) = text (sanitize_html c t)
    sanitize_with c (array xs) = array (sanitize_items c xs)
    sanitize_with c (object ms) = object (sanitize_members c ms)

    pub sanitize_items : Config → Items → Items
    sanitize_items c nil = nil
    sanitize_items c (cons x xs) = cons (sanitize_with c x) (sanitize_items c xs)

    pub sanitize_members : Config → Members → Members
    sanitize_members c end = end
    sanitize_members c (member key v ms) =
        set_member key (sanitize_with c v) (sanitize_members c ms)

  unfoldable pub sanitize_value : Setting Config → Json → Json
  unfolding sanitize_with
  sanitize_value off v = v
  sanitize_value (with c) v = sanitize_with c v

  or_default : Option (Setting Config) → Setting Config
  or_default none = with strip_all
  or_default (some s) = s

  -- Body, query and parameters, each if it is an object.
  unfoldable pub sanitize_part : Option (Setting Config) → Json → Json
  unfolding sanitize_value or_default is_object
  sanitize_part setting v = if is_object v then sanitize_value (or_default setting) v else v

  -- Of a header only texts and arrays are looked at.
  header_value : Config → Json → Json
  unfolding sanitize_with
  header_value c (text t) = text (sanitize_html c t)
  header_value c (array xs) = array (sanitize_items c xs)
  header_value c v = v

  sanitize_headers : Config → Members → Members
  unfolding header_value set_member
  sanitize_headers c end = end
  sanitize_headers c (member key v ms) = set_member key (header_value c v) (sanitize_headers c ms)

  -- Headers are left alone unless they are configured.
  unfoldable pub sanitize_header_part : Option (Setting Config) → Members → Members
  unfolding sanitize_headers
  sanitize_header_part (some (with c)) ms = sanitize_headers c ms
  sanitize_header_part _ ms = ms

  -- The request that the next handler sees.
  unfoldable pub use_sanitizer : SanitizeOptions Config → HttpRequest → HttpRequest
  unfolding should_skip_sanitization sanitize_part sanitize_header_part
  use_sanitizer options req = if should_skip_sanitization req.path then req else record {
    path = req.path;
    body = sanitize_part options.body req.body;
    query = sanitize_part options.query req.query;
    params = sanitize_part options.params req.params;
    headers = sanitize_header_part options.headers req.headers;
  }
