-- ===== src/Network/Http.antt =====
-- src/adapters/network/http/http-download-server.cpp: the download endpoint over the HTTP library.
-- A request is its Authorization header, where it has one; the validator is that of the download
-- server, and the sizes of files are what the file system says. The thread is left out.
pub mod Gate
use strixcam.Prelude.{
  ℕ, ◌+◌, Bool, true, false, not, Option, none, some, String, List, [], ◌∷◌, length, drop,
  if◌then◌else◌, nat_eq,
}
use strixcam.Prelude.Bytes.{Bytes, codes, starts_with}

abbrev pub bearer_prefix : Bytes
bearer_prefix = codes "Bearer "

abbrev pub http_unauthorized : ℕ
http_unauthorized = 401

abbrev pub http_not_found : ℕ
http_not_found = 404

-- An empty token is none.
unfoldable pub extract_bearer : Option Bytes → Bytes
extract_bearer none = []
extract_bearer (some auth) =
    if starts_with bearer_prefix auth then drop (length bearer_prefix) auth else []

-- A path is a text. A file is served with its size and in slices.
pub data HttpResponse : Type 0 where
  status : ℕ → String → HttpResponse
  serves : String → ℕ → HttpResponse

abbrev pub file_response : (String → Option ℕ) → Option String → HttpResponse
file_response file_size none = status http_unauthorized "unauthorized"
file_response file_size (some path) = elim (file_size path) [
  | none ↦ status http_not_found "not found"
  | some size ↦ serves path size
]

-- The validator has a state `T`, and is not asked about an empty token.
module _ {T : Type 0} (validator : Bytes → T → T × Option String) where
  abbrev pub validated : Bytes → T → T × Option String
  validated [] tokens = (tokens, none)
  validated (c ∷ cs) tokens = validator (c ∷ cs) tokens

  unfoldable pub get : (String → Option ℕ) → Option Bytes → T → T × HttpResponse
  unfolding extract_bearer
  get file_size header tokens =
      let (next, path) = validated (extract_bearer header) tokens in
      (next, file_response file_size path)

pub record HttpServer : Type 0 where
  pub running : Bool
  pub bound_port : ℕ

-- `bound` is the port that the binding gives, 0 where it fails.
unfoldable pub start : ℕ → HttpServer → HttpServer × Bool
start bound s =
    if s.running
    then (s, true)
    else if nat_eq bound 0
    then (s, false)
    else (record { running = true; bound_port = bound }, true)

unfoldable pub stop : HttpServer → HttpServer
stop s = if not s.running then s else record s { running = false }
