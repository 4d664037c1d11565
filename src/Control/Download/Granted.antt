-- ===== src/Control/Download/Granted.antt =====
-- A download from the phone's request over BLE to its request over HTTP.
use strixcam.Prelude.{
  Bool, true, false, ℕ, false, Option, none, some, String, List, ◌∷◌, ◌++◌, leb, if◌then◌else◌, All,
  ◌≡◌, refl, ap, arith, ◌∙◌,
}
use strixcam.Prelude.Bytes.{Bytes, codes}
use strixcam.Control.Message.{done_with}
use strixcam.Control.Download.{
  DownloadHandler, TokenMessage, download_request, download_token, token_message, handle,
}
use strixcam.Network.{DirEntry, Tokens, expiry, mint_token, validate_token, resolve_recording_path}
use strixcam.Network.Tokens.{TokenCall, serve_all, disturbs}
use strixcam.Network.Http.{bearer_prefix, get, file_response, status, serves}
use strixcam.Network.Http.Gate.{get-mint_token}

-- What the phone is told.
abbrev pub granted : DownloadHandler → String → String → ℕ → TokenMessage
granted h id secret now =
    token_message h (record {
      recording_id = id;
      token = secret;
      expires_at_unix = expiry now h.token_ttl_seconds;
    })

handle-tokens :
    (h : DownloadHandler) (files : Option (List DirEntry)) (id secret : String) (now : ℕ)
    (tokens : Tokens)
    → (handle h (download_request id) files secret now tokens).0
      ≡ (mint_token files id h.token_ttl_seconds secret now tokens).0
unfolding handle
handle-tokens h files id secret now tokens = refl

handle-granted :
    (h : DownloadHandler) (files : Option (List DirEntry)) (id path secret : String) (now : ℕ)
    (tokens : Tokens)
    → resolve_recording_path files id ≡ some path
    → (handle h (download_request id) files secret now tokens).1
      ≡ done_with (download_token (granted h id secret now))
unfolding handle mint_token
handle-granted h files id path secret now tokens found = ground (arith, found)

file_response-expired :
    (file_size : String → Option ℕ) (path : String) (expired : Bool)
    → file_response file_size (if expired then none else some path) ≡ (
        if expired
        then status 401 "unauthorized"
        else elim (file_size path) [ none ↦ status 404 "not found" | some size ↦ serves path size ])
file_response-expired file_size path true = refl
file_response-expired file_size path false = refl

-- A request for a recording that is there is answered OK with a token, its URL and its expiry. A
-- request over HTTP that bears this token is answered, before the expiry, with the file of the
-- recording, or 404 where it has gone, and from the expiry on with 401, whatever other tokens were
-- minted and shown meanwhile, as long as this token is neither minted again nor shown at its expiry
-- or after. The token is not empty, and a text is its bytes.
pub get-handle :
    (text_of : Bytes → String) (file_size : String → Option ℕ) (h : DownloadHandler)
    (files : Option (List DirEntry)) (id path secret : String) (c : ℕ) (rest : Bytes)
    (now later : ℕ) (tokens : Tokens) (cs : List TokenCall)
    → codes secret ≡ c ∷ rest
    → text_of (codes secret) ≡ secret
    → resolve_recording_path files id ≡ some path
    → All (λ call. disturbs secret (expiry now h.token_ttl_seconds) call ≡ false) cs
    → let told = granted h id secret now in
      let (minted, response) = handle h (download_request id) files secret now tokens in
      (response ≡ done_with (download_token told))
      × ((get
            (λ token. validate_token (text_of token) later)
            file_size
            (some (bearer_prefix ++ codes told.auth_token))
            (serve_all minted cs)).1
          ≡ (if leb told.expires_at later
              then status 401 "unauthorized"
              else elim (file_size path) [
                | none ↦ status 404 "not found"
                | some size ↦ serves path size
              ]))
get-handle text_of file_size h files id path secret c rest now later tokens cs e text found calm =
    let bearer = some (bearer_prefix ++ codes secret) in
    (
      handle-granted h files id path secret now tokens found,
      ap
            (λ minted.
              (get (λ token. validate_token (text_of token) later) file_size bearer
                (serve_all minted cs)).1)
            (handle-tokens h files id secret now tokens)
          ∙ get-mint_token text_of file_size files id path secret c rest h.token_ttl_seconds now
              later tokens cs e text found calm
          ∙ file_response-expired file_size path (leb (expiry now h.token_ttl_seconds) later),
    )
