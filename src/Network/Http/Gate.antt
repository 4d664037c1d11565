-- ===== src/Network/Http/Gate.antt =====
-- The download endpoint in front of the tokens of the download server.
use strixcam.Prelude.{
  ℕ, true, false, Option, none, some, String, List, [], ◌∷◌, ◌++◌, length, drop, leb, if◌then◌else◌,
  All, ◌≡◌, refl, sym, ap, ◌∙◌, arith,
}
use strixcam.Prelude.Bytes.{Bytes, codes, starts_with}
use strixcam.Network.{DirEntry, Tokens, expiry, mint_token, validate_token, resolve_recording_path}
use strixcam.Network.Tokens.{TokenCall, serve_all, disturbs, validate_token-mint_token}
use strixcam.Network.Http.{bearer_prefix, extract_bearer, get, validated, file_response}

starts_with_self : (xs rest : Bytes) → starts_with xs (xs ++ rest) ≡ true
unfolding starts_with
starts_with_self [] rest = refl
starts_with_self (x ∷ xs) rest = ground (arith, starts_with_self xs rest)

extract_bearer_lem : (token : Bytes) → extract_bearer (some (bearer_prefix ++ token)) ≡ token
unfolding extract_bearer
extract_bearer_lem token =
    ap (λ b. if b then drop (length bearer_prefix) (bearer_prefix ++ token) else [])
      (starts_with_self bearer_prefix token)

get-token :
    {T : Type 0} (validator : Bytes → T → T × Option String) (file_size : String → Option ℕ) (c : ℕ)
    (cs : Bytes) (tokens : T)
    → (get validator file_size (some (bearer_prefix ++ c ∷ cs)) tokens).1
      ≡ file_response file_size (validator (c ∷ cs) tokens).1
unfolding get
get-token validator file_size c cs tokens =
    ap (λ t. file_response file_size (validated validator t tokens).1) (extract_bearer_lem (c ∷ cs))

-- A request that bears a minted token is answered, before the token's expiry, with the file of the
-- recording, or 404 where it has gone, and from the expiry on with 401, whatever other tokens were
-- minted and shown meanwhile, as long as this token is neither minted again nor shown at its expiry
-- or after. The token is not empty, and a text is its bytes.
pub get-mint_token :
    (text_of : Bytes → String) (file_size : String → Option ℕ) (files : Option (List DirEntry))
    (id path secret : String) (c : ℕ) (rest : Bytes) (ttl_seconds now later : ℕ) (tokens : Tokens)
    (cs : List TokenCall)
    → codes secret ≡ c ∷ rest
    → text_of (codes secret) ≡ secret
    → resolve_recording_path files id ≡ some path
    → All (λ call. disturbs secret (expiry now ttl_seconds) call ≡ false) cs
    → let minted = (mint_token files id ttl_seconds secret now tokens).0 in
      (get
        (λ token. validate_token (text_of token) later)
        file_size
        (some (bearer_prefix ++ codes secret))
        (serve_all minted cs)).1
      ≡ file_response file_size (if leb (expiry now ttl_seconds) later then none else some path)
get-mint_token text_of file_size files id path secret c rest ttl_seconds now later tokens cs e text
      found calm =
    let minted = (mint_token files id ttl_seconds secret now tokens).0 in
    let validator = λ (token : Bytes). validate_token (text_of token) later in
    ap (λ t. (get validator file_size (some (bearer_prefix ++ t)) (serve_all minted cs)).1) e
    ∙ get-token validator file_size c rest (serve_all minted cs)
    ∙ ap (λ t. file_response file_size (validate_token (text_of t) later (serve_all minted cs)).1)
        (sym e)
    ∙ ap (λ t. file_response file_size (validate_token t later (serve_all minted cs)).1) text
    ∙ ap (file_response file_size)
        (validate_token-mint_token files id path secret ttl_seconds now later tokens cs found calm)
