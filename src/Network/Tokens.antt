-- ===== src/Network/Tokens.antt =====
-- What a download token opens, and until when.
use strixcam.Prelude.{
  ℕ, Bool, false, ◌&&◌, Option, none, some, String, List, [], ◌∷◌, ◌==◌, text_keys, if◌then◌else◌,
  leb, ◌≡◌, refl, arith, All, ap, ◌∙◌, Option-cases, inl, inr,
}
use strixcam.Prelude.Assoc.{lookup, insert, lookup-insert, lookup-erase}
use strixcam.Network.{
  DirEntry, TokenEntry, Tokens, expiry, mint_token, validate_token, resolve_recording_path,
}

pub data TokenCall : Type 0 where
  mints : Option (List DirEntry) → String → ℕ → String → ℕ → TokenCall
  validates : String → ℕ → TokenCall

unfoldable pub serve : Tokens → TokenCall → Tokens
serve tokens (mints files id ttl_seconds secret now) =
    (mint_token files id ttl_seconds secret now tokens).0
serve tokens (validates token now) = (validate_token token now tokens).0

unfoldable pub serve_all : Tokens → List TokenCall → Tokens
unfolding serve
serve_all tokens [] = tokens
serve_all tokens (c ∷ cs) = serve_all (serve tokens c) cs

-- The call mints this very token.
abbrev pub remints : String → TokenCall → Bool
remints token (mints files id ttl_seconds secret now) = secret == token
remints token (validates other now) = false

-- The call mints this very token, or shows it at its expiry or after.
abbrev pub disturbs : String → ℕ → TokenCall → Bool
disturbs token expires_at (mints files id ttl_seconds secret now) = secret == token
disturbs token expires_at (validates other now) = other == token && leb expires_at now

mint_token-some :
    (files : Option (List DirEntry)) (id path secret : String) (ttl_seconds now : ℕ)
    (tokens : Tokens)
    → resolve_recording_path files id ≡ some path
    → (mint_token files id ttl_seconds secret now tokens).0
      ≡ insert secret (record { path = path; expires_at_unix = expiry now ttl_seconds }) tokens
unfolding mint_token
mint_token-some files id path secret ttl_seconds now tokens found = rw (mint_token, found) refl

lookup-mint_token :
    (files : Option (List DirEntry)) (id : String) (ttl_seconds : ℕ) (secret : String) (now : ℕ)
    (token : String) (tokens : Tokens)
    → secret == token ≡ false
    → lookup token (mint_token files id ttl_seconds secret now tokens).0 ≡ lookup token tokens
unfolding mint_token
lookup-mint_token files id ttl_seconds secret now token tokens other =
    elim (Option-cases (resolve_recording_path files id)) [
      | inl missing ↦ rw (mint_token, missing) refl
      | inr (path, found) ↦
          let entry : TokenEntry = record {
            path = path;
            expires_at_unix = expiry now ttl_seconds;
          } in
          ap (lookup token) (mint_token-some files id path secret ttl_seconds now tokens found)
          ∙ lookup-insert secret token entry tokens
          ∙ rw other refl
    ]

serve-keeps :
    (tokens : Tokens) (token : String) (entry : TokenEntry) (c : TokenCall)
    → lookup token tokens ≡ some entry
    → disturbs token entry.expires_at_unix c ≡ false
    → lookup token (serve tokens c) ≡ some entry
unfolding serve mint_token validate_token
serve-keeps tokens token entry (mints files id ttl secret now) h calm =
    lookup-mint_token files id ttl secret now token tokens calm ∙ h
serve-keeps tokens token entry (validates other now) h calm =
    ground (arith, text_keys.same_iff other token, lookup-erase other token tokens)

serve_all-keeps :
    (tokens : Tokens) (token : String) (entry : TokenEntry) (cs : List TokenCall)
    → lookup token tokens ≡ some entry
    → All (λ c. disturbs token entry.expires_at_unix c ≡ false) cs
    → lookup token (serve_all tokens cs) ≡ some entry
unfolding serve_all
serve_all-keeps tokens token entry [] h calm = h
serve_all-keeps tokens token entry (c ∷ cs) h (calm, rest) =
    serve_all-keeps (serve tokens c) token entry cs (serve-keeps tokens token entry c h calm) rest

serve-absent :
    (tokens : Tokens) (token : String) (c : TokenCall)
    → lookup token tokens ≡ none
    → remints token c ≡ false
    → lookup token (serve tokens c) ≡ none
unfolding serve mint_token validate_token
serve-absent tokens token (mints files id ttl secret now) h calm =
    lookup-mint_token files id ttl secret now token tokens calm ∙ h
serve-absent tokens token (validates other now) h calm =
    ground (arith, lookup-erase other token tokens)

serve_all-absent :
    (tokens : Tokens) (token : String) (cs : List TokenCall)
    → lookup token tokens ≡ none
    → All (λ c. remints token c ≡ false) cs
    → lookup token (serve_all tokens cs) ≡ none
unfolding serve_all
serve_all-absent tokens token [] h calm = h
serve_all-absent tokens token (c ∷ cs) h (calm, rest) =
    serve_all-absent (serve tokens c) token cs (serve-absent tokens token c h calm) rest

validate_token-some :
    (tokens : Tokens) (token : String) (now : ℕ) (entry : TokenEntry)
    → lookup token tokens ≡ some entry
    → (validate_token token now tokens).1
      ≡ (if leb entry.expires_at_unix now then none else some entry.path)
unfolding validate_token
validate_token-some tokens token now entry found = ground (arith, found)

-- A token that was minted for a recording opens the recording's file at every time before its
-- expiry and nothing from then on, whatever other tokens were minted and shown meanwhile, as long
-- as the same token is neither minted again nor shown at its expiry or after.
pub validate_token-mint_token :
    (files : Option (List DirEntry)) (id path secret : String) (ttl_seconds now later : ℕ)
    (tokens : Tokens) (cs : List TokenCall)
    → resolve_recording_path files id ≡ some path
    → All (λ c. disturbs secret (expiry now ttl_seconds) c ≡ false) cs
    → let minted = (mint_token files id ttl_seconds secret now tokens).0 in
      (validate_token secret later (serve_all minted cs)).1
      ≡ (if leb (expiry now ttl_seconds) later then none else some path)
unfolding mint_token validate_token
validate_token-mint_token files id path secret ttl_seconds now later tokens cs found calm =
    let entry : TokenEntry = record { path = path; expires_at_unix = expiry now ttl_seconds } in
    let minted : lookup secret (insert secret entry tokens) ≡ some entry =
      ground (arith, lookup-insert secret secret entry tokens, text_keys.same_iff secret secret) in
    let kept = serve_all-keeps (insert secret entry tokens) secret entry cs minted calm in
    ap (λ store. (validate_token secret later (serve_all store cs)).1)
      (mint_token-some files id path secret ttl_seconds now tokens found)
    ∙ validate_token-some (serve_all (insert secret entry tokens) cs) secret later entry kept

-- A token that is not in the store and that no call mints opens nothing.
pub validate_token_unminted :
    (tokens : Tokens) (token : String) (now : ℕ) (cs : List TokenCall)
    → lookup token tokens ≡ none
    → All (λ c. remints token c ≡ false) cs
    → (validate_token token now (serve_all tokens cs)).1 ≡ none
unfolding validate_token
validate_token_unminted tokens token now cs absent calm =
    rw (validate_token, serve_all-absent tokens token cs absent calm) refl
