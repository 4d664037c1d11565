-- ===== src/Tests/Network.antt =====
-- Runs of the download server, its endpoint, the WiFi manager, and the names of raw capture files.
use strixcam.Prelude.{
  true, false, ◌++◌, String, Option, none, some, List, [], ◌∷◌, ◌≡◌, refl, arith, leb,
  if◌then◌else◌, text_keys,
}
use strixcam.Prelude.Assoc.{lookup}
use strixcam.Prelude.Bytes.{Bytes, codes, find, starts_with}
use strixcam.Network.Http.{bearer_prefix, get, status, serves}
use strixcam.Control.Message.{done_with}
use strixcam.Control.Download.{DownloadHandler, download_request, download_token, handle}
use strixcam.Control.Download.Granted.{granted, get-handle}
use strixcam.Network.Wifi.{
  WpaWifiManager, group_started, no_state, parse_group_interface, parse_quoted_field, until,
  skip_spaces, first_word,
}
use strixcam.Network.Wifi.Events.{FormsAndRemoves, start-FormsAndRemoves}
use strixcam.Network.{
  Tokens, DirEntry, mint_token, validate_token, resolve_recording_path, find_recording, expiry,
}
use strixcam.Network.Naming.{RawCaptureIdentity, file_name, parse_file_name}
use strixcam.Network.Naming.RoundTrip.{parse_file_name-file_name}
use strixcam.Network.Tokens.{TokenCall, mints, validates, serve_all, validate_token-mint_token}

abbrev files : Option (List DirEntry)
files = some (
    record {
      path = "/v/match.mp4";
      stem = "match";
      extension = ".mp4";
      filename = [];
      is_regular_file = true;
      size_bytes = 10;
      last_write_unix = 0;
    }
    ∷ [])

found : resolve_recording_path files "match" ≡ some "/v/match.mp4"
unfolding resolve_recording_path find_recording
found = refl

abbrev meanwhile : List TokenCall
meanwhile = mints files "match" 60 "other" 110 ∷ validates "tok" 120 ∷ validates "bogus" 500 ∷ []

validate_token-mint_token_example :
    (validate_token "tok" 150 (serve_all (mint_token files "match" 60 "tok" 100 []).0 meanwhile)).1
    ≡ (if leb (expiry 100 60) 150 then none else some "/v/match.mp4")
validate_token-mint_token_example =
    validate_token-mint_token files "match" "/v/match.mp4" "tok" 60 100 150 [] meanwhile found
      (refl, (refl, (refl, tt)))

abbrev none_minted : Tokens
none_minted = []

no_tokens : lookup "guess" none_minted ≡ none
unfolding lookup
no_tokens = refl

-- A group id that holds the marker itself.
abbrev identity : RawCaptureIdentity
identity = record {
  capture_group_id = b'g' ∷ b'_' ∷ b'_' ∷ b'c' ∷ b'a' ∷ b'm' ∷ [];
  camera_index = 1;
}

parse_file_name-file_name_example : parse_file_name (file_name identity) ≡ some identity
parse_file_name-file_name_example = parse_file_name-file_name identity refl (omega arith)

-- Bytes as a text, right for the one token here.
abbrev text_of : Bytes → String
text_of bytes = "tok"

abbrev handler : DownloadHandler
handler = record { group_owner_ip = "192.168.49.1"; download_port = 8080; token_ttl_seconds = 60 }

get-handle_example :
    let told = granted handler "match" "tok" 100 in
    let (minted, response) = handle handler (download_request "match") files "tok" 100 [] in
    (response ≡ done_with (download_token told))
    × ((get
          (λ token. validate_token (text_of token) 150)
          (λ path. some 10)
          (some (bearer_prefix ++ codes told.auth_token))
          (serve_all minted meanwhile)).1
        ≡ (if leb told.expires_at 150 then status 401 "unauthorized" else serves "/v/match.mp4" 10))
get-handle_example =
    get-handle text_of (λ path. some 10) handler files "match" "/v/match.mp4" "tok" b't'
      (b'o' ∷ b'k' ∷ []) 100 150 [] meanwhile refl refl found (refl, (refl, (refl, tt)))

abbrev event : Bytes
event = codes "<3>P2P-GROUP-STARTED p2p-0 GO ssid=\"D\" passphrase=\"s\""

abbrev scan_event : Bytes
scan_event = codes "<3>CTRL-EVENT-SCAN"

abbrev manager : WpaWifiManager
manager = record {
  sock = false;
  local_path = false;
  group_interface = [];
  state = no_state;
  sent = [];
  inbox = some (codes "OK") ∷ some (codes "OK") ∷ some scan_event ∷ some event ∷ [];
}

event_has_interface : parse_group_interface event ≡ some (codes "p2p-0")
unfolding parse_group_interface skip_spaces first_word find starts_with
event_has_interface = refl

event_has_ssid : parse_quoted_field event (codes "ssid") ≡ some (codes "D")
unfolding parse_quoted_field until find starts_with
event_has_ssid = refl

event_has_psk : parse_quoted_field event (codes "passphrase") ≡ some (codes "s")
unfolding parse_quoted_field until find starts_with
event_has_psk = refl

event_starts : find group_started event ≡ some 3
unfolding find starts_with
event_starts = refl

scan_is_other : find group_started scan_event ≡ none
unfolding find starts_with
scan_is_other = refl

replies_ok : starts_with (codes "OK") (codes "OK") ≡ true
unfolding starts_with
replies_ok = refl

start-FormsAndRemoves_example : FormsAndRemoves manager (codes "p2p-0") (codes "D") (codes "s") []
start-FormsAndRemoves_example =
    start-FormsAndRemoves manager (some (codes "OK")) (codes "OK") event (codes "p2p-0") (codes "D")
      (codes "s") (scan_event ∷ []) 3 [] refl replies_ok ((refl, scan_is_other), tt) (omega arith)
      refl event_starts event_has_interface event_has_ssid event_has_psk
