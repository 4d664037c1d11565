-- ===== src/Streaming/Mirror.antt =====
-- StreamingService: `active_names_` beside `platform_streams_`, and stopping everything.
use strixcam.Prelude.{
  false, Option, none, some, List, [], ◌∷◌, ◌++◌, String, map, ◌≡◌, refl, sym, ap, ◌∙◌, arith, All,
  Option-cases, Bool-cases, inl, inr, All-append,
}
use strixcam.Prelude.Int.{ℤ, pos, leb_ℤ, int_keys}
use strixcam.Prelude.Assoc.{
  Assoc, Distinct, keys, lookup, insert, erase, contains, remove, keys-insert, keys-erase,
  append-Distinct, remove-Distinct, lookup-none_iff, erase-head, lookup-head,
}
use strixcam.Streaming.{
  StreamPorts, StreamingService, PlatformStreamConfig, AppStreamConfig, start_app_stream,
  stop_app_stream, start_platform_stream, stop_platform_stream, push, push_to, stop_all,
  stop_streaming, is_app_stream_running,
}

module _ {A S : Type 0} where
  pub record IsMirrored (s : StreamingService A S) : Type 0 where
    pub same_ids : keys s.platform_streams ≡ keys s.active_names
    pub distinct : Distinct (keys s.active_names)
    pub positive : All (λ id. leb_ℤ id (pos 0) ≡ false) (keys s.active_names)

positive-remove :
    (id : ℤ) (ids : List ℤ)
    → All (λ i. leb_ℤ i (pos 0) ≡ false) ids
    → All (λ i. leb_ℤ i (pos 0) ≡ false) (remove id ids)
unfolding remove
positive-remove id [] h = tt
positive-remove id (i ∷ ids) h = ground (arith, positive-remove id ids h.1)

-- One call on the service; a start comes with what the factory returned.
pub data StreamCall (F S : Type 0) : Type 0 where
  starts_app : AppStreamConfig → StreamCall F S
  stops_app : StreamCall F S
  starts : PlatformStreamConfig → Option S → StreamCall F S
  stops : ℤ → StreamCall F S
  pushes : F → StreamCall F S

module _ {F A S : Type 0} (ports : StreamPorts F A S) where
  unfoldable pub step : StreamingService A S → StreamCall F S → StreamingService A S
  step s (starts_app config) = (start_app_stream ports config s).0
  step s stops_app = (stop_app_stream ports s).0
  step s (starts config made) = (start_platform_stream ports config made s).0
  step s (stops id) = (stop_platform_stream ports id s).0
  step s (pushes frame) = push ports frame s

  keys-pushed :
      (frame : F) (m : Assoc ℤ S) → keys (map (λ e. (e.0, push_to ports frame e.1)) m) ≡ keys m
  keys-pushed frame [] = refl
  keys-pushed frame (e ∷ m) = ap (◌∷◌ e.0) (keys-pushed frame m)

  added-IsMirrored :
      (s : StreamingService A S) (id : ℤ) (name : String) (streamer : S)
      → IsMirrored s
      → leb_ℤ id (pos 0) ≡ false
      → lookup id s.platform_streams ≡ none
      → IsMirrored (record s {
        active_names = insert id name s.active_names;
        platform_streams = insert id streamer s.platform_streams;
      })
  added-IsMirrored s id name streamer v positive new =
      let absent = lookup-none_iff id s.platform_streams new in
      let absent' : contains id (keys s.active_names) ≡ false = rw v.same_ids at absent in
      let names : keys (insert id name s.active_names) ≡ keys s.active_names ++ id ∷ [] =
        keys-insert id name s.active_names ∙ rw absent' in
      let streams : keys (insert id streamer s.platform_streams)
          ≡ keys s.platform_streams ++ id ∷ [] =
        keys-insert id streamer s.platform_streams ∙ rw absent in
      record {
        same_ids = streams ∙ ap (λ ids. ids ++ id ∷ []) v.same_ids ∙ sym names;
        distinct = rw names (append-Distinct id (keys s.active_names) absent' v.distinct);
        positive =
            rw names (All-append _ (keys s.active_names) (id ∷ []) v.positive (positive, tt));
      }

  removed-IsMirrored :
      (s : StreamingService A S) (id : ℤ)
      → IsMirrored s
      → IsMirrored (record s {
        platform_streams = erase id s.platform_streams;
        active_names = erase id s.active_names;
      })
  removed-IsMirrored s id v = record {
    same_ids =
        keys-erase id s.platform_streams
        ∙ ap (remove id) v.same_ids
        ∙ sym (keys-erase id s.active_names);
    distinct = rw keys-erase (remove-Distinct id (keys s.active_names) v.distinct);
    positive = rw keys-erase (positive-remove id (keys s.active_names) v.positive);
  }

  starts-IsMirrored :
      (s : StreamingService A S) (config : PlatformStreamConfig) (made : Option S)
      → IsMirrored s
      → IsMirrored (start_platform_stream ports config made s).0
  unfolding start_platform_stream
  starts-IsMirrored s config none v =
      let e : (start_platform_stream ports config none s).0 ≡ s = ground arith in rw e v
  starts-IsMirrored s config (some streamer) v =
      elim (Bool-cases (leb_ℤ config.stream_id (pos 0))) [
        | inl bad ↦ rw bad v
        | inr good ↦ elim (Option-cases (lookup config.stream_id s.platform_streams)) [
          | inr (old, active) ↦ rw (good, active) v
          | inl new ↦ elim (Bool-cases (ports.start config streamer).1) [
            | inr failed ↦ rw (good, new, failed) v
            | inl started ↦
                rw (good, new, started)
                  (added-IsMirrored s config.stream_id config.name (ports.start config streamer).0 v
                    good new)
          ]
        ]
      ]

  stops-IsMirrored :
      (s : StreamingService A S) (id : ℤ)
      → IsMirrored s
      → IsMirrored (stop_platform_stream ports id s).0
  unfolding stop_platform_stream
  stops-IsMirrored s id v = elim (Option-cases (lookup id s.platform_streams)) [
    | inl missing ↦ rw (missing, stop_platform_stream) v
    | inr (taken, found) ↦ rw (found, stop_platform_stream) (removed-IsMirrored s id v)
  ]

  starts_app-IsMirrored :
      (s : StreamingService A S) (config : AppStreamConfig)
      → IsMirrored s
      → IsMirrored (start_app_stream ports config s).0
  unfolding start_app_stream
  starts_app-IsMirrored s config v = elim (Bool-cases (is_app_stream_running ports s)) [
    | inl on ↦ rw on v
    | inr off ↦
        rw off (record { same_ids = v.same_ids; distinct = v.distinct; positive = v.positive })
  ]

  stops_app-IsMirrored :
      (s : StreamingService A S) → IsMirrored s → IsMirrored (stop_app_stream ports s).0
  unfolding stop_app_stream
  stops_app-IsMirrored s v = elim (Bool-cases (is_app_stream_running ports s)) [
    | inl on ↦
        rw on (record { same_ids = v.same_ids; distinct = v.distinct; positive = v.positive })
    | inr off ↦ rw off v
  ]

  -- Whatever is called, the names of the active streams have the ids of the streamers, each once,
  -- and every id is positive.
  pub step-IsMirrored :
      (s : StreamingService A S) (c : StreamCall F S) → IsMirrored s → IsMirrored (step s c)
  unfolding step push
  step-IsMirrored s (starts_app config) v = starts_app-IsMirrored s config v
  step-IsMirrored s stops_app v = stops_app-IsMirrored s v
  step-IsMirrored s (starts config made) v = starts-IsMirrored s config made v
  step-IsMirrored s (stops id) v = stops-IsMirrored s id v
  step-IsMirrored s (pushes frame) v = record {
    same_ids = keys-pushed frame s.platform_streams ∙ v.same_ids;
    distinct = v.distinct;
    positive = v.positive;
  }

  stop_all-empties :
      (a : A) (streams : Assoc ℤ S) (names : Assoc ℤ String)
      → keys streams ≡ keys names
      → Distinct (keys names)
      → stop_all ports names
          (record { app_stream_server = a; platform_streams = streams; active_names = names })
        ≡ (
          record { app_stream_server = a; platform_streams = []; active_names = [] },
          map (λ e. ports.stop e.1) streams,
        )
  unfolding stop_all stop_platform_stream
  stop_all-empties a [] [] e d = refl
  stop_all-empties a [] (n ∷ names) e d = absurd (cc)
  stop_all-empties a (x ∷ streams) [] e d = absurd (cc)
  stop_all-empties a ((i, st) ∷ streams) ((j, n) ∷ names) e d =
      let same : j ≡ i = cc in
      let rest : keys streams ≡ keys names = cc in
      let hit : lookup j ((i, st) ∷ streams) ≡ some st = rw same (lookup-head i st streams) in
      let absent : contains j (keys streams) ≡ false = rw rest d.0 in
      let one : erase j ((i, st) ∷ streams) ≡ streams =
        rw same (erase-head i st streams (rw (← same) absent)) in
      let two = erase-head j n names d.0 in
      let later = stop_all-empties a streams names rest d.1 in
      rw (hit, stop_platform_stream, one, two, later)

  -- With the names mirrored, and a server whose `Stop` stops it: after `StopStreaming` the app
  -- stream is not running, no platform stream is left, and each streamer was stopped once.
  pub stop_streaming_lem :
      ((a : A) → ports.app_running (ports.app_stop a) ≡ false)
      → (s : StreamingService A S) → IsMirrored s
      → let r = stop_streaming ports s in
        (is_app_stream_running ports r.0 ≡ false)
        × (r.0.platform_streams ≡ [])
        × (r.0.active_names ≡ [])
        × (r.1 ≡ map (λ e. ports.stop e.1) s.platform_streams)
  unfolding stop_streaming stop_app_stream
  stop_streaming_lem quiet s v = elim (Bool-cases (is_app_stream_running ports s)) [
    | inl on ↦
        rw
          (
            on,
            stop_all-empties (ports.app_stop s.app_stream_server) s.platform_streams s.active_names
                v.same_ids v.distinct,
          )
          (quiet s.app_stream_server, refl, refl, refl)
    | inr off ↦
        rw
          (
            off,
            stop_all-empties s.app_stream_server s.platform_streams s.active_names v.same_ids
                v.distinct,
          )
          (off, refl, refl, refl)
  ]
