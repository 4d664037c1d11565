-- ===== src/Recording/Protocol.antt =====
-- The recording service beside its recorder: a recorder that watches in which order it is called.
use strixcam.Prelude.{
  ℕ, ◌+◌, Bool, true, false, none, List, [], ◌∷◌, ◌≡◌, refl, arith, if◌then◌else◌,
}
use strixcam.Session.Paths.{FilePath, is_empty}
use strixcam.Recording.{
  RecordingPorts, RecordingService, RecordingState, idle, recording, paused, idle_service, is_idle,
  start_recording, pause, resume, stop, push,
}

-- A recorder that watches how it is called: `off`, `rolling` or `held`.
pub data Mode : Type 0 where
  off rolling held : Mode

pub record Watched : Type 0 where
  pub mode : Mode
  pub misused : Bool
  pub clock : ℕ

-- What the ports answer, by the number of answers given before.
pub record Answers : Type 0 where
  pub space : ℕ → Bool
  pub starts : ℕ → Bool
  pub stops : ℕ → Bool
  pub writes : ℕ → Bool

abbrev tick : Watched → Watched
tick w = record w { clock = w.clock + 1 }

abbrev misuse : Watched → Watched
misuse w = record w { misused = true }

abbrev pub watch_start : Answers → Watched → Watched × Bool
watch_start answers w = elim w.mode [
  | off ↦
      if answers.starts w.clock
      then (record w { mode = rolling; clock = w.clock + 1 }, true)
      else (tick w, false)
  | _ ↦ (misuse w, true)
]

abbrev pub watch_pause : Watched → Watched
watch_pause w = elim w.mode [ rolling ↦ record w { mode = held } | _ ↦ misuse w ]

abbrev pub watch_resume : Watched → Watched
watch_resume w = elim w.mode [ held ↦ record w { mode = rolling } | _ ↦ misuse w ]

abbrev pub watch_stop : Answers → Watched → Watched × Bool
watch_stop answers w = elim w.mode [
  | off ↦ (misuse w, false)
  | _ ↦ (record w { mode = off; clock = w.clock + 1 }, answers.stops w.clock)
]

abbrev pub watch_push : Watched → Watched
watch_push w = elim w.mode [ off ↦ misuse w | _ ↦ w ]

abbrev pub watched : {F : Type 0} → Answers → RecordingPorts F Watched
watched answers = record {
  has_enough_free_space = λ w. answers.space w.clock;
  start = λ path w. watch_start answers w;
  pause = watch_pause;
  resume = watch_resume;
  stop = watch_stop answers;
  push = λ frame w. watch_push w;
  write = λ frame path w. (tick w, answers.writes w.clock);
}

-- A call on the service.
pub data ServiceCall (F : Type 0) : Type 0 where
  starts : FilePath → FilePath → ServiceCall F
  pauses resumes stops : ServiceCall F
  pushes : F → ServiceCall F

abbrev pub mode_of : RecordingState → Mode
mode_of idle = off
mode_of recording = rolling
mode_of paused = held

module _ {F : Type 0} (answers : Answers) where
  abbrev ports : RecordingPorts F Watched
  ports = watched answers

  unfoldable pub serve : RecordingService F × Watched → ServiceCall F → RecordingService F × Watched
  serve (s, w) (starts video thumbnail) =
      let (s', w', done) = start_recording ports video thumbnail s w in (s', w')
  serve (s, w) pauses = let (s', w', done) = pause ports s w in (s', w')
  serve (s, w) resumes = let (s', w', done) = resume ports s w in (s', w')
  serve (s, w) stops = let (s', w', done) = stop ports s w in (s', w')
  serve (s, w) (pushes frame) = push ports frame s w

  unfoldable pub serve_all :
      RecordingService F × Watched → List (ServiceCall F) → RecordingService F × Watched
  serve_all sw [] = sw
  serve_all sw (c ∷ cs) = serve_all (serve sw c) cs

  -- The recorder was never misused and is in the mode that the service's state says; an idle
  -- service remembers no path and no frame, and a busy one has a path.
  pub record InOrder (sw : RecordingService F × Watched) : Type 0 where
    pub proper : sw.1.misused ≡ false
    pub agrees : sw.1.mode ≡ mode_of sw.0.state
    pub forgets :
        sw.0.state ≡ idle
        → (sw.0.video_path ≡ []) × (sw.0.thumbnail_path ≡ []) × (sw.0.last_frame ≡ none)
    pub names_file : is_idle sw.0.state ≡ false → is_empty sw.0.video_path ≡ false

  serve-InOrder :
      (s : RecordingService F) (w : Watched) (c : ServiceCall F)
      → InOrder (s, w)
      → InOrder (serve (s, w) c)
  unfolding serve start_recording pause resume stop push
  serve-InOrder s w (starts video thumbnail) v = record {
    proper = ground (arith, v.proper, v.agrees);
    agrees = ground (arith, v.proper, v.agrees);
    forgets = ground (arith, v.agrees, v.forgets);
    names_file = ground (arith, v.agrees, v.names_file);
  }
  serve-InOrder s w c v = record {
    proper = ground (arith, v.proper, v.agrees);
    agrees = ground (arith, v.proper, v.agrees);
    forgets = ground (arith, v.agrees, v.forgets);
    names_file = ground (arith, v.agrees, v.names_file);
  }

  serve_all-InOrder :
      (sw : RecordingService F × Watched) (cs : List (ServiceCall F))
      → InOrder sw
      → InOrder (serve_all sw cs)
  unfolding serve_all
  serve_all-InOrder sw [] v = v
  serve_all-InOrder (s, w) (c ∷ cs) v =
      serve_all-InOrder (serve (s, w) c) cs (serve-InOrder s w c v)

  abbrev pub fresh_start : RecordingService F × Watched
  fresh_start = (idle_service, record { mode = off; misused = false; clock = 0 })

  -- From an idle service and a recorder that is off, whatever is called and whatever the ports
  -- answer: the recorder is never misused, its mode is the service's state, an idle service
  -- remembers no path and no frame, and a busy one names its file.
  pub serve_all_fresh-InOrder : (cs : List (ServiceCall F)) → InOrder (serve_all fresh_start cs)
  serve_all_fresh-InOrder cs = serve_all-InOrder fresh_start cs (record {
    proper = refl;
    agrees = refl;
    forgets = λ _. (refl, refl, refl);
    names_file = λ h. cc;
  })
