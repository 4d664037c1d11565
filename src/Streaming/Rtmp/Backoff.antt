-- ===== src/Streaming/Rtmp/Backoff.antt =====
-- The watcher's waits between its attempts to reconnect.
use native.Mathlib.Nat.{pow-suc}
use strixcam.Prelude.{
  ℕ, ◌*◌, ◌^◌, ◌≤◌, zero, suc, Bool, true, false, ◌&&◌, ◌||◌, not, List, [], ◌∷◌, min, ◌≡◌, refl,
  ◌∙◌, ap, sym, arith, if◌then◌else◌, Bool-cases, inl, inr,
}
use strixcam.Streaming.Rtmp.{
  RtmpStreamer, WatcherTurn, Watcher, LaunchOutcome, watcher_turn, watcher_loop, rebuilt,
  build_and_play_locked, teardown, base_backoff, max_backoff,
}

abbrev pub succeeds : LaunchOutcome → Bool
succeeds o = o.parses && o.pipeline && o.appsrc && o.plays

-- How many attempts in a row have failed at the end of the turns: a healthy turn or a success
-- starts anew. `there` is whether there is a pipeline, and `n` the number before.
abbrev pub failures : Bool → ℕ → List WatcherTurn → ℕ
failures there n [] = n
failures there n (turn ∷ turns) =
    let healthy = failures true 0 turns in
    let failed = failures false (suc n) turns in
    if there && turn.bus && not turn.error
    then healthy
    else if not turn.watching || not turn.running
    then n
    else if succeeds turn.rebuild
    then healthy
    else failed

abbrev pub capped : ℕ → ℕ
capped n = min (base_backoff * 2 ^ n) max_backoff

doubled : (n : ℕ) → min (capped n * 2) max_backoff ≡ capped (suc n)
doubled n = omega (arith, pow-suc 2 n)

positive : (n : ℕ) → 1 ≤ 2 ^ n
positive zero = omega arith
positive (suc n) = omega (arith, pow-suc 2 n, positive n)

rebuild-pipeline :
    (o : LaunchOutcome) (s : RtmpStreamer)
    → let (built, plays) = build_and_play_locked o (teardown s) in
      (plays ≡ succeeds o) × (built.pipeline ≡ succeeds o)
unfolding build_and_play_locked teardown
rebuild-pipeline o s = ground arith

-- The watcher goes on, with the pipeline as counted and the wait of the failures counted.
record Follows (there : Bool) (n : ℕ) (w : Watcher) : Type 0 where
  going : w.over ≡ false
  pipeline : w.streamer.pipeline ≡ there
  backoff : w.backoff ≡ capped n

watcher_turn-healthy :
    (turn : WatcherTurn) (w : Watcher)
    → (w.streamer.pipeline && turn.bus && not turn.error) ≡ true
    → watcher_turn turn w ≡ record w { backoff = base_backoff }
unfolding watcher_turn
watcher_turn-healthy turn w h = ground (arith, h)

watcher_turn-over :
    (turn : WatcherTurn) (w : Watcher)
    → (w.streamer.pipeline && turn.bus && not turn.error) ≡ false
    → (not turn.watching || not turn.running) ≡ true
    → watcher_turn turn w ≡ record w { over = true }
unfolding watcher_turn
watcher_turn-over turn w h g = ground (arith, h, g)

watcher_turn-rebuilt :
    (turn : WatcherTurn) (w : Watcher)
    → (w.streamer.pipeline && turn.bus && not turn.error) ≡ false
    → (not turn.watching || not turn.running) ≡ false
    → watcher_turn turn w
      ≡ rebuilt w.backoff (build_and_play_locked turn.rebuild (teardown w.streamer))
unfolding watcher_turn
watcher_turn-rebuilt turn w h g = ground (arith, h, g)

over-stays : (turns : List WatcherTurn) (w : Watcher) → w.over ≡ true → watcher_loop turns w ≡ w
unfolding watcher_loop
over-stays [] w h = refl
over-stays (turn ∷ turns) w h = rw (h, watcher_loop) refl

loop-step :
    (turn : WatcherTurn) (turns : List WatcherTurn) (w : Watcher)
    → w.over ≡ false
    → watcher_loop (turn ∷ turns) w ≡ watcher_loop turns (watcher_turn turn w)
unfolding watcher_loop
loop-step turn turns w h = ground (arith, h)

rebuilt-Follows :
    (backoff n : ℕ) (r : RtmpStreamer × Bool) (good : Bool)
    → r.1 ≡ good
    → r.0.pipeline ≡ good
    → backoff ≡ capped n
    → Follows good (if good then 0 else suc n) (rebuilt backoff r)
rebuilt-Follows backoff n (s, true) good e p b =
    rw (← e) (record { going = refl; pipeline = p ∙ sym e; backoff = refl })
rebuilt-Follows backoff n (s, false) good e p b = rw (← e) (record {
  going = refl;
  pipeline = p ∙ sym e;
  backoff = ap (λ k. min (k * 2) max_backoff) b ∙ doubled n;
})

loop-nil : (w : Watcher) → watcher_loop [] w ≡ w
unfolding watcher_loop
loop-nil w = refl

failures_healthy :
    (there : Bool) (n : ℕ) (turn : WatcherTurn) (turns : List WatcherTurn)
    → (there && turn.bus && not turn.error) ≡ true
    → failures true 0 turns ≡ failures there n (turn ∷ turns)
failures_healthy there n turn turns h = rw h refl

failures_over :
    (there : Bool) (n : ℕ) (turn : WatcherTurn) (turns : List WatcherTurn)
    → (there && turn.bus && not turn.error) ≡ false
    → (not turn.watching || not turn.running) ≡ true
    → n ≡ failures there n (turn ∷ turns)
failures_over there n turn turns h g = rw (h, g) refl

failures_rebuilt :
    (there : Bool) (n : ℕ) (turn : WatcherTurn) (turns : List WatcherTurn)
    → (there && turn.bus && not turn.error) ≡ false
    → (not turn.watching || not turn.running) ≡ false
    → (let good = succeeds turn.rebuild in failures good (if good then 0 else suc n) turns)
      ≡ failures there n (turn ∷ turns)
failures_rebuilt there n turn turns h g = elim (Bool-cases (succeeds turn.rebuild)) [
  | inl good ↦ rw (h, g, good) refl
  | inr bad ↦ rw (h, g, bad) refl
]

loop-backoff :
    (turns : List WatcherTurn) (there : Bool) (n : ℕ) (w : Watcher)
    → Follows there n w
    → (watcher_loop turns w).backoff ≡ capped (failures there n turns)
loop-backoff [] there n w f = ap (λ v. v.backoff) (loop-nil w) ∙ f.backoff
loop-backoff (turn ∷ turns) there n w f =
    let stepped = loop-step turn turns w f.going in
    let there_now : (w.streamer.pipeline && turn.bus && not turn.error)
        ≡ (there && turn.bus && not turn.error) =
      ap (λ b. b && turn.bus && not turn.error) f.pipeline in
    elim (Bool-cases (there && turn.bus && not turn.error)) [
      | inl fine ↦
          let next = watcher_turn-healthy turn w (there_now ∙ fine) in
          ap (λ v. v.backoff) (stepped ∙ ap (watcher_loop turns) next)
          ∙ loop-backoff turns true 0 (record w { backoff = base_backoff })
              (record {
                going = f.going;
                pipeline = ground (arith, f.pipeline, fine);
                backoff = refl;
              })
          ∙ ap capped (failures_healthy there n turn turns fine)
      | inr bad ↦ elim (Bool-cases (not turn.watching || not turn.running)) [
        | inl gone ↦
            ap (λ v. v.backoff)
              (stepped
                ∙ ap (watcher_loop turns) (watcher_turn-over turn w (there_now ∙ bad) gone)
                ∙ over-stays turns (record w { over = true }) refl)
            ∙ f.backoff
            ∙ ap capped (failures_over there n turn turns bad gone)
        | inr goes ↦
            let built = build_and_play_locked turn.rebuild (teardown w.streamer) in
            let (plays, pipe) = rebuild-pipeline turn.rebuild w.streamer in
            let good = succeeds turn.rebuild in
            ap (λ v. v.backoff)
              (stepped
                ∙ ap (watcher_loop turns) (watcher_turn-rebuilt turn w (there_now ∙ bad) goes))
            ∙ loop-backoff turns good (if good then 0 else suc n) (rebuilt w.backoff built)
                (rebuilt-Follows w.backoff n built good plays pipe f.backoff)
            ∙ ap capped (failures_rebuilt there n turn turns bad goes)
      ]
    ]

-- However the bus, the flags and the rebuilding go: the wait is 500 ms after a healthy turn or a
-- success, and doubles with each failed attempt in a row up to 8 s; it always lies between the two.
pub watcher_loop-backoff :
    (s : RtmpStreamer) (turns : List WatcherTurn)
    → s.pipeline ≡ true
    → let last =
        watcher_loop turns (record { streamer = s; backoff = base_backoff; over = false }) in
      (last.backoff ≡ capped (failures true 0 turns))
      × (base_backoff ≤ last.backoff)
      × (last.backoff ≤ max_backoff)
watcher_loop-backoff s turns h =
    let e =
      loop-backoff turns true 0 (record { streamer = s; backoff = base_backoff; over = false })
        (record { going = refl; pipeline = h; backoff = refl }) in
    (
      e,
      omega (arith, e, positive (failures true 0 turns)),
      omega (arith, e, positive (failures true 0 turns)),
    )
