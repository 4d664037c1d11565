-- ===== src/Startup.antt =====
-- src/main.cpp: the start-up and the shut-down, over the parts that they start and stop, and
-- src/app/config/services/config_loader. The wiring before is the parameters' business, the match
-- clock's thread is a flag, and waiting for a signal is left out.
use strixcam.Prelude.{
  ℕ, Bool, not, ◌||◌, Option, none, some, String, ◌==◌, text_keys, if◌then◌else◌,
}

-- The pipeline, the transport, the server of downloads, and the blocking of signals, over a world.
pub record SystemPorts (W : Type 0) : Type 0 where
  pub start_pipeline : W → W × Bool
  pub stop_pipeline : W → W
  pub start_transport : W → W
  pub transport_running : W → Bool
  pub stop_transport : W → W
  pub start_downloads : W → W × Bool
  pub stop_downloads : W → W
  pub start_clock : W → W
  pub stop_clock : W → W
  pub block_signals : W → W × Bool

module _ {W : Type 0} (ports : SystemPorts W) where
  abbrev shut_down : W → W
  shut_down w =
      ports.stop_pipeline (ports.stop_transport (ports.stop_downloads (ports.stop_clock w)))

  -- A failure of the downloads is not fatal.
  abbrev serve : W → W × ℕ
  serve w =
      let (downloads, bound) = ports.start_downloads w in
      let (masked, blocked) = ports.block_signals (ports.start_clock downloads) in
      (shut_down masked, if blocked then 0 else 1)

  abbrev with_transport : W → W × ℕ
  with_transport w = if ports.transport_running w then serve w else (ports.stop_pipeline w, 1)

  -- With the exit code.
  unfoldable pub main : W → W × ℕ
  main w =
      let (started, running) = ports.start_pipeline w in
      if not running then (started, 1) else with_transport (ports.start_transport started)

-- ConfigReturn: whether a file was read, and its data.
pub record ConfigReturn (D : Type 0) : Type 0 where
  pub success : Bool
  pub data_ : D

pub record ConfigData (C D S N : Type 0) : Type 0 where
  pub calibration : C
  pub device : D
  pub storage : S
  pub wifi_direct : N

-- The constructor of ConfigLoader: it throws for any other type of files.
abbrev pub supports : String → Bool
supports file_type = file_type == "json"

module _ {C D S N : Type 0} where
  -- `none` is an exception.
  unfoldable pub get :
      ConfigReturn C
      → ConfigReturn D
      → ConfigReturn S
      → ConfigReturn N
      → Option (ConfigData C D S N)
  get calibration device storage wifi_direct =
      if not device.success
        || not calibration.success
        || not storage.success
        || not wifi_direct.success
      then none
      else some (record {
        calibration = calibration.data_;
        device = device.data_;
        storage = storage.data_;
        wifi_direct = wifi_direct.data_;
      })
