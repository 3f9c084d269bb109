-- ===== src/Config.antt =====
-- main/app_config.h: the constants that the modelled code uses. Sizes are in samples or bytes, times
-- in milliseconds.
use vaani_edge.Base.{ℕ, ◌*◌, List, [], ◌∷◌}
use vaani_edge.Float.{Float}

abbrev pub sample_rate_hz : ℕ
sample_rate_hz = 16000

abbrev pub audio_channels : ℕ
audio_channels = 1

abbrev pub frame_duration_ms : ℕ
frame_duration_ms = 30

abbrev pub frame_size_samples : ℕ
frame_size_samples = 480

abbrev pub pre_roll_samples : ℕ
pre_roll_samples = 12800

abbrev pub ring_buffer_samples : ℕ
ring_buffer_samples = 32000

abbrev pub max_stream_duration_ms : ℕ
max_stream_duration_ms = 8000

abbrev pub num_mel_bins : ℕ
num_mel_bins = 40

abbrev pub num_mfcc : ℕ
num_mfcc = 13

abbrev pub num_frames : ℕ
num_frames = 50

abbrev pub fft_size : ℕ
fft_size = 256

abbrev pub window_length_samples : ℕ
window_length_samples = 512

abbrev pub hop_length_samples : ℕ
hop_length_samples = 320

abbrev pub consecutive_windows : ℕ
consecutive_windows = 3

abbrev pub cooldown_ms : ℕ
cooldown_ms = 1500

abbrev pub num_classes : ℕ
num_classes = 4

abbrev pub tensor_arena_bytes : ℕ
tensor_arena_bytes = 60 * 1024

abbrev pub session_timeout_ms : ℕ
session_timeout_ms = 15000

abbrev pub tcp_send_buffer_bytes : ℕ
tcp_send_buffer_bytes = 4096

abbrev pub tcp_recv_buffer_bytes : ℕ
tcp_recv_buffer_bytes = 2048

-- The threshold of the trigger, 0.80.
abbrev pub detection_threshold : {F : Type 0} ⦃f : Float F⦄ → F
detection_threshold ⦃f⦄ = f.lit 80 2

-- The characters of the strings.
abbrev pub server_host : List ℕ
server_host = 49 ∷ 57 ∷ 50 ∷ 46 ∷ 49 ∷ 54 ∷ 56 ∷ 46 ∷ 49 ∷ 46 ∷ 49 ∷ 48 ∷ 48 ∷ []

abbrev pub server_port : ℕ
server_port = 8765

abbrev pub connect_timeout_ms : ℕ
connect_timeout_ms = 5000

abbrev pub wifi_ssid : List ℕ
wifi_ssid = 82 ∷ 69 ∷ 80 ∷ 76 ∷ 65 ∷ 67 ∷ 69 ∷ 95 ∷ 77 ∷ 69 ∷ 95 ∷ 83 ∷ 83 ∷ 73 ∷ 68 ∷ []

abbrev pub wifi_password : List ℕ
wifi_password =
    82 ∷ 69 ∷ 80 ∷ 76 ∷ 65 ∷ 67 ∷ 69 ∷ 95 ∷ 77 ∷ 69 ∷ 95 ∷ 80 ∷ 65 ∷ 83 ∷ 83 ∷ 87 ∷ 79 ∷ 82 ∷ 68
    ∷ []

-- 0.98
abbrev pub pre_emphasis : {F : Type 0} ⦃f : Float F⦄ → F
pre_emphasis ⦃f⦄ = f.lit 98 2
