-- ===== src/App/Keyword.antt =====
-- main/app_main.cpp, `KwsTask`: the set-up behind `Init`, and one round of its loop. FreeRTOS's
-- queue, the random numbers and the timer are an interface; so are the feature extractor and the
-- inference of components/feature_extractor and components/kws_inference. Log lines are
-- left out.
use vaani_edge.Base.{
  ℕ, ◌+◌, ◌-◌, ◌*◌, ◌/◌, ◌%◌, Bool, true, false, not, Option, some, List, [], ◌∷◌, ◌++◌, ltb,
  if◌then◌else◌, ◌>>=◌, u32, sub32, memcpy, replicate, get_elem?, ℤ, is_zero,
}
use vaani_edge.Float.{Float}
use vaani_edge.Config.{
  window_length_samples, num_frames, num_mel_bins, hop_length_samples, frame_duration_ms,
  tensor_arena_bytes, ring_buffer_samples, tcp_send_buffer_bytes, tcp_recv_buffer_bytes,
}
use vaani_edge.Ring
use vaani_edge.Ring.{RingBuffer}
use vaani_edge.Trigger.{
  TriggerStateMachine, AppState, listening, keyword_detected, streaming, is_listening, update,
  force_state,
}
use vaani_edge.Metrics.{
  RuntimeMetrics, set_static_sizes, record_kws_inference_duration,
  record_feature_extraction_duration,
}
use vaani_edge.Kws.{KwsResult}

abbrev pub keyword_index : ℕ
keyword_index = 3

abbrev pub required_samples : ℕ
required_samples = window_length_samples + (num_frames - 1) * hop_length_samples

-- esp_random, esp_timer_get_time, and xQueueSend with no wait, which may find the queue full.
pub record Rtos : Type 1 where
  pub World : Type 0
  pub random : World → ℕ × World
  pub timer : World → ℕ × World
  pub queue_send : List ℕ → World → Bool × World

-- `compute` fills the feature buffer, or leaves an array; `run` fills the result. Each returns its
-- status too.
pub record Stages (F : Type 0) : Type 0 where
  pub compute : List ℕ → ℕ → List F → Option (List F × Bool)
  pub run : List F → KwsResult F → KwsResult F × ℤ

-- The task's variables and the objects that it shares. `requests` are the session ids that the
-- queue has taken, the newest last.
pub record Listener (F : Type 0) (os : Rtos) : Type 0 where
  pub world : os.World
  pub ring : RingBuffer ℕ
  pub window_buffer : List ℕ
  pub features : List F
  pub result : KwsResult F
  pub trigger : TriggerStateMachine F
  pub metrics : RuntimeMetrics
  pub requests : List (List ℕ)

-- An array of floats takes four bytes for each.
unfoldable pub set_sizes : RuntimeMetrics → RuntimeMetrics
set_sizes m =
    set_static_sizes tensor_arena_bytes 0 (ring_buffer_samples * 2) (num_frames * num_mel_bins * 4)
      (tcp_send_buffer_bytes + tcp_recv_buffer_bytes) m

-- A uint32_t in the memory of a little-endian machine.
abbrev pub word_bytes : ℕ → List ℕ
word_bytes r = r % 256 ∷ r / 256 % 256 ∷ r / 65536 % 256 ∷ r / 16777216 % 256 ∷ []

-- `request.session_id` from four random numbers.
unfoldable pub session_id : ℕ → ℕ → ℕ → ℕ → Option (List ℕ)
session_id r0 r1 r2 r3 = memcpy (replicate 16 0) 0 (word_bytes r0) 0 4 >>= λ a.
    memcpy a 4 (word_bytes r1) 0 4 >>= λ b.
    memcpy b 8 (word_bytes r2) 0 4 >>= λ c. memcpy c 12 (word_bytes r3) 0 4

abbrev pub is_detected : AppState → Bool
is_detected keyword_detected = true
is_detected _ = false

module _ {F : Type 0} ⦃f : Float F⦄ {os : Rtos} where
  -- The branch of a detection.
  unfoldable pub request_stream : Listener F os → Option (Listener F os)
  unfolding session_id
  request_stream s =
      let (r0, w0) = os.random s.world in
      let (r1, w1) = os.random w0 in
      let (r2, w2) = os.random w1 in
      let (r3, w3) = os.random w2 in
      session_id r0 r1 r2 r3 >>= λ id.
      let (taken, w4) = os.queue_send id w3 in
      some (
        if not taken
        then record s { world = w4; trigger = force_state listening s.trigger }
        else record s {
          world = w4;
          trigger = force_state streaming s.trigger;
          requests = s.requests ++ (id ∷ []);
        })

  -- What follows a successful inference.
  unfoldable pub judge : Listener F os → Option (Listener F os)
  unfolding request_stream
  judge s = get_elem? s.result.probabilities keyword_index >>= λ probability.
      let t = record s { trigger = update probability s.trigger } in
      if is_detected t.trigger.state then request_stream t else some t

  -- The timed call of `g_kws_inference.Run`, and its status.
  abbrev pub run_inference : Stages F → Listener F os → Listener F os × ℤ
  run_inference stages s =
      let (t0, w0) = os.timer s.world in
      let (result, status) = stages.run s.features s.result in
      let (t1, w1) = os.timer w0 in
      (
        record s {
          world = w1;
          result = result;
          metrics = record_kws_inference_duration (sub32 (u32 t1) (u32 t0)) s.metrics;
        },
        status,
      )

  -- From that call on.
  unfoldable pub infer : Stages F → Listener F os → Option (Listener F os)
  unfolding judge
  infer stages s =
      let (t, status) = run_inference stages s in if is_zero status then judge t else some t

  -- The timed call of `g_feature_extractor.Compute`, which leaves these features.
  abbrev pub with_features : List F → Listener F os → Listener F os
  with_features features s =
      let (t0, w0) = os.timer s.world in
      let (t1, w1) = os.timer w0 in
      record s {
        world = w1;
        features = features;
        metrics = record_feature_extraction_duration (sub32 (u32 t1) (u32 t0)) s.metrics;
      }

  -- From that call on.
  unfoldable pub extract : Stages F → Listener F os → Option (Listener F os)
  extract stages s =
      stages.compute s.window_buffer required_samples s.features >>= λ (features, feature_ok).
      let t = with_features features s in if feature_ok then infer stages t else some t

  -- From the `GetLast` on, which has copied `got` samples.
  unfoldable pub with_window : Stages F → ℕ → Listener F os → Option (Listener F os)
  with_window stages got s = if ltb got required_samples then some s else extract stages s

  -- One round: the new state, and how many milliseconds the task waits before the next.
  unfoldable pub kws_round : Stages F → Bool → Listener F os → Option (Listener F os × ℕ)
  kws_round stages granted s =
      if not (is_listening s.trigger.state)
      then some (s, 20)
      else (Ring.get_last granted (some s.window_buffer) required_samples s.ring
          >>= λ (ring, window, got).
              let t = record s { ring = ring; window_buffer = window } in
              with_window stages got t >>= λ u. some (u, frame_duration_ms))
