-- ===== src/Lib.antt =====
-- A verification library for the firmware under firmware/esp32s3, the edge device of the voice
-- assistant: it records audio, looks for the keyword, and streams the command to a server.
--
-- Parts and files. Paths without a directory are under firmware/esp32s3/components.
-- Ring: ring_buffer/include/ring_buffer.h and ring_buffer/src/ring_buffer.cpp, `class RingBuffer`.
-- `push`, `get_last` and `read` are `Push`, `GetLast` and `Read`; `contents` is what it holds.
-- Ring/Locked has the same calls as steps of tasks that share the buffer: the accesses behind the
-- mutex one at a time.
-- Trigger: trigger_state_machine, `class TriggerStateMachine`. `update` and `force_state` are
-- `Update` and `ForceState`; the state that `Update` returns is the field `state`.
-- Codec: lan_transport/src/protocol_codec.cpp, `EncodeHeader` and `DecodeHeader` on byte lists.
-- Transport: lan_transport/src/lan_transport.cpp, `class LanTransport`, one function for each
-- method, over the sockets of Net. Net/Loopback is a network for the tests.
-- Transport/Reliable is the transport on a network without failures, Transport/Partial on one that
-- may take fewer bytes than it is given, Transport/Framing how a receiver takes its byte stream
-- apart.
-- Features: feature_extractor, `class FeatureExtractor`. Audio: audio_capture, the mock source;
-- Audio/Contract is the interface of audio_capture.h that it fills.
-- Metrics and Kws: runtime_metrics and kws_inference.
-- App: main/app_main.cpp under firmware/esp32s3. App/Capture is `AudioCaptureTask`, App/Keyword
-- one round of `KwsTask` and App/KwsTask the whole of it, App/Streaming one round of
-- `StreamingTask` and App/StreamingTask the whole of it, App/MetricsTask one of `MetricsTask`,
-- App/Setup `WifiInit` and `app_main`, App/Globals the shared objects; App/Tasks interleaves the
-- accesses of `KwsTask` and `StreamingTask` to the trigger and the queue that they share, and
-- App/Firmware is the rounds of all four tasks over all that they share. Config has the constants
-- of main/app_config.h.
-- Base: lists, memory blocks, bits and C integers that the parts share. Float: the float
-- operations, as an interface of which nothing is assumed.
--
-- How they interact. The audio task pushes frames into the ring buffer; `KwsTask` takes the newest
-- window of it with `GetLast`, computes features, runs the inference and feeds its probability to
-- the trigger; a detection puts a session id into a queue. `StreamingTask` takes it off, connects,
-- sends the pre-roll and the live frames, and waits for the result; it forces the trigger back.
--
-- Conventions. A method takes the object and returns it with the result, and `none` where the code
-- would read or write outside an array. size_t and uint32_t are natural numbers with 2 ^ 32 written
-- out, bytes are numbers below 256, int16_t samples bit patterns. What `xSemaphoreTake` answers is
-- an argument. Sockets, queue, timer, random numbers, the microphone and TensorFlow Lite Micro are
-- interfaces; what the theorems rely on is a record of hypotheses
-- (`IsLawful`, `IsBounded`, `IsComplete`, `IsPartial`, `IsReliable`, `IsSteady`, `IsQuiet`,
-- `IsScored`, `IsComputed`, `IsQueue`, `IsInbox`, `IsCapture`), with instances in the tests.
-- `StartStreaming` and `ReadStreaming`, which main/app_main.cpp calls, are in no file of the
-- repository: `Board` has them as parameters that may fail, and `IsSteady` is all that the theorems
-- on `StreamingTask` assume of them. `Board` also has what the other tasks do to the ring buffer
-- meanwhile: between two accesses of `StreamingTask` they may put any samples into it.
--
-- Bounds and fuel. Ring buffers have at most 2 ^ 31 - 1 samples, since the positions are added in
-- 32 bits. Every loop is counted and runs on the code's own bound, as that over the live frames on
-- `max_extra_frames`, 266; a task's endless loop is given a list with an entry for each round.
-- `parse` takes apart as many messages as it is given fuel; a session has no more than
-- `max_extra_frames` + 3.
--
-- Not modelled: log output, but for the values of the metrics; the data of the embedded model. In
-- the firmware as a whole a round of a task is one step, but for the samples that come into the
-- ring buffer during a session; the accesses of `KwsTask` and
-- `StreamingTask` to what they share are interleaved in App/Tasks only, and those of any tasks to a
-- ring buffer in Ring/Locked only. The server, the desktop client and the training code are written
-- in Python and lie outside this library.
pub mod Base
pub mod Float
pub mod Ring
pub mod Trigger
pub mod Codec
pub mod Config
pub mod Net
pub mod Transport
pub mod Features
pub mod Audio
pub mod Metrics
pub mod Kws
pub mod App
