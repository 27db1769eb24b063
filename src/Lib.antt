-- ===== src/Lib.antt =====
-- The edge pipeline and the inference plane of the theft detection backend: what happens to a camera
-- frame from the capture thread to the alert on an operator's screen.
--
-- A capture thread publishes frame packets into a bounded buffer, whose pixels may live in reusable
-- slots of shared memory. The pipeline aligns the cameras into bundles, tracks persons and assigns
-- them identities. Crops of tracked persons go to the inference plane: the manager routes each to its
-- camera's scheduler, which keeps a window of crops for each person, tests a gate and a cooldown and
-- hands the window to a queue that keeps only the latest batch of a person. The orchestrator takes the
-- batches, asks the model server for scores, smooths and classifies them, and delivers the results to
-- websockets, Kafka and the database. Annotated frames go to the viewers over WebRTC.
--
-- The files, with the code they model, all under backend/src:
--   Base                      Python's dictionaries, lists, integers and strings
--   Pipeline/Packets          opencv_pipeline/contracts.py: DropPolicy, FramePacket
--   Pipeline/SlotStore        opencv_pipeline/buffering/frame_buffer.py: _SharedMemoryFrameStore
--   Pipeline/FrameBuffer      the same file: FrameBuffer
--   Pipeline/Synchronizer     opencv_pipeline/buffering/synchronizer.py: MultiCameraSynchronizer
--   Pipeline/Identity         opencv_pipeline/identity/service.py: IdentityAssignmentService
--   Pipeline/IdentityStore    services/tracking/identity/milvus_store.py: MilvusIdentityStore
--   Pipeline/Runtime          opencv_pipeline/runtime.py: OpenCvPipelineRuntime
--   Pipeline/Boxes            utils/image.py: clamp_ltwh_to_frame, crop_ltwh
--   Inference/Contracts       services/inference/contracts.py
--   Inference/TemporalBuffer  services/inference/temporal_buffer.py: TemporalBufferService
--   Inference/LatestQueue     services/inference/ingress_scheduler.py: _LatestOnlyQueue
--   Inference/Scheduler       the same file: InferenceIngressScheduler
--   Inference/Decision        services/inference/decision_engine.py: DecisionEngine
--   Inference/BatchBuilder    services/inference/batch_builder.py: BatchBuilder
--   Inference/Scores          services/inference/orchestrator.py: scores and their attribution
--   Inference/Delivery        the same file: _deliver_payload and its sinks
--   Inference/Orchestrator    the same file: InferenceOrchestrator
--   Inference/Manager         services/inference/manager.py: InferenceManager
--   Inference/Triton          services/inference/triton_client.py: TritonInferenceClient
--   Inference/Ingress         services/tracking/updates.py: InferenceIngressPublisher
--   Presentation/WebSocket    services/presentation/websocket_manager.py: WebSocketManager
--   Presentation/WebRtc       services/webrtc/registry.py and video_track.py
--   Cameras/Listing           services/camera/camera_repository.py: list; camera_service.py: the listings
--   Cameras/Service           camera_service.py: CameraService; camera_repository.py: its statements
--   Cameras/Urls              utils/ffmpeg.py: build_rtsp_url, mask_rtsp_url
--   Tests                     the theorems at concrete inputs
--
-- An object is a record of its fields, and a method a function from the state before to the state
-- after and the result; a method keeps its name without the leading underscore. Exceptions are results. A
-- coroutine is split where it gives up control: a broadcast is a snapshot and an eviction, with other
-- calls in between. A call that blocks returns that it waits. Clock readings are arguments, in
-- milliseconds, microseconds or nanoseconds as whole numbers. Loops are recursions on their lists, so
-- no fuel is needed but in Cameras/Listing, where a page is fetched for each unit: as many units as
-- there are hundreds of cameras, and one at least, are enough. Frames, crops, embeddings and scores are
-- type parameters; the arithmetic of floats, OpenCV, numpy, the model server, Milvus and PostgreSQL are
-- arguments of the definitions that use them; the theorems hold for all of them that meet the hypotheses, which say what is documented of them. The
-- runtime ties the parts together: it starts and stops cameras as the records say, tells the manager
-- which of them run inference, and keeps the synchronizer to the cameras whose frames arrive.
--
-- Not modelled: log lines, latencies, metrics that no theorem reads, the tasks that run the loops, the
-- wake-up of the event loop, the stages that work on pixels (capture, calibration, stabilization,
-- motion, detection, re-identification and tracking) and the bundle that the runtime passes through
-- them, the Kafka services, stream control, the probe of a camera, the output dispatcher, routes,
-- configuration and the database. These call libraries or glue the parts above together.
pub mod Base
pub mod Inference
pub mod Presentation
pub mod Pipeline
pub mod Cameras
pub mod Tests
