-- ===== src/Lib.antt =====
-- MAVCam: a verification library for the camera manager of a drone.
--
-- The program has two ways to a camera. The MAVLink client (src/mav_client) answers a ground station;
-- it drives the cameras in its own process (CameraLocalClient), or asks the camera service over gRPC
-- (CameraRpcClient), whose server (src/mav_server) converts messages and drives the camera in its
-- camera plugin. The local client also listens for an object tracker (src/tracking) and keeps its
-- settings in a file (src/camera_param). Paths are from the repository's root.
--
-- Which file models which part:
-- - Results.antt: the result codes of the four layers and their conversions.
-- - MavClient/: the handlers that mav_client.cpp gives to the servers of MAVSDK (Handlers), the
--   interface of camera_client.h with both clients behind it (Clients), the reports that go back
--   (Feedbacks, Params), the command line of mav_client_bin.cpp (Options), and the start and the end of
--   the run loop (Runloop).
-- - Local/: CameraLocalClient, src/mav_client/camera_local_client.cpp. Device has the interfaces of
--   what it calls, State its fields, Startup the init functions with the end of a client (Shutdown)
--   and its whole life (Pointers, Lifecycle), DeviceFiles the readers of the device's files,
--   Information the two descriptions of the camera, Preview the frames that are drawn, Capture the
--   photos and videos, SdCard the storage, Settings the settings with their handlers, the AI
--   function, the reset and the values restored at start-up, Session all of these in any order.
-- - Remote/: CameraRpcClient, src/mav_client/camera_rpc_client.cpp. Decode has the readers of the
--   messages, Operations the calls, EndToEnd the client and the service together.
-- - Service/: the handlers and subscriptions of src/mav_server/plugins/camera/camera_service_impl.h,
--   over any camera; Plugged forwards them to the plugin, as camera.cpp beside it does.
-- - Rpc/: the messages of the camera service and the conversions of camera_service_impl.h.
-- - Camera/: the types of the camera plugin (Types, src/mav_server/plugins/camera/camera.h), and their
--   comparison (Field, Compare) and printing (Print) in camera.cpp beside it.
-- - Plugin/: the camera plugin, src/mav_server/plugins/camera/camera_impl.cpp. Plugin.antt and
--   Operations have the settings, Prepare the start, Calls the photos, videos, modes and queries.
-- - Tracking/: the tracking server, src/tracking/tracking_server.cpp. Lines is the receive loop, Frame
--   the parser of a line, Control the packet of a command, Server the state and its operations.
-- - Server.antt: the server program, src/mav_server/mav_server.cpp and mav_server_bin.cpp; Options is
--   its command line. CommandLine.antt is the loop over arguments that both programs have.
-- - Watch.antt: the watchdog, src/mav_watch/mav_watch.cc.
-- - Log.antt: the messages of src/base/log.h and the log files of both programs.
-- - Param.antt: the parameter store, src/camera_param/camera_param.cc.
-- - Prelude/: tests on numbers and texts, lists, string maps, integers, std::stoi.
--
-- Every operation is a function from the state before to its answer and the state after. An exception,
-- std::terminate, a call through a null pointer or a call that never returns is `none`. Drivers,
-- storage manager, sockets, shell, clock, JSON library and the gRPC stub are parameters: records of
-- functions on a world `W`, which they may change in any way. What goes to the servers of MAVSDK is a list of the messages sent. `F`
-- stands for float, whose operations are parameters too. What a C++ variable holds before it is given
-- a value is a parameter of the device.
--
-- Locks: the mutexes of the local client and of the tracking server make each operation one step, but
-- for set_ai_function, which holds none: there the server's thread acts whenever the client waits for
-- a shell command or for the thread to end (Settings/Ai, Meanwhile, Frames), in any way the host
-- gives. Elsewhere the thread contributes its own steps. The mutex of the RPC client is a flag of its
-- state, since the code can take it twice. A promise of the service is a number. The flags against a
-- second reset or a second formatting are modelled; since the program waits for both tasks, a call
-- returns when its task is over.
--
-- Fuel: the inner receive loop has one more than the bytes that are pending; each round takes away one
-- byte at least. std::to_string has one more than the number, which has fewer digits.
--
-- Interrupts: the run loop of the client and the process of the server take a list of events, each a
-- step of the main thread or an interrupt, in any order; for the server also a subscription that opens
-- or ends, since its shutdown waits for those that are open.
--
-- Not modelled: what usage prints; the connection that MAVSDK makes and the server that gRPC builds,
-- which are Booleans; the threads that wait for a promise; the code that protobuf and gRPC generate;
-- templates, patches and examples.
pub mod Prelude
pub mod Camera
pub mod CommandLine
pub mod Local
pub mod Log
pub mod MavClient
pub mod Param
pub mod Plugin
pub mod Remote
pub mod Results
pub mod Rpc
pub mod Server
pub mod Service
pub mod Tracking
pub mod Watch
