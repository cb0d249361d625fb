-- ===== src/Lib.antt =====
-- LP-700-Server puts a Telepost LP-500 or LP-700 RF power meter on the network. One goroutine owns the
-- meter's USB HID handle: it writes a report at every tick, sorts what comes back into command echoes,
-- telemetry and sample segments, and passes snapshots, scope frames and spectrum frames on. A hub
-- goroutine fans them out to WebSocket clients and answers their commands, which go back to the
-- owner's queue. Around them stand a simulator of the meter, the settings, and a check for a newer
-- release. This library models those parts and proves what makes them correct.
--
-- Which file models what:
--   Prelude          shared tests on numbers and Booleans, lists over the native numbers, Go's int,
--                    buffered channels, and the result of a fallible function
--   Meter/Snapshot   internal/lpmeter/snapshot.go: Snapshot, the name tables, CloseEnough
--   Meter/Frame      internal/lpmeter/decode.go and owner.go: the layout of a report, PollReport,
--                    StatusReport, SampleReport, isCommandEcho, isLikelyTelemetry
--   Meter/Status     decode.go: extractStatusMessage, one function per loop
--   Meter/Decode     decode.go: Decode, one function per switch
--   Meter/Command    decode.go: KnownVerbs, VerbAvailableInState, EncodeCommand
--   Meter/Writes     owner.go: Submit, drainCommands, writeReport
--   Meter/Owner      owner.go: runOnce, one function per case of its select, the emitters; Owner/Loop
--                    has the loop over events, Owner/Retry the sessions and waits of Run
--   Meter/Device     owner.go and probe.go: isLPMeter, findDevice, openLPMeter, HasLPMeterAttached
--   Meter/Hidraw     hid_linux.go: enumerateHID, findUSBDeviceDir, openHID
--   Meter/Samples    snapshot.go: SampleBytes.MarshalJSON
--   Meter/Simulator  simulator.go: applyCommand, the tick; Simulator/Loop has NewSimulator, Submit and
--                    the loop of Run with its channels
--   Meter/Probe      probe.go: Print (printFrame, formatFullFrame), Devices (runList), Recording (runDump,
--                    runCapture), Link, Capture, Steps and Samples (runSamples and its local
--                    functions), Run (RunProbe, and runProbeSubcommand of main.go)
--   Hub              internal/hub/hub.go: NewHub and Run, one function per case of its select;
--                    Hub/Messages has the registration of ServeWS, handleClientMsg, sendAck and the end
--                    of readPump, Hub/Pumps writePump and the loop of readPump, Hub/Interleaved the
--                    hub with the goroutines of all its clients
--   Config           internal/config/config.go: defaults, Load, validate
--   Backend          main.go: resolveBackend, slogLevelName, parseSlogLevel
--   Server           main.go: what main sets up, and the handler of /api/log-level, whose reads and
--                    writes of the level are steps of their own
--   Web              internal/web/web.go: WriteJSONError
--   Update           internal/update/update.go: Version and Compare (versions), Schedule
--                    (ShouldCheck), Checker (ParseRelease, New, record, checkIfDue, Status, Run),
--                    Http (fetchLatest, ServeHTTP)
--   Pipeline         the owner's Submit behind the hub, as main.go wires it, from a client's command to
--                    the wire
--   Tests            runs of the model on concrete inputs
--
-- How state and concurrency are modelled. Each goroutine is a record of its variables, and each case of
-- its select a function on that record; an interleaving is a list of cases. A buffered channel is the
-- list of what waits in it with its capacity and whether it is closed; a send on a closed channel is
-- the panic that it is in Go, the value `none`. The hub's clients are numbers, and their channels stand
-- in a store that the hub and the clients' own goroutines share. The meter behind the hub is an
-- interface, Source, which the owner's Submit fills.
--
-- Numbers. Every 16-bit field is read from two bytes and is below 65536. Powers are in milliwatts and
-- SWRs in thousandths, so a raw power unit (0.2 W) is 200 and a raw SWR unit (0.01) is 10, and the
-- deadbands of 0.5 W and 0.005 are 500 and 5. Times are numbers of nanoseconds, or of the unit of the
-- case; a time that was never set is `none`. The hub's sequence number is
-- a 64-bit word, so that its next value is taken modulo 2 to the power 64. Go's int is an integer, and the digits of a version are
-- cut at its largest value as in the source. Loops run over a list or count
-- down. The walk to the USB device makes at most eight steps, as in the source. The probe's drain takes
-- as many packets as its surroundings say come before its timer, and then one event more. Decimal
-- numbers are printed in at most 20 digits, which every uint64 has room in.
--
-- What comes from outside is a parameter: the writes of the device, the file system with its links, the
-- decoders of TOML and JSON, url.Parse with path.Clean, the HTTP client, the sockets, the simulator's
-- waves and noise, and, for the probe, a Link: the device, the reader's channel, timers and clock.
-- Texts from the wire and from the network are lists of bytes; strings.ToLower, ToUpper and TrimSpace
-- are modelled on ASCII, filepath.Join and Dir on clean paths.
--
-- Not modelled: the static web files, the JSON printing of messages other than sample buffers, the
-- deadlines of the sockets, logging, the probe's poll goroutine but for its error, and the start and
-- the shutdown of the goroutines in main.
pub mod Prelude
pub mod Meter
pub mod Hub
pub mod Update
pub mod Config
pub mod Web
pub mod Server
pub mod Backend
pub mod Pipeline
pub mod Tests
