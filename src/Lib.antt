-- ===== src/Lib.antt =====
-- dkll collects the logs of docker containers. An agent on each host follows the events of docker and
-- sends the logs of the containers on by syslog and to files; a server reads the lines from syslog,
-- makes entries of them, stores them in MongoDB, writes them to files, and answers requests for them;
-- a client asks for entries and prints them. This is a model of these parts and of what makes them
-- correct. Code that is not in the repository is a parameter: an argument of the definitions that use
-- it, with its documented behaviour as named hypotheses.
--
-- The files, and the code that each models:
--
-- Base        bytes, the functions of the packages strings and path (Base/FilePath), decimals, integers,
--             lists
-- Errors      errors as values, and the package go-multierror, a parameter with its laws
-- Samples     test data
-- Core        app/core: `LogEntry`, `Request`, and `time.Time` as a number of nanoseconds
--   Clock     the two layouts of the package time that `parseTime` uses: the stamp of syslog, which
--             Clock/RoundTrip prints and reads back, and RFC 3339 in Clock/Rfc3339, which
--             Rfc3339/Printed prints and reads back; a text of digits has no stamp (Clock/Unstamped).
--             The time zones are a parameter, `Location`
--   Entry     app/core/logentry.go: `new_entry` is `NewEntry`, `parse_time` is `parseTime`; the clock is
--             an argument. Entry/Branches says which lines are accepted, Entry/RoundTrip what is
--             made of those with a stamp, Entry/Dated of those with a time of RFC 3339
--   Show      the `String` methods of app/core
-- Server      app/server
--   Forwarder app/server/forwarder.go: `Run` and `backgroundWriter` are two loops over one channel, a
--             step relation `Step`, since the scheduler, the ticker and `select` choose what is next.
--             Forwarder/Order is about every run, Forwarder/Shutdown about its end
--   FileLogger app/server/file_logger.go: `write_entry` is `Write`; the writers are a parameter,
--             `World`. The mutex makes `Write` one step. FileLogger/Routing and FileLogger/Delivery say
--             where the entries go
--   Syslog    app/server/syslog.go: `dump` is the `Dump` of its parser. Syslog/Pipe is `Go`: its start,
--             `go_syslog`, over a parameter `Listener`, and its two goroutines as a step relation;
--             Syslog/Passed says what passes to the forwarder
--   Mongo     app/server/mongo.go: the driver is a parameter, `Driver`; Mongo/Query is `makeQuery`,
--             with its meaning in Query/Meaning and its panics in Query/Panics; Mongo/Store is
--             `Publish`, `LastPublished` and `Find` over a parameter `Database`; Store/Selection says
--             what `Find` returns, Store/Published what `Publish` stores and caches. Mongo/Init is
--             `NewMongo`
--   Rest      app/server/rest_server.go: the three handlers over a parameter `Service`;
--             Rest/Timeout is the timeout of a stream. Rest/Router is `router` and what `Run` sets up,
--             over a parameter `Packages`, the middleware; Router/Answered says what is answered to a
--             request, Router/Ended when a stream without records ends
-- Agent       app/agent
--   Notifier  app/agent/docker_notif.go: which containers' events are passed on
--   EventLoop app/agent/event_loop.go: `on_event` is `onEvent`, `run` is `Run`, over the sequence of the
--             events that it receives before it is cancelled
--   Streamer  app/agent/docker_logger.go: `Close`, and `Run` with fuel; Streamer/Closing is about
--             the result of `Close`, and Streamer/Goroutines has `Run`, `Wait` and the callers of
--             `Close` as a step relation over the channel `done`
--   Watched   the events that the notifier passes on to the event loop
--   Listening app/agent/docker_notif.go: `new_event_notifier` is `NewEventNotifier`; its goroutine, the
--             channel, the loop and docker are a step relation. Listening/Heard says what the loop gets,
--             Listening/Followed whose logs are streamed then
--   MultiWriter app/agent/multiwriter.go: `Write`, `Close` and the JSON mode
--   Demo      app/agent/demo_mode.go: `demo_logs` is `Logs`, for the numbers that are drawn, with its lines
--             in Demo/Lines; Demo/Written says what it writes. Demo/Notified is the notifier of the demo
--             mode as a step relation, with the event loop behind it
-- Client      app/client/cli.go: `new_cli` is `NewCLI`, `activate` is `Activate`; the requests and the
--             terminal are a parameter, `Terminal`. Client/Pages puts the pages of a server together. Client/Api is
--             `getNext` and `getLastID` over a parameter `Http`, with the repeater and net/http
-- Cmd         app/cmd
--   Agent     app/cmd/agent.go: `make_log_writers` is `makeLogWriters`; Agent/Opened says which
--             destinations it opens, Agent/Names is about the names of the files, and Agent/Closed
--             about the streams whose writers it makes
--   Server    app/cmd/server.go: `run_server` is `Run`, `make_writers` is `makeWriters`; Server/Names is
--             about the names of the files, Server/Started about the errors
--   Client    app/cmd/client.go: `run_client` is `Run`, `cli_of` the client that it makes
-- Main        app/main.go: the choice of the command, and the exit status
-- Reading     the client at the handlers over the store: Reading/After says which entries a request
--             selects, Reading/Printed what the client prints
-- Writing     the forwarder with the store as its publisher: Writing/Stored says what is stored
-- Journey     the forwarder, the store, the handlers and the client over one collection whose
--             identifiers grow in the run: Journey/Grown says what the collection holds after the batches,
--             Journey/Delivered what a client prints of the accepted lines
-- Sending     the agent's writers of syslog, `NewEntry`, and the network between them: the messages, the
--             datagrams that the server reads and its parser are a parameter, `Wire`
--
-- The parts meet as in the code: the forwarder calls `new_entry` and hands batches to a publisher and
-- entries to a file writer; the handlers call a store that the server passes them; the client reads what
-- the handlers send; the notifier's events are those of the event loop, whose writers are multi-writers
-- that the agent's command makes; the commands put the parts together, and `main` chooses one. Reading
-- and Writing put the server's parts together in the two directions, Journey from a line to the print, and
-- Sending puts the agent before the server.
--
-- Bounds: the channel of the forwarder has 10000 places, its batches end at 1000 entries, the channel of
-- the syslog server has 10000 places and the notifier's 100, a page has 1000 entries at most;
-- they are the constants of the code. Numbers that the code keeps in an `int` are integers without a bound, but `atoi` refuses what does not fit in
-- 64 bits. Fuel: the loop of the client takes a number of turns, and one turn more than there are entries
-- is enough; the stream of the REST server and the repetitions of the container streamer take a number
-- of turns, and running out of them says that the loop still runs. All other functions are total.
--
-- Outside code: what the driver of MongoDB writes has times in whole milliseconds (`kept_row`), and its
-- identifiers need not grow (`IsGrowing`); JSON replaces the bytes of a text that are not UTF-8
-- (`to_utf8`); a message of syslog ends with a new line, which the server trims (`IsWire`); an attempt of
-- the client may go back to the start of its body (`Http.post`).
--
-- Not modelled: the parsing of flags, the set-up of logging and the catching of signals in app/main.go;
-- the sockets of the syslog server, the listening of the REST server and the requests to docker, which
-- are calls of packages; the time between ticks; texts that are only logged; the
-- wrapping of errors, of which the message is kept.
pub mod Base
pub mod Samples
pub mod Errors
pub mod Core
pub mod Server
pub mod Agent
pub mod Client
pub mod Cmd
pub mod Main
pub mod Reading
pub mod Writing
pub mod Journey
pub mod Sending
