-- ===== src/Lib.antt =====
-- Solstein keeps podcast episodes without the ads that are put in at download time. The same episode
-- is downloaded through several exits; the region-diff module compares two downloads and keeps what
-- they share. The exits are servers of VPN providers, reached through tunnels of a pool. A feed's rules
-- say which episodes are hidden or tagged. This library models the comparison by frames, the MP3 reader
-- under it, the processor that runs it, the pipeline that prepares episodes with their database rows,
-- the tunnels, their pool and the choice of servers, the rules and the order of a feed, and signing
-- in, with the limit on failed attempts.
--
-- Base has the shared names: tests and lists over the native numbers, and loops on fuel.
--
-- Mp3 models mp3/mp3.go. Mp3/Header.antt is ParseHeader and the methods of Header; Mp3/Frame.antt is
-- Frame, File and their methods, mainDataBegin and isInfoFrame; Mp3/Tags.antt is id3v2Length and the
-- test for an ID3v1 tag; Mp3/Parse.antt is Parse, its loop cut into one round and what is returned at
-- the end; Mp3/Silent.antt is SilentFrame and crc16. Bytes are natural numbers below 256, as the
-- reader's shifts and masks take them. The loops run on fuel, one more than the length of the data,
-- since every round moves the position on by at least one.
--
-- RegionDiff models modules/regiondiff/diff.go. RegionDiff/Run.antt has the constants, options, runs,
-- segments and results; RegionDiff/Align.antt is frameHashes, align, grams, inOrder and verify;
-- RegionDiff/Edges.antt is toSegmentBoundaries; RegionDiff/Repeats.antt is removeRepeats;
-- RegionDiff/Markers.antt is trimMarkers; RegionDiff/Segments.antt is segments, check and otherGaps;
-- RegionDiff/Write.antt is write and carriers; RegionDiff/FrameDiff.antt is frameDiff, which calls
-- them in the source's order. The 64-bit hash of a frame is a parameter of the model, any
-- function, since it is seeded afresh. The order in which Go ranges over the map of markers is a
-- parameter too. Durations are whole nanoseconds. The shares and
-- tolerances of Options are exact millionths where the source has float64. Searches inside a run go
-- by the run's length, and the removal of repeats by the lists it walks.
--
-- RegionDiff/Processor.antt and its children model modules/regiondiff/processor.go: the settings and exits
-- of a feed, fetchPartner, fetchPair, recheck, finishPair, Process and ProcessBatch. The state is the log
-- of what a job asks of the pipeline; the answers, the comparison and the exits module are parameters.
-- Two downloads made together are logged one after the other. The comparison with 0.8 is exact.
--
-- Models is the rows of models/episode.go and models/feed.go. Episodes models the pipeline:
-- Episodes/Outcome.antt is recordOutcome of episodes/pipeline.go with the recipes of
-- episodes/reconcile.go, Episodes/Reconcile.antt the rest of that file; Episodes/Store.antt is
-- database/pipeline.go, the table as a list, with each statement's conditions and order written out;
-- Episodes/Jobs.antt is how an outcome is stored, noteGone, QueueEpisode and episodes/queue.go;
-- Episodes/Status.antt is viewOf. Episodes/Serve.antt is what episodes/serve.go records of a file that it
-- caches while streaming it. Episodes/Life.antt has each write of a row's state and counters as an event,
-- with the copies that jobs hold and those that were read to be saved later; writes of other columns
-- alone are left out. Episodes/Schedule.antt has the attempts at one episode in their order; what each
-- comes to, how long it takes and how long a worker leaves it waiting are given. Episodes/Resume.antt and
-- Episodes/ContentRange.antt are episodes/resume.go; what the source answers is a parameter, assumed
-- to send, with status 206, the bytes that its Content-Range names. A read takes at most one more round
-- than there are resumes, which is its fuel; the digits of a number are at most the number, which is the
-- fuel to print it. Episodes/Housekeeping.antt is the retention and the size cap of
-- episodes/housekeeping.go.
--
-- Exits models modules/exits/tunnel.go and modules/exits/pool.go. Exits/Tunnel.antt is use, release,
-- idleFor, close and closeDevice, with the calls of closeDevice that follow a release or a close as
-- steps of their own in Exits/Tunnel/Device.antt. Exits/Pool.antt is tryGet, pickKey, remove, reap and
-- closeAll; get repeats tryGet, and forget is remove. The map of tunnels is a list in the order of the
-- range, and Exits/Pool/Calls.antt lets that order change between any two calls, as it lets the users
-- of the tunnels come and go. Whether a tunnel can be opened is an argument. Exits/Health.antt and
-- Exits/Select.antt are modules/exits/select.go: what is known about a server, the tiers of an exit's
-- locations, and choose; Exits/Geography.antt is inArea and inContinent of modules/exits/geography.go on
-- the table of modules/exits/countries_table.go; Exits/Budget.antt is ExitsFit of
-- modules/exits/budget.go. strings.EqualFold and the random numbers are parameters.
--
-- Feeds models feeds/rules.go: compileRules, match, hides, episodeType, DecidingRules and CountMatches.
-- Compiling a regular expression and matching with it are parameters. Feeds/Publish.antt is
-- feeds/publish.go.
--
-- Auth/Limiter.antt models auth/limiter.go: the map of failures as a function of the key, and each
-- call under the mutex as one step. Auth/Totp.antt is auth/totp.go. Auth/Accounts.antt is the users
-- and tokens of database/user.go and database/token.go, as lists of rows; Auth/Service.antt,
-- Auth/Service/Console.antt and Auth/Service/Sessions.antt are auth/service.go, each call a
-- state-passing action that may fail (Auth/Exec.antt), and Auth/Service/Calls.antt is a sequence of
-- calls. The hash functions, base32, Unicode's tables, the pattern of usernames and what is drawn at
-- random are parameters; calls run one after another.
--
-- Not modelled: the comparison by audio (modules/regiondiff/audio.go, which works on floating-point
-- spectra) and with it the choice between the two comparisons; the configuration of the exits; the
-- jobs in flight, dropped episodes, serving and downloads of the pipeline; the feed service, rss,
-- the hashing of passwords; the web server, the rest of the database, settings, and all network and file
-- access.
pub mod Auth
pub mod Base
pub mod Episodes
pub mod Exits
pub mod Feeds
pub mod Models
pub mod Mp3
pub mod RegionDiff
