-- ===== src/Lib.antt =====
-- Streamly plays films, series and television channels into Discord voice channels. A bot's
-- commands (internal/bot) look up a title in catalogue services, take the guild's worker from a
-- pool of sessions (internal/pool), and let it stream: the pool opens a media source
-- (internal/source), runs a transcoder (internal/transcode) and hands its packets to the voice
-- transport (internal/streamer), which paces them, rewrites the H.264 parameter sets and encrypts
-- them. Intro timestamps come from a service (internal/introdb), captions from others
-- (internal/captions).
--
-- Prelude: the shared names; Signed has Go's int64 over the native numbers, with its wrap-around,
-- Bits the binary digits of numbers, Text the strings as lists of code points.
--
-- H264: internal/streamer/h264_bitstream.go and the parameter sets of internal/streamer/h264.go.
-- Reader and Writer are bitReader and bitWriter, method by method (readBits is read_bits, and so
-- on); a panic is none, and a method that changes its receiver returns the new one. Each loop has
-- fuel: a round of readBits or writeBits moves one bit at least, so count rounds are enough, and
-- readUE reads one bit in each of its rounds, so eight for each byte and one more are enough.
-- Escape says what emulation-prevention bytes are. Script is a sequence of calls of a reader and a
-- writer, and Sps the scripts of rewriteSPSVUI and copyHRDParameters; a recovered panic is none.
--
-- Nal: splitNALUs, h264ContainsIDR and rewriteH264SPSInto. Each round of the split takes a byte at
-- least, so the length of the frame is fuel enough.
--
-- Introdb: Record and Skip are the records and the skip targets of internal/introdb; sort.Slice is
-- a parameter that sorts by the starts and leaves the order of equal ones open. Lookup is GetMedia
-- with its errors and the cache of cache.go, Credits is CreditsStart.
--
-- Captions: Track of internal/captions/track.go; Language and Names are the languages and the
-- episode tags of names, SubDl the choice among the answers of the subtitle service, with Resolve
-- the searches of a query, Subtitle the texts and archives of subtitle.go, and Fetch Download,
-- Fetch and Find. What the services, the archives and Go's UTF-8 answer are parameters.
--
-- Workers: the store of internal/workers/workers.go, over any JSON codec. Source: IsHlsURL of
-- internal/source/hls.go, and in Media the MediaSource of internal/source/source.go. An open body
-- is the list of the bytes that the connection has still to send; a Round holds what the outside
-- answers in one turn of the loop of Read, so a run of Read takes a list of rounds. discard drops
-- one byte at least in each round.
--
-- Media: the ranking of qualities, internal/media/qualities.go, with QualityHeight,
-- StreamFilePreference and PickQuality.
--
-- Bot: AutoNext is internal/bot/autonext.go: the operations on the prompts, Start the start of an
-- episode, and World the goroutines, each standing before its next use of what they share, with the
-- buttons and commands between them; a run takes the list of what happens in turn. Numbers and
-- Episodes are the choice of the next episode, episodes.go with what it uses of stream.go. Control
-- has the buttons and commands of stream.go that act on a stream, and the positions of seek.go.
--
-- Transcode: Pause is pauseState and the cards of a Session of internal/transcode/transcode.go,
-- Opus is opus_duration.go. Streamer: Clock is mediaClock and Sender mediaSender of
-- internal/streamer/play.go; Run puts the operations of both pumps in any order. Of the peer
-- connection there are the two timelines, as sums of durations, the frames that are sent, and what
-- the native sends answer. Key
-- is utils.go. Waiting is nextPacket once video has started and the peer is found: what select takes
-- in turn, at the times of its timers; a card takes no time.
--
-- Pool: internal/pool/pool.go. Session is the state of a guild's worker, Control the operations on
-- it (Play, PlayReusing, Stop, Pause, Resume, Seek, Release, the start and the end of runLoop),
-- Registry the pool's map of sessions (Acquire, Active, Swap, SetKey), Live the loop of playLiveHLS
-- and Vod that of playVodHLS; Progressive is the loop of playProgressive, Cta the messages of
-- playback.go. An operation returns the new session and the list of the calls it makes of the
-- outside: contexts, transcoder, voice, callbacks. The clock, the answers of URL resolvers and the
-- results of segments are arguments. A live loop runs until its context is done, so its trace is as
-- long as the list of the outside's answers; a retry loop is a recursion on the retries left.
--
-- Not modelled: network, files, the database and the bindings of native libraries, which are calls
-- of the outside; the bot's other command handlers, the catalogue clients, the gateways, the
-- drawing of cards and the credits trigger; locks, since each operation is one step, but for SetKey,
-- which takes the pool as it finds it after the login.
pub mod Prelude
pub mod H264
pub mod Introdb
pub mod Captions
pub mod Source
pub mod Pool
pub mod Media
pub mod Transcode
pub mod Streamer
pub mod Bot
pub mod Workers
