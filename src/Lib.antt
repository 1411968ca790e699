-- ===== src/Lib.antt =====
-- Verification of contestscore, a live amateur-radio contest scoreboard: a Node.js server that
-- ingests the packets of contest loggers, stores QSOs and scores, and serves pages with rates and
-- statistics. Source paths are from the repository's root.
--
-- Prelude holds the shared notation, list lemmas and the strings of the program; JsMap is the Map of
-- JavaScript, with its insertion order.
--
-- Bridge: src/state/bridgeStatus.js. The map of stations is a value, each function of the module a
-- function on it, the clock an argument. The timer that calls checkForChanges is not modelled.
--
-- Lookup: src/lookup/index.js. Suffix is stripSuffix. Service is createLookupService: its `let`s and
-- containers are a record, and the asynchronous `run` is cut at its awaits, so that `phase` says
-- which await the loop is at (idle, the back-off sleep, a request, the gap between requests, the
-- moment before the promise is cleared) and every resumption is one function. Lookup.Reach.Step is
-- the relation of all events in any order. The provider's client is left open here: a request ends
-- with any record or fails with any error. isCached and Date.now() are arguments. Listeners of the
-- emitted result do not throw. Config is resolveLookupConfig, with the environment as an argument.
--
-- Store: src/db/queries.js and src/db/schema.sql, the table qsos: a list of rows in the order of
-- their ids, a row being a function from columns to values. A statement that violates a constraint
-- throws (`none`). The values are null, texts and natural numbers;
-- the affinity of columns, by which SQLite may store a text as a number, is not modelled.
--
-- Rates: public/js/stats.js and tui/index.js. Window is bestWindow and bestWindowCount; the inner
-- `while` has as many rounds of fuel as there are times, which is enough because it moves the second
-- pointer along them. Dedupe is dedupeForRate and dedupeForScoring; parsing a date is an argument.
--
-- Country: src/analyze/cty.js and enrichGeo of src/analyze/geo.js. Cty holds the two maps as parseCty
-- builds them, from lines that are split into an entity and its alias tokens; the regular
-- expressions that split them and the coordinates are left out. Grid is gridToLatLon.
--
-- Analyze: src/analyze/cabrillo.js with src/analyze/bands.js. Tokens has the helpers on one token,
-- Cabrillo the parser; parseFloat is an argument, and frequencies are whole Hz.
--
-- Analyze.Contests and Analyze.Grammar: src/analyze/contests.js; the regular expression of a contest
-- is a list of alternatives, and a QSO is the call, the tokens and the columns that an exchange
-- fills. Analyze.Adif: src/analyze/adif.js; Tags scans a record for its fields, Records is parseAdif.
-- Analyze.Analysis and Analyze.Live: src/analyze/index.js without newId.
--
-- Packets: src/parsers, src/udp. Fields are the children of a packet's root element as xml2js returns
-- them, plain texts each (it makes arrays of repeated children, which are left out); xml2js is an
-- argument, as are Number() and String(). Contact and Score are the parsers,
-- Dispatch the routing by root element in udp/dispatch.js and the listeners, Events the handlers of
-- udp/index.js: its state is the QSO table of Store and the queue of Lookup, and each packet comes
-- with the world at its time (clock, callsign cache, country file).
--
-- Broker: hamdata/broker.js with src/lookup/ttl.js. The promise chain is the list of the requests on
-- it, and Broker.Flight.Step relates the states before and after every event. The upstream client
-- is an argument of the steps.
--
-- Solar: src/solar/index.js with the table solar_snapshots, whose times are numbers of seconds. The
-- loop over the pages of the shared service runs on fuel; one round more than there are rows to copy
-- is enough.
--
-- Tables: the other tables of src/db/queries.js: Radios, Scores, Cache with the settings and the reset,
-- Archive for analyzed logs, Rate for the rate meter and the filtered list of QSOs.
--
-- Packets.Broadcast: what src/udp/index.js stores and sends for a radio, a score and a lookup, with
-- freqToBand. Country.Location: where src/analyze/geo.js puts a station on the map.
--
-- Charts: the numbers behind the charts of public/js/charts.js. A time is in milliseconds, and `none` is
-- NaN. The charts over time have at most 2000 buckets, as in the code; the windows of the rate
-- histogram, of which the code bounds no number, have a round of the loop each. Bars has the charts
-- that count by key, hour, length and rate.
--
-- Hamqth: src/lookup/hamqth.js. The service and the clock are arguments, and the client keeps the list
-- of the requests that it sent.
--
-- Numbers are natural: milliseconds, ids, flags, counts and points are taken not to be negative. Text is
-- a list of character codes, and toUpperCase is that of ASCII.
--
-- Not modelled: HTTP, sockets and rendering, which only call these parts, the Go relay agent, and
-- the tools and scripts.
pub mod Prelude
pub mod JsMap
pub mod Bridge
pub mod Lookup
pub mod Store
pub mod Rates
pub mod Country
pub mod Packets
pub mod Hamqth
pub mod Solar
pub mod Tables
pub mod Charts
pub mod Broker
pub mod Analyze
pub mod Tests
