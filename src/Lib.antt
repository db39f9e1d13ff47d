-- ===== src/Lib.antt =====
-- Models of pewpew, an HTTP load tester written in Rust, and of the crates in its lib folder.
--
-- Parts, with the files that model them:
-- * lib/channel (Channel.antt and the files below it). The channels carry values between the
--   providers, the endpoints and the loggers of a load test. Channel.antt has the state that the
--   handles share (`Channel`, `Limit`, `HashSet`) and its methods; Channel/Handles.antt has the
--   handles (`Sender`, `Receiver`, `OnDemandReceiver`), their polls, clones and drops, and
--   `ChannelStatsReader::get_stats`; Channel/Handles/Calls.antt has histories of calls, where
--   `poll_ready` and `start_send` are two calls. A method takes the state and returns the new
--   one, as one atomic step; other threads act between calls, not inside one. The crates that it uses (serde_json, ahash, dashmap,
--   concurrent_queue, event_listener) are the parameter `Deps` of Channel/Crates.antt, with
--   their documented behaviour as laws; Channel/Local.antt is an instance. Counts are 64-bit and
--   wrap around. The loops of `poll_ready`, `poll_next` and `poll_demand` take fuel: two rounds
--   are enough, since a listener that is made in the first round has had no notice in the
--   second. Not modelled: log output, the order of senders by address, errors wrapped in
--   `ChannelClosed`.
-- * lib/config/src/select_parser.rs (Select.antt and the files below it), the expressions of a
--   configuration. Select/Json.antt has serde_json's values, with `f64` and `Number` as the
--   parameter `Numbers`; Select/Expression.antt the operators, the trees (`Expression`) and
--   their evaluation; Select/Precedence.antt `expression_helper`, which makes a tree of a row of
--   operands and operators. It takes fuel, and any above the length of the row and the five
--   levels is enough. A leaf of a tree, the source's `Value`, is a parameter, with an evaluation
--   that holds the data that the expression reads. Select/Paths.antt has paths and their look-
--   ups, Select/Templates.antt templates, which are made of the pairs that the grammar gives.
--   Not modelled here: `parse_expression_pieces`, and so the `!` that its grammar drops.
--   Select/Rows.antt has the rows of a select, over finite lists of values, with itertools'
--   product as the parameter `product`, and Select/Specials.antt has `RequiredProviders` with its
--   flags, a `u16` as its bits. Not modelled: the grammar,
--   streams of values.
-- * lib/config/src/expression_functions.rs (Functions.antt and the files below it), the
--   functions that an expression can call, and `FunctionCall` of select_parser.rs.
--   Functions.antt has their errors and arguments: an argument is a literal or a parameter `X`
--   with its evaluation. Functions/Unary.antt has `Encode`, `Join`, `Pad` and `Match`,
--   MinMax.antt, Branch.antt (`If`), Sequences.antt (`Range`, `Repeat`, `Entries`, `Collect`)
--   and Replace.antt the others, Calls.antt the functions by name, and Streams.antt the streams
--   of `If` and `Collect`, whose loop takes fuel: it ends within a round more than its argument
--   has values. A constructor gives a call or, if it can fold its arguments, a value. Regexes,
--   encodings, random numbers, `f64` and serde_json's map are the parameters `Foreign`,
--   `Library` and `Numbers`. Not modelled: `Epoch`, `JsonPath`.
-- * src/stats.rs (Stats.antt and the files below it), the statistics. BtreeMap.antt has the
--   standard library's map; Stats.antt the buckets and the methods of `Stats`, with the clock as
--   an argument and the stats file as the list of its messages; Stats/Counts.antt the counters,
--   which wrap around or saturate; Stats/Ledger.antt the loop of `create_stats_channel` over
--   responses and ended buckets. A failed assertion ends the loop with `none`. hdrhistogram,
--   texts and tags are the parameter `Externals` of Stats/Crates.antt. Not modelled: the text
--   for the console and of the file, start messages, a change of providers.
-- * lib/zip_all (ZipAll.antt and the file below it), which zips streams: the loop over the
--   elements and its early returns, with the streams as the parameter `TryStream`.
-- * lib/for_each_parallel (ForEachParallel.antt and the file below it), which runs a future for
--   each item of a stream: one poll, its loop on fuel. A round that goes on has pulled an item
--   or ended a future, so fuel above twice the items left and the futures is enough. The stream,
--   the closure and the spawned futures are the parameter `Tasks`.
-- * src/providers/line_reader.rs (LineReader.antt and the files below it), which gives a file's
--   lines as values: its buffer, positions and loop, and in LineReader/Values.antt
--   `LineReader::new`, `seek` and `next`. The file is the parameter `Files`, and a line's value
--   a function of its bytes. The loop takes fuel: a round reads a byte or finds the end, so that
--   two rounds more than the bytes left are enough. LineReader/Whole.antt has files that are
--   read to their end.
-- * lib/mod_interval (ModInterval.antt and the files below it), the times at which an endpoint
--   starts its requests: the segments of a rate, `transition_from`, and the state of the stream
--   that `into_stream` makes, polled at the times that are its argument. Durations and instants
--   are in nanoseconds, an `f64` is of the parameter `Floats`, and `none` is a panic.
--   ModInterval/Profile.antt has the whole profile of a rate, which the stream is measured
--   against. Not modelled: the timers.
-- * src/request.rs (Requests.antt and the files below it), the endpoints. Requests/Limits.antt has
--   the limit on parallel requests, the closure that `Endpoint::into_future` hands to
--   `ForEachParallel`, with the lengths and limits of the endpoint's channels as an argument of
--   each call. Requests/Responses.antt has
--   src/request/response_handler.rs: the fields of a response that are given to expressions, and
--   the choice of the provides by their where clauses. What the response holds and what a where
--   clause comes to are parameters. Requests/Sends.antt has `BlockSender`, with the channel or
--   logger that it sends to as the parameter `SinkOps`, of which Requests/Sends/Channels.antt
--   makes a channel with the methods of Channel.antt. Requests/Streams.antt has
--   `add_start_stream`. Not modelled: the requests themselves.
-- * lib/select_any (SelectAny.antt and the files below it), a stream of the items of several
--   streams, whose poll is the parameter `poll`.
-- * src/providers.rs (Providers.antt and the files below it). Providers/Loggers.antt has the loggers,
--   whose clones share a count that is an argument of each call; the channel to the writer is the
--   parameter `Writers`. Not modelled: the providers of values.
-- Other parts meet in the source only: endpoints and providers (mostly not modelled) send through
-- channels, evaluate expressions, and report to the statistics.
mod Prelude
pub mod Channel
pub mod Select
pub mod BtreeMap
pub mod Stats
pub mod ZipAll
pub mod ForEachParallel
pub mod Functions
pub mod LineReader
pub mod ModInterval
pub mod Requests
pub mod SelectAny
pub mod Providers
