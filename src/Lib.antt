-- ===== src/Lib.antt =====
-- The vLLM Responses gateway turns the events of a model run into the stream and the response of
-- the Responses API. This library models the core of that path, in
-- responses/python/vllm_responses of the repository:
--
--   model events -> normalizer -> normalized events -> composer -> stream events -> SSE frames
--                                                        |
--                                                        v
--                                         final response -> response store
--
-- Files and code:
-- - Prelude and its children: names of the libraries passed on, tests on numbers, lists measured by
--   native numbers, texts (a Python str is the list of its code points), dictionaries as association
--   lists, results.
-- - CodeArgs: _CodeJsonArgsExtractor of responses_core/normalizer.py, with feed, _find_value_start
--   and the cut of the buffer. Decoder is the independent description of a JSON string, Feeds the
--   refinement, Escaping the meaning of JSON escapes, Handshake the search behind the usual header,
--   Surrogates and Window two defects, Search and Total the ends of the loops.
-- - Events: responses_core/models.py. Items and Stream: the output items, the response and the
--   stream events of types/openai.py, with the fields that the composer sets.
-- - Json: JSON values, with the standard library's json as a record of functions.
-- - Events/Scopes: which events open an item, and which go on with one.
-- - Normalizer: PydanticAINormalizer of responses_core/normalizer.py. State has its events, its maps
--   and the parameters, Reasoning and TextCalls the functions behind raw reasoning and tool calls
--   that came as text, Starts, Deltas, Ends and Outcomes the handlers, and Normalizer itself on_event
--   and the loop over a stream. Shapes says which streams are well-formed, Held what the normalizer
--   holds meanwhile; Scoping and its children take every handler through it; Thinking is about the
--   deltas of raw reasoning.
-- - Mcp: tools/mcp. Results and Redaction are about error texts and payloads of utils.py, Names and
--   Registry about the names under which the model sees tools, Policy and Headers about policy.py,
--   Resolver, Listing and Resolving about resolver.py.
-- - Engine: the streams of lm.py and, in Failures, lm_failures.py: normalizer, composer and the
--   failure of the upstream put together; an upstream may also raise an exception that the engine
--   does not report.
-- - Composer: ResponseComposer of responses_core/composer.py. Composer/State has the state and the
--   actions; an action gives the new state, the events yielded so far and a value or an exception,
--   since a generator has delivered what it yielded before it raises. One child holds the handlers
--   of each kind of item. The objects _ItemState are shared, so they live in a list of states and
--   the dictionary holds places. Tracks has what it is for an action to keep to a relation between
--   states and events, Rules the record of rules that such a relation fills, and Handlers applies
--   any such record to all handlers; Numbering, Indices, Finished, Safety, Apart (with Places) and
--   Keys fill it. Endings draws on Finished, Lookups on Apart; with Successes, what each handler
--   comes to, Keys gives Scoped, runs on scoped events, and Closing, runs that end with the usage
--   event.
-- - Sse: stream_responses_sse of responses_core/sse.py, over the finished list of events.
-- - Store: DBResponseStore of responses_core/store.py. Instructions has the functions on messages,
--   Table get and put_completed, Rehydrate rehydrate_request; the laws are in Caching, Puts,
--   Conversations, Transparency and Privacy. pydantic (dumping, validation) is a record of functions,
--   and the law that needs it to validate what was dumped takes that as the hypothesis IsFaithful,
--   which leaves out what a dump by field names loses: excluded fields, and payloads with a JSON
--   schema as the text format of the response.
--   The cache's server may stop and come back; entries do not expire.
-- Choices:
-- - The extractor's while loops run on fuel: three rounds of the outer loop, and the length of the
--   buffer and two more for the search. CodeArgs/Total proves that neither runs out.
-- - What pydantic_ai computes of a part or a result is a field of it; json, pydantic's validations,
--   hashlib, urlsplit and ipaddress are functions that the definitions take.
-- - The normalizer's events of a whole stream come before the composer's in the model of the engine:
--   the composer has no effect on the normalizer, and its exception is reported first.
-- - uuid7, the clock and the validation of web search sources by pydantic are fields of an
--   environment that the handlers take. A code that is no text fails where the composer builds its
--   event, as pydantic does there; the number drawn for that event is not counted, since nothing
--   follows it.
-- - Events hold objects as they are when the event is yielded, as the encoder of the stream reads
--   them.
--
-- Not modelled: the runtime client and the toolsets of MCP, web search, code interpreter processes,
-- building of agents and their settings, configuration, supervisors, routers, observability,
-- encryption. Numbers of tokens and times are natural numbers.
pub mod Prelude
pub mod CodeArgs
pub mod Json
pub mod Events
pub mod Mcp
pub mod Items
pub mod Stream
pub mod Normalizer
pub mod Composer
pub mod Engine
pub mod Sse
pub mod Store
