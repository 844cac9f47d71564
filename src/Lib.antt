-- ===== src/Lib.antt =====
-- PlumbrC: redaction of secrets in log lines.
--
-- A pattern set holds patterns, each a literal and a regular expression. The literals go into an
-- Aho-Corasick automaton, which finds candidates in a line; the regular expressions verify them;
-- the redactor sorts and merges what is verified and writes the line with replacements. All memory
-- comes from a bump allocator.
--
-- Which file models what (paths from the repository's root):
-- - Arena: src/arena.c. `Arena` is the struct, `init`, `alloc`, `reset`, `used` and `destroy` are
--   the functions arena_*. `mmap` enters as the address it gives.
-- - Automaton: src/aho_corasick.c in the configuration PLUMBR_DFA_COMPRESSED. Trie has ac_create,
--   ac_new_state and ac_add_pattern; Build has ac_build, with the compressed rows in Compress;
--   Search has the searches, and Suffix the words that the transitions stand for.
-- - Pattern: src/patterns.c. `create_set`, `add`, `get` and `count` are patterns_create, _add, _get
--   and _count. Path and Load have patterns_load_file and patterns_load_directory, Build has
--   patterns_build. PCRE2's compiler and the file system are parameters.
-- - Redactor: src/redactor.c. Create has redactor_create; Process has verify_ac_matches and the phases
--   of redactor_process, with PCRE2's matcher and the trigger filter as parameters; Apply has redactor_apply. `qsort` is a
--   parameter with the record `IsSort` of what it promises.
-- - Filter: src/amd/sse42_filter.c. `has_triggers` is sse42_has_triggers with SSE 4.2, the instruction
--   being a parameter with the record `IsEqualAny` of what it promises; `has_triggers_scalar` is it
--   without, and `build_triggers` is sse42_build_triggers.
-- - Server: src/server.c. Json has extract_json_text, json_unescape and json_escape under their names;
--   Queue has the work queue, one step for each stretch between lock and unlock; Redact has
--   handle_redact, Batch has handle_redact_batch, Http the reading of a request over a script of what read returns, and Route the
--   request line and the choice of the handler.
-- - Hwdetect: src/hwdetect.c. The settings derived from a machine's description.
-- - Libplumbr: src/libplumbr.c. The calls libplumbr_redact, _redact_inplace, _redact_batch,
--   _redact_buffer, _get_stats and _reset_stats, over `Redactor.Client.Ops`, which is what a client
--   calls of a redactor. malloc is a test of the size asked for.
-- - Pipeline: src/pipeline.c. process_single_threaded, from Io through a redactor to Io/Write; Batches
--   has the loop of process_parallel_new, over the record `Workers` of what it calls of Parallel.
-- - Lines: the loop over the lines of a text, which src/libplumbr.c and src/server.c share.
-- - Io: src/io.c. io_refill and io_read_line, over a script of what read returns; Io/Write has io_write,
--   io_write_line and io_flush, over a script of what write returns.
-- - Parallel: src/parallel.c. The ranges of the workers, the body of worker_func, and a batch as a
--   step relation, one step for a line of one worker and one for each passage of a barrier.
--
-- How they interact: Pattern and Automaton allocate from Arena; Pattern owns automata; Redactor
-- reads replacements from a pattern set and takes the filter as a parameter; Libplumbr and Parallel are
-- clients of a redactor, and Server is one of Libplumbr.
--
-- Conventions: an address or a byte is a number; size_t arithmetic wraps at 2 ^ 64 where the code can
-- wrap. An array is a function from its index or a list of its cells in use. NULL is `none`, and a
-- read through a NULL pointer or outside an array that the code does not exclude is `none` of an outer option.
--
-- Bounds and fuel: the output chains of a search have the number of states as fuel, since each
-- output link leads to a state of smaller depth, which is below that number; the breadth-first loop of the build has it too, since
-- each state is queued at most once, and gives no result if the queue is not empty then. The loop of json_unescape has the text's length
-- as fuel, each round reading a byte. The loops of io_write, of a pattern file and of
-- a text's lines, and the elements of a batch, have the number of bytes as fuel, each round taking a
-- byte; the growth of a reply's buffer has 64 doublings. io_read_line takes its fuel as an argument: a round empties the
-- buffer, takes a result from the script or ends.
--
-- Not modelled: prefetch hints, messages on stderr, the flat-only build of the automaton, and the
-- components that are pure I/O, bindings or generated code. A redactor over a pattern set without an
-- automaton is outside the model: the cold scan would read through NULL, and finds nothing there here;
-- `patterns_build` faults on such a set before.
pub mod Prelude
pub mod Arena
pub mod Automaton
pub mod Pattern
pub mod Redactor
pub mod Server
pub mod Hwdetect
pub mod Io
pub mod Filter
pub mod Parallel
pub mod Lines
pub mod Libplumbr
pub mod Pipeline
