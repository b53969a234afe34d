-- ===== src/Lib.antt =====
-- A verification library for nlutils, a C library of utilities by Nitrogen Logic.
--
-- The program is a collection of components that share allocation and logging: a queue (src/fifo.c),
-- escaping of text and data (src/escape.c), percent-encoding (src/url.c), string helpers (src/str.c),
-- arithmetic on times (include/nl_time.h), an associative array over the queue (src/hash.c), a tagged
-- union that prints through the escaping (src/variant.c), a parser of pairs that unescapes them and
-- fills the tagged union or the array (src/kvp.c), a parser of terminal colors (src/term.c), contexts
-- that keep the threads a program has started (src/thread.c), requests that run curl as a process
-- (src/url_req.c), and others. All paths are from the repository's root.
--
-- Prelude          names of the standard library, Boolean tests on numbers, lists, the integers,
--                  and `Loop`: a loop on fuel with its rule for invariants. `Action` is a computation
--                  on a state that gives a value, faults, or runs out of fuel.
-- Ctype            bytes, C strings (the bytes before the terminator), and the functions of
--                  <ctype.h> and <stdlib.h> that the code calls, in the "C" locale: `Number` is
--                  strtoul, `Signed` is strtol and the numbers that printf writes.
-- Escape           src/escape.c. `Table` is `esc_chars` with `get_escape` and `get_original`;
--                  `String` is `nl_count_escapes` and `nl_escape_string`; `Unescape` is
--                  `nl_unescape_string`, whose read and write pointers are the fields `unread` and
--                  `written`. `Data` is `nl_count_data_escapes` and `nl_escape_data`: the buffer is a
--                  memory, and a write outside of it has no result. `Encodes` is the relation between
--                  an escaped text and what it stands for, on which the round trips rest.
-- Url              src/url.c: `Encode` is `nl_url_encode`, `Decode` is `nl_url_decode`.
-- Str              src/str.c: `Compare` (`nl_strstart`, `nl_strend`, `nl_strcommon`), `Search`
--                  (`nl_strnpbrk`, `nl_strcount`), `Hex` (`nl_to_hex`, `nl_from_hex`,
--                  `nl_keep_only_hex`), `Lines` (`nl_split_lines`), `Copy` (`nl_strdup`,
--                  `nl_strncpy_term`, `nl_strndup_term`).
-- Fifo             src/fifo.c and include/fifo.h. `Store` holds fifos and elements at addresses; a
--                  command faults when it follows NULL or a freed address. `Ops`, `Walk` and `Bulk`
--                  are the functions. `Segment` defines `IsFifo`: the fifo at an address holds a
--                  given queue of elements. The theorems relate the functions to that queue.
-- Time             include/nl_time.h: `Ops` is the functions on `struct timespec`, `Value` what a
--                  timespec stands for in nanoseconds, `Arith` the sums.
-- Hash             src/hash.c and include/hash.h, whose table is a fifo of entries: `World` is the
--                  memory of fifos, hashes and entries, `Ops` the functions, and `Find` the look-up
--                  in the list of entries that a hash holds.
-- Kvp              src/kvp.c: `Parse` is the state machine of `nl_parse_kvp`, one round for each
--                  character, with `send_pair`, which calls `nl_unescape_string`; `Spans` says which
--                  parts of the line are sent. `Typed` is `nl_kvp_wrapper`, `Decimal` which values
--                  it sends as integers, and `Load` is `nl_hash_parse`. `Entry` is lines of pairs, and
--                  `Runs`, `Quoted`, `Sends` and `Pairs` are what the loop does on them.
-- Term             src/term.c and include/term.h: `Color` is the tables of colors, `Style` the state
--                  and the functions on its colors, `Parse` is `nl_term_parse_ansi_color`, one round
--                  of whose loop is `parse_step`. `Safety` bounds every read of a table; `Codes` is
--                  a description of a list of codes without the state machine.
-- Variant          src/variant.c and include/variant.h: `Value` is the tagged union, whose value has the
--                  type that its tag says; `Memory` copies and frees, with the addresses that are
--                  allocated; `Compare` is ranges, clamping and comparison; `Text` prints, and `Read`
--                  is `nl_string_to_varvalue`. `Ownership`, `Order`, `Display` and `RoundTrip` are
--                  the theorems.
-- Thread           src/thread.c. `System` is the structures at their addresses, the locks, the calls
--                  that were made and the answers to come; `Ops`, `Signal`, `Timeout`, `Setup` and
--                  `Track` are the functions. `Chain` defines `IsContext`: the context at an address
--                  holds a given list of threads. `Locks`, `Join`, `Destroy`, `Create`, `Signals`
--                  relate the functions to that list.
-- UrlReq           src/url_req.c. `State` is the requests at their addresses, the context of a loop
--                  with its list and its control pipe, and the events it has caused; `Headers` reads
--                  the lines that curl logs; `Options` and `Steps` write the options of a curl
--                  process, and `Start` starts it; `Process` ends a request, `Add` checks and submits
--                  one, and `Control` has the handlers of the event loop. `Alive`, `Frees`, `Starts`,
--                  `Finish`, `Handle` and `Adds` say what one function does, `Connected` what a started
--                  request has, and `Accepts` which requests are taken; `Runs` is the loop as a
--                  state machine, `Consistent` its invariant over the list and the pipe (`Listed`),
--                  `Preserved` the steps that keep it, and `Taken` the handler of the pipe.
-- The modules called Examples run the functions and the theorems on concrete inputs.
--
-- Conventions. A `char` is its byte, below 256. Numbers are natural numbers without a bound, but for
-- `unsigned int count` of a fifo, which wraps around at 2 ^ 32, and the `int` made of it, the 64 bits
-- of `long` and `size_t` in the conversions of texts and the sizes of data, and the `int` that a
-- number of a variant is. Seconds and nanoseconds are 64-bit integers; a sum of times that overflows
-- has no result. The results of malloc, realloc and nl_strdup are arguments. Error messages are not modelled. Loops over text are bounded
-- by the length of the text, loops over a fifo or a hash by its count and one more, loops over a
-- timespec by the size of its nanoseconds, the parser of pairs by twice the length of the line, and
-- the parser of colors by the length of the string and one more. The loops
-- over the threads of a context are bounded by their number and one more, and the one that waits for a
-- lock by its microseconds.
--
-- What pthreads, libevent, curl, pipes and files answer is a list of answers that is given in advance;
-- a theorem holds for each such list, and a call that finds the list empty is answered with 0. A call
-- is written down in a trace. A failed lock of the context of requests ends the program, so a run goes
-- on only behind a taken lock. The list of requests of that context is the queue that its fifo holds,
-- which the theorems on Fifo justify; the parameters of a request keep their hash as its pairs.
--
-- Not modelled: in include/nl_time.h the conversions to and from double; src/nl_time.c (a sleep); in
-- src/url_req.c the creation, the end and the thread of the event loop (`nl_url_req_init`,
-- `nl_url_req_wait`, `nl_url_req_deinit`, `url_event_thread`), the creation of a libevent buffer
-- (`create_bufferevent`) and the lower priority of a child (`drop_priority_cb`), which are calls of
-- libevent and the system; and src/stream.c, src/exec.c, src/debug.c, src/log.c, src/net.c, src/mem.c,
-- src/nlutils.c and src/sha1.c, which are input, output, system calls and third-party code.
-- programs/do_firmware.c and the tests are programs over the library.
pub mod Prelude
pub mod Ctype
pub mod Escape
pub mod Url
pub mod Variant
pub mod Str
pub mod Fifo
pub mod Time
pub mod Hash
pub mod Kvp
pub mod Term
pub mod Thread
pub mod UrlReq
