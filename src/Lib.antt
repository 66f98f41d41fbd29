-- ===== src/Lib.antt =====
-- liblw: a coroutine-based web framework in C++. This library models the code that decides what
-- the framework does: the comparisons that key its maps, futures and the scheduler that resumes
-- their coroutines, buffers and who owns them, the parsing of requests and of the endpoints they
-- are routed to, the text of responses, the flags of the command line, buffered reading, bytes in
-- hexadecimal and base 64, and JSON. Requests and responses keep their headers in maps ordered by
-- the comparisons; a path that matches an endpoint gives such a map of its parameters.
--
-- Parts, and where they are modelled:
-- - lw/base/strings.h: `Base.Strings` (`hash`, `equal`, `compare`, `less` are the `operator()` of
--   the four classes), over the character classes of `Base.Chars`. `Base.Views`, `Base.Numbers`
--   and `Base.OrderedMap` model what the program uses of `std::string_view`, `std::from_chars`
--   and `std::map`.
-- - lw/err/canonical.h: `Err` has the classes of errors as the values `Error`, and `Result` for code
--   that may throw; `Err.Action` is for methods that change an object and may throw. The messages
--   and the stacks of locations are not modelled.
-- - lw/err/system.cpp: `Err.System`, the table from the numbers of Linux for the codes of the system.
-- - lw/memory/circular_queue.h: `Memory.CircularQueue`, one function for each member.
-- - lw/memory/buffer.h and buffer.cpp: `Memory.Buffer`, buffers by name on a heap of blocks; a
--   pointer is a block and an offset. The bytes of a block that is only allocated are an argument.
-- - lw/co/future.h: `Co.Future`, promises and futures that share states by their index, with
--   `Void` for the void specialisations. `Scheduler::schedule` is an argument. The loop of
--   `_get_state` takes fuel, one round for each state and one more. `Co.Future.Race` takes
--   `await_suspend` and `set_value` apart into the accesses of the shared state, for two threads.
-- - lw/co/scheduler.cpp and lw/co/systems/epoll.cpp: `Co.Scheduler`, `Co.Epoll` and `Co.Event`. What
--   the coroutines do when they are resumed, and the calls of the system, are arguments;
--   `Co.Epoll.Reserved` says what is relied on of eventfd and epoll. The loop of `run` takes the
--   number of its rounds, since it may go on for ever.
-- - lw/co/task.h, generator.h and sequences.h: `Co.Task` and `Co.Generator`. The coroutine of a
--   task is how often it suspends itself and how it ends, that of a generator is a function from
--   the place where it is suspended to what it does next.
-- - lw/http/headers.h, http_request.h and http_request.cpp: `Http.Headers`, and `Http.Request` with
--   its children `Scan`, `Field`, `Query` and `Line`, one function for each function of the source.
--   Loops over the bytes of a view are recursions on the bytes that are left, with the index beside
--   them; the loop over the header lines takes fuel, one round for each byte and one more.
-- - lw/http/http_response.h and http_response.cpp: `Http.Response`; what a stream prints for a number
--   is an argument of `serialize`.
-- - lw/http/internal/http_mount_path.cpp: `Http.MountPath` has the matchers and `MountPath::match`,
--   `Http.MountPath.Parse` the state machine of `parse_into_matchers`, one function for each state.
--   `std::regex` and `std::to_string` are arguments. `Http.Trie` models `EndpointTrie`: its nodes
--   are trees, and the walk takes fuel, one round for each node of the trie.
-- - lw/http/http.cpp and http_handler.cpp: `Http.Router`, from the bytes of a header to the bytes of
--   the response; the handlers of the application are an argument.
-- - lw/mime/json.h and json.cpp: `Mime.Json`, with `Formatter` for `JSONSerializationFormatter`
--   (a stack of states and the text), `Escape` for the escapes of strings, `Tokens` for the trees
--   and their accessors, and `Parser` for `JSONParse`. The loop of `update` takes fuel, one round
--   for each byte.
-- - lw/flags/format.h and format.cpp: `Flags.Format`, one function for each specialisation of `parse`
--   and each overload of `format` but those of the floating point types. A duration is its
--   nanoseconds. The loop of its parser takes fuel, one round for each byte.
-- - lw/flags/flags.h and flags.cpp: `Flags`, a table of flags under the hash of their names, where a
--   flag carries its type; `std::hash` is an argument, `print_flags` is left out.
-- - lw/base/init.cpp: `Flags.Init`, the loop over the arguments; the help text is left out.
-- - lw/io/co/co.h and co.cpp: `Io.Reader`, the reader of a source with the two windows of its buffer.
--   A window is an offset and a size; a new buffer is filled with 0; the loops over a limit are
--   recursions on the rounds that are left.
-- - lw/format/blobs.h and blobs.cpp: `Format.Blobs`, with `Hex` and `Base64` for the two iterators.
--   The loop that prints a view takes the size of the view as its fuel.
--
-- A `char` is its unsigned value: <cctype> is defined on those alone, and a byte above 127 is in no
-- class of the "C" locale. Where `compare` subtracts characters, such a byte is the negative `char`
-- that it is. Two indexes that the standard leaves undefined are taken as what they reach: a slot of
-- the storage that `CircularQueue` reserves, and the end of a path in `EndpointTrie`. A `std::size_t` is a number, and the arithmetic that can wrap is written
-- with its `% 2 ^ 64`; sizes of views stand below that. The result `undefined` stands for a step
-- that C++ leaves undefined, and for a loop that does not end.
--
-- Not modelled: timers, `all`, and the yielding of a future in a generator; sockets, TLS and
-- the servers over them, which are calls of the system and of OpenSSL; the serializer, which is
-- built of templates over types that the application gives; the log; and the headers of
-- compile-time helpers.
pub mod Prelude
pub mod Err
pub mod Base
pub mod Memory
pub mod Http
pub mod Mime
pub mod Flags
pub mod Format
pub mod Io
pub mod Co
