-- ===== src/Lib.antt =====
-- A verification library for sJson, the JSON library in one file of src/sJson.c: a parser with a
-- stack of its own, values in an arena, and a writer. The library is used with a bump allocator that
-- the caller creates; a text is parsed into values that live in the arena, values are read, built,
-- changed, compared and cloned, and they are written back into a buffer of a fixed size. Two layers
-- stand on it: the C interface for other languages, and the items of the cJSON adapter. Paths and
-- function names below are those of src/sJson.c where no other file is named.
--
-- The parts and their modules:
--
-- - Base, with Base/Tests, Base/Lists, Base/Int, Base/Words, Base/Bits and Base/Arrays: helpers that
--   all parts share.
-- - Error: JsonError, the results of functions that can fail, json_error_str.
-- - Text: json__parse_hex4 (Text/Hex), json__utf8_decode, json__encode_utf8 and json__valid_utf8
--   (Text/Utf8), json_fnv1a (Text/Hash), and the two passes of json__parse_string (Text/Str). Proofs
--   stand in Text/Hex/Value, Text/Utf8/Canonical, and Text/Str/Loop, Shorter, Escape, Unit,
--   Passes and Sound.
-- - Arena: JsonArena and its operations; Arena/Align, Chain, Served, Alloc, History and Reset hold the
--   proofs.
-- - Number: json__parse_number; Number/Digits follows the mantissa, Number/Integer reads literals,
--   Number/Shorter shows that a byte is taken.
-- - Value: JsonValue, json__arr_grow and json__obj_grow.
-- - Parser: the stack of json_parse; Parser/Round is one round of its loop, Parser/Run the loop and the
--   calls json_parse and json_parse_cstr. Parser/Invariant says what holds between rounds; the proofs
--   stand in Parser/Safe, SafeValue, SafeRound and Total, and on the arena in Parser/Memory,
--   MemoryRound, MemoryRun and Parser/ArenaAfter.
-- - Access: the getters, json_arr_get, json_obj_get_n and json_obj_iter; Access/Kinds the tests of the
--   type. Access/Linear has the proof on the linear scan, Access/Binary that on the binary search.
-- - Path: json_path; Path/Segments follows a path that is spelled from keys and indices.
-- - Sort: json__key_cmp, json__isort and json__heapsort; Sort/Introsort: json__introsort and the sort of
--   the indices of an object. Sort/Permutes, Perm and IntroPerm hold the proofs.
-- - Writer: JsonWriter with its primitives, from jw_put to jw_string_content; Writer/Value:
--   json__write_value; Writer/Calls: json_write, json_measure and json_write_arena. Writer/Render says
--   what the text of a value is, without a buffer; Writer/Puts, PutsString, PutsValue and Refines hold
--   the proofs that the code writes it, Writer/Within, WithinValue and Bounded those on the bounds of the
--   buffer, Writer/Tight, TightPuts, TightString, TightEntries, TightValue and Refuses those on a buffer that is too small, Writer/Decimal and Writer/Integer those on jw_int64.
-- - Build: json_make_null to json_make_object, json_arr_push, json_obj_set and json_obj_finalize;
--   Build/Clone: json_clone; Build/Equal: json_equal. Build/Set and Build/Lookup follow a key that is set,
--   Build/Copy and Build/CloneEqual a clone, Build/Finalize an object after json_obj_finalize.
-- - Ffi: bindings/ffi/sjson_ffi.c, with the proof in Ffi/Opens.
-- - Compat: compat/cjson/sjson_cjson_compat.h; Compat/Calls has the calls on items, Compat/Owned the count
--   of the owner, Compat/Prints the printing.
-- - Tests: runs on small inputs, which show that the conditions of the theorems can hold.
--
-- How the code is rendered:
--
-- - A byte is a natural number below 256, an input is a list of bytes, and a position in an input is
--   the list of the bytes from there on. Where a function is given an output buffer, the model gives
--   the bytes that are written. JsonError is a data type with its constructors; a function that returns
--   JSON_OK with a result gives `ok`.
-- - Sizes and words are natural numbers; where the C code can wrap around, `% 2 ^ 64`, `% 2 ^ 32` and so
--   on are written out. size_t has 64 bits.
-- - The arena is the chain of blocks, split at the current one; an address is the number of a block and
--   an offset. The backing allocator is a function that grants or refuses its n-th request, so every
--   pattern of failures is covered.
-- - A double is its bit pattern. Arithmetic on doubles, strtod and snprintf are the record Fpu, an
--   argument of the definitions that call them; only the theorem on json_equal needs a law about it,
--   that a finite double is equal to itself.
-- - A value is a tree, and a call that changes a container gives the changed tree. While json_parse
--   builds it, each container is reachable only from its frame, so the frame holds it. An access that C
--   leaves undefined (a NULL container, one of another type, a key that is not set, an index behind the
--   capacity) is the outcome `fault` of a round. Where json_equal compares pointers, an argument says
--   for each pair of nodes whether they are the same.
-- - A sort works on a list of indices; `none` is an access out of bounds, which does not occur. A lookup by
--   binary search gives `none` outside where the sorted indices do not name a pair.
-- - The items of the cJSON adapter that share an arena are a list with their owner; the use of an item
--   or an owner that is freed is `none`.
--
-- Loops over an input are recursions on the list of bytes; where a round takes several bytes, the
-- length of the input is the fuel, each round takes one byte at least, and so it never runs out. The
-- loop of json_parse has one round more than the input has bytes, and that of json_path as many as the
-- path, for the same reason. The loop of jw_int64 has 64 rounds, since each round divides a 64-bit value
-- by ten. The loops of a sort have the length of the array as fuel; its end within that fuel is proved
-- with the rearrangement.
--
-- Not modelled: values that share parts or contain themselves, other than the pointers that json_equal
-- compares; the choice of allocation at compile time, other than a backing allocator that is given or
-- malloc and free; timing, and the memory contents of the blocks beyond the sizes and offsets. The
-- bindings for Rust, Python and C++, the benchmarks, the fuzzer and the tests of the repository only
-- call the functions above.
pub mod Base
pub mod Error
pub mod Text
pub mod Arena
pub mod Number
pub mod Value
pub mod Parser
pub mod Access
pub mod Path
pub mod Sort
pub mod Writer
pub mod Build
pub mod Ffi
pub mod Compat
pub mod Tests
